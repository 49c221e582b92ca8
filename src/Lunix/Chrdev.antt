-- ===== src/Lunix/Chrdev.antt =====
-- lunix-chrdev.c and lunix-chrdev.h: the character devices, from which a process reads the newest
-- measurement of one sensor as text.
pub mod Text
pub mod Reads
pub mod Drain
pub mod Open
mod Tests
use operating_systems_ntua.Prelude.{
  ℕ, zero, suc, ◌+◌, ◌-◌, ◌*◌, ◌/◌, ◌%◌, ◌^◌, min, Bool, true, false, not, Option, none, some, List,
  [], ◌∷◌, ◌++◌, ltb, leb, ◌==◌, if◌then◌else◌, length, take, drop, replicate, Errno, eagain,
  efault, enotty, einval, erestartsys, Result, ok, err,
}
use operating_systems_ntua.Prelude.Int.{ℤ, pos, negsuc, nat_abs}
use operating_systems_ntua.Lunix.Sensors.{MsrData, Sensor}

-- LUNIX_CHRDEV_MAJOR, which is LUNIX_IOC_MAGIC too, and LUNIX_CHRDEV_BUFSZ
abbrev pub chrdev_major : ℕ
chrdev_major = 60

abbrev pub bufsz : ℕ
bufsz = 20

-- `struct lunix_chrdev_state_struct`; `sensor` is the index into `lunix_sensors`, `type` any number
-- of three bits, and `lock` the count of the semaphore.
pub record State : Type 0 where
  pub type : ℕ
  pub sensor : ℕ
  pub buf_lim : ℕ
  pub buf_data : List ℕ
  pub buf_timestamp : ℕ
  pub lock : ℕ

-- The tables of the generated file lunix-lookup.h.
pub record Tables : Type 0 where
  pub voltage : ℕ → ℤ
  pub temperature : ℕ → ℤ
  pub light : ℕ → ℤ

-- `sensor->msr_data[type]`; `none` is a null pointer or an index past the array.
abbrev pub msr_page : Sensor → ℕ → Option MsrData
msr_page s zero = s.batt_data
msr_page s (suc zero) = s.temp_data
msr_page s (suc (suc zero)) = s.light_data
msr_page s _ = none

-- `lunix_chrdev_state_needs_refresh` on the page that it sees
abbrev pub needs_refresh : State → MsrData → Bool
needs_refresh st page = not (st.buf_timestamp == page.last_update)

-- The digits of a number in front of a text; the fuel is one more than the number.
pub digits : ℕ → ℕ → List ℕ → List ℕ
digits zero n rest = rest
digits (suc f) n rest =
    let more = digits f (n / 10) ((48 + n % 10) ∷ rest) in
    if ltb n 10 then (48 + n) ∷ rest else more

-- `%ld` of a number that is not negative
abbrev pub decimal : ℕ → List ℕ
decimal n = digits (n + 1) n []

-- `'+'` or `'-'`
abbrev pub sign : ℤ → ℕ
sign (pos n) = b'+'
sign (negsuc n) = b'-'

-- "%c%ld,%ld" of the sign, the thousands and the rest
abbrev pub text : ℤ → List ℕ
text v = sign v ∷ (decimal (nat_abs v / 1000) ++ (b',' ∷ decimal (nat_abs v % 1000)))

-- What snprintf leaves in a buffer: at most `size - 1` bytes of the text, a zero byte, and behind it
-- what was there.
pub snprintf : List ℕ → ℕ → List ℕ → List ℕ
snprintf old size t = take (size - 1) t ++ (0 ∷ drop (min (size - 1) (length t) + 1) old)

-- The switch over the type; `none` is its default.
abbrev pub lookup : Tables → ℕ → ℕ → Option ℤ
lookup tables zero raw = some (tables.voltage raw)
lookup tables (suc zero) raw = some (tables.temperature raw)
lookup tables (suc (suc zero)) raw = some (tables.light raw)
lookup tables _ raw = none

pub data Update : Type 0 where
  fault again : Update
  updated : State → Update

-- The formatting at the end of `lunix_chrdev_state_update`; snprintf returns the text's full length.
pub cache : State → MsrData → ℤ → State
cache st page v = record st {
  buf_lim = length (text v);
  buf_data = snprintf st.buf_data bufsz (text v);
  buf_timestamp = page.last_update;
}

-- `lunix_chrdev_state_update`, with the pages as its unlocked check and its last locked read see
-- them: the sensor may be updated in between. The first locked read is overwritten by the last.
pub state_update : Tables → State → Option MsrData → Option MsrData → Update
state_update tables st none seen = fault
state_update tables st (some checked) none = fault
state_update tables st (some checked) (some page) =
    if needs_refresh st checked
    then elim (lookup tables st.type page.value) [
      | none ↦ again
      | some v ↦ updated (cache st page v)
    ]
    else again

-- `lunix_chrdev_open` for a minor number, if nonseekable_open gives 0 and kzalloc gives memory.
pub open_device : ℕ → State
open_device minor = record {
  sensor = minor / 8;
  type = minor % 8;
  buf_lim = 0;
  buf_data = replicate bufsz 0;
  buf_timestamp = 0;
  lock = 1;
}

-- One round of the loop in `lunix_chrdev_read`: the pages that the update sees, and whether the wait
-- and the semaphore are got without a signal.
pub record Round : Type 0 where
  pub checked : Option MsrData
  pub page : Option MsrData
  pub wait_ok : Bool
  pub down_ok : Bool

-- The device ready to be copied from with the lock held, an errno with the lock as it is, a fault, or
-- a process that still sleeps when the rounds run out.
pub data Waited : Type 0 where
  ready : State → Waited
  stopped : Errno → State → Waited
  crashed : Waited
  asleep : State → Waited

abbrev pub down : State → State
down st = record st { lock = st.lock - 1 }

abbrev pub up : State → State
up st = record st { lock = st.lock + 1 }

-- A round's end: the loop ends, or the process sleeps without the lock and comes back with it.
abbrev pub after_update : State → Round → Waited → Update → Waited
after_update st r next fault = crashed
after_update st r next (updated st') = ready st'
after_update st r next again =
    if r.wait_ok
    then (if r.down_ok then next else stopped erestartsys (up st))
    else stopped erestartsys (up st)

-- `while (lunix_chrdev_state_update(state) == -EAGAIN)`, with the lock held on entry.
pub wait_fresh : Tables → State → List Round → Waited
wait_fresh tables st [] = asleep (up st)
wait_fresh tables st (r ∷ rs) =
    after_update st r (wait_fresh tables (down (up st)) rs)
      (state_update tables st r.checked r.page)

-- What a read gives back: the bytes copied or an errno, the file's position, and the state.
pub record Reply : Type 0 where
  pub result : Result (List ℕ)
  pub f_pos : ℕ
  pub state : State

-- The number of bytes to copy; size_t arithmetic wraps.
abbrev pub clip : State → ℕ → ℕ → ℕ
clip st cnt f_pos =
    if leb st.buf_lim ((f_pos + cnt) % 2 ^ 64) then (st.buf_lim + 2 ^ 64 - f_pos) % 2 ^ 64 else cnt

-- `lunix_chrdev_read` behind the wait, to the unlock; `copy_ok` says if copy_to_user returns 0. The copy
-- begins at the start of the buffer, wherever the position is.
pub copy_out : State → ℕ → ℕ → Bool → Reply
copy_out st cnt f_pos copy_ok =
    let n = clip st cnt f_pos in
    if copy_ok
    then record {
      result = ok (take n st.buf_data);
      f_pos = if f_pos + n == st.buf_lim then 0 else f_pos + n;
      state = up st;
    }
    else record { result = err efault; f_pos = f_pos; state = up st }

pub data Read : Type 0 where
  returned : Reply → Read
  failed : Read
  sleeping : State → Read

-- The code behind the loop, with the lock held, and the returns out of the loop.
abbrev pub finish_read : ℕ → ℕ → Bool → Waited → Read
finish_read cnt f_pos copy_ok (ready st) = returned (copy_out st cnt f_pos copy_ok)
finish_read cnt f_pos copy_ok (stopped e st) =
    returned (record { result = err e; f_pos = f_pos; state = st })
finish_read cnt f_pos copy_ok crashed = failed
finish_read cnt f_pos copy_ok (asleep st) = sleeping st

-- `lunix_chrdev_read`; `down_ok` is the first down_interruptible.
pub read : Tables → State → ℕ → ℕ → Bool → Bool → List Round → Read
read tables st cnt f_pos down_ok copy_ok rounds =
    let waited = if f_pos == 0 then wait_fresh tables (down st) rounds else ready (down st) in
    if down_ok
    then finish_read cnt f_pos copy_ok waited
    else returned (record { result = err erestartsys; f_pos = f_pos; state = st })

-- `_IOC_NR`, `_IOC_TYPE` and LUNIX_IOC_EXAMPLE, `_IOR(LUNIX_IOC_MAGIC, 0, void *)`
abbrev pub ioc_nr : ℕ → ℕ
ioc_nr cmd = cmd % 256

abbrev pub ioc_type : ℕ → ℕ
ioc_type cmd = cmd / 256 % 256

abbrev pub ioc_example : ℕ
ioc_example = 2 * 2 ^ 30 + 8 * 2 ^ 16 + chrdev_major * 256

-- `lunix_chrdev_ioctl`; the lock is taken and given back for the one command.
pub ioctl : State → ℕ → Bool → Result ℕ × State
ioctl st cmd down_ok =
    if ioc_type cmd == chrdev_major
    then (if ltb 0 (ioc_nr cmd)
        then (err enotty, st)
        else if cmd == ioc_example
        then (if down_ok then (ok 0, up (down st)) else (err erestartsys, st))
        else (err enotty, st))
    else (err enotty, st)

-- `lunix_chrdev_mmap`
abbrev pub mmap : State → Result ℕ
mmap st = err einval
