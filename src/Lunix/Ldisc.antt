-- ===== src/Lunix/Ldisc.antt =====
-- lunix-ldisc.c: the line discipline, meant for one TTY at a time.
pub mod Exclusion
mod Tests
use operating_systems_ntua.Prelude.{
  ℕ, ◌+◌, ◌-◌, Bool, Option, none, some, List, [], ◌∷◌, ◌==◌, if◌then◌else◌, Errno, eperm, ebusy,
  eio, Result, ok, err,
}
use operating_systems_ntua.Lunix.Sensors.{Sensor}
use operating_systems_ntua.Lunix.Protocol.{State, received_buf}

-- `lunix_disc_available`, and the TTYs whose open succeeded and that were not closed since: this
-- list is the TTY layer's, not the driver's.
pub record Ldisc : Type 0 where
  pub available : ℕ
  pub attached : List ℕ

-- `atomic_set(&lunix_disc_available, 1)` of `lunix_ldisc_init`
abbrev pub initial : Ldisc
initial = record { available = 1; attached = [] }

-- `tty->receive_room = 65536`
abbrev pub receive_room : ℕ
receive_room = 65536

-- `lunix_ldisc_open`; atomic_add_unless adds -1 unless the counter is 0, and says if it did. On
-- success the result is the TTY's `receive_room`.
pub open_tty : Bool → ℕ → Ldisc → Result ℕ × Ldisc
open_tty capable tty d =
    if capable
    then (if d.available == 0 then (err ebusy, d) else (
      ok receive_room,
      record d { available = d.available - 1; attached = tty ∷ d.attached },
    ))
    else (err eperm, d)

-- The first occurrence taken out: the TTY layer forgets the TTY.
abbrev pub detach : ℕ → List ℕ → List ℕ
detach tty [] = []
detach tty (t ∷ ts) = if t == tty then ts else t ∷ detach tty ts

-- `lunix_ldisc_close`
pub close_tty : ℕ → Ldisc → Ldisc
close_tty tty d = record d { available = d.available + 1; attached = detach tty d.attached }

-- `lunix_ldisc_read` and `lunix_ldisc_write`, whatever they are asked
abbrev pub read : ℕ → Result ℕ
read cnt = err eio

abbrev pub write : List ℕ → Result ℕ
write buf = err eio

-- `lunix_ldisc_receive_buf` hands the bytes to the protocol.
pub receive_buf : Bool → ℕ → List Sensor → State → List ℕ → Option (State × List Sensor)
receive_buf debug now sensors st cp = received_buf debug now sensors st cp
