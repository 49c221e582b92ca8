-- ===== src/Lunix/Chrdev/Tests.antt =====
-- The character devices of lunix-chrdev.c on concrete measurements.
use operating_systems_ntua.Prelude.{
  zero, suc, ◌%◌, ◌≡◌, refl, ok, true, false, none, some, [], ◌∷◌, arith, length,
}
use operating_systems_ntua.Prelude.Int.{pos, negsuc}
use operating_systems_ntua.Lunix.Sensors.{MsrData, Sensor, measured}
use operating_systems_ntua.Lunix.Chrdev.{
  State, Tables, msr_page, digits, text, cache, state_update, open_device, Round, ready, down,
  wait_fresh, copy_out, returned, read, Reply, up, snprintf,
}
use operating_systems_ntua.Lunix.Chrdev.Text.{parse, parse-text}
use operating_systems_ntua.Lunix.Chrdev.Reads.{
  LockIs, IsSmall, FreshBytes, read-FreshBytes, read-lock,
}
use operating_systems_ntua.Lunix.Chrdev.Drain.{drain, beginnings, AsksFor, drain-beginnings}

-- Tables that give the raw value, of 16 bits, in thousandths.
abbrev tables : Tables
tables = record {
  voltage = λ r. pos (r % 65536);
  temperature = λ r. negsuc (r % 65536);
  light = λ r. pos (r % 65536);
}

abbrev page : MsrData
page = measured 7 23045

abbrev sensor : Sensor
sensor = record {
  batt_data = some page;
  temp_data = some page;
  light_data = some page;
  wake_ups = 0;
}

-- A round that sees the page, and one that finds nothing new.
abbrev fresh_round : Round
fresh_round = record { checked = some page; page = some page; wait_ok = true; down_ok = true }

abbrev stale_round : Round
stale_round = record {
  checked = some (measured 0 0);
  page = some (measured 0 0);
  wait_ok = true;
  down_ok = true;
}

abbrev opened : State
opened = record (open_device 0) { lock = 1 }

abbrev cached : State
cached = cache (down (open_device 0)) page (pos 23045)

text_example : text (pos 23045) ≡ b'+' ∷ b'2' ∷ b'3' ∷ b',' ∷ b'4' ∷ b'5' ∷ []
unfolding digits
text_example = refl

parse-text_example : parse (text (negsuc 23044)) ≡ some (negsuc 23044)
parse-text_example = parse-text (negsuc 23044)

waits : wait_fresh tables (down (open_device 0)) (stale_round ∷ fresh_round ∷ []) ≡ ready cached
unfolding wait_fresh state_update open_device
waits = refl

tables-IsSmall : IsSmall tables
tables-IsSmall zero raw v h = ground (arith, h)
tables-IsSmall (suc zero) raw v h = ground (arith, h)
tables-IsSmall (suc (suc zero)) raw v h = ground (arith, h)
tables-IsSmall (suc (suc (suc type))) raw v h = ground (arith, h)

abbrev four_bytes : Reply
four_bytes = record { result = ok (b'+' ∷ b'2' ∷ b'3' ∷ b',' ∷ []); f_pos = 4; state = up cached }

reads :
    read tables (open_device 0) 4 0 true true (stale_round ∷ fresh_round ∷ []) ≡ returned four_bytes
unfolding read wait_fresh state_update open_device copy_out cache snprintf digits
reads = refl

read-FreshBytes_example :
    FreshBytes tables
      (open_device 0)
      4
      (stale_round ∷ fresh_round ∷ [])
      four_bytes
      (b'+' ∷ b'2' ∷ b'3' ∷ b',' ∷ [])
read-FreshBytes_example =
    read-FreshBytes tables (open_device 0) 4 true true (stale_round ∷ fresh_round ∷ []) four_bytes
      (b'+' ∷ b'2' ∷ b'3' ∷ b',' ∷ []) tables-IsSmall (omega arith) reads refl

abbrev unlocked : State
unlocked = record {
  type = 0;
  sensor = 0;
  buf_lim = 6;
  buf_data = b'+' ∷ b'2' ∷ b'3' ∷ b',' ∷ b'4' ∷ b'5' ∷ 0 ∷ [];
  buf_timestamp = 7;
  lock = 1;
}

read-lock_example : LockIs 1 (read tables unlocked 4 2 true false [])
read-lock_example = read-lock tables unlocked 4 2 true false [] (omega arith)

asks : AsksFor (length (text (pos 23045))) (4 ∷ 1 ∷ 1 ∷ [])
unfolding digits
asks =
    (omega arith, (omega arith, (omega arith, (omega arith, (omega arith, (omega arith, refl))))))

drain-beginnings_example :
    (drain (cache unlocked page (pos 23045)) (4 ∷ 1 ∷ 1 ∷ []) 0
      ≡ beginnings (text (pos 23045)) (length (text (pos 23045))) (4 ∷ 1 ∷ 1 ∷ []))
    × (length (drain (cache unlocked page (pos 23045)) (4 ∷ 1 ∷ 1 ∷ []) 0)
        ≡ length (text (pos 23045)))
drain-beginnings_example =
    drain-beginnings unlocked page (pos 23045) (4 ∷ 1 ∷ 1 ∷ []) (omega arith) asks

-- What the process gets is "+23,", "+" and "+".
three_reads :
    beginnings (b'+' ∷ b'2' ∷ b'3' ∷ b',' ∷ b'4' ∷ b'5' ∷ []) 6 (4 ∷ 1 ∷ 1 ∷ [])
    ≡ b'+' ∷ b'2' ∷ b'3' ∷ b',' ∷ b'+' ∷ b'+' ∷ []
three_reads = refl

abbrev lost_round : Round
lost_round = record fresh_round { checked = none }

unknown_page : lost_round.checked ≡ msr_page sensor (open_device 5).type
unfolding open_device
unknown_page = refl
