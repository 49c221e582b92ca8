-- ===== src/Lunix/Sensors.antt =====
-- lunix-sensors.c and the sensor structures of lunix.h: the measurement pages of one sensor.
use operating_systems_ntua.Prelude.{ℕ, ◌+◌, Option, none, some}

-- LUNIX_MSR_MAGIC
abbrev pub msr_magic : ℕ
msr_magic = 0xF00DF00D

-- `enum lunix_msr_enum`, less its count N_LUNIX_MSR.
pub data Msr : Type 0 where
  batt temp light : Msr

-- `struct lunix_msr_data_struct`; of the flexible array the code uses `values[0]` alone.
pub record MsrData : Type 0 where
  pub magic : ℕ
  pub last_update : ℕ
  pub value : ℕ

-- `struct lunix_sensor_struct`: a field for each `msr_data[i]`, `none` for a null pointer, and the
-- number of calls of wake_up_interruptible on `wq`. The spin lock is held for the whole update,
-- so that an update is one step.
pub record Sensor : Type 0 where
  pub batt_data : Option MsrData
  pub temp_data : Option MsrData
  pub light_data : Option MsrData
  pub wake_ups : ℕ

-- `s->msr_data[type]`
abbrev pub msr_data : Msr → Sensor → Option MsrData
msr_data batt s = s.batt_data
msr_data temp s = s.temp_data
msr_data light s = s.light_data

-- A page that holds one measurement, as `lunix_sensor_update` leaves it.
abbrev pub measured : ℕ → ℕ → MsrData
measured now v = record { magic = msr_magic; last_update = now; value = v }

-- `lunix_sensor_update` at the time `now` of get_seconds; `none` is a write through a null pointer.
unfoldable pub sensor_update : ℕ → Sensor → ℕ → ℕ → ℕ → Option Sensor
sensor_update now s b t l = elim s.batt_data [
  | none ↦ none
  | some _ ↦ elim s.temp_data [
    | none ↦ none
    | some _ ↦ elim s.light_data [
      | none ↦ none
      | some _ ↦ some (record {
        batt_data = some (measured now b);
        temp_data = some (measured now t);
        light_data = some (measured now l);
        wake_ups = s.wake_ups + 1;
      })
    ]
  ]
]
