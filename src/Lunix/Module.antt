-- ===== src/Lunix/Module.antt =====
-- lunix-module.c, with the parts of lunix-sensors.c, lunix-ldisc.c and lunix-chrdev.c that take and
-- give back the kernel's resources: what loading and unloading the module does to them.
pub mod Balance
pub mod Leak
mod Tests
use operating_systems_ntua.Prelude.{
  ℕ, zero, suc, ◌+◌, ◌-◌, ◌*◌, Bool, true, false, Option, none, some, List, [], ◌∷◌, if◌then◌else◌,
  Errno, enomem, Result, ok, err,
}
use mathlib.Core.List.{reverse}
use operating_systems_ntua.Lunix.Sensors.{MsrData, Sensor, msr_magic}
use operating_systems_ntua.Lunix.Protocol.{State, init}

-- What the module holds of the kernel's resources, and how often a page was asked for.
pub record Kernel : Type 0 where
  pub pages : ℕ
  pub page_calls : ℕ
  pub blocks : ℕ
  pub ldiscs : ℕ
  pub regions : ℕ
  pub cdevs : ℕ

-- How the kernel answers: which call of get_zeroed_page succeeds, and the results of kzalloc,
-- tty_register_ldisc, register_chrdev_region and cdev_add, `none` for 0.
pub record Env : Type 0 where
  pub page_ok : ℕ → Bool
  pub kzalloc_ok : Bool
  pub register_ldisc : Option Errno
  pub register_region : Option Errno
  pub add_cdev : Option Errno

-- A page as get_zeroed_page returns it, with the magic number set.
abbrev pub fresh_page : Option MsrData
fresh_page = some (record { magic = msr_magic; last_update = 0; value = 0 })

abbrev pub page_taken : Kernel → Kernel
page_taken k = record k { pages = k.pages + 1; page_calls = k.page_calls + 1 }

abbrev pub page_refused : Kernel → Kernel
page_refused k = record k { page_calls = k.page_calls + 1 }

-- A sensor with its first pages, the others null.
abbrev pub sensor_with : Option MsrData → Option MsrData → Option MsrData → Sensor
sensor_with b t l = record { batt_data = b; temp_data = t; light_data = l; wake_ups = 0 }

-- `lunix_sensor_init`: the loop over the three measurements, unrolled.
pub sensor_init : Env → Kernel → Kernel × Sensor × Option Errno
sensor_init env k =
    if env.page_ok k.page_calls
    then (let k₁ = page_taken k in
        if env.page_ok k₁.page_calls
        then (let k₂ = page_taken k₁ in
            if env.page_ok k₂.page_calls
            then (page_taken k₂, sensor_with fresh_page fresh_page fresh_page, none)
            else (page_refused k₂, sensor_with fresh_page fresh_page none, some enomem))
        else (page_refused k₁, sensor_with fresh_page none none, some enomem))
    else (page_refused k, sensor_with none none none, some enomem)

abbrev pub held : Option MsrData → ℕ
held none = 0
held (some _) = 1

-- `lunix_sensor_destroy`: free_page for every pointer that is not null.
pub sensor_destroy : Kernel → Sensor → Kernel
sensor_destroy k s = record k {
  pages = k.pages - (held s.batt_data + held s.temp_data + held s.light_data);
}

-- `for (; si_done >= 0; si_done--) lunix_sensor_destroy(...)`, the last sensor first.
pub destroy_sensors : Kernel → List Sensor → Kernel
destroy_sensors k [] = k
destroy_sensors k (s ∷ done) = destroy_sensors (sensor_destroy k s) done

-- The loop that initializes the sensors, with the number still to do and those done, the last
-- first. At a failure the sensor that failed is not among those done.
pub init_sensors : Env → ℕ → Kernel → List Sensor → Kernel × List Sensor × Option Errno
init_sensors env zero k done = (k, done, none)
init_sensors env (suc n) k done =
    let (k', s, failed) = sensor_init env k in
    let rest = init_sensors env n k' (s ∷ done) in
    elim failed [ some e ↦ (k', done, some e) | none ↦ rest ]

-- `lunix_ldisc_init` and `lunix_ldisc_destroy`
pub ldisc_init : Env → Kernel → Kernel × Option Errno
ldisc_init env k = elim env.register_ldisc [
  | none ↦ (record k { ldiscs = k.ldiscs + 1 }, none)
  | some e ↦ (k, some e)
]

pub ldisc_destroy : Kernel → Kernel
ldisc_destroy k = record k { ldiscs = k.ldiscs - 1 }

-- `lunix_chrdev_init`: a region that was registered is given back where cdev_add fails.
pub chrdev_init : Env → Kernel → Kernel × Option Errno
chrdev_init env k = elim env.register_region [
  | some e ↦ (k, some e)
  | none ↦
      (let k' = record k { regions = k.regions + 1 } in
        elim env.add_cdev [
          | some e ↦ (record k' { regions = k'.regions - 1 }, some e)
          | none ↦ (record k' { cdevs = k'.cdevs + 1 }, none)
        ])
]

-- `lunix_chrdev_destroy`
pub chrdev_destroy : Kernel → Kernel
chrdev_destroy k = record k { cdevs = k.cdevs - 1; regions = k.regions - 1 }

-- `lunix_sensors` and `lunix_protocol_state`
pub record Driver : Type 0 where
  pub sensors : List Sensor
  pub protocol : State

-- `kfree(lunix_sensors)`
abbrev pub kfree : Kernel → Kernel
kfree k = record k { blocks = k.blocks - 1 }

-- The labels `out_with_sensors` and `out_with_ldisc`
abbrev pub out_with_sensors : Kernel → List Sensor → Errno → Kernel × Result Driver
out_with_sensors k done e = (kfree (destroy_sensors k done), err e)

abbrev pub out_with_ldisc : Kernel → List Sensor → Errno → Kernel × Result Driver
out_with_ldisc k done e = out_with_sensors (ldisc_destroy k) done e

-- The code from `lunix_ldisc_init` on
pub init_devices : Env → Kernel → List Sensor → State → Kernel × Result Driver
init_devices env k done protocol =
    let (k₁, no_ldisc) = ldisc_init env k in
    let (k₂, no_chrdev) = chrdev_init env k₁ in
    elim no_ldisc [
      | some e ↦ out_with_sensors k₁ done e
      | none ↦ elim no_chrdev [
        | some e ↦ out_with_ldisc k₂ done e
        | none ↦ (k₂, ok (record { sensors = reverse done; protocol = protocol }))
      ]
    ]

-- `lunix_module_init` with `cnt` sensors; `protocol` is the state's memory at load.
pub module_init : Env → ℕ → State → Kernel → Kernel × Result Driver
module_init env cnt protocol k =
    if env.kzalloc_ok
    then (let (k', done, failed) = init_sensors env cnt (record k { blocks = k.blocks + 1 }) [] in
        elim failed [
          | some e ↦ out_with_sensors k' done e
          | none ↦ init_devices env k' done (init protocol)
        ])
    else (k, err enomem)

-- `lunix_module_cleanup`
pub module_cleanup : Driver → Kernel → Kernel
module_cleanup d k = kfree (destroy_sensors (ldisc_destroy (chrdev_destroy k)) (reverse d.sensors))
