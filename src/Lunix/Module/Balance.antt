-- ===== src/Lunix/Module/Balance.antt =====
-- The resources that lunix-module.c takes, on loading, on unloading and on the error paths.
use operating_systems_ntua.Prelude.{
  ℕ, zero, suc, ◌+◌, ◌-◌, ◌≡◌, refl, true, Option, none, List, [], ◌∷◌, arith, length,
  length-reverse, Errno, ok, err,
}
use mathlib.Core.List.{reverse, reverse-reverse}
use operating_systems_ntua.Lunix.Sensors.{Sensor}
use operating_systems_ntua.Lunix.Protocol.{State, init}
use operating_systems_ntua.Lunix.Module.{
  Kernel, Env, sensor_init, held, sensor_destroy, destroy_sensors, init_sensors, ldisc_init,
  ldisc_destroy, chrdev_init, chrdev_destroy, Driver, init_devices, module_init, module_cleanup,
}

-- Two states of the kernel in which the module holds the same.
pub record SameHoldings (k k' : Kernel) : Type 0 where
  pub pages : k.pages ≡ k'.pages
  pub blocks : k.blocks ≡ k'.blocks
  pub ldiscs : k.ldiscs ≡ k'.ldiscs
  pub regions : k.regions ≡ k'.regions
  pub cdevs : k.cdevs ≡ k'.cdevs

-- All but the pages.
pub record SameDevices (k k' : Kernel) : Type 0 where
  pub blocks : k.blocks ≡ k'.blocks
  pub ldiscs : k.ldiscs ≡ k'.ldiscs
  pub regions : k.regions ≡ k'.regions
  pub cdevs : k.cdevs ≡ k'.cdevs

abbrev pub total : List Sensor → ℕ
total [] = 0
total (s ∷ ss) = held s.batt_data + held s.temp_data + held s.light_data + total ss

pub destroy_sensors_lem :
    (k : Kernel) (done : List Sensor)
    → ((destroy_sensors k done).pages ≡ k.pages - total done)
      × SameDevices (destroy_sensors k done) k
unfolding destroy_sensors sensor_destroy
destroy_sensors_lem k [] = ground arith
destroy_sensors_lem k (s ∷ done) = ground (arith, destroy_sensors_lem (sensor_destroy k s) done)

pub sensor_init-SameDevices : (env : Env) (k : Kernel) → SameDevices (sensor_init env k).0 k
unfolding sensor_init
sensor_init-SameDevices env k = ground arith

pub init_sensors-SameDevices :
    (env : Env) (n : ℕ) (k : Kernel) (done : List Sensor)
    → SameDevices (init_sensors env n k done).0 k
unfolding init_sensors
init_sensors-SameDevices env zero k done = ground arith
init_sensors-SameDevices env (suc n) k done =
    let (k', s, failed) = sensor_init env k in
    ground (arith, sensor_init-SameDevices env k, init_sensors-SameDevices env n k' (s ∷ done))

-- A sensor whose initialization succeeds has its three pages, and no other was taken.
pub sensor_init-pages :
    (env : Env) (k : Kernel)
    → (sensor_init env k).2 ≡ none
    → let (k', s, _) = sensor_init env k in (k'.pages ≡ k.pages + 3) × (total (s ∷ []) ≡ 3)
unfolding sensor_init
sensor_init-pages env k h = ground arith

init_sensors-pages :
    (env : Env) (n : ℕ) (k : Kernel) (done : List Sensor)
    → (init_sensors env n k done).2 ≡ none
    → let (k', done', _) = init_sensors env n k done in
      (k'.pages + total done ≡ k.pages + total done') × (length done' ≡ length done + n)
unfolding init_sensors
init_sensors-pages env zero k done h = ground arith
init_sensors-pages env (suc n) k done h =
    let (k', s, failed) = sensor_init env k in
    ground (arith, sensor_init-pages env k, init_sensors-pages env n k' (s ∷ done))

init_sensors-granted :
    (env : Env) (n : ℕ) (k : Kernel) (done : List Sensor)
    → ((c : ℕ) → env.page_ok c ≡ true)
    → (init_sensors env n k done).2 ≡ none
unfolding init_sensors sensor_init
init_sensors-granted env zero k done granted = refl
init_sensors-granted env (suc n) k done granted =
    let (k', s, failed) = sensor_init env k in
    ground (
      arith,
      granted k.page_calls,
      granted (k.page_calls + 1),
      granted (k.page_calls + 1 + 1),
      init_sensors-granted env n k' (s ∷ done) granted,
    )

-- The devices are undone where one of them fails, with the sensors done before.
init_devices-err :
    (env : Env) (k : Kernel) (done : List Sensor) (protocol : State) {k' : Kernel} {e : Errno}
    → init_devices env k done protocol ≡ (k', err e)
    → (k'.pages ≡ k.pages - total done)
      × (k'.blocks ≡ k.blocks - 1)
      × (k'.ldiscs ≡ k.ldiscs)
      × (k'.regions ≡ k.regions)
      × (k'.cdevs ≡ k.cdevs)
unfolding init_devices ldisc_init ldisc_destroy chrdev_init
init_devices-err env k done protocol h = ground (
  arith,
  destroy_sensors_lem k done,
  destroy_sensors_lem (ldisc_destroy (record k { ldiscs = k.ldiscs + 1 })) done,
  destroy_sensors_lem (ldisc_destroy (chrdev_init env (record k { ldiscs = k.ldiscs + 1 })).0) done,
)

init_devices-ok :
    (env : Env) (k : Kernel) (done : List Sensor) (protocol : State) {k' : Kernel} {d : Driver}
    → init_devices env k done protocol ≡ (k', ok d)
    → (k' ≡ record k { ldiscs = k.ldiscs + 1; regions = k.regions + 1; cdevs = k.cdevs + 1 })
      × (d ≡ record { sensors = reverse done; protocol = protocol })
unfolding init_devices ldisc_init ldisc_destroy chrdev_init
init_devices-ok env k done protocol h = ground arith

abbrev pub after_kzalloc : Kernel → Kernel
after_kzalloc k = record k { blocks = k.blocks + 1 }

module _ (env : Env) (cnt : ℕ) (protocol : State) (k : Kernel) where
  abbrev sensors_done : Kernel × List Sensor × Option Errno
  sensors_done = init_sensors env cnt (after_kzalloc k) []

  module_init-eq-ok :
      {k' : Kernel} {d : Driver}
      → module_init env cnt protocol k ≡ (k', ok d)
      → (sensors_done.2 ≡ none)
        × (init_devices env sensors_done.0 sensors_done.1 (init protocol) ≡ (k', ok d))
  unfolding module_init
  module_init-eq-ok h = ground arith

  -- A module that was loaded has its devices registered once more, and gives back, when it is
  -- unloaded, all that it took: pages, memory and registrations.
  pub module_init-cleanup :
      {k' : Kernel} {d : Driver}
      → module_init env cnt protocol k ≡ (k', ok d)
      → (length d.sensors ≡ cnt)
        × (k'.ldiscs ≡ k.ldiscs + 1)
        × (k'.regions ≡ k.regions + 1)
        × (k'.cdevs ≡ k.cdevs + 1)
        × SameHoldings (module_cleanup d k') k
  unfolding module_cleanup ldisc_destroy chrdev_destroy
  module_init-cleanup {k' = k'} {d = d} h =
      let (all, rest) = module_init-eq-ok h in
      let (held_now, driver) =
        init_devices-ok env sensors_done.0 sensors_done.1 (init protocol) rest in
      ground (
        arith,
        held_now,
        driver,
        init_sensors-pages env cnt (after_kzalloc k) [] all,
        init_sensors-SameDevices env cnt (after_kzalloc k) [],
        reverse-reverse sensors_done.1,
        length-reverse sensors_done.1,
        destroy_sensors_lem (ldisc_destroy (chrdev_destroy k')) (reverse d.sensors),
      )

  -- Where every page that is asked for is granted, a module that fails to load has given back all
  -- that it took.
  pub module_init_undoes :
      {k' : Kernel} {e : Errno}
      → ((c : ℕ) → env.page_ok c ≡ true)
      → module_init env cnt protocol k ≡ (k', err e)
      → SameHoldings k' k
  unfolding module_init
  module_init_undoes {k' = k'} {e = e} granted h =
      let all = init_sensors-granted env cnt (after_kzalloc k) [] granted in
      let undone =
        init_devices-err env sensors_done.0 sensors_done.1 (init protocol) {k' = k'} {e = e} in
      ground (
        arith,
        all,
        undone,
        init_sensors-pages env cnt (after_kzalloc k) [] all,
        init_sensors-SameDevices env cnt (after_kzalloc k) [],
      )
