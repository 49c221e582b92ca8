-- ===== src/Lunix/Module/Leak.antt =====
-- The error path of lunix-module.c for a sensor that gets only some of its pages.
use operating_systems_ntua.Prelude.{
  ℕ, zero, suc, ◌+◌, ◌*◌, ◌≤◌, ◌<◌, ◌≡◌, refl, ap, true, false, none, some, List, [], ◌∷◌, arith,
  enomem, err,
}
use operating_systems_ntua.Lunix.Sensors.{Sensor}
use operating_systems_ntua.Lunix.Protocol.{State}
use operating_systems_ntua.Lunix.Module.{
  Kernel, Env, page_taken, sensor_init, init_sensors, module_init,
}
use operating_systems_ntua.Lunix.Module.Balance.{
  SameDevices, total, destroy_sensors_lem, init_sensors-SameDevices, after_kzalloc,
}

-- The kernel's page calls succeed up to the call number `m`, which is refused.
pub record FirstRefused (env : Env) (k : Kernel) (m : ℕ) : Type 0 where
  pub granted : (c : ℕ) → k.page_calls ≤ c → c < m → env.page_ok c ≡ true
  pub refused : env.page_ok m ≡ false

sensor_init-partly :
    (env : Env) (k : Kernel) (m r : ℕ)
    → m ≡ k.page_calls + r
    → r < 3
    → FirstRefused env k m
    → let (k', s, failed) = sensor_init env k in (k'.pages ≡ k.pages + r) × (failed ≡ some enomem)
unfolding sensor_init
sensor_init-partly env k m zero e h f =
    let no : k.page_calls ≡ m = omega arith in ground (arith, ap env.page_ok no)
sensor_init-partly env k m (suc zero) e h f =
    let no : k.page_calls + 1 ≡ m = omega arith in
    ground (arith, f.granted k.page_calls, ap env.page_ok no)
sensor_init-partly env k m (suc (suc zero)) e h f =
    let no : k.page_calls + 1 + 1 ≡ m = omega arith in
    ground (arith, f.granted k.page_calls, f.granted (k.page_calls + 1), ap env.page_ok no)
sensor_init-partly env k m (suc (suc (suc r))) e h f = absurd (omega arith)

-- A sensor that stands well before the refusal gets its pages.
sensor_init_wholly :
    (env : Env) (k : Kernel) (m : ℕ)
    → k.page_calls + 3 ≤ m
    → FirstRefused env k m
    → let (k', s, failed) = sensor_init env k in
      (k' ≡ page_taken (page_taken (page_taken k))) × (failed ≡ none) × (total (s ∷ []) ≡ 3)
unfolding sensor_init
sensor_init_wholly env k m h f =
    ground (
      arith,
      f.granted k.page_calls,
      f.granted (k.page_calls + 1),
      f.granted (k.page_calls + 1 + 1),
    )

FirstRefused-later :
    (env : Env) (k k' : Kernel) (m : ℕ)
    → k.page_calls ≤ k'.page_calls
    → FirstRefused env k m
    → FirstRefused env k' m
FirstRefused-later env k k' m h f = record {
  granted = λ c low high. f.granted c (omega arith) high;
  refused = f.refused;
}

init_sensors-partly :
    (env : Env) (n i : ℕ) (k : Kernel) (done : List Sensor) (m r : ℕ)
    → i < n
    → m ≡ k.page_calls + 3 * i + r
    → r < 3
    → FirstRefused env k m
    → let (k', done', failed) = init_sensors env n k done in
      (k'.pages + total done ≡ k.pages + total done' + r) × (failed ≡ some enomem)
unfolding init_sensors
init_sensors-partly env zero i k done m r h e l f = absurd (omega arith)
init_sensors-partly env (suc n) zero k done m r h e l f =
    ground (arith, sensor_init-partly env k m r (omega arith) l f)
init_sensors-partly env (suc n) (suc i) k done m r h e l f =
    let (k', s, failed) = sensor_init env k in
    let whole = sensor_init_wholly env k m (omega arith) f in
    let more : k.page_calls + 3 ≡ k'.page_calls = ground (arith, whole) in
    ground (
      arith,
      whole,
      init_sensors-partly env n i k' (s ∷ done) m r (omega arith) (omega arith) l
          (FirstRefused-later env k k' m (omega arith) f),
    )

-- Where the first page refused is one for the sensor number `i`, which has `r` pages already, the
-- module fails to load with ENOMEM and those `r` pages are never given back; all else is.
pub module_init_leaks :
    (env : Env) (cnt : ℕ) (protocol : State) (k : Kernel) (i r : ℕ)
    → env.kzalloc_ok ≡ true
    → i < cnt
    → r < 3
    → FirstRefused env k (k.page_calls + 3 * i + r)
    → ((module_init env cnt protocol k).1 ≡ err enomem)
      × ((module_init env cnt protocol k).0.pages ≡ k.pages + r)
      × SameDevices (module_init env cnt protocol k).0 k
unfolding module_init
module_init_leaks env cnt protocol k i r mem h l f =
    let m = k.page_calls + 3 * i + r in
    let (k', done, failed) = init_sensors env cnt (after_kzalloc k) [] in
    ground (
      arith,
      init_sensors-partly env cnt i (after_kzalloc k) [] m r h refl l
          (FirstRefused-later env k (after_kzalloc k) m (omega arith) f),
      init_sensors-SameDevices env cnt (after_kzalloc k) [],
      destroy_sensors_lem k' done,
    )
