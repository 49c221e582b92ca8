-- ===== src/Lunix/Chrdev/Open.antt =====
-- The minor numbers of lunix-chrdev.c: eight for each sensor, of which three name a measurement.
use operating_systems_ntua.Prelude.{
  ℕ, suc, ◌*◌, ◌%◌, ◌≤◌, ◌<◌, ◌≡◌, refl, Bool, true, none, List, ◌∷◌, arith,
}
use operating_systems_ntua.Lunix.Sensors.{Sensor}
use operating_systems_ntua.Lunix.Chrdev.{
  Tables, msr_page, state_update, open_device, Round, wait_fresh, failed, read,
}

-- An open of one of the `8 * cnt` registered minor numbers is bound to one of the `cnt` sensors, with
-- nothing cached, and with the semaphore free.
pub open_device_in_range :
    (minor cnt : ℕ)
    → minor < cnt * 8
    → ((open_device minor).sensor < cnt)
      × ((open_device minor).buf_lim ≡ 0)
      × ((open_device minor).lock ≡ 1)
unfolding open_device
open_device_in_range minor cnt h = omega arith

msr_page-unknown : (s : Sensor) (type : ℕ) → 3 ≤ type → msr_page s type ≡ none
msr_page-unknown s (suc (suc (suc t))) h = refl
msr_page-unknown s _ h = absurd (omega arith)

-- An open of a minor number whose low three bits name no measurement is not refused, and the first
-- read reaches past the array of the sensor's pages, whatever the sensor holds.
pub open_device_unknown :
    (tables : Tables) (s : Sensor) (minor cnt : ℕ) (copy_ok : Bool) (r : Round) (rs : List Round)
    → 3 ≤ minor % 8
    → r.checked ≡ msr_page s (open_device minor).type
    → read tables (open_device minor) cnt 0 true copy_ok (r ∷ rs) ≡ failed
unfolding open_device read wait_fresh state_update
open_device_unknown tables s minor cnt copy_ok r rs h e =
    ground (arith, e, msr_page-unknown s (minor % 8) h)
