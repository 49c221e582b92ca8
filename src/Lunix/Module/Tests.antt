-- ===== src/Lunix/Module/Tests.antt =====
-- Loading and unloading the module of lunix-module.c on concrete answers of the kernel.
use operating_systems_ntua.Prelude.{
  ◌+◌, ◌*◌, ◌≡◌, refl, true, none, some, [], ◌∷◌, arith, ltb, length, replicate, ebusy, enomem, err,
  ok,
}
use operating_systems_ntua.Lunix.Sensors.{Sensor}
use operating_systems_ntua.Lunix.Protocol.{start_byte, State, init}
use operating_systems_ntua.Lunix.Module.{
  Kernel, Env, sensor_init, sensor_destroy, sensor_with, fresh_page, destroy_sensors, init_sensors,
  ldisc_init, ldisc_destroy, chrdev_init, Driver, init_devices, module_init, module_cleanup,
}
use operating_systems_ntua.Lunix.Module.Balance.{
  SameHoldings, SameDevices, module_init-cleanup, module_init_undoes,
}
use operating_systems_ntua.Lunix.Module.Leak.{FirstRefused, module_init_leaks}

abbrev at_boot : Kernel
at_boot = record { pages = 0; page_calls = 0; blocks = 0; ldiscs = 0; regions = 0; cdevs = 0 }

abbrev memory : State
memory = record {
  phase = start_byte;
  bytes_read = 0;
  bytes_to_read = 0;
  pos = 0;
  next_is_special = 0;
  packet = replicate 300 0;
}

-- A kernel that grants everything.
abbrev generous : Env
generous = record {
  page_ok = λ c. true;
  kzalloc_ok = true;
  register_ldisc = none;
  register_region = none;
  add_cdev = none;
}

-- A kernel in which the device numbers are in use.
abbrev crowded : Env
crowded = record generous { register_region = some ebusy }

-- A kernel with four pages.
abbrev short_of_pages : Env
short_of_pages = record generous { page_ok = λ c. ltb c 4 }

abbrev whole : Sensor
whole = sensor_with fresh_page fresh_page fresh_page

abbrev driver : Driver
driver = record { sensors = whole ∷ whole ∷ []; protocol = init memory }

abbrev loaded : Kernel
loaded = record { pages = 6; page_calls = 6; blocks = 1; ldiscs = 1; regions = 1; cdevs = 1 }

loads : module_init generous 2 memory at_boot ≡ (loaded, ok driver)
unfolding module_init init_sensors sensor_init init_devices ldisc_init chrdev_init
loads = refl

module_init-cleanup_example :
    (length driver.sensors ≡ 2)
    × (loaded.ldiscs ≡ at_boot.ldiscs + 1)
    × (loaded.regions ≡ at_boot.regions + 1)
    × (loaded.cdevs ≡ at_boot.cdevs + 1)
    × SameHoldings (module_cleanup driver loaded) at_boot
module_init-cleanup_example = module_init-cleanup generous 2 memory at_boot loads

abbrev given_back : Kernel
given_back = record { pages = 0; page_calls = 6; blocks = 0; ldiscs = 0; regions = 0; cdevs = 0 }

fails : module_init crowded 2 memory at_boot ≡ (given_back, err ebusy)
unfolding module_init init_sensors sensor_init init_devices ldisc_init chrdev_init ldisc_destroy
    destroy_sensors sensor_destroy
fails = refl

module_init_undoes_example : SameHoldings given_back at_boot
module_init_undoes_example = module_init_undoes crowded 2 memory at_boot (λ c. refl) fails

fourth : FirstRefused short_of_pages at_boot (at_boot.page_calls + 3 * 1 + 1)
fourth = record { granted = λ c low high. ground (arith, low, high); refused = refl }

module_init_leaks_example :
    ((module_init short_of_pages 2 memory at_boot).1 ≡ err enomem)
    × ((module_init short_of_pages 2 memory at_boot).0.pages ≡ at_boot.pages + 1)
    × SameDevices (module_init short_of_pages 2 memory at_boot).0 at_boot
module_init_leaks_example =
    module_init_leaks short_of_pages 2 memory at_boot 1 1 refl (omega arith) (omega arith) fourth
