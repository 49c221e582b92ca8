-- ===== src/Lunix/Ldisc/Tests.antt =====
-- The line discipline of lunix-ldisc.c, opened twice.
use operating_systems_ntua.Prelude.{◌≤◌, ◌≡◌, ◌⊎◌, refl, true, [], ◌∷◌, length, ebusy, err}
use operating_systems_ntua.Lunix.Ldisc.{Ldisc, initial, open_tty}
use operating_systems_ntua.Lunix.Ldisc.Exclusion.{Reach, start, step, opened, open_tty_excludes}

-- TTY 4 has the discipline.
abbrev in_use : Ldisc
in_use = record { available = 0; attached = 4 ∷ [] }

in_use-opened : (open_tty true 4 initial).1 ≡ in_use
unfolding open_tty
in_use-opened = refl

in_use-Reach : Reach in_use
unfolding open_tty
in_use-Reach = step start (opened true 4 initial)

open_tty_excludes_example :
    (length in_use.attached ≤ 1)
    × ((in_use.attached ≡ []) ⊎ (open_tty true 5 in_use ≡ (err ebusy, in_use)))
open_tty_excludes_example = open_tty_excludes in_use 5 in_use-Reach
