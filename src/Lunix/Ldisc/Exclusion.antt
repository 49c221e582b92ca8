-- ===== src/Lunix/Ldisc/Exclusion.antt =====
-- The orders of opens and closes of the line discipline of lunix-ldisc.c.
use operating_systems_ntua.Prelude.{
  ℕ, ◌+◌, ◌≤◌, ◌≡◌, ◌⊎◌, inl, inr, refl, Bool, true, false, List, [], ◌∷◌, arith, ◌==◌,
  if◌then◌else◌, length, ebusy, err,
}
use operating_systems_ntua.Lunix.Ldisc.{Ldisc, initial, open_tty, close_tty, detach}

abbrev pub attaches : ℕ → List ℕ → Bool
attaches tty [] = false
attaches tty (t ∷ ts) = if t == tty then true else attaches tty ts

-- What the TTY layer may do: any TTY asks for the discipline, and one that has it gives it back.
pub data Step : Ldisc → Ldisc → Type 0 where
  opened : (capable : Bool) (tty : ℕ) (d : Ldisc) → Step d (open_tty capable tty d).1
  closed : (tty : ℕ) (d : Ldisc) → attaches tty d.attached ≡ true → Step d (close_tty tty d)

pub data Reach : Ldisc → Type 0 where
  start : Reach initial
  step : {d e : Ldisc} → Reach d → Step d e → Reach e

abbrev Balanced : Ldisc → Type 0
Balanced d = d.available + length d.attached ≡ 1

length-detach :
    (tty : ℕ) (ts : List ℕ) → attaches tty ts ≡ true → length (detach tty ts) + 1 ≡ length ts
length-detach tty [] h = ground arith
length-detach tty (t ∷ ts) h = ground (arith, length-detach tty ts)

Step-Balanced : {d e : Ldisc} → Step d e → Balanced d → Balanced e
unfolding open_tty close_tty
Step-Balanced (opened capable tty d) b = ground arith
Step-Balanced (closed tty d h) b = omega (arith, length-detach tty d.attached h)

Reach-Balanced : {d : Ldisc} → Reach d → Balanced d
Reach-Balanced start = refl
Reach-Balanced (step r s) = Step-Balanced s (Reach-Balanced r)

-- In every state that opens and closes can reach, at most one TTY has the discipline, and while one
-- has it a further open by a capable caller is refused with EBUSY and changes nothing.
pub open_tty_excludes :
    (d : Ldisc) (tty : ℕ)
    → Reach d
    → (length d.attached ≤ 1) × ((d.attached ≡ []) ⊎ (open_tty true tty d ≡ (err ebusy, d)))
unfolding open_tty
open_tty_excludes d tty r = let b = Reach-Balanced r in (omega arith, refused d.attached refl)
  where
    refused :
        (ts : List ℕ) → d.attached ≡ ts → (d.attached ≡ []) ⊎ (open_tty true tty d ≡ (err ebusy, d))
    refused [] e = inl e
    refused (t ∷ ts) e = inr (ground (arith, Reach-Balanced r))
