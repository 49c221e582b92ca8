-- ===== src/Prelude/Errors.antt =====
-- The error numbers that the C functions return negated, and results that carry one.

-- The errno values that the sources name.
pub data Errno : Type 0 where
  eperm enoent eio eagain enomem efault ebusy eexist enodev einval enospc : Errno
  enotty enametoolong enotempty euclean erestartsys : Errno

-- A function whose negative result is an errno.
pub data Result {ℓ} (A : Type ℓ) : Type ℓ where
  ok : A → Result A
  err : Errno → Result A

infixl 5 ◌>>=◌
abbrev pub ◌>>=◌ {ℓ κ} : {A : Type ℓ} {B : Type κ} → Result A → (A → Result B) → Result B
ok a >>= f = f a
err e >>= f = err e
