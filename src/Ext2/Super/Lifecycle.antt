-- ===== src/Ext2/Super/Lifecycle.antt =====
-- The state of the super block of super.c between a mount and an unmount.
use operating_systems_ntua.Prelude.{
  ℕ, ◌≡◌, Bool, true, false, not, ◌&&◌, ◌||◌, Option, none, some, List, arith, leb, ok,
}
use operating_systems_ntua.Ext2.Mount.{Fs}
use operating_systems_ntua.Ext2.Super.{
  Super, is_valid, has_error, max_supp_rev, sync_super, goes_on, error, check_super, sync_fs,
  write_super, put_super, remount_with, remount, statfs, start_super,
}
use operating_systems_ntua.Ext2.Super.Options.{MountOpt, parse_options}

-- What happens to a mounted file system. The kernel sets the flag that a remount asked for when that
-- returns 0.
pub data Step : Super → Super → Type 0 where
  has_failed : (now : ℕ) {s s' : Super} → error now s ≡ goes_on s' → Step s s'
  is_synced : (now : ℕ) {s : Super} → Step s (sync_fs now s)
  is_asked : {s : Super} → Step s (statfs s).0
  is_remounted :
      (now : ℕ) (to_rdonly : Bool) (options : Option (List ℕ)) {s : Super}
      → (remount now to_rdonly options s).1 ≡ ok tt
      → Step s (record (remount now to_rdonly options s).0 { rdonly = to_rdonly })
  is_used : (fs' : Fs) {s : Super} → Step s (record s { fs = fs' })

pub data Steps : Super → Super → Type 0 where
  done : {s : Super} → Steps s s
  after : {s s' s'' : Super} → Steps s s' → Step s' s'' → Steps s s''

-- A file system that can be written is not marked as valid, and its revision is supported.
abbrev pub is_marked : Super → Bool
is_marked s = (s.rdonly || not (is_valid s.es.s_state)) && leb s.es.s_rev_level max_supp_rev

-- Both states say that there has been an error.
abbrev pub is_faulty : Super → Bool
is_faulty s = has_error s.mount_state && has_error s.es.s_state

error-marks :
    (now : ℕ) (s : Super) {s' : Super}
    → error now s ≡ goes_on s'
    → is_marked s ≡ true
    → is_marked s' ≡ true
unfolding error sync_super
error-marks now s e h = ground (arith, e, h)

remount_with-marks :
    (now : ℕ) (to_rdonly : Bool) (s : Super) (o : Option MountOpt)
    → is_marked s ≡ true
    → (remount_with now to_rdonly s o).1 ≡ ok tt
    → is_marked (record (remount_with now to_rdonly s o).0 { rdonly = to_rdonly }) ≡ true
unfolding sync_super check_super write_super sync_fs
remount_with-marks now to_rdonly s none h e = ground (arith, e)
remount_with-marks now true s (some o) h e = ground (arith, h)
remount_with-marks now false s (some o) h e = ground (arith, h)

marks_next : {s s' : Super} → Step s s' → is_marked s ≡ true → is_marked s' ≡ true
unfolding sync_super sync_fs statfs remount
marks_next (has_failed now {s = s} e) h = error-marks now s e h
marks_next (is_synced now {s = s}) h = ground (arith, h)
marks_next (is_asked {s = s}) h = ground (arith, h)
marks_next (is_remounted now to_rdonly options {s = s} e) h =
    remount_with-marks now to_rdonly s (parse_options options s.mount_opt) h e
marks_next (is_used fs') h = h

marks_always : {s s' : Super} → Steps s s' → is_marked s ≡ true → is_marked s' ≡ true
marks_always done h = h
marks_always (after r t) h = marks_next t (marks_always r h)

-- From the end of ext2_fill_super on, through errors, syncs, statfs, remounts and use, a file system that
-- can be written is not marked as valid on its super block, so that a crash is noticed. Its revision is
-- supported.
pub start_super-is_marked :
    (now : ℕ) (s : Super) {s' : Super}
    → leb s.es.s_rev_level max_supp_rev ≡ true
    → Steps (start_super now s) s'
    → is_marked s' ≡ true
unfolding start_super check_super write_super sync_fs sync_super
start_super-is_marked now s rev r = marks_always r (ground (arith, rev))

error-is_faulty :
    (now : ℕ) (s : Super) {s' : Super}
    → s.rdonly ≡ false
    → error now s ≡ goes_on s'
    → is_faulty s' ≡ true
unfolding error sync_super
error-is_faulty now s w e = ground (arith, w, e)

error-stays :
    (now : ℕ) (s : Super) {s' : Super}
    → error now s ≡ goes_on s'
    → is_faulty s ≡ true
    → is_faulty s' ≡ true
unfolding error sync_super
error-stays now s e h = ground (arith, e, h)

remount_with-stays :
    (now : ℕ) (to_rdonly : Bool) (s : Super) (o : Option MountOpt)
    → is_faulty s ≡ true
    → is_faulty (record (remount_with now to_rdonly s o).0 { rdonly = to_rdonly }) ≡ true
unfolding sync_super check_super write_super sync_fs
remount_with-stays now to_rdonly s none h = h
remount_with-stays now true s (some o) h = ground (arith, h)
remount_with-stays now false s (some o) h = ground (arith, h)

faulty_next : {s s' : Super} → Step s s' → is_faulty s ≡ true → is_faulty s' ≡ true
unfolding sync_super sync_fs statfs remount
faulty_next (has_failed now {s = s} e) h = error-stays now s e h
faulty_next (is_synced now {s = s}) h = ground (arith, h)
faulty_next (is_asked {s = s}) h = ground (arith, h)
faulty_next (is_remounted now to_rdonly options {s = s} e) h =
    remount_with-stays now to_rdonly s (parse_options options s.mount_opt) h
faulty_next (is_used fs') h = h

faulty_always : {s s' : Super} → Steps s s' → is_faulty s ≡ true → is_faulty s' ≡ true
faulty_always done h = h
faulty_always (after r t) h = faulty_next t (faulty_always r h)

-- An error that is reported on a file system that can be written, and after which the kernel goes on, is
-- recorded in the super block that an unmount leaves behind, whatever errors, syncs, remounts and uses
-- come in between.
pub put_super-error :
    (now later : ℕ) (s : Super) {s' s'' : Super}
    → s.rdonly ≡ false
    → error now s ≡ goes_on s'
    → Steps s' s''
    → has_error (put_super later s'').es.s_state ≡ true
unfolding put_super sync_super
put_super-error now later s {s'' = s''} w e r =
    let faulty = faulty_always r (error-is_faulty now s w e) in ground (arith, faulty)
