-- ===== src/Ext2/Inode/Attr.antt =====
-- inode.c: the end of an inode, and changes of its size.
use operating_systems_ntua.Prelude.{
  ℕ, Bool, not, ◌&&◌, Option, none, some, ltb, ◌==◌, if◌then◌else◌, Errno, einval, Result, ok, err,
}
use operating_systems_ntua.Ext2.Mount.{Device, Fs}
use operating_systems_ntua.Ext2.Ialloc.{free_inode}
use operating_systems_ntua.Ext2.Inode.{Node, has_blocks, truncate_blocks}
use operating_systems_ntua.Ext2.Inode.Disk.{DevCodec, InodeTable, write_inode}

-- `ext2_evict_inode` at the time `now`
pub evict_inode : DevCodec → Device → Fs → InodeTable → Node → Bool → Bool → ℕ → Fs × InodeTable
evict_inode c dev fs raws n is_bad sync_ok now =
    let dated = record n { core = record n.core { i_dtime = now } } in
    let (raws', n', _) = write_inode c dev fs raws dated sync_ok in
    let empty = record n' { i_size = 0 } in
    let (fs', gone) = truncate_blocks dev fs empty 0 in
    if n.i_nlink == 0 && not is_bad
    then (
      if empty.core.i_blocks == 0
          then free_inode dev fs empty.core
          else free_inode dev fs' gone.core,
      raws',
    )
    else (fs, raws)

-- `ext2_setsize` at the time `now`; `clear_tail` is what block_truncate_page returns.
pub setsize : Device → Fs → Node → ℕ → Option Errno → ℕ → Fs × Node × Result (Unit {0})
setsize dev fs n newsize clear_tail now =
    let (fs', n') = truncate_blocks dev fs (record n { i_size = newsize }) newsize in
    if not (has_blocks n) then (fs, n, err einval) else elim clear_tail [
      | some e ↦ (fs, n, err e)
      | none ↦ (fs', record n' { i_mtime = now; i_ctime = now }, ok tt)
    ]

abbrev pub copied : (Node → Node) → Fs × Node × Result (Unit {0}) → Fs × Node × Result (Unit {0})
copied copy (fs, n, ok u) = (fs, copy n, ok u)
copied copy (fs, n, err e) = (fs, n, err e)

-- `ext2_setattr` for a change of the size; `prepared` is what setattr_prepare returns, and `copy` what
-- setattr_copy does to the node.
pub setattr :
    Device
    → Fs
    → Node
    → Option Errno
    → Option ℕ
    → Option Errno
    → ℕ
    → (Node → Node)
    → Fs × Node × Result (Unit {0})
setattr dev fs n (some e) size clear_tail now copy = (fs, n, err e)
setattr dev fs n none none clear_tail now copy = (fs, copy n, ok tt)
setattr dev fs n none (some size) clear_tail now copy =
    if size == n.i_size
    then (fs, copy n, ok tt)
    else copied copy (setsize dev fs n size clear_tail now)

-- `ext2_write_failed` for an end of the write
pub write_failed : Device → Fs → Node → ℕ → Fs × Node
write_failed dev fs n to = if ltb n.i_size to then truncate_blocks dev fs n n.i_size else (fs, n)
