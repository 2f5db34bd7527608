-- ===== src/Tests/Files.antt =====
-- Runs of the inodes, of the directories, of the open files and of the console.
use os_project_signal.Prelude.{
  ℕ, ◌/◌, ◌<◌, ◌≡◌, ◌≢◌, inl, refl, subst, true, false, ◌&&◌, List, [], ◌∷◌, arith, some, none,
  ◌==◌, if◌then◌else◌, update,
}
use os_project_signal.Vmm.Phys.{read_word}
use os_project_signal.Fs.Result.{ok, panics}
use os_project_signal.Fs.Cache.{Cache, Block, bufcache_init}
use os_project_signal.Fs.Cache.Inv.{unset}
use os_project_signal.Fs.Cache.Fresh.{
  bufcache_init-IsCache, bufcache_init-IsCalm, view-bufcache_init,
}
use os_project_signal.Fs.Log.{Log}
use os_project_signal.Fs.Log.Update.{HasSpare}
use os_project_signal.Fs.Session.{IsSession}
use os_project_signal.Fs.Session.Commit.{IsResting, begin_trans-IsSession}
use os_project_signal.Fs.Bitmap.{block_alloc}
use os_project_signal.Fs.Bitmap.Alloc.{IsFormatted, Allocates, block_alloc-Allocates}
use os_project_signal.Fs.Inode.{Inode, Inodes, inode_put, inode_lock, inode_update}
use os_project_signal.Fs.Inode.Content.{Outside, inode_read}
use os_project_signal.Fs.Inode.Grow.{IsHoused}
use os_project_signal.Fs.Inode.RoundTrip.{Persists, inode_read-inode_write}
use os_project_signal.Fs.Inode.Dinode.{FitsDisk, kept}
use os_project_signal.Fs.Inode.Store.{stored, inode_lock-inode_update}
use os_project_signal.Fs.Inode.Unlogged.{inode_put-panics}

-- A disk of 19 blocks before the log, no inodes on it, and a directory entry for inode 7 with the
-- name "a" in sector 5.
abbrev pub volume : ℕ → ℕ → Block
volume d s j =
    if (s == 1) && (j == 0)
    then 19
    else if (s == 5) && (j == 0)
    then 7
    else if (s == 5) && (j == 2)
    then 97
    else 0

abbrev pub idle_log : Log
idle_log = record { start = 20; size = 11; busy = false; dev = 1; n = 0; sector = λ i. 0 }

abbrev open_log : Log
open_log = record idle_log { busy = true }

abbrev pub mounted : Cache
mounted = bufcache_init volume

abbrev pub spare_buffers : List ℕ
spare_buffers = 0 ∷ 1 ∷ 2 ∷ 3 ∷ 4 ∷ []

mounted-HasSpare : HasSpare mounted spare_buffers
unfolding bufcache_init
mounted-HasSpare = record {
  inv = bufcache_init-IsCache volume;
  idle = λ j. refl;
  distinct = (refl, (refl, (refl, (refl, (refl, tt)))));
  clean = λ j m. (ground arith, refl);
}

pub set : 1 ≢ unset
set = omega arith

pub mounted-disk : mounted.disk ≡ volume
unfolding bufcache_init
mounted-disk = refl

pub mounted-IsResting : IsResting idle_log mounted spare_buffers
unfolding bufcache_init read_word
mounted-IsResting = record {
  placed = record {
    set = set;
    fits = omega arith;
    small = omega arith;
    homes = λ i lt. absurd (omega arith);
  };
  empty = refl;
  idle = refl;
  cleared = refl;
  flushed = λ s. view-bufcache_init volume 1 s set;
  spared = mounted-HasSpare;
}

-- A transaction that has just begun.
mounted-IsSession : IsSession idle_log (volume 1) open_log mounted 3 (volume 1)
mounted-IsSession =
    subst (λ d. IsSession idle_log (d 1) open_log mounted 3 (d 1)) mounted-disk
      (begin_trans-IsSession idle_log mounted spare_buffers 3 mounted-IsResting (omega arith)
        (omega arith) (omega arith)).1

volume-IsFormatted : IsFormatted idle_log (volume 1)
unfolding read_word
volume-IsFormatted = record {
  super = inl (omega arith);
  bitmap = λ i lt. (let e : i / 4096 ≡ 0 = omega arith in rw e (inl (omega arith), omega arith));
  free_home = λ i lt z. (inl (omega arith), omega arith);
}

block_alloc-Allocates_example :
    Allocates idle_log (volume 1) 1 (volume 1) (block_alloc open_log mounted 1)
block_alloc-Allocates_example =
    block_alloc-Allocates idle_log (volume 1) open_log mounted 1 (volume 1) mounted-IsSession
      volume-IsFormatted

-- A file of 3 bytes in block 5.
abbrev pub small_file : Inode
small_file = record {
  dev = 1;
  inum = 1;
  ref = 1;
  busy = false;
  valid = true;
  type_ = 2;
  major = 0;
  minor = 0;
  nlink = 1;
  size = 3;
  addrs = update (λ i. 0) 0 5;
}

abbrev pub no_devices : Outside
no_devices = record { devsw = λ i. record { read = none; write = none }; no_value = 0 }

abbrev one_file : Inodes
one_file = record { inode = λ i. small_file; log = open_log; cache = mounted }

first_block : (i : ℕ) → i < 1 → i ≡ 0
first_block i lt = omega arith

pub small_file-IsHoused : IsHoused idle_log (volume 1) small_file 1
small_file-IsHoused = record {
  dev = refl;
  word = omega arith;
  home = inl (omega arith);
  apart = λ i lt. rw (first_block i lt) (λ z. omega arith);
  indirect = λ many. absurd (omega arith);
  file = record {
    there = λ i lt. rw (first_block i lt) (record {
      small = omega arith;
      found = λ z. omega arith;
      indirect = λ le. absurd (omega arith);
    });
    home = λ i lt. rw (first_block i lt) (inl (omega arith), omega arith);
    apart = λ i j p q e. omega arith;
    indirect_home = λ many. absurd (omega arith);
    indirect = λ i lt many. absurd (omega arith);
  };
  plain = λ z. omega arith;
}

inode_read-inode_write_example :
    (s' s'' : Inodes) × (now' : ℕ → Block) × Persists no_devices idle_log
      (volume 1)
      0
      1
      one_file
      1
      2
      (volume 1)
      (104 ∷ 105 ∷ [])
      s'
      now'
    × (inode_read no_devices s' 0 2 2 ≡ ok (some (104 ∷ 105 ∷ []), s''))
    × IsSession idle_log (volume 1) s''.log s''.cache 1 now'
inode_read-inode_write_example =
    inode_read-inode_write no_devices idle_log (volume 1) 0 1 one_file 1 0 2 (volume 1)
      (104 ∷ 105 ∷ []) mounted-IsSession small_file-IsHoused (omega arith) (omega arith)
      (λ p. omega arith)

-- The same inode when it has just got its place.
abbrev got_file : ℕ → Inode
got_file i = record small_file { valid = false; nlink = 0; size = 0 }

small_file-FitsDisk : FitsDisk small_file
small_file-FitsDisk = record {
  type_ = omega arith;
  major = omega arith;
  minor = omega arith;
  nlink = omega arith;
  size = omega arith;
  addrs = λ i le. ground arith;
}

inode_lock-inode_update_example :
    (s' s'' : Inodes) × (inode_update one_file 0 ≡ ok s')
    × (inode_lock (record s' { inode = got_file }) 4 ≡ ok s'')
    × (s''.inode 4 ≡ record (kept small_file (got_file 4)) { busy = true; valid = true })
    × IsSession idle_log (volume 1) s''.log s''.cache 2 (stored (volume 1) small_file)
inode_lock-inode_update_example =
    inode_lock-inode_update idle_log (volume 1) one_file 0 4 1 (volume 1) got_file mounted-IsSession
      refl (inl (omega arith)) (omega arith) small_file-FitsDisk (λ z. omega arith) (omega arith)
      refl refl refl refl refl

-- The last reference to a file that is unlinked, and no transaction.
abbrev unlinked_file : Inodes
unlinked_file = record {
  inode = λ i. record small_file { nlink = 0 };
  log = idle_log;
  cache = mounted;
}

inode_put-panics_example : inode_put unlinked_file 0 ≡ panics
inode_put-panics_example =
    inode_put-panics unlinked_file 0 refl (bufcache_init-IsCalm volume) set refl refl refl refl
