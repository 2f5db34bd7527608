-- ===== src/Tests/Calls.antt =====
-- Runs of the calls on files, of the directories and of the console.
use os_project_signal.Prelude.{
  ℕ, zero, suc, ◌/◌, ◌<◌, ◌≡◌, ◌⊎◌, ◌↔◌, refl, sym, ap, subst, true, false, List, [], ◌∷◌, arith,
  some, ◌==◌, if◌then◌else◌, length,
}
use os_project_signal.Vmm.Copy.{pt_copyin}
use os_project_signal.Thread.Tcb.{get_curid, tcb_get_openfiles}
use os_project_signal.Trap.Frame.{syscall_get_arg2, syscall_get_arg3, e_succ}
use os_project_signal.Fs.Result.{ok, panics}
use os_project_signal.Fs.Cache.{Block}
use os_project_signal.Fs.Cache.Fresh.{bufcache_init-IsCalm, view-bufcache_init}
use os_project_signal.Fs.Log.Reboot.{Write}
use os_project_signal.Fs.Inode.{Inode, Inodes, inode_dup, inode_get}
use os_project_signal.Fs.Inode.Content.{inode_stat}
use os_project_signal.Fs.Inode.Read.{IsThere}
use os_project_signal.Fs.Inode.Grow.{IsHoused}
use os_project_signal.Fs.Inode.Find.{IsFor}
use os_project_signal.Fs.Inode.Count.{IsCounted, inode_get-IsCounted}
use os_project_signal.Fs.File.Count.{count}
use os_project_signal.Fs.Path.{dirsiz}
use os_project_signal.Fs.Dir.{dir_namecmp, strncpy, dir_lookup}
use os_project_signal.Fs.Dir.Lookup.{LooksUp, dir_lookup-LooksUp}
use os_project_signal.Fs.Dir.Name.{dir_namecmp-strncpy}
use os_project_signal.Fs.File.{File, fd_inode}
use os_project_signal.Fs.File.Access.{Files, file_stat}
use os_project_signal.Fs.File.Access.Durable.{IsReady, IsAtomic, write_part-IsAtomic}
use os_project_signal.Fs.Sysfile.{Calls, answer, sys_fstat}
use os_project_signal.Fs.Sysfile.Guards.{sys_fstat-pt_copyin}
use os_project_signal.Console.{Cons, cons_intr, cons_getc}
use os_project_signal.Console.Fifo.{IsFifo, char_at, cons_getc-IsFifo, cons_getc-full}
use os_project_signal.Tests.Files.{
  volume, idle_log, mounted, mounted-disk, spare_buffers, set, mounted-IsResting, small_file,
  small_file-IsHoused, no_devices,
}
use os_project_signal.Tests.State.{pool, threads}
use os_project_signal.Tests.Signals.{frame, kernel}

abbrev rest_inodes : Inodes
rest_inodes = record { inode = λ i. small_file; log = idle_log; cache = mounted }

abbrev opened_file : File
opened_file = record {
  fd_type = fd_inode;
  ref = 1;
  readable = true;
  writable = true;
  ip = 0;
  off = 2;
}

abbrev open_files : Files
open_files = record { file = λ f. opened_file; inodes = rest_inodes }

small_file-IsReady : IsReady rest_inodes 0
small_file-IsReady = record { place = omega arith; held = refl; idle = refl; valid = refl }

mounted-IsHoused : IsHoused idle_log (mounted.disk 1) small_file 1
mounted-IsHoused =
    subst (λ d. IsHoused idle_log (d 1) small_file 1) (sym mounted-disk) small_file-IsHoused

write_part-IsAtomic_example :
    (s' : Files) × (now : ℕ → Block) × (writes : List Write) × IsAtomic no_devices open_files 0 1
      (104 ∷ 105 ∷ [])
      s'
      now
      writes
write_part-IsAtomic_example =
    write_part-IsAtomic no_devices open_files 0 1 1 (104 ∷ 105 ∷ []) spare_buffers mounted-IsResting
      small_file-IsReady mounted-IsHoused (omega arith) (omega arith) (λ p. omega arith)
      (omega arith) (omega arith) (omega arith)

-- A directory with one entry.
abbrev one_directory : Inodes
one_directory = record {
  inode = λ i. record small_file { type_ = 1; size = 16 };
  log = idle_log;
  cache = mounted;
}

one_directory-IsThere : (j : ℕ) → j < 16 → IsThere (volume 1) small_file.addrs (j / 512)
one_directory-IsThere j lt =
    let e : j / 512 ≡ 0 = omega arith in
    rw e (record {
      small = omega arith;
      found = λ z. omega arith;
      indirect = λ le. absurd (omega arith);
    })

dir_lookup-LooksUp_example :
    LooksUp no_devices
      (volume 1)
      0
      (97 ∷ [])
      one_directory
      0
      1
      (dir_lookup no_devices one_directory 0 (97 ∷ []))
dir_lookup-LooksUp_example =
    dir_lookup-LooksUp no_devices (volume 1) 0 (97 ∷ []) one_directory 1
      (bufcache_init-IsCalm volume, set, λ t. view-bufcache_init volume 1 t set) refl refl
      (omega arith) one_directory-IsThere

dir_namecmp-strncpy_example :
    (dir_namecmp (97 ∷ []) (97 ∷ 98 ∷ []) ≡ 0)
    ↔ (strncpy (97 ∷ []) dirsiz ≡ strncpy (97 ∷ 98 ∷ []) dirsiz)
dir_namecmp-strncpy_example =
    dir_namecmp-strncpy (97 ∷ []) (97 ∷ 98 ∷ []) (omega arith, tt) (omega arith, (omega arith, tt))

-- One inode is in memory, with one reference.
abbrev one_held : ℕ → Inode
one_held i = if i == 0 then small_file else record small_file { ref = 0 }

one_held-IsCounted : IsCounted one_held (0 ∷ [])
unfolding count
one_held-IsCounted = record {
  counts = λ i lt. ground arith;
  unique = λ i j p q r r' is. ground arith;
  few = omega arith;
}

abbrev held_inodes : Inodes
held_inodes = record { inode = one_held; log = idle_log; cache = mounted }

inode_get-IsCounted_example :
    ((ip : ℕ) × (s' : Inodes) × (inode_get held_inodes 1 7 ≡ ok (ip, s'))
      × (ip < 50)
      × IsFor (s'.inode ip) 1 7
      × IsCounted s'.inode (ip ∷ 0 ∷ [])
      × ((0 < count ip (0 ∷ [])) × (s' ≡ inode_dup held_inodes ip)
          ⊎ ((count ip (0 ∷ []) ≡ 0) × ((s'.inode ip).valid ≡ false))))
    ⊎ ((inode_get held_inodes 1 7 ≡ panics)
        × ((i : ℕ) → i < 50 → (0 < count i (0 ∷ [])) × ¬ (IsFor (one_held i) 1 7)))
inode_get-IsCounted_example =
    inode_get-IsCounted held_inodes (0 ∷ []) 1 7 one_held-IsCounted (omega arith)

-- Thread 1 has the file as each of its descriptors, and calls sys_fstat on descriptor 3.
abbrev calling : Calls
calling = record {
  files = open_files;
  threads = record threads { pool = λ pid. record (pool pid) { openfiles = λ fd. 1 } };
  vm = kernel.vm;
  tf = record frame { ebx = 3; ecx = 0x40000000 };
  first = false;
}

sys_fstat-pt_copyin_example :
    (files : Files) × (file_stat open_files 0 ≡ ok (some (inode_stat small_file), files))
    × (sys_fstat no_devices 0 0 (λ j. 0) calling
        ≡ ok (
            answer
              (record calling { files = files; vm = (pt_copyin kernel.vm 1 0x40000000 0 20).2 })
              0
              e_succ))
unfolding get_curid tcb_get_openfiles syscall_get_arg2 syscall_get_arg3
sys_fstat-pt_copyin_example =
    sys_fstat-pt_copyin no_devices 0 0 (λ j. 0) calling (omega arith) (omega arith) (omega arith)
      (λ z. omega arith) refl small_file-IsReady

-- The character "a" waits in the last place of the ring.
abbrev one_waits : Cons
one_waits = record { buf = λ i. 97; rpos = 511; wpos = 0 }

one_waits-IsFifo : IsFifo one_waits (97 ∷ [])
one_waits-IsFifo = record {
  read = omega arith;
  few = omega arith;
  write = refl;
  holds = λ i lt. (let e : i ≡ 0 = omega arith in rw e refl);
}

abbrev all_chars : List ℕ
all_chars = 97 ∷ 98 ∷ 99 ∷ []

cons_getc-IsFifo_example :
    ((all_chars ≡ [])
      × ((s' : Cons) × (cons_getc one_waits (98 ∷ 0 ∷ []) (99 ∷ []) ≡ (0, s')) × IsFifo s' []))
    ⊎ ((c : ℕ) × (rest : List ℕ) × (s' : Cons) × (all_chars ≡ c ∷ rest)
        × (cons_getc one_waits (98 ∷ 0 ∷ []) (99 ∷ []) ≡ (c, s'))
        × IsFifo s' rest)
cons_getc-IsFifo_example =
    cons_getc-IsFifo one_waits (97 ∷ []) (98 ∷ 0 ∷ []) (99 ∷ []) one_waits-IsFifo (omega arith)

abbrev repeated : ℕ → List ℕ
repeated zero = []
repeated (suc n) = 97 ∷ repeated n

length-repeated : (n : ℕ) → length (repeated n) ≡ n
length-repeated zero = refl
length-repeated (suc n) = ap suc (length-repeated n)

char_at-repeated : (n i : ℕ) → i < n → char_at (repeated n) i ≡ 97
char_at-repeated zero i lt = absurd (omega arith)
char_at-repeated (suc n) zero lt = refl
char_at-repeated (suc n) (suc i) lt = char_at-repeated n i (omega arith)

abbrev full_ring : Cons
full_ring = record { buf = λ i. 97; rpos = 0; wpos = 511 }

full_ring-IsFifo : (n : ℕ) → n ≡ 511 → IsFifo full_ring (repeated n)
full_ring-IsFifo n e = record {
  read = omega arith;
  few = (let k = length-repeated n in omega arith);
  write = (let k = length-repeated n in omega arith);
  holds = λ i lt. sym (char_at-repeated n i (let k = length-repeated n in omega arith));
}

cons_getc-full_example :
    cons_getc (cons_intr full_ring (98 ∷ [])) [] [] ≡ (0, cons_intr full_ring (98 ∷ []))
cons_getc-full_example =
    cons_getc-full full_ring (repeated 511) 98 (full_ring-IsFifo 511 refl) (length-repeated 511)
      (λ z. omega arith)
