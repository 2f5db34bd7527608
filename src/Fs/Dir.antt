-- ===== src/Fs/Dir.antt =====
-- kern/fs/dir.c, with strncmp and strncpy of kern/lib/string.c, and the inodes as kern/fs/path.c
-- uses them. A C string is the list of its characters up to the terminator.
pub mod Lookup
pub mod Name
use os_project_signal.Prelude.{
  ℕ, zero, suc, ◌+◌, ◌-◌, ◌*◌, ◌/◌, ◌%◌, ◌^◌, ◌≡◌, Bool, true, false, ◌||◌, not, List, [], ◌∷◌,
  ◌++◌, arith, Option, some, none, ◌==◌, if◌then◌else◌, length,
}
use os_project_signal.Vmm.Phys.{write_bytes}
use os_project_signal.Vmm.Copy.{drop}
use os_project_signal.Fs.Result.{Result, ok, sleeps, panics, ◌>>=◌}
use os_project_signal.Fs.Inode.{
  Inode, read_half, inode_dup, inode_get, inode_lock, inode_unlock, inode_put, inode_unlockput,
}
use os_project_signal.Fs.Inode
use os_project_signal.Fs.Inode.Content.{Outside, inode_read, inode_write}
use os_project_signal.Fs.Path
use os_project_signal.Fs.Path.{dirsiz}

abbrev pub t_dir : ℕ
t_dir = 1

-- The bytes of a `struct dirent`.
abbrev pub entry_size : ℕ
entry_size = 16

-- `*p`, and `p + 1`.
abbrev pub first_char : List ℕ → ℕ
first_char [] = 0
first_char (x ∷ xs) = x

abbrev pub next_chars : List ℕ → List ℕ
next_chars [] = []
next_chars (x ∷ xs) = xs

-- The difference is an `int`.
unfoldable pub strncmp : List ℕ → List ℕ → ℕ → ℕ
strncmp p q zero = 0
strncmp p q (suc n) =
    let a = first_char p in
    let b = first_char q in
    let rest = strncmp (next_chars p) (next_chars q) n in
    if (a == 0) || not (a == b) then (a + 2 ^ 32 - b) % 2 ^ 32 else rest

unfoldable pub dir_namecmp : List ℕ → List ℕ → ℕ
dir_namecmp s t = strncmp s t dirsiz

-- The `n` bytes that strncpy writes: zeros from the terminator on.
unfoldable pub strncpy : List ℕ → ℕ → List ℕ
strncpy t zero = []
strncpy t (suc n) = first_char t ∷ strncpy (if first_char t == 0 then [] else next_chars t) n

-- The value of inode_read, and what it has copied.
abbrev pub read_count : Option (List ℕ) → ℕ
read_count none = 2 ^ 32 - 1
read_count (some bytes) = length bytes

abbrev pub bytes_read : Option (List ℕ) → List ℕ
bytes_read none = []
bytes_read (some bytes) = bytes

abbrev pub entry_inum : List ℕ → ℕ
entry_inum de = read_half (write_bytes (λ j. 0) 0 de) 0

abbrev pub entry_name : List ℕ → List ℕ
entry_name de = drop 2 de

-- The entries of a directory of `size` bytes.
abbrev pub entries : ℕ → ℕ
entries size = (size + entry_size - 1) / entry_size

-- The loop of dir_lookup from `off` on, for `rest` entries: the inode, and the offset of its entry.
unfoldable pub lookup_from :
    Outside → Inode.Inodes → ℕ → List ℕ → ℕ → ℕ → Result (Option (ℕ × ℕ) × Inode.Inodes)
lookup_from e s dp name zero off = ok (none, s)
lookup_from e s dp name (suc rest) off = do
  (r, s) ← inode_read e s dp off entry_size
  let de = bytes_read r
  if not (read_count r == entry_size)
      then panics
      else (if (entry_inum de == 0) || not (dir_namecmp (entry_name de) name == 0)
          then lookup_from e s dp name rest (off + entry_size)
          else (do (ip, s) ← inode_get s (s.inode dp).dev (entry_inum de); ok (some (ip, off), s)))

unfoldable pub dir_lookup :
    Outside → Inode.Inodes → ℕ → List ℕ → Result (Option (ℕ × ℕ) × Inode.Inodes)
dir_lookup e s dp name =
    if not ((s.inode dp).type_ == t_dir)
    then panics
    else lookup_from e s dp name (entries (s.inode dp).size) 0

-- The loop of dir_link that looks for an entry that is free: its offset, or the end.
unfoldable pub free_from : Outside → Inode.Inodes → ℕ → ℕ → ℕ → Result (ℕ × Inode.Inodes)
free_from e s dp zero off = ok (off, s)
free_from e s dp (suc rest) off = do
  (r, s) ← inode_read e s dp off entry_size
  if not (read_count r == entry_size)
      then panics
      else (if entry_inum (bytes_read r) == 0
          then ok (off, s)
          else free_from e s dp rest (off + entry_size))

abbrev pub entry_bytes : ℕ → List ℕ → List ℕ
entry_bytes inum name = (inum % 256) ∷ (inum / 256 % 256) ∷ strncpy name dirsiz

-- The value of inode_write.
abbrev pub write_count : Option ℕ → ℕ
write_count none = 2 ^ 32 - 1
write_count (some n) = n

-- What dir_link does after dir_lookup. `false` is -1, and `true` is 0.
unfoldable pub link_new :
    Outside → Inode.Inodes → ℕ → List ℕ → ℕ → Option (ℕ × ℕ) → Result (Bool × Inode.Inodes)
link_new e s dp name inum (some (ip, off)) = do s ← inode_put s ip; ok (false, s)
link_new e s dp name inum none = do
  (off, s) ← free_from e s dp (entries (s.inode dp).size) 0
  (r, s) ← inode_write e s dp off (entry_bytes inum name)
  if not (write_count r == entry_size) then panics else ok (true, s)

unfoldable pub dir_link : Outside → Inode.Inodes → ℕ → List ℕ → ℕ → Result (Bool × Inode.Inodes)
dir_link e s dp name inum = do (found, s) ← dir_lookup e s dp name; link_new e s dp name inum found

abbrev pub found_inode : Option (ℕ × ℕ) → Option ℕ
found_inode none = none
found_inode (some (ip, off)) = some ip

-- What kern/fs/path.c uses, for a process whose directory is `cwd`.
abbrev pub fs_inodes : Outside → ℕ → Path.Inodes
fs_inodes e cwd = record {
  St = Inode.Inodes;
  inode_get = inode_get;
  inode_dup = λ s ip. ok (inode_dup s ip);
  inode_lock = inode_lock;
  inode_unlock = inode_unlock;
  inode_put = inode_put;
  inode_unlockput = inode_unlockput;
  is_dir = λ s ip. (s.inode ip).type_ == t_dir;
  dir_lookup = λ s dp name. (do (found, s) ← dir_lookup e s dp name; ok (found_inode found, s));
  cwd = λ s. cwd;
}
