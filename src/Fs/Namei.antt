-- ===== src/Fs/Namei.antt =====
-- namei and nameiparent of kern/fs/path.c over the inodes of the disk, and create and isdirempty of
-- kern/fs/sysfile.c. A loop that never ends would never come back.
use os_project_signal.Prelude.{
  ℕ, zero, suc, ◌+◌, ◌-◌, ◌*◌, ◌%◌, ◌^◌, Bool, true, false, ◌&&◌, not, List, [], ◌∷◌, Option, some,
  none, ◌==◌, ltb, if◌then◌else◌, length,
}
use os_project_signal.Fs.Result.{Result, ok, sleeps, panics, ◌>>=◌}
use os_project_signal.Fs.Inode.{
  Inodes, set_inode, inode_alloc, inode_update, inode_lock, inode_unlockput,
}
use os_project_signal.Fs.Inode.Content.{Outside, inode_read}
use os_project_signal.Fs.Path.{namex}
use os_project_signal.Fs.Dir.{
  t_dir, entry_size, entry_inum, read_count, bytes_read, dir_lookup, dir_link, fs_inodes,
}

abbrev pub t_file : ℕ
t_file = 2

-- The characters '.' and "..".
abbrev pub dot : List ℕ
dot = 46 ∷ []

abbrev pub dot_dot : List ℕ
dot_dot = 46 ∷ 46 ∷ []

abbrev pub settled {ℓ} : {A : Type ℓ} → Option (Result A) → Result A
settled none = sleeps
settled (some r) = r

-- The inode of the directory above, and the last name.
unfoldable pub nameiparent : Outside → ℕ → Inodes → List ℕ → Result (Option ℕ × List ℕ × Inodes)
nameiparent e cwd s path = settled (namex (fs_inodes e cwd) (suc (length path)) s path true)

unfoldable pub namei : Outside → ℕ → Inodes → List ℕ → Result (Option ℕ × Inodes)
namei e cwd s path = do
  (ip, name, s) ← settled (namex (fs_inodes e cwd) (suc (length path)) s path false)
  ok (ip, s)

-- A link more or less, of an `int16_t`.
abbrev pub add_link : Inodes → ℕ → Inodes
add_link s ip = set_inode s ip (record (s.inode ip) { nlink = ((s.inode ip).nlink + 1) % 2 ^ 16 })

abbrev pub drop_link : Inodes → ℕ → Inodes
drop_link s ip =
    set_inode s ip (record (s.inode ip) { nlink = ((s.inode ip).nlink + 2 ^ 16 - 1) % 2 ^ 16 })

-- The entries "." and ".." of a new directory.
unfoldable pub link_dots : Outside → Inodes → ℕ → ℕ → Result Inodes
link_dots e s dp ip = do
  s ← inode_update (add_link s dp) dp
  (own, s) ← dir_link e s ip dot (s.inode ip).inum
  if not own then panics else (do
    (above, s) ← dir_link e s ip dot_dot (s.inode dp).inum
    if not above then panics else ok s)

-- create after dir_lookup.
unfoldable pub create_found :
    Outside → Inodes → ℕ → List ℕ → ℕ → ℕ → ℕ → Option (ℕ × ℕ) → Result (Option ℕ × Inodes)
create_found e s dp name type_ major minor (some (ip, off)) = do
  s ← inode_unlockput s dp
  s ← inode_lock s ip
  if (type_ == t_file) && ((s.inode ip).type_ == t_file)
      then ok (some ip, s)
      else (do s ← inode_unlockput s ip; ok (none, s))
create_found e s dp name type_ major minor none = do
  (ip, s) ← inode_alloc s (s.inode dp).dev type_
  s ← inode_lock s ip
  s ←
      inode_update
        (set_inode s ip (record (s.inode ip) { major = major; minor = minor; nlink = 1 })) ip
  s ← (if type_ == t_dir then link_dots e s dp ip else ok s)
  (linked, s) ← dir_link e s dp name (s.inode ip).inum
  if not linked then panics else (do s ← inode_unlockput s dp; ok (some ip, s))

-- create after nameiparent.
unfoldable pub create_in :
    Outside → Inodes → Option ℕ → List ℕ → ℕ → ℕ → ℕ → Result (Option ℕ × Inodes)
create_in e s none name type_ major minor = ok (none, s)
create_in e s (some dp) name type_ major minor = do
  s ← inode_lock s dp
  (found, s) ← dir_lookup e s dp name
  create_found e s dp name type_ major minor found

-- The inode, locked.
unfoldable pub create : Outside → ℕ → Inodes → List ℕ → ℕ → ℕ → ℕ → Result (Option ℕ × Inodes)
create e cwd s path type_ major minor = do
  (dp, name, s) ← nameiparent e cwd s path
  create_in e s dp name type_ major minor

-- The loop of isdirempty from `off` on, in at most `fuel` rounds: each has an entry of its own
-- below the size.
unfoldable pub empty_from : Outside → ℕ → Inodes → ℕ → ℕ → Result (Bool × Inodes)
empty_from e zero s dp off = ok (true, s)
empty_from e (suc fuel) s dp off = if not (ltb off (s.inode dp).size) then ok (true, s) else (do
  (r, s) ← inode_read e s dp off entry_size
  if not (read_count r == entry_size)
      then panics
      else (if entry_inum (bytes_read r) == 0
          then empty_from e fuel s dp (off + entry_size)
          else ok (false, s)))

unfoldable pub isdirempty : Outside → Inodes → ℕ → Result (Bool × Inodes)
isdirempty e s dp = empty_from e (s.inode dp).size s dp (2 * entry_size)
