-- ===== src/Fs/Path.antt =====
-- kern/fs/path.c. A C string is the list of its characters up to the terminator, and a pointer into
-- it is what is left of the list.
pub mod Elems
pub mod Walk
use os_project_signal.Prelude.{
  ℕ, zero, suc, ◌+◌, ◌-◌, ◌≡◌, Bool, true, false, ◌&&◌, ◌||◌, not, List, [], ◌∷◌, arith, Option,
  some, none, ◌==◌, leb, if◌then◌else◌, length,
}
use os_project_signal.Fs.Result.{Result, ok, sleeps, panics, ◌>>=◌}

abbrev pub dirsiz : ℕ
dirsiz = 14

-- The character '/'.
abbrev pub slash : ℕ
slash = 47

abbrev pub is_empty {ℓ} : {A : Type ℓ} → List A → Bool
is_empty [] = true
is_empty (x ∷ xs) = false

-- `*path == '/'`
abbrev pub is_rooted : List ℕ → Bool
is_rooted [] = false
is_rooted (x ∷ xs) = x == slash

-- `while(*p == '/') p++`
unfoldable pub skip_slashes : List ℕ → List ℕ
skip_slashes [] = []
skip_slashes (x ∷ xs) = if x == slash then skip_slashes xs else x ∷ xs

-- `while(*end != '/' && *end != '\0') end++`
unfoldable pub skip_name : List ℕ → List ℕ
skip_name [] = []
skip_name (x ∷ xs) = if x == slash then x ∷ xs else skip_name xs

-- strncpy of `n` characters that are not the terminator.
unfoldable pub copy_name : List ℕ → ℕ → List ℕ
copy_name [] n = []
copy_name (x ∷ xs) zero = []
copy_name (x ∷ xs) (suc n) = x ∷ copy_name xs n

-- What is left of the path, and the name.
unfoldable pub skipelem : List ℕ → Option (List ℕ × List ℕ)
skipelem path =
    let start = skip_slashes path in
    let end_of = skip_name start in
    let len = length start - length end_of in
    if is_empty path
    then none
    else if is_empty start
    then none
    else some (skip_slashes end_of, copy_name start (if leb dirsiz len then dirsiz - 1 else len))

-- What namex uses of the inodes: `St` is the state of kern/fs/inode.c, and an inode is a
-- place in its cache.
pub record Inodes : Type 1 where
  pub St : Type 0
  pub inode_get : St → ℕ → ℕ → Result (ℕ × St)
  pub inode_dup : St → ℕ → Result St
  pub inode_lock : St → ℕ → Result St
  pub inode_unlock : St → ℕ → Result St
  pub inode_put : St → ℕ → Result St
  pub inode_unlockput : St → ℕ → Result St
  pub is_dir : St → ℕ → Bool
  pub dir_lookup : St → ℕ → List ℕ → Result (Option ℕ × St)
  pub cwd : St → ℕ

-- The inode or 0, the contents of `name`, and the state.
abbrev pub Found : Inodes → Type 0
Found i = Option ℕ × List ℕ × i.St

-- A round of the loop returns, or goes on with a directory below.
pub data Round (i : Inodes) : Type 0 where
  returns : Found i → Round i
  goes_on : ℕ → i.St → Round i

-- What namex does after dir_lookup.
abbrev namex_found : (i : Inodes) → List ℕ → i.St → Option ℕ → Round i
namex_found i name s none = returns (none, name, s)
namex_found i name s (some subdir) = goes_on subdir s

-- The body of the loop of namex. `last`: nothing is left of the path.
unfoldable pub namex_step : (i : Inodes) → i.St → Bool → ℕ → Bool → List ℕ → Result (Round i)
namex_step i s parent ip last name = do
  s ← i.inode_lock s ip
  if not (i.is_dir s ip)
      then (do s ← i.inode_unlockput s ip; ok (returns (none, name, s)))
      else if parent && last
      then (do s ← i.inode_unlock s ip; ok (returns (some ip, name, s)))
      else (do
        (found, s) ← i.dir_lookup s ip name
        s ← i.inode_unlockput s ip
        ok (namex_found i name s found))

-- What follows the loop.
unfoldable pub namex_end : (i : Inodes) → i.St → Bool → ℕ → List ℕ → Result (Found i)
namex_end i s parent ip name =
    if parent then (do s ← i.inode_put s ip; ok (none, name, s)) else ok (some ip, name, s)

-- The condition of the loop of namex: what to do without a name, and with one.
abbrev pub if_name {ℓ} : {A : Type ℓ} → Option (List ℕ × List ℕ) → A → (List ℕ → List ℕ → A) → A
if_name none stop go = stop
if_name (some (rest, elem)) stop go = go rest elem

-- What follows a round.
abbrev pub after_round :
    (i : Inodes)
    → Result (Round i)
    → (ℕ → i.St → Option (Result (Found i)))
    → Option (Result (Found i))
after_round i (ok (returns found)) next = some (ok found)
after_round i (ok (goes_on subdir s)) next = next subdir s
after_round i sleeps next = some sleeps
after_round i panics next = some panics

-- At most `fuel` rounds of the loop; `none` when they are not enough.
unfoldable pub namex_loop :
    (i : Inodes) → ℕ → i.St → Bool → ℕ → List ℕ → List ℕ → Option (Result (Found i))
namex_loop i zero s parent ip path name = none
namex_loop i (suc fuel) s parent ip path name =
    if_name (skipelem path) (some (namex_end i s parent ip name)) (λ rest elem.
      after_round i (namex_step i s parent ip (is_empty rest) elem)
        (λ subdir s'. namex_loop i fuel s' parent subdir rest elem))

-- Where the path starts: ROOTDEV and ROOTINO, or the directory of the process.
unfoldable pub namex_start : (i : Inodes) → i.St → List ℕ → Result (ℕ × i.St)
namex_start i s path =
    if is_rooted path
    then i.inode_get s 1 1
    else (do let ip = i.cwd s; s ← i.inode_dup s ip; ok (ip, s))

-- The loop from there.
abbrev pub from_start :
    (i : Inodes)
    → Result (ℕ × i.St)
    → (ℕ → i.St → Option (Result (Found i)))
    → Option (Result (Found i))
from_start i (ok (ip, s)) loop = loop ip s
from_start i sleeps loop = some sleeps
from_start i panics loop = some panics

-- `name` holds nothing before the first round.
unfoldable pub namex : (i : Inodes) → ℕ → i.St → List ℕ → Bool → Option (Result (Found i))
namex i fuel s path parent =
    from_start i (namex_start i s path) (λ ip s'. namex_loop i fuel s' parent ip path [])
