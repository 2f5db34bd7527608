-- ===== src/Fs/Path/Elems.antt =====
-- The names of a path, read off at once, and skipelem.
use os_project_signal.Prelude.{
  ℕ, zero, suc, ◌+◌, ◌-◌, ◌≤◌, ◌<◌, ◌≡◌, ◌⊎◌, inl, inr, refl, sym, ap, ◌∙◌, false, List, [], ◌∷◌,
  arith, some, none, ◌==◌, leb, if◌then◌else◌, length, Bool-cases,
}
use os_project_signal.Fs.Path.{
  slash, dirsiz, is_empty, skip_slashes, skip_name, copy_name, skipelem,
}

-- A character that goes before the first piece.
abbrev pub onto_first : ℕ → List (List ℕ) → List (List ℕ)
onto_first x [] = (x ∷ []) ∷ []
onto_first x (piece ∷ pieces) = (x ∷ piece) ∷ pieces

-- The pieces between the slashes.
unfoldable pub split_path : List ℕ → List (List ℕ)
split_path [] = [] ∷ []
split_path (x ∷ xs) = if x == slash then [] ∷ split_path xs else onto_first x (split_path xs)

-- The pieces that are not empty, cut to the length of a directory entry's name.
unfoldable pub names_of : List (List ℕ) → List (List ℕ)
names_of [] = []
names_of (piece ∷ pieces) =
    let rest = names_of pieces in
    if is_empty piece then rest else copy_name piece (dirsiz - 1) ∷ rest

-- The names of a path.
abbrev pub elems : List ℕ → List (List ℕ)
elems path = names_of (split_path path)

-- The characters before the first slash.
abbrev word : List ℕ → List ℕ
word [] = []
word (x ∷ xs) = if x == slash then [] else x ∷ word xs

-- The pieces after the first one.
abbrev later : List ℕ → List (List ℕ)
later [] = []
later (x ∷ xs) = split_path xs

split_path-word : (p : List ℕ) → split_path p ≡ word p ∷ later (skip_name p)
unfolding split_path skip_name
split_path-word [] = refl
split_path-word (x ∷ xs) = elim (Bool-cases (x == slash)) [
  | inl same ↦ rw same refl
  | inr other ↦ rw other (ap (onto_first x) (split_path-word xs))
]

names_of-skip_slashes : (p : List ℕ) → elems (skip_slashes p) ≡ elems p
unfolding split_path names_of skip_slashes
names_of-skip_slashes [] = refl
names_of-skip_slashes (x ∷ xs) = elim (Bool-cases (x == slash)) [
  | inl same ↦ rw same (names_of-skip_slashes xs)
  | inr other ↦ rw (other, other) refl
]

names_of-later : (p : List ℕ) → names_of (later (skip_name p)) ≡ elems (skip_name p)
unfolding split_path names_of skip_name
names_of-later [] = refl
names_of-later (x ∷ xs) = elim (Bool-cases (x == slash)) [
  | inl same ↦ rw (same, same) refl
  | inr other ↦ rw other (names_of-later xs)
]

length-word : (p : List ℕ) → length p ≡ length (word p) + length (skip_name p)
unfolding skip_name
length-word [] = refl
length-word (x ∷ xs) = ground (arith, length-word xs)

copy_name-word : (p : List ℕ) (n : ℕ) → n ≤ length (word p) → copy_name p n ≡ copy_name (word p) n
unfolding copy_name
copy_name-word [] n h = refl
copy_name-word (x ∷ xs) zero h = elim (Bool-cases (x == slash)) [
  | inl same ↦ rw same refl
  | inr other ↦ rw other refl
]
copy_name-word (x ∷ xs) (suc n) h = elim (Bool-cases (x == slash)) [
  | inl same ↦ absurd (ground arith)
  | inr other ↦ rw other (ap (λ ys. x ∷ ys) (copy_name-word xs n (ground arith)))
]

copy_name_of_le : (p : List ℕ) (n : ℕ) → length p ≤ n → copy_name p n ≡ p
unfolding copy_name
copy_name_of_le [] n h = refl
copy_name_of_le (x ∷ xs) zero h = absurd (omega arith)
copy_name_of_le (x ∷ xs) (suc n) h = ap (λ ys. x ∷ ys) (copy_name_of_le xs n (omega arith))

-- The name is cut as skipelem cuts it.
copy_name-cut :
    (p : List ℕ)
    → let len = length p - length (skip_name p) in
      copy_name p (if leb dirsiz len then dirsiz - 1 else len) ≡ copy_name (word p) (dirsiz - 1)
copy_name-cut p =
    let l = length-word p in
    let len : length p - length (skip_name p) ≡ length (word p) = omega arith in
    rw len (elim (Bool-cases (leb dirsiz (length (word p)))) [
      | inl long ↦ rw long (copy_name-word p (dirsiz - 1) (ground arith))
      | inr short ↦ rw short (
          copy_name-word p (length (word p)) (omega arith)
          ∙ copy_name_of_le (word p) (length (word p)) (omega arith)
          ∙ sym (copy_name_of_le (word p) (dirsiz - 1) (ground arith)))
    ])

skip_slashes-cases :
    (p : List ℕ)
    → (skip_slashes p ≡ [])
      ⊎ ((x : ℕ) × (xs : List ℕ) × (skip_slashes p ≡ x ∷ xs) × ((x == slash) ≡ false))
unfolding skip_slashes
skip_slashes-cases [] = inl refl
skip_slashes-cases (x ∷ xs) = elim (Bool-cases (x == slash)) [
  | inl same ↦ rw same (skip_slashes-cases xs)
  | inr other ↦ rw other (inr (x, xs, refl, other))
]

-- A path that starts with a name.
elems-word :
    (x : ℕ) (xs : List ℕ)
    → (x == slash) ≡ false
    → elems (x ∷ xs)
      ≡ copy_name (word (x ∷ xs)) (dirsiz - 1) ∷ elems (skip_slashes (skip_name (x ∷ xs)))
unfolding names_of
elems-word x xs other =
    ap names_of (split_path-word (x ∷ xs))
    ∙ rw other (
        ap (λ ys. copy_name (x ∷ word xs) (dirsiz - 1) ∷ ys)
          (names_of-later (x ∷ xs) ∙ sym (names_of-skip_slashes (skip_name (x ∷ xs)))))

is_empty-elems : (p : List ℕ) → is_empty (skip_slashes p) ≡ is_empty (elems (skip_slashes p))
unfolding split_path names_of
is_empty-elems p = elim (skip_slashes-cases p) [
  | inl none_left ↦ rw none_left refl
  | inr (x, xs, e, other) ↦
      ap is_empty e ∙ sym (ap (λ q. is_empty (elems q)) e ∙ ap is_empty (elems-word x xs other))
]

length-skip_slashes : (p : List ℕ) → length (skip_slashes p) ≤ length p
unfolding skip_slashes
length-skip_slashes [] = omega arith
length-skip_slashes (x ∷ xs) = ground (arith, length-skip_slashes xs)

length-skip_name : (p : List ℕ) → length (skip_name p) ≤ length p
unfolding skip_name
length-skip_name [] = omega arith
length-skip_name (x ∷ xs) = ground (arith, length-skip_name xs)

skip_name-shorter :
    (x : ℕ) (xs : List ℕ) → (x == slash) ≡ false → length (skip_name (x ∷ xs)) ≤ length xs
unfolding skip_name
skip_name-shorter x xs other = rw other (length-skip_name xs)

-- The name is the first of the path, and `rest` is a shorter path with the others.
pub record IsSkipped (path rest name : List ℕ) : Type 0 where
  pub first : elems path ≡ name ∷ elems rest
  pub shorter : length rest < length path
  pub last : is_empty rest ≡ is_empty (elems rest)
  pub not_rooted : skip_slashes rest ≡ rest

skip_slashes-skip_slashes : (p : List ℕ) → skip_slashes (skip_slashes p) ≡ skip_slashes p
unfolding skip_slashes
skip_slashes-skip_slashes [] = refl
skip_slashes-skip_slashes (x ∷ xs) = elim (Bool-cases (x == slash)) [
  | inl same ↦ rw same (skip_slashes-skip_slashes xs)
  | inr other ↦ rw (other, other) refl
]

-- skipelem takes the first name of the path off, with the names read off by cutting the whole path
-- at its slashes: it fails when there is none; else it returns that name, cut to 13 characters,
-- and a shorter path that has the other names, starts with no slash, and is empty only when there
-- are no others.
pub skipelem-cases :
    (path : List ℕ)
    → ((skipelem path ≡ none) × (elems path ≡ []))
      ⊎ ((rest name : List ℕ) × (skipelem path ≡ some (rest, name)) × IsSkipped path rest name)
unfolding skipelem split_path names_of
skipelem-cases [] = inl (refl, refl)
skipelem-cases (y ∷ ys) = elim (skip_slashes-cases (y ∷ ys)) [
  | inl none_left ↦
      inl (rw none_left refl, sym (names_of-skip_slashes (y ∷ ys)) ∙ ap elems none_left)
  | inr (x, xs, e, other) ↦
      let l = length-skip_slashes (y ∷ ys) in
      let l' : length (skip_slashes (y ∷ ys)) ≡ suc (length xs) = ap length e in
      let l2 = length-skip_slashes (skip_name (x ∷ xs)) in
      let l3 : length (skip_name (x ∷ xs)) ≤ length xs = skip_name-shorter x xs other in
      inr (
        skip_slashes (skip_name (x ∷ xs)),
        copy_name (word (x ∷ xs)) (dirsiz - 1),
        rw e (ap (λ name. some (skip_slashes (skip_name (x ∷ xs)), name)) (copy_name-cut (x ∷ xs))),
        record {
          first = sym (names_of-skip_slashes (y ∷ ys)) ∙ ap elems e ∙ elems-word x xs other;
          shorter = omega arith;
          last = is_empty-elems (skip_name (x ∷ xs));
          not_rooted = skip_slashes-skip_slashes (skip_name (x ∷ xs));
        },
      )
]
