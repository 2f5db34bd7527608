-- ===== src/Prelude/Lists.antt =====
-- Lists measured by native numbers, and membership of numbers as a test.
use Prim.Native.Nat.{ℕ, suc, ◌+◌}
use mathlib.Core.Path.{◌≡◌, refl}
use mathlib.Core.Bool.{Bool, true, false, ◌||◌}
use mathlib.Core.List.{List, [], ◌∷◌, ◌++◌}
use native.Mathlib.Omega.{arith}
use os_project_signal.Prelude.Tests.{◌==◌, if◌then◌else◌}

module _ {ℓ} {A : Type ℓ} where
  abbrev pub length : List A → ℕ
  length [] = 0
  length (x ∷ xs) = suc (length xs)

  pub length-append : (xs ys : List A) → length (xs ++ ys) ≡ length xs + length ys
  length-append [] ys = omega arith
  length-append (x ∷ xs) ys = omega (arith, length-append xs ys)

abbrev pub mem : ℕ → List ℕ → Bool
mem a [] = false
mem a (x ∷ xs) = (a == x) || mem a xs

-- No number occurs twice.
abbrev pub Distinct : List ℕ → Type 0
Distinct [] = Unit
Distinct (x ∷ xs) = (mem x xs ≡ false) × Distinct xs

abbrev pub head_or : List ℕ → ℕ → ℕ
head_or [] d = d
head_or (x ∷ xs) d = x

abbrev pub last_or : List ℕ → ℕ → ℕ
last_or [] d = d
last_or (x ∷ xs) d = last_or xs x

abbrev pub erase : ℕ → List ℕ → List ℕ
erase a [] = []
erase a (x ∷ xs) = if a == x then xs else x ∷ erase a xs

pub mem-append : (a : ℕ) (xs ys : List ℕ) → mem a (xs ++ ys) ≡ (mem a xs || mem a ys)
mem-append a [] ys = refl
mem-append a (x ∷ xs) ys = ground (arith, mem-append a xs ys)

pub mem-last_or : (x : ℕ) (xs : List ℕ) → mem (last_or xs x) (x ∷ xs) ≡ true
mem-last_or x [] = ground arith
mem-last_or x (y ∷ ys) = ground (arith, mem-last_or y ys)

pub last_or-append : (a d : ℕ) (xs : List ℕ) → last_or (xs ++ (a ∷ [])) d ≡ a
last_or-append a d [] = refl
last_or-append a d (x ∷ xs) = last_or-append a x xs

pub mem-erase-false : (b a : ℕ) (xs : List ℕ) → mem b xs ≡ false → mem b (erase a xs) ≡ false
mem-erase-false b a [] h = refl
mem-erase-false b a (x ∷ xs) h = ground (arith, mem-erase-false b a xs)

pub mem-erase :
    (b a : ℕ) (xs : List ℕ)
    → Distinct xs
    → mem b (erase a xs) ≡ (if b == a then false else mem b xs)
mem-erase b a [] d = ground arith
mem-erase b a (x ∷ xs) d = ground (arith, mem-erase b a xs)

pub Distinct-erase : (a : ℕ) (xs : List ℕ) → Distinct xs → Distinct (erase a xs)
Distinct-erase a [] d = tt
Distinct-erase a (x ∷ xs) d = ground (arith, Distinct-erase a xs, mem-erase-false x a xs)

pub Distinct-append :
    (a : ℕ) (xs : List ℕ) → Distinct xs → mem a xs ≡ false → Distinct (xs ++ (a ∷ []))
Distinct-append a [] d h = (refl, tt)
Distinct-append a (x ∷ xs) d h = ground (arith, Distinct-append a xs, mem-append x xs (a ∷ []))

pub erase_of_not_mem : (a : ℕ) (xs : List ℕ) → mem a xs ≡ false → erase a xs ≡ xs
erase_of_not_mem a [] h = refl
erase_of_not_mem a (x ∷ xs) h = ground (arith, erase_of_not_mem a xs)
