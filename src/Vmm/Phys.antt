-- ===== src/Vmm/Phys.antt =====
-- Physical memory, which the kernel reads and writes under the identity map: bytes by address,
-- and words of 32 bits, low byte first.
use native.Mathlib.Nat.{zero-add, add-zero}
use os_project_signal.Prelude.{
  ℕ, zero, suc, ◌+◌, ◌*◌, ◌/◌, ◌%◌, ◌^◌, ◌≤◌, ◌<◌, ◌≡◌, ◌⊎◌, refl, ap, ◌∙◌, ◌++◌, fun_ext, List, [],
  ◌∷◌, arith, ◌==◌, if◌then◌else◌, ltb, leb, ◌&&◌, length, update,
}

-- The bytes of a `uint32_t`.
abbrev pub word_bytes : ℕ → List ℕ
word_bytes w = (w % 256) ∷ (w / 256 % 256) ∷ (w / 65536 % 256) ∷ (w / 16777216 % 256) ∷ []

abbrev pub word_of : ℕ → ℕ → ℕ → ℕ → ℕ
word_of b c d e = b + 256 * c + 65536 * d + 16777216 * e

unfoldable pub read_word : (ℕ → ℕ) → ℕ → ℕ
read_word f a = word_of (f a) (f (a + 1)) (f (a + 2)) (f (a + 3))

unfoldable pub write_word : (ℕ → ℕ) → ℕ → ℕ → ℕ → ℕ
write_word f a w j =
    if j == a
    then w % 256
    else if j == a + 1
    then w / 256 % 256
    else if j == a + 2
    then w / 65536 % 256
    else if j == a + 3
    then w / 16777216 % 256
    else f j

-- memcpy from a kernel buffer into physical memory, and back.
unfoldable pub write_bytes : (ℕ → ℕ) → ℕ → List ℕ → ℕ → ℕ
write_bytes f a [] = f
write_bytes f a (b ∷ bs) = write_bytes (update f a b) (a + 1) bs

unfoldable pub read_bytes : (ℕ → ℕ) → ℕ → ℕ → List ℕ
read_bytes f a zero = []
read_bytes f a (suc n) = f a ∷ read_bytes f (a + 1) n

-- memset over `n` bytes.
unfoldable pub fill_bytes : (ℕ → ℕ) → ℕ → ℕ → ℕ → ℕ → ℕ
fill_bytes f a c n j = if leb a j && ltb j (a + n) then c else f j

pub read_word-write_word : (f : ℕ → ℕ) (a w : ℕ) → w < 2 ^ 32 → read_word (write_word f a w) a ≡ w
unfolding read_word write_word
read_word-write_word f a w h = ground arith

pub read_word-write_word_ne :
    (f : ℕ → ℕ) (a b w : ℕ)
    → a + 4 ≤ b ⊎ (b + 4 ≤ a)
    → read_word (write_word f a w) b ≡ read_word f b
unfolding read_word write_word
read_word-write_word_ne f a b w h = ground arith

pub write_bytes-outside :
    (f : ℕ → ℕ) (a : ℕ) (bs : List ℕ) (j : ℕ)
    → j < a ⊎ (a + length bs ≤ j)
    → write_bytes f a bs j ≡ f j
unfolding write_bytes
write_bytes-outside f a [] j h = refl
write_bytes-outside f a (b ∷ bs) j h =
    ground (arith, write_bytes-outside (update f a b) (a + 1) bs j (ground arith))

pub read_bytes-congr :
    (f g : ℕ → ℕ) (a n : ℕ)
    → ((j : ℕ) → a ≤ j → j < a + n → f j ≡ g j)
    → read_bytes f a n ≡ read_bytes g a n
unfolding read_bytes
read_bytes-congr f g a zero h = refl
read_bytes-congr f g a (suc n) h =
    ground (arith, h a, read_bytes-congr f g (a + 1) n (λ j p q. h j (omega arith) (omega arith)))

pub read_bytes-write_bytes :
    (f : ℕ → ℕ) (a : ℕ) (bs : List ℕ) → read_bytes (write_bytes f a bs) a (length bs) ≡ bs
unfolding read_bytes write_bytes
read_bytes-write_bytes f a [] = refl
read_bytes-write_bytes f a (b ∷ bs) = ground (
  arith,
  write_bytes-outside (update f a b) (a + 1) bs a (ground arith),
  read_bytes-write_bytes (update f a b) (a + 1) bs,
)

update-write_bytes :
    (f : ℕ → ℕ) (a b c : ℕ) (bs : List ℕ)
    → a < c
    → update (write_bytes f c bs) a b ≡ write_bytes (update f a b) c bs
unfolding write_bytes
update-write_bytes f a b c [] h = refl
update-write_bytes f a b c (d ∷ bs) h =
    update-write_bytes (update f c d) a b (c + 1) bs (omega arith)
    ∙ ap (λ g. write_bytes g (c + 1) bs) (fun_ext λ j. ground arith)

-- What is written just below earlier bytes makes one block with them.
pub write_bytes-below :
    (f : ℕ → ℕ) (a c : ℕ) (xs ys : List ℕ)
    → c ≡ a + length xs
    → write_bytes (write_bytes f c ys) a xs ≡ write_bytes f a (xs ++ ys)
unfolding write_bytes
write_bytes-below f a c [] ys e = ap (λ d. write_bytes f d ys) (omega arith)
write_bytes-below f a c (x ∷ xs) ys e =
    ap (λ g. write_bytes g (a + 1) xs) (update-write_bytes f a x c ys (omega arith))
    ∙ write_bytes-below (update f a x) (a + 1) c xs ys (omega arith)

-- Two blocks of a read.
pub read_bytes-add :
    (f : ℕ → ℕ) (a n m : ℕ) → read_bytes f a (n + m) ≡ read_bytes f a n ++ read_bytes f (a + n) m
unfolding read_bytes
read_bytes-add f a zero m = rw (zero-add, add-zero)
read_bytes-add f a (suc n) m =
    let e : suc n + m ≡ suc (n + m) = omega arith in
    let shift : a + suc n ≡ a + 1 + n = omega arith in
    rw (e, shift) (ap (λ bs. f a ∷ bs) (read_bytes-add f (a + 1) n m))

-- A word is spared by a write elsewhere.
pub read_word-write_bytes :
    (f : ℕ → ℕ) (a b : ℕ) (bs : List ℕ)
    → a + 4 ≤ b ⊎ (b + length bs ≤ a)
    → read_word (write_bytes f b bs) a ≡ read_word f a
unfolding read_word
read_word-write_bytes f a b bs h = rw (
  write_bytes-outside f b bs a (ground arith),
  write_bytes-outside f b bs (a + 1) (ground arith),
  write_bytes-outside f b bs (a + 2) (ground arith),
  write_bytes-outside f b bs (a + 3) (ground arith),
)
