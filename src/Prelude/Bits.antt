-- ===== src/Prelude/Bits.antt =====
-- Bits of a word: `bit n a` is bit `n` of `a`, and what `|`, `&` and `~` do to it.
use Prim.Native.Nat.{
  ℕ, zero, suc, ◌+◌, ◌-◌, ◌*◌, ◌/◌, ◌%◌, ◌^◌, ◌≤◌, ◌<◌, min, max, bit_and, bit_or, digits,
  bit_and-bitwise, bit_or-bitwise,
}
use native.Mathlib.Nat.{le_refl, pow-suc, one-le-pow}
use mathlib.Core.Path.{◌≡◌, refl, ◌∙◌}
use native.Mathlib.Omega.{arith}
use os_project_signal.Prelude.Tests.{◌==◌, if◌then◌else◌}

abbrev pub bit : ℕ → ℕ → ℕ
bit zero a = a % 2
bit (suc n) a = bit n (a / 2)

pub bit-lt : (n a : ℕ) → bit n a < 2
bit-lt zero a = omega arith
bit-lt (suc n) a = bit-lt n (a / 2)

pub bit_of_zero : (n : ℕ) → bit n 0 ≡ 0
bit_of_zero zero = refl
bit_of_zero (suc n) = bit_of_zero n

bit-zero : (q r : ℕ) → r < 2 → bit 0 (q * 2 + r) ≡ r
bit-zero q r small = omega arith

bit-shift : (k q r : ℕ) → r < 2 → bit (suc k) (q * 2 + r) ≡ bit k q
bit-shift k q r small = let e : (q * 2 + r) / 2 ≡ q = omega arith in rw e refl

-- An operation that works digit by digit on words does so on their bits.
module _ (z : ℕ → ℕ) (f : ℕ → ℕ → ℕ) (digit : (x y : ℕ) → x < 2 → y < 2 → f x y < 2)
    (rest : (k b : ℕ) → bit k (z b) ≡ f 0 (bit k b)) where
  bit-digits : (fuel k a b : ℕ) → a ≤ fuel → bit k (digits z f fuel a b) ≡ f (bit k a) (bit k b)
  bit-digits zero k zero b enough = rw (bit_of_zero k) (rest k b)
  bit-digits zero k (suc a) b enough = absurd (omega arith)
  bit-digits (suc fuel) k zero b enough = rw (bit_of_zero k) (rest k b)
  bit-digits (suc fuel) zero (suc a) b enough =
      bit-zero (digits z f fuel (suc a / 2) (b / 2)) _
        (digit (suc a % 2) (b % 2) (omega arith) (omega arith))
  bit-digits (suc fuel) (suc k) (suc a) b enough =
      bit-shift k (digits z f fuel (suc a / 2) (b / 2)) _
        (digit (suc a % 2) (b % 2) (omega arith) (omega arith))
      ∙ bit-digits fuel k (suc a / 2) (b / 2) (omega arith)

pub bit-bit_or : (n a b : ℕ) → bit n (bit_or a b) ≡ max (bit n a) (bit n b)
bit-bit_or n a b =
    rw bit_or-bitwise
      (bit-digits (λ y. y) max (λ x y p q. omega arith) (λ k c. omega arith) a n a b (le_refl a))

pub bit-bit_and : (n a b : ℕ) → bit n (bit_and a b) ≡ min (bit n a) (bit n b)
bit-bit_and n a b = rw bit_and-bitwise (
    bit-digits (λ y. 0) min (λ x y p q. omega arith) (λ k c. omega (arith, bit_of_zero k)) a n a b
      (le_refl a))

-- The test `a & (1 << n)`, digit by digit.
abbrev mask : ℕ → ℕ → ℕ → ℕ
mask fuel a b = digits (λ y. 0) min fuel a b

mask-empty : (fuel a : ℕ) → a ≤ fuel → mask fuel a 0 ≡ 0
mask-empty zero zero enough = refl
mask-empty zero (suc a) enough = absurd (omega arith)
mask-empty (suc fuel) zero enough = refl
mask-empty (suc fuel) (suc a) enough = omega (arith, mask-empty fuel (suc a / 2) (omega arith))

mask-two_pow : (fuel n a : ℕ) → a ≤ fuel → mask fuel a (2 ^ n) ≡ bit n a * 2 ^ n
mask-two_pow zero n zero enough = rw (bit_of_zero n) (omega arith)
mask-two_pow zero n (suc a) enough = absurd (omega arith)
mask-two_pow (suc fuel) n zero enough = rw (bit_of_zero n) (omega arith)
mask-two_pow (suc fuel) zero (suc a) enough =
    omega (arith, mask-empty fuel (suc a / 2) (omega arith))
mask-two_pow (suc fuel) (suc n) (suc a) enough =
    let halved : 2 ^ suc n / 2 ≡ 2 ^ n = omega (arith, pow-suc 2 n) in
    let even : 2 ^ suc n % 2 ≡ 0 = omega (arith, pow-suc 2 n) in
    let upper = mask-two_pow fuel n (suc a / 2) (omega arith) in
    rw (halved, even, upper) (grind (arith, pow-suc 2 n))

pub bit_and-two_pow : (n a : ℕ) → bit_and a (2 ^ n) ≡ bit n a * 2 ^ n
bit_and-two_pow n a = rw bit_and-bitwise (mask-two_pow a n a (le_refl a))

two_pow-lt : (m w : ℕ) → m < w → 2 ^ m < 2 ^ w
two_pow-lt m zero below = absurd (omega arith)
two_pow-lt zero (suc w) below = omega (arith, pow-suc 2 w, one-le-pow w 2)
two_pow-lt (suc m) (suc w) below =
    omega (arith, pow-suc 2 w, pow-suc 2 m, two_pow-lt m w (omega arith))

-- `1 << m`
pub bit-two_pow : (n m : ℕ) → bit n (2 ^ m) ≡ (if n == m then 1 else 0)
bit-two_pow zero zero = refl
bit-two_pow zero (suc m) = ground (arith, pow-suc 2 m)
bit-two_pow (suc n) zero = ground (arith, bit_of_zero n)
bit-two_pow (suc n) (suc m) =
    let halved : 2 ^ suc m / 2 ≡ 2 ^ m = omega (arith, pow-suc 2 m) in
    rw (halved, bit-two_pow n m) (ground arith)

bit-ones : (w n : ℕ) → n < w → bit n (2 ^ w - 1) ≡ 1
bit-ones zero n below = absurd (omega arith)
bit-ones (suc w) zero below = omega (arith, pow-suc 2 w, one-le-pow w 2)
bit-ones (suc w) (suc n) below =
    let halved : (2 ^ suc w - 1) / 2 ≡ 2 ^ w - 1 = omega (arith, pow-suc 2 w, one-le-pow w 2) in
    rw halved (bit-ones w n (omega arith))

-- `~(1 << m)` in a word of `w` bits
bit-complement_aux :
    (w n m : ℕ) → n < w → m < w → bit n (2 ^ w - 1 - 2 ^ m) ≡ (if n == m then 0 else 1)
bit-complement_aux zero n m p q = absurd (omega arith)
bit-complement_aux (suc w) zero zero p q = omega (arith, pow-suc 2 w, one-le-pow w 2)
bit-complement_aux (suc w) zero (suc m) p q =
    ground (arith, pow-suc 2 w, pow-suc 2 m, two_pow-lt m w (omega arith))
bit-complement_aux (suc w) (suc n) zero p q =
    let halved : (2 ^ suc w - 1 - 1) / 2 ≡ 2 ^ w - 1 = omega (arith, pow-suc 2 w, one-le-pow w 2) in
    rw (halved, bit-ones w n (omega arith)) (ground arith)
bit-complement_aux (suc w) (suc n) (suc m) p q =
    let halved : (2 ^ suc w - 1 - 2 ^ suc m) / 2 ≡ 2 ^ w - 1 - 2 ^ m =
      omega (arith, pow-suc 2 w, pow-suc 2 m, two_pow-lt m w (omega arith)) in
    rw (halved, bit-complement_aux w n m (omega arith) (omega arith)) (ground arith)

pub bit-complement :
    (n m : ℕ) → n < 32 → m < 32 → bit n (2 ^ 32 - 1 - 2 ^ m) ≡ (if n == m then 0 else 1)
bit-complement n m p q = bit-complement_aux 32 n m p q
