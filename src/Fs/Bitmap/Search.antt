-- ===== src/Fs/Bitmap/Search.antt =====
-- The search of block_alloc of kern/fs/block.c in a sector of the bitmap.
use os_project_signal.Prelude.{
  ℕ, zero, suc, ◌+◌, ◌*◌, ◌/◌, ◌%◌, ◌^◌, ◌≤◌, ◌<◌, ◌≡◌, ◌≢◌, ◌⊎◌, inl, inr, refl, sym, ap, ◌∙◌,
  false, ltb, bit_and, arith, ◌==◌, Bool-cases, ==-false, bit-lt, bit_and-two_pow,
}
use os_project_signal.Fs.Cache.{Block}
use os_project_signal.Fs.Bitmap.{bpb, find_clear}
use os_project_signal.Fs.Bitmap.Free.{in_use, two_pow-pos}

-- The test that block_alloc makes.
bit_test :
    (bytes : Block) (i : ℕ) → (bit_and (bytes (i / 8)) (2 ^ (i % 8)) == 0) ≡ (in_use bytes i == 0)
bit_test bytes i =
    let pos = two_pow-pos (i % 8) in
    let two = bit-lt (i % 8) (bytes (i / 8)) in
    rw (bit_and-two_pow (i % 8) (bytes (i / 8))) (elim (Bool-cases (in_use bytes i == 0)) [
      | inl free ↦
          let z : in_use bytes i ≡ 0 = ground arith in
          rw z (let e : 0 * 2 ^ (i % 8) ≡ 0 = omega arith in rw e refl)
      | inr used ↦
          let z : in_use bytes i ≡ 1 = ground arith in
          rw z (==-false (1 * 2 ^ (i % 8)) 0 (λ e. omega arith))
    ])

pub find_clear-cases :
    (bytes : Block) (size b rest bi : ℕ)
    → rest + bi ≡ bpb
    → let f = find_clear bytes size b rest bi in
      ((bi ≤ f)
        × (f < bpb)
        × (b + f < size)
        × (in_use bytes f ≡ 0)
        × ((k : ℕ) → bi ≤ k → k < f → in_use bytes k ≢ 0))
      ⊎ ((f ≡ bpb) × ((k : ℕ) → bi ≤ k → k < bpb → b + k < size → in_use bytes k ≢ 0))
unfolding find_clear
find_clear-cases bytes size b zero bi e = inr (refl, λ k p q r. absurd (omega arith))
find_clear-cases bytes size b (suc rest) bi e = elim (Bool-cases (ltb (b + bi) size)) [
  | inl inside ↦ elim (Bool-cases (in_use bytes bi == 0)) [
    | inl free ↦
        let clear = bit_test bytes bi ∙ free in
        rw (inside, clear)
          (inl
            (omega arith, omega arith, ground arith, ground arith, λ k p q. absurd (omega arith)))
    | inr used ↦
        let set = bit_test bytes bi ∙ used in
        rw (inside, set)
          (elim (find_clear-cases bytes size b rest (suc bi) (omega arith)) [
            | inl (le, lt, fits, z, below) ↦
                inl (omega arith, lt, fits, z, λ k p q. onward k used p (λ p'. below k p' q))
            | inr (none_clear, all) ↦
                inr (none_clear, λ k p q r. onward k used p (λ p'. all k p' q r))
          ])
  ]
  | inr outside ↦ rw outside (inr (refl, λ k p q r. absurd (ground arith)))
]
  where
    onward :
        (k : ℕ)
        → (in_use bytes bi == 0) ≡ false
        → bi ≤ k
        → (suc bi ≤ k → in_use bytes k ≢ 0)
        → in_use bytes k ≢ 0
    onward k used le beyond = elim (Bool-cases (k == bi)) [
      | inl same ↦ λ z.
          let e : k ≡ bi = ground arith in
          let z' : in_use bytes bi ≡ 0 = ap (in_use bytes) (sym e) ∙ z in ground arith
      | inr other ↦ beyond (ground arith)
    ]
