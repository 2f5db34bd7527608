-- ===== src/Fs/Inode/Find.antt =====
-- The searches of inode_get of kern/fs/inode.c.
use os_project_signal.Prelude.{
  ℕ, zero, suc, ◌+◌, ◌^◌, ◌≤◌, ◌<◌, ◌≡◌, ◌≢◌, ◌⊎◌, inl, inr, refl, sym, ap, ◌∙◌, false, ◌&&◌, arith,
  ◌==◌, ltb, Bool-cases,
}
use os_project_signal.Fs.Inode.{Inode, ninode, find_inode, find_empty}

-- Place `x` of the cache is for the inode of the disk.
abbrev pub IsFor : Inode → ℕ → ℕ → Type 0
IsFor x dev inum = (x.dev ≡ dev) × (x.inum ≡ inum)

pub find_inode-cases :
    (t : ℕ → Inode) (dev inum n rest : ℕ)
    → n + rest ≡ ninode
    → let f = find_inode t dev inum n rest in
      ((n ≤ f) × (f < ninode) × (0 < (t f).ref) × IsFor (t f) dev inum)
      ⊎ ((f ≡ ninode)
          × ((i : ℕ)
              → n ≤ i
              → i < ninode
              → 0 < (t i).ref
              → (t i).ref < 2 ^ 31
              → ¬ (IsFor (t i) dev inum)))
unfolding find_inode
find_inode-cases t dev inum n zero e = inr (refl, λ i p q. absurd (omega arith))
find_inode-cases t dev inum n (suc rest) e =
    elim (Bool-cases
      (ltb 0 (t n).ref && ltb (t n).ref (2 ^ 31) && ((t n).dev == dev) && ((t n).inum == inum))) [
        | inl hit ↦
            rw hit (inl (omega arith, omega arith, ground arith, (ground arith, ground arith)))
        | inr miss ↦ elim (find_inode-cases t dev inum (suc n) rest (omega arith)) [
          | inl (le, lt, pos, is) ↦ rw miss (inl (omega arith, lt, pos, is))
          | inr (none, all) ↦ rw miss (
              inr (
                none,
                λ i p q r w is. elim (Bool-cases (n == i)) [
                  | inl same ↦
                      let z : n ≡ i = ground arith in
                      let here : (ltb 0 (t i).ref
                            && ltb (t i).ref (2 ^ 31)
                            && ((t i).dev == dev)
                            && ((t i).inum == inum))
                          ≡ false =
                        ap
                          (λ k.
                            ltb 0 (t k).ref
                            && ltb (t k).ref (2 ^ 31)
                            && ((t k).dev == dev)
                            && ((t k).inum == inum))
                          (sym z)
                        ∙ miss in
                      let d = is.0 in let m = is.1 in ground arith
                  | inr other ↦ all i (ground arith) q r w is
                ],
              ))
        ]
      ]

pub find_empty-cases :
    (t : ℕ → Inode) (n rest : ℕ)
    → n + rest ≡ ninode
    → let f = find_empty t n rest in
      ((n ≤ f) × (f < ninode) × ((t f).ref ≡ 0))
      ⊎ ((f ≡ ninode) × ((i : ℕ) → n ≤ i → i < ninode → (t i).ref ≢ 0))
unfolding find_empty
find_empty-cases t n zero e = inr (refl, λ i p q. absurd (omega arith))
find_empty-cases t n (suc rest) e = elim (Bool-cases ((t n).ref == 0)) [
  | inl free ↦ rw free (inl (omega arith, omega arith, ground arith))
  | inr used ↦ elim (find_empty-cases t (suc n) rest (omega arith)) [
    | inl (le, lt, z) ↦ rw used (inl (omega arith, lt, z))
    | inr (none, all) ↦ rw used (
        inr (
          none,
          λ i p q z. elim (Bool-cases (n == i)) [
            | inl same ↦
                let k : n ≡ i = ground arith in
                let z' : (t n).ref ≡ 0 = ap (λ i. (t i).ref) k ∙ z in ground arith
            | inr other ↦ all i (ground arith) q z
          ],
        ))
  ]
]
