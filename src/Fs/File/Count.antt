-- ===== src/Fs/File/Count.antt =====
-- The reference counts of the open files against a list of references.
use os_project_signal.Prelude.{
  ℕ, zero, suc, ◌+◌, ◌-◌, ◌^◌, ◌%◌, ◌≤◌, ◌<◌, ◌≡◌, ◌≢◌, ◌⊎◌, inl, inr, refl, sym, ap, ◌∙◌, true,
  false, List, [], ◌∷◌, arith, some, none, ◌==◌, ltb, if◌then◌else◌, update, length, mem, erase,
  Bool-cases, ==-false,
}
use os_project_signal.Fs.Result.{ok}
use os_project_signal.Fs.File.{
  File, fd_none, nfile, find_free, file_alloc, file_dup, file_close, closed_inode, unreferenced,
}

-- How often a file occurs among the references.
unfoldable pub count : ℕ → List ℕ → ℕ
count f [] = 0
count f (x ∷ xs) = (if f == x then 1 else 0) + count f xs

-- Each file counts its references.
pub record IsCounted (t : ℕ → File) (holders : List ℕ) : Type 0 where
  pub counts : (f : ℕ) → f < nfile → (t f).ref ≡ count f holders
  pub few : length holders < 2 ^ 31

pub count-le : (f : ℕ) (xs : List ℕ) → count f xs ≤ length xs
unfolding count
count-le f [] = omega arith
count-le f (x ∷ xs) = ground (arith, count-le f xs)

pub count-mem : (f : ℕ) (xs : List ℕ) → mem f xs ≡ true → 0 < count f xs
unfolding count
count-mem f [] m = cc
count-mem f (x ∷ xs) m = ground (arith, count-mem f xs)

pub count-erase :
    (g f : ℕ) (xs : List ℕ)
    → mem f xs ≡ true
    → (if g == f then 1 else 0) + count g (erase f xs) ≡ count g xs
unfolding count
count-erase g f [] m = cc
count-erase g f (x ∷ xs) m = ground (arith, count-erase g f xs)

pub length-erase : (f : ℕ) (xs : List ℕ) → length (erase f xs) ≤ length xs
length-erase f [] = omega arith
length-erase f (x ∷ xs) = ground (arith, length-erase f xs)

find_free-cases :
    (t : ℕ → File) (n rest : ℕ)
    → n + rest ≡ nfile
    → let f = find_free t n rest in
      ((n ≤ f) × (f < nfile) × ((t f).ref ≡ 0))
      ⊎ ((f ≡ nfile) × ((g : ℕ) → n ≤ g → g < nfile → (t g).ref ≢ 0))
unfolding find_free
find_free-cases t n zero e = inr (refl, λ g p q. absurd (omega arith))
find_free-cases t n (suc rest) e = elim (Bool-cases ((t n).ref == 0)) [
  | inl free ↦ rw free (inl (omega arith, omega arith, ground arith))
  | inr used ↦ elim (find_free-cases t (suc n) rest (omega arith)) [
    | inl (le, lt, z) ↦ rw used (inl (omega arith, lt, z))
    | inr (e', all) ↦ rw used (
        inr (
          e',
          λ g p q. elim (Bool-cases (g == n)) [
            | inl same ↦
                let g_n : g ≡ n = ground arith in
                (λ z. let z' : (t n).ref ≡ 0 = ap (λ i. (t i).ref) (sym g_n) ∙ z in ground arith)
            | inr other ↦ all g (ground arith) q
          ],
        ))
  ]
]

-- While the counts of the files are right, file_alloc gives out a file that nobody refers to, and
-- the counts are right with the new reference; or it fails, and every file is referred to.
pub file_alloc-IsCounted :
    (t : ℕ → File) (holders : List ℕ)
    → IsCounted t holders
    → length holders + 1 < 2 ^ 31
    → ((f : ℕ) × (t' : ℕ → File) × (file_alloc t ≡ some (f, t'))
        × (count f holders ≡ 0)
        × (f < nfile)
        × IsCounted t' (f ∷ holders))
      ⊎ ((file_alloc t ≡ none) × ((f : ℕ) → f < nfile → 0 < count f holders))
unfolding file_alloc count
file_alloc-IsCounted t holders c few = elim (find_free-cases t 0 nfile refl) [
  | inl (le, lt, z) ↦
      let f = find_free t 0 nfile in
      inl (
        f,
        update t f (record (t f) { ref = 1 }),
        rw (==-false f nfile (omega arith)) refl,
        sym (c.counts f lt) ∙ z,
        lt,
        record {
          counts = λ g p. let k = c.counts g p in let k' = c.counts f lt in ground arith;
          few = omega arith;
        },
      )
  | inr (e, all) ↦
      inr (rw e refl, λ f p. let k = c.counts f p in let n = all f (omega arith) p in omega arith)
]

module _ (t : ℕ → File) (holders : List ℕ) (c : IsCounted t holders) (f : ℕ) (lt : f < nfile)
    (m : mem f holders ≡ true) where
  referenced : unreferenced (t f) ≡ false
  referenced =
      let k = c.counts f lt in
      let some_ref = count-mem f holders m in
      let le = count-le f holders in let few = c.few in ground arith

  -- file_dup of a file that somebody refers to adds a reference.
  pub file_dup-IsCounted :
      length holders + 1 < 2 ^ 31
      → (t' : ℕ → File) × (file_dup t f ≡ ok t') × IsCounted t' (f ∷ holders)
  unfolding file_dup count
  file_dup-IsCounted few =
      let le = count-le f holders in
      let k' = c.counts f lt in
      (
        update t f (record (t f) { ref = ((t f).ref + 1) % 2 ^ 32 }),
        rw referenced refl,
        record { counts = λ g p. let k = c.counts g p in ground arith; few = omega arith },
      )

  -- While the counts of the files are right, file_close of a file that somebody refers to takes one
  -- reference away, keeps the counts right, and puts an inode back only for the last reference.
  pub file_close-IsCounted :
      (t' : ℕ → File) × (file_close t f
        ≡ ok ((if count f holders == 1 then closed_inode (t f) else none), t'))
      × IsCounted t' (erase f holders)
  unfolding file_close
  file_close-IsCounted =
      let k' = c.counts f lt in
      let some_ref = count-mem f holders m in
      let shorter = length-erase f holders in
      let few = c.few in
      elim (Bool-cases (count f holders == 1)) [
        | inl last ↦
            let one : (t f).ref ≡ 1 = ground arith in
            (
              update t f (record (t f) { ref = 0; fd_type = fd_none }),
              rw (referenced, last, one) refl,
              record {
                counts = λ g p.
                    let k = c.counts g p in let d = count-erase g f holders m in ground arith;
                few = omega arith;
              },
            )
        | inr more ↦
            let several : ltb 0 ((t f).ref - 1) ≡ true = ground arith in
            (
              update t f (record (t f) { ref = (t f).ref - 1 }),
              rw (referenced, more, several) refl,
              record {
                counts = λ g p.
                    let k = c.counts g p in let d = count-erase g f holders m in ground arith;
                few = omega arith;
              },
            )
      ]
