-- ===== src/Fs/Inode/Layout.antt =====
-- Where the blocks of a file lie, and its bytes when one of the blocks changes.
use os_project_signal.Prelude.{
  ℕ, zero, suc, ◌+◌, ◌-◌, ◌*◌, ◌/◌, ◌%◌, ◌^◌, ◌≤◌, ◌<◌, ◌≡◌, ◌≢◌, ◌⊎◌, inl, inr, refl, sym, ap,
  subst, ◌∙◌, false, List, [], ◌∷◌, arith, ◌==◌, ltb, update, length, Bool-cases, ==_refl, ==-false,
}
use os_project_signal.Vmm.Phys.{read_word, write_bytes, write_bytes-outside}
use os_project_signal.Vmm.Copy.{take, drop}
use os_project_signal.Fs.Cache.{Block, bsize}
use os_project_signal.Fs.Log.{Log}
use os_project_signal.Fs.Log.Redo.{Home}
use os_project_signal.Fs.Inode.{ndirect}
use os_project_signal.Fs.Inode.Read.{block_at, byte_at, IsThere}

-- The first `nb` blocks of a file are there, outside the log, and none is used twice.
pub record IsFile (g : Log) (now : ℕ → Block) (addrs : ℕ → ℕ) (nb : ℕ) : Type 0 where
  pub there : (i : ℕ) → i < nb → IsThere now addrs i
  pub home : (i : ℕ) → i < nb → Home g (block_at now addrs i) × (block_at now addrs i < 2 ^ 32)
  pub apart : (i j : ℕ) → i < nb → j < nb → block_at now addrs i ≡ block_at now addrs j → i ≡ j
  pub indirect_home : ndirect < nb → Home g (addrs ndirect)
  pub indirect : (i : ℕ) → i < nb → ndirect < nb → block_at now addrs i ≢ addrs ndirect

-- The indirect block is as before.
pub block_at-same :
    (now now' : ℕ → Block) (addrs : ℕ → ℕ) (nb i : ℕ)
    → i < nb
    → (ndirect < nb → now' (addrs ndirect) ≡ now (addrs ndirect))
    → block_at now' addrs i ≡ block_at now addrs i
block_at-same now now' addrs nb i lt same = elim (Bool-cases (ltb i ndirect)) [
  | inl direct ↦ rw direct refl
  | inr far ↦ rw far (ap (λ x. read_word x (4 * (i - ndirect))) (same (ground arith)))
]

pub IsFile-same :
    (g : Log) (now now' : ℕ → Block) (addrs : ℕ → ℕ) (nb : ℕ)
    → IsFile g now addrs nb
    → (ndirect < nb → now' (addrs ndirect) ≡ now (addrs ndirect))
    → IsFile g now' addrs nb
IsFile-same g now now' addrs nb h same =
    let e : (i : ℕ) → i < nb → block_at now' addrs i ≡ block_at now addrs i =
      λ i lt. block_at-same now now' addrs nb i lt same in
    record {
      there = λ i lt. record {
        small = (h.there i lt).small;
        found = λ z. (h.there i lt).found (sym (e i lt) ∙ z);
        indirect = (h.there i lt).indirect;
      };
      home = λ i lt. subst (λ b. Home g b × (b < 2 ^ 32)) (sym (e i lt)) (h.home i lt);
      apart = λ i j p q z. h.apart i j p q (sym (e i p) ∙ z ∙ e j q);
      indirect_home = h.indirect_home;
      indirect = λ i lt many z. h.indirect i lt many (sym (e i lt) ∙ z);
    }

pub write_bytes-shift :
    (f g : ℕ → ℕ) (a b i j : ℕ) (bs : List ℕ)
    → i + b ≡ j + a
    → f i ≡ g j
    → write_bytes f a bs i ≡ write_bytes g b bs j
unfolding write_bytes
write_bytes-shift f g a b i j [] e h = h
write_bytes-shift f g a b i j (x ∷ bs) e h =
    write_bytes-shift (update f a x) (update g b x) (a + 1) (b + 1) i j bs (omega arith)
      (ground arith)

pub write_bytes-split :
    (f : ℕ → ℕ) (a m : ℕ) (bs : List ℕ)
    → m ≤ length bs
    → write_bytes (write_bytes f a (take m bs)) (a + m) (drop m bs) ≡ write_bytes f a bs
unfolding write_bytes
write_bytes-split f a zero bs le = let e : a + 0 ≡ a = omega arith in rw e refl
write_bytes-split f a (suc m) [] le = absurd (omega arith)
write_bytes-split f a (suc m) (x ∷ bs) le =
    let e : a + suc m ≡ a + 1 + m = omega arith in
    rw e (write_bytes-split (update f a x) (a + 1) m bs (omega arith))

pub length-take : (m : ℕ) (bs : List ℕ) → m ≤ length bs → length (take m bs) ≡ m
length-take zero bs le = refl
length-take (suc m) [] le = absurd (omega arith)
length-take (suc m) (x ∷ bs) le = ap suc (length-take m bs (omega arith))

pub length-drop : (m : ℕ) (bs : List ℕ) → length (drop m bs) ≡ length bs - m
length-drop zero bs = omega arith
length-drop (suc m) [] = omega arith
length-drop (suc m) (x ∷ bs) = length-drop m bs ∙ omega arith

-- One block of the file gets the bytes `bs` from the offset on, which it has room for.
module _ (g : Log) (now : ℕ → Block) (addrs : ℕ → ℕ) (nb : ℕ) (h : IsFile g now addrs nb) (off : ℕ)
    (bs : List ℕ) (lt : off / bsize < nb) (fits : off % bsize + length bs ≤ bsize) where
  abbrev place : ℕ
  place = block_at now addrs (off / bsize)

  abbrev pub changed_block : ℕ → Block
  changed_block = update now place (write_bytes (now place) (off % bsize) bs)

  same_indirect : ndirect < nb → changed_block (addrs ndirect) ≡ now (addrs ndirect)
  same_indirect many =
      let ne : (place == addrs ndirect) ≡ false = ==-false _ _ (h.indirect (off / bsize) lt many) in
      rw ne refl

  pub changed_block-IsFile : IsFile g changed_block addrs nb
  changed_block-IsFile = IsFile-same g now changed_block addrs nb h same_indirect

  pub block_at-changed_block :
      (i : ℕ) → i < nb → block_at changed_block addrs i ≡ block_at now addrs i
  block_at-changed_block i p = block_at-same now changed_block addrs nb i p same_indirect

  outside : (j : ℕ) → off / bsize ≢ j / bsize → j < off ⊎ (off + length bs ≤ j)
  outside j out = elim (Bool-cases (ltb j off)) [
    | inl early ↦ inl (ground arith)
    | inr late ↦
        let ge : off ≤ j = ground arith in
        elim (Bool-cases (ltb j (off + length bs))) [
          | inl within ↦
              let le : j < off + length bs = ground arith in
              let f = fits in absurd (out (omega arith))
          | inr beyond ↦ inr (ground arith)
        ]
  ]

  pub byte_at-changed_block :
      (j : ℕ)
      → j / bsize < nb
      → byte_at changed_block addrs j ≡ write_bytes (byte_at now addrs) off bs j
  byte_at-changed_block j p =
      ap (λ b. changed_block b (j % bsize)) (block_at-changed_block (j / bsize) p)
      ∙ elim (Bool-cases (off / bsize == j / bsize)) [
        | inl here ↦
            let q : off / bsize ≡ j / bsize = ground arith in
            let spot : block_at now addrs (j / bsize) ≡ place = ap (block_at now addrs) (sym q) in
            ap (λ b. changed_block b (j % bsize)) spot
            ∙ rw (==_refl place) (
                write_bytes-shift (now place) (byte_at now addrs) (off % bsize) off (j % bsize) j bs
                  (omega arith) (ap (λ b. now b (j % bsize)) (sym spot)))
        | inr away ↦
            let ne : (place == block_at now addrs (j / bsize)) ≡ false =
              ==-false _ _
                (λ z. let z' = h.apart (off / bsize) (j / bsize) lt p z in ground arith) in
            let out : off / bsize ≢ j / bsize = λ z. ground arith in
            rw ne (sym (write_bytes-outside (byte_at now addrs) off bs j (outside j out)))
      ]
