-- ===== src/Fs/Dir/Name.antt =====
-- The names in directories: strncmp and strncpy of kern/lib/string.c.
use os_project_signal.Prelude.{
  ℕ, zero, suc, ◌+◌, ◌-◌, ◌%◌, ◌^◌, ◌<◌, ◌≡◌, ◌↔◌, inl, inr, refl, sym, ap, ◌∙◌, true, false, List,
  [], ◌∷◌, arith, ◌==◌, update, ◌/◌, if◌then◌else◌, Bool-cases, ==_refl,
}
use os_project_signal.Vmm.Phys.{write_bytes, write_bytes-outside}
use os_project_signal.Fs.Inode.{read_half}
use os_project_signal.Fs.Path.{dirsiz}
use os_project_signal.Fs.Dir.{
  first_char, next_chars, strncmp, strncpy, dir_namecmp, entry_inum, entry_bytes,
}
use os_project_signal.Fs.Dir.Lookup.{names}

-- Characters are bytes.
abbrev pub AreBytes : List ℕ → Type 0
AreBytes [] = Unit
AreBytes (x ∷ xs) = (x < 256) × AreBytes xs

first_char-lt : (p : List ℕ) → AreBytes p → first_char p < 256
first_char-lt [] h = omega arith
first_char-lt (x ∷ xs) h = h.0

next_chars-AreBytes : (p : List ℕ) → AreBytes p → AreBytes (next_chars p)
next_chars-AreBytes [] h = tt
next_chars-AreBytes (x ∷ xs) h = h.1

strncmp-next :
    (n : ℕ) (p q : List ℕ)
    → first_char p ≡ first_char q
    → (first_char q == 0) ≡ false
    → strncmp p q (suc n) ≡ strncmp (next_chars p) (next_chars q) n
unfolding strncmp
strncmp-next n p q e more = rw (e, more, ==_refl (first_char q)) refl

strncmp-last :
    (n : ℕ) (p q : List ℕ)
    → first_char p ≡ first_char q
    → (first_char q == 0) ≡ true
    → strncmp p q (suc n) ≡ 0
unfolding strncmp
strncmp-last n p q e last = rw (e, last) (omega arith)

strncmp-differ :
    (n : ℕ) (p q : List ℕ)
    → (first_char p == first_char q) ≡ false
    → strncmp p q (suc n) ≡ (first_char p + 2 ^ 32 - first_char q) % 2 ^ 32
unfolding strncmp
strncmp-differ n p q other = elim (Bool-cases (first_char p == 0)) [
  | inl ends ↦ rw (ends) refl
  | inr more ↦ rw (more, other) refl
]

same_strncpy :
    (n : ℕ) (p q : List ℕ) → AreBytes p → AreBytes q → strncmp p q n ≡ 0 → strncpy p n ≡ strncpy q n
unfolding strncmp strncpy
same_strncpy zero p q hp hq z = refl
same_strncpy (suc n) p q hp hq z =
    let lt = first_char-lt p hp in
    let lt' = first_char-lt q hq in
    elim (Bool-cases (first_char p == first_char q)) [
      | inl same ↦
          let e : first_char p ≡ first_char q = ground arith in
          elim (Bool-cases (first_char q == 0)) [
            | inl last ↦ rw (e, last) refl
            | inr more ↦
                rw (e, more)
                  (ap (λ xs. first_char q ∷ xs)
                    (same_strncpy n (next_chars p) (next_chars q) (next_chars-AreBytes p hp)
                      (next_chars-AreBytes q hq) (sym (strncmp-next n p q e more) ∙ z)))
          ]
      | inr other ↦ let d = sym (strncmp-differ n p q other) ∙ z in absurd (ground arith)
    ]

same_strncmp :
    (n : ℕ) (p q : List ℕ) → AreBytes p → AreBytes q → strncpy p n ≡ strncpy q n → strncmp p q n ≡ 0
unfolding strncmp strncpy
same_strncmp zero p q hp hq e = refl
same_strncmp (suc n) p q hp hq e =
    let head : first_char p ≡ first_char q = ap first_char e in
    elim (Bool-cases (first_char q == 0)) [
      | inl last ↦ strncmp-last n p q head last
      | inr more ↦
          let more' : (first_char p == 0) ≡ false = rw head more in
          let tails : strncpy (next_chars p) n ≡ strncpy (next_chars q) n =
            ap (λ b. strncpy (if b then [] else next_chars p) n) (sym more')
            ∙ ap next_chars e
            ∙ ap (λ b. strncpy (if b then [] else next_chars q) n) more in
          strncmp-next n p q head more
          ∙ same_strncmp n (next_chars p) (next_chars q) (next_chars-AreBytes p hp)
              (next_chars-AreBytes q hq) tails
    ]

-- dir_namecmp finds two names of bytes equal if and only if strncpy makes the same entry of both.
pub dir_namecmp-strncpy :
    (p q : List ℕ)
    → AreBytes p
    → AreBytes q
    → (dir_namecmp p q ≡ 0) ↔ (strncpy p dirsiz ≡ strncpy q dirsiz)
unfolding dir_namecmp
dir_namecmp-strncpy p q hp hq = (same_strncpy dirsiz p q hp hq, same_strncmp dirsiz p q hp hq)

strncpy-AreBytes : (p : List ℕ) (n : ℕ) → AreBytes p → AreBytes (strncpy p n)
unfolding strncpy
strncpy-AreBytes p zero h = tt
strncpy-AreBytes p (suc n) h = elim (Bool-cases (first_char p == 0)) [
  | inl last ↦ rw last (first_char-lt p h, strncpy-AreBytes [] n tt)
  | inr more ↦
      rw more (first_char-lt p h, strncpy-AreBytes (next_chars p) n (next_chars-AreBytes p h))
]

strncpy-nil : (n : ℕ) → strncpy (strncpy [] n) n ≡ strncpy [] n
unfolding strncpy
strncpy-nil zero = refl
strncpy-nil (suc n) = refl

strncpy-strncpy : (p : List ℕ) (n : ℕ) → strncpy (strncpy p n) n ≡ strncpy p n
unfolding strncpy
strncpy-strncpy p zero = refl
strncpy-strncpy p (suc n) = elim (Bool-cases (first_char p == 0)) [
  | inl last ↦ rw last refl
  | inr more ↦ rw more (ap (λ xs. first_char p ∷ xs) (strncpy-strncpy (next_chars p) n))
]

-- The entry that dir_link writes for a name of bytes and the number of an inode that is not 0 has
-- that number, and is an entry with the name for dir_lookup.
pub entry_bytes-names :
    (name : List ℕ) (inum : ℕ)
    → AreBytes name
    → 0 < inum
    → inum < 2 ^ 16
    → (entry_inum (entry_bytes inum name) ≡ inum) × (names name (entry_bytes inum name) ≡ true)
unfolding read_half write_bytes
entry_bytes-names name inum h pos lt =
    let num : entry_inum (entry_bytes inum name) ≡ inum = ground (
      arith,
      write_bytes-outside (update (update (λ j. 0) 0 (inum % 256)) 1 (inum / 256 % 256)) 2
          (strncpy name dirsiz) 0 (inl (omega arith)),
      write_bytes-outside (update (update (λ j. 0) 0 (inum % 256)) 1 (inum / 256 % 256)) 2
          (strncpy name dirsiz) 1 (inl (omega arith)),
    ) in
    let same =
      (dir_namecmp-strncpy (strncpy name dirsiz) name (strncpy-AreBytes name dirsiz h) h).1
        (strncpy-strncpy name dirsiz) in
    let ne : (inum == 0) ≡ false = ground arith in (num, rw (num, ne, same) refl)
