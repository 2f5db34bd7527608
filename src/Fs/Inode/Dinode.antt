-- ===== src/Fs/Inode/Dinode.antt =====
-- The inodes in a sector of the disk: what inode_update of kern/fs/inode.c writes and inode_lock
-- reads.
use os_project_signal.Prelude.{
  ℕ, zero, suc, ◌+◌, ◌*◌, ◌^◌, ◌≤◌, ◌<◌, ◌≡◌, ◌⊎◌, inl, inr, refl, sym, ap, subst, ◌∙◌, arith, leb,
  ◌==◌, if◌then◌else◌, fun_ext, Bool-cases,
}
use os_project_signal.Vmm.Phys.{
  read_word, write_word, read_word-write_word, read_word-write_word_ne,
}
use os_project_signal.Fs.Cache.{Block}
use os_project_signal.Fs.Inode.{
  Inode, ndirect, read_half, write_half, write_words, store_dinode, load_dinode,
}

write_word-outside : (f : Block) (a w j : ℕ) → j < a ⊎ (a + 4 ≤ j) → write_word f a w j ≡ f j
unfolding write_word
write_word-outside f a w j h = ground arith

write_half-outside : (f : Block) (a w j : ℕ) → j < a ⊎ (a + 2 ≤ j) → write_half f a w j ≡ f j
unfolding write_half
write_half-outside f a w j h = ground arith

write_words-outside :
    (f : Block) (a : ℕ) (words : ℕ → ℕ) (n j : ℕ)
    → j < a ⊎ (a + 4 * n ≤ j)
    → write_words f a words n j ≡ f j
unfolding write_words
write_words-outside f a words zero j h = refl
write_words-outside f a words (suc n) j h =
    write_word-outside (write_words f a words n) (a + 4 * n) (words n) j (ground arith)
    ∙ write_words-outside f a words n j (ground arith)

read_word-write_words :
    (f : Block) (a : ℕ) (words : ℕ → ℕ) (n i : ℕ)
    → i < n
    → words i < 2 ^ 32
    → read_word (write_words f a words n) (a + 4 * i) ≡ words i
unfolding write_words
read_word-write_words f a words zero i lt w = absurd (omega arith)
read_word-write_words f a words (suc n) i lt w = elim (Bool-cases (i == n)) [
  | inl last ↦
      let e : i ≡ n = ground arith in
      ap (λ k. read_word (write_word (write_words f a words n) (a + 4 * n) (words n)) (a + 4 * k)) e
      ∙ read_word-write_word (write_words f a words n) (a + 4 * n) (words n)
          (subst (λ k. words k < 2 ^ 32) e w)
      ∙ ap words (sym e)
  | inr before ↦
      let ne : i < n = ground arith in
      read_word-write_word_ne (write_words f a words n) (a + 4 * n) (a + 4 * i) (words n)
        (inr (omega arith))
      ∙ read_word-write_words f a words n i ne w
]

read_half-write_half : (f : Block) (a w : ℕ) → w < 2 ^ 16 → read_half (write_half f a w) a ≡ w
unfolding read_half write_half
read_half-write_half f a w h = ground arith

read_half-at :
    (f f' : Block) (a : ℕ) → f a ≡ f' a → f (a + 1) ≡ f' (a + 1) → read_half f a ≡ read_half f' a
unfolding read_half
read_half-at f f' a h h' = rw (h, h') refl

read_word-at :
    (f f' : Block) (a : ℕ)
    → ((j : ℕ) → a ≤ j → j < a + 4 → f j ≡ f' j)
    → read_word f a ≡ read_word f' a
unfolding read_word
read_word-at f f' a h =
    rw
      (
        h a (omega arith) (omega arith),
        h (a + 1) (omega arith) (omega arith),
        h (a + 2) (omega arith) (omega arith),
        h (a + 3) (omega arith) (omega arith),
      )
      refl

-- The fields of an inode have their widths.
pub record FitsDisk (x : Inode) : Type 0 where
  pub type_ : x.type_ < 2 ^ 16
  pub major : x.major < 2 ^ 16
  pub minor : x.minor < 2 ^ 16
  pub nlink : x.nlink < 2 ^ 16
  pub size : x.size < 2 ^ 32
  pub addrs : (i : ℕ) → i ≤ ndirect → x.addrs i < 2 ^ 32

-- A `struct dinode` elsewhere in the sector, and every other byte, is as before.
store_dinode-outside :
    (f : Block) (o : ℕ) (x : Inode) (j : ℕ) → j < o ⊎ (o + 64 ≤ j) → store_dinode f o x j ≡ f j
unfolding store_dinode
store_dinode-outside f o x j h = elim h [
  | inl early ↦
      write_words-outside _ (o + 12) x.addrs (ndirect + 1) j (inl (omega arith))
      ∙ write_word-outside _ (o + 8) x.size j (inl (omega arith))
      ∙ write_half-outside _ (o + 6) x.nlink j (inl (omega arith))
      ∙ write_half-outside _ (o + 4) x.minor j (inl (omega arith))
      ∙ write_half-outside _ (o + 2) x.major j (inl (omega arith))
      ∙ write_half-outside f o x.type_ j (inl (omega arith))
  | inr late ↦
      write_words-outside _ (o + 12) x.addrs (ndirect + 1) j (inr (omega arith))
      ∙ write_word-outside _ (o + 8) x.size j (inr (omega arith))
      ∙ write_half-outside _ (o + 6) x.nlink j (inr (omega arith))
      ∙ write_half-outside _ (o + 4) x.minor j (inr (omega arith))
      ∙ write_half-outside _ (o + 2) x.major j (inr (omega arith))
      ∙ write_half-outside f o x.type_ j (inr (omega arith))
]

read_half-write_half_ne :
    (f : Block) (a b w : ℕ) → a + 2 ≤ b → read_half (write_half f b w) a ≡ read_half f a
read_half-write_half_ne f a b w h =
    read_half-at _ f a (write_half-outside f b w a (inl (omega arith)))
      (write_half-outside f b w (a + 1) (inl (omega arith)))

read_half-write_word :
    (f : Block) (a b w : ℕ) → a + 2 ≤ b → read_half (write_word f b w) a ≡ read_half f a
read_half-write_word f a b w h =
    read_half-at _ f a (write_word-outside f b w a (inl (omega arith)))
      (write_word-outside f b w (a + 1) (inl (omega arith)))

read_half-write_words :
    (f : Block) (a b : ℕ) (ws : ℕ → ℕ) (n : ℕ)
    → a + 2 ≤ b
    → read_half (write_words f b ws n) a ≡ read_half f a
read_half-write_words f a b ws n h =
    read_half-at _ f a (write_words-outside f b ws n a (inl (omega arith)))
      (write_words-outside f b ws n (a + 1) (inl (omega arith)))

-- The part of the inode that the disk keeps.
abbrev pub kept : Inode → Inode → Inode
kept x y = record y {
  type_ = x.type_;
  major = x.major;
  minor = x.minor;
  nlink = x.nlink;
  size = x.size;
  addrs = λ i. if leb i ndirect then x.addrs i else y.addrs i;
}

module _ (f : Block) (o : ℕ) (x : Inode) (h : FitsDisk x) where
  type-store_dinode : read_half (store_dinode f o x) o ≡ x.type_
  unfolding store_dinode
  type-store_dinode =
      read_half-write_words _ o (o + 12) x.addrs (ndirect + 1) (omega arith)
      ∙ read_half-write_word _ o (o + 8) x.size (omega arith)
      ∙ read_half-write_half_ne _ o (o + 6) x.nlink (omega arith)
      ∙ read_half-write_half_ne _ o (o + 4) x.minor (omega arith)
      ∙ read_half-write_half_ne _ o (o + 2) x.major (omega arith)
      ∙ read_half-write_half f o x.type_ h.type_

  major-store_dinode : read_half (store_dinode f o x) (o + 2) ≡ x.major
  unfolding store_dinode
  major-store_dinode =
      read_half-write_words _ (o + 2) (o + 12) x.addrs (ndirect + 1) (omega arith)
      ∙ read_half-write_word _ (o + 2) (o + 8) x.size (omega arith)
      ∙ read_half-write_half_ne _ (o + 2) (o + 6) x.nlink (omega arith)
      ∙ read_half-write_half_ne _ (o + 2) (o + 4) x.minor (omega arith)
      ∙ read_half-write_half _ (o + 2) x.major h.major

  minor-store_dinode : read_half (store_dinode f o x) (o + 4) ≡ x.minor
  unfolding store_dinode
  minor-store_dinode =
      read_half-write_words _ (o + 4) (o + 12) x.addrs (ndirect + 1) (omega arith)
      ∙ read_half-write_word _ (o + 4) (o + 8) x.size (omega arith)
      ∙ read_half-write_half_ne _ (o + 4) (o + 6) x.nlink (omega arith)
      ∙ read_half-write_half _ (o + 4) x.minor h.minor

  nlink-store_dinode : read_half (store_dinode f o x) (o + 6) ≡ x.nlink
  unfolding store_dinode
  nlink-store_dinode =
      read_half-write_words _ (o + 6) (o + 12) x.addrs (ndirect + 1) (omega arith)
      ∙ read_half-write_word _ (o + 6) (o + 8) x.size (omega arith)
      ∙ read_half-write_half _ (o + 6) x.nlink h.nlink

  size-store_dinode : read_word (store_dinode f o x) (o + 8) ≡ x.size
  unfolding store_dinode
  size-store_dinode =
      read_word-at _ (write_word _ (o + 8) x.size) (o + 8)
        (λ j p q. write_words-outside _ (o + 12) x.addrs (ndirect + 1) j (inl (omega arith)))
      ∙ read_word-write_word _ (o + 8) x.size h.size

  addrs-store_dinode :
      (i : ℕ) → i ≤ ndirect → read_word (store_dinode f o x) (o + 12 + 4 * i) ≡ x.addrs i
  unfolding store_dinode
  addrs-store_dinode i le =
      read_word-write_words _ (o + 12) x.addrs (ndirect + 1) i (omega arith) (h.addrs i le)

  -- Whoever reads the `struct dinode` that inode_update writes has the inode again.
  pub load_dinode-store_dinode : (y : Inode) → load_dinode (store_dinode f o x) o y ≡ kept x y
  unfolding load_dinode
  load_dinode-store_dinode y =
      rw
        (
          type-store_dinode, major-store_dinode, minor-store_dinode, nlink-store_dinode,
          size-store_dinode,
        )
        (ap
          (λ (a : ℕ → ℕ).
            (let r : Inode = record y {
              type_ = x.type_;
              major = x.major;
              minor = x.minor;
              nlink = x.nlink;
              size = x.size;
              addrs = a;
            } in
              r))
          (fun_ext λ i. elim (Bool-cases (leb i ndirect)) [
            | inl inside ↦ rw inside (addrs-store_dinode i (ground arith))
            | inr beyond ↦ rw beyond refl
          ]))

-- The other inodes of the sector are as before.
pub load_dinode-other :
    (f : Block) (o o' : ℕ) (x y : Inode)
    → o' + 64 ≤ o ⊎ (o + 64 ≤ o')
    → load_dinode (store_dinode f o x) o' y ≡ load_dinode f o' y
unfolding load_dinode
load_dinode-other f o o' x y h =
    let same : (j : ℕ) → o' ≤ j → j < o' + 64 → store_dinode f o x j ≡ f j = λ j p q.
      store_dinode-outside f o x j
        (elim h [ inl early ↦ inl (omega arith) | inr late ↦ inr (omega arith) ]) in
    let half : (a : ℕ)
        → o' ≤ a
        → a + 2 ≤ o' + 64
        → read_half (store_dinode f o x) a ≡ read_half f a =
      λ a p q.
        read_half-at _ f a (same a p (omega arith)) (same (a + 1) (omega arith) (omega arith)) in
    let word : (a : ℕ)
        → o' ≤ a
        → a + 4 ≤ o' + 64
        → read_word (store_dinode f o x) a ≡ read_word f a =
      λ a p q. read_word-at _ f a (λ j r t. same j (omega arith) (omega arith)) in
    rw
      (
        half o' (omega arith) (omega arith),
        half (o' + 2) (omega arith) (omega arith),
        half (o' + 4) (omega arith) (omega arith),
        half (o' + 6) (omega arith) (omega arith),
        word (o' + 8) (omega arith) (omega arith),
      )
      (ap
        (λ (a : ℕ → ℕ).
          (let r : Inode = record y {
            type_ = read_half f o';
            major = read_half f (o' + 2);
            minor = read_half f (o' + 4);
            nlink = read_half f (o' + 6);
            size = read_word f (o' + 8);
            addrs = a;
          } in
            r))
        (fun_ext λ i. elim (Bool-cases (leb i ndirect)) [
          | inl inside ↦
              let le : i ≤ ndirect = ground arith in
              rw inside (word (o' + 12 + 4 * i) (omega arith) (omega arith))
          | inr beyond ↦ rw beyond refl
        ]))
