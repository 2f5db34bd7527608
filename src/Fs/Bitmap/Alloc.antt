-- ===== src/Fs/Bitmap/Alloc.antt =====
-- block_alloc in a transaction.
use os_project_signal.Prelude.{
  ℕ, zero, suc, ◌+◌, ◌-◌, ◌*◌, ◌/◌, ◌%◌, ◌^◌, ◌≤◌, ◌<◌, ◌≡◌, ◌≢◌, ◌⊎◌, inl, inr, refl, sym, ap,
  subst, ◌∙◌, false, ltb, arith, Option, some, none, ◌==◌, update, Bool-cases,
}
use os_project_signal.Vmm.Phys.{fill_bytes}
use os_project_signal.Fs.Result.{Result, ok}
use os_project_signal.Fs.Cache.{Cache, Block, bsize, set_bytes, bufcache_read, bufcache_release}
use os_project_signal.Fs.Log.{Log, Superblock, log_write, read_superblock}
use os_project_signal.Fs.Log.Redo.{Home}
use os_project_signal.Fs.Session.{IsSession, IsOpened, session-IsOpened}
use os_project_signal.Fs.Bitmap.{
  bpb, bblock, block_zero, set_bit, find_clear, alloc_from, block_alloc,
}
use os_project_signal.Fs.Bitmap.Free.{superblock_of, in_use}
use os_project_signal.Fs.Bitmap.Search.{find_clear-cases}

-- What the file system in the sectors `now` looks like: the superblock and the bitmap lie outside
-- the log, and so does every block that is free.
abbrev pub sb_of : (ℕ → Block) → Superblock
sb_of now = superblock_of (now 1)

abbrev pub bitmap_of : (ℕ → Block) → ℕ → ℕ
bitmap_of now i = bblock i (sb_of now).ninodes

abbrev pub used : (ℕ → Block) → ℕ → ℕ
used now i = in_use (now (bitmap_of now i)) (i % bpb)

pub record IsFormatted (g : Log) (now : ℕ → Block) : Type 0 where
  pub super : Home g 1
  pub bitmap :
      (i : ℕ) → i < (sb_of now).size → Home g (bitmap_of now i) × (bitmap_of now i < 2 ^ 32)
  pub free_home : (i : ℕ) → i < (sb_of now).size → used now i ≡ 0 → Home g i × (i < 2 ^ 32)

-- The sectors after block `bno` was taken.
abbrev pub marked_block : (ℕ → Block) → ℕ → ℕ → Block
marked_block now bno =
    update now (bitmap_of now bno) (set_bit (now (bitmap_of now bno)) (bno % bpb))

abbrev pub taken_block : (ℕ → Block) → ℕ → ℕ → Block
taken_block now bno =
    update (marked_block now bno) bno (fill_bytes (marked_block now bno bno) 0 0 bsize)

-- block_zero zeroes a sector.
pub block_zero-IsSession :
    (g : Log) (before : ℕ → Block) (l : Log) (c : Cache) (k : ℕ) (now : ℕ → Block) (s : ℕ)
    → IsSession g before l c (suc k) now
    → Home g s
    → s < 2 ^ 32
    → (l' : Log) × (c' : Cache) × (block_zero l c g.dev s ≡ ok (l', c'))
      × IsSession g before l' c' k (update now s (fill_bytes (now s) 0 0 bsize))
unfolding block_zero
block_zero-IsSession g before l c k now s h home word =
    let (b, c1, o) = session-IsOpened g before l c k now s h home word in
    let (l', c2, c3, e2, e3, h') = o.changes (fill_bytes (c1.buf b).bytes 0 0 bsize) in
    (
      l',
      c3,
      rw (o.reads, e2, e3) refl,
      subst (λ x. IsSession g before l' c3 k (update now s (fill_bytes x 0 0 bsize))) o.bytes h',
    )

pub read_superblock-IsSession :
    (g : Log) (before : ℕ → Block) (l : Log) (c : Cache) (k : ℕ) (now : ℕ → Block)
    → IsSession g before l c (suc k) now
    → Home g 1
    → (c' : Cache) × (read_superblock c g.dev ≡ ok (sb_of now, c'))
      × IsSession g before l c' (suc k) now
unfolding read_superblock
read_superblock-IsSession g before l c k now h home =
    let (b, c1, o) = session-IsOpened g before l c k now 1 h home (omega arith) in
    let (c2, e2, h') = o.lets_go in
    (
      c2,
      rw (o.reads, e2)
          (ap (λ (x : Block). (let r : Result (Superblock × Cache) = ok (superblock_of x, c2) in r))
            o.bytes),
      h',
    )

-- What block_alloc does: it takes the first free block, or there is none.
abbrev pub Allocates :
    Log → (ℕ → Block) → ℕ → (ℕ → Block) → Result (Option ℕ × Log × Cache) → Type 0
Allocates g before k now r =
    ((bno : ℕ) × (l' : Log) × (c' : Cache) × (r ≡ ok (some bno, l', c'))
      × (bno < (sb_of now).size)
      × (used now bno ≡ 0)
      × ((i : ℕ) → i < bno → used now i ≢ 0)
      × IsSession g before l' c' k (taken_block now bno))
    ⊎ ((l' : Log) × (c' : Cache) × (r ≡ ok (none, l', c'))
        × ((i : ℕ) → i < (sb_of now).size → used now i ≢ 0)
        × IsSession g before l' c' (suc (suc k)) now)

alloc-found :
    (sb : Superblock) (dev rest b : ℕ) (l l2 l4 : Log) (c c1 c2 c3 c4 : Cache) (bp bi : ℕ)
    → bufcache_read c dev (bblock b sb.ninodes) ≡ ok (bp, c1)
    → find_clear (c1.buf bp).bytes sb.size b bpb 0 ≡ bi
    → bi < bpb
    → log_write l (set_bytes c1 bp (set_bit (c1.buf bp).bytes bi)) bp ≡ ok (l2, c2)
    → bufcache_release c2 bp ≡ ok c3
    → block_zero l2 c3 dev (b + bi) ≡ ok (l4, c4)
    → alloc_from sb dev (suc rest) b l c ≡ ok (some (b + bi), l4, c4)
unfolding alloc_from
alloc-found sb dev rest b l l2 l4 c c1 c2 c3 c4 bp bi e1 e lt e2 e3 e4 =
    let ne : (bi == bpb) ≡ false = ground arith in rw (e1, e, ne, e2, e3, e4) refl

alloc-full :
    (sb : Superblock) (dev rest b : ℕ) (l : Log) (c c1 c2 : Cache) (bp : ℕ)
    → bufcache_read c dev (bblock b sb.ninodes) ≡ ok (bp, c1)
    → find_clear (c1.buf bp).bytes sb.size b bpb 0 ≡ bpb
    → bufcache_release c1 bp ≡ ok c2
    → alloc_from sb dev (suc rest) b l c ≡ alloc_from sb dev rest (b + bpb) l c2
unfolding alloc_from
alloc-full sb dev rest b l c c1 c2 bp e1 e e2 = rw (e1, e, e2) refl

-- The bits of the sector of the bitmap that starts at block `b`.
used-sector :
    (now : ℕ → Block) (b k : ℕ)
    → b % bpb ≡ 0
    → k < bpb
    → used now (b + k) ≡ in_use (now (bitmap_of now b)) k
used-sector now b k whole lt =
    let q : (b + k) / bpb ≡ b / bpb = omega arith in
    let r : (b + k) % bpb ≡ k = omega arith in rw (q, r) refl

-- The blocks below `b`, and the first `bi` of the sector that starts at `b`, are used.
used-upto :
    (now : ℕ → Block) (b bi size : ℕ) (bytes : Block)
    → bytes ≡ now (bitmap_of now b)
    → b % bpb ≡ 0
    → bi ≤ bpb
    → ((i : ℕ) → i < b → i < size → used now i ≢ 0)
    → ((k : ℕ) → k < bi → b + k < size → in_use bytes k ≢ 0)
    → (i : ℕ) → i < b + bi
    → i < size
    → used now i ≢ 0
used-upto now b bi size bytes e whole le below lower i lt inside = elim (Bool-cases (ltb i b)) [
  | inl early ↦ below i (ground arith) inside
  | inr late ↦ λ z.
      let ge : b ≤ i = ground arith in
      let back : b + (i - b) ≡ i = omega arith in
      let z' = ap (used now) back ∙ z in
      lower (i - b) (omega arith) (omega arith)
        (ap (λ x. in_use x (i - b)) e ∙ sym (used-sector now b (i - b) whole (omega arith)) ∙ z')
]

module _ (g : Log) (before : ℕ → Block) (k : ℕ) (now : ℕ → Block) (f : IsFormatted g now) where
  found-Allocates :
      (rest b bi : ℕ) (l : Log) (c : Cache) (bp : ℕ) (c1 : Cache)
      → IsOpened g before l c (suc k) now (bitmap_of now b) bp c1
      → b % bpb ≡ 0
      → find_clear (c1.buf bp).bytes (sb_of now).size b bpb 0 ≡ bi
      → bi < bpb
      → b + bi < (sb_of now).size
      → in_use (c1.buf bp).bytes bi ≡ 0
      → ((i : ℕ) → i < b + bi → used now i ≢ 0)
      → Allocates g before k now (alloc_from (sb_of now) g.dev (suc rest) b l c)
  found-Allocates rest b bi l c bp c1 o whole e lt inside free below =
      let z : used now (b + bi) ≡ 0 =
        used-sector now b bi whole lt ∙ ap (λ x. in_use x bi) (sym o.bytes) ∙ free in
      let q : (b + bi) / bpb ≡ b / bpb = omega arith in
      let r : (b + bi) % bpb ≡ bi = omega arith in
      let (home, word) = f.free_home (b + bi) inside z in
      let (l2, c2, c3, e2, e3, h) = o.changes (set_bit (c1.buf bp).bytes bi) in
      let marked : update now (bitmap_of now b) (set_bit (c1.buf bp).bytes bi)
          ≡ marked_block now (b + bi) =
        rw (q, r) (ap (λ x. update now (bitmap_of now b) (set_bit x bi)) o.bytes) in
      let h' = subst (IsSession g before l2 c3 (suc k)) marked h in
      let (l4, c4, e4, h4) =
        block_zero-IsSession g before l2 c3 k (marked_block now (b + bi)) (b + bi) h' home word in
      inl (
        b + bi,
        l4,
        c4,
        alloc-found (sb_of now) g.dev rest b l l2 l4 c c1 c2 c3 c4 bp bi o.reads e lt e2 e3 e4,
        inside,
        z,
        below,
        h4,
      )

  alloc_from-Allocates :
      (rest b : ℕ) (l : Log) (c : Cache)
      → IsSession g before l c (suc (suc k)) now
      → b % bpb ≡ 0
      → (sb_of now).size ≤ b + rest * bpb
      → b + rest * bpb < (sb_of now).size + bpb
      → ((i : ℕ) → i < b → i < (sb_of now).size → used now i ≢ 0)
      → Allocates g before k now (alloc_from (sb_of now) g.dev rest b l c)
  unfolding alloc_from
  alloc_from-Allocates zero b l c h whole covers tight below =
      inr (l, c, refl, (λ i lt. below i (omega arith) lt), h)
  alloc_from-Allocates (suc rest) b l c h whole covers tight below =
      let inside : b < (sb_of now).size = omega arith in
      let (home, word) = f.bitmap b inside in
      let (bp, c1, o) = session-IsOpened g before l c (suc k) now (bitmap_of now b) h home word in
      elim (find_clear-cases (c1.buf bp).bytes (sb_of now).size b bpb 0 (omega arith)) [
        | inl (le, lt, fits, z, lower) ↦
            found-Allocates rest b (find_clear (c1.buf bp).bytes (sb_of now).size b bpb 0) l c bp c1
              o whole refl lt fits z
              (λ i p.
                used-upto now b (find_clear (c1.buf bp).bytes (sb_of now).size b bpb 0)
                  (sb_of now).size (c1.buf bp).bytes o.bytes whole (omega arith) below
                  (λ j p' q'. lower j (omega arith) p') i p (omega arith))
        | inr (full, all) ↦
            let (c2, e2, h') = o.lets_go in
            rw (alloc-full (sb_of now) g.dev rest b l c c1 c2 bp o.reads full e2) (
              alloc_from-Allocates rest (b + bpb) l c2 h' (omega arith) (omega arith) (omega arith)
                (used-upto now b bpb (sb_of now).size (c1.buf bp).bytes o.bytes whole (omega arith)
                  below (λ j p' q'. all j (omega arith) p' q')))
      ]

-- In a transaction with two changes left, on a formatted disk: block_alloc returns. It takes the
-- first block whose bit is clear, sets that bit and zeroes the block, and changes no other sector
-- outside the log; or every block is in use, it changes nothing, and ends without a value.
pub block_alloc-Allocates :
    (g : Log) (before : ℕ → Block) (l : Log) (c : Cache) (k : ℕ) (now : ℕ → Block)
    → IsSession g before l c (suc (suc k)) now
    → IsFormatted g now
    → Allocates g before k now (block_alloc l c g.dev)
unfolding block_alloc
block_alloc-Allocates g before l c k now h f =
    let (c1, e1, h1) = read_superblock-IsSession g before l c (suc k) now h f.super in
    rw e1 (
      alloc_from-Allocates g before k now f (((sb_of now).size + bpb - 1) / bpb) 0 l c1 h1 refl
        (omega arith) (omega arith) (λ i p q. absurd (omega arith)))
