-- ===== src/Fs/Bitmap/Free.antt =====
-- block_free and block_zero in a transaction.
use native.Mathlib.Nat.{one-le-pow}
use os_project_signal.Prelude.{
  ℕ, zero, suc, ◌+◌, ◌-◌, ◌*◌, ◌/◌, ◌%◌, ◌^◌, ◌<◌, ◌≡◌, ◌≢◌, ◌⊎◌, inl, inr, refl, ap, ◌∙◌, true,
  false, List, ◌∷◌, bit_and, arith, ◌==◌, if◌then◌else◌, erase, Bool-cases, ==_refl, ==-false, bit,
  bit-bit_and, bit-complement, bit-lt, bit_and-two_pow,
}
use os_project_signal.Vmm.Phys.{read_word, fill_bytes}
use os_project_signal.Fs.Result.{Result, ok, panics}
use os_project_signal.Fs.Cache.{Cache, Block, bsize, bufcache_read}
use os_project_signal.Fs.Cache.Inv.{unset, view}
use os_project_signal.Fs.Cache.Copy.{IsCalm, calm-IsReadable}
use os_project_signal.Fs.Cache.Update.{bufcache_read-IsRead}
use os_project_signal.Fs.Log.{Log, Superblock, logsize, read_superblock}
use os_project_signal.Fs.Log.Redo.{Home}
use os_project_signal.Fs.Log.Recover.{IsLooked, bufcache_release-IsLooked}
use os_project_signal.Fs.Log.Reboot.{IsTrans}
use os_project_signal.Fs.Log.Update.{
  logged_change, logged_change-IsChanged, HasSpare, IsChanged, spare-IsCalm, looked-HasSpare,
  IsTrans-transfer,
}
use os_project_signal.Fs.Bitmap.{bpb, bblock, block_zero, clear_bit, block_free}

-- The superblock that the bytes hold.
abbrev pub superblock_of : Block → Superblock
superblock_of bytes = record {
  size = read_word bytes 0;
  nblocks = read_word bytes 4;
  ninodes = read_word bytes 8;
  nlog = read_word bytes 12;
}

pub read_superblock-IsLooked :
    (c : Cache) (dev : ℕ)
    → IsCalm c
    → dev ≢ unset
    → (c' : Cache) × (read_superblock c dev ≡ ok (superblock_of (view c dev 1), c')) × IsLooked c c'
unfolding read_superblock
read_superblock-IsLooked c dev q set =
    let (b, c1, e1, h1) = bufcache_read-IsRead c dev 1 (calm-IsReadable c dev 1 q set) in
    let (c2, e2, h2) = bufcache_release-IsLooked c q dev 1 b c1 set h1 in
    (
      c2,
      rw (e1, e2)
          (ap (λ (x : Block). (let r : Result (Superblock × Cache) = ok (superblock_of x, c2) in r))
            h1.seen),
      h2,
    )

-- Bit `i` of a sector of the bitmap: the block is in use.
abbrev pub in_use : Block → ℕ → ℕ
in_use bytes i = bit (i % 8) (bytes (i / 8))

pub bit-byte : (k y : ℕ) → k < 8 → bit k (y % 256) ≡ bit k y
bit-byte zero y h = omega arith
bit-byte (suc zero) y h = omega arith
bit-byte (suc (suc zero)) y h = omega arith
bit-byte (suc (suc (suc zero))) y h = omega arith
bit-byte (suc (suc (suc (suc zero)))) y h = omega arith
bit-byte (suc (suc (suc (suc (suc zero))))) y h = omega arith
bit-byte (suc (suc (suc (suc (suc (suc zero)))))) y h = omega arith
bit-byte (suc (suc (suc (suc (suc (suc (suc zero))))))) y h = omega arith
bit-byte (suc (suc (suc (suc (suc (suc (suc (suc k)))))))) y h = absurd (omega arith)

clear_byte :
    (x k m : ℕ)
    → k < 8
    → m < 8
    → bit k (bit_and x (2 ^ 32 - 1 - 2 ^ m) % 256) ≡ (if k == m then 0 else bit k x)
clear_byte x k m p q =
    bit-byte k (bit_and x (2 ^ 32 - 1 - 2 ^ m)) p
    ∙ bit-bit_and k x (2 ^ 32 - 1 - 2 ^ m)
    ∙ ground (arith, bit-complement k m (omega arith) (omega arith), bit-lt k x)

pub in_use-clear_bit :
    (bytes : Block) (bi i : ℕ)
    → in_use (clear_bit bytes bi) i ≡ (if i == bi then 0 else in_use bytes i)
in_use-clear_bit bytes bi i = elim (Bool-cases (bi / 8 == i / 8)) [
  | inl same ↦
      let e : bi / 8 ≡ i / 8 = ground arith in
      rw same (
        clear_byte (bytes (bi / 8)) (i % 8) (bi % 8) (omega arith) (omega arith)
        ∙ same_byte bytes bi i e)
  | inr other ↦
      let ne : (i == bi) ≡ false =
        ==-false i bi (λ e. let e' = ap (λ k. k / 8) e in ground arith) in
      rw (other, ne) refl
]
  where
    same_byte :
        (bytes : Block) (bi i : ℕ)
        → bi / 8 ≡ i / 8
        → (if i % 8 == bi % 8 then 0 else bit (i % 8) (bytes (bi / 8)))
          ≡ (if i == bi then 0 else bit (i % 8) (bytes (i / 8)))
    same_byte bytes bi i e = elim (Bool-cases (i % 8 == bi % 8)) [
      | inl here ↦
          let z : i % 8 ≡ bi % 8 = ground arith in
          let all : i ≡ bi = omega arith in rw (here, all) (let s = ==_refl bi in ground arith)
      | inr there ↦
          let ne : (i == bi) ≡ false =
            ==-false i bi (λ z. let z' = ap (λ k. k % 8) z in ground arith) in
          rw (there, ne, e) refl
    ]

-- block_free of a block in use: its bit is clear, the other bits of the sector and the other
-- sectors outside the log are as before, and the log is the transaction.
pub record IsFreed (l : Log) (c : Cache) (b : ℕ) (l' : Log) (c' : Cache) : Type 0 where
  pub bit :
      (i : ℕ)
      → let sector = bblock b (superblock_of (view c l.dev 1)).ninodes in
        in_use (view c' l.dev sector) i
        ≡ (if i == b % bpb then 0 else in_use (view c l.dev sector) i)
  pub there :
      (s : ℕ)
      → Home l s
      → s ≢ bblock b (superblock_of (view c l.dev 1)).ninodes
      → view c' l.dev s ≡ view c l.dev s
  pub trans : IsTrans l' c'
  pub same_disk : (s : ℕ) → Home l s → c'.disk l.dev s ≡ c.disk l.dev s

free-chain :
    (l : Log) (c c1 : Cache) (dev b bp : ℕ) (sb : Superblock) (c2 : Cache)
    → read_superblock c dev ≡ ok (sb, c1)
    → bufcache_read c1 dev (bblock b sb.ninodes) ≡ ok (bp, c2)
    → block_free l c dev b ≡ (
        if bit_and ((c2.buf bp).bytes (b % bpb / 8)) (2 ^ (b % bpb % 8)) == 0
        then panics
        else logged_change l c1 dev (bblock b sb.ninodes) (λ bytes. clear_bit bytes (b % bpb)))
unfolding block_free
free-chain l c c1 dev b bp sb c2 e1 e2 = rw (e1, e2) refl

pub two_pow-pos : (k : ℕ) → 0 < 2 ^ k
two_pow-pos k = one-le-pow k 2 (omega arith)

module _ (l : Log) (c : Cache) (t : IsTrans l c) (a a' : ℕ) (more : List ℕ)
    (q : HasSpare c (a ∷ a' ∷ more)) (b : ℕ) where
  abbrev bitmap : ℕ
  bitmap = bblock b (superblock_of (view c l.dev 1)).ninodes

  -- In a transaction, with the sector of the bitmap outside the log, room in the log, nobody else
  -- in the cache and two buffers that are not dirty: block_free of a block whose bit is clear
  -- panics; of a block whose bit is set it returns, clears the bit and no other bit of the sector,
  -- changes no other sector outside the log for any reader and none on the disk, leaves the log
  -- the transaction, and makes at most one spare buffer dirty.
  pub block_free-cases :
      (l.busy ≡ true)
      → Home l bitmap
      → bitmap < 2 ^ 32
      → l.n < logsize
      → l.n + 1 < l.size
      → ((in_use (view c l.dev bitmap) (b % bpb) ≡ 0) × (block_free l c l.dev b ≡ panics))
        ⊎ ((in_use (view c l.dev bitmap) (b % bpb) ≡ 1)
            × ((l' : Log) × (c' : Cache) × (buf : ℕ) × (block_free l c l.dev b ≡ ok (l', c'))
                × IsFreed l c b l' c'
                × HasSpare c' (erase buf (a ∷ a' ∷ more))))
  block_free-cases active home word roomy fits =
      let calm = spare-IsCalm c a a' more q in
      let (c1, e1, h1) = read_superblock-IsLooked c l.dev calm t.placed.set in
      let t1 = IsTrans-transfer l c c1 t h1.same_disk (λ s. h1.same_view l.dev s t.placed.set) in
      let (bp, c2, e2, h2) =
        bufcache_read-IsRead c1 l.dev bitmap
          (calm-IsReadable c1 l.dev bitmap h1.calm t.placed.set) in
      let (l', c', buf, e3, g, spare) =
        logged_change-IsChanged l c1 t1 a a' more (looked-HasSpare c c1 (a ∷ a' ∷ more) q h1) bitmap
          home word (λ bytes. clear_bit bytes (b % bpb)) active roomy fits in
      let byte : (c2.buf bp).bytes ≡ view c l.dev bitmap =
        h2.seen ∙ h1.same_view l.dev bitmap t.placed.set in
      let tested : bit_and ((c2.buf bp).bytes (b % bpb / 8)) (2 ^ (b % bpb % 8))
          ≡ in_use (view c l.dev bitmap) (b % bpb) * 2 ^ (b % bpb % 8) =
        ap (λ (x : Block). bit_and (x (b % bpb / 8)) (2 ^ (b % bpb % 8))) byte
        ∙ bit_and-two_pow (b % bpb % 8) (view c l.dev bitmap (b % bpb / 8)) in
      let chain = free-chain l c c1 l.dev b bp (superblock_of (view c l.dev 1)) c2 e1 e2 in
      let two = bit-lt (b % bpb % 8) (view c l.dev bitmap (b % bpb / 8)) in
      let pos = two_pow-pos (b % bpb % 8) in
      elim (Bool-cases (in_use (view c l.dev bitmap) (b % bpb) == 0)) [
        | inl free ↦
            let z : in_use (view c l.dev bitmap) (b % bpb) ≡ 0 = ground arith in
            let zero_times : 0 * 2 ^ (b % bpb % 8) ≡ 0 = omega arith in
            let empty : bit_and ((c2.buf bp).bytes (b % bpb / 8)) (2 ^ (b % bpb % 8)) ≡ 0 =
              tested ∙ ap (λ k. k * 2 ^ (b % bpb % 8)) z ∙ zero_times in
            inl (z, chain ∙ rw empty refl)
        | inr used ↦
            let z : in_use (view c l.dev bitmap) (b % bpb) ≡ 1 = ground arith in
            let set_bit : bit_and ((c2.buf bp).bytes (b % bpb / 8)) (2 ^ (b % bpb % 8))
                ≡ 1 * 2 ^ (b % bpb % 8) =
              tested ∙ ap (λ k. k * 2 ^ (b % bpb % 8)) z in
            let nonzero : (bit_and ((c2.buf bp).bytes (b % bpb / 8)) (2 ^ (b % bpb % 8)) == 0)
                ≡ false =
              ==-false _ 0 (λ e. omega arith) in
            inr (
              z,
              (
                l',
                c',
                buf,
                chain ∙ rw nonzero e3,
                record {
                  bit = λ i.
                      ap (λ (x : Block). in_use x i)
                        (g.here
                          ∙ ap (λ (x : Block). clear_bit x (b % bpb))
                              (h1.same_view l.dev bitmap t.placed.set))
                      ∙ in_use-clear_bit (view c l.dev bitmap) (b % bpb) i;
                  there = λ s at_home ne. g.there s at_home ne ∙ h1.same_view l.dev s t.placed.set;
                  trans = g.trans;
                  same_disk = λ s at_home. g.same_disk s at_home ∙ ap (λ d. d l.dev s) h1.same_disk;
                },
                spare,
              ),
            )
      ]

  -- block_zero of a block outside the log, under the same conditions.
  pub block_zero-IsChanged :
      (bno : ℕ)
      → l.busy ≡ true
      → Home l bno
      → bno < 2 ^ 32
      → l.n < logsize
      → l.n + 1 < l.size
      → (l' : Log) × (c' : Cache) × (buf : ℕ) × (block_zero l c l.dev bno ≡ ok (l', c'))
        × IsChanged l c bno (fill_bytes (view c l.dev bno) 0 0 bsize) l' c'
        × HasSpare c' (erase buf (a ∷ a' ∷ more))
  unfolding block_zero
  block_zero-IsChanged bno active home word roomy fits =
      let (l', c', buf, e, g, spare) =
        logged_change-IsChanged l c t a a' more q bno home word
          (λ bytes. fill_bytes bytes 0 0 bsize) active roomy fits in
      (l', c', buf, e, g, spare)
