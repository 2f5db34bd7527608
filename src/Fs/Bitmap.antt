-- ===== src/Fs/Bitmap.antt =====
-- kern/fs/block.c: the bitmap of the blocks of the disk, and blocks that are zeroed. A byte of the
-- bitmap takes the low 8 bits of what is assigned to it.
pub mod Free
pub mod Search
pub mod Alloc
use os_project_signal.Prelude.{
  ℕ, ◌+◌, ◌-◌, ◌*◌, ◌/◌, ◌%◌, ◌^◌, ◌≡◌, Bool, true, false, bit_and, bit_or, zero, suc, ◌||◌, not,
  ltb, Option, some, none, arith, ◌==◌, if◌then◌else◌, update,
}
use os_project_signal.Vmm.Phys.{fill_bytes}
use os_project_signal.Fs.Result.{Result, ok, sleeps, panics, ◌>>=◌}
use os_project_signal.Fs.Cache.{Cache, Block, bsize, set_bytes, bufcache_read, bufcache_release}
use os_project_signal.Fs.Log.{Log, Superblock, log_write, read_superblock}

-- Bits of a sector of the bitmap.
abbrev pub bpb : ℕ
bpb = bsize * 8

-- Inodes of a sector: a `struct dinode` has 64 bytes.
abbrev pub ipb : ℕ
ipb = bsize / 64

-- The sector of the bitmap with the bit of a block.
abbrev pub bblock : ℕ → ℕ → ℕ
bblock b ninodes = b / bpb + ninodes / ipb + 3

unfoldable pub block_zero : Log → Cache → ℕ → ℕ → Result (Log × Cache)
block_zero l c dev bno = do
  (bp, c) ← bufcache_read c dev bno
  let c = set_bytes c bp (fill_bytes (c.buf bp).bytes 0 0 bsize)
  (l, c) ← log_write l c bp
  c ← bufcache_release c bp
  ok (l, c)

-- `bp->data[bi/8] &= ~m`
abbrev pub clear_bit : Block → ℕ → Block
clear_bit bytes bi =
    update bytes (bi / 8) (bit_and (bytes (bi / 8)) (2 ^ 32 - 1 - 2 ^ (bi % 8)) % 256)

unfoldable pub block_free : Log → Cache → ℕ → ℕ → Result (Log × Cache)
block_free l c dev b = do
  (sb, c) ← read_superblock c dev
  (bp, c) ← bufcache_read c dev (bblock b sb.ninodes)
  let bi = b % bpb
  let bytes = (c.buf bp).bytes
  if bit_and (bytes (bi / 8)) (2 ^ (bi % 8)) == 0 then panics else (do
    let c = set_bytes c bp (clear_bit bytes bi)
    (l, c) ← log_write l c bp
    c ← bufcache_release c bp
    ok (l, c))

-- `bp->data[bi/8] |= m`
abbrev pub set_bit : Block → ℕ → Block
set_bit bytes bi = update bytes (bi / 8) (bit_or (bytes (bi / 8)) (2 ^ (bi % 8)) % 256)

-- The inner loop of block_alloc from `bi` on, `rest` rounds before `bpb`: the first bit that is
-- clear and stands for a block below `size`, `bpb` for none.
unfoldable pub find_clear : Block → ℕ → ℕ → ℕ → ℕ → ℕ
find_clear bytes size b zero bi = bpb
find_clear bytes size b (suc rest) bi =
    let later = find_clear bytes size b rest (suc bi) in
    if not (ltb (b + bi) size)
    then bpb
    else if bit_and (bytes (bi / 8)) (2 ^ (bi % 8)) == 0
    then bi
    else later

-- The outer loop from the block `b` on, for `rest` sectors of the bitmap. `none`: the function ends
-- without a value.
unfoldable pub alloc_from : Superblock → ℕ → ℕ → ℕ → Log → Cache → Result (Option ℕ × Log × Cache)
alloc_from sb dev zero b l c = ok (none, l, c)
alloc_from sb dev (suc rest) b l c = do
  (bp, c) ← bufcache_read c dev (bblock b sb.ninodes)
  let bi = find_clear (c.buf bp).bytes sb.size b bpb 0
  if bi == bpb then (do c ← bufcache_release c bp; alloc_from sb dev rest (b + bpb) l c) else (do
    let c = set_bytes c bp (set_bit (c.buf bp).bytes bi)
    (l, c) ← log_write l c bp
    c ← bufcache_release c bp
    (l, c) ← block_zero l c dev (b + bi)
    ok (some (b + bi), l, c))

unfoldable pub block_alloc : Log → Cache → ℕ → Result (Option ℕ × Log × Cache)
block_alloc l c dev = do
  (sb, c) ← read_superblock c dev
  alloc_from sb dev ((sb.size + bpb - 1) / bpb) 0 l c
