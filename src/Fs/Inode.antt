-- ===== src/Fs/Inode.antt =====
-- kern/fs/inode.c: the inodes in memory, their contents, and the inodes on the disk. A pointer
-- into inode_cache is the index of the inode, `ninode` the null pointer. A lock that somebody
-- holds makes the caller sleep; thread_wakeup concerns the threads only.
pub mod Content
pub mod Read
pub mod Layout
pub mod Write
pub mod Dinode
pub mod Store
pub mod Find
pub mod Count
pub mod Unlogged
pub mod Grow
pub mod RoundTrip
use os_project_signal.Prelude.{
  ℕ, zero, suc, ◌+◌, ◌-◌, ◌*◌, ◌/◌, ◌%◌, ◌^◌, ◌≡◌, Bool, true, false, ◌&&◌, ◌||◌, not, List, [],
  ◌++◌, arith, Option, some, none, ◌==◌, leb, ltb, if◌then◌else◌, update, min, length,
}
use os_project_signal.Vmm.Phys.{read_word, write_word, read_bytes, write_bytes, fill_bytes}
use os_project_signal.Fs.Result.{Result, ok, sleeps, panics, ◌>>=◌}
use os_project_signal.Fs.Cache.{Cache, Block, bsize, set_bytes, bufcache_read, bufcache_release}
use os_project_signal.Fs.Log.{Log, Superblock, log_write, read_superblock}
use os_project_signal.Fs.Bitmap.{ipb, block_alloc, block_free}

abbrev pub ninode : ℕ
ninode = 50

abbrev pub ndirect : ℕ
ndirect = 12

abbrev pub nindirect : ℕ
nindirect = bsize / 4

abbrev pub maxfile : ℕ
maxfile = ndirect + nindirect

abbrev pub t_dev : ℕ
t_dev = 3

-- The sector of an inode, and where it starts there.
abbrev pub iblock : ℕ → ℕ
iblock i = i / ipb + 2

abbrev pub islot : ℕ → ℕ
islot i = i % ipb * 64

-- `struct inode`, with its flags I_BUSY and I_VALID.
pub record Inode : Type 0 where
  pub dev : ℕ
  pub inum : ℕ
  pub ref : ℕ
  pub busy : Bool
  pub valid : Bool
  pub type_ : ℕ
  pub major : ℕ
  pub minor : ℕ
  pub nlink : ℕ
  pub size : ℕ
  pub addrs : ℕ → ℕ

-- inode_cache, over the log and the buffer cache.
pub record Inodes : Type 0 where
  pub inode : ℕ → Inode
  pub log : Log
  pub cache : Cache

abbrev pub set_inode : Inodes → ℕ → Inode → Inodes
set_inode s ip x = record s { inode = update s.inode ip x }

abbrev pub set_disk : Inodes → Log × Cache → Inodes
set_disk s (l, c) = record s { log = l; cache = c }

-- An `int16_t`, low byte first.
unfoldable pub read_half : Block → ℕ → ℕ
read_half f a = f a + 256 * f (a + 1)

unfoldable pub write_half : Block → ℕ → ℕ → Block
write_half f a w j = if j == a then w % 256 else if j == a + 1 then w / 256 % 256 else f j

-- The first `n` words of an array at `a`.
unfoldable pub write_words : Block → ℕ → (ℕ → ℕ) → ℕ → Block
write_words f a words zero = f
write_words f a words (suc n) = write_word (write_words f a words n) (a + 4 * n) (words n)

-- The assignments of inode_update to a `struct dinode` at `o`, and those of inode_lock from it.
unfoldable pub store_dinode : Block → ℕ → Inode → Block
store_dinode f o x =
    write_words
      (write_word
        (write_half
          (write_half (write_half (write_half f o x.type_) (o + 2) x.major) (o + 4) x.minor) (o + 6)
          x.nlink)
        (o + 8) x.size)
      (o + 12) x.addrs (ndirect + 1)

unfoldable pub load_dinode : Block → ℕ → Inode → Inode
load_dinode f o x = record x {
  type_ = read_half f o;
  major = read_half f (o + 2);
  minor = read_half f (o + 4);
  nlink = read_half f (o + 6);
  size = read_word f (o + 8);
  addrs = λ i. if leb i ndirect then read_word f (o + 12 + 4 * i) else x.addrs i;
}

-- The first of the inodes `n` and those after it, `rest` of them, that is the inode of the disk;
-- `ninode` for none. `ref` is an `int`.
unfoldable pub find_inode : (ℕ → Inode) → ℕ → ℕ → ℕ → ℕ → ℕ
find_inode t dev inum n zero = ninode
find_inode t dev inum n (suc rest) =
    let later = find_inode t dev inum (suc n) rest in
    let x = t n in
    if ltb 0 x.ref && ltb x.ref (2 ^ 31) && (x.dev == dev) && (x.inum == inum) then n else later

-- The first of them without a reference, which the same loop remembers.
unfoldable pub find_empty : (ℕ → Inode) → ℕ → ℕ → ℕ
find_empty t n zero = ninode
find_empty t n (suc rest) =
    let later = find_empty t (suc n) rest in if (t n).ref == 0 then n else later

unfoldable pub inode_dup : Inodes → ℕ → Inodes
inode_dup s ip = let x = s.inode ip in set_inode s ip (record x { ref = (x.ref + 1) % 2 ^ 32 })

unfoldable pub inode_get : Inodes → ℕ → ℕ → Result (ℕ × Inodes)
inode_get s dev inum =
    let ip = find_inode s.inode dev inum 0 ninode in
    let empty = find_empty s.inode 0 ninode in
    if not (ip == ninode)
    then ok (ip, inode_dup s ip)
    else if empty == ninode
    then panics
    else ok (
      empty,
      set_inode s empty
          (record (s.inode empty) { dev = dev; inum = inum; ref = 1; busy = false; valid = false }),
    )

-- The loop of inode_alloc from `inum` on, `rest` rounds before sb.ninodes. The type is not 0.
unfoldable pub alloc_inode : Inodes → ℕ → ℕ → ℕ → ℕ → Result (ℕ × Inodes)
alloc_inode s dev type_ zero inum = panics
alloc_inode s dev type_ (suc rest) inum = do
  (bp, c) ← bufcache_read s.cache dev (iblock inum)
  let bytes = (c.buf bp).bytes
  if read_half bytes (islot inum) == 0
      then (do
        let c = set_bytes c bp (write_half (fill_bytes bytes (islot inum) 0 64) (islot inum) type_)
        (l, c) ← log_write s.log c bp
        c ← bufcache_release c bp
        inode_get (set_disk s (l, c)) dev inum)
      else (do
        c ← bufcache_release c bp
        alloc_inode (record s { cache = c }) dev type_ rest (suc inum))

unfoldable pub inode_alloc : Inodes → ℕ → ℕ → Result (ℕ × Inodes)
inode_alloc s dev type_ = do
  (sb, c) ← read_superblock s.cache dev
  alloc_inode (record s { cache = c }) dev type_ (sb.ninodes - 1) 1

unfoldable pub inode_update : Inodes → ℕ → Result Inodes
inode_update s ip = do
  let x = s.inode ip
  (bp, c) ← bufcache_read s.cache x.dev (iblock x.inum)
  let c = set_bytes c bp (store_dinode (c.buf bp).bytes (islot x.inum) x)
  (l, c) ← log_write s.log c bp
  c ← bufcache_release c bp
  ok (set_disk s (l, c))

-- `ref < 1`, for an `int`.
abbrev pub unreferenced : Inode → Bool
unreferenced x = (x.ref == 0) || leb (2 ^ 31) x.ref

unfoldable pub inode_lock : Inodes → ℕ → Result Inodes
inode_lock s ip =
    let x = record (s.inode ip) { busy = true } in
    if (ip == ninode) || unreferenced (s.inode ip)
    then panics
    else if (s.inode ip).busy
    then sleeps
    else if x.valid
    then ok (set_inode s ip x)
    else (do
      (bp, c) ← bufcache_read s.cache x.dev (iblock x.inum)
      let x = load_dinode (c.buf bp).bytes (islot x.inum) x
      c ← bufcache_release c bp
      if x.type_ == 0
          then panics
          else ok (record s { inode = update s.inode ip (record x { valid = true }); cache = c }))

unfoldable pub inode_unlock : Inodes → ℕ → Result Inodes
inode_unlock s ip =
    if (ip == ninode) || not (s.inode ip).busy || unreferenced (s.inode ip)
    then panics
    else ok (set_inode s ip (record (s.inode ip) { busy = false }))

-- The loop of inode_trunc over the first `n` blocks.
unfoldable pub trunc_direct : Inodes → ℕ → ℕ → Result Inodes
trunc_direct s ip zero = ok s
trunc_direct s ip (suc n) = do
  s ← trunc_direct s ip n
  let x = s.inode ip
  if x.addrs n == 0 then ok s else (do
    d ← block_free s.log s.cache x.dev (x.addrs n)
    ok (set_inode (set_disk s d) ip (record x { addrs = update x.addrs n 0 })))

-- The loop over the first `n` blocks of the indirect block, which is in buffer `bp`.
unfoldable pub trunc_indirect : Log → Cache → ℕ → ℕ → ℕ → Result (Log × Cache)
trunc_indirect l c dev bp zero = ok (l, c)
trunc_indirect l c dev bp (suc n) = do
  (l, c) ← trunc_indirect l c dev bp n
  let a = read_word (c.buf bp).bytes (4 * n)
  if a == 0 then ok (l, c) else block_free l c dev a

unfoldable pub inode_trunc : Inodes → ℕ → Result Inodes
inode_trunc s ip = do
  s ← trunc_direct s ip ndirect
  let x = s.inode ip
  s ←
      (if x.addrs ndirect == 0 then ok s else (do
        (bp, c) ← bufcache_read s.cache x.dev (x.addrs ndirect)
        (l, c) ← trunc_indirect s.log c x.dev bp nindirect
        c ← bufcache_release c bp
        d ← block_free l c x.dev (x.addrs ndirect)
        ok (set_inode (set_disk s d) ip (record x { addrs = update x.addrs ndirect 0 }))))
  inode_update (set_inode s ip (record (s.inode ip) { size = 0 })) ip

-- An inode without links whose last reference is put back is freed on the disk.
unfoldable pub inode_put : Inodes → ℕ → Result Inodes
inode_put s ip = do
  let x = s.inode ip
  s ←
      (if (x.ref == 1) && x.valid && (x.nlink == 0)
        then (if x.busy then panics else (do
          s ← inode_trunc (set_inode s ip (record x { busy = true })) ip
          s ← inode_update (set_inode s ip (record (s.inode ip) { type_ = 0 })) ip
          ok (set_inode s ip (record (s.inode ip) { busy = false; valid = false }))))
        else ok s)
  let x = s.inode ip
  ok (set_inode s ip (record x { ref = (x.ref + 2 ^ 32 - 1) % 2 ^ 32 }))

unfoldable pub inode_unlockput : Inodes → ℕ → Result Inodes
inode_unlockput s ip = do s ← inode_unlock s ip; inode_put s ip
