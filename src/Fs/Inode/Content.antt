-- ===== src/Fs/Inode/Content.antt =====
-- The contents of the inodes in kern/fs/inode.c: bmap, inode_stat, inode_read and inode_write.
-- Sizes and offsets are 32 bits wide.
use os_project_signal.Prelude.{
  ℕ, zero, suc, ◌+◌, ◌-◌, ◌*◌, ◌/◌, ◌%◌, ◌^◌, Bool, ◌||◌, List, [], ◌++◌, Option, some, none, ◌==◌,
  leb, ltb, if◌then◌else◌, update, min, length, ◌&&◌,
}
use os_project_signal.Vmm.Phys.{read_word, write_word, read_bytes, write_bytes}
use os_project_signal.Vmm.Copy.{take, drop}
use os_project_signal.Fs.Result.{Result, ok, panics, ◌>>=◌}
use os_project_signal.Fs.Cache.{bsize, set_bytes, bufcache_read, bufcache_release}
use os_project_signal.Fs.Log.{log_write}
use os_project_signal.Fs.Bitmap.{block_alloc}
use os_project_signal.Fs.Inode.{
  Inode, Inodes, set_inode, set_disk, ndirect, nindirect, maxfile, t_dev, inode_update,
}

abbrev pub ndev : ℕ
ndev = 10

-- An entry of devsw, with null pointers: `none` is -1, and bytes are what the driver copies.
pub record Driver : Type 0 where
  pub read : Option (Inodes → ℕ → ℕ → Result (Option (List ℕ) × Inodes))
  pub write : Option (Inodes → ℕ → List ℕ → Result (Option ℕ × Inodes))

-- What inode.c takes from outside: the table of the drivers, and the value that a call of
-- block_alloc seems to have when the function ends without one.
pub record Outside : Type 0 where
  pub devsw : ℕ → Driver
  pub no_value : ℕ

abbrev pub value_or : ℕ → Option ℕ → ℕ
value_or d none = d
value_or d (some x) = x

unfoldable pub bmap : Outside → Inodes → ℕ → ℕ → Result (ℕ × Inodes)
bmap e s ip bn =
    let x = s.inode ip in
    if ltb bn ndirect
    then (if x.addrs bn == 0
        then (do
          (r, l, c) ← block_alloc s.log s.cache x.dev
          let addr = value_or e.no_value r
          ok (addr, set_inode (set_disk s (l, c)) ip (record x { addrs = update x.addrs bn addr })))
        else ok (x.addrs bn, s))
    else if ltb (bn - ndirect) nindirect
    then (do
      (addr, s) ←
          (if x.addrs ndirect == 0
            then (do
              (r, l, c) ← block_alloc s.log s.cache x.dev
              let addr = value_or e.no_value r
              ok (
                addr,
                set_inode (set_disk s (l, c)) ip (record x { addrs = update x.addrs ndirect addr }),
              ))
            else ok (x.addrs ndirect, s))
      (bp, c) ← bufcache_read s.cache x.dev addr
      let found = read_word (c.buf bp).bytes (4 * (bn - ndirect))
      if found == 0
          then (do
            (r, l, c) ← block_alloc s.log c x.dev
            let addr = value_or e.no_value r
            let c = set_bytes c bp (write_word (c.buf bp).bytes (4 * (bn - ndirect)) addr)
            (l, c) ← log_write l c bp
            c ← bufcache_release c bp
            ok (addr, set_disk s (l, c)))
          else (do c ← bufcache_release c bp; ok (found, record s { cache = c })))
    else panics

pub record FileStat : Type 0 where
  pub type_ : ℕ
  pub dev : ℕ
  pub ino : ℕ
  pub nlink : ℕ
  pub size : ℕ

unfoldable pub inode_stat : Inode → FileStat
inode_stat x = record { type_ = x.type_; dev = x.dev; ino = x.inum; nlink = x.nlink; size = x.size }

-- The loop of inode_read from `off` on for `n` bytes, in at most `fuel` rounds: each round copies
-- at least one byte, so `n` rounds are enough.
unfoldable pub read_chunks : Outside → Inodes → ℕ → ℕ → ℕ → ℕ → Result (List ℕ × Inodes)
read_chunks e s ip zero off n = ok ([], s)
read_chunks e s ip (suc fuel) off n = if n == 0 then ok ([], s) else (do
  (addr, s) ← bmap e s ip (off / bsize)
  (bp, c) ← bufcache_read s.cache (s.inode ip).dev addr
  let m = min n (bsize - off % bsize)
  let bytes = read_bytes (c.buf bp).bytes (off % bsize) m
  c ← bufcache_release c bp
  (rest, s) ← read_chunks e (record s { cache = c }) ip fuel (off + m) (n - m)
  ok (bytes ++ rest, s))

-- An `int16_t` that is negative, or not the number of a device.
abbrev pub no_device : ℕ → Bool
no_device major = leb (2 ^ 15) major || leb ndev major

-- `none` is -1; the bytes are what is copied, and their number is the value.
unfoldable pub inode_read : Outside → Inodes → ℕ → ℕ → ℕ → Result (Option (List ℕ) × Inodes)
inode_read e s ip off n =
    let x = s.inode ip in
    if x.type_ == t_dev
    then (if no_device x.major
        then ok (none, s)
        else elim (e.devsw x.major).read [ none ↦ ok (none, s) | some driver ↦ driver s ip n ])
    else if ltb x.size off || ltb ((off + n) % 2 ^ 32) off
    then ok (none, s)
    else (do
      let n = if ltb x.size ((off + n) % 2 ^ 32) then x.size - off else n
      (bytes, s) ← read_chunks e s ip n off n
      ok (some bytes, s))

-- The loop of inode_write, in the same way.
unfoldable pub write_chunks : Outside → Inodes → ℕ → ℕ → ℕ → List ℕ → Result Inodes
write_chunks e s ip zero off src = ok s
write_chunks e s ip (suc fuel) off src = if length src == 0 then ok s else (do
  (addr, s) ← bmap e s ip (off / bsize)
  (bp, c) ← bufcache_read s.cache (s.inode ip).dev addr
  let m = min (length src) (bsize - off % bsize)
  let c = set_bytes c bp (write_bytes (c.buf bp).bytes (off % bsize) (take m src))
  (l, c) ← log_write s.log c bp
  c ← bufcache_release c bp
  write_chunks e (set_disk s (l, c)) ip fuel (off + m) (drop m src))

-- The value is the number of bytes.
unfoldable pub inode_write : Outside → Inodes → ℕ → ℕ → List ℕ → Result (Option ℕ × Inodes)
inode_write e s ip off src =
    let x = s.inode ip in
    let n = length src in
    if x.type_ == t_dev
    then (if no_device x.major
        then ok (none, s)
        else elim (e.devsw x.major).write [ none ↦ ok (none, s) | some driver ↦ driver s ip src ])
    else if ltb x.size off || ltb ((off + n) % 2 ^ 32) off
    then ok (none, s)
    else if ltb (maxfile * bsize) ((off + n) % 2 ^ 32)
    then ok (none, s)
    else (do
      s ← write_chunks e s ip n off src
      let x = s.inode ip
      s ←
          (if ltb 0 n && ltb x.size (off + n)
            then inode_update (set_inode s ip (record x { size = off + n })) ip
            else ok s)
      ok (some n, s))
