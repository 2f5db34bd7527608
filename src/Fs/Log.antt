-- ===== src/Fs/Log.antt =====
-- kern/fs/log.c, with read_superblock of kern/fs/block.c. `int sector[LOGSIZE]` is a function, so a
-- header that counts more sectors than that has somewhere to go. Sums of sector numbers are not
-- wrapped, as a disk has fewer than 2 ^ 31 sectors.
pub mod Redo
pub mod Install
pub mod Recover
pub mod Reboot
pub mod Changing
pub mod Append
pub mod Update
pub mod Commit
use os_project_signal.Prelude.{
  ℕ, zero, suc, ◌+◌, ◌*◌, ◌-◌, ◌%◌, ◌^◌, ◌≡◌, Bool, true, false, ◌||◌, not, arith, ◌==◌, ltb, leb,
  if◌then◌else◌, update,
}
use os_project_signal.Vmm.Phys.{read_word, write_word}
use os_project_signal.Fs.Result.{Result, ok, sleeps, panics, ◌>>=◌}
use os_project_signal.Fs.Cache.{
  Cache, Block, set_buf, set_bytes, bufcache_read, bufcache_write, bufcache_release,
}

abbrev pub logsize : ℕ
logsize = 10

abbrev pub rootdev : ℕ
rootdev = 1

-- `struct log` with its header: `n` sectors, the homes of the sectors that follow the header.
pub record Log : Type 0 where
  pub start : ℕ
  pub size : ℕ
  pub busy : Bool
  pub dev : ℕ
  pub n : ℕ
  pub sector : ℕ → ℕ

-- The rounds of a loop from 0 to an `int`.
abbrev pub rounds : ℕ → ℕ
rounds n = if ltb n (2 ^ 31) then n else 0

pub record Superblock : Type 0 where
  pub size : ℕ
  pub nblocks : ℕ
  pub ninodes : ℕ
  pub nlog : ℕ

unfoldable pub read_superblock : Cache → ℕ → Result (Superblock × Cache)
read_superblock c dev = do
  (b, c) ← bufcache_read c dev 1
  let bytes = (c.buf b).bytes
  let sb : Superblock = record {
    size = read_word bytes 0;
    nblocks = read_word bytes 4;
    ninodes = read_word bytes 8;
    nlog = read_word bytes 12;
  }
  c ← bufcache_release c b
  ok (sb, c)

-- One round of install_trans.
unfoldable pub install_block : Log → Cache → ℕ → Result Cache
install_block l c tail = do
  (lbuf, c) ← bufcache_read c l.dev (l.start + tail + 1)
  (dbuf, c) ← bufcache_read c l.dev (l.sector tail)
  c ← bufcache_write (set_bytes c dbuf (c.buf lbuf).bytes) dbuf
  c ← bufcache_release c lbuf
  bufcache_release c dbuf

-- The rounds of install_trans with `tail` below `n`.
unfoldable pub install_blocks : Log → Cache → ℕ → Result Cache
install_blocks l c zero = ok c
install_blocks l c (suc n) = do c ← install_blocks l c n; install_block l c n

unfoldable pub install_trans : Log → Cache → Result Cache
install_trans l c = install_blocks l c (rounds l.n)

-- The sector numbers of a header, the first `n` of them.
unfoldable pub read_sectors : Block → (ℕ → ℕ) → ℕ → ℕ → ℕ
read_sectors bytes sector zero = sector
read_sectors bytes sector (suc n) =
    update (read_sectors bytes sector n) n (read_word bytes (4 + 4 * n))

unfoldable pub write_sectors : Block → (ℕ → ℕ) → ℕ → Block
write_sectors bytes sector zero = bytes
write_sectors bytes sector (suc n) =
    write_word (write_sectors bytes sector n) (4 + 4 * n) (sector n)

unfoldable pub read_head : Log → Cache → Result (Log × Cache)
read_head l c = do
  (b, c) ← bufcache_read c l.dev l.start
  let bytes = (c.buf b).bytes
  let n = read_word bytes 0
  c ← bufcache_release c b
  ok (record l { n = n; sector = read_sectors bytes l.sector (rounds n) }, c)

-- What write_head makes of the header block.
unfoldable pub header : Log → Block → Block
header l bytes = write_sectors (write_word bytes 0 l.n) l.sector (rounds l.n)

unfoldable pub write_head : Log → Cache → Result Cache
write_head l c = do
  (b, c) ← bufcache_read c l.dev l.start
  c ← bufcache_write (set_bytes c b (header l (c.buf b).bytes)) b
  bufcache_release c b

unfoldable pub recover_from_log : Log → Cache → Result (Log × Cache)
recover_from_log l c = do
  (l, c) ← read_head l c
  c ← install_trans l c
  c ← write_head (record l { n = 0 }) c
  ok (record l { n = 0 }, c)

-- `size - nlog` is an unsigned difference.
unfoldable pub log_init : Log → Cache → Result (Log × Cache)
log_init l c = do
  (sb, c) ← read_superblock c rootdev
  recover_from_log
      (record l { start = (sb.size + 2 ^ 32 - sb.nlog) % 2 ^ 32; size = sb.nlog; dev = rootdev }) c

unfoldable pub begin_trans : Log → Result Log
begin_trans l = if l.busy then sleeps else ok (record l { busy = true })

unfoldable pub commit_trans : Log → Cache → Result (Log × Cache)
commit_trans l c =
    if ltb 0 (rounds l.n)
    then (do
      c ← write_head l c
      c ← install_trans l c
      c ← write_head (record l { n = 0 }) c
      ok (record l { n = 0; busy = false }, c))
    else ok (record l { busy = false }, c)

-- The first of the sectors that is `sector`, `n` for none.
unfoldable pub find_sector : (ℕ → ℕ) → ℕ → ℕ → ℕ
find_sector sectors zero s = 0
find_sector sectors (suc n) s =
    let i = find_sector sectors n s in if i == n then (if sectors n == s then n else suc n) else i

unfoldable pub log_write : Log → Cache → ℕ → Result (Log × Cache)
log_write l c b =
    if leb logsize l.n || leb (l.size - 1) l.n then panics else if not l.busy then panics else (do
      let i = find_sector l.sector l.n (c.buf b).sector
      let l = record l { sector = update l.sector i (c.buf b).sector }
      (lbuf, c) ← bufcache_read c (c.buf b).dev (l.start + i + 1)
      c ← bufcache_write (set_bytes c lbuf (c.buf b).bytes) lbuf
      c ← bufcache_release c lbuf
      ok (
        (if i == l.n then record l { n = l.n + 1 } else l),
        set_buf c b (record (c.buf b) { dirty = true }),
      ))
