-- ===== src/Fs/Cache.antt =====
-- kern/fs/bufcache.c, with ide_rw of kern/dev/disk/ide.c. The list of the buffers through `next`,
-- from head.next to head.prev, is the list of their indices: the most recently used first. ide_rw
-- sleeps until the disk has served the request, so it is one step, on a disk that is there and
-- makes no errors.
pub mod Inv
pub mod Open
pub mod Read
pub mod Write
pub mod Update
pub mod Copy
pub mod Fresh
use os_project_signal.Prelude.{
  ℕ, zero, suc, ◌+◌, ◌-◌, ◌^◌, ◌<◌, ◌≡◌, Bool, true, false, ◌&&◌, ◌||◌, not, List, [], ◌∷◌, ◌++◌,
  arith, ◌==◌, if◌then◌else◌, update, erase,
}
use os_project_signal.Fs.Result.{Result, ok, sleeps, panics, ◌>>=◌}

abbrev pub nbuf : ℕ
nbuf = 10

abbrev pub bsize : ℕ
bsize = 512

-- The bytes of a sector.
abbrev pub Block : Type 0
Block = ℕ → ℕ

-- `struct buf`, with its flags B_BUSY, B_VALID and B_DIRTY.
pub record Buf : Type 0 where
  pub busy : Bool
  pub valid : Bool
  pub dirty : Bool
  pub dev : ℕ
  pub sector : ℕ
  pub bytes : Block

-- bcache and the disk. `written` is the history of the disk: the sectors in the order in which
-- they were written, the last one first.
pub record Cache : Type 0 where
  pub buf : ℕ → Buf
  pub order : List ℕ
  pub disk : ℕ → ℕ → Block
  pub written : List (ℕ × ℕ × Block)

abbrev pub set_buf : Cache → ℕ → Buf → Cache
set_buf c b x = record c { buf = update c.buf b x }

-- The buffers `n - 1` to 0, as the loop of bufcache_init leaves them.
abbrev pub down_from : ℕ → List ℕ
down_from zero = []
down_from (suc n) = n ∷ down_from n

-- The sector number is not set; the memory is zero.
abbrev pub fresh_buf : Buf
fresh_buf = record {
  busy = false;
  valid = false;
  dirty = false;
  dev = 2 ^ 32 - 1;
  sector = 0;
  bytes = λ j. 0;
}

unfoldable pub bufcache_init : (ℕ → ℕ → Block) → Cache
bufcache_init disk = record {
  buf = λ b. fresh_buf;
  order = down_from nbuf;
  disk = disk;
  written = [];
}

-- The first loop of bufcache_get: the buffer of the sector, `nbuf` for none.
unfoldable pub find_cached : (ℕ → Buf) → List ℕ → ℕ → ℕ → ℕ
find_cached buf [] dev sector = nbuf
find_cached buf (b ∷ bs) dev sector =
    if ((buf b).dev == dev) && ((buf b).sector == sector) then b else find_cached buf bs dev sector

-- The second loop, which goes through the list backwards: the last buffer that is neither busy nor
-- dirty.
unfoldable pub find_clean : (ℕ → Buf) → List ℕ → ℕ
find_clean buf [] = nbuf
find_clean buf (b ∷ bs) =
    let later = find_clean buf bs in
    if later == nbuf then (if not (buf b).busy && not (buf b).dirty then b else nbuf) else later

unfoldable pub bufcache_get : Cache → ℕ → ℕ → Result (ℕ × Cache)
bufcache_get c dev sector =
    let b = find_cached c.buf c.order dev sector in
    let free = find_clean c.buf c.order in
    if not (b == nbuf)
    then (if (c.buf b).busy then sleeps else ok (b, set_buf c b (record (c.buf b) { busy = true })))
    else if free == nbuf
    then panics
    else ok (
      free,
      set_buf c free (record (c.buf free) {
        dev = dev;
        sector = sector;
        busy = true;
        valid = false;
        dirty = false;
      }),
    )

-- A dirty buffer is written, any other is read.
unfoldable pub ide_rw : Cache → ℕ → Result Cache
ide_rw c b =
    let x = c.buf b in
    if not x.busy
    then panics
    else if x.valid && not x.dirty
    then panics
    else if x.dirty
    then ok (record c {
      buf = update c.buf b (record x { valid = true; dirty = false });
      disk = update c.disk x.dev (update (c.disk x.dev) x.sector x.bytes);
      written = (x.dev, x.sector, x.bytes) ∷ c.written;
    })
    else ok (set_buf c b (record x { bytes = c.disk x.dev x.sector; valid = true }))

unfoldable pub bufcache_read : Cache → ℕ → ℕ → Result (ℕ × Cache)
bufcache_read c dev sector = do
  (b, c) ← bufcache_get c dev sector
  if (c.buf b).valid then ok (b, c) else (do c ← ide_rw c b; ok (b, c))

unfoldable pub bufcache_write : Cache → ℕ → Result Cache
bufcache_write c b =
    if not (c.buf b).busy
    then panics
    else ide_rw (set_buf c b (record (c.buf b) { dirty = true })) b

unfoldable pub bufcache_release : Cache → ℕ → Result Cache
bufcache_release c b =
    if not (c.buf b).busy
    then panics
    else ok (record c {
      buf = update c.buf b (record (c.buf b) { busy = false });
      order = b ∷ erase b c.order;
    })

-- A change of the contents of a buffer by its holder.
abbrev pub set_bytes : Cache → ℕ → Block → Cache
set_bytes c b bytes = set_buf c b (record (c.buf b) { bytes = bytes })
