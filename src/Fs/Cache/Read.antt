-- ===== src/Fs/Cache/Read.antt =====
-- bufcache_read hands out the sector, and no reader of another sector notices.
use os_project_signal.Prelude.{
  ℕ, ◌<◌, ◌≡◌, ◌≢◌, inl, inr, refl, fun_ext, sym, ap, ◌∙◌, true, false, arith, ◌==◌, Bool-cases,
  ==_refl, ==-false,
}
use os_project_signal.Fs.Result.{Result, ok, sleeps, panics}
use os_project_signal.Fs.Cache.{
  Buf, Cache, nbuf, set_buf, find_cached, find_clean, bufcache_get, ide_rw, bufcache_read,
}
use os_project_signal.Fs.Cache.Inv.{
  unset, IsCache, view, Caches, clean-clean, find_clean-finds, head_unlisted, cached-Caches,
  not-Caches, view-hit, view-miss,
}
use os_project_signal.Fs.Cache.Open.{IsRead, opened-IsRead}

-- What bufcache_read promises. It hands out the sector; or the buffer that holds it is in use, and
-- the caller sleeps; or no buffer holds it and all are in use or dirty, and the kernel stops.
pub data ReadSpec (c : Cache) (dev sector : ℕ) (r : Result (ℕ × Cache)) : Type 0 where
  reads : (b : ℕ) (c' : Cache) → r ≡ ok (b, c') → IsRead c dev sector b c' → ReadSpec c dev sector r
  waits :
      (b : ℕ) → r ≡ sleeps → Caches c b dev sector → (c.buf b).busy ≡ true → ReadSpec c dev sector r
  full :
      r ≡ panics
      → ((b : ℕ) → ¬ (Caches c b dev sector))
      → ((b : ℕ) → b < nbuf → (c.buf b).busy ≡ false → (c.buf b).dirty ≡ true)
      → ReadSpec c dev sector r

set_buf-set_buf : (c : Cache) (b : ℕ) (x y : Buf) → set_buf (set_buf c b x) b y ≡ set_buf c b y
set_buf-set_buf c b x y = ap (λ f. record c { buf = f }) (fun_ext λ j. ground arith)

set_buf-buf : (c : Cache) (b : ℕ) (x : Buf) → (set_buf c b x).buf b ≡ x
set_buf-buf c b x = rw (==_refl b) refl

module _ (c : Cache) (dev sector b : ℕ) (x : Buf)
    (got : bufcache_get c dev sector ≡ ok (b, set_buf c b x)) where
  read-valid : x.valid ≡ true → bufcache_read c dev sector ≡ ok (b, set_buf c b x)
  unfolding bufcache_read
  read-valid valid = rw (got, ==_refl b, valid) refl

  read-loaded :
      x.valid ≡ false
      → x.busy ≡ true
      → x.dirty ≡ false
      → bufcache_read c dev sector
        ≡ ok (b, set_buf c b (record x { bytes = c.disk x.dev x.sector; valid = true }))
  unfolding bufcache_read ide_rw
  read-loaded stale busy clean =
      rw (got, ==_refl b, stale, busy, clean)
        (ap (λ (d : Cache). (let r : Result (ℕ × Cache) = ok (b, d) in r))
          (set_buf-set_buf c b _ _))

read-sleeps :
    (c : Cache) (dev sector : ℕ)
    → bufcache_get c dev sector ≡ sleeps
    → bufcache_read c dev sector ≡ sleeps
unfolding bufcache_read
read-sleeps c dev sector e = rw e refl

read-panics :
    (c : Cache) (dev sector : ℕ)
    → bufcache_get c dev sector ≡ panics
    → bufcache_read c dev sector ≡ panics
unfolding bufcache_read
read-panics c dev sector e = rw e refl

module _ (c : Cache) (v : IsCache c) (dev sector : ℕ) (set : dev ≢ unset) where
  read-cached :
      (b : ℕ)
      → find_cached c.buf c.order dev sector ≡ b
      → Caches c b dev sector
      → ReadSpec c dev sector (bufcache_read c dev sector)
  unfolding bufcache_get
  read-cached b e h = elim (Bool-cases (c.buf b).busy) [
    | inl busy ↦ waits b (read-sleeps c dev sector (rw (e, other, busy) refl)) h busy
    | inr idle ↦
        let y = record (c.buf b) { busy = true } in
        let got : bufcache_get c dev sector ≡ ok (b, set_buf c b y) = rw (e, other, idle) refl in
        elim (Bool-cases (c.buf b).valid) [
          | inl valid ↦ reads b (set_buf c b y) (read-valid c dev sector b y got valid) (
              opened-IsRead c v dev sector b y set h.0 idle (inl h) h.1 h.2 refl valid refl
                (sym (view-hit c v dev sector b set h valid)))
          | inr stale ↦
              let z = record y { bytes = c.disk (c.buf b).dev (c.buf b).sector; valid = true } in
              reads b (set_buf c b z) (read-loaded c dev sector b y got stale refl (clean stale)) (
                opened-IsRead c v dev sector b z set h.0 idle (inl h) h.1 h.2 refl refl refl (
                  ap (λ d. c.disk d (c.buf b).sector) h.1
                  ∙ ap (λ s. c.disk dev s) h.2
                  ∙ sym (missed stale)))
        ]
  ]
    where
      other : (b == nbuf) ≡ false
      other = ==-false b nbuf (omega arith)

      clean : (c.buf b).valid ≡ false → (c.buf b).dirty ≡ false
      clean stale = let d = v.dirty_valid b h.0 in ground arith

      missed : (c.buf b).valid ≡ false → view c dev sector ≡ c.disk dev sector
      missed stale = view-miss c v dev sector set (λ j h'.
          let same =
            v.unique j b h'.0 h.0 (h'.1 ∙ sym h.1) (h'.2 ∙ sym h.2) (λ u. set (sym h'.1 ∙ u)) in
          ap (λ i. (c.buf i).valid) same ∙ stale)

  read-uncached :
      find_cached c.buf c.order dev sector ≡ nbuf
      → ReadSpec c dev sector (bufcache_read c dev sector)
  unfolding bufcache_get
  read-uncached e = elim (Bool-cases (find_clean c.buf c.order == nbuf)) [
    | inl full_up ↦ full (read-panics c dev sector (rw (e, full_up) refl)) none_holds (λ b lt idle.
        elim (Bool-cases (c.buf b).dirty) [
          | inl dirty ↦ dirty
          | inr clean ↦ absurd (
              find_clean-finds c.buf c.order b (head_unlisted c v) (v.complete b lt) idle clean
                (ground arith))
        ])
    | inr room ↦
        let b = find_clean c.buf c.order in
        let (lt, idle, clean) = clean-clean c v (λ n. ground arith) in
        let y = record (c.buf b) {
          dev = dev;
          sector = sector;
          busy = true;
          valid = false;
          dirty = false;
        } in
        let got : bufcache_get c dev sector ≡ ok (b, set_buf c b y) = rw (e, room) refl in
        let z = record y { bytes = c.disk dev sector; valid = true } in
        reads b (set_buf c b z) (read-loaded c dev sector b y got refl refl refl) (
          opened-IsRead c v dev sector b z set lt idle (inr (none_holds, clean)) refl refl refl refl
            (sym clean) (sym (view-miss c v dev sector set (λ j h. absurd (none_holds j h)))))
  ]
    where
      none_holds : (j : ℕ) → ¬ (Caches c j dev sector)
      none_holds = not-Caches c v dev sector e

  -- bufcache_read meets `ReadSpec`, on every cache that satisfies the invariant and for every
  -- sector of a device that is a device.
  pub bufcache_read-ReadSpec : ReadSpec c dev sector (bufcache_read c dev sector)
  bufcache_read-ReadSpec = elim (Bool-cases (find_cached c.buf c.order dev sector == nbuf)) [
    | inl none_found ↦ read-uncached (ground arith)
    | inr found ↦ read-cached _ refl (cached-Caches c v dev sector (λ n. ground arith))
  ]
