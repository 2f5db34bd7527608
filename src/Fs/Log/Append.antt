-- ===== src/Fs/Log/Append.antt =====
-- log_write adds a changed block to the transaction.
use os_project_signal.Prelude.{
  ℕ, suc, ◌+◌, ◌-◌, ◌^◌, ◌≤◌, ◌<◌, ◌≡◌, ◌≢◌, inl, inr, refl, sym, ap, subst, ◌∙◌, true, false, ◌||◌,
  arith, ◌==◌, leb, if◌then◌else◌, update, Bool-cases, ==_refl, ==-false,
}
use os_project_signal.Vmm.Phys.{read_word}
use os_project_signal.Fs.Result.{ok}
use os_project_signal.Fs.Cache.{
  Cache, Block, Buf, nbuf, set_buf, set_bytes, bufcache_read, bufcache_write, bufcache_release,
}
use os_project_signal.Fs.Cache.Inv.{IsCache, view, view-hit}
use os_project_signal.Fs.Cache.Write.{marked-IsCache, marked-view}
use os_project_signal.Fs.Cache.Update.{
  IsReadable, IsStored, bufcache_read-IsRead, bufcache_write-IsPut, released-IsStored,
}
use os_project_signal.Fs.Log.{Log, logsize, find_sector, log_write}
use os_project_signal.Fs.Log.Redo.{Home, redo}
use os_project_signal.Fs.Log.Reboot.{IsTrans}
use os_project_signal.Fs.Log.Changing.{IsChanging, find_sector-cases, redo-congr_at, redo-at}

log_write-chain :
    (l : Log) (c c1 c2 c3 : Cache) (b lbuf : ℕ)
    → (leb logsize l.n || leb (l.size - 1) l.n) ≡ false
    → l.busy ≡ true
    → let i = find_sector l.sector l.n (c.buf b).sector in
      let l1 : Log = record l { sector = update l.sector i (c.buf b).sector } in
      bufcache_read c (c.buf b).dev (l.start + i + 1) ≡ ok (lbuf, c1)
      → bufcache_write (set_bytes c1 lbuf (c1.buf b).bytes) lbuf ≡ ok c2
      → bufcache_release c2 lbuf ≡ ok c3
      → log_write l c b
        ≡ ok (
          (if i == l.n then record l1 { n = l.n + 1 } else l1),
          set_buf c3 b (record (c3.buf b) { dirty = true }),
        )
unfolding log_write
log_write-chain l c c1 c2 c3 b lbuf room busy e1 e2 e3 = rw (room, busy, e1, e2, e3) refl

-- log_write of buffer `b`: the sector is in the log, no home has changed, for the disk or
-- for a reader, and the buffer is dirty.
pub record IsLogged (l : Log) (c : Cache) (b : ℕ) (l' : Log) (c' : Cache) : Type 0 where
  pub trans : IsTrans l' c'
  pub same_log :
      (l'.start ≡ l.start)
      × (l'.size ≡ l.size)
      × (l'.dev ≡ l.dev)
      × (l'.busy ≡ l.busy)
      × (l'.n ≤ l.n + 1)
  pub named : (i : ℕ) × (i < l'.n) × (l'.sector i ≡ (c.buf b).sector)
  pub inv : IsCache c'
  pub buffer : c'.buf b ≡ record (c.buf b) { dirty = true }
  pub same_busy : (j : ℕ) → (c'.buf j).busy ≡ (c.buf j).busy
  pub clean : (j : ℕ) → j ≢ b → (c.buf j).dirty ≡ false → (c'.buf j).dirty ≡ false
  pub same_disk : (s : ℕ) → Home l s → c'.disk l.dev s ≡ c.disk l.dev s
  pub same_view : (s : ℕ) → Home l s → view c' l.dev s ≡ view c l.dev s

module _ (l : Log) (c : Cache) (b : ℕ) (t : IsChanging l c (c.buf b).sector) (v : IsCache c)
    (lt : b < nbuf) (busy : (c.buf b).busy ≡ true) (valid : (c.buf b).valid ≡ true)
    (dev : (c.buf b).dev ≡ l.dev) (home : Home l (c.buf b).sector)
    (word : (c.buf b).sector < 2 ^ 32) (roomy : l.n < logsize) (fits : l.n + 1 < l.size) where
  -- The log with `n'` sectors, the sector of the buffer in place `i`.
  module _ (i n' : ℕ) (i_lt : i < n') (n'_le : n' ≤ l.n + 1)
      (old : (k : ℕ) → k < n' → k ≢ i → (k < l.n) × (l.sector k ≢ (c.buf b).sector))
      (reused : i < l.n → l.sector i ≡ (c.buf b).sector)
      (skip : (logged base : ℕ → Block) (s : ℕ)
        → s ≢ (c.buf b).sector
        → redo l.start (update l.sector i (c.buf b).sector) logged base n' s
          ≡ redo l.start l.sector logged base l.n s)
      (c3 : Cache) (h : IsStored c l.dev (l.start + i + 1) (c.buf b).bytes c3) where
    abbrev appended : Log
    appended = record l { n = n'; sector = update l.sector i (c.buf b).sector }

    held : c3.buf b ≡ c.buf b
    held = h.in_use b busy

    still_valid : (c3.buf b).valid ≡ true
    still_valid = ap (λ (y : Buf). y.valid) held ∙ valid

    abbrev dirtied : Cache
    dirtied = set_buf c3 b (record (c3.buf b) { dirty = true })

    still_busy : (c3.buf b).busy ≡ true
    still_busy = ap (λ (y : Buf). y.busy) held ∙ busy

    dirtied-view : (s : ℕ) → view dirtied l.dev s ≡ view c3 l.dev s
    dirtied-view s = marked-view c3 h.kept b lt still_busy still_valid l.dev s t.placed.set

    log_apart : (s : ℕ) → Home l s → s ≢ l.start + i + 1
    log_apart s g e = omega arith

    same-view : (s : ℕ) → s ≢ l.start + i + 1 → view dirtied l.dev s ≡ view c l.dev s
    same-view s ne = dirtied-view s ∙ h.view_there l.dev s t.placed.set (λ (_, e). ne e)

    appended-homes :
        (k : ℕ)
        → k < n'
        → Home l (update l.sector i (c.buf b).sector k)
          × (update l.sector i (c.buf b).sector k < 2 ^ 32)
    appended-homes k p = elim (Bool-cases (i == k)) [
      | inl same ↦ rw same (home, word)
      | inr other ↦
          let below = (old k p (λ e. ground arith)).0 in
          rw other (t.placed.homes k below, t.words k below)
    ]

    appended-distinct :
        (k j : ℕ)
        → k < n'
        → j < n'
        → update l.sector i (c.buf b).sector k ≡ update l.sector i (c.buf b).sector j
        → k ≡ j
    appended-distinct k j p q e =
        let d = t.distinct k j in let o = old k p in let o' = old j q in ground arith

    seen : view c l.dev (c.buf b).sector ≡ (c.buf b).bytes
    seen = view-hit c v l.dev (c.buf b).sector b t.placed.set (lt, dev, refl) valid

    appended-here :
        redo l.start
          (update l.sector i (c.buf b).sector)
          (c3.disk l.dev)
          (c3.disk l.dev)
          n'
          (c.buf b).sector
        ≡ view c l.dev (c.buf b).sector
    appended-here =
        ap (redo l.start (update l.sector i (c.buf b).sector) (c3.disk l.dev) (c3.disk l.dev) n')
          (rw (==_refl i) refl)
        ∙ redo-at l.start (update l.sector i (c.buf b).sector) (c3.disk l.dev) (c3.disk l.dev) n' i
            appended-distinct i_lt
        ∙ h.disk_here
        ∙ sym seen

    appended-there :
        (s : ℕ)
        → Home l s
        → s ≢ (c.buf b).sector
        → redo l.start (update l.sector i (c.buf b).sector) (c3.disk l.dev) (c3.disk l.dev) n' s
          ≡ view c l.dev s
    appended-there s g ne =
        skip (c3.disk l.dev) (c3.disk l.dev) s ne
        ∙ redo-congr_at l.start l.sector l.sector (c3.disk l.dev) (c.disk l.dev) (c3.disk l.dev)
            (c.disk l.dev) l.n s (λ k p. refl)
            (λ k p e. h.disk_there l.dev (l.start + k + 1) (λ (_, e').
              let k_i : k ≡ i = omega arith in ne (sym e ∙ ap l.sector k_i ∙ reused (omega arith))))
            (h.disk_there l.dev s (λ (_, e). log_apart s g e))
        ∙ t.current s g ne

    -- What the extended log says of a home.
    appended-current :
        (s : ℕ)
        → Home l s
        → redo l.start (update l.sector i (c.buf b).sector) (c3.disk l.dev) (c3.disk l.dev) n' s
          ≡ view c l.dev s
    appended-current s g = elim (Bool-cases (s == (c.buf b).sector)) [
      | inl same ↦
          let e : s ≡ (c.buf b).sector = ground arith in
          subst
            (λ u.
              redo l.start (update l.sector i (c.buf b).sector) (c3.disk l.dev) (c3.disk l.dev) n' u
              ≡ view c l.dev u)
            (sym e) appended-here
      | inr other ↦ appended-there s g (λ e. ground arith)
    ]

    dirtied-flushed : (s : ℕ) → ¬ (Home l s) → view dirtied l.dev s ≡ c3.disk l.dev s
    dirtied-flushed s out = elim (Bool-cases (s == l.start + i + 1)) [
      | inl same ↦
          let e : s ≡ l.start + i + 1 = ground arith in
          dirtied-view s
          ∙ ap (view c3 l.dev) e
          ∙ h.view_here
          ∙ sym h.disk_here
          ∙ ap (c3.disk l.dev) (sym e)
      | inr other ↦
          let ne : s ≢ l.start + i + 1 = λ e. ground arith in
          same-view s ne ∙ t.flushed s out ∙ sym (h.disk_there l.dev s (λ (_, e). ne e))
    ]

    dirtied-buf : dirtied.buf b ≡ record (c.buf b) { dirty = true }
    dirtied-buf =
        let own : dirtied.buf b ≡ record (c3.buf b) { dirty = true } = rw (==_refl b) refl in
        own ∙ ap (λ (y : Buf). (let z : Buf = record y { dirty = true } in z)) held

    dirtied-busy : (j : ℕ) → (dirtied.buf j).busy ≡ (c.buf j).busy
    dirtied-busy j = let e = h.same_busy j in ground arith

    dirtied-clean : (j : ℕ) → j ≢ b → (c.buf j).dirty ≡ false → (dirtied.buf j).dirty ≡ false
    dirtied-clean j ne clean = let e = h.clean j clean in ground arith

    appended-IsLogged : IsLogged l c b appended dirtied
    appended-IsLogged = record {
      trans = record {
        placed = record {
          set = t.placed.set;
          fits = omega arith;
          small = omega arith;
          homes = λ k p. (appended-homes k p).0;
        };
        words = λ k p. (appended-homes k p).1;
        distinct = appended-distinct;
        uncommitted =
            ap (λ (y : Block). read_word y 0) (h.disk_there l.dev l.start (λ (_, e). omega arith))
            ∙ t.uncommitted;
        flushed = dirtied-flushed;
        current = λ s g. appended-current s g ∙ sym (same-view s (log_apart s g));
      };
      same_log = (refl, refl, refl, refl, n'_le);
      named = (i, i_lt, rw (==_refl i) refl);
      inv = marked-IsCache c3 h.kept b lt still_busy still_valid;
      buffer = dirtied-buf;
      same_busy = dirtied-busy;
      clean = dirtied-clean;
      same_disk = λ s g. h.disk_there l.dev s (λ (_, e). log_apart s g e);
      same_view = λ s g. same-view s (log_apart s g);
    }

  -- The block goes to the log.
  logged-IsStored :
      (i : ℕ)
      → IsReadable c l.dev (l.start + i + 1)
      → (lbuf : ℕ) × (c1 c2 c3 : Cache) × (bufcache_read c (c.buf b).dev (l.start + i + 1)
          ≡ ok (lbuf, c1))
        × (bufcache_write (set_bytes c1 lbuf (c1.buf b).bytes) lbuf ≡ ok c2)
        × (bufcache_release c2 lbuf ≡ ok c3)
        × IsStored c l.dev (l.start + i + 1) (c.buf b).bytes c3
  logged-IsStored i r =
      let (lbuf, c1, e1, h1) = bufcache_read-IsRead c l.dev (l.start + i + 1) r in
      let (c2, e2, h2) =
        bufcache_write-IsPut c l.dev (l.start + i + 1) lbuf c1 r.set h1 (c1.buf b).bytes in
      let (c3, e3, h3) =
        released-IsStored c l.dev (l.start + i + 1) lbuf (c1.buf b).bytes c2 r.set h2 in
      let same = h1.others b (λ e. let idle = h1.was_idle in cc) in
      (
        lbuf,
        c1,
        c2,
        c3,
        ap (λ d. bufcache_read c d (l.start + i + 1)) dev ∙ e1,
        e2,
        e3,
        subst (λ (y : Buf). IsStored c l.dev (l.start + i + 1) y.bytes c3) same h3,
      )

  skip-absorbed :
      (i : ℕ)
      → i < l.n
      → l.sector i ≡ (c.buf b).sector
      → (logged base : ℕ → Block) (s : ℕ)
      → redo l.start (update l.sector i (c.buf b).sector) logged base l.n s
        ≡ redo l.start l.sector logged base l.n s
  skip-absorbed i p e logged base s =
      redo-congr_at l.start (update l.sector i (c.buf b).sector) l.sector logged logged base base
        l.n s (λ k q. ground arith) (λ k q e'. refl) refl

  skip-appended :
      (logged base : ℕ → Block) (s : ℕ)
      → s ≢ (c.buf b).sector
      → redo l.start (update l.sector l.n (c.buf b).sector) logged base (l.n + 1) s
        ≡ redo l.start l.sector logged base l.n s
  unfolding redo
  skip-appended logged base s ne =
      let one : l.n + 1 ≡ suc l.n = omega arith in
      rw (one, ==_refl l.n, ==-false (c.buf b).sector s (λ e. ne (sym e)))
        (redo-congr_at l.start (update l.sector l.n (c.buf b).sector) l.sector logged logged base
          base l.n s (λ k q. ground arith) (λ k q e'. refl) refl)

  -- log_write of a changed block outside the log that the caller holds, with room in the log for
  -- one more sector, in a transaction, and with a free buffer for the log block, returns. The
  -- sector is in the log once, the log is the transaction again, the block is pinned in the cache,
  -- and neither the disk nor a reader sees a change outside the log.
  pub log_write-IsLogged :
      l.busy ≡ true
      → ((i : ℕ) → i ≤ l.n → IsReadable c l.dev (l.start + i + 1))
      → (l' : Log) × (c' : Cache) × (log_write l c b ≡ ok (l', c')) × IsLogged l c b l' c'
  log_write-IsLogged active readable =
      let s = (c.buf b).sector in
      let i = find_sector l.sector l.n s in
      let room : (leb logsize l.n || leb (l.size - 1) l.n) ≡ false = ground arith in
      elim (find_sector-cases l.sector l.n s) [
        | inl (below, same) ↦
            let (lbuf, c1, c2, c3, e1, e2, e3, h) = logged-IsStored i (readable i (omega arith)) in
            (
              _,
              _,
              log_write-chain l c c1 c2 c3 b lbuf room active e1 e2 e3
                  ∙ rw (==-false i l.n (omega arith)) refl,
              appended-IsLogged i l.n below (omega arith)
                  (λ k p ne. (p, λ e. ne (t.distinct k i p below (e ∙ sym same)))) (λ p. same)
                  (λ logged base u ne. skip-absorbed i below same logged base u) c3 h,
            )
        | inr (last, none) ↦
            let (lbuf, c1, c2, c3, e1, e2, e3, h) =
              logged-IsStored l.n (readable l.n (omega arith)) in
            (
              _,
              _,
              log_write-chain l c c1 c2 c3 b lbuf room active
                    (ap (λ k. bufcache_read c (c.buf b).dev (l.start + k + 1)) last ∙ e1) e2 e3
                  ∙ rw (last, ==_refl l.n) refl,
              appended-IsLogged l.n (l.n + 1) (omega arith) (omega arith)
                  (λ k p ne. (omega arith, none k (omega arith))) (λ p. absurd (omega arith))
                  skip-appended c3 h,
            )
      ]
