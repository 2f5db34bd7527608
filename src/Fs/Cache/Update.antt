-- ===== src/Fs/Cache/Update.antt =====
-- A client's use of the cache: bufcache_read, a change of the bytes, bufcache_write,
-- bufcache_release.
use os_project_signal.Prelude.{
  ℕ, ◌<◌, ◌≡◌, ◌≢◌, ◌⊎◌, inl, inr, refl, sym, ap, subst, ◌∙◌, true, false, ◌∷◌, arith, ◌==◌,
  Bool-cases, ==_refl, ==-false,
}
use os_project_signal.Fs.Result.{ok}
use os_project_signal.Fs.Cache.{
  Buf, Cache, Block, nbuf, set_bytes, bufcache_read, bufcache_write, bufcache_release,
}
use os_project_signal.Fs.Cache.Inv.{unset, IsCache, view, Caches, view-hit, view-miss, view-cases}
use os_project_signal.Fs.Cache.Open.{IsRead}
use os_project_signal.Fs.Cache.Read.{reads, waits, full, bufcache_read-ReadSpec}
use os_project_signal.Fs.Cache.Write.{
  IsWritten, set_bytes-IsCache, set_bytes-view, set_bytes-view_ne, bufcache_write-IsWritten,
  bufcache_release-IsReleased,
}

-- Some buffer is free for another sector, and nobody holds the sector.
pub record IsReadable (c : Cache) (dev sector : ℕ) : Type 0 where
  pub inv : IsCache c
  pub set : dev ≢ unset
  pub free : (b : ℕ) → Caches c b dev sector → (c.buf b).busy ≡ false
  pub room : (b : ℕ) × (b < nbuf) × ((c.buf b).busy ≡ false) × ((c.buf b).dirty ≡ false)

-- bufcache_read neither sleeps nor panics then.
pub bufcache_read-IsRead :
    (c : Cache) (dev sector : ℕ)
    → IsReadable c dev sector
    → (b : ℕ) × (c' : Cache) × (bufcache_read c dev sector ≡ ok (b, c')) × IsRead c dev sector b c'
bufcache_read-IsRead c dev sector r = elim (bufcache_read-ReadSpec c r.inv dev sector r.set) [
  | reads b c' e h ↦ (b, c', e, h)
  | waits b e h busy ↦ let f = r.free b h in absurd (ground arith)
  | full e none_holds dirty ↦
      let (b, lt, idle, clean) = r.room in let d = dirty b lt idle in absurd (ground arith)
]

module _ (c : Cache) (v : IsCache c) (dev sector b : ℕ) (c' : Cache) (set : dev ≢ unset)
    (h : IsRead c dev sector b c') where
  -- A buffer that held the sector before holds it still.
  read-same : (j : ℕ) → Caches c j dev sector → j ≡ b
  read-same j g = elim (Bool-cases (j == b)) [
    | inl same ↦ ground arith
    | inr other ↦
        let u = h.others j (λ e. ground arith) in
        h.kept.unique j b g.0 h.held.0 (ap (λ (y : Buf). y.dev) u ∙ g.1 ∙ sym h.held.1)
          (ap (λ (y : Buf). y.sector) u ∙ g.2 ∙ sym h.held.2)
          (λ n. set (sym g.1 ∙ ap (λ (y : Buf). y.dev) (sym u) ∙ n))
  ]

  read-on_disk : (c'.buf b).dirty ≡ false → view c dev sector ≡ c.disk dev sector
  read-on_disk clean = elim (view-cases c v dev sector set) [
    | inl (j, g, valid) ↦
        let e = read-same j g in
        let g' = subst (λ i. Caches c i dev sector) e g in
        let valid' = subst (λ i. (c.buf i).valid ≡ true) e valid in
        view-hit c v dev sector b set g' valid'
        ∙ v.coherent b g'.0 valid' (sym h.same_dirty ∙ clean) h.was_idle
        ∙ ap (λ d. c.disk d (c.buf b).sector) g'.1
        ∙ ap (λ s. c.disk dev s) g'.2
    | inr stale ↦ view-miss c v dev sector set stale
  ]

  -- The buffer that was read is dirty or as on the disk.
  pub read-closed : ((c'.buf b).dirty ≡ true) ⊎ ((c'.buf b).bytes ≡ c'.disk dev sector)
  read-closed = elim (Bool-cases (c'.buf b).dirty) [
    | inl dirty ↦ inl dirty
    | inr clean ↦ inr (h.seen ∙ read-on_disk clean ∙ ap (λ f. f dev sector) (sym h.same_disk))
  ]

-- Buffer `b` of `c'` holds the sector with the bytes `x`, which are on the disk; every other sector
-- is as in `c`.
pub record IsPut (c : Cache) (dev sector : ℕ) (x : Block) (b : ℕ) (c' : Cache) : Type 0 where
  pub held : Caches c' b dev sector
  pub busy : (c'.buf b).busy ≡ true
  pub was_idle : (c.buf b).busy ≡ false
  pub clean : (c'.buf b).dirty ≡ false
  pub bytes : (c'.buf b).bytes ≡ x
  pub same_busy : (j : ℕ) → j ≢ b → (c'.buf j).busy ≡ (c.buf j).busy
  pub in_use : (j : ℕ) → (c.buf j).busy ≡ true → c'.buf j ≡ c.buf j
  pub still_clean : (j : ℕ) → (c.buf j).dirty ≡ false → (c'.buf j).dirty ≡ false
  pub kept : IsCache c'
  pub disk_here : c'.disk dev sector ≡ x
  pub disk_there : (d s : ℕ) → ¬ ((d ≡ dev) × (s ≡ sector)) → c'.disk d s ≡ c.disk d s
  pub written : c'.written ≡ (dev, sector, x) ∷ c.written
  pub view_here : view c' dev sector ≡ x
  pub view_there : (d s : ℕ) → d ≢ unset → ¬ ((d ≡ dev) × (s ≡ sector)) → view c' d s ≡ view c d s

module _ (c : Cache) (dev sector b : ℕ) (c' : Cache) (set : dev ≢ unset)
    (h : IsRead c dev sector b c') (x : Block) where
  abbrev changed : Cache
  changed = set_bytes c' b x

  changed-buf : changed.buf b ≡ record (c'.buf b) { bytes = x }
  changed-buf = rw (==_refl b) refl

  changed-dev : (changed.buf b).dev ≡ dev
  changed-dev = ap (λ (y : Buf). y.dev) changed-buf ∙ h.held.1

  changed-sector : (changed.buf b).sector ≡ sector
  changed-sector = ap (λ (y : Buf). y.sector) changed-buf ∙ h.held.2

  changed-view : view changed dev sector ≡ x
  changed-view =
      ap (λ d. view changed d sector) (sym h.held.1)
      ∙ ap (λ s. view changed (c'.buf b).dev s) (sym h.held.2)
      ∙ set_bytes-view c' h.kept b h.held.0 h.busy x (λ u. set (sym h.held.1 ∙ u)) h.valid

  changed-view_ne :
      (d s : ℕ) → d ≢ unset → ¬ ((d ≡ dev) × (s ≡ sector)) → view changed d s ≡ view c d s
  changed-view_ne d s du ne =
      set_bytes-view_ne c' h.kept b h.held.0 h.busy x d s du
        (λ (e, e'). ne (e ∙ h.held.1, e' ∙ h.held.2))
      ∙ h.same_view d s du

  changed_write :
      (c2 : Cache) × (bufcache_write changed b ≡ ok c2)
      × IsWritten changed
          (set_bytes-IsCache c' h.kept b h.held.0 h.busy x)
          b
          h.held.0
          (ap (λ (y : Buf). y.busy) changed-buf ∙ h.busy)
          c2
  changed_write =
      bufcache_write-IsWritten changed (set_bytes-IsCache c' h.kept b h.held.0 h.busy x) b h.held.0
        (ap (λ (y : Buf). y.busy) changed-buf ∙ h.busy) (λ u. set (sym changed-dev ∙ u))
        (ap (λ (y : Buf). y.valid) changed-buf ∙ h.valid)

  pub bufcache_write-IsPut :
      (c2 : Cache) × (bufcache_write changed b ≡ ok c2) × IsPut c dev sector x b c2
  bufcache_write-IsPut =
      let (c2, e, w) = changed_write in
      let written_buf : c2.buf b ≡ record (c'.buf b) { dirty = false; bytes = x } =
        w.buffer ∙ ap (λ (y : Buf). (let z : Buf = record y { dirty = false } in z)) changed-buf in
      let others : (j : ℕ) → j ≢ b → c2.buf j ≡ c.buf j =
        λ j ne. w.others j ne ∙ rw (==-false b j (λ n. ne (sym n))) refl ∙ h.others j ne in
      (
        c2,
        e,
        record {
          held = (
            h.held.0,
            ap (λ (y : Buf). y.dev) written_buf ∙ h.held.1,
            ap (λ (y : Buf). y.sector) written_buf ∙ h.held.2,
          );
          busy = ap (λ (y : Buf). y.busy) written_buf ∙ h.busy;
          was_idle = h.was_idle;
          clean = ap (λ (y : Buf). y.dirty) written_buf;
          bytes = ap (λ (y : Buf). y.bytes) written_buf;
          same_busy = λ j ne. ap (λ (y : Buf). y.busy) (others j ne);
          in_use = λ j used. others j (λ e. let i = h.was_idle in cc);
          still_clean = λ j still. elim (Bool-cases (j == b)) [
            | inl own ↦
                let e : j ≡ b = ground arith in
                ap (λ i. (c2.buf i).dirty) e ∙ ap (λ (y : Buf). y.dirty) written_buf
            | inr other ↦ ap (λ (y : Buf). y.dirty) (others j (λ e. ground arith)) ∙ still
          ];
          kept = w.kept;
          disk_here =
              ap (λ d. c2.disk d sector) (sym changed-dev)
              ∙ ap (λ s. c2.disk (changed.buf b).dev s) (sym changed-sector)
              ∙ w.on_disk
              ∙ ap (λ (y : Buf). y.bytes) changed-buf;
          disk_there = λ d s ne.
              w.elsewhere d s (λ (e, e'). ne (e ∙ changed-dev, e' ∙ changed-sector))
              ∙ ap (λ f. f d s) h.same_disk;
          written =
              w.written
              ∙ ap (λ (y : Buf). (y.dev, y.sector, y.bytes) ∷ c'.written) changed-buf
              ∙ ap (λ d. (d, (c'.buf b).sector, x) ∷ c'.written) h.held.1
              ∙ ap (λ s. (dev, s, x) ∷ c'.written) h.held.2
              ∙ ap (λ ws. (dev, sector, x) ∷ ws) h.same_written;
          view_here = w.same_view dev sector set ∙ changed-view;
          view_there = λ d s du ne. w.same_view d s du ∙ changed-view_ne d s du ne;
        },
      )

-- The sector has the bytes `x`, on the disk and for every reader; nothing else has changed. The
-- buffers that are in use are the same, and no buffer is dirty that was not.
pub record IsStored (c : Cache) (dev sector : ℕ) (x : Block) (c' : Cache) : Type 0 where
  pub kept : IsCache c'
  pub same_busy : (j : ℕ) → (c'.buf j).busy ≡ (c.buf j).busy
  pub in_use : (j : ℕ) → (c.buf j).busy ≡ true → c'.buf j ≡ c.buf j
  pub clean : (j : ℕ) → (c.buf j).dirty ≡ false → (c'.buf j).dirty ≡ false
  pub disk_here : c'.disk dev sector ≡ x
  pub disk_there : (d s : ℕ) → ¬ ((d ≡ dev) × (s ≡ sector)) → c'.disk d s ≡ c.disk d s
  pub written : c'.written ≡ (dev, sector, x) ∷ c.written
  pub view_here : view c' dev sector ≡ x
  pub view_there : (d s : ℕ) → d ≢ unset → ¬ ((d ≡ dev) × (s ≡ sector)) → view c' d s ≡ view c d s

module _ (c : Cache) (dev sector b : ℕ) (x : Block) (c' : Cache) (set : dev ≢ unset)
    (h : IsPut c dev sector x b c') where
  -- bufcache_release after bufcache_write.
  pub released-IsStored :
      (c2 : Cache) × (bufcache_release c' b ≡ ok c2) × IsStored c dev sector x c2
  released-IsStored =
      let (c2, e, r) = bufcache_release-IsReleased c' h.kept b h.held.0 h.busy (
        inr (
          h.bytes
          ∙ sym h.disk_here
          ∙ ap (λ d. c'.disk d sector) (sym h.held.1)
          ∙ ap (λ s. c'.disk (c'.buf b).dev s) (sym h.held.2))) in
      (
        c2,
        e,
        record {
          kept = r.kept;
          same_busy = λ j. elim (Bool-cases (j == b)) [
            | inl own ↦
                let e : j ≡ b = ground arith in
                ap (λ i. (c2.buf i).busy) e
                ∙ ap (λ (y : Buf). y.busy) r.buffer
                ∙ sym h.was_idle
                ∙ ap (λ i. (c.buf i).busy) (sym e)
            | inr other ↦
                let ne : j ≢ b = λ e. ground arith in
                ap (λ (y : Buf). y.busy) (r.others j ne) ∙ h.same_busy j ne
          ];
          in_use = λ j busy. r.others j (λ e. let i = h.was_idle in cc) ∙ h.in_use j busy;
          clean = λ j clean. elim (Bool-cases (j == b)) [
            | inl own ↦
                let e : j ≡ b = ground arith in
                ap (λ i. (c2.buf i).dirty) e ∙ ap (λ (y : Buf). y.dirty) r.buffer ∙ h.clean
            | inr other ↦
                ap (λ (y : Buf). y.dirty) (r.others j (λ e. ground arith)) ∙ h.still_clean j clean
          ];
          disk_here = ap (λ f. f dev sector) r.same_disk ∙ h.disk_here;
          disk_there = λ d s ne. ap (λ f. f d s) r.same_disk ∙ h.disk_there d s ne;
          written = r.same_written ∙ h.written;
          view_here = r.same_view dev sector set ∙ h.view_here;
          view_there = λ d s du ne. r.same_view d s du ∙ h.view_there d s du ne;
        },
      )
