-- ===== src/Fs/Cache/Open.antt =====
-- A buffer that shows a sector and is in the caller's hands, as bufcache_read leaves it.
use os_project_signal.Prelude.{
  ℕ, ◌<◌, ◌≡◌, ◌≢◌, ◌⊎◌, inl, inr, refl, sym, ap, subst, ◌∙◌, true, false, ◌&&◌, arith, ◌==◌,
  Bool-cases, ==_refl, ==-false,
}
use os_project_signal.Fs.Cache.{Buf, Cache, nbuf, set_buf}
use os_project_signal.Fs.Cache.Inv.{unset, IsCache, view, Caches, view-hit, view-miss, view-cases}

-- Buffer `b` of `c'` is in the caller's hands and shows the sector as it is in `c`. What every
-- reader sees is as in `c`, and so are the disk and the other buffers.
pub record IsRead (c : Cache) (dev sector b : ℕ) (c' : Cache) : Type 0 where
  pub held : Caches c' b dev sector
  pub busy : (c'.buf b).busy ≡ true
  pub valid : (c'.buf b).valid ≡ true
  pub seen : (c'.buf b).bytes ≡ view c dev sector
  pub was_idle : (c.buf b).busy ≡ false
  pub same_dirty : (c'.buf b).dirty ≡ (c.buf b).dirty
  pub kept : IsCache c'
  pub same_view : (d s : ℕ) → d ≢ unset → view c' d s ≡ view c d s
  pub same_disk : c'.disk ≡ c.disk
  pub same_written : c'.written ≡ c.written
  pub others : (j : ℕ) → j ≢ b → c'.buf j ≡ c.buf j

module _ (c : Cache) (v : IsCache c) (dev sector b : ℕ) (x : Buf) (set : dev ≢ unset)
    (lt : b < nbuf) (idle : (c.buf b).busy ≡ false)
    (place : Caches c b dev sector
      ⊎ (((j : ℕ) → ¬ (Caches c j dev sector)) × ((c.buf b).dirty ≡ false)))
    (x_dev : x.dev ≡ dev) (x_sector : x.sector ≡ sector) (x_busy : x.busy ≡ true)
    (x_valid : x.valid ≡ true) (x_dirty : x.dirty ≡ (c.buf b).dirty)
    (x_bytes : x.bytes ≡ view c dev sector) where
  abbrev opened : Cache
  opened = set_buf c b x

  touched : opened.buf b ≡ x
  touched = rw (==_refl b) refl

  untouched : (j : ℕ) → j ≢ b → opened.buf j ≡ c.buf j
  untouched j ne = rw (==-false b j (λ e. ne (sym e))) refl

  -- Another buffer does not hold the sector.
  apart : (j : ℕ) → j ≢ b → ¬ (Caches c j dev sector)
  apart j ne h = elim place [
    | inl own ↦
        ne (v.unique j b h.0 lt (h.1 ∙ sym own.1) (h.2 ∙ sym own.2) (λ u. set (sym h.1 ∙ u)))
    | inr (none_holds, _) ↦ none_holds j h
  ]

  opened-IsCache : IsCache opened
  opened-IsCache = record {
    listed = v.listed;
    complete = v.complete;
    distinct = v.distinct;
    unique = λ i j p q e e' u.
        let f = apart i in let g = apart j in let w = v.unique i j p q in ground arith;
    dirty_valid = λ i p e. let d = v.dirty_valid i p in ground arith;
    coherent = λ i p e e' f. elim (Bool-cases (i == b)) [
      | inl same ↦ let i_b : i ≡ b = ground arith in ground arith
      | inr other ↦
          subst
            (λ (y : Buf).
              y.valid ≡ true → y.dirty ≡ false → y.busy ≡ false → y.bytes ≡ c.disk y.dev y.sector)
            (sym (untouched i (λ n. ground arith))) (v.coherent i p) e e' f
    ];
  }

  opened-Caches : Caches opened b dev sector
  opened-Caches =
      (lt, ap (λ (y : Buf). y.dev) touched ∙ x_dev, ap (λ (y : Buf). y.sector) touched ∙ x_sector)

  opened-view : view opened dev sector ≡ view c dev sector
  opened-view =
      view-hit opened opened-IsCache dev sector b set opened-Caches
        (ap (λ (y : Buf). y.valid) touched ∙ x_valid)
      ∙ ap (λ (y : Buf). y.bytes) touched
      ∙ x_bytes

  -- A buffer that holds another sector than the one that was asked for.
  other-Caches :
      (d s j : ℕ) → ¬ ((d ≡ dev) × (s ≡ sector)) → Caches opened j d s → (j ≢ b) × Caches c j d s
  other-Caches d s j ne h =
      let away : j ≢ b = λ e. ne (
        sym (subst (λ i. (opened.buf i).dev ≡ d) e h.1) ∙ opened-Caches.1,
        sym (subst (λ i. (opened.buf i).sector ≡ s) e h.2) ∙ opened-Caches.2,
      ) in
      (
        away,
        (
          h.0,
          ap (λ (y : Buf). y.dev) (sym (untouched j away)) ∙ h.1,
          ap (λ (y : Buf). y.sector) (sym (untouched j away)) ∙ h.2,
        ),
      )

  -- The sector that the buffer held before is on the disk.
  recycled-view :
      (d s : ℕ)
      → d ≢ unset
      → ¬ ((d ≡ dev) × (s ≡ sector))
      → Caches c b d s
      → (c.buf b).valid ≡ true
      → view opened d s ≡ view c d s
  recycled-view d s du ne h valid = elim place [
    | inl own ↦ absurd (ne (sym h.1 ∙ own.1, sym h.2 ∙ own.2))
    | inr (_, clean) ↦
        view-miss opened opened-IsCache d s du (λ i h'.
          let (away, g) = other-Caches d s i ne h' in
          absurd
            (away (v.unique i b g.0 lt (g.1 ∙ sym h.1) (g.2 ∙ sym h.2) (λ u. du (sym g.1 ∙ u)))))
        ∙ sym (ap (λ d'. c.disk d' s) h.1)
        ∙ sym (ap (λ s'. c.disk (c.buf b).dev s') h.2)
        ∙ sym (v.coherent b lt valid clean idle)
        ∙ sym (view-hit c v d s b du h valid)
  ]

  opened-view_ne :
      (d s : ℕ) → d ≢ unset → ¬ ((d ≡ dev) × (s ≡ sector)) → view opened d s ≡ view c d s
  opened-view_ne d s du ne = elim (view-cases c v d s du) [
    | inl (j, h, valid) ↦ elim (Bool-cases (j == b)) [
      | inl same ↦
          let e : j ≡ b = ground arith in
          recycled-view d s du ne (subst (λ i. Caches c i d s) e h)
            (subst (λ i. (c.buf i).valid ≡ true) e valid)
      | inr other ↦
          let away : j ≢ b = λ e. ground arith in
          let u = untouched j away in
          view-hit opened opened-IsCache d s j du
            (h.0, ap (λ (y : Buf). y.dev) u ∙ h.1, ap (λ (y : Buf). y.sector) u ∙ h.2)
            (ap (λ (y : Buf). y.valid) u ∙ valid)
          ∙ ap (λ (y : Buf). y.bytes) u
          ∙ sym (view-hit c v d s j du h valid)
    ]
    | inr none_valid ↦
        view-miss opened opened-IsCache d s du (λ j h.
          let (away, h') = other-Caches d s j ne h in
          ap (λ (y : Buf). y.valid) (untouched j away) ∙ none_valid j h')
        ∙ sym (view-miss c v d s du none_valid)
  ]

  pub opened-IsRead : IsRead c dev sector b opened
  opened-IsRead = record {
    held = opened-Caches;
    busy = ap (λ (y : Buf). y.busy) touched ∙ x_busy;
    valid = ap (λ (y : Buf). y.valid) touched ∙ x_valid;
    seen = ap (λ (y : Buf). y.bytes) touched ∙ x_bytes;
    was_idle = idle;
    same_dirty = ap (λ (y : Buf). y.dirty) touched ∙ x_dirty;
    kept = opened-IsCache;
    same_view = λ d s du. elim (Bool-cases ((d == dev) && (s == sector))) [
      | inl same ↦
          let ed : d ≡ dev = ground arith in
          let es : s ≡ sector = ground arith in rw (ed, es) opened-view
      | inr other ↦ opened-view_ne d s du (λ (e, e'). ground arith)
    ];
    same_disk = refl;
    same_written = refl;
    others = untouched;
  }
