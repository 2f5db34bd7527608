-- ===== src/Fs/Cache/Write.antt =====
-- What the holder of a buffer does to it: a change of its bytes, bufcache_write, and
-- bufcache_release.
use os_project_signal.Prelude.{
  ℕ, ◌<◌, ◌≡◌, ◌≢◌, ◌⊎◌, inl, inr, refl, sym, ap, fun_ext, ◌∙◌, true, false, ◌&&◌, ◌∷◌, arith, ◌==◌,
  update, erase, mem, Bool-cases, ==_refl, ==-false, mem-erase, Distinct-erase,
}
use os_project_signal.Fs.Result.{Result, ok}
use os_project_signal.Fs.Cache.{
  Buf, Cache, Block, nbuf, set_buf, set_bytes, ide_rw, bufcache_write, bufcache_release,
}
use os_project_signal.Fs.Cache.Inv.{unset, IsCache, view, Caches, view-hit, view-miss, view-cases}

-- The buffers hold the same sectors, valid or not.
pub record SameTags (c c' : Cache) : Type 0 where
  pub dev : (j : ℕ) → (c'.buf j).dev ≡ (c.buf j).dev
  pub sector : (j : ℕ) → (c'.buf j).sector ≡ (c.buf j).sector
  pub valid : (j : ℕ) → (c'.buf j).valid ≡ (c.buf j).valid

-- An idle buffer with valid and clean bytes is as on the disk.
abbrev Coherent : (ℕ → ℕ → Block) → Buf → Type 0
Coherent disk x = x.valid ≡ true → x.dirty ≡ false → x.busy ≡ false → x.bytes ≡ disk x.dev x.sector

Coherent-update :
    (disk : ℕ → ℕ → Block) (buf : ℕ → Buf) (b i : ℕ) (x : Buf)
    → Coherent disk x
    → (i ≢ b → Coherent disk (buf i))
    → Coherent disk (update buf b x i)
Coherent-update disk buf b i x own other = elim (Bool-cases (b == i)) [
  | inl same ↦ rw same own
  | inr apart ↦ rw apart (other (λ e. ground arith))
]

module _ (c c' : Cache) (v : IsCache c) (v' : IsCache c') (t : SameTags c c') (d s : ℕ)
    (set : d ≢ unset) where
  pub view-transfer :
      ((j : ℕ) → Caches c j d s → (c.buf j).valid ≡ true → (c'.buf j).bytes ≡ (c.buf j).bytes)
      → (((j : ℕ) → Caches c j d s → (c.buf j).valid ≡ false) → c'.disk d s ≡ c.disk d s)
      → view c' d s ≡ view c d s
  view-transfer same_bytes same_disk = elim (view-cases c v d s set) [
    | inl (j, h, valid) ↦
        view-hit c' v' d s j set (h.0, t.dev j ∙ h.1, t.sector j ∙ h.2) (t.valid j ∙ valid)
        ∙ same_bytes j h valid
        ∙ sym (view-hit c v d s j set h valid)
    | inr stale ↦
        view-miss c' v' d s set
          (λ j h. t.valid j ∙ stale j (h.0, sym (t.dev j) ∙ h.1, sym (t.sector j) ∙ h.2))
        ∙ same_disk stale
        ∙ sym (view-miss c v d s set stale)
  ]

module _ (c : Cache) (v : IsCache c) (b : ℕ) (lt : b < nbuf) (busy : (c.buf b).busy ≡ true) where
  pub set_bytes-IsCache : (bytes : Block) → IsCache (set_bytes c b bytes)
  set_bytes-IsCache bytes = record {
    listed = v.listed;
    complete = v.complete;
    distinct = v.distinct;
    unique = λ i j p q e e' u. let w = v.unique i j p q in ground arith;
    dirty_valid = λ i p e. let d = v.dirty_valid i p in ground arith;
    coherent = λ i p.
        Coherent-update c.disk c.buf b i (record (c.buf b) { bytes = bytes }) (λ e e' f. cc)
          (λ ne. v.coherent i p);
  }

  -- bufcache_write of a valid buffer puts its bytes on the disk.
  pub record IsWritten (c' : Cache) : Type 0 where
    pub buffer : c'.buf b ≡ record (c.buf b) { dirty = false }
    pub others : (j : ℕ) → j ≢ b → c'.buf j ≡ c.buf j
    pub on_disk : c'.disk (c.buf b).dev (c.buf b).sector ≡ (c.buf b).bytes
    pub elsewhere :
        (d s : ℕ) → ¬ ((d ≡ (c.buf b).dev) × (s ≡ (c.buf b).sector)) → c'.disk d s ≡ c.disk d s
    pub written : c'.written ≡ ((c.buf b).dev, (c.buf b).sector, (c.buf b).bytes) ∷ c.written
    pub kept : IsCache c'
    pub same_view : (d s : ℕ) → d ≢ unset → view c' d s ≡ view c d s

  -- bufcache_release of a buffer that is dirty or as on the disk.
  pub record IsReleased (c' : Cache) : Type 0 where
    pub buffer : c'.buf b ≡ record (c.buf b) { busy = false }
    pub others : (j : ℕ) → j ≢ b → c'.buf j ≡ c.buf j
    pub same_disk : c'.disk ≡ c.disk
    pub same_written : c'.written ≡ c.written
    pub kept : IsCache c'
    pub same_view : (d s : ℕ) → d ≢ unset → view c' d s ≡ view c d s
    pub first : c'.order ≡ b ∷ erase b c.order

  -- What the sector of the buffer shows after a change of its bytes, and the others.
  pub set_bytes-view :
      (bytes : Block)
      → (c.buf b).dev ≢ unset
      → (c.buf b).valid ≡ true
      → view (set_bytes c b bytes) (c.buf b).dev (c.buf b).sector ≡ bytes
  set_bytes-view bytes set valid =
      view-hit (set_bytes c b bytes) (set_bytes-IsCache bytes) (c.buf b).dev (c.buf b).sector b set
        (rw (==_refl b) (lt, refl, refl)) (rw (==_refl b) valid)
      ∙ rw (==_refl b) refl

  set_bytes-SameTags : (bytes : Block) → SameTags c (set_bytes c b bytes)
  set_bytes-SameTags bytes = record {
    dev = λ j. ground arith;
    sector = λ j. ground arith;
    valid = λ j. ground arith;
  }

  pub set_bytes-view_ne :
      (bytes : Block) (d s : ℕ)
      → d ≢ unset
      → ¬ ((d ≡ (c.buf b).dev) × (s ≡ (c.buf b).sector))
      → view (set_bytes c b bytes) d s ≡ view c d s
  set_bytes-view_ne bytes d s set ne =
      view-transfer c (set_bytes c b bytes) v (set_bytes-IsCache bytes) (set_bytes-SameTags bytes) d
        s set
        (λ j h valid.
          let away : (b == j) ≡ false = ==-false b j (λ e. ne (
            sym h.1 ∙ ap (λ i. (c.buf i).dev) (sym e),
            sym h.2 ∙ ap (λ i. (c.buf i).sector) (sym e),
          )) in
          rw away refl)
        (λ stale. refl)

  -- A valid buffer that is set dirty.
  abbrev pub marked : Cache
  marked = set_buf c b (record (c.buf b) { dirty = true })

  pub marked-IsCache : (c.buf b).valid ≡ true → IsCache marked
  marked-IsCache valid = record {
    listed = v.listed;
    complete = v.complete;
    distinct = v.distinct;
    unique = λ i j p q e e' u. let w = v.unique i j p q in ground arith;
    dirty_valid = λ i p e. let d = v.dirty_valid i p in ground arith;
    coherent = λ i p.
        Coherent-update c.disk c.buf b i (record (c.buf b) { dirty = true }) (λ e e' f. cc)
          (λ ne. v.coherent i p);
  }

  pub marked-view : (c.buf b).valid ≡ true → (d s : ℕ) → d ≢ unset → view marked d s ≡ view c d s
  marked-view valid d s set =
      view-transfer c marked v (marked-IsCache valid)
        (record { dev = λ j. ground arith; sector = λ j. ground arith; valid = λ j. ground arith })
        d s set (λ j h valid'. ground arith) (λ stale. refl)

  abbrev stored : Cache
  stored = record c {
    buf = update c.buf b (record (c.buf b) { dirty = false });
    disk =
        update c.disk (c.buf b).dev
          (update (c.disk (c.buf b).dev) (c.buf b).sector (c.buf b).bytes);
    written = ((c.buf b).dev, (c.buf b).sector, (c.buf b).bytes) ∷ c.written;
  }

  stored-elsewhere :
      (d s : ℕ) → ¬ ((d ≡ (c.buf b).dev) × (s ≡ (c.buf b).sector)) → stored.disk d s ≡ c.disk d s
  stored-elsewhere d s ne = elim (Bool-cases (((c.buf b).dev == d) && ((c.buf b).sector == s))) [
    | inl same ↦ absurd (ne (ground arith))
    | inr other ↦ ground arith
  ]

  module _ (set : (c.buf b).dev ≢ unset) (valid : (c.buf b).valid ≡ true) where
    stored-IsCache : IsCache stored
    stored-IsCache = record {
      listed = v.listed;
      complete = v.complete;
      distinct = v.distinct;
      unique = λ i j p q e e' u. let w = v.unique i j p q in ground arith;
      dirty_valid = λ i p e. let d = v.dirty_valid i p in ground arith;
      coherent = λ i p.
          Coherent-update stored.disk c.buf b i (record (c.buf b) { dirty = false }) (λ e e' f. cc)
            (λ ne e e' f.
              v.coherent i p e e' f
              ∙ sym (
                  stored-elsewhere (c.buf i).dev (c.buf i).sector
                    (λ (ed, es). ne (v.unique i b p lt ed es (λ u. set (sym ed ∙ u))))));
    }

    stored-view : (d s : ℕ) → d ≢ unset → view stored d s ≡ view c d s
    stored-view d s du =
        view-transfer c stored v stored-IsCache
          (record {
            dev = λ j. ground arith;
            sector = λ j. ground arith;
            valid = λ j. ground arith;
          })
          d s du (λ j h valid'. ground arith)
          (λ stale. stored-elsewhere d s (λ (ed, es). let x = stale b (lt, sym ed, sym es) in cc))

    ide_rw-marked :
        ide_rw marked b
        ≡ ok (record stored {
          buf = update marked.buf b (record (c.buf b) { valid = true; dirty = false });
        })
    unfolding ide_rw
    ide_rw-marked = rw (==_refl b, busy, valid) refl

    bufcache_write-marked : bufcache_write c b ≡ ide_rw marked b
    unfolding bufcache_write
    bufcache_write-marked = rw busy refl

    marked-stored :
        update marked.buf b (record (c.buf b) { valid = true; dirty = false }) ≡ stored.buf
    marked-stored = fun_ext λ j. ground arith

    -- bufcache_write of a valid buffer that its caller holds returns: the bytes are on the disk,
    -- as one more write, the rest of the disk and the other buffers are as before, the buffer is
    -- not dirty, and no reader of any sector sees a change.
    pub bufcache_write-IsWritten : (c' : Cache) × (bufcache_write c b ≡ ok c') × IsWritten c'
    bufcache_write-IsWritten = (
      stored,
      bufcache_write-marked
          ∙ ide_rw-marked
          ∙ ap (λ f. (let r : Result Cache = ok (record stored { buf = f }) in r)) marked-stored,
      record {
        buffer = rw (==_refl b) refl;
        others = λ j ne. rw (==-false b j (λ e. ne (sym e))) refl;
        on_disk = rw (==_refl (c.buf b).dev, ==_refl (c.buf b).sector) refl;
        elsewhere = stored-elsewhere;
        written = refl;
        kept = stored-IsCache;
        same_view = stored-view;
      },
    )

  module _
      (closed : (c.buf b).dirty ≡ true
        ⊎ ((c.buf b).bytes ≡ c.disk (c.buf b).dev (c.buf b).sector)) where
    abbrev released : Cache
    released = record c {
      buf = update c.buf b (record (c.buf b) { busy = false });
      order = b ∷ erase b c.order;
    }

    released-mem : (j : ℕ) → mem j released.order ≡ mem j c.order
    released-mem j = let a = v.complete b lt in ground (arith, mem-erase j b c.order v.distinct)

    released-IsCache : IsCache released
    released-IsCache = record {
      listed = λ j m. v.listed j (sym (released-mem j) ∙ m);
      complete = λ j p. released-mem j ∙ v.complete j p;
      distinct = (
        mem-erase b b c.order v.distinct ∙ rw (==_refl b) refl,
        Distinct-erase b c.order v.distinct,
      );
      unique = λ i j p q e e' u. let w = v.unique i j p q in ground arith;
      dirty_valid = λ i p e. let d = v.dirty_valid i p in ground arith;
      coherent = λ i p.
          Coherent-update c.disk c.buf b i (record (c.buf b) { busy = false })
            (λ e e' f. elim closed [ inl dirty ↦ cc | inr same ↦ same ]) (λ ne. v.coherent i p);
    }

    -- bufcache_release of a buffer that its caller holds and that is dirty or as on the disk: the
    -- buffer is free and the first of the list, the invariant is kept, and no reader sees a change.
    pub bufcache_release-IsReleased : (c' : Cache) × (bufcache_release c b ≡ ok c') × IsReleased c'
    unfolding bufcache_release
    bufcache_release-IsReleased = (
      released,
      rw busy refl,
      record {
        buffer = rw (==_refl b) refl;
        others = λ j ne. rw (==-false b j (λ e. ne (sym e))) refl;
        same_disk = refl;
        same_written = refl;
        kept = released-IsCache;
        same_view = λ d s du.
            view-transfer c released v released-IsCache
              (record {
                dev = λ j. ground arith;
                sector = λ j. ground arith;
                valid = λ j. ground arith;
              })
              d s du (λ j h valid'. ground arith) (λ stale. refl);
        first = refl;
      },
    )
