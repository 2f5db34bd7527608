-- ===== src/Fs/Log/Update.antt =====
-- A change of a sector in a transaction: bufcache_read, a change of the bytes, log_write,
-- bufcache_release.
use os_project_signal.Prelude.{
  ℕ, ◌+◌, ◌^◌, ◌≤◌, ◌<◌, ◌≡◌, ◌≢◌, inl, inr, refl, sym, ap, subst, ◌∙◌, Bool, true, false, List,
  ◌∷◌, arith, ◌==◌, if◌then◌else◌, mem, erase, Distinct, mem-erase, Distinct-erase, Bool-cases,
  ==_refl, ==-false,
}
use os_project_signal.Vmm.Phys.{read_word}
use os_project_signal.Fs.Result.{Result, ok, ◌>>=◌}
use os_project_signal.Fs.Cache.{Cache, Block, Buf, nbuf, set_bytes, bufcache_read, bufcache_release}
use os_project_signal.Fs.Cache.Inv.{IsCache, view}
use os_project_signal.Fs.Cache.Open.{IsRead}
use os_project_signal.Fs.Cache.Write.{
  IsReleased, set_bytes-IsCache, set_bytes-view, set_bytes-view_ne, bufcache_release-IsReleased,
}
use os_project_signal.Fs.Cache.Update.{IsReadable, bufcache_read-IsRead}
use os_project_signal.Fs.Log.{Log, logsize, log_write}
use os_project_signal.Fs.Cache.Copy.{IsCalm}
use os_project_signal.Fs.Log.Recover.{IsLooked}
use os_project_signal.Fs.Log.Redo.{Home, redo}
use os_project_signal.Fs.Log.Reboot.{IsTrans}
use os_project_signal.Fs.Log.Changing.{IsChanging, set_bytes-IsChanging}
use os_project_signal.Fs.Log.Append.{IsLogged, log_write-IsLogged}

-- What block_zero does with the sector.
abbrev pub logged_change : Log → Cache → ℕ → ℕ → (Block → Block) → Result (Log × Cache)
logged_change l c dev sector f = do
  (b, c) ← bufcache_read c dev sector
  let c = set_bytes c b (f (c.buf b).bytes)
  (l, c) ← log_write l c b
  c ← bufcache_release c b
  ok (l, c)

-- Nobody uses a buffer, and the buffers `spare` are not dirty.
pub record HasSpare (c : Cache) (spare : List ℕ) : Type 0 where
  pub inv : IsCache c
  pub idle : (j : ℕ) → (c.buf j).busy ≡ false
  pub distinct : Distinct spare
  pub clean : (j : ℕ) → mem j spare ≡ true → (j < nbuf) × ((c.buf j).dirty ≡ false)

pub spare-IsCalm : (c : Cache) (a a' : ℕ) (more : List ℕ) → HasSpare c (a ∷ a' ∷ more) → IsCalm c
spare-IsCalm c a a' more q =
    let d = q.distinct in
    let (lt, clean) = q.clean a (ground arith) in
    let (lt', clean') = q.clean a' (ground arith) in
    record {
      inv = q.inv;
      idle = q.idle;
      spare = (a, a', (λ e. ground arith), lt, lt', clean, clean');
    }

-- What was only looked at.
pub looked-HasSpare :
    (c c' : Cache) (spare : List ℕ) → HasSpare c spare → IsLooked c c' → HasSpare c' spare
looked-HasSpare c c' spare q h = record {
  inv = h.calm.inv;
  idle = h.calm.idle;
  distinct = q.distinct;
  clean = λ j m. let (lt, clean) = q.clean j m in (lt, h.same_dirty j ∙ clean);
}

-- A sector outside the log has a new contents, for readers and in the log, and nothing else has
-- changed outside the log.
pub record IsChanged (l : Log) (c : Cache) (sector : ℕ) (x : Block) (l' : Log) (c' : Cache)
    : Type 0 where
  pub trans : IsTrans l' c'
  pub same_log :
      (l'.start ≡ l.start)
      × (l'.size ≡ l.size)
      × (l'.dev ≡ l.dev)
      × (l'.busy ≡ l.busy)
      × (l'.n ≤ l.n + 1)
  pub here : view c' l.dev sector ≡ x
  pub there : (s : ℕ) → Home l s → s ≢ sector → view c' l.dev s ≡ view c l.dev s
  pub same_disk : (s : ℕ) → Home l s → c'.disk l.dev s ≡ c.disk l.dev s

-- A transaction is a matter of what is on the disk and what readers see.
pub IsTrans-transfer :
    (l : Log) (c c' : Cache)
    → IsTrans l c
    → c'.disk ≡ c.disk
    → ((s : ℕ) → view c' l.dev s ≡ view c l.dev s)
    → IsTrans l c'
IsTrans-transfer l c c' t e same = record {
  placed = t.placed;
  words = t.words;
  distinct = t.distinct;
  uncommitted = ap (λ d. read_word (d l.dev l.start) 0) e ∙ t.uncommitted;
  flushed = λ s out. same s ∙ t.flushed s out ∙ ap (λ d. d l.dev s) (sym e);
  current = λ s home.
      ap (λ d. redo l.start l.sector (d l.dev) (d l.dev) l.n s) e ∙ t.current s home ∙ sym (same s);
}

kept_of_erase : (j b : ℕ) (m : Bool) → (if j == b then false else m) ≡ true → (j ≢ b) × (m ≡ true)
kept_of_erase j b m e = ground arith

module _ (l : Log) (c : Cache) (t : IsTrans l c) (a a' : ℕ) (more : List ℕ)
    (q : HasSpare c (a ∷ a' ∷ more)) (sector : ℕ) (home : Home l sector)
    (word : sector < 2 ^ 32) where
  pub first-IsReadable : IsReadable c l.dev sector
  first-IsReadable = record {
    inv = q.inv;
    set = t.placed.set;
    free = λ b h. q.idle b;
    room = let (lt, clean) = q.clean a (ground arith) in (a, lt, q.idle a, clean);
  }

  module _ (b : ℕ) (c1 : Cache) (h : IsRead c l.dev sector b c1) (x : Block) where
    abbrev pub given : Cache
    given = set_bytes c1 b x

    given-buf : given.buf b ≡ record (c1.buf b) { bytes = x }
    given-buf = rw (==_refl b) refl

    given-other : (j : ℕ) → j ≢ b → given.buf j ≡ c.buf j
    given-other j ne = rw (==-false b j (λ e. ne (sym e))) (h.others j ne)

    read-IsTrans : IsTrans l c1
    read-IsTrans = IsTrans-transfer l c c1 t h.same_disk (λ s. h.same_view l.dev s t.placed.set)

    spared :
        (k : ℕ)
        → mem k (a ∷ a' ∷ more) ≡ true
        → k ≢ b
        → (j : ℕ) × (j < nbuf) × ((given.buf j).busy ≡ false) × ((given.buf j).dirty ≡ false)
    spared k m ne =
        let u = given-other k ne in
        let (lt, clean) = q.clean k m in
        (k, lt, ap (λ (y : Buf). y.busy) u ∙ q.idle k, ap (λ (y : Buf). y.dirty) u ∙ clean)

    log-IsReadable : l.n + 1 < l.size → (i : ℕ) → i ≤ l.n → IsReadable given l.dev (l.start + i + 1)
    log-IsReadable room i le = record {
      inv = set_bytes-IsCache c1 h.kept b h.held.0 h.busy x;
      set = t.placed.set;
      free = λ j g. elim (Bool-cases (j == b)) [
        | inl own ↦
            let e : j ≡ b = ground arith in
            let here : l.start + i + 1 ≡ sector =
              sym g.2
              ∙ ap (λ k. (given.buf k).sector) e
              ∙ ap (λ (y : Buf). y.sector) given-buf
              ∙ h.held.2 in
            absurd (omega arith)
        | inr other ↦ ap (λ (y : Buf). y.busy) (given-other j (λ e. ground arith)) ∙ q.idle j
      ];
      room = elim (Bool-cases (a == b)) [
        | inl own ↦
            let e : a ≡ b = ground arith in
            let d = q.distinct in spared a' (ground arith) (λ e'. ground arith)
        | inr other ↦ spared a (ground arith) (λ e. ground arith)
      ];
    }

    given-IsChanging : IsChanging l given sector
    given-IsChanging = subst (IsChanging l given) h.held.2 (
        set_bytes-IsChanging l c1 b x read-IsTrans h.kept h.held.0 h.busy h.held.1
          (subst (Home l) (sym h.held.2) home))

    pub given-IsLogged :
        l.busy ≡ true
        → l.n < logsize
        → l.n + 1 < l.size
        → (l' : Log) × (c2 : Cache) × (log_write l given b ≡ ok (l', c2)) × IsLogged l given b l' c2
    given-IsLogged active roomy fits =
        let place : (given.buf b).sector ≡ sector =
          ap (λ (y : Buf). y.sector) given-buf ∙ h.held.2 in
        log_write-IsLogged l given b (subst (IsChanging l given) (sym place) given-IsChanging)
          (set_bytes-IsCache c1 h.kept b h.held.0 h.busy x) h.held.0
          (ap (λ (y : Buf). y.busy) given-buf ∙ h.busy)
          (ap (λ (y : Buf). y.valid) given-buf ∙ h.valid)
          (ap (λ (y : Buf). y.dev) given-buf ∙ h.held.1) (subst (Home l) (sym place) home)
          (subst (λ s. s < 2 ^ 32) (sym place) word) roomy fits active (log-IsReadable fits)

    module _ (l' : Log) (c2 : Cache) (g : IsLogged l given b l' c2) where
      pub logged-buf : c2.buf b ≡ record (c1.buf b) { dirty = true; bytes = x }
      logged-buf =
          g.buffer ∙ ap (λ (y : Buf). (let z : Buf = record y { dirty = true } in z)) given-buf

      pub logged-IsReleased :
          (c3 : Cache) × (bufcache_release c2 b ≡ ok c3)
          × IsReleased c2 g.inv b h.held.0 (ap (λ (y : Buf). y.busy) logged-buf ∙ h.busy) c3
      logged-IsReleased =
          bufcache_release-IsReleased c2 g.inv b h.held.0
            (ap (λ (y : Buf). y.busy) logged-buf ∙ h.busy)
            (inl (ap (λ (y : Buf). y.dirty) logged-buf))

      module _ (c3 : Cache)
          (r : IsReleased c2 g.inv b h.held.0
            (ap (λ (y : Buf). y.busy) logged-buf ∙ h.busy)
            c3) where
        pub last-HasSpare : HasSpare c3 (erase b (a ∷ a' ∷ more))
        last-HasSpare = record {
          inv = r.kept;
          idle = λ j. elim (Bool-cases (j == b)) [
            | inl own ↦
                let e : j ≡ b = ground arith in
                ap (λ k. (c3.buf k).busy) e ∙ ap (λ (y : Buf). y.busy) r.buffer
            | inr other ↦
                let ne : j ≢ b = λ e. ground arith in
                ap (λ (y : Buf). y.busy) (r.others j ne)
                ∙ g.same_busy j
                ∙ ap (λ (y : Buf). y.busy) (given-other j ne)
                ∙ q.idle j
          ];
          distinct = Distinct-erase b (a ∷ a' ∷ more) q.distinct;
          clean = λ j m.
              let whole = mem-erase j b (a ∷ a' ∷ more) q.distinct in
              let (ne, m') = kept_of_erase j b (mem j (a ∷ a' ∷ more)) (sym whole ∙ m) in
              let (lt, clean) = q.clean j m' in
              (
                lt,
                ap (λ (y : Buf). y.dirty) (r.others j ne)
                    ∙ g.clean j ne (ap (λ (y : Buf). y.dirty) (given-other j ne) ∙ clean),
              );
        }

        last-view : (s : ℕ) → Home l s → view c3 l.dev s ≡ view given l.dev s
        last-view s at_home = r.same_view l.dev s t.placed.set ∙ g.same_view s at_home

        pub last-IsChanged : IsChanged l c sector x l' c3
        last-IsChanged = record {
          trans =
              IsTrans-transfer l' c2 c3 g.trans r.same_disk
                (λ s. r.same_view l'.dev s g.trans.placed.set);
          same_log = g.same_log;
          here =
              last-view sector home
              ∙ ap (λ d. view given d sector) (sym h.held.1)
              ∙ ap (λ s. view given (c1.buf b).dev s) (sym h.held.2)
              ∙ set_bytes-view c1 h.kept b h.held.0 h.busy x (λ u. t.placed.set (sym h.held.1 ∙ u))
                  h.valid;
          there = λ s at_home ne.
              last-view s at_home
              ∙ set_bytes-view_ne c1 h.kept b h.held.0 h.busy x l.dev s t.placed.set
                  (λ (_, e). ne (e ∙ h.held.2))
              ∙ h.same_view l.dev s t.placed.set;
          same_disk = λ s at_home.
              ap (λ d. d l.dev s) r.same_disk
              ∙ g.same_disk s at_home
              ∙ ap (λ d. d l.dev s) h.same_disk;
        }

  -- A transaction changes a sector outside the log: the change returns, and afterwards the log is
  -- the transaction, readers see the new bytes in the sector and no change elsewhere outside the
  -- log, and at most one buffer more is dirty. There is room in the log, nobody uses the cache,
  -- and two buffers are not dirty.
  pub logged_change-IsChanged :
      (f : Block → Block)
      → l.busy ≡ true
      → l.n < logsize
      → l.n + 1 < l.size
      → (l' : Log) × (c' : Cache) × (b : ℕ) × (logged_change l c l.dev sector f ≡ ok (l', c'))
        × IsChanged l c sector (f (view c l.dev sector)) l' c'
        × HasSpare c' (erase b (a ∷ a' ∷ more))
  logged_change-IsChanged f active roomy fits =
      let (b, c1, e1, h) = bufcache_read-IsRead c l.dev sector first-IsReadable in
      let (l', c2, e2, g) = given-IsLogged b c1 h (f (c1.buf b).bytes) active roomy fits in
      let (c3, e3, r) = logged-IsReleased b c1 h (f (c1.buf b).bytes) l' c2 g in
      (
        l',
        c3,
        b,
        rw (e1, e2, e3) refl,
        subst (λ x. IsChanged l c sector (f x) l' c3) h.seen
            (last-IsChanged b c1 h (f (c1.buf b).bytes) l' c2 g c3 r),
        last-HasSpare b c1 h (f (c1.buf b).bytes) l' c2 g c3 r,
      )
