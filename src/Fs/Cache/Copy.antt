-- ===== src/Fs/Cache/Copy.antt =====
-- A new contents for a sector, and a sector that is copied to another.
use os_project_signal.Prelude.{
  ℕ, ◌<◌, ◌≡◌, ◌≢◌, ◌⊎◌, inl, inr, sym, ap, subst, ◌∙◌, true, false, ◌∷◌, arith, ◌==◌, Bool-cases,
}
use os_project_signal.Fs.Result.{Result, ok, ◌>>=◌}
use os_project_signal.Fs.Cache.{
  Buf, Cache, Block, nbuf, set_bytes, bufcache_read, bufcache_write, bufcache_release,
}
use os_project_signal.Fs.Cache.Inv.{unset, IsCache, view}
use os_project_signal.Fs.Cache.Open.{IsRead}
use os_project_signal.Fs.Cache.Write.{bufcache_release-IsReleased}
use os_project_signal.Fs.Cache.Update.{
  IsReadable, bufcache_read-IsRead, read-closed, IsPut, bufcache_write-IsPut, IsStored,
  released-IsStored,
}

-- What write_head does to the header.
abbrev pub store : Cache → ℕ → ℕ → (Block → Block) → Result Cache
store c dev sector f = do
  (b, c) ← bufcache_read c dev sector
  c ← bufcache_write (set_bytes c b (f (c.buf b).bytes)) b
  bufcache_release c b

-- What install_trans does to a sector.
abbrev pub copy : Cache → ℕ → ℕ → ℕ → Result Cache
copy c dev from to = do
  (lbuf, c) ← bufcache_read c dev from
  (dbuf, c) ← bufcache_read c dev to
  c ← bufcache_write (set_bytes c dbuf (c.buf lbuf).bytes) dbuf
  c ← bufcache_release c lbuf
  bufcache_release c dbuf

pub store-IsStored :
    (c : Cache) (dev sector : ℕ) (f : Block → Block)
    → IsReadable c dev sector
    → (c' : Cache) × (store c dev sector f ≡ ok c')
      × IsStored c dev sector (f (view c dev sector)) c'
store-IsStored c dev sector f r =
    let (b, c1, e1, h1) = bufcache_read-IsRead c dev sector r in
    let (c2, e2, h2) = bufcache_write-IsPut c dev sector b c1 r.set h1 (f (c1.buf b).bytes) in
    let (c3, e3, h3) = released-IsStored c dev sector b (f (c1.buf b).bytes) c2 r.set h2 in
    (c3, rw (e1, e2) e3, subst (λ x. IsStored c dev sector (f x) c3) h1.seen h3)

-- Nobody uses a buffer, and two buffers are not dirty.
pub record IsCalm (c : Cache) : Type 0 where
  pub inv : IsCache c
  pub idle : (j : ℕ) → (c.buf j).busy ≡ false
  pub spare :
      (a b : ℕ) × (a ≢ b)
      × (a < nbuf)
      × (b < nbuf)
      × ((c.buf a).dirty ≡ false)
      × ((c.buf b).dirty ≡ false)

pub calm-IsReadable :
    (c : Cache) (dev sector : ℕ) → IsCalm c → dev ≢ unset → IsReadable c dev sector
calm-IsReadable c dev sector q set = record {
  inv = q.inv;
  set = set;
  free = λ b h. q.idle b;
  room = let (a, b, ne, p, p', e, e') = q.spare in (a, p, q.idle a, e);
}

pub stored-IsCalm :
    (c : Cache) (dev sector : ℕ) (x : Block) (c' : Cache)
    → IsCalm c
    → IsStored c dev sector x c'
    → IsCalm c'
stored-IsCalm c dev sector x c' q h = record {
  inv = h.kept;
  idle = λ j. h.same_busy j ∙ q.idle j;
  spare = let (a, b, ne, p, p', e, e') = q.spare in (a, b, ne, p, p', h.clean a e, h.clean b e');
}

-- While a sector is held, any other sector can be read.
read-IsReadable :
    (c : Cache) (dev from to b : ℕ) (c1 : Cache)
    → IsCalm c
    → dev ≢ unset
    → from ≢ to
    → IsRead c dev from b c1
    → IsReadable c1 dev to
read-IsReadable c dev from to b c1 q set ne h = record {
  inv = h.kept;
  set = set;
  free = λ j g.
      ap (λ (y : Buf). y.busy)
        (h.others j (λ e. ne (sym h.held.2 ∙ ap (λ i. (c1.buf i).sector) (sym e) ∙ g.2)))
      ∙ q.idle j;
  room =
      let (a1, a2, away, p, p', e, e') = q.spare in
      elim (Bool-cases (a1 == b)) [
        | inl same ↦ spared a2 p' e' (λ n. away (ground arith))
        | inr other ↦ spared a1 p e (λ n. ground arith)
      ];
}
  where
    spared :
        (a : ℕ)
        → a < nbuf
        → (c.buf a).dirty ≡ false
        → a ≢ b
        → (j : ℕ) × (j < nbuf) × ((c1.buf j).busy ≡ false) × ((c1.buf j).dirty ≡ false)
    spared a p e ne' =
        let u = h.others a ne' in
        (a, p, ap (λ (y : Buf). y.busy) u ∙ q.idle a, ap (λ (y : Buf). y.dirty) u ∙ e)

module _ (c : Cache) (dev from to : ℕ) (q : IsCalm c) (set : dev ≢ unset) (ne : from ≢ to) (l : ℕ)
    (c1 : Cache) (h1 : IsRead c dev from l c1) (d : ℕ) (c3 : Cache) (x : Block)
    (h3 : IsPut c1 dev to x d c3) where
  apart : l ≢ d
  apart e = let i = h3.was_idle in let b = h1.busy in cc

  still_held : c3.buf l ≡ c1.buf l
  still_held = h3.in_use l h1.busy

  still_closed :
      ((c3.buf l).dirty ≡ true) ⊎ ((c3.buf l).bytes ≡ c3.disk (c3.buf l).dev (c3.buf l).sector)
  still_closed = elim (read-closed c q.inv dev from l c1 set h1) [
    | inl dirty ↦ inl (ap (λ (y : Buf). y.dirty) still_held ∙ dirty)
    | inr same ↦ inr (
        ap (λ (y : Buf). y.bytes) still_held
        ∙ same
        ∙ sym (h3.disk_there dev from (λ (_, e). ne e))
        ∙ ap (λ d'. c3.disk d' from) (sym (ap (λ (y : Buf). y.dev) still_held ∙ h1.held.1))
        ∙ ap (λ s. c3.disk (c3.buf l).dev s)
            (sym (ap (λ (y : Buf). y.sector) still_held ∙ h1.held.2)))
  ]

  -- After the release of the first buffer.
  half-IsPut : (c4 : Cache) × (bufcache_release c3 l ≡ ok c4) × IsPut c dev to x d c4
  half-IsPut =
      let (c4, e, r) =
        bufcache_release-IsReleased c3 h3.kept l h1.held.0
          (ap (λ (y : Buf). y.busy) still_held ∙ h1.busy) still_closed in
      let same : c4.buf d ≡ c3.buf d = r.others d (λ e. apart (sym e)) in
      let own : c4.buf l ≡ record (c1.buf l) { busy = false } =
        r.buffer ∙ ap (λ (y : Buf). (let z : Buf = record y { busy = false } in z)) still_held in
      (
        c4,
        e,
        record {
          held = (
            h3.held.0,
            ap (λ (y : Buf). y.dev) same ∙ h3.held.1,
            ap (λ (y : Buf). y.sector) same ∙ h3.held.2,
          );
          busy = ap (λ (y : Buf). y.busy) same ∙ h3.busy;
          was_idle = q.idle d;
          clean = ap (λ (y : Buf). y.dirty) same ∙ h3.clean;
          bytes = ap (λ (y : Buf). y.bytes) same ∙ h3.bytes;
          same_busy = λ j away. elim (Bool-cases (j == l)) [
            | inl first ↦
                let e : j ≡ l = ground arith in
                ap (λ i. (c4.buf i).busy) e ∙ ap (λ (y : Buf). y.busy) own ∙ sym (q.idle j)
            | inr other ↦
                let n : j ≢ l = λ e. ground arith in
                ap (λ (y : Buf). y.busy) (r.others j n)
                ∙ h3.same_busy j away
                ∙ ap (λ (y : Buf). y.busy) (h1.others j n)
          ];
          in_use = λ j busy. let i = q.idle j in absurd (ground arith);
          still_clean = λ j still. elim (Bool-cases (j == l)) [
            | inl first ↦
                let e : j ≡ l = ground arith in
                ap (λ i. (c4.buf i).dirty) e
                ∙ ap (λ (y : Buf). y.dirty) own
                ∙ h1.same_dirty
                ∙ ap (λ i. (c.buf i).dirty) (sym e)
                ∙ still
            | inr other ↦
                let n : j ≢ l = λ e. ground arith in
                ap (λ (y : Buf). y.dirty) (r.others j n)
                ∙ h3.still_clean j (ap (λ (y : Buf). y.dirty) (h1.others j n) ∙ still)
          ];
          kept = r.kept;
          disk_here = ap (λ f. f dev to) r.same_disk ∙ h3.disk_here;
          disk_there = λ d' s n.
              ap (λ f. f d' s) r.same_disk ∙ h3.disk_there d' s n ∙ ap (λ f. f d' s) h1.same_disk;
          written = r.same_written ∙ h3.written ∙ ap (λ ws. (dev, to, x) ∷ ws) h1.same_written;
          view_here = r.same_view dev to set ∙ h3.view_here;
          view_there =
              λ d' s du n. r.same_view d' s du ∙ h3.view_there d' s du n ∙ h1.same_view d' s du;
        },
      )

pub copy-IsStored :
    (c : Cache) (dev from to : ℕ)
    → IsCalm c
    → dev ≢ unset
    → from ≢ to
    → (c' : Cache) × (copy c dev from to ≡ ok c') × IsStored c dev to (view c dev from) c'
copy-IsStored c dev from to q set ne =
    let (l, c1, e1, h1) = bufcache_read-IsRead c dev from (calm-IsReadable c dev from q set) in
    let (d, c2, e2, h2) =
      bufcache_read-IsRead c1 dev to (read-IsReadable c dev from to l c1 q set ne h1) in
    let (c3, e3, h3) = bufcache_write-IsPut c1 dev to d c2 set h2 (c2.buf l).bytes in
    let (c4, e4, h4) = half-IsPut c dev from to q set ne l c1 h1 d c3 (c2.buf l).bytes h3 in
    let (c5, e5, h5) = released-IsStored c dev to d (c2.buf l).bytes c4 set h4 in
    let source : (c2.buf l).bytes ≡ view c dev from =
      ap (λ (y : Buf). y.bytes)
        (h2.others l (apart c dev from to q set ne l c1 h1 d c3 (c2.buf l).bytes h3))
      ∙ h1.seen in
    (c5, rw (e1, e2, e3, e4) e5, subst (λ x. IsStored c dev to x c5) source h5)
