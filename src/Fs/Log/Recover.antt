-- ===== src/Fs/Log/Recover.antt =====
-- read_head and recover_from_log, which log_init runs on a fresh cache.
use os_project_signal.Prelude.{
  ℕ, ◌+◌, ◌≡◌, ◌≢◌, ◌⊎◌, inl, inr, refl, sym, ap, ◌∙◌, true, ◌∷◌, arith, ◌==◌, Bool-cases,
}
use os_project_signal.Vmm.Phys.{read_word}
use os_project_signal.Fs.Result.{Result, ok}
use os_project_signal.Fs.Cache.{Cache, Block, Buf, bufcache_init, bufcache_release}
use os_project_signal.Fs.Cache.Inv.{unset, view}
use os_project_signal.Fs.Cache.Open.{IsRead}
use os_project_signal.Fs.Cache.Write.{bufcache_release-IsReleased}
use os_project_signal.Fs.Cache.Fresh.{bufcache_init-IsCalm, view-bufcache_init}
use os_project_signal.Fs.Cache.Copy.{IsCalm, calm-IsReadable, stored-IsCalm}
use os_project_signal.Fs.Cache.Update.{bufcache_read-IsRead, read-closed}
use os_project_signal.Fs.Log.{
  Log, rounds, install_trans, read_sectors, read_head, write_head, recover_from_log,
}
use os_project_signal.Fs.Log.Redo.{IsPlaced, redo, redo-congr, header-n}
use os_project_signal.Fs.Log.Install.{
  IsFlushed, IsInstalled, install_trans-IsInstalled, write_head-IsStored,
}

-- A use of the cache that changed nothing on the disk or for a reader.
pub record IsLooked (c c' : Cache) : Type 0 where
  pub calm : IsCalm c'
  pub same_disk : c'.disk ≡ c.disk
  pub same_written : c'.written ≡ c.written
  pub same_dirty : (j : ℕ) → (c'.buf j).dirty ≡ (c.buf j).dirty
  pub same_view : (d s : ℕ) → d ≢ unset → view c' d s ≡ view c d s

-- The log with the header that `bytes` hold.
abbrev pub loaded : Log → Block → Log
loaded l bytes = record l {
  n = read_word bytes 0;
  sector = read_sectors bytes l.sector (rounds (read_word bytes 0));
}

module _ (c : Cache) (q : IsCalm c) (dev sector b : ℕ) (c1 : Cache) (set : dev ≢ unset)
    (h : IsRead c dev sector b c1) where
  pub bufcache_release-IsLooked : (c2 : Cache) × (bufcache_release c1 b ≡ ok c2) × IsLooked c c2
  bufcache_release-IsLooked =
      let closed : ((c1.buf b).dirty ≡ true)
          ⊎ ((c1.buf b).bytes ≡ c1.disk (c1.buf b).dev (c1.buf b).sector) =
        elim (read-closed c q.inv dev sector b c1 set h) [
          | inl dirty ↦ inl dirty
          | inr same ↦ inr (
              same
              ∙ ap (λ d. c1.disk d sector) (sym h.held.1)
              ∙ ap (λ s. c1.disk (c1.buf b).dev s) (sym h.held.2))
        ] in
      let (c2, e, r) = bufcache_release-IsReleased c1 h.kept b h.held.0 h.busy closed in
      let dirt : (j : ℕ) → (c2.buf j).dirty ≡ (c.buf j).dirty = λ j. elim (Bool-cases (j == b)) [
        | inl own ↦
            let e : j ≡ b = ground arith in
            ap (λ i. (c2.buf i).dirty) e
            ∙ ap (λ (y : Buf). y.dirty) r.buffer
            ∙ h.same_dirty
            ∙ ap (λ i. (c.buf i).dirty) (sym e)
        | inr other ↦
            let n : j ≢ b = λ e. ground arith in
            ap (λ (y : Buf). y.dirty) (r.others j n) ∙ ap (λ (y : Buf). y.dirty) (h.others j n)
      ] in
      (
        c2,
        e,
        record {
          calm = record {
            inv = r.kept;
            idle = λ j. elim (Bool-cases (j == b)) [
              | inl own ↦
                  let e : j ≡ b = ground arith in
                  ap (λ i. (c2.buf i).busy) e ∙ ap (λ (y : Buf). y.busy) r.buffer
              | inr other ↦
                  let n : j ≢ b = λ e. ground arith in
                  ap (λ (y : Buf). y.busy) (r.others j n)
                  ∙ ap (λ (y : Buf). y.busy) (h.others j n)
                  ∙ q.idle j
            ];
            spare =
                let (a, a', ne, p, p', e, e') = q.spare in
                (a, a', ne, p, p', dirt a ∙ e, dirt a' ∙ e');
          };
          same_disk = r.same_disk ∙ h.same_disk;
          same_written = r.same_written ∙ h.same_written;
          same_dirty = dirt;
          same_view = λ d s du. r.same_view d s du ∙ h.same_view d s du;
        },
      )

pub read_head-IsLooked :
    (l : Log) (c : Cache)
    → IsCalm c
    → l.dev ≢ unset
    → (c' : Cache) × (read_head l c ≡ ok (loaded l (view c l.dev l.start), c')) × IsLooked c c'
unfolding read_head
read_head-IsLooked l c q set =
    let (b, c1, e1, h1) =
      bufcache_read-IsRead c l.dev l.start (calm-IsReadable c l.dev l.start q set) in
    let (c2, e2, h2) = bufcache_release-IsLooked c q l.dev l.start b c1 set h1 in
    (
      c2,
      rw (e1, e2)
          (ap (λ (x : Block). (let r : Result (Log × Cache) = ok (loaded l x, c2) in r)) h1.seen),
      h2,
    )

-- What recovery leaves: the committed sectors at home, and a header that commits nothing.
pub record IsRecovered (l : Log) (c c' : Cache) : Type 0 where
  pub calm : IsCalm c'
  pub cleared : read_word (c'.disk l.dev l.start) 0 ≡ 0
  pub disk :
      (s : ℕ)
      → s ≢ l.start
      → c'.disk l.dev s ≡ redo l.start l.sector (c.disk l.dev) (c.disk l.dev) l.n s
  pub other_disks : (d s : ℕ) → d ≢ l.dev → c'.disk d s ≡ c.disk d s
  pub seen :
      (s : ℕ)
      → s ≢ l.start
      → view c' l.dev s ≡ redo l.start l.sector (c.disk l.dev) (view c l.dev) l.n s

-- install_trans and then write_head of an empty header.
module _ (l : Log) (c : Cache) (p : IsPlaced l) (q : IsCalm c) (flushed : IsFlushed l c) where
  pub settle-IsRecovered :
      (c1 c2 : Cache) × (install_trans l c ≡ ok c1)
      × IsInstalled l c l.n c1
      × (write_head (record l { n = 0 }) c1 ≡ ok c2)
      × IsRecovered l c c2
      × ((x : Block) × (c2.written ≡ (l.dev, l.start, x) ∷ c1.written)
          × (c2.disk l.dev l.start ≡ x)
          × (read_word x 0 ≡ 0))
  settle-IsRecovered =
      let (c1, e1, h1) = install_trans-IsInstalled l c p q flushed in
      let empty = record l { n = 0 } in
      let (c2, e2, h2) = write_head-IsStored empty c1 h1.calm p.set in
      let zero_n = header-n empty (view c1 l.dev l.start) (omega arith) in
      (
        c1,
        c2,
        e1,
        h1,
        e2,
        record {
          calm = stored-IsCalm c1 l.dev l.start _ c2 h1.calm h2;
          cleared = ap (λ (x : Block). read_word x 0) h2.disk_here ∙ zero_n;
          disk = λ s ne. h2.disk_there l.dev s (λ (_, e). ne e) ∙ h1.disk s;
          other_disks = λ d s ne. h2.disk_there d s (λ (e, _). ne e) ∙ h1.other_disks d s ne;
          seen = λ s ne. h2.view_there l.dev s p.set (λ (_, e). ne e) ∙ h1.seen s;
        },
        (_, h2.written, h2.disk_here, zero_n),
      )

-- The file system after a boot on `disk`, whose log is `l`: the disk and every reader have the
-- committed sectors, and the header commits nothing.
pub record IsBooted (l : Log) (before : ℕ → ℕ → Block) (c : Cache) : Type 0 where
  pub calm : IsCalm c
  pub cleared : read_word (c.disk l.dev l.start) 0 ≡ 0
  pub disk :
      (s : ℕ)
      → s ≢ l.start
      → c.disk l.dev s ≡ redo l.start l.sector (before l.dev) (before l.dev) l.n s
  pub seen : (s : ℕ) → s ≢ l.start → view c l.dev s ≡ c.disk l.dev s

recover-chain :
    (l l' : Log) (c c1 c2 c3 : Cache)
    → read_head l c ≡ ok (l', c1)
    → install_trans l' c1 ≡ ok c2
    → write_head (record l' { n = 0 }) c2 ≡ ok c3
    → recover_from_log l c ≡ ok (record l' { n = 0 }, c3)
unfolding recover_from_log
recover-chain l l' c c1 c2 c3 e1 e2 e3 = rw (e1, e2, e3) refl

disk-bufcache_init : (disk : ℕ → ℕ → Block) → (bufcache_init disk).disk ≡ disk
unfolding bufcache_init
disk-bufcache_init disk = refl

-- recover_from_log on the cache that bufcache_init leaves returns, for a header that fits the log
-- and names no sector of it. Every sector but that of the header is then, for the disk and for
-- every reader, as the header says: the last copy that the log has of it, or as before. The header
-- on the disk is cleared.
pub recover_from_log-IsBooted :
    (l : Log) (disk : ℕ → ℕ → Block)
    → IsPlaced (loaded l (disk l.dev l.start))
    → (c : Cache) × (recover_from_log l (bufcache_init disk)
        ≡ ok (record (loaded l (disk l.dev l.start)) { n = 0 }, c))
      × IsBooted (loaded l (disk l.dev l.start)) disk c
recover_from_log-IsBooted l disk p =
    let lr = loaded l (disk l.dev l.start) in
    let (c1, e1, h1) =
      read_head-IsLooked l (bufcache_init disk) (bufcache_init-IsCalm disk) p.set in
    let sees : (s : ℕ) → view c1 l.dev s ≡ disk l.dev s =
      λ s. h1.same_view l.dev s p.set ∙ view-bufcache_init disk l.dev s p.set in
    let disk_c1 : c1.disk ≡ disk = h1.same_disk ∙ disk-bufcache_init disk in
    let (c2, c3, e2, h2, e3, r, _) =
      settle-IsRecovered lr c1 p h1.calm
        (λ i lt. sees (l.start + i + 1) ∙ ap (λ f. f l.dev (l.start + i + 1)) (sym disk_c1)) in
    (
      c3,
      recover-chain l lr (bufcache_init disk) c1 c2 c3
          (e1
            ∙ ap (λ (x : Block). (let r : Result (Log × Cache) = ok (loaded l x, c1) in r))
                (view-bufcache_init disk l.dev l.start p.set))
          e2 e3,
      record {
        calm = r.calm;
        cleared = r.cleared;
        disk = λ s ne.
            r.disk s ne ∙ ap (λ f. redo lr.start lr.sector (f lr.dev) (f lr.dev) lr.n s) disk_c1;
        seen = λ s ne.
            r.seen s ne
            ∙ redo-congr lr.start lr.sector lr.sector (c1.disk lr.dev) (c1.disk lr.dev)
                (view c1 lr.dev) (c1.disk lr.dev) lr.n s (λ i lt. refl) (λ i lt. refl)
                (sees s ∙ ap (λ f. f l.dev s) (sym disk_c1))
            ∙ sym (r.disk s ne);
      },
    )
