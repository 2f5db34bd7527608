-- ===== src/Fs/Log/Commit.antt =====
-- commit_trans, and a crash after any of its writes.
use os_project_signal.Prelude.{
  ℕ, ◌+◌, ◌<◌, ◌≡◌, ◌≢◌, ◌⊎◌, inl, inr, refl, sym, ap, subst, ◌∙◌, true, false, List, [], ◌∷◌, ◌++◌,
  arith, ◌==◌, ltb, Bool-cases, ==_refl,
}
use os_project_signal.Vmm.Phys.{read_word}
use os_project_signal.Fs.Result.{ok}
use os_project_signal.Fs.Cache.{Cache, Block}
use os_project_signal.Fs.Cache.Inv.{view}
use os_project_signal.Fs.Cache.Copy.{IsCalm, stored-IsCalm}
use os_project_signal.Fs.Cache.Update.{IsStored}
use os_project_signal.Fs.Log.{Log, rounds, install_trans, header, write_head, commit_trans}
use os_project_signal.Fs.Log.Redo.{
  Home, redo, redo-cases, redo-congr, redo_of_unlogged, installs, replay,
}
use os_project_signal.Fs.Log.Install.{IsFlushed, write_head-IsStored}
use os_project_signal.Fs.Log.Recover.{IsRecovered, settle-IsRecovered}
use os_project_signal.Fs.Log.Reboot.{
  IsTrans, Reboots, Reboots-congr, start_apart, uncommitted-Reboots, Write, split-nil, split-cons,
  split-installs, headed, headed-elsewhere, partial_disk-redo, partial-Reboots,
}

-- commit_trans leads from `c` to `c'`. Every sector outside the log is on the disk as a reader saw
-- it, and readers see what they saw. `writes` are the writes to the disk, the last one first. After
-- the first of them, as many as there may be, a reboot finds the disk as it was before, or
-- the whole transaction.
pub record IsCommitted (l : Log) (c : Cache) (writes : List Write) (c' : Cache) : Type 0 where
  pub calm : IsCalm c'
  pub cleared : read_word (c'.disk l.dev l.start) 0 ≡ 0
  pub durable : (s : ℕ) → Home l s → c'.disk l.dev s ≡ view c l.dev s
  pub same_view : (s : ℕ) → Home l s → view c' l.dev s ≡ view c l.dev s
  pub happened : c'.written ≡ writes ++ c.written
  pub effect : (s : ℕ) → c'.disk l.dev s ≡ replay c.disk writes l.dev s
  pub atomic :
      (later earlier : List Write)
      → later ++ earlier ≡ writes
      → Reboots l (replay c.disk earlier) (c.disk l.dev)
        ⊎ Reboots l (replay c.disk earlier) (view c l.dev)

commit-chain :
    (l : Log) (c c1 c2 c3 : Cache)
    → ltb 0 (rounds l.n) ≡ true
    → write_head l c ≡ ok c1
    → install_trans l c1 ≡ ok c2
    → write_head (record l { n = 0 }) c2 ≡ ok c3
    → commit_trans l c ≡ ok (record l { n = 0; busy = false }, c3)
unfolding commit_trans
commit-chain l c c1 c2 c3 some_logged e1 e2 e3 = rw (some_logged, e1, e2, e3) refl

append-singleton :
    (xs : List Write) (w : Write) (ws : List Write) → (xs ++ (w ∷ [])) ++ ws ≡ xs ++ (w ∷ ws)
append-singleton [] w ws = refl
append-singleton (x ∷ xs) w ws = ap (λ ys. x ∷ ys) (append-singleton xs w ws)

-- Nothing is written.
before-Reboots :
    (l : Log) (c : Cache)
    → IsTrans l c
    → (earlier : List Write) → earlier ≡ []
    → Reboots l (replay c.disk earlier) (c.disk l.dev)
unfolding replay
before-Reboots l c t earlier e = rw e (uncommitted-Reboots l c.disk t.placed t.uncommitted)

-- A transaction that wrote nothing.
empty-IsCommitted : (l : Log) (c : Cache) → IsTrans l c → IsCalm c → l.n ≡ 0 → IsCommitted l c [] c
unfolding redo replay
empty-IsCommitted l c t q none = record {
  calm = q;
  cleared = t.uncommitted;
  durable = λ s home.
      ap (λ n. redo l.start l.sector (c.disk l.dev) (c.disk l.dev) n s) (sym none)
      ∙ t.current s home;
  same_view = λ s home. refl;
  happened = refl;
  effect = λ s. refl;
  atomic = λ later earlier e. inl (before-Reboots l c t earlier (split-nil later earlier e));
}

module _ (l : Log) (c : Cache) (t : IsTrans l c) (q : IsCalm c) (some_logged : 0 < l.n) where
  module _ (c1 : Cache) (h1 : IsStored c l.dev l.start (header l (view c l.dev l.start)) c1) where
    abbrev head : Block
    head = header l (view c l.dev l.start)

    same_logged :
        (i : ℕ) → i < l.n → c1.disk l.dev (l.start + i + 1) ≡ c.disk l.dev (l.start + i + 1)
    same_logged i lt = h1.disk_there l.dev (l.start + i + 1) (λ (_, e). omega arith)

    still-IsFlushed : IsFlushed l c1
    still-IsFlushed i lt =
        h1.view_there l.dev (l.start + i + 1) t.placed.set (λ (_, e). omega arith)
        ∙ t.flushed (l.start + i + 1) (λ home. let f = t.placed.fits in omega arith)
        ∙ sym (same_logged i lt)

    same_home : (s : ℕ) → s ≢ l.start → c1.disk l.dev s ≡ c.disk l.dev s
    same_home s ne = h1.disk_there l.dev s (λ (_, e). ne e)

    -- The log is the transaction still.
    still_current :
        (s : ℕ)
        → Home l s
        → redo l.start l.sector (c1.disk l.dev) (c1.disk l.dev) l.n s ≡ view c l.dev s
    still_current s home =
        redo-congr l.start l.sector l.sector (c1.disk l.dev) (c.disk l.dev) (c1.disk l.dev)
          (c.disk l.dev) l.n s (λ i lt. refl) same_logged
          (same_home s (start_apart l s t.placed home))
        ∙ t.current s home

    module _ (c2 : Cache) (r : IsRecovered l c1 c2) (x : Block)
        (at_start : c2.disk l.dev l.start ≡ x) (empty : read_word x 0 ≡ 0) where
      abbrev writes : List Write
      writes =
          (l.dev, l.start, x) ∷ (installs l (c1.disk l.dev) l.n ++ ((l.dev, l.start, head) ∷ []))

      commit-durable : (s : ℕ) → Home l s → c2.disk l.dev s ≡ view c l.dev s
      commit-durable s home = r.disk s (start_apart l s t.placed home) ∙ still_current s home

      commit-same_view : (s : ℕ) → Home l s → view c2 l.dev s ≡ view c l.dev s
      commit-same_view s home =
          let away = start_apart l s t.placed home in
          elim (redo-cases l.start l.sector (c1.disk l.dev) l.n s) [
            | inl forgets ↦
                r.seen s away ∙ forgets (view c1 l.dev) (c1.disk l.dev) ∙ still_current s home
            | inr none ↦
                r.seen s away
                ∙ redo_of_unlogged l.start l.sector (c1.disk l.dev) (view c1 l.dev) l.n s none
                ∙ h1.view_there l.dev s t.placed.set (λ (_, e). away e)
          ]

      commit-effect : (s : ℕ) → c2.disk l.dev s ≡ replay c.disk writes l.dev s
      unfolding replay
      commit-effect s = elim (Bool-cases (l.start == s)) [
        | inl same ↦
            let e : l.start ≡ s = ground arith in
            ap (c2.disk l.dev) (sym e) ∙ at_start ∙ rw (==_refl l.dev, same) refl
        | inr other ↦
            let away : s ≢ l.start = λ e. ground arith in
            r.disk s away
            ∙ rw (==_refl l.dev, other)
                (redo-congr l.start l.sector l.sector (c1.disk l.dev) (c1.disk l.dev)
                    (c1.disk l.dev)
                    (headed l c t (view c l.dev l.start) head refl (c1.disk l.dev) same_logged) l.n
                    s (λ i lt. refl) (λ i lt. refl)
                    (same_home s away
                      ∙ sym (
                          headed-elsewhere l c t (view c l.dev l.start) head refl (c1.disk l.dev)
                            same_logged s away))
                  ∙ sym (
                      partial_disk-redo l c t (view c l.dev l.start) head refl (c1.disk l.dev)
                        same_logged l.n s))
      ]

      -- After the last write.
      after-Reboots : Reboots l (replay c.disk writes) (view c l.dev)
      after-Reboots =
          Reboots-congr l (replay c.disk writes) _ (view c l.dev)
            (λ s home. sym (commit-effect s) ∙ commit-durable s home)
            (uncommitted-Reboots l (replay c.disk writes) t.placed
              (ap (λ (y : Block). read_word y 0) (sym (commit-effect l.start) ∙ at_start) ∙ empty))

      commit-atomic :
          (later earlier : List Write)
          → later ++ earlier ≡ writes
          → Reboots l (replay c.disk earlier) (c.disk l.dev)
            ⊎ Reboots l (replay c.disk earlier) (view c l.dev)
      commit-atomic later earlier e = elim (split-cons later earlier _ _ e) [
        | inl all ↦
            inr (subst (λ ws. Reboots l (replay c.disk ws) (view c l.dev)) (sym all) after-Reboots)
        | inr (rest, e') ↦ elim (split-installs l (c1.disk l.dev) rest earlier _ l.n e') [
          | inl none ↦ inl (before-Reboots l c t earlier none)
          | inr (j, le, e'') ↦ inr (
              subst (λ ws. Reboots l (replay c.disk ws) (view c l.dev)) (sym e'')
                (partial-Reboots l c t (view c l.dev l.start) head refl (c1.disk l.dev) same_logged
                  j le))
        ]
      ]

  some-IsCommitted :
      (writes : List Write) × (c' : Cache) × (commit_trans l c
        ≡ ok (record l { n = 0; busy = false }, c'))
      × IsCommitted l c writes c'
  some-IsCommitted =
      let (c1, e1, h1) = write_head-IsStored l c q t.placed.set in
      let (c2, c3, e2, h2, e3, r, (x, w, at_start, empty)) =
        settle-IsRecovered l c1 t.placed (stored-IsCalm c l.dev l.start _ c1 q h1)
          (still-IsFlushed c1 h1) in
      let small = t.placed.small in
      (
        writes c1 h1 c3 r x at_start empty,
        c3,
        commit-chain l c c1 c2 c3 (ground arith) e1 e2 e3,
        record {
          calm = r.calm;
          cleared = r.cleared;
          durable = commit-durable c1 h1 c3 r x at_start empty;
          same_view = commit-same_view c1 h1 c3 r x at_start empty;
          happened =
              w
              ∙ ap (λ ws. (l.dev, l.start, x) ∷ ws)
                  (h2.written
                    ∙ ap (λ ws. installs l (c1.disk l.dev) l.n ++ ws) h1.written
                    ∙ sym (append-singleton (installs l (c1.disk l.dev) l.n) _ c.written));
          effect = commit-effect c1 h1 c3 r x at_start empty;
          atomic = commit-atomic c1 h1 c3 r x at_start empty;
        },
      )

empty-commit :
    (l : Log) (c : Cache) → l.n ≡ 0 → commit_trans l c ≡ ok (record l { n = 0; busy = false }, c)
unfolding commit_trans
empty-commit l c none = rw none refl

-- commit_trans of a transaction returns, has put the whole transaction on the disk, and is atomic:
-- a reboot after a crash at any of its writes finds the sectors outside the log as they
-- were before, or as the transaction left them. Nobody else may use the cache, and two of its
-- buffers may not be dirty.
pub commit_trans-IsCommitted :
    (l : Log) (c : Cache)
    → IsTrans l c
    → IsCalm c
    → (writes : List Write) × (c' : Cache) × (commit_trans l c
        ≡ ok (record l { n = 0; busy = false }, c'))
      × IsCommitted l c writes c'
commit_trans-IsCommitted l c t q = elim (Bool-cases (l.n == 0)) [
  | inl none ↦
      let e : l.n ≡ 0 = ground arith in ([], c, empty-commit l c e, empty-IsCommitted l c t q e)
  | inr some_logged ↦ some-IsCommitted l c t q (ground arith)
]
