-- ===== src/Fs/Session/Commit.antt =====
-- The ends of a transaction: begin_trans and commit_trans of kern/fs/log.c, for the layers above.
use os_project_signal.Prelude.{
  ℕ, suc, ◌≤◌, ◌<◌, ◌≡◌, ◌⊎◌, inl, inr, refl, sym, ap, ◌∙◌, true, false, List, ◌++◌, arith, length,
}
use os_project_signal.Vmm.Phys.{read_word}
use os_project_signal.Fs.Result.{ok}
use os_project_signal.Fs.Cache.{Cache, Block}
use os_project_signal.Fs.Cache.Inv.{view}
use os_project_signal.Fs.Log.{Log, logsize, begin_trans, commit_trans}
use os_project_signal.Fs.Log.Redo.{Home, IsPlaced, redo, replay}
use os_project_signal.Fs.Log.Reboot.{Write, Reboots, Reboots-congr}
use os_project_signal.Fs.Log.Commit.{commit_trans-IsCommitted}
use os_project_signal.Fs.Log.Update.{HasSpare}
use os_project_signal.Fs.Session.{IsSession, session-IsCalm, Home-place}

-- No transaction goes on, and every sector is on the disk as readers see it.
pub record IsResting (l : Log) (c : Cache) (spare : List ℕ) : Type 0 where
  pub placed : IsPlaced l
  pub empty : l.n ≡ 0
  pub idle : l.busy ≡ false
  pub cleared : read_word (c.disk l.dev l.start) 0 ≡ 0
  pub flushed : (s : ℕ) → view c l.dev s ≡ c.disk l.dev s
  pub spared : HasSpare c spare

pub begin_trans-IsSession :
    (l : Log) (c : Cache) (spare : List ℕ) (k : ℕ)
    → IsResting l c spare
    → k ≤ logsize
    → k < l.size
    → k < length spare
    → (begin_trans l ≡ ok (record l { busy = true }))
      × IsSession l (c.disk l.dev) (record l { busy = true }) c k (c.disk l.dev)
unfolding begin_trans redo
begin_trans-IsSession l c spare k h few fits enough = (
  rw (h.idle) refl,
  record {
    start_eq = refl;
    size_eq = refl;
    dev_eq = refl;
    trans = record {
      placed = record {
        set = h.placed.set;
        fits = h.placed.fits;
        small = h.placed.small;
        homes = h.placed.homes;
      };
      words = λ i lt. (let e = h.empty in absurd (omega arith));
      distinct = λ i j p q e. (let z = h.empty in absurd (omega arith));
      uncommitted = h.cleared;
      flushed = λ s out. h.flushed s;
      current = λ s home. rw (h.empty) (sym (h.flushed s));
    };
    active = refl;
    room = (let e = h.empty in omega arith);
    fits = (let e = h.empty in omega arith);
    spare = spare;
    spared = h.spared;
    enough = enough;
    seen = λ s home. h.flushed s;
    same_disk = λ s home. refl;
  },
)

-- What commit_trans does to a transaction in which the sectors read as `now`, over a disk with
-- `before`.
pub record IsDurable (g : Log) (before : ℕ → Block) (l : Log) (c : Cache) (now : ℕ → Block)
    (writes : List Write) (c' : Cache) : Type 0 where
  pub happened : c'.written ≡ writes ++ c.written
  pub disk : (s : ℕ) → Home g s → c'.disk g.dev s ≡ now s
  pub seen : (s : ℕ) → Home g s → view c' g.dev s ≡ now s
  pub atomic :
      (later earlier : List Write)
      → later ++ earlier ≡ writes
      → Reboots l (replay c.disk earlier) before ⊎ Reboots l (replay c.disk earlier) now

-- commit_trans of a transaction that has a change left returns; then the sectors outside the log
-- are on the disk and for every reader as the transaction left them. A reboot after a crash at any
-- of its writes finds all of them as they were before the transaction, or all as it left them.
pub commit_trans-IsDurable :
    (g : Log) (before : ℕ → Block) (l : Log) (c : Cache) (k : ℕ) (now : ℕ → Block)
    → IsSession g before l c (suc k) now
    → (writes : List Write) × (c' : Cache) × (commit_trans l c
        ≡ ok (record l { n = 0; busy = false }, c'))
      × IsDurable g before l c now writes c'
commit_trans-IsDurable g before l c k now h =
    let (writes, c', e, o) =
      commit_trans-IsCommitted l c h.trans (session-IsCalm g before l c k now h) in
    let to_l : (s : ℕ) → Home g s → Home l s =
      λ s home. Home-place g l s h.start_eq h.size_eq home in
    let to_g : (s : ℕ) → Home l s → Home g s =
      λ s home. Home-place l g s (sym h.start_eq) (sym h.size_eq) home in
    let now_l : (s : ℕ) → Home l s → view c l.dev s ≡ now s =
      λ s home. ap (λ d. view c d s) h.dev_eq ∙ h.seen s (to_g s home) in
    let old_l : (s : ℕ) → Home l s → c.disk l.dev s ≡ before s =
      λ s home. ap (λ d. c.disk d s) h.dev_eq ∙ h.same_disk s (to_g s home) in
    (
      writes,
      c',
      e,
      record {
        happened = o.happened;
        disk = λ s home.
            ap (λ d. c'.disk d s) (sym h.dev_eq)
            ∙ o.durable s (to_l s home)
            ∙ now_l s (to_l s home);
        seen = λ s home.
            ap (λ d. view c' d s) (sym h.dev_eq)
            ∙ o.same_view s (to_l s home)
            ∙ now_l s (to_l s home);
        atomic = λ later earlier z. elim (o.atomic later earlier z) [
          | inl old ↦ inl (Reboots-congr l (replay c.disk earlier) (c.disk l.dev) before old_l old)
          | inr new ↦ inr (Reboots-congr l (replay c.disk earlier) (view c l.dev) now now_l new)
        ];
      },
    )
