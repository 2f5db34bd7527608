-- ===== src/Fs/Session.antt =====
-- What the layers above kern/fs/log.c see of a transaction that nobody disturbs: the sectors
-- outside the log, as a function that bufcache_read reads and log_write changes.
pub mod Commit
use os_project_signal.Prelude.{
  ℕ, zero, suc, ◌+◌, ◌^◌, ◌≤◌, ◌<◌, ◌≡◌, ◌≢◌, ◌⊎◌, inl, inr, refl, sym, ap, subst, ◌∙◌, Bool, true,
  false, List, [], ◌∷◌, arith, ◌==◌, if◌then◌else◌, update, mem, erase, length, Distinct,
  Bool-cases, ==_refl, ==-false,
}
use os_project_signal.Fs.Result.{Result, ok, ◌>>=◌}
use os_project_signal.Fs.Cache.{Cache, Block, Buf, set_bytes, bufcache_read, bufcache_release}
use os_project_signal.Fs.Cache.Inv.{unset, view}
use os_project_signal.Fs.Cache.Open.{IsRead}
use os_project_signal.Fs.Cache.Update.{bufcache_read-IsRead}
use os_project_signal.Fs.Log.{Log, logsize, log_write}
use os_project_signal.Fs.Cache.Copy.{IsCalm}
use os_project_signal.Fs.Log.Redo.{Home}
use os_project_signal.Fs.Log.Recover.{IsLooked, bufcache_release-IsLooked}
use os_project_signal.Fs.Log.Reboot.{IsTrans}
use os_project_signal.Fs.Log.Append.{IsLogged}
use os_project_signal.Fs.Log.Update.{
  HasSpare, IsChanged, spare-IsCalm, looked-HasSpare, IsTrans-transfer, first-IsReadable,
  given-IsLogged, logged-IsReleased, last-IsChanged, last-HasSpare,
}

-- In the transaction `l`, whose log lies where that of `g` does, the sectors outside the log read
-- as `now`, with `before` still on the disk; `k` more of them can be changed.
pub record IsSession (g : Log) (before : ℕ → Block) (l : Log) (c : Cache) (k : ℕ) (now : ℕ → Block)
    : Type 0 where
  pub start_eq : l.start ≡ g.start
  pub size_eq : l.size ≡ g.size
  pub dev_eq : l.dev ≡ g.dev
  pub trans : IsTrans l c
  pub active : l.busy ≡ true
  pub room : l.n + k ≤ logsize
  pub fits : l.n + k < l.size
  pub spare : List ℕ
  pub spared : HasSpare c spare
  pub enough : k < length spare
  pub seen : (s : ℕ) → Home g s → view c g.dev s ≡ now s
  pub same_disk : (s : ℕ) → Home g s → c.disk g.dev s ≡ before s

length-erase_ge : (b : ℕ) (xs : List ℕ) → length xs ≤ length (erase b xs) + 1
length-erase_ge b [] = omega arith
length-erase_ge b (x ∷ xs) = ground (arith, length-erase_ge b xs)

two_spare :
    (k : ℕ) (spare : List ℕ)
    → suc k < length spare
    → (a : ℕ) × (a' : ℕ) × (more : List ℕ) × (spare ≡ a ∷ a' ∷ more)
two_spare k [] h = absurd (omega arith)
two_spare k (a ∷ []) h = absurd (omega arith)
two_spare k (a ∷ a' ∷ more) h = (a, a', more, refl)

-- Readers see the same after a release.
pub looked-IsSession :
    (g : Log) (before : ℕ → Block) (l : Log) (c c' : Cache) (k : ℕ) (now : ℕ → Block)
    → IsSession g before l c k now
    → IsLooked c c'
    → IsSession g before l c' k now
looked-IsSession g before l c c' k now h o =
    let set : g.dev ≢ unset = λ e. h.trans.placed.set (h.dev_eq ∙ e) in
    record {
      start_eq = h.start_eq;
      size_eq = h.size_eq;
      dev_eq = h.dev_eq;
      trans =
          IsTrans-transfer l c c' h.trans o.same_disk (λ s. o.same_view l.dev s h.trans.placed.set);
      active = h.active;
      room = h.room;
      fits = h.fits;
      spare = h.spare;
      spared = looked-HasSpare c c' h.spare h.spared o;
      enough = h.enough;
      seen = λ s home. o.same_view g.dev s set ∙ h.seen s home;
      same_disk = λ s home. ap (λ d. d g.dev s) o.same_disk ∙ h.same_disk s home;
    }

-- Fewer changes are left.
pub fewer-IsSession :
    (g : Log) (before : ℕ → Block) (l : Log) (c : Cache) (k k' : ℕ) (now : ℕ → Block)
    → IsSession g before l c k now
    → k' ≤ k
    → IsSession g before l c k' now
fewer-IsSession g before l c k k' now h le = record {
  start_eq = h.start_eq;
  size_eq = h.size_eq;
  dev_eq = h.dev_eq;
  trans = h.trans;
  active = h.active;
  room = let r = h.room in omega arith;
  fits = let r = h.fits in omega arith;
  spare = h.spare;
  spared = h.spared;
  enough = let r = h.enough in omega arith;
  seen = h.seen;
  same_disk = h.same_disk;
}

pub session-IsCalm :
    (g : Log) (before : ℕ → Block) (l : Log) (c : Cache) (k : ℕ) (now : ℕ → Block)
    → IsSession g before l c (suc k) now
    → IsCalm c
session-IsCalm g before l c k now h =
    let (a, a', more, e) = two_spare k h.spare h.enough in
    spare-IsCalm c a a' more (subst (HasSpare c) e h.spared)

pub Home-place : (g l : Log) (s : ℕ) → l.start ≡ g.start → l.size ≡ g.size → Home g s → Home l s
Home-place g l s e e' home = rw (e, e') home

-- One of the `k + 1` changes is made.
changed-IsSession :
    (g : Log) (before : ℕ → Block) (l : Log) (c : Cache) (k : ℕ) (now : ℕ → Block) (s : ℕ)
    (x : Block) (l' : Log) (c' : Cache) (spare : List ℕ)
    → IsSession g before l c (suc k) now
    → Home g s
    → IsChanged l c s x l' c'
    → HasSpare c' spare
    → k < length spare
    → IsSession g before l' c' k (update now s x)
changed-IsSession g before l c k now s x l' c' spare h home o q enough =
    let (e₁, e₂, e₃, e₄, le) = o.same_log in
    record {
      start_eq = e₁ ∙ h.start_eq;
      size_eq = e₂ ∙ h.size_eq;
      dev_eq = e₃ ∙ h.dev_eq;
      trans = o.trans;
      active = e₄ ∙ h.active;
      room = let r = h.room in omega arith;
      fits = let r = h.fits in omega arith;
      spare = spare;
      spared = q;
      enough = enough;
      seen = λ j at_home. elim (Bool-cases (s == j)) [
        | inl same ↦
            let e : s ≡ j = ground arith in
            rw same (ap (λ d. view c' d j) (sym h.dev_eq) ∙ ap (view c' l.dev) (sym e) ∙ o.here)
        | inr other ↦ rw other (
            ap (λ d. view c' d j) (sym h.dev_eq)
            ∙ o.there j (Home-place g l j h.start_eq h.size_eq at_home) (λ e. ground arith)
            ∙ ap (λ d. view c d j) h.dev_eq
            ∙ h.seen j at_home)
      ];
      same_disk = λ j at_home.
          ap (λ d. c'.disk d j) (sym h.dev_eq)
          ∙ o.same_disk j (Home-place g l j h.start_eq h.size_eq at_home)
          ∙ ap (λ d. c.disk d j) h.dev_eq
          ∙ h.same_disk j at_home;
    }

-- A sector that is read, and what its holder can do with it: let it go, or change it to `x` in the
-- log and let it go.
pub record IsOpened (g : Log) (before : ℕ → Block) (l : Log) (c : Cache) (k : ℕ) (now : ℕ → Block)
    (s b : ℕ) (c1 : Cache) : Type 0 where
  pub reads : bufcache_read c g.dev s ≡ ok (b, c1)
  pub bytes : (c1.buf b).bytes ≡ now s
  pub lets_go : (c2 : Cache) × (bufcache_release c1 b ≡ ok c2) × IsSession g before l c2 (suc k) now
  pub changes :
      (x : Block)
      → (l' : Log) × (c2 c3 : Cache) × (log_write l (set_bytes c1 b x) b ≡ ok (l', c2))
        × (bufcache_release c2 b ≡ ok c3)
        × IsSession g before l' c3 k (update now s x)

-- A sector outside the log can be read, in a transaction that has a change left.
pub session-IsOpened :
    (g : Log) (before : ℕ → Block) (l : Log) (c : Cache) (k : ℕ) (now : ℕ → Block) (s : ℕ)
    → IsSession g before l c (suc k) now
    → Home g s
    → s < 2 ^ 32
    → (b : ℕ) × (c1 : Cache) × IsOpened g before l c k now s b c1
session-IsOpened g before l c k now s h home word =
    let (a, a', more, e) = two_spare k h.spare h.enough in
    let q = subst (HasSpare c) e h.spared in
    let at_home = Home-place g l s h.start_eq h.size_eq home in
    let (b, c1, e1, r) =
      bufcache_read-IsRead c l.dev s (first-IsReadable l c h.trans a a' more q s at_home word) in
    (
      b,
      c1,
      record {
        reads = ap (λ d. bufcache_read c d s) (sym h.dev_eq) ∙ e1;
        bytes = r.seen ∙ ap (λ d. view c d s) h.dev_eq ∙ h.seen s home;
        lets_go =
            let (c2, e2, o) =
              bufcache_release-IsLooked c (spare-IsCalm c a a' more q) l.dev s b c1
                h.trans.placed.set r in
            (c2, e2, looked-IsSession g before l c c2 (suc k) now h o);
        changes = λ x.
            let roomy = h.room in
            let fit = h.fits in
            let long = length-erase_ge b (a ∷ a' ∷ more) in
            let len : length h.spare ≡ length (a ∷ a' ∷ more) = ap length e in
            let many = h.enough in
            let (l', c2, e2, o) =
              given-IsLogged l c h.trans a a' more q s at_home word b c1 r x h.active (omega arith)
                (omega arith) in
            let (c3, e3, f) =
              logged-IsReleased l c h.trans a a' more q s at_home word b c1 r x l' c2 o in
            (
              l',
              c2,
              c3,
              e2,
              e3,
              changed-IsSession g before l c k now s x l' c3 (erase b (a ∷ a' ∷ more)) h home
                  (last-IsChanged l c h.trans a a' more q s at_home word b c1 r x l' c2 o c3 f)
                  (last-HasSpare l c h.trans a a' more q s at_home word b c1 r x l' c2 o c3 f)
                  (omega arith),
            );
      },
    )
