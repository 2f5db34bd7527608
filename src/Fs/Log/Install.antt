-- ===== src/Fs/Log/Install.antt =====
-- install_trans, read_head, write_head and recover_from_log on a cache that nobody else uses.
use os_project_signal.Prelude.{
  ℕ, zero, suc, ◌+◌, ◌≤◌, ◌<◌, ◌≡◌, ◌≢◌, inl, inr, refl, sym, ap, subst, ◌∙◌, ◌∷◌, ◌++◌, arith,
  ◌==◌, if◌then◌else◌, Bool-cases,
}
use os_project_signal.Fs.Result.{ok}
use os_project_signal.Fs.Cache.{Cache, Block}
use os_project_signal.Fs.Cache.Inv.{unset, view}
use os_project_signal.Fs.Cache.Copy.{
  IsCalm, copy, store-IsStored, copy-IsStored, calm-IsReadable, stored-IsCalm,
}
use os_project_signal.Fs.Cache.Update.{IsStored}
use os_project_signal.Fs.Log.{
  Log, rounds, install_block, install_blocks, install_trans, header, write_head,
}
use os_project_signal.Fs.Log.Redo.{Home, IsPlaced, redo, installs, redo-elsewhere}

-- The cache after the first `n` rounds of install_trans.
pub record IsInstalled (l : Log) (c : Cache) (n : ℕ) (c' : Cache) : Type 0 where
  pub calm : IsCalm c'
  pub disk : (s : ℕ) → c'.disk l.dev s ≡ redo l.start l.sector (c.disk l.dev) (c.disk l.dev) n s
  pub other_disks : (d s : ℕ) → d ≢ l.dev → c'.disk d s ≡ c.disk d s
  pub seen : (s : ℕ) → view c' l.dev s ≡ redo l.start l.sector (c.disk l.dev) (view c l.dev) n s
  pub written : c'.written ≡ installs l (c.disk l.dev) n ++ c.written

install_block-copy :
    (l : Log) (c : Cache) (n : ℕ)
    → install_block l c n ≡ copy c l.dev (l.start + n + 1) (l.sector n)
unfolding install_block
install_block-copy l c n = refl

-- The log block that a round copies, which no reader sees differently from the disk.
abbrev pub IsFlushed : Log → Cache → Type 0
IsFlushed l c = (i : ℕ) → i < l.n → view c l.dev (l.start + i + 1) ≡ c.disk l.dev (l.start + i + 1)

-- The stored sector in a function of sectors.
stored-if :
    (f f' : ℕ → Block) (to s : ℕ) (x y : Block)
    → f' to ≡ x
    → (s ≢ to → f' s ≡ y)
    → f' s ≡ (if to == s then x else y)
stored-if f f' to s x y here there = elim (Bool-cases (to == s)) [
  | inl same ↦ let e : to ≡ s = ground arith in rw same (ap f' (sym e) ∙ here)
  | inr other ↦ rw other (there (λ e. ground arith))
]

module _ (l : Log) (c : Cache) (p : IsPlaced l) (q : IsCalm c) (flushed : IsFlushed l c) where
  log-away : (n : ℕ) → n < l.n → ¬ (Home l (l.start + n + 1))
  log-away n lt h = let f = p.fits in absurd (omega arith)

  -- One more round.
  round-IsInstalled :
      (n : ℕ) (c1 : Cache)
      → n < l.n
      → IsInstalled l c n c1
      → (c' : Cache) × (install_block l c1 n ≡ ok c') × IsInstalled l c (suc n) c'
  unfolding redo installs
  round-IsInstalled n c1 lt h =
      let from = l.start + n + 1 in
      let (c', e, s) =
        copy-IsStored c1 l.dev from (l.sector n) h.calm p.set
          (λ e. log-away n lt (subst (Home l) (sym e) (p.homes n lt))) in
      let source : view c1 l.dev from ≡ c.disk l.dev from =
        h.seen from
        ∙ redo-elsewhere l (c.disk l.dev) (view c l.dev) n from p (omega arith) (log-away n lt)
        ∙ flushed n lt in
      (
        c',
        install_block-copy l c1 n ∙ e,
        record {
          calm = stored-IsCalm c1 l.dev (l.sector n) _ c' h.calm s;
          disk = λ k.
              stored-if (c1.disk l.dev) (c'.disk l.dev) (l.sector n) k _ _ (s.disk_here ∙ source)
                (λ ne. s.disk_there l.dev k (λ (_, e). ne e) ∙ h.disk k);
          other_disks = λ d k ne. s.disk_there d k (λ (e, _). ne e) ∙ h.other_disks d k ne;
          seen = λ k.
              stored-if (view c1 l.dev) (view c' l.dev) (l.sector n) k _ _ (s.view_here ∙ source)
                (λ ne. s.view_there l.dev k p.set (λ (_, e). ne e) ∙ h.seen k);
          written =
              s.written
              ∙ ap (λ x. (l.dev, l.sector n, x) ∷ c1.written) source
              ∙ ap (λ ws. (l.dev, l.sector n, c.disk l.dev from) ∷ ws) h.written;
        },
      )

  pub install_blocks-IsInstalled :
      (n : ℕ) → n ≤ l.n → (c' : Cache) × (install_blocks l c n ≡ ok c') × IsInstalled l c n c'
  unfolding install_blocks redo installs
  install_blocks-IsInstalled zero le = (
    c,
    refl,
    record {
      calm = q;
      disk = λ s. refl;
      other_disks = λ d s ne. refl;
      seen = λ s. refl;
      written = refl;
    },
  )
  install_blocks-IsInstalled (suc n) le =
      let (c1, e, h) = install_blocks-IsInstalled n (omega arith) in
      let (c', e', h') = round-IsInstalled n c1 (omega arith) h in (c', rw e e', h')

  pub install_trans-IsInstalled :
      (c' : Cache) × (install_trans l c ≡ ok c') × IsInstalled l c l.n c'
  unfolding install_trans
  install_trans-IsInstalled =
      let small = p.small in
      let all : rounds l.n ≡ l.n = ground arith in
      let (c', e, h) = install_blocks-IsInstalled l.n (omega arith) in
      (c', ap (install_blocks l c) all ∙ e, h)

pub write_head-IsStored :
    (l : Log) (c : Cache)
    → IsCalm c
    → l.dev ≢ unset
    → (c' : Cache) × (write_head l c ≡ ok c')
      × IsStored c l.dev l.start (header l (view c l.dev l.start)) c'
unfolding write_head
write_head-IsStored l c q set =
    store-IsStored c l.dev l.start (header l) (calm-IsReadable c l.dev l.start q set)
