-- ===== src/Fs/Log/Changing.antt =====
-- A transaction while a block is being changed, and the place of its sector in the log.
use os_project_signal.Prelude.{
  ℕ, zero, suc, ◌+◌, ◌^◌, ◌<◌, ◌≡◌, ◌≢◌, ◌⊎◌, inl, inr, refl, sym, ap, subst, ◌∙◌, true, false,
  arith, ◌==◌, Bool-cases, ==_refl, ==-false,
}
use os_project_signal.Vmm.Phys.{read_word}
use os_project_signal.Fs.Cache.{Cache, Block, nbuf, set_bytes}
use os_project_signal.Fs.Cache.Inv.{IsCache, view}
use os_project_signal.Fs.Cache.Write.{set_bytes-view_ne}
use os_project_signal.Fs.Log.{Log, find_sector}
use os_project_signal.Fs.Log.Redo.{Home, IsPlaced, redo}
use os_project_signal.Fs.Log.Reboot.{IsTrans}

-- A transaction whose changes of the sector `changing` are not in the log yet.
pub record IsChanging (l : Log) (c : Cache) (changing : ℕ) : Type 0 where
  pub placed : IsPlaced l
  pub words : (i : ℕ) → i < l.n → l.sector i < 2 ^ 32
  pub distinct : (i j : ℕ) → i < l.n → j < l.n → l.sector i ≡ l.sector j → i ≡ j
  pub uncommitted : read_word (c.disk l.dev l.start) 0 ≡ 0
  pub flushed : (s : ℕ) → ¬ (Home l s) → view c l.dev s ≡ c.disk l.dev s
  pub current :
      (s : ℕ)
      → Home l s
      → s ≢ changing
      → redo l.start l.sector (c.disk l.dev) (c.disk l.dev) l.n s ≡ view c l.dev s

pub find_sector-cases :
    (sector : ℕ → ℕ) (n s : ℕ)
    → ((find_sector sector n s < n) × (sector (find_sector sector n s) ≡ s))
      ⊎ ((find_sector sector n s ≡ n) × ((i : ℕ) → i < n → sector i ≢ s))
unfolding find_sector
find_sector-cases sector zero s = inr (refl, λ i p. absurd (omega arith))
find_sector-cases sector (suc n) s = elim (find_sector-cases sector n s) [
  | inl (lt, e) ↦
      let below = ==-false (find_sector sector n s) n (omega arith) in
      rw below (inl (omega arith, e))
  | inr (e, none) ↦ elim (Bool-cases (sector n == s)) [
    | inl same ↦ rw (e, ==_refl n, same) (inl (omega arith, ground arith))
    | inr other ↦ rw (e, ==_refl n, other) (inr (refl, λ i p. let z = none i in ground arith))
  ]
]

pub redo-congr_at :
    (start : ℕ) (sector sector' : ℕ → ℕ) (logged logged' base base' : ℕ → Block) (n s : ℕ)
    → ((i : ℕ) → i < n → sector i ≡ sector' i)
    → ((i : ℕ) → i < n → sector i ≡ s → logged (start + i + 1) ≡ logged' (start + i + 1))
    → base s ≡ base' s
    → redo start sector logged base n s ≡ redo start sector' logged' base' n s
unfolding redo
redo-congr_at start sector sector' logged logged' base base' zero s h g e = e
redo-congr_at start sector sector' logged logged' base base' (suc n) s h g e =
    let rest =
      redo-congr_at start sector sector' logged logged' base base' n s (λ i p. h i (omega arith))
        (λ i p. g i (omega arith)) e in
    let same = h n (omega arith) in
    elim (Bool-cases (sector n == s)) [
      | inl last ↦
          let last' : (sector' n == s) ≡ true = ground arith in
          rw (last, last') (g n (omega arith) (ground arith))
      | inr other ↦ let other' : (sector' n == s) ≡ false = ground arith in rw (other, other') rest
    ]

-- A sector that is named once.
pub redo-at :
    (start : ℕ) (sector : ℕ → ℕ) (logged base : ℕ → Block) (n i : ℕ)
    → ((k j : ℕ) → k < n → j < n → sector k ≡ sector j → k ≡ j)
    → i < n
    → redo start sector logged base n (sector i) ≡ logged (start + i + 1)
unfolding redo
redo-at start sector logged base zero i d lt = absurd (omega arith)
redo-at start sector logged base (suc n) i d lt = elim (Bool-cases (sector n == sector i)) [
  | inl last ↦
      let e = d n i (omega arith) lt (ground arith) in rw last (ap (λ k. logged (start + k + 1)) e)
  | inr other ↦
      let below : i < n = ground arith in
      rw other
        (redo-at start sector logged base n i (λ k j p q. d k j (omega arith) (omega arith)) below)
]

-- The holder of a block changes it.
pub set_bytes-IsChanging :
    (l : Log) (c : Cache) (b : ℕ) (bytes : Block)
    → IsTrans l c
    → IsCache c
    → b < nbuf
    → (c.buf b).busy ≡ true
    → (c.buf b).dev ≡ l.dev
    → Home l (c.buf b).sector
    → IsChanging l (set_bytes c b bytes) (c.buf b).sector
set_bytes-IsChanging l c b bytes t v lt busy dev home = record {
  placed = t.placed;
  words = t.words;
  distinct = t.distinct;
  uncommitted = t.uncommitted;
  flushed = λ s out.
      set_bytes-view_ne c v b lt busy bytes l.dev s t.placed.set
        (λ (_, e). out (subst (Home l) (sym e) home))
      ∙ t.flushed s out;
  current = λ s h ne.
      t.current s h
      ∙ sym (set_bytes-view_ne c v b lt busy bytes l.dev s t.placed.set (λ (_, e). ne e));
}
