-- ===== src/Fs/Cache/Inv.antt =====
-- The invariant of the buffer cache, and what a reader of a sector sees.
use os_project_signal.Prelude.{
  ℕ, ◌-◌, ◌^◌, ◌<◌, ◌≡◌, ◌≢◌, ◌⊎◌, inl, inr, refl, sym, ap, ◌∙◌, true, false, List, [], ◌∷◌, arith,
  ◌==◌, if◌then◌else◌, mem, Distinct, Bool-cases, ==-false,
}
use os_project_signal.Fs.Cache.{Buf, Cache, Block, nbuf, find_cached, find_clean}

-- The device number of a buffer that was never used.
abbrev pub unset : ℕ
unset = 2 ^ 32 - 1

-- The list names each buffer once. No two buffers hold the same sector; what is dirty is valid, and
-- what is valid, not dirty and not in use is as on the disk.
pub record IsCache (c : Cache) : Type 0 where
  pub listed : (b : ℕ) → mem b c.order ≡ true → b < nbuf
  pub complete : (b : ℕ) → b < nbuf → mem b c.order ≡ true
  pub distinct : Distinct c.order
  pub unique :
      (a b : ℕ)
      → a < nbuf
      → b < nbuf
      → (c.buf a).dev ≡ (c.buf b).dev
      → (c.buf a).sector ≡ (c.buf b).sector
      → (c.buf a).dev ≢ unset
      → a ≡ b
  pub dirty_valid : (b : ℕ) → b < nbuf → (c.buf b).dirty ≡ true → (c.buf b).valid ≡ true
  pub coherent :
      (b : ℕ)
      → b < nbuf
      → (c.buf b).valid ≡ true
      → (c.buf b).dirty ≡ false
      → (c.buf b).busy ≡ false
      → (c.buf b).bytes ≡ c.disk (c.buf b).dev (c.buf b).sector

-- What bufcache_read shows of the sector.
abbrev pub view : Cache → ℕ → ℕ → Block
view c dev sector =
    let b = find_cached c.buf c.order dev sector in
    if b == nbuf
    then c.disk dev sector
    else if (c.buf b).valid
    then (c.buf b).bytes
    else c.disk dev sector

abbrev pub Caches : Cache → ℕ → ℕ → ℕ → Type 0
Caches c b dev sector = (b < nbuf) × ((c.buf b).dev ≡ dev) × ((c.buf b).sector ≡ sector)

find_cached-found :
    (buf : ℕ → Buf) (xs : List ℕ) (dev sector : ℕ)
    → find_cached buf xs dev sector ≢ nbuf
    → let b = find_cached buf xs dev sector in
      (mem b xs ≡ true) × ((buf b).dev ≡ dev) × ((buf b).sector ≡ sector)
unfolding find_cached
find_cached-found buf [] dev sector h = absurd (h refl)
find_cached-found buf (b ∷ bs) dev sector h = ground (arith, find_cached-found buf bs dev sector)

find_cached-none :
    (buf : ℕ → Buf) (xs : List ℕ) (dev sector b : ℕ)
    → find_cached buf xs dev sector ≡ nbuf
    → mem nbuf xs ≡ false
    → mem b xs ≡ true
    → (buf b).dev ≡ dev
    → (buf b).sector ≢ sector
unfolding find_cached
find_cached-none buf [] dev sector b h o m e e' = cc
find_cached-none buf (x ∷ xs) dev sector b h o m e e' =
    ground (arith, find_cached-none buf xs dev sector b)

find_clean-clean :
    (buf : ℕ → Buf) (xs : List ℕ)
    → find_clean buf xs ≢ nbuf
    → let b = find_clean buf xs in
      (mem b xs ≡ true) × ((buf b).busy ≡ false) × ((buf b).dirty ≡ false)
unfolding find_clean
find_clean-clean buf [] h = absurd (h refl)
find_clean-clean buf (b ∷ bs) h = ground (arith, find_clean-clean buf bs)

pub find_clean-finds :
    (buf : ℕ → Buf) (xs : List ℕ) (b : ℕ)
    → mem nbuf xs ≡ false
    → mem b xs ≡ true
    → (buf b).busy ≡ false
    → (buf b).dirty ≡ false
    → find_clean buf xs ≢ nbuf
unfolding find_clean
find_clean-finds buf [] b o m e e' = λ h. cc
find_clean-finds buf (x ∷ xs) b o m e e' = λ h. ground (arith, find_clean-finds buf xs b)

module _ (c : Cache) (v : IsCache c) where
  pub head_unlisted : mem nbuf c.order ≡ false
  head_unlisted = let l = v.listed nbuf in ground arith

  pub clean-clean :
      find_clean c.buf c.order ≢ nbuf
      → let b = find_clean c.buf c.order in
        (b < nbuf) × ((c.buf b).busy ≡ false) × ((c.buf b).dirty ≡ false)
  clean-clean h = let (m, e, e') = find_clean-clean c.buf c.order h in (v.listed _ m, e, e')

  module _ (dev sector : ℕ) where
    pub cached-Caches :
        find_cached c.buf c.order dev sector ≢ nbuf
        → Caches c (find_cached c.buf c.order dev sector) dev sector
    cached-Caches h =
        let (m, e, e') = find_cached-found c.buf c.order dev sector h in (v.listed _ m, e, e')

    pub not-Caches :
        find_cached c.buf c.order dev sector ≡ nbuf → (b : ℕ) → ¬ (Caches c b dev sector)
    not-Caches h b (lt, e, e') =
        find_cached-none c.buf c.order dev sector b h head_unlisted (v.complete b lt) e e'

    pub find-Caches :
        (b : ℕ) → dev ≢ unset → Caches c b dev sector → find_cached c.buf c.order dev sector ≡ b
    find-Caches b set h = elim (Bool-cases (find_cached c.buf c.order dev sector == nbuf)) [
      | inl none_found ↦ absurd (not-Caches (ground arith) b h)
      | inr found ↦
          let (lt, e, e') = cached-Caches (λ n. ground arith) in
          v.unique _ b lt h.0 (e ∙ sym h.1) (e' ∙ sym h.2) (λ u. set (sym e ∙ u))
    ]

    -- The two ways to see a sector.
    pub view-hit :
        (b : ℕ)
        → dev ≢ unset
        → Caches c b dev sector
        → (c.buf b).valid ≡ true
        → view c dev sector ≡ (c.buf b).bytes
    view-hit b set h valid =
        let ne = ==-false b nbuf (omega arith) in rw (find-Caches b set h, ne, valid) refl

    pub view-miss :
        dev ≢ unset
        → ((b : ℕ) → Caches c b dev sector → (c.buf b).valid ≡ false)
        → view c dev sector ≡ c.disk dev sector
    view-miss set none_valid = elim (Bool-cases (find_cached c.buf c.order dev sector == nbuf)) [
      | inl none_found ↦ rw none_found refl
      | inr found ↦ rw (found, none_valid _ (cached-Caches (λ n. ground arith))) refl
    ]

    pub view-cases :
        dev ≢ unset
        → ((b : ℕ) × Caches c b dev sector × ((c.buf b).valid ≡ true))
          ⊎ ((b : ℕ) → Caches c b dev sector → (c.buf b).valid ≡ false)
    view-cases set = elim (Bool-cases (find_cached c.buf c.order dev sector == nbuf)) [
      | inl none_found ↦ inr (λ b h. absurd (not-Caches (ground arith) b h))
      | inr found ↦
          let h = cached-Caches (λ n. ground arith) in
          let f = find_cached c.buf c.order dev sector in
          elim (Bool-cases (c.buf f).valid) [
            | inl valid ↦ inl (f, h, valid)
            | inr stale ↦
                inr (λ b h'. ap (λ i. (c.buf i).valid) (sym (find-Caches b set h')) ∙ stale)
          ]
    ]
