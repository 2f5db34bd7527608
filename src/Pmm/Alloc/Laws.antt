-- ===== src/Pmm/Alloc/Laws.antt =====
-- What palloc hands out, and which page it chooses.
use native.Mathlib.Nat.{le_refl, mod-eq_of_lt}
use os_project_signal.Prelude.{
  ==_refl, ==-false, ℕ, zero, suc, ◌+◌, ◌-◌, ◌%◌, ◌≤◌, ◌<◌, ◌≡◌, ◌≢◌, refl, ◌⊎◌, inl, inr, true,
  false, arith, ◌==◌, if◌then◌else◌, ltb, u32, Bool-cases, sym, ap,
}
use os_project_signal.Pmm.Table.{
  Pmm, get_nps, at_is_norm, at_is_allocated, at_set_allocated, IsFree,
}
use os_project_signal.Pmm.Alloc.{is_free, scan, palloc, pfree}

IsFree-of_test : (s : Pmm) (i : ℕ) → is_free s i ≡ true → IsFree s i
unfolding is_free at_is_norm at_is_allocated
IsFree-of_test s i h = ground arith

test_of_IsFree : (s : Pmm) (i : ℕ) → IsFree s i → is_free s i ≡ true
unfolding is_free at_is_norm at_is_allocated
test_of_IsFree s i h = ground arith

-- What the loop finds: the first free page from `i` on, or none.
record Scanned (s : Pmm) (tnps i found : ℕ) : Type 0 where
  pub ranged : (found ≡ tnps) ⊎ ((i ≤ found) × (found < tnps) × (is_free s found ≡ true))
  pub first : (j : ℕ) → i ≤ j → j < found → is_free s j ≡ false

scan-Scanned :
    (s : Pmm) (tnps rounds i : ℕ) → tnps - i ≤ rounds → Scanned s tnps i (scan s tnps rounds i)
unfolding scan
scan-Scanned s tnps zero i h = record { ranged = inl refl; first = λ j p q. absurd (omega arith) }
scan-Scanned s tnps (suc rounds) i h = elim (Bool-cases (ltb i tnps)) [
  | inl inside ↦ rw inside (elim (Bool-cases (is_free s i)) [
    | inl free ↦ rw free (record {
      ranged = inr (le_refl i, ground arith, free);
      first = λ j p q. absurd (omega arith);
    })
    | inr taken ↦ rw taken (next taken (scan-Scanned s tnps rounds (i + 1) (ground arith)))
  ])
  | inr outside ↦ rw outside (record { ranged = inl refl; first = λ j p q. ground arith })
]
  where
    next : {found : ℕ} → is_free s i ≡ false → Scanned s tnps (i + 1) found → Scanned s tnps i found
    next taken rest = record {
      ranged = elim rest.ranged [ inl e ↦ inl e | inr (p, q, free) ↦ inr (omega arith, q, free) ];
      first = λ j p q. ground (arith, rest.first j);
    }

-- Behind last_palloc_index, where palloc starts.
abbrev pub start_of : Pmm → ℕ
start_of s = u32 (s.last_index + 1)

-- palloc either returns 0, and then no page from the start of its scan on is free and no page of
-- the table changes, or returns the first free page from there on, which lies in the table, and
-- marks that page as allocated and no other; in both cases it records the result as the place
-- from where the next scan goes on.
pub data PallocSpec (s : Pmm) : ℕ → Pmm → Type 0 where
  exhausted :
      {s' : Pmm}
      → ((j : ℕ) → start_of s ≤ j → j < s.num_pages → ¬ (IsFree s j))
      → s'.pages ≡ s.pages
      → s'.num_pages ≡ s.num_pages
      → s'.last_index ≡ 0
      → PallocSpec s 0 s'
  taken :
      {i : ℕ} {s' : Pmm}
      → start_of s ≤ i
      → i < s.num_pages
      → IsFree s i
      → ((j : ℕ) → start_of s ≤ j → j < i → ¬ (IsFree s j))
      → s'.pages ≡ (at_set_allocated s i 1).pages
      → s'.num_pages ≡ s.num_pages
      → s'.last_index ≡ i
      → PallocSpec s i s'

scanned :
    (s : Pmm)
    → Scanned s s.num_pages
        (start_of s)
        (scan s s.num_pages (s.num_pages - start_of s) (start_of s))
scanned s = scan-Scanned s s.num_pages (s.num_pages - start_of s) (start_of s) (le_refl _)

not-IsFree-of_test : (s : Pmm) (i : ℕ) → is_free s i ≡ false → ¬ (IsFree s i)
not-IsFree-of_test s i h f = ground (arith, test_of_IsFree s i f)

palloc-result :
    (s : Pmm) (found : ℕ)
    → Scanned s s.num_pages (start_of s) found
    → let s' = if found == s.num_pages then s else at_set_allocated s found 1 in
      let index = if found == s.num_pages then 0 else found in
      PallocSpec s index (record s' { last_index = index % s.num_pages })
unfolding at_set_allocated
palloc-result s found sc = elim sc.ranged [
  | inl e ↦
      rw (e, ==_refl)
        (exhausted (λ j a b. not-IsFree-of_test s j (sc.first j a (omega arith))) refl refl
          (omega arith))
  | inr (p, q, free) ↦ rw (==-false found s.num_pages (omega arith)) (
      taken p q (IsFree-of_test s found free) (λ j a b. not-IsFree-of_test s j (sc.first j a b))
        refl refl (mod-eq_of_lt q))
]

-- palloc meets `PallocSpec`: on every table, with every starting place.
pub palloc-PallocSpec : (s : Pmm) → PallocSpec s (palloc s).0 (palloc s).1
unfolding palloc get_nps
palloc-PallocSpec s = palloc-result s _ (scanned s)

found_of_IsFree :
    {s : Pmm} {i : ℕ} {s' : Pmm}
    → PallocSpec s i s'
    → (j : ℕ) → start_of s ≤ j
    → j < s.num_pages
    → IsFree s j
    → i ≢ 0 ⊎ (start_of s ≡ 0)
found_of_IsFree (exhausted no_page same n l) j p q free = absurd (no_page j p q free)
found_of_IsFree (taken p' q' f g h n l) j p q free = ground arith

IsFree-congr : (s t : Pmm) (j : ℕ) → s.pages ≡ t.pages → IsFree s j → IsFree t j
unfolding at_is_norm at_is_allocated
IsFree-congr s t j e h = ground (arith, ap (λ f. f j) e)

retry :
    {s : Pmm} {i : ℕ} {s' : Pmm} (j : ℕ)
    → PallocSpec s i s'
    → i ≡ 0
    → 0 < start_of s
    → 0 < j
    → j < s.num_pages
    → IsFree s j
    → (palloc s').0 ≢ 0
retry {s' = s'} j (exhausted no_page same n l) z st p q free = ground (
  arith,
  found_of_IsFree (palloc-PallocSpec s') j (omega arith) (omega arith)
      (IsFree-congr _ s' j (sym same) free),
)
retry j (taken p' q' f g h n l) z st p q free = absurd (omega arith)

-- palloc does not wrap round within one call, and can return 0 while a page below its starting
-- place is free; the next call then starts again at page 1. So if any page but page 0 is free, one
-- of two calls in a row hands out a page.
pub palloc-palloc :
    (s : Pmm) (j : ℕ)
    → 0 < start_of s
    → 0 < j
    → j < s.num_pages
    → IsFree s j
    → ((palloc s).0 ≢ 0) ⊎ ((palloc (palloc s).1).0 ≢ 0)
palloc-palloc s j st p q free = elim (Bool-cases ((palloc s).0 == 0)) [
  | inl z ↦ inr (retry j (palloc-PallocSpec s) (ground arith) st p q free)
  | inr ne ↦ inl (ground arith)
]

-- What palloc hands out is not handed out again before it is freed: right after the call the page
-- is allocated, and pfree makes just that page free again if its permission is the normal one.
pub pfree-palloc :
    (s : Pmm)
    → let (i, s') = palloc s in
      (i ≢ 0 → IsFree s i × (at_is_allocated s' i ≡ 1) × IsFree (pfree s' i) i)
      × ((j : ℕ) → j ≢ i → at_is_allocated (pfree s' i) j ≡ at_is_allocated s j)
unfolding pfree at_set_allocated at_is_norm at_is_allocated
pfree-palloc s = from_spec (palloc-PallocSpec s)
  where
    from_spec :
        {i : ℕ} {s' : Pmm}
        → PallocSpec s i s'
        → (i ≢ 0 → IsFree s i × (at_is_allocated s' i ≡ 1) × IsFree (pfree s' i) i)
          × ((j : ℕ) → j ≢ i → at_is_allocated (pfree s' i) j ≡ at_is_allocated s j)
    from_spec (exhausted {s' = s'} no_page same n l) =
        (λ ne. absurd (ne refl), λ j ne. ground (arith, ap (λ f. f j) same))
    from_spec (taken {i = i} {s' = s'} p q free g same n l) = (
      λ ne. (free, ground (arith, ap (λ f. f i) same), ground (arith, ap (λ f. f i) same)),
      λ j ne. ground (arith, ap (λ f. f j) same),
    )

-- palloc marks no other page than the one that it hands out.
pub palloc-kept :
    (s : Pmm) (j : ℕ) → j ≢ (palloc s).0 → at_is_allocated (palloc s).1 j ≡ at_is_allocated s j
unfolding at_is_allocated at_set_allocated
palloc-kept s j other = from_spec (palloc-PallocSpec s) other
  where
    from_spec :
        {i : ℕ} {s' : Pmm} → PallocSpec s i s' → j ≢ i → at_is_allocated s' j ≡ at_is_allocated s j
    from_spec (exhausted {s' = s'} no_page same n l) ne = ground (arith, ap (λ f. f j) same)
    from_spec (taken {i = i} {s' = s'} p q free g same n l) ne = ground (arith, ap (λ f. f j) same)
