-- ===== src/Pmm/Init/Laws.antt =====
-- The table that pmem_init leaves.
use os_project_signal.Prelude.{
  ℕ, zero, suc, ◌+◌, ◌*◌, ◌^◌, ◌≤◌, ◌<◌, ◌≡◌, ◌↔◌, refl, inl, inr, true, false, ◌&&◌, List, [], ◌∷◌,
  arith, if◌then◌else◌, ltb, leb, Bool-cases,
}
use os_project_signal.Pmm.Table.{Pmm, set_nps, at_set_perm, at_is_norm, at_is_allocated, IsFree}
use os_project_signal.Pmm.Init.{
  page_size, vm_userlo_pi, vm_userhi_pi, Row, count_pages, covers, page_usable, page_perm,
  init_pages, pmem_init,
}

init_pages-pages :
    (rows : List Row) (s : Pmm) (rounds i j : ℕ)
    → (init_pages rows s rounds i).pages j ≡ (
        if leb i j && ltb j (i + rounds)
        then record { perm = page_perm rows j; allocated = 0 }
        else s.pages j)
unfolding init_pages at_set_perm
init_pages-pages rows s zero i j = ground arith
init_pages-pages rows s (suc rounds) i j =
    ground (arith, init_pages-pages rows (at_set_perm s i (page_perm rows i)) rounds (i + 1) j)

init_pages-num_pages :
    (rows : List Row) (s : Pmm) (rounds i : ℕ)
    → (init_pages rows s rounds i).num_pages ≡ s.num_pages
unfolding init_pages at_set_perm
init_pages-num_pages rows s zero i = refl
init_pages-num_pages rows s (suc rounds) i =
    init_pages-num_pages rows (at_set_perm s i (page_perm rows i)) rounds (i + 1)

-- Page `j` lies whole in the addresses of the row.
abbrev pub Holds : Row → ℕ → Type 0
Holds r j = (r.start ≤ j * page_size) × ((j + 1) * page_size ≤ r.start + r.size)

-- The first row that holds all of page `j` is usable.
pub data FirstUsable (j : ℕ) : List Row → Type 0 where
  here : {r : Row} {rows : List Row} → Holds r j → r.usable ≡ 1 → FirstUsable j (r ∷ rows)
  there :
      {r : Row} {rows : List Row} → ¬ (Holds r j) → FirstUsable j rows → FirstUsable j (r ∷ rows)

-- The rows end below 4 GB.
abbrev pub RowsFit : List Row → Type 0
RowsFit [] = Unit
RowsFit (r ∷ rows) = (r.start + r.size < 2 ^ 32) × RowsFit rows

module _ (j : ℕ) (below : j < vm_userhi_pi) where
  covers_iff :
      (r : Row)
      → r.start + r.size < 2 ^ 32
      → (covers r j ≡ true → Holds r j) × (covers r j ≡ false → ¬ (Holds r j))
  unfolding covers
  covers_iff r f = ground arith

  FirstUsable-of_test :
      (rows : List Row) → RowsFit rows → page_usable rows j ≡ true → FirstUsable j rows
  unfolding page_usable
  FirstUsable-of_test [] f e = absurd (cc)
  FirstUsable-of_test (r ∷ rows) f e = elim (Bool-cases (covers r j)) [
    | inl c ↦ here ((covers_iff r f.0).0 c) (ground arith)
    | inr c ↦ there ((covers_iff r f.0).1 c) (FirstUsable-of_test rows f.1 (ground arith))
  ]

  test_of_FirstUsable :
      {rows : List Row} → RowsFit rows → FirstUsable j rows → page_usable rows j ≡ true
  unfolding page_usable
  test_of_FirstUsable f (here {r} h u) = ground (arith, covers_iff r f.0)
  test_of_FirstUsable f (there {r} h rest) =
      ground (arith, covers_iff r f.0, test_of_FirstUsable f.1 rest)

-- The permission 2 is given to just the pages that belong to user space and are usable.
page_perm_iff :
    (rows : List Row) (j : ℕ)
    → RowsFit rows
    → (page_perm rows j ≡ 2) ↔ ((vm_userlo_pi ≤ j) × (j < vm_userhi_pi) × FirstUsable j rows)
unfolding page_perm
page_perm_iff rows j fit = (
  λ e. (ground arith, ground arith, FirstUsable-of_test j (ground arith) rows fit (ground arith)),
  λ (p, q, f). ground (arith, test_of_FirstUsable j q fit f),
)

page_perm-le : (rows : List Row) (j : ℕ) → page_perm rows j ≤ 2
unfolding page_perm
page_perm-le rows j = ground arith

module _ (rows : List Row) (s : Pmm) (j : ℕ) where
  pmem_init-pages : (pmem_init rows s).pages j ≡ (
      if ltb j (pmem_init rows s).num_pages
      then record { perm = page_perm rows j; allocated = 0 }
      else s.pages j)
  unfolding pmem_init set_nps
  pmem_init-pages =
      let nps = count_pages rows 0 in
      ground (
        arith,
        init_pages-pages rows (set_nps s nps) nps 0 j,
        init_pages-num_pages rows (set_nps s nps) nps 0,
      )

  -- After pmem_init, a page of the table is free for palloc exactly when it belongs to user space
  -- and the first row of the memory map that holds all of it is usable; every page of the table
  -- is unallocated, and the pages behind the table are as before. The rows are to end below 4 GB.
  pub pmem_init-IsFree :
      RowsFit rows
      → let s' = pmem_init rows s in
        (j < s'.num_pages
          → (IsFree s' j ↔ ((vm_userlo_pi ≤ j) × (j < vm_userhi_pi) × FirstUsable j rows))
            × (at_is_allocated s' j ≡ 0))
        × (s'.num_pages ≤ j → s'.pages j ≡ s.pages j)
  unfolding at_is_norm at_is_allocated
  pmem_init-IsFree fit =
      let iff = page_perm_iff rows j fit in
      (
        λ inside. (
          (
            λ free. iff.0 (ground (arith, pmem_init-pages, page_perm-le rows j)),
            λ u. (ground (arith, pmem_init-pages, iff.1 u), ground (arith, pmem_init-pages)),
          ),
          ground (arith, pmem_init-pages),
        ),
        λ outside. ground (arith, pmem_init-pages),
      )
