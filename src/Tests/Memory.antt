-- ===== src/Tests/Memory.antt =====
-- Pages, quotas and page tables.
use os_project_signal.Prelude.{
  ℕ, ◌+◌, ◌-◌, ◌*◌, ◌/◌, ◌^◌, ◌≡◌, ◌≢◌, refl, inl, ◌||◌, [], ◌∷◌, arith, ◌==◌, if◌then◌else◌,
}
use os_project_signal.Pmm.Table.{
  Pmm, at_is_norm, at_is_allocated, at_set_allocated, get_nps, IsFree,
}
use os_project_signal.Pmm.Init.{Row}
use os_project_signal.Pmm.Alloc.{is_free, scan, palloc, pfree}
use os_project_signal.Pmm.Alloc.Laws.{PallocSpec, palloc-PallocSpec, pfree-palloc}
use os_project_signal.Pmm.Container.{
  Container, Mem, container_can_consume, container_split, container_alloc,
}
use os_project_signal.Pmm.Container.Laws.{
  WithinQuota, container_can_consume_wraps, container_split-WithinQuota,
}
use os_project_signal.Vmm.Table.{
  Vm, page_base, perm_kernel, perm_pw, magic_number, pde_of, pte_of, get_ptbl_entry_by_va,
}
use os_project_signal.Vmm.Init.{is_kernel, paging_init}
use os_project_signal.Vmm.Init.Identity.{paging_init-identity}
use os_project_signal.Vmm.Map.{map_page, alloc_page}
use os_project_signal.Vmm.Map.Laws.{map_page-new, alloc_page-leak}

-- Four pages: the last two are free, and the scan starts at the last.
abbrev pub pages : Pmm
pages = record {
  pages = λ i. record { perm = if i == 0 then 0 else 2; allocated = if i == 1 then 1 else 0 };
  num_pages = 4;
  last_index = 2;
}

-- One page behind page 0, which is free.
abbrev pub one_page : Pmm
one_page = record { pages = λ i. record { perm = 2; allocated = 0 }; num_pages = 2; last_index = 0 }

abbrev pub no_page : Pmm
no_page = record { pages = λ i. record { perm = 0; allocated = 0 }; num_pages = 2; last_index = 0 }

-- The root with a quota of 10 pages, one of them used, and no child.
abbrev pub boxes : ℕ → Container
boxes id =
    if id == 0
    then record { quota = 10; usage = 1; parent = 0; nchildren = 0; used = 1 }
    else record { quota = 0; usage = 0; parent = 0; nchildren = 0; used = 0 }

abbrev pub memory : Pmm → Mem
memory s = record { pmm = s; box = boxes }

memory-WithinQuota : (s : Pmm) → WithinQuota (memory s)
memory-WithinQuota s = record { within = λ id. ground arith; small = λ id. ground arith }

-- pmem_init, palloc, pfree
palloc-PallocSpec_example : PallocSpec pages (palloc pages).0 (palloc pages).1
palloc-PallocSpec_example = palloc-PallocSpec pages

-- Page 2 is free, and the second call does not find it.
palloc_run : ((palloc pages).0 ≡ 3) × ((palloc (palloc pages).1).0 ≡ 0)
unfolding palloc scan is_free at_is_norm at_is_allocated at_set_allocated get_nps
palloc_run = (refl, refl)

pfree-palloc_example :
    let (i, s') = palloc pages in
    (i ≢ 0 → IsFree pages i × (at_is_allocated s' i ≡ 1) × IsFree (pfree s' i) i)
    × ((j : ℕ) → j ≢ i → at_is_allocated (pfree s' i) j ≡ at_is_allocated pages j)
pfree-palloc_example = pfree-palloc pages

-- Two pages of user memory.
abbrev pub row : Row
row = record { start = 0x40000000; size = 0x2000; usable = 1 }

container_can_consume_wraps_example : container_can_consume (memory pages) 0 (2 ^ 32 - 1) ≡ 1
container_can_consume_wraps_example =
    container_can_consume_wraps (memory pages) 0 (2 ^ 32 - 1) (memory-WithinQuota pages)
      (omega arith) (omega arith)

can_consume_four : container_can_consume (memory pages) 0 4 ≡ 1
unfolding container_can_consume
can_consume_four = refl

container_split-WithinQuota_example : WithinQuota (container_split (memory pages) 0 4).1
container_split-WithinQuota_example =
    container_split-WithinQuota (memory pages) 0 4 (memory-WithinQuota pages) (omega arith)
      can_consume_four

-- Page tables: process 0 has one page table, at page 5, whose entries map page `n` of the first
-- 4 MB of user memory to page `16 + n`.
abbrev pub tables : Pmm → Vm
tables s = record {
  mem = memory s;
  pdir = λ proc pde. if pde == 256 then 5 * 4096 + 7 else 0;
  phys = λ a.
      if a / 4096 == 5
      then (if a - a / 4 * 4 == 0
          then 7
          else if a - a / 4 * 4 == 1
          then 16 * (a / 4 - 5 * 1024 + 1)
          else 0)
      else 0;
  base = 0;
}

-- There is no page table from 0x50000000 on.
map_page-new_example :
    let v = tables pages in
    let (r, v') = map_page v 0 0x50000000 9 7 in
    (r ≡ 3)
    × (get_ptbl_entry_by_va v' 0 0x50000000 ≡ 9 * 4096 + 7)
    × ((vb : ℕ)
        → pde_of vb ≡ pde_of 0x50000000
        → pte_of vb ≢ pte_of 0x50000000
        → get_ptbl_entry_by_va v' 0 vb ≡ 0)
    × (v'.mem ≡ (container_alloc (memory pages) 0).1)
unfolding container_alloc palloc scan is_free at_is_norm at_is_allocated get_nps
map_page-new_example =
    map_page-new (tables pages) 0 0x50000000 9 7 refl 3 (container_alloc (memory pages) 0).1 refl
      (omega arith) (omega arith) (omega arith)

alloc_page-leak_example :
    let (r, v') = alloc_page (tables one_page) 0 0x50000000 7 in
    (r ≡ magic_number)
    × (v'.pdir ≡ (tables one_page).pdir)
    × (v'.phys ≡ (tables one_page).phys)
    × IsFree one_page 1
    × (at_is_allocated v'.mem.pmm 1 ≡ 1)
    × ((v'.mem.box 0).usage ≡ 3)
unfolding palloc scan is_free at_is_norm at_is_allocated get_nps at_set_allocated
alloc_page-leak_example =
    alloc_page-leak (tables one_page) 0 0x50000000 7 (memory-WithinQuota one_page) refl
      (omega arith) (omega arith) (inl refl)

paging_init-identity_example :
    get_ptbl_entry_by_va (paging_init 0x100000 (row ∷ []) (tables pages)) 2 0xF0001234 ≡ (
      if (2 == 0) || is_kernel (pde_of 0xF0001234)
      then page_base 0xF0001234 + (if is_kernel (pde_of 0xF0001234) then perm_kernel else perm_pw)
      else 0)
paging_init-identity_example =
    paging_init-identity 0x100000 (row ∷ []) (tables pages) 2 0xF0001234 (omega arith) (omega arith)
      (omega arith) (omega arith) (omega arith)
