-- ===== src/Vmm/Map/Laws.antt =====
-- What map_page, unmap_page and alloc_page do to the translation of addresses.
use os_project_signal.Prelude.{
  ℕ, zero, suc, ◌+◌, ◌*◌, ◌^◌, ◌≤◌, ◌<◌, ◌≡◌, ◌≢◌, ◌⊎◌, refl, ◌∙◌, ap, Bool, true, false, ◌&&◌,
  arith, ◌==◌, if◌then◌else◌, ltb, leb, u32, inl, inr, Bool-cases, ==-false, sym,
}
use os_project_signal.Pmm.Table.{at_is_allocated, IsFree}
use os_project_signal.Pmm.Alloc.{palloc}
use os_project_signal.Pmm.Alloc.Laws.{pfree-palloc, palloc-kept}
use os_project_signal.Pmm.Container.{Mem, container_alloc}
use os_project_signal.Pmm.Container.Laws.{
  WithinQuota, container_alloc_lem, container_alloc-quota, container_alloc-WithinQuota,
}
use os_project_signal.Vmm.Phys.{
  read_word, write_word, read_word-write_word, read_word-write_word_ne,
}
use os_project_signal.Vmm.Table.{
  Vm, page_size, perm_ptu, magic_number, entry_addr, set_pdir_entry, set_ptbl_entry, rmv_ptbl_entry,
  get_pdir_entry, get_ptbl_entry, get_ptbl_entry_by_va, get_pdir_entry_by_va, set_ptbl_entry_by_va,
  set_pdir_entry_by_va, pde_of, pte_of,
}
use os_project_signal.Vmm.Map.{clear_table, alloc_ptbl, map_page, alloc_page}

-- The word at `a` does not touch the word at `b`.
abbrev pub Apart : ℕ → ℕ → Type 0
Apart a b = a + 4 ≤ b ⊎ (b + 4 ≤ a)

-- Where the entry of an address lies.
abbrev pub slot_of : Vm → ℕ → ℕ → ℕ
slot_of v proc va = entry_addr v proc (pde_of va) (pte_of va)

module _ (v : Vm) (proc va page perm : ℕ) (fits : page * page_size + perm < 2 ^ 32) where
  set_ptbl_entry_by_va-get :
      v.pdir proc (pde_of va) ≢ 0
      → get_ptbl_entry_by_va (set_ptbl_entry_by_va v proc va page perm) proc va
        ≡ page * page_size + perm
  unfolding set_ptbl_entry_by_va set_ptbl_entry get_ptbl_entry_by_va get_ptbl_entry get_pdir_entry
  set_ptbl_entry_by_va-get table =
      ground (arith, read_word-write_word v.phys (slot_of v proc va) (page * page_size + perm))

  -- If the page table of the address is there and the new entry is below 2 ^ 32, map_page returns
  -- 0, the address translates to the page with the permission, no translation whose entry lies in
  -- another word changes, and no page is allocated.
  pub map_page-present :
      v.pdir proc (pde_of va) ≢ 0
      → let (r, v') = map_page v proc va page perm in
        (r ≡ 0)
        × (get_ptbl_entry_by_va v' proc va ≡ page * page_size + perm)
        × ((q vb : ℕ)
            → Apart (slot_of v proc va) (slot_of v q vb)
            → get_ptbl_entry_by_va v' q vb ≡ get_ptbl_entry_by_va v q vb)
        × (v'.mem ≡ v.mem)
  unfolding map_page get_pdir_entry_by_va get_pdir_entry set_ptbl_entry_by_va set_ptbl_entry
      get_ptbl_entry_by_va get_ptbl_entry
  map_page-present table = rw (==-false _ 0 table) (
    refl,
    set_ptbl_entry_by_va-get table,
    λ q vb apart. ground (
      arith,
      read_word-write_word_ne v.phys (slot_of v proc va) (slot_of v q vb)
          (u32 (page * page_size + perm)) apart,
    ),
    refl,
  )

clear_table-read :
    (rounds i l proc pde : ℕ) (v : Vm)
    → read_word (clear_table v proc pde rounds i).phys (entry_addr v proc pde l)
      ≡ (if leb i l && ltb l (i + rounds) then 0 else read_word v.phys (entry_addr v proc pde l))
unfolding clear_table rmv_ptbl_entry
clear_table-read zero i l proc pde v = ground arith
clear_table-read (suc rounds) i l proc pde v =
    step _ (clear_table-read rounds (i + 1) l proc pde (rmv_ptbl_entry v proc pde i))
      (first (Bool-cases (i == l)))
  where
    first :
        ((i == l) ≡ true) ⊎ ((i == l) ≡ false)
        → read_word (write_word v.phys (entry_addr v proc pde i) 0) (entry_addr v proc pde l)
          ≡ (if i == l then 0 else read_word v.phys (entry_addr v proc pde l))
    first (inl same) =
        let e : i ≡ l = ground arith in
        rw (same, e) (read_word-write_word v.phys (entry_addr v proc pde l) 0 (omega arith))
    first (inr other) = rw other (
        read_word-write_word_ne v.phys (entry_addr v proc pde i) (entry_addr v proc pde l) 0
          (ground arith))

    step :
        {a b : ℕ} (c : ℕ)
        → a ≡ (if leb (i + 1) l && ltb l (i + 1 + rounds) then 0 else b)
        → b ≡ (if i == l then 0 else c)
        → a ≡ (if leb i l && ltb l (i + suc rounds) then 0 else c)
    step c e e' = ground arith

clear_table-pdir :
    (rounds i proc pde : ℕ) (v : Vm) → (clear_table v proc pde rounds i).pdir ≡ v.pdir
unfolding clear_table rmv_ptbl_entry
clear_table-pdir zero i proc pde v = refl
clear_table-pdir (suc rounds) i proc pde v =
    clear_table-pdir rounds (i + 1) proc pde (rmv_ptbl_entry v proc pde i)

clear_table-mem : (rounds i proc pde : ℕ) (v : Vm) → (clear_table v proc pde rounds i).mem ≡ v.mem
unfolding clear_table rmv_ptbl_entry
clear_table-mem zero i proc pde v = refl
clear_table-mem (suc rounds) i proc pde v =
    clear_table-mem rounds (i + 1) proc pde (rmv_ptbl_entry v proc pde i)

-- The state after alloc_ptbl has found page `pi` for the table.
abbrev with_table : Vm → ℕ → ℕ → ℕ → Mem → Vm
with_table v proc va pi mem =
    clear_table (set_pdir_entry_by_va (record v { mem = mem }) proc va pi) proc (pde_of va) 1024 0

module _ (v : Vm) (proc va pi : ℕ) (mem : Mem) (h : pi < 2 ^ 20) where
  with_table-pdir :
      ((with_table v proc va pi mem).pdir proc (pde_of va)) ≡ pi * page_size + perm_ptu
  unfolding set_pdir_entry_by_va set_pdir_entry
  with_table-pdir =
      ap (λ f. f proc (pde_of va))
        (clear_table-pdir 1024 0 proc (pde_of va)
          (set_pdir_entry_by_va (record v { mem = mem }) proc va pi))
      ∙ ground arith

  with_table-get :
      (vb : ℕ)
      → pde_of vb ≡ pde_of va
      → get_ptbl_entry_by_va (with_table v proc va pi mem) proc vb ≡ 0
  unfolding get_ptbl_entry_by_va get_ptbl_entry get_pdir_entry
  with_table-get vb same =
      let v₀ = set_pdir_entry_by_va (record v { mem = mem }) proc va pi in
      let pd = ap (λ f. f proc (pde_of va)) (clear_table-pdir 1024 0 proc (pde_of va) v₀) in
      rw (same, pd) (cleared _ _ (clear_table-read 1024 0 (pte_of vb) proc (pde_of va) v₀))
    where
      cleared :
          {a : ℕ} (b : ℕ) (c : Bool)
          → a ≡ (if leb 0 (pte_of vb) && ltb (pte_of vb) (0 + 1024) then 0 else b)
          → (if c then 0 else a) ≡ 0
      cleared b c e = ground arith

module _ (v : Vm) (proc va page perm : ℕ) (no_table : v.pdir proc (pde_of va) ≡ 0) where
  map_page-new_eq :
      (pi : ℕ) (mem : Mem)
      → container_alloc v.mem proc ≡ (pi, mem)
      → (pi == 0) ≡ false
      → (pi == magic_number) ≡ false
      → map_page v proc va page perm
        ≡ (pi, set_ptbl_entry_by_va (with_table v proc va pi mem) proc va page perm)
  unfolding map_page alloc_ptbl get_pdir_entry_by_va get_pdir_entry
  map_page-new_eq pi mem found nz nm = rw (no_table, found, nz, nm) (rw nz)

  -- If there is no page table for the address, container_alloc finds a page below 2 ^ 20 for one,
  -- and the new entry is below 2 ^ 32, map_page
  -- returns that page, the address translates to the page that is mapped, and every other page
  -- under the new table has no mapping.
  pub map_page-new :
      (pi : ℕ) (mem : Mem)
      → container_alloc v.mem proc ≡ (pi, mem)
      → pi ≢ 0
      → pi < 2 ^ 20
      → page * page_size + perm < 2 ^ 32
      → let (r, v') = map_page v proc va page perm in
        (r ≡ pi)
        × (get_ptbl_entry_by_va v' proc va ≡ page * page_size + perm)
        × ((vb : ℕ)
            → pde_of vb ≡ pde_of va
            → pte_of vb ≢ pte_of va
            → get_ptbl_entry_by_va v' proc vb ≡ 0)
        × (v'.mem ≡ mem)
  unfolding set_ptbl_entry_by_va set_ptbl_entry set_pdir_entry_by_va set_pdir_entry
      get_ptbl_entry_by_va get_ptbl_entry get_pdir_entry
  map_page-new pi mem found nz small fits =
      let w = with_table v proc va pi mem in
      let table : w.pdir proc (pde_of va) ≢ 0 =
        omega (arith, with_table-pdir v proc va pi mem small) in
      rw (map_page-new_eq pi mem found (==-false pi 0 nz) (==-false pi magic_number (omega arith)))
        (
          refl,
          set_ptbl_entry_by_va-get w proc va page perm fits table,
          λ vb same other. others w vb same other (with_table-get v proc va pi mem small vb same),
          clear_table-mem 1024 0 proc (pde_of va) _,
        )
    where
      others :
          (w : Vm) (vb : ℕ)
          → pde_of vb ≡ pde_of va
          → pte_of vb ≢ pte_of va
          → get_ptbl_entry_by_va w proc vb ≡ 0
          → get_ptbl_entry_by_va (set_ptbl_entry_by_va w proc va page perm) proc vb ≡ 0
      others w vb same other none_yet =
          let b = pte_of vb in
          let apart : Apart (slot_of w proc va) (slot_of w proc vb) = rw same (ground arith) in
          ground (
            arith,
            read_word-write_word_ne w.phys (slot_of w proc va) (slot_of w proc vb)
                (u32 (page * page_size + perm)) apart,
          )

  -- If there is no page for the table either, map_page says so and maps nothing.
  pub map_page-fails :
      (mem : Mem)
      → container_alloc v.mem proc ≡ (0, mem)
      → map_page v proc va page perm ≡ (magic_number, record v { mem = mem })
  unfolding map_page alloc_ptbl get_pdir_entry_by_va get_pdir_entry
  map_page-fails mem none_left = rw (no_table, none_left)

alloc_page-fails :
    (v : Vm) (proc va perm pi : ℕ) (mem mem' : Mem)
    → v.pdir proc (pde_of va) ≡ 0
    → container_alloc v.mem proc ≡ (pi, mem)
    → pi ≢ 0
    → container_alloc mem proc ≡ (0, mem')
    → alloc_page v proc va perm ≡ (magic_number, record v { mem = mem' })
unfolding alloc_page
alloc_page-fails v proc va perm pi mem mem' no_table found nz none_left =
    rw (found, ==-false pi 0 nz)
      (map_page-fails (record v { mem = mem }) proc va pi perm no_table mem' none_left)

-- The second call of container_alloc, for the page table, when no page is left for it.
second_alloc :
    (m : Mem) (id pi : ℕ)
    → WithinQuota m
    → pi ≢ 0
    → ((palloc m.pmm).0 ≡ 0) ⊎ ((m.box id).usage ≡ (m.box id).quota)
    → let (page, m') = container_alloc m id in
      (page ≡ 0)
      × (at_is_allocated m'.pmm pi ≡ at_is_allocated m.pmm pi)
      × ((m'.box id).usage
          ≡ (m.box id).usage + (if (m.box id).usage == (m.box id).quota then 0 else 1))
second_alloc m id pi w nz none_left =
    let m' = (container_alloc m id).1 in
    let (at_quota, below) = container_alloc_lem m id w in
    elim (Bool-cases ((m.box id).usage == (m.box id).quota)) [
      | inl e ↦
          let (page, same) = at_quota (ground arith) in
          (
            page,
            ap (λ (x : Mem). at_is_allocated x.pmm pi) same,
            rw e (ap (λ (x : Mem). (x.box id).usage) same ∙ omega arith),
          )
      | inr ne ↦
          let (page, pmm, usage, others) = below (ground arith) in
          let nothing : (palloc m.pmm).0 ≡ 0 = ground arith in
          (
            page ∙ nothing,
            ap (λ x. at_is_allocated x pi) pmm ∙ palloc-kept m.pmm pi (λ e. nz (e ∙ nothing)),
            rw ne usage,
          )
    ]

-- alloc_page can return an error and keep what it has taken. While the quotas hold, for an address
-- without a page table and a process below its quota: if palloc finds page `pi`, but the next call
-- finds none for the page table, or the first page has used up the quota, then the result is
-- magic_number and no page structure changes; page `pi`, which was free, is allocated, and the
-- process is charged for it, and for one page more if its quota was not used up.
pub alloc_page-leak :
    (v : Vm) (proc va perm : ℕ)
    → WithinQuota v.mem
    → v.pdir proc (pde_of va) ≡ 0
    → let usage = (v.mem.box proc).usage in
      let quota = (v.mem.box proc).quota in
      let (pi, s) = palloc v.mem.pmm in
      usage < quota
      → pi ≢ 0
      → ((palloc s).0 ≡ 0) ⊎ (usage + 1 ≡ quota)
      → let (r, v') = alloc_page v proc va perm in
        (r ≡ magic_number)
        × (v'.pdir ≡ v.pdir)
        × (v'.phys ≡ v.phys)
        × IsFree v.mem.pmm pi
        × (at_is_allocated v'.mem.pmm pi ≡ 1)
        × ((v'.mem.box proc).usage ≡ usage + (if usage + 1 == quota then 1 else 2))
alloc_page-leak v proc va perm w no_table room found none_left =
    let m = v.mem in
    let m1 = (container_alloc m proc).1 in
    let m2 = (container_alloc m1 proc).1 in
    let pi = (palloc m.pmm).0 in
    let (page, pmm, usage, others) = (container_alloc_lem m proc w).1 (omega arith) in
    let quota = container_alloc-quota m proc in
    let left : ((palloc m1.pmm).0 ≡ 0) ⊎ ((m1.box proc).usage ≡ (m1.box proc).quota) =
      elim none_left [
        | inl none_found ↦ inl (rw pmm none_found)
        | inr used_up ↦ inr (usage ∙ used_up ∙ sym quota)
      ] in
    let (page2, kept, usage2) =
      second_alloc m1 proc pi (container_alloc-WithinQuota m proc w) found left in
    let (was_free, marked, freed) = (pfree-palloc m.pmm).0 found in
    let run =
      alloc_page-fails v proc va perm (container_alloc m proc).0 m1 m2 no_table refl
        (λ e. found (sym page ∙ e)) (ap (λ z. (z, m2)) page2) in
    rw run (
      refl,
      refl,
      refl,
      was_free,
      kept ∙ ap (λ x. at_is_allocated x pi) pmm ∙ marked,
      usage2 ∙ ground arith,
    )
