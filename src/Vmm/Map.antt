-- ===== src/Vmm/Map.antt =====
-- kern/vmm/MPTComm/MPTComm.c (alloc_ptbl, free_ptbl), kern/vmm/MPTKern/MPTKern.c (map_page,
-- unmap_page) and kern/vmm/MPTNew/MPTNew.c. pt_spinlock_acquire and pt_spinlock_release make each
-- call of alloc_page one step.
pub mod Laws
use os_project_signal.Prelude.{
  ℕ, zero, suc, ◌+◌, ◌-◌, ◌*◌, ◌/◌, ◌%◌, ◌≡◌, Bool, true, false, arith, ◌==◌, if◌then◌else◌,
}
use os_project_signal.Pmm.Container.{Mem, container_alloc, container_free, container_split}
use os_project_signal.Vmm.Table.{
  Vm, page_size, magic_number, pde_of, rmv_ptbl_entry, get_ptbl_entry_by_va, get_pdir_entry_by_va,
  rmv_ptbl_entry_by_va, rmv_pdir_entry_by_va, set_ptbl_entry_by_va, set_pdir_entry_by_va,
}

-- The loop that clears the new page table, from entry `i`, with `rounds` left.
unfoldable pub clear_table : Vm → ℕ → ℕ → ℕ → ℕ → Vm
clear_table v proc pde zero i = v
clear_table v proc pde (suc rounds) i =
    clear_table (rmv_ptbl_entry v proc pde i) proc pde rounds (i + 1)

-- The page of the new table, 0 for none.
unfoldable pub alloc_ptbl : Vm → ℕ → ℕ → ℕ × Vm
alloc_ptbl v proc va =
    let (pi, mem) = container_alloc v.mem proc in
    let v' = record v { mem = mem } in
    if pi == 0
    then (pi, v')
    else (pi, clear_table (set_pdir_entry_by_va v' proc va pi) proc (pde_of va) 1024 0)

unfoldable pub free_ptbl : Vm → ℕ → ℕ → Vm
free_ptbl v proc va =
    let pde = get_pdir_entry_by_va v proc va in
    let v' = rmv_pdir_entry_by_va v proc va in
    record v' { mem = container_free v'.mem proc (pde / page_size) }

-- 0 if the table was there, the page of a new one, magic_number if there is no page for it.
unfoldable pub map_page : Vm → ℕ → ℕ → ℕ → ℕ → ℕ × Vm
map_page v proc va page perm =
    let (pi, v') = alloc_ptbl v proc va in
    if get_pdir_entry_by_va v proc va == 0
    then (if pi == 0
        then (magic_number, v')
        else (pi, (if pi == magic_number then v' else set_ptbl_entry_by_va v' proc va page perm)))
    else (0, set_ptbl_entry_by_va v proc va page perm)

-- The entry that was there.
unfoldable pub unmap_page : Vm → ℕ → ℕ → ℕ × Vm
unmap_page v proc va =
    let entry = get_ptbl_entry_by_va v proc va in
    (entry, (if entry == 0 then v else rmv_ptbl_entry_by_va v proc va))

unfoldable pub alloc_page : Vm → ℕ → ℕ → ℕ → ℕ × Vm
alloc_page v proc va perm =
    let (pi, mem) = container_alloc v.mem proc in
    let v' = record v { mem = mem } in
    if pi == 0 then (magic_number, v') else map_page v' proc va pi perm

unfoldable pub alloc_mem_quota : Vm → ℕ → ℕ → ℕ × Vm
alloc_mem_quota v id quota =
    let (child, mem) = container_split v.mem id quota in (child, record v { mem = mem })
