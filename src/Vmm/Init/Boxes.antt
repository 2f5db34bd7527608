-- ===== src/Vmm/Init/Boxes.antt =====
-- What paging_init leaves of the containers: those of container_init.
use os_project_signal.Prelude.{ℕ, zero, suc, ◌+◌, ◌-◌, ◌≡◌, refl, ◌∙◌, List, arith, if◌then◌else◌}
use os_project_signal.Pmm.Init.{Row}
use os_project_signal.Pmm.Container.{num_ids, container_init}
use os_project_signal.Vmm.Table.{
  Vm, perm_kernel, perm_pw, set_pdir_base, rmv_pdir_entry, set_pdir_entry_identity,
  set_ptbl_entry_identity,
}
use os_project_signal.Vmm.Init.{
  is_kernel, idptbl_row, idptbl_rows, idptbl_init, pdir_row, pdir_rows, pdir_init, kern_row,
  pdir_init_kern, paging_init,
}

module _ (idptbl : ℕ) where
  idptbl_row-mem :
      (rounds i perm j : ℕ) (v : Vm) → (idptbl_row idptbl v i perm rounds j).mem ≡ v.mem
  unfolding idptbl_row set_ptbl_entry_identity
  idptbl_row-mem zero i perm j v = refl
  idptbl_row-mem (suc rounds) i perm j v =
      idptbl_row-mem rounds i perm (j + 1) (set_ptbl_entry_identity idptbl v i j perm)

  idptbl_rows-mem : (rounds i : ℕ) (v : Vm) → (idptbl_rows idptbl v rounds i).mem ≡ v.mem
  unfolding idptbl_rows
  idptbl_rows-mem zero i v = refl
  idptbl_rows-mem (suc rounds) i v =
      let perm = if is_kernel i then perm_kernel else perm_pw in
      idptbl_rows-mem rounds (i + 1) (idptbl_row idptbl v i perm 1024 0)
      ∙ idptbl_row-mem 1024 i perm 0 v

  pdir_row-mem : (rounds i j : ℕ) (v : Vm) → (pdir_row idptbl v i rounds j).mem ≡ v.mem
  unfolding pdir_row set_pdir_entry_identity rmv_pdir_entry
  pdir_row-mem zero i j v = refl
  pdir_row-mem (suc rounds) i j v = pdir_row-mem rounds i (j + 1) _ ∙ ground arith

  pdir_rows-mem : (rounds i : ℕ) (v : Vm) → (pdir_rows idptbl v rounds i).mem ≡ v.mem
  unfolding pdir_rows
  pdir_rows-mem zero i v = refl
  pdir_rows-mem (suc rounds) i v =
      pdir_rows-mem rounds (i + 1) (pdir_row idptbl v i 1024 0) ∙ pdir_row-mem 1024 i 0 v

  kern_row-mem : (rounds i : ℕ) (v : Vm) → (kern_row idptbl v rounds i).mem ≡ v.mem
  unfolding kern_row set_pdir_entry_identity
  kern_row-mem zero i v = refl
  kern_row-mem (suc rounds) i v = kern_row-mem rounds (i + 1) (set_pdir_entry_identity idptbl v 0 i)

  -- After paging_init the memory of the kernel is as container_init sets it up.
  pub paging_init-mem :
      (rows : List Row) (v : Vm) → (paging_init idptbl rows v).mem ≡ container_init rows v.mem
  unfolding paging_init pdir_init_kern pdir_init idptbl_init set_pdir_base
  paging_init-mem rows v =
      let v0 = record v { mem = container_init rows v.mem } in
      let v1 = idptbl_rows idptbl v0 1024 0 in
      kern_row-mem (960 - 256) 256 (pdir_rows idptbl v1 num_ids 0)
      ∙ pdir_rows-mem num_ids 0 v1
      ∙ idptbl_rows-mem 1024 0 v0
