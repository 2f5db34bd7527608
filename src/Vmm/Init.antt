-- ===== src/Vmm/Init.antt =====
-- The page structures at boot: idptbl_init of kern/vmm/MPTOp/MPTOp.c, pdir_init of
-- kern/vmm/MPTComm/MPTComm.c, pdir_init_kern of kern/vmm/MPTKern/MPTKern.c and paging_init of
-- kern/vmm/MPTInit/MPTInit.c. `rows` is the memory map, `idptbl` the address of IDPTbl.
pub mod Boxes
pub mod Identity
use os_project_signal.Prelude.{
  ℕ, zero, suc, ◌+◌, ◌-◌, ◌*◌, ◌≡◌, Bool, true, false, ◌||◌, List, arith, ◌==◌, if◌then◌else◌, ltb,
  leb,
}
use os_project_signal.Pmm.Init.{Row}
use os_project_signal.Pmm.Container.{Mem, num_ids, container_init}
use os_project_signal.Vmm.Table.{
  Vm, perm_kernel, perm_pw, set_pdir_base, rmv_pdir_entry, set_pdir_entry_identity,
  set_ptbl_entry_identity,
}

-- The page directory entries that map kernel memory.
abbrev pub is_kernel : ℕ → Bool
is_kernel i = ltb i 256 || leb 960 i

module _ (idptbl : ℕ) where
  -- The inner loop of idptbl_init, from entry `j`.
  unfoldable pub idptbl_row : Vm → ℕ → ℕ → ℕ → ℕ → Vm
  idptbl_row v i perm zero j = v
  idptbl_row v i perm (suc rounds) j =
      idptbl_row (set_ptbl_entry_identity idptbl v i j perm) i perm rounds (j + 1)

  unfoldable pub idptbl_rows : Vm → ℕ → ℕ → Vm
  idptbl_rows v zero i = v
  idptbl_rows v (suc rounds) i =
      idptbl_rows (idptbl_row v i (if is_kernel i then perm_kernel else perm_pw) 1024 0) rounds
        (i + 1)

  unfoldable pub idptbl_init : List Row → Vm → Vm
  idptbl_init rows v = idptbl_rows (record v { mem = container_init rows v.mem }) 1024 0

  -- The loops of pdir_init.
  unfoldable pub pdir_row : Vm → ℕ → ℕ → ℕ → Vm
  pdir_row v i zero j = v
  pdir_row v i (suc rounds) j =
      pdir_row (if is_kernel j then set_pdir_entry_identity idptbl v i j else rmv_pdir_entry v i j)
        i rounds (j + 1)

  unfoldable pub pdir_rows : Vm → ℕ → ℕ → Vm
  pdir_rows v zero i = v
  pdir_rows v (suc rounds) i = pdir_rows (pdir_row v i 1024 0) rounds (i + 1)

  unfoldable pub pdir_init : List Row → Vm → Vm
  pdir_init rows v = pdir_rows (idptbl_init rows v) num_ids 0

  -- The loop of pdir_init_kern.
  unfoldable pub kern_row : Vm → ℕ → ℕ → Vm
  kern_row v zero i = v
  kern_row v (suc rounds) i = kern_row (set_pdir_entry_identity idptbl v 0 i) rounds (i + 1)

  unfoldable pub pdir_init_kern : List Row → Vm → Vm
  pdir_init_kern rows v = kern_row (pdir_init rows v) (960 - 256) 256

  -- enable_paging sets a bit of CR0, which has no state here.
  unfoldable pub paging_init : List Row → Vm → Vm
  paging_init rows v = set_pdir_base (pdir_init_kern rows v) 0

  unfoldable pub paging_init_ap : Vm → Vm
  paging_init_ap v = set_pdir_base v 0
