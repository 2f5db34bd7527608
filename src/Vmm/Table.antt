-- ===== src/Vmm/Table.antt =====
-- kern/vmm/MPTIntro/MPTIntro.c and kern/vmm/MPTOp/MPTOp.c: the page directories PDirPool, and
-- the page tables, which lie in physical memory. A virtual address is below 2 ^ 32.
use os_project_signal.Prelude.{ℕ, ◌+◌, ◌*◌, ◌/◌, ◌%◌, ◌==◌, if◌then◌else◌, u32, update}
use os_project_signal.Pmm.Container.{Mem}
use os_project_signal.Vmm.Phys.{read_word, write_word}

abbrev pub page_size : ℕ
page_size = 4096

-- PTE_P | PTE_W | PTE_U, PTE_P | PTE_W | PTE_G and PTE_P | PTE_W.
abbrev pub perm_ptu : ℕ
perm_ptu = 7

abbrev pub perm_kernel : ℕ
perm_kernel = 0x103

abbrev pub perm_pw : ℕ
perm_pw = 3

-- MagicNumber
abbrev pub magic_number : ℕ
magic_number = 1048577

-- The containers, PDirPool, the bytes of physical memory, and the process whose page directory
-- CR3 holds.
pub record Vm : Type 0 where
  pub mem : Mem
  pub pdir : ℕ → ℕ → ℕ
  pub phys : ℕ → ℕ
  pub base : ℕ

-- `x & 0xfffff000`, for a word.
abbrev pub page_base : ℕ → ℕ
page_base x = x / page_size * page_size

unfoldable pub set_pdir_base : Vm → ℕ → Vm
set_pdir_base v index = record v { base = index }

unfoldable pub get_pdir_entry : Vm → ℕ → ℕ → ℕ
get_pdir_entry v proc pde = v.pdir proc pde

abbrev pub put_pdir : Vm → ℕ → ℕ → ℕ → Vm
put_pdir v proc pde e = record v { pdir = update v.pdir proc (update (v.pdir proc) pde e) }

unfoldable pub set_pdir_entry : Vm → ℕ → ℕ → ℕ → Vm
set_pdir_entry v proc pde page = put_pdir v proc pde (u32 (page * page_size + perm_ptu))

unfoldable pub rmv_pdir_entry : Vm → ℕ → ℕ → Vm
rmv_pdir_entry v proc pde = put_pdir v proc pde 0

-- Where the entry of the page table lies.
abbrev pub entry_addr : Vm → ℕ → ℕ → ℕ → ℕ
entry_addr v proc pde pte = page_base (v.pdir proc pde) + pte * 4

unfoldable pub get_ptbl_entry : Vm → ℕ → ℕ → ℕ → ℕ
get_ptbl_entry v proc pde pte = read_word v.phys (entry_addr v proc pde pte)

unfoldable pub set_ptbl_entry : Vm → ℕ → ℕ → ℕ → ℕ → ℕ → Vm
set_ptbl_entry v proc pde pte page perm = record v {
  phys = write_word v.phys (entry_addr v proc pde pte) (u32 (page * page_size + perm));
}

unfoldable pub rmv_ptbl_entry : Vm → ℕ → ℕ → ℕ → Vm
rmv_ptbl_entry v proc pde pte = record v { phys = write_word v.phys (entry_addr v proc pde pte) 0 }

-- `idptbl` is the address of IDPTbl, which is aligned to a page.
module _ (idptbl : ℕ) where
  unfoldable pub set_pdir_entry_identity : Vm → ℕ → ℕ → Vm
  set_pdir_entry_identity v proc pde =
      put_pdir v proc pde (u32 (idptbl + pde * page_size + perm_ptu))

  unfoldable pub set_ptbl_entry_identity : Vm → ℕ → ℕ → ℕ → Vm
  set_ptbl_entry_identity v pde pte perm = record v {
    phys =
        write_word v.phys (idptbl + pde * page_size + pte * 4)
          (u32 ((pde * 1024 + pte) * page_size + perm));
  }

abbrev pub pde_of : ℕ → ℕ
pde_of va = va / (4096 * 1024)

abbrev pub pte_of : ℕ → ℕ
pte_of va = va / 4096 % 1024

-- 0 if there is no page table.
unfoldable pub get_ptbl_entry_by_va : Vm → ℕ → ℕ → ℕ
get_ptbl_entry_by_va v proc va =
    let pde = get_pdir_entry v proc (pde_of va) in
    if pde == 0 then 0 else get_ptbl_entry v proc (pde_of va) (pte_of va)

unfoldable pub get_pdir_entry_by_va : Vm → ℕ → ℕ → ℕ
get_pdir_entry_by_va v proc va = get_pdir_entry v proc (pde_of va)

unfoldable pub rmv_ptbl_entry_by_va : Vm → ℕ → ℕ → Vm
rmv_ptbl_entry_by_va v proc va = rmv_ptbl_entry v proc (pde_of va) (pte_of va)

unfoldable pub rmv_pdir_entry_by_va : Vm → ℕ → ℕ → Vm
rmv_pdir_entry_by_va v proc va = rmv_pdir_entry v proc (pde_of va)

unfoldable pub set_ptbl_entry_by_va : Vm → ℕ → ℕ → ℕ → ℕ → Vm
set_ptbl_entry_by_va v proc va page perm = set_ptbl_entry v proc (pde_of va) (pte_of va) page perm

unfoldable pub set_pdir_entry_by_va : Vm → ℕ → ℕ → ℕ → Vm
set_pdir_entry_by_va v proc va page = set_pdir_entry v proc (pde_of va) page
