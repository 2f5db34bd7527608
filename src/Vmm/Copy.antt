-- ===== src/Vmm/Copy.antt =====
-- kern/lib/pmap.c: copies between kernel buffers and the memory of a process, page by page. A
-- kernel buffer is a list of bytes, with its address `kva`, which only the range test reads.
-- Each round copies at least one byte, so `len` rounds are enough.
pub mod Laws
use os_project_signal.Prelude.{
  ℕ, zero, suc, ◌+◌, ◌-◌, ◌*◌, ◌/◌, ◌%◌, ◌≡◌, Bool, true, false, ◌&&◌, ◌||◌, not, List, [], ◌∷◌,
  ◌++◌, arith, ◌==◌, if◌then◌else◌, ltb, leb, u32,
}
use os_project_signal.Vmm.Phys.{read_bytes, write_bytes, fill_bytes}
use os_project_signal.Vmm.Table.{Vm, page_size, perm_ptu, page_base, get_ptbl_entry_by_va}
use os_project_signal.Vmm.Map.{alloc_page}

abbrev pub vm_userlo : ℕ
vm_userlo = 0x40000000

abbrev pub vm_userhi : ℕ
vm_userhi = 0xf0000000

-- The range test that pt_copyin and pt_copyout begin with.
abbrev pub in_range : ℕ → ℕ → ℕ → Bool
in_range kva uva len =
    (leb vm_userlo uva && leb (u32 (uva + len)) vm_userhi) && leb (u32 (kva + len)) vm_userhi

-- The physical address of `va`; a page that is not present is allocated first. What alloc_page
-- returns is not read.
unfoldable pub locate : Vm → ℕ → ℕ → ℕ × Vm
locate v proc va =
    let entry = get_ptbl_entry_by_va v proc va in
    let v' = if entry % 2 == 0 then (alloc_page v proc va perm_ptu).1 else v in
    let entry' = if entry % 2 == 0 then get_ptbl_entry_by_va v' proc va else entry in
    (page_base entry' + va % page_size, v')

-- The bytes of this round: what is left, or as far as the page goes.
abbrev pub chunk : ℕ → ℕ → ℕ
chunk len pa = if ltb len (page_size - pa % page_size) then len else page_size - pa % page_size

abbrev pub take : ℕ → List ℕ → List ℕ
take zero bs = []
take (suc n) [] = []
take (suc n) (b ∷ bs) = b ∷ take n bs

abbrev pub drop : ℕ → List ℕ → List ℕ
drop zero bs = bs
drop (suc n) [] = []
drop (suc n) (b ∷ bs) = drop n bs

unfoldable pub copyin_loop : ℕ → Vm → ℕ → ℕ → ℕ → List ℕ × Vm
copyin_loop zero v proc uva len = ([], v)
copyin_loop (suc fuel) v proc uva len =
    let (pa, v') = locate v proc uva in
    let size = chunk len pa in
    let (rest, v'') = copyin_loop fuel v' proc (u32 (uva + size)) (len - size) in
    if len == 0 then ([], v) else (read_bytes v'.phys pa size ++ rest, v'')

-- The number of bytes copied, and the bytes.
unfoldable pub pt_copyin : Vm → ℕ → ℕ → ℕ → ℕ → ℕ × List ℕ × Vm
pt_copyin v proc uva kva len =
    if in_range kva uva len
    then (let (bs, v') = copyin_loop len v proc uva len in (len, bs, v'))
    else (0, [], v)

unfoldable pub copyout_loop : ℕ → Vm → List ℕ → ℕ → ℕ → ℕ → Vm
copyout_loop zero v bs proc uva len = v
copyout_loop (suc fuel) v bs proc uva len =
    let (pa, v') = locate v proc uva in
    let size = chunk len pa in
    let copied = record v' { phys = write_bytes v'.phys pa (take size bs) } in
    let rest = copyout_loop fuel copied (drop size bs) proc (u32 (uva + size)) (len - size) in
    if len == 0 then v else rest

unfoldable pub pt_copyout : Vm → ℕ → List ℕ → ℕ → ℕ → ℕ → ℕ × Vm
pt_copyout v kva bs proc uva len =
    if in_range kva uva len then (len, copyout_loop len v bs proc uva len) else (0, v)

unfoldable pub memset_loop : ℕ → Vm → ℕ → ℕ → ℕ → ℕ → Vm
memset_loop zero v proc va c len = v
memset_loop (suc fuel) v proc va c len =
    let (pa, v') = locate v proc va in
    let size = chunk len pa in
    let filled = record v' { phys = fill_bytes v'.phys pa c size } in
    let rest = memset_loop fuel filled proc (u32 (va + size)) c (len - size) in
    if len == 0 then v else rest

unfoldable pub pt_memset : Vm → ℕ → ℕ → ℕ → ℕ → ℕ × Vm
pt_memset v proc va c len = (len, memset_loop len v proc va c len)
