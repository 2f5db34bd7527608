-- ===== src/Pmm/Alloc.antt =====
-- kern/pmm/MATOp/MATOp.c: palloc and pfree. With a table of 0 pages palloc divides by zero in C,
-- where the remainder here is that of the library.
pub mod Laws
use os_project_signal.Prelude.{
  ℕ, zero, suc, ◌+◌, ◌-◌, ◌%◌, ◌≡◌, Bool, true, false, ◌&&◌, arith, ◌==◌, if◌then◌else◌, ltb, u32,
}
use os_project_signal.Pmm.Table.{Pmm, get_nps, at_is_norm, at_is_allocated, at_set_allocated}

-- The test of one round of the loop.
unfoldable pub is_free : Pmm → ℕ → Bool
unfolding at_is_norm at_is_allocated
is_free s i = if at_is_norm s i == 1 then at_is_allocated s i == 0 else false

-- The loop `while (palloc_index < tnps && palloc_free_index == tnps)` from index `i`, with
-- `rounds` for the indices left. It returns palloc_free_index, `tnps` if no page is found.
unfoldable pub scan : Pmm → ℕ → ℕ → ℕ → ℕ
scan s tnps zero i = tnps
scan s tnps (suc rounds) i =
    let rest = scan s tnps rounds (i + 1) in
    if ltb i tnps then if is_free s i then i else rest else tnps

-- The page found, 0 for none, and the table afterwards. The loop starts behind
-- last_palloc_index, and `tnps - start` rounds reach the end of the table.
unfoldable pub palloc : Pmm → ℕ × Pmm
palloc s =
    let tnps = get_nps s in
    let start = u32 (s.last_index + 1) in
    let found = scan s tnps (tnps - start) start in
    let index = if found == tnps then 0 else found in
    let s' = if found == tnps then s else at_set_allocated s found 1 in
    (index, record s' { last_index = index % tnps })

unfoldable pub pfree : Pmm → ℕ → Pmm
pfree s i = at_set_allocated s i 0
