-- ===== src/Pmm/Container.antt =====
-- kern/pmm/MContainer/MContainer.c: the memory quota of each process.
pub mod Laws
pub mod Tree
use os_project_signal.Prelude.{
  ℕ, zero, suc, ◌+◌, ◌-◌, ◌*◌, ◌%◌, ◌^◌, ◌≡◌, Bool, true, false, ◌&&◌, List, arith, ◌==◌,
  if◌then◌else◌, ltb, leb, int_lt, u32, update,
}
use os_project_signal.Pmm.Table.{Pmm, get_nps, at_is_norm, at_is_allocated}
use os_project_signal.Pmm.Init.{Row, pmem_init}
use os_project_signal.Pmm.Alloc.{palloc, pfree}

abbrev pub num_ids : ℕ
num_ids = 64

abbrev pub max_children : ℕ
max_children = 3

-- `struct SContainer`; each `int` is given by its bit pattern.
pub record Container : Type 0 where
  pub quota : ℕ
  pub usage : ℕ
  pub parent : ℕ
  pub nchildren : ℕ
  pub used : ℕ

-- CONTAINER, and the allocation table that it draws on.
pub record Mem : Type 0 where
  pub pmm : Pmm
  pub box : ℕ → Container

-- The loop of container_init from page `i`, with `rounds` pages left.
pub count_free : Pmm → ℕ → ℕ → ℕ → ℕ
count_free s zero i real_quota = real_quota
count_free s (suc rounds) i real_quota = count_free s rounds (i + 1) (
    if (at_is_norm s i == 1) && (at_is_allocated s i == 0)
    then u32 (real_quota + 1)
    else real_quota)

pub container_init : List Row → Mem → Mem
container_init rows m =
    let pmm = pmem_init rows m.pmm in
    let real_quota = count_free pmm (get_nps pmm - 1) 1 0 in
    record {
      pmm = pmm;
      box =
          update m.box 0
            (record { quota = real_quota; usage = 0; parent = 0; nchildren = 0; used = 1 });
    }

unfoldable pub container_get_parent : Mem → ℕ → ℕ
container_get_parent m id = (m.box id).parent

unfoldable pub container_get_nchildren : Mem → ℕ → ℕ
container_get_nchildren m id = (m.box id).nchildren

unfoldable pub container_get_quota : Mem → ℕ → ℕ
container_get_quota m id = (m.box id).quota

unfoldable pub container_get_usage : Mem → ℕ → ℕ
container_get_usage m id = (m.box id).usage

-- The sum is one of `unsigned int`, and wraps.
unfoldable pub container_can_consume : Mem → ℕ → ℕ → ℕ
container_can_consume m id n = if ltb (m.box id).quota (u32 ((m.box id).usage + n)) then 0 else 1

-- The index of the child, and the containers with the child's set up and the parent's charged.
unfoldable pub container_split : Mem → ℕ → ℕ → ℕ × Mem
container_split m id quota =
    let nc = (m.box id).nchildren in
    let child = u32 (id * max_children + 1 + nc) in
    let box =
      update m.box child
        (record { quota = quota; usage = 0; parent = id; nchildren = 0; used = 1 }) in
    let parent = box id in
    (
      child,
      record m {
        box =
            update box id
              (record parent { usage = u32 (parent.usage + quota); nchildren = u32 (nc + 1) });
      },
    )

-- The page, 0 for none.
unfoldable pub container_alloc : Mem → ℕ → ℕ × Mem
container_alloc m id =
    let u = (m.box id).usage in
    let (i, pmm) = palloc m.pmm in
    if u == (m.box id).quota then (0, m) else (
      i,
      record { pmm = pmm; box = update m.box id (record (m.box id) { usage = u32 (u + 1) }) },
    )

unfoldable pub container_free : Mem → ℕ → ℕ → Mem
container_free m id page = if at_is_allocated m.pmm page == 0 then m else record {
  pmm = pfree m.pmm page;
  box =
      if int_lt 0 (m.box id).usage
      then update m.box id (record (m.box id) { usage = (m.box id).usage - 1 })
      else m.box;
}
