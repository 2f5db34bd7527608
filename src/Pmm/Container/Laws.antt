-- ===== src/Pmm/Container/Laws.antt =====
-- Quota and usage of the containers.
use os_project_signal.Prelude.{
  ℕ, zero, suc, ◌+◌, ◌-◌, ◌^◌, ◌≤◌, ◌<◌, ◌≡◌, ◌≢◌, ◌↔◌, refl, List, arith, if◌then◌else◌, ltb,
}
use os_project_signal.Pmm.Init.{Row}
use os_project_signal.Pmm.Alloc.{palloc}
use os_project_signal.Pmm.Container.{
  num_ids, Mem, container_init, container_can_consume, container_split, container_alloc,
  container_free,
}

-- No process uses more than its quota, and no quota is negative as an `int`.
pub record WithinQuota (m : Mem) : Type 0 where
  pub within : (id : ℕ) → (m.box id).usage ≤ (m.box id).quota
  pub small : (id : ℕ) → (m.box id).quota < 2 ^ 31

-- While the quotas hold, container_can_consume grants an amount below 2 ^ 31 exactly if usage and
-- amount together are within the quota.
pub container_can_consume_iff :
    (m : Mem) (id n : ℕ)
    → WithinQuota m
    → n < 2 ^ 31
    → (container_can_consume m id n ≡ 1) ↔ ((m.box id).usage + n ≤ (m.box id).quota)
unfolding container_can_consume
container_can_consume_iff m id n v h =
    let a = v.within id in let b = v.small id in (λ e. ground arith, λ e. ground arith)

-- The sum wraps: while every process is within its quota and no quota reaches 2 ^ 31, an amount
-- below 2 ^ 32 that takes the sum of usage and amount to 2 ^ 32 or above is granted.
pub container_can_consume_wraps :
    (m : Mem) (id n : ℕ)
    → WithinQuota m
    → n < 2 ^ 32
    → 2 ^ 32 ≤ (m.box id).usage + n
    → container_can_consume m id n ≡ 1
unfolding container_can_consume
container_can_consume_wraps m id n v h w = let a = v.within id in ground arith

-- container_split keeps every process within its quota, for an amount below 2 ^ 31 that
-- container_can_consume has granted.
pub container_split-WithinQuota :
    (m : Mem) (id quota : ℕ)
    → WithinQuota m
    → quota < 2 ^ 31
    → container_can_consume m id quota ≡ 1
    → WithinQuota (container_split m id quota).1
unfolding container_split
container_split-WithinQuota m id quota v h c =
    let fits = (container_can_consume_iff m id quota v h).0 c in
    record {
      within = λ j. let a = v.within j in let b = v.within id in let d = v.small id in ground arith;
      small = λ j. let a = v.small j in ground arith;
    }

-- container_alloc keeps every process within its quota.
pub container_alloc-WithinQuota :
    (m : Mem) (id : ℕ) → WithinQuota m → WithinQuota (container_alloc m id).1
unfolding container_alloc
container_alloc-WithinQuota m id v = record {
  within = λ j. let a = v.within j in let b = v.within id in let d = v.small id in ground arith;
  small = λ j. let a = v.small j in let b = v.small id in ground arith;
}

pub container_free-WithinQuota :
    (m : Mem) (id page : ℕ) → WithinQuota m → WithinQuota (container_free m id page)
unfolding container_free
container_free-WithinQuota m id page v = record {
  within = λ j. let a = v.within j in let b = v.within id in let d = v.small id in ground arith;
  small = λ j. let a = v.small j in let b = v.small id in ground arith;
}

-- The pages that the first `n` processes may still ask for.
pub slack : Mem → ℕ → ℕ
slack m zero = 0
slack m (suc n) = slack m n + ((m.box n).quota - (m.box n).usage)

module _ (m : Mem) (id quota child : ℕ) (v : WithinQuota m)
    (fits : (m.box id).usage + quota ≤ (m.box id).quota) (later : id < child)
    (empty : (m.box child).quota ≡ (m.box child).usage)
    (index : child ≡ (container_split m id quota).0) where
  slack_below :
      (n : ℕ)
      → slack (container_split m id quota).1 n + (if ltb id n then quota else 0)
        ≡ slack m n + (if ltb child n then quota else 0)
  unfolding slack container_split
  slack_below zero = ground arith
  slack_below (suc n) =
      let a = v.within n in
      let b = v.within id in let c = v.small id in ground (arith, slack_below n)

  -- While the quotas hold and the amount fits, container_split moves pages from the parent to the
  -- child and makes none: the pages that all processes together may still ask for stay the same,
  -- for a child in range that had none.
  pub container_split-slack :
      child < num_ids → slack (container_split m id quota).1 num_ids ≡ slack m num_ids
  container_split-slack h = ground (arith, slack_below num_ids)

-- While the quotas hold, a process below its quota is charged for a page that palloc could not
-- find: container_alloc returns 0 and the usage goes up by one.
pub container_alloc-leak :
    (m : Mem) (id : ℕ)
    → WithinQuota m
    → (m.box id).usage < (m.box id).quota
    → (palloc m.pmm).0 ≡ 0
    → let (page, m') = container_alloc m id in
      (page ≡ 0) × ((m'.box id).usage ≡ (m.box id).usage + 1)
unfolding container_alloc
container_alloc-leak m id v h e = let a = v.small id in ground arith

-- While the quotas hold, container_alloc below the quota hands out what palloc finds, charges one
-- page and touches no other container, and at the quota it returns 0 and changes nothing.
pub container_alloc_lem :
    (m : Mem) (id : ℕ)
    → WithinQuota m
    → let (page, m') = container_alloc m id in
      ((m.box id).usage ≡ (m.box id).quota → (page ≡ 0) × (m' ≡ m))
      × ((m.box id).usage ≢ (m.box id).quota
          → (page ≡ (palloc m.pmm).0)
            × (m'.pmm ≡ (palloc m.pmm).1)
            × ((m'.box id).usage ≡ (m.box id).usage + 1)
            × ((j : ℕ) → j ≢ id → m'.box j ≡ m.box j))
unfolding container_alloc
container_alloc_lem m id v =
    let a = v.small id in
    let b = v.within id in
    (
      λ e. (ground arith, ground arith),
      λ e. (ground arith, ground arith, ground arith, λ j n. ground arith),
    )

pub container_alloc-quota :
    (m : Mem) (id : ℕ) → ((container_alloc m id).1.box id).quota ≡ (m.box id).quota
unfolding container_alloc
container_alloc-quota m id = ground arith

pub container_init-nchildren :
    (rows : List Row) (m : Mem) → ((container_init rows m).box 0).nchildren ≡ 0
unfolding container_init
container_init-nchildren rows m = refl
