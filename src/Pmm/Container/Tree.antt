-- ===== src/Pmm/Container/Tree.antt =====
-- The numbering of child processes: container_split never hands out an index in use.
use os_project_signal.Prelude.{ℕ, ◌+◌, ◌-◌, ◌*◌, ◌/◌, ◌≤◌, ◌<◌, ◌≡◌, arith, u32}
use os_project_signal.Pmm.Container.{num_ids, max_children, Mem, container_split}

-- The containers in use form a tree: the children of `p` are the indices from
-- `p * max_children + 1` on, as many as `p` counts.
pub record IsTree (m : Mem) : Type 0 where
  pub root_used : (m.box 0).used ≡ 1
  pub few : (p : ℕ) → p < num_ids → (m.box p).nchildren ≤ max_children
  -- A slot under `p` is in use exactly if it is among those that `p` counts.
  pub counted :
      (p k : ℕ)
      → p * max_children + 1 + k < num_ids
      → k < (m.box p).nchildren
      → ((m.box (p * max_children + 1 + k)).used ≡ 1)
        × ((m.box (p * max_children + 1 + k)).parent ≡ p)
  pub unused :
      (p k : ℕ)
      → p * max_children + 1 + k < num_ids
      → k < max_children
      → (m.box p).nchildren ≤ k
      → ((m.box (p * max_children + 1 + k)).used ≡ 0)
        × ((m.box (p * max_children + 1 + k)).nchildren ≡ 0)

-- The guards of sys_spawn on the parent, which is the running process and so in use: a place is
-- left, and the index of its last child is in range.
pub record MaySplit (m : Mem) (id : ℕ) : Type 0 where
  pub alive : (m.box id).used ≡ 1
  pub place : (m.box id).nchildren < max_children
  pub room : id * max_children + 1 + max_children ≤ num_ids

module _ (m : Mem) (id quota : ℕ) (t : IsTree m) (g : MaySplit m id) where
  index_lem :
      u32 (id * max_children + 1 + (m.box id).nchildren)
      ≡ id * max_children + 1 + (m.box id).nchildren
  index_lem = ground arith

  -- The index that container_split returns is in range, is not the root's nor the parent's, was
  -- not in use, and names its parent.
  pub container_split-fresh :
      let (child, m') = container_split m id quota in
      (child < num_ids)
      × (id < child)
      × ((m.box child).used ≡ 0)
      × ((m'.box child).used ≡ 1)
      × ((m'.box child).parent ≡ id)
      × ((child - 1) / max_children ≡ id)
  unfolding container_split
  container_split-fresh =
      let old = t.unused id (m.box id).nchildren in
      rw index_lem
        (ground arith, ground arith, ground arith, ground arith, ground arith, ground arith)
