-- ===== src/Pmm/Table.antt =====
-- kern/pmm/MATIntro/MATIntro.c: the allocation table AT, with its getters and setters.
-- The calls of mem_lock and mem_unlock that bracket palloc and pfree make each of them one step,
-- so the table is passed from step to step and the lock has no state here.
use os_project_signal.Prelude.{ℕ, ◌≡◌, ◌==◌, if◌then◌else◌, update}

-- `struct ATStruct`
pub record Page : Type 0 where
  pub perm : ℕ
  pub allocated : ℕ

-- AT, NUM_PAGES and, of MATOp.c, last_palloc_index.
pub record Pmm : Type 0 where
  pub pages : ℕ → Page
  pub num_pages : ℕ
  pub last_index : ℕ

unfoldable pub get_nps : Pmm → ℕ
get_nps s = s.num_pages

unfoldable pub set_nps : Pmm → ℕ → Pmm
set_nps s nps = record s { num_pages = nps }

unfoldable pub at_is_norm : Pmm → ℕ → ℕ
at_is_norm s i =
    let tperm = (s.pages i).perm in if tperm == 0 then 0 else if tperm == 1 then 0 else 1

unfoldable pub at_set_perm : Pmm → ℕ → ℕ → Pmm
at_set_perm s i norm_val = record s {
  pages = update s.pages i (record { perm = norm_val; allocated = 0 });
}

unfoldable pub at_is_allocated : Pmm → ℕ → ℕ
at_is_allocated s i = if (s.pages i).allocated == 0 then 0 else 1

unfoldable pub at_set_allocated : Pmm → ℕ → ℕ → Pmm
at_set_allocated s i allocated = record s {
  pages = update s.pages i (record (s.pages i) { allocated = allocated });
}

-- A page that palloc may hand out: normal permission, and not allocated.
abbrev pub IsFree : Pmm → ℕ → Type 0
IsFree s i = (at_is_norm s i ≡ 1) × (at_is_allocated s i ≡ 0)
