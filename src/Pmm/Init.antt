-- ===== src/Pmm/Init.antt =====
-- kern/pmm/MATInit/MATInit.c: pmem_init, over the rows of the BIOS memory map.
pub mod Laws
use os_project_signal.Prelude.{
  ℕ, zero, suc, ◌+◌, ◌-◌, ◌*◌, ◌/◌, ◌≡◌, Bool, true, false, ◌&&◌, ◌||◌, List, [], ◌∷◌, arith, ◌==◌,
  if◌then◌else◌, ltb, leb, u32,
}
use os_project_signal.Pmm.Table.{Pmm, set_nps, at_set_perm}

abbrev pub page_size : ℕ
page_size = 4096

abbrev pub vm_userlo_pi : ℕ
vm_userlo_pi = 0x40000000 / page_size

abbrev pub vm_userhi_pi : ℕ
vm_userhi_pi = 0xF0000000 / page_size

-- A row of the memory map: what get_mms, get_mml and is_usable return at its index.
pub record Row : Type 0 where
  pub start : ℕ
  pub size : ℕ
  pub usable : ℕ

-- The first loop: the largest page number that a row reaches.
pub count_pages : List Row → ℕ → ℕ
count_pages [] nps = nps
count_pages (r ∷ rows) nps =
    let maxs = u32 (u32 (r.start + r.size) / page_size + 1) in
    count_pages rows (if ltb nps maxs then maxs else nps)

-- The test of the inner loop: the row holds all of page `i`.
pub covers : Row → ℕ → Bool
covers r i =
    leb r.start (u32 (i * page_size)) && leb (u32 ((i + 1) * page_size)) (u32 (r.size + r.start))

-- The inner loop, which ends at the first row that covers the page: `flag == 1 && isnorm == 1`.
pub page_usable : List Row → ℕ → Bool
page_usable [] i = false
page_usable (r ∷ rows) i = if covers r i then r.usable == 1 else page_usable rows i

-- The permission that the second loop gives to page `i`.
pub page_perm : List Row → ℕ → ℕ
page_perm rows i =
    if ltb i vm_userlo_pi || leb vm_userhi_pi i then 1 else if page_usable rows i then 2 else 0

-- The second loop from page `i`, with `rounds` pages left.
pub init_pages : List Row → Pmm → ℕ → ℕ → Pmm
init_pages rows s zero i = s
init_pages rows s (suc rounds) i =
    init_pages rows (at_set_perm s i (page_perm rows i)) rounds (i + 1)

-- `rows` is the table that devinit has read.
pub pmem_init : List Row → Pmm → Pmm
pmem_init rows s = let nps = count_pages rows 0 in init_pages rows (set_nps s nps) nps 0
