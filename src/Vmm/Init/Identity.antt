-- ===== src/Vmm/Init/Identity.antt =====
-- What the page structures map after boot.
use os_project_signal.Prelude.{
  ℕ, zero, suc, ◌+◌, ◌*◌, ◌%◌, ◌^◌, ◌≤◌, ◌<◌, ◌≡◌, refl, ◌∙◌, false, ◌||◌, ◌&&◌, List, arith, ◌==◌,
  if◌then◌else◌, ltb, leb, u32, inl, inr, Bool-cases, ==-false,
}
use os_project_signal.Pmm.Init.{Row}
use os_project_signal.Pmm.Container.{num_ids, container_init}
use os_project_signal.Vmm.Phys.{
  read_word, write_word, read_word-write_word, read_word-write_word_ne,
}
use os_project_signal.Vmm.Table.{
  Vm, page_size, perm_ptu, perm_kernel, perm_pw, page_base, set_pdir_base, rmv_pdir_entry,
  set_pdir_entry_identity, set_ptbl_entry_identity, get_pdir_entry, get_ptbl_entry,
  get_ptbl_entry_by_va, pde_of, pte_of,
}
use os_project_signal.Vmm.Init.{
  is_kernel, idptbl_row, idptbl_rows, idptbl_init, pdir_row, pdir_rows, pdir_init, kern_row,
  pdir_init_kern, paging_init,
}

-- The entry that maps page `j` of directory entry `i` to itself.
abbrev pub identity_entry : ℕ → ℕ → ℕ
identity_entry i j = (i * 1024 + j) * page_size + (if is_kernel i then perm_kernel else perm_pw)

module _ (idptbl : ℕ) where
  -- Where IDPTbl holds that entry.
  abbrev pub slot : ℕ → ℕ → ℕ
  slot i j = idptbl + i * page_size + j * 4

  module _ (i j k l perm : ℕ) (f : ℕ → ℕ) (hj : j < 1024) (hl : l < 1024) where
    read-slot :
        perm < page_size
        → i < 1024
        → read_word (write_word f (slot i j) (u32 ((i * 1024 + j) * page_size + perm))) (slot k l)
          ≡ (if (i == k) && (j == l)
              then (k * 1024 + l) * page_size + perm
              else read_word f (slot k l))
    read-slot hp hi = elim (Bool-cases ((i == k) && (j == l))) [
      | inl same ↦ rw same (
          let e₁ : i ≡ k = ground arith in
          let e₂ : j ≡ l = ground arith in
          ground (arith, read_word-write_word f (slot i j) ((i * 1024 + j) * page_size + perm)))
      | inr other ↦ rw other (read_word-write_word_ne f (slot i j) (slot k l) _ (ground arith))
    ]

  idptbl_row-read :
      (rounds i j k l perm : ℕ) (v : Vm)
      → j + rounds ≤ 1024
      → l < 1024
      → perm < page_size
      → i < 1024
      → read_word (idptbl_row idptbl v i perm rounds j).phys (slot k l) ≡ (
          if (i == k) && (leb j l && ltb l (j + rounds))
          then (k * 1024 + l) * page_size + perm
          else read_word v.phys (slot k l))
  unfolding idptbl_row set_ptbl_entry_identity
  idptbl_row-read zero i j k l perm v h hl hp hi = ground arith
  idptbl_row-read (suc rounds) i j k l perm v h hl hp hi = ground (
    arith,
    read-slot i j k l perm v.phys (omega arith) hl hp hi,
    idptbl_row-read rounds i (j + 1) k l perm (set_ptbl_entry_identity idptbl v i j perm)
        (omega arith) hl hp hi,
  )

  idptbl_rows-read :
      (rounds i k l : ℕ) (v : Vm)
      → i + rounds ≤ 1024
      → l < 1024
      → read_word (idptbl_rows idptbl v rounds i).phys (slot k l) ≡ (
          if leb i k && ltb k (i + rounds) then identity_entry k l else read_word v.phys (slot k l))
  unfolding idptbl_rows
  idptbl_rows-read zero i k l v h hl = ground arith
  idptbl_rows-read (suc rounds) i k l v h hl =
      let perm = if is_kernel i then perm_kernel else perm_pw in
      let small : perm < page_size = ground arith in
      let v' = idptbl_row idptbl v i perm 1024 0 in
      step (idptbl_row-read 1024 i 0 k l perm v (omega arith) hl small (omega arith))
        (idptbl_rows-read rounds (i + 1) k l v' (omega arith) hl)
    where
      step :
          {a b : ℕ}
          → b ≡ (
              if (i == k) && (leb 0 l && ltb l (0 + 1024))
              then (k * 1024 + l) * page_size + (if is_kernel i then perm_kernel else perm_pw)
              else read_word v.phys (slot k l))
          → a ≡ (if leb (i + 1) k && ltb k (i + 1 + rounds) then identity_entry k l else b)
          → a ≡ (
              if leb i k && ltb k (i + suc rounds)
              then identity_entry k l
              else read_word v.phys (slot k l))
      step e e' = ground arith

  -- The directory entry that maps to IDPTbl.
  abbrev pub identity_pde : ℕ → ℕ
  identity_pde j = u32 (idptbl + j * page_size + perm_ptu)

  pdir_row-pdir :
      (rounds i j p k : ℕ) (v : Vm)
      → (pdir_row idptbl v i rounds j).pdir p k ≡ (
          if (i == p) && (leb j k && ltb k (j + rounds))
          then if is_kernel k then identity_pde k else 0
          else v.pdir p k)
  unfolding pdir_row set_pdir_entry_identity rmv_pdir_entry
  pdir_row-pdir zero i j p k v = ground arith
  pdir_row-pdir (suc rounds) i j p k v =
      let v' = if is_kernel j then set_pdir_entry_identity idptbl v i j else rmv_pdir_entry v i j in
      let first : v'.pdir p k ≡ (
          if (i == p) && (j == k) then if is_kernel k then identity_pde k else 0 else v.pdir p k) =
        ground arith in
      step _ _ (pdir_row-pdir rounds i (j + 1) p k v') first
    where
      step :
          {a b : ℕ} (c d : ℕ)
          → a ≡ (if (i == p) && (leb (j + 1) k && ltb k (j + 1 + rounds)) then c else b)
          → b ≡ (if (i == p) && (j == k) then c else d)
          → a ≡ (if (i == p) && (leb j k && ltb k (j + suc rounds)) then c else d)
      step c d e e' = ground arith

  pdir_row-phys : (rounds i j : ℕ) (v : Vm) → (pdir_row idptbl v i rounds j).phys ≡ v.phys
  unfolding pdir_row set_pdir_entry_identity rmv_pdir_entry
  pdir_row-phys zero i j v = refl
  pdir_row-phys (suc rounds) i j v = pdir_row-phys rounds i (j + 1) _ ∙ ground arith

  pdir_rows-phys : (rounds i : ℕ) (v : Vm) → (pdir_rows idptbl v rounds i).phys ≡ v.phys
  unfolding pdir_rows
  pdir_rows-phys zero i v = refl
  pdir_rows-phys (suc rounds) i v = pdir_rows-phys rounds (i + 1) _ ∙ pdir_row-phys 1024 i 0 v

  pdir_rows-pdir :
      (rounds i p k : ℕ) (v : Vm)
      → k < 1024
      → (pdir_rows idptbl v rounds i).pdir p k ≡ (
          if leb i p && ltb p (i + rounds)
          then if is_kernel k then identity_pde k else 0
          else v.pdir p k)
  unfolding pdir_rows
  pdir_rows-pdir zero i p k v h = ground arith
  pdir_rows-pdir (suc rounds) i p k v h =
      step _ _ (pdir_rows-pdir rounds (i + 1) p k (pdir_row idptbl v i 1024 0) h)
        (pdir_row-pdir 1024 i 0 p k v)
    where
      step :
          {a b : ℕ} (c d : ℕ)
          → a ≡ (if leb (i + 1) p && ltb p (i + 1 + rounds) then c else b)
          → b ≡ (if (i == p) && (leb 0 k && ltb k (0 + 1024)) then c else d)
          → a ≡ (if leb i p && ltb p (i + suc rounds) then c else d)
      step c d e e' = ground arith

  kern_row-pdir :
      (rounds i p k : ℕ) (v : Vm)
      → (kern_row idptbl v rounds i).pdir p k
        ≡ (if (p == 0) && (leb i k && ltb k (i + rounds)) then identity_pde k else v.pdir p k)
  unfolding kern_row set_pdir_entry_identity
  kern_row-pdir zero i p k v = ground arith
  kern_row-pdir (suc rounds) i p k v =
      ground (arith, kern_row-pdir rounds (i + 1) p k (set_pdir_entry_identity idptbl v 0 i))

  kern_row-phys : (rounds i : ℕ) (v : Vm) → (kern_row idptbl v rounds i).phys ≡ v.phys
  unfolding kern_row set_pdir_entry_identity
  kern_row-phys zero i v = refl
  kern_row-phys (suc rounds) i v = kern_row-phys rounds (i + 1) _

  -- The directories and IDPTbl after pdir_init_kern.
  pdir_init_kern-pdir :
      (rows : List Row) (v : Vm) (p k : ℕ)
      → p < num_ids
      → k < 1024
      → (pdir_init_kern idptbl rows v).pdir p k
        ≡ (if (p == 0) || is_kernel k then identity_pde k else 0)
  unfolding pdir_init_kern pdir_init
  pdir_init_kern-pdir rows v p k hp hk =
      combine _ (kern_row-pdir 704 256 p k (pdir_rows idptbl (idptbl_init idptbl rows v) 64 0))
        (pdir_rows-pdir 64 0 p k (idptbl_init idptbl rows v) hk)
    where
      combine :
          {a b : ℕ} (c : ℕ)
          → a ≡ (if (p == 0) && (leb 256 k && ltb k (256 + 704)) then identity_pde k else b)
          → b ≡ (if leb 0 p && ltb p (0 + 64) then if is_kernel k then identity_pde k else 0 else c)
          → a ≡ (if (p == 0) || is_kernel k then identity_pde k else 0)
      combine c e e' = ground arith

  pdir_init_kern-read :
      (rows : List Row) (v : Vm) (k l : ℕ)
      → k < 1024
      → l < 1024
      → read_word (pdir_init_kern idptbl rows v).phys (slot k l) ≡ identity_entry k l
  unfolding pdir_init_kern pdir_init idptbl_init
  pdir_init_kern-read rows v k l hk hl =
      let v₀ = record v { mem = container_init rows v.mem } in
      let v₁ = idptbl_rows idptbl v₀ 1024 0 in
      let same = kern_row-phys 704 256 (pdir_rows idptbl v₁ 64 0) ∙ pdir_rows-phys 64 0 v₁ in
      rw same (inside _ (idptbl_rows-read 1024 0 k l v₀ (omega arith) hl))
    where
      inside :
          {a : ℕ} (b : ℕ)
          → a ≡ (if leb 0 k && ltb k (0 + 1024) then identity_entry k l else b)
          → a ≡ identity_entry k l
      inside b e = ground arith

  -- After paging_init the kernel's page structure maps every address to itself, with the
  -- permissions of kernel memory below 1 GB and from 0xF0000000 on, and that of every other
  -- process agrees with it on kernel memory and has no page table elsewhere. IDPTbl is to be
  -- aligned to a page and to end below 4 GB.
  pub paging_init-identity :
      (rows : List Row) (v : Vm) (p va : ℕ)
      → idptbl % page_size ≡ 0
      → idptbl + 1024 * page_size ≤ 2 ^ 32
      → 0 < idptbl
      → p < num_ids
      → va < 2 ^ 32
      → get_ptbl_entry_by_va (paging_init idptbl rows v) p va ≡ (
          if (p == 0) || is_kernel (pde_of va)
          then page_base va + (if is_kernel (pde_of va) then perm_kernel else perm_pw)
          else 0)
  unfolding paging_init set_pdir_base get_ptbl_entry_by_va get_pdir_entry get_ptbl_entry
  paging_init-identity rows v p va al fits nz hp hva =
      let v' = pdir_init_kern idptbl rows v in
      lookup v' (pdir_init_kern-pdir rows v p (pde_of va) hp (omega arith))
        (pdir_init_kern-read rows v (pde_of va) (pte_of va) (omega arith) (omega arith))
    where
      lookup :
          (v' : Vm)
          → v'.pdir p (pde_of va)
            ≡ (if (p == 0) || is_kernel (pde_of va) then identity_pde (pde_of va) else 0)
          → read_word v'.phys (slot (pde_of va) (pte_of va))
            ≡ identity_entry (pde_of va) (pte_of va)
          → get_ptbl_entry_by_va v' p va ≡ (
              if (p == 0) || is_kernel (pde_of va)
              then page_base va + (if is_kernel (pde_of va) then perm_kernel else perm_pw)
              else 0)
      lookup v' e₁ e₂ = elim (Bool-cases ((p == 0) || is_kernel (pde_of va))) [
        | inl mapped ↦
            let pde : v'.pdir p (pde_of va) ≡ identity_pde (pde_of va) = e₁ ∙ rw mapped in
            let present : (identity_pde (pde_of va) == 0) ≡ false = ==-false _ _ (omega arith) in
            let addr : page_base (identity_pde (pde_of va)) ≡ idptbl + pde_of va * page_size =
              omega arith in
            let page : page_base va ≡ (pde_of va * 1024 + pte_of va) * page_size = omega arith in
            rw (mapped, pde, present, addr, page) e₂
        | inr absent ↦ let pde : v'.pdir p (pde_of va) ≡ 0 = e₁ ∙ rw absent in rw (absent, pde)
      ]
