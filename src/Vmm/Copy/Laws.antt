-- ===== src/Vmm/Copy/Laws.antt =====
-- A copy within one page that is present moves just its bytes.
use mathlib.Core.List.{append-nil}
use os_project_signal.Prelude.{
  ℕ, zero, suc, ◌+◌, ◌-◌, ◌%◌, ◌≤◌, ◌<◌, ◌≡◌, refl, ap, true, List, [], ◌∷◌, arith, length,
  ==-false,
}
use os_project_signal.Vmm.Phys.{read_bytes, write_bytes}
use os_project_signal.Vmm.Table.{Vm, page_size, page_base, get_ptbl_entry_by_va}
use os_project_signal.Vmm.Copy.{
  vm_userlo, vm_userhi, in_range, locate, chunk, take, copyin_loop, pt_copyin, copyout_loop,
  pt_copyout,
}

-- The physical address of `va`.
abbrev pub pa_of : Vm → ℕ → ℕ → ℕ
pa_of v p va = page_base (get_ptbl_entry_by_va v p va) + va % page_size

take-length : (bs : List ℕ) → take (length bs) bs ≡ bs
take-length [] = refl
take-length (b ∷ bs) = ap (λ l. b ∷ l) (take-length bs)

copyout_loop-zero :
    (fuel : ℕ) (v : Vm) (bs : List ℕ) (p uva : ℕ) → copyout_loop fuel v bs p uva 0 ≡ v
unfolding copyout_loop
copyout_loop-zero zero v bs p uva = refl
copyout_loop-zero (suc fuel) v bs p uva = refl

copyin_loop-zero : (fuel : ℕ) (v : Vm) (p uva : ℕ) → copyin_loop fuel v p uva 0 ≡ ([], v)
unfolding copyin_loop
copyin_loop-zero zero v p uva = refl
copyin_loop-zero (suc fuel) v p uva = refl

-- The bytes from `uva` on lie in user memory and in one page, which is present, and the kernel's
-- buffer lies below the end of user memory.
pub record InPage (v : Vm) (kva p uva len : ℕ) : Type 0 where
  pub some_bytes : 0 < len
  pub one_page : uva % page_size + len ≤ page_size
  pub above : vm_userlo ≤ uva
  pub below : uva + len ≤ vm_userhi
  pub buffer : kva + len ≤ vm_userhi
  pub present : get_ptbl_entry_by_va v p uva % 2 ≡ 1

module _ (v : Vm) (kva p uva len : ℕ) (h : InPage v kva p uva len) where
  locate-present : locate v p uva ≡ (pa_of v p uva, v)
  unfolding locate
  locate-present = rw h.present

  chunk-whole : chunk len (pa_of v p uva) ≡ len
  chunk-whole = let a = h.one_page in ground arith

  ranged : in_range kva uva len ≡ true
  ranged = let a = h.above in let b = h.below in let c = h.buffer in ground arith

  pt_copyout-page_aux :
      (n : ℕ) (bs : List ℕ)
      → len ≡ suc n
      → len ≡ length bs
      → copyout_loop (suc n) v bs p uva len
        ≡ record v { phys = write_bytes v.phys (pa_of v p uva) bs }
  unfolding copyout_loop
  pt_copyout-page_aux n bs e e' =
      let none_left : len - len ≡ 0 = omega arith in
      let all : take len bs ≡ bs = rw e' (take-length bs) in
      rw (
        locate-present,
        chunk-whole,
        ==-false len 0 (omega arith),
        none_left,
        copyout_loop-zero,
        all,
      )

  -- pt_copyout writes the bytes at the physical address, and nothing else.
  pub pt_copyout-page :
      (bs : List ℕ)
      → len ≡ length bs
      → pt_copyout v kva bs p uva len
        ≡ (len, record v { phys = write_bytes v.phys (pa_of v p uva) bs })
  unfolding pt_copyout
  pt_copyout-page bs e =
      rw ranged (ap (λ (w : Vm). (let r : ℕ × Vm = (len, w) in r)) (go len h.some_bytes refl))
    where
      go :
          (m : ℕ)
          → 0 < m
          → len ≡ m
          → copyout_loop m v bs p uva len
            ≡ record v { phys = write_bytes v.phys (pa_of v p uva) bs }
      go zero lt e' = absurd (omega arith)
      go (suc n) lt e' = pt_copyout-page_aux n bs e' e

  pt_copyin-page_aux :
      (n : ℕ)
      → len ≡ suc n
      → copyin_loop (suc n) v p uva len ≡ (read_bytes v.phys (pa_of v p uva) len, v)
  unfolding copyin_loop
  pt_copyin-page_aux n e =
      let none_left : len - len ≡ 0 = omega arith in
      rw (
        locate-present,
        chunk-whole,
        ==-false len 0 (omega arith),
        none_left,
        copyin_loop-zero,
        append-nil,
      )

  -- pt_copyin reads the bytes at the physical address, and changes nothing.
  pub pt_copyin-page : pt_copyin v p uva kva len ≡ (len, read_bytes v.phys (pa_of v p uva) len, v)
  unfolding pt_copyin
  pt_copyin-page = rw (ranged, go len h.some_bytes refl)
    where
      go :
          (m : ℕ)
          → 0 < m
          → len ≡ m
          → copyin_loop m v p uva len ≡ (read_bytes v.phys (pa_of v p uva) len, v)
      go zero lt e' = absurd (omega arith)
      go (suc n) lt e' = pt_copyin-page_aux n e'
