-- ===== src/Fs/File/Descriptor.antt =====
-- The descriptors that fdalloc gives out.
use os_project_signal.Prelude.{
  ℕ, zero, suc, ◌+◌, ◌≤◌, ◌<◌, ◌≡◌, ◌≢◌, ◌⊎◌, inl, inr, refl, sym, ap, ◌∙◌, false, arith, some,
  none, ◌==◌, update, Bool-cases, ==_refl, ==-false,
}
use os_project_signal.Thread.Tcb.{Threads, tcb_get_openfiles, tcb_set_openfiles}
use os_project_signal.Fs.File.{nofile, find_fd, fdalloc}

find_fd-cases :
    (fds : ℕ → ℕ) (idx rest : ℕ)
    → idx + rest ≡ nofile
    → let fd = find_fd fds idx rest in
      ((idx ≤ fd) × (fd < nofile) × (fds fd ≡ 0) × ((k : ℕ) → idx ≤ k → k < fd → fds k ≢ 0))
      ⊎ ((fd ≡ nofile) × ((k : ℕ) → idx ≤ k → k < nofile → fds k ≢ 0))
unfolding find_fd
find_fd-cases fds idx zero e = inr (refl, λ k p q. absurd (omega arith))
find_fd-cases fds idx (suc rest) e = elim (Bool-cases (fds idx == 0)) [
  | inl free ↦ rw free (inl (omega arith, omega arith, ground arith, λ k p q. absurd (omega arith)))
  | inr used ↦ elim (find_fd-cases fds (suc idx) rest (omega arith)) [
    | inl (le, lt, z, below) ↦
        rw used (inl (omega arith, lt, z, λ k p q. onward fds idx k used p (λ p'. below k p' q)))
    | inr (e', all) ↦ rw used (inr (e', λ k p q. onward fds idx k used p (λ p'. all k p' q)))
  ]
]
  where
    onward :
        (fds : ℕ → ℕ) (idx k : ℕ)
        → (fds idx == 0) ≡ false
        → idx ≤ k
        → (suc idx ≤ k → fds k ≢ 0)
        → fds k ≢ 0
    onward fds idx k used le beyond = elim (Bool-cases (k == idx)) [
      | inl same ↦ λ z.
          let e : k ≡ idx = ground arith in
          let z' : fds idx ≡ 0 = ap fds (sym e) ∙ z in ground arith
      | inr other ↦ beyond (ground arith)
    ]

-- fdalloc gives the file the first descriptor of the process that is free, and changes no other; or
-- it fails, and all the descriptors are taken.
pub fdalloc-cases :
    (s : Threads) (curid f : ℕ)
    → ((fd : ℕ) × (s' : Threads) × (fdalloc s curid f ≡ some (fd, s'))
        × (fd < nofile)
        × (tcb_get_openfiles s curid fd ≡ 0)
        × ((k : ℕ) → k < fd → tcb_get_openfiles s curid k ≢ 0)
        × (tcb_get_openfiles s' curid ≡ update (tcb_get_openfiles s curid) fd f)
        × ((p : ℕ) → p ≢ curid → s'.pool p ≡ s.pool p))
      ⊎ ((fdalloc s curid f ≡ none) × ((k : ℕ) → k < nofile → tcb_get_openfiles s curid k ≢ 0))
unfolding fdalloc tcb_get_openfiles tcb_set_openfiles
fdalloc-cases s curid f = elim (find_fd-cases (tcb_get_openfiles s curid) 0 nofile refl) [
  | inl (le, lt, z, below) ↦
      let fd = find_fd (tcb_get_openfiles s curid) 0 nofile in
      inl (
        fd,
        tcb_set_openfiles s curid fd f,
        rw (==-false fd nofile (omega arith)) refl,
        lt,
        z,
        λ k p. below k (omega arith) p,
        rw (tcb_get_openfiles, ==_refl curid) refl,
        λ p ne. rw (==-false curid p (λ e. ne (sym e))) refl,
      )
  | inr (e, all) ↦ inr (rw e refl, λ k p. all k (omega arith) p)
]
