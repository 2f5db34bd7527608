-- ===== src/Fs/Sysfile/Guards.antt =====
-- What sys_read, sys_write and sys_fstat of kern/fs/sysfile.c report.
use os_project_signal.Prelude.{
  ℕ, ◌+◌, ◌-◌, ◌≤◌, ◌<◌, ◌≡◌, ◌≢◌, refl, ap, ◌∙◌, true, false, arith, Option, some, leb, ltb, u32,
  ==_refl, ==-false,
}
use os_project_signal.Vmm.Copy.{vm_userlo, vm_userhi, pt_copyin}
use os_project_signal.Trap.Frame.{syscall_get_arg3, syscall_get_arg4, e_succ}
use os_project_signal.Fs.Result.{Result, ok}
use os_project_signal.Fs.Inode.{Inode, Inodes, unreferenced, set_inode, inode_lock, inode_unlock}
use os_project_signal.Fs.Inode.Content.{Outside, FileStat, inode_stat}
use os_project_signal.Fs.File.{fd_inode, nofile}
use os_project_signal.Fs.File.Access.{Files, file_stat, file_read}
use os_project_signal.Fs.File.Access.Durable.{IsReady, lock-ready, unlock-held}
use os_project_signal.Fs.Sysfile.{
  Calls, answer, minus_one, pid, fd, fp, no_file, bad_buffer, stat_size, sys_read, sys_fstat,
}

stat-chain :
    (s : Files) (f : ℕ) (t1 t2 : Inodes)
    → (s.file f).fd_type ≡ fd_inode
    → inode_lock s.inodes (s.file f).ip ≡ ok t1
    → inode_unlock t1 (s.file f).ip ≡ ok t2
    → file_stat s f ≡ ok (some (inode_stat (t1.inode (s.file f).ip)), record s { inodes = t2 })
unfolding file_stat
stat-chain s f t1 t2 kind e1 e2 = rw (kind, e1, e2) refl

-- file_stat of an open inode that is in memory and unlocked.
pub file_stat-ready :
    (s : Files) (f : ℕ)
    → (s.file f).fd_type ≡ fd_inode
    → IsReady s.inodes (s.file f).ip
    → (s' : Files) × (file_stat s f ≡ ok (some (inode_stat (s.inodes.inode (s.file f).ip)), s'))
unfolding file_stat inode_stat
file_stat-ready s f kind h =
    let ip = (s.file f).ip in
    let t1 = set_inode s.inodes ip (record (s.inodes.inode ip) { busy = true }) in
    let own : t1.inode ip ≡ record (s.inodes.inode ip) { busy = true } = rw (==_refl ip) refl in
    let held : unreferenced (t1.inode ip) ≡ false =
      ap (λ (x : Inode). unreferenced x) own ∙ h.held in
    let e1 = lock-ready s.inodes ip h in
    let e2 = unlock-held t1 ip h.place held (ap Inode.busy own) in
    let t2 = set_inode t1 ip (record (t1.inode ip) { busy = false }) in
    (
      record s { inodes = t2 },
      stat-chain s f t1 t2 kind e1 e2
          ∙ ap
              (λ (x : Inode).
                (let r : Result (Option FileStat × Files) =
                    ok (some (inode_stat x), record s { inodes = t2 }) in
                  r))
              own,
    )

module _ (e : Outside) (cpu kva : ℕ) (stale : ℕ → ℕ) (s : Calls) where
  -- sys_fstat on an open inode that is in memory and unlocked, with a buffer in range: it computes
  -- the status of the inode and reports success, and the memory of the process is what pt_copyin
  -- from the buffer leaves, so the status does not reach the process.
  pub sys_fstat-pt_copyin :
      (fd e cpu kva stale s < nofile)
      → vm_userlo ≤ syscall_get_arg3 s.tf
      → syscall_get_arg3 s.tf + stat_size e cpu kva stale s ≤ vm_userhi
      → fp e cpu kva stale s ≢ 0
      → (s.files.file (fp e cpu kva stale s - 1)).fd_type ≡ fd_inode
      → IsReady s.files.inodes (s.files.file (fp e cpu kva stale s - 1)).ip
      → (files : Files) × (file_stat s.files (fp e cpu kva stale s - 1)
          ≡ ok (
            some (inode_stat (s.files.inodes.inode (s.files.file (fp e cpu kva stale s - 1)).ip)),
            files,
          ))
        × (sys_fstat e cpu kva stale s
            ≡ ok (
                answer
                  (record s {
                    files = files;
                    vm =
                        (pt_copyin s.vm
                          (pid e cpu kva stale s)
                          (syscall_get_arg3 s.tf)
                          kva
                          (stat_size e cpu kva stale s)).2;
                  })
                  0
                  e_succ))
  unfolding sys_fstat
  sys_fstat-pt_copyin small low high some_file kind h =
      let (files, e1) = file_stat-ready s.files (fp e cpu kva stale s - 1) kind h in
      let a : leb nofile (fd e cpu kva stale s) ≡ false = ground arith in
      let b : ltb (syscall_get_arg3 s.tf) vm_userlo ≡ false = ground arith in
      let c : ltb vm_userhi (u32 (syscall_get_arg3 s.tf + stat_size e cpu kva stale s)) ≡ false =
        ground arith in
      let d = ==-false (fp e cpu kva stale s) 0 some_file in (files, e1, rw (a, b, c, d, e1) refl)

  -- sys_read on an open file that may not be read, with a buffer in range, returns -1 with the
  -- error number E_SUCC, and changes nothing else.
  sys_read-e_succ :
      fd e cpu kva stale s < nofile
      → bad_buffer (syscall_get_arg3 s.tf) (syscall_get_arg4 s.tf) ≡ false
      → no_file e cpu kva stale s ≡ false
      → (s.files.file (fp e cpu kva stale s - 1)).readable ≡ false
      → sys_read e cpu kva stale s ≡ ok (answer s minus_one e_succ)
  unfolding sys_read file_read
  sys_read-e_succ small inside open_ unreadable =
      let a : leb nofile (fd e cpu kva stale s) ≡ false = ground arith in
      rw (a, inside, open_, unreadable) refl
