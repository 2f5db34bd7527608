-- ===== src/Fs/Sysfile/Paths.antt =====
-- The calls of kern/fs/sysfile.c on paths: sys_open, sys_mkdir and sys_chdir. `stale` is what the
-- buffers on the stack hold before a copy. The directory of a thread is one more than the index of
-- its inode, 0 the null pointer.
use os_project_signal.Prelude.{
  ℕ, ◌+◌, ◌-◌, ◌/◌, ◌%◌, Bool, false, ◌&&◌, ◌||◌, not, List, [], ◌∷◌, Option, some, none, ◌==◌, ltb,
  if◌then◌else◌, update,
}
use os_project_signal.Vmm.Phys.{read_bytes, write_bytes}
use os_project_signal.Vmm.Table.{Vm}
use os_project_signal.Vmm.Copy.{pt_copyin}
use os_project_signal.Thread.Tcb.{get_curid, tcb_get_cwd, tcb_set_cwd}
use os_project_signal.Trap.Frame.{syscall_get_arg2, syscall_get_arg3, syscall_get_arg4, e_succ}
use os_project_signal.Fs.Result.{Result, ok, ◌>>=◌}
use os_project_signal.Fs.Log.{log_init}
use os_project_signal.Fs.Inode.{
  Inodes, ninode, set_disk, inode_lock, inode_unlock, inode_put, inode_unlockput,
}
use os_project_signal.Fs.Inode.Content.{Outside}
use os_project_signal.Fs.Dir.{t_dir}
use os_project_signal.Fs.Namei.{t_file, namei, create}
use os_project_signal.Fs.File.{File, fd_inode, file_alloc, fdalloc}
use os_project_signal.Fs.File.Access.{Files, begin_on, commit_on, close_file}
use os_project_signal.Fs.Sysfile.{
  Calls, set_errno, answer, minus_one, e_disk_op, e_nexist, e_create,
}

-- The characters up to the terminator.
abbrev pub c_string : List ℕ → List ℕ
c_string [] = []
c_string (x ∷ xs) = if x == 0 then [] else x ∷ c_string xs

abbrev pub inodes_of : Calls → Inodes
inodes_of s = s.files.inodes

abbrev pub set_inodes : Calls → Inodes → Calls
set_inodes s t = record s { files = record s.files { inodes = t } }

abbrev pub set_vm : Calls → Vm → Calls
set_vm s vm = record s { vm = vm }

-- The place in memory that a pointer to an inode stands for.
abbrev pub place_of : ℕ → ℕ
place_of p = if p == 0 then ninode else p - 1

-- A bit of `omode`.
abbrev pub has_flag : ℕ → ℕ → Bool
has_flag omode flag = omode / flag % 2 == 1

abbrev pub o_wronly : ℕ
o_wronly = 1

abbrev pub o_rdwr : ℕ
o_rdwr = 2

abbrev pub o_create : ℕ
o_create = 512

module _ (e : Outside) (cpu kva : ℕ) (stale : ℕ → ℕ) where
  -- A path of the user: at most 127 characters.
  abbrev pub user_path : Calls → ℕ → ℕ → List ℕ × Vm
  user_path s uva len =
      let n = if ltb len 128 then len else 127 in
      let (count, bytes, vm) = pt_copyin s.vm (get_curid cpu s.threads) uva kva n in
      (c_string (read_bytes (write_bytes stale 0 bytes) 0 n), vm)

  abbrev pub cwd_of : Calls → ℕ
  cwd_of s = place_of (tcb_get_cwd s.threads (get_curid cpu s.threads))

  -- The first call recovers the log.
  unfoldable pub first_open : Calls → Result Calls
  first_open s =
      if s.first
      then (do
        (l, c) ← log_init (inodes_of s).log (inodes_of s).cache
        ok (record (set_inodes s (set_disk (inodes_of s) (l, c))) { first = false }))
      else ok s

  -- sys_open with an inode that is locked: the file and the descriptor.
  unfoldable pub open_file : Calls → ℕ → ℕ → Option (ℕ × (ℕ → File)) → Result Calls
  open_file s ip omode none = do
    t ← inode_unlockput (inodes_of s) ip
    ok (answer (set_inodes s t) minus_one e_disk_op)
  open_file s ip omode (some (f, table)) =
      let s = record s { files = record s.files { file = table } } in
      elim (fdalloc s.threads (get_curid cpu s.threads) (f + 1)) [
        | none ↦ (do
          files ← close_file s.files f
          t ← inode_unlockput files.inodes ip
          ok (answer (record s { files = record files { inodes = t } }) minus_one e_disk_op))
        | some (fd, threads) ↦ (do
          t ← inode_unlock (inodes_of s) ip
          let x : File = record (s.files.file f) {
            fd_type = fd_inode;
            ip = ip;
            off = 0;
            readable = not (has_flag omode o_wronly);
            writable = has_flag omode o_wronly || has_flag omode o_rdwr;
          }
          let files : Files = record { file = update s.files.file f x; inodes = t }
          ok (answer (record s { files = files; threads = threads }) fd e_succ))
      ]

  -- After create.
  unfoldable pub open_created : Calls → ℕ → Option ℕ → Result Calls
  open_created s omode none = ok (answer s minus_one e_create)
  open_created s omode (some ip) = open_file s ip omode (file_alloc s.files.file)

  -- After namei.
  unfoldable pub open_found : Calls → ℕ → Option ℕ → Result Calls
  open_found s omode none = ok (answer s minus_one e_nexist)
  open_found s omode (some ip) = do
    t ← inode_lock (inodes_of s) ip
    if ((t.inode ip).type_ == t_dir) && not (omode == 0)
        then (do t ← inode_unlockput t ip; ok (answer (set_inodes s t) minus_one e_disk_op))
        else open_file (set_inodes s t) ip omode (file_alloc s.files.file)

  unfoldable pub sys_open : Calls → Result Calls
  sys_open s = do
    s ← first_open s
    let (path, vm) = user_path s (syscall_get_arg2 s.tf) (syscall_get_arg4 s.tf)
    let s = set_vm s vm
    let omode = syscall_get_arg3 s.tf
    if has_flag omode o_create
        then (do
          t ← begin_on (inodes_of s)
          (ip, t) ← create e (cwd_of s) t path t_file 0 0
          t ← commit_on t
          open_created (set_inodes s t) omode ip)
        else (do
          (ip, t) ← namei e (cwd_of s) (inodes_of s) path
          open_found (set_inodes s t) omode ip)

  -- sys_mkdir after create.
  unfoldable pub made : Calls → Inodes → Option ℕ → Result Calls
  made s t none = do t ← commit_on t; ok (set_errno (set_inodes s t) e_disk_op)
  made s t (some ip) = do
    t ← inode_unlockput t ip
    t ← commit_on t
    ok (set_errno (set_inodes s t) e_succ)

  unfoldable pub sys_mkdir : Calls → Result Calls
  sys_mkdir s = do
    let (path, vm) = user_path s (syscall_get_arg2 s.tf) (syscall_get_arg3 s.tf)
    let s = set_vm s vm
    t ← begin_on (inodes_of s)
    (ip, t) ← create e (cwd_of s) t path t_dir 0 0
    made s t ip

  -- sys_chdir after namei.
  unfoldable pub changed_to : Calls → Option ℕ → Result Calls
  changed_to s none = ok (set_errno s e_disk_op)
  changed_to s (some ip) = do
    t ← inode_lock (inodes_of s) ip
    if not ((t.inode ip).type_ == t_dir)
        then (do t ← inode_unlockput t ip; ok (set_errno (set_inodes s t) e_disk_op))
        else (do
          t ← inode_unlock t ip
          t ← inode_put t (cwd_of s)
          let threads = tcb_set_cwd s.threads (get_curid cpu s.threads) (ip + 1)
          ok (set_errno (record (set_inodes s t) { threads = threads }) e_succ))

  unfoldable pub sys_chdir : Calls → Result Calls
  sys_chdir s = do
    let (path, vm) = user_path s (syscall_get_arg2 s.tf) (syscall_get_arg3 s.tf)
    let s = set_vm s vm
    (ip, t) ← namei e (cwd_of s) (inodes_of s) path
    changed_to (set_inodes s t) ip
