-- ===== src/Fs/Sysfile.antt =====
-- The calls of kern/fs/sysfile.c on open files. `kva` is where kern_buf lies, and `stale` what it
-- holds before a copy; buf_lock is held from the start of sys_read and sys_write to the end. The
-- table of descriptors holds pointers: one more than the index of the file, and 0 for none. An
-- `int` descriptor that is negative is above the others as a word.
pub mod Paths
pub mod Links
pub mod Guards
use os_project_signal.Prelude.{
  ℕ, zero, suc, ◌+◌, ◌-◌, ◌*◌, ◌%◌, ◌^◌, ◌≡◌, Bool, true, false, ◌||◌, not, List, [], arith, Option,
  some, none, ◌==◌, leb, ltb, u32, if◌then◌else◌, length,
}
use os_project_signal.Vmm.Phys.{read_bytes, write_bytes}
use os_project_signal.Vmm.Table.{Vm}
use os_project_signal.Vmm.Copy.{vm_userlo, vm_userhi, pt_copyin, pt_copyout}
use os_project_signal.Thread.Tcb.{Threads, get_curid, tcb_get_openfiles, tcb_set_openfiles}
use os_project_signal.Trap.Frame.{
  Frame, syscall_get_arg2, syscall_get_arg3, syscall_get_arg4, syscall_set_errno,
  syscall_set_retval1, e_succ, e_inval_addr,
}
use os_project_signal.Fs.Result.{Result, ok, sleeps, panics, ◌>>=◌}
use os_project_signal.Fs.Inode.{ninode}
use os_project_signal.Fs.Inode.Content.{Outside}
use os_project_signal.Fs.File.{File, nofile}
use os_project_signal.Fs.File.Access.{Files, close_file, file_stat, file_read, file_write}

-- What the calls change; `first` is that of sys_open.
pub record Calls : Type 0 where
  pub files : Files
  pub threads : Threads
  pub vm : Vm
  pub tf : Frame
  pub first : Bool

abbrev pub e_disk_op : ℕ
e_disk_op = 13

abbrev pub e_nexist : ℕ
e_nexist = 26

abbrev pub e_create : ℕ
e_create = 27

abbrev pub e_badf : ℕ
e_badf = 29

-- -1
abbrev pub minus_one : ℕ
minus_one = 2 ^ 32 - 1

abbrev pub set_errno : Calls → ℕ → Calls
set_errno s errno = record s { tf = syscall_set_errno s.tf errno }

abbrev pub answer : Calls → ℕ → ℕ → Calls
answer s retval errno = record s { tf = syscall_set_errno (syscall_set_retval1 s.tf retval) errno }

-- sizeof(kern_buf)
abbrev pub buf_size : ℕ
buf_size = 10000

-- The guard on the buffer of the user.
abbrev pub bad_buffer : ℕ → ℕ → Bool
bad_buffer user_buf n =
    ltb user_buf vm_userlo || ltb vm_userhi (u32 (user_buf + n)) || ltb buf_size n

module _ (e : Outside) (cpu kva : ℕ) (stale : ℕ → ℕ) (s : Calls) where
  abbrev pub pid : ℕ
  pid = get_curid cpu s.threads

  abbrev pub fd : ℕ
  fd = syscall_get_arg2 s.tf

  abbrev pub fp : ℕ
  fp = tcb_get_openfiles s.threads pid fd

  -- `fp == 0 || fp->ip == 0`
  abbrev pub no_file : Bool
  no_file = (fp == 0) || ((s.files.file (fp - 1)).ip == ninode)

  -- What sys_read does with the result of file_read.
  abbrev pub after_read : Option (List ℕ) → Files → Calls
  after_read none files = answer (record s { files = files }) minus_one e_succ
  after_read (some bytes) files =
      let user_buf = syscall_get_arg3 s.tf in
      let n = length bytes in
      let vm = if ltb 0 n then (pt_copyout s.vm kva bytes pid user_buf n).1 else s.vm in
      answer (record s { files = files; vm = vm }) n e_succ

  unfoldable pub sys_read : Result Calls
  sys_read =
      let n = syscall_get_arg4 s.tf in
      if leb nofile fd
      then ok (answer s minus_one e_badf)
      else if bad_buffer (syscall_get_arg3 s.tf) n
      then ok (answer s minus_one e_inval_addr)
      else if no_file
      then ok (answer s minus_one e_badf)
      else (do (r, files) ← file_read e s.files (fp - 1) n; ok (after_read r files))

  abbrev pub write_value : Option ℕ → ℕ
  write_value none = minus_one
  write_value (some n) = n

  unfoldable pub sys_write : Result Calls
  sys_write =
      let n = syscall_get_arg4 s.tf in
      if leb nofile fd
      then ok (answer s minus_one e_badf)
      else if bad_buffer (syscall_get_arg3 s.tf) n
      then ok (answer s minus_one e_inval_addr)
      else if no_file
      then ok (answer s minus_one e_badf)
      else (do
        let (count, bytes, vm) = pt_copyin s.vm pid (syscall_get_arg3 s.tf) kva n
        (r, files) ← file_write e s.files (fp - 1) (read_bytes (write_bytes stale 0 bytes) 0 n)
        ok (answer (record s { files = files; vm = vm }) (write_value r) e_succ))

  unfoldable pub sys_close : Result Calls
  sys_close =
      if leb nofile fd
      then ok (answer s minus_one e_badf)
      else if fp == 0
      then ok (answer s minus_one e_badf)
      else (do
        files ← close_file s.files (fp - 1)
        ok (
            answer (record s { files = files; threads = tcb_set_openfiles s.threads pid fd 0 }) 0
              e_succ))

  -- sizeof(struct file_stat)
  abbrev pub stat_size : ℕ
  stat_size = 20

  -- The result of file_stat stays in a local variable.
  abbrev pub stat_value : {A : Type 0} → Option A → ℕ
  stat_value none = minus_one
  stat_value (some st) = 0

  unfoldable pub sys_fstat : Result Calls
  sys_fstat =
      let user_stp = syscall_get_arg3 s.tf in
      if leb nofile fd || ltb user_stp vm_userlo || ltb vm_userhi (u32 (user_stp + stat_size))
      then ok (answer s minus_one e_badf)
      else if fp == 0
      then ok (answer s minus_one e_badf)
      else (do
        let (count, bytes, vm) = pt_copyin s.vm pid user_stp kva stat_size
        (st, files) ← file_stat s.files (fp - 1)
        let state = stat_value st
        ok (
            answer (record s { files = files; vm = vm }) state
              (if state == 0 then e_succ else e_badf)))
