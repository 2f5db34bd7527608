-- ===== src/Fs/Sysfile/Links.antt =====
-- sys_link and sys_unlink of kern/fs/sysfile.c.
use os_project_signal.Prelude.{
  ℕ, ◌^◌, true, false, ◌||◌, not, List, Option, some, none, ◌==◌, leb, if◌then◌else◌,
}
use os_project_signal.Vmm.Phys.{read_bytes}
use os_project_signal.Trap.Frame.{
  syscall_get_arg2, syscall_get_arg3, syscall_get_arg4, syscall_get_arg5, e_succ,
}
use os_project_signal.Fs.Result.{Result, ok, panics, ◌>>=◌}
use os_project_signal.Fs.Inode.{
  Inodes, inode_update, inode_lock, inode_unlock, inode_put, inode_unlockput,
}
use os_project_signal.Fs.Inode.Content.{Outside, inode_write}
use os_project_signal.Fs.Dir.{t_dir, entry_size, write_count, dir_namecmp, dir_lookup, dir_link}
use os_project_signal.Fs.Namei.{dot, dot_dot, add_link, drop_link, namei, nameiparent, isdirempty}
use os_project_signal.Fs.File.Access.{begin_on, commit_on}
use os_project_signal.Fs.Sysfile.{Calls, set_errno, e_disk_op, e_nexist}
use os_project_signal.Fs.Sysfile.Paths.{inodes_of, set_inodes, set_vm, user_path, cwd_of}

module _ (e : Outside) (cpu kva : ℕ) (stale : ℕ → ℕ) where
  -- The end of sys_link that takes the link back.
  unfoldable pub link_bad : Calls → Inodes → ℕ → Result Calls
  link_bad s t ip = do
    t ← inode_lock t ip
    t ← inode_update (drop_link t ip) ip
    t ← inode_unlockput t ip
    t ← commit_on t
    ok (set_errno (set_inodes s t) e_disk_op)

  -- sys_link after nameiparent.
  unfoldable pub link_in : Calls → Inodes → ℕ → List ℕ → Option ℕ → Result Calls
  link_in s t ip name none = link_bad s t ip
  link_in s t ip name (some dp) = do
    t ← inode_lock t dp
    (linked, t) ←
        (if not ((t.inode dp).dev == (t.inode ip).dev)
          then ok (false, t)
          else dir_link e t dp name (t.inode ip).inum)
    t ← inode_unlockput t dp
    if not linked
        then link_bad s t ip
        else (do t ← inode_put t ip; t ← commit_on t; ok (set_errno (set_inodes s t) e_succ))

  -- sys_link after namei.
  unfoldable pub link_old : Calls → List ℕ → Option ℕ → Result Calls
  link_old s new none = ok (set_errno s e_nexist)
  link_old s new (some ip) = do
    t ← begin_on (inodes_of s)
    t ← inode_lock t ip
    if (t.inode ip).type_ == t_dir
        then (do
          t ← inode_unlockput t ip
          t ← commit_on t
          ok (set_errno (set_inodes s t) e_disk_op))
        else (do
          t ← inode_update (add_link t ip) ip
          t ← inode_unlock t ip
          (dp, name, t) ← nameiparent e (cwd_of e cpu kva stale s) t new
          link_in s t ip name dp)

  unfoldable pub sys_link : Calls → Result Calls
  sys_link s = do
    let (old, vm) = user_path e cpu kva stale s (syscall_get_arg2 s.tf) (syscall_get_arg4 s.tf)
    let s = set_vm s vm
    let (new, vm) = user_path e cpu kva stale s (syscall_get_arg3 s.tf) (syscall_get_arg5 s.tf)
    let s = set_vm s vm
    (ip, t) ← namei e (cwd_of e cpu kva stale s) (inodes_of s) old
    link_old (set_inodes s t) new ip

  -- The end of sys_unlink that fails.
  unfoldable pub unlink_bad : Calls → Inodes → ℕ → Result Calls
  unlink_bad s t dp = do
    t ← inode_unlockput t dp
    t ← commit_on t
    ok (set_errno (set_inodes s t) e_disk_op)

  -- sys_unlink after dir_lookup, with both inodes.
  unfoldable pub unlink_entry : Calls → Inodes → ℕ → ℕ → ℕ → Result Calls
  unlink_entry s t dp ip off = do
    t ← inode_lock t ip
    if ((t.inode ip).nlink == 0) || leb (2 ^ 15) (t.inode ip).nlink then panics else (do
      (empty, t) ← (if (t.inode ip).type_ == t_dir then isdirempty e t ip else ok (true, t))
      if not empty then (do t ← inode_unlockput t ip; unlink_bad s t dp) else (do
        (r, t) ← inode_write e t dp off (read_bytes (λ j. 0) 0 entry_size)
        if not (write_count r == entry_size) then panics else (do
          t ← (if (t.inode ip).type_ == t_dir then inode_update (drop_link t dp) dp else ok t)
          t ← inode_unlockput t dp
          t ← inode_update (drop_link t ip) ip
          t ← inode_unlockput t ip
          t ← commit_on t
          ok (set_errno (set_inodes s t) e_succ))))

  -- sys_unlink after dir_lookup.
  unfoldable pub unlink_found : Calls → Inodes → ℕ → Option (ℕ × ℕ) → Result Calls
  unlink_found s t dp none = unlink_bad s t dp
  unlink_found s t dp (some (ip, off)) = unlink_entry s t dp ip off

  -- sys_unlink after nameiparent.
  unfoldable pub unlink_in : Calls → List ℕ → Option ℕ → Result Calls
  unlink_in s name none = ok (set_errno s e_disk_op)
  unlink_in s name (some dp) = do
    t ← begin_on (inodes_of s)
    t ← inode_lock t dp
    if (dir_namecmp name dot == 0) || (dir_namecmp name dot_dot == 0)
        then unlink_bad s t dp
        else (do (found, t) ← dir_lookup e t dp name; unlink_found s t dp found)

  unfoldable pub sys_unlink : Calls → Result Calls
  sys_unlink s = do
    let (path, vm) = user_path e cpu kva stale s (syscall_get_arg2 s.tf) (syscall_get_arg3 s.tf)
    let s = set_vm s vm
    (dp, name, t) ← nameiparent e (cwd_of e cpu kva stale s) (inodes_of s) path
    unlink_in (set_inodes s t) name dp
