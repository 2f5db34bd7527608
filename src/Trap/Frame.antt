-- ===== src/Trap/Frame.antt =====
-- `tf_t` of kern/lib/trap.h, and the accessors of kern/trap/TSyscallArg/TSyscallArg.c.
use os_project_signal.Prelude.{ℕ}

-- `tf_t`, with the registers of `pushregs` in it, without its padding.
pub record Frame : Type 0 where
  pub edi : ℕ
  pub esi : ℕ
  pub ebp : ℕ
  pub oesp : ℕ
  pub ebx : ℕ
  pub edx : ℕ
  pub ecx : ℕ
  pub eax : ℕ
  pub es : ℕ
  pub ds : ℕ
  pub trapno : ℕ
  pub err : ℕ
  pub eip : ℕ
  pub cs : ℕ
  pub eflags : ℕ
  pub esp : ℕ
  pub ss : ℕ

unfoldable pub syscall_get_arg1 : Frame → ℕ
syscall_get_arg1 tf = tf.eax

unfoldable pub syscall_get_arg2 : Frame → ℕ
syscall_get_arg2 tf = tf.ebx

unfoldable pub syscall_get_arg3 : Frame → ℕ
syscall_get_arg3 tf = tf.ecx

unfoldable pub syscall_get_arg4 : Frame → ℕ
syscall_get_arg4 tf = tf.edx

unfoldable pub syscall_get_arg5 : Frame → ℕ
syscall_get_arg5 tf = tf.esi

unfoldable pub syscall_get_arg6 : Frame → ℕ
syscall_get_arg6 tf = tf.edi

unfoldable pub syscall_set_errno : Frame → ℕ → Frame
syscall_set_errno tf errno = record tf { eax = errno }

unfoldable pub syscall_set_retval1 : Frame → ℕ → Frame
syscall_set_retval1 tf retval = record tf { ebx = retval }

unfoldable pub syscall_set_retval2 : Frame → ℕ → Frame
syscall_set_retval2 tf retval = record tf { ecx = retval }

unfoldable pub syscall_set_retval3 : Frame → ℕ → Frame
syscall_set_retval3 tf retval = record tf { edx = retval }

unfoldable pub syscall_set_retval4 : Frame → ℕ → Frame
syscall_set_retval4 tf retval = record tf { esi = retval }

unfoldable pub syscall_set_retval5 : Frame → ℕ → Frame
syscall_set_retval5 tf retval = record tf { edi = retval }

-- The error numbers of kern/lib/syscall.h that the modelled calls return.
abbrev pub e_succ : ℕ
e_succ = 0

abbrev pub e_mem : ℕ
e_mem = 1

abbrev pub e_inval_callnr : ℕ
e_inval_callnr = 3

abbrev pub e_inval_addr : ℕ
e_inval_addr = 4

abbrev pub e_inval_pid : ℕ
e_inval_pid = 5

abbrev pub e_exceeds_quota : ℕ
e_exceeds_quota = 23

abbrev pub e_max_num_childen_reached : ℕ
e_max_num_childen_reached = 24

abbrev pub e_inval_child_id : ℕ
e_inval_child_id = 25

abbrev pub e_inval_signum : ℕ
e_inval_signum = 30
