-- ===== src/Ipc.antt =====
-- kern/lib/ipc.c: the queue of the processes that wait for their message to be read.
pub mod Queue
pub mod Search
use os_project_signal.Prelude.{
  ℕ, zero, suc, ◌+◌, ◌-◌, ◌≡◌, Bool, true, false, ◌||◌, not, arith, Option, some, none, List, ◌==◌,
  ltb, if◌then◌else◌, update,
}
use os_project_signal.Pmm.Container.{num_ids}

-- `struct MsgBlock`, without the variables that threads sleep on.
pub record MsgBlock : Type 0 where
  pub prev : ℕ
  pub next : ℕ
  pub send_pid : ℕ
  pub recv_pid : ℕ
  pub length : ℕ
  pub buffer_addr : ℕ

-- msgBlock and msgQueue; num_ids for none.
pub record Ipc : Type 0 where
  pub block : ℕ → MsgBlock
  pub head : ℕ
  pub tail : ℕ

abbrev pub set_prev : Ipc → ℕ → ℕ → Ipc
set_prev s pid x = record s { block = update s.block pid (record (s.block pid) { prev = x }) }

abbrev pub set_next : Ipc → ℕ → ℕ → Ipc
set_next s pid x = record s { block = update s.block pid (record (s.block pid) { next = x }) }

unfoldable pub ipc_init : Ipc
ipc_init = record {
  block = λ i. record {
    prev = num_ids;
    next = num_ids;
    send_pid = i;
    recv_pid = num_ids;
    length = 0;
    buffer_addr = 0;
  };
  head = num_ids;
  tail = num_ids;
}

unfoldable pub msg_enqueue : Ipc → ℕ → Ipc
msg_enqueue s send_pid =
    let tail = s.tail in
    if tail == num_ids
    then (let s = set_prev s send_pid num_ids in
        let s = set_next s send_pid num_ids in record s { tail = send_pid; head = send_pid })
    else (let s = set_next s tail send_pid in
        let s = set_prev s send_pid tail in
        let s = set_next s send_pid num_ids in record s { tail = send_pid })

unfoldable pub msg_remove : Ipc → ℕ → Ipc
msg_remove s send_pid =
    let prev = (s.block send_pid).prev in
    let next = (s.block send_pid).next in
    let unlinked : Ipc =
      if prev == num_ids
      then (if next == num_ids
          then record s { head = num_ids; tail = num_ids }
          else set_prev (record s { head = next }) next num_ids)
      else (if next == num_ids
          then set_next (record s { tail = prev }) prev num_ids
          else set_prev (set_next s prev next) next prev) in
    set_prev (set_next unlinked send_pid num_ids) send_pid num_ids

-- The loop of msg_getBlockBySendID from `pid`, at most `fuel` rounds of it; `none` when they are
-- not enough.
unfoldable pub search_send : Ipc → ℕ → ℕ → ℕ → Option ℕ
search_send s send_pid zero pid = none
search_send s send_pid (suc fuel) pid =
    let rest = search_send s send_pid fuel (s.block pid).next in
    if pid == num_ids
    then some num_ids
    else if (s.block pid).send_pid == send_pid
    then some send_pid
    else rest

unfoldable pub msg_get_block_by_send_id : Ipc → ℕ → ℕ → Option ℕ
msg_get_block_by_send_id s fuel send_pid = search_send s send_pid fuel s.head

-- The loop of msg_getBlockByRecvID, which does not change `pid`.
unfoldable pub search_recv : Ipc → ℕ → ℕ → ℕ → Option ℕ
search_recv s recv_pid zero pid = none
search_recv s recv_pid (suc fuel) pid =
    let rest = search_recv s recv_pid fuel pid in
    if pid == num_ids
    then some num_ids
    else if (s.block pid).recv_pid == recv_pid
    then some (s.block pid).send_pid
    else rest

unfoldable pub msg_get_block_by_recv_id : Ipc → ℕ → ℕ → Option ℕ
msg_get_block_by_recv_id s fuel recv_pid = search_recv s recv_pid fuel s.head

-- sys_sync_send up to its loop, without the wake-up: the message waits in the queue.
unfoldable pub post_message : Ipc → ℕ → ℕ → ℕ → ℕ → Ipc
post_message s cur_pid recv_pid user_addr len =
    msg_enqueue
      (record s {
        block = update s.block cur_pid (record (s.block cur_pid) {
          recv_pid = recv_pid;
          buffer_addr = user_addr;
          length = len;
        });
      })
      cur_pid

abbrev waits : Ipc → ℕ → ℕ → Option ℕ → Option Bool
waits s send_pid cur_pid none = none
waits s send_pid cur_pid (some found) =
    some ((found == num_ids) || not ((s.block send_pid).recv_pid == cur_pid))

-- The condition of the loop of sys_sync_recv: the message of `send_pid` is not there, or is for
-- another process.
unfoldable pub must_wait : Ipc → ℕ → ℕ → ℕ → Option Bool
must_wait s fuel send_pid cur_pid =
    waits s send_pid cur_pid (msg_get_block_by_send_id s fuel send_pid)
