-- ===== src/Tests/Fs.antt =====
-- Runs of the file system and of message passing.
use os_project_signal.Prelude.{
  ℕ, ◌+◌, ◌≤◌, ◌≡◌, ◌≢◌, ◌⊎◌, inl, inr, refl, sym, ap, ◌∙◌, true, false, ◌||◌, List, [], ◌∷◌, arith,
  some, none, ◌==◌, if◌then◌else◌, Bool-cases,
}
use os_project_signal.Vmm.Phys.{read_word}
use os_project_signal.Fs.Result.{ok, ◌>>=◌}
use os_project_signal.Fs.Cache.{Buf, Cache, Block, set_buf, set_bytes, bufcache_init, bufcache_read}
use os_project_signal.Fs.Cache.Inv.{unset, IsCache}
use os_project_signal.Fs.Cache.Open.{IsRead, opened-IsRead}
use os_project_signal.Fs.Cache.Read.{ReadSpec, bufcache_read-ReadSpec}
use os_project_signal.Fs.Cache.Write.{set_bytes-IsCache}
use os_project_signal.Fs.Cache.Update.{IsReadable}
use os_project_signal.Fs.Cache.Fresh.{
  bufcache_init-IsCache, bufcache_init-IsCalm, view-bufcache_init,
}
use os_project_signal.Fs.Log.{Log, read_sectors, log_write, recover_from_log, commit_trans}
use os_project_signal.Fs.Log.Redo.{IsPlaced, redo}
use os_project_signal.Fs.Log.Recover.{IsBooted, loaded, recover_from_log-IsBooted}
use os_project_signal.Fs.Log.Reboot.{IsTrans, Write}
use os_project_signal.Fs.Log.Commit.{IsCommitted, commit_trans-IsCommitted}
use os_project_signal.Fs.Log.Changing.{set_bytes-IsChanging}
use os_project_signal.Fs.Log.Append.{IsLogged, log_write-IsLogged}
use os_project_signal.Fs.Path.{
  skip_slashes, skip_name, copy_name, skipelem, Inodes, namex_start, namex,
}
use os_project_signal.Fs.Path.Elems.{split_path, names_of, elems, IsSkipped, skipelem-cases}
use os_project_signal.Fs.Path.Walk.{walk, namex-walk}
use os_project_signal.Ipc.{ipc_init, msg_enqueue, msg_get_block_by_recv_id}
use os_project_signal.Ipc.Queue.{IsMsgQueue, msg_enqueue-IsMsgQueue}
use os_project_signal.Ipc.Search.{
  IsExchange, post_message-IsExchange, msg_get_block_by_recv_id-none,
}

-- A disk with a log from sector 20 on: its block for sector 5 holds sevens, and so does the sector.
abbrev sevens : ℕ → ℕ → Block
sevens d s j = if (s == 5) || (s == 21) then 7 else 0

abbrev one_logged : Log
one_logged = record { start = 20; size = 11; busy = true; dev = 1; n = 1; sector = λ i. 5 }

abbrev none_logged : Log
none_logged = record one_logged { n = 0 }

abbrev booted : Cache
booted = bufcache_init sevens

booted-disk : booted.disk ≡ sevens
unfolding bufcache_init
booted-disk = refl

set : 1 ≢ unset
set = omega arith

one_logged-current : (s : ℕ) → redo 20 (λ i. 5) (sevens 1) (sevens 1) 1 s ≡ sevens 1 s
unfolding redo
one_logged-current s = elim (Bool-cases (5 == s)) [
  | inl same ↦ let e : 5 ≡ s = ground arith in rw same (ap (sevens 1) e)
  | inr other ↦ rw other refl
]

one_logged-IsTrans : IsTrans one_logged booted
unfolding bufcache_init read_word
one_logged-IsTrans = record {
  placed = record {
    set = set;
    fits = omega arith;
    small = omega arith;
    homes = λ i lt. inl (omega arith);
  };
  words = λ i lt. omega arith;
  distinct = λ i j p q e. omega arith;
  uncommitted = refl;
  flushed = λ s out. view-bufcache_init sevens 1 s set;
  current = λ s home. one_logged-current s ∙ sym (view-bufcache_init sevens 1 s set);
}

commit_trans-IsCommitted_example :
    (writes : List Write) × (c' : Cache) × (commit_trans one_logged booted
      ≡ ok (record one_logged { n = 0; busy = false }, c'))
    × IsCommitted one_logged booted writes c'
commit_trans-IsCommitted_example =
    commit_trans-IsCommitted one_logged booted one_logged-IsTrans (bufcache_init-IsCalm sevens)

bufcache_read-ReadSpec_example : ReadSpec booted 1 5 (bufcache_read booted 1 5)
bufcache_read-ReadSpec_example =
    bufcache_read-ReadSpec booted (bufcache_init-IsCache sevens) 1 5 set

-- Buffer 9 with sector 5.
abbrev buffer_5 : Buf
buffer_5 = record {
  busy = true;
  valid = true;
  dirty = false;
  dev = 1;
  sector = 5;
  bytes = sevens 1 5;
}

abbrev held_5 : Cache
held_5 = set_buf booted 9 buffer_5

held_5-IsRead : IsRead booted 1 5 9 held_5
unfolding bufcache_init
held_5-IsRead =
    opened-IsRead booted (bufcache_init-IsCache sevens) 1 5 9 buffer_5 set (omega arith) refl
      (inr (λ j h. set (sym h.1), refl)) refl refl refl refl refl
      (sym (view-bufcache_init sevens 1 5 set))

abbrev nines_5 : Cache
nines_5 = set_bytes held_5 9 (λ j. 9)

nines_5-IsCache : IsCache nines_5
nines_5-IsCache = set_bytes-IsCache held_5 held_5-IsRead.kept 9 (omega arith) refl (λ j. 9)

none_logged-IsTrans : IsTrans none_logged held_5
unfolding bufcache_init read_word redo
none_logged-IsTrans = record {
  placed = record {
    set = set;
    fits = omega arith;
    small = omega arith;
    homes = λ i lt. absurd (omega arith);
  };
  words = λ i lt. absurd (omega arith);
  distinct = λ i j p q e. absurd (omega arith);
  uncommitted = refl;
  flushed = λ s out. held_5-IsRead.same_view 1 s set ∙ view-bufcache_init sevens 1 s set;
  current = λ s home. sym (held_5-IsRead.same_view 1 s set ∙ view-bufcache_init sevens 1 s set);
}

nines_5-IsReadable : (i : ℕ) → i ≤ 0 → IsReadable nines_5 1 (20 + i + 1)
unfolding bufcache_init
nines_5-IsReadable i le = record {
  inv = nines_5-IsCache;
  set = set;
  free = λ b h. ground arith;
  room = (0, omega arith, refl, refl);
}

log_write-IsLogged_example :
    (l' : Log) × (c' : Cache) × (log_write none_logged nines_5 9 ≡ ok (l', c'))
    × IsLogged none_logged nines_5 9 l' c'
log_write-IsLogged_example =
    log_write-IsLogged none_logged nines_5 9
      (set_bytes-IsChanging none_logged held_5 9 (λ j. 9) none_logged-IsTrans held_5-IsRead.kept
        (omega arith) refl refl (inl (omega arith)))
      nines_5-IsCache (omega arith) refl refl refl (inl (omega arith)) (omega arith) (omega arith)
      (omega arith) refl nines_5-IsReadable

-- A disk whose header commits sector 5.
abbrev committed : ℕ → ℕ → Block
committed d s j =
    if s == 20 then (if j == 0 then 1 else if j == 4 then 5 else 0) else if s == 21 then 7 else 0

committed-IsPlaced : IsPlaced (loaded none_logged (committed 1 20))
unfolding read_word read_sectors
committed-IsPlaced = record {
  set = set;
  fits = omega arith;
  small = omega arith;
  homes = λ i lt. inl (ground arith);
}

recover_from_log-IsBooted_example :
    (c : Cache) × (recover_from_log none_logged (bufcache_init committed)
      ≡ ok (record (loaded none_logged (committed 1 20)) { n = 0 }, c))
    × IsBooted (loaded none_logged (committed 1 20)) committed c
recover_from_log-IsBooted_example =
    recover_from_log-IsBooted none_logged committed committed-IsPlaced

-- "/a//bb".
abbrev path_a_bb : List ℕ
path_a_bb = 47 ∷ 97 ∷ 47 ∷ 47 ∷ 98 ∷ 98 ∷ []

skipelem-a_bb : skipelem path_a_bb ≡ some (98 ∷ 98 ∷ [], 97 ∷ [])
unfolding skipelem skip_slashes skip_name copy_name
skipelem-a_bb = refl

elems-a_bb : elems path_a_bb ≡ (97 ∷ []) ∷ (98 ∷ 98 ∷ []) ∷ []
unfolding names_of split_path copy_name
elems-a_bb = refl

skipelem-cases_example :
    ((skipelem path_a_bb ≡ none) × (elems path_a_bb ≡ []))
    ⊎ ((rest name : List ℕ) × (skipelem path_a_bb ≡ some (rest, name))
        × IsSkipped path_a_bb rest name)
skipelem-cases_example = skipelem-cases path_a_bb

-- Inodes that are all directories, each with the next one in it under any name. The state counts
-- the calls.
abbrev nested : Inodes
nested = record {
  St = ℕ;
  inode_get = λ s dev inum. ok (inum, s + 1);
  inode_dup = λ s ip. ok (s + 1);
  inode_lock = λ s ip. ok (s + 1);
  inode_unlock = λ s ip. ok (s + 1);
  inode_put = λ s ip. ok (s + 1);
  inode_unlockput = λ s ip. ok (s + 1);
  is_dir = λ s ip. true;
  dir_lookup = λ s ip name. ok (some (ip + 1), s + 1);
  cwd = λ s. 7;
}

namex-walk_example :
    namex nested 7 0 path_a_bb true
    ≡ some (do (ip, s) ← namex_start nested 0 path_a_bb; walk nested s true ip (elems path_a_bb) [])
namex-walk_example = namex-walk nested 7 0 path_a_bb true (omega arith)

ipc_init-IsMsgQueue : IsMsgQueue ipc_init []
unfolding ipc_init
ipc_init-IsMsgQueue = record {
  head_eq = refl;
  tail_eq = refl;
  chain = tt;
  distinct = tt;
  own = λ pid p. refl;
}

post_message-IsExchange_example : IsExchange ipc_init [] 2 3 5 4096 12
post_message-IsExchange_example =
    post_message-IsExchange ipc_init [] 2 3 5 4096 12 ipc_init-IsMsgQueue (omega arith) refl
      (omega arith)

-- A message of process 3, for nobody yet.
msg_get_block_by_recv_id-none_example :
    msg_get_block_by_recv_id (msg_enqueue ipc_init 3) 1000 5 ≡ none
unfolding ipc_init msg_enqueue
msg_get_block_by_recv_id-none_example =
    msg_get_block_by_recv_id-none (msg_enqueue ipc_init 3) 3 [] 5
      (msg_enqueue-IsMsgQueue ipc_init 3 [] ipc_init-IsMsgQueue (omega arith) refl)
      (λ e. omega arith) 1000
