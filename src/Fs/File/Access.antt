-- ===== src/Fs/File/Access.antt =====
-- What kern/fs/file.c does to the inode of an open file: file_stat, file_read, file_write and the
-- end of file_close. Lengths and offsets are below 2 ^ 31.
pub mod Durable
use os_project_signal.Prelude.{
  ℕ, zero, suc, ◌+◌, ◌-◌, ◌*◌, ◌/◌, ◌%◌, ◌^◌, ◌≡◌, Bool, true, false, not, List, [], arith, Option,
  some, none, ◌==◌, ltb, if◌then◌else◌, update, min, length,
}
use os_project_signal.Vmm.Copy.{take, drop}
use os_project_signal.Fs.Result.{Result, ok, sleeps, panics, ◌>>=◌}
use os_project_signal.Fs.Log.{logsize, begin_trans, commit_trans}
use os_project_signal.Fs.Inode.{Inode, Inodes, set_disk, inode_lock, inode_unlock, inode_put}
use os_project_signal.Fs.Inode.Content.{Outside, FileStat, inode_stat, inode_read, inode_write}
use os_project_signal.Fs.File.{File, FdType, fd_none, fd_pipe, fd_inode, file_close}

-- ftable over the inodes.
pub record Files : Type 0 where
  pub file : ℕ → File
  pub inodes : Inodes

abbrev pub is_inode : FdType → Bool
is_inode fd_inode = true
is_inode fd_none = false
is_inode fd_pipe = false

abbrev pub begin_on : Inodes → Result Inodes
begin_on t = do l ← begin_trans t.log; ok (record t { log = l })

abbrev pub commit_on : Inodes → Result Inodes
commit_on t = do (l, c) ← commit_trans t.log t.cache; ok (set_disk t (l, c))

-- The transaction that puts the inode back.
abbrev pub put_back : Option ℕ → Inodes → Result Inodes
put_back none t = ok t
put_back (some ip) t = do t ← begin_on t; t ← inode_put t ip; commit_on t

-- file_close with its transaction.
unfoldable pub close_file : Files → ℕ → Result Files
close_file s f = do
  (closed, table) ← file_close s.file f
  t ← put_back closed s.inodes
  ok (record s { file = table; inodes = t })

-- `none` is -1.
unfoldable pub file_stat : Files → ℕ → Result (Option FileStat × Files)
file_stat s f =
    let ip = (s.file f).ip in
    if is_inode (s.file f).fd_type
    then (do
      t ← inode_lock s.inodes ip
      let st = inode_stat (t.inode ip)
      t ← inode_unlock t ip
      ok (some st, record s { inodes = t }))
    else ok (none, s)

-- `if(r > 0) f->off += r`
abbrev pub advance : Files → ℕ → ℕ → Files
advance s f r = record s {
  file = update s.file f (record (s.file f) { off = ((s.file f).off + r) % 2 ^ 32 });
}

abbrev pub count_or : Option (List ℕ) → ℕ
count_or none = 0
count_or (some bytes) = length bytes

unfoldable pub file_read : Outside → Files → ℕ → ℕ → Result (Option (List ℕ) × Files)
file_read e s f n =
    let ip = (s.file f).ip in
    if not (s.file f).readable
    then ok (none, s)
    else if is_inode (s.file f).fd_type
    then (do
      t ← inode_lock s.inodes ip
      (r, t) ← inode_read e t ip (s.file f).off n
      t ← inode_unlock t ip
      ok (r, advance (record s { inodes = t }) f (count_or r)))
    else panics

-- `((LOGSIZE-1-1-2) / 2) * 512`
abbrev pub max_chunk : ℕ
max_chunk = (logsize - 1 - 1 - 2) / 2 * 512

-- What a round of the loop of file_write does to the inodes ahead of commit_trans.
unfoldable pub part_inodes : Outside → Files → ℕ → List ℕ → Result (Option ℕ × Inodes)
part_inodes e s f chunk = do
  let ip = (s.file f).ip
  t ← begin_on s.inodes
  t ← inode_lock t ip
  (r, t) ← inode_write e t ip (s.file f).off chunk
  t ← inode_unlock t ip
  ok (r, t)

-- A round of the loop of file_write: the transaction that writes `chunk`.
unfoldable pub write_part : Outside → Files → ℕ → List ℕ → Result (Option ℕ × Files)
write_part e s f chunk = do
  (r, t) ← part_inodes e s f chunk
  let s = advance s f (elim r [ none ↦ 0 | some n ↦ n ])
  t ← commit_on t
  ok (r, record s { inodes = t })

-- What follows the transaction.
abbrev pub after_part : ℕ → ℕ → Files → Option ℕ → (Files → Result (ℕ × Files)) → Result (ℕ × Files)
after_part i n1 s none next = ok (i, s)
after_part i n1 s (some r) next = if not (r == n1) then panics else next s

-- The loop from `i` on over the bytes that are left, in at most `fuel` rounds: each round takes at
-- least one byte.
unfoldable pub write_parts : Outside → ℕ → Files → ℕ → ℕ → List ℕ → Result (ℕ × Files)
write_parts e zero s f i src = ok (i, s)
write_parts e (suc fuel) s f i src =
    let n1 = min (length src) max_chunk in
    if length src == 0 then ok (i, s) else (do
      (r, s) ← write_part e s f (take n1 src)
      after_part i n1 s r (λ s'. write_parts e fuel s' f (i + n1) (drop n1 src)))

unfoldable pub file_write : Outside → Files → ℕ → List ℕ → Result (Option ℕ × Files)
file_write e s f src =
    if not (s.file f).writable
    then ok (none, s)
    else if is_inode (s.file f).fd_type
    then (do
      (i, s) ← write_parts e (length src) s f 0 src
      ok ((if i == length src then some i else none), s))
    else panics
