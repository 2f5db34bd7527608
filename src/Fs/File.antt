-- ===== src/Fs/File.antt =====
-- The table of the open files of kern/fs/file.c, and fdalloc of kern/fs/sysfile.c. A pointer into
-- the table is the index of the file.
pub mod Count
pub mod Descriptor
pub mod Access
use os_project_signal.Prelude.{
  ℕ, zero, suc, ◌+◌, ◌-◌, ◌^◌, ◌%◌, ◌≡◌, Bool, true, false, ◌||◌, not, arith, Option, some, none,
  ◌==◌, leb, ltb, if◌then◌else◌, update,
}
use os_project_signal.Fs.Result.{Result, ok, sleeps, panics, ◌>>=◌}
use os_project_signal.Thread.Tcb.{Threads, tcb_get_openfiles, tcb_set_openfiles}

abbrev pub nfile : ℕ
nfile = 100

abbrev pub nofile : ℕ
nofile = 16

pub data FdType : Type 0 where
  fd_none fd_pipe fd_inode : FdType

pub record File : Type 0 where
  pub fd_type : FdType
  pub ref : ℕ
  pub readable : Bool
  pub writable : Bool
  pub ip : ℕ
  pub off : ℕ

-- The first of the files `n` and those after it, `rest` of them, without a reference; `nfile` for
-- none.
unfoldable pub find_free : (ℕ → File) → ℕ → ℕ → ℕ
find_free t n zero = nfile
find_free t n (suc rest) =
    let later = find_free t (suc n) rest in if (t n).ref == 0 then n else later

unfoldable pub file_alloc : (ℕ → File) → Option (ℕ × (ℕ → File))
file_alloc t =
    let f = find_free t 0 nfile in
    if f == nfile then none else some (f, update t f (record (t f) { ref = 1 }))

-- `f->ref < 1`, for an `int`.
abbrev pub unreferenced : File → Bool
unreferenced x = (x.ref == 0) || leb (2 ^ 31) x.ref

unfoldable pub file_dup : (ℕ → File) → ℕ → Result (ℕ → File)
file_dup t f =
    if unreferenced (t f)
    then panics
    else ok (update t f (record (t f) { ref = ((t f).ref + 1) % 2 ^ 32 }))

-- The inode that file_close puts back in a transaction when the last reference is gone.
abbrev pub closed_inode : File → Option ℕ
closed_inode x = elim x.fd_type [ fd_inode ↦ some x.ip | fd_none ↦ none | fd_pipe ↦ none ]

-- file_close up to the transaction.
unfoldable pub file_close : (ℕ → File) → ℕ → Result (Option ℕ × (ℕ → File))
file_close t f =
    let x = record (t f) { ref = (t f).ref - 1 } in
    if unreferenced (t f)
    then panics
    else if ltb 0 x.ref
    then ok (none, update t f x)
    else ok (closed_inode x, update t f (record x { ref = 0; fd_type = fd_none }))

-- The first descriptor of the `rest` from `idx` on that is free, which is 0; `nofile` for none.
unfoldable pub find_fd : (ℕ → ℕ) → ℕ → ℕ → ℕ
find_fd fds idx zero = nofile
find_fd fds idx (suc rest) =
    let later = find_fd fds (suc idx) rest in if fds idx == 0 then idx else later

-- `none` is -1.
unfoldable pub fdalloc : Threads → ℕ → ℕ → Option (ℕ × Threads)
fdalloc s curid f =
    let idx = find_fd (tcb_get_openfiles s curid) 0 nofile in
    if idx == nofile then none else some (idx, tcb_set_openfiles s curid idx f)
