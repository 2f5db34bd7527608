-- ===== src/Fs/Inode/Unlogged.antt =====
-- inode_put of kern/fs/inode.c when no transaction goes on.
use os_project_signal.Prelude.{
  ℕ, zero, suc, ◌-◌, ◌≡◌, ◌≢◌, ◌⊎◌, inl, inr, refl, sym, ap, ◌∙◌, Bool, true, false, ◌&&◌, ◌||◌,
  ◌==◌, leb, if◌then◌else◌, Bool-cases, ==_refl,
}
use os_project_signal.Fs.Result.{Result, ok, panics}
use os_project_signal.Fs.Cache.{Cache, set_bytes}
use os_project_signal.Fs.Cache.Inv.{unset}
use os_project_signal.Fs.Cache.Copy.{IsCalm, calm-IsReadable}
use os_project_signal.Fs.Cache.Update.{bufcache_read-IsRead}
use os_project_signal.Fs.Log.{Log, logsize, log_write}
use os_project_signal.Fs.Bitmap.{bblock, block_free}
use os_project_signal.Fs.Bitmap.Free.{superblock_of, read_superblock-IsLooked}
use os_project_signal.Fs.Cache.Inv.{view}
use os_project_signal.Fs.Inode.{
  Inode, Inodes, ndirect, iblock, islot, set_inode, store_dinode, inode_update, trunc_direct,
  inode_trunc, inode_put,
}

log_write-panics : (l : Log) (c : Cache) (b : ℕ) → l.busy ≡ false → log_write l c b ≡ panics
unfolding log_write
log_write-panics l c b idle = elim (Bool-cases (leb logsize l.n || leb (l.size - 1) l.n)) [
  | inl full ↦ rw full refl
  | inr room ↦ rw (room, idle) refl
]

both-panics :
    (b : Bool) → (let r : Result (Log × Cache) = if b then panics else panics in r) ≡ panics
both-panics true = refl
both-panics false = refl

block_free-panics :
    (l : Log) (c : Cache) (dev b : ℕ)
    → l.busy ≡ false
    → IsCalm c
    → dev ≢ unset
    → block_free l c dev b ≡ panics
unfolding block_free
block_free-panics l c dev b idle q set =
    let (c1, e1, h1) = read_superblock-IsLooked c dev q set in
    let sector = bblock b (superblock_of (view c dev 1)).ninodes in
    let (bp, c2, e2, h2) =
      bufcache_read-IsRead c1 dev sector (calm-IsReadable c1 dev sector h1.calm set) in
    rw (e1, e2, log_write-panics l (set_bytes c2 bp _) bp idle) (both-panics _)

inode_update-panics :
    (s : Inodes) (ip : ℕ)
    → s.log.busy ≡ false
    → IsCalm s.cache
    → (s.inode ip).dev ≢ unset
    → inode_update s ip ≡ panics
unfolding inode_update
inode_update-panics s ip idle q set =
    let x = s.inode ip in
    let (bp, c1, e1, h1) =
      bufcache_read-IsRead s.cache x.dev (iblock x.inum)
        (calm-IsReadable s.cache x.dev (iblock x.inum) q set) in
    rw
      (
        e1,
        log_write-panics s.log (set_bytes c1 bp (store_dinode (c1.buf bp).bytes (islot x.inum) x))
            bp idle,
      )
      refl

trunc_direct-cases :
    (s : Inodes) (ip n : ℕ)
    → s.log.busy ≡ false
    → IsCalm s.cache
    → (s.inode ip).dev ≢ unset
    → (trunc_direct s ip n ≡ panics) ⊎ (trunc_direct s ip n ≡ ok s)
unfolding trunc_direct
trunc_direct-cases s ip zero idle q set = inr refl
trunc_direct-cases s ip (suc n) idle q set = elim (trunc_direct-cases s ip n idle q set) [
  | inl stop ↦ inl (rw stop refl)
  | inr on ↦ elim (Bool-cases ((s.inode ip).addrs n == 0)) [
    | inl none ↦ inr (rw (on, none) refl)
    | inr some_block ↦ inl (
        rw
          (
            on,
            some_block,
            block_free-panics s.log s.cache (s.inode ip).dev ((s.inode ip).addrs n) idle q set,
          )
          refl)
  ]
]

inode_trunc-panics :
    (s : Inodes) (ip : ℕ)
    → s.log.busy ≡ false
    → IsCalm s.cache
    → (s.inode ip).dev ≢ unset
    → (s.inode ip).addrs ndirect ≡ 0
    → inode_trunc s ip ≡ panics
unfolding inode_trunc
inode_trunc-panics s ip idle q set direct = elim (trunc_direct-cases s ip ndirect idle q set) [
  | inl stop ↦ rw stop refl
  | inr on ↦
      let emptied = set_inode s ip (record (s.inode ip) { size = 0 }) in
      let own : emptied.inode ip ≡ record (s.inode ip) { size = 0 } = rw (==_refl ip) refl in
      rw (on, direct, inode_update-panics emptied ip idle q (λ z. set (sym (ap Inode.dev own) ∙ z)))
        refl
]

-- inode_put of the last reference to an inode without links and without an indirect block panics
-- when no transaction goes on, with a cache that nobody else uses.
pub inode_put-panics :
    (s : Inodes) (ip : ℕ)
    → s.log.busy ≡ false
    → IsCalm s.cache
    → (s.inode ip).dev ≢ unset
    → (s.inode ip).addrs ndirect ≡ 0
    → (s.inode ip).ref ≡ 1
    → (s.inode ip).valid ≡ true
    → (s.inode ip).nlink ≡ 0
    → inode_put s ip ≡ panics
unfolding inode_put
inode_put-panics s ip idle q set direct last valid unlinked =
    let x : Inode = record (s.inode ip) { busy = true } in
    let locked = set_inode s ip x in
    let own : locked.inode ip ≡ x = rw (==_refl ip) refl in
    let stop =
      inode_trunc-panics locked ip idle q (λ z. set (sym (ap Inode.dev own) ∙ z))
        (ap (λ (y : Inode). y.addrs ndirect) own ∙ direct) in
    let frees : (((s.inode ip).ref == 1) && (s.inode ip).valid && ((s.inode ip).nlink == 0))
        ≡ true =
      rw (last, valid, unlinked) refl in
    elim (Bool-cases (s.inode ip).busy) [
      | inl busy ↦ rw (frees, busy) refl
      | inr free ↦ rw (frees, free, stop) refl
    ]
