-- ===== src/Fs/Inode/Store.antt =====
-- inode_update and inode_lock of kern/fs/inode.c in a transaction.
use os_project_signal.Prelude.{
  ℕ, suc, ◌^◌, ◌<◌, ◌≡◌, ◌≢◌, refl, sym, ap, subst, ◌∙◌, true, false, arith, ◌==◌, update, ==_refl,
  ==-false,
}
use os_project_signal.Fs.Result.{ok}
use os_project_signal.Fs.Cache.{Cache, Block, bufcache_read}
use os_project_signal.Fs.Log.{Log}
use os_project_signal.Fs.Log.Redo.{Home}
use os_project_signal.Fs.Session.{IsSession, session-IsOpened}
use os_project_signal.Fs.Inode.{
  Inode, Inodes, ninode, iblock, islot, set_disk, store_dinode, load_dinode, unreferenced,
  inode_update, inode_lock,
}
use os_project_signal.Fs.Inode.Dinode.{FitsDisk, kept, load_dinode-store_dinode}

-- The sectors with the inode in its place.
abbrev pub stored : (ℕ → Block) → Inode → ℕ → Block
stored now x = update now (iblock x.inum) (store_dinode (now (iblock x.inum)) (islot x.inum) x)

module _ (g : Log) (before : ℕ → Block) where
  pub inode_update-IsSession :
      (s : Inodes) (ip k : ℕ) (now : ℕ → Block)
      → IsSession g before s.log s.cache (suc k) now
      → (s.inode ip).dev ≡ g.dev
      → Home g (iblock (s.inode ip).inum)
      → (s.inode ip).inum < 2 ^ 32
      → (l : Log) × (c : Cache) × (inode_update s ip ≡ ok (set_disk s (l, c)))
        × IsSession g before l c k (stored now (s.inode ip))
  unfolding inode_update
  inode_update-IsSession s ip k now h dev home word =
      let x = s.inode ip in
      let (b, c1, o) =
        session-IsOpened g before s.log s.cache k now (iblock x.inum) h home (omega arith) in
      let (l, c2, c3, e2, e3, h') = o.changes (store_dinode (c1.buf b).bytes (islot x.inum) x) in
      let reads : bufcache_read s.cache x.dev (iblock x.inum) ≡ ok (b, c1) =
        ap (λ d. bufcache_read s.cache d (iblock x.inum)) dev ∙ o.reads in
      (
        l,
        c3,
        rw (reads, e2, e3) refl,
        subst
            (λ y.
              IsSession g before l c3 k
                (update now (iblock x.inum) (store_dinode y (islot x.inum) x)))
            o.bytes h',
      )

  -- inode_lock of an inode that is not in memory yet, and has a type on the disk.
  pub inode_lock-IsSession :
      (s : Inodes) (ip k : ℕ) (now : ℕ → Block)
      → IsSession g before s.log s.cache (suc k) now
      → (s.inode ip).dev ≡ g.dev
      → Home g (iblock (s.inode ip).inum)
      → (s.inode ip).inum < 2 ^ 32
      → ip < ninode
      → unreferenced (s.inode ip) ≡ false
      → (s.inode ip).busy ≡ false
      → (s.inode ip).valid ≡ false
      → (load_dinode (now (iblock (s.inode ip).inum)) (islot (s.inode ip).inum) (s.inode ip)).type_
        ≢ 0
      → (c : Cache) × (inode_lock s ip
          ≡ ok (record s {
            inode =
                update s.inode ip
                  (record (load_dinode
                    (now (iblock (s.inode ip).inum))
                    (islot (s.inode ip).inum)
                    (s.inode ip)) { busy = true; valid = true });
            cache = c;
          }))
        × IsSession g before s.log c (suc k) now
  unfolding inode_lock load_dinode
  inode_lock-IsSession s ip k now h dev home word lt held idle fresh typed =
      let x = s.inode ip in
      let (b, c1, o) =
        session-IsOpened g before s.log s.cache k now (iblock x.inum) h home (omega arith) in
      let (c2, e2, h') = o.lets_go in
      let reads : bufcache_read s.cache x.dev (iblock x.inum) ≡ ok (b, c1) =
        ap (λ d. bufcache_read s.cache d (iblock x.inum)) dev ∙ o.reads in
      let index : (ip == ninode) ≡ false = ground arith in
      let ne = ==-false _ 0 typed in
      (c2, rw (index, held, idle, fresh, reads, o.bytes, e2, ne) refl, h')

  -- An inode that fits on the disk, of a type that is not 0, is written by inode_update in a
  -- transaction with two changes left. Whatever the inodes in memory are when inode_lock then
  -- locks a place for the same inode that is referenced, not busy and not valid yet, that place
  -- gets all that the disk keeps of it.
  pub inode_lock-inode_update :
      (s : Inodes) (ip ip' k : ℕ) (now : ℕ → Block) (t : ℕ → Inode)
      → IsSession g before s.log s.cache (suc (suc k)) now
      → (s.inode ip).dev ≡ g.dev
      → Home g (iblock (s.inode ip).inum)
      → (s.inode ip).inum < 2 ^ 32
      → FitsDisk (s.inode ip)
      → (s.inode ip).type_ ≢ 0
      → ip' < ninode
      → (t ip').dev ≡ g.dev
      → (t ip').inum ≡ (s.inode ip).inum
      → unreferenced (t ip') ≡ false
      → (t ip').busy ≡ false
      → (t ip').valid ≡ false
      → (s' s'' : Inodes) × (inode_update s ip ≡ ok s')
        × (inode_lock (record s' { inode = t }) ip' ≡ ok s'')
        × (s''.inode ip' ≡ record (kept (s.inode ip) (t ip')) { busy = true; valid = true })
        × IsSession g before s''.log s''.cache (suc k) (stored now (s.inode ip))
  inode_lock-inode_update s ip ip' k now t h dev home word fits typed lt dev' same held idle fresh =
      let x = s.inode ip in
      let y = t ip' in
      let (l, c, e1, h1) = inode_update-IsSession s ip (suc k) now h dev home word in
      let sector : iblock y.inum ≡ iblock x.inum = ap iblock same in
      let spot : stored now x (iblock y.inum)
          ≡ store_dinode (now (iblock x.inum)) (islot x.inum) x =
        ap (stored now x) sector ∙ rw (==_refl (iblock x.inum)) refl in
      let loads : load_dinode (stored now x (iblock y.inum)) (islot y.inum) y ≡ kept x y =
        ap (λ f. load_dinode f (islot y.inum) y) spot
        ∙ ap (λ o. load_dinode (store_dinode (now (iblock x.inum)) (islot x.inum) x) o y)
            (ap islot same)
        ∙ load_dinode-store_dinode (now (iblock x.inum)) (islot x.inum) x fits y in
      let (c', e2, h2) =
        inode_lock-IsSession (record s { inode = t; log = l; cache = c }) ip' k (stored now x) h1
          dev' (subst (Home g) (sym sector) home) (subst (λ i. i < 2 ^ 32) (sym same) word) lt held
          idle fresh (λ z. typed (sym (ap Inode.type_ loads) ∙ z)) in
      (
        set_disk s (l, c),
        _,
        e1,
        e2,
        rw (==_refl ip') (
            ap (λ (r : Inode). (let r' : Inode = record r { busy = true; valid = true } in r'))
              loads),
        h2,
      )
