-- ===== src/Fs/File/Access/Durable.antt =====
-- A part of file_write of kern/fs/file.c, from the start of its transaction to its end.
use os_project_signal.Prelude.{
  ℕ, ◌+◌, ◌*◌, ◌/◌, ◌%◌, ◌^◌, ◌≤◌, ◌<◌, ◌≡◌, refl, sym, ap, subst, ◌∙◌, true, false, ◌||◌, List,
  arith, some, ◌==◌, leb, length, ==_refl, ==-false,
}
use os_project_signal.Vmm.Phys.{write_bytes}
use os_project_signal.Fs.Result.{ok}
use os_project_signal.Fs.Cache.{Cache, Block, bsize}
use os_project_signal.Fs.Log.{Log, logsize, begin_trans, commit_trans}
use os_project_signal.Fs.Log.Redo.{Home}
use os_project_signal.Fs.Log.Reboot.{Write}
use os_project_signal.Fs.Session.Commit.{
  IsResting, begin_trans-IsSession, IsDurable, commit_trans-IsDurable,
}
use os_project_signal.Fs.Inode.{
  Inode, Inodes, ninode, set_inode, set_disk, unreferenced, inode_lock, inode_unlock,
}
use os_project_signal.Fs.Inode.Content.{Outside, inode_write}
use os_project_signal.Fs.Inode.Read.{byte_at}
use os_project_signal.Fs.Inode.Grow.{IsHoused, grown, grown-busy, grown-ref, grown-locked}
use os_project_signal.Fs.Inode.RoundTrip.{inode_write-Persists}
use os_project_signal.Fs.File.Access.{Files, advance, part_inodes, write_part}

-- An inode in memory that somebody refers to and nobody has locked.
pub record IsReady (t : Inodes) (ip : ℕ) : Type 0 where
  pub place : ip < ninode
  pub held : unreferenced (t.inode ip) ≡ false
  pub idle : (t.inode ip).busy ≡ false
  pub valid : (t.inode ip).valid ≡ true

pub lock-ready :
    (t : Inodes) (ip : ℕ)
    → IsReady t ip
    → inode_lock t ip ≡ ok (set_inode t ip (record (t.inode ip) { busy = true }))
unfolding inode_lock
lock-ready t ip h =
    let index : (ip == ninode) ≡ false = ==-false ip ninode (let p = h.place in λ z. omega arith) in
    rw (index, h.held, h.idle, h.valid) refl

pub unlock-held :
    (t : Inodes) (ip : ℕ)
    → ip < ninode
    → unreferenced (t.inode ip) ≡ false
    → (t.inode ip).busy ≡ true
    → inode_unlock t ip ≡ ok (set_inode t ip (record (t.inode ip) { busy = false }))
unfolding inode_unlock
unlock-held t ip lt held busy =
    let index : (ip == ninode) ≡ false = ==-false ip ninode (λ z. omega arith) in
    rw (index, busy, held) refl

unlocked :
    (t : Inodes) (ip : ℕ) (x : Inode)
    → t.inode ip ≡ x
    → (set_inode t ip (record (t.inode ip) { busy = false })).inode ip ≡ record x { busy = false }
unlocked t ip x e =
    rw (==_refl ip) (ap (λ (y : Inode). (let z : Inode = record y { busy = false } in z)) e)

part-chain :
    (e : Outside) (s : Files) (f : ℕ) (chunk : List ℕ) (l : Log) (t1 t2 t3 : Inodes) (n : ℕ)
    → begin_trans s.inodes.log ≡ ok l
    → inode_lock (record s.inodes { log = l }) (s.file f).ip ≡ ok t1
    → inode_write e t1 (s.file f).ip (s.file f).off chunk ≡ ok (some n, t2)
    → inode_unlock t2 (s.file f).ip ≡ ok t3
    → part_inodes e s f chunk ≡ ok (some n, t3)
unfolding part_inodes
part-chain e s f chunk l t1 t2 t3 n e1 e2 e3 e4 = rw (e1, e2, e3, e4) refl

committed :
    (e : Outside) (s : Files) (f : ℕ) (chunk : List ℕ) (t : Inodes) (l' : Log) (c' : Cache) (n : ℕ)
    → part_inodes e s f chunk ≡ ok (some n, t)
    → commit_trans t.log t.cache ≡ ok (l', c')
    → write_part e s f chunk ≡ ok (some n, record (advance s f n) { inodes = set_disk t (l', c') })
unfolding write_part
committed e s f chunk t l' c' n e1 e2 = rw (e1, e2) refl

-- What a part that is written leaves behind. The crash claim, `durable`, is about the log and the
-- cache that commit_trans is called with, and about the disk writes of that call.
pub record IsAtomic (e : Outside) (s : Files) (f nb : ℕ) (chunk : List ℕ) (s' : Files)
    (now : ℕ → Block) (writes : List Write) : Type 0 where
  pub returns : write_part e s f chunk ≡ ok (some (length chunk), s')
  pub offset : (s'.file f).off ≡ ((s.file f).off + length chunk) % 2 ^ 32
  pub inode :
      s'.inodes.inode (s.file f).ip
      ≡ record (grown (s.inodes.inode (s.file f).ip) (s.file f).off (length chunk)) { busy = false }
  pub bytes :
      (j : ℕ)
      → j / bsize < nb
      → byte_at now (s.inodes.inode (s.file f).ip).addrs j
        ≡ write_bytes
            (byte_at (s.inodes.cache.disk s.inodes.log.dev) (s.inodes.inode (s.file f).ip).addrs)
            (s.file f).off
            chunk
            j
  pub logged : Inodes
  pub logs : part_inodes e s f chunk ≡ ok (some (length chunk), logged)
  pub commits : commit_trans logged.log logged.cache ≡ ok (s'.inodes.log, s'.inodes.cache)
  pub same_disk :
      (t : ℕ)
      → Home s.inodes.log t
      → logged.cache.disk s.inodes.log.dev t ≡ s.inodes.cache.disk s.inodes.log.dev t
  pub durable :
      IsDurable s.inodes.log
        (s.inodes.cache.disk s.inodes.log.dev)
        logged.log
        logged.cache
        now
        writes
        s'.inodes.cache

-- With no transaction going on, every sector on the disk as readers see it, and enough buffers
-- that are not dirty: a round of file_write on a plain file whose inode is in memory and unlocked,
-- within blocks that are there, outside the log and used once, returns the number of bytes, moves
-- the offset over them and unlocks the inode, whose size reaches them. The sectors that its
-- transaction ends with hold the old file with the bytes from the offset on; they are on the disk
-- and for every reader. The round ends with the call of commit_trans on the log and the cache that
-- the part of the round before it leaves, and a reboot after a crash at any disk write of that
-- call finds all sectors outside the log as before the round, or all as after it.
pub write_part-IsAtomic :
    (e : Outside) (s : Files) (f nb cnt : ℕ) (chunk : List ℕ) (spare : List ℕ)
    → IsResting s.inodes.log s.inodes.cache spare
    → IsReady s.inodes (s.file f).ip
    → IsHoused s.inodes.log (s.inodes.cache.disk s.inodes.log.dev) (s.inodes.inode (s.file f).ip) nb
    → (s.file f).off ≤ (s.inodes.inode (s.file f).ip).size
    → (s.file f).off + length chunk ≤ bsize * nb
    → (0 < length chunk → (s.file f).off + length chunk ≤ bsize * ((s.file f).off / bsize + cnt))
    → cnt + 2 ≤ logsize
    → cnt + 2 < s.inodes.log.size
    → cnt + 2 < length spare
    → (s' : Files) × (now : ℕ → Block) × (writes : List Write) × IsAtomic e s f nb chunk s' now
        writes
write_part-IsAtomic e s f nb cnt chunk spare rest ready housed within fits many few small enough =
    let ip = (s.file f).ip in
    let off = (s.file f).off in
    let n = length chunk in
    let g = s.inodes.log in
    let x = s.inodes.inode ip in
    let before = s.inodes.cache.disk g.dev in
    let y : Inode = record x { busy = true } in
    let (e1, h1) = begin_trans-IsSession g s.inodes.cache spare (cnt + 2) rest few small enough in
    let t0 : Inodes = record s.inodes { log = record g { busy = true } } in
    let t1 = set_inode t0 ip y in
    let own : t1.inode ip ≡ y = rw (==_refl ip) refl in
    let e2 =
      lock-ready t0 ip
        record { place = ready.place; held = ready.held; idle = ready.idle; valid = ready.valid } in
    let housed_y : IsHoused g before y nb = record {
      dev = housed.dev;
      word = housed.word;
      home = housed.home;
      apart = housed.apart;
      indirect = housed.indirect;
      file = housed.file;
      plain = housed.plain;
    } in
    let (t2, now, (e3, h3, grows, file, bytes, there)) =
      inode_write-Persists e g before ip nb t1 cnt 1 off before chunk h1
        (subst (λ z. IsHoused g before z nb) (sym own) housed_y)
        (subst (λ z. off ≤ Inode.size z) (sym own) within) fits many in
    let grows_y : t2.inode ip ≡ grown y off n = grows ∙ ap (λ z. grown z off n) own in
    let busy : (t2.inode ip).busy ≡ true = ap Inode.busy grows_y ∙ grown-busy y off n in
    let ref : (t2.inode ip).ref ≡ x.ref = ap Inode.ref grows_y ∙ grown-ref y off n in
    let held : unreferenced (t2.inode ip) ≡ false =
      ap (λ r. (r == 0) || leb (2 ^ 31) r) ref ∙ ready.held in
    let e4 = unlock-held t2 ip ready.place held busy in
    let (writes, c', e5, d) = commit_trans-IsDurable g before t2.log t2.cache 0 now h3 in
    let chain = part-chain e s f chunk (record g { busy = true }) t1 t2 _ n e1 e2 e3 e4 in
    (
      _,
      now,
      writes,
      record {
        returns = committed e s f chunk _ _ c' n chain e5;
        offset = rw (==_refl f) refl;
        inode = unlocked t2 ip (grown y off n) grows_y ∙ grown-locked x off n ready.idle;
        bytes = λ j p.
            subst
              (λ z.
                byte_at now (Inode.addrs z) j
                ≡ write_bytes (byte_at before (Inode.addrs z)) off chunk j)
              own (bytes j p);
        logged = _;
        logs = chain;
        commits = e5;
        same_disk = h3.same_disk;
        durable = d;
      },
    )
