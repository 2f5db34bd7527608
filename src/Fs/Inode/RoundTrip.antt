-- ===== src/Fs/Inode/RoundTrip.antt =====
-- What inode_write of kern/fs/inode.c has written is what inode_read reads.
use os_project_signal.Prelude.{
  ℕ, zero, suc, ◌+◌, ◌-◌, ◌*◌, ◌/◌, ◌%◌, ◌^◌, ◌≤◌, ◌<◌, ◌≡◌, ◌≢◌, inl, inr, refl, sym, ap, subst,
  ◌∙◌, false, ◌&&◌, List, arith, Option, some, ◌==◌, ltb, if◌then◌else◌, min, length, Bool-cases,
  ==_refl, ==-false,
}
use os_project_signal.Vmm.Phys.{read_bytes, write_bytes, read_bytes-write_bytes, read_bytes-congr}
use os_project_signal.Fs.Result.{Result, ok}
use os_project_signal.Fs.Cache.{Cache, Block, bsize}
use os_project_signal.Fs.Cache.Inv.{unset, view}
use os_project_signal.Fs.Log.{Log}
use os_project_signal.Fs.Log.Redo.{Home}
use os_project_signal.Fs.Session.{IsSession, looked-IsSession, fewer-IsSession, session-IsCalm}
use os_project_signal.Fs.Inode.{
  Inode, Inodes, iblock, set_inode, set_disk, ndirect, maxfile, t_dev, inode_update,
}
use os_project_signal.Fs.Inode.Content.{Outside, write_chunks, inode_read, inode_write}
use os_project_signal.Fs.Inode.Read.{block_at, byte_at, IsThere, inode_read-bytes}
use os_project_signal.Fs.Inode.Layout.{IsFile, block_at-same, IsFile-same}
use os_project_signal.Fs.Inode.Write.{write_chunks-IsWritten}
use os_project_signal.Fs.Inode.Store.{stored, inode_update-IsSession}
use os_project_signal.Fs.Inode.Grow.{
  IsHoused, grown, grown-dev, grown-addrs, grown-type, grown-size,
}

module _ (e : Outside) (g : Log) (before : ℕ → Block) (ip nb : ℕ) where
  -- The end of inode_write.
  abbrev resized : Inodes → ℕ → ℕ → Result Inodes
  resized s off n =
      let x = s.inode ip in
      if ltb 0 n && ltb x.size (off + n)
      then inode_update (set_inode s ip (record x { size = off + n })) ip
      else ok s

  resized-IsSession :
      (s : Inodes) (k off n : ℕ) (now : ℕ → Block)
      → IsSession g before s.log s.cache (suc k) now
      → IsHoused g now (s.inode ip) nb
      → (s' : Inodes) × (now' : ℕ → Block) × (resized s off n ≡ ok s')
        × IsSession g before s'.log s'.cache k now'
        × (s'.inode ip ≡ grown (s.inode ip) off n)
        × ((t : ℕ) → t ≢ iblock (s.inode ip).inum → now' t ≡ now t)
  resized-IsSession s k off n now h f =
      elim (Bool-cases (ltb 0 n && ltb (s.inode ip).size (off + n))) [
        | inl grows ↦
            let x : Inode = record (s.inode ip) { size = off + n } in
            let s1 = set_inode s ip x in
            let own : s1.inode ip ≡ x = rw (==_refl ip) refl in
            let num : (s1.inode ip).inum ≡ (s.inode ip).inum = ap Inode.inum own in
            let (l, c, e1, h1) =
              inode_update-IsSession g before s1 ip k now h (ap Inode.dev own ∙ f.dev)
                (subst (λ i. Home g (iblock i)) (sym num) f.home)
                (subst (λ i. i < 2 ^ 32) (sym num) f.word) in
            (
              set_disk s1 (l, c),
              stored now (s1.inode ip),
              rw grows e1,
              h1,
              rw grows own,
              λ t away.
                  (let ne : (iblock (s1.inode ip).inum == t) ≡ false =
                      ==-false _ t (λ z. away (sym z ∙ ap iblock num)) in
                    rw ne refl),
            )
        | inr stays ↦ (
          s,
          now,
          rw stays refl,
          fewer-IsSession g before s.log s.cache (suc k) k now h (omega arith),
          rw stays refl,
          λ t away. refl,
        )
      ]

  nb-small :
      (now : ℕ → Block) (addrs : ℕ → ℕ) (n : ℕ) → n ≡ nb → IsFile g now addrs nb → n ≤ maxfile
  nb-small now addrs zero z f = omega arith
  nb-small now addrs (suc n) z f = let i = (f.there n (omega arith)).small in omega arith

  write-chain :
      (s s1 s' : Inodes) (off : ℕ) (src : List ℕ)
      → (s.inode ip).type_ ≢ t_dev
      → off ≤ (s.inode ip).size
      → off + length src ≤ maxfile * bsize
      → write_chunks e s ip (length src) off src ≡ ok s1
      → resized s1 off (length src) ≡ ok s'
      → inode_write e s ip off src ≡ ok (some (length src), s')
  unfolding inode_write
  write-chain s s1 s' off src plain le fits e1 e2 =
      let d = ==-false _ t_dev plain in
      let a : ltb (s.inode ip).size off ≡ false = ground arith in
      let small : (off + length src) % 2 ^ 32 ≡ off + length src = omega arith in
      let b : ltb (off + length src) off ≡ false = ground arith in
      let c : ltb (maxfile * bsize) (off + length src) ≡ false = ground arith in
      rw (d, a, small, b, c, e1, e2) refl

  -- The result of inode_write.
  abbrev pub Persists : Inodes → ℕ → ℕ → (ℕ → Block) → List ℕ → Inodes → (ℕ → Block) → Type 0
  Persists s k off now src s' now' =
      (inode_write e s ip off src ≡ ok (some (length src), s'))
      × IsSession g before s'.log s'.cache k now'
      × (s'.inode ip ≡ grown (s.inode ip) off (length src))
      × IsFile g now' (s.inode ip).addrs nb
      × ((j : ℕ)
          → j / bsize < nb
          → byte_at now' (s.inode ip).addrs j
            ≡ write_bytes (byte_at now (s.inode ip).addrs) off src j)
      × ((t : ℕ)
          → t ≢ iblock (s.inode ip).inum
          → ((i : ℕ) → i < nb → t ≢ block_at now (s.inode ip).addrs i)
          → now' t ≡ now t)

  pub inode_write-Persists :
      (s : Inodes) (cnt k off : ℕ) (now : ℕ → Block) (src : List ℕ)
      → IsSession g before s.log s.cache (cnt + suc k) now
      → IsHoused g now (s.inode ip) nb
      → off ≤ (s.inode ip).size
      → off + length src ≤ bsize * nb
      → (0 < length src → off + length src ≤ bsize * (off / bsize + cnt))
      → (s' : Inodes) × (now' : ℕ → Block) × Persists s k off now src s' now'
  inode_write-Persists s cnt k off now src h f le fits many =
      let x = s.inode ip in
      let small = nb-small now x.addrs nb refl f.file in
      let (s1, now1, e1, w) =
        write_chunks-IsWritten e g before ip nb (length src) cnt s (suc k) off now src (omega arith)
          many (λ p. fits) h f.dev f.file in
      let same : s1.inode ip ≡ x = ap (λ t. t ip) w.inodes in
      let f1 : IsHoused g now1 x nb = record {
        dev = f.dev;
        word = f.word;
        home = f.home;
        apart = λ i lt z. f.apart i lt (sym (w.blocks i lt) ∙ z);
        indirect = f.indirect;
        file = w.file;
        plain = f.plain;
      } in
      let (s', now', e2, h', grows, t) =
        resized-IsSession s1 k off (length src) now1 w.session
          (subst (λ y. IsHoused g now1 y nb) (sym same) f1) in
      let there : (t : ℕ) → t ≢ iblock x.inum → now' t ≡ now1 t =
        λ j away. t j (λ z. away (z ∙ ap (λ y. iblock (Inode.inum y)) same)) in
      let indirect : ndirect < nb → now' (x.addrs ndirect) ≡ now1 (x.addrs ndirect) =
        λ i. there (x.addrs ndirect) (f.indirect i) in
      (
        s',
        now',
        (
          write-chain s s1 s' off src f.plain le (omega arith) e1 e2,
          h',
          grows ∙ ap (λ y. grown y off (length src)) same,
          IsFile-same g now1 now' x.addrs nb w.file indirect,
          (λ j p.
              ap (λ b. now' b (j % bsize))
                (block_at-same now1 now' x.addrs nb (j / bsize) p indirect)
              ∙ ap (λ b. b (j % bsize))
                  (there (block_at now1 x.addrs (j / bsize)) (f1.apart (j / bsize) p))
              ∙ w.bytes j p),
          (λ j away out. there j away ∙ w.there j out),
        ),
      )

  -- The file after the write is read.
  stored-read :
      (s s' : Inodes) (k off : ℕ) (now now' : ℕ → Block) (src : List ℕ)
      → IsHoused g now (s.inode ip) nb
      → off ≤ (s.inode ip).size
      → off + length src ≤ bsize * nb
      → Persists s (suc k) off now src s' now'
      → (c : Cache) × (inode_read e s' ip off (length src) ≡ ok (some src, record s' { cache = c }))
        × IsSession g before s'.log c (suc k) now'
  stored-read s s' k off now now' src f le fits (e1, h, grows, file, bytes, there) =
      let x = s.inode ip in
      let n = length src in
      let small = nb-small now x.addrs nb refl f.file in
      let v = view s'.cache g.dev in
      let same_dev : (s'.inode ip).dev ≡ g.dev = ap Inode.dev grows ∙ grown-dev x off n ∙ f.dev in
      let set : g.dev ≢ unset = λ z. h.trans.placed.set (h.dev_eq ∙ z) in
      let same_addrs : (s'.inode ip).addrs ≡ x.addrs = ap Inode.addrs grows ∙ grown-addrs x off n in
      let plain : (s'.inode ip).type_ ≢ t_dev =
        λ z. f.plain (sym (ap Inode.type_ grows ∙ grown-type x off n) ∙ z) in
      let big : off + n ≤ (s'.inode ip).size =
        subst (λ y. off + n ≤ Inode.size y) (sym grows) (grown-size x off n le) in
      let at_v : ndirect < nb → v (x.addrs ndirect) ≡ now' (x.addrs ndirect) =
        λ many. h.seen (x.addrs ndirect) (file.indirect_home many) in
      let fv = IsFile-same g now' v x.addrs nb file at_v in
      elim (inode_read-bytes e v s' ip off n
        (
          session-IsCalm g before s'.log s'.cache k now' h,
          (λ z. set (sym same_dev ∙ z)),
          λ t. ap (λ d. view s'.cache d t) same_dev,
        )
        plain (omega arith) (omega arith)
        (λ j p q r.
          subst (λ a. IsThere v a (j / bsize)) (sym same_addrs)
            (fv.there (j / bsize) (omega arith)))) [
              | inl (wrong, z) ↦
                  absurd (elim wrong [ inl past ↦ omega arith | inr wraps ↦ omega arith ])
              | inr (within, short, (c, e2, o)) ↦
                  let whole : min n ((s'.inode ip).size - off) ≡ n = omega arith in
                  let text : read_bytes (byte_at v (s'.inode ip).addrs) off
                        (min n ((s'.inode ip).size - off))
                      ≡ src =
                    ap (λ i. read_bytes (byte_at v (s'.inode ip).addrs) off i) whole
                    ∙ ap (λ a. read_bytes (byte_at v a) off n) same_addrs
                    ∙ read_bytes-congr _ (write_bytes (byte_at now x.addrs) off src) off n (λ j p q.
                      let lt : j / bsize < nb = omega arith in
                      ap (λ b. v b (j % bsize))
                        (block_at-same now' v x.addrs nb (j / bsize) lt at_v)
                      ∙ ap (λ b. b (j % bsize))
                          (h.seen (block_at now' x.addrs (j / bsize)) (file.home (j / bsize) lt).0)
                      ∙ bytes j lt)
                    ∙ read_bytes-write_bytes (byte_at now x.addrs) off src in
                  (
                    c,
                    e2
                        ∙ ap
                            (λ y.
                              (let r : Result (Option (List ℕ) × Inodes) =
                                  ok (some y, record s' { cache = c }) in
                                r))
                            text,
                    looked-IsSession g before s'.log s'.cache c (suc k) now' h o,
                  )
            ]

  -- In a transaction with room for the blocks that are written, for the inode and for one more, a
  -- write of a plain file at an offset inside it, in blocks that are there: inode_write returns
  -- the number of bytes; the file is the old one with the bytes from the offset on, its size
  -- reaches them, and no sector but its blocks and that of its inode has changed. inode_read at
  -- the same place then returns the bytes written.
  pub inode_read-inode_write :
      (s : Inodes) (cnt k off : ℕ) (now : ℕ → Block) (src : List ℕ)
      → IsSession g before s.log s.cache (cnt + suc (suc k)) now
      → IsHoused g now (s.inode ip) nb
      → off ≤ (s.inode ip).size
      → off + length src ≤ bsize * nb
      → (0 < length src → off + length src ≤ bsize * (off / bsize + cnt))
      → (s' s'' : Inodes) × (now' : ℕ → Block) × Persists s (suc k) off now src s' now'
        × (inode_read e s' ip off (length src) ≡ ok (some src, s''))
        × IsSession g before s''.log s''.cache (suc k) now'
  inode_read-inode_write s cnt k off now src h f le fits many =
      let (s', now', w) = inode_write-Persists s cnt (suc k) off now src h f le fits many in
      let (c, e1, h') = stored-read s s' k off now now' src f le fits w in
      (s', record s' { cache = c }, now', w, e1, h')
