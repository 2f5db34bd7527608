-- ===== src/Fs/Inode/Write.antt =====
-- inode_write of kern/fs/inode.c on a file whose blocks are there.
use os_project_signal.Prelude.{
  ℕ, zero, suc, ◌+◌, ◌-◌, ◌*◌, ◌/◌, ◌%◌, ◌≤◌, ◌<◌, ◌≡◌, ◌≢◌, inl, inr, refl, sym, ap, subst, ◌∙◌,
  false, List, [], ◌∷◌, arith, ◌==◌, min, length, update, Bool-cases, ==-false,
}
use os_project_signal.Vmm.Phys.{write_bytes}
use os_project_signal.Vmm.Copy.{take, drop}
use os_project_signal.Fs.Result.{Result, ok}
use os_project_signal.Fs.Cache.{Cache, Block, bsize, bufcache_read}
use os_project_signal.Fs.Cache.Inv.{unset, view}
use os_project_signal.Fs.Log.{Log}
use os_project_signal.Fs.Session.{
  IsSession, looked-IsSession, fewer-IsSession, session-IsCalm, session-IsOpened,
}
use os_project_signal.Fs.Inode.{Inodes, set_disk, ndirect}
use os_project_signal.Fs.Inode.Content.{Outside, bmap, write_chunks}
use os_project_signal.Fs.Inode.Read.{block_at, byte_at, bmap-there}
use os_project_signal.Fs.Inode.Layout.{
  IsFile, block_at-same, IsFile-same, write_bytes-shift, write_bytes-split, length-take,
  length-drop, changed_block, changed_block-IsFile, block_at-changed_block, byte_at-changed_block,
}

-- bmap in a transaction.
pub bmap-IsSession :
    (e : Outside) (g : Log) (before : ℕ → Block) (s : Inodes) (ip bn k nb : ℕ) (now : ℕ → Block)
    → IsSession g before s.log s.cache (suc k) now
    → (s.inode ip).dev ≡ g.dev
    → IsFile g now (s.inode ip).addrs nb
    → bn < nb
    → (c : Cache) × (bmap e s ip bn
        ≡ ok (block_at now (s.inode ip).addrs bn, record s { cache = c }))
      × IsSession g before s.log c (suc k) now
bmap-IsSession e g before s ip bn k nb now h dev f lt =
    let x = s.inode ip in
    let v = view s.cache g.dev in
    let calm = session-IsCalm g before s.log s.cache k now h in
    let set : g.dev ≢ unset = λ z. h.trans.placed.set (h.dev_eq ∙ z) in
    let same : ndirect < nb → v (x.addrs ndirect) ≡ now (x.addrs ndirect) =
      λ many. h.seen (x.addrs ndirect) (f.indirect_home many) in
    let f' = IsFile-same g now v x.addrs nb f same in
    let (c, e1, o) =
      bmap-there e v s ip bn (calm, (λ z. set (sym dev ∙ z)), λ t. ap (λ d. view s.cache d t) dev)
        (f'.there bn lt) in
    (
      c,
      e1
          ∙ ap (λ b. (let r : Result (ℕ × Inodes) = ok (b, record s { cache = c }) in r))
              (block_at-same now v x.addrs nb bn lt same),
      looked-IsSession g before s.log s.cache c (suc k) now h o,
    )

module _ (e : Outside) (g : Log) (before : ℕ → Block) (ip nb : ℕ) where
  -- A round of the loop of inode_write.
  write_round :
      (s : Inodes) (k : ℕ) (now : ℕ → Block) (fuel off : ℕ) (src bs rest : List ℕ)
      → IsSession g before s.log s.cache (suc k) now
      → (s.inode ip).dev ≡ g.dev
      → (f : IsFile g now (s.inode ip).addrs nb) → (lt : off / bsize < nb) → 0 < length src
      → (fits : off % bsize + length bs ≤ bsize)
      → length bs ≡ min (length src) (bsize - off % bsize)
      → take (length bs) src ≡ bs
      → drop (length bs) src ≡ rest
      → (l : Log) × (c : Cache) × (write_chunks e s ip (suc fuel) off src
          ≡ write_chunks e (set_disk s (l, c)) ip fuel (off + length bs) rest)
        × IsSession g before l c k (changed_block g now (s.inode ip).addrs nb f off bs lt fits)
  unfolding write_chunks
  write_round s k now fuel off src bs rest h dev f lt pos fits len first then_ =
      let x = s.inode ip in
      let addr = block_at now x.addrs (off / bsize) in
      let (c, e0, h0) = bmap-IsSession e g before s ip (off / bsize) k nb now h dev f lt in
      let (home, word) = f.home (off / bsize) lt in
      let (b, c1, o) = session-IsOpened g before s.log c k now addr h0 home word in
      let (l, c2, c3, e2, e3, h') = o.changes (write_bytes (c1.buf b).bytes (off % bsize) bs) in
      let some_left : (length src == 0) ≡ false = ground arith in
      let reads : bufcache_read c x.dev addr ≡ ok (b, c1) =
        ap (λ d. bufcache_read c d addr) dev ∙ o.reads in
      (
        l,
        c3,
        rw (some_left, e0, reads, sym len, first, e2, e3, then_) refl,
        subst (λ y. IsSession g before l c3 k (update now addr (write_bytes y (off % bsize) bs)))
            o.bytes h',
      )

-- The bytes `src` are in the file from `off` on, and nothing else has changed.
pub record IsWritten (g : Log) (before : ℕ → Block) (s : Inodes) (now : ℕ → Block) (addrs : ℕ → ℕ)
    (nb k off : ℕ) (src : List ℕ) (s' : Inodes) (now' : ℕ → Block) : Type 0 where
  pub session : IsSession g before s'.log s'.cache k now'
  pub inodes : s'.inode ≡ s.inode
  pub file : IsFile g now' addrs nb
  pub bytes :
      (j : ℕ) → j / bsize < nb → byte_at now' addrs j ≡ write_bytes (byte_at now addrs) off src j
  pub blocks : (i : ℕ) → i < nb → block_at now' addrs i ≡ block_at now addrs i
  pub there : (t : ℕ) → ((i : ℕ) → i < nb → t ≢ block_at now addrs i) → now' t ≡ now t

write_bytes-at :
    (f g : ℕ → ℕ) (a : ℕ) (bs : List ℕ) (j : ℕ)
    → f j ≡ g j
    → write_bytes f a bs j ≡ write_bytes g a bs j
write_bytes-at f g a bs j h = write_bytes-shift f g a a j j bs refl h

module _ (e : Outside) (g : Log) (before : ℕ → Block) (ip nb : ℕ) where
  -- A round and then the other bytes.
  IsWritten-round :
      (s s' : Inodes) (l : Log) (c : Cache) (k off : ℕ) (now now' : ℕ → Block) (addrs : ℕ → ℕ)
      (src bs rest : List ℕ) (f : IsFile g now addrs nb) (lt : off / bsize < nb)
      (fits : off % bsize + length bs ≤ bsize)
      → length bs ≤ length src
      → take (length bs) src ≡ bs
      → drop (length bs) src ≡ rest
      → IsWritten g before
          (set_disk s (l, c))
          (changed_block g now addrs nb f off bs lt fits)
          addrs
          nb
          k
          (off + length bs)
          rest
          s'
          now'
      → IsWritten g before s now addrs nb k off src s' now'
  IsWritten-round s s' l c k off now now' addrs src bs rest f lt fits le first then_ w = record {
    session = w.session;
    inodes = w.inodes;
    file = w.file;
    bytes = λ j p.
        w.bytes j p
        ∙ write_bytes-at _ (write_bytes (byte_at now addrs) off bs) (off + length bs) rest j
            (byte_at-changed_block g now addrs nb f off bs lt fits j p)
        ∙ ap (λ y. write_bytes (write_bytes (byte_at now addrs) off y) (off + length bs) rest j)
            (sym first)
        ∙ ap
            (λ y.
              write_bytes (write_bytes (byte_at now addrs) off (take (length bs) src))
                (off + length bs) y j)
            (sym then_)
        ∙ ap (λ y. y j) (write_bytes-split (byte_at now addrs) off (length bs) src le);
    blocks = λ i p. w.blocks i p ∙ block_at-changed_block g now addrs nb f off bs lt fits i p;
    there = λ t away.
        w.there t
          (λ i p z. away i p (z ∙ block_at-changed_block g now addrs nb f off bs lt fits i p))
        ∙ (let ne : (block_at now addrs (off / bsize) == t) ≡ false =
              ==-false _ t (λ z. away (off / bsize) lt (sym z)) in
            rw ne refl);
  }

  -- Nothing is left to write.
  none-IsWritten :
      (s : Inodes) (k cnt off : ℕ) (now : ℕ → Block) (addrs : ℕ → ℕ) (src : List ℕ)
      → length src ≡ 0
      → IsSession g before s.log s.cache (cnt + k) now
      → IsFile g now addrs nb
      → IsWritten g before s now addrs nb k off src s now
  unfolding write_bytes
  none-IsWritten s k cnt off now addrs [] z h f = record {
    session = fewer-IsSession g before s.log s.cache (cnt + k) k now h (omega arith);
    inodes = refl;
    file = f;
    bytes = λ j p. refl;
    blocks = λ i p. refl;
    there = λ t away. refl;
  }
  none-IsWritten s k cnt off now addrs (x ∷ src) z h f = absurd (omega arith)

  pub write_chunks-IsWritten :
      (fuel cnt : ℕ) (s : Inodes) (k off : ℕ) (now : ℕ → Block) (src : List ℕ)
      → length src ≤ fuel
      → (0 < length src → off + length src ≤ bsize * (off / bsize + cnt))
      → (0 < length src → off + length src ≤ bsize * nb)
      → IsSession g before s.log s.cache (cnt + k) now
      → (s.inode ip).dev ≡ g.dev
      → IsFile g now (s.inode ip).addrs nb
      → (s' : Inodes) × (now' : ℕ → Block) × (write_chunks e s ip fuel off src ≡ ok s')
        × IsWritten g before s now (s.inode ip).addrs nb k off src s' now'
  unfolding write_chunks
  write_chunks-IsWritten zero cnt s k off now src le many inside h dev f =
      (s, now, refl, none-IsWritten s k cnt off now (s.inode ip).addrs src (omega arith) h f)
  write_chunks-IsWritten (suc fuel) zero s k off now src le many inside h dev f =
      elim (Bool-cases (length src == 0)) [
        | inl none_left ↦
            let z : length src ≡ 0 = ground arith in
            (s, now, rw none_left refl, none-IsWritten s k 0 off now (s.inode ip).addrs src z h f)
        | inr some_left ↦
            let pos : 0 < length src = ground arith in let i = many pos in absurd (omega arith)
      ]
  write_chunks-IsWritten (suc fuel) (suc cnt) s k off now src le many inside h dev f =
      elim (Bool-cases (length src == 0)) [
        | inl none_left ↦
            let z : length src ≡ 0 = ground arith in
            (
              s,
              now,
              rw none_left refl,
              none-IsWritten s k (suc cnt) off now (s.inode ip).addrs src z h f,
            )
        | inr some_left ↦
            let x = s.inode ip in
            let pos : 0 < length src = ground arith in
            let m = min (length src) (bsize - off % bsize) in
            let lt : off / bsize < nb = (let i = inside pos in omega arith) in
            let bs = take m src in
            let len : length bs ≡ m = length-take m src (omega arith) in
            let fits : off % bsize + length bs ≤ bsize = rw len (omega arith) in
            let shift : suc cnt + k ≡ suc (cnt + k) = omega arith in
            let h1 = subst (λ i. IsSession g before s.log s.cache i now) shift h in
            let first : take (length bs) src ≡ bs = ap (λ i. take i src) len in
            let then_ : drop (length bs) src ≡ drop m src = ap (λ i. drop i src) len in
            let (l, c, e1, h2) =
              write_round e g before ip nb s (cnt + k) now fuel off src bs (drop m src) h1 dev f lt
                pos fits len first then_ in
            let left : length (drop m src) ≡ length src - m = length-drop m src in
            let i = inside pos in
            let i' = many pos in
            let (s', now', e2, w) =
              write_chunks-IsWritten fuel cnt (set_disk s (l, c)) k (off + length bs)
                (changed_block g now x.addrs nb f off bs lt fits) (drop m src) (omega arith)
                (λ p. omega arith) (λ p. omega arith) h2 dev
                (changed_block-IsFile g now x.addrs nb f off bs lt fits) in
            (
              s',
              now',
              e1 ∙ e2,
              IsWritten-round s s' l c k off now now' x.addrs src bs (drop m src) f lt fits
                  (omega arith) first then_ w,
            )
      ]
