-- ===== src/Fs/Inode/Read.antt =====
-- bmap and inode_read of kern/fs/inode.c on a file whose blocks are there.
use os_project_signal.Prelude.{
  ℕ, zero, suc, ◌+◌, ◌-◌, ◌*◌, ◌/◌, ◌%◌, ◌^◌, ◌≤◌, ◌<◌, ◌≡◌, ◌≢◌, ◌⊎◌, inl, inr, refl, sym, ap, ◌∙◌,
  true, false, ◌∷◌, ◌++◌, arith, some, none, ◌==◌, ltb, if◌then◌else◌, min, Bool-cases, ==-false,
}
use os_project_signal.Vmm.Phys.{read_word, read_bytes, read_bytes-add}
use os_project_signal.Fs.Result.{ok}
use os_project_signal.Fs.Cache.{Cache, Block, bsize, bufcache_read, bufcache_release}
use os_project_signal.Fs.Cache.Inv.{unset, view}
use os_project_signal.Fs.Cache.Copy.{IsCalm, calm-IsReadable}
use os_project_signal.Fs.Cache.Update.{bufcache_read-IsRead}
use os_project_signal.Fs.Log.Recover.{IsLooked, bufcache_release-IsLooked}
use os_project_signal.Fs.Inode.{Inodes, ndirect, nindirect, maxfile, t_dev}
use os_project_signal.Fs.Inode.Content.{Outside, bmap, read_chunks, inode_read}

-- The block that holds block `bn` of a file, in the sectors `v`.
abbrev pub block_at : (ℕ → Block) → (ℕ → ℕ) → ℕ → ℕ
block_at v addrs bn =
    if ltb bn ndirect then addrs bn else read_word (v (addrs ndirect)) (4 * (bn - ndirect))

-- The bytes of a file.
abbrev pub byte_at : (ℕ → Block) → (ℕ → ℕ) → ℕ → ℕ
byte_at v addrs j = v (block_at v addrs (j / bsize)) (j % bsize)

-- Block `bn` of the file is there, and so is the indirect block if it is needed.
pub record IsThere (v : ℕ → Block) (addrs : ℕ → ℕ) (bn : ℕ) : Type 0 where
  pub small : bn < maxfile
  pub found : block_at v addrs bn ≢ 0
  pub indirect : ndirect ≤ bn → addrs ndirect ≢ 0

pub IsLooked-refl : (c : Cache) → IsCalm c → IsLooked c c
IsLooked-refl c q = record {
  calm = q;
  same_disk = refl;
  same_written = refl;
  same_dirty = λ j. refl;
  same_view = λ d s h. refl;
}

pub IsLooked-compose : (c c1 c2 : Cache) → IsLooked c c1 → IsLooked c1 c2 → IsLooked c c2
IsLooked-compose c c1 c2 h k = record {
  calm = k.calm;
  same_disk = k.same_disk ∙ h.same_disk;
  same_written = k.same_written ∙ h.same_written;
  same_dirty = λ j. k.same_dirty j ∙ h.same_dirty j;
  same_view = λ d s ne. k.same_view d s ne ∙ h.same_view d s ne;
}

peek :
    (c : Cache) (dev sector : ℕ)
    → IsCalm c
    → dev ≢ unset
    → (b : ℕ) × (c1 c2 : Cache) × (bufcache_read c dev sector ≡ ok (b, c1))
      × ((c1.buf b).bytes ≡ view c dev sector)
      × (bufcache_release c1 b ≡ ok c2)
      × IsLooked c c2
peek c dev sector q set =
    let (b, c1, e1, h1) = bufcache_read-IsRead c dev sector (calm-IsReadable c dev sector q set) in
    let (c2, e2, h2) = bufcache_release-IsLooked c q dev sector b c1 set h1 in
    (b, c1, c2, e1, h1.seen, e2, h2)

module _ (e : Outside) (v : ℕ → Block) where
  -- The inode's blocks are read as `v`, by nobody else.
  abbrev pub Quiet : Inodes → ℕ → Type 0
  Quiet s ip =
      IsCalm s.cache
      × ((s.inode ip).dev ≢ unset)
      × ((t : ℕ) → view s.cache (s.inode ip).dev t ≡ v t)

  pub looked-Quiet :
      (s : Inodes) (ip : ℕ) (c : Cache)
      → Quiet s ip
      → IsLooked s.cache c
      → Quiet (record s { cache = c }) ip
  looked-Quiet s ip c (q, set, seen) h =
      (h.calm, set, λ t. h.same_view (s.inode ip).dev t set ∙ seen t)

  pub bmap-there :
      (s : Inodes) (ip bn : ℕ)
      → Quiet s ip
      → IsThere v (s.inode ip).addrs bn
      → (c : Cache) × (bmap e s ip bn
          ≡ ok (block_at v (s.inode ip).addrs bn, record s { cache = c }))
        × IsLooked s.cache c
  unfolding bmap
  bmap-there s ip bn (q, set, seen) t = elim (Bool-cases (ltb bn ndirect)) [
    | inl direct ↦
        let ne : ((s.inode ip).addrs bn == 0) ≡ false = ==-false _ 0 (λ z. t.found (rw direct z)) in
        (s.cache, rw (direct, ne) refl, IsLooked-refl s.cache q)
    | inr far ↦
        let x = s.inode ip in
        let (b, c1, c2, e1, bytes, e2, h) = peek s.cache x.dev (x.addrs ndirect) q set in
        let small = t.small in
        let near : ltb (bn - ndirect) nindirect ≡ true = ground arith in
        let ne : (x.addrs ndirect == 0) ≡ false = ==-false _ 0 (t.indirect (ground arith)) in
        let same : (c1.buf b).bytes ≡ v (x.addrs ndirect) = bytes ∙ seen (x.addrs ndirect) in
        let word : read_word (c1.buf b).bytes (4 * (bn - ndirect))
            ≡ read_word (v (x.addrs ndirect)) (4 * (bn - ndirect)) =
          ap (λ y. read_word y (4 * (bn - ndirect))) same in
        let found : (read_word (v (x.addrs ndirect)) (4 * (bn - ndirect)) == 0) ≡ false =
          ==-false _ 0 (λ z. t.found (rw far z)) in
        (c2, rw (far, near, ne, e1, word, found, e2) refl, h)
  ]

pub read_bytes-shift :
    (f g : ℕ → ℕ) (a b n : ℕ)
    → ((i : ℕ) → i < n → f (a + i) ≡ g (b + i))
    → read_bytes f a n ≡ read_bytes g b n
unfolding read_bytes
read_bytes-shift f g a b zero h = refl
read_bytes-shift f g a b (suc n) h =
    let first : f a ≡ g b =
      (let e : a + 0 ≡ a = omega arith in
        let e' : b + 0 ≡ b = omega arith in ap f (sym e) ∙ h 0 (omega arith) ∙ ap g e') in
    rw first (
      ap (λ bs. g b ∷ bs)
        (read_bytes-shift f g (a + 1) (b + 1) n (λ i lt.
          let e : a + 1 + i ≡ a + suc i = omega arith in
          let e' : b + 1 + i ≡ b + suc i = omega arith in
          ap f e ∙ h (suc i) (omega arith) ∙ ap g (sym e'))))

-- A part of the file that lies in one block.
chunk-bytes :
    (v : ℕ → Block) (addrs : ℕ → ℕ) (off m : ℕ)
    → m ≤ bsize - off % bsize
    → read_bytes (v (block_at v addrs (off / bsize))) (off % bsize) m
      ≡ read_bytes (byte_at v addrs) off m
chunk-bytes v addrs off m le = read_bytes-shift _ _ (off % bsize) off m (λ i lt.
    let q : (off + i) / bsize ≡ off / bsize = omega arith in
    let r : (off + i) % bsize ≡ off % bsize + i = omega arith in rw (q, r) refl)

module _ (e : Outside) (v : ℕ → Block) where
  read_chunks-bytes :
      (fuel : ℕ) (s : Inodes) (ip off n : ℕ)
      → n ≤ fuel
      → Quiet e v s ip
      → ((j : ℕ) → off ≤ j → j < off + n → IsThere v (s.inode ip).addrs (j / bsize))
      → (c : Cache) × (read_chunks e s ip fuel off n
          ≡ ok (read_bytes (byte_at v (s.inode ip).addrs) off n, record s { cache = c }))
        × IsLooked s.cache c
  unfolding read_chunks read_bytes
  read_chunks-bytes zero s ip off n le q there =
      let z : n ≡ 0 = omega arith in (s.cache, rw z refl, IsLooked-refl s.cache q.0)
  read_chunks-bytes (suc fuel) s ip off n le q there = elim (Bool-cases (n == 0)) [
    | inl none_left ↦
        let z : n ≡ 0 = ground arith in (s.cache, rw z refl, IsLooked-refl s.cache q.0)
    | inr some_left ↦
        let m = min n (bsize - off % bsize) in
        let pos : 0 < n = ground arith in
        let x = s.inode ip in
        let addr = block_at v x.addrs (off / bsize) in
        let (c, e0, h0) =
          bmap-there e v s ip (off / bsize) q (there off (omega arith) (omega arith)) in
        let q0 = looked-Quiet e v s ip c q h0 in
        let (b, c1, c2, e1, bytes, e2, h1) = peek c x.dev addr q0.0 q0.1 in
        let q1 = looked-Quiet e v (record s { cache = c }) ip c2 q0 h1 in
        let (c3, e3, h3) =
          read_chunks-bytes fuel (record s { cache = c2 }) ip (off + m) (n - m) (omega arith) q1
            (λ j p r. there j (omega arith) (omega arith)) in
        let part : read_bytes (c1.buf b).bytes (off % bsize) m
            ≡ read_bytes (byte_at v x.addrs) off m =
          ap (λ f. read_bytes f (off % bsize) m) (bytes ∙ q0.2 addr)
          ∙ chunk-bytes v x.addrs off m (omega arith) in
        let whole : m + (n - m) ≡ n = omega arith in
        let joined : read_bytes (byte_at v x.addrs) off m
              ++ read_bytes (byte_at v x.addrs) (off + m) (n - m)
            ≡ read_bytes (byte_at v x.addrs) off n =
          sym (read_bytes-add (byte_at v x.addrs) off m (n - m))
          ∙ ap (read_bytes (byte_at v x.addrs) off) whole in
        (
          c3,
          rw (some_left, e0, e1, e2, e3, part, joined) refl,
          IsLooked-compose s.cache c c3 h0 (IsLooked-compose c c2 c3 h1 h3),
        )
  ]

  -- inode_read of an inode that is not a device, with a cache that nobody else uses: an offset
  -- past the end of the file, or an end that does not fit into 32 bits, gives -1 and no change.
  -- Otherwise, if the blocks of the file up to the end of what is read are there, it returns the
  -- bytes of the file from the offset on, as many as were asked for or as are left, and no reader
  -- sees a change.
  pub inode_read-bytes :
      (s : Inodes) (ip off n : ℕ)
      → Quiet e v s ip
      → (s.inode ip).type_ ≢ t_dev
      → off < 2 ^ 32
      → n < 2 ^ 32
      → ((j : ℕ)
          → off ≤ j
          → j < off + n
          → j < (s.inode ip).size
          → IsThere v (s.inode ip).addrs (j / bsize))
      → (((s.inode ip).size < off ⊎ (2 ^ 32 ≤ off + n)) × (inode_read e s ip off n ≡ ok (none, s)))
        ⊎ ((off ≤ (s.inode ip).size)
            × (off + n < 2 ^ 32)
            × ((c : Cache) × (inode_read e s ip off n
                  ≡ ok (
                    some (
                        read_bytes
                          (byte_at v (s.inode ip).addrs)
                          off
                          (min n ((s.inode ip).size - off))),
                    record s { cache = c },
                  ))
                × IsLooked s.cache c))
  unfolding inode_read
  inode_read-bytes s ip off n q file w w' there =
      let x = s.inode ip in
      let ne : (x.type_ == t_dev) ≡ false = ==-false _ t_dev file in
      elim (Bool-cases (ltb x.size off)) [
        | inl past ↦ inl (inl (ground arith), rw (ne, past) refl)
        | inr within ↦ elim (Bool-cases (ltb ((off + n) % 2 ^ 32) off)) [
          | inl wraps ↦ inl (inr (ground arith), rw (ne, within, wraps) refl)
          | inr fits ↦
              let short : off + n < 2 ^ 32 = ground arith in
              let size : off ≤ x.size = ground arith in
              let k = min n (x.size - off) in
              let (c, e1, h) =
                read_chunks-bytes k s ip off k (omega arith) q
                  (λ j p r. there j p (omega arith) (omega arith)) in
              let count : (if ltb x.size ((off + n) % 2 ^ 32) then x.size - off else n) ≡ k =
                ground arith in
              inr (size, short, (c, rw (ne, within, fits, count, e1) refl, h))
        ]
      ]
