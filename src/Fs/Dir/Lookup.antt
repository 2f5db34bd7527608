-- ===== src/Fs/Dir/Lookup.antt =====
-- dir_lookup of kern/fs/dir.c: the first entry with the name.
use os_project_signal.Prelude.{
  ℕ, zero, suc, ◌+◌, ◌-◌, ◌*◌, ◌/◌, ◌^◌, ◌≤◌, ◌<◌, ◌≡◌, ◌⊎◌, inl, inr, refl, sym, ap, ◌∙◌, Bool,
  true, false, ◌||◌, not, List, arith, Option, some, none, ◌==◌, min, length, Bool-cases,
}
use os_project_signal.Vmm.Phys.{read_bytes}
use os_project_signal.Fs.Result.{Result, ok, ◌>>=◌}
use os_project_signal.Fs.Cache.{Cache, Block, bsize}
use os_project_signal.Fs.Log.Recover.{IsLooked}
use os_project_signal.Fs.Inode.{Inodes, inode_get}
use os_project_signal.Fs.Inode.Content.{Outside, inode_read}
use os_project_signal.Fs.Inode.Read.{
  byte_at, IsThere, Quiet, looked-Quiet, IsLooked-refl, IsLooked-compose, inode_read-bytes,
}
use os_project_signal.Fs.Dir.{
  t_dir, entry_size, entry_inum, entry_name, entries, dir_namecmp, lookup_from, dir_lookup,
}

-- Entry `i` of a directory.
abbrev pub entry_at : (ℕ → Block) → (ℕ → ℕ) → ℕ → List ℕ
entry_at v addrs i = read_bytes (byte_at v addrs) (entry_size * i) entry_size

-- An entry is not free and has the name.
abbrev pub names : List ℕ → List ℕ → Bool
names name de = not ((entry_inum de == 0) || not (dir_namecmp (entry_name de) name == 0))

length-read_bytes : (f : ℕ → ℕ) (a n : ℕ) → length (read_bytes f a n) ≡ n
unfolding read_bytes
length-read_bytes f a zero = refl
length-read_bytes f a (suc n) = ap suc (length-read_bytes f (a + 1) n)

module _ (e : Outside) (v : ℕ → Block) (dp : ℕ) (name : List ℕ) where
  -- The inode of the entry is found, as inode_get gives it, with its offset.
  abbrev pub found_at : Inodes → ℕ → ℕ → Result (Option (ℕ × ℕ) × Inodes)
  found_at s i inum =
      inode_get s (s.inode dp).dev inum >>= λ (ip, s'). ok (some (ip, entry_size * i), s')

  -- What the entries from `i` up to `n` make of the result `r`.
  abbrev pub LooksUp : Inodes → ℕ → ℕ → Result (Option (ℕ × ℕ) × Inodes) → Type 0
  LooksUp s i n r =
      ((k : ℕ) × (c : Cache) × (i ≤ k)
        × (k < n)
        × (names name (entry_at v (s.inode dp).addrs k) ≡ true)
        × ((j : ℕ) → i ≤ j → j < k → names name (entry_at v (s.inode dp).addrs j) ≡ false)
        × (r ≡ found_at (record s { cache = c }) k (entry_inum (entry_at v (s.inode dp).addrs k)))
        × IsLooked s.cache c)
      ⊎ ((c : Cache) × ((j : ℕ)
            → i ≤ j
            → j < n
            → names name (entry_at v (s.inode dp).addrs j) ≡ false)
          × (r ≡ ok (none, record s { cache = c }))
          × IsLooked s.cache c)

  read_entry :
      (s : Inodes) (i : ℕ)
      → Quiet e v s dp
      → (s.inode dp).type_ ≡ t_dir
      → entry_size * i + entry_size ≤ (s.inode dp).size
      → (s.inode dp).size < 2 ^ 32
      → ((j : ℕ) → j < (s.inode dp).size → IsThere v (s.inode dp).addrs (j / bsize))
      → (c : Cache) × (inode_read e s dp (entry_size * i) entry_size
          ≡ ok (some (entry_at v (s.inode dp).addrs i), record s { cache = c }))
        × IsLooked s.cache c
  read_entry s i q dir inside small there =
      elim (inode_read-bytes e v s dp (entry_size * i) entry_size q
        (λ z. (let k = dir in omega arith)) (omega arith) (omega arith) (λ j p r t. there j t)) [
          | inl (wrong, z) ↦
              absurd (elim wrong [ inl past ↦ omega arith | inr wraps ↦ omega arith ])
          | inr (within, short, (c, e1, h)) ↦
              let whole : min entry_size ((s.inode dp).size - entry_size * i) ≡ entry_size =
                omega arith in
              (
                c,
                e1
                    ∙ ap
                        (λ n.
                          (let r : Result (Option (List ℕ) × Inodes) = ok (
                            some (read_bytes (byte_at v (s.inode dp).addrs) (entry_size * i) n),
                            record s { cache = c },
                          ) in
                            r))
                        whole,
                h,
              )
        ]

  lookup_from-LooksUp :
      (rest : ℕ) (s : Inodes) (i n : ℕ)
      → i + rest ≡ n
      → Quiet e v s dp
      → (s.inode dp).type_ ≡ t_dir
      → (s.inode dp).size ≡ entry_size * n
      → (s.inode dp).size < 2 ^ 32
      → ((j : ℕ) → j < (s.inode dp).size → IsThere v (s.inode dp).addrs (j / bsize))
      → LooksUp s i n (lookup_from e s dp name rest (entry_size * i))
  unfolding lookup_from
  lookup_from-LooksUp zero s i n total q dir size small there =
      inr (s.cache, (λ j p r. absurd (omega arith)), refl, IsLooked-refl s.cache q.0)
  lookup_from-LooksUp (suc rest) s i n total q dir size small there =
      let (c, e1, h) = read_entry s i q dir (omega arith) small there in
      let de = entry_at v (s.inode dp).addrs i in
      let full : (length de == entry_size) ≡ true =
        rw (length-read_bytes (byte_at v (s.inode dp).addrs) (entry_size * i) entry_size) refl in
      let next : entry_size * i + entry_size ≡ entry_size * suc i = omega arith in
      elim (Bool-cases ((entry_inum de == 0) || not (dir_namecmp (entry_name de) name == 0))) [
        | inr match ↦ inl (
          i,
          c,
          omega arith,
          omega arith,
          rw match refl,
          (λ j p r. absurd (omega arith)),
          rw (e1, full, match) refl,
          h,
        )
        | inl skip ↦
            elim (lookup_from-LooksUp rest (record s { cache = c }) (suc i) n (omega arith)
              (looked-Quiet e v s dp c q h) dir size small there) [
                | inl (k, c', le, lt, hit, before, e2, h') ↦ inl (
                  k,
                  c',
                  omega arith,
                  lt,
                  hit,
                  (λ j p r. onward s i j skip p (λ p'. before j p' r)),
                  rw (e1, full, skip, next, e2) refl,
                  IsLooked-compose s.cache c c' h h',
                )
                | inr (c', all, e2, h') ↦ inr (
                  c',
                  (λ j p r. onward s i j skip p (λ p'. all j p' r)),
                  rw (e1, full, skip, next, e2) refl,
                  IsLooked-compose s.cache c c' h h',
                )
              ]
      ]
    where
      onward :
          (s : Inodes) (i j : ℕ)
          → (let de = entry_at v (s.inode dp).addrs i in
              (entry_inum de == 0) || not (dir_namecmp (entry_name de) name == 0))
            ≡ true
          → i ≤ j
          → (suc i ≤ j → names name (entry_at v (s.inode dp).addrs j) ≡ false)
          → names name (entry_at v (s.inode dp).addrs j) ≡ false
      onward s i j skip le later = elim (Bool-cases (i == j)) [
        | inl same ↦
            let z : i ≡ j = ground arith in
            ap (λ k. names name (entry_at v (s.inode dp).addrs k)) (sym z) ∙ rw skip refl
        | inr other ↦ later (ground arith)
      ]

  -- dir_lookup in a directory of `n` entries whose blocks are there, with a cache that nobody else
  -- uses: it finds the first entry that is not free and has the name, with its offset, and gives
  -- what inode_get gives for its inode; or no entry is like that, and it returns no inode. No
  -- reader sees a change.
  pub dir_lookup-LooksUp :
      (s : Inodes) (n : ℕ)
      → Quiet e v s dp
      → (s.inode dp).type_ ≡ t_dir
      → (s.inode dp).size ≡ entry_size * n
      → (s.inode dp).size < 2 ^ 32
      → ((j : ℕ) → j < (s.inode dp).size → IsThere v (s.inode dp).addrs (j / bsize))
      → LooksUp s 0 n (dir_lookup e s dp name)
  unfolding dir_lookup
  dir_lookup-LooksUp s n q dir size small there =
      let is : ((s.inode dp).type_ == t_dir) ≡ true = rw dir refl in
      let count : entries (s.inode dp).size ≡ n = omega arith in
      rw (is, count) (lookup_from-LooksUp n s 0 n (omega arith) q dir size small there)
