-- ===== src/Fs/Inode/Count.antt =====
-- The reference counts of the inodes in memory: inode_get, inode_dup and inode_put of
-- kern/fs/inode.c.
use os_project_signal.Prelude.{
  ℕ, ◌+◌, ◌-◌, ◌^◌, ◌%◌, ◌<◌, ◌≡◌, ◌≢◌, ◌⊎◌, inl, inr, refl, sym, ◌∙◌, true, false, ◌&&◌, List, ◌∷◌,
  arith, ◌==◌, update, length, mem, erase, Bool-cases, ==_refl, ==-false,
}
use os_project_signal.Fs.Result.{ok, panics}
use os_project_signal.Fs.File.Count.{count, count-le, count-mem, count-erase, length-erase}
use os_project_signal.Fs.Inode.{
  Inode, Inodes, ninode, set_inode, find_inode, find_empty, inode_dup, inode_get, inode_put,
}
use os_project_signal.Fs.Inode.Find.{IsFor, find_inode-cases, find_empty-cases}

-- Each place counts its references, and no inode of the disk has two places with references.
pub record IsCounted (t : ℕ → Inode) (holders : List ℕ) : Type 0 where
  pub counts : (i : ℕ) → i < ninode → (t i).ref ≡ count i holders
  pub unique :
      (i j : ℕ)
      → i < ninode
      → j < ninode
      → 0 < (t i).ref
      → 0 < (t j).ref
      → IsFor (t i) (t j).dev (t j).inum
      → i ≡ j
  pub few : length holders < 2 ^ 31

-- Place `ip` changes, and gets no inode that another place with references has.
update_unique :
    (t : ℕ → Inode) (holders : List ℕ) (ip : ℕ) (x : Inode)
    → IsCounted t holders
    → ((i : ℕ) → i < ninode → 0 < (t i).ref → IsFor (t i) x.dev x.inum → 0 < x.ref → i ≡ ip)
    → (i j : ℕ) → i < ninode
    → j < ninode
    → 0 < (update t ip x i).ref
    → 0 < (update t ip x j).ref
    → IsFor (update t ip x i) (update t ip x j).dev (update t ip x j).inum
    → i ≡ j
update_unique t holders ip x c only i j p q = elim (Bool-cases (ip == i)) [
  | inl here ↦
      let e : ip ≡ i = ground arith in
      elim (Bool-cases (ip == j)) [
        | inl here' ↦ let e' : ip ≡ j = ground arith in λ r r' is. sym e ∙ e'
        | inr there' ↦ rw (here, there') (λ r r' (d, m). sym e ∙ sym (only j q r' (sym d, sym m) r))
      ]
  | inr there ↦ elim (Bool-cases (ip == j)) [
    | inl here' ↦
        let e' : ip ≡ j = ground arith in rw (there, here') (λ r r' is. only i p r is r' ∙ e')
    | inr there' ↦ rw (there, there') (λ r r' is. c.unique i j p q r r' is)
  ]
]

-- inode_dup of a place with references.
pub inode_dup-IsCounted :
    (s : Inodes) (holders : List ℕ) (ip : ℕ)
    → IsCounted s.inode holders
    → length holders + 1 < 2 ^ 31
    → ip < ninode
    → 0 < (s.inode ip).ref
    → IsCounted (inode_dup s ip).inode (ip ∷ holders)
unfolding inode_dup count
inode_dup-IsCounted s holders ip c few lt pos =
    let le = count-le ip holders in
    let k' = c.counts ip lt in
    record {
      counts = λ i p. let k = c.counts i p in ground arith;
      unique =
          update_unique s.inode holders ip
            (record (s.inode ip) { ref = ((s.inode ip).ref + 1) % 2 ^ 32 }) c
            (λ i p r is w. c.unique i ip p lt r pos is);
      few = omega arith;
    }

dup-IsFor :
    (s : Inodes) (ip dev inum : ℕ)
    → IsFor (s.inode ip) dev inum
    → IsFor ((inode_dup s ip).inode ip) dev inum
unfolding inode_dup
dup-IsFor s ip dev inum is = rw (==_refl ip) is

taken :
    (t : ℕ → Inode) (holders : List ℕ) (ip dev inum : ℕ)
    → IsCounted t holders
    → ip < ninode
    → (t ip).ref ≡ 0
    → (i : ℕ) → i < ninode
    → (update t ip
        (record (t ip) { dev = dev; inum = inum; ref = 1; busy = false; valid = false })
        i).ref
      ≡ count i (ip ∷ holders)
unfolding count
taken t holders ip dev inum c lt z i p =
    let k = c.counts i p in let k' = c.counts ip lt in ground arith

-- inode_get of an inode that is in memory adds a reference to its place; of one that is not, it
-- takes a place without references, which is then not valid; or all places are referenced, by
-- other inodes, and it panics. The counts stay right, and no inode gets two places.
pub inode_get-IsCounted :
    (s : Inodes) (holders : List ℕ) (dev inum : ℕ)
    → IsCounted s.inode holders
    → length holders + 1 < 2 ^ 31
    → ((ip : ℕ) × (s' : Inodes) × (inode_get s dev inum ≡ ok (ip, s'))
        × (ip < ninode)
        × IsFor (s'.inode ip) dev inum
        × IsCounted s'.inode (ip ∷ holders)
        × ((0 < count ip holders) × (s' ≡ inode_dup s ip)
            ⊎ ((count ip holders ≡ 0) × ((s'.inode ip).valid ≡ false))))
      ⊎ ((inode_get s dev inum ≡ panics)
          × ((i : ℕ) → i < ninode → (0 < count i holders) × ¬ (IsFor (s.inode i) dev inum)))
unfolding inode_get
inode_get-IsCounted s holders dev inum c few =
    elim (find_inode-cases s.inode dev inum 0 ninode refl) [
      | inl (le, lt, pos, is) ↦
          let ip = find_inode s.inode dev inum 0 ninode in
          let k = c.counts ip lt in
          inl (
            ip,
            inode_dup s ip,
            rw (==-false ip ninode (omega arith)) refl,
            lt,
            dup-IsFor s ip dev inum is,
            inode_dup-IsCounted s holders ip c few lt pos,
            inl (omega arith, refl),
          )
      | inr (none, all) ↦
          let small : (i : ℕ) → i < ninode → (s.inode i).ref < 2 ^ 31 = λ i p.
            (let k = c.counts i p in let b = count-le i holders in let f = c.few in omega arith) in
          elim (find_empty-cases s.inode 0 ninode refl) [
            | inl (le, lt, z) ↦
                let ip = find_empty s.inode 0 ninode in
                let k' = c.counts ip lt in
                inl (
                  ip,
                  set_inode s ip (record (s.inode ip) {
                    dev = dev;
                    inum = inum;
                    ref = 1;
                    busy = false;
                    valid = false;
                  }),
                  rw (none, ==-false ip ninode (omega arith)) refl,
                  lt,
                  rw (==_refl ip) (refl, refl),
                  record {
                    counts = taken s.inode holders ip dev inum c lt z;
                    unique =
                        update_unique s.inode holders ip
                          (record (s.inode ip) {
                            dev = dev;
                            inum = inum;
                            ref = 1;
                            busy = false;
                            valid = false;
                          })
                          c (λ i p r is w. absurd (all i (omega arith) p r (small i p) is));
                    few = omega arith;
                  },
                  inr (omega arith, rw (==_refl ip) refl),
                )
            | inr (full, used) ↦ inr (
              rw (none, full) refl,
              λ i p.
                  let k = c.counts i p in
                  let n = used i (omega arith) p in
                  (omega arith, all i (omega arith) p (omega arith) (small i p)),
            )
          ]
    ]

-- inode_put of a place that somebody refers to, unless it frees the inode, takes one reference
-- away.
inode_put-IsCounted :
    (s : Inodes) (holders : List ℕ) (ip : ℕ)
    → IsCounted s.inode holders
    → ip < ninode
    → mem ip holders ≡ true
    → count ip holders ≢ 1 ⊎ ((s.inode ip).valid ≡ false ⊎ ((s.inode ip).nlink ≢ 0))
    → (s' : Inodes) × (inode_put s ip ≡ ok s')
      × IsCounted s'.inode (erase ip holders)
      × (s'.log ≡ s.log)
      × (s'.cache ≡ s.cache)
unfolding inode_put
inode_put-IsCounted s holders ip c lt m stays =
    let k' = c.counts ip lt in
    let le = count-le ip holders in
    let some_ref = count-mem ip holders m in
    let shorter = length-erase ip holders in
    let few = c.few in
    let x : Inode = record (s.inode ip) { ref = ((s.inode ip).ref + 2 ^ 32 - 1) % 2 ^ 32 } in
    let kept : (((s.inode ip).ref == 1) && (s.inode ip).valid && ((s.inode ip).nlink == 0))
        ≡ false =
      elim stays [
        | inl several ↦
            (let ne : ((s.inode ip).ref == 1) ≡ false = ==-false _ 1 (λ z. several (sym k' ∙ z)) in
              rw ne refl)
        | inr (inl fresh) ↦ ground arith
        | inr (inr linked) ↦
            (let ne : ((s.inode ip).nlink == 0) ≡ false = ==-false _ 0 linked in ground arith)
      ] in
    (
      set_inode s ip x,
      rw kept refl,
      record {
        counts = λ i p. let k = c.counts i p in let d = count-erase i ip holders m in ground arith;
        unique =
            update_unique s.inode holders ip x c
              (λ i p r is w. c.unique i ip p lt r (omega arith) is);
        few = omega arith;
      },
      refl,
      refl,
    )
