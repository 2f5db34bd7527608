-- ===== src/Fs/Log/Reboot.antt =====
-- A transaction of the log, and what a reboot makes of the disk after some of the writes of
-- commit_trans.
use os_project_signal.Prelude.{
  ℕ, zero, suc, ◌+◌, ◌^◌, ◌≤◌, ◌<◌, ◌≡◌, ◌≢◌, ◌⊎◌, inl, inr, refl, sym, ap, subst, ◌∙◌, false, List,
  [], ◌∷◌, ◌++◌, arith,
}
use os_project_signal.Vmm.Phys.{read_word}
use os_project_signal.Fs.Result.{ok}
use os_project_signal.Fs.Cache.{Cache, Block, bufcache_init}
use os_project_signal.Fs.Cache.Inv.{view}
use os_project_signal.Fs.Cache.Copy.{IsCalm}
use os_project_signal.Fs.Log.{Log, rounds, read_sectors, header, recover_from_log}
use os_project_signal.Fs.Log.Redo.{
  Home, IsPlaced, redo, redo-congr, redo-redo, redo-elsewhere, installs, replay, replay-installs,
  header-n, header-sector,
}
use os_project_signal.Fs.Log.Recover.{loaded, recover_from_log-IsBooted}

-- A transaction: the header on the disk commits nothing, the log blocks are on the disk, and the
-- log on top of the disk is what a reader of a sector outside the log sees.
pub record IsTrans (l : Log) (c : Cache) : Type 0 where
  pub placed : IsPlaced l
  pub words : (i : ℕ) → i < l.n → l.sector i < 2 ^ 32
  pub distinct : (i j : ℕ) → i < l.n → j < l.n → l.sector i ≡ l.sector j → i ≡ j
  pub uncommitted : read_word (c.disk l.dev l.start) 0 ≡ 0
  pub flushed : (s : ℕ) → ¬ (Home l s) → view c l.dev s ≡ c.disk l.dev s
  pub current :
      (s : ℕ)
      → Home l s
      → redo l.start l.sector (c.disk l.dev) (c.disk l.dev) l.n s ≡ view c l.dev s

-- The log in the memory of the kernel that boots.
abbrev pub booting : Log → Log
booting l = record l { busy = false; n = 0; sector = λ i. 0 }

-- The reboot on `disk` recovers the log, and every sector outside it then holds what `content`
-- says, for the disk and for every reader.
abbrev pub Reboots : Log → (ℕ → ℕ → Block) → (ℕ → Block) → Type 0
Reboots l disk content =
    (l' : Log) × (c : Cache) × (recover_from_log (booting l) (bufcache_init disk) ≡ ok (l', c))
    × IsCalm c
    × (read_word (c.disk l.dev l.start) 0 ≡ 0)
    × ((s : ℕ) → Home l s → (c.disk l.dev s ≡ content s) × (view c l.dev s ≡ content s))

pub Reboots-congr :
    (l : Log) (disk : ℕ → ℕ → Block) (f g : ℕ → Block)
    → ((s : ℕ) → Home l s → f s ≡ g s)
    → Reboots l disk f
    → Reboots l disk g
Reboots-congr l disk f g e (l', c, eq, calm, cleared, h) =
    (l', c, eq, calm, cleared, λ s home. ((h s home).0 ∙ e s home, (h s home).1 ∙ e s home))

pub start_apart : (l : Log) (s : ℕ) → IsPlaced l → Home l s → s ≢ l.start
start_apart l s p home e = let f = p.fits in omega arith

-- A disk with an empty header is left as it is.
pub uncommitted-Reboots :
    (l : Log) (disk : ℕ → ℕ → Block)
    → IsPlaced l
    → read_word (disk l.dev l.start) 0 ≡ 0
    → Reboots l disk (disk l.dev)
unfolding redo
uncommitted-Reboots l disk p e =
    let lr = loaded (booting l) (disk l.dev l.start) in
    let fits = p.fits in
    let placed : IsPlaced lr = record {
      set = p.set;
      fits = rw e (omega arith);
      small = rw e (omega arith);
      homes = λ i lt. let none : i < 0 = subst (λ n. i < n) e lt in absurd (omega arith);
    } in
    let (c, eq, h) = recover_from_log-IsBooted (booting l) disk placed in
    (
      _,
      c,
      eq,
      h.calm,
      h.cleared,
      λ s home.
          let away = start_apart l s p home in
          let same : c.disk l.dev s ≡ disk l.dev s =
            h.disk s away ∙ ap (λ n. redo l.start lr.sector (disk l.dev) (disk l.dev) n s) e in
          (same, h.seen s away ∙ same),
    )

-- A disk with the header of the log gets what the log says.
committed-Reboots :
    (l : Log) (disk : ℕ → ℕ → Block) (x : Block)
    → IsPlaced l
    → ((i : ℕ) → i < l.n → l.sector i < 2 ^ 32)
    → disk l.dev l.start ≡ header l x
    → Reboots l disk (redo l.start l.sector (disk l.dev) (disk l.dev) l.n)
committed-Reboots l disk x p words e =
    let lr = loaded (booting l) (disk l.dev l.start) in
    let small = p.small in
    let same_n : lr.n ≡ l.n = ap (λ (y : Block). read_word y 0) e ∙ header-n l x (omega arith) in
    let same_sector : (i : ℕ) → i < l.n → lr.sector i ≡ l.sector i = λ i lt.
      ap (λ (y : Block). read_sectors y (λ j. 0) (rounds lr.n) i) e
      ∙ ap (λ n. read_sectors (header l x) (λ j. 0) (rounds n) i) same_n
      ∙ header-sector l x (λ j. 0) i small lt (words i lt) in
    let placed : IsPlaced lr = record {
      set = p.set;
      fits = subst (λ n. n < l.size) (sym same_n) p.fits;
      small = subst (λ n. n < 2 ^ 31) (sym same_n) small;
      homes = λ i lt.
          let lt' : i < l.n = subst (λ n. i < n) same_n lt in
          subst (Home l) (sym (same_sector i lt')) (p.homes i lt');
    } in
    let (c, eq, h) = recover_from_log-IsBooted (booting l) disk placed in
    (
      _,
      c,
      eq,
      h.calm,
      h.cleared,
      λ s home.
          let away = start_apart l s p home in
          let same : c.disk l.dev s ≡ redo l.start l.sector (disk l.dev) (disk l.dev) l.n s =
            h.disk s away
            ∙ ap (λ n. redo l.start lr.sector (disk l.dev) (disk l.dev) n s) same_n
            ∙ redo-congr l.start lr.sector l.sector (disk l.dev) (disk l.dev) (disk l.dev)
                (disk l.dev) l.n s same_sector (λ i lt. refl) refl in
          (same, h.seen s away ∙ same),
    )

-- A list of writes that is cut in two.
abbrev pub Write : Type 0
Write = ℕ × ℕ × Block

abbrev tail : List Write → List Write
tail [] = []
tail (w ∷ ws) = ws

pub split-cons :
    (later earlier : List Write) (w : Write) (ws : List Write)
    → later ++ earlier ≡ w ∷ ws
    → (earlier ≡ w ∷ ws) ⊎ ((rest : List Write) × (rest ++ earlier ≡ ws))
split-cons [] earlier w ws e = inl e
split-cons (x ∷ xs) earlier w ws e = inr (xs, ap tail e)

pub split-nil : (later earlier : List Write) → later ++ earlier ≡ [] → earlier ≡ []
split-nil [] earlier e = e
split-nil (x ∷ xs) earlier e = absurd (cc)

pub split-installs :
    (l : Log) (logged : ℕ → Block) (later earlier : List Write) (w : Write) (n : ℕ)
    → later ++ earlier ≡ installs l logged n ++ (w ∷ [])
    → (earlier ≡ []) ⊎ ((j : ℕ) × (j ≤ n) × (earlier ≡ installs l logged j ++ (w ∷ [])))
unfolding installs
split-installs l logged later earlier w zero e = elim (split-cons later earlier w [] e) [
  | inl all ↦ inr (0, omega arith, all)
  | inr (rest, e') ↦ inl (split-nil rest earlier e')
]
split-installs l logged later earlier w (suc n) e =
    elim (split-cons later earlier _ (installs l logged n ++ (w ∷ [])) e) [
      | inl all ↦ inr (suc n, omega arith, all)
      | inr (rest, e') ↦ elim (split-installs l logged rest earlier w n e') [
        | inl none ↦ inl none
        | inr (j, le, e'') ↦ inr (j, omega arith, e'')
      ]
    ]

module _ (l : Log) (c : Cache) (t : IsTrans l c) (x h : Block) (h_header : h ≡ header l x)
    (logged : ℕ → Block)
    (logged_same : (i : ℕ)
      → i < l.n
      → logged (l.start + i + 1) ≡ c.disk l.dev (l.start + i + 1)) where
  -- The disk after the header and `j` installs.
  abbrev pub partial_disk : ℕ → ℕ → ℕ → Block
  partial_disk j = replay c.disk (installs l logged j ++ ((l.dev, l.start, h) ∷ []))

  abbrev pub headed : ℕ → Block
  headed = replay c.disk ((l.dev, l.start, h) ∷ []) l.dev

  headed-start : headed l.start ≡ h
  unfolding replay
  headed-start = ground arith

  pub headed-elsewhere : (s : ℕ) → s ≢ l.start → headed s ≡ c.disk l.dev s
  unfolding replay
  headed-elsewhere s ne = ground arith

  pub partial_disk-redo :
      (j s : ℕ) → partial_disk j l.dev s ≡ redo l.start l.sector logged headed j s
  partial_disk-redo j s = replay-installs l logged c.disk ((l.dev, l.start, h) ∷ []) j s

  log-not_Home : (s : ℕ) → l.start ≤ s → s ≤ l.start + l.n → ¬ (Home l s)
  log-not_Home s p q home = let f = t.placed.fits in absurd (omega arith)

  partial_disk-log :
      (j s : ℕ) → j ≤ l.n → l.start ≤ s → s ≤ l.start + l.n → partial_disk j l.dev s ≡ headed s
  partial_disk-log j s le p q =
      partial_disk-redo j s ∙ redo-elsewhere l logged headed j s t.placed le (log-not_Home s p q)

  -- However many sectors are installed, the log on top of the disk is the transaction.
  pub partial_disk-current :
      (j s : ℕ)
      → j ≤ l.n
      → Home l s
      → redo l.start l.sector (partial_disk j l.dev) (partial_disk j l.dev) l.n s ≡ view c l.dev s
  partial_disk-current j s le home =
      redo-congr l.start l.sector l.sector (partial_disk j l.dev) logged (partial_disk j l.dev)
        (redo l.start l.sector logged headed j) l.n s (λ i lt. refl)
        (λ i lt.
          partial_disk-log j (l.start + i + 1) le (omega arith) (omega arith)
          ∙ headed-elsewhere (l.start + i + 1) (λ e. omega arith)
          ∙ sym (logged_same i lt))
        (partial_disk-redo j s)
      ∙ redo-redo l.start l.sector logged headed j l.n s le
      ∙ redo-congr l.start l.sector l.sector logged (c.disk l.dev) headed (c.disk l.dev) l.n s
          (λ i lt. refl) logged_same (headed-elsewhere s (start_apart l s t.placed home))
      ∙ t.current s home

  pub partial-Reboots : (j : ℕ) → j ≤ l.n → Reboots l (partial_disk j) (view c l.dev)
  partial-Reboots j le =
      Reboots-congr l (partial_disk j) _ (view c l.dev) (λ s. partial_disk-current j s le)
        (committed-Reboots l (partial_disk j) x t.placed t.words
          (partial_disk-log j l.start le (omega arith) (omega arith) ∙ headed-start ∙ h_header))
