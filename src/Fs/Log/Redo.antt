-- ===== src/Fs/Log/Redo.antt =====
-- What the log stands for: the sectors after its header, put where the header says.
use os_project_signal.Prelude.{
  ℕ, zero, suc, ◌+◌, ◌*◌, ◌^◌, ◌≤◌, ◌<◌, ◌≡◌, ◌≢◌, ◌⊎◌, inl, inr, refl, sym, ap, subst, ◌∙◌, List,
  [], ◌∷◌, ◌++◌, arith, ◌==◌, if◌then◌else◌, update, Bool-cases,
}
use os_project_signal.Vmm.Phys.{
  read_word, write_word, read_word-write_word, read_word-write_word_ne,
}
use os_project_signal.Fs.Cache.{Block}
use os_project_signal.Fs.Cache.Inv.{unset}
use os_project_signal.Fs.Log.{Log, rounds, read_sectors, write_sectors, header}

-- A sector outside the log.
abbrev pub Home : Log → ℕ → Type 0
Home l s = s < l.start ⊎ (l.start + l.size ≤ s)

-- The header fits the log, and the sectors that it names are not in the log.
pub record IsPlaced (l : Log) : Type 0 where
  pub set : l.dev ≢ unset
  pub fits : l.n < l.size
  pub small : l.n < 2 ^ 31
  pub homes : (i : ℕ) → i < l.n → Home l (l.sector i)

-- The sector `s` of a disk `base` after the first `n` sectors of the log, which hold `logged`, are
-- installed.
unfoldable pub redo : ℕ → (ℕ → ℕ) → (ℕ → Block) → (ℕ → Block) → ℕ → ℕ → Block
redo start sector logged base zero s = base s
redo start sector logged base (suc n) s =
    if sector n == s then logged (start + n + 1) else redo start sector logged base n s

-- The writes of install_trans, the last one first.
unfoldable pub installs : Log → (ℕ → Block) → ℕ → List (ℕ × ℕ × Block)
installs l logged zero = []
installs l logged (suc n) = (l.dev, l.sector n, logged (l.start + n + 1)) ∷ installs l logged n

-- The disk after some writes, the last one first.
unfoldable pub replay : (ℕ → ℕ → Block) → List (ℕ × ℕ × Block) → ℕ → ℕ → Block
replay disk [] = disk
replay disk (w ∷ ws) = update (replay disk ws) w.0 (update (replay disk ws w.0) w.1 w.2)

module _ (start : ℕ) (sector : ℕ → ℕ) (logged : ℕ → Block) where
  pub redo_of_unlogged :
      (base : ℕ → Block) (n s : ℕ)
      → ((i : ℕ) → i < n → sector i ≢ s)
      → redo start sector logged base n s ≡ base s
  unfolding redo
  redo_of_unlogged base zero s h = refl
  redo_of_unlogged base (suc n) s h =
      let away = h n (omega arith) in
      ground (arith, redo_of_unlogged base n s (λ i p. h i (omega arith)))

  -- The log names the sector, and what it held does not matter; or the log does not name it.
  pub redo-cases :
      (n s : ℕ)
      → ((base base' : ℕ → Block)
          → redo start sector logged base n s ≡ redo start sector logged base' n s)
        ⊎ ((i : ℕ) → i < n → sector i ≢ s)
  unfolding redo
  redo-cases zero s = inr (λ i p. absurd (omega arith))
  redo-cases (suc n) s = elim (Bool-cases (sector n == s)) [
    | inl last ↦ inl (λ base base'. rw last refl)
    | inr other ↦ elim (redo-cases n s) [
      | inl forgets ↦ inl (λ base base'. rw other (forgets base base'))
      | inr none ↦ inr (λ i p e. elim (Bool-cases (i == n)) [
        | inl same ↦ ground arith
        | inr below ↦ none i (ground arith) e
      ])
    ]
  ]

  -- A log that is installed again after a part of it was.
  pub redo-redo :
      (base : ℕ → Block) (j n s : ℕ)
      → j ≤ n
      → redo start sector logged (redo start sector logged base j) n s
        ≡ redo start sector logged base n s
  redo-redo base j n s le = elim (redo-cases n s) [
    | inl forgets ↦ forgets _ _
    | inr none ↦
        redo_of_unlogged _ n s none
        ∙ redo_of_unlogged base j s (λ i p. none i (omega arith))
        ∙ sym (redo_of_unlogged base n s none)
  ]

pub redo-congr :
    (start : ℕ) (sector sector' : ℕ → ℕ) (logged logged' base base' : ℕ → Block) (n s : ℕ)
    → ((i : ℕ) → i < n → sector i ≡ sector' i)
    → ((i : ℕ) → i < n → logged (start + i + 1) ≡ logged' (start + i + 1))
    → base s ≡ base' s
    → redo start sector logged base n s ≡ redo start sector' logged' base' n s
unfolding redo
redo-congr start sector sector' logged logged' base base' zero s h g e = e
redo-congr start sector sector' logged logged' base base' (suc n) s h g e =
    rw (h n (omega arith), g n (omega arith))
      (ap (λ (r : Block). if sector' n == s then logged' (start + n + 1) else r)
        (redo-congr start sector sector' logged logged' base base' n s (λ i p. h i (omega arith))
          (λ i p. g i (omega arith)) e))

-- The log is not in its own way.
pub redo-elsewhere :
    (l : Log) (logged base : ℕ → Block) (n s : ℕ)
    → IsPlaced l
    → n ≤ l.n
    → ¬ (Home l s)
    → redo l.start l.sector logged base n s ≡ base s
redo-elsewhere l logged base n s p le out =
    redo_of_unlogged l.start l.sector logged base n s
      (λ i q e. out (subst (Home l) e (p.homes i (omega arith))))

pub replay-installs :
    (l : Log) (logged : ℕ → Block) (disk : ℕ → ℕ → Block) (ws : List (ℕ × ℕ × Block)) (n s : ℕ)
    → replay disk (installs l logged n ++ ws) l.dev s
      ≡ redo l.start l.sector logged (replay disk ws l.dev) n s
unfolding redo installs replay
replay-installs l logged disk ws zero s = refl
replay-installs l logged disk ws (suc n) s = ground (arith, replay-installs l logged disk ws n s)

-- The header that write_head makes is read back.
write_sectors-n :
    (bytes : Block) (sector : ℕ → ℕ) (k : ℕ)
    → read_word (write_sectors bytes sector k) 0 ≡ read_word bytes 0
unfolding write_sectors
write_sectors-n bytes sector zero = refl
write_sectors-n bytes sector (suc k) =
    read_word-write_word_ne (write_sectors bytes sector k) (4 + 4 * k) 0 (sector k)
      (inr (omega arith))
    ∙ write_sectors-n bytes sector k

write_sectors-sector :
    (bytes : Block) (sector : ℕ → ℕ) (k i : ℕ)
    → i < k
    → sector i < 2 ^ 32
    → read_word (write_sectors bytes sector k) (4 + 4 * i) ≡ sector i
unfolding write_sectors
write_sectors-sector bytes sector zero i h w = absurd (omega arith)
write_sectors-sector bytes sector (suc k) i h w = elim (Bool-cases (i == k)) [
  | inl same ↦
      let e : i ≡ k = ground arith in
      rw e
        (read_word-write_word (write_sectors bytes sector k) (4 + 4 * k) (sector k) (rw (sym e) w))
  | inr other ↦
      let lt : i < k = ground arith in
      read_word-write_word_ne (write_sectors bytes sector k) (4 + 4 * k) (4 + 4 * i) (sector k)
        (inr (omega arith))
      ∙ write_sectors-sector bytes sector k i lt w
]

read_sectors-sector :
    (bytes : Block) (sector : ℕ → ℕ) (k i : ℕ)
    → i < k
    → read_sectors bytes sector k i ≡ read_word bytes (4 + 4 * i)
unfolding read_sectors
read_sectors-sector bytes sector zero i h = absurd (omega arith)
read_sectors-sector bytes sector (suc k) i h = elim (Bool-cases (k == i)) [
  | inl same ↦ let e : k ≡ i = ground arith in rw same (ap (λ m. read_word bytes (4 + 4 * m)) e)
  | inr other ↦ rw other (read_sectors-sector bytes sector k i (ground arith))
]

pub header-n : (l : Log) (bytes : Block) → l.n < 2 ^ 32 → read_word (header l bytes) 0 ≡ l.n
unfolding header
header-n l bytes h =
    write_sectors-n (write_word bytes 0 l.n) l.sector (rounds l.n)
    ∙ read_word-write_word bytes 0 l.n h

pub header-sector :
    (l : Log) (bytes : Block) (sector : ℕ → ℕ) (i : ℕ)
    → l.n < 2 ^ 31
    → i < l.n
    → l.sector i < 2 ^ 32
    → read_sectors (header l bytes) sector (rounds l.n) i ≡ l.sector i
unfolding header
header-sector l bytes sector i small lt w =
    let all : rounds l.n ≡ l.n = ground arith in
    rw all (
      read_sectors-sector _ sector l.n i lt
      ∙ write_sectors-sector (write_word bytes 0 l.n) l.sector l.n i lt w)
