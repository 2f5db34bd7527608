-- ===== src/Fs/Inode/Grow.antt =====
-- A file of kern/fs/inode.c that inode_write makes longer.
use os_project_signal.Prelude.{
  true, false, ℕ, ◌+◌, ◌^◌, ◌≤◌, ◌<◌, ◌≡◌, ◌≢◌, inl, inr, refl, false, ◌&&◌, arith, ltb,
  if◌then◌else◌, Bool-cases,
}
use os_project_signal.Fs.Cache.{Block}
use os_project_signal.Fs.Log.{Log}
use os_project_signal.Fs.Log.Redo.{Home}
use os_project_signal.Fs.Inode.{Inode, iblock, ndirect, t_dev}
use os_project_signal.Fs.Inode.Read.{block_at}
use os_project_signal.Fs.Inode.Layout.{IsFile}

-- The sector of the inode is neither in the log nor a block of the file.
pub record IsHoused (g : Log) (now : ℕ → Block) (x : Inode) (nb : ℕ) : Type 0 where
  pub dev : x.dev ≡ g.dev
  pub word : x.inum < 2 ^ 32
  pub home : Home g (iblock x.inum)
  pub apart : (i : ℕ) → i < nb → block_at now x.addrs i ≢ iblock x.inum
  pub indirect : ndirect < nb → x.addrs ndirect ≢ iblock x.inum
  pub file : IsFile g now x.addrs nb
  pub plain : x.type_ ≢ t_dev

-- The inode after a write of `n` bytes at `off`.
abbrev pub grown : Inode → ℕ → ℕ → Inode
grown x off n = if ltb 0 n && ltb x.size (off + n) then record x { size = off + n } else x

pub grown-dev : (x : Inode) (off n : ℕ) → (grown x off n).dev ≡ x.dev
grown-dev x off n = elim (Bool-cases (ltb 0 n && ltb x.size (off + n))) [
  | inl grows ↦ rw grows refl
  | inr stays ↦ rw stays refl
]

pub grown-addrs : (x : Inode) (off n : ℕ) → (grown x off n).addrs ≡ x.addrs
grown-addrs x off n = elim (Bool-cases (ltb 0 n && ltb x.size (off + n))) [
  | inl grows ↦ rw grows refl
  | inr stays ↦ rw stays refl
]

pub grown-type : (x : Inode) (off n : ℕ) → (grown x off n).type_ ≡ x.type_
grown-type x off n = elim (Bool-cases (ltb 0 n && ltb x.size (off + n))) [
  | inl grows ↦ rw grows refl
  | inr stays ↦ rw stays refl
]

pub grown-size : (x : Inode) (off n : ℕ) → off ≤ x.size → off + n ≤ (grown x off n).size
grown-size x off n le = elim (Bool-cases (ltb 0 n && ltb x.size (off + n))) [
  | inl grows ↦ rw grows (omega arith)
  | inr stays ↦ rw stays (ground arith)
]

pub grown-busy : (x : Inode) (off n : ℕ) → (grown x off n).busy ≡ x.busy
grown-busy x off n = elim (Bool-cases (ltb 0 n && ltb x.size (off + n))) [
  | inl grows ↦ rw grows refl
  | inr stays ↦ rw stays refl
]

pub grown-ref : (x : Inode) (off n : ℕ) → (grown x off n).ref ≡ x.ref
grown-ref x off n = elim (Bool-cases (ltb 0 n && ltb x.size (off + n))) [
  | inl grows ↦ rw grows refl
  | inr stays ↦ rw stays refl
]

-- Unlocking forgets that the inode was locked.
pub grown-locked :
    (x : Inode) (off n : ℕ)
    → x.busy ≡ false
    → (let y : Inode = record (grown (record x { busy = true }) off n) { busy = false } in y)
      ≡ record (grown x off n) { busy = false }
grown-locked x off n idle = elim (Bool-cases (ltb 0 n && ltb x.size (off + n))) [
  | inl grows ↦ rw grows refl
  | inr stays ↦ rw stays refl
]
