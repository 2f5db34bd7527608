-- ===== src/Fs/Cache/Fresh.antt =====
-- The cache after bufcache_init.
use os_project_signal.Prelude.{ℕ, ◌≡◌, ◌≢◌, refl, arith, ltb, mem}
use os_project_signal.Fs.Cache.{Block, nbuf, down_from, bufcache_init}
use os_project_signal.Fs.Cache.Inv.{unset, IsCache, view, view-miss}
use os_project_signal.Fs.Cache.Copy.{IsCalm}

down_from-mem : (b : ℕ) → mem b (down_from nbuf) ≡ ltb b nbuf
down_from-mem b = ground arith

pub bufcache_init-IsCache : (disk : ℕ → ℕ → Block) → IsCache (bufcache_init disk)
unfolding bufcache_init
bufcache_init-IsCache disk = record {
  listed = λ b m. let e = down_from-mem b in ground arith;
  complete = λ b p. let e = down_from-mem b in ground arith;
  distinct = (refl, (refl, (refl, (refl, (refl, (refl, (refl, (refl, (refl, (refl, tt))))))))));
  unique = λ a b p q e e' u. absurd (u refl);
  dirty_valid = λ b p e. absurd (ground arith);
  coherent = λ b p e d u. absurd (ground arith);
}

pub bufcache_init-IsCalm : (disk : ℕ → ℕ → Block) → IsCalm (bufcache_init disk)
unfolding bufcache_init
bufcache_init-IsCalm disk = record {
  inv = bufcache_init-IsCache disk;
  idle = λ j. refl;
  spare = (0, 1, omega arith, omega arith, omega arith, refl, refl);
}

-- A reader sees the disk.
pub view-bufcache_init :
    (disk : ℕ → ℕ → Block) (dev sector : ℕ)
    → dev ≢ unset
    → view (bufcache_init disk) dev sector ≡ disk dev sector
unfolding bufcache_init
view-bufcache_init disk dev sector set =
    view-miss (bufcache_init disk) (bufcache_init-IsCache disk) dev sector set (λ b h. refl)
