-- ===== src/Thread/Queue/Chain.antt =====
-- Doubly linked chains in the pool, and what keeps them.
use os_project_signal.Prelude.{
  ℕ, ◌<◌, ◌≡◌, ◌≢◌, refl, Bool, true, false, ◌||◌, List, [], ◌∷◌, ◌++◌, arith, ◌==◌, if◌then◌else◌,
  mem, Distinct, head_or, last_or, mem-append, mem-last_or, ==-false, sym, ◌∙◌,
}
use os_project_signal.Pmm.Container.{num_ids}
use os_project_signal.Thread.Tcb.{Tcb}

-- From the predecessor `p`, the blocks `xs` are linked both ways, and the last one ends the chain.
abbrev pub Chain : (ℕ → Tcb) → ℕ → List ℕ → Type 0
Chain f p [] = Unit {0}
Chain f p (x ∷ xs) =
    (x < num_ids) × ((f x).prev ≡ p) × ((f x).next ≡ head_or xs num_ids) × Chain f x xs

-- A chain lives in the links of its own blocks.
pub Chain-frame :
    (f g : ℕ → Tcb) (p : ℕ) (xs : List ℕ)
    → ((a : ℕ) → mem a xs ≡ true → ((g a).prev ≡ (f a).prev) × ((g a).next ≡ (f a).next))
    → Chain f p xs
    → Chain g p xs
Chain-frame f g p [] same c = tt
Chain-frame f g p (x ∷ xs) same c =
    ground (arith, same x, Chain-frame f g x xs (λ a i. same a (ground arith)))

pub mem-Chain-lt :
    (f : ℕ → Tcb) (p a : ℕ) (xs : List ℕ) → Chain f p xs → mem a xs ≡ true → a < num_ids
mem-Chain-lt f p a [] c i = cc
mem-Chain-lt f p a (x ∷ xs) c i = ground (arith, mem-Chain-lt f x a xs)

pub mem-num_ids : (f : ℕ → Tcb) (p : ℕ) (xs : List ℕ) → Chain f p xs → mem num_ids xs ≡ false
mem-num_ids f p [] c = refl
mem-num_ids f p (x ∷ xs) c = ground (arith, mem-num_ids f x xs)

-- `g` is `f` with `pid` linked behind `last`.
pub Chain-snoc :
    (f g : ℕ → Tcb) (pid p x : ℕ) (xs : List ℕ)
    → pid < num_ids
    → mem pid (x ∷ xs) ≡ false
    → Distinct (x ∷ xs)
    → ((a : ℕ) → a ≢ pid → (g a).prev ≡ (f a).prev)
    → ((a : ℕ) → a ≢ pid → a ≢ last_or xs x → (g a).next ≡ (f a).next)
    → (g (last_or xs x)).next ≡ pid
    → (g pid).prev ≡ last_or xs x
    → (g pid).next ≡ num_ids
    → Chain f p (x ∷ xs)
    → Chain g p ((x ∷ xs) ++ (pid ∷ []))
Chain-snoc f g pid p x [] lt out d hp hn e1 e2 e3 c = ground (arith, hp x)
Chain-snoc f g pid p x (y ∷ ys) lt out d hp hn e1 e2 e3 c = ground (
  arith,
  hp x,
  hn x,
  mem-last_or y ys,
  Chain-snoc f g pid x y ys lt (ground arith) d.1 hp hn e1 e2 e3 c.3,
)

-- `g` is `f` with the blocks on the two sides of `pid`, `p` and `n`, linked to one another.
pub record Relinked (f g : ℕ → Tcb) (pid p n : ℕ) : Type 0 where
  pub prevs : (a : ℕ) → a ≢ pid → a < num_ids → (g a).prev ≡ (if a == n then p else (f a).prev)
  pub nexts : (a : ℕ) → a ≢ pid → a < num_ids → (g a).next ≡ (if a == p then n else (f a).next)

pub ne_of_mem : (a b : ℕ) (xs : List ℕ) → mem a xs ≡ true → mem b xs ≡ false → a ≢ b
ne_of_mem a b xs i o e = cc

module _ (f g : ℕ → Tcb) (pid p n : ℕ) (r : Relinked f g pid p n) (a : ℕ) (apart : a ≢ pid)
    (lt : a < num_ids) where
  prev-far : a ≢ n → (g a).prev ≡ (f a).prev
  prev-far ne = rw (r.prevs a apart lt, ==-false a n ne)

  next-far : a ≢ p → (g a).next ≡ (f a).next
  next-far ne = rw (r.nexts a apart lt, ==-false a p ne)

  prev-near : a ≡ n → (g a).prev ≡ p
  prev-near e = rw (r.prevs a apart lt) (ground arith)

  next-near : a ≡ p → (g a).next ≡ n
  next-near e = rw (r.nexts a apart lt) (ground arith)

or_false : (a b : Bool) → (a || b) ≡ false → (a ≡ false) × (b ≡ false)
or_false a b h = ground arith

ne_of_cons : (a x : ℕ) (xs : List ℕ) → mem a (x ∷ xs) ≡ false → (a ≢ x) × (mem a xs ≡ false)
ne_of_cons a x xs h = ground arith

pub Chain-tail :
    (f g : ℕ → Tcb) (pid q : ℕ) (bs : List ℕ)
    → mem pid bs ≡ false
    → mem q bs ≡ false
    → Distinct bs
    → Relinked f g pid q (head_or bs num_ids)
    → Chain f pid bs
    → Chain g q bs
Chain-tail f g pid q [] out out' d r c = tt
Chain-tail f g pid q (b ∷ bs) out out' d r c =
    let (ne, out₁) = ne_of_cons pid b bs out in
    let (ne', out₂) = ne_of_cons q b bs out' in
    (
      c.0,
      prev-near f g pid q b r b (λ e. ne (sym e)) c.0 refl,
      next-far f g pid q b r b (λ e. ne (sym e)) c.0 (λ e. ne' (sym e)) ∙ c.2,
      Chain-frame f g b bs
          (λ a i.
            let lt = mem-Chain-lt f b a bs c.3 i in
            let apart = ne_of_mem a pid bs i out₁ in
            (
              prev-far f g pid q b r a apart lt (ne_of_mem a b bs i d.0),
              next-far f g pid q b r a apart lt (ne_of_mem a q bs i out₂),
            ))
          c.3,
    )

head_or-ne : (x : ℕ) (bs : List ℕ) → x < num_ids → mem x bs ≡ false → x ≢ head_or bs num_ids
head_or-ne x [] lt out = omega arith
head_or-ne x (b ∷ bs) lt out = ground arith

-- Taking `pid` out of the middle, for any number of blocks before it.
pub Chain-erase :
    (f g : ℕ → Tcb) (pid q : ℕ) (xs bs : List ℕ)
    → mem q (xs ++ (pid ∷ bs)) ≡ false
    → Distinct (xs ++ (pid ∷ bs))
    → Relinked f g pid (last_or xs q) (head_or bs num_ids)
    → Chain f q (xs ++ (pid ∷ bs))
    → Chain g q (xs ++ bs)
Chain-erase f g pid q [] bs out d r c = Chain-tail f g pid q bs d.0 (ground arith) d.1 r c.3
Chain-erase f g pid q (x ∷ []) bs out d r c =
    let (ne, apart) = ne_of_cons x pid bs d.0 in
    (
      c.0,
      prev-far f g pid x (head_or bs num_ids) r x ne c.0 (head_or-ne x bs c.0 apart) ∙ c.1,
      next-near f g pid x (head_or bs num_ids) r x ne c.0 refl,
      Chain-erase f g pid x [] bs d.0 d.1 r c.3,
    )
Chain-erase f g pid q (x ∷ y ∷ ys) bs out d r c =
    let (ne, apart, far) = cons_apart x y ys bs d.0 in
    (
      c.0,
      prev-far f g pid (last_or ys y) (head_or bs num_ids) r x ne c.0 (head_or-ne x bs c.0 apart)
          ∙ c.1,
      next-far f g pid (last_or ys y) (head_or bs num_ids) r x ne c.0 far ∙ c.2,
      Chain-erase f g pid x (y ∷ ys) bs d.0 d.1 r c.3,
    )
  where
    cons_apart :
        (x y : ℕ) (ys bs : List ℕ)
        → mem x ((y ∷ ys) ++ (pid ∷ bs)) ≡ false
        → (x ≢ pid) × (mem x bs ≡ false) × (x ≢ last_or ys y)
    cons_apart x y ys bs o =
        let o' = or_false _ _ (sym (mem-append x (y ∷ ys) (pid ∷ bs)) ∙ o) in
        let (ne, apart) = ne_of_cons x pid bs o'.1 in
        (ne, apart, λ e. ne_of_mem (last_or ys y) x (y ∷ ys) (mem-last_or y ys) o'.0 (sym e))
