-- ===== src/Fs/Path/Walk.antt =====
-- namex goes down the names of the path, and comes to an end.
use os_project_signal.Prelude.{
  ℕ, zero, suc, ◌<◌, ◌≡◌, inl, inr, refl, Bool, List, [], ◌∷◌, arith, Option, some, length,
}
use os_project_signal.Fs.Result.{Result, ok, sleeps, panics, ◌>>=◌}
use os_project_signal.Fs.Path.{
  is_empty, Inodes, Found, Round, returns, goes_on, namex_step, namex_end, namex_loop, namex_start,
  namex, after_round, from_start,
}
use os_project_signal.Fs.Path.Elems.{elems, skipelem-cases}

abbrev pub walk_on :
    (i : Inodes) → Result (Round i) → (ℕ → i.St → Result (Found i)) → Result (Found i)
walk_on i (ok (returns found)) next = ok found
walk_on i (ok (goes_on subdir s)) next = next subdir s
walk_on i sleeps next = sleeps
walk_on i panics next = panics

-- A walk down a list of names, the last of which is the last of the path.
unfoldable pub walk : (i : Inodes) → i.St → Bool → ℕ → List (List ℕ) → List ℕ → Result (Found i)
walk i s parent ip [] name = namex_end i s parent ip name
walk i s parent ip (elem ∷ elems) name =
    walk_on i (namex_step i s parent ip (is_empty elems) elem)
      (λ subdir s'. walk i s' parent subdir elems elem)

after_round-walk_on :
    (i : Inodes) (r : Result (Round i)) (loop : ℕ → i.St → Option (Result (Found i)))
    (rest : ℕ → i.St → Result (Found i))
    → ((ip : ℕ) (s : i.St) → loop ip s ≡ some (rest ip s))
    → after_round i r loop ≡ some (walk_on i r rest)
after_round-walk_on i (ok (returns found)) loop rest e = refl
after_round-walk_on i (ok (goes_on subdir s)) loop rest e = e subdir s
after_round-walk_on i sleeps loop rest e = refl
after_round-walk_on i panics loop rest e = refl

from_start-bind :
    (i : Inodes) (r : Result (ℕ × i.St)) (loop : ℕ → i.St → Option (Result (Found i)))
    (rest : ℕ → i.St → Result (Found i))
    → ((ip : ℕ) (s : i.St) → loop ip s ≡ some (rest ip s))
    → from_start i r loop ≡ some (r >>= λ x. rest x.0 x.1)
from_start-bind i (ok (ip, s)) loop rest e = e ip s
from_start-bind i sleeps loop rest e = refl
from_start-bind i panics loop rest e = refl

pub namex_loop-walk :
    (i : Inodes) (fuel : ℕ) (s : i.St) (parent : Bool) (ip : ℕ) (path name : List ℕ)
    → length path < fuel
    → namex_loop i fuel s parent ip path name ≡ some (walk i s parent ip (elems path) name)
unfolding namex_loop walk
namex_loop-walk i zero s parent ip path name h = absurd (omega arith)
namex_loop-walk i (suc fuel) s parent ip path name h = elim (skipelem-cases path) [
  | inl (e, no_names) ↦ rw (e, no_names) refl
  | inr (rest, elem, e, skipped) ↦
      rw (e, skipped.first, skipped.last)
        (after_round-walk_on i (namex_step i s parent ip (is_empty (elems rest)) elem) _ _
          (λ subdir s'.
            namex_loop-walk i fuel s' parent subdir rest elem
              (let shorter = skipped.shorter in omega arith)))
]

-- namex comes to an end within one round more than the path has characters, whatever the inodes do,
-- and does what the walk down the list of the names of the path does.
pub namex-walk :
    (i : Inodes) (fuel : ℕ) (s : i.St) (path : List ℕ) (parent : Bool)
    → length path < fuel
    → namex i fuel s path parent
      ≡ some (do (ip, s) ← namex_start i s path; walk i s parent ip (elems path) [])
unfolding namex
namex-walk i fuel s path parent h =
    from_start-bind i (namex_start i s path) _ _
      (λ ip s'. namex_loop-walk i fuel s' parent ip path [] h)
