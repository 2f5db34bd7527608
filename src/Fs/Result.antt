-- ===== src/Fs/Result.antt =====
-- How an operation of the file system ends.
use os_project_signal.Prelude.{Bool, true, false}

-- `sleeps`: the caller waits in thread_sleep for a lock that some process holds, and has not come
-- back. `panics`: KERN_PANIC.
pub data Result {ℓ} (A : Type ℓ) : Type ℓ where
  ok : A → Result A
  sleeps panics : Result A

infixl 5 ◌>>=◌ ◌>>◌
abbrev pub ◌>>=◌ {ℓ κ} : {A : Type ℓ} {B : Type κ} → Result A → (A → Result B) → Result B
ok a >>= f = f a
sleeps >>= f = sleeps
panics >>= f = panics

abbrev pub ◌>>◌ {ℓ} : {B : Type ℓ} → Result (Unit {0}) → Result B → Result B
m >> k = m >>= λ _. k

abbrev pub assert : Bool → Result (Unit {0})
assert true = ok tt
assert false = panics
