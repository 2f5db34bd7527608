-- ===== src/Console.antt =====
-- The input buffer of kern/dev/console.c. A device gives its characters as a list, up to the -1.
-- The lock of the console is held from the start of each function to the end.
pub mod Fifo
use os_project_signal.Prelude.{
  ℕ, suc, ◌+◌, ◌%◌, ◌≡◌, Bool, List, [], ◌∷◌, arith, ◌==◌, if◌then◌else◌, update,
}

abbrev pub console_buffer_size : ℕ
console_buffer_size = 512

pub record Cons : Type 0 where
  pub buf : ℕ → ℕ
  pub rpos : ℕ
  pub wpos : ℕ

-- The next place of the ring.
abbrev pub next_pos : ℕ → ℕ
next_pos p = if p + 1 == console_buffer_size then 0 else p + 1

-- A round of the loop of cons_intr: the buffer has characters of one byte.
unfoldable pub put_char : Cons → ℕ → Cons
put_char s c =
    if c == 0 then s else record s { buf = update s.buf s.wpos (c % 256); wpos = next_pos s.wpos }

unfoldable pub cons_intr : Cons → List ℕ → Cons
cons_intr s [] = s
cons_intr s (c ∷ cs) = cons_intr (put_char s c) cs

-- cons_getc after it has polled the devices.
unfoldable pub take_char : Cons → ℕ × Cons
take_char s =
    if s.rpos == s.wpos then (0, s) else (s.buf s.rpos, record s { rpos = next_pos s.rpos })

unfoldable pub cons_getc : Cons → List ℕ → List ℕ → ℕ × Cons
cons_getc s serial keyboard = take_char (cons_intr (cons_intr s serial) keyboard)
