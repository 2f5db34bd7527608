-- ===== src/Console/Fifo.antt =====
-- The input buffer of the console is a queue.
use os_project_signal.Prelude.{
  ℕ, zero, suc, ◌+◌, ◌-◌, ◌%◌, ◌<◌, ◌≡◌, ◌≢◌, ◌⊎◌, inl, inr, refl, sym, ap, subst, ◌∙◌, true, false,
  List, [], ◌∷◌, ◌++◌, length, length-append, arith, ◌==◌, if◌then◌else◌, Bool-cases, ==_refl,
  ==-false,
}
use os_project_signal.Console.{
  Cons, console_buffer_size, next_pos, put_char, cons_intr, take_char, cons_getc,
}

-- Character `i` of a list.
abbrev pub char_at : List ℕ → ℕ → ℕ
char_at [] i = 0
char_at (x ∷ xs) zero = x
char_at (x ∷ xs) (suc i) = char_at xs i

-- The ring holds the list `q`, the oldest character first.
pub record IsFifo (s : Cons) (q : List ℕ) : Type 0 where
  pub read : s.rpos < console_buffer_size
  pub few : length q < console_buffer_size
  pub write : s.wpos ≡ (s.rpos + length q) % console_buffer_size
  pub holds : (i : ℕ) → i < length q → s.buf ((s.rpos + i) % console_buffer_size) ≡ char_at q i

-- What cons_intr keeps of the characters of a device.
abbrev pub kept_chars : List ℕ → List ℕ
kept_chars [] = []
kept_chars (c ∷ cs) = if c == 0 then kept_chars cs else (c % 256) ∷ kept_chars cs

char_at-last : (q : List ℕ) (c : ℕ) → char_at (q ++ (c ∷ [])) (length q) ≡ c
char_at-last [] c = refl
char_at-last (x ∷ q) c = char_at-last q c

char_at-before : (q : List ℕ) (c i : ℕ) → i < length q → char_at (q ++ (c ∷ [])) i ≡ char_at q i
char_at-before [] c i lt = absurd (omega arith)
char_at-before (x ∷ q) c zero lt = refl
char_at-before (x ∷ q) c (suc i) lt = char_at-before q c i (omega arith)

put_char-IsFifo :
    (s : Cons) (q : List ℕ) (c : ℕ)
    → IsFifo s q
    → c ≢ 0
    → length q + 1 < console_buffer_size
    → IsFifo (put_char s c) (q ++ ((c % 256) ∷ []))
unfolding put_char
put_char-IsFifo s q c h some_char room =
    let ne : (c == 0) ≡ false = ==-false c 0 some_char in
    let long : length (q ++ ((c % 256) ∷ [])) ≡ length q + 1 = length-append q ((c % 256) ∷ []) in
    let r = h.read in
    let w = h.write in
    rw ne (record {
      read = h.read;
      few = omega arith;
      write = ground arith;
      holds = λ i lt. elim (Bool-cases (i == length q)) [
        | inl last ↦
            let e : i ≡ length q = ground arith in
            let spot : (s.wpos == (s.rpos + i) % console_buffer_size) ≡ true =
              ap (λ k. s.wpos == (s.rpos + k) % console_buffer_size) e
              ∙ rw (sym w) (==_refl s.wpos) in
            rw spot (sym (ap (char_at (q ++ ((c % 256) ∷ []))) e ∙ char_at-last q (c % 256)))
        | inr early ↦
            let before : i < length q = ground arith in
            let spot : (s.wpos == (s.rpos + i) % console_buffer_size) ≡ false =
              ==-false _ _ (λ z. omega arith) in
            rw spot (h.holds i before ∙ sym (char_at-before q (c % 256) i before))
      ];
    })

append_assoc : (q r t : List ℕ) → (q ++ r) ++ t ≡ q ++ (r ++ t)
append_assoc [] r t = refl
append_assoc (x ∷ q) r t = ap (λ l. x ∷ l) (append_assoc q r t)

append_nil : (q : List ℕ) → q ++ [] ≡ q
append_nil [] = refl
append_nil (x ∷ q) = ap (λ l. x ∷ l) (append_nil q)

length-kept_chars :
    (c : ℕ) (cs : List ℕ)
    → (c == 0) ≡ false
    → length (kept_chars (c ∷ cs)) ≡ length (kept_chars cs) + 1
length-kept_chars c cs ne = rw ne (omega arith)

skipped : (s : Cons) (c : ℕ) → (c == 0) ≡ true → put_char s c ≡ s
unfolding put_char
skipped s c empty = rw empty refl

pub cons_intr-IsFifo :
    (s : Cons) (q cs : List ℕ)
    → IsFifo s q
    → length q + length (kept_chars cs) < console_buffer_size
    → IsFifo (cons_intr s cs) (q ++ kept_chars cs)
unfolding cons_intr
cons_intr-IsFifo s q [] h room = rw (append_nil q) h
cons_intr-IsFifo s q (c ∷ cs) h room = elim (Bool-cases (c == 0)) [
  | inl empty ↦
      let same : put_char s c ≡ s = skipped s c empty in
      let e : kept_chars (c ∷ cs) ≡ kept_chars cs = rw empty refl in
      rw (same, e) (cons_intr-IsFifo s q cs h (let k = ap length e in omega arith))
  | inr some_char ↦
      let e : kept_chars (c ∷ cs) ≡ (c % 256) ∷ kept_chars cs = rw some_char refl in
      let k = length-kept_chars c cs some_char in
      let h1 = put_char-IsFifo s q c h (λ z. ground arith) (omega arith) in
      let long : length (q ++ ((c % 256) ∷ [])) ≡ length q + 1 = length-append q ((c % 256) ∷ []) in
      rw (e, sym (append_assoc q ((c % 256) ∷ []) (kept_chars cs)))
        (cons_intr-IsFifo (put_char s c) (q ++ ((c % 256) ∷ [])) cs h1 (omega arith))
]

take_char-IsFifo :
    (s : Cons) (q : List ℕ)
    → IsFifo s q
    → ((q ≡ []) × (take_char s ≡ (0, s)))
      ⊎ ((c : ℕ) × (rest : List ℕ) × (s' : Cons) × (q ≡ c ∷ rest)
          × (take_char s ≡ (c, s'))
          × IsFifo s' rest)
unfolding take_char
take_char-IsFifo s [] h =
    let r = h.read in
    let w = h.write in let e : (s.rpos == s.wpos) ≡ true = ground arith in inl (refl, rw e refl)
take_char-IsFifo s (c ∷ rest) h =
    let r = h.read in
    let w = h.write in
    let f = h.few in
    let ne : (s.rpos == s.wpos) ≡ false = ==-false _ _ (λ z. omega arith) in
    let here : s.rpos % console_buffer_size ≡ s.rpos = omega arith in
    let zero_more : s.rpos + 0 ≡ s.rpos = omega arith in
    let first : s.buf s.rpos ≡ c =
      ap s.buf (sym here)
      ∙ ap (λ k. s.buf (k % console_buffer_size)) (sym zero_more)
      ∙ h.holds 0 (omega arith) in
    inr (
      c,
      rest,
      record s { rpos = next_pos s.rpos },
      refl,
      rw (ne, first) refl,
      record {
        read = ground arith;
        few = omega arith;
        write = ground arith;
        holds = λ i lt.
            let e : (next_pos s.rpos + i) % console_buffer_size
                ≡ (s.rpos + suc i) % console_buffer_size =
              ground arith in
            ap s.buf e ∙ h.holds (suc i) (omega arith);
      },
    )

-- While the characters that wait and those of the devices are fewer than 512, cons_getc first puts
-- the characters of the serial line and then those of the keyboard at the end of the queue,
-- without the zeros among them, and then gives the first character of the queue and leaves the
-- rest; it gives 0 when the queue is empty.
pub cons_getc-IsFifo :
    (s : Cons) (q serial keyboard : List ℕ)
    → IsFifo s q
    → length q + length (kept_chars serial) + length (kept_chars keyboard) < console_buffer_size
    → let all = (q ++ kept_chars serial) ++ kept_chars keyboard in
      ((all ≡ []) × ((s' : Cons) × (cons_getc s serial keyboard ≡ (0, s')) × IsFifo s' []))
      ⊎ ((c : ℕ) × (rest : List ℕ) × (s' : Cons) × (all ≡ c ∷ rest)
          × (cons_getc s serial keyboard ≡ (c, s'))
          × IsFifo s' rest)
unfolding cons_getc
cons_getc-IsFifo s q serial keyboard h room =
    let long = length-append q (kept_chars serial) in
    let h1 = cons_intr-IsFifo s q serial h (omega arith) in
    let h2 =
      cons_intr-IsFifo (cons_intr s serial) (q ++ kept_chars serial) keyboard h1 (omega arith) in
    elim (take_char-IsFifo (cons_intr (cons_intr s serial) keyboard)
      ((q ++ kept_chars serial) ++ kept_chars keyboard) h2) [
        | inl (e, gives) ↦
            inl (e, (_, gives, subst (IsFifo (cons_intr (cons_intr s serial) keyboard)) e h2))
        | inr found ↦ inr found
      ]

-- With 511 characters in the ring, one more that is not 0 makes it look empty: cons_getc then
-- gives 0 when the devices have nothing.
pub cons_getc-full :
    (s : Cons) (q : List ℕ) (c : ℕ)
    → IsFifo s q
    → length q ≡ console_buffer_size - 1
    → c ≢ 0
    → cons_getc (cons_intr s (c ∷ [])) [] [] ≡ (0, cons_intr s (c ∷ []))
unfolding cons_getc cons_intr put_char take_char
cons_getc-full s q c h full some_char =
    let ne : (c == 0) ≡ false = ==-false c 0 some_char in
    let r = h.read in
    let w = h.write in let e : (s.rpos == next_pos s.wpos) ≡ true = ground arith in rw (ne, e) refl
