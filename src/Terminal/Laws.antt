-- ===== src/Terminal/Laws.antt =====
-- What terminal.c stores and prints.
use linux_os.Base.{
  ℕ, suc, ◌+◌, ◌*◌, ◌≤◌, ◌<◌, ◌≡◌, inl, inr, refl, ap, ◌∙◌, none, some, List, [], ◌∷◌, ◌++◌, arith,
  ltb, ◌==◌, if◌then◌else◌, Bool-cases, update, update_self, length,
}
use linux_os.Base.Int.{pos, ltb_ℤ}
use linux_os.Console.{Console, putc}
use linux_os.Keyboard.{Keyboard, term_size}
use linux_os.Terminal.{terminal_write, copy_in, print_buffer, term_buffer_size}

-- Printing a list of bytes without its zeros.
unfoldable pub print_bytes : List ℕ → Console → Console
print_bytes [] s = s
print_bytes (c ∷ cs) s = print_bytes cs (if c == 0 then s else putc c s)

pub print_bytes-append :
    (before bs : List ℕ) (s : Console)
    → print_bytes (before ++ bs) s ≡ print_bytes bs (print_bytes before s)
unfolding print_bytes
print_bytes-append [] bs s = refl
print_bytes-append (c ∷ before) bs s = print_bytes-append before bs (if c == 0 then s else putc c s)

pub stored : List ℕ → ℕ → (ℕ → ℕ) → ℕ → ℕ
stored [] a m = m
stored (c ∷ cs) a m = stored cs (suc a) (update m a c)

pub copy_in-append :
    (bs rest : List ℕ) (a : ℕ) (m : ℕ → ℕ)
    → copy_in (length bs) a (bs ++ rest) m ≡ some (stored bs a m)
unfolding stored
copy_in-append [] rest a m = refl
copy_in-append (c ∷ bs) rest a m = copy_in-append bs rest (suc a) (update m a c)

stored-below : (bs : List ℕ) (a i : ℕ) (m : ℕ → ℕ) → i < a → stored bs a m i ≡ m i
unfolding stored
stored-below [] a i m h = refl
stored-below (c ∷ bs) a i m h = ground (arith, stored-below bs (suc a) i (update m a c))

-- The memory from an address on begins with the bytes.
abbrev pub Holds : (ℕ → ℕ) → ℕ → List ℕ → Type 0
Holds m a [] = Unit
Holds m a (c ∷ cs) = (m a ≡ c) × Holds m (suc a) cs

Holds-stored : (bs : List ℕ) (a : ℕ) (m : ℕ → ℕ) → Holds (stored bs a m) a bs
unfolding stored
Holds-stored [] a m = tt
Holds-stored (c ∷ bs) a m = (
  stored-below bs (suc a) a (update m a c) (omega arith) ∙ update_self m a c,
  Holds-stored bs (suc a) (update m a c),
)

Holds-update :
    (bs : List ℕ) (a i v : ℕ) (m : ℕ → ℕ)
    → a + length bs ≤ i
    → Holds m a bs
    → Holds (update m i v) a bs
Holds-update [] a i v m h held = tt
Holds-update (c ∷ bs) a i v m h held =
    (ground arith, Holds-update bs (suc a) i v m (omega arith) held.1)

print_buffer-Holds :
    (bs : List ℕ) (a : ℕ) (m : ℕ → ℕ) (s : Console)
    → Holds m a bs
    → print_buffer (length bs) a m s ≡ print_bytes bs s
unfolding print_buffer print_bytes
print_buffer-Holds [] a m s held = refl
print_buffer-Holds (c ∷ bs) a m s held =
    print_buffer-Holds bs (suc a) m (if m a == 0 then s else putc (m a) s) held.1
    ∙ ap (λ (d : ℕ). print_bytes bs (if d == 0 then s else putc d s)) held.0

-- The number of bytes that a write copies.
abbrev copied_bytes : ℕ → ℕ
copied_bytes n = if ltb_ℤ (pos n) (pos term_size) then n else term_size

-- A write whose bytes and zero fit into the array prints the bytes, and stores the zero behind them.
terminal_write-copied :
    (bs rest : List ℕ) (n : ℕ) (k : Keyboard) (s : Console)
    → 1 ≤ n
    → copied_bytes n ≡ length bs
    → term_size * s.active_term + length bs < term_buffer_size
    → (k' : Keyboard) × (terminal_write (some (bs ++ rest)) (pos n) (k, s)
        ≡ some (pos n, (k', print_bytes bs s)))
      × (k'.term_buffer (term_size * s.active_term + length bs) ≡ 0)
unfolding terminal_write
terminal_write-copied bs rest n k s some_bytes limit fits = (
  record k { term_buffer = ended },
  ground (
    arith,
    limit,
    copy_in-append bs rest start k.term_buffer,
    print_buffer-Holds bs start ended s held,
  ),
  update_self (stored bs start k.term_buffer) (start + length bs) 0,
)
  where
    start : ℕ
    start = term_size * s.active_term

    ended : ℕ → ℕ
    ended = update (stored bs start k.term_buffer) (start + length bs) 0

    held : Holds ended start bs
    held =
        Holds-update bs start (start + length bs) 0 (stored bs start k.term_buffer) (omega arith)
          (Holds-stored bs start k.term_buffer)

-- A write of 1 to 2050 bytes prints exactly these bytes, without the zeros, on the active terminal,
-- and returns their number; what follows them in the caller's memory is neither read nor printed. The
-- active terminal is one of the three, and on the third the bytes are at most 2049.
pub terminal_write-prints :
    (bs rest : List ℕ) (k : Keyboard) (s : Console)
    → 1 ≤ length bs
    → length bs ≤ term_size
    → term_size * s.active_term + length bs < term_buffer_size
    → (k' : Keyboard) × (terminal_write (some (bs ++ rest)) (pos (length bs)) (k, s)
        ≡ some (pos (length bs), (k', print_bytes bs s)))
terminal_write-prints bs rest k s some_bytes small fits =
    let (k', run, ended) =
      terminal_write-copied bs rest (length bs) k s some_bytes (ground arith) fits in
    (k', run)

terminal_write-behind :
    (bs rest : List ℕ) (n : ℕ) (k : Keyboard) (s : Console)
    → term_size ≤ n
    → length bs ≡ term_size
    → term_buffer_size ≤ term_size * s.active_term + length bs
    → terminal_write (some (bs ++ rest)) (pos n) (k, s) ≡ none
unfolding terminal_write
terminal_write-behind bs rest n k s big full behind =
    let copied = copy_in-append bs rest (term_size * s.active_term) k.term_buffer in
    let limit : copied_bytes n ≡ length bs = ground arith in ground (arith, copied, limit)

-- A write of 2050 bytes or more on the first or the second terminal returns the whole count, prints
-- the first 2050 bytes without the zeros, and stores a zero in the first byte of the next terminal's
-- buffer; on the third terminal that zero falls behind the array, a fault.
pub terminal_write-overflow :
    (bs rest : List ℕ) (n : ℕ) (k : Keyboard) (s : Console)
    → term_size ≤ n
    → length bs ≡ term_size
    → s.active_term < 3
    → (k' : Keyboard) × (terminal_write (some (bs ++ rest)) (pos n) (k, s)
        ≡ (if ltb s.active_term 2 then some (pos n, (k', print_bytes bs s)) else none))
      × (k'.term_buffer (term_size * (s.active_term + 1)) ≡ 0)
terminal_write-overflow bs rest n k s big full one_of_three =
    elim (Bool-cases (ltb s.active_term 2)) [
      | inl next ↦
          let (k', run, ended) =
            terminal_write-copied bs rest n k s (omega arith) (ground arith) (ground arith) in
          (k', rw next run, ap k'.term_buffer (omega arith) ∙ ended)
      | inr last ↦ (
        record k { term_buffer = λ i. 0 },
        rw last (terminal_write-behind bs rest n k s big full (ground arith)),
        refl,
      )
    ]
