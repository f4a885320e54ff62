-- ===== src/Terminal/Input.antt =====
-- What terminal.c hands to a program that reads a line.
use linux_os.Base.{
  ℕ, zero, suc, ◌+◌, ◌*◌, ◌≤◌, ◌<◌, ◌≡◌, ◌≢◌, refl, ap, ◌∙◌, true, false, some, List, [], ◌∷◌, ◌++◌,
  arith, update, update_self, length, drop,
}
use linux_os.Base.Int.{pos, signed32}
use linux_os.Strings.{strlen}
use linux_os.Console.{Console}
use linux_os.Keyboard.{Keyboard, term_size}
use linux_os.Terminal.{Screen, wait_enter, copy_out, take_input, terminal_read}
use linux_os.Terminal.Laws.{Holds}

-- The `n` bytes of a flat buffer from an address on.
abbrev pub bytes_from : (ℕ → ℕ) → ℕ → ℕ → List ℕ
bytes_from src a zero = []
bytes_from src a (suc n) = src a ∷ bytes_from src (suc a) n

copy_out-bytes_from :
    (n a : ℕ) (src : ℕ → ℕ) (dest : List ℕ)
    → n ≤ length dest
    → copy_out n a src dest ≡ some (bytes_from src a n ++ drop n dest)
copy_out-bytes_from zero a src dest h = refl
copy_out-bytes_from (suc n) a src [] h = absurd (omega arith)
copy_out-bytes_from (suc n) a src (d ∷ dest) h =
    rw (copy_out-bytes_from n (suc a) src dest (omega arith)) refl

-- Bytes without a zero.
abbrev pub IsText : List ℕ → Type 0
IsText [] = Unit
IsText (c ∷ cs) = (c ≢ 0) × IsText cs

strlen-bytes_from :
    (bs : List ℕ) (n a : ℕ) (src : ℕ → ℕ) (rest : List ℕ)
    → Holds src a bs
    → IsText bs
    → src (a + length bs) ≡ 0
    → length bs < n
    → strlen (bytes_from src a n ++ rest) ≡ some (length bs)
unfolding strlen
strlen-bytes_from bs zero a src rest held text end h = absurd (omega arith)
strlen-bytes_from [] (suc n) a src rest held text end h = ground (arith, end)
strlen-bytes_from (c ∷ bs) (suc n) a src rest held text end h = ground (
  arith,
  held.0,
  text.0,
  strlen-bytes_from bs n (suc a) src rest held.1 text.1 (ap src (omega arith) ∙ end) (omega arith),
)

wait_enter-pressed :
    (handlers : List (Screen → Screen)) (k : Keyboard) (s : Console)
    → k.enter_pressed k.visible_term ≡ true
    → wait_enter handlers (k, s) ≡ some (k, s)
unfolding wait_enter
wait_enter-pressed [] k s pressed = rw pressed refl
wait_enter-pressed (handler ∷ handlers) k s pressed = rw pressed refl

-- With Enter pressed on the visible terminal, a read of at most 128 bytes by the active terminal
-- returns the length of the line in its buffer, a text shorter than the count that a zero ends,
-- stores the buffer's bytes up to the count, and leaves the caller's memory after them. It takes the
-- Enter of the active terminal back and empties the line that is typed on the visible one.
-- The caller's memory has room for the count.
pub terminal_read-line :
    (handlers : List (Screen → Screen)) (k : Keyboard) (s : Console) (bs dest : List ℕ) (n : ℕ)
    → k.enter_pressed k.visible_term ≡ true
    → Holds k.term_buffer (term_size * s.active_term) bs
    → IsText bs
    → k.term_buffer (term_size * s.active_term + length bs) ≡ 0
    → length bs < n
    → n ≤ 128
    → n ≤ length dest
    → (k' : Keyboard) × (terminal_read handlers (some dest) (pos n) (k, s)
        ≡ some (
          pos (length bs),
          bytes_from k.term_buffer (term_size * s.active_term) n ++ drop n dest,
          (k', s),
        ))
      × (k'.enter_pressed s.active_term ≡ false)
      × (k'.count k.visible_term ≡ 0)
unfolding terminal_read take_input
terminal_read-line handlers k s bs dest n pressed held text end below limit room =
    let ready = wait_enter-pressed handlers k s pressed in
    let copied = copy_out-bytes_from n (term_size * s.active_term) k.term_buffer dest room in
    let counted =
      strlen-bytes_from bs n (term_size * s.active_term) k.term_buffer (drop n dest) held text end
        below in
    let value : signed32 (length bs) ≡ pos (length bs) = ground arith in
    (
      record k {
        enter_pressed = update k.enter_pressed s.active_term false;
        count = update k.count k.visible_term 0;
      },
      ground (arith, ready, copied, counted, value),
      update_self k.enter_pressed s.active_term false,
      update_self k.count k.visible_term 0,
    )
