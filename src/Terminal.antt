-- ===== src/Terminal.antt =====
-- The terminal driver of LinuxOS/student-distrib/terminal.c.
pub mod Laws
pub mod Input
use linux_os.Base.{
  ℕ, zero, suc, ◌+◌, ◌*◌, true, false, Option, none, some, List, [], ◌∷◌, ◌==◌, ltb, if◌then◌else◌,
  ◌>>=◌, ◌>>◌, update,
}
use linux_os.Base.Int.{ℤ, pos, minus_one, pos_part, ltb_ℤ, signed32}
use linux_os.Strings.{strlen}
use linux_os.Console.{Console, putc}
use linux_os.Keyboard.{Keyboard, term_size}

abbrev pub max_buffer_size : ℕ
max_buffer_size = 128

abbrev pub Screen : Type 0
Screen = Keyboard × Console

-- The wait for Enter on the visible terminal: the handlers that run meanwhile, in their order. With
-- none left and no Enter the wait goes on, which is `none`.
unfoldable pub wait_enter : List (Screen → Screen) → Screen → Option Screen
wait_enter [] (k, s) = if k.enter_pressed k.visible_term then some (k, s) else none
wait_enter (handler ∷ handlers) (k, s) = elim (k.enter_pressed k.visible_term) [
  | true ↦ some (k, s)
  | false ↦ wait_enter handlers (handler (k, s))
]

-- memcpy(dest, src, n) from a flat buffer into the caller's memory.
abbrev pub copy_out : ℕ → ℕ → (ℕ → ℕ) → List ℕ → Option (List ℕ)
copy_out zero a src dest = some dest
copy_out (suc n) a src [] = none
copy_out (suc n) a src (d ∷ dest) = do r ← copy_out n (suc a) src dest; some (src a ∷ r)

-- After the wait: the buffer of the active terminal is copied, and the result is a `strlen` of the
-- caller's memory. Enter is reset for the active terminal, the count for the visible one.
unfoldable pub take_input : ℕ → List ℕ → Screen → Option (ℤ × List ℕ × Screen)
unfolding strlen
take_input nbytes buf (k, s) = do
  let act_term = s.active_term
  result ← copy_out nbytes (term_size * act_term) k.term_buffer buf
  n ← strlen result
  some (
    signed32 n,
    result,
    (
      record k {
        enter_pressed = update k.enter_pressed act_term false;
        count = update k.count k.visible_term 0;
      },
      s,
    ),
  )

-- `buf` is the caller's memory from the pointer on, or NULL.
unfoldable pub terminal_read :
    List (Screen → Screen) → Option (List ℕ) → ℤ → Screen → Option (ℤ × List ℕ × Screen)
unfolding wait_enter take_input
terminal_read handlers none nbytes screen = some (minus_one, [], screen)
terminal_read handlers (some buf) nbytes screen =
    if ltb_ℤ nbytes (pos 1) then some (pos 0, buf, screen) else (do
      let limited = if ltb_ℤ (pos max_buffer_size) nbytes then max_buffer_size else pos_part nbytes
      ready ← wait_enter handlers screen
      take_input limited buf ready)

-- memcpy(dest, src, n) into a flat buffer.
abbrev pub copy_in : ℕ → ℕ → List ℕ → (ℕ → ℕ) → Option (ℕ → ℕ)
copy_in zero a src m = some m
copy_in (suc n) a [] m = none
copy_in (suc n) a (c ∷ src) m = copy_in n (suc a) src (update m a c)

-- The loop that prints the buffer from an address on and leaves zeros out.
unfoldable pub print_buffer : ℕ → ℕ → (ℕ → ℕ) → Console → Console
print_buffer zero a m s = s
print_buffer (suc n) a m s = print_buffer n (suc a) m (if m a == 0 then s else putc (m a) s)

-- char term_buffer[3][2050]
abbrev pub term_buffer_size : ℕ
term_buffer_size = 3 * term_size

-- `sizeof(term_buffer[act_term])` is 2050, and the zero goes to the index after the copied bytes. Behind
-- the whole array that is a fault.
unfoldable pub terminal_write : Option (List ℕ) → ℤ → Screen → Option (ℤ × Screen)
terminal_write none nbytes screen = some (minus_one, screen)
terminal_write (some buf) nbytes (k, s) = if ltb_ℤ nbytes (pos 1) then some (pos 0, (k, s)) else (do
  let start = term_size * s.active_term
  let copy_limit = if ltb_ℤ nbytes (pos term_size) then pos_part nbytes else term_size
  copied ← copy_in copy_limit start buf k.term_buffer
  let ended = update copied (start + copy_limit) 0
  if ltb (start + copy_limit) term_buffer_size
      then some (nbytes, (record k { term_buffer = ended }, print_buffer copy_limit start ended s))
      else none)

unfoldable pub terminal_open : ℤ
terminal_open = pos 0

unfoldable pub terminal_close : ℤ
terminal_close = pos 0
