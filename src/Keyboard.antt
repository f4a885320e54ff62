-- ===== src/Keyboard.antt =====
-- The keyboard of LinuxOS/student-distrib/keyboard.c: flags, line buffers, and what the interrupt
-- handler does with a scan code, short of switching terminals. The flags are 0 or 1, so they are
-- Booleans; `kb_buffer[t][i]` is `kb_buffer (128 * t + i)`, and `term_buffer` is flat in the same way.
pub mod Line
pub mod Bounds
pub mod Shift
use linux_os.Base.{
  ℕ, ◌+◌, ◌-◌, ◌*◌, ◌%◌, Bool, true, false, not, ◌&&◌, ◌||◌, List, [], ◌∷◌, ◌++◌, ltb, leb, ◌==◌,
  if◌then◌else◌, update, get_or, codes,
}
use linux_os.Base.Int.{ℤ, pos, ◌-ℤ◌, unsigned32}
use linux_os.Console.{Console, putc_display, clear, clear_pos}

-- `shifted_char` is an `int`; of the other globals `clear_screen` and `curr_term` are never used.
pub record Keyboard : Type 0 where
  pub shift_flag : Bool
  pub ctrl_flag : Bool
  pub caps_flag : Bool
  pub alt_flag : Bool
  pub kb_buffer : ℕ → ℕ
  pub term_buffer : ℕ → ℕ
  pub visible_term : ℕ
  pub count : ℕ → ℕ
  pub enter_pressed : ℕ → Bool
  pub shifted_char : ℤ
  pub terminal_2_active : Bool
  pub terminal_3_active : Bool

abbrev pub kb_size : ℕ
kb_size = 128

abbrev pub term_size : ℕ
term_size = 2050

-- The entries of `key_map` that are written out; the others are 0.
abbrev pub key_table : List ℕ
key_table =
    0
    ∷ 0
    ∷ (codes "1234567890-="
        ++ (8 ∷ 9 ∷ codes "qwertyuiop[]")
        ++ (10 ∷ 0 ∷ codes "asdfghjkl;")
        ++ (39 ∷ 96 ∷ 0 ∷ 92 ∷ codes "zxcvbnm,./")
        ++ (0 ∷ 0 ∷ 0 ∷ codes " "))

unfoldable pub key_map : ℕ → ℕ
key_map scan_code = get_or key_table scan_code 0

-- The cases of the switch: a character, and what Shift makes of it.
abbrev pub shift_table : List (ℕ × ℕ)
shift_table =
    (96, 126)
    ∷ (49, 33)
    ∷ (50, 64)
    ∷ (51, 35)
    ∷ (52, 36)
    ∷ (53, 37)
    ∷ (54, 94)
    ∷ (55, 38)
    ∷ (56, 42)
    ∷ (57, 40)
    ∷ (48, 41)
    ∷ (45, 95)
    ∷ (61, 43)
    ∷ (91, 123)
    ∷ (93, 125)
    ∷ (92, 124)
    ∷ (59, 58)
    ∷ (39, 34)
    ∷ (44, 60)
    ∷ (46, 62)
    ∷ (47, 63)
    ∷ (10, 10)
    ∷ []

-- The switch: with Caps Lock alone a character of the table stays, with Shift it changes; all other
-- characters are 32 less.
unfoldable pub shift_switch : List (ℕ × ℕ) → Bool → Bool → ℕ → ℤ
shift_switch [] caps shift key = pos key -ℤ pos 32
shift_switch ((from, to) ∷ table) caps shift key =
    if key == from
    then (if caps && not shift then pos from else pos to)
    else shift_switch table caps shift key

-- (char) of an `int`.
abbrev pub char_of : ℤ → ℕ
char_of z = unsigned32 z % 256

-- The chain of tests that sets and clears the flags.
unfoldable pub set_flags : ℕ → Keyboard → Keyboard
set_flags scan_code k =
    if scan_code == 0x1D
    then record k { ctrl_flag = true }
    else if scan_code == 0x38
    then record k { alt_flag = true }
    else if scan_code == 0x2A
    then record k { shift_flag = true }
    else if not k.caps_flag && (scan_code == 0xBA)
    then record k { caps_flag = true }
    else if k.caps_flag && (scan_code == 0xBA)
    then record k { caps_flag = false }
    else if scan_code == 0xAA
    then record k { shift_flag = false }
    else if scan_code == 0x9D
    then record k { ctrl_flag = false }
    else if scan_code == 0xB8
    then record k { alt_flag = false }
    else if scan_code == 0x1C
    then record k { enter_pressed = update k.enter_pressed k.visible_term true }
    else k

-- The scan codes that the handler goes on with.
unfoldable pub is_input : ℕ → Bool
is_input scan_code =
    leb 32 (key_map scan_code)
    || (leb 8 (key_map scan_code) && leb (key_map scan_code) 10)
    || (scan_code == 0x3B)
    || (scan_code == 0x3C)
    || (scan_code == 0x3D)

-- With Enter pending the typed line becomes the terminal's buffer, and the line is cleared.
unfoldable pub take_line : Keyboard → Keyboard
take_line k =
    let kb = kb_size * k.visible_term in
    let term = term_size * k.visible_term in
    if k.enter_pressed k.visible_term
    then record k {
      term_buffer = λ a.
          if leb term a && ltb a (term + kb_size)
          then k.kb_buffer (a - term + kb)
          else if leb term a && ltb a (term + term_size)
          then 0
          else k.term_buffer a;
      kb_buffer = λ a. if leb kb a && ltb a (kb + kb_size) then 0 else k.kb_buffer a;
    }
    else k

-- Ctrl and L.
unfoldable pub clear_line : Keyboard × Console → Keyboard × Console
clear_line (k, s) =
    let kb = kb_size * k.visible_term in
    let n = k.count k.visible_term in
    (
      record k {
        kb_buffer = λ a. if leb kb a && ltb a (kb + n) then 0 else k.kb_buffer a;
        count = update k.count k.visible_term 0;
      },
      clear_pos (clear s),
    )

-- A character at the end of the line: kb_buffer[t][count[t]] = c; count[t]++;
abbrev pub append_char : ℕ → Keyboard → Keyboard
append_char c k =
    let t = k.visible_term in
    record k {
      kb_buffer = update k.kb_buffer (kb_size * t + k.count t) c;
      count = update k.count t (k.count t + 1);
    }

unfoldable pub type_tab : ℕ → Keyboard × Console → Keyboard × Console
type_tab key (k, s) = (
  append_char key k,
  putc_display b' ' (putc_display b' ' (putc_display b' ' (putc_display b' ' s))),
)

unfoldable pub type_backspace : ℕ → Keyboard × Console → Keyboard × Console
type_backspace key (k, s) =
    let t = k.visible_term in
    let last = kb_size * t + (k.count t - 1) in
    if ltb 0 (k.count t)
    then (
      record k { kb_buffer = update k.kb_buffer last 0; count = update k.count t (k.count t - 1) },
      putc_display key (if k.kb_buffer last == 9 then record s { tab_flag = true } else s),
    )
    else (k, s)

abbrev pub flag_xor : Bool → Bool → Bool
flag_xor true b = not b
flag_xor false b = b

-- The test for the switch.
abbrev pub uses_switch : Bool → Bool → ℕ → Bool
uses_switch shift caps key = flag_xor shift caps || (caps && shift && (ltb key 97 || ltb 122 key))

unfoldable pub type_char : ℕ → Keyboard × Console → Keyboard × Console
type_char key (k, s) =
    let shifted = shift_switch shift_table k.caps_flag k.shift_flag key in
    if uses_switch k.shift_flag k.caps_flag key
    then (
      append_char (char_of shifted) (record k { shifted_char = shifted }),
      putc_display (char_of shifted) s,
    )
    else (append_char key k, putc_display key s)

-- What the handler does with an input that switches no terminal.
unfoldable pub type_key : ℕ → Keyboard × Console → Keyboard × Console
type_key scan_code (k, s) =
    let t = k.visible_term in
    let key = key_map scan_code in
    if ltb (k.count t) 127
    then if scan_code == 0x0F
      then type_tab key (k, s)
      else if scan_code == 0x0E
      then type_backspace key (k, s)
      else type_char key (k, s)
    else if (k.count t == 127) && (scan_code == 0x1C)
    then (
      record k {
        kb_buffer = update k.kb_buffer (kb_size * t + k.count t) key;
        count = update k.count t 0;
      },
      putc_display key s,
    )
    else (k, s)
