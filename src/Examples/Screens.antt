-- ===== src/Examples/Screens.antt =====
-- The keyboard and the screens with a short line typed on the first terminal.
use linux_os.Base.{
  ℕ, suc, ◌+◌, ◌*◌, ◌%◌, ◌≡◌, inr, refl, true, false, some, List, [], ◌∷◌, ◌++◌, arith, ◌==◌,
  if◌then◌else◌, none, ltb, length-replicate, replicate, codes,
}
use linux_os.Base.Int.{pos}
use linux_os.Console.{Console, putc_at, scroll, backspace, num_cols}
use linux_os.Console.Cursor.{IsOnScreen, Leaves, putc_at-IsOnScreen}
use linux_os.Console.Scroll.{scroll_lem}
use linux_os.Keyboard.{Keyboard, key_map, type_key, term_size}
use linux_os.Keyboard.Line.{line, edit, type_key-line}
use linux_os.Keyboard.Bounds.{Stays, type_key-Stays}
use linux_os.Keyboard.Shift.{us_key, typed_char, expected_char, typed_char-expected}
use linux_os.Terminal.{terminal_read, terminal_write}
use linux_os.Terminal.Input.{bytes_from, terminal_read-line}
use linux_os.Terminal.Laws.{print_bytes, terminal_write-prints, terminal_write-overflow}

abbrev memory : ℕ → ℕ
memory a = if a % 2 == 0 then 32 else 3

abbrev pub screen : Console
screen = record {
  screen_x = λ t. pos 7;
  screen_y = λ t. pos 2;
  vis_term = 0;
  active_term = 0;
  tab_flag = false;
  memory = memory;
}

-- The letters `ls` are typed.
abbrev pub keys : Keyboard
keys = record {
  shift_flag = false;
  ctrl_flag = false;
  caps_flag = false;
  alt_flag = false;
  kb_buffer = λ a. if a == 0 then 108 else if a == 1 then 115 else 0;
  term_buffer = λ a. 0;
  visible_term = 0;
  count = λ t. if t == 0 then 2 else 0;
  enter_pressed = λ t. false;
  shifted_char = pos 0;
  terminal_2_active = false;
  terminal_3_active = false;
}

newline_stays : ¬ Leaves 10 (pos 7) (pos 24) false
newline_stays = ground arith

backspace_stays : ¬ Leaves 8 (pos 7) (pos 24) false
backspace_stays = ground arith

right_of_border : ¬ ((8 ≡ backspace) × (suc 6 ≡ 0))
right_of_border = ground arith

putc_at-IsOnScreen_example :
    IsOnScreen
      (putc_at 0xB8000 10 (pos 7) (pos 24) false memory).0
      (putc_at 0xB8000 10 (pos 7) (pos 24) false memory).1
putc_at-IsOnScreen_example =
    putc_at-IsOnScreen 0xB8000 10 7 24 false memory (omega arith) (omega arith) newline_stays

scroll_lem_example :
    (scroll 0xB8000 memory (0xB8000 + 100 * 2) ≡ memory (0xB8000 + (100 + num_cols) * 2))
    × (scroll 0xB8000 memory (0xB8000 + 100 * 2 + 1) ≡ 0x3)
    × (scroll 0xB8000 memory 0x400000 ≡ memory 0x400000)
scroll_lem_example = scroll_lem 0xB8000 100 0x400000 memory (omega arith) (inr (omega arith))

type_key-line_example : line (type_key 0x1E (keys, screen)).0 0 ≡ edit keys 0x1E (line keys 0)
type_key-line_example = type_key-line keys screen 0x1E

type_key-Stays_example : Stays keys 1 500 (type_key 0x1E (keys, screen)).0
type_key-Stays_example =
    type_key-Stays keys screen 0x1E 1 500 (omega arith) (omega arith) (inr (omega arith))

us_key_a : us_key 0x1E ≡ some 97
unfolding us_key
us_key_a = refl

typed_char-expected_example : typed_char true false (key_map 0x1E) ≡ expected_char true false 97
typed_char-expected_example = typed_char-expected true false 0x1E 97 (omega arith) us_key_a

terminal_write-prints_example :
    (k' : Keyboard) × (terminal_write (some (codes "hi" ++ (0 ∷ []))) (pos 2) (keys, screen)
      ≡ some (pos 2, (k', print_bytes (codes "hi") screen)))
terminal_write-prints_example =
    terminal_write-prints (codes "hi") (0 ∷ []) keys screen (omega arith) (omega arith)
      (omega arith)

abbrev long_text : List ℕ
long_text = replicate 2050 65

terminal_write-overflow_example :
    (k' : Keyboard) × (terminal_write (some (long_text ++ [])) (pos 3000) (keys, screen) ≡ (
      if ltb screen.active_term 2
      then some (pos 3000, (k', print_bytes long_text screen))
      else none))
    × (k'.term_buffer (term_size * (screen.active_term + 1)) ≡ 0)
terminal_write-overflow_example =
    terminal_write-overflow long_text [] 3000 keys screen (omega arith)
      (length-replicate {A = ℕ} 2050 65) (omega arith)

abbrev entered : Keyboard
entered = record keys {
  term_buffer = λ a. if a == 0 then 108 else if a == 1 then 115 else 0;
  enter_pressed = λ t. true;
}

terminal_read-line_example :
    (k' : Keyboard) × (terminal_read [] (some (replicate 64 7)) (pos 33) (entered, screen)
      ≡ some (pos 2, bytes_from entered.term_buffer 0 33 ++ replicate 31 7, (k', screen)))
    × (k'.enter_pressed 0 ≡ false)
    × (k'.count 0 ≡ 0)
terminal_read-line_example =
    terminal_read-line [] entered screen (codes "ls") (replicate 64 7) 33 refl (refl, (refl, tt))
      (omega arith, (omega arith, tt)) refl (omega arith) (omega arith) (omega arith)
