-- ===== src/Console.antt =====
-- The screen of LinuxOS/student-distrib/lib.c: three cursors, and the memory from the video memory
-- on, where the three terminals keep their hidden screens. Memory is a function of the address; an
-- address is computed in `int` and taken modulo 2 ^ 32.
pub mod Cursor
pub mod Scroll
use linux_os.Base.{
  ℕ, zero, suc, ◌+◌, ◌-◌, ◌*◌, ◌%◌, Bool, false, not, ◌&&◌, ◌||◌, Option, none, some, List, [], ◌∷◌,
  ltb, leb, ◌==◌, if◌then◌else◌, ◌>>=◌, ◌>>◌, update,
}
use linux_os.Base.Int.{ℤ, pos, ◌+ℤ◌, ◌-ℤ◌, ltb_ℤ, ◌==ℤ◌, rem_ℤ, quot_ℤ, scale, unsigned32}
use linux_os.Paging.{Paging, set_active_paging}

abbrev pub video : ℕ
video = 0xB8000

abbrev pub num_cols : ℕ
num_cols = 80

abbrev pub num_rows : ℕ
num_rows = 25

abbrev pub four_kb : ℕ
four_kb = 0x1000

abbrev pub attrib : ℕ
attrib = 0x7

abbrev pub space : ℕ
space = b' '

abbrev pub newline : ℕ
newline = 10

abbrev pub carriage_return : ℕ
carriage_return = 13

abbrev pub backspace : ℕ
backspace = 8

abbrev pub tab : ℕ
tab = 9

-- `tab_flag` is a global of keyboard.c that only the functions below read.
pub record Console : Type 0 where
  pub screen_x : ℕ → ℤ
  pub screen_y : ℕ → ℤ
  pub vis_term : ℕ
  pub active_term : ℕ
  pub tab_flag : Bool
  pub memory : ℕ → ℕ

-- video_mem + (active_term + 1) * FOUR_KB, also `term_mem[i]`
abbrev pub term_mem : ℕ → ℕ
term_mem i = video + (i + 1) * four_kb

-- Where `putc` writes for a terminal.
abbrev pub screen_base : Console → ℕ
screen_base s = if s.active_term == s.vis_term then video else term_mem s.active_term

-- base + ((NUM_COLS * y + x) << 1)
unfoldable pub cell_address : ℕ → ℤ → ℤ → ℕ
cell_address base x y = unsigned32 (pos base +ℤ scale 2 (scale num_cols y +ℤ x))

-- One character and its attribute.
unfoldable pub put_cell : ℕ → ℤ → ℤ → ℕ → (ℕ → ℕ) → ℕ → ℕ
unfolding cell_address
put_cell base x y c memory =
    update (update memory (cell_address base x y) c) (cell_address base x y + 1) 0x3

-- for (i = from; i < from + rounds; i++): the move of each cell one row up.
unfoldable pub shift_rows : ℕ → ℕ → ℕ → (ℕ → ℕ) → ℕ → ℕ
shift_rows zero i base m = m
shift_rows (suc rounds) i base m =
    shift_rows rounds (suc i) base
      (update (update m (base + (i - num_cols) * 2) (m (base + i * 2))) (base + i * 2 + 1) 0x3)

-- for (i = from; i < from + rounds; i++): blanks.
unfoldable pub blank_cells : ℕ → ℕ → ℕ → (ℕ → ℕ) → ℕ → ℕ
blank_cells zero i base m = m
blank_cells (suc rounds) i base m = blank_cells rounds (suc i) base (update m (base + i * 2) space)

-- Both loops that move the screen one row up.
unfoldable pub scroll : ℕ → (ℕ → ℕ) → ℕ → ℕ
scroll base m =
    blank_cells num_cols (num_cols * (num_rows - 1)) base
      (shift_rows (num_cols * (num_rows - 1)) num_cols base m)

-- for (i = from; i < from + rounds; i++): the loop of `clear`.
unfoldable pub clear_cells : ℕ → ℕ → (ℕ → ℕ) → ℕ → ℕ
clear_cells zero i m = m
clear_cells (suc rounds) i m =
    clear_cells rounds (suc i) (update (update m (video + i * 2) space) (video + i * 2 + 1) attrib)

unfoldable pub clear : Console → Console
clear s = record s { memory = clear_cells (num_rows * num_cols) 0 s.memory }

unfoldable pub clear_pos : Console → Console
clear_pos s = record s {
  screen_x = update s.screen_x s.vis_term (pos 0);
  screen_y = update s.screen_y s.vis_term (pos 0);
}

-- The functions that set a terminal also set the page tables.
unfoldable pub set_act_terminal : ℕ → Console × Paging → Console × Paging
set_act_terminal term_id (s, p) =
    (record s { active_term = term_id }, if term_id == s.vis_term then set_active_paging p else p)

-- memcpy of whole pages.
abbrev pub copy_page : ℕ → ℕ → (ℕ → ℕ) → ℕ → ℕ
copy_page dest src m a = if leb dest a && ltb a (dest + four_kb) then m (a - dest + src) else m a

unfoldable pub set_display_terminal : ℕ → Console × Paging → Console × Paging
set_display_terminal term_id (s, p) = set_act_terminal s.active_term (
  record s {
    memory = copy_page video (term_mem term_id) (copy_page (term_mem s.vis_term) video s.memory);
    vis_term = term_id;
  },
  p,
)

-- A cursor, the tab flag and the memory after one character.
abbrev Written : Type 0
Written = ℤ × ℤ × Bool × (ℕ → ℕ)

-- The end of a backspace: a blank at the new place, and the two remainders, the column's first.
abbrev erase_at : ℕ → ℤ → ℤ → Bool → (ℕ → ℕ) → Written
erase_at base x y tab_flag m = (
  rem_ℤ x num_cols,
  rem_ℤ (y +ℤ quot_ℤ (rem_ℤ x num_cols) num_cols) num_rows,
  tab_flag,
  put_cell base x y space m,
)

-- A printed character.
abbrev print_at : ℕ → ℕ → ℤ → ℤ → Bool → (ℕ → ℕ) → Written
print_at base c x y tab_flag m = (
  x +ℤ pos 1,
  rem_ℤ (y +ℤ quot_ℤ (rem_ℤ (x +ℤ pos 1) num_cols) num_cols) num_rows,
  tab_flag,
  put_cell base x y c m,
)

-- The body of `putc` for a cursor `x`, `y` and the screen at `base`.
unfoldable pub putc_at : ℕ → ℕ → ℤ → ℤ → Bool → (ℕ → ℕ) → Written
putc_at base c x y tab_flag m =
    if (x ==ℤ pos 79) && ltb_ℤ y (pos 24)
    then (pos 0, y +ℤ pos 1, tab_flag, m)
    else if (x ==ℤ pos 79) && (y ==ℤ pos 24)
    then (pos 0, y, tab_flag, scroll base m)
    else if (c == newline) || (c == carriage_return)
    then if (y ==ℤ pos 24) || (x ==ℤ pos 79)
      then (pos 0, y, tab_flag, scroll base m)
      else (pos 0, y +ℤ pos 1, tab_flag, m)
    else if c == backspace
    then if tab_flag
      then erase_at base (x -ℤ pos 4) y false m
      else if (x ==ℤ pos 0) && not (y ==ℤ pos 0)
      then erase_at base (pos 78) (y -ℤ pos 1) tab_flag m
      else if (x ==ℤ pos 0) && (y ==ℤ pos 0)
      then erase_at base x y tab_flag m
      else erase_at base (x -ℤ pos 1) y tab_flag m
    else if c == tab
    then if ltb_ℤ x (pos 76) then (x +ℤ pos 4, y, tab_flag, m) else (pos 0, y +ℤ pos 1, tab_flag, m)
    else print_at base c x y tab_flag m

-- The body of `putc_display`. Its tests `screen_x == 0` compare the address of the array with 0 and
-- fail, so a backspace without the tab flag always moves one column to the left.
unfoldable pub putc_display_at : ℕ → ℤ → ℤ → Bool → (ℕ → ℕ) → Written
putc_display_at c x y tab_flag m =
    if (x ==ℤ pos 79) && ltb_ℤ y (pos 24)
    then (pos 0, y +ℤ pos 1, tab_flag, m)
    else if (x ==ℤ pos 79) && (y ==ℤ pos 24)
    then (pos 0, y, tab_flag, scroll video m)
    else if (c == newline) || (c == carriage_return)
    then if (y ==ℤ pos 24) || (x ==ℤ pos 79)
      then (pos 0, y, tab_flag, scroll video m)
      else (pos 0, y +ℤ pos 1, tab_flag, m)
    else if c == backspace
    then if tab_flag
      then erase_at video (x -ℤ pos 4) y false m
      else erase_at video (x -ℤ pos 1) y tab_flag m
    else if c == tab
    then if ltb_ℤ x (pos 76) then (x +ℤ pos 4, y, tab_flag, m) else (pos 0, y +ℤ pos 1, tab_flag, m)
    else print_at video c x y tab_flag m

-- The cursor of a terminal, and the rest, after one character.
abbrev pub store_written : ℕ → Written → Console → Console
store_written t w s = record s {
  screen_x = update s.screen_x t w.0;
  screen_y = update s.screen_y t w.1;
  tab_flag = w.2;
  memory = w.3;
}

unfoldable pub putc : ℕ → Console → Console
putc c s =
    let t = s.active_term in
    store_written t (putc_at (screen_base s) c (s.screen_x t) (s.screen_y t) s.tab_flag s.memory) s

unfoldable pub putc_display : ℕ → Console → Console
putc_display c s =
    let t = s.vis_term in
    store_written t (putc_display_at c (s.screen_x t) (s.screen_y t) s.tab_flag s.memory) s

-- `puts`: the characters up to the zero, and their number. Running off the memory is a fault.
unfoldable pub puts : List ℕ → Console → Option (ℕ × Console)
puts [] s = none
puts (c ∷ cs) s =
    if c == 0 then some (0, s) else (do (n, s') ← puts cs (putc c s); some (suc n, s'))

-- The low bytes of the 2000 cells count up.
unfoldable pub test_interrupts : ℕ → ℕ → Console → Console
test_interrupts zero i s = s
test_interrupts (suc rounds) i s =
    test_interrupts rounds (suc i)
      (record s { memory = update s.memory (video + i * 2) ((s.memory (video + i * 2) + 1) % 256) })
