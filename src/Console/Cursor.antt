-- ===== src/Console/Cursor.antt =====
-- Where the cursor of lib.c goes under `putc` and `putc_display`.
use linux_os.Base.{ℕ, ◌+◌, ◌-◌, ◌≤◌, ◌<◌, ◌≡◌, ◌⊎◌, Bool, true, false, arith}
use linux_os.Base.Int.{ℤ, pos, minus_one, ◌+ℤ◌, ◌-ℤ◌, ◌≤ℤ◌, rem_ℤ, quot_ℤ}
use linux_os.Console.{putc_at, putc_display_at, backspace, tab, num_cols, num_rows}

-- A place of the 80 by 25 screen.
pub record IsOnScreen (x y : ℤ) : Type 0 where
  pub left : pos 0 ≤ℤ x
  pub right : x ≤ℤ pos 79
  pub top : pos 0 ≤ℤ y
  pub bottom : y ≤ℤ pos 24

-- The characters that leave the screen: a tab in the last columns of the last row, and the erasing
-- of a tab within four columns of the left border.
abbrev pub Leaves : ℕ → ℤ → ℤ → Bool → Type 0
Leaves c x y tab_flag =
    ((c ≡ tab) × (pos 76 ≤ℤ x) × (y ≡ pos 24))
    ⊎ ((c ≡ backspace) × (tab_flag ≡ true) × (x ≤ℤ pos 3))

-- The two coordinates of a write, without the memory.
abbrev erase_cursor : ℤ → ℤ → ℤ × ℤ
erase_cursor x y = (rem_ℤ x num_cols, rem_ℤ (y +ℤ quot_ℤ (rem_ℤ x num_cols) num_cols) num_rows)

erase_cursor_lem : (x y : ℕ) → x ≤ 79 → y ≤ 24 → erase_cursor (pos x) (pos y) ≡ (pos x, pos y)
unfolding ◌+ℤ◌ rem_ℤ quot_ℤ
erase_cursor_lem x y hx hy = ground arith

print_cursor_lem :
    (x y : ℕ)
    → x ≤ 78
    → y ≤ 24
    → ◌≡◌ {A = ℤ × ℤ}
        (
          pos x +ℤ pos 1,
          rem_ℤ (pos y +ℤ quot_ℤ (rem_ℤ (pos x +ℤ pos 1) num_cols) num_cols) num_rows,
        )
        (pos (x + 1), pos y)
unfolding ◌+ℤ◌ rem_ℤ quot_ℤ
print_cursor_lem x y hx hy = ground arith

pos-sub : (a b : ℕ) → b ≤ a → pos a -ℤ pos b ≡ pos (a - b)
unfolding ◌-ℤ◌
pos-sub a b h = ground arith

pos-add : (a b : ℕ) → pos a +ℤ pos b ≡ pos (a + b)
unfolding ◌+ℤ◌
pos-add a b = ground arith

-- From a place of the screen `putc` leads to a place of the screen, unless the character is a tab at
-- column 76 or later of the last row, or a backspace with the tab flag set at column 3 or earlier.
pub putc_at-IsOnScreen :
    (base c x y : ℕ) (tab_flag : Bool) (m : ℕ → ℕ)
    → x ≤ 79
    → y ≤ 24
    → ¬ Leaves c (pos x) (pos y) tab_flag
    → IsOnScreen
        (putc_at base c (pos x) (pos y) tab_flag m).0
        (putc_at base c (pos x) (pos y) tab_flag m).1
unfolding putc_at
putc_at-IsOnScreen base c x y tab_flag m hx hy stays = ground (
  arith,
  print_cursor_lem x y,
  erase_cursor_lem x y,
  erase_cursor_lem (x - 4) y,
  erase_cursor_lem (x - 1) y,
  erase_cursor_lem 78 (y - 1),
  pos-sub x 4,
  pos-sub x 1,
  pos-sub y 1,
  pos-add y 1,
  pos-add x 4,
)

-- From a place of the screen `putc_display` leads to a place of the screen, unless the character is
-- such a tab or backspace, or a backspace in the first column.
pub putc_display_at-IsOnScreen :
    (c x y : ℕ) (tab_flag : Bool) (m : ℕ → ℕ)
    → x ≤ 79
    → y ≤ 24
    → ¬ Leaves c (pos x) (pos y) tab_flag
    → ¬ ((c ≡ backspace) × (x ≡ 0))
    → IsOnScreen
        (putc_display_at c (pos x) (pos y) tab_flag m).0
        (putc_display_at c (pos x) (pos y) tab_flag m).1
unfolding putc_display_at
putc_display_at-IsOnScreen c x y tab_flag m hx hy stays moves = ground (
  arith,
  print_cursor_lem x y,
  erase_cursor_lem (x - 4) y,
  erase_cursor_lem (x - 1) y,
  pos-sub x 4,
  pos-sub x 1,
  pos-add y 1,
  pos-add x 4,
)

erase_left : (y : ℕ) → y ≤ 24 → erase_cursor (pos 0 -ℤ pos 1) (pos y) ≡ (minus_one, pos y)
unfolding ◌+ℤ◌ ◌-ℤ◌ rem_ℤ quot_ℤ
erase_left y h = ground arith

-- A backspace in the first column of a row below the first: `putc` goes to column 78 of the row
-- above, and `putc_display` to column -1 of the same row.
pub backspace_first_column :
    (base y : ℕ) (m : ℕ → ℕ)
    → 0 < y
    → y ≤ 24
    → ((putc_at base backspace (pos 0) (pos y) false m).0 ≡ pos 78)
      × ((putc_at base backspace (pos 0) (pos y) false m).1 ≡ pos (y - 1))
      × ((putc_display_at backspace (pos 0) (pos y) false m).0 ≡ minus_one)
      × ((putc_display_at backspace (pos 0) (pos y) false m).1 ≡ pos y)
unfolding putc_at putc_display_at
backspace_first_column base y m h hy =
    ground (arith, erase_left y, erase_cursor_lem 78 (y - 1), pos-sub y 1)
