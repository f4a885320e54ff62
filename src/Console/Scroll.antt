-- ===== src/Console/Scroll.antt =====
-- What the scrolling of lib.c does to the screen.
use linux_os.Base.{
  ℕ, zero, suc, ◌+◌, ◌-◌, ◌*◌, ◌≤◌, ◌<◌, ◌≡◌, ◌⊎◌, refl, ◌&&◌, arith, ltb, leb, if◌then◌else◌,
  update,
}
use linux_os.Console.{num_cols, num_rows, space, shift_rows, blank_cells, scroll}

-- The characters after the loop that moves the rows.
shift_rows-char :
    (n i base k : ℕ) (m : ℕ → ℕ)
    → num_cols ≤ i
    → shift_rows n i base m (base + k * 2) ≡ (
        if leb i (k + num_cols) && ltb (k + num_cols) (i + n)
        then m (base + (k + num_cols) * 2)
        else m (base + k * 2))
unfolding shift_rows
shift_rows-char zero i base k m h = ground arith
shift_rows-char (suc n) i base k m h = ground (
  arith,
  shift_rows-char n (suc i) base k
      (update (update m (base + (i - num_cols) * 2) (m (base + i * 2))) (base + i * 2 + 1) 0x3),
)

-- The attributes after the loop that moves the rows.
shift_rows-attribute :
    (n i base k : ℕ) (m : ℕ → ℕ)
    → num_cols ≤ i
    → shift_rows n i base m (base + k * 2 + 1)
      ≡ (if leb i k && ltb k (i + n) then 0x3 else m (base + k * 2 + 1))
unfolding shift_rows
shift_rows-attribute zero i base k m h = ground arith
shift_rows-attribute (suc n) i base k m h = ground (
  arith,
  shift_rows-attribute n (suc i) base k
      (update (update m (base + (i - num_cols) * 2) (m (base + i * 2))) (base + i * 2 + 1) 0x3),
)

shift_rows-outside :
    (n i base a : ℕ) (m : ℕ → ℕ)
    → num_cols ≤ i
    → (a < base) ⊎ (base + (i + n) * 2 ≤ a)
    → shift_rows n i base m a ≡ m a
unfolding shift_rows
shift_rows-outside zero i base a m h away = refl
shift_rows-outside (suc n) i base a m h away = ground (
  arith,
  shift_rows-outside n (suc i) base a
      (update (update m (base + (i - num_cols) * 2) (m (base + i * 2))) (base + i * 2 + 1) 0x3),
)

blank_cells-char :
    (n i base k : ℕ) (m : ℕ → ℕ)
    → blank_cells n i base m (base + k * 2)
      ≡ (if leb i k && ltb k (i + n) then space else m (base + k * 2))
unfolding blank_cells
blank_cells-char zero i base k m = ground arith
blank_cells-char (suc n) i base k m =
    ground (arith, blank_cells-char n (suc i) base k (update m (base + i * 2) space))

blank_cells-attribute :
    (n i base k : ℕ) (m : ℕ → ℕ) → blank_cells n i base m (base + k * 2 + 1) ≡ m (base + k * 2 + 1)
unfolding blank_cells
blank_cells-attribute zero i base k m = refl
blank_cells-attribute (suc n) i base k m =
    ground (arith, blank_cells-attribute n (suc i) base k (update m (base + i * 2) space))

blank_cells-outside :
    (n i base a : ℕ) (m : ℕ → ℕ)
    → (a < base) ⊎ (base + (i + n) * 2 ≤ a)
    → blank_cells n i base m a ≡ m a
unfolding blank_cells
blank_cells-outside zero i base a m away = refl
blank_cells-outside (suc n) i base a m away =
    ground (arith, blank_cells-outside n (suc i) base a (update m (base + i * 2) space))

-- Scrolling moves every row's characters to the row above, blanks the last row, gives every row but
-- the first the attribute 3, and touches nothing but the 4000 bytes of the screen.
pub scroll_lem :
    (base k a : ℕ) (m : ℕ → ℕ)
    → k < num_rows * num_cols
    → (a < base) ⊎ (base + num_rows * num_cols * 2 ≤ a)
    → (scroll base m (base + k * 2)
        ≡ (if ltb k ((num_rows - 1) * num_cols) then m (base + (k + num_cols) * 2) else space))
      × (scroll base m (base + k * 2 + 1) ≡ (if ltb k num_cols then m (base + k * 2 + 1) else 0x3))
      × (scroll base m a ≡ m a)
unfolding scroll
scroll_lem base k a m h away =
    let moved = shift_rows (num_cols * (num_rows - 1)) num_cols base m in
    (
      ground (
        arith,
        blank_cells-char num_cols (num_cols * (num_rows - 1)) base k moved,
        shift_rows-char (num_cols * (num_rows - 1)) num_cols base k m,
      ),
      ground (
        arith,
        blank_cells-attribute num_cols (num_cols * (num_rows - 1)) base k moved,
        shift_rows-attribute (num_cols * (num_rows - 1)) num_cols base k m,
      ),
      ground (
        arith,
        blank_cells-outside num_cols (num_cols * (num_rows - 1)) base a moved,
        shift_rows-outside (num_cols * (num_rows - 1)) num_cols base a m,
      ),
    )
