-- ===== src/Keyboard/Shift.antt =====
-- What Shift and Caps Lock do to the keys of keyboard.c, over all scan codes.
use linux_os.Base.{
  ℕ, ◌+◌, ◌-◌, ◌<◌, ◌≡◌, refl, ap, ◌∙◌, Bool, true, false, ◌&&◌, ◌||◌, Option, none, some, List, [],
  ◌∷◌, ◌++◌, arith, ltb, leb, ◌==◌, ==_iff, if◌then◌else◌, length, get_elem?, all_below,
  all_below_sound, codes,
}
use linux_os.Base.Int.{◌-ℤ◌}
use linux_os.Keyboard.{key_map, shift_switch, shift_table, char_of, uses_switch, flag_xor}

-- The character that a key adds to a line.
abbrev pub typed_char : Bool → Bool → ℕ → ℕ
typed_char shift caps key =
    if uses_switch shift caps key then char_of (shift_switch shift_table caps shift key) else key

abbrev is_letter : ℕ → Bool
is_letter key = leb 97 key && leb key 122

-- The keys of a US keyboard that are no letters, beside what they type with Shift.
abbrev zip_codes : List ℕ → List ℕ → List (ℕ × ℕ)
zip_codes [] ys = []
zip_codes (x ∷ xs) [] = []
zip_codes (x ∷ xs) (y ∷ ys) = (x, y) ∷ zip_codes xs ys

abbrev us_layout : List (ℕ × ℕ)
us_layout =
    zip_codes (96 ∷ 92 ∷ 39 ∷ codes "1234567890-=[];,./")
      (126 ∷ 124 ∷ 34 ∷ codes "!@#$%^&*()_+{}:<>?")

-- What a keyboard is expected to type: letters change case with one of Shift and Caps Lock, the keys
-- of the layout change with Shift, and the rest stays.
abbrev shifted_by_table : List (ℕ × ℕ) → ℕ → ℕ
shifted_by_table [] key = key
shifted_by_table ((from, to) ∷ table) key = if key == from then to else shifted_by_table table key

abbrev pub expected_char : Bool → Bool → ℕ → ℕ
expected_char shift caps key =
    if is_letter key
    then (if flag_xor shift caps then key - 32 else key)
    else if shift
    then shifted_by_table us_layout key
    else key

-- The character keys of a US keyboard by rows: the scan code of a row's first key, and what the keys of
-- the row type without Shift, from left to right. 96 is the backquote, 92 the backslash, 39 the quote.
abbrev us_rows : List (ℕ × List ℕ)
us_rows =
    (2, codes "1234567890-=")
    ∷ (16, codes "qwertyuiop[]")
    ∷ (30, codes "asdfghjkl;" ++ 39 ∷ 96 ∷ [])
    ∷ (43, 92 ∷ codes "zxcvbnm,./")
    ∷ []

abbrev key_in_rows : List (ℕ × List ℕ) → ℕ → Option ℕ
key_in_rows [] scan_code = none
key_in_rows ((start, row) ∷ rows) scan_code =
    if leb start scan_code && ltb scan_code (start + length row)
    then get_elem? row (scan_code - start)
    else key_in_rows rows scan_code

unfoldable pub us_key : ℕ → Option ℕ
us_key scan_code = key_in_rows us_rows scan_code

agrees : Option ℕ → ℕ → (ℕ → ℕ) → Bool
agrees none typed expected = true
agrees (some key) typed expected = typed == expected key

abbrev as_expected : Bool → Bool → ℕ → Bool
as_expected shift caps scan_code =
    agrees (us_key scan_code) (typed_char shift caps (key_map scan_code)) (expected_char shift caps)

expected_table : (shift caps : Bool) → all_below 256 (as_expected shift caps) ≡ true
unfolding all_below key_map us_key agrees shift_switch ◌-ℤ◌
expected_table true true = refl
expected_table true false = refl
expected_table false true = refl
expected_table false false = refl

agrees-some :
    (o : Option ℕ) (key typed : ℕ) (expected : ℕ → ℕ)
    → o ≡ some key
    → agrees o typed expected ≡ true
    → typed ≡ expected key
unfolding agrees
agrees-some none key typed expected e h = cc
agrees-some (some k) key typed expected e h =
    let same : k ≡ key = ground (arith, e) in (==_iff typed (expected k)).0 h ∙ ap expected same

-- Every one of the 47 character keys of a US keyboard, by its scan code, types its character, for each
-- setting of Shift and Caps Lock: letters change case with one of the two, the other keys with Shift.
pub typed_char-expected :
    (shift caps : Bool) (scan_code key : ℕ)
    → scan_code < 256
    → us_key scan_code ≡ some key
    → typed_char shift caps (key_map scan_code) ≡ expected_char shift caps key
typed_char-expected shift caps scan_code key h found =
    agrees-some (us_key scan_code) key _ (expected_char shift caps) found
      (all_below_sound 256 (as_expected shift caps) scan_code (expected_table shift caps) h)

-- The space bar types a zero byte while Shift or Caps Lock is on.
pub typed_char-space : (shift caps : Bool) → shift || caps ≡ true → typed_char shift caps 32 ≡ 0
unfolding shift_switch ◌-ℤ◌
typed_char-space true true h = refl
typed_char-space true false h = refl
typed_char-space false true h = refl
typed_char-space false false h = cc
