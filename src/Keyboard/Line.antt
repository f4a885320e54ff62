-- ===== src/Keyboard/Line.antt =====
-- The line buffer of keyboard.c as a line of text: what each key does to the line that Enter will
-- hand over.
use linux_os.Base.{
  ℕ, zero, suc, ◌+◌, ◌-◌, ◌*◌, ◌≤◌, ◌<◌, ◌≡◌, ◌⊎◌, inl, inr, refl, sym, ap, ◌∙◌, ◌&&◌, List, [],
  ◌∷◌, ◌++◌, arith, ltb, ◌==◌, if◌then◌else◌, ltb→lt, Bool-cases, update, update_self, length,
  length-append,
}
use linux_os.Console.{Console}
use linux_os.Keyboard.{
  Keyboard, key_map, shift_switch, shift_table, char_of, uses_switch, type_tab, type_backspace,
  type_char, type_key, kb_size, append_char,
}
use linux_os.Keyboard.Shift.{typed_char}

-- The first `n` bytes from an address on.
pub bytes_at : (ℕ → ℕ) → ℕ → ℕ → List ℕ
bytes_at f a zero = []
bytes_at f a (suc n) = bytes_at f a n ++ f (a + n) ∷ []

-- The line that is being typed on a terminal.
unfoldable pub line : Keyboard → ℕ → List ℕ
unfolding bytes_at
line k t = bytes_at k.kb_buffer (kb_size * t) (k.count t)

-- A line without its last character.
abbrev pub drop_last : List ℕ → List ℕ
drop_last [] = []
drop_last (c ∷ []) = []
drop_last (c ∷ d ∷ cs) = c ∷ drop_last (d ∷ cs)

-- The line editor: what a key does to a line.
abbrev pub edit : Keyboard → ℕ → List ℕ → List ℕ
edit k scan_code l =
    if ltb (length l) 127
    then if scan_code == 0x0F
      then l ++ (key_map 0x0F ∷ [])
      else if scan_code == 0x0E
      then drop_last l
      else l ++ (typed_char k.shift_flag k.caps_flag (key_map scan_code) ∷ [])
    else if (length l == 127) && (scan_code == 0x1C)
    then []
    else l

bytes_at-outside :
    (f : ℕ → ℕ) (a n i v : ℕ) → (i < a) ⊎ (a + n ≤ i) → bytes_at (update f i v) a n ≡ bytes_at f a n
unfolding bytes_at
bytes_at-outside f a zero i v away = refl
bytes_at-outside f a (suc n) i v away = ground (arith, bytes_at-outside f a n i v)

pub length-bytes_at : (f : ℕ → ℕ) (a n : ℕ) → length (bytes_at f a n) ≡ n
unfolding bytes_at
length-bytes_at f a zero = refl
length-bytes_at f a (suc n) =
    omega (arith, length-append (bytes_at f a n) (f (a + n) ∷ []), length-bytes_at f a n)

drop_last-append : (l : List ℕ) (c : ℕ) → drop_last (l ++ c ∷ []) ≡ l
drop_last-append [] c = refl
drop_last-append (d ∷ []) c = refl
drop_last-append (d ∷ e ∷ l) c = ap (λ (r : List ℕ). d ∷ r) (drop_last-append (e ∷ l) c)

bytes_at_snoc :
    (f : ℕ → ℕ) (a n m c : ℕ)
    → m ≡ suc n
    → bytes_at (update f (a + n) c) a m ≡ bytes_at f a n ++ (c ∷ [])
unfolding bytes_at
bytes_at_snoc f a n m c e =
    rw (e, bytes_at-outside f a n (a + n) c (inr (omega arith)), update_self f (a + n) c)

bytes_at_unsnoc :
    (f : ℕ → ℕ) (a n v : ℕ)
    → 0 < n
    → bytes_at (update f (a + (n - 1)) v) a (n - 1) ≡ drop_last (bytes_at f a n)
unfolding bytes_at
bytes_at_unsnoc f a zero v h = absurd (omega arith)
bytes_at_unsnoc f a (suc n) v h =
    let one_less : suc n - 1 ≡ n = omega arith in
    rw one_less (
      bytes_at-outside f a n (a + n) v (inr (omega arith))
      ∙ sym (drop_last-append (bytes_at f a n) (f (a + n))))

-- The line after the count has been set.
line_counted :
    (k : Keyboard) (t : ℕ) (kb : ℕ → ℕ) (n : ℕ)
    → line (record k { kb_buffer = kb; count = update k.count t n }) t ≡ bytes_at kb (kb_size * t) n
unfolding line
line_counted k t kb n = rw (update_self k.count t n)

append_char-line :
    (c : ℕ) (k : Keyboard)
    → line (append_char c k) k.visible_term ≡ line k k.visible_term ++ (c ∷ [])
unfolding line
append_char-line c k =
    let t = k.visible_term in
    let kb = update k.kb_buffer (kb_size * t + k.count t) c in
    line_counted k t kb (k.count t + 1)
    ∙ bytes_at_snoc k.kb_buffer (kb_size * t) (k.count t) (k.count t + 1) c (omega arith)

backspace_line :
    (k : Keyboard)
    → 0 < k.count k.visible_term
    → let t = k.visible_term in
      let n = k.count t - 1 in
      line
        (record k {
          kb_buffer = update k.kb_buffer (kb_size * t + n) 0;
          count = update k.count t n;
        })
        t
      ≡ drop_last (line k t)
unfolding line
backspace_line k h =
    let t = k.visible_term in
    let n = k.count t - 1 in
    line_counted k t (update k.kb_buffer (kb_size * t + n) 0) n
    ∙ bytes_at_unsnoc k.kb_buffer (kb_size * t) (k.count t) 0 h

drop_last-empty : (f : ℕ → ℕ) (a n : ℕ) → n ≡ 0 → bytes_at f a n ≡ drop_last (bytes_at f a n)
unfolding bytes_at
drop_last-empty f a zero e = refl
drop_last-empty f a (suc n) e = absurd (omega arith)

module _ (k : Keyboard) (s : Console) where
  type_backspace-line :
      (key : ℕ)
      → line (type_backspace key (k, s)).0 k.visible_term ≡ drop_last (line k k.visible_term)
  unfolding type_backspace line
  type_backspace-line key = elim (Bool-cases (ltb 0 (k.count k.visible_term))) [
    | inl some_left ↦ rw some_left (backspace_line k (ltb→lt _ _ some_left))
    | inr empty ↦ rw empty (
        drop_last-empty k.kb_buffer (kb_size * k.visible_term) (k.count k.visible_term)
          (ground arith))
  ]

  type_char-line :
      (key : ℕ)
      → line (type_char key (k, s)).0 k.visible_term
        ≡ line k k.visible_term ++ (typed_char k.shift_flag k.caps_flag key ∷ [])
  unfolding type_char line
  type_char-line key = elim (Bool-cases (uses_switch k.shift_flag k.caps_flag key)) [
    | inl switched ↦ rw switched (
        append_char-line (char_of (shift_switch shift_table k.caps_flag k.shift_flag key))
          (record k { shifted_char = shift_switch shift_table k.caps_flag k.shift_flag key }))
    | inr plain ↦ rw plain (append_char-line key k)
  ]

  -- Every key does to the line of the visible terminal what the line editor does to a line of text:
  -- a character or a tab is added at the end of a line of less than 127, a backspace takes the last
  -- one away, and Enter empties a full line.
  pub type_key-line :
      (scan_code : ℕ)
      → line (type_key scan_code (k, s)).0 k.visible_term ≡ edit k scan_code (line k k.visible_term)
  unfolding type_key type_tab line
  type_key-line scan_code = ground (
    arith,
    length-bytes_at k.kb_buffer (kb_size * k.visible_term) (k.count k.visible_term),
    append_char-line (key_map 0x0F) k,
    type_backspace-line (key_map 0x0E),
    type_char-line (key_map scan_code),
    line_counted k k.visible_term
        (update k.kb_buffer (kb_size * k.visible_term + 127) (key_map 0x1C)) 0,
  )
