-- ===== src/Keyboard/Bounds.antt =====
-- The bounds of the buffers of keyboard.c under the keys.
use linux_os.Base.{ℕ, ◌+◌, ◌*◌, ◌≤◌, ◌<◌, ◌≡◌, ◌⊎◌, inl, inr, refl, arith, ltb, Bool-cases}
use linux_os.Base.Int.{ℤ}
use linux_os.Console.{Console}
use linux_os.Keyboard.{
  Keyboard, type_tab, type_backspace, type_char, type_key, kb_size, append_char, uses_switch,
  key_map,
}

-- What a key leaves as it is, and the bound that it keeps.
pub record Stays (k : Keyboard) (t a : ℕ) (k' : Keyboard) : Type 0 where
  pub counted : k'.count t ≤ 127
  pub kb_buffer_same : k'.kb_buffer a ≡ k.kb_buffer a
  pub term_buffer_same : k'.term_buffer ≡ k.term_buffer

module _ (k : Keyboard) (s : Console) (t a : ℕ) (ht : k.count t ≤ 127)
    (away : (a < kb_size * k.visible_term) ⊎ (kb_size * k.visible_term + kb_size ≤ a)) where
  append_char-Stays :
      (c : ℕ) (z : ℤ)
      → k.count k.visible_term < 127
      → Stays k t a (append_char c (record k { shifted_char = z }))
  append_char-Stays c z h = record {
    counted = ground arith;
    kb_buffer_same = ground arith;
    term_buffer_same = refl;
  }

  type_tab-Stays : (key : ℕ) → k.count k.visible_term < 127 → Stays k t a (type_tab key (k, s)).0
  unfolding type_tab
  type_tab-Stays key h = append_char-Stays key k.shifted_char h

  type_backspace-Stays :
      (key : ℕ) → k.count k.visible_term < 127 → Stays k t a (type_backspace key (k, s)).0
  unfolding type_backspace
  type_backspace-Stays key h = elim (Bool-cases (ltb 0 (k.count k.visible_term))) [
    | inl some_left ↦
        rw some_left (record {
          counted = ground arith;
          kb_buffer_same = ground arith;
          term_buffer_same = refl;
        })
    | inr empty ↦ rw empty (record { counted = ht; kb_buffer_same = refl; term_buffer_same = refl })
  ]

  type_char-Stays : (key : ℕ) → k.count k.visible_term < 127 → Stays k t a (type_char key (k, s)).0
  unfolding type_char
  type_char-Stays key h = elim (Bool-cases (uses_switch k.shift_flag k.caps_flag key)) [
    | inl switched ↦ rw switched (append_char-Stays _ _ h)
    | inr plain ↦ rw plain (append_char-Stays key k.shifted_char h)
  ]

-- No key makes a count exceed 127, writes outside the 128 bytes of the visible terminal's line, or
-- changes a terminal buffer. The counts of the visible terminal and
-- of the one looked at are at most 127.
pub type_key-Stays :
    (k : Keyboard) (s : Console) (scan_code t a : ℕ)
    → k.count k.visible_term ≤ 127
    → k.count t ≤ 127
    → (a < kb_size * k.visible_term) ⊎ (kb_size * k.visible_term + kb_size ≤ a)
    → Stays k t a (type_key scan_code (k, s)).0
unfolding type_key
type_key-Stays k s scan_code t a h ht away = ground (
  arith,
  type_tab-Stays k s t a ht away (key_map 0x0F),
  type_backspace-Stays k s t a ht away (key_map 0x0E),
  type_char-Stays k s t a ht away (key_map scan_code),
)
