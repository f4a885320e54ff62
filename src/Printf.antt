-- ===== src/Printf.antt =====
-- `printf` of LinuxOS/student-distrib/lib.c.
pub mod Texts
pub mod Total
use linux_os.Base.{
  ℕ, suc, ◌-◌, ◌%◌, ◌^◌, Bool, true, false, not, ◌||◌, Option, none, some, List, [], ◌∷◌, ◌++◌, ltb,
  ◌==◌, if◌then◌else◌, ◌>>=◌, ◌>>◌, drop, replicate,
}
use linux_os.Console.{Console, putc, puts}
use linux_os.Strings.{strlen, itoa}

-- Where the loop is in the format: in the text, or behind a `%`, with the flag for `#`.
pub data Place : Type 0 where
  text : Place
  conversion : Bool → Place

-- %#x: the digits go to `conv_buf` from index 8 on, and zeros before them from the index that is their
-- number.
unfoldable pub pad_hex : List ℕ → Option (List ℕ)
pad_hex digits = do
  starting_index ← strlen digits
  some (replicate (8 - starting_index) b'0' ++ drop (starting_index - 8) digits)

-- A negative number has the highest bit of the word.
unfoldable pub signed_text : ℕ → Option (List ℕ)
signed_text value =
    if ltb value (2 ^ 31)
    then itoa value 10
    else (do digits ← itoa (2 ^ 32 - value) 10; some (b'-' ∷ digits))

-- What %x, %u, %d or %s prints, with its zero at the end. `memory` has the bytes from an address on.
unfoldable pub converted : (ℕ → List ℕ) → ℕ → Bool → ℕ → Option (List ℕ)
converted memory c alternate word =
    if c == b'x'
    then (do digits ← itoa word 16; if alternate then pad_hex digits else some digits)
    else if c == b'u'
    then itoa word 10
    else if c == b'd'
    then signed_text word
    else some (memory word)

abbrev pub takes_word : ℕ → Bool
takes_word c = (c == b'x') || (c == b'u') || (c == b'd') || (c == b'c') || (c == b's')

-- One conversion: the words that are left, and the screen.
unfoldable pub convert : (ℕ → List ℕ) → ℕ → Bool → List ℕ → Console → Option (List ℕ × Console)
convert memory c alternate esp s =
    if c == b'%'
    then some (esp, putc b'%' s)
    else if not (takes_word c)
    then some (esp, s)
    else elim esp [
      | [] ↦ none
      | word ∷ esp' ↦ if c == b'c' then some (esp', putc (word % 256) s) else (do
        printed ← converted memory c alternate word
        (n, s') ← puts printed s
        some (esp', s'))
    ]

-- The loop, with the format from `buf` on, to the end of the memory. A conversion is not tested for
-- the zero that ends the format. The result is the number of bytes that `buf` goes on.
unfoldable pub printf_loop : (ℕ → List ℕ) → Place → List ℕ → List ℕ → Console → Option (ℕ × Console)
printf_loop memory place [] esp s = none
printf_loop memory text (c ∷ buf) esp s = if c == 0 then some (0, s) else (do
  (n, s') ←
      if c == b'%'
      then printf_loop memory (conversion false) buf esp s
      else printf_loop memory text buf esp (putc c s)
  some (suc n, s'))
printf_loop memory (conversion alternate) (c ∷ buf) esp s =
    if c == b'#'
    then (do (n, s') ← printf_loop memory (conversion true) buf esp s; some (suc n, s'))
    else (do
      (esp', s') ← convert memory c alternate esp s
      (n, s'') ← printf_loop memory text buf esp' s'
      some (suc n, s''))

unfoldable pub printf : (ℕ → List ℕ) → List ℕ → List ℕ → Console → Option (ℕ × Console)
printf memory format esp s = printf_loop memory text format esp s
