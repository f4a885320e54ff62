-- ===== src/Printf/Texts.antt =====
-- Formats without a conversion.
use linux_os.Base.{ℕ, ◌≡◌, ◌≢◌, refl, List, [], ◌∷◌, ◌++◌, arith}
use linux_os.Console.{Console, putc, puts}
use linux_os.Printf.{printf_loop, printf}

-- No byte of a text ends the format or begins a conversion.
abbrev pub IsPlain : List ℕ → Type 0
IsPlain [] = Unit
IsPlain (c ∷ cs) = (c ≢ 0) × (c ≢ b'%') × IsPlain cs

-- printf of a text without a conversion is puts of the text: it prints the same and returns the same.
pub printf-puts :
    (memory : ℕ → List ℕ) (format rest esp : List ℕ) (s : Console)
    → IsPlain format
    → printf memory (format ++ (0 ∷ rest)) esp s ≡ puts (format ++ (0 ∷ rest)) s
unfolding printf printf_loop puts
printf-puts memory [] rest esp s plain = refl
printf-puts memory (c ∷ format) rest esp s plain =
    ground (arith, plain.0, plain.1, printf-puts memory format rest esp (putc c s) plain.2)
