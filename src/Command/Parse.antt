-- ===== src/Command/Parse.antt =====
-- What the four loops of `execute_terminal` find in a command line.
use linux_os.Base.{
  ℕ, zero, suc, ◌-◌, ◌≤◌, ◌<◌, ◌≡◌, refl, true, false, some, List, [], ◌∷◌, ◌++◌, arith, length,
  drop, replicate,
}
use linux_os.Strings.Compare.{c_prefix}
use linux_os.Command.{
  is_blank, skip_blanks, take_word, split_command, write_over, clear_34, parse_command,
}

abbrev pub AllBlank : List ℕ → Type 0
AllBlank [] = Unit
AllBlank (c ∷ cs) = (is_blank c ≡ true) × AllBlank cs

-- A word that is not empty.
abbrev pub IsWord : List ℕ → Type 0
IsWord [] = ⊥
IsWord (c ∷ []) = is_blank c ≡ false
IsWord (c ∷ cs) = (is_blank c ≡ false) × IsWord cs

skip_blanks-append :
    (blanks word rest : List ℕ)
    → AllBlank blanks
    → IsWord word
    → skip_blanks (blanks ++ (word ++ rest)) ≡ some (word ++ rest)
unfolding skip_blanks
skip_blanks-append [] [] rest b w = absurd w
skip_blanks-append [] (c ∷ []) rest b w = ground (arith, w)
skip_blanks-append [] (c ∷ (d ∷ cs)) rest b w = ground (arith, w.0)
skip_blanks-append (c ∷ blanks) word rest b w =
    ground (arith, b.0, skip_blanks-append blanks word rest b.1 w)

take_word-append :
    (word : List ℕ) (c : ℕ) (rest : List ℕ)
    → IsWord word
    → is_blank c ≡ true
    → take_word (word ++ (c ∷ rest)) ≡ some (word, c ∷ rest)
unfolding take_word
take_word-append [] c rest w b = absurd w
take_word-append (x ∷ []) c rest w b = ground (arith, w, b)
take_word-append (x ∷ (y ∷ word)) c rest w b =
    ground (arith, w.0, take_word-append (y ∷ word) c rest w.1 b)

split_command-words :
    (blanks name : List ℕ) (c : ℕ) (more arg : List ℕ) (e : ℕ) (rest : List ℕ)
    → AllBlank blanks
    → IsWord name
    → AllBlank (c ∷ more)
    → IsWord arg
    → is_blank e ≡ true
    → split_command (blanks ++ (name ++ (c ∷ (more ++ (arg ++ (e ∷ rest)))))) ≡ some (name, arg)
unfolding split_command
split_command-words blanks name c more arg e rest b n m a last = ground (
  arith,
  skip_blanks-append blanks name (c ∷ (more ++ (arg ++ (e ∷ rest)))) b n,
  take_word-append name c (more ++ (arg ++ (e ∷ rest))) n m.0,
  skip_blanks-append (c ∷ more) arg (e ∷ rest) m a,
  take_word-append arg e rest a last,
)

pub write_over-append :
    (bytes dest : List ℕ)
    → length bytes ≤ length dest
    → write_over bytes dest ≡ some (bytes ++ drop (length bytes) dest)
unfolding write_over
write_over-append [] dest h = refl
write_over-append (c ∷ bytes) [] h = absurd (omega arith)
write_over-append (c ∷ bytes) (d ∷ dest) h = rw (write_over-append bytes dest (omega arith)) refl

pub write_over-same_length :
    (bytes dest : List ℕ) → length bytes ≡ length dest → write_over bytes dest ≡ some bytes
unfolding write_over
write_over-same_length [] [] h = refl
write_over-same_length [] (d ∷ dest) h = absurd (omega arith)
write_over-same_length (c ∷ bytes) [] h = absurd (omega arith)
write_over-same_length (c ∷ bytes) (d ∷ dest) h =
    rw (write_over-same_length bytes dest (omega arith)) refl

drop-zeros :
    (n k : ℕ) (rest : List ℕ)
    → n < k
    → drop n (replicate k 0 ++ rest) ≡ 0 ∷ (replicate (k - n - 1) 0 ++ rest)
drop-zeros n zero rest h = absurd (omega arith)
drop-zeros zero (suc k) rest h = let e : suc k - 0 - 1 ≡ k = omega arith in rw e refl
drop-zeros (suc n) (suc k) rest h =
    let e : suc k - suc n - 1 ≡ k - n - 1 = omega arith in rw e (drop-zeros n k rest (omega arith))

c_prefix-append :
    (word rest : List ℕ) (n : ℕ)
    → IsWord word
    → length word < n
    → c_prefix n (word ++ (0 ∷ rest)) ≡ word
c_prefix-append [] rest n w h = absurd w
c_prefix-append (c ∷ word) rest zero w h = absurd (omega arith)
c_prefix-append (c ∷ []) rest (suc zero) w h = absurd (omega arith)
c_prefix-append (c ∷ []) rest (suc (suc n)) w h = ground (arith, w)
c_prefix-append (c ∷ (d ∷ word)) rest (suc n) w h =
    ground (arith, w.0, c_prefix-append (d ∷ word) rest n w.1 (omega arith))

-- A word that is written over a cleared array is the C string in it.
write_over-clear_34 :
    (word dest : List ℕ) (n : ℕ)
    → IsWord word
    → length word ≤ 33
    → 34 ≤ n
    → (dest' : List ℕ) × (write_over word (clear_34 dest) ≡ some dest') × (c_prefix n dest' ≡ word)
write_over-clear_34 word dest n w short wide = (
  word ++ drop (length word) (clear_34 dest),
  write_over-append word (clear_34 dest) (omega arith),
  rw (drop-zeros (length word) 34 (drop 34 dest) (omega arith))
      (c_prefix-append word _ n w (omega arith)),
)

-- A command line of a name and an argument, of 1 to 33 bytes each, with blanks before, between and
-- after them, gives the two words as the C strings of `buffer` and `arg_buf`, whatever these held.
-- A zero is a blank as well, also the one that ends the line: after a name alone the argument is the
-- word that the memory holds behind the line.
pub parse_command_lem :
    (blanks name : List ℕ) (c : ℕ) (more arg : List ℕ) (e : ℕ) (rest buffer arg_buf : List ℕ)
    → AllBlank blanks
    → IsWord name
    → AllBlank (c ∷ more)
    → IsWord arg
    → is_blank e ≡ true
    → length name ≤ 33
    → length arg ≤ 33
    → (buffer' arg_buf' : List ℕ) × (parse_command
          (blanks ++ (name ++ (c ∷ (more ++ (arg ++ (e ∷ rest))))))
          buffer
          arg_buf
        ≡ some (buffer', arg_buf'))
      × (c_prefix 64 buffer' ≡ name)
      × (c_prefix 128 arg_buf' ≡ arg)
unfolding parse_command
parse_command_lem blanks name c more arg e rest buffer arg_buf b n m a last short short' =
    let split = split_command-words blanks name c more arg e rest b n m a last in
    let (buffer', named, is_name) = write_over-clear_34 name buffer 64 n short (omega arith) in
    let (arg_buf', given, is_arg) = write_over-clear_34 arg arg_buf 128 a short' (omega arith) in
    (buffer', arg_buf', ground (arith, split, named, given), is_name, is_arg)
