-- ===== src/Command.antt =====
-- How `execute_terminal` of LinuxOS/student-distrib/sysCalls.c takes a command line apart. The command
-- is the memory from its pointer on: the loops know no end of the string.
pub mod Parse
use linux_os.Base.{
  ℕ, Bool, ◌||◌, Option, none, some, List, [], ◌∷◌, ◌++◌, ◌==◌, if◌then◌else◌, ◌>>=◌, ◌>>◌, drop,
  replicate,
}

abbrev pub is_blank : ℕ → Bool
is_blank c = (c == 10) || (c == 0) || (c == 32)

unfoldable pub skip_blanks : List ℕ → Option (List ℕ)
skip_blanks [] = none
skip_blanks (c ∷ cmd) = if is_blank c then skip_blanks cmd else some (c ∷ cmd)

-- The bytes up to a blank, and the rest from the blank on.
unfoldable pub take_word : List ℕ → Option (List ℕ × List ℕ)
take_word [] = none
take_word (c ∷ cmd) =
    if is_blank c
    then some ([], c ∷ cmd)
    else (do (word, rest) ← take_word cmd; some (c ∷ word, rest))

-- The name of the program, and its argument.
unfoldable pub split_command : List ℕ → Option (List ℕ × List ℕ)
unfolding skip_blanks take_word
split_command cmd = do
  start ← skip_blanks cmd
  (name, rest) ← take_word start
  start' ← skip_blanks rest
  (arg, rest') ← take_word start'
  some (name, arg)

-- Bytes written from the beginning of an array on; a write past its end is a fault.
unfoldable pub write_over : List ℕ → List ℕ → Option (List ℕ)
write_over [] dest = some dest
write_over (c ∷ bytes) [] = none
write_over (c ∷ bytes) (d ∷ dest) = do r ← write_over bytes dest; some (c ∷ r)

-- x[0] to x[33] are cleared, in `buffer` and in `arg_buf`.
abbrev pub clear_34 : List ℕ → List ℕ
clear_34 bytes = replicate 34 0 ++ drop 34 bytes

-- `buffer` and `arg_buf` after the loops, from what they hold before.
unfoldable pub parse_command : List ℕ → List ℕ → List ℕ → Option (List ℕ × List ℕ)
unfolding split_command write_over
parse_command cmd buffer arg_buf = do
  (name, arg) ← split_command cmd
  buffer' ← write_over name (clear_34 buffer)
  arg_buf' ← write_over arg (clear_34 arg_buf)
  some (buffer', arg_buf')
