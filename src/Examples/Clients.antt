-- ===== src/Examples/Clients.antt =====
-- The user programs of LinuxOS/syscalls on a machine with a file of 5000 bytes, and numbers as texts.
use linux_os.Base.{
  ℕ, ◌-◌, ◌*◌, ◌≤◌, ◌≡◌, refl, ◌≢◌, sym, ◌∙◌, some, List, [], ◌∷◌, ◌++◌, arith, ◌==◌, if◌then◌else◌,
  length, replicate, codes,
}
use linux_os.Base.Int.{pos, minus_one}
use linux_os.FileSystem.{block_size}
use linux_os.FileSystem.Valid.{block_len}
use linux_os.FileSystem.Lookup.{here}
use linux_os.FileSystem.Read.{file_bytes}
use linux_os.Process.{
  FileDescriptor, rtc_file_op, stdin_file_op, stdout_file_op, directory_file_op, bad_file_op,
}
use linux_os.Strings.{strlen, itoa, strrev}
use linux_os.Strings.Numerals.{read_numeral, AllDigits, itoa-read_numeral}
use linux_os.Strings.Reverse.{reverse, strrev-text, is_text-IsText}
use linux_os.Terminal.Laws.{print_bytes}
use linux_os.User.{exited}
use linux_os.User.Kernel.{World, Environment, kernel}
use linux_os.User.Programs.{cat, ls_loop}
use linux_os.User.CatName.{cat-file, argument_memory}
use linux_os.User.Copies.{lines}
use linux_os.User.Names.{listed}
use linux_os.User.Directory.{ls_loop-directory}
use linux_os.User.Errors.{
  err_neg_fd, err_big_fd, err_vidmap, err_stdin_out, err_syscall_num, err_unopened,
}
use linux_os.User.Refusals.{Passes, refused-Passes}
use linux_os.User.Unopened.{Unopened, err_unopened-Passes}
use linux_os.User.Support.{ece391_itoa}
use linux_os.User.Agree.{ece391_itoa-itoa}
use linux_os.Examples.Image.{blank, image, node, entry, image-IsValid, all_bytes-AllBytes}
use linux_os.Examples.Processes.{one_shell}
use linux_os.Examples.Programs.{idle}

abbrev env : Environment
env = record {
  waits = λ n. record { handlers = []; events = []; prev = 0x26 };
  local = λ n. blank;
  prev = λ n. 0x26;
  execute = λ command w. some (minus_one, w);
  entry = λ n w. some (minus_one, w);
}

-- The keyboard, the screen, and one more descriptor.
abbrev descriptors : FileDescriptor → ℕ → FileDescriptor
descriptors d fd =
    if fd == 0
    then record { jmp_pointer = stdin_file_op; inode_num = 0; file_position = 0; flag = 1 }
    else if fd == 1
    then record { jmp_pointer = stdout_file_op; inode_num = 0; file_position = 0; flag = 1 }
    else if fd == 2
    then d
    else record { jmp_pointer = bad_file_op; inode_num = 0; file_position = 0; flag = 0 }

abbrev unused : FileDescriptor
unused = record { jmp_pointer = bad_file_op; inode_num = 0; file_position = 0; flag = 0 }

abbrev directory : FileDescriptor
directory = record { jmp_pointer = directory_file_op; inode_num = 0; file_position = 0; flag = 1 }

abbrev client : FileDescriptor → World
client d = record {
  machine = record idle {
    kernel = record one_shell {
      pcbs = λ p. record (one_shell.pcbs p) {
        fd_arr = descriptors d;
        args = codes "frame0.txt" ++ replicate 22 0;
      };
    };
  };
  time = 0;
}

abbrev buffer : List ℕ
buffer = replicate 1024 0

name_len : strlen (argument_memory (client unused).machine.kernel buffer) ≡ some 10
unfolding strlen
name_len = refl

cat-file_example :
    (bs : List ℕ) × (w' : World) × (file_bytes image node 0 (block_size * block_len node - 1)
      ≡ some bs)
    × (cat (kernel env) 9 buffer (client unused) ≡ some (exited (pos 0) w'))
    × (w'.machine.console ≡ print_bytes bs (client unused).machine.console)
cat-file_example =
    cat-file env (client unused) 9 2 buffer entry node image-IsValid refl (omega arith)
      (all_bytes-AllBytes (argument_memory (client unused).machine.kernel buffer) refl) name_len
      (omega arith) (omega arith) (here entry _ refl) (omega arith) refl refl (omega arith)
      (omega arith) refl (λ m low high. absurd (omega arith)) refl (omega arith) (omega arith)

ls_loop-directory_example :
    (w' : World) × (ls_loop (kernel env) 64 (pos 2) (replicate 33 0) (client directory)
      ≡ some (exited (pos 0) w'))
    × (w'.machine.console
        ≡ print_bytes (lines (listed image.origin.direntries)) (client directory).machine.console)
ls_loop-directory_example =
    ls_loop-directory env (client directory) 2 64 (replicate 33 0) image-IsValid (omega arith)
      (omega arith) refl refl refl refl (omega arith) (omega arith) (omega arith)

refused-Passes_example :
    Passes
      (codes "err_neg_fd")
      (client unused)
      (err_neg_fd (kernel env) (replicate 32 0) (client unused))
    × Passes
        (codes "err_big_fd")
        (client unused)
        (err_big_fd (kernel env) (replicate 32 0) (client unused))
    × Passes (codes "err_vidmap") (client unused) (err_vidmap (kernel env) (client unused))
    × Passes
        (codes "err_stdin_out")
        (client unused)
        (err_stdin_out (kernel env) (replicate 32 0) (client unused))
    × Passes
        (codes "err_syscall_num")
        (client unused)
        (err_syscall_num (kernel env) (client unused))
refused-Passes_example = refused-Passes env (client unused) (replicate 32 0) refl (omega arith)

table_of_unused : (i : ℕ) → 2 ≤ i → (descriptors unused i).jmp_pointer ≡ bad_file_op
table_of_unused i low = ground arith

unused-Unopened : Unopened (client unused).machine.kernel
unused-Unopened = record {
  free = λ i low high. ground arith;
  no_screen = λ i low high e. bad_is_no_screen (sym (table_of_unused i low) ∙ e);
  no_clock = λ i low high e. bad_is_no_clock (sym (table_of_unused i low) ∙ e);
}
  where
    bad_is_no_screen : bad_file_op ≢ stdout_file_op
    bad_is_no_screen e = cc

    bad_is_no_clock : bad_file_op ≢ rtc_file_op
    bad_is_no_clock e = cc

err_unopened-Passes_example :
    Passes
      (codes "err_unopened")
      (client unused)
      (err_unopened (kernel env) (replicate 32 0) (client unused))
err_unopened-Passes_example =
    err_unopened-Passes env (client unused) (replicate 32 0) unused-Unopened refl (omega arith)

itoa-read_numeral_example :
    (s : List ℕ) × (itoa 4000000000 7 ≡ some (s ++ 0 ∷ []))
    × (read_numeral 7 0 s ≡ 4000000000)
    × AllDigits 7 s
    × (length s ≤ 32)
itoa-read_numeral_example = itoa-read_numeral 4000000000 7 (omega arith) (omega arith) (omega arith)

strrev-text_example :
    strrev (codes "shell" ++ 0 ∷ 7 ∷ []) ≡ some (reverse (codes "shell") ++ 0 ∷ 7 ∷ [])
strrev-text_example = strrev-text (codes "shell") (7 ∷ []) (is_text-IsText (codes "shell") refl)

ece391_itoa-itoa_example : ece391_itoa 255 16 ≡ itoa 255 16
ece391_itoa-itoa_example = ece391_itoa-itoa 255 16
