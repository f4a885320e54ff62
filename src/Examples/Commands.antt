-- ===== src/Examples/Commands.antt =====
-- Command lines and a read on the machine of Programs.
use linux_os.Base.{
  ℕ, ◌≡◌, inl, refl, none, some, List, [], ◌∷◌, ◌++◌, arith, drop, replicate, codes,
}
use linux_os.Base.Int.{pos, minus_one}
use linux_os.Strings.{strlen, strcpy}
use linux_os.Strings.Compare.{c_prefix}
use linux_os.FileSystem.Lookup.{FirstNamed, here, later}
use linux_os.FileSystem.Read.{file_bytes}
use linux_os.Command.{parse_command, split_command, skip_blanks, take_word, write_over}
use linux_os.Machine.{Machine, returned, to_user}
use linux_os.Process.{descriptor, find_available_pid, find_free}
use linux_os.Execute.{elf_magic, new_pcb, execute_terminal}
use linux_os.Drivers.{Waits, read_call}
use linux_os.Drivers.Files.{sys_read-bytes}
use linux_os.Execute.Starts.{Started, execute_terminal-Started}
use linux_os.Execute.Refused.{SameProcesses, no_program, execute_terminal-refused}
use linux_os.Command.Parse.{parse_command_lem}
use linux_os.Examples.Image.{
  node, image, entry, program, shell_entry, blank, image-IsValid, all_bytes-AllBytes,
}
use linux_os.Examples.Programs.{idle, call_regs, shell_line}

-- `frame0.txt` is no program.
abbrev file_line : List ℕ
file_line = codes "frame0.txt" ++ (0 ∷ 0 ∷ 7 ∷ 0 ∷ [])

abbrev file_buffer : List ℕ
file_buffer = codes "frame0.txt" ++ replicate 54 0

abbrev file_args : List ℕ
file_args = 7 ∷ replicate 127 0

file_parsed :
    parse_command file_line (replicate 64 0) (replicate 128 0) ≡ some (file_buffer, file_args)
unfolding parse_command split_command skip_blanks take_word write_over
file_parsed = refl

file_len : strlen file_buffer ≡ some 10
unfolding strlen
file_len = refl

file_head : file_bytes image node 0 4 ≡ some (7 ∷ 8 ∷ 9 ∷ 10 ∷ [])
unfolding file_bytes
file_head = refl

execute_terminal-refused_example :
    (m' : Machine) × (execute_terminal (some file_line) 1 (replicate 128 0) blank call_regs idle
      ≡ some (returned minus_one m'))
    × SameProcesses idle m'
execute_terminal-refused_example =
    execute_terminal-refused file_line 1 (replicate 128 0) blank call_regs idle file_buffer
      file_args file_parsed (all_bytes-AllBytes file_buffer refl) file_len (omega arith)
      image-IsValid refl
      (no_program entry node (7 ∷ 8 ∷ 9 ∷ 10 ∷ []) (here entry _ refl) (omega arith) refl file_head
        (λ e. cc))

parse_command_lem_example :
    (buffer' arg_buf' : List ℕ) × (parse_command
        (codes "  cat " ++ (32 ∷ codes "frame0.txt" ++ (0 ∷ [])))
        (replicate 64 1)
        (replicate 128 2)
      ≡ some (buffer', arg_buf'))
    × (c_prefix 64 buffer' ≡ codes "cat")
    × (c_prefix 128 arg_buf' ≡ codes "frame0.txt")
parse_command_lem_example =
    parse_command_lem (codes "  ") (codes "cat") 32 (codes " ") (codes "frame0.txt") 0 []
      (replicate 64 1) (replicate 128 2) (refl, (refl, tt)) (refl, (refl, (refl)))
      (refl, (refl, tt))
      (refl, (refl, (refl, (refl, (refl, (refl, (refl, (refl, (refl, (refl)))))))))) refl
      (omega arith) (omega arith)

abbrev shell_buffer : List ℕ
shell_buffer = codes "shell" ++ replicate 59 0

shell_parsed :
    parse_command shell_line (replicate 64 0) (replicate 128 0) ≡ some (shell_buffer, file_args)
unfolding parse_command split_command skip_blanks take_word write_over
shell_parsed = refl

shell_len : strlen shell_buffer ≡ some 5
unfolding strlen
shell_len = refl

shell_first : FirstNamed shell_buffer image.origin.direntries (some shell_entry)
shell_first =
    later entry (drop 1 image.origin.direntries) (some shell_entry) (λ e. ground (arith, e))
      (here shell_entry (drop 2 image.origin.direntries) refl)

shell_elf : file_bytes image program 0 4 ≡ some elf_magic
unfolding file_bytes
shell_elf = refl

idle_free : find_available_pid idle.kernel ≡ pos 0
unfolding find_available_pid find_free
idle_free = refl

args_copied : strcpy (replicate 32 0) file_args ≡ some (7 ∷ replicate 31 0)
unfolding strcpy
args_copied = refl

execute_terminal-Started_example :
    (eip : ℕ) × (m' : Machine) × (execute_terminal
        (some shell_line)
        0
        (replicate 128 0)
        blank
        call_regs
        idle
      ≡ some (to_user eip m'))
    × Started idle image program 0 0 eip
        (new_pcb 0 0 none (7 ∷ replicate 31 0) call_regs idle.kernel.pcbs 0)
        m'
execute_terminal-Started_example =
    execute_terminal-Started shell_line 0 (replicate 128 0) blank call_regs idle shell_buffer
      file_args (7 ∷ replicate 31 0) shell_entry program 0 shell_parsed
      (all_bytes-AllBytes shell_buffer refl) shell_len (omega arith) image-IsValid shell_first
      (omega arith) refl shell_elf (omega arith) refl idle_free args_copied

-- Nothing happens while a call waits.
abbrev no_waits : Waits
no_waits = record { handlers = []; events = []; prev = 0x26 }

sys_read-bytes_example :
    (bs : List ℕ) × (m' : Machine) × (file_bytes image node 0 900 ≡ some bs)
    × (read_call no_waits (replicate 1000 7) (pos 2) (pos 900) idle
        ≡ some (pos 900, bs ++ drop 900 (replicate 1000 7), m'))
    × ((descriptor m'.kernel 2).file_position ≡ 900)
    × (m'.kernel.fs ≡ image)
sys_read-bytes_example =
    sys_read-bytes no_waits (replicate 1000 7) idle 2 900 image-IsValid refl (omega arith)
      (omega arith) refl refl (omega arith) (omega arith) (omega arith) (inl (omega arith))
