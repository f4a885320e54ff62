-- ===== src/Examples/Programs.antt =====
-- A machine before its first shell, and the programs on it.
use linux_os.Base.{
  ◌+◌, ◌*◌, ℕ, ◌≡◌, refl, Option, none, some, List, [], ◌∷◌, ◌++◌, arith, replicate, codes,
}
use linux_os.Base.Int.{pos, ◌-ℤ◌}
use linux_os.Strings.{strlen, strncmp, strcpy}
use linux_os.FileSystem.{
  set_dentry_obj, FileSystem, Dentry, read_dentry_by_index, find_dentry, read_dentry_by_name,
  read_data, open_f,
}
use linux_os.Command.{parse_command, split_command, skip_blanks, take_word, write_over}
use linux_os.Machine.{program_address, Machine, Registers, Outcome, to_user, to_stack}
use linux_os.Paging.{page_init, Paging}
use linux_os.Process.{find_available_pid, find_free, sys_close}
use linux_os.Execute.{execute_terminal, check_executable, set_prog_eip, start_program, sys_execute}
use linux_os.Scheduler.{pit_handler}
use linux_os.Lifecycle.{IsLive, machine_of, executed, closed, start, more}
use linux_os.Lifecycle.Boot.{IsIdle, by_timer, Boot-IsLive, Steps-IsTree, Steps-program_address}
use linux_os.Lifecycle.Calls.{sys_execute-IsLive}
use linux_os.Halt.{sys_halt, stat_ret_val}
use linux_os.Halt.Returns.{sys_execute-sys_halt}
use linux_os.Scheduler.Switch.{IsNext, GoesTo, pit_handler-GoesTo}
use linux_os.Process.Tree.{IsTree}
use linux_os.Execute.Starts.{memory_of}
use linux_os.Examples.Image.{blank}
use linux_os.Examples.Processes.{one_shell}
use linux_os.Examples.Devices.{no_pages, all_masked}
use linux_os.Examples.Screens.{screen, keys}

abbrev pub idle : Machine
idle = record {
  kernel = record one_shell { tasks = λ p. 0 };
  keyboard = keys;
  console = screen;
  paging = page_init no_pages;
  pic = all_masked;
  terminal_arr = λ t. none;
  user_memory = λ a. 0;
  buffer = replicate 64 0;
  magic = replicate 4 0;
  prog_eip = 0;
  esp0 = 0x7FFFFC;
}

abbrev pub call_regs : Registers
call_regs = record { esp = 0x7FFF00; ebp = 0x7FFF20 }

abbrev pub shell_line : List ℕ
shell_line = codes "shell" ++ (0 ∷ 0 ∷ 7 ∷ 0 ∷ [])

abbrev machine_at : Option Outcome → Machine
machine_at (some o) = machine_of o
machine_at none = idle

abbrev eip_at : Option Outcome → ℕ
eip_at (some (to_user eip m)) = eip
eip_at o = 0

-- The first shell, which starts at the word that begins at the byte 24 of its file.
abbrev boot : Option Outcome
boot = pit_handler shell_line (replicate 128 0) blank call_regs idle

abbrev booted : Machine
booted = machine_at boot

booted_is : boot ≡ some (to_user 0x1B1A1918 booted)
unfolding pit_handler execute_terminal parse_command check_executable start_program
    find_available_pid set_prog_eip open_f read_dentry_by_name strlen find_dentry strncmp ◌-ℤ◌
    read_dentry_by_index read_data linux_os.FileSystem.read_loop find_free
    linux_os.FileSystem.get_file_len linux_os.FileSystem.next_block strcpy skip_blanks split_command
    take_word write_over linux_os.Paging.map_memory
booted_is = refl

-- A second one, which the first starts.
abbrev second : Option Outcome
second = sys_execute (some shell_line) (replicate 128 0) blank call_regs booted

abbrev running : Machine
running = machine_at second

running_is : second ≡ some (to_user 0x1B1A1918 running)
unfolding sys_execute pit_handler execute_terminal parse_command check_executable start_program
    find_available_pid set_prog_eip open_f read_dentry_by_name strlen find_dentry strncmp ◌-ℤ◌
    read_dentry_by_index read_data linux_os.FileSystem.read_loop find_free
    linux_os.FileSystem.get_file_len linux_os.FileSystem.next_block strcpy skip_blanks split_command
    take_word write_over linux_os.Paging.map_memory
running_is = refl

booted_pid : booted.kernel.pid ≡ 0
unfolding sys_execute pit_handler execute_terminal parse_command check_executable start_program
    find_available_pid set_prog_eip open_f read_dentry_by_name strlen find_dentry strncmp ◌-ℤ◌
    read_dentry_by_index read_data linux_os.FileSystem.read_loop find_free
    linux_os.FileSystem.get_file_len linux_os.FileSystem.next_block strcpy skip_blanks split_command
    take_word write_over linux_os.Paging.map_memory
booted_pid = refl

running_idx : (running.kernel.pcbs running.kernel.pid).terminal_idx ≡ 0
unfolding sys_execute pit_handler execute_terminal parse_command check_executable start_program
    find_available_pid set_prog_eip open_f read_dentry_by_name strlen find_dentry strncmp ◌-ℤ◌
    read_dentry_by_index read_data linux_os.FileSystem.read_loop find_free
    linux_os.FileSystem.get_file_len linux_os.FileSystem.next_block strcpy skip_blanks split_command
    take_word write_over linux_os.Paging.map_memory
running_idx = refl

running_front : running.terminal_arr 0 ≡ some 1
unfolding sys_execute pit_handler execute_terminal parse_command check_executable start_program
    find_available_pid set_prog_eip open_f read_dentry_by_name strlen find_dentry strncmp ◌-ℤ◌
    read_dentry_by_index read_data linux_os.FileSystem.read_loop find_free
    linux_os.FileSystem.get_file_len linux_os.FileSystem.next_block strcpy skip_blanks split_command
    take_word write_over linux_os.Paging.map_memory
running_front = refl

idle-IsIdle : IsIdle idle
idle-IsIdle = record { no_tasks = λ p. refl; no_front = λ t. refl }

booted-IsLive : IsLive booted
booted-IsLive =
    Boot-IsLive idle-IsIdle
      (by_timer shell_line (replicate 128 0) blank call_regs (to_user 0x1B1A1918 booted) booted_is)

-- The second shell starts, and then closes a descriptor.
Steps-IsTree_example :
    IsTree
      (sys_close (pos 5) running.kernel).1.tasks
      (sys_close (pos 5) running.kernel).1.pcbs
      running.terminal_arr
      (sys_close (pos 5) running.kernel).1.pid
Steps-IsTree_example =
    Steps-IsTree idle booted (record running { kernel = (sys_close (pos 5) running.kernel).1 })
      idle-IsIdle
      (by_timer shell_line (replicate 128 0) blank call_regs (to_user 0x1B1A1918 booted) booted_is)
      (more
        (more start (
          executed (some shell_line) (replicate 128 0) blank call_regs booted
            (to_user 0x1B1A1918 running) running_is))
        (closed (pos 5) running))

running_pid : running.kernel.pid ≡ 1
unfolding sys_execute pit_handler execute_terminal parse_command check_executable start_program
    find_available_pid set_prog_eip open_f read_dentry_by_name strlen find_dentry strncmp ◌-ℤ◌
    read_dentry_by_index read_data linux_os.FileSystem.read_loop find_free
    linux_os.FileSystem.get_file_len linux_os.FileSystem.next_block strcpy skip_blanks split_command
    take_word write_over linux_os.Paging.map_memory
running_pid = refl

Steps-program_address_example :
    program_address running.paging 0x48018 ≡ 0x800000 + running.kernel.pid * 0x400000 + 0x48018
Steps-program_address_example =
    Steps-program_address idle booted running 0x48018 idle-IsIdle
      (by_timer shell_line (replicate 128 0) blank call_regs (to_user 0x1B1A1918 booted) booted_is)
      (more start (
        executed (some shell_line) (replicate 128 0) blank call_regs booted
          (to_user 0x1B1A1918 running) running_is))
      (omega (arith, running_pid))

sys_execute-sys_halt_example :
    (m2 : Machine) × (sys_halt 15 shell_line (replicate 128 0) blank call_regs running
      ≡ some (to_stack call_regs (some (stat_ret_val 15)) m2))
    × (m2.kernel.pid ≡ booted.kernel.pid)
    × (m2.kernel.tasks 1 ≡ booted.kernel.tasks 1)
    × (m2.terminal_arr 0 ≡ booted.terminal_arr 0)
    × (program_address m2.paging 0 ≡ memory_of booted.kernel.pid)
    × (m2.esp0 ≡ call_regs.esp)
sys_execute-sys_halt_example =
    sys_execute-sys_halt (some shell_line) (replicate 128 0) blank call_regs booted 0x1B1A1918
      running 15 shell_line (replicate 128 0) blank call_regs 1 0 booted-IsLive
      (omega (arith, booted_pid)) running_is

pit_handler-GoesTo_example :
    (t p : ℕ) × (o : Outcome) × (pit_handler shell_line (replicate 128 0) blank call_regs running
      ≡ some o)
    × IsNext running.terminal_arr (running.kernel.pcbs running.kernel.pid).terminal_idx t
    × (running.terminal_arr t ≡ some p)
    × GoesTo call_regs p 0 running o
pit_handler-GoesTo_example =
    pit_handler-GoesTo shell_line (replicate 128 0) blank call_regs running 1 0
      (sys_execute-IsLive (some shell_line) (replicate 128 0) blank call_regs booted
        (to_user 0x1B1A1918 running) booted-IsLive running_is).tree
      (omega (arith, running_idx)) running_front
