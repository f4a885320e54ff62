-- ===== src/Examples/Processes.antt =====
-- A shell with one open file, and the calls of sysCalls.c and scheduler.c on it.
use linux_os.Base.{
  ℕ, ◌≤◌, ◌<◌, ◌≡◌, ◌≢◌, ◌⊎◌, refl, Option, none, some, [], arith, ltb, ◌==◌, if◌then◌else◌,
  replicate,
}
use linux_os.Base.Int.{pos, minus_one, ◌-ℤ◌}
use linux_os.Strings.{strlen, strncmp}
use linux_os.FileSystem.{read_dentry_by_index, find_dentry, read_dentry_by_name}
use linux_os.Process.{
  Kernel, Pcb, FileDescriptor, file_file_op, descriptor, find_available_pid, sys_open, sys_close,
}
use linux_os.Process.Pids.{find_available_pid_lem}
use linux_os.Process.Descriptors.{Opened, sys_open-Opened, sys_open-sys_close}
use linux_os.Scheduler.Turns.{after_turns, after_turns_lem}
use linux_os.Examples.Image.{
  image, file_name, entry, blank, image-IsValid, all_bytes-AllBytes, file_name_len,
}

-- Descriptors 0 to 2 are in use.
abbrev descriptors : ℕ → FileDescriptor
descriptors fd = record {
  jmp_pointer = file_file_op;
  inode_num = 0;
  file_position = 0;
  flag = if ltb fd 3 then 1 else 0;
}

abbrev shell : Pcb
shell = record {
  pid = 0;
  parent_pid = 0;
  parent_esp = 0x7FFFFC;
  parent_ebp = 0x7FFFFC;
  saved_esp = 0x7FFFFC;
  saved_ebp = 0x7FFFFC;
  active = 1;
  terminal_idx = 0;
  args = replicate 32 0;
  fd_arr = descriptors;
}

abbrev pub one_shell : Kernel
one_shell = record {
  fs = image;
  tasks = λ p. if p == 0 then 1 else 0;
  pid = 0;
  pcbs = λ p. shell;
  written = [];
}

find_available_pid_lem_example :
    ((p : ℕ) × (find_available_pid one_shell ≡ pos p)
      × (p < 6)
      × (one_shell.tasks p ≡ 0)
      × ((p ≤ 4) ⊎ (one_shell.tasks 4 ≢ 0)))
    ⊎ ((find_available_pid one_shell ≡ minus_one) × (one_shell.tasks 4 ≢ 0))
find_available_pid_lem_example = find_available_pid_lem one_shell 4 (omega arith)

file_found : read_dentry_by_name image (some file_name) blank ≡ some (pos 0, entry)
unfolding read_dentry_by_name find_dentry read_dentry_by_index strncmp strlen ◌-ℤ◌
file_found = refl

lower_busy : (m : ℕ) → 2 ≤ m → m < 3 → (descriptor one_shell m).flag ≢ 0
lower_busy m low high = ground arith

sys_open-Opened_example :
    (k' : Kernel) × (sys_open (some file_name) blank 0x26 one_shell ≡ some (pos 3, k'))
    × Opened 3 entry one_shell k' 2
sys_open-Opened_example =
    sys_open-Opened file_name (all_bytes-AllBytes file_name refl) file_name_len (omega arith) 0x26
      one_shell 3 2 blank entry image-IsValid (omega arith) file_found (omega arith) (omega arith)
      (omega arith) refl lower_busy

sys_open-sys_close_example :
    (k' k'' : Kernel) × (sys_open (some file_name) blank 0x26 one_shell ≡ some (pos 3, k'))
    × (sys_close (pos 3) k' ≡ (pos 0, k''))
    × ((descriptor k'' 2).flag ≡ 1)
sys_open-sys_close_example =
    sys_open-sys_close file_name (all_bytes-AllBytes file_name refl) file_name_len (omega arith)
      0x26 one_shell 3 2 blank entry image-IsValid (omega arith) file_found (omega arith)
      (omega arith) (omega arith) refl lower_busy

-- Terminals 1 and 3 are in use.
abbrev terminals : ℕ → Option ℕ
terminals t = if t == 0 then some 0 else if t == 2 then some 1 else none

after_turns_lem_example : (n : ℕ) × (1 ≤ n) × (n ≤ 2) × (after_turns terminals n 0 ≡ some 2)
after_turns_lem_example =
    after_turns_lem terminals 0 2 1 (omega arith) (omega arith) (omega arith) refl
