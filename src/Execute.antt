-- ===== src/Execute.antt =====
-- Loading and starting a program: `check_executable`, `set_prog_eip`, `execute_terminal` and
-- `sys_execute` of LinuxOS/student-distrib/sysCalls.c.
pub mod Refused
pub mod Loads
pub mod Starts
pub mod Outcomes
use linux_os.Base.{
  ℕ, ◌+◌, ◌-◌, ◌*◌, ◌^◌, Bool, true, false, not, ◌&&◌, Option, none, some, List, [], ◌∷◌, ltb, leb,
  ◌==◌, if◌then◌else◌, ◌>>=◌, ◌>>◌, update, length, get_or,
}
use linux_os.Base.Int.{pos, negsuc, minus_one, ◌==ℤ◌}
use linux_os.Command.{parse_command, write_over}
use linux_os.Console.{set_act_terminal}
use linux_os.FileSystem.{FileSystem, Dentry, read_dentry_by_name, read_data, get_file_len, open_f}
use linux_os.Machine.{
  Machine, Registers, Outcome, returned, to_user, program_address, image_offset, page_size,
}
use linux_os.Paging.{Paging, map_memory}
use linux_os.Process.{
  Pcb, FileDescriptor, stdin_file_op, stdout_file_op, bad_file_op, find_available_pid, stack_top,
}
use linux_os.Strings.{strcpy}

-- "\x7FELF"
abbrev pub elf_magic : List ℕ
elf_magic = 0x7F ∷ 0x45 ∷ 0x4C ∷ 0x46 ∷ []

abbrev pub same_bytes : List ℕ → List ℕ → Bool
same_bytes [] [] = true
same_bytes (a ∷ xs) (b ∷ ys) = (a == b) && same_bytes xs ys
same_bytes xs ys = false

-- The file system changes by `open_f`, and `magic` by `read_data`, whose result is not looked at.
-- `local` is what the local directory entry holds before it is set.
unfoldable pub check_executable :
    List ℕ → Dentry → FileSystem → List ℕ → Option (Bool × FileSystem × List ℕ)
check_executable filename local fs magic = do
  (opened, fs') ← open_f fs (some filename)
  if opened ==ℤ minus_one then some (false, fs', magic) else (do
    (r, dentry) ← read_dentry_by_name fs' (some filename) local
    (n, bytes) ← read_data fs' dentry.inode_num 0 4
    magic' ← write_over bytes magic
    some (same_bytes magic' elf_magic, fs', magic'))

-- Bytes written to physical memory.
abbrev pub store_bytes : ℕ → List ℕ → (ℕ → ℕ) → ℕ → ℕ
store_bytes base bytes m a =
    if leb base a && ltb a (base + length bytes) then get_or bytes (a - base) 0 else m a

-- A little-endian word.
abbrev pub load_word : (ℕ → ℕ) → ℕ → ℕ
load_word m a = m a + 2 ^ 8 * m (a + 1) + 2 ^ 16 * m (a + 2) + 2 ^ 24 * m (a + 3)

-- The file goes to the image of the program that the page tables map; past the 4 MB there is no page.
unfoldable pub set_prog_eip : List ℕ → Dentry → FileSystem → Paging → (ℕ → ℕ) → Option (ℕ × (ℕ → ℕ))
set_prog_eip filename local fs p m = do
  (r, dentry) ← read_dentry_by_name fs (some filename) local
  file_len ← get_file_len fs dentry
  (n, bytes) ← read_data fs dentry.inode_num 0 file_len
  let base = program_address p image_offset
  let m' = store_bytes base bytes m
  if ltb page_size (image_offset + length bytes) then none else some (load_word m' (base + 24), m')

-- The descriptors of a new process.
abbrev pub closed_fd : FileDescriptor
closed_fd = record { jmp_pointer = bad_file_op; inode_num = 0; file_position = 0; flag = 0 }

abbrev pub new_fd_arr : (ℕ → FileDescriptor) → ℕ → FileDescriptor
new_fd_arr old fd =
    if fd == 0
    then record { jmp_pointer = stdin_file_op; inode_num = 0; file_position = 0; flag = 1 }
    else if fd == 1
    then record { jmp_pointer = stdout_file_op; inode_num = 0; file_position = 0; flag = 1 }
    else if ltb fd 8
    then closed_fd
    else old fd

-- The control block of the new process. Its parent is itself if the terminal has no process, and the
-- process that made the call otherwise. `parent_esp` and `parent_ebp` are set twice, at last to the
-- registers of the call.
abbrev pub new_pcb : ℕ → ℕ → Option ℕ → List ℕ → Registers → (ℕ → Pcb) → ℕ → Pcb
new_pcb next terminal_id front args regs pcbs pid = record {
  pid = next;
  parent_pid = elim front [ none ↦ next | some _ ↦ (pcbs pid).pid ];
  parent_esp = regs.esp;
  parent_ebp = regs.ebp;
  saved_esp = stack_top next;
  saved_ebp = stack_top next;
  active = 1;
  terminal_idx = terminal_id;
  args = args;
  fd_arr = new_fd_arr (pcbs next).fd_arr;
}

-- From the choice of a pid on.
unfoldable pub start_program : ℕ → ℕ → List ℕ → Dentry → Registers → Machine → Option Outcome
start_program next terminal_id arg_buf local regs m = do
  let k = m.kernel
  let paging = map_memory next m.paging
  (eip, memory) ← set_prog_eip m.buffer local k.fs paging m.user_memory
  args ← strcpy (k.pcbs next).args arg_buf
  let pc = new_pcb next terminal_id (m.terminal_arr terminal_id) args regs k.pcbs k.pid
  let (console, paging') = set_act_terminal terminal_id (m.console, paging)
  some (
      to_user eip (record m {
        kernel = record k {
          tasks = update k.tasks next 1;
          pid = next;
          pcbs = update k.pcbs next pc;
        };
        console = console;
        paging = paging';
        terminal_arr = update m.terminal_arr terminal_id (some next);
        user_memory = memory;
        prog_eip = eip;
        esp0 = stack_top next;
      }))

-- `arg_buf` is what the local array holds before it is set. `goto_user` does not return.
unfoldable pub execute_terminal :
    Option (List ℕ) → ℕ → List ℕ → Dentry → Registers → Machine → Option Outcome
execute_terminal none terminal_id arg_buf local regs m = some (returned minus_one m)
execute_terminal (some cmd) terminal_id arg_buf local regs m = do
  (buffer, args) ← parse_command cmd m.buffer arg_buf
  (executable, fs, magic) ← check_executable buffer local m.kernel.fs m.magic
  let m' = record m { kernel = record m.kernel { fs = fs }; buffer = buffer; magic = magic }
  if not executable then some (returned minus_one m') else (elim (find_available_pid m'.kernel) [
    | pos next ↦ start_program next terminal_id args local regs m'
    | negsuc n ↦ some (returned minus_one m')
  ])

unfoldable pub sys_execute :
    Option (List ℕ) → List ℕ → Dentry → Registers → Machine → Option Outcome
sys_execute cmd arg_buf local regs m =
    execute_terminal cmd (m.kernel.pcbs m.kernel.pid).terminal_idx arg_buf local regs m
