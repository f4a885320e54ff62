-- ===== src/Execute/Starts.antt =====
-- The commands that start a program.
use linux_os.Base.{
  ℕ, ◌+◌, ◌-◌, ◌*◌, ◌^◌, ◌≤◌, ◌<◌, ◌≡◌, ◌⊎◌, inl, inr, refl, sym, ap, ◌∙◌, Bool, true, some, List,
  arith, update, length, get_elem?, get_or,
}
use linux_os.Base.Int.{pos}
use mathlib.Core.Option.{some-injective}
use linux_os.Strings.{strlen, strcpy}
use linux_os.Strings.Compare.{AllBytes}
use linux_os.FileSystem.{FileSystem, Dentry, Inode, entry_num, set_dentry_obj}
use linux_os.FileSystem.Valid.{IsValid}
use linux_os.FileSystem.Lookup.{FirstNamed}
use linux_os.FileSystem.Read.{file_byte, file_bytes}
use linux_os.FileSystem.Bytes.{length-file_bytes, file_byte-get_or}
use linux_os.Command.{parse_command}
use linux_os.Console.{Console, set_act_terminal}
use linux_os.Process.Pids.{find_available_pid_lem}
use linux_os.Machine.{Machine, Registers, to_user, program_address, image_offset, page_size}
use linux_os.Paging.{
  Paging, PageDirectoryEntry, set_active_paging, map_memory, start_of_user, start_of_kernel,
}
use linux_os.Process.{Kernel, Pcb, find_available_pid, stack_top}
use linux_os.Execute.{
  check_executable, set_prog_eip, store_bytes, load_word, same_bytes, elf_magic, new_pcb,
  start_program, execute_terminal,
}
use linux_os.Execute.Loads.{same_bytes_iff, check_executable_lem, set_prog_eip_lem}

-- The physical address at which the memory of a pid begins.
abbrev pub memory_of : ℕ → ℕ
memory_of pid = start_of_user + pid * start_of_kernel

-- The physical address of the image of a pid's program.
abbrev pub image_of : ℕ → ℕ
image_of pid = memory_of pid + image_offset

-- What a start at the address `eip` leaves: the process `next` runs on the terminal, with the block
-- `pc` and the file as its program, and nothing else in the programs' memory, of the processes or of
-- the terminals has changed. The entry point is the little-endian word at byte 24 of the image.
pub record Started (m : Machine) (fs : FileSystem) (node : Inode) (next terminal_id eip : ℕ)
    (pc : Pcb) (m' : Machine) : Type 0 where
  pub current : m'.kernel.pid ≡ next
  pub tasks : m'.kernel.tasks ≡ update m.kernel.tasks next 1
  pub pcbs : m'.kernel.pcbs ≡ update m.kernel.pcbs next pc
  pub terminal_arr : m'.terminal_arr ≡ update m.terminal_arr terminal_id (some next)
  pub active_term : m'.console.active_term ≡ terminal_id
  pub esp0 : m'.esp0 ≡ stack_top next
  pub page : (m'.paging.pde 32).page_table_base_addr * 2 ^ 12 ≡ memory_of next
  pub loaded :
      (i : ℕ) → i < node.length → file_byte fs node i ≡ some (m'.user_memory (image_of next + i))
  pub elsewhere :
      (a : ℕ)
      → (a < image_of next) ⊎ (image_of next + node.length ≤ a)
      → m'.user_memory a ≡ m.user_memory a
  pub entry :
      eip
      ≡ m'.user_memory (image_of next + 24)
        + 2 ^ 8 * m'.user_memory (image_of next + 25)
        + 2 ^ 16 * m'.user_memory (image_of next + 26)
        + 2 ^ 24 * m'.user_memory (image_of next + 27)

-- The machine after a start.
abbrev started_machine : ℕ → ℕ → List ℕ → Registers → ℕ → (ℕ → ℕ) → Machine → Machine
started_machine next terminal_id args regs eip memory m = record m {
  kernel = record m.kernel {
    tasks = update m.kernel.tasks next 1;
    pid = next;
    pcbs = update m.kernel.pcbs next (
        new_pcb next terminal_id (m.terminal_arr terminal_id) args regs m.kernel.pcbs m.kernel.pid);
  };
  console = (set_act_terminal terminal_id (m.console, map_memory next m.paging)).0;
  paging = (set_act_terminal terminal_id (m.console, map_memory next m.paging)).1;
  terminal_arr = update m.terminal_arr terminal_id (some next);
  user_memory = memory;
  prog_eip = eip;
  esp0 = stack_top next;
}

start_program_lem :
    (next terminal_id : ℕ) (arg_buf : List ℕ) (local : Dentry) (regs : Registers) (m : Machine)
    (eip : ℕ) (memory : ℕ → ℕ) (args : List ℕ)
    → set_prog_eip m.buffer local m.kernel.fs (map_memory next m.paging) m.user_memory
      ≡ some (eip, memory)
    → strcpy (m.kernel.pcbs next).args arg_buf ≡ some args
    → start_program next terminal_id arg_buf local regs m
      ≡ some (to_user eip (started_machine next terminal_id args regs eip memory m))
unfolding start_program
start_program_lem next terminal_id arg_buf local regs m eip memory args loaded copied =
    rw loaded (rw copied refl)

execute_terminal-start_program :
    (cmd : List ℕ) (terminal_id : ℕ) (arg_buf : List ℕ) (local : Dentry) (regs : Registers)
    (m : Machine) (buffer arg magic : List ℕ) (fs : FileSystem) (next : ℕ)
    → parse_command cmd m.buffer arg_buf ≡ some (buffer, arg)
    → check_executable buffer local m.kernel.fs m.magic ≡ some (true, fs, magic)
    → find_available_pid m.kernel ≡ pos next
    → execute_terminal (some cmd) terminal_id arg_buf local regs m
      ≡ start_program next terminal_id arg local regs
          (record m { kernel = record m.kernel { fs = fs }; buffer = buffer; magic = magic })
unfolding execute_terminal find_available_pid
execute_terminal-start_program cmd terminal_id arg_buf local regs m buffer arg magic fs next parsed
      checked free =
    ground (arith, parsed, checked, free)

pub set_act_terminal-active_term :
    (t : ℕ) (s : Console) (p : Paging) → (set_act_terminal t (s, p)).0.active_term ≡ t
unfolding set_act_terminal
set_act_terminal-active_term t s p = refl

pub set_act_terminal-pde :
    (t i : ℕ) (s : Console) (p : Paging) → (set_act_terminal t (s, p)).1.pde i ≡ p.pde i
unfolding set_act_terminal set_active_paging
set_act_terminal-pde t i s p = ground arith

pub map_memory-address :
    (p : Paging) (next : ℕ) → next < 6 → program_address (map_memory next p) 0 ≡ memory_of next
unfolding map_memory
map_memory-address p next h = omega arith

pub find_available_pid-lt : (k : Kernel) (p : ℕ) → find_available_pid k ≡ pos p → p < 6
find_available_pid-lt k p e = elim (find_available_pid_lem k 0 (omega arith)) [
  | inl (q, found, low, free, first) ↦ ground (arith, found)
  | inr (missing, all) ↦ ground (arith, missing)
]

store_bytes-inside :
    (base i : ℕ) (bs : List ℕ) (m : ℕ → ℕ)
    → i < length bs
    → store_bytes base bs m (base + i) ≡ get_or bs i 0
store_bytes-inside base i bs m h =
    let at : base + i - base ≡ i = omega arith in ground (arith, ap (λ (j : ℕ). get_or bs j 0) at)

store_bytes-outside :
    (base a : ℕ) (bs : List ℕ) (m : ℕ → ℕ)
    → (a < base) ⊎ (base + length bs ≤ a)
    → store_bytes base bs m a ≡ m a
store_bytes-outside base a bs m h = ground arith

load_word-bytes :
    (m : ℕ → ℕ) (base : ℕ)
    → load_word m (base + 24)
      ≡ m (base + 24) + 2 ^ 8 * m (base + 25) + 2 ^ 16 * m (base + 26) + 2 ^ 24 * m (base + 27)
load_word-bytes m base =
    let second : base + 24 + 1 ≡ base + 25 = omega arith in
    let third : base + 24 + 2 ≡ base + 26 = omega arith in
    let fourth : base + 24 + 3 ≡ base + 27 = omega arith in
    λ i. m (base + 24) + 2 ^ 8 * m (second i) + 2 ^ 16 * m (third i) + 2 ^ 24 * m (fourth i)

-- A command that can be taken apart, whose name is in the directory and whose file is executable and
-- fits into a program's memory, is started if a pid is free: `execute_terminal` goes to user
-- code at the word at byte 24 of the file; the pid is current, busy and in front of the terminal with a
-- new control block, its page maps its own 4 MB, the file's bytes are in it from 0x48000 on, and no
-- other byte of the programs' memory has changed. The image is valid, the inode number is at most 63, the name has at most
-- 32 bytes, and the argument fits into the control block.
pub execute_terminal-Started :
    (cmd : List ℕ) (terminal_id : ℕ) (arg_buf : List ℕ) (local : Dentry) (regs : Registers)
    (m : Machine) (buffer arg args : List ℕ) {len : ℕ} (d : Dentry) (node : Inode) (next : ℕ)
    → parse_command cmd m.buffer arg_buf ≡ some (buffer, arg)
    → AllBytes buffer
    → strlen buffer ≡ some len
    → len ≤ 32
    → IsValid m.kernel.fs
    → FirstNamed buffer m.kernel.fs.origin.direntries (some d)
    → d.inode_num ≤ entry_num
    → get_elem? m.kernel.fs.inodes d.inode_num ≡ some node
    → file_bytes m.kernel.fs node 0 4 ≡ some elf_magic
    → image_offset + node.length ≤ page_size
    → length m.magic ≡ 4
    → find_available_pid m.kernel ≡ pos next
    → strcpy (m.kernel.pcbs next).args arg ≡ some args
    → (eip : ℕ) × (m' : Machine) × (execute_terminal (some cmd) terminal_id arg_buf local regs m
        ≡ some (to_user eip m'))
      × Started m m.kernel.fs node next terminal_id eip
          (new_pcb next terminal_id
            (m.terminal_arr terminal_id)
            args
            regs
            m.kernel.pcbs
            m.kernel.pid)
          m'
execute_terminal-Started cmd terminal_id arg_buf local regs m buffer arg args d node next parsed
      bytes ended short v first small present elf fits four free copied =
    let fs = m.kernel.fs in
    let (head, head_is, checked) =
      check_executable_lem fs buffer bytes ended short v d first small node present local m.magic
        four in
    let is_elf : same_bytes head elf_magic ≡ true =
      (same_bytes_iff head elf_magic).1 (some-injective _ _ (sym head_is ∙ elf)) in
    let m1 : Machine = record m {
      kernel = record m.kernel { fs = set_dentry_obj fs d };
      buffer = buffer;
      magic = head;
    } in
    let paging = map_memory next m.paging in
    let base = program_address paging image_offset in
    let (bs, held, loaded) =
      set_prog_eip_lem fs buffer bytes ended short v d first small node present local paging
        m.user_memory fits in
    let memory = store_bytes base bs m.user_memory in
    let eip = load_word memory (base + 24) in
    let size = length-file_bytes fs node 0 node.length held in
    let below = find_available_pid-lt m.kernel next free in
    let at : base ≡ memory_of next + image_offset =
      omega (arith, map_memory-address m.paging next below) in
    (
      eip,
      started_machine next terminal_id args regs eip memory m1,
      execute_terminal-start_program cmd terminal_id arg_buf local regs m buffer arg head
            (set_dentry_obj fs d) next parsed
            (checked ∙ ap (λ (b : Bool). some (b, set_dentry_obj fs d, head)) is_elf) free
          ∙ start_program_lem next terminal_id arg local regs m1 eip memory args loaded copied,
      record {
        current = refl;
        tasks = refl;
        pcbs = refl;
        terminal_arr = refl;
        active_term = set_act_terminal-active_term terminal_id m.console paging;
        esp0 = refl;
        page =
            ap (λ (e : PageDirectoryEntry). e.page_table_base_addr * 2 ^ 12)
              (set_act_terminal-pde terminal_id 32 m.console paging)
            ∙ omega (arith, map_memory-address m.paging next below);
        loaded = λ i inside.
            ap (file_byte fs node) (omega arith)
            ∙ file_byte-get_or fs node 0 node.length i held inside
            ∙ ap some (sym (store_bytes-inside base i bs m.user_memory (omega (arith, size))))
            ∙ ap (λ (b : ℕ). some (memory (b + i))) at;
        elsewhere =
            λ a outside. store_bytes-outside base a bs m.user_memory (ground (arith, at, size));
        entry =
            ap (λ (b : ℕ). load_word memory (b + 24)) at ∙ load_word-bytes memory (image_of next);
      },
    )
