-- ===== src/Execute/Refused.antt =====
-- The commands that `execute_terminal` refuses.
use linux_os.Base.{
  ℕ, ◌≤◌, ◌<◌, ◌≡◌, ◌≢◌, inl, inr, refl, sym, ap, ◌∙◌, Bool, false, Option, some, List, arith,
  Bool-cases, length, get_elem?,
}
use linux_os.Base.Int.{minus_one}
use mathlib.Core.Option.{some-injective}
use linux_os.Strings.{strlen}
use linux_os.Strings.Compare.{AllBytes}
use linux_os.FileSystem.{FileSystem, Dentry, Inode, entry_num, set_dentry_obj}
use linux_os.FileSystem.Valid.{IsValid}
use linux_os.FileSystem.Lookup.{FirstNamed}
use linux_os.FileSystem.Read.{file_bytes}
use linux_os.FileSystem.Found.{NotFound, open_f-missing}
use linux_os.Command.{parse_command}
use linux_os.Machine.{Machine, Registers, returned}
use linux_os.Process.{find_available_pid}
use linux_os.Process.Pids.{find_available_pid_lem}
use linux_os.Execute.{check_executable, execute_terminal, same_bytes, elf_magic}
use linux_os.Execute.Loads.{same_bytes_iff, check_executable_lem}

-- The processes, their memory and the screens are the same.
pub record SameProcesses (m m' : Machine) : Type 0 where
  pub tasks : m'.kernel.tasks ≡ m.kernel.tasks
  pub pid : m'.kernel.pid ≡ m.kernel.pid
  pub pcbs : m'.kernel.pcbs ≡ m.kernel.pcbs
  pub terminal_arr : m'.terminal_arr ≡ m.terminal_arr
  pub paging : m'.paging ≡ m.paging
  pub user_memory : m'.user_memory ≡ m.user_memory
  pub console : m'.console ≡ m.console
  pub esp0 : m'.esp0 ≡ m.esp0
  pub keyboard : m'.keyboard ≡ m.keyboard

-- Why a command is refused: its name has no entry that can be opened, its file does not begin with
-- the four bytes of ELF, or all six pids are taken.
pub data Refusal (fs : FileSystem) (tasks : ℕ → ℕ) (name : List ℕ) : Type 0 where
  no_file :
      (o : Option Dentry)
      → FirstNamed name fs.origin.direntries o
      → NotFound o
      → Refusal fs tasks name
  no_program :
      (d : Dentry) (node : Inode) (head : List ℕ)
      → FirstNamed name fs.origin.direntries (some d)
      → d.inode_num ≤ entry_num
      → get_elem? fs.inodes d.inode_num ≡ some node
      → file_bytes fs node 0 4 ≡ some head
      → head ≢ elf_magic
      → Refusal fs tasks name
  no_pid :
      (d : Dentry) (node : Inode)
      → FirstNamed name fs.origin.direntries (some d)
      → d.inode_num ≤ entry_num
      → get_elem? fs.inodes d.inode_num ≡ some node
      → ((p : ℕ) → p < 6 → tasks p ≢ 0)
      → Refusal fs tasks name

-- The machine after the command is parsed and checked.
abbrev checked : FileSystem → List ℕ → List ℕ → Machine → Machine
checked fs buffer magic m = record m {
  kernel = record m.kernel { fs = fs };
  buffer = buffer;
  magic = magic;
}

checked-SameProcesses :
    (fs : FileSystem) (buffer magic : List ℕ) (m : Machine)
    → SameProcesses m (checked fs buffer magic m)
checked-SameProcesses fs buffer magic m = record {
  tasks = refl;
  pid = refl;
  pcbs = refl;
  terminal_arr = refl;
  paging = refl;
  user_memory = refl;
  console = refl;
  esp0 = refl;
  keyboard = refl;
}

module _ (cmd : List ℕ) (terminal_id : ℕ) (arg_buf : List ℕ) (local : Dentry) (regs : Registers)
    (m : Machine) (buffer args : List ℕ)
    (parsed : parse_command cmd m.buffer arg_buf ≡ some (buffer, args)) where
  refused_by_check :
      (magic : List ℕ) (fs : FileSystem)
      → check_executable buffer local m.kernel.fs m.magic ≡ some (false, fs, magic)
      → execute_terminal (some cmd) terminal_id arg_buf local regs m
        ≡ some (returned minus_one (checked fs buffer magic m))
  unfolding execute_terminal
  refused_by_check magic fs e = ground (arith, parsed, e)

  refused_by_pid :
      (magic : List ℕ) (fs : FileSystem) (executable : Bool)
      → check_executable buffer local m.kernel.fs m.magic ≡ some (executable, fs, magic)
      → find_available_pid m.kernel ≡ minus_one
      → execute_terminal (some cmd) terminal_id arg_buf local regs m
        ≡ some (returned minus_one (checked fs buffer magic m))
  unfolding execute_terminal find_available_pid
  refused_by_pid magic fs executable e taken = ground (arith, parsed, e, taken)

no_free_pid :
    (m : Machine)
    → ((p : ℕ) → p < 6 → m.kernel.tasks p ≢ 0)
    → find_available_pid m.kernel ≡ minus_one
no_free_pid m taken = elim (find_available_pid_lem m.kernel 0 (omega arith)) [
  | inl (p, found, low, free, first) ↦ absurd (taken p low free)
  | inr (missing, busy) ↦ missing
]

check_executable-missing :
    (filename : List ℕ) (local : Dentry) (fs : FileSystem) (magic : List ℕ) {len : ℕ}
    (o : Option Dentry)
    → AllBytes filename
    → strlen filename ≡ some len
    → len ≤ 32
    → IsValid fs
    → FirstNamed filename fs.origin.direntries o
    → NotFound o
    → (fs' : FileSystem) × (check_executable filename local fs magic ≡ some (false, fs', magic))
unfolding check_executable
check_executable-missing filename local fs magic o bytes ended short v first missing =
    let (old, opened) = open_f-missing fs filename bytes ended short v o first missing in
    (set_dentry_obj fs old, ground (arith, opened))

-- A command that can be taken apart is refused with -1, and no process, page table, program memory or
-- screen changes, if its name has no entry with an inode number of at most 63, if the first four bytes
-- of its file are not those of ELF, or if it has an entry and all six pids are taken. The image is
-- valid, the name has at most 32 bytes, and the file of an entry has an inode.
pub execute_terminal-refused :
    (cmd : List ℕ) (terminal_id : ℕ) (arg_buf : List ℕ) (local : Dentry) (regs : Registers)
    (m : Machine) (buffer args : List ℕ) {len : ℕ}
    → parse_command cmd m.buffer arg_buf ≡ some (buffer, args)
    → AllBytes buffer
    → strlen buffer ≡ some len
    → len ≤ 32
    → IsValid m.kernel.fs
    → length m.magic ≡ 4
    → Refusal m.kernel.fs m.kernel.tasks buffer
    → (m' : Machine) × (execute_terminal (some cmd) terminal_id arg_buf local regs m
        ≡ some (returned minus_one m'))
      × SameProcesses m m'
execute_terminal-refused cmd terminal_id arg_buf local regs m buffer args parsed bytes ended short v
      four (Refusal.no_file o first missing) =
    let (fs, e) =
      check_executable-missing buffer local m.kernel.fs m.magic o bytes ended short v first
        missing in
    (
      checked fs buffer m.magic m,
      refused_by_check cmd terminal_id arg_buf local regs m buffer args parsed m.magic fs e,
      checked-SameProcesses fs buffer m.magic m,
    )
execute_terminal-refused cmd terminal_id arg_buf local regs m buffer args parsed bytes ended short v
      four (Refusal.no_program d node head first small present held other) =
    let fs = set_dentry_obj m.kernel.fs d in
    let (head', head_is, e) =
      check_executable_lem m.kernel.fs buffer bytes ended short v d first small node present local
        m.magic four in
    let not_elf : same_bytes head' elf_magic ≡ false =
      elim (Bool-cases (same_bytes head' elf_magic)) [
        | inl same ↦ absurd (
            other
              (some-injective _ _ (sym held ∙ head_is) ∙ (same_bytes_iff head' elf_magic).0 same))
        | inr different ↦ different
      ] in
    (
      checked fs buffer head' m,
      refused_by_check cmd terminal_id arg_buf local regs m buffer args parsed head' fs
          (e ∙ ap (λ (b : Bool). some (b, fs, head')) not_elf),
      checked-SameProcesses fs buffer head' m,
    )
execute_terminal-refused cmd terminal_id arg_buf local regs m buffer args parsed bytes ended short v
      four (Refusal.no_pid d node first small present taken) =
    let fs = set_dentry_obj m.kernel.fs d in
    let (head, head_is, e) =
      check_executable_lem m.kernel.fs buffer bytes ended short v d first small node present local
        m.magic four in
    (
      checked fs buffer head m,
      refused_by_pid cmd terminal_id arg_buf local regs m buffer args parsed head fs
          (same_bytes head elf_magic) e (no_free_pid m taken),
      checked-SameProcesses fs buffer head m,
    )
