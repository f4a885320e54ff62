-- ===== src/Execute/Outcomes.antt =====
-- All outcomes of `execute_terminal`, seen from the processes.
use linux_os.Base.{
  ℕ, ◌≡◌, refl, ap, Bool, true, false, not, Option, none, some, List, if◌then◌else◌, >>=-eq-some,
  update,
}
use linux_os.Base.Int.{ℤ, pos, negsuc, minus_one}
use mathlib.Core.Path.{subst}
use mathlib.Core.Option.{some-injective}
use linux_os.FileSystem.{FileSystem, Dentry}
use linux_os.Command.{parse_command}
use linux_os.Machine.{Machine, Registers, Outcome, returned, to_user, to_stack}
use linux_os.Paging.{PageDirectoryEntry, map_memory, program_base}
use linux_os.Process.{find_available_pid}
use linux_os.Strings.{strcpy}
use linux_os.Execute.{check_executable, set_prog_eip, new_pcb, start_program, execute_terminal}
use linux_os.Execute.Starts.{set_act_terminal-pde}
use linux_os.Execute.Refused.{SameProcesses}

-- The lowest free pid runs on the terminal, with a new control block.
pub record NewProcess (terminal_id : ℕ) (regs : Registers) (m m' : Machine) : Type 0 where
  pub next : ℕ
  pub args : List ℕ
  pub chosen : find_available_pid m.kernel ≡ pos next
  pub current : m'.kernel.pid ≡ next
  pub tasks : m'.kernel.tasks ≡ update m.kernel.tasks next 1
  pub pcbs :
      m'.kernel.pcbs
      ≡ update m.kernel.pcbs next (
          new_pcb next terminal_id
            (m.terminal_arr terminal_id)
            args
            regs
            m.kernel.pcbs
            m.kernel.pid)
  pub terminal_arr : m'.terminal_arr ≡ update m.terminal_arr terminal_id (some next)
  pub keyboard : m'.keyboard ≡ m.keyboard
  pub page : (m'.paging.pde 32).page_table_base_addr ≡ program_base next

-- What holds of an outcome.
abbrev pub After : ℕ → Registers → Machine → Outcome → Type 0
After terminal_id regs m (returned r m') = (r ≡ minus_one) × SameProcesses m m'
After terminal_id regs m (to_user eip m') = NewProcess terminal_id regs m m'
After terminal_id regs m (to_stack rs v m') = ⊥

-- What `execute_terminal` has changed when it looks for a pid.
abbrev checked_machine : FileSystem → List ℕ → List ℕ → Machine → Machine
checked_machine fs buffer magic m = record m {
  kernel = record m.kernel { fs = fs };
  buffer = buffer;
  magic = magic;
}

start_program-After :
    (next terminal_id : ℕ) (arg_buf : List ℕ) (local : Dentry) (regs : Registers) (m : Machine)
    (fs : FileSystem) (buffer magic : List ℕ) (o : Outcome)
    → find_available_pid m.kernel ≡ pos next
    → start_program next terminal_id arg_buf local regs (checked_machine fs buffer magic m) ≡ some o
    → After terminal_id regs m o
unfolding start_program map_memory
start_program-After next terminal_id arg_buf local regs m fs buffer magic o chosen e =
    let (l, loaded, e') =
      >>=-eq-some (set_prog_eip buffer local fs (map_memory next m.paging) m.user_memory) _ e in
    let (args, copied, e'') = >>=-eq-some (strcpy (m.kernel.pcbs next).args arg_buf) _ e' in
    subst (After terminal_id regs m) (some-injective _ _ e'') (record {
      next = next;
      args = args;
      chosen = chosen;
      current = refl;
      tasks = refl;
      pcbs = refl;
      terminal_arr = refl;
      keyboard = refl;
      page =
          ap (λ (d : PageDirectoryEntry). d.page_table_base_addr)
            (set_act_terminal-pde terminal_id 32 m.console (map_memory next m.paging));
    })

same_processes :
    (fs : FileSystem) (buffer magic : List ℕ) (m : Machine)
    → SameProcesses m (checked_machine fs buffer magic m)
same_processes fs buffer magic m = record {
  tasks = refl;
  pid = refl;
  pcbs = refl;
  terminal_arr = refl;
  paging = refl;
  user_memory = refl;
  console = refl;
  esp0 = refl;
  keyboard = refl;
}

chosen-After :
    (terminal_id : ℕ) (arg_buf : List ℕ) (local : Dentry) (regs : Registers) (m : Machine)
    (fs : FileSystem) (buffer magic : List ℕ) (o : Outcome) (p : ℤ)
    → find_available_pid m.kernel ≡ p
    → elim p [
      | pos next ↦
          start_program next terminal_id arg_buf local regs (checked_machine fs buffer magic m)
      | negsuc n ↦ some (returned minus_one (checked_machine fs buffer magic m))
    ]
      ≡ some o
    → After terminal_id regs m o
chosen-After terminal_id arg_buf local regs m fs buffer magic o (pos next) chosen e =
    start_program-After next terminal_id arg_buf local regs m fs buffer magic o chosen e
chosen-After terminal_id arg_buf local regs m fs buffer magic o (negsuc n) chosen e =
    subst (After terminal_id regs m) (some-injective _ _ e) (refl, same_processes fs buffer magic m)

tested-After :
    (terminal_id : ℕ) (arg_buf : List ℕ) (local : Dentry) (regs : Registers) (m : Machine)
    (fs : FileSystem) (buffer magic : List ℕ) (o : Outcome) (executable : Bool)
    → (if not executable
        then some (returned minus_one (checked_machine fs buffer magic m))
        else (elim (find_available_pid m.kernel) [
          | pos next ↦
              start_program next terminal_id arg_buf local regs (checked_machine fs buffer magic m)
          | negsuc n ↦ some (returned minus_one (checked_machine fs buffer magic m))
        ]))
      ≡ some o
    → After terminal_id regs m o
tested-After terminal_id arg_buf local regs m fs buffer magic o false e =
    subst (After terminal_id regs m) (some-injective _ _ e) (refl, same_processes fs buffer magic m)
tested-After terminal_id arg_buf local regs m fs buffer magic o true e =
    chosen-After terminal_id arg_buf local regs m fs buffer magic o (find_available_pid m.kernel)
      refl e

-- Whatever the command, `execute_terminal` has two outcomes if it does not fault: it returns -1, and no
-- process, page table, program memory or screen has changed; or it goes to user code, and the lowest
-- free pid is the current one, busy and in front of its terminal, with a new control block, while no
-- other task, control block or terminal has changed.
pub execute_terminal-After :
    (cmd : Option (List ℕ)) (terminal_id : ℕ) (arg_buf : List ℕ) (local : Dentry) (regs : Registers)
    (m : Machine) (o : Outcome)
    → execute_terminal cmd terminal_id arg_buf local regs m ≡ some o
    → After terminal_id regs m o
unfolding execute_terminal find_available_pid
execute_terminal-After none terminal_id arg_buf local regs m o e =
    subst (After terminal_id regs m) (some-injective _ _ e)
      (refl, same_processes m.kernel.fs m.buffer m.magic m)
execute_terminal-After (some cmd) terminal_id arg_buf local regs m o e =
    let (words, parsed, e') = >>=-eq-some (parse_command cmd m.buffer arg_buf) _ e in
    let (reply, checked, e'') =
      >>=-eq-some (check_executable words.0 local m.kernel.fs m.magic) _ e' in
    tested-After terminal_id words.1 local regs m reply.1 words.0 reply.2 o reply.0 e''
