-- ===== src/Scheduler.antt =====
-- The scheduler of LinuxOS/student-distrib/scheduler.c: the timer and its handler.
pub mod Turns
pub mod Switch
use linux_os.Base.{ℕ, zero, suc, ◌+◌, ◌/◌, ◌%◌, ◌^◌, Option, none, some, List, ◌>>=◌, ◌>>◌, update}
use linux_os.Console.{clear, clear_pos, set_act_terminal}
use linux_os.Execute.{execute_terminal}
use linux_os.FileSystem.{Dentry}
use linux_os.Machine.{Machine, Registers, Outcome, returned, to_user, to_stack}
use linux_os.Paging.{set_up_pid_map, set_up_vidmap_terminals}
use linux_os.Process.{stack_top}
use linux_os.Pic.{send_eoi, Pic, outb, enable_irq}

abbrev pub max_terminals : ℕ
max_terminals = 3

unfoldable pub get_next_terminal : ℕ → ℕ
get_next_terminal curr = (curr + 1) % max_terminals

abbrev pub pit_freq : ℕ
pit_freq = 1193180

abbrev pub tar_freq : ℕ
tar_freq = 50

unfoldable pub pit_init : Pic → Pic
pit_init s =
    outb (pit_freq / tar_freq / 2 ^ 8) 0x40
      (outb (pit_freq / tar_freq % 2 ^ 8) 0x40 (outb 0x36 0x43 (enable_irq 0 s)))

-- The loop of `pit_handler` over `terminal_arr`, in which -1 is `none`, with the rounds that are left.
-- With no terminal in use the source's loop does not end.
unfoldable pub next_in_use : ℕ → (ℕ → Option ℕ) → ℕ → Option (ℕ × ℕ)
next_in_use zero terminal_arr next_term = none
next_in_use (suc rounds) terminal_arr next_term = elim (terminal_arr next_term) [
  | none ↦ next_in_use rounds terminal_arr (get_next_terminal next_term)
  | some pid ↦ some (next_term, pid)
]

-- The terminal and the process that the handler goes to from the terminal of the current process.
unfoldable pub choose_next : (ℕ → Option ℕ) → ℕ → Option (ℕ × ℕ)
choose_next terminal_arr curr = next_in_use 3 terminal_arr (get_next_terminal curr)

-- The switch itself. The registers of the interrupted process are saved after the terminal and the
-- process are set, and the new ones are read after that.
unfoldable pub switch_to : ℕ → Registers → Machine → Outcome
switch_to next_pid regs m =
    let k = m.kernel in
    let next = k.pcbs next_pid in
    let p =
      set_up_vidmap_terminals 0x8400000 next.terminal_idx m.console.vis_term
        (set_up_pid_map next.pid m.paging) in
    let (console, paging) = set_act_terminal next.terminal_idx (m.console, p) in
    let pcbs =
      update k.pcbs k.pid (record (k.pcbs k.pid) { saved_ebp = regs.ebp; saved_esp = regs.esp }) in
    to_stack (record { esp = (pcbs next_pid).saved_esp; ebp = (pcbs next_pid).saved_ebp }) none
      (record m {
        kernel = record k { pid = next.pid; pcbs = pcbs };
        console = console;
        paging = paging;
        esp0 = stack_top next.pid;
      })

-- After the first test of the handler. With no terminal in use the source's loop does not end.
unfoldable pub switch_turn : Registers → Machine → Option Outcome
switch_turn regs m = do
  next ← choose_next m.terminal_arr (m.kernel.pcbs m.kernel.pid).terminal_idx
  some (switch_to next.1 regs m)

-- `shell` is the memory from the literal "shell" on.
unfoldable pub pit_handler : List ℕ → List ℕ → Dentry → Registers → Machine → Option Outcome
pit_handler shell arg_buf local regs m =
    let m' = record m { pic = send_eoi 0 m.pic } in
    elim (m.terminal_arr 0) [
      | some p ↦ switch_turn regs m'
      | none ↦ (do
        o ←
            execute_terminal (some shell) 0 arg_buf local regs
              (record m' { console = clear_pos (clear m'.console) })
        elim o [
          | returned r m'' ↦ switch_turn regs m''
          | to_user eip m'' ↦ some (to_user eip m'')
          | to_stack rs v m'' ↦ some (to_stack rs v m'')
        ])
    ]
