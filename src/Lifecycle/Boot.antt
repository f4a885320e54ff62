-- ===== src/Lifecycle/Boot.antt =====
-- From the first shell on, the processes are a tree, and the current one has its own memory.
use linux_os.Base.{
  ℕ, zero, suc, ◌+◌, ◌*◌, ◌<◌, ◌≡◌, ◌≢◌, refl, sym, ap, ◌∙◌, Option, none, some, List, arith,
  >>=-eq-some,
}
use mathlib.Core.Path.{subst}
use mathlib.Core.Option.{some-injective}
use linux_os.FileSystem.{Dentry}
use linux_os.Machine.{Machine, Registers, Outcome, returned, to_user, to_stack, program_address}
use linux_os.Paging.{program_base}
use linux_os.Process.Tree.{IsTree}
use linux_os.Execute.{execute_terminal, sys_execute, new_pcb}
use linux_os.Execute.Outcomes.{NewProcess, After, execute_terminal-After}
use linux_os.Console.{clear, clear_pos}
use linux_os.Pic.{send_eoi}
use linux_os.Scheduler.{pit_handler, switch_turn, choose_next, next_in_use, get_next_terminal}
use linux_os.Lifecycle.{
  IsLive, machine_of, Step, executed, halted, opened, closed, ticked, pressed, Steps, start, more,
}
use linux_os.Lifecycle.Blocks.{sys_open-SameTree, sys_close-SameTree}
use linux_os.Lifecycle.Calls.{IsLive-SameTree, sys_execute-IsLive, sys_halt-IsLive}
use linux_os.Lifecycle.Interrupts.{pit_handler-IsLive}
use linux_os.Lifecycle.Keys.{keyboard_handler-IsLive}

-- One step keeps the machine live.
pub Step-IsLive : {m m' : Machine} → Step m m' → IsLive m → IsLive m'
Step-IsLive (executed cmd arg_buf local regs m o e) v =
    sys_execute-IsLive cmd arg_buf local regs m o v e
Step-IsLive (halted status shell arg_buf local regs m o other e) v =
    sys_halt-IsLive status shell arg_buf local regs m o v other e
Step-IsLive (opened filename local prev m r k e) v =
    IsLive-SameTree m k (sys_open-SameTree filename local prev m.kernel (r, k) e) v
Step-IsLive (closed fd m) v = IsLive-SameTree m _ (sys_close-SameTree fd m.kernel) v
Step-IsLive (ticked shell arg_buf local regs m o e) v =
    pit_handler-IsLive shell arg_buf local regs m o v e
Step-IsLive (pressed call m o e) v = keyboard_handler-IsLive call m o v e

-- The state in which no task runs, no terminal has a process, and no terminal has been opened.
pub record IsIdle (m : Machine) : Type 0 where
  pub no_tasks : (p : ℕ) → m.kernel.tasks p ≡ 0
  pub no_front : (t : ℕ) → m.terminal_arr t ≡ none

-- The first shell: no other process runs.
first-IsLive : (regs : Registers) (m m' : Machine) → IsIdle m → NewProcess 0 regs m m' → IsLive m'
first-IsLive regs m m' idle n =
    let pc = new_pcb n.next 0 (m.terminal_arr 0) n.args regs m.kernel.pcbs m.kernel.pid in
    let root : pc.parent_pid ≡ n.next = rw (idle.no_front 0) refl in
    let none' = idle.no_tasks in
    record {
      tree =
          rw (n.current, n.tasks, n.pcbs, n.terminal_arr)
            (record {
              running = ground arith;
              own = λ p alive. ground (arith, none' p);
              parent = λ p alive. ground (arith, none' p, root);
              home = λ p alive. ground (arith, none' p, root);
              only_child = λ p q a b e u v. ground (arith, none' p, none' q);
              in_front = λ t p e. ground (arith, idle.no_front t);
              leaf = λ t p q e a c. ground (arith, idle.no_front t, none' q);
              current_in_front = ground arith;
            });
      second = rw n.terminal_arr (λ off. ground (arith, idle.no_front 1));
      third = rw n.terminal_arr (λ off. ground (arith, idle.no_front 2));
      mapped = n.page ∙ ap program_base (sym n.current);
    }

next_in_use-empty :
    (rounds : ℕ) (arr : ℕ → Option ℕ) (c : ℕ)
    → ((t : ℕ) → arr t ≡ none)
    → next_in_use rounds arr c ≡ none
unfolding next_in_use
next_in_use-empty zero arr c empty = refl
next_in_use-empty (suc rounds) arr c empty =
    ground (arith, empty c, next_in_use-empty rounds arr (get_next_terminal c) empty)

-- With no process on a terminal the loop of the handler does not end.
no_turn :
    (regs : Registers) (m : Machine) (o : Outcome)
    → ((t : ℕ) → m.terminal_arr t ≡ none)
    → switch_turn regs m ≢ some o
unfolding switch_turn choose_next
no_turn regs m o empty e =
    let c = (m.kernel.pcbs m.kernel.pid).terminal_idx in
    let (next, chosen, e') = >>=-eq-some (choose_next m.terminal_arr c) _ e in
    ground (arith, chosen, next_in_use-empty 3 m.terminal_arr (get_next_terminal c) empty)

started-IsLive :
    (regs : Registers) (m : Machine) (started o : Outcome)
    → IsIdle m
    → After 0 regs m started
    → elim started [
      | returned r m'' ↦ switch_turn regs m''
      | to_user eip m'' ↦ some (to_user eip m'')
      | to_stack rs v m'' ↦ some (to_stack rs v m'')
    ]
      ≡ some o
    → IsLive (machine_of o)
started-IsLive regs m (returned r n) o idle a e =
    absurd
      (no_turn regs n o (λ t. ap (λ (f : ℕ → Option ℕ). f t) a.1.terminal_arr ∙ idle.no_front t) e)
started-IsLive regs m (to_user eip n) o idle a e =
    subst (λ x. IsLive (machine_of x)) (some-injective _ _ e) (first-IsLive regs m n idle a)
started-IsLive regs m (to_stack rs r n) o idle a e = absurd a

tick-IsLive :
    (shell arg_buf : List ℕ) (local : Dentry) (regs : Registers) (m : Machine) (o : Outcome)
    → IsIdle m
    → pit_handler shell arg_buf local regs m ≡ some o
    → IsLive (machine_of o)
unfolding pit_handler
tick-IsLive shell arg_buf local regs m o idle e =
    let cleared = record m { pic = send_eoi 0 m.pic; console = clear_pos (clear m.console) } in
    let (started, begun, e') =
      >>=-eq-some (execute_terminal (some shell) 0 arg_buf local regs cleared) _
        (rw (pit_handler, idle.no_front 0) at e) in
    started-IsLive regs cleared started o
      (record { no_tasks = idle.no_tasks; no_front = idle.no_front })
      (execute_terminal-After (some shell) 0 arg_buf local regs cleared started begun) e'

-- The start of the first shell: by the timer, or by the call at the end of kernel.c, which finds the
-- terminal in the control block of pid 0.
pub data Boot (m : Machine) : Machine → Type 0 where
  by_timer :
      (shell arg_buf : List ℕ) (local : Dentry) (regs : Registers) (o : Outcome)
      → pit_handler shell arg_buf local regs m ≡ some o
      → Boot m (machine_of o)
  by_call :
      (cmd : Option (List ℕ)) (arg_buf : List ℕ) (local : Dentry) (regs : Registers) (eip : ℕ)
      (m' : Machine)
      → (m.kernel.pcbs m.kernel.pid).terminal_idx ≡ 0
      → sys_execute cmd arg_buf local regs m ≡ some (to_user eip m')
      → Boot m m'

pub Boot-IsLive : {m m' : Machine} → IsIdle m → Boot m m' → IsLive m'
unfolding sys_execute
Boot-IsLive {m} idle (by_timer shell arg_buf local regs o e) =
    tick-IsLive shell arg_buf local regs m o idle e
Boot-IsLive {m} idle (by_call cmd arg_buf local regs eip m' at e) = first-IsLive regs m m' idle (
    subst (λ (t : ℕ). NewProcess t regs m m') at
      (execute_terminal-After cmd (m.kernel.pcbs m.kernel.pid).terminal_idx arg_buf local regs m
        (to_user eip m') e))

Steps-IsLive : {m m' : Machine} → Steps m m' → IsLive m → IsLive m'
Steps-IsLive start v = v
Steps-IsLive (more before step) v = Step-IsLive step (Steps-IsLive before v)

-- From a machine without a task and without a process on a terminal, the first shell is started by the
-- timer's handler or by a call of sys_execute for terminal 0, without a fault, and any number of steps
-- follow. Then the processes are a tree: every running process has its own number in its control block
-- and a running parent on its terminal, a process has one child besides itself at most, the process in
-- front of a terminal is a running one of it without another child, and the current process is in front
-- of its terminal. A step is a call of `sys_execute`, `sys_open` or `sys_close`, a call of `sys_halt` by a
-- process that is not its own parent, or an interrupt of the timer or the keyboard, each with any
-- arguments and without a fault.
pub Steps-IsTree :
    (m m1 m2 : Machine)
    → IsIdle m
    → Boot m m1
    → Steps m1 m2
    → IsTree m2.kernel.tasks m2.kernel.pcbs m2.terminal_arr m2.kernel.pid
Steps-IsTree m m1 m2 idle boot steps = (Steps-IsLive steps (Boot-IsLive idle boot)).tree

-- After the start of the first shell and any number of steps, as in `Steps-IsTree`, the 4 MB that the
-- page tables have at 128 MB are those of the current process: its own from 8 MB + 4 MB * pid on. The
-- current number is below 6.
pub Steps-program_address :
    (m m1 m2 : Machine) (i : ℕ)
    → IsIdle m
    → Boot m m1
    → Steps m1 m2
    → m2.kernel.pid < 6
    → program_address m2.paging i ≡ 0x800000 + m2.kernel.pid * 0x400000 + i
Steps-program_address m m1 m2 i idle boot steps low =
    omega (arith, (Steps-IsLive steps (Boot-IsLive idle boot)).mapped)
