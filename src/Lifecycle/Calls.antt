-- ===== src/Lifecycle/Calls.antt =====
-- The system calls keep the processes a tree.
use linux_os.Base.{
  ℕ, ◌≡◌, ◌≢◌, inl, inr, refl, sym, ap, ◌∙◌, true, false, Option, none, some, List, arith, ◌==◌,
}
use linux_os.Base.Int.{pos}
use mathlib.Core.Path.{subst}
use mathlib.Core.Option.{some-injective}
use linux_os.FileSystem.{Dentry}
use linux_os.Machine.{Machine, Registers, Outcome, returned, to_user, to_stack}
use linux_os.Paging.{map_memory, program_base}
use linux_os.Process.{Kernel, find_available_pid}
use linux_os.Process.Pids.{find_available_pid_lem}
use linux_os.Process.Tree.{IsTree-start_root, IsTree-start_child, IsTree-finish, IsTree-SameBlocks}
use linux_os.Execute.{sys_execute, new_pcb}
use linux_os.Execute.Refused.{SameProcesses}
use linux_os.Execute.Outcomes.{NewProcess, After, execute_terminal-After}
use linux_os.Halt.{sys_halt, hand_over, leave_program, close_all}
use linux_os.Lifecycle.{IsLive, machine_of}
use linux_os.Lifecycle.Blocks.{SameTree, close_all-SameTree}

-- A kernel with the same tree keeps the machine live.
pub IsLive-SameTree :
    (m : Machine) (k : Kernel) → SameTree m.kernel k → IsLive m → IsLive (record m { kernel = k })
IsLive-SameTree m k s v = record {
  tree = rw (s.tasks, s.pid) (IsTree-SameBlocks s.blocks v.tree);
  second = v.second;
  third = v.third;
  mapped = v.mapped ∙ ap program_base (sym s.pid);
}

pub IsLive-SameProcesses : (m m' : Machine) → SameProcesses m m' → IsLive m → IsLive m'
IsLive-SameProcesses m m' s v = record {
  tree = rw (s.tasks, s.pid, s.pcbs, s.terminal_arr) v.tree;
  second = rw (s.keyboard, s.terminal_arr) v.second;
  third = rw (s.keyboard, s.terminal_arr) v.third;
  mapped = rw (s.paging, s.pid) v.mapped;
}

-- A chosen pid is not in use.
pub chosen-free : (k : Kernel) (next : ℕ) → find_available_pid k ≡ pos next → k.tasks next ≡ 0
chosen-free k next e = elim (find_available_pid_lem k 0 (ground arith)) [
  | inl (p, found, below, free, lowest) ↦ ground (arith, e, found, free)
  | inr (missing, busy) ↦ ground (arith, e, missing)
]

module _ (terminal_id : ℕ) (regs : Registers) (m m' : Machine) (v : IsLive m) where
  -- A program that starts on the terminal of the current process.
  NewProcess-child :
      terminal_id ≡ (m.kernel.pcbs m.kernel.pid).terminal_idx
      → NewProcess terminal_id regs m m'
      → IsLive m'
  NewProcess-child here n =
      let pc =
        new_pcb n.next terminal_id (m.terminal_arr terminal_id) n.args regs m.kernel.pcbs
          m.kernel.pid in
      let front : m.terminal_arr terminal_id ≡ some m.kernel.pid =
        ap m.terminal_arr here ∙ v.tree.current_in_front in
      let parent : pc.parent_pid ≡ m.kernel.pid =
        rw front (v.tree.own m.kernel.pid v.tree.running) in
      record {
        tree =
            rw (n.current, n.tasks, n.pcbs, n.terminal_arr)
              (IsTree-start_child v.tree n.next terminal_id pc
                (chosen-free m.kernel n.next n.chosen) refl refl parent here);
        second = rw (n.keyboard, n.terminal_arr) (λ off. ground (arith, v.second off, front));
        third = rw (n.keyboard, n.terminal_arr) (λ off. ground (arith, v.third off, front));
        mapped = n.page ∙ ap program_base (sym n.current);
      }

  NewProcess-root :
      m.terminal_arr terminal_id ≡ none
      → (terminal_id ≡ 1 → m.keyboard.terminal_2_active ≡ true)
      → (terminal_id ≡ 2 → m.keyboard.terminal_3_active ≡ true)
      → NewProcess terminal_id regs m m'
      → IsLive m'
  NewProcess-root unused two three n =
      let pc =
        new_pcb n.next terminal_id (m.terminal_arr terminal_id) n.args regs m.kernel.pcbs
          m.kernel.pid in
      record {
        tree =
            rw (n.current, n.tasks, n.pcbs, n.terminal_arr)
              (IsTree-start_root v.tree n.next terminal_id pc (chosen-free m.kernel n.next n.chosen)
                refl refl (rw unused refl) unused);
        second = rw (n.keyboard, n.terminal_arr) (λ off. ground (arith, v.second off, two));
        third = rw (n.keyboard, n.terminal_arr) (λ off. ground (arith, v.third off, three));
        mapped = n.page ∙ ap program_base (sym n.current);
      }

  After-child :
      terminal_id ≡ (m.kernel.pcbs m.kernel.pid).terminal_idx
      → (o : Outcome) → machine_of o ≡ m'
      → After terminal_id regs m o
      → IsLive m'
  After-child here (returned r n) e a = IsLive-SameProcesses m m' (subst (SameProcesses m) e a.1) v
  After-child here (to_user eip n) e a =
      NewProcess-child here (subst (NewProcess terminal_id regs m) e a)
  After-child here (to_stack rs r n) e a = absurd a

  pub After-root :
      m.terminal_arr terminal_id ≡ none
      → (terminal_id ≡ 1 → m.keyboard.terminal_2_active ≡ true)
      → (terminal_id ≡ 2 → m.keyboard.terminal_3_active ≡ true)
      → (o : Outcome) → machine_of o ≡ m'
      → After terminal_id regs m o
      → IsLive m'
  After-root unused two three (returned r n) e a =
      IsLive-SameProcesses m m' (subst (SameProcesses m) e a.1) v
  After-root unused two three (to_user eip n) e a =
      NewProcess-root unused two three (subst (NewProcess terminal_id regs m) e a)
  After-root unused two three (to_stack rs r n) e a = absurd a

-- Starting a program from the current process.
pub sys_execute-IsLive :
    (cmd : Option (List ℕ)) (arg_buf : List ℕ) (local : Dentry) (regs : Registers) (m : Machine)
    (o : Outcome)
    → IsLive m
    → sys_execute cmd arg_buf local regs m ≡ some o
    → IsLive (machine_of o)
unfolding sys_execute
sys_execute-IsLive cmd arg_buf local regs m o v e =
    let t = (m.kernel.pcbs m.kernel.pid).terminal_idx in
    After-child t regs m (machine_of o) v refl o refl
      (execute_terminal-After cmd t arg_buf local regs m o e)

hand_over-IsLive :
    (m : Machine)
    → IsLive m
    → (m.kernel.pcbs m.kernel.pid).parent_pid ≢ m.kernel.pid
    → IsLive (record (hand_over m) {
      paging = map_memory (m.kernel.pcbs m.kernel.pid).parent_pid m.paging;
    })
unfolding map_memory
hand_over-IsLive m v other =
    let cur = m.kernel.pcbs m.kernel.pid in
    let front = v.tree.current_in_front in
    record {
      tree = rw (v.tree.own m.kernel.pid v.tree.running) (IsTree-finish v.tree other);
      second = λ off. ground (arith, v.second off, front);
      third = λ off. ground (arith, v.third off, front);
      mapped = refl;
    }

leave_program-IsLive :
    (self parent status : ℕ) (m : Machine)
    → IsLive (record m { paging = map_memory parent m.paging })
    → (m.kernel.pcbs parent).pid ≡ parent
    → IsLive (machine_of (leave_program self parent status m))
unfolding leave_program map_memory
leave_program-IsLive self parent status m v own =
    let w =
      IsLive-SameTree (record m { paging = map_memory parent m.paging })
        (close_all 8 0 self m.kernel) (close_all-SameTree 8 0 self m.kernel) v in
    record {
      tree = w.tree;
      second = w.second;
      third = w.third;
      mapped = ap program_base own ∙ w.mapped;
    }

-- The end of a program whose parent is another one.
pub sys_halt-IsLive :
    (status : ℕ) (shell arg_buf : List ℕ) (local : Dentry) (regs : Registers) (m : Machine)
    (o : Outcome)
    → IsLive m
    → (m.kernel.pcbs m.kernel.pid).parent_pid ≢ m.kernel.pid
    → sys_halt status shell arg_buf local regs m ≡ some o
    → IsLive (machine_of o)
unfolding sys_halt
sys_halt-IsLive status shell arg_buf local regs m o v other e =
    let cur = m.kernel.pcbs m.kernel.pid in
    let own = v.tree.own m.kernel.pid v.tree.running in
    let differ : (cur.pid == cur.parent_pid) ≡ false = ground (arith, own, other) in
    subst (λ x. IsLive (machine_of x)) (some-injective _ _ (rw (sys_halt, differ) at e))
      (leave_program-IsLive m.kernel.pid cur.parent_pid status (hand_over m)
        (hand_over-IsLive m v other)
        (v.tree.own cur.parent_pid (v.tree.parent m.kernel.pid v.tree.running)))
