-- ===== src/Halt/Returns.antt =====
-- What the end of a program leaves to its parent.
use linux_os.Base.{
  ℕ, zero, suc, ◌<◌, ◌≡◌, ◌≢◌, inl, inr, refl, ap, ◌∙◌, false, Option, some, List, arith, ◌==◌,
  if◌then◌else◌, Bool-cases, update, update_self,
}
use linux_os.Base.Int.{ℤ, pos}
use linux_os.FileSystem.{Dentry}
use linux_os.Machine.{Machine, Registers, to_stack, to_user, program_address}
use linux_os.Paging.{map_memory}
use linux_os.Process.{Kernel, Pcb, sys_close}
use linux_os.Process.Tree.{IsTree}
use linux_os.Execute.{sys_execute, new_pcb}
use linux_os.Execute.Starts.{memory_of, map_memory-address}
use linux_os.Execute.Outcomes.{NewProcess, execute_terminal-After}
use linux_os.Halt.{drop_descriptor, close_all, hand_over, leave_program, stat_ret_val, sys_halt}
use linux_os.Lifecycle.{IsLive}
use linux_os.Lifecycle.Calls.{sys_execute-IsLive, chosen-free}
use linux_os.Lifecycle.Blocks.{close_all-SameTree}

-- The registers that a process returns to.
SameReturn : ℕ → Kernel → Kernel → Type 0
SameReturn q k k' =
    ((k'.pcbs q).parent_esp ≡ (k.pcbs q).parent_esp)
    × ((k'.pcbs q).parent_ebp ≡ (k.pcbs q).parent_ebp)

sys_close-SameReturn : (q : ℕ) (fd : ℤ) (k : Kernel) → SameReturn q k (sys_close fd k).1
unfolding SameReturn sys_close
sys_close-SameReturn q fd k = ground arith

drop_descriptor-SameReturn : (q self i : ℕ) (k : Kernel) → SameReturn q k (drop_descriptor self i k)
unfolding SameReturn
drop_descriptor-SameReturn q self i k = ground arith

SameReturn-trans : (q : ℕ) (a b c : Kernel) → SameReturn q a b → SameReturn q b c → SameReturn q a c
unfolding SameReturn
SameReturn-trans q a b c s t = (t.0 ∙ s.0, t.1 ∙ s.1)

close_all-SameReturn :
    (rounds i self q : ℕ) (k : Kernel) → SameReturn q k (close_all rounds i self k)
unfolding close_all SameReturn
close_all-SameReturn zero i self q k = (refl, refl)
close_all-SameReturn (suc rounds) i self q k =
    let step = if ((k.pcbs self).fd_arr i).flag == 1 then (sys_close (pos i) k).1 else k in
    let dropped = drop_descriptor self i step in
    let closed : SameReturn q k step = elim (Bool-cases (((k.pcbs self).fd_arr i).flag == 1)) [
      | inl used ↦ rw used (sys_close-SameReturn q (pos i) k)
      | inr unused ↦ rw unused (refl, refl)
    ] in
    SameReturn-trans q k step (close_all rounds (suc i) self dropped) closed (
      SameReturn-trans q step dropped (close_all rounds (suc i) self dropped)
        (drop_descriptor-SameReturn q self i step)
        (close_all-SameReturn rounds (suc i) self q dropped))

-- What the end of a program leaves: the parent runs in its own memory, in front of the terminal, with
-- the processor's stack of the call that started the program, and the number is free.
pub record Returned (m : Machine) (parent : ℕ) (m' : Machine) : Type 0 where
  pub current : m'.kernel.pid ≡ parent
  pub tasks : m'.kernel.tasks ≡ update m.kernel.tasks m.kernel.pid 0
  pub terminal_arr :
      m'.terminal_arr
      ≡ update m.terminal_arr (m.kernel.pcbs m.kernel.pid).terminal_idx (some parent)
  pub page : parent < 6 → program_address m'.paging 0 ≡ memory_of parent
  pub esp0 : m'.esp0 ≡ (m.kernel.pcbs m.kernel.pid).parent_esp

pub sys_halt-Returned :
    (status : ℕ) (shell arg_buf : List ℕ) (local : Dentry) (regs : Registers) (m : Machine)
    → IsTree m.kernel.tasks m.kernel.pcbs m.terminal_arr m.kernel.pid
    → (m.kernel.pcbs m.kernel.pid).parent_pid ≢ m.kernel.pid
    → (m' : Machine) × (sys_halt status shell arg_buf local regs m
        ≡ some (
            to_stack
              (record {
                esp = (m.kernel.pcbs m.kernel.pid).parent_esp;
                ebp = (m.kernel.pcbs m.kernel.pid).parent_ebp;
              })
              (some (stat_ret_val status))
              m'))
      × Returned m (m.kernel.pcbs m.kernel.pid).parent_pid m'
unfolding sys_halt leave_program SameReturn
sys_halt-Returned status shell arg_buf local regs m v other =
    let self = m.kernel.pid in
    let cur = m.kernel.pcbs self in
    let own = v.own self v.running in
    let alive = v.parent self v.running in
    let differ : (cur.pid == cur.parent_pid) ≡ false = ground (arith, own, other) in
    let m1 = hand_over m in
    let k = close_all 8 0 self m1.kernel in
    let same = close_all-SameTree 8 0 self m1.kernel in
    let regs_same = close_all-SameReturn 8 0 self self m1.kernel in
    let m' = record m1 {
      kernel = k;
      paging = map_memory (m1.kernel.pcbs cur.parent_pid).pid m.paging;
      esp0 = (k.pcbs self).parent_esp;
    } in
    let left : Registers = record {
      esp = (k.pcbs self).parent_esp;
      ebp = (k.pcbs self).parent_ebp;
    } in
    let call : Registers = record { esp = cur.parent_esp; ebp = cur.parent_ebp } in
    let stack : left ≡ call = rw (regs_same.0, regs_same.1) refl in
    (
      m',
      rw differ (ap (λ (r : Registers). some (to_stack r (some (stat_ret_val status)) m')) stack),
      record {
        current = same.pid;
        tasks = same.tasks ∙ ap (λ (i : ℕ). update m.kernel.tasks i 0) own;
        terminal_arr = refl;
        page = λ low.
            ap (λ (i : ℕ). program_address (map_memory i m.paging) 0) (v.own cur.parent_pid alive)
            ∙ map_memory-address m.paging cur.parent_pid low;
        esp0 = regs_same.0;
      },
    )

update_back :
    {A : Type 0} → (f : ℕ → A) (i j : ℕ) (x y : A) → f i ≡ y → update (update f i x) i y j ≡ f j
update_back f i j x y e = ground (arith, e)

module _ (t' : ℕ) (regs : Registers) (m m1 : Machine) (v : IsLive m) (n : NewProcess t' regs m m1)
    (here : t' ≡ (m.kernel.pcbs m.kernel.pid).terminal_idx) where
  block : Pcb
  block = new_pcb n.next t' (m.terminal_arr t') n.args regs m.kernel.pcbs m.kernel.pid

  child-block : m1.kernel.pcbs m1.kernel.pid ≡ block
  unfolding block
  child-block =
      ap (λ (f : ℕ → Pcb). f m1.kernel.pid) n.pcbs
      ∙ ap
          (update m.kernel.pcbs n.next
            (new_pcb n.next t' (m.terminal_arr t') n.args regs m.kernel.pcbs m.kernel.pid))
          n.current
      ∙ update_self m.kernel.pcbs n.next _

  child-front : m.terminal_arr t' ≡ some m.kernel.pid
  child-front = ap m.terminal_arr here ∙ v.tree.current_in_front

  child-parent : (m1.kernel.pcbs m1.kernel.pid).parent_pid ≡ m.kernel.pid
  unfolding block
  child-parent =
      ap (λ (b : Pcb). b.parent_pid) child-block
      ∙ rw child-front (v.tree.own m.kernel.pid v.tree.running)

  child-other : (m1.kernel.pcbs m1.kernel.pid).parent_pid ≢ m1.kernel.pid
  child-other =
      ground (arith, child-parent, n.current, chosen-free m.kernel n.next n.chosen, v.tree.running)

  child-sys_halt :
      (status : ℕ) (shell arg_buf : List ℕ) (local : Dentry) (regs' : Registers) (p t : ℕ)
      → IsLive m1
      → m.kernel.pid < 6
      → (m2 : Machine) × (sys_halt status shell arg_buf local regs' m1
          ≡ some (to_stack regs (some (stat_ret_val status)) m2))
        × (m2.kernel.pid ≡ m.kernel.pid)
        × (m2.kernel.tasks p ≡ m.kernel.tasks p)
        × (m2.terminal_arr t ≡ m.terminal_arr t)
        × (program_address m2.paging 0 ≡ memory_of m.kernel.pid)
        × (m2.esp0 ≡ regs.esp)
  unfolding block
  child-sys_halt status shell arg_buf local regs' p t w low =
      let (m2, halted, r) =
        sys_halt-Returned status shell arg_buf local regs' m1 w.tree child-other in
      let esp : (m1.kernel.pcbs m1.kernel.pid).parent_esp ≡ regs.esp =
        ap (λ (b : Pcb). b.parent_esp) child-block in
      let ebp : (m1.kernel.pcbs m1.kernel.pid).parent_ebp ≡ regs.ebp =
        ap (λ (b : Pcb). b.parent_ebp) child-block in
      let at : (m1.kernel.pcbs m1.kernel.pid).terminal_idx ≡ t' =
        ap (λ (b : Pcb). b.terminal_idx) child-block in
      let free : m.kernel.tasks n.next ≡ 0 = chosen-free m.kernel n.next n.chosen in
      (
        m2,
        halted
            ∙ ap (λ (r : Registers). some (to_stack r (some (stat_ret_val status)) m2))
                (rw (esp, ebp) refl),
        r.current ∙ child-parent,
        ap (λ (f : ℕ → ℕ). f p) r.tasks
            ∙ rw (n.tasks, n.current) (update_back m.kernel.tasks n.next p 1 0 free),
        ap (λ (f : ℕ → Option ℕ). f t) r.terminal_arr
            ∙ rw (at, child-parent, n.terminal_arr)
                (update_back m.terminal_arr t' t (some n.next) (some m.kernel.pid) child-front),
        r.page (rw child-parent low) ∙ ap memory_of child-parent,
        r.esp0 ∙ esp,
      )

-- A program that `sys_execute` starts and that ends at once, with a status of 15 or another: the call
-- returns 256 or the status on the stack and with the frame it was made from; the same process is
-- current again, in front of its terminal and in its own memory, and the tasks and the terminals are as
-- before the call. Before the call the processes are a tree, a terminal whose shell is not started has
-- no process in front, and the page tables map the current process's program; the current number is
-- below 6.
pub sys_execute-sys_halt :
    (cmd : Option (List ℕ)) (arg_buf : List ℕ) (local : Dentry) (regs : Registers) (m : Machine)
    (eip : ℕ) (m1 : Machine) (status : ℕ) (shell arg_buf' : List ℕ) (local' : Dentry)
    (regs' : Registers) (p t : ℕ)
    → IsLive m
    → m.kernel.pid < 6
    → sys_execute cmd arg_buf local regs m ≡ some (to_user eip m1)
    → (m2 : Machine) × (sys_halt status shell arg_buf' local' regs' m1
        ≡ some (to_stack regs (some (stat_ret_val status)) m2))
      × (m2.kernel.pid ≡ m.kernel.pid)
      × (m2.kernel.tasks p ≡ m.kernel.tasks p)
      × (m2.terminal_arr t ≡ m.terminal_arr t)
      × (program_address m2.paging 0 ≡ memory_of m.kernel.pid)
      × (m2.esp0 ≡ regs.esp)
unfolding sys_execute
sys_execute-sys_halt cmd arg_buf local regs m eip m1 status shell arg_buf' local' regs' p t v low
      e =
    let here = (m.kernel.pcbs m.kernel.pid).terminal_idx in
    child-sys_halt here regs m m1 v
      (execute_terminal-After cmd here arg_buf local regs m (to_user eip m1) e) refl status shell
      arg_buf' local' regs' p t (sys_execute-IsLive cmd arg_buf local regs m (to_user eip m1) v e)
      low
