-- ===== src/Lifecycle/Interrupts.antt =====
-- The timer's interrupt keeps the processes a tree.
use linux_os.Base.{
  ℕ, zero, suc, ◌≡◌, inl, inr, refl, ap, ◌∙◌, false, Option, some, List, arith, Option-cases,
  >>=-eq-some,
}
use mathlib.Core.Path.{subst}
use mathlib.Core.Option.{some-injective}
use linux_os.FileSystem.{Dentry}
use linux_os.Console.{Console, clear, clear_pos}
use linux_os.Keyboard.{Keyboard}
use linux_os.Machine.{Machine, Registers, Outcome, returned, to_user, to_stack}
use linux_os.Pic.{Pic, send_eoi}
use linux_os.Paging.{Paging, PageDirectoryEntry, set_up_pid_map, set_up_vidmap_terminals}
use linux_os.Process.Tree.{IsTree-switch, IsTree-SameBlocks}
use linux_os.Execute.{execute_terminal}
use linux_os.Execute.Outcomes.{execute_terminal-After}
use linux_os.Execute.Starts.{set_act_terminal-pde}
use linux_os.Scheduler.{
  next_in_use, choose_next, get_next_terminal, switch_to, switch_turn, pit_handler,
}
use linux_os.Lifecycle.{IsLive, machine_of}
use linux_os.Lifecycle.Blocks.{SameBlocks-update}
use linux_os.Lifecycle.Calls.{After-root}

next_in_use-front :
    (rounds : ℕ) (arr : ℕ → Option ℕ) (c t p : ℕ)
    → next_in_use rounds arr c ≡ some (t, p)
    → arr t ≡ some p
unfolding next_in_use
next_in_use-front zero arr c t p e = ground (arith, e)
next_in_use-front (suc rounds) arr c t p e = elim (Option-cases (arr c)) [
  | inl unused ↦
      next_in_use-front rounds arr (get_next_terminal c) t p (rw (next_in_use, unused) at e)
  | inr (q, used) ↦ ground (arith, e, used)
]

switch_to-IsLive :
    (t next_pid : ℕ) (regs : Registers) (m : Machine)
    → IsLive m
    → m.terminal_arr t ≡ some next_pid
    → IsLive (machine_of (switch_to next_pid regs m))
unfolding switch_to set_up_vidmap_terminals set_up_pid_map
switch_to-IsLive t next_pid regs m v e =
    let own = v.tree.own next_pid (v.tree.in_front t next_pid e).0 in
    record {
      tree = rw own (
          IsTree-SameBlocks (SameBlocks-update m.kernel.pcbs m.kernel.pid _ refl refl refl)
            (IsTree-switch v.tree t next_pid e));
      second = v.second;
      third = v.third;
      mapped =
          ap (λ (d : PageDirectoryEntry). d.page_table_base_addr)
            (set_act_terminal-pde (m.kernel.pcbs next_pid).terminal_idx 32 m.console (
              set_up_vidmap_terminals 0x8400000 (m.kernel.pcbs next_pid).terminal_idx
                m.console.vis_term (set_up_pid_map (m.kernel.pcbs next_pid).pid m.paging)));
    }

switch_turn-IsLive :
    (regs : Registers) (m : Machine) (o : Outcome)
    → IsLive m
    → switch_turn regs m ≡ some o
    → IsLive (machine_of o)
unfolding switch_turn choose_next
switch_turn-IsLive regs m o v e =
    let c = (m.kernel.pcbs m.kernel.pid).terminal_idx in
    let (next, chosen, e') = >>=-eq-some (choose_next m.terminal_arr c) _ e in
    subst (λ x. IsLive (machine_of x)) (some-injective _ _ e')
      (switch_to-IsLive next.0 next.1 regs m v
        (next_in_use-front 3 m.terminal_arr (get_next_terminal c) next.0 next.1 chosen))

-- Another state of the screen, the page tables, the interrupt controller or the keyboard's line.
abbrev pub with_devices : Pic → Keyboard → Console → Paging → Machine → Machine
with_devices c k s p m = record m { pic = c; keyboard = k; console = s; paging = p }

pub with_devices-IsLive :
    (c : Pic) (k : Keyboard) (s : Console) (p : Paging) (m : Machine)
    → IsLive m
    → p.pde 32 ≡ m.paging.pde 32
    → (k.terminal_2_active ≡ false → m.keyboard.terminal_2_active ≡ false)
    → (k.terminal_3_active ≡ false → m.keyboard.terminal_3_active ≡ false)
    → IsLive (with_devices c k s p m)
with_devices-IsLive c k s p m v same two three = record {
  tree = v.tree;
  second = λ off. v.second (two off);
  third = λ off. v.third (three off);
  mapped = ap (λ (d : PageDirectoryEntry). d.page_table_base_addr) same ∙ v.mapped;
}

shell-IsLive :
    (regs : Registers) (started o : Outcome)
    → IsLive (machine_of started)
    → elim started [
      | returned r m ↦ switch_turn regs m
      | to_user eip m ↦ some (to_user eip m)
      | to_stack rs v m ↦ some (to_stack rs v m)
    ]
      ≡ some o
    → IsLive (machine_of o)
shell-IsLive regs (returned r m) o v e = switch_turn-IsLive regs m o v e
shell-IsLive regs (to_user eip m) o v e =
    subst (λ x. IsLive (machine_of x)) (some-injective _ _ e) v
shell-IsLive regs (to_stack rs r m) o v e =
    subst (λ x. IsLive (machine_of x)) (some-injective _ _ e) v

-- The timer: a switch of the process, or the first shell.
pub pit_handler-IsLive :
    (shell arg_buf : List ℕ) (local : Dentry) (regs : Registers) (m : Machine) (o : Outcome)
    → IsLive m
    → pit_handler shell arg_buf local regs m ≡ some o
    → IsLive (machine_of o)
unfolding pit_handler
pit_handler-IsLive shell arg_buf local regs m o v e =
    let acknowledged = with_devices (send_eoi 0 m.pic) m.keyboard m.console m.paging m in
    let w =
      with_devices-IsLive (send_eoi 0 m.pic) m.keyboard m.console m.paging m v refl (λ off. off)
        (λ off. off) in
    elim (Option-cases (m.terminal_arr 0)) [
      | inr (p, used) ↦ switch_turn-IsLive regs acknowledged o w (rw (pit_handler, used) at e)
      | inl unused ↦
          let cleared = record acknowledged { console = clear_pos (clear m.console) } in
          let c =
            with_devices-IsLive acknowledged.pic m.keyboard cleared.console m.paging acknowledged w
              refl (λ off. off) (λ off. off) in
          let (started, begun, e') =
            >>=-eq-some (execute_terminal (some shell) 0 arg_buf local regs cleared) _
              (rw (pit_handler, unused) at e) in
          shell-IsLive regs started o
            (After-root 0 regs cleared (machine_of started) c unused (λ z. ground (arith, z))
              (λ z. ground (arith, z)) started refl
              (execute_terminal-After (some shell) 0 arg_buf local regs cleared started begun))
            e'
    ]
