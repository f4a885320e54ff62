-- ===== src/Lifecycle/Keys.antt =====
-- The keyboard's interrupt keeps the processes a tree.
use linux_os.Base.{
  ℕ, ◌≡◌, inl, inr, refl, sym, ap, ◌∙◌, Bool, true, false, ◌&&◌, none, some, arith, ◌==◌,
  Bool-cases, >>=-eq-some,
}
use linux_os.Base.Int.{pos, minus_one, ◌==ℤ◌}
use mathlib.Core.Path.{subst}
use mathlib.Core.Option.{some-injective}
use linux_os.Console.{Console, set_display_terminal}
use linux_os.Keyboard.{
  Keyboard, set_flags, is_input, take_line, clear_line, type_key, type_char, type_tab,
  type_backspace,
}
use linux_os.Machine.{Machine, Outcome, returned, to_user, to_stack}
use linux_os.Paging.{Paging, PageDirectoryEntry}
use linux_os.Pic.{send_eoi}
use linux_os.Process.{find_available_pid}
use linux_os.Execute.{execute_terminal}
use linux_os.Execute.Starts.{set_act_terminal-pde}
use linux_os.Execute.Outcomes.{execute_terminal-After}
use linux_os.Interrupts.{Call, open_terminal, handle_input, keyboard_handler, show_terminal}
use linux_os.Lifecycle.{IsLive, machine_of}
use linux_os.Lifecycle.Calls.{After-root}
use linux_os.Lifecycle.Interrupts.{with_devices, with_devices-IsLive}

-- The keyboard's functions do not change which terminals have been opened.
SameOpened : Keyboard → Keyboard → Type 0
SameOpened k k' =
    (k'.terminal_2_active ≡ k.terminal_2_active) × (k'.terminal_3_active ≡ k.terminal_3_active)

set_flags-SameOpened : (code : ℕ) (k : Keyboard) → SameOpened k (set_flags code k)
unfolding set_flags SameOpened
set_flags-SameOpened code k = ground arith

take_line-SameOpened : (k : Keyboard) → SameOpened k (take_line k)
unfolding take_line SameOpened
take_line-SameOpened k = ground arith

clear_line-SameOpened : (k : Keyboard) (s : Console) → SameOpened k (clear_line (k, s)).0
unfolding clear_line SameOpened
clear_line-SameOpened k s = (refl, refl)

type_key-SameOpened :
    (code : ℕ) (k : Keyboard) (s : Console) → SameOpened k (type_key code (k, s)).0
unfolding type_key type_char type_tab type_backspace SameOpened
type_key-SameOpened code k s = ground arith

-- A result that replaces what a start returned.
silent-IsLive :
    (started : Outcome)
    → IsLive (machine_of started)
    → IsLive (machine_of (elim started [ returned r m ↦ returned (pos 0) m | other ↦ other ]))
silent-IsLive (returned r m) v = v
silent-IsLive (to_user eip m) v = v
silent-IsLive (to_stack rs r m) v = v

set_display_terminal-pde :
    (t : ℕ) (s : Console) (p : Paging) → (set_display_terminal t (s, p)).1.pde 32 ≡ p.pde 32
unfolding set_display_terminal
set_display_terminal-pde t s p = set_act_terminal-pde s.active_term 32 _ p

show_terminal-IsLive : (t : ℕ) (m : Machine) → IsLive m → IsLive (show_terminal t m)
show_terminal-IsLive t m v = record {
  tree = v.tree;
  second = v.second;
  third = v.third;
  mapped =
      ap (λ (d : PageDirectoryEntry). d.page_table_base_addr)
        (set_display_terminal-pde t m.console m.paging)
      ∙ v.mapped;
}

open_terminal-IsLive :
    (t : ℕ) (active : Bool) (mark : Keyboard → Keyboard) (call : Call) (m : Machine) (o : Outcome)
    → IsLive m
    → (active ≡ false → m.terminal_arr t ≡ none)
    → (t ≡ 1 → (mark m.keyboard).terminal_2_active ≡ true)
    → (t ≡ 2 → (mark m.keyboard).terminal_3_active ≡ true)
    → ((mark m.keyboard).terminal_2_active ≡ false → m.keyboard.terminal_2_active ≡ false)
    → ((mark m.keyboard).terminal_3_active ≡ false → m.keyboard.terminal_3_active ≡ false)
    → open_terminal t active mark call m ≡ some o
    → IsLive (machine_of o)
unfolding open_terminal
open_terminal-IsLive t true mark call m o v unused two three keep2 keep3 e =
    subst (λ x. IsLive (machine_of x)) (some-injective _ _ e) (show_terminal-IsLive t m v)
open_terminal-IsLive t false mark call m o v unused two three keep2 keep3 e =
    let shown = show_terminal t m in
    elim (Bool-cases (find_available_pid shown.kernel ==ℤ minus_one)) [
      | inl full ↦
          subst (λ x. IsLive (machine_of x)) (some-injective _ _ (rw full at e))
            (show_terminal-IsLive t m v)
      | inr free ↦
          let marked = with_devices shown.pic (mark m.keyboard) shown.console shown.paging shown in
          let w =
            with_devices-IsLive shown.pic (mark m.keyboard) shown.console shown.paging shown
              (show_terminal-IsLive t m v) refl keep2 keep3 in
          let (started, begun, e') =
            >>=-eq-some
              (execute_terminal (some call.shell) t call.arg_buf call.local call.regs marked) _
              (rw free at e) in
          subst (λ x. IsLive (machine_of x)) (some-injective _ _ e')
            (silent-IsLive started (
              After-root t call.regs marked (machine_of started) w (unused refl) two three started
                refl
                (execute_terminal-After (some call.shell) t call.arg_buf call.local call.regs marked
                  started begun)))
    ]

handle_input-IsLive :
    (call : Call) (m : Machine) (o : Outcome)
    → IsLive m
    → handle_input call m ≡ some o
    → IsLive (machine_of o)
unfolding handle_input SameOpened
handle_input-IsLive call m o v e =
    let k = take_line m.keyboard in
    let same = take_line-SameOpened m.keyboard in
    let cleared = clear_line (k, m.console) in
    let typed = type_key call.scan_code (k, m.console) in
    let taken = with_devices m.pic k m.console m.paging m in
    let w =
      with_devices-IsLive m.pic k m.console m.paging m v refl (λ off. sym same.0 ∙ off)
        (λ off. sym same.1 ∙ off) in
    let reply = λ (m' : Machine) (x : IsLive m') (c : some (returned (pos 0) m') ≡ some o).
      subst (λ y. IsLive (machine_of y)) (some-injective _ _ c) x in
    elim (Bool-cases (k.ctrl_flag && (call.scan_code == 0x26))) [
      | inl clears ↦
          let s2 = clear_line-SameOpened k m.console in
          reply (with_devices m.pic cleared.0 cleared.1 m.paging taken)
            (with_devices-IsLive m.pic cleared.0 cleared.1 m.paging taken w refl
              (λ off. sym s2.0 ∙ off) (λ off. sym s2.1 ∙ off))
            (rw (handle_input, clears) at e)
      | inr n1 ↦ elim (Bool-cases (k.alt_flag && (call.scan_code == 0x3B))) [
        | inl first ↦
            reply (show_terminal 0 taken) (show_terminal-IsLive 0 taken w)
              (rw (handle_input, n1, first) at e)
        | inr n2 ↦ elim (Bool-cases (k.alt_flag && (call.scan_code == 0x3C))) [
          | inl second ↦
              open_terminal-IsLive 1 k.terminal_2_active
                (λ k. record k { terminal_2_active = true }) call taken o w w.second (λ z. refl)
                (λ z. ground (arith, z)) (λ z. ground (arith, z)) (λ z. z)
                (rw (handle_input, n1, n2, second) at e)
          | inr n3 ↦ elim (Bool-cases (k.alt_flag && (call.scan_code == 0x3D))) [
            | inl third ↦
                open_terminal-IsLive 2 k.terminal_3_active
                  (λ k. record k { terminal_3_active = true }) call taken o w w.third
                  (λ z. ground (arith, z)) (λ z. refl) (λ z. z) (λ z. ground (arith, z))
                  (rw (handle_input, n1, n2, n3, third) at e)
            | inr n4 ↦
                let s2 = type_key-SameOpened call.scan_code k m.console in
                reply (with_devices m.pic typed.0 typed.1 m.paging taken)
                  (with_devices-IsLive m.pic typed.0 typed.1 m.paging taken w refl
                    (λ off. sym s2.0 ∙ off) (λ off. sym s2.1 ∙ off))
                  (rw (handle_input, n1, n2, n3, n4) at e)
          ]
        ]
      ]
    ]

-- The keyboard's interrupt.
pub keyboard_handler-IsLive :
    (call : Call) (m : Machine) (o : Outcome)
    → IsLive m
    → keyboard_handler call m ≡ some o
    → IsLive (machine_of o)
unfolding keyboard_handler SameOpened
keyboard_handler-IsLive call m o v e =
    let k = set_flags call.scan_code (record m.keyboard { visible_term = m.console.vis_term }) in
    let same =
      set_flags-SameOpened call.scan_code
        (record m.keyboard { visible_term = m.console.vis_term }) in
    let m' = with_devices (send_eoi 1 m.pic) k m.console m.paging m in
    let w =
      with_devices-IsLive (send_eoi 1 m.pic) k m.console m.paging m v refl (λ off. sym same.0 ∙ off)
        (λ off. sym same.1 ∙ off) in
    elim (Bool-cases (is_input call.scan_code)) [
      | inl input ↦ handle_input-IsLive call m' o w (rw (keyboard_handler, input) at e)
      | inr other ↦
          subst (λ x. IsLive (machine_of x))
            (some-injective _ _ (rw (keyboard_handler, other) at e)) w
    ]
