-- ===== src/Interrupts.antt =====
-- The handler of the keyboard interrupt, keyboard.c, over the state of the whole kernel: the flags and
-- the line of Keyboard, and the switch of the visible terminal.
use linux_os.Base.{ℕ, Bool, true, ◌&&◌, Option, some, List, ◌==◌, if◌then◌else◌, ◌>>=◌}
use linux_os.Base.Int.{pos, minus_one, ◌==ℤ◌}
use linux_os.Console.{Console, set_display_terminal}
use linux_os.Execute.{execute_terminal}
use linux_os.FileSystem.{Dentry}
use linux_os.Keyboard.{Keyboard, set_flags, is_input, take_line, clear_line, type_key}
use linux_os.Machine.{Machine, Registers, Outcome, returned}
use linux_os.Pic.{Pic, enable_irq, send_eoi}
use linux_os.Process.{find_available_pid}

unfoldable pub keyboard_init : Pic → Pic
keyboard_init s = enable_irq 1 s

abbrev pub show_terminal : ℕ → Machine → Machine
show_terminal t m =
    let (console, paging) = set_display_terminal t (m.console, m.paging) in
    record m { console = console; paging = paging }

-- What the handler is given besides the machine: what it reads from the keyboard's port, the memory
-- from the literal "shell" on, what two local variables of `execute_terminal` hold, and the registers.
pub record Call : Type 0 where
  pub scan_code : ℕ
  pub shell : List ℕ
  pub arg_buf : List ℕ
  pub local : Dentry
  pub regs : Registers

-- Alt with F2 or F3: the terminal is shown, and its shell is started once. The result of the start is
-- not looked at. The handler's result is not used, so it is 0.
unfoldable pub open_terminal : ℕ → Bool → (Keyboard → Keyboard) → Call → Machine → Option Outcome
open_terminal t active mark call m =
    let shown = show_terminal t m in
    if active
    then some (returned (pos 0) shown)
    else if find_available_pid shown.kernel ==ℤ minus_one
    then some (returned (pos 0) shown)
    else (do
      o ←
          execute_terminal (some call.shell) t call.arg_buf call.local call.regs
            (record shown { keyboard = mark shown.keyboard })
      some (elim o [ returned r m' ↦ returned (pos 0) m' | other ↦ other ]))

-- The branches for an input, in their order.
unfoldable pub handle_input : Call → Machine → Option Outcome
handle_input call m =
    let k = take_line m.keyboard in
    let m' = record m { keyboard = k } in
    let code = call.scan_code in
    let typed = λ (p : Keyboard × Console). record m' { keyboard = p.0; console = p.1 } in
    if k.ctrl_flag && (code == 0x26)
    then some (returned (pos 0) (typed (clear_line (k, m'.console))))
    else if k.alt_flag && (code == 0x3B)
    then some (returned (pos 0) (show_terminal 0 m'))
    else if k.alt_flag && (code == 0x3C)
    then open_terminal 1 k.terminal_2_active (λ k. record k { terminal_2_active = true }) call m'
    else if k.alt_flag && (code == 0x3D)
    then open_terminal 2 k.terminal_3_active (λ k. record k { terminal_3_active = true }) call m'
    else some (returned (pos 0) (typed (type_key code (k, m'.console))))

unfoldable pub keyboard_handler : Call → Machine → Option Outcome
keyboard_handler call m =
    let m' = record m {
      pic = send_eoi 1 m.pic;
      keyboard = set_flags call.scan_code (record m.keyboard { visible_term = m.console.vis_term });
    } in
    if is_input call.scan_code then handle_input call m' else some (returned (pos 0) m')
