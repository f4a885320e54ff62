-- ===== src/Scheduler/Switch.antt =====
-- What the timer's handler of scheduler.c leaves when it goes to another process.
use linux_os.Base.{
  ℕ, ◌+◌, ◌*◌, ◌%◌, ◌^◌, ◌≤◌, ◌<◌, ◌≡◌, ◌≢◌, inl, inr, refl, sym, ap, ◌∙◌, Option, none, some, List,
  arith, ltb, Bool-cases, Option-cases,
}
use linux_os.FileSystem.{Dentry}
use linux_os.Machine.{Machine, Registers, Outcome, returned, to_user, to_stack, program_address}
use linux_os.Paging.{Paging, PageDirectoryEntry, set_up_pid_map, set_up_vidmap_terminals}
use linux_os.Process.{stack_top}
use linux_os.Process.Tree.{IsTree}
use linux_os.Execute.Starts.{memory_of, set_act_terminal-active_term, set_act_terminal-pde}
use linux_os.Console.{Console, set_act_terminal}
use linux_os.Pic.{Pic, send_eoi}
use linux_os.Scheduler.{get_next_terminal, choose_next, switch_to, switch_turn, pit_handler}
use linux_os.Scheduler.Turns.{next_in_use-some, next_in_use-none}

-- The first terminal in use, going round the three from the one after `c` on, `c` itself being the last.
pub record IsNext (arr : ℕ → Option ℕ) (c t : ℕ) : Type 0 where
  pub distance : ℕ
  pub low : 1 ≤ distance
  pub high : distance ≤ 3
  pub is_at : t ≡ (c + distance) % 3
  pub skipped : (m : ℕ) → 1 ≤ m → m < distance → arr ((c + m) % 3) ≡ none

one_turn : (c : ℕ) → get_next_terminal c ≡ (c + 1) % 3
unfolding get_next_terminal
one_turn c = refl

two_turns : (c : ℕ) → get_next_terminal (get_next_terminal c) ≡ (c + 2) % 3
unfolding get_next_terminal
two_turns c = omega arith

three_turns : (c : ℕ) → get_next_terminal (get_next_terminal (get_next_terminal c)) ≡ (c + 3) % 3
unfolding get_next_terminal
three_turns c = omega arith

module _ (arr : ℕ → Option ℕ) (c : ℕ) where
  skip_one : arr (get_next_terminal c) ≡ none → (m : ℕ) → 1 ≤ m → m < 2 → arr ((c + m) % 3) ≡ none
  skip_one n1 m low high =
      let is_one : m ≡ 1 = omega arith in
      ap (λ (d : ℕ). arr ((c + d) % 3)) is_one ∙ ap arr (sym (one_turn c)) ∙ n1

  skip_two :
      arr (get_next_terminal c) ≡ none
      → arr (get_next_terminal (get_next_terminal c)) ≡ none
      → (m : ℕ) → 1 ≤ m
      → m < 3
      → arr ((c + m) % 3) ≡ none
  skip_two n1 n2 m low high = elim (Bool-cases (ltb m 2)) [
    | inl first ↦ skip_one n1 m low (ground arith)
    | inr second ↦
        let is_two : m ≡ 2 = ground arith in
        ap (λ (d : ℕ). arr ((c + d) % 3)) is_two ∙ ap arr (sym (two_turns c)) ∙ n2
  ]

-- With a terminal in use below 3, the search from it ends with the next terminal in use.
pub choose_next-total :
    (arr : ℕ → Option ℕ) (c q : ℕ)
    → c < 3
    → arr c ≡ some q
    → (t p : ℕ) × (choose_next arr c ≡ some (t, p)) × (arr t ≡ some p) × IsNext arr c t
unfolding choose_next
choose_next-total arr c q low used =
    let a = get_next_terminal c in
    let b = get_next_terminal a in
    elim (Option-cases (arr a)) [
      | inr (p, e) ↦ (
        a,
        p,
        next_in_use-some 2 arr a p e,
        e,
        record {
          distance = 1;
          low = omega arith;
          high = omega arith;
          is_at = one_turn c;
          skipped = λ m from to. absurd (omega arith);
        },
      )
      | inl n1 ↦ elim (Option-cases (arr b)) [
        | inr (p, e) ↦ (
          b,
          p,
          next_in_use-none 2 arr a n1 ∙ next_in_use-some 1 arr b p e,
          e,
          record {
            distance = 2;
            low = omega arith;
            high = omega arith;
            is_at = two_turns c;
            skipped = skip_one arr c n1;
          },
        )
        | inl n2 ↦
            let round : get_next_terminal b ≡ c = omega (arith, three_turns c) in
            let back : arr (get_next_terminal b) ≡ some q = ap arr round ∙ used in
            (
              get_next_terminal b,
              q,
              next_in_use-none 2 arr a n1
                  ∙ next_in_use-none 1 arr b n2
                  ∙ next_in_use-some 0 arr (get_next_terminal b) q back,
              back,
              record {
                distance = 3;
                low = omega arith;
                high = omega arith;
                is_at = three_turns c;
                skipped = skip_two arr c n1 n2;
              },
            )
      ]
    ]

-- What a switch from the current process, with the registers `regs`, to the process `p` leaves. `q` is
-- any process.
pub record Switched (regs : Registers) (p q : ℕ) (m : Machine) (regs' : Registers) (m' : Machine)
    : Type 0 where
  pub current : m'.kernel.pid ≡ p
  pub saved :
      ((m'.kernel.pcbs m.kernel.pid).saved_esp ≡ regs.esp)
      × ((m'.kernel.pcbs m.kernel.pid).saved_ebp ≡ regs.ebp)
  pub others : q ≢ m.kernel.pid → m'.kernel.pcbs q ≡ m.kernel.pcbs q
  pub resumed :
      (regs'.esp ≡ (m'.kernel.pcbs p).saved_esp) × (regs'.ebp ≡ (m'.kernel.pcbs p).saved_ebp)
  pub tasks : m'.kernel.tasks ≡ m.kernel.tasks
  pub terminal_arr : m'.terminal_arr ≡ m.terminal_arr
  pub active_term : m'.console.active_term ≡ (m.kernel.pcbs p).terminal_idx
  pub page : p < 6 → program_address m'.paging 0 ≡ memory_of p
  pub esp0 : m'.esp0 ≡ stack_top p

-- The outcome is such a switch.
abbrev pub GoesTo : Registers → ℕ → ℕ → Machine → Outcome → Type 0
GoesTo regs p q m (to_stack regs' none m') = Switched regs p q m regs' m'
GoesTo regs p q m (to_stack regs' (some v) m') = ⊥
GoesTo regs p q m (to_user eip m') = ⊥
GoesTo regs p q m (returned r m') = ⊥

switch_page :
    (p t v : ℕ) (s : Console) (pages : Paging)
    → p < 6
    → program_address
        (set_act_terminal t (s, set_up_vidmap_terminals 0x8400000 t v (set_up_pid_map p pages))).1
        0
      ≡ memory_of p
unfolding set_up_vidmap_terminals set_up_pid_map
switch_page p t v s pages low =
    ap (λ (e : PageDirectoryEntry). e.page_table_base_addr * 2 ^ 12 + 0)
      (set_act_terminal-pde t 32 s (set_up_vidmap_terminals 0x8400000 t v (set_up_pid_map p pages)))
    ∙ omega arith

switch_to-GoesTo :
    (p q : ℕ) (regs : Registers) (m : Machine) (pic : Pic)
    → (m.kernel.pcbs p).pid ≡ p
    → GoesTo regs p q m (switch_to p regs (record m { pic = pic }))
unfolding switch_to
switch_to-GoesTo p q regs m pic own = record {
  current = own;
  saved = (ground arith, ground arith);
  others = λ other. ground (arith, other);
  resumed = (refl, refl);
  tasks = refl;
  terminal_arr = refl;
  active_term = set_act_terminal-active_term (m.kernel.pcbs p).terminal_idx m.console (
      set_up_vidmap_terminals 0x8400000 (m.kernel.pcbs p).terminal_idx m.console.vis_term
        (set_up_pid_map (m.kernel.pcbs p).pid m.paging));
  page = λ low.
      rw own
        (switch_page p (m.kernel.pcbs p).terminal_idx m.console.vis_term m.console m.paging low);
  esp0 = ap stack_top own;
}

-- The timer's handler, with the processes a tree, the current one on one of the three terminals and a
-- process on the first: it goes to the process in front of the first terminal in use, going round the
-- three from the one after the current terminal on. The registers of the interrupted process are in its control block and those of the
-- other process are loaded from its own; tasks, terminals and the other control blocks are kept; the
-- new process's terminal is the active one, its memory is mapped if its number is below 6, and its
-- kernel stack is in the TSS.
pub pit_handler-GoesTo :
    (shell arg_buf : List ℕ) (local : Dentry) (regs : Registers) (m : Machine) (first q : ℕ)
    → IsTree m.kernel.tasks m.kernel.pcbs m.terminal_arr m.kernel.pid
    → (m.kernel.pcbs m.kernel.pid).terminal_idx < 3
    → m.terminal_arr 0 ≡ some first
    → (t p : ℕ) × (o : Outcome) × (pit_handler shell arg_buf local regs m ≡ some o)
      × IsNext m.terminal_arr (m.kernel.pcbs m.kernel.pid).terminal_idx t
      × (m.terminal_arr t ≡ some p)
      × GoesTo regs p q m o
unfolding pit_handler switch_turn
pit_handler-GoesTo shell arg_buf local regs m first q v inside used =
    let (t, p, chosen, front, next) =
      choose_next-total m.terminal_arr (m.kernel.pcbs m.kernel.pid).terminal_idx m.kernel.pid inside
        v.current_in_front in
    let own = v.own p (v.in_front t p front).0 in
    let m' = record m { pic = send_eoi 0 m.pic } in
    (
      t,
      p,
      switch_to p regs m',
      rw (pit_handler, used) (rw (switch_turn, chosen) refl),
      next,
      front,
      switch_to-GoesTo p q regs m m'.pic own,
    )
