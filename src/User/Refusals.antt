-- ===== src/User/Refusals.antt =====
-- The tests of LinuxOS/syscalls/ece391syserr.c on the kernel: the calls that it refuses, and what the
-- tests then show.
use linux_os.Base.{
  ℕ, suc, ◌<◌, ◌≡◌, refl, ap, ◌∙◌, some, List, [], ◌∷◌, ◌++◌, arith, length, codes, ◌>>=◌, true,
  ◌||◌, Option,
}
use linux_os.Base.Int.{ltb_ℤ, ℤ, pos, minus_one, signed32}
use linux_os.Process.{stdout_file_op, descriptor, sys_read, sys_write, sys_close}
use linux_os.Strings.Reverse.{IsText, is_text, is_text-IsText}
use linux_os.Machine.{Machine}
use linux_os.Terminal.Laws.{print_bytes}
use linux_os.Paging.{vidmap}
use linux_os.User.Support.{c_str, ece391_strlen, ece391_fdputs}
use linux_os.User.Kernel.{
  World, Environment, kernel, sys_call_handler, kernel_vidmap, set_screen_start,
}
use linux_os.User.Descriptors.{Shows, write-Shows}
use linux_os.User.Errors.{
  err_neg_fd, err_big_fd, err_vidmap, err_stdin_out, err_syscall_num, neg_fd, big_fd, err_fd,
}

ece391_strlen-text : (t : List ℕ) → IsText t → ece391_strlen (c_str t) ≡ some (length t)
unfolding ece391_strlen
ece391_strlen-text [] h = refl
ece391_strlen-text (c ∷ t) h = ground (arith, ece391_strlen-text t h.1)

-- A message of a program is shown.
pub ece391_fdputs-Shows :
    (env : Environment) (t : List ℕ) (w : World)
    → IsText t
    → 0 < length t
    → length t < 2050
    → (descriptor w.machine.kernel 1).jmp_pointer ≡ stdout_file_op
    → w.machine.console.active_term < 3
    → (w' : World) × (ece391_fdputs (kernel env) (pos 1) (c_str t) w ≡ some w')
      × (w'.machine.kernel ≡ w.machine.kernel)
      × Shows t w w'
unfolding ece391_fdputs
ece391_fdputs-Shows env t w text some_bytes short is_terminal on_screen =
    let (w', run, same, shown) =
      write-Shows env t (0 ∷ []) w is_terminal on_screen some_bytes short in
    let value : signed32 (length t) ≡ pos (length t) = ground arith in
    (w', rw (ece391_strlen-text t text) (rw (value, ◌>>=◌) (rw run refl)), same, shown)

-- After a call that changes nothing.
abbrev pub later : World → World
later w = record { machine = w.machine; time = suc w.time }

module _ (env : Environment) (w : World) (buf : List ℕ) (fd : ℤ)
    (outside : ltb_ℤ fd (pos 0) || ltb_ℤ (pos 7) fd ≡ true) (nbytes : ℤ) where
  read_outside : (kernel env).ece391_read buf fd nbytes w ≡ some (minus_one, buf, later w)
  unfolding kernel sys_read
  read_outside = ground (arith, outside)

  write_outside : (kernel env).ece391_write buf fd nbytes w ≡ some (minus_one, later w)
  unfolding kernel sys_write
  write_outside = ground (arith, outside)

  close_outside : (kernel env).ece391_close fd w ≡ some (minus_one, later w)
  unfolding kernel sys_close
  close_outside = ground (arith, outside)

module _ (env : Environment) (w : World) (buf : List ℕ) (nbytes : ℤ) where
  write_stdin : (kernel env).ece391_write buf (pos 0) nbytes w ≡ some (minus_one, later w)
  unfolding kernel sys_write
  write_stdin = refl

  read_stdout : (kernel env).ece391_read buf (pos 1) nbytes w ≡ some (minus_one, buf, later w)
  unfolding kernel sys_read
  read_stdout = ground arith

-- A test that returns 0 and shows that it passed.
abbrev pub Passes : List ℕ → World → Option (ℤ × World) → Type 0
Passes name w result =
    (w' : World) × (result ≡ some (pos 0, w')) × Shows (name ++ codes ": PASS\n") w w'

module _ (env : Environment) (w : World)
    (is_terminal : (descriptor w.machine.kernel 1).jmp_pointer ≡ stdout_file_op)
    (on_screen : w.machine.console.active_term < 3) where
  err_fd-Passes :
      (fd : ℤ) (name buf : List ℕ)
      → ltb_ℤ fd (pos 0) || ltb_ℤ (pos 7) fd ≡ true
      → IsText (name ++ codes ": PASS\n")
      → 0 < length (name ++ codes ": PASS\n")
      → length (name ++ codes ": PASS\n") < 2050
      → Passes name w (err_fd (kernel env) fd name buf w)
  unfolding err_fd
  err_fd-Passes fd name buf outside text some_bytes short =
      let (w', run, same, shown) =
        ece391_fdputs-Shows env (name ++ codes ": PASS\n") (later (later (later w))) text some_bytes
          short is_terminal on_screen in
      (
        w',
        rw
            (
              read_outside env w buf fd outside (pos 31),
              write_outside env (later w) buf fd outside (pos 31),
              close_outside env (later (later w)) buf fd outside (pos 31),
            )
            (rw run refl),
        shown,
      )

  err_neg_fd-Passes : (buf : List ℕ) → Passes (codes "err_neg_fd") w (err_neg_fd (kernel env) buf w)
  unfolding err_neg_fd
  err_neg_fd-Passes buf =
      err_fd-Passes neg_fd (codes "err_neg_fd") buf (ground arith)
        (is_text-IsText (codes "err_neg_fd: PASS\n") refl) (omega arith) (omega arith)

  err_big_fd-Passes : (buf : List ℕ) → Passes (codes "err_big_fd") w (err_big_fd (kernel env) buf w)
  unfolding err_big_fd
  err_big_fd-Passes buf =
      err_fd-Passes big_fd (codes "err_big_fd") buf (ground arith)
        (is_text-IsText (codes "err_big_fd: PASS\n") refl) (omega arith) (omega arith)

  pub message :
      (name : List ℕ) (w' : World)
      → w'.machine ≡ w.machine
      → is_text name ≡ true
      → 0 < length name
      → length name < 2050
      → (w'' : World) × (ece391_fdputs (kernel env) (pos 1) (c_str name) w' ≡ some w'')
        × Shows name w w''
  message name w' same text some_bytes short =
      let (w'', run, kept, shown) =
        ece391_fdputs-Shows env name w' (is_text-IsText name text) some_bytes short
          (ap (λ (m : Machine). (descriptor m.kernel 1).jmp_pointer) same ∙ is_terminal)
          (omega (arith, ap (λ (m : Machine). m.console.active_term) same)) in
      (w'', run, shown ∙ ap (λ (m : Machine). print_bytes name m.console) same)

  err_vidmap-Passes : Passes (codes "err_vidmap") w (err_vidmap (kernel env) w)
  unfolding err_vidmap kernel kernel_vidmap vidmap set_screen_start
  err_vidmap-Passes =
      let (w', run, shown) =
        message (codes "err_vidmap: PASS\n") (later (later w)) refl refl (omega arith)
          (omega arith) in
      (w', rw run refl, shown)

  err_stdin_out-Passes :
      (buf : List ℕ) → Passes (codes "err_stdin_out") w (err_stdin_out (kernel env) buf w)
  unfolding err_stdin_out
  err_stdin_out-Passes buf =
      let (w', run, shown) =
        message (codes "err_stdin_out: PASS\n") (later (later w)) refl refl (omega arith)
          (omega arith) in
      (
        w',
        rw (write_stdin env w buf (pos 31), read_stdout env (later w) buf (pos 31)) (rw run refl),
        shown,
      )

  err_syscall_num-Passes : Passes (codes "err_syscall_num") w (err_syscall_num (kernel env) w)
  unfolding err_syscall_num kernel sys_call_handler
  err_syscall_num-Passes =
      let (w', run, shown) =
        message (codes "err_syscall_num: PASS\n") w refl refl (omega arith) (omega arith) in
      (w', rw run refl, shown)

-- The kernel refuses what five of the tests call wrongly, and they show that they passed: negative and
-- large descriptors, vidmap with NULL and with an address of the kernel, writes to the keyboard, reads
-- from the screen, and the numbers 0, 1073741823 and -1073741823 of a call. Descriptor 1 is the terminal, and
-- the active terminal is one of the three.
pub refused-Passes :
    (env : Environment) (w : World) (buf : List ℕ)
    → (descriptor w.machine.kernel 1).jmp_pointer ≡ stdout_file_op
    → w.machine.console.active_term < 3
    → Passes (codes "err_neg_fd") w (err_neg_fd (kernel env) buf w)
      × Passes (codes "err_big_fd") w (err_big_fd (kernel env) buf w)
      × Passes (codes "err_vidmap") w (err_vidmap (kernel env) w)
      × Passes (codes "err_stdin_out") w (err_stdin_out (kernel env) buf w)
      × Passes (codes "err_syscall_num") w (err_syscall_num (kernel env) w)
refused-Passes env w buf t s = (
  err_neg_fd-Passes env w t s buf,
  err_big_fd-Passes env w t s buf,
  err_vidmap-Passes env w t s,
  err_stdin_out-Passes env w t s buf,
  err_syscall_num-Passes env w t s,
)
