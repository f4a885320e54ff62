-- ===== src/User/Unopened.antt =====
-- `err_unopened` of LinuxOS/syscalls/ece391syserr.c on the kernel: calls with descriptors that are not in
-- use.
use linux_os.Base.{
  ℕ, zero, suc, ◌+◌, ◌≤◌, ◌<◌, ◌≡◌, ◌≢◌, refl, sym, ◌∙◌, inl, inr, some, List, arith, codes,
  Bool-cases, ltb,
}
use linux_os.Base.Int.{ℤ, pos, minus_one}
use mathlib.Core.Path.{subst}
use linux_os.Process.{
  Table, Kernel, stdout_file_op, stdin_file_op, rtc_file_op, directory_file_op, file_file_op,
  bad_file_op, descriptor, init_file_operations, sys_read, sys_write, sys_close,
}
use linux_os.FileSystem.{write_f, write_d}
use linux_os.Machine.{Machine}
use linux_os.Drivers.{driver_write, Waits}
use linux_os.User.Kernel.{World, Environment, kernel}
use linux_os.User.Refusals.{later, Passes, message}
use linux_os.User.Errors.{err_unopened, close_all_unopened, read_all_unopened, write_all_unopened}

-- The descriptors from 2 to 7 are not in use, and none of them was left with the table of the screen or
-- of the clock.
pub record Unopened (k : Kernel) : Type 0 where
  pub free : (i : ℕ) → 2 ≤ i → i < 8 → (descriptor k i).flag ≡ 0
  pub no_screen : (i : ℕ) → 2 ≤ i → i < 8 → (descriptor k i).jmp_pointer ≢ stdout_file_op
  pub no_clock : (i : ℕ) → 2 ≤ i → i < 8 → (descriptor k i).jmp_pointer ≢ rtc_file_op

-- The other drivers refuse every write.
driver_write-refused :
    (wt : Waits) (buf : List ℕ) (t : Table) (fd : ℕ) (nbytes : ℤ) (m : Machine)
    → t ≢ stdout_file_op
    → t ≢ rtc_file_op
    → driver_write wt buf (init_file_operations t).on_write fd nbytes m ≡ some (minus_one, m)
unfolding driver_write init_file_operations write_f write_d
driver_write-refused wt buf stdin_file_op fd nbytes m h h' = refl
driver_write-refused wt buf stdout_file_op fd nbytes m h h' = absurd (h refl)
driver_write-refused wt buf rtc_file_op fd nbytes m h h' = absurd (h' refl)
driver_write-refused wt buf directory_file_op fd nbytes m h h' = refl
driver_write-refused wt buf file_file_op fd nbytes m h h' = refl
driver_write-refused wt buf bad_file_op fd nbytes m h h' = refl

module _ (env : Environment) (w : World) (u : Unopened w.machine.kernel) (i : ℕ)
    (high : i < 8) where
  close_unopened : (kernel env).ece391_close (pos i) w ≡ some (minus_one, later w)
  unfolding kernel sys_close
  close_unopened = elim (Bool-cases (ltb i 2)) [
    | inl standard ↦ ground arith
    | inr other ↦ ground (arith, u.free i)
  ]

  read_unopened :
      (buf : List ℕ) (nbytes : ℤ)
      → 2 ≤ i
      → (kernel env).ece391_read buf (pos i) nbytes w ≡ some (minus_one, buf, later w)
  unfolding kernel sys_read
  read_unopened buf nbytes low = ground (arith, u.free i low high)

  write_unopened :
      (buf : List ℕ) (nbytes : ℤ)
      → 2 ≤ i
      → (kernel env).ece391_write buf (pos i) nbytes w ≡ some (minus_one, later w)
  unfolding kernel sys_write
  write_unopened buf nbytes low = ground (
    arith,
    driver_write-refused (env.waits w.time) buf (descriptor w.machine.kernel i).jmp_pointer i nbytes
        w.machine (u.no_screen i low high) (u.no_clock i low high),
  )

module _ (env : Environment) where
  close_all_unopened-none :
      (rounds i : ℕ) (w : World)
      → Unopened w.machine.kernel
      → i + rounds ≤ 8
      → (w' : World) × (close_all_unopened (kernel env) rounds i 0 w ≡ some (0, w'))
        × (w'.machine ≡ w.machine)
  unfolding close_all_unopened
  close_all_unopened-none zero i w u h = (w, refl, refl)
  close_all_unopened-none (suc rounds) i w u h =
      let (w', run, same) = close_all_unopened-none rounds (suc i) (later w) u (omega arith) in
      (w', rw (close_unopened env w u i (omega arith), close_all_unopened) run, same)

  read_all_unopened-none :
      (rounds i : ℕ) (buf : List ℕ) (w : World)
      → Unopened w.machine.kernel
      → 2 ≤ i
      → i + rounds ≤ 8
      → (w' : World) × (read_all_unopened (kernel env) rounds i buf 0 w ≡ some (buf, 0, w'))
        × (w'.machine ≡ w.machine)
  unfolding read_all_unopened
  read_all_unopened-none zero i buf w u low h = (w, refl, refl)
  read_all_unopened-none (suc rounds) i buf w u low h =
      let (w', run, same) =
        read_all_unopened-none rounds (suc i) buf (later w) u (omega arith) (omega arith) in
      (w', rw (read_unopened env w u i (omega arith) buf (pos 31) low, read_all_unopened) run, same)

  write_all_unopened-none :
      (rounds i : ℕ) (buf : List ℕ) (w : World)
      → Unopened w.machine.kernel
      → 2 ≤ i
      → i + rounds ≤ 8
      → (w' : World) × (write_all_unopened (kernel env) rounds i buf 0 w ≡ some (0, w'))
        × (w'.machine ≡ w.machine)
  unfolding write_all_unopened
  write_all_unopened-none zero i buf w u low h = (w, refl, refl)
  write_all_unopened-none (suc rounds) i buf w u low h =
      let (w', run, same) =
        write_all_unopened-none rounds (suc i) buf (later w) u (omega arith) (omega arith) in
      (
        w',
        rw (write_unopened env w u i (omega arith) buf (pos 31) low, write_all_unopened) run,
        same,
      )

-- The kernel refuses closes, reads and writes of descriptors that are not in use, and `err_unopened`
-- shows that it passed. No descriptor from 2 to 7 is in use or was left with the table of the screen or
-- of the clock, descriptor 1 is the terminal and the active terminal is one of the three.
pub err_unopened-Passes :
    (env : Environment) (w : World) (buf : List ℕ)
    → Unopened w.machine.kernel
    → (descriptor w.machine.kernel 1).jmp_pointer ≡ stdout_file_op
    → w.machine.console.active_term < 3
    → Passes (codes "err_unopened") w (err_unopened (kernel env) buf w)
unfolding err_unopened
err_unopened-Passes env w buf u is_terminal on_screen =
    let (w1, closes, same1) = close_all_unopened-none env 8 0 w u (omega arith) in
    let u1 = subst (λ (m : Machine). Unopened m.kernel) (sym same1) u in
    let (w2, reads, same2) = read_all_unopened-none env 6 2 buf w1 u1 (omega arith) (omega arith) in
    let u2 = subst (λ (m : Machine). Unopened m.kernel) (sym same2) u1 in
    let (w3, writes, same3) =
      write_all_unopened-none env 6 2 buf w2 u2 (omega arith) (omega arith) in
    let (w', run, shown) =
      message env w is_terminal on_screen (codes "err_unopened: PASS\n") w3 (same3 ∙ same2 ∙ same1)
        refl (omega arith) (omega arith) in
    (w', rw (closes, err_unopened) (rw reads (rw writes (rw run refl))), shown)
