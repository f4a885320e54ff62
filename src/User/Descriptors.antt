-- ===== src/User/Descriptors.antt =====
-- A program's open descriptor beside its terminal, on the kernel: what reads and writes keep of it.
use linux_os.Base.{
  ℕ, suc, [], ◌∷◌, ◌≤◌, ◌<◌, ◌≡◌, refl, sym, ap, ◌∙◌, inl, inr, some, List, ◌++◌, arith, length,
  drop, ◌==◌, if◌then◌else◌,
}
use linux_os.Base.Int.{ℤ, pos}
use linux_os.Command.Parse.{write_over-append}
use linux_os.Console.{Console, putc}
use linux_os.Drivers.{driver_read, driver_write}
use linux_os.Process.{
  Table, FileDescriptor, Kernel, file_file_op, directory_file_op, stdout_file_op,
  init_file_operations, descriptor, set_descriptor, sys_read, sys_write, read_f, read_d,
}
use linux_os.Process.Slots.{descriptor-set_descriptor, descriptor-set_descriptor_other}
use linux_os.Terminal.Laws.{print_bytes, print_bytes-append, terminal_write-prints}
use linux_os.User.Kernel.{World, Environment, kernel}

-- A descriptor from 2 to 7 in use with a table of operations, beside the one of the terminal.
pub record OpenFor (t : Table) (fd : ℤ) (index : ℕ) (k : Kernel) : Type 0 where
  pub is_index : fd ≡ pos index
  pub low : 2 ≤ index
  pub high : index < 8
  pub in_use : (descriptor k index).flag ≡ 1
  pub is_table : (descriptor k index).jmp_pointer ≡ t
  pub is_terminal : (descriptor k 1).jmp_pointer ≡ stdout_file_op

abbrev pub at_position : FileDescriptor → ℕ → FileDescriptor
at_position d p = record d { file_position = p }

-- The kernel with a descriptor moved to a position.
abbrev pub moved_to : ℕ → ℕ → Kernel → Kernel
moved_to i p k = set_descriptor i (at_position (descriptor k i) p) k

abbrev pub world_with : World → Kernel → World
world_with w k = record { machine = record w.machine { kernel = k }; time = suc w.time }

pub descriptor-moved_to :
    (k : Kernel) (i p : ℕ) → descriptor (moved_to i p k) i ≡ at_position (descriptor k i) p
descriptor-moved_to k i p = descriptor-set_descriptor k i (at_position (descriptor k i) p)

pub OpenFor-moved_to :
    {t : Table} {fd : ℤ} {i : ℕ} {k : Kernel} (p : ℕ)
    → OpenFor t fd i k
    → OpenFor t fd i (moved_to i p k)
OpenFor-moved_to {t} {fd} {i} {k} p o =
    let here = descriptor-moved_to k i p in
    let there : descriptor (moved_to i p k) 1 ≡ descriptor k 1 =
      elim (descriptor-set_descriptor_other k i 1 (at_position (descriptor k i) p)) [
        | inl same ↦ absurd (let low = o.low in omega arith)
        | inr kept ↦ kept
      ] in
    record {
      is_index = o.is_index;
      low = o.low;
      high = o.high;
      in_use = ap (λ (x : FileDescriptor). x.flag) here ∙ o.in_use;
      is_table = ap (λ (x : FileDescriptor). x.jmp_pointer) here ∙ o.is_table;
      is_terminal = ap (λ (x : FileDescriptor). x.jmp_pointer) there ∙ o.is_terminal;
    }

-- The active screen shows the bytes, without the zeros.
abbrev pub Shows : List ℕ → World → World → Type 0
Shows bs w w' = w'.machine.console ≡ print_bytes bs w.machine.console

pub Shows-nil : (w : World) (k : Kernel) → Shows [] w (world_with w k)
unfolding print_bytes
Shows-nil w k = refl

pub Shows-append :
    (before bs : List ℕ) (w w' w'' : World)
    → Shows before w w'
    → Shows bs w' w''
    → Shows (before ++ bs) w w''
Shows-append before bs w w' w'' shown shown' =
    shown' ∙ ap (print_bytes bs) shown ∙ sym (print_bytes-append before bs w.machine.console)

module _ (env : Environment) (buf : List ℕ) (w : World) (fd : ℤ) (count n : ℕ) (bytes : List ℕ)
    (i : ℕ) (k : Kernel) (room : length bytes ≤ length buf) where
  -- `sys_read` from what `read_f` and `read_d` return.
  pub read-read_f :
      OpenFor file_file_op fd i w.machine.kernel
      → read_f i (pos count) w.machine.kernel ≡ some (pos n, bytes, k)
      → (kernel env).ece391_read buf fd (pos count) w
        ≡ some (pos n, bytes ++ drop (length bytes) buf, world_with w k)
  unfolding kernel sys_read driver_read init_file_operations
  read-read_f o run =
      rw o.is_index
        (ground (arith, o.low, o.high, o.in_use, o.is_table, run, write_over-append bytes buf room))

  pub read-read_d :
      OpenFor directory_file_op fd i w.machine.kernel
      → read_d i (pos count) w.machine.kernel ≡ some (pos n, bytes, k)
      → (kernel env).ece391_read buf fd (pos count) w
        ≡ some (pos n, bytes ++ drop (length bytes) buf, world_with w k)
  unfolding kernel sys_read driver_read init_file_operations
  read-read_d o run =
      rw o.is_index
        (ground (arith, o.low, o.high, o.in_use, o.is_table, run, write_over-append bytes buf room))

pub print_bytes-active_term :
    (bs : List ℕ) (s : Console) → (print_bytes bs s).active_term ≡ s.active_term
unfolding print_bytes putc
print_bytes-active_term [] s = refl
print_bytes-active_term (c ∷ bs) s =
    print_bytes-active_term bs (if c == 0 then s else putc c s) ∙ ground arith

pub Shows-active_term :
    (bs : List ℕ) (w w' : World)
    → Shows bs w w'
    → w.machine.console.active_term < 3
    → w'.machine.console.active_term < 3
Shows-active_term bs w w' shown low =
    omega (
      arith,
      ap (λ (s : Console). s.active_term) shown,
      print_bytes-active_term bs w.machine.console,
    )

-- A write of up to 2049 bytes to one of the three terminals shows them and changes nothing of the
-- descriptors.
pub write-Shows :
    (env : Environment) (bs rest : List ℕ) (w : World)
    → (descriptor w.machine.kernel 1).jmp_pointer ≡ stdout_file_op
    → w.machine.console.active_term < 3
    → 0 < length bs
    → length bs < 2050
    → (w' : World) × ((kernel env).ece391_write (bs ++ rest) (pos 1) (pos (length bs)) w
        ≡ some (pos (length bs), w'))
      × (w'.machine.kernel ≡ w.machine.kernel)
      × Shows bs w w'
unfolding kernel sys_write driver_write init_file_operations
write-Shows env bs rest w is_terminal on_screen some_bytes short =
    let (k', run) =
      terminal_write-prints bs rest w.machine.keyboard w.machine.console some_bytes (omega arith)
        (omega arith) in
    (
      record {
        machine = record w.machine { keyboard = k'; console = print_bytes bs w.machine.console };
        time = suc w.time;
      },
      ground (arith, is_terminal, run),
      refl,
      refl,
    )
