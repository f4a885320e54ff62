-- ===== src/Drivers.antt =====
-- `sys_read` and `sys_write` of LinuxOS/student-distrib/sysCalls.c with the drivers that the tables of
-- file operations name: terminal.c, rtc.c, filesys.c and `bad_call`.
pub mod Files
use linux_os.Base.{ℕ, ◌+◌, ◌*◌, ◌^◌, Option, none, some, List, ◌∷◌, ◌++◌, ◌>>=◌, ◌>>◌}
use linux_os.Base.Int.{ℤ, minus_one, signed32}
use linux_os.Command.{write_over}
use linux_os.FileSystem.{write_f, write_d}
use linux_os.Machine.{Machine}
use linux_os.Process.{
  Driver, bad_call, terminal, rtc, directory, file, read_f, read_d, sys_read, sys_write,
}
use linux_os.Rtc.{Event, rtc_read, rtc_write}
use linux_os.Terminal.{Screen, terminal_read, terminal_write}

-- What happens while a call waits, for the terminal and for the clock, and what the clock's data port
-- gives.
pub record Waits : Type 0 where
  pub handlers : List (Screen → Screen)
  pub events : List Event
  pub prev : ℕ

-- The functions that `read` of the tables points to, on the caller's memory from the pointer on.
unfoldable pub driver_read :
    Waits → List ℕ → Driver → ℕ → ℤ → Machine → Option (ℤ × List ℕ × Machine)
driver_read w buf bad_call fd nbytes m = some (minus_one, buf, m)
driver_read w buf terminal fd nbytes m = do
  (r, buf', screen) ← terminal_read w.handlers (some buf) nbytes (m.keyboard, m.console)
  some (r, buf', record m { keyboard = screen.0; console = screen.1 })
driver_read w buf rtc fd nbytes m = do (r, block_flag) ← rtc_read w.events; some (r, buf, m)
driver_read w buf directory fd nbytes m = do
  (r, bytes, k) ← read_d fd nbytes m.kernel
  buf' ← write_over bytes buf
  some (r, buf', record m { kernel = k })
driver_read w buf file fd nbytes m = do
  (r, bytes, k) ← read_f fd nbytes m.kernel
  buf' ← write_over bytes buf
  some (r, buf', record m { kernel = k })

-- The `int` at a pointer, the lowest byte first.
unfoldable pub int_at : List ℕ → Option ℤ
int_at (a ∷ (b ∷ (c ∷ (d ∷ rest)))) = some (signed32 (a + b * 2 ^ 8 + c * 2 ^ 16 + d * 2 ^ 24))
int_at buf = none

unfoldable pub driver_write : Waits → List ℕ → Driver → ℕ → ℤ → Machine → Option (ℤ × Machine)
driver_write w buf bad_call fd nbytes m = some (minus_one, m)
driver_write w buf terminal fd nbytes m = do
  (r, screen) ← terminal_write (some buf) nbytes (m.keyboard, m.console)
  some (r, record m { keyboard = screen.0; console = screen.1 })
driver_write w buf rtc fd nbytes m = do
  freq ← int_at buf
  let (r, written) = rtc_write freq nbytes w.prev
  some (r, record m { kernel = record m.kernel { written = m.kernel.written ++ written } })
driver_write w buf directory fd nbytes m = some (write_d, m)
driver_write w buf file fd nbytes m = some (write_f, m)

abbrev pub read_call : Waits → List ℕ → ℤ → ℤ → Machine → Option (ℤ × List ℕ × Machine)
read_call w buf fd nbytes m =
    sys_read (λ (m : Machine). m.kernel) (driver_read w buf) buf fd nbytes m

abbrev pub write_call : Waits → List ℕ → ℤ → ℤ → Machine → Option (ℤ × Machine)
write_call w buf fd nbytes m =
    sys_write (λ (m : Machine). m.kernel) (driver_write w buf) fd nbytes m
