-- ===== src/User/Kernel.antt =====
-- The kernel as the answer to the calls of the user programs: systemCallHandler.S and the functions of
-- sysCalls.c that its table names.
use linux_os.Base.{
  ℕ, suc, ◌+◌, ◌-◌, ◌^◌, ◌/◌, ◌%◌, Option, none, some, List, ◌||◌, ltb, leb, if◌then◌else◌, ◌>>=◌,
  update,
}
use linux_os.Base.Int.{ℤ, pos, minus_one, ltb_ℤ, unsigned32}
use linux_os.Drivers.{Waits, read_call, write_call}
use linux_os.FileSystem.{Dentry}
use linux_os.Machine.{Machine, program_address}
use linux_os.Paging.{vidmap}
use linux_os.Process.{sys_open, sys_close, getargs}
use linux_os.User.{Syscalls}

-- The machine, and the number of the calls that were made.
pub record World : Type 0 where
  pub machine : Machine
  pub time : ℕ

-- What the calls meet that the machine does not have, by the number of the call: the handlers that run
-- while it waits, what a local directory entry holds before it is set, and what the clock's data port
-- gives. `execute` runs a program to its end. `entry` is a call through an entry of the jump table, with
-- what the registers hold.
pub record Environment : Type 0 where
  pub waits : ℕ → Waits
  pub local : ℕ → Dentry
  pub prev : ℕ → ℕ
  pub execute : List ℕ → World → Option (ℤ × World)
  pub entry : ℕ → World → Option (ℤ × World)

abbrev pub after : Machine → World → World
after m w = record { machine = m; time = suc w.time }

-- The comparisons of `sys_call_handler` with eax, the first of them unsigned. The table has the
-- entries 0 to 8; a call through what lies behind them is a fault.
unfoldable pub sys_call_handler : (ℕ → World → Option (ℤ × World)) → ℤ → World → Option (ℤ × World)
sys_call_handler entry eax w =
    if leb 11 (unsigned32 eax) || ltb_ℤ eax (pos 1)
    then some (minus_one, w)
    else if ltb 8 (unsigned32 eax)
    then none
    else entry (unsigned32 eax) w

-- The four bytes of a `uint32_t`, the lowest first.
abbrev pub store_word : ℕ → ℕ → (ℕ → ℕ) → ℕ → ℕ
store_word a v m =
    update
      (update (update (update m a (v % 2 ^ 8)) (a + 1) (v / 2 ^ 8 % 2 ^ 8)) (a + 2)
        (v / 2 ^ 16 % 2 ^ 8))
      (a + 3) (v / 2 ^ 24)

-- `*screen_start = addr` in the program's 4 MB. A pointer behind its last word is a fault.
unfoldable pub set_screen_start : Option ℕ → Option ℕ → Machine → Option Machine
set_screen_start none addr m = some m
set_screen_start (some p) none m = some m
set_screen_start (some p) (some addr) m =
    if ltb (0x8400000 - 4) p
    then none
    else some (record m {
      user_memory = store_word (program_address m.paging (p - 0x8000000)) addr m.user_memory;
    })

unfoldable pub kernel_vidmap : Option ℕ → Machine → Option (ℤ × Machine)
unfolding set_screen_start
kernel_vidmap screen_start m = do
  let (r, addr, pages) = vidmap screen_start m.paging
  m ← set_screen_start screen_start addr (record m { paging = pages })
  some (r, m)

module _ (env : Environment) where
  unfoldable pub kernel : Syscalls World
  unfolding kernel_vidmap
  kernel = record {
    ece391_execute = env.execute;
    ece391_read = λ buf fd nbytes w. (do
      (r, buf, m) ← read_call (env.waits w.time) buf fd nbytes w.machine
      some (r, buf, after m w));
    ece391_write = λ buf fd nbytes w. (do
      (r, m) ← write_call (env.waits w.time) buf fd nbytes w.machine
      some (r, after m w));
    ece391_open = λ filename w. (do
      (r, k) ← sys_open (some filename) (env.local w.time) (env.prev w.time) w.machine.kernel
      some (r, after (record w.machine { kernel = k }) w));
    ece391_close = λ fd w.
        let (r, k) = sys_close fd w.machine.kernel in
        some (r, after (record w.machine { kernel = k }) w);
    ece391_getargs = λ buf nbytes w. (do
      (r, buf) ← getargs (some buf) nbytes w.machine.kernel
      some (r, buf, after w.machine w));
    ece391_vidmap =
        λ screen_start w. (do (r, m) ← kernel_vidmap screen_start w.machine; some (r, after m w));
    call = sys_call_handler env.entry;
  }
