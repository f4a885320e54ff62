-- ===== src/Lifecycle.antt =====
-- The life of the processes: what the calls and the interrupts of LinuxOS/student-distrib make of
-- them, step by step.
pub mod Blocks
pub mod Calls
pub mod Interrupts
pub mod Keys
pub mod Boot
use linux_os.Base.{ℕ, ◌≡◌, ◌≢◌, false, Option, none, some, List}
use linux_os.Base.Int.{ℤ}
use linux_os.FileSystem.{Dentry}
use linux_os.Halt.{sys_halt}
use linux_os.Interrupts.{Call, keyboard_handler}
use linux_os.Machine.{Machine, Registers, Outcome, returned, to_user, to_stack}
use linux_os.Paging.{program_base}
use linux_os.Process.{Kernel, sys_open, sys_close}
use linux_os.Process.Tree.{IsTree}
use linux_os.Scheduler.{pit_handler}
use linux_os.Execute.{sys_execute}

-- The machine after a piece of kernel code.
abbrev pub machine_of : Outcome → Machine
machine_of (returned r m) = m
machine_of (to_user eip m) = m
machine_of (to_stack regs v m) = m

-- The processes are a tree, a terminal whose shell is not started has no process in front, and the
-- program that the page tables map is that of the current process.
pub record IsLive (m : Machine) : Type 0 where
  pub tree : IsTree m.kernel.tasks m.kernel.pcbs m.terminal_arr m.kernel.pid
  pub second : m.keyboard.terminal_2_active ≡ false → m.terminal_arr 1 ≡ none
  pub third : m.keyboard.terminal_3_active ≡ false → m.terminal_arr 2 ≡ none
  pub mapped : (m.paging.pde 32).page_table_base_addr ≡ program_base m.kernel.pid

-- What the kernel does to the processes: the calls that start a program, end one that has another parent
-- than itself, open and close a descriptor, and the interrupts of the timer and the keyboard.
pub data Step : Machine → Machine → Type 0 where
  executed :
      (cmd : Option (List ℕ)) (arg_buf : List ℕ) (local : Dentry) (regs : Registers) (m : Machine)
      (o : Outcome)
      → sys_execute cmd arg_buf local regs m ≡ some o
      → Step m (machine_of o)
  halted :
      (status : ℕ) (shell arg_buf : List ℕ) (local : Dentry) (regs : Registers) (m : Machine)
      (o : Outcome)
      → (m.kernel.pcbs m.kernel.pid).parent_pid ≢ m.kernel.pid
      → sys_halt status shell arg_buf local regs m ≡ some o
      → Step m (machine_of o)
  opened :
      (filename : Option (List ℕ)) (local : Dentry) (prev : ℕ) (m : Machine) (r : ℤ) (k : Kernel)
      → sys_open filename local prev m.kernel ≡ some (r, k)
      → Step m (record m { kernel = k })
  closed : (fd : ℤ) (m : Machine) → Step m (record m { kernel = (sys_close fd m.kernel).1 })
  ticked :
      (shell arg_buf : List ℕ) (local : Dentry) (regs : Registers) (m : Machine) (o : Outcome)
      → pit_handler shell arg_buf local regs m ≡ some o
      → Step m (machine_of o)
  pressed :
      (call : Call) (m : Machine) (o : Outcome)
      → keyboard_handler call m ≡ some o
      → Step m (machine_of o)

pub data Steps (m : Machine) : Machine → Type 0 where
  start : Steps m m
  more : {m' m'' : Machine} → Steps m m' → Step m' m'' → Steps m m''
