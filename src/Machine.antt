-- ===== src/Machine.antt =====
-- The state of the whole kernel of LinuxOS/student-distrib: what the system calls of sysCalls.c, the
-- scheduler and the interrupt handlers share.
use linux_os.Base.{ℕ, ◌+◌, ◌*◌, ◌^◌, Option, List}
use linux_os.Base.Int.{ℤ}
use linux_os.Console.{Console}
use linux_os.Keyboard.{Keyboard}
use linux_os.Paging.{Paging}
use linux_os.Pic.{Pic}
use linux_os.Process.{Kernel}

-- `terminal_arr` has `none` for -1. `user_memory` is the physical memory of the programs, by address;
-- `buffer` and `magic` are the globals `buffer` and `buf` of sysCalls.c; `esp0` is a field of the TSS.
pub record Machine : Type 0 where
  pub kernel : Kernel
  pub keyboard : Keyboard
  pub console : Console
  pub paging : Paging
  pub pic : Pic
  pub terminal_arr : ℕ → Option ℕ
  pub user_memory : ℕ → ℕ
  pub buffer : List ℕ
  pub magic : List ℕ
  pub prog_eip : ℕ
  pub esp0 : ℕ

-- What the processor keeps of the code that makes a call: its two stack registers.
pub record Registers : Type 0 where
  pub esp : ℕ
  pub ebp : ℕ

-- How a piece of kernel code goes on: it returns to its caller, goes to user code at an address, or
-- continues on the stack of other registers, with a value in eax if it is the end of a program.
pub data Outcome : Type 0 where
  returned : ℤ → Machine → Outcome
  to_user : ℕ → Machine → Outcome
  to_stack : Registers → Option ℕ → Machine → Outcome

-- The physical address of an address of the 4 MB at 128 MB, by its distance from there.
abbrev pub program_address : Paging → ℕ → ℕ
program_address p i = (p.pde 32).page_table_base_addr * 2 ^ 12 + i

-- The image of a program begins at 0x08048000.
abbrev pub image_offset : ℕ
image_offset = 0x48000

abbrev pub page_size : ℕ
page_size = 2 ^ 22
