-- ===== src/User.antt =====
-- The user programs of LinuxOS/syscalls: the system calls that they make, which ece391syscall.S passes to
-- the kernel, and how a program ends.
pub mod Support
pub mod Programs
pub mod Agree
pub mod Copies
pub mod Kernel
pub mod Descriptors
pub mod Files
pub mod CatFile
pub mod Names
pub mod Directory
pub mod CatName
pub mod Errors
pub mod Refusals
pub mod Unopened
use linux_os.Base.{ℕ, Option, none, some, List, ltb, if◌then◌else◌, length, get_elem?, set}
use linux_os.Base.Int.{ℤ, pos, negsuc}

-- The calls as functions of the state behind them. A buffer is the caller's memory from the pointer
-- on, and a call that fills it gives that memory back; `none` is a fault. `call` has any number in eax.
pub record Syscalls {ℓ} (S : Type ℓ) : Type ℓ where
  pub ece391_execute : List ℕ → S → Option (ℤ × S)
  pub ece391_read : List ℕ → ℤ → ℤ → S → Option (ℤ × List ℕ × S)
  pub ece391_write : List ℕ → ℤ → ℤ → S → Option (ℤ × S)
  pub ece391_open : List ℕ → S → Option (ℤ × S)
  pub ece391_close : ℤ → S → Option (ℤ × S)
  pub ece391_getargs : List ℕ → ℤ → S → Option (ℤ × List ℕ × S)
  pub ece391_vidmap : Option ℕ → S → Option (ℤ × S)
  pub call : ℤ → S → Option (ℤ × S)

-- A program that has returned from `main`, or that still runs after the given rounds of its loop.
pub data Run {ℓ} (S : Type ℓ) : Type ℓ where
  exited : ℤ → S → Run S
  running : S → Run S

-- buf[i], and buf[i] = v. An index outside the memory is a fault.
abbrev pub load : List ℕ → ℤ → Option ℕ
load buf (pos i) = get_elem? buf i
load buf (negsuc i) = none

abbrev pub store : List ℕ → ℤ → ℕ → Option (List ℕ)
store buf (pos i) v = if ltb i (length buf) then some (set buf i v) else none
store buf (negsuc i) v = none
