-- ===== src/Process.antt =====
-- The process control blocks and descriptors of LinuxOS/student-distrib/sysCalls.c, with the calls
-- that use the descriptors, and `read_f` and `read_d` of filesys.c.
pub mod Pids
pub mod Slots
pub mod Descriptors
pub mod Reads
pub mod Tree
use linux_os.Base.{
  ℕ, zero, suc, ◌+◌, ◌-◌, ◌*◌, ◌%◌, ◌^◌, true, false, ◌||◌, Option, none, some, List, [], ◌++◌, ltb,
  ◌==◌, if◌then◌else◌, ◌>>=◌, ◌>>◌, update, length, take, drop,
}
use linux_os.Base.Int.{ℤ, pos, minus_one, pos_part, ltb_ℤ, ◌==ℤ◌, unsigned32}
use linux_os.Strings.{strlen}
use linux_os.FileSystem.{
  FileSystem, Dentry, read_dentry_by_name, read_data, read_d_at, open_f, open_d, close_f, close_d,
}
use linux_os.Pic.{Write}
use linux_os.Rtc.{rtc_open, rtc_close}
use linux_os.Terminal.{terminal_close}

-- The functions that the tables of file operations point to, by the driver that they belong to.
pub data Driver : Type 0 where
  bad_call terminal rtc directory file : Driver

pub record FileOperationsTable : Type 0 where
  pub on_open : Driver
  pub on_read : Driver
  pub on_write : Driver
  pub on_close : Driver

-- The six tables, and what `init_file_operations` fills them with.
pub data Table : Type 0 where
  stdin_file_op stdout_file_op rtc_file_op directory_file_op file_file_op bad_file_op : Table

abbrev same_driver : Driver → FileOperationsTable
same_driver d = record { on_open = d; on_read = d; on_write = d; on_close = d }

unfoldable pub init_file_operations : Table → FileOperationsTable
init_file_operations stdin_file_op = record {
  on_open = terminal;
  on_read = terminal;
  on_write = bad_call;
  on_close = terminal;
}
init_file_operations stdout_file_op = record {
  on_open = terminal;
  on_read = bad_call;
  on_write = terminal;
  on_close = terminal;
}
init_file_operations rtc_file_op = same_driver rtc
init_file_operations directory_file_op = same_driver directory
init_file_operations file_file_op = same_driver file
init_file_operations bad_file_op = same_driver bad_call

pub record FileDescriptor : Type 0 where
  pub jmp_pointer : Table
  pub inode_num : ℕ
  pub file_position : ℕ
  pub flag : ℕ

pub record Pcb : Type 0 where
  pub pid : ℕ
  pub parent_pid : ℕ
  pub parent_esp : ℕ
  pub parent_ebp : ℕ
  pub saved_esp : ℕ
  pub saved_ebp : ℕ
  pub active : ℕ
  pub terminal_idx : ℕ
  pub args : List ℕ
  pub fd_arr : ℕ → FileDescriptor

-- The globals that the calls use. The control blocks are found by pid; `written` has the port writes.
pub record Kernel : Type 0 where
  pub fs : FileSystem
  pub tasks : ℕ → ℕ
  pub pid : ℕ
  pub pcbs : ℕ → Pcb
  pub written : List Write

-- `get_pcb_from_pid`, as the address that it computes.
unfoldable pub get_pcb_from_pid : ℕ → ℕ
get_pcb_from_pid pid = 0x800000 - (pid + 1) * 0x2000

-- The stack that `execute_terminal` and the scheduler give a process in the kernel.
unfoldable pub stack_top : ℕ → ℕ
stack_top pid = 0x800000 - 0x1000 * pid - 4

unfoldable pub find_free : (ℕ → ℕ) → ℕ → ℕ → ℤ
find_free tasks zero i = minus_one
find_free tasks (suc rounds) i = if tasks i == 0 then pos i else find_free tasks rounds (suc i)

unfoldable pub find_available_pid : Kernel → ℤ
find_available_pid k = find_free k.tasks 6 0

abbrev pub descriptor : Kernel → ℕ → FileDescriptor
descriptor k fd = (k.pcbs k.pid).fd_arr fd

abbrev pub set_descriptor : ℕ → FileDescriptor → Kernel → Kernel
set_descriptor fd d k = record k {
  pcbs = update k.pcbs k.pid (record (k.pcbs k.pid) { fd_arr = update (k.pcbs k.pid).fd_arr fd d });
}

-- A call of `open` through a table. Its result is not used. `prev` is what the clock's data port
-- gives.
unfoldable pub call_open : Driver → List ℕ → ℕ → Kernel → Option Kernel
call_open bad_call filename prev k = some k
call_open terminal filename prev k = some k
call_open rtc filename prev k = some (record k { written = k.written ++ (rtc_open prev).1 })
call_open directory filename prev k = do
  (r, fs) ← open_d k.fs (some filename)
  some (record k { fs = fs })
call_open file filename prev k = do
  (r, fs) ← open_f k.fs (some filename)
  some (record k { fs = fs })

-- The file types 0, 1 and 2.
unfoldable pub table_of : ℕ → Option Table
table_of filetype =
    if filetype == 0
    then some rtc_file_op
    else if filetype == 1
    then some directory_file_op
    else if filetype == 2
    then some file_file_op
    else none

-- A free descriptor is taken. With another file type the call fails, and the descriptor stays in use.
unfoldable pub open_at : ℕ → List ℕ → Dentry → ℕ → Kernel → Option (ℤ × Kernel)
open_at i filename dentry prev k =
    let taken = record (descriptor k i) {
      flag = 1;
      inode_num = dentry.inode_num;
      file_position = 0;
    } in
    elim (table_of dentry.filetype) [
      | none ↦ some (minus_one, set_descriptor i taken k)
      | some t ↦ (do
        k' ←
            call_open (init_file_operations t).on_open filename prev
              (set_descriptor i (record taken { jmp_pointer = t }) k)
        some (pos i, k'))
    ]

unfoldable pub open_loop : ℕ → ℕ → List ℕ → Dentry → ℕ → Kernel → Option (ℤ × Kernel)
open_loop zero i filename dentry prev k = some (minus_one, k)
open_loop (suc rounds) i filename dentry prev k = elim ((descriptor k i).flag == 0) [
  | true ↦ open_at i filename dentry prev k
  | false ↦ open_loop rounds (suc i) filename dentry prev k
]

-- `local` is what the local directory entry holds before it is set.
unfoldable pub sys_open : Option (List ℕ) → Dentry → ℕ → Kernel → Option (ℤ × Kernel)
sys_open none local prev k = some (minus_one, k)
sys_open (some filename) local prev k = do
  len ← strlen filename
  if len == 0 then some (minus_one, k) else (do
    (r, dentry) ← read_dentry_by_name k.fs (some filename) local
    if r ==ℤ minus_one then some (minus_one, k) else open_loop 6 2 filename dentry prev k)

unfoldable pub call_close : Driver → ℤ
call_close bad_call = minus_one
call_close terminal = terminal_close
call_close rtc = rtc_close
call_close directory = close_d
call_close file = close_f

unfoldable pub sys_close : ℤ → Kernel → ℤ × Kernel
sys_close fd k =
    let d = descriptor k (pos_part fd) in
    if (fd ==ℤ pos 0) || (fd ==ℤ pos 1)
    then (minus_one, k)
    else if ltb_ℤ fd (pos 1) || ltb_ℤ (pos 7) fd
    then (minus_one, k)
    else if d.flag == 0
    then (minus_one, k)
    else (
      if call_close (init_file_operations d.jmp_pointer).on_close ==ℤ pos 0
          then pos 0
          else minus_one,
      set_descriptor (pos_part fd) (record d { flag = 0 }) k,
    )

-- The buffer's new bytes come with the result. A result of -1 is added to the position as well.
unfoldable pub read_f : ℕ → ℤ → Kernel → Option (ℤ × List ℕ × Kernel)
read_f fd nbytes k = do
  let d = descriptor k fd
  (bread, bytes) ← read_data k.fs d.inode_num d.file_position (unsigned32 nbytes)
  let next = (d.file_position + unsigned32 bread) % 2 ^ 32
  some (bread, bytes, set_descriptor fd (record d { file_position = next }) k)

unfoldable pub read_d : ℕ → ℤ → Kernel → Option (ℤ × List ℕ × Kernel)
read_d fd nbytes k = do
  let d = descriptor k fd
  (r, bytes) ← read_d_at k.fs d.file_position nbytes
  some (r, bytes, set_descriptor fd (record d { file_position = (d.file_position + 1) % 2 ^ 32 }) k)

-- `sys_read` and `sys_write`, from the functions that the tables point to. These may use more of the
-- state than the descriptors.
unfoldable pub sys_read :
    {S : Type 0}
    → (S → Kernel)
    → (Driver → ℕ → ℤ → S → Option (ℤ × List ℕ × S))
    → List ℕ
    → ℤ
    → ℤ
    → S
    → Option (ℤ × List ℕ × S)
sys_read kernel_of call buf fd nbytes s =
    let d = descriptor (kernel_of s) (pos_part fd) in
    if ltb_ℤ fd (pos 0) || ltb_ℤ (pos 7) fd
    then some (minus_one, buf, s)
    else if d.flag == 0
    then some (minus_one, buf, s)
    else if fd ==ℤ pos 1
    then some (minus_one, buf, s)
    else call (init_file_operations d.jmp_pointer).on_read (pos_part fd) nbytes s

-- The flag is not looked at.
unfoldable pub sys_write :
    {S : Type 0} → (S → Kernel) → (Driver → ℕ → ℤ → S → Option (ℤ × S)) → ℤ → ℤ → S → Option (ℤ × S)
sys_write kernel_of call fd nbytes s =
    if ltb_ℤ fd (pos 1) || ltb_ℤ (pos 7) fd
    then some (minus_one, s)
    else if fd ==ℤ pos 0
    then some (minus_one, s)
    else call (init_file_operations (descriptor (kernel_of s) (pos_part fd)).jmp_pointer).on_write
        (pos_part fd) nbytes s

-- `getargs`: 32 bytes whatever `nbytes` is. NULL is `none`.
unfoldable pub getargs : Option (List ℕ) → ℤ → Kernel → Option (ℤ × List ℕ)
getargs none nbytes k = some (minus_one, [])
getargs (some arguments_buf) nbytes k =
    if ltb_ℤ nbytes (pos 0) || ltb_ℤ (pos 1024) nbytes
    then some (minus_one, arguments_buf)
    else if ltb (length arguments_buf) 32
    then none
    else some (pos 0, take 32 (k.pcbs k.pid).args ++ drop 32 arguments_buf)
