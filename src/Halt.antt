-- ===== src/Halt.antt =====
-- The end of a program: `sys_halt` of LinuxOS/student-distrib/sysCalls.c.
pub mod Returns
use linux_os.Base.{ℕ, zero, suc, Option, some, List, ◌==◌, if◌then◌else◌, ◌>>=◌, ◌>>◌, update}
use linux_os.Base.Int.{pos}
use linux_os.Console.{clear, clear_pos}
use linux_os.Execute.{execute_terminal}
use linux_os.FileSystem.{Dentry}
use linux_os.Machine.{Machine, Registers, Outcome, returned, to_user, to_stack}
use linux_os.Paging.{map_memory}
use linux_os.Process.{Kernel, bad_file_op, sys_close}

-- cur_pcb->fd_arr[i].jmp_pointer = &bad_file_op; cur_pcb->fd_arr[i].flag = 0;
abbrev pub drop_descriptor : ℕ → ℕ → Kernel → Kernel
drop_descriptor self i k =
    let cur = k.pcbs self in
    record k {
      pcbs = update k.pcbs self (record cur {
        fd_arr =
            update cur.fd_arr i (record (cur.fd_arr i) { jmp_pointer = bad_file_op; flag = 0 });
      });
    }

-- The loop over the descriptors of the process `self`. `sys_close` closes the descriptor of the process
-- that `pid` names, which is the parent by then.
unfoldable pub close_all : ℕ → ℕ → ℕ → Kernel → Kernel
close_all zero i self k = k
close_all (suc rounds) i self k = close_all rounds (suc i) self (
    drop_descriptor self i
      (if ((k.pcbs self).fd_arr i).flag == 1 then (sys_close (pos i) k).1 else k))

abbrev pub stat_ret_val : ℕ → ℕ
stat_ret_val status = if status == 15 then 256 else status

-- From the mapping of the parent's memory on.
unfoldable pub leave_program : ℕ → ℕ → ℕ → Machine → Outcome
leave_program self parent status m =
    let k = close_all 8 0 self m.kernel in
    let cur = k.pcbs self in
    to_stack (record { esp = cur.parent_esp; ebp = cur.parent_ebp }) (some (stat_ret_val status))
      (record m {
        kernel = k;
        paging = map_memory (m.kernel.pcbs parent).pid m.paging;
        esp0 = cur.parent_esp;
      })

-- The process gives its pid and its terminal to its parent.
abbrev pub hand_over : Machine → Machine
hand_over m =
    let cur = m.kernel.pcbs m.kernel.pid in
    record m {
      kernel = record m.kernel { tasks = update m.kernel.tasks cur.pid 0; pid = cur.parent_pid };
      terminal_arr = update m.terminal_arr cur.terminal_idx (some cur.parent_pid);
    }

-- `shell` is the memory from the literal "shell" on. A process that is its own parent is followed by a
-- new shell; only if that is refused does the call go on.
unfoldable pub sys_halt : ℕ → List ℕ → List ℕ → Dentry → Registers → Machine → Option Outcome
sys_halt status shell arg_buf local regs m =
    let self = m.kernel.pid in
    let cur = m.kernel.pcbs self in
    let m' = hand_over m in
    let left = leave_program self cur.parent_pid status in
    if cur.pid == cur.parent_pid
    then (do
      o ←
          execute_terminal (some shell) cur.terminal_idx arg_buf local regs
            (record m' { console = clear_pos (clear m'.console) })
      some (elim o [
        | returned r m'' ↦ left m''
        | to_user eip m'' ↦ to_user eip m''
        | to_stack rs v m'' ↦ to_stack rs v m''
      ]))
    else some (left m')
