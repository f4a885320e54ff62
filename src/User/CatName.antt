-- ===== src/User/CatName.antt =====
-- cat of LinuxOS/syscalls on this kernel, from its argument on.
use linux_os.Base.{
  ℕ, suc, ◌-◌, ◌*◌, ◌≤◌, ◌<◌, ◌≡◌, ◌≢◌, inl, inr, refl, sym, ap, ◌∙◌, some, List, ◌++◌, arith,
  length, take, drop, get_elem?, false, ◌>>=◌, length-append, length-take, length-drop,
}
use linux_os.Base.Int.{pos, minus_one, ◌==ℤ◌}
use linux_os.Strings.{strlen}
use linux_os.Strings.Compare.{AllBytes}
use linux_os.FileSystem.{Inode, Dentry, block_size, entry_num, set_dentry_obj}
use linux_os.FileSystem.Valid.{IsValid, block_len}
use linux_os.FileSystem.Bytes.{file_bytes-set_dentry_obj}
use linux_os.FileSystem.Read.{file_bytes}
use linux_os.FileSystem.Lookup.{FirstNamed}
use linux_os.FileSystem.Found.{read_dentry_by_name-found, open_f-found, set_dentry_obj-found}
use linux_os.Process.{
  Kernel, FileDescriptor, file_file_op, stdout_file_op, descriptor, set_descriptor, sys_open,
  open_at, table_of, call_open, init_file_operations, getargs,
}
use linux_os.Process.Slots.{
  open_loop-open_at, descriptor-set_descriptor, descriptor-set_descriptor_other,
}
use linux_os.Terminal.Laws.{print_bytes}
use linux_os.User.{exited}
use linux_os.User.Kernel.{World, Environment, kernel}
use linux_os.User.CatFile.{cat_loop-file}
use linux_os.User.Programs.{cat, cat_loop}

-- A descriptor as an open of a file sets it up, and the kernel after the open.
abbrev pub taken_for : FileDescriptor → Dentry → FileDescriptor
taken_for old d = record old {
  jmp_pointer = file_file_op;
  inode_num = d.inode_num;
  file_position = 0;
  flag = 1;
}

abbrev pub opened_file : Kernel → ℕ → Dentry → Kernel
opened_file k i d = record (set_descriptor i (taken_for (descriptor k i) d) k) {
  fs = set_dentry_obj k.fs d;
}

module _ (filename : List ℕ) (bytes : AllBytes filename) {len : ℕ}
    (ended : strlen filename ≡ some len) (some_bytes : 1 ≤ len) (short : len ≤ 32) where
  -- The whole kernel after an open of a file.
  pub sys_open-opened_file :
      (k : Kernel) (i : ℕ) (d local : Dentry) (prev : ℕ)
      → IsValid k.fs
      → FirstNamed filename k.fs.origin.direntries (some d)
      → d.inode_num ≤ entry_num
      → d.filetype ≡ 2
      → 2 ≤ i
      → i < 8
      → (descriptor k i).flag ≡ 0
      → ((m : ℕ) → 2 ≤ m → m < i → (descriptor k m).flag ≢ 0)
      → sys_open (some filename) local prev k ≡ some (pos i, opened_file k i d)
  unfolding sys_open open_at table_of call_open init_file_operations
  sys_open-opened_file k i d local prev v first small typed low high free busy =
      let found = read_dentry_by_name-found k.fs filename bytes ended short v d local first small in
      let chosen = open_loop-open_at k 6 2 i filename d prev low high free busy in
      let opened = open_f-found k.fs filename bytes ended short v d first small in
      ground (arith, ended, found, chosen, typed, opened)

-- The memory of cat's buffer after the call for the arguments.
abbrev pub argument_memory : Kernel → List ℕ → List ℕ
argument_memory k buf = take 32 (k.pcbs k.pid).args ++ drop 32 buf

kernel_getargs :
    (env : Environment) (w : World) (buf : List ℕ)
    → 1024 ≤ length buf
    → (kernel env).ece391_getargs buf (pos 1024) w
      ≡ some (
        pos 0,
        argument_memory w.machine.kernel buf,
        record { machine = w.machine; time = suc w.time },
      )
unfolding kernel getargs
kernel_getargs env w buf room = ground arith

kernel_open :
    (env : Environment) (w : World) (filename : List ℕ) (i : ℕ) (k : Kernel)
    → sys_open (some filename) (env.local w.time) (env.prev w.time) w.machine.kernel
      ≡ some (pos i, k)
    → (kernel env).ece391_open filename w
      ≡ some (pos i, record { machine = record w.machine { kernel = k }; time = suc w.time })
unfolding kernel
kernel_open env w filename i k run = rw run refl

cat-cat_loop :
    (env : Environment) (w w1 w2 : World) (rounds i : ℕ) (buf filename : List ℕ)
    → (kernel env).ece391_getargs buf (pos 1024) w ≡ some (pos 0, filename, w1)
    → (kernel env).ece391_open filename w1 ≡ some (pos i, w2)
    → cat (kernel env) rounds buf w ≡ cat_loop (kernel env) rounds (pos i) filename w2
unfolding cat
cat-cat_loop env w w1 w2 rounds i buf filename args opens =
    let found : pos i ==ℤ minus_one ≡ false = ground arith in
    rw (args, cat) (rw opens (rw (found, ◌>>=◌) refl))

length-argument_memory :
    (k : Kernel) (buf : List ℕ)
    → length (k.pcbs k.pid).args ≡ 32
    → 1024 ≤ length buf
    → 1024 ≤ length (argument_memory k buf)
length-argument_memory k buf full room =
    let args = (k.pcbs k.pid).args in
    omega
      (arith, length-append (take 32 args) (drop 32 buf), length-take 32 args, length-drop 32 buf)

-- cat with the name of a file as its argument returns 0 after less rounds of its loop than are given.
-- It has then shown the bytes of all of the file's blocks but the very last one, whatever the file's
-- length is, without the zeros. The image is valid and has the inode of the name's first entry, which
-- is for a file; the name has 1 to 32 bytes; a descriptor from 2 to 7 is free, descriptor 1 is the
-- terminal and the active terminal is one of the three; the buffer has 1024 bytes and each block counts four rounds.
pub cat-file :
    (env : Environment) (w : World) (rounds i : ℕ) (buf : List ℕ) (d : Dentry) (node : Inode)
    {len : ℕ}
    → let k = w.machine.kernel in
      IsValid k.fs
      → length (k.pcbs k.pid).args ≡ 32
      → 1024 ≤ length buf
      → AllBytes (argument_memory k buf)
      → strlen (argument_memory k buf) ≡ some len
      → 1 ≤ len
      → len ≤ 32
      → FirstNamed (argument_memory k buf) k.fs.origin.direntries (some d)
      → d.inode_num ≤ entry_num
      → d.filetype ≡ 2
      → get_elem? k.fs.inodes d.inode_num ≡ some node
      → 2 ≤ i
      → i < 8
      → (descriptor k i).flag ≡ 0
      → ((m : ℕ) → 2 ≤ m → m < i → (descriptor k m).flag ≢ 0)
      → (descriptor k 1).jmp_pointer ≡ stdout_file_op
      → w.machine.console.active_term < 3
      → 4 * block_len node < rounds
      → (bs : List ℕ) × (w' : World) × (file_bytes k.fs node 0 (block_size * block_len node - 1)
          ≡ some bs)
        × (cat (kernel env) rounds buf w ≡ some (exited (pos 0) w'))
        × (w'.machine.console ≡ print_bytes bs w.machine.console)
cat-file env w rounds i buf d node v full room bytes ended some_bytes short first small typed
      present low high free busy is_terminal on_screen enough =
    let k = w.machine.kernel in
    let filename = argument_memory k buf in
    let k' = opened_file k i d in
    let w1 : World = record { machine = w.machine; time = suc w.time } in
    let w2 : World = record {
      machine = record w.machine { kernel = k' };
      time = suc (suc w.time);
    } in
    let opens =
      sys_open-opened_file filename bytes ended some_bytes short k i d (env.local w1.time)
        (env.prev w1.time) v first small typed low high free busy in
    let here = descriptor-set_descriptor k i (taken_for (descriptor k i) d) in
    let there : descriptor k' 1 ≡ descriptor k 1 =
      elim (descriptor-set_descriptor_other k i 1 (taken_for (descriptor k i) d)) [
        | inl same ↦ absurd (omega arith)
        | inr kept ↦ kept
      ] in
    let v' = (set_dentry_obj-found k.fs filename bytes ended short v d first).0 in
    let (bs, w', content, run, shown) =
      cat_loop-file env w2 i rounds filename node v'
        (ap (λ (x : FileDescriptor). get_elem? k.fs.inodes x.inode_num) here ∙ present) low high
        (ap (λ (x : FileDescriptor). x.flag) here) (ap (λ (x : FileDescriptor). x.jmp_pointer) here)
        (ap (λ (x : FileDescriptor). x.file_position) here)
        (ap (λ (x : FileDescriptor). x.jmp_pointer) there ∙ is_terminal) on_screen
        (length-argument_memory k buf full room) enough in
    (
      bs,
      w',
      sym (file_bytes-set_dentry_obj k.fs node d 0 (block_size * block_len node - 1)) ∙ content,
      cat-cat_loop env w w1 w2 rounds i buf filename (kernel_getargs env w buf room)
            (kernel_open env w1 filename i k' opens)
          ∙ run,
      shown,
    )
