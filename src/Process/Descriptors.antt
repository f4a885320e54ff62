-- ===== src/Process/Descriptors.antt =====
-- The descriptors of a process under `sys_open` and `sys_close` of sysCalls.c.
use linux_os.Base.{
  ℕ, ◌≤◌, ◌<◌, ◌≡◌, ◌≢◌, ◌⊎◌, inl, inr, refl, sym, ap, ◌∙◌, some, List, arith, ◌==◌, if◌then◌else◌,
}
use linux_os.Base.Int.{pos}
use linux_os.Strings.{strlen}
use linux_os.Strings.Compare.{AllBytes}
use linux_os.FileSystem.{Dentry, read_dentry_by_name}
use linux_os.FileSystem.Valid.{IsValid}
use linux_os.Process.{
  Kernel, FileDescriptor, Driver, bad_call, terminal, rtc, directory, file, Table, rtc_file_op,
  directory_file_op, file_file_op, descriptor, set_descriptor, init_file_operations, call_open,
  table_of, open_at, sys_open, call_close, sys_close,
}
use linux_os.FileSystem.{close_d, close_f}
use linux_os.Rtc.{rtc_close}
use linux_os.Process.Slots.{
  open_loop-open_at, open_f-total, open_d-total, descriptor-set_descriptor,
  descriptor-set_descriptor_other, sys_close-flag,
}

-- The table that belongs to a file type of 0 to 2.
abbrev pub typed_table : ℕ → Table
typed_table filetype =
    if filetype == 0 then rtc_file_op else if filetype == 1 then directory_file_op else file_file_op

table_of-typed_table :
    (filetype : ℕ) → filetype ≤ 2 → table_of filetype ≡ some (typed_table filetype)
unfolding table_of
table_of-typed_table filetype h = ground arith

-- What an open leaves: the new descriptor, and the others as they were.
pub record Opened (i : ℕ) (d : Dentry) (k k' : Kernel) (j : ℕ) : Type 0 where
  pub table : (descriptor k' i).jmp_pointer ≡ typed_table d.filetype
  pub inode : (descriptor k' i).inode_num ≡ d.inode_num
  pub position : (descriptor k' i).file_position ≡ 0
  pub in_use : (descriptor k' i).flag ≡ 1
  pub others : (j ≡ i) ⊎ (descriptor k' j ≡ descriptor k j)
  pub same_pid : k'.pid ≡ k.pid

close_typed :
    (filetype : ℕ) → call_close (init_file_operations (typed_table filetype)).on_close ≡ pos 0
unfolding call_close init_file_operations rtc_close close_d close_f
close_typed filetype = ground arith

module _ (filename : List ℕ) {len : ℕ} (bytes : AllBytes filename)
    (ended : strlen filename ≡ some len) (short : len ≤ 32) (prev : ℕ) where
  call_open-total :
      (driver : Driver) (k : Kernel)
      → IsValid k.fs
      → (k' : Kernel) × (call_open driver filename prev k ≡ some k')
        × (k'.pcbs ≡ k.pcbs)
        × (k'.pid ≡ k.pid)
  unfolding call_open
  call_open-total bad_call k v = (k, refl, refl, refl)
  call_open-total terminal k v = (k, refl, refl, refl)
  call_open-total rtc k v = (_, refl, refl, refl)
  call_open-total directory k v =
      let (r, fs', found) = open_d-total k.fs filename v bytes ended short in
      (record k { fs = fs' }, rw found refl, refl, refl)
  call_open-total file k v =
      let (r, fs', found) = open_f-total k.fs filename v bytes ended short in
      (record k { fs = fs' }, rw found refl, refl, refl)

  open_at-Opened :
      (k : Kernel) (i j : ℕ) (d : Dentry)
      → IsValid k.fs
      → d.filetype ≤ 2
      → (k' : Kernel) × (open_at i filename d prev k ≡ some (pos i, k')) × Opened i d k k' j
  unfolding open_at
  open_at-Opened k i j d v typed =
      let taken : FileDescriptor = record (descriptor k i) {
        jmp_pointer = typed_table d.filetype;
        flag = 1;
        inode_num = d.inode_num;
        file_position = 0;
      } in
      let k1 = set_descriptor i taken k in
      let (k', opened, pcbs, pid) =
        call_open-total (init_file_operations (typed_table d.filetype)).on_open k1 v in
      let table : table_of d.filetype ≡ some (typed_table d.filetype) =
        table_of-typed_table d.filetype typed in
      let same : (m : ℕ) → descriptor k' m ≡ descriptor k1 m = λ m t. (pcbs t (pid t)).fd_arr m in
      let new : descriptor k' i ≡ taken = same i ∙ descriptor-set_descriptor k i taken in
      (
        k',
        ground (arith, table, opened),
        record {
          table = ap (λ (x : FileDescriptor). x.jmp_pointer) new;
          inode = ap (λ (x : FileDescriptor). x.inode_num) new;
          position = ap (λ (x : FileDescriptor). x.file_position) new;
          in_use = ap (λ (x : FileDescriptor). x.flag) new;
          others = elim (descriptor-set_descriptor_other k i j taken) [
            | inl e ↦ inl e
            | inr e ↦ inr (same j ∙ e)
          ];
          same_pid = pid;
        },
      )

  -- An open of a name of 1 to 32 bytes that the directory has, with a file type of 0 to 2, returns
  -- the lowest free descriptor from 2 on, sets it up for the entry with position 0, and leaves every
  -- other descriptor as it was. The image is valid and one of the descriptors 2 to 7 is free.
  pub sys_open-Opened :
      (k : Kernel) (i j : ℕ) (local d : Dentry)
      → IsValid k.fs
      → 1 ≤ len
      → read_dentry_by_name k.fs (some filename) local ≡ some (pos 0, d)
      → d.filetype ≤ 2
      → 2 ≤ i
      → i < 8
      → (descriptor k i).flag ≡ 0
      → ((m : ℕ) → 2 ≤ m → m < i → (descriptor k m).flag ≢ 0)
      → (k' : Kernel) × (sys_open (some filename) local prev k ≡ some (pos i, k'))
        × Opened i d k k' j
  unfolding sys_open
  sys_open-Opened k i j local d v named found typed low high free busy =
      let (k', opened, facts) = open_at-Opened k i j d v typed in
      let chosen = open_loop-open_at k 6 2 i filename d prev low high free busy in
      (k', ground (arith, ended, found, chosen, opened), facts)

  -- After an open of a name of 1 to 32 bytes that the directory has, with a file type of 0 to 2, over
  -- a valid image and with one of the descriptors 2 to 7 free, `sys_close` of the descriptor returns
  -- 0, and every descriptor is in use exactly if it was before both calls.
  pub sys_open-sys_close :
      (k : Kernel) (i j : ℕ) (local d : Dentry)
      → IsValid k.fs
      → 1 ≤ len
      → read_dentry_by_name k.fs (some filename) local ≡ some (pos 0, d)
      → d.filetype ≤ 2
      → 2 ≤ i
      → i < 8
      → (descriptor k i).flag ≡ 0
      → ((m : ℕ) → 2 ≤ m → m < i → (descriptor k m).flag ≢ 0)
      → (k' k'' : Kernel) × (sys_open (some filename) local prev k ≡ some (pos i, k'))
        × (sys_close (pos i) k' ≡ (pos 0, k''))
        × ((descriptor k'' j).flag ≡ (descriptor k j).flag)
  sys_open-sys_close k i j local d v named found typed low high free busy =
      let (k', opened, facts) =
        sys_open-Opened k i j local d v named found typed low high free busy in
      let closes =
        ap (λ (t : Table). call_close (init_file_operations t).on_close) facts.table
        ∙ close_typed d.filetype in
      let (k'', closed, off, kept) = sys_close-flag k' i j low high facts.in_use closes in
      let at_i : j ≡ i → (descriptor k'' j).flag ≡ (descriptor k j).flag = λ same.
        ap (λ (m : ℕ). (descriptor k'' m).flag) same
        ∙ off
        ∙ sym free
        ∙ ap (λ (m : ℕ). (descriptor k m).flag) (sym same) in
      (
        k',
        k'',
        opened,
        closed,
        elim kept [
          | inl same ↦ at_i same
          | inr still ↦ elim facts.others [
            | inl same ↦ at_i same
            | inr before ↦ ap (λ (x : FileDescriptor). x.flag) (still ∙ before)
          ]
        ],
      )
