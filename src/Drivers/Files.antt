-- ===== src/Drivers/Files.antt =====
-- A read of a file through `sys_read`.
use linux_os.Base.{
  ℕ, ◌+◌, ◌*◌, ◌%◌, ◌^◌, ◌≤◌, ◌<◌, ◌≡◌, ◌⊎◌, ap, ◌∙◌, some, List, ◌++◌, arith, length, get_elem?,
  drop,
}
use linux_os.Base.Int.{pos}
use linux_os.FileSystem.{Inode, block_size}
use linux_os.FileSystem.Bytes.{length-file_bytes}
use linux_os.FileSystem.Read.{file_bytes}
use linux_os.FileSystem.Valid.{IsValid, block_len}
use linux_os.Command.Parse.{write_over-append}
use linux_os.Machine.{Machine}
use linux_os.Process.{file_file_op, init_file_operations, descriptor, sys_read}
use linux_os.Process.Reads.{read_f-bytes}
use linux_os.Drivers.{Waits, driver_read, read_call}

-- sys_read through an open descriptor of a file returns the count, stores the bytes of the file from the
-- descriptor's position on in the caller's memory and nothing behind them, and moves the position by
-- the count. The descriptor is one of 2 to 7, the caller's memory has room for the count, the image is
-- valid, the descriptor's inode exists, and the read starts at the beginning of a block or stays in one
-- block, ends before the last byte of the file's last block, and counts less than 2 ^ 31 bytes.
pub sys_read-bytes :
    (w : Waits) (buf : List ℕ) (m : Machine) (fd count : ℕ) {node : Inode}
    → IsValid m.kernel.fs
    → get_elem? m.kernel.fs.inodes (descriptor m.kernel fd).inode_num ≡ some node
    → 2 ≤ fd
    → fd < 8
    → (descriptor m.kernel fd).flag ≡ 1
    → (descriptor m.kernel fd).jmp_pointer ≡ file_file_op
    → count ≤ length buf
    → (descriptor m.kernel fd).file_position + count < block_size * block_len node
    → count < 2 ^ 31
    → ((descriptor m.kernel fd).file_position % block_size ≡ 0)
      ⊎ ((descriptor m.kernel fd).file_position % block_size + count < block_size)
    → (bs : List ℕ) × (m' : Machine) × (file_bytes m.kernel.fs node
          (descriptor m.kernel fd).file_position
          count
        ≡ some bs)
      × (read_call w buf (pos fd) (pos count) m ≡ some (pos count, bs ++ drop count buf, m'))
      × ((descriptor m'.kernel fd).file_position ≡ (descriptor m.kernel fd).file_position + count)
      × (m'.kernel.fs ≡ m.kernel.fs)
unfolding sys_read driver_read init_file_operations
sys_read-bytes w buf m fd count {node} v present low high used is_file room fits small straight =
    let (bs, k', held, run, moved, kept) =
      read_f-bytes m.kernel v fd node present count fits small straight in
    let size : length bs ≡ count =
      length-file_bytes m.kernel.fs node (descriptor m.kernel fd).file_position count held in
    let stored =
      write_over-append bs buf (omega (arith, size, room))
      ∙ ap (λ (n : ℕ). some (bs ++ drop n buf)) size in
    (
      bs,
      record m { kernel = k' },
      held,
      ground (arith, low, high, used, is_file, run, stored),
      moved,
      kept,
    )
