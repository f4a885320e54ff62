-- ===== src/Process/Reads.antt =====
-- Reads through a descriptor: `read_f` of filesys.c against the bytes of the file.
use linux_os.Base.{
  ℕ, ◌+◌, ◌*◌, ◌%◌, ◌^◌, ◌<◌, ◌≡◌, ◌⊎◌, refl, ap, ◌∙◌, some, List, arith, get_elem?,
}
use linux_os.Base.Int.{pos, unsigned32}
use linux_os.FileSystem.{Inode, block_size, read_data}
use linux_os.FileSystem.Valid.{IsValid, block_len}
use linux_os.FileSystem.Read.{file_bytes, read_data-bytes}
use linux_os.Process.{Kernel, FileDescriptor, descriptor, set_descriptor, read_f}
use linux_os.Process.Slots.{descriptor-set_descriptor}

module _ (k : Kernel) (v : IsValid k.fs) (fd : ℕ) (node : Inode)
    (present : get_elem? k.fs.inodes (descriptor k fd).inode_num ≡ some node) where
  -- A read through a descriptor returns the count and the bytes of the file from the descriptor's
  -- position on, and moves the position by the count. The image is valid, the descriptor's inode
  -- exists, and the read starts at the beginning of a block or stays in one block, ends before the
  -- last byte of the file's last block, and counts less than 2 ^ 31 bytes.
  pub read_f-bytes :
      (count : ℕ)
      → (descriptor k fd).file_position + count < block_size * block_len node
      → count < 2 ^ 31
      → ((descriptor k fd).file_position % block_size ≡ 0)
        ⊎ ((descriptor k fd).file_position % block_size + count < block_size)
      → (bs : List ℕ) × (k' : Kernel) × (file_bytes k.fs node (descriptor k fd).file_position count
          ≡ some bs)
        × (read_f fd (pos count) k ≡ some (pos count, bs, k'))
        × ((descriptor k' fd).file_position ≡ (descriptor k fd).file_position + count)
        × (k'.fs ≡ k.fs)
  unfolding read_f
  read_f-bytes count fits small straight =
      let d = descriptor k fd in
      let (bs, bytes, run) =
        read_data-bytes k.fs v d.inode_num node present d.file_position count fits small straight in
      let same : unsigned32 (pos count) ≡ count = omega arith in
      let w = v.nodes d.inode_num node present in
      let moved : (d.file_position + unsigned32 (pos count)) % 2 ^ 32 ≡ d.file_position + count =
        omega (arith, same, w.fits) in
      let next : FileDescriptor = record d {
        file_position = (d.file_position + unsigned32 (pos count)) % 2 ^ 32;
      } in
      (
        bs,
        set_descriptor fd next k,
        bytes,
        ground (arith, same, run),
        ap (λ (x : FileDescriptor). x.file_position) (descriptor-set_descriptor k fd next) ∙ moved,
        refl,
      )

-- What `read_f` makes of a count of `read_data`.
pub read_f-read_data :
    (k : Kernel) (fd count n : ℕ) (bytes : List ℕ)
    → count < 2 ^ 32
    → (descriptor k fd).file_position + n < 2 ^ 32
    → read_data k.fs (descriptor k fd).inode_num (descriptor k fd).file_position count
      ≡ some (pos n, bytes)
    → read_f fd (pos count) k
      ≡ some (
        pos n,
        bytes,
        set_descriptor fd
            (record (descriptor k fd) { file_position = (descriptor k fd).file_position + n })
            k,
      )
unfolding read_f
read_f-read_data k fd count n bytes small fits run =
    let same : unsigned32 (pos count) ≡ count = omega arith in
    let moved : ((descriptor k fd).file_position + unsigned32 (pos n)) % 2 ^ 32
        ≡ (descriptor k fd).file_position + n =
      omega arith in
    rw (same, run)
      (ap
        (λ (p : ℕ).
          some (pos n, bytes, set_descriptor fd (record (descriptor k fd) { file_position = p }) k))
        moved)
