-- ===== src/FileSystem.antt =====
-- The read-only file system of LinuxOS/student-distrib/filesys.c: the boot image in memory, and the
-- functions that search and read it. An out-parameter is an argument and a part of the result.
pub mod Valid
pub mod Lookup
pub mod Read
pub mod Listing
pub mod Total
pub mod Boundary
pub mod Ends
pub mod Bytes
pub mod Found
use linux_os.Base.{
  ℕ, zero, suc, ◌+◌, ◌*◌, ◌/◌, ◌%◌, ◌^◌, true, false, Option, none, some, List, [], ◌∷◌, ltb, leb,
  ◌==◌, if◌then◌else◌, ◌>>=◌, get_elem?, set,
}
use linux_os.Base.Int.{ℤ, pos, minus_one, ◌==ℤ◌, signed32}
use linux_os.Strings.{strlen, strncmp}

abbrev pub filename_len : ℕ
filename_len = 32

abbrev pub entry_num : ℕ
entry_num = 63

abbrev pub block_size : ℕ
block_size = 4096

pub record Dentry : Type 0 where
  pub filename : List ℕ
  pub filetype : ℕ
  pub inode_num : ℕ
  pub reserved : List ℕ

pub record BootBlock : Type 0 where
  pub dir_count : ℕ
  pub inode_count : ℕ
  pub data_count : ℕ
  pub direntries : List Dentry

pub record Inode : Type 0 where
  pub length : ℕ
  pub data_block_num : List ℕ

-- The 4096 bytes of a block, by their index.
abbrev pub DataBlock : Type 0
DataBlock = ℕ → ℕ

-- What `origin` points to: the boot block, the inodes and the data blocks after it.
pub record FileSystem : Type 0 where
  pub origin : BootBlock
  pub inodes : List Inode
  pub data_blocks : List DataBlock

-- `file_init`: the addresses that it stores, 32 bits wide.
pub record Layout : Type 0 where
  pub root_inode : ℕ
  pub inode_total : ℕ
  pub dentry_obj : ℕ
  pub first_data_block : ℕ

unfoldable pub file_init : ℕ → BootBlock → Layout
file_init boot image = record {
  root_inode = (boot + 4096) % 2 ^ 32;
  inode_total = image.inode_count;
  dentry_obj = (boot + 64 + 62 * 64) % 2 ^ 32;
  first_data_block = (boot + 4096 * (image.inode_count + 1)) % 2 ^ 32;
}

-- The address of an inode, from the address of the boot block.
unfoldable pub get_inode : ℕ → ℕ → ℕ
get_inode boot inode = (inode * 4096 + (boot + 4096)) % 2 ^ 32

-- Where `read_data` finds the data blocks.
unfoldable pub data_blocks_address : ℕ → BootBlock → ℕ
unfolding get_inode
data_blocks_address boot image = (image.inode_count * 4096 + get_inode boot 0) % 2 ^ 32

-- The test `inode_num < 0` of an unsigned number fails.
unfoldable pub read_dentry_by_index : FileSystem → ℕ → Dentry → Option (ℤ × Dentry)
read_dentry_by_index fs index dentry = do
  entry ← get_elem? fs.origin.direntries index
  if ltb entry_num entry.inode_num then some (minus_one, dentry) else some (pos 0, entry)

-- The loop of `read_dentry_by_name`, with the rounds that are left and `idx`.
unfoldable pub find_dentry : FileSystem → List ℕ → ℕ → ℕ → Dentry → Option (ℤ × Dentry)
find_dentry fs fname zero idx dentry = some (minus_one, dentry)
find_dentry fs fname (suc rounds) idx dentry = do
  entry ← get_elem? fs.origin.direntries idx
  order ← strncmp entry.filename fname 32
  elim (order ==ℤ pos 0) [
    | true ↦ read_dentry_by_index fs idx dentry
    | false ↦ find_dentry fs fname rounds (suc idx) dentry
  ]

-- The length is taken before the test for NULL, so NULL is a fault.
unfoldable pub read_dentry_by_name : FileSystem → Option (List ℕ) → Dentry → Option (ℤ × Dentry)
read_dentry_by_name fs none dentry = none
read_dentry_by_name fs (some fname) dentry = do
  len ← strlen fname
  if ltb filename_len len then some (minus_one, dentry) else find_dentry fs fname entry_num 0 dentry

-- What the end of a round of `read_data` decides: a return, or the next round's offset, block
-- index and block.
pub data Next : Type 0 where
  stop : ℤ → Next
  go : ℕ → ℕ → DataBlock → Next

module _ (fs : FileSystem) (node : Inode) (block_len : ℕ) where
  unfoldable pub next_block : ℕ → ℕ → Option Next
  next_block i db_offset =
      if db_offset == block_len
      then some (stop (signed32 i))
      else if ltb block_len db_offset
      then some (stop minus_one)
      else (do
        num ← get_elem? node.data_block_num db_offset
        if leb fs.origin.data_count num
            then some (stop minus_one)
            else (do block ← get_elem? fs.data_blocks num; some (go 0 db_offset block)))

  -- The loop of `read_data`, with the rounds that are left. 4096 divides 2 ^ 32, so the wrap of
  -- `i + offset` does not show. The result has the bytes that were written from `buf[0]` on.
  unfoldable pub read_loop : ℕ → ℕ → ℕ → ℕ → DataBlock → Option (ℤ × List ℕ)
  read_loop zero i offset db_offset block = some (signed32 i, [])
  read_loop (suc rounds) i offset db_offset block = do
    let byte = block ((i + offset) % block_size)
    next ←
        if (i + offset + 1) % block_size == 0
        then next_block i (db_offset + 1)
        else some (go offset db_offset block)
    elim next [
      | stop r ↦ some (r, byte ∷ [])
      | go offset' db_offset' block' ↦ (do
        (r, bytes) ← read_loop rounds (suc i) offset' db_offset' block'
        some (r, byte ∷ bytes))
    ]

-- `read_data` without the buffer: the return value, and the bytes written from `buf[0]` on.
unfoldable pub read_data : FileSystem → ℕ → ℕ → ℕ → Option (ℤ × List ℕ)
read_data fs inode offset count =
    if leb fs.origin.inode_count inode then some (minus_one, []) else (do
      node ← get_elem? fs.inodes inode
      let block_len = node.length / block_size + 1
      let db_offset = offset / block_size
      if leb block_len db_offset then some (minus_one, []) else (do
        num ← get_elem? node.data_block_num db_offset
        if leb fs.origin.data_count num then some (minus_one, []) else (do
          block ← get_elem? fs.data_blocks num
          read_loop fs node block_len count 0 (offset % block_size) db_offset block)))

unfoldable pub get_file_len : FileSystem → Dentry → Option ℕ
get_file_len fs dentry = do node ← get_elem? fs.inodes dentry.inode_num; some node.length

-- `dentry_obj` points to the last entry of the directory, which the open functions overwrite.
abbrev pub dentry_obj_index : ℕ
dentry_obj_index = 62

abbrev pub set_dentry_obj : FileSystem → Dentry → FileSystem
set_dentry_obj fs d = record fs {
  origin = record fs.origin { direntries = set fs.origin.direntries dentry_obj_index d };
}

unfoldable pub open_f : FileSystem → Option (List ℕ) → Option (ℤ × FileSystem)
open_f fs none = some (minus_one, fs)
open_f fs (some filename) = do
  old ← get_elem? fs.origin.direntries dentry_obj_index
  (r, d) ← read_dentry_by_name fs (some filename) old
  some (r, set_dentry_obj fs d)

unfoldable pub open_d : FileSystem → Option (List ℕ) → Option (ℤ × FileSystem)
open_d fs none = some (pos 0, fs)
open_d fs (some filename) = do
  old ← get_elem? fs.origin.direntries dentry_obj_index
  (r, d) ← read_dentry_by_name fs (some filename) old
  some (if d.filetype == 1 then pos 0 else minus_one, set_dentry_obj fs d)

-- `write_f`, `write_d`, `close_f` and `close_d` ignore their arguments.
unfoldable pub write_f : ℤ
write_f = minus_one

unfoldable pub write_d : ℤ
write_d = minus_one

unfoldable pub close_f : ℤ
close_f = pos 0

unfoldable pub close_d : ℤ
close_d = pos 0

-- The loop of `get_filetype_from_inode`. The file type is returned as an `int32_t`.
unfoldable pub find_filetype : List Dentry → ℕ → ℕ → ℕ → Option ℤ
find_filetype entries inode zero i = some minus_one
find_filetype entries inode (suc rounds) i = do
  entry ← get_elem? entries i
  elim (inode == entry.inode_num) [
    | true ↦ some (signed32 entry.filetype)
    | false ↦ find_filetype entries inode rounds (suc i)
  ]

unfoldable pub get_filetype_from_inode : FileSystem → ℕ → Option ℤ
get_filetype_from_inode fs inode = find_filetype fs.origin.direntries inode 63 0

-- The loop of `read_d`: the index of the first zero byte among the first 32, or `nbytes`.
unfoldable pub name_bytes : List ℕ → ℕ → ℕ → ℤ → Option ℤ
name_bytes filename zero j nbytes = some nbytes
name_bytes filename (suc rounds) j nbytes = do
  c ← get_elem? filename j
  elim (c == 0) [ true ↦ some (pos j) | false ↦ name_bytes filename rounds (suc j) nbytes ]

-- `read_d` from the position that it takes from the file descriptor, which it has advanced already.
-- A directory read past the end, or at an empty name, writes nothing. With `buf` NULL it is -1.
unfoldable pub read_d_at : FileSystem → ℕ → ℤ → Option (ℤ × List ℕ)
read_d_at fs file_to_read nbytes =
    if ltb file_to_read 63
    then (do
      entry ← get_elem? fs.origin.direntries file_to_read
      empty ← strncmp (0 ∷ 0 ∷ []) entry.filename filename_len
      if empty ==ℤ pos 0
          then some (pos 0, [])
          else (do n ← name_bytes entry.filename 32 0 nbytes; some (n, entry.filename)))
    else some (pos 0, [])
