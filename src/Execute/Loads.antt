-- ===== src/Execute/Loads.antt =====
-- The two functions that read a program from the file system: `check_executable` and `set_prog_eip`.
use linux_os.Base.{
  ℕ, ◌+◌, ◌*◌, ◌≤◌, ◌<◌, ◌≡◌, ◌↔◌, inl, sym, ◌∙◌, true, some, List, [], ◌∷◌, arith, ==_iff, length,
  get_elem?,
}
use linux_os.Base.Int.{pos}
use linux_os.Strings.{strlen}
use linux_os.Strings.Compare.{AllBytes}
use linux_os.FileSystem.{
  FileSystem, Dentry, Inode, entry_num, block_size, set_dentry_obj, read_dentry_by_name,
  get_file_len, read_data,
}
use linux_os.FileSystem.Valid.{IsValid, block_len}
use linux_os.FileSystem.Lookup.{FirstNamed}
use linux_os.FileSystem.Read.{file_bytes, read_data-bytes}
use linux_os.FileSystem.Bytes.{length-file_bytes, file_bytes-set_dentry_obj}
use linux_os.FileSystem.Found.{read_dentry_by_name-found, open_f-found, set_dentry_obj-found}
use linux_os.Command.{write_over}
use linux_os.Command.Parse.{write_over-same_length}
use linux_os.Machine.{program_address, image_offset, page_size}
use linux_os.Paging.{Paging}
use linux_os.Execute.{check_executable, set_prog_eip, store_bytes, load_word, same_bytes, elf_magic}

pub same_bytes_iff : (xs ys : List ℕ) → (same_bytes xs ys ≡ true) ↔ (xs ≡ ys)
same_bytes_iff [] [] = ground arith
same_bytes_iff [] (y ∷ ys) = ground arith
same_bytes_iff (x ∷ xs) [] = ground arith
same_bytes_iff (x ∷ xs) (y ∷ ys) = ground (arith, ==_iff x y, same_bytes_iff xs ys)

module _ (fs : FileSystem) (filename : List ℕ) (bytes : AllBytes filename) {len : ℕ}
    (ended : strlen filename ≡ some len) (short : len ≤ 32) (v : IsValid fs) (d : Dentry)
    (first : FirstNamed filename fs.origin.direntries (some d)) (small : d.inode_num ≤ entry_num)
    (node : Inode) (present : get_elem? fs.inodes d.inode_num ≡ some node) where
  -- The image with the entry in the last place of its directory.
  opened-IsValid : IsValid (set_dentry_obj fs d)
  opened-IsValid = (set_dentry_obj-found fs filename bytes ended short v d first).0

  found-again :
      (old : Dentry)
      → read_dentry_by_name (set_dentry_obj fs d) (some filename) old ≡ some (pos 0, d)
  found-again old =
      read_dentry_by_name-found (set_dentry_obj fs d) filename bytes ended short opened-IsValid d
        old (set_dentry_obj-found fs filename bytes ended short v d first).1 small

  -- A read of the file from its beginning.
  read-from_start :
      (count : ℕ)
      → count < block_size * block_len node
      → (bs : List ℕ) × (file_bytes fs node 0 count ≡ some bs)
        × (read_data (set_dentry_obj fs d) d.inode_num 0 count ≡ some (pos count, bs))
  read-from_start count fits =
      let w = v.nodes d.inode_num node present in
      let (bs, held, run) =
        read_data-bytes (set_dentry_obj fs d) opened-IsValid d.inode_num node present 0 count
          (omega arith) (omega (arith, w.fits)) (inl (omega arith)) in
      (bs, sym (file_bytes-set_dentry_obj fs node d 0 count) ∙ held, run)

  -- A file that the directory has passes the test exactly if its first four bytes are those of ELF.
  -- Its entry goes to the last place of the directory.
  pub check_executable_lem :
      (local : Dentry) (magic : List ℕ)
      → length magic ≡ 4
      → (head : List ℕ) × (file_bytes fs node 0 4 ≡ some head)
        × (check_executable filename local fs magic
            ≡ some (same_bytes head elf_magic, set_dentry_obj fs d, head))
  unfolding check_executable
  check_executable_lem local magic four =
      let (head, held, run) = read-from_start 4 (omega arith) in
      let opened = open_f-found fs filename bytes ended short v d first small in
      let found = found-again local in
      let size = length-file_bytes fs node 0 4 held in
      let written : write_over head magic ≡ some head =
        write_over-same_length head magic (size ∙ sym four) in
      (head, held, ground (arith, opened, found, run, written))

  -- Loading an opened file stores its bytes, and nothing else, in the image of the program that the
  -- page tables map, and gives the word at its byte 24. The file fits into the program's 4 MB.
  pub set_prog_eip_lem :
      (local : Dentry) (p : Paging) (m : ℕ → ℕ)
      → image_offset + node.length ≤ page_size
      → (bs : List ℕ) × (file_bytes fs node 0 node.length ≡ some bs)
        × (set_prog_eip filename local (set_dentry_obj fs d) p m
            ≡ some (
              load_word
                  (store_bytes (program_address p image_offset) bs m)
                  (program_address p image_offset + 24),
              store_bytes (program_address p image_offset) bs m,
            ))
  unfolding set_prog_eip
  set_prog_eip_lem local p m fits =
      let (bs, held, run) = read-from_start node.length (omega arith) in
      let found = found-again local in
      let size = length-file_bytes fs node 0 node.length held in
      let measured : get_file_len (set_dentry_obj fs d) d ≡ some node.length =
        unfold get_file_len in ground (arith, present) in
      (bs, held, ground (arith, found, measured, run, size))
