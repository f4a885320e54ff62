-- ===== src/FileSystem/Total.antt =====
-- The accesses of `read_data` to the image, and where filesys.c looks for the parts of the image in
-- memory.
use linux_os.Base.{
  ℕ, zero, suc, ◌+◌, ◌*◌, ◌/◌, ◌%◌, ◌^◌, ◌≤◌, ◌<◌, ◌≡◌, inl, inr, refl, ◌∙◌, some, List, [], ◌∷◌,
  arith, ltb, leb, ◌==◌, ltb→lt, leb→le, Bool-cases, length,
}
use linux_os.Base.Int.{ℤ, minus_one, signed32}
use linux_os.FileSystem.{
  FileSystem, BootBlock, Inode, DataBlock, block_size, next_block, read_loop, read_data, file_init,
  get_inode, data_blocks_address,
}
use linux_os.FileSystem.Valid.{IsValid, IsValidInode, block_len, get_elem?-total}
use linux_os.FileSystem.Read.{
  BlockAt-total, next_block-go, read_loop_round, read_data-read_loop, read_data-past,
  read_data-absent,
}

module _ (fs : FileSystem) (node : Inode) (v : IsValid fs) (w : IsValidInode fs node) where
  read_loop_last :
      (n i offset db : ℕ) (block : DataBlock)
      → (i + offset + 1) % block_size ≡ 0
      → db + 1 ≡ block_len node
      → read_loop fs node (block_len node) (suc n) i offset db block
        ≡ some (signed32 i, block ((i + offset) % block_size) ∷ [])
  unfolding read_loop next_block
  read_loop_last n i offset db block cross last = ground arith

  read_loop-total :
      (n i offset db : ℕ) (block : DataBlock)
      → db < block_len node
      → (r : ℤ) × (bs : List ℕ) × (read_loop fs node (block_len node) n i offset db block
          ≡ some (r, bs))
        × (length bs ≤ n)
  unfolding read_loop
  read_loop-total zero i offset db block inside = (signed32 i, [], refl, omega arith)
  read_loop-total (suc n) i offset db block inside =
      elim (Bool-cases ((i + offset + 1) % block_size == 0)) [
        | inl cross ↦ elim (Bool-cases (db + 1 == block_len node)) [
          | inl last ↦ (
            signed32 i,
            block ((i + offset) % block_size) ∷ [],
            read_loop_last n i offset db block (ground arith) (ground arith),
            omega arith,
          )
          | inr more ↦
              (let inside' : db + 1 < block_len node = ground arith in
                let (block', b') = BlockAt-total fs node v w (db + 1) inside' in
                let (r, bs, rest, stored) = read_loop-total n (suc i) 0 (db + 1) block' inside' in
                (
                  r,
                  block ((i + offset) % block_size) ∷ bs,
                  read_loop_round fs node (block_len node) n i offset db block 0 (db + 1) block'
                      (rw cross (next_block-go fs node i (db + 1) inside' b')) rest,
                  omega arith,
                ))
        ]
        | inr within ↦
            (let (r, bs, rest, stored) = read_loop-total n (suc i) offset db block inside in
              (
                r,
                block ((i + offset) % block_size) ∷ bs,
                read_loop_round fs node (block_len node) n i offset db block offset db block
                    (rw within) rest,
                omega arith,
              ))
      ]

-- Over a valid image `read_data` never reads outside the image, for any inode number, offset and
-- count, and it never stores more bytes than the count.
pub read_data-total :
    (fs : FileSystem)
    → IsValid fs
    → (inode offset count : ℕ)
    → (r : ℤ) × (bs : List ℕ) × (read_data fs inode offset count ≡ some (r, bs))
      × (length bs ≤ count)
read_data-total fs v inode offset count = elim (Bool-cases (leb fs.origin.inode_count inode)) [
  | inl absent ↦
      (minus_one, [], read_data-absent fs inode offset count (leb→le _ _ absent), omega arith)
  | inr found ↦
      (let (node, present) = get_elem?-total fs.inodes inode (ground (arith, v.inodes)) in
        let w = v.nodes inode node present in
        elim (Bool-cases (ltb (offset / block_size) (block_len node))) [
          | inl inside ↦
              (let (block, b) =
                  BlockAt-total fs node v w (offset / block_size) (ltb→lt _ _ inside) in
                let (r, bs, run, stored) =
                  read_loop-total fs node v w count 0 (offset % block_size) (offset / block_size)
                    block (ltb→lt _ _ inside) in
                (
                  r,
                  bs,
                  read_data-read_loop fs v inode node present offset count (ltb→lt _ _ inside) b
                      ∙ run,
                  stored,
                ))
          | inr past ↦ (
            minus_one,
            [],
            read_data-past fs v inode node present offset count (ground arith),
            omega arith,
          )
        ])
]

-- The two ways in which filesys.c finds the inodes and the data blocks agree, and an inode that the
-- image has lies after the boot block and before the data blocks. The image fits below 4 GB.
pub file_init_layout :
    (boot : ℕ) (image : BootBlock) (inode : ℕ)
    → boot + 4096 * (image.inode_count + 1) < 2 ^ 32
    → inode < image.inode_count
    → (get_inode boot 0 ≡ (file_init boot image).root_inode)
      × (data_blocks_address boot image ≡ (file_init boot image).first_data_block)
      × (boot + 4096 ≤ get_inode boot inode)
      × (get_inode boot inode + 4096 ≤ (file_init boot image).first_data_block)
unfolding get_inode file_init data_blocks_address
file_init_layout boot image inode fits h = omega arith
