-- ===== src/FileSystem/Read.antt =====
-- What `read_data` of filesys.c returns: the bytes of the file, read through its block numbers.
use linux_os.Base.{
  ℕ, zero, suc, ◌+◌, ◌*◌, ◌/◌, ◌%◌, ◌^◌, ◌≤◌, ◌<◌, ◌≡◌, ◌≢◌, ◌⊎◌, inl, inr, refl, ap, ◌∙◌, Option,
  some, List, [], ◌∷◌, arith, ◌==◌, if◌then◌else◌, Bool-cases, ◌>>=◌, get_elem?,
}
use linux_os.Base.Int.{ℤ, pos, minus_one, signed32}
use linux_os.FileSystem.{
  FileSystem, Inode, DataBlock, block_size, go, next_block, read_loop, read_data,
}
use linux_os.FileSystem.Valid.{IsValid, IsValidInode, block_len, get_elem?-total, lt_of_get_elem?}

-- The byte at a position of a file.
pub file_byte : FileSystem → Inode → ℕ → Option ℕ
file_byte fs node p = do
  num ← get_elem? node.data_block_num (p / block_size)
  block ← get_elem? fs.data_blocks num
  some (block (p % block_size))

-- The bytes of a file from a position on.
unfoldable pub file_bytes : FileSystem → Inode → ℕ → ℕ → Option (List ℕ)
unfolding file_byte
file_bytes fs node p zero = some []
file_bytes fs node p (suc n) = do
  b ← file_byte fs node p
  bs ← file_bytes fs node (suc p) n
  some (b ∷ bs)

module _ (fs : FileSystem) (node : Inode) where
  -- The block of a file that has an index.
  pub record BlockAt (db : ℕ) (block : DataBlock) : Type 0 where
    pub num : ℕ
    pub numbered : get_elem? node.data_block_num db ≡ some num
    pub in_range : num < fs.origin.data_count
    pub block_is : get_elem? fs.data_blocks num ≡ some block

  pub BlockAt-total :
      IsValid fs
      → IsValidInode fs node
      → (db : ℕ) → db < block_len node
      → (block : DataBlock) × BlockAt db block
  BlockAt-total v w db h =
      let (k, numbered) =
        get_elem?-total node.data_block_num db (omega (arith, w.blocks, w.fits)) in
      let in_range = w.in_range db k h numbered in
      let (block, found) = get_elem?-total fs.data_blocks k (omega (arith, v.data_blocks)) in
      (block, record { num = k; numbered = numbered; in_range = in_range; block_is = found })

  pub next_block-go :
      (i db : ℕ) {block : DataBlock}
      → db < block_len node
      → BlockAt db block
      → next_block fs node (block_len node) i db ≡ some (go 0 db block)
  unfolding next_block
  next_block-go i db h b = ground (arith, b.numbered, b.in_range, b.block_is)

  file_byte-at :
      (p db : ℕ) {block : DataBlock}
      → BlockAt db block
      → p / block_size ≡ db
      → file_byte fs node p ≡ some (block (p % block_size))
  unfolding file_byte
  file_byte-at p db b e = rw (e, b.numbered, b.block_is)

  -- A round that goes on.
  pub read_loop_round :
      (len n i offset db : ℕ) (block : DataBlock) (offset' db' : ℕ) (block' : DataBlock) {r : ℤ}
      {bs : List ℕ}
      → (if (i + offset + 1) % block_size == 0
          then next_block fs node len i (db + 1)
          else some (go offset db block))
        ≡ some (go offset' db' block')
      → read_loop fs node len n (suc i) offset' db' block' ≡ some (r, bs)
      → read_loop fs node len (suc n) i offset db block
        ≡ some (r, block ((i + offset) % block_size) ∷ bs)
  unfolding read_loop
  read_loop_round len n i offset db block offset' db' block' e h = rw (e, h)

  -- The byte of a round, and the bytes of the rounds after it.
  pub file_bytes_round :
      (p n db k : ℕ) {block : DataBlock} {bs : List ℕ}
      → BlockAt db block
      → p ≡ block_size * db + k
      → k < block_size
      → file_bytes fs node (suc p) n ≡ some bs
      → file_bytes fs node p (suc n) ≡ some (block k ∷ bs)
  unfolding file_bytes
  file_bytes_round p n db k {block} {bs} b e small rest =
      let place : p % block_size ≡ k = omega arith in
      rw (file_byte-at p db b (omega arith), rest) (ap (λ (j : ℕ). some (block j ∷ bs)) place)

module _ (fs : FileSystem) (node : Inode) (v : IsValid fs) (w : IsValidInode fs node) where
  -- From a position in a block on, the loop returns the bytes of the file from that position on, if
  -- the reading started at the beginning of a block or does not leave the block.
  pub read_loop_lem :
      (n i offset db p j : ℕ) (block : DataBlock)
      → i + n ≡ j
      → BlockAt fs node db block
      → p ≡ block_size * db + (i + offset) % block_size
      → p + n < block_size * block_len node
      → (offset ≡ 0) ⊎ ((i + offset) % block_size + n < block_size)
      → (bs : List ℕ) × (file_bytes fs node p n ≡ some bs)
        × (read_loop fs node (block_len node) n i offset db block ≡ some (signed32 j, bs))
  unfolding file_bytes read_loop
  read_loop_lem zero i offset db p j block count b e fits straight =
      ([], refl, ap (λ (k : ℕ). some (signed32 k, [])) (omega arith))
  read_loop_lem (suc n) i offset db p j block count b e fits straight =
      elim (Bool-cases ((i + offset + 1) % block_size == 0)) [
        | inl cross ↦
            (let aligned : offset ≡ 0 = ground arith in
              let last : (i + offset + 1) % block_size ≡ 0 = ground arith in
              let more : db + 1 < block_len node = omega arith in
              let (block', b') = BlockAt-total fs node v w (db + 1) more in
              let (bs, bytes, rest) =
                read_loop_lem n (suc i) 0 (db + 1) (suc p) j block' (omega arith) b' (omega arith)
                  (omega arith) (inl refl) in
              (
                block ((i + offset) % block_size) ∷ bs,
                file_bytes_round fs node p n db _ b e (omega arith) bytes,
                read_loop_round fs node (block_len node) n i offset db block 0 (db + 1) block'
                    (rw cross (next_block-go fs node i (db + 1) more b')) rest,
              ))
        | inr inside ↦
            (let within : (i + offset + 1) % block_size ≢ 0 = ground arith in
              let straight' : (offset ≡ 0) ⊎ ((suc i + offset) % block_size + n < block_size) =
                ground arith in
              let (bs, bytes, rest) =
                read_loop_lem n (suc i) offset db (suc p) j block (omega arith) b (omega arith)
                  (omega arith) straight' in
              (
                block ((i + offset) % block_size) ∷ bs,
                file_bytes_round fs node p n db _ b e (omega arith) bytes,
                read_loop_round fs node (block_len node) n i offset db block offset db block
                    (rw inside) rest,
              ))
      ]

module _ (fs : FileSystem) (v : IsValid fs) (inode : ℕ) (node : Inode)
    (present : get_elem? fs.inodes inode ≡ some node) where
  -- A read of an existing inode at an offset in its blocks is a run of the loop.
  pub read_data-read_loop :
      (offset count : ℕ) {block : DataBlock}
      → offset / block_size < block_len node
      → BlockAt fs node (offset / block_size) block
      → read_data fs inode offset count
        ≡ read_loop fs node
            (block_len node)
            count
            0
            (offset % block_size)
            (offset / block_size)
            block
  unfolding read_data
  read_data-read_loop offset count inside b = ground (
    arith,
    v.inodes,
    lt_of_get_elem? fs.inodes inode present,
    present,
    b.numbered,
    b.in_range,
    b.block_is,
  )

  -- A read that starts at the beginning of a block or stays in one block, and ends before the last
  -- byte of the file's last block, returns the count that was asked for, and stores the bytes of the
  -- file from the offset on. The image is valid and the inode exists.
  pub read_data-bytes :
      (offset count : ℕ)
      → offset + count < block_size * block_len node
      → count < 2 ^ 31
      → (offset % block_size ≡ 0) ⊎ (offset % block_size + count < block_size)
      → (bs : List ℕ) × (file_bytes fs node offset count ≡ some bs)
        × (read_data fs inode offset count ≡ some (pos count, bs))
  read_data-bytes offset count fits small straight =
      let inside : offset / block_size < block_len node = omega arith in
      let w = v.nodes inode node present in
      let (block, b) = BlockAt-total fs node v w (offset / block_size) inside in
      let (bs, bytes, run) =
        read_loop_lem fs node v w count 0 (offset % block_size) (offset / block_size) offset count
          block (omega arith) b (omega arith) fits (ground arith) in
      let value : signed32 count ≡ pos count = ground arith in
      (
        bs,
        bytes,
        read_data-read_loop offset count inside b ∙ run ∙ ap (λ (r : ℤ). some (r, bs)) value,
      )

  -- A read of an existing inode that starts past the file's blocks returns -1 and stores nothing.
  pub read_data-past :
      (offset count : ℕ)
      → block_len node ≤ offset / block_size
      → read_data fs inode offset count ≡ some (minus_one, [])
  unfolding read_data
  read_data-past offset count h =
      ground (arith, v.inodes, lt_of_get_elem? fs.inodes inode present, present)

-- A read of an inode number that the image does not have returns -1 and stores nothing.
pub read_data-absent :
    (fs : FileSystem) (inode offset count : ℕ)
    → fs.origin.inode_count ≤ inode
    → read_data fs inode offset count ≡ some (minus_one, [])
unfolding read_data
read_data-absent fs inode offset count h = ground arith
