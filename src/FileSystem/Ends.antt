-- ===== src/FileSystem/Ends.antt =====
-- `read_data` of filesys.c in reads that end at the end of a block, and at the end of the last block.
use linux_os.Base.{
  ℕ, zero, suc, ◌+◌, ◌*◌, ◌/◌, ◌%◌, ◌≤◌, ◌<◌, ◌≡◌, ◌≢◌, inl, inr, refl, sym, ap, ◌∙◌, some, List,
  [], ◌∷◌, ◌++◌, arith, ◌==◌, Bool-cases, get_elem?,
}
use linux_os.Base.Int.{ℤ, pos, signed32}
use linux_os.FileSystem.{FileSystem, Inode, DataBlock, block_size, next_block, read_loop, read_data}
use linux_os.FileSystem.Valid.{IsValid, IsValidInode, block_len}
use linux_os.FileSystem.Read.{
  BlockAt, BlockAt-total, next_block-go, read_loop_round, read_data-read_loop, file_bytes,
  file_bytes_round,
}

module _ (fs : FileSystem) (node : Inode) (v : IsValid fs) (w : IsValidInode fs node) where
  read_loop_within :
      (n i offset db p : ℕ) (block : DataBlock)
      → BlockAt fs node db block
      → p ≡ block_size * db + (i + offset)
      → i + offset + n ≤ block_size
      → p + n < block_size * block_len node
      → (bs : List ℕ) × (file_bytes fs node p n ≡ some bs)
        × (read_loop fs node (block_len node) n i offset db block ≡ some (signed32 (i + n), bs))
  unfolding file_bytes read_loop
  read_loop_within zero i offset db p block b e inside fits =
      ([], refl, ap (λ (k : ℕ). some (signed32 k, [])) (omega arith))
  read_loop_within (suc zero) i offset db p block b e inside fits =
      let byte = file_bytes_round fs node p 0 db (i + offset) b e (omega arith) refl in
      let small : (i + offset) % block_size ≡ i + offset = omega arith in
      let ended : signed32 (suc i) ≡ signed32 (i + 1) = ap signed32 (omega arith) in
      elim (Bool-cases ((i + offset + 1) % block_size == 0)) [
        | inl cross ↦
            (let more : db + 1 < block_len node = ground arith in
              let (block', b') = BlockAt-total fs node v w (db + 1) more in
              (
                block ((i + offset) % block_size) ∷ [],
                byte ∙ ap (λ (k : ℕ). some (block k ∷ [])) (sym small),
                read_loop_round fs node (block_len node) 0 i offset db block 0 (db + 1) block'
                    (rw cross (next_block-go fs node i (db + 1) more b'))
                    (ap (λ (r : ℤ). some (r, [])) ended),
              ))
        | inr within ↦ (
          block ((i + offset) % block_size) ∷ [],
          byte ∙ ap (λ (k : ℕ). some (block k ∷ [])) (sym small),
          read_loop_round fs node (block_len node) 0 i offset db block offset db block (rw within)
              (ap (λ (r : ℤ). some (r, [])) ended),
        )
      ]
  read_loop_within (suc (suc n)) i offset db p block b e inside fits =
      let (bs, bytes, rest) =
        read_loop_within (suc n) (suc i) offset db (suc p) block b (omega arith) (omega arith)
          (omega arith) in
      let within : (i + offset + 1) % block_size ≢ 0 = omega arith in
      (
        block ((i + offset) % block_size) ∷ bs,
        file_bytes_round fs node p (suc n) db _ b (omega arith) (omega arith) bytes,
        read_loop_round fs node (block_len node) (suc n) i offset db block offset db block
            (ground (arith, within)) (rest ∙ ap (λ (k : ℕ). some (signed32 k, bs)) (omega arith)),
      )

  -- The last block ends the loop, which does not count its last byte.
  read_loop_tail :
      (r n i offset db p : ℕ) (block : DataBlock)
      → BlockAt fs node db block
      → p ≡ block_size * db + (i + offset)
      → i + offset + n + 1 ≡ block_size
      → db + 1 ≡ block_len node
      → n < r
      → (bs : List ℕ) × (last : ℕ) × (file_bytes fs node p n ≡ some bs)
        × (read_loop fs node (block_len node) r i offset db block
            ≡ some (signed32 (i + n), bs ++ last ∷ []))
  unfolding file_bytes read_loop next_block
  read_loop_tail zero n i offset db p block b e inside end more = absurd (omega arith)
  read_loop_tail (suc r) zero i offset db p block b e inside end more =
      ([], block ((i + offset) % block_size), refl, ground (arith, b.numbered, e, inside, end))
  read_loop_tail (suc r) (suc n) i offset db p block b e inside end more =
      let (bs, last, bytes, rest) =
        read_loop_tail r n (suc i) offset db (suc p) block b (omega arith) (omega arith) end
          (omega arith) in
      let within : (i + offset + 1) % block_size ≢ 0 = omega arith in
      (
        block ((i + offset) % block_size) ∷ bs,
        last,
        file_bytes_round fs node p n db _ b (ground arith) (omega arith) bytes,
        read_loop_round fs node (block_len node) r i offset db block offset db block
            (ground (arith, within))
            (rest ∙ ap (λ (k : ℕ). some (signed32 k, bs ++ last ∷ [])) (omega arith)),
      )

module _ (fs : FileSystem) (v : IsValid fs) (inode : ℕ) (node : Inode)
    (present : get_elem? fs.inodes inode ≡ some node) where
  pub read_data-within :
      (offset count : ℕ)
      → offset + count < block_size * block_len node
      → offset % block_size + count ≤ block_size
      → (bs : List ℕ) × (file_bytes fs node offset count ≡ some bs)
        × (read_data fs inode offset count ≡ some (pos count, bs))
  read_data-within offset count fits inside =
      let here : offset / block_size < block_len node = omega arith in
      let w = v.nodes inode node present in
      let (block, b) = BlockAt-total fs node v w (offset / block_size) here in
      let (bs, bytes, run) =
        read_loop_within fs node v w count 0 (offset % block_size) (offset / block_size) offset
          block b (omega arith) (omega arith) fits in
      let value : signed32 (0 + count) ≡ pos count = ground arith in
      (
        bs,
        bytes,
        read_data-read_loop fs v inode node present offset count here b
            ∙ run
            ∙ ap (λ (r : ℤ). some (r, bs)) value,
      )

  -- A read in the last block that asks for its last byte or more stores that byte too, but does not
  -- count it.
  pub read_data-tail :
      (offset n count : ℕ)
      → offset + n + 1 ≡ block_size * block_len node
      → n < block_size
      → n < count
      → (bs : List ℕ) × (last : ℕ) × (file_bytes fs node offset n ≡ some bs)
        × (read_data fs inode offset count ≡ some (pos n, bs ++ last ∷ []))
  read_data-tail offset n count end inside more =
      let here : offset / block_size < block_len node = omega arith in
      let w = v.nodes inode node present in
      let (block, b) = BlockAt-total fs node v w (offset / block_size) here in
      let (bs, last, bytes, run) =
        read_loop_tail fs node v w count n 0 (offset % block_size) (offset / block_size) offset
          block b (omega arith) (omega arith) (omega arith) more in
      let value : signed32 (0 + n) ≡ pos n = ground arith in
      (
        bs,
        last,
        bytes,
        read_data-read_loop fs v inode node present offset count here b
            ∙ run
            ∙ ap (λ (r : ℤ). some (r, bs ++ last ∷ [])) value,
      )
