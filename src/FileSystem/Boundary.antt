-- ===== src/FileSystem/Boundary.antt =====
-- `read_data` of filesys.c at the end of the last block, and at a block boundary that it meets from
-- the middle of a block.
use linux_os.Base.{
  ℕ, zero, suc, ◌+◌, ◌-◌, ◌*◌, ◌/◌, ◌%◌, ◌≤◌, ◌<◌, ◌≡◌, ◌≢◌, inl, inr, refl, sym, ap, ◌∙◌, some,
  List, [], ◌∷◌, arith, ◌==◌, Bool-cases, get_elem?,
}
use linux_os.Base.Int.{ℤ, pos, signed32}
use linux_os.FileSystem.{FileSystem, Inode, DataBlock, block_size, next_block, read_loop, read_data}
use linux_os.FileSystem.Valid.{IsValid, IsValidInode, block_len}
use linux_os.FileSystem.Read.{
  file_bytes, file_bytes_round, BlockAt, BlockAt-total, next_block-go, read_loop_round,
  read_data-read_loop,
}

module _ (fs : FileSystem) (node : Inode) (v : IsValid fs) (w : IsValidInode fs node) where
  read_loop_stop :
      (n i db : ℕ) (block : DataBlock)
      → (i + 0 + 1) % block_size ≡ 0
      → db + 1 ≡ block_len node
      → read_loop fs node (block_len node) (suc n) i 0 db block
        ≡ some (signed32 i, block ((i + 0) % block_size) ∷ [])
  unfolding read_loop next_block
  read_loop_stop n i db block cross last = ground arith

  -- From an aligned start the loop ends with the last block, and the returned count leaves out the
  -- last byte that it has stored.
  read_loop_end :
      (n i db p e q : ℕ) (block : DataBlock)
      → BlockAt fs node db block
      → db < block_len node
      → p ≡ block_size * db + (i + 0) % block_size
      → block_size * block_len node ≤ p + n
      → i + block_size * block_len node ≡ e + 1 + p
      → p + q ≡ block_size * block_len node
      → (bs : List ℕ) × (read_loop fs node (block_len node) n i 0 db block ≡ some (signed32 e, bs))
        × (file_bytes fs node p q ≡ some bs)
  unfolding file_bytes
  read_loop_end zero i db p e q block b inside at long count left = absurd (omega arith)
  read_loop_end (suc n) i db p e zero block b inside at long count left = absurd (omega arith)
  read_loop_end (suc n) i db p e (suc q) block b inside at long count left =
      elim (Bool-cases ((i + 0 + 1) % block_size == 0)) [
        | inl cross ↦ elim (Bool-cases (db + 1 == block_len node)) [
          | inl last ↦
              (let at_end : i ≡ e = ground arith in
                let only : q ≡ 0 = ground arith in
                (
                  block ((i + 0) % block_size) ∷ [],
                  read_loop_stop n i db block (ground arith) (ground arith)
                      ∙ ap (λ (k : ℕ). some (signed32 k, block ((i + 0) % block_size) ∷ [])) at_end,
                  ap (λ (k : ℕ). file_bytes fs node p (suc k)) only
                      ∙ file_bytes_round fs node p 0 db _ b at (omega arith) refl,
                ))
          | inr more ↦
              (let inside' : db + 1 < block_len node = ground arith in
                let round : (i + 0 + 1) % block_size ≡ 0 = ground arith in
                let (block', b') = BlockAt-total fs node v w (db + 1) inside' in
                let (bs, rest, bytes) =
                  read_loop_end n (suc i) (db + 1) (suc p) e q block' b' inside' (omega arith)
                    (omega arith) (omega arith) (omega arith) in
                (
                  block ((i + 0) % block_size) ∷ bs,
                  read_loop_round fs node (block_len node) n i 0 db block 0 (db + 1) block'
                      (rw cross (next_block-go fs node i (db + 1) inside' b')) rest,
                  file_bytes_round fs node p q db _ b at (omega arith) bytes,
                ))
        ]
        | inr within ↦
            (let round : (i + 0 + 1) % block_size ≢ 0 = ground arith in
              let (bs, rest, bytes) =
                read_loop_end n (suc i) db (suc p) e q block b inside (omega arith) (omega arith)
                  (omega arith) (omega arith) in
              (
                block ((i + 0) % block_size) ∷ bs,
                read_loop_round fs node (block_len node) n i 0 db block 0 db block (rw within) rest,
                file_bytes_round fs node p q db _ b at (omega arith) bytes,
              ))
      ]

  -- A read from the middle of a block that crosses into the next one: `m` rounds before the round
  -- that crosses, and one round after it.
  read_loop_skip :
      (m i offset db : ℕ) (block block' : DataBlock)
      → BlockAt fs node (db + 1) block'
      → db + 1 < block_len node
      → i + offset + m + 1 ≡ block_size
      → 2 ≤ offset
      → (bs : List ℕ) × (read_loop fs node (block_len node) (suc (suc m)) i offset db block
          ≡ some (signed32 (i + m + 2), bs))
        × (get_elem? bs (m + 1) ≡ some (block' (i + m + 1)))
  unfolding read_loop
  read_loop_skip zero i offset db block block' b' inside at away =
      let round : (i + offset + 1) % block_size ≡ 0 = omega arith in
      let small : suc i + 0 ≡ i + 0 + 1 = omega arith in
      let index : (suc i + 0) % block_size ≡ i + 0 + 1 = omega arith in
      let step : (suc i + 0 + 1) % block_size ≢ 0 = omega arith in
      let ended : signed32 (suc (suc i)) ≡ signed32 (i + 0 + 2) = ap signed32 (omega arith) in
      (
        block ((i + offset) % block_size) ∷ block' (i + 0 + 1) ∷ [],
        read_loop_round fs node (block_len node) 1 i offset db block 0 (db + 1) block'
            (ground (arith, round, next_block-go fs node i (db + 1) inside b'))
            (read_loop_round fs node (block_len node) 0 (suc i) 0 (db + 1) block' 0 (db + 1) block'
                (ground (arith, step)) (ap (λ (r : ℤ). some (r, [])) ended)
              ∙ ap (λ (k : ℕ). some (signed32 (i + 0 + 2), block' k ∷ [])) index),
        refl,
      )
  read_loop_skip (suc m) i offset db block block' b' inside at away =
      let (bs, rest, byte) =
        read_loop_skip m (suc i) offset db block block' b' inside (omega arith) away in
      let within : (i + offset + 1) % block_size ≢ 0 = omega arith in
      let ended : suc i + m + 2 ≡ i + suc m + 2 = omega arith in
      let index : suc i + m + 1 ≡ i + suc m + 1 = omega arith in
      let place : suc m + 1 ≡ suc (m + 1) = omega arith in
      (
        block ((i + offset) % block_size) ∷ bs,
        read_loop_round fs node (block_len node) (suc (suc m)) i offset db block offset db block
            (ground (arith, within)) (rest ∙ ap (λ (k : ℕ). some (signed32 k, bs)) ended),
        ap (λ (k : ℕ). get_elem? (block ((i + offset) % block_size) ∷ bs) k) place
            ∙ byte
            ∙ ap (λ (k : ℕ). some (block' k)) index,
      )

-- A read from the beginning of a file that asks for all of its blocks or more stores every byte of
-- the blocks, in their order and whatever the file's length is, and returns one less than it has
-- stored. The image is valid and the inode exists.
pub read_data-end :
    (fs : FileSystem)
    → IsValid fs
    → (inode : ℕ) (node : Inode) → get_elem? fs.inodes inode ≡ some node
    → (count : ℕ) → block_size * block_len node ≤ count
    → (bs : List ℕ) × (read_data fs inode 0 count
        ≡ some (pos (block_size * block_len node - 1), bs))
      × (file_bytes fs node 0 (block_size * block_len node) ≡ some bs)
read_data-end fs v inode node present count long =
    let w = v.nodes inode node present in
    let inside : 0 / block_size < block_len node = omega arith in
    let (block, b) = BlockAt-total fs node v w (0 / block_size) inside in
    let (bs, run, bytes) =
      read_loop_end fs node v w count 0 0 0 (block_size * block_len node - 1)
        (block_size * block_len node) block b (omega arith) (omega arith) (omega arith)
        (omega arith) (omega arith) in
    let value : signed32 (block_size * block_len node - 1) ≡ pos (block_size * block_len node - 1) =
      ground (arith, w.fits) in
    (
      bs,
      read_data-read_loop fs v inode node present 0 count inside b
          ∙ run
          ∙ ap (λ (r : ℤ). some (r, bs)) value,
      bytes,
    )

-- A read that starts at index `k` of a block, `k` at least 2, and takes one byte of the next block,
-- stores there the byte that the next block has at index `4096 - k`, and not its first byte. The
-- image is valid, the inode exists and has the next block.
pub read_data-skip :
    (fs : FileSystem)
    → IsValid fs
    → (inode : ℕ) (node : Inode) → get_elem? fs.inodes inode ≡ some node
    → (db k : ℕ) (block' : DataBlock) → BlockAt fs node (db + 1) block'
    → db + 1 < block_len node
    → 2 ≤ k
    → k < block_size
    → (bs : List ℕ) × (read_data fs inode (block_size * db + k) (block_size - k + 1)
        ≡ some (pos (block_size - k + 1), bs))
      × (get_elem? bs (block_size - k) ≡ some (block' (block_size - k)))
read_data-skip fs v inode node present db k block' b' inside away small =
    let w = v.nodes inode node present in
    let at : (block_size * db + k) / block_size ≡ db = omega arith in
    let from : (block_size * db + k) % block_size ≡ k = omega arith in
    let here : (block_size * db + k) / block_size < block_len node = omega arith in
    let (block, b) = BlockAt-total fs node v w ((block_size * db + k) / block_size) here in
    let m = block_size - k - 1 in
    let (bs, run, byte) =
      read_loop_skip fs node v w m 0 k db block block' b' inside (omega arith) away in
    let rounds : block_size - k + 1 ≡ suc (suc m) = omega arith in
    let start =
      read_data-read_loop fs v inode node present (block_size * db + k) (block_size - k + 1) here
        b in
    let value : signed32 (0 + m + 2) ≡ pos (block_size - k + 1) = ground arith in
    let place : m + 1 ≡ block_size - k = omega arith in
    let index : 0 + m + 1 ≡ block_size - k = omega arith in
    (
      bs,
      start
          ∙ (λ i. read_loop fs node (block_len node) (rounds i) 0 (from i) (at i) block)
          ∙ run
          ∙ ap (λ (r : ℤ). some (r, bs)) value,
      ap (get_elem? bs) (sym place) ∙ byte ∙ ap (λ (j : ℕ). some (block' j)) index,
    )
