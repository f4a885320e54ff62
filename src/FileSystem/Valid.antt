-- ===== src/FileSystem/Valid.antt =====
-- A boot image that agrees with its own counts, and what follows for the tables of filesys.c.
use linux_os.Base.{
  ℕ, zero, suc, ◌+◌, ◌/◌, ◌≤◌, ◌<◌, ◌≡◌, refl, some, List, [], ◌∷◌, arith, length, get_elem?,
}
use linux_os.FileSystem.{FileSystem, Dentry, Inode, block_size}
use linux_os.Strings.Compare.{AllBytes}

-- The number of data blocks that `read_data` allows a file.
abbrev pub block_len : Inode → ℕ
block_len node = node.length / block_size + 1

-- An inode as the tool that makes the image writes it: 1023 block numbers, those of the file's
-- blocks in range.
pub record IsValidInode (fs : FileSystem) (node : Inode) : Type 0 where
  pub blocks : length node.data_block_num ≡ 1023
  pub fits : block_len node ≤ 1023
  pub in_range :
      (b num : ℕ)
      → b < block_len node
      → get_elem? node.data_block_num b ≡ some num
      → num < fs.origin.data_count

pub record IsValidDentry (d : Dentry) : Type 0 where
  pub name_len : length d.filename ≡ 32
  pub name_bytes : AllBytes d.filename

abbrev pub AllDentries : List Dentry → Type 0
AllDentries [] = Unit
AllDentries (d ∷ ds) = IsValidDentry d × AllDentries ds

pub record IsValid (fs : FileSystem) : Type 0 where
  pub entries : length fs.origin.direntries ≡ 63
  pub names : AllDentries fs.origin.direntries
  pub inodes : length fs.inodes ≡ fs.origin.inode_count
  pub data_blocks : length fs.data_blocks ≡ fs.origin.data_count
  pub nodes : (k : ℕ) (node : Inode) → get_elem? fs.inodes k ≡ some node → IsValidInode fs node

-- An index in range has an element, and an element has an index in range.
pub get_elem?-total {ℓ} :
    {A : Type ℓ} (xs : List A) (i : ℕ) → i < length xs → (a : A) × (get_elem? xs i ≡ some a)
get_elem?-total [] i h = absurd (omega arith)
get_elem?-total (x ∷ xs) zero h = (x, refl)
get_elem?-total (x ∷ xs) (suc i) h = get_elem?-total xs i (omega arith)

pub lt_of_get_elem? {ℓ} :
    {A : Type ℓ} (xs : List A) (i : ℕ) {a : A} → get_elem? xs i ≡ some a → i < length xs
lt_of_get_elem? [] i h = cc
lt_of_get_elem? (x ∷ xs) zero h = omega arith
lt_of_get_elem? (x ∷ xs) (suc i) h = omega (arith, lt_of_get_elem? xs i h)
