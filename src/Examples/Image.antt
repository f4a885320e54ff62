-- ===== src/Examples/Image.antt =====
-- A file system image with a file of 5000 bytes and a program, and what filesys.c does on it.
use linux_os.Base.{
  ℕ, zero, suc, ◌+◌, ◌%◌, ◌≤◌, ◌<◌, ◌≡◌, ◌↔◌, inl, inr, refl, Bool, true, ◌&&◌, Option, some, List,
  [], ◌∷◌, ◌++◌, arith, ltb, ltb→lt, Bool-cases, length, get_elem?, get_or, replicate, codes,
}
use linux_os.Base.Int.{ℤ, pos, ◌-ℤ◌}
use mathlib.Core.Path.{subst}
use mathlib.Core.Option.{some-injective}
use linux_os.Strings.{strlen, strncmp}
use linux_os.Strings.Compare.{AllBytes, c_prefix, strncmp-zero_iff, strncmp-total}
use linux_os.FileSystem.{FileSystem, Dentry, Inode, DataBlock, read_data, read_dentry_by_name}
use linux_os.FileSystem.Valid.{IsValid, IsValidInode, IsValidDentry, AllDentries, block_len}
use linux_os.FileSystem.Lookup.{FirstNamed, lookup_reply, read_dentry_by_name_lem}
use linux_os.FileSystem.Read.{file_bytes, read_data-bytes}
use linux_os.FileSystem.Boundary.{read_data-end, read_data-skip}
use linux_os.FileSystem.Total.{read_data-total}

abbrev all_bytes : List ℕ → Bool
all_bytes [] = true
all_bytes (c ∷ s) = ltb c 256 && all_bytes s

pub all_bytes-AllBytes : (s : List ℕ) → all_bytes s ≡ true → AllBytes s
all_bytes-AllBytes [] h = tt
all_bytes-AllBytes (c ∷ s) h = elim (Bool-cases (ltb c 256)) [
  | inl small ↦ (ltb→lt _ _ small, all_bytes-AllBytes s (ground arith))
  | inr large ↦ ground arith
]

abbrev pub file_name : List ℕ
file_name = codes "frame0.txt" ++ (0 ∷ [])

abbrev pub entry : Dentry
entry = record {
  filename = codes "frame0.txt" ++ replicate 22 0;
  filetype = 2;
  inode_num = 0;
  reserved = replicate 24 0;
}

abbrev pub shell_name : List ℕ
shell_name = codes "shell" ++ (0 ∷ [])

abbrev pub shell_entry : Dentry
shell_entry = record {
  filename = codes "shell" ++ replicate 27 0;
  filetype = 2;
  inode_num = 1;
  reserved = replicate 24 0;
}

abbrev pub blank : Dentry
blank = record { filename = replicate 32 0; filetype = 0; inode_num = 0; reserved = replicate 24 0 }

abbrev pub node : Inode
node = record { length = 5000; data_block_num = 1 ∷ 0 ∷ replicate 1021 0 }

abbrev pub program : Inode
program = record { length = 40; data_block_num = 2 ∷ replicate 1022 0 }

abbrev first_block : DataBlock
first_block i = i % 256

abbrev other_block : DataBlock
other_block i = (i + 7) % 256

abbrev program_block : DataBlock
program_block i = get_or (0x7F ∷ codes "ELF") i (i % 256)

abbrev pub image : FileSystem
image = record {
  origin = record {
    dir_count = 2;
    inode_count = 2;
    data_count = 3;
    direntries = entry ∷ shell_entry ∷ replicate 61 blank;
  };
  inodes = node ∷ program ∷ [];
  data_blocks = first_block ∷ other_block ∷ program_block ∷ [];
}

node-IsValidInode : IsValidInode image node
node-IsValidInode = record { blocks = refl; fits = omega arith; in_range = in_range }
  where
    in_range :
        (b num : ℕ) → b < block_len node → get_elem? node.data_block_num b ≡ some num → num < 3
    in_range zero num h e = (let n : 1 ≡ num = some-injective _ _ e in omega arith)
    in_range (suc zero) num h e = (let n : 0 ≡ num = some-injective _ _ e in omega arith)
    in_range (suc (suc b)) num h e = absurd (omega arith)

program-IsValidInode : IsValidInode image program
program-IsValidInode = record { blocks = refl; fits = omega arith; in_range = in_range }
  where
    in_range :
        (b num : ℕ)
        → b < block_len program
        → get_elem? program.data_block_num b ≡ some num
        → num < 3
    in_range zero num h e = (let n : 2 ≡ num = some-injective _ _ e in omega arith)
    in_range (suc b) num h e = absurd (omega arith)

entry-IsValidDentry : IsValidDentry entry
entry-IsValidDentry = record {
  name_len = refl;
  name_bytes = all_bytes-AllBytes entry.filename refl;
}

shell_entry-IsValidDentry : IsValidDentry shell_entry
shell_entry-IsValidDentry = record {
  name_len = refl;
  name_bytes = all_bytes-AllBytes shell_entry.filename refl;
}

AllDentries-replicate : (n : ℕ) → AllDentries (replicate n blank)
AllDentries-replicate zero = tt
AllDentries-replicate (suc n) = (
  record { name_len = refl; name_bytes = all_bytes-AllBytes blank.filename refl },
  AllDentries-replicate n,
)

pub image-IsValid : IsValid image
image-IsValid = record {
  entries = refl;
  names = (entry-IsValidDentry, (shell_entry-IsValidDentry, AllDentries-replicate 61));
  inodes = refl;
  data_blocks = refl;
  nodes = nodes;
}
  where
    nodes :
        (k : ℕ) (node' : Inode) → get_elem? image.inodes k ≡ some node' → IsValidInode image node'
    nodes zero node' e = subst (IsValidInode image) (some-injective _ _ e) node-IsValidInode
    nodes (suc zero) node' e =
        subst (IsValidInode image) (some-injective _ _ e) program-IsValidInode
    nodes (suc (suc k)) node' e = cc

read_data-bytes_example :
    (bs : List ℕ) × (file_bytes image node 4096 900 ≡ some bs)
    × (read_data image 0 4096 900 ≡ some (pos 900, bs))
read_data-bytes_example =
    read_data-bytes image image-IsValid 0 node refl 4096 900 (omega arith) (omega arith)
      (inl (omega arith))

read_data-total_example :
    (r : ℤ) × (bs : List ℕ) × (read_data image 0 300 70000 ≡ some (r, bs)) × (length bs ≤ 70000)
read_data-total_example = read_data-total image image-IsValid 0 300 70000

read_data-end_example :
    (bs : List ℕ) × (read_data image 0 0 9000 ≡ some (pos 8191, bs))
    × (file_bytes image node 0 8192 ≡ some bs)
read_data-end_example = read_data-end image image-IsValid 0 node refl 9000 (omega arith)

read_data-skip_example :
    (bs : List ℕ) × (read_data image 0 2 4095 ≡ some (pos 4095, bs))
    × (get_elem? bs 4094 ≡ some (first_block 4094))
read_data-skip_example =
    read_data-skip image image-IsValid 0 node refl 0 2 first_block
      (record { num = 0; numbered = refl; in_range = omega arith; block_is = refl }) (omega arith)
      (omega arith) (omega arith)

pub file_name_len : strlen file_name ≡ some 10
unfolding strlen
file_name_len = refl

read_dentry_by_name_lem_example :
    (o : Option Dentry) × FirstNamed file_name image.origin.direntries o
    × (read_dentry_by_name image (some file_name) blank ≡ some (lookup_reply blank o))
read_dentry_by_name_lem_example =
    read_dentry_by_name_lem image file_name (all_bytes-AllBytes file_name refl) file_name_len blank
      image-IsValid (omega arith)

shell_same : strncmp (codes "shell" ++ (0 ∷ [])) (codes "shell" ++ (0 ∷ [])) 32 ≡ some (pos 0)
unfolding strncmp ◌-ℤ◌
shell_same = refl

strncmp-zero_iff_example :
    (pos 0 ≡ pos 0)
    ↔ (c_prefix 32 (codes "shell" ++ (0 ∷ [])) ≡ c_prefix 32 (codes "shell" ++ (0 ∷ [])))
strncmp-zero_iff_example =
    strncmp-zero_iff 32 (codes "shell" ++ (0 ∷ [])) (codes "shell" ++ (0 ∷ [])) (pos 0)
      (all_bytes-AllBytes (codes "shell" ++ (0 ∷ [])) refl)
      (all_bytes-AllBytes (codes "shell" ++ (0 ∷ [])) refl) shell_same

strncmp-total_example : (r : ℤ) × (strncmp entry.filename file_name 32 ≡ some r)
strncmp-total_example = strncmp-total 32 entry.filename file_name (omega arith) file_name_len
