-- ===== src/FileSystem/Listing.antt =====
-- What `read_d` and `get_filetype_from_inode` of filesys.c find in the directory.
use linux_os.Base.{
  get_elem?-drop, ℕ, zero, suc, ◌+◌, ◌≤◌, ◌<◌, ◌≡◌, ◌≢◌, inl, inr, refl, sym, ap, ◌∙◌, false, some,
  List, [], ◌∷◌, arith, ltb, ◌==◌, if◌then◌else◌, lt→ltb, Bool-cases, length, get_elem?, drop,
}
use linux_os.Base.Int.{ℤ, pos, minus_one, ◌-ℤ◌, ◌==ℤ◌, signed8, signed32}
use linux_os.Strings.{strncmp}
use linux_os.Strings.Compare.{c_prefix}
use linux_os.FileSystem.{
  FileSystem, Dentry, name_bytes, read_d_at, find_filetype, get_filetype_from_inode,
}
use linux_os.FileSystem.Valid.{IsValid, IsValidDentry}

-- The name's bytes from an index on.
name_bytes_lem :
    (name : List ℕ) (rounds j : ℕ) (nbytes : ℤ)
    → (rest : List ℕ) → drop j name ≡ rest
    → rounds ≤ length rest
    → name_bytes name rounds j nbytes
      ≡ some (
          if ltb (length (c_prefix rounds rest)) rounds
          then pos (j + length (c_prefix rounds rest))
          else nbytes)
unfolding name_bytes
name_bytes_lem name zero j nbytes rest e h = refl
name_bytes_lem name (suc rounds) j nbytes [] e h = absurd (omega arith)
name_bytes_lem name (suc rounds) j nbytes (c ∷ rest) e h =
    let (entry, left) = get_elem?-drop name j e in
    rw entry (ground (arith, name_bytes_lem name rounds (suc j) nbytes rest left))

nonempty :
    (c : ℕ) (rest : List ℕ)
    → c < 256
    → c ≢ 0
    → (r : ℤ) × (strncmp (0 ∷ 0 ∷ []) (c ∷ rest) 32 ≡ some r) × ((r ==ℤ pos 0) ≡ false)
unfolding strncmp ◌-ℤ◌
nonempty c rest small away = (signed8 0 -ℤ signed8 c, ground arith, ground arith)

read_d_at_named :
    (fs : FileSystem) (k : ℕ) (d : Dentry) (nbytes r n : ℤ)
    → k < 63
    → get_elem? fs.origin.direntries k ≡ some d
    → strncmp (0 ∷ 0 ∷ []) d.filename 32 ≡ some r
    → (r ==ℤ pos 0) ≡ false
    → name_bytes d.filename 32 0 nbytes ≡ some n
    → read_d_at fs k nbytes ≡ some (n, d.filename)
unfolding read_d_at
read_d_at_named fs k d nbytes r n inside present compared differ counted =
    rw (lt→ltb k 63 inside, present, compared, differ, counted)

-- A directory read at the position of an entry with a name stores the 32 bytes of the name, and
-- returns the length of the name; a name that fills all 32 bytes gives the caller's `nbytes` back.
-- The entry's name is 32 bytes.
pub read_d_at-entry :
    (fs : FileSystem) (k c : ℕ) (rest : List ℕ) (d : Dentry) (nbytes : ℤ)
    → IsValidDentry d
    → k < 63
    → get_elem? fs.origin.direntries k ≡ some d
    → d.filename ≡ c ∷ rest
    → c ≢ 0
    → let n = length (c_prefix 32 d.filename) in
      read_d_at fs k nbytes ≡ some (if ltb n 32 then pos n else nbytes, d.filename)
read_d_at-entry fs k c rest d nbytes v inside present named away =
    let (r, compared, differ) = nonempty c rest (rw named at v.name_bytes).0 away in
    let n = length (c_prefix 32 d.filename) in
    let from_zero : 0 + n ≡ n = omega arith in
    read_d_at_named fs k d nbytes r _ inside present (rw named compared) differ (
      name_bytes_lem d.filename 32 0 nbytes d.filename refl (omega (arith, v.name_len))
      ∙ ap (λ (m : ℕ). some (if ltb n 32 then pos m else nbytes)) from_zero)

-- The file type that `get_filetype_from_inode` returns is that of the first directory entry with
-- the inode number, and -1 if none has it.
pub data FirstInode (inode : ℕ) : List Dentry → ℤ → Type 0 where
  nowhere : FirstInode inode [] minus_one
  here :
      (d : Dentry) (ds : List Dentry)
      → d.inode_num ≡ inode
      → FirstInode inode (d ∷ ds) (signed32 d.filetype)
  later :
      (d : Dentry) (ds : List Dentry) (r : ℤ)
      → d.inode_num ≢ inode
      → FirstInode inode ds r
      → FirstInode inode (d ∷ ds) r

find_filetype_lem :
    (entries : List Dentry) (inode i : ℕ) (ds : List Dentry)
    → drop i entries ≡ ds
    → (r : ℤ) × FirstInode inode ds r × (find_filetype entries inode (length ds) i ≡ some r)
unfolding find_filetype
find_filetype_lem entries inode i [] e = (minus_one, nowhere, refl)
find_filetype_lem entries inode i (d ∷ ds) e =
    let (entry, left) = get_elem?-drop entries i e in
    let (r, first, found) = find_filetype_lem entries inode (suc i) ds left in
    elim (Bool-cases (inode == d.inode_num)) [
      | inl same ↦ (signed32 d.filetype, here d ds (ground arith), ground (arith, entry, same))
      | inr other ↦ (r, later d ds r (λ h. ground arith) first, ground (arith, entry, other, found))
    ]

-- On a valid image `get_filetype_from_inode` returns the file type of the first directory entry with
-- the inode number, and -1 if none has it.
pub get_filetype_from_inode_lem :
    (fs : FileSystem) (inode : ℕ)
    → IsValid fs
    → (r : ℤ) × FirstInode inode fs.origin.direntries r
      × (get_filetype_from_inode fs inode ≡ some r)
unfolding get_filetype_from_inode
get_filetype_from_inode_lem fs inode v =
    let (r, first, found) =
      find_filetype_lem fs.origin.direntries inode 0 fs.origin.direntries refl in
    (r, first, ap (λ (n : ℕ). find_filetype fs.origin.direntries inode n 0) (sym v.entries) ∙ found)
