-- ===== src/FileSystem/Lookup.antt =====
-- What a search of the directory finds: `read_dentry_by_name` against the list of entries.
use linux_os.Base.{
  get_elem?-drop, ℕ, suc, ◌≤◌, ◌≡◌, ◌≢◌, inl, inr, refl, sym, ap, ◌∙◌, Bool, Option, none, some,
  List, [], ◌∷◌, arith, ltb, if◌then◌else◌, Bool-cases, length, get_elem?, drop,
}
use linux_os.Base.Int.{ℤ, pos, minus_one, ◌==ℤ◌, ==ℤ_iff_true, ==ℤ_iff_false}
use linux_os.Strings.{strlen, strncmp}
use linux_os.Strings.Compare.{AllBytes, c_prefix, strncmp-zero_iff, strncmp-total}
use linux_os.FileSystem.{
  FileSystem, Dentry, read_dentry_by_index, find_dentry, read_dentry_by_name, entry_num,
}
use linux_os.FileSystem.Valid.{IsValid, AllDentries}

-- The first entry of a directory that has a name, if there is one.
pub data FirstNamed (fname : List ℕ) : List Dentry → Option Dentry → Type 0 where
  nowhere : FirstNamed fname [] none
  here :
      (d : Dentry) (ds : List Dentry)
      → c_prefix 32 d.filename ≡ c_prefix 32 fname
      → FirstNamed fname (d ∷ ds) (some d)
  later :
      (d : Dentry) (ds : List Dentry) (o : Option Dentry)
      → c_prefix 32 d.filename ≢ c_prefix 32 fname
      → FirstNamed fname ds o
      → FirstNamed fname (d ∷ ds) o

-- What the caller gets: an entry whose inode number is above 63 counts as missing.
abbrev pub lookup_reply : Dentry → Option Dentry → ℤ × Dentry
lookup_reply old none = (minus_one, old)
lookup_reply old (some d) = if ltb entry_num d.inode_num then (minus_one, old) else (pos 0, d)

module _ (fs : FileSystem) (fname : List ℕ) (bytes : AllBytes fname) {len : ℕ}
    (ended : strlen fname ≡ some len) (old : Dentry) where
  find_dentry_round :
      (rounds idx : ℕ) (d : Dentry) (r : ℤ)
      → get_elem? fs.origin.direntries idx ≡ some d
      → strncmp d.filename fname 32 ≡ some r
      → find_dentry fs fname (suc rounds) idx old ≡ (
          if r ==ℤ pos 0
          then some (lookup_reply old (some d))
          else find_dentry fs fname rounds (suc idx) old)
  unfolding find_dentry read_dentry_by_index
  find_dentry_round rounds idx d r entry compared = ground arith

  find_dentry_lem :
      (ds : List Dentry) (idx : ℕ)
      → drop idx fs.origin.direntries ≡ ds
      → AllDentries ds
      → (o : Option Dentry) × FirstNamed fname ds o
        × (find_dentry fs fname (length ds) idx old ≡ some (lookup_reply old o))
  unfolding find_dentry
  find_dentry_lem [] idx e v = (none, nowhere, refl)
  find_dentry_lem (d ∷ ds) idx e v =
      let (entry, left) = get_elem?-drop fs.origin.direntries idx e in
      let (r, compared) = strncmp-total 32 d.filename fname (omega (arith, v.0.name_len)) ended in
      let zero_iff = strncmp-zero_iff 32 d.filename fname r v.0.name_bytes bytes compared in
      let round = find_dentry_round (length ds) idx d r entry compared in
      let (o, first, found) = find_dentry_lem ds (suc idx) left v.1 in
      elim (Bool-cases (r ==ℤ pos 0)) [
        | inl same ↦ (
          some d,
          here d ds (zero_iff.0 (==ℤ_iff_true r (pos 0) same)),
          round
              ∙ ap
                  (λ (b : Bool).
                    if b
                    then some (lookup_reply old (some d))
                    else find_dentry fs fname (length ds) (suc idx) old)
                  same,
        )
        | inr other ↦ (
          o,
          later d ds o (λ h. ==ℤ_iff_false r (pos 0) other (zero_iff.1 h)) first,
          round
              ∙ ap
                  (λ (b : Bool).
                    if b
                    then some (lookup_reply old (some d))
                    else find_dentry fs fname (length ds) (suc idx) old)
                  other
              ∙ found,
        )
      ]

  read_dentry_by_name_short :
      len ≤ 32 → read_dentry_by_name fs (some fname) old ≡ find_dentry fs fname entry_num 0 old
  unfolding read_dentry_by_name
  read_dentry_by_name_short short = ground arith

  -- `read_dentry_by_name` returns 0 and the first entry that has the name, unless its inode number
  -- is above 63; in that case, or if no entry has the name, it returns -1 and leaves the
  -- out-parameter alone. The name has at most 32 bytes, and the image is valid.
  pub read_dentry_by_name_lem :
      IsValid fs
      → len ≤ 32
      → (o : Option Dentry) × FirstNamed fname fs.origin.direntries o
        × (read_dentry_by_name fs (some fname) old ≡ some (lookup_reply old o))
  read_dentry_by_name_lem v short =
      let (o, first, found) = find_dentry_lem fs.origin.direntries 0 refl v.names in
      (
        o,
        first,
        read_dentry_by_name_short short
            ∙ ap (λ (n : ℕ). find_dentry fs fname n 0 old) (sym v.entries)
            ∙ found,
      )
