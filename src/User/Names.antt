-- ===== src/User/Names.antt =====
-- The names that reads of the directory give, one after the other.
use linux_os.Base.{
  ℕ, zero, suc, ◌+◌, ◌≤◌, ◌<◌, ◌≡◌, ◌≢◌, refl, sym, ap, ◌∙◌, inl, inr, some, List, [], ◌∷◌, ◌++◌,
  arith, length, drop, get_elem?, length-drop, if◌then◌else◌, ◌==◌, ==_iff, false, get_elem?-drop,
  ltb, Bool-cases,
}
use mathlib.Core.Path.{subst}
use linux_os.Base.Int.{pos, ◌-ℤ◌}
use linux_os.Strings.{strncmp}
use linux_os.Strings.Compare.{c_prefix}
use linux_os.FileSystem.{FileSystem, Dentry, read_d_at}
use linux_os.FileSystem.Valid.{IsValid, IsValidDentry, AllDentries, lt_of_get_elem?}
use linux_os.FileSystem.Listing.{read_d_at-entry}

-- The names of the entries up to the first entry without one.
abbrev pub listed : List Dentry → List (List ℕ)
listed [] = []
listed (d ∷ ds) =
    if length (c_prefix 32 d.filename) == 0 then [] else c_prefix 32 d.filename ∷ listed ds

pub length-listed : (ds : List Dentry) → length (listed ds) ≤ length ds
length-listed [] = omega arith
length-listed (d ∷ ds) = ground (arith, length-listed ds)

AllDentries-drop :
    (ds : List Dentry) (p : ℕ) {d : Dentry} {rest : List Dentry}
    → AllDentries ds
    → drop p ds ≡ d ∷ rest
    → IsValidDentry d
AllDentries-drop [] zero all e = cc
AllDentries-drop [] (suc p) all e = cc
AllDentries-drop (x ∷ ds) zero {d} {rest} all e = subst IsValidDentry (head e) all.0
  where
    head : {a b : Dentry} {xs ys : List Dentry} → a ∷ xs ≡ b ∷ ys → a ≡ b
    head h = cc
AllDentries-drop (x ∷ ds) (suc p) all e = AllDentries-drop ds p all.1 e

drop-nil : (ds : List Dentry) (p : ℕ) → drop p ds ≡ [] → length ds ≤ p
drop-nil [] p e = omega arith
drop-nil (d ∷ ds) zero e = cc
drop-nil (d ∷ ds) (suc p) e = omega (arith, drop-nil ds p e)

-- A directory read past the last entry, or at one without a name, returns 0.
read_d_at-end : (fs : FileSystem) (p : ℕ) → 63 ≤ p → read_d_at fs p (pos 32) ≡ some (pos 0, [])
unfolding read_d_at
read_d_at-end fs p h = ground arith

read_d_at-empty :
    (fs : FileSystem) (p : ℕ) (d : Dentry) (rest : List ℕ)
    → p < 63
    → get_elem? fs.origin.direntries p ≡ some d
    → d.filename ≡ 0 ∷ rest
    → read_d_at fs p (pos 32) ≡ some (pos 0, [])
unfolding read_d_at strncmp ◌-ℤ◌
read_d_at-empty fs p d rest inside present named = ground (arith, present, named)

c_prefix-split : (n : ℕ) (s : List ℕ) → s ≡ c_prefix n s ++ drop (length (c_prefix n s)) s
c_prefix-split zero s = refl
c_prefix-split (suc n) [] = refl
c_prefix-split (suc n) (c ∷ s) = elim (Bool-cases (c == 0)) [
  | inl stop ↦ rw stop refl
  | inr more ↦ rw more (ap (λ (l : List ℕ). c ∷ l) (c_prefix-split n s))
]

length-c_prefix : (n : ℕ) (s : List ℕ) → length (c_prefix n s) ≤ n
length-c_prefix zero s = omega arith
length-c_prefix (suc n) [] = omega arith
length-c_prefix (suc n) (c ∷ s) = ground (arith, length-c_prefix n s)

-- A name with bytes has a first byte that is not zero, and one without starts with a zero.
zero_named : (n c : ℕ) (s : List ℕ) → c ≡ 0 → length (c_prefix (suc n) (c ∷ s)) ≡ 0
zero_named n c s e = ground arith

nonzero_named : (n c : ℕ) (s : List ℕ) → length (c_prefix (suc n) (c ∷ s)) ≡ 0 → c ≡ 0
nonzero_named n c s e = ground arith

named :
    (s : List ℕ) → 0 < length (c_prefix 32 s) → (c : ℕ) × (rest : List ℕ) × (s ≡ c ∷ rest) × (c ≢ 0)
named [] h = absurd (omega arith)
named (c ∷ s) h = (c, s, refl, λ e. omega (arith, zero_named 31 c s e))

unnamed :
    (s : List ℕ) → length s ≡ 32 → length (c_prefix 32 s) ≡ 0 → (rest : List ℕ) × (s ≡ 0 ∷ rest)
unnamed [] size h = absurd (omega arith)
unnamed (c ∷ s) size h = (s, ap (λ (x : ℕ). x ∷ s) (nonzero_named 31 c s h))

pub record NextName (fs : FileSystem) (p : ℕ) (c : List ℕ) (cs : List (List ℕ)) : Type 0 where
  pub rest : List ℕ
  pub reads : read_d_at fs p (pos 32) ≡ some (pos (length c), c ++ rest)
  pub size : length c + length rest ≡ 32
  pub positive : 0 < length c
  pub inside : p < 63
  pub left : cs ≡ listed (drop (suc p) fs.origin.direntries)

positive_of_test : (n : ℕ) → n == 0 ≡ false → 0 < n
positive_of_test n h = ground arith

-- A name that fills its 32 bytes counts 32 as well.
name_count : (n : ℕ) → n ≤ 32 → (if ltb n 32 then pos n else pos 32) ≡ pos n
name_count n h = ground arith

pub next_name :
    (fs : FileSystem) (p : ℕ) (c : List ℕ) (cs : List (List ℕ)) (ds : List Dentry)
    → IsValid fs
    → drop p fs.origin.direntries ≡ ds
    → c ∷ cs ≡ listed ds
    → NextName fs p c cs
next_name fs p c cs [] v e h = cc
next_name fs p c cs (d ∷ ds) v e h = elim (Bool-cases (length (c_prefix 32 d.filename) == 0)) [
  | inl empty ↦ absurd (let nothing : c ∷ cs ≡ [] = h ∙ rw empty refl in cc)
  | inr full ↦
      (let name = c_prefix 32 d.filename in
        let both : c ∷ cs ≡ name ∷ listed ds = h ∙ rw full refl in
        let heads : c ≡ name = cc in
        let tails : cs ≡ listed ds = cc in
        let (entry, further) = get_elem?-drop fs.origin.direntries p e in
        let vd = AllDentries-drop fs.origin.direntries p v.names e in
        let below = lt_of_get_elem? fs.origin.direntries p entry in
        let (b, others, spelled, away) = named d.filename (positive_of_test (length name) full) in
        let others_size = length-c_prefix 32 d.filename in
        let count : (if ltb (length name) 32 then pos (length name) else pos 32)
            ≡ pos (length name) =
          name_count (length name) others_size in
        let read =
          read_d_at-entry fs p b others d (pos 32) vd (omega (arith, v.entries)) entry spelled
            away in
        subst (λ (x : List ℕ). NextName fs p x cs) (sym heads)
          (record {
            rest = drop (length name) d.filename;
            reads = read ∙ (λ i. some (count i, c_prefix-split 32 d.filename i));
            size = omega (arith, length-drop (length name) d.filename, vd.name_len);
            positive = positive_of_test (length name) full;
            inside = omega (arith, v.entries);
            left = tails ∙ ap listed (sym further);
          }))
]

-- A directory without names left gives nothing.
pub no_name :
    (fs : FileSystem) (p : ℕ) (ds : List Dentry)
    → IsValid fs
    → drop p fs.origin.direntries ≡ ds
    → [] ≡ listed ds
    → read_d_at fs p (pos 32) ≡ some (pos 0, [])
no_name fs p [] v e h =
    read_d_at-end fs p (omega (arith, drop-nil fs.origin.direntries p e, v.entries))
no_name fs p (d ∷ ds) v e h = elim (Bool-cases (length (c_prefix 32 d.filename) == 0)) [
  | inl empty ↦
      (let (entry, further) = get_elem?-drop fs.origin.direntries p e in
        let vd = AllDentries-drop fs.origin.direntries p v.names e in
        let below = lt_of_get_elem? fs.origin.direntries p entry in
        let (rest, spelled) =
          unnamed d.filename vd.name_len ((==_iff (length (c_prefix 32 d.filename)) 0).0 empty) in
        read_d_at-empty fs p d rest (omega (arith, v.entries)) entry spelled)
  | inr full ↦
      absurd (let some_name : [] ≡ c_prefix 32 d.filename ∷ listed ds = h ∙ rw full refl in cc)
]
