-- ===== src/FileSystem/Found.antt =====
-- The name search again after an open of the same name, which writes the entry that it finds into the
-- last place of the directory.
use linux_os.Base.{
  ℕ, zero, suc, ◌≤◌, ◌<◌, ◌≡◌, refl, sym, ap, ◌∙◌, Option, none, some, List, [], ◌∷◌, arith, set,
  length-set,
}
use linux_os.Base.Int.{pos, minus_one}
use mathlib.Core.Path.{subst}
use mathlib.Core.Option.{some-injective}
use linux_os.Strings.{strlen}
use linux_os.Strings.Compare.{AllBytes, c_prefix}
use linux_os.FileSystem.{
  FileSystem, Dentry, entry_num, dentry_obj_index, set_dentry_obj, read_dentry_by_name, open_f,
}
use linux_os.FileSystem.Valid.{IsValid, IsValidDentry, AllDentries, get_elem?-total}
use linux_os.FileSystem.Lookup.{
  FirstNamed, nowhere, here, later, lookup_reply, read_dentry_by_name_lem,
}

FirstNamed-unique :
    {fname : List ℕ} {ds : List Dentry} {o o' : Option Dentry}
    → FirstNamed fname ds o
    → FirstNamed fname ds o'
    → o ≡ o'
FirstNamed-unique nowhere nowhere = refl
FirstNamed-unique (here d ds e) (here _ _ e') = refl
FirstNamed-unique (here d ds e) (later _ _ o ne rest) = absurd (ne e)
FirstNamed-unique (later d ds o ne rest) (here _ _ e) = absurd (ne e)
FirstNamed-unique (later d ds o ne rest) (later _ _ o' ne' rest') = FirstNamed-unique rest rest'

FirstNamed-c_prefix :
    {fname : List ℕ} {ds : List Dentry} {o : Option Dentry}
    → FirstNamed fname ds o
    → (d : Dentry) → o ≡ some d
    → c_prefix 32 d.filename ≡ c_prefix 32 fname
FirstNamed-c_prefix nowhere d e = cc
FirstNamed-c_prefix (here x ds same) d e =
    ap (λ (y : Dentry). c_prefix 32 y.filename) (sym (some-injective x d e)) ∙ same
FirstNamed-c_prefix (later x ds o ne rest) d e = FirstNamed-c_prefix rest d e

FirstNamed-set :
    {fname : List ℕ} {ds : List Dentry} {o : Option Dentry}
    → FirstNamed fname ds o
    → (d : Dentry) (i : ℕ) → o ≡ some d
    → FirstNamed fname (set ds i d) (some d)
FirstNamed-set nowhere d i e = cc
FirstNamed-set {fname = fname} (here x ds same) d zero e =
    here d ds (FirstNamed-c_prefix {fname = fname} (here x ds same) d e)
FirstNamed-set {fname = fname} (here x ds same) d (suc i) e =
    subst (λ (y : Dentry). FirstNamed fname (x ∷ set ds i d) (some y)) (some-injective x d e)
      (here x (set ds i d) same)
FirstNamed-set (later x ds o ne rest) d zero e = here d ds (FirstNamed-c_prefix rest d e)
FirstNamed-set (later x ds o ne rest) d (suc i) e =
    later x (set ds i d) (some d) ne (FirstNamed-set rest d i e)

FirstNamed-IsValidDentry :
    {fname : List ℕ} {ds : List Dentry} {o : Option Dentry}
    → FirstNamed fname ds o
    → AllDentries ds
    → (d : Dentry) → o ≡ some d
    → IsValidDentry d
FirstNamed-IsValidDentry nowhere all d e = cc
FirstNamed-IsValidDentry (here x ds same) all d e = subst IsValidDentry (some-injective x d e) all.0
FirstNamed-IsValidDentry (later x ds o ne rest) all d e = FirstNamed-IsValidDentry rest all.1 d e

AllDentries-set :
    (ds : List Dentry) (i : ℕ) (d : Dentry)
    → IsValidDentry d
    → AllDentries ds
    → AllDentries (set ds i d)
AllDentries-set [] i d v all = tt
AllDentries-set (x ∷ ds) zero d v all = (v, all.1)
AllDentries-set (x ∷ ds) (suc i) d v all = (all.0, AllDentries-set ds i d v all.1)

pub set_dentry_obj-IsValid :
    (fs : FileSystem) (d : Dentry) → IsValidDentry d → IsValid fs → IsValid (set_dentry_obj fs d)
set_dentry_obj-IsValid fs d vd v = record {
  entries = length-set fs.origin.direntries dentry_obj_index d ∙ v.entries;
  names = AllDentries-set fs.origin.direntries dentry_obj_index d vd v.names;
  inodes = v.inodes;
  data_blocks = v.data_blocks;
  nodes = λ k node found.
      let w = v.nodes k node found in
      record { blocks = w.blocks; fits = w.fits; in_range = w.in_range };
}

-- A name without an entry, or with one whose inode number is too large.
abbrev pub NotFound : Option Dentry → Type 0
NotFound none = Unit
NotFound (some d) = entry_num < d.inode_num

lookup_reply-missing :
    (old : Dentry) (o : Option Dentry) → NotFound o → lookup_reply old o ≡ (minus_one, old)
lookup_reply-missing old none missing = refl
lookup_reply-missing old (some d) missing = ground arith

module _ (fs : FileSystem) (fname : List ℕ) (bytes : AllBytes fname) {len : ℕ}
    (ended : strlen fname ≡ some len) (short : len ≤ 32) (v : IsValid fs) where
  pub read_dentry_by_name-found :
      (d old : Dentry)
      → FirstNamed fname fs.origin.direntries (some d)
      → d.inode_num ≤ entry_num
      → read_dentry_by_name fs (some fname) old ≡ some (pos 0, d)
  read_dentry_by_name-found d old first small =
      let (o, first', reply) = read_dentry_by_name_lem fs fname bytes ended old v short in
      reply
      ∙ ap (λ (o : Option Dentry). some (lookup_reply old o)) (FirstNamed-unique first' first)
      ∙ ground arith

  pub open_f-found :
      (d : Dentry)
      → FirstNamed fname fs.origin.direntries (some d)
      → d.inode_num ≤ entry_num
      → open_f fs (some fname) ≡ some (pos 0, set_dentry_obj fs d)
  unfolding open_f
  open_f-found d first small =
      let (old, found) =
        get_elem?-total fs.origin.direntries dentry_obj_index (omega (arith, v.entries)) in
      let reply = read_dentry_by_name-found d old first small in ground (arith, found, reply)

  -- An open of a name without an entry that can be opened puts back what the last place holds.
  pub open_f-missing :
      (o : Option Dentry)
      → FirstNamed fname fs.origin.direntries o
      → NotFound o
      → (old : Dentry) × (open_f fs (some fname) ≡ some (minus_one, set_dentry_obj fs old))
  unfolding open_f
  open_f-missing o first missing =
      let (old, found) =
        get_elem?-total fs.origin.direntries dentry_obj_index (omega (arith, v.entries)) in
      let (o', first', reply) = read_dentry_by_name_lem fs fname bytes ended old v short in
      let answer : read_dentry_by_name fs (some fname) old ≡ some (minus_one, old) =
        reply
        ∙ ap (λ (x : Option Dentry). some (lookup_reply old x)) (FirstNamed-unique first' first)
        ∙ ap some (lookup_reply-missing old o missing) in
      (old, ground (arith, found, answer))

  -- After the open the image is valid and the name has the same entry.
  pub set_dentry_obj-found :
      (d : Dentry)
      → FirstNamed fname fs.origin.direntries (some d)
      → IsValid (set_dentry_obj fs d)
        × FirstNamed fname (set_dentry_obj fs d).origin.direntries (some d)
  set_dentry_obj-found d first = (
    set_dentry_obj-IsValid fs d (FirstNamed-IsValidDentry first v.names d refl) v,
    FirstNamed-set first d dentry_obj_index refl,
  )
