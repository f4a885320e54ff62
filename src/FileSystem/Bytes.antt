-- ===== src/FileSystem/Bytes.antt =====
-- The bytes of a file, one by one, and their independence of the directory.
use linux_os.Base.{
  ℕ, zero, suc, ◌+◌, ◌<◌, ◌≡◌, refl, sym, ap, ◌∙◌, some, List, ◌∷◌, arith, >>=-eq-some, length,
  get_or,
}
use linux_os.FileSystem.{FileSystem, Dentry, Inode, set_dentry_obj}
use linux_os.FileSystem.Read.{file_byte, file_bytes}

module _ (fs : FileSystem) (node : Inode) where
  -- The first byte, and the others.
  pub file_bytes-suc :
      (p n : ℕ) {bs : List ℕ}
      → file_bytes fs node p (suc n) ≡ some bs
      → (b : ℕ) × (rest : List ℕ) × (file_byte fs node p ≡ some b)
        × (file_bytes fs node (suc p) n ≡ some rest)
        × (bs ≡ b ∷ rest)
  unfolding file_bytes
  file_bytes-suc p n e =
      let (b, first, e') = >>=-eq-some (file_byte fs node p) _ e in
      let (rest, others, e'') = >>=-eq-some (file_bytes fs node (suc p) n) _ e' in
      (b, rest, first, others, ground (arith, e''))

  pub length-file_bytes : (p n : ℕ) {bs : List ℕ} → file_bytes fs node p n ≡ some bs → length bs ≡ n
  unfolding file_bytes
  length-file_bytes p zero e = ground arith
  length-file_bytes p (suc n) e =
      let (b, rest, first, others, split) = file_bytes-suc p n e in
      ap length split ∙ ap suc (length-file_bytes (suc p) n others)

  pub file_byte-get_or :
      (p n i : ℕ) {bs : List ℕ}
      → file_bytes fs node p n ≡ some bs
      → i < n
      → file_byte fs node (p + i) ≡ some (get_or bs i 0)
  file_byte-get_or p zero i e h = absurd (omega arith)
  file_byte-get_or p (suc n) zero e h =
      let (b, rest, first, others, split) = file_bytes-suc p n e in
      ap (file_byte fs node) (omega arith)
      ∙ first
      ∙ ap (λ (l : List ℕ). some (get_or l 0 0)) (sym split)
  file_byte-get_or p (suc n) (suc i) e h =
      let (b, rest, first, others, split) = file_bytes-suc p n e in
      ap (file_byte fs node) (omega arith)
      ∙ file_byte-get_or (suc p) n i others (omega arith)
      ∙ ap (λ (l : List ℕ). some (get_or l (suc i) 0)) (sym split)

  pub file_bytes-set_dentry_obj :
      (d : Dentry) (p n : ℕ) → file_bytes (set_dentry_obj fs d) node p n ≡ file_bytes fs node p n
  unfolding file_bytes
  file_bytes-set_dentry_obj d p zero = refl
  file_bytes-set_dentry_obj d p (suc n) = ground (arith, file_bytes-set_dentry_obj d (suc p) n)
