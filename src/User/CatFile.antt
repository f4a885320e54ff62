-- ===== src/User/CatFile.antt =====
-- What cat of LinuxOS/syscalls shows of a file on this kernel.
use linux_os.Base.{
  ℕ, zero, suc, ◌+◌, ◌-◌, ◌*◌, ◌%◌, ◌≤◌, ◌<◌, ◌≡◌, refl, sym, ap, ◌∙◌, some, List, [], ◌∷◌, ◌++◌,
  arith, length, get_elem?,
}
use mathlib.Core.Path.{subst}
use mathlib.Core.Option.{some-injective}
use mathlib.Core.List.{append-nil}
use linux_os.Base.Int.{pos}
use linux_os.FileSystem.{FileSystem, Inode, block_size}
use linux_os.FileSystem.Valid.{IsValid, block_len}
use linux_os.FileSystem.Bytes.{file_bytes-suc}
use linux_os.FileSystem.Read.{file_bytes}
use linux_os.FileSystem.Ends.{read_data-within, read_data-tail}
use linux_os.Process.{file_file_op, stdout_file_op, descriptor}
use linux_os.Terminal.Laws.{print_bytes}
use linux_os.User.{exited}
use linux_os.User.Kernel.{World, Environment, kernel}
use linux_os.User.Copies.{concat, cat_loop-Prints}
use linux_os.User.Files.{readable, FileChunks, part, whole, FileLeft, kernel-Copying_file}
use linux_os.User.Programs.{cat_loop}

file_bytes-append :
    (fs : FileSystem) (node : Inode) (p m n : ℕ) {xs ys : List ℕ}
    → file_bytes fs node p m ≡ some xs
    → file_bytes fs node (p + m) n ≡ some ys
    → file_bytes fs node p (m + n) ≡ some (xs ++ ys)
unfolding file_bytes
file_bytes-append fs node p zero n {xs} {ys} e e' =
    let nothing : xs ≡ [] = sym (some-injective _ _ e) in
    ap (file_bytes fs node p) (omega arith)
    ∙ ap (λ (q : ℕ). file_bytes fs node q n) (omega arith)
    ∙ e'
    ∙ ap (λ (l : List ℕ). some (l ++ ys)) (sym nothing)
file_bytes-append fs node p (suc m) n {xs} {ys} e e' =
    let (b, rest, first, others, split) = file_bytes-suc fs node p m e in
    let tail =
      file_bytes-append fs node (suc p) m n others
        (ap (λ (q : ℕ). file_bytes fs node q n) (omega arith) ∙ e') in
    let count : suc m + n ≡ suc (m + n) = omega arith in
    let joined : file_bytes fs node p (suc (m + n)) ≡ some (b ∷ (rest ++ ys)) =
      rw (first, tail) refl in
    ap (file_bytes fs node p) count ∙ joined ∙ ap (λ (l : List ℕ). some (l ++ ys)) (sym split)

module _ (fs : FileSystem) (v : IsValid fs) (inode : ℕ) (node : Inode)
    (present : get_elem? fs.inodes inode ≡ some node) where
  -- The chunks of a file from a position on, `m` of them whole.
  FileChunks-total :
      (m p : ℕ)
      → p % 1024 ≡ 0
      → p + 1024 * m + 1023 ≡ readable node
      → (cs : List (List ℕ)) × FileChunks fs node p cs
        × (file_bytes fs node p (1024 * m + 1023) ≡ some (concat cs))
        × (length cs ≡ suc m)
  FileChunks-total zero p at fits =
      let (c, last, bytes, run) =
        read_data-tail fs v inode node present p 1023 1024 (omega arith) (omega arith)
          (omega arith) in
      (c ∷ [], part p c at (omega arith) bytes, bytes ∙ ap some (sym (append-nil c)), refl)
  FileChunks-total (suc m) p at fits =
      let (c, bytes, run) =
        read_data-within fs v inode node present p 1024 (omega arith) (omega arith) in
      let (cs, chunks, others, count) = FileChunks-total m (p + 1024) (omega arith) (omega arith) in
      (
        c ∷ cs,
        whole p c cs at (omega arith) bytes chunks,
        ap (file_bytes fs node p) (omega arith)
            ∙ file_bytes-append fs node p 1024 (1024 * m + 1023) bytes others,
        ap suc count,
      )

-- The loop of cat on an open file, from its beginning on, returns 0 after less rounds than are given.
-- It has then shown the bytes of all of the file's blocks but the very last one, whatever the file's
-- length is, without the zeros. The image is valid, the descriptor is one of 2 to 7 and its inode
-- exists, descriptor 1 is the terminal and the active one of the three, the buffer has 1024 bytes and each block counts four rounds.
pub cat_loop-file :
    (env : Environment) (w : World) (fd rounds : ℕ) (buf : List ℕ) (node : Inode)
    → let k = w.machine.kernel in
      IsValid k.fs
      → get_elem? k.fs.inodes (descriptor k fd).inode_num ≡ some node
      → 2 ≤ fd
      → fd < 8
      → (descriptor k fd).flag ≡ 1
      → (descriptor k fd).jmp_pointer ≡ file_file_op
      → (descriptor k fd).file_position ≡ 0
      → (descriptor k 1).jmp_pointer ≡ stdout_file_op
      → w.machine.console.active_term < 3
      → 1024 ≤ length buf
      → 4 * block_len node < rounds
      → (bs : List ℕ) × (w' : World) × (file_bytes k.fs node 0 (block_size * block_len node - 1)
          ≡ some bs)
        × (cat_loop (kernel env) rounds (pos fd) buf w ≡ some (exited (pos 0) w'))
        × (w'.machine.console ≡ print_bytes bs w.machine.console)
cat_loop-file env w fd rounds buf node v present low high used is_file start is_terminal on_screen
      room enough =
    let k = w.machine.kernel in
    let (cs, chunks, bytes, count) =
      FileChunks-total k.fs v (descriptor k fd).inode_num node present (4 * block_len node - 1) 0
        (omega arith) (omega arith) in
    let left : FileLeft (pos fd) cs k = record {
      index = fd;
      open_for = record {
        is_index = refl;
        low = low;
        high = high;
        in_use = used;
        is_table = is_file;
        is_terminal = is_terminal;
      };
      valid = v;
      node = node;
      present = present;
      chunks = subst (λ (p : ℕ). FileChunks k.fs node p cs) (sym start) chunks;
    } in
    let (w', run, shown) =
      cat_loop-Prints (kernel env) (kernel-Copying_file env) cs rounds (pos fd) buf w
        (left, on_screen) room (omega arith) in
    (concat cs, w', ap (file_bytes k.fs node 0) (omega arith) ∙ bytes, run, shown)
