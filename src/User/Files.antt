-- ===== src/User/Files.antt =====
-- cat of LinuxOS/syscalls on the kernel: reads of a file in pieces of 1024 bytes, up to the end of its
-- last block, and writes to the terminal.
use linux_os.Base.{
  ℕ, ◌+◌, ◌-◌, ◌*◌, ◌%◌, ◌≤◌, ◌<◌, ◌≡◌, ◌⊎◌, sym, ap, ◌∙◌, inl, inr, some, List, [], ◌∷◌, ◌++◌,
  arith, length, drop, get_elem?, length-append, length-drop,
}
use mathlib.Core.Path.{subst}
use mathlib.Core.List.{append_assoc}
use mathlib.Core.Option.{some-injective}
use linux_os.Base.Int.{ℤ, pos}
use linux_os.FileSystem.{FileSystem, Inode, block_size, read_data}
use linux_os.FileSystem.Valid.{IsValid, block_len}
use linux_os.FileSystem.Bytes.{length-file_bytes}
use linux_os.FileSystem.Read.{file_bytes}
use linux_os.FileSystem.Ends.{read_data-within, read_data-tail}
use linux_os.Process.{FileDescriptor, Kernel, file_file_op, descriptor}
use linux_os.Process.Reads.{read_f-read_data}
use linux_os.User.Kernel.{World, Environment, kernel}
use linux_os.User.Descriptors.{
  OpenFor, moved_to, world_with, descriptor-moved_to, OpenFor-moved_to, Shows, Shows-nil,
  Shows-append, read-read_f, write-Shows, Shows-active_term,
}
use linux_os.User.Copies.{Copying}

-- The bytes that reads of a file return before the first that returns none: those of its blocks but
-- the last one.
abbrev pub readable : Inode → ℕ
readable node = block_size * block_len node - 1

-- The chunks that reads of 1024 bytes return, from a position on.
pub data FileChunks (fs : FileSystem) (node : Inode) : ℕ → List (List ℕ) → Type 0 where
  done : (p : ℕ) → p ≡ readable node → FileChunks fs node p []
  whole :
      (p : ℕ) (c : List ℕ) (cs : List (List ℕ))
      → p % 1024 ≡ 0
      → p + 1024 ≤ readable node
      → file_bytes fs node p 1024 ≡ some c
      → FileChunks fs node (p + 1024) cs
      → FileChunks fs node p (c ∷ cs)
  part :
      (p : ℕ) (c : List ℕ)
      → p % 1024 ≡ 0
      → p + 1023 ≡ readable node
      → file_bytes fs node p 1023 ≡ some c
      → FileChunks fs node p (c ∷ [])

-- A descriptor of a file from which the reads give the chunks, beside the one of the terminal.
pub record FileLeft (fd : ℤ) (cs : List (List ℕ)) (k : Kernel) : Type 0 where
  pub index : ℕ
  pub open_for : OpenFor file_file_op fd index k
  pub valid : IsValid k.fs
  pub node : Inode
  pub present : get_elem? k.fs.inodes (descriptor k index).inode_num ≡ some node
  pub chunks : FileChunks k.fs node (descriptor k index).file_position cs

FileLeft-moved_to :
    {fd : ℤ} {cs cs' : List (List ℕ)} {k : Kernel} (p : ℕ) (l : FileLeft fd cs k)
    → FileChunks k.fs l.node p cs'
    → FileLeft fd cs' (moved_to l.index p k)
FileLeft-moved_to {fd} {cs} {cs'} {k} p l left =
    let here = sym (descriptor-moved_to k l.index p) in
    record {
      index = l.index;
      open_for = OpenFor-moved_to p l.open_for;
      valid = l.valid;
      node = l.node;
      present =
          subst (λ (x : FileDescriptor). get_elem? k.fs.inodes x.inode_num ≡ some l.node) here
            l.present;
      chunks = subst (λ (x : FileDescriptor). FileChunks k.fs l.node x.file_position cs') here left;
    }

position_fits :
    (fs : FileSystem) (inode : ℕ) (node : Inode)
    → IsValid fs
    → get_elem? fs.inodes inode ≡ some node
    → block_len node ≤ 1023
position_fits fs inode node v present = let w = v.nodes inode node present in w.fits

-- A read of 1024 bytes in terms of what `read_data` returns.
read-FileLeft :
    (env : Environment) (fd : ℤ) (cs cs' : List (List ℕ)) (buf : List ℕ) (w : World) (n : ℕ)
    (bytes : List ℕ) (l : FileLeft fd cs w.machine.kernel)
    → let d = descriptor w.machine.kernel l.index in
      read_data w.machine.kernel.fs d.inode_num d.file_position 1024 ≡ some (pos n, bytes)
      → length bytes ≤ length buf
      → d.file_position + n ≤ readable l.node
      → FileChunks w.machine.kernel.fs l.node (d.file_position + n) cs'
      → (w' : World) × ((kernel env).ece391_read buf fd (pos 1024) w
          ≡ some (pos n, bytes ++ drop (length bytes) buf, w'))
        × FileLeft fd cs' w'.machine.kernel
        × Shows [] w w'
read-FileLeft env fd cs cs' buf w n bytes l run room fits left =
    let k = w.machine.kernel in
    let i = l.index in
    let d = descriptor k i in
    let short = position_fits k.fs d.inode_num l.node l.valid l.present in
    let moved = read_f-read_data k i 1024 n bytes (omega arith) (omega arith) run in
    (
      world_with w (moved_to i (d.file_position + n) k),
      read-read_f env buf w fd 1024 n bytes i _ room l.open_for moved,
      FileLeft-moved_to (d.file_position + n) l left,
      Shows-nil w (moved_to i (d.file_position + n) k),
    )

FileChunks-nil :
    {fs : FileSystem} {node : Inode} {p : ℕ} → FileChunks fs node p [] → p ≡ readable node
FileChunks-nil (done p e) = e

FileChunks-cons :
    {fs : FileSystem} {node : Inode} {p : ℕ} {c : List ℕ} {cs : List (List ℕ)}
    → FileChunks fs node p (c ∷ cs)
    → (p % 1024 ≡ 0)
      × (file_bytes fs node p (length c) ≡ some c)
      × FileChunks fs node (p + length c) cs
      × (((length c ≡ 1024) × (p + 1024 ≤ readable node))
          ⊎ ((length c ≡ 1023) × (p + 1023 ≡ readable node)))
FileChunks-cons {fs} {node} (whole p c cs at fits bytes left) =
    let size = length-file_bytes fs node p 1024 bytes in
    (at, rw size bytes, rw size left, inl (size, fits))
FileChunks-cons {fs} {node} (part p c at fits bytes) =
    let size = length-file_bytes fs node p 1023 bytes in
    (at, rw size bytes, done (p + length c) (omega arith), inr (size, fits))

-- A read of a file that has chunks left gives the next.
read_chunk-FileLeft :
    (env : Environment) (fd : ℤ) (c : List ℕ) (cs : List (List ℕ)) (buf : List ℕ) (w : World)
    → FileLeft fd (c ∷ cs) w.machine.kernel
    → 1024 ≤ length buf
    → (rest : List ℕ) × (w' : World) × ((kernel env).ece391_read buf fd (pos 1024) w
        ≡ some (pos (length c), c ++ rest, w'))
      × (length c + length rest ≡ length buf)
      × (0 < length c)
      × (length c ≤ 1024)
      × FileLeft fd cs w'.machine.kernel
      × Shows [] w w'
read_chunk-FileLeft env fd c cs buf w l room =
    let k = w.machine.kernel in
    let d = descriptor k l.index in
    let (at, bytes, left, size) = FileChunks-cons l.chunks in
    elim size [
      | inl (whole_size, fits) ↦
          (let (bs, bytes', run) =
              read_data-within k.fs l.valid d.inode_num l.node l.present d.file_position 1024
                (omega arith) (omega arith) in
            let same : bs ≡ c = some-injective _ _ (sym bytes' ∙ rw whole_size at bytes) in
            let (w', reads, left', shown) =
              read-FileLeft env fd (c ∷ cs) cs buf w (length c) c l
                (run ∙ (λ i. some (pos (sym whole_size i), same i))) (omega arith) (omega arith)
                left in
            (
              drop (length c) buf,
              w',
              reads,
              omega (arith, length-drop (length c) buf),
              omega arith,
              omega arith,
              left',
              shown,
            ))
      | inr (part_size, fits) ↦
          (let (bs, last, bytes', run) =
              read_data-tail k.fs l.valid d.inode_num l.node l.present d.file_position 1023 1024
                (omega arith) (omega arith) (omega arith) in
            let same : bs ≡ c = some-injective _ _ (sym bytes' ∙ rw part_size at bytes) in
            let stored = c ++ last ∷ [] in
            let longer : length stored ≡ 1024 = omega (arith, length-append c (last ∷ [])) in
            let (w', reads, left', shown) =
              read-FileLeft env fd (c ∷ cs) cs buf w (length c) stored l
                (run ∙ (λ i. some (pos (sym part_size i), same i ++ last ∷ []))) (omega arith)
                (omega arith) left in
            (
              last ∷ drop (length stored) buf,
              w',
              reads
                  ∙ ap (λ (m : List ℕ). some (pos (length c), m, w'))
                      (append_assoc c (last ∷ []) (drop (length stored) buf)),
              omega (arith, length-drop (length stored) buf),
              omega arith,
              omega arith,
              left',
              shown,
            ))
    ]

read_end-FileLeft :
    (env : Environment) (fd : ℤ) (buf : List ℕ) (w : World)
    → FileLeft fd [] w.machine.kernel
    → 1024 ≤ length buf
    → (buf' : List ℕ) × (w' : World) × ((kernel env).ece391_read buf fd (pos 1024) w
        ≡ some (pos 0, buf', w'))
      × Shows [] w w'
read_end-FileLeft env fd buf w l room =
    let k = w.machine.kernel in
    let d = descriptor k l.index in
    let at_end = FileChunks-nil l.chunks in
    let (bs, last, bytes, run) =
      read_data-tail k.fs l.valid d.inode_num l.node l.present d.file_position 0 1024 (omega arith)
        (omega arith) (omega arith) in
    let none_left : length bs ≡ 0 = length-file_bytes k.fs l.node d.file_position 0 bytes in
    let (w', reads, left', shown) =
      read-FileLeft env fd [] [] buf w 0 (bs ++ last ∷ []) l run
        (omega (arith, length-append bs (last ∷ []))) (omega arith)
        (subst (λ (p : ℕ). FileChunks k.fs l.node p []) (omega arith) l.chunks) in
    (_, w', reads, shown)

write-FileLeft :
    (env : Environment) (fd : ℤ) (bs rest : List ℕ) (cs : List (List ℕ)) (w : World)
    → FileLeft fd cs w.machine.kernel
    → w.machine.console.active_term < 3
    → 0 < length bs
    → length bs ≤ 1025
    → (w' : World) × ((kernel env).ece391_write (bs ++ rest) (pos 1) (pos (length bs)) w
        ≡ some (pos (length bs), w'))
      × FileLeft fd cs w'.machine.kernel
      × Shows bs w w'
write-FileLeft env fd bs rest cs w l on_screen some_bytes short =
    let (w', run, same, shown) =
      write-Shows env bs rest w l.open_for.is_terminal on_screen some_bytes (omega arith) in
    (w', run, subst (FileLeft fd cs) (sym same) l, shown)

-- The calls of the kernel keep what cat relies on.
pub kernel-Copying_file :
    (env : Environment)
    → Copying
        (kernel env)
        1024
        (λ fd cs w. FileLeft fd cs w.machine.kernel × (w.machine.console.active_term < 3))
        Shows
kernel-Copying_file env = record {
  read_chunk = λ fd c cs buf w l room.
      let (rest, w', reads, size, positive, short, left, shown) =
        read_chunk-FileLeft env fd c cs buf w l.0 room in
      let low = Shows-active_term [] w w' shown l.1 in
      (rest, w', reads, size, positive, short, (left, low), shown);
  read_end = λ fd buf w l room. read_end-FileLeft env fd buf w l.0 room;
  write_prints = λ fd bs rest cs w l some_bytes short.
      let (w', run, left, shown) = write-FileLeft env fd bs rest cs w l.0 l.1 some_bytes short in
      (w', run, (left, Shows-active_term bs w w' shown l.1), shown);
  Prints-append = Shows-append;
}
