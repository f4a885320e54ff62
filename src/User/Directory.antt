-- ===== src/User/Directory.antt =====
-- ls of LinuxOS/syscalls on the kernel: reads of the directory, one name each, and writes to the terminal.
use linux_os.Base.{
  ℕ, suc, ◌+◌, ◌^◌, ◌%◌, ◌≤◌, ◌<◌, ◌≡◌, refl, sym, ap, ◌∙◌, some, List, [], ◌∷◌, ◌++◌, arith,
  length, drop, length-append, length-drop,
}
use mathlib.Core.Path.{subst}
use mathlib.Core.List.{append_assoc}
use linux_os.Base.Int.{ℤ, pos}
use linux_os.FileSystem.{read_d_at}
use linux_os.FileSystem.Valid.{IsValid}
use linux_os.User.Names.{listed, length-listed, next_name, no_name}
use linux_os.Process.{FileDescriptor, Kernel, directory_file_op, stdout_file_op, descriptor, read_d}
use linux_os.User.{exited}
use linux_os.User.Kernel.{World, Environment, kernel}
use linux_os.User.Descriptors.{
  OpenFor, moved_to, world_with, descriptor-moved_to, OpenFor-moved_to, Shows, Shows-nil,
  Shows-append, read-read_d, write-Shows, Shows-active_term,
}
use linux_os.User.Copies.{Copying, lines, ls_loop-Prints}
use linux_os.User.Programs.{ls_loop}
use linux_os.Terminal.Laws.{print_bytes}

-- A descriptor of the directory, from which the reads give the names of the entries that are left.
pub record DirectoryLeft (fd : ℤ) (cs : List (List ℕ)) (k : Kernel) : Type 0 where
  pub index : ℕ
  pub open_for : OpenFor directory_file_op fd index k
  pub valid : IsValid k.fs
  pub left : cs ≡ listed (drop (descriptor k index).file_position k.fs.origin.direntries)

-- A read of 32 bytes in terms of what `read_d_at` returns.
read-directory :
    (env : Environment) (fd : ℤ) (i : ℕ) (buf : List ℕ) (w : World) (n : ℕ) (bytes : List ℕ)
    → OpenFor directory_file_op fd i w.machine.kernel
    → let p = (descriptor w.machine.kernel i).file_position in
      read_d_at w.machine.kernel.fs p (pos 32) ≡ some (pos n, bytes)
      → length bytes ≤ length buf
      → (kernel env).ece391_read buf fd (pos 32) w
        ≡ some (
          pos n,
          bytes ++ drop (length bytes) buf,
          world_with w (moved_to i ((p + 1) % 2 ^ 32) w.machine.kernel),
        )
unfolding read_d
read-directory env fd i buf w n bytes o run room =
    read-read_d env buf w fd 32 n bytes i _ room o (rw run refl)

read_chunk-DirectoryLeft :
    (env : Environment) (fd : ℤ) (c : List ℕ) (cs : List (List ℕ)) (buf : List ℕ) (w : World)
    → DirectoryLeft fd (c ∷ cs) w.machine.kernel
    → 32 ≤ length buf
    → (rest : List ℕ) × (w' : World) × ((kernel env).ece391_read buf fd (pos 32) w
        ≡ some (pos (length c), c ++ rest, w'))
      × (length c + length rest ≡ length buf)
      × (0 < length c)
      × (length c ≤ 32)
      × DirectoryLeft fd cs w'.machine.kernel
      × Shows [] w w'
read_chunk-DirectoryLeft env fd c cs buf w l room =
    let k = w.machine.kernel in
    let p = (descriptor k l.index).file_position in
    let name = next_name k.fs p c cs (drop p k.fs.origin.direntries) l.valid refl l.left in
    let stored = c ++ name.rest in
    let size : length stored ≡ 32 = omega (arith, length-append c name.rest, name.size) in
    let reads =
      read-directory env fd l.index buf w (length c) stored l.open_for name.reads (omega arith) in
    let here = descriptor-moved_to k l.index ((p + 1) % 2 ^ 32) in
    let next : (p + 1) % 2 ^ 32 ≡ suc p = omega (arith, name.inside) in
    let k' = moved_to l.index ((p + 1) % 2 ^ 32) k in
    (
      name.rest ++ drop (length stored) buf,
      world_with w k',
      reads
          ∙ ap (λ (m : List ℕ). some (pos (length c), m, world_with w k'))
              (append_assoc c name.rest (drop (length stored) buf)),
      omega (
        arith,
        length-append name.rest (drop (length stored) buf),
        length-drop (length stored) buf,
        size,
        name.size,
      ),
      name.positive,
      omega (arith, name.size),
      record {
        index = l.index;
        open_for = OpenFor-moved_to ((p + 1) % 2 ^ 32) l.open_for;
        valid = l.valid;
        left =
            name.left
            ∙ ap (λ (q : ℕ). listed (drop q k.fs.origin.direntries)) (sym next)
            ∙ ap (λ (x : FileDescriptor). listed (drop x.file_position k.fs.origin.direntries))
                (sym here);
      },
      Shows-nil w k',
    )

read_end-DirectoryLeft :
    (env : Environment) (fd : ℤ) (buf : List ℕ) (w : World)
    → DirectoryLeft fd [] w.machine.kernel
    → 32 ≤ length buf
    → (buf' : List ℕ) × (w' : World) × ((kernel env).ece391_read buf fd (pos 32) w
        ≡ some (pos 0, buf', w'))
      × Shows [] w w'
read_end-DirectoryLeft env fd buf w l room =
    let k = w.machine.kernel in
    let p = (descriptor k l.index).file_position in
    let nothing = no_name k.fs p (drop p k.fs.origin.direntries) l.valid refl l.left in
    (
      _,
      _,
      read-directory env fd l.index buf w 0 [] l.open_for nothing (omega arith),
      Shows-nil w (moved_to l.index ((p + 1) % 2 ^ 32) k),
    )

write-DirectoryLeft :
    (env : Environment) (fd : ℤ) (bs rest : List ℕ) (cs : List (List ℕ)) (w : World)
    → DirectoryLeft fd cs w.machine.kernel
    → w.machine.console.active_term < 3
    → 0 < length bs
    → length bs ≤ 33
    → (w' : World) × ((kernel env).ece391_write (bs ++ rest) (pos 1) (pos (length bs)) w
        ≡ some (pos (length bs), w'))
      × DirectoryLeft fd cs w'.machine.kernel
      × Shows bs w w'
write-DirectoryLeft env fd bs rest cs w l on_screen some_bytes short =
    let (w', run, same, shown) =
      write-Shows env bs rest w l.open_for.is_terminal on_screen some_bytes (omega arith) in
    (w', run, subst (DirectoryLeft fd cs) (sym same) l, shown)

-- The calls of the kernel keep what ls relies on.
pub kernel-Copying_directory :
    (env : Environment)
    → Copying
        (kernel env)
        32
        (λ fd cs w. DirectoryLeft fd cs w.machine.kernel × (w.machine.console.active_term < 3))
        Shows
kernel-Copying_directory env = record {
  read_chunk = λ fd c cs buf w l room.
      let (rest, w', reads, size, positive, short, left, shown) =
        read_chunk-DirectoryLeft env fd c cs buf w l.0 room in
      let low = Shows-active_term [] w w' shown l.1 in
      (rest, w', reads, size, positive, short, (left, low), shown);
  read_end = λ fd buf w l room. read_end-DirectoryLeft env fd buf w l.0 room;
  write_prints = λ fd bs rest cs w l some_bytes short.
      let (w', run, left, shown) =
        write-DirectoryLeft env fd bs rest cs w l.0 l.1 some_bytes short in
      (w', run, (left, Shows-active_term bs w w' shown l.1), shown);
  Prints-append = Shows-append;
}

-- The loop of ls on an open directory, from its beginning on, returns 0 after less rounds than are given.
-- It has then shown the names of the directory's entries, in their order and each on a line, up to the
-- first entry without a name. The image is valid, the descriptor is one of 2 to 7, descriptor 1 is the
-- terminal, the active terminal is one of the three and the buffer has 33 bytes.
pub ls_loop-directory :
    (env : Environment) (w : World) (fd rounds : ℕ) (buf : List ℕ)
    → let k = w.machine.kernel in
      IsValid k.fs
      → 2 ≤ fd
      → fd < 8
      → (descriptor k fd).flag ≡ 1
      → (descriptor k fd).jmp_pointer ≡ directory_file_op
      → (descriptor k fd).file_position ≡ 0
      → (descriptor k 1).jmp_pointer ≡ stdout_file_op
      → w.machine.console.active_term < 3
      → 33 ≤ length buf
      → 63 < rounds
      → (w' : World) × (ls_loop (kernel env) rounds (pos fd) buf w ≡ some (exited (pos 0) w'))
        × (w'.machine.console
            ≡ print_bytes (lines (listed k.fs.origin.direntries)) w.machine.console)
ls_loop-directory env w fd rounds buf v low high used is_directory start is_terminal on_screen room
      enough =
    let k = w.machine.kernel in
    let names = listed k.fs.origin.direntries in
    let left : DirectoryLeft (pos fd) names k = record {
      index = fd;
      open_for = record {
        is_index = refl;
        low = low;
        high = high;
        in_use = used;
        is_table = is_directory;
        is_terminal = is_terminal;
      };
      valid = v;
      left = ap (λ (p : ℕ). listed (drop p k.fs.origin.direntries)) (sym start);
    } in
    ls_loop-Prints (kernel env) (kernel-Copying_directory env) names rounds (pos fd) buf w
      (left, on_screen) room (omega (arith, length-listed k.fs.origin.direntries, v.entries))
