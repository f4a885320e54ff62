-- ===== src/User/Programs.antt =====
-- The programs cat, ls, hello, testprint, counter and shell of LinuxOS/syscalls. What a local buffer
-- holds when the program starts is an argument.
use linux_os.Base.{
  ℕ, zero, suc, ◌+◌, Option, some, List, ◌==◌, ◌||◌, ◌&&◌, ltb, true, false, not, if◌then◌else◌,
  ◌>>=◌, codes,
}
use linux_os.Base.Int.{ℤ, pos, minus_one, ◌==ℤ◌, ◌+ℤ◌, ◌-ℤ◌, ltb_ℤ}
use linux_os.User.{Syscalls, Run, exited, running, load, store}
use linux_os.User.Support.{c_str, ece391_strlen, ece391_strcmp, ece391_itoa, ece391_fdputs}

module _ {ℓ} {S : Type ℓ} (sys : Syscalls S) where
  -- Printing a message, and the end of the program with a value.
  abbrev pub leave : List ℕ → ℤ → S → Option (Run S)
  leave message status s = do
    s ← ece391_fdputs sys (pos 1) (c_str message) s
    some (exited status s)

  -- The `while` loop of ece391cat.c, with the rounds that are left.
  unfoldable pub cat_loop : ℕ → ℤ → List ℕ → S → Option (Run S)
  cat_loop zero fd buf s = some (running s)
  cat_loop (suc rounds) fd buf s = do
    (cnt, buf, s) ← sys.ece391_read buf fd (pos 1024) s
    elim (cnt ==ℤ pos 0) [
      | true ↦ some (exited (pos 0) s)
      | false ↦ elim (cnt ==ℤ minus_one) [
        | true ↦ leave (codes "file read failed\n") (pos 3) s
        | false ↦ (do
          (written, s) ← sys.ece391_write buf (pos 1) cnt s
          elim (written ==ℤ minus_one) [
            | true ↦ some (exited (pos 3) s)
            | false ↦ cat_loop rounds fd buf s
          ])
      ]
    ]

  unfoldable pub cat : ℕ → List ℕ → S → Option (Run S)
  unfolding cat_loop
  cat rounds buf s = do
    (r, buf, s) ← sys.ece391_getargs buf (pos 1024) s
    if not (r ==ℤ pos 0) then leave (codes "could not read arguments\n") (pos 3) s else (do
      (fd, s) ← sys.ece391_open buf s
      if fd ==ℤ minus_one
          then leave (codes "file not found\n") (pos 2) s
          else cat_loop rounds fd buf s)

  -- The `while` loop of ece391ls.c.
  unfoldable pub ls_loop : ℕ → ℤ → List ℕ → S → Option (Run S)
  ls_loop zero fd buf s = some (running s)
  ls_loop (suc rounds) fd buf s = do
    (cnt, buf, s) ← sys.ece391_read buf fd (pos 32) s
    elim (cnt ==ℤ pos 0) [
      | true ↦ some (exited (pos 0) s)
      | false ↦ elim (cnt ==ℤ minus_one) [
        | true ↦ leave (codes "directory entry read failed\n") (pos 3) s
        | false ↦ (do
          buf ← store buf cnt b'\n'
          (written, s) ← sys.ece391_write buf (pos 1) (cnt +ℤ pos 1) s
          elim (written ==ℤ minus_one) [
            | true ↦ some (exited (pos 3) s)
            | false ↦ ls_loop rounds fd buf s
          ])
      ]
    ]

  unfoldable pub ls : ℕ → List ℕ → S → Option (Run S)
  unfolding ls_loop
  ls rounds buf s = do
    (fd, s) ← sys.ece391_open (c_str (codes ".")) s
    if fd ==ℤ minus_one
        then leave (codes "directory open failed\n") (pos 2) s
        else ls_loop rounds fd buf s

  unfoldable pub hello : List ℕ → S → Option (Run S)
  hello buf s = do
    s ← ece391_fdputs sys (pos 1) (c_str (codes "Hi, what's your name? ")) s
    (cnt, buf, s) ← sys.ece391_read buf (pos 0) (pos 1023) s
    if cnt ==ℤ minus_one then leave (codes "Can't read name from keyboard.\n") (pos 3) s else (do
      buf ← store buf cnt 0
      s ← ece391_fdputs sys (pos 1) (c_str (codes "Hello, ")) s
      s ← ece391_fdputs sys (pos 1) buf s
      some (exited (pos 0) s))

  unfoldable pub testprint : S → Option (Run S)
  testprint s = leave (codes "Hello, if this ran, the program was correct. Yay!\n") (pos 0) s

  -- The `for` loop of ece391counter.c, with the rounds that are left.
  unfoldable pub counter_loop : ℕ → ℕ → S → Option (Run S)
  counter_loop zero i s = some (exited (pos 0) s)
  counter_loop (suc rounds) i s = do
    buf ← ece391_itoa (i + 1) 10
    s ← ece391_fdputs sys (pos 1) buf s
    s ← ece391_fdputs sys (pos 1) (c_str (codes "\n")) s
    counter_loop rounds (suc i) s

  -- The `switch` of ece391counter.c.
  abbrev pub max_count : ℕ → ℕ
  max_count c =
      if c == b'0' then 100 else if c == b'1' then 10000 else if c == b'2' then 100000 else 0

  unfoldable pub counter : List ℕ → S → Option (Run S)
  unfolding counter_loop
  counter buf s = do
    let prompt = codes "Enter the Test Number: (0): 100, (1): 10000, (2): 100000\n"
    s ← ece391_fdputs sys (pos 1) (c_str prompt) s
    (cnt, buf, s) ← sys.ece391_read buf (pos 0) (pos 1023) s
    if cnt ==ℤ minus_one
        then leave (codes "Can't read the number from keyboard.\n") (pos 3) s
        else (do
          buf ← store buf cnt 0
          len ← ece391_strlen buf
          first ← load buf (pos 0)
          if ltb 2 len || ((len == 2) && (ltb first b'0' || ltb b'2' first))
              then leave (codes "Wrong Choice!\n") (pos 0) s
              else counter_loop (max_count first) 0 s)

  -- What the shell prints for the result of a command.
  abbrev pub report : ℤ → S → Option S
  report rval s =
      if rval ==ℤ minus_one
      then ece391_fdputs sys (pos 1) (c_str (codes "no such command\n")) s
      else if rval ==ℤ pos 256
      then ece391_fdputs sys (pos 1) (c_str (codes "program terminated by exception\n")) s
      else if not (rval ==ℤ pos 0)
      then ece391_fdputs sys (pos 1) (c_str (codes "program terminated abnormally\n")) s
      else some s

  -- The newline that ends the line is dropped.
  unfoldable pub end_line : ℤ → List ℕ → Option (List ℕ)
  end_line cnt buf = do
    last ← if ltb_ℤ (pos 0) cnt then load buf (cnt -ℤ pos 1) else some 0
    store buf (if last == b'\n' then cnt -ℤ pos 1 else cnt) 0

  -- The `while` loop of ece391shell.c.
  unfoldable pub shell_loop : ℕ → List ℕ → S → Option (Run S)
  unfolding end_line
  shell_loop zero buf s = some (running s)
  shell_loop (suc rounds) buf s = do
    s ← ece391_fdputs sys (pos 1) (c_str (codes "391OS> ")) s
    (cnt, buf, s) ← sys.ece391_read buf (pos 0) (pos 1023) s
    elim (cnt ==ℤ minus_one) [
      | true ↦ leave (codes "read from keyboard failed\n") (pos 3) s
      | false ↦ (do
        buf ← end_line cnt buf
        differ ← ece391_strcmp buf (c_str (codes "exit"))
        elim (differ ==ℤ pos 0) [
          | true ↦ some (exited (pos 0) s)
          | false ↦ (do
            first ← load buf (pos 0)
            s ←
                if first == 0
                then some s
                else (do (rval, s) ← sys.ece391_execute buf s; report rval s)
            shell_loop rounds buf s)
        ])
    ]

  unfoldable pub shell : ℕ → List ℕ → S → Option (Run S)
  unfolding shell_loop
  shell rounds buf s = do
    s ← ece391_fdputs sys (pos 1) (c_str (codes "Starting 391 Shell\n")) s
    shell_loop rounds buf s
