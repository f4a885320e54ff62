-- ===== src/User/Errors.antt =====
-- LinuxOS/syscalls/ece391syserr.c: the program that tests how the kernel refuses wrong calls.
use linux_os.Base.{
  ℕ, zero, suc, ◌+◌, ◌-◌, Option, none, some, List, [], ◌++◌, ◌==◌, if◌then◌else◌, ◌>>=◌, codes,
  ltb, ◌&&◌,
}
use linux_os.Base.Int.{ℤ, pos, negsuc, minus_one, ◌==ℤ◌, ◌+ℤ◌}
use linux_os.User.{Syscalls, Run, exited, load}
use linux_os.User.Support.{c_str, ece391_fdputs}
use linux_os.User.Programs.{leave}

-- NEG_FD and NEG_NUM, BIG_FD and BIG_NUM.
abbrev pub neg_fd : ℤ
neg_fd = negsuc 1073741822

abbrev pub big_fd : ℤ
big_fd = pos 1073741823

module _ {ℓ} {S : Type ℓ} (sys : Syscalls S) where
  -- if (-1 != r) { fail = 2; ece391_fdputs (1, message); }
  abbrev pub expect_error : ℤ → List ℕ → ℕ → S → Option (ℕ × S)
  expect_error r message fail s =
      if r ==ℤ minus_one
      then some (fail, s)
      else (do s ← ece391_fdputs sys (pos 1) (c_str message) s; some (2, s))

  -- The last lines of a test: one of two messages, and the result.
  abbrev pub verdict : List ℕ → ℕ → S → Option (ℤ × S)
  verdict name fail s = do
    s ←
        ece391_fdputs sys (pos 1)
          (c_str (name ++ codes (if fail == 0 then ": PASS\n" else ": FAIL\n"))) s
    some (pos fail, s)

  -- `err_neg_fd` and `err_big_fd` have the same lines for their descriptors.
  unfoldable pub err_fd : ℤ → List ℕ → List ℕ → S → Option (ℤ × S)
  err_fd fd name buf s = do
    (r, buf, s) ← sys.ece391_read buf fd (pos 31) s
    (fail, s) ← expect_error r (codes "read fail\n") 0 s
    (r, s) ← sys.ece391_write buf fd (pos 31) s
    (fail, s) ← expect_error r (codes "write fail\n") fail s
    (r, s) ← sys.ece391_close fd s
    (fail, s) ← expect_error r (codes "close fail\n") fail s
    verdict name fail s

  unfoldable pub err_neg_fd : List ℕ → S → Option (ℤ × S)
  unfolding err_fd
  err_neg_fd buf s = err_fd neg_fd (codes "err_neg_fd") buf s

  unfoldable pub err_big_fd : List ℕ → S → Option (ℤ × S)
  unfolding err_fd
  err_big_fd buf s = err_fd big_fd (codes "err_big_fd") buf s

  -- The opens of `err_open_lots`, with the rounds left and the failures so far.
  unfoldable pub open_lots : ℕ → ℕ → S → Option (ℕ × S)
  open_lots zero cnt s = some (cnt, s)
  open_lots (suc rounds) cnt s = do
    (r, s) ← sys.ece391_open (c_str (codes ".")) s
    open_lots rounds (if r ==ℤ minus_one then cnt + 1 else cnt) s

  unfoldable pub close_from : ℕ → ℕ → S → Option S
  close_from zero i s = some s
  close_from (suc rounds) i s = do (r, s) ← sys.ece391_close (pos i) s; close_from rounds (suc i) s

  unfoldable pub err_open_lots : S → Option (ℤ × S)
  unfolding open_lots close_from
  err_open_lots s = do
    (cnt, s) ← open_lots 7 0 s
    s ← close_from 6 2 s
    verdict (codes "err_open_lots") (if cnt == 1 then 0 else 2) s

  unfoldable pub err_open : S → Option (ℤ × S)
  err_open s = do
    (r, s) ← sys.ece391_open (c_str (codes "helloo")) s
    (fail, s) ← expect_error r (codes "'helloo' fail\n") 0 s
    (r, s) ← sys.ece391_open (c_str (codes "shel")) s
    (fail, s) ← expect_error r (codes "'shel' fail\n") fail s
    (r, s) ← sys.ece391_open (c_str []) s
    (fail, s) ← expect_error r (codes "empty string fail\n") fail s
    verdict (codes "err_open") fail s

  -- The three loops of `err_unopened`, with the rounds that are left.
  unfoldable pub close_all_unopened : ℕ → ℕ → ℕ → S → Option (ℕ × S)
  close_all_unopened zero i fail s = some (fail, s)
  close_all_unopened (suc rounds) i fail s = do
    (r, s) ← sys.ece391_close (pos i) s
    (fail, s) ← expect_error r (codes "close unopened or invalid fd fail\n") fail s
    close_all_unopened rounds (suc i) fail s

  unfoldable pub read_all_unopened : ℕ → ℕ → List ℕ → ℕ → S → Option (List ℕ × ℕ × S)
  read_all_unopened zero i buf fail s = some (buf, fail, s)
  read_all_unopened (suc rounds) i buf fail s = do
    (r, buf, s) ← sys.ece391_read buf (pos i) (pos 31) s
    (fail, s) ← expect_error r (codes "read from unopened fd fail\n") fail s
    read_all_unopened rounds (suc i) buf fail s

  unfoldable pub write_all_unopened : ℕ → ℕ → List ℕ → ℕ → S → Option (ℕ × S)
  write_all_unopened zero i buf fail s = some (fail, s)
  write_all_unopened (suc rounds) i buf fail s = do
    (r, s) ← sys.ece391_write buf (pos i) (pos 31) s
    (fail, s) ← expect_error r (codes "write to unopened fd fail\n") fail s
    write_all_unopened rounds (suc i) buf fail s

  unfoldable pub err_unopened : List ℕ → S → Option (ℤ × S)
  unfolding close_all_unopened read_all_unopened write_all_unopened
  err_unopened buf s = do
    (fail, s) ← close_all_unopened 8 0 0 s
    (buf, fail, s) ← read_all_unopened 6 2 buf fail s
    (fail, s) ← write_all_unopened 6 2 buf fail s
    verdict (codes "err_unopened") fail s

  unfoldable pub err_vidmap : S → Option (ℤ × S)
  err_vidmap s = do
    (r, s) ← sys.ece391_vidmap none s
    (fail, s) ← expect_error r (codes "Null pointer fail\n") 0 s
    (r, s) ← sys.ece391_vidmap (some 0x400000) s
    (fail, s) ← expect_error r (codes "Kernel pointer fail fail\n") fail s
    verdict (codes "err_vidmap") fail s

  unfoldable pub err_stdin_out : List ℕ → S → Option (ℤ × S)
  err_stdin_out buf s = do
    (r, s) ← sys.ece391_write buf (pos 0) (pos 31) s
    (fail, s) ← expect_error r (codes "write to stdin fail\n") 0 s
    (r, buf, s) ← sys.ece391_read buf (pos 1) (pos 31) s
    (fail, s) ← expect_error r (codes "read from stdout fail\n") fail s
    verdict (codes "err_stdin_out") fail s

  unfoldable pub err_syscall_num : S → Option (ℤ × S)
  err_syscall_num s = do
    (r, s) ← sys.call big_fd s
    (fail, s) ← expect_error r (codes "syscall 0 fail\n") 0 s
    (r, s) ← sys.call neg_fd s
    (fail, s) ← expect_error r (codes "big num syscall fail\n") fail s
    (r, s) ← sys.call (pos 0) s
    (fail, s) ← expect_error r (codes "neg num syscall fail\n") fail s
    verdict (codes "err_syscall_num") fail s

  -- The test with a number from 1 to 8; `buf` is what its local buffer holds.
  unfoldable pub run_test : ℕ → List ℕ → S → Option (ℤ × S)
  unfolding err_neg_fd err_big_fd err_open_lots err_open err_unopened err_vidmap err_stdin_out
      err_syscall_num
  run_test select buf s =
      if select == 1
      then err_neg_fd buf s
      else if select == 2
      then err_big_fd buf s
      else if select == 3
      then err_open_lots s
      else if select == 4
      then err_open s
      else if select == 5
      then err_unopened buf s
      else if select == 6
      then err_vidmap s
      else if select == 7
      then err_stdin_out buf s
      else err_syscall_num s

  -- `fail += ...` for the tests from a number on.
  unfoldable pub run_all : ℕ → ℕ → ℤ → List ℕ → S → Option (ℤ × S)
  unfolding run_test
  run_all zero select fail buf s = some (fail, s)
  run_all (suc rounds) select fail buf s = do
    (r, s) ← run_test select buf s
    run_all rounds (suc select) (fail +ℤ r) buf s

  -- `main`, with what its own buffer and those of the tests hold.
  unfoldable pub syserr : List ℕ → List ℕ → S → Option (Run S)
  unfolding run_all
  syserr buf local s = do
    s ← ece391_fdputs sys (pos 1) (c_str (codes "Choose from tests 1-8. 0 to run all: ")) s
    (cnt, buf, s) ← sys.ece391_read buf (pos 0) (pos 127) s
    if cnt ==ℤ minus_one then leave sys (codes "Can't read test #\n") (pos 2) s else (do
      first ← load buf (pos 0)
      if first == b'0'
          then (do
            (fail, s) ← run_all 8 1 (pos 0) local s
            leave sys
                (codes
                  (if fail ==ℤ pos 0 then "\nOverall Tests: PASS\n" else "\nOverall Tests: FAIL\n"))
                fail s)
          else if ltb b'0' first && ltb first b'9'
          then (do (r, s) ← run_test (first - b'0') local s; some (exited r s))
          else leave sys (codes "Invalid test number. Choose from tests 1-8 or 0") (pos 0) s)
