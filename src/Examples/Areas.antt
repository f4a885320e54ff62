-- ===== src/Examples/Areas.antt =====
-- Copies and sets of memory with the functions of lib.c.
use linux_os.Base.{ℕ, ◌%◌, ◌^◌, ◌<◌, ◌≡◌, ◌↔◌, true, arith}
use linux_os.Memory.{memset, memmove}
use linux_os.Memory.Sets.{filled, memset_lem}
use linux_os.Memory.Copies.{copied}
use linux_os.Memory.Moves.{memmove_lem}

-- The byte at every address is the address.
abbrev counting : ℕ → ℕ
counting a = a

memset_lem_example :
    memset 0x1002 0x120 11 counting 0x100B ≡ filled 0x1002 11 (0x120 % 2 ^ 8) counting 0x100B
memset_lem_example = memset_lem 0x1002 0x120 11 counting 0x100B (omega arith)

memmove_lem_example :
    ((memmove 0x1005 0x1002 11 counting).1 0x100B ≡ copied 0x1005 0x1002 11 counting 0x100B)
    × (((memmove 0x1005 0x1002 11 counting).0 ≡ true) ↔ (0x1002 < 0x1005))
memmove_lem_example = memmove_lem 0x1005 0x1002 11 counting 0x100B (omega arith) (omega arith)
