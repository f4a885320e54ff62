-- ===== src/Memory.antt =====
-- The functions on memory of LinuxOS/student-distrib/lib.c: memset, memcpy and memmove with their loops
-- in assembly, label by label.
pub mod Sets
pub mod Copies
pub mod Moves
use linux_os.Base.{
  ℕ, zero, suc, ◌+◌, ◌-◌, ◌*◌, ◌/◌, ◌%◌, ◌^◌, Bool, true, false, leb, ◌==◌, if◌then◌else◌, update,
}

-- Bytes by their address; addresses have 32 bits.
abbrev pub ahead : ℕ → ℕ → ℕ
ahead n a = (a + n) % 2 ^ 32

abbrev pub behind : ℕ → ℕ
behind a = (a + (2 ^ 32 - 1)) % 2 ^ 32

-- Four bytes at an address, the lowest first.
abbrev pub store_four : ℕ → ℕ → ℕ → ℕ → ℕ → (ℕ → ℕ) → ℕ → ℕ
store_four a b0 b1 b2 b3 m =
    update (update (update (update m a b0) (ahead 1 a) b1) (ahead 2 a) b2) (ahead 3 a) b3

-- rep stosl, with the count, the address and the word.
unfoldable pub rep_stosl : ℕ → ℕ → ℕ → (ℕ → ℕ) → ℕ → ℕ
rep_stosl zero edi eax m = m
rep_stosl (suc ecx) edi eax m = rep_stosl ecx (ahead 4 edi) eax (
    store_four edi (eax % 2 ^ 8) (eax / 2 ^ 8 % 2 ^ 8) (eax / 2 ^ 16 % 2 ^ 8) (eax / 2 ^ 24 % 2 ^ 8)
      m)

unfoldable pub memset_bottom : ℕ → ℕ → ℕ → (ℕ → ℕ) → ℕ → ℕ
memset_bottom zero edi al m = m
memset_bottom (suc edx) edi al m = memset_bottom edx (ahead 1 edi) al (update m edi al)

abbrev pub memset_aligned : ℕ → ℕ → ℕ → (ℕ → ℕ) → ℕ → ℕ
memset_aligned ecx edi eax m =
    memset_bottom (ecx % 4) (ahead (4 * (ecx / 4)) edi) (eax % 2 ^ 8)
      (rep_stosl (ecx / 4) edi eax m)

unfoldable pub memset_top : ℕ → ℕ → ℕ → (ℕ → ℕ) → ℕ → ℕ
memset_top zero edi eax m = m
memset_top (suc ecx) edi eax m = elim (edi % 4 == 0) [
  | Bool.true ↦ memset_aligned (suc ecx) edi eax m
  | Bool.false ↦ memset_top ecx (ahead 1 edi) eax (update m edi (eax % 2 ^ 8))
]

unfoldable pub memset : ℕ → ℕ → ℕ → (ℕ → ℕ) → ℕ → ℕ
memset s c n m = let b = c % 2 ^ 8 in memset_top n s (b * 2 ^ 24 + b * 2 ^ 16 + b * 2 ^ 8 + b) m

-- rep stosw and rep stosl, from the lower bits of `c`.
unfoldable pub rep_stosw : ℕ → ℕ → ℕ → (ℕ → ℕ) → ℕ → ℕ
rep_stosw zero edi ax m = m
rep_stosw (suc ecx) edi ax m =
    rep_stosw ecx (ahead 2 edi) ax
      (update (update m edi (ax % 2 ^ 8)) (ahead 1 edi) (ax / 2 ^ 8 % 2 ^ 8))

unfoldable pub memset_word : ℕ → ℕ → ℕ → (ℕ → ℕ) → ℕ → ℕ
memset_word s c n m = rep_stosw n s c m

unfoldable pub memset_dword : ℕ → ℕ → ℕ → (ℕ → ℕ) → ℕ → ℕ
memset_dword s c n m = rep_stosl n s c m

-- rep movsl; a word is read before it is stored.
unfoldable pub rep_movsl : ℕ → ℕ → ℕ → (ℕ → ℕ) → ℕ → ℕ
rep_movsl zero edi esi m = m
rep_movsl (suc ecx) edi esi m =
    rep_movsl ecx (ahead 4 edi) (ahead 4 esi)
      (store_four edi (m esi) (m (ahead 1 esi)) (m (ahead 2 esi)) (m (ahead 3 esi)) m)

unfoldable pub memcpy_bottom : ℕ → ℕ → ℕ → (ℕ → ℕ) → ℕ → ℕ
memcpy_bottom zero edi esi m = m
memcpy_bottom (suc edx) edi esi m =
    memcpy_bottom edx (ahead 1 edi) (ahead 1 esi) (update m edi (m esi))

abbrev pub memcpy_aligned : ℕ → ℕ → ℕ → (ℕ → ℕ) → ℕ → ℕ
memcpy_aligned ecx edi esi m =
    memcpy_bottom (ecx % 4) (ahead (4 * (ecx / 4)) edi) (ahead (4 * (ecx / 4)) esi)
      (rep_movsl (ecx / 4) edi esi m)

unfoldable pub memcpy_top : ℕ → ℕ → ℕ → (ℕ → ℕ) → ℕ → ℕ
memcpy_top zero edi esi m = m
memcpy_top (suc ecx) edi esi m = elim (edi % 4 == 0) [
  | Bool.true ↦ memcpy_aligned (suc ecx) edi esi m
  | Bool.false ↦ memcpy_top ecx (ahead 1 edi) (ahead 1 esi) (update m edi (m esi))
]

unfoldable pub memcpy : ℕ → ℕ → ℕ → (ℕ → ℕ) → ℕ → ℕ
memcpy dest src n m = memcpy_top n dest src m

-- rep movsb, upwards or, with the direction flag set, downwards.
unfoldable pub rep_movsb : (ℕ → ℕ) → ℕ → ℕ → ℕ → (ℕ → ℕ) → ℕ → ℕ
rep_movsb move zero edi esi m = m
rep_movsb move (suc ecx) edi esi m = rep_movsb move ecx (move edi) (move esi) (update m edi (m esi))

-- The new value of the direction flag comes with the memory: it is set where the bytes are moved
-- downwards, and nothing clears it.
unfoldable pub memmove : ℕ → ℕ → ℕ → (ℕ → ℕ) → Bool × (ℕ → ℕ)
memmove dest src n m =
    if leb dest src
    then (false, rep_movsb (ahead 1) n dest src m)
    else (true, rep_movsb behind n (behind (ahead n dest)) (behind (ahead n src)) m)
