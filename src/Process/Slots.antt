-- ===== src/Process/Slots.antt =====
-- The search for a free descriptor, the change of one, and the calls that `sys_open` and `sys_close`
-- of sysCalls.c make on it.
use linux_os.Base.{
  ℕ, zero, suc, ◌+◌, ◌≤◌, ◌<◌, ◌≡◌, ◌≢◌, ◌⊎◌, inl, inr, ap, ◌∙◌, some, List, arith, ◌==◌,
  Bool-cases, Option-cases, update, update_self, update_ne,
}
use linux_os.Base.Int.{ℤ, pos}
use linux_os.Strings.{strlen}
use linux_os.Strings.Compare.{AllBytes}
use linux_os.FileSystem.{FileSystem, Dentry, open_f, open_d}
use linux_os.FileSystem.Valid.{IsValid, get_elem?-total}
use linux_os.FileSystem.Lookup.{read_dentry_by_name_lem}
use linux_os.Process.{
  Kernel, Pcb, FileDescriptor, descriptor, set_descriptor, init_file_operations, open_at, open_loop,
  call_close, sys_close,
}

pub open_loop-here :
    (k : Kernel) (rounds i : ℕ) (filename : List ℕ) (d : Dentry) (prev : ℕ)
    → (descriptor k i).flag ≡ 0
    → open_loop (suc rounds) i filename d prev k ≡ open_at i filename d prev k
unfolding open_loop
open_loop-here k rounds i filename d prev free = ground (arith, free)

pub open_loop-next :
    (k : Kernel) (rounds i : ℕ) (filename : List ℕ) (d : Dentry) (prev : ℕ)
    → (descriptor k i).flag ≢ 0
    → open_loop (suc rounds) i filename d prev k ≡ open_loop rounds (suc i) filename d prev k
unfolding open_loop
open_loop-next k rounds i filename d prev busy = ground (arith, busy)

pub open_loop-open_at :
    (k : Kernel) (rounds start i : ℕ) (filename : List ℕ) (d : Dentry) (prev : ℕ)
    → start ≤ i
    → i < start + rounds
    → (descriptor k i).flag ≡ 0
    → ((j : ℕ) → start ≤ j → j < i → (descriptor k j).flag ≢ 0)
    → open_loop rounds start filename d prev k ≡ open_at i filename d prev k
open_loop-open_at k zero start i filename d prev above below free busy = absurd (omega arith)
open_loop-open_at k (suc rounds) start i filename d prev above below free busy =
    elim (Bool-cases (start == i)) [
      | inl here ↦
          let same : start ≡ i = ground (arith, here) in
          open_loop-here k rounds start filename d prev
            (ap (λ (j : ℕ). (descriptor k j).flag) same ∙ free)
          ∙ ap (λ (j : ℕ). open_at j filename d prev k) same
      | inr further ↦
          let later : start < i = ground (arith, further) in
          open_loop-next k rounds start filename d prev (busy start (omega arith) later)
          ∙ open_loop-open_at k rounds (suc start) i filename d prev (omega arith) (omega arith)
              free (λ j low high. busy j (omega arith) high)
    ]

pub open_f-total :
    (fs : FileSystem) (filename : List ℕ) {len : ℕ}
    → IsValid fs
    → AllBytes filename
    → strlen filename ≡ some len
    → len ≤ 32
    → (r : ℤ) × (fs' : FileSystem) × (open_f fs (some filename) ≡ some (r, fs'))
unfolding open_f
open_f-total fs filename v bytes ended short =
    let (old, found) = get_elem?-total fs.origin.direntries 62 (omega (arith, v.entries)) in
    let (o, first, reply) = read_dentry_by_name_lem fs filename bytes ended old v short in
    elim (Option-cases (open_f fs (some filename))) [
      | inl fault ↦ ground (arith, found, reply, fault)
      | inr ((r, fs'), e) ↦ (r, fs', e)
    ]

pub open_d-total :
    (fs : FileSystem) (filename : List ℕ) {len : ℕ}
    → IsValid fs
    → AllBytes filename
    → strlen filename ≡ some len
    → len ≤ 32
    → (r : ℤ) × (fs' : FileSystem) × (open_d fs (some filename) ≡ some (r, fs'))
unfolding open_d
open_d-total fs filename v bytes ended short =
    let (old, found) = get_elem?-total fs.origin.direntries 62 (omega (arith, v.entries)) in
    let (o, first, reply) = read_dentry_by_name_lem fs filename bytes ended old v short in
    elim (Option-cases (open_d fs (some filename))) [
      | inl fault ↦ ground (arith, found, reply, fault)
      | inr ((r, fs'), e) ↦ (r, fs', e)
    ]

-- A set descriptor, and the others.
pub descriptor-set_descriptor :
    (k : Kernel) (i : ℕ) (x : FileDescriptor) → descriptor (set_descriptor i x k) i ≡ x
descriptor-set_descriptor k i x =
    ap (λ (p : Pcb). p.fd_arr i)
      (update_self k.pcbs k.pid
        (record (k.pcbs k.pid) { fd_arr = update (k.pcbs k.pid).fd_arr i x }))
    ∙ update_self (k.pcbs k.pid).fd_arr i x

pub descriptor-set_descriptor_other :
    (k : Kernel) (i j : ℕ) (x : FileDescriptor)
    → (j ≡ i) ⊎ (descriptor (set_descriptor i x k) j ≡ descriptor k j)
descriptor-set_descriptor_other k i j x = elim (Bool-cases (j == i)) [
  | inl same ↦ inl (ground (arith, same))
  | inr other ↦ inr (
      ap (λ (p : Pcb). p.fd_arr j)
        (update_self k.pcbs k.pid
          (record (k.pcbs k.pid) { fd_arr = update (k.pcbs k.pid).fd_arr i x }))
      ∙ update_ne (k.pcbs k.pid).fd_arr i j x (ground (arith, other)))
]

pub sys_close-flag :
    (k : Kernel) (i j : ℕ)
    → 2 ≤ i
    → i < 8
    → (descriptor k i).flag ≡ 1
    → call_close (init_file_operations (descriptor k i).jmp_pointer).on_close ≡ pos 0
    → (k' : Kernel) × (sys_close (pos i) k ≡ (pos 0, k'))
      × ((descriptor k' i).flag ≡ 0)
      × ((j ≡ i) ⊎ (descriptor k' j ≡ descriptor k j))
unfolding sys_close
sys_close-flag k i j low high used closes =
    let freed = record (descriptor k i) { flag = 0 } in
    (
      set_descriptor i freed k,
      ground (arith, used, closes),
      ap (λ (x : FileDescriptor). x.flag) (descriptor-set_descriptor k i freed),
      descriptor-set_descriptor_other k i j freed,
    )
