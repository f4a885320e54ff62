-- ===== src/Lifecycle/Blocks.antt =====
-- What the calls on descriptors leave of the control blocks.
use linux_os.Base.{
  ℕ, zero, suc, ◌≡◌, inl, inr, refl, sym, ◌∙◌, Option, none, some, List, arith, ◌==◌, Bool-cases,
  ◌>>=◌, >>=-eq-some, update,
}
use linux_os.Base.Int.{ℤ, pos, minus_one, pos_part, ◌==ℤ◌}
use mathlib.Core.Path.{subst}
use mathlib.Core.Option.{some-injective}
use linux_os.FileSystem.{Dentry}
use linux_os.Halt.{drop_descriptor, close_all}
use linux_os.Strings.{strlen}
use linux_os.FileSystem.{read_dentry_by_name, open_f, open_d}
use linux_os.Process.{
  Kernel, Pcb, FileDescriptor, Table, Driver, bad_call, terminal, rtc, directory, file, descriptor,
  set_descriptor, sys_close, sys_open, open_loop, open_at, call_open, table_of,
  init_file_operations,
}
use linux_os.Process.Slots.{open_loop-here, open_loop-next}
use linux_os.Process.Tree.{SameBlocks}

-- Two kernels with the same tasks, the same current process, and blocks that only differ in descriptors,
-- arguments or registers.
pub record SameTree (k k' : Kernel) : Type 0 where
  pub tasks : k'.tasks ≡ k.tasks
  pub pid : k'.pid ≡ k.pid
  pub blocks : SameBlocks k.pcbs k'.pcbs

pub SameTree-refl : (k : Kernel) → SameTree k k
SameTree-refl k = record { tasks = refl; pid = refl; blocks = λ p. (refl, refl, refl) }

pub SameTree-trans : {a b c : Kernel} → SameTree a b → SameTree b c → SameTree a c
SameTree-trans s t = record {
  tasks = t.tasks ∙ s.tasks;
  pid = t.pid ∙ s.pid;
  blocks = λ p. (
    (t.blocks p).0 ∙ (s.blocks p).0,
    (t.blocks p).1 ∙ (s.blocks p).1,
    (t.blocks p).2 ∙ (s.blocks p).2,
  );
}

-- A block that is set to one with the same place in the tree.
pub SameBlocks-update :
    (pcbs : ℕ → Pcb) (i : ℕ) (x : Pcb)
    → x.pid ≡ (pcbs i).pid
    → x.parent_pid ≡ (pcbs i).parent_pid
    → x.terminal_idx ≡ (pcbs i).terminal_idx
    → SameBlocks pcbs (update pcbs i x)
SameBlocks-update pcbs i x a b c p = (ground (arith, a), ground (arith, b), ground (arith, c))

pub set_descriptor-SameTree :
    (fd : ℕ) (d : FileDescriptor) (k : Kernel) → SameTree k (set_descriptor fd d k)
set_descriptor-SameTree fd d k = record {
  tasks = refl;
  pid = refl;
  blocks = SameBlocks-update k.pcbs k.pid _ refl refl refl;
}

pub sys_close-SameTree : (fd : ℤ) (k : Kernel) → SameTree k (sys_close fd k).1
unfolding sys_close
sys_close-SameTree fd k = ground (
  arith,
  SameTree-refl k,
  set_descriptor-SameTree (pos_part fd) (record ((k.pcbs k.pid).fd_arr (pos_part fd)) { flag = 0 })
      k,
)

drop_descriptor-SameTree : (self i : ℕ) (k : Kernel) → SameTree k (drop_descriptor self i k)
drop_descriptor-SameTree self i k = record {
  tasks = refl;
  pid = refl;
  blocks = SameBlocks-update k.pcbs self _ refl refl refl;
}

pub close_all-SameTree : (rounds i self : ℕ) (k : Kernel) → SameTree k (close_all rounds i self k)
unfolding close_all
close_all-SameTree zero i self k = SameTree-refl k
close_all-SameTree (suc rounds) i self k = elim (Bool-cases (((k.pcbs self).fd_arr i).flag == 1)) [
  | inl used ↦ rw used (
      SameTree-trans (sys_close-SameTree (pos i) k) (
        SameTree-trans (drop_descriptor-SameTree self i _)
          (close_all-SameTree rounds (suc i) self _)))
  | inr unused ↦ rw unused (
      SameTree-trans (drop_descriptor-SameTree self i k) (close_all-SameTree rounds (suc i) self _))
]

call_open-SameTree :
    (d : Driver) (filename : List ℕ) (prev : ℕ) (k k' : Kernel)
    → call_open d filename prev k ≡ some k'
    → SameTree k k'
unfolding call_open
call_open-SameTree bad_call filename prev k k' e =
    subst (SameTree k) (some-injective _ _ e) (SameTree-refl k)
call_open-SameTree terminal filename prev k k' e =
    subst (SameTree k) (some-injective _ _ e) (SameTree-refl k)
call_open-SameTree rtc filename prev k k' e =
    subst (SameTree k) (some-injective _ _ e)
      (record { tasks = refl; pid = refl; blocks = λ p. (refl, refl, refl) })
call_open-SameTree directory filename prev k k' e =
    let (reply, opened, e') = >>=-eq-some (open_d k.fs (some filename)) _ e in
    subst (SameTree k) (some-injective _ _ e')
      (record { tasks = refl; pid = refl; blocks = λ p. (refl, refl, refl) })
call_open-SameTree file filename prev k k' e =
    let (reply, opened, e') = >>=-eq-some (open_f k.fs (some filename)) _ e in
    subst (SameTree k) (some-injective _ _ e')
      (record { tasks = refl; pid = refl; blocks = λ p. (refl, refl, refl) })

-- The kernel of a result.
abbrev pub kernel_of : ℤ × Kernel → Kernel
kernel_of reply = reply.1

set_table-SameTree :
    (i : ℕ) (filename : List ℕ) (taken : FileDescriptor) (prev : ℕ) (k : Kernel)
    (reply : ℤ × Kernel) (t : Option Table)
    → elim t [
      | none ↦ some (minus_one, set_descriptor i taken k)
      | some t ↦ (do
        k' ←
            call_open
              (init_file_operations t).on_open
              filename
              prev
              (set_descriptor i (record taken { jmp_pointer = t }) k)
        some (pos i, k'))
    ]
      ≡ some reply
    → SameTree k (kernel_of reply)
set_table-SameTree i filename taken prev k reply none e =
    subst (λ r. SameTree k (kernel_of r)) (some-injective _ _ e) (set_descriptor-SameTree i taken k)
set_table-SameTree i filename taken prev k reply (some t) e =
    let set = set_descriptor i (record taken { jmp_pointer = t }) k in
    let (k', called, e') =
      >>=-eq-some (call_open (init_file_operations t).on_open filename prev set) _ e in
    subst (λ r. SameTree k (kernel_of r)) (some-injective _ _ e')
      (SameTree-trans (set_descriptor-SameTree i (record taken { jmp_pointer = t }) k)
        (call_open-SameTree (init_file_operations t).on_open filename prev set k' called))

open_loop-SameTree :
    (rounds i : ℕ) (filename : List ℕ) (d : Dentry) (prev : ℕ) (k : Kernel) (reply : ℤ × Kernel)
    → open_loop rounds i filename d prev k ≡ some reply
    → SameTree k (kernel_of reply)
unfolding open_loop open_at
open_loop-SameTree zero i filename d prev k reply e =
    subst (λ r. SameTree k (kernel_of r)) (some-injective _ _ e) (SameTree-refl k)
open_loop-SameTree (suc rounds) i filename d prev k reply e =
    elim (Bool-cases ((descriptor k i).flag == 0)) [
      | inl free ↦
          let taken = record (descriptor k i) {
            flag = 1;
            inode_num = d.inode_num;
            file_position = 0;
          } in
          set_table-SameTree i filename taken prev k reply (table_of d.filetype)
            (sym (open_loop-here k rounds i filename d prev (ground (arith, free))) ∙ e)
      | inr busy ↦
          open_loop-SameTree rounds (suc i) filename d prev k reply
            (sym (open_loop-next k rounds i filename d prev (ground (arith, busy))) ∙ e)
    ]

-- Opening a file leaves the tree.
pub sys_open-SameTree :
    (filename : Option (List ℕ)) (local : Dentry) (prev : ℕ) (k : Kernel) (reply : ℤ × Kernel)
    → sys_open filename local prev k ≡ some reply
    → SameTree k (kernel_of reply)
unfolding sys_open
sys_open-SameTree none local prev k reply e =
    subst (λ r. SameTree k (kernel_of r)) (some-injective _ _ e) (SameTree-refl k)
sys_open-SameTree (some filename) local prev k reply e =
    let (len, measured, e') = >>=-eq-some (strlen filename) _ e in
    elim (Bool-cases (len == 0)) [
      | inl empty ↦
          subst (λ r. SameTree k (kernel_of r)) (some-injective _ _ (rw empty at e'))
            (SameTree-refl k)
      | inr named ↦
          let (found, read, e'') =
            >>=-eq-some (read_dentry_by_name k.fs (some filename) local) _ (rw named at e') in
          elim (Bool-cases (found.0 ==ℤ minus_one)) [
            | inl missing ↦
                subst (λ r. SameTree k (kernel_of r)) (some-injective _ _ (rw missing at e''))
                  (SameTree-refl k)
            | inr there ↦ open_loop-SameTree 6 2 filename found.1 prev k reply (rw there at e'')
          ]
    ]
