-- ===== src/Process/Pids.antt =====
-- How sysCalls.c chooses pids, and where the control blocks and the kernel stacks of the pids lie.
use linux_os.Base.{
  ℕ, zero, suc, ◌+◌, ◌/◌, ◌≤◌, ◌<◌, ◌≡◌, ◌≢◌, ◌⊎◌, inl, inr, refl, arith, ◌==◌, Bool-cases,
}
use linux_os.Base.Int.{pos, minus_one}
use linux_os.Process.{Kernel, find_free, find_available_pid, get_pcb_from_pid, stack_top}

find_free_lem :
    (tasks : ℕ → ℕ) (rounds i j : ℕ)
    → ((p : ℕ) × (find_free tasks rounds i ≡ pos p)
        × (p < i + rounds)
        × (tasks p ≡ 0)
        × ((p ≤ j) ⊎ ((j < i) ⊎ (tasks j ≢ 0))))
      ⊎ ((find_free tasks rounds i ≡ minus_one) × ((j < i) ⊎ ((i + rounds ≤ j) ⊎ (tasks j ≢ 0))))
unfolding find_free
find_free_lem tasks zero i j = inr (refl, ground arith)
find_free_lem tasks (suc rounds) i j = elim (Bool-cases (tasks i == 0)) [
  | inl free ↦ inl (i, rw free refl, omega arith, ground (arith, free), ground arith)
  | inr busy ↦ elim (find_free_lem tasks rounds (suc i) j) [
    | inl (p, found, below, free, lowest) ↦
        inl (p, rw busy found, omega arith, free, ground (arith, busy, lowest))
    | inr (missing, all) ↦ inr (rw busy missing, ground (arith, busy, all))
  ]
]

-- `find_available_pid` returns the lowest of the six pids that no task has, and -1 if there is none:
-- either it is a free pid and no free one is below it, or the pid looked at is taken.
pub find_available_pid_lem :
    (k : Kernel) (j : ℕ)
    → j < 6
    → ((p : ℕ) × (find_available_pid k ≡ pos p)
        × (p < 6)
        × (k.tasks p ≡ 0)
        × ((p ≤ j) ⊎ (k.tasks j ≢ 0)))
      ⊎ ((find_available_pid k ≡ minus_one) × (k.tasks j ≢ 0))
unfolding find_available_pid
find_available_pid_lem k j h = elim (find_free_lem k.tasks 6 0 j) [
  | inl (p, found, below, free, lowest) ↦ inl (p, found, below, free, ground (arith, lowest))
  | inr (missing, all) ↦ inr (missing, ground (arith, all))
]

-- The control blocks of two different pids of the six do not overlap, but the kernel stack of a pid
-- above 0 starts in the 8 KB that belong to the pid of half its number, and not in its own.
pub get_pcb_from_pid-stack_top :
    (p q : ℕ)
    → p < 6
    → q < 6
    → p < q
    → (get_pcb_from_pid q + 0x2000 ≤ get_pcb_from_pid p)
      × (get_pcb_from_pid (q / 2) ≤ stack_top q)
      × (stack_top q < get_pcb_from_pid (q / 2) + 0x2000)
      × (get_pcb_from_pid q + 0x2000 ≤ stack_top q)
unfolding get_pcb_from_pid stack_top
get_pcb_from_pid-stack_top p q hp hq lower = (omega arith, omega arith, omega arith, omega arith)
