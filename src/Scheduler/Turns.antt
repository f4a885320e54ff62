-- ===== src/Scheduler/Turns.antt =====
-- The turns that scheduler.c gives to the terminals.
use linux_os.Base.{
  ℕ, zero, suc, ◌≤◌, ◌<◌, ◌≡◌, ◌≢◌, inl, inr, sym, ap, ◌∙◌, Option, none, some, arith, ◌==◌,
  Bool-cases, Option-cases, ◌>>=◌,
}
use linux_os.Scheduler.{get_next_terminal, next_in_use, choose_next}

pub next_in_use-some :
    (rounds : ℕ) (arr : ℕ → Option ℕ) (t p : ℕ)
    → arr t ≡ some p
    → next_in_use (suc rounds) arr t ≡ some (t, p)
unfolding next_in_use
next_in_use-some rounds arr t p used = ground (arith, used)

pub next_in_use-none :
    (rounds : ℕ) (arr : ℕ → Option ℕ) (t : ℕ)
    → arr t ≡ none
    → next_in_use (suc rounds) arr t ≡ next_in_use rounds arr (get_next_terminal t)
unfolding next_in_use
next_in_use-none rounds arr t unused = ground (arith, unused)

two_steps :
    (c t : ℕ)
    → c < 3
    → t < 3
    → t ≢ c
    → t ≢ get_next_terminal c
    → t ≡ get_next_terminal (get_next_terminal c)
unfolding get_next_terminal
two_steps c t low inside other further = omega arith

module _ (arr : ℕ → Option ℕ) (c : ℕ) where
  choose_next-first :
      {q : ℕ}
      → arr (get_next_terminal c) ≡ some q
      → choose_next arr c ≡ some (get_next_terminal c, q)
  unfolding choose_next
  choose_next-first used = next_in_use-some 2 arr (get_next_terminal c) _ used

  choose_next-second :
      {q : ℕ}
      → arr (get_next_terminal c) ≡ none
      → arr (get_next_terminal (get_next_terminal c)) ≡ some q
      → choose_next arr c ≡ some (get_next_terminal (get_next_terminal c), q)
  unfolding choose_next
  choose_next-second skipped used =
      next_in_use-none 2 arr (get_next_terminal c) skipped
      ∙ next_in_use-some 1 arr (get_next_terminal (get_next_terminal c)) _ used

-- The terminal that has the turn after a number of switches.
unfoldable pub after_turns : (ℕ → Option ℕ) → ℕ → ℕ → Option ℕ
after_turns arr zero c = some c
after_turns arr (suc n) c = do next ← choose_next arr c; after_turns arr n next.0

after_turns-one :
    (arr : ℕ → Option ℕ) (c t q : ℕ)
    → choose_next arr c ≡ some (t, q)
    → after_turns arr 1 c ≡ some t
unfolding after_turns
after_turns-one arr c t q e = ground (arith, e)

after_turns-two :
    (arr : ℕ → Option ℕ) (c m t q r : ℕ)
    → choose_next arr c ≡ some (m, q)
    → choose_next arr m ≡ some (t, r)
    → after_turns arr 2 c ≡ some t
unfolding after_turns
after_turns-two arr c m t q r e e' = ground (arith, e, e')

-- No terminal waits for more than two switches: from a terminal of the three, every other one that is
-- in use has the turn after one or two, whichever of them is in use besides.
pub after_turns_lem :
    (arr : ℕ → Option ℕ) (curr t p : ℕ)
    → curr < 3
    → t < 3
    → t ≢ curr
    → arr t ≡ some p
    → (n : ℕ) × (1 ≤ n) × (n ≤ 2) × (after_turns arr n curr ≡ some t)
after_turns_lem arr curr t p low inside other used =
    elim (Bool-cases (t == get_next_terminal curr)) [
      | inl next ↦
          let same : t ≡ get_next_terminal curr = ground (arith, next) in
          (
            1,
            omega arith,
            omega arith,
            after_turns-one arr curr (get_next_terminal curr) p
                  (choose_next-first arr curr (ap arr (sym same) ∙ used))
                ∙ ap some (sym same),
          )
      | inr further ↦
          let same : t ≡ get_next_terminal (get_next_terminal curr) =
            two_steps curr t low inside other (ground (arith, further)) in
          let used' = ap arr (sym same) ∙ used in
          elim (Option-cases (arr (get_next_terminal curr))) [
            | inl skipped ↦ (
              1,
              omega arith,
              omega arith,
              after_turns-one arr curr (get_next_terminal (get_next_terminal curr)) p
                    (choose_next-second arr curr skipped used')
                  ∙ ap some (sym same),
            )
            | inr (q, between) ↦ (
              2,
              omega arith,
              omega arith,
              after_turns-two arr curr (get_next_terminal curr)
                    (get_next_terminal (get_next_terminal curr)) q p
                    (choose_next-first arr curr between)
                    (choose_next-first arr (get_next_terminal curr) used')
                  ∙ ap some (sym same),
            )
          ]
    ]
