-- ===== src/Rtc/Laws.antt =====
-- The frequencies and rates of rtc.c.
use linux_os.Base.{
  ℕ, zero, suc, ◌+◌, ◌/◌, ◌^◌, ◌<◌, ◌≡◌, inl, inr, refl, Bool, true, false, not, ◌&&◌, ◌||◌, none,
  some, List, [], ◌∷◌, ◌++◌, map, arith, ltb, ◌==◌, if◌then◌else◌, ltb→lt, Bool-cases, all_below,
  all_below_sound,
}
use linux_os.Base.Int.{ℤ, pos, negsuc, minus_one, ◌-ℤ◌, ltb_ℤ, ◌==ℤ◌}
use linux_os.Pic.{Write}
use linux_os.Rtc.{
  rtc_write, rtc_read, rtc_wait, set_rate, Event, rtc_interrupt, other_interrupt, is_power_of_2,
  rate_of,
}

-- The rate, among 6 to 15, with which the clock, 32768 Hz divided by `2 ^ (rate - 1)`, ticks at a
-- frequency; 0 if there is none.
search_rate : ℕ → ℤ → ℕ
search_rate zero freq = 0
search_rate (suc n) freq = if freq ==ℤ pos (32768 / 2 ^ (n + 5)) then n + 6 else search_rate n freq

unfoldable pub clock_rate : ℤ → ℕ
unfolding search_rate
clock_rate freq = search_rate 10 freq

refused : ℤ → Bool
refused freq =
    (freq ==ℤ pos 0) || not (is_power_of_2 freq) || ltb_ℤ freq (pos 2) || ltb_ℤ (pos 1024) freq

abbrev as_clock : ℕ → Bool
as_clock n =
    let freq = pos n in
    if refused freq
    then clock_rate freq == 0
    else ltb 0 (clock_rate freq) && (rate_of freq == clock_rate freq)

clock_table : all_below 1025 as_clock ≡ true
unfolding all_below refused clock_rate rate_of ◌-ℤ◌
clock_table = refl

-- What a frequency that is refused, or not, has for a rate.
record IsRight (freq : ℤ) : Type 0 where
  none_fits : refused freq ≡ true → clock_rate freq ≡ 0
  one_fits : refused freq ≡ false → (0 < clock_rate freq) × (rate_of freq ≡ clock_rate freq)

read_entry :
    (r : Bool) (c w : ℕ)
    → (if r then c == 0 else ltb 0 c && (w == c)) ≡ true
    → (r ≡ true → c ≡ 0) × (r ≡ false → (0 < c) × (w ≡ c))
read_entry true c w h = (λ _. ground arith, λ e. cc)
read_entry false c w h = (λ e. cc, λ _. ground arith)

high : (n : ℕ) → 1024 < n → (clock_rate (pos n) ≡ 0) × (refused (pos n) ≡ true)
unfolding clock_rate refused
high n h = (ground arith, ground arith)

below_zero : (n : ℕ) → (clock_rate (negsuc n) ≡ 0) × (refused (negsuc n) ≡ true)
unfolding clock_rate refused
below_zero n = (ground arith, ground arith)

IsRight-all : (freq : ℤ) → IsRight freq
IsRight-all (negsuc n) =
    let (none_at, no_rate) = below_zero n in record { none_fits = λ _. none_at; one_fits = λ e. cc }
IsRight-all (pos n) = elim (Bool-cases (ltb 1024 n)) [
  | inl big ↦
      (let (none_at, no_rate) = high n (ltb→lt _ _ big) in
        record { none_fits = λ _. none_at; one_fits = λ e. cc })
  | inr small ↦
      (let (refusal, rate) =
          read_entry (refused (pos n)) (clock_rate (pos n)) (rate_of (pos n))
            (all_below_sound 1025 as_clock n clock_table (ground arith)) in
        record { none_fits = refusal; one_fits = rate })
]

guards :
    (a b c d : Bool) (x y : ℤ × List Write)
    → (if a || b then x else if c || d then x else y) ≡ (if a || b || c || d then x else y)
guards a b c d x y = ground arith

rtc_write-refused :
    (freq nbytes : ℤ) (prev : ℕ)
    → rtc_write freq nbytes prev
      ≡ (if refused freq then (minus_one, []) else (nbytes, set_rate prev (rate_of freq)))
unfolding rtc_write refused
rtc_write-refused freq nbytes prev =
    guards (freq ==ℤ pos 0) (not (is_power_of_2 freq)) (ltb_ℤ freq (pos 2)) (ltb_ℤ (pos 1024) freq)
      (minus_one, []) (nbytes, set_rate prev (rate_of freq))

-- `rtc_write` refuses, with -1 and nothing written, exactly the frequencies at which the clock cannot
-- tick with a rate of 6 to 15; for any other it returns `nbytes` and writes that rate.
pub rtc_write_lem :
    (freq nbytes : ℤ) (prev : ℕ)
    → rtc_write freq nbytes prev ≡ (
        if clock_rate freq == 0 then (minus_one, []) else (nbytes, set_rate prev (clock_rate freq)))
rtc_write_lem freq nbytes prev =
    let right = IsRight-all freq in
    elim (Bool-cases (refused freq)) [
      | inl no_rate ↦
          (let zero_rate = right.none_fits no_rate in
            ground (arith, rtc_write-refused freq nbytes prev, zero_rate))
      | inr has_rate ↦
          (let (positive, same) = right.one_fits has_rate in
            ground (arith, rtc_write-refused freq nbytes prev, positive, same))
    ]

rtc_wait-hit :
    (before after : List Event)
    → rtc_wait false (before ++ rtc_interrupt ∷ after) ≡ some (pos 0, true)
unfolding rtc_wait
rtc_wait-hit [] after = refl
rtc_wait-hit (rtc_interrupt ∷ before) after = refl
rtc_wait-hit (other_interrupt ∷ before) after = rtc_wait-hit before after

rtc_wait-miss : (before : List Event) → rtc_wait false (map (λ _. other_interrupt) before) ≡ none
unfolding rtc_wait
rtc_wait-miss [] = refl
rtc_wait-miss (e ∷ before) = rtc_wait-miss before

-- `rtc_read` returns 0 if an interrupt of the clock comes, whatever comes before it, and waits as long
-- as only other interrupts come.
pub rtc_read_lem :
    (before after : List Event)
    → (rtc_read (before ++ rtc_interrupt ∷ after) ≡ some (pos 0, true))
      × (rtc_read (map (λ _. other_interrupt) before) ≡ none)
unfolding rtc_read
rtc_read_lem before after = (rtc_wait-hit before after, rtc_wait-miss before)
