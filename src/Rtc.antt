-- ===== src/Rtc.antt =====
-- The real-time clock of LinuxOS/student-distrib/rtc.c. What `inb` reads is an argument, and a
-- function returns the bytes that it writes, each with its port. The interrupt flag is not modelled.
pub mod Laws
use linux_os.Base.{
  ℕ, Bool, true, false, not, ◌||◌, Option, none, some, List, [], ◌∷◌, ◌++◌, ◌==◌, if◌then◌else◌,
}
use linux_os.Base.Int.{ℤ, pos, minus_one, ◌-ℤ◌, ltb_ℤ, ◌==ℤ◌, unsigned32}
use Prim.Native.Nat.{bit_and, bit_or}
use linux_os.Pic.{Pic, Write, enable_irq, send_eoi}

abbrev pub rtc_port : ℕ
rtc_port = 0x70

abbrev pub rtc_data : ℕ
rtc_data = 0x71

abbrev pub rtc_reg_a : ℕ
rtc_reg_a = 0x8A

abbrev pub rtc_reg_b : ℕ
rtc_reg_b = 0x0B

-- `prev` is what the data port gives for register B.
unfoldable pub rtc_init : ℕ → Pic → Pic
unfolding enable_irq
rtc_init prev s = enable_irq 8 (record s {
  written =
      s.written
      ++ (rtc_reg_b, rtc_port)
        ∷ (rtc_reg_b, rtc_port)
        ∷ (bit_or prev 0x40, rtc_data)
        ∷ (rtc_reg_a, rtc_port)
        ∷ (0x06, rtc_data)
        ∷ [];
})

-- The handler sets the flag for which `rtc_read` waits.
unfoldable pub rtc_handler : Pic × Bool → Pic × Bool
unfolding send_eoi
rtc_handler (s, block_flag) =
    (send_eoi 8 (record s { written = s.written ++ (0x0C, rtc_port) ∷ [] }), true)

-- Register A with the rate in its low bits. `prev` is what the data port gives for register A.
abbrev pub set_rate : ℕ → ℕ → List Write
set_rate prev rate =
    (rtc_reg_a, rtc_port) ∷ (rtc_reg_a, rtc_port) ∷ (bit_or (bit_and prev 0xF0) rate, rtc_data) ∷ []

unfoldable pub rtc_open : ℕ → ℤ × List Write
rtc_open prev = (pos 0, set_rate prev 0x0F)

-- What happens while `rtc_read` waits: the clock's interrupt, or anything else.
pub data Event : Type 0 where
  rtc_interrupt other_interrupt : Event

-- The wait of `rtc_read`, from the flag and the events to come: `none` while the flag is not set.
-- It returns 0, and sets the flag.
unfoldable pub rtc_wait : Bool → List Event → Option (ℤ × Bool)
rtc_wait true events = some (pos 0, true)
rtc_wait false [] = none
rtc_wait false (rtc_interrupt ∷ events) = rtc_wait true events
rtc_wait false (other_interrupt ∷ events) = rtc_wait false events

unfoldable pub rtc_read : List Event → Option (ℤ × Bool)
unfolding rtc_wait
rtc_read events = rtc_wait false events

-- freq & (freq - 1), on `int`s.
abbrev pub is_power_of_2 : ℤ → Bool
is_power_of_2 freq = bit_and (unsigned32 freq) (unsigned32 (freq -ℤ pos 1)) == 0

-- The ten tests: the rate for a frequency, 0 standing for a variable that is not set.
unfoldable pub rate_of : ℤ → ℕ
rate_of freq =
    if freq ==ℤ pos 2
    then 15
    else if freq ==ℤ pos 4
    then 14
    else if freq ==ℤ pos 8
    then 13
    else if freq ==ℤ pos 16
    then 12
    else if freq ==ℤ pos 32
    then 11
    else if freq ==ℤ pos 64
    then 10
    else if freq ==ℤ pos 128
    then 9
    else if freq ==ℤ pos 256
    then 8
    else if freq ==ℤ pos 512
    then 7
    else if freq ==ℤ pos 1024
    then 6
    else 0

unfoldable pub rtc_write : ℤ → ℤ → ℕ → ℤ × List Write
rtc_write freq nbytes prev =
    if (freq ==ℤ pos 0) || not (is_power_of_2 freq)
    then (minus_one, [])
    else if ltb_ℤ freq (pos 2) || ltb_ℤ (pos 1024) freq
    then (minus_one, [])
    else (nbytes, set_rate prev (rate_of freq))

unfoldable pub rtc_close : ℤ
rtc_close = pos 0
