-- ===== src/Pic/Laws.antt =====
-- The masks of i8259.c as a set of enabled interrupts.
use linux_os.Base.{
  ◌||◌, [], ◌∷◌, ◌++◌, ℕ, ◌-◌, ◌/◌, ◌%◌, ◌^◌, ◌<◌, ◌≡◌, refl, Bool, true, false, not, ◌&&◌, arith,
  ltb, leb, ◌==◌, if◌then◌else◌, all_below, all_below_sound,
}
use linux_os.Pic.{
  Pic, enable_irq, disable_irq, i8259_init, clear_bit, set_bit, master_data_port, slave_data_port,
}

unfoldable pub bit : ℕ → ℕ → ℕ
bit mask k = mask / 2 ^ k % 2

-- An interrupt of 0 to 15 is enabled if its bit is 0, in the slave's mask from 8 on.
abbrev pub is_enabled : ℕ → Pic → Bool
is_enabled irq s = if leb 8 irq then bit s.slave_mask (irq - 8) == 0 else bit s.master_mask irq == 0

pub record IsByteMasks (s : Pic) : Type 0 where
  pub master : s.master_mask < 256
  pub slave : s.slave_mask < 256

abbrev bit_facts : ℕ → ℕ → ℕ → Bool
bit_facts n k mask =
    ltb (clear_bit mask n) 256
    && ltb (set_bit mask n) 256
    && (bit (clear_bit mask n) k == (if n == k then 0 else bit mask k))
    && (bit (set_bit mask n) k == (if n == k then 1 else bit mask k))

bit_table : all_below 8 (λ n. all_below 8 (λ k. all_below 256 (bit_facts n k))) ≡ true
unfolding all_below clear_bit set_bit bit
bit_table = refl

bit_facts_hold : (n k mask : ℕ) → n < 8 → k < 8 → mask < 256 → bit_facts n k mask ≡ true
bit_facts_hold n k mask hn hk hm =
    all_below_sound 256 (bit_facts n k) mask
      (all_below_sound 8 (λ k. all_below 256 (bit_facts n k)) k
        (all_below_sound 8 (λ n. all_below 8 (λ k. all_below 256 (bit_facts n k))) n bit_table hn)
        hk)
      hm

bit-clear_bit :
    (n k mask : ℕ)
    → n < 8
    → k < 8
    → mask < 256
    → (clear_bit mask n < 256)
      × (set_bit mask n < 256)
      × (bit (clear_bit mask n) k ≡ (if n == k then 0 else bit mask k))
      × (bit (set_bit mask n) k ≡ (if n == k then 1 else bit mask k))
bit-clear_bit n k mask hn hk hm = ground (arith, bit_facts_hold n k mask hn hk hm)

-- The data port and the mask of the controller that has an interrupt.
abbrev pub data_port : ℕ → ℕ
data_port irq = if leb 8 irq then slave_data_port else master_data_port

abbrev pub mask_of : ℕ → Pic → ℕ
mask_of irq s = if leb 8 irq then s.slave_mask else s.master_mask

-- `enable_irq` enables its interrupt, and `disable_irq` disables it; every other interrupt is enabled
-- afterwards exactly if it was before. The one byte that each writes is the new mask of the controller
-- that has the interrupt, to its data port. The masks are bytes, and stay bytes. Both interrupts are
-- below 16.
pub irq_masks :
    (irq other : ℕ) (s : Pic)
    → irq < 16
    → other < 16
    → IsByteMasks s
    → (is_enabled other (enable_irq irq s) ≡ (if irq == other then true else is_enabled other s))
      × (is_enabled other (disable_irq irq s)
          ≡ (if irq == other then false else is_enabled other s))
      × ((enable_irq irq s).written
          ≡ s.written ++ (mask_of irq (enable_irq irq s), data_port irq) ∷ [])
      × ((disable_irq irq s).written
          ≡ s.written ++ (mask_of irq (disable_irq irq s), data_port irq) ∷ [])
      × IsByteMasks (enable_irq irq s)
      × IsByteMasks (disable_irq irq s)
unfolding enable_irq disable_irq
irq_masks irq other s h k v = (
  ground (
    arith,
    bit-clear_bit (irq - 8) (other - 8) s.slave_mask,
    bit-clear_bit irq other s.master_mask,
  ),
  ground (
    arith,
    bit-clear_bit (irq - 8) (other - 8) s.slave_mask,
    bit-clear_bit irq other s.master_mask,
  ),
  ground arith,
  ground arith,
  ground (arith, bit-clear_bit (irq - 8) 0 s.slave_mask, bit-clear_bit irq 0 s.master_mask),
  ground (arith, bit-clear_bit (irq - 8) 0 s.slave_mask, bit-clear_bit irq 0 s.master_mask),
)

masks-i8259_init :
    (s : Pic) → ((i8259_init s).master_mask ≡ 251) × ((i8259_init s).slave_mask ≡ 255)
unfolding i8259_init
masks-i8259_init s = (refl, refl)

abbrev starts_enabled : ℕ → Bool
starts_enabled irq = if leb 8 irq then bit 255 (irq - 8) == 0 else bit 251 irq == 0

start_table :
    all_below 16 (λ irq. if irq == 2 then starts_enabled irq else not (starts_enabled irq)) ≡ true
unfolding all_below bit
start_table = refl

-- After `i8259_init` only interrupt 2, to which the slave is connected, is enabled.
pub is_enabled-i8259_init :
    (irq : ℕ) (s : Pic) → irq < 16 → is_enabled irq (i8259_init s) ≡ irq == 2
is_enabled-i8259_init irq s h =
    let checked =
      all_below_sound 16 (λ irq. if irq == 2 then starts_enabled irq else not (starts_enabled irq))
        irq start_table h in
    let (master, slave) = masks-i8259_init s in rw (master, slave) (ground arith)

-- The interrupts of the timer, the keyboard, the slave controller and the clock.
abbrev pub is_started : ℕ → Bool
is_started irq = (irq == 0) || (irq == 1) || (irq == 2) || (irq == 8)

abbrev enabled_after : ℕ → Bool
enabled_after irq = if leb 8 irq then bit 0xFE (irq - 8) == 0 else bit 0xF8 irq == 0

started_table :
    all_below 16 (λ irq. if is_started irq then enabled_after irq else not (enabled_after irq))
    ≡ true
unfolding all_below bit
started_table = refl

pub is_enabled-is_started :
    (irq : ℕ) (s : Pic)
    → irq < 16
    → s.master_mask ≡ 0xF8
    → s.slave_mask ≡ 0xFE
    → is_enabled irq s ≡ is_started irq
is_enabled-is_started irq s h master slave =
    let checked =
      all_below_sound 16
        (λ irq. if is_started irq then enabled_after irq else not (enabled_after irq)) irq
        started_table h in
    rw (master, slave) (ground arith)
