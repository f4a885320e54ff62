-- ===== src/Pic.antt =====
-- The interrupt controllers of LinuxOS/student-distrib/i8259.c. `outb` is not modelled beyond what it
-- is given: the bytes written are listed, each with its port, oldest first.
pub mod Laws
use linux_os.Base.{ℕ, ◌-◌, ◌^◌, List, [], ◌∷◌, ◌++◌, ltb, leb, if◌then◌else◌}
use Prim.Native.Nat.{bit_and, bit_or}

-- (value, port)
abbrev pub Write : Type 0
Write = ℕ × ℕ

pub record Pic : Type 0 where
  pub master_mask : ℕ
  pub slave_mask : ℕ
  pub written : List Write

abbrev pub master_command_port : ℕ
master_command_port = 0x20

abbrev pub master_data_port : ℕ
master_data_port = 0x21

abbrev pub slave_command_port : ℕ
slave_command_port = 0xA0

abbrev pub slave_data_port : ℕ
slave_data_port = 0xA1

abbrev pub eoi : ℕ
eoi = 0x60

abbrev pub outb : ℕ → ℕ → Pic → Pic
outb value port s = record s { written = s.written ++ (value, port) ∷ [] }

-- mask & ~(1 << n) and mask | (1 << n), in a byte.
unfoldable pub clear_bit : ℕ → ℕ → ℕ
clear_bit mask n = bit_and mask (255 - 2 ^ n)

unfoldable pub set_bit : ℕ → ℕ → ℕ
set_bit mask n = bit_or mask (2 ^ n)

unfoldable pub enable_irq : ℕ → Pic → Pic
enable_irq irq_num s =
    if ltb 15 irq_num
    then s
    else if leb 8 irq_num
    then outb (clear_bit s.slave_mask (irq_num - 8)) slave_data_port
        (record s { slave_mask = clear_bit s.slave_mask (irq_num - 8) })
    else outb (clear_bit s.master_mask irq_num) master_data_port
        (record s { master_mask = clear_bit s.master_mask irq_num })

unfoldable pub disable_irq : ℕ → Pic → Pic
disable_irq irq_num s =
    if ltb 15 irq_num
    then s
    else if leb 8 irq_num
    then outb (set_bit s.slave_mask (irq_num - 8)) slave_data_port
        (record s { slave_mask = set_bit s.slave_mask (irq_num - 8) })
    else outb (set_bit s.master_mask irq_num) master_data_port
        (record s { master_mask = set_bit s.master_mask irq_num })

unfoldable pub send_eoi : ℕ → Pic → Pic
send_eoi irq_num s =
    if ltb 15 irq_num
    then s
    else if leb 8 irq_num
    then outb (bit_or eoi 0x02) master_command_port
        (outb (bit_or eoi (irq_num - 8)) slave_command_port s)
    else outb (bit_or eoi irq_num) master_command_port s

-- The control words, master then slave.
abbrev pub control_words : List Write
control_words =
    (0x11, master_command_port)
    ∷ (0x20, master_data_port)
    ∷ (0x04, master_data_port)
    ∷ (0x01, master_data_port)
    ∷ (0x11, slave_command_port)
    ∷ (0x28, slave_data_port)
    ∷ (0x02, slave_data_port)
    ∷ (0x01, slave_data_port)
    ∷ []

unfoldable pub i8259_init : Pic → Pic
unfolding enable_irq clear_bit
i8259_init s =
    let masked = outb 0xFF slave_data_port (outb 0xFF master_data_port s) in
    enable_irq 2 (record masked {
      master_mask = 0xFF;
      slave_mask = 0xFF;
      written = masked.written ++ control_words;
    })
