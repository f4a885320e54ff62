-- ===== src/Examples/Devices.antt =====
-- The page tables, the interrupt controller and the clock in their states after the boot.
use linux_os.Base.{
  ℕ, ◌+◌, ◌*◌, ◌≡◌, refl, length, false, none, some, [], ◌∷◌, ◌++◌, arith, ◌==◌, if◌then◌else◌,
  fill,
}
use linux_os.Base.Int.{pos, minus_one}
use linux_os.Paging.{Paging, blank_pde, blank_pte, page_init, map_memory, set_up_pid_map}
use linux_os.Paging.Laws.{user_address, with_program, map_memory_lem}
use linux_os.Pic.{Pic, enable_irq, disable_irq}
use linux_os.Pic.Laws.{is_enabled, IsByteMasks, bit, mask_of, data_port, irq_masks}
use linux_os.Idt.{Handler, Gate, exception_text, kernel_cs, initialize_idt}
use linux_os.Idt.Expected.{expected_handler}
use linux_os.Idt.Gates.{gate_offset, leads_to, access_byte, expected_access, initialize_idt-gates}
use linux_os.Rtc.{rtc_write, set_rate}
use linux_os.Rtc.Laws.{clock_rate, rtc_write_lem}

abbrev pub no_pages : Paging
no_pages = record {
  pde = λ i. blank_pde;
  pte = λ i. blank_pte;
  pte_vidmap = λ i. blank_pte;
  pte_address = 0x409000;
  vidmap_address = 0x40A000;
}

page_init-read_write : ((page_init no_pages).pde 32).read_write ≡ 1
unfolding page_init fill
page_init-read_write = refl

map_memory_lem_example :
    (user_address (map_memory 3 (page_init no_pages)) 0x8048018
      ≡ with_program 3 (page_init no_pages) 0x8048018)
    × (user_address (set_up_pid_map 3 (page_init no_pages)) 0x8048018
        ≡ with_program 3 (page_init no_pages) 0x8048018)
map_memory_lem_example =
    map_memory_lem (page_init no_pages) 3 0x8048018 (omega arith) page_init-read_write

abbrev pub all_masked : Pic
all_masked = record { master_mask = 0xFB; slave_mask = 0xFF; written = [] }

irq_masks_example :
    (is_enabled 1 (enable_irq 8 all_masked) ≡ false)
    × (is_enabled 1 (disable_irq 8 all_masked) ≡ false)
    × ((enable_irq 8 all_masked).written
        ≡ [] ++ (mask_of 8 (enable_irq 8 all_masked), data_port 8) ∷ [])
    × ((disable_irq 8 all_masked).written
        ≡ [] ++ (mask_of 8 (disable_irq 8 all_masked), data_port 8) ∷ [])
    × IsByteMasks (enable_irq 8 all_masked)
    × IsByteMasks (disable_irq 8 all_masked)
unfolding bit
irq_masks_example =
    irq_masks 8 1 all_masked (omega arith) (omega arith)
      (record { master = omega arith; slave = omega arith })

rtc_write_lem_example : rtc_write (pos 32) (pos 4) 0x26 ≡ (
    if clock_rate (pos 32) == 0
    then (minus_one, [])
    else (pos 4, set_rate 0x26 (clock_rate (pos 32))))
rtc_write_lem_example = rtc_write_lem (pos 32) (pos 4) 0x26

-- The table is zero, and the handlers lie from 4 MB on.
abbrev empty_gate : Gate
empty_gate = record {
  offset_15_00 = 0;
  seg_selector = 0;
  reserved4 = 0;
  reserved3 = 0;
  reserved2 = 0;
  reserved1 = 0;
  size = 0;
  reserved0 = 0;
  dpl = 0;
  present = 0;
  offset_31_16 = 0;
}

abbrev kept_at : Handler → ℕ
kept_at h = elim (exception_text h) [
  | none ↦ 0x404000
  | some message ↦ 0x400000 + 16 * length message
]

abbrev keyboard_vector : ℕ
keyboard_vector = 33

initialize_idt-gates_example :
    (access_byte (initialize_idt kept_at (λ i. empty_gate) keyboard_vector)
      ≡ expected_access keyboard_vector)
    × ((initialize_idt kept_at (λ i. empty_gate) keyboard_vector).seg_selector ≡ kernel_cs)
    × ((initialize_idt kept_at (λ i. empty_gate) keyboard_vector).reserved4 ≡ 0)
    × (gate_offset (initialize_idt kept_at (λ i. empty_gate) keyboard_vector)
        ≡ leads_to kept_at empty_gate (expected_handler keyboard_vector))
initialize_idt-gates_example =
    initialize_idt-gates kept_at (λ i. empty_gate) keyboard_vector (omega arith)
