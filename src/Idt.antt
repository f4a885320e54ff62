-- ===== src/Idt.antt =====
-- The interrupt table of LinuxOS/student-distrib/idt.c: the gates and the handlers of the exceptions.
pub mod Expected
pub mod Gates
use linux_os.Base.{
  ℕ, zero, ◌/◌, ◌%◌, ◌^◌, not, ◌&&◌, Option, none, some, List, [], ◌∷◌, ◌++◌, ltb, leb, ◌==◌,
  if◌then◌else◌, ◌>>=◌, ◌>>◌, update, codes,
}
use linux_os.Console.{Console, clear}
use linux_os.Printf.{printf}

-- The functions whose addresses the table gets, which the linker chooses, and `system_call`, which is
-- not used.
pub data Handler : Type 0 where
  div_by_zero_exception debug_exception nmi_exception breakpoint_exception overflow_exception
        bound_range_exceeded_exception invalid_opcode_exception device_not_available_exception
        double_fault_exception coprocessor_segment_overrun invalid_tss_exception
        segment_not_present_exception stack_fault_exception general_protection_exception
        page_fault_exception x87_fpu_fp_error alignment_check_exception machine_check_exception
        simd_fp_exception sys_call_handler asm_link_kb asm_link_rtc asm_link_pit system_call :
      Handler

-- What the handler of an exception prints; the other four are not in idt.c.
unfoldable pub exception_text : Handler → Option (List ℕ)
exception_text div_by_zero_exception = some (codes " divide by zero exception raised ")
exception_text debug_exception = some (codes " debug exception raised ")
exception_text nmi_exception = some (codes " non-maskable interrupt exception raised ")
exception_text breakpoint_exception = some (codes " breakpoint exception raised ")
exception_text overflow_exception = some (codes " overflow exception raised ")
exception_text bound_range_exceeded_exception =
    some (codes " bound range exceeded exception raised ")
exception_text invalid_opcode_exception = some (codes " invalid opcode exception raised ")
exception_text device_not_available_exception =
    some (codes " device not available exception raised ")
exception_text double_fault_exception = some (codes " double fault exception raised ")
exception_text coprocessor_segment_overrun =
    some (codes " coprocessor segment overrun exception raised ")
exception_text invalid_tss_exception = some (codes " invalid TSS exception raised ")
exception_text segment_not_present_exception = some (codes " segment not present exception raised ")
exception_text stack_fault_exception = some (codes " stack fault exception raised ")
exception_text general_protection_exception = some (codes " general protection exception raised ")
exception_text page_fault_exception = some (codes " page-fault exception raised ")
exception_text x87_fpu_fp_error = some (codes " x87 FPU floating-point exception raised ")
exception_text alignment_check_exception = some (codes " alignment check exception raised ")
exception_text machine_check_exception = some (codes " machine check exception raised ")
exception_text simd_fp_exception = some (codes " SIMD Floating-Point exception raised ")
exception_text system_call = some (codes " System Call raised ")
exception_text sys_call_handler = none
exception_text asm_link_kb = none
exception_text asm_link_rtc = none
exception_text asm_link_pit = none

-- An exception's handler: clear(); printf(text); and a loop that does not end, with this screen.
unfoldable pub raise_exception : Handler → Console → Option Console
raise_exception h s = do
  message ← exception_text h
  (n, s') ← printf (λ a. []) (message ++ (0 ∷ [])) [] (clear s)
  some s'

pub record Gate : Type 0 where
  pub offset_15_00 : ℕ
  pub seg_selector : ℕ
  pub reserved4 : ℕ
  pub reserved3 : ℕ
  pub reserved2 : ℕ
  pub reserved1 : ℕ
  pub size : ℕ
  pub reserved0 : ℕ
  pub dpl : ℕ
  pub present : ℕ
  pub offset_31_16 : ℕ

abbrev pub num_vec : ℕ
num_vec = 256

abbrev pub kernel_cs : ℕ
kernel_cs = 0x10

-- SET_IDT_ENTRY
abbrev pub set_idt_entry : Gate → ℕ → Gate
set_idt_entry str handler = record str {
  offset_31_16 = handler % 2 ^ 32 / 2 ^ 16;
  offset_15_00 = handler % 2 ^ 16;
}

-- The fields that the loop sets.
unfoldable pub init_gate : ℕ → Gate → Gate
init_gate i g = record g {
  present = if i == 15 then 0 else 1;
  dpl = if i == 0x80 then 3 else 0;
  size = 1;
  reserved0 = 0;
  reserved1 = 1;
  reserved2 = 1;
  reserved3 = if leb 0x20 i && leb i 0x2F then 0 else 1;
  reserved4 = 0;
  seg_selector = kernel_cs;
}

abbrev pub vectors : List (ℕ × Handler)
vectors =
    (0, div_by_zero_exception)
    ∷ (1, debug_exception)
    ∷ (2, nmi_exception)
    ∷ (3, breakpoint_exception)
    ∷ (4, overflow_exception)
    ∷ (5, bound_range_exceeded_exception)
    ∷ (6, invalid_opcode_exception)
    ∷ (7, device_not_available_exception)
    ∷ (8, double_fault_exception)
    ∷ (9, coprocessor_segment_overrun)
    ∷ (10, invalid_tss_exception)
    ∷ (11, segment_not_present_exception)
    ∷ (12, stack_fault_exception)
    ∷ (13, general_protection_exception)
    ∷ (14, page_fault_exception)
    ∷ (16, x87_fpu_fp_error)
    ∷ (17, alignment_check_exception)
    ∷ (18, machine_check_exception)
    ∷ (19, simd_fp_exception)
    ∷ (128, sys_call_handler)
    ∷ (33, asm_link_kb)
    ∷ (40, asm_link_rtc)
    ∷ (32, asm_link_pit)
    ∷ []

unfoldable pub set_entries : (Handler → ℕ) → List (ℕ × Handler) → (ℕ → Gate) → ℕ → Gate
set_entries address [] idt = idt
set_entries address ((i, h) ∷ rest) idt =
    set_entries address rest (update idt i (set_idt_entry (idt i) (address h)))

unfoldable pub initialize_idt : (Handler → ℕ) → (ℕ → Gate) → ℕ → Gate
initialize_idt address idt =
    set_entries address vectors (λ i. if ltb i num_vec then init_gate i (idt i) else idt i)
