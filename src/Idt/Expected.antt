-- ===== src/Idt/Expected.antt =====
-- The handlers that the vectors of idt.c are for, by the order of the processor's exceptions and the
-- numbers of the interrupts.
use linux_os.Base.{
  ℕ, ◌+◌, ◌<◌, ◌≡◌, refl, sym, ap, ◌∙◌, Bool, true, false, Option, none, some, List, [], ◌∷◌, ◌++◌,
  map, ==_iff, get_elem?, get_or, ◌==◌, if◌then◌else◌, all_below, all_below_sound,
}
use linux_os.Idt.{
  Handler, div_by_zero_exception, debug_exception, nmi_exception, breakpoint_exception,
  overflow_exception, bound_range_exceeded_exception, invalid_opcode_exception,
  device_not_available_exception, double_fault_exception, coprocessor_segment_overrun,
  invalid_tss_exception, segment_not_present_exception, stack_fault_exception,
  general_protection_exception, page_fault_exception, x87_fpu_fp_error, alignment_check_exception,
  machine_check_exception, simd_fp_exception, sys_call_handler, asm_link_kb, asm_link_rtc,
  asm_link_pit, system_call, vectors,
}

-- The handler of a vector in a list of entries.
abbrev pub handler_of : List (ℕ × Handler) → ℕ → Option Handler
handler_of [] i = none
handler_of ((j, h) ∷ rest) i = if j == i then some h else handler_of rest i

-- The exceptions of the processor in the order of their vectors, 15 being reserved.
abbrev exceptions : List (Option Handler)
exceptions =
    map some (
      div_by_zero_exception ∷ debug_exception ∷ nmi_exception ∷ breakpoint_exception
      ∷ overflow_exception ∷ bound_range_exceeded_exception ∷ invalid_opcode_exception
      ∷ device_not_available_exception ∷ double_fault_exception ∷ coprocessor_segment_overrun
      ∷ invalid_tss_exception ∷ segment_not_present_exception ∷ stack_fault_exception
      ∷ general_protection_exception ∷ page_fault_exception ∷ [])
    ++ none
      ∷ map some (
          x87_fpu_fp_error ∷ alignment_check_exception ∷ machine_check_exception ∷ simd_fp_exception
          ∷ [])

-- The handler that a vector is for: interrupt n of the controllers has the vector 32 + n.
unfoldable pub expected_handler : ℕ → Option Handler
expected_handler i =
    if i == 32 + 0
    then some asm_link_pit
    else if i == 32 + 1
    then some asm_link_kb
    else if i == 32 + 8
    then some asm_link_rtc
    else if i == 128
    then some sys_call_handler
    else get_or exceptions i none

handler_number : Handler → ℕ
handler_number div_by_zero_exception = 0
handler_number debug_exception = 1
handler_number nmi_exception = 2
handler_number breakpoint_exception = 3
handler_number overflow_exception = 4
handler_number bound_range_exceeded_exception = 5
handler_number invalid_opcode_exception = 6
handler_number device_not_available_exception = 7
handler_number double_fault_exception = 8
handler_number coprocessor_segment_overrun = 9
handler_number invalid_tss_exception = 10
handler_number segment_not_present_exception = 11
handler_number stack_fault_exception = 12
handler_number general_protection_exception = 13
handler_number page_fault_exception = 14
handler_number x87_fpu_fp_error = 15
handler_number alignment_check_exception = 16
handler_number machine_check_exception = 17
handler_number simd_fp_exception = 18
handler_number sys_call_handler = 19
handler_number asm_link_kb = 20
handler_number asm_link_rtc = 21
handler_number asm_link_pit = 22
handler_number system_call = 23

all_handlers : List Handler
all_handlers =
    div_by_zero_exception ∷ debug_exception ∷ nmi_exception ∷ breakpoint_exception
    ∷ overflow_exception ∷ bound_range_exceeded_exception ∷ invalid_opcode_exception
    ∷ device_not_available_exception ∷ double_fault_exception ∷ coprocessor_segment_overrun
    ∷ invalid_tss_exception ∷ segment_not_present_exception ∷ stack_fault_exception
    ∷ general_protection_exception ∷ page_fault_exception ∷ x87_fpu_fp_error
    ∷ alignment_check_exception ∷ machine_check_exception ∷ simd_fp_exception ∷ sys_call_handler
    ∷ asm_link_kb ∷ asm_link_rtc ∷ asm_link_pit ∷ system_call ∷ []

handler_number-all : (h : Handler) → get_elem? all_handlers (handler_number h) ≡ some h
unfolding handler_number all_handlers
handler_number-all div_by_zero_exception = refl
handler_number-all debug_exception = refl
handler_number-all nmi_exception = refl
handler_number-all breakpoint_exception = refl
handler_number-all overflow_exception = refl
handler_number-all bound_range_exceeded_exception = refl
handler_number-all invalid_opcode_exception = refl
handler_number-all device_not_available_exception = refl
handler_number-all double_fault_exception = refl
handler_number-all coprocessor_segment_overrun = refl
handler_number-all invalid_tss_exception = refl
handler_number-all segment_not_present_exception = refl
handler_number-all stack_fault_exception = refl
handler_number-all general_protection_exception = refl
handler_number-all page_fault_exception = refl
handler_number-all x87_fpu_fp_error = refl
handler_number-all alignment_check_exception = refl
handler_number-all machine_check_exception = refl
handler_number-all simd_fp_exception = refl
handler_number-all sys_call_handler = refl
handler_number-all asm_link_kb = refl
handler_number-all asm_link_rtc = refl
handler_number-all asm_link_pit = refl
handler_number-all system_call = refl

same_handler : Option Handler → Option Handler → Bool
same_handler none none = true
same_handler none (some b) = false
same_handler (some a) none = false
same_handler (some a) (some b) = handler_number a == handler_number b

same_handler-true : (a b : Option Handler) → same_handler a b ≡ true → a ≡ b
unfolding same_handler
same_handler-true none none h = refl
same_handler-true none (some b) h = cc
same_handler-true (some a) none h = cc
same_handler-true (some a) (some b) h =
    sym (handler_number-all a)
    ∙ ap (get_elem? all_handlers) ((==_iff (handler_number a) (handler_number b)).0 h)
    ∙ handler_number-all b

handler_table : all_below 256 (λ i. same_handler (handler_of vectors i) (expected_handler i)) ≡ true
unfolding all_below same_handler handler_number expected_handler
handler_table = refl

pub handler_of-expected_handler : (i : ℕ) → i < 256 → handler_of vectors i ≡ expected_handler i
handler_of-expected_handler i h = same_handler-true (handler_of vectors i) (expected_handler i) (
    all_below_sound 256 (λ i. same_handler (handler_of vectors i) (expected_handler i)) i
      handler_table h)
