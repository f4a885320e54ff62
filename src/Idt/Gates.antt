-- ===== src/Idt/Gates.antt =====
-- The gates that initialize_idt leaves.
use linux_os.Base.{
  ℕ, ◌+◌, ◌*◌, ◌%◌, ◌^◌, ◌<◌, ◌≡◌, inl, inr, refl, sym, ap, ◌∙◌, Option, none, some, List, [], ◌∷◌,
  ◌&&◌, arith, ltb, leb, ◌==◌, if◌then◌else◌, Bool-cases, Option-cases, update, update_self,
}
use linux_os.Idt.Expected.{handler_of, expected_handler, handler_of-expected_handler}
use linux_os.Idt.{
  Handler, kernel_cs, Gate, init_gate, vectors, set_idt_entry, set_entries, initialize_idt, num_vec,
}

-- The address that the processor takes from a gate.
abbrev pub gate_offset : Gate → ℕ
gate_offset g = g.offset_31_16 * 2 ^ 16 + g.offset_15_00

set_entries-other :
    (address : Handler → ℕ) (table : List (ℕ × Handler)) (idt : ℕ → Gate) (i : ℕ)
    → handler_of table i ≡ none
    → set_entries address table idt i ≡ idt i
unfolding set_entries
set_entries-other address [] idt i e = refl
set_entries-other address ((j, h) ∷ rest) idt i e = elim (Bool-cases (j == i)) [
  | inl same ↦ ground (arith, same, e)
  | inr other ↦
      set_entries-other address rest (update idt j (set_idt_entry (idt j) (address h))) i
        (ground (arith, other, e))
      ∙ ground (arith, other)
]

-- The fields that the loop sets, which no entry changes.
abbrev pub SameFlags : Gate → Gate → Type 0
SameFlags g h =
    (h.present ≡ g.present)
    × (h.dpl ≡ g.dpl)
    × (h.size ≡ g.size)
    × (h.reserved0 ≡ g.reserved0)
    × (h.reserved1 ≡ g.reserved1)
    × (h.reserved2 ≡ g.reserved2)
    × (h.reserved3 ≡ g.reserved3)
    × (h.reserved4 ≡ g.reserved4)
    × (h.seg_selector ≡ g.seg_selector)

set_entries-SameFlags :
    (address : Handler → ℕ) (table : List (ℕ × Handler)) (idt : ℕ → Gate) (i : ℕ)
    → SameFlags (idt i) (set_entries address table idt i)
unfolding set_entries
set_entries-SameFlags address [] idt i = (refl, refl, refl, refl, refl, refl, refl, refl, refl)
set_entries-SameFlags address ((j, h) ∷ rest) idt i =
    let idt' = update idt j (set_idt_entry (idt j) (address h)) in
    let later = set_entries-SameFlags address rest idt' i in
    elim (Bool-cases (j == i)) [
      | inl same ↦ ground (arith, same, later)
      | inr other ↦ ground (arith, other, later)
    ]

-- No vector has two entries.
abbrev pub IsDistinct : List (ℕ × Handler) → Type 0
IsDistinct [] = Unit
IsDistinct ((j, h) ∷ rest) = (handler_of rest j ≡ none) × IsDistinct rest

set_idt_entry-gate_offset : (g : Gate) (a : ℕ) → gate_offset (set_idt_entry g a) ≡ a % 2 ^ 32
set_idt_entry-gate_offset g a = omega arith

set_entries-entry :
    (address : Handler → ℕ) (table : List (ℕ × Handler)) (idt : ℕ → Gate) (i : ℕ) (h : Handler)
    → IsDistinct table
    → handler_of table i ≡ some h
    → gate_offset (set_entries address table idt i) ≡ address h % 2 ^ 32
unfolding set_entries
set_entries-entry address [] idt i h d e = ground (arith, e)
set_entries-entry address ((j, x) ∷ rest) idt i h d e =
    let idt' = update idt j (set_idt_entry (idt j) (address x)) in
    elim (Bool-cases (j == i)) [
      | inl same ↦
          let at : j ≡ i = ground (arith, same) in
          let is : x ≡ h = ground (arith, same, e) in
          ap gate_offset
            (set_entries-other address rest idt' i (ap (handler_of rest) (sym at) ∙ d.0))
          ∙ ap gate_offset
              (ap idt' (sym at) ∙ update_self idt j (set_idt_entry (idt j) (address x)))
          ∙ set_idt_entry-gate_offset (idt j) (address x)
          ∙ ap (λ (k : Handler). address k % 2 ^ 32) is
      | inr other ↦ set_entries-entry address rest idt' i h d.1 (ground (arith, other, e))
    ]

vectors-IsDistinct : IsDistinct vectors
vectors-IsDistinct = (
  refl,
  (
    refl,
    (
      refl,
      (
        refl,
        (
          refl,
          (
            refl,
            (
              refl,
              (
                refl,
                (
                  refl,
                  (
                    refl,
                    (
                      refl,
                      (
                        refl,
                        (
                          refl,
                          (
                            refl,
                            (
                              refl,
                              (refl, (refl, (refl, (refl, (refl, (refl, (refl, (refl, tt)))))))),
                            ),
                          ),
                        ),
                      ),
                    ),
                  ),
                ),
              ),
            ),
          ),
        ),
      ),
    ),
  ),
)

-- The address that a vector leads to, with the gate it had before.
abbrev pub leads_to : (Handler → ℕ) → Gate → Option Handler → ℕ
leads_to address g none = gate_offset g
leads_to address g (some h) = address h % 2 ^ 32

-- The byte of a gate with the present bit, the privilege level and the type, as the processor reads it.
abbrev pub access_byte : Gate → ℕ
access_byte g =
    g.present * 128
    + g.dpl * 32
    + g.reserved0 * 16
    + g.size * 8
    + g.reserved1 * 4
    + g.reserved2 * 2
    + g.reserved3

-- A 32-bit interrupt gate (type 14) of the kernel for the vectors 32 to 47, and a trap gate (type 15)
-- for the others, which user code may call at vector 128 and which is absent at vector 15.
abbrev pub expected_access : ℕ → ℕ
expected_access i =
    if i == 15 then 0x0F else if i == 128 then 0xEF else if leb 32 i && ltb i 48 then 0x8E else 0x8F

-- The fields of `access_byte` and the others after the loop.
initialize_idt-access :
    (address : Handler → ℕ) (idt : ℕ → Gate) (i : ℕ)
    → i < 256
    → let g = initialize_idt address idt i in
      (access_byte g ≡ expected_access i) × (g.seg_selector ≡ kernel_cs) × (g.reserved4 ≡ 0)
unfolding initialize_idt init_gate
initialize_idt-access address idt i h =
    let idt' = λ (j : ℕ). if ltb j num_vec then init_gate j (idt j) else idt j in
    let flags = set_entries-SameFlags address vectors idt' i in
    (ground (arith, h, flags), ground (arith, h, flags), ground (arith, h, flags))

-- After initialize_idt, whatever the table held, each of the 256 gates is one of the kernel's code
-- segment: that of vector 15 is absent, that of 128 is a trap gate that user code may call, those of 32
-- to 47 are interrupt gates and all others trap gates of the kernel. The exceptions 0 to 19 but 15, the
-- timer, the keyboard and the clock at 32, 33 and 40, and the system call at 128 lead to their handlers;
-- any other gate is left with the offset that the table had, and is present all the same unless it is 15.
pub initialize_idt-gates :
    (address : Handler → ℕ) (idt : ℕ → Gate) (i : ℕ)
    → i < 256
    → let g = initialize_idt address idt i in
      (access_byte g ≡ expected_access i)
      × (g.seg_selector ≡ kernel_cs)
      × (g.reserved4 ≡ 0)
      × (gate_offset g ≡ leads_to address (idt i) (expected_handler i))
unfolding initialize_idt init_gate
initialize_idt-gates address idt i h =
    let idt' = λ (j : ℕ). if ltb j num_vec then init_gate j (idt j) else idt j in
    let (access, selector, zero_byte) = initialize_idt-access address idt i h in
    (
      access,
      selector,
      zero_byte,
      elim (Option-cases (handler_of vectors i)) [
        | inl unset ↦
            ap gate_offset (set_entries-other address vectors idt' i unset)
            ∙ ground (arith, h)
            ∙ ap (leads_to address (idt i)) (sym unset)
        | inr (x, entry) ↦
            set_entries-entry address vectors idt' i x vectors-IsDistinct entry
            ∙ ap (leads_to address (idt i)) (sym entry)
      ]
          ∙ ap (leads_to address (idt i)) (handler_of-expected_handler i h),
    )
