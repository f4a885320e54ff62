-- ===== src/Paging/Laws.antt =====
-- What the page tables of paging.c grant.
use linux_os.Base.{
  ℕ, ◌+◌, ◌-◌, ◌*◌, ◌/◌, ◌%◌, ◌^◌, ◌≤◌, ◌<◌, ◌≡◌, ◌≢◌, inl, inr, refl, sym, ap, ◌∙◌, true, false,
  ◌&&◌, Option, none, some, arith, ltb, leb, ◌==◌, if◌then◌else◌, Bool-cases, update, update_self,
  update_ne, fill_lem,
}
use linux_os.Paging.{
  Paging, PageDirectoryEntry, page_init, map_memory, set_up_pid_map, set_up_vidmap_terminals,
  program_base, num_entries, blank_pde, blank_pte, PageTableEntry,
}

-- The physical address of a directory entry's page, and the 4 MB that it spans.
abbrev pub page_start : PageDirectoryEntry → ℕ
page_start e = e.page_table_base_addr * 2 ^ 12

-- After `page_init` exactly the first two entries of the directory and the five pages of video
-- memory in the first page table are present, and user code may use none of the directory's entries.
pub page_init-present :
    (s : Paging) (i : ℕ)
    → i < num_entries
    → (((page_init s).pde i).present ≡ (if ltb i 2 then 1 else 0))
      × (((page_init s).pte i).present ≡ (if leb 184 i && leb i 188 then 1 else 0))
      × (((page_init s).pde i).user_supervisor ≡ 0)
unfolding page_init
page_init-present s i h = (
  ground (arith, fill_lem num_entries (λ _. blank_pde) s.pde i),
  ground (arith, fill_lem num_entries (λ _. blank_pte) s.pte i),
  ground (arith, fill_lem num_entries (λ _. blank_pde) s.pde i),
)

-- Where user code reaches and may write from a virtual address: the processor's walk through the
-- directory and, for a page of 4 KB, one of the two page tables. `none` is a page fault.
user_page : PageTableEntry → ℕ → Option ℕ
user_page e address =
    if (e.present == 1) && (e.user_supervisor == 1) && (e.read_write == 1)
    then some (e.page_base_addr * 2 ^ 12 + address % 2 ^ 12)
    else none

user_walk : Paging → PageDirectoryEntry → ℕ → Option ℕ
user_walk s e address =
    if (e.present == 1) && (e.user_supervisor == 1) && (e.read_write == 1)
    then if e.page_size == 1
      then some (page_start e + address % 2 ^ 22)
      else if e.page_table_base_addr == s.pte_address / 2 ^ 12
      then user_page (s.pte (address / 2 ^ 12 % num_entries)) address
      else if e.page_table_base_addr == s.vidmap_address / 2 ^ 12
      then user_page (s.pte_vidmap (address / 2 ^ 12 % num_entries)) address
      else none
    else none

unfoldable pub user_address : Paging → ℕ → Option ℕ
unfolding user_walk user_page
user_address s address = user_walk s (s.pde (address / 2 ^ 22)) address

-- The translation with the program of a pid at 128 MB and all else as before.
abbrev pub with_program : ℕ → Paging → ℕ → Option ℕ
with_program pid s address =
    if leb 0x8000000 address && ltb address 0x8400000
    then some (0x800000 + pid * 0x400000 + (address - 0x8000000))
    else user_address s address

user_walk-program :
    (s : Paging) (e : PageDirectoryEntry) (pid address : ℕ)
    → pid < 6
    → 0x8000000 ≤ address
    → address < 0x8400000
    → e.present ≡ 1
    → e.user_supervisor ≡ 1
    → e.read_write ≡ 1
    → e.page_size ≡ 1
    → e.page_table_base_addr ≡ program_base pid
    → user_walk s e address ≡ some (0x800000 + pid * 0x400000 + (address - 0x8000000))
unfolding user_walk
user_walk-program s e pid address low from to p u w z at =
    let start : page_start e ≡ 0x800000 + pid * 0x400000 = omega (arith, at) in
    let offset : address % 2 ^ 22 ≡ address - 0x8000000 = omega arith in
    ground (arith, p, u, w, z, start, offset)

in_program :
    (address : ℕ) → leb 0x8000000 address && ltb address 0x8400000 ≡ true → address / 2 ^ 22 ≡ 32
in_program address h =
    let from : 0x8000000 ≤ address = ground arith in
    let to : address < 0x8400000 = ground arith in omega (arith, from, to)

not_in_program :
    (address : ℕ) → leb 0x8000000 address && ltb address 0x8400000 ≡ false → address / 2 ^ 22 ≢ 32
not_in_program address h e =
    let from : 0x8000000 ≤ address = omega (arith, e) in
    let to : address < 0x8400000 = omega (arith, e) in ground (arith, from, to)

-- Any change of the 32nd entry to such a page, and of nothing else.
user_address-program :
    (s : Paging) (e : PageDirectoryEntry) (pid address : ℕ)
    → pid < 6
    → e.present ≡ 1
    → e.user_supervisor ≡ 1
    → e.read_write ≡ 1
    → e.page_size ≡ 1
    → e.page_table_base_addr ≡ program_base pid
    → user_address (record s { pde = update s.pde 32 e }) address ≡ with_program pid s address
unfolding user_address user_walk
user_address-program s e pid address low p u w z at =
    elim (Bool-cases (leb 0x8000000 address && ltb address 0x8400000)) [
      | inl inside ↦
          let s' : Paging = record s { pde = update s.pde 32 e } in
          ap (λ (i : ℕ). user_walk s' (update s.pde 32 e i) address) (in_program address inside)
          ∙ ap (λ (d : PageDirectoryEntry). user_walk s' d address) (update_self s.pde 32 e)
          ∙ user_walk-program s' e pid address low (ground arith) (ground arith) p u w z at
          ∙ rw inside refl
      | inr outside ↦
          let s' : Paging = record s { pde = update s.pde 32 e } in
          ap (λ (d : PageDirectoryEntry). user_walk s' d address)
            (update_ne s.pde 32 (address / 2 ^ 22) e (λ h. not_in_program address outside (sym h)))
          ∙ rw outside refl
    ]

-- `map_memory` and the scheduler's `set_up_pid_map` let user code read and write, at the 4 MB from 128
-- MB on, the 4 MB from 8 MB + 4 MB * pid on, and leave the translation of every other address as it
-- was. The pid is one of the six; for `map_memory`, which keeps the entry's write bit, that bit is set.
pub map_memory_lem :
    (s : Paging) (pid address : ℕ)
    → pid < 6
    → (s.pde 32).read_write ≡ 1
    → (user_address (map_memory pid s) address ≡ with_program pid s address)
      × (user_address (set_up_pid_map pid s) address ≡ with_program pid s address)
unfolding map_memory set_up_pid_map
map_memory_lem s pid address h writes = (
  user_address-program s _ pid address h refl refl writes refl refl,
  user_address-program s _ pid address h refl refl refl refl refl,
)

-- A switch to a terminal that is not on display leaves the page that `vidmap` hands out, present
-- and writable for user code, on physical page 0.
pub set_up_vidmap_terminals-hidden :
    (s : Paging) (vir_addr term display : ℕ)
    → term ≢ display
    → let e = (set_up_vidmap_terminals vir_addr term display s).pte_vidmap 0 in
      (e.present ≡ 1) × (e.user_supervisor ≡ 1) × (e.read_write ≡ 1) × (e.page_base_addr ≡ 0)
unfolding set_up_vidmap_terminals
set_up_vidmap_terminals-hidden s vir_addr term display away = (refl, refl, refl, ground arith)
