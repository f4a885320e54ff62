-- ===== src/Paging.antt =====
-- The page tables of LinuxOS/student-distrib/paging.c and the functions that set them. The
-- addresses of the tables and what the processor keeps of them (`loadPageDirectory`,
-- `enablePaging`, `flush_tlb`) are outside: the first is an argument, the others change no table.
pub mod Laws
use linux_os.Base.{
  ℕ, ◌+◌, ◌*◌, ◌/◌, ◌%◌, ◌^◌, ◌==◌, ltb, ◌||◌, Option, none, some, if◌then◌else◌, update, fill,
}
use linux_os.Base.Int.{ℤ, pos, minus_one}

pub record PageDirectoryEntry : Type 0 where
  pub present : ℕ
  pub read_write : ℕ
  pub user_supervisor : ℕ
  pub write_through : ℕ
  pub cache_disable : ℕ
  pub accessed : ℕ
  pub dirty : ℕ
  pub page_size : ℕ
  pub global : ℕ
  pub available : ℕ
  pub page_table_base_addr : ℕ

pub record PageTableEntry : Type 0 where
  pub present : ℕ
  pub read_write : ℕ
  pub user_supervisor : ℕ
  pub write_through : ℕ
  pub cache_disable : ℕ
  pub accessed : ℕ
  pub dirty : ℕ
  pub page_attribute_table : ℕ
  pub global : ℕ
  pub available : ℕ
  pub page_base_addr : ℕ

-- `pte_address` and `vidmap_address` are where the linker puts the two page tables.
pub record Paging : Type 0 where
  pub pde : ℕ → PageDirectoryEntry
  pub pte : ℕ → PageTableEntry
  pub pte_vidmap : ℕ → PageTableEntry
  pub pte_address : ℕ
  pub vidmap_address : ℕ

abbrev pub num_entries : ℕ
num_entries = 1024

abbrev pub video : ℕ
video = 0xB8000

abbrev pub video_mem_index : ℕ
video_mem_index = 184

abbrev pub video_dir_index : ℕ
video_dir_index = 34

abbrev pub page_video : ℕ
page_video = 0xB8

abbrev pub start_of_user : ℕ
start_of_user = 0x800000

abbrev pub start_of_kernel : ℕ
start_of_kernel = 0x400000

-- What the three loops of `page_init` store.
abbrev pub blank_pte : PageTableEntry
blank_pte = record {
  present = 0;
  read_write = 1;
  user_supervisor = 0;
  write_through = 0;
  cache_disable = 0;
  accessed = 0;
  dirty = 0;
  page_attribute_table = 0;
  global = 0;
  available = 0;
  page_base_addr = 0;
}

abbrev pub blank_pde : PageDirectoryEntry
blank_pde = record {
  present = 0;
  read_write = 1;
  user_supervisor = 0;
  write_through = 0;
  cache_disable = 0;
  accessed = 0;
  dirty = 0;
  page_size = 0;
  global = 0;
  available = 0;
  page_table_base_addr = 0;
}

abbrev pub vidmap_pte : ℕ → PageTableEntry
vidmap_pte i = record blank_pte { page_base_addr = i; cache_disable = 1 }

-- The entries of the five pages of video memory.
abbrev pub video_pte : ℕ → PageTableEntry
video_pte k = record blank_pte {
  page_base_addr = video / 2 ^ 12 + k;
  cache_disable = 1;
  present = 1;
}

abbrev fill_video : (ℕ → PageTableEntry) → ℕ → PageTableEntry
fill_video pte =
    update
      (update
        (update
          (update (update pte video_mem_index (video_pte 0)) (video_mem_index + 1) (video_pte 1))
          (video_mem_index + 2) (video_pte 2))
        (video_mem_index + 3) (video_pte 3))
      (video_mem_index + 4) (video_pte 4)

unfoldable pub page_init : Paging → Paging
page_init s = record s {
  pte = fill_video (fill num_entries (λ _. blank_pte) s.pte);
  pte_vidmap = fill num_entries vidmap_pte s.pte_vidmap;
  pde =
      update
        (update (fill num_entries (λ _. blank_pde) s.pde) 0
          (record blank_pde { page_table_base_addr = s.pte_address / 2 ^ 12; present = 1 }))
        1
        (record blank_pde {
          page_table_base_addr = start_of_kernel / 2 ^ 12;
          page_size = 1;
          present = 1;
        });
}

unfoldable pub set_up_vidmap : Paging → Paging
set_up_vidmap s = record s {
  pde = update s.pde video_dir_index (record (s.pde video_dir_index) {
    present = 1;
    page_size = 0;
    user_supervisor = 1;
    page_table_base_addr = s.vidmap_address / 2 ^ 12;
  });
  pte_vidmap = update s.pte_vidmap 0 (record (s.pte_vidmap 0) {
    present = 1;
    user_supervisor = 1;
    page_base_addr = video / 2 ^ 12;
  });
}

-- A base address has 20 bits in its field.
abbrev pub program_base : ℕ → ℕ
program_base pid = (pid * start_of_kernel + start_of_user) % 2 ^ 32 / 2 ^ 12

unfoldable pub set_up_pid_map : ℕ → Paging → Paging
set_up_pid_map pid s = record s {
  pde = update s.pde 32 (record (s.pde 32) {
    present = 1;
    page_size = 1;
    user_supervisor = 1;
    read_write = 1;
    page_table_base_addr = program_base pid;
  });
}

-- `map_memory` of sysCalls.c. It leaves the write bit as it is.
unfoldable pub map_memory : ℕ → Paging → Paging
map_memory pid s = record s {
  pde = update s.pde 32 (record (s.pde 32) {
    page_table_base_addr = program_base pid;
    user_supervisor = 1;
    present = 1;
    page_size = 1;
  });
}

-- The last argument is what `get_visible_terminal` returns. All fields of the directory entry are
-- cleared first.
unfoldable pub set_up_vidmap_terminals : ℕ → ℕ → ℕ → Paging → Paging
set_up_vidmap_terminals vir_addr term terminal_display s = record s {
  pde = update s.pde (vir_addr / 2 ^ 22) (record blank_pde {
    present = 1;
    user_supervisor = 1;
    read_write = 1;
    page_table_base_addr = s.vidmap_address / 2 ^ 12;
  });
  pte_vidmap = update s.pte_vidmap 0 (record blank_pte {
    present = 1;
    read_write = 1;
    user_supervisor = 1;
    write_through = 1;
    page_base_addr = if term == terminal_display then page_video else 0;
  });
}

unfoldable pub set_active_paging : Paging → Paging
set_active_paging s = record s {
  pte = update s.pte page_video (record (s.pte page_video) { page_base_addr = page_video });
}

-- `vidmap` of sysCalls.c, with the address that it stores. NULL is `none`. The page begins at 136 MB.
unfoldable pub vidmap : Option ℕ → Paging → ℤ × Option ℕ × Paging
vidmap none s = (minus_one, none, s)
vidmap (some screen_start) s =
    if ltb screen_start 0x8000000 || ltb 0x8400000 screen_start
    then (minus_one, none, s)
    else (pos 0, some 0x8800000, set_up_vidmap s)
