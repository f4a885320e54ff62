-- ===== src/Boot.antt =====
-- `entry` of LinuxOS/student-distrib/kernel.c: what the boot loader's information is printed as, the
-- descriptors of the processor's tables, and the initialisations before the first shell.
pub mod Ready
use linux_os.Base.{
  ℕ, zero, suc, ◌+◌, ◌*◌, ◌/◌, ◌%◌, ◌^◌, Bool, true, false, ◌&&◌, Option, none, some, List, [], ◌∷◌,
  ◌++◌, ltb, ◌==◌, if◌then◌else◌, ◌>>=◌, codes,
}
use linux_os.Base.Int.{signed8, unsigned32}
use linux_os.Console.{Console, clear, clear_pos}
use linux_os.FileSystem.{BootBlock, Layout, file_init}
use linux_os.Idt.{Gate, Handler, initialize_idt}
use linux_os.Interrupts.{keyboard_init}
use linux_os.Machine.{Machine}
use linux_os.Paging.{page_init}
use linux_os.Pic.{i8259_init}
use linux_os.Printf.{printf}
use linux_os.Rtc.{rtc_init}
use linux_os.Scheduler.{pit_init}

-- multiboot.h
pub record ElfSectionHeaderTable : Type 0 where
  pub num : ℕ
  pub size : ℕ
  pub addr : ℕ
  pub shndx : ℕ

pub record MultibootInfo : Type 0 where
  pub flags : ℕ
  pub mem_lower : ℕ
  pub mem_upper : ℕ
  pub boot_device : ℕ
  pub cmdline : ℕ
  pub mods_count : ℕ
  pub elf_sec : ElfSectionHeaderTable
  pub mmap_length : ℕ
  pub mmap_addr : ℕ

pub record Module : Type 0 where
  pub mod_start : ℕ
  pub mod_end : ℕ

pub record MemoryMap : Type 0 where
  pub size : ℕ
  pub base_addr_low : ℕ
  pub base_addr_high : ℕ
  pub length_low : ℕ
  pub length_high : ℕ
  pub type : ℕ

-- What the boot loader has left in memory: its information, the modules from `mods_addr` on, the
-- memory map's entry at an address, the bytes, the text and the boot block at an address.
pub record Loaded : Type 0 where
  pub mbi : MultibootInfo
  pub module_at : ℕ → Module
  pub mmap : ℕ → MemoryMap
  pub byte : ℕ → ℕ
  pub text : ℕ → List ℕ
  pub boot_block : ℕ → BootBlock

-- `seg_desc_t` of x86_desc.h
pub record SegDesc : Type 0 where
  pub seg_lim_15_00 : ℕ
  pub base_15_00 : ℕ
  pub base_23_16 : ℕ
  pub type : ℕ
  pub sys : ℕ
  pub dpl : ℕ
  pub present : ℕ
  pub seg_lim_19_16 : ℕ
  pub avail : ℕ
  pub reserved : ℕ
  pub opsize : ℕ
  pub granularity : ℕ
  pub base_31_24 : ℕ

-- SET_LDT_PARAMS and SET_TSS_PARAMS
unfoldable pub set_params : ℕ → ℕ → SegDesc → SegDesc
set_params addr lim str = record str {
  base_31_24 = addr / 2 ^ 24 % 2 ^ 8;
  base_23_16 = addr / 2 ^ 16 % 2 ^ 8;
  base_15_00 = addr % 2 ^ 16;
  seg_lim_19_16 = lim / 2 ^ 16 % 2 ^ 4;
  seg_lim_15_00 = lim % 2 ^ 16;
}

-- The fields that `entry` sets in the LDT's and in the TSS's descriptor before the macro.
abbrev pub ldt_fields : SegDesc → SegDesc
ldt_fields d = record d {
  granularity = 0;
  opsize = 1;
  reserved = 0;
  avail = 0;
  present = 1;
  dpl = 0;
  sys = 0;
  type = 2;
}

abbrev pub tss_fields : SegDesc → SegDesc
tss_fields d = record d {
  granularity = 0;
  opsize = 0;
  reserved = 0;
  avail = 0;
  present = 1;
  dpl = 0;
  sys = 0;
  type = 9;
}

-- CHECK_FLAG
abbrev pub check_flag : ℕ → ℕ → Bool
check_flag flags bit = flags / 2 ^ bit % 2 == 1

abbrev pub multiboot_bootloader_magic : ℕ
multiboot_bootloader_magic = 0x2BADB002

module _ (l : Loaded) where
  -- A call of printf, whose result is not used.
  abbrev pub print : List ℕ → List ℕ → Console → Option Console
  print format args s = do (n, s) ← printf l.text (format ++ 0 ∷ []) args s; some s

  -- The loop over the first bytes of a module, with the rounds that are left.
  unfoldable pub print_bytes_of : ℕ → ℕ → Console → Option Console
  print_bytes_of zero a s = some s
  print_bytes_of (suc rounds) a s = do
    s ← print (codes "0x%x ") (unsigned32 (signed8 (l.byte a)) ∷ []) s
    print_bytes_of rounds (suc a) s

  unfoldable pub print_modules : ℕ → ℕ → Console → Option Console
  unfolding print_bytes_of
  print_modules zero mod_count s = some s
  print_modules (suc rounds) mod_count s = do
    let m = l.module_at mod_count
    s ← print (codes "Module %d loaded at address: 0x%#x\n") (mod_count ∷ m.mod_start ∷ []) s
    s ← print (codes "Module %d ends at address: 0x%#x\n") (mod_count ∷ m.mod_end ∷ []) s
    s ← print (codes "First few bytes of module:\n") [] s
    s ← print_bytes_of 16 m.mod_start s
    s ← print (codes "\n") [] s
    print_modules rounds (suc mod_count) s

  -- The loop over the memory map. An entry takes four bytes or more, so the length of the map bounds
  -- the rounds if no address wraps around.
  unfoldable pub print_memory_map : ℕ → ℕ → Console → Option Console
  print_memory_map zero a s = none
  print_memory_map (suc rounds) a s =
      elim (ltb a ((l.mbi.mmap_addr + l.mbi.mmap_length) % 2 ^ 32)) [
        | true ↦ (do
          let m = l.mmap a
          s ←
              print
                (codes
                  "    size = 0x%x, base_addr = 0x%#x%#x\n    type = 0x%x,  length    = 0x%#x%#x\n")
                (m.size ∷ m.base_addr_high ∷ m.base_addr_low ∷ m.type ∷ m.length_high ∷ m.length_low
                  ∷ [])
                s
          print_memory_map rounds ((a + m.size + 4) % 2 ^ 32) s)
        | false ↦ some s
      ]

  abbrev pub print_if : Bool → List ℕ → List ℕ → Console → Option Console
  print_if test format args s = if test then print format args s else some s

  -- The lines before the test of the bits 4 and 5.
  unfoldable pub print_loaded : Console → Option Console
  unfolding print_modules
  print_loaded s = do
    let flags = l.mbi.flags
    s ← print (codes "flags = 0x%#x\n") (flags ∷ []) s
    s ←
        print_if (check_flag flags 0) (codes "mem_lower = %uKB, mem_upper = %uKB\n")
          (l.mbi.mem_lower ∷ l.mbi.mem_upper ∷ []) s
    s ← print_if (check_flag flags 1) (codes "boot_device = 0x%#x\n") (l.mbi.boot_device ∷ []) s
    s ← print_if (check_flag flags 2) (codes "cmdline = %s\n") (l.mbi.cmdline ∷ []) s
    if check_flag flags 3 then print_modules l.mbi.mods_count 0 s else some s

  -- The lines after it.
  unfoldable pub print_tables : Console → Option Console
  unfolding print_memory_map
  print_tables s = do
    let elf = l.mbi.elf_sec
    s ←
        print_if (check_flag l.mbi.flags 5)
          (codes "elf_sec: num = %u, size = 0x%#x, addr = 0x%#x, shndx = 0x%#x\n")
          (elf.num ∷ elf.size ∷ elf.addr ∷ elf.shndx ∷ []) s
    if check_flag l.mbi.flags 6
        then (do
          s ←
              print (codes "mmap_addr = 0x%#x, mmap_length = 0x%x\n")
                (l.mbi.mmap_addr ∷ l.mbi.mmap_length ∷ []) s
          print_memory_map (l.mbi.mmap_length + 1) l.mbi.mmap_addr s)
        else some s

-- The state that `entry` sets up: the machine, the interrupt table, what file_init keeps, the two
-- descriptors of the global table, and the selectors in the TSS.
pub record Boot : Type 0 where
  pub machine : Machine
  pub idt : ℕ → Gate
  pub layout : Option Layout
  pub ldt_desc_ptr : SegDesc
  pub tss_desc_ptr : SegDesc
  pub ldt_segment_selector : ℕ
  pub ss0 : ℕ

-- What the linker and the devices give: the addresses of the handlers, where the LDT and the TSS stand
-- with their limits, and the clock's data port.
pub record Placed : Type 0 where
  pub handler : Handler → ℕ
  pub ldt : ℕ
  pub ldt_size : ℕ
  pub tss : ℕ
  pub tss_size : ℕ
  pub prev : ℕ

-- `entry` returns, or it goes on to `sys_execute("shell")`.
pub data Entry : Type 0 where
  stopped : Boot → Entry
  ready : Boot → Entry

abbrev pub with_console : Console → Boot → Boot
with_console s b = record b { machine = record b.machine { console = s } }

-- From the descriptors on to the last initialisation.
unfoldable pub initialise : Placed → Boot → Boot
unfolding set_params
initialise p b = record b {
  ldt_desc_ptr = set_params p.ldt p.ldt_size (ldt_fields b.ldt_desc_ptr);
  tss_desc_ptr = set_params p.tss p.tss_size (tss_fields b.tss_desc_ptr);
  ldt_segment_selector = 0x38;
  ss0 = 0x18;
  idt = initialize_idt p.handler b.idt;
  machine = record b.machine {
    esp0 = 0x800000;
    pic = pit_init (rtc_init p.prev (keyboard_init (i8259_init b.machine.pic)));
    paging = page_init b.machine.paging;
    console = clear_pos (clear b.machine.console);
  };
}

unfoldable pub mount : Loaded → Boot → Boot
mount l b =
    if check_flag l.mbi.flags 3
    then record b {
      layout = some (file_init (l.module_at 0).mod_start (l.boot_block (l.module_at 0).mod_start));
    }
    else b

unfoldable pub entry : Loaded → Placed → ℕ → Boot → Option Entry
unfolding print_loaded print_tables initialise mount
entry l p magic b = do
  let cleared = clear b.machine.console
  if magic == multiboot_bootloader_magic
      then (do
        shown ← print_loaded l cleared
        if check_flag l.mbi.flags 4 && check_flag l.mbi.flags 5
            then (do
              s ← print l (codes "Both bits 4 and 5 are set.\n") [] shown
              some (stopped (mount l (with_console s b))))
            else (do
              s ← print_tables l shown
              some (ready (initialise p (mount l (with_console s b))))))
      else (do
        s ← print l (codes "Invalid magic number: 0x%#x\n") (magic ∷ []) cleared
        some (stopped (with_console s b)))
