-- ===== src/Examples/Booting.antt =====
-- A boot with no information but the flags.
use linux_os.Base.{◌≡◌, refl, Option, none, some, []}
use linux_os.Boot.{
  Boot, Entry, Loaded, Placed, SegDesc, ready, stopped, entry, multiboot_bootloader_magic,
}
use linux_os.Boot.Ready.{IsReady, entry-IsReady}
use linux_os.Idt.{Gate}
use linux_os.Lifecycle.Boot.{IsIdle}
use linux_os.Examples.Image.{image}
use linux_os.Examples.Programs.{idle}

abbrev loaded : Loaded
loaded = record {
  mbi = record {
    flags = 1;
    mem_lower = 639;
    mem_upper = 130048;
    boot_device = 0;
    cmdline = 0;
    mods_count = 0;
    elf_sec = record { num = 0; size = 0; addr = 0; shndx = 0 };
    mmap_length = 0;
    mmap_addr = 0;
  };
  module_at = λ i. record { mod_start = 0; mod_end = 0 };
  mmap = λ a. record {
    size = 20;
    base_addr_low = 0;
    base_addr_high = 0;
    length_low = 0;
    length_high = 0;
    type = 1;
  };
  byte = λ a. 0;
  text = λ a. [];
  boot_block = λ a. image.origin;
}

abbrev placed : Placed
placed = record {
  handler = λ h. 0x400000;
  ldt = 0x410000;
  ldt_size = 31;
  tss = 0x410100;
  tss_size = 104;
  prev = 0x26;
}

abbrev blank_gate : Gate
blank_gate = record {
  offset_15_00 = 0;
  seg_selector = 0;
  reserved4 = 0;
  reserved3 = 0;
  reserved2 = 0;
  reserved1 = 0;
  size = 0;
  reserved0 = 0;
  dpl = 0;
  present = 0;
  offset_31_16 = 0;
}

abbrev blank_desc : SegDesc
blank_desc = record {
  seg_lim_15_00 = 0;
  base_15_00 = 0;
  base_23_16 = 0;
  type = 0;
  sys = 0;
  dpl = 0;
  present = 0;
  seg_lim_19_16 = 0;
  avail = 0;
  reserved = 0;
  opsize = 0;
  granularity = 0;
  base_31_24 = 0;
}

abbrev powered : Boot
powered = record {
  machine = idle;
  idt = λ i. blank_gate;
  layout = none;
  ldt_desc_ptr = blank_desc;
  tss_desc_ptr = blank_desc;
  ldt_segment_selector = 0;
  ss0 = 0;
}

abbrev entered : Option Entry
entered = entry loaded placed multiboot_bootloader_magic powered

abbrev state_of : Option Entry → Boot
state_of (some (ready b)) = b
state_of o = powered

entered_is : entered ≡ some (ready (state_of entered))
unfolding entry linux_os.Printf.printf linux_os.Printf.printf_loop linux_os.Printf.convert
    linux_os.Boot.print_loaded linux_os.Boot.print_tables linux_os.Strings.itoa
    linux_os.Console.putc linux_os.Printf.converted linux_os.Printf.pad_hex linux_os.Console.puts
entered_is = refl

powered-IsIdle : IsIdle powered.machine
powered-IsIdle = record { no_tasks = λ p. refl; no_front = λ t. refl }

entry-IsReady_example : IsReady powered (state_of entered)
entry-IsReady_example =
    entry-IsReady loaded placed multiboot_bootloader_magic powered (state_of entered) powered-IsIdle
      entered_is
