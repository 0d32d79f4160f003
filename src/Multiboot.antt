-- ===== src/Multiboot.antt =====
-- kernel/include/kernel/multiboot.h: what the boot loader passes on, read from memory. Of the
-- structure `multiboot_info` these are the fields up to the memory map; the kernel reads no other.
use treeos.Base.{ℕ, ◌+◌, ◌*◌, ◌/◌, ◌%◌, ◌^◌, Bool, not, ◌==◌}
use treeos.Str.{Bytes, word}

abbrev pub multiboot_bootloader_magic : ℕ
multiboot_bootloader_magic = 0x2badb002

abbrev pub multiboot_info_memory : ℕ
multiboot_info_memory = 0x1

abbrev pub multiboot_info_mods : ℕ
multiboot_info_mods = 0x8

abbrev pub multiboot_info_mem_map : ℕ
multiboot_info_mem_map = 0x40

abbrev pub multiboot_memory_available : ℕ
multiboot_memory_available = 1

-- `struct multiboot_info`; the union `u` is four words.
pub record MultibootInfo : Type 0 where
  pub flags : ℕ
  pub mem_lower : ℕ
  pub mem_upper : ℕ
  pub boot_device : ℕ
  pub cmdline : ℕ
  pub mods_count : ℕ
  pub mods_addr : ℕ
  pub u0 : ℕ
  pub u1 : ℕ
  pub u2 : ℕ
  pub u3 : ℕ
  pub mmap_length : ℕ
  pub mmap_addr : ℕ

abbrev pub info_at : Bytes → ℕ → MultibootInfo
info_at b a = record {
  flags = word b a;
  mem_lower = word b (a + 4);
  mem_upper = word b (a + 8);
  boot_device = word b (a + 12);
  cmdline = word b (a + 16);
  mods_count = word b (a + 20);
  mods_addr = word b (a + 24);
  u0 = word b (a + 28);
  u1 = word b (a + 32);
  u2 = word b (a + 36);
  u3 = word b (a + 40);
  mmap_length = word b (a + 44);
  mmap_addr = word b (a + 48);
}

-- `struct multiboot_mmap_entry`, which is packed.
pub record MmapEntry : Type 0 where
  pub size : ℕ
  pub addr : ℕ
  pub len : ℕ
  pub type : ℕ

abbrev pub mmap_entry_at : Bytes → ℕ → MmapEntry
mmap_entry_at b a = record {
  size = word b a;
  addr = word b (a + 4) + 2 ^ 32 * word b (a + 8);
  len = word b (a + 12) + 2 ^ 32 * word b (a + 16);
  type = word b (a + 20);
}

-- `struct multiboot_mod_list`, of 16 bytes.
pub record ModList : Type 0 where
  pub mod_start : ℕ
  pub mod_end : ℕ
  pub cmdline : ℕ
  pub pad : ℕ

abbrev pub mod_list_at : Bytes → ℕ → ModList
mod_list_at b a = record {
  mod_start = word b a;
  mod_end = word b (a + 4);
  cmdline = word b (a + 8);
  pad = word b (a + 12);
}

-- `flags & flag`, where `flag` is a power of two.
abbrev pub has_flag : MultibootInfo → ℕ → Bool
has_flag mbi flag = not (mbi.flags / flag % 2 == 0)
