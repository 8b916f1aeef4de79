-- ===== src/BootProto.antt =====
-- boot/include/bootproto.h: what the boot loader hands to the kernel.
use ntx_preview.Base.{ℕ, List}

abbrev pub bootinfo_magic : ℕ
bootinfo_magic = 0x49425441

abbrev pub flag_init_image_present : ℕ
flag_init_image_present = 0x2

abbrev pub flag_verbose_boot : ℕ
flag_verbose_boot = 0x4

-- One entry of the memory map.
pub record PhysicalMemoryRange : Type 0 where
  pub base : ℕ
  pub length : ℕ
  pub type : ℕ
  pub attributes : ℕ

-- `BOOT_VIDEO_INFO`, less the size of the buffer and the format of a pixel.
pub record VideoInfo : Type 0 where
  pub frame_buffer_base : ℕ
  pub width : ℕ
  pub height : ℕ
  pub pixels_per_scan_line : ℕ

-- `BOOT_INFO`, less the fields that no modelled code reads (firmware, `Version`, `Size`,
-- `KernelEntry`) and the video fields, which are a record of their own. `memory_map` is the address of the map, and `ranges` is what stands there, one
-- item for each of `MemoryMapEntryCount` entries.
pub record BootInfo : Type 0 where
  pub magic : ℕ
  pub flags : ℕ
  pub loader_base : ℕ
  pub kernel_base : ℕ
  pub kernel_size : ℕ
  pub init_image_base : ℕ
  pub init_image_size : ℕ
  pub memory_map : ℕ
  pub memory_map_entry_size : ℕ
  pub ranges : List PhysicalMemoryRange
