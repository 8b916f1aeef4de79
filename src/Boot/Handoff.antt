-- ===== src/Boot/Handoff.antt =====
-- boot/uefi/bootx64.c: PopulateBootInfo, and the test of the kernel's entry in efi_main.
use ntx_preview.Base.{
  ℕ, zero, suc, ◌+◌, ◌%◌, ◌^◌, Bool, ◌||◌, ◌&&◌, Option, none, some, is_some, List, [], ◌∷◌, bit_or,
  if◌then◌else◌, ◌!=◌, leb, ltb,
}
use ntx_preview.BootProto.{
  BootInfo, PhysicalMemoryRange, bootinfo_magic, flag_init_image_present, flag_verbose_boot,
}
use ntx_preview.Boot.MemoryMap.{Snapshot}
use ntx_preview.Boot.Load.{LoadedImage}

-- The address of a buffer, 0 for NULL.
abbrev pub address_of : Option ℕ → ℕ
address_of none = 0
address_of (some a) = a

-- The first `n` ranges from index `k` on.
unfoldable pub list_ranges : ℕ → ℕ → (ℕ → PhysicalMemoryRange) → List PhysicalMemoryRange
list_ranges zero k ranges = []
list_ranges (suc n) k ranges = ranges k ∷ list_ranges n (k + 1) ranges

-- `PopulateBootInfo`, in the fields that the kernel's model reads.
unfoldable pub populate_boot_info : ℕ → LoadedImage → Option ℕ → ℕ → Snapshot → Bool → BootInfo
unfolding list_ranges
populate_boot_info loader_base kernel init_image init_size s verbose =
    let present = if is_some init_image && init_size != 0 then flag_init_image_present else 0 in
    record {
      magic = bootinfo_magic;
      flags = if verbose then bit_or present flag_verbose_boot else present;
      loader_base = loader_base;
      kernel_base = kernel.image_base;
      kernel_size = kernel.image_size;
      init_image_base = address_of init_image;
      init_image_size = init_size;
      memory_map = address_of s.ranges_buffer;
      memory_map_entry_size = 24;
      ranges = list_ranges (s.range_count % 2 ^ 32) 0 s.ranges;
    }

-- The test of efi_main that the kernel's entry is out of its image.
unfoldable pub is_entry_outside : LoadedImage → Bool
is_entry_outside kernel =
    ltb kernel.entry_address kernel.image_base
    || leb ((kernel.image_base + kernel.image_size) % 2 ^ 64) kernel.entry_address
