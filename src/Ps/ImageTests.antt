-- ===== src/Ps/ImageTests.antt =====
-- A run of the relocations, and their theorems at an image of two pages, which was linked for the
-- address 0 and lies at 4096.
use ntx_preview.Base.{ℕ, ◌≡◌, refl, Option, none, some, Status, success, if◌then◌else◌, ◌==◌}
use ntx_preview.Kpe.{opt_magic_aur64, subsystem_userland, OptionalHeader, read_bytes, write_bytes}
use ntx_preview.Ps.Image.{
  apply_relocations, without_loop, behind_tests, apply_blocks, apply_block, apply_entries,
  is_bad_block, patch,
}
use ntx_preview.Ps.Relocated.{apply_relocations-returns}

abbrev pub header : OptionalHeader
header = record {
  magic = opt_magic_aur64;
  address_of_entry_point = 0;
  image_base = 0;
  section_alignment = 4096;
  file_alignment = 512;
  size_of_image = 8192;
  size_of_headers = 512;
  subsystem = subsystem_userland;
  dll_characteristics = 64;
  number_of_rva_and_sizes = 16;
  base_relocations = record { virtual_address = 4096; size = 12 };
}

-- The directory at 8192 holds one block of two entries: the pointer at 16, and padding.
abbrev pub loaded : ℕ → ℕ
loaded a = if a == 8196 then 12 else if a == 8200 then 16 else if a == 8201 then 160 else 0

apply_relocations-returns_example :
    (r : Status × (ℕ → ℕ)) × (apply_relocations 4096 header loaded ≡ some r)
apply_relocations-returns_example = apply_relocations-returns 4096 header loaded

abbrev relocated : Status × (ℕ → ℕ)
relocated = (apply_relocations-returns 4096 header loaded).0

-- The status, and the pointer at 16 in the image.
abbrev pointer : Option (Status × (ℕ → ℕ)) → Option (Status × ℕ)
pointer none = none
pointer (some (status, memory)) = some (status, read_bytes 8 4112 memory)

-- The pointer was moved with the image.
pointer-relocated : pointer (apply_relocations 4096 header loaded) ≡ some (success, 4096)
unfolding apply_relocations without_loop behind_tests apply_blocks is_bad_block apply_block
    apply_entries patch read_bytes write_bytes
pointer-relocated = refl
