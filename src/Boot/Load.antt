-- ===== src/Boot/Load.antt =====
-- boot/uefi/bootx64.c: LoadKpeImage. The firmware's AllocatePages is a parameter: it is given an
-- address, or none for any pages, and the number of pages, and gives a status and an address.
use ntx_preview.Base.{
  ℕ, zero, suc, ◌+◌, ◌-◌, ◌%◌, ◌^◌, Option, none, some, bit_and, if◌then◌else◌, ◌==◌, ltb,
}
use ntx_preview.Kpe.{NtHeaders, SectionHeader, dll_char_dynamic_base, section_header, section_table}
use ntx_preview.Rtl.{fill_up}
use ntx_preview.Ps.Load.{copy_file}
use ntx_preview.Boot.{efi_success, efi_load_error, efi_error, size_to_pages}
use ntx_preview.Boot.Image.{validate_kpe_image, apply_relocations}

-- What LoadKpeImage writes to its out-pointers.
pub record LoadedImage : Type 0 where
  pub image_base : ℕ
  pub image_size : ℕ
  pub entry_address : ℕ
  pub relocation_delta : ℕ

-- The part of a section behind what the file holds of it.
abbrev pub clear_size : SectionHeader → ℕ
clear_size section =
    if ltb section.size_of_raw_data section.virtual_size
    then section.virtual_size - section.size_of_raw_data
    else 0

-- `CopyMem` and `SetMem` of a section at `base`.
unfoldable pub load_section : ℕ → SectionHeader → (ℕ → ℕ) → (ℕ → ℕ) → ℕ → ℕ
unfolding copy_file fill_up
load_section base section file memory =
    let dest = base + section.virtual_address in
    fill_up (clear_size section) 0 (dest + section.size_of_raw_data) 0
      (copy_file section.size_of_raw_data 0 dest section.pointer_to_raw_data file memory)

-- The loop over the sections, of which `n` are left from `k` on.
unfoldable pub load_sections : ℕ → ℕ → ℕ → ℕ → (ℕ → ℕ) → (ℕ → ℕ) → ℕ → ℕ
unfolding load_section
load_sections zero k base table file memory = memory
load_sections (suc n) k base table file memory =
    load_sections n (k + 1) base table file
      (load_section base (section_header table k file) file memory)

-- The image in memory before its relocations.
unfoldable pub copied_image : ℕ → ℕ → NtHeaders → (ℕ → ℕ) → (ℕ → ℕ) → ℕ → ℕ
unfolding load_sections
copied_image base size nt file memory =
    let header_bytes =
      if ltb size nt.optional.size_of_headers then size else nt.optional.size_of_headers in
    load_sections nt.number_of_sections 0 base (section_table nt file) file
      (copy_file header_bytes 0 base 0 file (fill_up nt.optional.size_of_image 0 base 0 memory))

-- The end of LoadKpeImage, with what the relocations returned.
unfoldable pub relocated_image :
    ℕ → NtHeaders → Option (ℕ × (ℕ → ℕ)) → Option (ℕ × Option LoadedImage × (ℕ → ℕ))
relocated_image base nt none = none
relocated_image base nt (some (status, memory)) =
    if efi_error status
    then some (status, none, memory)
    else some (
      efi_success,
      some (record {
        image_base = base;
        image_size = nt.optional.size_of_image;
        entry_address = (base + nt.optional.address_of_entry_point) % 2 ^ 64;
        relocation_delta = (base + (2 ^ 64 - nt.optional.image_base)) % 2 ^ 64;
      }),
      memory,
    )

module _ {W : Type 0} (allocate_pages : Option ℕ → ℕ → W → ℕ × ℕ × W) where
  -- The pages of an image: those that it was linked for, or any if it can be moved.
  unfoldable pub allocate_image : NtHeaders → W → ℕ × ℕ × W
  allocate_image nt w =
      let pages = size_to_pages nt.optional.size_of_image in
      let (status, base, w1) = allocate_pages (some nt.optional.image_base) pages w in
      if efi_error status
      then (if bit_and nt.optional.dll_characteristics dll_char_dynamic_base == 0
          then (status, base, w1)
          else allocate_pages none pages w1)
      else (status, base, w1)

  -- LoadKpeImage with the headers that it has validated.
  unfoldable pub load_headers :
      ℕ → (ℕ → ℕ) → NtHeaders → (ℕ → ℕ) → W → Option (ℕ × Option LoadedImage × (ℕ → ℕ)) × W
  unfolding allocate_image copied_image relocated_image
  load_headers size file nt memory w =
      let (status, base, w1) = allocate_image nt w in
      if efi_error status then (some (status, none, memory), w1) else (
        relocated_image base nt
            (apply_relocations base nt.optional (copied_image base size nt file memory)),
        w1,
      )

  -- `LoadKpeImage`
  unfoldable pub load_kpe_image :
      ℕ → (ℕ → ℕ) → (ℕ → ℕ) → W → Option (ℕ × Option LoadedImage × (ℕ → ℕ)) × W
  unfolding load_headers
  load_kpe_image size file memory w = elim (validate_kpe_image size file) [
    | none ↦ (some (efi_load_error, none, memory), w)
    | some nt ↦ load_headers size file nt memory w
  ]
