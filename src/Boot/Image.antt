-- ===== src/Boot/Image.antt =====
-- boot/uefi/bootx64.c: FileRangeValid, ValidateKpeImage, ImageRvaToPointer and
-- ApplyKpeBaseRelocations. Memory is a function from the address to the byte.
use ntx_preview.Base.{
  ℕ, zero, suc, ◌+◌, ◌-◌, ◌*◌, ◌/◌, ◌%◌, ◌^◌, Bool, true, false, not, ◌||◌, Option, none, some,
  bit_and, if◌then◌else◌, ◌==◌, ◌!=◌, leb, ltb,
}
use ntx_preview.Kpe.{
  NtHeaders, OptionalHeader, SectionHeader, dos_magic, signature_kpe, machine_aur64,
  opt_magic_aur64, subsystem_native_kernel, number_of_directory_entries, dos_header_bytes,
  nt_headers_bytes, optional_header_bytes, section_header_bytes, block_bytes, rel_based_absolute,
  rel_based_dir64, e_magic, e_lfanew, nt_headers, section_header, section_table, read_bytes,
  write_bytes,
}
use ntx_preview.Boot.{efi_success, efi_load_error, efi_unsupported, efi_error, align_up_64}

-- `FileRangeValid`
unfoldable pub file_range_valid : ℕ → ℕ → ℕ → Bool
file_range_valid file_size offset size =
    if ltb file_size offset then false else not (ltb (file_size - offset) size)

-- The tests of the headers, in the order of ValidateKpeImage.
unfoldable pub is_bad_kernel_header : NtHeaders → Bool
is_bad_kernel_header nt =
    nt.signature != signature_kpe
    || nt.machine != machine_aur64
    || nt.number_of_sections == 0
    || ltb nt.size_of_optional_header optional_header_bytes
    || nt.optional.magic != opt_magic_aur64
    || nt.optional.subsystem != subsystem_native_kernel
    || nt.optional.section_alignment == 0
    || nt.optional.file_alignment == 0
    || leb nt.optional.size_of_image nt.optional.address_of_entry_point
    || ltb number_of_directory_entries nt.optional.number_of_rva_and_sizes

-- The tests of a section.
unfoldable pub is_bad_section : OptionalHeader → ℕ → SectionHeader → Bool
unfolding align_up_64 file_range_valid
is_bad_section nt size section =
    let span = align_up_64 section.virtual_size nt.section_alignment in
    if leb nt.size_of_image section.virtual_address
    then true
    else if ltb nt.size_of_image ((section.virtual_address + span) % 2 ^ 64)
    then true
    else if section.size_of_raw_data == 0
    then false
    else not (file_range_valid size section.pointer_to_raw_data section.size_of_raw_data)

-- The loop over the sections, of which `n` are left from `k` on.
unfoldable pub sections_valid : ℕ → ℕ → OptionalHeader → ℕ → ℕ → (ℕ → ℕ) → Bool
unfolding is_bad_section
sections_valid zero k nt table size file = true
sections_valid (suc n) k nt table size file =
    let rest = sections_valid n (k + 1) nt table size file in
    if is_bad_section nt size (section_header table k file) then false else rest

-- `ValidateKpeImage`: the headers of the file, none for FALSE.
unfoldable pub validate_kpe_image : ℕ → (ℕ → ℕ) → Option NtHeaders
unfolding is_bad_kernel_header sections_valid
validate_kpe_image size file =
    let nt = nt_headers (e_lfanew file) file in
    let table = section_table nt file in
    if ltb size dos_header_bytes
    then none
    else if e_magic file != dos_magic
    then none
    else if ltb size (e_lfanew file + nt_headers_bytes)
    then none
    else if is_bad_kernel_header nt
    then none
    else if ltb size (table + nt.number_of_sections * section_header_bytes)
    then none
    else if not (sections_valid nt.number_of_sections 0 nt.optional table size file)
    then none
    else some nt

-- `ImageRvaToPointer`, none for NULL.
unfoldable pub image_rva_to_pointer : ℕ → ℕ → ℕ → ℕ → Option ℕ
image_rva_to_pointer base image_size rva size =
    if ltb image_size (rva + size) then none else some (base + rva)

-- `*PatchValue = ...` at an address.
unfoldable pub patch_at : ℕ → ℕ → ℕ → (ℕ → ℕ) → ℕ → ℕ
patch_at base image_base at memory =
    write_bytes 8 at ((read_bytes 8 at memory + base + (2 ^ 64 - image_base)) % 2 ^ 64) memory

-- The loop over the entries of the block at `cursor`, of which `n` are left from `at` on.
unfoldable pub apply_entries : ℕ → OptionalHeader → ℕ → ℕ → ℕ → (ℕ → ℕ) → ℕ × (ℕ → ℕ)
unfolding image_rva_to_pointer patch_at
apply_entries base nt cursor zero at memory = (efi_success, memory)
apply_entries base nt cursor (suc n) at memory =
    let entry = read_bytes 2 at memory in
    let rva = (read_bytes 4 cursor memory + bit_and entry 4095) % 2 ^ 32 in
    let skipped = apply_entries base nt cursor n (at + 2) memory in
    let rest =
      apply_entries base nt cursor n (at + 2) (patch_at base nt.image_base (base + rva) memory) in
    if entry / 4096 == rel_based_absolute
    then skipped
    else if entry / 4096 != rel_based_dir64
    then (efi_unsupported, memory)
    else elim (image_rva_to_pointer base nt.size_of_image rva 8) [
      | none ↦ (efi_load_error, memory)
      | some p ↦ rest
    ]

-- The tests of the block at `cursor`: its size, and its end in the directory.
unfoldable pub is_bad_block : ℕ → ℕ → (ℕ → ℕ) → Bool
is_bad_block cursor end memory =
    let size = read_bytes 4 (cursor + 4) memory in
    if ltb size block_bytes then true else ltb end (cursor + size)

-- The entries of the block at `cursor`.
unfoldable pub apply_block : ℕ → OptionalHeader → ℕ → (ℕ → ℕ) → ℕ × (ℕ → ℕ)
unfolding apply_entries
apply_block base nt cursor memory =
    apply_entries base nt cursor ((read_bytes 4 (cursor + 4) memory - block_bytes) / 2)
      (cursor + block_bytes) memory

-- The loop over the blocks, in at most `fuel` rounds; none when they are not enough.
unfoldable pub apply_blocks : ℕ → ℕ → OptionalHeader → ℕ → ℕ → (ℕ → ℕ) → Option (ℕ × (ℕ → ℕ))
unfolding apply_block is_bad_block
apply_blocks zero base nt cursor end memory = none
apply_blocks (suc fuel) base nt cursor end memory =
    let (status, after) = apply_block base nt cursor memory in
    let rest = apply_blocks fuel base nt (cursor + read_bytes 4 (cursor + 4) after) end after in
    if ltb end (cursor + block_bytes)
    then some (efi_success, memory)
    else if is_bad_block cursor end memory
    then some (efi_load_error, memory)
    else if efi_error status
    then some (status, after)
    else rest

-- The tests of ApplyKpeBaseRelocations before its loop, with the status that they return.
unfoldable pub without_loop : ℕ → OptionalHeader → Option ℕ
without_loop base nt =
    let directory = nt.base_relocations in
    if base == nt.image_base
    then some efi_success
    else if directory.virtual_address == 0 || ltb directory.size block_bytes
    then some efi_unsupported
    else if ltb nt.size_of_image (directory.virtual_address + directory.size)
    then some efi_load_error
    else none

-- The rest of ApplyKpeBaseRelocations, with what the tests returned.
unfoldable pub behind_tests : ℕ → OptionalHeader → (ℕ → ℕ) → Option ℕ → Option (ℕ × (ℕ → ℕ))
unfolding apply_blocks
behind_tests base nt memory (some status) = some (status, memory)
behind_tests base nt memory none =
    apply_blocks (nt.base_relocations.size + 2) base nt (base + nt.base_relocations.virtual_address)
      (base + nt.base_relocations.virtual_address + nt.base_relocations.size) memory

-- `ApplyKpeBaseRelocations`
unfoldable pub apply_relocations : ℕ → OptionalHeader → (ℕ → ℕ) → Option (ℕ × (ℕ → ℕ))
unfolding behind_tests without_loop
apply_relocations base nt memory = behind_tests base nt memory (without_loop base nt)
