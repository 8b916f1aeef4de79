-- ===== src/Ps/Load.antt =====
-- kernel/ps/init.c, PsSpawnUserKpeFromBuffer: the image is copied into the active address space, and
-- relocated. `memory` is what the address space shows; the file is in a buffer that every address
-- space shows alike, as that of IoSpawnProcessFromFileHandle is.
use ntx_preview.Base.{
  ℕ, zero, suc, ◌+◌, Option, some, update, if◌then◌else◌, ◌==◌, ltb, Status, success, succeeded,
  not, invalid_parameter,
}
use ntx_preview.Kpe.{NtHeaders, OptionalHeader, SectionHeader, section_header, section_table}
use ntx_preview.Ps.Image.{apply_relocations}

-- A loop that copies bytes of the file, from index `i` on in `n` rounds.
unfoldable pub copy_file : ℕ → ℕ → ℕ → ℕ → (ℕ → ℕ) → (ℕ → ℕ) → ℕ → ℕ
copy_file zero i dst src file memory = memory
copy_file (suc n) i dst src file memory =
    copy_file n (i + 1) dst src file (update memory (dst + i) (file (src + i)))

-- `HeaderCopySize`
unfoldable pub header_copy_size : OptionalHeader → ℕ → ℕ
header_copy_size nt size =
    let in_image =
      if ltb nt.size_of_image nt.size_of_headers then nt.size_of_image else nt.size_of_headers in
    if ltb size in_image then size else in_image

-- A round of the loop over the sections; a status that is no success is its `break`.
unfoldable pub copy_section :
    SectionHeader → ℕ → OptionalHeader → (ℕ → ℕ) → (ℕ → ℕ) → Status × (ℕ → ℕ)
unfolding copy_file
copy_section section base nt file memory =
    if section.size_of_raw_data == 0
    then (success, memory)
    else if ltb nt.size_of_image (section.virtual_address + section.size_of_raw_data)
    then (invalid_parameter, memory)
    else (
      success,
      copy_file section.size_of_raw_data 0 (base + section.virtual_address)
          section.pointer_to_raw_data file memory,
    )

-- The loop over the sections, of which `n` are left from `k` on.
unfoldable pub copy_sections : ℕ → ℕ → ℕ → ℕ → OptionalHeader → (ℕ → ℕ) → (ℕ → ℕ) → Status × (ℕ → ℕ)
unfolding copy_section
copy_sections zero k base table nt file memory = (success, memory)
copy_sections (suc n) k base table nt file memory =
    let copied = copy_section (section_header table k file) base nt file memory in
    let rest = copy_sections n (k + 1) base table nt file copied.1 in
    if not (succeeded copied.0) then copied else rest

-- The headers and the sections of the image are copied to `base`.
unfoldable pub copy_image : ℕ → ℕ → NtHeaders → (ℕ → ℕ) → (ℕ → ℕ) → Status × (ℕ → ℕ)
unfolding copy_sections header_copy_size
copy_image base size nt file memory =
    copy_sections nt.number_of_sections 0 base (section_table nt file) nt.optional file
      (copy_file (header_copy_size nt.optional size) 0 base 0 file memory)

-- The image is relocated, if it was copied.
unfoldable pub relocate_copied : ℕ → OptionalHeader → Status × (ℕ → ℕ) → Option (Status × (ℕ → ℕ))
relocate_copied base nt (status, memory) =
    if succeeded status then apply_relocations base nt memory else some (status, memory)

unfoldable pub load_image : ℕ → ℕ → NtHeaders → (ℕ → ℕ) → (ℕ → ℕ) → Option (Status × (ℕ → ℕ))
unfolding copy_image relocate_copied
load_image base size nt file memory =
    relocate_copied base nt.optional (copy_image base size nt file memory)
