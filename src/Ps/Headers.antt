-- ===== src/Ps/Headers.antt =====
-- kernel/ps/init.c, PsSpawnUserKpeFromBuffer: the tests of an image file before a process is made.
use ntx_preview.Base.{
  ℕ, zero, suc, ◌+◌, ◌*◌, Bool, true, false, not, ◌||◌, Option, none, some, if◌then◌else◌, ◌==◌,
  ◌!=◌, leb, ltb,
}
use ntx_preview.Kpe.{
  NtHeaders, dos_magic, signature_kpe, machine_aur64, opt_magic_aur64, subsystem_userland,
  number_of_directory_entries, dos_header_bytes, nt_headers_bytes, section_header_bytes, e_magic,
  e_lfanew, nt_headers, section_header, section_table,
}
use ntx_preview.Ps.Image.{file_range_valid}

abbrev pub image_max_size : ℕ
image_max_size = 16 * 1024 * 1024

-- The test of the fields of the headers.
unfoldable pub is_bad_user_header : NtHeaders → Bool
is_bad_user_header nt =
    nt.signature != signature_kpe
    || nt.machine != machine_aur64
    || nt.optional.magic != opt_magic_aur64
    || nt.optional.subsystem != subsystem_userland
    || nt.number_of_sections == 0
    || nt.optional.size_of_image == 0
    || leb nt.optional.size_of_image nt.optional.address_of_entry_point
    || ltb number_of_directory_entries nt.optional.number_of_rva_and_sizes

-- The loop over the sections, of which `n` are left from `k` on: what they hold lies in the file.
unfoldable pub sections_in_file : ℕ → ℕ → ℕ → ℕ → (ℕ → ℕ) → Bool
sections_in_file zero k table size file = true
sections_in_file (suc n) k table size file =
    let section = section_header table k file in
    let rest = sections_in_file n (k + 1) table size file in
    if section.size_of_raw_data == 0
    then rest
    else if not (file_range_valid size section.pointer_to_raw_data section.size_of_raw_data)
    then false
    else rest

-- The tests of the headers, of the section table at `table` and of the sections.
unfoldable pub tested_headers : ℕ → (ℕ → ℕ) → ℕ → NtHeaders → Option NtHeaders
unfolding is_bad_user_header sections_in_file
tested_headers size file table nt =
    if is_bad_user_header nt
    then none
    else if ltb size (table + nt.number_of_sections * section_header_bytes)
    then none
    else if not (sections_in_file nt.number_of_sections 0 table size file)
    then none
    else some nt

-- The headers of a file of `size` bytes that passes the tests; none for KSTATUS_INVALID_PARAMETER.
unfoldable pub user_headers : ℕ → (ℕ → ℕ) → Option NtHeaders
unfolding tested_headers
user_headers size file =
    let nt = nt_headers (e_lfanew file) file in
    if ltb size dos_header_bytes || ltb image_max_size size
    then none
    else if e_magic file != dos_magic
    then none
    else if ltb size (e_lfanew file + nt_headers_bytes)
    then none
    else tested_headers size file (section_table nt file) nt
