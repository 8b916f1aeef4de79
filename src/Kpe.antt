-- ===== src/Kpe.antt =====
-- include/kpeformat.h: executable images. A file, and memory, is a function from the offset or the
-- address to the byte; the headers are read from it at the offsets of the packed structures.
use ntx_preview.Base.{ℕ, zero, suc, ◌+◌, ◌*◌, ◌/◌, ◌%◌, ◌^◌, update}

abbrev pub dos_magic : ℕ
dos_magic = 23117

abbrev pub signature_kpe : ℕ
signature_kpe = 809848907

-- KPE_OPT_MAGIC_AUR64 and KPE_MACHINE_AUR64
abbrev pub opt_magic_aur64 : ℕ
opt_magic_aur64 = 42561

abbrev pub machine_aur64 : ℕ
machine_aur64 = 42561

abbrev pub number_of_directory_entries : ℕ
number_of_directory_entries = 16

-- KPE_DLLCHAR_DYNAMIC_BASE
abbrev pub dll_char_dynamic_base : ℕ
dll_char_dynamic_base = 64

-- KPE_SCN_MEM_EXECUTE and KPE_SCN_MEM_WRITE
abbrev pub section_mem_execute : ℕ
section_mem_execute = 2 ^ 29

abbrev pub section_mem_write : ℕ
section_mem_write = 2 ^ 31

-- KPE_REL_BASED_ABSOLUTE and KPE_REL_BASED_DIR64
abbrev pub rel_based_absolute : ℕ
rel_based_absolute = 0

abbrev pub rel_based_dir64 : ℕ
rel_based_dir64 = 10

-- KPE_SUBSYSTEM_NATIVE_KERNEL and KPE_SUBSYSTEM_USERLAND
abbrev pub subsystem_native_kernel : ℕ
subsystem_native_kernel = 1

abbrev pub subsystem_userland : ℕ
subsystem_userland = 2

-- The sizes of KPE_DOS_HEADER, KPE_FILE_HEADER, KPE_OPTIONAL_HEADER64, KPE_NT_HEADERS64,
-- KPE_SECTION_HEADER and KPE_BASE_RELOCATION_BLOCK.
abbrev pub dos_header_bytes : ℕ
dos_header_bytes = 64

abbrev pub file_header_bytes : ℕ
file_header_bytes = 20

abbrev pub optional_header_bytes : ℕ
optional_header_bytes = 240

abbrev pub nt_headers_bytes : ℕ
nt_headers_bytes = 264

abbrev pub section_header_bytes : ℕ
section_header_bytes = 40

abbrev pub block_bytes : ℕ
block_bytes = 8

-- The little-endian number in `n` bytes.
unfoldable pub read_bytes : ℕ → ℕ → (ℕ → ℕ) → ℕ
read_bytes zero at memory = 0
read_bytes (suc n) at memory = memory at + 256 * read_bytes n (at + 1) memory

unfoldable pub write_bytes : ℕ → ℕ → ℕ → (ℕ → ℕ) → ℕ → ℕ
write_bytes zero at value memory = memory
write_bytes (suc n) at value memory =
    write_bytes n (at + 1) (value / 256) (update memory at (value % 256))

-- `KPE_DATA_DIRECTORY`
pub record DataDirectory : Type 0 where
  pub virtual_address : ℕ
  pub size : ℕ

-- The fields of `KPE_OPTIONAL_HEADER64` that are read, with the directory of relocations.
pub record OptionalHeader : Type 0 where
  pub magic : ℕ
  pub address_of_entry_point : ℕ
  pub image_base : ℕ
  pub section_alignment : ℕ
  pub file_alignment : ℕ
  pub size_of_image : ℕ
  pub size_of_headers : ℕ
  pub subsystem : ℕ
  pub dll_characteristics : ℕ
  pub number_of_rva_and_sizes : ℕ
  pub base_relocations : DataDirectory

-- The fields of `KPE_NT_HEADERS64` that are read, of its file header too.
pub record NtHeaders : Type 0 where
  pub signature : ℕ
  pub machine : ℕ
  pub number_of_sections : ℕ
  pub size_of_optional_header : ℕ
  pub optional : OptionalHeader

-- The fields of `KPE_SECTION_HEADER` that are read.
pub record SectionHeader : Type 0 where
  pub virtual_size : ℕ
  pub virtual_address : ℕ
  pub size_of_raw_data : ℕ
  pub pointer_to_raw_data : ℕ
  pub characteristics : ℕ

-- `e_magic` and `e_lfanew` of the `KPE_DOS_HEADER` at the start of a file.
abbrev pub e_magic : (ℕ → ℕ) → ℕ
e_magic file = read_bytes 2 0 file

abbrev pub e_lfanew : (ℕ → ℕ) → ℕ
e_lfanew file = read_bytes 4 60 file

-- The `KPE_OPTIONAL_HEADER64` at an offset; the relocations are entry 5 of its directories.
abbrev pub optional_header : ℕ → (ℕ → ℕ) → OptionalHeader
optional_header at file = record {
  magic = read_bytes 2 at file;
  address_of_entry_point = read_bytes 4 (at + 16) file;
  image_base = read_bytes 8 (at + 24) file;
  section_alignment = read_bytes 4 (at + 32) file;
  file_alignment = read_bytes 4 (at + 36) file;
  size_of_image = read_bytes 4 (at + 56) file;
  size_of_headers = read_bytes 4 (at + 60) file;
  subsystem = read_bytes 2 (at + 68) file;
  dll_characteristics = read_bytes 2 (at + 70) file;
  number_of_rva_and_sizes = read_bytes 4 (at + 108) file;
  base_relocations = record {
    virtual_address = read_bytes 4 (at + 152) file;
    size = read_bytes 4 (at + 156) file;
  };
}

-- The `KPE_NT_HEADERS64` at an offset.
abbrev pub nt_headers : ℕ → (ℕ → ℕ) → NtHeaders
nt_headers at file = record {
  signature = read_bytes 4 at file;
  machine = read_bytes 2 (at + 4) file;
  number_of_sections = read_bytes 2 (at + 6) file;
  size_of_optional_header = read_bytes 2 (at + 20) file;
  optional = optional_header (at + 24) file;
}

-- The `KPE_SECTION_HEADER` of index `k` in the table at an offset.
abbrev pub section_header : ℕ → ℕ → (ℕ → ℕ) → SectionHeader
section_header table k file =
    let at = table + k * section_header_bytes in
    record {
      virtual_size = read_bytes 4 (at + 8) file;
      virtual_address = read_bytes 4 (at + 12) file;
      size_of_raw_data = read_bytes 4 (at + 16) file;
      pointer_to_raw_data = read_bytes 4 (at + 20) file;
      characteristics = read_bytes 4 (at + 36) file;
    }

-- Where the section table of a file starts.
abbrev pub section_table : NtHeaders → (ℕ → ℕ) → ℕ
section_table nt file = e_lfanew file + 4 + file_header_bytes + nt.size_of_optional_header
