-- ===== src/Boot.antt =====
-- boot/uefi/bootx64.c, with the status codes and sizes of boot/include/efi.h: the boot loader. A
-- status of the firmware is its number, and the firmware is a parameter.
pub mod Image
pub mod Agreed
pub mod Load
pub mod MemoryMap
pub mod Handoff
pub mod Entry
pub mod Ranges
pub mod Leave
mod Tests
use ntx_preview.Base.{ℕ, ◌+◌, ◌-◌, ◌*◌, ◌/◌, ◌%◌, ◌^◌, Bool, leb, bit_and, if◌then◌else◌, ◌==◌}
use ntx_preview.Base.Bits.{complement}

abbrev pub efi_success : ℕ
efi_success = 0

abbrev pub efi_load_error : ℕ
efi_load_error = 2 ^ 63 + 1

abbrev pub efi_invalid_parameter : ℕ
efi_invalid_parameter = 2 ^ 63 + 2

abbrev pub efi_unsupported : ℕ
efi_unsupported = 2 ^ 63 + 3

abbrev pub efi_buffer_too_small : ℕ
efi_buffer_too_small = 2 ^ 63 + 5

abbrev pub efi_out_of_resources : ℕ
efi_out_of_resources = 2 ^ 63 + 9

-- `EFI_ERROR`, the test of the highest of 64 bits.
abbrev pub efi_error : ℕ → Bool
efi_error status = leb (2 ^ 63) status

abbrev pub size_to_pages : ℕ → ℕ
size_to_pages size = (size + 4095) % 2 ^ 64 / 4096

abbrev pub pages_to_size : ℕ → ℕ
pages_to_size pages = pages * 4096 % 2 ^ 64

-- `AlignUp64`
unfoldable pub align_up_64 : ℕ → ℕ → ℕ
align_up_64 value alignment =
    if alignment == 0
    then value
    else bit_and ((value + alignment + (2 ^ 64 - 1)) % 2 ^ 64) (complement 64 (alignment - 1))
