-- ===== src/Boot/Tests.antt =====
-- Runs of the boot loader, and its theorems at a kernel image of one section, at firmware that needs
-- a larger buffer first and refuses the first key, and at an image that is relocated.
use ntx_preview.Base.{
  ℕ, ◌+◌, ◌≡◌, refl, true, false, Option, none, some, is_some, [], ◌∷◌, success, if◌then◌else◌, ltb,
}
use ntx_preview.Kpe.{
  read_bytes, write_bytes, dos_magic, signature_kpe, machine_aur64, opt_magic_aur64,
  subsystem_native_kernel, nt_headers,
}
use ntx_preview.Rtl.{fill_up}
use ntx_preview.Ps.Load.{copy_file}
use ntx_preview.Ps.Image as Ps
use ntx_preview.Ps.ImageTests.{header, loaded}
use ntx_preview.Boot.{
  efi_success, efi_load_error, efi_invalid_parameter, efi_buffer_too_small, efi_error, align_up_64,
}
use ntx_preview.Boot.Image.{
  validate_kpe_image, is_bad_kernel_header, sections_valid, is_bad_section, file_range_valid,
  apply_relocations, without_loop, behind_tests,
}
use ntx_preview.Boot.Load.{
  LoadedImage, load_kpe_image, load_headers, allocate_image, copied_image, load_sections,
  load_section, relocated_image,
}
use ntx_preview.Boot.MemoryMap.{
  Snapshot, Firmware, Leaving, got_map, used_pool, exited, convert_memory_map, convert_from, grow,
  leave, take_map, attempts, exit_boot_services_robust,
}
use ntx_preview.Boot.Ranges.{Converted, convert_memory_map-Converted}
use ntx_preview.Boot.Leave.{
  Fresh, Told, exit_boot_services_robust-Fresh, exit_boot_services_robust-Told,
}
use ntx_preview.Boot.Agreed.{apply_relocations-agree}

-- A kernel of 8192 bytes for the address 1 MB; its section of the raw size goes to the second page.
abbrev kernel_file : ℕ → ℕ → ℕ
kernel_file raw = write_bytes 2 0 dos_magic (
    write_bytes 4 60 64 (
      write_bytes 4 64 signature_kpe (
        write_bytes 2 68 machine_aur64 (
          write_bytes 2 70 1 (
            write_bytes 2 84 240 (
              write_bytes 2 88 opt_magic_aur64 (
                write_bytes 4 104 4096 (
                  write_bytes 8 112 1048576 (
                    write_bytes 4 120 4096 (
                      write_bytes 4 124 512 (
                        write_bytes 4 144 8192 (
                          write_bytes 4 148 512 (
                            write_bytes 2 156 subsystem_native_kernel (
                              write_bytes 4 196 16 (
                                write_bytes 4 336 16 (
                                  write_bytes 4 340 4096 (
                                    write_bytes 4 344 raw
                                      (write_bytes 4 348 512 (λ a. 0)))))))))))))))))))

-- AllocatePages gives the address that it is asked for.
abbrev pages : Option ℕ → ℕ → ℕ → ℕ × ℕ × ℕ
pages none n w = (efi_load_error, 0, w)
pages (some at) n w = (efi_success, at, w + 1)

-- What the runs go through.
run : Unit {0}
unfolding read_bytes write_bytes validate_kpe_image is_bad_kernel_header sections_valid
    is_bad_section file_range_valid align_up_64 load_kpe_image load_headers allocate_image
    copied_image load_sections load_section relocated_image apply_relocations without_loop
    behind_tests fill_up copy_file convert_memory_map convert_from grow leave take_map attempts
    exit_boot_services_robust
run = tt

valid : is_some (validate_kpe_image 528 (kernel_file 16)) ≡ true
unfolding run
valid = refl

-- A section that holds more than the image has room for is accepted.
valid-oversized : is_some (validate_kpe_image 20000 (kernel_file 19000)) ≡ true
unfolding run
valid-oversized = refl

abbrev kernel : LoadedImage
kernel = record {
  image_base = 1048576;
  image_size = 8192;
  entry_address = 1052672;
  relocation_delta = 0;
}

abbrev kernel_bytes : ℕ → ℕ
kernel_bytes = copied_image 1048576 528 (nt_headers 64 (kernel_file 16)) (kernel_file 16) (λ a. 7)

kernel-loaded :
    (load_kpe_image pages 528 (kernel_file 16) (λ a. 7) 0).0
    ≡ some (efi_success, some kernel, kernel_bytes)
unfolding run
kernel-loaded = refl

-- A map of two descriptors of 48 bytes, and room for one range.
abbrev two_descriptors : ℕ → ℕ
two_descriptors = write_bytes 4 0 7 (
    write_bytes 8 8 4096 (
      write_bytes 8 24 3
        (write_bytes 4 48 2 (write_bytes 8 56 65536 (write_bytes 8 72 1 (λ a. 0))))))

abbrev small : Snapshot
small = record {
  map_buffer = some 1000;
  map_bytes = two_descriptors;
  map_buffer_size = 48;
  map_size = 48;
  map_key = 5;
  descriptor_size = 48;
  descriptor_version = 1;
  ranges_buffer = some 2000;
  ranges = λ k. record { base = 0; length = 0; type = 0; attributes = 0 };
  range_capacity = 1;
  range_count = 0;
}

convert_memory_map-Converted_example : Converted small (convert_memory_map small)
convert_memory_map-Converted_example = convert_memory_map-Converted small

-- The map has 96 bytes and the number of calls as its key; ExitBootServices takes keys from 4 on.
abbrev firmware : Firmware ℕ
firmware = record {
  get_memory_map = λ size w. (
    (if ltb size 96 then efi_buffer_too_small else efi_success),
    record {
      size = 96;
      bytes = two_descriptors;
      key = w;
      descriptor_size = 48;
      descriptor_version = 1;
    },
    w + 1,
  );
  allocate_pool = λ size w. (some (3000 + w), w);
  free_pool = λ p w. w;
  exit_boot_services = λ key w. ((if ltb key 2 then efi_invalid_parameter else efi_success), w);
}

abbrev first : Leaving ℕ
first = record { snapshot = small; entries = 0; world = 0; calls = [] }

-- A larger buffer, a key that is refused, and one that is taken.
left : (exit_boot_services_robust firmware first).0 ≡ efi_success
unfolding run
left = refl

left-calls :
    (exit_boot_services_robust firmware first).1.calls
    ≡ exited 2 ∷ got_map 2 ∷ exited 1 ∷ got_map 1 ∷ used_pool ∷ used_pool ∷ got_map 0 ∷ []
unfolding run
left-calls = refl

exit_boot_services_robust-Fresh_example : Fresh (exit_boot_services_robust firmware first).1.calls
exit_boot_services_robust-Fresh_example = exit_boot_services_robust-Fresh firmware first tt

left-no_error : efi_error (exit_boot_services_robust firmware first).0 ≡ false
unfolding run
left-no_error = refl

exit_boot_services_robust-Told_example : Told firmware (exit_boot_services_robust firmware first).1
exit_boot_services_robust-Told_example = exit_boot_services_robust-Told firmware first left-no_error

-- The pointer at 16 in the image is moved.
abbrev relocated : ℕ → ℕ
relocated = write_bytes 8 4112 4096 loaded

relocated-success : Ps.apply_relocations 4096 header loaded ≡ some (success, relocated)
unfolding read_bytes write_bytes Ps.apply_relocations Ps.without_loop Ps.behind_tests
    Ps.apply_blocks Ps.is_bad_block Ps.apply_block Ps.apply_entries Ps.patch
relocated-success = refl

apply_relocations-agree_example :
    apply_relocations 4096 header loaded ≡ some (efi_success, relocated)
apply_relocations-agree_example =
    apply_relocations-agree 4096 header loaded relocated relocated-success
