-- ===== src/Ps/LoadTests.antt =====
-- A user image of one section, which is loaded at 4 MB; and the theorems about the loading at it.
use ntx_preview.Base.{
  ℕ, zero, suc, ◌+◌, ◌/◌, ◌%◌, update, ◌≡◌, ◌<◌, refl, Option, none, some, inl, Status, success,
  arith, if◌then◌else◌, leb,
}
use ntx_preview.Kpe.{
  NtHeaders, read_bytes, write_bytes, dos_magic, signature_kpe, machine_aur64, opt_magic_aur64,
  subsystem_userland, nt_headers,
}
use ntx_preview.Ps.Image.{file_range_valid, apply_relocations, without_loop, behind_tests}
use ntx_preview.Ps.Headers.{user_headers, tested_headers, sections_in_file, is_bad_user_header}
use ntx_preview.Ps.Load.{
  load_image, relocate_copied, copy_image, copy_sections, copy_section, copy_file, header_copy_size,
}
use ntx_preview.Ps.Loaded.{load_image-inside}
use ntx_preview.Ps.FileRead.{load_image-same}

-- Headers in 512 bytes, and a section of 16 bytes that goes to the second page.
abbrev file : ℕ → ℕ
file = write_bytes 2 0 dos_magic (
    write_bytes 4 60 64 (
      write_bytes 4 64 signature_kpe (
        write_bytes 2 68 machine_aur64 (
          write_bytes 2 70 1 (
            write_bytes 2 84 240 (
              write_bytes 2 88 opt_magic_aur64 (
                write_bytes 4 104 4096 (
                  write_bytes 8 112 4194304 (
                    write_bytes 4 144 8192 (
                      write_bytes 4 148 512 (
                        write_bytes 2 156 subsystem_userland (
                          write_bytes 4 196 16 (
                            write_bytes 4 336 16 (
                              write_bytes 4 340 4096 (
                                write_bytes 4 344 16 (
                                  write_bytes 4 348 512
                                    (write_bytes 4 512 144 (λ a. 0))))))))))))))))))

abbrev headers : NtHeaders
headers = nt_headers 64 file

-- What the runs go through.
run : Unit {0}
unfolding user_headers tested_headers sections_in_file is_bad_user_header file_range_valid
    read_bytes write_bytes load_image relocate_copied copy_image copy_sections copy_section
    copy_file header_copy_size apply_relocations without_loop behind_tests
run = tt

file-headers : user_headers 528 file ≡ some headers
unfolding run
file-headers = refl

-- A file that is cut in its section is refused.
cut_refused : user_headers 527 file ≡ none
unfolding run
cut_refused = refl

-- The status, and the first byte of the section.
abbrev first_byte : Option (Status × (ℕ → ℕ)) → Option (Status × ℕ)
first_byte none = none
first_byte (some (status, memory)) = some (status, memory (4194304 + 4096))

section_loaded : first_byte (load_image 4194304 528 headers file (λ a. 7)) ≡ some (success, 144)
unfolding run
section_loaded = refl

abbrev loaded : Status × (ℕ → ℕ)
loaded = copy_image 4194304 528 headers file (λ a. 7)

load_image-inside_example : loaded.1 100 ≡ 7
unfolding run
load_image-inside_example =
    load_image-inside 4194304 528 headers file (λ a. 7) loaded 100 refl (inl (omega arith))

-- The same file with other bytes behind its end.
abbrev longer : ℕ → ℕ
longer a = if leb 528 a then 255 else file a

bounded :
    (n at value : ℕ) (memory : ℕ → ℕ)
    → ((a : ℕ) → memory a < 256)
    → (a : ℕ) → write_bytes n at value memory a < 256
unfolding write_bytes
bounded zero at value memory b a = b a
bounded (suc n) at value memory b a =
    bounded n (at + 1) (value / 256) (update memory at (value % 256)) (λ x. ground (arith, b x)) a

file-bytes : (a : ℕ) → file a < 256
file-bytes = bounded 2 0 dos_magic _ (
    bounded 4 60 64 _ (
      bounded 4 64 signature_kpe _ (
        bounded 2 68 machine_aur64 _ (
          bounded 2 70 1 _ (
            bounded 2 84 240 _ (
              bounded 2 88 opt_magic_aur64 _ (
                bounded 4 104 4096 _ (
                  bounded 8 112 4194304 _ (
                    bounded 4 144 8192 _ (
                      bounded 4 148 512 _ (
                        bounded 2 156 subsystem_userland _ (
                          bounded 4 196 16 _ (
                            bounded 4 336 16 _ (
                              bounded 4 340 4096 _ (
                                bounded 4 344 16 _ (
                                  bounded 4 348 512 _
                                    (bounded 4 512 144 _ (λ a. omega arith))))))))))))))))))

load_image-same_example :
    (user_headers 528 file ≡ user_headers 528 longer)
    × ((nt : NtHeaders) (base : ℕ) (memory : ℕ → ℕ)
        → user_headers 528 file ≡ some nt
        → load_image base 528 nt file memory ≡ load_image base 528 nt longer memory)
load_image-same_example = load_image-same 528 file longer (λ a l. ground arith) file-bytes
