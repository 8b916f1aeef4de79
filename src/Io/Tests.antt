-- ===== src/Io/Tests.antt =====
-- Runs of the I/O manager, and its theorems at one boot file.
use ntx_preview.Base.{
  ℕ, ◌+◌, ◌<◌, ◌≡◌, refl, true, false, none, some, List, [], ◌∷◌, update, length, get_or,
  first_index, success,
}
use ntx_preview.Base.Text.{copy_text}
use ntx_preview.Io.{
  Io, File, blank_file, registered, copy_string, string_equals, lookup_file, register_boot_file,
  read_file, read_bytes,
}
use ntx_preview.Io.Read.{read_file-slice}
use ntx_preview.Io.Paths.{register_boot_file-lookup_file}

-- A file of five bytes.
abbrev small : File
small = record { header = some 0; bytes = λ i. i + 10; size = 5; access_mask = 1 }

read_file-small : read_file small 3 100 ≡ 13 ∷ 14 ∷ []
unfolding read_file read_bytes
read_file-small = refl

read_file-slice_example :
    (length (read_file small 3 100) ≡ 2)
    × ((k : ℕ) → k < 2 → get_or (read_file small 3 100) k 0 ≡ 3 + k + 10)
read_file-slice_example = read_file-slice small 3 100

-- No boot file yet.
abbrev started : Io
started = record {
  file_type = some 0;
  file_pool = λ i. blank_file;
  file_in_use = λ i. false;
  boot_files = λ i. record { path = λ k. 0; bytes = λ k. 0; size = 0; in_use = false };
  ready = true;
}

abbrev path : List ℕ
path = b'a' ∷ b'b' ∷ []

abbrev with_file : Io
with_file = registered 0 (update (update (update (λ k. 0) 0 b'a') 1 b'b') 2 0) (λ i. i) 9 started

lookup_file-started : lookup_file path started ≡ none
unfolding lookup_file first_index string_equals
lookup_file-started = refl

register_boot_file-started :
    register_boot_file (some path) (some λ i. i) 9 started ≡ (success, with_file)
unfolding register_boot_file first_index copy_string copy_text
register_boot_file-started = refl

register_boot_file-lookup_file_example :
    (i : ℕ) × (lookup_file path with_file ≡ some i)
    × ((with_file.boot_files i).bytes ≡ (λ k. k))
    × ((with_file.boot_files i).size ≡ 9)
register_boot_file-lookup_file_example =
    register_boot_file-lookup_file started with_file path (λ i. i) 9 lookup_file-started
      register_boot_file-started
