-- ===== src/Ps/Image.antt =====
-- kernel/ps/init.c, executable images: PspApplyUserKpeRelocations on the loaded bytes, and
-- PspFileRangeValid. Memory is a function from addresses to bytes. Each value is read where the code
-- reads it, so a patch that lands in the relocation directory is seen by what is read later.
use ntx_preview.Base.{
  ℕ, zero, suc, ◌+◌, ◌-◌, ◌/◌, ◌%◌, ◌^◌, Bool, true, false, not, Option, none, some, bit_and,
  if◌then◌else◌, ◌==◌, ◌!=◌, ltb, Status, succeeded, success, access_denied, invalid_parameter,
  not_implemented, leb,
}
use ntx_preview.Kpe.{
  OptionalHeader, read_bytes, write_bytes, dll_char_dynamic_base, rel_based_absolute,
  rel_based_dir64, block_bytes,
}

-- `PspFileRangeValid`
unfoldable pub file_range_valid : ℕ → ℕ → ℕ → Bool
file_range_valid file_size offset size =
    let end = (offset + size) % 2 ^ 64 in if ltb end offset then false else leb end file_size

-- `(uint64_t)((int64_t)(*Patch) + Delta)`
abbrev pub patched : ℕ → ℕ → ℕ → ℕ
patched base image_base value = (value + base + (2 ^ 64 - image_base)) % 2 ^ 64

-- `PatchRva`
abbrev pub patch_rva : ℕ → ℕ → ℕ
patch_rva block entry = (block + bit_and entry 4095) % 2 ^ 32

-- `*Patch = ...`
unfoldable pub patch : ℕ → OptionalHeader → ℕ → (ℕ → ℕ) → ℕ → ℕ
patch base nt rva memory =
    write_bytes 8 (base + rva) (patched base nt.image_base (read_bytes 8 (base + rva) memory))
      memory

-- The loop over the entries of the block at `cursor`, of which `n` are left from `at` on.
unfoldable pub apply_entries : ℕ → OptionalHeader → ℕ → ℕ → ℕ → (ℕ → ℕ) → Status × (ℕ → ℕ)
apply_entries base nt cursor zero at memory = (success, memory)
apply_entries base nt cursor (suc n) at memory =
    let entry = read_bytes 2 at memory in
    let rva = patch_rva (read_bytes 4 cursor memory) entry in
    let skipped = apply_entries base nt cursor n (at + 2) memory in
    let rest = apply_entries base nt cursor n (at + 2) (patch base nt rva memory) in
    if entry / 4096 == rel_based_absolute
    then skipped
    else if entry / 4096 != rel_based_dir64
    then (not_implemented, memory)
    else if ltb nt.size_of_image (rva + 8)
    then (invalid_parameter, memory)
    else rest

-- The tests of a block at `cursor`: its size, its page in the image, and its end in the directory.
unfoldable pub is_bad_block : OptionalHeader → ℕ → ℕ → (ℕ → ℕ) → Bool
is_bad_block nt cursor end memory =
    let size = read_bytes 4 (cursor + 4) memory in
    if ltb size block_bytes
    then true
    else if ltb nt.size_of_image (read_bytes 4 cursor memory + 4096)
    then true
    else ltb end (cursor + size)

-- The entries of the block at `cursor`.
unfoldable pub apply_block : ℕ → OptionalHeader → ℕ → (ℕ → ℕ) → Status × (ℕ → ℕ)
unfolding apply_entries
apply_block base nt cursor memory =
    apply_entries base nt cursor ((read_bytes 4 (cursor + 4) memory - block_bytes) / 2)
      (cursor + block_bytes) memory

-- The loop over the blocks, in at most `fuel` rounds; none when they are not enough.
unfoldable pub apply_blocks : ℕ → ℕ → OptionalHeader → ℕ → ℕ → (ℕ → ℕ) → Option (Status × (ℕ → ℕ))
apply_blocks zero base nt cursor end memory = none
apply_blocks (suc fuel) base nt cursor end memory =
    let (status, after) = apply_block base nt cursor memory in
    let rest = apply_blocks fuel base nt (cursor + read_bytes 4 (cursor + 4) after) end after in
    if ltb end (cursor + block_bytes)
    then some (success, memory)
    else if is_bad_block nt cursor end memory
    then some (invalid_parameter, memory)
    else if not (succeeded status)
    then some (status, after)
    else rest

-- The tests of PspApplyUserKpeRelocations before its loop, with the status that they return.
unfoldable pub without_loop : ℕ → OptionalHeader → Option Status
without_loop base nt =
    let directory = nt.base_relocations in
    if base == nt.image_base
    then some success
    else if bit_and nt.dll_characteristics dll_char_dynamic_base == 0
    then some access_denied
    else if directory.virtual_address == 0
    then some access_denied
    else if ltb directory.size block_bytes
    then some access_denied
    else if ltb nt.size_of_image (directory.virtual_address + directory.size)
    then some invalid_parameter
    else none

-- The rest of PspApplyUserKpeRelocations, with what the tests returned: every round but the last
-- moves the cursor on by a byte at least, so the size of the directory and two rounds more are
-- enough.
unfoldable pub behind_tests :
    ℕ → OptionalHeader → (ℕ → ℕ) → Option Status → Option (Status × (ℕ → ℕ))
behind_tests base nt memory (some status) = some (status, memory)
behind_tests base nt memory none =
    apply_blocks (nt.base_relocations.size + 2) base nt (base + nt.base_relocations.virtual_address)
      (base + nt.base_relocations.virtual_address + nt.base_relocations.size) memory

-- `PspApplyUserKpeRelocations`
unfoldable pub apply_relocations : ℕ → OptionalHeader → (ℕ → ℕ) → Option (Status × (ℕ → ℕ))
unfolding behind_tests
apply_relocations base nt memory = behind_tests base nt memory (without_loop base nt)
