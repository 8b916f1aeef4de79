-- ===== src/Mm.antt =====
-- kernel/mm/init.c, the physical pages: the bitmap of allocated pages, the reference counts, and
-- what MmInitialize marks from the boot loader's memory map. The map's entries are the list of
-- ranges that stand at `MemoryMap`, and the addresses of structures are numbers.
pub mod Bitmap
pub mod Alloc
pub mod Align
pub mod Mark
pub mod Share
pub mod Walk
pub mod Entry
pub mod Pte
pub mod Tables
pub mod Round
pub mod Descent
pub mod Mapped
pub mod Mapping
pub mod Space
pub mod Fault
pub mod SectionHandles
pub mod SectionSizes
pub mod SectionMapped
pub mod Layout
pub mod Found
pub mod Zeroed
pub mod Allowed
pub mod Spaces
mod Tests
mod SpaceTests
mod SectionTests
use ntx_preview.Base.{
  ℕ, zero, suc, ◌+◌, ◌-◌, ◌*◌, ◌/◌, ◌%◌, ◌^◌, Bool, true, false, not, ◌&&◌, ◌||◌, Option, none,
  some, List, [], ◌∷◌, update, length, bit_and, bit_or, min, if◌then◌else◌, ◌==◌, ◌!=◌, leb, ltb,
  first_index, Status, success, init_failed, invalid_parameter,
}
use ntx_preview.Base.Bits.{complement}
use ntx_preview.BootProto.{PhysicalMemoryRange, BootInfo, flag_init_image_present}

abbrev pub page_size : ℕ
page_size = 4096

abbrev pub max_tracked_pages : ℕ
max_tracked_pages = 262144

abbrev pub bitmap_word_bits : ℕ
bitmap_word_bits = 64

-- The globals of init.c that describe physical pages.
pub record Pages : Type 0 where
  pub page_bitmap : ℕ → ℕ
  pub page_ref_count : ℕ → ℕ
  pub tracked_pages : ℕ
  pub next_scan_page : ℕ
  pub ready : Bool

-- The word of a page in the bitmap, and its bit `1 << (PageIndex % 64)`.
abbrev pub word_of : ℕ → Pages → ℕ
word_of page mm = mm.page_bitmap (page / bitmap_word_bits)

abbrev pub set_word : ℕ → ℕ → Pages → Pages
set_word page word mm = record mm {
  page_bitmap = update mm.page_bitmap (page / bitmap_word_bits) word;
}

-- `MmpSetPageAllocated`
unfoldable pub set_page_allocated : ℕ → Pages → Pages
set_page_allocated page mm =
    set_word page (bit_or (word_of page mm) (2 ^ (page % bitmap_word_bits))) mm

-- `MmpSetPageFree`
unfoldable pub set_page_free : ℕ → Pages → Pages
set_page_free page mm =
    set_word page (bit_and (word_of page mm) (complement 64 (2 ^ (page % bitmap_word_bits)))) mm

-- `MmpIsPageAllocated`
unfoldable pub is_page_allocated : ℕ → Pages → Bool
is_page_allocated page mm = bit_and (word_of page mm) (2 ^ (page % bitmap_word_bits)) != 0

-- `MmpAlignUp` on 64 bits.
unfoldable pub align_up : ℕ → ℕ → ℕ
align_up value alignment =
    if alignment == 0
    then value
    else bit_and ((value + (alignment - 1)) % 2 ^ 64) (complement 64 (alignment - 1))

-- `MmpAlignDown`
unfoldable pub align_down : ℕ → ℕ → ℕ
align_down value alignment =
    if alignment == 0 then value else bit_and value (complement 64 (alignment - 1))

-- `MmpAlignSizeToPage`
unfoldable pub align_size_to_page : ℕ → ℕ
unfolding align_up
align_size_to_page size = if size == 0 then page_size else align_up size page_size

-- The page that round `k` of the scan looks at.
abbrev pub scanned : Pages → ℕ → ℕ
scanned mm k = (mm.next_scan_page + k) % 2 ^ 32 % mm.tracked_pages

-- The page is given away, with its first reference count.
abbrev pub taken : ℕ → ℕ → Pages → Pages
taken page initial_ref_count mm = record (set_page_allocated page mm) {
  page_ref_count = update mm.page_ref_count page initial_ref_count;
  next_scan_page = (page + 1) % mm.tracked_pages;
}

-- `MmpAllocPageInternal`; `out` is whether the result pointer is not NULL.
unfoldable pub alloc_page_internal : Bool → ℕ → Pages → Status × Option ℕ × Pages
unfolding is_page_allocated set_page_allocated
alloc_page_internal out initial_ref_count mm =
    if not out || mm.tracked_pages == 0
    then (invalid_parameter, none, mm)
    else elim (first_index (λ k. not (is_page_allocated (scanned mm k) mm)) mm.tracked_pages) [
      | none ↦ (init_failed, none, mm)
      | some k ↦
          (success, some (scanned mm k * page_size), taken (scanned mm k) initial_ref_count mm)
    ]

-- `MmAllocPage`
unfoldable pub alloc_page : Bool → Pages → Status × Option ℕ × Pages
unfolding alloc_page_internal
alloc_page out mm =
    if not mm.ready || not out then (invalid_parameter, none, mm) else alloc_page_internal out 1 mm

-- The page is given back, with no references.
abbrev pub freed : ℕ → Pages → Pages
freed page mm = record (set_page_free page mm) { page_ref_count = update mm.page_ref_count page 0 }

-- `MmFreePage` behind its tests of the address.
unfoldable pub free_tracked : ℕ → Pages → Status × Pages
unfolding is_page_allocated set_page_free
free_tracked page mm =
    if leb mm.tracked_pages page || not (is_page_allocated page mm)
    then (invalid_parameter, mm)
    else (success, freed page mm)

-- `MmFreePage`
unfoldable pub free_page : ℕ → Pages → Status × Pages
unfolding free_tracked
free_page physical mm =
    if not mm.ready || physical % page_size != 0
    then (invalid_parameter, mm)
    else free_tracked (physical / page_size) mm

-- `MmpRetainPage`
unfoldable pub retain_page : ℕ → Pages → Pages
retain_page physical mm =
    let page = physical / page_size in
    if ltb page max_tracked_pages && mm.page_ref_count page != 0
    then record mm {
      page_ref_count = update mm.page_ref_count page ((mm.page_ref_count page + 1) % 2 ^ 32);
    }
    else mm

-- `MmpReleasePage`
unfoldable pub release_page : ℕ → Pages → Pages
unfolding set_page_free
release_page physical mm =
    let page = physical / page_size in
    if leb max_tracked_pages page || mm.page_ref_count page == 0
    then mm
    else (let less = record mm {
      page_ref_count = update mm.page_ref_count page (mm.page_ref_count page - 1);
    } in
        if less.page_ref_count page == 0 then set_page_free page less else less)

-- One page of `MmpMarkRange`.
abbrev pub set_page : Bool → ℕ → Pages → Pages
set_page allocated page mm = if allocated then set_page_allocated page mm else set_page_free page mm

-- The loop of `MmpMarkRange`, in `n` rounds from a page on; it breaks off at the last tracked page.
unfoldable pub mark_pages : Bool → ℕ → ℕ → Pages → Pages
unfolding set_page_allocated set_page_free
mark_pages allocated zero page mm = mm
mark_pages allocated (suc n) page mm =
    let rest = mark_pages allocated n (page + 1) (set_page allocated page mm) in
    if leb mm.tracked_pages page then mm else rest

-- `MmpMarkRange` from its aligned bounds on.
unfoldable pub mark_between : ℕ → ℕ → ℕ → Bool → Pages → Pages
mark_between start end length allocated mm =
    if length == 0 || mm.tracked_pages == 0 || leb end start
    then mm
    else mark_pages allocated (end / page_size - start / page_size) (start / page_size) mm

-- `MmpMarkRange`
unfoldable pub mark_range : ℕ → ℕ → Bool → Pages → Pages
mark_range base length allocated mm =
    mark_between (align_up base page_size) (align_down ((base + length) % 2 ^ 64) page_size) length
      allocated mm

-- `MmpIsRangeUsable`: EFI_CONVENTIONAL_MEMORY, EFI_BOOT_SERVICES_CODE and _DATA, and
-- EFI_LOADER_CODE and _DATA.
abbrev pub is_range_usable : PhysicalMemoryRange → Bool
is_range_usable r = r.type == 7 || r.type == 3 || r.type == 4 || r.type == 1 || r.type == 2

-- The loop of `MmpMarkUsableFromBootInfo`.
pub mark_usable : List PhysicalMemoryRange → Pages → Pages
unfolding mark_range
mark_usable [] mm = mm
mark_usable (r ∷ ranges) mm =
    mark_usable ranges (if is_range_usable r then mark_range r.base r.length false mm else mm)

-- `MmpReserveBootCriticalRanges` with a boot information at the address `at`, of `bytes` bytes.
pub reserve_boot_critical_ranges : BootInfo → ℕ → ℕ → Pages → Pages
unfolding mark_range
reserve_boot_critical_ranges info at bytes mm =
    let low = mark_range 0 1048576 true mm in
    let kernel = mark_range info.kernel_base info.kernel_size true low in
    let loader = mark_range info.loader_base 2097152 true kernel in
    let image =
      if bit_and info.flags flag_init_image_present != 0
        && info.init_image_base != 0
        && info.init_image_size != 0
      then mark_range info.init_image_base info.init_image_size true loader
      else loader in
    let boot = mark_range at bytes true image in
    mark_range info.memory_map (length info.ranges * info.memory_map_entry_size) true boot

-- What MmInitialize makes of the pages: all are allocated, but for those that the map's entries
-- give and no critical range takes. `top` is the platform's `PhysicalMemoryTop`.
pub initialize_pages : BootInfo → ℕ → ℕ → ℕ → Pages → Pages
unfolding mark_usable reserve_boot_critical_ranges
initialize_pages info at bytes top mm =
    let cleared = record mm {
      page_bitmap = λ w. 2 ^ 64 - 1;
      page_ref_count = λ p. 0;
      tracked_pages = min (top / page_size) max_tracked_pages;
      next_scan_page = 0;
    } in
    let usable =
      if info.memory_map == 0 || info.memory_map_entry_size == 0
      then cleared
      else mark_usable info.ranges cleared in
    reserve_boot_critical_ranges info at bytes usable
