-- ===== src/Mm/SpaceTests.antt =====
-- Runs of the page tables and address spaces, and their theorems at 64 pages of which page 1 holds
-- the root table of an empty address space.
use ntx_preview.Base.{
  ℕ, ◌*◌, ◌≡◌, ◌<◌, ◌≤◌, ◌+◌, ◌≢◌, refl, true, false, none, some, if◌then◌else◌, Status, success,
  not_found, arith, first_index, Option, leb, ltb, ◌&&◌, bit_or,
}
use ntx_preview.Mm.{
  Pages, page_size, is_page_allocated, alloc_page, release_page, align_down, align_size_to_page,
  align_up, page_size,
}
use ntx_preview.Mm.Alloc.{IsSane}
use ntx_preview.Mm.Walk.{
  Memory, frame, has, user_base, pte_present, fresh_frame, walk_to_pte, descend, go_on, split_large,
  sanitize, create_missing,
}
use ntx_preview.Mm.Pte.{
  page_entry, as_map_page, as_query_pte, as_unmap_page, as_protect_page, map_at,
}
use ntx_preview.Mm.Space.{
  AddressSpace, VaRegion, Spaces, map_anonymous, find_region, create_address_space,
  get_address_space_by_id, protection_to_pte, prot_write, prot_user, prot_execute,
  region_flag_guard, map_region,
}
use ntx_preview.Mm.Fault.{
  Sections, handle_page_fault, error_write, error_user, error_instr, fault_in, fault_absent,
}
use ntx_preview.Mm.Mapped.{IsMappable}
use ntx_preview.Mm.Mapping.{
  as_map_page-as_query_pte, as_map_page-as_unmap_page, as_map_page-as_protect_page,
}
use ntx_preview.Mm.Layout.{IsLaidOut, map_anonymous-IsLaidOut}
use ntx_preview.Mm.Found.{map_anonymous-find_region}
use ntx_preview.Mm.Zeroed.{handle_page_fault-zeroed}
use ntx_preview.Mm.Allowed.{handle_page_fault-allowed}
use ntx_preview.Mm.Spaces.{IsNumbered, create_address_space-get_address_space_by_id}

abbrev pub few_pages : Pages
few_pages = record {
  page_bitmap = λ w. if ltb w 1 then 3 else 0;
  page_ref_count = λ p. if ltb p 2 then 1 else 0;
  tracked_pages = 64;
  next_scan_page = 2;
  ready = true;
}

few_pages-IsSane : IsSane few_pages
few_pages-IsSane = record {
  on = refl;
  some_page = omega arith;
  bound = omega arith;
  next = omega arith;
}

abbrev pub empty_memory : Memory
empty_memory = record { pages = few_pages; words = λ t i. 0 }

empty_memory-IsMappable : (virtual : ℕ) → IsMappable 4096 virtual empty_memory
unfolding is_page_allocated
empty_memory-IsMappable virtual = (refl, λ x e. absurd e, λ p l. absurd (cc p))

abbrev mapped : Status × Memory
mapped = as_map_page (some 4096) 1073741824 40960 6 empty_memory

mapped-success : mapped ≡ (success, mapped.1)
unfolding as_map_page walk_to_pte alloc_page first_index map_at descend go_on split_large sanitize
    create_missing
mapped-success = refl

as_map_page-as_query_pte_example :
    as_query_pte (some 4096) 1073741824 true mapped.1
    ≡ (success, some (bit_or (bit_or (frame 40960) 6) pte_present))
as_map_page-as_query_pte_example =
    as_map_page-as_query_pte 4096 1073741824 40960 6 empty_memory mapped.1 few_pages-IsSane
      (empty_memory-IsMappable 1073741824) mapped-success

as_map_page-as_unmap_page_example :
    (m : Memory) × (as_unmap_page (some 4096) 1073741824 mapped.1 ≡ (success, m))
    × (m.pages ≡ release_page (frame 40960) mapped.1.pages)
    × (as_query_pte (some 4096) 1073741824 true m ≡ (success, some 0))
    × (as_unmap_page (some 4096) 1073741824 m ≡ (not_found, m))
as_map_page-as_unmap_page_example =
    as_map_page-as_unmap_page 4096 1073741824 40960 6 empty_memory mapped.1 few_pages-IsSane
      (empty_memory-IsMappable 1073741824) mapped-success refl

as_map_page-as_protect_page_example :
    (m : Memory) × (as_protect_page (some 4096) 1073741824 4 mapped.1 ≡ (success, m))
    × (m.pages ≡ mapped.1.pages)
    × (as_query_pte (some 4096) 1073741824 true m
        ≡ (success, some (bit_or (bit_or (frame 40960) 4) pte_present)))
as_map_page-as_protect_page_example =
    as_map_page-as_protect_page 4096 1073741824 40960 6 empty_memory mapped.1 few_pages-IsSane
      (empty_memory-IsMappable 1073741824) mapped-success 4 refl refl

abbrev pub blank : VaRegion
blank = record {
  base = 0;
  size = 0;
  type = 0;
  protection = 0;
  flags = 0;
  committed_pages = 0;
  backing_physical_base = 0;
  backing_object = none;
  backing_offset = 0;
}

abbrev pub empty_space : AddressSpace
empty_space = record {
  address_space_id = 1;
  owner_process_id = 1;
  root_table_physical = 4096;
  next_user_base = user_base;
  region_count = 0;
  regions = λ k. blank;
}

pub empty_space-IsLaidOut : IsLaidOut empty_space
empty_space-IsLaidOut = record {
  count = omega arith;
  low = omega arith;
  top = omega arith;
  whole = refl;
  base_low = λ k l. absurd (omega arith);
  base_whole = λ k l. absurd (omega arith);
  within = λ k l. absurd (omega arith);
  disjoint = λ j k h l. absurd (omega arith);
}

-- Two pages that can be read and written, lazily.
abbrev grown : Status × Option ℕ × AddressSpace × Memory
grown = map_anonymous empty_space 5000 3 0 true empty_memory

grown-success : grown ≡ (success, some 1073741824, grown.2, grown.3)
unfolding map_anonymous map_region align_up align_size_to_page
grown-success = refl

map_anonymous-IsLaidOut_example : IsLaidOut grown.2
map_anonymous-IsLaidOut_example =
    map_anonymous-IsLaidOut empty_space 5000 3 0 empty_space-IsLaidOut (omega arith) true
      empty_memory

map_anonymous-find_region_example :
    (empty_space.next_user_base ≡ user_base)
    × ((virtual : ℕ)
        → find_region grown.2 virtual ≡ (
            if leb 1073741824 virtual && ltb virtual (1073741824 + align_size_to_page 5000)
            then some 0
            else find_region empty_space virtual))
map_anonymous-find_region_example =
    map_anonymous-find_region empty_space grown.2 5000 3 0 1073741824 empty_memory grown.3
      empty_space-IsLaidOut (omega arith) grown-success

abbrev none_made : Sections
none_made = record {
  section_type = none;
  in_use = λ k. false;
  pool = λ k. record { header = none; page_count = 0; pages = λ i. 0 };
}

-- User code writes to the second page of the region.
abbrev faulted : Status × AddressSpace × Memory
faulted = handle_page_fault grown.2 1073746000 6 none_made empty_memory

found_first : find_region grown.2 1073746000 ≡ some 0
unfolding find_region map_anonymous map_region align_up align_size_to_page first_index
found_first = refl

first-anonymous : (grown.2.regions 0).type ≡ 1
unfolding map_anonymous map_region
first-anonymous = refl

faulted-success : faulted ≡ (success, faulted.1, faulted.2)
unfolding handle_page_fault fault_in fault_absent find_region map_anonymous map_region align_up
    align_down align_size_to_page first_index alloc_page as_map_page walk_to_pte map_at descend
    go_on split_large sanitize create_missing
faulted-success = refl

handle_page_fault-zeroed_example :
    (p : ℕ) × (is_page_allocated p few_pages ≡ false)
    × (as_query_pte (some 4096) (align_down 1073746000 page_size) true faulted.2 ≡ (
      success,
      some (
          page_entry
            (p * page_size)
            (protection_to_pte (grown.2.regions 0).protection (grown.2.regions 0).flags)),
    ))
    × ((i : ℕ) → faulted.2.words (p * page_size) i ≡ 0)
unfolding map_anonymous map_region
handle_page_fault-zeroed_example =
    handle_page_fault-zeroed grown.2 faulted.1 0 1073746000 6 none_made empty_memory faulted.2
      few_pages-IsSane (empty_memory-IsMappable (align_down 1073746000 page_size)) found_first
      first-anonymous refl faulted-success

handle_page_fault-allowed_example :
    (k : ℕ) × (k < grown.2.region_count)
    × ((grown.2.regions k).base ≤ 1073746000)
    × (1073746000 < (grown.2.regions k).base + (grown.2.regions k).size)
    × (has (grown.2.regions k).flags region_flag_guard ≡ false)
    × (has 6 error_write ≡ true → has (grown.2.regions k).protection prot_write ≡ true)
    × (has 6 error_user ≡ true → has (grown.2.regions k).protection prot_user ≡ true)
    × (has 6 error_instr ≡ true → has (grown.2.regions k).protection prot_execute ≡ true)
handle_page_fault-allowed_example =
    handle_page_fault-allowed grown.2 faulted.1 1073746000 6 none_made empty_memory faulted.2
      map_anonymous-IsLaidOut_example faulted-success

-- No address space is in use, and the kernel's root table is in page 1.
abbrev no_spaces : Spaces
no_spaces = record {
  memory = empty_memory;
  pool = λ k. empty_space;
  in_use = λ k. false;
  next_address_space_id = 1;
  kernel_root_table_physical = 4096;
}

no_spaces-IsNumbered : IsNumbered no_spaces
no_spaces-IsNumbered = record {
  next = omega arith;
  given = λ k l u. absurd (cc u);
  distinct = λ j k lj lk uj uk e. absurd (cc uj);
}

abbrev first_space : Status × Option ℕ × Spaces
first_space = create_address_space 7 true no_spaces

first_space-success : first_space ≡ (success, some 0, first_space.2)
unfolding create_address_space first_index alloc_page fresh_frame
first_space-success = refl

create_address_space-get_address_space_by_id_example :
    (get_address_space_by_id 1 first_space.2 ≡ some 0)
    × ((id : ℕ)
        → id ≢ 1
        → get_address_space_by_id id first_space.2 ≡ get_address_space_by_id id no_spaces)
    × (no_spaces.in_use 0 ≡ false)
    × IsNumbered first_space.2
    × ((p : ℕ) × (is_page_allocated p few_pages ≡ false)
        × ((first_space.2.pool 0).root_table_physical ≡ p * page_size)
        × ((i : ℕ) → first_space.2.memory.words (p * page_size) i ≡ 0))
create_address_space-get_address_space_by_id_example =
    create_address_space-get_address_space_by_id 7 0 no_spaces first_space.2 few_pages-IsSane
      no_spaces-IsNumbered (omega arith) first_space-success
