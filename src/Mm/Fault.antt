-- ===== src/Mm/Fault.antt =====
-- kernel/mm/init.c, page faults: MmHandlePageFault on the regions of an address space, the section
-- objects behind them, and the record that MmpRecordFault keeps.
use ntx_preview.Base.{
  ℕ, zero, suc, ◌+◌, ◌-◌, ◌/◌, ◌%◌, ◌^◌, Bool, true, false, not, ◌&&◌, ◌||◌, Option, none, some,
  ◌=?◌, update, bit_and, bit_or, if◌then◌else◌, ◌==◌, ◌!=◌, leb, ltb, first_index, Status,
  succeeded, success, invalid_parameter, init_failed, access_denied, not_found, not_implemented,
}
use ntx_preview.Base.Bits.{complement}
use ntx_preview.Mm.{
  page_size, max_tracked_pages, align_down, retain_page, release_page, free_page, Pages,
}
use ntx_preview.Mm.Walk.{Memory, has, frame, fresh_frame, pte_soft_cow, pte_writable, pte_addr_mask}
use ntx_preview.Mm.Pte.{as_map_page, as_protect_page, as_query_pte}
use ntx_preview.Mm.Space.{
  AddressSpace, VaRegion, region_flag_guard, region_type_anon, region_type_phys,
  region_type_section, prot_write, prot_user, prot_execute, protection_to_pte, find_region,
}

-- MM_PF_ERROR_PRESENT, MM_PF_ERROR_WRITE, MM_PF_ERROR_USER and MM_PF_ERROR_INSTR
abbrev pub error_present : ℕ
error_present = 1

abbrev pub error_write : ℕ
error_write = 2

abbrev pub error_user : ℕ
error_user = 4

abbrev pub error_instr : ℕ
error_instr = 16

abbrev pub max_section_objects : ℕ
max_section_objects = 64

-- `MM_SECTION_OBJECT`
pub record Section : Type 0 where
  pub header : Option ℕ
  pub page_count : ℕ
  pub pages : ℕ → ℕ

-- The globals of init.c that hold the section objects.
pub record Sections : Type 0 where
  pub section_type : Option ℕ
  pub in_use : ℕ → Bool
  pub pool : ℕ → Section

-- `MmpFindSectionByHeader`
unfoldable pub find_section_by_header : Option ℕ → Sections → Option ℕ
find_section_by_header none sections = none
find_section_by_header (some header) sections =
    first_index (λ k. sections.in_use k && (sections.pool k).header =? some header)
      max_section_objects

-- A page is zeroed and mapped, or the page of a section or of physical memory is; the result is the
-- status and memory.
abbrev pub map_in : AddressSpace → VaRegion → ℕ → ℕ → Memory → Status × Memory
map_in space region page physical m =
    as_map_page (some space.root_table_physical) page physical
      (protection_to_pte region.protection region.flags) m

-- `Region->CommittedPages++` when the page was mapped.
unfoldable pub commit : ℕ → AddressSpace → Status × Memory → Status × AddressSpace × Memory
commit k space (status, m) =
    if succeeded status
    then (
      success,
      record space {
        regions = update space.regions k (record (space.regions k) {
          committed_pages = ((space.regions k).committed_pages + 1) % 2 ^ 32;
        });
      },
      m,
    )
    else (status, space, m)

-- A fault on an anonymous region, with the frame that was zeroed.
unfoldable pub fault_anonymous :
    ℕ → AddressSpace → ℕ → Option ℕ × Memory → Status × AddressSpace × Memory
unfolding commit
fault_anonymous k space page (none, m) = (init_failed, space, m)
fault_anonymous k space page (some pa, m) =
    commit k space (map_in space (space.regions k) page pa m)

-- A fault on a region over physical memory.
unfoldable pub fault_physical :
    VaRegion → AddressSpace → ℕ → Memory → Status × AddressSpace × Memory
fault_physical region space page m =
    let pa = (region.backing_physical_base + (page + (2 ^ 64 - region.base))) % 2 ^ 64 in
    let retained = record m { pages = retain_page pa m.pages } in
    let (status, m') = map_in space region page pa retained in (status, space, m')

-- A fault on a region over a section object.
unfoldable pub fault_section :
    ℕ → AddressSpace → ℕ → Option Section → Memory → Status × AddressSpace × Memory
unfolding commit
fault_section k space page none m = (not_found, space, m)
fault_section k space page (some section) m =
    let region = space.regions k in
    let offset = (page + (2 ^ 64 - region.base) + region.backing_offset) % 2 ^ 64 in
    let index = offset / page_size % 2 ^ 32 in
    if leb section.page_count index
    then (access_denied, space, m)
    else commit k space (
        map_in space region page (section.pages index)
          (record m { pages = retain_page (section.pages index) m.pages }))

-- The entry of a copied page, without the old address.
abbrev pub copied_flags : ℕ → ℕ
copied_flags pte =
    bit_and (bit_or (bit_and pte (complement 64 pte_soft_cow)) pte_writable)
      (complement 64 pte_addr_mask)

-- The shared page is copied, with the frame that got the copy.
unfoldable pub copy_on_write :
    AddressSpace → ℕ → ℕ → Option ℕ × Memory → Status × AddressSpace × Memory
copy_on_write space page pte (none, m) = (init_failed, space, m)
copy_on_write space page pte (some pa, m) =
    let released = record m { pages = release_page (frame pte) m.pages } in
    let (status, m') =
      as_map_page (some space.root_table_physical) page pa (copied_flags pte) released in
    (status, space, m')

-- A fault on a page that is present: a write to a page that is copied on write, or none at all.
unfoldable pub fault_present :
    AddressSpace → ℕ → ℕ → Option ℕ → Memory → Status × AddressSpace × Memory
unfolding copy_on_write
fault_present space page error none m = (access_denied, space, m)
fault_present space page error (some pte) m =
    let old = frame pte / page_size in
    if not (has pte pte_soft_cow && has error error_write)
    then (access_denied, space, m)
    else if ltb old max_tracked_pages && m.pages.page_ref_count old == 1
    then (let (status, m') =
          as_protect_page (some space.root_table_physical) page
            (bit_or (bit_and pte (complement 64 pte_soft_cow)) pte_writable) m in
        (status, space, m'))
    else copy_on_write space page pte (fresh_frame (m.words (frame pte)) m)

-- The region's own tests of the access.
abbrev pub is_denied : VaRegion → ℕ → Bool
is_denied region error =
    has region.flags region_flag_guard
    || (has error error_write && not (has region.protection prot_write))
    || (has error error_user && not (has region.protection prot_user))
    || (has error error_instr && not (has region.protection prot_execute))

abbrev pub section_of : VaRegion → Sections → Option Section
section_of region sections = elim (find_section_by_header region.backing_object sections) [
  | none ↦ none
  | some k ↦ some (sections.pool k)
]

-- A fault on a page that is not present, by the region's type.
unfoldable pub fault_absent :
    ℕ → AddressSpace → ℕ → Sections → Memory → Status × AddressSpace × Memory
unfolding fault_anonymous fault_physical fault_section
fault_absent k space page sections m =
    let region = space.regions k in
    if region.type == region_type_anon
    then fault_anonymous k space page (fresh_frame (λ i. 0) m)
    else if region.type == region_type_phys
    then fault_physical region space page m
    else if region.type == region_type_section
    then fault_section k space page (section_of region sections) m
    else (not_implemented, space, m)

-- MmHandlePageFault in the region that was found.
unfoldable pub fault_in :
    Option ℕ → AddressSpace → ℕ → ℕ → Sections → Memory → Status × AddressSpace × Memory
fault_in none space fault error sections m = (access_denied, space, m)
fault_in (some k) space fault error sections m =
    let page = align_down fault page_size in
    if is_denied (space.regions k) error
    then (access_denied, space, m)
    else if has error error_present
    then fault_present space page error
        ((as_query_pte (some space.root_table_physical) page true m).1) m
    else fault_absent k space page sections m

-- `MmHandlePageFault`; the address space is not NULL.
unfoldable pub handle_page_fault :
    AddressSpace → ℕ → ℕ → Sections → Memory → Status × AddressSpace × Memory
handle_page_fault space fault error sections m =
    if not m.pages.ready
    then (invalid_parameter, space, m)
    else fault_in (find_region space fault) space fault error sections m

-- The loop of `MmpDeleteSectionObject` over the pages of the section, in `n` rounds.
pub free_pages : ℕ → ℕ → (ℕ → ℕ) → Pages → Pages
free_pages zero i section_pages mm = mm
free_pages (suc n) i section_pages mm =
    free_pages n (i + 1) section_pages
      (if section_pages i != 0 then (free_page (section_pages i) mm).1 else mm)

-- `MmpDeleteSectionObject` with the section found: the slot is free, and the pages too.
unfoldable pub delete_found_section : Option ℕ → Sections → Pages → Sections × Pages
unfolding free_pages
delete_found_section none sections mm = (sections, mm)
delete_found_section (some k) sections mm =
    let section = sections.pool k in
    (
      record sections {
        in_use = update sections.in_use k false;
        pool = update sections.pool k (record section {
          header = none;
          page_count = 0;
          pages = λ i. if ltb i section.page_count then 0 else section.pages i;
        });
      },
      free_pages section.page_count 0 section.pages mm,
    )

-- `MmpDeleteSectionObject`
unfoldable pub delete_section_object : Option ℕ → Sections → Pages → Sections × Pages
delete_section_object object sections mm =
    delete_found_section (find_section_by_header object sections) sections mm

-- `MM_FAULT_TRACE`
pub record FaultTrace : Type 0 where
  pub fault_address : ℕ
  pub instruction_pointer : ℕ
  pub error_code : ℕ
  pub process_id : ℕ
  pub space_id : ℕ
  pub outcome : Status

pub record FaultLog : Type 0 where
  pub trace : ℕ → FaultTrace
  pub trace_next : ℕ

-- `MmpRecordFault`, with what PsGetCurrentProcess returns, as its ProcessId.
pub record_fault : Option AddressSpace → Option ℕ → ℕ → ℕ → ℕ → Status → FaultLog → FaultLog
record_fault space process fault error instruction outcome log = record {
  trace = update log.trace (log.trace_next % 64) (record {
    fault_address = fault;
    instruction_pointer = instruction;
    error_code = error;
    process_id = elim process [ none ↦ 0 | some id ↦ id ];
    space_id = elim space [ none ↦ 0 | some s ↦ s.address_space_id ];
    outcome = outcome;
  });
  trace_next = (log.trace_next + 1) % 2 ^ 32;
}
