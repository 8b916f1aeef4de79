-- ===== src/Mm/SectionHandles.antt =====
-- kernel/mm/init.c, section objects behind handles: MmCreateSectionHandle and MmMapSectionHandle over
-- the object manager. The last reference to a section frees its pages.
use ntx_preview.Base.{
  ℕ, zero, suc, ◌+◌, ◌*◌, ◌/◌, ◌%◌, ◌^◌, Bool, true, not, ◌||◌, Option, none, some, List, [], ◌∷◌,
  is_some, update, bit_or, if◌then◌else◌, ◌==◌, leb, ltb, first_index, Status, succeeded, success,
  invalid_parameter, init_failed, not_found,
}
use ntx_preview.Ob.{
  Ob, Routine, delete_file, delete_section, delete_port, delete_process, delete_thread,
  create_object, insert_handle, reference_by_handle, dereference, kernel_handle_table,
}
use ntx_preview.Mm.{page_size, align_up, align_size_to_page, alloc_page}
use ntx_preview.Mm.Walk.{Memory, has, fresh_frame}
use ntx_preview.Mm.Space.{
  AddressSpace, VaRegion, max_va_regions, prot_write, prot_user, region_type_section,
  region_flag_lazy, append_region,
}
use ntx_preview.Mm.Fault.{
  Sections, Section, max_section_objects, find_section_by_header, delete_section_object,
}

abbrev pub max_section_pages : ℕ
max_section_pages = 256

-- MM_SECTION_ACCESS_MAP_READ and MM_SECTION_ACCESS_MAP_WRITE
abbrev pub section_access_map_read : ℕ
section_access_map_read = 1

abbrev pub section_access_map_write : ℕ
section_access_map_write = 2

-- MM_PROT_READ
abbrev pub prot_read : ℕ
prot_read = 1

-- The section objects and the memory that they hold.
pub record Store : Type 0 where
  pub sections : Sections
  pub memory : Memory

-- The delete routines, as far as they touch this component.
unfoldable pub run_delete : Routine → ℕ → Store → Store
run_delete delete_section object st =
    let (sections, pages) = delete_section_object (some object) st.sections st.memory.pages in
    record { sections = sections; memory = record st.memory { pages = pages } }
run_delete delete_file object st = st
run_delete delete_port object st = st
run_delete delete_process object st = st
run_delete delete_thread object st = st

abbrev pub set_section : ℕ → Section → Store → Store
set_section i section st = record st {
  sections = record st.sections { pool = update st.sections.pool i section };
}

-- The loop over the pages of a new section in slot `i`, of which `n` are left from `index` on.
unfoldable pub fill_section : ℕ → ℕ → ℕ → Store → Status × Store
fill_section zero index i st = (success, st)
fill_section (suc n) index i st =
    let (out, memory) = fresh_frame (λ w. 0) st.memory in
    elim out [
      | none ↦ ((alloc_page true st.memory.pages).0, record st { memory = memory })
      | some pa ↦
          let section = st.sections.pool i in
          fill_section n (index + 1) i (
            set_section i (record section { pages = update section.pages index pa })
              (record st { memory = memory }))
    ]

-- "mm.section"
abbrev pub section_name : List ℕ
section_name = b'm' ∷ b'm' ∷ b'.' ∷ b's' ∷ b'e' ∷ b'c' ∷ b't' ∷ b'i' ∷ b'o' ∷ b'n' ∷ []

-- The reference that creation holds is given up.
abbrev pub give_up : ℕ → Store → Ob → Store × Ob
give_up o st ob = let (_, ob', st') = dereference run_delete (some o) ob st in (st', ob')

-- MmCreateSectionHandle with its object made, and what the loop over the pages returned.
unfoldable pub insert_section : ℕ → ℕ → Status × Store → Ob → Status × Option ℕ × Store × Ob
insert_section desired o (status, st) ob =
    if not (succeeded status)
    then (let (st', ob') = give_up o st ob in (status, none, st', ob'))
    else (let (inserted, handle, ob1) =
          insert_handle (kernel_handle_table ob) (some o) desired true ob in
        let (st', ob') = give_up o st ob1 in (inserted, handle, st', ob'))

-- MmCreateSectionHandle from the free slot on.
unfoldable pub create_in_slot : ℕ → ℕ → Option ℕ → Store → Ob → Status × Option ℕ × Store × Ob
unfolding fill_section insert_section
create_in_slot count desired none st ob = (init_failed, none, st, ob)
create_in_slot count desired (some i) st ob =
    let blank = set_section i (record { header = none; page_count = 0; pages = λ p. 0 }) st in
    let (status, object, ob1) =
      create_object st.sections.section_type (some section_name)
        (bit_or section_access_map_read section_access_map_write) 0 true ob in
    elim object [
      | none ↦ (status, none, blank, ob1)
      | some o ↦
          let taken = record blank {
            sections = record blank.sections { in_use = update st.sections.in_use i true };
          } in
          let made =
            set_section i (record { header = some o; page_count = count; pages = λ p. 0 }) taken in
          insert_section desired o (fill_section count 0 i made) ob1
    ]

-- `MmCreateSectionHandle`; `out` is whether the result pointer is not NULL.
unfoldable pub create_section_handle : ℕ → ℕ → Bool → Store → Ob → Status × Option ℕ × Store × Ob
unfolding create_in_slot align_size_to_page
create_section_handle size desired out st ob =
    let count = align_size_to_page size / page_size % 2 ^ 32 in
    if not st.memory.pages.ready || not out || not (is_some st.sections.section_type)
    then (invalid_parameter, none, st, ob)
    else if count == 0 || ltb max_section_pages count
    then (invalid_parameter, none, st, ob)
    else create_in_slot count desired
        (first_index (λ i. not (st.sections.in_use i)) max_section_objects) st ob

-- The region that MmMapSectionHandle writes behind the others.
abbrev pub section_region : AddressSpace → ℕ → ℕ → Section → VaRegion
section_region space o protection section = record {
  base = align_up space.next_user_base page_size;
  size = section.page_count * page_size;
  type = region_type_section;
  protection = bit_or (if protection == 0 then prot_read else protection) prot_user;
  flags = region_flag_lazy;
  committed_pages = 0;
  backing_physical_base = 0;
  backing_object = some o;
  backing_offset = 0;
}

-- MmMapSectionHandle with the object that the handle names and its section in the pool, if it has
-- one; the region keeps the reference.
unfoldable pub map_found :
    AddressSpace → ℕ → ℕ → Store → Ob → Option ℕ → Status × Option ℕ × AddressSpace × Store × Ob
map_found space o protection st ob none =
    let (st', ob') = give_up o st ob in (not_found, none, space, st', ob')
map_found space o protection st ob (some i) =
    let region = section_region space o protection (st.sections.pool i) in
    (success, some region.base, append_region region space, st, ob)

abbrev pub map_object :
    AddressSpace → ℕ → ℕ → Store → Ob → Status × Option ℕ × AddressSpace × Store × Ob
map_object space o protection st ob =
    map_found space o protection st ob (find_section_by_header (some o) st.sections)

-- `MmMapSectionHandle`
unfoldable pub map_section_handle :
    AddressSpace → ℕ → ℕ → Bool → Store → Ob → Status × Option ℕ × AddressSpace × Store × Ob
map_section_handle space handle protection out st ob =
    let desired =
      if has protection prot_write
      then bit_or section_access_map_read section_access_map_write
      else section_access_map_read in
    if not st.memory.pages.ready || not out || not (is_some st.sections.section_type)
    then (invalid_parameter, none, space, st, ob)
    else if leb max_va_regions space.region_count
    then (init_failed, none, space, st, ob)
    else (let (status, object, ob1) =
          reference_by_handle (kernel_handle_table ob) handle desired st.sections.section_type true
            ob in
        elim object [
          | none ↦ (status, none, space, st, ob1)
          | some o ↦ map_object space o protection st ob1
        ])
