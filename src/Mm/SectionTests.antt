-- ===== src/Mm/SectionTests.antt =====
-- A section of two pages that is created and mapped, and what is proved of the mapping.
use ntx_preview.Base.{ℕ, ◌≡◌, refl, true, false, none, some, arith, Option, Status, first_index}
use ntx_preview.Base.Text.{copy_text}
use ntx_preview.Ob.{
  Ob, cleared_entry, initialize, create_type, create_object, insert_handle, find_handle_entry,
  reference_by_handle, reference_entry, dereference, copy_name, free_slot, run_routine,
  delete_section,
}
use ntx_preview.Mm.{align_up, align_size_to_page, alloc_page}
use ntx_preview.Mm.Walk.{fresh_frame}
use ntx_preview.Mm.Fault.{find_section_by_header}
use ntx_preview.Mm.SectionHandles.{
  Store, section_name, create_section_handle, create_in_slot, fill_section, insert_section,
  map_section_handle, map_found,
}
use ntx_preview.Mm.SectionSizes.{Small, create_section_handle-Small}
use ntx_preview.Mm.SectionMapped.{Standing, map_section_handle-find_region}
use ntx_preview.Mm.SpaceTests.{empty_memory, empty_space, empty_space-IsLaidOut}

-- The object manager after `ObInitialize` and the registration of the type of sections.
abbrev objects : Ob
objects =
    (create_type (some section_name) (some delete_section) true
      (initialize (record {
        type_pool = λ i. record { type_id = 0; name = λ k. 0; delete_routine = none };
        object_pool = λ i. record {
          object_id = 0;
          type = none;
          ref_count = 0;
          flags = 0;
          default_access_mask = 0;
          signaled = false;
          name = λ k. 0;
        };
        type_in_use = λ i. false;
        object_in_use = λ i. false;
        entries = λ i. cleared_entry;
        next_handle = 0;
        next_object_id = 0;
        ready = false;
      })).1).2

-- No section has been created.
abbrev no_sections : Store
no_sections = record {
  sections = record {
    section_type = some 0;
    in_use = λ k. false;
    pool = λ k. record { header = none; page_count = 0; pages = λ i. 0 };
  };
  memory = empty_memory;
}

abbrev created : Status × Option ℕ × Store × Ob
created = create_section_handle 5000 3 true no_sections objects

-- The operations that the runs go through.
run : Unit {0}
unfolding initialize create_type create_object insert_handle find_handle_entry reference_by_handle
    reference_entry dereference copy_name copy_text first_index free_slot run_routine alloc_page
    align_size_to_page align_up create_section_handle create_in_slot fill_section insert_section
    map_section_handle map_found find_section_by_header fresh_frame
run = tt

created-success : created.1 ≡ some 4
unfolding run
created-success = refl

created_pages : ((created.2).sections.pool 0).page_count ≡ 2
unfolding run
created_pages = refl

-- The section is mapped for reading and writing.
mapped-base : (map_section_handle empty_space 4 3 true created.2 created.3).1 ≡ some 1073741824
unfolding run
mapped-base = refl

small : Small (created.2).sections
small = create_section_handle-Small 5000 3 true no_sections objects (λ i. omega arith)

map_section_handle-find_region_example :
    Standing empty_space created.2 1073741824
      (map_section_handle empty_space 4 3 true created.2 created.3).2
map_section_handle-find_region_example =
    map_section_handle-find_region empty_space 3 created.2 empty_space-IsLaidOut small (omega arith)
      4 1073741824 created.3 mapped-base
