-- ===== src/Mm/SectionSizes.antt =====
-- The sizes of section objects: MmCreateSectionHandle and the deletion of sections leave none of more
-- than 256 pages.
use ntx_preview.Base.{
  ℕ, zero, suc, ◌+◌, ◌≤◌, ◌/◌, ◌%◌, ◌^◌, arith, Bool, true, not, ◌||◌, ◌==◌, ◌!=◌, ltb, Option,
  none, some, inl, inr, Bool-cases, Option-cases, Status, succeeded, is_some, bit_or, update,
}
use ntx_preview.Ob.{
  Ob, Routine, create_object, delete_file, delete_section, delete_port, delete_process,
  delete_thread, dereference, run_routine, routine_of, release,
}
use ntx_preview.Mm.{Pages, page_size, align_size_to_page}
use ntx_preview.Mm.Walk.{fresh_frame}
use ntx_preview.Mm.Fault.{
  Sections, Section, delete_section_object, delete_found_section, find_section_by_header,
}
use ntx_preview.Mm.SectionHandles.{
  Store, max_section_pages, run_delete, set_section, fill_section, insert_section, create_in_slot,
  create_section_handle, give_up, section_name, section_access_map_read, section_access_map_write,
}

-- No section object has more than 256 pages.
abbrev pub Small : Sections → Type 0
Small sections = (i : ℕ) → (sections.pool i).page_count ≤ max_section_pages

delete_found_section-Small :
    (found : Option ℕ) (sections : Sections) (mm : Pages)
    → Small sections
    → Small (delete_found_section found sections mm).0
unfolding delete_found_section
delete_found_section-Small none sections mm s = s
delete_found_section-Small (some k) sections mm s = λ i. ground (arith, s i)

run_delete-Small :
    (r : Routine) (o : ℕ) (st : Store) → Small st.sections → Small (run_delete r o st).sections
unfolding run_delete delete_section_object
run_delete-Small delete_section o st s =
    delete_found_section-Small (find_section_by_header (some o) st.sections) st.sections
      st.memory.pages s
run_delete-Small delete_file o st s = s
run_delete-Small delete_port o st s = s
run_delete-Small delete_process o st s = s
run_delete-Small delete_thread o st s = s

set_section-Small :
    (i : ℕ) (section : Section) (st : Store)
    → Small st.sections
    → section.page_count ≤ max_section_pages
    → Small (set_section i section st).sections
set_section-Small i section st s b = λ j. ground (arith, s j)

fill_section-Small :
    (n index i : ℕ) (st : Store) → Small st.sections → Small (fill_section n index i st).1.sections
unfolding fill_section
fill_section-Small zero index i st s = s
fill_section-Small (suc n) index i st s = elim (Option-cases (fresh_frame (λ w. 0) st.memory).0) [
  | inl e ↦ rw (e, fill_section) s
  | inr (pa, e) ↦
      rw (e, fill_section)
        (fill_section-Small n (index + 1) i _ (
          set_section-Small i _ (record st { memory = (fresh_frame (λ w. 0) st.memory).1 }) s
            (s i)))
]

run_routine-Small :
    (o : ℕ) (ob : Ob) (st : Store)
    → Small st.sections
    → Small (run_routine run_delete o ob st).sections
unfolding run_routine
run_routine-Small o ob st s = elim (Option-cases (routine_of o ob)) [
  | inl e ↦ rw (e, run_routine) s
  | inr (r, e) ↦ rw (e, run_routine) (run_delete-Small r o st s)
]

give_up-Small :
    (o : ℕ) (st : Store) (ob : Ob) → Small st.sections → Small (give_up o st ob).0.sections
unfolding dereference
give_up-Small o st ob s = elim (Bool-cases (not ob.ready || (ob.object_pool o).ref_count == 0)) [
  | inl h ↦ rw h s
  | inr h ↦
      let less = record ob { object_pool = release o ob.object_pool } in
      elim (Bool-cases ((less.object_pool o).ref_count != 0)) [
        | inl c ↦ rw (h, c) s
        | inr c ↦ rw (h, c) (run_routine-Small o less st s)
      ]
]

insert_section-Small :
    (desired o : ℕ) (status : Status) (st : Store) (ob : Ob)
    → Small st.sections
    → Small (insert_section desired o (status, st) ob).2.sections
unfolding insert_section
insert_section-Small desired o status st ob s = elim (Bool-cases (not (succeeded status))) [
  | inl h ↦ rw h (give_up-Small o st ob s)
  | inr h ↦ rw h (give_up-Small o st _ s)
]

create_in_slot-Small :
    (count desired : ℕ) (slot : Option ℕ) (st : Store) (ob : Ob)
    → count ≤ max_section_pages
    → Small st.sections
    → Small (create_in_slot count desired slot st ob).2.sections
unfolding create_in_slot
create_in_slot-Small count desired none st ob b s = s
create_in_slot-Small count desired (some i) st ob b s =
    let made =
      create_object st.sections.section_type (some section_name)
        (bit_or section_access_map_read section_access_map_write) 0 true ob in
    elim (Option-cases made.1) [
      | inl e ↦ rw (e, create_in_slot) (set_section-Small i _ st s (omega arith))
      | inr (o, e) ↦
          let blank = set_section i (record { header = none; page_count = 0; pages = λ p. 0 }) st in
          let taken = record blank {
            sections = record blank.sections { in_use = update st.sections.in_use i true };
          } in
          let section : Section = record { header = some o; page_count = count; pages = λ p. 0 } in
          let filled = fill_section count 0 i (set_section i section taken) in
          let small =
            set_section-Small i section taken (set_section-Small i _ st s (omega arith)) b in
          rw (e, create_in_slot)
            (insert_section-Small desired o filled.0 filled.1 made.2
              (fill_section-Small count 0 i (set_section i section taken) small))
    ]

-- MmCreateSectionHandle, whether it succeeds or fails, leaves no section object of more than 256
-- pages, if there was none.
pub create_section_handle-Small :
    (size desired : ℕ) (out : Bool) (st : Store) (ob : Ob)
    → Small st.sections
    → Small (create_section_handle size desired out st ob).2.sections
unfolding create_section_handle
create_section_handle-Small size desired out st ob s =
    let count = align_size_to_page size / page_size % 2 ^ 32 in
    elim (Bool-cases
      (not st.memory.pages.ready || not out || not (is_some st.sections.section_type))) [
        | inl h ↦ rw h s
        | inr h ↦ elim (Bool-cases (count == 0 || ltb max_section_pages count)) [
          | inl c ↦ rw (h, c) s
          | inr c ↦ rw (h, c) (create_in_slot-Small count desired _ st ob (ground (arith, c)) s)
        ]
      ]
