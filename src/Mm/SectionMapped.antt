-- ===== src/Mm/SectionMapped.antt =====
-- MmMapSectionHandle and the regions: where the section stands, that MmpFindRegion finds it there,
-- and that the region leads back to the section.
use ntx_preview.Base.{
  ℕ, ◌+◌, ◌*◌, ◌^◌, ◌<◌, ◌≡◌, ◌∙◌, sym, ap, subst, refl, Bool, true, not, ◌&&◌, ◌||◌, arith, Option,
  none, some, inl, inr, Bool-cases, Status, is_some, bit_or, leb, ltb, if◌then◌else◌, Option-cases,
  update_self,
}
use native.Mathlib.Nat.{mod-eq_of_lt}
use ntx_preview.Ob.{Ob, reference_by_handle, kernel_handle_table}
use ntx_preview.Mm.{page_size}
use ntx_preview.Mm.Align.{align_up-page}
use ntx_preview.Mm.Walk.{has}
use ntx_preview.Mm.Space.{
  AddressSpace, VaRegion, max_va_regions, find_region, append_region, prot_write,
}
use ntx_preview.Mm.Fault.{find_section_by_header}
use ntx_preview.Mm.Layout.{IsLaidOut, Fits, append_region-IsLaidOut}
use ntx_preview.Mm.SectionSizes.{Small}
use ntx_preview.Mm.Found.{append_region-find_region}
use ntx_preview.Mm.SectionHandles.{
  Store, section_region, map_object, map_found, map_section_handle, section_access_map_read,
  section_access_map_write,
}

-- The results of the two calls.
abbrev Result : Type 0
Result = Status × Option ℕ × AddressSpace × Store × Ob

module _ (space : AddressSpace) (protection : ℕ) (st : Store) where
  -- The region of a section is mapped behind the others.
  Mapped : Result → Type 0
  Mapped (status, base, space', st', ob') =
      (o : ℕ) × (i : ℕ) × (find_section_by_header (some o) st.sections ≡ some i)
      × (base ≡ some (section_region space o protection (st.sections.pool i)).base)
      × (space' ≡ append_region (section_region space o protection (st.sections.pool i)) space)

  found-Mapped :
      (o : ℕ) (ob : Ob) (base : ℕ) (found : Option ℕ)
      → find_section_by_header (some o) st.sections ≡ found
      → (map_found space o protection st ob found).1 ≡ some base
      → Mapped (map_found space o protection st ob found)
  unfolding map_found Mapped
  found-Mapped o ob base none e given = absurd (cc given)
  found-Mapped o ob base (some i) e given = (o, i, e, refl, refl)

  handle-Mapped :
      (handle : ℕ) (out : Bool) (ob : Ob) (base : ℕ)
      → (map_section_handle space handle protection out st ob).1 ≡ some base
      → (space.region_count < max_va_regions)
        × Mapped (map_section_handle space handle protection out st ob)
  unfolding map_section_handle
  handle-Mapped handle out ob base given =
      let desired =
        if has protection prot_write
        then bit_or section_access_map_read section_access_map_write
        else section_access_map_read in
      let got =
        reference_by_handle (kernel_handle_table ob) handle desired st.sections.section_type true
          ob in
      elim (Bool-cases
        (not st.memory.pages.ready || not out || not (is_some st.sections.section_type))) [
          | inl h ↦
              let nothing : (map_section_handle space handle protection out st ob).1 ≡ none =
                rw h refl in
              absurd (cc (nothing, given))
          | inr h ↦ elim (Bool-cases (leb max_va_regions space.region_count)) [
            | inl c ↦
                let nothing : (map_section_handle space handle protection out st ob).1 ≡ none =
                  rw (h, c) refl in
                absurd (cc (nothing, given))
            | inr c ↦ elim (Option-cases got.1) [
              | inl e ↦
                  let nothing : (map_section_handle space handle protection out st ob).1 ≡ none =
                    rw (h, c, e) refl in
                  absurd (cc (nothing, given))
              | inr (o, e) ↦
                  let made : map_section_handle space handle protection out st ob
                      ≡ map_object space o protection st got.2 =
                    rw (h, c, e) refl in
                  (
                    ground (arith, c),
                    subst Mapped (sym made) (
                        found-Mapped o got.2 base _ refl
                          (ap (λ (r : Result). r.1) (sym made) ∙ given)),
                  )
            ]
          ]
        ]

-- What the mapping at `base` of one of the sections of `st` makes of the address space.
abbrev pub Standing : AddressSpace → Store → ℕ → AddressSpace → Type 0
Standing space st base space' =
    let region : VaRegion = space'.regions space.region_count in
    (base ≡ space.next_user_base)
    × IsLaidOut space'
    × ((i : ℕ) × (find_section_by_header region.backing_object st.sections ≡ some i)
        × (region.size ≡ (st.sections.pool i).page_count * page_size))
    × ((virtual : ℕ)
        → find_region space' virtual ≡ (
            if leb base virtual && ltb virtual (base + region.size)
            then some space.region_count
            else find_region space virtual))

module _ (space : AddressSpace) (protection : ℕ) (st : Store) (l : IsLaidOut space)
    (small : Small st.sections) (room : space.next_user_base + 1052672 < 2 ^ 64) where
  section_region-Fits :
      (o i : ℕ) → Fits (section_region space o protection (st.sections.pool i)) space
  section_region-Fits o i =
      let at = align_up-page space.next_user_base (omega arith) in
      record {
        start = omega (arith, at, l.whole);
        size_whole = omega arith;
        end = omega (arith, at, l.whole, small i);
      }

  -- A section that MmMapSectionHandle gives an address for, where no section has more than 256
  -- pages, the regions stand one behind another and the next one starts more than 257 pages below
  -- 2^64, starts where the next region had to, and the regions still stand one behind another. The new region names a section that
  -- MmpFindSectionByHeader finds and is as long as its pages; MmpFindRegion finds it in this length,
  -- and every other address where it was found before.
  pub map_section_handle-find_region :
      (handle base : ℕ) (ob : Ob)
      → (map_section_handle space handle protection true st ob).1 ≡ some base
      → Standing space st base (map_section_handle space handle protection true st ob).2
  unfolding Mapped
  map_section_handle-find_region handle base ob given =
      let (c, m) = handle-Mapped space protection st handle true ob base given in
      let (o, i, found, at, grown) = m in
      let region = section_region space o protection (st.sections.pool i) in
      let f = section_region-Fits o i in
      let start : base ≡ region.base = cc (at, given) in
      let last = update_self space.regions space.region_count region in
      let whole = mod-eq_of_lt {n = region.base + region.size} {m = 2 ^ 64} f.end in
      subst (λ (space' : AddressSpace). Standing space st base space') (sym grown)
        (
          start ∙ f.start,
          append_region-IsLaidOut space region l c f,
          (
            i,
            ap (λ (r : VaRegion). find_section_by_header r.backing_object st.sections) last ∙ found,
            ap (λ (r : VaRegion). r.size) last,
          ),
          λ v. append_region-find_region space region v l f ∙ ground (arith, start, whole, last),
        )
