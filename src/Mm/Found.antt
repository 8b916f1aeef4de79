-- ===== src/Mm/Found.antt =====
-- MmpFindRegion after MmMapAnonymous: the new region is found in its whole length, and every other
-- address is found where it was.
use ntx_preview.Base.{
  ℕ, ◌+◌, ◌%◌, ◌^◌, ◌<◌, ◌≡◌, ◌∙◌, sym, ap, refl, Bool, true, false, not, ◌&&◌, ◌||◌, arith, Option,
  none, some, inl, inr, Bool-cases, succeeded, Status, success, update, update_self, leb, ltb,
  if◌then◌else◌, first_index, Option-cases, first_index-some, first_index-grown_some,
  first_index-grown_none,
}
use native.Mathlib.Nat.{mod-eq_of_lt}
use ntx_preview.Mm.{page_size, align_up, align_size_to_page}
use ntx_preview.Mm.Walk.{Memory}
use ntx_preview.Mm.Space.{
  AddressSpace, VaRegion, max_va_regions, find_region, anonymous, append_region, map_committed,
  wire_region, map_region, map_anonymous,
}
use ntx_preview.Mm.Layout.{IsLaidOut, Fits, new_region, new_region-Fits, other, committed_region}

-- The test of MmpFindRegion.
abbrev covers : VaRegion → ℕ → Bool
covers region virtual =
    leb region.base virtual && ltb virtual ((region.base + region.size) % 2 ^ 64)

module _ (space : AddressSpace) (region : VaRegion) (virtual : ℕ) (l : IsLaidOut space)
    (f : Fits region space) where
  -- An address in one of the regions is below the new one.
  past : (k : ℕ) → find_region space virtual ≡ some k → covers region virtual ≡ false
  unfolding find_region
  past k e =
      let (b, t, _) =
        first_index-some (λ (j : ℕ). covers (space.regions j) virtual) space.region_count k e in
      let whole : ((space.regions k).base + (space.regions k).size) % 2 ^ 64
          ≡ (space.regions k).base + (space.regions k).size =
        mod-eq_of_lt {n = (space.regions k).base + (space.regions k).size} {m = 2 ^ 64}
          (omega (arith, l.within k b, l.top)) in
      ground (arith, t, whole, l.within k b, f.start)

  pub append_region-find_region :
      find_region (append_region region space) virtual
      ≡ (if covers region virtual then some space.region_count else find_region space virtual)
  unfolding find_region
  append_region-find_region =
      let p = λ (k : ℕ). covers (space.regions k) virtual in
      let q = λ (k : ℕ). covers (update space.regions space.region_count region k) virtual in
      let same : (k : ℕ) → k < space.region_count → q k ≡ p k =
        λ k b. ap (λ r. covers r virtual) (other space region l k b) in
      let last : q space.region_count ≡ covers region virtual =
        ap (λ r. covers r virtual) (update_self space.regions space.region_count region) in
      elim (Option-cases (first_index p space.region_count)) [
        | inl e ↦
            first_index-grown_none p q space.region_count same e
            ∙ ap (λ (b : Bool). if b then some space.region_count else none) last
            ∙ ap (λ (o : Option ℕ). if covers region virtual then some space.region_count else o)
                (sym e)
        | inr (k, e) ↦
            first_index-grown_some p q space.region_count same k e ∙ rw (past k e) (sym e)
      ]

-- What a region that was mapped with success means for the address space.
map_committed-success :
    (region : VaRegion) (space space' : AddressSpace) (r : Status × ℕ × Memory) (base : ℕ)
    (m' : Memory)
    → map_committed region space r ≡ (success, some base, space', m')
    → (committed : ℕ) × (base ≡ region.base)
      × (space' ≡ append_region (committed_region region committed) space)
unfolding map_committed
map_committed-success region space space' (status, committed, m) base m' ran =
    elim (Bool-cases (succeeded status)) [
      | inl h ↦
          let ok : map_committed region space (status, committed, m) ≡ (
            success,
            some region.base,
            append_region (committed_region region committed) space,
            m,
          ) =
            rw h refl in
          let at = ap (λ (r : Status × Option ℕ × AddressSpace × Memory). r.1) (sym ok ∙ ran) in
          let grown = ap (λ (r : Status × Option ℕ × AddressSpace × Memory). r.2) (sym ok ∙ ran) in
          (committed, cc at, sym grown)
      | inr h ↦
          let failed : (map_committed region space (status, committed, m)).1 ≡ none = rw h refl in
          let at = ap (λ (r : Status × Option ℕ × AddressSpace × Memory). r.1) ran in
          absurd (cc (failed, at))
    ]

module _ (space space' : AddressSpace) (size protection flags base : ℕ) (m m' : Memory) where
  mapped :
      map_anonymous space size protection flags true m ≡ (success, some base, space', m')
      → (committed : ℕ) × (base ≡ align_up space.next_user_base page_size)
        × (space.region_count < max_va_regions)
        × (space'
            ≡ append_region
                (committed_region
                  (anonymous space
                    (align_up space.next_user_base page_size)
                    (align_size_to_page size)
                    protection
                    flags)
                  committed)
                space)
  unfolding map_anonymous map_region
  mapped ran =
      let given = ap (λ (r : Status × Option ℕ × AddressSpace × Memory). r.1) ran in
      elim (Bool-cases (not m.pages.ready || not true)) [
        | inl h ↦
            let none_given : (map_anonymous space size protection flags true m).1 ≡ none =
              rw h refl in
            absurd (cc (none_given, given))
        | inr h ↦ elim (Bool-cases (leb max_va_regions space.region_count)) [
          | inl c ↦
              let none_given : (map_anonymous space size protection flags true m).1 ≡ none =
                rw (h, c) refl in
              absurd (cc (none_given, given))
          | inr c ↦
              let region =
                anonymous space (align_up space.next_user_base page_size) (align_size_to_page size)
                  protection flags in
              let made : map_anonymous space size protection flags true m
                  ≡ map_region region space m =
                rw (h, c) refl in
              let (committed, at, grown) =
                map_committed-success region space space' (wire_region region space m) base m'
                  (sym made ∙ ran) in
              (committed, at, ground (arith, c), grown)
        ]
      ]

  -- A region that MmMapAnonymous mapped with success, behind regions that stand one behind another
  -- and as far as the size fits in 2^64, starts where the next region had to. From then on
  -- MmpFindRegion finds it in its whole length, and every other address where it was found before.
  pub map_anonymous-find_region :
      IsLaidOut space
      → space.next_user_base + size + 8192 < 2 ^ 64
      → map_anonymous space size protection flags true m ≡ (success, some base, space', m')
      → (base ≡ space.next_user_base)
        × ((virtual : ℕ)
            → find_region space' virtual ≡ (
                if leb base virtual && ltb virtual (base + align_size_to_page size)
                then some space.region_count
                else find_region space virtual))
  map_anonymous-find_region l fit ran =
      let (committed, at, room, grown) = mapped ran in
      let f = new_region-Fits space size protection flags l fit in
      let g = committed_region (new_region space size protection flags l fit) committed in
      let fits : Fits g space = record {
        start = f.start;
        size_whole = f.size_whole;
        end = f.end;
      } in
      (
        at ∙ f.start,
        λ v.
            ap (λ (x : AddressSpace). find_region x v) grown
            ∙ append_region-find_region space g v l fits
            ∙ ground (arith, at, mod-eq_of_lt {n = g.base + g.size} {m = 2 ^ 64} fits.end),
      )
