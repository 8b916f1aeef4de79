-- ===== src/Mm/Layout.antt =====
-- The regions of an address space: MmMapAnonymous lays them out one behind the other, and
-- MmpFindRegion finds each.
use ntx_preview.Base.{
  ℕ, ◌+◌, ◌%◌, ◌^◌, ◌≤◌, ◌<◌, ◌≡◌, Bool, not, ◌||◌, arith, inl, inr, Bool-cases, succeeded, Status,
  update, update-ne, leb,
}
use native.Mathlib.Nat.{mod-eq_of_lt}
use ntx_preview.Mm.{page_size, align_up, align_size_to_page}
use ntx_preview.Mm.Align.{align_up-page}
use ntx_preview.Mm.Walk.{Memory, user_base}
use ntx_preview.Mm.Space.{
  AddressSpace, VaRegion, max_va_regions, anonymous, append_region, write_region, map_committed,
  map_region, map_anonymous,
}

-- The regions stand in whole pages, one behind the other, between the user base and where the next
-- region will start.
pub record IsLaidOut (space : AddressSpace) : Type 0 where
  pub count : space.region_count ≤ max_va_regions
  pub low : user_base ≤ space.next_user_base
  pub top : space.next_user_base < 2 ^ 64
  pub whole : space.next_user_base % page_size ≡ 0
  pub base_low : (k : ℕ) → k < space.region_count → user_base ≤ (space.regions k).base
  pub base_whole : (k : ℕ) → k < space.region_count → (space.regions k).base % page_size ≡ 0
  pub within :
      (k : ℕ)
      → k < space.region_count
      → (space.regions k).base + (space.regions k).size ≤ space.next_user_base
  pub disjoint :
      (j k : ℕ)
      → j < k
      → k < space.region_count
      → (space.regions j).base + (space.regions j).size ≤ (space.regions k).base

-- A region of whole pages that starts where the next one has to.
pub record Fits (region : VaRegion) (space : AddressSpace) : Type 0 where
  pub start : region.base ≡ space.next_user_base
  pub size_whole : region.size % page_size ≡ 0
  pub end : region.base + region.size < 2 ^ 64

module _ (space : AddressSpace) (region : VaRegion) (l : IsLaidOut space) where
  pub other :
      (k : ℕ)
      → k < space.region_count
      → update space.regions space.region_count region k ≡ space.regions k
  other k b = update-ne space.regions space.region_count k region (λ e. absurd (omega (arith, e)))

  -- A region that is written behind those that count leaves the layout as it is.
  write_region-IsLaidOut : IsLaidOut (write_region space.region_count region space)
  write_region-IsLaidOut = record {
    count = l.count;
    low = l.low;
    top = l.top;
    whole = l.whole;
    base_low = λ k b. ground (arith, l.base_low k b);
    base_whole = λ k b. ground (arith, l.base_whole k b);
    within = λ k b. ground (arith, l.within k b);
    disjoint = λ j k h b. ground (arith, l.disjoint j k h b);
  }

  pub append_region-IsLaidOut :
      space.region_count < max_va_regions
      → Fits region space
      → IsLaidOut (append_region region space)
  append_region-IsLaidOut c f =
      let e : (region.base + region.size) % 2 ^ 64 ≡ region.base + region.size =
        mod-eq_of_lt {n = region.base + region.size} {m = 2 ^ 64} f.end in
      record {
        count = omega arith;
        low = omega (arith, e, f.start, l.low);
        top = omega (arith, e, f.end);
        whole = omega (arith, e, f.start, f.size_whole, l.whole);
        base_low = λ k b. ground (arith, l.base_low k, l.low, f.start);
        base_whole = λ k b. ground (arith, l.base_whole k, l.whole, f.start);
        within = λ k b. ground (arith, l.within k, f.start, e);
        disjoint = λ j k h b. ground (arith, l.disjoint j k h, l.within j, f.start);
      }

-- The pages that a wired region got do not matter to where it stands.
abbrev pub committed_region : VaRegion → ℕ → VaRegion
committed_region region committed = record region { committed_pages = committed }

map_committed-IsLaidOut :
    (region : VaRegion) (space : AddressSpace) (r : Status × ℕ × Memory)
    → IsLaidOut space
    → space.region_count < max_va_regions
    → Fits region space
    → IsLaidOut (map_committed region space r).2
unfolding map_committed
map_committed-IsLaidOut region space (status, committed, m) l c f =
    elim (Bool-cases (succeeded status)) [
      | inl h ↦ rw h (
          append_region-IsLaidOut space (committed_region region committed) l c
            record { start = f.start; size_whole = f.size_whole; end = f.end })
      | inr h ↦ rw h (write_region-IsLaidOut space (committed_region region committed) l)
    ]

module _ (space : AddressSpace) (size protection flags : ℕ) (l : IsLaidOut space)
    (fit : space.next_user_base + size + 8192 < 2 ^ 64) where
  abbrev pub new_region : VaRegion
  new_region =
      anonymous space (align_up space.next_user_base page_size) (align_size_to_page size) protection
        flags

  pub new_region-Fits : Fits new_region space
  unfolding align_size_to_page
  new_region-Fits =
      let at = align_up-page space.next_user_base (omega arith) in
      record {
        start = omega (arith, at, l.whole);
        size_whole = ground (arith, align_up-page size (omega arith));
        end = ground (arith, at, l.whole, align_up-page size (omega arith));
      }

  -- MmMapAnonymous, whether it succeeds or fails, keeps the regions in whole pages, behind one
  -- another, below where the next one starts, and at most 128, as long as the size fits in 2^64
  -- behind them.
  pub map_anonymous-IsLaidOut :
      (out : Bool) (m : Memory) → IsLaidOut (map_anonymous space size protection flags out m).2
  unfolding map_anonymous map_region
  map_anonymous-IsLaidOut out m = elim (Bool-cases (not m.pages.ready || not out)) [
    | inl h ↦ rw h l
    | inr h ↦ elim (Bool-cases (leb max_va_regions space.region_count)) [
      | inl c ↦ rw (h, c) l
      | inr c ↦
          rw (h, c)
            (map_committed-IsLaidOut new_region space _ l (ground (arith, c)) new_region-Fits)
    ]
  ]
