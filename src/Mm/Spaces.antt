-- ===== src/Mm/Spaces.antt =====
-- MmCreateAddressSpace and MmGetAddressSpaceById: address spaces are found by the numbers that they
-- were given, and start with the kernel's root table.
use ntx_preview.Base.{
  ℕ, ◌+◌, ◌*◌, ◌%◌, ◌^◌, ◌<◌, ◌≡◌, ◌≢◌, ◌∙◌, sym, ap, subst, refl, Bool, true, false, not, ◌&&◌,
  ◌||◌, arith, Option, none, some, inl, inr, Option-cases, Status, success, ◌==◌, if◌then◌else◌,
  init_failed, first_index-some, first_index-eq, first_index, fun_ext, update,
}
use native.Mathlib.Nat.{mod-eq_of_lt}
use ntx_preview.Mm.{is_page_allocated, page_size}
use ntx_preview.Mm.Alloc.{IsSane, taken-IsSane}
use ntx_preview.Mm.Walk.{Memory, frame, fresh_frame}
use ntx_preview.Mm.Tables.{placed, fresh_frame-cases}
use ntx_preview.Mm.Space.{
  Spaces, max_address_spaces, create_at, create_address_space, get_address_space_by_id, new_space,
}

-- The address spaces in use have different numbers, from 1 on and below the next one.
pub record IsNumbered (st : Spaces) : Type 0 where
  pub next : 0 < st.next_address_space_id
  pub given :
      (k : ℕ)
      → k < max_address_spaces
      → st.in_use k ≡ true
      → ((st.pool k).address_space_id < st.next_address_space_id)
        × (0 < (st.pool k).address_space_id)
  pub distinct :
      (j k : ℕ)
      → j < max_address_spaces
      → k < max_address_spaces
      → st.in_use j ≡ true
      → st.in_use k ≡ true
      → (st.pool j).address_space_id ≡ (st.pool k).address_space_id
      → j ≡ k

-- The state after a slot was given away.
abbrev created : ℕ → ℕ → ℕ → Memory → Spaces → Spaces
created owner k root m st = record st {
  memory = m;
  in_use = update st.in_use k true;
  pool = update st.pool k (new_space owner root st (st.pool k));
  next_address_space_id = (st.next_address_space_id + 1) % 2 ^ 64;
}

abbrev kernel_words : Spaces → ℕ → ℕ
kernel_words st = st.memory.words (frame st.kernel_root_table_physical)

module _ (owner : ℕ) (st : Spaces) where
  -- MmCreateAddressSpace with success took a free slot and a free frame.
  create-success :
      (k : ℕ) (st' : Spaces)
      → IsSane st.memory.pages
      → create_address_space owner true st ≡ (success, some k, st')
      → (p : ℕ) × (k < max_address_spaces)
        × (st.in_use k ≡ false)
        × (is_page_allocated p st.memory.pages ≡ false)
        × (st' ≡ created owner k (p * 4096) (placed p (kernel_words st) st.memory) st)
  unfolding create_address_space create_at
  create-success k st' s ran =
      elim (Option-cases (first_index (λ j. not (st.in_use j)) max_address_spaces)) [
        | inl e ↦
            let failed : (create_address_space owner true st).0 ≡ init_failed = rw (s.on, e) refl in
            absurd (cc (failed, ap (λ (r : Status × Option ℕ × Spaces). r.0) ran))
        | inr (j, e) ↦
            let went : create_address_space owner true st
                ≡ create_at owner j (fresh_frame (kernel_words st) st.memory) st =
              let test : (not st.memory.pages.ready || not true) ≡ false = ground (arith, s.on) in
              rw (test, e) refl in
            let (b, free, _) = first_index-some _ max_address_spaces j e in
            elim (fresh_frame-cases (kernel_words st) st.memory s) [
              | inl f ↦
                  let got =
                    sym (went ∙ ap (λ (r : Option ℕ × Memory). create_at owner j r st) f) ∙ ran in
                  absurd (cc (ap (λ (r : Status × Option ℕ × Spaces). r.0) got))
              | inr (p, l, idle, f) ↦
                  let got =
                    sym (went ∙ ap (λ (r : Option ℕ × Memory). create_at owner j r st) f) ∙ ran in
                  let at : j ≡ k = cc (ap (λ (r : Status × Option ℕ × Spaces). r.1) got) in
                  let now = ap (λ (r : Status × Option ℕ × Spaces). r.2) got in
                  subst
                    (λ (i : ℕ).
                      (p : ℕ) × (i < max_address_spaces)
                      × (st.in_use i ≡ false)
                      × (is_page_allocated p st.memory.pages ≡ false)
                      × (st'
                          ≡ created owner i (p * 4096) (placed p (kernel_words st) st.memory) st))
                    at (p, b, ground (arith, free), idle, sym now)
            ]
      ]

  module _ (k root : ℕ) (m : Memory) (n : IsNumbered st) (on : m.pages.ready ≡ true)
      (b : k < max_address_spaces) (free : st.in_use k ≡ false)
      (room : st.next_address_space_id + 1 < 2 ^ 64) where
    created-IsNumbered : IsNumbered (created owner k root m st)
    created-IsNumbered =
        let e = mod-eq_of_lt {n = st.next_address_space_id + 1} {m = 2 ^ 64} room in
        record {
          next = omega (arith, e);
          given = λ j l u. ground (arith, e, n.given j l, n.next);
          distinct = λ i j li lj ui uj same.
              ground (arith, n.given i li, n.given j lj, n.distinct i j li lj);
        }

    created-found :
        st.memory.pages.ready ≡ true
        → get_address_space_by_id st.next_address_space_id (created owner k root m st) ≡ some k
    unfolding get_address_space_by_id
    created-found was =
        let test : (not m.pages.ready || st.next_address_space_id == 0) ≡ false =
          ground (arith, on, n.next) in
        rw test (
          first_index-eq _ max_address_spaces k (b, ground arith, λ j l. ground (arith, n.given j)))

    created-others :
        (id : ℕ)
        → st.memory.pages.ready ≡ true
        → id ≢ st.next_address_space_id
        → get_address_space_by_id id (created owner k root m st) ≡ get_address_space_by_id id st
    unfolding get_address_space_by_id
    created-others id was ne =
        let same : (j : ℕ)
            → (update st.in_use k true j
                && (update st.pool k (new_space owner root st (st.pool k)) j).address_space_id
                  == id)
              ≡ (st.in_use j && (st.pool j).address_space_id == id) =
          λ j. ground (arith, free, ne) in
        rw (on, was)
          (ap (λ (f : ℕ → Bool). if id == 0 then none else first_index f max_address_spaces)
            (fun_ext same))

-- A MmCreateAddressSpace that succeeds, while the numbers of the address spaces in use are different
-- and below the next one, which stays below 2^64, takes a slot that was free: MmGetAddressSpaceById
-- finds it under the number that was next, and every other number where it was before, and the
-- numbers stay different. The root table is a frame that was free, with the kernel's entries.
pub create_address_space-get_address_space_by_id :
    (owner k : ℕ) (st st' : Spaces)
    → IsSane st.memory.pages
    → IsNumbered st
    → st.next_address_space_id + 1 < 2 ^ 64
    → create_address_space owner true st ≡ (success, some k, st')
    → (get_address_space_by_id st.next_address_space_id st' ≡ some k)
      × ((id : ℕ)
          → id ≢ st.next_address_space_id
          → get_address_space_by_id id st' ≡ get_address_space_by_id id st)
      × (st.in_use k ≡ false)
      × IsNumbered st'
      × ((p : ℕ) × (is_page_allocated p st.memory.pages ≡ false)
          × ((st'.pool k).root_table_physical ≡ p * page_size)
          × ((i : ℕ)
              → st'.memory.words (p * page_size) i
                ≡ st.memory.words (frame st.kernel_root_table_physical) i))
create_address_space-get_address_space_by_id owner k st st' s n room ran =
    let (p, b, free, idle, now) = create-success owner st k st' s ran in
    let m = placed p (kernel_words st) st.memory in
    let on : m.pages.ready ≡ true = (taken-IsSane p st.memory.pages s).on in
    rw now (
      created-found owner st k (p * 4096) m n on b free room s.on,
      λ id ne. created-others owner st k (p * 4096) m n on b free room id s.on ne,
      free,
      created-IsNumbered owner st k (p * 4096) m n on b free room,
      (p, idle, ground arith, λ i. ground arith),
    )
