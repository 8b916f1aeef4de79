-- ===== src/Mm/Mapped.antt =====
-- MmAsMapPage, MmAsQueryPte and MmAsUnmapPage at one virtual address: what was mapped is what is
-- found, until it is taken away.
use ntx_preview.Base.{
  ℕ, ◌%◌, ◌≡◌, ◌≢◌, ◌∙◌, sym, ap, subst, refl, Bool, true, false, ◌&&◌, arith, some, inl, inr,
  Bool-cases, ◌==◌, Status, success, invalid_parameter, update-ne,
}
use ntx_preview.Mm.{page_size, release_page, Pages, set_page_free}
use ntx_preview.Mm.Alloc.{IsSane}
use ntx_preview.Mm.Walk.{
  Memory, Walked, reached, stopped, frame, has, pte_present, leaf_index, walk_to_pte, upper_indexes,
  is_canonical_address, descend,
}
use ntx_preview.Mm.Pte.{page_entry, release_entry, map_at, as_map_page}
use ntx_preview.Mm.Tables.{IsTree, IsAllocated}
use ntx_preview.Mm.Descent.{Reaches, descend-Reaches}

-- The tables below the root of an address space, along the way to a virtual address, are allocated
-- and distinct.
abbrev pub IsMappable : ℕ → ℕ → Memory → Type 0
IsMappable root virtual m = IsTree (upper_indexes virtual) (λ x. ⊥) (frame root) m

pub release_page-ready : (physical : ℕ) (mm : Pages) → (release_page physical mm).ready ≡ mm.ready
unfolding release_page set_page_free
release_page-ready physical mm = ground arith

release_entry-ready : (entry : ℕ) (m : Memory) → (release_entry entry m).pages.ready ≡ m.pages.ready
release_entry-ready entry m = elim (Bool-cases (has entry pte_present)) [
  | inl h ↦ rw h (release_page-ready (frame entry) m.pages)
  | inr h ↦ rw h refl
]

release_entry-words : (entry : ℕ) (m : Memory) → (release_entry entry m).words ≡ m.words
release_entry-words entry m = ground arith

-- The table that a successful MmAsMapPage wrote to, and what it wrote.
pub record IsMapped (root virtual entry : ℕ) (m' : Memory) : Type 0 where
  pub leaf : ℕ
  pub ready : m'.pages.ready ≡ true
  pub aligned : virtual % page_size ≡ 0
  pub canonical : is_canonical_address virtual ≡ true
  pub written : m'.words leaf (leaf_index virtual) ≡ entry
  pub found :
      (m'' : Memory)
      → ((x : ℕ) → x ≢ leaf → m''.words x ≡ m'.words x)
      → walk_to_pte (some root) virtual false m'' ≡ reached leaf m''

module _ (root virtual physical flags : ℕ) where
  walk-canonical :
      (create : Bool) (m : Memory)
      → is_canonical_address virtual ≡ true
      → walk_to_pte (some root) virtual create m
        ≡ descend create virtual (upper_indexes virtual) (frame root) m
  unfolding walk_to_pte
  walk-canonical create m ca = rw ca refl

  -- The page is mapped, and the frames of `seen` are as they were.
  abbrev IsMappedBeside : (ℕ → Type 0) → Memory → Memory → Type 0
  IsMappedBeside seen m m' =
      IsMapped root virtual (page_entry physical flags) m'
      × ((x : ℕ) → seen x → m'.words x ≡ m.words x)

  -- What MmAsMapPage and the walk test of their arguments.
  abbrev is_accepted : Memory → Bool
  is_accepted m =
      m.pages.ready
      && virtual % page_size == 0
      && physical % page_size == 0
      && is_canonical_address virtual

  accepted :
      (m : Memory)
      → is_accepted m ≡ true
      → as_map_page (some root) virtual physical flags m
        ≡ map_at virtual physical flags (walk_to_pte (some root) virtual true m)
  unfolding as_map_page
  accepted m h = ground (arith, h)

  refused :
      (m : Memory)
      → is_accepted m ≡ false
      → as_map_page (some root) virtual physical flags m ≡ (invalid_parameter, m)
  unfolding as_map_page walk_to_pte map_at
  refused m h = ground (arith, h)

  map_at-IsMapped :
      (seen : ℕ → Type 0) (m m' : Memory) (w : Walked)
      → virtual % page_size ≡ 0
      → is_canonical_address virtual ≡ true
      → Reaches virtual (upper_indexes virtual) (frame root) seen m w
      → map_at virtual physical flags w ≡ (success, m')
      → IsMappedBeside seen m m'
  unfolding map_at
  map_at-IsMapped seen m m' (stopped status m1) al ca r ran =
      absurd (r (ap (λ (c : Status × Memory). c.0) ran))
  map_at-IsMapped seen m m' (reached leaf m1) al ca r ran =
      let i = leaf_index virtual in
      let entry = page_entry physical flags in
      let over = release_entry (m1.words leaf i) m1 in
      let same : over.words ≡ m1.words = release_entry-words (m1.words leaf i) m1 in
      subst (λ (x : Memory). IsMappedBeside seen m x) (ap (λ (c : Status × Memory). c.1) ran)
        (
          record {
            leaf = leaf;
            ready = release_entry-ready (m1.words leaf i) m1 ∙ r.sane.on;
            aligned = al;
            canonical = ca;
            written = ground arith;
            found = λ m2 h.
                walk-canonical false m2 ca
                ∙ r.again m2 (λ x n.
                  h x n
                  ∙ update-ne over.words leaf x _ (λ e. n (sym e))
                  ∙ ap (λ (f : ℕ → ℕ → ℕ). f x) same);
          },
          λ x h.
              update-ne over.words leaf x _ (λ e. r.apart x h (sym e))
              ∙ ap (λ (f : ℕ → ℕ → ℕ). f x) same
              ∙ r.keeps x h,
        )

  pub as_map_page-IsMapped :
      (seen : ℕ → Type 0) (m m' : Memory)
      → IsSane m.pages
      → ((x : ℕ) → seen x → IsAllocated x m)
      → IsTree (upper_indexes virtual) seen (frame root) m
      → as_map_page (some root) virtual physical flags m ≡ (success, m')
      → IsMappedBeside seen m m'
  unfolding as_map_page
  as_map_page-IsMapped seen m m' s own tree ran = elim (Bool-cases (is_accepted m)) [
    | inl h ↦
        let ca : is_canonical_address virtual ≡ true = ground (arith, h) in
        let walked = walk-canonical true m ca in
        map_at-IsMapped seen m m' (descend true virtual (upper_indexes virtual) (frame root) m)
          (ground (arith, h)) ca
          (descend-Reaches virtual (upper_indexes virtual) (frame root) seen m s own tree)
          (ap (map_at virtual physical flags) (sym walked) ∙ sym (accepted m h) ∙ ran)
    | inr h ↦ absurd (cc (refused m h, ran))
  ]
