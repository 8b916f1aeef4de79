-- ===== src/Mm/Mapping.antt =====
-- The round trips over one virtual address: MmAsQueryPte, MmAsProtectPage and MmAsUnmapPage after
-- MmAsMapPage.
use ntx_preview.Base.{
  ℕ, bit_or, ◌≡◌, ◌∙◌, sym, ap, refl, true, false, arith, some, success, not_found, update-ne,
}
use ntx_preview.Mm.{release_page, Pages}
use ntx_preview.Base.Bits.{bit}
use ntx_preview.Mm.Alloc.{IsSane}
use ntx_preview.Mm.Walk.{Memory, frame, has, pte_present, write_word, leaf_index, walk_to_pte}
use ntx_preview.Mm.Pte.{
  protect_at, as_protect_page, page_entry, as_map_page, unmap_at, as_unmap_page, query_at,
  as_query_pte,
}
use ntx_preview.Mm.Entry.{has-bit_or_set, frame-bit_or, frame-frame}
use ntx_preview.Mm.Mapped.{IsMapped, IsMappable, as_map_page-IsMapped, release_page-ready}

page_entry-present : (physical flags : ℕ) → has (page_entry physical flags) pte_present ≡ true
unfolding bit
page_entry-present physical flags =
    has-bit_or_set (bit_or (frame physical) flags) pte_present 0 refl

-- Flags outside the address bits leave an entry with the frame that it was made for.
frame-page_entry :
    (physical flags : ℕ) → frame flags ≡ 0 → frame (page_entry physical flags) ≡ frame physical
frame-page_entry physical flags z =
    frame-bit_or (bit_or (frame physical) flags) pte_present refl
    ∙ frame-bit_or (frame physical) flags z
    ∙ frame-frame physical

module _ (root virtual entry : ℕ) (m : Memory) (k : IsMapped root virtual entry m) where
  pub IsMapped-as_query_pte : as_query_pte (some root) virtual true m ≡ (success, some entry)
  unfolding as_query_pte query_at
  IsMapped-as_query_pte =
      let asked : as_query_pte (some root) virtual true m
          ≡ query_at virtual (walk_to_pte (some root) virtual false m) =
        ground (arith, k.ready, k.aligned) in
      asked
      ∙ ap (query_at virtual) (k.found m (λ x n. refl))
      ∙ ap (λ (e : ℕ). (success, some e)) k.written

  -- The entry there is replaced, and the pages with it.
  abbrev replaced : ℕ → Pages → Memory
  replaced e pages = write_word k.leaf (leaf_index virtual) e (record m { pages = pages })

  replaced-IsMapped :
      (e : ℕ) (pages : Pages) → pages.ready ≡ true → IsMapped root virtual e (replaced e pages)
  replaced-IsMapped e pages on = record {
    leaf = k.leaf;
    ready = on;
    aligned = k.aligned;
    canonical = k.canonical;
    written = ground arith;
    found = λ m' h. k.found m' (λ x n. h x n ∙ update-ne m.words k.leaf x _ (λ q. n (sym q)));
  }

  IsMapped-as_protect_page :
      (flags : ℕ)
      → has entry pte_present ≡ true
      → as_protect_page (some root) virtual flags m
        ≡ (success, replaced (page_entry entry flags) m.pages)
  unfolding as_protect_page protect_at
  IsMapped-as_protect_page flags p =
      let asked : as_protect_page (some root) virtual flags m
          ≡ protect_at virtual flags (walk_to_pte (some root) virtual false m) =
        ground (arith, k.ready, k.aligned) in
      asked ∙ ap (protect_at virtual flags) (k.found m (λ x n. refl)) ∙ rw (k.written, p) refl

  IsMapped-as_unmap_page :
      has entry pte_present ≡ true
      → as_unmap_page (some root) virtual m
        ≡ (success, replaced 0 (release_page (frame entry) m.pages))
  unfolding as_unmap_page unmap_at
  IsMapped-as_unmap_page p =
      let asked : as_unmap_page (some root) virtual m
          ≡ unmap_at virtual (walk_to_pte (some root) virtual false m) =
        ground (arith, k.ready, k.aligned) in
      asked ∙ ap (unmap_at virtual) (k.found m (λ x n. refl)) ∙ rw (k.written, p) refl

  IsMapped-as_unmap_page_absent :
      has entry pte_present ≡ false → as_unmap_page (some root) virtual m ≡ (not_found, m)
  unfolding as_unmap_page unmap_at
  IsMapped-as_unmap_page_absent p =
      let asked : as_unmap_page (some root) virtual m
          ≡ unmap_at virtual (walk_to_pte (some root) virtual false m) =
        ground (arith, k.ready, k.aligned) in
      asked ∙ ap (unmap_at virtual) (k.found m (λ x n. refl)) ∙ ground (arith, k.written, p)

module _ (root virtual physical flags : ℕ) (m m' : Memory) (s : IsSane m.pages)
    (tree : IsMappable root virtual m)
    (ran : as_map_page (some root) virtual physical flags m ≡ (success, m')) where
  mapped : IsMapped root virtual (page_entry physical flags) m'
  mapped =
      (as_map_page-IsMapped root virtual physical flags (λ x. ⊥) m m' s (λ x e. absurd e) tree
        ran).0

  -- A page that MmAsMapPage mapped with success, over page tables that are allocated and distinct,
  -- is what MmAsQueryPte finds at the address: the frame, the flags and the present bit.
  pub as_map_page-as_query_pte :
      as_query_pte (some root) virtual true m'
      ≡ (success, some (bit_or (bit_or (frame physical) flags) pte_present))
  as_map_page-as_query_pte =
      IsMapped-as_query_pte root virtual (page_entry physical flags) m' (mapped)

  -- After such a MmAsMapPage with flags outside the address bits, MmAsUnmapPage succeeds and
  -- releases the page that was mapped; then MmAsQueryPte finds an empty entry, and a second
  -- MmAsUnmapPage is told that nothing is there and changes nothing.
  pub as_map_page-as_unmap_page :
      frame flags ≡ 0
      → (m'' : Memory) × (as_unmap_page (some root) virtual m' ≡ (success, m''))
        × (m''.pages ≡ release_page (frame physical) m'.pages)
        × (as_query_pte (some root) virtual true m'' ≡ (success, some 0))
        × (as_unmap_page (some root) virtual m'' ≡ (not_found, m''))
  as_map_page-as_unmap_page z =
      let entry = page_entry physical flags in
      let k = mapped in
      let released = release_page (frame entry) m'.pages in
      let k' =
        replaced-IsMapped root virtual entry m' k 0 released
          (release_page-ready (frame entry) m'.pages ∙ k.ready) in
      (
        replaced root virtual entry m' k 0 released,
        IsMapped-as_unmap_page root virtual entry m' k (page_entry-present physical flags),
        ap (λ (p : ℕ). release_page p m'.pages) (frame-page_entry physical flags z),
        IsMapped-as_query_pte root virtual 0 _ k',
        IsMapped-as_unmap_page_absent root virtual 0 _ k' refl,
      )

  -- After such a MmAsMapPage MmAsProtectPage with other flags succeeds and moves no page: the entry
  -- that MmAsQueryPte finds then has the new flags and leads to the frame that was mapped.
  pub as_map_page-as_protect_page :
      (changed : ℕ)
      → frame flags ≡ 0
      → frame changed ≡ 0
      → (m'' : Memory) × (as_protect_page (some root) virtual changed m' ≡ (success, m''))
        × (m''.pages ≡ m'.pages)
        × (as_query_pte (some root) virtual true m''
            ≡ (success, some (bit_or (bit_or (frame physical) changed) pte_present)))
  as_map_page-as_protect_page changed z z' =
      let entry = page_entry physical flags in
      let k = mapped in
      let k' =
        replaced-IsMapped root virtual entry m' k (page_entry entry changed) m'.pages k.ready in
      let same =
        ap (λ (f : ℕ). (success, some (bit_or (bit_or f changed) pte_present)))
          (frame-page_entry physical flags z) in
      (
        replaced root virtual entry m' k (page_entry entry changed) m'.pages,
        IsMapped-as_protect_page root virtual entry m' k changed
            (page_entry-present physical flags),
        refl,
        IsMapped-as_query_pte root virtual (page_entry entry changed) _ k' ∙ same,
      )
