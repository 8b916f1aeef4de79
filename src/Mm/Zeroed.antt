-- ===== src/Mm/Zeroed.antt =====
-- MmHandlePageFault on an anonymous region: the page that appears is a frame that was free, and it
-- is zeroed.
use ntx_preview.Base.{
  ℕ, ◌*◌, ◌/◌, ◌≡◌, ◌∙◌, ◌⊎◌, sym, ap, subst, refl, true, false, arith, some, inl, inr, Bool-cases,
  succeeded, Status, success, update-ne, List, [], ◌∷◌, access_denied, succeeded_eq,
}
use ntx_preview.Mm.{page_size, align_down, is_page_allocated, taken}
use ntx_preview.Mm.Alloc.{IsSane, taken-is_page_allocated, taken-IsSane}
use ntx_preview.Mm.Walk.{Memory, has, frame, fresh_frame, pte_present, pte_large, upper_indexes}
use ntx_preview.Mm.Pte.{page_entry, as_query_pte}
use ntx_preview.Mm.Space.{AddressSpace, find_region, protection_to_pte, region_type_anon}
use ntx_preview.Mm.Fault.{
  Sections, handle_page_fault, fault_in, fault_absent, fault_anonymous, is_denied, error_present,
  commit,
}
use ntx_preview.Mm.Tables.{IsTree, IsAllocated, With, taken_apart, placed, fresh_frame-cases}
use ntx_preview.Mm.Mapped.{IsMappable, as_map_page-IsMapped}
use ntx_preview.Mm.Mapping.{IsMapped-as_query_pte}

-- The tables of a tree stay one beside frames that were free, as long as their words stay.
IsTree-carry :
    (is : List ℕ) (seen seen' : ℕ → Type 0) (t : ℕ) (m m' : Memory)
    → ((x : ℕ) → seen' x → seen x ⊎ (is_page_allocated (x / page_size) m.pages ≡ false))
    → ((x : ℕ) → IsAllocated x m → m'.words x ≡ m.words x)
    → ((q : ℕ) → is_page_allocated q m.pages ≡ true → is_page_allocated q m'.pages ≡ true)
    → IsTree is seen t m
    → IsTree is seen' t m'
IsTree-carry [] seen seen' t m m' from same grows (a, n) = (
  grows _ a,
  λ x h. elim (from x h) [ inl s ↦ n x s | inr free ↦ λ e. taken_apart t x m a free (sym e) ],
)
IsTree-carry (i ∷ is) seen seen' t m m' from same grows (a, n, below) =
    let at : m'.words t i ≡ m.words t i = ap (λ (f : ℕ → ℕ). f i) (same t a) in
    let deeper : (x : ℕ)
        → With t seen' x
        → With t seen x ⊎ (is_page_allocated (x / page_size) m.pages ≡ false) =
      λ x h. elim h [
        | inl e ↦ inl (inl e)
        | inr h ↦ elim (from x h) [ inl s ↦ inl (inr s) | inr free ↦ inr free ]
      ] in
    (
      grows _ a,
      λ x h. elim (from x h) [ inl s ↦ n x s | inr free ↦ λ e. taken_apart t x m a free (sym e) ],
      λ p l.
          let kept =
            IsTree-carry is (With t seen) (With t seen') (frame (m.words t i)) m m' deeper same
              grows
              (below (ap (λ (w : ℕ). has w pte_present) (sym at) ∙ p)
                (ap (λ (w : ℕ). has w pte_large) (sym at) ∙ l)) in
          subst (λ (w : ℕ). IsTree is (With t seen') (frame w) m') (sym at) kept,
    )

module _ (space space' : AddressSpace) (k fault error : ℕ) (sections : Sections)
    (m m' : Memory) where
  -- What MmHandlePageFault does on an anonymous region that allows the access.
  faulted :
      m.pages.ready ≡ true
      → find_region space fault ≡ some k
      → (space.regions k).type ≡ region_type_anon
      → has error error_present ≡ false
      → handle_page_fault space fault error sections m ≡ (success, space', m')
      → fault_anonymous k space (align_down fault page_size) (fresh_frame (λ i. 0) m)
        ≡ (success, space', m')
  unfolding handle_page_fault fault_in fault_absent
  faulted on at anon absent ran = elim (Bool-cases (is_denied (space.regions k) error)) [
    | inl h ↦
        let refused : (handle_page_fault space fault error sections m).0 ≡ access_denied =
          rw (on, at, h) refl in
        absurd (cc (refused, ap (λ (r : Status × AddressSpace × Memory). r.0) ran))
    | inr h ↦
        let went : handle_page_fault space fault error sections m
            ≡ fault_anonymous k space (align_down fault page_size) (fresh_frame (λ i. 0) m) =
          rw (on, at, h, absent, anon) refl in
        sym went ∙ ran
  ]

commit-success :
    (k : ℕ) (space space' : AddressSpace) (r : Status × Memory) (m' : Memory)
    → commit k space r ≡ (success, space', m')
    → r ≡ (success, m')
unfolding commit
commit-success k space space' (status, m) m' ran = elim (Bool-cases (succeeded status)) [
  | inl h ↦
      let done : (commit k space (status, m)).2 ≡ m = rw h refl in
      let at = ap (λ (r : Status × AddressSpace × Memory). r.2) ran in
      ap (λ (s : Status). (s, m)) (succeeded_eq status h)
      ∙ ap (λ (x : Memory). (success, x)) (sym done ∙ at)
  | inr h ↦
      let failed : (commit k space (status, m)).0 ≡ status = rw h refl in
      let at = ap (λ (r : Status × AddressSpace × Memory). r.0) ran in
      absurd (cc (ap succeeded (sym failed ∙ at), h))
]

-- Beside a frame that was free and now is zeroed the tables are what they were.
placed-carried :
    (is : List ℕ) (t p : ℕ) (m : Memory)
    → is_page_allocated p m.pages ≡ false
    → IsTree is (λ x. ⊥) t m
    → ((x : ℕ) → x ≡ p * 4096 → IsAllocated x (placed p (λ i. 0) m))
      × IsTree is (λ x. x ≡ p * 4096) t (placed p (λ i. 0) m)
placed-carried is t p m free tree =
    let page : p * 4096 / page_size ≡ p = omega arith in
    let idle : is_page_allocated (p * 4096 / page_size) m.pages ≡ false =
      ap (λ (z : ℕ). is_page_allocated z m.pages) page ∙ free in
    let busy : IsAllocated (p * 4096) (placed p (λ i. 0) m) =
      ap (λ (z : ℕ). is_page_allocated z (taken p 1 m.pages)) page
      ∙ ground (arith, taken-is_page_allocated p p m.pages) in
    (
      λ x e. subst (λ (z : ℕ). IsAllocated z (placed p (λ i. 0) m)) (sym e) busy,
      IsTree-carry is (λ x. ⊥) (λ x. x ≡ p * 4096) t m (placed p (λ i. 0) m)
          (λ x e. inr (ap (λ (z : ℕ). is_page_allocated (z / page_size) m.pages) e ∙ idle))
          (λ x a.
            update-ne m.words (p * 4096) x (λ i. 0)
              (λ e. taken_apart x (p * 4096) m a idle (sym e)))
          (λ q a. ground (arith, taken-is_page_allocated p q m.pages, a)) tree,
    )

-- A fault on a page that is not present, in an anonymous region and over page tables that are
-- allocated and distinct, when MmHandlePageFault returns success: a frame that was free is mapped
-- there with the region's protection, and every word of the frame is 0.
pub handle_page_fault-zeroed :
    (space space' : AddressSpace) (k fault error : ℕ) (sections : Sections) (m m' : Memory)
    → IsSane m.pages
    → IsMappable space.root_table_physical (align_down fault page_size) m
    → find_region space fault ≡ some k
    → (space.regions k).type ≡ region_type_anon
    → has error error_present ≡ false
    → handle_page_fault space fault error sections m ≡ (success, space', m')
    → (p : ℕ) × (is_page_allocated p m.pages ≡ false)
      × (as_query_pte (some space.root_table_physical) (align_down fault page_size) true m' ≡ (
        success,
        some (
            page_entry
              (p * page_size)
              (protection_to_pte (space.regions k).protection (space.regions k).flags)),
      ))
      × ((i : ℕ) → m'.words (p * page_size) i ≡ 0)
unfolding fault_anonymous
handle_page_fault-zeroed space space' k fault error sections m m' s tree at anon absent ran =
    let went = faulted space space' k fault error sections m m' s.on at anon absent ran in
    let root = space.root_table_physical in
    let page = align_down fault page_size in
    let flags = protection_to_pte (space.regions k).protection (space.regions k).flags in
    elim (fresh_frame-cases (λ i. 0) m s) [
      | inl f ↦
          let got = sym (ap (fault_anonymous k space page) f) ∙ went in
          absurd (cc (ap (λ (r : Status × AddressSpace × Memory). r.0) got))
      | inr (p, l, free, f) ↦
          let got = sym (ap (fault_anonymous k space page) f) ∙ went in
          let (own, carried) = placed-carried (upper_indexes page) (frame root) p m free tree in
          let (k', keeps) =
            as_map_page-IsMapped root page (p * 4096) flags (λ x. x ≡ p * 4096)
              (placed p (λ i. 0) m) m' (taken-IsSane p m.pages s) own carried
              (commit-success k space space' _ m' got) in
          (
            p,
            free,
            IsMapped-as_query_pte root page _ m' k',
            λ i. ap (λ (g : ℕ → ℕ). g i) (keeps (p * 4096) refl) ∙ ground arith,
          )
    ]
