-- ===== src/Mm/Alloc.antt =====
-- MmAllocPage and MmFreePage: pages are handed out once, in whole pages, as long as one is free.
use ntx_preview.Base.{
  ℕ, ◌+◌, ◌-◌, ◌*◌, ◌/◌, ◌%◌, ◌^◌, ◌<◌, ◌≤◌, ◌≡◌, refl, sym, ap, ◌∙◌, true, false, not, ◌&&◌, ◌||◌,
  ◌⊎◌, arith, ◌==◌, ◌!=◌, Bool-cases, Option-cases, inl, inr, some, none, first_index,
  first_index-some, first_index-none, success, init_failed, invalid_parameter, leb,
}
use ntx_preview.Mm.{
  Pages, page_size, scanned, taken, freed, alloc_page, alloc_page_internal, free_page, free_tracked,
  set_page_allocated, set_page_free, is_page_allocated, max_tracked_pages,
}
use ntx_preview.Mm.Bitmap.{set_page_allocated-is_page_allocated, set_page_free-is_page_allocated}
use native.Mathlib.Nat.{mod-eq_of_lt, mod-lt, add-mod_right}

-- The state after MmInitialize: some page is tracked, and the scan starts at one of them.
pub record IsSane (mm : Pages) : Type 0 where
  pub on : mm.ready ≡ true
  pub some_page : 0 < mm.tracked_pages
  pub bound : mm.tracked_pages ≤ max_tracked_pages
  pub next : mm.next_scan_page < mm.tracked_pages

scanned-bound : (mm : Pages) (k : ℕ) → IsSane mm → scanned mm k < mm.tracked_pages
scanned-bound mm k s = mod-lt _ s.some_page

scan_at :
    (mm : Pages) (p k x : ℕ)
    → IsSane mm
    → mm.next_scan_page + k ≡ x
    → x < 2 ^ 32
    → x % mm.tracked_pages ≡ p
    → scanned mm k ≡ p
scan_at mm p k x s e l m =
    ap (λ (n : ℕ). n % 2 ^ 32 % mm.tracked_pages) e
    ∙ ap (λ (n : ℕ). n % mm.tracked_pages) (mod-eq_of_lt {n = x} {m = 2 ^ 32} l)
    ∙ m

-- The scan comes past every tracked page.
scanned_reaches :
    (mm : Pages) (p : ℕ)
    → IsSane mm
    → p < mm.tracked_pages
    → (k : ℕ) × (k < mm.tracked_pages) × (scanned mm k ≡ p)
scanned_reaches mm p s l = elim (Bool-cases (leb mm.next_scan_page p)) [
  | inl e ↦ (
    p - mm.next_scan_page,
    ground (arith, s.next),
    scan_at mm p (p - mm.next_scan_page) p s (ground arith) (omega (arith, l, s.bound))
        (mod-eq_of_lt l),
  )
  | inr e ↦ (
    p + mm.tracked_pages - mm.next_scan_page,
    ground (arith, s.next),
    scan_at mm p (p + mm.tracked_pages - mm.next_scan_page) (p + mm.tracked_pages) s
        (ground (arith, s.next)) (omega (arith, l, s.bound))
        (add-mod_right p mm.tracked_pages ∙ mod-eq_of_lt l),
  )
]

abbrev Exhausted : Pages → Type 0
Exhausted mm = (p : ℕ) → p < mm.tracked_pages → is_page_allocated p mm ≡ true

-- MmAllocPage fails only if every tracked page is allocated, and leaves the state then; or it hands
-- out the address of a page that was free.
pub alloc_page-cases :
    (mm : Pages)
    → IsSane mm
    → ((alloc_page true mm ≡ (init_failed, none, mm)) × Exhausted mm)
      ⊎ ((p : ℕ) × (p < mm.tracked_pages)
          × (is_page_allocated p mm ≡ false)
          × (alloc_page true mm ≡ (success, some (p * page_size), taken p 1 mm)))
unfolding alloc_page alloc_page_internal
alloc_page-cases mm s =
    elim (Option-cases
      (first_index (λ k. not (is_page_allocated (scanned mm k) mm)) mm.tracked_pages)) [
        | inl e ↦ inl (
          ground (arith, s.on, s.some_page, e),
          λ p l.
              let (k, b, at) = scanned_reaches mm p s l in
              let busy = first_index-none _ mm.tracked_pages e k b in
              let full : is_page_allocated (scanned mm k) mm ≡ true = ground (arith, busy) in
              sym (ap (λ (n : ℕ). is_page_allocated n mm) at) ∙ full,
        )
        | inr (k, e) ↦
            let (b, free, _) = first_index-some _ mm.tracked_pages k e in
            inr (
              scanned mm k,
              scanned-bound mm k s,
              ground (arith, free),
              ground (arith, s.on, s.some_page, e),
            )
      ]

-- What a page that was given away means for every page: the one is allocated, with one reference,
-- and the others are as they were.
pub taken-is_page_allocated :
    (p q : ℕ) (mm : Pages) → is_page_allocated q (taken p 1 mm) ≡ (p == q || is_page_allocated q mm)
unfolding is_page_allocated
taken-is_page_allocated p q mm = set_page_allocated-is_page_allocated p q mm

pub taken-IsSane : (p : ℕ) (mm : Pages) → IsSane mm → IsSane (taken p 1 mm)
unfolding set_page_allocated
taken-IsSane p mm s = record {
  on = s.on;
  some_page = s.some_page;
  bound = s.bound;
  next = mod-lt _ s.some_page;
}

freed-is_page_allocated :
    (p q : ℕ) (mm : Pages)
    → is_page_allocated q (freed p mm) ≡ (not (p == q) && is_page_allocated q mm)
unfolding is_page_allocated
freed-is_page_allocated p q mm = set_page_free-is_page_allocated p q mm

taken-ready : (p : ℕ) (mm : Pages) → (taken p 1 mm).ready ≡ mm.ready
unfolding set_page_allocated
taken-ready p mm = refl

taken-bound : (p : ℕ) (mm : Pages) → p < mm.tracked_pages → p < (taken p 1 mm).tracked_pages
unfolding set_page_allocated
taken-bound p mm l = l

freed-ready : (p : ℕ) (mm : Pages) → (freed p mm).ready ≡ mm.ready
unfolding set_page_free
freed-ready p mm = refl

free_page-tracked :
    (p : ℕ) (mm : Pages) → mm.ready ≡ true → free_page (p * page_size) mm ≡ free_tracked p mm
unfolding free_page
free_page-tracked p mm on =
    let whole : (not mm.ready || p * page_size % page_size != 0) ≡ false = ground (arith, on) in
    let page : p * page_size / page_size ≡ p = omega arith in
    rw whole (ap (λ n. free_tracked n mm) page)

free_tracked-freed :
    (p : ℕ) (mm : Pages)
    → p < mm.tracked_pages
    → is_page_allocated p mm ≡ true
    → free_tracked p mm ≡ (success, freed p mm)
unfolding free_tracked
free_tracked-freed p mm b a = ground (arith, a)

free_tracked-refused :
    (p : ℕ) (mm : Pages)
    → is_page_allocated p mm ≡ false
    → free_tracked p mm ≡ (invalid_parameter, mm)
unfolding free_tracked
free_tracked-refused p mm a = ground (arith, a)

-- A page that MmAllocPage returned can be given back, and then exactly the pages are allocated that
-- were; a second MmFreePage of the page is refused and changes nothing.
pub alloc_page-free_page :
    (mm mm' : Pages) (physical : ℕ)
    → IsSane mm
    → alloc_page true mm ≡ (success, some physical, mm')
    → (mm'' : Pages) × (free_page physical mm' ≡ (success, mm''))
      × ((q : ℕ) → is_page_allocated q mm'' ≡ is_page_allocated q mm)
      × (free_page physical mm'' ≡ (invalid_parameter, mm''))
alloc_page-free_page mm mm' physical s ran = elim (alloc_page-cases mm s) [
  | inl (e, full) ↦ absurd (cc (ap (λ r. r.0) (sym ran ∙ e)))
  | inr (p, b, u, e) ↦
      let at : physical ≡ p * page_size = cc (ap (λ r. r.1) (sym ran ∙ e)) in
      let now : mm' ≡ taken p 1 mm = ap (λ r. r.2) (sym ran ∙ e) in
      let busy = taken-is_page_allocated p p mm in
      let idle = freed-is_page_allocated p p (taken p 1 mm) in
      rw (at, now)
        (
          freed p (taken p 1 mm),
          free_page-tracked p (taken p 1 mm) (taken-ready p mm ∙ s.on)
              ∙ free_tracked-freed p (taken p 1 mm) (taken-bound p mm b) (ground (arith, busy)),
          λ q.
              freed-is_page_allocated p q (taken p 1 mm)
              ∙ ground (arith, taken-is_page_allocated p q mm, u),
          free_page-tracked p (freed p (taken p 1 mm))
                (freed-ready p (taken p 1 mm) ∙ taken-ready p mm ∙ s.on)
              ∙ free_tracked-refused p (freed p (taken p 1 mm)) (ground (arith, idle)),
        )
]
