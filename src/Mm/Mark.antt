-- ===== src/Mm/Mark.antt =====
-- MmpMarkRange marks whole pages.
use ntx_preview.Base.{
  ℕ, zero, suc, ◌+◌, ◌-◌, ◌*◌, ◌/◌, ◌%◌, ◌^◌, ◌<◌, ◌≡◌, refl, ◌∙◌, Bool, true, false, ◌&&◌, ◌||◌,
  arith, if◌then◌else◌, ◌==◌, Bool-cases, inl, inr, leb, ltb,
}
use ntx_preview.Mm.{
  Pages, set_page, set_page_allocated, set_page_free, mark_pages, mark_range, mark_between,
  is_page_allocated,
}
use ntx_preview.Mm.Bitmap.{set_page_allocated-is_page_allocated, set_page_free-is_page_allocated}
use ntx_preview.Mm.Align.{align_up-page, align_down-page}
use native.Mathlib.Nat.{mod-eq_of_lt}

set_page-is_page_allocated :
    (a : Bool) (p q : ℕ) (mm : Pages)
    → is_page_allocated q (set_page a p mm) ≡ (if p == q then a else is_page_allocated q mm)
set_page-is_page_allocated true p q mm =
    set_page_allocated-is_page_allocated p q mm
    ∙ elim (Bool-cases (p == q)) [ inl e ↦ rw e refl | inr e ↦ rw e refl ]
set_page-is_page_allocated false p q mm =
    set_page_free-is_page_allocated p q mm
    ∙ elim (Bool-cases (p == q)) [ inl e ↦ rw e refl | inr e ↦ rw e refl ]

set_page-tracked_pages :
    (a : Bool) (p : ℕ) (mm : Pages) → (set_page a p mm).tracked_pages ≡ mm.tracked_pages
unfolding set_page_allocated set_page_free
set_page-tracked_pages true p mm = refl
set_page-tracked_pages false p mm = refl

-- The page `q` is one of `n` pages from `page` on, and tracked.
abbrev covered : ℕ → ℕ → ℕ → ℕ → Bool
covered page n tracked q = leb page q && ltb q (page + n) && ltb q tracked

covered-suc :
    (page n tracked q : ℕ)
    → leb tracked page ≡ false
    → covered page (suc n) tracked q ≡ (page == q || covered (page + 1) n tracked q)
covered-suc page n tracked q e = ground arith

covered-zero : (page tracked q : ℕ) → covered page 0 tracked q ≡ false
covered-zero page tracked q = ground arith

covered-end : (page n tracked q : ℕ) → leb tracked page ≡ true → covered page n tracked q ≡ false
covered-end page n tracked q e = ground arith

if-or :
    {A : Type 0} (b c : Bool) (x y : A)
    → (if c then x else (if b then x else y)) ≡ (if b || c then x else y)
if-or true true x y = refl
if-or true false x y = refl
if-or false true x y = refl
if-or false false x y = refl

mark_pages-is_page_allocated :
    (a : Bool) (n page q : ℕ) (mm : Pages)
    → is_page_allocated q (mark_pages a n page mm)
      ≡ (if covered page n mm.tracked_pages q then a else is_page_allocated q mm)
unfolding mark_pages
mark_pages-is_page_allocated a zero page q mm = rw (covered-zero page mm.tracked_pages q) refl
mark_pages-is_page_allocated a (suc n) page q mm = elim (Bool-cases (leb mm.tracked_pages page)) [
  | inl e ↦ rw (covered-end page (suc n) mm.tracked_pages q e, e) refl
  | inr e ↦
      let step = mark_pages-is_page_allocated a n (page + 1) q (set_page a page mm) in
      let tracked = set_page-tracked_pages a page mm in
      rw (covered-suc page n mm.tracked_pages q e, e)
        (step
          ∙ rw (tracked, set_page-is_page_allocated a page q mm)
              (if-or (page == q) (covered (page + 1) n mm.tracked_pages q) a
                (is_page_allocated q mm)))
]

-- The pages that MmpMarkRange goes through are those that lie wholly in the range.
covered-whole :
    (base length tracked q : ℕ)
    → (leb ((base + length) / 4096 * 4096) ((base + 4095) / 4096 * 4096) ≡ false)
    → covered ((base + 4095) / 4096) ((base + length) / 4096 - (base + 4095) / 4096) tracked q
      ≡ (leb base (q * 4096) && leb (q * 4096 + 4096) (base + length) && ltb q tracked)
covered-whole base length tracked q e = ground arith

start_of : (n : ℕ) → n * 4096 / 4096 ≡ n
start_of n = omega arith

mark_between-is_page_allocated :
    (base length q : ℕ) (a : Bool) (mm : Pages)
    → is_page_allocated q
        (mark_between ((base + 4095) / 4096 * 4096) ((base + length) / 4096 * 4096) length a mm)
      ≡ (if leb base (q * 4096) && leb (q * 4096 + 4096) (base + length) && ltb q mm.tracked_pages
          then a
          else is_page_allocated q mm)
unfolding mark_between
mark_between-is_page_allocated base length q a mm =
    elim (Bool-cases (
      length == 0
      || mm.tracked_pages == 0
      || leb ((base + length) / 4096 * 4096) ((base + 4095) / 4096 * 4096))) [
        | inl e ↦
            let out : (leb base (q * 4096)
                  && leb (q * 4096 + 4096) (base + length)
                  && ltb q mm.tracked_pages)
                ≡ false =
              ground (arith, e) in
            rw (e, out) refl
        | inr e ↦
            let whole = covered-whole base length mm.tracked_pages q (ground (arith, e)) in
            let marked =
              mark_pages-is_page_allocated a ((base + length) / 4096 - (base + 4095) / 4096)
                ((base + 4095) / 4096) q mm in
            rw (e, start_of ((base + length) / 4096), start_of ((base + 4095) / 4096))
              (marked ∙ rw whole refl)
      ]

-- A range below 2^64 less a page is rounded to whole pages.
mark_range-between :
    (base length : ℕ) (a : Bool) (mm : Pages)
    → base + length + 4095 < 2 ^ 64
    → mark_range base length a mm
      ≡ mark_between ((base + 4095) / 4096 * 4096) ((base + length) / 4096 * 4096) length a mm
unfolding mark_range
mark_range-between base length a mm l =
    let m : (base + length) % 2 ^ 64 ≡ base + length =
      mod-eq_of_lt {n = base + length} {m = 2 ^ 64} (omega (arith, l)) in
    rw
      (m, align_up-page base (omega (arith, l)), align_down-page (base + length) (omega (arith, l)))
      refl

-- MmpMarkRange makes exactly those pages allocated, or free, that are tracked and lie in the range
-- from their first byte to their last, for a range below 2^64 less a page; all others stay.
pub mark_range-is_page_allocated :
    (base length q : ℕ) (a : Bool) (mm : Pages)
    → base + length + 4095 < 2 ^ 64
    → is_page_allocated q (mark_range base length a mm) ≡ (
        if leb base (q * 4096) && leb (q * 4096 + 4096) (base + length) && ltb q mm.tracked_pages
        then a
        else is_page_allocated q mm)
mark_range-is_page_allocated base length q a mm l =
    rw (mark_range-between base length a mm l) (mark_between-is_page_allocated base length q a mm)
