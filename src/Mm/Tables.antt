-- ===== src/Mm/Tables.antt =====
-- The page tables that a walk of init.c comes through: each is an allocated page of its own, and one
-- round of MmpWalkToPte that makes what is missing leaves an entry that leads on to the next.
use ntx_preview.Base.{
  success, init_failed, ℕ, ◌*◌, ◌/◌, ◌^◌, ◌<◌, ◌≡◌, ◌≢◌, ◌⊎◌, ◌∙◌, subst, sym, ap, Bool, true,
  false, arith, List, [], ◌∷◌, Option, none, some, inl, inr, update, update-ne, Status,
}
use ntx_preview.Mm.{Pages, is_page_allocated, taken, page_size}
use ntx_preview.Mm.Alloc.{IsSane, alloc_page-cases, taken-is_page_allocated, taken-IsSane}
use ntx_preview.Mm.Walk.{
  Memory, Walked, reached, stopped, frame, has, pte_present, pte_large, write_word, fresh_frame,
  filled, linked_entry, link_table, opened_entry,
}
use ntx_preview.Mm.Entry.{
  frame-page, linked_entry-present, linked_entry-large, frame-linked_entry, opened_entry-present,
  opened_entry-large, frame-opened_entry,
}

abbrev pub IsAllocated : ℕ → Memory → Type 0
IsAllocated t m = is_page_allocated (t / page_size) m.pages ≡ true

-- What a walk has behind it, with one table more.
abbrev pub With : ℕ → (ℕ → Type 0) → ℕ → Type 0
With t seen x = (x ≡ t) ⊎ seen x

abbrev pub IsApart : (ℕ → Type 0) → ℕ → Type 0
IsApart seen t = (x : ℕ) → seen x → x ≢ t

-- The tables below `t` along the indexes, as far as they are there, are allocated and distinct,
-- also from those of `seen`.
abbrev pub IsTree : List ℕ → (ℕ → Type 0) → ℕ → Memory → Type 0
IsTree [] seen t m = IsAllocated t m × IsApart seen t
IsTree (i ∷ is) seen t m =
    IsAllocated t m
    × IsApart seen t
    × (has (m.words t i) pte_present ≡ true
        → has (m.words t i) pte_large ≡ false
        → IsTree is (With t seen) (frame (m.words t i)) m)

-- The frame `t` was free and now is a table, empty unless it is of the last level.
abbrev pub IsNew : Bool → ℕ → Memory → Memory → Type 0
IsNew last t m m' =
    (is_page_allocated (t / page_size) m.pages ≡ false)
    × IsAllocated t m'
    × (last ≡ false → (j : ℕ) → m'.words t j ≡ 0)

pub taken_apart :
    (x y : ℕ) (m : Memory)
    → IsAllocated x m
    → is_page_allocated (y / page_size) m.pages ≡ false
    → x ≢ y
taken_apart x y m a free e =
    absurd (cc (ap (λ (z : ℕ). is_page_allocated (z / page_size) m.pages) e, a, free))

-- The round has left the entry `e` at `i`, which leads on.
pub record IsLinked (last : Bool) (table i : ℕ) (m : Memory) (e : ℕ) (m' : Memory) : Type 0 where
  pub stored : m'.words table i ≡ e
  pub is_present : has e pte_present ≡ true
  pub not_large : has e pte_large ≡ false
  pub others : (x : ℕ) → IsAllocated x m → x ≢ table → m'.words x ≡ m.words x
  pub grows : (q : ℕ) → is_page_allocated q m.pages ≡ true → is_page_allocated q m'.pages ≡ true
  pub sane : IsSane m'.pages
  pub leads :
      ((has (m.words table i) pte_present ≡ true)
        × (has (m.words table i) pte_large ≡ false)
        × (frame (m.words table i) ≡ frame e))
      ⊎ IsNew last (frame e) m m'

-- A frame is filled, unless none is free.
abbrev pub placed : ℕ → (ℕ → ℕ) → Memory → Memory
placed p fill m = record { pages = taken p 1 m.pages; words = update m.words (p * 4096) fill }

abbrev given : ℕ → (ℕ → ℕ) → Memory → ℕ → Option ℕ × Memory
given p fill m at =
    (some (p * 4096), record { pages = taken p 1 m.pages; words = update m.words at fill })

pub fresh_frame-cases :
    (fill : ℕ → ℕ) (m : Memory)
    → IsSane m.pages
    → (fresh_frame fill m ≡ (none, m))
      ⊎ ((p : ℕ) × (p < 2 ^ 40)
          × (is_page_allocated p m.pages ≡ false)
          × (fresh_frame fill m ≡ (some (p * 4096), placed p fill m)))
unfolding fresh_frame filled
fresh_frame-cases fill m s = elim (alloc_page-cases m.pages s) [
  | inl (e, _) ↦ inl (ap (λ (r : Status × Option ℕ × Pages). filled fill r.1 r.2 m) e)
  | inr (p, b, free, e) ↦
      let l : p < 2 ^ 40 = omega (arith, b, s.bound) in
      inr (
        p,
        l,
        free,
        ap (λ (r : Status × Option ℕ × Pages). filled fill r.1 r.2 m) e
            ∙ ap (given p fill m) (frame-page p l),
      )
]

-- The entry of a new table leads on to it.
module _ (last : Bool) (table i p : ℕ) (fill : ℕ → ℕ) (m : Memory) where
  abbrev linked_memory : Bool → Memory
  linked_memory user = write_word table i (linked_entry user (p * 4096)) (placed p fill m)

  placed-IsNew :
      (user : Bool)
      → p * 4096 ≢ table
      → is_page_allocated p m.pages ≡ false
      → (last ≡ false → (j : ℕ) → fill j ≡ 0)
      → IsNew last (p * 4096) m (linked_memory user)
  placed-IsNew user ne free zeros =
      let page : p * 4096 / page_size ≡ p = omega arith in
      (
        ap (λ (y : ℕ). is_page_allocated y m.pages) page ∙ free,
        ap (λ (y : ℕ). is_page_allocated y (taken p 1 m.pages)) page
            ∙ ground (arith, taken-is_page_allocated p p m.pages),
        λ h j. ground (arith, ne, zeros h j),
      )

  placed-IsLinked :
      (user : Bool)
      → IsSane m.pages
      → IsAllocated table m
      → p < 2 ^ 40
      → is_page_allocated p m.pages ≡ false
      → (last ≡ false → (j : ℕ) → fill j ≡ 0)
      → IsLinked last table i m (linked_entry user (p * 4096)) (linked_memory user)
  placed-IsLinked user s t l free zeros =
      let page : p * 4096 / page_size ≡ p = omega arith in
      let ne : (x : ℕ) → IsAllocated x m → p * 4096 ≢ x = λ x a e.
        taken_apart x (p * 4096) m a (ap (λ (y : ℕ). is_page_allocated y m.pages) page ∙ free)
          (sym e) in
      record {
        stored = ground arith;
        is_present = linked_entry-present p l user;
        not_large = linked_entry-large p l user;
        others = λ x a n.
            update-ne (update m.words (p * 4096) fill) table x
              (update (update m.words (p * 4096) fill table) i (linked_entry user (p * 4096)))
              (λ e. n (sym e))
            ∙ update-ne m.words (p * 4096) x fill (ne x a);
        grows = λ q a. ground (arith, taken-is_page_allocated p q m.pages, a);
        sane = taken-IsSane p m.pages s;
        leads = inr (
            subst (λ (y : ℕ). IsNew last y m (linked_memory user))
              (sym (frame-linked_entry p l user)) (placed-IsNew user (ne table t) free zeros));
      }

-- What a step of the round that comes to an entry has left.
abbrev pub Leaves : Bool → ℕ → ℕ → Memory → Walked → Type 0
Leaves last table i m (reached e m') = IsLinked last table i m e m'
Leaves last table i m (stopped status m') = status ≢ success

pub link_table-Leaves :
    (last : Bool) (table i : ℕ) (fill : ℕ → ℕ) (m : Memory) (user : Bool)
    → IsSane m.pages
    → IsAllocated table m
    → (last ≡ false → (j : ℕ) → fill j ≡ 0)
    → Leaves last table i m (link_table user table i (fresh_frame fill m))
unfolding link_table
link_table-Leaves last table i fill m user s t zeros =
    let Left = λ (r : Option ℕ × Memory). Leaves last table i m (link_table user table i r) in
    elim (fresh_frame-cases fill m s) [
      | inl f ↦ subst Left (sym f) (λ (e : init_failed ≡ success). absurd (cc e))
      | inr (p, l, free, f) ↦
          subst Left (sym f) (placed-IsLinked last table i p fill m user s t l free zeros)
    ]

-- The entry of a linked table stays one when it is opened to user code.
pub opened-IsLinked :
    (last : Bool) (table i e : ℕ) (m m' : Memory)
    → IsAllocated table m
    → IsLinked last table i m e m'
    → IsLinked last table i m (opened_entry e) (write_word table i (opened_entry e) m')
opened-IsLinked last table i e m m' t k = record {
  stored = ground arith;
  is_present = opened_entry-present e ∙ k.is_present;
  not_large = opened_entry-large e ∙ k.not_large;
  others = λ x a n. update-ne m'.words table x _ (λ q. n (sym q)) ∙ k.others x a n;
  grows = k.grows;
  sane = k.sane;
  leads = elim k.leads [
    | inl (p, n, f) ↦ inl (p, n, f ∙ sym (frame-opened_entry e))
    | inr new ↦ inr (
        subst (λ (y : ℕ). IsNew last y m (write_word table i (opened_entry e) m'))
          (sym (frame-opened_entry e))
          (
            new.0,
            new.1,
            λ h j.
                ap (λ (f : ℕ → ℕ). f j)
                  (update-ne m'.words table (frame e) _ (taken_apart table (frame e) m t new.0))
                ∙ new.2 h j,
          ))
  ];
}
