-- ===== src/Mm/Round.antt =====
-- One round of the loop of MmpWalkToPte over the levels, in a walk that makes what is missing: it
-- splits a large entry, opens an entry to user code, or makes a table, and then leads on.
use ntx_preview.Base.{
  success, ℕ, ◌≡◌, ◌≢◌, subst, sym, refl, Bool, true, false, not, ◌&&◌, inl, inr, Bool-cases, ltb,
  if◌then◌else◌, not_implemented, ◌!=◌,
}
use ntx_preview.Mm.Alloc.{IsSane}
use ntx_preview.Mm.Walk.{
  Memory, Walked, reached, stopped, frame, has, pte_present, pte_large, fresh_frame, link_table,
  split_large, split_table, sanitize, opened_entry, create_missing, go_on, enter, is_user_address,
  user_top,
}
use ntx_preview.Mm.Tables.{IsAllocated, IsLinked, Leaves, link_table-Leaves, opened-IsLinked}

go_on-Leaves :
    (last : Bool) (table i : ℕ) (m : Memory) (f : ℕ → Memory → Walked)
    → ((e : ℕ) (m' : Memory) → IsLinked last table i m e m' → Leaves last table i m (f e m'))
    → (w : Walked) → Leaves last table i m w
    → Leaves last table i m (go_on f w)
unfolding go_on
go_on-Leaves last table i m f h (reached e m') k = h e m' k
go_on-Leaves last table i m f h (stopped status m') k = k

module _ (virtual table i : ℕ) (m : Memory) (s : IsSane m.pages) (t : IsAllocated table m) where
  sanitize-Leaves :
      (last : Bool) (e : ℕ) (m' : Memory)
      → IsLinked last table i m e m'
      → Leaves last table i m (sanitize true virtual table i e m')
  unfolding sanitize
  sanitize-Leaves last e m' k =
      elim (Bool-cases
        (has e pte_present && is_user_address virtual && true && opened_entry e != e)) [
          | inl h ↦ rw h (opened-IsLinked last table i e m m' t k)
          | inr h ↦ rw h k
        ]

  create_missing-Leaves :
      (last : Bool) (e : ℕ) (m' : Memory)
      → IsLinked last table i m e m'
      → Leaves last table i m (create_missing true virtual table i e m')
  unfolding create_missing
  create_missing-Leaves last e m' k = rw k.is_present k

  -- A large entry that was there is split.
  split_large-Leaves :
      (last : Bool)
      → has (m.words table i) pte_present ≡ true
      → Leaves last table i m (split_large true virtual last table i m)
  unfolding split_large
  split_large-Leaves last p = elim (Bool-cases (has (m.words table i) pte_large)) [
    | inl h ↦ rw (p, h) (split last)
    | inr h ↦
        rw (p, h)
          record {
            stored = refl;
            is_present = p;
            not_large = h;
            others = λ x a n. refl;
            grows = λ q a. a;
            sane = s;
            leads = inl (p, h, refl);
          }
  ]
    where
      split :
          (last : Bool)
          → Leaves last table i m (
              if not last
              then stopped not_implemented m
              else link_table
                  (ltb virtual user_top)
                  table
                  i
                  (fresh_frame (split_table (m.words table i)) m))
      split false = λ e. absurd (cc e)
      split true =
          link_table-Leaves true table i (split_table (m.words table i)) m (ltb virtual user_top) s
            t (λ h. absurd (cc h))

-- One round of the loop over the levels, seen from an entry that leads on.
abbrev pub Enters : Bool → ℕ → ℕ → Memory → Walked → Type 0
Enters last table i m (reached t' m') = (e : ℕ) × (t' ≡ frame e) × IsLinked last table i m e m'
Enters last table i m (stopped status m') = status ≢ success

Enters-frame :
    (last : Bool) (table i : ℕ) (m : Memory) (w : Walked)
    → Leaves last table i m w
    → Enters last table i m (go_on (λ e m'. reached (frame e) m') w)
unfolding go_on
Enters-frame last table i m (reached e m') k = (e, refl, k)
Enters-frame last table i m (stopped status m') k = k

-- Where no entry was, the round makes a table.
enter_missing :
    (virtual table i : ℕ) (m : Memory) (last : Bool)
    → has (m.words table i) pte_present ≡ false
    → go_on
        (create_missing true virtual table i)
        (go_on (sanitize true virtual table i) (split_large true virtual last table i m))
      ≡ link_table (is_user_address virtual) table i (fresh_frame (λ j. 0) m)
unfolding split_large sanitize create_missing go_on
enter_missing virtual table i m last p = rw (p, p, p) refl

-- A round of a walk that makes what is missing stops, or leaves an entry that leads on.
pub enter-Enters :
    (virtual table i : ℕ) (m : Memory) (last : Bool)
    → IsSane m.pages
    → IsAllocated table m
    → Enters last table i m (enter true virtual last table i m)
unfolding enter
enter-Enters virtual table i m last s t =
    Enters-frame last table i m _ (elim (Bool-cases (has (m.words table i) pte_present)) [
      | inl p ↦ go_on-Leaves last table i m _ (create_missing-Leaves virtual table i m s t last) _ (
          go_on-Leaves last table i m _ (sanitize-Leaves virtual table i m s t last) _
            (split_large-Leaves virtual table i m s t last p))
      | inr p ↦
          subst (Leaves last table i m) (sym (enter_missing virtual table i m last p))
            (link_table-Leaves last table i (λ j. 0) m (is_user_address virtual) s t (λ h j. refl))
    ])
