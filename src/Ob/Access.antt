-- ===== src/Ob/Access.antt =====
-- Rights: what a handle can be used for is part of what it grants, and that of the object's mask.
use ntx_preview.Base.{
  ℕ, ◌≡◌, ◌⊎◌, ◌∙◌, refl, ap, sym, Bool, true, false, not, ◌&&◌, Option, none, some, is_some, ◌=?◌,
  =?_eq, success, inl, inr, arith,
}
use ntx_preview.Base.Bits.{Subset, bit_and-eq_iff, bit_and-eq_left_iff}
use ntx_preview.Ob.{Ob, reference_by_handle}
use ntx_preview.Ob.Cases.{reference_by_handle-cases}
use ntx_preview.Ob.Invariant.{Held, Counted, Counted-live}
use ntx_preview.Ob.Release.{find_handle_entry-some}

-- What a reference is handed out for: an object that is live, of the expected type if there is one,
-- and rights that are all, digit by digit, in the object's default mask.
abbrev pub Allowed : Ob → ℕ → ℕ → Option ℕ → Type 0
Allowed ob o desired expected =
    (ob.object_in_use o ≡ true)
    × ((expected ≡ none) ⊎ (expected ≡ (ob.object_pool o).type))
    × Subset desired (ob.object_pool o).default_access_mask

expected-cases :
    (type expected : Option ℕ)
    → (is_some expected && not (type =? expected)) ≡ false
    → (expected ≡ none) ⊎ (expected ≡ type)
expected-cases type none h = inl refl
expected-cases type (some t) h = inr (sym (=?_eq type (some t) (ground (arith, h))))

-- In a state of the invariant.
pub reference_by_handle-Allowed :
    (held : Held) (ob ob' : Ob) (table out : Bool) (handle desired o : ℕ) (expected : Option ℕ)
    → Counted held ob
    → reference_by_handle table handle desired expected out ob ≡ (success, some o, ob')
    → Allowed ob o desired expected
reference_by_handle-Allowed held ob ob' table out handle desired o expected inv ran =
    elim (reference_by_handle-cases ob table handle desired expected out) [
      | inl (s, failed, e) ↦ absurd (cc (ap (λ r. r.0) (sym ran ∙ e)))
      | inr (i, q, at, named, granted, typed, e) ↦
          let found : some o ≡ some q = ap (λ r. r.1) (sym ran ∙ e) in
          let (l, u, _) = find_handle_entry-some handle i ob at in
          let (p, at', below, within) = inv.named i l u in
          let same : p ≡ o = cc in
          let other : q ≡ o = cc in
          let entry = (ob.entries i).granted_access in
          (
            rw (← same) (Counted-live held ob inv i p l u at' below),
            rw (← other) (expected-cases (ob.object_pool q).type expected typed),
            λ k. omega (
              arith,
              (bit_and-eq_iff entry desired).0 granted k,
              (bit_and-eq_left_iff entry (ob.object_pool o).default_access_mask).0
                  (rw (← same) within) k,
            ),
          )
    ]
