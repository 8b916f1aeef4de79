-- ===== src/Ob/Refused.antt =====
-- A handle is of no use for a right that it was not given.
use ntx_preview.Base.{
  ℕ, ◌-◌, ◌^◌, ◌<◌, ◌≡◌, ◌≢◌, refl, ap, ◌∙◌, sym, update_self, true, Option, none, some, arith,
  success, inl, inr, bit_and, access_denied,
}
use ntx_preview.Ob.{
  Ob, max_handles, reference_by_handle, reference_entry, insert_handle, with_handle,
}
use ntx_preview.Base.Bits.{bit, bit-bit_and}
use ntx_preview.Ob.Cases.{insert_handle-cases}
use ntx_preview.Ob.Handles.{Distinct, reference_by_handle-entry, with_handle-Distinct}

-- A digit that is desired and not granted makes the test of the rights fail.
desired-refused :
    (granted desired k : ℕ)
    → bit granted k ≡ 0
    → bit desired k ≡ 1
    → bit_and granted desired ≢ desired
desired-refused granted desired k g d e =
    absurd (omega (arith, ap (λ (x : ℕ). bit x k) e, bit-bit_and granted desired k, g, d))

with_handle-refused :
    (ob : Ob) (i o granted desired : ℕ) (expected : Option ℕ)
    → Distinct ob
    → ob.next_handle < 2 ^ 32 - 4
    → i < max_handles
    → bit_and granted desired ≢ desired
    → let ob' = with_handle i o granted ob in
      reference_by_handle true ob.next_handle desired expected true ob' ≡ (access_denied, none, ob')
unfolding reference_entry
with_handle-refused ob i o granted desired expected inv small l more =
    let ob' = with_handle i o granted ob in
    reference_by_handle-entry ob' i desired expected
      (record {
        handle_value = ob.next_handle;
        object = some o;
        granted_access = granted;
        in_use = true;
      })
      (with_handle-Distinct ob inv i o granted l small) l (update_self ob.entries i _) refl
    ∙ ground (arith, more)

-- In a table of different handle values whose counter is not about to wrap, a handle that
-- `ObInsertHandle` returns is of no use for a right that it was not given: a call of
-- `ObReferenceObjectByHandle` that desires it, with whatever other rights and type, is refused with
-- KSTATUS_ACCESS_DENIED, and no object gets a reference.
pub insert_handle-refused :
    (ob ob' : Ob) (o granted desired h k : ℕ) (expected : Option ℕ)
    → Distinct ob
    → ob.next_handle < 2 ^ 32 - 4
    → insert_handle true (some o) granted true ob ≡ (success, some h, ob')
    → bit granted k ≡ 0
    → bit desired k ≡ 1
    → reference_by_handle true h desired expected true ob' ≡ (access_denied, none, ob')
insert_handle-refused ob ob' o granted desired h k expected inv small ran g d =
    elim (insert_handle-cases ob true o granted true) [
      | inl (s, failed, e) ↦ absurd (cc (ap (λ r. r.0) (sym ran ∙ e)))
      | inr (i, l, _, _, _, e) ↦
          let same : some h ≡ some ob.next_handle = ap (λ r. r.1) (sym ran ∙ e) in
          let number : h ≡ ob.next_handle = cc in
          let state : ob' ≡ with_handle i o granted ob = ap (λ r. r.2) (sym ran ∙ e) in
          rw (number, state)
            (with_handle-refused ob i o granted desired expected inv small l
              (desired-refused granted desired k g d))
    ]
