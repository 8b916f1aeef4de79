-- ===== src/Ob/Handles.antt =====
-- Handle values: while the 32-bit counter has not gone round, no two handles in use are equal, so a
-- handle finds its own entry, and a closed one finds none.
use ntx_preview.Base.{
  ℕ, ◌-◌, ◌^◌, ◌<◌, ◌≡◌, ◌≢◌, refl, ap, ◌∙◌, sym, subst, update_self, =?_refl, Bool, true, false,
  not, ◌||◌, Option, none, some, arith, update, ◌==◌, success, Option-cases, inl, inr,
  first_index-eq, bit_and, ◌⊎◌,
}
use ntx_preview.Ob.{
  Ob, Entry, Routine, max_handles, initialize, reference_by_handle, reference_entry,
  find_handle_entry, retain, insert_handle, with_handle, is_entry_of, close_handle, cleared_entry,
}
use ntx_preview.Ob.Cases.{insert_handle-cases}
use ntx_preview.Ob.Release.{
  find_handle_entry-some, entries-dereference, next_handle-dereference, ready-dereference,
}

pub record Distinct (ob : Ob) : Type 0 where
  pub ready : ob.ready ≡ true
  pub positive : 0 < ob.next_handle
  pub below :
      (i : ℕ)
      → i < max_handles
      → (ob.entries i).in_use ≡ true
      → (0 < (ob.entries i).handle_value) × ((ob.entries i).handle_value < ob.next_handle)
  pub unique :
      (i j : ℕ)
      → i < max_handles
      → j < max_handles
      → (ob.entries i).in_use ≡ true
      → (ob.entries j).in_use ≡ true
      → (ob.entries i).handle_value ≡ (ob.entries j).handle_value
      → i ≡ j

pub initialize-Distinct : (ob : Ob) → ob.ready ≡ false → Distinct (initialize ob).1
unfolding initialize
initialize-Distinct ob h = rw h (record {
  ready = refl;
  positive = omega arith;
  below = λ i l u. cc;
  unique = λ i j l m u v e. cc;
})

module _ (ob : Ob) (inv : Distinct ob) where
  pub with_handle-Distinct :
      (i o granted : ℕ)
      → i < max_handles
      → ob.next_handle < 2 ^ 32 - 4
      → Distinct (with_handle i o granted ob)
  with_handle-Distinct i o granted l small = record {
    ready = inv.ready;
    positive = omega arith;
    below = λ j m u. ground (arith, inv.positive, inv.below j m);
    unique = λ j k m n u v e. ground (arith, inv.below j m, inv.below k n, inv.unique j k m n);
  }

  -- A new handle differs from every handle in use.
  pub insert_handle-Distinct :
      (table out : Bool) (o granted : ℕ)
      → ob.next_handle < 2 ^ 32 - 4
      → Distinct (insert_handle table (some o) granted out ob).2
  insert_handle-Distinct table out o granted small =
      elim (insert_handle-cases ob table o granted out) [
        | inl (s, _, e) ↦ rw e inv
        | inr (i, l, _, _, _, e) ↦ rw e (with_handle-Distinct i o granted l small)
      ]

  -- The search finds entry `i` by its handle.
  pub find_handle_entry-own :
      (i : ℕ)
      → i < max_handles
      → (ob.entries i).in_use ≡ true
      → find_handle_entry (ob.entries i).handle_value ob ≡ some i
  unfolding find_handle_entry
  find_handle_entry-own i l u =
      first_index-eq (λ j. is_entry_of (ob.entries i).handle_value (ob.entries j)) max_handles i
        (l, ground arith, λ j m. ground (arith, inv.unique j i (omega arith) l))

  -- A handle in use leads to its own entry, whose rights and type decide.
  pub reference_by_handle-own :
      (i desired : ℕ) (expected : Option ℕ)
      → i < max_handles
      → (ob.entries i).in_use ≡ true
      → reference_by_handle true (ob.entries i).handle_value desired expected true ob
        ≡ reference_entry (ob.entries i) desired expected ob
  unfolding reference_by_handle
  reference_by_handle-own i desired expected l u =
      ground (arith, inv.ready, inv.below i l, find_handle_entry-own i l u)

-- The same for an entry that is written out.
pub reference_by_handle-entry :
    (ob : Ob) (i desired : ℕ) (expected : Option ℕ) (e : Entry)
    → Distinct ob
    → i < max_handles
    → ob.entries i ≡ e
    → e.in_use ≡ true
    → reference_by_handle true e.handle_value desired expected true ob
      ≡ reference_entry e desired expected ob
reference_by_handle-entry ob i desired expected e inv l at u =
    subst
      (λ (e : Entry).
        reference_by_handle true e.handle_value desired expected true ob
        ≡ reference_entry e desired expected ob)
      at (reference_by_handle-own ob inv i desired expected l (rw at u))

with_handle-reference :
    (ob : Ob) (i o granted desired : ℕ) (expected : Option ℕ)
    → Distinct ob
    → ob.next_handle < 2 ^ 32 - 4
    → i < max_handles
    → bit_and granted desired ≡ desired
    → (expected ≡ none) ⊎ (expected ≡ (ob.object_pool o).type)
    → let ob' = with_handle i o granted ob in
      reference_by_handle true ob.next_handle desired expected true ob'
      ≡ (success, some o, record ob' { object_pool = retain o ob'.object_pool })
unfolding reference_entry
with_handle-reference ob i o granted desired expected inv small l part typed =
    let ob' = with_handle i o granted ob in
    reference_by_handle-entry ob' i desired expected
      (record {
        handle_value = ob.next_handle;
        object = some o;
        granted_access = granted;
        in_use = true;
      })
      (with_handle-Distinct ob inv i o granted l small) l (update_self ob.entries i _) refl
    ∙ ground (arith, part, typed, =?_refl (ob.object_pool o).type)

-- In a table of different handle values whose counter is not about to wrap, a handle that
-- `ObInsertHandle` returns leads back to the object, for every part of the rights
-- that it was given and for the object's own type or any: the object gets one more reference.
pub insert_handle-reference :
    (ob ob' : Ob) (o granted desired h : ℕ) (expected : Option ℕ)
    → Distinct ob
    → ob.next_handle < 2 ^ 32 - 4
    → insert_handle true (some o) granted true ob ≡ (success, some h, ob')
    → bit_and granted desired ≡ desired
    → (expected ≡ none) ⊎ (expected ≡ (ob.object_pool o).type)
    → reference_by_handle true h desired expected true ob'
      ≡ (success, some o, record ob' { object_pool = retain o ob'.object_pool })
insert_handle-reference ob ob' o granted desired h expected inv small ran part typed =
    elim (insert_handle-cases ob true o granted true) [
      | inl (s, failed, e) ↦ absurd (cc (ap (λ r. r.0) (sym ran ∙ e)))
      | inr (i, l, _, _, _, e) ↦
          let same : some h ≡ some ob.next_handle = ap (λ r. r.1) (sym ran ∙ e) in
          let number : h ≡ ob.next_handle = cc in
          let state : ob' ≡ with_handle i o granted ob = ap (λ r. r.2) (sym ran ∙ e) in
          rw (number, state)
            (with_handle-reference ob i o granted desired expected inv small l part typed)
    ]

-- With its entry cleared, a handle is found no more.
cleared-gone :
    (ob ob' : Ob) (i : ℕ)
    → Distinct ob
    → i < max_handles
    → (ob.entries i).in_use ≡ true
    → ob'.entries ≡ update ob.entries i cleared_entry
    → find_handle_entry (ob.entries i).handle_value ob' ≡ none
cleared-gone ob ob' i inv l u e =
    elim (Option-cases (find_handle_entry (ob.entries i).handle_value ob')) [
      | inl missing ↦ missing
      | inr (j, at) ↦
          let (m, v, same) = find_handle_entry-some (ob.entries i).handle_value j ob' at in
          let entry : ob'.entries j ≡ update ob.entries i cleared_entry j = rw e refl in
          absurd (ground (arith, entry, v, same, inv.unique j i m l))
    ]

cleared-Distinct :
    (ob ob' : Ob) (i : ℕ)
    → Distinct ob
    → ob'.entries ≡ update ob.entries i cleared_entry
    → ob'.next_handle ≡ ob.next_handle
    → ob'.ready ≡ ob.ready
    → Distinct ob'
cleared-Distinct ob ob' i inv e next on = record {
  ready = on ∙ inv.ready;
  positive = rw next inv.positive;
  below = λ j m.
      let entry : ob'.entries j ≡ update ob.entries i cleared_entry j = rw e refl in
      λ u. ground (arith, entry, inv.below j m, next);
  unique = λ j k m n u v same.
      let at_j : ob'.entries j ≡ update ob.entries i cleared_entry j = rw e refl in
      let at_k : ob'.entries k ≡ update ob.entries i cleared_entry k = rw e refl in
      ground (arith, at_j, at_k, inv.unique j k m n);
}

module _ {W : Type 0} (call : Routine → ℕ → W → W) where
  -- The handle table's part of the state after a close.
  close_handle-table :
      (ob : Ob) (w : W) (i : ℕ)
      → Distinct ob
      → i < max_handles
      → (ob.entries i).in_use ≡ true
      → let ob' = (close_handle call true (ob.entries i).handle_value ob w).1 in
        (ob'.entries ≡ update ob.entries i cleared_entry)
        × (ob'.next_handle ≡ ob.next_handle)
        × (ob'.ready ≡ ob.ready)
  unfolding close_handle
  close_handle-table ob w i inv l u =
      let guard : (not ob.ready || not true || (ob.entries i).handle_value == 0) ≡ false =
        ground (arith, inv.ready, inv.below i l u) in
      rw (guard, find_handle_entry-own ob inv i l u)
        (
          rw (entries-dereference call (ob.entries i).object ob w) refl,
          next_handle-dereference call (ob.entries i).object ob w,
          ready-dereference call (ob.entries i).object ob w,
        )

  -- In a table of different handle values, after `ObCloseHandle` on a handle in use the handle is
  -- not found, every other entry of the table is as it was, and handle values still differ.
  pub close_handle-gone :
      (ob : Ob) (w : W) (i : ℕ)
      → Distinct ob
      → i < max_handles
      → (ob.entries i).in_use ≡ true
      → let ob' = (close_handle call true (ob.entries i).handle_value ob w).1 in
        (find_handle_entry (ob.entries i).handle_value ob' ≡ none)
        × ((j : ℕ) → j ≢ i → ob'.entries j ≡ ob.entries j)
        × Distinct ob'
  close_handle-gone ob w i inv l u =
      let (e, next, on) = close_handle-table ob w i inv l u in
      let ob' = (close_handle call true (ob.entries i).handle_value ob w).1 in
      (
        cleared-gone ob ob' i inv l u e,
        λ j ne. rw e (ground arith),
        cleared-Distinct ob ob' i inv e next on,
      )
