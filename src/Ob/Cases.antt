-- ===== src/Ob/Cases.antt =====
-- The two outcomes of each operation that hands something out: a failure that changes nothing, or
-- a success whose new state is written down.
use ntx_preview.Base.{
  ℕ, ◌+◌, ◌%◌, ◌^◌, ◌<◌, ◌≡◌, ◌⊎◌, refl, Bool, true, false, not, ◌&&◌, ◌||◌, Option, none, some,
  List, arith, update, ◌==◌, ◌!=◌, ◌=?◌, Status, success, Bool-cases, Option-cases, inl, inr,
  first_index, first_index-some, bit_and, is_some, succeeded, invalid_parameter, init_failed,
  not_found, access_denied,
}
use ntx_preview.Ob.{
  Ob, Object, max_objects, max_handles, create_object, new_object, reference_by_handle,
  reference_entry, find_handle_entry, copy_name, name_bytes, retain, insert_handle, with_handle,
}

-- Copying a text into a name of 32 bytes does not fail.
pub copy_name-success :
    (dst : ℕ → ℕ) (text : List ℕ) → (copy_name dst name_bytes (some text)).0 ≡ success
unfolding copy_name
copy_name-success dst text = refl

-- The state after `ObCreateObject` puts `object` into slot `o`.
abbrev pub occupied : ℕ → Object → Ob → Ob
occupied o object ob = record ob {
  object_pool = update ob.object_pool o object;
  next_object_id = (ob.next_object_id + 1) % 2 ^ 64;
  object_in_use = update ob.object_in_use o true;
}

-- A call that fails reports it, hands out nothing and leaves the state as it was.
abbrev pub Failed : Ob → Status × Option ℕ × Ob → Type 0
Failed ob result = (s : Status) × (succeeded s ≡ false) × (result ≡ (s, none, ob))

-- What a call of `ObCreateObject` that succeeds does.
abbrev pub Created : ℕ → List ℕ → ℕ → ℕ → Ob → Status × Option ℕ × Ob → Type 0
Created type name mask flags ob result =
    (i : ℕ) × (i < max_objects)
    × (ob.object_in_use i ≡ false)
    × (result ≡ (
      success,
      some i,
      occupied i
          (new_object ob.next_object_id type mask flags
            (copy_name (ob.object_pool i).name name_bytes (some name)).1)
          ob,
    ))

module _ (ob : Ob) where
  pub create_object-cases :
      (type : ℕ) (name : List ℕ) (mask flags : ℕ) (out : Bool)
      → let result = create_object (some type) (some name) mask flags out ob in
        Failed ob result ⊎ Created type name mask flags ob result
  unfolding create_object
  create_object-cases type name mask flags out =
      elim (Bool-cases (not ob.ready || false || not out)) [
        | inl bad ↦ inl (invalid_parameter, refl, rw bad)
        | inr good ↦ elim (Option-cases (first_index (λ i. not (ob.object_in_use i)) max_objects)) [
          | inl full ↦ inl (init_failed, refl, rw (good, full))
          | inr (i, at) ↦
              let first = first_index-some (λ j. not (ob.object_in_use j)) max_objects i at in
              inr (
                i,
                first.0,
                ground (arith, first.1),
                rw (good, at, copy_name-success (ob.object_pool i).name name),
              )
        ]
      ]

  -- What a call of `ObReferenceObjectByHandle` that succeeds has checked, and does.
  abbrev pub Referenced : ℕ → ℕ → Option ℕ → Status × Option ℕ × Ob → Type 0
  Referenced handle desired expected result =
      (i : ℕ) × (o : ℕ) × (find_handle_entry handle ob ≡ some i)
      × ((ob.entries i).object ≡ some o)
      × (bit_and (ob.entries i).granted_access desired ≡ desired)
      × ((is_some expected && not ((ob.object_pool o).type =? expected)) ≡ false)
      × (result ≡ (success, some o, record ob { object_pool = retain o ob.object_pool }))

  pub reference_by_handle-cases :
      (table : Bool) (handle desired : ℕ) (expected : Option ℕ) (out : Bool)
      → let result = reference_by_handle table handle desired expected out ob in
        Failed ob result ⊎ Referenced handle desired expected result
  unfolding reference_by_handle reference_entry
  reference_by_handle-cases table handle desired expected out =
      elim (Bool-cases (not ob.ready || not table || not out || handle == 0)) [
        | inl bad ↦ inl (invalid_parameter, refl, rw bad)
        | inr good ↦ elim (Option-cases (find_handle_entry handle ob)) [
          | inl missing ↦ inl (not_found, refl, rw (good, missing))
          | inr (i, at) ↦
              elim (Bool-cases (bit_and (ob.entries i).granted_access desired != desired)) [
                | inl denied ↦ inl (access_denied, refl, rw (good, at, denied))
                | inr granted ↦ elim (Option-cases (ob.entries i).object) [
                  | inl null ↦ inl (not_found, refl, rw (good, at, granted, null))
                  | inr (o, named) ↦
                      let other = is_some expected && not ((ob.object_pool o).type =? expected) in
                      elim (Bool-cases other) [
                        | inl bad ↦ inl (not_found, refl, rw (good, at, granted, named, bad))
                        | inr typed ↦ inr (
                          i,
                          o,
                          at,
                          named,
                          ground arith,
                          typed,
                          rw (good, at, granted, named, typed),
                        )
                      ]
                ]
              ]
        ]
      ]

  -- What a call of `ObInsertHandle` that succeeds has checked, and does.
  abbrev pub Inserted : ℕ → ℕ → Status × Option ℕ × Ob → Type 0
  Inserted o granted result =
      (i : ℕ) × (i < max_handles)
      × ((ob.entries i).in_use ≡ false)
      × ((j : ℕ) → j < i → (ob.entries j).in_use ≡ true)
      × (bit_and granted (ob.object_pool o).default_access_mask ≡ granted)
      × (result ≡ (success, some ob.next_handle, with_handle i o granted ob))

  pub insert_handle-cases :
      (table : Bool) (o granted : ℕ) (out : Bool)
      → let result = insert_handle table (some o) granted out ob in
        Failed ob result ⊎ Inserted o granted result
  unfolding insert_handle
  insert_handle-cases table o granted out =
      elim (Bool-cases (not ob.ready || not table || not out)) [
        | inl bad ↦ inl (invalid_parameter, refl, rw bad)
        | inr good ↦
            elim (Bool-cases (bit_and granted (ob.object_pool o).default_access_mask != granted)) [
              | inl denied ↦ inl (access_denied, refl, rw (good, denied))
              | inr within ↦
                  elim (Option-cases (first_index (λ i. not (ob.entries i).in_use) max_handles)) [
                    | inl full ↦ inl (init_failed, refl, rw (good, within, full))
                    | inr (i, at) ↦
                        let first = first_index-some (λ j. not (ob.entries j).in_use) _ i at in
                        inr (
                          i,
                          first.0,
                          ground (arith, first.1),
                          λ j l. ground (arith, first.2 j l),
                          ground arith,
                          rw (good, within, at),
                        )
                  ]
            ]
      ]
