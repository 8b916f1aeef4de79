-- ===== src/Ob/Invariant.antt =====
-- What the object manager keeps true: every handle names a live object, an object's reference
-- count covers the handles on it, and no handle grants more than its object allows.
use ntx_preview.Base.{
  ℕ, ◌+◌, ◌-◌, ◌^◌, ◌<◌, ◌≡◌, ◌≢◌, refl, Bool, true, false, some, arith, update, bit_and, ◌==◌,
  Bool-cases, inl, inr,
}
use ntx_preview.Ob.{
  Ob, Object, max_objects, max_handles, initialize, insert_handle, with_handle, retain, release,
}
use ntx_preview.Ob.Cases.{insert_handle-cases}
use ntx_preview.Ob.Count.{holders, holders-update, holders-pos, holders-cleared}

-- `held o` is the number of references to `o` that code of the kernel has been given, by
-- `ObCreateObject` or `ObReferenceObjectByHandle`, and has not given back.
abbrev pub Held : Type 0
Held = ℕ → ℕ

-- The state of one slot of the object pool: the count of a live object is the number of handles on
-- it and of references held, and nothing refers to a free slot.
abbrev pub SlotCounted : Held → Ob → ℕ → Type 0
SlotCounted held ob o =
    (ob.object_in_use o ≡ true
      → (ob.object_pool o).ref_count ≡ holders o max_handles ob.entries + held o)
    × (ob.object_in_use o ≡ true → 0 < (ob.object_pool o).ref_count)
    × (ob.object_in_use o ≡ false → holders o max_handles ob.entries ≡ 0)
    × (ob.object_in_use o ≡ false → held o ≡ 0)

-- The state of one entry: in use, it names an object of the pool, and what it grants is allowed
-- by the object's default mask.
abbrev pub EntryNamed : Ob → ℕ → Type 0
EntryNamed ob i =
    (ob.entries i).in_use ≡ true
    → (o : ℕ) × ((ob.entries i).object ≡ some o)
      × (o < max_objects)
      × (bit_and (ob.entries i).granted_access (ob.object_pool o).default_access_mask
          ≡ (ob.entries i).granted_access)

pub record Counted (held : Held) (ob : Ob) : Type 0 where
  pub slots : (o : ℕ) → o < max_objects → SlotCounted held ob o
  pub named : (i : ℕ) → i < max_handles → EntryNamed ob i

-- An entry in use refers to a live object.
pub Counted-live :
    (held : Held) (ob : Ob)
    → Counted held ob
    → (i o : ℕ) → i < max_handles
    → (ob.entries i).in_use ≡ true
    → (ob.entries i).object ≡ some o
    → o < max_objects
    → ob.object_in_use o ≡ true
Counted-live held ob inv i o l u at below =
    ground (arith, inv.slots o below, holders-pos o max_handles i ob.entries l u at)

-- An entry that did not change stays named, if its object's mask did not change.
pub EntryNamed-keep :
    (ob ob' : Ob) (i : ℕ)
    → ob'.entries i ≡ ob.entries i
    → ((o : ℕ)
        → (ob.entries i).in_use ≡ true
        → (ob.entries i).object ≡ some o
        → (ob'.object_pool o).default_access_mask ≡ (ob.object_pool o).default_access_mask)
    → EntryNamed ob i
    → EntryNamed ob' i
EntryNamed-keep ob ob' i same mask named u =
    let used : (ob.entries i).in_use ≡ true = cc in
    let (o, at, below, within) = named used in
    (o, rw same at, below, rw (same, mask o used at) within)

-- After `ObInitialize` nothing is live and no handle is in use.
pub initialize-Counted : (ob : Ob) → ob.ready ≡ false → Counted (λ o. 0) (initialize ob).1
unfolding initialize
initialize-Counted ob h =
    rw h
      (record { slots = λ o l. ground (arith, holders-cleared o max_handles); named = λ i l u. cc })

-- The object manager's state after the slot of `o` is given back.
abbrev pub vacated : ℕ → Object → Ob → Ob
vacated o object ob = record ob {
  object_in_use = update ob.object_in_use o false;
  object_pool = update ob.object_pool o object;
}

module _ (held : Held) (ob : Ob) (inv : Counted held ob) where
  with_handle-slots :
      (i o granted q : ℕ)
      → i < max_handles
      → (ob.entries i).in_use ≡ false
      → (ob.object_pool o).ref_count < 2 ^ 32 - 1
      → ob.object_in_use o ≡ true
      → q < max_objects
      → SlotCounted held (with_handle i o granted ob) q
  with_handle-slots i o granted q l unused small live below = ground (
    arith,
    inv.slots q below,
    holders-update q max_handles i ob.entries
        (record {
          handle_value = ob.next_handle;
          object = some o;
          granted_access = granted;
          in_use = true;
        })
        l,
  )

  with_handle-named :
      (i o granted j : ℕ)
      → o < max_objects
      → bit_and granted (ob.object_pool o).default_access_mask ≡ granted
      → j < max_handles
      → EntryNamed (with_handle i o granted ob) j
  with_handle-named i o granted j below within l = elim (Bool-cases (i == j)) [
    | inl e ↦ λ u. (o, rw e refl, below, rw e (ground arith))
    | inr ne ↦
        EntryNamed-keep ob (with_handle i o granted ob) j (rw ne refl) (λ q u at. ground arith)
          (inv.named j l)
  ]

  -- `ObInsertHandle` keeps the invariant on every branch, given a live object whose reference
  -- count is not at the end of its 32 bits.
  pub insert_handle-Counted :
      (table out : Bool) (o granted : ℕ)
      → o < max_objects
      → ob.object_in_use o ≡ true
      → (ob.object_pool o).ref_count < 2 ^ 32 - 1
      → Counted held (insert_handle table (some o) granted out ob).2
  insert_handle-Counted table out o granted below live small =
      elim (insert_handle-cases ob table o granted out) [
        | inl (s, _, e) ↦ rw e inv
        | inr (i, at, free, _, within, e) ↦ rw e (record {
          slots = λ q l. with_handle-slots i o granted q at free small live l;
          named = λ j l. with_handle-named i o granted j below within l;
        })
      ]

  -- One more reference to a live object keeps the invariant.
  pub retain-Counted :
      (o : ℕ)
      → ob.object_in_use o ≡ true
      → (ob.object_pool o).ref_count < 2 ^ 32 - 1
      → Counted (update held o (held o + 1)) (record ob { object_pool = retain o ob.object_pool })
  retain-Counted o live small = record {
    slots = λ q l. ground (arith, inv.slots q l);
    named = λ j l.
        EntryNamed-keep ob (record ob { object_pool = retain o ob.object_pool }) j refl
          (λ q u at. ground arith) (inv.named j l);
  }

  -- One reference less keeps it, where the count stays above zero and above the handles.
  pub release-Counted :
      (o : ℕ)
      → 1 < (ob.object_pool o).ref_count
      → 0 < held o
      → Counted (update held o (held o - 1)) (record ob { object_pool = release o ob.object_pool })
  release-Counted o more spare = record {
    slots = λ q l. ground (arith, inv.slots q l);
    named = λ j l.
        EntryNamed-keep ob (record ob { object_pool = release o ob.object_pool }) j refl
          (λ q u at. ground arith) (inv.named j l);
  }

  -- A slot that nothing refers to can be given back.
  pub vacate-Counted :
      (o : ℕ) (object : Object)
      → holders o max_handles ob.entries ≡ 0
      → Counted (update held o 0) (vacated o object ob)
  vacate-Counted o object none_left = record {
    slots = λ q l. ground (arith, inv.slots q l);
    named = λ j l.
        EntryNamed-keep ob (vacated o object ob) j refl
          (λ q u at.
            let other : o ≢ q = λ e.
              absurd
                (omega (arith, none_left, holders-pos o max_handles j ob.entries l u (rw e at))) in
            ground arith)
          (inv.named j l);
  }
