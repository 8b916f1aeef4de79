-- ===== src/Ob/Acquire.antt =====
-- Getting references: `ObCreateObject`, `ObCreateType` and `ObReferenceObjectByHandle` keep the
-- invariant.
use ntx_preview.Base.{
  ℕ, ◌+◌, ◌-◌, ◌^◌, ◌<◌, ◌≡◌, ◌≢◌, refl, Bool, false, Option, none, some, List, arith, update, inl,
  inr,
}
use ntx_preview.Ob.{
  Ob, Object, Routine, max_objects, max_handles, create_object, create_type, reference_by_handle,
}
use ntx_preview.Ob.Cases.{create_object-cases, reference_by_handle-cases, occupied}
use ntx_preview.Ob.Count.{holders-pos}
use ntx_preview.Ob.Invariant.{Held, Counted, Counted-live, EntryNamed-keep, retain-Counted}
use ntx_preview.Ob.Release.{find_handle_entry-some}

-- The references held after a call that may hand one out.
abbrev pub received : Held → Option ℕ → Held
received held none = held
received held (some o) = update held o (held o + 1)

module _ (held : Held) (ob : Ob) (inv : Counted held ob) where
  -- A free slot that gets an object with one reference.
  occupied-Counted :
      (o : ℕ) (object : Object)
      → o < max_objects
      → ob.object_in_use o ≡ false
      → object.ref_count ≡ 1
      → Counted (update held o (held o + 1)) (occupied o object ob)
  occupied-Counted o object below vacant one = record {
    slots = λ q l. ground (arith, inv.slots q l);
    named = λ j l.
        EntryNamed-keep ob (occupied o object ob) j refl
          (λ q u at.
            let other : o ≢ q = λ e. absurd (
              ground
                (arith, inv.slots o below, holders-pos o max_handles j ob.entries l u (rw e at))) in
            ground arith)
          (inv.named j l);
  }

  -- `ObCreateObject` keeps the invariant on every branch, and hands out one reference where it
  -- makes an object.
  pub create_object-Counted :
      (type : ℕ) (name : List ℕ) (mask flags : ℕ) (out : Bool)
      → let (_, o, ob') = create_object (some type) (some name) mask flags out ob in
        Counted (received held o) ob'
  create_object-Counted type name mask flags out =
      elim (create_object-cases ob type name mask flags out) [
        | inl (s, _, e) ↦ rw e inv
        | inr (i, below, vacant, e) ↦ rw e (occupied-Counted i _ below vacant refl)
      ]

  -- `ObReferenceObjectByHandle` keeps the invariant on every branch, and hands out one reference
  -- where it succeeds.
  pub reference_by_handle-Counted :
      (table : Bool) (handle desired : ℕ) (expected : Option ℕ) (out : Bool)
      → ((o : ℕ) → o < max_objects → (ob.object_pool o).ref_count < 2 ^ 32 - 1)
      → let (_, o, ob') = reference_by_handle table handle desired expected out ob in
        Counted (received held o) ob'
  reference_by_handle-Counted table handle desired expected out small =
      elim (reference_by_handle-cases ob table handle desired expected out) [
        | inl (s, _, e) ↦ rw e inv
        | inr (i, o, at, named, _, _, e) ↦
            let (l, u, _) = find_handle_entry-some handle i ob at in
            let (o', at', below, _) = inv.named i l u in
            let same : o' ≡ o = cc in
            rw e (
              retain-Counted held ob inv o
                (Counted-live held ob inv i o l u named (rw (← same) below))
                (small o (rw (← same) below)))
      ]

  -- `ObCreateType` touches no object and no handle.
  pub create_type-Counted :
      (name : Option (List ℕ)) (routine : Option Routine) (out : Bool)
      → Counted held (create_type name routine out ob).2
  unfolding create_type
  create_type-Counted name routine out = record {
    slots = λ o l. ground (arith, inv.slots o l);
    named = λ i l.
        EntryNamed-keep ob (create_type name routine out ob).2 i (ground arith)
          (λ o u at. ground arith) (inv.named i l);
  }
