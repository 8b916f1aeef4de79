-- ===== src/Ob/Release.antt =====
-- Giving references back: `ObDereferenceObject` and `ObCloseHandle` keep the invariant.
use ntx_preview.Base.{
  ℕ, ◌+◌, ◌-◌, ◌<◌, ◌≡◌, refl, ap, Bool, true, false, not, ◌||◌, fun_ext, Option, none, some, arith,
  update, ◌==◌, success, Bool-cases, Option-cases, inl, inr, first_index-eq, first_index-some,
  update-update, subst,
}
use native.Mathlib.Decide.{dec_lt}
use ntx_preview.Ob.{
  Ob, Entry, Object, Routine, max_objects, max_handles, dereference, close_handle, cleared_entry,
  find_handle_entry, is_entry_of, release, free_slot, run_routine,
}
use ntx_preview.Ob.Count.{holders-update}
use ntx_preview.Ob.Invariant.{
  Held, Counted, Counted-live, EntryNamed-keep, release-Counted, vacate-Counted, vacated,
}

-- What `ObDereferenceObject` leaves of a freed object.
abbrev wiped : Object → Object
wiped object = record object {
  type = none;
  flags = 0;
  default_access_mask = 0;
  signaled = false;
  name = update object.name 0 0;
}

pub free_slot-eq :
    (o : ℕ) (ob : Ob)
    → o < max_objects
    → free_slot o ob ≡ (success, vacated o (wiped (ob.object_pool o)) ob)
unfolding free_slot
free_slot-eq o ob l =
    rw
      (first_index-eq (λ i. i == o) max_objects o (l, ground arith, λ j h. ground arith), free_slot)

module _ {W : Type 0} (call : Routine → ℕ → W → W) where
  -- On a live object with more than one reference the count goes down and nothing else happens.
  pub dereference-shared :
      (o : ℕ) (ob : Ob) (w : W)
      → ob.ready ≡ true
      → 1 < (ob.object_pool o).ref_count
      → dereference call (some o) ob w
        ≡ (success, record ob { object_pool = release o ob.object_pool }, w)
  unfolding dereference
  dereference-shared o ob w r more = ground arith

  -- Dereferencing an object of the pool by its last reference calls the type's delete routine once
  -- and gives the slot back.
  pub dereference-last :
      (o : ℕ) (ob : Ob) (w : W)
      → ob.ready ≡ true
      → o < max_objects
      → (ob.object_pool o).ref_count ≡ 1
      → (object : Object) × (dereference call (some o) ob w ≡ (
        success,
        vacated o object (record ob { object_pool = release o ob.object_pool }),
        run_routine call o (record ob { object_pool = release o ob.object_pool }) w,
      ))
        × (object.ref_count ≡ 0)
  unfolding dereference
  dereference-last o ob w r l one = (
    wiped ((release o ob.object_pool) o),
    ground (arith, free_slot-eq o (record ob { object_pool = release o ob.object_pool }) l),
    ground arith,
  )

  -- `ObDereferenceObject` on a reference that the caller holds takes exactly that reference away.
  pub dereference-Counted :
      (held : Held) (o : ℕ) (ob : Ob) (w : W)
      → Counted held ob
      → ob.ready ≡ true
      → o < max_objects
      → ob.object_in_use o ≡ true
      → 0 < held o
      → Counted (update held o (held o - 1)) (dereference call (some o) ob w).1
  dereference-Counted held o ob w inv on l live mine =
      elim (dec_lt 1 (ob.object_pool o).ref_count) [
        | yes more ↦
            rw (dereference-shared o ob w on more) (release-Counted held ob inv o more mine)
        | no last ↦
            let slot = inv.slots o l in
            let (object, e, _) = dereference-last o ob w on l (ground (arith, slot, live)) in
            let none_left : held o - 1 ≡ 0 = ground (arith, slot, live) in
            let less = record (ob.object_pool o) { ref_count = (ob.object_pool o).ref_count - 1 } in
            rw (e, update-update ob.object_pool o less object, none_left)
              (vacate-Counted held ob inv o object (ground (arith, slot, live)))
      ]

  -- The handle table plays no part in giving a reference back.
  dereference-entries :
      (o : ℕ) (ob : Ob) (w : W) (entries : ℕ → Entry)
      → dereference call (some o) (record ob { entries = entries }) w ≡ (
          let (status, ob', w') = dereference call (some o) ob w in
          (status, record ob' { entries = entries }, w'))
  unfolding dereference
  dereference-entries o ob w entries = ground arith

  pub entries-dereference :
      (o : Option ℕ) (ob : Ob) (w : W) → (dereference call o ob w).1.entries ≡ ob.entries
  unfolding dereference
  entries-dereference none ob w = refl
  entries-dereference (some o) ob w = ground arith

  pub next_handle-dereference :
      (o : Option ℕ) (ob : Ob) (w : W) → (dereference call o ob w).1.next_handle ≡ ob.next_handle
  unfolding dereference free_slot
  next_handle-dereference none ob w = refl
  next_handle-dereference (some o) ob w = ground arith

  pub ready-dereference :
      (o : Option ℕ) (ob : Ob) (w : W) → (dereference call o ob w).1.ready ≡ ob.ready
  unfolding dereference free_slot
  ready-dereference none ob w = refl
  ready-dereference (some o) ob w = ground arith

-- Taking an entry out of use turns its reference into one that is held.
clear-Counted :
    (held : Held) (ob : Ob) (i o : ℕ)
    → Counted held ob
    → i < max_handles
    → (ob.entries i).in_use ≡ true
    → (ob.entries i).object ≡ some o
    → ob.object_in_use o ≡ true
    → Counted
        (update held o (held o + 1))
        (record ob { entries = update ob.entries i cleared_entry })
clear-Counted held ob i o inv l u named live = record {
  slots = λ q below.
      ground (arith, inv.slots q below, holders-update q max_handles i ob.entries cleared_entry l);
  named = λ j at. elim (Bool-cases (i == j)) [
    | inl e ↦ λ u'. cc (rw e at u')
    | inr ne ↦
        EntryNamed-keep ob (record ob { entries = update ob.entries i cleared_entry }) j
          (rw ne refl) (λ o u named. refl) (inv.named j at)
  ];
}

-- The entry that the search finds is in use, and carries the handle.
pub find_handle_entry-some :
    (handle i : ℕ) (ob : Ob)
    → find_handle_entry handle ob ≡ some i
    → (i < max_handles) × ((ob.entries i).in_use ≡ true) × ((ob.entries i).handle_value ≡ handle)
unfolding find_handle_entry
find_handle_entry-some handle i ob e =
    let first = first_index-some (λ j. is_entry_of handle (ob.entries j)) max_handles i e in
    (first.0, ground (arith, first.1), ground (arith, first.1))

module _ {W : Type 0} (call : Routine → ℕ → W → W) where
  -- Closing entry `i` is giving back its object with the entry out of the table.
  close-entry :
      (held : Held) (i : ℕ) (ob : Ob) (w : W)
      → Counted held ob
      → ob.ready ≡ true
      → i < max_handles
      → (ob.entries i).in_use ≡ true
      → Counted held (
          let (_, ob', _) = dereference call (ob.entries i).object ob w in
          record ob' { entries = update ob'.entries i cleared_entry })
  close-entry held i ob w inv on l u =
      let (o, at, below, _) = inv.named i l u in
      let entries = update ob.entries i cleared_entry in
      let live = Counted-live held ob inv i o l u at below in
      let back : update (update held o (held o + 1)) o (held o + 1 - 1) ≡ held =
        fun_ext λ q. ground arith in
      let mine : update held o (held o + 1) o ≡ held o + 1 = ground arith in
      let same = ap (λ r. r.1) (dereference-entries call o ob w entries) in
      let kept =
        dereference-Counted call (update held o (held o + 1)) o (record ob { entries = entries }) w
          (clear-Counted held ob i o inv l u at live) on below live (omega (arith, mine)) in
      rw (at, entries-dereference call (some o) ob w)
        (subst (Counted held) same (
          subst (λ h. Counted h (dereference call (some o) (record ob { entries = entries }) w).1)
            back (rw mine at kept)))

  -- `ObCloseHandle` keeps the invariant on every branch, and no held reference is touched.
  pub close_handle-Counted :
      (held : Held) (table : Bool) (handle : ℕ) (ob : Ob) (w : W)
      → Counted held ob
      → Counted held (close_handle call table handle ob w).1
  unfolding close_handle
  close_handle-Counted held table handle ob w inv =
      elim (Bool-cases (not ob.ready || not table || handle == 0)) [
        | inl bad ↦ rw bad inv
        | inr good ↦ elim (Option-cases (find_handle_entry handle ob)) [
          | inl missing ↦ rw (good, missing) inv
          | inr (i, at) ↦
              let found = find_handle_entry-some handle i ob at in
              rw (good, at) (close-entry held i ob w inv (ground arith) found.0 found.1)
        ]
      ]
