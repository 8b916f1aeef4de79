-- ===== src/Ob/Last.antt =====
-- Giving back the references of an object, one after another.
use ntx_preview.Base.{
  ℕ, zero, suc, ◌<◌, ◌≡◌, ◌≢◌, refl, ◌∙◌, true, false, some, arith, invalid_parameter,
}
use ntx_preview.Ob.{Ob, Routine, max_objects, dereference, release, run_routine, routine_of}
use ntx_preview.Ob.Invariant.{vacated}
use ntx_preview.Ob.Release.{dereference-shared, dereference-last}

module _ {W : Type 0} (call : Routine → ℕ → W → W) where
  -- ObDereferenceObject, a number of times.
  unfoldable pub give_back : ℕ → ℕ → Ob → W → Ob × W
  give_back zero o ob w = (ob, w)
  give_back (suc k) o ob w =
      let (_, ob', w') = dereference call (some o) ob w in give_back k o ob' w'

  -- The object is gone: its slot is free, one more call on it is refused and changes nothing, and
  -- every other slot is as it was.
  abbrev pub Gone : ℕ → Ob → Ob × W → Type 0
  Gone o ob (ob', w') =
      (ob'.object_in_use o ≡ false)
      × (dereference call (some o) ob' w' ≡ (invalid_parameter, ob', w'))
      × ((j : ℕ) → j ≢ o → ob'.object_in_use j ≡ ob.object_in_use j)
      × ((j : ℕ) → j ≢ o → ob'.object_pool j ≡ ob.object_pool j)

  dereference-none :
      (o : ℕ) (ob : Ob) (w : W)
      → (ob.object_pool o).ref_count ≡ 0
      → dereference call (some o) ob w ≡ (invalid_parameter, ob, w)
  unfolding dereference
  dereference-none o ob w z = ground (arith, z)

  run_routine-call :
      (o t : ℕ) (r : Routine) (ob : Ob) (w : W)
      → (ob.object_pool o).type ≡ some t
      → (ob.type_pool t).delete_routine ≡ some r
      → run_routine call o ob w ≡ call r o w
  unfolding run_routine routine_of
  run_routine-call o t r ob w type routine = ground (arith, type, routine)

  -- All references but one are given back without a call of a delete routine; with the last one the
  -- delete routine of the object's type is called, once, and the object is gone.
  pub give_back-Gone :
      (n o t : ℕ) (r : Routine) (ob : Ob) (w : W)
      → ob.ready ≡ true
      → o < max_objects
      → (ob.object_pool o).ref_count ≡ suc n
      → (ob.object_pool o).type ≡ some t
      → (ob.type_pool t).delete_routine ≡ some r
      → ((give_back n o ob w).1 ≡ w)
        × ((give_back (suc n) o ob w).1 ≡ call r o w)
        × Gone o ob (give_back (suc n) o ob w)
  unfolding give_back
  give_back-Gone zero o t r ob w on l count type routine =
      let (object, e, zero_left) = dereference-last call o ob w on l count in
      let less = record ob { object_pool = release o ob.object_pool } in
      let gone = vacated o object less in
      let ran = run_routine-call o t r less w (ground (arith, type)) routine in
      rw e (
        refl,
        ran,
        (
          ground arith,
          dereference-none o gone (run_routine call o less w) (ground (arith, zero_left)),
          λ j ne. ground (arith, ne),
          λ j ne. ground (arith, ne),
        ),
      )
  give_back-Gone (suc n) o t r ob w on l count type routine =
      let less = record ob { object_pool = release o ob.object_pool } in
      let shared = dereference-shared call o ob w on (omega (arith, count)) in
      let (before, after, (free, refused, slots, pool)) =
        give_back-Gone n o t r less w on l (ground (arith, count)) (ground (arith, type)) routine in
      rw (shared, give_back)
        (before, after, (free, refused, slots, λ j ne. pool j ne ∙ ground (arith, ne)))
