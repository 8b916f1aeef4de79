-- ===== src/Ob/System.antt =====
-- The object manager under any sequence of calls by code that gives back only what it holds.
use ntx_preview.Base.{ℕ, ◌-◌, ◌^◌, ◌<◌, ◌≡◌, Bool, true, false, Option, some, List, update}
use ntx_preview.Ob.{
  Ob, Routine, max_objects, initialize, create_type, create_object, insert_handle,
  reference_by_handle, dereference, close_handle,
}
use ntx_preview.Ob.Invariant.{Held, Counted, initialize-Counted, insert_handle-Counted}
use ntx_preview.Ob.Acquire.{
  received, create_object-Counted, create_type-Counted, reference_by_handle-Counted,
}
use ntx_preview.Ob.Release.{dereference-Counted, close_handle-Counted}

-- The manager's state, the references that the kernel's code holds, and the rest of the kernel.
pub record State (W : Type 0) : Type 0 where
  pub held : Held
  pub ob : Ob
  pub rest : W

-- No reference count is at the end of its 32 bits.
abbrev pub Small : Ob → Type 0
Small ob = (o : ℕ) → o < max_objects → (ob.object_pool o).ref_count < 2 ^ 32 - 1

module _ {W : Type 0} (call : Routine → ℕ → W → W) where
  pub data Step (s : State W) : State W → Type 0 where
    types :
        (name : Option (List ℕ)) (routine : Option Routine) (out : Bool)
        → Step s (record s { ob = (create_type name routine out s.ob).2 })
    creates :
        (type : ℕ) (name : List ℕ) (mask flags : ℕ) (out : Bool)
        → Step s (
            let (_, o, ob') = create_object (some type) (some name) mask flags out s.ob in
            record s { held = received s.held o; ob = ob' })
    inserts :
        (table out : Bool) (o granted : ℕ)
        → o < max_objects
        → s.ob.object_in_use o ≡ true
        → Small s.ob
        → Step s (record s { ob = (insert_handle table (some o) granted out s.ob).2 })
    references :
        (table : Bool) (handle desired : ℕ) (expected : Option ℕ) (out : Bool)
        → Small s.ob
        → Step s (
            let (_, o, ob') = reference_by_handle table handle desired expected out s.ob in
            record s { held = received s.held o; ob = ob' })
    dereferences :
        (o : ℕ)
        → s.ob.ready ≡ true
        → o < max_objects
        → s.ob.object_in_use o ≡ true
        → 0 < s.held o
        → Step s (
            let (_, ob', w) = dereference call (some o) s.ob s.rest in
            record { held = update s.held o (s.held o - 1); ob = ob'; rest = w })
    closes :
        (table : Bool) (handle : ℕ)
        → Step s (
            let (_, ob', w) = close_handle call table handle s.ob s.rest in
            record s { ob = ob'; rest = w })

  pub data Reach (ob : Ob) (w : W) : State W → Type 0 where
    start : Reach ob w (record { held = λ o. 0; ob = (initialize ob).1; rest = w })
    later : {s t : State W} → Reach ob w s → Step s t → Reach ob w t

  pub Step-Counted : {s t : State W} → Step s t → Counted s.held s.ob → Counted t.held t.ob
  Step-Counted {s} (types name routine out) inv =
      create_type-Counted s.held s.ob inv name routine out
  Step-Counted {s} (creates type name mask flags out) inv =
      create_object-Counted s.held s.ob inv type name mask flags out
  Step-Counted {s} (inserts table out o granted l live small) inv =
      insert_handle-Counted s.held s.ob inv table out o granted l live (small o l)
  Step-Counted {s} (references table handle desired expected out small) inv =
      reference_by_handle-Counted s.held s.ob inv table handle desired expected out small
  Step-Counted {s} (dereferences o on l live mine) inv =
      dereference-Counted call s.held o s.ob s.rest inv on l live mine
  Step-Counted {s} (closes table handle) inv =
      close_handle-Counted call s.held table handle s.ob s.rest inv

  -- In every state that the calls reach from the first `ObInitialize`, if callers give up only
  -- references that they hold and add one only while counts are below 2^32 - 1, the reference count
  -- of each live object is the number of handles on it and of references held, and each handle in
  -- use names a live object and grants no more than its default mask.
  pub Reach-Counted :
      {ob : Ob} {w : W} {s : State W} → ob.ready ≡ false → Reach ob w s → Counted s.held s.ob
  Reach-Counted {ob} off start = initialize-Counted ob off
  Reach-Counted off (later r st) = Step-Counted st (Reach-Counted off r)
