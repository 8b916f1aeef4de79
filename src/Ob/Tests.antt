-- ===== src/Ob/Tests.antt =====
-- Runs of the object manager, and its theorems at a table with one handle.
use ntx_preview.Base.{
  ℕ, ◌≡◌, ◌≢◌, refl, true, false, none, some, List, [], ◌∷◌, arith, inr, success, not_found,
  access_denied, first_index,
}
use ntx_preview.Base.Text.{copy_text}
use ntx_preview.Ob.{
  delete_port, Ob, Routine, cleared_entry, initialize, create_object, insert_handle,
  find_handle_entry, reference_by_handle, reference_entry, retain, dereference, close_handle,
  copy_name, free_slot, run_routine,
}
use ntx_preview.Ob.Invariant.{Counted}
use ntx_preview.Ob.Handles.{
  Distinct, insert_handle-Distinct, insert_handle-reference, close_handle-gone,
}
use ntx_preview.Ob.Refused.{insert_handle-refused}
use ntx_preview.Ob.Last.{give_back, Gone, give_back-Gone}
use ntx_preview.Base.Bits.{bit}
use ntx_preview.Ob.Acquire.{received}
use ntx_preview.Ob.System.{Reach, start, later, creates, inserts, Reach-Counted}

-- Memory before `ObInitialize`.
abbrev cold : Ob
cold = record {
  type_pool = λ i. record { type_id = 0; name = λ k. 0; delete_routine = none };
  object_pool = λ i. record {
    object_id = 0;
    type = none;
    ref_count = 0;
    flags = 0;
    default_access_mask = 0;
    signaled = false;
    name = λ k. 0;
  };
  type_in_use = λ i. true;
  object_in_use = λ i. true;
  entries = λ i. cleared_entry;
  next_handle = 0;
  next_object_id = 0;
  ready = false;
}

abbrev booted : Ob
booted = (initialize cold).1

abbrev port : List ℕ
port = b'p' ∷ b'o' ∷ b'r' ∷ b't' ∷ []

-- The deletions of objects, in order.
abbrev log : Routine → ℕ → List ℕ → List ℕ
log r o w = o ∷ w

-- One object with mask 3, and a handle on it that grants 1.
abbrev made : Ob
made = (create_object (some 0) (some port) 3 0 true booted).2

abbrev opened : Ob
opened = (insert_handle true (some 0) 1 true made).2

-- The operations that the runs go through.
run : Unit {0}
unfolding initialize create_object insert_handle find_handle_entry reference_by_handle
    reference_entry close_handle dereference copy_name copy_text first_index free_slot run_routine
run = tt

run_open : insert_handle true (some 0) 1 true made ≡ (success, some 4, opened)
unfolding run
run_open = refl

run_denied : (insert_handle true (some 0) 4 true made).0 ≡ access_denied
unfolding run
run_denied = refl

run_close_twice : (close_handle log true 4 (close_handle log true 4 opened []).1 []).0 ≡ not_found
unfolding run
run_close_twice = refl

made-Distinct : Distinct made
unfolding run
made-Distinct = record {
  ready = refl;
  positive = omega arith;
  below = λ i l u. cc;
  unique = λ i j l m u v e. cc;
}

opened-Distinct : Distinct opened
unfolding run
opened-Distinct = insert_handle-Distinct made made-Distinct true true 0 1 (omega arith)

Reach-opened :
    Reach log cold [] (record { held = received (λ o. 0) (some 0); ob = opened; rest = [] })
unfolding run
Reach-opened =
    later (later start (creates 0 port 3 0 true))
      (inserts true true 0 1 (omega arith) refl (λ o l. ground arith))

insert_handle-reference_example :
    reference_by_handle true 4 1 (some 0) true opened
    ≡ (success, some 0, record opened { object_pool = retain 0 opened.object_pool })
unfolding run
insert_handle-reference_example =
    insert_handle-reference made opened 0 1 1 4 (some 0) made-Distinct (omega arith) refl refl
      (inr refl)

insert_handle-refused_example :
    reference_by_handle true 4 2 none true opened ≡ (access_denied, none, opened)
unfolding run bit
insert_handle-refused_example =
    insert_handle-refused made opened 0 1 2 4 1 none made-Distinct (omega arith) refl refl refl

close_handle-gone_example :
    (find_handle_entry 4 (close_handle log true 4 opened []).1 ≡ none)
    × ((j : ℕ) → j ≢ 0 → (close_handle log true 4 opened []).1.entries j ≡ opened.entries j)
    × Distinct (close_handle log true 4 opened []).1
unfolding run
close_handle-gone_example = close_handle-gone log opened [] 0 opened-Distinct (omega arith) refl

Reach-Counted_example : Counted (received (λ o. 0) (some 0)) opened
Reach-Counted_example = Reach-Counted log refl Reach-opened

-- The same, with a type that has a delete routine.
abbrev typed : Ob
typed = record opened {
  type_pool = λ i. record { type_id = 1; name = λ k. 0; delete_routine = some delete_port };
}

-- The object with two references gives both back.
give_back-Gone_example :
    ((give_back log 1 0 typed []).1 ≡ [])
    × ((give_back log 2 0 typed []).1 ≡ log delete_port 0 [])
    × Gone log 0 typed (give_back log 2 0 typed [])
unfolding run
give_back-Gone_example =
    give_back-Gone log 1 0 0 delete_port typed [] refl (omega arith) refl refl refl
