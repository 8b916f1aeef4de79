-- ===== src/Ob.antt =====
-- kernel/ob/init.c and kernel/include/ob.h: the object manager. Types, objects and the handle
-- table are fixed arrays; a pointer into a pool is its index, and a nullable one an `Option`.
-- `out` says whether the caller's result pointer is not NULL, and `table` whether the handle table
-- pointer is not (the kernel has one table, and `kernel_handle_table` is NULL until it is ready).
pub mod Access
pub mod Cases
pub mod Count
pub mod Invariant
pub mod Release
pub mod Acquire
pub mod Handles
mod Refused
pub mod Names
pub mod Last
pub mod System
mod Tests
use ntx_preview.Base.{
  ℕ, ◌+◌, ◌-◌, ◌%◌, ◌^◌, Bool, true, false, not, ◌&&◌, ◌||◌, Option, none, some, List, update,
  bit_and, if◌then◌else◌, ◌==◌, ◌!=◌, ◌=?◌, is_some, succeeded, first_index, Status, success,
  init_failed, invalid_parameter, not_found, already_initialized, access_denied,
}
use ntx_preview.Base.Text.{copy_text}

abbrev pub max_objects : ℕ
max_objects = 256

abbrev pub max_handles : ℕ
max_handles = 512

-- `OB_MAX_TYPE_NAME + 1` and `OB_MAX_OBJECT_NAME + 1`
abbrev pub name_bytes : ℕ
name_bytes = 32

-- The delete routines that the kernel registers: of `Mm`, `Io`, `Lpc` and `Ps`.
pub data Routine : Type 0 where
  delete_section delete_file delete_port delete_process delete_thread : Routine

-- `OB_OBJECT_TYPE`
pub record ObjectType : Type 0 where
  pub type_id : ℕ
  pub name : ℕ → ℕ
  pub delete_routine : Option Routine

-- `OB_OBJECT_HEADER`
pub record Object : Type 0 where
  pub object_id : ℕ
  pub type : Option ℕ
  pub ref_count : ℕ
  pub flags : ℕ
  pub default_access_mask : ℕ
  pub signaled : Bool
  pub name : ℕ → ℕ

-- `OB_HANDLE_TABLE_ENTRY`
pub record Entry : Type 0 where
  pub handle_value : ℕ
  pub object : Option ℕ
  pub granted_access : ℕ
  pub in_use : Bool

-- The globals of init.c, the handle table's two fields among them.
pub record Ob : Type 0 where
  pub type_pool : ℕ → ObjectType
  pub object_pool : ℕ → Object
  pub type_in_use : ℕ → Bool
  pub object_in_use : ℕ → Bool
  pub entries : ℕ → Entry
  pub next_handle : ℕ
  pub next_object_id : ℕ
  pub ready : Bool

abbrev pub cleared_entry : Entry
cleared_entry = record { handle_value = 0; object = none; granted_access = 0; in_use = false }

-- `ObpCopyName`
unfoldable pub copy_name : (ℕ → ℕ) → ℕ → Option (List ℕ) → Status × (ℕ → ℕ)
copy_name dst bytes none = (invalid_parameter, dst)
copy_name dst bytes (some source) =
    if bytes == 0
    then (invalid_parameter, dst)
    else (let (stopped, out) = copy_text (bytes - 1) 0 source dst in
        (success, if stopped then out else update out (bytes - 1) 0))

-- `ObInitialize`, with `ObpZeroHandleTable` of lines 31 to 41: it clears the 512 entries.
unfoldable pub initialize : Ob → Status × Ob
initialize ob = if ob.ready then (already_initialized, ob) else (
  success,
  record ob {
    type_in_use = λ i. false;
    object_in_use = λ i. false;
    entries = λ i. cleared_entry;
    next_handle = 4;
    next_object_id = 1;
    ready = true;
  },
)

-- `ObCreateType`: the option is the index of the type that `*OutType` points at.
unfoldable pub create_type : Option (List ℕ) → Option Routine → Bool → Ob → Status × Option ℕ × Ob
create_type name routine out ob =
    if not ob.ready || not (is_some name) || not out
    then (invalid_parameter, none, ob)
    else elim (first_index (λ i. not (ob.type_in_use i)) max_objects) [
      | none ↦ (init_failed, none, ob)
      | some i ↦
          let (status, copied) = copy_name (ob.type_pool i).name name_bytes name in
          if succeeded status
          then (
            success,
            some i,
            record ob {
              type_in_use = update ob.type_in_use i true;
              type_pool =
                  update ob.type_pool i
                    (record { type_id = i + 1; name = copied; delete_routine = routine });
            },
          )
          else (
            status,
            none,
            record ob {
              type_pool = update ob.type_pool i (record (ob.type_pool i) { type_id = i + 1 });
            },
          )
    ]

-- The header that `ObCreateObject` fills in.
abbrev pub new_object : ℕ → ℕ → ℕ → ℕ → (ℕ → ℕ) → Object
new_object id type mask flags name = record {
  object_id = id;
  type = some type;
  ref_count = 1;
  flags = flags;
  default_access_mask = mask;
  signaled = false;
  name = name;
}

-- `ObCreateObject`
unfoldable pub create_object :
    Option ℕ → Option (List ℕ) → ℕ → ℕ → Bool → Ob → Status × Option ℕ × Ob
create_object none name mask flags out ob = (invalid_parameter, none, ob)
create_object (some type) name mask flags out ob =
    if not ob.ready || not (is_some name) || not out
    then (invalid_parameter, none, ob)
    else elim (first_index (λ i. not (ob.object_in_use i)) max_objects) [
      | none ↦ (init_failed, none, ob)
      | some i ↦
          let (status, copied) = copy_name (ob.object_pool i).name name_bytes name in
          let made = record ob {
            object_pool =
                update ob.object_pool i (new_object ob.next_object_id type mask flags copied);
            next_object_id = (ob.next_object_id + 1) % 2 ^ 64;
          } in
          if succeeded status
          then (success, some i, record made { object_in_use = update ob.object_in_use i true })
          else (status, none, made)
    ]

-- `Object->RefCount++` on 32 bits.
abbrev pub retain : ℕ → (ℕ → Object) → ℕ → Object
retain o pool = update pool o (record (pool o) { ref_count = ((pool o).ref_count + 1) % 2 ^ 32 })

-- The entry that `ObInsertHandle` fills in at index `i`.
abbrev pub with_handle : ℕ → ℕ → ℕ → Ob → Ob
with_handle i o granted ob = record ob {
  entries = update ob.entries i (record {
    handle_value = ob.next_handle;
    object = some o;
    granted_access = granted;
    in_use = true;
  });
  next_handle = (ob.next_handle + 4) % 2 ^ 32;
  object_pool = retain o ob.object_pool;
}

-- `ObInsertHandle`
unfoldable pub insert_handle : Bool → Option ℕ → ℕ → Bool → Ob → Status × Option ℕ × Ob
insert_handle table none granted out ob = (invalid_parameter, none, ob)
insert_handle table (some o) granted out ob =
    if not ob.ready || not table || not out
    then (invalid_parameter, none, ob)
    else if bit_and granted (ob.object_pool o).default_access_mask != granted
    then (access_denied, none, ob)
    else elim (first_index (λ i. not (ob.entries i).in_use) max_handles) [
      | none ↦ (init_failed, none, ob)
      | some i ↦ (success, some ob.next_handle, with_handle i o granted ob)
    ]

-- The test of `ObpFindHandleEntry`'s loop.
abbrev pub is_entry_of : ℕ → Entry → Bool
is_entry_of handle e = e.in_use && e.handle_value == handle

-- `ObpFindHandleEntry`, on pointers that are not NULL: `none` is KSTATUS_NOT_FOUND.
unfoldable pub find_handle_entry : ℕ → Ob → Option ℕ
find_handle_entry handle ob = first_index (λ i. is_entry_of handle (ob.entries i)) max_handles

-- `ObReferenceObjectByHandle` behind the search. An entry in use names an object (`Counted` of
-- Ob/Invariant.antt), so the branch at `none`, where the code would read through NULL, is not met.
unfoldable pub reference_entry : Entry → ℕ → Option ℕ → Ob → Status × Option ℕ × Ob
reference_entry e desired expected ob =
    if bit_and e.granted_access desired != desired
    then (access_denied, none, ob)
    else elim e.object [
      | none ↦ (not_found, none, ob)
      | some o ↦
          if is_some expected && not ((ob.object_pool o).type =? expected)
          then (not_found, none, ob)
          else (success, some o, record ob { object_pool = retain o ob.object_pool })
    ]

-- `ObReferenceObjectByHandle`
unfoldable pub reference_by_handle : Bool → ℕ → ℕ → Option ℕ → Bool → Ob → Status × Option ℕ × Ob
reference_by_handle table handle desired expected out ob =
    if not ob.ready || not table || not out || handle == 0
    then (invalid_parameter, none, ob)
    else elim (find_handle_entry handle ob) [
      | none ↦ (not_found, none, ob)
      | some i ↦ reference_entry (ob.entries i) desired expected ob
    ]

-- `Object->RefCount--`
abbrev pub release : ℕ → (ℕ → Object) → ℕ → Object
release o pool = update pool o (record (pool o) { ref_count = (pool o).ref_count - 1 })

-- The end of `ObDereferenceObject`: the slot of the object is given back, if it is in the pool.
unfoldable pub free_slot : ℕ → Ob → Status × Ob
free_slot o ob = elim (first_index (λ i. i == o) max_objects) [
  | none ↦ (not_found, ob)
  | some i ↦ (
    success,
    record ob {
      object_in_use = update ob.object_in_use i false;
      object_pool = update ob.object_pool o (record (ob.object_pool o) {
        type = none;
        flags = 0;
        default_access_mask = 0;
        signaled = false;
        name = update (ob.object_pool o).name 0 0;
      });
    },
  )
]

-- The delete routine that is called for an object: that of its type, if it has both.
unfoldable pub routine_of : ℕ → Ob → Option Routine
routine_of o ob = elim (ob.object_pool o).type [
  | none ↦ none
  | some t ↦ (ob.type_pool t).delete_routine
]

-- `call` runs a delete routine on the state `W` of the rest of the kernel; no routine of the
-- kernel changes the object manager's state.
module _ {W : Type 0} (call : Routine → ℕ → W → W) where
  -- `Object->Type->DeleteRoutine(Object)`
  unfoldable pub run_routine : ℕ → Ob → W → W
  unfolding routine_of
  run_routine o ob w = elim (routine_of o ob) [ none ↦ w | some r ↦ call r o w ]

  -- `ObDereferenceObject`
  unfoldable pub dereference : Option ℕ → Ob → W → Status × Ob × W
  unfolding free_slot run_routine
  dereference none ob w = (invalid_parameter, ob, w)
  dereference (some o) ob w =
      if not ob.ready || (ob.object_pool o).ref_count == 0
      then (invalid_parameter, ob, w)
      else (let less = record ob { object_pool = release o ob.object_pool } in
          if (less.object_pool o).ref_count != 0
          then (success, less, w)
          else (let (status, freed) = free_slot o less in (status, freed, run_routine o less w)))

  -- `ObCloseHandle`
  unfoldable pub close_handle : Bool → ℕ → Ob → W → Status × Ob × W
  unfolding dereference
  close_handle table handle ob w =
      if not ob.ready || not table || handle == 0
      then (invalid_parameter, ob, w)
      else elim (find_handle_entry handle ob) [
        | none ↦ (not_found, ob, w)
        | some i ↦
            let (status, ob', w') = dereference (ob.entries i).object ob w in
            (status, record ob' { entries = update ob'.entries i cleared_entry }, w')
      ]

-- `ObGetKernelHandleTable`: whether the pointer is not NULL.
abbrev pub kernel_handle_table : Ob → Bool
kernel_handle_table ob = ob.ready
