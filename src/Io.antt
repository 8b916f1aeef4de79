-- ===== src/Io.antt =====
-- kernel/io/init.c and kernel/include/io.h: boot files and file handles. What a pointer to bytes
-- points at is a function of the offset. `File` is IO_FILE_OBJECT and `BootFile` IO_BOOT_FILE. The
-- component runs on the object manager, whose delete routine for files is `delete_file_object`.
pub mod Read
pub mod Paths
mod Tests
use ntx_preview.Base.{
  ℕ, zero, suc, ◌+◌, ◌-◌, ◌^◌, Bool, true, false, not, ◌&&◌, ◌||◌, Option, none, some, List, [],
  ◌∷◌, update, bit_and, if◌then◌else◌, ◌==◌, ◌!=◌, ◌=?◌, leb, ltb, is_some, succeeded, first_index,
  Status, success, init_failed, invalid_parameter, not_found, already_initialized, length,
}
use ntx_preview.Base.Text.{copy_text}
use ntx_preview.BootProto.{BootInfo, flag_init_image_present}
use ntx_preview.Ob.{
  Ob, Routine, delete_file, delete_section, delete_port, delete_process, delete_thread, create_type,
  create_object, insert_handle, reference_by_handle, dereference, close_handle, kernel_handle_table,
}

abbrev pub max_file_objects : ℕ
max_file_objects = 128

abbrev pub max_boot_files : ℕ
max_boot_files = 16

abbrev pub path_bytes : ℕ
path_bytes = 64

abbrev pub file_access_read : ℕ
file_access_read = 1

abbrev pub file_access_all : ℕ
file_access_all = 7

-- `IO_BOOT_FILE`
pub record BootFile : Type 0 where
  pub path : ℕ → ℕ
  pub bytes : ℕ → ℕ
  pub size : ℕ
  pub in_use : Bool

-- `IO_FILE_OBJECT`
pub record File : Type 0 where
  pub header : Option ℕ
  pub bytes : ℕ → ℕ
  pub size : ℕ
  pub access_mask : ℕ

-- The globals of init.c.
pub record Io : Type 0 where
  pub file_type : Option ℕ
  pub file_pool : ℕ → File
  pub file_in_use : ℕ → Bool
  pub boot_files : ℕ → BootFile
  pub ready : Bool

-- `IopStringEquals` of a character array and a text, from an index on.
unfoldable pub string_equals : (ℕ → ℕ) → ℕ → List ℕ → Bool
string_equals left index [] = left index == 0
string_equals left index (c ∷ right) =
    let rest = string_equals left (index + 1) right in left index == c && rest

-- `IopCopyString`: whether the whole text was copied, and the array.
unfoldable pub copy_string : (ℕ → ℕ) → ℕ → List ℕ → Bool × (ℕ → ℕ)
copy_string destination destination_bytes source =
    if destination_bytes == 0
    then (false, destination)
    else (let (stopped, out) = copy_text (destination_bytes - 1) 0 source destination in
        if stopped then (true, out) else (false, update out (destination_bytes - 1) 0))

-- What is left of a file object that is given back or handed out.
abbrev pub blank_file : File
blank_file = record { header = none; bytes = λ i. 0; size = 0; access_mask = 0 }

-- `IopFindFileByHeader`
unfoldable pub find_file_by_header : ℕ → Io → Option ℕ
find_file_by_header header io =
    first_index (λ i. io.file_in_use i && (io.file_pool i).header =? some header) max_file_objects

-- `IopAllocateFileSlot`
unfoldable pub allocate_file_slot : Io → Option ℕ × Io
allocate_file_slot io = elim (first_index (λ i. not (io.file_in_use i)) max_file_objects) [
  | none ↦ (none, io)
  | some i ↦ (
    some i,
    record io {
      file_in_use = update io.file_in_use i true;
      file_pool = update io.file_pool i blank_file;
    },
  )
]

-- `IopDeleteFileObject`
unfoldable pub delete_file_object : ℕ → Io → Io
unfolding find_file_by_header
delete_file_object object io = elim (find_file_by_header object io) [
  | none ↦ io
  | some i ↦ record io {
    file_in_use = update io.file_in_use i false;
    file_pool = update io.file_pool i blank_file;
  }
]

-- The delete routines, as far as they touch this component.
unfoldable pub run_delete : Routine → ℕ → Io → Io
unfolding delete_file_object
run_delete delete_file object io = delete_file_object object io
run_delete delete_section object io = io
run_delete delete_port object io = io
run_delete delete_process object io = io
run_delete delete_thread object io = io

-- `IopFsFatLookupFile`
unfoldable pub lookup_file : List ℕ → Io → Option ℕ
unfolding string_equals
lookup_file path io =
    first_index (λ i. (io.boot_files i).in_use && string_equals (io.boot_files i).path 0 path)
      max_boot_files

-- `IopVfsOpen` into the file object at index `f`.
unfoldable pub vfs_open : List ℕ → ℕ → Io → Status × Io
unfolding lookup_file
vfs_open path f io = elim (lookup_file path io) [
  | none ↦ (not_found, io)
  | some b ↦ (
    success,
    record io {
      file_pool = update io.file_pool f (record (io.file_pool f) {
        bytes = (io.boot_files b).bytes;
        size = (io.boot_files b).size;
      });
    },
  )
]

-- The entry at `i` is filled in.
abbrev pub registered : ℕ → (ℕ → ℕ) → (ℕ → ℕ) → ℕ → Io → Io
registered i path bytes size io = record io {
  boot_files =
      update io.boot_files i (record { path = path; bytes = bytes; size = size; in_use = true });
}

-- `IoRegisterBootFile`
unfoldable pub register_boot_file : Option (List ℕ) → Option (ℕ → ℕ) → ℕ → Io → Status × Io
unfolding copy_string
register_boot_file none bytes size io = (invalid_parameter, io)
register_boot_file (some path) none size io = (invalid_parameter, io)
register_boot_file (some path) (some bytes) size io =
    if not io.ready || size == 0
    then (invalid_parameter, io)
    else elim (first_index (λ i. not (io.boot_files i).in_use) max_boot_files) [
      | none ↦ (init_failed, io)
      | some i ↦
          let (whole, copied) = copy_string (io.boot_files i).path path_bytes path in
          if whole then (success, registered i copied bytes size io) else (
            invalid_parameter,
            record io {
              boot_files = update io.boot_files i (record (io.boot_files i) { path = copied });
            },
          )
    ]

-- The texts "io.file", "File" and "\System\init.kpe".
abbrev pub file_name : List ℕ
file_name = b'i' ∷ b'o' ∷ b'.' ∷ b'f' ∷ b'i' ∷ b'l' ∷ b'e' ∷ []

abbrev pub type_name : List ℕ
type_name = b'F' ∷ b'i' ∷ b'l' ∷ b'e' ∷ []

abbrev pub init_path : List ℕ
init_path =
    92 ∷ b'S' ∷ b'y' ∷ b's' ∷ b't' ∷ b'e' ∷ b'm' ∷ 92 ∷ b'i' ∷ b'n' ∷ b'i' ∷ b't' ∷ b'.' ∷ b'k'
    ∷ b'p' ∷ b'e' ∷ []

-- The end of IoInitialize: the init image becomes a boot file. `image` is what stands at its base.
abbrev pub register_init : Option BootInfo → (ℕ → ℕ) → Io → Io
register_init none image io = io
register_init (some info) image io =
    if bit_and info.flags flag_init_image_present != 0
      && info.init_image_base != 0
      && info.init_image_size != 0
    then (register_boot_file (some init_path) (some image) info.init_image_size io).1
    else io

-- `IoInitialize`
unfoldable pub initialize_io : Option BootInfo → (ℕ → ℕ) → Io → Ob → Status × Io × Ob
unfolding register_boot_file create_type
initialize_io info image io ob =
    if io.ready
    then (already_initialized, io, ob)
    else (let cleared = record io {
      file_in_use = λ i. false;
      boot_files = λ i. record {
        path = update (io.boot_files i).path 0 0;
        bytes = λ k. 0;
        size = 0;
        in_use = false;
      };
    } in
        let (status, type, ob') = create_type (some type_name) (some delete_file) true ob in
        if succeeded status
        then (
          success,
          register_init info image (record cleared { file_type = type; ready = true }),
          ob',
        )
        else (status, cleared, ob'))

-- The end of `IoOpenPath` and of `IoReadFileHandle`: the reference that the call holds is given up.
abbrev pub give_up : ℕ → Io → Ob → Io × Ob
give_up object io ob = let (_, ob', io') = dereference run_delete (some object) ob io in (io', ob')

-- `IoOpenPath` with a file object at `f` and the object `o` behind it.
unfoldable pub open_object : List ℕ → ℕ → ℕ → ℕ → Io → Ob → Status × Option ℕ × Io × Ob
unfolding vfs_open
open_object path desired f o io ob =
    let owned = record io {
      file_pool =
          update io.file_pool f
            (record (io.file_pool f) { header = some o; access_mask = desired });
    } in
    let (status, opened) = vfs_open path f owned in
    if not (succeeded status)
    then (let (io', ob') = give_up o opened ob in (status, none, io', ob'))
    else (let (inserted, handle, ob1) =
          insert_handle (kernel_handle_table ob) (some o) desired true ob in
        let (io', ob') = give_up o opened ob1 in (inserted, handle, io', ob'))

-- `IoOpenPath`; `out` is whether the result pointer is not NULL.
unfoldable pub open_path : Option (List ℕ) → ℕ → Bool → Io → Ob → Status × Option ℕ × Io × Ob
unfolding allocate_file_slot open_object
open_path none desired out io ob = (invalid_parameter, none, io, ob)
open_path (some path) desired out io ob =
    if not io.ready || not out || bit_and desired file_access_all == 0
    then (invalid_parameter, none, io, ob)
    else (let (slot, io1) = allocate_file_slot io in
        elim slot [
          | none ↦ (init_failed, none, io1, ob)
          | some f ↦
              let (status, made, ob1) =
                create_object io.file_type (some file_name) file_access_all 0 true ob in
              elim made [
                | none ↦ (status, none, io1, ob1)
                | some o ↦ open_object path desired f o io1 ob1
              ]
        ])

-- The copy loop of `IoReadFileHandle`: `n` bytes from an offset on.
unfoldable pub read_bytes : (ℕ → ℕ) → ℕ → ℕ → List ℕ
read_bytes bytes offset zero = []
read_bytes bytes offset (suc n) = bytes offset ∷ read_bytes bytes (offset + 1) n

-- The bytes that `IoReadFileHandle` copies out of a file, and how many.
unfoldable pub read_file : File → ℕ → ℕ → List ℕ
unfolding read_bytes
read_file file offset buffer_length =
    if leb file.size offset
    then []
    else (let remaining = file.size - offset in
        read_bytes file.bytes offset
          (if ltb buffer_length remaining then buffer_length else remaining))

-- `IoReadFileHandle`; `out` is whether both result pointers are not NULL, and the list what goes to
-- the buffer, its length to `*OutBytesRead`.
unfoldable pub read_file_handle : ℕ → ℕ → Bool → ℕ → Io → Ob → Status × Option (List ℕ) × Io × Ob
unfolding find_file_by_header read_file
read_file_handle handle offset out buffer_length io ob =
    if not io.ready || not out || buffer_length == 0
    then (invalid_parameter, none, io, ob)
    else (let (status, object, ob1) =
          reference_by_handle (kernel_handle_table ob) handle file_access_read io.file_type true
            ob in
        elim object [
          | none ↦ (status, none, io, ob1)
          | some o ↦ elim (find_file_by_header o io) [
            | none ↦ let (io', ob') = give_up o io ob1 in (not_found, none, io', ob')
            | some f ↦
                let (io', ob') = give_up o io ob1 in
                (success, some (read_file (io.file_pool f) offset buffer_length), io', ob')
          ]
        ])

-- `IoCloseFileHandle`
unfoldable pub close_file_handle : ℕ → Io → Ob → Status × Io × Ob
unfolding close_handle
close_file_handle handle io ob =
    if not io.ready || handle == 0
    then (invalid_parameter, io, ob)
    else (let (status, ob', io') = close_handle run_delete (kernel_handle_table ob) handle ob io in
        (status, io', ob'))
