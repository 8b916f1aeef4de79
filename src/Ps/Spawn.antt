-- ===== src/Ps/Spawn.antt =====
-- kernel/ps/init.c: PsSpawnUserKpeFromBuffer, from the tests of the file to the thread that runs it.
-- The file is in a buffer that every address space shows alike; the lines of text that it writes are
-- left out.
use ntx_preview.Base.{
  ℕ, zero, suc, ◌+◌, ◌-◌, ◌*◌, ◌/◌, ◌%◌, ◌^◌, Bool, true, not, ◌||◌, Option, none, some, update,
  bit_and, bit_or, if◌then◌else◌, ◌==◌, leb, ltb, Status, success, succeeded, invalid_parameter,
}
use ntx_preview.Base.Bits.{complement}
use ntx_preview.Kpe.{
  NtHeaders, SectionHeader, section_header, section_table, section_mem_write, section_mem_execute,
}
use ntx_preview.Ob.{Ob}
use ntx_preview.Mm.{page_size}
use ntx_preview.Mm.Walk.{Memory, has}
use ntx_preview.Mm.Pte.{as_protect_page, as_query_pte}
use ntx_preview.Mm.Space.{
  AddressSpace, Spaces, create_address_space, activate_address_space, map_anonymous, prot_write,
  prot_execute, region_flag_wired, region_flag_guard, region_flag_lazy,
}
use ntx_preview.Mm.SectionHandles.{prot_read}
use ntx_preview.Ps.{Ps, ready_thread, get_current_process}
use ntx_preview.Ps.Create.{
  create_process_internal, create_user_thread, user_process_name, user_top, pte_user, pte_writable,
  pte_nx,
}
use ntx_preview.Ps.Headers.{user_headers}
use ntx_preview.Ps.Load.{load_image}

abbrev pub user_stack_size : ℕ
user_stack_size = 16 * page_size

-- What the spawning of a process works on. `bytes` is what each root table shows at an address, and
-- `cr3` the root table in use.
pub record World : Type 0 where
  pub ps : Ps
  pub ob : Ob
  pub spaces : Spaces
  pub cr3 : ℕ
  pub bytes : ℕ → ℕ → ℕ

-- The status, the process and entry if it is a success, and the state after.
abbrev pub Spawned : Type 0
Spawned = Status × Option (ℕ × ℕ) × World

abbrev pub set_space : ℕ → AddressSpace → Memory → World → World
set_space k space memory w = record w {
  spaces = record w.spaces { pool = update w.spaces.pool k space; memory = memory };
}

-- `PspAlignUp`
unfoldable pub align_up : ℕ → ℕ → ℕ
align_up value alignment =
    if alignment == 0
    then value
    else bit_and ((value + alignment + (2 ^ 64 - 1)) % 2 ^ 64) (complement 64 (alignment - 1))

-- `PspCreateProcessInternal` with the address space that MmCreateAddressSpace makes; it is called if
-- and only if a process number is used up.
unfoldable pub create_user_process : World → Status × Option ℕ × World
unfolding create_process_internal create_address_space
create_user_process w =
    let made = create_address_space w.ps.next_process_id true w.spaces in
    let (status, process, ob, ps) =
      create_process_internal (λ id. (made.0, made.1)) (some user_process_name) true w.ob w.ps in
    (
      status,
      process,
      record w {
        ps = ps;
        ob = ob;
        spaces = if ps.next_process_id == w.ps.next_process_id then w.spaces else made.2;
      },
    )

-- The flags of a section's pages.
abbrev pub section_flags : SectionHeader → ℕ
section_flags section =
    let written =
      if has section.characteristics section_mem_write
      then bit_or pte_user pte_writable
      else pte_user in
    if has section.characteristics section_mem_execute then written else bit_or written pte_nx

abbrev pub effective_size : SectionHeader → ℕ
effective_size section =
    if section.virtual_size == 0 then section.size_of_raw_data else section.virtual_size

-- The loop over the pages of a section, of which `n` are left from `cursor` on; what MmAsProtectPage
-- returns is dropped.
unfoldable pub protect_pages : ℕ → ℕ → ℕ → ℕ → ℕ → Memory → Memory
protect_pages zero cursor root base flags m = m
protect_pages (suc n) cursor root base flags m =
    protect_pages n (cursor + page_size) root base flags
      (as_protect_page (some root) (bit_and ((base + cursor) % 2 ^ 64) (complement 64 4095)) flags
        m).1

-- The loop over the sections, of which `n` are left from `k` on.
unfoldable pub protect_sections : ℕ → ℕ → ℕ → ℕ → (ℕ → ℕ) → ℕ → Memory → Memory
unfolding protect_pages align_up
protect_sections zero k root table file image m = m
protect_sections (suc n) k root table file image m =
    let section = section_header table k file in
    let protected =
      protect_pages (align_up (effective_size section) page_size / page_size) 0 root
        ((image + section.virtual_address) % 2 ^ 64) (section_flags section) m in
    let skipped = protect_sections n (k + 1) root table file image m in
    let rest = protect_sections n (k + 1) root table file image protected in
    if effective_size section == 0 then skipped else rest

-- The thread of the process is made and readied; none where an NK_ASSERT fails.
unfoldable pub start_thread : ℕ → ℕ → ℕ → ℕ → ℕ → World → Option Spawned
unfolding create_user_thread
start_thread stack_pool thunk process entry stack_top w =
    let query : ℕ → ℕ → Status × ℕ = λ k virtual.
      let (status, pte) =
        as_query_pte (some (w.spaces.pool k).root_table_physical) virtual true w.spaces.memory in
      (status, elim pte [ none ↦ 0 | some e ↦ e ]) in
    let (status, thread, ob, ps) =
      create_user_thread stack_pool thunk query (some process) entry stack_top 0 0 true w.ob w.ps in
    let made = record w { ob = ob; ps = ps } in
    if not (succeeded status) then some (status, none, made) else elim (ready_thread thread ps) [
      | none ↦ none
      | some r ↦
          let readied = record made { ps = r.1 } in
          if not (succeeded r.0)
          then some (r.0, none, readied)
          else some (success, some ((r.1.process_pool process).process_id, entry), readied)
    ]

-- The guard page and the stack above it, with the base of the stack.
unfoldable pub map_stack : ℕ → World → Status × Option ℕ × World
unfolding map_anonymous
map_stack k w =
    let (status, guard, space, memory) =
      map_anonymous (w.spaces.pool k) page_size prot_read
        (bit_or region_flag_guard region_flag_lazy) true w.spaces.memory in
    let guarded = set_space k space memory w in
    let (mapped, base, space', memory') =
      map_anonymous space user_stack_size (bit_or prot_read prot_write) region_flag_wired true
        memory in
    if not (succeeded status)
    then (status, none, guarded)
    else if not (succeeded mapped)
    then (mapped, none, set_space k space' memory' guarded)
    else (success, base, set_space k space' memory' guarded)

-- The pages of the image, from the preferred base on.
unfoldable pub map_image : ℕ → NtHeaders → ℕ → World → Status × Option ℕ × World
unfolding map_anonymous
map_image k nt base w =
    let (status, image, space, memory) =
      map_anonymous (record (w.spaces.pool k) { next_user_base = base }) nt.optional.size_of_image
        (bit_or (bit_or prot_read prot_write) prot_execute) region_flag_wired true
        w.spaces.memory in
    (status, image, set_space k space memory w)

-- The root table in use after the address space of the current process is active again.
unfoldable pub reactivated : ℕ → World → ℕ
unfolding activate_address_space
reactivated cr3 w = elim (get_current_process w.ps) [
  | none ↦ cr3
  | some p ↦ elim (w.ps.process_pool p).address_space_root [
    | none ↦ cr3
    | some k ↦ (activate_address_space (some (w.spaces.pool k)) cr3 w.spaces).1
  ]
]

-- The image is loaded with its address space active.
unfoldable pub load_active : ℕ → ℕ → ℕ → NtHeaders → (ℕ → ℕ) → World → Option (Status × World)
unfolding reactivated activate_address_space load_image
load_active k image size nt file w =
    let root = (w.spaces.pool k).root_table_physical in
    let (activated, cr3) = activate_address_space (some (w.spaces.pool k)) w.cr3 w.spaces in
    let loaded = load_image image size nt file (w.bytes root) in
    if not (succeeded activated) then some (activated, record w { cr3 = cr3 }) else elim loaded [
      | none ↦ none
      | some r ↦ some (r.0, record w { bytes = update w.bytes root r.1; cr3 = reactivated cr3 w })
    ]

-- The end of PsSpawnUserKpeFromBuffer: the loading, the rights of the sections, the thread.
unfoldable pub finish_image :
    ℕ → ℕ → ℕ → ℕ → NtHeaders → (ℕ → ℕ) → ℕ → ℕ → ℕ → World → Option Spawned
unfolding load_active protect_sections start_thread
finish_image stack_pool thunk process size nt file k image stack w =
    elim (load_active k image size nt file w) [
      | none ↦ none
      | some loaded ↦
          let root = (w.spaces.pool k).root_table_physical in
          let memory =
            protect_sections nt.number_of_sections 0 root (section_table nt file) file image
              loaded.1.spaces.memory in
          let protected = record loaded.1 { spaces = record loaded.1.spaces { memory = memory } } in
          if not (succeeded loaded.0)
          then some (loaded.0, none, loaded.1)
          else start_thread stack_pool thunk process
              ((image + nt.optional.address_of_entry_point) % 2 ^ 64)
              ((stack + user_stack_size) % 2 ^ 64) protected
    ]

abbrev pub or_zero : Option ℕ → ℕ
or_zero none = 0
or_zero (some a) = a

-- The test of the preferred base.
unfoldable pub is_bad_base : ℕ → ℕ → Bool
is_bad_base base size =
    base == 0
    || leb user_top base
    || ltb ((base + size) % 2 ^ 64) base
    || leb user_top ((base + size) % 2 ^ 64)

-- PsSpawnUserKpeFromBuffer with the process made, and its address space in slot `k`.
unfoldable pub map_process : ℕ → ℕ → ℕ → ℕ → NtHeaders → (ℕ → ℕ) → ℕ → World → Option Spawned
unfolding is_bad_base map_image map_stack finish_image
map_process stack_pool thunk process size nt file k w =
    let preferred = bit_and nt.optional.image_base (complement 64 4095) in
    let (mapped, image, w1) = map_image k nt preferred w in
    let (stacked, stack, w2) = map_stack k w1 in
    if is_bad_base preferred nt.optional.size_of_image
    then some (invalid_parameter, none, w)
    else if not (succeeded mapped)
    then some (mapped, none, w1)
    else if not (succeeded stacked)
    then some (stacked, none, w2)
    else finish_image stack_pool thunk process size nt file k (or_zero image) (or_zero stack) w2

-- PsSpawnUserKpeFromBuffer with the headers of the file.
unfoldable pub spawn_headers : ℕ → ℕ → ℕ → NtHeaders → (ℕ → ℕ) → World → Option Spawned
unfolding create_user_process map_process
spawn_headers stack_pool thunk size nt file w =
    let (status, process, made) = create_user_process w in
    elim process [
      | none ↦ some (status, none, made)
      | some p ↦
          map_process stack_pool thunk p size nt file
            (or_zero (made.ps.process_pool p).address_space_root) made
    ]

-- `PsSpawnUserKpeFromBuffer`; the image is none for NULL.
unfoldable pub spawn_user_kpe_from_buffer : ℕ → ℕ → Option (ℕ → ℕ) → ℕ → World → Option Spawned
unfolding user_headers spawn_headers
spawn_user_kpe_from_buffer stack_pool thunk none size w = some (invalid_parameter, none, w)
spawn_user_kpe_from_buffer stack_pool thunk (some file) size w =
    if not w.ps.ready then some (invalid_parameter, none, w) else elim (user_headers size file) [
      | none ↦ some (invalid_parameter, none, w)
      | some nt ↦ spawn_headers stack_pool thunk size nt file w
    ]
