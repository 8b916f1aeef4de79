-- ===== src/Mm/Space.antt =====
-- kernel/mm/init.c, the address spaces: MM_ADDRESS_SPACE, MM_VA_REGION, the pool of address spaces,
-- MmMapAnonymous and MmpFindRegion. An address space that a caller passes by pointer is a value that
-- the operation returns.
use ntx_preview.Base.{
  ℕ, zero, suc, ◌+◌, ◌/◌, ◌%◌, ◌^◌, Bool, true, false, not, ◌&&◌, ◌||◌, Option, none, some, update,
  bit_and, bit_or, if◌then◌else◌, ◌==◌, ◌!=◌, leb, ltb, first_index, Status, succeeded, success,
  invalid_parameter, init_failed,
}
use ntx_preview.Mm.{page_size, align_up, align_size_to_page}
use ntx_preview.Mm.Walk.{
  Memory, has, frame, fresh_frame, user_base, pte_writable, pte_user, pte_nx, pte_soft_cow,
}
use ntx_preview.Mm.Pte.{as_map_page}

abbrev pub max_address_spaces : ℕ
max_address_spaces = 64

abbrev pub max_va_regions : ℕ
max_va_regions = 128

-- MM_PROT_WRITE, MM_PROT_EXECUTE and MM_PROT_USER
abbrev pub prot_write : ℕ
prot_write = 2

abbrev pub prot_execute : ℕ
prot_execute = 4

abbrev pub prot_user : ℕ
prot_user = 8

-- MM_REGION_TYPE_ANON, MM_REGION_TYPE_PHYS and MM_REGION_TYPE_SECTION
abbrev pub region_type_anon : ℕ
region_type_anon = 1

abbrev pub region_type_phys : ℕ
region_type_phys = 2

abbrev pub region_type_section : ℕ
region_type_section = 3

-- MM_REGION_FLAG_LAZY, MM_REGION_FLAG_WIRED, MM_REGION_FLAG_COW and MM_REGION_FLAG_GUARD
abbrev pub region_flag_lazy : ℕ
region_flag_lazy = 1

abbrev pub region_flag_wired : ℕ
region_flag_wired = 2

abbrev pub region_flag_cow : ℕ
region_flag_cow = 4

abbrev pub region_flag_guard : ℕ
region_flag_guard = 8

-- `MM_VA_REGION`; the backing object is the object header's address, none for 0.
pub record VaRegion : Type 0 where
  pub base : ℕ
  pub size : ℕ
  pub type : ℕ
  pub protection : ℕ
  pub flags : ℕ
  pub committed_pages : ℕ
  pub backing_physical_base : ℕ
  pub backing_object : Option ℕ
  pub backing_offset : ℕ

-- `MM_ADDRESS_SPACE`
pub record AddressSpace : Type 0 where
  pub address_space_id : ℕ
  pub owner_process_id : ℕ
  pub root_table_physical : ℕ
  pub next_user_base : ℕ
  pub region_count : ℕ
  pub regions : ℕ → VaRegion

-- The globals of init.c that hold the address spaces.
pub record Spaces : Type 0 where
  pub memory : Memory
  pub pool : ℕ → AddressSpace
  pub in_use : ℕ → Bool
  pub next_address_space_id : ℕ
  pub kernel_root_table_physical : ℕ

-- The address space that a slot gets, with its root table made.
abbrev pub new_space : ℕ → ℕ → Spaces → AddressSpace → AddressSpace
new_space owner root st old = record old {
  address_space_id = st.next_address_space_id;
  owner_process_id = owner;
  root_table_physical = root;
  next_user_base = user_base;
  region_count = 0;
}

-- MmCreateAddressSpace with a free slot and what MmAllocPage gave for the root table.
unfoldable pub create_at : ℕ → ℕ → Option ℕ × Memory → Spaces → Status × Option ℕ × Spaces
create_at owner k (none, m) st = (init_failed, none, record st { memory = m })
create_at owner k (some root, m) st = (
  success,
  some k,
  record st {
    memory = m;
    in_use = update st.in_use k true;
    pool = update st.pool k (new_space owner root st (st.pool k));
    next_address_space_id = (st.next_address_space_id + 1) % 2 ^ 64;
  },
)

-- `MmCreateAddressSpace`: the new root table starts as a copy of the kernel's.
unfoldable pub create_address_space : ℕ → Bool → Spaces → Status × Option ℕ × Spaces
unfolding create_at
create_address_space owner out st =
    if not st.memory.pages.ready || not out
    then (invalid_parameter, none, st)
    else elim (first_index (λ k. not (st.in_use k)) max_address_spaces) [
      | none ↦ (init_failed, none, st)
      | some k ↦
          create_at owner k
            (fresh_frame (st.memory.words (frame st.kernel_root_table_physical)) st.memory) st
    ]

-- `MmGetAddressSpaceById`
unfoldable pub get_address_space_by_id : ℕ → Spaces → Option ℕ
get_address_space_by_id id st =
    if not st.memory.pages.ready || id == 0
    then none
    else first_index (λ k. st.in_use k && (st.pool k).address_space_id == id) max_address_spaces

-- `MmActivateAddressSpace`: the page-table register CR3 before and after.
unfoldable pub activate_address_space : Option AddressSpace → ℕ → Spaces → Status × ℕ
activate_address_space none cr3 st = (invalid_parameter, cr3)
activate_address_space (some space) cr3 st =
    if not st.memory.pages.ready
    then (invalid_parameter, cr3)
    else if frame cr3 != space.root_table_physical
    then (success, space.root_table_physical)
    else (success, cr3)

-- `MmpProtectionToPte`
unfoldable pub protection_to_pte : ℕ → ℕ → ℕ
protection_to_pte protection flags =
    let w =
      if has protection prot_write && not (has flags region_flag_cow) then pte_writable else 0 in
    let u = if has protection prot_user then bit_or w pte_user else w in
    let x = if not (has protection prot_execute) then bit_or u pte_nx else u in
    if has flags region_flag_cow then bit_or x pte_soft_cow else x

-- `MmpFindRegion`: the index of the region.
unfoldable pub find_region : AddressSpace → ℕ → Option ℕ
find_region space virtual =
    first_index
      (λ k.
        leb (space.regions k).base virtual
        && ltb virtual (((space.regions k).base + (space.regions k).size) % 2 ^ 64))
      space.region_count

-- The loop of MmMapAnonymous over a wired region, in `n` rounds from `cursor` on: the status, the
-- pages committed and memory.
unfoldable pub wire : ℕ → ℕ → ℕ → ℕ → ℕ → ℕ → Memory → Status × ℕ × Memory
wire root base flags zero cursor committed m = (success, committed, m)
wire root base flags (suc n) cursor committed m =
    let (out, filled) = fresh_frame (λ i. 0) m in
    elim out [
      | none ↦ (init_failed, committed, filled)
      | some pa ↦
          let (status, mapped) =
            as_map_page (some root) ((base + cursor) % 2 ^ 64) pa flags filled in
          elim (succeeded status) [
            | false ↦ (init_failed, committed, mapped)
            | true ↦ wire root base flags n (cursor + page_size) ((committed + 1) % 2 ^ 32) mapped
          ]
    ]

-- A region is lazy unless it is asked to be lazy or wired.
abbrev pub effective_flags : ℕ → ℕ
effective_flags flags =
    if bit_and flags (bit_or region_flag_lazy region_flag_wired) == 0
    then bit_or flags region_flag_lazy
    else flags

-- The region that MmMapAnonymous writes behind the others.
abbrev pub anonymous : AddressSpace → ℕ → ℕ → ℕ → ℕ → VaRegion
anonymous space base size protection flags = record {
  base = base;
  size = size;
  type = region_type_anon;
  protection = bit_or protection prot_user;
  flags = effective_flags flags;
  committed_pages = 0;
  backing_physical_base = 0;
  backing_object = none;
  backing_offset = 0;
}

abbrev pub write_region : ℕ → VaRegion → AddressSpace → AddressSpace
write_region k region space = record space { regions = update space.regions k region }

-- A region behind the others counts, and the next one starts behind it.
abbrev pub append_region : VaRegion → AddressSpace → AddressSpace
append_region region space = record (write_region space.region_count region space) {
  region_count = space.region_count + 1;
  next_user_base = (region.base + region.size) % 2 ^ 64;
}

-- MmMapAnonymous behind the loop over a wired region.
unfoldable pub map_committed :
    VaRegion → AddressSpace → Status × ℕ × Memory → Status × Option ℕ × AddressSpace × Memory
map_committed region space (status, committed, m) =
    let full = record region { committed_pages = committed } in
    if succeeded status
    then (success, some region.base, append_region full space, m)
    else (status, none, write_region space.region_count full space, m)

-- The pages of a wired region are mapped at once, those of a lazy one at the faults.
abbrev pub wire_region : VaRegion → AddressSpace → Memory → Status × ℕ × Memory
wire_region region space m =
    if has region.flags region_flag_wired
    then wire space.root_table_physical region.base
        (protection_to_pte region.protection region.flags) (region.size / page_size) 0 0 m
    else (success, 0, m)

-- MmMapAnonymous with the region that it makes.
unfoldable pub map_region :
    VaRegion → AddressSpace → Memory → Status × Option ℕ × AddressSpace × Memory
unfolding map_committed
map_region region space m = map_committed region space (wire_region region space m)

-- `MmMapAnonymous`; `out` is whether the result pointer is not NULL.
unfoldable pub map_anonymous :
    AddressSpace → ℕ → ℕ → ℕ → Bool → Memory → Status × Option ℕ × AddressSpace × Memory
map_anonymous space size protection flags out m =
    if not m.pages.ready || not out
    then (invalid_parameter, none, space, m)
    else if leb max_va_regions space.region_count
    then (init_failed, none, space, m)
    else map_region
        (anonymous space (align_up space.next_user_base page_size) (align_size_to_page size)
          protection flags)
        space m
