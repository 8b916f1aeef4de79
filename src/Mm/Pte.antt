-- ===== src/Mm/Pte.antt =====
-- kernel/mm/init.c, the operations on one page-table entry: MmAsMapPage, MmAsUnmapPage,
-- MmAsProtectPage and MmAsQueryPte. The address space is given by its root table, none for NULL;
-- the flush of the processor's own copy of the entry, MmpInvalidatePage, leaves memory alone.
use ntx_preview.Base.{
  ℕ, ◌%◌, Bool, true, false, not, ◌||◌, Option, none, some, is_some, bit_or, if◌then◌else◌, ◌!=◌,
  Status, success, not_found, invalid_parameter,
}
use ntx_preview.Mm.{page_size, release_page}
use ntx_preview.Mm.Walk.{
  Memory, Walked, reached, stopped, frame, has, pte_present, write_word, leaf_index, walk_to_pte,
}

-- `MmpReleasePage(*Pte & MM_PTE_ADDR_MASK)` if the entry is present.
abbrev pub release_entry : ℕ → Memory → Memory
release_entry entry m =
    if has entry pte_present then record m { pages = release_page (frame entry) m.pages } else m

-- `(PhysicalAddress & MM_PTE_ADDR_MASK) | Flags | MM_PTE_PRESENT`
abbrev pub page_entry : ℕ → ℕ → ℕ
page_entry physical flags = bit_or (bit_or (frame physical) flags) pte_present

-- `MmAsMapPage` behind the walk.
unfoldable pub map_at : ℕ → ℕ → ℕ → Walked → Status × Memory
map_at virtual physical flags (stopped status m) = (status, m)
map_at virtual physical flags (reached table m) =
    let i = leaf_index virtual in
    (success, write_word table i (page_entry physical flags) (release_entry (m.words table i) m))

-- `MmAsMapPage`
unfoldable pub as_map_page : Option ℕ → ℕ → ℕ → ℕ → Memory → Status × Memory
as_map_page space virtual physical flags m =
    if not m.pages.ready
      || not (is_some space)
      || virtual % page_size != 0
      || physical % page_size != 0
    then (invalid_parameter, m)
    else map_at virtual physical flags (walk_to_pte space virtual true m)

-- `MmAsUnmapPage` behind the walk.
unfoldable pub unmap_at : ℕ → Walked → Status × Memory
unmap_at virtual (stopped status m) = (status, m)
unmap_at virtual (reached table m) =
    let i = leaf_index virtual in
    if not (has (m.words table i) pte_present)
    then (not_found, m)
    else (success, write_word table i 0 (release_entry (m.words table i) m))

-- `MmAsUnmapPage`
unfoldable pub as_unmap_page : Option ℕ → ℕ → Memory → Status × Memory
as_unmap_page space virtual m =
    if not m.pages.ready || not (is_some space) || virtual % page_size != 0
    then (invalid_parameter, m)
    else unmap_at virtual (walk_to_pte space virtual false m)

-- `MmAsProtectPage` behind the walk.
unfoldable pub protect_at : ℕ → ℕ → Walked → Status × Memory
protect_at virtual flags (stopped status m) = (status, m)
protect_at virtual flags (reached table m) =
    let i = leaf_index virtual in
    if not (has (m.words table i) pte_present)
    then (not_found, m)
    else (success, write_word table i (page_entry (m.words table i) flags) m)

-- `MmAsProtectPage`
unfoldable pub as_protect_page : Option ℕ → ℕ → ℕ → Memory → Status × Memory
as_protect_page space virtual flags m =
    if not m.pages.ready || not (is_some space) || virtual % page_size != 0
    then (invalid_parameter, m)
    else protect_at virtual flags (walk_to_pte space virtual false m)

-- `MmAsQueryPte` behind the walk; the walk of a query makes no table, so memory stays.
unfoldable pub query_at : ℕ → Walked → Status × Option ℕ
query_at virtual (stopped status m) = (status, none)
query_at virtual (reached table m) = (success, some (m.words table (leaf_index virtual)))

-- `MmAsQueryPte`; `out` is whether the result pointer is not NULL.
unfoldable pub as_query_pte : Option ℕ → ℕ → Bool → Memory → Status × Option ℕ
as_query_pte space virtual out m =
    if not m.pages.ready || not (is_some space) || not out || virtual % page_size != 0
    then (invalid_parameter, none)
    else query_at virtual (walk_to_pte space virtual false m)
