-- ===== src/Mm/Walk.antt =====
-- kernel/mm/init.c, the page tables: MmpWalkToPte. Physical memory is a store of 64-bit words,
-- named by the frame's address and the word's number in the frame; MmpPhysToVirtTable and
-- MmpPhysToVirtPage reach every frame. A frame is zeroed or copied as its 512 words.
-- NK_ASSERT(RootTablePhysical != 0) is not part of the walk.
use ntx_preview.Base.{
  ℕ, ◌+◌, ◌-◌, ◌*◌, ◌/◌, ◌^◌, Bool, true, false, not, ◌&&◌, ◌||◌, Option, none, some, List, [], ◌∷◌,
  update, bit_and, bit_or, if◌then◌else◌, ◌==◌, ◌!=◌, leb, ltb, Status, not_found, init_failed,
  not_implemented, invalid_parameter,
}
use ntx_preview.Base.Bits.{complement}
use ntx_preview.Mm.{Pages, page_size, alloc_page}

-- MM_PTE_PRESENT, MM_PTE_WRITABLE, MM_PTE_USER, MM_PTE_LARGE, MM_PTE_SOFT_COW, MM_PTE_NX and
-- MM_PTE_ADDR_MASK
abbrev pub pte_present : ℕ
pte_present = 1

abbrev pub pte_writable : ℕ
pte_writable = 2

abbrev pub pte_user : ℕ
pte_user = 4

abbrev pub pte_large : ℕ
pte_large = 128

abbrev pub pte_soft_cow : ℕ
pte_soft_cow = 512

abbrev pub pte_nx : ℕ
pte_nx = 2 ^ 63

abbrev pub pte_addr_mask : ℕ
pte_addr_mask = (2 ^ 40 - 1) * 2 ^ 12

-- MM_USER_BASE and MM_USER_TOP
abbrev pub user_base : ℕ
user_base = 1073741824

abbrev pub user_top : ℕ
user_top = 2 ^ 47

-- Physical pages together with what the frames hold.
pub record Memory : Type 0 where
  pub pages : Pages
  pub words : ℕ → ℕ → ℕ

-- The frame of an address or a page-table entry, `& MM_PTE_ADDR_MASK`.
abbrev pub frame : ℕ → ℕ
frame e = bit_and e pte_addr_mask

-- `(Value & Flag) != 0`
abbrev pub has : ℕ → ℕ → Bool
has value flag = bit_and value flag != 0

-- `MmpIsUserAddress`
abbrev pub is_user_address : ℕ → Bool
is_user_address virtual = leb user_base virtual && ltb virtual user_top

-- `MmpIsCanonicalAddress`
abbrev pub is_canonical_address : ℕ → Bool
is_canonical_address virtual = virtual / 2 ^ 48 == 0 || virtual / 2 ^ 48 == 65535

-- `Table[Index] = Entry`
abbrev pub write_word : ℕ → ℕ → ℕ → Memory → Memory
write_word table i entry m = record m {
  words = update m.words table (update (m.words table) i entry);
}

-- The frame that MmAllocPage gave is filled.
unfoldable pub filled : (ℕ → ℕ) → Option ℕ → Pages → Memory → Option ℕ × Memory
filled fill none pages m = (none, record m { pages = pages })
filled fill (some pa) pages m =
    (some pa, record { pages = pages; words = update m.words (frame pa) fill })

-- MmAllocPage and the loop that fills the new frame.
unfoldable pub fresh_frame : (ℕ → ℕ) → Memory → Option ℕ × Memory
unfolding filled
fresh_frame fill m = let (status, out, pages) = alloc_page true m.pages in filled fill out pages m

-- The walk is at an entry or in a table, or has returned.
pub data Walked : Type 0 where
  reached : ℕ → Memory → Walked
  stopped : Status → Memory → Walked

-- What the pages of a 2 MiB entry get for entries.
abbrev pub split_table : ℕ → ℕ → ℕ
split_table entry i =
    bit_or
      (bit_or (frame entry + i * page_size)
        (bit_and entry (bit_or (bit_or pte_writable pte_user) pte_nx)))
      pte_present

-- The entry for a new table.
abbrev pub linked_entry : Bool → ℕ → ℕ
linked_entry user pa =
    let entry = bit_or (bit_or pa pte_present) pte_writable in
    if user then bit_or entry pte_user else entry

-- The entry for a new table is written at its place.
unfoldable pub link_table : Bool → ℕ → ℕ → Option ℕ × Memory → Walked
link_table user table i (none, m) = stopped init_failed m
link_table user table i (some pa, m) =
    reached (linked_entry user pa) (write_word table i (linked_entry user pa) m)

-- A large entry is split, in the third table only; `last` is `Level == 2`.
unfoldable pub split_large : Bool → ℕ → Bool → ℕ → ℕ → Memory → Walked
unfolding fresh_frame link_table
split_large create virtual last table i m =
    let entry = m.words table i in
    if not (has entry pte_present && has entry pte_large)
    then reached entry m
    else if not last
    then stopped not_implemented m
    else if not create
    then stopped not_found m
    else link_table (ltb virtual user_top) table i (fresh_frame (split_table entry) m)

-- The entry of a user address is opened to user code.
abbrev pub opened_entry : ℕ → ℕ
opened_entry entry = bit_and (bit_or entry pte_user) (complement 64 pte_nx)

unfoldable pub sanitize : Bool → ℕ → ℕ → ℕ → ℕ → Memory → Walked
sanitize create virtual table i entry m =
    if has entry pte_present && is_user_address virtual && create && opened_entry entry != entry
    then reached (opened_entry entry) (write_word table i (opened_entry entry) m)
    else reached entry m

-- A missing table is made.
unfoldable pub create_missing : Bool → ℕ → ℕ → ℕ → ℕ → Memory → Walked
unfolding fresh_frame link_table
create_missing create virtual table i entry m =
    if has entry pte_present
    then reached entry m
    else if not create
    then stopped not_found m
    else link_table (is_user_address virtual) table i (fresh_frame (λ j. 0) m)

-- A step goes on from an entry that the one before reached.
unfoldable pub go_on : (ℕ → Memory → Walked) → Walked → Walked
go_on f (reached a m) = f a m
go_on f (stopped status m) = stopped status m

-- One round of the loop over the levels; it reaches the table of the next level.
unfoldable pub enter : Bool → ℕ → Bool → ℕ → ℕ → Memory → Walked
enter create virtual last table i m =
    go_on (λ e m3. reached (frame e) m3)
      (go_on (create_missing create virtual table i)
        (go_on (sanitize create virtual table i) (split_large create virtual last table i m)))

abbrev pub is_last : List ℕ → Bool
is_last [] = true
is_last (i ∷ is) = false

-- The loop over the levels, by the indexes that are left.
unfoldable pub descend : Bool → ℕ → List ℕ → ℕ → Memory → Walked
unfolding enter
descend create virtual [] table m = reached table m
descend create virtual (i ∷ is) table m =
    go_on (descend create virtual is) (enter create virtual (is_last is) table i m)

-- `Indexes[0]` to `Indexes[2]`, and `Indexes[3]`
abbrev pub upper_indexes : ℕ → List ℕ
upper_indexes virtual =
    bit_and (virtual / 2 ^ 39) 511
    ∷ bit_and (virtual / 2 ^ 30) 511
    ∷ bit_and (virtual / 2 ^ 21) 511
    ∷ []

abbrev pub leaf_index : ℕ → ℕ
leaf_index virtual = bit_and (virtual / 2 ^ 12) 511

-- `MmpWalkToPte` in the address space with this root, none for NULL: the table with the entry.
unfoldable pub walk_to_pte : Option ℕ → ℕ → Bool → Memory → Walked
walk_to_pte none virtual create m = stopped invalid_parameter m
walk_to_pte (some root) virtual create m =
    if not (is_canonical_address virtual)
    then stopped invalid_parameter m
    else descend create virtual (upper_indexes virtual) (frame root) m
