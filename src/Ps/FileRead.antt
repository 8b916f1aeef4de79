-- ===== src/Ps/FileRead.antt =====
-- The loading of a user image reads no byte past the end of the file.
use ntx_preview.Base.{
  ℕ, zero, suc, ◌+◌, ◌*◌, ◌^◌, ◌≤◌, ◌<◌, ◌≡◌, ◌∙◌, ap, refl, subst, Bool, true, false, not, ◌||◌,
  arith, some, inl, inr, Bool-cases, Status, succeeded, ltb, ◌==◌, ◌!=◌, if◌then◌else◌,
}
use native.Mathlib.Nat.{pow-suc}
use ntx_preview.Kpe.{
  NtHeaders, OptionalHeader, SectionHeader, read_bytes, section_header, section_table, e_magic,
  e_lfanew, nt_headers, dos_header_bytes, nt_headers_bytes, section_header_bytes, dos_magic,
}
use ntx_preview.Ps.Image.{file_range_valid}
use ntx_preview.Ps.Headers.{
  user_headers, tested_headers, sections_in_file, is_bad_user_header, image_max_size,
}
use ntx_preview.Ps.Load.{
  copy_file, copy_section, header_copy_size, copy_sections, copy_image, relocate_copied, load_image,
}

-- Two files of which the first `size` bytes are the same.
module _ (size : ℕ) (file other : ℕ → ℕ) (same : (a : ℕ) → a < size → file a ≡ other a) where
  read_bytes-same : (n at : ℕ) → at + n ≤ size → read_bytes n at file ≡ read_bytes n at other
  unfolding read_bytes
  read_bytes-same zero at l = refl
  read_bytes-same (suc n) at l =
      rw (same at (omega arith), read_bytes-same n (at + 1) (omega arith)) refl

  nt_headers-same : (at : ℕ) → at + 264 ≤ size → nt_headers at file ≡ nt_headers at other
  nt_headers-same at l = simp (
    read_bytes-same 4 at (omega arith),
    read_bytes-same 2 (at + 4) (omega arith),
    read_bytes-same 2 (at + 6) (omega arith),
    read_bytes-same 2 (at + 20) (omega arith),
    read_bytes-same 2 (at + 24) (omega arith),
    read_bytes-same 4 (at + 24 + 16) (omega arith),
    read_bytes-same 8 (at + 24 + 24) (omega arith),
    read_bytes-same 4 (at + 24 + 32) (omega arith),
    read_bytes-same 4 (at + 24 + 36) (omega arith),
    read_bytes-same 4 (at + 24 + 56) (omega arith),
    read_bytes-same 4 (at + 24 + 60) (omega arith),
    read_bytes-same 2 (at + 24 + 68) (omega arith),
    read_bytes-same 2 (at + 24 + 70) (omega arith),
    read_bytes-same 4 (at + 24 + 108) (omega arith),
    read_bytes-same 4 (at + 24 + 152) (omega arith),
    read_bytes-same 4 (at + 24 + 156) (omega arith),
  )

  section_header-same :
      (table k n : ℕ)
      → table + n * 40 ≤ size
      → k < n
      → section_header table k file ≡ section_header table k other
  section_header-same table k n l b =
      let inside : table + k * 40 + 40 ≤ size = omega arith in
      let at = table + k * 40 in
      simp (
        read_bytes-same 4 (at + 8) (omega arith),
        read_bytes-same 4 (at + 12) (omega arith),
        read_bytes-same 4 (at + 16) (omega arith),
        read_bytes-same 4 (at + 20) (omega arith),
        read_bytes-same 4 (at + 36) (omega arith),
      )

  copy_file-same :
      (n i dst src : ℕ) (memory : ℕ → ℕ)
      → src + i + n ≤ size
      → copy_file n i dst src file memory ≡ copy_file n i dst src other memory
  unfolding copy_file
  copy_file-same zero i dst src memory l = refl
  copy_file-same (suc n) i dst src memory l =
      rw (same (src + i) (omega arith)) (copy_file-same n (i + 1) dst src _ (omega arith))

  sections_in_file-same :
      (n k table count : ℕ)
      → table + count * 40 ≤ size
      → k + n ≤ count
      → sections_in_file n k table size file ≡ sections_in_file n k table size other
  unfolding sections_in_file
  sections_in_file-same zero k table count l b = refl
  sections_in_file-same (suc n) k table count l b =
      let rest = sections_in_file-same n (k + 1) table count l (omega arith) in
      let header = section_header-same table k count l (omega arith) in
      subst
        (λ (h : SectionHeader). sections_in_file (suc n) k table size file ≡ (
          if h.size_of_raw_data == 0
          then sections_in_file n (k + 1) table size other
          else if not (file_range_valid size h.pointer_to_raw_data h.size_of_raw_data)
          then false
          else sections_in_file n (k + 1) table size other))
        header
        (ap
          (λ (r : Bool).
            if (section_header table k file).size_of_raw_data == 0
            then r
            else if not (
                file_range_valid size (section_header table k file).pointer_to_raw_data
                  (section_header table k file).size_of_raw_data)
            then false
            else r)
          rest)

  tested_headers-same :
      (table : ℕ) (nt : NtHeaders)
      → tested_headers size file table nt ≡ tested_headers size other table nt
  unfolding tested_headers
  tested_headers-same table nt = elim (Bool-cases (is_bad_user_header nt)) [
    | inl b ↦ rw b refl
    | inr b ↦ elim (Bool-cases (ltb size (table + nt.number_of_sections * section_header_bytes))) [
      | inl t ↦ rw (b, t) refl
      | inr t ↦
          rw
            (
              b,
              t,
              sections_in_file-same nt.number_of_sections 0 table nt.number_of_sections
                  (ground (arith, t)) (omega arith),
            )
            refl
    ]
  ]

  user_headers-same : user_headers size file ≡ user_headers size other
  unfolding user_headers
  user_headers-same = elim (Bool-cases (ltb size dos_header_bytes || ltb image_max_size size)) [
    | inl s ↦ rw s refl
    | inr s ↦
        let room : 64 ≤ size = ground (arith, s) in
        let magic = read_bytes-same 2 0 (omega arith) in
        let lfanew = read_bytes-same 4 60 (omega arith) in
        elim (Bool-cases (e_magic other != dos_magic)) [
          | inl m ↦ rw (s, magic, m) refl
          | inr m ↦ elim (Bool-cases (ltb size (e_lfanew other + nt_headers_bytes))) [
            | inl t ↦ rw (s, magic, m, lfanew, t) refl
            | inr t ↦
                let at = e_lfanew other in
                rw (s, magic, m, lfanew, t)
                  (tested_headers-same (section_table (nt_headers at file) other)
                      (nt_headers at file)
                    ∙ ap (λ (nt : NtHeaders). tested_headers size other (section_table nt other) nt)
                        (nt_headers-same at (ground (arith, t))))
          ]
        ]
  ]

  module _ (bytes : (a : ℕ) → file a < 256) where
    read_bytes-bound : (n at : ℕ) → read_bytes n at file < 256 ^ n
    unfolding read_bytes
    read_bytes-bound zero at = omega arith
    read_bytes-bound (suc n) at =
        omega (arith, bytes at, read_bytes-bound n (at + 1), pow-suc 256 n)

    -- A section that passed its test is read inside the file.
    copy_section-same :
        (table k n base : ℕ) (nt : OptionalHeader) (memory : ℕ → ℕ)
        → sections_in_file (suc n) k table size file ≡ true
        → copy_section (section_header table k file) base nt file memory
          ≡ copy_section (section_header table k file) base nt other memory
    unfolding copy_section sections_in_file file_range_valid
    copy_section-same table k n base nt memory valid =
        let section = section_header table k file in
        let raw = read_bytes-bound 4 (table + k * 40 + 16) in
        let start = read_bytes-bound 4 (table + k * 40 + 20) in
        elim (Bool-cases (section.size_of_raw_data == 0)) [
          | inl z ↦ rw z refl
          | inr z ↦
              let inside : section.pointer_to_raw_data + 0 + section.size_of_raw_data ≤ size =
                ground (arith, valid, z, raw, start) in
              rw
                (copy_file-same section.size_of_raw_data 0 (base + section.virtual_address)
                  section.pointer_to_raw_data memory inside)
                refl
        ]

    sections_in_file-rest :
        (n k table : ℕ)
        → sections_in_file (suc n) k table size file ≡ true
        → sections_in_file n (k + 1) table size file ≡ true
    unfolding sections_in_file
    sections_in_file-rest n k table valid = ground (arith, valid)

    copy_sections-same :
        (n k base table count : ℕ) (nt : OptionalHeader) (memory : ℕ → ℕ)
        → table + count * 40 ≤ size
        → k + n ≤ count
        → sections_in_file n k table size file ≡ true
        → copy_sections n k base table nt file memory ≡ copy_sections n k base table nt other memory
    unfolding copy_sections
    copy_sections-same zero k base table count nt memory l b valid = refl
    copy_sections-same (suc n) k base table count nt memory l b valid =
        let round : copy_section (section_header table k file) base nt file memory
            ≡ copy_section (section_header table k other) base nt other memory =
          copy_section-same table k n base nt memory valid
          ∙ ap (λ (h : SectionHeader). copy_section h base nt other memory)
              (section_header-same table k count l (omega arith)) in
        let go = λ (r : Status × (ℕ → ℕ)).
          if not (succeeded r.0) then r else copy_sections n (k + 1) base table nt other r.1 in
        let copied = copy_section (section_header table k file) base nt file memory in
        ap (λ (x : Status × (ℕ → ℕ)). if not (succeeded copied.0) then copied else x)
          (copy_sections-same n (k + 1) base table count nt copied.1 l (omega arith)
            (sections_in_file-rest n k table valid))
        ∙ ap go round

    -- What the tests of a file say of its section table.
    tested_headers-valid :
        (table : ℕ) (nt nt' : NtHeaders)
        → tested_headers size file table nt ≡ some nt'
        → (nt ≡ nt')
          × (table + nt.number_of_sections * 40 ≤ size)
          × (sections_in_file nt.number_of_sections 0 table size file ≡ true)
    unfolding tested_headers
    tested_headers-valid table nt nt' e = ground (arith, e)

    user_headers-valid :
        (nt : NtHeaders)
        → user_headers size file ≡ some nt
        → (64 ≤ size)
          × (section_table nt file + nt.number_of_sections * 40 ≤ size)
          × (sections_in_file nt.number_of_sections 0 (section_table nt file) size file ≡ true)
    unfolding user_headers
    user_headers-valid nt e =
        let read = nt_headers (e_lfanew file) file in
        let tested : tested_headers size file (section_table read file) read ≡ some nt =
          ground (arith, e) in
        let (same_nt, inside, valid) =
          tested_headers-valid (section_table read file) read nt tested in
        let both =
          subst
            (λ (h : NtHeaders).
              (section_table h file + h.number_of_sections * 40 ≤ size)
              × (sections_in_file h.number_of_sections 0 (section_table h file) size file ≡ true))
            same_nt (inside, valid) in
        (ground (arith, e), both.0, both.1)

    -- A file of `size` bytes may hold anything behind them: PsSpawnUserKpeFromBuffer takes or refuses
    -- it all the same, and if it takes it, loads the same image.
    pub load_image-same :
        (user_headers size file ≡ user_headers size other)
        × ((nt : NtHeaders) (base : ℕ) (memory : ℕ → ℕ)
            → user_headers size file ≡ some nt
            → load_image base size nt file memory ≡ load_image base size nt other memory)
    unfolding load_image copy_image header_copy_size
    load_image-same = (
      user_headers-same,
      λ nt base memory e.
          let (room, table, valid) = user_headers-valid nt e in
          let lfanew = read_bytes-same 4 60 (omega arith) in
          let header_bytes = header_copy_size nt.optional size in
          let headers = copy_file-same header_bytes 0 base 0 memory (ground arith) in
          let copied = copy_file header_bytes 0 base 0 file memory in
          let n = nt.number_of_sections in
          ap (relocate_copied base nt.optional) (
            copy_sections-same n 0 base (section_table nt file) n nt.optional copied table
              (omega arith) valid
            ∙ ap
                (λ (t : ℕ).
                  copy_sections n 0 base (t + 4 + 20 + nt.size_of_optional_header) nt.optional other
                    copied)
                lfanew
            ∙ ap (copy_sections n 0 base (section_table nt other) nt.optional other) headers),
    )
