-- ===== src/Ps/Loaded.antt =====
-- What the loading of a user image leaves alone: every byte outside the image.
use ntx_preview.Base.{
  ℕ, zero, suc, ◌+◌, ◌≤◌, ◌<◌, ◌≡◌, ◌≢◌, ◌∙◌, ◌⊎◌, ap, refl, not, arith, some, inl, inr, Bool-cases,
  succeeded, Status, update, update-ne, ltb, ◌==◌, sym,
}
use ntx_preview.Kpe.{NtHeaders, OptionalHeader, SectionHeader, section_header, section_table}
use ntx_preview.Ps.Image.{apply_relocations}
use ntx_preview.Ps.Patched.{apply_relocations-inside}
use ntx_preview.Ps.Load.{
  copy_file, copy_section, header_copy_size, copy_sections, copy_image, relocate_copied, load_image,
}

copy_file-outside :
    (n i dst src : ℕ) (file memory : ℕ → ℕ) (a : ℕ)
    → (a < dst + i) ⊎ (dst + i + n ≤ a)
    → copy_file n i dst src file memory a ≡ memory a
unfolding copy_file
copy_file-outside zero i dst src file memory a h = refl
copy_file-outside (suc n) i dst src file memory a h =
    let later : (a < dst + (i + 1)) ⊎ (dst + (i + 1) + n ≤ a) = elim h [
      | inl l ↦ inl (omega (arith, l))
      | inr l ↦ inr (omega (arith, l))
    ] in
    let ne : dst + i ≢ a = elim h [
      | inl l ↦ λ e. absurd (omega (arith, l, e))
      | inr l ↦ λ e. absurd (omega (arith, l, e))
    ] in
    copy_file-outside n (i + 1) dst src file (update memory (dst + i) (file (src + i))) a later
    ∙ update-ne memory (dst + i) a (file (src + i)) ne

header_copy_size-image :
    (nt : OptionalHeader) (size : ℕ) → header_copy_size nt size ≤ nt.size_of_image
unfolding header_copy_size
header_copy_size-image nt size = ground arith

module _ (base : ℕ) (nt : OptionalHeader) (a : ℕ)
    (out : (a < base) ⊎ (base + nt.size_of_image ≤ a)) where
  -- A part of the image is not where `a` is.
  far : (at n : ℕ) → base ≤ at → at + n ≤ base + nt.size_of_image → (a < at + 0) ⊎ (at + 0 + n ≤ a)
  far at n b l = elim out [ inl h ↦ inl (omega (arith, h)) | inr h ↦ inr (omega (arith, h, l)) ]

  copy_section-outside :
      (section : SectionHeader) (file memory : ℕ → ℕ)
      → (copy_section section base nt file memory).1 a ≡ memory a
  unfolding copy_section
  copy_section-outside section file memory = elim (Bool-cases (section.size_of_raw_data == 0)) [
    | inl z ↦ rw z refl
    | inr z ↦
        elim (Bool-cases
          (ltb nt.size_of_image (section.virtual_address + section.size_of_raw_data))) [
            | inl l ↦ rw (z, l) refl
            | inr l ↦
                rw (z, l)
                  (copy_file-outside section.size_of_raw_data 0 (base + section.virtual_address)
                    section.pointer_to_raw_data file memory a
                    (far (base + section.virtual_address) section.size_of_raw_data (omega arith)
                      (ground (arith, l))))
          ]
  ]

  copy_sections-outside :
      (n k table : ℕ) (file memory : ℕ → ℕ)
      → (copy_sections n k base table nt file memory).1 a ≡ memory a
  unfolding copy_sections
  copy_sections-outside zero k table file memory = refl
  copy_sections-outside (suc n) k table file memory =
      let section = section_header table k file in
      let copied = copy_section section base nt file memory in
      elim (Bool-cases (not (succeeded copied.0))) [
        | inl f ↦ rw f (copy_section-outside section file memory)
        | inr f ↦ rw f (
            copy_sections-outside n (k + 1) table file copied.1
            ∙ copy_section-outside section file memory)
      ]

  relocate_copied-outside :
      (r s : Status × (ℕ → ℕ)) → relocate_copied base nt r ≡ some s → s.1 a ≡ r.1 a
  unfolding relocate_copied
  relocate_copied-outside (status, memory) s ran = elim (Bool-cases (succeeded status)) [
    | inl h ↦
        let here : relocate_copied base nt (status, memory) ≡ apply_relocations base nt memory =
          rw h refl in
        apply_relocations-inside base nt memory s a (sym here ∙ ran) out
    | inr h ↦
        let here : relocate_copied base nt (status, memory) ≡ some (status, memory) = rw h refl in
        let same : (status, memory) ≡ s = cc (here, ran) in
        ap (λ (x : Status × (ℕ → ℕ)). x.1 a) (sym same)
  ]

-- The loading of a user image changes no byte below its base, and none from the end of the image on,
-- whatever the file holds and whatever is returned.
pub load_image-inside :
    (base size : ℕ) (nt : NtHeaders) (file memory : ℕ → ℕ) (r : Status × (ℕ → ℕ)) (a : ℕ)
    → load_image base size nt file memory ≡ some r
    → (a < base) ⊎ (base + nt.optional.size_of_image ≤ a)
    → r.1 a ≡ memory a
unfolding load_image copy_image
load_image-inside base size nt file memory r a ran out =
    relocate_copied-outside base nt.optional a out (copy_image base size nt file memory) r ran
    ∙ copy_sections-outside base nt.optional a out nt.number_of_sections 0 (section_table nt file)
        file _
    ∙ copy_file-outside (header_copy_size nt.optional size) 0 base 0 file memory a (
        far base nt.optional a out base (header_copy_size nt.optional size) (omega arith)
          (omega (arith, header_copy_size-image nt.optional size)))
