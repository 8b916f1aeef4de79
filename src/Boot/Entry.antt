-- ===== src/Boot/Entry.antt =====
-- The entry of a kernel image that LoadKpeImage has loaded.
use ntx_preview.Base.{
  ℕ, subst, ◌+◌, ◌%◌, ◌^◌, ◌<◌, ◌≡◌, ◌∙◌, sym, refl, false, arith, Option, none, some, inl, inr,
  Bool-cases, Option-cases,
}
use native.Mathlib.Nat.{mod-eq_of_lt}
use ntx_preview.Kpe.{NtHeaders, e_lfanew, nt_headers}
use ntx_preview.Boot.{efi_load_error, efi_error}
use ntx_preview.Boot.Image.{validate_kpe_image, is_bad_kernel_header, apply_relocations}
use ntx_preview.Boot.Load.{
  LoadedImage, relocated_image, copied_image, allocate_image, load_headers, load_kpe_image,
}
use ntx_preview.Boot.Handoff.{is_entry_outside}

-- What LoadKpeImage may write for a base and headers.
Loads : ℕ → NtHeaders → Option (ℕ × Option LoadedImage × (ℕ → ℕ)) → Type 0
Loads base nt o =
    (status : ℕ) (loaded : LoadedImage) (memory : ℕ → ℕ)
    → o ≡ some (status, some loaded, memory)
    → (loaded.image_base ≡ base)
      × (loaded.image_size ≡ nt.optional.size_of_image)
      × (loaded.entry_address ≡ (base + nt.optional.address_of_entry_point) % 2 ^ 64)

relocated_image-Loads :
    (base : ℕ) (nt : NtHeaders) (o : Option (ℕ × (ℕ → ℕ)))
    → Loads base nt (relocated_image base nt o)
unfolding relocated_image Loads
relocated_image-Loads base nt none status loaded memory e = absurd (cc e)
relocated_image-Loads base nt (some (code, after)) status loaded memory e =
    elim (Bool-cases (efi_error code)) [
      | inl h ↦
          let failed : relocated_image base nt (some (code, after)) ≡ some (code, none, after) =
            rw h refl in
          absurd (cc (failed, e))
      | inr h ↦ ground (arith, e, h)
    ]

header-entry :
    (nt : NtHeaders)
    → is_bad_kernel_header nt ≡ false
    → nt.optional.address_of_entry_point < nt.optional.size_of_image
unfolding is_bad_kernel_header
header-entry nt e = ground (arith, e)

validate_kpe_image-entry :
    (size : ℕ) (file : ℕ → ℕ) (nt : NtHeaders)
    → validate_kpe_image size file ≡ some nt
    → nt.optional.address_of_entry_point < nt.optional.size_of_image
unfolding validate_kpe_image
validate_kpe_image-entry size file nt e =
    let read = nt_headers (e_lfanew file) file in
    let (tested, same) : (is_bad_kernel_header read ≡ false) × (read ≡ nt) = ground (arith, e) in
    subst (λ (h : NtHeaders). h.optional.address_of_entry_point < h.optional.size_of_image) same
      (header-entry read tested)

module _ {W : Type 0} (allocate_pages : Option ℕ → ℕ → W → ℕ × ℕ × W) where
  load_headers-Loads :
      (size : ℕ) (file : ℕ → ℕ) (nt : NtHeaders) (memory : ℕ → ℕ) (w : W)
      → Loads
          (allocate_image allocate_pages nt w).1
          nt
          (load_headers allocate_pages size file nt memory w).0
  unfolding load_headers Loads
  load_headers-Loads size file nt memory w =
      let (status, base, w1) = allocate_image allocate_pages nt w in
      elim (Bool-cases (efi_error status)) [
        | inl h ↦ rw h (λ s l m e. absurd (cc e))
        | inr h ↦ rw h (
            relocated_image-Loads base nt
              (apply_relocations base nt.optional (copied_image base size nt file memory)))
      ]

  -- A kernel image that LoadKpeImage has loaded, below 2^64, has its entry inside: the test of efi_main
  -- lets every such image pass.
  pub load_kpe_image-entry :
      (size : ℕ) (file memory after : ℕ → ℕ) (w : W) (status : ℕ) (loaded : LoadedImage)
      → (load_kpe_image allocate_pages size file memory w).0 ≡ some (status, some loaded, after)
      → loaded.image_base + loaded.image_size < 2 ^ 64
      → is_entry_outside loaded ≡ false
  unfolding load_kpe_image is_entry_outside Loads
  load_kpe_image-entry size file memory after w status loaded ran room =
      elim (Option-cases (validate_kpe_image size file)) [
        | inl v ↦
            let refused : (load_kpe_image allocate_pages size file memory w).0
                ≡ some (efi_load_error, none, memory) =
              rw (v, load_kpe_image) refl in
            absurd (cc (refused, ran))
        | inr (nt, v) ↦
            let here : (load_kpe_image allocate_pages size file memory w).0
                ≡ (load_headers allocate_pages size file nt memory w).0 =
              rw (v, load_kpe_image) refl in
            let (base, length, entry) =
              load_headers-Loads size file nt memory w status loaded after (sym here ∙ ran) in
            let inside = validate_kpe_image-entry size file nt v in
            let at =
              mod-eq_of_lt
                {n = (allocate_image allocate_pages nt w).1 + nt.optional.address_of_entry_point}
                {m = 2 ^ 64} (omega (arith, room, base, length, inside)) in
            let end = mod-eq_of_lt {n = loaded.image_base + loaded.image_size} {m = 2 ^ 64} room in
            ground (arith, base, length, entry, inside, at, end)
      ]
