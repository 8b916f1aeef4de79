-- ===== src/Ps/Patched.antt =====
-- PspApplyUserKpeRelocations: no byte outside the image changes.
use ntx_preview.Base.{
  ℕ, zero, suc, ◌+◌, ◌/◌, ◌%◌, ◌≤◌, ◌<◌, ◌≡◌, ◌≢◌, ◌∙◌, ◌⊎◌, sym, ap, refl, Bool, true, false, not,
  arith, Option, none, some, inl, inr, Bool-cases, succeeded, Status, success, update, update-ne,
  ltb, if◌then◌else◌, ◌==◌, ◌!=◌, invalid_parameter,
}
use ntx_preview.Kpe.{
  OptionalHeader, read_bytes, write_bytes, block_bytes, rel_based_absolute, rel_based_dir64,
}
use ntx_preview.Ps.Image.{
  patch, patch_rva, apply_entries, is_bad_block, apply_block, apply_blocks, apply_relocations,
  without_loop, behind_tests,
}

pub write_bytes-outside :
    (n at value : ℕ) (memory : ℕ → ℕ) (a : ℕ)
    → (a < at) ⊎ (at + n ≤ a)
    → write_bytes n at value memory a ≡ memory a
unfolding write_bytes
write_bytes-outside zero at value memory a h = refl
write_bytes-outside (suc n) at value memory a h =
    let later : (a < at + 1) ⊎ (at + 1 + n ≤ a) = elim h [
      | inl l ↦ inl (omega (arith, l))
      | inr l ↦ inr (omega (arith, l))
    ] in
    let ne : at ≢ a = elim h [
      | inl l ↦ λ e. absurd (omega (arith, l, e))
      | inr l ↦ λ e. absurd (omega (arith, l, e))
    ] in
    write_bytes-outside n (at + 1) (value / 256) (update memory at (value % 256)) a later
    ∙ update-ne memory at a (value % 256) ne

module _ (base : ℕ) (nt : OptionalHeader) (a : ℕ)
    (out : (a < base) ⊎ (base + nt.size_of_image ≤ a)) where
  patch-outside :
      (rva : ℕ) (memory : ℕ → ℕ)
      → rva + 8 ≤ nt.size_of_image
      → patch base nt rva memory a ≡ memory a
  unfolding patch
  patch-outside rva memory l =
      let far : (a < base + rva) ⊎ (base + rva + 8 ≤ a) = elim out [
        | inl h ↦ inl (omega (arith, h))
        | inr h ↦ inr (omega (arith, h, l))
      ] in
      write_bytes-outside 8 (base + rva) _ memory a far

  apply_entries-outside :
      (cursor n at : ℕ) (memory : ℕ → ℕ) → (apply_entries base nt cursor n at memory).1 a ≡ memory a
  unfolding apply_entries
  apply_entries-outside cursor zero at memory = refl
  apply_entries-outside cursor (suc n) at memory =
      let entry = read_bytes 2 at memory in
      let rva = patch_rva (read_bytes 4 cursor memory) entry in
      elim (Bool-cases (entry / 4096 == rel_based_absolute)) [
        | inl h ↦ rw h (apply_entries-outside cursor n (at + 2) memory)
        | inr h ↦ elim (Bool-cases (entry / 4096 != rel_based_dir64)) [
          | inl t ↦ rw (h, t) refl
          | inr t ↦ elim (Bool-cases (ltb nt.size_of_image (rva + 8))) [
            | inl l ↦ rw (h, t, l) refl
            | inr l ↦
                rw (h, t, l)
                  (apply_entries-outside cursor n (at + 2) (patch base nt rva memory)
                    ∙ patch-outside rva memory (ground (arith, l)))
          ]
        ]
      ]

  abbrev Keeps : (ℕ → ℕ) → Option (Status × (ℕ → ℕ)) → Type 0
  Keeps memory o = (r : Status × (ℕ → ℕ)) → o ≡ some r → r.1 a ≡ memory a

  returned-Keeps :
      (memory after : ℕ → ℕ) (status : Status)
      → after a ≡ memory a
      → Keeps memory (some (status, after))
  returned-Keeps memory after status same r e =
      let at : (status, after) ≡ r = cc e in sym (ap (λ (x : Status × (ℕ → ℕ)). x.1 a) at) ∙ same

  or_Keeps :
      (b : Bool) (status : Status) (memory after : ℕ → ℕ) (o : Option (Status × (ℕ → ℕ)))
      → after a ≡ memory a
      → Keeps memory o
      → Keeps memory (if b then some (status, after) else o)
  or_Keeps true status memory after o same h = returned-Keeps memory after status same
  or_Keeps false status memory after o same h = h

  apply_blocks-Keeps :
      (fuel cursor end : ℕ) (memory : ℕ → ℕ)
      → Keeps memory (apply_blocks fuel base nt cursor end memory)
  unfolding apply_blocks apply_block
  apply_blocks-Keeps zero cursor end memory = λ r e. absurd (cc e)
  apply_blocks-Keeps (suc fuel) cursor end memory =
      let after = (apply_block base nt cursor memory).1 in
      let same : after a ≡ memory a = apply_entries-outside _ _ _ memory in
      or_Keeps (ltb end (cursor + block_bytes)) success memory memory _ refl (
        or_Keeps (is_bad_block nt cursor end memory) invalid_parameter memory memory _ refl (
          or_Keeps (not (succeeded (apply_block base nt cursor memory).0))
            (apply_block base nt cursor memory).0 memory after _ same
            (λ r e.
              apply_blocks-Keeps fuel (cursor + read_bytes 4 (cursor + 4) after) end after r e
              ∙ same)))

  behind_tests-Keeps :
      (memory : ℕ → ℕ) (o : Option Status) → Keeps memory (behind_tests base nt memory o)
  unfolding behind_tests
  behind_tests-Keeps memory (some status) = returned-Keeps memory memory status refl
  behind_tests-Keeps memory none =
      apply_blocks-Keeps (nt.base_relocations.size + 2) (base + nt.base_relocations.virtual_address)
        (base + nt.base_relocations.virtual_address + nt.base_relocations.size) memory

-- PspApplyUserKpeRelocations changes no byte below the address at which the image was loaded, and
-- none from the end of the image on, whatever it returns.
pub apply_relocations-inside :
    (base : ℕ) (nt : OptionalHeader) (memory : ℕ → ℕ) (r : Status × (ℕ → ℕ)) (a : ℕ)
    → apply_relocations base nt memory ≡ some r
    → (a < base) ⊎ (base + nt.size_of_image ≤ a)
    → r.1 a ≡ memory a
unfolding apply_relocations
apply_relocations-inside base nt memory r a ran out =
    behind_tests-Keeps base nt a out memory (without_loop base nt) r ran
