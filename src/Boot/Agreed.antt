-- ===== src/Boot/Agreed.antt =====
-- The relocations of the boot loader against those of the kernel.
use ntx_preview.Base.{
  ℕ, zero, suc, ◌+◌, ◌/◌, ◌%◌, ◌^◌, ◌<◌, ◌≡◌, ap, refl, true, false, arith, Option, none, some, inl,
  inr, Bool-cases, succeeded, Status, success, ltb, ◌==◌, ◌!=◌, bit_and,
}
use ntx_preview.Kpe.{OptionalHeader, read_bytes, block_bytes, rel_based_absolute, rel_based_dir64}
use ntx_preview.Boot.{efi_success}
use ntx_preview.Ps.Image as Ps
use ntx_preview.Boot.Image as Boot

-- Where the kernel succeeds the boot loader does, with the same memory.
abbrev Agree : Status × (ℕ → ℕ) → ℕ × (ℕ → ℕ) → Type 0
Agree kernel boot = succeeded kernel.0 ≡ true → boot ≡ (efi_success, kernel.1)

module _ (base : ℕ) (nt : OptionalHeader) where
  apply_entries-Agree :
      (cursor n at : ℕ) (memory : ℕ → ℕ)
      → Agree
          (Ps.apply_entries base nt cursor n at memory)
          (Boot.apply_entries base nt cursor n at memory)
  unfolding Ps.apply_entries Boot.apply_entries Boot.image_rva_to_pointer Ps.patch Boot.patch_at
  apply_entries-Agree cursor zero at memory = λ s. refl
  apply_entries-Agree cursor (suc n) at memory =
      let entry = read_bytes 2 at memory in
      let rva = (read_bytes 4 cursor memory + bit_and entry 4095) % 2 ^ 32 in
      elim (Bool-cases (entry / 4096 == rel_based_absolute)) [
        | inl h ↦ rw h (apply_entries-Agree cursor n (at + 2) memory)
        | inr h ↦ elim (Bool-cases (entry / 4096 != rel_based_dir64)) [
          | inl t ↦ rw (h, t) (λ s. absurd (cc s))
          | inr t ↦ elim (Bool-cases (ltb nt.size_of_image (rva + 8))) [
            | inl l ↦ rw (h, t, l) (λ s. absurd (cc s))
            | inr l ↦ rw (h, t, l) (apply_entries-Agree cursor n (at + 2) _)
          ]
        ]
      ]

  -- The same of two loops, each of which may run out of rounds.
  abbrev AgreeSome : Option (Status × (ℕ → ℕ)) → Option (ℕ × (ℕ → ℕ)) → Type 0
  AgreeSome kernel boot = (m : ℕ → ℕ) → kernel ≡ some (success, m) → boot ≡ some (efi_success, m)

  -- A status that is no success agrees with everything.
  failed-AgreeSome :
      (status : Status) (memory : ℕ → ℕ) (boot : Option (ℕ × (ℕ → ℕ)))
      → succeeded status ≡ false
      → AgreeSome (some (status, memory)) boot
  failed-AgreeSome status memory boot f m e =
      let both : (status, memory) ≡ (success, m) = cc e in
      let done = ap (λ (r : Status × (ℕ → ℕ)). succeeded r.0) both in absurd (cc (f, done))

  same-AgreeSome :
      (memory : ℕ → ℕ) → AgreeSome (some (success, memory)) (some (efi_success, memory))
  same-AgreeSome memory m e =
      let same : (success, memory) ≡ (success, m) = cc e in
      ap (λ (r : Status × (ℕ → ℕ)). some (efi_success, r.1)) same

  apply_blocks-Agree :
      (fuel cursor end : ℕ) (memory : ℕ → ℕ)
      → AgreeSome
          (Ps.apply_blocks fuel base nt cursor end memory)
          (Boot.apply_blocks fuel base nt cursor end memory)
  unfolding Ps.apply_blocks Boot.apply_blocks Ps.is_bad_block Boot.is_bad_block Ps.apply_block
      Boot.apply_block
  apply_blocks-Agree zero cursor end memory = λ m e. absurd (cc e)
  apply_blocks-Agree (suc fuel) cursor end memory =
      elim (Bool-cases (ltb end (cursor + block_bytes))) [
        | inl e ↦ rw e (same-AgreeSome memory)
        | inr e ↦ elim (Bool-cases (Ps.is_bad_block nt cursor end memory)) [
          | inl b ↦ rw (e, b) (failed-AgreeSome _ memory _ refl)
          | inr b ↦
              let fits : Boot.is_bad_block cursor end memory ≡ false = ground (arith, b) in
              let kernel = Ps.apply_block base nt cursor memory in
              elim (Bool-cases (succeeded kernel.0)) [
                | inl s ↦
                    let same : Boot.apply_block base nt cursor memory ≡ (efi_success, kernel.1) =
                      apply_entries-Agree cursor _ _ memory s in
                    rw (e, b, fits, s, same) (apply_blocks-Agree fuel _ end kernel.1)
                | inr s ↦ rw (e, b, s) (failed-AgreeSome kernel.0 kernel.1 _ s)
              ]
        ]
      ]

  behind_tests-Agree :
      (memory : ℕ → ℕ) (tested : Option Status)
      → Ps.without_loop base nt ≡ tested
      → AgreeSome (Ps.behind_tests base nt memory tested) (Boot.apply_relocations base nt memory)
  unfolding Ps.without_loop Boot.without_loop Ps.behind_tests Boot.behind_tests
      Boot.apply_relocations
  behind_tests-Agree memory (some status) t = elim (Bool-cases (base == nt.image_base)) [
    | inl h ↦
        let tests : Boot.without_loop base nt ≡ some efi_success = ground (arith, h) in
        let done : status ≡ success = ground (arith, t, h) in
        rw (tests, done) (same-AgreeSome memory)
    | inr h ↦
        let refused : succeeded status ≡ false = ground (arith, t, h) in
        failed-AgreeSome status memory _ refused
  ]
  behind_tests-Agree memory none t =
      let tests : Boot.without_loop base nt ≡ none = ground (arith, t) in
      rw tests (apply_blocks-Agree _ _ _ memory)

-- An image that the kernel's PspApplyUserKpeRelocations relocates with success, the boot loader's
-- ApplyKpeBaseRelocations relocates with success to the same bytes.
pub apply_relocations-agree :
    (base : ℕ) (nt : OptionalHeader) (memory after : ℕ → ℕ)
    → Ps.apply_relocations base nt memory ≡ some (success, after)
    → Boot.apply_relocations base nt memory ≡ some (efi_success, after)
unfolding Ps.apply_relocations
apply_relocations-agree base nt memory after ran =
    behind_tests-Agree base nt memory (Ps.without_loop base nt) refl after ran

-- The two tests of a range of a file are the same for numbers of 64 bits.
pub file_range_valid-agree :
    (file_size offset size : ℕ)
    → offset < 2 ^ 64
    → size < 2 ^ 64
    → file_size < 2 ^ 64
    → Ps.file_range_valid file_size offset size ≡ Boot.file_range_valid file_size offset size
unfolding Ps.file_range_valid Boot.file_range_valid
file_range_valid-agree file_size offset size o s f = ground arith
