-- ===== src/Ps/Relocated.antt =====
-- PspApplyUserKpeRelocations: the loop comes to an end whatever the image holds, also where a patch
-- changes the directory that is being read, and no byte outside the image changes.
use ntx_preview.Base.{
  ℕ, zero, suc, ◌+◌, ◌≤◌, ◌<◌, ◌≡◌, subst, sym, refl, not, arith, Option, none, some, inl, inr,
  Bool-cases, succeeded, Status, success, ltb, ◌==◌, invalid_parameter,
}
use ntx_preview.Kpe.{OptionalHeader, read_bytes}
use ntx_preview.Ps.Image.{
  is_bad_block, apply_block, apply_blocks, apply_relocations, without_loop, behind_tests,
}

abbrev Returns : Option (Status × (ℕ → ℕ)) → Type 0
Returns o = (r : Status × (ℕ → ℕ)) × (o ≡ some r)

module _ (base : ℕ) (nt : OptionalHeader) where
  -- A block of fewer than eight bytes ends the loop.
  apply_blocks-small :
      (fuel cursor end : ℕ) (memory : ℕ → ℕ)
      → 0 < fuel
      → read_bytes 4 (cursor + 4) memory < 8
      → Returns (apply_blocks fuel base nt cursor end memory)
  unfolding apply_blocks is_bad_block
  apply_blocks-small zero cursor end memory l h = absurd (omega arith)
  apply_blocks-small (suc fuel) cursor end memory l h = elim (Bool-cases (ltb end (cursor + 8))) [
    | inl e ↦ ((success, memory), ground (arith, e))
    | inr e ↦ ((invalid_parameter, memory), ground (arith, e, h))
  ]

  -- As long as a round is left for every byte of the directory, and two more, the loop returns.
  apply_blocks-Returns :
      (fuel cursor end : ℕ) (memory : ℕ → ℕ)
      → end + 2 ≤ cursor + fuel
      → 0 < fuel
      → Returns (apply_blocks fuel base nt cursor end memory)
  unfolding apply_blocks
  apply_blocks-Returns zero cursor end memory h l = absurd (omega arith)
  apply_blocks-Returns (suc fuel) cursor end memory h l = elim (Bool-cases (ltb end (cursor + 8))) [
    | inl e ↦ ((success, memory), rw e refl)
    | inr e ↦ elim (Bool-cases (is_bad_block nt cursor end memory)) [
      | inl b ↦ ((invalid_parameter, memory), rw (e, b) refl)
      | inr b ↦ elim (Bool-cases (not (succeeded (apply_block base nt cursor memory).0))) [
        | inl f ↦ (apply_block base nt cursor memory, rw (e, b, f) refl)
        | inr f ↦
            let after = (apply_block base nt cursor memory).1 in
            let size = read_bytes 4 (cursor + 4) after in
            let (r, found) =
              elim (Bool-cases (size == 0))
                as (λ c. Returns (apply_blocks fuel base nt (cursor + size) end after)) [
                  | inl z ↦
                      let stays : cursor + size ≡ cursor = ground (arith, z) in
                      let reads : read_bytes 4 (cursor + 4) after < 8 = ground (arith, z) in
                      subst (λ (c : ℕ). Returns (apply_blocks fuel base nt c end after)) (sym stays)
                        (apply_blocks-small fuel cursor end after (ground (arith, e)) reads)
                  | inr n ↦
                      apply_blocks-Returns fuel (cursor + size) end after (ground (arith, n))
                        (ground (arith, e))
                ] in
            (r, rw (e, b, f) found)
      ]
    ]
  ]

  behind_tests-Returns :
      (memory : ℕ → ℕ) (o : Option Status) → Returns (behind_tests base nt memory o)
  unfolding behind_tests
  behind_tests-Returns memory (some status) = ((status, memory), refl)
  behind_tests-Returns memory none =
      apply_blocks-Returns (nt.base_relocations.size + 2)
        (base + nt.base_relocations.virtual_address)
        (base + nt.base_relocations.virtual_address + nt.base_relocations.size) memory (omega arith)
        (omega arith)

  -- PspApplyUserKpeRelocations returns within its rounds, whatever bytes the image holds and
  -- whatever the patches make of the directory that is being read.
  pub apply_relocations-returns :
      (memory : ℕ → ℕ) → (r : Status × (ℕ → ℕ)) × (apply_relocations base nt memory ≡ some r)
  unfolding apply_relocations
  apply_relocations-returns memory = behind_tests-Returns memory (without_loop base nt)
