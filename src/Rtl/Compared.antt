-- ===== src/Rtl/Compared.antt =====
-- memcmp against the two ranges of bytes that it compares.
use ntx_preview.Base.{
  ℕ, zero, suc, ◌+◌, ◌<◌, ◌≤◌, subst, ◌≡◌, arith, inl, inr, Bool-cases, ◌!=◌, ◌==◌,
}
use ntx_preview.Rtl.{pos, difference, compare_up, memcmp}

difference-zero : (a b : ℕ) → difference a b ≡ pos 0 → a ≡ b
difference-zero a b e = ground (arith, e)

compare_up-zero :
    (n i left right : ℕ) (memory : ℕ → ℕ)
    → compare_up n i left right memory ≡ pos 0
    → (j : ℕ) → i ≤ j
    → j < i + n
    → memory (left + j) ≡ memory (right + j)
unfolding compare_up
compare_up-zero zero i left right memory e j l b = absurd (omega arith)
compare_up-zero (suc n) i left right memory e j l b =
    elim (Bool-cases (memory (left + i) != memory (right + i))) [
      | inl h ↦
          let found : difference (memory (left + i)) (memory (right + i)) ≡ pos 0 =
            ground (arith, e, h) in
          absurd (ground (arith, h, difference-zero _ _ found))
      | inr h ↦
          let rest : compare_up n (i + 1) left right memory ≡ pos 0 = ground (arith, e, h) in
          elim (Bool-cases (i == j)) [
            | inl c ↦
                let same : i ≡ j = ground (arith, c) in
                subst (λ (x : ℕ). memory (left + x) ≡ memory (right + x)) same (ground (arith, h))
            | inr c ↦
                compare_up-zero n (i + 1) left right memory rest j (ground (arith, c)) (omega arith)
          ]
    ]

-- memcmp returns 0 only for two ranges of the same bytes.
pub memcmp-equal :
    (left right size : ℕ) (memory : ℕ → ℕ)
    → memcmp left right size memory ≡ pos 0
    → (k : ℕ) → k < size
    → memory (left + k) ≡ memory (right + k)
memcmp-equal left right size memory e k b =
    compare_up-zero size 0 left right memory e k (omega arith) (omega arith)
