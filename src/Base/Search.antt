-- ===== src/Base/Search.antt =====
-- The loop `for (i = 0; i < n; i++) if (test(i)) return i;`, which every pool of the kernel runs.
use Prim.Native.Nat.{ℕ, zero, suc, ◌+◌, ◌<◌, ◌≤◌}
use mathlib.Core.Path.{◌≡◌, ◌∙◌, sym, ap}
use mathlib.Core.Logic.{inl, inr}
use mathlib.Core.Bool.{Bool, true, false}
use mathlib.Core.Option.{Option, none, some}
use native.Mathlib.Omega.{arith}
use ntx_preview.Base.Tests.{◌==◌, if◌then◌else◌, Bool-cases, Option-cases}

-- The first index from `i` on, in `n` rounds, that passes the test.
pub first_from : (ℕ → Bool) → ℕ → ℕ → Option ℕ
first_from p zero i = none
first_from p (suc n) i = let rest = first_from p n (i + 1) in if p i then some i else rest

unfoldable pub first_index : (ℕ → Bool) → ℕ → Option ℕ
unfolding first_from
first_index p n = first_from p n 0

-- What the loop's result says of the test: the index found is the first that passes.
abbrev pub IsFirst : (ℕ → Bool) → ℕ → ℕ → Type 0
IsFirst p n k = (k < n) × (p k ≡ true) × ((j : ℕ) → j < k → p j ≡ false)

first_from-bounds :
    (p : ℕ → Bool) (n i k : ℕ) → first_from p n i ≡ some k → (i ≤ k) × (k < i + n) × (p k ≡ true)
unfolding first_from
first_from-bounds p zero i k e = cc
first_from-bounds p (suc n) i k e = ground (arith, first_from-bounds p n (i + 1) k)

first_from-earlier :
    (p : ℕ → Bool) (n i k j : ℕ) → first_from p n i ≡ some k → i ≤ j → j < k → p j ≡ false
unfolding first_from
first_from-earlier p zero i k j e h l = cc
first_from-earlier p (suc n) i k j e h l =
    ground (arith, first_from-bounds p n (i + 1) k, first_from-earlier p n (i + 1) k j)

first_from-none :
    (p : ℕ → Bool) (n i j : ℕ) → first_from p n i ≡ none → i ≤ j → j < i + n → p j ≡ false
unfolding first_from
first_from-none p zero i j e h l = absurd (omega arith)
first_from-none p (suc n) i j e h l = ground (arith, first_from-none p n (i + 1) j)

first_from-eq :
    (p : ℕ → Bool) (n i k : ℕ)
    → i ≤ k
    → k < i + n
    → p k ≡ true
    → ((j : ℕ) → i ≤ j → j < k → p j ≡ false)
    → first_from p n i ≡ some k
unfolding first_from
first_from-eq p zero i k h l t early = absurd (omega arith)
first_from-eq p (suc n) i k h l t early = elim (Bool-cases (p i)) [
  | inl hit ↦ ground (arith, early i)
  | inr miss ↦ ground (arith, first_from-eq p n (i + 1) k (ground arith) (omega arith) t later)
]
  where
    later : (j : ℕ) → i + 1 ≤ j → j < k → p j ≡ false
    later j a b = early j (omega arith) b

-- The index that the loop returns is in range, passes the test, and is the first that does.
pub first_index-some : (p : ℕ → Bool) (n k : ℕ) → first_index p n ≡ some k → IsFirst p n k
unfolding first_index
first_index-some p n k e =
    let b = first_from-bounds p n 0 k e in
    (omega arith, b.2, λ j l. first_from-earlier p n 0 k j e (omega arith) l)

-- The loop falls through only when no index in range passes.
pub first_index-none :
    (p : ℕ → Bool) (n : ℕ) → first_index p n ≡ none → (j : ℕ) → j < n → p j ≡ false
unfolding first_index
first_index-none p n e j l = first_from-none p n 0 j e (omega arith) (omega arith)

pub first_index-eq : (p : ℕ → Bool) (n k : ℕ) → IsFirst p n k → first_index p n ≡ some k
unfolding first_index
first_index-eq p n k f = first_from-eq p n 0 k (omega arith) (omega arith) f.1 (λ j _ l. f.2 j l)

pub first_index-found :
    (p : ℕ → Bool) (n j : ℕ)
    → j < n
    → p j ≡ true
    → (k : ℕ) × (first_index p n ≡ some k) × IsFirst p n k
first_index-found p n j l t = elim (Option-cases (first_index p n)) [
  | inl e ↦ absurd (cc (first_index-none p n e j l))
  | inr (k, e) ↦ (k, e, first_index-some p n k e)
]

-- One element more behind a pool: what is found in the pool stays, and else the new one is looked at.
module _ (p q : ℕ → Bool) (n : ℕ) (same : (k : ℕ) → k < n → q k ≡ p k) where
  pub first_index-grown_some : (k : ℕ) → first_index p n ≡ some k → first_index q (n + 1) ≡ some k
  first_index-grown_some k e =
      let (b, t, early) = first_index-some p n k e in
      first_index-eq q (n + 1) k
        (omega arith, same k b ∙ t, λ j l. same j (omega arith) ∙ early j l)

  pub first_index-grown_none :
      first_index p n ≡ none → first_index q (n + 1) ≡ (if q n then some n else none)
  first_index-grown_none e = elim (Bool-cases (q n)) [
    | inl h ↦
        rw h (
          first_index-eq q (n + 1) n (omega arith, h, λ j l. same j l ∙ first_index-none p n e j l))
    | inr h ↦ rw h (elim (Option-cases (first_index q (n + 1))) [
      | inl f ↦ f
      | inr (k, f) ↦
          let (b, t, _) = first_index-some q (n + 1) k f in
          elim (Bool-cases (k == n)) [
            | inl at ↦ let here : k ≡ n = ground arith in absurd (cc (ap q here, t, h))
            | inr off ↦
                let l : k < n = ground (arith, off) in
                absurd (cc (sym (same k l) ∙ t, first_index-none p n e k l))
          ]
    ])
  ]
