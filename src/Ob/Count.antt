-- ===== src/Ob/Count.antt =====
-- How many entries of the handle table refer to an object.
use ntx_preview.Base.{
  ℕ, zero, suc, ◌+◌, ◌≤◌, ◌<◌, ◌≡◌, refl, true, some, ◌&&◌, arith, update, if◌then◌else◌, ◌=?◌,
}
use native.Mathlib.Decide.{dec_lt}
use ntx_preview.Ob.{Entry, cleared_entry}

-- 1 for an entry in use that refers to `o`.
abbrev pub refers : ℕ → Entry → ℕ
refers o e = if e.in_use && e.object =? some o then 1 else 0

-- The entries among the first `n` that refer to `o`.
unfoldable pub holders : ℕ → ℕ → (ℕ → Entry) → ℕ
holders o zero entries = 0
holders o (suc n) entries = holders o n entries + refers o (entries n)

pub holders-update_above :
    (o n i : ℕ) (entries : ℕ → Entry) (e : Entry)
    → n ≤ i
    → holders o n (update entries i e) ≡ holders o n entries
unfolding holders
holders-update_above o zero i entries e h = refl
holders-update_above o (suc n) i entries e h = ground (arith, holders-update_above o n i entries e)

-- Writing one entry changes the count by that entry's share.
pub holders-update :
    (o n i : ℕ) (entries : ℕ → Entry) (e : Entry)
    → i < n
    → holders o n (update entries i e) + refers o (entries i) ≡ holders o n entries + refers o e
unfolding holders
holders-update o zero i entries e h = absurd (omega arith)
holders-update o (suc n) i entries e h = elim (dec_lt i n) [
  | yes below ↦ ground (arith, holders-update o n i entries e below)
  | no last ↦ ground (arith, holders-update_above o n i entries e)
]

pub holders-pos :
    (o n i : ℕ) (entries : ℕ → Entry)
    → i < n
    → (entries i).in_use ≡ true
    → (entries i).object ≡ some o
    → 0 < holders o n entries
unfolding holders
holders-pos o zero i entries h u e = absurd (omega arith)
holders-pos o (suc n) i entries h u e = elim (dec_lt i n) [
  | yes below ↦ ground (arith, holders-pos o n i entries below u e)
  | no last ↦ ground arith
]

pub holders-cleared : (o n : ℕ) → holders o n (λ i. cleared_entry) ≡ 0
unfolding holders
holders-cleared o zero = refl
holders-cleared o (suc n) = ground (arith, holders-cleared o n)
