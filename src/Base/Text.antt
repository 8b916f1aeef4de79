-- ===== src/Base/Text.antt =====
-- The loop by which the kernel copies a C text into a fixed array, and what the array then holds.
-- A C text is the list of its characters in front of the NUL.
use Prim.Native.Nat.{ℕ, zero, suc, ◌+◌, ◌<◌, min}
use mathlib.Core.Path.{◌≡◌, refl}
use mathlib.Core.Bool.{Bool, true, false}
use mathlib.Core.List.{List, [], ◌∷◌}
use native.Mathlib.Omega.{arith}
use native.Mathlib.Decide.{dec_lt}
use ntx_preview.Base.Tests.{ltb, if◌then◌else◌}
use ntx_preview.Base.Arrays.{update, length, get_or}

-- `n` rounds of `dst[i] = src[i]; if (src[i] == 0) stop;` from index `i` on: whether the NUL was
-- reached, and the array.
unfoldable pub copy_text : ℕ → ℕ → List ℕ → (ℕ → ℕ) → Bool × (ℕ → ℕ)
copy_text zero i text dst = (false, dst)
copy_text (suc n) i [] dst = (true, update dst i 0)
copy_text (suc n) i (ch ∷ text) dst = copy_text n (i + 1) text (update dst i ch)

pub copy_text-stopped :
    (n i : ℕ) (text : List ℕ) (dst : ℕ → ℕ) → (copy_text n i text dst).0 ≡ ltb (length text) n
unfolding copy_text
copy_text-stopped zero i text dst = ground arith
copy_text-stopped (suc n) i [] dst = ground arith
copy_text-stopped (suc n) i (ch ∷ text) dst =
    ground (arith, copy_text-stopped n (i + 1) text (update dst i ch))

-- Below its first index the loop changes nothing.
copy_text-below :
    (n i j : ℕ) (text : List ℕ) (dst : ℕ → ℕ) → j < i → (copy_text n i text dst).1 j ≡ dst j
unfolding copy_text
copy_text-below zero i j text dst l = refl
copy_text-below (suc n) i j [] dst l = ground arith
copy_text-below (suc n) i j (ch ∷ text) dst l =
    ground (arith, copy_text-below n (i + 1) j text (update dst i ch))

pub copy_text-char :
    (n i k : ℕ) (text : List ℕ) (dst : ℕ → ℕ)
    → k < length text
    → k < n
    → (copy_text n i text dst).1 (i + k) ≡ get_or text k 0
unfolding copy_text
copy_text-char zero i k text dst l m = absurd (omega arith)
copy_text-char (suc n) i k [] dst l m = absurd (omega arith)
copy_text-char (suc n) i zero (ch ∷ text) dst l m =
    ground (arith, copy_text-below n (i + 1) i text (update dst i ch))
copy_text-char (suc n) i (suc k) (ch ∷ text) dst l m =
    let e : i + suc k ≡ i + 1 + k = omega arith in
    rw e (copy_text-char n (i + 1) k text (update dst i ch) (omega arith) (omega arith))

pub copy_text-nul :
    (n i : ℕ) (text : List ℕ) (dst : ℕ → ℕ)
    → length text < n
    → (copy_text n i text dst).1 (i + length text) ≡ 0
unfolding copy_text
copy_text-nul zero i text dst l = absurd (omega arith)
copy_text-nul (suc n) i [] dst l = ground arith
copy_text-nul (suc n) i (ch ∷ text) dst l =
    let e : i + suc (length text) ≡ i + 1 + length text = omega arith in
    rw e (copy_text-nul n (i + 1) text (update dst i ch) (omega arith))

-- The array holds the first `n` characters of the text, or all if there are fewer, and a NUL
-- behind them.
abbrev pub Holds : ℕ → List ℕ → (ℕ → ℕ) → Type 0
Holds n text dst =
    ((k : ℕ) → k < min (length text) n → dst k ≡ get_or text k 0) × (dst (min (length text) n) ≡ 0)

module _ (n : ℕ) (text : List ℕ) (dst : ℕ → ℕ) where
  -- The array after the loop, and after the NUL that follows it where the text goes on.
  abbrev pub copied : ℕ → ℕ
  copied = let (stopped, out) = copy_text n 0 text dst in if stopped then out else update out n 0

  copied-char : (k : ℕ) → k < min (length text) n → copied k ≡ get_or text k 0
  copied-char k l =
      let e : 0 + k ≡ k = omega arith in
      ground (arith, rw e at (copy_text-char n 0 k text dst (omega arith) (omega arith)))

  copied-nul : copied (min (length text) n) ≡ 0
  copied-nul = elim (dec_lt (length text) n) [
    | yes l ↦
        let e : 0 + length text ≡ length text = omega arith in
        let m : min (length text) n ≡ length text = omega arith in
        ground (arith, m, copy_text-stopped n 0 text dst, rw e at (copy_text-nul n 0 text dst l))
    | no l ↦
        let m : min (length text) n ≡ n = omega arith in
        ground (arith, m, copy_text-stopped n 0 text dst)
  ]

  -- `n` rounds, and a NUL at index `n` if the text was not at its end, leave it so.
  pub copied-Holds : Holds n text copied
  copied-Holds = (copied-char, copied-nul)
