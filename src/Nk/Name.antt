-- ===== src/Nk/Name.antt =====
-- The name of a service endpoint.
use ntx_preview.Base.{ℕ, ◌+◌, ◌<◌, ◌≡◌, Bool-cases, inl, inr, List, arith, ltb, length, get_or, min}
use ntx_preview.Base.Text.{copy_text-stopped, copy_text-char, copy_text-nul, Holds}
use ntx_preview.Nk.{endpoint_name, service_name_max}

module _ (text : List ℕ) (old : ℕ → ℕ) where
  name-char : (k : ℕ) → k < min (length text) 31 → endpoint_name text old k ≡ get_or text k 0
  unfolding endpoint_name
  name-char k l =
      let e : 0 + k ≡ k = omega arith in
      ground (
        arith,
        copy_text-stopped 32 0 text old,
        rw e at (copy_text-char 32 0 k text old (omega arith) (omega arith)),
      )

  name-nul : endpoint_name text old (min (length text) 31) ≡ 0
  unfolding endpoint_name
  name-nul = elim (Bool-cases (ltb (length text) 32)) [
    | inl fits ↦
        let e : 0 + length text ≡ length text = omega arith in
        let m : min (length text) 31 ≡ length text = ground arith in
        ground (
          arith,
          m,
          copy_text-stopped 32 0 text old,
          rw e at (copy_text-nul 32 0 text old (ground arith)),
        )
    | inr cut ↦
        let m : min (length text) 31 ≡ 31 = ground arith in
        ground (arith, m, copy_text-stopped 32 0 text old)
  ]

  -- A service endpoint's name is the first 31 characters of the text, or the whole text if it is
  -- shorter, with a NUL behind them, whatever the array held.
  pub endpoint_name-Holds : Holds service_name_max text (endpoint_name text old)
  endpoint_name-Holds = (name-char, name-nul)
