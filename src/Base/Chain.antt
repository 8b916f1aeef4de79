-- ===== src/Base/Chain.antt =====
-- Queues linked through a field of their elements, with a head and a tail pointer: the scheduler's
-- run queue and the waiters of a port. An element is named by its index in the thread pool.
use Prim.Native.Nat.{ℕ}
use mathlib.Core.Path.{◌≡◌, refl, sym, ◌∙◌}
use mathlib.Core.Logic.{◌≢◌}
use mathlib.Core.Bool.{Bool, true, false, not, ◌&&◌, ◌||◌}
use mathlib.Core.Option.{Option, none, some}
use mathlib.Core.List.{List, [], ◌∷◌, ◌++◌}
use native.Mathlib.Omega.{arith}
use ntx_preview.Base.Tests.{◌==◌, if◌then◌else◌, is_some}

abbrev pub contains : ℕ → List ℕ → Bool
contains t [] = false
contains t (x ∷ q) = x == t || contains t q

abbrev pub distinct : List ℕ → Bool
distinct [] = true
distinct (x ∷ q) = not (contains x q) && distinct q

abbrev pub last : List ℕ → Option ℕ
last [] = none
last (x ∷ []) = some x
last (x ∷ y ∷ q) = last (y ∷ q)

pub last-cons : (x : ℕ) (q : List ℕ) → (l : ℕ) × (last (x ∷ q) ≡ some l)
last-cons x [] = (x, refl)
last-cons x (y ∷ q) = last-cons y q

-- The pointers from `h` on lead through the elements of the list, in order, to NULL.
abbrev pub Chain : (ℕ → Option ℕ) → Option ℕ → List ℕ → Type 0
Chain next h [] = h ≡ none
Chain next h (t ∷ q) = (h ≡ some t) × Chain next (next t) q

abbrev pub IsQueue : (ℕ → Option ℕ) → Option ℕ → Option ℕ → List ℕ → Type 0
IsQueue next head tail q = Chain next head q × (tail ≡ last q) × (distinct q ≡ true)

pub Chain-keep :
    (next next' : ℕ → Option ℕ) (h : Option ℕ) (q : List ℕ)
    → ((t : ℕ) → contains t q ≡ true → next' t ≡ next t)
    → Chain next h q
    → Chain next' h q
Chain-keep next next' h [] same c = c
Chain-keep next next' h (x ∷ q) same (e, c) = (
  e,
  rw (same x (ground arith)) (Chain-keep next next' (next x) q (λ t m. same t (ground arith)) c),
)

pub contains-last : (q : List ℕ) (l : ℕ) → last q ≡ some l → contains l q ≡ true
contains-last [] l e = cc
contains-last (x ∷ []) l e = ground arith
contains-last (x ∷ y ∷ q) l e = ground (arith, contains-last (y ∷ q) l e)

pub last-append : (q : List ℕ) (t : ℕ) → last (q ++ t ∷ []) ≡ some t
last-append [] t = refl
last-append (x ∷ []) t = refl
last-append (x ∷ y ∷ q) t = last-append (y ∷ q) t

pub contains-append : (q : List ℕ) (t u : ℕ) → contains u (q ++ t ∷ []) ≡ (contains u q || t == u)
contains-append [] t u = ground arith
contains-append (x ∷ q) t u = ground (arith, contains-append q t u)

pub distinct-append :
    (q : List ℕ) (t : ℕ) → contains t q ≡ false → distinct q ≡ true → distinct (q ++ t ∷ []) ≡ true
distinct-append [] t f d = refl
distinct-append (x ∷ q) t f d =
    ground (arith, contains-append q t x, distinct-append q t (ground arith) (ground arith))

-- The old tail's link is set to the new element.
pub Chain-append :
    (next next' : ℕ → Option ℕ) (h : Option ℕ) (q : List ℕ) (l t : ℕ)
    → last q ≡ some l
    → contains t q ≡ false
    → distinct q ≡ true
    → next' l ≡ some t
    → next' t ≡ none
    → ((x : ℕ) → x ≢ l → x ≢ t → next' x ≡ next x)
    → Chain next h q
    → Chain next' h (q ++ t ∷ [])
Chain-append next next' h [] l t e f d at end same c = cc
Chain-append next next' h (x ∷ []) l t e f d at end same (c, n) = (c, (ground arith, end))
Chain-append next next' h (x ∷ y ∷ q) l t e f d at end same (c, n) = (
  c,
  rw (same x (ground (arith, contains-last (y ∷ q) l e)) (ground arith))
      (Chain-append next next' (next x) (y ∷ q) l t e (ground arith) (ground arith) at end same n),
)

-- What a push onto an empty queue has to write.
pub push-empty :
    (next' : ℕ → Option ℕ) (t : ℕ) → next' t ≡ none → IsQueue next' (some t) (some t) (t ∷ [])
push-empty next' t end = ((refl, end), refl, refl)

module _ (next next' : ℕ → Option ℕ) (head tail : Option ℕ) where
  -- What a push behind the tail `l` has to write.
  pub push-behind :
      (q : List ℕ) (l t : ℕ)
      → tail ≡ some l
      → contains t q ≡ false
      → next' l ≡ some t
      → next' t ≡ none
      → ((x : ℕ) → x ≢ l → x ≢ t → next' x ≡ next x)
      → IsQueue next head tail q
      → IsQueue next' head (some t) (q ++ t ∷ [])
  push-behind q l t e f at end same (c, k, d) = (
    Chain-append next next' head q l t (sym k ∙ e) f d at end same c,
    sym (last-append q t),
    distinct-append q t f d,
  )

  -- What a pop of the head `t` has to write.
  pub pop-front :
      (q : List ℕ) (t : ℕ)
      → ((x : ℕ) → x ≢ t → next' x ≡ next x)
      → IsQueue next head tail (t ∷ q)
      → IsQueue next' (next t) (if is_some (next t) then tail else none) q
  pop-front [] t same ((e, n), k, d) = (n, rw n refl, refl)
  pop-front (y ∷ q) t same ((e, n), k, d) = (
    Chain-keep next next' (next t) (y ∷ q) (λ x m. same x (ground arith)) n,
    rw n.0 k,
    ground arith,
  )

-- A thread that a queue lists is not one that it does not list.
pub contains-ne : (q : List ℕ) (x t : ℕ) → contains x q ≡ true → contains t q ≡ false → x ≢ t
contains-ne q x t m f e = absurd (cc (f, m, e))
