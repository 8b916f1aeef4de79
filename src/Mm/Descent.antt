-- ===== src/Mm/Descent.antt =====
-- MmpWalkToPte, the whole descent: after a walk that made what was missing, a walk that makes
-- nothing reaches the same table.
use ntx_preview.Base.{
  success, ℕ, ◌≡◌, ◌≢◌, ◌∙◌, sym, ap, subst, refl, Bool, true, false, List, [], ◌∷◌, inl, inr,
  arith,
}
use ntx_preview.Mm.{is_page_allocated}
use ntx_preview.Mm.Alloc.{IsSane}
use ntx_preview.Mm.Walk.{
  Memory, Walked, reached, stopped, frame, has, pte_present, pte_large, split_large, sanitize,
  create_missing, go_on, enter, descend, is_last,
}
use ntx_preview.Mm.Tables.{IsAllocated, IsApart, With, IsTree, IsNew, IsLinked, taken_apart}
use ntx_preview.Mm.Round.{Enters, enter-Enters}

-- What a walk says of the table that it reached, with the tables of `seen` behind it.
pub record IsReached (is : List ℕ) (virtual table : ℕ) (seen : ℕ → Type 0) (m : Memory) (leaf : ℕ)
    (m' : Memory) : Type 0 where
  pub allocated : IsAllocated leaf m'
  pub apart : IsApart seen leaf
  pub keeps : (x : ℕ) → seen x → m'.words x ≡ m.words x
  pub grows : (q : ℕ) → is_page_allocated q m.pages ≡ true → is_page_allocated q m'.pages ≡ true
  pub sane : IsSane m'.pages
  pub again :
      (m'' : Memory)
      → ((x : ℕ) → x ≢ leaf → m''.words x ≡ m'.words x)
      → descend false virtual is table m'' ≡ reached leaf m''

-- An entry that leads on needs nothing made.
enter-present :
    (virtual table i e : ℕ) (last : Bool) (m : Memory)
    → m.words table i ≡ e
    → has e pte_present ≡ true
    → has e pte_large ≡ false
    → enter false virtual last table i m ≡ reached (frame e) m
unfolding enter split_large sanitize create_missing go_on
enter-present virtual table i e last m at p l =
    let q : has (m.words table i) pte_present ≡ true = ap (λ (n : ℕ). has n pte_present) at ∙ p in
    let r : has (m.words table i) pte_large ≡ false = ap (λ (n : ℕ). has n pte_large) at ∙ l in
    let here : enter false virtual last table i m ≡ reached (frame (m.words table i)) m =
      ground (arith, q, r) in
    here ∙ ap (λ (n : ℕ). reached (frame n) m) at

-- The tables of a tree stay one when only a table behind them changes.
IsTree-keep :
    (is : List ℕ) (seen : ℕ → Type 0) (t table : ℕ) (m m' : Memory)
    → seen table
    → ((x : ℕ) → IsAllocated x m → x ≢ table → m'.words x ≡ m.words x)
    → ((q : ℕ) → is_page_allocated q m.pages ≡ true → is_page_allocated q m'.pages ≡ true)
    → IsTree is seen t m
    → IsTree is seen t m'
IsTree-keep [] seen t table m m' h others grows (a, n) = (grows _ a, n)
IsTree-keep (i ∷ is) seen t table m m' h others grows (a, n, below) =
    let same : m'.words t i ≡ m.words t i =
      ap (λ (f : ℕ → ℕ). f i) (others t a (λ e. n table h (sym e))) in
    (
      grows _ a,
      n,
      λ p l.
          let kept =
            IsTree-keep is (With t seen) (frame (m.words t i)) table m m' (inr h) others grows (
              below (ap (λ (w : ℕ). has w pte_present) (sym same) ∙ p)
                (ap (λ (w : ℕ). has w pte_large) (sym same) ∙ l)) in
          subst (λ (w : ℕ). IsTree is (With t seen) (frame w) m') (sym same) kept,
    )

-- A table that was just made has no tables below.
IsTree-new :
    (is : List ℕ) (seen : ℕ → Type 0) (t : ℕ) (m m' : Memory)
    → ((x : ℕ) → seen x → IsAllocated x m)
    → IsNew (is_last is) t m m'
    → IsTree is seen t m'
IsTree-new [] seen t m m' h (free, a, zeros) = (a, λ x s. taken_apart x t m (h x s) free)
IsTree-new (i ∷ is) seen t m m' h (free, a, zeros) = (
  a,
  λ x s. taken_apart x t m (h x s) free,
  λ p l. absurd (cc (ap (λ (w : ℕ). has w pte_present) (zeros refl i), p)),
)

module _ (virtual : ℕ) where
  abbrev pub Reaches : List ℕ → ℕ → (ℕ → Type 0) → Memory → Walked → Type 0
  Reaches is table seen m (reached leaf m') = IsReached is virtual table seen m leaf m'
  Reaches is table seen m (stopped status m') = status ≢ success

  -- What is reached from the next table is reached from this one.
  Reaches-behind :
      (i e : ℕ) (is : List ℕ) (table : ℕ) (seen : ℕ → Type 0) (m m' : Memory)
      → ((x : ℕ) → seen x → IsAllocated x m)
      → IsApart seen table
      → IsLinked (is_last is) table i m e m'
      → (w : Walked) → Reaches is (frame e) (With table seen) m' w
      → Reaches (i ∷ is) table seen m w
  unfolding descend go_on
  Reaches-behind i e is table seen m m' own n k (stopped status m'') r = r
  Reaches-behind i e is table seen m m' own n k (reached leaf m'') r = record {
    allocated = r.allocated;
    apart = λ x s. r.apart x (inr s);
    keeps = λ x s. r.keeps x (inr s) ∙ k.others x (own x s) (n x s);
    grows = λ q a. r.grows q (k.grows q a);
    sane = r.sane;
    again = λ m3 h.
        let at : m3.words table i ≡ e =
          ap (λ (f : ℕ → ℕ). f i) (h table (r.apart table (inl refl)) ∙ r.keeps table (inl refl))
          ∙ k.stored in
        ap (go_on (descend false virtual is))
          (enter-present virtual table i e (is_last is) m3 at k.is_present k.not_large)
        ∙ r.again m3 h;
  }

  IsTree-next :
      (i e : ℕ) (is : List ℕ) (table : ℕ) (seen : ℕ → Type 0) (m m' : Memory)
      → ((x : ℕ) → With table seen x → IsAllocated x m)
      → IsTree (i ∷ is) seen table m
      → IsLinked (is_last is) table i m e m'
      → IsTree is (With table seen) (frame e) m'
  IsTree-next i e is table seen m m' own (a, n, below) k = elim k.leads [
    | inl (p, l, f) ↦
        subst (λ (t : ℕ). IsTree is (With table seen) t m') f
          (IsTree-keep is (With table seen) _ table m m' (inl refl) k.others k.grows (below p l))
    | inr new ↦ IsTree-new is (With table seen) (frame e) m m' own new
  ]

  Reaches-step :
      (i : ℕ) (is : List ℕ) (table : ℕ) (seen : ℕ → Type 0) (m : Memory)
      → ((x : ℕ) → seen x → IsAllocated x m)
      → IsTree (i ∷ is) seen table m
      → ((t : ℕ) (m' : Memory)
          → IsSane m'.pages
          → ((x : ℕ) → With table seen x → IsAllocated x m')
          → IsTree is (With table seen) t m'
          → Reaches is t (With table seen) m' (descend true virtual is t m'))
      → (w : Walked) → Enters (is_last is) table i m w
      → Reaches (i ∷ is) table seen m (go_on (descend true virtual is) w)
  unfolding go_on
  Reaches-step i is table seen m own tree ih (stopped status m') r = r
  Reaches-step i is table seen m own tree ih (reached t' m') (e, q, k) =
      let all : (x : ℕ) → With table seen x → IsAllocated x m = λ x h. elim h [
        | inl at ↦ subst (λ (y : ℕ). IsAllocated y m) (sym at) tree.0
        | inr h ↦ own x h
      ] in
      subst (λ (t : ℕ). Reaches (i ∷ is) table seen m (descend true virtual is t m')) (sym q)
        (Reaches-behind i e is table seen m m' own tree.1 k _ (
          ih (frame e) m' k.sane (λ x h. k.grows _ (all x h))
            (IsTree-next i e is table seen m m' all tree k)))

  -- A walk that makes what is missing, over tables that are allocated and distinct, stops, or
  -- reaches a table of its own that a walk without the right to make one finds again.
  pub descend-Reaches :
      (is : List ℕ) (table : ℕ) (seen : ℕ → Type 0) (m : Memory)
      → IsSane m.pages
      → ((x : ℕ) → seen x → IsAllocated x m)
      → IsTree is seen table m
      → Reaches is table seen m (descend true virtual is table m)
  unfolding descend
  descend-Reaches [] table seen m s own (a, n) = record {
    allocated = a;
    apart = n;
    keeps = λ x h. refl;
    grows = λ q h. h;
    sane = s;
    again = λ m' h. refl;
  }
  descend-Reaches (i ∷ is) table seen m s own (a, n, below) =
      Reaches-step i is table seen m own (a, n, below)
        (λ t m' s' own' tree. descend-Reaches is t (With table seen) m' s' own' tree)
        (enter true virtual (is_last is) table i m)
        (enter-Enters virtual table i m (is_last is) s a)
