-- ===== src/Rtl/Moved.antt =====
-- What memcpy, memmove and memset leave in memory.
use ntx_preview.Base.{
  ℕ, zero, suc, ◌+◌, ◌-◌, ◌%◌, ◌≤◌, ◌≡◌, ◌⊎◌, ◌&&◌, ◌||◌, ◌==◌, ◌∙◌, refl, sym, true, false, arith,
  update, leb, ltb, if◌then◌else◌, Bool-cases, inl, inr,
}
use ntx_preview.Rtl.{copy_up, copy_down, fill_up, memcpy, memmove, memset}

-- The memory after a move of `n` bytes: the bytes that were at the source, and the others.
abbrev pub moved : ℕ → ℕ → ℕ → (ℕ → ℕ) → ℕ → ℕ
moved dst src n memory a =
    if leb dst a && ltb a (dst + n) then memory (src + (a - dst)) else memory a

copy_up-moved :
    (n i dst src a : ℕ) (memory : ℕ → ℕ)
    → (dst ≤ src) ⊎ (src + i + n ≤ dst + i)
    → copy_up n i dst src memory a ≡ moved (dst + i) (src + i) n memory a
unfolding copy_up
copy_up-moved zero i dst src a memory apart = ground arith
copy_up-moved (suc n) i dst src a memory apart =
    let ih =
      copy_up-moved n (i + 1) dst src a (update memory (dst + i) (memory (src + i)))
        (elim apart [ inl h ↦ inl h | inr h ↦ inr (omega (arith, h)) ]) in
    elim (Bool-cases (leb (dst + (i + 1)) a && ltb a (dst + (i + 1) + n))) [
      | inl e ↦
          let at : src + (i + 1) + (a - (dst + (i + 1))) ≡ src + i + (a - (dst + i)) =
            ground (arith, e) in
          let ne : (dst + i == src + i + (a - (dst + i))) ≡ false = elim apart [
            | inl h ↦ ground (arith, e, h)
            | inr h ↦ ground (arith, e, h)
          ] in
          let here : (leb (dst + i) a && ltb a (dst + i + suc n)) ≡ true = ground (arith, e) in
          ih ∙ rw (e, at, here, ne) refl
      | inr e ↦
          ih
          ∙ rw e (elim (Bool-cases (dst + i == a)) [
            | inl f ↦
                let at : src + i + (a - (dst + i)) ≡ src + i = ground (arith, f) in
                let here : (leb (dst + i) a && ltb a (dst + i + suc n)) ≡ true =
                  ground (arith, f) in
                rw (f, here, at) refl
            | inr f ↦
                let here : (leb (dst + i) a && ltb a (dst + i + suc n)) ≡ false =
                  ground (arith, e, f) in
                rw (f, here) refl
          ])
    ]

copy_down-moved :
    (n dst src a : ℕ) (memory : ℕ → ℕ)
    → src ≤ dst
    → copy_down n dst src memory a ≡ moved dst src n memory a
unfolding copy_down
copy_down-moved zero dst src a memory apart = ground arith
copy_down-moved (suc n) dst src a memory apart =
    let ih = copy_down-moved n dst src a (update memory (dst + n) (memory (src + n))) apart in
    elim (Bool-cases (leb dst a && ltb a (dst + n))) [
      | inl e ↦
          let ne : (dst + n == src + (a - dst)) ≡ false = ground (arith, e) in
          let here : (leb dst a && ltb a (dst + suc n)) ≡ true = ground (arith, e) in
          ih ∙ rw (e, here, ne) refl
      | inr e ↦
          ih
          ∙ rw e (elim (Bool-cases (dst + n == a)) [
            | inl f ↦
                let at : src + (a - dst) ≡ src + n = ground (arith, f) in
                let here : (leb dst a && ltb a (dst + suc n)) ≡ true = ground (arith, f) in
                rw (f, here, at) refl
            | inr f ↦
                let here : (leb dst a && ltb a (dst + suc n)) ≡ false = ground (arith, e, f) in
                rw (f, here) refl
          ])
    ]

fill_up-filled :
    (n i dst v a : ℕ) (memory : ℕ → ℕ)
    → fill_up n i dst v memory a ≡ (if leb (dst + i) a && ltb a (dst + i + n) then v else memory a)
unfolding fill_up
fill_up-filled zero i dst v a memory = ground arith
fill_up-filled (suc n) i dst v a memory =
    ground (arith, fill_up-filled n (i + 1) dst v a (update memory (dst + i) v))

zero-moved :
    (dst src n : ℕ) (memory : ℕ → ℕ) (a : ℕ)
    → moved (dst + 0) (src + 0) n memory a ≡ moved dst src n memory a
zero-moved dst src n memory a =
    let d : dst + 0 ≡ dst = omega arith in let s : src + 0 ≡ src = omega arith in rw (d, s) refl

-- memmove leaves at each address of the destination the byte that was at the same place of the
-- source, also where the two overlap, and every other byte as it was.
pub memmove-moved :
    (dst src size a : ℕ) (memory : ℕ → ℕ)
    → memmove dst src size memory a ≡ moved dst src size memory a
unfolding memmove
memmove-moved dst src size a memory = elim (Bool-cases (dst == src || size == 0)) [
  | inl e ↦ elim (Bool-cases (leb dst a && ltb a (dst + size))) [
    | inl i ↦ let at : src + (a - dst) ≡ a = ground (arith, e, i) in rw (e, i, at) refl
    | inr i ↦ rw (e, i) refl
  ]
  | inr e ↦ elim (Bool-cases (ltb dst src)) [
    | inl f ↦
        let up = copy_up-moved size 0 dst src a memory (inl (ground (arith, f))) in
        rw (e, f) (up ∙ zero-moved dst src size memory a)
    | inr f ↦ rw (e, f) (copy_down-moved size dst src a memory (ground (arith, f)))
  ]
]

-- memcpy does the same wherever the destination does not start inside the source.
pub memcpy-memmove :
    (dst src size a : ℕ) (memory : ℕ → ℕ)
    → (dst ≤ src) ⊎ (src + size ≤ dst)
    → memcpy dst src size memory a ≡ memmove dst src size memory a
memcpy-memmove dst src size a memory apart =
    copy_up-moved size 0 dst src a memory
      (elim apart [ inl h ↦ inl h | inr h ↦ inr (omega (arith, h)) ])
    ∙ zero-moved dst src size memory a
    ∙ sym (memmove-moved dst src size a memory)

-- memset leaves the value, cut to a byte, at every address of its range, and every other byte as it
-- was.
pub memset-filled :
    (dst value size a : ℕ) (memory : ℕ → ℕ)
    → memset dst value size memory a
      ≡ (if leb dst a && ltb a (dst + size) then value % 256 else memory a)
memset-filled dst value size a memory =
    ground (arith, fill_up-filled size 0 dst (value % 256) a memory)
