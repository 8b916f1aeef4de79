-- ===== src/Io/Paths.antt =====
-- IoRegisterBootFile and the lookup of a path.
use ntx_preview.Base.{
  ℕ, zero, suc, ◌+◌, ◌<◌, ◌≡◌, ◌∙◌, sym, ap, true, not, ◌||◌, ◌==◌, arith, length, update, List, [],
  ◌∷◌, none, some, Bool-cases, Option-cases, inl, inr, first_index, first_index-some,
  first_index-none, first_index-eq, success, init_failed, invalid_parameter,
}
use ntx_preview.Base.Text.{copy_text, copy_text-stopped, copy_text-char}
use ntx_preview.Io.{
  Io, registered, string_equals, copy_string, lookup_file, register_boot_file, path_bytes,
  max_boot_files,
}

copy_text-string_equals :
    (n i : ℕ) (text : List ℕ) (dst : ℕ → ℕ)
    → length text < n
    → string_equals ((copy_text n i text dst).1) i text ≡ true
unfolding copy_text string_equals
copy_text-string_equals zero i text dst l = absurd (omega arith)
copy_text-string_equals (suc n) i [] dst l = ground arith
copy_text-string_equals (suc n) i (ch ∷ text) dst l =
    let e : i + 0 ≡ i = omega arith in
    let here = rw e at (copy_text-char (suc n) i 0 (ch ∷ text) dst (omega arith) (omega arith)) in
    ground (arith, here, copy_text-string_equals n (i + 1) text (update dst i ch) (omega arith))

-- A text that was copied whole is the one that is then found in the array.
copy_string-string_equals :
    (dst : ℕ → ℕ) (n : ℕ) (text : List ℕ)
    → (copy_string dst (suc n) text).0 ≡ true
    → string_equals (copy_string dst (suc n) text).1 0 text ≡ true
unfolding copy_string
copy_string-string_equals dst n text w =
    ground (arith, copy_text-stopped n 0 text dst, copy_text-string_equals n 0 text dst)

module _ (io io' : Io) (path : List ℕ) (bytes : ℕ → ℕ) (size : ℕ) where
  -- A registration that succeeds fills in the first free entry.
  register_boot_file-success :
      register_boot_file (some path) (some bytes) size io ≡ (success, io')
      → (i : ℕ) × (first_index (λ i. not (io.boot_files i).in_use) max_boot_files ≡ some i)
        × ((copy_string (io.boot_files i).path path_bytes path).0 ≡ true)
        × (io' ≡ registered i (copy_string (io.boot_files i).path path_bytes path).1 bytes size io)
  unfolding register_boot_file
  register_boot_file-success ran = elim (Bool-cases (not io.ready || size == 0)) [
    | inl g ↦
        let other : register_boot_file (some path) (some bytes) size io ≡ (invalid_parameter, io) =
          ground (arith, g) in
        absurd (cc (ap (λ r. r.0) (sym ran ∙ other)))
    | inr g ↦ elim (Option-cases (first_index (λ i. not (io.boot_files i).in_use) max_boot_files)) [
      | inl e ↦
          let other : register_boot_file (some path) (some bytes) size io ≡ (init_failed, io) =
            ground (arith, g, e) in
          absurd (cc (ap (λ r. r.0) (sym ran ∙ other)))
      | inr (i, e) ↦ elim (Bool-cases (copy_string (io.boot_files i).path path_bytes path).0) [
        | inl w ↦
            let done : register_boot_file (some path) (some bytes) size io ≡ (
              success,
              registered i (copy_string (io.boot_files i).path path_bytes path).1 bytes size io,
            ) =
              ground (arith, g, e, w) in
            (i, e, w, ap (λ r. r.1) (sym ran ∙ done))
        | inr w ↦
            let other : (register_boot_file (some path) (some bytes) size io).0
                ≡ invalid_parameter =
              ground (arith, g, e, w) in
            absurd (cc (sym (ap (λ r. r.0) ran) ∙ other))
      ]
    ]
  ]

  lookup_file-registered :
      (i : ℕ) (copied : ℕ → ℕ)
      → lookup_file path io ≡ none
      → i < max_boot_files
      → string_equals copied 0 path ≡ true
      → lookup_file path (registered i copied bytes size io) ≡ some i
  unfolding lookup_file
  lookup_file-registered i copied unknown b same = first_index-eq _ max_boot_files i (
    b,
    ground (arith, same),
    λ j l. ground (arith, first_index-none _ max_boot_files unknown j (omega (arith, b, l))),
  )

  -- A path that was not known and is registered is found, and leads to the registered bytes.
  pub register_boot_file-lookup_file :
      lookup_file path io ≡ none
      → register_boot_file (some path) (some bytes) size io ≡ (success, io')
      → (i : ℕ) × (lookup_file path io' ≡ some i)
        × ((io'.boot_files i).bytes ≡ bytes)
        × ((io'.boot_files i).size ≡ size)
  register_boot_file-lookup_file unknown ran =
      let (i, e, w, now) = register_boot_file-success ran in
      let (b, _, _) = first_index-some _ max_boot_files i e in
      let same = copy_string-string_equals (io.boot_files i).path 63 path w in
      let copied = (copy_string (io.boot_files i).path path_bytes path).1 in
      (
        i,
        ap (lookup_file path) now ∙ lookup_file-registered i copied unknown b same,
        ap (λ (x : Io). (x.boot_files i).bytes) now ∙ ground arith,
        ap (λ (x : Io). (x.boot_files i).size) now ∙ ground arith,
      )
