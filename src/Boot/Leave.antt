-- ===== src/Boot/Leave.antt =====
-- ExitBootServicesRobust: the order of the firmware's calls, and what is in the boot information at the
-- end.
use ntx_preview.Base.{
  ℕ, zero, suc, ◌+◌, ◌*◌, ◌/◌, ◌%◌, ◌^◌, ◌≡◌, ◌<◌, ◌≤◌, sym, ap, refl, subst, true, false, not,
  arith, List, [], ◌∷◌, inl, inr, Bool-cases, Option-cases, ◌==◌, ◌!=◌,
}
use ntx_preview.Boot.{efi_invalid_parameter, efi_buffer_too_small, efi_error}
use ntx_preview.Boot.MemoryMap.{
  Snapshot, Firmware, Call, got_map, used_pool, exited, MapReply, range_of, with_reply, Leaving,
  grow, leave, take_map, attempts, exit_boot_services_robust,
}
use ntx_preview.Boot.Ranges.{convert_memory_map-Converted}

-- The last call has given a map with this key.
abbrev Latest : ℕ → List Call → Type 0
Latest key [] = ⊥
Latest key (got_map k ∷ calls) = k ≡ key
Latest key (used_pool ∷ calls) = ⊥
Latest key (exited k ∷ calls) = ⊥

-- Each ExitBootServices directly follows a GetMemoryMap, and has the key of its map.
abbrev pub Fresh : List Call → Type 0
Fresh [] = Unit
Fresh (got_map k ∷ calls) = Fresh calls
Fresh (used_pool ∷ calls) = Fresh calls
Fresh (exited k ∷ calls) = Latest k calls × Fresh calls

-- The ranges of the snapshot are those of the first descriptors of the reply of GetMemoryMap, one each
-- and in their order, as many as there is room for, and all of them where room is left.
pub record Holds (reply : MapReply) (s : Snapshot) : Type 0 where
  pub room : s.range_count ≤ s.range_capacity
  pub whole : s.range_count < s.range_capacity → reply.size ≤ s.range_count * reply.descriptor_size
  pub starts : (k : ℕ) → k < s.range_count → k * reply.descriptor_size < reply.size
  pub range :
      (k : ℕ) → k < s.range_count → s.ranges k ≡ range_of (k * reply.descriptor_size) reply.bytes

-- The last two calls of the firmware were a GetMemoryMap, whose reply the snapshot holds, and with the
-- reply's key an ExitBootServices that was no error; the entries are as many as the ranges.
abbrev pub Told : {W : Type 0} → Firmware W → Leaving W → Type 0
Told {W} f l =
    (size : ℕ) × (before : W) × (got : ℕ) × (reply : MapReply) × (between : W) × (left : ℕ)
    × (f.get_memory_map size before ≡ (got, reply, between))
    × (f.exit_boot_services reply.key between ≡ (left, l.world))
    × (efi_error got ≡ false)
    × (efi_error left ≡ false)
    × Holds reply l.snapshot
    × (l.entries ≡ l.snapshot.range_count % 2 ^ 32)

module _ {W : Type 0} (f : Firmware W) where
  grow-Fresh : (l : Leaving W) → Fresh l.calls → Fresh (grow f l).1.calls
  unfolding grow
  grow-Fresh l h =
      let s = l.snapshot in
      let size = (s.map_size + s.descriptor_size * 16) % 2 ^ 64 in
      let map = f.allocate_pool size l.world in
      elim (Option-cases map.0) [
        | inl e ↦ rw (e, grow) h
        | inr (m, e) ↦
            elim (Option-cases
              (f.allocate_pool (24 * (size / s.descriptor_size) % 2 ^ 64) map.1).0) [
                | inl r ↦ rw (e, r, grow) h
                | inr (b, r) ↦ rw (e, r, grow) h
              ]
      ]

  take_map-Latest :
      (l : Leaving W) → Latest (take_map f l).1.snapshot.map_key (take_map f l).1.calls
  unfolding take_map
  take_map-Latest l = refl

  leave-Fresh :
      (l : Leaving W)
      → Latest l.snapshot.map_key l.calls
      → Fresh l.calls
      → Fresh (leave f l).1.calls
  unfolding leave
  leave-Fresh l k h =
      (subst (λ (x : ℕ). Latest x l.calls) (sym (convert_memory_map-Converted l.snapshot).key) k, h)

  attempts-Fresh :
      (n status : ℕ) (l : Leaving W) → Fresh l.calls → Fresh (attempts f n status l).1.calls
  unfolding attempts
  attempts-Fresh zero status l h = h
  attempts-Fresh (suc n) status l h =
      let (got, taken) = take_map f l in
      let fresh : Fresh taken.calls = h in
      let grown = grow-Fresh taken fresh in
      let gone = leave-Fresh taken (take_map-Latest l) fresh in
      elim (Bool-cases (got == efi_buffer_too_small)) [
        | inl b ↦ elim (Bool-cases (grow f taken).0) [
          | inl g ↦ rw (b, g) (attempts-Fresh n got (grow f taken).1 grown)
          | inr g ↦ rw (b, g) grown
        ]
        | inr b ↦ elim (Bool-cases (efi_error got)) [
          | inl e ↦ rw (b, e) fresh
          | inr e ↦ elim (Bool-cases (not (efi_error (leave f taken).0))) [
            | inl s ↦ rw (b, e, s) gone
            | inr s ↦ elim (Bool-cases ((leave f taken).0 != efi_invalid_parameter)) [
              | inl i ↦ rw (b, e, s, i) gone
              | inr i ↦ rw (b, e, s, i) (attempts-Fresh n (leave f taken).0 (leave f taken).1 gone)
            ]
          ]
        ]
      ]

  -- In the calls of ExitBootServicesRobust, whatever the firmware answers, each ExitBootServices comes
  -- directly after a GetMemoryMap and has the key of its map, with no other boot service between.
  pub exit_boot_services_robust-Fresh :
      (l : Leaving W) → Fresh l.calls → Fresh (exit_boot_services_robust f l).1.calls
  unfolding exit_boot_services_robust
  exit_boot_services_robust-Fresh l h = attempts-Fresh 4 efi_invalid_parameter l h

  leave-Told :
      (l : Leaving W)
      → efi_error (take_map f l).0 ≡ false
      → efi_error (leave f (take_map f l).1).0 ≡ false
      → Told f (leave f (take_map f l).1).1
  unfolding leave take_map
  leave-Told l got left =
      let (status, reply, w) = f.get_memory_map l.snapshot.map_buffer_size l.world in
      let taken = with_reply reply l.snapshot in
      let c = convert_memory_map-Converted taken in
      (
        l.snapshot.map_buffer_size,
        l.world,
        status,
        reply,
        w,
        _,
        refl,
        ap (λ k. f.exit_boot_services k w) (sym c.key),
        got,
        left,
        record {
          room = omega (arith, c.room, c.capacity);
          whole = λ b. c.whole (omega (arith, b, c.capacity));
          starts = c.starts;
          range = c.range;
        },
        refl,
      )

  -- Where the status is no error.
  abbrev ToldIf : ℕ × Leaving W → Type 0
  ToldIf r = efi_error r.0 ≡ false → Told f r.1

  attempts-ToldIf :
      (n status : ℕ) (l : Leaving W) → efi_error status ≡ true → ToldIf (attempts f n status l)
  unfolding attempts
  attempts-ToldIf zero status l e = λ s. absurd (cc (e, s))
  attempts-ToldIf (suc n) status l e =
      let (got, taken) = take_map f l in
      let (left, gone) = leave f taken in
      elim (Bool-cases (got == efi_buffer_too_small)) [
        | inl b ↦ elim (Bool-cases (grow f taken).0) [
          | inl g ↦ rw (b, g) (attempts-ToldIf n got (grow f taken).1 (ground (arith, b)))
          | inr g ↦ rw (b, g) (λ s. absurd (cc s))
        ]
        | inr b ↦ elim (Bool-cases (efi_error got)) [
          | inl x ↦ rw (b, x) (λ s. absurd (cc (x, s)))
          | inr x ↦ elim (Bool-cases (not (efi_error left))) [
            | inl s ↦ rw (b, x, s) (λ t. leave-Told l x (ground (arith, s)))
            | inr s ↦ elim (Bool-cases (left != efi_invalid_parameter)) [
              | inl i ↦ rw (b, x, s, i) (λ t. absurd (ground (arith, s, t)))
              | inr i ↦ rw (b, x, s, i) (attempts-ToldIf n left gone (ground (arith, i)))
            ]
          ]
        ]
      ]

  -- When ExitBootServicesRobust succeeds, the firmware's last calls were a GetMemoryMap and, with the
  -- key of its reply, the ExitBootServices that succeeded; the ranges of the snapshot are those of the
  -- descriptors in that reply, one each and in their order, all of them where there was room; and the
  -- number of entries in the boot information is the number of these ranges.
  pub exit_boot_services_robust-Told :
      (l : Leaving W)
      → efi_error (exit_boot_services_robust f l).0 ≡ false
      → Told f (exit_boot_services_robust f l).1
  unfolding exit_boot_services_robust
  exit_boot_services_robust-Told l s = attempts-ToldIf 4 efi_invalid_parameter l refl s
