-- ===== src/Boot/Ranges.antt =====
-- ConvertMemoryMap: the ranges that the kernel is given against the descriptors of the firmware.
use ntx_preview.Base.{
  ℕ, zero, suc, ◌+◌, ◌*◌, ◌≤◌, ◌<◌, ◌≡◌, ◌∙◌, ap, refl, subst, arith, inl, inr, Bool-cases, update,
  update_self, update-ne, ltb, ◌==◌,
}
use native.Mathlib.Nat.{add-mul}
use ntx_preview.BootProto.{PhysicalMemoryRange}
use ntx_preview.Boot.MemoryMap.{Snapshot, range_of, convert_from, convert_memory_map}

-- The first `range_count` ranges are those of the first descriptors of the map, which all start in
-- the map; where there is room left, they are all.
pub record Converted (s converted : Snapshot) : Type 0 where
  pub room : converted.range_count ≤ s.range_capacity
  pub whole :
      converted.range_count < s.range_capacity
      → s.map_size ≤ converted.range_count * s.descriptor_size
  pub starts : (k : ℕ) → k < converted.range_count → k * s.descriptor_size < s.map_size
  pub range :
      (k : ℕ)
      → k < converted.range_count
      → converted.ranges k ≡ range_of (k * s.descriptor_size) s.map_bytes
  pub key : converted.map_key ≡ s.map_key
  pub capacity : converted.range_capacity ≡ s.range_capacity

-- The loop with the first `k` ranges written.
convert_from-Converted :
    (s : Snapshot) (n k offset : ℕ) (ranges : ℕ → PhysicalMemoryRange)
    → offset ≡ k * s.descriptor_size
    → n + k ≡ s.range_capacity
    → ((j : ℕ) → j < k → j * s.descriptor_size < s.map_size)
    → ((j : ℕ) → j < k → ranges j ≡ range_of (j * s.descriptor_size) s.map_bytes)
    → Converted s (convert_from n k offset (record s { ranges = ranges; range_count = k }))
unfolding convert_from
convert_from-Converted s zero k offset ranges at c starts written = record {
  room = omega (arith, c);
  whole = λ b. absurd (omega (arith, b, c));
  starts = starts;
  range = written;
  key = refl;
  capacity = refl;
}
convert_from-Converted s (suc n) k offset ranges at c starts written =
    elim (Bool-cases (ltb offset s.map_size)) [
      | inl h ↦
          let after = update ranges k (range_of offset s.map_bytes) in
          let next : offset + s.descriptor_size ≡ (k + 1) * s.descriptor_size =
            omega (arith, at, add-mul k 1 s.descriptor_size) in
          rw h (
            convert_from-Converted s n (k + 1) (offset + s.descriptor_size) after next
              (omega (arith, c))
              (λ j b. elim (Bool-cases (k == j)) [
                | inl e ↦
                    let same : k ≡ j = ground (arith, e) in
                    subst (λ (x : ℕ). x * s.descriptor_size < s.map_size) same
                      (ground (arith, h, at))
                | inr e ↦ starts j (ground (arith, e))
              ])
              (λ j b. elim (Bool-cases (k == j)) [
                | inl e ↦
                    let same : k ≡ j = ground (arith, e) in
                    subst (λ (x : ℕ). after x ≡ range_of (x * s.descriptor_size) s.map_bytes) same
                      (update_self ranges k (range_of offset s.map_bytes)
                        ∙ ap (λ (x : ℕ). range_of x s.map_bytes) at)
                | inr e ↦
                    update-ne ranges k j (range_of offset s.map_bytes) (λ q. ground (arith, e, q))
                    ∙ written j (ground (arith, e))
              ]))
      | inr h ↦ rw h record {
        room = omega (arith, c);
        whole = λ b. ground (arith, h, at);
        starts = starts;
        range = written;
        key = refl;
        capacity = refl;
      }
    ]

-- ConvertMemoryMap turns the first descriptors of the map into ranges, one each and in their order, as
-- many as there is room for; where there is room left it has turned them all. The key and the room stay.
pub convert_memory_map-Converted : (s : Snapshot) → Converted s (convert_memory_map s)
unfolding convert_memory_map
convert_memory_map-Converted s =
    convert_from-Converted s s.range_capacity 0 0 s.ranges (omega arith) (omega arith)
      (λ j b. absurd (omega (arith, b))) (λ j b. absurd (omega (arith, b)))
