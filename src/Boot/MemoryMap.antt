-- ===== src/Boot/MemoryMap.antt =====
-- boot/uefi/bootx64.c: SnapshotMemoryMap, ConvertMemoryMap and ExitBootServicesRobust. The firmware is
-- a parameter, and its calls are logged, the last one first.
use ntx_preview.Base.{
  ℕ, zero, suc, ◌+◌, ◌*◌, ◌/◌, ◌%◌, ◌^◌, Bool, true, false, not, Option, none, some, List, ◌∷◌,
  update, if◌then◌else◌, ◌==◌, ◌!=◌, ltb,
}
use ntx_preview.Kpe.{read_bytes}
use ntx_preview.BootProto.{PhysicalMemoryRange}
use ntx_preview.Boot.{
  efi_success, efi_invalid_parameter, efi_buffer_too_small, efi_out_of_resources, efi_error,
  pages_to_size,
}

-- What GetMemoryMap writes: the size, the map, its key, and the size and version of a descriptor.
pub record MapReply : Type 0 where
  pub size : ℕ
  pub bytes : ℕ → ℕ
  pub key : ℕ
  pub descriptor_size : ℕ
  pub descriptor_version : ℕ

-- The boot services; GetMemoryMap is given the size of the buffer, and AllocatePool gives the address
-- of a buffer, none for NULL.
pub record Firmware (W : Type 0) : Type 0 where
  pub get_memory_map : ℕ → W → ℕ × MapReply × W
  pub allocate_pool : ℕ → W → Option ℕ × W
  pub free_pool : ℕ → W → W
  pub exit_boot_services : ℕ → W → ℕ × W

-- The calls of boot services, as far as they tell: a memory map with its key, the use of the pools,
-- and ExitBootServices with a key.
pub data Call : Type 0 where
  got_map : ℕ → Call
  used_pool : Call
  exited : ℕ → Call

-- `BOOT_MEMORY_SNAPSHOT`: a buffer is its address, and what stands at it.
pub record Snapshot : Type 0 where
  pub map_buffer : Option ℕ
  pub map_bytes : ℕ → ℕ
  pub map_buffer_size : ℕ
  pub map_size : ℕ
  pub map_key : ℕ
  pub descriptor_size : ℕ
  pub descriptor_version : ℕ
  pub ranges_buffer : Option ℕ
  pub ranges : ℕ → PhysicalMemoryRange
  pub range_capacity : ℕ
  pub range_count : ℕ

-- The range of the descriptor at an offset of the map.
abbrev pub range_of : ℕ → (ℕ → ℕ) → PhysicalMemoryRange
range_of offset map = record {
  base = read_bytes 8 (offset + 8) map;
  length = pages_to_size (read_bytes 8 (offset + 24) map);
  type = read_bytes 4 offset map;
  attributes = read_bytes 8 (offset + 32) map % 2 ^ 32;
}

-- The loop of ConvertMemoryMap from an offset on, with `n` free places left from index `k` on.
unfoldable pub convert_from : ℕ → ℕ → ℕ → Snapshot → Snapshot
convert_from zero k offset s = s
convert_from (suc n) k offset s =
    let rest = convert_from n (k + 1) (offset + s.descriptor_size) (record s {
      ranges = update s.ranges k (range_of offset s.map_bytes);
      range_count = k + 1;
    }) in
    if ltb offset s.map_size then rest else s

-- `ConvertMemoryMap`
unfoldable pub convert_memory_map : Snapshot → Snapshot
unfolding convert_from
convert_memory_map s = convert_from s.range_capacity 0 0 (record s { range_count = 0 })

-- What GetMemoryMap leaves in the snapshot.
abbrev pub with_reply : MapReply → Snapshot → Snapshot
with_reply reply s = record s {
  map_size = reply.size;
  map_bytes = reply.bytes;
  map_key = reply.key;
  descriptor_size = reply.descriptor_size;
  descriptor_version = reply.descriptor_version;
}

-- What the loop of ExitBootServicesRobust works on; `entries` is `BootInfo->MemoryMapEntryCount`.
pub record Leaving (W : Type 0) : Type 0 where
  pub snapshot : Snapshot
  pub entries : ℕ
  pub world : W
  pub calls : List Call

module _ {W : Type 0} (f : Firmware W) where
  -- `FreePool`, if there is a buffer.
  abbrev pub free_buffer : Option ℕ → W → W
  free_buffer none w = w
  free_buffer (some p) w = f.free_pool p w

  -- SnapshotMemoryMap behind its first GetMemoryMap, with what AllocatePool gave for the map: the
  -- buffer for the ranges, and the map.
  unfoldable pub snapshot_buffer : Snapshot → Option ℕ × W → ℕ × Snapshot × W
  snapshot_buffer s (none, w) = (efi_out_of_resources, s, w)
  snapshot_buffer s (some map, w) =
      let capacity = s.map_buffer_size / s.descriptor_size in
      let held = record s { map_buffer = some map } in
      let (ranges, w1) = f.allocate_pool (24 * capacity % 2 ^ 64) w in
      elim ranges [
        | none ↦ (efi_out_of_resources, held, w1)
        | some r ↦
            let (status, reply, w2) = f.get_memory_map s.map_buffer_size w1 in
            let read =
              with_reply reply
                (record held { ranges_buffer = some r; range_capacity = capacity }) in
            (if efi_error status then status else efi_success, read, w2)
      ]

  -- `SnapshotMemoryMap`: the first GetMemoryMap, on a buffer of no bytes, only tells the sizes.
  unfoldable pub snapshot_memory_map : W → ℕ × Snapshot × W
  unfolding snapshot_buffer
  snapshot_memory_map w =
      let (status, reply, w1) = f.get_memory_map 0 w in
      let size = (reply.size + reply.descriptor_size * 16) % 2 ^ 64 in
      let s : Snapshot = record {
        map_buffer = none;
        map_bytes = λ a. 0;
        map_buffer_size = 0;
        map_size = 0;
        map_key = reply.key;
        descriptor_size = reply.descriptor_size;
        descriptor_version = reply.descriptor_version;
        ranges_buffer = none;
        ranges = λ k. record { base = 0; length = 0; type = 0; attributes = 0 };
        range_capacity = 0;
        range_count = 0;
      } in
      if status != efi_buffer_too_small
      then (status, s, w1)
      else snapshot_buffer (record s { map_buffer_size = size }) (f.allocate_pool size w1)

  -- Larger buffers for the map and the ranges; none for EFI_OUT_OF_RESOURCES.
  unfoldable pub grow : Leaving W → Bool × Leaving W
  grow l =
      let s = l.snapshot in
      let size = (s.map_size + s.descriptor_size * 16) % 2 ^ 64 in
      let capacity = size / s.descriptor_size in
      let (map, w1) = f.allocate_pool size l.world in
      elim map [
        | none ↦ (false, record l { world = w1; calls = used_pool ∷ l.calls })
        | some m ↦
            let (ranges, w2) = f.allocate_pool (24 * capacity % 2 ^ 64) w1 in
            elim ranges [
              | none ↦ (
                false,
                record l {
                  world = f.free_pool m w2;
                  calls = used_pool ∷ used_pool ∷ used_pool ∷ l.calls;
                },
              )
              | some r ↦ (
                true,
                record l {
                  snapshot = record s {
                    map_buffer = some m;
                    map_buffer_size = size;
                    ranges_buffer = some r;
                    range_capacity = capacity;
                  };
                  world = free_buffer s.ranges_buffer (free_buffer s.map_buffer w2);
                  calls = used_pool ∷ used_pool ∷ l.calls;
                },
              )
            ]
      ]

  -- The map has been taken: it is converted, and boot services are left with its key.
  unfoldable pub leave : Leaving W → ℕ × Leaving W
  unfolding convert_memory_map
  leave l =
      let s = convert_memory_map l.snapshot in
      let (status, w) = f.exit_boot_services s.map_key l.world in
      (
        status,
        record l {
          snapshot = s;
          entries = s.range_count % 2 ^ 32;
          world = w;
          calls = exited s.map_key ∷ l.calls;
        },
      )

  -- GetMemoryMap on the buffer of the snapshot.
  unfoldable pub take_map : Leaving W → ℕ × Leaving W
  take_map l =
      let (status, reply, w) = f.get_memory_map l.snapshot.map_buffer_size l.world in
      (
        status,
        record l {
          snapshot = with_reply reply l.snapshot;
          world = w;
          calls = got_map reply.key ∷ l.calls;
        },
      )

  -- The attempts, of which `n` are left; `status` is that of the last one.
  unfoldable pub attempts : ℕ → ℕ → Leaving W → ℕ × Leaving W
  unfolding grow leave take_map
  attempts zero status l = (status, l)
  attempts (suc n) status l =
      let (got, taken) = take_map l in
      let (grew, grown) = grow taken in
      let (left, gone) = leave taken in
      let larger = attempts n got grown in
      let again = attempts n left gone in
      if got == efi_buffer_too_small
      then (if grew then larger else (efi_out_of_resources, grown))
      else if efi_error got
      then (got, taken)
      else if not (efi_error left)
      then (efi_success, gone)
      else if left != efi_invalid_parameter
      then (left, gone)
      else again

  -- `ExitBootServicesRobust` on a snapshot and boot information that are not NULL.
  unfoldable pub exit_boot_services_robust : Leaving W → ℕ × Leaving W
  unfolding attempts
  exit_boot_services_robust l = attempts 4 efi_invalid_parameter l
