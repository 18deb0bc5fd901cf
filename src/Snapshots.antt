-- ===== src/Snapshots.antt =====
-- csrc/runtime/inject_helpers/MemoryContext.h and MemoryContext.cpp: the device memory that a program
-- has allocated, saved before a kernel is replayed and put back afterwards.
-- An address or a stream is a number, 0 for null. The runtime's calls are the fields of
-- `SnapshotRuntime` over a state `D` of the device; an error code is a number, 0 for success. A map is
-- an association list, gone through in its order. The policy of the allocator is always the same, and
-- is left to `malloc`; the locks make each operation one step.
pub mod Copies
pub mod Saving
pub mod Backups
pub mod Restoring
mod Tests
use msopcom.Prelude.{
  ℕ, Bool, true, false, List, [], ◌∷◌, Option, none, some, nat_beq, ltb, if◌then◌else◌, insert,
  lookup, erase, value_or, nat_eq,
}

pub record MemSection : Type 0 where
  pub origin_addr : ℕ
  pub snapshot_addr : ℕ
  pub size : ℕ

pub record DeviceBucket : Type 0 where
  pub mem_section_map : List (ℕ × MemSection)
  pub stream : ℕ

-- `MemoryContext`: the buckets by device.
abbrev pub MemoryContext : Type 0
MemoryContext = List (ℕ × DeviceBucket)

pub record SnapshotRuntime (D : Type 0) : Type 0 where
  -- aclrtMalloc: the code and the address; aclrtFree.
  pub malloc : D → ℕ → ℕ × ℕ × D
  pub free : D → ℕ → D
  -- aclrtMemcpy and aclrtMemcpyAsync on the device: the target, the source, the size, the stream.
  pub memcpy : D → ℕ → ℕ → ℕ → ℕ × D
  pub memcpy_async : D → ℕ → ℕ → ℕ → ℕ → ℕ × D
  -- aclrtSynchronizeStream.
  pub synchronize : D → ℕ → ℕ × D
  -- aclrtCtxGetCurrentDefaultStream: the code and the stream.
  pub current_stream : D → ℕ × ℕ

-- `GetBucket`: the bucket of the running device, a new one if there is none.
pub get_bucket : ℕ → MemoryContext → DeviceBucket
get_bucket device c = value_or (record { mem_section_map = []; stream = 0 }) (lookup device c)

-- `Append`.
unfoldable pub append : ℕ → ℕ → DeviceBucket → DeviceBucket
append addr size b = if nat_beq addr 0 then b else record b {
  mem_section_map =
      insert addr (record { origin_addr = addr; snapshot_addr = 0; size = size }) b.mem_section_map;
}

-- An operation on the running device's bucket.
pub on_bucket : ℕ → (DeviceBucket → DeviceBucket) → MemoryContext → MemoryContext
on_bucket device change c = insert device (change (get_bucket device c)) c

module _ {D : Type 0} (rt : SnapshotRuntime D) where
  pub free_snapshot : MemSection → D → D
  free_snapshot s d = if nat_beq s.snapshot_addr 0 then d else rt.free d s.snapshot_addr

  -- `Discard`.
  pub discard : ℕ → DeviceBucket → D → DeviceBucket × D
  discard addr b d = elim (lookup addr b.mem_section_map) [
    | none ↦ (b, d)
    | some s ↦ (record b { mem_section_map = erase addr b.mem_section_map }, free_snapshot s d)
  ]

  -- `GetCurrentStream`: the stream, which the bucket keeps.
  pub get_current_stream : ℕ → D → ℕ
  get_current_stream kept d =
      if ltb 0 kept then kept else let r = rt.current_stream d in if nat_beq r.0 0 then r.1 else 0

  -- `MemCopySync` and `MemCopyWithStream`, once the direction has given the target and the source.
  pub mem_copy_sync : ℕ → ℕ → ℕ → D → Bool × D
  mem_copy_sync dst src n d = let r = rt.memcpy d dst src n in (nat_beq r.0 0, r.1)

  pub mem_copy_with_stream : ℕ → ℕ → ℕ → ℕ → D → Bool × D
  mem_copy_with_stream dst src n stream d =
      let r = rt.memcpy_async d dst src n stream in
      let e = rt.synchronize r.1 stream in
      if nat_beq r.0 0 then (nat_beq e.0 0, e.1) else (false, r.1)

  -- The choice between them at the end of `CreateSnapshot` and `RestoreFromSnapshot`.
  pub mem_copy : ℕ → ℕ → ℕ → ℕ → D → Bool × D
  mem_copy dst src n stream d =
      if nat_beq stream 0
      then mem_copy_sync dst src n d
      else mem_copy_with_stream dst src n stream d

  -- A result with the section and the memory.
  abbrev pub Saved : Type 0
  Saved = Bool × MemSection × D

  -- `CreateSnapshot`.
  pub create_snapshot : MemSection → ℕ → D → Saved
  create_snapshot s stream d =
      let made = rt.malloc d s.size in
      let fresh = record s { snapshot_addr = made.1 } in
      let copied = mem_copy made.1 s.origin_addr s.size stream made.2 in
      let again = mem_copy s.snapshot_addr s.origin_addr s.size stream d in
      if nat_beq s.origin_addr 0
      then (false, s, d)
      else if nat_beq s.snapshot_addr 0
      then if nat_beq made.0 0 then (copied.0, fresh, copied.1) else (false, fresh, made.2)
      else (again.0, s, again.1)

  -- The loop of `Backup`: its result, the sections, the kept stream and the memory.
  pub backup_loop : List (ℕ × MemSection) → ℕ → D → Bool × List (ℕ × MemSection) × ℕ × D
  backup_loop [] kept d = (true, [], kept, d)
  backup_loop ((k, s) ∷ ss) kept d =
      let stream = get_current_stream kept d in
      let r = create_snapshot s stream d in
      let rest = backup_loop ss stream r.2 in
      if r.0
      then (rest.0, (k, r.1) ∷ rest.1, rest.2, rest.3)
      else (false, (k, r.1) ∷ ss, stream, r.2)

  -- `Backup`.
  pub backup : DeviceBucket → D → Bool × DeviceBucket × D
  backup b d =
      let r = backup_loop b.mem_section_map b.stream d in
      (r.0, record { mem_section_map = r.1; stream = r.2 }, r.3)

  -- `RestoreFromSnapshot`.
  pub restore_from_snapshot : MemSection → ℕ → D → Bool × D
  restore_from_snapshot s stream d =
      if nat_beq s.origin_addr 0
      then (false, d)
      else if nat_beq s.snapshot_addr 0
      then (false, d)
      else mem_copy s.origin_addr s.snapshot_addr s.size stream d

  -- The loop of `Restore`, which goes on after a failure: the kept stream and the memory.
  pub restore_loop : List (ℕ × MemSection) → ℕ → D → ℕ × D
  restore_loop [] kept d = (kept, d)
  restore_loop ((k, s) ∷ ss) kept d =
      let stream = get_current_stream kept d in
      restore_loop ss stream (restore_from_snapshot s stream d).1

  -- `Restore`.
  pub restore : DeviceBucket → D → Bool × DeviceBucket × D
  restore b d =
      let r = restore_loop b.mem_section_map b.stream d in (true, record b { stream = r.0 }, r.1)

  -- `DiscardAll`: the snapshots of one bucket, and of all.
  pub free_sections : List (ℕ × MemSection) → D → D
  free_sections [] d = d
  free_sections ((k, s) ∷ ss) d = free_sections ss (free_snapshot s d)

  pub discard_all : MemoryContext → D → MemoryContext × D
  discard_all [] d = ([], d)
  discard_all ((k, b) ∷ c) d = discard_all c (free_sections b.mem_section_map d)
