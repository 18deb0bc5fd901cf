-- ===== src/Snapshots/Tests.antt =====
-- The laws of csrc/runtime/inject_helpers/MemoryContext.cpp on a concrete device.
use msopcom.Prelude.{
  Apart, ℕ, zero, suc, ◌+◌, ◌-◌, ◌≤◌, ◌<◌, ◌≡◌, inl, inr, refl, ap, ap₂, ◌∙◌, arith, true, false,
  ◌&&◌, List, [], ◌∷◌, leb, ltb, All, if◌then◌else◌,
}
use msopcom.Snapshots.{
  DeviceBucket, SnapshotRuntime, mem_copy_sync, mem_copy, backup, restore, backup_loop,
  create_snapshot, get_current_stream, restore_from_snapshot,
}
use msopcom.Snapshots.Copies.{Device}
use msopcom.Snapshots.Backups.{IsTidy}
use msopcom.Snapshots.Restoring.{restore-backup, backup_keeps}

-- The address of the next block, and the byte at each address.
abbrev Board : Type 0
Board = ℕ × (ℕ → ℕ)

abbrev bytes : (ℕ → ℕ) → ℕ → ℕ → List ℕ
bytes f a zero = []
bytes f a (suc n) = f a ∷ bytes f (suc a) n

abbrev moved : ℕ → ℕ → ℕ → (ℕ → ℕ) → ℕ → ℕ
moved dst src n f x = if leb dst x && ltb x (dst + n) then f (src + (x - dst)) else f x

abbrev board : SnapshotRuntime Board
board = record {
  malloc = λ d n. (0, suc d.0, (suc d.0 + n, d.1));
  free = λ d p. d;
  memcpy = λ d dst src n. (0, (d.0, moved dst src n d.1));
  memcpy_async = λ d dst src n stream. (0, (d.0, moved dst src n d.1));
  synchronize = λ d stream. (0, d);
  current_stream = λ d. (0, 0);
}

abbrev held : Board → ℕ → ℕ → List ℕ
held d a n = bytes d.1 a n

abbrev InUse : Board → ℕ → ℕ → Type 0
InUse d a n = a + n ≤ d.0

bytes_ext :
    (f g : ℕ → ℕ) (a b n : ℕ)
    → ((i : ℕ) → i < n → f (a + i) ≡ g (b + i))
    → bytes f a n ≡ bytes g b n
bytes_ext f g a b zero h = refl
bytes_ext f g a b (suc n) h =
    ap₂ (λ x r. x ∷ r) (ap f (omega arith) ∙ h 0 (omega arith) ∙ ap g (omega arith))
      (bytes_ext f g (suc a) (suc b) n
        (λ i few. ap f (omega arith) ∙ h (suc i) (omega arith) ∙ ap g (omega arith)))

moved_inside : (dst src n i : ℕ) (f : ℕ → ℕ) → i < n → moved dst src n f (dst + i) ≡ f (src + i)
moved_inside dst src n i f few =
    let inside : leb dst (dst + i) && ltb (dst + i) (dst + n) ≡ true = ground (arith, few) in
    let same : src + (dst + i - dst) ≡ src + i = omega arith in rw inside (ap f same)

moved-Apart :
    (dst src n a m i : ℕ) (f : ℕ → ℕ)
    → Apart dst n a m
    → i < m
    → moved dst src n f (a + i) ≡ f (a + i)
moved-Apart dst src n a m i f apart few =
    let outside : leb dst (a + i) && ltb (a + i) (dst + n) ≡ false = ground (arith, apart, few) in
    rw outside refl

held_moved : (d : Board) (dst src n : ℕ) → bytes (moved dst src n d.1) dst n ≡ bytes d.1 src n
held_moved d dst src n =
    bytes_ext (moved dst src n d.1) d.1 dst src n (λ i few. moved_inside dst src n i d.1 few)

held-Apart :
    (d : Board) (dst src n a m : ℕ)
    → Apart dst n a m
    → bytes (moved dst src n d.1) a m ≡ bytes d.1 a m
held-Apart d dst src n a m apart =
    bytes_ext (moved dst src n d.1) d.1 a a m (λ i few. moved-Apart dst src n a m i d.1 apart few)

board-Device : Device board held InUse
board-Device = record {
  malloc_fresh = λ d n e. (omega arith, omega arith, λ a m used. inr (omega arith));
  malloc_keeps = λ d n a m used. (omega arith, refl);
  memcpy_copies = λ d dst src n e. held_moved d dst src n;
  memcpy_keeps = λ d dst src n a m. (λ used. used, λ apart. held-Apart d dst src n a m apart);
  stream_copies = λ d dst src n stream e s. held_moved d dst src n;
  async_keeps = λ d dst src n stream a m. (λ used. used, λ apart. held-Apart d dst src n a m apart);
  stream_keeps =
      λ d dst src n stream a m. (λ used. used, λ apart. held-Apart d dst src n a m apart);
}

-- Two blocks, of 4 bytes at 1 and of 3 at 5.
abbrev two_blocks : DeviceBucket
two_blocks = record {
  mem_section_map =
      (1, record { origin_addr = 1; snapshot_addr = 0; size = 4 })
      ∷ (5, record { origin_addr = 5; snapshot_addr = 0; size = 3 })
      ∷ [];
  stream = 0;
}

abbrev start : Board
start = (8, λ x. x)

its-IsTidy : IsTidy board held InUse board-Device start two_blocks.mem_section_map
its-IsTidy = (
  (omega arith, inl refl, inl refl),
  ((inl refl, inl refl, inl refl, inl (omega arith)), tt),
  ((omega arith, inl refl, inl refl), tt, tt),
)

backup_keeps_example :
    let t = (backup board two_blocks start).2 in
    All
      (λ e. held t e.1.origin_addr e.1.size ≡ held start e.1.origin_addr e.1.size)
      two_blocks.mem_section_map
backup_keeps_example = backup_keeps board held InUse board-Device two_blocks start its-IsTidy

-- The memory after a kernel has cleared both blocks.
abbrev cleared : Board
cleared = let t = (backup board two_blocks start).2 in (t.0, λ x. if ltb x 9 then 0 else t.1 x)

restore-backup_example :
    let v = (restore board (backup board two_blocks start).1 cleared).2 in
    All
      (λ e. held v e.1.origin_addr e.1.size ≡ held start e.1.origin_addr e.1.size)
      two_blocks.mem_section_map
unfolding backup backup_loop create_snapshot mem_copy mem_copy_sync get_current_stream
    restore_from_snapshot
restore-backup_example =
    restore-backup board held InUse board-Device two_blocks start cleared its-IsTidy refl
      (refl, (refl, tt)) (refl, (refl, tt))
