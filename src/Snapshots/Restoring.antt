-- ===== src/Snapshots/Restoring.antt =====
-- Restore of csrc/runtime/inject_helpers/MemoryContext.cpp after a backup.
use msopcom.Prelude.{
  Apart, Apart-sym, ℕ, ◌≡◌, ◌≢◌, refl, sym, subst, ◌∙◌, arith, Bool, true, false, List, [], ◌∷◌,
  nat_beq, All,
}
use msopcom.Snapshots.{
  MemSection, DeviceBucket, SnapshotRuntime, get_current_stream, mem_copy, restore_from_snapshot,
  restore_loop, backup, restore, backup_loop,
}
use msopcom.Snapshots.Copies.{Device, mem_copy-Copied}
use msopcom.Snapshots.Saving.{Sections, Off}
use msopcom.Snapshots.Backups.{Settled, IsTidy, Matched, backup_loop-Backed, backup_loop_keeps}

module _ {D : Type 0} (rt : SnapshotRuntime D) (held : D → ℕ → ℕ → List ℕ)
    (in_use : D → ℕ → ℕ → Type 0) (c : Device rt held in_use) where
  -- A section with both blocks, whose origin then holds what the snapshot held if the copy succeeds.
  restore_from_snapshot-Copied :
      (s : MemSection) (stream : ℕ) (d : D)
      → s.origin_addr ≢ 0
      → s.snapshot_addr ≢ 0
      → let t = (restore_from_snapshot rt s stream d).1 in
        ((restore_from_snapshot rt s stream d).0 ≡ true
          → held t s.origin_addr s.size ≡ held d s.snapshot_addr s.size)
        × ((a m : ℕ) → Apart s.origin_addr s.size a m → held t a m ≡ held d a m)
  unfolding restore_from_snapshot
  restore_from_snapshot-Copied s stream d set has =
      let r : Bool × D = mem_copy rt s.origin_addr s.snapshot_addr s.size stream d in
      let first : nat_beq s.origin_addr 0 ≡ false = ground (arith, set) in
      let second : nat_beq s.snapshot_addr 0 ≡ false = ground (arith, has) in
      let equation : restore_from_snapshot rt s stream d ≡ r =
        simp (restore_from_snapshot, first, second) in
      let copied = mem_copy-Copied rt held in_use c s.origin_addr s.snapshot_addr s.size stream d in
      subst
        (λ (q : Bool × D).
          (q.0 ≡ true → held q.1 s.origin_addr s.size ≡ held d s.snapshot_addr s.size)
          × ((a m : ℕ) → Apart s.origin_addr s.size a m → held q.1 a m ≡ held d a m))
        (sym equation) (copied.0, λ a m apart. (copied.1 a m).1 apart)

  -- Each copy of the loop of Restore, in the memory that it finds, succeeds.
  abbrev pub AllRestored : Sections → ℕ → D → Type 0
  AllRestored [] kept d = Unit
  AllRestored ((k, s) ∷ ss) kept d =
      ((restore_from_snapshot rt s (get_current_stream rt kept d) d).0 ≡ true)
      × AllRestored ss (get_current_stream rt kept d)
          (restore_from_snapshot rt s (get_current_stream rt kept d) d).1

  abbrev Set : Sections → Type 0
  Set ss = All (λ e. (e.1.origin_addr ≢ 0) × (e.1.snapshot_addr ≢ 0)) ss

  restore_loop_spares :
      (ss : Sections) (kept a m : ℕ) (d : D)
      → Set ss
      → All (λ e. Apart e.1.origin_addr e.1.size a m) ss
      → held (restore_loop rt ss kept d).1 a m ≡ held d a m
  unfolding restore_loop
  restore_loop_spares [] kept a m d set apart = refl
  restore_loop_spares ((k, s) ∷ ss) kept a m d set apart =
      let stream = get_current_stream rt kept d in
      let t : D = (restore_from_snapshot rt s stream d).1 in
      restore_loop_spares ss stream a m t set.1 apart.1
      ∙ (restore_from_snapshot-Copied s stream d set.0.0 set.0.1).1 a m apart.0

  -- The snapshots that follow are as before, and so is what is restored from them.
  same_sources :
      (ss : Sections) (s : MemSection) (d t v : D)
      → ((a m : ℕ) → Apart s.origin_addr s.size a m → held t a m ≡ held d a m)
      → All (λ e. Off s.origin_addr s.size e.1) ss
      → All (λ e. held v e.1.origin_addr e.1.size ≡ held t e.1.snapshot_addr e.1.size) ss
      → All (λ e. held v e.1.origin_addr e.1.size ≡ held d e.1.snapshot_addr e.1.size) ss
  same_sources [] s d t v spares off h = tt
  same_sources ((k, e) ∷ ss) s d t v spares off h =
      let apart = Apart-sym e.snapshot_addr e.size s.origin_addr s.size off.0 in
      (h.0 ∙ spares e.snapshot_addr e.size apart, same_sources ss s d t v spares off.1 h.1)

  turned :
      (ss : Sections) (a n : ℕ)
      → All (λ e. Apart a n e.1.origin_addr e.1.size) ss
      → All (λ e. Apart e.1.origin_addr e.1.size a n) ss
  turned [] a n h = tt
  turned ((k, e) ∷ ss) a n h = (Apart-sym a n e.origin_addr e.size h.0, turned ss a n h.1)

  restore_loop_lem :
      (ss : Sections) (kept : ℕ) (d : D)
      → Set ss
      → Settled ss
      → AllRestored ss kept d
      → let v = (restore_loop rt ss kept d).1 in
        All (λ e. held v e.1.origin_addr e.1.size ≡ held d e.1.snapshot_addr e.1.size) ss
  unfolding restore_loop
  restore_loop_lem [] kept d set settled works = tt
  restore_loop_lem ((k, s) ∷ ss) kept d set settled works =
      let stream = get_current_stream rt kept d in
      let t : D = (restore_from_snapshot rt s stream d).1 in
      let v : D = (restore_loop rt ss stream t).1 in
      let copied = restore_from_snapshot-Copied s stream d set.0.0 set.0.1 in
      let apart = turned ss s.origin_addr s.size settled.1 in
      (
        restore_loop_spares ss stream s.origin_addr s.size t set.1 apart ∙ copied.0 works.0,
        same_sources ss s d t v copied.1 settled.0
            (restore_loop_lem ss stream t set.1 settled.2 works.1),
      )

  -- What the sections before a backup held is what the restored ones hold.
  trace_back :
      (ss us : Sections) (d t w v : D)
      → Matched rt held in_use c d t ss us
      → All (λ e. held w e.1.snapshot_addr e.1.size ≡ held t e.1.snapshot_addr e.1.size) us
      → All (λ e. held v e.1.origin_addr e.1.size ≡ held w e.1.snapshot_addr e.1.size) us
      → All (λ e. held v e.1.origin_addr e.1.size ≡ held d e.1.origin_addr e.1.size) ss
  trace_back [] [] d t w v matched same back = tt
  trace_back [] (u ∷ us) d t w v matched same back = elim matched [ ]
  trace_back (e ∷ ss) [] d t w v matched same back = elim matched [ ]
  trace_back ((k, e) ∷ ss) ((j, u) ∷ us) d t w v matched same back =
      let here : held v u.origin_addr u.size ≡ held d e.origin_addr e.size =
        back.0 ∙ same.0 ∙ matched.4 in
      (
        subst (λ n. held v e.origin_addr n ≡ held d e.origin_addr e.size) matched.1
            (subst (λ x. held v x u.size ≡ held d e.origin_addr e.size) matched.0 here),
        trace_back ss us d t w v matched.5 same.1 back.1,
      )

  Matched-Set : (ss us : Sections) (d t : D) → Matched rt held in_use c d t ss us → Set us
  Matched-Set [] [] d t matched = tt
  Matched-Set [] (u ∷ us) d t matched = elim matched [ ]
  Matched-Set (e ∷ ss) [] d t matched = elim matched [ ]
  Matched-Set ((k, e) ∷ ss) ((j, u) ∷ us) d t matched =
      ((λ null. matched.2 (sym matched.0 ∙ null), matched.3), Matched-Set ss us d t matched.5)

  -- Provided the device's memory behaves as documented and the blocks of the bucket's sections
  -- are in use and apart from each other, then after a Backup that succeeded, whatever happens to the
  -- memory besides the snapshots, a Restore each of whose copies succeeds gives every section's
  -- block the bytes that it held before the Backup.
  pub restore-backup :
      (b : DeviceBucket) (d w : D)
      → IsTidy rt held in_use c d b.mem_section_map
      → (backup rt b d).0 ≡ true
      → let t = (backup rt b d).2 in
        All
          (λ e. held w e.1.snapshot_addr e.1.size ≡ held t e.1.snapshot_addr e.1.size)
          (backup rt b d).1.mem_section_map
        → AllRestored (backup rt b d).1.mem_section_map (backup rt b d).1.stream w
        → let v = (restore rt (backup rt b d).1 w).2 in
          All
            (λ e. held v e.1.origin_addr e.1.size ≡ held d e.1.origin_addr e.1.size)
            b.mem_section_map
  unfolding backup restore
  restore-backup b d w tidy good same works =
      let r = backup_loop rt b.mem_section_map b.stream d in
      let backed = (backup_loop-Backed rt held in_use c b.mem_section_map b.stream d tidy).1 good in
      let set = Matched-Set b.mem_section_map r.1 d r.3 backed.0 in
      let v : D = (restore_loop rt r.1 r.2 w).1 in
      trace_back b.mem_section_map r.1 d r.3 w v backed.0 same
        (restore_loop_lem r.1 r.2 w set backed.1 works)

module _ {D : Type 0} (rt : SnapshotRuntime D) (held : D → ℕ → ℕ → List ℕ)
    (in_use : D → ℕ → ℕ → Type 0) (c : Device rt held in_use) where
  -- Provided the device's memory behaves as documented and the blocks of the bucket's sections
  -- are in use and apart from each other, Backup changes none of the sections' blocks, whether it
  -- succeeds or fails at any of its calls.
  pub backup_keeps :
      (b : DeviceBucket) (d : D)
      → IsTidy rt held in_use c d b.mem_section_map
      → let t = (backup rt b d).2 in
        All
          (λ e. held t e.1.origin_addr e.1.size ≡ held d e.1.origin_addr e.1.size)
          b.mem_section_map
  unfolding backup
  backup_keeps b d tidy = backup_loop_keeps rt held in_use c b.mem_section_map b.stream d tidy
