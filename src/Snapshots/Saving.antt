-- ===== src/Snapshots/Saving.antt =====
-- Backup of csrc/runtime/inject_helpers/MemoryContext.cpp: what one snapshot changes, and what all of
-- them hold in the end.
use msopcom.Prelude.{
  Apart, ℕ, ◌≡◌, ◌≢◌, ◌⊎◌, inl, inr, refl, sym, subst, ◌∙◌, arith, Bool, true, false, List, nat_beq,
  Bool-cases,
}
use msopcom.Snapshots.{MemSection, SnapshotRuntime, mem_copy, create_snapshot}
use msopcom.Snapshots.Copies.{Device, mem_copy-Copied}

abbrev pub Sections : Type 0
Sections = List (ℕ × MemSection)

-- A section's snapshot, if it has one, is apart from a block; its snapshot is apart from it.
abbrev pub Clear : ℕ → ℕ → MemSection → Type 0
Clear a m s = (s.snapshot_addr ≡ 0) ⊎ Apart s.snapshot_addr s.size a m

abbrev pub Off : ℕ → ℕ → MemSection → Type 0
Off a m s = Apart s.snapshot_addr s.size a m

module _ {D : Type 0} (rt : SnapshotRuntime D) (held : D → ℕ → ℕ → List ℕ)
    (in_use : D → ℕ → ℕ → Type 0) (c : Device rt held in_use) where
  -- A section's own blocks are in use, and its snapshot is apart from its origin.
  abbrev pub IsOwn : D → MemSection → Type 0
  IsOwn d s =
      in_use d s.origin_addr s.size
      × Clear s.origin_addr s.size s
      × ((s.snapshot_addr ≡ 0) ⊎ in_use d s.snapshot_addr s.size)

  -- What one snapshot does to any block in use that is clear of the section.
  abbrev pub Spares : MemSection → D → Bool × MemSection × D → Type 0
  Spares s d r =
      (a m : ℕ)
      → in_use d a m
      → Clear a m s
      → in_use r.2 a m × (held r.2 a m ≡ held d a m) × (r.0 ≡ true → Off a m r.1)

  -- What a snapshot that succeeded holds.
  abbrev pub Holds : MemSection → D → Bool × MemSection × D → Type 0
  Holds s d r =
      (r.1.origin_addr ≡ s.origin_addr)
      × (r.1.size ≡ s.size)
      × (s.origin_addr ≢ 0)
      × (r.1.snapshot_addr ≢ 0)
      × in_use r.2 r.1.snapshot_addr r.1.size
      × (held r.2 r.1.snapshot_addr r.1.size ≡ held d s.origin_addr s.size)

  abbrev pub Made : MemSection → D → Bool × MemSection × D → Type 0
  Made s d r = Spares s d r × (r.0 ≡ true → Holds s d r)

  create_fresh :
      (s : MemSection) (stream : ℕ) (d : D)
      → IsOwn d s
      → s.origin_addr ≢ 0
      → (rt.malloc d s.size).0 ≡ 0
      → let made = rt.malloc d s.size in
        let r = mem_copy rt made.1 s.origin_addr s.size stream made.2 in
        Made s d (r.0, record s { snapshot_addr = made.1 }, r.1)
  create_fresh s stream d own set code =
      let made : ℕ × ℕ × D = rt.malloc d s.size in
      let r : Bool × D = mem_copy rt made.1 s.origin_addr s.size stream made.2 in
      let new = c.malloc_fresh d s.size code in
      let copied = mem_copy-Copied rt held in_use c made.1 s.origin_addr s.size stream made.2 in
      (
        λ a m used clear.
            let kept = c.malloc_keeps d s.size a m used in
            let spared = copied.1 a m in
            let apart = new.2 a m used in (spared.0 kept.0, spared.1 apart ∙ kept.1, λ good. apart),
        λ good. (
          refl,
          refl,
          set,
          new.0,
          (copied.1 made.1 s.size).0 new.1,
          copied.0 good ∙ (c.malloc_keeps d s.size s.origin_addr s.size own.0).1,
        ),
      )

  create_again :
      (s : MemSection) (stream : ℕ) (d : D)
      → IsOwn d s
      → s.origin_addr ≢ 0
      → s.snapshot_addr ≢ 0
      → let r = mem_copy rt s.snapshot_addr s.origin_addr s.size stream d in Made s d (r.0, s, r.1)
  create_again s stream d own set has =
      let copied = mem_copy-Copied rt held in_use c s.snapshot_addr s.origin_addr s.size stream d in
      let used : in_use d s.snapshot_addr s.size = elim own.2 [
        | inl missing ↦ absurd (has missing)
        | inr used ↦ used
      ] in
      (
        λ a m here clear.
            let apart : Apart s.snapshot_addr s.size a m = elim clear [
              | inl missing ↦ absurd (has missing)
              | inr apart ↦ apart
            ] in
            let spared = copied.1 a m in (spared.0 here, spared.1 apart, λ good. apart),
        λ good. (refl, refl, set, has, (copied.1 s.snapshot_addr s.size).0 used, copied.0 good),
      )

  pub create_snapshot-Made :
      (s : MemSection) (stream : ℕ) (d : D) → IsOwn d s → Made s d (create_snapshot rt s stream d)
  unfolding create_snapshot
  create_snapshot-Made s stream d own =
      let made : ℕ × ℕ × D = rt.malloc d s.size in
      let fresh : MemSection = record s { snapshot_addr = made.1 } in
      let copied : Bool × D = mem_copy rt made.1 s.origin_addr s.size stream made.2 in
      let again : Bool × D = mem_copy rt s.snapshot_addr s.origin_addr s.size stream d in
      elim (Bool-cases (nat_beq s.origin_addr 0)) [
        | inl null ↦
            let equation : create_snapshot rt s stream d ≡ (false, s, d) =
              simp (create_snapshot, null) in
            subst (Made s d) (sym equation) (
              λ a m used clear. (used, refl, λ good. absurd (ground (arith, good))),
              λ good. absurd (ground (arith, good)),
            )
        | inr set ↦
            let origin : s.origin_addr ≢ 0 = ground (arith, set) in
            elim (Bool-cases (nat_beq s.snapshot_addr 0)) [
              | inl missing ↦ elim (Bool-cases (nat_beq made.0 0)) [
                | inl got ↦
                    let equation : create_snapshot rt s stream d ≡ (copied.0, fresh, copied.1) =
                      simp (create_snapshot, set, missing, got) in
                    subst (Made s d) (sym equation)
                      (create_fresh s stream d own origin (ground (arith, got)))
                | inr refused ↦
                    let equation : create_snapshot rt s stream d ≡ (false, fresh, made.2) =
                      simp (create_snapshot, set, missing, refused) in
                    subst (Made s d) (sym equation) (
                      λ a m used clear.
                          let kept = c.malloc_keeps d s.size a m used in
                          (kept.0, kept.1, λ good. absurd (ground (arith, good))),
                      λ good. absurd (ground (arith, good)),
                    )
              ]
              | inr has ↦
                  let equation : create_snapshot rt s stream d ≡ (again.0, s, again.1) =
                    simp (create_snapshot, set, has) in
                  subst (Made s d) (sym equation)
                    (create_again s stream d own origin (ground (arith, has)))
            ]
      ]
