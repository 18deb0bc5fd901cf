-- ===== src/Snapshots/Backups.antt =====
-- The loop of Backup of csrc/runtime/inject_helpers/MemoryContext.cpp over the sections of a device.
use msopcom.Prelude.{
  Apart, Apart-sym, ℕ, ◌≡◌, ◌≢◌, ◌⊎◌, inl, inr, refl, sym, subst, ◌∙◌, arith, Bool, true, false,
  List, [], ◌∷◌, All, Bool-cases,
}
use msopcom.Snapshots.{
  MemSection, SnapshotRuntime, get_current_stream, create_snapshot, backup_loop,
}
use msopcom.Snapshots.Copies.{Device}
use msopcom.Snapshots.Saving.{Sections, Clear, Off, IsOwn, Spares, Made, create_snapshot-Made}

-- Two sections: the origins are apart, and the snapshots that exist are apart from the other's blocks.
abbrev pub Pair : MemSection → MemSection → Type 0
Pair s t =
    Clear t.origin_addr t.size s
    × Clear s.origin_addr s.size t
    × ((t.snapshot_addr ≡ 0) ⊎ Clear t.snapshot_addr t.size s)
    × Apart s.origin_addr s.size t.origin_addr t.size

-- What a restoration relies on: a section's origin is apart from the snapshots and the origins of
-- those after it.
abbrev pub Settled : Sections → Type 0
Settled [] = Unit
Settled ((k, s) ∷ ss) =
    All (λ e. Off s.origin_addr s.size e.1) ss
    × All (λ e. Apart s.origin_addr s.size e.1.origin_addr e.1.size) ss
    × Settled ss

All-map {ℓ κ μ} :
    {A : Type ℓ} (P : A → Type κ) (Q : A → Type μ) (xs : List A)
    → ((a : A) → P a → Q a)
    → All P xs
    → All Q xs
All-map P Q [] f h = tt
All-map P Q (x ∷ xs) f h = (f x h.0, All-map P Q xs f h.1)

module _ {D : Type 0} (rt : SnapshotRuntime D) (held : D → ℕ → ℕ → List ℕ)
    (in_use : D → ℕ → ℕ → Type 0) (c : Device rt held in_use) where
  -- Each section has its own blocks, and they are apart from the others'.
  abbrev pub IsTidy : D → Sections → Type 0
  IsTidy d [] = Unit
  IsTidy d ((k, s) ∷ ss) = IsOwn rt held in_use c d s × All (λ e. Pair s e.1) ss × IsTidy d ss

  -- The sections after a backup, against those before it and what they held.
  abbrev pub Matched : D → D → Sections → Sections → Type 0
  Matched d t [] [] = Unit
  Matched d t [] (f ∷ fs) = ⊥
  Matched d t (e ∷ es) [] = ⊥
  Matched d t ((k, s) ∷ es) ((j, u) ∷ fs) =
      (u.origin_addr ≡ s.origin_addr)
      × (u.size ≡ s.size)
      × (s.origin_addr ≢ 0)
      × (u.snapshot_addr ≢ 0)
      × (held t u.snapshot_addr u.size ≡ held d s.origin_addr s.size)
      × Matched d t es fs

  abbrev Backed : Sections → D → Bool × Sections × ℕ × D → Type 0
  Backed ss d r =
      ((a m : ℕ)
        → in_use d a m
        → All (λ e. Clear a m e.1) ss
        → (held r.3 a m ≡ held d a m) × (r.0 ≡ true → All (λ e. Off a m e.1) r.1))
      × (r.0 ≡ true → Matched d r.3 ss r.1 × Settled r.1)

  IsOwn-step :
      (s t : MemSection) (d : D) (r : Bool × MemSection × D)
      → Spares rt held in_use c s d r
      → Pair s t
      → IsOwn rt held in_use c d t
      → IsOwn rt held in_use c r.2 t
  IsOwn-step s t d r spares pair own = (
    (spares t.origin_addr t.size own.0 pair.0).0,
    own.1,
    elim own.2 [
      | inl missing ↦ inl missing
      | inr used ↦ elim pair.2 [
        | inl missing ↦ inl missing
        | inr clear ↦ inr (spares t.snapshot_addr t.size used clear).0
      ]
    ],
  )

  IsTidy-step :
      (s : MemSection) (ss : Sections) (d : D) (r : Bool × MemSection × D)
      → Spares rt held in_use c s d r
      → All (λ e. Pair s e.1) ss
      → IsTidy d ss
      → IsTidy r.2 ss
  IsTidy-step s [] d r spares pairs tidy = tt
  IsTidy-step s ((k, t) ∷ ss) d r spares pairs tidy =
      (IsOwn-step s t d r spares pairs.0 tidy.0, tidy.1, IsTidy-step s ss d r spares pairs.1 tidy.2)

  -- The new snapshot is apart from the origins and the snapshots of the sections that follow.
  new_snapshot :
      (s : MemSection) (ss : Sections) (d : D) (r : Bool × MemSection × D)
      → r.0 ≡ true
      → Spares rt held in_use c s d r
      → All (λ e. Pair s e.1) ss
      → IsTidy d ss
      → All (λ e. Clear r.1.snapshot_addr r.1.size e.1) ss
  new_snapshot s [] d r good spares pairs tidy = tt
  new_snapshot s ((k, t) ∷ ss) d r good spares pairs tidy =
      let here : Clear r.1.snapshot_addr r.1.size t = elim tidy.0.2 [
        | inl missing ↦ inl missing
        | inr used ↦ elim pairs.0.2 [
          | inl missing ↦ inl missing
          | inr clear ↦ inr (
              Apart-sym r.1.snapshot_addr r.1.size t.snapshot_addr t.size
                ((spares t.snapshot_addr t.size used clear).2 good))
        ]
      ] in
      (here, new_snapshot s ss d r good spares pairs.1 tidy.2)

  -- The origins that follow are as before.
  Matched-step :
      (s : MemSection) (ss us : Sections) (d t : D) (r : Bool × MemSection × D)
      → Spares rt held in_use c s d r
      → All (λ e. Pair s e.1) ss
      → IsTidy d ss
      → Matched r.2 t ss us
      → Matched d t ss us
  Matched-step s [] [] d t r spares pairs tidy matched = tt
  Matched-step s [] (u ∷ us) d t r spares pairs tidy matched = elim matched [ ]
  Matched-step s (e ∷ ss) [] d t r spares pairs tidy matched = elim matched [ ]
  Matched-step s ((k, e) ∷ ss) ((j, u) ∷ us) d t r spares pairs tidy matched =
      let same = (spares e.origin_addr e.size tidy.0.0 pairs.0.0).1 in
      (
        matched.0,
        matched.1,
        matched.2,
        matched.3,
        matched.4 ∙ same,
        Matched-step s ss us d t r spares pairs.1 tidy.2 matched.5,
      )

  -- A property of a block that all origins have is one of the origins after the backup.
  All-Matched :
      (P : ℕ → ℕ → Type 0) (ss us : Sections) (d t : D)
      → Matched d t ss us
      → All (λ e. P e.1.origin_addr e.1.size) ss
      → All (λ e. P e.1.origin_addr e.1.size) us
  All-Matched P [] [] d t matched h = tt
  All-Matched P [] (u ∷ us) d t matched h = elim matched [ ]
  All-Matched P (e ∷ ss) [] d t matched h = elim matched [ ]
  All-Matched P ((k, e) ∷ ss) ((j, u) ∷ us) d t matched h = (
    subst (λ x. P x u.size) (sym matched.0) (subst (P e.origin_addr) (sym matched.1) h.0),
    All-Matched P ss us d t matched.5 h.1,
  )

  Backed-step :
      (k : ℕ) (s : MemSection) (ss : Sections) (d : D) (r : Bool × MemSection × D)
      (rest : Bool × Sections × ℕ × D)
      → r.0 ≡ true
      → Made rt held in_use c s d r
      → IsTidy d ((k, s) ∷ ss)
      → Backed ss r.2 rest
      → Backed ((k, s) ∷ ss) d (rest.0, (k, r.1) ∷ rest.1, rest.2, rest.3)
  Backed-step k s ss d r rest ok made tidy backed =
      let h = made.1 ok in
      let origin_clear : All (λ e. Clear s.origin_addr s.size e.1) ss =
        All-map (λ e. Pair s e.1) (λ e. Clear s.origin_addr s.size e.1) ss (λ e p. p.1) tidy.1 in
      let origins_apart : All (λ e. Apart s.origin_addr s.size e.1.origin_addr e.1.size) ss =
        All-map (λ e. Pair s e.1) (λ e. Apart s.origin_addr s.size e.1.origin_addr e.1.size) ss
          (λ e p. p.3) tidy.1 in
      let own_kept = made.0 s.origin_addr s.size tidy.0.0 tidy.0.1 in
      let snapshot_kept =
        backed.0 r.1.snapshot_addr r.1.size h.4 (new_snapshot s ss d r ok made.0 tidy.1 tidy.2) in
      (
        λ a m used clear.
            let one = made.0 a m used clear.0 in
            let more = backed.0 a m one.0 clear.1 in
            (more.0 ∙ one.1, λ good. (one.2 ok, more.1 good)),
        λ good.
            let later = backed.1 good in
            let matched : Matched d rest.3 ss rest.1 =
              Matched-step s ss rest.1 d rest.3 r made.0 tidy.1 tidy.2 later.0 in
            let off : All (λ e. Off s.origin_addr s.size e.1) rest.1 =
              (backed.0 s.origin_addr s.size own_kept.0 origin_clear).1 good in
            let apart : All (λ e. Apart s.origin_addr s.size e.1.origin_addr e.1.size) rest.1 =
              All-Matched (λ a m. Apart s.origin_addr s.size a m) ss rest.1 d rest.3 matched
                origins_apart in
            (
              (h.0, h.1, h.2, h.3, snapshot_kept.0 ∙ h.5, matched),
              (
                subst (λ x. All (λ e. Off x r.1.size e.1) rest.1) (sym h.0)
                    (subst (λ n. All (λ e. Off s.origin_addr n e.1) rest.1) (sym h.1) off),
                subst (λ x. All (λ e. Apart x r.1.size e.1.origin_addr e.1.size) rest.1) (sym h.0)
                    (subst (λ n. All (λ e. Apart s.origin_addr n e.1.origin_addr e.1.size) rest.1)
                      (sym h.1) apart),
                later.1,
              ),
            ),
      )

  pub backup_loop-Backed :
      (ss : Sections) (kept : ℕ) (d : D) → IsTidy d ss → Backed ss d (backup_loop rt ss kept d)
  unfolding backup_loop
  backup_loop-Backed [] kept d tidy = (λ a m used clear. (refl, λ good. tt), λ good. (tt, tt))
  backup_loop-Backed ((k, s) ∷ ss) kept d tidy =
      let stream = get_current_stream rt kept d in
      let r : Bool × MemSection × D = create_snapshot rt s stream d in
      let rest : Bool × Sections × ℕ × D = backup_loop rt ss stream r.2 in
      let made = create_snapshot-Made rt held in_use c s stream d tidy.0 in
      elim (Bool-cases r.0) [
        | inl ok ↦
            let equation : backup_loop rt ((k, s) ∷ ss) kept d
                ≡ (rest.0, (k, r.1) ∷ rest.1, rest.2, rest.3) =
              rw (backup_loop, ok) in
            subst (Backed ((k, s) ∷ ss) d) (sym equation) (
              Backed-step k s ss d r rest ok made tidy
                (backup_loop-Backed ss stream r.2 (IsTidy-step s ss d r made.0 tidy.1 tidy.2)))
        | inr failed ↦
            let equation : backup_loop rt ((k, s) ∷ ss) kept d
                ≡ (false, (k, r.1) ∷ ss, stream, r.2) =
              rw (backup_loop, failed) in
            subst (Backed ((k, s) ∷ ss) d) (sym equation) (
              λ a m used clear.
                  ((made.0 a m used clear.0).1, λ good. absurd (ground (arith, good))),
              λ good. absurd (ground (arith, good)),
            )
      ]

  same_origins :
      (s : MemSection) (ss : Sections) (d v : D) (r : Bool × MemSection × D)
      → Spares rt held in_use c s d r
      → All (λ e. Pair s e.1) ss
      → IsTidy d ss
      → All (λ e. held v e.1.origin_addr e.1.size ≡ held r.2 e.1.origin_addr e.1.size) ss
      → All (λ e. held v e.1.origin_addr e.1.size ≡ held d e.1.origin_addr e.1.size) ss
  same_origins s [] d v r spares pairs tidy h = tt
  same_origins s ((k, t) ∷ ss) d v r spares pairs tidy h = (
    h.0 ∙ (spares t.origin_addr t.size tidy.0.0 pairs.0.0).1,
    same_origins s ss d v r spares pairs.1 tidy.2 h.1,
  )

  pub backup_loop_keeps :
      (ss : Sections) (kept : ℕ) (d : D)
      → IsTidy d ss
      → let v = (backup_loop rt ss kept d).3 in
        All (λ e. held v e.1.origin_addr e.1.size ≡ held d e.1.origin_addr e.1.size) ss
  unfolding backup_loop
  backup_loop_keeps [] kept d tidy = tt
  backup_loop_keeps ((k, s) ∷ ss) kept d tidy =
      let stream = get_current_stream rt kept d in
      let r : Bool × MemSection × D = create_snapshot rt s stream d in
      let rest : Bool × Sections × ℕ × D = backup_loop rt ss stream r.2 in
      let made = create_snapshot-Made rt held in_use c s stream d tidy.0 in
      let later = IsTidy-step s ss d r made.0 tidy.1 tidy.2 in
      let one = made.0 s.origin_addr s.size tidy.0.0 tidy.0.1 in
      let clear : All (λ e. Clear s.origin_addr s.size e.1) ss =
        All-map (λ e. Pair s e.1) (λ e. Clear s.origin_addr s.size e.1) ss (λ e p. p.1) tidy.1 in
      let Kept = λ (v : D).
        All
          (λ (e : ℕ × MemSection).
            held v e.1.origin_addr e.1.size ≡ held d e.1.origin_addr e.1.size)
          ((k, s) ∷ ss) in
      elim (Bool-cases r.0) [
        | inl ok ↦
            let equation : (backup_loop rt ((k, s) ∷ ss) kept d).3 ≡ rest.3 =
              rw (backup_loop, ok) in
            subst Kept (sym equation) (
              ((backup_loop-Backed ss stream r.2 later).0 s.origin_addr s.size one.0 clear).0
                  ∙ one.1,
              same_origins s ss d rest.3 r made.0 tidy.1 tidy.2
                  (backup_loop_keeps ss stream r.2 later),
            )
        | inr failed ↦
            let equation : (backup_loop rt ((k, s) ∷ ss) kept d).3 ≡ r.2 =
              rw (backup_loop, failed) in
            subst Kept (sym equation)
              (one.1, same_origins s ss d r.2 r made.0 tidy.1 tidy.2 (all_same ss r.2))
      ]
    where
      all_same :
          (ss : Sections) (v : D)
          → All (λ e. held v e.1.origin_addr e.1.size ≡ held v e.1.origin_addr e.1.size) ss
      all_same [] v = tt
      all_same (e ∷ ss) v = (refl, all_same ss v)
