-- ===== src/Snapshots/Copies.antt =====
-- What csrc/runtime/inject_helpers/MemoryContext.cpp relies on in the device's memory, and the copies
-- that it makes.
use msopcom.Prelude.{
  Apart, ℕ, ◌≡◌, ◌≢◌, inl, inr, sym, subst, arith, Bool, true, false, List, nat_beq, Bool-cases,
}
use msopcom.Snapshots.{SnapshotRuntime, mem_copy_sync, mem_copy_with_stream, mem_copy}

-- `held` is what a block holds, and `in_use` says that the allocator has given it out. A new block
-- is not null and apart from those in use; a copy, which for a stream is the queued one with the
-- stream's synchronization, brings the source's bytes to the target when it succeeds, and
-- touches nothing apart from the target in any case.
pub record Device {D : Type 0} (rt : SnapshotRuntime D) (held : D → ℕ → ℕ → List ℕ)
    (in_use : D → ℕ → ℕ → Type 0) : Type 0 where
  pub malloc_fresh :
      (d : D) (n : ℕ)
      → (rt.malloc d n).0 ≡ 0
      → ((rt.malloc d n).1 ≢ 0)
        × in_use (rt.malloc d n).2 (rt.malloc d n).1 n
        × ((a m : ℕ) → in_use d a m → Apart (rt.malloc d n).1 n a m)
  pub malloc_keeps :
      (d : D) (n a m : ℕ)
      → in_use d a m
      → in_use (rt.malloc d n).2 a m × (held (rt.malloc d n).2 a m ≡ held d a m)
  pub memcpy_copies :
      (d : D) (dst src n : ℕ)
      → (rt.memcpy d dst src n).0 ≡ 0
      → held (rt.memcpy d dst src n).1 dst n ≡ held d src n
  pub memcpy_keeps :
      (d : D) (dst src n a m : ℕ)
      → let t = (rt.memcpy d dst src n).1 in
        (in_use d a m → in_use t a m) × (Apart dst n a m → held t a m ≡ held d a m)
  pub stream_copies :
      (d : D) (dst src n stream : ℕ)
      → let r = rt.memcpy_async d dst src n stream in
        r.0 ≡ 0
        → (rt.synchronize r.1 stream).0 ≡ 0
        → held (rt.synchronize r.1 stream).1 dst n ≡ held d src n
  pub async_keeps :
      (d : D) (dst src n stream a m : ℕ)
      → let t = (rt.memcpy_async d dst src n stream).1 in
        (in_use d a m → in_use t a m) × (Apart dst n a m → held t a m ≡ held d a m)
  pub stream_keeps :
      (d : D) (dst src n stream a m : ℕ)
      → let t = (rt.synchronize (rt.memcpy_async d dst src n stream).1 stream).1 in
        (in_use d a m → in_use t a m) × (Apart dst n a m → held t a m ≡ held d a m)

module _ {D : Type 0} (rt : SnapshotRuntime D) (held : D → ℕ → ℕ → List ℕ)
    (in_use : D → ℕ → ℕ → Type 0) (c : Device rt held in_use) where
  -- What a copy of `n` bytes from `src` to `dst` has done.
  abbrev pub Copied : ℕ → ℕ → ℕ → D → Bool × D → Type 0
  Copied dst src n d r =
      (r.0 ≡ true → held r.1 dst n ≡ held d src n)
      × ((a m : ℕ)
          → (in_use d a m → in_use r.1 a m) × (Apart dst n a m → held r.1 a m ≡ held d a m))

  mem_copy_sync-Copied : (dst src n : ℕ) (d : D) → Copied dst src n d (mem_copy_sync rt dst src n d)
  unfolding mem_copy_sync
  mem_copy_sync-Copied dst src n d = (
    λ good. c.memcpy_copies d dst src n (ground (arith, good)),
    λ a m. c.memcpy_keeps d dst src n a m,
  )

  mem_copy_with_stream-Copied :
      (dst src n stream : ℕ) (d : D)
      → Copied dst src n d (mem_copy_with_stream rt dst src n stream d)
  unfolding mem_copy_with_stream
  mem_copy_with_stream-Copied dst src n stream d =
      let r : ℕ × D = rt.memcpy_async d dst src n stream in
      let e : ℕ × D = rt.synchronize r.1 stream in
      elim (Bool-cases (nat_beq r.0 0)) [
        | inl queued ↦
            let equation : mem_copy_with_stream rt dst src n stream d ≡ (nat_beq e.0 0, e.1) =
              rw (mem_copy_with_stream, queued) in
            subst (Copied dst src n d) (sym equation) (
              λ good.
                  c.stream_copies d dst src n stream (ground (arith, queued))
                    (ground (arith, good)),
              λ a m. c.stream_keeps d dst src n stream a m,
            )
        | inr not_queued ↦
            let equation : mem_copy_with_stream rt dst src n stream d ≡ (false, r.1) =
              rw (mem_copy_with_stream, not_queued) in
            subst (Copied dst src n d) (sym equation)
              (λ good. absurd (ground (arith, good)), λ a m. c.async_keeps d dst src n stream a m)
      ]

  pub mem_copy-Copied :
      (dst src n stream : ℕ) (d : D) → Copied dst src n d (mem_copy rt dst src n stream d)
  unfolding mem_copy
  mem_copy-Copied dst src n stream d = elim (Bool-cases (nat_beq stream 0)) [
    | inl no_stream ↦
        let equation : mem_copy rt dst src n stream d ≡ mem_copy_sync rt dst src n d =
          rw (mem_copy, no_stream) in
        subst (Copied dst src n d) (sym equation) (mem_copy_sync-Copied dst src n d)
    | inr some_stream ↦
        let equation : mem_copy rt dst src n stream d ≡ mem_copy_with_stream rt dst src n stream d =
          rw (mem_copy, some_stream) in
        subst (Copied dst src n d) (sym equation) (mem_copy_with_stream-Copied dst src n stream d)
  ]
