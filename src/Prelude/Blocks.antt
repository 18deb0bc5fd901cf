-- ===== src/Prelude/Blocks.antt =====
-- Blocks of memory that do not overlap.
use Prim.Native.Nat.{ℕ, ◌+◌, ◌≤◌}
use mathlib.Core.Logic.{◌⊎◌, inl, inr}

-- Two blocks, each an address with a size, that do not overlap.
abbrev pub Apart : ℕ → ℕ → ℕ → ℕ → Type 0
Apart a n b m = (a + n ≤ b) ⊎ (b + m ≤ a)

pub Apart-sym : (a n b m : ℕ) → Apart a n b m → Apart b m a n
Apart-sym a n b m (inl before) = inr before
Apart-sym a n b m (inr behind) = inl behind
