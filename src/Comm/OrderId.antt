-- ===== src/Comm/OrderId.antt =====
-- `LocalProcess::ReserveOrderId` of csrc/core/LocalProcess.cpp under any interleaving of threads.
-- A thread loads the shared counter, and then tries `compare_exchange_weak` until it succeeds or
-- the counter is exhausted. A schedule names, for each action, the thread that acts and whether
-- its exchange fails spuriously, as a weak one may.
use msopcom.Prelude.{
  ℕ, zero, suc, ◌<◌, ◌≡◌, refl, Bool, not, ◌&&◌, ◌||◌, List, [], ◌∷◌, arith, nat_beq, if◌then◌else◌,
}

-- Where a thread is in the call: not in it, or holding the value that it last read.
pub data Phase : Type 0 where
  idle : Phase
  loaded : ℕ → Phase

-- `nextOrderId`, the threads, the ids returned (the last first), and how many calls returned 0.
pub record Shared : Type 0 where
  pub next : ℕ
  pub phase : ℕ → Phase
  pub taken : List ℕ
  pub refused : ℕ

unfoldable pub set_phase : (ℕ → Phase) → ℕ → Phase → ℕ → Phase
set_phase f i p j = if nat_beq i j then p else f j

-- The action of thread `i`, by its phase.
pub act : Shared → ℕ → Bool → Phase → Shared
act s i spurious idle = record s { phase = set_phase s.phase i (loaded s.next) }
act s i spurious (loaded v) =
    if nat_beq v 0 || nat_beq v 18446744073709551615
    then record s { phase = set_phase s.phase i idle; refused = suc s.refused }
    else if nat_beq s.next v && not spurious
    then record s { next = suc v; phase = set_phase s.phase i idle; taken = v ∷ s.taken }
    else record s { phase = set_phase s.phase i (loaded s.next) }

unfoldable pub run : Shared → List (ℕ × Bool) → Shared
unfolding act
run s [] = s
run s ((i, spurious) ∷ rest) = run (act s i spurious (s.phase i)) rest

-- The counter's first value, with no thread in the call.
abbrev pub initial : Shared
initial = record { next = 1; phase = λ i. idle; taken = []; refused = 0 }

-- The numbers from `n - 1` down to 1.
abbrev pub down_from : ℕ → List ℕ
down_from zero = []
down_from (suc zero) = []
down_from (suc (suc n)) = suc n ∷ down_from (suc n)

pub record IsOrdered (s : Shared) : Type 0 where
  pub started : 0 < s.next
  pub in_range : s.next < 18446744073709551616
  pub taken_lem : s.taken ≡ down_from s.next

down_from-suc : (v : ℕ) → 0 < v → down_from (suc v) ≡ v ∷ down_from v
down_from-suc zero h = elim h [ ]
down_from-suc (suc n) h = refl

act-IsOrdered :
    (s : Shared) (i : ℕ) (spurious : Bool) (p : Phase)
    → IsOrdered s
    → IsOrdered (act s i spurious p)
unfolding act
act-IsOrdered s i spurious idle o = record {
  started = o.started;
  in_range = o.in_range;
  taken_lem = o.taken_lem;
}
act-IsOrdered s i spurious (loaded v) o = ground (arith, down_from-suc v)

run-IsOrdered : (s : Shared) (schedule : List (ℕ × Bool)) → IsOrdered s → IsOrdered (run s schedule)
unfolding run
run-IsOrdered s [] o = o
run-IsOrdered s ((i, spurious) ∷ rest) o =
    run-IsOrdered (act s i spurious (s.phase i)) rest (act-IsOrdered s i spurious (s.phase i) o)

-- Whatever the threads and their interleaving, the ids that have been returned are exactly 1, 2,
-- 3, … up to one below the counter, each once and in that order; the counter stays a `uint64_t`.
pub run-initial-IsOrdered : (schedule : List (ℕ × Bool)) → IsOrdered (run initial schedule)
run-initial-IsOrdered schedule =
    run-IsOrdered initial schedule
      (record { started = omega arith; in_range = omega arith; taken_lem = refl })
