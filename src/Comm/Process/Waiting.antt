-- ===== src/Comm/Process/Waiting.antt =====
-- `LocalProcess::Wait` of csrc/core/LocalProcess.cpp, over a script of what its reads give.
use msopcom.Prelude.{
  append-nil, sym, replicate, All, ◌≢◌, ap₂, ℕ, zero, suc, ◌+◌, ◌≤◌, ◌<◌, ◌≡◌, refl, ap, ◌∙◌, Bool,
  true, false, List, [], ◌∷◌, ◌++◌, Option, some, append_assoc, arith, length, leb, nat_beq,
  is_empty, ◌||◌, if◌then◌else◌,
}
use msopcom.Wire.{Bytes}
use msopcom.Comm.{Ret, failed, done}
use msopcom.Comm.Process.{Process, wait_loop, wait}

-- The results that the reads of a client will give: bytes, or nothing before the socket's time-out.
-- After the last one nothing comes any more.
abbrev pub scripted : List Bytes → List Bytes × Ret × Bytes
scripted [] = ([], failed, [])
scripted ([] ∷ s) = (s, failed, [])
scripted ((b ∷ m) ∷ s) = (s, done (length (b ∷ m)), b ∷ m)

abbrev pub flatten : List Bytes → Bytes
flatten [] = []
flatten (m ∷ s) = m ++ flatten s

pub record Waited (s : List Bytes) (msg : Bytes) (r : Option (List Bytes × Bytes)) : Type 0 where
  pub left : List Bytes
  pub received : Bytes
  pub returns : r ≡ some (left, received)
  pub in_order : received ++ flatten left ≡ msg ++ flatten s

abbrev goes_on : Bytes → ℕ → Bool
goes_on msg len = is_empty msg || nat_beq len 1024

module _ (t fuel : ℕ) (msg : Bytes) (len count : ℕ) where
  loop_stops :
      (s : List Bytes)
      → goes_on msg len ≡ false
      → wait_loop scripted t (suc fuel) s msg len count ≡ some (s, msg)
  unfolding wait_loop
  loop_stops s e = rw (e, wait_loop)

  loop_receives :
      (b : ℕ) (m : Bytes) (s : List Bytes)
      → goes_on msg len ≡ true
      → wait_loop scripted t (suc fuel) ((b ∷ m) ∷ s) msg len count
        ≡ wait_loop scripted t fuel s (msg ++ b ∷ m) (length (b ∷ m)) count
  unfolding wait_loop
  loop_receives b m s e = rw (e, wait_loop)

  loop_misses :
      (s : List Bytes)
      → 0 < t
      → goes_on msg len ≡ true
      → (scripted s).1 ≡ failed
      → wait_loop scripted t (suc fuel) s msg len count ≡ (
          if leb t count
          then some ((scripted s).0, msg)
          else wait_loop scripted t fuel (scripted s).0 msg 0 (suc count))
  unfolding wait_loop
  loop_misses s p e f = rw (e, wait_loop) (rw (f, wait_loop) (ground arith))

goes_on_short :
    (msg : Bytes) (b : ℕ) (m : Bytes)
    → length (b ∷ m) ≢ 1024
    → goes_on (msg ++ b ∷ m) (length (b ∷ m)) ≡ false
goes_on_short [] b m h = ground arith
goes_on_short (x ∷ msg) b m h = ground arith

goes_on_full : (msg : Bytes) (n : ℕ) → n ≡ 1024 → goes_on msg n ≡ true
goes_on_full [] n h = refl
goes_on_full (x ∷ msg) n h = ground arith

-- Reads that give the same bytes each time.
abbrev pub always : ℕ → Bytes → Unit {0} → Unit {0} × Ret × Bytes
always b m u = (tt, done (length (b ∷ m)), b ∷ m)

waits_misses :
    (t fuel k count : ℕ) (s : List Bytes)
    → 0 < t
    → k + count ≤ t
    → wait_loop scripted t (k + fuel) (replicate k [] ++ s) [] 0 count
      ≡ wait_loop scripted t fuel s [] 0 (k + count)
waits_misses t fuel zero count s p h =
    ap₂ (λ x y. wait_loop scripted t x s [] 0 y) (omega arith) (omega arith)
waits_misses t fuel (suc k) count s p h =
    ap (λ x. wait_loop scripted t x ([] ∷ (replicate k [] ++ s)) [] 0 count) eq
    ∙ loop_misses t (k + fuel) [] 0 count ([] ∷ (replicate k [] ++ s)) p refl refl
    ∙ rw late (
        waits_misses t fuel k (suc count) s p (omega arith)
        ∙ ap (λ y. wait_loop scripted t fuel s [] 0 y) (omega arith))
  where
    eq : suc k + fuel ≡ suc (k + fuel)
    eq = omega arith

    late : leb t count ≡ false
    late = ground arith

-- A read that gives a full buffer is followed by another; the first shorter one is the last.
receives-All :
    (t fuel count len : ℕ) (msg : Bytes) (full : List Bytes) (last : Bytes) (s : List Bytes)
    → goes_on msg len ≡ true
    → All (λ m. length m ≡ 1024) full
    → 0 < length last
    → length last ≢ 1024
    → length full + 1 < fuel
    → wait_loop scripted t fuel (full ++ last ∷ s) msg len count
      ≡ some (s, (msg ++ flatten full) ++ last)
receives-All t zero count len msg full last s go a pos short h = absurd (omega arith)
receives-All t (suc zero) count len msg full last s go a pos short h = absurd (omega arith)
receives-All t (suc (suc fuel)) count len msg [] [] s go a pos short h = absurd (omega arith)
receives-All t (suc (suc fuel)) count len msg [] (b ∷ m) s go a pos short h =
    loop_receives t (suc fuel) msg len count b m s go
    ∙ loop_stops t fuel (msg ++ b ∷ m) (length (b ∷ m)) count s (goes_on_short msg b m short)
    ∙ ap (λ x. some (s, x ++ b ∷ m)) (sym (append-nil msg))
receives-All t (suc (suc fuel)) count len msg ([] ∷ full) last s go a pos short h =
    absurd (omega arith)
receives-All t (suc (suc fuel)) count len msg ((b ∷ m) ∷ full) last s go a pos short h =
    loop_receives t (suc fuel) msg len count b m (full ++ last ∷ s) go
    ∙ receives-All t (suc fuel) count (length (b ∷ m)) (msg ++ b ∷ m) full last s
        (goes_on_full (msg ++ b ∷ m) (length (b ∷ m)) a.0) a.1 pos short (omega arith)
    ∙ ap (λ x. some (s, x ++ last)) (append_assoc msg (b ∷ m) (flatten full))

-- With a client and a time-out that is not 0: if the reads give nothing at most `time_out` times, then any number of full buffers of 1024
-- bytes and then a shorter one, `Wait` returns exactly these bytes, and reads no further.
pub wait_gets :
    (p : Process) (time_out fuel k : ℕ) (full : List Bytes) (last : Bytes) (s : List Bytes)
    → p.has_client ≡ true
    → 0 < time_out
    → k ≤ time_out
    → All (λ m. length m ≡ 1024) full
    → 0 < length last
    → length last ≢ 1024
    → length full + 1 < fuel
    → wait scripted p time_out (k + fuel) (replicate k [] ++ (full ++ last ∷ s))
      ≡ some (s, flatten full ++ last)
unfolding wait
wait_gets p t fuel k full last s c pos few a more short enough = rw c (
    waits_misses t fuel k 0 (full ++ last ∷ s) pos (omega arith)
    ∙ receives-All t fuel (k + 0) 0 [] full last s refl a more short enough)
