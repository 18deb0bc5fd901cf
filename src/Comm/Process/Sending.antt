-- ===== src/Comm/Process/Sending.antt =====
-- The sending half of csrc/core/LocalProcess.cpp: what the tool has received when `SendBytes` and
-- `Notify` return, the order id of a device packet, and every refusal.
use msopcom.Prelude.{
  take-append, drop-drop, ℕ, suc, ◌^◌, ◌≤◌, ◌<◌, ◌≡◌, sym, ap, ◌∙◌, ◌⊎◌, true, false, ◌++◌, Option,
  some, arith, length, length-drop, length-take, length-append, take, drop, drop-append,
}
use msopcom.Wire.{Bytes, serialize, deserialize}
use msopcom.Wire.Laws.{length-serialize, deserialize-serialize, drop-serialize}
use msopcom.Comm.{Ret, failed, done}
use msopcom.Comm.Process.{Process, Ended, exited, returned, stamp}

-- What `SendBytes` relies on in the client's `Write`: a count is that of the bytes that the tool
-- received, a head of the buffer; a failed one may have delivered some head as well.
pub record ClientWrites {W : Type 0} (received : W → Bytes) (write : W → Bytes → W × Ret)
    : Type 0 where
  pub taken :
      (w : W) (b : Bytes) (n : ℕ)
      → (write w b).1 ≡ done n
      → (n ≤ length b) × (received (write w b).0 ≡ received w ++ take n b)
  pub refused :
      (w : W) (b : Bytes)
      → (write w b).1 ≡ failed
      → (k : ℕ) × (k ≤ length b) × (received (write w b).0 ≡ received w ++ take k b)

-- The tool received the first `reached` bytes, no fewer than `total` says.
pub record Sent {W : Type 0} (received : W → Bytes) (w : W) (msg : Bytes) (w' : W) (total : ℕ)
    : Type 0 where
  pub reached : ℕ
  pub at_least : total ≤ reached
  pub bounded : reached ≤ length msg
  pub received_lem : received w' ≡ received w ++ take reached msg

-- `stamp` changes the order id and nothing else.
pub record Stamped (id : ℕ) (msg out : Bytes) : Type 0 where
  pub id_lem : deserialize 8 (drop 8 out) ≡ some id
  pub size : length out ≡ length msg
  pub before : take 8 out ≡ take 8 msg
  pub after : drop 16 out ≡ drop 16 msg

drop_at : (xs ys : Bytes) (n : ℕ) → length xs ≡ n → drop n (xs ++ ys) ≡ ys
drop_at xs ys n e = ap (λ k. drop k (xs ++ ys)) (sym e) ∙ drop-append xs ys

take_at : (xs ys : Bytes) (n : ℕ) → length xs ≡ n → take n (xs ++ ys) ≡ xs
take_at xs ys n e = ap (λ k. take k (xs ++ ys)) (sym e) ∙ take-append xs ys

-- For a packet with a whole head and an id of 64 bits, the packet sent has the same length, the
-- id at the place of `orderId`, and every other byte as it was.
pub stamp-Stamped :
    (id : ℕ) (msg : Bytes) → 16 ≤ length msg → id < 256 ^ 8 → Stamped id msg (stamp id msg)
unfolding stamp
stamp-Stamped id msg h lt = record {
  id_lem =
      rw (drop_at (take 8 msg) (serialize 8 id ++ drop 16 msg) 8 eight)
        (deserialize-serialize 8 id (drop 16 msg) lt);
  size = omega (
    arith,
    length-append (take 8 msg) (serialize 8 id ++ drop 16 msg),
    length-append (serialize 8 id) (drop 16 msg),
    length-serialize 8 id,
    length-drop 16 msg,
    eight,
  );
  before = take_at (take 8 msg) (serialize 8 id ++ drop 16 msg) 8 eight;
  after =
      sym (drop-drop 8 8 (take 8 msg ++ (serialize 8 id ++ drop 16 msg)))
      ∙ ap (λ x. drop 8 x) (drop_at (take 8 msg) (serialize 8 id ++ drop 16 msg) 8 eight)
      ∙ drop-serialize 8 id (drop 16 msg);
}
  where
    eight : length (take 8 msg) ≡ 8
    eight = omega (arith, length-take 8 msg)

-- How `Notify` ends, with what each branch requires and what the tool has received.
pub data Notified {W : Type 0} (received : W → Bytes) (p : Process) (next : ℕ) (w : W) (msg : Bytes)
    : Option (Ended W) → Type 0 where
  plain :
      (w' : W) (total : ℕ)
      → p.is_device_connection ≡ false
      → Sent received w msg w' total
      → Notified received p next w msg (some (returned next w' (done total)))
  forked :
      p.is_device_connection ≡ true
      → (p.owner_pid ≡ p.pid → ⊥)
      → Notified received p next w msg (some exited)
  short :
      p.is_device_connection ≡ true
      → length msg < 16
      → Notified received p next w msg (some (returned next w failed))
  exhausted :
      p.is_device_connection ≡ true
      → (next ≡ 0) ⊎ (next ≡ 18446744073709551615)
      → Notified received p next w msg (some (returned next w failed))
  numbered :
      (w' : W) (total : ℕ)
      → p.is_device_connection ≡ true
      → p.owner_pid ≡ p.pid
      → 16 ≤ length msg
      → next < 18446744073709551615
      → Sent received w (stamp next msg) w' total
      → Notified received p next w msg (some (returned (suc next) w' (done total)))
