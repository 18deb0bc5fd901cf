-- ===== src/Comm/Socket/Transfer.antt =====
-- The write loops of csrc/core/DomainSocket.cpp: what the peer has received when they return.
use msopcom.Prelude.{
  Option, if◌then◌else◌, take-length, ℕ, zero, suc, ◌+◌, ◌≤◌, ◌<◌, ◌≡◌, refl, sym, ap, ◌∙◌, inl,
  inr, ◌⊎◌, Bool, true, false, [], ◌∷◌, ◌++◌, some, append-nil, append_assoc, arith, length,
  length-drop, take, drop, take-take-drop,
}
use msopcom.Wire.{Bytes}
use msopcom.Comm.{Ret, failed, done}
use msopcom.Comm.Socket.{
  ServerSocket, client_fd, socket_server_write, int32_of, socket_client_write, write_loop,
}

-- What write(2) promises on a blocking stream: it takes a non-empty head of the buffer, at most
-- 2 ^ 31 - 4096 bytes of it, or fails and takes nothing.
pub record Writes {W : Type 0} (received : W → Bytes) (write : W → Bytes → W × Ret) : Type 0 where
  pub taken :
      (w : W) (b : Bytes) (n : ℕ) → (write w b).1 ≡ done n → (n ≤ length b) × (n ≤ 2147479552)
  pub progress : (w : W) (b : Bytes) (n : ℕ) → (write w b).1 ≡ done n → 0 < length b → 0 < n
  pub delivered :
      (w : W) (b : Bytes) (n : ℕ)
      → (write w b).1 ≡ done n
      → received (write w b).0 ≡ received w ++ take n b
  pub refused : (w : W) (b : Bytes) → (write w b).1 ≡ failed → received (write w b).0 ≡ received w

Ret-cases : (r : Ret) → (r ≡ failed) ⊎ ((n : ℕ) × (r ≡ done n))
Ret-cases failed = inl refl
Ret-cases (done n) = inr (n, refl)

module _ {W : Type 0} (received : W → Bytes) (write : W → Bytes → W × Ret)
    (c : Writes received write) where
  -- A result that tells the truth: what the peer got is the head of the buffer of that length,
  -- and the whole buffer if the result is `true`.
  pub record Sent (w : W) (b : Bytes) (sent : ℕ) (w' : W) (ok : Bool) (total : ℕ) : Type 0 where
    pub count : ℕ
    pub total_lem : total ≡ sent + count
    pub bounded : count ≤ length b
    pub received_lem : received w' ≡ received w ++ take count b
    pub complete : ok ≡ true → count ≡ length b

  -- One `write` that took `n` bytes, and then the rest of the loop.
  extend :
      {w : W} {b : Bytes} {sent : ℕ} (n : ℕ)
      → (write w b).1 ≡ done n
      → (w' : W) (ok : Bool) (total : ℕ) → Sent (write w b).0 (drop n b) (sent + n) w' ok total
      → Sent w b sent w' ok total
  extend {w} {b} {sent} n e w' ok total s = record {
    count = n + s.count;
    total_lem = omega (arith, s.total_lem);
    bounded = omega (arith, s.bounded, length-drop n b, (c.taken w b n e).0);
    received_lem =
        s.received_lem
        ∙ ap (λ r. r ++ take s.count (drop n b)) (c.delivered w b n e)
        ∙ append_assoc (received w) (take n b) (take s.count (drop n b))
        ∙ ap (λ t. received w ++ t) (take-take-drop n s.count b);
    complete = λ q. omega (arith, s.complete q, length-drop n b, (c.taken w b n e).0);
  }

  pub write_loop_lem :
      (fuel : ℕ) (w : W) (b : Bytes) (sent : ℕ)
      → length b < fuel
      → (w' : W) × (ok : Bool) × (total : ℕ) × (write_loop write fuel w b sent
          ≡ some (w', ok, total))
        × Sent w b sent w' ok total
  unfolding write_loop
  write_loop_lem zero w b sent h = elim h [ ]
  write_loop_lem (suc fuel) w [] sent h = (
    w,
    true,
    sent,
    refl,
    record {
      count = 0;
      total_lem = omega arith;
      bounded = omega arith;
      received_lem = sym (append-nil (received w));
      complete = λ _. refl;
    },
  )
  write_loop_lem (suc fuel) w (x ∷ b) sent h = elim (Ret-cases (write w (x ∷ b)).1) [
    | inl e ↦ (
      (write w (x ∷ b)).0,
      false,
      sent,
      rw (e, write_loop),
      record {
        count = 0;
        total_lem = omega arith;
        bounded = omega arith;
        received_lem = c.refused w (x ∷ b) e ∙ sym (append-nil (received w));
        complete = λ q. cc;
      },
    )
    | inr (n, e) ↦
        let fits : length (drop n (x ∷ b)) < fuel =
          omega (arith, c.progress w (x ∷ b) n e (omega arith), length-drop n (x ∷ b)) in
        let (w', ok, total, run, s) =
          write_loop_lem fuel (write w (x ∷ b)).0 (drop n (x ∷ b)) (sent + n) fits in
        (w', ok, total, rw (e, write_loop) run, extend n e w' ok total s)
  ]

-- The end of a `Write`: the whole message was received and its length is returned, or -1 is
-- returned and some head of the message was received.
pub data Outcome {W : Type 0} (received : W → Bytes) (w : W) (message : Bytes)
    : Option (W × Ret) → Type 0 where
  whole :
      (w' : W)
      → received w' ≡ received w ++ message
      → Outcome received w message (some (w', done (length message)))
  partial :
      (w' : W) (k : ℕ)
      → k ≤ length message
      → received w' ≡ received w ++ take k message
      → Outcome received w message (some (w', failed))

pub outcome :
    {W : Type 0} (received : W → Bytes) (write : W → Bytes → W × Ret) (c : Writes received write)
    → (w w' : W) (message : Bytes) (ok : Bool) (total : ℕ)
    → Sent received write c w message 0 w' ok total
    → Outcome received w message (some (w', if ok then done total else failed))
outcome received write c w w' message true total s =
    let all : total ≡ length message = omega (arith, s.total_lem, s.complete refl) in
    rw all (
      whole w' (
        s.received_lem
        ∙ ap (λ k. received w ++ take k message) (s.complete refl)
        ∙ ap (λ t. received w ++ t) (take-length message)))
outcome received write c w w' message false total s = partial w' s.count s.bounded s.received_lem

-- The cast to `int32_t` in the client loses nothing of what write(2) returns.
int32_of_lem : (n : ℕ) → n ≤ 2147479552 → int32_of (done n) ≡ done n
unfolding int32_of
int32_of_lem n h = ground arith

int32_of_inv :
    (r : Ret) (n : ℕ) → ((m : ℕ) → r ≡ done m → m ≤ 2147479552) → int32_of r ≡ done n → r ≡ done n
unfolding int32_of
int32_of_inv failed n h e = cc
int32_of_inv (done m) n h e = sym (int32_of_lem m (h m refl)) ∙ e

int32_of_failed :
    (r : Ret) → ((m : ℕ) → r ≡ done m → m ≤ 2147479552) → int32_of r ≡ failed → r ≡ failed
int32_of_failed failed h e = refl
int32_of_failed (done m) h e = sym (int32_of_lem m (h m refl)) ∙ e

-- The same `write` through the cast keeps its promises.
cast-Writes :
    {W : Type 0} (received : W → Bytes) (write : W → Bytes → W × Ret)
    → Writes received write
    → Writes received (λ w b. ((write w b).0, int32_of (write w b).1))
cast-Writes {W} received write c = record {
  taken = λ w b n e. c.taken w b n (back w b n e);
  progress = λ w b n e. c.progress w b n (back w b n e);
  delivered = λ w b n e. c.delivered w b n (back w b n e);
  refused = λ w b e. c.refused w b (int32_of_failed _ (λ m f. (c.taken w b m f).1) e);
}
  where
    back : (w : W) (b : Bytes) (n : ℕ) → int32_of (write w b).1 ≡ done n → (write w b).1 ≡ done n
    back w b n e = int32_of_inv _ n (λ m f. (c.taken w b m f).1) e

-- With more fuel than the message has bytes, a `Write` of a connected client returns, with the length of the message when the server's end
-- has received exactly the message behind what it had, and -1 when it has received some head of it.
pub socket_client_write-Outcome :
    {W : Type 0} (received : W → Bytes) (write : W → Bytes → W × Ret) (c : Writes received write)
    (sfd fuel : ℕ) (w : W) (message : Bytes)
    → length message < fuel
    → Outcome received w message (socket_client_write write (some sfd) fuel w message)
unfolding socket_client_write
socket_client_write-Outcome received write c sfd fuel w message h =
    let cast = cast-Writes received write c in
    let (w', ok, total, run, s) = write_loop_lem received _ cast fuel w message 0 h in
    rw (run, socket_client_write) (outcome received _ cast w w' message ok total s)

-- A `Write` of the server to a client whose id it has given returns, with the length of the message
-- when the client's end has received exactly the message behind what it had, and -1 when it has
-- received some head of it.
pub socket_server_write-Outcome :
    {W : Type 0} (received : W → Bytes) (write : ℕ → W → Bytes → W × Ret) (s : ServerSocket)
    (id cfd fuel : ℕ) (w : W) (message : Bytes)
    → Writes received (write cfd)
    → client_fd s id ≡ some cfd
    → length message < fuel
    → Outcome received w message (socket_server_write write s fuel id w message)
unfolding socket_server_write
socket_server_write-Outcome received write s id cfd fuel w message c known h =
    let (w', ok, total, run, sent) = write_loop_lem received (write cfd) c fuel w message 0 h in
    rw (known, socket_server_write, run) (outcome received (write cfd) c w w' message ok total sent)
