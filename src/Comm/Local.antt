-- ===== src/Comm/Local.antt =====
-- The in-memory channel (`CommType::MEMORY` of csrc/core/Communication.cpp): what each side writes
-- and gets, over a log of the four operations in any order.
use msopcom.Prelude.{
  ℕ, zero, suc, ◌≡◌, refl, sym, ap, ◌∙◌, List, [], ◌∷◌, ◌++◌, append-nil, append_assoc, nat_eq,
  list_eq,
}
use msopcom.Wire.{Bytes}
use msopcom.Comm.{
  Ret, failed, done, memory, LocalComm, clear, local_read, local_write, server_write, server_read,
  client_write, client_read,
}

-- One call by one side.
pub data Op : Type 0 where
  client_writes server_writes : Bytes → Op
  client_reads server_reads : Op

-- The channel, what each side has written, and the messages that each side has got. A read that
-- returns 0 gives its caller no message.
pub record Log (W : Type 0) : Type 0 where
  pub comm : LocalComm × W
  pub by_client : List Bytes
  pub by_server : List Bytes
  pub to_server : List Bytes
  pub to_client : List Bytes

abbrev pub got : Ret → Bytes → List Bytes
got failed msg = []
got (done zero) msg = []
got (done (suc n)) msg = msg ∷ []

-- The messages that are not empty.
abbrev pub non_empty : List Bytes → List Bytes
non_empty [] = []
non_empty ([] ∷ ms) = non_empty ms
non_empty ((b ∷ m) ∷ ms) = (b ∷ m) ∷ non_empty ms

non_empty-append : (xs ys : List Bytes) → non_empty (xs ++ ys) ≡ non_empty xs ++ non_empty ys
non_empty-append [] ys = refl
non_empty-append ([] ∷ xs) ys = non_empty-append xs ys
non_empty-append ((b ∷ m) ∷ xs) ys = ap (λ t. (b ∷ m) ∷ t) (non_empty-append xs ys)

module _ {W : Type 0} (send : W → Bytes → W × Ret) (send_to : ℕ → W → Bytes → W × Ret)
    (receive : W → Bytes → W × Bytes × Ret) (receive_from : ℕ → W → Bytes → W × Bytes × Ret) where
  pub step : Log W → Op → Log W
  step l (client_writes m) = record l {
    comm = (client_write send memory l.comm m).0;
    by_client = l.by_client ++ m ∷ [];
  }
  step l (server_writes m) = record l {
    comm = (server_write send_to memory 0 l.comm m).0;
    by_server = l.by_server ++ m ∷ [];
  }
  step l server_reads =
      let r = server_read receive_from memory 0 l.comm [] in
      record l { comm = r.0; to_server = l.to_server ++ got r.2 r.1 }
  step l client_reads =
      let r = client_read receive memory l.comm [] in
      record l { comm = r.0; to_client = l.to_client ++ got r.2 r.1 }

  unfoldable pub run : Log W → List Op → Log W
  run l [] = l
  run l (o ∷ os) = run (step l o) os

  -- What was written is what was got, and then what still waits.
  pub record Delivers (l : Log W) : Type 0 where
    pub to_server_lem : non_empty l.by_client ≡ l.to_server ++ non_empty l.comm.0.c2s
    pub to_client_lem : non_empty l.by_server ≡ l.to_client ++ non_empty l.comm.0.s2c

  write_lem :
      (ws q gs : List Bytes) (m : Bytes)
      → non_empty ws ≡ gs ++ non_empty q
      → non_empty (ws ++ m ∷ []) ≡ gs ++ non_empty (q ++ m ∷ [])
  write_lem ws q gs m h =
      non_empty-append ws (m ∷ [])
      ∙ ap (λ t. t ++ non_empty (m ∷ [])) h
      ∙ append_assoc gs (non_empty q) (non_empty (m ∷ []))
      ∙ ap (λ t. gs ++ t) (sym (non_empty-append q (m ∷ [])))

  server_read_lem :
      (ws s2c c2s gs : List Bytes) (w : W)
      → non_empty ws ≡ gs ++ non_empty c2s
      → let r = server_read receive_from memory 0 (record { s2c = s2c; c2s = c2s }, w) [] in
        (non_empty ws ≡ (gs ++ got r.2 r.1) ++ non_empty r.0.0.c2s) × (r.0.0.s2c ≡ s2c)
  unfolding server_read local_read
  server_read_lem ws s2c [] gs w h = (h ∙ ap (λ t. t ++ []) (sym (append-nil gs)), refl)
  server_read_lem ws s2c ([] ∷ q) gs w h =
      (h ∙ ap (λ t. t ++ non_empty q) (sym (append-nil gs)), refl)
  server_read_lem ws s2c ((b ∷ m) ∷ q) gs w h =
      (h ∙ sym (append_assoc gs ((b ∷ m) ∷ []) (non_empty q)), refl)

  client_read_lem :
      (ws s2c c2s gs : List Bytes) (w : W)
      → non_empty ws ≡ gs ++ non_empty s2c
      → let r = client_read receive memory (record { s2c = s2c; c2s = c2s }, w) [] in
        (non_empty ws ≡ (gs ++ got r.2 r.1) ++ non_empty r.0.0.s2c) × (r.0.0.c2s ≡ c2s)
  unfolding client_read local_read
  client_read_lem ws [] c2s gs w h = (h ∙ ap (λ t. t ++ []) (sym (append-nil gs)), refl)
  client_read_lem ws ([] ∷ q) c2s gs w h =
      (h ∙ ap (λ t. t ++ non_empty q) (sym (append-nil gs)), refl)
  client_read_lem ws ((b ∷ m) ∷ q) c2s gs w h =
      (h ∙ sym (append_assoc gs ((b ∷ m) ∷ []) (non_empty q)), refl)

  -- Each call, by either side, keeps both directions in order.
  pub step-Delivers : (l : Log W) (o : Op) → Delivers l → Delivers (step l o)
  unfolding step client_write server_write local_write
  step-Delivers l (client_writes m) d = record {
    to_server_lem = write_lem l.by_client l.comm.0.c2s l.to_server m d.to_server_lem;
    to_client_lem = d.to_client_lem;
  }
  step-Delivers l (server_writes m) d = record {
    to_server_lem = d.to_server_lem;
    to_client_lem = write_lem l.by_server l.comm.0.s2c l.to_client m d.to_client_lem;
  }
  step-Delivers l client_reads d =
      let (got_it, other) =
        client_read_lem l.by_server l.comm.0.s2c l.comm.0.c2s l.to_client l.comm.1
          d.to_client_lem in
      record { to_server_lem = rw other d.to_server_lem; to_client_lem = got_it }
  step-Delivers l server_reads d =
      let (got_it, other) =
        server_read_lem l.by_client l.comm.0.s2c l.comm.0.c2s l.to_server l.comm.1
          d.to_server_lem in
      record { to_server_lem = got_it; to_client_lem = rw other d.to_client_lem }

  abbrev pub fresh : W → Log W
  fresh w = record {
    comm = (clear (record { s2c = []; c2s = [] }), w);
    by_client = [];
    by_server = [];
    to_server = [];
    to_client = [];
  }

  run-Delivers : (l : Log W) (os : List Op) → Delivers l → Delivers (run l os)
  unfolding run
  run-Delivers l [] d = d
  run-Delivers l (o ∷ os) d = run-Delivers (step l o) os (step-Delivers l o d)

  -- After any sequence of reads and writes by the two sides of a fresh in-memory channel, the
  -- non-empty messages that one side has written are exactly those that the other side has got,
  -- in that order, followed by those still in the queue; and so in both directions.
  pub run-fresh-Delivers : (w : W) (os : List Op) → Delivers (run (fresh w) os)
  unfolding clear
  run-fresh-Delivers w os =
      run-Delivers (fresh w) os (record { to_server_lem = refl; to_client_lem = refl })
