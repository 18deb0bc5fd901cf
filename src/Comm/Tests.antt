-- ===== src/Comm/Tests.antt =====
-- The laws of csrc/core/Communication.cpp, DomainSocket.cpp and LocalProcess.cpp at concrete runs.
use msopcom.Prelude.{
  ℕ, ◌+◌, ◌≡◌, ◌≤◌, ◌<◌, refl, sym, ap, subst, arith, Bool, true, false, List, [], ◌∷◌, ◌++◌,
  append-nil, some, length, take, replicate,
}
use msopcom.Wire.{Bytes}
use msopcom.Comm.{Ret, failed, done}
use msopcom.Comm.Local.{
  Op, client_writes, client_reads, server_reads, run, fresh, Delivers, run-fresh-Delivers,
}
use msopcom.Comm.OrderId
use msopcom.Comm.Socket.{ServerSocket, Attempt, socket_client_write, client_fd, accept_loop}
use msopcom.Comm.Socket.Transfer.{Writes, Outcome, socket_client_write-Outcome}
use msopcom.Comm.Socket.Accept.{Balanced, accept_balance, Accepted, accept_loop-Accepted}
use msopcom.Comm.Process.{Process, wait}
use msopcom.Comm.Process.Waiting.{scripted, flatten, wait_gets}

-- A peer that takes one byte at a time; the state is what it has received.
abbrev write_one : Bytes → Bytes → Bytes × Ret
write_one w [] = (w, done 0)
write_one w (x ∷ b) = (w ++ x ∷ [], done 1)

abbrev received : Bytes → Bytes
received w = w

abbrev count : Ret → ℕ
count failed = 0
count (done n) = n

abbrev is_failed : Ret → Bool
is_failed failed = true
is_failed (done n) = false

delivered_one :
    (w b : Bytes) (n : ℕ) → (write_one w b).1 ≡ done n → (write_one w b).0 ≡ w ++ take n b
delivered_one w [] n e = subst (λ k. w ≡ w ++ take k []) (ap count e) (sym (append-nil w))
delivered_one w (x ∷ b) n e = subst (λ k. w ++ x ∷ [] ≡ w ++ take k (x ∷ b)) (ap count e) refl

fits_one : (w b : Bytes) (n : ℕ) → (write_one w b).1 ≡ done n → n ≤ length b
fits_one w [] n e = omega (arith, ap count e)
fits_one w (x ∷ b) n e = omega (arith, ap count e)

small_one : (w b : Bytes) (n : ℕ) → (write_one w b).1 ≡ done n → n ≤ 2147479552
small_one w [] n e = omega (arith, ap count e)
small_one w (x ∷ b) n e = omega (arith, ap count e)

moves_one : (w b : Bytes) (n : ℕ) → (write_one w b).1 ≡ done n → 0 < length b → 0 < n
moves_one w [] n e h = omega (arith, h)
moves_one w (x ∷ b) n e h = omega (arith, ap count e)

never_fails : (w b : Bytes) → is_failed (write_one w b).1 ≡ false
never_fails w [] = refl
never_fails w (x ∷ b) = refl

no_failure : (w b : Bytes) → (write_one w b).1 ≡ failed → ⊥
no_failure w b e = ground (arith, never_fails w b, ap is_failed e)

write_one-Writes : Writes received write_one
write_one-Writes = record {
  taken = λ w b n e. (fits_one w b n e, small_one w b n e);
  progress = moves_one;
  delivered = delivered_one;
  refused = λ w b e. elim (no_failure w b e) [ ];
}

abbrev two_bytes : Bytes
two_bytes = 7 ∷ 8 ∷ []

-- The in-memory channel makes no system call.
abbrev no_send : ℕ → Bytes → ℕ × Ret
no_send w m = (w, failed)

abbrev no_send_to : ℕ → ℕ → Bytes → ℕ × Ret
no_send_to i w m = (w, failed)

abbrev no_receive : ℕ → Bytes → ℕ × Bytes × Ret
no_receive w m = (w, m, failed)

abbrev no_receive_from : ℕ → ℕ → Bytes → ℕ × Bytes × Ret
no_receive_from i w m = (w, m, failed)

abbrev four_calls : List Op
four_calls = client_writes two_bytes ∷ client_writes [] ∷ server_reads ∷ client_reads ∷ []

run-fresh-Delivers_example : Delivers no_send no_send_to no_receive no_receive_from (
    run no_send no_send_to no_receive no_receive_from
      (fresh no_send no_send_to no_receive no_receive_from 0)
      four_calls)
run-fresh-Delivers_example =
    run-fresh-Delivers no_send no_send_to no_receive no_receive_from 0 four_calls

-- Two threads, of which one meets a failed exchange.
run-initial-IsOrdered_example : OrderId.IsOrdered (
    OrderId.run OrderId.initial
      ((0, false) ∷ (1, false) ∷ (0, false) ∷ (1, false) ∷ (1, false) ∷ []))
run-initial-IsOrdered_example =
    OrderId.run-initial-IsOrdered
      ((0, false) ∷ (1, false) ∷ (0, false) ∷ (1, false) ∷ (1, false) ∷ [])

socket_client_write-Outcome_example :
    Outcome received [] two_bytes (socket_client_write write_one (some 3) 5 [] two_bytes)
socket_client_write-Outcome_example =
    socket_client_write-Outcome received write_one write_one-Writes 3 5 [] two_bytes (omega arith)

abbrev one_client : ServerSocket
one_client = record { cfds = some 9 ∷ []; max_client_num = 2; opened = 9 ∷ [] }

its_descriptor : client_fd one_client 0 ≡ some 9
unfolding client_fd
its_descriptor = refl

-- A client that is taken, and one whose credentials cannot be read.
abbrev welcome : Attempt
welcome = record { accepted = some 4; timeout_set = true; peer_known = true; same_owner = true }

abbrev unknown : Attempt
unknown = record { accepted = some 5; timeout_set = true; peer_known = false; same_owner = false }

accept_balance_example : Balanced one_client unknown
accept_balance_example = accept_balance one_client unknown

accept_loop-Accepted_example :
    Accepted one_client
      (accept_loop one_client (unknown ∷ welcome ∷ [])).0
      (accept_loop one_client (unknown ∷ welcome ∷ [])).1
accept_loop-Accepted_example =
    accept_loop-Accepted one_client (unknown ∷ welcome ∷ []) (omega arith)

abbrev device : Process
device = record { is_device_connection = true; has_client = true; owner_pid = 5; pid = 5 }

abbrev packet : Bytes
packet = replicate 18 1

abbrev buffer : Bytes
buffer = replicate 1024 1

full_buffer : length buffer ≡ 1024
full_buffer = refl

wait_gets_example :
    wait scripted device 3 (2 + 8) (replicate 2 [] ++ ((buffer ∷ []) ++ two_bytes ∷ []))
    ≡ some ([], flatten (buffer ∷ []) ++ two_bytes)
wait_gets_example =
    wait_gets device 3 8 2 (buffer ∷ []) two_bytes [] refl (omega arith) (omega arith)
      (full_buffer, tt) (omega arith) (ground arith) (omega arith)
