-- ===== src/Comm/Socket.antt =====
-- csrc/core/DomainSocket.cpp and the classes `SocketServer` and `SocketClient` of
-- csrc/core/Communication.cpp. The system calls are parameters: `write` and `read` act on a state
-- `W` of the kernel, and each attempt to accept a client is an `Attempt` that says how the calls
-- made for it end. Logging, time stamps and the threads' scheduling are left out.
pub mod Transfer
pub mod Accept
use msopcom.Prelude.{
  ℕ, zero, suc, ◌+◌, ◌-◌, ◌%◌, Bool, true, false, List, [], ◌∷◌, ◌++◌, Option, none, some, length,
  ltb, leb, nat_beq, drop, is_empty, get_elem?, if◌then◌else◌, ◌&&◌,
}
use msopcom.Wire.{Bytes}
use msopcom.Comm.{Ret, failed, done}

module _ {W : Type 0} where
  -- The loop of both `Write`s over the bytes that are left. `none` means that the fuel ran out;
  -- otherwise the result is the one returned, with `sentBytes`.
  pub write_loop : (W → Bytes → W × Ret) → ℕ → W → Bytes → ℕ → Option (W × Bool × ℕ)
  write_loop write zero w buffer sent = none
  write_loop write (suc fuel) w buffer sent = elim (is_empty buffer) [
    | true ↦ some (w, true, sent)
    | false ↦ elim (write w buffer).1 [
      | failed ↦ some ((write w buffer).0, false, sent)
      | done n ↦ write_loop write fuel (write w buffer).0 (drop n buffer) (sent + n)
    ]
  ]

  -- One `read` into a buffer of `max_bytes`; `none` is -1. The message is replaced when bytes came.
  unfoldable pub read_once : (W → ℕ → W × Option Bytes) → W → ℕ → Bytes → W × Bytes × Option ℕ
  read_once read w max_bytes message = elim (read w max_bytes).1 [
    | none ↦ ((read w max_bytes).0, message, none)
    | some bytes ↦
        ((read w max_bytes).0, if ltb 0 (length bytes) then bytes else message, some (length bytes))
  ]

-- `static_cast<int32_t>` of a `ssize_t`, read back as a `ssize_t`; a `size_t` made of it is the
-- same 64 bits.
pub int32_of : Ret → Ret
int32_of failed = failed
int32_of (done n) =
    let low = n % 4294967296 in
    if ltb low 2147483648
    then done low
    else if nat_beq low 4294967295
    then failed
    else done (low + 18446744069414584320)

-- `DomainSocketServer`: a client's descriptor, or -1, at the place of its id; and the descriptors
-- that `accept` gave and nothing has closed.
pub record ServerSocket : Type 0 where
  pub cfds : List (Option ℕ)
  pub max_client_num : ℕ
  pub opened : List ℕ

-- The descriptor of a client that `Read` and `Write` look up first.
unfoldable pub client_fd : ServerSocket → ℕ → Option ℕ
client_fd s id = elim (get_elem? s.cfds id) [ none ↦ none | some c ↦ c ]

module _ {W : Type 0} where
  -- `SocketServer::Write` over `DomainSocketServer::Write`.
  pub socket_server_write :
      (ℕ → W → Bytes → W × Ret) → ServerSocket → ℕ → ℕ → W → Bytes → Option (W × Ret)
  unfolding client_fd
  socket_server_write write s fuel id w message = elim (client_fd s id) [
    | none ↦ some (w, failed)
    | some cfd ↦ elim (write_loop (write cfd) fuel w message 0) [
      | none ↦ none
      | some (w', ok, sent) ↦ some (w', if ok then done sent else failed)
    ]
  ]

  -- `SocketClient::Write` over `DomainSocketClient::Write`; `sfd` is `none` for -1.
  pub socket_client_write : (W → Bytes → W × Ret) → Option ℕ → ℕ → W → Bytes → Option (W × Ret)
  socket_client_write write none fuel w message = some (w, failed)
  socket_client_write write (some sfd) fuel w message =
      elim (write_loop (λ v b. ((write v b).0, int32_of (write v b).1)) fuel w message 0) [
        | none ↦ none
        | some (w', ok, sent) ↦ some (w', if ok then done sent else failed)
      ]

  -- `SocketServer::Read` over `DomainSocketServer::Read`, with its 1024 bytes.
  unfoldable pub socket_server_read :
      (ℕ → W → ℕ → W × Option Bytes) → ServerSocket → ℕ → W → Bytes → W × Bytes × Ret
  unfolding client_fd
  socket_server_read read s id w message = elim (client_fd s id) [
    | none ↦ (w, message, failed)
    | some cfd ↦
        let r = read_once (read cfd) w 1024 message in
        (r.0, r.1, elim r.2 [ none ↦ failed | some n ↦ done n ])
  ]

  -- `SocketClient::Read` over `DomainSocketClient::Read`, with `RECV_BUFF_SIZE`.
  unfoldable pub socket_client_read :
      (W → ℕ → W × Option Bytes) → Option ℕ → W → Bytes → W × Bytes × Ret
  socket_client_read read none w message = (w, message, failed)
  socket_client_read read (some sfd) w message =
      let r = read_once read w 1024 message in
      (r.0, r.1, elim r.2 [ none ↦ failed | some n ↦ done n ])

-- How the calls of one `Accept` end: `accept` (-1 is `none`), the two socket options, and whether
-- the peer runs under the user and group of this process.
pub record Attempt : Type 0 where
  pub accepted : Option ℕ
  pub timeout_set : Bool
  pub peer_known : Bool
  pub same_owner : Bool

-- `close(fd)`.
pub close_fd : ℕ → List ℕ → List ℕ
close_fd fd [] = []
close_fd fd (x ∷ xs) = if nat_beq x fd then xs else x ∷ close_fd fd xs

-- `DomainSocketServer::Accept`: the id of the new client, or `none` for the result `false`.
pub accept : ServerSocket → Attempt → ServerSocket × Option ℕ
unfolding close_fd
accept s a = if leb s.max_client_num (length s.cfds) then (s, none) else elim a.accepted [
  | none ↦ (s, none)
  | some cfd ↦
      let held = record s { opened = cfd ∷ s.opened } in
      if a.timeout_set
      then if a.peer_known
        then if a.same_owner
          then (record held { cfds = s.cfds ++ some cfd ∷ [] }, some (length s.cfds))
          else (record held { opened = close_fd cfd held.opened }, none)
        else (held, none)
      else (record held { opened = close_fd cfd held.opened }, none)
]

-- The accepting thread of `SocketServer::Start`, over the attempts it makes while the server runs:
-- it ends when the limit is reached. The second part is the ids given to `clientConnectHook_`.
pub accept_loop : ServerSocket → List Attempt → ServerSocket × List ℕ
accept_loop s [] = (s, [])
accept_loop s (a ∷ as') =
    let rest = accept_loop (accept s a).0 as' in
    if ltb (length s.cfds) s.max_client_num
    then (rest.0, elim (accept s a).1 [ none ↦ rest.1 | some id ↦ id ∷ rest.1 ])
    else (s, [])
