-- ===== src/Comm.antt =====
-- csrc/core/Communication.h and csrc/core/Communication.cpp: the message channels between the
-- injected process (client) and the tool (server).
-- `LocalComm` is the in-memory pair of queues; a `Server` or a `Client` picks it, or a socket, by
-- its `CommType`. The socket side is a parameter of a section here and is modelled in Comm/Socket.
-- A `ssize_t` result is a `Ret`: `failed` stands for -1.
pub mod Local
pub mod Socket
pub mod Process
pub mod OrderId
mod Tests
use msopcom.Prelude.{
  ℕ, suc, ◌≡◌, Bool, true, false, ◌&&◌, not, List, [], ◌∷◌, ◌++◌, if◌then◌else◌, length, is_empty,
  ◌==◌, nat_eq, list_eq,
}
use msopcom.Wire.{Bytes}

-- `ssize_t`: -1, or a count.
pub data Ret : Type 0 where
  failed : Ret
  done : ℕ → Ret

pub data CommType : Type 0 where
  memory socket max_type : CommType

-- `LocalComm`: the messages from the server to the client, and from the client to the server.
pub record LocalComm : Type 0 where
  pub s2c : List Bytes
  pub c2s : List Bytes

-- The flags "s" and "c".
abbrev pub server_flag : Bytes
server_flag = b's' ∷ []

abbrev pub client_flag : Bytes
client_flag = b'c' ∷ []

-- `LocalComm::Clear`: pops both queues until they are empty.
pub clear : LocalComm → LocalComm
clear c = record { s2c = []; c2s = [] }

-- The front of a non-empty queue, the queue without it, and the message's size.
pop_front : List Bytes → Bytes → Bytes × List Bytes × ℕ
pop_front [] msg = (msg, [], 0)
pop_front (m ∷ q) msg = (m, q, length m)

-- `LocalComm::Read`: the result holds `msg` as the caller finds it.
pub local_read : LocalComm → Bytes → Bytes → LocalComm × Bytes × ℕ
unfolding pop_front
local_read c flag msg =
    if flag == server_flag && not (is_empty c.c2s)
    then (
      record c { c2s = (pop_front c.c2s msg).1 },
      (pop_front c.c2s msg).0,
      (pop_front c.c2s msg).2,
    )
    else if flag == client_flag && not (is_empty c.s2c)
    then (
      record c { s2c = (pop_front c.s2c msg).1 },
      (pop_front c.s2c msg).0,
      (pop_front c.s2c msg).2,
    )
    else (c, msg, 0)

-- `LocalComm::Write`.
pub local_write : LocalComm → Bytes → Bytes → LocalComm × ℕ
local_write c flag msg =
    if flag == server_flag
    then (record c { s2c = c.s2c ++ msg ∷ [] }, length msg)
    else if flag == client_flag
    then (record c { c2s = c.c2s ++ msg ∷ [] }, length msg)
    else (c, 0)

-- `Server` and `Client` over a socket whose state is `W`: `Read` and `Write` choose by the type.
-- For `max_type` nothing happens and the length is 0.
module _ {W : Type 0} where
  pub server_write :
      (ℕ → W → Bytes → W × Ret) → CommType → ℕ → LocalComm × W → Bytes → (LocalComm × W) × Ret
  server_write socket_write memory id (c, w) msg =
      let r = local_write c server_flag msg in ((r.0, w), done r.1)
  server_write socket_write socket id (c, w) msg = let r = socket_write id w msg in ((c, r.0), r.1)
  server_write socket_write max_type id (c, w) msg = ((c, w), done 0)

  pub server_read :
      (ℕ → W → Bytes → W × Bytes × Ret)
      → CommType
      → ℕ
      → LocalComm × W
      → Bytes
      → (LocalComm × W) × Bytes × Ret
  server_read socket_read memory id (c, w) msg =
      let r = local_read c server_flag msg in ((r.0, w), r.1, done r.2)
  server_read socket_read socket id (c, w) msg =
      let r = socket_read id w msg in ((c, r.0), r.1, r.2)
  server_read socket_read max_type id (c, w) msg = ((c, w), msg, done 0)

  pub client_write :
      (W → Bytes → W × Ret) → CommType → LocalComm × W → Bytes → (LocalComm × W) × Ret
  client_write socket_write memory (c, w) msg =
      let r = local_write c client_flag msg in ((r.0, w), done r.1)
  client_write socket_write socket (c, w) msg = let r = socket_write w msg in ((c, r.0), r.1)
  client_write socket_write max_type (c, w) msg = ((c, w), done 0)

  pub client_read :
      (W → Bytes → W × Bytes × Ret)
      → CommType
      → LocalComm × W
      → Bytes
      → (LocalComm × W) × Bytes × Ret
  client_read socket_read memory (c, w) msg =
      let r = local_read c client_flag msg in ((r.0, w), r.1, done r.2)
  client_read socket_read socket (c, w) msg = let r = socket_read w msg in ((c, r.0), r.1, r.2)
  client_read socket_read max_type (c, w) msg = ((c, w), msg, done 0)

-- `Server::Start` and `Client::Connect`, the socket's own result given.
unfoldable pub start : CommType → Bool → Bool
start memory started = true
start socket started = started
start max_type started = false
