-- ===== src/Comm/Socket/Accept.antt =====
-- `DomainSocketServer::Accept` of csrc/core/DomainSocket.cpp and the accepting thread of
-- `SocketServer::Start` of csrc/core/Communication.cpp: the ids that clients get, the limit on
-- their number, and the descriptors.
use msopcom.Prelude.{
  ℕ, zero, suc, ◌+◌, ◌≤◌, ◌<◌, ◌≡◌, refl, ◌⊎◌, Bool, List, [], ◌∷◌, Option, none, some, arith,
  length, length-append, if◌then◌else◌, ltb, ◌&&◌, not, is_some,
}
use msopcom.Comm.Socket.{ServerSocket, Attempt, accept, accept_loop}

-- The attempt got a descriptor, but its peer's credentials could not be read.
abbrev pub is_unknown_peer : ServerSocket → Attempt → Bool
is_unknown_peer s a =
    ltb (length s.cfds) s.max_client_num && is_some a.accepted && a.timeout_set && not a.peer_known

-- `n` ids from `k` on.
unfoldable pub count_up : ℕ → ℕ → List ℕ
count_up k zero = []
count_up k (suc n) = k ∷ count_up (suc k) n

abbrev attempt : Option ℕ → Bool → Bool → Bool → Attempt
attempt o t p w = record { accepted = o; timeout_set = t; peer_known = p; same_owner = w }

abbrev pub Balanced : ServerSocket → Attempt → Type 0
Balanced s a =
    length (accept s a).0.opened + length s.cfds
    ≡ length s.opened + length (accept s a).0.cfds + (if is_unknown_peer s a then 1 else 0)

accept-Balanced : (s : ServerSocket) (o : Option ℕ) (t p w : Bool) → Balanced s (attempt o t p w)
unfolding accept
accept-Balanced s none t p w = ground arith
accept-Balanced s (some cfd) t p w = ground (arith, length-append s.cfds (some cfd ∷ []))

-- Over every attempt, whatever its outcome: each descriptor that it opens is kept for a client or
-- closed again, except that one stays open with no client when there was room, `accept` and the
-- time-out succeeded and the peer's credentials could not be read.
pub accept_balance : (s : ServerSocket) (a : Attempt) → Balanced s a
accept_balance s a = accept-Balanced s a.accepted a.timeout_set a.peer_known a.same_owner

-- What an attempt does to the table of clients.
abbrev Table : ServerSocket → Attempt → Type 0
Table s a =
    ((accept s a).1 ≡ none)
      × (length (accept s a).0.cfds ≡ length s.cfds)
      × ((accept s a).0.max_client_num ≡ s.max_client_num)
    ⊎ ((accept s a).1 ≡ some (length s.cfds))
      × (length (accept s a).0.cfds ≡ suc (length s.cfds))
      × (length s.cfds < s.max_client_num)
      × ((accept s a).0.max_client_num ≡ s.max_client_num)

accept-Table : (s : ServerSocket) (o : Option ℕ) (t p w : Bool) → Table s (attempt o t p w)
unfolding accept
accept-Table s none t p w = ground arith
accept-Table s (some cfd) t p w = ground (arith, length-append s.cfds (some cfd ∷ []))

pub record Accepted (s s' : ServerSocket) (ids : List ℕ) : Type 0 where
  pub ids_lem : ids ≡ count_up (length s.cfds) (length ids)
  pub count : length s'.cfds ≡ length s.cfds + length ids
  pub limit : length s'.cfds ≤ s.max_client_num

-- Over any attempts, from at most `max_client_num` clients: the clients get consecutive ids from
-- the number of clients on, each is told to the hook once and in order, the table grows by as
-- many, and never beyond the limit.
pub accept_loop-Accepted :
    (s : ServerSocket) (attempts : List Attempt)
    → length s.cfds ≤ s.max_client_num
    → Accepted s (accept_loop s attempts).0 (accept_loop s attempts).1
unfolding accept_loop count_up
accept_loop-Accepted s [] h = record { ids_lem = refl; count = omega arith; limit = h }
accept_loop-Accepted s (a ∷ attempts) h = ground (
  arith,
  accept-Table s a.accepted a.timeout_set a.peer_known a.same_owner,
  accept_loop-Accepted (accept s a).0 attempts,
)
