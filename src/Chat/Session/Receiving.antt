-- ===== src/Chat/Session/Receiving.antt =====
-- Connection::recvLoop of src/network/connection.cpp with the callbacks of a session,
-- src/chat/chat_session.cpp: onFrame and onDisconnect under the identifier of the connection.
pub mod Calm
use lantalk.Common.{
  ℕ, ◌+◌, ◌≡◌, refl, ap, ◌∙◌, inl, inr, Bool, true, false, ◌&&◌, List, [], ◌∷◌, ◌++◌, none, some,
  Bytes, ltb, if◌then◌else◌, length,
}
use lantalk.Common.Dict.{Dict, lookup, insert, lookup-insert_self}
use lantalk.Network.Protocol.Header.{Frame}
use lantalk.Network.Protocol.Reader.{
  FrameReader, fed, thrown, out_of_fuel, Heard, heard, cut_off, stuck, behind, feed, feed_all,
}
use lantalk.Network.Protocol.Reader.Chunks.{Fed-cases}
use lantalk.Network.Connection.{Connection, new_connection}
use lantalk.Network.Connection.Receive.{
  Input, arrived, Next, again, ended, ended_with, rate_limit, deliver, check_rate, read_chunk,
  recv_round, recv_loop,
}
use lantalk.Chat.Session.{ChatSession, with_connection}
use lantalk.Chat.Session.Handlers.{on_frame, on_disconnect}
use lantalk.Chat.Session.Handshake.{with_connection-there}

-- The connection filed under an identifier. One that is filed no more has been stopped.
unfoldable pub filed : Bytes → ChatSession → Connection
filed cid s = elim (lookup cid s.connections) [ none ↦ new_connection 0 false | some c ↦ c ]

-- The end of the loop: `onDisconnect_`, if the loop calls it.
abbrev pub leave : Bytes → ChatSession × ℕ × Next → ChatSession × ℕ × Next
leave cid (s, count, again) = (s, count, again)
leave cid (s, count, ended) = (s, count, ended)
leave cid (s, count, ended_with reason) = (on_disconnect s cid, count, ended_with reason)

-- The loop of a connection of the session, over what the socket returns.
unfoldable pub receive_loop : ChatSession → Bytes → ℕ → List Input → ChatSession × ℕ × Next
unfolding recv_loop with_connection filed
receive_loop s cid count is =
    leave cid
      (recv_loop (filed cid) (λ f s. with_connection s cid f) (λ f s. on_frame s cid f) s count is)

-- The frame callback, for some frames.
unfoldable pub receive_all : ChatSession → Bytes → List Frame → ChatSession
receive_all s cid [] = s
receive_all s cid (f ∷ fs) = receive_all (on_frame s cid f) cid fs

-- Bytes that arrive, each with whether a second has passed since the last check.
abbrev pub arrivals : List (Bytes × Bool) → List Input
arrivals [] = []
arrivals ((d, second) ∷ ds) = arrived d second ∷ arrivals ds

abbrev pub bytes_of : List (Bytes × Bool) → List Bytes
bytes_of [] = []
bytes_of ((d, second) ∷ ds) = d ∷ bytes_of ds

-- At no check the loop has counted more than 100 frames.
abbrev pub IsWithinRate : FrameReader → ℕ → List (Bytes × Bool) → Type 0
IsWithinRate r count [] = Unit {0}
IsWithinRate r count ((d, second) ∷ ds) = elim (feed r d) [
  | fed r' fs ↦
      ((second && ltb rate_limit (count + length fs)) ≡ false)
      × IsWithinRate r' (if second then 0 else count + length fs) ds
  | thrown v r' ↦ Unit {0}
  | out_of_fuel ↦ Unit {0}
]
