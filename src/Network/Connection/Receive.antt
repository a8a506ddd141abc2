-- ===== src/Network/Connection/Receive.antt =====
-- Connection::recvLoop of src/network/connection.cpp. What the socket returns in each round is an
-- input: the end of the stream or an error (`bytes <= 0`), or some bytes with whether a second has
-- passed since the last check.
-- The frame callback is a parameter, and so is the state that it works on, in which the connection
-- is: `connection_of` finds it there, and `change` is a change of it.
use lantalk.Common.{
  ℕ, ◌+◌, Bool, false, List, [], ◌∷◌, ◌++◌, Bytes, codes, ltb, if◌then◌else◌, length,
}
use lantalk.Network.Protocol.Header.{Frame}
use lantalk.Network.Protocol.Reader.{
  Violation, invalid_header, payload_too_large, Fed, fed, thrown, out_of_fuel, feed,
}
use lantalk.Network.Connection.{Connection, disconnected, set_state, disconnect}

pub data Input : Type 0 where
  closed : Input
  arrived : Bytes → Bool → Input

-- How the loop goes on: another round, or its end with the reason given to onDisconnect, if any.
pub data Next : Type 0 where
  again : Next
  ended : Next
  ended_with : Bytes → Next

abbrev pub rate_limit : ℕ
rate_limit = 100

abbrev pub what : Violation → Bytes
what invalid_header = codes "Protocol violation: invalid magic or version"
what payload_too_large = codes "Protocol violation: payload too large"

-- `break`, or the next round.
abbrev pub go_on {ℓ} : {A : Type ℓ} → Next → A → A → A
go_on again later now = later
go_on ended later now = now
go_on (ended_with reason) later now = now

module _ {S : Type 0} (connection_of : S → Connection) (change : (Connection → Connection) → S → S)
    (on_frame : Frame → S → S) where
  unfoldable pub deliver : List Frame → S → S
  deliver [] s = s
  deliver (f ∷ fs) s = deliver fs (on_frame f s)

  -- The rate check behind the frames of one round, with the frame count of the next.
  unfoldable pub check_rate : S → ℕ → Bool → S × ℕ × Next
  check_rate s count second =
      if second
      then if ltb rate_limit count
        then (change (λ c. disconnect c (codes "Rate limit exceeded")) s, count, ended)
        else (s, 0, again)
      else (s, count, again)

  -- The try block: feed, then the callback for each frame. `out_of_fuel` does not happen.
  unfoldable pub read_chunk : S → ℕ → Fed → Bool → S × ℕ × Next
  unfolding deliver check_rate
  read_chunk s count (fed r fs) second =
      check_rate (deliver fs (change (λ c. record c { reader = r }) s)) (count + length fs) second
  read_chunk s count (thrown v r) second = (
    change (λ c. disconnect (record c { reader = r }) (codes "Protocol error: " ++ what v)) s,
    count,
    ended,
  )
  read_chunk s count out_of_fuel second = (s, count, ended)

  -- One round, with `running_` seen as true by the loop's test.
  unfoldable pub recv_round : S → ℕ → Input → S × ℕ × Next
  unfolding read_chunk
  recv_round s count closed =
      if (connection_of s).running
      then (
        change (λ c. set_state (record c { running = false }) disconnected) s,
        count,
        ended_with (codes "Connection closed"),
      )
      else (s, count, ended)
  recv_round s count (arrived d second) =
      read_chunk s count (feed (connection_of s).reader d) second

  -- The loop over the inputs that come. It ends where a round ends it or `running_` is false.
  unfoldable pub recv_loop : S → ℕ → List Input → S × ℕ × Next
  unfolding recv_round
  recv_loop s count [] = (s, count, again)
  recv_loop s count (i ∷ is) =
      let r = recv_round s count i in
      let later = recv_loop r.0 r.1 is in
      if (connection_of s).running then go_on r.2 later r else (s, count, ended)
