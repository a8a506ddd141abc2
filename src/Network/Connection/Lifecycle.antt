-- ===== src/Network/Connection/Lifecycle.antt =====
-- The states of a connection (src/network/connection.cpp): disconnect, and the end of recvLoop.
use lantalk.Common.{
  ℕ, ◌+◌, ◌≡◌, refl, ap, ◌≢◌, inl, inr, Bool, true, false, List, [], ◌∷◌, ◌++◌, arith, Bytes, codes,
  ltb, length, Bool-cases, if_cases,
}
use lantalk.Network.Protocol.Types.{MessageType}
use lantalk.Network.Protocol.Header.{Frame}
use lantalk.Network.Protocol.Reader.{Fed, fed, thrown, out_of_fuel, feed}
use lantalk.Network.Protocol.Reader.Fuel.{feed-total}
use lantalk.Network.Connection.{
  Connection, ConnectionState, disconnected, is_disconnected, send, set_state, disconnect,
}
use lantalk.Network.Connection.Receive.{
  Input, closed, arrived, Next, again, ended, ended_with, what, rate_limit, go_on, deliver,
  check_rate, read_chunk, recv_round, recv_loop,
}

-- A disconnected connection has stopped its receive loop.
abbrev pub IsConsistent : Connection → Type 0
IsConsistent c = c.state ≡ disconnected → c.running ≡ false

pub send-stopped :
    (c : Connection) (t : MessageType) (p : Bytes) → c.running ≡ false → send c t p ≡ (c, false)
unfolding send
send-stopped c t p h = ground arith

pub send-state :
    (c : Connection) (t : MessageType) (p : Bytes)
    → ((send c t p).0.state ≡ c.state)
      × ((send c t p).0.running ≡ c.running)
      × ((send c t p).0.socket_open ≡ c.socket_open)
unfolding send
send-state c t p = ground arith

is_disconnected-eq : (s : ConnectionState) → is_disconnected s ≡ true → s ≡ disconnected
is_disconnected-eq disconnected h = refl
is_disconnected-eq _ h = cc

pub disconnect-disconnected :
    (c : Connection) (reason : Bytes) → c.state ≡ disconnected → disconnect c reason ≡ c
unfolding disconnect
disconnect-disconnected c reason h =
    let e : is_disconnected c.state ≡ true = ap is_disconnected h in rw (e, disconnect)

pub disconnect-stops :
    (c : Connection) (reason : Bytes)
    → IsConsistent c
    → ((disconnect c reason).state ≡ disconnected) × ((disconnect c reason).running ≡ false)
unfolding disconnect
disconnect-stops c reason h = elim (Bool-cases (is_disconnected c.state)) [
  | inl e ↦ let s = is_disconnected-eq c.state e in rw (e, disconnect) (s, h s)
  | inr e ↦ rw (e, disconnect) (refl, refl)
]

-- Disconnecting a consistent connection, in whatever state, leaves it disconnected and stopped, so
-- that nothing can be sent on it any more, and a second call changes nothing.
pub disconnect-final :
    (c : Connection) (reason second_reason : Bytes) (t : MessageType) (p : Bytes)
    → IsConsistent c
    → let d = disconnect c reason in
      (d.state ≡ disconnected)
      × (d.running ≡ false)
      × (send d t p ≡ (d, false))
      × (disconnect d second_reason ≡ d)
disconnect-final c reason second_reason t p h =
    let (s, r) = disconnect-stops c reason h in
    (s, r, send-stopped _ t p r, disconnect-disconnected _ second_reason s)

-- After a round the connection is consistent, and stopped if the loop has ended.
abbrev pub Settled : Connection × ℕ × Next → Type 0
Settled (c, count, again) = IsConsistent c
Settled (c, count, ended) = IsConsistent c × (c.running ≡ false)
Settled (c, count, ended_with reason) = IsConsistent c × (c.running ≡ false)

disconnect-Settled :
    (c : Connection) (count : ℕ) (reason : Bytes)
    → IsConsistent c
    → Settled (disconnect c reason, count, ended)
disconnect-Settled c count reason h = let (s, r) = disconnect-stops c reason h in ((λ _. r), r)

module _ (on_frame : Frame → Connection → Connection)
    (keeps : (f : Frame) (c : Connection) → IsConsistent c → IsConsistent (on_frame f c)) where
  deliver-IsConsistent :
      (fs : List Frame) (c : Connection)
      → IsConsistent c
      → IsConsistent (deliver (λ c. c) (λ f. f) on_frame fs c)
  unfolding deliver
  deliver-IsConsistent [] c h = h
  deliver-IsConsistent (f ∷ fs) c h = deliver-IsConsistent fs (on_frame f c) (keeps f c h)

  check_rate-Settled :
      (c : Connection) (count : ℕ) (second : Bool)
      → IsConsistent c
      → Settled (check_rate (λ c. c) (λ f. f) on_frame c count second)
  unfolding check_rate
  check_rate-Settled c count false h = h
  check_rate-Settled c count true h = elim (Bool-cases (ltb rate_limit count)) [
    | inl over ↦ rw (over, check_rate) (disconnect-Settled c count (codes "Rate limit exceeded") h)
    | inr within ↦ rw (within, check_rate) h
  ]

  read_chunk-Settled :
      (c : Connection) (count : ℕ) (o : Fed) (second : Bool)
      → o ≢ out_of_fuel
      → IsConsistent c
      → Settled (read_chunk (λ c. c) (λ f. f) on_frame c count o second)
  unfolding read_chunk
  read_chunk-Settled c count (fed r fs) second t h =
      check_rate-Settled (deliver (λ c. c) (λ f. f) on_frame fs (record c { reader = r }))
        (count + length fs) second (deliver-IsConsistent fs (record c { reader = r }) h)
  read_chunk-Settled c count (thrown v r) second t h =
      disconnect-Settled (record c { reader = r }) count (codes "Protocol error: " ++ what v) h
  read_chunk-Settled c count out_of_fuel second t h = absurd (t refl)

  recv_round-Settled :
      (c : Connection) (count : ℕ) (i : Input)
      → IsConsistent c
      → Settled (recv_round (λ c. c) (λ f. f) on_frame c count i)
  unfolding recv_round set_state
  recv_round-Settled c count closed h =
      if_cases Settled c.running (λ e. (λ _. refl, refl)) (λ e. (h, e))
  recv_round-Settled c count (arrived d second) h =
      read_chunk-Settled c count (feed c.reader d) second (feed-total c.reader d) h

  go_on-Settled :
      (now later : Connection × ℕ × Next)
      → Settled now
      → (IsConsistent now.0 → Settled later)
      → Settled (go_on now.2 later now)
  go_on-Settled (c, count, again) later h k = k h
  go_on-Settled (c, count, ended) later h k = h
  go_on-Settled (c, count, ended_with reason) later h k = h

  -- The receive loop, on whatever the socket returns, keeps the connection consistent, and when it
  -- ends (the peer closes, a protocol violation, the rate limit, or a disconnect from elsewhere) the
  -- connection is stopped, provided that the frame callback keeps connections consistent.
  pub recv_loop-Settled :
      (c : Connection) (count : ℕ) (is : List Input)
      → IsConsistent c
      → Settled (recv_loop (λ c. c) (λ f. f) on_frame c count is)
  unfolding recv_loop
  recv_loop-Settled c count [] h = h
  recv_loop-Settled c count (i ∷ is) h =
      let now = recv_round (λ c. c) (λ f. f) on_frame c count i in
      if_cases Settled c.running
        (λ e.
          go_on-Settled now (recv_loop (λ c. c) (λ f. f) on_frame now.0 now.1 is)
            (recv_round-Settled c count i h)
            (λ consistent. recv_loop-Settled now.0 now.1 is consistent))
        (λ e. (h, e))
