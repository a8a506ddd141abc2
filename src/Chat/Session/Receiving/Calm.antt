-- ===== src/Chat/Session/Receiving/Calm.antt =====
-- What recvLoop of src/network/connection.cpp makes a session do with frames that leave the connections
-- alone, for bytes in whatever chunks.
use lantalk.Common.{
  ℕ, ◌+◌, ◌≡◌, refl, ap, ◌∙◌, inl, inr, Bool, true, false, ◌&&◌, List, [], ◌∷◌, ◌++◌, some, Bytes,
  ltb, if◌then◌else◌, length,
}
use lantalk.Common.Dict.{Dict, lookup, insert, lookup-insert_self}
use lantalk.Network.Protocol.Header.{Frame}
use lantalk.Network.Protocol.Reader.{
  FrameReader, fed, Heard, heard, cut_off, stuck, behind, feed, feed_all,
}
use lantalk.Network.Protocol.Reader.Chunks.{Fed-cases}
use lantalk.Network.Connection.{Connection}
use lantalk.Network.Connection.Receive.{
  Input, arrived, Next, again, ended, ended_with, rate_limit, deliver, check_rate, read_chunk,
  recv_round, recv_loop,
}
use lantalk.Chat.Session.{ChatSession, with_connection}
use lantalk.Chat.Session.Handlers.{on_frame}
use lantalk.Chat.Session.Handshake.{with_connection-there}
use lantalk.Chat.Session.Receiving.{
  filed, leave, receive_loop, receive_all, arrivals, bytes_of, IsWithinRate,
}

filed-there :
    (cid : Bytes) (s : ChatSession) (c : Connection)
    → lookup cid s.connections ≡ some c
    → filed cid s ≡ c
unfolding filed
filed-there cid s c e = rw (e, filed)

-- Frames whose handlers do not touch the connections.
abbrev pub IsCalm : ChatSession → Bytes → List Frame → Type 0
IsCalm s cid [] = Unit {0}
IsCalm s cid (f ∷ fs) =
    ((k : Dict Connection)
      → on_frame (record s { connections = k }) cid f
        ≡ (record (on_frame s cid f) { connections = k }))
    × IsCalm (on_frame s cid f) cid fs

IsCalm-append :
    (s : ChatSession) (cid : Bytes) (fs gs : List Frame)
    → IsCalm s cid (fs ++ gs)
    → IsCalm s cid fs × IsCalm (receive_all s cid fs) cid gs
unfolding receive_all
IsCalm-append s cid [] gs h = (tt, h)
IsCalm-append s cid (f ∷ fs) gs (e, h) =
    let (a, b) = IsCalm-append (on_frame s cid f) cid fs gs h in ((e, a), b)

receive_all-append :
    (s : ChatSession) (cid : Bytes) (fs gs : List Frame)
    → receive_all s cid (fs ++ gs) ≡ receive_all (receive_all s cid fs) cid gs
unfolding receive_all
receive_all-append s cid [] gs = refl
receive_all-append s cid (f ∷ fs) gs = receive_all-append (on_frame s cid f) cid fs gs

pub receive_all-connections :
    (s : ChatSession) (cid : Bytes) (fs : List Frame) (k : Dict Connection)
    → IsCalm s cid fs
    → receive_all (record s { connections = k }) cid fs
      ≡ (record (receive_all s cid fs) { connections = k })
unfolding receive_all
receive_all-connections s cid [] k h = refl
receive_all-connections s cid (f ∷ fs) k (e, h) =
    ap (λ t. receive_all t cid fs) (e k) ∙ receive_all-connections (on_frame s cid f) cid fs k h

module _ (cid : Bytes) where
  abbrev change : (Connection → Connection) → ChatSession → ChatSession
  change f s = with_connection s cid f

  abbrev handle : Frame → ChatSession → ChatSession
  handle f s = on_frame s cid f

  deliver-receive_all :
      (fs : List Frame) (s : ChatSession)
      → deliver (filed cid) change handle fs s ≡ receive_all s cid fs
  unfolding deliver receive_all with_connection
  deliver-receive_all [] s = refl
  deliver-receive_all (f ∷ fs) s = deliver-receive_all fs (on_frame s cid f)

  check_rate-within :
      (s : ChatSession) (n : ℕ) (second : Bool)
      → (second && ltb rate_limit n) ≡ false
      → check_rate (filed cid) change handle s n second ≡ (s, (if second then 0 else n), again)
  unfolding check_rate
  check_rate-within s n false h = refl
  check_rate-within s n true h = rw (h, check_rate)

  -- What one chunk does to a session in which the connection is `c`.
  recv_round-calm :
      (t : ChatSession) (k : Dict Connection) (c : Connection) (count : ℕ) (d : Bytes)
      (second : Bool) (r : FrameReader) (gs : List Frame)
      → lookup cid k ≡ some c
      → feed c.reader d ≡ fed r gs
      → IsCalm t cid gs
      → (second && ltb rate_limit (count + length gs)) ≡ false
      → recv_round (filed cid) change handle (record t { connections = k }) count (arrived d second)
        ≡ (
          record (receive_all t cid gs) { connections = insert cid (record c { reader = r }) k },
          (if second then 0 else count + length gs),
          again,
        )
  unfolding recv_round read_chunk
  recv_round-calm t k c count d second r gs e f calm within =
      let put : Connection → Connection = λ c'. record c' { reader = r } in
      let s : ChatSession = record t { connections = k } in
      let delivered : deliver (filed cid) change handle gs (change put s)
          ≡ (record (receive_all t cid gs) { connections = insert cid (put c) k }) =
        deliver-receive_all gs (change put s)
        ∙ ap (λ z. receive_all z cid gs) (with_connection-there s cid put c e)
        ∙ receive_all-connections t cid gs (insert cid (put c) k) calm in
      rw (filed-there cid s c e, f, read_chunk)
        (rw delivered (check_rate-within _ (count + length gs) second within))

  recv_loop-again :
      (s s' : ChatSession) (count n : ℕ) (i : Input) (is : List Input)
      → (filed cid s).running ≡ true
      → recv_round (filed cid) change handle s count i ≡ (s', n, again)
      → recv_loop (filed cid) change handle s count (i ∷ is)
        ≡ recv_loop (filed cid) change handle s' n is
  unfolding recv_loop
  recv_loop-again s s' count n i is run e = rw (run, e) refl

  -- The loop has handled these frames, and goes on.
  abbrev Handled : ChatSession → ChatSession × ℕ × Next → Type 0
  Handled t o = ((k : Dict Connection) × (o.0 ≡ (record t { connections = k }))) × (o.2 ≡ again)

  Heard-cases :
      (gs fs : List Frame) (r : FrameReader) (o : Heard)
      → behind gs o ≡ heard r fs
      → (hs : List Frame) × (o ≡ heard r hs) × (gs ++ hs ≡ fs)
  Heard-cases gs fs r (heard r' hs) e = (hs, cc, cc)
  Heard-cases gs fs r (cut_off v r' hs) e = cc
  Heard-cases gs fs r stuck e = cc

  recv_loop-calm :
      (ds : List (Bytes × Bool)) (t : ChatSession) (k : Dict Connection) (c : Connection)
      (count : ℕ) (r : FrameReader) (fs : List Frame)
      → lookup cid k ≡ some c
      → c.running ≡ true
      → feed_all c.reader (bytes_of ds) ≡ heard r fs
      → IsWithinRate c.reader count ds
      → IsCalm t cid fs
      → Handled
          (receive_all t cid fs)
          (recv_loop (filed cid) change handle (record t { connections = k }) count (arrivals ds))
  unfolding recv_loop feed_all receive_all
  recv_loop-calm [] t k c count r fs e run h within calm =
      let none_ : [] ≡ fs = cc in rw (← none_) ((k, refl), refl)
  recv_loop-calm ((d, second) ∷ ds) t k c count r fs e run h within calm =
      elim (Fed-cases (feed c.reader d)) [
        | inl (r1, gs, f) ↦
            let (hs, g, whole) =
              Heard-cases gs fs r (feed_all r1 (bytes_of ds)) (rw (f, feed_all) at h) in
            let (quiet, later) = IsCalm-append t cid gs hs (rw (← whole) at calm) in
            let (fits, rest) = rw (f, IsWithinRate) at within in
            let n = if second then 0 else count + length gs in
            let c1 = record c { reader = r1 } in
            let next =
              recv_loop-calm ds (receive_all t cid gs) (insert cid c1 k) c1 n r hs
                (lookup-insert_self cid c1 k) run g rest later in
            let there = filed-there cid (record t { connections = k }) c e in
            let first =
              recv_loop-again (record t { connections = k }) _ count n (arrived d second)
                (arrivals ds) (rw there run)
                (recv_round-calm t k c count d second r1 gs e f quiet fits) in
            rw first (rw (← whole, receive_all-append t cid gs hs) next)
        | inr (inl (v, r1, f)) ↦ let bad = rw (f, feed_all) at h in cc
        | inr (inr f) ↦ let bad = rw (f, feed_all) at h in cc
      ]

-- Frames that are calm, as they come out of what arrives on a running connection within the rate:
-- the loop has the session handle each of them, in order, and goes on.
pub receive_loop-receive_all :
    (cid : Bytes) (ds : List (Bytes × Bool)) (t : ChatSession) (k : Dict Connection)
    (c : Connection) (r : FrameReader) (fs : List Frame)
    → lookup cid k ≡ some c
    → c.running ≡ true
    → feed_all c.reader (bytes_of ds) ≡ heard r fs
    → IsWithinRate c.reader 0 ds
    → IsCalm t cid fs
    → let o = receive_loop (record t { connections = k }) cid 0 (arrivals ds) in
      ((j : Dict Connection) × (o.0 ≡ (record (receive_all t cid fs) { connections = j })))
      × (o.2 ≡ again)
unfolding receive_loop
receive_loop-receive_all cid ds t k c r fs e run h within calm =
    stays
      (recv_loop (filed cid) (change cid) (handle cid) (record t { connections = k }) 0
        (arrivals ds))
      (recv_loop-calm cid ds t k c 0 r fs e run h within calm)
  where
    stays :
        (o : ChatSession × ℕ × Next)
        → Handled cid (receive_all t cid fs) o
        → Handled cid (receive_all t cid fs) (leave cid o)
    stays (s, n, again) h = h
    stays (s, n, ended) h = h
    stays (s, n, ended_with reason) h = cc
