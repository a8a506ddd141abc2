-- ===== src/Network/Connection/Carried.antt =====
-- Connection::send of src/network/connection.cpp, down to TcpSocket::sendAll of
-- src/network/tcp_socket.cpp and up to the reader of the other side: what the frames of `sent` are.
use lantalk.Common.{
  ℕ, zero, suc, ◌+◌, ◌≤◌, ◌<◌, ◌≡◌, refl, ◌≢◌, sym, ◌∙◌, inl, inr, Bool, true, false, List, [], ◌∷◌,
  ◌++◌, arith, Bytes, append_assoc, append-nil, flatten, All, ltb, if◌then◌else◌, Bool-cases,
  length, take, drop, length-append, take-add, length-take,
}
use lantalk.Network.Protocol.Types.{frame_header_size}
use lantalk.Network.Protocol.Header.{Frame, FrameHeader, serialize, serialize_header}
use lantalk.Network.Protocol.Header.RoundTrip.{length-serialize_header}
use lantalk.Network.Protocol.Reader.{fed, heard, feed, feed_all}
use lantalk.Network.Protocol.Reader.Accounting.{frame_bytes, feed-held}
use lantalk.Network.Protocol.Reader.Chunks.{feed_nothing, feed-append, feed_all-fed}
use lantalk.Network.Protocol.Reader.Delivery.{IsSendable, idle, idle_waits, feed-serialize}
use lantalk.Network.Socket.{
  TcpSocket, is_valid, Kernel, Outcome, done, broken, out_of_fuel, send_loop, send_all,
}
use lantalk.Network.Socket.Writing.{Obeys, Sent-cases, within, Written, send_all-Written}
use lantalk.Network.Socket.Delivery.{feed-prefix, Written-part, send_each, frames_of, Outcome-cases}
use lantalk.Network.Connection.{Connection, send_frame}

abbrev pub is_done : Outcome → Bool
is_done done = true
is_done _ = false

-- `send` of frames one after the other, up to one that fails, on a connection whose link is for each
-- of them what sendAll comes to.
unfoldable pub carried : ℕ → TcpSocket → Connection → List (Kernel × Frame) → Connection
unfolding send_frame send_all
carried fuel s c [] = c
carried fuel s c ((k, f) ∷ rest) =
    let r = send_frame (record c { link_up = is_done (send_all fuel k s (serialize f)).0 }) f in
    let later = carried fuel s r.0 rest in if r.1 then later else r.0

-- A loop that ends with an error has bytes left.
send_loop-short :
    (k : Kernel) (fuel i : ℕ) (bytes : Bytes) (total : ℕ)
    → Obeys k
    → total ≤ length bytes
    → (send_loop fuel k i bytes total (take total bytes)).0 ≡ broken
    → length (send_loop fuel k i bytes total (take total bytes)).1 < length bytes
unfolding send_loop
send_loop-short k zero i bytes total ok h b = cc
send_loop-short k (suc fuel) i bytes total ok h b = elim (Bool-cases (ltb total (length bytes))) [
  | inr e ↦ let bad : done ≡ broken = rw e at b in cc
  | inl e ↦ elim (Sent-cases (k i (drop total bytes))) [
    | inl (n, f) ↦
        rw (e, f, send_loop)
          (rw (take-add total n bytes) (
            send_loop-short k fuel (i + 1) bytes (total + n) ok (within k ok i bytes total n h f)
              (rw (e, f, send_loop, take-add total n bytes) at b)))
    | inr (inl f) ↦
        rw (e, f, send_loop)
          (send_loop-short k fuel (i + 1) bytes total ok h (rw (e, f, send_loop) at b))
    | inr (inr f) ↦ rw (e, f, send_loop) (ground (arith, length-take total bytes))
  ]
]

length-serialize : (f : Frame) → length (serialize f) ≡ frame_header_size + length f.payload
unfolding serialize
length-serialize f =
    omega
      (arith, length-append (serialize_header f.header) f.payload, length-serialize_header f.header)

send_all-short :
    (fuel : ℕ) (k : Kernel) (s : TcpSocket) (f : Frame)
    → Obeys k
    → (send_all fuel k s (serialize f)).0 ≡ broken
    → length (send_all fuel k s (serialize f)).1 < length (serialize f)
unfolding send_all
send_all-short fuel k s f ok b = elim (Bool-cases (is_valid s)) [
  | inl v ↦ rw v (send_loop-short k fuel 0 (serialize f) 0 ok (omega arith) (rw v at b))
  | inr v ↦ rw v (omega (arith, length-serialize f))
]

-- The first part of a frame gives no frame.
feed-short :
    (max : ℕ) (h : FrameHeader) (f : Frame) (a b : Bytes)
    → IsSendable max f
    → a ++ b ≡ serialize f ++ []
    → length a < length (serialize f)
    → (r : _) × (feed (idle max h) a ≡ fed r [])
feed-short max h f a b s e short =
    let (r, gs, g, (hs, all)) = feed-prefix max h (f ∷ []) a b (s, tt) e in
    let kept = feed-held (idle max h) a g in
    (r, g ∙ rw (only gs hs all (omega (arith, kept, length-serialize f))) refl)
  where
    only :
        (gs hs : List Frame)
        → gs ++ hs ≡ f ∷ []
        → frame_bytes gs < frame_header_size + length f.payload
        → gs ≡ []
    only [] hs e l = refl
    only (g ∷ gs) hs e l = let same : g ≡ f = cc in absurd (omega (arith, rw same at l))

send_all-valid :
    (fuel : ℕ) (k : Kernel) (s : TcpSocket) (bytes : Bytes)
    → (send_all fuel k s bytes).0 ≡ done
    → is_valid s ≡ true
unfolding send_all
send_all-valid fuel k s bytes d = ground arith

-- What the reader returns is what `sent` has more.
abbrev Carries : ℕ → FrameHeader → List Frame → Bytes → List Frame → Type 0
Carries max h before wire after =
    (r : _) × (gs : List Frame) × (feed (idle max h) wire ≡ fed r gs) × (after ≡ before ++ gs)

carried-Carries :
    (fuel : ℕ) (s : TcpSocket) (c : Connection) (kfs : List (Kernel × Frame)) (max : ℕ)
    (h : FrameHeader)
    → c.running ≡ true
    → c.socket_open ≡ is_valid s
    → All (λ kf. Obeys kf.0) kfs
    → All (IsSendable max) (frames_of kfs)
    → (send_each fuel s kfs).0 ≢ out_of_fuel
    → Carries max h c.sent (send_each fuel s kfs).1 (carried fuel s c kfs).sent
unfolding carried send_each send_frame
carried-Carries fuel s c [] max h run up ok sendable ends =
    (_, [], feed_nothing (idle max h) (idle_waits max h), rw (append-nil c.sent) refl)
carried-Carries fuel s c ((k, f) ∷ rest) max h run up (ok, oks) (fits, fit) ends =
    let r = send_all fuel k s (serialize f) in
    let w : Written (serialize f) r = send_all-Written k ok fuel s (serialize f) in
    elim (Outcome-cases r.0) [
      | inl d ↦
          let valid = send_all-valid fuel k s (serialize f) d in
          let c1 = record c {
            running = true;
            socket_open = true;
            link_up = true;
            sent = c.sent ++ f ∷ [];
          } in
          let (r1, gs, g, e) =
            carried-Carries fuel s c1 rest max f.header refl (sym valid) oks fit
              (rw (d, send_each) at ends) in
          rw (d, send_each, w.1 d, run, up ∙ valid)
            (
              r1,
              f ∷ gs,
              feed-append (idle max h) (serialize f) _ ∙ rw (feed-serialize max h f fits) (rw g),
              e ∙ append_assoc c.sent (f ∷ []) gs,
            )
      | inr (inl d) ↦
          let (b, e) = Written-part (serialize f) [] r w in
          let (r1, g) = feed-short max h f r.1 b fits e (send_all-short fuel k s f ok d) in
          rw (d, send_each) (r1, [], g, ground (arith, append-nil c.sent))
      | inr (inr d) ↦ absurd (ends (rw (d, send_each)))
    ]

-- `sent` is what arrives. On a running connection over its socket, frames, each well formed and
-- within the limit of the reader on the other side, are sent one after the other up to a failure.
-- Whatever ::send returns, as long as it takes no more than it is offered and each sendAll ends: the
-- frames that `sent` has more are exactly those that this reader returns, for every way in which the
-- bytes arrive in chunks, and it never throws.
pub carried-reads :
    (fuel : ℕ) (s : TcpSocket) (c : Connection) (kfs : List (Kernel × Frame)) (max : ℕ)
    (h : FrameHeader) (chunks : List Bytes)
    → c.running ≡ true
    → c.socket_open ≡ is_valid s
    → All (λ kf. Obeys kf.0) kfs
    → All (IsSendable max) (frames_of kfs)
    → (send_each fuel s kfs).0 ≢ out_of_fuel
    → flatten chunks ≡ (send_each fuel s kfs).1
    → (r : _) × (gs : List Frame) × (feed_all (idle max h) chunks ≡ heard r gs)
      × ((carried fuel s c kfs).sent ≡ c.sent ++ gs)
carried-reads fuel s c kfs max h chunks run up ok sendable ends e =
    let (r, gs, f, more) = carried-Carries fuel s c kfs max h run up ok sendable ends in
    (r, gs, feed_all-fed chunks (idle max h) (idle_waits max h) (rw e f), more)
