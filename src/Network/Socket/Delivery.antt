-- ===== src/Network/Socket/Delivery.antt =====
-- Frames over a socket: Connection::send of src/network/connection.cpp, sendAll of
-- src/network/tcp_socket.cpp and, on the other side, FrameReader::feed of src/network/protocol.cpp.
use lantalk.Common.{
  ℕ, ◌≡◌, refl, sym, ap, ◌∙◌, ◌⊎◌, inl, inr, List, [], ◌∷◌, ◌++◌, Bytes, append_assoc, flatten, All,
  take, drop, take-append-drop,
}
use lantalk.Network.Protocol.Header.{Frame, FrameHeader, serialize}
use lantalk.Network.Protocol.Reader.{
  Fed, fed, thrown, out_of_fuel, Heard, heard, feed, feed_all, prepend,
}
use lantalk.Network.Protocol.Reader.Chunks.{feed-append, feed_then, Fed-cases, feed_all-fed}
use lantalk.Network.Protocol.Reader.Delivery.{
  IsSendable, idle, stream, last_header, feed-stream, feed_all-stream, idle_waits,
}
use lantalk.Network.Socket.{
  TcpSocket, Kernel, Outcome, done, broken, out_of_fuel as no_fuel, send_all,
}
use lantalk.Network.Socket.Writing.{Obeys, Written, send_all-Written}

-- Two outcomes whose first has fed some frames, before later bytes.
prepend-fed :
    (gs : List Frame) (o : Fed) {r : _} {fs : List Frame}
    → prepend gs o ≡ fed r fs
    → (hs : List Frame) × (gs ++ hs ≡ fs)
prepend-fed gs (fed r' hs) e = (hs, cc)
prepend-fed gs (thrown v r') e = cc
prepend-fed gs out_of_fuel e = cc

-- What a reader returns from a first part of the bytes of some frames.
abbrev pub ReadsPrefix : Fed → List Frame → Type 0
ReadsPrefix o fs =
    (r : _) × (gs : List Frame) × (o ≡ fed r gs) × ((hs : List Frame) × (gs ++ hs ≡ fs))

pub feed-prefix :
    (max : ℕ) (h : FrameHeader) (fs : List Frame) (a b : Bytes)
    → All (IsSendable max) fs
    → a ++ b ≡ stream fs
    → ReadsPrefix (feed (idle max h) a) fs
feed-prefix max h fs a b s e =
    let whole : feed_then (feed (idle max h) a) b ≡ fed (idle max (last_header h fs)) fs =
      rw (feed-append (idle max h) a b) at (rw (← e) at (feed-stream max h fs s)) in
    elim (Fed-cases (feed (idle max h) a)) [
      | inl (r, gs, f) ↦ (r, gs, f, prepend-fed gs (feed r b) (rw f at whole))
      | inr (inl (v, r, f)) ↦ let bad = rw f at whole in cc
      | inr (inr f) ↦ let bad = rw f at whole in cc
    ]

abbrev pub HearsPrefix : Heard → List Frame → Type 0
HearsPrefix o fs =
    (r : _) × (gs : List Frame) × (o ≡ heard r gs) × ((hs : List Frame) × (gs ++ hs ≡ fs))

-- However the first part of a stream of frames is cut into chunks, and wherever that part ends, the
-- reader of the other side throws nothing and returns frames that were sent, from the first one on
-- and in order.
feed_all-prefix :
    (max : ℕ) (h : FrameHeader) (fs : List Frame) (chunks : List Bytes) (b : Bytes)
    → All (IsSendable max) fs
    → flatten chunks ++ b ≡ stream fs
    → HearsPrefix (feed_all (idle max h) chunks) fs
feed_all-prefix max h fs chunks b s e =
    let (r, gs, f, rest) = feed-prefix max h fs (flatten chunks) b s e in
    (r, gs, feed_all-fed chunks (idle max h) (idle_waits max h) f, rest)

-- Calls of Connection::send one after the other, up to one that fails, with what ::send returns in
-- each of them.
unfoldable pub send_each : ℕ → TcpSocket → List (Kernel × Frame) → Outcome × Bytes
unfolding send_all
send_each fuel s [] = (done, [])
send_each fuel s ((k, f) ∷ rest) =
    let later = send_each fuel s rest in
    let r = send_all fuel k s (serialize f) in
    elim r.0 [
      | done ↦ (later.0, r.1 ++ later.1)
      | broken ↦ (broken, r.1)
      | no_fuel ↦ (no_fuel, r.1)
    ]

abbrev pub frames_of : List (Kernel × Frame) → List Frame
frames_of [] = []
frames_of ((k, f) ∷ rest) = f ∷ frames_of rest

-- What is written of a stream: a first part, and all of it at the end.
abbrev WrittenPart : Bytes → Outcome × Bytes → Type 0
WrittenPart bytes r = ((b : Bytes) × (r.1 ++ b ≡ bytes)) × (r.0 ≡ done → r.1 ≡ bytes)

pub Outcome-cases : (o : Outcome) → (o ≡ done) ⊎ (o ≡ broken) ⊎ (o ≡ no_fuel)
Outcome-cases done = inl refl
Outcome-cases broken = inr (inl refl)
Outcome-cases no_fuel = inr (inr refl)

pub Written-part :
    (x y : Bytes) (r : Outcome × Bytes) → Written x r → (b : Bytes) × (r.1 ++ b ≡ x ++ y)
Written-part x y r ((m, e), _) =
    (drop m x ++ y, rw e (sym (append_assoc (take m x) (drop m x) y) ∙ rw (take-append-drop m x)))

send_each-written :
    (fuel : ℕ) (s : TcpSocket) (kfs : List (Kernel × Frame))
    → All (λ kf. Obeys kf.0) kfs
    → WrittenPart (stream (frames_of kfs)) (send_each fuel s kfs)
unfolding send_each
send_each-written fuel s [] ok = (([], refl), λ _. refl)
send_each-written fuel s ((k, f) ∷ rest) (ok, oks) =
    let r = send_all fuel k s (serialize f) in
    let w : Written (serialize f) r = send_all-Written k ok fuel s (serialize f) in
    let ((b, e), full) = send_each-written fuel s rest oks in
    let part = Written-part (serialize f) (stream (frames_of rest)) r w in
    elim (Outcome-cases r.0) [
      | inl d ↦
          let first : r.1 ≡ serialize f = w.1 d in
          rw (d, send_each)
            (
              (b, rw first (append_assoc (serialize f) _ b ∙ ap (◌++◌ (serialize f)) e)),
              λ g. rw first (ap (◌++◌ (serialize f)) (full g)),
            )
      | inr (inl d) ↦ rw (d, send_each) (part, λ g. cc)
      | inr (inr d) ↦ rw (d, send_each) (part, λ g. cc)
    ]

-- Whatever ::send returns, as long as it takes no more than it is offered: of frames that are sent
-- one after the other up to a failure, each well formed and within the limit of the reader on the
-- other side, that reader returns, for every way in which the bytes arrive in chunks, frames that
-- were sent, from the first one on and in order, and never throws; and it returns all of them if
-- every send returned true.
pub send_each-delivers :
    (fuel : ℕ) (s : TcpSocket) (kfs : List (Kernel × Frame)) (max : ℕ) (h : FrameHeader)
    (chunks : List Bytes)
    → All (λ kf. Obeys kf.0) kfs
    → All (IsSendable max) (frames_of kfs)
    → flatten chunks ≡ (send_each fuel s kfs).1
    → HearsPrefix (feed_all (idle max h) chunks) (frames_of kfs)
      × ((send_each fuel s kfs).0 ≡ done
          → feed_all (idle max h) chunks
            ≡ heard (idle max (last_header h (frames_of kfs))) (frames_of kfs))
send_each-delivers fuel s kfs max h chunks ok sendable e =
    let ((b, p), full) = send_each-written fuel s kfs ok in
    (
      feed_all-prefix max h (frames_of kfs) chunks b sendable (rw e p),
      λ d. feed_all-stream max h (frames_of kfs) chunks sendable (e ∙ full d),
    )
