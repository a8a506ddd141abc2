-- ===== src/Examples/Sockets.antt =====
-- Sockets, the client and the server (src/network/tcp_socket.cpp, tcp_client.cpp, tcp_server.cpp) at
-- concrete inputs.
use lantalk.Common.{
  ℕ, ◌+◌, ◌%◌, ◌≤◌, ◌≡◌, refl, ap, ◌∙◌, append-nil, take-append-drop, ◌≢◌, ◌↔◌, inl, inr, true,
  false, List, [], ◌∷◌, ◌++◌, some, arith, Bytes, codes, ◌==◌, if◌then◌else◌, Bool-cases, take,
  drop, flatten, All, map,
}
use lantalk.Network.Protocol.Types.{ping, chat_message}
use lantalk.Network.Protocol.Header.{Frame, default_header, create, serialize}
use lantalk.Network.Protocol.Reader.{heard, feed_all}
use lantalk.Network.Protocol.Reader.Delivery.{IsSendable, idle, create-IsSendable}
use lantalk.Network.Socket.{
  TcpSocket, accepted, retry, failed, Kernel, Outcome, done, broken, out_of_fuel, send_loop,
  send_all, is_valid,
}
use lantalk.Network.Socket.Writing.{Obeys, Progresses, send_all-terminates}
use lantalk.Network.Socket.Delivery.{send_each, frames_of}
use lantalk.Network.Connection.{Connection, new_connection}
use lantalk.Network.Connection.Carried.{carried, carried-reads}
use lantalk.Network.Socket.Ownership.{
  Act, constructs, moves, assigns, closes, destroys, count, held, no_sockets, run_acts,
}
use lantalk.Network.Socket.Ownership.Balance.{run_acts-balanced}
use lantalk.Network.Client.{Net, in_progress, ready, connect}
use lantalk.Network.Client.Outcomes.{IsTidy, is_connected, Reaches, connect-outcome}
use lantalk.Network.Server.{
  client, interrupted, new_server, start, stop, settle, hand_off, call_back, accept_in, Step,
  starts, stops, steps, calls, step, run,
}
use lantalk.Network.Server.Accepting.{handle_of, pending}
use lantalk.Network.Server.Handing.{given, cleared, run-accounted}

abbrev open_socket : TcpSocket
open_socket = record { handle = some 7 }

-- A system that is interrupted in every other round and else takes one byte.
abbrev drip : Kernel
drip i [] = accepted 0
drip i (x ∷ s) = if i % 2 == 1 then accepted 1 else retry

taken_injective : {m n : ℕ} → accepted m ≡ accepted n → m ≡ n
taken_injective e = cc

drip-Obeys : Obeys drip
drip-Obeys i [] n e = let same : 0 ≡ n = taken_injective e in omega arith
drip-Obeys i (x ∷ s) n e = elim (Bool-cases (i % 2 == 1)) [
  | inl h ↦ let same : 1 ≡ n = taken_injective (rw h at e) in omega arith
  | inr h ↦ let bad : retry ≡ accepted n = rw h at e in cc
]

drip-healthy : (i : ℕ) (s : Bytes) → drip i s ≢ failed
drip-healthy i [] e = cc
drip-healthy i (x ∷ s) e = elim (Bool-cases (i % 2 == 1)) [
  | inl h ↦ let bad : accepted 1 ≡ failed = rw h at e in cc
  | inr h ↦ let bad : retry ≡ failed = rw h at e in cc
]

drip-odd : (i : ℕ) → (i % 2 == 1) ≡ true → Progresses drip i
drip-odd i h [] l = absurd (omega arith)
drip-odd i h (x ∷ s) l = (1, rw h refl, omega arith)

drip-fair : (i : ℕ) → (d : ℕ) × Progresses drip (i + d)
drip-fair i = elim (Bool-cases ((i + 0) % 2 == 1)) [
  | inl h ↦ (0, drip-odd (i + 0) h)
  | inr h ↦ (1, drip-odd (i + 1) (ground arith))
]

send_all-terminates_example :
    (fuel : ℕ) × (send_all fuel drip open_socket (codes "hello") ≡ (done, codes "hello"))
unfolding is_valid
send_all-terminates_example =
    send_all-terminates drip drip-Obeys drip-healthy drip-fair open_socket (codes "hello") refl

-- A system that takes two bytes and then has lost the connection.
abbrev lost : Kernel
lost i (x ∷ y ∷ s) = if i == 0 then accepted 2 else failed
lost i _ = failed

lost-Obeys : Obeys lost
lost-Obeys i [] n e = let bad : failed ≡ accepted n = e in cc
lost-Obeys i (x ∷ []) n e = let bad : failed ≡ accepted n = e in cc
lost-Obeys i (x ∷ y ∷ s) n e = elim (Bool-cases (i == 0)) [
  | inl h ↦ let same : 2 ≡ n = taken_injective (rw h at e) in omega arith
  | inr h ↦ let bad : failed ≡ accepted n = rw h at e in cc
]

-- The first frame is written byte by byte, the second one is cut off.
abbrev two_sends : List (Kernel × Frame)
two_sends = (drip, create ping (codes "{}")) ∷ (lost, create chat_message (codes "hi")) ∷ []

two_sends-IsSendable : All (IsSendable 65536) (frames_of two_sends)
two_sends-IsSendable = (
  create-IsSendable 65536 ping (codes "{}") (omega arith) (omega arith),
  (create-IsSendable 65536 chat_message (codes "hi") (omega arith) (omega arith), tt),
)

two_sends-broken : (send_each 40 open_socket two_sends).0 ≡ broken
unfolding send_each send_all send_loop is_valid serialize create
two_sends-broken = refl

abbrev written : Bytes
written = (send_each 40 open_socket two_sends).1

abbrev written_chunks : List Bytes
written_chunks = take 3 written ∷ drop 3 written ∷ []

written_chunks-flatten : flatten written_chunks ≡ written
written_chunks-flatten =
    ap (λ s. take 3 written ++ s) (append-nil (drop 3 written)) ∙ take-append-drop 3 written

abbrev talking : Connection
talking = record (new_connection 65536 true) { running = true }

broken-ends : {o : Outcome} → o ≡ broken → o ≢ out_of_fuel
broken-ends e f = cc

carried-reads_example :
    (r : _) × (gs : List Frame) × (feed_all (idle 65536 default_header) written_chunks ≡ heard r gs)
    × ((carried 40 open_socket talking two_sends).sent ≡ gs)
unfolding is_valid
carried-reads_example =
    carried-reads 40 open_socket talking two_sends 65536 default_header written_chunks refl refl
      (drip-Obeys, (lost-Obeys, tt)) two_sends-IsSendable (broken-ends two_sends-broken)
      written_chunks-flatten

-- Two sockets, one assigned to the other; one handle is closed by the assignment, one at the end.
abbrev six_acts : List Act
six_acts = constructs 7 ∷ constructs 8 ∷ moves 0 ∷ assigns 1 2 ∷ closes 1 ∷ destroys 2 ∷ []

run_acts-balanced_example :
    let s = run_acts no_sockets six_acts in
    (count 7 s.opened ≡ count 7 (held s.objects) + count 7 s.closed + count 7 s.released)
    × (count 7 s.opened ≤ 1
        → (count 7 s.closed ≤ 1) × (count 7 s.closed ≡ 1 → count 7 (held s.objects) ≡ 0))
run_acts-balanced_example = run_acts-balanced six_acts 7

-- A host that answers after a while.
abbrev slow_host : Net
slow_host = record {
  getaddrinfo = λ host. some 167772162;
  inet_ntop = λ a. codes "10.0.0.2";
  inet_pton = λ ip. 167772162;
  new_socket = some 5;
  new_flags = some 2;
  dial = λ address port. in_progress;
  wait_writable = λ seconds. ready;
  so_error = some 0;
  last_error = [];
}

connect-outcome_example :
    let m = connect slow_host (codes "ada") 5050 10 in
    IsTidy m.opened m.closed m.outcome
    × ((is_connected m.outcome ≡ true) ↔ Reaches slow_host (codes "ada") 5050 10)
connect-outcome_example = connect-outcome slow_host (codes "ada") 5050 10

-- Two connections: one is handed over, and one has passed the test as the server stops. Both callbacks come after the stop.
abbrev opening : List Step
opening =
    starts (some 3) true true
    ∷ steps interrupted
    ∷ steps (client 11)
    ∷ steps interrupted
    ∷ steps interrupted
    ∷ steps interrupted
    ∷ steps (client 12)
    ∷ steps interrupted
    ∷ []

abbrev closing : List Step
closing = calls 0 ∷ steps interrupted ∷ calls 0 ∷ steps interrupted ∷ stops ∷ []

run-accounted_example :
    let s = run (new_server true) opening in
    let t = run (stop s) closing in
    (t.accepted ≡ map handle_of t.settled ++ pending t.acceptor)
    × ((h : ℕ) → count h t.called + count h t.waiting ≡ count h (given t.settled))
    × (t.running ≡ false)
    × (given t.settled ++ cleared t.acceptor ≡ given s.settled ++ cleared s.acceptor)
run-accounted_example = run-accounted true opening closing (tt, (tt, (tt, (tt, (tt, tt)))))

-- The two callbacks of that run come behind the stop.
called_late :
    let s = run (new_server true) opening in
    (s.called ≡ []) × ((run (stop s) closing).called ≡ 11 ∷ 12 ∷ [])
unfolding run step start stop accept_in settle hand_off call_back
called_late = (refl, refl)
