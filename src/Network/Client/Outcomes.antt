-- ===== src/Network/Client/Outcomes.antt =====
-- TcpClient::connect of src/network/tcp_client.cpp: when it connects, and what it leaves open.
use lantalk.Common.{
  ℕ, ◌-◌, ◌*◌, ◌≡◌, refl, ◌↔◌, ◌⊎◌, inl, inr, Bool, true, false, List, [], ◌∷◌, ◌++◌, Option, none,
  some, arith, Bytes, codes, ◌==◌, Bool-cases, Option-cases,
}
use lantalk.Network.Socket.{to_handles, close, set_blocking, o_nonblock, nonblock_bit}
use lantalk.Network.Client.{
  Net, Dial, at_once, in_progress, dial_fails, Selected, ready, timed_out, select_fails, Outcome,
  connected, throws, Made, throw_early, throw_with, finish, flags_after, flags_unblocked,
  socket_error, await_connection, connect_socket, connect, resolve_hostname,
}

abbrev pub is_connected : Outcome → Bool
is_connected (connected s f) = true
is_connected (throws msg) = false

-- A throw leaves nothing open; a result holds what is open, and blocks as far as its flags are known.
abbrev pub IsTidy : List ℕ → List ℕ → Outcome → Type 0
IsTidy opened closed (throws msg) = closed ≡ opened
IsTidy opened closed (connected s f) =
    (closed ≡ []) × (opened ≡ to_handles s.handle) × ((n : ℕ) → f ≡ some n → nonblock_bit n ≡ 0)

-- What has to go well for a socket and an address.
abbrev pub Answers : Net → ℕ → ℕ → ℕ → Type 0
Answers net address port timeout =
    (net.dial address port ≡ at_once)
    ⊎ ((net.dial address port ≡ in_progress)
        × (net.wait_writable timeout ≡ ready)
        × (socket_error net ≡ 0))

abbrev pub Reaches : Net → Bytes → ℕ → ℕ → Type 0
Reaches net host port timeout =
    (a : ℕ) × (h : ℕ) × (net.getaddrinfo host ≡ some a)
    × (net.new_socket ≡ some h)
    × Answers net (net.inet_pton (net.inet_ntop a)) port timeout

Dial-cases : (o : Dial) → (o ≡ at_once) ⊎ (o ≡ in_progress) ⊎ (o ≡ dial_fails)
Dial-cases at_once = inl refl
Dial-cases in_progress = inr (inl refl)
Dial-cases dial_fails = inr (inr refl)

Selected-cases : (o : Selected) → (o ≡ ready) ⊎ (o ≡ timed_out) ⊎ (o ≡ select_fails)
Selected-cases ready = inl refl
Selected-cases timed_out = inr (inl refl)
Selected-cases select_fails = inr (inr refl)

abbrev IsGood : Type 0 → Made → Type 0
IsGood P m = IsTidy m.opened m.closed m.outcome × ((is_connected m.outcome ≡ true) ↔ P)

IsGood-by : (P : Type 0) (m n : Made) → m ≡ n → IsGood P n → IsGood P m
IsGood-by P m n e g = rw e g

clear_bit : (f : ℕ) → nonblock_bit (f - nonblock_bit f * o_nonblock) ≡ 0
clear_bit f = omega arith

blocking_after :
    (flags : Option ℕ) (h n : ℕ)
    → flags_after flags (set_blocking (record { handle = some h }) true flags) ≡ some n
    → nonblock_bit n ≡ 0
unfolding set_blocking
blocking_after none h n e = cc
blocking_after (some f) h n e =
    let same : f - nonblock_bit f * o_nonblock ≡ n = cc in rw (← same) (clear_bit f)

IsGood-throw_with :
    (P : Type 0) (h : ℕ) (d : List (ℕ × ℕ)) (msg : Bytes) → (P → ⊥) → IsGood P (throw_with h d msg)
unfolding throw_with close
IsGood-throw_with P h d msg q = (refl, ((λ e. cc), λ p. absurd (q p)))

IsGood-throw_early : (P : Type 0) (msg : Bytes) → (P → ⊥) → IsGood P (throw_early msg)
IsGood-throw_early P msg q = (refl, ((λ e. cc), λ p. absurd (q p)))

IsGood-finish :
    (P : Type 0) (h : ℕ) (flags : Option ℕ) (d : List (ℕ × ℕ)) → P → IsGood P (finish h flags d)
unfolding finish
IsGood-finish P h flags d p =
    ((refl, refl, λ n e. blocking_after flags h n e), ((λ _. p), λ _. refl))

await_connection-IsGood :
    (net : Net) (h address port : ℕ) (flags : Option ℕ) (d : List (ℕ × ℕ)) (timeout : ℕ)
    → net.dial address port ≡ in_progress
    → IsGood (Answers net address port timeout) (await_connection net h flags d timeout)
unfolding await_connection
await_connection-IsGood net h address port flags d timeout g =
    let m = await_connection net h flags d timeout in
    let P = Answers net address port timeout in
    elim (Selected-cases (net.wait_writable timeout)) [
      | inr (inl e) ↦
          IsGood-by P m (throw_with h d (codes "Connection timed out")) (rw (e, await_connection)) (
            IsGood-throw_with P h d (codes "Connection timed out")
              (elim [ inl a ↦ cc | inr (a, b, c) ↦ cc ]))
      | inr (inr e) ↦
          IsGood-by P m (throw_with h d (codes "Select error")) (rw (e, await_connection)) (
            IsGood-throw_with P h d (codes "Select error")
              (elim [ inl a ↦ cc | inr (a, b, c) ↦ cc ]))
      | inl e ↦ elim (Bool-cases (socket_error net == 0)) [
        | inl f ↦
            IsGood-by P m (finish h flags d) (rw (e, await_connection, f))
              (IsGood-finish P h flags d (inr (g, e, ground arith)))
        | inr f ↦
            IsGood-by P m (throw_with h d (codes "Connection refused"))
              (rw (e, await_connection, f))
              (IsGood-throw_with P h d (codes "Connection refused")
                (elim [ inl a ↦ cc | inr (a, b, c) ↦ ground arith ]))
      ]
    ]

connect_socket-IsGood :
    (net : Net) (h : ℕ) (ip : Bytes) (port timeout : ℕ)
    → IsGood (Answers net (net.inet_pton ip) port timeout) (connect_socket net h ip port timeout)
unfolding connect_socket
connect_socket-IsGood net h ip port timeout =
    let address = net.inet_pton ip in
    let P = Answers net address port timeout in
    let d : List (ℕ × ℕ) = (address, port) ∷ [] in
    let m = connect_socket net h ip port timeout in
    let flags = flags_unblocked net h in
    elim (Dial-cases (net.dial address port)) [
      | inl e ↦
          IsGood-by P m (finish h flags d) (rw (e, connect_socket))
            (IsGood-finish P h flags d (inl e))
      | inr (inl e) ↦
          IsGood-by P m (await_connection net h flags d timeout) (rw (e, connect_socket))
            (await_connection-IsGood net h address port flags d timeout e)
      | inr (inr e) ↦
          IsGood-by P m (throw_with h d (codes "Connect error: " ++ net.last_error))
            (rw (e, connect_socket))
            (IsGood-throw_with P h d (codes "Connect error: " ++ net.last_error)
              (elim [ inl a ↦ cc | inr (a, b, c) ↦ cc ]))
    ]

-- connect returns a socket exactly when the name resolves, a socket can be made and the address
-- answers, at once or writable within the timeout with no error pending. The socket that it returns
-- is the only one it opened, still open, and blocking again as far as fcntl told its flags; when it
-- throws, it has closed everything that it opened, once.
pub connect-outcome :
    (net : Net) (host : Bytes) (port timeout : ℕ)
    → let m = connect net host port timeout in
      IsTidy m.opened m.closed m.outcome
      × ((is_connected m.outcome ≡ true) ↔ Reaches net host port timeout)
unfolding connect resolve_hostname
connect-outcome net host port timeout =
    let m = connect net host port timeout in
    let P = Reaches net host port timeout in
    elim (Option-cases (net.getaddrinfo host)) [
      | inl e ↦
          IsGood-by P m (throw_early (codes "Failed to resolve hostname: " ++ host))
            (rw (e, connect, resolve_hostname))
            (IsGood-throw_early P (codes "Failed to resolve hostname: " ++ host)
              (λ (a, h, f, g, r). cc))
      | inr (a, e) ↦ elim (Option-cases net.new_socket) [
        | inl f ↦
            IsGood-by P m (throw_early (codes "Failed to create socket: " ++ net.last_error))
              (rw (e, f, connect, resolve_hostname))
              (IsGood-throw_early P (codes "Failed to create socket: " ++ net.last_error)
                (λ (a1, h, g1, g2, r). cc))
        | inr (h, f) ↦
            let good = connect_socket-IsGood net h (net.inet_ntop a) port timeout in
            let back : P
                → is_connected (connect_socket net h (net.inet_ntop a) port timeout).outcome
                  ≡ true =
              λ (a1, h1, g1, g2, r). let same : a1 ≡ a = cc in good.1.1 (rw same at r) in
            IsGood-by P m (connect_socket net h (net.inet_ntop a) port timeout)
              (rw (e, f, connect, resolve_hostname))
              (good.0, ((λ c. (a, h, e, f, good.1.0 c)), back))
      ]
    ]
