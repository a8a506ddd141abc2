-- ===== src/Network/Socket/Writing.antt =====
-- TcpSocket::sendAll of src/network/tcp_socket.cpp: what it writes, and when it ends.
use lantalk.Common.{
  ℕ, zero, suc, ◌+◌, ◌≤◌, ◌<◌, ◌≡◌, refl, ◌≢◌, ◌⊎◌, inl, inr, true, false, arith, Bytes, ltb,
  ltb→lt, if_cases, Bool-cases, length, take, drop, length-drop, take_all, take-add,
}
use lantalk.Network.Socket.{
  TcpSocket, is_valid, Sent, accepted, retry, failed, Kernel, Outcome, done, send_loop, send_all,
}

-- Documented of ::send: it takes no more than it is offered.
abbrev pub Obeys : Kernel → Type 0
Obeys k = (i : ℕ) (bytes : Bytes) (n : ℕ) → k i bytes ≡ accepted n → n ≤ length bytes

pub Sent-cases : (o : Sent) → ((n : ℕ) × (o ≡ accepted n)) ⊎ (o ≡ retry) ⊎ (o ≡ failed)
Sent-cases (accepted n) = inl (n, refl)
Sent-cases retry = inr (inl refl)
Sent-cases failed = inr (inr refl)

-- What is written is a part from the start; all of it, if the loop is done.
abbrev pub Written : Bytes → Outcome × Bytes → Type 0
Written bytes r = ((m : ℕ) × (r.1 ≡ take m bytes)) × (r.0 ≡ done → r.1 ≡ bytes)

-- In this round, some of whatever is offered is taken.
abbrev pub Progresses : Kernel → ℕ → Type 0
Progresses k i = (s : Bytes) → 0 < length s → (n : ℕ) × (k i s ≡ accepted n) × (0 < n)

module _ (k : Kernel) (ok : Obeys k) where
  pub within :
      (i : ℕ) (bytes : Bytes) (total n : ℕ)
      → total ≤ length bytes
      → k i (drop total bytes) ≡ accepted n
      → total + n ≤ length bytes
  within i bytes total n h f =
      let u = ok i (drop total bytes) n f in omega (arith, u, h, length-drop total bytes)

  send_loop-Written :
      (fuel i : ℕ) (bytes : Bytes) (total : ℕ)
      → total ≤ length bytes
      → Written bytes (send_loop fuel k i bytes total (take total bytes))
  unfolding send_loop
  send_loop-Written zero i bytes total h = ((total, refl), λ e. cc)
  send_loop-Written (suc fuel) i bytes total h = elim (Bool-cases (ltb total (length bytes))) [
    | inr e ↦ rw e ((total, refl), λ _. take_all total bytes (ground arith))
    | inl e ↦ rw e (elim (Sent-cases (k i (drop total bytes))) [
      | inl (n, f) ↦
          rw (f, send_loop)
            (rw (take-add total n bytes)
              (send_loop-Written fuel (i + 1) bytes (total + n) (within i bytes total n h f)))
      | inr (inl f) ↦ rw (f, send_loop) (send_loop-Written fuel (i + 1) bytes total h)
      | inr (inr f) ↦ rw (f, send_loop) ((total, refl), λ p. cc)
    ])
  ]

  -- Whatever ::send returns, and for however many rounds, sendAll has written a part of the bytes from
  -- their start, each once and in order, and all of them if it returns true.
  pub send_all-Written :
      (fuel : ℕ) (s : TcpSocket) (bytes : Bytes) → Written bytes (send_all fuel k s bytes)
  unfolding send_all
  send_all-Written fuel s bytes =
      if_cases (Written bytes) (is_valid s) (λ _. send_loop-Written fuel 0 bytes 0 (omega arith))
        (λ _. ((0, refl), λ e. cc))

  -- The rounds left from here on are enough.
  abbrev Finishes : ℕ → Bytes → ℕ → Type 0
  Finishes i bytes total =
      (fuel : ℕ) × (send_loop fuel k i bytes total (take total bytes) ≡ (done, bytes))

  Finishes-end : (i : ℕ) (bytes : Bytes) (total : ℕ) → length bytes ≤ total → Finishes i bytes total
  unfolding send_loop
  Finishes-end i bytes total h = (
    1,
    let e : ltb total (length bytes) ≡ false = ground arith in rw (e, take_all total bytes h) refl,
  )

  Finishes-accepted :
      (i : ℕ) (bytes : Bytes) (total n : ℕ)
      → total < length bytes
      → k i (drop total bytes) ≡ accepted n
      → Finishes (i + 1) bytes (total + n)
      → Finishes i bytes total
  unfolding send_loop
  Finishes-accepted i bytes total n h f (fuel, e) = (
    suc fuel,
    let l : ltb total (length bytes) ≡ true = ground arith in
        rw (l, f) (rw (take-add total n bytes) e),
  )

  Finishes-retry :
      (i : ℕ) (bytes : Bytes) (total : ℕ)
      → total < length bytes
      → k i (drop total bytes) ≡ retry
      → Finishes (i + 1) bytes total
      → Finishes i bytes total
  unfolding send_loop
  Finishes-retry i bytes total h f (fuel, e) =
      (suc fuel, let l : ltb total (length bytes) ≡ true = ground arith in rw (l, f) e)

  module _ (healthy : (i : ℕ) (s : Bytes) → k i s ≢ failed) where
    -- Up to a round that progresses, when what is left after any progress finishes.
    Finishes-within :
        (d i : ℕ) (bytes : Bytes) (total : ℕ)
        → total < length bytes
        → Progresses k (i + d)
        → ((j n : ℕ) → 0 < n → total + n ≤ length bytes → Finishes j bytes (total + n))
        → Finishes i bytes total
    Finishes-within zero i bytes total h p next =
        let e : i + 0 ≡ i = omega arith in
        let l : 0 < length (drop total bytes) = omega (arith, h, length-drop total bytes) in
        let (n, f, g) = (simp e at p) (drop total bytes) l in
        Finishes-accepted i bytes total n h f
          (next (i + 1) n g (within i bytes total n (omega arith) f))
    Finishes-within (suc d) i bytes total h p next =
        let e : i + suc d ≡ i + 1 + d = omega arith in
        let later = Finishes-within d (i + 1) bytes total h (simp e at p) next in
        elim (Sent-cases (k i (drop total bytes))) [
          | inl (zero, f) ↦
              let z : total + 0 ≡ total = omega arith in
              Finishes-accepted i bytes total 0 h f (rw z later)
          | inl (suc n, f) ↦
              Finishes-accepted i bytes total (suc n) h f
                (next (i + 1) (suc n) (omega arith) (within i bytes total (suc n) (omega arith) f))
          | inr (inl f) ↦ Finishes-retry i bytes total h f later
          | inr (inr f) ↦ absurd (healthy i (drop total bytes) f)
        ]

    module _ (fair : (i : ℕ) → (d : ℕ) × Progresses k (i + d)) where
      Finishes-all :
          (m i : ℕ) (bytes : Bytes) (total : ℕ) → length bytes ≤ total + m → Finishes i bytes total
      Finishes-all zero i bytes total h = Finishes-end i bytes total (omega arith)
      Finishes-all (suc m) i bytes total h = elim (Bool-cases (ltb total (length bytes))) [
        | inl l ↦
            let (d, p) = fair i in
            Finishes-within d i bytes total (ltb→lt total (length bytes) l) p
              (λ j n g _. Finishes-all m j bytes (total + n) (omega arith))
        | inr l ↦ Finishes-end i bytes total (ground arith)
      ]

      -- If ::send takes no more than it is offered and no call of it fails, and from every round on
      -- there is one that takes some of whatever it is offered, then sendAll on a valid socket
      -- returns true, with all the bytes written.
      pub send_all-terminates :
          (s : TcpSocket) (bytes : Bytes)
          → is_valid s ≡ true
          → (fuel : ℕ) × (send_all fuel k s bytes ≡ (done, bytes))
      unfolding send_all
      send_all-terminates s bytes v =
          let (fuel, e) = Finishes-all (length bytes) 0 bytes 0 (omega arith) in (fuel, rw v e)
