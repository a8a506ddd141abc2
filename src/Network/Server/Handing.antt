-- ===== src/Network/Server/Handing.antt =====
-- The detached threads of TcpServer::acceptLoop, src/network/tcp_server.cpp, and stop.
use lantalk.Common.{
  ℕ, zero, suc, ◌+◌, ◌≡◌, refl, ap, ◌∙◌, inl, inr, Bool, true, false, not, ◌&&◌, List, [], ◌∷◌,
  ◌++◌, Option, none, some, arith, map, append-nil, if◌then◌else◌, if_cases, All, Option-cases,
  get_elem?,
}
use lantalk.Network.Socket.Ownership.{count}
use lantalk.Network.Socket.Ownership.Balance.{count-append}
use lantalk.Network.Server.{
  Accepted, client, interrupted, accept_fails, Phase, no_thread, at_test, in_accept, returned,
  passed, TcpServer, new_server, start, stop, settle, hand_off, call_back, remove, accept_in,
  has_thread, Step, starts, stops, steps, calls, step, run,
}
use lantalk.Network.Server.Accepting.{handle_of, pending, run-IsAccounted, stop-IsAccounted}

-- The handles that went to a detached thread.
abbrev pub given : List (ℕ × Bool) → List ℕ
given [] = []
given ((h, b) ∷ rest) = let later = given rest in if b then h ∷ later else later

given-append : (xs ys : List (ℕ × Bool)) → given (xs ++ ys) ≡ given xs ++ given ys
given-append [] ys = refl
given-append ((h, true) ∷ xs) ys = ap (◌∷◌ h) (given-append xs ys)
given-append ((h, false) ∷ xs) ys = given-append xs ys

-- Each callback belongs to a connection that was handed to a detached thread, and to one only.
abbrev IsCalled : ℕ → TcpServer → Type 0
IsCalled h s = count h s.called + count h s.waiting ≡ count h (given s.settled)

count-remove :
    (h : ℕ) (xs : List ℕ) (i x : ℕ)
    → get_elem? xs i ≡ some x
    → count h (remove xs i) + count h (x ∷ []) ≡ count h xs
count-remove h [] i x e = cc
count-remove h (y ∷ ys) zero x e = let same : y ≡ x = ground arith in rw same (omega arith)
count-remove h (y ∷ ys) (suc i) x e = omega (arith, count-remove h ys i x e)

call_back-IsCalled : (h : ℕ) (s : TcpServer) (i : ℕ) → IsCalled h s → IsCalled h (call_back s i)
unfolding call_back
call_back-IsCalled h s i e = elim (Option-cases (get_elem? s.waiting i)) [
  | inl n ↦ rw (n, call_back) e
  | inr (x, n) ↦
      rw (n, call_back)
        (omega (arith, count-append h s.called (x ∷ []), count-remove h s.waiting i x n))
]

add-IsCalled : (h : ℕ) (s : TcpServer) (c : ℕ) → IsCalled h s → IsCalled h (hand_off s c)
unfolding hand_off
add-IsCalled h s c e =
    rw (given-append s.settled ((c, true) ∷ []))
      (omega (arith, count-append h s.waiting (c ∷ []), count-append h (given s.settled) (c ∷ [])))

settle-IsCalled : (h : ℕ) (s : TcpServer) (a : Accepted) → IsCalled h s → IsCalled h (settle s a)
unfolding settle
settle-IsCalled h s (client c) e =
    if_cases (IsCalled h) (s.running && s.has_callback) (λ _. e)
      (λ _. rw (given-append s.settled ((c, false) ∷ []), append-nil (given s.settled)) e)
settle-IsCalled h s interrupted e = e
settle-IsCalled h s accept_fails e = e

accept_in-IsCalled :
    (h : ℕ) (s : TcpServer) (r : Accepted) (p : Phase) → IsCalled h s → IsCalled h (accept_in s r p)
unfolding accept_in
accept_in-IsCalled h s r no_thread e = e
accept_in-IsCalled h s r at_test e = if_cases (IsCalled h) s.running (λ _. e) (λ _. e)
accept_in-IsCalled h s (client c) in_accept e = e
accept_in-IsCalled h s interrupted in_accept e = e
accept_in-IsCalled h s accept_fails in_accept e = e
accept_in-IsCalled h s r (returned a) e = settle-IsCalled h s a e
accept_in-IsCalled h s r (passed c) e = add-IsCalled h s c e

start-IsCalled :
    (h : ℕ) (s : TcpServer) (o : Option ℕ) (b l : Bool)
    → IsCalled h s
    → IsCalled h (start s o b l).0
unfolding start
start-IsCalled h s none b l e =
    if_cases {A = TcpServer × Bool} (λ p. IsCalled h p.0) s.running (λ _. e) (λ _. e)
start-IsCalled h s (some g) b l e =
    if_cases {A = TcpServer × Bool} (λ p. IsCalled h p.0) s.running (λ _. e)
      (λ _.
        if_cases {A = TcpServer × Bool} (λ p. IsCalled h p.0) (not b) (λ _. e)
          (λ _. if_cases {A = TcpServer × Bool} (λ p. IsCalled h p.0) (not l) (λ _. e) (λ _. e)))

stop-IsCalled : (h : ℕ) (s : TcpServer) → IsCalled h s → IsCalled h (stop s)
unfolding stop
stop-IsCalled h s e = if_cases (IsCalled h) s.running (λ _. e) (λ _. e)

step-IsCalled : (h : ℕ) (s : TcpServer) (x : Step) → IsCalled h s → IsCalled h (step s x)
unfolding step
step-IsCalled h s (starts o b l) e =
    if_cases (IsCalled h) (not s.running && has_thread s.acceptor) (λ _. e)
      (λ _. start-IsCalled h s o b l e)
step-IsCalled h s stops e = stop-IsCalled h s e
step-IsCalled h s (steps r) e = accept_in-IsCalled h s r s.acceptor e
step-IsCalled h s (calls i) e = call_back-IsCalled h s i e

run-IsCalled : (h : ℕ) (s : TcpServer) (xs : List Step) → IsCalled h s → IsCalled h (run s xs)
unfolding run
run-IsCalled h s [] e = e
run-IsCalled h s (x ∷ xs) e = run-IsCalled h (step s x) xs (step-IsCalled h s x e)

abbrev pub IsNoStart : Step → Type 0
IsNoStart (starts o b l) = ⊥
IsNoStart stops = Unit
IsNoStart (steps r) = Unit
IsNoStart (calls i) = Unit

-- The connection for which the accept thread has read `running_` as true, and not gone on yet.
abbrev pub cleared : Phase → List ℕ
cleared (passed h) = h ∷ []
cleared _ = []

-- The server is stopped, and these are what has been handed to detached threads and what will be.
abbrev HasGiven : List ℕ → TcpServer → Type 0
HasGiven g s = (s.running ≡ false) × (given s.settled ++ cleared s.acceptor ≡ g)

accept_in-HasGiven :
    (g : List ℕ) (s : TcpServer) (r : Accepted) (p : Phase)
    → s.acceptor ≡ p
    → (s.running ≡ false) × (given s.settled ++ cleared p ≡ g)
    → HasGiven g (accept_in s r p)
unfolding accept_in settle hand_off
accept_in-HasGiven g s r no_thread e h = rw e h
accept_in-HasGiven g s r at_test e h = if_cases (HasGiven g) s.running (λ _. h) (λ _. h)
accept_in-HasGiven g s (client c) in_accept e h = h
accept_in-HasGiven g s interrupted in_accept e h = h
accept_in-HasGiven g s accept_fails in_accept e h = h
accept_in-HasGiven g s r (returned interrupted) e h = h
accept_in-HasGiven g s r (returned accept_fails) e h = h
accept_in-HasGiven g s r (returned (client c)) e (q, h) = rw q (
  refl,
  ap (λ z. z ++ []) (given-append s.settled ((c, false) ∷ []) ∙ append-nil (given s.settled)) ∙ h,
)
accept_in-HasGiven g s r (passed c) e (q, h) =
    (q, append-nil _ ∙ given-append s.settled ((c, true) ∷ []) ∙ h)

step-HasGiven :
    (g : List ℕ) (s : TcpServer) (x : Step) → IsNoStart x → HasGiven g s → HasGiven g (step s x)
unfolding step stop call_back
step-HasGiven g s (starts o b l) n h = absurd n
step-HasGiven g s stops n h = if_cases (HasGiven g) s.running (λ _. (refl, h.1)) (λ _. h)
step-HasGiven g s (steps r) n h = accept_in-HasGiven g s r s.acceptor refl h
step-HasGiven g s (calls i) n h = elim (Option-cases (get_elem? s.waiting i)) [
  | inl e ↦ rw (e, call_back) h
  | inr (c, e) ↦ rw (e, call_back) h
]

run-HasGiven :
    (g : List ℕ) (s : TcpServer) (xs : List Step)
    → All IsNoStart xs
    → HasGiven g s
    → HasGiven g (run s xs)
unfolding run
run-HasGiven g s [] n h = h
run-HasGiven g s (x ∷ xs) (n, ns) h = run-HasGiven g (step s x) xs ns (step-HasGiven g s x n h)

stop-HasGiven : (s : TcpServer) → HasGiven (given s.settled ++ cleared s.acceptor) (stop s)
unfolding stop
stop-HasGiven s =
    if_cases (HasGiven (given s.settled ++ cleared s.acceptor)) s.running (λ _. (refl, refl))
      (λ e. (e, refl))

-- In every interleaving of the accept thread's steps and the detached threads' with starts and stops:
-- the connections that ::accept returned are each handed to a detached thread or closed, once and in
-- order, but for one that the accept thread has just got; and the callback is called at most once for
-- each that was handed over, and for no other. From a stop on, until the next start, the server does
-- not run and hands over nothing more, but for one connection that had passed the test of `running_`
-- before.
pub run-accounted :
    (callback : Bool) (before after : List Step)
    → All IsNoStart after
    → let s = run (new_server callback) before in
      let t = run (stop s) after in
      (t.accepted ≡ map handle_of t.settled ++ pending t.acceptor)
      × ((h : ℕ) → count h t.called + count h t.waiting ≡ count h (given t.settled))
      × (t.running ≡ false)
      × (given t.settled ++ cleared t.acceptor ≡ given s.settled ++ cleared s.acceptor)
run-accounted callback before after n =
    let s = run (new_server callback) before in
    let a = stop-IsAccounted s (run-IsAccounted (new_server callback) before refl) in
    let g = run-HasGiven _ (stop s) after n (stop-HasGiven s) in
    (
      run-IsAccounted (stop s) after a,
      λ h.
          run-IsCalled h (stop s) after
            (stop-IsCalled h s (run-IsCalled h (new_server callback) before (omega arith))),
      g.0,
      g.1,
    )
