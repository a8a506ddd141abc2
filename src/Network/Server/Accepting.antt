-- ===== src/Network/Server/Accepting.antt =====
-- TcpServer::acceptLoop and stop of src/network/tcp_server.cpp: what becomes of accepted connections.
use lantalk.Common.{
  ℕ, inl, inr, Option-cases, get_elem?, ◌≡◌, refl, sym, ap, ◌∙◌, Bool, true, false, not, ◌&&◌, List,
  [], ◌∷◌, ◌++◌, Option, none, some, map, append-nil, if_cases,
}
use lantalk.Network.Server.{
  Accepted, client, interrupted, accept_fails, Phase, no_thread, at_test, in_accept, returned,
  passed, hand_off, call_back, calls, TcpServer, start, stop, settle, note_accepted, accept_in,
  has_thread, Step, starts, stops, steps, step, run,
}

abbrev pub handle_of : ℕ × Bool → ℕ
handle_of p = p.0

abbrev pub pending : Phase → List ℕ
pending no_thread = []
pending at_test = []
pending in_accept = []
pending (returned (client h)) = h ∷ []
pending (returned interrupted) = []
pending (returned accept_fails) = []
pending (passed h) = h ∷ []

-- What is settled is what was accepted, in order, but for a handle that the thread has just got.
abbrev pub IsAccounted : TcpServer → Type 0
IsAccounted s = s.accepted ≡ map handle_of s.settled ++ pending s.acceptor

map-append :
    (xs ys : List (ℕ × Bool)) → map handle_of (xs ++ ys) ≡ map handle_of xs ++ map handle_of ys
map-append [] ys = refl
map-append (x ∷ xs) ys = ap (◌∷◌ (handle_of x)) (map-append xs ys)

-- A start, or a stop, leaves what was accepted and settled, and starts a thread only where none is.
start-IsAccounted :
    (s : TcpServer) (o : Option ℕ) (b l : Bool)
    → (s.running ≡ false → pending s.acceptor ≡ [])
    → IsAccounted s
    → IsAccounted (start s o b l).0
unfolding start
start-IsAccounted s none b l e h =
    if_cases {A = TcpServer × Bool} (λ p. IsAccounted p.0) s.running (λ _. h) (λ _. h)
start-IsAccounted s (some g) b l e h =
    if_cases {A = TcpServer × Bool} (λ p. IsAccounted p.0) s.running (λ _. h)
      (λ q.
        if_cases {A = TcpServer × Bool} (λ p. IsAccounted p.0) (not b) (λ _. h)
          (λ _.
            if_cases {A = TcpServer × Bool} (λ p. IsAccounted p.0) (not l) (λ _. h)
              (λ _. rw (e q) at h)))

pub stop-IsAccounted : (s : TcpServer) → IsAccounted s → IsAccounted (stop s)
unfolding stop
stop-IsAccounted s h = if_cases IsAccounted s.running (λ _. h) (λ _. h)

add-IsAccounted :
    (s : TcpServer) (h : ℕ) (b : Bool)
    → s.accepted ≡ map handle_of s.settled ++ h ∷ []
    → s.accepted ≡ map handle_of (s.settled ++ (h, b) ∷ []) ++ []
add-IsAccounted s h b e = e ∙ sym (append-nil _ ∙ map-append s.settled ((h, b) ∷ []))

settle-IsAccounted :
    (s : TcpServer) (a : Accepted)
    → s.accepted ≡ map handle_of s.settled ++ pending (returned a)
    → IsAccounted (settle s a)
unfolding settle
settle-IsAccounted s (client h) e =
    if_cases IsAccounted (s.running && s.has_callback) (λ _. e) (λ _. add-IsAccounted s h false e)
settle-IsAccounted s interrupted e = e
settle-IsAccounted s accept_fails e = e

returned-IsAccounted :
    (s : TcpServer) (a : Accepted)
    → s.accepted ≡ map handle_of s.settled ++ []
    → IsAccounted (record (note_accepted s a) { acceptor = returned a })
returned-IsAccounted s (client h) e = ap (λ xs. xs ++ h ∷ []) (e ∙ append-nil _)
returned-IsAccounted s interrupted e = e
returned-IsAccounted s accept_fails e = e

accept_in-IsAccounted :
    (s : TcpServer) (r : Accepted) (p : Phase)
    → s.acceptor ≡ p
    → s.accepted ≡ map handle_of s.settled ++ pending p
    → IsAccounted (accept_in s r p)
unfolding accept_in hand_off
accept_in-IsAccounted s r no_thread e h = rw e h
accept_in-IsAccounted s r at_test e h = if_cases IsAccounted s.running (λ _. h) (λ _. h)
accept_in-IsAccounted s r in_accept e h = returned-IsAccounted s r h
accept_in-IsAccounted s r (returned a) e h = settle-IsAccounted s a h
accept_in-IsAccounted s r (passed c) e h = add-IsAccounted s c true h

has_thread-pending : (p : Phase) → has_thread p ≡ false → pending p ≡ []
has_thread-pending no_thread e = refl
has_thread-pending at_test e = cc
has_thread-pending in_accept e = cc
has_thread-pending (returned a) e = cc
has_thread-pending (passed h) e = cc

step-IsAccounted : (s : TcpServer) (x : Step) → IsAccounted s → IsAccounted (step s x)
unfolding step call_back
step-IsAccounted s (starts o b l) h =
    if_cases IsAccounted (not s.running && has_thread s.acceptor) (λ _. h)
      (λ g. start-IsAccounted s o b l (λ e. has_thread-pending s.acceptor (rw e at g)) h)
step-IsAccounted s stops h = stop-IsAccounted s h
step-IsAccounted s (steps r) h = accept_in-IsAccounted s r s.acceptor refl h
step-IsAccounted s (calls i) h = elim (Option-cases (get_elem? s.waiting i)) [
  | inl e ↦ rw (e, call_back) h
  | inr (c, e) ↦ rw (e, call_back) h
]

pub run-IsAccounted : (s : TcpServer) (xs : List Step) → IsAccounted s → IsAccounted (run s xs)
unfolding run
run-IsAccounted s [] h = h
run-IsAccounted s (x ∷ xs) h = run-IsAccounted (step s x) xs (step-IsAccounted s x h)
