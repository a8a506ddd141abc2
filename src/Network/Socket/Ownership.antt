-- ===== src/Network/Socket/Ownership.antt =====
-- The objects of class TcpSocket (src/network/tcp_socket.cpp) in a program that constructs, moves,
-- assigns, closes and releases them.
pub mod Balance
use lantalk.Common.{
  ℕ, zero, suc, ◌+◌, List, [], ◌∷◌, ◌++◌, none, some, ◌==◌, get_elem?, if◌then◌else◌,
}
use lantalk.Network.Socket.{TcpSocket, to_handles, close, move_construct, move_assign, release}

abbrev pub count : ℕ → List ℕ → ℕ
count h [] = 0
count h (x ∷ xs) = let rest = count h xs in (if h == x then 1 else 0) + rest

abbrev pub set_elem : List TcpSocket → ℕ → TcpSocket → List TcpSocket
set_elem [] i y = []
set_elem (x ∷ xs) zero y = y ∷ xs
set_elem (x ∷ xs) (suc i) y = x ∷ set_elem xs i y

-- The objects, with a destroyed one left in its place, the handles that sockets were constructed
-- from, and those that went to ::close and to the callers of release.
pub record Sockets : Type 0 where
  pub objects : List TcpSocket
  pub opened : List ℕ
  pub closed : List ℕ
  pub released : List ℕ

abbrev pub no_sockets : Sockets
no_sockets = record { objects = []; opened = []; closed = []; released = [] }

-- What a program does with the objects, which are named by their positions.
pub data Act : Type 0 where
  constructs : ℕ → Act
  moves : ℕ → Act
  assigns : ℕ → ℕ → Act
  closes : ℕ → Act
  releases : ℕ → Act
  destroys : ℕ → Act

abbrev pub close_at : Sockets → ℕ → Sockets
close_at s i = elim (get_elem? s.objects i) [
  | none ↦ s
  | some x ↦ record s {
    objects = set_elem s.objects i (close x).0;
    closed = s.closed ++ (close x).1;
  }
]

abbrev pub move_at : Sockets → ℕ → Sockets
move_at s i = elim (get_elem? s.objects i) [
  | none ↦ s
  | some x ↦ record s {
    objects = set_elem s.objects i (move_construct x).1 ++ (move_construct x).0 ∷ [];
  }
]

abbrev pub assign_two : Sockets → ℕ → ℕ → TcpSocket → TcpSocket → Sockets
assign_two s i j x y =
    let (x1, y1, gone) = move_assign x y in
    record s { objects = set_elem (set_elem s.objects i x1) j y1; closed = s.closed ++ gone }

-- The test is `this != &other`.
abbrev pub assign_at : Sockets → ℕ → ℕ → Sockets
assign_at s i j = elim (get_elem? s.objects i) [
  | none ↦ s
  | some x ↦ elim (get_elem? s.objects j) [
    | none ↦ s
    | some y ↦ if i == j then s else assign_two s i j x y
  ]
]

abbrev pub release_at : Sockets → ℕ → Sockets
release_at s i = elim (get_elem? s.objects i) [
  | none ↦ s
  | some x ↦ record s {
    objects = set_elem s.objects i (release x).0;
    released = s.released ++ to_handles (release x).1;
  }
]

unfoldable pub act : Sockets → Act → Sockets
unfolding close move_construct move_assign release
act s (constructs h) = record s {
  objects = s.objects ++ record { handle = some h } ∷ [];
  opened = s.opened ++ h ∷ [];
}
act s (moves i) = move_at s i
act s (assigns i j) = assign_at s i j
act s (closes i) = close_at s i
act s (releases i) = release_at s i
act s (destroys i) = close_at s i

unfoldable pub run_acts : Sockets → List Act → Sockets
unfolding act
run_acts s [] = s
run_acts s (a ∷ acts) = run_acts (act s a) acts

abbrev pub held : List TcpSocket → List ℕ
held [] = []
held (x ∷ xs) = to_handles x.handle ++ held xs
