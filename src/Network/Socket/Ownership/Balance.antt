-- ===== src/Network/Socket/Ownership/Balance.antt =====
-- What becomes of the handles of class TcpSocket (src/network/tcp_socket.cpp).
use lantalk.Common.{
  ℕ, zero, suc, ◌+◌, ◌≤◌, ◌≡◌, refl, ap, ◌∙◌, ◌≢◌, inl, inr, List, [], ◌∷◌, ◌++◌, some, arith, ◌==◌,
  Bool-cases, Option-cases, get_elem?,
}
use lantalk.Network.Socket.{
  TcpSocket, invalid_socket, to_handles, close, move_construct, move_assign, release,
}
use lantalk.Network.Socket.Ownership.{
  count, set_elem, Sockets, no_sockets, Act, constructs, moves, assigns, closes, releases, destroys,
  close_at, move_at, assign_two, assign_at, release_at, act, run_acts, held,
}

pub count-append : (h : ℕ) (xs ys : List ℕ) → count h (xs ++ ys) ≡ count h xs + count h ys
count-append h [] ys = omega arith
count-append h (x ∷ xs) ys = ground (arith, count-append h xs ys)

-- Every handle was constructed from as often as it is held, closed and released together.
abbrev pub IsBalanced : ℕ → Sockets → Type 0
IsBalanced h s = count h s.opened ≡ count h (held s.objects) + count h s.closed + count h s.released

count-held_append :
    (h : ℕ) (xs ys : List TcpSocket)
    → count h (held (xs ++ ys)) ≡ count h (held xs) + count h (held ys)
count-held_append h [] ys = omega arith
count-held_append h (x ∷ xs) ys =
    rw
      (
        count-append h (to_handles x.handle) (held (xs ++ ys)),
        count-append h (to_handles x.handle) (held xs),
      )
      (omega (arith, count-held_append h xs ys))

count-set_elem :
    (h : ℕ) (xs : List TcpSocket) (i : ℕ) (x y : TcpSocket)
    → get_elem? xs i ≡ some x
    → count h (held (set_elem xs i y)) + count h (to_handles x.handle)
      ≡ count h (held xs) + count h (to_handles y.handle)
count-set_elem h [] i x y e = cc
count-set_elem h (z ∷ xs) zero x y e =
    let same : z ≡ x = cc in
    rw
      (
        same,
        count-append h (to_handles x.handle) (held xs),
        count-append h (to_handles y.handle) (held xs),
      )
      (omega arith)
count-set_elem h (z ∷ xs) (suc i) x y e =
    rw
      (
        count-append h (to_handles z.handle) (held xs),
        count-append h (to_handles z.handle) (held (set_elem xs i y)),
      )
      (omega (arith, count-set_elem h xs i x y e))

get_elem?-set_elem :
    (xs : List TcpSocket) (i j : ℕ) (y : TcpSocket)
    → i ≢ j
    → get_elem? (set_elem xs i y) j ≡ get_elem? xs j
get_elem?-set_elem [] i j y h = refl
get_elem?-set_elem (x ∷ xs) zero zero y h = absurd (h refl)
get_elem?-set_elem (x ∷ xs) zero (suc j) y h = refl
get_elem?-set_elem (x ∷ xs) (suc i) zero y h = refl
get_elem?-set_elem (x ∷ xs) (suc i) (suc j) y h = get_elem?-set_elem xs i j y (λ e. h (ap suc e))

module _ (h : ℕ) where
  close_at-IsBalanced : (s : Sockets) (i : ℕ) → IsBalanced h s → IsBalanced h (close_at s i)
  unfolding close
  close_at-IsBalanced s i b = elim (Option-cases (get_elem? s.objects i)) [
    | inl e ↦ rw (e, close_at) b
    | inr (x, e) ↦
        rw (e, close_at)
          (omega (
            arith,
            b,
            count-append h s.closed (to_handles x.handle),
            count-set_elem h s.objects i x invalid_socket e,
          ))
  ]

  release_at-IsBalanced : (s : Sockets) (i : ℕ) → IsBalanced h s → IsBalanced h (release_at s i)
  unfolding release
  release_at-IsBalanced s i b = elim (Option-cases (get_elem? s.objects i)) [
    | inl e ↦ rw (e, release_at) b
    | inr (x, e) ↦
        rw (e, release_at)
          (omega (
            arith,
            b,
            count-append h s.released (to_handles x.handle),
            count-set_elem h s.objects i x invalid_socket e,
          ))
  ]

  move_at-IsBalanced : (s : Sockets) (i : ℕ) → IsBalanced h s → IsBalanced h (move_at s i)
  unfolding move_construct
  move_at-IsBalanced s i b = elim (Option-cases (get_elem? s.objects i)) [
    | inl e ↦ rw (e, move_at) b
    | inr (x, e) ↦
        let left = set_elem s.objects i invalid_socket in
        let moved : List TcpSocket = record { handle = x.handle } ∷ [] in
        rw (e, move_at)
          (omega (
            arith,
            b,
            count-held_append h left moved,
            count-append h (to_handles x.handle) [],
            count-set_elem h s.objects i x invalid_socket e,
          ))
  ]

  assign_two-IsBalanced :
      (s : Sockets) (i j : ℕ) (x y : TcpSocket)
      → i ≢ j
      → get_elem? s.objects i ≡ some x
      → get_elem? s.objects j ≡ some y
      → IsBalanced h s
      → IsBalanced h (assign_two s i j x y)
  unfolding move_assign
  assign_two-IsBalanced s i j x y d e f b =
      let x1 : TcpSocket = record { handle = y.handle } in
      omega (
        arith,
        b,
        count-append h s.closed (to_handles x.handle),
        count-set_elem h s.objects i x x1 e,
        count-set_elem h (set_elem s.objects i x1) j y invalid_socket
            (get_elem?-set_elem s.objects i j x1 d ∙ f),
      )

  assign_at-IsBalanced : (s : Sockets) (i j : ℕ) → IsBalanced h s → IsBalanced h (assign_at s i j)
  assign_at-IsBalanced s i j b = elim (Option-cases (get_elem? s.objects i)) [
    | inl e ↦ rw (e, assign_at) b
    | inr (x, e) ↦ elim (Option-cases (get_elem? s.objects j)) [
      | inl f ↦ rw (e, assign_at, f) b
      | inr (y, f) ↦
          rw (e, assign_at, f)
            (elim (Bool-cases (i == j)) [
              | inl same ↦ rw same b
              | inr other ↦ rw other (assign_two-IsBalanced s i j x y (λ p. ground arith) e f b)
            ])
    ]
  ]

  act-IsBalanced : (s : Sockets) (a : Act) → IsBalanced h s → IsBalanced h (act s a)
  unfolding act
  act-IsBalanced s (constructs g) b =
      let new : List TcpSocket = record { handle = some g } ∷ [] in
      omega (arith, b, count-append h s.opened (g ∷ []), count-held_append h s.objects new)
  act-IsBalanced s (moves i) b = move_at-IsBalanced s i b
  act-IsBalanced s (assigns i j) b = assign_at-IsBalanced s i j b
  act-IsBalanced s (closes i) b = close_at-IsBalanced s i b
  act-IsBalanced s (releases i) b = release_at-IsBalanced s i b
  act-IsBalanced s (destroys i) b = close_at-IsBalanced s i b

  run_acts-IsBalanced :
      (s : Sockets) (acts : List Act) → IsBalanced h s → IsBalanced h (run_acts s acts)
  unfolding run_acts
  run_acts-IsBalanced s [] b = b
  run_acts-IsBalanced s (a ∷ acts) b = run_acts-IsBalanced (act s a) acts (act-IsBalanced s a b)

-- In a program that only constructs, moves, assigns, closes, releases and destroys sockets, every
-- handle that sockets were constructed from is at any time held by exactly one of them, was passed to
-- ::close exactly once, or was released to a caller exactly once, counted as often as it was given:
-- so a handle that was given once is never closed twice, and never closed while a socket holds it.
pub run_acts-balanced :
    (acts : List Act) (h : ℕ)
    → let s = run_acts no_sockets acts in
      (count h s.opened ≡ count h (held s.objects) + count h s.closed + count h s.released)
      × (count h s.opened ≤ 1
          → (count h s.closed ≤ 1) × (count h s.closed ≡ 1 → count h (held s.objects) ≡ 0))
run_acts-balanced acts h =
    let b = run_acts-IsBalanced h no_sockets acts (omega arith) in
    (b, λ once. (omega (arith, b, once), λ gone. omega (arith, b, once, gone)))
