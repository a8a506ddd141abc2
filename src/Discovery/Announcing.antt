-- ===== src/Discovery/Announcing.antt =====
-- The announce thread of src/discovery/lan_discovery.cpp, in ticks of the 100 milliseconds that it
-- sleeps. A call of announce takes no time, and a read of `running_` gives false from a given tick on.
use lantalk.Common.{
  ℕ, zero, suc, ◌+◌, ◌-◌, ◌%◌, ◌≤◌, ◌<◌, ◌≡◌, sym, ◌∙◌, ◌↔◌, ◌⊎◌, inl, inr, Bool, true, false, not,
  ◌&&◌, ◌||◌, List, [], ◌∷◌, Option, none, some, arith, Bytes, ltb, leb, ◌==◌, if◌then◌else◌,
  Bool-cases,
}
use lantalk.Discovery.{Announced, build_announce_packet}

-- startAnnounce and stopAnnounce on `running_`: its new value, and whether a thread is started, or is
-- joined.
unfoldable pub start_announce : Bool → Bool × Bool
start_announce running = (true, not running)

unfoldable pub stop_announce : Bool → Bool × Bool
stop_announce running = (false, running)

-- announce: what is broadcast, if a socket can be made.
unfoldable pub announce : Announced → Bool → Option Bytes
unfolding build_announce_packet
announce g has_socket = if has_socket then some (build_announce_packet g) else none

-- The inner loop, for so many sleeps at most: the tick at which it ends.
unfoldable pub wait_loop : ℕ → ℕ → ℕ → ℕ
wait_loop zero now stop = now
wait_loop (suc n) now stop =
    let later = wait_loop n (now + 1) stop in if ltb now stop then later else now

-- announceLoop from a tick on: the ticks at which it calls announce.
unfoldable pub announce_loop : ℕ → ℕ → ℕ → List ℕ
announce_loop zero now stop = []
announce_loop (suc fuel) now stop =
    let rest = announce_loop fuel (wait_loop 300 now stop) stop in
    if ltb now stop then now ∷ rest else []

abbrev pub is_in : ℕ → List ℕ → Bool
is_in t [] = false
is_in t (x ∷ xs) = t == x || is_in t xs

wait_loop-early : (n now stop : ℕ) → now + n ≤ stop → wait_loop n now stop ≡ now + n
unfolding wait_loop
wait_loop-early zero now stop h = omega arith
wait_loop-early (suc n) now stop h = ground (arith, wait_loop-early n (now + 1) stop (omega arith))

wait_loop-late : (n now stop : ℕ) → now ≤ stop → stop ≤ now + n → wait_loop n now stop ≡ stop
unfolding wait_loop
wait_loop-late zero now stop h k = omega arith
wait_loop-late (suc n) now stop h k = elim (Bool-cases (ltb now stop)) [
  | inl e ↦ rw e (wait_loop-late n (now + 1) stop (ground arith) (omega arith))
  | inr e ↦ rw e (ground arith)
]

-- The ticks of the announcements, from a start on.
abbrev pub is_due : ℕ → ℕ → ℕ → Bool
is_due start stop t = leb start t && ltb t stop && ((t - start) % 300 == 0)

announce_loop-is_due :
    (fuel start stop t : ℕ)
    → start ≤ stop
    → stop < start + fuel
    → is_in t (announce_loop fuel start stop) ≡ is_due start stop t
unfolding announce_loop
announce_loop-is_due zero start stop t h k = absurd (omega arith)
announce_loop-is_due (suc fuel) start stop t h k = elim (Bool-cases (ltb start stop)) [
  | inr e ↦ rw e (ground arith)
  | inl e ↦ elim (Bool-cases (leb (start + 300) stop)) [
    | inl f ↦
        let w : wait_loop 300 start stop ≡ start + 300 =
          wait_loop-early 300 start stop (ground arith) in
        let rest = announce_loop-is_due fuel (start + 300) stop t (ground arith) (omega arith) in
        rw (e, w) (ground (arith, rest))
    | inr f ↦
        let w : wait_loop 300 start stop ≡ stop = wait_loop-late 300 start stop h (ground arith) in
        let rest = announce_loop-is_due fuel stop stop t (omega arith) (ground arith) in
        rw (e, w) (ground (arith, rest))
  ]
]

-- The loop announces in these ticks.
abbrev pub Hears : List ℕ → ℕ → ℕ → Type 0
Hears ticks a n = (t : ℕ) × (a ≤ t) × (t < a + n) × (is_in t ticks ≡ true)

-- How long ago the last announcement was.
abbrev pub since : ℕ → ℕ → ℕ
since start a = (a - start) % 300

-- The next announcement, in a tick or after it.
abbrev next_due : ℕ → ℕ → ℕ
next_due start a = a + (300 - since start a) % 300

is_due-next :
    (start stop a : ℕ)
    → start ≤ a
    → next_due start a < stop
    → is_due start stop (next_due start a) ≡ true
is_due-next start stop a h k =
    let e : (next_due start a - start) % 300 ≡ 0 = omega arith in ground arith

heard :
    (start stop a u : ℕ)
    → start ≤ a
    → a ≤ u
    → u < a + 30
    → is_due start stop u ≡ true
    → (since start a ≡ 0) ⊎ (270 < since start a)
heard start stop a u h lo hi d =
    let z : (u - start) % 300 ≡ 0 = ground arith in
    elim (Bool-cases (since start a == 0)) [
      | inl e ↦ inl (ground arith)
      | inr e ↦ let n : 0 < since start a = ground arith in inr (omega (arith, z, n, h, lo, hi))
    ]

soon : (start a : ℕ) → (since start a ≡ 0) ⊎ (270 < since start a) → next_due start a < a + 30
soon start a (inl z) = omega (arith, z)
soon start a (inr z) = omega (arith, z)

-- While it runs, the thread announces in every window of 30 seconds. A scan, which listens for 3
-- seconds, hears the device exactly if it begins at an announcement or more than 27 seconds after
-- the last one; fuel beyond the number of ticks is enough.
pub announce_loop-Hears :
    (fuel start stop a : ℕ)
    → start ≤ a
    → a + 300 ≤ stop
    → stop < start + fuel
    → let ticks = announce_loop fuel start stop in
      Hears ticks a 300 × (Hears ticks a 30 ↔ ((since start a ≡ 0) ⊎ (270 < since start a)))
announce_loop-Hears fuel start stop a h k f =
    let due = announce_loop-is_due fuel start stop in
    let t = next_due start a in
    let yes : is_in t (announce_loop fuel start stop) ≡ true =
      due t (omega arith) f ∙ is_due-next start stop a h (omega arith) in
    (
      (t, omega arith, omega arith, yes),
      (
        (λ (u, lo, hi, e).
            let d : is_due start stop u ≡ true = sym (due u (omega arith) f) ∙ e in
            heard start stop a u h lo hi d),
        λ s. (t, omega arith, soon start a s, yes),
      ),
    )
