-- ===== src/Chat/Session/Stopping/Deadlock.antt =====
-- When ChatSession::stop of src/chat/chat_session.cpp returns, and when it never does.
use lantalk.Common.{ℕ, zero, suc, ◌+◌, ◌≤◌, ◌<◌, ◌≡◌, ◌↔◌, ◌-◌, refl, ◌≢◌, ◌⊎◌, inl, inr, arith}
use lantalk.Chat.Session.Stopping.Mutex.{IsHeld, Step-IsHeld, Reach-IsHeld, started-IsHeld}
use lantalk.Chat.Session.Stopping.{
  Receiver, receiving, waiting, handling, finished, joining, returned, Threads, started, put, Step,
  frame, locks, unlocks, ends, stop_called, stop_locks, stop_joins, stop_returns, Reach, here, next,
}

-- `stop` has yet to join thread `i`, which waits for the mutex that `stop` holds.
record IsStuck (i : ℕ) (s : Threads) : Type 0 where
  at : ℕ
  stops : s.stop ≡ joining at
  before : at ≤ i
  exists : i < s.count
  waits : s.receivers i ≡ waiting
  held : IsHeld s

Step-IsStuck : {s t : Threads} (i : ℕ) → Step s t → IsStuck i s → IsStuck i t
Step-IsStuck {s} i (frame j e) h = record {
  at = h.at;
  stops = h.stops;
  before = h.before;
  exists = h.exists;
  waits = ground (arith, h.waits);
  held = Step-IsHeld (frame j e) h.held;
}
Step-IsStuck i (locks j e f) h = absurd (let q = h.held.by_stop h.at h.stops in cc)
Step-IsStuck i (unlocks j e) h =
    absurd (let q = h.held.by_stop h.at h.stops in let p = h.held.by_receiver j e in cc)
Step-IsStuck i (ends j e) h = record {
  at = h.at;
  stops = h.stops;
  before = h.before;
  exists = h.exists;
  waits = ground (arith, h.waits);
  held = Step-IsHeld (ends j e) h.held;
}
Step-IsStuck i (stop_called e) h = absurd (let q = h.stops in cc)
Step-IsStuck i (stop_locks e f) h = absurd (let q = h.stops in cc)
Step-IsStuck i (stop_joins k e l f) h = record {
  at = suc k;
  stops = refl;
  before = ground (arith, h.stops, h.before, h.waits);
  exists = h.exists;
  waits = h.waits;
  held = Step-IsHeld (stop_joins k e l f) h.held;
}
Step-IsStuck i (stop_returns k e f) h = absurd (ground (arith, h.stops, h.before, h.exists))

Reach-IsStuck : {s t : Threads} (i : ℕ) → IsStuck i s → Reach s t → IsStuck i t
Reach-IsStuck i h here = h
Reach-IsStuck i h (next r st) = Step-IsStuck i st (Reach-IsStuck i h r)

first : {s t u : Threads} → Step s t → Reach t u → Reach s u
first st here = next here st
first st (next r last) = next (first st r) last

-- No thread that is still to be joined waits for the mutex.
abbrev pub NoneWaits : ℕ → Threads → Type 0
NoneWaits k s = (i : ℕ) → k ≤ i → i < s.count → s.receivers i ≢ waiting

abbrev pub Returns : Threads → Type 0
Returns s = (u : Threads) × Reach s u × (u.stop ≡ returned)

Returns-first : {s t : Threads} → Step s t → Returns t → Returns s
Returns-first st (u, r, e) = (u, first st r, e)

Receiver-cases : (r : Receiver) → (r ≡ receiving) ⊎ (r ≡ waiting) ⊎ (r ≡ handling) ⊎ (r ≡ finished)
Receiver-cases receiving = inl refl
Receiver-cases waiting = inr (inl refl)
Receiver-cases handling = inr (inr (inl refl))
Receiver-cases finished = inr (inr (inr refl))

-- Once thread `k` has finished, `stop` goes on.
finishes_from :
    (d k : ℕ) (s : Threads)
    → IsHeld s
    → s.stop ≡ joining k
    → k + d ≡ s.count
    → NoneWaits k s
    → Returns s
finishes_from zero k s h e c n = (_, next here (stop_returns k e (omega (arith, c))), refl)
finishes_from (suc d) k s h e c n = elim (Receiver-cases (s.receivers k)) [
  | inl p ↦
      let t = put s k finished in
      let st : Step s t = ends k p in
      let f : t.receivers k ≡ finished = ground arith in
      let joins : Step t (record t { stop = joining (suc k) }) =
        stop_joins k e (omega (arith, c)) f in
      Returns-first st (
        Returns-first joins (
          finishes_from d (suc k) _ (Step-IsHeld joins (Step-IsHeld st h)) refl (omega (arith, c))
            (λ i l m w. n i (omega arith) m (ground (arith, w)))))
  | inr (inl p) ↦ absurd (n k (omega arith) (omega (arith, c)) p)
  | inr (inr (inl p)) ↦ absurd (let q = h.by_stop k e in let r = h.by_receiver k p in cc)
  | inr (inr (inr p)) ↦
      let joins : Step s (record s { stop = joining (suc k) }) =
        stop_joins k e (omega (arith, c)) p in
      Returns-first joins (
        finishes_from d (suc k) _ (Step-IsHeld joins h) refl (omega (arith, c))
          (λ i l m w. n i (omega arith) m w))
]

-- How far `stop` is.
abbrev Counted : Threads → Type 0
Counted s = (k : ℕ) → s.stop ≡ joining k → k ≤ s.count

Step-Counted : {s t : Threads} → Step s t → Counted s → Counted t
Step-Counted (frame j e) h = h
Step-Counted (locks j e f) h = h
Step-Counted (unlocks j e) h = h
Step-Counted (ends j e) h = h
Step-Counted (stop_called e) h = λ j p. cc
Step-Counted (stop_locks e f) h = λ j p. ground arith
Step-Counted (stop_joins k e l f) h = λ j p. ground arith
Step-Counted (stop_returns k e f) h = λ j p. cc

Reach-Counted : {s t : Threads} → Counted s → Reach s t → Counted t
Reach-Counted h here = h
Reach-Counted h (next r st) = Step-Counted st (Reach-Counted h r)

started-Counted : (n : ℕ) → Counted (started n)
unfolding started
started-Counted n = λ k p. cc

-- Once `stop` has the mutex and is about to join the receiver thread of connection `k`, it can return
-- exactly if no receiver thread of this or a later connection is in a handler and waits for the
-- mutex. Where one waits, `stop` never returns, whatever the threads do.
pub Returns-iff :
    (n k : ℕ) (s : Threads) → Reach (started n) s → s.stop ≡ joining k → Returns s ↔ NoneWaits k s
Returns-iff n k s r e =
    let h = Reach-IsHeld (started-IsHeld n) r in
    let c = Reach-Counted (started-Counted n) r k e in
    (
      λ (u, later, done) i low high w.
          let stuck : IsStuck i u =
            Reach-IsStuck i
              (record { at = k; stops = e; before = low; exists = high; waits = w; held = h })
              later in
          let q = stuck.stops in cc,
      finishes_from (s.count - k) k s h e (omega arith),
    )
