-- ===== src/Logging/Filtering.antt =====
-- Logger::log of src/logging/logger.cpp: what its level and setQuiet leave out.
use lantalk.Common.{◌≤◌, ◌≡◌, refl, inl, inr, true, false, List, [], ◌∷◌, arith, ltb, Bool-cases}
use mathlib.Core.List.{Sublistᴰ}
use mathlib.Core.List.Sublistᴰ
use lantalk.Logging.{LogLevel, rank, Logger, set_level, set_quiet, Entry, Output, log, log_all}

-- All that the first writes, the second writes, in its place.
abbrev pub IsPart : Output → Output → Type 0
IsPart a b = Sublistᴰ a.screen b.screen × Sublistᴰ a.filed b.filed

log-IsPart :
    (l : Logger) (low high : LogLevel) (e : Entry)
    → rank low ≤ rank high
    → IsPart (log (set_level l high) e) (log (set_level l low) e)
unfolding log set_level
log-IsPart l low high e h = elim (Bool-cases (ltb (rank e.at) (rank high))) [
  | inl f ↦ rw f (Sublistᴰ.nil-sublist _, Sublistᴰ.nil-sublist _)
  | inr f ↦
      let g : ltb (rank e.at) (rank low) ≡ false = ground arith in
      rw (f, g) (Sublistᴰ.refl _, Sublistᴰ.refl _)
]

log_all-IsPart :
    (l : Logger) (low high : LogLevel) (es : List Entry)
    → rank low ≤ rank high
    → IsPart (log_all (set_level l high) es) (log_all (set_level l low) es)
unfolding log_all
log_all-IsPart l low high [] h = (Sublistᴰ.slnil, Sublistᴰ.slnil)
log_all-IsPart l low high (e ∷ es) h =
    let p = log-IsPart l low high e h in
    let q = log_all-IsPart l low high es h in (Sublistᴰ.append p.0 q.0, Sublistᴰ.append p.1 q.1)

log-set_quiet :
    (l : Logger) (e : Entry)
    → ((log (set_quiet l true) e).screen ≡ [])
      × ((log (set_quiet l true) e).filed ≡ (log l e).filed)
unfolding log set_quiet
log-set_quiet l e = elim (Bool-cases (ltb (rank e.at) (rank l.level))) [
  | inl f ↦ rw f (refl, refl)
  | inr f ↦ rw f (refl, refl)
]

log_all-set_quiet :
    (l : Logger) (es : List Entry)
    → ((log_all (set_quiet l true) es).screen ≡ [])
      × ((log_all (set_quiet l true) es).filed ≡ (log_all l es).filed)
unfolding log_all
log_all-set_quiet l [] = (refl, refl)
log_all-set_quiet l (e ∷ es) =
    let p = log-set_quiet l e in
    let q = log_all-set_quiet l es in (rw (p.0, q.0) refl, rw (p.1, q.1) refl)

-- Whatever is logged, a higher level only leaves lines out, on std::cout and in the log file, and
-- changes neither the others nor their order; setQuiet(true) leaves nothing on std::cout, and the
-- file as it would be.
pub log_all-filters :
    (l : Logger) (low high : LogLevel) (es : List Entry)
    → rank low ≤ rank high
    → IsPart (log_all (set_level l high) es) (log_all (set_level l low) es)
      × ((log_all (set_quiet l true) es).screen ≡ [])
      × ((log_all (set_quiet l true) es).filed ≡ (log_all l es).filed)
log_all-filters l low high es h =
    (log_all-IsPart l low high es h, (log_all-set_quiet l es).0, (log_all-set_quiet l es).1)
