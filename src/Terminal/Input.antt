-- ===== src/Terminal/Input.antt =====
-- TerminalUI::run of src/cli/terminal_ui.cpp: which of the lines that are typed go to the session, and
-- through ChatSession::broadcast of src/chat/chat_session.cpp to the peers.
use lantalk.Common.{
  ℕ, ◌≡◌, refl, sym, ap, ◌∙◌, inl, inr, Bool, true, false, not, ◌||◌, List, [], ◌∷◌, ◌++◌, none,
  some, Bytes, codes, ◌==◌, if◌then◌else◌, if_cases, Bool-cases, Option-cases,
}
use lantalk.Common.ByteString.{eq_bytes}
use lantalk.Terminal.{
  Deed, writes, broadcasts, clears_screen, Terminal, help_lines, info_lines, input_prompt,
  print_info, print_error, print_infos, handle_command, Round, handle_line, run_loop, run,
}

abbrev pub said : List Deed → List Bytes
said [] = []
said (writes s ∷ ds) = said ds
said (broadcasts s ∷ ds) = s ∷ said ds
said (clears_screen ∷ ds) = said ds

abbrev pub is_exit : Bytes → Bool
is_exit l = eq_bytes l (codes "/quit") || eq_bytes l (codes "/exit")

-- The lines that are read before the first /quit or /exit, the end of the input or a call of stop.
abbrev pub typed : List Round → List Bytes
typed [] = []
typed (r ∷ rs) =
    let later = typed rs in
    let lines = elim r.read as (λ _. List Bytes) [
      | none ↦ []
      | some l ↦ if is_exit l then [] else l ∷ later
    ] in
    if r.stopped then [] else lines

-- Whether such an end is among the rounds.
abbrev pub has_end : List Round → Bool
has_end [] = false
has_end (r ∷ rs) =
    let later = has_end rs in
    r.stopped || elim r.read as (λ _. Bool) [ none ↦ true | some l ↦ is_exit l || later ]

-- The lines that are neither empty nor commands.
abbrev pub is_text : Bytes → Bool
is_text [] = false
is_text (c ∷ s) = not (c == b'/')

abbrev pub texts : List Bytes → List Bytes
texts [] = []
texts (l ∷ ls) = let rest = texts ls in if is_text l then l ∷ rest else rest

said-append : (xs ys : List Deed) → said (xs ++ ys) ≡ said xs ++ said ys
said-append [] ys = refl
said-append (writes s ∷ xs) ys = said-append xs ys
said-append (broadcasts s ∷ xs) ys = ap (◌∷◌ s) (said-append xs ys)
said-append (clears_screen ∷ xs) ys = said-append xs ys

said-print_infos : (t : Terminal) (ls : List Bytes) → said (print_infos t ls) ≡ []
unfolding print_infos print_info
said-print_infos t [] = refl
said-print_infos t (l ∷ ls) = said-print_infos t ls

-- A command says nothing, and ends the loop or goes on.
abbrev Quietly : Bool → List Deed × Bool → Type 0
Quietly on r = (said r.0 ≡ []) × (r.1 ≡ on)

handle_command-Quietly :
    (t : Terminal) (cmd : Bytes) → Quietly (not (is_exit cmd)) (handle_command t cmd)
unfolding handle_command print_info print_error
handle_command-Quietly t cmd = elim (Bool-cases (is_exit cmd)) [
  | inl e ↦ rw e (refl, refl)
  | inr e ↦ rw e (
      if_cases (Quietly true) (eq_bytes cmd (codes "/help"))
        (λ _. (said-print_infos t help_lines, refl))
        (λ _.
          if_cases (Quietly true) (eq_bytes cmd (codes "/peers")) (λ _. (refl, refl))
            (λ _.
              if_cases (Quietly true) (eq_bytes cmd (codes "/info"))
                (λ _. (said-print_infos t (info_lines t), refl))
                (λ _.
                  if_cases (Quietly true) (eq_bytes cmd (codes "/clear")) (λ _. (refl, refl))
                    (λ _.
                      if_cases (Quietly true) (eq_bytes cmd (codes "/reconnect"))
                        (λ _. (refl, refl)) (λ _. (refl, refl)))))))
]

is_exit-text : (c : ℕ) (s : Bytes) → (c == b'/') ≡ false → is_exit (c ∷ s) ≡ false
unfolding eq_bytes
is_exit-text c s e = rw e

is_exit-nil : is_exit [] ≡ false
unfolding eq_bytes
is_exit-nil = refl

-- The lines that are said, and the end.
abbrev Follows : List Bytes → Bool → List Deed × Bool → Type 0
Follows ls over r = (said r.0 ≡ ls) × (r.1 ≡ over)

handle_line-Follows :
    (t : Terminal) (c : ℕ) (s : Bytes)
    → Follows (texts ((c ∷ s) ∷ [])) (not (is_exit (c ∷ s))) (handle_line t c s)
unfolding handle_line
handle_line-Follows t c s = elim (Bool-cases (c == b'/')) [
  | inl e ↦ rw e (handle_command-Quietly t (c ∷ s))
  | inr e ↦ rw (e, is_exit-text c s e) (refl, refl)
]

texts-exit : (c : ℕ) (s : Bytes) → is_exit (c ∷ s) ≡ true → texts ((c ∷ s) ∷ []) ≡ []
texts-exit c s x = elim (Bool-cases (c == b'/')) [
  | inl e ↦ rw e
  | inr e ↦ let other = is_exit-text c s e in cc
]

texts-cons : (l : Bytes) (ls : List Bytes) → texts (l ∷ ls) ≡ texts (l ∷ []) ++ texts ls
texts-cons [] ls = refl
texts-cons (c ∷ s) ls = elim (Bool-cases (c == b'/')) [ inl e ↦ rw e | inr e ↦ rw e ]

-- A round that reads a line with something on it.
line-Follows :
    (t : Terminal) (c : ℕ) (s : Bytes) (ls : List Bytes) (over : Bool) (later : List Deed × Bool)
    → Follows (texts ls) over later
    → Follows (texts (if is_exit (c ∷ s) then [] else (c ∷ s) ∷ ls)) (is_exit (c ∷ s) || over) (
        if (handle_line t c s).1
        then ((handle_line t c s).0 ++ writes input_prompt ∷ later.0, later.1)
        else ((handle_line t c s).0, true))
line-Follows t c s ls over later h =
    let q = handle_line-Follows t c s in
    elim (Bool-cases (is_exit (c ∷ s))) [
      | inl x ↦
          let ends : (handle_line t c s).1 ≡ false = rw x at q.1 in
          rw (ends, x) (q.0 ∙ texts-exit c s x, refl)
      | inr x ↦
          let on : (handle_line t c s).1 ≡ true = rw x at q.1 in
          let both : said (handle_line t c s).0 ++ said later.0 ≡ texts ((c ∷ s) ∷ ls) =
            rw (q.0, h.0) (sym (texts-cons (c ∷ s) ls)) in
          rw (on, x) (said-append (handle_line t c s).0 (writes input_prompt ∷ later.0) ∙ both, h.1)
    ]

run_loop-Follows :
    (t : Terminal) (rs : List Round) → Follows (texts (typed rs)) (has_end rs) (run_loop t rs)
unfolding run_loop
run_loop-Follows t [] = (refl, refl)
run_loop-Follows t (r ∷ rs) = elim (Bool-cases r.stopped) [
  | inl e ↦ rw e (refl, refl)
  | inr e ↦ elim (Option-cases r.read) [
    | inl f ↦ rw (e, f) (refl, refl)
    | inr ([], f) ↦ rw (e, f, is_exit-nil) (run_loop-Follows t rs)
    | inr (c ∷ s, f) ↦
        rw (e, f)
          (line-Follows t c s (typed rs) (has_end rs) (run_loop t rs) (run_loop-Follows t rs))
  ]
]

-- The lines that run hands to the session's broadcast are exactly the lines that are neither empty nor
-- commands, once each and in order, among those typed before the first /quit or /exit, the end of the
-- input or a call of stop; and run ends when, and only when, one of these comes.
pub run-Follows :
    (t : Terminal) (rs : List Round)
    → (said (run t rs).0 ≡ texts (typed rs)) × ((run t rs).1 ≡ has_end rs)
unfolding run
run-Follows t rs = run_loop-Follows t rs
