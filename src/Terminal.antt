-- ===== src/Terminal.antt =====
-- src/cli/terminal_ui.cpp: the input loop of the chat, its commands and what it prints. A round of
-- the loop is given by whether stop was called before it and by what std::getline reads. What goes to
-- the terminal and to the session is listed. The build is the one without _WIN32.
pub mod Opening
pub mod Greeting
pub mod Conversation
pub mod Delivery
pub mod Input
use lantalk.Common.{
  ℕ, Bool, true, false, ◌||◌, List, [], ◌∷◌, ◌++◌, Option, none, some, Bytes, codes, eq_bytes, ◌==◌,
  if◌then◌else◌,
}
use lantalk.Common.Int.{ℤ}
use lantalk.Common.Decimal.{to_string}

-- Text for std::cout, a call of ChatSession::broadcast, or `system("clear")`.
pub data Deed : Type 0 where
  writes : Bytes → Deed
  broadcasts : Bytes → Deed
  clears_screen : Deed

-- Whether standard output is a terminal, and the fields of AppConfig that the commands print.
pub record Terminal : Type 0 where
  pub ansi : Bool
  pub device_id : Bytes
  pub display_name : Bytes

abbrev pub input_prompt : Bytes
input_prompt = codes "You: "

abbrev escape : Bytes
escape = 27 ∷ codes "["

unfoldable pub clear_line : Terminal → Bytes
clear_line t =
    if t.ansi
    then 13 ∷ escape ++ codes "2K"
    else 13
        ∷ codes "                                                                                "
      ++ 13 ∷ []

unfoldable pub move_cursor_up : Terminal → ℤ → Bytes
move_cursor_up t n = if t.ansi then escape ++ to_string n ++ codes "A" else []

unfoldable pub redisplay_input_line : Bytes → Bytes
redisplay_input_line current = input_prompt ++ current

unfoldable pub print_message : Terminal → Bytes → List Deed
unfolding clear_line redisplay_input_line
print_message t line = writes (clear_line t ++ line ++ codes "\n" ++ redisplay_input_line []) ∷ []

unfoldable pub print_info : Terminal → Bytes → List Deed
unfolding clear_line redisplay_input_line
print_info t line =
    writes (clear_line t ++ codes "[INFO] " ++ line ++ codes "\n" ++ redisplay_input_line []) ∷ []

unfoldable pub print_error : Terminal → Bytes → List Deed
unfolding clear_line redisplay_input_line
print_error t line =
    writes (
      clear_line t
      ++ escape
      ++ codes "31m[ERROR] "
      ++ line
      ++ escape
      ++ codes "0m\n"
      ++ redisplay_input_line [])
    ∷ []

unfoldable pub print_banner : Terminal → Bytes → Bytes → List Deed
unfolding clear_line redisplay_input_line
print_banner t peer_name address =
    writes (
      clear_line t
      ++ codes "========================================\n"
      ++ codes " LanTalk v1.0.0\n"
      ++ codes " Connected to: "
      ++ peer_name
      ++ codes "\n"
      ++ codes " Address: "
      ++ address
      ++ codes "\n"
      ++ codes "========================================\n"
      ++ redisplay_input_line [])
    ∷ []

unfoldable pub print_listen_banner : Terminal → Bytes → List Deed
unfolding clear_line redisplay_input_line
print_listen_banner t address =
    writes (
      clear_line t
      ++ codes "========================================\n"
      ++ codes " LanTalk v1.0.0\n"
      ++ codes " Listening on: "
      ++ address
      ++ codes "\n"
      ++ codes " Waiting for peers...\n"
      ++ codes "========================================\n"
      ++ redisplay_input_line [])
    ∷ []

abbrev pub help_lines : List Bytes
help_lines =
    codes "Available commands:"
    ∷ codes "  /help      - show available commands"
    ∷ codes "  /peers     - list connected peers with addresses"
    ∷ codes "  /info      - show local device info"
    ∷ codes "  /clear     - clear terminal screen"
    ∷ codes "  /reconnect - attempt reconnect"
    ∷ codes "  /quit, /exit - graceful disconnect and exit"
    ∷ []

abbrev pub info_lines : Terminal → List Bytes
info_lines t =
    (codes "Device ID: " ++ t.device_id) ∷ (codes "Display Name: " ++ t.display_name) ∷ []

unfoldable pub print_infos : Terminal → List Bytes → List Deed
unfolding print_info
print_infos t [] = []
print_infos t (l ∷ ls) = print_info t l ++ print_infos t ls

-- handleCommand: what it does, and whether the loop goes on.
unfoldable pub handle_command : Terminal → Bytes → List Deed × Bool
unfolding print_info print_infos print_error
handle_command t cmd =
    if eq_bytes cmd (codes "/quit") || eq_bytes cmd (codes "/exit")
    then (print_info t (codes "Exiting..."), false)
    else if eq_bytes cmd (codes "/help")
    then (print_infos t help_lines, true)
    else if eq_bytes cmd (codes "/peers")
    then (print_info t (codes "Connected peers (TODO: Implement listing from session)"), true)
    else if eq_bytes cmd (codes "/info")
    then (print_infos t (info_lines t), true)
    else if eq_bytes cmd (codes "/clear")
    then (clears_screen ∷ [], true)
    else if eq_bytes cmd (codes "/reconnect")
    then (print_info t (codes "Attempting reconnect (TODO: Implement)"), true)
    else (
      print_error t
          (codes "Unknown command: " ++ cmd ++ codes ". Type /help for list of commands."),
      true,
    )

-- `stopped`: stop was called since the last test of `running_`. `read`: a line, or `none` at the end
-- of the input.
pub record Round : Type 0 where
  pub stopped : Bool
  pub read : Option Bytes

-- A line that is not empty: what is done about it, and whether the loop goes on.
unfoldable pub handle_line : Terminal → ℕ → Bytes → List Deed × Bool
unfolding handle_command
handle_line t c s = if c == b'/' then handle_command t (c ∷ s) else (broadcasts (c ∷ s) ∷ [], true)

-- The loop of run, and whether it has ended after these rounds.
unfoldable pub run_loop : Terminal → List Round → List Deed × Bool
unfolding handle_line
run_loop t [] = ([], false)
run_loop t (r ∷ rs) =
    let later = run_loop t rs in
    let round = elim r.read as (λ _. List Deed × Bool) [
      | none ↦ ([], true)
      | some [] ↦ later
      | some (c ∷ s) ↦
          let handled = handle_line t c s in
          if handled.1
          then (handled.0 ++ writes input_prompt ∷ later.0, later.1)
          else (handled.0, true)
    ] in
    if r.stopped then ([], true) else round

unfoldable pub run : Terminal → List Round → List Deed × Bool
unfolding run_loop
run t rs = let r = run_loop t rs in (writes input_prompt ∷ r.0, r.1)
