-- ===== src/App/Lifecycle.antt =====
-- What runListen and runConnect of src/main.cpp do in turn to the objects that they make, and the
-- handler of signals, which comes in between. `g_ui_ptr` is the pointer that the handler uses.
pub mod Order
use lantalk.Common.{Bool, true, false, List, [], ◌∷◌, ◌++◌, Bytes, if◌then◌else◌}
use lantalk.Terminal.{Deed}
use lantalk.App.{Shown}

pub data Deal : Type 0 where
  shows : Shown → Deal
  starts_session stops_session adds_connection : Deal
  starts_server stops_server starts_announce stops_announce : Deal
  makes_terminal destroys_terminal : Deal
  -- `g_ui_ptr = ui.get()` and `g_ui_ptr = nullptr`.
  sets_pointer clears_pointer : Deal
  -- setupSignalHandlers.
  catches_signals : Deal
  writes : List Deed → Deal
  -- The start and the end of TerminalUI::run.
  enters_run leaves_run : Deal

-- Which objects are running or alive, and whether the pointer is set and signals are caught.
pub record Objects : Type 0 where
  pub session : Bool
  pub server : Bool
  pub announcing : Bool
  pub terminal : Bool
  pub pointer : Bool
  pub catching : Bool

abbrev pub no_objects : Bool → Objects
no_objects catching = record {
  session = false;
  server = false;
  announcing = false;
  terminal = false;
  pointer = false;
  catching = catching;
}

unfoldable pub deal : Objects → Deal → Objects
deal o starts_session = record o { session = true }
deal o stops_session = record o { session = false }
deal o starts_server = record o { server = true }
deal o stops_server = record o { server = false }
deal o starts_announce = record o { announcing = true }
deal o stops_announce = record o { announcing = false }
deal o makes_terminal = record o { terminal = true }
deal o destroys_terminal = record o { terminal = false }
deal o sets_pointer = record o { pointer = true }
deal o clears_pointer = record o { pointer = false }
deal o catches_signals = record o { catching = true }
deal o _ = o

-- The process: `input` is the `running_` of the terminal, `killed` tells that a signal ended the
-- process, and `crashed` that a terminal was used that is not alive.
pub record Process : Type 0 where
  pub objects : Objects
  pub shutdown : Bool
  pub input : Bool
  pub killed : Bool
  pub crashed : Bool

abbrev pub new_process : Bool → Process
new_process catching = record {
  objects = no_objects catching;
  shutdown = false;
  input = false;
  killed = false;
  crashed = false;
}

abbrev pub input_after : Deal → Bool → Bool
input_after enters_run input = true
input_after leaves_run input = false
input_after _ input = input

-- signalHandler.
unfoldable pub signal_handler : Process → Process
signal_handler p =
    let q = record p { shutdown = true } in
    if p.objects.pointer
    then if p.objects.terminal then record q { input = false } else record q { crashed = true }
    else q

pub data Item : Type 0 where
  does : Deal → Item
  signal : Item

-- A signal that is not caught ends the process.
unfoldable pub run_items : Process → List Item → Process
unfolding deal signal_handler
run_items p [] = p
run_items p (does d ∷ is) =
    run_items (record p { objects = deal p.objects d; input = input_after d p.input }) is
run_items p (signal ∷ is) =
    let later = run_items (signal_handler p) is in
    if p.objects.catching then later else record p { killed = true }

unfoldable pub deals_of : List Item → List Deal
deals_of [] = []
deals_of (does d ∷ is) = d ∷ deals_of is
deals_of (signal ∷ is) = deals_of is
