-- ===== src/Logging.antt =====
-- src/logging/logger.hpp and logger.cpp: the one logger of the program. A line's timestamp, and the
-- file and line of the call, are arguments, and what goes to std::cout and to the log file is listed.
pub mod Filtering
use lantalk.Common.{
  ℕ, Bool, false, not, List, [], ◌∷◌, ◌++◌, Option, none, some, Bytes, codes, ltb, if◌then◌else◌,
}
use lantalk.Common.Decimal.{print_ℕ}

pub data LogLevel : Type 0 where
  level_trace level_debug level_info level_warn level_error level_off : LogLevel

-- The enumerators' values, which `<` compares.
abbrev pub rank : LogLevel → ℕ
rank level_trace = 0
rank level_debug = 1
rank level_info = 2
rank level_warn = 3
rank level_error = 4
rank level_off = 5

unfoldable pub level_to_string : LogLevel → Bytes
level_to_string level_trace = codes "TRACE"
level_to_string level_debug = codes "DEBUG"
level_to_string level_info = codes "INFO"
level_to_string level_warn = codes "WARN"
level_to_string level_error = codes "ERROR"
level_to_string level_off = codes "OFF"

-- `file` is the path of the stream, as long as one is open.
pub record Logger : Type 0 where
  pub level : LogLevel
  pub quiet : Bool
  pub file : Option Bytes

abbrev pub new_logger : Logger
new_logger = record { level = level_info; quiet = false; file = none }

unfoldable pub set_level : Logger → LogLevel → Logger
set_level l v = record l { level = v }

unfoldable pub set_quiet : Logger → Bool → Logger
set_quiet l q = record l { quiet = q }

-- setOutputFile, with whether the new stream is open.
unfoldable pub set_output_file : Logger → Bytes → Bool → Logger
set_output_file l path opened = record l { file = if opened then some path else none }

-- A call of log: its level and message, the time and where it stands.
pub record Entry : Type 0 where
  pub at : LogLevel
  pub message : Bytes
  pub timestamp : Bytes
  pub file_name : Bytes
  pub line : ℕ

unfoldable pub format_message : Entry → Bytes
unfolding level_to_string
format_message e =
    codes "["
    ++ e.timestamp
    ++ codes "] ["
    ++ level_to_string e.at
    ++ codes "] "
    ++ e.message
    ++ codes " ("
    ++ e.file_name
    ++ codes ":"
    ++ print_ℕ e.line
    ++ codes ")"

abbrev pub color_prefix : LogLevel → Bytes
color_prefix level_error = 27 ∷ codes "[31m"
color_prefix level_warn = 27 ∷ codes "[33m"
color_prefix _ = []

abbrev pub color_suffix : LogLevel → Bytes
color_suffix level_error = 27 ∷ codes "[0m"
color_suffix level_warn = 27 ∷ codes "[0m"
color_suffix _ = []

-- The lines of std::cout, and those of the file.
pub record Output : Type 0 where
  pub screen : List Bytes
  pub filed : List Bytes

abbrev pub no_output : Output
no_output = record { screen = []; filed = [] }

unfoldable pub log : Logger → Entry → Output
unfolding format_message
log l e =
    let formatted = format_message e in
    if ltb (rank e.at) (rank l.level) then no_output else record {
      screen =
          if not l.quiet then (color_prefix e.at ++ formatted ++ color_suffix e.at) ∷ [] else [];
      filed = elim l.file [ none ↦ [] | some path ↦ formatted ∷ [] ];
    }

-- The convenience functions.
abbrev pub entry_at : LogLevel → Entry → Entry
entry_at v e = record e { at = v }

unfoldable pub trace : Logger → Entry → Output
unfolding log
trace l e = log l (entry_at level_trace e)

unfoldable pub debug : Logger → Entry → Output
unfolding log
debug l e = log l (entry_at level_debug e)

unfoldable pub info : Logger → Entry → Output
unfolding log
info l e = log l (entry_at level_info e)

unfoldable pub warn : Logger → Entry → Output
unfolding log
warn l e = log l (entry_at level_warn e)

unfoldable pub error : Logger → Entry → Output
unfolding log
error l e = log l (entry_at level_error e)

-- Calls of log, one after the other.
unfoldable pub log_all : Logger → List Entry → Output
unfolding log
log_all l [] = no_output
log_all l (e ∷ es) =
    let later = log_all l es in
    record { screen = (log l e).screen ++ later.screen; filed = (log l e).filed ++ later.filed }
