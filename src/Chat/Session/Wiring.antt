-- ===== src/Chat/Session/Wiring.antt =====
-- How src/main.cpp joins connections to the session. The callbacks of every connection hand its
-- frames and its end to the session under the empty identifier: runListen's connIdPtr points to a
-- string that nothing assigns, and runConnect writes "" itself, while addConnection files the
-- connection under an identifier of its own.
pub mod Handlers
pub mod Broadcast
use lantalk.Common.{◌≢◌, List, [], ◌∷◌, Bytes}
use lantalk.Network.Protocol.Header.{Frame}
use lantalk.Network.Connection.{Connection}
use lantalk.Chat.Message.{ChatMessage}
use lantalk.Chat.Session.History.{
  Step, starts, stops, pings, adds, frames, drops, broadcasts, receives,
}

-- What happens in the running program.
pub data MainStep : Type 0 where
  session_starts session_stops keepalive : MainStep
  -- A connection, with the identifier that makeConnId drew.
  connects : Bytes → Connection → MainStep
  -- The callbacks of some connection.
  frame_callback : Frame → MainStep
  disconnect_callback : MainStep
  -- The receive loop of a connection, filed under this identifier, changes it.
  receive_round : Bytes → (Connection → Connection) → MainStep
  -- A line typed by the user.
  says : ChatMessage → MainStep

unfoldable pub to_step : MainStep → Step
to_step session_starts = starts
to_step session_stops = stops
to_step keepalive = pings
to_step (connects cid c) = adds cid c
to_step (frame_callback f) = frames [] f
to_step disconnect_callback = drops []
to_step (receive_round cid f) = receives cid f
to_step (says m) = broadcasts m

-- makeConnId never draws the empty identifier.
abbrev pub IsDrawn : MainStep → Type 0
IsDrawn (connects cid c) = cid ≢ []
IsDrawn (receive_round cid f) = cid ≢ []
IsDrawn _ = Unit {0}

-- The history of the session that a history of the program makes, newest first.
abbrev pub session_history : List MainStep → List Step
session_history [] = []
session_history (x ∷ xs) = to_step x ∷ session_history xs
