-- ===== src/Chat/Session/Wiring/Broadcast.antt =====
-- ChatSession::broadcast of src/chat/chat_session.cpp in the program that src/main.cpp makes.
use lantalk.Common.{◌≡◌, refl, not, List, [], ◌∷◌, if_cases, All}
use lantalk.Common.Dict.{lookup}
use lantalk.Chat.Message.{ChatMessage}
use lantalk.Chat.Session.{SessionConfig, ChatSession}
use lantalk.Chat.Session.Commands.{start, stop, broadcast}
use lantalk.Chat.Session.Authentication.{
  ping_round-Inv, add_connection-Inv, on_disconnect-Inv, with_connection-Inv,
}
use lantalk.Chat.Session.History.{step, after}
use lantalk.Chat.Session.Wiring.{
  MainStep, session_starts, session_stops, keepalive, connects, frame_callback, disconnect_callback,
  receive_round, says, to_step, IsDrawn, session_history,
}
use lantalk.Chat.Session.Wiring.Handlers.{
  IsUnwired, dispatch-IsUnwired, on_disconnect-NoEmpty, ping_round-NoEmpty, with_connection-NoEmpty,
  add_connection-NoEmpty, broadcast-IsUnwired,
}

step-IsUnwired :
    (s : ChatSession) (x : MainStep) → IsDrawn x → IsUnwired s → IsUnwired (step s (to_step x))
unfolding step to_step start stop lookup
step-IsUnwired s session_starts d u = u
step-IsUnwired s session_stops d u =
    if_cases (λ (r : ChatSession × _). IsUnwired r.0) (not s.running) (λ _. u)
      (λ _. ((λ cid p e a. cc), tt))
step-IsUnwired s keepalive d (v, n) =
    ((ping_round-Inv s.config _ s (refl, v)).1, ping_round-NoEmpty s n)
step-IsUnwired s (connects cid c) d (v, n) =
    ((add_connection-Inv s.config _ s cid c (refl, v)).1, add_connection-NoEmpty s cid c d n)
step-IsUnwired s (frame_callback f) d u = dispatch-IsUnwired f.header.type s f.payload u
step-IsUnwired s disconnect_callback d (v, n) =
    ((on_disconnect-Inv s.config _ s [] (refl, v)).1, on_disconnect-NoEmpty s [] n)
step-IsUnwired s (receive_round cid f) d (v, n) =
    ((with_connection-Inv s.config _ s cid f (refl, v)).1, with_connection-NoEmpty s cid f d n)
step-IsUnwired s (says m) d u = rw (broadcast-IsUnwired s m u) u

after-IsUnwired :
    (g : SessionConfig) (xs : List MainStep)
    → All IsDrawn xs
    → IsUnwired (after g (session_history xs))
unfolding after lookup
after-IsUnwired g [] d = ((λ cid p e a. cc), tt)
after-IsUnwired g (x ∷ xs) d =
    step-IsUnwired (after g (session_history xs)) x d.0 (after-IsUnwired g xs d.1)

-- In the program as main.cpp wires it, whatever the peers send and whatever happened before, what the
-- user types is sent to nobody: broadcast leaves the session and all its connections as they were. It
-- is supposed only that makeConnId never draws the empty identifier.
pub broadcast-wired :
    (g : SessionConfig) (xs : List MainStep) (m : ChatMessage)
    → All IsDrawn xs
    → let s = after g (session_history xs) in broadcast s m ≡ s
broadcast-wired g xs m d =
    broadcast-IsUnwired (after g (session_history xs)) m (after-IsUnwired g xs d)
