-- ===== src/Chat/Session/Isolation/Histories.antt =====
-- Interleaved frames of several connections of a session, src/chat/chat_session.cpp.
use lantalk.Common.{
  ◌≡◌, ◌∙◌, inl, inr, false, List, [], ◌∷◌, Bytes, eq_bytes, eq_bytes_iff, Bool-cases,
  if◌then◌else◌,
}
use lantalk.Network.Protocol.Header.{Frame}
use lantalk.Chat.Session.{ChatSession}
use lantalk.Chat.Session.Handlers.{dispatch, on_frame, on_disconnect}
use lantalk.Chat.Session.Isolation.{Keeps, dispatch-Keeps, on_disconnect-Keeps}
use lantalk.Chat.Session.Isolation.Same.{Same, dispatch-Same, on_disconnect-Same}

-- A frame on a connection, or the end of it.
pub data Happening : Type 0 where
  frame : Bytes → Frame → Happening
  ends : Bytes → Happening

unfoldable pub happen : ChatSession → Happening → ChatSession
unfolding dispatch on_disconnect
happen s (frame cid f) = on_frame s cid f
happen s (ends cid) = on_disconnect s cid

unfoldable pub happen_all : ChatSession → List Happening → ChatSession
unfolding happen
happen_all s [] = s
happen_all s (h ∷ hs) = happen_all (happen s h) hs

abbrev pub connection_of : Happening → Bytes
connection_of (frame cid f) = cid
connection_of (ends cid) = cid

-- What happens on one connection.
unfoldable pub only : Bytes → List Happening → List Happening
only j [] = []
only j (h ∷ hs) = let rest = only j hs in if eq_bytes (connection_of h) j then h ∷ rest else rest

Keeps-Same : (j : Bytes) (s t u : ChatSession) → Keeps j s t → Same j s u → Same j t u
Keeps-Same j s t u k h = record {
  connection = k.connection ∙ h.connection;
  peer = k.peer ∙ h.peer;
  config = k.config ∙ h.config;
}

happen-own :
    (j : Bytes) (h : Happening) (s t : ChatSession)
    → connection_of h ≡ j
    → Same j s t
    → Same j (happen s h) (happen t h)
unfolding happen
happen-own j (frame cid f) s t e same = rw e (dispatch-Same j s t same f.payload f.header.type)
happen-own j (ends cid) s t e same = rw e (on_disconnect-Same j s t same)

happen-other :
    (j : Bytes) (h : Happening) (s t : ChatSession)
    → eq_bytes (connection_of h) j ≡ false
    → Same j s t
    → Same j (happen s h) t
unfolding happen
happen-other j (frame cid f) s t e same =
    Keeps-Same j s _ t (dispatch-Keeps cid j e f.header.type s f.payload) same
happen-other j (ends cid) s t e same = Keeps-Same j s _ t (on_disconnect-Keeps cid j e s) same

-- However the frames and the ends of several connections are interleaved, a connection, with all that
-- is sent on it, and what the session knows of its peer are in the end as if only the connection's
-- own frames had come. Frames are handled under the identifier of their connection, and the user
-- sends nothing meanwhile.
pub happen_all-only :
    (j : Bytes) (hs : List Happening) (s t : ChatSession)
    → Same j s t
    → Same j (happen_all s hs) (happen_all t (only j hs))
unfolding happen_all only
happen_all-only j [] s t same = same
happen_all-only j (h ∷ hs) s t same = elim (Bool-cases (eq_bytes (connection_of h) j)) [
  | inl own ↦ rw own (
      happen_all-only j hs (happen s h) (happen t h)
        (happen-own j h s t ((eq_bytes_iff (connection_of h) j).0 own) same))
  | inr other ↦ rw other (happen_all-only j hs (happen s h) t (happen-other j h s t other same))
]
