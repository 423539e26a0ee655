-- ===== src/Api/Connections.antt =====
-- api-service/main.py: `ConnectionManager`. A connection is a number. What other tasks do to the list
-- while the messages are sent is an argument.
pub mod Delivered
use social_sentiment.Prelude.{ℕ, Bool, List, ◌∷◌, ◌++◌, true, [], if◌then◌else◌, false, ◌==◌}

-- `self.active_connections.remove(websocket)`, without the error for one that is not there
unfoldable pub disconnect : ℕ → List ℕ → List ℕ
disconnect websocket [] = []
disconnect websocket (c ∷ cs) =
    let rest = disconnect websocket cs in if c == websocket then cs else c ∷ rest

-- `self.active_connections.append(websocket)`
abbrev pub connect : ℕ → List ℕ → List ℕ
connect websocket active = active ++ (websocket ∷ [])

-- How sending ends: the client took the message, the time ran out, or there was an error.
pub data Sending : Type 0 where
  sent timed_out failed : Sending

-- whether the message was delivered
unfoldable pub send_text : Sending → Bool
send_text sent = true
send_text timed_out = false
send_text failed = false

-- the loop over the connections and what was delivered
unfoldable pub drop_undelivered : (ℕ → Sending) → List ℕ → List ℕ → List ℕ
unfolding disconnect send_text
drop_undelivered outcome [] active = active
drop_undelivered outcome (c ∷ cs) active =
    drop_undelivered outcome cs (if send_text (outcome c) then active else disconnect c active)

-- What another task does to the list during the sending.
pub data Change : Type 0 where
  connects disconnects : ℕ → Change

unfoldable pub change_all : List Change → List ℕ → List ℕ
unfolding disconnect
change_all [] active = active
change_all (connects c ∷ cs) active = change_all cs (connect c active)
change_all (disconnects c ∷ cs) active = change_all cs (disconnect c active)

-- The connections that the message went to, and the connections afterwards.
unfoldable pub broadcast : (ℕ → Sending) → List Change → List ℕ → List ℕ × List ℕ
unfolding drop_undelivered change_all
broadcast outcome changes [] = ([], change_all changes [])
broadcast outcome changes (c ∷ cs) =
    (c ∷ cs, drop_undelivered outcome (c ∷ cs) (change_all changes (c ∷ cs)))
