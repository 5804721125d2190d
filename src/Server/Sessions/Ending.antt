-- ===== src/Server/Sessions/Ending.antt =====
-- What `stop` waits for: once `running_` is false, what is left of the loop and of the sessions.
use simple_dnsd.Base.{ℕ, suc, ◌+◌, ◌≡◌, ◌⊎◌, List, [], ◌∷◌}
use simple_dnsd.Server.Sessions.{
  Place, at_head, accepting, ended, admitted, counted, Stage, testing, waiting, receiving,
  answering, leaving, Who, own, Sessions, Step,
}

abbrev pub steps_left : Place → ℕ
steps_left ended = 0
steps_left at_head = 1
steps_left (counted c) = 4
steps_left (admitted c) = 5
steps_left accepting = 6

abbrev pub moves_left : Stage → ℕ
moves_left leaving = 1
moves_left testing = 2
moves_left answering = 3
moves_left receiving = 4
moves_left waiting = 5

abbrev pub all_moves : List (ℕ × Stage) → ℕ
all_moves [] = 0
all_moves ((c, stage) ∷ sessions) = moves_left stage + all_moves sessions

-- A bound of the steps that a stopped server can still make.
abbrev pub rank : Sessions → ℕ
rank s = steps_left s.place + all_moves s.sessions

-- The session cannot go on before its peer sends, reads or closes the connection.
abbrev pub IsHeld : Stage → Type 0
IsHeld receiving = Unit
IsHeld answering = Unit
IsHeld testing = ⊥
IsHeld waiting = ⊥
IsHeld leaving = ⊥

abbrev pub AreHeld : List (ℕ × Stage) → Type 0
AreHeld [] = Unit
AreHeld ((c, stage) ∷ sessions) = IsHeld stage × AreHeld sessions

module _ (max_sessions : ℕ) where
  -- The loop is over, and every session that is left waits for its peer.
  abbrev pub IsSettled : Sessions → Type 0
  IsSettled s = (s.place ≡ ended) × AreHeld s.sessions

  -- At most `n` steps follow, the server's own and its peers' together, whichever are taken. Where the
  -- server can take no step of its own, it has settled, and where no step at all is left, the loop is
  -- over and no session is there.
  pub data Ends : ℕ → Sessions → Type 0 where
    over : {n : ℕ} (s : Sessions) → s.place ≡ ended → s.sessions ≡ [] → Ends n s
    goes :
        {n : ℕ} (s : Sessions)
        → IsSettled s ⊎ ((s' : Sessions) × Step max_sessions own s s')
        → ((who : Who) (s' : Sessions) → Step max_sessions who s s' → Ends n s')
        → Ends (suc n) s
