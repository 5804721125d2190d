-- ===== src/Server/Sessions/Bounded.antt =====
-- The limit on the sessions holds.
use simple_dnsd.Base.{ℕ, ◌+◌, ◌%◌, ◌^◌, ◌≤◌, ◌<◌, ◌≡◌, ◌∷◌, length, length-append, arith}
use simple_dnsd.Server.Sessions.{
  Place, at_head, accepting, ended, admitted, counted, leaving, Who, Sessions, no_sessions, admits,
  Step, enter, leave_loop, time_out, refuse, admit, add, spawn, move, subtract, stop, Steps, done,
  more,
}

-- The connection that the loop has counted and not handed over yet.
abbrev pub in_hand : Place → ℕ
in_hand (counted c) = 1
in_hand at_head = 0
in_hand accepting = 0
in_hand ended = 0
in_hand (admitted c) = 0

-- The sessions that are counted.
abbrev pub live : Sessions → ℕ
live s = length s.sessions + in_hand s.place

-- One more session must fit where the loop has admitted it.
abbrev pub wanted : Place → ℕ
wanted (admitted c) = 1
wanted (counted c) = 0
wanted at_head = 0
wanted accepting = 0
wanted ended = 0

-- The counter is the number of sessions, as far as 32 bits go, and the limit, where there is one,
-- holds for them.
pub record IsBounded (max_sessions : ℕ) (s : Sessions) : Type 0 where
  pub counts : s.count ≡ live s % 2 ^ 32
  pub fits : 0 < max_sessions → live s + wanted s.place ≤ max_sessions

module _ (max_sessions : ℕ) (narrow : max_sessions < 2 ^ 32) where
  Step-IsBounded :
      {who : Who} {s s' : Sessions}
      → Step max_sessions who s s'
      → IsBounded max_sessions s
      → IsBounded max_sessions s'
  unfolding admits
  Step-IsBounded (enter s p r) h = record {
    counts = ground (arith, h.counts);
    fits = λ l. ground (arith, h.fits l);
  }
  Step-IsBounded (leave_loop s p r) h = record {
    counts = ground (arith, h.counts);
    fits = λ l. ground (arith, h.fits l);
  }
  Step-IsBounded (time_out s p) h = record {
    counts = ground (arith, h.counts);
    fits = λ l. ground (arith, h.fits l);
  }
  Step-IsBounded (refuse s p full) h = record {
    counts = ground (arith, h.counts);
    fits = λ l. ground (arith, h.fits l);
  }
  Step-IsBounded (admit s c p free) h = record {
    counts = ground (arith, h.counts);
    fits = λ l. ground (arith, h.fits l);
  }
  Step-IsBounded (add s c p) h = record {
    counts = ground (arith, h.counts);
    fits = λ l. ground (arith, h.fits l);
  }
  Step-IsBounded (spawn s c p) h = record {
    counts = ground (arith, h.counts);
    fits = λ l. ground (arith, h.fits l);
  }
  Step-IsBounded (move s a b c {from} {to} e m) h =
      let l1 = length-append a ((c, from) ∷ b) in
      let l2 = length-append a ((c, to) ∷ b) in
      record {
        counts = ground (arith, h.counts, e, l1, l2);
        fits = λ l. ground (arith, h.fits l, e, l1, l2);
      }
  Step-IsBounded (subtract s a b c e) h =
      let l1 = length-append a b in
      let l2 = length-append a ((c, leaving) ∷ b) in
      record {
        counts = ground (arith, h.counts, e, l1, l2);
        fits = λ l. ground (arith, h.fits l, e, l1, l2);
      }
  Step-IsBounded (stop s r) h = record { counts = h.counts; fits = h.fits }

  -- Wherever the loop and the sessions stand, the counter is the number of sessions that are counted, modulo
  -- 2 ^ 32, and where there is a limit below 2 ^ 32 there are never more of them, the connection that
  -- the loop has just let in included.
  pub Steps-IsBounded : {s : Sessions} → Steps max_sessions no_sessions s → IsBounded max_sessions s
  Steps-IsBounded (done s) = record { counts = ground arith; fits = λ l. ground arith }
  Steps-IsBounded (more steps step) = Step-IsBounded step (Steps-IsBounded steps)
