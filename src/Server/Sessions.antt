-- ===== src/Server/Sessions.antt =====
-- The TCP sessions of a server: `tcpLoop` and `handleTcp` of src/simple-dnsd/core/server.cpp, the threads
-- that the loop starts and the counter that they share, as a relation between states. Each access to
-- the counter and each stage of a session is a step of its own, so the steps of the loop and of the
-- sessions interleave in every way. A connection is its descriptor; what a session reads and answers is
-- in Server/Tcp.antt.
pub mod Bounded
pub mod Ending
use simple_dnsd.Base.{
  ℕ, ◌+◌, ◌-◌, ◌%◌, ◌^◌, ◌≡◌, Bool, true, false, not, ◌&&◌, List, [], ◌∷◌, ◌++◌, ltb, leb,
}

-- Where the thread of `tcpLoop` stands: at its test of `running_`, in `acceptConnection`, behind the
-- test of the limit, behind `fetch_add`, or at its end.
pub data Place : Type 0 where
  at_head accepting ended : Place
  admitted counted : ℕ → Place

-- Where a session stands: at its test of `running_`, in `waitReadable`, in `recvDnsMessage`, at the
-- answer, which ends with the sending of it, or behind `handleTcp` and not subtracted yet.
pub data Stage : Type 0 where
  testing waiting receiving answering leaving : Stage

-- `sessions` are those that the loop has handed over and that were not subtracted yet.
pub record Sessions : Type 0 where
  pub running : Bool
  pub count : ℕ
  pub place : Place
  pub sessions : List (ℕ × Stage)

abbrev pub no_sessions : Sessions
no_sessions = record { running = true; count = 0; place = at_head; sessions = [] }

-- Whether a thread of the server takes the step by itself, or waits for it as long as its peer likes:
-- `recvAll` and `sendAllBytes` have no time out.
pub data Who : Type 0 where
  own peer : Who

-- The stages of `handleTcp`, by the value of `running_`.
pub data Move : Who → Bool → Stage → Stage → Type 0 where
  go_on : Move own true testing waiting
  give_up : Move own false testing leaving
  idle : {running : Bool} → Move own running waiting leaving
  readable : {running : Bool} → Move peer running waiting receiving
  received : {running : Bool} → Move peer running receiving answering
  hung_up : {running : Bool} → Move peer running receiving leaving
  answered : {running : Bool} → Move peer running answering testing
  let_go : {running : Bool} → Move peer running answering leaving

-- The test that a connection must pass.
unfoldable pub admits : ℕ → ℕ → Bool
admits max_sessions count = not (ltb 0 max_sessions && leb max_sessions count)

-- `fetch_add(1)` and `fetch_sub(1)` on a `uint32_t`.
abbrev pub add_one : ℕ → ℕ
add_one n = (n + 1) % 2 ^ 32

abbrev pub subtract_one : ℕ → ℕ
subtract_one n = (n + (2 ^ 32 - 1)) % 2 ^ 32

pub data Step (max_sessions : ℕ) : Who → Sessions → Sessions → Type 0 where
  enter :
      (s : Sessions)
      → s.place ≡ at_head
      → s.running ≡ true
      → Step max_sessions own s (record s { place = accepting })
  leave_loop :
      (s : Sessions)
      → s.place ≡ at_head
      → s.running ≡ false
      → Step max_sessions own s (record s { place = ended })
  time_out :
      (s : Sessions) → s.place ≡ accepting → Step max_sessions own s (record s { place = at_head })
  refuse :
      (s : Sessions)
      → s.place ≡ accepting
      → admits max_sessions s.count ≡ false
      → Step max_sessions peer s (record s { place = at_head })
  admit :
      (s : Sessions) (c : ℕ)
      → s.place ≡ accepting
      → admits max_sessions s.count ≡ true
      → Step max_sessions peer s (record s { place = admitted c })
  add :
      (s : Sessions) (c : ℕ)
      → s.place ≡ admitted c
      → Step max_sessions own s (record s { place = counted c; count = add_one s.count })
  spawn :
      (s : Sessions) (c : ℕ)
      → s.place ≡ counted c
      → Step max_sessions own s (record s { place = at_head; sessions = (c, testing) ∷ s.sessions })
  move :
      {who : Who} (s : Sessions) (before after : List (ℕ × Stage)) (c : ℕ) {from to : Stage}
      → s.sessions ≡ before ++ (c, from) ∷ after
      → Move who s.running from to
      → Step max_sessions who s (record s { sessions = before ++ (c, to) ∷ after })
  subtract :
      (s : Sessions) (before after : List (ℕ × Stage)) (c : ℕ)
      → s.sessions ≡ before ++ (c, leaving) ∷ after
      → Step max_sessions own s
          (record s { sessions = before ++ after; count = subtract_one s.count })
  stop : (s : Sessions) → s.running ≡ true → Step max_sessions own s (record s { running = false })

pub data Steps (max_sessions : ℕ) : Sessions → Sessions → Type 0 where
  done : (s : Sessions) → Steps max_sessions s s
  more :
      {who : Who} {s s' s'' : Sessions}
      → Steps max_sessions s s'
      → Step max_sessions who s' s''
      → Steps max_sessions s s''
