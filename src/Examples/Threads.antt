-- ===== src/Examples/Threads.antt =====
-- Sessions, the loop over UDP packets, and signed messages.
use simple_dnsd.Base.{
  keep_if, ◌≡◌, refl, false, not, none, some, List, [], ◌∷◌, Bytes, codes, arith, length, ltb,
}
use simple_dnsd.Name.{parse}
use simple_dnsd.Server.Sessions.{
  Sessions, no_sessions, admits, testing, receiving, waiting, accepting, admitted, counted, enter,
  admit, add, spawn, Steps, done, more,
}
use simple_dnsd.Server.Sessions.Bounded.{IsBounded, Steps-IsBounded}
use simple_dnsd.Tsig.{TsigKey, distance, sign_message, verify_message}
use simple_dnsd.Tsig.RoundTrip.{verify_message-sign_message}
use simple_dnsd.Examples.Data.{no_inet, ops, engine, example_com, www, query}
use simple_dnsd.Engine.Handle.{Clocks}
use simple_dnsd.Net.{SockAddr}
use simple_dnsd.Server.Udp.{Round, udp_loop}
use simple_dnsd.Server.Udp.Noise.{brings_message, udp_loop-brings_message}

-- One session that is served where one is allowed.
abbrev one_session : Sessions
one_session = record no_sessions { count = 1; sessions = (7, testing) ∷ [] }

one_connects : Steps 1 no_sessions one_session
unfolding admits
one_connects =
    more
      (more
        (more (more (done no_sessions) (enter no_sessions refl refl))
          (admit (record no_sessions { place = accepting }) 7 refl refl))
        (add (record no_sessions { place = admitted 7 }) 7 refl))
      (spawn (record no_sessions { place = counted 7; count = 1 }) 7 refl)

Steps-IsBounded_example : IsBounded 1 one_session
Steps-IsBounded_example = Steps-IsBounded 1 (omega arith) one_connects

abbrev stopped : Sessions
stopped = record one_session {
  running = false;
  place = admitted 9;
  sessions = (7, receiving) ∷ (8, waiting) ∷ [];
}

-- A keyed hash of the lengths alone.
abbrev toy_hmac : Bytes → Bytes → Bytes
toy_hmac secret input = length input ∷ secret

abbrev key : TsigKey
key = record { name = example_com; algorithm = codes "hmac-sha256."; secret = 1 ∷ 2 ∷ [] }

verify_message-sign_message_example :
    verify_message toy_hmac 1700000300
      (sign_message toy_hmac 1700000000 no_inet (query www 1) key 300).1
      key
    ≡ not (ltb 300 (distance 1700000300 1700000000))
unfolding parse
verify_message-sign_message_example =
    verify_message-sign_message toy_hmac 1700000000 1700000300 no_inet (query www 1) key 300 refl
      refl (omega arith) (omega arith) (omega arith)

abbrev client : SockAddr
client = record { host = codes "192.0.2.7"; port = 5300; ipv6 = false }

abbrev tick : Clocks
tick = record { seconds = 1; ms = 1000 }

-- A query without a question between a packet of two bytes and a time out.
abbrev rounds : List Round
rounds =
    (tick, some (1 ∷ 2 ∷ [], client))
    ∷ (tick, some (0 ∷ 1 ∷ 0 ∷ 0 ∷ 0 ∷ 0 ∷ 0 ∷ 0 ∷ 0 ∷ 0 ∷ 0 ∷ 0 ∷ [], client))
    ∷ (tick, none)
    ∷ []

udp_loop-brings_message_example :
    udp_loop no_inet ops toy_hmac 1 [] engine rounds
    ≡ udp_loop no_inet ops toy_hmac 1 [] engine
        (keep_if (brings_message no_inet ops toy_hmac) rounds)
udp_loop-brings_message_example =
    udp_loop-brings_message no_inet ops toy_hmac 1 [] engine rounds (omega arith)
