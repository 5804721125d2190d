-- ===== src/Server/Udp/Noise.antt =====
-- Packets that are no messages leave no trace.
use simple_dnsd.Base.{
  ℕ, ◌≤◌, arith, ltb, ◌≡◌, refl, ap, sym, ◌∙◌, inl, inr, Bool, true, false, Option, none, some,
  List, [], ◌∷◌, if◌then◌else◌, Bytes, keep_if, Option-cases,
}
use mathlib.Core.Path.{fun_ext}
use simple_dnsd.Outcome.{ok}
use simple_dnsd.Inet.{Inet}
use simple_dnsd.Record.{DnsMessage}
use simple_dnsd.Message.{decode_message}
use simple_dnsd.Backend.{Backend}
use simple_dnsd.Engine.State.{Engine}
use simple_dnsd.Engine.Handle.{Clocks}
use simple_dnsd.Server.{handle_udp_query}
use simple_dnsd.Server.Udp.{Round, after_query, answer_all, Answered, Worker, udp_loop}

picked : {A : Type 0} (b : Bool) (p q : A) → b ≡ false → (elim b [ true ↦ p | false ↦ q ]) ≡ q
picked true p q h = absurd (ground arith)
picked false p q h = refl

module _ {S T : Type 0} (net : Inet) (ops : Backend S T) (hmac : Bytes → Bytes → Bytes) where
  abbrev is_some : Option DnsMessage → Bool
  is_some none = false
  is_some (some query) = true

  -- A round in which a message arrives.
  abbrev pub brings_message : Round → Bool
  brings_message (now, none) = false
  brings_message (now, some (packet, src)) = is_some (decode_message net packet)

  handle_udp_query-none :
      (now : Clocks) (e : Engine S) (packet host : Bytes) (port : ℕ)
      → decode_message net packet ≡ none
      → handle_udp_query net ops hmac now e packet host port ≡ (ok none, e)
  unfolding handle_udp_query
  handle_udp_query-none now e packet host port h = rw (handle_udp_query, h) refl

  -- The loop without threads of its own is the same where the rounds are left out in which nothing arrived or
  -- what arrived is no DNS message.
  answer_all-brings_message :
      (e : Engine S) (rounds : List Round)
      → answer_all net ops hmac e rounds ≡ answer_all net ops hmac e (keep_if brings_message rounds)
  unfolding answer_all after_query
  answer_all-brings_message e [] = refl
  answer_all-brings_message e ((now, none) ∷ rounds) = answer_all-brings_message e rounds
  answer_all-brings_message e ((now, some (packet, src)) ∷ rounds) =
      let p = handle_udp_query net ops hmac now e packet src.host src.port in
      let kept : List Round = keep_if brings_message rounds in
      let filtered : Option DnsMessage → List Round =
        λ d. if is_some d then (now, some (packet, src)) ∷ kept else kept in
      let rest : Engine S → Answered net ops hmac = λ e'. answer_all net ops hmac e' rounds in
      elim (Option-cases (decode_message net packet)) [
        | inl h ↦
            ap (λ q. after_query net ops hmac src q rest)
              (handle_udp_query-none now e packet src.host src.port h)
            ∙ answer_all-brings_message e rounds
            ∙ ap (λ d. answer_all net ops hmac e (filtered d)) (sym h)
        | inr (query, h) ↦
            ap (after_query net ops hmac src p)
              (fun_ext (λ e'. answer_all-brings_message e' rounds))
            ∙ ap (λ d. answer_all net ops hmac e (filtered d)) (sym h)
      ]

  udp_loop-answer_all :
      (worker_threads : ℕ) (workers : List Worker) (e : Engine S) (rounds : List Round)
      → ltb 1 worker_threads ≡ false
      → udp_loop net ops hmac worker_threads workers e rounds
        ≡ (workers, answer_all net ops hmac e rounds)
  unfolding udp_loop answer_all
  udp_loop-answer_all worker_threads workers e [] h = refl
  udp_loop-answer_all worker_threads workers e ((now, none) ∷ rounds) h =
      udp_loop-answer_all worker_threads workers e rounds h
  udp_loop-answer_all worker_threads workers e ((now, some (packet, src)) ∷ rounds) h =
      picked (ltb 1 worker_threads) _ _ h
      ∙ ap
          (λ rest. (
            workers,
            after_query net ops hmac src
                (handle_udp_query net ops hmac now e packet src.host src.port) rest,
          ))
          (fun_ext (λ e'. ap (λ p. p.1) (udp_loop-answer_all worker_threads workers e' rounds h)))

  -- With one worker thread at most, the loop sends the same replies, in the same order and to the same peers,
  -- and leaves the engine in the same state and the workers alone, as it does where the rounds are
  -- left out in which nothing arrived or what arrived is no DNS message. With more, where each packet
  -- is handed to a thread of its own, nothing is stated.
  pub udp_loop-brings_message :
      (worker_threads : ℕ) (workers : List Worker) (e : Engine S) (rounds : List Round)
      → worker_threads ≤ 1
      → udp_loop net ops hmac worker_threads workers e rounds
        ≡ udp_loop net ops hmac worker_threads workers e (keep_if brings_message rounds)
  udp_loop-brings_message worker_threads workers e rounds few =
      let h : ltb 1 worker_threads ≡ false = ground (arith, few) in
      let kept : List Round = keep_if brings_message rounds in
      udp_loop-answer_all worker_threads workers e rounds h
      ∙ ap (λ (a : Answered net ops hmac). (workers, a)) (answer_all-brings_message e rounds)
      ∙ sym (udp_loop-answer_all worker_threads workers e kept h)
