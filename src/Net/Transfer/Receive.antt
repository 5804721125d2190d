-- ===== src/Net/Transfer/Receive.antt =====
-- What is read from a connection is the stream of its peer, however the system cuts it up.
use simple_dnsd.Base.{
  ℕ, zero, [], ◌∷◌, ap, bit_or, ◌*◌, ◌^◌, suc, ◌-◌, ◌≤◌, ◌<◌, ◌≡◌, refl, ap, sym, ◌∙◌, inl, inr,
  Option, none, some, ◌++◌, ◌==◌, Bytes, length, length-append, take-past, drop-past, arith,
  Bool-cases,
}
use simple_dnsd.Net.Calls.{Os}
use simple_dnsd.Net.Transfer.{
  recv_rounds, recv_all, recv_exactly, recv_rest, recv_message, message_length,
}
use simple_dnsd.Server.Frame.{recv_exact, recv_body, recv_dns_message}

-- A blocking read of a connection: `pending` is what the peer still sends before it closes the
-- connection. A read gives a first part of that, no longer than it was asked for, and gives nothing
-- only at the end.
pub record IsStream {W : Type 0} (os : Os W) (fd : ℕ) (pending : W → Bytes) : Type 0 where
  pub in_order : (w : W) (n : ℕ) → pending w ≡ (os.recv w fd n).0 ++ pending (os.recv w fd n).1
  pub no_more : (w : W) (n : ℕ) → length (os.recv w fd n).0 ≤ n
  pub ends : (w : W) (n : ℕ) → 0 < n → length (os.recv w fd n).0 ≡ 0 → length (pending w) ≡ 0

-- `recv_exact` asked for the rest behind a first part of the stream.
-- A stream asked for a first part and then for the rest.
recv_exact-append :
    (c s : Bytes) (n : ℕ)
    → length c ≤ n
    → recv_exact n (c ++ s)
      ≡ elim (recv_exact (n - length c) s) [ none ↦ none | some (b, r) ↦ some (c ++ b, r) ]
unfolding recv_exact
recv_exact-append c s n h = ground (
  arith,
  length-append c s,
  take-past c s n (n - length c) (omega arith),
  drop-past c s n (n - length c) (omega arith),
)

module _ {W : Type 0} (pending : W → Bytes) where
  -- What a call read, and what is then left of the stream.
  abbrev pub view : Option Bytes × W → Option (Bytes × Bytes)
  view (none, w) = none
  view (some bytes, w) = some (bytes, pending w)

module _ {W : Type 0} {os : Os W} {fd : ℕ} {pending : W → Bytes} (s : IsStream os fd pending) where
  view-append :
      (c : Bytes) (p : Option Bytes × W)
      → view pending (elim p.0 [ none ↦ none | some b ↦ some (c ++ b) ], p.1)
        ≡ elim (view pending p) [ none ↦ none | some (b, r) ↦ some (c ++ b, r) ]
  view-append c (none, w) = refl
  view-append c (some b, w) = refl

  recv_rounds-recv_exact :
      (fuel : ℕ) (w : W) (n : ℕ)
      → n ≤ fuel
      → view pending (recv_rounds os fuel w fd n) ≡ recv_exact n (pending w)
  unfolding recv_rounds recv_exact
  recv_rounds-recv_exact zero w n h = ground arith
  recv_rounds-recv_exact (suc fuel) w n h =
      let c = (os.recv w fd n).0 in
      let w1 = (os.recv w fd n).1 in
      elim (Bool-cases (n == 0)) [
        | inl none_wanted ↦ ground (arith)
        | inr wanted ↦ elim (Bool-cases (length c == 0)) [
          | inl nothing ↦ ground (arith, s.ends w n)
          | inr something ↦
              let step : view pending (recv_rounds os (suc fuel) w fd n)
                  ≡ elim (view pending (recv_rounds os fuel w1 fd (n - length c))) [
                    | none ↦ none
                    | some (b, r) ↦ some (c ++ b, r)
                  ] =
                rw (wanted, something) (view-append c (recv_rounds os fuel w1 fd (n - length c))) in
              step
              ∙ ap (λ v. elim v [ none ↦ none | some (b, r) ↦ some (c ++ b, r) ])
                  (recv_rounds-recv_exact fuel w1 (n - length c) (ground arith))
              ∙ sym (recv_exact-append c (pending w1) n (s.no_more w n))
              ∙ ap (recv_exact n) (sym (s.in_order w n))
        ]
      ]

  recv_all-recv_exact :
      (w : W) (n : ℕ) → view pending (recv_all os w fd n) ≡ recv_exact n (pending w)
  unfolding recv_all
  recv_all-recv_exact w n = recv_rounds-recv_exact n w n (omega arith)

  recv_rest-recv_body :
      (w : W) (max_size len : ℕ)
      → view pending (recv_rest os w (some fd) max_size len) ≡ recv_body max_size len (pending w)
  unfolding recv_rest recv_exactly recv_body
  recv_rest-recv_body w max_size len = ground (arith, recv_all-recv_exact w len)

  view-none : (p : Option Bytes × W) → view pending p ≡ none → p.0 ≡ none
  view-none (none, w) e = refl
  view-none (some b, w) e = absurd (ground arith)

  view-some :
      (p : Option Bytes × W) (b r : Bytes)
      → view pending p ≡ some (b, r)
      → (p.0 ≡ some b) × (pending p.1 ≡ r)
  view-some (none, w) b r e = absurd (ground arith)
  view-some (some b', w) b r e = ground arith

  two_bytes : (hi lo : ℕ) (r : Bytes) → recv_exact 2 (hi ∷ lo ∷ r) ≡ some (hi ∷ lo ∷ [], r)
  unfolding recv_exact
  two_bytes hi lo r = ground arith

  recv_message-on :
      (w : W) (max_size : ℕ) (stream : Bytes)
      → pending w ≡ stream
      → view pending (recv_message os w (some fd) max_size) ≡ recv_dns_message max_size (pending w)
  unfolding recv_message recv_exactly message_length recv_dns_message recv_exact
  recv_message-on w max_size [] e =
      rw
        (
          e,
          recv_message,
          recv_exactly,
          view-none (recv_all os w fd 2) (recv_all-recv_exact w 2 ∙ ap (recv_exact 2) e),
        )
        refl
  recv_message-on w max_size (hi ∷ []) e =
      rw
        (
          e,
          recv_message,
          recv_exactly,
          view-none (recv_all os w fd 2) (recv_all-recv_exact w 2 ∙ ap (recv_exact 2) e),
        )
        refl
  recv_message-on w max_size (hi ∷ lo ∷ r) e =
      let two = recv_all-recv_exact w 2 ∙ ap (recv_exact 2) e ∙ two_bytes hi lo r in
      let (bytes, left) = view-some (recv_all os w fd 2) (hi ∷ lo ∷ []) r two in
      let len = bit_or (hi * 2 ^ 8) lo in
      rw (e, recv_message, recv_exactly, bytes)
        (recv_rest-recv_body (recv_all os w fd 2).1 max_size len ∙ ap (recv_body max_size len) left)

  -- On a connection that is read as `IsStream` says, `recvDnsMessage` gives the message that the stream of
  -- the peer begins with, or nothing where that has none of a length it takes, and what it leaves
  -- unread behind a message is the rest of the stream, in whatever pieces the system hands the bytes
  -- over.
  pub recv_message-recv_dns_message :
      (w : W) (max_size : ℕ)
      → view pending (recv_message os w (some fd) max_size) ≡ recv_dns_message max_size (pending w)
  recv_message-recv_dns_message w max_size = recv_message-on w max_size (pending w) refl
