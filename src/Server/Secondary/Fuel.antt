-- ===== src/Server/Secondary/Fuel.antt =====
-- The loop over the messages of a transfer ends before its fuel does.
use simple_dnsd.Base.{
  ℕ, zero, suc, ◌<◌, ◌≡◌, refl, ap, List, ◌++◌, Bytes, length, arith, Option-cases, inl, inr,
  if◌then◌else◌,
}
use simple_dnsd.Record.{ResourceRecord}
use simple_dnsd.Inet.{Inet}
use simple_dnsd.Message.{decode_message}
use simple_dnsd.Server.Frame.{recv_dns_message}
use simple_dnsd.Server.Tcp.Session.{recv_dns_message-shorter}
use simple_dnsd.Server.Secondary.{is_complete, collect}

-- More fuel than the stream has bytes changes nothing: `refresh_from` gives as much.
pub collect_fuel :
    (net : Inet) (max_size f g : ℕ) (rrs : List ResourceRecord) (stream : Bytes)
    → length stream < f
    → length stream < g
    → collect net max_size f rrs stream ≡ collect net max_size g rrs stream
unfolding collect
collect_fuel net max_size zero g rrs stream p q = absurd (omega arith)
collect_fuel net max_size (suc f) zero rrs stream p q = absurd (omega arith)
collect_fuel net max_size (suc f) (suc g) rrs stream p q =
    elim (Option-cases (recv_dns_message max_size stream)) [
      | inl n ↦ rw (n, collect) refl
      | inr ((msg, rest), e) ↦
          (let shorter = recv_dns_message-shorter max_size stream msg rest e in
            elim (Option-cases (decode_message net msg)) [
              | inl n ↦ rw (e, collect, n) refl
              | inr (parsed, d) ↦
                  rw (e, collect, d)
                    (ap
                      (λ (more : List ResourceRecord).
                        if is_complete (rrs ++ parsed.answers) then rrs ++ parsed.answers else more)
                      (collect_fuel net max_size f g (rrs ++ parsed.answers) rest
                        (omega (arith, shorter)) (omega (arith, shorter))))
            ])
    ]
