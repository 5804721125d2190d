-- ===== src/Engine/Limiter/Laws.antt =====
-- The limiter lets at most `rate` queries of an address through in one second.
use simple_dnsd.Base.{
  ℕ, ◌+◌, ◌-◌, ◌/◌, ◌%◌, ◌^◌, ◌<◌, min, ◌≡◌, List, [], ◌∷◌, if◌then◌else◌, Bytes, ltb, arith,
  Bool-cases, inl, inr, ◌&&◌, str_eq, str_eq_iff, false,
}
use simple_dnsd.StringMap
use simple_dnsd.StringMap.Laws.{lookup-insert, lookup-insert_self}
use simple_dnsd.Engine.Limiter.{ResponseRateLimiter, bucket, current, allow}

-- The calls at the given times for the given addresses: how many of those for `ip` were let through.
abbrev pub run : List (ℕ × Bytes) → ResponseRateLimiter → Bytes → ℕ
run [] limiter ip = 0
run ((now, peer) ∷ calls) limiter ip =
    (if str_eq peer ip && (allow now limiter peer).0 then 1 else 0)
    + run calls (allow now limiter peer).1 ip

-- The number of calls for one address.
abbrev pub calls_of : Bytes → List (ℕ × Bytes) → ℕ
calls_of ip [] = 0
calls_of ip ((now, peer) ∷ calls) = (if str_eq peer ip then 1 else 0) + calls_of ip calls

-- All the calls lie in one second.
abbrev pub Within : ℕ → List (ℕ × Bytes) → Type 0
Within sec [] = Unit
Within sec ((now, peer) ∷ calls) = (now / 1000 ≡ sec) × Within sec calls

abbrev pub used : ℕ → ResponseRateLimiter → Bytes → ℕ
used sec limiter ip = (current sec (bucket (StringMap.lookup ip limiter.buckets))).1

module _ (sec now : ℕ) (limiter : ResponseRateLimiter) (same : now / 1000 ≡ sec) where
  allow-rate : (peer : Bytes) → (allow now limiter peer).1.rate ≡ limiter.rate
  unfolding allow
  allow-rate peer = ground arith

  allow-verdict :
      (ip : Bytes)
      → 0 < limiter.rate
      → (allow now limiter ip).0 ≡ ltb (used sec limiter ip) limiter.rate
  unfolding allow
  allow-verdict ip h = ground arith

  allow-used :
      (ip : Bytes)
      → 0 < limiter.rate
      → limiter.rate < 2 ^ 32
      → used sec (allow now limiter ip).1 ip ≡ (
          if ltb (used sec limiter ip) limiter.rate
          then used sec limiter ip + 1
          else used sec limiter ip)
  unfolding allow
  allow-used ip h k =
      let p = current (now / 1000) (bucket (StringMap.lookup ip limiter.buckets)) in
      ground (
        arith,
        lookup-insert_self ip (p.0, p.1) limiter.buckets,
        lookup-insert_self ip (p.0, (p.1 + 1) % 2 ^ 32) limiter.buckets,
      )

  -- A call for another address leaves the counter of this one.
  allow-used_other :
      (peer ip : Bytes)
      → str_eq peer ip ≡ false
      → used sec (allow now limiter peer).1 ip ≡ used sec limiter ip
  unfolding allow
  allow-used_other peer ip h =
      let p = current (now / 1000) (bucket (StringMap.lookup peer limiter.buckets)) in
      ground (
        arith,
        lookup-insert ip peer (p.0, p.1) limiter.buckets,
        lookup-insert ip peer (p.0, (p.1 + 1) % 2 ^ 32) limiter.buckets,
      )

-- Whatever queries of whatever addresses come within one second, exactly as many of those from one
-- address are let through as the rate leaves: the least of their number and of the rate less what the
-- address has used in that second. The rate is not 0, which stands for no limit, and it is below 2^32.
pub run-Within :
    (sec : ℕ) (calls : List (ℕ × Bytes)) (limiter : ResponseRateLimiter) (ip : Bytes)
    → 0 < limiter.rate
    → limiter.rate < 2 ^ 32
    → Within sec calls
    → run calls limiter ip ≡ min (calls_of ip calls) (limiter.rate - used sec limiter ip)
run-Within sec [] limiter ip h k w = omega arith
run-Within sec ((now, peer) ∷ calls) limiter ip h k w =
    let next = (allow now limiter peer).1 in
    let same = allow-rate sec now limiter w.0 peer in
    let rest = run-Within sec calls next ip (rw same h) (rw same k) w.1 in
    elim (Bool-cases (str_eq peer ip)) [
      | inl e ↦
          (let is_ip = (str_eq_iff peer ip).0 e in
            ground (
              arith,
              e,
              same,
              is_ip,
              allow-verdict sec now limiter w.0 ip h,
              allow-used sec now limiter w.0 ip h k,
              rest,
            ))
      | inr e ↦ ground (arith, e, same, allow-used_other sec now limiter w.0 peer ip e, rest)
    ]
