-- ===== src/Engine/Limiter.antt =====
-- `ResponseRateLimiter`: a counter of each address, for the second that it was last used in. The
-- clock is an argument, in milliseconds.
pub mod Laws
use simple_dnsd.Base.{
  ℕ, ◌+◌, ◌/◌, ◌%◌, ◌^◌, Bool, true, false, not, Option, none, some, leb, ◌==◌, if◌then◌else◌,
  Bytes,
}
use simple_dnsd.StringMap
use simple_dnsd.StringMap.{StringMap}

pub record ResponseRateLimiter : Type 0 where
  pub rate : ℕ
  pub buckets : StringMap (ℕ × ℕ)

-- `buckets_[ip]`, which is (0, 0) where the address is new.
abbrev pub bucket : Option (ℕ × ℕ) → ℕ × ℕ
bucket none = (0, 0)
bucket (some b) = b

-- The bucket once the second has been looked at.
abbrev pub current : ℕ → ℕ × ℕ → ℕ × ℕ
current sec (s, count) = if not (s == sec) then (sec, 0) else (s, count)

unfoldable pub allow : ℕ → ResponseRateLimiter → Bytes → Bool × ResponseRateLimiter
unfolding StringMap.lookup StringMap.insert
allow now limiter ip =
    let (sec, count) = current (now / 1000) (bucket (StringMap.lookup ip limiter.buckets)) in
    if limiter.rate == 0
    then (true, limiter)
    else if leb limiter.rate count
    then (false, record limiter { buckets = StringMap.insert ip (sec, count) limiter.buckets })
    else (
      true,
      record limiter { buckets = StringMap.insert ip (sec, (count + 1) % 2 ^ 32) limiter.buckets },
    )
