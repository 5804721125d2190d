-- ===== src/Engine/Cache/Laws.antt =====
-- What the cache returns, and how large it grows.
use simple_dnsd.Base.{
  ℕ, ◌+◌, ◌*◌, ◌%◌, ◌^◌, ◌≤◌, ◌<◌, ◌≡◌, none, some, if◌then◌else◌, Bytes, ltb, arith,
}
use simple_dnsd.StringMap
use simple_dnsd.StringMap.Laws.{lookup-insert_self, size-insert}
use simple_dnsd.Engine.Cache.{PacketCache, Entry, put, get}

-- A response that was put is returned until its time is over, and not afterwards: `ttl` seconds,
-- the last millisecond included.
pub get-put :
    (now later ttl : ℕ) (cache : PacketCache) (key wire : Bytes)
    → 0 < ttl
    → 0 < cache.max_entries
    → now + ttl * 1000 < 2 ^ 64
    → (get later (put now cache key wire ttl) key).0
      ≡ (if ltb (now + ttl * 1000) later then none else some wire)
unfolding get put
get-put now later ttl cache key wire h k fits =
    let e : Entry = record { wire = wire; expires_ms = (now + ttl * 1000) % 2 ^ 64 } in
    ground (arith, lookup-insert_self key e cache.entries, lookup-insert_self key e StringMap.empty)

-- A put never lets the number of entries pass the bound.
pub put-size :
    (now ttl : ℕ) (cache : PacketCache) (key wire : Bytes)
    → StringMap.size cache.entries ≤ cache.max_entries
    → StringMap.size (put now cache key wire ttl).entries ≤ cache.max_entries
unfolding put
put-size now ttl cache key wire h =
    let e : Entry = record { wire = wire; expires_ms = (now + ttl * 1000) % 2 ^ 64 } in
    ground (arith, size-insert key e cache.entries, size-insert key e StringMap.empty)
