-- ===== src/Engine/Cache.antt =====
-- `PacketCache`: responses in wire form, with the time at which each expires. The clock is an
-- argument, in milliseconds.
pub mod Laws
use simple_dnsd.Base.{
  ℕ, ◌+◌, ◌*◌, ◌%◌, ◌^◌, Bool, ◌||◌, Option, none, some, List, [], ltb, leb, ◌==◌, if◌then◌else◌,
  Bytes,
}
use simple_dnsd.StringMap
use simple_dnsd.StringMap.{StringMap}

pub record Entry : Type 0 where
  pub wire : Bytes
  pub expires_ms : ℕ

pub record PacketCache : Type 0 where
  pub max_entries : ℕ
  pub entries : StringMap Entry

abbrev pub new_cache : ℕ → PacketCache
new_cache max_entries = record { max_entries = max_entries; entries = StringMap.empty }

-- A full cache is emptied before it takes one more entry.
unfoldable pub put : ℕ → PacketCache → Bytes → Bytes → ℕ → PacketCache
unfolding StringMap.insert
put now cache key wire ttl =
    let kept =
      if leb cache.max_entries (StringMap.size cache.entries)
      then StringMap.empty
      else cache.entries in
    let e : Entry = record { wire = wire; expires_ms = (now + ttl * 1000) % 2 ^ 64 } in
    if ttl == 0 || cache.max_entries == 0
    then cache
    else record cache { entries = StringMap.insert key e kept }

-- The wire form, and the cache: an entry that is past its time is removed.
unfoldable pub get : ℕ → PacketCache → Bytes → Option Bytes × PacketCache
unfolding StringMap.lookup StringMap.erase
get now cache key = elim (StringMap.lookup key cache.entries) [
  | none ↦ (none, cache)
  | some e ↦
      if ltb e.expires_ms now
      then (none, record cache { entries = StringMap.erase key cache.entries })
      else (some e.wire, cache)
]

unfoldable pub invalidate : PacketCache → PacketCache
invalidate cache = record cache { entries = StringMap.empty }
