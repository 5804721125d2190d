-- ===== src/Router.antt =====
-- `BackendRouter` of src/simple-dnsd/backend/router.cpp, over any implementation of the backend
-- interface. A pointer to a backend is its place in the vector, with the backend that stands there.
pub mod Longest
pub mod Launch
use simple_dnsd.Base.{
  ℕ, zero, suc, ◌+◌, Bool, true, false, not, ◌&&◌, ◌||◌, Option, none, some, List, [], ◌∷◌, ◌++◌,
  ltb, ◌==◌, if◌then◌else◌, length, set, any_of, is_empty, find_if,
}
use simple_dnsd.Outcome.{Outcome, ok, thrown}
use simple_dnsd.Name.{DnsName, equals}
use simple_dnsd.Record.{ResourceRecord, new_record}
use simple_dnsd.Record.RrType
use simple_dnsd.Backend.{ZoneInfo, Backend, negsuc}

module _ {S T : Type 0} (ops : Backend S T) where
  abbrev pub add : List S → Option S → List S
  add backends none = backends
  add backends (some b) = backends ++ b ∷ []

  -- The backends after the first that fails are not called.
  initialize_all : List S → Outcome Bool × List S
  initialize_all [] = (ok true, [])
  initialize_all (b ∷ backends) =
      let (done, b') = ops.initialize b in
      let (rest, backends') = initialize_all backends in
      elim done [
        | thrown ↦ (thrown, b' ∷ backends)
        | ok false ↦ (ok false, b' ∷ backends)
        | ok true ↦ (rest, b' ∷ backends')
      ]

  unfoldable pub initialize : List S → Outcome Bool × List S
  unfolding initialize_all
  initialize backends =
      let (done, backends') = initialize_all backends in
      (elim done [ thrown ↦ thrown | ok b ↦ ok (b && not (is_empty backends)) ], backends')

  -- What `findZone` holds after one more backend.
  unfoldable pub longer : Option ZoneInfo → Option ZoneInfo → Option ZoneInfo
  longer best none = best
  longer none (some z) = some z
  longer (some best) (some z) =
      if ltb (length best.name.labels) (length z.name.labels) then some z else some best

  unfoldable pub find_zone_from : Option ZoneInfo → List S → DnsName → Option ZoneInfo
  unfolding longer
  find_zone_from best [] qname = best
  find_zone_from best (b ∷ backends) qname =
      find_zone_from (longer best (ops.find_zone b qname)) backends qname

  unfoldable pub find_zone : List S → DnsName → Option ZoneInfo
  unfolding find_zone_from
  find_zone backends qname = find_zone_from none backends qname

  abbrev pub owns : ZoneInfo → S → Bool
  owns zone b = any_of (λ z. equals z.name zone.name) (ops.list_zones b)

  abbrev shift : Option (ℕ × S) → Option (ℕ × S)
  shift none = none
  shift (some (i, b)) = some (suc i, b)

  unfoldable pub owner_of : List S → ZoneInfo → Option (ℕ × S)
  unfolding equals
  owner_of [] zone = none
  owner_of (b ∷ backends) zone =
      let later = shift (owner_of backends zone) in if owns zone b then some (0, b) else later

  unfoldable pub list_zones : List S → List ZoneInfo
  list_zones [] = []
  list_zones (b ∷ backends) = ops.list_zones b ++ list_zones backends

  unfoldable pub lookup : List S → ZoneInfo → DnsName → ℕ → List ResourceRecord
  unfolding owner_of
  lookup backends zone qname qtype = elim (owner_of backends zone) [
    | none ↦ []
    | some (i, b) ↦ ops.lookup b zone qname qtype
  ]

  unfoldable pub list_zone : List S → ZoneInfo → List ResourceRecord
  unfolding owner_of
  list_zone backends zone = elim (owner_of backends zone) [
    | none ↦ []
    | some (i, b) ↦ ops.list_zone b zone
  ]

  unfoldable pub name_exists : List S → ZoneInfo → DnsName → Bool
  unfolding owner_of
  name_exists backends zone qname = elim (owner_of backends zone) [
    | none ↦ false
    | some (i, b) ↦ ops.name_exists b zone qname
  ]

  unfoldable pub find_delegation : List S → ZoneInfo → DnsName → Option DnsName
  unfolding owner_of
  find_delegation backends zone qname = elim (owner_of backends zone) [
    | none ↦ none
    | some (i, b) ↦ ops.find_delegation b zone qname
  ]

  unfoldable pub writable_backend : List S → Option (ℕ × S)
  writable_backend [] = none
  writable_backend (b ∷ backends) =
      let later = shift (writable_backend backends) in if ops.writable b then some (0, b) else later

  unfoldable pub create_zone : List S → ZoneInfo → ResourceRecord → Outcome Bool × List S
  unfolding writable_backend
  create_zone backends zone soa = elim (writable_backend backends) [
    | none ↦ (ok false, backends)
    | some (i, b) ↦ (let (done, b') = ops.create_zone b zone soa in (done, set backends i b'))
  ]

  unfoldable pub delete_zone : List S → ZoneInfo → Bool × List S
  unfolding owner_of
  delete_zone backends zone = elim (owner_of backends zone) [
    | none ↦ (false, backends)
    | some (i, b) ↦ (let (done, b') = ops.delete_zone b zone in (done, set backends i b'))
  ]

  -- The transaction, with the place of the backend that it belongs to.
  unfoldable pub begin : List S → ZoneInfo → Option (ℕ × S × T)
  unfolding owner_of
  begin backends zone = elim (owner_of backends zone) [
    | none ↦ none
    | some (i, b) ↦ elim (ops.begin b zone) [ none ↦ none | some tx ↦ some (i, b, tx) ]
  ]

  -- `tx->commit()`, which writes to the backend at place `i`.
  unfoldable pub commit : List S → ℕ × S × T → Outcome Bool × List S
  commit backends (i, b, tx) =
      let (done, b') = ops.transaction.commit tx b in (done, set backends i b')

  add_others : T → List ResourceRecord → T
  add_others tx [] = tx
  add_others tx (rr ∷ rrs) =
      add_others (if not (rr.type == RrType.soa) then (ops.transaction.add_record tx rr).1 else tx)
        rrs

  -- `copyZone` to another backend, which comes back with the result. `createZone` is made of the
  -- zone with id -1 and of its first SOA, or of a new record where it has none.
  unfoldable pub copy_zone : List S → ZoneInfo → S → Outcome Bool × S
  unfolding list_zone add_others
  copy_zone backends from dest =
      let rrs = list_zone backends from in
      let soa : ResourceRecord = elim (find_if (λ rr. rr.type == RrType.soa) rrs) [
        | none ↦ new_record
        | some rr ↦ rr
      ] in
      let (created, dest') = ops.create_zone dest (record from { id = negsuc 0 }) soa in
      elim created [
        | thrown ↦ (thrown, dest')
        | ok false ↦ (ok false, dest')
        | ok true ↦ elim (ops.find_zone dest' from.name) [
          | none ↦ (ok false, dest')
          | some z ↦ elim (ops.begin dest' z) [
            | none ↦ (ok false, dest')
            | some tx ↦ ops.transaction.commit (add_others tx rrs) dest'
          ]
        ]
      ]
