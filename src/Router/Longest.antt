-- ===== src/Router/Longest.antt =====
-- The zone that the router finds, among those that the backends find.
use simple_dnsd.Base.{
  ℕ, ◌≤◌, ◌≡◌, refl, Option, some, none, List, [], ◌∷◌, ◌⊎◌, inl, inr, ltb, length, arith,
  Option-cases, Bool-cases,
}
use simple_dnsd.Name.{DnsName}
use simple_dnsd.Backend.{ZoneInfo, Backend}
use simple_dnsd.Router.{find_zone_from, find_zone}

module _ {S T : Type 0} (ops : Backend S T) (qname : DnsName) where
  -- No backend finds a zone.
  abbrev pub NoneFinds : List S → Type 0
  NoneFinds [] = Unit
  NoneFinds (b ∷ backends) = (ops.find_zone b qname ≡ none) × NoneFinds backends

  -- Some backend finds the zone.
  abbrev pub Finds : ZoneInfo → List S → Type 0
  Finds z [] = ⊥
  Finds z (b ∷ backends) = (ops.find_zone b qname ≡ some z) ⊎ Finds z backends

  -- No backend finds a zone with more labels than `bound`.
  abbrev pub FindsNoLonger : ℕ → List S → Type 0
  FindsNoLonger bound [] = Unit
  FindsNoLonger bound (b ∷ backends) =
      ((z : ZoneInfo) → ops.find_zone b qname ≡ some z → length z.name.labels ≤ bound)
      × FindsNoLonger bound backends

  abbrev pub RouterLongest : List S → Option ZoneInfo → Type 0
  RouterLongest backends none = NoneFinds backends
  RouterLongest backends (some z) = Finds z backends × FindsNoLonger (length z.name.labels) backends

  record Kept (best : ZoneInfo) (backends : List S) : Type 0 where
    result : ZoneInfo
    is_result : find_zone_from ops (some best) backends qname ≡ some result
    grows : length best.name.labels ≤ length result.name.labels
    source : (result ≡ best) ⊎ Finds result backends
    longest : FindsNoLonger (length result.name.labels) backends

  -- One backend's find, in front of what is kept after it.
  find_zone_from-Kept : (best : ZoneInfo) (backends : List S) → Kept best backends
  unfolding find_zone_from
  find_zone_from-Kept best [] = record {
    result = best;
    is_result = refl;
    grows = omega arith;
    source = inl refl;
    longest = tt;
  }
  find_zone_from-Kept best (b ∷ backends) = elim (Option-cases (ops.find_zone b qname)) [
    | inl e ↦
        (let k = find_zone_from-Kept best backends in
          record {
            result = k.result;
            is_result = rw e k.is_result;
            grows = k.grows;
            source = elim k.source [ inl s ↦ inl s | inr f ↦ inr (inr f) ];
            longest = ((λ z h. ground arith), k.longest);
          })
    | inr (z, e) ↦ elim (Bool-cases (ltb (length best.name.labels) (length z.name.labels))) [
      | inl more ↦
          (let k = find_zone_from-Kept z backends in
            record {
              result = k.result;
              is_result = rw (e, more) k.is_result;
              grows = ground (arith, k.grows);
              source = elim k.source [ inl s ↦ inr (inl (rw s e)) | inr f ↦ inr (inr f) ];
              longest = ((λ z' h. ground (arith, k.grows)), k.longest);
            })
      | inr less ↦
          (let k = find_zone_from-Kept best backends in
            record {
              result = k.result;
              is_result = rw (e, less) k.is_result;
              grows = k.grows;
              source = elim k.source [ inl s ↦ inl s | inr f ↦ inr (inr f) ];
              longest = ((λ z' h. ground (arith, k.grows)), k.longest);
            })
    ]
  ]

  skipped_backend :
      (b : S) (backends : List S) (o : Option ZoneInfo)
      → ops.find_zone b qname ≡ none
      → RouterLongest backends o
      → RouterLongest (b ∷ backends) o
  skipped_backend b backends none e h = (e, h)
  skipped_backend b backends (some z) e (f, l) = (inr f, ((λ z' h. ground arith), l))

  -- The router returns a zone that one of the backends finds, and no backend finds one with more
  -- labels; it returns none exactly where no backend finds one.
  pub find_zone-RouterLongest :
      (backends : List S) → RouterLongest backends (find_zone ops backends qname)
  unfolding find_zone find_zone_from
  find_zone-RouterLongest [] = tt
  find_zone-RouterLongest (b ∷ backends) = elim (Option-cases (ops.find_zone b qname)) [
    | inl e ↦ rw e (
        skipped_backend b backends (find_zone ops backends qname) e
          (find_zone-RouterLongest backends))
    | inr (z, e) ↦
        (let k = find_zone_from-Kept z backends in
          rw (e, k.is_result)
            (
              (elim k.source [ inl s ↦ inl (rw s e) | inr f ↦ inr f ]),
              ((λ z' h. ground (arith, k.grows)), k.longest),
            ))
  ]
