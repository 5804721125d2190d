-- ===== src/Zone/NamedConf/Masters.antt =====
-- What `parseNamedConf` makes of a zone's masters.
use simple_dnsd.Base.{ℕ, ◌+◌, ◌≡◌, refl, true, some, [], Bytes, codes, inl, inr, Option-cases, true}
use simple_dnsd.Text.{to_lower}
use simple_dnsd.Text.Find.{find_byte, find, between, lacks, lacks-find_byte, between-lacks}
use simple_dnsd.Zone.Lexer.{quote}
use simple_dnsd.Zone.NamedConf.{NamedZone, master_in, named_zone, next_zone}

-- Without a closing brace in it, a body names no masters.
master_in-lacks : (body : Bytes) → lacks b'}' body ≡ true → master_in body ≡ []
unfolding master_in
master_in-lacks body h = elim (Option-cases (find (codes "masters") 0 (to_lower body))) [
  | inl n ↦ rw (master_in, n) refl
  | inr (pos, e) ↦ elim (Option-cases (find_byte b'{' pos body)) [
    | inl n ↦ rw (master_in, e, n) refl
    | inr (first, f) ↦ rw (master_in, e, f, lacks-find_byte b'}' first body h) refl
  ]
]

-- A complete zone statement, its word, its name in quotes and its braces, is read, and the search
-- goes on behind the first closing brace. The zone has no master, whatever stands in the statement:
-- the body ends at that brace, which is the one that would close the list of masters.
pub next_zone-master :
    (text : Bytes) (pos z q1 q2 b e : ℕ)
    → find (codes "zone") pos (to_lower text) ≡ some z
    → find_byte quote z text ≡ some q1
    → find_byte quote (q1 + 1) text ≡ some q2
    → find_byte b'{' q2 text ≡ some b
    → find_byte b'}' b text ≡ some e
    → (nz : NamedZone) × (next_zone text pos ≡ some (nz, e + 1)) × (nz.info.master ≡ [])
unfolding next_zone
next_zone-master text pos z q1 q2 b e hz h1 h2 hb he = (
  named_zone (between (q1 + 1) q2 text) (between (b + 1) e text),
  rw (hz, h1, h2, hb, he) refl,
  master_in-lacks (between (b + 1) e text) (between-lacks b'}' b e text he),
)
