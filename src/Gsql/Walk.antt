-- ===== src/Gsql/Walk.antt =====
-- Which zone `findZone` of the SQL backend takes.
use simple_dnsd.Base.{
  ℕ, zero, suc, ◌+◌, ◌<◌, ◌≤◌, ◌≡◌, refl, Option, none, some, List, [], ◌∷◌, Bytes, length, drop,
  arith,
}
use simple_dnsd.Outcome.{Outcome, ok, thrown, ◌>>=◌}
use simple_dnsd.Name.{DnsName}
use simple_dnsd.Backend.{ZoneInfo}
use simple_dnsd.Gsql.Session.{Row, SqlSession}
use simple_dnsd.Gsql.{row_to_zone, zones_named, find_zone_from, find_zone}

module _ {C : Type 0} (sql : SqlSession C) (c : C) where
  -- The rows for the name that remains when `n` labels are taken from the front.
  abbrev pub rows_at : List Bytes → ℕ → List Row
  rows_at labels n = zones_named sql c (record { labels = drop n labels })

  -- The first of the names, going up, that has rows is `n` labels up, and its first row gives `o`.
  pub record FirstAt (labels : List Bytes) (o : Outcome ZoneInfo) : Type 0 where
    pub steps : ℕ
    pub in_name : steps ≤ length labels
    pub row : Row
    pub rows : List Row
    pub has_rows : rows_at labels steps ≡ row ∷ rows
    pub no_nearer : (m : ℕ) → m < steps → rows_at labels m ≡ []
    pub gives : row_to_zone row ≡ o

  -- What `findZone` promises of its result.
  abbrev pub Nearest : List Bytes → Outcome (Option ZoneInfo) → Type 0
  Nearest labels (ok none) = (n : ℕ) → n ≤ length labels → rows_at labels n ≡ []
  Nearest labels (ok (some z)) = FirstAt labels (ok z)
  Nearest labels thrown = FirstAt labels thrown

  -- The rows of the name itself decide.
  here :
      (labels : List Bytes) (row : Row) (rows : List Row) (o : Outcome ZoneInfo)
      → rows_at labels 0 ≡ row ∷ rows
      → row_to_zone row ≡ o
      → Nearest labels (o >>= λ z. ok (some z))
  here labels row rows (ok z) e g = record {
    steps = 0;
    in_name = omega arith;
    row = row;
    rows = rows;
    has_rows = e;
    no_nearer = λ m h. absurd (omega arith);
    gives = g;
  }
  here labels row rows thrown e g = record {
    steps = 0;
    in_name = omega arith;
    row = row;
    rows = rows;
    has_rows = e;
    no_nearer = λ m h. absurd (omega arith);
    gives = g;
  }

  none_nearer :
      (l : Bytes) (labels : List Bytes) (n : ℕ)
      → rows_at (l ∷ labels) 0 ≡ []
      → ((m : ℕ) → m < n → rows_at labels m ≡ [])
      → (m : ℕ) → m < suc n
      → rows_at (l ∷ labels) m ≡ []
  none_nearer l labels n e h zero k = e
  none_nearer l labels n e h (suc m) k = h m (omega arith)

  further :
      {l : Bytes} {labels : List Bytes} {o : Outcome ZoneInfo}
      → rows_at (l ∷ labels) 0 ≡ []
      → FirstAt labels o
      → FirstAt (l ∷ labels) o
  further {l} {labels} e f = record {
    steps = suc f.steps;
    in_name = let b = f.in_name in omega arith;
    row = f.row;
    rows = f.rows;
    has_rows = f.has_rows;
    no_nearer = none_nearer l labels f.steps e f.no_nearer;
    gives = f.gives;
  }

  -- A name without rows is passed over.
  passed :
      (l : Bytes) (labels : List Bytes) (r : Outcome (Option ZoneInfo))
      → rows_at (l ∷ labels) 0 ≡ []
      → Nearest labels r
      → Nearest (l ∷ labels) r
  passed l labels (ok none) e h =
      λ n k. none_nearer l labels (length labels + 1) e (λ m b. h m (omega arith)) n (omega arith)
  passed l labels (ok (some z)) e h = further e h
  passed l labels thrown e h = further e h

  -- No label can be taken from the root.
  none_nearer_root : rows_at [] 0 ≡ [] → (n : ℕ) → rows_at [] n ≡ []
  none_nearer_root e zero = e
  none_nearer_root e (suc n) = e

  decided :
      (labels : List Bytes) (found : List Row) (above : Outcome (Option ZoneInfo))
      → rows_at labels 0 ≡ found
      → (rows_at labels 0 ≡ [] → Nearest labels above)
      → Nearest labels
          (elim found [ [] ↦ above | row ∷ rows ↦ (row_to_zone row >>= λ z. ok (some z)) ])
  decided labels [] above e h = h e
  decided labels (row ∷ rows) above e h = here labels row rows (row_to_zone row) e refl

  find_zone_from-Nearest : (labels : List Bytes) → Nearest labels (find_zone_from sql c labels)
  unfolding find_zone_from
  find_zone_from-Nearest [] =
      decided [] (rows_at [] 0) (ok none) refl (λ e n k. none_nearer_root e n)
  find_zone_from-Nearest (l ∷ labels) =
      decided (l ∷ labels) (rows_at (l ∷ labels) 0) (find_zone_from sql c labels) refl
        (λ e. passed l labels (find_zone_from sql c labels) e (find_zone_from-Nearest labels))

-- `findZone` takes the zone of the nearest name: going up from the name that is asked for to the
-- root, it is made of the first row for the first name that the database has rows for, and no name
-- before it has any. It is none exactly where no name on the way has rows, and an exception comes
-- from that row alone.
pub find_zone-Nearest :
    {C : Type 0} (sql : SqlSession C) (c : C) (qname : DnsName)
    → Nearest sql c qname.labels (find_zone sql (some c) qname)
unfolding find_zone
find_zone-Nearest sql c qname = find_zone_from-Nearest sql c qname.labels
