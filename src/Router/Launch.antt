-- ===== src/Router/Launch.antt =====
-- `makeBackend` and `loadBackends` of src/simple-dnsd/backend/router.cpp. The constructors of the
-- backends are a parameter; those of the databases give none where they are not compiled in.
use simple_dnsd.Base.{
  ◌≡◌, refl, sym, ap, ◌∙◌, Bool, true, false, not, ◌&&◌, ◌||◌, Option, none, some, List, [], ◌∷◌,
  ◌++◌, if◌then◌else◌, Bytes, codes, str_eq, is_empty, all_of, length, arith,
}
use mathlib.Core.List.{append_assoc, append-nil}
use simple_dnsd.Config.{DnsConfig}
use simple_dnsd.Config.Load.{launch_backends}
use simple_dnsd.Config.Validate.{is_sqlite, is_postgres, is_mysql, is_bind, is_log_level, validate}
use simple_dnsd.Config.Validate.Sound.{is_ready, validate_lem}
use simple_dnsd.Backend.{Backend}
use simple_dnsd.Outcome.{Outcome, ok}
use simple_dnsd.Router.{initialize}

pub record Factories (S : Type 0) : Type 0 where
  pub memory : S
  pub bind_file : Bytes → S
  pub sqlite : Bytes → Option S
  pub postgres : Bytes → Option S
  pub mysql : Bytes → Option S

-- Of five tests the first that holds picks, and what it picks is there.
abbrev pick :
    {S : Type 0}
    → Bool
    → Bool
    → Bool
    → Bool
    → Bool
    → S
    → S
    → Option S
    → Option S
    → Option S
    → Option S
pick m f s p y a b os op oy =
    if m
    then some a
    else if f
    then some b
    else if s
    then os
    else if p
    then op
    else if y
    then oy
    else none

both : (a b : Bool) → (a && b) ≡ true → (a ≡ true) × (b ≡ true)
both a b h = ground arith

pick-ready :
    {S : Type 0} (m f s p y es ep ey ef : Bool) (a b : S) {os op oy : Option S}
    → ((m || f || s || p || y)
        && (not (s && es) && (not (p && ep) && (not (y && ey) && not (f && ef)))))
      ≡ true
    → (es ≡ false → (x : S) × (os ≡ some x))
    → (ep ≡ false → (x : S) × (op ≡ some x))
    → (ey ≡ false → (x : S) × (oy ≡ some x))
    → (x : S) × (pick m f s p y a b os op oy ≡ some x)
pick-ready true f s p y es ep ey ef a b h hs hp hy = (a, refl)
pick-ready false true s p y es ep ey ef a b h hs hp hy = (b, refl)
pick-ready false false true p y es ep ey ef a b h hs hp hy = hs (ground arith)
pick-ready false false false true y es ep ey ef a b h hs hp hy = hp (ground arith)
pick-ready false false false false true es ep ey ef a b h hs hp hy = hy (ground arith)
pick-ready false false false false false es ep ey ef a b h hs hp hy = absurd (ground arith)

module _ {S : Type 0} (make : Factories S) (c : DnsConfig) where
  unfoldable pub make_backend : Bytes → Option S
  make_backend kind =
      if str_eq kind (codes "memory")
      then some make.memory
      else if is_bind kind
      then some (make.bind_file c.bind_config)
      else if is_sqlite kind
      then make.sqlite c.sqlite_file
      else if is_postgres kind
      then make.postgres c.postgres_dsn
      else if is_mysql kind
      then make.mysql c.mysql_dsn
      else none

  -- The loop over the kinds, with the flag that it was not left before its end.
  unfoldable pub add_backends : List S → List Bytes → Bool × List S
  add_backends backends [] = (true, backends)
  add_backends backends (kind ∷ kinds) = elim (make_backend kind) [
    | none ↦ (false, backends)
    | some b ↦ add_backends (backends ++ b ∷ []) kinds
  ]

  unfoldable pub load_backends : {T : Type 0} → Backend S T → List S → Outcome Bool × List S
  unfolding add_backends initialize
  load_backends ops backends =
      let (built, added) = add_backends backends (launch_backends c) in
      if built then initialize ops added else (ok false, added)

  -- What the constructors of the databases promise: one that is given its setting gives a backend.
  pub record Builds : Type 0 where
    pub sqlite_builds :
        is_empty c.sqlite_file ≡ false → (b : S) × (make.sqlite c.sqlite_file ≡ some b)
    pub postgres_builds :
        is_empty c.postgres_dsn ≡ false → (b : S) × (make.postgres c.postgres_dsn ≡ some b)
    pub mysql_builds : is_empty c.mysql_dsn ≡ false → (b : S) × (make.mysql c.mysql_dsn ≡ some b)

  module _ (builds : Builds) where
    make_backend-is_ready :
        (kind : Bytes) → is_ready c kind ≡ true → (b : S) × (make_backend kind ≡ some b)
    unfolding make_backend
    make_backend-is_ready kind h =
        pick-ready (str_eq kind (codes "memory")) (is_bind kind) (is_sqlite kind) (is_postgres kind)
          (is_mysql kind) (is_empty c.sqlite_file) (is_empty c.postgres_dsn) (is_empty c.mysql_dsn)
          (is_empty c.bind_config) make.memory (make.bind_file c.bind_config) h builds.sqlite_builds
          builds.postgres_builds builds.mysql_builds

    add_backends-is_ready :
        (backends : List S) (kinds : List Bytes)
        → all_of (is_ready c) kinds ≡ true
        → (bs : List S) × (add_backends backends kinds ≡ (true, backends ++ bs))
          × (length bs ≡ length kinds)
    unfolding add_backends
    add_backends-is_ready backends [] h =
        ([], ap (λ (t : List S). (true, t)) (sym (append-nil backends)), refl)
    add_backends-is_ready backends (kind ∷ kinds) h =
        let (front, rest) = both (is_ready c kind) (all_of (is_ready c) kinds) h in
        let (b, e) = make_backend-is_ready kind front in
        let (bs, f, n) = add_backends-is_ready (backends ++ b ∷ []) kinds rest in
        (
          b ∷ bs,
          rw (e, add_backends)
              (f ∙ ap (λ (t : List S). (true, t)) (append_assoc backends (b ∷ []) bs)),
          omega arith,
        )

    -- A configuration that is accepted never fails for a backend that cannot be made: `loadBackends`
    -- makes one for each kind to launch, in order, and what remains is their own initialisation.
    pub load_backends-validate :
        {T : Type 0} (ops : Backend S T)
        → validate c ≡ true
        → (bs : List S) × (length bs ≡ length (launch_backends c))
          × (load_backends ops [] ≡ initialize ops bs)
    unfolding load_backends
    load_backends-validate ops h =
        let ready : all_of (is_ready c) (launch_backends c) ≡ true =
          third (not (is_empty c.listen_address)) (is_log_level c.log_level) _ _
            (sym (validate_lem c) ∙ h) in
        let (bs, e, n) = add_backends-is_ready [] (launch_backends c) ready in
        (bs, n, ap (λ (p : Bool × List S). if p.0 then initialize ops p.1 else (ok false, p.1)) e)
      where
        third : (a b k r : Bool) → (a && (b && (k && r))) ≡ true → k ≡ true
        third a b k r t = ground arith
