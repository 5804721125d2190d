-- ===== src/Command/Dispatch/Unknown.antt =====
-- What a command on a zone that is not there does.
use simple_dnsd.Base.{
  ℕ, ◌≡◌, refl, Bool, true, false, Option, none, some, List, [], ◌∷◌, Bytes, codes, str_eq, any_of,
  ◌||◌, if◌then◌else◌,
}
use simple_dnsd.Name.{parse}
use simple_dnsd.Inet.{Inet}
use simple_dnsd.Backend.{Backend, ZoneInfo}
use simple_dnsd.Router.Launch.{Factories}
use simple_dnsd.Config.{DnsConfig}
use simple_dnsd.Files.{Files}
use simple_dnsd.Command.{World, Run, exit, require_zone}
use simple_dnsd.Command.Dispatch.{zone_command, on_zone, run_command}

-- The commands that work on one zone.
abbrev pub zone_words : List Bytes
zone_words =
    codes "delete-zone"
    ∷ codes "list-zone"
    ∷ codes "add-record"
    ∷ codes "replace-rrset"
    ∷ codes "delete-rrset"
    ∷ codes "check-zone"
    ∷ codes "rectify-zone"
    ∷ codes "increase-serial"
    ∷ codes "backend-copy"
    ∷ []

-- A test in front of a chain of tests.
picked :
    {A : Type 0} (b : Bool) (x : A) (o : Option A) (t : Bool)
    → (t ≡ true → (f : A) × (o ≡ some f))
    → (b || t) ≡ true
    → (f : A) × ((if b then some x else o) ≡ some f)
picked true x o t g h = (x, refl)
picked false x o t g h = g h

module _ {D S T : Type 0} (files : Files D) (net : Inet) (ops : Backend S T) (make : Factories S)
    (depth : ℕ) where
  zone_command-zone_words :
      (c : DnsConfig) (w : World D S) (cmd : Bytes)
      → any_of (str_eq cmd) zone_words ≡ true
      → (f : ZoneInfo → List Bytes → Run D S) × (zone_command files net ops make depth c w cmd
          ≡ some f)
  zone_command-zone_words c w cmd h =
      picked (str_eq cmd (codes "delete-zone")) _ _ _
        (picked (str_eq cmd (codes "list-zone")) _ _ _ (
          picked (str_eq cmd (codes "add-record")) _ _ _ (
            picked (str_eq cmd (codes "replace-rrset")) _ _ _ (
              picked (str_eq cmd (codes "delete-rrset")) _ _ _ (
                picked (str_eq cmd (codes "check-zone")) _ _ _ (
                  picked (str_eq cmd (codes "rectify-zone")) _ _ _ (
                    picked (str_eq cmd (codes "increase-serial")) _ _ _
                      (picked (str_eq cmd (codes "backend-copy")) _ _ _ (λ k. cc)))))))))
        h

  on_zone-unknown :
      (w : World D S) (name : Bytes) (args : List Bytes) (f : ZoneInfo → List Bytes → Run D S)
      → require_zone files net ops w.backends (parse name) ≡ none
      → on_zone files net ops make depth w (name ∷ args) f ≡ exit 1 w
  unfolding on_zone
  on_zone-unknown w name args f n = rw (on_zone, n) refl

  -- A command that works on one zone and is given one that no backend has, or that only a longer or
  -- shorter name stands for, ends with the exit code 1 and leaves everything as it was: backends, disk
  -- and what was printed.
  pub run_command-unknown :
      (c : DnsConfig) (w : World D S) (cmd name : Bytes) (args : List Bytes)
      → any_of (str_eq cmd) zone_words ≡ true
      → require_zone files net ops w.backends (parse name) ≡ none
      → run_command files net ops make depth c w cmd (name ∷ args) ≡ exit 1 w
  unfolding run_command
  run_command-unknown c w cmd name args h n =
      let (f, e) = zone_command-zone_words c w cmd h in
      rw (run_command, e) (on_zone-unknown w name args f n)
