-- ===== src/Zone/Exchange/Exported.antt =====
-- Which zones `exportBind` writes.
use simple_dnsd.Base.{
  ◌≡◌, refl, true, Option, some, List, [], ◌∷◌, Bytes, keep_if, Bool-cases, inl, inr,
}
use simple_dnsd.Name.{DnsName}
use simple_dnsd.Inet.{Inet}
use simple_dnsd.Backend.{ZoneInfo, Backend}
use simple_dnsd.Router
use simple_dnsd.Files.{Files}
use simple_dnsd.Zone.Write.{write_zone_text}
use simple_dnsd.Zone.NamedConf.{NamedZone}
use simple_dnsd.Zone.Exchange.{file_of, is_wanted, write_zone_file, export_zones}

module _ {D S T : Type 0} (files : Files D) (net : Inet) (ops : Backend S T) where
  abbrev pub entry : Bytes → ZoneInfo → NamedZone
  entry out_dir z = record { info = z; file = file_of files net ops out_dir z }

  abbrev pub entries : Bytes → List ZoneInfo → List NamedZone
  entries out_dir [] = []
  entries out_dir (z ∷ zones) = entry out_dir z ∷ entries out_dir zones

  -- Where every file can be written, an export lists in `named.conf` each zone that is wanted, in
  -- order and once, with the file that its records were written to, and no other zone.
  pub export_zones-entries :
      (disk : D) (backends : List S) (wanted : Option DnsName) (out_dir : Bytes)
      (zones : List ZoneInfo)
      → ((d : D) (path text : Bytes) → (files.write d path text).0 ≡ some true)
      → (export_zones files net ops disk backends wanted out_dir zones).0
        ≡ some (entries out_dir (keep_if (is_wanted files net ops wanted) zones))
  unfolding export_zones write_zone_file
  export_zones-entries disk backends wanted out_dir [] w = refl
  export_zones-entries disk backends wanted out_dir (z ∷ zones) w =
      let path = file_of files net ops out_dir z in
      let text = write_zone_text net z.name (Router.list_zone ops backends z) in
      let after = (files.write disk path text).1 in
      elim (Bool-cases (is_wanted files net ops wanted z)) [
        | inl h ↦
            rw
              (
                export_zones,
                h,
                write_zone_file,
                w disk path text,
                export_zones-entries after backends wanted out_dir zones w,
              )
              refl
        | inr h ↦ rw (export_zones, h) (export_zones-entries disk backends wanted out_dir zones w)
      ]
