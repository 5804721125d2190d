-- ===== src/Examples/Requests.antt =====
-- The REST interface and the command line.
use simple_dnsd.Base.{◌≡◌, refl, true, some, none, [], ◌∷◌, ◌++◌, Bytes, codes, ◌⊎◌}
use simple_dnsd.Outcome.{ok}
use simple_dnsd.Text.{lower_byte}
use simple_dnsd.Memory.{MemoryBackend}
use simple_dnsd.Files.{Files}
use simple_dnsd.Config.{default_config}
use simple_dnsd.Router.Launch.{Factories, Builds}
use simple_dnsd.Engine.State.{Engine}
use simple_dnsd.Rest.Text.{crlf}
use simple_dnsd.Rest.Json.{JsonLib, zone_to_json}
use simple_dnsd.Rest.{handle_http_request, bad_request, unauthorized}
use simple_dnsd.Rest.Guard.{handle_http_request-refused, handle_http_request-get}
use simple_dnsd.Rest.Change.{HttpResponse, reply, patch_zone}
use simple_dnsd.Rest.Change.Fresh.{Told, patch_zone-Told}
use simple_dnsd.Command.{World}
use simple_dnsd.Examples.Data.{example_com, no_inet, ops, engine, zones, open_to_updates}

-- A JSON library whose values are empty objects.
abbrev empty_objects : JsonLib Unit
empty_objects = record {
  parse = λ s. some tt;
  member = λ j k. ok none;
  items = λ j. [];
  nothing_in = λ j. true;
  at_zero = λ j. ok j;
  as_string = λ j. ok [];
  as_uint = λ j. ok 0;
}

abbrev guarded : Engine MemoryBackend
guarded = record engine { config = record default_config { api_key = codes "k" } }

abbrev request : Bytes
request = codes "GET /api/v1/servers HTTP/1.1" ++ (crlf ++ crlf)

abbrev version : Bytes
version = codes "0.13.0"

handle_http_request-refused_example :
    (r : HttpResponse) × (handle_http_request empty_objects no_inet ops version guarded request
      ≡ (ok r, guarded))
    × ((r ≡ bad_request) ⊎ (r ≡ unauthorized))
unfolding simple_dnsd.Rest.Text.api_key_of lower_byte
handle_http_request-refused_example =
    handle_http_request-refused empty_objects no_inet ops version guarded request refl refl

handle_http_request-get_example :
    (handle_http_request empty_objects no_inet ops version guarded request).1 ≡ guarded
unfolding simple_dnsd.Text.Find.place_of simple_dnsd.Text.split_ws
handle_http_request-get_example =
    handle_http_request-get empty_objects no_inet ops version guarded request
      (codes "/api/v1/servers") 28 (codes "HTTP/1.1" ∷ []) refl refl

abbrev one_zone : Engine MemoryBackend
one_zone = record engine { backends = ((codes "example.com.", open_to_updates) ∷ []) ∷ [] }

abbrev patched : HttpResponse
patched = reply 200 (codes "OK") (zone_to_json no_inet ops one_zone.backends open_to_updates.info)

patch_zone-Told_example :
    Told empty_objects no_inet ops one_zone patched
      (patch_zone empty_objects no_inet ops one_zone example_com open_to_updates.info []).1
unfolding patch_zone simple_dnsd.Memory.list_zones lower_byte simple_dnsd.Memory.begin
    simple_dnsd.Memory.lookup simple_dnsd.Memory.Transaction.commit simple_dnsd.Memory.find_zone
patch_zone-Told_example =
    patch_zone-Told empty_objects no_inet ops one_zone example_com open_to_updates.info [] patched
      refl

-- Nothing can be read, and every write succeeds.
abbrev no_files : Files Unit
no_files = record {
  read = λ d path. none;
  write = λ d path text. (some true, d);
  make_dir = λ d path. d;
}

abbrev makers : Factories MemoryBackend
makers = record {
  memory = zones;
  bind_file = λ path. zones;
  sqlite = λ path. some zones;
  postgres = λ dsn. some zones;
  mysql = λ dsn. some zones;
}

abbrev world : World Unit MemoryBackend
world = record { backends = zones ∷ []; disk = tt; printed = []; others = [] }

makers_build : Builds makers default_config
makers_build = record {
  sqlite_builds = λ h. (zones, refl);
  postgres_builds = λ h. (zones, refl);
  mysql_builds = λ h. (zones, refl);
}
