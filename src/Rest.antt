-- ===== src/Rest.antt =====
-- The REST interface, src/simple-dnsd/api/rest.cpp: a request, as the bytes that were received, to a
-- response and the engine behind it.
pub mod Text
pub mod Json
pub mod Change
pub mod Guard
use simple_dnsd.Base.{
  ℕ, ◌+◌, ◌-◌, Bool, true, false, not, ◌&&◌, ◌||◌, Option, none, some, List, [], ◌∷◌, ◌++◌, ltb,
  if◌then◌else◌, Bytes, codes, drop, take, length, is_empty, str_eq,
}
use simple_dnsd.Outcome.{Outcome, ok, thrown}
use simple_dnsd.Text.{split_ws}
use simple_dnsd.Text.Number.{decimal}
use simple_dnsd.Text.Find.{place_of, find, starts_with}
use simple_dnsd.Name.{DnsName, parse, equals}
use simple_dnsd.Inet.{Inet}
use simple_dnsd.Backend.{ZoneInfo, Backend}
use simple_dnsd.Router
use simple_dnsd.Zone.Write.{write_zone_text}
use simple_dnsd.Engine.State.{Engine}
use simple_dnsd.Engine.Cache.{invalidate}
use simple_dnsd.Rest.Text.{crlf, url_decode, path_of, api_key_of, body_of, receive}
use simple_dnsd.Rest.Json.{JsonLib, zone_to_json, zones_json, stats_json}
use simple_dnsd.Rest.Change.{HttpResponse, reply, Handled, create_zone, patch_zone}

-- `sendHttp`: the bytes of a response.
unfoldable pub http_bytes : HttpResponse → Bytes
unfolding decimal
http_bytes r =
    codes "HTTP/1.1 "
    ++ (decimal r.code
        ++ (codes " "
            ++ (r.status
                ++ (crlf
                    ++ (codes "Content-Type: "
                        ++ (r.type
                            ++ (crlf
                                ++ (codes "Content-Length: "
                                    ++ (decimal (length r.body)
                                        ++ (crlf
                                            ++ (codes "Connection: close"
                                                ++ (crlf ++ (crlf ++ r.body)))))))))))))

abbrev is_get : Bytes → Bool
is_get method = str_eq method (codes "GET")

abbrev servers : Bytes
servers = codes "/api/v1/servers"

abbrev localhost : Bytes
localhost = codes "/api/v1/servers/localhost"

abbrev zones_path : Bytes
zones_path = codes "/api/v1/servers/localhost/zones"

abbrev export_suffix : Bytes
export_suffix = codes "/export"

abbrev ends_with_export : Bytes → Bool
ends_with_export rest = ltb 7 (length rest) && str_eq (drop (length rest - 7) rest) export_suffix

-- The name of the zone, without that suffix.
abbrev zone_name_in : Bytes → Bytes
zone_name_in rest = if ends_with_export rest then take (length rest - 7) rest else rest

abbrev statistics : Bytes
statistics = codes "/api/v1/servers/localhost/statistics"

abbrev pub not_found : HttpResponse
not_found = reply 404 (codes "Not Found") (codes "{\"error\":\"not found\"}")

abbrev pub unauthorized : HttpResponse
unauthorized = reply 401 (codes "Unauthorized") (codes "{\"error\":\"unauthorized\"}")

abbrev pub bad_request : HttpResponse
bad_request = reply 400 (codes "Bad Request") (codes "{\"error\":\"bad request\"}")

module _ {J S T : Type 0} (json : JsonLib J) (net : Inet) (ops : Backend S T)
    (version : Bytes) where
  -- The requests for one zone, whose name and export flag have been read off the path.
  unfoldable pub serve_zone : Engine S → Bytes → Bytes → Bool → DnsName → Handled S
  unfolding Router.find_zone Router.list_zone Router.delete_zone write_zone_text zone_to_json
      patch_zone equals
  serve_zone e method body want_export zname = elim (Router.find_zone ops e.backends zname) [
    | none ↦ (ok not_found, e)
    | some zone ↦
        if not (equals zone.name zname)
        then (ok not_found, e)
        else if is_get method && want_export
        then (
          ok (record {
            code = 200;
            status = codes "OK";
            body = write_zone_text net zone.name (Router.list_zone ops e.backends zone);
            type = codes "text/plain";
          }),
          e,
        )
        else if is_get method
        then (ok (reply 200 (codes "OK") (zone_to_json net ops e.backends zone)), e)
        else if str_eq method (codes "DELETE")
        then (
          ok (reply 204 (codes "No Content") []),
          record e {
            backends = (Router.delete_zone ops e.backends zone).1;
            cache = invalidate e.cache;
          },
        )
        else if str_eq method (codes "PATCH")
        then patch_zone json net ops e zname zone body
        else (ok not_found, e)
  ]

  unfoldable pub serve_zone_path : Engine S → Bytes → Bytes → Bytes → Handled S
  unfolding serve_zone url_decode parse
  serve_zone_path e method body rest = elim (url_decode rest) [
    | thrown ↦ (thrown, e)
    | ok name ↦
        (let export = ends_with_export name in
          serve_zone e method body export (parse (zone_name_in name)))
  ]

  -- The requests, by path and method.
  unfoldable pub route : Engine S → Bytes → Bytes → Bytes → Handled S
  unfolding serve_zone_path create_zone stats_json zones_json Router.list_zones
  route e method path body =
      if str_eq path servers && is_get method
      then (
        ok (
            reply 200 (codes "OK") (
              codes
                "[{\"type\":\"Server\",\"id\":\"localhost\",\"daemon_type\":\"simple-dnsd\"}]")),
        e,
      )
      else if str_eq path localhost && is_get method
      then (
        ok (
            reply 200 (codes "OK") (
              codes
                "{\"type\":\"Server\",\"id\":\"localhost\",\"daemon_type\":\"simple-dnsd\",\"version\":\""
              ++ (version ++ codes "\"}"))),
        e,
      )
      else if str_eq path statistics && is_get method
      then (ok (reply 200 (codes "OK") (stats_json e.stats)), e)
      else if str_eq path zones_path && is_get method
      then (ok (reply 200 (codes "OK") (zones_json (Router.list_zones ops e.backends))), e)
      else if str_eq path zones_path && str_eq method (codes "POST")
      then create_zone json net ops e body
      else if starts_with (zones_path ++ codes "/") path
      then serve_zone_path e method body (drop (length zones_path + 1) path)
      else (ok not_found, e)

  -- `handleHttpRequest` on what was received.
  unfoldable pub handle_http_request : Engine S → Bytes → Handled S
  unfolding route place_of split_ws path_of api_key_of body_of
  handle_http_request e req = elim (find crlf 0 req) [
    | none ↦ (ok bad_request, e)
    | some line_end ↦ elim (split_ws (take line_end req)) [
      | [] ↦ (ok bad_request, e)
      | method ∷ [] ↦ (ok bad_request, e)
      | method ∷ path ∷ parts ↦
          if not (is_empty e.config.api_key) && not (str_eq (api_key_of req) e.config.api_key)
          then (ok unauthorized, e)
          else route e method (path_of path) (body_of req)
    ]
  ]

  unfoldable pub answered : Handled S → Outcome (Option HttpResponse) × Engine S
  answered (thrown, e) = (thrown, e)
  answered (ok response, e) = (ok (some response), e)

  -- The request is received first, in the pieces that the connection gives; it gives nothing where it runs out
  -- of time before anything comes, and then there is no response.
  unfoldable pub handle_connection :
      Engine S → Option (List Bytes) → Outcome (Option HttpResponse) × Engine S
  unfolding handle_http_request receive answered
  handle_connection e none = (ok none, e)
  handle_connection e (some chunks) = answered (handle_http_request e (receive chunks []))

  -- What the requests behind one connection come to.
  unfoldable pub after_request :
      Outcome (Option HttpResponse) × Engine S
      → (Engine S → List HttpResponse × Bool × Engine S)
      → List HttpResponse × Bool × Engine S
  after_request (thrown, e) rest = ([], true, e)
  after_request (ok none, e) rest = rest e
  after_request (ok (some response), e) rest = (response ∷ (rest e).0, (rest e).1, (rest e).2)

  -- `DnsServer::apiLoop` of src/simple-dnsd/core/server.cpp over the connections that come until it is
  -- stopped: the responses, and whether an exception ends the program.
  unfoldable pub api_loop :
      Engine S → List (Option (List Bytes)) → List HttpResponse × Bool × Engine S
  unfolding handle_connection after_request
  api_loop e [] = ([], false, e)
  api_loop e (connection ∷ connections) =
      after_request (handle_connection e connection) (λ e'. api_loop e' connections)
