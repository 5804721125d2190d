-- ===== src/Rest/Guard.antt =====
-- Who may use the REST interface, and what a request leaves alone.
use simple_dnsd.Base.{
  ℕ, ◌≡◌, refl, Bool, false, not, ◌&&◌, some, List, [], ◌∷◌, Bytes, codes, is_empty, str_eq, take,
  drop, length, ◌+◌, Bool-cases, Option-cases, List-cases, ◌⊎◌, inl, inr, ◌++◌,
}
use simple_dnsd.Outcome.{ok, Outcome-cases}
use simple_dnsd.Text.{split_ws}
use simple_dnsd.Text.Find.{find, starts_with}
use simple_dnsd.Name.{DnsName, parse, equals}
use simple_dnsd.Inet.{Inet}
use simple_dnsd.Backend.{Backend}
use simple_dnsd.Router
use simple_dnsd.Engine.State.{Engine}
use simple_dnsd.Rest.Text.{crlf, url_decode, api_key_of, path_of, body_of}
use simple_dnsd.Rest.Json.{JsonLib}
use simple_dnsd.Rest.Change.{HttpResponse}
use simple_dnsd.Rest.{
  unauthorized, bad_request, servers, localhost, statistics, ends_with_export, zone_name_in,
  zones_path, serve_zone, serve_zone_path, route, handle_http_request,
}

module _ {J S T : Type 0} (json : JsonLib J) (net : Inet) (ops : Backend S T)
    (version : Bytes) where
  -- Where the server has a key and the request does not carry it, the request is refused, as
  -- malformed or as unauthorized, and nothing of the engine changes.
  pub handle_http_request-refused :
      (e : Engine S) (req : Bytes)
      → is_empty e.config.api_key ≡ false
      → str_eq (api_key_of req) e.config.api_key ≡ false
      → (r : HttpResponse) × (handle_http_request json net ops version e req ≡ (ok r, e))
        × ((r ≡ bad_request) ⊎ (r ≡ unauthorized))
  unfolding handle_http_request
  handle_http_request-refused e req h k = elim (Option-cases (find crlf 0 req)) [
    | inl n ↦ (bad_request, rw (handle_http_request, n) refl, inl refl)
    | inr (last, f) ↦ elim (List-cases (split_ws (take last req))) [
      | inl n ↦ (bad_request, rw (handle_http_request, f, n) refl, inl refl)
      | inr (method, [], g) ↦ (bad_request, rw (handle_http_request, f, g) refl, inl refl)
      | inr (method, path ∷ parts, g) ↦
          (unauthorized, rw (handle_http_request, f, g, h, k) refl, inr refl)
    ]
  ]

  serve_zone-get :
      (e : Engine S) (body : Bytes) (export : Bool) (zname : DnsName)
      → (serve_zone json net ops version e (codes "GET") body export zname).1 ≡ e
  unfolding serve_zone
  serve_zone-get e body export zname = elim (Option-cases (Router.find_zone ops e.backends zname)) [
    | inl n ↦ rw (serve_zone, n) refl
    | inr (zone, f) ↦ elim (Bool-cases (equals zone.name zname)) [
      | inl h ↦ elim (Bool-cases export) [
        | inl x ↦ rw (serve_zone, f, h, x) refl
        | inr x ↦ rw (serve_zone, f, h, x) refl
      ]
      | inr h ↦ rw (serve_zone, f, h) refl
    ]
  ]

  serve_zone_path-get :
      (e : Engine S) (body rest : Bytes)
      → (serve_zone_path json net ops version e (codes "GET") body rest).1 ≡ e
  unfolding serve_zone_path
  serve_zone_path-get e body rest = elim (Outcome-cases (url_decode rest)) [
    | inl n ↦ rw (serve_zone_path, n) refl
    | inr (name, f) ↦
        rw (serve_zone_path, f)
          (serve_zone-get e body (ends_with_export name) (parse (zone_name_in name)))
  ]

  route-get :
      (e : Engine S) (path body : Bytes)
      → (route json net ops version e (codes "GET") path body).1 ≡ e
  unfolding route
  route-get e path body = elim (Bool-cases (str_eq path servers)) [
    | inl a ↦ rw (route, a) refl
    | inr a ↦ elim (Bool-cases (str_eq path localhost)) [
      | inl b ↦ rw (route, a, b) refl
      | inr b ↦ elim (Bool-cases (str_eq path statistics)) [
        | inl c ↦ rw (route, a, b, c) refl
        | inr c ↦ elim (Bool-cases (str_eq path zones_path)) [
          | inl d ↦ rw (route, a, b, c, d) refl
          | inr d ↦ elim (Bool-cases (starts_with (zones_path ++ codes "/") path)) [
            | inl g ↦
                rw (route, a, b, c, d, g)
                  (serve_zone_path-get e body (drop (length zones_path + 1) path))
            | inr g ↦ rw (route, a, b, c, d, g) refl
          ]
        ]
      ]
    ]
  ]

  -- A request whose first word is GET changes nothing of the engine, whatever its path, its body and
  -- the rest of it are.
  pub handle_http_request-get :
      (e : Engine S) (req path : Bytes) (last : ℕ) (parts : List Bytes)
      → find crlf 0 req ≡ some last
      → split_ws (take last req) ≡ codes "GET" ∷ path ∷ parts
      → (handle_http_request json net ops version e req).1 ≡ e
  unfolding handle_http_request
  handle_http_request-get e req path last parts f g =
      elim (Bool-cases
        (not (is_empty e.config.api_key) && not (str_eq (api_key_of req) e.config.api_key))) [
          | inl h ↦ rw (handle_http_request, f, g, h) refl
          | inr h ↦ rw (handle_http_request, f, g, h) (route-get e (path_of path) (body_of req))
        ]
