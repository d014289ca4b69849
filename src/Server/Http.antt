-- ===== src/Server/Http.antt =====
-- Headers and bodies (src/server/http.ts, and the cookies of src/server/production/auth.ts).
use machina_sol.Prelude.{
  ℕ, ◌+◌, String, Bool, true, false, not, ◌&&◌, ◌||◌, Option, none, some, List, [], ◌∷◌, ◌++◌, ltb,
  nat_eq, length, codes, ◌==◌, if◌then◌else◌, includes,
}
use Prim.Native.Char.{code}
use machina_sol.Chars.{is_digits, big_int}
use machina_sol.Texts.{◌^^◌, trim_text, split_on, cut_at}
use machina_sol.Dict.{Dict, put}
use machina_sol.Json.{Json, Fields, object}
use machina_sol.Server.World.{
  Outside, App, Outcome, done, refused, lift, ensure, require, waiting, ◌>>=◌, ◌>>◌,
}

-- What the handlers read of a request; the parameters of its address are parsed by URL, and the body
-- comes in chunks of bytes.
pub record Request : Type 0 where
  pub method : String
  pub path : String
  pub query : List (String × String)
  pub remote_address : Option String
  pub origin : Option String
  pub host : Option String
  pub cookie : Option String
  -- the values of x-csrf-token
  pub csrf : List String
  pub authorization : Option String
  pub content_encoding : Option String
  pub content_length : Option String
  pub content_type : Option String
  pub chunks : List (List ℕ)

-- The part of the configuration that the handlers read.
pub record ServerConfig : Type 0 where
  pub host : String
  pub port : String
  pub public_origin : Option String
  pub platform_hostname : Option String
  pub secure_cookies : Bool
  pub solana_genesis_hash : Option String
  pub telemetry_retention_days : Option ℕ
  pub telemetry_max_events_per_machine : Option ℕ

abbrev pub max_body_bytes : ℕ
max_body_bytes = 65_536

-- The size of the chunks that is read before it passes the limit, with the bytes; `none` past it.
unfoldable pub body_bytes : ℕ → List (List ℕ) → Option (List ℕ)
body_bytes size [] = some []
body_bytes size (chunk ∷ chunks) =
    let rest = body_bytes (size + length chunk) chunks in
    if ltb max_body_bytes (size + length chunk)
    then none
    else elim rest [ none ↦ none | some bytes ↦ some (chunk ++ bytes) ]

is_compressed : Outside → Option String → Bool
is_compressed o none = false
is_compressed o (some encoding) =
    let e = o.lower (trim_text encoding) in not (e == "") && not (e == "identity")

-- The test of a Content-Length header.
declared : Option String → Outcome (Unit {0})
declared none = done tt
declared (some text) =
    if text == "" || not (is_digits (codes text))
    then refused 400 "invalid Content-Length header"
    else if ltb max_body_bytes (big_int (codes text))
    then refused 413 "request body exceeds 65536 bytes"
    else done tt

before_semicolon : String → String
before_semicolon text = elim (cut_at b';' text) [ none ↦ text | some (before, after) ↦ before ]

is_json_type : Outside → Option String → Bool
unfolding before_semicolon
is_json_type o none = false
is_json_type o (some text) = o.lower (trim_text (before_semicolon text)) == "application/json"

is_object : Json → Bool
is_object (object _) = true
is_object _ = false

parsed_body : Outside → String → Outcome Json
unfolding is_object
parsed_body o text =
    if text == "" then done (object Fields.no_fields) else elim (o.json_parse text) [
      | none ↦ refused 400 "request body must be valid JSON"
      | some value ↦
          if is_object value then done value else refused 400 "request body must be a JSON object"
    ]

body_of : Outside → Request → List ℕ → Outcome Json
unfolding is_json_type parsed_body
body_of o req bytes =
    if nat_eq (length bytes) 0
    then done (object Fields.no_fields)
    else if not (is_json_type o req.content_type)
    then refused 415 "request body content type must be application/json"
    else parsed_body o (trim_text (o.utf8 bytes))

unfoldable pub read_json_body : Outside → Request → App Json
unfolding is_compressed declared body_of
read_json_body o req = do
  ensure (not (is_compressed o req.content_encoding)) 415
      "compressed request bodies are not accepted"
  lift (declared req.content_length)
  waiting o
  bytes ← require (body_bytes 0 req.chunks) 413 "request body exceeds 65536 bytes"
  lift (body_of o req bytes)

abbrev pub loopback_hostnames : List String
loopback_hostnames = "localhost" ∷ "127.0.0.1" ∷ "::1" ∷ "[::1]" ∷ []

-- The last colon of a text, as `cut_at` gives the first.
unfoldable pub cut_at_last : ℕ → String → Option (String × String)
cut_at_last at String.[] = none
cut_at_last at (String.◌∷◌ c s) =
    let rest = cut_at_last at s in
    elim rest [
      | some (before, after) ↦ some (String.◌∷◌ c before, after)
      | none ↦ if nat_eq (code c) at then some ("", s) else none
    ]

starts_with_bracket : String → Bool
starts_with_bracket String.[] = false
starts_with_bracket (String.◌∷◌ c s) = nat_eq (code c) b'['

-- trimmed.slice(0, trimmed.indexOf(']') + 1), which is empty where there is no bracket
up_to_bracket : String → String
up_to_bracket text = elim (cut_at b']' text) [ none ↦ "" | some (before, after) ↦ before ^^ "]" ]

before_port : String → String
before_port text = elim (cut_at_last b':' text) [
  | none ↦ text
  | some (before, after) ↦ if before == "" then text else before
]

unfoldable pub hostname_of : Outside → String → String
unfolding starts_with_bracket up_to_bracket before_port
hostname_of o value =
    let trimmed = o.lower (trim_text value) in
    if starts_with_bracket trimmed then up_to_bracket trimmed else before_port trimmed

is_public_hostname : Outside → Option String → String → Bool
is_public_hostname o none hostname = false
is_public_hostname o (some origin) hostname = elim (o.url origin) [
  | none ↦ false
  | some (name, host) ↦ hostname == o.lower name || hostname == "[" ^^ o.lower name ^^ "]"
]

is_platform_hostname : Outside → Option String → String → Bool
is_platform_hostname o none hostname = false
is_platform_hostname o (some name) hostname = hostname == o.lower name

-- The configuration is checked when it is read: its public origin is a URL.
unfoldable pub hostname_allowed : Outside → ServerConfig → String → Bool
unfolding is_public_hostname is_platform_hostname
hostname_allowed o config hostname =
    includes hostname loopback_hostnames
    || (hostname == o.lower (trim_text config.host)
        || (is_public_hostname o config.public_origin hostname
            || is_platform_hostname o config.platform_hostname hostname))

unfoldable pub assert_host_allowed : Outside → ServerConfig → Request → Outcome (Unit {0})
assert_host_allowed o config req = elim req.host [
  | none ↦ refused 400 "missing Host header"
  | some host ↦
      if host == ""
      then refused 400 "missing Host header"
      else if not (hostname_allowed o config (hostname_of o host))
      then refused 403 ("Host \"" ^^ host ^^ "\" is not allowed by the local runtime server")
      else done tt
]

-- config.publicOrigin && origin !== config.publicOrigin
differs_from_public : Option String → String → Bool
differs_from_public none origin = false
differs_from_public (some public) origin = not (public == "") && not (origin == public)

same_host : Outside → Option String → String → Bool
same_host o none host = false
same_host o (some requested) host =
    let r = o.lower (trim_text requested) in not (r == "") && o.lower host == r

-- A request without `Origin` is no request of a page.
unfoldable pub assert_origin_allowed : Outside → ServerConfig → Request → Outcome (Unit {0})
unfolding differs_from_public same_host
assert_origin_allowed o config req = elim req.origin [
  | none ↦ done tt
  | some origin ↦
      if origin == ""
      then done tt
      else if differs_from_public config.public_origin origin
      then refused 403 ("Origin \"" ^^ origin ^^ "\" does not match the configured public origin")
      else if origin == "null"
      then refused 403 "opaque Origin is not allowed by the local runtime server"
      else elim (o.url origin) [
        | none ↦ refused 403 ("invalid Origin header \"" ^^ origin ^^ "\"")
        | some (name, host) ↦
            if not (hostname_allowed o config (o.lower name))
              && not (hostname_allowed o config ("[" ^^ o.lower name ^^ "]"))
            then refused 403
                ("Origin \"" ^^ origin ^^ "\" is not allowed by the local runtime server")
            else if not (same_host o req.host host)
            then refused 403 ("Origin \"" ^^ origin ^^ "\" does not match this runtime server")
            else done tt
      ]
]

with_cookie : String → Dict String → Dict String
with_cookie part found = elim (cut_at b'=' part) [
  | none ↦ found
  | some (name, value) ↦
      if name == "" || trim_text name == ""
      then found
      else put (trim_text name) (trim_text value) found
]

-- The loop over the parts of a Cookie header; a later cookie replaces an earlier one of its name.
unfoldable pub cookies_from : Dict String → List String → Dict String
unfolding with_cookie
cookies_from found [] = found
cookies_from found (part ∷ parts) = cookies_from (with_cookie part found) parts

unfoldable pub cookies : Request → Dict String
unfolding cookies_from
cookies req = cookies_from [] (split_on b';' (elim req.cookie [ none ↦ "" | some text ↦ text ]))
