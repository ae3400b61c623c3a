-- ===== src/Server/Url.antt =====
-- The parameters of a request, `get_params` (app/http/ApiHandler.cpp), and the parts of a configured
-- address, `get_url_end_point` (app/utils/Common.cpp). A position in the text is the text from it on.
use spacex_storage.Prelude.{
  ℕ, zero, suc, ◌&&◌, Option, none, some, List, [], ◌∷◌, ℤ, pos, negsuc, Text, text_eq, length,
  ◌==◌, if◌then◌else◌,
}
use spacex_storage.AppData.Maps.{set_key}

abbrev pub put_front : ℕ → Option (Text × Text) → Option (Text × Text)
put_front c none = none
put_front c (some (before, after)) = some (c ∷ before, after)

-- `find(c)`: the texts before and behind the first `c`.
unfoldable pub split_at : ℕ → Text → Option (Text × Text)
split_at c [] = none
split_at c (x ∷ xs) = if x == c then some ([], xs) else put_front x (split_at c xs)

-- The key `req_route`
abbrev pub req_route : Text
req_route = b'r' ∷ b'e' ∷ b'q' ∷ b'_' ∷ b'r' ∷ b'o' ∷ b'u' ∷ b't' ∷ b'e' ∷ []

abbrev pub Params : Type 0
Params = List (Text × Text)

-- The loop of `get_params`, over the text from `spos` on. An item without `=` ends it. Every round takes
-- a character at least, so the length of the text is rounds enough.
unfoldable pub params_loop : ℕ → Text → Params → Params
unfolding split_at
params_loop zero rest ans = ans
params_loop (suc fuel) [] ans = ans
params_loop (suc fuel) (c ∷ rest) ans = elim (split_at b'&' (c ∷ rest)) [
  | none ↦ elim (split_at b'=' (c ∷ rest)) [
    | none ↦ ans
    | some (key, value) ↦ set_key key value ans
  ]
  | some (item, later) ↦ elim (split_at b'=' item) [
    | none ↦ ans
    | some (key, value) ↦ params_loop fuel later (set_key key value ans)
  ]
]

-- `get_params`
unfoldable pub get_params : Text → Params
unfolding split_at params_loop
get_params url = elim (split_at b'?' url) [
  | none ↦ (req_route, url) ∷ []
  | some (route, rest) ↦ params_loop (length rest) rest ((req_route, route) ∷ [])
]

-- `find("://")`
unfoldable pub split_proto : Text → Option (Text × Text)
split_proto [] = none
split_proto (a ∷ []) = none
split_proto (a ∷ b ∷ []) = none
split_proto (a ∷ b ∷ c ∷ xs) =
    if (a == b':') && ((b == b'/') && (c == b'/'))
    then some ([], xs)
    else put_front a (split_proto (b ∷ c ∷ xs))

-- `UrlEndPoint`; a port that is not set is -1.
pub record UrlEndPoint : Type 0 where
  pub ip : Text
  pub port : ℤ
  pub base : Text

abbrev pub https : Text
https = b'h' ∷ b't' ∷ b't' ∷ b'p' ∷ b's' ∷ []

abbrev pub http : Text
http = b'h' ∷ b't' ∷ b't' ∷ b'p' ∷ []

abbrev pub default_port : Text → ℤ
default_port proto =
    if text_eq proto https then pos 443 else if text_eq proto http then pos 80 else negsuc 0

-- From the host on; `atoi` reads a number. Behind the port only a slash is looked for.
unfoldable pub host_parts : (Text → ℤ) → Text → Text → UrlEndPoint
unfolding split_at
host_parts atoi proto rest = elim (split_at b':' rest) [
  | none ↦ elim (split_at b'/' rest) [
    | none ↦ record { ip = rest; port = negsuc 0; base = [] }
    | some (ip, path) ↦ record { ip = ip; port = default_port proto; base = b'/' ∷ path }
  ]
  | some (ip, later) ↦ elim (split_at b'/' later) [
    | none ↦ record { ip = ip; port = atoi later; base = [] }
    | some (port, path) ↦ record { ip = ip; port = atoi port; base = b'/' ∷ path }
  ]
]

-- `get_url_end_point`
unfoldable pub get_url_end_point : (Text → ℤ) → Text → UrlEndPoint
unfolding split_proto host_parts
get_url_end_point atoi url = elim (split_proto url) [
  | none ↦ host_parts atoi [] url
  | some (proto, rest) ↦ host_parts atoi proto rest
]
