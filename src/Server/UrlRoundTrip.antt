-- ===== src/Server/UrlRoundTrip.antt =====
-- Parameters and addresses that are written as a URL are read back.
use spacex_storage.Prelude.{
  ℕ, zero, suc, ◌≤◌, ◌≡◌, refl, ap, ◌∙◌, false, ◌||◌, none, some, [], ◌∷◌, ◌++◌, ℤ, Text,
  text_eq_refl, All, length, length-append, arith,
}
use spacex_storage.AppData.Maps.{lookup_key, set_key, lookup-set_key}
use spacex_storage.Server.Requests.{has_char}
use spacex_storage.Server.Url.{
  split_at, req_route, Params, params_loop, get_params, split_proto, host_parts, get_url_end_point,
}

-- The first `c` is where it is put behind a text without one.
split_at-append :
    (c : ℕ) (before after : Text)
    → has_char c before ≡ false
    → split_at c (before ++ c ∷ after) ≡ some (before, after)
unfolding split_at
split_at-append c [] after e = ground arith
split_at-append c (x ∷ before) after e = ground (arith, split_at-append c before after)

split_at-none : (c : ℕ) (t : Text) → has_char c t ≡ false → split_at c t ≡ none
unfolding split_at
split_at-none c [] e = refl
split_at-none c (x ∷ t) e = ground (arith, split_at-none c t)

has_char-append : (c : ℕ) (s t : Text) → has_char c (s ++ t) ≡ (has_char c s || has_char c t)
has_char-append c [] t = refl
has_char-append c (x ∷ s) t = ground (arith, has_char-append c s t)

-- The item of a parameter.
abbrev pub item : Text × Text → Text
item (key, value) = key ++ b'=' ∷ value

-- The parameters, with `&` between them.
abbrev pub print_params : Text × Text → Params → Text
print_params p [] = item p
print_params p (q ∷ ps) = item p ++ b'&' ∷ print_params q ps

-- A name without `=` and `&`, with a value without `&`.
abbrev pub IsPlain : Text × Text → Type 0
IsPlain p = (has_char b'=' p.0 ≡ false) × (has_char b'&' p.0 ≡ false) × (has_char b'&' p.1 ≡ false)

-- The parameters put into the map one after the other.
abbrev pub put_params : Params → Params → Params
put_params [] ans = ans
put_params ((key, value) ∷ ps) ans = put_params ps (set_key key value ans)

item_plain : (p : Text × Text) → IsPlain p → has_char b'&' (item p) ≡ false
item_plain (key, value) h = ground (arith, has_char-append b'&' key (b'=' ∷ value), h.1, h.2)

item-split : (p : Text × Text) → IsPlain p → split_at b'=' (item p) ≡ some p
item-split (key, value) h = split_at-append b'=' key value h.0

print_params-length : (p : Text × Text) (ps : Params) → 1 ≤ length (print_params p ps)
print_params-length (key, value) [] = omega (arith, length-append key (b'=' ∷ value))
print_params-length (key, value) (q ∷ ps) =
    omega (arith, length-append (key ++ b'=' ∷ value) (b'&' ∷ print_params q ps))

params_last :
    (fuel : ℕ) (rest : Text) (ans : Params) (p : Text × Text)
    → 1 ≤ length rest
    → split_at b'&' rest ≡ none
    → split_at b'=' rest ≡ some p
    → params_loop (suc fuel) rest ans ≡ set_key p.0 p.1 ans
unfolding params_loop
params_last fuel [] ans p n e f = absurd (omega arith)
params_last fuel (c ∷ rest) ans p n e f = rw (e, f, params_loop) refl

params_next :
    (fuel : ℕ) (rest text later : Text) (ans : Params) (p : Text × Text)
    → 1 ≤ length rest
    → split_at b'&' rest ≡ some (text, later)
    → split_at b'=' text ≡ some p
    → params_loop (suc fuel) rest ans ≡ params_loop fuel later (set_key p.0 p.1 ans)
unfolding params_loop
params_next fuel [] text later ans p n e f = absurd (omega arith)
params_next fuel (c ∷ rest) text later ans p n e f = rw (e, f, params_loop) refl

params_loop-print_params :
    (fuel : ℕ) (p : Text × Text) (ps ans : Params)
    → length (print_params p ps) ≤ fuel
    → IsPlain p
    → All IsPlain ps
    → params_loop fuel (print_params p ps) ans ≡ put_params (p ∷ ps) ans
params_loop-print_params zero p ps ans l h hs = absurd (omega (arith, print_params-length p ps))
params_loop-print_params (suc fuel) p [] ans l h hs =
    params_last fuel (item p) ans p (print_params-length p [])
      (split_at-none b'&' (item p) (item_plain p h)) (item-split p h)
params_loop-print_params (suc fuel) p (q ∷ ps) ans l h hs =
    let text = print_params p (q ∷ ps) in
    let size = length-append (item p) (b'&' ∷ print_params q ps) in
    params_next fuel text (item p) (print_params q ps) ans p (print_params-length p (q ∷ ps))
      (split_at-append b'&' (item p) (print_params q ps) (item_plain p h)) (item-split p h)
    ∙ params_loop-print_params fuel q ps (set_key p.0 p.1 ans) (omega arith) hs.0 hs.1

-- The parameters of a request are read as they are written: a route without `?` and then, behind one,
-- names and values with `=` and `&` between them give the map that has the route under its key and in
-- which each name has the value written for it last. A name holds no `=` and no `&`, a value no `&`.
pub get_params-print_params :
    (route : Text) (p : Text × Text) (ps : Params)
    → has_char b'?' route ≡ false
    → IsPlain p
    → All IsPlain ps
    → get_params (route ++ b'?' ∷ print_params p ps) ≡ put_params (p ∷ ps) ((req_route, route) ∷ [])
unfolding get_params
get_params-print_params route p ps e h hs =
    let text = print_params p ps in
    rw (split_at-append b'?' route text e, get_params)
      (params_loop-print_params (length text) p ps ((req_route, route) ∷ []) (omega arith) h hs)

-- A parameter named `req_route` takes the place of the route: the request is served at the path that its
-- sender gives there, whatever the path is that has been compared with the base of the address.
pub get_params-req_route :
    (route value : Text)
    → has_char b'?' route ≡ false
    → has_char b'&' value ≡ false
    → lookup_key req_route (get_params (route ++ b'?' ∷ (req_route ++ b'=' ∷ value))) ≡ some value
get_params-req_route route value e h =
    let read = get_params-print_params route (req_route, value) [] e (refl, refl, h) tt in
    ap (lookup_key req_route) read
    ∙ (lookup-set_key req_route req_route value ((req_route, route) ∷ [])
        ∙ ground (arith, text_eq_refl req_route))

abbrev proto_text : Text
proto_text = b':' ∷ b'/' ∷ b'/' ∷ []

split_proto-append :
    (proto rest : Text)
    → has_char b':' proto ≡ false
    → split_proto (proto ++ (proto_text ++ rest)) ≡ some (proto, rest)
unfolding split_proto
split_proto-append [] rest e = refl
split_proto-append (a ∷ []) rest e = ground arith
split_proto-append (a ∷ b ∷ []) rest e = ground arith
split_proto-append (a ∷ b ∷ c ∷ proto) rest e =
    ground (arith, split_proto-append (b ∷ c ∷ proto) rest)

-- An address with a protocol, a host, a port and a path is taken apart into these: the host has no colon, the
-- port no slash, the protocol no colon.
pub get_url_end_point-parts :
    (atoi : Text → ℤ) (proto ip port path : Text)
    → has_char b':' proto ≡ false
    → has_char b':' ip ≡ false
    → has_char b'/' port ≡ false
    → get_url_end_point atoi (proto ++ (proto_text ++ (ip ++ b':' ∷ (port ++ b'/' ∷ path))))
      ≡ record { ip = ip; port = atoi port; base = b'/' ∷ path }
unfolding get_url_end_point host_parts
get_url_end_point-parts atoi proto ip port path e f g =
    let rest = ip ++ b':' ∷ (port ++ b'/' ∷ path) in
    rw
      (
        split_proto-append proto rest e,
        split_at-append b':' ip (port ++ b'/' ∷ path) f,
        split_at-append b'/' port path g,
        get_url_end_point,
        host_parts,
      )
      refl
