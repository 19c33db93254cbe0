-- ===== src/Route.antt =====
-- control/src/route.rs: hosts and paths normalized, routes matched and selected, prefixes stripped.
pub mod Examples
pub mod Normalize
pub mod Best
pub mod Precedence
use plecto.Prelude.{
  ℕ, zero, suc, ◌+◌, ◌-◌, Bool, true, false, ◌&&◌, ◌||◌, not, List, [], ◌∷◌, ◌++◌, Option, none,
  some, Text, text_eq, bytes, length, get_elem?, take, find, any, all, to_ascii_lowercase,
  eq_ignore_ascii_case, if◌then◌else◌, leb, ltb, ◌==◌, u64_max,
}
use plecto.Strings.{split_on, split_once, strip_prefix, starts_with, ends_with, join, pop, contains}

pub record Header : Type 0 where
  pub name : Text
  pub value : Text

-- The dimensions that matching reads, and the prefix that forwarding strips.
pub record CompiledRoute : Type 0 where
  pub host : Option Text
  pub path_prefix : Text
  pub method : Option Text
  pub headers : List (Text × Text)
  pub query : List (Text × Text)
  pub strip : Option Text

pub record RequestParts : Type 0 where
  pub authority : Text
  pub path : Text
  pub method : Text
  pub headers : List Header

-- The host without its port: `[inner]` of a bracketed address, all before the first `:` otherwise.
pub without_port : Text → Text
without_port authority = elim (strip_prefix (b'[' ∷ []) authority) [
  | none ↦ elim (split_once b':' authority) [ none ↦ authority | some (host, port) ↦ host ]
  | some rest ↦ elim (split_once b']' rest) [
    | none ↦ authority
    | some (inner, port) ↦ take (length inner + 2) authority
  ]
]

pub normalize_host : Text → Text
normalize_host authority =
    let lowered = to_ascii_lowercase (without_port authority) in
    if ends_with b'.' lowered && not (starts_with (b'[' ∷ []) lowered) then pop lowered else lowered

-- A byte that a path may not hold: a control byte, DEL, or a backslash.
unfoldable pub is_forbidden : ℕ → Bool
is_forbidden b = ltb b 0x20 || (b == 0x7f) || (b == b'\\')

-- The bytes after a `%` that spell `.`, `/` or a backslash.
pub spells_separator : ℕ → ℕ → Bool
spells_separator h l =
    ((h == b'2') && ((l == b'e') || (l == b'E') || (l == b'f') || (l == b'F')))
    || ((h == b'5') && ((l == b'c') || (l == b'C')))

unfoldable pub contains_encoded_separator : Text → Bool
contains_encoded_separator (a ∷ b ∷ c ∷ s) =
    ((a == b'%') && spells_separator b c) || contains_encoded_separator (b ∷ c ∷ s)
contains_encoded_separator s = false

abbrev pub dot : Text
dot = b'.' ∷ []

abbrev pub dot_dot : Text
dot_dot = b'.' ∷ b'.' ∷ []

-- The segments of the path resolved onto `out`; `none` when a `..` leaves the root.
unfoldable pub resolve : List Text → List Text → Option (List Text)
resolve out [] = some out
resolve out (seg ∷ segs) =
    let skipped = resolve out segs in
    let popped = resolve (pop out) segs in
    let pushed = resolve (out ++ (seg ∷ [])) segs in
    if text_eq seg dot
    then skipped
    else if text_eq seg dot_dot
    then if leb (length out) 1 then none else popped
    else pushed

abbrev pub or_root : Text → Text
or_root [] = b'/' ∷ []
or_root (x ∷ s) = x ∷ s

abbrev pub with_query : Option Text → Text → Text
with_query none norm = norm
with_query (some q) norm = norm ++ (b'?' ∷ q)

-- The path of a target, and its query.
unfoldable pub query_parts : Text → Option (Text × Text) → Text × Option Text
query_parts target none = (target, none)
query_parts target (some (p, q)) = (p, some q)

unfoldable pub split_query : Text → Text × Option Text
split_query target = query_parts target (split_once b'?' target)

unfoldable pub rejoin : Option Text → Option (List Text) → Option Text
rejoin query none = none
rejoin query (some out) = some (with_query query (or_root (join b'/' out)))

unfoldable pub normalize_origin : Text → Option Text → Option Text
normalize_origin raw query =
    if any is_forbidden raw || contains_encoded_separator raw
    then none
    else rejoin query (resolve [] (split_on b'/' raw))

unfoldable pub normalize_path : Text → Option Text
normalize_path target =
    let (raw, query) = split_query target in
    if starts_with (b'/' ∷ []) raw then normalize_origin raw query else some target

-- The text before the first `?` or `#`.
unfoldable pub before_query : Text → Text
before_query [] = []
before_query (x ∷ s) =
    let rest = before_query s in if (x == b'?') || (x == b'#') then [] else x ∷ rest

pub has_byte_at : ℕ → ℕ → Text → Bool
has_byte_at c i s = elim (get_elem? s i) [ none ↦ false | some x ↦ x == c ]

unfoldable pub path_under_prefix : Text → Text → Bool
path_under_prefix prefix path =
    let p = before_query path in
    starts_with prefix p
    && ((length p == length prefix) || ends_with b'/' prefix || has_byte_at b'/' (length prefix) p)

-- An unspecified dimension matches everything.
abbrev pub matches_option : Option Text → Text → Bool
matches_option none s = true
matches_option (some t) s = text_eq t s

-- The first header of this name decides.
pub header_matches : List Header → Text × Text → Bool
header_matches headers (name, value) =
    elim (find (λ h. eq_ignore_ascii_case (h.name) name) headers) [
      | none ↦ false
      | some h ↦ text_eq (h.value) value
    ]

-- The first pair of this name decides; a pair without `=` is skipped.
pub first_pair : List Text → Text → Text → Bool
first_pair [] name value = false
first_pair (pair ∷ pairs) name value =
    let rest = first_pair pairs name value in
    elim (split_once b'=' pair) [
      | none ↦ rest
      | some (k, v) ↦ if text_eq k name then text_eq v value else rest
    ]

pub query_param_matches : Text → Text → Text → Bool
query_param_matches query name value = first_pair (split_on b'&' query) name value

unfoldable pub route_matches : CompiledRoute → Text → Text → Text → List Header → Text → Bool
route_matches r host path method headers query =
    matches_option (r.host) host
    && path_under_prefix (r.path_prefix) path
    && matches_option (r.method) method
    && all (header_matches headers) (r.headers)
    && all (λ q. query_param_matches query q.0 q.1) (r.query)

abbrev pub flag : Option Text → ℕ
flag none = 0
flag (some t) = 1

-- The specificity key, most significant first.
pub key : ℕ → CompiledRoute → List ℕ
key i r =
    flag (r.host)
    ∷ length (r.path_prefix)
    ∷ flag (r.method)
    ∷ length (r.headers)
    ∷ length (r.query)
    ∷ (u64_max - i)
    ∷ []

pub lex_le : List ℕ → List ℕ → Bool
lex_le [] ys = true
lex_le (x ∷ xs) [] = false
lex_le (x ∷ xs) (y ∷ ys) = ltb x y || ((x == y) && lex_le xs ys)

-- `max_by_key` keeps the last of several greatest.
unfoldable pub keep_max :
    Option (ℕ × CompiledRoute) → ℕ → CompiledRoute → Option (ℕ × CompiledRoute)
keep_max none i r = some (i, r)
keep_max (some (j, best)) i r =
    if lex_le (key j best) (key i r) then some (i, r) else some (j, best)

unfoldable pub select_from :
    (CompiledRoute → Bool)
    → ℕ
    → List CompiledRoute
    → Option (ℕ × CompiledRoute)
    → Option (ℕ × CompiledRoute)
select_from matching i [] best = best
select_from matching i (r ∷ routes) best =
    select_from matching (suc i) routes (if matching r then keep_max best i r else best)

abbrev pub query_of : Option (Text × Text) → Text
query_of none = []
query_of (some (p, q)) = q

abbrev pub index_of : Option (ℕ × CompiledRoute) → Option ℕ
index_of none = none
index_of (some (i, r)) = some i

unfoldable pub select : List CompiledRoute → RequestParts → Option ℕ
select routes req =
    let host = normalize_host (req.authority) in
    let query = query_of (split_once b'?' (req.path)) in
    index_of (
      select_from (λ r. route_matches r host (req.path) (req.method) (req.headers) query) 0 routes
        none)

unfoldable pub rewrite_path : Text → Option Text → Text
rewrite_path path none = path
rewrite_path path (some strip) = elim (strip_prefix strip path) [
  | none ↦ path
  | some rest ↦ if starts_with (b'/' ∷ []) rest then rest else b'/' ∷ rest
]
