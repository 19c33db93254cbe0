-- ===== src/Headers.antt =====
-- server/src/headers.rs: hop-by-hop headers and the client's address. The text of an address and the
-- lossy decoding of a value are parameters, and so are the checks of names and values of the header library.
pub mod Forwarded
pub mod Verbatim
pub mod Examples
use plecto.Prelude.{
  ℕ, Bool, true, false, not, ◌&&◌, ◌||◌, List, [], ◌∷◌, ◌++◌, map, Option, none, some, Text, bytes,
  text_eq, to_ascii_lowercase, eq_ignore_ascii_case, filter, any, find, if◌then◌else◌, ltb, leb,
  ◌==◌,
}
use plecto.Net.{IpAddr}
use plecto.Strings.{split_on}
use plecto.Route.{Header}
use plecto.RateLimit.{canonical}

abbrev pub hop_by_hop : List Text
hop_by_hop =
    bytes "connection"
    ∷ bytes "keep-alive"
    ∷ bytes "proxy-connection"
    ∷ bytes "transfer-encoding"
    ∷ bytes "te"
    ∷ bytes "trailer"
    ∷ bytes "upgrade"
    ∷ bytes "proxy-authorization"
    ∷ bytes "proxy-authenticate"
    ∷ []

unfoldable pub is_hop_by_hop : Text → Bool
is_hop_by_hop name = any (eq_ignore_ascii_case name) hop_by_hop

-- `str::trim` on the bytes that a header value may hold.
abbrev is_space : ℕ → Bool
is_space c = (c == 32) || (leb 9 c && leb c 13)

abbrev trim_start : Text → Text
trim_start [] = []
trim_start (x ∷ s) = let rest = trim_start s in if is_space x then rest else x ∷ s

abbrev trim_end : Text → Text
trim_end [] = []
trim_end (x ∷ s) = elim (trim_end s) [ [] ↦ if is_space x then [] else x ∷ [] | y ∷ t ↦ x ∷ y ∷ t ]

-- `to_str`: visible ASCII, spaces and tabs.
abbrev is_visible : ℕ → Bool
is_visible c = (leb 32 c && ltb c 127) || (c == 9)

unfoldable pub tokens_of : Text → List Text
tokens_of value =
    if any (λ c. not (is_visible c)) value
    then []
    else map to_ascii_lowercase (
        filter (λ t. not (text_eq t [])) (map (λ t. trim_end (trim_start t)) (split_on b',' value)))

-- The names that the `Connection` headers designate.
unfoldable pub connection_named : List Header → List Text
connection_named [] = []
connection_named (h ∷ hs) =
    let rest = connection_named hs in
    if eq_ignore_ascii_case (h.name) (bytes "connection") then tokens_of (h.value) ++ rest else rest

unfoldable pub headers_to_vec : (Text → Text) → List Header → List Header
headers_to_vec lossy headers =
    let dynamic = connection_named headers in
    map (λ h. record { name = h.name; value = lossy (h.value) })
      (filter
        (λ h.
          not (is_hop_by_hop (h.name)) && not (any (text_eq (to_ascii_lowercase (h.name))) dynamic))
        headers)

abbrev pub forwarded_headers : List Text
forwarded_headers =
    bytes "forwarded"
    ∷ bytes "x-forwarded-for"
    ∷ bytes "x-forwarded-proto"
    ∷ bytes "x-forwarded-host"
    ∷ bytes "x-real-ip"
    ∷ bytes "true-client-ip"
    ∷ bytes "cf-connecting-ip"
    ∷ bytes "fastly-client-ip"
    ∷ bytes "x-client-ip"
    ∷ bytes "x-cluster-client-ip"
    ∷ []

pub is_forwarded : Header → Bool
is_forwarded h = any (eq_ignore_ascii_case (h.name)) forwarded_headers

-- The three headers of the edge.
pub edge_headers : Text → Text → List Header
edge_headers client_ip scheme =
    record { name = bytes "x-forwarded-for"; value = client_ip }
    ∷ record { name = bytes "x-real-ip"; value = client_ip }
    ∷ record { name = bytes "x-forwarded-proto"; value = scheme }
    ∷ []

unfoldable pub set_forwarded : (IpAddr → Text) → List Header → IpAddr → Text → List Header
set_forwarded show headers peer scheme =
    filter (λ h. not (is_forwarded h)) headers ++ edge_headers (show (canonical peer)) scheme

-- `HeaderName::from_bytes` and `HeaderValue::from_str` are parameters; a header that either refuses is dropped.
pub appended : List Header → Option Text → Option Text → List Header
appended dst none value = dst
appended dst (some name) none = dst
appended dst (some name) (some value) = dst ++ (record { name = name; value = value } ∷ [])

unfoldable pub copy_headers :
    (Text → Option Text) → (Text → Option Text) → List Header → List Header → List Header
copy_headers header_name header_value dst [] = dst
copy_headers header_name header_value dst (h ∷ hs) =
    copy_headers header_name header_value
      (if is_hop_by_hop h.name
        then dst
        else appended dst (header_name h.name) (header_value h.value))
      hs

abbrev original_value : Option Header → Option Text
original_value none = none
original_value (some h) = some h.value

-- The value under `name` of the original headers whose lossy decoding is `value`.
pub preserved_value : (Text → Text) → List Header → Text → Text → Option Text
preserved_value lossy original name value =
    original_value
      (find (λ h. eq_ignore_ascii_case h.name name && text_eq (lossy h.value) value) original)

pub value_of :
    (Text → Option Text) → (Text → Text) → List Header → Header → Option Text → Option Text
value_of header_value lossy original h none = none
value_of header_value lossy original h (some name) =
    elim (preserved_value lossy original name h.value) [
      | some value ↦ some value
      | none ↦ header_value h.value
    ]

unfoldable pub copy_headers_preserving :
    (Text → Option Text)
    → (Text → Option Text)
    → (Text → Text)
    → List Header
    → List Header
    → List Header
    → List Header
copy_headers_preserving header_name header_value lossy original dst [] = dst
copy_headers_preserving header_name header_value lossy original dst (h ∷ hs) =
    copy_headers_preserving header_name header_value lossy original
      (if is_hop_by_hop h.name
        then dst
        else appended dst (header_name h.name)
            (value_of header_value lossy original h (header_name h.name)))
      hs
