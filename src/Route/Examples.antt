-- ===== src/Route/Examples.antt =====
-- Paths normalized at concrete targets, and a route selected among three.
use plecto.Prelude.{◌≡◌, refl, true, List, [], ◌∷◌, none, some, All, Text, bytes, arith}
use plecto.Strings.{split_on, split_once, starts_with, ends_with, join, pop, cons_left, cons_piece}
use plecto.Route.{
  normalize_path, normalize_origin, split_query, query_parts, rejoin, resolve, is_forbidden,
  has_byte_at, contains_encoded_separator, spells_separator, CompiledRoute, RequestParts, select,
  select_from, keep_max, key, lex_le, route_matches, path_under_prefix, before_query,
  normalize_host,
}
use plecto.Route.Precedence.{Selects, select-Selects}
use plecto.Route.Normalize.{Plain, normalize_path-Safe}

dots_resolved : normalize_path (bytes "/a/./b/../c?q=..") ≡ some (bytes "/a/c?q=..")
unfolding normalize_path normalize_origin split_query split_once split_on resolve starts_with join
    pop query_parts rejoin is_forbidden contains_encoded_separator spells_separator cons_left
    cons_piece
dots_resolved = refl

root_not_left : normalize_path (bytes "/a/../..") ≡ none
unfolding normalize_path normalize_origin split_query split_once split_on resolve starts_with join
    pop query_parts rejoin is_forbidden contains_encoded_separator spells_separator cons_left
    cons_piece
root_not_left = refl

encoded_dot_refused : normalize_path (bytes "/a/%2E%2e/b") ≡ none
unfolding normalize_path normalize_origin split_query split_once split_on resolve starts_with join
    pop query_parts rejoin is_forbidden contains_encoded_separator spells_separator cons_left
    cons_piece
encoded_dot_refused = refl

absolute : starts_with (b'/' ∷ []) (split_query (bytes "/a/./b/../c?q=..")).0 ≡ true
unfolding split_query query_parts split_once cons_left starts_with
absolute = refl

normalize_path-Safe_example :
    (starts_with (b'/' ∷ []) (split_query (bytes "/a/c?q=..")).0 ≡ true)
    × All Plain (split_on b'/' (split_query (bytes "/a/c?q=..")).0)
    × ((split_query (bytes "/a/c?q=..")).1 ≡ (split_query (bytes "/a/./b/../c?q=..")).1)
normalize_path-Safe_example =
    normalize_path-Safe (bytes "/a/./b/../c?q=..") (bytes "/a/c?q=..") absolute dots_resolved

abbrev under : Text → CompiledRoute
under prefix = record {
  host = none;
  path_prefix = prefix;
  method = none;
  headers = [];
  query = [];
  strip = none;
}

abbrev routes : List CompiledRoute
routes =
    under (bytes "/")
    ∷ under (bytes "/api")
    ∷ record (under (bytes "/api")) { method = some (bytes "POST") }
    ∷ under (bytes "/api")
    ∷ []

abbrev request : RequestParts
request = record {
  authority = bytes "a.example:443";
  path = bytes "/api/users";
  method = bytes "GET";
  headers = [];
}

first_of_longest : select routes request ≡ some 1
unfolding select select_from keep_max key lex_le route_matches path_under_prefix before_query
    normalize_host split_once starts_with ends_with has_byte_at
first_of_longest = refl

select-Selects_example : Selects routes request (select routes request)
select-Selects_example = select-Selects routes request (omega arith)
