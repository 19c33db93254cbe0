-- ===== src/Headers/Examples.antt =====
-- Headers that pass through unchanged, one of them not UTF-8.
use plecto.Prelude.{
  ◌≡◌, refl, List, [], ◌∷◌, map, Option, some, Text, bytes, filter, ltb, if◌then◌else◌,
}
use plecto.Strings.{split_on, cons_piece}
use plecto.Route.{Header}
use plecto.Headers.{
  headers_to_vec, copy_headers_preserving, connection_named, tokens_of, is_hop_by_hop, appended,
  value_of, preserved_value,
}
use plecto.Headers.Verbatim.{crosses, copy_headers_preserving-headers_to_vec}

-- Names and values are accepted as they are; a byte that is not ASCII decodes to a question mark here.
abbrev accepted : Text → Option Text
accepted text = some text

abbrev lossy : Text → Text
lossy = map (λ c. if ltb c 128 then c else b'?')

abbrev inbound : List Header
inbound =
    record { name = bytes "x-blob"; value = 195 ∷ 40 ∷ [] }
    ∷ record { name = bytes "Connection"; value = bytes "x-trace" }
    ∷ record { name = bytes "x-trace"; value = bytes "1" }
    ∷ []

crossing :
    filter (crosses (connection_named inbound)) inbound
    ≡ record { name = bytes "x-blob"; value = 195 ∷ 40 ∷ [] } ∷ []
unfolding connection_named tokens_of is_hop_by_hop split_on cons_piece
crossing = refl

copy_headers_preserving-headers_to_vec_example :
    copy_headers_preserving accepted accepted lossy inbound [] (headers_to_vec lossy inbound)
    ≡ filter (crosses (connection_named inbound)) inbound
copy_headers_preserving-headers_to_vec_example =
    copy_headers_preserving-headers_to_vec accepted accepted lossy inbound (
      (refl, ((λ n e. refl), ((λ n e. cc), ((λ n e. cc), tt)))),
      (
        (refl, ((λ n e. cc), ((λ n e. refl), ((λ n e. cc), tt)))),
        ((refl, ((λ n e. cc), ((λ n e. cc), ((λ n e. refl), tt)))), tt),
      ),
    )

-- Two values of one name that decode to one text: the second comes out with the bytes of the first.
abbrev ambiguous : List Header
ambiguous =
    record { name = bytes "x-blob"; value = 195 ∷ [] }
    ∷ record { name = bytes "x-blob"; value = 196 ∷ [] }
    ∷ []

second_replaced :
    copy_headers_preserving accepted accepted lossy ambiguous [] (headers_to_vec lossy ambiguous)
    ≡ record { name = bytes "x-blob"; value = 195 ∷ [] }
      ∷ record { name = bytes "x-blob"; value = 195 ∷ [] }
      ∷ []
unfolding copy_headers_preserving headers_to_vec connection_named tokens_of is_hop_by_hop appended
    value_of preserved_value
second_replaced = refl
