-- ===== src/Gtype/Tests.antt =====
-- A container of three parts of 5, 2 and 4 bytes; the second entry holds the offset 7.
use post_graph.Prelude.{ℕ, ◌+◌, ◌^◌, ◌≡◌, refl, some, List, [], ◌∷◌, get_elem?, ok, arith}
use post_graph.Gtype.{get_gtype_offset, get_gtype_length, offlen_field, has_off}
use post_graph.Gtype.Offsets.{Encodes, total, get_gtype_length_lem}

abbrev children : List ℕ
children = 5 ∷ (2 ^ 31 + 7) ∷ 4 ∷ []

abbrev lengths : List ℕ
lengths = 5 ∷ 2 ∷ 4 ∷ []

children-Encodes : Encodes 0 children lengths
unfolding offlen_field has_off
children-Encodes = (refl, (refl, (refl, tt)))

get_gtype_length_lem_example :
    (get_gtype_offset children 2 ≡ ok (total 2 lengths))
    × (size : ℕ) × (get_elem? lengths 2 ≡ some size)
    × (get_gtype_length children 2 ≡ ok size)
get_gtype_length_lem_example =
    get_gtype_length_lem children lengths 2 children-Encodes (omega arith) (omega arith)
