-- ===== src/Gtype/Object.antt =====
-- The pairs of a gtype object: length_compare_gtype_string_value, length_compare_gtype_pair and
-- uniqueify_gtype_object of gtype_util.c. A key is the list of its bytes. Of memcmp only the sign is
-- kept. qsort_arg is PostgreSQL's: the sorted pairs, and whether the comparison met equal keys, are
-- arguments.
pub mod Unique
pub mod Order
pub mod Tests
use post_graph.Prelude.{ℕ, ◌+◌, Bool, true, false, List, [], ◌∷◌, ◌==◌, ltb, if◌then◌else◌, length}
use post_graph.Prelude.Int.{ℤ, pos, negsuc, is_zero}

pub record Pair (V : Type 0) : Type 0 where
  pub key : List ℕ
  pub order : ℕ
  pub value : V

-- For bytes of one length.
unfoldable pub memcmp : List ℕ → List ℕ → ℤ
memcmp [] ys = pos 0
memcmp (x ∷ xs) [] = pos 0
memcmp (x ∷ xs) (y ∷ ys) =
    let behind = memcmp xs ys in if x == y then behind else if ltb x y then negsuc 0 else pos 1

unfoldable pub length_compare_gtype_string_value : List ℕ → List ℕ → ℤ
length_compare_gtype_string_value a b =
    if length a == length b
    then memcmp a b
    else if ltb (length b) (length a)
    then pos 1
    else negsuc 0

module _ {V : Type 0} where
  pub length_compare_gtype_pair : Pair V → Pair V → ℤ
  length_compare_gtype_pair pa pb =
      let res = length_compare_gtype_string_value pa.key pb.key in
      if is_zero res then (if ltb pb.order pa.order then negsuc 0 else pos 1) else res

  -- The loop over the sorted pairs behind `res`, the last one that is kept: what is kept behind it.
  pub skip_duplicates : Pair V → List (Pair V) → List (Pair V)
  skip_duplicates res [] = []
  skip_duplicates res (ptr ∷ rest) =
      let same = skip_duplicates res rest in
      let other = ptr ∷ skip_duplicates ptr rest in
      if is_zero (length_compare_gtype_string_value ptr.key res.key) then same else other

  abbrev pub kept : List (Pair V) → List (Pair V)
  kept [] = []
  kept (res ∷ rest) = res ∷ skip_duplicates res rest

  unfoldable pub uniqueify_gtype_object :
      (qsort_arg : List (Pair V) → List (Pair V) × Bool) → List (Pair V) → List (Pair V)
  uniqueify_gtype_object qsort_arg [] = []
  uniqueify_gtype_object qsort_arg (pair ∷ []) = pair ∷ []
  uniqueify_gtype_object qsort_arg (p ∷ q ∷ pairs) =
      let (sorted, has_non_uniq) = qsort_arg (p ∷ q ∷ pairs) in
      if has_non_uniq then kept sorted else sorted
