-- ===== src/Gtype/Find/Sorted.antt =====
-- The binary search over the keys of an object against a search in order.
use post_graph.Prelude.{
  ℕ, zero, suc, ◌+◌, ◌-◌, ◌/◌, ◌≤◌, ◌<◌, ◌≡◌, refl, sym, ap, ◌∙◌, inl, inr, Bool, true, false, List,
  [], ◌∷◌, ◌==◌, ltb, if◌then◌else◌, length, get_elem?, Bool-cases, Option, none, some, ok, map_ok,
  arith,
}
use mathlib.Core.Path.{subst}
use post_graph.Prelude.Int.{negsuc, is_zero}
use post_graph.Gtype.Object.{length_compare_gtype_string_value}
use post_graph.Gtype.Object.Unique.{compare_equal}
use post_graph.Gtype.Object.Order.{neg-length_compare, length_compare-IsSign, length_compare_trans}
use post_graph.Gtype.Scalar.{Scalar, ScalarOps}
use post_graph.Gtype.Value.{Value, Fields, keys, field_values}
use post_graph.Gtype.Iterator.{fill_gtype_value}
use post_graph.Gtype.Builder.Loop.{IsIncreasing}
use post_graph.Gtype.Find.{search_keys, find_gtype_value_from_container}

-- The value of the first pair with the key.
unfoldable pub lookup : List ℕ → Fields → Option Value
lookup key Fields.no_fields = none
lookup key (Fields.field k v fs) =
    let later = lookup key fs in
    if is_zero (length_compare_gtype_string_value k key) then some v else later

abbrev Less : List ℕ → List ℕ → Type 0
Less a b = length_compare_gtype_string_value a b ≡ negsuc 0

Less-apart : (a b : List ℕ) → Less a b → is_zero (length_compare_gtype_string_value a b) ≡ false
Less-apart a b less = rw less refl

Less-back : (a b : List ℕ) → Less a b → is_zero (length_compare_gtype_string_value b a) ≡ false
Less-back a b less = rw (neg-length_compare a b, less) refl

-- The head of increasing keys is less than each key behind it.
IsIncreasing-head :
    (k : List ℕ) (ks : List (List ℕ)) (i : ℕ) (a : List ℕ)
    → IsIncreasing (k ∷ ks)
    → get_elem? ks i ≡ some a
    → Less k a
IsIncreasing-head k [] i a up at = cc
IsIncreasing-head k (l ∷ ks) zero a (less, up) at =
    let same : l ≡ a = cc in subst (Less k) same less
IsIncreasing-head k (l ∷ ks) (suc i) a (less, up) at =
    length_compare_trans k l a less (IsIncreasing-head l ks i a up at)

IsIncreasing-tail : (k : List ℕ) (ks : List (List ℕ)) → IsIncreasing (k ∷ ks) → IsIncreasing ks
IsIncreasing-tail k [] up = tt
IsIncreasing-tail k (l ∷ ks) (less, up) = up

IsIncreasing-pair :
    (ks : List (List ℕ)) (i j : ℕ) (a b : List ℕ)
    → IsIncreasing ks
    → i < j
    → get_elem? ks i ≡ some a
    → get_elem? ks j ≡ some b
    → Less a b
IsIncreasing-pair [] i j a b up lt at at' = cc
IsIncreasing-pair (k ∷ ks) i zero a b up lt at at' = absurd (omega (arith, lt))
IsIncreasing-pair (k ∷ ks) zero (suc j) a b up lt at at' =
    let same : k ≡ a = cc in subst (λ c. Less c b) same (IsIncreasing-head k ks j b up at')
IsIncreasing-pair (k ∷ ks) (suc i) (suc j) a b up lt at at' =
    IsIncreasing-pair ks i j a b (IsIncreasing-tail k ks up) (omega (arith, lt)) at at'

lookup-some :
    (key : List ℕ) (fs : Fields) (i : ℕ) (a : List ℕ)
    → IsIncreasing (keys fs)
    → get_elem? (keys fs) i ≡ some a
    → is_zero (length_compare_gtype_string_value a key) ≡ true
    → lookup key fs ≡ get_elem? (field_values fs) i
unfolding lookup
lookup-some key Fields.no_fields i a up at null = cc
lookup-some key (Fields.field k v fs) zero a up at null =
    let same : k ≡ a = cc in rw (same, null) refl
lookup-some key (Fields.field k v fs) (suc i) a up at null =
    let found : a ≡ key = compare_equal a key null in
    let less : Less k key = subst (Less k) found (IsIncreasing-head k (keys fs) i a up at) in
    rw (Less-apart k key less) (lookup-some key fs i a (IsIncreasing-tail k (keys fs) up) at null)

lookup-none :
    (key : List ℕ) (fs : Fields)
    → ((i : ℕ) (a : List ℕ)
        → get_elem? (keys fs) i ≡ some a
        → is_zero (length_compare_gtype_string_value a key) ≡ false)
    → lookup key fs ≡ none
unfolding lookup
lookup-none key Fields.no_fields other = refl
lookup-none key (Fields.field k v fs) other =
    rw (other 0 k refl) (lookup-none key fs (λ i a at. other (suc i) a at))

get_elem?-some :
    {A : Type 0} (xs : List A) (i : ℕ) → i < length xs → (a : A) × (get_elem? xs i ≡ some a)
get_elem?-some [] i within = absurd (omega (arith, within))
get_elem?-some (x ∷ xs) zero within = (x, refl)
get_elem?-some (x ∷ xs) (suc i) within = get_elem?-some xs i (omega (arith, within))

get_elem?-out :
    {A : Type 0} (xs : List A) (i : ℕ) (a : A) → length xs ≤ i → get_elem? xs i ≡ some a → ⊥
get_elem?-out [] i a le at = cc
get_elem?-out (x ∷ xs) zero a le at = omega (arith, le)
get_elem?-out (x ∷ xs) (suc i) a le at = get_elem?-out xs i a (omega (arith, le)) at

length-field_values : (fs : Fields) → length (field_values fs) ≡ length (keys fs)
length-field_values Fields.no_fields = refl
length-field_values (Fields.field k v fs) = ap suc (length-field_values fs)

module _ (fs : Fields) (key : List ℕ) (up : IsIncreasing (keys fs)) where
  -- The keys below an index are less than the key, those from an index on are greater.
  abbrev Below : ℕ → Type 0
  Below low = (i : ℕ) (a : List ℕ) → i < low → get_elem? (keys fs) i ≡ some a → Less a key

  abbrev Above : ℕ → Type 0
  Above high = (i : ℕ) (a : List ℕ) → high ≤ i → get_elem? (keys fs) i ≡ some a → Less key a

  Below-middle : (m : ℕ) (c : List ℕ) → get_elem? (keys fs) m ≡ some c → Less c key → Below (m + 1)
  Below-middle m c at less i a lt at' = elim (Bool-cases (i == m)) [
    | inl here ↦
        let same : i ≡ m = ground (arith, here) in
        let e : some a ≡ some c = sym at' ∙ ap (get_elem? (keys fs)) same ∙ at in
        let e' : c ≡ a = cc in subst (λ b. Less b key) e' less
    | inr before ↦
        length_compare_trans a c key
          (IsIncreasing-pair (keys fs) i m a c up (ground (arith, before, lt)) at' at) less
  ]

  Above-middle : (m : ℕ) (c : List ℕ) → get_elem? (keys fs) m ≡ some c → Less key c → Above m
  Above-middle m c at less i a le at' = elim (Bool-cases (i == m)) [
    | inl here ↦
        let same : i ≡ m = ground (arith, here) in
        let e : some a ≡ some c = sym at' ∙ ap (get_elem? (keys fs)) same ∙ at in
        let e' : c ≡ a = cc in subst (Less key) e' less
    | inr behind ↦
        length_compare_trans key c a less
          (IsIncreasing-pair (keys fs) m i c a up (ground (arith, behind, le)) at at')
  ]

  -- The value at the middle, with the index that the entries of the values have.
  fill_middle :
      (m : ℕ) (c : List ℕ)
      → m < length (keys fs)
      → get_elem? (keys fs) m ≡ some c
      → is_zero (length_compare_gtype_string_value c key) ≡ true
      → map_ok some (fill_gtype_value (Value.object fs) (m + length (keys fs))) ≡ ok (lookup key fs)
  unfolding fill_gtype_value
  fill_middle m c within at null =
      let (v, at') =
        get_elem?-some (field_values fs) m (omega (arith, within, length-field_values fs)) in
      let behind : m + length (keys fs) - length (keys fs) ≡ m = omega arith in
      let past : ltb (m + length (keys fs)) (length (keys fs)) ≡ false = ground arith in
      rw (past, behind, at', lookup-some key fs m c up at null, at') refl

  none_between : (low high : ℕ) → high ≤ low → Below low → Above high → lookup key fs ≡ none
  none_between low high le below above = lookup-none key fs (λ i a at.
      elim (Bool-cases (ltb i low)) [
        | inl before ↦ Less-apart a key (below i a (ground (arith, before)) at)
        | inr behind ↦ Less-back key a (above i a (ground (arith, behind, le)) at)
      ])

  search_keys-lookup :
      (fuel low high : ℕ)
      → high ≤ length (keys fs)
      → Below low
      → Above high
      → high - low < fuel
      → search_keys fuel fs key low high ≡ ok (lookup key fs)
  unfolding search_keys
  search_keys-lookup zero low high le below above enough = absurd (omega (arith, enough))
  search_keys-lookup (suc fuel) low high le below above enough = elim (Bool-cases (ltb low high)) [
    | inr over ↦ rw (over, none_between low high (ground (arith, over)) below above) refl
    | inl open_bounds ↦
        let middle : ℕ = low + (high - low) / 2 in
        let under : low + (high - low) / 2 < high = ground (arith, open_bounds) in
        let (c, at) =
          get_elem?-some (keys fs) (low + (high - low) / 2) (omega (arith, under, le)) in
        elim (length_compare-IsSign c key) [
          | inl less ↦
              rw (open_bounds, at, less)
                (search_keys-lookup fuel (low + (high - low) / 2 + 1) high le
                  (Below-middle (low + (high - low) / 2) c at less) above
                  (omega (arith, enough, under)))
          | inr (inl null) ↦
              rw (open_bounds, at, null)
                (fill_middle (low + (high - low) / 2) c (omega (arith, under, le)) at
                  (rw null refl))
          | inr (inr more) ↦
              let less : Less key c = neg-length_compare c key ∙ rw more refl in
              rw (open_bounds, at, more)
                (search_keys-lookup fuel low (low + (high - low) / 2) (omega (arith, under, le))
                  below (Above-middle (low + (high - low) / 2) c at less)
                  (omega (arith, enough, under)))
        ]
  ]

-- When the keys of an object are in increasing order and there is more fuel than pairs, the binary
-- search of find_gtype_value_from_container ends and finds what a search in order finds: the value
-- of the pair with the key, or NULL if there is none.
pub find_gtype_value_from_container-lookup :
    (ops : ScalarOps) (fuel : ℕ) (fs : Fields) (array_flag : Bool) (key : List ℕ)
    → IsIncreasing (keys fs)
    → length (keys fs) < fuel
    → find_gtype_value_from_container ops fuel (Value.object fs) array_flag true (Scalar.string key)
      ≡ ok (lookup key fs)
unfolding find_gtype_value_from_container lookup
find_gtype_value_from_container-lookup ops fuel Fields.no_fields array_flag key up enough = refl
find_gtype_value_from_container-lookup ops fuel (Fields.field k v fs) array_flag key up enough =
    let some_pair : (suc (length (keys fs)) == 0) ≡ false = ground arith in
    rw some_pair (
      search_keys-lookup (Fields.field k v fs) key up fuel 0 (suc (length (keys fs))) (omega arith)
        (λ i a lt at. absurd (omega (arith, lt)))
        (λ i a le at. absurd (get_elem?-out (keys (Fields.field k v fs)) i a le at))
        (omega (arith, enough)))
