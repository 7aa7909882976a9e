-- ===== src/Gtype/Object/Unique.antt =====
-- Which pairs of an object are kept.
use post_graph.Prelude.{
  ℕ, ◌≤◌, ◌<◌, ◌≡◌, refl, sym, ap, ◌∙◌, ◌⊎◌, inl, inr, Bool, true, false, List, [], ◌∷◌, ◌==◌,
  ==_iff, ==_refl, ltb, Bool-cases, length, All, All-imp, arith,
}
use mathlib.Core.Path.{subst}
use post_graph.Prelude.Int.{pos, negsuc, is_zero}
use post_graph.Gtype.Object.{
  Pair, memcmp, length_compare_gtype_string_value, length_compare_gtype_pair, skip_duplicates,
  uniqueify_gtype_object,
}

-- Equal bytes are equal lists.
memcmp-equal :
    (xs ys : List ℕ) → (length xs == length ys) ≡ true → is_zero (memcmp xs ys) ≡ true → xs ≡ ys
unfolding memcmp
memcmp-equal [] [] same null = refl
memcmp-equal [] (y ∷ ys) same null = absurd (ground (arith, same))
memcmp-equal (x ∷ xs) [] same null = absurd (ground (arith, same))
memcmp-equal (x ∷ xs) (y ∷ ys) same null = elim (Bool-cases (x == y)) [
  | inl e ↦
      let heads : x ≡ y = (==_iff x y).0 e in
      let tails : xs ≡ ys = memcmp-equal xs ys (ground (arith, same)) (rw e at null) in cc
  | inr e ↦ elim (Bool-cases (ltb x y)) [
    | inl less ↦ cc (rw (e, less) at null)
    | inr more ↦ cc (rw (e, more) at null)
  ]
]

memcmp_refl : (xs : List ℕ) → memcmp xs xs ≡ pos 0
unfolding memcmp
memcmp_refl [] = refl
memcmp_refl (x ∷ xs) = rw (==_refl x) (memcmp_refl xs)

pub compare_equal : (a b : List ℕ) → is_zero (length_compare_gtype_string_value a b) ≡ true → a ≡ b
unfolding length_compare_gtype_string_value
compare_equal a b null = elim (Bool-cases (length a == length b)) [
  | inl same ↦ memcmp-equal a b same (rw same at null)
  | inr other ↦ elim (Bool-cases (ltb (length b) (length a))) [
    | inl less ↦ cc (rw (other, less) at null)
    | inr more ↦ cc (rw (other, more) at null)
  ]
]

pub compare_refl : (a : List ℕ) → is_zero (length_compare_gtype_string_value a a) ≡ true
unfolding length_compare_gtype_string_value
compare_refl a = rw (==_refl (length a), memcmp_refl a) refl

compare_differ :
    (a b : List ℕ)
    → is_zero (length_compare_gtype_string_value a b) ≡ false
    → is_zero (length_compare_gtype_string_value b a) ≡ false
compare_differ a b other = elim (Bool-cases (is_zero (length_compare_gtype_string_value b a))) [
  | inl null ↦
      let same : b ≡ a = compare_equal b a null in
      let null' : is_zero (length_compare_gtype_string_value a b) ≡ true =
        subst (λ c. is_zero (length_compare_gtype_string_value a c) ≡ true) (sym same)
          (compare_refl a) in
      cc
  | inr differ ↦ differ
]

module _ {V : Type 0} where
  -- Each pair of the sorted list is before the next one.
  abbrev pub IsSorted : Pair V → List (Pair V) → Type 0
  IsSorted p [] = Unit
  IsSorted p (q ∷ qs) = (length_compare_gtype_pair p q ≡ negsuc 0) × IsSorted q qs

  -- Each key is less than the next one.
  abbrev pub IsIncreasing : Pair V → List (Pair V) → Type 0
  IsIncreasing p [] = Unit
  IsIncreasing p (q ∷ qs) =
      (length_compare_gtype_string_value p.key q.key ≡ negsuc 0) × IsIncreasing q qs

  -- One of the pairs has the key, and was given no earlier.
  abbrev pub Keeps : List (Pair V) → Pair V → Type 0
  Keeps [] p = ⊥
  Keeps (q ∷ qs) p = ((q.key ≡ p.key) × (p.order ≤ q.order)) ⊎ Keeps qs p

  less_key :
      (p q : Pair V)
      → length_compare_gtype_pair p q ≡ negsuc 0
      → is_zero (length_compare_gtype_string_value p.key q.key) ≡ false
      → length_compare_gtype_string_value p.key q.key ≡ negsuc 0
  unfolding length_compare_gtype_pair
  less_key p q less other = rw other at less

  later_order :
      (p q : Pair V) → length_compare_gtype_pair p q ≡ negsuc 0 → p.key ≡ q.key → q.order < p.order
  unfolding length_compare_gtype_pair
  later_order p q less same =
      let null : is_zero (length_compare_gtype_string_value p.key q.key) ≡ true =
        subst (λ k. is_zero (length_compare_gtype_string_value p.key k) ≡ true) same
          (compare_refl p.key) in
      elim (Bool-cases (ltb q.order p.order)) [
        | inl after ↦ ground (arith, after)
        | inr before ↦ absurd (cc (rw (null, before) at less))
      ]

  skip_duplicates-IsIncreasing :
      (res l : Pair V) (ps : List (Pair V))
      → l.key ≡ res.key
      → IsSorted l ps
      → IsIncreasing res (skip_duplicates res ps)
  unfolding skip_duplicates
  skip_duplicates-IsIncreasing res l [] same s = tt
  skip_duplicates-IsIncreasing res l (q ∷ qs) same (less, s) =
      elim (Bool-cases (is_zero (length_compare_gtype_string_value q.key res.key))) [
        | inl null ↦
            rw null (skip_duplicates-IsIncreasing res q qs (compare_equal q.key res.key null) s)
        | inr other ↦
            let apart = compare_differ q.key res.key other in
            let step : length_compare_gtype_string_value res.key q.key ≡ negsuc 0 =
              subst (λ k. length_compare_gtype_string_value k q.key ≡ negsuc 0) same
                (less_key l q less (
                  subst (λ k. is_zero (length_compare_gtype_string_value k q.key) ≡ false)
                    (sym same) apart)) in
            rw other (step, skip_duplicates-IsIncreasing q q qs refl s)
      ]

  skip_duplicates-Keeps :
      (res l : Pair V) (ps : List (Pair V))
      → l.key ≡ res.key
      → l.order ≤ res.order
      → IsSorted l ps
      → All (Keeps (res ∷ skip_duplicates res ps)) ps
  unfolding skip_duplicates
  skip_duplicates-Keeps res l [] same le s = tt
  skip_duplicates-Keeps res l (q ∷ qs) same le (less, s) =
      elim (Bool-cases (is_zero (length_compare_gtype_string_value q.key res.key))) [
        | inl null ↦
            let key = compare_equal q.key res.key null in
            let later = later_order l q less (same ∙ sym key) in
            let dropped : skip_duplicates res (q ∷ qs) ≡ skip_duplicates res qs =
              rw (null, skip_duplicates) refl in
            subst (λ out. All (Keeps (res ∷ out)) (q ∷ qs)) (sym dropped)
              (inl (sym key, omega arith), skip_duplicates-Keeps res q qs key (omega arith) s)
        | inr other ↦
            let taken : skip_duplicates res (q ∷ qs) ≡ q ∷ skip_duplicates q qs =
              rw (other, skip_duplicates) refl in
            subst (λ out. All (Keeps (res ∷ out)) (q ∷ qs)) (sym taken)
              (
                inr (inl (refl, omega arith)),
                All-imp qs (λ p k. inr k) (skip_duplicates-Keeps q q qs refl (omega arith) s),
              )
      ]

  -- No two neighbours have one key.
  abbrev pub NoTwins : Pair V → List (Pair V) → Type 0
  NoTwins p [] = Unit
  NoTwins p (q ∷ qs) =
      (is_zero (length_compare_gtype_string_value q.key p.key) ≡ false) × NoTwins q qs

  skip_duplicates-NoTwins :
      (res : Pair V) (ps : List (Pair V)) → NoTwins res ps → skip_duplicates res ps ≡ ps
  unfolding skip_duplicates
  skip_duplicates-NoTwins res [] h = refl
  skip_duplicates-NoTwins res (q ∷ qs) (other, h) =
      rw other (ap (λ ps. q ∷ ps) (skip_duplicates-NoTwins q qs h))

  -- If the sorted pairs are in the order of the comparator and the flag is set whenever two
  -- neighbours have one key, `uniqueify_gtype_object` of two pairs or more returns pairs with
  -- increasing keys, and for each sorted pair one with its key that was given no earlier.
  pub uniqueify_gtype_object_lem :
      (qsort_arg : List (Pair V) → List (Pair V) × Bool) (p q : Pair V) (pairs : List (Pair V))
      (res : Pair V) (rest : List (Pair V)) (has_non_uniq : Bool)
      → qsort_arg (p ∷ q ∷ pairs) ≡ (res ∷ rest, has_non_uniq)
      → IsSorted res rest
      → (has_non_uniq ≡ false → NoTwins res rest)
      → (out : List (Pair V)) × (uniqueify_gtype_object qsort_arg (p ∷ q ∷ pairs) ≡ res ∷ out)
        × IsIncreasing res out
        × All (Keeps (res ∷ out)) (res ∷ rest)
  unfolding uniqueify_gtype_object
  uniqueify_gtype_object_lem qsort_arg p q pairs res rest true run sorted flag = (
    skip_duplicates res rest,
    rw run refl,
    skip_duplicates-IsIncreasing res res rest refl sorted,
    (inl (refl, omega arith), skip_duplicates-Keeps res res rest refl (omega arith) sorted),
  )
  uniqueify_gtype_object_lem qsort_arg p q pairs res rest false run sorted flag = (
    skip_duplicates res rest,
    rw run (ap (λ ps. res ∷ ps) (sym (skip_duplicates-NoTwins res rest (flag refl)))),
    skip_duplicates-IsIncreasing res res rest refl sorted,
    (inl (refl, omega arith), skip_duplicates-Keeps res res rest refl (omega arith) sorted),
  )
