-- ===== src/Gtype/Object/Order.antt =====
-- length_compare_gtype_string_value as an order of the keys.
use post_graph.Prelude.{
  ℕ, ◌≡◌, refl, ◌⊎◌, inl, inr, List, [], ◌∷◌, ◌==◌, ltb, Bool-cases, length, arith,
}
use post_graph.Prelude.Int.{ℤ, pos, negsuc, neg}
use post_graph.Gtype.Object.{memcmp, length_compare_gtype_string_value}

memcmp-neg : (xs ys : List ℕ) → memcmp ys xs ≡ neg (memcmp xs ys)
unfolding memcmp
memcmp-neg [] [] = refl
memcmp-neg [] (y ∷ ys) = refl
memcmp-neg (x ∷ xs) [] = refl
memcmp-neg (x ∷ xs) (y ∷ ys) = rw (memcmp-neg xs ys) (ground arith)

-- The comparison turns its sign with its arguments.
pub neg-length_compare :
    (a b : List ℕ)
    → length_compare_gtype_string_value b a ≡ neg (length_compare_gtype_string_value a b)
unfolding length_compare_gtype_string_value
neg-length_compare a b = rw (memcmp-neg a b) (ground arith)

-- The three results.
abbrev pub IsSign : ℤ → Type 0
IsSign n = (n ≡ negsuc 0) ⊎ (n ≡ pos 0) ⊎ (n ≡ pos 1)

memcmp-IsSign : (xs ys : List ℕ) → IsSign (memcmp xs ys)
unfolding memcmp
memcmp-IsSign [] ys = inr (inl refl)
memcmp-IsSign (x ∷ xs) [] = inr (inl refl)
memcmp-IsSign (x ∷ xs) (y ∷ ys) = elim (Bool-cases (x == y)) [
  | inl same ↦ rw same (memcmp-IsSign xs ys)
  | inr other ↦ elim (Bool-cases (ltb x y)) [
    | inl less ↦ rw (other, less) (inl refl)
    | inr more ↦ rw (other, more) (inr (inr refl))
  ]
]

pub length_compare-IsSign : (a b : List ℕ) → IsSign (length_compare_gtype_string_value a b)
unfolding length_compare_gtype_string_value
length_compare-IsSign a b = elim (Bool-cases (length a == length b)) [
  | inl same ↦ rw same (memcmp-IsSign a b)
  | inr other ↦ elim (Bool-cases (ltb (length b) (length a))) [
    | inl less ↦ rw (other, less) (inr (inr refl))
    | inr more ↦ rw (other, more) (inl refl)
  ]
]

memcmp_trans :
    (xs ys zs : List ℕ)
    → memcmp xs ys ≡ negsuc 0
    → memcmp ys zs ≡ negsuc 0
    → memcmp xs zs ≡ negsuc 0
unfolding memcmp
memcmp_trans [] ys zs e f = cc
memcmp_trans (x ∷ xs) [] zs e f = cc
memcmp_trans (x ∷ xs) (y ∷ ys) [] e f = cc
memcmp_trans (x ∷ xs) (y ∷ ys) (z ∷ zs) e f = grind (arith, memcmp_trans xs ys zs)

pub length_compare_trans :
    (a b c : List ℕ)
    → length_compare_gtype_string_value a b ≡ negsuc 0
    → length_compare_gtype_string_value b c ≡ negsuc 0
    → length_compare_gtype_string_value a c ≡ negsuc 0
unfolding length_compare_gtype_string_value
length_compare_trans a b c e f = grind (arith, memcmp_trans a b c)
