-- ===== src/GlobalGraph/HashTable.antt =====
-- A hash table keyed by graphids, as the function that it stands for.
use post_graph.Prelude.{ℕ, ◌≡◌, ◌≢◌, Option, none, some, ◌==◌, if◌then◌else◌, ==_refl, ==_ne}

abbrev pub Table : Type 0 → Type 0
Table V = ℕ → Option V

abbrev pub empty : {V : Type 0} → Table V
empty k = none

module _ {V : Type 0} where
  unfoldable pub enter : Table V → ℕ → V → Table V
  enter t k v j = if j == k then some v else t j

  pub enter_self : (t : Table V) (k : ℕ) (v : V) → enter t k v k ≡ some v
  unfolding enter
  enter_self t k v = rw (==_refl k)

  pub enter-ne : (t : Table V) (k j : ℕ) (v : V) → j ≢ k → enter t k v j ≡ t j
  unfolding enter
  enter-ne t k j v h = rw (==_ne j k h)
