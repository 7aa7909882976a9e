-- ===== src/VariableEdge/Unique.antt =====
-- What _ag_enforce_edge_uniqueness decides.
use post_graph.Prelude.{
  ℕ, ◌+◌, ◌%◌, ◌≡◌, refl, inl, inr, Bool, true, not, ◌&&◌, Option, none, some, List, [], ◌∷◌, ◌++◌,
  ◌==◌, if◌then◌else◌, Bool-cases, Option-cases, length, has, All, is_some, ok, arith,
}
use post_graph.GraphId.{Graphid}
use post_graph.GlobalGraph.HashTable.{Table, empty, enter}
use post_graph.VariableEdge.{
  Element, VariableEdge, Argument, element_id, enter_elements, enter_arguments,
  enforce_edge_uniqueness,
}

-- Does no id stand in the list twice?
abbrev pub all_distinct : List Graphid → Bool
all_distinct [] = true
all_distinct (id ∷ ids) = not (has id ids) && all_distinct ids

-- Is no id in the table?
all_new : Table Graphid → List Graphid → Bool
all_new t [] = true
all_new t (id ∷ ids) = not (is_some (t id)) && all_new t ids

-- The table with the ids, unless one of them is there already.
entered : Table Graphid → List Graphid → Option (Table Graphid)
entered t [] = some t
entered t (id ∷ ids) = if is_some (t id) then none else entered (enter t id id) ids

all_new-enter :
    (t : Table Graphid) (id : Graphid) (ids : List Graphid)
    → all_new (enter t id id) ids ≡ (not (has id ids) && all_new t ids)
unfolding all_new enter
all_new-enter t id [] = refl
all_new-enter t id (x ∷ xs) = rw (all_new-enter t id xs) (ground arith)

is_some-entered :
    (t : Table Graphid) (ids : List Graphid)
    → is_some (entered t ids) ≡ (all_new t ids && all_distinct ids)
unfolding entered all_new
is_some-entered t [] = refl
is_some-entered t (id ∷ ids) = elim (Bool-cases (is_some (t id))) [
  | inl there ↦ rw there refl
  | inr new ↦ rw (new, is_some-entered (enter t id id) ids, all_new-enter t id ids) (ground arith)
]

all_new-empty : (ids : List Graphid) → all_new empty ids ≡ true
unfolding all_new
all_new-empty [] = refl
all_new-empty (id ∷ ids) = all_new-empty ids

abbrev then_enter : Option (Table Graphid) → List Graphid → Option (Table Graphid)
then_enter none ids = none
then_enter (some t) ids = entered t ids

entered-append :
    (t : Table Graphid) (xs ys : List Graphid) → entered t (xs ++ ys) ≡ then_enter (entered t xs) ys
unfolding entered
entered-append t [] ys = refl
entered-append t (x ∷ xs) ys = elim (Bool-cases (is_some (t x))) [
  | inl there ↦ rw there refl
  | inr new ↦ rw new (entered-append (enter t x x) xs ys)
]

module _ {D : Type 0} where
  -- The ids at the even places: those of the edges.
  abbrev pub edge_places : ℕ → List (Element D) → List Graphid
  edge_places i [] = []
  edge_places i (e ∷ rest) =
      if i % 2 == 1 then edge_places (i + 1) rest else element_id e ∷ edge_places (i + 1) rest

  -- The edges that the arguments name, from the first to the last.
  abbrev pub edge_ids : List (Argument D) → List Graphid
  edge_ids [] = []
  edge_ids (Argument.null ∷ args) = edge_ids args
  edge_ids (Argument.other ∷ args) = edge_ids args
  edge_ids (Argument.graphid id ∷ args) = id ∷ edge_ids args
  edge_ids (Argument.variable_edge ve ∷ args) = edge_places 0 ve.elements ++ edge_ids args

  -- The count of a variable edge is that of its elements.
  abbrev pub IsCounted : VariableEdge D → Type 0
  IsCounted ve = ve.size ≡ length ve.elements

  abbrev pub IsSound : Argument D → Type 0
  IsSound (Argument.variable_edge ve) = IsCounted ve
  IsSound _ = Unit

  enter_elements-entered :
      (i : ℕ) (elements : List (Element D)) (t : Table Graphid)
      → enter_elements (length elements) i elements t ≡ ok (entered t (edge_places i elements))
  unfolding enter_elements entered
  enter_elements-entered i [] t = refl
  enter_elements-entered i (e ∷ rest) t = elim (Bool-cases (i % 2 == 1)) [
    | inl odd ↦ rw odd (enter_elements-entered (i + 1) rest t)
    | inr even ↦ elim (Bool-cases (is_some (t (element_id e)))) [
      | inl there ↦ rw (even, there) refl
      | inr new ↦
          rw (even, new)
            (enter_elements-entered (i + 1) rest (enter t (element_id e) (element_id e)))
    ]
  ]

  enter_arguments-entered :
      (args : List (Argument D)) (t : Table Graphid)
      → All IsSound args
      → enter_arguments args t ≡ ok (is_some (entered t (edge_ids args)))
  unfolding enter_arguments entered
  enter_arguments-entered [] t sound = refl
  enter_arguments-entered (Argument.null ∷ args) t sound = enter_arguments-entered args t sound.1
  enter_arguments-entered (Argument.other ∷ args) t sound = enter_arguments-entered args t sound.1
  enter_arguments-entered (Argument.graphid id ∷ args) t sound =
      elim (Bool-cases (is_some (t id))) [
        | inl there ↦ rw there refl
        | inr new ↦ rw new (enter_arguments-entered args (enter t id id) sound.1)
      ]
  enter_arguments-entered (Argument.variable_edge ve ∷ args) t sound =
      elim (Option-cases (entered t (edge_places 0 ve.elements))) [
        | inl twice ↦
            rw
              (
                sound.0,
                enter_elements-entered 0 ve.elements t,
                entered-append t (edge_places 0 ve.elements) (edge_ids args),
                twice,
              )
              refl
        | inr (t', new) ↦
            rw
              (
                sound.0,
                enter_elements-entered 0 ve.elements t,
                entered-append t (edge_places 0 ve.elements) (edge_ids args),
                new,
              )
              (enter_arguments-entered args t' sound.1)
      ]

  -- If each variable edge holds as many elements as it counts, `_ag_enforce_edge_uniqueness` returns
  -- whether all edges that the arguments name, one by one and in variable edges, are different. No
  -- read is out of bounds.
  pub enforce_edge_uniqueness_lem :
      (args : List (Argument D))
      → All IsSound args
      → enforce_edge_uniqueness args ≡ ok (all_distinct (edge_ids args))
  unfolding enforce_edge_uniqueness
  enforce_edge_uniqueness_lem args sound =
      rw
        (
          enter_arguments-entered args empty sound,
          is_some-entered empty (edge_ids args),
          all_new-empty (edge_ids args),
        )
        refl
