-- ===== src/PathFinding/Vle/Asked.antt =====
-- The paths that the arguments of gtype_vle ask for, over a graph, without the search: trails from
-- the start vertex to the end vertex, with the bounds as SQL gives them.
use text.Mathlib.Text.{◌==◌ as str_eq}
use Prim.Native.String.{String}
use post_graph.Prelude.{
  ◌≤◌, ◌≡◌, ◌↔◌, inl, inr, Bool, true, false, leb, List, [], ◌∷◌, some, length, has, ok,
}
use post_graph.Prelude.Int.{ℤ, pos, leb_ℤ}
use post_graph.GraphId.{Graphid}
use post_graph.GlobalGraph.{EdgeEntry, GraphContext}
use post_graph.PathFinding.{RelDir}
use post_graph.PathFinding.Rounds.{IsKnown}
use post_graph.PathFinding.Trails.{Leads}
use post_graph.PathFinding.Vle.{VleArguments, Session, rel_dir}

-- The edge leads from `v` to `u` as a number of the enum cypher_rel_dir says: 0 for `-[]-`, 1 for
-- `<-[]-` and 2 for `-[]->`.
pub data Along {D : Type 0} (ee : EdgeEntry D) (v u : Graphid) : ℤ → Type 0 where
  any_forward : ee.start_id ≡ v → ee.end_id ≡ u → Along ee v u (pos 0)
  any_backward : ee.end_id ≡ v → ee.start_id ≡ u → Along ee v u (pos 0)
  left : ee.end_id ≡ v → ee.start_id ≡ u → Along ee v u (pos 1)
  right : ee.start_id ≡ v → ee.end_id ≡ u → Along ee v u (pos 2)

-- One of the three numbers.
pub data IsDirection : ℤ → Type 0 where
  none_given : IsDirection (pos 0)
  to_left : IsDirection (pos 1)
  to_right : IsDirection (pos 2)

module _ {D : Type 0} (session : Session D) (args : VleArguments D) (g : GraphContext D) where
  -- The comparison with the properties that are asked for returns for every edge of the graph.
  abbrev pub Compares : Type 0
  Compares =
      (wanted : D)
      → args.prototype ≡ some wanted
      → (e : Graphid) (ee : EdgeEntry D) → g.edge_hashtable e ≡ some ee
      → (b : Bool) × (session.property_ops.deep_contains ee.properties wanted ≡ ok b)

  -- The label and the properties that are asked for, if they are.
  pub record Fits (ee : EdgeEntry D) : Type 0 where
    pub label :
        (name : String) → args.label ≡ some name → str_eq name (session.get_rel_name ee.oid) ≡ true
    pub pairs :
        (wanted : D)
        → args.prototype ≡ some wanted
        → leb
            (session.property_ops.root_count wanted)
            (session.property_ops.root_count ee.properties)
          ≡ true
    pub contained :
        (wanted : D)
        → args.prototype ≡ some wanted
        → session.property_ops.deep_contains ee.properties wanted ≡ ok true

  pub record Hop (direction : ℤ) (v e u : Graphid) : Type 0 where
    pub entry : EdgeEntry D
    pub there : g.edge_hashtable e ≡ some entry
    pub fits : Fits entry
    pub along : Along entry v u direction

  -- No edge twice, the last edge in front.
  pub data Walk (direction : ℤ) (vsid : Graphid) : Graphid → List Graphid → Type 0 where
    start : Walk direction vsid vsid []
    step :
        {v e u : Graphid} {path : List Graphid}
        → Walk direction vsid v path
        → Hop direction v e u
        → has e path ≡ false
        → Walk direction vsid u (e ∷ path)

  -- `*l..u`; a bound that is not given is no bound, and there is always an edge.
  pub record IsAsked (direction : ℤ) (vsid veid : Graphid) (path : List Graphid) : Type 0 where
    pub walk : Walk direction vsid veid path
    pub some_edge : 1 ≤ length path
    pub lower : (l : ℤ) → args.lower ≡ some l → leb_ℤ l (pos (length path)) ≡ true
    pub upper : (u : ℤ) → args.upper ≡ some u → leb_ℤ (pos (length path)) u ≡ true

module _ {D : Type 0} where
  pub Along-Leads :
      (direction : ℤ) (ee : EdgeEntry D) (v u : Graphid)
      → IsDirection direction
      → Along ee v u direction ↔ Leads (rel_dir direction) ee v u
  unfolding rel_dir
  Along-Leads _ ee v u none_given = (to, from)
    where
      to : Along ee v u (pos 0) → Leads RelDir.dir_none ee v u
      to (any_forward p q) = inl (p, q)
      to (any_backward p q) = inr (p, q)

      from : Leads RelDir.dir_none ee v u → Along ee v u (pos 0)
      from (inl (p, q)) = any_forward p q
      from (inr (p, q)) = any_backward p q
  Along-Leads _ ee v u to_left = (to, from)
    where
      to : Along ee v u (pos 1) → Leads RelDir.dir_left ee v u
      to (left p q) = (p, q)

      from : Leads RelDir.dir_left ee v u → Along ee v u (pos 1)
      from (p, q) = left p q
  Along-Leads _ ee v u to_right = (to, from)
    where
      to : Along ee v u (pos 2) → Leads RelDir.dir_right ee v u
      to (right p q) = (p, q)

      from : Leads RelDir.dir_right ee v u → Along ee v u (pos 2)
      from (p, q) = right p q

pub rel_dir-IsKnown : (direction : ℤ) → IsDirection direction → IsKnown (rel_dir direction)
unfolding rel_dir
rel_dir-IsKnown _ none_given = tt
rel_dir-IsKnown _ to_left = tt
rel_dir-IsKnown _ to_right = tt
