-- ===== src/GlobalGraph.antt =====
-- src/backend/utils/path_finding/global_graph.c: the graph of a session, loaded from the label tables
-- into two hash tables, and the list of the graphs that the backend keeps.
-- A hash table (PostgreSQL's dynahash, keyed by the graphid) is the function that it stands for;
-- HASH_ENTER is an update, HASH_FIND an application. A queue of ids is the list that Queue/Chain.antt
-- relates to it: `none` for NULL, else the ids from the head to the tail. The catalog and the label tables
-- are read through a `Catalog`, the heap scans of PostgreSQL under the active snapshot. Locks
-- and memory contexts have no counterpart.
pub mod HashTable
pub mod Loading
pub mod Contexts
pub mod Insertion
pub mod WellFormed
pub mod Preserved
pub mod Freeing
pub mod Tests
use post_graph.Prelude.{
  ℕ, ◌+◌, Bool, true, false, ◌&&◌, ◌||◌, not, Option, none, some, List, [], ◌∷◌, ◌++◌, ◌==◌,
  if◌then◌else◌, Outcome, ok, ◌>>=◌, or_crash, is_some,
}
use post_graph.GraphId.{Graphid}
use HashTable.{Table, empty, enter}

abbrev pub Oid : Type 0
Oid = ℕ

-- A queue by its ids; `none` is a NULL pointer.
abbrev pub EdgeList : Type 0
EdgeList = Option (List Graphid)

-- `append_graphid` of queue.c makes the container when there is none.
abbrev pub append_graphid : EdgeList → Graphid → EdgeList
append_graphid none id = some (id ∷ [])
append_graphid (some ids) id = some (ids ++ id ∷ [])

-- The ids that a walk from `get_list_head` meets.
abbrev pub items : EdgeList → List Graphid
items none = []
items (some ids) = ids

-- `D` is the type of the properties, `Datum` in the source.
module _ (D : Type 0) where
  pub record VertexEntry : Type 0 where
    pub id : Graphid
    pub edges_in : EdgeList
    pub edges_out : EdgeList
    pub loop : EdgeList
    pub oid : Oid
    pub properties : D

  pub record EdgeEntry : Type 0 where
    pub id : Graphid
    pub oid : Oid
    pub properties : D
    pub start_id : Graphid
    pub end_id : Graphid

  pub record VertexRow : Type 0 where
    pub id : Graphid
    pub properties : D

  pub record EdgeRow : Type 0 where
    pub id : Graphid
    pub start_id : Graphid
    pub end_id : Graphid
    pub properties : D

  -- `next` is the place in the list of contexts.
  pub record GraphContext : Type 0 where
    pub graph_oid : Oid
    pub vertex_hashtable : Table VertexEntry
    pub edge_hashtable : Table EdgeEntry
    pub xmin : ℕ
    pub xmax : ℕ
    pub curcid : ℕ
    pub vertex_cnt : ℕ
    pub edge_cnt : ℕ
    pub vertices : EdgeList

-- The label kinds of ag_label.
pub data LabelKind : Type 0 where
  vertex_label edge_label : LabelKind

abbrev pub same_kind : LabelKind → LabelKind → Bool
same_kind LabelKind.vertex_label LabelKind.vertex_label = true
same_kind LabelKind.edge_label LabelKind.edge_label = true
same_kind _ _ = false

-- A row of ag_label, with the oid of the label's table that its name leads to.
pub record LabelRow : Type 0 where
  pub relation : Oid
  pub graph : Oid
  pub kind : LabelKind

-- What a scan of ag_label and of each label's table returns, in the order of the scan.
pub record Catalog (D : Type 0) : Type 0 where
  pub ag_label : List LabelRow
  pub vertex_rows : Oid → List (VertexRow D)
  pub edge_rows : Oid → List (EdgeRow D)

pub record Snapshot : Type 0 where
  pub xmin : ℕ
  pub xmax : ℕ
  pub curcid : ℕ

pub get_labels : List LabelRow → Oid → LabelKind → List Oid
get_labels [] graph_oid label_type = []
get_labels (row ∷ rows) graph_oid label_type =
    if same_kind row.kind label_type && row.graph == graph_oid
    then row.relation ∷ get_labels rows graph_oid label_type
    else get_labels rows graph_oid label_type

module _ {D : Type 0} where
  unfoldable pub get_vertex_entry : GraphContext D → Graphid → Option (VertexEntry D)
  get_vertex_entry ggctx id = ggctx.vertex_hashtable id

  -- The callers read the entry at once, so a missing one is a NULL dereference.
  unfoldable pub get_edge_entry : GraphContext D → Graphid → Outcome (EdgeEntry D)
  get_edge_entry ggctx id = or_crash (ggctx.edge_hashtable id)

  -- A duplicate is left as it is.
  pub insert_edge : GraphContext D → Graphid → D → Graphid → Graphid → Oid → Bool × GraphContext D
  insert_edge ggctx id properties start_id end_id oid =
      if is_some (ggctx.edge_hashtable id) then (false, ggctx) else (
        true,
        record ggctx {
          edge_hashtable = enter ggctx.edge_hashtable id (record {
            id = id;
            oid = oid;
            properties = properties;
            start_id = start_id;
            end_id = end_id;
          });
          edge_cnt = ggctx.edge_cnt + 1;
        },
      )

  -- An entry that is there already is overwritten.
  pub insert_vertex_entry : GraphContext D → Graphid → Oid → D → GraphContext D
  insert_vertex_entry ggctx id oid properties = record ggctx {
    vertex_hashtable = enter ggctx.vertex_hashtable id (record {
      id = id;
      edges_in = none;
      edges_out = none;
      loop = none;
      oid = oid;
      properties = properties;
    });
    vertices = append_graphid ggctx.vertices id;
    vertex_cnt = ggctx.vertex_cnt + 1;
  }

  -- HASH_FIND and the write through the pointer that it returns.
  pub update_vertex :
      GraphContext D → Graphid → (VertexEntry D → VertexEntry D) → Outcome (GraphContext D)
  update_vertex ggctx id change = do
    value ← or_crash (ggctx.vertex_hashtable id)
    ok (record ggctx { vertex_hashtable = enter ggctx.vertex_hashtable id (change value) })

  pub insert_vertex : GraphContext D → Graphid → Graphid → Graphid → Outcome (GraphContext D)
  insert_vertex ggctx start_id end_id id =
      if start_id == end_id
      then update_vertex ggctx start_id
          (λ value. record value { loop = append_graphid value.loop id })
      else do
        ggctx ←
            update_vertex ggctx start_id
              (λ value. record value { edges_out = append_graphid value.edges_out id })
        update_vertex ggctx end_id
            (λ value. record value { edges_in = append_graphid value.edges_in id })
