-- ===== src/Gtype/Value.antt =====
-- gtype_value of src/include/utils/gtype.h with its nested values. A container stands for the bytes
-- that hold an array, an object or a vector: what fill_gtype_value gives for the entry at an index is
-- the part at that index, and a nested container stands for the value of type AGTV_BINARY that
-- fill_gtype_value gives of it. A key is the list of its bytes.
use post_graph.Prelude.{ℕ, Bool, true, false, List, [], ◌∷◌, length}
use post_graph.Gtype.Scalar.{Float8, Scalar}

mutual
  pub data Value : Type 0 where
    scalar : Scalar → Value
    array : (raw_scalar : Bool) → Values → Value
    object : Fields → Value
    vector : List Float8 → Value

  pub data Values : Type 0 where
    no_values : Values
    value : Value → Values → Values

  pub data Fields : Type 0 where
    no_fields : Fields
    field : (key : List ℕ) → Value → Fields → Fields

-- IS_A_GTYPE_SCALAR
abbrev pub is_a_gtype_scalar : Value → Bool
is_a_gtype_scalar (Value.scalar s) = true
is_a_gtype_scalar _ = false

abbrev pub elements : Values → List Value
elements Values.no_values = []
elements (Values.value v vs) = v ∷ elements vs

abbrev pub keys : Fields → List (List ℕ)
keys Fields.no_fields = []
keys (Fields.field k v fs) = k ∷ keys fs

abbrev pub field_values : Fields → List Value
field_values Fields.no_fields = []
field_values (Fields.field k v fs) = v ∷ field_values fs

-- GTYPE_CONTAINER_SIZE
abbrev pub gtype_container_size : Value → ℕ
gtype_container_size (Value.scalar s) = 0
gtype_container_size (Value.array raw vs) = length (elements vs)
gtype_container_size (Value.object fs) = length (keys fs)
gtype_container_size (Value.vector xs) = length xs
