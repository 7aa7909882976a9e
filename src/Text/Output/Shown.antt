-- ===== src/Text/Output/Shown.antt =====
-- The text of a value by recursion on the value, as a description of gtype_to_cstring.
use post_graph.Prelude.{
  ℕ, ◌+◌, ◌*◌, Bool, true, false, List, [], ◌∷◌, ◌++◌, if◌then◌else◌, ◌≡◌, refl,
}
use post_graph.Gtype.Scalar.{Scalar, Float8}
use post_graph.Gtype.Value.{Value, Values, Fields}
use post_graph.Text.Output.{OutputOps, escape_gtype, scalar_text, spaces}
use post_graph.Text.Readable.{floats, reread, reread_values, reread_fields}

module _ (ops : OutputOps) (indent : Bool) where
  -- Before a part, and before the bracket that ends a container.
  unfoldable pub newline : (level : ℕ) → List ℕ
  newline level = if indent then b'\n' ∷ spaces (level * 4) else []

  unfoldable pub separator : (first : Bool) → List ℕ
  separator true = []
  separator false = b',' ∷ (if indent then [] else b' ' ∷ [])

  abbrev pub colon_space : List ℕ
  colon_space = b':' ∷ b' ' ∷ []

  -- A container between its brackets.
  abbrev pub bracketed : (open_bracket close_bracket level : ℕ) → List ℕ → List ℕ
  bracketed open_bracket close_bracket level parts =
      open_bracket ∷ (parts ++ (newline level ++ (close_bracket ∷ [])))

  unfoldable pub show_numbers : (first : Bool) → (level : ℕ) → List Float8 → List ℕ
  show_numbers first level [] = []
  show_numbers first level (x ∷ xs) =
      separator first
      ++ (newline level ++ (scalar_text ops (Scalar.float x) ++ show_numbers false level xs))

  unfoldable mutual
    pub show : (level : ℕ) → Value → List ℕ
    show level (Value.scalar s) = scalar_text ops s
    show level (Value.array raw vs) = bracketed b'[' b']' level (show_values true (level + 1) vs)
    show level (Value.object fs) = bracketed b'{' b'}' level (show_fields true (level + 1) fs)
    show level (Value.vector xs) = bracketed b'[' b']' level (show_numbers true (level + 1) xs)

    pub show_values : (first : Bool) → (level : ℕ) → Values → List ℕ
    show_values first level Values.no_values = []
    show_values first level (Values.value v vs) =
        separator first ++ (newline level ++ (show level v ++ show_values false level vs))

    pub show_fields : (first : Bool) → (level : ℕ) → Fields → List ℕ
    show_fields first level Fields.no_fields = []
    show_fields first level (Fields.field k v fs) =
        separator first
        ++ (newline level
            ++ (escape_gtype k ++ (colon_space ++ (show level v ++ show_fields false level fs))))

  -- At the top a pseudo array shows only its scalar.
  unfoldable pub show_top : Value → List ℕ
  show_top (Value.array true (Values.value v Values.no_values)) = show 0 v
  show_top v = show 0 v

  show_numbers-floats :
      (first : Bool) (level : ℕ) (xs : List Float8)
      → show_values first level (floats xs) ≡ show_numbers first level xs
  unfolding show_values show_numbers floats show
  show_numbers-floats first level [] = refl
  show_numbers-floats first level (x ∷ xs) = rw (show_numbers-floats false level xs) refl

  mutual
    unfolding show reread show_values show_fields

    -- A vector has the text of the array of its numbers.
    pub show-reread : (level : ℕ) (v : Value) → show level (reread v) ≡ show level v
    show-reread level (Value.scalar s) = refl
    show-reread level (Value.array raw vs) = rw (show_values-reread true (level + 1) vs) refl
    show-reread level (Value.object fs) = rw (show_fields-reread true (level + 1) fs) refl
    show-reread level (Value.vector xs) = rw (show_numbers-floats true (level + 1) xs) refl

    show_values-reread :
        (first : Bool) (level : ℕ) (vs : Values)
        → show_values first level (reread_values vs) ≡ show_values first level vs
    show_values-reread first level Values.no_values = refl
    show_values-reread first level (Values.value v vs) =
        rw (show-reread level v, show_values-reread false level vs) refl

    show_fields-reread :
        (first : Bool) (level : ℕ) (fs : Fields)
        → show_fields first level (reread_fields fs) ≡ show_fields first level fs
    show_fields-reread first level Fields.no_fields = refl
    show_fields-reread first level (Fields.field k v fs) =
        rw (show-reread level v, show_fields-reread false level fs) refl
