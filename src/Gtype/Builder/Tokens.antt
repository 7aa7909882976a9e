-- ===== src/Gtype/Builder/Tokens.antt =====
-- No event of an iteration has the token of its end.
use post_graph.Prelude.{◌≡◌, refl, false, List, [], ◌∷◌, ◌++◌}
use post_graph.Gtype.Scalar.{Float8}
use post_graph.Gtype.Value.{Value, Values, Fields}
use post_graph.Gtype.Iterator.{Token}
use post_graph.Gtype.Iterator.Preorder.{
  Event, preorder, preorder_values, preorder_fields, vector_events,
}
use post_graph.Gtype.Builder.{token_done}

unfoldable pub AllTokens : List Event → Type 0
AllTokens [] = Unit
AllTokens ((tok, v) ∷ events) = (token_done tok ≡ false) × AllTokens events

AllTokens-append : (xs ys : List Event) → AllTokens xs → AllTokens ys → AllTokens (xs ++ ys)
unfolding AllTokens
AllTokens-append [] ys all all' = all'
AllTokens-append (x ∷ xs) ys (tok, all) all' = (tok, AllTokens-append xs ys all all')

vector_tokens : (xs : List Float8) → AllTokens (vector_events xs)
unfolding AllTokens vector_events
vector_tokens [] = tt
vector_tokens (x ∷ xs) = (refl, vector_tokens xs)

mutual
  unfolding AllTokens preorder

  pub tokens : (token : Token) (v : Value) → token_done token ≡ false → AllTokens (preorder token v)
  tokens token (Value.scalar s) h = (h, tt)
  tokens token (Value.array raw vs) h =
      (refl, AllTokens-append (preorder_values vs) _ (value_tokens vs) (refl, tt))
  tokens token (Value.object fs) h =
      (refl, AllTokens-append (preorder_fields fs) _ (field_tokens fs) (refl, tt))
  tokens token (Value.vector xs) h =
      (refl, AllTokens-append (vector_events xs) _ (vector_tokens xs) (refl, tt))

  value_tokens : (vs : Values) → AllTokens (preorder_values vs)
  value_tokens Values.no_values = tt
  value_tokens (Values.value v vs) =
      AllTokens-append (preorder Token.wgt_elem v) _ (tokens Token.wgt_elem v refl)
        (value_tokens vs)

  field_tokens : (fs : Fields) → AllTokens (preorder_fields fs)
  field_tokens Fields.no_fields = tt
  field_tokens (Fields.field k v fs) = (
    refl,
    AllTokens-append (preorder Token.wgt_value v) _ (tokens Token.wgt_value v refl)
        (field_tokens fs),
  )
