-- ===== src/Gtype/Builder/Loop.antt =====
-- The loop of push_gtype_value as a run over the tokens, and the room for one more part.
use post_graph.Prelude.{
  ℕ, Bool-cases, inl, inr, zero, suc, ◌*◌, ◌≤◌, ◌<◌, ◌≡◌, refl, false, List, [], ◌∷◌, leb,
  if◌then◌else◌, length, Option, none, some, Outcome, ok, error, ◌>>=◌, arith,
}
use post_graph.Gtype.Object.{Pair, length_compare_gtype_string_value}
use post_graph.Prelude.Int.{negsuc}
use post_graph.Gtype.Value.{
  is_a_gtype_scalar, Value, Values, Fields, is_a_gtype_scalar, elements, keys,
}
use post_graph.Gtype.Iterator.{
  gtype_iterator_init, part, Token, Iterator, part, gtype_iterator_init, gtype_iterator_next,
}
use post_graph.Gtype.Iterator.Preorder.{
  preorder, iterator_from_container-Runs, Event, Runs, stop, call, preorder,
  iterator_from_container-Runs,
}
use post_graph.Gtype.Builder.Tokens.{AllTokens, tokens}
use post_graph.Gtype.Builder.{
  Building, ParseState, Limits, has_value, Pushed, enlarge, write_part, push_gtype_value_scalar,
  unpack_loop, push_gtype_value,
}

abbrev pub IsIncreasing : List (List ℕ) → Type 0
IsIncreasing [] = Unit
IsIncreasing (k ∷ []) = Unit
IsIncreasing (k ∷ l ∷ ks) =
    (length_compare_gtype_string_value k l ≡ negsuc 0) × IsIncreasing (l ∷ ks)

abbrev pub pair_keys : List (Pair Value) → List (List ℕ)
pair_keys [] = []
pair_keys (p ∷ ps) = p.key ∷ pair_keys ps

pub bind_ext :
    {A B : Type 0} (o : Outcome A) (f g : A → Outcome B)
    → ((a : A) → f a ≡ g a)
    → (o >>= f) ≡ (o >>= g)
bind_ext (ok a) f g same = same a
bind_ext (error report) f g same = refl
bind_ext Outcome.crash f g same = refl
bind_ext Outcome.out_of_fuel f g same = refl

pub bind_map :
    {A B C : Type 0} (o : Outcome A) (f : A → B) (k : B → Outcome C)
    → ((o >>= (λ a. ok (f a))) >>= k) ≡ (o >>= (λ a. k (f a)))
bind_map (ok a) f k = refl
bind_map (error report) f k = refl
bind_map Outcome.crash f k = refl
bind_map Outcome.out_of_fuel f k = refl

-- There is room for a part at index `num`, after at most one enlargement.
abbrev pub Roomy : ParseState → ℕ → Type 0
Roomy st num = (0 < st.size) × (num ≤ st.size) × (st.size ≤ st.capacity)

pub write_room :
    (st : ParseState) (num : ℕ) (b : Building)
    → Roomy st num
    → (st' : ParseState) × (write_part (enlarge st num) num b ≡ ok st')
      × (st'.cont_val ≡ b)
      × (num < st'.size)
      × (st'.size ≤ st'.capacity)
unfolding write_part enlarge
write_room st num b (some_size, fits, backed) = elim (Bool-cases (leb st.size num)) [
  | inl full ↦ (
    record { size = st.size * 2; capacity = st.size * 2; cont_val = b },
    ground (arith, full),
    refl,
    omega arith,
    omega arith,
  )
  | inr free ↦
      (record st { cont_val = b }, ground (arith, free), refl, ground (arith, free), backed)
]

module _ (limits : Limits) where
  -- A value as the builder makes it: within the limits, the keys of an object in increasing order,
  -- and no pseudo array.
  abbrev mutual
    pub IsBuilt : Value → Type 0
    IsBuilt (Value.scalar s) = Unit
    IsBuilt (Value.array raw vs) =
        (raw ≡ false) × (length (elements vs) ≤ limits.max_elems) × AreBuilt vs
    IsBuilt (Value.object fs) =
        (length (keys fs) ≤ limits.max_pairs) × IsIncreasing (keys fs) × FieldsBuilt fs
    IsBuilt (Value.vector xs) = Unit

    pub AreBuilt : Values → Type 0
    AreBuilt Values.no_values = Unit
    AreBuilt (Values.value v vs) = IsBuilt v × AreBuilt vs

    pub FieldsBuilt : Fields → Type 0
    FieldsBuilt Fields.no_fields = Unit
    FieldsBuilt (Fields.field k v fs) = IsBuilt v × FieldsBuilt fs

  -- All events are pushed in turn.
  unfoldable pub push_all : List Event → Option Value → List ParseState → Outcome Pushed
  push_all [] res pstate = ok (res, pstate)
  push_all ((tok, v) ∷ events) res pstate =
      push_gtype_value_scalar limits pstate tok (if has_value tok then v else none)
      >>= (λ pushed. push_all events pushed.0 pushed.1)

  pub unpack_loop-push_all :
      (fuel : ℕ) {it : List Iterator} {events : List Event} (res : Option Value)
      (pstate : List ParseState)
      → Runs it events []
      → AllTokens events
      → length events < fuel
      → unpack_loop limits fuel it res pstate ≡ push_all events res pstate
  unfolding unpack_loop push_all AllTokens gtype_iterator_next
  unpack_loop-push_all zero res pstate runs all enough = absurd (omega (arith, enough))
  unpack_loop-push_all (suc fuel) res pstate stop all enough = refl
  unpack_loop-push_all (suc fuel) res pstate (call e runs) (tok, all) enough =
      rw (e, tok)
        (bind_ext (push_gtype_value_scalar limits pstate _ _) _ _
          (λ pushed. unpack_loop-push_all fuel pushed.0 pushed.1 runs all (omega (arith, enough))))

  -- A container that is pushed whole is pushed token by token.
  pub push_gtype_value-push_all :
      (fuel : ℕ) (pstate : List ParseState) (v : Value)
      → is_a_gtype_scalar v ≡ false
      → length (preorder Token.wgt_elem v) < fuel
      → push_gtype_value limits fuel pstate Token.wgt_elem (some (part v))
        ≡ push_all (preorder Token.wgt_elem v) none pstate
  unfolding push_gtype_value gtype_iterator_init
  push_gtype_value-push_all fuel pstate v container enough =
      let (start, started, runs) = iterator_from_container-Runs Token.wgt_elem v [] container in
      rw (container, started)
        (unpack_loop-push_all fuel none pstate runs (tokens Token.wgt_elem v refl) enough)
