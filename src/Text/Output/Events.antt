-- ===== src/Text/Output/Events.antt =====
-- The loop of gtype_to_cstring_worker as a run over the events of the iteration.
use post_graph.Prelude.{
  ℕ, zero, suc, ◌<◌, ◌≡◌, refl, sym, ap, ◌∙◌, Bool, true, false, List, [], ◌∷◌, length, Option,
  none, some, Outcome, ok, error, ◌>>=◌, bind_assoc, arith,
}
use post_graph.Gtype.Value.{Value, is_a_gtype_scalar}
use post_graph.Gtype.Iterator.{Token, Iterator, Seen, gtype_iterator_init, gtype_iterator_next}
use post_graph.Gtype.Iterator.Preorder.{Runs, stop, call, preorder, iterator_from_container-Runs}
use post_graph.Gtype.Builder.{token_done}
use post_graph.Gtype.Builder.Tokens.{AllTokens, tokens}
use post_graph.Text.Output.{
  OutputOps, Printer, Event, put_key, put_value, put_event, settled, Round, after_key, round,
  finished, print_loop, gtype_to_cstring_worker,
}

module _ (ops : OutputOps) (indent : Bool) where
  -- A container that a key leaves to the next round.
  unfoldable pub put_left : Printer × Option Event → Outcome Printer
  put_left (p, none) = ok (settled ops indent p false)
  put_left (p, some event) =
      put_event ops indent (settled ops indent p true) event.0 event.1
      >>= (λ p'. ok (settled ops indent p' false))

  unfoldable pub print_all : List Event → Printer → Outcome Printer
  print_all [] p = ok p
  print_all ((Token.wgt_key, v) ∷ []) p = put_key ops indent p v >>= (λ keyed. Outcome.crash)
  print_all ((Token.wgt_key, v) ∷ event ∷ events) p = put_key ops indent p v >>= (λ keyed.
      put_value ops indent keyed event >>= (λ left. put_left left >>= print_all events))
  print_all ((token, v) ∷ events) p =
      put_event ops indent p token v >>= (λ p'. print_all events (settled ops indent p' false))

  abbrev is_key : Token → Bool
  is_key Token.wgt_key = true
  is_key _ = false

  abbrev next_round : List Iterator → Printer → Outcome (Round ops indent)
  next_round it p = ok (settled ops indent p false, none, it)

  round_other :
      (p : Printer) (token : Token) (v : Option Seen) (it : List Iterator)
      → is_key token ≡ false
      → round ops indent p token v it ≡ (put_event ops indent p token v >>= next_round it)
  unfolding round
  round_other p Token.wgt_key v it h = cc
  round_other p _ v it h = refl

  print_all_other :
      (token : Token) (v : Option Seen) (events : List Event) (p : Printer)
      → is_key token ≡ false
      → print_all ((token, v) ∷ events) p ≡ (
          put_event ops indent p token v >>= (λ p'. print_all events (settled ops indent p' false)))
  unfolding print_all
  print_all_other Token.wgt_key v events p h = cc
  print_all_other _ v events p h = refl

  -- With this fuel the loop runs over these events.
  abbrev RunsOver : ℕ → List Iterator → List Event → Type 0
  RunsOver fuel it events =
      (p : Printer)
      → print_loop ops indent fuel none it p ≡ (print_all events p >>= finished ops indent)

  -- An event that has been written, with the loop behind it.
  written :
      (fuel : ℕ) (it : List Iterator) (events : List Event) (o : Outcome Printer)
      → RunsOver fuel it events
      → ((o >>= next_round it) >>= (λ next. print_loop ops indent fuel next.1 next.2 next.0)) ≡ (
          ((o >>= (λ p'. ok (settled ops indent p' false))) >>= print_all events)
          >>= finished ops indent)
  written fuel it events (ok p) run = run (settled ops indent p false)
  written fuel it events (error report) run = refl
  written fuel it events Outcome.crash run = refl
  written fuel it events Outcome.out_of_fuel run = refl

  -- A scalar behind a key.
  written_value :
      (fuel : ℕ) (it : List Iterator) (events : List Event) (keyed : Printer) (o : Outcome (List ℕ))
      → RunsOver fuel it events
      → (((o >>= (λ out. ok (record keyed { out = out; first = false }, none)))
            >>= after_key ops indent it)
          >>= (λ next. print_loop ops indent fuel next.1 next.2 next.0))
        ≡ (((o >>= (λ out. ok (record keyed { out = out; first = false }, none)))
              >>= (λ left. put_left left >>= print_all events))
            >>= finished ops indent)
  unfolding put_left
  written_value fuel it events keyed (ok out) run = run _
  written_value fuel it events keyed (error report) run = refl
  written_value fuel it events keyed Outcome.crash run = refl
  written_value fuel it events keyed Outcome.out_of_fuel run = refl

  left_round :
      (fuel : ℕ) (it : List Iterator) (events : List Event) (p : Printer) (token : Token)
      (v : Option Seen)
      → is_key token ≡ false
      → RunsOver fuel it events
      → print_loop ops indent (suc fuel) (some (token, v)) it p ≡ (
          ((put_event ops indent p token v >>= (λ p'. ok (settled ops indent p' false)))
            >>= print_all events)
          >>= finished ops indent)
  unfolding print_loop
  left_round fuel it events p token v other run =
      ap (λ o. o >>= (λ next. print_loop ops indent fuel next.1 next.2 next.0))
        (round_other p token v it other)
      ∙ written fuel it events (put_event ops indent p token v) run

  -- The end of the round of a key, with the loop behind it.
  key_round :
      (fuel : ℕ) (it : List Iterator) (events : List Event) (keyed : Printer) (token : Token)
      (v : Option Seen)
      → RunsOver (suc fuel) it events
      → RunsOver fuel it events
      → ((put_value ops indent keyed (token, v) >>= after_key ops indent it)
          >>= (λ next. print_loop ops indent (suc fuel) next.1 next.2 next.0))
        ≡ ((put_value ops indent keyed (token, v) >>= (λ left. put_left left >>= print_all events))
            >>= finished ops indent)
  unfolding put_value put_left
  key_round fuel it events keyed Token.wgt_value v run run' =
      written_value (suc fuel) it events keyed _ run
  key_round fuel it events keyed Token.wgt_begin_object v run run' =
      left_round fuel it events _ Token.wgt_begin_object v refl run'
  key_round fuel it events keyed Token.wgt_begin_array v run run' =
      left_round fuel it events _ Token.wgt_begin_array v refl run'
  key_round fuel it events keyed Token.wgt_begin_vector v run run' =
      left_round fuel it events _ Token.wgt_begin_vector v refl run'
  key_round fuel it events keyed _ v run run' = refl

  other_round :
      (fuel : ℕ) (it it' : List Iterator) (events : List Event) (p : Printer) (token : Token)
      (v : Option Seen)
      → gtype_iterator_next it false ≡ ok (token, v, it')
      → token_done token ≡ false
      → is_key token ≡ false
      → RunsOver fuel it' events
      → print_loop ops indent (suc fuel) none it p
        ≡ (print_all ((token, v) ∷ events) p >>= finished ops indent)
  unfolding print_loop
  other_round fuel it it' events p token v e going other run =
      rw (e, going, round_other p token v it' other)
        (written fuel it' events (put_event ops indent p token v) run
          ∙ ap (λ o. o >>= finished ops indent)
              (bind_assoc (put_event ops indent p token v) (λ p'. ok (settled ops indent p' false))
                  (print_all events)
                ∙ sym (print_all_other token v events p other)))

  -- A key that has been written, with what follows it.
  key_written :
      (fuel : ℕ) (o : Outcome Printer) (next : Printer → Outcome (Round ops indent))
      (rest : Printer → Outcome Printer)
      → ((keyed : Printer)
          → (next keyed >>= (λ r. print_loop ops indent fuel r.1 r.2 r.0))
            ≡ (rest keyed >>= finished ops indent))
      → ((o >>= next) >>= (λ r. print_loop ops indent fuel r.1 r.2 r.0))
        ≡ ((o >>= rest) >>= finished ops indent)
  key_written fuel (ok keyed) next rest same = same keyed
  key_written fuel (error report) next rest same = refl
  key_written fuel Outcome.crash next rest same = refl
  key_written fuel Outcome.out_of_fuel next rest same = refl

  two_rounds :
      (fuel : ℕ) (it it' it'' : List Iterator) (events : List Event) (p : Printer) (token : Token)
      (key v : Option Seen)
      → gtype_iterator_next it false ≡ ok (Token.wgt_key, key, it')
      → gtype_iterator_next it' false ≡ ok (token, v, it'')
      → RunsOver (suc fuel) it'' events
      → RunsOver fuel it'' events
      → print_loop ops indent (suc (suc fuel)) none it p
        ≡ (print_all ((Token.wgt_key, key) ∷ (token, v) ∷ events) p >>= finished ops indent)
  unfolding print_loop print_all round
  two_rounds fuel it it' it'' events p token key v e e' next_run later_run = rw e (
      key_written (suc fuel) (put_key ops indent p key) _ _
        (λ keyed. rw e' (key_round fuel it'' events keyed token v next_run later_run)))

  -- The events of an iteration to its end, with enough fuel for each.
  pub print_loop-print_all :
      (fuel : ℕ) {it : List Iterator} {events : List Event}
      → Runs it events []
      → AllTokens events
      → length events < fuel
      → RunsOver fuel it events
  unfolding AllTokens
  print_loop-print_all zero run all enough p = absurd (omega (arith, enough))
  print_loop-print_all (suc fuel) stop all enough p =
      unfold print_loop in unfold print_all in unfold gtype_iterator_next in refl
  print_loop-print_all (suc fuel) (call {token = Token.wgt_key} {seen = v} e stop) all enough p =
      unfold print_loop in
      unfold print_all in
      unfold round in
      unfold gtype_iterator_next in
      unfold put_value in
      rw e (key_written fuel (put_key ops indent p v) _ (λ keyed. Outcome.crash) (λ keyed. refl))
  print_loop-print_all (suc zero) (call {token = Token.wgt_key} e (call e' run)) all enough p =
      absurd (omega (arith, enough))
  print_loop-print_all (suc (suc fuel)) {it = it}
        (call {its' = it'} {token = Token.wgt_key} {seen = v} e
          (call {its' = it''} {token = token'} {seen = v'} {events = events} e' run))
        (going, (going', all)) enough p =
      let next_run : RunsOver (suc fuel) it'' events =
        print_loop-print_all (suc fuel) run all (omega (arith, enough)) in
      let later_run : RunsOver fuel it'' events =
        print_loop-print_all fuel run all (omega (arith, enough)) in
      two_rounds fuel it it' it'' events p token' v v' e e' next_run later_run
  print_loop-print_all (suc fuel) {it = it}
        (call {its' = it'} {token = token} {seen = v} {events = events} e run) (going, all) enough
        p =
      other_round fuel it it' events p token v e going refl
        (print_loop-print_all fuel run all (omega (arith, enough)))

module _ (ops : OutputOps) (indent : Bool) where
  -- The variables of the loop before its first round.
  abbrev pub at_start : List ℕ → Printer
  at_start out = record {
    out = out;
    first = true;
    use_indent = false;
    raw_scalar = false;
    last_was_key = false;
    level = 0;
  }

  pub gtype_to_cstring_worker-print_all :
      (fuel : ℕ) (out : List ℕ) (v : Value)
      → is_a_gtype_scalar v ≡ false
      → length (preorder Token.wgt_elem v) < fuel
      → gtype_to_cstring_worker ops indent fuel out v
        ≡ (print_all ops indent (preorder Token.wgt_elem v) (at_start out) >>= finished ops indent)
  unfolding gtype_to_cstring_worker gtype_iterator_init
  gtype_to_cstring_worker-print_all fuel out v container enough =
      let (start, started, runs) = iterator_from_container-Runs Token.wgt_elem v [] container in
      rw started (
        print_loop-print_all ops indent fuel runs (tokens Token.wgt_elem v refl) enough
          (at_start out))
