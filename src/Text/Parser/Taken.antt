-- ===== src/Text/Parser/Taken.antt =====
-- About what is left behind a token that the parser accepts.
use post_graph.Prelude.{
  ℕ, ◌+◌, ◌≤◌, ◌<◌, ◌≡◌, refl, inl, inr, Bool, true, false, Bool-cases, List, length, Option, none,
  some, if◌then◌else◌, Returns, Anything, Returns->>=, Returns-weaken, arith,
}
use post_graph.Text.Context.{TokenType, LexContext, Encoding}
use post_graph.Text.Lexer.{gtype_lex}
use post_graph.Text.Lexer.Ends.{Taken, gtype_lex-Taken}
use post_graph.Text.Parser.{
  ParseContext, same_type, report_parse_error, lex_accept, or_report, lex_expect, or_invalid,
  parse_scalar_annotation,
}

-- The bytes that are left, and one for the current token.
abbrev pub measure : LexContext → ℕ
measure lex =
    length lex.token_terminator + (if same_type lex.token_type TokenType.end then 0 else 1)

pub Returns-report {ℓ} :
    {A : Type ℓ} (P : A → Type 0) (ctx : ParseContext) (lex : LexContext)
    → Returns P (report_parse_error ctx lex)
unfolding report_parse_error
Returns-report P ctx lex = elim (Bool-cases (same_type lex.token_type TokenType.end)) [
  | inl at_end ↦ rw at_end tt
  | inr other ↦ rw other tt
]

module _ (enc : Encoding) where
  measure-Taken : (lex : LexContext) (n : ℕ) → Taken n lex → measure lex ≤ n
  measure-Taken lex n (inl less) = ground arith
  measure-Taken lex n (inr (type, left)) = rw (type, left) (omega arith)

  pub gtype_lex-measure :
      (lex : LexContext)
      → Returns (λ lex'. measure lex' ≤ length lex.token_terminator) (gtype_lex enc lex)
  gtype_lex-measure lex =
      Returns-weaken _ _ (gtype_lex enc lex)
        (λ lex'. measure-Taken lex' (length lex.token_terminator)) (gtype_lex-Taken enc lex)

  -- What is accepted is taken.
  abbrev pub Accepted : LexContext → Option (Option (List ℕ) × LexContext) → Type 0
  Accepted lex none = Unit
  Accepted lex (some next) = measure next.1 < measure lex

  not_end :
      (a b : TokenType)
      → same_type a b ≡ true
      → same_type b TokenType.end ≡ false
      → same_type a TokenType.end ≡ false
  not_end a b h h' = ground arith

  pub lex_accept-Accepted :
      (lex : LexContext) (type : TokenType) (wanted : Bool)
      → same_type type TokenType.end ≡ false
      → Returns (Accepted lex) (lex_accept enc lex type wanted)
  unfolding lex_accept
  lex_accept-Accepted lex type wanted other = elim (Bool-cases (same_type lex.token_type type)) [
    | inl same ↦ rw same (
        Returns->>= _ _ (gtype_lex enc lex) _ (gtype_lex-measure lex)
          (λ lex' less. rw (not_end lex.token_type type same other) (omega (arith, less))))
    | inr differs ↦ rw differs tt
  ]

  pub Returns-or_report :
      (ctx : ParseContext) (lex lex' : LexContext)
      (accepted : Option (Option (List ℕ) × LexContext))
      → Accepted lex accepted
      → Returns (λ next. measure next.1 < measure lex) (or_report enc ctx lex' accepted)
  Returns-or_report ctx lex lex' none h = Returns-report _ ctx lex'
  Returns-or_report ctx lex lex' (some next) h = h

  pub lex_expect-taken :
      (ctx : ParseContext) (lex : LexContext) (type : TokenType)
      → same_type type TokenType.end ≡ false
      → Returns (λ lex'. measure lex' < measure lex) (lex_expect enc ctx lex type)
  unfolding lex_expect
  lex_expect-taken ctx lex type other =
      Returns->>= _ _ (lex_accept enc lex type false) _ (lex_accept-Accepted lex type false other)
        (λ accepted h.
          Returns->>= _ _ (or_report enc ctx lex accepted) _
            (Returns-or_report ctx lex lex accepted h) (λ next less. less))

  Returns-lex_accept :
      (lex : LexContext) (type : TokenType) (wanted : Bool)
      → Returns Anything (lex_accept enc lex type wanted)
  unfolding lex_accept
  Returns-lex_accept lex type wanted = elim (Bool-cases (same_type lex.token_type type)) [
    | inl same ↦
        rw same (Returns->>= _ _ (gtype_lex enc lex) _ (gtype_lex-measure lex) (λ lex' less. tt))
    | inr differs ↦ rw differs tt
  ]

  -- The end of the input is expected.
  pub Returns-lex_expect :
      (ctx : ParseContext) (lex : LexContext) (type : TokenType)
      → Returns Anything (lex_expect enc ctx lex type)
  unfolding lex_expect
  Returns-lex_expect ctx lex type =
      Returns->>= Anything _ (lex_accept enc lex type false) _ (Returns-lex_accept lex type false)
        (λ accepted h.
          Returns->>= Anything _ (or_report enc ctx lex accepted) _ (found accepted)
            (λ next done. tt))
    where
      found :
          (accepted : Option (Option (List ℕ) × LexContext))
          → Returns Anything (or_report enc ctx lex accepted)
      found none = Returns-report Anything ctx lex
      found (some next) = tt

  -- At most n is left.
  abbrev pub Below : {A : Type 0} → ℕ → A × LexContext → Type 0
  Below n next = measure next.1 ≤ n

  name_read :
      (lex lex' : LexContext) (name : Option (Option (List ℕ) × LexContext))
      → measure lex' < measure lex
      → Accepted lex' name
      → Returns (Below (measure lex)) (or_invalid enc name)
  name_read lex lex' none less h = tt
  name_read lex lex' (some next) less h = omega (arith, less, h)

  pub annotation-Below :
      (lex : LexContext) (func : Bool)
      → Returns (Below (measure lex)) (parse_scalar_annotation enc lex func)
  unfolding parse_scalar_annotation
  annotation-Below lex func = elim (Bool-cases (same_type lex.token_type TokenType.annotation)) [
    | inl same ↦ rw same (
        Returns->>= _ _ (lex_accept enc lex TokenType.annotation false) _
          (lex_accept-Accepted lex TokenType.annotation false refl)
          (λ accepted h.
            Returns->>= _ _ (or_report enc _ lex accepted) _
              (Returns-or_report _ lex lex accepted h)
              (λ next less.
                Returns->>= _ _ (lex_accept enc next.1 TokenType.identifier func) _
                  (lex_accept-Accepted next.1 TokenType.identifier func refl)
                  (λ name h'. name_read lex next.1 name less h'))))
    | inr differs ↦ rw differs (omega arith)
  ]
