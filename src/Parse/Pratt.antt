-- ===== src/Parse/Pratt.antt =====
-- kest_parse_expression_rec_pratt, kest_parse_expression_function_call and kest_parse_expression of
-- components/parser/kest_expr_parser.c. A pointer into the list of tokens is the rest of the list
-- there, and `tokens_end` is the length of the rest where the expression ends, 0 for NULL. A text
-- that is NULL differs from every string; the code leaves that comparison open.
use kestrel_interface.Prelude.{
  ℕ, zero, suc, ◌+◌, Bool, true, false, ◌&&◌, ◌||◌, not, Option, none, some, List, [], ◌∷◌, ◌⊎◌,
  inl, inr, ◌==◌, if◌then◌else◌, ltb, length, drop,
}
use kestrel_interface.Token.{token_is_char, token_is_number, token_is_name}
use kestrel_interface.Expr.{
  MathLibrary, ExprType, Expression, null, node, expression_t, rec_max_depth,
  kest_expression_detect_constants,
}
use kestrel_interface.Parse.{
  Work, kest_parser_error_at, kest_expression_token_unary_type, kest_expression_token_infix_type,
  kest_expression_token_function_type, kest_expression_infix_operator_precedence,
  kest_expression_infix_associativity, unary_precedence, token_to_float, kest_expr_new_const,
  kest_expr_new_unary, kest_expr_new_binary, kest_expr_new_reference, kest_free_parsed_expression,
}

abbrev pub Tokens : Type 0
Tokens = List (Option (List ℕ))

-- What a call returns: the expression, the pointer that it has written to `*next_token`, if it has
-- written one, and the state.
pub record Parsing (Float : Type 0) : Type 0 where
  pub expr : Expression Float
  pub next_token : Option Tokens
  pub work : Work

abbrev pub next_of : Option Tokens → Tokens
next_of none = []
next_of (some tokens) = tokens

abbrev pub is_null : {A : Type 0} → Expression A → Bool
is_null null = true
is_null expression_t = false
is_null (node n e f) = false

unfoldable pub starts_with : ℕ → Tokens → Bool
starts_with c [] = false
starts_with c (t ∷ ts) = token_is_char t c

module _ (lib : MathLibrary) (tokens_end : ℕ) where
  open lib use {Float}

  -- A call at a depth that is fixed: the tokens, the binding power, the state.
  abbrev pub Parser : Type 0
  Parser = Tokens → ℕ → Work → Parsing Float

  -- NULL; `*next_token` stays as it was.
  abbrev pub failed : Work → Parsing Float
  failed w = record { expr = null; next_token = none; work = w }

  abbrev pub finished : Expression Float → Tokens → Work → Parsing Float
  finished lhs current w = record { expr = lhs; next_token = some current; work = w }

  -- `!current || current == tokens_end`
  unfoldable pub ended : Tokens → Bool
  ended [] = true
  ended (t ∷ ts) = suc (length ts) == tokens_end

  -- `function_bail`
  unfoldable pub free_all : List (Expression Float) → Work → Work
  free_all [] w = w
  free_all (e ∷ es) w = free_all es (kest_free_parsed_expression lib e w)

  -- The loop over the arguments, each in its turn: what it has freed when it fails, or the arguments
  -- in reverse with the rest that begins with the closing bracket.
  abbrev pub Arguments : Type 0
  Arguments = Work ⊎ (List (Expression Float) × Tokens × Work)

  unfoldable pub bail : List (Expression Float) → Work → Arguments
  bail args w = inl (free_all args w)

  unfoldable pub behind_argument :
      (List (Expression Float) → Tokens → Work → Arguments)
      → List (Expression Float)
      → Tokens
      → Work
      → Arguments
  behind_argument again args [] w = bail args (kest_parser_error_at w)
  behind_argument again args (t ∷ current) w =
      if ended (t ∷ current)
      then bail args (kest_parser_error_at w)
      else if token_is_char t b','
      then (if ended current || starts_with b')' current
          then bail args (kest_parser_error_at w)
          else again args current w)
      else if token_is_char t b')'
      then inr (args, t ∷ current, w)
      else bail args (kest_parser_error_at w)

  unfoldable pub with_argument :
      (List (Expression Float) → Tokens → Work → Arguments)
      → List (Expression Float)
      → Parsing Float
      → Arguments
  with_argument again args r =
      if is_null r.expr
      then bail args r.work
      else behind_argument again (r.expr ∷ args) (next_of r.next_token) r.work

  -- `fuel` bounds the rounds; a third argument is refused before that.
  unfoldable pub arguments : Parser → ℕ → List (Expression Float) → Tokens → Work → Arguments
  arguments rec zero args current w = bail args (kest_parser_error_at w)
  arguments rec (suc fuel) args current w =
      if ended current
      then bail args (kest_parser_error_at w)
      else if starts_with b')' current
      then inr (args, current, w)
      else if length args == 2
      then bail args (kest_parser_error_at w)
      else with_argument (arguments rec fuel) args (rec current 0 w)

  -- Behind the arguments; `name` is the text of the function's token, `args` are in reverse.
  unfoldable pub new_call : ExprType → List (Expression Float) → Work → Expression Float × Work
  new_call type (x ∷ []) w = kest_expr_new_unary lib type x w
  new_call type (y ∷ x ∷ []) w = kest_expr_new_binary lib type x y w
  new_call type _ w = (null, w)

  unfoldable pub called : List (Expression Float) → Tokens → Expression Float × Work → Parsing Float
  called args current (result, w) = record {
    expr = result;
    next_token = some current;
    work = if is_null result then free_all args w else w;
  }

  unfoldable pub call_by : Option ExprType → List (Expression Float) → Tokens → Work → Parsing Float
  call_by none args current w = failed (free_all args (kest_parser_error_at w))
  call_by (some type) args current w = called args current (new_call type args w)

  unfoldable pub call_with : Option (List ℕ) → Arguments → Parsing Float
  call_with name (inl w) = failed w
  call_with name (inr (args, [], w)) = failed (free_all args (kest_parser_error_at w))
  call_with name (inr (args, t ∷ current, w)) =
      if ended (t ∷ current) || not (token_is_char t b')')
      then failed (free_all args (kest_parser_error_at w))
      else call_by (kest_expression_token_function_type name (length args)) args current w

  -- `rec` is the parser for an argument.
  unfoldable pub kest_parse_expression_function_call : Parser → Tokens → Work → Parsing Float
  kest_parse_expression_function_call rec [] w = failed w
  kest_parse_expression_function_call rec (name ∷ []) w = failed w
  kest_parse_expression_function_call rec (none ∷ open_ ∷ current) w = failed w
  kest_parse_expression_function_call rec (some name ∷ open_ ∷ current) w =
      if not (token_is_char open_ b'(')
      then failed w
      else if ended current
      then failed (kest_parser_error_at w)
      else call_with (some name) (arguments rec 3 [] current w)

  -- The loop over the infix operators, with `fuel` rounds. `rec` is the parser for an operand.
  unfoldable pub behind_operand :
      (Expression Float → Tokens → Work → Parsing Float)
      → ExprType
      → Expression Float
      → Parsing Float
      → Parsing Float
  behind_operand again infix_type lhs r =
      if is_null r.expr
      then failed (kest_free_parsed_expression lib lhs r.work)
      else let (bin, w) = kest_expr_new_binary lib infix_type lhs r.expr r.work in
        if is_null bin
        then failed (kest_free_parsed_expression lib r.expr (kest_free_parsed_expression lib lhs w))
        else again bin (next_of r.next_token) w

  unfoldable pub infix_step :
      Parser
      → (Expression Float → Tokens → Work → Parsing Float)
      → Option ExprType
      → Expression Float
      → Option (List ℕ)
      → Tokens
      → ℕ
      → Work
      → Parsing Float
  infix_step rec again none lhs t current min_binding_power w = finished lhs (t ∷ current) w
  infix_step rec again (some infix_type) lhs t current min_binding_power w =
      let precedence = kest_expression_infix_operator_precedence infix_type in
      if ltb precedence min_binding_power
      then finished lhs (t ∷ current) w
      else behind_operand again infix_type lhs
          (rec current (precedence + kest_expression_infix_associativity infix_type) w)

  unfoldable pub infix_loop : Parser → ℕ → Expression Float → Tokens → ℕ → Work → Parsing Float
  infix_loop rec zero lhs current min_binding_power w = finished lhs current w
  infix_loop rec (suc fuel) lhs [] min_binding_power w = finished lhs [] w
  infix_loop rec (suc fuel) lhs (t ∷ current) min_binding_power w =
      if ended (t ∷ current)
      then finished lhs (t ∷ current) w
      else infix_step rec (λ e ts w'. infix_loop rec fuel e ts min_binding_power w')
          (kest_expression_token_infix_type t) lhs t current min_binding_power w

  -- What the code does before that loop: it returns NULL, or goes on with `lhs` and `current`.
  abbrev pub Primary : Type 0
  Primary = Work ⊎ (Expression Float × Tokens × Work)

  unfoldable pub unless_null : Tokens → Expression Float × Work → Primary
  unless_null current (lhs, w) = if is_null lhs then inl w else inr (lhs, current, w)

  unfoldable pub in_brackets : Parsing Float → Primary
  in_brackets r =
      if is_null r.expr
      then inl r.work
      else if starts_with b')' (next_of r.next_token)
      then inr (r.expr, drop 1 (next_of r.next_token), r.work)
      else inl (kest_free_parsed_expression lib r.expr (kest_parser_error_at r.work))

  unfoldable pub from_call : Parsing Float → Primary
  from_call r = if is_null r.expr then inl r.work else inr (r.expr, next_of r.next_token, r.work)

  unfoldable pub negated : ExprType → Parsing Float → Primary
  negated unary_type r =
      if is_null r.expr
      then inl r.work
      else let (lhs, w) = kest_expr_new_unary lib unary_type r.expr r.work in
        if is_null lhs
        then inl (kest_free_parsed_expression lib r.expr w)
        else inr (lhs, next_of r.next_token, w)

  -- The branches on the first token that is neither a number nor a bracket nor a call.
  unfoldable pub by_unary_type :
      Parser → Option ExprType → Option (List ℕ) → Tokens → Work → Primary
  by_unary_type rec (some unary_type) t rest w = negated unary_type (rec rest unary_precedence w)
  by_unary_type rec none t rest w =
      if token_is_name t
      then (let (lhs, w') = kest_expr_new_reference lib t w in inr (lhs, rest, w'))
      else inl (kest_parser_error_at w)

  -- `rec` is the parser one level below, and `rec_argument` the one two levels below.
  unfoldable pub primary : Parser → Parser → Option (List ℕ) → Tokens → Work → Primary
  primary rec rec_argument t rest w =
      if token_is_number t
      then unless_null rest (kest_expr_new_const lib (token_to_float lib t) w)
      else if token_is_char t b'('
      then in_brackets (rec rest 0 w)
      else if token_is_name t && starts_with b'(' rest
      then from_call (kest_parse_expression_function_call rec_argument (t ∷ rest) w)
      else by_unary_type rec (kest_expression_token_unary_type t) t rest w

  unfoldable pub behind_primary : Parser → ℕ → ℕ → Primary → Parsing Float
  behind_primary rec fuel min_binding_power (inl w) = failed w
  behind_primary rec fuel min_binding_power (inr (lhs, current, w)) =
      infix_loop rec fuel lhs current min_binding_power w

  -- `levels` bounds the nesting of the calls; the loop makes at most one round for a token.
  unfoldable pub kest_parse_expression_rec_pratt : ℕ → ℕ → Parser
  kest_parse_expression_rec_pratt zero depth tokens min_binding_power w =
      failed (kest_parser_error_at w)
  kest_parse_expression_rec_pratt (suc levels) depth [] min_binding_power w = failed w
  kest_parse_expression_rec_pratt (suc levels) depth (none ∷ rest) min_binding_power w = failed w
  kest_parse_expression_rec_pratt (suc levels) depth (some token ∷ rest) min_binding_power w =
      if ltb rec_max_depth depth
      then failed (kest_parser_error_at w)
      else behind_primary (kest_parse_expression_rec_pratt levels (depth + 1)) (suc (length rest))
          min_binding_power
          (primary (kest_parse_expression_rec_pratt levels (depth + 1))
            (kest_parse_expression_rec_pratt levels (depth + 2)) (some token) rest w)

  unfoldable pub published : Parsing Float → Tokens → Expression Float × Tokens × Work
  published r tokens = (
    (kest_expression_detect_constants r.expr).1,
    elim r.next_token [ none ↦ tokens | some next ↦ next ],
    r.work,
  )

  -- The last part of the result is the state, and the one before it is `ps->current_token`. There
  -- are as many levels as the limit on the depth lets pass.
  unfoldable pub kest_parse_expression : Tokens → Work → Expression Float × Tokens × Work
  kest_parse_expression tokens w =
      published (kest_parse_expression_rec_pratt (rec_max_depth + 2) 0 tokens 0 w) tokens
