-- ===== src/Parse.antt =====
-- components/parser/kest_expr_parser.c: what a token means to the parser of expressions, with the
-- constructors of nodes of components/core/kest_expression.c that it calls. Of a token the parser
-- reads the text; where it stands matters to messages only. While it runs, no owner captures the
-- nodes.
pub mod Pratt
pub mod Freed
pub mod Kept
pub mod Calls
pub mod Operands
pub mod Balanced
pub mod Within
pub mod Advance
pub mod Enough
pub mod Written
pub mod Texts
pub mod Granted
pub mod Steps
pub mod Applied
pub mod RoundTrip
use kestrel_interface.Prelude.{
  ℕ, zero, suc, ◌+◌, ◌-◌, Bool, true, false, ◌&&◌, ◌||◌, Option, none, some, List, [], ◌∷◌, ◌==◌,
  if◌then◌else◌, ltb, leb, length, get_or, take, drop,
}
use kestrel_interface.Token.{same}
use kestrel_interface.Expr.{
  MathLibrary, is_ref, is_const, ExprType, Node, Expression, null, expression_t, node, expr_const,
  expr_ref, expr_neg, expr_add, expr_sub, expr_mul, expr_div, expr_abs, expr_sqr, expr_sqrt,
  expr_exp, expr_ln, expr_pow, expr_sin, expr_sinh, expr_cos, expr_cosh, expr_tan, expr_tanh,
  expr_asin, expr_acos, expr_atan, expr_log10, expr_erf, expr_min, expr_max,
}

-- A chain of comparisons with names.
abbrev pub by_name {ℓ} : {A : Type ℓ} → List (List ℕ × A) → List ℕ → Option A
by_name [] token = none
by_name ((name, a) ∷ table) token = if same token name then some a else by_name table token

abbrev pub unary_names : List (List ℕ × ExprType)
unary_names =
    (b'-' ∷ [], expr_neg)
    ∷ (b'a' ∷ b'b' ∷ b's' ∷ [], expr_abs)
    ∷ (b's' ∷ b'q' ∷ b'r' ∷ [], expr_sqr)
    ∷ (b's' ∷ b'q' ∷ b'r' ∷ b't' ∷ [], expr_sqrt)
    ∷ (b'e' ∷ b'x' ∷ b'p' ∷ [], expr_exp)
    ∷ (b'l' ∷ b'n' ∷ [], expr_ln)
    ∷ (b'l' ∷ b'o' ∷ b'g' ∷ [], expr_ln)
    ∷ (b's' ∷ b'i' ∷ b'n' ∷ [], expr_sin)
    ∷ (b'c' ∷ b'o' ∷ b's' ∷ [], expr_cos)
    ∷ (b't' ∷ b'a' ∷ b'n' ∷ [], expr_tan)
    ∷ (b's' ∷ b'i' ∷ b'n' ∷ b'h' ∷ [], expr_sinh)
    ∷ (b'c' ∷ b'o' ∷ b's' ∷ b'h' ∷ [], expr_cosh)
    ∷ (b't' ∷ b'a' ∷ b'n' ∷ b'h' ∷ [], expr_tanh)
    ∷ (b'a' ∷ b's' ∷ b'i' ∷ b'n' ∷ [], expr_asin)
    ∷ (b'a' ∷ b'c' ∷ b'o' ∷ b's' ∷ [], expr_acos)
    ∷ (b'a' ∷ b't' ∷ b'a' ∷ b'n' ∷ [], expr_atan)
    ∷ (b'l' ∷ b'o' ∷ b'g' ∷ b'1' ∷ b'0' ∷ [], expr_log10)
    ∷ (b'e' ∷ b'r' ∷ b'f' ∷ [], expr_erf)
    ∷ []

abbrev pub infix_names : List (List ℕ × ExprType)
infix_names =
    (b'+' ∷ [], expr_add)
    ∷ (b'-' ∷ [], expr_sub)
    ∷ (b'*' ∷ [], expr_mul)
    ∷ (b'/' ∷ [], expr_div)
    ∷ (b'^' ∷ [], expr_pow)
    ∷ []

abbrev pub binary_names : List (List ℕ × ExprType)
binary_names =
    (b'p' ∷ b'o' ∷ b'w' ∷ [], expr_pow)
    ∷ (b'm' ∷ b'i' ∷ b'n' ∷ [], expr_min)
    ∷ (b'm' ∷ b'a' ∷ b'x' ∷ [], expr_max)
    ∷ []

-- `none` is the 0 that stands for no type.
unfoldable pub kest_expression_token_unary_type : Option (List ℕ) → Option ExprType
kest_expression_token_unary_type none = none
kest_expression_token_unary_type (some token) = by_name unary_names token

unfoldable pub kest_expression_token_infix_type : Option (List ℕ) → Option ExprType
kest_expression_token_infix_type none = none
kest_expression_token_infix_type (some token) = by_name infix_names token

unfoldable pub kest_expression_token_binary_function_type : Option (List ℕ) → Option ExprType
kest_expression_token_binary_function_type none = none
kest_expression_token_binary_function_type (some token) = by_name binary_names token

unfoldable pub kest_expression_token_function_type : Option (List ℕ) → ℕ → Option ExprType
kest_expression_token_function_type token arity =
    if arity == 1
    then kest_expression_token_unary_type token
    else if arity == 2
    then kest_expression_token_binary_function_type token
    else none

-- For a type that is no infix operator the code returns -1; the parser asks for operators only.
unfoldable pub kest_expression_infix_operator_precedence : ExprType → ℕ
kest_expression_infix_operator_precedence expr_add = 10
kest_expression_infix_operator_precedence expr_sub = 10
kest_expression_infix_operator_precedence expr_mul = 20
kest_expression_infix_operator_precedence expr_div = 20
kest_expression_infix_operator_precedence expr_pow = 40
kest_expression_infix_operator_precedence _ = 0

abbrev pub unary_precedence : ℕ
unary_precedence = 30

unfoldable pub kest_expression_infix_associativity : ExprType → ℕ
kest_expression_infix_associativity expr_add = 1
kest_expression_infix_associativity expr_sub = 1
kest_expression_infix_associativity expr_mul = 1
kest_expression_infix_associativity expr_div = 1
kest_expression_infix_associativity _ = 0

-- The allocators grant or refuse the request with a given number. `live` counts the blocks, nodes
-- and names, that are handed out and not yet freed; `errors` is that of the parsing state.
pub record Work : Type 0 where
  pub grants : ℕ → Bool
  pub asked : ℕ
  pub live : ℕ
  pub errors : ℕ

unfoldable pub kest_parser_error_at : Work → Work
kest_parser_error_at w = record w { errors = w.errors + 1 }

unfoldable pub request : Work → Bool × Work
request w =
    if w.grants w.asked
    then (true, record w { asked = w.asked + 1; live = w.live + 1 })
    else (false, record w { asked = w.asked + 1 })

unfoldable pub kest_free : Work → Work
kest_free w = record w { live = w.live - 1 }

-- The types whose second sub-expression is freed.
unfoldable pub has_second : ExprType → Bool
has_second expr_add = true
has_second expr_sub = true
has_second expr_mul = true
has_second expr_div = true
has_second expr_pow = true
has_second expr_min = true
has_second expr_max = true
has_second _ = false

module _ (lib : MathLibrary) where
  open lib use {Float, of_ℕ, add, mul, div}

  unfoldable pub digit_to_float : ℕ → Float
  digit_to_float c =
      if leb b'0' c && leb c b'9'
      then of_ℕ (c - b'0')
      else if leb b'a' c && leb c b'f'
      then of_ℕ (c - b'a')
      else if leb b'A' c && leb c b'F'
      then of_ℕ (c - b'A')
      else of_ℕ 0

  -- The loop over the characters: the value, and the digits behind the point.
  unfoldable pub float_loop : Float → List ℕ → Float → ℕ → ℕ → Float × ℕ
  float_loop base [] res exp frac = (res, exp)
  float_loop base (c ∷ cs) res exp frac =
      let dot = c == b'.' in
      float_loop base cs (if dot then res else add (mul res base) (digit_to_float c))
        (if dot then exp else exp + frac) (if dot then 1 else frac)

  unfoldable pub scale_down : Float → ℕ → Float → Float
  scale_down base zero res = res
  scale_down base (suc exp) res = scale_down base exp (div res base)

  unfoldable pub float_from : Float → List ℕ → Float
  float_from base digits =
      let (res, exp) = float_loop base digits (of_ℕ 0) 0 0 in scale_down base exp res

  unfoldable pub token_to_float : Option (List ℕ) → Float
  token_to_float none = of_ℕ 0
  token_to_float (some token) =
      if ltb 2 (length token) && get_or token 0 0 == b'0' && get_or token 1 0 == b'b'
      then float_from (of_ℕ 2) (drop 2 token)
      else if ltb 2 (length token) && get_or token 0 0 == b'0' && get_or token 1 0 == b'x'
      then float_from (of_ℕ 16) (drop 2 token)
      else float_from (of_ℕ 10) token

  abbrev pub constant_of : Expression Float → Bool
  constant_of null = false
  constant_of expression_t = false
  constant_of (node n e f) = n.constant

  abbrev pub const_node : Float → Expression Float
  const_node v =
      node
        (record {
          type = expr_const;
          constant = true;
          cached = true;
          cached_val = v;
          val_float = v;
          ref_name = none;
        })
        null null

  abbrev pub reference_node : List ℕ → Expression Float
  reference_node name =
      node
        (record {
          type = expr_ref;
          constant = false;
          cached = false;
          cached_val = of_ℕ 0;
          val_float = of_ℕ 0;
          ref_name = some name;
        })
        null null

  abbrev pub operation_node :
      ExprType → Expression Float → Expression Float → Bool → Expression Float
  operation_node type e f constant =
      node
        (record {
          type = type;
          constant = constant;
          cached = false;
          cached_val = of_ℕ 0;
          val_float = of_ℕ 0;
          ref_name = none;
        })
        e f

  abbrev pub if_granted : Expression Float → Bool × Work → Expression Float × Work
  if_granted e (true, w) = (e, w)
  if_granted e (false, w) = (null, w)

  unfoldable pub kest_expr_new_const : Float → Work → Expression Float × Work
  kest_expr_new_const v w = if_granted (const_node v) (request w)

  unfoldable pub kest_expr_new_unary : ExprType → Expression Float → Work → Expression Float × Work
  kest_expr_new_unary type null w = (null, w)
  kest_expr_new_unary type rhs w =
      if_granted (operation_node type rhs null (constant_of rhs)) (request w)

  unfoldable pub kest_expr_new_binary :
      ExprType → Expression Float → Expression Float → Work → Expression Float × Work
  kest_expr_new_binary type null arg_2 w = (null, w)
  kest_expr_new_binary type arg_1 null w = (null, w)
  kest_expr_new_binary type arg_1 arg_2 w =
      if_granted (operation_node type arg_1 arg_2 (constant_of arg_2 && constant_of arg_1))
        (request w)

  -- Behind the node: the name, of 64 characters at most.
  unfoldable pub name_node : List ℕ → Bool × Work → Expression Float × Work
  name_node name (false, w) = (null, w)
  name_node name (true, w) =
      let (granted, w') = request w in
      if granted then (reference_node (take 64 name), w') else (null, kest_free w')

  unfoldable pub kest_expr_new_reference : Option (List ℕ) → Work → Expression Float × Work
  kest_expr_new_reference none w = (null, w)
  kest_expr_new_reference (some name) w = name_node name (request w)

  -- A node that is no reference and no constant goes behind its sub-expressions.
  unfoldable pub kest_free_parsed_expression : Expression Float → Work → Work
  kest_free_parsed_expression null w = w
  kest_free_parsed_expression expression_t w = w
  kest_free_parsed_expression (node n e f) w =
      let below = kest_free_parsed_expression e w in
      let both = kest_free_parsed_expression f below in
      if is_ref n.type
      then kest_free (kest_free w)
      else if is_const n.type
      then kest_free w
      else if has_second n.type
      then kest_free both
      else kest_free below
