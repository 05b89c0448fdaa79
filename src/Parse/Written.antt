-- ===== src/Parse/Written.antt =====
-- Expressions as they are written, with the fewest brackets but for a negation beside `^`, for the
-- parser of components/parser/kest_expr_parser.c to read.
use kestrel_interface.Prelude.{
  ℕ, ◌+◌, ◌≡◌, refl, Bool, true, false, none, some, List, [], ◌∷◌, ◌++◌, ◌&&◌, if◌then◌else◌, ltb,
  take, max,
}
use kestrel_interface.Token.{token_is_number, token_is_name}
use kestrel_interface.Expr.{
  MathLibrary, ExprType, Expression, null, expr_neg, expr_add, expr_sub, expr_mul, expr_div,
  expr_pow,
}
use kestrel_interface.Parse.{
  kest_expression_token_unary_type, kest_expression_token_binary_function_type, token_to_float,
  const_node, reference_node, operation_node, constant_of,
}
use kestrel_interface.Parse.Pratt.{Tokens, is_null}

pub data Infix : Type 0 where
  plus : Infix
  minus : Infix
  times : Infix
  over : Infix
  power : Infix

-- A call has the name of the function and its type.
pub data Term : Type 0 where
  number : List ℕ → Term
  name : List ℕ → Term
  negative : Term → Term
  infix_of : Infix → Term → Term → Term
  call_1 : List ℕ → ExprType → Term → Term
  call_2 : List ℕ → ExprType → Term → Term → Term

abbrev pub symbol : Infix → List ℕ
symbol plus = b'+' ∷ []
symbol minus = b'-' ∷ []
symbol times = b'*' ∷ []
symbol over = b'/' ∷ []
symbol power = b'^' ∷ []

abbrev pub type_of : Infix → ExprType
type_of plus = expr_add
type_of minus = expr_sub
type_of times = expr_mul
type_of over = expr_div
type_of power = expr_pow

-- How tightly an operator binds, and which strength its operands need so as to stand bare.
abbrev pub strength : Infix → ℕ
strength plus = 10
strength minus = 10
strength times = 20
strength over = 20
strength power = 40

abbrev pub left_of : Infix → ℕ
left_of power = 41
left_of op = strength op

abbrev pub right_of : Infix → ℕ
right_of power = 40
right_of op = strength op + 1

abbrev pub level : Term → ℕ
level (negative t) = 30
level (infix_of op s t) = strength op
level _ = 100

-- What follows the term is read into it from this strength on.
abbrev pub tail : Term → ℕ
tail (negative t) = 30
tail (infix_of op s t) = right_of op
tail _ = 100

abbrev pub bracketed : Bool → Tokens → Tokens
bracketed b ts = if b then some (b'(' ∷ []) ∷ (ts ++ some (b')' ∷ []) ∷ []) else ts

unfoldable pub term_tokens : Term → Tokens
term_tokens (number digits) = some digits ∷ []
term_tokens (name n) = some n ∷ []
term_tokens (negative t) = some (b'-' ∷ []) ∷ bracketed (ltb (level t) 30) (term_tokens t)
term_tokens (infix_of op s t) =
    bracketed (ltb (level s) (left_of op)) (term_tokens s)
    ++ some (symbol op) ∷ bracketed (ltb (level t) (right_of op)) (term_tokens t)
term_tokens (call_1 f type t) = some f ∷ some (b'(' ∷ []) ∷ (term_tokens t ++ some (b')' ∷ []) ∷ [])
term_tokens (call_2 f type s t) =
    some f
    ∷ some (b'(' ∷ [])
    ∷ (term_tokens s ++ some (b',' ∷ []) ∷ (term_tokens t ++ some (b')' ∷ []) ∷ []))

-- A term where strength `m` is needed.
abbrev pub tokens_at : ℕ → Term → Tokens
tokens_at m t = bracketed (ltb (level t) m) (term_tokens t)

-- The levels of calls below the parser's own that reading the term takes.
unfoldable pub nesting : Term → ℕ
nesting (number digits) = 0
nesting (name n) = 0
nesting (negative t) = 1 + ((if ltb (level t) 30 then 1 else 0) + nesting t)
nesting (infix_of op s t) =
    max ((if ltb (level s) (left_of op) then 1 else 0) + nesting s)
      (1 + ((if ltb (level t) (right_of op) then 1 else 0) + nesting t))
nesting (call_1 f type t) = 2 + nesting t
nesting (call_2 f type s t) = 2 + max (nesting s) (nesting t)

abbrev pub nesting_at : ℕ → Term → ℕ
nesting_at m t = (if ltb (level t) m then 1 else 0) + nesting t

-- The texts are those of numbers, of names that are no function's, and of functions.
abbrev pub IsTerm : Term → Type 0
IsTerm (number digits) = token_is_number (some digits) ≡ true
IsTerm (name n) =
    (token_is_name (some n) ≡ true) × (kest_expression_token_unary_type (some n) ≡ none)
IsTerm (negative t) = IsTerm t
IsTerm (infix_of op s t) = IsTerm s × IsTerm t
IsTerm (call_1 f type t) =
    (token_is_name (some f) ≡ true)
    × (kest_expression_token_unary_type (some f) ≡ some type)
    × IsTerm t
IsTerm (call_2 f type s t) =
    (token_is_name (some f) ≡ true)
    × (kest_expression_token_binary_function_type (some f) ≡ some type)
    × IsTerm s
    × IsTerm t

module _ (lib : MathLibrary) where
  open lib use {Float}

  abbrev operation : ExprType → Expression Float → Expression Float
  operation type e = operation_node lib type e null (constant_of lib e)

  abbrev operation_2 : ExprType → Expression Float → Expression Float → Expression Float
  operation_2 type e f = operation_node lib type e f (constant_of lib f && constant_of lib e)

  -- The nodes of a term; a name is kept up to its 64th character.
  unfoldable pub tree : Term → Expression Float
  tree (number digits) = const_node lib (token_to_float lib (some digits))
  tree (name n) = reference_node lib (take 64 n)
  tree (negative t) = operation expr_neg (tree t)
  tree (infix_of op s t) = operation_2 (type_of op) (tree s) (tree t)
  tree (call_1 f type t) = operation type (tree t)
  tree (call_2 f type s t) = operation_2 type (tree s) (tree t)

  pub tree-there : (t : Term) → is_null (tree t) ≡ false
  unfolding tree
  tree-there (number digits) = refl
  tree-there (name n) = refl
  tree-there (negative t) = refl
  tree-there (infix_of op s t) = refl
  tree-there (call_1 f type t) = refl
  tree-there (call_2 f type s t) = refl
