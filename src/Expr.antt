-- ===== src/Expr.antt =====
-- components/core/kest_expression.c: the nodes of an expression, its constants and its evaluation.
-- A pointer to a node is the tree below it; that two pointers may share a node is left out. What
-- the entries of a scope evaluate to is given with the scope.
pub mod Evaluate
pub mod Coherent
pub mod Constants
pub mod Cached
pub mod References
use kestrel_interface.Prelude.{
  ℕ, suc, ◌+◌, Bool, true, false, ◌&&◌, ◌||◌, Option, none, some, List, [], ◌∷◌, if◌then◌else◌, ltb,
  ◌==◌,
}
use kestrel_interface.Status.{no_error}
use kestrel_interface.Token.{same}

-- The arithmetic and the functions of C on floats, which the repository does not implement.
-- `tiny` is 1e-20.
pub record MathLibrary : Type 1 where
  pub Float : Type 0
  pub of_ℕ : ℕ → Float
  pub tiny : Float
  pub pi : Float
  pub lt : Float → Float → Bool
  pub neg : Float → Float
  pub add : Float → Float → Float
  pub sub : Float → Float → Float
  pub mul : Float → Float → Float
  pub div : Float → Float → Float
  pub pow : Float → Float → Float
  pub fabs : Float → Float
  pub sqrt : Float → Float
  pub exp : Float → Float
  pub log : Float → Float
  pub sin : Float → Float
  pub sinh : Float → Float
  pub asin : Float → Float
  pub cos : Float → Float
  pub cosh : Float → Float
  pub acos : Float → Float
  pub tan : Float → Float
  pub tanh : Float → Float
  pub atan : Float → Float
  pub log10 : Float → Float
  pub erf : Float → Float

-- The types of a node; `expr_other` is a number that is none of them.
pub data ExprType : Type 0 where
  expr_const : ExprType
  expr_ref : ExprType
  expr_neg : ExprType
  expr_add : ExprType
  expr_sub : ExprType
  expr_mul : ExprType
  expr_div : ExprType
  expr_abs : ExprType
  expr_sqr : ExprType
  expr_sqrt : ExprType
  expr_exp : ExprType
  expr_ln : ExprType
  expr_pow : ExprType
  expr_sin : ExprType
  expr_sinh : ExprType
  expr_cos : ExprType
  expr_cosh : ExprType
  expr_tan : ExprType
  expr_tanh : ExprType
  expr_asin : ExprType
  expr_acos : ExprType
  expr_atan : ExprType
  expr_log10 : ExprType
  expr_erf : ExprType
  expr_min : ExprType
  expr_max : ExprType
  expr_acc : ExprType
  expr_diff : ExprType
  expr_other : ExprType

abbrev pub rec_max_depth : ℕ
rec_max_depth = 128

module _ (Float : Type 0) where
  -- A node but for its pointers; the members of the union are two fields.
  pub record Node : Type 0 where
    pub type : ExprType
    pub constant : Bool
    pub cached : Bool
    pub cached_val : Float
    pub val_float : Float
    pub ref_name : Option (List ℕ)

  -- A pointer: NULL, the static reference to the time, or a node with its two `sub_exprs`.
  pub data Expression : Type 0 where
    null : Expression
    expression_t : Expression
    node : Node → Expression → Expression → Expression

unfoldable pub type_arity : ExprType → ℕ
type_arity expr_const = 0
type_arity expr_ref = 0
type_arity expr_other = 0
type_arity expr_add = 2
type_arity expr_sub = 2
type_arity expr_mul = 2
type_arity expr_div = 2
type_arity expr_pow = 2
type_arity _ = 1

abbrev pub is_const : ExprType → Bool
is_const expr_const = true
is_const _ = false

abbrev pub is_ref : ExprType → Bool
is_ref expr_ref = true
is_ref _ = false

abbrev pub is_div : ExprType → Bool
is_div expr_div = true
is_div _ = false

-- `strcmp` with a name; the code never gives it NULL.
unfoldable pub named : Option (List ℕ) → List ℕ → Bool
named none str = false
named (some ref_name) str = same ref_name str

abbrev pub name_pi : List ℕ
name_pi = b'p' ∷ b'i' ∷ []

abbrev pub name_e : List ℕ
name_e = b'e' ∷ []

abbrev pub name_sample_rate : List ℕ
name_sample_rate = b's' ∷ b'a' ∷ b'm' ∷ b'p' ∷ b'l' ∷ b'e' ∷ b'_' ∷ b'r' ∷ b'a' ∷ b't' ∷ b'e' ∷ []

abbrev pub name_data_width : List ℕ
name_data_width = b'd' ∷ b'a' ∷ b't' ∷ b'a' ∷ b'_' ∷ b'w' ∷ b'i' ∷ b'd' ∷ b't' ∷ b'h' ∷ []

module _ {Float : Type 0} where
  unfoldable pub kest_expression_arity : Expression Float → ℕ
  kest_expression_arity null = no_error
  kest_expression_arity expression_t = 0
  kest_expression_arity (node n e f) = type_arity n.type

  -- The test of `kest_expression_is_constant_reference` on a node that is a reference.
  unfoldable pub is_constant_name : Node Float → Bool
  is_constant_name n =
      named n.ref_name name_pi
      || named n.ref_name name_e
      || named n.ref_name name_sample_rate
      || named n.ref_name name_data_width

  unfoldable pub kest_expression_is_constant_reference : Expression Float → Bool × Expression Float
  kest_expression_is_constant_reference null = (true, null)
  kest_expression_is_constant_reference expression_t = (false, expression_t)
  kest_expression_is_constant_reference (node n e f) =
      if is_ref n.type && is_constant_name n
      then (true, node (record n { constant = true }) e f)
      else (false, node n e f)

  unfoldable pub kest_expression_is_constant : Expression Float → Bool
  kest_expression_is_constant null = false
  kest_expression_is_constant expression_t = false
  kest_expression_is_constant (node n e f) =
      is_const n.type || n.constant || (kest_expression_is_constant_reference (node n e f)).0

  -- The loop over the sub-expressions stops at the first that is not constant; one that is NULL
  -- counts as constant.
  unfoldable pub kest_expression_detect_constants_rec :
      Expression Float → ℕ → Bool × Expression Float
  kest_expression_detect_constants_rec null depth = (true, null)
  kest_expression_detect_constants_rec expression_t depth =
      if ltb rec_max_depth depth then (true, expression_t) else (false, expression_t)
  kest_expression_detect_constants_rec (node n e f) depth =
      let first = kest_expression_detect_constants_rec e (depth + 1) in
      let second = kest_expression_detect_constants_rec f (depth + 1) in
      if ltb rec_max_depth depth
      then (true, node n e f)
      else if is_const n.type
      then (true, node (record n { constant = true }) e f)
      else if is_ref n.type
      then (is_constant_name n, node (record n { constant = is_constant_name n }) e f)
      else if type_arity n.type == 0
      then (true, node (record n { constant = true }) e f)
      else if first.0 && type_arity n.type == 2
      then (second.0, node (record n { constant = second.0 }) first.1 second.1)
      else (first.0, node (record n { constant = first.0 }) first.1 f)

  unfoldable pub kest_expression_detect_constants : Expression Float → Bool × Expression Float
  kest_expression_detect_constants e = kest_expression_detect_constants_rec e 0
