-- ===== src/Expr/Evaluate.antt =====
-- kest_expression_evaluate_rec of components/core/kest_expression.c, and what it is to compute.
use kestrel_interface.Prelude.{
  ℕ, suc, ◌+◌, Bool, true, false, ◌&&◌, Option, none, some, List, if◌then◌else◌, ltb, ◌==◌, max,
}
use kestrel_interface.Status.{no_error}
use kestrel_interface.Token.{same}
use kestrel_interface.Expr.{
  MathLibrary, ExprType, Node, Expression, null, expression_t, node, rec_max_depth, is_const,
  is_ref, is_div, name_pi, name_e, name_sample_rate, name_data_width, expr_neg, expr_add, expr_sub,
  expr_mul, expr_abs, expr_sqr, expr_sqrt, expr_exp, expr_ln, expr_pow, expr_sin, expr_sinh,
  expr_cos, expr_cosh, expr_tan, expr_tanh, expr_asin, expr_acos, expr_atan, expr_log10, expr_erf,
  expr_min, expr_max,
}

-- A scope: kest_scope_fetch, and for an entry that it finds the code and the value that
-- kest_scope_entry_eval_rec gives at a depth. `seconds` is the time of the static reference.
pub record Moment (Float : Type 0) : Type 0 where
  pub scope : Option (List ℕ → Option (ℕ → ℕ × Float))
  pub seconds : Float

-- What evaluating a reference leads to: the value, whether the node becomes a constant, and
-- whether the value is cached.
pub record Referred (Float : Type 0) : Type 0 where
  pub value : Float
  pub fixes : Bool
  pub caches : Bool

-- `stale` is what an unset local variable holds.
module _ (lib : MathLibrary) (stale : lib.Float) where
  open lib use {
    Float, of_ℕ, tiny, pi, lt, neg, add, sub, mul, div, pow, fabs, sqrt, exp, log, sin, sinh, asin,
    cos, cosh, acos, tan, tanh, atan, log10, erf,
  }

  -- The types with one sub-expression.
  unfoldable pub op_1 : ExprType → Option (Float → Float)
  op_1 expr_neg = some neg
  op_1 expr_abs = some fabs
  op_1 expr_sqr = some (λ x. mul x x)
  op_1 expr_sqrt = some sqrt
  op_1 expr_exp = some exp
  op_1 expr_ln = some log
  op_1 expr_sin = some sin
  op_1 expr_sinh = some sinh
  op_1 expr_asin = some asin
  op_1 expr_cos = some cos
  op_1 expr_cosh = some cosh
  op_1 expr_acos = some acos
  op_1 expr_tan = some tan
  op_1 expr_tanh = some tanh
  op_1 expr_atan = some atan
  op_1 expr_log10 = some log10
  op_1 expr_erf = some erf
  op_1 _ = none

  -- The types with two, but for the division.
  unfoldable pub op_2 : ExprType → Option (Float → Float → Float)
  op_2 expr_add = some add
  op_2 expr_sub = some sub
  op_2 expr_mul = some mul
  op_2 expr_pow = some pow
  op_2 expr_min = some (λ x y. if lt x y then x else y)
  op_2 expr_max = some (λ x y. if lt y x then x else y)
  op_2 _ = none

  -- An entry that is found, or not.
  unfoldable pub entry_value : Option (ℕ → ℕ × Float) → List ℕ → ℕ → Referred Float
  entry_value none ref_name depth =
      if same ref_name name_data_width
      then record { value = of_ℕ 16; fixes = false; caches = false }
      else record { value = of_ℕ 0; fixes = false; caches = true }
  entry_value (some eval_rec) ref_name depth = record {
    value = if (eval_rec (depth + 1)).0 == no_error then (eval_rec (depth + 1)).1 else of_ℕ 0;
    fixes = false;
    caches = true;
  }

  unfoldable pub scope_value :
      Option (List ℕ → Option (ℕ → ℕ × Float)) → List ℕ → ℕ → Referred Float
  unfolding entry_value
  scope_value none ref_name depth = record { value = of_ℕ 0; fixes = false; caches = true }
  scope_value (some fetch) ref_name depth = entry_value (fetch ref_name) ref_name depth

  -- The branch of a reference.
  unfoldable pub refer : Moment Float → ℕ → Option (List ℕ) → Referred Float
  unfolding scope_value entry_value
  refer m depth none = record { value = of_ℕ 0; fixes = false; caches = true }
  refer m depth (some ref_name) =
      if same ref_name name_pi
      then record { value = pi; fixes = true; caches = true }
      else if same ref_name name_e
      then record { value = exp (of_ℕ 1); fixes = true; caches = true }
      else if same ref_name name_sample_rate
      then record { value = of_ℕ 44100; fixes = true; caches = true }
      else scope_value m.scope ref_name depth

  -- `expr_compute_return`
  unfoldable pub compute_return :
      Node Float → Expression Float → Expression Float → Float → Float × Expression Float
  compute_return n e f ret_val =
      (ret_val, node (record n { cached = true; cached_val = ret_val }) e f)

  unfoldable pub reference_return :
      Node Float → Expression Float → Expression Float → Referred Float → Float × Expression Float
  unfolding compute_return
  reference_return n e f r =
      if r.caches
      then compute_return (if r.fixes then record n { constant = true } else n) e f r.value
      else (r.value, node n e f)

  -- The `switch`, by the operation that the type has. `first` and `second` are what the evaluation
  -- of the two pointers gives where a case asks for it; a pointer that is not asked for keeps its
  -- nodes.
  unfoldable pub switch_by :
      Option (Float → Float)
      → Option (Float → Float → Float)
      → Bool
      → Node Float
      → Expression Float
      → Expression Float
      → Float × Expression Float
      → Float × Expression Float
      → Float × Expression Float
  unfolding compute_return
  switch_by (some g) o div_type n e f first second = compute_return n first.1 f (g first.0)
  switch_by none (some g) div_type n e f first second =
      compute_return n first.1 second.1 (g first.0 second.0)
  switch_by none none true n e f first second =
      if lt (fabs second.0) tiny
      then compute_return n e second.1 (of_ℕ 0)
      else compute_return n first.1 second.1 (div first.0 second.0)
  switch_by none none false n e f first second = compute_return n e f stale

  unfoldable pub switch_type :
      Node Float
      → Expression Float
      → Expression Float
      → Float × Expression Float
      → Float × Expression Float
      → Float × Expression Float
  switch_type n = switch_by (op_1 n.type) (op_2 n.type) (is_div n.type) n

  -- For NULL the code does not look at the depth here: with a depth too large it would write to
  -- the node that is not there.
  unfoldable pub kest_expression_evaluate_rec :
      Moment Float → Expression Float → ℕ → Float × Expression Float
  kest_expression_evaluate_rec m null depth = (of_ℕ 0, null)
  kest_expression_evaluate_rec m expression_t depth =
      (if ltb rec_max_depth depth then of_ℕ 0 else m.seconds, expression_t)
  kest_expression_evaluate_rec m (node n e f) depth =
      let first = kest_expression_evaluate_rec m e (depth + 1) in
      let second = kest_expression_evaluate_rec m f (depth + 1) in
      if ltb rec_max_depth depth
      then compute_return n e f (of_ℕ 0)
      else if n.constant && n.cached
      then compute_return n e f n.cached_val
      else if is_const n.type
      then compute_return n e f n.val_float
      else if is_ref n.type
      then reference_return n e f (refer m depth n.ref_name)
      else switch_type n e f first second

  unfoldable pub kest_expression_evaluate :
      Moment Float → Expression Float → Float × Expression Float
  kest_expression_evaluate m e = kest_expression_evaluate_rec m e 0

  -- What an operation makes of two values.
  unfoldable pub combine_by :
      Option (Float → Float) → Option (Float → Float → Float) → Bool → Float → Float → Float
  combine_by (some g) o div_type x y = g x
  combine_by none (some g) div_type x y = g x y
  combine_by none none true x y = if lt (fabs y) tiny then of_ℕ 0 else div x y
  combine_by none none false x y = stale

  unfoldable pub combine : ExprType → Float → Float → Float
  combine t = combine_by (op_1 t) (op_2 t) (is_div t)

  -- The value of an expression, without caches and without a limit on its depth.
  unfoldable pub meaning : Moment Float → Expression Float → ℕ → Float
  meaning m null depth = of_ℕ 0
  meaning m expression_t depth = m.seconds
  meaning m (node n e f) depth =
      let x = meaning m e (depth + 1) in
      let y = meaning m f (depth + 1) in
      if is_const n.type
      then n.val_float
      else if is_ref n.type
      then (refer m depth n.ref_name).value
      else combine n.type x y

-- How many nodes lie on the longest way down.
unfoldable pub height : {Float : Type 0} → Expression Float → ℕ
height null = 0
height expression_t = 1
height (node n e f) = suc (max (height e) (height f))
