-- ===== src/Tests/Expressions.antt =====
-- Runs of the theorems on expressions.
use kestrel_interface.Prelude.{ℕ, ◌≤◌, ◌≡◌, refl, true, false, some, none, [], ◌∷◌, map, arith}
use kestrel_interface.Status.{no_error}
use kestrel_interface.Tests.Data.{whole}
use kestrel_interface.Expr.{
  Expression, null, node, expr_const, expr_ref, expr_mul, kest_expression_detect_constants,
  kest_expression_detect_constants_rec, type_arity, is_constant_name, named,
}
use kestrel_interface.Expr.Evaluate.{
  kest_expression_evaluate, kest_expression_evaluate_rec, switch_type, switch_by, op_1, op_2,
  reference_return, refer, Moment, meaning, height,
}
use kestrel_interface.Expr.Coherent.{Coherent, Steady, Alike}
use kestrel_interface.Expr.Constants.{Plain, detect_constants-Steady}
use kestrel_interface.Expr.Cached.{evaluate_all, evaluate_all-cached}

-- `x * 2`, of which the number has been cached.
abbrev a_number : Expression ℕ
a_number =
    node
      (record {
        type = expr_const;
        constant = true;
        cached = true;
        cached_val = 2;
        val_float = 2;
        ref_name = none;
      })
      null null

abbrev a_reference : Expression ℕ
a_reference =
    node
      (record {
        type = expr_ref;
        constant = false;
        cached = false;
        cached_val = 0;
        val_float = 0;
        ref_name = some (b'x' ∷ []);
      })
      null null

abbrev a_product : Expression ℕ
a_product =
    node
      (record {
        type = expr_mul;
        constant = false;
        cached = false;
        cached_val = 0;
        val_float = 0;
        ref_name = none;
      })
      a_reference a_number

-- The scope gives `n` for every name.
abbrev moment : ℕ → Moment ℕ
moment n = record { scope = some (λ name. some (λ d. (no_error, n))); seconds = 0 }

a_number-Steady : Steady whole 0 a_number
unfolding meaning
a_number-Steady m m' d d' = refl

a_product-Coherent : Coherent whole 0 a_product
unfolding meaning
a_product-Coherent = (
  (λ i. cc),
  (λ i. cc),
  ((λ i. cc), (λ i. cc), _, _),
  ((λ i. a_number-Steady), (λ i s m d. refl), _, _),
)

a_product-height : height a_product ≤ 129
unfolding height
a_product-height = omega arith

a_product-Plain : Plain a_product
unfolding named
a_product-Plain = (refl, refl, (refl, refl, _, _), (refl, refl, _, _))

detect_constants-Steady_example :
    ((kest_expression_detect_constants a_product).0 ≡ true → Steady whole 0 a_product)
    × Alike whole 0 a_product (kest_expression_detect_constants a_product).1
    × Coherent whole 0 (kest_expression_detect_constants a_product).1
    × (height (kest_expression_detect_constants a_product).1 ≡ height a_product)
detect_constants-Steady_example =
    detect_constants-Steady whole 0 a_product a_product-height a_product-Plain a_product-Coherent

evaluate_all-cached_example :
    evaluate_all whole 0 (moment 3 ∷ moment 4 ∷ []) (kest_expression_detect_constants a_product).1
    ≡ map (λ m. meaning whole 0 m a_product 0) (moment 3 ∷ moment 4 ∷ [])
evaluate_all-cached_example =
    evaluate_all-cached whole 0 (moment 3 ∷ moment 4 ∷ []) a_product a_product-height
      a_product-Plain a_product-Coherent

-- The values are those of the products.
doubled :
    evaluate_all whole 0 (moment 3 ∷ moment 4 ∷ []) (kest_expression_detect_constants a_product).1
    ≡ 6 ∷ 8 ∷ []
unfolding evaluate_all kest_expression_evaluate kest_expression_evaluate_rec
    kest_expression_detect_constants kest_expression_detect_constants_rec type_arity
    is_constant_name named switch_type switch_by op_1 op_2 reference_return refer
doubled = refl
