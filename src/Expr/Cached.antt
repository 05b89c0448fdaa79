-- ===== src/Expr/Cached.antt =====
-- kest_expression_evaluate of components/core/kest_expression.c, time and again.
use kestrel_interface.Prelude.{◌≤◌, ◌≡◌, refl, ap₂, ◌∙◌, List, [], ◌∷◌, map, arith}
use kestrel_interface.Expr.{MathLibrary, Expression, kest_expression_detect_constants}
use kestrel_interface.Expr.Evaluate.{Moment, kest_expression_evaluate, meaning, height}
use kestrel_interface.Expr.Coherent.{Coherent, Alike, evaluate_rec-Evaluated}
use kestrel_interface.Expr.Constants.{Plain, detect_constants-Steady}

module _ (lib : MathLibrary) (stale : lib.Float) where
  open lib use {Float}

  -- One evaluation after the other, at one moment each.
  unfoldable pub evaluate_all : List (Moment Float) → Expression Float → List Float
  evaluate_all [] e = []
  evaluate_all (m ∷ ms) e =
      let (value, e') = kest_expression_evaluate lib stale m e in value ∷ evaluate_all ms e'

  map-Alike :
      (ms : List (Moment Float)) (e e' : Expression Float)
      → Alike lib stale e e'
      → map (λ m. meaning lib stale m e' 0) ms ≡ map (λ m. meaning lib stale m e 0) ms
  map-Alike [] e e' h = refl
  map-Alike (m ∷ ms) e e' h = ap₂ (λ x xs. x ∷ xs) (h m 0) (map-Alike ms e e' h)

  evaluate_all-meaning :
      (ms : List (Moment Float)) (e : Expression Float)
      → height e ≤ 129
      → Coherent lib stale e
      → evaluate_all ms e ≡ map (λ m. meaning lib stale m e 0) ms
  unfolding evaluate_all kest_expression_evaluate
  evaluate_all-meaning [] e h coherent = refl
  evaluate_all-meaning (m ∷ ms) e h coherent =
      let (value, alike, coherent', tall) =
        evaluate_rec-Evaluated lib stale m e 0 (omega arith) coherent in
      ap₂ (λ x xs. x ∷ xs) value
        (evaluate_all-meaning ms (kest_expression_evaluate lib stale m e).1 (omega (arith, tall))
            coherent'
          ∙ map-Alike ms e (kest_expression_evaluate lib stale m e).1 alike)

  -- For a coherent expression of at most 129 levels without `min`, `max` and `data_width`, in which
  -- the constants have been marked: any number of evaluations, at whatever moments, give what the
  -- expression means at each moment, whatever the evaluations before have cached.
  pub evaluate_all-cached :
      (ms : List (Moment Float)) (e : Expression Float)
      → height e ≤ 129
      → Plain e
      → Coherent lib stale e
      → evaluate_all ms (kest_expression_detect_constants e).1
        ≡ map (λ m. meaning lib stale m e 0) ms
  evaluate_all-cached ms e h plain coherent =
      let (steady, alike, coherent', tall) = detect_constants-Steady lib stale e h plain coherent in
      let e' : Expression Float = (kest_expression_detect_constants e).1 in
      evaluate_all-meaning ms e' (omega (arith, tall)) coherent' ∙ map-Alike ms e e' alike
