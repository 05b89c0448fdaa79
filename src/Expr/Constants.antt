-- ===== src/Expr/Constants.antt =====
-- kest_expression_detect_constants of components/core/kest_expression.c.
use kestrel_interface.Prelude.{
  ℕ, suc, ◌+◌, ◌≤◌, ◌<◌, ◌≡◌, refl, sym, ap, subst, ◌∙◌, Bool, true, false, ◌&&◌, ◌||◌, Option,
  none, some, List, ltb, arith, inl, inr, Bool-cases, ◌==◌,
}
use kestrel_interface.Token.{same}
use kestrel_interface.Expr.{
  MathLibrary, ExprType, Node, Expression, null, expression_t, node, rec_max_depth, is_const,
  is_ref, named, name_pi, name_e, name_sample_rate, name_data_width, type_arity, is_constant_name,
  kest_expression_detect_constants_rec, kest_expression_detect_constants, expr_neg, expr_abs,
  expr_sqr, expr_sqrt, expr_exp, expr_ln, expr_sin, expr_sinh, expr_cos, expr_cosh, expr_tan,
  expr_tanh, expr_asin, expr_acos, expr_atan, expr_log10, expr_erf, expr_acc, expr_diff, expr_const,
  expr_ref, expr_add, expr_sub, expr_mul, expr_div, expr_pow, expr_min, expr_max, expr_other,
}
use kestrel_interface.Expr.Evaluate.{
  Moment, Referred, op_1, op_2, refer, combine_by, combine, meaning, height,
}
use kestrel_interface.Expr.Coherent.{Steady, Alike, Coherent, node-Alike, kept}

-- The functions of two arguments, of which kest_expression_arity counts one.
abbrev pub is_min_max : ExprType → Bool
is_min_max expr_min = true
is_min_max expr_max = true
is_min_max _ = false

module _ {Float : Type 0} where
  -- Without these functions and without the name `data_width`.
  abbrev pub Plain : Expression Float → Type 0
  Plain null = Unit
  Plain expression_t = Unit
  Plain (node n e f) =
      (is_min_max n.type ≡ false) × (named n.ref_name name_data_width ≡ false) × Plain e × Plain f

pub type_arity-le : (t : ExprType) → type_arity t ≤ 2
unfolding type_arity
type_arity-le expr_neg = omega arith
type_arity-le expr_abs = omega arith
type_arity-le expr_sqr = omega arith
type_arity-le expr_sqrt = omega arith
type_arity-le expr_exp = omega arith
type_arity-le expr_ln = omega arith
type_arity-le expr_sin = omega arith
type_arity-le expr_sinh = omega arith
type_arity-le expr_cos = omega arith
type_arity-le expr_cosh = omega arith
type_arity-le expr_tan = omega arith
type_arity-le expr_tanh = omega arith
type_arity-le expr_asin = omega arith
type_arity-le expr_acos = omega arith
type_arity-le expr_atan = omega arith
type_arity-le expr_log10 = omega arith
type_arity-le expr_erf = omega arith
type_arity-le expr_acc = omega arith
type_arity-le expr_diff = omega arith
type_arity-le expr_const = omega arith
type_arity-le expr_ref = omega arith
type_arity-le expr_add = omega arith
type_arity-le expr_sub = omega arith
type_arity-le expr_mul = omega arith
type_arity-le expr_div = omega arith
type_arity-le expr_pow = omega arith
type_arity-le expr_min = omega arith
type_arity-le expr_max = omega arith
type_arity-le expr_other = omega arith

module _ (lib : MathLibrary) (stale : lib.Float) where
  open lib use {Float}

  -- The value depends on as many sub-expressions as the arity counts.
  combine-reads :
      (t : ExprType) (x x' y y' : Float)
      → is_min_max t ≡ false
      → is_const t ≡ false
      → is_ref t ≡ false
      → (0 < type_arity t → x ≡ x')
      → (1 < type_arity t → y ≡ y')
      → combine lib stale t x y ≡ combine lib stale t x' y'
  unfolding combine combine_by op_1 op_2 type_arity
  combine-reads expr_neg x x' y y' p q r h k = rw (h (omega arith)) refl
  combine-reads expr_abs x x' y y' p q r h k = rw (h (omega arith)) refl
  combine-reads expr_sqr x x' y y' p q r h k = rw (h (omega arith)) refl
  combine-reads expr_sqrt x x' y y' p q r h k = rw (h (omega arith)) refl
  combine-reads expr_exp x x' y y' p q r h k = rw (h (omega arith)) refl
  combine-reads expr_ln x x' y y' p q r h k = rw (h (omega arith)) refl
  combine-reads expr_sin x x' y y' p q r h k = rw (h (omega arith)) refl
  combine-reads expr_sinh x x' y y' p q r h k = rw (h (omega arith)) refl
  combine-reads expr_cos x x' y y' p q r h k = rw (h (omega arith)) refl
  combine-reads expr_cosh x x' y y' p q r h k = rw (h (omega arith)) refl
  combine-reads expr_tan x x' y y' p q r h k = rw (h (omega arith)) refl
  combine-reads expr_tanh x x' y y' p q r h k = rw (h (omega arith)) refl
  combine-reads expr_asin x x' y y' p q r h k = rw (h (omega arith)) refl
  combine-reads expr_acos x x' y y' p q r h k = rw (h (omega arith)) refl
  combine-reads expr_atan x x' y y' p q r h k = rw (h (omega arith)) refl
  combine-reads expr_log10 x x' y y' p q r h k = rw (h (omega arith)) refl
  combine-reads expr_erf x x' y y' p q r h k = rw (h (omega arith)) refl
  combine-reads expr_acc x x' y y' p q r h k = refl
  combine-reads expr_diff x x' y y' p q r h k = refl
  combine-reads expr_add x x' y y' p q r h k = rw (h (omega arith), k (omega arith)) refl
  combine-reads expr_sub x x' y y' p q r h k = rw (h (omega arith), k (omega arith)) refl
  combine-reads expr_mul x x' y y' p q r h k = rw (h (omega arith), k (omega arith)) refl
  combine-reads expr_div x x' y y' p q r h k = rw (h (omega arith), k (omega arith)) refl
  combine-reads expr_pow x x' y y' p q r h k = rw (h (omega arith), k (omega arith)) refl
  combine-reads expr_const x x' y y' p q r h k = cc
  combine-reads expr_ref x x' y y' p q r h k = cc
  combine-reads expr_min x x' y y' p q r h k = cc
  combine-reads expr_max x x' y y' p q r h k = cc
  combine-reads expr_other x x' y y' p q r h k = refl

  operation-Steady :
      (n : Node Float) (e f : Expression Float)
      → is_min_max n.type ≡ false
      → is_const n.type ≡ false
      → is_ref n.type ≡ false
      → (0 < type_arity n.type → Steady lib stale e)
      → (1 < type_arity n.type → Steady lib stale f)
      → Steady lib stale (node n e f)
  unfolding meaning
  operation-Steady n e f p q r h k m m' d d' =
      rw (q, r)
        (combine-reads n.type (meaning lib stale m e (d + 1)) (meaning lib stale m' e (d' + 1))
          (meaning lib stale m f (d + 1)) (meaning lib stale m' f (d' + 1)) p q r
          (λ i. h i m m' (d + 1) (d' + 1)) (λ i. k i m m' (d + 1) (d' + 1)))

  constant-Steady :
      (n : Node Float) (e f : Expression Float)
      → is_const n.type ≡ true
      → Steady lib stale (node n e f)
  unfolding meaning
  constant-Steady n e f h m m' d d' = rw h refl

  -- What the search is to give.
  abbrev pub Detected : Expression Float → Bool × Expression Float → Type 0
  Detected e r =
      (r.0 ≡ true → Steady lib stale e)
      × Alike lib stale e r.1
      × Coherent lib stale r.1
      × (height r.1 ≡ height e)

  verdict_and_rest :
      (e : Expression Float) (r : Bool × Expression Float)
      → Detected e r
      → (r.0 ≡ true → Steady lib stale e)
        × (Alike lib stale e r.1 × Coherent lib stale r.1 × (height r.1 ≡ height e))
  verdict_and_rest e r (steady, alike, coherent, tall) = (steady, (alike, coherent, tall))

  mark-Detected :
      (n : Node Float) (c : Bool) (e f e' f' : Expression Float)
      → (c ≡ true → Steady lib stale (node n e f))
      → Coherent lib stale (node n e f)
      → Alike lib stale e e' × Coherent lib stale e' × (height e' ≡ height e)
      → Alike lib stale f f' × Coherent lib stale f' × (height f' ≡ height f)
      → Detected (node n e f) (c, node (record n { constant = c }) e' f')
  unfolding height
  mark-Detected n c e f e' f' steady coherent (alike_e, coherent_e, height_e)
        (alike_f, coherent_f, height_f) =
      let alike : Alike lib stale (node n e f) (node (record n { constant = c }) e' f') =
        node-Alike lib stale n c n.cached n.cached_val e f e' f' alike_e alike_f in
      (
        steady,
        alike,
        (
          λ i m1 m2 d1 d2. alike m1 d1 ∙ steady i m1 m2 d1 d2 ∙ sym (alike m2 d2),
          λ i fixed m d.
              coherent.1 i (λ m1 m2 d1 d2. sym (alike m1 d1) ∙ fixed m1 m2 d1 d2 ∙ alike m2 d2) m d
              ∙ sym (alike m d),
          coherent_e,
          coherent_f,
        ),
        rw (height_e, height_f) refl,
      )

  refer-constant :
      (m m' : Moment Float) (d d' : ℕ) (name : Option (List ℕ))
      → (named name name_pi
          || named name name_e
          || named name name_sample_rate
          || named name name_data_width)
        ≡ true
      → named name name_data_width ≡ false
      → refer lib stale m d name ≡ refer lib stale m' d' name
  unfolding refer named
  refer-constant m m' d d' none h k = cc
  refer-constant m m' d d' (some name) h k = elim (Bool-cases (same name name_pi)) [
    | inl is_pi ↦ rw is_pi refl
    | inr not_pi ↦ elim (Bool-cases (same name name_e)) [
      | inl is_e ↦ rw (not_pi, is_e) refl
      | inr not_e ↦ elim (Bool-cases (same name name_sample_rate)) [
        | inl is_rate ↦ rw (not_pi, not_e, is_rate) refl
        | inr not_rate ↦ ground arith
      ]
    ]
  ]

  reference-Steady :
      (n : Node Float) (e f : Expression Float)
      → is_const n.type ≡ false
      → is_ref n.type ≡ true
      → named n.ref_name name_data_width ≡ false
      → is_constant_name n ≡ true
      → Steady lib stale (node n e f)
  unfolding meaning is_constant_name
  reference-Steady n e f p q r h m m' d d' =
      rw (p, q) (ap (λ (a : Referred Float). a.value) (refer-constant m m' d d' n.ref_name h r))

  from_run :
      (n : Node Float) (e f : Expression Float) (d : ℕ) (r : Bool × Expression Float)
      → kest_expression_detect_constants_rec (node n e f) d ≡ r
      → Detected (node n e f) r
      → Detected (node n e f) (kest_expression_detect_constants_rec (node n e f) d)
  from_run n e f d r run = subst (λ r. Detected (node n e f) r) (sym run)

  detect_rec-Detected :
      (e : Expression Float) (d : ℕ)
      → d + height e ≤ suc rec_max_depth
      → Plain e
      → Coherent lib stale e
      → Detected e (kest_expression_detect_constants_rec e d)
  unfolding kest_expression_detect_constants_rec meaning height
  detect_rec-Detected null d h plain coherent = ((λ i m m' d1 d2. refl), (λ m1 d1. refl), _, refl)
  detect_rec-Detected expression_t d h plain coherent =
      let within : ltb rec_max_depth d ≡ false = ground arith in
      rw within (((λ i. cc), (λ m1 d1. refl), _, refl))
  detect_rec-Detected (node n e f) d h plain coherent =
      let within : ltb rec_max_depth d ≡ false = ground arith in
      let first : Bool × Expression Float = kest_expression_detect_constants_rec e (d + 1) in
      let second : Bool × Expression Float = kest_expression_detect_constants_rec f (d + 1) in
      let (steady_e, after_e) =
        verdict_and_rest e first (detect_rec-Detected e (d + 1) (omega arith) plain.2 coherent.2) in
      let (steady_f, after_f) =
        verdict_and_rest f second
          (detect_rec-Detected f (d + 1) (omega arith) plain.3 coherent.3) in
      elim (Bool-cases (is_const n.type)) [
        | inl const ↦
            from_run n e f d (true, node (record n { constant = true }) e f)
              (rw (within, const) refl)
              (mark-Detected n true e f e f (λ i. constant-Steady n e f const) coherent
                (kept lib stale e coherent.2) (kept lib stale f coherent.3))
        | inr other ↦ elim (Bool-cases (is_ref n.type)) [
          | inl reference ↦
              from_run n e f d
                (is_constant_name n, node (record n { constant = is_constant_name n }) e f)
                (rw (within, other, reference) refl)
                (mark-Detected n (is_constant_name n) e f e f
                  (reference-Steady n e f other reference plain.1) coherent
                  (kept lib stale e coherent.2) (kept lib stale f coherent.3))
          | inr operation ↦ elim (Bool-cases (type_arity n.type == 0)) [
            | inl nullary ↦
                from_run n e f d (true, node (record n { constant = true }) e f)
                  (rw (within, other, operation, nullary) refl)
                  (mark-Detected n true e f e f
                    (λ i.
                      operation-Steady n e f plain.0 other operation (λ j. absurd (ground arith))
                        (λ j. absurd (ground arith)))
                    coherent (kept lib stale e coherent.2) (kept lib stale f coherent.3))
            | inr some_args ↦ elim (Bool-cases (first.0 && type_arity n.type == 2)) [
              | inl both ↦
                  from_run n e f d
                    (second.0, node (record n { constant = second.0 }) first.1 second.1)
                    (rw (within, other, operation, some_args, both) refl)
                    (mark-Detected n second.0 e f first.1 second.1
                      (λ i.
                        operation-Steady n e f plain.0 other operation
                          (λ j. steady_e (ground arith)) (λ j. steady_f i))
                      coherent after_e after_f)
              | inr one ↦
                  from_run n e f d (first.0, node (record n { constant = first.0 }) first.1 f)
                    (rw (within, other, operation, some_args, one) refl)
                    (mark-Detected n first.0 e f first.1 f
                      (λ i.
                        operation-Steady n e f plain.0 other operation (λ j. steady_e i)
                          (λ j. absurd (ground (arith, type_arity-le n.type))))
                      coherent after_e (kept lib stale f coherent.3))
            ]
          ]
        ]
      ]

  -- For a coherent expression of at most 129 levels without `min`, `max` and `data_width`: when the
  -- search finds that it is constant, its value is the same at every moment and depth; and the
  -- marks that the search leaves are right in every node.
  pub detect_constants-Steady :
      (e : Expression Float)
      → height e ≤ 129
      → Plain e
      → Coherent lib stale e
      → ((kest_expression_detect_constants e).0 ≡ true → Steady lib stale e)
        × Alike lib stale e (kest_expression_detect_constants e).1
        × Coherent lib stale (kest_expression_detect_constants e).1
        × (height (kest_expression_detect_constants e).1 ≡ height e)
  unfolding kest_expression_detect_constants
  detect_constants-Steady e h plain coherent = detect_rec-Detected e 0 (omega arith) plain coherent
