-- ===== src/Expr/References.antt =====
-- kest_expression_references_param of components/core/kest_expression.c.
use kestrel_interface.Prelude.{
  ℕ, suc, ◌+◌, ◌≤◌, ◌≡◌, refl, sym, ap, ◌∙◌, Bool, true, false, not, ◌&&◌, ◌||◌, Option, none, some,
  List, [], ◌∷◌, ◌==◌, if◌then◌else◌, ltb, arith, inl, inr, Bool-cases,
}
use kestrel_interface.Status.{no_error, err_null_ptr}
use kestrel_interface.Token.{same}
use kestrel_interface.Expr.{
  ExprType, expr_const, expr_neg, expr_add, expr_sub, expr_mul, expr_div, expr_abs, expr_sqr,
  expr_sqrt, expr_exp, expr_ln, expr_pow, expr_sin, expr_sinh, expr_cos, expr_cosh, expr_tan,
  expr_tanh, expr_asin, expr_acos, expr_atan, expr_log10, expr_erf, expr_min, expr_max, expr_acc,
  expr_diff, expr_other, expr_ref, Expression, null, expression_t, node, rec_max_depth, is_ref,
  named, type_arity,
}
use kestrel_interface.Expr.Evaluate.{height}
use kestrel_interface.Expr.Constants.{type_arity-le}

-- A truth value of C.
abbrev pub as_int : Bool → ℕ
as_int true = 1
as_int false = 0

ref-arity : (t : ExprType) → is_ref t ≡ true → type_arity t ≡ 0
unfolding type_arity
ref-arity expr_ref h = refl
ref-arity expr_const h = cc
ref-arity expr_neg h = cc
ref-arity expr_add h = cc
ref-arity expr_sub h = cc
ref-arity expr_mul h = cc
ref-arity expr_div h = cc
ref-arity expr_abs h = cc
ref-arity expr_sqr h = cc
ref-arity expr_sqrt h = cc
ref-arity expr_exp h = cc
ref-arity expr_ln h = cc
ref-arity expr_pow h = cc
ref-arity expr_sin h = cc
ref-arity expr_sinh h = cc
ref-arity expr_cos h = cc
ref-arity expr_cosh h = cc
ref-arity expr_tan h = cc
ref-arity expr_tanh h = cc
ref-arity expr_asin h = cc
ref-arity expr_acos h = cc
ref-arity expr_atan h = cc
ref-arity expr_log10 h = cc
ref-arity expr_erf h = cc
ref-arity expr_min h = cc
ref-arity expr_max h = cc
ref-arity expr_acc h = cc
ref-arity expr_diff h = cc
ref-arity expr_other h = cc

or_false : (b : Bool) → (b || false || false) ≡ b
or_false true = refl
or_false false = refl

as_int-zero : (b : Bool) → (as_int b == 0) ≡ not b
as_int-zero true = refl
as_int-zero false = refl

module _ {Float : Type 0} where
  -- For a parameter that has an internal name. The results are numbers; a hit below is returned as
  -- ERR_NULL_PTR, which is 1.
  unfoldable pub references_name : Expression Float → List ℕ → ℕ → ℕ
  references_name null name depth = no_error
  references_name expression_t name depth = as_int (same (b't' ∷ []) name)
  references_name (node n e f) name depth =
      let first = references_name e name (depth + 1) in
      let second = references_name f name (depth + 1) in
      if type_arity n.type == 0
      then if is_ref n.type then as_int (named n.ref_name name) else no_error
      else if ltb rec_max_depth depth
      then no_error
      else if not (first == 0)
      then err_null_ptr
      else if type_arity n.type == 2 && not (second == 0)
      then err_null_ptr
      else no_error

  -- `none` is NULL, for the parameter and for its name.
  unfoldable pub kest_expression_references_param : Expression Float → Option (Option (List ℕ)) → ℕ
  kest_expression_references_param e none = no_error
  kest_expression_references_param e (some none) = no_error
  kest_expression_references_param e (some (some name)) = references_name e name 0

  -- A reference with the name stands somewhere in the tree.
  unfoldable pub mentions : List ℕ → Expression Float → Bool
  mentions name null = false
  mentions name expression_t = same (b't' ∷ []) name
  mentions name (node n e f) =
      (is_ref n.type && named n.ref_name name) || mentions name e || mentions name f

  -- The pointers that the arity does not count are NULL.
  abbrev pub Tight : Expression Float → Type 0
  Tight null = Unit
  Tight expression_t = Unit
  Tight (node n e f) =
      (type_arity n.type ≡ 0 → e ≡ null) × (type_arity n.type ≤ 1 → f ≡ null) × Tight e × Tight f

  references_name-mentions :
      (e : Expression Float) (name : List ℕ) (d : ℕ)
      → d + height e ≤ suc rec_max_depth
      → Tight e
      → references_name e name d ≡ as_int (mentions name e)
  unfolding references_name mentions height
  references_name-mentions null name d h tight = refl
  references_name-mentions expression_t name d h tight = refl
  references_name-mentions (node n e f) name d h tight =
      let first : references_name e name (d + 1) ≡ as_int (mentions name e) =
        references_name-mentions e name (d + 1) (omega arith) tight.2 in
      let second : references_name f name (d + 1) ≡ as_int (mentions name f) =
        references_name-mentions f name (d + 1) (omega arith) tight.3 in
      let within : ltb rec_max_depth d ≡ false = ground arith in
      elim (Bool-cases (type_arity n.type == 0)) [
        | inl nullary ↦
            let no_first : mentions name e ≡ false = ap (mentions name) (tight.0 (ground arith)) in
            let no_second : mentions name f ≡ false = ap (mentions name) (tight.1 (ground arith)) in
            rw (nullary, no_first, no_second)
              (elim (Bool-cases (is_ref n.type)) [
                | inl reference ↦ rw reference (ap as_int (sym (or_false (named n.ref_name name))))
                | inr other ↦ rw other refl
              ])
        | inr counted ↦ elim (Bool-cases (is_ref n.type)) [
          | inl reference ↦ absurd (ground (arith, ref-arity n.type reference))
          | inr other ↦
              let first_zero : (references_name e name (d + 1) == 0) ≡ not (mentions name e) =
                ap (λ n. n == 0) first ∙ as_int-zero (mentions name e) in
              let second_zero : (references_name f name (d + 1) == 0) ≡ not (mentions name f) =
                ap (λ n. n == 0) second ∙ as_int-zero (mentions name f) in
              elim (Bool-cases (mentions name e)) [
                | inl in_first ↦ rw (counted, within, other, first_zero, in_first) refl
                | inr not_first ↦ elim (Bool-cases (type_arity n.type == 2)) [
                  | inl two ↦ elim (Bool-cases (mentions name f)) [
                    | inl in_second ↦
                        rw
                          (
                            counted, within, other, first_zero, not_first, two, second_zero,
                            in_second,
                          )
                          refl
                    | inr not_second ↦
                        rw
                          (
                            counted, within, other, first_zero, not_first, two, second_zero,
                            not_second,
                          )
                          refl
                  ]
                  | inr one ↦
                      let no_second : mentions name f ≡ false =
                        ap (mentions name) (tight.1 (ground (arith, type_arity-le n.type))) in
                      rw (counted, within, other, first_zero, not_first, one, no_second) refl
                ]
              ]
        ]
      ]

  -- For an expression of at most 129 levels whose pointers are NULL where the arity does not count
  -- them: the search for a parameter returns 1 if a reference to its internal name stands anywhere
  -- in the expression, and 0 if not, or if there is no parameter or name.
  pub references_param-mentions :
      (e : Expression Float) (param : Option (Option (List ℕ)))
      → height e ≤ 129
      → Tight e
      → kest_expression_references_param e param ≡ elim param [
        | none ↦ 0
        | some internal ↦ elim internal [ none ↦ 0 | some name ↦ as_int (mentions name e) ]
      ]
  unfolding kest_expression_references_param
  references_param-mentions e none h tight = refl
  references_param-mentions e (some none) h tight = refl
  references_param-mentions e (some (some name)) h tight =
      references_name-mentions e name 0 (omega arith) tight
