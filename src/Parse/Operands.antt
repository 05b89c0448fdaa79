-- ===== src/Parse/Operands.antt =====
-- The loop over the infix operators of components/parser/kest_expr_parser.c and the blocks.
use kestrel_interface.Prelude.{
  ℕ, zero, suc, ◌+◌, ◌≡◌, refl, Option, none, some, List, [], ◌∷◌, ltb, arith, Bool-cases, inl, inr,
}
use kestrel_interface.Expr.{MathLibrary, ExprType, Expression}
use kestrel_interface.Parse.{
  Work, kest_expression_token_infix_type, kest_expression_infix_operator_precedence,
  kest_expression_infix_associativity, kest_expr_new_binary, kest_free_parsed_expression,
}
use kestrel_interface.Parse.Pratt.{
  Tokens, is_null, next_of, Parser, ended, behind_operand, infix_step, infix_loop,
}
use kestrel_interface.Parse.Freed.{
  blocks, Fresh, IsBinary, token_infix_type-IsBinary, free_parsed-live, new_binary-Built,
}
use kestrel_interface.Parse.Kept.{Kept, Keeps, null-Kept, is_null-blocks, Result}

module _ (lib : MathLibrary) (tokens_end : ℕ) where
  open lib use {Float}

  -- Behind an operand, the loop goes on or everything above `b` is freed.
  behind_operand-Kept :
      (again : Expression Float → Tokens → Work → Result lib tokens_end) (type : ExprType) (b : ℕ)
      (lhs : Expression Float) (r : Result lib tokens_end)
      → IsBinary type
      → Fresh lhs
      → Kept (b + blocks lhs) r.expr r.work
      → ((e : Expression Float) (ts : Tokens) (w : Work)
          → Kept b e w
          → Kept b (again e ts w).expr (again e ts w).work)
      → Kept b
          (behind_operand lib tokens_end again type lhs r).expr
          (behind_operand lib tokens_end again type lhs r).work
  unfolding behind_operand
  behind_operand-Kept again type b lhs r kind fresh kept keeps =
      let bin = kest_expr_new_binary lib type lhs r.expr r.work in
      let built = new_binary-Built lib type lhs r.expr r.work kind fresh kept.fresh in
      let one = kest_free_parsed_expression lib lhs bin.1 in
      elim (Bool-cases (is_null r.expr)) [
        | inl e ↦ rw e (
            null-Kept lib tokens_end b (kest_free_parsed_expression lib lhs r.work) (
              omega (
                arith,
                kept.live,
                is_null-blocks lib tokens_end r.expr e,
                free_parsed-live lib lhs r.work fresh,
              )))
        | inr e ↦ elim (Bool-cases (is_null bin.0)) [
          | inl refused ↦
              rw (e, refused)
                (null-Kept lib tokens_end b (kest_free_parsed_expression lib r.expr one) (
                  ground (
                    arith,
                    kept.live,
                    built.live,
                    free_parsed-live lib lhs bin.1 fresh,
                    free_parsed-live lib r.expr one kept.fresh,
                  )))
          | inr granted ↦
              rw (e, granted)
                (keeps bin.0 (next_of r.next_token) bin.1 (record {
                  fresh = built.fresh;
                  live = ground (arith, kept.live, built.live, built.size);
                }))
        ]
      ]

  infix_step-Kept :
      (rec : Parser lib tokens_end)
      (again : Expression Float → Tokens → Work → Result lib tokens_end) (o : Option ExprType)
      (b : ℕ) (lhs : Expression Float) (t : Option (List ℕ)) (current : Tokens) (m : ℕ) (w : Work)
      → Keeps lib tokens_end rec
      → kest_expression_token_infix_type t ≡ o
      → Kept b lhs w
      → ((e : Expression Float) (ts : Tokens) (w : Work)
          → Kept b e w
          → Kept b (again e ts w).expr (again e ts w).work)
      → Kept b
          (infix_step lib tokens_end rec again o lhs t current m w).expr
          (infix_step lib tokens_end rec again o lhs t current m w).work
  unfolding infix_step
  infix_step-Kept rec again none b lhs t current m w keeps h kept next_keeps = kept
  infix_step-Kept rec again (some type) b lhs t current m w keeps h kept next_keeps =
      let precedence = kest_expression_infix_operator_precedence type in
      let power : ℕ = precedence + kest_expression_infix_associativity type in
      let operand = keeps current power w in
      elim (Bool-cases (ltb precedence m)) [
        | inl below ↦ rw below kept
        | inr above ↦ rw above (
            behind_operand-Kept again type b lhs (rec current power w)
              (token_infix_type-IsBinary t type h) kept.fresh
              (record { fresh = operand.fresh; live = omega (arith, operand.live, kept.live) })
              next_keeps)
      ]

  pub infix_loop-Kept :
      (rec : Parser lib tokens_end) (fuel b : ℕ) (lhs : Expression Float) (current : Tokens) (m : ℕ)
      (w : Work)
      → Keeps lib tokens_end rec
      → Kept b lhs w
      → Kept b
          (infix_loop lib tokens_end rec fuel lhs current m w).expr
          (infix_loop lib tokens_end rec fuel lhs current m w).work
  unfolding infix_loop
  infix_loop-Kept rec zero b lhs current m w keeps kept = kept
  infix_loop-Kept rec (suc fuel) b lhs [] m w keeps kept = kept
  infix_loop-Kept rec (suc fuel) b lhs (t ∷ current) m w keeps kept =
      elim (Bool-cases (ended lib tokens_end (t ∷ current))) [
        | inl over ↦ rw over kept
        | inr more ↦ rw more (
            infix_step-Kept rec (λ e ts w'. infix_loop lib tokens_end rec fuel e ts m w')
              (kest_expression_token_infix_type t) b lhs t current m w keeps refl kept
              (λ e ts w' k. infix_loop-Kept rec fuel b e ts m w' keeps k))
      ]
