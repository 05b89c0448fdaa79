-- ===== src/Parse/Calls.antt =====
-- kest_parse_expression_function_call of components/parser/kest_expr_parser.c and the blocks.
use kestrel_interface.Prelude.{
  ℕ, ◌+◌, ◌≡◌, refl, not, ◌||◌, Option, none, some, List, [], ◌∷◌, length, subst, arith, All,
  Bool-cases, inl, inr,
}
use kestrel_interface.Token.{token_is_char}
use kestrel_interface.Expr.{MathLibrary, ExprType, Expression}
use kestrel_interface.Parse.{
  Work, kest_parser_error_at, kest_expression_token_function_type, kest_expr_new_unary,
  kest_expr_new_binary,
}
use kestrel_interface.Parse.Pratt.{
  Tokens, Parser, Arguments, ended, free_all, arguments, new_call, called, call_by, call_with,
  kest_parse_expression_function_call,
}
use kestrel_interface.Parse.Freed.{
  blocks, Fresh, Built, token_unary_type-IsUnary, token_binary_type-IsBinary, new_unary-Built,
  new_binary-Built,
}
use kestrel_interface.Parse.Kept.{
  Kept, Keeps, KeptArguments, total, null-Kept, free_all-live, arguments-Kept,
}

module _ (lib : MathLibrary) (tokens_end : ℕ) where
  open lib use {Float}

  -- A node on top of the arguments' blocks, or NULL.
  new_call-Built :
      (name : Option (List ℕ)) (args : List (Expression Float)) (type : ExprType) (w : Work)
      → kest_expression_token_function_type name (length args) ≡ some type
      → All Fresh args
      → Built lib w (total args) (new_call lib tokens_end type args w)
  unfolding new_call total blocks kest_expression_token_function_type
  new_call-Built name [] type w h fresh = record { fresh = _; size = refl; live = omega arith }
  new_call-Built name (x ∷ []) type w h (fresh, _) =
      subst (λ k. Built lib w k (kest_expr_new_unary lib type x w)) (omega arith)
        (new_unary-Built lib type x w (token_unary_type-IsUnary name type h) fresh)
  new_call-Built name (y ∷ x ∷ []) type w h (fresh_y, (fresh_x, _)) =
      subst (λ k. Built lib w k (kest_expr_new_binary lib type x y w)) (omega arith)
        (new_binary-Built lib type x y w (token_binary_type-IsBinary name type h) fresh_x fresh_y)
  new_call-Built name (z ∷ y ∷ x ∷ args) type w h fresh = record {
    fresh = _;
    size = refl;
    live = omega arith;
  }

  -- A node on top of `k` blocks, or NULL with those blocks still there.
  called-Kept :
      (b : ℕ) (args : List (Expression Float)) (current : Tokens) (w : Work)
      (r : Expression Float × Work)
      → All Fresh args
      → w.live ≡ b + total args
      → Built lib w (total args) r
      → Kept b
          (called lib tokens_end args current r).expr
          (called lib tokens_end args current r).work
  unfolding called
  called-Kept b args current w r fresh live built = record {
    fresh = built.fresh;
    live = ground (arith, built.live, built.size, free_all-live lib tokens_end args r.1 fresh);
  }

  call_by-Kept :
      (name : Option (List ℕ)) (o : Option ExprType) (b : ℕ) (args : List (Expression Float))
      (current : Tokens) (w : Work)
      → kest_expression_token_function_type name (length args) ≡ o
      → All Fresh args
      → w.live ≡ b + total args
      → Kept b
          (call_by lib tokens_end o args current w).expr
          (call_by lib tokens_end o args current w).work
  unfolding call_by kest_parser_error_at new_call total
  call_by-Kept name none b args current w h fresh live =
      null-Kept lib tokens_end b (free_all lib tokens_end args (kest_parser_error_at w))
        (omega (arith, free_all-live lib tokens_end args (kest_parser_error_at w) fresh))
  call_by-Kept name (some type) b args current w h fresh live =
      called-Kept b args current w (new_call lib tokens_end type args w) fresh live
        (new_call-Built name args type w h fresh)

  call_with-Kept :
      (name : Option (List ℕ)) (b : ℕ) (out : Arguments lib tokens_end)
      → KeptArguments lib tokens_end b out
      → Kept b (call_with lib tokens_end name out).expr (call_with lib tokens_end name out).work
  unfolding call_with KeptArguments kest_parser_error_at
  call_with-Kept name b (inl w) live = null-Kept lib tokens_end b w live
  call_with-Kept name b (inr (args, [], w)) (fresh, live) =
      null-Kept lib tokens_end b (free_all lib tokens_end args (kest_parser_error_at w))
        (omega (arith, free_all-live lib tokens_end args (kest_parser_error_at w) fresh))
  call_with-Kept name b (inr (args, t ∷ current, w)) (fresh, live) =
      elim (Bool-cases (ended lib tokens_end (t ∷ current) || not (token_is_char t b')'))) [
        | inl e ↦ rw e (
            null-Kept lib tokens_end b (free_all lib tokens_end args (kest_parser_error_at w))
              (omega (arith, free_all-live lib tokens_end args (kest_parser_error_at w) fresh)))
        | inr e ↦ rw e (
            call_by-Kept name (kest_expression_token_function_type name (length args)) b args
              current w refl fresh live)
      ]

  pub function_call-Kept :
      (rec : Parser lib tokens_end) (tokens : Tokens) (w : Work)
      → Keeps lib tokens_end rec
      → Kept w.live
          (kest_parse_expression_function_call lib tokens_end rec tokens w).expr
          (kest_parse_expression_function_call lib tokens_end rec tokens w).work
  unfolding kest_parse_expression_function_call kest_parser_error_at total
  function_call-Kept rec [] w keeps = null-Kept lib tokens_end w.live w refl
  function_call-Kept rec (name ∷ []) w keeps = null-Kept lib tokens_end w.live w refl
  function_call-Kept rec (none ∷ open_ ∷ current) w keeps = null-Kept lib tokens_end w.live w refl
  function_call-Kept rec (some name ∷ open_ ∷ current) w keeps =
      elim (Bool-cases (token_is_char open_ b'(')) [
        | inr e ↦ rw e (null-Kept lib tokens_end w.live w refl)
        | inl e ↦ elim (Bool-cases (ended lib tokens_end current)) [
          | inl over ↦ rw (e, over) (null-Kept lib tokens_end w.live (kest_parser_error_at w) refl)
          | inr more ↦
              rw (e, more)
                (call_with-Kept (some name) w.live (arguments lib tokens_end rec 3 [] current w)
                  (arguments-Kept lib tokens_end rec 3 keeps w.live [] current w _ (omega arith)))
        ]
      ]
