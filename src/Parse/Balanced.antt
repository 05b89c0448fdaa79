-- ===== src/Parse/Balanced.antt =====
-- No run of the parser of components/parser/kest_expr_parser.c leaks a block.
use kestrel_interface.Prelude.{
  ℕ, zero, suc, ◌+◌, ◌≡◌, refl, ◌&&◌, Option, none, some, List, [], ◌∷◌, ltb, length, arith,
  Bool-cases, inl, inr,
}
use kestrel_interface.Token.{token_is_char, token_is_number, token_is_name}
use kestrel_interface.Expr.{
  MathLibrary, ExprType, Expression, rec_max_depth, kest_expression_detect_constants,
}
use kestrel_interface.Parse.{
  Work, kest_parser_error_at, kest_expression_token_unary_type, kest_expr_new_const,
  kest_expr_new_unary, kest_free_parsed_expression, token_to_float, unary_precedence,
}
use kestrel_interface.Parse.Pratt.{
  Tokens, is_null, next_of, starts_with, Parser, Primary, kest_parse_expression_function_call,
  unless_null, in_brackets, from_call, negated, by_unary_type, primary, behind_primary,
  kest_parse_expression_rec_pratt, published, kest_parse_expression,
}
use kestrel_interface.Parse.Freed.{
  blocks, IsUnary, token_unary_type-IsUnary, free_parsed-live, detect_constants-SameBlocks,
  new_const-Built, new_reference-Fresh, new_unary-Built,
}
use kestrel_interface.Parse.Kept.{Kept, Keeps, null-Kept, is_null-blocks, Result}
use kestrel_interface.Parse.Calls.{function_call-Kept}
use kestrel_interface.Parse.Operands.{infix_loop-Kept}

module _ (lib : MathLibrary) (tokens_end : ℕ) where
  open lib use {Float}

  -- What the part before the loop leaves, above `b` blocks.
  KeptPrimary : ℕ → Primary lib tokens_end → Type 0
  KeptPrimary b (inl w) = w.live ≡ b
  KeptPrimary b (inr (lhs, current, w)) = Kept b lhs w

  in_brackets-Kept :
      (b : ℕ) (r : Result lib tokens_end)
      → Kept b r.expr r.work
      → KeptPrimary b (in_brackets lib tokens_end r)
  unfolding in_brackets KeptPrimary kest_parser_error_at
  in_brackets-Kept b r kept = elim (Bool-cases (is_null r.expr)) [
    | inl e ↦ rw e (omega (arith, kept.live, is_null-blocks lib tokens_end r.expr e))
    | inr e ↦ elim (Bool-cases (starts_with b')' (next_of r.next_token))) [
      | inl close ↦ rw (e, close) (record { fresh = kept.fresh; live = kept.live })
      | inr open_ ↦
          rw (e, open_)
            (omega (
              arith,
              kept.live,
              free_parsed-live lib r.expr (kest_parser_error_at r.work) kept.fresh,
            ))
    ]
  ]

  from_call-Kept :
      (b : ℕ) (r : Result lib tokens_end)
      → Kept b r.expr r.work
      → KeptPrimary b (from_call lib tokens_end r)
  unfolding from_call KeptPrimary
  from_call-Kept b r kept = elim (Bool-cases (is_null r.expr)) [
    | inl e ↦ rw e (omega (arith, kept.live, is_null-blocks lib tokens_end r.expr e))
    | inr e ↦ rw e kept
  ]

  negated-Kept :
      (b : ℕ) (type : ExprType) (r : Result lib tokens_end)
      → IsUnary type
      → Kept b r.expr r.work
      → KeptPrimary b (negated lib tokens_end type r)
  unfolding negated KeptPrimary
  negated-Kept b type r kind kept =
      let lhs = kest_expr_new_unary lib type r.expr r.work in
      let built = new_unary-Built lib type r.expr r.work kind kept.fresh in
      elim (Bool-cases (is_null r.expr)) [
        | inl e ↦ rw e (omega (arith, kept.live, is_null-blocks lib tokens_end r.expr e))
        | inr e ↦ elim (Bool-cases (is_null lhs.0)) [
          | inl refused ↦
              rw (e, refused)
                (ground
                  (arith, kept.live, built.live, free_parsed-live lib r.expr lhs.1 kept.fresh))
          | inr granted ↦
              rw (e, granted)
                (record {
                  fresh = built.fresh;
                  live = ground (arith, kept.live, built.live, built.size);
                })
        ]
      ]

  by_unary_type-Kept :
      (rec : Parser lib tokens_end) (o : Option ExprType) (t : Option (List ℕ)) (rest : Tokens)
      (w : Work)
      → Keeps lib tokens_end rec
      → kest_expression_token_unary_type t ≡ o
      → KeptPrimary w.live (by_unary_type lib tokens_end rec o t rest w)
  unfolding by_unary_type KeptPrimary kest_parser_error_at
  by_unary_type-Kept rec (some type) t rest w keeps h =
      negated-Kept w.live type (rec rest unary_precedence w) (token_unary_type-IsUnary t type h)
        (keeps rest unary_precedence w)
  by_unary_type-Kept rec none t rest w keeps h = elim (Bool-cases (token_is_name t)) [
    | inl e ↦
        rw e (record {
          fresh = (new_reference-Fresh lib t w).0;
          live = (new_reference-Fresh lib t w).1;
        })
    | inr e ↦ rw e refl
  ]

  unless_null-Kept :
      (b : ℕ) (rest : Tokens) (r : Expression Float × Work)
      → Kept b r.0 r.1
      → KeptPrimary b (unless_null lib tokens_end rest r)
  unfolding unless_null KeptPrimary
  unless_null-Kept b rest r kept = elim (Bool-cases (is_null r.0)) [
    | inl e ↦ rw e (omega (arith, kept.live, is_null-blocks lib tokens_end r.0 e))
    | inr e ↦ rw e kept
  ]

  primary-Kept :
      (rec rec_argument : Parser lib tokens_end) (t : Option (List ℕ)) (rest : Tokens) (w : Work)
      → Keeps lib tokens_end rec
      → Keeps lib tokens_end rec_argument
      → KeptPrimary w.live (primary lib tokens_end rec rec_argument t rest w)
  unfolding primary
  primary-Kept rec rec_argument t rest w keeps keeps_argument =
      let number = kest_expr_new_const lib (token_to_float lib t) w in
      let built = new_const-Built lib (token_to_float lib t) w in
      elim (Bool-cases (token_is_number t)) [
        | inl e ↦ rw e (
            unless_null-Kept w.live rest number
              (record { fresh = built.fresh; live = ground (arith, built.live, built.size) }))
        | inr e ↦ elim (Bool-cases (token_is_char t b'(')) [
          | inl bracket ↦ rw (e, bracket) (in_brackets-Kept w.live (rec rest 0 w) (keeps rest 0 w))
          | inr bracket ↦ elim (Bool-cases (token_is_name t && starts_with b'(' rest)) [
            | inl call ↦
                rw (e, bracket, call)
                  (from_call-Kept w.live
                    (kest_parse_expression_function_call lib tokens_end rec_argument (t ∷ rest) w)
                    (function_call-Kept lib tokens_end rec_argument (t ∷ rest) w keeps_argument))
            | inr call ↦
                rw (e, bracket, call)
                  (by_unary_type-Kept rec (kest_expression_token_unary_type t) t rest w keeps refl)
          ]
        ]
      ]

  behind_primary-Kept :
      (rec : Parser lib tokens_end) (fuel m b : ℕ) (out : Primary lib tokens_end)
      → Keeps lib tokens_end rec
      → KeptPrimary b out
      → Kept b
          (behind_primary lib tokens_end rec fuel m out).expr
          (behind_primary lib tokens_end rec fuel m out).work
  unfolding behind_primary KeptPrimary
  behind_primary-Kept rec fuel m b (inl w) keeps live = null-Kept lib tokens_end b w live
  behind_primary-Kept rec fuel m b (inr (lhs, current, w)) keeps kept =
      infix_loop-Kept lib tokens_end rec fuel b lhs current m w keeps kept

  rec_pratt-Kept :
      (levels depth : ℕ)
      → Keeps lib tokens_end (kest_parse_expression_rec_pratt lib tokens_end levels depth)
  unfolding kest_parse_expression_rec_pratt kest_parser_error_at
  rec_pratt-Kept zero depth tokens m w =
      null-Kept lib tokens_end w.live (kest_parser_error_at w) refl
  rec_pratt-Kept (suc levels) depth [] m w = null-Kept lib tokens_end w.live w refl
  rec_pratt-Kept (suc levels) depth (none ∷ rest) m w = null-Kept lib tokens_end w.live w refl
  rec_pratt-Kept (suc levels) depth (some token ∷ rest) m w =
      let rec = kest_parse_expression_rec_pratt lib tokens_end levels (depth + 1) in
      let rec_argument = kest_parse_expression_rec_pratt lib tokens_end levels (depth + 2) in
      elim (Bool-cases (ltb rec_max_depth depth)) [
        | inl deep ↦ rw deep (null-Kept lib tokens_end w.live (kest_parser_error_at w) refl)
        | inr fits ↦ rw fits (
            behind_primary-Kept rec (suc (length rest)) m w.live
              (primary lib tokens_end rec rec_argument (some token) rest w)
              (rec_pratt-Kept levels (depth + 1))
              (primary-Kept rec rec_argument (some token) rest w (rec_pratt-Kept levels (depth + 1))
                (rec_pratt-Kept levels (depth + 2))))
      ]

  -- Whatever the tokens are, and whichever requests for memory are refused: behind the call, what
  -- is allocated in addition are the nodes and names of the expression that it returns, nothing for
  -- NULL, and freeing that expression leaves as many blocks as there were.
  pub kest_parse_expression-balanced :
      (tokens : Tokens) (w : Work)
      → (e : Expression Float) × (current : Tokens) × (w' : Work) × (kest_parse_expression lib
            tokens_end tokens w
          ≡ (e, current, w'))
        × (w'.live ≡ w.live + blocks e)
        × ((kest_free_parsed_expression lib e w').live ≡ w.live)
  unfolding kest_parse_expression published kest_expression_detect_constants
  kest_parse_expression-balanced tokens w =
      let r = kest_parse_expression_rec_pratt lib tokens_end (rec_max_depth + 2) 0 tokens 0 w in
      let kept = rec_pratt-Kept (rec_max_depth + 2) 0 tokens 0 w in
      let (e, current, w') = published lib tokens_end r tokens in
      let (same_blocks, fresh) = detect_constants-SameBlocks lib r.expr 0 kept.fresh in
      (
        e,
        current,
        w',
        refl,
        omega (arith, kept.live, same_blocks),
        omega (arith, kept.live, same_blocks, free_parsed-live lib e w' fresh),
      )
