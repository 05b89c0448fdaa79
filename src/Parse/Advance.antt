-- ===== src/Parse/Advance.antt =====
-- The operators and operands of components/parser/kest_expr_parser.c: a call never leaves off before
-- the tokens that it is given.
use kestrel_interface.Prelude.{
  ℕ, zero, suc, drop, ◌+◌, ◌≤◌, ◌&&◌, Option, none, some, List, [], ◌∷◌, ltb, length, arith,
  Bool-cases, Option-cases, inl, inr,
}
use kestrel_interface.Token.{token_is_char, token_is_number, token_is_name}
use kestrel_interface.Expr.{MathLibrary, ExprType, Expression, rec_max_depth}
use kestrel_interface.Parse.{
  Work, kest_expression_token_unary_type, kest_expression_token_infix_type,
  kest_expression_infix_operator_precedence, kest_expression_infix_associativity,
  kest_expr_new_const, kest_expr_new_unary, kest_expr_new_binary, token_to_float, unary_precedence,
}
use kestrel_interface.Parse.Pratt.{
  Tokens, Parsing, is_null, next_of, starts_with, Parser, Primary, ended,
  kest_parse_expression_function_call, behind_operand, infix_step, infix_loop, unless_null,
  in_brackets, from_call, negated, by_unary_type, primary, behind_primary,
  kest_parse_expression_rec_pratt,
}
use kestrel_interface.Parse.Within.{rest_length, Advances, function_call-Within}

module _ (lib : MathLibrary) (tokens_end : ℕ) where
  open lib use {Float}

  behind_operand-Within :
      (again : Expression Float → Tokens → Work → Parsing Float) (type : ExprType)
      (lhs : Expression Float) (r : Parsing Float) (n : ℕ)
      → rest_length r ≤ n
      → ((e : Expression Float) (ts : Tokens) (w : Work) → rest_length (again e ts w) ≤ length ts)
      → rest_length (behind_operand lib tokens_end again type lhs r) ≤ n
  unfolding behind_operand
  behind_operand-Within again type lhs r n h keeps =
      let bin = kest_expr_new_binary lib type lhs r.expr r.work in
      elim (Bool-cases (is_null r.expr)) [
        | inl e ↦ rw e (omega arith)
        | inr e ↦ elim (Bool-cases (is_null bin.0)) [
          | inl refused ↦ rw (e, refused) (omega arith)
          | inr granted ↦ rw (e, granted) (omega (arith, keeps bin.0 (next_of r.next_token) bin.1))
        ]
      ]

  pub infix_loop-Within :
      (rec : Parser lib tokens_end) (fuel : ℕ) (lhs : Expression Float) (ts : Tokens) (m : ℕ)
      (w : Work)
      → Advances lib tokens_end rec
      → rest_length (infix_loop lib tokens_end rec fuel lhs ts m w) ≤ length ts
  unfolding infix_loop infix_step
  infix_loop-Within rec zero lhs ts m w keeps = omega arith
  infix_loop-Within rec (suc fuel) lhs [] m w keeps = omega arith
  infix_loop-Within rec (suc fuel) lhs (t ∷ ts) m w keeps =
      elim (Bool-cases (ended lib tokens_end (t ∷ ts))) [
        | inl over ↦ rw over (omega arith)
        | inr more ↦ elim (Option-cases (kest_expression_token_infix_type t)) [
          | inl other ↦ rw (more, other) (omega arith)
          | inr (type, found) ↦
              elim (Bool-cases (ltb (kest_expression_infix_operator_precedence type) m)) [
                | inl below ↦ rw (more, found, below) (omega arith)
                | inr above ↦
                    let power : ℕ =
                      kest_expression_infix_operator_precedence type
                      + kest_expression_infix_associativity type in
                    rw (more, found, above)
                      (behind_operand-Within
                        (λ e us w'. infix_loop lib tokens_end rec fuel e us m w') type lhs
                        (rec ts power w) (suc (length ts)) (omega (arith, keeps ts power w))
                        (λ e us w'. infix_loop-Within rec fuel e us m w' keeps))
              ]
        ]
      ]

  -- At most `n` tokens are left behind what stands first.
  PrimaryWithin : ℕ → Primary lib tokens_end → Type 0
  PrimaryWithin n (inl w) = Unit
  PrimaryWithin n (inr (lhs, current, w)) = length current ≤ n

  from_call-Within :
      (r : Parsing Float) (n : ℕ) → rest_length r ≤ n → PrimaryWithin n (from_call lib tokens_end r)
  unfolding from_call PrimaryWithin
  from_call-Within r n h = elim (Bool-cases (is_null r.expr)) [ inl e ↦ rw e tt | inr e ↦ rw e h ]

  length-drop_one : (ts : Tokens) → length (drop 1 ts) ≤ length ts
  length-drop_one [] = omega arith
  length-drop_one (t ∷ ts) = omega arith

  in_brackets-Within :
      (r : Parsing Float) (n : ℕ)
      → rest_length r ≤ n
      → PrimaryWithin n (in_brackets lib tokens_end r)
  unfolding in_brackets PrimaryWithin
  in_brackets-Within r n h = elim (Bool-cases (is_null r.expr)) [
    | inl e ↦ rw e tt
    | inr e ↦ elim (Bool-cases (starts_with b')' (next_of r.next_token))) [
      | inl close ↦ rw (e, close) (omega (arith, length-drop_one (next_of r.next_token)))
      | inr open_ ↦ rw (e, open_) tt
    ]
  ]

  negated-Within :
      (type : ExprType) (r : Parsing Float) (n : ℕ)
      → rest_length r ≤ n
      → PrimaryWithin n (negated lib tokens_end type r)
  unfolding negated PrimaryWithin
  negated-Within type r n h = elim (Bool-cases (is_null r.expr)) [
    | inl e ↦ rw e tt
    | inr e ↦ elim (Bool-cases (is_null (kest_expr_new_unary lib type r.expr r.work).0)) [
      | inl refused ↦ rw (e, refused) tt
      | inr granted ↦ rw (e, granted) h
    ]
  ]

  by_unary_type-Within :
      (rec : Parser lib tokens_end) (o : Option ExprType) (t : Option (List ℕ)) (rest : Tokens)
      (w : Work)
      → Advances lib tokens_end rec
      → PrimaryWithin (length rest) (by_unary_type lib tokens_end rec o t rest w)
  unfolding by_unary_type PrimaryWithin
  by_unary_type-Within rec (some type) t rest w keeps =
      negated-Within type (rec rest unary_precedence w) (length rest)
        (keeps rest unary_precedence w)
  by_unary_type-Within rec none t rest w keeps = elim (Bool-cases (token_is_name t)) [
    | inl e ↦ rw e (omega arith)
    | inr e ↦ rw e tt
  ]

  unless_null-Within :
      (rest : Tokens) (r : Expression Float × Work)
      → PrimaryWithin (length rest) (unless_null lib tokens_end rest r)
  unfolding unless_null PrimaryWithin
  unless_null-Within rest r = elim (Bool-cases (is_null r.0)) [
    | inl e ↦ rw e tt
    | inr e ↦ rw e (omega arith)
  ]

  primary-Within :
      (rec rec_argument : Parser lib tokens_end) (t : Option (List ℕ)) (rest : Tokens) (w : Work)
      → Advances lib tokens_end rec
      → Advances lib tokens_end rec_argument
      → PrimaryWithin (length rest) (primary lib tokens_end rec rec_argument t rest w)
  unfolding primary
  primary-Within rec rec_argument t rest w keeps keeps_argument =
      elim (Bool-cases (token_is_number t)) [
        | inl e ↦ rw e (unless_null-Within rest (kest_expr_new_const lib (token_to_float lib t) w))
        | inr e ↦ elim (Bool-cases (token_is_char t b'(')) [
          | inl bracket ↦
              rw (e, bracket) (in_brackets-Within (rec rest 0 w) (length rest) (keeps rest 0 w))
          | inr bracket ↦ elim (Bool-cases (token_is_name t && starts_with b'(' rest)) [
            | inl call ↦
                rw (e, bracket, call)
                  (from_call-Within
                    (kest_parse_expression_function_call lib tokens_end rec_argument (t ∷ rest) w)
                    (length rest)
                    (omega (
                      arith,
                      function_call-Within lib tokens_end rec_argument (t ∷ rest) w keeps_argument,
                    )))
            | inr call ↦
                rw (e, bracket, call)
                  (by_unary_type-Within rec (kest_expression_token_unary_type t) t rest w keeps)
          ]
        ]
      ]

  behind_primary-Within :
      (rec : Parser lib tokens_end) (fuel m n : ℕ) (out : Primary lib tokens_end)
      → Advances lib tokens_end rec
      → PrimaryWithin n out
      → rest_length (behind_primary lib tokens_end rec fuel m out) ≤ n
  unfolding behind_primary PrimaryWithin
  behind_primary-Within rec fuel m n (inl w) keeps h = omega arith
  behind_primary-Within rec fuel m n (inr (lhs, current, w)) keeps h =
      omega (arith, infix_loop-Within rec fuel lhs current m w keeps)

  pub rec_pratt-Advances :
      (levels depth : ℕ)
      → Advances lib tokens_end (kest_parse_expression_rec_pratt lib tokens_end levels depth)
  unfolding kest_parse_expression_rec_pratt
  rec_pratt-Advances zero depth ts m w = omega arith
  rec_pratt-Advances (suc levels) depth [] m w = omega arith
  rec_pratt-Advances (suc levels) depth (none ∷ rest) m w = omega arith
  rec_pratt-Advances (suc levels) depth (some token ∷ rest) m w =
      let rec = kest_parse_expression_rec_pratt lib tokens_end levels (depth + 1) in
      let rec_argument = kest_parse_expression_rec_pratt lib tokens_end levels (depth + 2) in
      elim (Bool-cases (ltb rec_max_depth depth)) [
        | inl deep ↦ rw deep (omega arith)
        | inr fits ↦ rw fits (
            omega (
              arith,
              behind_primary-Within rec (suc (length rest)) m (length rest)
                  (primary lib tokens_end rec rec_argument (some token) rest w)
                  (rec_pratt-Advances levels (depth + 1))
                  (primary-Within rec rec_argument (some token) rest w
                    (rec_pratt-Advances levels (depth + 1))
                    (rec_pratt-Advances levels (depth + 2))),
            ))
      ]
