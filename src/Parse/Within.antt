-- ===== src/Parse/Within.antt =====
-- Where components/parser/kest_expr_parser.c leaves off: never before the tokens that it is given.
use kestrel_interface.Prelude.{
  ℕ, zero, suc, ◌-◌, ◌≤◌, not, ◌||◌, Option, none, some, List, [], ◌∷◌, ◌==◌, length, arith,
  Bool-cases, Option-cases, inl, inr,
}
use kestrel_interface.Token.{token_is_char}
use kestrel_interface.Expr.{MathLibrary, Expression}
use kestrel_interface.Parse.{Work, kest_parser_error_at, kest_expression_token_function_type}
use kestrel_interface.Parse.Pratt.{
  Tokens, Parsing, is_null, next_of, starts_with, Parser, Arguments, ended, bail, behind_argument,
  with_argument, arguments, called, call_by, call_with, kest_parse_expression_function_call,
}

-- What is left of the tokens behind a call, none where it has written nothing.
abbrev pub rest_length : {A : Type 0} → Parsing A → ℕ
rest_length r = length (next_of r.next_token)

module _ (lib : MathLibrary) (tokens_end : ℕ) where
  open lib use {Float}

  abbrev pub Advances : Parser lib tokens_end → Type 0
  Advances rec = (ts : Tokens) (m : ℕ) (w : Work) → rest_length (rec ts m w) ≤ length ts

  -- At most `n` tokens are left.
  ArgumentsWithin : ℕ → Arguments lib tokens_end → Type 0
  ArgumentsWithin n (inl w) = Unit
  ArgumentsWithin n (inr (args, current, w)) = length current ≤ n

  bail-Within :
      (n : ℕ) (args : List (Expression Float)) (w : Work)
      → ArgumentsWithin n (bail lib tokens_end args w)
  unfolding ArgumentsWithin bail
  bail-Within n args w = tt

  inr-Within :
      (n : ℕ) (args : List (Expression Float)) (ts : Tokens) (w : Work)
      → length ts ≤ n
      → ArgumentsWithin n (inr (args, ts, w))
  unfolding ArgumentsWithin
  inr-Within n args ts w h = h

  abbrev AgainWithin :
      ℕ → (List (Expression Float) → Tokens → Work → Arguments lib tokens_end) → Type 0
  AgainWithin n again =
      (args : List (Expression Float)) (ts : Tokens) (w : Work)
      → length ts ≤ n
      → ArgumentsWithin n (again args ts w)

  behind_argument-Within :
      (again : List (Expression Float) → Tokens → Work → Arguments lib tokens_end) (n : ℕ)
      → AgainWithin n again
      → AgainWithin n (behind_argument lib tokens_end again)
  unfolding behind_argument
  behind_argument-Within again n keeps args [] w h = bail-Within n args (kest_parser_error_at w)
  behind_argument-Within again n keeps args (t ∷ current) w h =
      let bailed = bail-Within n args (kest_parser_error_at w) in
      elim (Bool-cases (ended lib tokens_end (t ∷ current))) [
        | inl e ↦ rw e bailed
        | inr e ↦ elim (Bool-cases (token_is_char t b',')) [
          | inl comma ↦
              elim (Bool-cases (ended lib tokens_end current || starts_with b')' current)) [
                | inl e' ↦ rw (e, comma, e') bailed
                | inr e' ↦ rw (e, comma, e') (keeps args current w (omega arith))
              ]
          | inr comma ↦ elim (Bool-cases (token_is_char t b')')) [
            | inl close ↦ rw (e, comma, close) (inr-Within n args (t ∷ current) w h)
            | inr close ↦ rw (e, comma, close) bailed
          ]
        ]
      ]

  arguments-Within :
      (rec : Parser lib tokens_end) (fuel n : ℕ)
      → Advances rec
      → AgainWithin n (arguments lib tokens_end rec fuel)
  unfolding arguments with_argument
  arguments-Within rec zero n keeps args ts w h = bail-Within n args (kest_parser_error_at w)
  arguments-Within rec (suc fuel) n keeps args ts w h =
      let r = rec ts 0 w in
      let bailed = bail-Within n args (kest_parser_error_at w) in
      elim (Bool-cases (ended lib tokens_end ts)) [
        | inl e ↦ rw e bailed
        | inr e ↦ elim (Bool-cases (starts_with b')' ts)) [
          | inl close ↦ rw (e, close) (inr-Within n args ts w h)
          | inr close ↦ elim (Bool-cases (length args == 2)) [
            | inl full ↦ rw (e, close, full) bailed
            | inr full ↦ elim (Bool-cases (is_null r.expr)) [
              | inl none_ ↦ rw (e, close, full, none_) (bail-Within n args r.work)
              | inr one ↦
                  rw (e, close, full, one)
                    (behind_argument-Within (arguments lib tokens_end rec fuel) n
                      (arguments-Within rec fuel n keeps) (r.expr ∷ args) (next_of r.next_token)
                      r.work (omega (arith, keeps ts 0 w)))
            ]
          ]
        ]
      ]

  call_with-Within :
      (name : Option (List ℕ)) (n : ℕ) (out : Arguments lib tokens_end)
      → ArgumentsWithin n out
      → rest_length (call_with lib tokens_end name out) ≤ n
  unfolding call_with call_by called ArgumentsWithin
  call_with-Within name n (inl w) h = omega arith
  call_with-Within name n (inr (args, [], w)) h = omega arith
  call_with-Within name n (inr (args, t ∷ current, w)) h =
      elim (Bool-cases (ended lib tokens_end (t ∷ current) || not (token_is_char t b')'))) [
        | inl e ↦ rw e (omega arith)
        | inr e ↦
            rw e (elim (Option-cases (kest_expression_token_function_type name (length args))) [
              | inl o ↦ rw o (omega arith)
              | inr (type, o) ↦ rw o (omega arith)
            ])
      ]

  pub function_call-Within :
      (rec : Parser lib tokens_end) (ts : Tokens) (w : Work)
      → Advances rec
      → rest_length (kest_parse_expression_function_call lib tokens_end rec ts w) ≤ length ts - 1
  unfolding kest_parse_expression_function_call
  function_call-Within rec [] w keeps = omega arith
  function_call-Within rec (name ∷ []) w keeps = omega arith
  function_call-Within rec (none ∷ open_ ∷ current) w keeps = omega arith
  function_call-Within rec (some name ∷ open_ ∷ current) w keeps =
      let inside =
        call_with-Within (some name) (length current) (arguments lib tokens_end rec 3 [] current w)
          (arguments-Within rec 3 (length current) keeps [] current w (omega arith)) in
      elim (Bool-cases (token_is_char open_ b'(')) [
        | inr e ↦ rw e (omega arith)
        | inl e ↦ elim (Bool-cases (ended lib tokens_end current)) [
          | inl over ↦ rw (e, over) (omega arith)
          | inr more ↦ rw (e, more) (omega (arith, inside))
        ]
      ]
