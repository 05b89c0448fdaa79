-- ===== src/Tests/Parsed.antt =====
-- Runs of the theorems on the parser of expressions.
use kestrel_interface.Prelude.{
  ℕ, ◌+◌, ◌≡◌, ◌≤◌, length, refl, true, ltb, some, [], ◌∷◌, ◌++◌, arith,
}
use kestrel_interface.Tests.Data.{whole}
use kestrel_interface.Expr.{Expression, rec_max_depth, expr_max, kest_expression_detect_constants}
use kestrel_interface.Token.{
  token_is_name, token_is_number, name_loop, number_loop, in_array, char_is_letter, token_is_char,
}
use kestrel_interface.Parse.{
  Work, kest_expression_token_unary_type, kest_expression_token_binary_function_type,
  kest_expression_token_infix_type, kest_free_parsed_expression,
}
use kestrel_interface.Parse.Pratt.{
  Tokens, infix_loop, kest_parse_expression_rec_pratt, kest_parse_expression,
}
use kestrel_interface.Parse.Within.{rest_length}
use kestrel_interface.Parse.Enough.{rec_pratt-enough}
use kestrel_interface.Parse.Freed.{blocks}
use kestrel_interface.Parse.Balanced.{kest_parse_expression-balanced}
use kestrel_interface.Parse.Written.{
  Term, number, name, negative, infix_of, call_2, plus, minus, times, power, term_tokens, nesting,
  tree,
}
use kestrel_interface.Parse.RoundTrip.{kest_parse_expression-term_tokens}

-- `max(x, -y^2) - 2 * (z + 3)`
abbrev a_term : Term
a_term =
    infix_of minus
      (call_2 (b'm' ∷ b'a' ∷ b'x' ∷ []) expr_max (name (b'x' ∷ []))
        (negative (infix_of power (name (b'y' ∷ [])) (number (b'2' ∷ [])))))
      (infix_of times (number (b'2' ∷ [])) (infix_of plus (name (b'z' ∷ [])) (number (b'3' ∷ []))))

abbrev a_rest : Tokens
a_rest = some (b';' ∷ []) ∷ []

-- Every request is granted, or only the first few.
abbrev a_work : Work
a_work = record { grants = λ i. true; asked = 0; live = 5; errors = 2 }

abbrev a_small_work : Work
a_small_work = record { grants = λ i. ltb i 4; asked = 0; live = 5; errors = 0 }

kest_parse_expression-term_tokens_example :
    (w' : Work) × (kest_parse_expression whole 1 (term_tokens a_term ++ a_rest) a_work
      ≡ ((kest_expression_detect_constants (tree whole a_term)).1, a_rest, w'))
    × (w'.errors ≡ a_work.errors)
unfolding nesting token_is_name token_is_number name_loop number_loop in_array char_is_letter
    kest_expression_token_unary_type kest_expression_token_binary_function_type token_is_char
    kest_expression_token_infix_type
kest_parse_expression-term_tokens_example =
    kest_parse_expression-term_tokens whole 1 a_term a_rest a_work
      ((refl, refl, (refl, refl), ((refl, refl), refl)), (refl, ((refl, refl), refl))) (omega arith)
      (refl, λ more type h. cc) (omega arith) (λ i. refl)

kest_parse_expression-balanced_example :
    (e : Expression ℕ) × (current : Tokens) × (w' : Work) × (kest_parse_expression whole 1
        (term_tokens a_term ++ a_rest)
        a_small_work
      ≡ (e, current, w'))
    × (w'.live ≡ a_small_work.live + blocks e)
    × ((kest_free_parsed_expression whole e w').live ≡ a_small_work.live)
kest_parse_expression-balanced_example =
    kest_parse_expression-balanced whole 1 (term_tokens a_term ++ a_rest) a_small_work

-- `-x^2` is the negation of the square.
abbrev a_square : Tokens
a_square = some (b'-' ∷ []) ∷ some (b'x' ∷ []) ∷ some (b'^' ∷ []) ∷ some (b'2' ∷ []) ∷ []

square_tokens :
    term_tokens (negative (infix_of power (name (b'x' ∷ [])) (number (b'2' ∷ [])))) ≡ a_square
unfolding term_tokens
square_tokens = refl

rec_pratt-enough_example :
    (kest_parse_expression_rec_pratt whole 1 (7 + (rec_max_depth + 2)) 0 a_square 0 a_work
      ≡ kest_parse_expression_rec_pratt whole 1 (rec_max_depth + 2) 0 a_square 0 a_work)
    × ((levels depth : ℕ) (lhs : Expression ℕ)
        → infix_loop whole 1
            (kest_parse_expression_rec_pratt whole 1 levels depth)
            (7 + length a_square)
            lhs
            a_square
            0
            a_work
          ≡ infix_loop whole 1
              (kest_parse_expression_rec_pratt whole 1 levels depth)
              (length a_square)
              lhs
              a_square
              0
              a_work)
    × ((levels depth : ℕ)
        → rest_length (kest_parse_expression_rec_pratt whole 1 levels depth a_square 0 a_work)
          ≤ length a_square)
rec_pratt-enough_example = rec_pratt-enough whole 1 7 a_square 0 a_work
