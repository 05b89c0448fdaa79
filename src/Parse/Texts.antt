-- ===== src/Parse/Texts.antt =====
-- Which tests of components/parser/kest_tokenizer.c the texts of written expressions pass.
use kestrel_interface.Prelude.{
  ℕ, ◌+◌, ◌<◌, ◌≤◌, ◌≡◌, refl, Bool, true, false, some, List, [], ◌∷◌, ◌++◌, ltb, arith,
  append_assoc, ap, ◌∙◌,
}
use kestrel_interface.Token.{
  token_is_char, token_is_number, token_is_name, name_loop, in_array, char_is_letter,
}
use kestrel_interface.Parse.{
  kest_expression_token_infix_type, kest_expression_infix_operator_precedence,
  kest_expression_infix_associativity,
}
use kestrel_interface.Parse.Written.{
  Infix, plus, minus, times, over, power, Term, number, name, negative, infix_of, call_1, call_2,
  symbol, type_of, strength, right_of, left_of, level, tail, bracketed, tokens_at, term_tokens,
  IsTerm,
}
use kestrel_interface.Parse.Pratt.{Tokens, starts_with}

-- A bracket or a comma: none of them is in a name or a number.
abbrev pub IsMark : ℕ → Type 0
IsMark c = (39 < c) × (c < 45)

pub name-not_char :
    (n : List ℕ) (c : ℕ)
    → IsMark c
    → token_is_name (some n) ≡ true
    → token_is_char (some n) c ≡ false
unfolding token_is_name token_is_char name_loop char_is_letter
name-not_char [] c mark h = cc
name-not_char (x ∷ xs) c mark h = ground arith

pub number-not_char :
    (n : List ℕ) (c : ℕ)
    → IsMark c
    → token_is_number (some n) ≡ true
    → token_is_char (some n) c ≡ false
unfolding token_is_number token_is_char in_array
number-not_char [] c mark h = ground arith
number-not_char (x ∷ xs) c mark h = ground arith

pub name-not_number :
    (n : List ℕ) → token_is_name (some n) ≡ true → token_is_number (some n) ≡ false
unfolding token_is_name token_is_number name_loop char_is_letter in_array
name-not_number [] h = cc
name-not_number (x ∷ xs) h = ground arith

pub symbol-type :
    (op : Infix) → kest_expression_token_infix_type (some (symbol op)) ≡ some (type_of op)
unfolding kest_expression_token_infix_type
symbol-type plus = refl
symbol-type minus = refl
symbol-type times = refl
symbol-type over = refl
symbol-type power = refl

pub symbol-precedence :
    (op : Infix) → kest_expression_infix_operator_precedence (type_of op) ≡ strength op
unfolding kest_expression_infix_operator_precedence
symbol-precedence plus = refl
symbol-precedence minus = refl
symbol-precedence times = refl
symbol-precedence over = refl
symbol-precedence power = refl

pub symbol-right :
    (op : Infix)
    → kest_expression_infix_operator_precedence (type_of op)
        + kest_expression_infix_associativity (type_of op)
      ≡ right_of op
unfolding kest_expression_infix_operator_precedence kest_expression_infix_associativity
symbol-right plus = refl
symbol-right minus = refl
symbol-right times = refl
symbol-right over = refl
symbol-right power = refl

starts-bracketed :
    (b : Bool) (ts rest : Tokens)
    → starts_with b')' (ts ++ rest) ≡ false
    → starts_with b')' (bracketed b ts ++ rest) ≡ false
unfolding starts_with token_is_char
starts-bracketed true ts rest h = refl
starts-bracketed false ts rest h = h

-- No term begins with the closing bracket.
pub starts-term_tokens :
    (t : Term) (rest : Tokens) → IsTerm t → starts_with b')' (term_tokens t ++ rest) ≡ false
unfolding term_tokens starts_with token_is_char
starts-term_tokens (number digits) rest h = number-not_char digits b')' (omega arith, omega arith) h
starts-term_tokens (name n) rest (h, _) = name-not_char n b')' (omega arith, omega arith) h
starts-term_tokens (negative t) rest h = refl
starts-term_tokens (infix_of op s t) rest (h, _) =
    ap (starts_with b')')
      (append_assoc (tokens_at (left_of op) s) (some (symbol op) ∷ tokens_at (right_of op) t) rest)
    ∙ starts-bracketed (ltb (level s) (left_of op)) (term_tokens s)
        (some (symbol op) ∷ tokens_at (right_of op) t ++ rest)
        (starts-term_tokens s (some (symbol op) ∷ tokens_at (right_of op) t ++ rest) h)
starts-term_tokens (call_1 f type t) rest h = name-not_char f b')' (omega arith, omega arith) h.0
starts-term_tokens (call_2 f type s t) rest h = name-not_char f b')' (omega arith, omega arith) h.0

pub symbol-not_bracket : (op : Infix) → token_is_char (some (symbol op)) b'(' ≡ false
unfolding token_is_char
symbol-not_bracket plus = refl
symbol-not_bracket minus = refl
symbol-not_bracket times = refl
symbol-not_bracket over = refl
symbol-not_bracket power = refl

pub strength-le-left : (op : Infix) → strength op ≤ left_of op
strength-le-left plus = omega arith
strength-le-left _ = omega arith

strength-lt-right : (op op' : Infix) → left_of op ≤ strength op' → strength op < right_of op'
strength-lt-right plus plus h = omega arith
strength-lt-right minus plus h = omega arith
strength-lt-right times plus h = omega arith
strength-lt-right over plus h = omega arith
strength-lt-right power plus h = omega arith
strength-lt-right _ _ h = omega arith

strength-lt-minus : (op : Infix) → left_of op ≤ 30 → strength op < 30
strength-lt-minus plus h = omega arith
strength-lt-minus _ h = omega arith

strength-lt-top : (op : Infix) → strength op < 100
strength-lt-top plus = omega arith
strength-lt-top _ = omega arith

-- An operator does not go on a bare term on its left.
pub strength-lt-tail : (op : Infix) (s : Term) → left_of op ≤ level s → strength op < tail s
strength-lt-tail op (negative s) h = strength-lt-minus op h
strength-lt-tail op (infix_of op' s t) h = strength-lt-right op op' h
strength-lt-tail op (number digits) h = strength-lt-top op
strength-lt-tail op (name n) h = strength-lt-top op
strength-lt-tail op (call_1 f type s) h = strength-lt-top op
strength-lt-tail op (call_2 f type s t) h = strength-lt-top op

strength-le-right : (op : Infix) → strength op ≤ right_of op
strength-le-right plus = omega arith
strength-le-right _ = omega arith

pub level-le-tail : (t : Term) → level t ≤ tail t
level-le-tail (infix_of op s t) = strength-le-right op
level-le-tail (negative t) = omega arith
level-le-tail _ = omega arith
