-- ===== src/Parse/Enough.antt =====
-- The rounds and levels that components/parser/kest_expr_parser.c takes.
use kestrel_interface.Prelude.{
  ℕ, zero, suc, ◌+◌, ◌≤◌, ◌<◌, ◌≡◌, refl, sym, ap, ap₂, ◌∙◌, none, some, List, [], ◌∷◌,
  if◌then◌else◌, ltb, ltb→le, length, arith, Bool-cases, Option-cases, inl, inr,
}
use kestrel_interface.Expr.{MathLibrary, Expression, rec_max_depth}
use kestrel_interface.Parse.{
  Work, kest_parser_error_at, kest_expression_token_infix_type,
  kest_expression_infix_operator_precedence, kest_expression_infix_associativity,
  kest_expr_new_binary, kest_free_parsed_expression,
}
use kestrel_interface.Parse.Pratt.{
  Tokens, Parsing, is_null, next_of, Parser, failed, ended, behind_operand, infix_step, infix_loop,
  primary, behind_primary, kest_parse_expression_rec_pratt,
}
use mathlib.Core.Path.{fun_ext}
use kestrel_interface.Parse.Within.{rest_length, Advances}
use kestrel_interface.Parse.Advance.{rec_pratt-Advances}

module _ (lib : MathLibrary) (tokens_end : ℕ) where
  open lib use {Float}

  abbrev parser : ℕ → ℕ → Parser lib tokens_end
  parser levels depth = kest_parse_expression_rec_pratt lib tokens_end levels depth

  -- A round more changes nothing, where there is a round for each token.
  infix_loop-rounds :
      (rec : Parser lib tokens_end) (fuel : ℕ) (lhs : Expression Float) (ts : Tokens) (m : ℕ)
      (w : Work)
      → Advances lib tokens_end rec
      → length ts ≤ fuel
      → infix_loop lib tokens_end rec (suc fuel) lhs ts m w
        ≡ infix_loop lib tokens_end rec fuel lhs ts m w
  unfolding infix_loop infix_step behind_operand
  infix_loop-rounds rec zero lhs [] m w keeps h = refl
  infix_loop-rounds rec zero lhs (t ∷ ts) m w keeps h = absurd (omega arith)
  infix_loop-rounds rec (suc fuel) lhs [] m w keeps h = refl
  infix_loop-rounds rec (suc fuel) lhs (t ∷ ts) m w keeps h =
      elim (Bool-cases (ended lib tokens_end (t ∷ ts))) [
        | inl over ↦ rw over refl
        | inr more ↦ elim (Option-cases (kest_expression_token_infix_type t)) [
          | inl other ↦ rw (more, other) refl
          | inr (type, found) ↦
              elim (Bool-cases (ltb (kest_expression_infix_operator_precedence type) m)) [
                | inl below ↦ rw (more, found, below) refl
                | inr above ↦
                    let power : ℕ =
                      kest_expression_infix_operator_precedence type
                      + kest_expression_infix_associativity type in
                    let r = rec ts power w in
                    let bin = kest_expr_new_binary lib type lhs r.expr r.work in
                    rw (more, found, above)
                      (ap
                        (λ (k : Parsing Float).
                          if is_null r.expr
                          then failed lib tokens_end (kest_free_parsed_expression lib lhs r.work)
                          else if is_null bin.0
                          then failed lib tokens_end (
                              kest_free_parsed_expression lib r.expr
                                (kest_free_parsed_expression lib lhs bin.1))
                          else k)
                        (infix_loop-rounds rec fuel bin.0 (next_of r.next_token) m bin.1 keeps
                          (omega (arith, keeps ts power w))))
              ]
        ]
      ]

  -- A call on a token, over what it calls.
  abbrev call_on :
      Parser lib tokens_end → Parser lib tokens_end → ℕ → List ℕ → Tokens → ℕ → Work → Parsing Float
  call_on rec rec_argument depth token rest m w =
      if ltb rec_max_depth depth
      then failed lib tokens_end (kest_parser_error_at w)
      else behind_primary lib tokens_end rec (suc (length rest)) m
          (primary lib tokens_end rec rec_argument (some token) rest w)

  rec_pratt-call :
      (levels depth : ℕ) (token : List ℕ) (rest : Tokens) (m : ℕ) (w : Work)
      → parser (suc levels) depth (some token ∷ rest) m w
        ≡ call_on (parser levels (depth + 1)) (parser levels (depth + 2)) depth token rest m w
  unfolding kest_parse_expression_rec_pratt
  rec_pratt-call levels depth token rest m w = refl

  rec_pratt-none :
      (levels depth : ℕ) (rest : Tokens) (m : ℕ) (w : Work)
      → (parser (suc levels) depth [] m w ≡ failed lib tokens_end w)
        × (parser (suc levels) depth (none ∷ rest) m w ≡ failed lib tokens_end w)
  unfolding kest_parse_expression_rec_pratt
  rec_pratt-none levels depth rest m w = (refl, refl)

  call_on-deep :
      (rec rec' rec_argument rec_argument' : Parser lib tokens_end) (depth : ℕ) (token : List ℕ)
      (rest : Tokens) (m : ℕ) (w : Work)
      → (depth ≤ 128 → (rec ≡ rec') × (rec_argument ≡ rec_argument'))
      → call_on rec rec_argument depth token rest m w
        ≡ call_on rec' rec_argument' depth token rest m w
  call_on-deep rec rec' rec_argument rec_argument' depth token rest m w equal =
      elim (Bool-cases (ltb rec_max_depth depth)) [
        | inl deep ↦ rw deep refl
        | inr fits ↦
            let (e, f) = equal (ltb→le rec_max_depth depth fits) in
            ap₂ (λ r r'. call_on r r' depth token rest m w) e f
      ]

  level-at :
      (levels depth : ℕ) (ts : Tokens) (m : ℕ) (w : Work)
      → (depth ≤ 128
          → (parser (suc levels) (depth + 1) ≡ parser levels (depth + 1))
            × (parser (suc levels) (depth + 2) ≡ parser levels (depth + 2)))
      → parser (suc (suc levels)) depth ts m w ≡ parser (suc levels) depth ts m w
  level-at levels depth [] m w equal =
      (rec_pratt-none (suc levels) depth [] m w).0 ∙ sym (rec_pratt-none levels depth [] m w).0
  level-at levels depth (none ∷ rest) m w equal =
      (rec_pratt-none (suc levels) depth rest m w).1 ∙ sym (rec_pratt-none levels depth rest m w).1
  level-at levels depth (some token ∷ rest) m w equal =
      rec_pratt-call (suc levels) depth token rest m w
      ∙ call_on-deep (parser (suc levels) (depth + 1)) (parser levels (depth + 1))
          (parser (suc levels) (depth + 2)) (parser levels (depth + 2)) depth token rest m w equal
      ∙ sym (rec_pratt-call levels depth token rest m w)

  -- A level more changes nothing, where the levels reach beyond the limit on the depth.
  rec_pratt-level :
      (levels depth : ℕ)
      → 0 < levels
      → 129 < levels + depth
      → parser (suc levels) depth ≡ parser levels depth
  rec_pratt-level zero depth positive h = absurd (omega arith)
  rec_pratt-level (suc levels) depth positive h = fun_ext λ ts. fun_ext λ m. fun_ext λ w.
      level-at levels depth ts m w (λ fits. (
        rec_pratt-level levels (depth + 1) (omega arith) (omega arith),
        rec_pratt-level levels (depth + 2) (omega arith) (omega arith),
      ))

  levels-enough :
      (more : ℕ) (tokens : Tokens) (m : ℕ) (w : Work)
      → parser (more + (rec_max_depth + 2)) 0 tokens m w ≡ parser (rec_max_depth + 2) 0 tokens m w
  levels-enough zero tokens m w = ap (λ n. parser n 0 tokens m w) (omega arith)
  levels-enough (suc more) tokens m w =
      ap (λ n. parser n 0 tokens m w) (omega arith)
      ∙ ap (λ (p : Parser lib tokens_end). p tokens m w)
          (rec_pratt-level (more + (rec_max_depth + 2)) 0 (omega arith) (omega arith))
      ∙ levels-enough more tokens m w

  rounds-enough :
      (more levels depth fuel : ℕ) (lhs : Expression Float) (ts : Tokens) (m : ℕ) (w : Work)
      → length ts ≤ fuel
      → infix_loop lib tokens_end (parser levels depth) (more + fuel) lhs ts m w
        ≡ infix_loop lib tokens_end (parser levels depth) fuel lhs ts m w
  rounds-enough zero levels depth fuel lhs ts m w h =
      ap (λ n. infix_loop lib tokens_end (parser levels depth) n lhs ts m w) (omega arith)
  rounds-enough (suc more) levels depth fuel lhs ts m w h =
      ap (λ n. infix_loop lib tokens_end (parser levels depth) n lhs ts m w) (omega arith)
      ∙ infix_loop-rounds (parser levels depth) (more + fuel) lhs ts m w
          (rec_pratt-Advances lib tokens_end levels depth) (omega arith)
      ∙ rounds-enough more levels depth fuel lhs ts m w h

  -- The parser needs no more than what it is given, on any tokens and with any memory: more levels
  -- of calls than two beyond the limit on the depth change nothing, the loop over the operators in
  -- a call at any depth changes nothing by more rounds than there are tokens, and a call leaves at
  -- most the tokens that it was given.
  pub rec_pratt-enough :
      (more : ℕ) (tokens : Tokens) (m : ℕ) (w : Work)
      → (parser (more + (rec_max_depth + 2)) 0 tokens m w ≡ parser (rec_max_depth + 2) 0 tokens m w)
        × ((levels depth : ℕ) (lhs : Expression Float)
            → infix_loop lib tokens_end (parser levels depth) (more + length tokens) lhs tokens m w
              ≡ infix_loop lib tokens_end (parser levels depth) (length tokens) lhs tokens m w)
        × ((levels depth : ℕ) → rest_length (parser levels depth tokens m w) ≤ length tokens)
  rec_pratt-enough more tokens m w = (
    levels-enough more tokens m w,
    λ levels depth lhs.
        rounds-enough more levels depth (length tokens) lhs tokens m w (omega arith),
    λ levels depth. rec_pratt-Advances lib tokens_end levels depth tokens m w,
  )
