-- ===== src/Parse/Kept.antt =====
-- The blocks that a run of the parser of components/parser/kest_expr_parser.c leaves allocated.
use kestrel_interface.Prelude.{
  ℕ, zero, suc, ◌+◌, ◌-◌, ◌≡◌, refl, true, ◌||◌, List, [], ◌∷◌, ◌==◌, length, arith, All,
  Bool-cases, inl, inr,
}
use kestrel_interface.Token.{token_is_char}
use kestrel_interface.Expr.{MathLibrary, Expression, null, node, expression_t}
use kestrel_interface.Parse.{Work, kest_parser_error_at, kest_free_parsed_expression}
use kestrel_interface.Parse.Pratt.{
  Tokens, Parsing, is_null, next_of, starts_with, Parser, Arguments, ended, free_all, bail,
  behind_argument, with_argument, arguments,
}
use kestrel_interface.Parse.Freed.{blocks, Fresh, free_parsed-live}

-- Above `b` blocks, exactly those of the expression are allocated.
pub record Kept {A : Type 0} (b : ℕ) (e : Expression A) (w : Work) : Type 0 where
  pub fresh : Fresh e
  pub live : w.live ≡ b + blocks e

unfoldable pub total : {A : Type 0} → List (Expression A) → ℕ
total [] = 0
total (e ∷ es) = blocks e + total es

module _ (lib : MathLibrary) (tokens_end : ℕ) where
  open lib use {Float}

  abbrev pub Result : Type 0
  Result = Parsing Float

  abbrev pub Keeps : Parser lib tokens_end → Type 0
  Keeps rec = (ts : Tokens) (m : ℕ) (w : Work) → Kept w.live (rec ts m w).expr (rec ts m w).work

  pub is_null-blocks : (e : Expression Float) → is_null e ≡ true → blocks e ≡ 0
  unfolding blocks
  is_null-blocks null h = refl
  is_null-blocks expression_t h = refl
  is_null-blocks (node n e f) h = cc

  pub null-Kept : (b : ℕ) (w : Work) → w.live ≡ b → Kept {A = Float} b null w
  unfolding blocks
  null-Kept b w h = record { fresh = _; live = omega arith }

  pub free_all-live :
      (es : List (Expression Float)) (w : Work)
      → All Fresh es
      → (free_all lib tokens_end es w).live ≡ w.live - total es
  unfolding free_all total
  free_all-live [] w h = omega arith
  free_all-live (e ∷ es) w (fresh, h) = omega (
    arith,
    free_parsed-live lib e w fresh,
    free_all-live es (kest_free_parsed_expression lib e w) h,
  )

  -- What the loop over the arguments leaves, above `b` blocks.
  unfoldable pub KeptArguments : ℕ → Arguments lib tokens_end → Type 0
  KeptArguments b (inl w) = w.live ≡ b
  KeptArguments b (inr (args, current, w)) = All Fresh args × (w.live ≡ b + total args)

  bail-Kept :
      (b : ℕ) (args : List (Expression Float)) (w : Work)
      → All Fresh args
      → w.live ≡ b + total args
      → KeptArguments b (bail lib tokens_end args w)
  unfolding bail KeptArguments
  bail-Kept b args w fresh live = omega (arith, free_all-live args w fresh)

  inr-Kept :
      (b : ℕ) (args : List (Expression Float)) (current : Tokens) (w : Work)
      → All Fresh args
      → w.live ≡ b + total args
      → KeptArguments b (inr (args, current, w))
  unfolding KeptArguments
  inr-Kept b args current w fresh live = (fresh, live)

  abbrev pub KeepsArguments :
      (List (Expression Float) → Tokens → Work → Arguments lib tokens_end) → Type 0
  KeepsArguments again =
      (b : ℕ) (args : List (Expression Float)) (ts : Tokens) (w : Work)
      → All Fresh args
      → w.live ≡ b + total args
      → KeptArguments b (again args ts w)

  behind_argument-Kept :
      (again : List (Expression Float) → Tokens → Work → Arguments lib tokens_end)
      → KeepsArguments again
      → KeepsArguments (behind_argument lib tokens_end again)
  unfolding behind_argument kest_parser_error_at
  behind_argument-Kept again keeps b args [] w fresh live =
      bail-Kept b args (kest_parser_error_at w) fresh live
  behind_argument-Kept again keeps b args (t ∷ current) w fresh live =
      let bailed = bail-Kept b args (kest_parser_error_at w) fresh live in
      elim (Bool-cases (ended lib tokens_end (t ∷ current))) [
        | inl e ↦ rw e bailed
        | inr e ↦ elim (Bool-cases (token_is_char t b',')) [
          | inl comma ↦
              elim (Bool-cases (ended lib tokens_end current || starts_with b')' current)) [
                | inl e' ↦ rw (e, comma, e') bailed
                | inr e' ↦ rw (e, comma, e') (keeps b args current w fresh live)
              ]
          | inr comma ↦ elim (Bool-cases (token_is_char t b')')) [
            | inl close ↦ rw (e, comma, close) (inr-Kept b args (t ∷ current) w fresh live)
            | inr close ↦ rw (e, comma, close) bailed
          ]
        ]
      ]

  with_argument-Kept :
      (again : List (Expression Float) → Tokens → Work → Arguments lib tokens_end)
      → KeepsArguments again
      → (b : ℕ) (args : List (Expression Float)) (r : Result) → All Fresh args
      → Kept (b + total args) r.expr r.work
      → KeptArguments b (with_argument lib tokens_end again args r)
  unfolding with_argument total
  with_argument-Kept again keeps b args r fresh kept = elim (Bool-cases (is_null r.expr)) [
    | inl e ↦
        rw e (bail-Kept b args r.work fresh (omega (arith, kept.live, is_null-blocks r.expr e)))
    | inr e ↦ rw e (
        behind_argument-Kept again keeps b (r.expr ∷ args) (next_of r.next_token) r.work
          (kept.fresh, fresh) (omega (arith, kept.live)))
  ]

  pub arguments-Kept :
      (rec : Parser lib tokens_end) (fuel : ℕ)
      → Keeps rec
      → KeepsArguments (arguments lib tokens_end rec fuel)
  unfolding arguments kest_parser_error_at
  arguments-Kept rec zero keeps b args current w fresh live =
      bail-Kept b args (kest_parser_error_at w) fresh live
  arguments-Kept rec (suc fuel) keeps b args current w fresh live =
      let bailed = bail-Kept b args (kest_parser_error_at w) fresh live in
      let first = keeps current 0 w in
      let more =
        with_argument-Kept (arguments lib tokens_end rec fuel) (arguments-Kept rec fuel keeps) b
          args (rec current 0 w) fresh
          (record { fresh = first.fresh; live = omega (arith, first.live) }) in
      elim (Bool-cases (ended lib tokens_end current)) [
        | inl e ↦ rw e bailed
        | inr e ↦ elim (Bool-cases (starts_with b')' current)) [
          | inl close ↦ rw (e, close) (inr-Kept b args current w fresh live)
          | inr close ↦ elim (Bool-cases (length args == 2)) [
            | inl full ↦ rw (e, close, full) bailed
            | inr full ↦ rw (e, close, full) more
          ]
        ]
      ]
