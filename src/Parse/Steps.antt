-- ===== src/Parse/Steps.antt =====
-- The steps of kest_parse_expression_rec_pratt of components/parser/kest_expr_parser.c on input that
-- is well formed, in a state that grants all memory.
use kestrel_interface.Prelude.{
  ℕ, zero, suc, ◌+◌, ◌<◌, ◌≤◌, ◌≡◌, refl, true, false, ◌&&◌, Option, some, List, [], ◌∷◌, ◌++◌, ltb,
  arith, length, ap, ◌∙◌, inl, inr, Bool-cases, Option-cases, length-append,
}
use kestrel_interface.Token.{token_is_char, token_is_number, in_array}
use kestrel_interface.Expr.{MathLibrary, ExprType, Expression, rec_max_depth}
use kestrel_interface.Parse.{
  Work, kest_expression_token_infix_type, kest_expression_infix_operator_precedence, operation_node,
  constant_of,
}
use kestrel_interface.Parse.Pratt.{
  Tokens, Parser, is_null, starts_with, finished, ended, behind_operand, infix_step, infix_loop,
  in_brackets, primary, behind_primary, kest_parse_expression_rec_pratt,
}
use kestrel_interface.Parse.Granted.{Fine, new_binary-Makes}
use kestrel_interface.Parse.Texts.{symbol-type, symbol-precedence, symbol-right}
use kestrel_interface.Parse.Written.{Infix, symbol, type_of, strength, right_of}

module _ (lib : MathLibrary) (tokens_end errors : ℕ) where
  open lib use {Float}

  abbrev pub parser : ℕ → ℕ → Parser lib tokens_end
  parser levels depth = kest_parse_expression_rec_pratt lib tokens_end levels depth

  -- What stands behind a term does not go on with it, for operators that bind as tightly as `k`.
  abbrev pub Follows : ℕ → Tokens → Type 0
  Follows k [] = Unit
  Follows k (t ∷ ts) =
      (token_is_char t b'(' ≡ false)
      × (ended lib tokens_end (t ∷ ts) ≡ false
          → (type : ExprType) → kest_expression_token_infix_type t ≡ some type
          → kest_expression_infix_operator_precedence type < k)

  pub Follows-weaken : (k m : ℕ) (rest : Tokens) → k ≤ m → Follows k rest → Follows m rest
  Follows-weaken k m [] le follows = _
  Follows-weaken k m (t ∷ ts) le (bare, weak) =
      (bare, λ more type h. omega (arith, weak more type h))

  pub Follows-bare : (k : ℕ) (rest : Tokens) → Follows k rest → starts_with b'(' rest ≡ false
  unfolding starts_with
  Follows-bare k [] follows = refl
  Follows-bare k (t ∷ ts) (bare, weak) = bare

  pub ended-before :
      (t : Option (List ℕ)) (ts : Tokens)
      → tokens_end ≤ length ts
      → ended lib tokens_end (t ∷ ts) ≡ false
  unfolding ended
  ended-before t ts h = ground arith

  -- The loop ends where the next operator binds less tightly.
  infix_loop-stops :
      (rec : Parser lib tokens_end) (n k m : ℕ) (lhs : Expression Float) (rest : Tokens) (w : Work)
      → k ≤ m
      → Follows k rest
      → infix_loop lib tokens_end rec n lhs rest m w ≡ finished lib tokens_end lhs rest w
  unfolding infix_loop infix_step
  infix_loop-stops rec zero k m lhs rest w le follows = refl
  infix_loop-stops rec (suc n) k m lhs [] w le follows = refl
  infix_loop-stops rec (suc n) k m lhs (t ∷ ts) w le (bare, weak) =
      elim (Bool-cases (ended lib tokens_end (t ∷ ts))) [
        | inl over ↦ rw over refl
        | inr more ↦ elim (Option-cases (kest_expression_token_infix_type t)) [
          | inl other ↦ rw (more, other) refl
          | inr (type, found) ↦
              let below : ltb (kest_expression_infix_operator_precedence type) m ≡ true =
                ground (arith, weak more type found) in
              rw (more, found, below) refl
        ]
      ]

  -- A call reads `ts` as `e` and goes on with its loop behind it, or ends there.
  abbrev pub Continues : ℕ → ℕ → Tokens → ℕ → Expression Float → Tokens → Type 0
  Continues levels depth ts m e rest =
      (w : Work)
      → Fine errors w
      → (n : ℕ) × (w' : Work) × (length rest ≤ n)
        × Fine errors w'
        × (parser (suc levels) depth ts m w
            ≡ infix_loop lib tokens_end (parser levels (depth + 1)) n e rest m w')

  abbrev pub Reads : ℕ → ℕ → Tokens → ℕ → Expression Float → Tokens → Type 0
  Reads levels depth ts m e rest =
      (w : Work)
      → Fine errors w
      → (w' : Work) × Fine errors w'
        × (parser levels depth ts m w ≡ finished lib tokens_end e rest w')

  pub Continues-Reads :
      (levels depth : ℕ) (ts : Tokens) (m : ℕ) (e : Expression Float) (rest : Tokens)
      → Follows m rest
      → Continues levels depth ts m e rest
      → Reads (suc levels) depth ts m e rest
  Continues-Reads levels depth ts m e rest follows reads w fine =
      let (n, w', enough, fine', run) = reads w fine in
      (
        w',
        fine',
        run ∙ infix_loop-stops (parser levels (depth + 1)) n m m e rest w' (omega arith) follows,
      )

  -- A call goes on from what stands first.
  pub primary-Continues :
      (levels depth : ℕ) (token : List ℕ) (ts : Tokens) (m : ℕ) (e : Expression Float)
      (rest : Tokens)
      → depth ≤ 128
      → length rest ≤ suc (length ts)
      → ((w : Work)
          → Fine errors w
          → (w' : Work) × Fine errors w'
            × (primary lib tokens_end
                  (parser levels (depth + 1))
                  (parser levels (depth + 2))
                  (some token)
                  ts
                  w
                ≡ inr (e, rest, w')))
      → Continues levels depth (some token ∷ ts) m e rest
  unfolding kest_parse_expression_rec_pratt behind_primary
  primary-Continues levels depth token ts m e rest shallow enough starts w fine =
      let (w', fine', run) = starts w fine in
      let fits : ltb rec_max_depth depth ≡ false = ground arith in
      (
        suc (length ts),
        w',
        enough,
        fine',
        rw fits (
            ap (behind_primary lib tokens_end (parser levels (depth + 1)) (suc (length ts)) m) run),
      )

  pub brackets-Continues :
      (levels depth m : ℕ) (ts : Tokens) (e : Expression Float) (rest : Tokens)
      → depth ≤ 128
      → is_null e ≡ false
      → Reads levels (depth + 1) (ts ++ some (b')' ∷ []) ∷ rest) 0 e (some (b')' ∷ []) ∷ rest)
      → Continues levels depth (some (b'(' ∷ []) ∷ (ts ++ some (b')' ∷ []) ∷ rest)) m e rest
  unfolding primary in_brackets token_is_number token_is_char starts_with in_array
      kest_parse_expression_rec_pratt
  brackets-Continues levels depth m ts e rest shallow there reads =
      primary-Continues levels depth (b'(' ∷ []) (ts ++ some (b')' ∷ []) ∷ rest) m e rest shallow
        (omega (arith, length-append ts (some (b')' ∷ []) ∷ rest)))
        (λ w fine.
          let (w', fine', run) = reads w fine in
          (w', fine', ap (in_brackets lib tokens_end) run ∙ rw there refl))

  -- A round of the loop.
  pub infix_loop-round :
      (levels depth n m : ℕ) (op : Infix) (e f : Expression Float) (ts rest : Tokens) (w : Work)
      → m ≤ strength op
      → tokens_end ≤ length ts
      → is_null e ≡ false
      → is_null f ≡ false
      → Reads levels depth ts (right_of op) f rest
      → Fine errors w
      → (w' : Work) × Fine errors w'
        × (infix_loop lib tokens_end (parser levels depth) (suc n) e (some (symbol op) ∷ ts) m w
            ≡ infix_loop lib tokens_end
                (parser levels depth)
                n
                (operation_node lib (type_of op) e f (constant_of lib f && constant_of lib e))
                rest
                m
                w')
  unfolding infix_loop infix_step behind_operand
  infix_loop-round levels depth n m op e f ts rest w tight before there_e there_f reads fine =
      let (w1, fine1, run) = reads w fine in
      let (w2, made, fine2) =
        new_binary-Makes lib errors (type_of op) e f w1 there_e there_f fine1 in
      let below : ltb (strength op) m ≡ false = ground arith in
      (
        w2,
        fine2,
        rw
            (
              ended-before (some (symbol op)) ts before,
              symbol-type op,
              symbol-right op,
              symbol-precedence op,
              below,
              run,
              there_f,
              made,
            )
            refl,
      )
