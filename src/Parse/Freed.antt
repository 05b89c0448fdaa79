-- ===== src/Parse/Freed.antt =====
-- The blocks of a parsed expression, and what components/parser/kest_expr_parser.c frees.
use kestrel_interface.Prelude.{
  ℕ, suc, ◌+◌, ◌-◌, ◌≤◌, ◌≡◌, refl, Bool, true, false, ◌&&◌, ◌||◌, Option, none, some, List, [],
  ◌∷◌, ◌==◌, ltb, ◌∙◌, if◌then◌else◌, arith, All, subst, Bool-cases, inl, inr,
}
use kestrel_interface.Token.{same}
use kestrel_interface.Expr.{
  MathLibrary, kest_expression_detect_constants_rec, Node, is_constant_name, type_arity,
  rec_max_depth, ExprType, Expression, null, node, expression_t, is_ref, is_const,
}
use kestrel_interface.Parse.{
  Work, by_name, unary_names, infix_names, binary_names, request, kest_free, has_second,
  kest_expression_token_unary_type, kest_expression_token_infix_type,
  kest_expression_token_binary_function_type, if_granted, const_node, operation_node, name_node,
  constant_of, kest_expr_new_const, kest_expr_new_unary, kest_expr_new_binary,
  kest_expr_new_reference, kest_free_parsed_expression,
}
use kestrel_interface.Parse.Pratt.{is_null}

-- A node that is a reference has a block for its name.
unfoldable pub blocks : {A : Type 0} → Expression A → ℕ
blocks null = 0
blocks expression_t = 0
blocks (node n e f) = (if is_ref n.type then 2 else 1) + blocks e + blocks f

abbrev pub is_atom : ExprType → Bool
is_atom type = is_ref type || is_const type

-- The pointers that the type has no use for are NULL.
abbrev pub Fresh : {A : Type 0} → Expression A → Type 0
Fresh null = Unit
Fresh expression_t = 1 ≤ 0
Fresh (node n e f) =
    (is_atom n.type ≡ true → blocks e ≡ 0)
    × (has_second n.type ≡ false → blocks f ≡ 0)
    × Fresh e
    × Fresh f

abbrev pub IsUnary : ExprType → Type 0
IsUnary type = (is_atom type ≡ false) × (has_second type ≡ false)

abbrev pub IsBinary : ExprType → Type 0
IsBinary type = (is_atom type ≡ false) × (has_second type ≡ true)

by_name-All :
    (P : ExprType → Type 0) (table : List (List ℕ × ExprType)) (token : List ℕ) {type : ExprType}
    → All (λ entry. P entry.1) table
    → by_name table token ≡ some type
    → P type
by_name-All P [] token all found = cc
by_name-All P ((name, a) ∷ table) token {type} (here, there) found =
    elim (Bool-cases (same token name)) [
      | inl yes_ ↦ subst P (ground arith) here
      | inr other ↦ by_name-All P table token there (ground arith)
    ]

pub token_unary_type-IsUnary :
    (t : Option (List ℕ)) (type : ExprType)
    → kest_expression_token_unary_type t ≡ some type
    → IsUnary type
unfolding kest_expression_token_unary_type has_second
token_unary_type-IsUnary none type found = cc
token_unary_type-IsUnary (some token) type found =
    by_name-All IsUnary unary_names token (ground arith) found

pub token_infix_type-IsBinary :
    (t : Option (List ℕ)) (type : ExprType)
    → kest_expression_token_infix_type t ≡ some type
    → IsBinary type
unfolding kest_expression_token_infix_type has_second
token_infix_type-IsBinary none type found = cc
token_infix_type-IsBinary (some token) type found =
    by_name-All IsBinary infix_names token (ground arith) found

pub token_binary_type-IsBinary :
    (t : Option (List ℕ)) (type : ExprType)
    → kest_expression_token_binary_function_type t ≡ some type
    → IsBinary type
unfolding kest_expression_token_binary_function_type has_second
token_binary_type-IsBinary none type found = cc
token_binary_type-IsBinary (some token) type found =
    by_name-All IsBinary binary_names token (ground arith) found

module _ (lib : MathLibrary) where
  open lib use {Float}

  pub free_parsed-live :
      (e : Expression Float) (w : Work)
      → Fresh e
      → (kest_free_parsed_expression lib e w).live ≡ w.live - blocks e
  unfolding kest_free_parsed_expression kest_free blocks has_second
  free_parsed-live null w h = omega arith
  free_parsed-live expression_t w h = absurd (omega arith)
  free_parsed-live (node n e f) w (first, second, fresh_e, fresh_f) = ground (
    arith,
    free_parsed-live e w fresh_e,
    free_parsed-live f (kest_free_parsed_expression lib e w) fresh_f,
  )

  -- What a constructor of nodes returns: NULL, or one node on top of `k` blocks.
  pub record Built (w : Work) (k : ℕ) (r : Expression Float × Work) : Type 0 where
    pub fresh : Fresh r.0
    pub size : blocks r.0 ≡ (if is_null r.0 then 0 else suc k)
    pub live : r.1.live ≡ w.live + (if is_null r.0 then 0 else 1)

  request-live : (w : Work) → (request w).1.live ≡ w.live + (if (request w).0 then 1 else 0)
  unfolding request
  request-live w = ground arith

  if_granted-Built :
      (e : Expression Float) (k : ℕ) (w : Work)
      → Fresh e
      → is_null e ≡ false
      → blocks e ≡ suc k
      → Built w k (if_granted lib e (request w))
  unfolding request blocks
  if_granted-Built e k w fresh there size = elim (Bool-cases (w.grants w.asked)) [
    | inl granted ↦
        rw granted (record { fresh = fresh; size = rw there size; live = rw there refl })
    | inr refused ↦ rw refused (record { fresh = _; size = refl; live = omega arith })
  ]

  pub new_const-Built : (v : Float) (w : Work) → Built w 0 (kest_expr_new_const lib v w)
  unfolding kest_expr_new_const blocks has_second
  new_const-Built v w =
      if_granted-Built (const_node lib v) 0 w ((λ i. refl), (λ i. refl), _, _) refl refl

  pub new_reference-Fresh :
      (t : Option (List ℕ)) (w : Work)
      → Fresh (kest_expr_new_reference lib t w).0
        × ((kest_expr_new_reference lib t w).1.live
            ≡ w.live + blocks (kest_expr_new_reference lib t w).0)
  unfolding kest_expr_new_reference name_node request kest_free blocks has_second
  new_reference-Fresh none w = (_, omega arith)
  new_reference-Fresh (some name) w = elim (Bool-cases (w.grants w.asked)) [
    | inr refused ↦ rw refused (_, omega arith)
    | inl granted ↦ elim (Bool-cases (w.grants (w.asked + 1))) [
      | inr refused ↦ rw (granted, refused) (_, omega arith)
      | inl again ↦ rw (granted, again) (((λ i. refl), (λ i. refl), _, _), omega arith)
    ]
  ]

  pub new_unary-Built :
      (type : ExprType) (e : Expression Float) (w : Work)
      → IsUnary type
      → Fresh e
      → Built w (blocks e) (kest_expr_new_unary lib type e w)
  unfolding kest_expr_new_unary blocks
  new_unary-Built type null w kind fresh = record { fresh = _; size = refl; live = omega arith }
  new_unary-Built type expression_t w kind fresh = absurd (omega arith)
  new_unary-Built type (node n e f) w (no_atom, single) fresh =
      if_granted-Built (operation_node lib type (node n e f) null (constant_of lib (node n e f)))
        (blocks (node n e f)) w ((λ i. cc), (λ i. refl), fresh, _) refl (ground arith)

  pub new_binary-Built :
      (type : ExprType) (e f : Expression Float) (w : Work)
      → IsBinary type
      → Fresh e
      → Fresh f
      → Built w (blocks e + blocks f) (kest_expr_new_binary lib type e f w)
  unfolding kest_expr_new_binary blocks
  new_binary-Built type null f w kind fresh_e fresh = record {
    fresh = _;
    size = refl;
    live = omega arith;
  }
  new_binary-Built type expression_t f w kind fresh_e fresh = absurd (omega arith)
  new_binary-Built type (node n e g) null w kind fresh_e fresh = record {
    fresh = _;
    size = refl;
    live = omega arith;
  }
  new_binary-Built type (node n e g) expression_t w kind fresh_e fresh = absurd (omega arith)
  new_binary-Built type (node n e g) (node m e' f') w (no_atom, double) fresh_e fresh =
      if_granted-Built
        (operation_node lib type (node n e g) (node m e' f')
          (constant_of lib (node m e' f') && constant_of lib (node n e g)))
        (blocks (node n e g) + blocks (node m e' f')) w ((λ i. cc), (λ i. cc), fresh_e, fresh) refl
        (ground arith)

  abbrev pub SameBlocks : Expression Float → Expression Float → Type 0
  SameBlocks e e' = (blocks e' ≡ blocks e) × Fresh e'

  marked-SameBlocks :
      (n : Node Float) (constant : Bool) (e f e' f' : Expression Float)
      → Fresh (node n e f)
      → SameBlocks e e'
      → SameBlocks f f'
      → SameBlocks (node n e f) (node (record n { constant = constant }) e' f')
  unfolding blocks
  marked-SameBlocks n constant e f e' f' (first, second, fresh_e, fresh_f) (size_e, fresh_e')
        (size_f, fresh_f') =
      (
        omega (arith, size_e, size_f),
        (λ i. size_e ∙ first i, λ i. size_f ∙ second i, fresh_e', fresh_f'),
      )

  -- The search for constants changes marks only.
  pub detect_constants-SameBlocks :
      (e : Expression Float) (depth : ℕ)
      → Fresh e
      → SameBlocks e (kest_expression_detect_constants_rec e depth).1
  unfolding kest_expression_detect_constants_rec
  detect_constants-SameBlocks null depth h = (refl, _)
  detect_constants-SameBlocks expression_t depth h = absurd (omega arith)
  detect_constants-SameBlocks (node n e f) depth h =
      let deep : Bool = ltb rec_max_depth depth in
      let first = kest_expression_detect_constants_rec e (depth + 1) in
      let second = kest_expression_detect_constants_rec f (depth + 1) in
      let same_e : SameBlocks e e = (refl, h.2) in
      let same_f : SameBlocks f f = (refl, h.3) in
      let left = detect_constants-SameBlocks e (depth + 1) h.2 in
      let right = detect_constants-SameBlocks f (depth + 1) h.3 in
      let marked = λ (c : Bool). marked-SameBlocks n c e f e f h same_e same_f in
      elim (Bool-cases deep) [
        | inl at ↦ rw at (refl, h)
        | inr at ↦ elim (Bool-cases (is_const n.type)) [
          | inl c ↦ rw (at, c) (marked true)
          | inr c ↦ elim (Bool-cases (is_ref n.type)) [
            | inl r ↦ rw (at, c, r) (marked (is_constant_name n))
            | inr r ↦ elim (Bool-cases (type_arity n.type == 0)) [
              | inl a ↦ rw (at, c, r, a) (marked true)
              | inr a ↦ elim (Bool-cases (first.0 && type_arity n.type == 2)) [
                | inl b ↦
                    rw (at, c, r, a, b)
                      (marked-SameBlocks n second.0 e f first.1 second.1 h left right)
                | inr b ↦
                    rw (at, c, r, a, b) (marked-SameBlocks n first.0 e f first.1 f h left same_f)
              ]
            ]
          ]
        ]
      ]
