-- ===== src/Parse/Granted.antt =====
-- The constructors of nodes of components/core/kest_expression.c, when every request for memory is
-- granted.
use kestrel_interface.Prelude.{ℕ, ◌+◌, ◌≡◌, refl, true, false, ◌&&◌, some, List, take}
use kestrel_interface.Expr.{MathLibrary, ExprType, Expression, null, node, expression_t}
use kestrel_interface.Parse.{
  Work, request, const_node, reference_node, operation_node, constant_of, name_node,
  kest_expr_new_const, kest_expr_new_unary, kest_expr_new_binary, kest_expr_new_reference,
}
use kestrel_interface.Parse.Pratt.{is_null}

-- A state in which requests are granted and that many errors have been reported.
pub record Fine (errors : ℕ) (w : Work) : Type 0 where
  pub granted : (i : ℕ) → w.grants i ≡ true
  pub silent : w.errors ≡ errors

abbrev after : Work → Work
after w = record w { asked = w.asked + 1; live = w.live + 1 }

module _ (lib : MathLibrary) (errors : ℕ) where
  open lib use {Float}

  -- The node is made, and the state stays fine.
  abbrev pub Makes : Expression Float × Work → Expression Float → Type 0
  Makes r e = (w' : Work) × (r ≡ (e, w')) × Fine errors w'

  after-Fine : (w : Work) → Fine errors w → Fine errors (after w)
  after-Fine w fine = record { granted = fine.granted; silent = fine.silent }

  request-granted : (w : Work) → Fine errors w → request w ≡ (true, after w)
  unfolding request
  request-granted w fine = rw (fine.granted w.asked) refl

  pub new_const-Makes :
      (v : Float) (w : Work)
      → Fine errors w
      → Makes (kest_expr_new_const lib v w) (const_node lib v)
  unfolding kest_expr_new_const
  new_const-Makes v w fine = (after w, rw (request-granted w fine) refl, after-Fine w fine)

  pub new_unary-Makes :
      (type : ExprType) (e : Expression Float) (w : Work)
      → is_null e ≡ false
      → Fine errors w
      → Makes
          (kest_expr_new_unary lib type e w)
          (operation_node lib type e null (constant_of lib e))
  unfolding kest_expr_new_unary
  new_unary-Makes type null w there fine = absurd (cc)
  new_unary-Makes type expression_t w there fine =
      (after w, rw (request-granted w fine) refl, after-Fine w fine)
  new_unary-Makes type (node n e f) w there fine =
      (after w, rw (request-granted w fine) refl, after-Fine w fine)

  pub new_binary-Makes :
      (type : ExprType) (e f : Expression Float) (w : Work)
      → is_null e ≡ false
      → is_null f ≡ false
      → Fine errors w
      → Makes
          (kest_expr_new_binary lib type e f w)
          (operation_node lib type e f (constant_of lib f && constant_of lib e))
  unfolding kest_expr_new_binary
  new_binary-Makes type null f w there_e there_f fine = absurd (cc)
  new_binary-Makes type expression_t null w there_e there_f fine = absurd (cc)
  new_binary-Makes type (node n e g) null w there_e there_f fine = absurd (cc)
  new_binary-Makes type expression_t expression_t w there_e there_f fine =
      (after w, rw (request-granted w fine) refl, after-Fine w fine)
  new_binary-Makes type expression_t (node m e' f') w there_e there_f fine =
      (after w, rw (request-granted w fine) refl, after-Fine w fine)
  new_binary-Makes type (node n e g) expression_t w there_e there_f fine =
      (after w, rw (request-granted w fine) refl, after-Fine w fine)
  new_binary-Makes type (node n e g) (node m e' f') w there_e there_f fine =
      (after w, rw (request-granted w fine) refl, after-Fine w fine)

  pub new_reference-Makes :
      (name : List ℕ) (w : Work)
      → Fine errors w
      → Makes (kest_expr_new_reference lib (some name) w) (reference_node lib (take 64 name))
  unfolding kest_expr_new_reference name_node
  new_reference-Makes name w fine =
      let one : request w ≡ (true, after w) = request-granted w fine in
      let two : request (after w) ≡ (true, after (after w)) =
        request-granted (after w) (after-Fine w fine) in
      (after (after w), rw (one, two) refl, after-Fine (after w) (after-Fine w fine))
