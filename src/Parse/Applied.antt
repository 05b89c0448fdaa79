-- ===== src/Parse/Applied.antt =====
-- kest_parse_expression_function_call of components/parser/kest_expr_parser.c on a call that is well
-- formed, in a state that grants all memory.
use kestrel_interface.Prelude.{
  ℕ, suc, ◌+◌, ◌<◌, ◌≤◌, ◌≡◌, refl, true, false, ◌&&◌, Option, some, List, [], ◌∷◌, ◌++◌, ◌==◌,
  arith, length, ◌∙◌, inr, length-append,
}
use kestrel_interface.Token.{token_is_char, token_is_number, token_is_name}
use kestrel_interface.Expr.{MathLibrary, ExprType, Expression, null}
use kestrel_interface.Parse.{
  Work, kest_expression_token_unary_type, kest_expression_token_binary_function_type,
  kest_expression_token_function_type, operation_node, constant_of,
}
use kestrel_interface.Parse.Pratt.{
  Tokens, Parser, is_null, starts_with, finished, ended, behind_argument, with_argument, arguments,
  new_call, called, call_by, call_with, from_call, kest_parse_expression_function_call, primary,
}
use kestrel_interface.Parse.Granted.{Fine, Makes, new_unary-Makes, new_binary-Makes}
use kestrel_interface.Parse.Texts.{name-not_char, name-not_number}
use kestrel_interface.Parse.Steps.{parser, ended-before, Continues, Reads, primary-Continues}

module _ (lib : MathLibrary) (tokens_end errors : ℕ) where
  open lib use {Float}

  abbrev close : Option (List ℕ)
  close = some (b')' ∷ [])

  abbrev comma : Option (List ℕ)
  comma = some (b',' ∷ [])

  -- Tokens that go on beyond `tokens_end`.
  still_open : (ts : Tokens) → tokens_end < length ts → ended lib tokens_end ts ≡ false
  unfolding ended
  still_open [] h = absurd (omega arith)
  still_open (t ∷ ts) h = ground arith

  -- The last argument, with those before it in reverse.
  arguments-last :
      (rec : Parser lib tokens_end) (fuel : ℕ) (args : List (Expression Float)) (ts rest : Tokens)
      (e : Expression Float) (w w' : Work)
      → length args < 2
      → ended lib tokens_end ts ≡ false
      → starts_with b')' ts ≡ false
      → tokens_end ≤ length rest
      → is_null e ≡ false
      → rec ts 0 w ≡ finished lib tokens_end e (close ∷ rest) w'
      → arguments lib tokens_end rec (suc fuel) args ts w ≡ inr (e ∷ args, close ∷ rest, w')
  unfolding arguments with_argument behind_argument token_is_char
  arguments-last rec fuel args ts rest e w w' few more open_ before there run =
      let room : (length args == 2) ≡ false = ground arith in
      rw (more, open_, room, run, there, ended-before lib tokens_end errors close rest before) refl

  -- The first of two arguments, with its comma.
  arguments-first :
      (rec : Parser lib tokens_end) (fuel : ℕ) (ts rest : Tokens) (e : Expression Float)
      (w w' : Work)
      → ended lib tokens_end ts ≡ false
      → starts_with b')' ts ≡ false
      → ended lib tokens_end rest ≡ false
      → starts_with b')' rest ≡ false
      → tokens_end ≤ length rest
      → is_null e ≡ false
      → rec ts 0 w ≡ finished lib tokens_end e (comma ∷ rest) w'
      → arguments lib tokens_end rec (suc fuel) [] ts w
        ≡ arguments lib tokens_end rec fuel (e ∷ []) rest w'
  unfolding arguments with_argument behind_argument token_is_char
  arguments-first rec fuel ts rest e w w' more open_ more' open_' before there run =
      rw
        (
          more,
          open_,
          run,
          there,
          ended-before lib tokens_end errors comma rest before,
          more',
          open_',
        )
        refl

  -- The whole call, when the loop over its arguments has ended well.
  function_call-Continues :
      (levels depth m : ℕ) (f : List ℕ) (ts rest : Tokens) (args : List (Expression Float))
      (type : ExprType) (e : Expression Float)
      → depth ≤ 128
      → tokens_end ≤ length rest
      → length rest ≤ length ts
      → token_is_name (some f) ≡ true
      → ended lib tokens_end ts ≡ false
      → is_null e ≡ false
      → kest_expression_token_function_type (some f) (length args) ≡ some type
      → ((w : Work)
          → Fine errors w
          → (w' : Work) × Fine errors w'
            × (arguments lib tokens_end (parser lib tokens_end errors levels (depth + 2)) 3 [] ts w
                ≡ inr (args, close ∷ rest, w')))
      → ((w : Work) → Fine errors w → Makes lib errors (new_call lib tokens_end type args w) e)
      → Continues lib tokens_end errors levels depth (some f ∷ some (b'(' ∷ []) ∷ ts) m e rest
  unfolding primary from_call kest_parse_expression_function_call call_with call_by called
      starts_with token_is_char
  function_call-Continues levels depth m f ts rest args type e shallow before shorter name_ more
        there type_ reads makes =
      primary-Continues lib tokens_end errors levels depth f (some (b'(' ∷ []) ∷ ts) m e rest
        shallow (omega (arith, shorter))
        (λ w fine.
          let (w1, fine1, run) = reads w fine in
          let (w2, made, fine2) = makes w1 fine1 in
          let bracket : token_is_char (some f) b'(' ≡ false =
            name-not_char f b'(' (omega arith, omega arith) name_ in
          let number : token_is_number (some f) ≡ false = name-not_number f name_ in
          (
            w2,
            fine2,
            rw
                (
                  number,
                  bracket,
                  name_,
                  more,
                  run,
                  ended-before lib tokens_end errors close rest before,
                  type_,
                  made,
                  there,
                )
                refl,
          ))

  pub call_1-Continues :
      (levels depth m : ℕ) (f : List ℕ) (type : ExprType) (ts rest : Tokens) (x : Expression Float)
      → depth ≤ 128
      → tokens_end ≤ length rest
      → token_is_name (some f) ≡ true
      → kest_expression_token_unary_type (some f) ≡ some type
      → starts_with b')' (ts ++ close ∷ rest) ≡ false
      → is_null x ≡ false
      → Reads lib tokens_end errors levels (depth + 2) (ts ++ close ∷ rest) 0 x (close ∷ rest)
      → Continues lib tokens_end errors levels depth
          (some f ∷ some (b'(' ∷ []) ∷ (ts ++ close ∷ rest))
          m
          (operation_node lib type x null (constant_of lib x))
          rest
  unfolding kest_expression_token_function_type new_call
  call_1-Continues levels depth m f type ts rest x shallow before name_ type_ open_ there reads =
      let longer : length (ts ++ close ∷ rest) ≡ length ts + suc (length rest) =
        length-append ts (close ∷ rest) in
      let more = still_open (ts ++ close ∷ rest) (omega (arith, longer)) in
      function_call-Continues levels depth m f (ts ++ close ∷ rest) rest (x ∷ []) type
        (operation_node lib type x null (constant_of lib x)) shallow before (omega (arith, longer))
        name_ more refl type_
        (λ w fine.
          let (w', fine', run) = reads w fine in
          (
            w',
            fine',
            arguments-last (parser lib tokens_end errors levels (depth + 2)) 2 []
                (ts ++ close ∷ rest) rest x w w' (omega arith) more open_ before there run,
          ))
        (λ w fine. new_unary-Makes lib errors type x w there fine)

  pub call_2-Continues :
      (levels depth m : ℕ) (f : List ℕ) (type : ExprType) (ts us rest : Tokens)
      (x y : Expression Float)
      → depth ≤ 128
      → tokens_end ≤ length rest
      → token_is_name (some f) ≡ true
      → kest_expression_token_binary_function_type (some f) ≡ some type
      → starts_with b')' (ts ++ comma ∷ (us ++ close ∷ rest)) ≡ false
      → starts_with b')' (us ++ close ∷ rest) ≡ false
      → is_null x ≡ false
      → is_null y ≡ false
      → Reads lib tokens_end errors levels
          (depth + 2)
          (ts ++ comma ∷ (us ++ close ∷ rest))
          0
          x
          (comma ∷ (us ++ close ∷ rest))
      → Reads lib tokens_end errors levels (depth + 2) (us ++ close ∷ rest) 0 y (close ∷ rest)
      → Continues lib tokens_end errors levels depth
          (some f ∷ some (b'(' ∷ []) ∷ (ts ++ comma ∷ (us ++ close ∷ rest)))
          m
          (operation_node lib type x y (constant_of lib y && constant_of lib x))
          rest
  unfolding kest_expression_token_function_type new_call
  call_2-Continues levels depth m f type ts us rest x y shallow before name_ type_ open_ open_'
        there_x there_y reads_x reads_y =
      let second : Tokens = us ++ close ∷ rest in
      let all : Tokens = ts ++ comma ∷ second in
      let rec = parser lib tokens_end errors levels (depth + 2) in
      let longer : length second ≡ length us + suc (length rest) =
        length-append us (close ∷ rest) in
      let longer' : length all ≡ length ts + suc (length second) =
        length-append ts (comma ∷ second) in
      let more = still_open all (omega (arith, longer, longer')) in
      let more' = still_open second (omega (arith, longer)) in
      function_call-Continues levels depth m f all rest (y ∷ x ∷ []) type
        (operation_node lib type x y (constant_of lib y && constant_of lib x)) shallow before
        (omega (arith, longer, longer')) name_ more refl type_
        (λ w fine.
          let (w1, fine1, run_x) = reads_x w fine in
          let (w2, fine2, run_y) = reads_y w1 fine1 in
          (
            w2,
            fine2,
            arguments-first rec 2 all second x w w1 more open_ more' open_' (omega (arith, longer))
                  there_x run_x
                ∙ arguments-last rec 1 (x ∷ []) second rest y w1 w2 (omega arith) more' open_'
                    before there_y run_y,
          ))
        (λ w fine. new_binary-Makes lib errors type x y w there_x there_y fine)
