-- ===== src/Parse/RoundTrip.antt =====
-- kest_parse_expression of components/parser/kest_expr_parser.c on what is written.
use kestrel_interface.Prelude.{
  ℕ, zero, suc, ◌+◌, ◌<◌, ◌≤◌, ◌≡◌, refl, Bool, true, false, some, List, [], ◌∷◌, ◌-◌, ◌++◌,
  if◌then◌else◌, ltb, ltb→le, arith, length, ap, sym, subst, ◌∙◌, length-append, append_assoc,
}
use kestrel_interface.Token.{
  token_is_char, token_is_number, token_is_name, in_array, name_loop, char_is_letter,
}
use kestrel_interface.Expr.{MathLibrary, ExprType, expr_neg, kest_expression_detect_constants}
use kestrel_interface.Parse.{
  Work, kest_expression_token_unary_type, kest_expression_token_infix_type,
  kest_expression_infix_operator_precedence, token_to_float,
}
use kestrel_interface.Parse.Pratt.{
  Tokens, infix_loop, unless_null, negated, by_unary_type, primary, published,
  kest_parse_expression,
}
use kestrel_interface.Parse.Granted.{new_const-Makes, new_unary-Makes, new_reference-Makes}
use kestrel_interface.Parse.Texts.{
  name-not_char, name-not_number, symbol-type, symbol-precedence, starts-term_tokens,
  symbol-not_bracket, strength-le-left, strength-lt-tail, level-le-tail,
}
use kestrel_interface.Parse.Steps.{
  parser, Follows, Follows-weaken, Follows-bare, Continues, Reads, Continues-Reads,
  primary-Continues, brackets-Continues, infix_loop-round,
}
use kestrel_interface.Parse.Applied.{call_1-Continues, call_2-Continues}
use kestrel_interface.Parse.Written.{
  Infix, Term, number, name, negative, infix_of, call_1, call_2, symbol, type_of, strength, left_of,
  right_of, level, tail, bracketed, term_tokens, tokens_at, nesting, nesting_at, IsTerm, tree,
  tree-there,
}

module _ (lib : MathLibrary) (tokens_end errors : ℕ) where
  open lib use {Float}

  -- The parser reads the term, wherever it may stand.
  abbrev IsRead : Term → Type 0
  IsRead t =
      (levels depth m : ℕ) (rest : Tokens)
      → nesting t ≤ levels
      → depth + nesting t ≤ 128
      → m ≤ level t
      → Follows lib tokens_end errors (tail t) rest
      → tokens_end ≤ length rest
      → Continues lib tokens_end errors levels depth (term_tokens t ++ rest) m (tree lib t) rest

  -- A closing bracket or a comma goes on with nothing.
  Follows-close :
      (k : ℕ) (rest : Tokens) → Follows lib tokens_end errors k (some (b')' ∷ []) ∷ rest)
  unfolding token_is_char kest_expression_token_infix_type
  Follows-close k rest = (refl, λ more type h. cc)

  Follows-comma :
      (k : ℕ) (rest : Tokens) → Follows lib tokens_end errors k (some (b',' ∷ []) ∷ rest)
  unfolding token_is_char kest_expression_token_infix_type
  Follows-comma k rest = (refl, λ more type h. cc)

  -- A whole argument, or what stands between brackets.
  whole-Reads :
      (t : Term) (levels depth : ℕ) (rest : Tokens)
      → IsRead t
      → nesting t < levels
      → depth + nesting t ≤ 128
      → Follows lib tokens_end errors 0 rest
      → tokens_end ≤ length rest
      → Reads lib tokens_end errors levels depth (term_tokens t ++ rest) 0 (tree lib t) rest
  whole-Reads t zero depth rest reads deep shallow follows before = absurd (omega arith)
  whole-Reads t (suc levels) depth rest reads deep shallow follows before =
      Continues-Reads lib tokens_end errors levels depth (term_tokens t ++ rest) 0 (tree lib t) rest
        follows
        (reads levels depth 0 rest (omega arith) shallow (omega arith)
          (Follows-weaken lib tokens_end errors 0 (tail t) rest (omega arith) follows) before)

  -- A term with brackets or without; `bare` is what a term without them asks of the rest.
  bracketed-Continues :
      (b : Bool) (t : Term) (levels depth m : ℕ) (rest : Tokens)
      → IsRead t
      → (if b then 1 else 0) + nesting t ≤ levels
      → depth + ((if b then 1 else 0) + nesting t) ≤ 128
      → (b ≡ false → (m ≤ level t) × Follows lib tokens_end errors (tail t) rest)
      → tokens_end ≤ length rest
      → Continues lib tokens_end errors levels depth
          (bracketed b (term_tokens t) ++ rest)
          m
          (tree lib t)
          rest
  bracketed-Continues false t levels depth m rest reads deep shallow bare before =
      reads levels depth m rest (omega arith) (omega arith) (bare refl).0 (bare refl).1 before
  bracketed-Continues true t levels depth m rest reads deep shallow bare before =
      subst
        (λ ts.
          Continues lib tokens_end errors levels depth (some (b'(' ∷ []) ∷ ts) m (tree lib t) rest)
        (sym (append_assoc (term_tokens t) (some (b')' ∷ []) ∷ []) rest))
        (brackets-Continues lib tokens_end errors levels depth m (term_tokens t) (tree lib t) rest
          (omega arith) (tree-there lib t)
          (whole-Reads t levels (depth + 1) (some (b')' ∷ []) ∷ rest) reads (omega arith)
            (omega arith) (Follows-close 0 rest) (omega arith)))

  -- An operand on the right, or behind a minus sign.
  operand-Reads :
      (t : Term) (levels depth q : ℕ) (rest : Tokens)
      → IsRead t
      → nesting_at q t < levels
      → depth + nesting_at q t ≤ 128
      → Follows lib tokens_end errors q rest
      → tokens_end ≤ length rest
      → Reads lib tokens_end errors levels depth (tokens_at q t ++ rest) q (tree lib t) rest
  operand-Reads t zero depth q rest reads deep shallow follows before = absurd (omega arith)
  operand-Reads t (suc levels) depth q rest reads deep shallow follows before =
      Continues-Reads lib tokens_end errors levels depth (tokens_at q t ++ rest) q (tree lib t) rest
        follows
        (bracketed-Continues (ltb (level t) q) t levels depth q rest reads (omega arith) shallow
          (λ e.
            let enough : q ≤ level t = ltb→le (level t) q e in
            (
              enough,
              Follows-weaken lib tokens_end errors q (tail t) rest (omega (arith, level-le-tail t))
                  follows,
            ))
          before)

  number-IsRead : (digits : List ℕ) → IsTerm (number digits) → IsRead (number digits)
  unfolding primary unless_null tree term_tokens
  number-IsRead digits h levels depth m rest deep shallow tight follows before =
      primary-Continues lib tokens_end errors levels depth digits rest m (tree lib (number digits))
        rest (omega arith) (omega arith)
        (λ w fine.
          let (w', made, fine') =
            new_const-Makes lib errors (token_to_float lib (some digits)) w fine in
          (w', fine', rw (h, made) refl))

  name-IsRead : (n : List ℕ) → IsTerm (name n) → IsRead (name n)
  unfolding primary by_unary_type tree term_tokens
  name-IsRead n (is_name, no_function) levels depth m rest deep shallow tight follows before =
      primary-Continues lib tokens_end errors levels depth n rest m (tree lib (name n)) rest
        (omega arith) (omega arith)
        (λ w fine.
          let (w', made, fine') = new_reference-Makes lib errors n w fine in
          let bracket : token_is_char (some n) b'(' ≡ false =
            name-not_char n b'(' (omega arith, omega arith) is_name in
          (
            w',
            fine',
            rw
                (
                  name-not_number n is_name,
                  bracket,
                  is_name,
                  Follows-bare lib tokens_end errors 100 rest follows,
                  no_function,
                  is_name,
                  made,
                )
                refl,
          ))

  negative-IsRead : (t : Term) → IsRead t → IsRead (negative t)
  unfolding primary by_unary_type negated tree term_tokens nesting token_is_number token_is_char
      token_is_name in_array name_loop char_is_letter kest_expression_token_unary_type
  negative-IsRead t reads levels depth m rest deep shallow tight follows before =
      primary-Continues lib tokens_end errors levels depth (b'-' ∷ []) (tokens_at 30 t ++ rest) m
        (tree lib (negative t)) rest (omega arith)
        (omega (arith, length-append (tokens_at 30 t) rest))
        (λ w fine.
          let (w1, fine1, run) =
            operand-Reads t levels (depth + 1) 30 rest reads (omega arith) (omega arith) follows
              before w fine in
          let (w2, made, fine2) =
            new_unary-Makes lib errors expr_neg (tree lib t) w1 (tree-there lib t) fine1 in
          (w2, fine2, ap (negated lib tokens_end expr_neg) run ∙ rw (tree-there lib t, made) refl))

  -- What a bare term on the left of an operator asks of it.
  operator-bare :
      (op : Infix) (s : Term) (m : ℕ) (ts : Tokens)
      → m ≤ strength op
      → ltb (level s) (left_of op) ≡ false
      → (m ≤ level s) × Follows lib tokens_end errors (tail s) (some (symbol op) ∷ ts)
  unfolding token_is_char
  operator-bare op s m ts tight e =
      let enough : left_of op ≤ level s = ltb→le (level s) (left_of op) e in
      (
        omega (arith, strength-le-left op),
        (
          symbol-not_bracket op,
          λ more type found.
              let same_type : type ≡ type_of op = cc (found, symbol-type op) in
              omega (
                arith,
                ap kest_expression_infix_operator_precedence same_type,
                symbol-precedence op,
                strength-lt-tail op s enough,
              ),
        ),
      )

  infix_of-IsRead : (op : Infix) (s t : Term) → IsRead s → IsRead t → IsRead (infix_of op s t)
  unfolding tree term_tokens nesting
  infix_of-IsRead op s t reads_s reads_t levels depth m rest deep shallow tight follows before =
      let right : Tokens = tokens_at (right_of op) t ++ rest in
      let left : Tokens = tokens_at (left_of op) s in
      let longer : length right ≡ length (tokens_at (right_of op) t) + length rest =
        length-append (tokens_at (right_of op) t) rest in
      subst
        (λ ts. Continues lib tokens_end errors levels depth ts m (tree lib (infix_of op s t)) rest)
        (sym (append_assoc left (some (symbol op) ∷ tokens_at (right_of op) t) rest))
        (λ w fine.
          let (n, w1, enough, fine1, run) =
            bracketed-Continues (ltb (level s) (left_of op)) s levels depth m
              (some (symbol op) ∷ right) reads_s (omega arith) (omega arith)
              (λ e. operator-bare op s m right tight e) (omega (arith, longer)) w fine in
          let (w2, fine2, round) =
            infix_loop-round lib tokens_end errors levels (depth + 1) (n - 1) m op (tree lib s)
              (tree lib t) right rest w1 tight (omega (arith, longer)) (tree-there lib s)
              (tree-there lib t)
              (operand-Reads t levels (depth + 1) (right_of op) rest reads_t (omega arith)
                (omega arith) follows before)
              fine1 in
          let positive : n ≡ suc (n - 1) = omega (arith, enough) in
          (
            n - 1,
            w2,
            omega (arith, enough, longer),
            fine2,
            run
                ∙ ap
                    (λ k.
                      infix_loop lib tokens_end (parser lib tokens_end errors levels (depth + 1)) k
                        (tree lib s) (some (symbol op) ∷ right) m w1)
                    positive
                ∙ round,
          ))

  call_1-IsRead :
      (f : List ℕ) (type : ExprType) (t : Term)
      → IsTerm (call_1 f type t)
      → IsRead t
      → IsRead (call_1 f type t)
  unfolding tree term_tokens nesting
  call_1-IsRead f type t (is_name, type_, h) reads levels depth m rest deep shallow tight follows
        before =
      subst
        (λ ts.
          Continues lib tokens_end errors levels depth (some f ∷ some (b'(' ∷ []) ∷ ts) m
            (tree lib (call_1 f type t)) rest)
        (sym (append_assoc (term_tokens t) (some (b')' ∷ []) ∷ []) rest))
        (call_1-Continues lib tokens_end errors levels depth m f type (term_tokens t) rest
          (tree lib t) (omega arith) before is_name type_
          (starts-term_tokens t (some (b')' ∷ []) ∷ rest) h) (tree-there lib t)
          (whole-Reads t levels (depth + 2) (some (b')' ∷ []) ∷ rest) reads (omega arith)
            (omega arith) (Follows-close 0 rest) (omega arith)))

  call_2-IsRead :
      (f : List ℕ) (type : ExprType) (s t : Term)
      → IsTerm (call_2 f type s t)
      → IsRead s
      → IsRead t
      → IsRead (call_2 f type s t)
  unfolding tree term_tokens nesting
  call_2-IsRead f type s t (is_name, type_, hs, ht) reads_s reads_t levels depth m rest deep shallow
        tight follows before =
      let close : Tokens = some (b')' ∷ []) ∷ [] in
      let second : Tokens = term_tokens t ++ some (b')' ∷ []) ∷ rest in
      let longer : length second ≡ length (term_tokens t) + suc (length rest) =
        length-append (term_tokens t) (some (b')' ∷ []) ∷ rest) in
      subst
        (λ ts.
          Continues lib tokens_end errors levels depth (some f ∷ some (b'(' ∷ []) ∷ ts) m
            (tree lib (call_2 f type s t)) rest)
        (ap (λ us. term_tokens s ++ some (b',' ∷ []) ∷ us)
            (sym (append_assoc (term_tokens t) close rest))
          ∙ sym (append_assoc (term_tokens s) (some (b',' ∷ []) ∷ (term_tokens t ++ close)) rest))
        (call_2-Continues lib tokens_end errors levels depth m f type (term_tokens s)
          (term_tokens t) rest (tree lib s) (tree lib t) (omega arith) before is_name type_
          (starts-term_tokens s (some (b',' ∷ []) ∷ second) hs)
          (starts-term_tokens t (some (b')' ∷ []) ∷ rest) ht) (tree-there lib s) (tree-there lib t)
          (whole-Reads s levels (depth + 2) (some (b',' ∷ []) ∷ second) reads_s (omega arith)
            (omega arith) (Follows-comma 0 second) (omega (arith, longer)))
          (whole-Reads t levels (depth + 2) (some (b')' ∷ []) ∷ rest) reads_t (omega arith)
            (omega arith) (Follows-close 0 rest) (omega arith)))

  all-IsRead : (t : Term) → IsTerm t → IsRead t
  all-IsRead (number digits) h = number-IsRead digits h
  all-IsRead (name n) h = name-IsRead n h
  all-IsRead (negative t) h = negative-IsRead t (all-IsRead t h)
  all-IsRead (infix_of op s t) (hs, ht) = infix_of-IsRead op s t (all-IsRead s hs) (all-IsRead t ht)
  all-IsRead (call_1 f type t) h = call_1-IsRead f type t h (all-IsRead t h.2)
  all-IsRead (call_2 f type s t) h =
      call_2-IsRead f type s t h (all-IsRead s h.2) (all-IsRead t h.3)

-- Every expression, written with the fewest brackets that the precedence and the associativity of
-- its operators ask for (a negation beside `^` has brackets too), parses back: for a term of numbers,
-- names that are no function's, minus signs, operators and calls, nested at most 128 calls of the
-- parser deep, in a state that grants all memory, where what follows the term is the end of the
-- expression or neither an infix operator nor an opening bracket, the result is the tree of the
-- term with its constants marked, the tokens behind the term are left, and no error is reported.
pub kest_parse_expression-term_tokens :
    (lib : MathLibrary) (tokens_end : ℕ) (t : Term) (rest : Tokens) (w : Work)
    → IsTerm t
    → nesting t ≤ 128
    → Follows lib tokens_end w.errors 0 rest
    → tokens_end ≤ length rest
    → ((i : ℕ) → w.grants i ≡ true)
    → (w' : Work) × (kest_parse_expression lib tokens_end (term_tokens t ++ rest) w
        ≡ ((kest_expression_detect_constants (tree lib t)).1, rest, w'))
      × (w'.errors ≡ w.errors)
unfolding kest_parse_expression published
kest_parse_expression-term_tokens lib tokens_end t rest w h deep follows before granted =
    let (w', fine, run) =
      whole-Reads lib tokens_end w.errors t 130 0 rest (all-IsRead lib tokens_end w.errors t h)
        (omega arith) (omega arith) follows before w
        (record { granted = granted; silent = refl }) in
    (w', ap (λ r. published lib tokens_end r (term_tokens t ++ rest)) run, fine.silent)
