-- ===== src/Token/Numbers.antt =====
-- token_is_number of components/parser/kest_tokenizer.c on decimal tokens.
use kestrel_interface.Prelude.{
  ℕ, suc, ◌≤◌, ◌<◌, ◌≡◌, refl, Bool, true, false, ◌&&◌, ◌||◌, some, List, [], ◌∷◌, ◌==◌,
  if◌then◌else◌, ltb, arith, length, All, set, inl, inr, Bool-cases,
}
use kestrel_interface.Token.{char_is_number, in_array, allowed_chars, number_loop, token_is_number}

-- Digits, with at most `dots` of the character `.` among them.
unfoldable pub decimal : ℕ → List ℕ → Bool
decimal dots [] = true
decimal dots (c ∷ cs) =
    if char_is_number c
    then decimal dots cs
    else if c == b'.' && ltb 0 dots
    then decimal 0 cs
    else false

-- `allowed_chars` behind a dot
abbrev digits : List ℕ
digits = set allowed_chars 0 b'0'

in_array-allowed : (c : ℕ) → 0 < c → in_array c allowed_chars ≡ (char_is_number c || c == b'.')
unfolding in_array char_is_number
in_array-allowed c h = ground arith

in_array-digits : (c : ℕ) → 0 < c → in_array c digits ≡ char_is_number c
unfolding in_array char_is_number
in_array-digits c h = ground arith

base_not_number : (c : ℕ) → char_is_number c ≡ true → (c == b'x' || c == b'b') ≡ false
unfolding char_is_number
base_not_number c h = ground arith

dot_not_number : (c : ℕ) → char_is_number c ≡ true → (c == b'.') ≡ false
unfolding char_is_number
dot_not_number c h = ground arith

and_false : (b : Bool) → (b && false) ≡ false
and_false true = refl
and_false false = refl

number_loop-digits :
    (cs : List ℕ) (i len : ℕ) → All (λ c. 0 < c) cs → number_loop cs i len digits ≡ decimal 0 cs
unfolding number_loop decimal
number_loop-digits [] i len h = refl
number_loop-digits (c ∷ cs) i len (h, hs) = elim (Bool-cases (char_is_number c)) [
  | inl digit ↦
      rw
        (
          in_array-digits c h,
          digit,
          base_not_number c digit,
          dot_not_number c digit,
          and_false (i == 1),
        )
        (number_loop-digits cs (suc i) len hs)
  | inr other ↦ rw (in_array-digits c h, other, and_false (c == b'.')) refl
]

dot_allowed : in_array b'.' allowed_chars ≡ true
unfolding in_array
dot_allowed = refl

dot_is_other : char_is_number b'.' ≡ false
unfolding char_is_number
dot_is_other = refl

number_loop-decimal :
    (cs : List ℕ) (i len : ℕ)
    → All (λ c. 0 < c) cs
    → number_loop cs i len allowed_chars ≡ decimal 1 cs
unfolding number_loop decimal
number_loop-decimal [] i len h = refl
number_loop-decimal (c ∷ cs) i len (h, hs) = elim (Bool-cases (char_is_number c)) [
  | inl digit ↦
      rw
        (
          in_array-allowed c h,
          digit,
          base_not_number c digit,
          dot_not_number c digit,
          and_false (i == 1),
        )
        (number_loop-decimal cs (suc i) len hs)
  | inr other ↦ elim (Bool-cases (c == b'.')) [
    | inl dot ↦
        let is_dot : c ≡ b'.' = ground arith in
        rw (is_dot, dot_allowed, dot_is_other, and_false (i == 1))
          (number_loop-digits cs (suc i) len hs)
    | inr neither ↦ rw (in_array-allowed c h, other, neither) refl
  ]
]

-- A token without a 0, the first character of which is a digit from 1 to 9, is a number exactly
-- if the others are digits with at most one dot among them.
pub token_is_number-decimal :
    (c : ℕ) (cs : List ℕ)
    → b'1' ≤ c
    → c ≤ b'9'
    → All (λ x. 0 < x) cs
    → token_is_number (some (c ∷ cs)) ≡ decimal 1 cs
unfolding token_is_number char_is_number
token_is_number-decimal c cs low high h =
    let digit : char_is_number c ≡ true = ground arith in
    let not_zero : (c == b'0') ≡ false = ground arith in
    let not_dot : (c == b'.') ≡ false = ground arith in
    rw (in_array-allowed c (omega arith), digit, not_zero, not_dot)
      (number_loop-decimal cs 1 (suc (length cs)) h)
