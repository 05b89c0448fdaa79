-- ===== src/Token/Policy.antt =====
-- tokenizer_policy of components/parser/kest_tokenizer.c, which is always called with a state.
pub mod Sound
use kestrel_interface.Prelude.{
  ℕ, Bool, true, false, not, ◌&&◌, ◌||◌, some, List, [], ◌∷◌, ◌==◌, if◌then◌else◌,
}
use kestrel_interface.Token.{
  tab, newline, space, quote, backslash, char_is_letter, char_is_number, char_is_alphanumeric,
  char_is_bracket, char_is_in_string,
}

pub data TokenizerState : Type 0 where
  state_idle : TokenizerState
  state_name : TokenizerState
  state_number : TokenizerState
  state_number_hex : TokenizerState
  state_number_bin : TokenizerState
  state_string : TokenizerState
  state_stresc : TokenizerState
  state_leading_zero : TokenizerState
  state_done : TokenizerState

pub data TokenizerPolicy : Type 0 where
  policy_discard : TokenizerPolicy
  policy_accept : TokenizerPolicy
  policy_singular : TokenizerPolicy
  policy_begin : TokenizerPolicy
  policy_end_accept : TokenizerPolicy
  policy_end_discard : TokenizerPolicy
  policy_complain : TokenizerPolicy

unfoldable pub is_idle : TokenizerState → Bool
is_idle state_idle = true
is_idle _ = false

unfoldable pub is_done : TokenizerState → Bool
is_done state_done = true
is_done _ = false

-- The states in which a dot belongs to the token.
unfoldable pub is_numeric : TokenizerState → Bool
is_numeric state_leading_zero = true
is_numeric state_number = true
is_numeric state_number_bin = true
is_numeric state_number_hex = true
is_numeric _ = false

unfoldable pub is_blank : ℕ → Bool
is_blank c = c == space || c == tab

-- Characters that are a token of their own in this state.
unfoldable pub is_single : ℕ → TokenizerState → Bool
is_single c state =
    c == newline
    || char_is_bracket c
    || c == b':'
    || c == b','
    || (c == b'.' && not (is_numeric state))

-- The cases of the `switch`, of which that of hexadecimal numbers falls through to that of
-- numbers, and this to that of binary ones.
unfoldable pub idle_case : ℕ → TokenizerPolicy × TokenizerState
idle_case c =
    if is_blank c
    then (policy_discard, state_idle)
    else if char_is_letter c
    then (policy_begin, state_name)
    else if char_is_number c
    then (policy_begin, if c == b'0' then state_leading_zero else state_number)
    else if c == quote
    then (policy_begin, state_string)
    else (policy_singular, state_idle)

unfoldable pub name_case : ℕ → TokenizerPolicy × TokenizerState
name_case c =
    if c == b'_' || char_is_alphanumeric c
    then (policy_accept, state_name)
    else if char_is_in_string c (some (space ∷ tab ∷ []))
    then (policy_end_discard, state_idle)
    else (policy_singular, state_name)

unfoldable pub leading_zero_case : ℕ → TokenizerPolicy × TokenizerState
leading_zero_case c =
    if c == b'b'
    then (policy_accept, state_number_bin)
    else if c == b'x'
    then (policy_accept, state_number_hex)
    else if c == b'.'
    then (policy_accept, state_number)
    else if not (
        char_is_in_string c
          (some (b'0' ∷ b'1' ∷ b'2' ∷ b'3' ∷ b'4' ∷ b'5' ∷ b'6' ∷ b'7' ∷ b'8' ∷ b'9' ∷ [])))
    then (policy_singular, state_idle)
    else (policy_accept, state_leading_zero)

unfoldable pub number_bin_case : ℕ → TokenizerState → TokenizerPolicy × TokenizerState
number_bin_case c state =
    if c == b'0' || c == b'1' || c == b'.'
    then (policy_accept, state)
    else (policy_singular, state_idle)

unfoldable pub number_case : ℕ → TokenizerState → TokenizerPolicy × TokenizerState
number_case c state =
    if char_is_in_string c
      (some (b'.' ∷ b'1' ∷ b'2' ∷ b'3' ∷ b'4' ∷ b'5' ∷ b'6' ∷ b'7' ∷ b'8' ∷ b'9' ∷ []))
    then (policy_accept, state)
    else number_bin_case c state

unfoldable pub number_hex_case : ℕ → TokenizerState → TokenizerPolicy × TokenizerState
number_hex_case c state =
    if char_is_in_string c (
      some (b'a' ∷ b'b' ∷ b'c' ∷ b'd' ∷ b'e' ∷ b'f' ∷ b'A' ∷ b'B' ∷ b'C' ∷ b'D' ∷ b'E' ∷ b'F' ∷ []))
    then (policy_accept, state)
    else number_case c state

unfoldable pub switch_state : ℕ → TokenizerState → TokenizerPolicy × TokenizerState
switch_state c state_idle = idle_case c
switch_state c state_name = name_case c
switch_state c state_leading_zero = leading_zero_case c
switch_state c state_number_hex = number_hex_case c state_number_hex
switch_state c state_number = number_case c state_number
switch_state c state_number_bin = number_bin_case c state_number_bin
switch_state c state = (policy_singular, state)

-- Outside of a string.
unfoldable pub plain_policy : ℕ → TokenizerState → TokenizerPolicy × TokenizerState
plain_policy c state =
    if not (is_idle state) && is_blank c
    then (policy_end_discard, state_idle)
    else if is_single c state
    then (policy_singular, state_idle)
    else switch_state c state

unfoldable pub string_policy : ℕ → TokenizerPolicy × TokenizerState
string_policy c =
    if c == quote
    then (policy_end_accept, state_idle)
    else if c == backslash
    then (policy_accept, state_stresc)
    else if c == newline
    then (policy_complain, state_string)
    else (policy_accept, state_string)

unfoldable pub by_state : ℕ → TokenizerState → TokenizerPolicy × TokenizerState
by_state c state_string = string_policy c
by_state c state_stresc = (policy_accept, state_string)
by_state c state = plain_policy c state

-- An unsigned `char` is never EOF.
unfoldable pub tokenizer_policy : ℕ → TokenizerState → TokenizerPolicy × TokenizerState
tokenizer_policy c state = if c == 0 then (policy_discard, state_done) else by_state c state
