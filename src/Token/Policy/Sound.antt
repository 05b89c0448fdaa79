-- ===== src/Token/Policy/Sound.antt =====
-- What tokenizer_policy of components/parser/kest_tokenizer.c answers in which state.
use kestrel_interface.Prelude.{ℕ, ◌≡◌, refl, Bool, true, false, ◌==◌, arith}
use kestrel_interface.Token.{char_is_in_string, in_array, newline}
use kestrel_interface.Token.Policy.{
  TokenizerState, TokenizerPolicy, state_idle, state_name, state_number, state_number_hex,
  state_number_bin, state_string, state_stresc, state_leading_zero, state_done, policy_discard,
  policy_accept, policy_singular, policy_begin, policy_end_accept, policy_end_discard,
  policy_complain, is_done, is_idle, is_blank, idle_case, name_case, leading_zero_case,
  number_bin_case, number_case, number_hex_case, switch_state, plain_policy, string_policy,
  by_state, tokenizer_policy,
}

-- Inside of a string.
abbrev pub is_quoting : TokenizerState → Bool
is_quoting state_string = true
is_quoting state_stresc = true
is_quoting _ = false

-- What the loop needs to know of an answer to the character `c` in state `s`.
abbrev pub Fits : ℕ → TokenizerState → TokenizerPolicy × TokenizerState → Type 0
Fits c s (policy_discard, s') = (is_blank c ≡ true) × (s ≡ state_idle) × (s' ≡ state_idle)
Fits c s (policy_accept, s') = (is_idle s' ≡ false)
Fits c s (policy_singular, s') = (is_quoting s' ≡ false)
Fits c s (policy_begin, s') = (s ≡ state_idle) × (is_idle s' ≡ false)
Fits c s (policy_end_accept, s') = (is_quoting s ≡ true) × (s' ≡ state_idle)
Fits c s (policy_end_discard, s') = (is_blank c ≡ true) × (s' ≡ state_idle)
Fits c s (policy_complain, s') = c ≡ newline

plain-Fits :
    (c : ℕ) (s : TokenizerState)
    → (c == 0) ≡ false
    → is_quoting s ≡ false
    → Fits c s (plain_policy c s)
unfolding plain_policy switch_state idle_case name_case leading_zero_case number_bin_case
    number_case number_hex_case is_idle is_blank char_is_in_string in_array
plain-Fits c state_idle h q = ground arith
plain-Fits c state_name h q = ground arith
plain-Fits c state_number h q = ground arith
plain-Fits c state_number_hex h q = ground arith
plain-Fits c state_number_bin h q = ground arith
plain-Fits c state_string h q = cc
plain-Fits c state_stresc h q = cc
plain-Fits c state_leading_zero h q = ground arith
plain-Fits c state_done h q = ground arith

string-Fits : (c : ℕ) → Fits c state_string (string_policy c)
unfolding string_policy is_idle
string-Fits c = ground arith

pub tokenizer_policy-Fits :
    (c : ℕ) (s : TokenizerState) → (c == 0) ≡ false → Fits c s (tokenizer_policy c s)
unfolding tokenizer_policy by_state is_idle
tokenizer_policy-Fits c state_idle h = rw h (plain-Fits c state_idle h refl)
tokenizer_policy-Fits c state_name h = rw h (plain-Fits c state_name h refl)
tokenizer_policy-Fits c state_number h = rw h (plain-Fits c state_number h refl)
tokenizer_policy-Fits c state_number_hex h = rw h (plain-Fits c state_number_hex h refl)
tokenizer_policy-Fits c state_number_bin h = rw h (plain-Fits c state_number_bin h refl)
tokenizer_policy-Fits c state_string h = rw h (string-Fits c)
tokenizer_policy-Fits c state_stresc h = rw h refl
tokenizer_policy-Fits c state_leading_zero h = rw h (plain-Fits c state_leading_zero h refl)
tokenizer_policy-Fits c state_done h = rw h (plain-Fits c state_done h refl)

plain-running :
    (c : ℕ) (s : TokenizerState)
    → is_done s ≡ false
    → is_quoting s ≡ false
    → is_done (plain_policy c s).1 ≡ false
unfolding plain_policy switch_state idle_case name_case leading_zero_case number_bin_case
    number_case number_hex_case is_idle is_done
plain-running c state_idle h q = ground arith
plain-running c state_name h q = ground arith
plain-running c state_number h q = ground arith
plain-running c state_number_hex h q = ground arith
plain-running c state_number_bin h q = ground arith
plain-running c state_leading_zero h q = ground arith
plain-running c state_string h q = cc
plain-running c state_stresc h q = cc
plain-running c state_done h q = cc

string-running : (c : ℕ) → is_done (string_policy c).1 ≡ false
unfolding string_policy is_done
string-running c = ground arith

pub tokenizer_policy-running :
    (c : ℕ) (s : TokenizerState)
    → (c == 0) ≡ false
    → is_done s ≡ false
    → is_done (tokenizer_policy c s).1 ≡ false
unfolding tokenizer_policy by_state is_done
tokenizer_policy-running c state_idle h d = rw h (plain-running c state_idle refl refl)
tokenizer_policy-running c state_name h d = rw h (plain-running c state_name refl refl)
tokenizer_policy-running c state_number h d = rw h (plain-running c state_number refl refl)
tokenizer_policy-running c state_number_hex h d = rw h (plain-running c state_number_hex refl refl)
tokenizer_policy-running c state_number_bin h d = rw h (plain-running c state_number_bin refl refl)
tokenizer_policy-running c state_leading_zero h d =
    rw h (plain-running c state_leading_zero refl refl)
tokenizer_policy-running c state_string h d = rw h (string-running c)
tokenizer_policy-running c state_stresc h d = rw h refl
tokenizer_policy-running c state_done h d = cc
