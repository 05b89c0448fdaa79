-- ===== src/Token/Content/Words.antt =====
-- kest_tokenize_content of components/parser/kest_tokenizer.c while it reads a name.
use kestrel_interface.Prelude.{
  ℕ, ◌+◌, ◌-◌, ◌≤◌, ◌<◌, ◌≡◌, refl, ap, ap₂, ◌∙◌, Bool, true, false, ◌||◌, List, [], ◌∷◌, ◌++◌,
  ◌==◌, if◌then◌else◌, arith, length, All, inl, inr, ◌⊎◌,
}
use kestrel_interface.Token.{
  newline, space, char_is_letter, char_is_number, char_is_alphanumeric, char_is_bracket,
}
use kestrel_interface.Token.Policy.{
  policy_accept, policy_begin, policy_end_discard, state_idle, state_name, is_blank, is_idle,
  is_done, is_single, is_numeric, idle_case, name_case, switch_state, plain_policy, by_state,
  tokenizer_policy,
}
use kestrel_interface.Token.Content.{
  Parsed, TokenizerLocals, end_token, apply_policy, count_line, behind, read_char, read_all,
}

-- A character of a name behind the first.
unfoldable pub is_word_char : ℕ → Bool
is_word_char c = c == b'_' || char_is_alphanumeric c

idle-letter :
    (c : ℕ) → char_is_letter c ≡ true → tokenizer_policy c state_idle ≡ (policy_begin, state_name)
unfolding tokenizer_policy by_state plain_policy is_idle is_single is_numeric char_is_bracket
    switch_state idle_case is_blank char_is_letter
idle-letter c h = ground arith

name-word :
    (c : ℕ) → is_word_char c ≡ true → tokenizer_policy c state_name ≡ (policy_accept, state_name)
unfolding tokenizer_policy by_state plain_policy is_idle is_single is_numeric char_is_bracket
    switch_state name_case is_blank is_word_char char_is_alphanumeric char_is_letter char_is_number
name-word c h = ground arith

name-space : tokenizer_policy space state_name ≡ (policy_end_discard, state_idle)
unfolding tokenizer_policy by_state plain_policy is_idle is_blank
name-space = refl

word-not_newline : (c : ℕ) → is_word_char c ≡ true → (c == newline) ≡ false
unfolding is_word_char char_is_alphanumeric char_is_letter char_is_number
word-not_newline c h = ground arith

pub word-there : (c : ℕ) → is_word_char c ≡ true → (c == 0) ≡ false
unfolding is_word_char char_is_alphanumeric char_is_letter char_is_number
word-there c h = ground arith

pub letter-word : (c : ℕ) → char_is_letter c ≡ true → is_word_char c ≡ true
unfolding is_word_char char_is_alphanumeric char_is_letter
letter-word c h = ground arith

-- The text begins with a letter, and goes on with letters, digits and `_`.
abbrev pub IsName : List ℕ → Type 0
IsName [] = 1 ≤ 0
IsName (c ∷ cs) = (char_is_letter c ≡ true) × All (λ x. is_word_char x ≡ true) cs

module _ (content : List ℕ) where
  -- In a name, at place `n`, with `k` characters read.
  abbrev word_at : TokenizerLocals → ℕ → ℕ → TokenizerLocals
  word_at l n k = record l { state = state_name; file_pos = n; buf_pos = k }

  read_char-word :
      (c : ℕ) (l : TokenizerLocals) (n k : ℕ)
      → is_word_char c ≡ true
      → 0 < k
      → read_char content c (word_at l n k) ≡ inr (word_at l (n + 1) (k + 1))
  unfolding read_char apply_policy behind count_line
  read_char-word c l n k h positive =
      let there : (c == 0) ≡ false = word-there c h in
      let inside : (c == newline) ≡ false = word-not_newline c h in
      let busy : (k == 0) ≡ false = ground arith in rw (there, name-word c h, busy, inside) refl

  read_char-first :
      (c : ℕ) (l : TokenizerLocals)
      → char_is_letter c ≡ true
      → l.state ≡ state_idle
      → read_char content c l
        ≡ inr (word_at (record l { token_start = l.file_pos + 1 - 1 }) (l.file_pos + 1) 1)
  unfolding read_char apply_policy behind count_line
  read_char-first c l h idle =
      let there : (c == 0) ≡ false = word-there c (letter-word c h) in
      let inside : (c == newline) ≡ false = word-not_newline c (letter-word c h) in
      let policy : tokenizer_policy c l.state ≡ (policy_begin, state_name) =
        ap (tokenizer_policy c) idle ∙ idle-letter c h in
      rw (there, policy, inside) refl

  read_char-space :
      (l : TokenizerLocals) (n k : ℕ)
      → read_char content space (word_at l n k)
        ≡ inr (end_token content (record l { state = state_idle; file_pos = n + 1; buf_pos = k }))
  unfolding read_char apply_policy behind count_line end_token
  read_char-space l n k = rw name-space refl

  read_all-step :
      (c : ℕ) (rest : List ℕ) (l l' : TokenizerLocals)
      → read_char content c l ≡ inr l'
      → is_done l'.state ≡ false
      → read_all content (c ∷ rest) l ≡ read_all content rest l'
  unfolding read_all
  read_all-step c rest l l' ran going =
      ap
        (λ (r : Parsed ⊎ TokenizerLocals). elim r [
          | inl ps ↦ inl ps
          | inr m ↦ if is_done m.state then inr m else read_all content rest m
        ])
        ran
      ∙ rw going refl

  read_all-word :
      (cs rest : List ℕ) (l : TokenizerLocals) (n k : ℕ)
      → All (λ x. is_word_char x ≡ true) cs
      → 0 < k
      → read_all content (cs ++ rest) (word_at l n k)
        ≡ read_all content rest (word_at l (n + length cs) (k + length cs))
  unfolding is_done
  read_all-word [] rest l n k h positive =
      ap₂ (λ a b. read_all content rest (word_at l a b)) (omega arith) (omega arith)
  read_all-word (c ∷ cs) rest l n k (h, hs) positive =
      read_all-step c (cs ++ rest) (word_at l n k) (word_at l (n + 1) (k + 1))
        (read_char-word c l n k h positive) refl
      ∙ read_all-word cs rest l (n + 1) (k + 1) hs (omega arith)
      ∙ ap₂ (λ a b. read_all content rest (word_at l a b)) (omega arith) (omega arith)

  -- Behind a name and its blank.
  abbrev pub behind_name : TokenizerLocals → ℕ → TokenizerLocals
  behind_name l n = end_token content (record l {
    state = state_idle;
    token_start = l.file_pos + 1 - 1;
    file_pos = l.file_pos + 1 + n + 1;
    buf_pos = 1 + n;
  })

  pub read_all-name :
      (c : ℕ) (cs rest : List ℕ) (l : TokenizerLocals)
      → IsName (c ∷ cs)
      → l.state ≡ state_idle
      → read_all content (c ∷ cs ++ (space ∷ rest)) l
        ≡ read_all content rest (behind_name l (length cs))
  unfolding is_done end_token
  read_all-name c cs rest l (letter, word) idle =
      let l1 : TokenizerLocals = record l { token_start = l.file_pos + 1 - 1 } in
      read_all-step c (cs ++ (space ∷ rest)) l (word_at l1 (l.file_pos + 1) 1)
        (read_char-first c l letter idle) refl
      ∙ read_all-word cs (space ∷ rest) l1 (l.file_pos + 1) 1 word (omega arith)
      ∙ read_all-step space rest (word_at l1 (l.file_pos + 1 + length cs) (1 + length cs))
          (behind_name l (length cs))
          (read_char-space l1 (l.file_pos + 1 + length cs) (1 + length cs)) refl
