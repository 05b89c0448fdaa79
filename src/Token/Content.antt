-- ===== src/Token/Content.antt =====
-- kest_tokenize_content of components/parser/kest_tokenizer.c, with kest_parser_strndup and the
-- arena of components/parser/kest_eff_parser.c. The message of an error is not modelled.
pub mod Spans
pub mod Shown
pub mod Held
pub mod Applied
pub mod Reading
pub mod Kept
pub mod Words
pub mod Names
use kestrel_interface.Prelude.{
  ℕ, suc, ◌+◌, ◌-◌, Bool, true, false, not, Option, none, some, List, [], ◌∷◌, ◌++◌, ◌==◌,
  if◌then◌else◌, ltb, length, take, drop, get_or, ◌⊎◌, inl, inr,
}
use kestrel_interface.Status.{no_error, err_null_ptr, err_bad_args, err_alloc_fail}
use kestrel_interface.Arena.{BumpArena, kest_bump_arena_alloc}
use kestrel_interface.Token.{Token, newline, same}
use kestrel_interface.Token.Policy.{
  TokenizerState, TokenizerPolicy, state_idle, state_done, policy_discard, policy_accept,
  policy_singular, policy_begin, policy_end_accept, policy_end_discard, policy_complain, is_done,
  tokenizer_policy,
}

-- The arena, and the list that `ps->tokens` points to.
pub record Parsed : Type 0 where
  pub arena : Option BumpArena
  pub tokens : List Token

abbrev pub ver_str : List ℕ
ver_str = b'v' ∷ b'1' ∷ b'.' ∷ b'0' ∷ []

-- The copy of `strnlen (str, n)` characters.
unfoldable pub strn : List ℕ → ℕ → List ℕ
strn [] n = []
strn (c ∷ cs) n = if n == 0 then [] else if c == 0 then [] else c ∷ strn cs (n - 1)

abbrev pub copied : List ℕ → Option ℕ → Option (List ℕ)
copied str none = none
copied str (some p) = some str

unfoldable pub kest_parser_strndup :
    Option BumpArena → List ℕ → ℕ → Option (List ℕ) × Option BumpArena
kest_parser_strndup arena str n =
    let (p, arena') = kest_bump_arena_alloc arena (length (strn str n) + 1) in
    (copied (strn str n) p, arena')

-- `sizeof(kest_token_ll)` on the device
abbrev pub token_size : ℕ
token_size = 16

linked : Option ℕ → List Token → Token → ℕ × List Token
linked none ts node = (err_alloc_fail, ts)
linked (some p) ts node = (no_error, ts ++ node ∷ [])

unfoldable pub kest_token_ll_safe_aappend : Parsed → Option (List ℕ) → ℕ → ℕ → ℕ × Parsed
unfolding linked
kest_token_ll_safe_aappend ps x line index =
    let (p, arena') = kest_bump_arena_alloc ps.arena token_size in
    let (code, tokens') = linked p ps.tokens (record { text = x; line = line; index = index }) in
    (code, record { arena = arena'; tokens = tokens' })

-- A span is copied and appended; the code of the append is dropped.
unfoldable pub append_span : Parsed → List ℕ → ℕ → ℕ → ℕ → Parsed
append_span ps str n line index =
    let (copy, arena') = kest_parser_strndup ps.arena str n in
    (kest_token_ll_safe_aappend (record ps { arena = arena' }) copy line index).1

-- The locals of the loop. `line_char`, which nothing reads, is left out.
pub record TokenizerLocals : Type 0 where
  pub line : ℕ
  pub token_index : ℕ
  pub buf_pos : ℕ
  pub token_start : ℕ
  pub file_pos : ℕ
  pub state : TokenizerState
  pub parsed : Parsed

unfoldable pub count_line : ℕ → TokenizerLocals → TokenizerLocals
count_line c l = if c == newline then record l { line = l.line + 1; token_index = 0 } else l

-- Behind the `switch`, unless it has returned.
unfoldable pub behind : ℕ → Parsed ⊎ TokenizerLocals → Parsed ⊎ TokenizerLocals
behind c (inl ps) = inl ps
behind c (inr l) = inr (count_line c l)

module _ (content : List ℕ) where
  -- The token that has been read so far ends.
  unfoldable pub end_token : TokenizerLocals → TokenizerLocals
  end_token l = record l {
    parsed = append_span l.parsed (drop l.token_start content) l.buf_pos l.line l.token_index;
    token_index = l.token_index + (l.buf_pos + 1);
    buf_pos = 0;
  }

  unfoldable pub single_token : TokenizerLocals → TokenizerLocals
  single_token l = record l {
    parsed = append_span l.parsed (drop (l.file_pos - 1) content) 1 l.line l.token_index;
    token_index = l.token_index + 1;
  }

  -- The `switch` on the policy; a complaint returns, with the tokens up to there.
  unfoldable pub apply_policy : TokenizerPolicy → TokenizerLocals → Parsed ⊎ TokenizerLocals
  apply_policy policy_discard l = inr l
  apply_policy policy_accept l = inr (record l {
    token_start = if l.buf_pos == 0 then l.file_pos - 1 else l.token_start;
    buf_pos = l.buf_pos + 1;
  })
  apply_policy policy_singular l = inr (single_token (if l.buf_pos == 0 then l else end_token l))
  apply_policy policy_begin l = inr (record l { token_start = l.file_pos - 1; buf_pos = 1 })
  apply_policy policy_end_accept l = inr (end_token (record l { buf_pos = l.buf_pos + 1 }))
  apply_policy policy_end_discard l = inr (end_token l)
  apply_policy policy_complain l = inl l.parsed

  -- The body of the loop, for the character `c` at `file_pos`.
  unfoldable pub read_char : ℕ → TokenizerLocals → Parsed ⊎ TokenizerLocals
  read_char c l =
      let (policy, state') =
        if c == 0 then (policy_discard, state_done) else tokenizer_policy c l.state in
      behind c (apply_policy policy (record l { file_pos = l.file_pos + 1; state = state' }))

  -- The loop: what is left of the content from `file_pos` on; the byte behind the file is 0.
  unfoldable pub read_all : List ℕ → TokenizerLocals → Parsed ⊎ TokenizerLocals
  read_all [] l = read_char 0 l
  read_all (c ∷ rest) l = elim (read_char c l) [
    | inl ps ↦ inl ps
    | inr l' ↦ if is_done l'.state then inr l' else read_all rest l'
  ]

  unfoldable pub last_token : TokenizerLocals → Parsed
  last_token l = if l.buf_pos == 0 then l.parsed else (end_token l).parsed

pub record EffParsingState : Type 0 where
  pub content : Option (List ℕ)
  pub file_size : ℕ
  pub n_lines : ℕ
  pub parsed : Parsed

unfoldable pub first_locals : Parsed → TokenizerLocals
first_locals parsed = record {
  line = 1;
  token_index = 0;
  buf_pos = 0;
  token_start = 0;
  file_pos = 4;
  state = state_idle;
  parsed = append_span parsed ver_str 4 1 0;
}

-- Behind the loop.
unfoldable pub returned : EffParsingState → List ℕ → Parsed ⊎ TokenizerLocals → ℕ × EffParsingState
returned ps content (inl parsed) = (err_bad_args, record ps { parsed = parsed })
returned ps content (inr l) =
    (no_error, record ps { parsed = last_token content l; n_lines = l.line })

-- Behind the version string.
unfoldable pub tokenize_from : EffParsingState → List ℕ → ℕ × EffParsingState
tokenize_from ps content =
    returned ps content (read_all content (drop 4 content) (first_locals ps.parsed))

-- The guards on the content.
unfoldable pub tokenize_content : EffParsingState → Option (List ℕ) → ℕ × EffParsingState
tokenize_content ps none = (err_bad_args, ps)
tokenize_content ps (some content) =
    if ltb ps.file_size 4
    then (err_bad_args, ps)
    else if not (same ver_str (strn content 4))
    then (err_bad_args, ps)
    else tokenize_from ps content

unfoldable pub kest_tokenize_content : Option EffParsingState → ℕ × Option EffParsingState
kest_tokenize_content none = (err_null_ptr, none)
kest_tokenize_content (some ps) =
    let (code, ps') = tokenize_content ps ps.content in (code, some ps')
