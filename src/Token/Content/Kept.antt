-- ===== src/Token/Content/Kept.antt =====
-- What kest_tokenize_content of components/parser/kest_tokenizer.c keeps of the source.
use kestrel_interface.Prelude.{
  ℕ, suc, ◌+◌, ◌*◌, ◌≤◌, ◌<◌, ◌≡◌, refl, ap, ◌∙◌, false, some, List, [], ◌++◌, ltb, arith, length,
  inl, inr, ◌⊎◌,
}
use kestrel_interface.Status.{no_error, err_bad_args}
use kestrel_interface.Token.Policy.{is_done}
use kestrel_interface.Token.Content.{
  Parsed, TokenizerLocals, append_span, read_all, ver_str, first_locals, EffParsingState,
  tokenize_from, tokenize_content, returned, kest_tokenize_content, strn,
}
use kestrel_interface.Token.Content.Spans.{Room, Room-weaken, strn-append}
use kestrel_interface.Token.Content.Shown.{visible, newlines, token_texts, append_span-shown}
use kestrel_interface.Token.Content.Held.{Held}
use kestrel_interface.Token.Content.Reading.{Ended, until_nul, read_all-Ended}

-- A run that returned NO_ERROR: the tokens show the visible text, and the lines are counted.
abbrev pub Tokenized : List ℕ → EffParsingState → Type 0
Tokenized source ps =
    (visible (token_texts ps.parsed.tokens) ≡ visible source) × (ps.n_lines ≡ suc (newlines source))

first-Held :
    (parsed : Parsed) (text : List ℕ)
    → parsed.tokens ≡ []
    → Room parsed.arena (27 + 24 * length text)
    → Held (ver_str ++ text) ver_str [] text (first_locals parsed)
unfolding first_locals is_done visible token_texts newlines
first-Held parsed text none_yet r =
    let (kept, room) =
      append_span-shown parsed ver_str ver_str [] 1 0 (24 * length text) refl
        (omega arith, (omega arith, (omega arith, (omega arith, _)))) r in
    record {
      splits = refl;
      place = omega arith;
      size = refl;
      start = λ i. absurd (omega arith);
      nonzero = ((omega arith, (omega arith, (omega arith, (omega arith, _)))), _);
      nothing = λ i. refl;
      quoting = λ i. cc;
      running = refl;
      kept = kept ∙ ap (λ ts. visible (token_texts ts) ++ visible ver_str) none_yet;
      room = Room-weaken (append_span parsed ver_str 4 1 0).arena (omega arith) room;
    }

returned-Tokenized :
    (ps : EffParsingState) (content source : List ℕ) (out : Parsed ⊎ TokenizerLocals)
    → Ended content source out
    → (((returned ps content out).0 ≡ no_error) × Tokenized source (returned ps content out).1)
      ⊎ (((returned ps content out).0 ≡ err_bad_args) × (0 < newlines source))
unfolding returned
returned-Tokenized ps content source (inl parsed) e = inr (refl, e)
returned-Tokenized ps content source (inr l) (kept, counted) = inl (refl, (kept, counted))

pub tokenize_content-from :
    (ps : EffParsingState) (text : List ℕ)
    → 4 ≤ ps.file_size
    → tokenize_content ps (some (ver_str ++ text)) ≡ tokenize_from ps (ver_str ++ text)
unfolding tokenize_content
tokenize_content-from ps text long =
    let enough : ltb ps.file_size 4 ≡ false = ground arith in
    let version : strn (ver_str ++ text) 4 ≡ ver_str =
      strn-append ver_str text (omega arith, (omega arith, (omega arith, (omega arith, _)))) in
    rw (enough, version) refl

-- For a file that begins with the version string, behind an empty list of tokens, in an arena with
-- 27 bytes and 24 more for every byte behind that string: the tokens one behind the other are the
-- text up to its first 0, but for blanks, and every line is counted; or the call returns
-- ERR_BAD_ARGS, which it never does for a text without a newline.
pub kest_tokenize_content-Tokenized :
    (ps : EffParsingState) (text : List ℕ)
    → ps.content ≡ some (ver_str ++ text)
    → 4 ≤ ps.file_size
    → ps.parsed.tokens ≡ []
    → Room ps.parsed.arena (27 + 24 * length text)
    → (code : ℕ) × (ps' : EffParsingState) × (kest_tokenize_content (some ps) ≡ (code, some ps'))
      × (((code ≡ no_error) × Tokenized (ver_str ++ until_nul text) ps')
          ⊎ ((code ≡ err_bad_args) × (0 < newlines (ver_str ++ until_nul text))))
unfolding kest_tokenize_content tokenize_from first_locals newlines
kest_tokenize_content-Tokenized ps text there long none_yet r =
    let content : List ℕ = ver_str ++ text in
    let out : Parsed ⊎ TokenizerLocals = read_all content text (first_locals ps.parsed) in
    (
      (returned ps content out).0,
      (returned ps content out).1,
      ap (λ (r : ℕ × EffParsingState). (r.0, some r.1))
          (ap (tokenize_content ps) there ∙ tokenize_content-from ps text long),
      returned-Tokenized ps content (ver_str ++ until_nul text) out (
          read_all-Ended text content ver_str [] (first_locals ps.parsed)
            (first-Held ps.parsed text none_yet r) (omega arith)),
    )
