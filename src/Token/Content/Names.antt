-- ===== src/Token/Content/Names.antt =====
-- kest_tokenize_content of components/parser/kest_tokenizer.c on a text of names.
use mathlib.Core.List.{map-append}
use kestrel_interface.Prelude.{
  ℕ, ◌+◌, ◌-◌, ◌*◌, ◌≤◌, ◌<◌, ◌≡◌, refl, sym, ap, ap₂, subst, ◌∙◌, true, false, Option, some, List,
  [], ◌∷◌, ◌++◌, map, append_assoc, append-nil, ◌==◌, arith, length, length-append, All, drop, inr,
}
use kestrel_interface.Status.{no_error}
use kestrel_interface.Token.{Token, space}
use kestrel_interface.Token.Policy.{state_idle, state_done}
use kestrel_interface.Token.Content.{
  Parsed, TokenizerLocals, append_span, end_token, apply_policy, count_line, behind, read_char,
  read_all, last_token, ver_str, first_locals, EffParsingState, tokenize_from, returned,
  tokenize_content, kest_tokenize_content,
}
use kestrel_interface.Token.Content.Spans.{Room, Room-weaken, append_span-Room}
use kestrel_interface.Token.Content.Shown.{drop-append}
use kestrel_interface.Token.Content.Kept.{tokenize_content-from}
use kestrel_interface.Token.Content.Words.{
  is_word_char, letter-word, word-there, IsName, behind_name, read_all-name,
}

-- Names, each with a blank behind it.
unfoldable pub names_text : List (List ℕ) → List ℕ
names_text [] = []
names_text (w ∷ ws) = w ++ (space ∷ names_text ws)

word-positive : (cs : List ℕ) → All (λ x. is_word_char x ≡ true) cs → All (λ x. 0 < x) cs
word-positive [] h = _
word-positive (c ∷ cs) (h, hs) =
    let there : (c == 0) ≡ false = word-there c h in (ground arith, word-positive cs hs)

abbrev pub texts : Parsed → List (Option (List ℕ))
texts ps = map (λ (t : Token). t.text) ps.tokens

-- The token of a name that has been read.
behind_name-texts :
    (content before : List ℕ) (c : ℕ) (cs rest : List ℕ) (l : TokenizerLocals) (n : ℕ)
    → content ≡ before ++ (c ∷ cs ++ (space ∷ rest))
    → l.file_pos ≡ length before
    → IsName (c ∷ cs)
    → Room l.parsed.arena (length (c ∷ cs) + 23 + n)
    → (texts (behind_name content l (length cs)).parsed ≡ texts l.parsed ++ some (c ∷ cs) ∷ [])
      × Room (behind_name content l (length cs)).parsed.arena n
unfolding end_token
behind_name-texts content before c cs rest l n split place (letter, word) room =
    let start : l.file_pos + 1 - 1 ≡ length before = omega (arith, place) in
    let source : drop (l.file_pos + 1 - 1) content ≡ c ∷ cs ++ (space ∷ rest) =
      ap₂ drop start split ∙ drop-append before (c ∷ cs ++ (space ∷ rest)) in
    let size : 1 + length cs ≡ length (c ∷ cs) = omega arith in
    let (arena', result, room') =
      append_span-Room l.parsed (c ∷ cs) (space ∷ rest) l.line l.token_index n
        (word-positive (c ∷ cs) (letter-word c letter, word)) room in
    let run : append_span l.parsed (drop (l.file_pos + 1 - 1) content) (1 + length cs) l.line
          l.token_index
        ≡ record {
          arena = arena';
          tokens =
              l.parsed.tokens
              ++ record { text = some (c ∷ cs); line = l.line; index = l.token_index } ∷ [];
        } =
      ap₂ (λ s k. append_span l.parsed s k l.line l.token_index) source size ∙ result in
    (
      ap texts run
          ∙ map-append (λ (t : Token). t.text) l.parsed.tokens
              (record { text = some (c ∷ cs); line = l.line; index = l.token_index } ∷ []),
      subst (λ (ps : Parsed). Room ps.arena n) (sym run) room',
    )

-- From between two names on, the loop reads the names that are left.
read_all-names :
    (ws : List (List ℕ)) (content before : List ℕ) (l : TokenizerLocals)
    → All IsName ws
    → content ≡ before ++ names_text ws
    → l.file_pos ≡ length before
    → l.state ≡ state_idle
    → l.buf_pos ≡ 0
    → Room l.parsed.arena (24 * length (names_text ws))
    → (l' : TokenizerLocals) × (read_all content (names_text ws) l ≡ inr l')
      × (texts l'.parsed ≡ texts l.parsed ++ map some ws)
      × (l'.buf_pos ≡ 0)
unfolding names_text read_all read_char apply_policy behind count_line end_token
read_all-names [] content before l names split place idle empty room = (
  record l { file_pos = l.file_pos + 1; state = state_done },
  refl,
  sym (append-nil (texts l.parsed)),
  empty,
)
read_all-names ([] ∷ ws) content before l (bad, names) split place idle empty room =
    absurd (omega arith)
read_all-names ((c ∷ cs) ∷ ws) content before l (name, names) split place idle empty room =
    let rest : List ℕ = names_text ws in
    let l1 : TokenizerLocals = behind_name content l (length cs) in
    let (one, room1) =
      behind_name-texts content before c cs rest l (24 * length rest) split place name
        (Room-weaken l.parsed.arena (omega (arith, length-append cs (space ∷ rest))) room) in
    let before1 : List ℕ = before ++ (c ∷ cs ++ space ∷ []) in
    let split1 : content ≡ before1 ++ rest =
      split
      ∙ ap (λ xs. before ++ xs) (sym (append_assoc (c ∷ cs) (space ∷ []) rest))
      ∙ sym (append_assoc before (c ∷ cs ++ space ∷ []) rest) in
    let (l', ran, all, empty') =
      read_all-names ws content before1 l1 names split1
        (omega (
          arith,
          place,
          length-append before (c ∷ cs ++ space ∷ []),
          length-append cs (space ∷ []),
        ))
        refl refl room1 in
    (
      l',
      read_all-name content c cs rest l name idle ∙ ran,
      all
          ∙ ap (λ xs. xs ++ map some ws) one
          ∙ append_assoc (texts l.parsed) (some (c ∷ cs) ∷ []) (map some ws),
      empty',
    )

-- A file of names, each with a blank behind it, reads back as those names: for the version string
-- and then the names, behind an empty list of tokens, in an arena with 27 bytes and 24 more for
-- every byte behind that string, the call returns NO_ERROR, and the texts of the tokens are the
-- version string and the names in their order.
pub kest_tokenize_content-names :
    (ps : EffParsingState) (ws : List (List ℕ))
    → ps.content ≡ some (ver_str ++ names_text ws)
    → 4 ≤ ps.file_size
    → ps.parsed.tokens ≡ []
    → Room ps.parsed.arena (27 + 24 * length (names_text ws))
    → All IsName ws
    → (ps' : EffParsingState) × (kest_tokenize_content (some ps) ≡ (no_error, some ps'))
      × (texts ps'.parsed ≡ some ver_str ∷ map some ws)
unfolding kest_tokenize_content tokenize_from first_locals returned last_token
kest_tokenize_content-names ps ws there long none_yet room names =
    let text : List ℕ = names_text ws in
    let content : List ℕ = ver_str ++ text in
    let l : TokenizerLocals = first_locals ps.parsed in
    let (arena', first, room') =
      append_span-Room ps.parsed ver_str [] 1 0 (24 * length text)
        (omega arith, (omega arith, (omega arith, (omega arith, _)))) room in
    let (l', ran, all, empty) =
      read_all-names ws content ver_str l names refl refl refl refl
        (subst (λ (p : Parsed). Room p.arena (24 * length text)) (sym first) room') in
    let version : texts l.parsed ≡ some ver_str ∷ [] =
      ap texts first
      ∙ ap
          (λ (ts : List Token).
            map (λ (t : Token). t.text)
              (ts ++ record { text = some ver_str; line = 1; index = 0 } ∷ []))
          none_yet in
    let kept : last_token content l' ≡ l'.parsed = rw empty refl in
    (
      record ps { parsed = last_token content l'; n_lines = l'.line },
      ap (λ (r : ℕ × EffParsingState). (r.0, some r.1))
          (ap (tokenize_content ps) there
            ∙ tokenize_content-from ps text long
            ∙ ap (returned ps content) ran),
      ap texts kept ∙ all ∙ ap (λ xs. xs ++ map some ws) version,
    )
