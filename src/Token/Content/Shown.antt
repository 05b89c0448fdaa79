-- ===== src/Token/Content/Shown.antt =====
-- What the tokens of components/parser/kest_tokenizer.c show, and the span of one more.
use kestrel_interface.Prelude.{
  ℕ, ◌+◌, ◌-◌, ◌<◌, ◌≡◌, refl, sym, ap, ◌∙◌, Option, none, some, List, [], ◌∷◌, ◌++◌, append_assoc,
  append-nil, ◌==◌, if◌then◌else◌, arith, length, All, drop, inl, inr, Bool-cases,
}
use kestrel_interface.Token.{Token, newline}
use kestrel_interface.Token.Policy.{is_blank}
use kestrel_interface.Token.Content.{Parsed, TokenizerLocals, append_span, end_token, single_token}
use kestrel_interface.Token.Content.Spans.{Room, append_span-Room}

-- The characters that are not blanks.
unfoldable pub visible : List ℕ → List ℕ
visible [] = []
visible (c ∷ cs) = if is_blank c then visible cs else c ∷ visible cs

unfoldable pub newlines : List ℕ → ℕ
newlines [] = 0
newlines (c ∷ cs) = (if c == newline then 1 else 0) + newlines cs

abbrev pub text_of : Option (List ℕ) → List ℕ
text_of none = []
text_of (some text) = text

-- The tokens one behind the other.
unfoldable pub token_texts : List Token → List ℕ
token_texts [] = []
token_texts (t ∷ ts) = text_of t.text ++ token_texts ts

pub visible-append : (xs ys : List ℕ) → visible (xs ++ ys) ≡ visible xs ++ visible ys
unfolding visible
visible-append [] ys = refl
visible-append (x ∷ xs) ys = elim (Bool-cases (is_blank x)) [
  | inl blank ↦ rw blank (visible-append xs ys)
  | inr shown ↦ rw shown (ap (λ zs. x ∷ zs) (visible-append xs ys))
]

pub newlines-append : (xs ys : List ℕ) → newlines (xs ++ ys) ≡ newlines xs + newlines ys
unfolding newlines
newlines-append [] ys = omega arith
newlines-append (x ∷ xs) ys = omega (arith, newlines-append xs ys)

pub token_texts-append :
    (ts us : List Token) → token_texts (ts ++ us) ≡ token_texts ts ++ token_texts us
unfolding token_texts
token_texts-append [] us = refl
token_texts-append (t ∷ ts) us =
    ap (λ xs. text_of t.text ++ xs) (token_texts-append ts us)
    ∙ sym (append_assoc (text_of t.text) (token_texts ts) (token_texts us))

pub nonzero-append :
    (xs ys : List ℕ) → All (λ c. 0 < c) xs → All (λ c. 0 < c) ys → All (λ c. 0 < c) (xs ++ ys)
nonzero-append [] ys h k = k
nonzero-append (x ∷ xs) ys (h, hs) k = (h, nonzero-append xs ys hs k)

pub drop-append : (xs ys : List ℕ) → drop (length xs) (xs ++ ys) ≡ ys
drop-append [] ys = refl
drop-append (x ∷ xs) ys = drop-append xs ys

-- What the tokens show.
abbrev pub shown : Parsed → List ℕ
shown ps = visible (token_texts ps.tokens)

-- A span that fits is shown, and takes 23 bytes more than it has.
pub append_span-shown :
    (ps : Parsed) (str xs ys : List ℕ) (line index n : ℕ)
    → str ≡ xs ++ ys
    → All (λ c. 0 < c) xs
    → Room ps.arena (length xs + 23 + n)
    → (shown (append_span ps str (length xs) line index) ≡ shown ps ++ visible xs)
      × Room (append_span ps str (length xs) line index).arena n
unfolding token_texts
append_span-shown ps str xs ys line index n e h r =
    let (arena', result, room) = append_span-Room ps xs ys line index n h r in
    rw (e, result)
      (
        ap visible (
              token_texts-append ps.tokens
                (record { text = some xs; line = line; index = index } ∷ []))
            ∙ ap (λ zs. visible (token_texts ps.tokens ++ zs)) (append-nil xs)
            ∙ visible-append (token_texts ps.tokens) xs,
        room,
      )

pub end_token-shown :
    (content : List ℕ) (l : TokenizerLocals) (xs ys : List ℕ) (n : ℕ)
    → l.buf_pos ≡ length xs
    → drop l.token_start content ≡ xs ++ ys
    → All (λ c. 0 < c) xs
    → Room l.parsed.arena (length xs + 23 + n)
    → (shown (end_token content l).parsed ≡ shown l.parsed ++ visible xs)
      × Room (end_token content l).parsed.arena n
unfolding end_token
end_token-shown content l xs ys n size e h r =
    rw size
      (append_span-shown l.parsed (drop l.token_start content) xs ys l.line l.token_index n e h r)

pub single_token-shown :
    (content : List ℕ) (l : TokenizerLocals) (c : ℕ) (ys : List ℕ) (n : ℕ)
    → drop (l.file_pos - 1) content ≡ c ∷ ys
    → 0 < c
    → Room l.parsed.arena (24 + n)
    → (shown (single_token content l).parsed ≡ shown l.parsed ++ visible (c ∷ []))
      × Room (single_token content l).parsed.arena n
unfolding single_token
single_token-shown content l c ys n e h r =
    append_span-shown l.parsed (drop (l.file_pos - 1) content) (c ∷ []) ys l.line l.token_index n e
      (h, _) r
