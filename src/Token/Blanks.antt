-- ===== src/Token/Blanks.antt =====
-- kest_token_ll_skip_ws and kest_token_ll_advance of components/parser/kest_tokenizer.c.
use kestrel_interface.Prelude.{
  ◌≡◌, refl, ap, true, false, some, List, [], ◌∷◌, ◌++◌, All, inl, inr, Bool-cases,
}
use kestrel_interface.Status.{no_error}
use kestrel_interface.Token.{
  Token, is_blank_text, skip_blank, kest_token_ll_skip_ws, kest_token_ll_advance,
}

-- The first token of the list, if there is one, is not blank.
abbrev pub Settled : List Token → Type 0
Settled [] = Unit
Settled (t ∷ ts) = is_blank_text t.text ≡ false

skip_blank-splits :
    (ts : List Token)
    → (blanks : List Token) × (ts ≡ blanks ++ skip_blank ts)
      × All (λ (t : Token). is_blank_text t.text ≡ true) blanks
      × Settled (skip_blank ts)
unfolding skip_blank
skip_blank-splits [] = ([], refl, _, _)
skip_blank-splits (t ∷ ts) = elim (Bool-cases (is_blank_text t.text)) [
  | inl blank ↦
      let (blanks, splits, all, settled) = skip_blank-splits ts in
      rw blank ((t ∷ blanks, ap (λ us. t ∷ us) splits, (blank, all), settled))
  | inr other ↦ rw other (([], refl, _, other))
]

-- Skipping white space takes the blank tokens at the front of the list and no other, and advancing
-- does the same behind the first token.
pub skip_ws-advance :
    (t : Token) (ts : List Token)
    → (rest blanks : List Token) × (kest_token_ll_skip_ws (some ts) ≡ (no_error, some rest))
      × (kest_token_ll_advance (some (t ∷ ts)) ≡ (no_error, some rest))
      × (ts ≡ blanks ++ rest)
      × All (λ (u : Token). is_blank_text u.text ≡ true) blanks
      × Settled rest
unfolding kest_token_ll_skip_ws kest_token_ll_advance
skip_ws-advance t ts =
    let (blanks, splits, all, settled) = skip_blank-splits ts in
    (skip_blank ts, blanks, refl, refl, splits, all, settled)
