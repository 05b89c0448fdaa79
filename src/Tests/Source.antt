-- ===== src/Tests/Source.antt =====
-- Runs of the theorems on the tokenizer.
use kestrel_interface.Prelude.{ℕ, ◌<◌, ◌≡◌, refl, ◌⊎◌, true, some, List, [], ◌∷◌, ◌++◌, map, arith}
use kestrel_interface.Status.{no_error, err_bad_args}
use kestrel_interface.Token.{char_is_letter, char_is_number, char_is_alphanumeric, token_is_number}
use kestrel_interface.Token.Numbers.{decimal, token_is_number-decimal}
use kestrel_interface.Token.Content.{EffParsingState, ver_str, kest_tokenize_content}
use kestrel_interface.Token.Content.Shown.{newlines}
use kestrel_interface.Token.Content.Reading.{until_nul}
use kestrel_interface.Token.Content.Kept.{Tokenized, kest_tokenize_content-Tokenized}
use kestrel_interface.Token.Content.Words.{is_word_char}
use kestrel_interface.Token.Content.Names.{names_text, texts, kest_tokenize_content-names}

-- A line with a name, a string and a number.
abbrev a_text : List ℕ
a_text =
    10 ∷ b'a' ∷ b' ' ∷ b':' ∷ b' ' ∷ b'"' ∷ b'b' ∷ b' ' ∷ b'c' ∷ b'"' ∷ b',' ∷ b'1' ∷ b'.' ∷ b'5'
    ∷ []

abbrev a_source : EffParsingState
a_source = record {
  content = some (ver_str ++ a_text);
  file_size = 18;
  n_lines = 0;
  parsed = record { arena = some (record { arena = true; pos = 8; capacity = 1000 }); tokens = [] };
}

kest_tokenize_content_example :
    (code : ℕ) × (ps' : EffParsingState) × (kest_tokenize_content (some a_source)
      ≡ (code, some ps'))
    × (((code ≡ no_error) × Tokenized (ver_str ++ until_nul a_text) ps')
        ⊎ ((code ≡ err_bad_args) × (0 < newlines (ver_str ++ until_nul a_text))))
kest_tokenize_content_example =
    kest_tokenize_content-Tokenized a_source a_text refl (omega arith) refl
      (refl, omega arith, omega arith, omega arith)

abbrev two_names : List (List ℕ)
two_names = (b'a' ∷ b'1' ∷ []) ∷ (b'b' ∷ []) ∷ []

abbrev a_list : EffParsingState
a_list = record a_source { content = some (ver_str ++ names_text two_names); file_size = 9 }

kest_tokenize_content-names_example :
    (ps' : EffParsingState) × (kest_tokenize_content (some a_list) ≡ (no_error, some ps'))
    × (texts ps'.parsed ≡ some ver_str ∷ map some two_names)
unfolding names_text char_is_letter is_word_char char_is_alphanumeric char_is_number
kest_tokenize_content-names_example =
    kest_tokenize_content-names a_list two_names refl (omega arith) refl
      (refl, omega arith, omega arith, omega arith) ((refl, (refl, _)), ((refl, _), _))

token_is_number_example :
    token_is_number (some (b'1' ∷ b'.' ∷ b'5' ∷ [])) ≡ decimal 1 (b'.' ∷ b'5' ∷ [])
token_is_number_example =
    token_is_number-decimal b'1' (b'.' ∷ b'5' ∷ []) (omega arith) (omega arith)
      (omega arith, (omega arith, _))
