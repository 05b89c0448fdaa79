-- ===== src/Token.antt =====
-- components/parser/kest_tokenizer.c: the tests on a character and on a token. A C string is the
-- list of its bytes, and the end of the list reads as 0; `none` is NULL. `char` is unsigned, as on
-- the device.
pub mod Policy
pub mod Content
pub mod Blanks
pub mod Numbers
use kestrel_interface.Prelude.{
  ℕ, suc, ◌+◌, Bool, true, false, not, ◌&&◌, ◌||◌, Option, none, some, List, [], ◌∷◌, ◌==◌,
  if◌then◌else◌, ltb, leb, length, get_or, set,
}
use kestrel_interface.Status.{no_error, err_null_ptr}

abbrev pub tab : ℕ
tab = 9

abbrev pub newline : ℕ
newline = 10

abbrev pub space : ℕ
space = 32

abbrev pub quote : ℕ
quote = 34

abbrev pub backslash : ℕ
backslash = 92

unfoldable pub char_is_letter : ℕ → Bool
char_is_letter c = (leb b'A' c && leb c b'Z') || (leb b'a' c && leb c b'z')

unfoldable pub char_is_number : ℕ → Bool
char_is_number c = leb b'0' c && leb c b'9'

unfoldable pub char_is_alphanumeric : ℕ → Bool
char_is_alphanumeric c = char_is_letter c || char_is_number c

unfoldable pub char_is_bracket : ℕ → Bool
char_is_bracket c = c == b'(' || c == b'[' || c == b'{' || c == b')' || c == b']' || c == b'}'

-- The walk of `char_is_in_string`, which ends at the character or behind the first 0.
unfoldable pub in_array : ℕ → List ℕ → Bool
in_array c [] = c == 0
in_array c (x ∷ xs) = if x == c then true else if x == 0 then false else in_array c xs

unfoldable pub char_is_in_string : ℕ → Option (List ℕ) → Bool
char_is_in_string c none = false
char_is_in_string c (some str) = in_array c str

unfoldable pub token_is_char : Option (List ℕ) → ℕ → Bool
token_is_char none c = false
token_is_char (some str) c = get_or str 0 0 == c && get_or str 1 0 == 0

unfoldable pub token_is_newline : Option (List ℕ) → Bool
token_is_newline str = token_is_char str newline

-- `strcmp` is 0.
abbrev pub same : List ℕ → List ℕ → Bool
same [] [] = true
same [] (y ∷ ys) = false
same (x ∷ xs) [] = false
same (x ∷ xs) (y ∷ ys) = x == y && same xs ys

digits_only : List ℕ → Bool
digits_only [] = true
digits_only (c ∷ cs) = if not (leb b'0' c && leb c b'9') then false else digits_only cs

unfoldable pub token_is_int : Option (List ℕ) → Bool
unfolding digits_only
token_is_int none = false
token_is_int (some token) = digits_only token

-- The 27 bytes of `allowed_chars`.
abbrev pub allowed_chars : List ℕ
allowed_chars =
    b'.' ∷ b'0' ∷ b'1' ∷ b'2' ∷ b'3' ∷ b'4' ∷ b'5' ∷ b'6' ∷ b'7' ∷ b'8' ∷ b'9' ∷ 0 ∷ 0 ∷ 0 ∷ b'a'
    ∷ b'b' ∷ b'c' ∷ b'd' ∷ b'e' ∷ b'f' ∷ b'A' ∷ b'B' ∷ b'C' ∷ b'D' ∷ b'E' ∷ b'F' ∷ 0 ∷ []

-- What a second character `x` or `b` makes of the array.
unfoldable pub with_base : ℕ → List ℕ → List ℕ
with_base c allowed =
    let closed = set (set allowed 11 b'0') 12 b'0' in
    if c == b'b' then set closed 3 0 else set closed 13 b'0'

-- The loop over the characters from `i` on.
unfoldable pub number_loop : List ℕ → ℕ → ℕ → List ℕ → Bool
number_loop [] i len allowed = true
number_loop (c ∷ cs) i len allowed =
    let is_base = i == 1 && (c == b'x' || c == b'b') in
    let dotted = if c == b'.' then set allowed 0 b'0' else allowed in
    let rest = number_loop cs (suc i) len (if is_base then with_base c dotted else dotted) in
    if not (in_array c allowed) then false else if is_base && ltb len 3 then false else rest

-- The empty token passes: its first character is the 0 that ends the allowed ones.
unfoldable pub token_is_number : Option (List ℕ) → Bool
token_is_number none = false
token_is_number (some []) = true
token_is_number (some (c ∷ cs)) =
    let len = suc (length cs) in
    if not (in_array c allowed_chars)
    then false
    else if c == b'0'
    then number_loop cs 1 len (set (set allowed_chars 11 b'b') 12 b'x')
    else if c == b'.'
    then if len == 1 then false else number_loop cs 1 len (set allowed_chars 0 b'0')
    else number_loop cs 1 len allowed_chars

unfoldable pub token_is_dict_entry_seperator : Option (List ℕ) → Bool
token_is_dict_entry_seperator none = false
token_is_dict_entry_seperator (some token) =
    same token (b',' ∷ []) || same token (newline ∷ []) || same token (b';' ∷ [])

-- The loop of `token_is_name` from character `i` on.
unfoldable pub name_loop : List ℕ → ℕ → Bool
name_loop [] i = true
name_loop (c ∷ cs) i =
    if (char_is_letter c || c == b'_') || (ltb 0 i && char_is_number c)
    then name_loop cs (suc i)
    else false

unfoldable pub token_is_name : Option (List ℕ) → Bool
token_is_name none = false
token_is_name (some token) = if length token == 0 then false else name_loop token 0

-- A node of the list of tokens.
pub record Token : Type 0 where
  pub text : Option (List ℕ)
  pub line : ℕ
  pub index : ℕ

-- The loop goes on while the text is there and begins with a blank or a newline.
unfoldable pub is_blank_text : Option (List ℕ) → Bool
is_blank_text none = false
is_blank_text (some d) = get_or d 0 0 == newline || get_or d 0 0 == space || get_or d 0 0 == tab

-- The loop that `kest_token_ll_skip_ws` and `kest_token_ll_advance` share.
unfoldable pub skip_blank : List Token → List Token
skip_blank [] = []
skip_blank (t ∷ ts) = if is_blank_text t.text then skip_blank ts else t ∷ ts

unfoldable pub kest_token_ll_skip_ws : Option (List Token) → ℕ × Option (List Token)
kest_token_ll_skip_ws none = (err_null_ptr, none)
kest_token_ll_skip_ws (some ts) = (no_error, some (skip_blank ts))

unfoldable pub kest_token_ll_advance : Option (List Token) → ℕ × Option (List Token)
kest_token_ll_advance none = (err_null_ptr, none)
kest_token_ll_advance (some []) = (no_error, some [])
kest_token_ll_advance (some (t ∷ ts)) = (no_error, some (skip_blank ts))
