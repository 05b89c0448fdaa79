-- ===== src/Token/Content/Held.antt =====
-- What holds in the loop of kest_tokenize_content of components/parser/kest_tokenizer.c.
use kestrel_interface.Prelude.{
  ℕ, ◌+◌, ◌-◌, ◌*◌, ◌≤◌, ◌<◌, ◌≡◌, refl, sym, ap, subst, ◌∙◌, true, false, List, [], ◌∷◌, ◌++◌,
  append_assoc, arith, length, length-append, All, drop,
}
use kestrel_interface.Token.Policy.{TokenizerState, state_idle, is_blank, is_idle, is_done}
use kestrel_interface.Token.Policy.Sound.{is_quoting}
use kestrel_interface.Token.Content.{Parsed, TokenizerLocals}
use kestrel_interface.Token.Content.Spans.{Room, Room-weaken}
use kestrel_interface.Token.Content.Shown.{
  visible, shown, visible-append, nonzero-append, drop-append,
}

-- What the token that is being read will take of the arena.
abbrev pub cost : List ℕ → ℕ
cost [] = 0
cost (x ∷ xs) = length xs + 24

-- `before` has been turned into tokens, `pending` is the span of the token that is being read.
pub record Held (content before pending rest : List ℕ) (l : TokenizerLocals) : Type 0 where
  pub splits : content ≡ before ++ (pending ++ rest)
  pub place : l.file_pos ≡ length before + length pending
  pub size : l.buf_pos ≡ length pending
  pub start : 0 < length pending → l.token_start ≡ length before
  pub nonzero : All (λ c. 0 < c) before × All (λ c. 0 < c) pending
  pub nothing : l.state ≡ state_idle → pending ≡ []
  pub quoting : is_quoting l.state ≡ true → 0 < length pending
  pub running : is_done l.state ≡ false
  pub kept : shown l.parsed ≡ visible before
  pub room : Room l.parsed.arena (24 * length rest + cost pending)

-- The locals when the policy for a character is applied.
abbrev pub on_char : TokenizerLocals → TokenizerState → TokenizerLocals
on_char l state' = record l { file_pos = l.file_pos + 1; state = state' }

-- Where the pending token starts in the source; an empty one starts anywhere.
pub pending_span :
    (content before pending rest : List ℕ) (start : ℕ)
    → content ≡ before ++ (pending ++ rest)
    → (0 < length pending → start ≡ length before)
    → (ys : List ℕ) × (drop start content ≡ pending ++ ys)
pending_span content before [] rest start e h = (drop start content, refl)
pending_span content before (x ∷ xs) rest start e h =
    (rest, rw (h (omega arith), e) (drop-append before ((x ∷ xs) ++ rest)))

-- What has been read of the pending token is paid for.
pub cost-le : (xs : List ℕ) → 0 < length xs → length xs + 23 ≤ cost xs
cost-le [] h = absurd (omega arith)
cost-le (x ∷ xs) h = omega arith

pub cost-any : (xs : List ℕ) → length xs + 23 ≤ cost xs + 23
cost-any [] = omega arith
cost-any (x ∷ xs) = omega arith

cost-snoc : (xs : List ℕ) (c : ℕ) → cost (xs ++ c ∷ []) ≤ cost xs + 24
cost-snoc [] c = omega arith
cost-snoc (x ∷ xs) c = omega (arith, length-append xs (c ∷ []))

pub length_zero : (xs : List ℕ) → length xs ≡ 0 → xs ≡ []
length_zero [] h = refl
length_zero (x ∷ xs) h = absurd (omega arith)

pub visible-blank : (c : ℕ) → is_blank c ≡ true → visible (c ∷ []) ≡ []
unfolding visible
visible-blank c h = rw h refl

module _ (content before pending : List ℕ) (c : ℕ) (rest : List ℕ) where
  pub resplit :
      content ≡ before ++ (pending ++ c ∷ rest) → content ≡ (before ++ (pending ++ c ∷ [])) ++ rest
  resplit e =
      e
      ∙ ap (λ xs. before ++ xs) (sym (append_assoc pending (c ∷ []) rest))
      ∙ sym (append_assoc before (pending ++ c ∷ []) rest)

  pub char_span :
      (l : TokenizerLocals)
      → Held content before pending (c ∷ rest) l
      → drop (l.file_pos + 1 - 1) content ≡ c ∷ rest
  char_span l held =
      let place : l.file_pos + 1 - 1 ≡ length (before ++ pending) =
        omega (arith, held.place, length-append before pending) in
      let split : content ≡ (before ++ pending) ++ c ∷ rest =
        held.splits ∙ sym (append_assoc before pending (c ∷ rest)) in
      rw (place, split) (drop-append (before ++ pending) (c ∷ rest))

  -- All that has been read is tokens.
  pub closed :
      (l l' : TokenizerLocals)
      → Held content before pending (c ∷ rest) l
      → 0 < c
      → l'.file_pos ≡ l.file_pos + 1
      → l'.buf_pos ≡ 0
      → is_quoting l'.state ≡ false
      → is_done l'.state ≡ false
      → shown l'.parsed ≡ (visible before ++ visible pending) ++ visible (c ∷ [])
      → Room l'.parsed.arena (24 * length rest)
      → Held content (before ++ (pending ++ c ∷ [])) [] rest l'
  closed l l' held h place empty quoting running kept room = record {
    splits = resplit held.splits;
    place = omega (
      arith,
      place,
      held.place,
      length-append before (pending ++ c ∷ []),
      length-append pending (c ∷ []),
    );
    size = empty;
    start = λ i. absurd (omega arith);
    nonzero = (
      nonzero-append before (pending ++ c ∷ []) held.nonzero.0
          (nonzero-append pending (c ∷ []) held.nonzero.1 (h, _)),
      _,
    );
    nothing = λ i. refl;
    quoting = λ i. cc;
    running = running;
    kept =
        kept
        ∙ append_assoc (visible before) (visible pending) (visible (c ∷ []))
        ∙ ap (λ xs. visible before ++ xs) (sym (visible-append pending (c ∷ [])))
        ∙ sym (visible-append before (pending ++ c ∷ []));
    room = Room-weaken l'.parsed.arena (omega arith) room;
  }

  -- The character joins the pending token.
  pub joined :
      (l l' : TokenizerLocals)
      → Held content before pending (c ∷ rest) l
      → 0 < c
      → l'.file_pos ≡ l.file_pos + 1
      → l'.buf_pos ≡ length pending + 1
      → l'.token_start ≡ length before
      → is_idle l'.state ≡ false
      → is_done l'.state ≡ false
      → l'.parsed ≡ l.parsed
      → Held content before (pending ++ c ∷ []) rest l'
  unfolding is_idle
  joined l l' held h place longer start busy running same_tokens =
      let len : length (pending ++ c ∷ []) ≡ length pending + 1 = length-append pending (c ∷ []) in
      record {
        splits = resplit held.splits ∙ append_assoc before (pending ++ c ∷ []) rest;
        place = omega (arith, place, held.place, len);
        size = omega (arith, longer, len);
        start = λ i. start;
        nonzero = (held.nonzero.0, nonzero-append pending (c ∷ []) held.nonzero.1 (h, _));
        nothing = λ i. let clash : true ≡ false = sym (ap is_idle i) ∙ busy in cc;
        quoting = λ i. omega (arith, len);
        running = running;
        kept = ap shown same_tokens ∙ held.kept;
        room =
            subst (λ (ps : Parsed). Room ps.arena (24 * length rest + cost (pending ++ c ∷ [])))
              (sym same_tokens)
              (Room-weaken l.parsed.arena (omega (arith, cost-snoc pending c)) held.room);
      }
