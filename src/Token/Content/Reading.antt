-- ===== src/Token/Content/Reading.antt =====
-- The rounds of the loop of kest_tokenize_content of components/parser/kest_tokenizer.c.
use kestrel_interface.Prelude.{
  ℕ, suc, ◌+◌, ◌<◌, ◌≡◌, refl, sym, ap, subst, ◌∙◌, false, List, [], ◌∷◌, ◌++◌, append_assoc,
  append-nil, ◌==◌, if◌then◌else◌, arith, length, inl, inr, ◌⊎◌, Bool-cases,
}
use kestrel_interface.Token.{newline}
use kestrel_interface.Token.Policy.{
  TokenizerPolicy, TokenizerState, policy_discard, policy_accept, policy_singular, policy_begin,
  policy_end_accept, policy_end_discard, policy_complain, is_done, tokenizer_policy,
}
use kestrel_interface.Token.Policy.Sound.{Fits, tokenizer_policy-Fits, tokenizer_policy-running}
use kestrel_interface.Token.Content.{
  Parsed, TokenizerLocals, end_token, apply_policy, count_line, behind, read_char, read_all,
  last_token,
}
use kestrel_interface.Token.Content.Spans.{Room-weaken}
use kestrel_interface.Token.Content.Shown.{
  visible, newlines, shown, visible-append, newlines-append, end_token-shown,
}
use kestrel_interface.Token.Content.Held.{Held, on_char, pending_span, cost-le, length_zero}
use kestrel_interface.Token.Content.Applied.{
  Applied, discard-Applied, accept-Applied, singular-Applied, begin-Applied, end_accept-Applied,
  end_discard-Applied,
}

-- The text of a file up to its first 0.
unfoldable pub until_nul : List ℕ → List ℕ
until_nul [] = []
until_nul (c ∷ cs) = if c == 0 then [] else c ∷ until_nul cs

module _ (content before pending : List ℕ) (c : ℕ) (rest : List ℕ) where
  apply_policy-Applied :
      (l : TokenizerLocals) (p : TokenizerPolicy) (s' : TokenizerState)
      → Held content before pending (c ∷ rest) l
      → 0 < c
      → Fits c l.state (p, s')
      → is_done s' ≡ false
      → Applied content before pending c rest l.line (apply_policy content p (on_char l s'))
  unfolding apply_policy
  apply_policy-Applied l policy_discard s' held h (blank, idle, e) d =
      discard-Applied content before pending c rest l s' held h (rw e refl) d blank idle
  apply_policy-Applied l policy_accept s' held h f d =
      accept-Applied content before pending c rest l s' held h f d
  apply_policy-Applied l policy_singular s' held h f d =
      singular-Applied content before pending c rest l s' held h f d
  apply_policy-Applied l policy_begin s' held h (idle, f) d =
      begin-Applied content before pending c rest l s' held h f d idle
  apply_policy-Applied l policy_end_accept s' held h (quoting, e) d =
      end_accept-Applied content before pending c rest l s' held h quoting (rw e refl) d
  apply_policy-Applied l policy_end_discard s' held h (blank, e) d =
      end_discard-Applied content before pending c rest l s' held h (rw e refl) d blank
  apply_policy-Applied l policy_complain s' held h f d = f

-- A source, the lines of which are counted up to what has been read.
abbrev pub Counted : List ℕ → TokenizerLocals → Type 0
Counted read l = l.line ≡ suc (newlines read)

newlines-last :
    (xs : List ℕ) (c : ℕ) → newlines (xs ++ c ∷ []) ≡ newlines xs + (if c == newline then 1 else 0)
unfolding newlines
newlines-last xs c = omega (arith, newlines-append xs (c ∷ []))

count_line-Held :
    {content before pending rest : List ℕ} (c : ℕ) {l : TokenizerLocals}
    → Held content before pending rest l
    → Held content before pending rest (count_line c l)
unfolding count_line
count_line-Held c {l} held = elim (Bool-cases (c == newline)) [
  | inl end ↦ rw end (record {
    splits = held.splits;
    place = held.place;
    size = held.size;
    start = held.start;
    nonzero = held.nonzero;
    nothing = held.nothing;
    quoting = held.quoting;
    running = held.running;
    kept = held.kept;
    room = held.room;
  })
  | inr inside ↦ rw inside held
]

count_line-Counted :
    (read : List ℕ) (c : ℕ) (l : TokenizerLocals)
    → Counted read l
    → Counted (read ++ c ∷ []) (count_line c l)
unfolding count_line
count_line-Counted read c l h = ground (arith, newlines-last read c)

-- What the body of the loop leaves.
Read : (content before pending : List ℕ) (c : ℕ) (rest : List ℕ) → Parsed ⊎ TokenizerLocals → Type 0
Read content before pending c rest (inl ps) = c ≡ newline
Read content before pending c rest (inr l') =
    (before' : List ℕ) × (pending' : List ℕ) × Held content before' pending' rest l'
    × (before' ++ pending' ≡ before ++ (pending ++ c ∷ []))
    × Counted (before' ++ pending') l'

counted-Read :
    (content before pending : List ℕ) (c : ℕ) (rest : List ℕ) (line : ℕ)
    (r : Parsed ⊎ TokenizerLocals)
    → line ≡ suc (newlines (before ++ pending))
    → Applied content before pending c rest line r
    → Read content before pending c rest (behind c r)
unfolding Read behind
counted-Read content before pending c rest line (inl ps) e a = a
counted-Read content before pending c rest line (inr l) e
      (before', pending', held, all, same_line) =
    (
      before',
      pending',
      count_line-Held c held,
      all,
      subst (λ read. Counted read (count_line c l)) (append_assoc before pending (c ∷ []) ∙ sym all)
          (count_line-Counted (before ++ pending) c l (same_line ∙ e)),
    )

read_char-Read :
    (content before pending : List ℕ) (c : ℕ) (rest : List ℕ) (l : TokenizerLocals)
    → Held content before pending (c ∷ rest) l
    → Counted (before ++ pending) l
    → 0 < c
    → Read content before pending c rest (read_char content c l)
unfolding read_char
read_char-Read content before pending c rest l held counted h =
    let there : (c == 0) ≡ false = ground arith in
    let (p, s') = tokenizer_policy c l.state in
    let body : read_char content c l ≡ behind c (apply_policy content p (on_char l s')) =
      rw there refl in
    subst (λ r. Read content before pending c rest r) (sym body)
      (counted-Read content before pending c rest l.line (apply_policy content p (on_char l s'))
        counted
        (apply_policy-Applied content before pending c rest l p s' held h
          (tokenizer_policy-Fits c l.state there)
          (tokenizer_policy-running c l.state there held.running)))

-- What the loop leaves of a source: the tokens show what is visible of it, and the line is the
-- last one; or there was a complaint, and the source has a newline.
abbrev pub Ended : List ℕ → List ℕ → Parsed ⊎ TokenizerLocals → Type 0
Ended content source (inl ps) = 0 < newlines source
Ended content source (inr l) = (shown (last_token content l) ≡ visible source) × Counted source l

last_token-Held :
    {content before pending rest : List ℕ} (l : TokenizerLocals)
    → Held content before pending rest l
    → shown (last_token content l) ≡ visible (before ++ pending)
unfolding last_token visible
last_token-Held {content} {before} {pending} {rest} l held = elim (Bool-cases (l.buf_pos == 0)) [
  | inl empty ↦
      let none_pending : pending ≡ [] = length_zero pending (ground (arith, held.size)) in
      rw (empty, none_pending) (held.kept ∙ ap visible (sym (append-nil before)))
  | inr longer ↦
      let there : 0 < length pending = ground (arith, held.size) in
      let (ys, span) =
        pending_span content before pending rest l.token_start held.splits held.start in
      let (kept, room) =
        end_token-shown content l pending ys 0 held.size span held.nonzero.1
          (Room-weaken l.parsed.arena (omega (arith, cost-le pending there)) held.room) in
      rw longer
        (kept ∙ ap (λ xs. xs ++ visible pending) held.kept ∙ sym (visible-append before pending))
]

last_token-state :
    (content : List ℕ) (l : TokenizerLocals) (s : TokenizerState) (n : ℕ)
    → last_token content (record l { file_pos = n; state = s }) ≡ last_token content l
unfolding last_token end_token
last_token-state content l s n = refl

nul-Ended :
    {content before pending rest : List ℕ} (l : TokenizerLocals)
    → Held content before pending rest l
    → Counted (before ++ pending) l
    → Ended content (before ++ pending) (read_char content 0 l)
unfolding read_char apply_policy behind count_line last_token end_token
nul-Ended l held counted = (last_token-Held l held, counted)

nul-done :
    {content before pending rest : List ℕ} (more : List ℕ) (l : TokenizerLocals)
    → Held content before pending rest l
    → Counted (before ++ pending) l
    → Ended content (before ++ pending) (elim (read_char content 0 l) [
      | inl ps ↦ inl ps
      | inr l' ↦ if is_done l'.state then inr l' else read_all content more l'
    ])
unfolding read_char apply_policy behind count_line last_token end_token is_done
nul-done more l held counted = nul-Ended l held counted

newlines-there : (xs ys : List ℕ) (c : ℕ) → c ≡ newline → 0 < newlines (xs ++ c ∷ ys)
unfolding newlines
newlines-there xs ys c h = ground (arith, newlines-append xs (c ∷ ys))

next-Ended :
    (content before pending : List ℕ) (c : ℕ) (rest : List ℕ) (r : Parsed ⊎ TokenizerLocals)
    → Read content before pending c rest r
    → ((before' pending' : List ℕ) (l' : TokenizerLocals)
        → Held content before' pending' rest l'
        → Counted (before' ++ pending') l'
        → Ended content ((before' ++ pending') ++ until_nul rest) (read_all content rest l'))
    → Ended content ((before ++ pending) ++ c ∷ until_nul rest) (elim r [
      | inl ps ↦ inl ps
      | inr l' ↦ if is_done l'.state then inr l' else read_all content rest l'
    ])
unfolding Read
next-Ended content before pending c rest (inl ps) e step =
    newlines-there (before ++ pending) (until_nul rest) c e
next-Ended content before pending c rest (inr l) (before', pending', held, all, counted) step =
    let source : (before' ++ pending') ++ until_nul rest
        ≡ (before ++ pending) ++ c ∷ until_nul rest =
      ap (λ read. read ++ until_nul rest) (all ∙ sym (append_assoc before pending (c ∷ [])))
      ∙ append_assoc (before ++ pending) (c ∷ []) (until_nul rest) in
    rw held.running (
      subst (λ xs. Ended content xs (read_all content rest l)) source
        (step before' pending' l held counted))

pub read_all-Ended :
    (rest content before pending : List ℕ) (l : TokenizerLocals)
    → Held content before pending rest l
    → Counted (before ++ pending) l
    → Ended content ((before ++ pending) ++ until_nul rest) (read_all content rest l)
unfolding read_all until_nul
read_all-Ended [] content before pending l held counted =
    rw (append-nil (before ++ pending)) (nul-Ended l held counted)
read_all-Ended (c ∷ rest) content before pending l held counted = elim (Bool-cases (c == 0)) [
  | inl nul ↦
      let zero_read : c ≡ 0 = ground arith in
      rw (zero_read, append-nil (before ++ pending))
        (nul-done {rest = c ∷ rest} rest l held counted)
  | inr there ↦ rw there (
      next-Ended content before pending c rest (read_char content c l)
        (read_char-Read content before pending c rest l held counted (ground arith))
        (λ before' pending' l' held' counted'.
          read_all-Ended rest content before' pending' l' held' counted'))
]
