-- ===== src/Token/Content/Applied.antt =====
-- The policies of the loop of kest_tokenize_content of components/parser/kest_tokenizer.c.
use kestrel_interface.Prelude.{
  ℕ, ◌+◌, ◌-◌, ◌*◌, ◌<◌, ◌≡◌, refl, sym, ap, ◌∙◌, true, false, List, [], ◌∷◌, ◌++◌, append_assoc,
  append-nil, ◌==◌, if◌then◌else◌, arith, length, length-append, drop, inl, inr, ◌⊎◌, Bool-cases,
}
use kestrel_interface.Token.{newline}
use kestrel_interface.Token.Policy.{
  TokenizerState, policy_discard, policy_accept, policy_singular, policy_begin, policy_end_accept,
  policy_end_discard, state_idle, is_blank, is_idle, is_done,
}
use kestrel_interface.Token.Policy.Sound.{is_quoting}
use kestrel_interface.Token.Content.{Parsed, TokenizerLocals, end_token, single_token, apply_policy}
use kestrel_interface.Token.Content.Spans.{Room, Room-weaken}
use kestrel_interface.Token.Content.Shown.{
  visible, shown, visible-append, nonzero-append, drop-append, end_token-shown, single_token-shown,
}
use kestrel_interface.Token.Content.Held.{
  on_char, resplit, Held, closed, joined, char_span, pending_span, cost-le, cost-any, length_zero,
  visible-blank,
}

module _ (content before pending : List ℕ) (c : ℕ) (rest : List ℕ) where
  -- What the loop holds on after the policy has been applied.
  abbrev pub Applied : ℕ → Parsed ⊎ TokenizerLocals → Type 0
  Applied line (inl ps) = c ≡ newline
  Applied line (inr l') =
      (before' : List ℕ) × (pending' : List ℕ) × Held content before' pending' rest l'
      × (before' ++ pending' ≡ before ++ (pending ++ c ∷ []))
      × (l'.line ≡ line)

  all_read :
      {l' : TokenizerLocals} {line : ℕ}
      → Held content (before ++ (pending ++ c ∷ [])) [] rest l'
      → l'.line ≡ line
      → Applied line (inr l')
  all_read held e =
      (before ++ (pending ++ c ∷ []), [], held, append-nil (before ++ (pending ++ c ∷ [])), e)

  pub discard-Applied :
      (l : TokenizerLocals) (s' : TokenizerState)
      → Held content before pending (c ∷ rest) l
      → 0 < c
      → is_quoting s' ≡ false
      → is_done s' ≡ false
      → is_blank c ≡ true
      → l.state ≡ state_idle
      → Applied l.line (apply_policy content policy_discard (on_char l s'))
  unfolding apply_policy visible
  discard-Applied l s' held h q d blank idle =
      let none_pending : pending ≡ [] = held.nothing idle in
      all_read
        (closed content before pending c rest l (on_char l s') held h refl
          (held.size ∙ ap length none_pending) q d
          (held.kept
            ∙ rw (visible-blank c blank, none_pending)
                (sym (append-nil (visible before)) ∙ sym (append-nil (visible before ++ []))))
          (Room-weaken l.parsed.arena (omega arith) held.room))
        refl

  pub begin-Applied :
      (l : TokenizerLocals) (s' : TokenizerState)
      → Held content before pending (c ∷ rest) l
      → 0 < c
      → is_idle s' ≡ false
      → is_done s' ≡ false
      → l.state ≡ state_idle
      → Applied l.line (apply_policy content policy_begin (on_char l s'))
  unfolding apply_policy
  begin-Applied l s' held h q d idle =
      let none_pending : length pending ≡ 0 = ap length (held.nothing idle) in
      (
        before,
        pending ++ c ∷ [],
        joined content before pending c rest l
            (record l {
              file_pos = l.file_pos + 1;
              state = s';
              token_start = l.file_pos + 1 - 1;
              buf_pos = 1;
            })
            held h refl (omega arith) (omega (arith, held.place)) q d refl,
        refl,
        refl,
      )

  pub accept-Applied :
      (l : TokenizerLocals) (s' : TokenizerState)
      → Held content before pending (c ∷ rest) l
      → 0 < c
      → is_idle s' ≡ false
      → is_done s' ≡ false
      → Applied l.line (apply_policy content policy_accept (on_char l s'))
  unfolding apply_policy
  accept-Applied l s' held h q d =
      let l' : TokenizerLocals = record l {
        file_pos = l.file_pos + 1;
        state = s';
        token_start = if l.buf_pos == 0 then l.file_pos + 1 - 1 else l.token_start;
        buf_pos = l.buf_pos + 1;
      } in
      (
        before,
        pending ++ c ∷ [],
        joined content before pending c rest l l' held h refl (omega (arith, held.size))
            (ground (arith, held.size, held.place, held.start)) q d refl,
        refl,
        refl,
      )

  -- The pending token ends, and `c` is a blank behind it.
  pub end_discard-Applied :
      (l : TokenizerLocals) (s' : TokenizerState)
      → Held content before pending (c ∷ rest) l
      → 0 < c
      → is_quoting s' ≡ false
      → is_done s' ≡ false
      → is_blank c ≡ true
      → Applied l.line (apply_policy content policy_end_discard (on_char l s'))
  unfolding apply_policy end_token
  end_discard-Applied l s' held h q d blank =
      let (ys, span) =
        pending_span content before pending (c ∷ rest) l.token_start held.splits held.start in
      let (kept, room) =
        end_token-shown content (on_char l s') pending ys (24 * length rest) held.size span
          held.nonzero.1 (Room-weaken l.parsed.arena (omega (arith, cost-any pending)) held.room) in
      all_read
        (closed content before pending c rest l (end_token content (on_char l s')) held h refl refl
          q d
          (kept
            ∙ ap (λ xs. xs ++ visible pending) held.kept
            ∙ sym (append-nil (visible before ++ visible pending))
            ∙ ap (λ xs. (visible before ++ visible pending) ++ xs) (sym (visible-blank c blank)))
          room)
        refl

  pub end_accept-Applied :
      (l : TokenizerLocals) (s' : TokenizerState)
      → Held content before pending (c ∷ rest) l
      → 0 < c
      → is_quoting l.state ≡ true
      → is_quoting s' ≡ false
      → is_done s' ≡ false
      → Applied l.line (apply_policy content policy_end_accept (on_char l s'))
  unfolding apply_policy end_token
  end_accept-Applied l s' held h string q d =
      let l1 : TokenizerLocals = record (on_char l s') { buf_pos = l.buf_pos + 1 } in
      let there : 0 < length pending = held.quoting string in
      let span : drop l.token_start content ≡ (pending ++ c ∷ []) ++ rest =
        rw
          (
            held.start there,
            resplit content before pending c rest held.splits
                ∙ append_assoc before (pending ++ c ∷ []) rest,
          )
          (drop-append before ((pending ++ c ∷ []) ++ rest)) in
      let (kept, room) =
        end_token-shown content l1 (pending ++ c ∷ []) rest (24 * length rest)
          (omega (arith, held.size, length-append pending (c ∷ []))) span
          (nonzero-append pending (c ∷ []) held.nonzero.1 (h, _))
          (Room-weaken l.parsed.arena
            (omega (arith, cost-le pending there, length-append pending (c ∷ []))) held.room) in
      all_read
        (closed content before pending c rest l (end_token content l1) held h refl refl q d
          (kept
            ∙ ap (λ xs. xs ++ visible (pending ++ c ∷ [])) held.kept
            ∙ ap (λ xs. visible before ++ xs) (visible-append pending (c ∷ []))
            ∙ sym (append_assoc (visible before) (visible pending) (visible (c ∷ []))))
          room)
        refl

  -- `c` is a token behind those that are shown.
  pub single-Applied :
      (l l1 : TokenizerLocals)
      → Held content before pending (c ∷ rest) l
      → 0 < c
      → l1.file_pos ≡ l.file_pos + 1
      → l1.buf_pos ≡ 0
      → l1.line ≡ l.line
      → is_quoting l1.state ≡ false
      → is_done l1.state ≡ false
      → shown l1.parsed ≡ visible before ++ visible pending
      → Room l1.parsed.arena (24 + 24 * length rest)
      → Applied l.line (inr (single_token content l1))
  unfolding single_token
  single-Applied l l1 held h place empty line q d texts space_left =
      let (kept, room) =
        single_token-shown content l1 c rest (24 * length rest)
          (ap (λ n. drop (n - 1) content) place ∙ char_span content before pending c rest l held) h
          space_left in
      all_read
        (closed content before pending c rest l (single_token content l1) held h place empty q d
          (kept ∙ ap (λ xs. xs ++ visible (c ∷ [])) texts) room)
        line

  pub singular-Applied :
      (l : TokenizerLocals) (s' : TokenizerState)
      → Held content before pending (c ∷ rest) l
      → 0 < c
      → is_quoting s' ≡ false
      → is_done s' ≡ false
      → Applied l.line (apply_policy content policy_singular (on_char l s'))
  unfolding apply_policy end_token visible
  singular-Applied l s' held h q d = elim (Bool-cases (l.buf_pos == 0)) [
    | inl empty ↦
        let none_pending : pending ≡ [] = length_zero pending (ground (arith, held.size)) in
        rw empty (
          single-Applied l (on_char l s') held h refl (ground arith) refl q d
            (held.kept
              ∙ sym (append-nil (visible before))
              ∙ ap (λ xs. visible before ++ visible xs) (sym none_pending))
            (Room-weaken l.parsed.arena (omega arith) held.room))
    | inr longer ↦
        let there : 0 < length pending = ground (arith, held.size) in
        let (ys, span) =
          pending_span content before pending (c ∷ rest) l.token_start held.splits held.start in
        let (kept, room) =
          end_token-shown content (on_char l s') pending ys (24 + 24 * length rest) held.size span
            held.nonzero.1
            (Room-weaken l.parsed.arena (omega (arith, cost-le pending there)) held.room) in
        rw longer (
          single-Applied l (end_token content (on_char l s')) held h refl refl refl q d
            (kept ∙ ap (λ xs. xs ++ visible pending) held.kept) room)
  ]
