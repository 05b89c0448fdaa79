-- ===== src/Sequence/Steps.antt =====
-- kest_sequence_advance and kest_sequence_regress of components/core/kest_sequence.c.
use kestrel_interface.Prelude.{
  ℕ, ◌≡◌, refl, sym, ap, ap₂, ◌∙◌, true, Option, none, some, List, [], ◌∷◌, ◌++◌, ◌==◌,
  if◌then◌else◌,
}
use kestrel_interface.Status.{no_error}
use kestrel_interface.Sequence.{
  SeqNode, Sequence, step, step_to, kest_sequence_advance, kest_sequence_regress,
}
use kestrel_interface.Sequence.Linked.{Linked, Holds}

-- What the list says of two nodes that follow each other.
neighbours :
    (nodes : ℕ → SeqNode) (before : List (ℕ × ℕ)) (p x q y : ℕ) (after : List (ℕ × ℕ))
    (prev head : Option ℕ)
    → Linked nodes (before ++ (p, x) ∷ (q, y) ∷ after) prev head
    → ((nodes p).preset ≡ x)
      × ((nodes p).next ≡ some q)
      × ((nodes q).preset ≡ y)
      × ((nodes q).prev ≡ some p)
      × ((h : ℕ) × (head ≡ some h))
neighbours nodes [] p x q y after prev head (here, preset, back, (next, preset_q, back_q, rest)) =
    (preset, next, preset_q, back_q, (p, here))
neighbours nodes ((r, z) ∷ before) p x q y after prev head (here, preset, back, linked) =
    let (preset_p, next_p, preset_q, back_q, there) =
      neighbours nodes before p x q y after (some r) (nodes r).next linked in
    (preset_p, next_p, preset_q, back_q, (r, here))

module _ (activate : Option ℕ → ℕ) where
  step-along :
      (way : SeqNode → Option ℕ) (s : Sequence) (h p q : ℕ)
      → s.active ≡ true
      → way (s.nodes p) ≡ some q
      → step activate way s (some h) (some p) ≡ step_to activate s (some q)
  unfolding step
  step-along way s h p q active next = rw (active, next) refl

  step_to-value :
      (s : Sequence) (q y : ℕ)
      → (s.nodes q).preset ≡ y
      → step_to activate s (some q) ≡ (
          if activate (some y) == no_error
          then (no_error, record s { position = some q })
          else (activate (some y), s))
  unfolding step_to
  step_to-value s q y e =
      ap
        (λ n.
          if activate (some n) == no_error
          then (no_error, record s { position = some q })
          else (activate (some n), s))
        e

  -- In a running sequence that holds a preset with another one behind it: advancing from the first
  -- goes to the second, and regressing from there goes back to the state before. Either step is
  -- taken only if the preset that it leads to is activated; else its code is returned, and nothing
  -- changes.
  pub advance-regress :
      (s : Sequence) (before after : List (ℕ × ℕ)) (p x q y : ℕ)
      → Holds s (before ++ (p, x) ∷ (q, y) ∷ after)
      → s.active ≡ true
      → s.position ≡ some p
      → (kest_sequence_advance activate s ≡ (
          if activate (some y) == no_error
          then (no_error, record s { position = some q })
          else (activate (some y), s)))
        × (kest_sequence_regress activate (record s { position = some q }) ≡ (
            if activate (some x) == no_error
            then (no_error, s)
            else (activate (some x), record s { position = some q })))
  unfolding kest_sequence_advance kest_sequence_regress
  advance-regress s before after p x q y holds active here =
      let (preset_p, next_p, preset_q, back_q, (h, head)) =
        neighbours s.nodes before p x q y after none s.presets holds.linked in
      let there : Sequence = record s { position = some q } in
      (
        ap₂ (λ first position. step activate (λ (n : SeqNode). n.next) s first position) head here
            ∙ step-along (λ (n : SeqNode). n.next) s h p q active next_p
            ∙ step_to-value s q y preset_q,
        ap (λ first. step activate (λ (n : SeqNode). n.prev) there first (some q)) head
            ∙ step-along (λ (n : SeqNode). n.prev) there h q p active back_q
            ∙ step_to-value there p x preset_p
            ∙ ap
                (λ position.
                  if activate (some x) == no_error
                  then (no_error, record s { position = position })
                  else (activate (some x), there))
                (sym here),
      )
