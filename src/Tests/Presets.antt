-- ===== src/Tests/Presets.antt =====
-- Runs of the theorems on sequences.
use kestrel_interface.Prelude.{
  ℕ, ◌≡◌, refl, true, none, some, Option, [], ◌∷◌, ◌++◌, arith, ◌==◌, if◌then◌else◌,
}
use kestrel_interface.Prelude.Int.{pos}
use kestrel_interface.Status.{no_error}
use kestrel_interface.Sequence.{
  SeqNode, Sequence, sequence_append_preset, kest_sequence_remove_preset, kest_sequence_advance,
  kest_sequence_regress, kest_sequence_move_preset,
}
use kestrel_interface.Sequence.Linked.{Holds}
use kestrel_interface.Sequence.Append.{append_preset-Holds}
use kestrel_interface.Sequence.Steps.{advance-regress}
use kestrel_interface.Sequence.Remove.{Forward, remove_preset-Forward}
use kestrel_interface.Sequence.Move.{move_preset-loops}

-- Node 0 with the preset 7, and node 1 with the preset 9, at which the sequence stands.
abbrev two_nodes : ℕ → SeqNode
two_nodes n =
    if n == 0
    then record { preset = 7; next = some 1; prev = none }
    else record { preset = 9; next = none; prev = some 0 }

abbrev two_presets : Sequence
two_presets = record {
  nodes = two_nodes;
  fresh = 2;
  presets = some 0;
  position = some 0;
  active = true;
  owned = λ preset. true;
  in_context = true;
}

two_presets-Holds : Holds two_presets ((0, 7) ∷ (1, 9) ∷ [])
two_presets-Holds = record {
  linked = (refl, refl, refl, (refl, refl, refl, refl));
  made = (omega arith, (omega arith, _));
  apart = ((λ e. omega arith, _), (_, _));
  few = omega arith;
}

append_preset-Holds_example :
    (s' : Sequence) × (sequence_append_preset true two_presets 5 ≡ (no_error, s'))
    × Holds s' (((0, 7) ∷ (1, 9) ∷ []) ++ (2, 5) ∷ [])
    × (s'.owned 5 ≡ true)
    × (s'.position ≡ some 0)
append_preset-Holds_example =
    append_preset-Holds two_presets ((0, 7) ∷ (1, 9) ∷ []) 5 two_presets-Holds

abbrev always : Option ℕ → ℕ
always preset = no_error

advance-regress_example :
    (kest_sequence_advance always two_presets ≡ (
      if always (some 9) == no_error
      then (no_error, record two_presets { position = some 1 })
      else (always (some 9), two_presets)))
    × (kest_sequence_regress always (record two_presets { position = some 1 }) ≡ (
        if always (some 7) == no_error
        then (no_error, two_presets)
        else (always (some 7), record two_presets { position = some 1 })))
advance-regress_example =
    advance-regress always two_presets [] [] 0 7 1 9 two_presets-Holds refl refl

remove_preset-Forward_example :
    (s' : Sequence) × (kest_sequence_remove_preset two_presets 9 ≡ (no_error, s'))
    × Forward s'.nodes ((0, 7) ∷ []) s'.presets
remove_preset-Forward_example =
    remove_preset-Forward two_presets ((0, 7) ∷ []) [] 1 9 two_presets-Holds (λ e. omega arith, _)

move_preset-loops_example :
    (s' : Sequence) × (kest_sequence_move_preset two_presets (pos 0) (pos 0) ≡ (no_error, s'))
    × (s'.presets ≡ some 0)
    × ((s'.nodes 0).next ≡ some 0)
move_preset-loops_example = move_preset-loops two_presets 0 refl
