-- ===== src/Sequence/Move.antt =====
-- kest_sequence_move_preset of components/core/kest_sequence.c.
use kestrel_interface.Prelude.{ℕ, ◌≡◌, refl, ap, none, some, true, ◌==◌, arith}
use kestrel_interface.Prelude.Int.{pos}
use kestrel_interface.Status.{no_error}
use kestrel_interface.Sequence.{
  Sequence, put_node, set_next, set_next_of, walk, move_found, kest_sequence_move_preset,
}

-- In a sequence with a first preset, moving the place 0 to the place 0 returns NO_ERROR and makes
-- the first node its own `next`: the walk along the list no longer ends.
pub move_preset-loops :
    (s : Sequence) (p : ℕ)
    → s.presets ≡ some p
    → (s' : Sequence) × (kest_sequence_move_preset s (pos 0) (pos 0) ≡ (no_error, s'))
      × (s'.presets ≡ some p)
      × ((s'.nodes p).next ≡ some p)
unfolding kest_sequence_move_preset walk move_found set_next_of set_next put_node
move_preset-loops s p first =
    let here : (p == p) ≡ true = ground arith in
    (
      record s { nodes = set_next s.nodes p s.presets; presets = some p },
      ap (λ target. move_found s 0 none target) first,
      refl,
      rw here first,
    )
