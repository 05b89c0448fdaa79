-- ===== src/Tests/Editing.antt =====
-- Runs of the theorems on pipelines.
use kestrel_interface.Prelude.{
  ℕ, ◌+◌, ◌≤◌, ◌≡◌, ◌↔◌, refl, true, false, Option, some, [], ◌∷◌, arith,
}
use kestrel_interface.Status.{no_error}
use kestrel_interface.Block.{dsp_resource_delay}
use kestrel_interface.Position.{kest_pipeline_update_positions}
use kestrel_interface.Pipeline.{
  EffectDesc, Effect, Effects, Grants, Preset, kest_effect_desc_generate_res_rpt,
  kest_pipeline_move_effect, kest_pipeline_get_effect_by_index, kest_pipeline_check_capacity,
  kest_preset_append_effect_eff, kest_preset_remove_effect, kest_preset_move_effect, n_blocks,
}
use kestrel_interface.Pipeline.Capacity.{AllFit, shapes, reported, check_capacity-AllFit}
use kestrel_interface.Pipeline.Moves.{move_effect-move_effect}
use kestrel_interface.Pipeline.Sound.{IsSound}
use kestrel_interface.Pipeline.Edits.{Reach, empty, edited, appended, removed, moved, Reach-IsSound}

-- Two blocks and a delay.
abbrev a_desc : EffectDesc
a_desc = record {
  blocks = true ∷ false ∷ true ∷ [];
  resources = some (record { type = dsp_resource_delay; handle = 0; mem_size = 0 }) ∷ [];
  res_rpt = record { blocks = 3; memory = 0; delays = 1; filters = 0 };
}

abbrev all_granted : Grants
all_granted = record { effect = true; node = true; contents = true }

abbrev an_effect : ℕ → Option Effect
an_effect id = some (record { id = id; block_count = 2; eff = some a_desc })

abbrev three_effects : Effects
three_effects = an_effect 4 ∷ an_effect 1 ∷ an_effect 7 ∷ []

move_effect_example :
    (es' : Effects) × (kest_pipeline_move_effect three_effects 0 2 ≡ (no_error, es'))
    × (kest_pipeline_get_effect_by_index es' 0 ≡ kest_pipeline_get_effect_by_index three_effects 2)
    × (kest_pipeline_move_effect es' 2 0 ≡ (no_error, three_effects))
move_effect_example = move_effect-move_effect three_effects 0 2 (omega arith) (omega arith)

check_capacity_example :
    ((kest_pipeline_check_capacity three_effects 5 ≡ no_error)
      ↔ (reported three_effects + 5 ≤ n_blocks))
    × (kest_pipeline_check_capacity three_effects 5 ≡ no_error
        → AllFit
            (kest_pipeline_update_positions (shapes (λ e. a_desc.resources) three_effects))
            (shapes (λ e. a_desc.resources) three_effects))
check_capacity_example =
    check_capacity-AllFit three_effects 5 (λ e. a_desc.resources)
      ((a_desc, refl, omega arith), ((a_desc, refl, omega arith), ((a_desc, refl, omega arith), _)))

-- Two appends, a move and a removal.
abbrev no_effects : Preset
no_effects = record { pipeline = []; active = true; notified = 0 }

abbrev one_effect : Preset
one_effect =
    (kest_preset_append_effect_eff no_effects (some (kest_effect_desc_generate_res_rpt a_desc))
      all_granted).0

abbrev two_effects : Preset
two_effects =
    (kest_preset_append_effect_eff one_effect (some (kest_effect_desc_generate_res_rpt a_desc))
      all_granted).0

abbrev turned : Preset
turned = (kest_preset_move_effect two_effects 0 1).1

abbrev left_over : Preset
left_over = (kest_preset_remove_effect turned 0).1

left_over-Reach : Reach 2 left_over
left_over-Reach =
    edited 2
      (edited 2
        (edited 2
          (edited 1 (empty no_effects refl) (appended no_effects a_desc all_granted) (omega arith))
          (appended one_effect a_desc all_granted) (omega arith))
        (moved two_effects 0 1) (omega arith))
      (removed turned 0) (omega arith)

Reach-IsSound_example : IsSound 2 left_over.pipeline
Reach-IsSound_example = Reach-IsSound 2 left_over left_over-Reach (omega arith)
