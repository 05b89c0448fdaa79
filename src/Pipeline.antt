-- ===== src/Pipeline.antt =====
-- components/core/kest_pipeline.c: the effects of a preset, with the report of an effect's
-- description of components/core/kest_eff_desc.c and the edits of components/core/kest_preset.c. The
-- nodes of the list are pointed to by the list only, so the list is that of their `data`. Positions
-- are not negative. Not modelled: the freeing of a removed effect, the ids of the parameters of a new
-- one, and the saving of the preset that each edit queues. An id to remove is taken below 2^16.
pub mod Capacity
pub mod Moves
pub mod Sound
pub mod Appends
pub mod Rearranged
pub mod Edits
use kestrel_interface.Prelude.{
  ℕ, zero, suc, ◌+◌, ◌-◌, ◌%◌, ◌^◌, Bool, true, false, not, ◌||◌, ◌&&◌, Option, none, some, List,
  [], ◌∷◌, ◌++◌, ◌==◌, if◌then◌else◌, ltb, leb,
}
use kestrel_interface.Status.{
  no_error, err_null_ptr, err_bad_args, err_pipeline_full, err_invalid_effect_id,
}
use kestrel_interface.Block.{
  EffResourceReport, dsp_resource_mem, dsp_resource_delay, dsp_resource_filter,
}
use kestrel_interface.Position.{Slot}

-- A description of an effect: of its blocks, for each node of their list whether it holds one.
pub record EffectDesc : Type 0 where
  pub blocks : List Bool
  pub resources : List (Option Slot)
  pub res_rpt : EffResourceReport

-- A resource in the report.
unfoldable pub count_resource : EffResourceReport → Slot → EffResourceReport
count_resource rpt res =
    if res.type == dsp_resource_mem
    then record rpt { memory = rpt.memory + res.mem_size }
    else if res.type == dsp_resource_delay
    then record rpt { delays = rpt.delays + 1 }
    else if res.type == dsp_resource_filter
    then record rpt { filters = rpt.filters + 1 }
    else rpt

unfoldable pub count_resources : EffResourceReport → List (Option Slot) → EffResourceReport
count_resources rpt [] = rpt
count_resources rpt (none ∷ rs) = count_resources rpt rs
count_resources rpt (some res ∷ rs) = count_resources (count_resource rpt res) rs

unfoldable pub count_nodes : ℕ → List Bool → ℕ
count_nodes blocks [] = blocks
count_nodes blocks (b ∷ bs) = count_nodes (blocks + 1) bs

unfoldable pub kest_effect_desc_generate_res_rpt : EffectDesc → EffectDesc
kest_effect_desc_generate_res_rpt eff = record eff {
  res_rpt =
      count_resources
        (record { blocks = count_nodes 0 eff.blocks; memory = 0; delays = 0; filters = 0 })
        eff.resources;
}

-- An effect: `id`, `blocks.count` and `eff`.
pub record Effect : Type 0 where
  pub id : ℕ
  pub block_count : ℕ
  pub eff : Option EffectDesc

abbrev pub Effects : Type 0
Effects = List (Option Effect)

-- The loop that clones the blocks: how many are appended.
unfoldable pub clone_blocks : ℕ → List Bool → ℕ
clone_blocks count [] = count
clone_blocks count (true ∷ bs) = clone_blocks (count + 1) bs
clone_blocks count (false ∷ bs) = clone_blocks count bs

unfoldable pub init_effect_from_effect_desc : EffectDesc → Effect
init_effect_from_effect_desc eff = record {
  id = 0;
  block_count = clone_blocks 0 eff.blocks;
  eff = some eff;
}

-- Which requests for memory a call gets: for the effect, for the node, and for what is in the effect.
pub record Grants : Type 0 where
  pub effect : Bool
  pub node : Bool
  pub contents : Bool

-- The walk over the effects behind which the new one goes.
unfoldable pub least_free_from : ℕ → Effects → ℕ
least_free_from least_free_id [] = least_free_id
least_free_from least_free_id (none ∷ es) = least_free_from least_free_id es
least_free_from least_free_id (some e ∷ es) =
    least_free_from (if leb least_free_id e.id then e.id + 1 else least_free_id) es

-- The field `id` has 16 bits.
unfoldable pub append_built : Effects → Effect → Effects × Option Effect
append_built [] effect = let new_ = record effect { id = 0 } in (some new_ ∷ [], some new_)
append_built (e ∷ es) effect =
    let new_ = record effect { id = least_free_from 0 (e ∷ es) % 2 ^ 16 } in
    ((e ∷ es) ++ some new_ ∷ [], some new_)

unfoldable pub kest_pipeline_append_effect_eff :
    Effects → Option EffectDesc → Grants → Effects × Option Effect
kest_pipeline_append_effect_eff effects none grants = (effects, none)
kest_pipeline_append_effect_eff effects (some eff) grants =
    if not grants.effect || not grants.node || not grants.contents
    then (effects, none)
    else append_built effects (init_effect_from_effect_desc eff)

unfoldable pub has_id : Option Effect → ℕ → Bool
has_id none id = false
has_id (some e) id = e.id == id

unfoldable pub kest_pipeline_remove_effect : Effects → ℕ → ℕ × Effects
kest_pipeline_remove_effect [] id = (err_invalid_effect_id, [])
kest_pipeline_remove_effect (e ∷ es) id =
    let (code, es') = kest_pipeline_remove_effect es id in
    if has_id e id then (no_error, es) else (code, e ∷ es')

-- The first walk and the unlinking behind it: the target, if the walk meets one, and the rest.
unfoldable pub take_out : Effects → ℕ → Option (Option Effect × Effects)
take_out [] old_pos = none
take_out (e ∷ es) zero = some (e, es)
take_out (e ∷ es) (suc old_pos) = elim (take_out es old_pos) [
  | none ↦ none
  | some (target, rest) ↦ some (target, e ∷ rest)
]

-- The second walk and the linking behind it.
unfoldable pub put_in : Effects → ℕ → Option Effect → Effects
put_in [] new_pos target = target ∷ []
put_in (e ∷ es) zero target = target ∷ e ∷ es
put_in (e ∷ es) (suc new_pos) target = e ∷ put_in es new_pos target

unfoldable pub move_target : Effects → ℕ → Option (Option Effect × Effects) → ℕ × Effects
move_target effects new_pos none = (err_bad_args, effects)
move_target effects new_pos (some (target, rest)) = (no_error, put_in rest new_pos target)

unfoldable pub kest_pipeline_move_effect : Effects → ℕ → ℕ → ℕ × Effects
kest_pipeline_move_effect effects new_pos old_pos =
    move_target effects new_pos (take_out effects old_pos)

unfoldable pub kest_pipeline_get_effect_by_id : Effects → ℕ → Option Effect
kest_pipeline_get_effect_by_id [] id = none
kest_pipeline_get_effect_by_id (e ∷ es) id =
    if has_id e id then e else kest_pipeline_get_effect_by_id es id

unfoldable pub kest_pipeline_get_effect_by_index : Effects → ℕ → Option Effect
kest_pipeline_get_effect_by_index [] n = none
kest_pipeline_get_effect_by_index (e ∷ es) zero = e
kest_pipeline_get_effect_by_index (e ∷ es) (suc n) = kest_pipeline_get_effect_by_index es n

abbrev pub n_blocks : ℕ
n_blocks = 256

-- One round of the loop over the effects: the blocks that remain, or the code that is returned.
unfoldable pub check_effect : Option Effect → ℕ → ℕ × ℕ
check_effect none remaining = (err_bad_args, remaining)
check_effect (some e) remaining = elim e.eff [
  | none ↦ (err_bad_args, remaining)
  | some eff ↦
      if ltb remaining e.block_count || ltb remaining eff.res_rpt.blocks
      then (err_pipeline_full, remaining)
      else (no_error, remaining - eff.res_rpt.blocks)
]

unfoldable pub check_effects : Effects → ℕ → ℕ → ℕ
check_effects [] remaining extra_blocks =
    if ltb remaining extra_blocks then err_pipeline_full else no_error
check_effects (e ∷ es) remaining extra_blocks =
    let (code, remaining') = check_effect e remaining in
    let rest = check_effects es remaining' extra_blocks in if code == no_error then rest else code

unfoldable pub kest_pipeline_check_capacity : Effects → ℕ → ℕ
kest_pipeline_check_capacity effects extra_blocks = check_effects effects n_blocks extra_blocks

-- A preset: its pipeline, whether it plays, and how often the updater has been told of it.
pub record Preset : Type 0 where
  pub pipeline : Effects
  pub active : Bool
  pub notified : ℕ

unfoldable pub notify_active : Preset → Preset
notify_active p = if p.active then record p { notified = p.notified + 1 } else p

unfoldable pub behind_append : Preset → Effects → Option Effect → Preset × Option Effect
behind_append p effects none = (record p { pipeline = effects }, none)
behind_append p effects (some e) = (notify_active (record p { pipeline = effects }), some e)

unfoldable pub append_checked : Preset → EffectDesc → Grants → Preset × Option Effect
append_checked p eff grants =
    let (effects, new_) = kest_pipeline_append_effect_eff p.pipeline (some eff) grants in
    behind_append p effects new_

unfoldable pub kest_preset_append_effect_eff :
    Preset → Option EffectDesc → Grants → Preset × Option Effect
kest_preset_append_effect_eff p none grants = (p, none)
kest_preset_append_effect_eff p (some eff) grants =
    if kest_pipeline_check_capacity p.pipeline eff.res_rpt.blocks == no_error
    then append_checked p eff grants
    else (p, none)

unfoldable pub kest_preset_remove_effect : Preset → ℕ → ℕ × Preset
kest_preset_remove_effect p id =
    let (code, effects) = kest_pipeline_remove_effect p.pipeline id in
    (code, notify_active (record p { pipeline = effects }))

unfoldable pub kest_preset_move_effect : Preset → ℕ → ℕ → ℕ × Preset
kest_preset_move_effect p new_pos old_pos =
    let (code, effects) = kest_pipeline_move_effect p.pipeline new_pos old_pos in
    if code == no_error then (code, notify_active (record p { pipeline = effects })) else (code, p)
