-- ===== src/Position.antt =====
-- Where the effects of a pipeline are placed on the FPGA: components/fpga/kest_fpga_position.c,
-- kest_pipeline_update_positions of components/core/kest_pipeline.c and
-- kest_resources_assign_handles of components/core/kest_resource.c.
pub mod Layout
use kestrel_interface.Prelude.{ℕ, ◌+◌, Option, none, some, List, [], ◌∷◌, ◌==◌, if◌then◌else◌}
use kestrel_interface.Block.{
  EffectFpgaPosition, EffResourceReport, dsp_resource_mem, dsp_resource_delay, dsp_resource_filter,
}

-- The fields of a resource that the placing reads and writes.
pub record Slot : Type 0 where
  pub type : ℕ
  pub handle : ℕ
  pub mem_size : ℕ

-- An effect: the number of its blocks, and its resources.
pub record Shape : Type 0 where
  pub blocks : ℕ
  pub resources : List (Option Slot)

unfoldable pub kest_fpga_position_start : EffectFpgaPosition
kest_fpga_position_start = record {
  block_start = 0;
  mem_start = 0;
  filter_start = 0;
  delay_start = 0;
}

-- The `switch` on the resource's type.
unfoldable pub advance : EffectFpgaPosition → Slot → EffectFpgaPosition
advance pos res =
    if res.type == dsp_resource_mem
    then record pos { mem_start = pos.mem_start + res.mem_size }
    else if res.type == dsp_resource_delay
    then record pos { delay_start = pos.delay_start + 1 }
    else if res.type == dsp_resource_filter
    then record pos { filter_start = pos.filter_start + 1 }
    else pos

unfoldable pub advance_all : EffectFpgaPosition → List (Option Slot) → EffectFpgaPosition
advance_all pos [] = pos
advance_all pos (none ∷ rs) = advance_all pos rs
advance_all pos (some res ∷ rs) = advance_all (advance pos res) rs

-- The position of each effect, from the position that the first gets.
unfoldable pub place : EffectFpgaPosition → List Shape → List EffectFpgaPosition
place pos [] = []
place pos (effect ∷ effects) =
    pos
    ∷ place
        (advance_all (record pos { block_start = pos.block_start + effect.blocks })
          effect.resources)
        effects

unfoldable pub kest_pipeline_update_positions : List Shape → List EffectFpgaPosition
kest_pipeline_update_positions effects = place kest_fpga_position_start effects

-- The next free handle of each kind.
pub record Handles : Type 0 where
  pub next_filter : ℕ
  pub next_delay : ℕ
  pub next_mem : ℕ

unfoldable pub assign : Handles → Slot → Slot × Handles
assign next res =
    if res.type == dsp_resource_delay
    then (record res { handle = next.next_delay }, record next { next_delay = next.next_delay + 1 })
    else if res.type == dsp_resource_mem
    then (
      record res { handle = next.next_mem },
      record next { next_mem = next.next_mem + res.mem_size },
    )
    else if res.type == dsp_resource_filter
    then (
      record res { handle = next.next_filter },
      record next { next_filter = next.next_filter + 1 },
    )
    else (res, next)

unfoldable pub assign_all : Handles → List (Option Slot) → List (Option Slot)
assign_all next [] = []
assign_all next (none ∷ rs) = none ∷ assign_all next rs
assign_all next (some res ∷ rs) =
    let (res', next') = assign next res in some res' ∷ assign_all next' rs

unfoldable pub kest_resources_assign_handles : List (Option Slot) → List (Option Slot)
kest_resources_assign_handles list =
    assign_all (record { next_filter = 0; next_delay = 0; next_mem = 0 }) list
