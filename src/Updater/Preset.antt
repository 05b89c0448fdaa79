-- ===== src/Updater/Preset.antt =====
-- A preset update: kest_updater_handle_preset_update of components/core/kest_update.c. The
-- resources that the control loop polls (memory and LFOs) are not part of the state here.
pub mod Blocks
use kestrel_interface.Prelude.{
  ℕ, suc, ◌+◌, Option, none, some, List, [], ◌∷◌, ◌++◌, ◌==◌, if◌then◌else◌,
}
use kestrel_interface.Status.{no_error}
use kestrel_interface.Fixed.{Floats}
use kestrel_interface.Block.{Block, BlockRegVal, dsp_resource_filter, dsp_resource_delay}
use kestrel_interface.Instr.{kest_block_instr_encode_positional}
use kestrel_interface.Updater.{
  FpgaWrite, FpgaAlloc, Filter, Resource, Effect, UpdaterState, reprogram, block_instr_write,
  block_reg_write, filter_coef_write, kest_updater_drain_lists,
}
use kestrel_interface.Updater.Write.{Evaluator, kest_alloc_for_delay, kest_alloc_for_filter}

-- What a local holds before its first use.
pub record Locals (E S : Type 0) : Type 0 where
  pub alloc : FpgaAlloc
  pub write : FpgaWrite E S

module _ {fl : Floats} {E S : Type 0} (ev : Evaluator fl E S) where
  open fl use {Float}

  -- The writes of kest_updater_handle_preset_update_add_filter_writes, from number `i` on.
  filter_bank : FpgaWrite E S → ℕ → List (Option E) → List (FpgaWrite E S)
  filter_bank write i [] = []
  filter_bank write i (expr ∷ coefs) =
      record write { addr_2 = i; expr = expr } ∷ filter_bank write (suc i) coefs

  unfoldable pub kest_updater_handle_preset_update_add_filter_writes :
      FpgaWrite E S → UpdaterState E S Float → ℕ → Option (Filter E) → S → UpdaterState E S Float
  unfolding filter_bank
  kest_updater_handle_preset_update_add_filter_writes write s handle none scope = s
  kest_updater_handle_preset_update_add_filter_writes write s handle (some filter) scope =
      let first = record write {
        type = filter_coef_write;
        addr_1 = handle;
        format = filter.format;
        scope = scope;
      } in
      record s { filter_writes = s.filter_writes ++ filter_bank first 0 filter.coefs }

  -- `if (ret_val == NO_ERROR) append; else return ret_val`
  add_alloc : UpdaterState E S Float → ℕ × FpgaAlloc → ℕ × UpdaterState E S Float
  add_alloc s (result, alloc) =
      if result == no_error
      then (no_error, record s { allocs = s.allocs ++ alloc ∷ [] })
      else (result, s)

  add_resource :
      Locals E S → Effect E S → Resource E → UpdaterState E S Float → ℕ × UpdaterState E S Float
  unfolding add_alloc
  add_resource l effect res s =
      if res.type == dsp_resource_delay
      then add_alloc s (kest_alloc_for_delay ev l.alloc res effect.scope)
      else if res.type == dsp_resource_filter
      then (let (result, s') = add_alloc s (kest_alloc_for_filter l.alloc res) in
          (
            result,
            if result == no_error
                then kest_updater_handle_preset_update_add_filter_writes l.write s'
                    (effect.position.filter_start + res.handle) res.filter effect.scope
                else s',
          ))
      else (no_error, s)

  and_next :
      ℕ × UpdaterState E S Float
      → (UpdaterState E S Float → ℕ × UpdaterState E S Float)
      → ℕ × UpdaterState E S Float
  and_next (result, s) next = if result == no_error then next s else (result, s)

  add_resources :
      Locals E S
      → Effect E S
      → List (Option (Resource E))
      → UpdaterState E S Float
      → ℕ × UpdaterState E S Float
  unfolding add_resource and_next
  add_resources l effect [] s = (no_error, s)
  add_resources l effect (none ∷ rs) s = add_resources l effect rs s
  add_resources l effect (some res ∷ rs) s =
      and_next (add_resource l effect res s) (add_resources l effect rs)

  -- `if (block->reg_0.active)`, and the like for the other register.
  active_write : FpgaWrite E S → ℕ → BlockRegVal E → List (FpgaWrite E S)
  active_write write reg val =
      if val.active
      then record write {
        type = block_reg_write;
        addr_2 = reg;
        expr = val.expr;
        encoding = val.format;
      }
        ∷ []
      else []

  -- The loop over the blocks, the first of which goes to position `n`.
  unfoldable pub add_blocks :
      FpgaWrite E S
      → Effect E S
      → ℕ
      → List (Block E)
      → UpdaterState E S Float
      → UpdaterState E S Float
  unfolding active_write
  add_blocks write effect n [] s = s
  add_blocks write effect n (block ∷ blocks) s =
      let at = record write { addr_1 = n; scope = effect.scope } in
      add_blocks write effect (suc n) blocks (record s {
        instr_writes =
            s.instr_writes
            ++ record at {
              type = block_instr_write;
              instr = (kest_block_instr_encode_positional (some block) (some effect.position)).word;
            }
              ∷ [];
        reg_writes = s.reg_writes ++ active_write at 0 block.reg_0 ++ active_write at 1 block.reg_1;
      })

  unfoldable pub kest_updater_handle_preset_update_add_effect :
      Locals E S → UpdaterState E S Float → Effect E S → ℕ × UpdaterState E S Float
  unfolding add_resources add_blocks and_next
  kest_updater_handle_preset_update_add_effect l s effect =
      and_next (add_resources l effect effect.resources s)
        λ s'. (no_error, add_blocks l.write effect effect.position.block_start effect.blocks s')

  -- The loop over the pipeline, which goes on past an effect that fails.
  add_effects : Locals E S → List (Effect E S) → UpdaterState E S Float → UpdaterState E S Float
  add_effects l [] s = s
  add_effects l (effect ∷ effects) s =
      add_effects l effects (kest_updater_handle_preset_update_add_effect l s effect).1

  -- The effects of the pipeline, with the positions that kest_preset_update_positions gives them.
  unfoldable pub kest_updater_handle_preset_update :
      Locals E S → UpdaterState E S Float → List (Effect E S) → UpdaterState E S Float
  unfolding add_effects
  kest_updater_handle_preset_update l s effects =
      add_effects l effects (record (kest_updater_drain_lists s) { state = reprogram })
