-- ===== src/Tests/Effects.antt =====
-- Runs of the theorems on updates of effects and on their positions.
use kestrel_interface.Prelude.{◌≡◌, refl, true, none, some, List, [], ◌∷◌, arith, map}
use kestrel_interface.Updater.{block_reg, filter_coef}
use kestrel_interface.Updater.Add.{
  addressed, last_filter, kest_updater_add_filter_coef_update, kest_fpga_write_generate_update,
  kest_effect_fpga_position_resolve_filter, kest_updater_handle_scope_entry_update,
}
use kestrel_interface.Updater.Add.Unique.{Coalesced, handle_scope_entry_update-Coalesced}
use kestrel_interface.Updater.Add.Bank.{add_filter_coef_update-covers}
use kestrel_interface.Position.{Shape, kest_pipeline_update_positions}
use kestrel_interface.Position.Layout.{
  mem, assigned, all_addresses, all_widths, back_to_back, update_positions-back_to_back,
}
use kestrel_interface.Tests.Data.{a_write, idle, an_effect, bank}

handle_scope_entry_update-Coalesced_example : Coalesced (
    kest_updater_handle_scope_entry_update a_write idle
      (block_reg 0 1 ∷ filter_coef 1 2 ∷ block_reg 0 1 ∷ [])
      an_effect)
handle_scope_entry_update-Coalesced_example =
    handle_scope_entry_update-Coalesced (block_reg 0 1 ∷ filter_coef 1 2 ∷ block_reg 0 1 ∷ [])
      a_write idle an_effect (λ m n. omega arith, λ m n. omega arith)

covers_example :
    addressed
      (kest_updater_add_filter_coef_update a_write idle (filter_coef 1 0) an_effect).1.filter_writes
      (kest_effect_fpga_position_resolve_filter an_effect.position 1)
      2
    ≡ true
unfolding last_filter kest_updater_add_filter_coef_update kest_fpga_write_generate_update
covers_example =
    add_filter_coef_update-covers a_write idle an_effect 1 0 2 bank refl refl (omega arith)

abbrev two_effects : List Shape
two_effects =
    record { blocks = 3; resources = some (record { type = 2; handle = 0; mem_size = 5 }) ∷ [] }
    ∷ record {
      blocks = 2;
      resources =
          none
          ∷ some (record { type = 4; handle = 0; mem_size = 1 })
          ∷ some (record { type = 2; handle = 0; mem_size = 2 })
          ∷ some (record { type = 2; handle = 0; mem_size = 1 })
          ∷ [];
    }
    ∷ []

back_to_back_example :
    all_addresses mem
      (kest_pipeline_update_positions (map assigned two_effects))
      (map assigned two_effects)
    ≡ back_to_back 0 (all_widths mem two_effects)
back_to_back_example = update_positions-back_to_back mem two_effects
