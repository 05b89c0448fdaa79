-- ===== src/Updater/Generate.antt =====
-- kest_updater_generate_command_list and kest_updater_generate_tx_batch of
-- components/core/kest_update.c.
pub mod Order
pub mod Complete
use kestrel_interface.Prelude.{
  ℕ, ◌+◌, ◌%◌, ◌^◌, Bool, true, false, ◌||◌, List, [], ◌∷◌, ◌++◌, map, ◌==◌, if◌then◌else◌, int_lt,
  ◌⊎◌, inl, inr, Option, none, some,
}
use kestrel_interface.Status.{no_error, err_null_ptr}
use kestrel_interface.Memory.{Platform}
use kestrel_interface.Batch.{TransferBatch}
use kestrel_interface.Fixed.{Floats}
use kestrel_interface.Command.{
  FpgaCommand, kest_fpga_command_commit_filter_coefs, kest_fpga_command_commit_reg_updates,
  kest_fpga_command_enable_tail, kest_fpga_command_list_append_encoded,
}
use kestrel_interface.Updater.{
  batch_or, FpgaWrite, FpgaAlloc, UpdaterState, filter_coef_update, alloc_type_delay, tail_cutoff,
}
use kestrel_interface.Updater.Write.{Evaluator, kest_fpga_write_to_command, kest_alloc_to_command}

-- Is the number in the list?
abbrev pub found : List ℕ → ℕ → Bool
found [] n = false
found (m ∷ ms) n = m == n || found ms n

-- `filter_updates`: the filters that the updates among the writes name, each once, from those that
-- are known.
unfoldable pub filter_updates : {E S : Type 0} → List ℕ → List (FpgaWrite E S) → List ℕ
filter_updates known [] = known
filter_updates known (w ∷ ws) =
    if w.type == filter_coef_update
    then if found known w.addr_1
      then filter_updates known ws
      else filter_updates (known ++ w.addr_1 ∷ []) ws
    else filter_updates known ws

module _ {fl : Floats} {E S : Type 0} (ev : Evaluator fl E S) where
  open fl use {Float}

  -- The loop over the allocations; `cmd` is the local that the command is built in.
  unfoldable pub alloc_commands : FpgaCommand Float → List FpgaAlloc → List (FpgaCommand Float)
  alloc_commands cmd [] = []
  alloc_commands cmd (alloc ∷ allocs) =
      let cmd' = kest_alloc_to_command fl cmd alloc in cmd' ∷ alloc_commands cmd' allocs

  -- The bits of the `int` that the sizes are added up in, from a sum on.
  unfoldable pub total_delay_alloc : ℕ → List FpgaAlloc → ℕ
  total_delay_alloc total [] = total
  total_delay_alloc total (alloc ∷ allocs) =
      total_delay_alloc
        (if alloc.type == alloc_type_delay then (total + alloc.size_1) % 2 ^ 32 else total) allocs

  add_first : ℕ ⊎ FpgaCommand Float → ℕ × List (FpgaCommand Float) → ℕ × List (FpgaCommand Float)
  add_first (inl error) rest = (error, [])
  add_first (inr cmd) rest = (rest.0, cmd ∷ rest.1)

  -- A loop over writes stops at the first that has no command, and keeps those before it.
  write_commands : List (FpgaWrite E S) → ℕ × List (FpgaCommand Float)
  unfolding add_first
  write_commands [] = (no_error, [])
  write_commands (w ∷ ws) = add_first (kest_fpga_write_to_command ev w) (write_commands ws)

  -- What follows a loop that has not failed.
  and_more :
      ℕ × List (FpgaCommand Float) → ℕ × List (FpgaCommand Float) → ℕ × List (FpgaCommand Float)
  and_more (result, cmds) rest =
      if result == no_error then (rest.0, cmds ++ rest.1) else (result, cmds)

  unfoldable pub closing_commands : UpdaterState E S Float → List (FpgaCommand Float)
  unfolding total_delay_alloc
  closing_commands state =
      map (λ handle. kest_fpga_command_commit_filter_coefs fl handle)
        (filter_updates [] state.filter_writes)
      ++ (elim state.reg_writes [ [] ↦ [] | w ∷ ws ↦ kest_fpga_command_commit_reg_updates fl ∷ [] ])
      ++ (if int_lt tail_cutoff (total_delay_alloc 0 state.allocs)
          then kest_fpga_command_enable_tail fl ∷ []
          else [])

  generated : FpgaCommand Float → UpdaterState E S Float → ℕ × List (FpgaCommand Float)
  unfolding alloc_commands write_commands and_more closing_commands
  generated cmd state =
      and_more (no_error, alloc_commands cmd state.allocs)
        (and_more (write_commands state.instr_writes) (
          and_more (write_commands state.reg_writes)
            (and_more (write_commands state.filter_writes) (no_error, closing_commands state))))

  -- `cmd` is what the local holds before its first use.
  unfoldable pub kest_updater_generate_command_list :
      FpgaCommand Float → UpdaterState E S Float → ℕ × UpdaterState E S Float
  unfolding generated
  kest_updater_generate_command_list cmd state =
      let made = generated cmd state in (made.0, record state { cmds = state.cmds ++ made.1 })

  unfoldable pub kest_updater_generate_tx_batch :
      Platform → UpdaterState E S Float → ℕ × UpdaterState E S Float
  kest_updater_generate_tx_batch p state =
      let (result, seq) =
        kest_fpga_command_list_append_encoded fl p (some state.cmds) (some state.batch) in
      let batch = batch_or state.batch seq in
      (
        result,
        record state { batch = if result == no_error then batch else record batch { len = 0 } },
      )
