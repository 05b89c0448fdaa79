-- ===== src/Tests/Ticks.antt =====
-- Runs of the theorems on the ticks of the updater.
use kestrel_interface.Prelude.{
  ℕ, ◌≡◌, refl, true, some, List, [], ◌∷◌, ◌++◌, if◌then◌else◌, inl, inr, map, arith,
}
use kestrel_interface.Status.{no_error, err_bad_args}
use kestrel_interface.Prelude.Int.{pos}
use kestrel_interface.Batch.{TransferBatch}
use kestrel_interface.Batch.Contents.{contents, IsValid}
use kestrel_interface.Command.{
  FpgaCommand, payload_of, zeroed, begin_program, kest_fpga_command_update_block_reg_0,
  kest_fpga_command_update_filter_coef,
}
use kestrel_interface.Command.Wire.{payload_bytes}
use kestrel_interface.Command.Program.{wire_all}
use kestrel_interface.Updater.{
  FpgaWrite, UpdaterState, ready, reprogram, block_reg, block_reg_update, filter_coef_update,
  alloc_type_delay,
}
use kestrel_interface.Updater.Write.{kest_fpga_write_to_command}
use kestrel_interface.Updater.Generate.{
  filter_updates, alloc_commands, kest_updater_generate_command_list,
  kest_updater_generate_tx_batch,
}
use kestrel_interface.Updater.Generate.Order.{
  generate_command_list-stops, filter_updates-once, updates, count,
}
use kestrel_interface.Updater.Generate.Complete.{
  asked, commit, registers_commit, tail_command, generate_command_list-Complete,
}
use kestrel_interface.Updater.Task.{
  Round, Message, program_batch, entry_update, preset_update, kest_updater_send, rounds,
}
use kestrel_interface.Updater.Task.Program.{Settled, rounds-Settled}
use kestrel_interface.Updater.Task.Batches.{program-wire, rounds-delivers}
use kestrel_interface.Updater.Task.Retiring.{
  give_up, answer, Tick, retiring_rounds, Kept, retiring_rounds-Kept,
}
use kestrel_interface.Tests.Retired.{all_alive, all_alive-Once}
use kestrel_interface.Tests.Data.{
  naturals, roomy, adding, a_write, locals, idle, empty-IsValid, empty, two_commands,
  two_commands_wire, an_effect, one_instr, the_instr, q,
}

abbrev junk : FpgaCommand ℕ
junk = zeroed naturals begin_program

-- A write to a register that no block has.
abbrev bad_write : FpgaWrite ℕ ℕ
bad_write = record a_write { type = block_reg_update; addr_2 = 2 }

abbrev coef_write : ℕ → ℕ → FpgaWrite ℕ ℕ
coef_write handle coef = record a_write {
  type = filter_coef_update;
  addr_1 = handle;
  addr_2 = coef;
}

-- A delay of 5000 samples, an instruction, a register and a coefficient.
abbrev busy : UpdaterState ℕ ℕ ℕ
busy = record one_instr {
  allocs = record { type = alloc_type_delay; size_1 = 5000; size_2 = 4; format = pos 0 } ∷ [];
  reg_writes = record a_write { type = block_reg_update } ∷ [];
  filter_writes = coef_write 6 0 ∷ [];
}

abbrev the_reg : List (FpgaCommand ℕ)
the_reg = kest_fpga_command_update_block_reg_0 naturals 3 9 q ∷ []

abbrev the_coef : List (FpgaCommand ℕ)
the_coef = kest_fpga_command_update_filter_coef naturals 6 0 9 (pos 0) ∷ []

complete_example :
    (handles : List ℕ) × (kest_updater_generate_command_list adding junk busy ≡ (
      no_error,
      record busy {
        cmds =
            []
            ++ (map (asked naturals) busy.allocs
                ++ (the_instr
                    ++ (the_reg
                        ++ (the_coef
                            ++ (map (commit naturals) handles
                                ++ registers_commit naturals busy.reg_writes
                                ++ tail_command naturals 5000)))));
      },
    ))
    × ((n : ℕ) → count handles n ≡ (if updates busy.filter_writes n then 1 else 0))
unfolding kest_fpga_write_to_command
complete_example =
    generate_command_list-Complete adding junk busy the_instr the_reg the_coef (inl refl, _)
      (omega arith) refl refl refl

abbrev one_bad : UpdaterState ℕ ℕ ℕ
one_bad = record one_instr { reg_writes = bad_write ∷ [] }

stops_example : kest_updater_generate_command_list adding junk one_bad ≡ (
  err_bad_args,
  record one_bad { cmds = [] ++ (alloc_commands adding junk [] ++ (the_instr ++ [])) },
)
unfolding kest_fpga_write_to_command
stops_example =
    generate_command_list-stops adding junk one_bad the_instr [] [] bad_write [] err_bad_args refl
      refl refl refl refl

once_example :
    count (filter_updates [] (coef_write 6 0 ∷ coef_write 6 1 ∷ coef_write 7 0 ∷ [])) 6
    ≡ (if updates (coef_write 6 0 ∷ coef_write 6 1 ∷ coef_write 7 0 ∷ []) 6 then 1 else 0)
once_example = filter_updates-once (coef_write 6 0 ∷ coef_write 6 1 ∷ coef_write 7 0 ∷ []) 6

-- A program that waits for the queue, and rounds in which an update arrives.
abbrev waiting : UpdaterState ℕ ℕ ℕ
waiting = record idle { state = reprogram; batch = record empty { len = 2 } }

waiting-IsValid : IsValid waiting.batch
waiting-IsValid = record {
  owns = (5 ∷ 6 ∷ [], λ i. some (5 ∷ 6 ∷ []));
  sized = λ i. 2;
  positive = omega arith;
  fits = omega arith;
}

abbrev a_round : ℕ → Round ℕ ℕ
a_round reply = record {
  first_reply = reply;
  second_reply = 0;
  updates = entry_update (block_reg 0 0 ∷ []) an_effect ∷ preset_update (an_effect ∷ []) ∷ [];
  timed = [];
}

delivers_example :
    (sent : TransferBatch) × (later : List Message) × ((rounds adding roomy locals junk
        (a_round 17 ∷ a_round 17 ∷ a_round 0 ∷ a_round 0 ∷ [])
        waiting).0
      ≡ program_batch sent ∷ later)
    × (contents sent ≡ contents waiting.batch)
delivers_example =
    rounds-delivers adding roomy (λ n. refl) locals junk (a_round 17 ∷ a_round 17 ∷ [])
      (a_round 0 ∷ []) (a_round 0) waiting refl waiting-IsValid (refl, (refl, _)) refl

-- An effect is given up while the program waits.
abbrev a_tick : Tick ℕ ℕ
a_tick = record {
  events = give_up 3 ∷ answer ∷ [];
  round = a_round 17;
  ui = λ e. true;
  spi = λ e. true;
}

retiring_rounds-Kept_example :
    Kept waiting all_alive
      (retiring_rounds adding roomy locals junk (a_tick ∷ a_tick ∷ []) waiting all_alive)
retiring_rounds-Kept_example =
    retiring_rounds-Kept adding roomy locals junk (a_tick ∷ a_tick ∷ []) waiting all_alive refl
      (refl, (refl, _)) all_alive-Once

rounds-Settled_example :
    Settled (rounds adding roomy locals junk (a_round 0 ∷ a_round 17 ∷ []) idle).1
rounds-Settled_example =
    rounds-Settled adding roomy locals junk (a_round 0 ∷ a_round 17 ∷ []) idle
      (inr (refl, (refl, refl, refl, refl, refl, refl)))

abbrev rendering : UpdaterState ℕ ℕ ℕ
rendering = record idle { state = reprogram; cmds = two_commands }

program_example :
    (made : TransferBatch) × (sent : TransferBatch) × (kest_updater_generate_tx_batch adding roomy
        rendering
      ≡ (no_error, record rendering { batch = made }))
    × (kest_updater_send roomy 0 (record rendering { batch = made })
        ≡ (no_error, some (program_batch sent), record rendering { batch = made; state = ready }))
    × (contents sent ≡ two_commands_wire)
unfolding wire_all payload_bytes payload_of
program_example =
    program-wire adding roomy (λ n. refl) rendering two_commands_wire 0 refl empty-IsValid refl refl
      refl
