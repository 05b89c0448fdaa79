-- ===== src/Tests/Storage.antt =====
-- Runs of the theorems on pools, arenas, delays and the blocks of a preset.
use kestrel_interface.Prelude.{
  ℕ, ◌+◌, ◌%◌, ◌≤◌, ◌<◌, ◌≡◌, refl, true, some, [], ◌∷◌, ◌++◌, arith, max,
}
use kestrel_interface.Status.{no_error}
use kestrel_interface.Arena.{BumpArena, alloc_all}
use kestrel_interface.Arena.Stacked.{Stacked, alloc_all-Stacked}
use kestrel_interface.Pool.{Pool, indices, pool_obtain, pool_return, pool_reserve}
use kestrel_interface.Pool.Fifo.{IsValid, free_entries, pool_obtain-first, pool_return-last}
use kestrel_interface.Pool.Reserve.{pool_reserve-free}
use kestrel_interface.Updater.Write.{delay_size_for, kest_fpga_write_to_command}
use kestrel_interface.Updater.Write.Rounding.{delay_size_for_bounds}
use kestrel_interface.Updater.Preset.{add_blocks}
use kestrel_interface.Updater.Generate.Order.{Commanded}
use kestrel_interface.Updater.Preset.Blocks.{instructions, registers, add_blocks-Commanded}
use kestrel_interface.Tests.Data.{
  roomy, adding, a_write, one_instr, the_instr, an_effect, delay_read,
}

abbrev an_arena : BumpArena
an_arena = record { arena = true; pos = 8; capacity = 32 }

alloc_all-Stacked_example : Stacked 32 8 (alloc_all an_arena (5 ∷ 100 ∷ 9 ∷ []))
alloc_all-Stacked_example =
    alloc_all-Stacked (5 ∷ 100 ∷ 9 ∷ []) an_arena (omega arith) refl
      (omega arith, (omega arith, (omega arith, _)))

-- Three entries, of which number 1 is out and the ring has turned.
abbrev turned : Pool
turned = record {
  size = 3;
  free_count = 2;
  obtain_head = 2;
  return_head = 0;
  entries = true;
  buffer = some (0 ∷ 1 ∷ 2 ∷ []);
}

turned-IsValid : IsValid turned
turned-IsValid = record {
  there = refl;
  ring = 0 ∷ 1 ∷ 2 ∷ [];
  owns = refl;
  sized = refl;
  count = omega arith;
  obtains = omega arith;
  returns = omega arith;
  meets = refl;
}

pool_obtain_example :
    (x : ℕ) × (pool' : Pool) × (pool_obtain true turned ≡ (some x, pool'))
    × IsValid pool'
    × (free_entries turned ≡ x ∷ free_entries pool')
pool_obtain_example = pool_obtain-first turned turned-IsValid 1 refl

pool_return_example :
    (pool' : Pool) × (pool_return true turned 1 ≡ (no_error, pool'))
    × IsValid pool'
    × (free_entries pool' ≡ free_entries turned ++ 1 ∷ [])
pool_return_example = pool_return-last turned turned-IsValid 1 (omega arith)

pool_reserve_example :
    (pool' : Pool) × (pool_reserve roomy 12 4 true turned 5 ≡ (no_error, pool'))
    × IsValid pool'
    × (free_entries pool' ≡ indices 0 5)
pool_reserve_example =
    pool_reserve-free roomy 12 4 turned 5 (λ n. refl) (omega arith) (omega arith) (omega arith)
      (omega arith) (omega arith)

delay_size_example :
    (delay_size_for 441 500 % 4 ≡ 0)
    × (max 441 (500 + 4) < delay_size_for 441 500)
    × (delay_size_for 441 500 ≤ max 441 (500 + 4) + 4)
delay_size_example = delay_size_for_bounds 441 500 (omega arith) (omega arith)

-- A block at the place 10, behind an instruction that is there.
add_blocks_example :
    Commanded adding
      (add_blocks adding a_write an_effect 10 (delay_read ∷ []) one_instr).instr_writes
      (the_instr ++ instructions adding an_effect 10 (delay_read ∷ []))
    × Commanded adding
        (add_blocks adding a_write an_effect 10 (delay_read ∷ []) one_instr).reg_writes
        ([] ++ registers adding an_effect 10 (delay_read ∷ []))
unfolding kest_fpga_write_to_command
add_blocks_example =
    add_blocks-Commanded adding (delay_read ∷ []) a_write an_effect 10 one_instr the_instr [] refl
      refl
