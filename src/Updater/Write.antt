-- ===== src/Updater/Write.antt =====
-- How an allocation and a write become a command.
pub mod Rounding
use kestrel_interface.Prelude.{
  ℕ, ◌+◌, ◌-◌, ◌%◌, ◌^◌, Option, none, some, ◌==◌, if◌then◌else◌, ltb, ◌⊎◌, inl, inr,
}
use kestrel_interface.Status.{no_error, err_bad_args}
use kestrel_interface.Fixed.{Floats}
use kestrel_interface.Command.{
  FpgaCommand, kest_fpga_command_write_block_instr, kest_fpga_command_write_block_reg_0,
  kest_fpga_command_write_block_reg_1, kest_fpga_command_update_block_reg_0,
  kest_fpga_command_update_block_reg_1, kest_fpga_command_alloc_delay,
  kest_fpga_command_alloc_filter, kest_fpga_command_write_filter_coef,
  kest_fpga_command_update_filter_coef,
}
use kestrel_interface.Updater.{
  FpgaWrite, FpgaAlloc, Delay, Resource, block_instr_write, block_reg_write, block_reg_update,
  filter_coef_write, filter_coef_update, alloc_type_filter, alloc_type_delay,
}

-- The expressions, whose evaluation is not modelled: the value of a pointer to one in a scope, and `(uint32_t)(ceilf(x) * unit_c)`, the number of
-- samples in `x` units of a delay. The theorems hold for every choice.
pub record Evaluator (fl : Floats) (E S : Type 0) : Type 1 where
  pub evaluate : Option E → S → fl.Float
  pub samples : ℕ → fl.Float → ℕ

-- A `uint32_t` sum wraps; so does the step to the next multiple of four.
unfoldable pub delay_size_for : ℕ → ℕ → ℕ
delay_size_for size samples =
    let least = (samples + 4) % 2 ^ 32 in
    let size' = if ltb size least then least else size in (size' + (4 - size' % 4)) % 2 ^ 32

module _ {fl : Floats} {E S : Type 0} (ev : Evaluator fl E S) where
  open ev use {evaluate, samples}

  alloc_delay_samples : Delay E → S → FpgaAlloc → FpgaAlloc
  alloc_delay_samples d scope alloc =
      let delay_samples = samples d.units (evaluate d.delay scope) in
      record alloc {
        type = alloc_type_delay;
        size_1 = elim d.size [
          | none ↦ delay_size_for ((delay_samples + 4) % 2 ^ 32) delay_samples
          | some size ↦ delay_size_for (samples d.units (evaluate (some size) scope)) delay_samples
        ];
        size_2 = delay_samples;
      }

  -- The allocation is returned as the call leaves it.
  unfoldable pub kest_alloc_for_delay : FpgaAlloc → Resource E → S → ℕ × FpgaAlloc
  unfolding alloc_delay_samples
  kest_alloc_for_delay alloc res scope = elim res.delay [
    | none ↦ (err_bad_args, alloc)
    | some d ↦ (no_error, alloc_delay_samples d scope alloc)
  ]

  -- The `switch` on the write's type: an error, or the command.
  unfoldable pub kest_fpga_write_to_command : FpgaWrite E S → ℕ ⊎ FpgaCommand fl.Float
  kest_fpga_write_to_command src =
      let val = evaluate src.expr src.scope in
      if src.type == block_instr_write
      then inr (kest_fpga_command_write_block_instr fl src.addr_1 src.instr)
      else if src.type == block_reg_write
      then if src.addr_2 == 0
        then inr (kest_fpga_command_write_block_reg_0 fl src.addr_1 val src.encoding)
        else if src.addr_2 == 1
        then inr (kest_fpga_command_write_block_reg_1 fl src.addr_1 val src.encoding)
        else inl err_bad_args
      else if src.type == block_reg_update
      then if src.addr_2 == 0
        then inr (kest_fpga_command_update_block_reg_0 fl src.addr_1 val src.encoding)
        else if src.addr_2 == 1
        then inr (kest_fpga_command_update_block_reg_1 fl src.addr_1 val src.encoding)
        else inl err_bad_args
      else if src.type == filter_coef_write
      then inr (kest_fpga_command_write_filter_coef fl src.addr_1 src.addr_2 val src.format)
      else if src.type == filter_coef_update
      then inr (kest_fpga_command_update_filter_coef fl src.addr_1 src.addr_2 val src.format)
      else inl err_bad_args

unfoldable pub kest_alloc_for_filter : {E : Type 0} → FpgaAlloc → Resource E → ℕ × FpgaAlloc
kest_alloc_for_filter alloc res = elim res.filter [
  | none ↦ (err_bad_args, alloc)
  | some filter ↦ (
    no_error,
    record {
      type = alloc_type_filter;
      size_1 = filter.feed_forward;
      size_2 = filter.feed_back;
      format = filter.format;
    },
  )
]

-- An allocation of another type leaves the command that was there.
unfoldable pub kest_alloc_to_command :
    (fl : Floats) → FpgaCommand fl.Float → FpgaAlloc → FpgaCommand fl.Float
kest_alloc_to_command fl cmd alloc =
    if alloc.type == alloc_type_delay
    then kest_fpga_command_alloc_delay fl alloc.size_1 alloc.size_2
    else if alloc.type == alloc_type_filter
    then kest_fpga_command_alloc_filter fl alloc.format alloc.size_1 alloc.size_2
    else cmd
