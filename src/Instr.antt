-- ===== src/Instr.antt =====
-- Instruction words: the encoders and the printing decoders of
-- components/fpga/kest_fpga_encoding.c.
pub mod Fields
pub mod Decode
use kestrel_interface.Prelude.{
  ℕ, zero, suc, ◌+◌, ◌-◌, ◌*◌, ◌/◌, ◌%◌, ◌^◌, Bool, true, false, ◌||◌, not, Option, none, some,
  ◌==◌, ◌⊎◌, inl, inr, if◌then◌else◌, bit_and, bit_or,
}
use kestrel_interface.Block.{
  BlockOperand, DspResource, Block, EffectFpgaPosition, EffResourceReport, dsp_resource_lut,
  dsp_resource_mem, dsp_resource_delay, dsp_resource_filter,
}
use kestrel_interface.Batch.{range_bits}

-- BLOCK_INSTR_*: the opcodes of format B are 16 to 20, 21, 22 and 27.
unfoldable pub kest_fpga_block_opcode_format : ℕ → ℕ
kest_fpga_block_opcode_format opcode =
    if opcode == 16
      || (opcode == 17
          || (opcode == 18
              || (opcode == 19
                  || (opcode == 20 || (opcode == 21 || (opcode == 22 || opcode == 27))))))
    then 1
    else 0

-- `place_bits(x, y, val)`, a `uint32_t`
abbrev pub place_bits : ℕ → ℕ → ℕ → ℕ
place_bits x y val = bit_and (2 ^ (x - y + 1) - 1) (val % 2 ^ 32) * 2 ^ y % 2 ^ 32

-- `(!!test) << k`
abbrev pub flag : Bool → ℕ → ℕ
flag b k = (if b then 1 else 0) * 2 ^ k

infixl 20 ◌|||◌
abbrev pub ◌|||◌ : ℕ → ℕ → ℕ
a ||| b = bit_or a b

-- `type == KEST_ASM_ARG_EXPR`
abbrev pub is_expr : BlockOperand → Bool
is_expr op = op.type == 1

module _ {E : Type 0} where
  unfoldable pub kest_encode_dsp_block_instr_type_a : Option (Block E) → ℕ
  kest_encode_dsp_block_instr_type_a none = 0
  kest_encode_dsp_block_instr_type_a (some block) =
      place_bits 5 0 block.instr
      ||| place_bits 9 6 block.arg_a.addr
      ||| flag (is_expr block.arg_a) 10
      ||| place_bits 14 11 block.arg_b.addr
      ||| flag (is_expr block.arg_b) 15
      ||| place_bits 19 16 block.arg_c.addr
      ||| flag (is_expr block.arg_c) 20
      ||| place_bits 24 21 block.dest
      ||| place_bits 29 25 block.shift
      ||| flag (not (block.saturate_disable == 0)) 30
      ||| flag (block.shift == 255) 31

  unfoldable pub kest_encode_dsp_block_instr_type_b : Block E → ℕ → ℕ
  kest_encode_dsp_block_instr_type_b block res_handle =
      place_bits 5 0 block.instr
      ||| 1 * 2 ^ 5
      ||| place_bits 9 6 block.arg_a.addr
      ||| flag (is_expr block.arg_a) 10
      ||| place_bits 14 11 block.arg_b.addr
      ||| flag (is_expr block.arg_b) 15
      ||| place_bits 19 16 block.dest
      ||| place_bits 31 20 res_handle

-- What an encoder returns: the word, and the address that it leaves in the memory slot behind the
-- resource (`kest_mem_slot_set_effective_addr`), if it writes one.
pub record Encoded : Type 0 where
  pub word : ℕ
  pub effective_addr : Option ℕ

-- The `switch` on the resource's type, with the offsets of memory, delays and filters.
unfoldable pub handle_of : DspResource → ℕ → ℕ → ℕ → ℕ × Option ℕ
handle_of res mem delay filter =
    if res.type == dsp_resource_lut
    then (res.handle, none)
    else if res.type == dsp_resource_mem
    then (res.handle + mem, some (res.handle + mem))
    else if res.type == dsp_resource_delay
    then (res.handle + delay, none)
    else if res.type == dsp_resource_filter
    then (res.handle + filter, none)
    else (0, none)

module _ {E : Type 0} where
  encode_b : Block E → Option DspResource → ℕ → ℕ → ℕ → Encoded
  unfolding handle_of
  encode_b block none mem delay filter = record { word = 0; effective_addr = none }
  encode_b block (some res) mem delay filter =
      let (handle, addr) = handle_of res mem delay filter in
      record { word = kest_encode_dsp_block_instr_type_b block handle; effective_addr = addr }

  encode : Block E → ℕ → ℕ → ℕ → Encoded
  unfolding encode_b
  encode block mem delay filter =
      if kest_fpga_block_opcode_format block.instr == 0
      then record { word = kest_encode_dsp_block_instr_type_a (some block); effective_addr = none }
      else encode_b block block.res mem delay filter

  -- `pos ? pos->mem_start : 0`, and so on.
  unfoldable pub kest_block_instr_encode_positional :
      Option (Block E) → Option EffectFpgaPosition → Encoded
  unfolding encode
  kest_block_instr_encode_positional none pos = record { word = 0; effective_addr = none }
  kest_block_instr_encode_positional (some block) none = encode block 0 0 0
  kest_block_instr_encode_positional (some block) (some pos) =
      encode block pos.mem_start pos.delay_start pos.filter_start

  unfoldable pub kest_block_instr_encode_resource_aware :
      Option (Block E) → Option EffResourceReport → Encoded
  unfolding encode
  kest_block_instr_encode_resource_aware none res = record { word = 0; effective_addr = none }
  kest_block_instr_encode_resource_aware (some block) none = encode block 0 0 0
  kest_block_instr_encode_resource_aware (some block) (some res) =
      encode block res.memory res.delays res.filters

-- The fields that the printers read out of a word.
pub record PrintedA : Type 0 where
  pub opcode : ℕ
  pub src_a : ℕ
  pub src_a_reg : Bool
  pub src_b : ℕ
  pub src_b_reg : Bool
  pub src_c : ℕ
  pub src_c_reg : Bool
  pub dest : ℕ
  pub shift : ℕ
  pub sat : Bool
  pub no_shift : Bool

pub record PrintedB : Type 0 where
  pub opcode : ℕ
  pub src_a : ℕ
  pub src_a_reg : Bool
  pub src_b : ℕ
  pub src_b_reg : Bool
  pub dest : ℕ
  pub res_addr : ℕ

-- `!!(instr & (1 << k))`
abbrev pub test_bit : ℕ → ℕ → Bool
test_bit instr k = not (bit_and instr (2 ^ k) == 0)

unfoldable pub print_instruction_format_a : ℕ → PrintedA
print_instruction_format_a instr = record {
  opcode = range_bits instr 5 0;
  src_a = range_bits instr 4 6;
  src_a_reg = test_bit instr 10;
  src_b = range_bits instr 4 11;
  src_b_reg = test_bit instr 15;
  src_c = range_bits instr 4 16;
  src_c_reg = test_bit instr 20;
  dest = range_bits instr 4 21;
  shift = range_bits instr 5 25;
  sat = test_bit instr 30;
  no_shift = test_bit instr 31;
}

unfoldable pub print_instruction_format_b : ℕ → PrintedB
print_instruction_format_b instr = record {
  opcode = range_bits instr 5 0;
  src_a = range_bits instr 4 6;
  src_a_reg = test_bit instr 10;
  src_b = range_bits instr 4 11;
  src_b_reg = test_bit instr 15;
  dest = range_bits instr 4 16;
  res_addr = range_bits instr 8 20;
}

-- `print_instruction` looks at bit 5 to choose the printer.
unfoldable pub print_instruction : ℕ → PrintedA ⊎ PrintedB
print_instruction instr =
    if test_bit instr 5
    then inr (print_instruction_format_b instr)
    else inl (print_instruction_format_a instr)
