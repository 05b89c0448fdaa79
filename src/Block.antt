-- ===== src/Block.antt =====
-- The data of components/core/kest_block.h, components/core/kest_resource.h and
-- components/fpga/kest_fpga_position.h. The `int` fields are kept as numbers: the parser makes
-- none of them negative. `E` stands for the expressions.
use kestrel_interface.Prelude.{ℕ, Bool, Option}

pub data NumericOverflow : Type 0 where
  saturate reject : NumericOverflow

pub record NumericFormat : Type 0 where
  pub fractional_bits : ℕ
  pub is_unsigned : Bool
  pub overflow : NumericOverflow

pub record BlockOperand : Type 0 where
  pub type : ℕ
  pub addr : ℕ

pub record BlockRegVal (E : Type 0) : Type 0 where
  pub format : NumericFormat
  pub active : Bool
  pub expr : Option E

-- `handle` and `type` of the resource that an instruction names.
pub record DspResource : Type 0 where
  pub type : ℕ
  pub handle : ℕ

pub record Block (E : Type 0) : Type 0 where
  pub instr : ℕ
  pub arg_a : BlockOperand
  pub arg_b : BlockOperand
  pub arg_c : BlockOperand
  pub dest : ℕ
  pub reg_0 : BlockRegVal E
  pub reg_1 : BlockRegVal E
  pub shift : ℕ
  pub saturate_disable : ℕ
  pub res : Option DspResource

pub record EffectFpgaPosition : Type 0 where
  pub block_start : ℕ
  pub mem_start : ℕ
  pub filter_start : ℕ
  pub delay_start : ℕ

pub record EffResourceReport : Type 0 where
  pub blocks : ℕ
  pub memory : ℕ
  pub delays : ℕ
  pub filters : ℕ

abbrev pub dsp_resource_lut : ℕ
dsp_resource_lut = 1

abbrev pub dsp_resource_mem : ℕ
dsp_resource_mem = 2

abbrev pub dsp_resource_delay : ℕ
dsp_resource_delay = 3

abbrev pub dsp_resource_filter : ℕ
dsp_resource_filter = 4
