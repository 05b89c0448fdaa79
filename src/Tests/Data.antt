-- ===== src/Tests/Data.antt =====
-- Concrete platforms, numbers, commands and effects for the tests.
use kestrel_interface.Prelude.{
  ℕ, true, false, Option, none, some, List, [], ◌∷◌, ltb, ◌+◌, ◌*◌, ◌^◌, ◌-◌, ◌/◌, min, max, arith,
}
use kestrel_interface.Prelude.Int.{pos}
use kestrel_interface.Memory.{Platform}
use kestrel_interface.Block.{
  NumericFormat, saturate, Block, BlockOperand, BlockRegVal, EffectFpgaPosition,
}
use kestrel_interface.Batch.{TransferBatch}
use kestrel_interface.Batch.Contents.{IsValid}
use kestrel_interface.Fixed.{Floats}
use kestrel_interface.Expr.{MathLibrary}
use kestrel_interface.Command.{
  FpgaCommand, begin_program, write_block_instr, zeroed, kest_fpga_command_write_block_instr,
}
use kestrel_interface.Updater.{FpgaWrite, UpdaterState, ready, Filter, Effect, block_instr_write}
use kestrel_interface.Updater.Write.{Evaluator}
use kestrel_interface.Updater.Preset.{Locals}

-- Numbers from 0 on, in place of floats.
abbrev pub naturals : Floats
naturals = record {
  Float = ℕ;
  of_ℕ = λ n. n;
  neg = λ n. 0;
  sub = λ a b. a - b;
  mul = λ a b. a * b;
  div = λ a b. a / b;
  ldexp = λ a n. a * 2 ^ n;
  lt = ltb;
  is_nan = λ n. false;
  fmin = min;
  fmax = max;
  rint = λ n. pos n;
  db_to_gain = λ n. n;
}

abbrev pub roomy : Platform
roomy = record { grants = λ n. true; stale = 7; word = 8 }

-- A valid batch with room for two bytes.
abbrev pub small : TransferBatch
small = record { len = 1; buf = some (5 ∷ 6 ∷ []); buf_len = 2; buffer_owned = true }

pub small-IsValid : IsValid small
small-IsValid = record {
  owns = (5 ∷ 6 ∷ [], λ i. some (5 ∷ 6 ∷ []));
  sized = λ i. 2;
  positive = omega arith;
  fits = omega arith;
}

abbrev pub empty : TransferBatch
empty = record { len = 0; buf = some (5 ∷ 6 ∷ []); buf_len = 2; buffer_owned = true }

pub empty-IsValid : IsValid empty
empty-IsValid = record {
  owns = (5 ∷ 6 ∷ [], λ i. some (5 ∷ 6 ∷ []));
  sized = λ i. 2;
  positive = omega arith;
  fits = omega arith;
}

-- BEGIN_PROGRAM, and an instruction for block 258.
abbrev pub two_commands : List (FpgaCommand ℕ)
two_commands =
    zeroed naturals begin_program
    ∷ record (zeroed naturals write_block_instr) { data_1 = 258; data_2 = 16909060 }
    ∷ []

abbrev pub two_commands_wire : List ℕ
two_commands_wire = 1 ∷ 2 ∷ 1 ∷ 2 ∷ 1 ∷ 2 ∷ 3 ∷ 4 ∷ []

abbrev pub operand : ℕ → BlockOperand
operand n = record { type = 0; addr = n }

abbrev pub q : NumericFormat
q = record { fractional_bits = 3; is_unsigned = false; overflow = saturate }

abbrev pub reg_val : BlockRegVal ℕ
reg_val = record { format = q; active = true; expr = some 9 }

-- A block that reads delay 2.
abbrev pub delay_read : Block ℕ
delay_read = record {
  instr = 16;
  arg_a = operand 1;
  arg_b = operand 2;
  arg_c = operand 3;
  dest = 4;
  reg_0 = reg_val;
  reg_1 = reg_val;
  shift = 0;
  saturate_disable = 0;
  res = some (record { type = 3; handle = 2 });
}

abbrev pub position : EffectFpgaPosition
position = record { block_start = 10; mem_start = 20; filter_start = 30; delay_start = 40 }

-- An expression is its value, and a scope adds to it.
abbrev pub value : Option ℕ → ℕ → ℕ
value none scope = scope
value (some n) scope = n + scope

abbrev pub adding : Evaluator naturals ℕ ℕ
adding = record { evaluate = value; samples = λ units x. x }

abbrev pub a_write : FpgaWrite ℕ ℕ
a_write = record {
  type = block_instr_write;
  addr_1 = 3;
  addr_2 = 0;
  format = pos 0;
  encoding = q;
  instr = 77;
  scope = 0;
  expr = some 9;
}

abbrev pub locals : Locals ℕ ℕ
locals = record {
  alloc = record { type = 0; size_1 = 0; size_2 = 0; format = pos 0 };
  write = a_write;
}

abbrev pub idle : UpdaterState ℕ ℕ ℕ
idle = record {
  state = ready;
  allocs = [];
  instr_writes = [];
  reg_writes = [];
  filter_writes = [];
  cmds = [];
  batch = empty;
  tick_ctr = 0;
}

abbrev pub one_instr : UpdaterState ℕ ℕ ℕ
one_instr = record idle { instr_writes = a_write ∷ [] }

abbrev pub the_instr : List (FpgaCommand ℕ)
the_instr = kest_fpga_command_write_block_instr naturals 3 77 ∷ []

abbrev pub bank : Filter ℕ
bank = record {
  feed_forward = 2;
  feed_back = 1;
  format = pos 2;
  coefs = some 4 ∷ some 5 ∷ some 6 ∷ [];
}

abbrev pub an_effect : Effect ℕ ℕ
an_effect = record {
  scope = 1;
  blocks = delay_read ∷ [];
  resources =
      none
      ∷ some (record { type = 4; handle = 1; filter = some bank; delay = none })
      ∷ some (record {
        type = 3;
        handle = 0;
        filter = none;
        delay = some (record { units = 2; size = none; delay = some 100 });
      })
      ∷ [];
  position = position;
}

-- Numbers from 0 on, in place of floats.
abbrev pub whole : MathLibrary
whole = record {
  Float = ℕ;
  of_ℕ = λ n. n;
  tiny = 1;
  pi = 3;
  lt = ltb;
  neg = λ x. 0;
  add = λ x y. x + y;
  sub = λ x y. x - y;
  mul = λ x y. x * y;
  div = λ x y. x / y;
  pow = λ x y. x ^ y;
  fabs = λ x. x;
  sqrt = λ x. x;
  exp = λ x. 2 ^ x;
  log = λ x. x;
  sin = λ x. x;
  sinh = λ x. x;
  asin = λ x. x;
  cos = λ x. x;
  cosh = λ x. x;
  acos = λ x. x;
  tan = λ x. x;
  tanh = λ x. x;
  atan = λ x. x;
  log10 = λ x. x;
  erf = λ x. x;
}
