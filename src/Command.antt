-- ===== src/Command.antt =====
-- The commands of components/fpga/kest_fpga_cmd.c and their encoding into a transfer batch, with
-- the appends of numbers from components/fpga/kest_fpga_io.c.
pub mod Program
pub mod Wire
pub mod Reader
use kestrel_interface.Prelude.{
  ℕ, zero, suc, ◌+◌, ◌*◌, ◌%◌, ◌^◌, Bool, true, false, ◌||◌, Option, none, some, List, [], ◌∷◌,
  ◌==◌, if◌then◌else◌, bit_and,
}
use kestrel_interface.Prelude.Int.{ℤ, pos, to_word}
use kestrel_interface.Status.{no_error, err_null_ptr}
use kestrel_interface.Memory.{Platform}
use kestrel_interface.Block.{NumericFormat, saturate}
use kestrel_interface.Batch.{
  Result, Action, and_then, ◌>>◌, kest_fpga_batch_append, kest_fpga_batch_append_16,
  kest_fpga_batch_append_24, kest_fpga_batch_append_32, kest_fpga_batch_append_block_number,
}
use kestrel_interface.Fixed.{
  Floats, kest_encode_numeric, float_to_q_nminus1, float_to_q_nminus1_filter_width,
}

abbrev pub begin_program : ℕ
begin_program = 1

abbrev pub write_block_instr : ℕ
write_block_instr = 2

abbrev pub write_block_reg_0 : ℕ
write_block_reg_0 = 3

abbrev pub write_block_reg_1 : ℕ
write_block_reg_1 = 4

abbrev pub alloc_delay : ℕ
alloc_delay = 5

abbrev pub end_program : ℕ
end_program = 10

abbrev pub set_input_gain : ℕ
set_input_gain = 11

abbrev pub set_output_gain : ℕ
set_output_gain = 12

abbrev pub update_block_reg_0 : ℕ
update_block_reg_0 = 13

abbrev pub update_block_reg_1 : ℕ
update_block_reg_1 = 14

abbrev pub commit_reg_updates : ℕ
commit_reg_updates = 15

abbrev pub alloc_filter : ℕ
alloc_filter = 16

abbrev pub write_filter_coef : ℕ
write_filter_coef = 17

abbrev pub update_filter_coef : ℕ
update_filter_coef = 18

abbrev pub commit_filter_coef : ℕ
commit_filter_coef = 19

abbrev pub enable_tail : ℕ
enable_tail = 39

-- A union is one field where its members have one type, and two fields where they have not.
pub record FpgaCommand (Float : Type 0) : Type 0 where
  pub type : ℕ
  pub data_1 : ℕ
  pub data_2 : ℕ
  pub val : Float
  pub format : ℤ
  pub encoding : NumericFormat

-- Which body of the encoder's `switch` the labels of a type lead to.
pub data Payload : Type 0 where
  instr_word register_value delay_sizes gain filter_orders coefficient filter_handle bare : Payload

unfoldable pub payload_of : ℕ → Payload
payload_of type =
    if type == write_block_instr
    then instr_word
    else if type == write_block_reg_0
        || (type == write_block_reg_1 || (type == update_block_reg_0 || type == update_block_reg_1))
    then register_value
    else if type == alloc_delay
    then delay_sizes
    else if type == set_input_gain || type == set_output_gain
    then gain
    else if type == alloc_filter
    then filter_orders
    else if type == write_filter_coef || type == update_filter_coef
    then coefficient
    else if type == commit_filter_coef
    then filter_handle
    else bare

module _ (fl : Floats) where
  open fl use {Float, of_ℕ}

  -- `kest_fpga_command cmd = {0}`, with the type set.
  abbrev pub zeroed : ℕ → FpgaCommand Float
  zeroed type = record {
    type = type;
    data_1 = 0;
    data_2 = 0;
    val = of_ℕ 0;
    format = pos 0;
    encoding = record { fractional_bits = 0; is_unsigned = false; overflow = saturate };
  }

  unfoldable pub kest_fpga_command_write_block_instr : ℕ → ℕ → FpgaCommand Float
  kest_fpga_command_write_block_instr block instr = record (zeroed write_block_instr) {
    data_1 = block;
    data_2 = instr;
  }

  unfoldable pub kest_fpga_command_write_block_reg_0 : ℕ → Float → NumericFormat → FpgaCommand Float
  kest_fpga_command_write_block_reg_0 block val format = record (zeroed write_block_reg_0) {
    data_1 = block;
    val = val;
    encoding = format;
  }

  unfoldable pub kest_fpga_command_write_block_reg_1 : ℕ → Float → NumericFormat → FpgaCommand Float
  kest_fpga_command_write_block_reg_1 block val format = record (zeroed write_block_reg_1) {
    data_1 = block;
    val = val;
    encoding = format;
  }

  unfoldable pub kest_fpga_command_update_block_reg_0 :
      ℕ → Float → NumericFormat → FpgaCommand Float
  kest_fpga_command_update_block_reg_0 block val format = record (zeroed update_block_reg_0) {
    data_1 = block;
    val = val;
    encoding = format;
  }

  unfoldable pub kest_fpga_command_update_block_reg_1 :
      ℕ → Float → NumericFormat → FpgaCommand Float
  kest_fpga_command_update_block_reg_1 block val format = record (zeroed update_block_reg_1) {
    data_1 = block;
    val = val;
    encoding = format;
  }

  unfoldable pub kest_fpga_command_commit_reg_updates : FpgaCommand Float
  kest_fpga_command_commit_reg_updates = zeroed commit_reg_updates

  unfoldable pub kest_fpga_command_alloc_delay : ℕ → ℕ → FpgaCommand Float
  kest_fpga_command_alloc_delay size delay = record (zeroed alloc_delay) {
    data_1 = size;
    data_2 = delay;
  }

  unfoldable pub kest_fpga_command_alloc_filter : ℤ → ℕ → ℕ → FpgaCommand Float
  kest_fpga_command_alloc_filter format order_ff order_fb = record (zeroed alloc_filter) {
    data_1 = order_ff;
    data_2 = order_fb;
    format = format;
  }

  unfoldable pub kest_fpga_command_write_filter_coef : ℕ → ℕ → Float → ℤ → FpgaCommand Float
  kest_fpga_command_write_filter_coef handle coef val format = record (zeroed write_filter_coef) {
    data_1 = handle;
    data_2 = coef;
    val = val;
    format = format;
  }

  unfoldable pub kest_fpga_command_update_filter_coef : ℕ → ℕ → Float → ℤ → FpgaCommand Float
  kest_fpga_command_update_filter_coef handle coef val format = record (zeroed update_filter_coef) {
    data_1 = handle;
    data_2 = coef;
    val = val;
    format = format;
  }

  unfoldable pub kest_fpga_command_commit_filter_coefs : ℕ → FpgaCommand Float
  kest_fpga_command_commit_filter_coefs handle = record (zeroed commit_filter_coef) {
    data_1 = handle;
  }

  unfoldable pub kest_fpga_command_enable_tail : FpgaCommand Float
  kest_fpga_command_enable_tail = zeroed enable_tail

module _ (fl : Floats) (p : Platform) where
  open fl use {Float, db_to_gain}

  append_word : ℕ × Option ℕ → Action
  append_word (result, none) b = (result, b)
  append_word (result, some word) b =
      if result == no_error then kest_fpga_batch_append_16 p (word % 2 ^ 16) b else (result, b)

  unfoldable pub kest_fpga_batch_append_numeric : Float → NumericFormat → Action
  unfolding append_word
  kest_fpga_batch_append_numeric value format none = (err_null_ptr, none)
  kest_fpga_batch_append_numeric value format (some seq) =
      append_word (kest_encode_numeric fl value format 16) (some seq)

  unfoldable pub kest_fpga_batch_append_float : Float → ℤ → Action
  kest_fpga_batch_append_float x format none = (err_null_ptr, none)
  kest_fpga_batch_append_float x format (some seq) =
      kest_fpga_batch_append_16 p (to_word 16 (float_to_q_nminus1 fl x format)) (some seq)

  unfoldable pub kest_fpga_batch_append_float_filter_width : Float → ℤ → Action
  kest_fpga_batch_append_float_filter_width x format =
      kest_fpga_batch_append_24 p (to_word 32 (float_to_q_nminus1_filter_width fl x format))

  -- The bodies of the `switch` behind the command byte. KEST_FPGA_GAIN_FORMAT is 5, and
  -- KEST_FPGA_FILTER_COEF_INDEX_BYTES is 2.
  payload : Payload → FpgaCommand Float → Action
  payload instr_word cmd = do
    kest_fpga_batch_append_block_number p cmd.data_1
    kest_fpga_batch_append_32 p cmd.data_2
  payload register_value cmd = do
    kest_fpga_batch_append_block_number p cmd.data_1
    kest_fpga_batch_append_numeric cmd.val cmd.encoding
  payload delay_sizes cmd = do
    kest_fpga_batch_append_24 p cmd.data_1
    kest_fpga_batch_append_24 p cmd.data_2
  payload gain cmd = kest_fpga_batch_append_float (db_to_gain cmd.val) (pos 5)
  payload filter_orders cmd = do
    kest_fpga_batch_append p (bit_and 0xff (to_word 32 cmd.format))
    kest_fpga_batch_append p (bit_and 0xff cmd.data_1)
    kest_fpga_batch_append p (bit_and 0xff cmd.data_2)
  payload coefficient cmd = do
    kest_fpga_batch_append p (bit_and 0xff cmd.data_1)
    kest_fpga_batch_append_16 p (bit_and 0xffff cmd.data_2)
    kest_fpga_batch_append_float_filter_width cmd.val cmd.format
  payload filter_handle cmd = kest_fpga_batch_append p (bit_and 0xff cmd.data_1)
  payload bare cmd = λ b. (no_error, b)

  unfoldable pub kest_fpga_command_append_encoded : FpgaCommand Float → Action
  unfolding payload
  kest_fpga_command_append_encoded cmd none = (err_null_ptr, none)
  kest_fpga_command_append_encoded cmd (some seq) =
      and_then (kest_fpga_batch_append p (cmd.type % 256) (some seq))
        (payload (payload_of cmd.type) cmd)

  -- `for (i = 0; i < cmds->count && ret_val == NO_ERROR; i++)`
  append_each : List (FpgaCommand Float) → Action
  append_each [] b = (no_error, b)
  append_each (cmd ∷ cmds) b = and_then (kest_fpga_command_append_encoded cmd b) (append_each cmds)

  unfoldable pub kest_fpga_command_list_append_encoded : Option (List (FpgaCommand Float)) → Action
  unfolding append_each
  kest_fpga_command_list_append_encoded none b = (err_null_ptr, b)
  kest_fpga_command_list_append_encoded (some cmds) none = (err_null_ptr, none)
  kest_fpga_command_list_append_encoded (some cmds) (some seq) = append_each cmds (some seq)
