-- ===== src/Command/Reader.antt =====
-- The listing of a batch: the byte-by-byte state machine of kest_fpga_batch_print in
-- components/fpga/kest_fpga_encoding.c. The variable `shift`, which only scales the values that are
-- also printed as floats, is left out.
pub mod Lines
pub mod Listing
use kestrel_interface.Prelude.{
  ℕ, zero, suc, ◌+◌, ◌*◌, ◌%◌, ◌^◌, Bool, true, false, ◌||◌, List, [], ◌∷◌, ◌==◌, if◌then◌else◌,
}
use kestrel_interface.Command.{
  write_block_instr, write_block_reg_0, write_block_reg_1, alloc_delay, set_input_gain,
  set_output_gain, update_block_reg_0, update_block_reg_1, alloc_filter, write_filter_coef,
  update_filter_coef, commit_filter_coef,
}

-- States 0 to 8, in order. No other number is ever stored, so `default` has no constructor.
pub data ReaderState : Type 0 where
  a_command block_number an_instruction register_number a_value two_values : ReaderState
  filter_shape coefficient_value a_handle : ReaderState

-- The variables that outlive a byte. `ret_state` has no value at first.
pub record Reader : Type 0 where
  pub state : ReaderState
  pub ret_state : ReaderState
  pub ctr : ℕ
  pub ctr_2 : ℕ
  pub block : ℕ
  pub value : ℕ
  pub signed_val : ℕ
  pub instruction : ℕ

-- What the listing says behind a byte.
pub data Line : Type 0 where
  silent : Line
  command block_line register_line handle_line : ℕ → Line
  instruction_line value_line size_line delay_line : ℕ → Line
  format_line feed_forward_line feed_back_line filter_line coefficient_line : ℕ → Line
  coefficient_value_line : ℕ → Line

abbrev pub initial : Reader
initial = record {
  state = a_command;
  ret_state = a_command;
  ctr = 0;
  ctr_2 = 0;
  block = 0;
  value = 0;
  signed_val = 0;
  instruction = 0;
}

-- `(x << 8) | byte` in a variable of `w` bits.
abbrev pub shift_in : ℕ → ℕ → ℕ → ℕ
shift_in w x byte = (x * 2 ^ 8 + byte) % 2 ^ w

-- State 0: labels with the same statements stand together.
unfoldable pub read_command : ℕ → Reader → Reader
read_command byte r =
    if byte == write_block_instr
    then record r { state = block_number; ret_state = an_instruction; ctr = 0; instruction = 0 }
    else if byte == write_block_reg_0
        || (byte == write_block_reg_1 || (byte == update_block_reg_0 || byte == update_block_reg_1))
    then record r { state = block_number; ret_state = a_value; value = 0; ctr = 0 }
    else if byte == alloc_delay
    then record r { state = two_values; value = 0; ctr = 0; ctr_2 = 0 }
    else if byte == set_input_gain || byte == set_output_gain
    then record r { state = a_value; ret_state = a_command; value = 0; ctr = 0 }
    else if byte == alloc_filter
    then record r { state = filter_shape; ret_state = a_command; value = 0; ctr = 0; ctr_2 = 0 }
    else if byte == write_filter_coef || byte == update_filter_coef
    then record r {
      state = coefficient_value;
      ret_state = a_command;
      value = 0;
      ctr = 0;
      ctr_2 = 0;
    }
    else if byte == commit_filter_coef
    then record r { state = a_handle; ret_state = a_command; value = 0; ctr = 0 }
    else r

read_block : ℕ → Reader → Line × Reader
read_block byte r =
    if r.ctr == 1
    then (
      block_line byte,
      record r { block = shift_in 16 r.block byte; state = r.ret_state; ctr = 0 },
    )
    else (silent, record r { block = shift_in 16 r.block byte; ctr = suc r.ctr })

read_instruction : ℕ → Reader → Line × Reader
read_instruction byte r =
    let instruction = shift_in 32 r.instruction byte in
    if r.ctr == 3
    then (instruction_line instruction, record r { state = a_command; instruction = instruction })
    else (silent, record r { instruction = instruction; ctr = suc r.ctr })

read_value : ℕ → Reader → Line × Reader
read_value byte r =
    let value = shift_in 16 r.value byte in
    if r.ctr == 1
    then (value_line value, record r { state = a_command; value = value })
    else (silent, record r { value = value; ctr = suc r.ctr })

read_sizes : ℕ → Reader → Line × Reader
read_sizes byte r =
    let value = shift_in 16 r.value byte in
    if r.ctr == 0
    then (silent, record r { value = byte; ctr = suc r.ctr })
    else if r.ctr == 2
    then (
      if r.ctr_2 == 0 then size_line value else delay_line value,
      if r.ctr_2 == 1
          then record r { value = value; ctr = 0; state = a_command }
          else record r { value = value; ctr = 0; ctr_2 = 1 },
    )
    else (silent, record r { value = value; ctr = suc r.ctr })

read_shape : ℕ → Reader → Line × Reader
read_shape byte r =
    if r.ctr_2 == 0
    then (format_line byte, record r { ctr_2 = suc r.ctr_2 })
    else if r.ctr_2 == 1
    then (feed_forward_line byte, record r { value = byte; ctr_2 = suc r.ctr_2; ctr = 0 })
    else (feed_back_line byte, record r { value = byte; state = a_command })

-- The sign test on bit 23 of the `int16_t` changes nothing: it only sets bits above the sixteenth.
read_coefficient : ℕ → Reader → Line × Reader
read_coefficient byte r =
    let value = shift_in 16 r.value byte in
    let signed_val = shift_in 16 r.signed_val byte in
    if r.ctr_2 == 0
    then (filter_line byte, record r { ctr_2 = suc r.ctr_2; ctr = 0; value = 0 })
    else if r.ctr_2 == 1
    then if r.ctr == 1
      then (
        coefficient_line value,
        record r { value = value; ctr = 0; ctr_2 = suc r.ctr_2; signed_val = 0 },
      )
      else (silent, record r { value = value; ctr = suc r.ctr })
    else if suc r.ctr == 3
    then (
      coefficient_value_line signed_val,
      record r { signed_val = signed_val; ctr = suc r.ctr; state = a_command },
    )
    else (silent, record r { signed_val = signed_val; ctr = suc r.ctr })

-- The `switch` on the state.
read_state : ReaderState → ℕ → Reader → Line × Reader
read_state a_command byte r = (command byte, read_command byte r)
read_state block_number byte r = read_block byte r
read_state an_instruction byte r = read_instruction byte r
read_state register_number byte r = (register_line byte, record r { state = a_value })
read_state a_value byte r = read_value byte r
read_state two_values byte r = read_sizes byte r
read_state filter_shape byte r = read_shape byte r
read_state coefficient_value byte r = read_coefficient byte r
read_state a_handle byte r = (handle_line byte, record r { state = r.ret_state })

-- The loop over the batch, with the lines that it prints.
read_bytes : List ℕ → Reader → List Line × Reader
unfolding read_state read_block read_instruction read_value read_sizes read_shape read_coefficient
read_bytes [] r = ([], r)
read_bytes (byte ∷ bytes) r =
    let (line, next) = read_state r.state byte r in
    let (lines, last) = read_bytes bytes next in (line ∷ lines, last)

unfoldable pub kest_fpga_batch_print : List ℕ → List Line
unfolding read_bytes read_state read_block read_instruction read_value read_sizes read_shape
    read_coefficient
kest_fpga_batch_print bytes = (read_bytes bytes initial).0
