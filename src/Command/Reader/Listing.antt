-- ===== src/Command/Reader/Listing.antt =====
-- The listing of kest_fpga_batch_print against the wire format of components/fpga/kest_fpga_cmd.c.
use kestrel_interface.Prelude.{ℕ, ◌≡◌, List}
use kestrel_interface.Command.{
  Payload, instr_word, register_value, delay_sizes, gain, filter_orders, coefficient, filter_handle,
  bare,
}
use kestrel_interface.Command.Reader.{
  Reader, Line, a_command, block_number, an_instruction, a_value, two_values, filter_shape,
  coefficient_value, a_handle, read_bytes,
}

-- The reader as a command byte of a kind leaves it.
abbrev expecting : Payload → Reader → Reader
expecting instr_word r = record r {
  state = block_number;
  ret_state = an_instruction;
  ctr = 0;
  instruction = 0;
}
expecting register_value r = record r {
  state = block_number;
  ret_state = a_value;
  value = 0;
  ctr = 0;
}
expecting delay_sizes r = record r { state = two_values; value = 0; ctr = 0; ctr_2 = 0 }
expecting gain r = record r { state = a_value; ret_state = a_command; value = 0; ctr = 0 }
expecting filter_orders r = record r {
  state = filter_shape;
  ret_state = a_command;
  value = 0;
  ctr = 0;
  ctr_2 = 0;
}
expecting coefficient r = record r {
  state = coefficient_value;
  ret_state = a_command;
  value = 0;
  ctr = 0;
  ctr_2 = 0;
}
expecting filter_handle r = record r { state = a_handle; ret_state = a_command; value = 0; ctr = 0 }
expecting bare r = r

-- The bytes of a payload are listed as its lines, and the reader waits for a command again.
abbrev Lists : Reader → List ℕ → List Line → Type 0
Lists r ys ls = ((read_bytes ys r).0 ≡ ls) × ((read_bytes ys r).1.state ≡ a_command)
