-- ===== src/Command/Reader/Lines.antt =====
-- What the listing of a list of commands says: of a block number the low byte, and of sizes, delays
-- and values of coefficients, which are sent with 24 bits, the low 16, as the reader's variables cut
-- them.
use kestrel_interface.Prelude.{ℕ, ◌%◌, ◌^◌, Option, none, some, List, [], ◌∷◌, ◌++◌}
use kestrel_interface.Prelude.Int.{pos, to_word}
use kestrel_interface.Fixed.{
  Floats, kest_encode_numeric, float_to_q_nminus1, float_to_q_nminus1_filter_width,
}
use kestrel_interface.Batch.Contents.{byte}
use kestrel_interface.Command.{
  FpgaCommand, Payload, instr_word, register_value, delay_sizes, gain, filter_orders, coefficient,
  filter_handle, bare, payload_of,
}
use kestrel_interface.Command.Reader.{
  Line, silent, command, block_line, handle_line, instruction_line, value_line, size_line,
  delay_line, format_line, feed_forward_line, feed_back_line, filter_line, coefficient_line,
  coefficient_value_line,
}
use kestrel_interface.Command.Wire.{word_of}

abbrev pub word_or_0 : Option ℕ → ℕ
word_or_0 none = 0
word_or_0 (some w) = w

-- What the listing says about the bytes behind a command's type. `byte x 0` is the low byte, which is
-- all that is shown of a block number.
abbrev pub lines : (fl : Floats) → Payload → FpgaCommand fl.Float → List Line
lines fl instr_word cmd =
    silent
    ∷ block_line (byte cmd.data_1 0)
    ∷ silent
    ∷ silent
    ∷ silent
    ∷ instruction_line (cmd.data_2 % 2 ^ 32)
    ∷ []
lines fl register_value cmd =
    silent
    ∷ block_line (byte cmd.data_1 0)
    ∷ silent
    ∷ value_line (word_or_0 (word_of (kest_encode_numeric fl cmd.val cmd.encoding 16)) % 2 ^ 16)
    ∷ []
lines fl delay_sizes cmd =
    silent
    ∷ silent
    ∷ size_line (cmd.data_1 % 2 ^ 16)
    ∷ silent
    ∷ silent
    ∷ delay_line (cmd.data_2 % 2 ^ 16)
    ∷ []
lines fl gain cmd =
    silent
    ∷ value_line (to_word 16 (float_to_q_nminus1 fl (fl.db_to_gain cmd.val) (pos 5)) % 2 ^ 16)
    ∷ []
lines fl filter_orders cmd =
    format_line (to_word 8 cmd.format)
    ∷ feed_forward_line (byte cmd.data_1 0)
    ∷ feed_back_line (byte cmd.data_2 0)
    ∷ []
lines fl coefficient cmd =
    filter_line (byte cmd.data_1 0)
    ∷ silent
    ∷ coefficient_line (cmd.data_2 % 2 ^ 16)
    ∷ silent
    ∷ silent
    ∷ coefficient_value_line
        (to_word 32 (float_to_q_nminus1_filter_width fl cmd.val cmd.format) % 2 ^ 16)
    ∷ []
lines fl filter_handle cmd = handle_line (byte cmd.data_1 0) ∷ []
lines fl bare cmd = []

unfoldable pub listing : (fl : Floats) → List (FpgaCommand fl.Float) → List Line
listing fl [] = []
listing fl (cmd ∷ cmds) = (command cmd.type ∷ lines fl (payload_of cmd.type) cmd) ++ listing fl cmds
