-- ===== src/Tests/Commands.antt =====
-- Runs of the theorems on commands, their bytes and their listing.
use kestrel_interface.Prelude.{◌≡◌, refl, some}
use kestrel_interface.Batch.Contents.{Appends}
use kestrel_interface.Command.{kest_fpga_command_list_append_encoded, payload_of}
use kestrel_interface.Command.Wire.{payload_bytes}
use kestrel_interface.Command.Program.{list_append_encoded-Appends, wire_all}
use kestrel_interface.Tests.Data.{
  naturals, roomy, small, small-IsValid, two_commands, two_commands_wire,
}

two_commands-wire : wire_all naturals two_commands ≡ some two_commands_wire
unfolding wire_all payload_bytes payload_of
two_commands-wire = refl

list_append_encoded_example :
    Appends small two_commands_wire
      (kest_fpga_command_list_append_encoded naturals roomy (some two_commands) (some small))
list_append_encoded_example =
    list_append_encoded-Appends naturals roomy (λ n. refl) two_commands small two_commands_wire
      two_commands-wire small-IsValid
