-- ===== src/Tests/Bytes.antt =====
-- Runs of the theorems on batches and instruction words.
use kestrel_interface.Prelude.{◌≤◌, some, [], ◌∷◌, arith, max}
use kestrel_interface.Batch.{grow, kest_fpga_batch_append, kest_fpga_batch_append_32}
use kestrel_interface.Batch.Size.{grow_bounds}
use kestrel_interface.Batch.Concat.{kest_fpga_batch_concat, kest_fpga_batch_concat-Appended}
use kestrel_interface.Batch.Contents.{
  contents, Appended, be32, kest_fpga_batch_append-Appended, append_32-Appended,
}
use kestrel_interface.Tests.Data.{roomy, small, small-IsValid}

grow_bounds_example : (9 ≤ grow 9 4 9) × (grow 9 4 9 ≤ max 4 18)
grow_bounds_example = grow_bounds 4 9 (omega arith)

append_example : Appended roomy small (200 ∷ []) (kest_fpga_batch_append roomy 200 (some small))
append_example = kest_fpga_batch_append-Appended roomy small 200 small-IsValid

append_32_example :
    Appended roomy small (be32 16909060) (kest_fpga_batch_append_32 roomy 16909060 (some small))
append_32_example = append_32-Appended roomy small small-IsValid 16909060

concat_example :
    Appended roomy small (contents small) (kest_fpga_batch_concat roomy (some small) (some small))
concat_example = kest_fpga_batch_concat-Appended roomy small small small-IsValid small-IsValid
