-- ===== src/Lib.antt =====
-- A verification library for the part of the Kestrel interface that programs the FPGA.
--
-- The interface keeps a preset: a pipeline of effects, each with blocks (instructions of the DSP
-- with two registers) and resources (delays, filters, memory). The control loop of
-- components/core/kest_update.c collects what has changed in a tick as writes and allocations,
-- makes a list of commands of them, renders the list into a batch of bytes and gives the batch to
-- the queue of the SPI task, as an update or, for a new preset, as a program.
--
-- Files, and the code they are about:
-- - Prelude (Tests, Lists, Bits, Int): Boolean tests, lists, masks and shifts, two's complement.
-- - Status: the codes of components/core/kest_error_codes.h.
-- - Memory: kest_alloc and kest_realloc of components/core/kest_alloc.c. The platform's heap is a
--   parameter: which sizes it grants.
-- - Batch: components/fpga/kest_fpga_io.c, the growing buffer. A function takes the pointer
--   (`none` is NULL) and returns its code with the batch behind the pointer. Batch.Size is about
--   the doubling loop, which runs on fuel; Batch.Contents about the bytes; Batch.Concat about
--   the concatenation.
-- - Block: the records of components/core/kest_block.h, kest_resource.h and
--   components/fpga/kest_fpga_position.h.
-- - Instr: the encoders and printers of instructions in components/fpga/kest_fpga_encoding.c.
--   Instr.Fields writes a word as a sum of fields, Instr.Decode reads it back.
-- - Fixed: components/fpga/kest_fixed_point.c over a parameter for the float operations.
-- - Command: components/fpga/kest_fpga_cmd.c. Command.Wire and Command.Program are about the bytes
--   of a command and of a list, Command.Reader about the state machine of kest_fpga_batch_print,
--   and Command.Reader.Lines and Command.Reader.Listing about the two together.
-- - Updater: the state of components/core/kest_update.c, with its parts in Updater.Write (a write
--   or an allocation as a command), Updater.Generate (the command list), Updater.Add (updates),
--   Updater.Preset (a new pipeline), Updater.Task (sends and the loop) and Updater.Retire (effects
--   that are given up, with the tasks' steps as a relation). Below them,
--   Write.Rounding, Generate.Order, Generate.Complete, Add.Unique, Add.Bank, Preset.Blocks,
--   Task.Program, Task.Batches, Task.Retiring (the loop with retired effects), Retire.Once, Retire.Reached and Retire.Freed hold the proofs.
-- - Position: kest_pipeline_update_positions of components/core/kest_pipeline.c and
--   kest_resources_assign_handles of components/core/kest_resource.c.
-- - Pipeline: the effects of components/core/kest_pipeline.c with the edits of
--   components/core/kest_preset.c and the reports of components/core/kest_eff_desc.c, with
--   Pipeline.Capacity, Moves, and Sound, Appends, Rearranged and Edits (any sequence of edits).
-- - DynList: the list of components/core/kest_list.h (IMPLEMENT_LIST), with DynList.Contents.
-- - Pool: the ring of free entries of components/core/kest_pool.h, with Pool.Fifo and Pool.Reserve.
-- - Arena: components/core/kest_bump_arena.c, with Arena.Stacked.
-- - Token: the tests on characters and tokens of components/parser/kest_tokenizer.c, with
--   Token.Policy (its state machine), Token.Content (kest_tokenize_content, which takes its memory
--   from the arena of Arena), Token.Numbers and Token.Blanks. Below Token.Content: Spans and Shown
--   (one token more), Held, Applied and Reading (the loop), Kept, and Words and Names (names
--   with blanks between them).
-- - Expr: components/core/kest_expression.c: the nodes and the search for constants, with
--   Expr.Evaluate (the evaluation), Expr.References, and Expr.Coherent, Expr.Constants and
--   Expr.Cached about the values that nodes cache. The functions of C on floats are a parameter.
-- - Parse: components/parser/kest_expr_parser.c: what tokens mean, and the nodes that are made and
--   freed, with Parse.Pratt (the parser). Parse.Freed, Kept, Calls, Operands and Balanced count the
--   blocks that a run leaves; Parse.Written (expressions as text), Texts, Granted, Steps, Applied and
--   RoundTrip read back what is written; Parse.Within, Advance and Enough bound the work.
-- - Sequence: the list of presets and the position of components/core/kest_sequence.c, with
--   Sequence.Linked (what a sequence holds), Append, Steps, Remove and Move. A pointer is the
--   number of a node.
-- - Tests: runs of the theorems on concrete data.
--
-- The build is the device's: with the SPI queue, and samples of 16 bits.
--
-- Bounds and fuel: a `uint8_t`, `uint16_t` or `uint32_t` is cut where the code cuts it; the `int`
-- fields (addresses, counts, handles) are natural numbers, since the parser makes none of them
-- negative and the FPGA has at most 256 blocks; but the counts of DynList and the sum of the
-- delays are held as the bits of an `int`, and the sizes in bytes of DynList and Pool wrap as
-- `size_t`. Two kinds of loop are on fuel: the one that doubles a buffer has as many rounds as
-- bytes are needed, and the walks along a list of presets have as many as there are nodes. The
-- tokenizer walks along the bytes of its file, and the evaluation along the tree of nodes, with
-- the limit of 128 levels that the code has. The parser of expressions has as many levels of
-- calls as that limit lets pass, and a round of its loop for each token.
--
-- Not modelled: the SPI transfers and the tasks that wait for hardware, the user interface,
-- files, the parsers behind the tokenizer but for that of expressions, and scopes. What an entry
-- of a scope evaluates to is given with the scope, and the evaluation of an expression is a
-- parameter of the updater. Expressions are trees: that two of them share a node is left out. In
-- the updater the lists are taken to have room for every append, and polled resources are left
-- out; the walk over retired effects, of which Updater.Retire is a model of its own, is put
-- together with the loop in Updater.Task.Retiring. Of a pipeline, the copying of effects
-- (clone_pipeline, kest_pipeline_stage_reload) and their parameters are left out.
pub mod Prelude
pub mod Status
pub mod Memory
pub mod Batch
pub mod Block
pub mod Instr
pub mod Fixed
pub mod Command
pub mod Updater
pub mod Position
pub mod Tests
pub mod Token
pub mod DynList
pub mod Parse
pub mod Pipeline
pub mod Sequence
pub mod Expr
pub mod Pool
pub mod Arena
