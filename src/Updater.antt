-- ===== src/Updater.antt =====
-- The updater of components/core/kest_update.c: what it collects in a tick, and its state. A list
-- is taken to have room for every append. `E` stands for the expressions, `S` for the scopes.
pub mod Write
pub mod Generate
pub mod Add
pub mod Preset
pub mod Retire
pub mod Task
use kestrel_interface.Prelude.{ℕ, Option, none, some, List, [], false, true}
use kestrel_interface.Prelude.Int.{ℤ}
use kestrel_interface.Block.{NumericFormat, Block, EffectFpgaPosition}
use kestrel_interface.Memory.{Platform}
use kestrel_interface.Batch.{TransferBatch, kest_fpga_transfer_batch_init}
use kestrel_interface.Command.{FpgaCommand}

abbrev pub block_instr_write : ℕ
block_instr_write = 1

abbrev pub block_reg_write : ℕ
block_reg_write = 2

abbrev pub block_reg_update : ℕ
block_reg_update = 3

abbrev pub filter_coef_write : ℕ
filter_coef_write = 4

abbrev pub filter_coef_update : ℕ
filter_coef_update = 5

abbrev pub alloc_type_filter : ℕ
alloc_type_filter = 1

abbrev pub alloc_type_delay : ℕ
alloc_type_delay = 2

-- KEST_TAIL_CUTOFF, a tenth of the 44100 samples of a second.
abbrev pub tail_cutoff : ℕ
tail_cutoff = 4410

-- The union of the two formats is two fields.
pub record FpgaWrite (E S : Type 0) : Type 0 where
  pub type : ℕ
  pub addr_1 : ℕ
  pub addr_2 : ℕ
  pub format : ℤ
  pub encoding : NumericFormat
  pub instr : ℕ
  pub scope : S
  pub expr : Option E

pub record FpgaAlloc : Type 0 where
  pub type : ℕ
  pub size_1 : ℕ
  pub size_2 : ℕ
  pub format : ℤ

pub data UpdaterMode : Type 0 where
  ready reprogram : UpdaterMode

pub record Filter (E : Type 0) : Type 0 where
  pub feed_forward : ℕ
  pub feed_back : ℕ
  pub format : ℤ
  pub coefs : List (Option E)

pub record Delay (E : Type 0) : Type 0 where
  pub units : ℕ
  pub size : Option E
  pub delay : Option E

-- A resource of an effect; `data` is read as a filter or as a delay, by the type.
pub record Resource (E : Type 0) : Type 0 where
  pub type : ℕ
  pub handle : ℕ
  pub filter : Option (Filter E)
  pub delay : Option (Delay E)

pub record Effect (E S : Type 0) : Type 0 where
  pub scope : S
  pub blocks : List (Block E)
  pub resources : List (Option (Resource E))
  pub position : EffectFpgaPosition

-- A dependent of a scope entry; those of the other types only refresh a widget.
pub data Dependent : Type 0 where
  block_reg : (block reg : ℕ) → Dependent
  filter_coef : (filter coef : ℕ) → Dependent
  bound_parameter : Dependent

-- The lists of the state that the commands are made from, and what they are made into.
pub record UpdaterState (E S F : Type 0) : Type 0 where
  pub state : UpdaterMode
  pub allocs : List FpgaAlloc
  pub instr_writes : List (FpgaWrite E S)
  pub reg_writes : List (FpgaWrite E S)
  pub filter_writes : List (FpgaWrite E S)
  pub cmds : List (FpgaCommand F)
  pub batch : TransferBatch
  pub tick_ctr : ℕ

-- The batch behind the pointer after a call.
abbrev pub batch_or : TransferBatch → Option TransferBatch → TransferBatch
batch_or b none = b
batch_or b (some b') = b'

-- The answer of the batch's `init` is not looked at; `b` is what its memory held.
unfoldable pub kest_updater_state_init :
    {E S F : Type 0} → Platform → TransferBatch → UpdaterState E S F
kest_updater_state_init p b =
    let batch = batch_or b (kest_fpga_transfer_batch_init p (some b)).1 in
    record {
      state = ready;
      allocs = [];
      instr_writes = [];
      reg_writes = [];
      filter_writes = [];
      cmds = [];
      batch = record batch { buffer_owned = true };
      tick_ctr = 0;
    }

-- `kest_fpga_batch_drain` on the batch, which is there, sets its length.
unfoldable pub kest_updater_drain_lists : {E S F : Type 0} → UpdaterState E S F → UpdaterState E S F
kest_updater_drain_lists s = record s {
  batch = record s.batch { len = 0 };
  cmds = [];
  allocs = [];
  instr_writes = [];
  reg_writes = [];
  filter_writes = [];
}
