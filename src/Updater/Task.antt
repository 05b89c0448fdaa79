-- ===== src/Updater/Task.antt =====
-- Sending, and one round of the loop of kest_update_task in components/core/kest_update.c.
-- Left out are retired effects, for which Updater.Task.Retiring extends the loop, polled resources, the locks, and the new epoch of the context when a program is taken.
pub mod Program
pub mod Batches
pub mod Retiring
use kestrel_interface.Prelude.{
  ℕ, ◌+◌, ◌%◌, ◌^◌, Bool, true, false, ◌&&◌, Option, none, some, List, [], ◌∷◌, ◌++◌, ◌==◌,
  if◌then◌else◌, ltb, take,
}
use kestrel_interface.Status.{no_error, err_alloc_fail}
use kestrel_interface.Memory.{Platform, kest_alloc}
use kestrel_interface.Batch.{TransferBatch, blit}
use kestrel_interface.Batch.Contents.{held}
use kestrel_interface.Fixed.{Floats}
use kestrel_interface.Command.{FpgaCommand}
use kestrel_interface.Updater.{
  FpgaWrite, Effect, Dependent, UpdaterMode, ready, reprogram, UpdaterState,
  kest_updater_drain_lists,
}
use kestrel_interface.Updater.Write.{Evaluator}
use kestrel_interface.Updater.Generate.{
  kest_updater_generate_command_list, kest_updater_generate_tx_batch,
}
use kestrel_interface.Updater.Add.{kest_updater_handle_scope_entry_update}
use kestrel_interface.Updater.Preset.{Locals, kest_updater_handle_preset_update}

-- What goes to the queue of the SPI task: a batch of updates or a program.
pub data Message : Type 0 where
  transfer_batch program_batch : TransferBatch → Message

abbrev pub is_ready : UpdaterMode → Bool
is_ready ready = true
is_ready reprogram = false

-- The code, the message that the queue took, and the state.
abbrev pub Sent : (E S F : Type 0) → Type 0
Sent E S F = ℕ × Option Message × UpdaterState E S F

-- `memcpy(send_batch.buf, state->batch.buf, len)` to the fresh block
unfoldable pub send_batch_of : TransferBatch → List ℕ → ℕ → TransferBatch
send_batch_of b block buf_len = record {
  len = b.len;
  buf = some (blit block 0 (take b.len (held b.buf)));
  buf_len = buf_len;
  buffer_owned = false;
}

module _ {E S F : Type 0} (p : Platform) where
  -- The `switch` on the state, with the code that the queue answers.
  queue_batch : ℕ → UpdaterMode → UpdaterState E S F → TransferBatch → Sent E S F
  queue_batch reply ready s batch =
      (reply, (if reply == no_error then some (transfer_batch batch) else none), s)
  queue_batch reply reprogram s batch =
      if reply == no_error
      then (no_error, some (program_batch batch), record s { state = ready })
      else (reply, none, s)

  send_copy : ℕ → UpdaterState E S F → ℕ → Option (List ℕ) → Sent E S F
  unfolding send_batch_of queue_batch
  send_copy reply s buf_len none = (err_alloc_fail, none, s)
  send_copy reply s buf_len (some block) =
      queue_batch reply s.state s (send_batch_of s.batch block buf_len)

  -- `reply` is what the queue's send returns.
  unfoldable pub kest_updater_send : ℕ → UpdaterState E S F → Sent E S F
  unfolding send_copy
  kest_updater_send reply s =
      let buf_len = if ltb s.batch.len 64 then 64 else s.batch.len in
      if s.batch.len == 0 && is_ready s.state
      then (no_error, none, s)
      else send_copy reply s buf_len (kest_alloc p buf_len)

-- An update of the queue: the dependents of the scope entry that it names, or a pipeline.
pub data Update (E S : Type 0) : Type 0 where
  entry_update : List Dependent → Effect E S → Update E S
  preset_update : List (Effect E S) → Update E S

-- What one round meets: the answers of the SPI queue to its two sends, the updates received, and
-- the dependents of the time in each active effect.
pub record Round (E S : Type 0) : Type 0 where
  pub first_reply : ℕ
  pub second_reply : ℕ
  pub updates : List (Update E S)
  pub timed : List (List Dependent × Effect E S)

-- A preset update drops what was received before it.
unfoldable pub received : {E S : Type 0} → List (Update E S) → List (Update E S) → List (Update E S)
received kept [] = kept
received kept (preset_update effects ∷ us) = received (preset_update effects ∷ []) us
received kept (entry_update deps effect ∷ us) = received (kept ++ entry_update deps effect ∷ []) us

module _ {fl : Floats} {E S : Type 0} (ev : Evaluator fl E S) (p : Platform) (l : Locals E S)
    (cmd : FpgaCommand fl.Float) where
  open fl use {Float}

  handle_in : UpdaterMode → UpdaterState E S Float → Update E S → UpdaterState E S Float
  handle_in reprogram s update = s
  handle_in ready s (entry_update deps effect) =
      kest_updater_handle_scope_entry_update l.write s deps effect
  handle_in ready s (preset_update effects) = kest_updater_handle_preset_update ev l s effects

  -- In the state REPROGRAM an update is ignored.
  unfoldable pub kest_updater_handle_update :
      UpdaterState E S Float → Update E S → UpdaterState E S Float
  unfolding handle_in
  kest_updater_handle_update s update = handle_in s.state s update

  handle_updates : UpdaterState E S Float → List (Update E S) → UpdaterState E S Float
  handle_updates s [] = s
  handle_updates s (u ∷ us) = handle_updates (kest_updater_handle_update s u) us

  unfoldable pub kest_updater_handle_time_dependents :
      UpdaterState E S Float → List (List Dependent × Effect E S) → UpdaterState E S Float
  kest_updater_handle_time_dependents s [] = s
  kest_updater_handle_time_dependents s ((deps, effect) ∷ rest) =
      kest_updater_handle_time_dependents
        (kest_updater_handle_scope_entry_update l.write s deps effect) rest

  -- `if (generate_tx_batch() == NO_ERROR) send();`
  send_if : ℕ → ℕ × UpdaterState E S Float → Option Message × UpdaterState E S Float
  send_if reply (result, s) =
      let (code, sent, s') = kest_updater_send p reply s in
      if result == no_error then (sent, s') else (none, s)

  settle : Option Message × UpdaterState E S Float → Option Message × UpdaterState E S Float
  settle (sent, s) =
      let s' = if is_ready s.state then kest_updater_drain_lists s else s in
      (sent, record s' { tick_ctr = (s.tick_ctr + 1) % 2 ^ 32 })

  -- From the receipt of the updates on.
  work : Round E S → UpdaterState E S Float → Option Message × UpdaterState E S Float
  unfolding handle_updates send_if settle
  work r s =
      let handled = handle_updates s (received [] r.updates) in
      let timed = kest_updater_handle_time_dependents handled r.timed in
      let (result, made) = kest_updater_generate_command_list ev cmd timed in
      settle (send_if r.second_reply (kest_updater_generate_tx_batch ev p made))

  resume :
      Round E S → UpdaterState E S Float → Sent E S Float → List Message × UpdaterState E S Float
  unfolding work
  resume r before (code, sent, s) =
      let (later, s') = work r (kest_updater_drain_lists s) in
      if code == no_error then (messages sent ++ messages later, s') else (messages sent, s)
    where
      messages : Option Message → List Message
      messages none = []
      messages (some m) = m ∷ []

  round_in :
      UpdaterMode → Round E S → UpdaterState E S Float → List Message × UpdaterState E S Float
  unfolding resume work
  round_in reprogram r s = resume r s (kest_updater_send p r.first_reply s)
  round_in ready r s =
      let (later, s') = work r s in (elim later [ none ↦ [] | some m ↦ m ∷ [] ], s')

  -- One round: the messages that the queue took, and the state.
  unfoldable pub kest_update_task :
      Round E S → UpdaterState E S Float → List Message × UpdaterState E S Float
  unfolding round_in
  kest_update_task r s = round_in s.state r s

  -- The loop: a round for each of the list.
  unfoldable pub rounds :
      List (Round E S) → UpdaterState E S Float → List Message × UpdaterState E S Float
  rounds [] s = ([], s)
  rounds (r ∷ rs) s =
      let (sent, s') = kest_update_task r s in
      let (later, s'') = rounds rs s' in (sent ++ later, s'')
