-- ===== src/Updater/Task/Batches.antt =====
-- From the commands of a tick to the bytes that the queue takes.
use kestrel_interface.Prelude.{
  ℕ, ◌+◌, ◌≤◌, ◌<◌, ◌≡◌, refl, ap, ◌∙◌, true, some, List, ◌∷◌, ◌++◌, ◌==◌, arith, take, length,
  length-take, replicate, length-replicate,
}
use kestrel_interface.Status.{no_error}
use kestrel_interface.Memory.{Platform, kest_alloc-granted}
use kestrel_interface.Batch.{TransferBatch}
use kestrel_interface.Batch.Contents.{held, contents, IsValid, Generous, take-blit}
use kestrel_interface.Fixed.{Floats}
use kestrel_interface.Command.Program.{wire_all, list_append_encoded-Appends}
use kestrel_interface.Updater.{ready, reprogram, UpdaterState}
use kestrel_interface.Updater.Write.{Evaluator}
use kestrel_interface.Updater.Generate.{kest_updater_generate_tx_batch}
use kestrel_interface.Command.{FpgaCommand}
use kestrel_interface.Updater.Preset.{Locals}
use kestrel_interface.Updater.Task.{
  send_batch_of, Message, program_batch, Round, kest_updater_send, kest_update_task, rounds,
}
use kestrel_interface.Updater.Task.Program.{
  size_of, send-Taken, Refusing, rounds-waits, round-sends,
}

-- The copy that is sent has the bytes of the state's batch.
send_batch-contents :
    (b : TransferBatch) (block : List ℕ) (n : ℕ)
    → length block ≡ n
    → b.len ≤ n
    → IsValid b
    → contents (send_batch_of b block n) ≡ contents b
unfolding send_batch_of
send_batch-contents b block n e room v =
    take-blit block 0 b.len (contents b)
      (omega (arith, length-take b.len (held b.buf), v.sized, v.fits)) (omega arith)

size-positive : (b : TransferBatch) → 0 < size_of b
size-positive b = ground arith

len-size : (b : TransferBatch) → b.len ≤ size_of b
len-size b = ground arith

module _ {fl : Floats} {E S : Type 0} (ev : Evaluator fl E S) (p : Platform)
    (granted : Generous p) where
  open fl use {Float}

  -- Rendering a tick's commands into the empty batch succeeds and leaves exactly their bytes.
  pub generate_tx_batch-wire :
      (s : UpdaterState E S Float) (ys : List ℕ)
      → wire_all fl s.cmds ≡ some ys
      → IsValid s.batch
      → s.batch.len ≡ 0
      → (b : TransferBatch) × (kest_updater_generate_tx_batch ev p s
          ≡ (no_error, record s { batch = b }))
        × IsValid b
        × (contents b ≡ ys)
  unfolding kest_updater_generate_tx_batch
  generate_tx_batch-wire s ys e v empty =
      let (b, made, valid, bytes) =
        list_append_encoded-Appends fl p granted s.cmds s.batch ys e v in
      (b, rw made refl, valid, bytes ∙ ap (λ n. take n (held s.batch.buf) ++ ys) empty)

  -- In the state REPROGRAM, with a valid and empty batch, a heap that grants every request and
  -- commands whose numbers have words: rendering the commands succeeds, and when the queue takes
  -- the batch, what it takes is one program whose bytes are those of the commands in order, and
  -- the updater is READY again.
  pub program-wire :
      (s : UpdaterState E S Float) (ys : List ℕ) (reply : ℕ)
      → wire_all fl s.cmds ≡ some ys
      → IsValid s.batch
      → s.batch.len ≡ 0
      → s.state ≡ reprogram
      → (reply == no_error) ≡ true
      → (made : TransferBatch) × (sent : TransferBatch) × (kest_updater_generate_tx_batch ev p s
          ≡ (no_error, record s { batch = made }))
        × (kest_updater_send p reply (record s { batch = made })
            ≡ (no_error, some (program_batch sent), record s { batch = made; state = ready }))
        × (contents sent ≡ ys)
  program-wire s ys reply e v empty mode taken =
      let (made, rendered, valid, bytes) = generate_tx_batch-wire s ys e v empty in
      let n = size_of made in
      let fresh = kest_alloc-granted p n (size-positive made) (granted (n + p.word)) in
      (
        made,
        send_batch_of made (replicate n p.stale) n,
        rendered,
        send-Taken p reply (record s { batch = made }) mode (replicate n p.stale) fresh taken,
        send_batch-contents made (replicate n p.stale) n (length-replicate n p.stale)
              (len-size made) valid
            ∙ bytes,
      )

  -- In the state REPROGRAM, with a valid batch and a heap that grants every request: whatever updates
  -- arrive meanwhile, after any number of rounds in which the queue refuses the program, and one in
  -- which the queue takes it, the first message that the queue has taken is a program with exactly
  -- the bytes of the batch, whatever rounds follow.
  pub rounds-delivers :
      (l : Locals E S) (cmd : FpgaCommand Float) (rs more : List (Round E S)) (r : Round E S)
      (s : UpdaterState E S Float)
      → s.state ≡ reprogram
      → IsValid s.batch
      → Refusing ev p l cmd rs
      → (r.first_reply == no_error) ≡ true
      → (sent : TransferBatch) × (later : List Message) × ((rounds ev p l cmd (rs ++ r ∷ more) s).0
          ≡ program_batch sent ∷ later)
        × (contents sent ≡ contents s.batch)
  unfolding rounds
  rounds-delivers l cmd rs more r s mode v refusing taken =
      let n = size_of s.batch in
      let block : List ℕ = replicate n p.stale in
      let fresh = kest_alloc-granted p n (size-positive s.batch) (granted (n + p.word)) in
      let (later, first) = round-sends ev p l cmd r s block mode taken fresh in
      let after = (rounds ev p l cmd more (kest_update_task ev p l cmd r s).1).0 in
      (
        send_batch_of s.batch block n,
        later ++ after,
        ap (λ m. m.0) (rounds-waits ev p l cmd rs (r ∷ more) s mode refusing)
            ∙ ap (λ ms. ms ++ after) first,
        send_batch-contents s.batch block n (length-replicate n p.stale) (len-size s.batch) v,
      )
