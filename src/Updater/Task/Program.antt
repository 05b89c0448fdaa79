-- ===== src/Updater/Task/Program.antt =====
-- The life of a program in the loop of kest_update_task in components/core/kest_update.c.
use kestrel_interface.Prelude.{
  ℕ, ◌≡◌, refl, sym, ap, subst, ◌∙◌, ◌⊎◌, inl, inr, Bool, true, false, ◌&&◌, Option, none, some,
  List, [], ◌∷◌, ◌++◌, ◌==◌, if◌then◌else◌, Bool-cases, Option-cases, All, ltb,
}
use kestrel_interface.Status.{no_error, err_alloc_fail}
use kestrel_interface.Memory.{Platform, kest_alloc}
use kestrel_interface.Batch.{TransferBatch}
use kestrel_interface.Fixed.{Floats}
use kestrel_interface.Command.{FpgaCommand}
use kestrel_interface.Updater.{
  UpdaterMode, ready, reprogram, UpdaterState, kest_updater_drain_lists,
}
use kestrel_interface.Updater.Write.{Evaluator}
use kestrel_interface.Updater.Generate.{
  kest_updater_generate_command_list, kest_updater_generate_tx_batch,
}
use kestrel_interface.Updater.Preset.{Locals}
use kestrel_interface.Updater.Task.{
  Message, program_batch, Sent, Round, kest_updater_send, send_copy, queue_batch, send_batch_of,
  is_ready, round_in, resume, work, settle, send_if, handle_updates, received,
  kest_updater_handle_time_dependents, kest_update_task, rounds,
}

and_false : (b : Bool) → (b && false) ≡ false
and_false true = refl
and_false false = refl

-- The queue's refusal: an error, nothing sent, the state as it was.
abbrev Refused : {E S F : Type 0} → UpdaterState E S F → Sent E S F → Type 0
Refused s r = (code : ℕ) × (r ≡ (code, none, s)) × ((code == no_error) ≡ false)

-- The size of the copy.
abbrev pub size_of : TransferBatch → ℕ
size_of b = if ltb b.len 64 then 64 else b.len

-- The program is taken.
abbrev pub Taken : {E S F : Type 0} → List ℕ → UpdaterState E S F → Sent E S F → Type 0
Taken block s r = r ≡ (
  no_error,
  some (program_batch (send_batch_of s.batch block (size_of s.batch))),
  record s { state = ready },
)

module _ {E S F : Type 0} (p : Platform) (reply : ℕ) (s : UpdaterState E S F)
    (mode : s.state ≡ reprogram) where
  send-send_copy :
      kest_updater_send p reply s
      ≡ send_copy p reply s (size_of s.batch) (kest_alloc p (size_of s.batch))
  unfolding kest_updater_send
  send-send_copy =
      let busy : (s.batch.len == 0 && is_ready s.state) ≡ false =
        ap (λ b. s.batch.len == 0 && b) (ap is_ready mode) ∙ and_false (s.batch.len == 0) in
      rw busy refl

  send_copy-Refused :
      (block : Option (List ℕ))
      → (reply == no_error) ≡ false
      → Refused s (send_copy p reply s (size_of s.batch) block)
  unfolding send_copy queue_batch
  send_copy-Refused none refused = (err_alloc_fail, refl, refl)
  send_copy-Refused (some block) refused = (
    reply,
    ap (λ m. queue_batch p reply m s (send_batch_of s.batch block (size_of s.batch))) mode
        ∙ rw refused refl,
    refused,
  )

  pub send-Refused : (reply == no_error) ≡ false → Refused s (kest_updater_send p reply s)
  send-Refused refused =
      subst (Refused s) (sym send-send_copy)
        (send_copy-Refused (kest_alloc p (size_of s.batch)) refused)

  pub send-Taken :
      (block : List ℕ)
      → kest_alloc p (size_of s.batch) ≡ some block
      → (reply == no_error) ≡ true
      → Taken block s (kest_updater_send p reply s)
  unfolding send_copy queue_batch
  send-Taken block granted taken =
      send-send_copy
      ∙ ap (send_copy p reply s (size_of s.batch)) granted
      ∙ ap (λ m. queue_batch p reply m s (send_batch_of s.batch block (size_of s.batch))) mode
      ∙ rw taken refl

  -- A program is refused, by the queue or for want of memory, or taken.
  send-cases :
      Refused s (kest_updater_send p reply s)
      ⊎ ((block : List ℕ) × Taken block s (kest_updater_send p reply s))
  unfolding send_copy
  send-cases = elim (Bool-cases (reply == no_error)) [
    | inr refused ↦ inl (send-Refused refused)
    | inl taken ↦ elim (Option-cases (kest_alloc p (size_of s.batch))) [
      | inl none_left ↦ inl (
          subst (Refused s) (sym send-send_copy) (
            subst (λ o. Refused s (send_copy p reply s (size_of s.batch) o)) (sym none_left)
              no_memory))
      | inr (block, granted) ↦ inr (block, send-Taken block granted taken)
    ]
  ]
    where
      no_memory : Refused s (send_copy p reply s (size_of s.batch) none)
      no_memory = (err_alloc_fail, refl, refl)

-- Nothing is left over for the next round.
abbrev pub Drained : {E S F : Type 0} → UpdaterState E S F → Type 0
Drained s =
    (s.allocs ≡ [])
    × (s.instr_writes ≡ [])
    × (s.reg_writes ≡ [])
    × (s.filter_writes ≡ [])
    × (s.cmds ≡ [])
    × (s.batch.len ≡ 0)

abbrev pub Settled : {E S F : Type 0} → UpdaterState E S F → Type 0
Settled s = (s.state ≡ reprogram) ⊎ ((s.state ≡ ready) × Drained s)

mode-cases : (m : UpdaterMode) → (m ≡ ready) ⊎ (m ≡ reprogram)
mode-cases ready = inl refl
mode-cases reprogram = inr refl

module _ {fl : Floats} {E S : Type 0} (ev : Evaluator fl E S) (p : Platform) (l : Locals E S)
    (cmd : FpgaCommand fl.Float) where
  open fl use {Float}

  -- The rounds in which the queue refuses the program.
  abbrev pub Refusing : List (Round E S) → Type 0
  Refusing rs = All (λ r. (r.first_reply == no_error) ≡ false) rs

  -- A round of the state REPROGRAM goes on from what the first send returns.
  round-resume :
      (r : Round E S) (s : UpdaterState E S Float) (sent : Sent E S Float)
      → s.state ≡ reprogram
      → kest_updater_send p r.first_reply s ≡ sent
      → kest_update_task ev p l cmd r s ≡ resume ev p l cmd r s sent
  unfolding kest_update_task round_in
  round-resume r s sent mode e =
      ap (λ m. round_in ev p l cmd m r s) mode ∙ ap (resume ev p l cmd r s) e

  pub round-Refused :
      (r : Round E S) (s : UpdaterState E S Float)
      → s.state ≡ reprogram
      → Refused s (kest_updater_send p r.first_reply s)
      → kest_update_task ev p l cmd r s ≡ ([], s)
  unfolding resume
  round-Refused r s mode (code, e, bad) = round-resume r s (code, none, s) mode e ∙ rw bad refl

  -- Rounds in which the queue refuses the program come to nothing.
  pub rounds-waits :
      (rs more : List (Round E S)) (s : UpdaterState E S Float)
      → s.state ≡ reprogram
      → Refusing rs
      → rounds ev p l cmd (rs ++ more) s ≡ rounds ev p l cmd more s
  unfolding rounds
  rounds-waits [] more s mode refusing = refl
  rounds-waits (r ∷ rs) more s mode (one, rest) =
      rw
        (
          round-Refused r s mode (send-Refused p r.first_reply s mode one),
          rounds-waits rs more s mode rest,
        )
        refl

  pub round-sends :
      (r : Round E S) (s : UpdaterState E S Float) (block : List ℕ)
      → s.state ≡ reprogram
      → (r.first_reply == no_error) ≡ true
      → kest_alloc p (size_of s.batch) ≡ some block
      → (later : List Message) × ((kest_update_task ev p l cmd r s).0
          ≡ program_batch (send_batch_of s.batch block (size_of s.batch)) ∷ later)
  unfolding resume
  round-sends r s block mode taken granted = (
    _,
    ap (λ m. m.0) (round-resume r s _ mode (send-Taken p r.first_reply s mode block granted taken)),
  )

  settle-Settled : (m : Option Message × UpdaterState E S Float) → Settled (settle ev p l cmd m).1
  unfolding settle kest_updater_drain_lists
  settle-Settled (sent, s) = elim (mode-cases s.state) [
    | inl e ↦ rw (ap is_ready e) (inr (e, (refl, refl, refl, refl, refl, refl)))
    | inr e ↦ rw (ap is_ready e) (inl e)
  ]

  work-Settled : (r : Round E S) (s : UpdaterState E S Float) → Settled (work ev p l cmd r s).1
  unfolding work
  work-Settled r s =
      let timed =
        kest_updater_handle_time_dependents ev p l cmd
          (handle_updates ev p l cmd s (received [] r.updates)) r.timed in
      settle-Settled (
        send_if ev p l cmd r.second_reply
          (kest_updater_generate_tx_batch ev p (kest_updater_generate_command_list ev cmd timed).1))

  round-Settled :
      (r : Round E S) (s : UpdaterState E S Float)
      → Settled s
      → Settled (kest_update_task ev p l cmd r s).1
  unfolding kest_update_task round_in resume
  round-Settled r s (inr (mode, drained)) =
      subst (λ m. Settled (round_in ev p l cmd m r s).1) (sym mode) (work-Settled r s)
  round-Settled r s (inl mode) = elim (send-cases p r.first_reply s mode) [
    | inl refused ↦ subst (λ m. Settled m.1) (sym (round-Refused r s mode refused)) (inl mode)
    | inr (block, taken) ↦
        subst (λ m. Settled m.1) (sym (round-resume r s _ mode taken)) (work-Settled r _)
  ]

  -- From the state REPROGRAM or a READY state with nothing left over, any number of rounds,
  -- whatever the queue answers and whatever updates arrive, ends in such a state again: REPROGRAM,
  -- or READY with empty lists and an empty batch.
  pub rounds-Settled :
      (rs : List (Round E S)) (s : UpdaterState E S Float)
      → Settled s
      → Settled (rounds ev p l cmd rs s).1
  unfolding rounds
  rounds-Settled [] s settled = settled
  rounds-Settled (r ∷ rs) s settled =
      rounds-Settled rs (kest_update_task ev p l cmd r s).1 (round-Settled r s settled)
