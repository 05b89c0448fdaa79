-- ===== src/Updater/Retire.antt =====
-- The way of an effect out of the program: free_effect of components/core/kest_effect.c, and the
-- retirement in components/core/kest_update.c, for the device with its user interface. An effect
-- is a number, and the lists that are linked through `retire_next` are lists.
pub mod Once
pub mod Reached
pub mod Freed
use kestrel_interface.Prelude.{
  ℕ, suc, ◌+◌, Bool, true, false, not, List, [], ◌∷◌, ◌++◌, ◌==◌, if◌then◌else◌,
}
use kestrel_interface.Updater.{UpdaterMode, ready, reprogram}

-- `spi_retirement` with its values 0, 1 and 2.
pub data SpiRetirement : Type 0 where
  spi_awaiting : SpiRetirement
  spi_queued : SpiRetirement
  spi_finished : SpiRetirement

-- The effects' fields, the list that effects are handed over in, the list of the updater, the
-- owners of the polled resources, the callbacks that the SPI task has not run yet, and the effects
-- that have been given to the user interface to be freed.
pub record Retirement : Type 0 where
  pub alive : ℕ → Bool
  pub spi_retirement : ℕ → SpiRetirement
  pub retired_effects : List ℕ
  pub retiring_effects : List ℕ
  pub resources : List ℕ
  pub callbacks : List ℕ
  pub freed : List ℕ

unfoldable pub put : {A : Type 0} → (ℕ → A) → ℕ → A → ℕ → A
put f e a x = if x == e then a else f x

unfoldable pub kest_updater_retire_effect : Retirement → ℕ → Retirement
kest_updater_retire_effect r e = record r { retired_effects = e ∷ r.retired_effects }

-- The marks on the effect's resources are left out.
unfoldable pub free_effect : Retirement → ℕ → Retirement
free_effect r e =
    if r.alive e then kest_updater_retire_effect (record r { alive = put r.alive e false }) e else r

-- The loop over what was handed over.
unfoldable pub collect_from : List ℕ → List ℕ → List ℕ
collect_from [] retiring = retiring
collect_from (e ∷ es) retiring = collect_from es (e ∷ retiring)

unfoldable pub kest_updater_collect_retired_effects : Retirement → Retirement
kest_updater_collect_retired_effects r = record r {
  retired_effects = [];
  retiring_effects = collect_from r.retired_effects r.retiring_effects;
}

-- What the SPI task does with the first callback in its queue.
unfoldable pub kest_updater_effect_reads_finished : Retirement → ℕ → Retirement
kest_updater_effect_reads_finished r e = record r {
  spi_retirement = put r.spi_retirement e spi_finished;
}

unfoldable pub run_callback_of : Retirement → List ℕ → Retirement
run_callback_of r [] = r
run_callback_of r (e ∷ es) = kest_updater_effect_reads_finished (record r { callbacks = es }) e

unfoldable pub run_callback : Retirement → Retirement
run_callback r = run_callback_of r r.callbacks

-- The loop over the polled resources, which takes out those of an effect.
unfoldable pub without_owner : ℕ → List ℕ → List ℕ
without_owner e [] = []
without_owner e (owner ∷ owners) =
    if owner == e then without_owner e owners else owner ∷ without_owner e owners

-- `ui` is whether kest_ui_async_call takes the effect, `spi` whether kest_fpga_queue_callback
-- takes the callback. The answer says whether the effect stays in the list.
unfoldable pub reap_one : Bool → Bool → ℕ → SpiRetirement → Retirement → Bool × Retirement
reap_one ui spi e spi_finished r =
    if ui then (false, record r { freed = e ∷ r.freed }) else (true, r)
reap_one ui spi e spi_queued r = (true, r)
reap_one ui spi e spi_awaiting r =
    if spi
    then (
      true,
      record r {
        spi_retirement = put r.spi_retirement e spi_queued;
        callbacks = r.callbacks ++ e ∷ [];
      },
    )
    else (true, r)

-- The walk along the list: what stays of it, and the state. The answers are given for each effect.
unfoldable pub reap_all : (ui spi : ℕ → Bool) → List ℕ → Retirement → List ℕ × Retirement
reap_all ui spi [] r = ([], r)
reap_all ui spi (e ∷ es) r =
    let polled = record r { resources = without_owner e r.resources } in
    let (stays, r1) = reap_one (ui e) (spi e) e (r.spi_retirement e) polled in
    let (rest, r2) = reap_all ui spi es r1 in (if stays then e ∷ rest else rest, r2)

unfoldable pub kest_updater_reap_effects :
    (ui spi : ℕ → Bool) → UpdaterMode → Retirement → Retirement
kest_updater_reap_effects ui spi reprogram r = r
kest_updater_reap_effects ui spi ready r =
    let (stays, r') = reap_all ui spi r.retiring_effects r in record r' { retiring_effects = stays }
