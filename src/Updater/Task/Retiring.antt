-- ===== src/Updater/Task/Retiring.antt =====
-- The loop of kest_update_task in components/core/kest_update.c with the effects that are given up:
-- collected at the start of a round, and walked along at its end.
use kestrel_interface.Prelude.{
  ℕ, ◌≡◌, refl, ap, ◌∙◌, Bool, false, List, [], ◌∷◌, ◌++◌, ◌==◌, All, Bool-cases, inl, inr,
}
use kestrel_interface.Status.{no_error}
use kestrel_interface.Memory.{Platform}
use kestrel_interface.Fixed.{Floats}
use kestrel_interface.Command.{FpgaCommand}
use kestrel_interface.Updater.{reprogram, UpdaterState}
use kestrel_interface.Updater.Write.{Evaluator}
use kestrel_interface.Updater.Preset.{Locals}
use kestrel_interface.Updater.Retire.{
  Retirement, free_effect, kest_updater_collect_retired_effects, run_callback, run_callback_of,
  kest_updater_effect_reads_finished, kest_updater_retire_effect, kest_updater_reap_effects,
}
use kestrel_interface.Updater.Retire.Once.{Once}
use kestrel_interface.Updater.Retire.Reached.{gives_up, collects, answers, Step-Once}
use kestrel_interface.Updater.Task.{Message, Round, kest_update_task}
use kestrel_interface.Updater.Task.Program.{round-Refused, send-Refused}

-- What other tasks do between two rounds: an effect is given up, or the SPI task runs a callback.
pub data Event : Type 0 where
  give_up : ℕ → Event
  answer : Event

unfoldable pub happen : List Event → Retirement → Retirement
happen [] q = q
happen (give_up e ∷ es) q = happen es (free_effect q e)
happen (answer ∷ es) q = happen es (run_callback q)

-- A round, with what comes before it and the answers that the walk gets.
pub record Tick (E S : Type 0) : Type 0 where
  pub events : List Event
  pub round : Round E S
  pub ui : ℕ → Bool
  pub spi : ℕ → Bool

module _ {fl : Floats} {E S : Type 0} (ev : Evaluator fl E S) (p : Platform) (l : Locals E S)
    (cmd : FpgaCommand fl.Float) where
  open fl use {Float}

  -- A round that ends early, with a refused program, leaves the state REPROGRAM, in which the walk
  -- does nothing.
  unfoldable pub retiring_round :
      Tick E S
      → UpdaterState E S Float
      → Retirement
      → List Message × UpdaterState E S Float × Retirement
  retiring_round t s q =
      let collected = kest_updater_collect_retired_effects (happen t.events q) in
      let (sent, s') = kest_update_task ev p l cmd t.round s in
      (sent, s', kest_updater_reap_effects t.ui t.spi s'.state collected)

  unfoldable pub retiring_rounds :
      List (Tick E S)
      → UpdaterState E S Float
      → Retirement
      → List Message × UpdaterState E S Float × Retirement
  retiring_rounds [] s q = ([], s, q)
  retiring_rounds (t ∷ ts) s q =
      let (sent, s', q') = retiring_round t s q in
      let (later, s'', q'') = retiring_rounds ts s' q' in (sent ++ later, s'', q'')

happen-Once :
    (es : List Event) (q : Retirement) → ((x : ℕ) → Once q x) → (x : ℕ) → Once (happen es q) x
unfolding happen
happen-Once [] q o = o
happen-Once (give_up e ∷ es) q o =
    happen-Once es (free_effect q e) λ x. Step-Once (gives_up q e) x (o x)
happen-Once (answer ∷ es) q o = happen-Once es (run_callback q) λ x. Step-Once (answers q) x (o x)

free_effect-freed : (q : Retirement) (e : ℕ) → (free_effect q e).freed ≡ q.freed
unfolding free_effect kest_updater_retire_effect
free_effect-freed q e = elim (Bool-cases (q.alive e)) [
  | inl alive ↦ rw alive refl
  | inr gone ↦ rw gone refl
]

run_callback-freed : (q : Retirement) (es : List ℕ) → (run_callback_of q es).freed ≡ q.freed
unfolding run_callback_of kest_updater_effect_reads_finished
run_callback-freed q [] = refl
run_callback-freed q (e ∷ es) = refl

happen-freed : (es : List Event) (q : Retirement) → (happen es q).freed ≡ q.freed
unfolding happen run_callback
happen-freed [] q = refl
happen-freed (give_up e ∷ es) q = happen-freed es (free_effect q e) ∙ free_effect-freed q e
happen-freed (answer ∷ es) q = happen-freed es (run_callback q) ∙ run_callback-freed q q.callbacks

-- What a refused program keeps: nothing is sent, the updater's state is as it was, and of the
-- effects that are given up none is freed or lost.
abbrev pub Kept :
    {E S F : Type 0}
    → UpdaterState E S F
    → Retirement
    → List Message × UpdaterState E S F × Retirement
    → Type 0
Kept s q out = (out.0 ≡ []) × (out.1 ≡ s) × (out.2.freed ≡ q.freed) × ((x : ℕ) → Once out.2 x)

module _ {fl : Floats} {E S : Type 0} (ev : Evaluator fl E S) (p : Platform) (l : Locals E S)
    (cmd : FpgaCommand fl.Float) where
  open fl use {Float}

  abbrev pub Declined : List (Tick E S) → Type 0
  Declined ts = All (λ t. (t.round.first_reply == no_error) ≡ false) ts

  retiring_round-collects :
      (t : Tick E S) (s : UpdaterState E S Float) (q : Retirement)
      → s.state ≡ reprogram
      → (t.round.first_reply == no_error) ≡ false
      → retiring_round ev p l cmd t s q
        ≡ ([], s, kest_updater_collect_retired_effects (happen t.events q))
  unfolding retiring_round kest_updater_reap_effects
  retiring_round-collects t s q mode bad =
      let collected = kest_updater_collect_retired_effects (happen t.events q) in
      ap
        (λ (m : List Message × UpdaterState E S Float).
          (m.0, m.1, kest_updater_reap_effects t.ui t.spi m.1.state collected))
        (round-Refused ev p l cmd t.round s mode (send-Refused p t.round.first_reply s mode bad))
      ∙ ap (λ m. ([], s, kest_updater_reap_effects t.ui t.spi m collected)) mode

  -- In the state REPROGRAM, over any number of rounds in which the queue refuses the program,
  -- whatever updates arrive, whatever effects are given up and callbacks run before each round, and
  -- whatever the tasks would answer: nothing is sent, the updater's state is kept and no effect is
  -- freed; and when, at the start, every effect is alive and on no list, or given up and on exactly
  -- one, once, with the callbacks in the queue and those that have come back accounted for (Once), it
  -- still is at the end.
  pub retiring_rounds-Kept :
      (ts : List (Tick E S)) (s : UpdaterState E S Float) (q : Retirement)
      → s.state ≡ reprogram
      → Declined ts
      → ((x : ℕ) → Once q x)
      → Kept s q (retiring_rounds ev p l cmd ts s q)
  unfolding retiring_rounds kest_updater_collect_retired_effects
  retiring_rounds-Kept [] s q mode declined o = (refl, refl, refl, o)
  retiring_rounds-Kept (t ∷ ts) s q mode (one, rest) o =
      let gone : Retirement = kest_updater_collect_retired_effects (happen t.events q) in
      let once : (x : ℕ) → Once gone x =
        λ x. Step-Once (collects (happen t.events q)) x (happen-Once t.events q o x) in
      let (silent, same, freed, later) = retiring_rounds-Kept ts s gone mode rest once in
      rw (retiring_round-collects t s q mode one)
        (silent, same, freed ∙ collect-freed (happen t.events q) ∙ happen-freed t.events q, later)
    where
      collect-freed : (r : Retirement) → (kest_updater_collect_retired_effects r).freed ≡ r.freed
      collect-freed r = refl
