-- ===== src/Tests/Retired.antt =====
-- Runs of the theorems on effects that are given up.
use kestrel_interface.Prelude.{ℕ, ◌≡◌, refl, true, [], arith}
use kestrel_interface.Updater.{ready}
use kestrel_interface.Updater.Retire.{
  Retirement, spi_awaiting, spi_finished, put, free_effect, kest_updater_collect_retired_effects,
  kest_updater_reap_effects, run_callback, run_callback_of, kest_updater_retire_effect,
  collect_from, kest_updater_effect_reads_finished, reap_all, reap_one,
}
use kestrel_interface.Updater.Retire.Once.{Once, count}
use kestrel_interface.Updater.Retire.Reached.{
  Reach, here, next, gives_up, collects, answers, reaps, Reach-Once,
}
use kestrel_interface.Updater.Retire.Freed.{reap_effects-frees}

-- Effects that are all alive.
abbrev pub all_alive : Retirement
all_alive = record {
  alive = λ e. true;
  spi_retirement = λ e. spi_awaiting;
  retired_effects = [];
  retiring_effects = [];
  resources = [];
  callbacks = [];
  freed = [];
}

pub all_alive-Once : (x : ℕ) → Once all_alive x
unfolding count
all_alive-Once x = record { once = refl; calls = refl; kept = omega arith; done = omega arith }

-- Effect 3 is given up and taken over, and its callback is queued and has come back.
abbrev after_give_up : Retirement
after_give_up = kest_updater_collect_retired_effects (free_effect all_alive 3)

abbrev after_reap : Retirement
after_reap = kest_updater_reap_effects (λ e. true) (λ e. true) ready after_give_up

abbrev after_answer : Retirement
after_answer = run_callback after_reap

after_answer-Reach : Reach all_alive after_answer
after_answer-Reach =
    next
      (next (next (next here (gives_up all_alive 3)) (collects (free_effect all_alive 3)))
        (reaps after_give_up (λ e. true) (λ e. true) ready))
      (answers after_reap)

Reach-Once_example : Once after_answer 3
Reach-Once_example = Reach-Once after_answer-Reach all_alive-Once 3

callback_back : after_answer.spi_retirement 3 ≡ spi_finished
unfolding run_callback run_callback_of kest_updater_effect_reads_finished kest_updater_reap_effects
    reap_all reap_one kest_updater_collect_retired_effects collect_from free_effect
    kest_updater_retire_effect put
callback_back = refl

on_the_list : count 3 after_answer.retiring_effects ≡ 1
unfolding count run_callback run_callback_of kest_updater_effect_reads_finished
    kest_updater_reap_effects reap_all reap_one kest_updater_collect_retired_effects collect_from
    free_effect kest_updater_retire_effect put
on_the_list = refl

reap_effects-frees_example :
    (count 3 (kest_updater_reap_effects (λ e. true) (λ e. true) ready after_answer).freed ≡ 1)
    × (count 3
          (kest_updater_reap_effects (λ e. true) (λ e. true) ready after_answer).retiring_effects
        ≡ 0)
reap_effects-frees_example =
    reap_effects-frees (λ e. true) (λ e. true) after_answer 3 Reach-Once_example
      (omega (arith, on_the_list)) callback_back refl
