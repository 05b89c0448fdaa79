-- ===== src/Updater/Retire/Reached.antt =====
-- Any interleaving of what retires, collects, answers for and frees effects in
-- components/core/kest_update.c.
use kestrel_interface.Prelude.{
  ℕ, ◌+◌, ◌≤◌, ◌≡◌, refl, ap, ◌∙◌, Bool, true, false, List, [], ◌∷◌, ◌==◌, if◌then◌else◌, arith,
}
use kestrel_interface.Updater.{UpdaterMode, ready, reprogram}
use kestrel_interface.Updater.Retire.{
  SpiRetirement, spi_awaiting, spi_queued, spi_finished, Retirement, free_effect,
  kest_updater_collect_retired_effects, run_callback, without_owner, reap_one, reap_all,
  kest_updater_reap_effects,
}
use kestrel_interface.Updater.Retire.Once.{
  count, given_up, Once, Walk, one-Walk, free_effect-Once, collect-Once, run_callback_of-Once,
}

pub count-if :
    (x : ℕ) (b : Bool) (e : ℕ) (es : List ℕ)
    → count x (if b then e ∷ es else es) ≡ (if b then if e == x then 1 else 0 else 0) + count x es
unfolding count
count-if x true e es = refl
count-if x false e es = omega arith

-- A walk leaves alone which effects are alive, and what has been handed over meanwhile.
one-frame :
    (ui spi : Bool) (e : ℕ) (s : SpiRetirement) (r : Retirement)
    → ((reap_one ui spi e s r).1.alive ≡ r.alive)
      × ((reap_one ui spi e s r).1.retired_effects ≡ r.retired_effects)
unfolding reap_one
one-frame ui spi e spi_queued r = (refl, refl)
one-frame true spi e spi_finished r = (refl, refl)
one-frame false spi e spi_finished r = (refl, refl)
one-frame ui true e spi_awaiting r = (refl, refl)
one-frame ui false e spi_awaiting r = (refl, refl)

all-frame :
    (ui spi : ℕ → Bool) (es : List ℕ) (r : Retirement)
    → ((reap_all ui spi es r).1.alive ≡ r.alive)
      × ((reap_all ui spi es r).1.retired_effects ≡ r.retired_effects)
unfolding reap_all
all-frame ui spi [] r = (refl, refl)
all-frame ui spi (e ∷ es) r =
    let polled : Retirement = record r { resources = without_owner e r.resources } in
    let one : Bool × Retirement = reap_one (ui e) (spi e) e (r.spi_retirement e) polled in
    let (alive, handed) = one-frame (ui e) (spi e) e (r.spi_retirement e) polled in
    let (alive', handed') = all-frame ui spi es one.1 in (alive' ∙ alive, handed' ∙ handed)

all-Walk :
    (ui spi : ℕ → Bool) (es : List ℕ) (r : Retirement) (x n : ℕ)
    → Walk r x n es
    → Walk (reap_all ui spi es r).1 x (n + count x (reap_all ui spi es r).0) []
      × (count x (reap_all ui spi es r).0 + count x (reap_all ui spi es r).1.freed
          ≡ count x es + count x r.freed)
unfolding reap_all count
all-Walk ui spi [] r x n w = (
  record {
    few = omega (arith, w.few);
    calls = w.calls;
    kept = omega (arith, w.kept);
    done = w.done;
  },
  refl,
)
all-Walk ui spi (e ∷ es) r x n w =
    let polled : Retirement = record r { resources = without_owner e r.resources } in
    let one : Bool × Retirement = reap_one (ui e) (spi e) e (r.spi_retirement e) polled in
    let rest : List ℕ × Retirement = reap_all ui spi es one.1 in
    let stays : ℕ = if one.0 then if e == x then 1 else 0 else 0 in
    let (w1, moved) =
      one-Walk (ui e) (spi e) polled e es x n (r.spi_retirement e) refl
        (record { few = w.few; calls = w.calls; kept = w.kept; done = w.done }) in
    let (w2, moved') = all-Walk ui spi es one.1 x (n + stays) w1 in
    (
      record {
        few = omega (arith, w2.few, count-if x one.0 e rest.0);
        calls = w2.calls;
        kept = omega (arith, w2.kept, count-if x one.0 e rest.0);
        done = w2.done;
      },
      omega (arith, count-if x one.0 e rest.0, moved, moved'),
    )

pub one_at_most : (b : Bool) → given_up b ≤ 1
one_at_most true = omega arith
one_at_most false = omega arith

pub all-moved :
    (ui spi : ℕ → Bool) (r : Retirement) (x : ℕ)
    → Once r x
    → count x (reap_all ui spi r.retiring_effects r).0
        + count x (reap_all ui spi r.retiring_effects r).1.freed
      ≡ count x r.retiring_effects + count x r.freed
unfolding count
all-moved ui spi r x o =
    (all-Walk ui spi r.retiring_effects r x 0 (record {
      few = omega (arith, o.once, one_at_most (r.alive x));
      calls = o.calls;
      kept = omega (arith, o.kept);
      done = o.done;
    })).1

reap-Once :
    (ui spi : ℕ → Bool) (mode : UpdaterMode) (r : Retirement) (x : ℕ)
    → Once r x
    → Once (kest_updater_reap_effects ui spi mode r) x
unfolding kest_updater_reap_effects count
reap-Once ui spi reprogram r x o = o
reap-Once ui spi ready r x o =
    let (alive, handed) = all-frame ui spi r.retiring_effects r in
    let same_alive : given_up ((reap_all ui spi r.retiring_effects r).1.alive x)
        ≡ given_up (r.alive x) =
      ap (λ (f : ℕ → Bool). given_up (f x)) alive in
    let few : given_up (r.alive x) ≤ 1 = one_at_most (r.alive x) in
    let (w, moved) = all-Walk ui spi r.retiring_effects r x 0 (record {
      few = omega (arith, o.once, few);
      calls = o.calls;
      kept = omega (arith, o.kept);
      done = o.done;
    }) in
    record {
      once = omega (arith, ap (count x) handed, moved, o.once, same_alive);
      calls = w.calls;
      kept = omega (arith, w.kept);
      done = w.done;
    }

-- One step of the program: an effect is given up, or the updater takes over what was handed to it,
-- or the SPI task runs a callback, or the updater walks along its list with some answers of the
-- user interface and of the SPI queue.
pub data Step : Retirement → Retirement → Type 0 where
  gives_up : (r : Retirement) (e : ℕ) → Step r (free_effect r e)
  collects : (r : Retirement) → Step r (kest_updater_collect_retired_effects r)
  answers : (r : Retirement) → Step r (run_callback r)
  reaps :
      (r : Retirement) (ui spi : ℕ → Bool) (mode : UpdaterMode)
      → Step r (kest_updater_reap_effects ui spi mode r)

pub data Reach (r : Retirement) : Retirement → Type 0 where
  here : Reach r r
  next : {s t : Retirement} → Reach r s → Step s t → Reach r t

pub Step-Once : {r s : Retirement} → Step r s → (x : ℕ) → Once r x → Once s x
unfolding run_callback
Step-Once (gives_up r e) x o = free_effect-Once r e x o
Step-Once (collects r) x o = collect-Once r x o
Step-Once (answers r) x o = run_callback_of-Once r r.callbacks x refl o
Step-Once (reaps r ui spi mode) x o = reap-Once ui spi mode r x o

-- In any interleaving of these steps: an effect that is alive is on none of the lists, one that
-- has been given up is on exactly one of them and once, so that it is freed at most once and is
-- never lost; a callback in the queue of the SPI task is about an effect that is not freed, and an
-- effect is freed only after its callback has come back.
pub Reach-Once : {r s : Retirement} → Reach r s → ((x : ℕ) → Once r x) → (x : ℕ) → Once s x
Reach-Once here o x = o x
Reach-Once (next reach step) o x = Step-Once step x (Reach-Once reach o x)
