-- ===== src/Updater/Retire/Freed.antt =====
-- What kest_updater_reap_effects of components/core/kest_update.c frees.
use kestrel_interface.Prelude.{
  ℕ, ◌+◌, ◌<◌, ◌≡◌, refl, ap, ap₂, ◌∙◌, Bool, true, false, List, [], ◌∷◌, ◌==◌, if◌then◌else◌,
  arith, inl, inr, Bool-cases,
}
use kestrel_interface.Updater.{ready}
use kestrel_interface.Updater.Retire.{
  SpiRetirement, spi_awaiting, spi_queued, spi_finished, Retirement, put, without_owner, reap_one,
  reap_all, kest_updater_reap_effects,
}
use kestrel_interface.Updater.Retire.Once.{count, Once}
use kestrel_interface.Updater.Retire.Reached.{count-if, all-moved, one_at_most}

one-other :
    (ui spi : Bool) (e : ℕ) (s : SpiRetirement) (r : Retirement) (x : ℕ)
    → (x == e) ≡ false
    → (reap_one ui spi e s r).1.spi_retirement x ≡ r.spi_retirement x
unfolding reap_one put
one-other ui spi e spi_queued r x h = refl
one-other true spi e spi_finished r x h = refl
one-other false spi e spi_finished r x h = refl
one-other ui true e spi_awaiting r x h = rw h refl
one-other ui false e spi_awaiting r x h = refl

all-freed :
    (ui spi : ℕ → Bool) (es : List ℕ) (r : Retirement) (x : ℕ)
    → ui x ≡ true
    → r.spi_retirement x ≡ spi_finished
    → count x (reap_all ui spi es r).0 ≡ 0
unfolding reap_all count reap_one
all-freed ui spi [] r x takes done = refl
all-freed ui spi (e ∷ es) r x takes done =
    let polled : Retirement = record r { resources = without_owner e r.resources } in
    let one : Bool × Retirement = reap_one (ui e) (spi e) e (r.spi_retirement e) polled in
    let split : count x
          (if one.0 then e ∷ (reap_all ui spi es one.1).0 else (reap_all ui spi es one.1).0)
        ≡ (if one.0 then if e == x then 1 else 0 else 0) + count x (reap_all ui spi es one.1).0 =
      count-if x one.0 e (reap_all ui spi es one.1).0 in
    elim (Bool-cases (x == e)) [
      | inl here ↦
          let same : e ≡ x = ground arith in
          let freed : one ≡ (false, record polled { freed = e ∷ r.freed }) =
            ap₂ (λ u s. reap_one u (spi e) e s polled) (ap ui same ∙ takes)
              (ap r.spi_retirement same ∙ done) in
          let later : count x (reap_all ui spi es one.1).0 ≡ 0 =
            all-freed ui spi es one.1 x takes
              (ap (λ (a : Bool × Retirement). a.1.spi_retirement x) freed ∙ done) in
          ap
            (λ (a : Bool × Retirement).
              count x
                (if a.0 then e ∷ (reap_all ui spi es one.1).0 else (reap_all ui spi es one.1).0))
            freed
          ∙ later
      | inr other ↦
          let later : count x (reap_all ui spi es one.1).0 ≡ 0 =
            all-freed ui spi es one.1 x takes
              (one-other (ui e) (spi e) e (r.spi_retirement e) polled x other ∙ done) in
          ground (arith, split, later)
    ]

-- In the state READY, an effect that the updater has on its list and whose callback has come back
-- is freed by the walk along the list, if the user interface takes it, and is off the list.
pub reap_effects-frees :
    (ui spi : ℕ → Bool) (r : Retirement) (x : ℕ)
    → Once r x
    → 0 < count x r.retiring_effects
    → r.spi_retirement x ≡ spi_finished
    → ui x ≡ true
    → (count x (kest_updater_reap_effects ui spi ready r).freed ≡ 1)
      × (count x (kest_updater_reap_effects ui spi ready r).retiring_effects ≡ 0)
unfolding kest_updater_reap_effects
reap_effects-frees ui spi r x o there done takes =
    let gone : count x (reap_all ui spi r.retiring_effects r).0 ≡ 0 =
      all-freed ui spi r.retiring_effects r x takes done in
    (omega (arith, gone, all-moved ui spi r x o, o.once, one_at_most (r.alive x)), gone)
