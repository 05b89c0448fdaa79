-- ===== src/Updater/Retire/Once.antt =====
-- The lists that an effect passes on its way out of components/core/kest_update.c.
use kestrel_interface.Prelude.{
  ℕ, ◌+◌, ◌≤◌, ◌≡◌, refl, sym, ap, ◌∙◌, Bool, true, false, List, [], ◌∷◌, ◌++◌, ◌==◌, if◌then◌else◌,
  arith, inl, inr, Bool-cases,
}
use kestrel_interface.Updater.Retire.{
  SpiRetirement, spi_awaiting, spi_queued, spi_finished, Retirement, put,
  kest_updater_retire_effect, free_effect, collect_from, kest_updater_collect_retired_effects,
  kest_updater_effect_reads_finished, run_callback_of, reap_one,
}

-- How often an effect is on a list.
unfoldable pub count : ℕ → List ℕ → ℕ
count x [] = 0
count x (e ∷ es) = (if e == x then 1 else 0) + count x es

-- A callback is on its way.
abbrev pub pending : SpiRetirement → ℕ
pending spi_awaiting = 0
pending spi_queued = 1
pending spi_finished = 0

-- The callback has come back.
abbrev pub finished : SpiRetirement → ℕ
finished spi_awaiting = 0
finished spi_queued = 0
finished spi_finished = 1

abbrev pub given_up : Bool → ℕ
given_up true = 0
given_up false = 1

-- An effect that is alive is on none of the lists, and one that is not is on exactly one of them,
-- once. It has one callback in the queue of the SPI task, or none; with a callback there it is on
-- the list of the updater, and not yet freed; and it is freed only when its callback has come back.
pub record Once (r : Retirement) (x : ℕ) : Type 0 where
  pub once :
      count x r.retired_effects + count x r.retiring_effects + count x r.freed
      ≡ given_up (r.alive x)
  pub calls : count x r.callbacks ≡ pending (r.spi_retirement x)
  pub kept : pending (r.spi_retirement x) ≤ count x r.retiring_effects
  pub done : count x r.freed ≤ finished (r.spi_retirement x)

count-append : (x : ℕ) (es fs : List ℕ) → count x (es ++ fs) ≡ count x es + count x fs
unfolding count
count-append x [] fs = omega arith
count-append x (e ∷ es) fs = omega (arith, count-append x es fs)

count-collect_from :
    (x : ℕ) (es fs : List ℕ) → count x (collect_from es fs) ≡ count x es + count x fs
unfolding count collect_from
count-collect_from x [] fs = omega arith
count-collect_from x (e ∷ es) fs = omega (arith, count-collect_from x es (e ∷ fs))

pending-le : (s : SpiRetirement) → pending s ≤ 1
pending-le spi_awaiting = omega arith
pending-le spi_queued = omega arith
pending-le spi_finished = omega arith

put_self : {A : Type 0} (f : ℕ → A) (e : ℕ) (a : A) (x : ℕ) → x ≡ e → put f e a x ≡ a
unfolding put
put_self f e a x h = let here : (x == e) ≡ true = ground arith in rw here refl

put_other : {A : Type 0} (f : ℕ → A) (e : ℕ) (a : A) (x : ℕ) → (x == e) ≡ false → put f e a x ≡ f x
unfolding put
put_other f e a x h = rw h refl

pub free_effect-Once : (r : Retirement) (e x : ℕ) → Once r x → Once (free_effect r e) x
unfolding free_effect kest_updater_retire_effect count
free_effect-Once r e x o = elim (Bool-cases (r.alive e)) [
  | inl living ↦ elim (Bool-cases (x == e)) [
    | inl here ↦
        let same : x ≡ e = ground arith in
        let gone : put r.alive e false x ≡ false = put_self r.alive e false x same in
        let before : r.alive x ≡ true = ap r.alive same ∙ living in
        rw living (record {
          once = ground (arith, o.once, before, gone, same);
          calls = o.calls;
          kept = o.kept;
          done = o.done;
        })
    | inr other ↦
        let same : put r.alive e false x ≡ r.alive x = put_other r.alive e false x other in
        rw living (record {
          once = ground (arith, o.once, same);
          calls = o.calls;
          kept = o.kept;
          done = o.done;
        })
  ]
  | inr dead ↦ rw dead o
]

pub collect-Once :
    (r : Retirement) (x : ℕ) → Once r x → Once (kest_updater_collect_retired_effects r) x
unfolding kest_updater_collect_retired_effects count
collect-Once r x o = record {
  once = omega (arith, count-collect_from x r.retired_effects r.retiring_effects, o.once);
  calls = o.calls;
  kept = omega (arith, count-collect_from x r.retired_effects r.retiring_effects, o.kept);
  done = o.done;
}

pub run_callback_of-Once :
    (r : Retirement) (es : List ℕ) (x : ℕ)
    → r.callbacks ≡ es
    → Once r x
    → Once (run_callback_of r es) x
unfolding run_callback_of kest_updater_effect_reads_finished count
run_callback_of-Once r [] x queue o = o
run_callback_of-Once r (e ∷ es) x queue o =
    let calls : count x (e ∷ es) ≡ pending (r.spi_retirement x) =
      ap (count x) (sym queue) ∙ o.calls in
    elim (Bool-cases (x == e)) [
      | inl here ↦
          let same : x ≡ e = ground arith in
          let back : put r.spi_retirement e spi_finished x ≡ spi_finished =
            put_self r.spi_retirement e spi_finished x same in
          let pending_one : pending (r.spi_retirement x) ≤ 1 = pending-le (r.spi_retirement x) in
          record {
            once = o.once;
            calls = ground (arith, calls, same, pending_one, ap pending back);
            kept = ground (arith, ap pending back);
            done = ground (arith, o.once, ap finished back);
          }
      | inr other ↦
          let same : put r.spi_retirement e spi_finished x ≡ r.spi_retirement x =
            put_other r.spi_retirement e spi_finished x other in
          record {
            once = o.once;
            calls = ground (arith, calls, ap pending same);
            kept = ground (arith, o.kept, ap pending same);
            done = ground (arith, o.done, ap finished same);
          }
    ]

-- What holds for an effect in the walk along the list, of which `n` entries for the effect stay and
-- `es` are to come.
pub record Walk (r : Retirement) (x n : ℕ) (es : List ℕ) : Type 0 where
  pub few : n + count x es + count x r.freed ≤ 1
  pub calls : count x r.callbacks ≡ pending (r.spi_retirement x)
  pub kept : pending (r.spi_retirement x) ≤ n + count x es
  pub done : count x r.freed ≤ finished (r.spi_retirement x)

-- The head of the list goes on, or stays.
pub one-Walk :
    (ui spi : Bool) (r : Retirement) (e : ℕ) (es : List ℕ) (x n : ℕ) (s : SpiRetirement)
    → r.spi_retirement e ≡ s
    → Walk r x n (e ∷ es)
    → Walk
        (reap_one ui spi e s r).1
        x
        (n + (if (reap_one ui spi e s r).0 then if e == x then 1 else 0 else 0))
        es
      × ((if (reap_one ui spi e s r).0 then if e == x then 1 else 0 else 0)
            + count x (reap_one ui spi e s r).1.freed
          ≡ (if e == x then 1 else 0) + count x r.freed)
unfolding reap_one count
one-Walk ui spi r e es x n spi_queued at w = (
  record {
    few = omega (arith, w.few);
    calls = w.calls;
    kept = omega (arith, w.kept);
    done = w.done;
  },
  refl,
)
one-Walk false spi r e es x n spi_finished at w = (
  record {
    few = omega (arith, w.few);
    calls = w.calls;
    kept = omega (arith, w.kept);
    done = w.done;
  },
  refl,
)
one-Walk true spi r e es x n spi_finished at w = elim (Bool-cases (x == e)) [
  | inl here ↦
      let same : x ≡ e = ground arith in
      let back : r.spi_retirement x ≡ spi_finished = ap r.spi_retirement same ∙ at in
      (
        record {
          few = ground (arith, w.few);
          calls = w.calls;
          kept = ground (arith, ap pending back);
          done = ground (arith, w.few, ap finished back);
        },
        ground arith,
      )
  | inr other ↦ (
    record {
      few = ground (arith, w.few);
      calls = w.calls;
      kept = ground (arith, w.kept);
      done = ground (arith, w.done);
    },
    ground arith,
  )
]
one-Walk ui false r e es x n spi_awaiting at w = (
  record {
    few = omega (arith, w.few);
    calls = w.calls;
    kept = omega (arith, w.kept);
    done = w.done;
  },
  refl,
)
one-Walk ui true r e es x n spi_awaiting at w = elim (Bool-cases (x == e)) [
  | inl here ↦
      let same : x ≡ e = ground arith in
      let before : r.spi_retirement x ≡ spi_awaiting = ap r.spi_retirement same ∙ at in
      let after : put r.spi_retirement e spi_queued x ≡ spi_queued =
        put_self r.spi_retirement e spi_queued x same in
      (
        record {
          few = ground (arith, w.few);
          calls = ground (
            arith,
            count-append x r.callbacks (e ∷ []),
            w.calls,
            ap pending before,
            ap pending after,
            same,
          );
          kept = ground (arith, ap pending after, same);
          done = ground (arith, w.done, ap finished before);
        },
        refl,
      )
  | inr other ↦
      let same : put r.spi_retirement e spi_queued x ≡ r.spi_retirement x =
        put_other r.spi_retirement e spi_queued x other in
      (
        record {
          few = ground (arith, w.few);
          calls = ground (arith, count-append x r.callbacks (e ∷ []), w.calls, ap pending same);
          kept = ground (arith, w.kept, ap pending same);
          done = ground (arith, w.done, ap finished same);
        },
        refl,
      )
]
