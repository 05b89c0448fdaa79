-- ===== src/Pipeline/Moves.antt =====
-- kest_pipeline_move_effect of components/core/kest_pipeline.c.
use kestrel_interface.Prelude.{
  ℕ, zero, suc, ◌≤◌, ◌<◌, ◌≡◌, refl, Option, some, [], ◌∷◌, arith, length, ap,
}
use kestrel_interface.Status.{no_error}
use kestrel_interface.Pipeline.{
  Effect, Effects, take_out, put_in, move_target, kest_pipeline_move_effect,
  kest_pipeline_get_effect_by_index,
}

take_out-put_in :
    (es : Effects) (n : ℕ) (target : Option Effect)
    → n ≤ length es
    → take_out (put_in es n target) n ≡ some (target, es)
unfolding take_out put_in
take_out-put_in [] zero target h = refl
take_out-put_in [] (suc n) target h = absurd (omega arith)
take_out-put_in (e ∷ es) zero target h = refl
take_out-put_in (e ∷ es) (suc n) target h = rw (take_out-put_in es n target (omega arith)) refl

-- An effect that is there can be taken out, and put back.
pub take_out-lem :
    (es : Effects) (n : ℕ)
    → n < length es
    → (rest : Effects) × (take_out es n ≡ some (kest_pipeline_get_effect_by_index es n, rest))
      × (put_in rest n (kest_pipeline_get_effect_by_index es n) ≡ es)
      × (length es ≡ suc (length rest))
unfolding take_out put_in kest_pipeline_get_effect_by_index
take_out-lem [] n h = absurd (omega arith)
take_out-lem (e ∷ []) zero h = ([], refl, refl, omega arith)
take_out-lem (e ∷ f ∷ es) zero h = (f ∷ es, refl, refl, omega arith)
take_out-lem (e ∷ es) (suc n) h =
    let (rest, taken, back, size) = take_out-lem es n (omega arith) in
    (e ∷ rest, rw taken refl, ap (λ fs. e ∷ fs) back, omega (arith, size))

get-put_in :
    (es : Effects) (n : ℕ) (target : Option Effect)
    → n ≤ length es
    → kest_pipeline_get_effect_by_index (put_in es n target) n ≡ target
unfolding put_in kest_pipeline_get_effect_by_index
get-put_in [] zero target h = refl
get-put_in [] (suc n) target h = absurd (omega arith)
get-put_in (e ∷ es) zero target h = refl
get-put_in (e ∷ es) (suc n) target h = get-put_in es n target (omega arith)

-- For two places in the pipeline: moving the effect at the old one to the new one succeeds, the
-- effect is at the new place afterwards, and moving it back gives the pipeline as it was.
pub move_effect-move_effect :
    (es : Effects) (new_pos old_pos : ℕ)
    → new_pos < length es
    → old_pos < length es
    → (es' : Effects) × (kest_pipeline_move_effect es new_pos old_pos ≡ (no_error, es'))
      × (kest_pipeline_get_effect_by_index es' new_pos
          ≡ kest_pipeline_get_effect_by_index es old_pos)
      × (kest_pipeline_move_effect es' old_pos new_pos ≡ (no_error, es))
unfolding kest_pipeline_move_effect move_target
move_effect-move_effect es new_pos old_pos there from =
    let target : Option Effect = kest_pipeline_get_effect_by_index es old_pos in
    let (rest, taken, back, size) = take_out-lem es old_pos from in
    let fits : new_pos ≤ length rest = omega (arith, size) in
    (
      put_in rest new_pos target,
      rw taken refl,
      get-put_in rest new_pos target fits,
      rw (take_out-put_in rest new_pos target fits, back) refl,
    )
