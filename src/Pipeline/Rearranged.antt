-- ===== src/Pipeline/Rearranged.antt =====
-- The removal and the moves of components/core/kest_pipeline.c.
use kestrel_interface.Prelude.{
  ℕ, zero, suc, ◌≤◌, ◌<◌, ◌≡◌, ◌≢◌, refl, Option, none, [], ◌∷◌, ltb, arith, All, Bool-cases, inl,
  inr, sym, subst, ◌↔◌, length, ltb→le, ltb→lt,
}
use kestrel_interface.Pipeline.{
  Effect, Effects, has_id, kest_pipeline_remove_effect, take_out, put_in, move_target,
  kest_pipeline_move_effect, kest_pipeline_get_effect_by_index,
}
use kestrel_interface.Pipeline.Moves.{take_out-lem}
use kestrel_interface.Pipeline.Capacity.{IsBuilt, reported}
use kestrel_interface.Pipeline.Sound.{id_of, Distinct, IsSound}

remove-All :
    (P : Option Effect → Type 0) (es : Effects) (id : ℕ)
    → All P es
    → All P (kest_pipeline_remove_effect es id).1
unfolding kest_pipeline_remove_effect
remove-All P [] id all = _
remove-All P (e ∷ es) id (here, all) = elim (Bool-cases (has_id e id)) [
  | inl found ↦ rw found all
  | inr other ↦ rw other (here, remove-All P es id all)
]

remove-reported :
    (es : Effects) (id : ℕ) → reported (kest_pipeline_remove_effect es id).1 ≤ reported es
unfolding kest_pipeline_remove_effect
remove-reported [] id = omega arith
remove-reported (e ∷ es) id = elim (Bool-cases (has_id e id)) [
  | inl found ↦ rw found (omega arith)
  | inr other ↦ rw other (omega (arith, remove-reported es id))
]

remove-Distinct :
    (es : Effects) (id : ℕ) → Distinct es → Distinct (kest_pipeline_remove_effect es id).1
unfolding kest_pipeline_remove_effect
remove-Distinct [] id distinct = _
remove-Distinct (e ∷ es) id (apart, distinct) = elim (Bool-cases (has_id e id)) [
  | inl found ↦ rw found distinct
  | inr other ↦
      rw other (remove-All (λ f. id_of e ≢ id_of f) es id apart, remove-Distinct es id distinct)
]

pub remove-IsSound :
    (n : ℕ) (es : Effects) (id : ℕ) → IsSound n es → IsSound n (kest_pipeline_remove_effect es id).1
remove-IsSound n es id sound = record {
  built = remove-All IsBuilt es id sound.built;
  fits = omega (arith, sound.fits, remove-reported es id);
  below = remove-All (λ e. id_of e < n) es id sound.below;
  distinct = remove-Distinct es id sound.distinct;
}

put_in-All :
    (P : Option Effect → Type 0) (es : Effects) (n : ℕ) (t : Option Effect)
    → All P (put_in es n t) ↔ All P (t ∷ es)
unfolding put_in
put_in-All P [] n t = ((λ h. h), (λ h. h))
put_in-All P (e ∷ es) zero t = ((λ h. h), (λ h. h))
put_in-All P (e ∷ es) (suc n) t =
    let (out, in_) = put_in-All P es n t in
    (
      (λ (here, h). let (there, rest) = out h in (there, (here, rest))),
      (λ (there, (here, rest)). (here, in_ (there, rest))),
    )

put_in-reported :
    (es : Effects) (n : ℕ) (t : Option Effect) → reported (put_in es n t) ≡ reported (t ∷ es)
unfolding put_in
put_in-reported [] n t = refl
put_in-reported (e ∷ es) zero t = refl
put_in-reported (e ∷ es) (suc n) t = omega (arith, put_in-reported es n t)

put_in-Distinct :
    (es : Effects) (n : ℕ) (t : Option Effect) → Distinct (put_in es n t) ↔ Distinct (t ∷ es)
unfolding put_in
put_in-Distinct [] n t = ((λ h. h), (λ h. h))
put_in-Distinct (e ∷ es) zero t = ((λ h. h), (λ h. h))
put_in-Distinct (e ∷ es) (suc n) t =
    let (out, in_) = put_in-Distinct es n t in
    let (first, back) = put_in-All (λ f. id_of e ≢ id_of f) es n t in
    (
      (λ (apart, rest).
          let (away, apart') = first apart in
          let (apart_t, rest') = out rest in (((λ i. away (sym i)), apart_t), (apart', rest'))),
      (λ ((away, apart_t), (apart', rest')).
          (back ((λ i. away (sym i)), apart'), in_ (apart_t, rest'))),
    )

put_in-IsSound :
    (n : ℕ) (es : Effects) (k : ℕ) (t : Option Effect)
    → (IsSound n (put_in es k t) → IsSound n (t ∷ es))
      × (IsSound n (t ∷ es) → IsSound n (put_in es k t))
put_in-IsSound n es k t =
    let all = λ (P : Option Effect → Type 0). put_in-All P es k t in
    let size = put_in-reported es k t in
    let apart = put_in-Distinct es k t in
    (
      (λ (s : IsSound n (put_in es k t)). record {
        built = (all IsBuilt).0 s.built;
        fits = omega (arith, size, s.fits);
        below = (all (λ e. id_of e < n)).0 s.below;
        distinct = apart.0 s.distinct;
      }),
      (λ (s : IsSound n (t ∷ es)). record {
        built = (all IsBuilt).1 s.built;
        fits = omega (arith, size, s.fits);
        below = (all (λ e. id_of e < n)).1 s.below;
        distinct = apart.1 s.distinct;
      }),
    )

take_out-none : (es : Effects) (n : ℕ) → length es ≤ n → take_out es n ≡ none
unfolding take_out
take_out-none [] n h = refl
take_out-none (e ∷ es) zero h = absurd (omega arith)
take_out-none (e ∷ es) (suc n) h = rw (take_out-none es n (omega arith)) refl

pub move-IsSound :
    (n : ℕ) (es : Effects) (new_pos old_pos : ℕ)
    → IsSound n es
    → IsSound n (kest_pipeline_move_effect es new_pos old_pos).1
unfolding kest_pipeline_move_effect move_target
move-IsSound n es new_pos old_pos sound = elim (Bool-cases (ltb old_pos (length es))) [
  | inr beyond ↦ rw (take_out-none es old_pos (ltb→le old_pos (length es) beyond)) sound
  | inl there ↦
      let target : Option Effect = kest_pipeline_get_effect_by_index es old_pos in
      let (rest, taken, back, size) = take_out-lem es old_pos (ltb→lt old_pos (length es) there) in
      let whole : IsSound n (target ∷ rest) =
        (put_in-IsSound n rest old_pos target).0 (subst (IsSound n) (sym back) sound) in
      rw taken ((put_in-IsSound n rest new_pos target).1 whole)
]
