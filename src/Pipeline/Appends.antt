-- ===== src/Pipeline/Appends.antt =====
-- kest_preset_append_effect_eff of components/core/kest_preset.c.
use kestrel_interface.Prelude.{
  ℕ, suc, ◌+◌, ◌%◌, ◌^◌, ◌≤◌, ◌<◌, ◌≡◌, ◌≢◌, refl, not, ◌||◌, Option, none, some, [], ◌∷◌, ◌++◌,
  ◌==◌, if◌then◌else◌, leb, arith, All, Bool-cases, inl, inr, ==_iff,
}
use kestrel_interface.Status.{no_error}
use kestrel_interface.Pipeline.{
  EffectDesc, Effect, Effects, Grants, Preset, kest_effect_desc_generate_res_rpt,
  init_effect_from_effect_desc, least_free_from, append_built, kest_pipeline_append_effect_eff,
  kest_pipeline_check_capacity, check_effects, n_blocks, notify_active, append_checked,
  behind_append, kest_preset_append_effect_eff,
}
use kestrel_interface.Pipeline.Capacity.{
  IsBuilt, AllBuilt, report, reported, init_effect-IsBuilt, check_effects_iff,
}
use kestrel_interface.Pipeline.Sound.{
  id_of, Distinct, IsSound, All-append_one, All-map, IsSound-weaken,
}

Distinct-append_one :
    (es : Effects) (e : Option Effect)
    → Distinct es
    → All (λ f. id_of f < id_of e) es
    → Distinct (es ++ e ∷ [])
Distinct-append_one [] e distinct above = (_, _)
Distinct-append_one (f ∷ es) e (apart, distinct) (here, above) = (
  All-append_one (λ g. id_of f ≢ id_of g) es e apart (λ i. absurd (omega arith)),
  Distinct-append_one es e distinct above,
)

reported-append_one :
    (es : Effects) (e : Option Effect) → reported (es ++ e ∷ []) ≡ reported es + report e
reported-append_one [] e = omega arith
reported-append_one (f ∷ es) e = omega (arith, reported-append_one es e)

-- The new id lies above those that there are, and below any bound that lies above them.
least_free-above :
    (es : Effects) (k n : ℕ)
    → AllBuilt es
    → k ≤ n
    → All (λ e. id_of e < n) es
    → (k ≤ least_free_from k es)
      × (least_free_from k es ≤ n)
      × All (λ e. id_of e < least_free_from k es) es
unfolding least_free_from
least_free-above [] k n built h below = (omega arith, h, _)
least_free-above (none ∷ es) k n (bad, built) h below = absurd (omega arith)
least_free-above (some e ∷ es) k n (_, built) h (here, below) =
    let k' : ℕ = if leb k e.id then e.id + 1 else k in
    let grows : (k ≤ k') × (e.id < k') × (k' ≤ n) = ground arith in
    let (above, bound, all) = least_free-above es k' n built grows.2 below in
    (omega arith, bound, (omega arith, all))

append_built-IsSound :
    (n : ℕ) (es : Effects) (eff : EffectDesc)
    → IsSound n es
    → n < 2 ^ 16
    → reported es + (kest_effect_desc_generate_res_rpt eff).res_rpt.blocks ≤ n_blocks
    → IsSound
        (suc n)
        (append_built es (init_effect_from_effect_desc (kest_effect_desc_generate_res_rpt eff))).0
unfolding append_built init_effect_from_effect_desc
append_built-IsSound n [] eff sound room fits = record {
  built = ((kest_effect_desc_generate_res_rpt eff, refl, init_effect-IsBuilt eff), _);
  fits = omega arith;
  below = (omega arith, _);
  distinct = (_, _);
}
append_built-IsSound n (e ∷ es) eff sound room fits =
    let (above, bound, all) = least_free-above (e ∷ es) 0 n sound.built (omega arith) sound.below in
    let id : ℕ = least_free_from 0 (e ∷ es) in
    let whole : id % 2 ^ 16 ≡ id = omega arith in
    let new_ : Option Effect =
      some (record (init_effect_from_effect_desc (kest_effect_desc_generate_res_rpt eff)) {
        id = id % 2 ^ 16;
      }) in
    record {
      built =
          All-append_one IsBuilt (e ∷ es) new_ sound.built
            (kest_effect_desc_generate_res_rpt eff, refl, init_effect-IsBuilt eff);
      fits = omega (arith, reported-append_one (e ∷ es) new_);
      below =
          All-append_one (λ f. id_of f < suc n) (e ∷ es) new_
            (All-map (λ f. id_of f < n) (λ f. id_of f < suc n) (e ∷ es) (λ f h. omega arith)
              sound.below)
            (omega arith);
      distinct = Distinct-append_one (e ∷ es) new_ sound.distinct (
          All-map (λ f. id_of f < id) (λ f. id_of f < id_of new_) (e ∷ es) (λ f h. omega arith)
            all);
    }

pub notify-pipeline : (p : Preset) → (notify_active p).pipeline ≡ p.pipeline
unfolding notify_active
notify-pipeline p = ground arith

behind_append-pipeline :
    (p : Preset) (es : Effects) (e : Option Effect) → (behind_append p es e).0.pipeline ≡ es
unfolding behind_append
behind_append-pipeline p es none = refl
behind_append-pipeline p es (some e) = notify-pipeline (record p { pipeline = es })

append_checked-pipeline :
    (p : Preset) (eff : EffectDesc) (grants : Grants)
    → (append_checked p eff grants).0.pipeline
      ≡ (kest_pipeline_append_effect_eff p.pipeline (some eff) grants).0
unfolding append_checked
append_checked-pipeline p eff grants =
    let out = kest_pipeline_append_effect_eff p.pipeline (some eff) grants in
    behind_append-pipeline p out.0 out.1

append_effect-IsSound :
    (n : ℕ) (es : Effects) (eff : EffectDesc) (grants : Grants)
    → n < 2 ^ 16
    → IsSound n es
    → reported es + (kest_effect_desc_generate_res_rpt eff).res_rpt.blocks ≤ n_blocks
    → IsSound
        (suc n)
        (kest_pipeline_append_effect_eff es (some (kest_effect_desc_generate_res_rpt eff)) grants).0
unfolding kest_pipeline_append_effect_eff
append_effect-IsSound n es eff grants room sound fits =
    elim (Bool-cases (not grants.effect || not grants.node || not grants.contents)) [
      | inl refused ↦ rw refused (IsSound-weaken n (suc n) es (omega arith) sound)
      | inr granted ↦ rw granted (append_built-IsSound n es eff sound room fits)
    ]

pub append-IsSound :
    (n : ℕ) (p : Preset) (eff : EffectDesc) (grants : Grants)
    → n < 2 ^ 16
    → IsSound n p.pipeline
    → IsSound
        (suc n)
        ((kest_preset_append_effect_eff p (some (kest_effect_desc_generate_res_rpt eff)) grants).0
          ).pipeline
unfolding kest_preset_append_effect_eff kest_pipeline_check_capacity
append-IsSound n p eff grants room sound =
    let made : EffectDesc = kest_effect_desc_generate_res_rpt eff in
    let code : ℕ = check_effects p.pipeline n_blocks made.res_rpt.blocks in
    elim (Bool-cases (code == no_error)) [
      | inr full ↦ rw full (IsSound-weaken n (suc n) p.pipeline (omega arith) sound)
      | inl free ↦
          let fits =
            (check_effects_iff p.pipeline n_blocks made.res_rpt.blocks sound.built).0
              ((==_iff code no_error).0 free) in
          rw (free, append_checked-pipeline p made grants)
            (append_effect-IsSound n p.pipeline eff grants room sound fits)
    ]
