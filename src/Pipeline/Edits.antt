-- ===== src/Pipeline/Edits.antt =====
-- The edits of a preset of components/core/kest_preset.c in any order.
use kestrel_interface.Prelude.{
  ℕ, suc, ◌+◌, ◌^◌, ◌≤◌, ◌≡◌, some, [], ◌==◌, arith, Bool-cases, inl, inr, sym, subst,
}
use kestrel_interface.Status.{no_error}
use kestrel_interface.Pipeline.{
  EffectDesc, Effects, Grants, Preset, kest_effect_desc_generate_res_rpt,
  kest_pipeline_remove_effect, kest_pipeline_move_effect, kest_preset_append_effect_eff,
  kest_preset_remove_effect, kest_preset_move_effect,
}
use kestrel_interface.Pipeline.Sound.{IsSound, IsSound-weaken}
use kestrel_interface.Pipeline.Appends.{append-IsSound, notify-pipeline}
use kestrel_interface.Pipeline.Rearranged.{remove-IsSound, move-IsSound}

-- The edits: each counts whether it is an append. A description has an up-to-date report.
pub data Edit : ℕ → Preset → Preset → Type 0 where
  appended :
      (p : Preset) (eff : EffectDesc) (grants : Grants)
      → Edit 1 p
          (kest_preset_append_effect_eff p (some (kest_effect_desc_generate_res_rpt eff)) grants).0
  removed : (p : Preset) (id : ℕ) → Edit 0 p (kest_preset_remove_effect p id).1
  moved :
      (p : Preset) (new_pos old_pos : ℕ) → Edit 0 p (kest_preset_move_effect p new_pos old_pos).1

-- What the edits make of an empty preset, with at most that many appends.
pub data Reach : ℕ → Preset → Type 0 where
  empty : (p : Preset) → p.pipeline ≡ [] → Reach 0 p
  edited : {n k : ℕ} {p q : Preset} (m : ℕ) → Reach n p → Edit k p q → m ≡ n + k → Reach m q

Edit-IsSound :
    {k : ℕ} {p q : Preset} (n : ℕ)
    → Edit k p q
    → n + k ≤ 2 ^ 16
    → IsSound n p.pipeline
    → IsSound (n + k) q.pipeline
unfolding kest_preset_remove_effect kest_preset_move_effect
Edit-IsSound n (appended p eff grants) room sound =
    IsSound-weaken (suc n) (n + 1)
      ((kest_preset_append_effect_eff p (some (kest_effect_desc_generate_res_rpt eff)) grants).0
        ).pipeline
      (omega arith) (append-IsSound n p eff grants (omega arith) sound)
Edit-IsSound n (removed p id) room sound =
    let es : Effects = (kest_pipeline_remove_effect p.pipeline id).1 in
    IsSound-weaken n (n + 0) (kest_preset_remove_effect p id).1.pipeline (omega arith)
      (rw (notify-pipeline (record p { pipeline = es })) (remove-IsSound n p.pipeline id sound))
Edit-IsSound n (moved p new_pos old_pos) room sound =
    let out = kest_pipeline_move_effect p.pipeline new_pos old_pos in
    IsSound-weaken n (n + 0) (kest_preset_move_effect p new_pos old_pos).1.pipeline (omega arith)
      (elim (Bool-cases (out.0 == no_error)) [
        | inl fine ↦
            rw (fine, notify-pipeline (record p { pipeline = out.1 }))
              (move-IsSound n p.pipeline new_pos old_pos sound)
        | inr failed_ ↦ rw failed_ sound
      ])

-- After any sequence of appends (refused ones too), removals and moves that starts from an empty
-- preset, with descriptions whose reports are up to date and at most 65536 appends: every effect
-- takes no more blocks than its report names, the reports together fit on the FPGA, and no two
-- effects have the same id.
pub Reach-IsSound : (n : ℕ) (p : Preset) → Reach n p → n ≤ 2 ^ 16 → IsSound n p.pipeline
Reach-IsSound n p (empty q none_yet) room =
    subst (IsSound 0) (sym none_yet)
      (record { built = _; fits = omega arith; below = _; distinct = _ })
Reach-IsSound n p (edited {n = n'} {p = q} {q = r} m before edit sum) room =
    subst (λ j. IsSound j r.pipeline) (sym sum)
      (Edit-IsSound n' edit (omega arith) (Reach-IsSound n' q before (omega arith)))
