-- ===== src/Pipeline/Capacity.antt =====
-- kest_pipeline_check_capacity of components/core/kest_pipeline.c and the room on the FPGA.
use kestrel_interface.Prelude.{
  ℕ, ◌+◌, ◌-◌, ◌≤◌, ◌<◌, ◌≡◌, ◌↔◌, refl, Bool, true, false, ◌||◌, Option, none, some, List, [], ◌∷◌,
  ltb, arith, Bool-cases, ◌⊎◌, inl, inr, All, ap, ◌∙◌, sym,
}
use kestrel_interface.Status.{no_error, err_pipeline_full}
use kestrel_interface.Block.{EffectFpgaPosition, EffResourceReport}
use kestrel_interface.Position.{
  Slot, Shape, advance, advance_all, place, kest_fpga_position_start,
  kest_pipeline_update_positions,
}
use kestrel_interface.Pipeline.{
  EffectDesc, Effect, Effects, count_resource, count_resources, count_nodes,
  kest_effect_desc_generate_res_rpt, clone_blocks, init_effect_from_effect_desc, check_effect,
  check_effects, kest_pipeline_check_capacity, n_blocks,
}

-- An effect that has been made from a description takes at most the blocks of the report.
abbrev pub IsBuilt : Option Effect → Type 0
IsBuilt none = 1 ≤ 0
IsBuilt (some e) = (eff : EffectDesc) × (e.eff ≡ some eff) × (e.block_count ≤ eff.res_rpt.blocks)

abbrev pub AllBuilt : Effects → Type 0
AllBuilt es = All IsBuilt es

abbrev report_of : Option EffectDesc → ℕ
report_of none = 0
report_of (some eff) = eff.res_rpt.blocks

-- The blocks that the reports of the effects name.
abbrev pub report : Option Effect → ℕ
report none = 0
report (some e) = report_of e.eff

abbrev pub reported : Effects → ℕ
reported [] = 0
reported (e ∷ es) = report e + reported es

count_nodes-clone : (bs : List Bool) (n m : ℕ) → n ≤ m → clone_blocks n bs ≤ count_nodes m bs
unfolding clone_blocks count_nodes
count_nodes-clone [] n m h = h
count_nodes-clone (true ∷ bs) n m h = count_nodes-clone bs (n + 1) (m + 1) (omega arith)
count_nodes-clone (false ∷ bs) n m h = count_nodes-clone bs n (m + 1) (omega arith)

count_resources-blocks :
    (rs : List (Option Slot)) (rpt : EffResourceReport)
    → (count_resources rpt rs).blocks ≡ rpt.blocks
unfolding count_resources count_resource
count_resources-blocks [] rpt = refl
count_resources-blocks (none ∷ rs) rpt = count_resources-blocks rs rpt
count_resources-blocks (some res ∷ rs) rpt =
    count_resources-blocks rs (count_resource rpt res) ∙ ground arith

-- From a description whose report is up to date.
pub init_effect-IsBuilt :
    (eff : EffectDesc)
    → (init_effect_from_effect_desc (kest_effect_desc_generate_res_rpt eff)).block_count
      ≤ (kest_effect_desc_generate_res_rpt eff).res_rpt.blocks
unfolding init_effect_from_effect_desc kest_effect_desc_generate_res_rpt
init_effect-IsBuilt eff = omega (
  arith,
  count_nodes-clone eff.blocks 0 0 (omega arith),
  count_resources-blocks eff.resources
      (record { blocks = count_nodes 0 eff.blocks; memory = 0; delays = 0; filters = 0 }),
)

check_effect-step :
    (e : Option Effect) (remaining : ℕ)
    → IsBuilt e
    → ((check_effect e remaining ≡ (no_error, remaining - report e)) × (report e ≤ remaining))
      ⊎ ((check_effect e remaining ≡ (err_pipeline_full, remaining)) × (remaining < report e))
unfolding check_effect
check_effect-step none remaining built = absurd (omega arith)
check_effect-step (some e) remaining (eff, of_, small) =
    elim (Bool-cases (ltb remaining e.block_count || ltb remaining eff.res_rpt.blocks)) [
      | inl full ↦ inr (rw (of_, full) refl, rw of_ (ground arith))
      | inr fits ↦ inl (rw (of_, fits) refl, rw of_ (ground arith))
    ]

pub check_effects_iff :
    (es : Effects) (remaining extra : ℕ)
    → AllBuilt es
    → ((check_effects es remaining extra ≡ no_error) ↔ (reported es + extra ≤ remaining))
unfolding check_effects
check_effects_iff [] remaining extra built = ground arith
check_effects_iff (e ∷ es) remaining extra (here, there) =
    elim (check_effect-step e remaining here) [
      | inl (step, fits) ↦
          let (only_if, if_) = check_effects_iff es (remaining - report e) extra there in
          rw step ((λ h. omega (arith, only_if h)), (λ h. if_ (omega arith)))
      | inr (step, full) ↦ rw step ((λ h. absurd (cc)), (λ h. absurd (omega arith)))
    ]

-- Every effect lies within the blocks of the FPGA, and in front of the next.
abbrev pub AllFit : List EffectFpgaPosition → List Shape → Type 0
AllFit [] [] = Unit
AllFit (p ∷ []) (s ∷ []) = p.block_start + s.blocks ≤ n_blocks
AllFit (p ∷ q ∷ ps) (s ∷ ss) = (p.block_start + s.blocks ≡ q.block_start) × AllFit (q ∷ ps) ss
AllFit _ _ = 1 ≤ 0

advance_all-block_start :
    (rs : List (Option Slot)) (pos : EffectFpgaPosition)
    → (advance_all pos rs).block_start ≡ pos.block_start
unfolding advance_all advance
advance_all-block_start [] pos = refl
advance_all-block_start (none ∷ rs) pos = advance_all-block_start rs pos
advance_all-block_start (some res ∷ rs) pos =
    advance_all-block_start rs (advance pos res) ∙ ground arith

abbrev all_blocks : List Shape → ℕ
all_blocks [] = 0
all_blocks (s ∷ ss) = s.blocks + all_blocks ss

place-AllFit :
    (ss : List Shape) (pos : EffectFpgaPosition)
    → pos.block_start + all_blocks ss ≤ n_blocks
    → AllFit (place pos ss) ss
unfolding place
place-AllFit [] pos h = _
place-AllFit (s ∷ []) pos h = omega arith
place-AllFit (s ∷ t ∷ ss) pos h =
    let moved : EffectFpgaPosition = record pos { block_start = pos.block_start + s.blocks } in
    let start = advance_all-block_start s.resources moved in
    (sym start, place-AllFit (t ∷ ss) (advance_all moved s.resources) (omega (arith, start)))

-- What the placing reads of the effects; `resources` gives the resources of each.
abbrev pub shapes : (Option Effect → List (Option Slot)) → Effects → List Shape
shapes resources [] = []
shapes resources (none ∷ es) =
    record { blocks = 0; resources = resources none } ∷ shapes resources es
shapes resources (some e ∷ es) =
    record { blocks = e.block_count; resources = resources (some e) } ∷ shapes resources es

shapes-blocks :
    (resources : Option Effect → List (Option Slot)) (es : Effects)
    → AllBuilt es
    → all_blocks (shapes resources es) ≤ reported es
shapes-blocks resources [] built = omega arith
shapes-blocks resources (none ∷ es) (here, there) = absurd (omega arith)
shapes-blocks resources (some e ∷ es) ((eff, of_, small), there) =
    omega (arith, ap report_of of_, shapes-blocks resources es there)

-- For effects that have been made from descriptions with reports that name at least their blocks:
-- the capacity suffices exactly when the blocks of all reports and the extra blocks are 256 at most;
-- and then the effects are placed one directly behind the other, the last of them within the 256
-- blocks of the FPGA, whatever resources they have.
pub check_capacity-AllFit :
    (effects : Effects) (extra_blocks : ℕ) (resources : Option Effect → List (Option Slot))
    → AllBuilt effects
    → ((kest_pipeline_check_capacity effects extra_blocks ≡ no_error)
        ↔ (reported effects + extra_blocks ≤ n_blocks))
      × (kest_pipeline_check_capacity effects extra_blocks ≡ no_error
          → AllFit
              (kest_pipeline_update_positions (shapes resources effects))
              (shapes resources effects))
unfolding kest_pipeline_check_capacity kest_pipeline_update_positions kest_fpga_position_start
check_capacity-AllFit effects extra_blocks resources built =
    let capacity = check_effects_iff effects n_blocks extra_blocks built in
    (
      capacity,
      λ h.
          place-AllFit (shapes resources effects) kest_fpga_position_start
            (omega (arith, capacity.0 h, shapes-blocks resources effects built)),
    )
