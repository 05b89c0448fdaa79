-- ===== src/Position/Layout.antt =====
-- The addresses of the resources of a pipeline, by kind.
use kestrel_interface.Prelude.{
  ℕ, ◌+◌, ◌≡◌, refl, sym, ap, ap₂, ◌∙◌, inl, inr, true, Option, none, some, List, [], ◌∷◌, ◌++◌,
  ◌==◌, if◌then◌else◌, arith, Bool-cases, map,
}
use kestrel_interface.Block.{
  EffectFpgaPosition, dsp_resource_mem, dsp_resource_delay, dsp_resource_filter,
}
use kestrel_interface.Position.{
  Slot, Shape, advance, advance_all, place, kest_fpga_position_start,
  kest_pipeline_update_positions, Handles, assign, assign_all, kest_resources_assign_handles,
}

-- The kinds that have handles.
pub data Kind : Type 0 where
  mem delay filter : Kind

abbrev pub code : Kind → ℕ
code mem = dsp_resource_mem
code delay = dsp_resource_delay
code filter = dsp_resource_filter

-- How much of its kind's space a resource takes.
abbrev pub width : Kind → Slot → ℕ
width mem res = res.mem_size
width delay res = 1
width filter res = 1

abbrev pub start : Kind → EffectFpgaPosition → ℕ
start mem pos = pos.mem_start
start delay pos = pos.delay_start
start filter pos = pos.filter_start

abbrev next : Kind → Handles → ℕ
next mem h = h.next_mem
next delay h = h.next_delay
next filter h = h.next_filter

-- The widths of the resources of a kind.
abbrev pub widths : Kind → List (Option Slot) → List ℕ
widths k [] = []
widths k (none ∷ rs) = widths k rs
widths k (some res ∷ rs) =
    let rest = widths k rs in if res.type == code k then width k res ∷ rest else rest

-- Their addresses on the FPGA.
abbrev pub addresses : Kind → EffectFpgaPosition → List (Option Slot) → List ℕ
addresses k pos [] = []
addresses k pos (none ∷ rs) = addresses k pos rs
addresses k pos (some res ∷ rs) =
    let rest = addresses k pos rs in
    if res.type == code k then (start k pos + res.handle) ∷ rest else rest

-- Back to back: each begins where the one before ends.
abbrev pub back_to_back : ℕ → List ℕ → List ℕ
back_to_back n [] = []
back_to_back n (w ∷ ws) = n ∷ back_to_back (n + w) ws

abbrev sum : List ℕ → ℕ
sum [] = 0
sum (w ∷ ws) = w + sum ws

assign-next :
    (k : Kind) (h : Handles) (res : Slot)
    → next k (assign h res).1 ≡ next k h + (if res.type == code k then width k res else 0)
unfolding assign
assign-next mem h res = ground arith
assign-next delay h res = ground arith
assign-next filter h res = ground arith

assign-type : (h : Handles) (res : Slot) → (assign h res).0.type ≡ res.type
unfolding assign
assign-type h res = ground arith

assign-handle :
    (k : Kind) (h : Handles) (res : Slot)
    → (res.type == code k) ≡ true
    → (assign h res).0.handle ≡ next k h
unfolding assign
assign-handle mem h res e = ground arith
assign-handle delay h res e = ground arith
assign-handle filter h res e = ground arith

advance-start :
    (k : Kind) (pos : EffectFpgaPosition) (res : Slot)
    → start k (advance pos res) ≡ start k pos + (if res.type == code k then width k res else 0)
unfolding advance
advance-start mem pos res = ground arith
advance-start delay pos res = ground arith
advance-start filter pos res = ground arith

-- The handles of a list follow one another from the next free one.
addresses-assign_all :
    (k : Kind) (pos : EffectFpgaPosition) (rs : List (Option Slot)) (h : Handles)
    → addresses k pos (assign_all h rs) ≡ back_to_back (start k pos + next k h) (widths k rs)
unfolding assign_all
addresses-assign_all k pos [] h = refl
addresses-assign_all k pos (none ∷ rs) h = addresses-assign_all k pos rs h
addresses-assign_all k pos (some res ∷ rs) h =
    let ih = addresses-assign_all k pos rs (assign h res).1 in
    let step = assign-next k h res in
    elim (Bool-cases (res.type == code k)) [
      | inl of_kind ↦
          rw (assign-type h res, of_kind)
            (ap₂ (λ n ls. n ∷ ls) (ap (λ n. start k pos + n) (assign-handle k h res of_kind))
              (ih ∙ ap (λ n. back_to_back n (widths k rs)) (omega (arith, rw of_kind at step))))
      | inr other ↦
          rw (assign-type h res, other)
            (ih ∙ ap (λ n. back_to_back n (widths k rs)) (omega (arith, rw other at step)))
    ]

assign-width : (k : Kind) (h : Handles) (res : Slot) → width k (assign h res).0 ≡ width k res
unfolding assign
assign-width mem h res = ground arith
assign-width delay h res = refl
assign-width filter h res = refl

widths-assign_all :
    (k : Kind) (rs : List (Option Slot)) (h : Handles) → widths k (assign_all h rs) ≡ widths k rs
unfolding assign_all
widths-assign_all k [] h = refl
widths-assign_all k (none ∷ rs) h = widths-assign_all k rs h
widths-assign_all k (some res ∷ rs) h =
    rw (assign-type h res, assign-width k h res, widths-assign_all k rs (assign h res).1) refl

start-advance_all :
    (k : Kind) (rs : List (Option Slot)) (pos : EffectFpgaPosition)
    → start k (advance_all pos rs) ≡ start k pos + sum (widths k rs)
unfolding advance_all
start-advance_all k [] pos = omega arith
start-advance_all k (none ∷ rs) pos = start-advance_all k rs pos
start-advance_all k (some res ∷ rs) pos =
    let ih = start-advance_all k rs (advance pos res) in
    let step = advance-start k pos res in
    elim (Bool-cases (res.type == code k)) [
      | inl of_kind ↦ rw of_kind (omega (arith, ih, rw of_kind at step))
      | inr other ↦ rw other (omega (arith, ih, rw other at step))
    ]

back_to_back-append :
    (xs ys : List ℕ) (n : ℕ)
    → back_to_back n (xs ++ ys) ≡ back_to_back n xs ++ back_to_back (n + sum xs) ys
back_to_back-append [] ys n = ap (λ m. back_to_back m ys) (omega arith)
back_to_back-append (x ∷ xs) ys n =
    ap (λ l. n ∷ l)
      (back_to_back-append xs ys (n + x)
        ∙ ap (λ m. back_to_back (n + x) xs ++ back_to_back m ys) (omega arith))

-- An effect whose resources have the handles that the parser gives them.
abbrev pub assigned : Shape → Shape
assigned e = record e { resources = kest_resources_assign_handles e.resources }

-- The addresses of all effects' resources of a kind, and their widths.
abbrev pub all_addresses : Kind → List EffectFpgaPosition → List Shape → List ℕ
all_addresses k [] es = []
all_addresses k (pos ∷ ps) [] = []
all_addresses k (pos ∷ ps) (e ∷ es) = addresses k pos e.resources ++ all_addresses k ps es

abbrev pub all_widths : Kind → List Shape → List ℕ
all_widths k [] = []
all_widths k (e ∷ es) = widths k e.resources ++ all_widths k es

start-blocks :
    (k : Kind) (pos : EffectFpgaPosition) (n : ℕ)
    → start k (record pos { block_start = n }) ≡ start k pos
start-blocks mem pos n = refl
start-blocks delay pos n = refl
start-blocks filter pos n = refl

all_addresses-place :
    (k : Kind) (es : List Shape) (pos : EffectFpgaPosition)
    → all_addresses k (place pos (map assigned es)) (map assigned es)
      ≡ back_to_back (start k pos) (all_widths k es)
unfolding place kest_resources_assign_handles
all_addresses-place k [] pos = refl
all_addresses-place k (e ∷ es) pos =
    let zero_handles : Handles = record { next_filter = 0; next_delay = 0; next_mem = 0 } in
    let moved : EffectFpgaPosition = record pos { block_start = pos.block_start + e.blocks } in
    let after = advance_all moved (assign_all zero_handles e.resources) in
    let from : start k after ≡ start k pos + sum (widths k e.resources) =
      start-advance_all k (assign_all zero_handles e.resources) moved
      ∙ ap₂ (λ a ws. a + sum ws) (start-blocks k pos _)
          (widths-assign_all k e.resources zero_handles) in
    ap₂ (λ a b. a ++ b)
      (addresses-assign_all k pos e.resources zero_handles
        ∙ ap (λ n. back_to_back n (widths k e.resources)) (first k))
      (all_addresses-place k es after ∙ ap (λ n. back_to_back n (all_widths k es)) from)
    ∙ sym (back_to_back-append (widths k e.resources) (all_widths k es) (start k pos))
  where
    first :
        (k : Kind)
        → start k pos + next k (record { next_filter = 0; next_delay = 0; next_mem = 0 })
          ≡ start k pos
    first mem = omega arith
    first delay = omega arith
    first filter = omega arith

-- For effects whose resources have the handles that the parser gives them, over a whole pipeline:
-- the memory, the delays and the filters of all effects each lie back to back from 0, in order,
-- every resource taking what it needs, so that no two overlap and nothing between them is left
-- free.
pub update_positions-back_to_back :
    (k : Kind) (effects : List Shape)
    → all_addresses k (kest_pipeline_update_positions (map assigned effects)) (map assigned effects)
      ≡ back_to_back 0 (all_widths k effects)
unfolding kest_pipeline_update_positions kest_fpga_position_start
update_positions-back_to_back mem effects = all_addresses-place mem effects _
update_positions-back_to_back delay effects = all_addresses-place delay effects _
update_positions-back_to_back filter effects = all_addresses-place filter effects _
