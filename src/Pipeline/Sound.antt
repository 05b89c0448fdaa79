-- ===== src/Pipeline/Sound.antt =====
-- What the edits of a preset of components/core/kest_preset.c keep.
use kestrel_interface.Prelude.{ℕ, ◌≤◌, ◌<◌, ◌≢◌, Option, none, some, [], ◌∷◌, ◌++◌, arith, All}
use kestrel_interface.Pipeline.{Effect, Effects, n_blocks}
use kestrel_interface.Pipeline.Capacity.{AllBuilt, reported}

abbrev pub id_of : Option Effect → ℕ
id_of none = 0
id_of (some e) = e.id

abbrev pub Distinct : Effects → Type 0
Distinct [] = Unit
Distinct (e ∷ es) = All (λ f. id_of e ≢ id_of f) es × Distinct es

-- What holds of a preset's pipeline after `n` appends: the effects have been made, their reports
-- fit on the FPGA together, and their ids are below `n` and differ.
pub record IsSound (n : ℕ) (es : Effects) : Type 0 where
  pub built : AllBuilt es
  pub fits : reported es ≤ n_blocks
  pub below : All (λ e. id_of e < n) es
  pub distinct : Distinct es

pub All-append_one :
    (P : Option Effect → Type 0) (es : Effects) (e : Option Effect)
    → All P es
    → P e
    → All P (es ++ e ∷ [])
All-append_one P [] e all here = (here, _)
All-append_one P (f ∷ es) e (first, all) here = (first, All-append_one P es e all here)

pub All-map :
    (P Q : Option Effect → Type 0) (es : Effects)
    → ((e : Option Effect) → P e → Q e)
    → All P es
    → All Q es
All-map P Q [] f all = _
All-map P Q (e ∷ es) f (here, all) = (f e here, All-map P Q es f all)

pub IsSound-weaken : (n m : ℕ) (es : Effects) → n ≤ m → IsSound n es → IsSound m es
IsSound-weaken n m es h sound = record {
  built = sound.built;
  fits = sound.fits;
  below = All-map (λ f. id_of f < n) (λ f. id_of f < m) es (λ f k. omega arith) sound.below;
  distinct = sound.distinct;
}
