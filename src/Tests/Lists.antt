-- ===== src/Tests/Lists.antt =====
-- Runs of the theorems on dynamic lists.
use kestrel_interface.Prelude.{ℕ, ◌≡◌, refl, true, some, inr, [], ◌∷◌, ◌++◌, arith}
use kestrel_interface.Status.{no_error}
use kestrel_interface.DynList.{DynList, contents, list_append_list, list_append_ref}
use kestrel_interface.DynList.Contents.{IsValid, append_list-Appended}

abbrev full_list : DynList ℕ
full_list = record { entries = some (4 ∷ 5 ∷ []); count = 2; capacity = 2 }

abbrev half_list : DynList ℕ
half_list = record { entries = some (6 ∷ 0 ∷ []); count = 1; capacity = 2 }

append_list-Appended_example :
    ((list' : DynList ℕ) × (list_append_list (λ n. true) 4 0 full_list half_list
        ≡ (no_error, list'))
      × IsValid list'
      × (contents list' ≡ contents full_list ++ contents half_list))
    × ((list' : DynList ℕ) × (list_append_ref (λ n. true) 4 0 (some full_list) (some 7)
          ≡ (no_error, some list'))
        × IsValid list'
        × (contents list' ≡ contents full_list ++ 7 ∷ []))
append_list-Appended_example =
    append_list-Appended (λ n. true) 4 2 0 (λ n h. refl) (omega arith) (omega arith) (omega arith)
      full_list half_list 7 (inr (4 ∷ 5 ∷ [], refl, refl, omega arith, omega arith))
      (inr (6 ∷ 0 ∷ [], refl, refl, omega arith, omega arith)) (omega arith) (omega arith)
