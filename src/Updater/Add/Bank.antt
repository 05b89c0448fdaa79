-- ===== src/Updater/Add/Bank.antt =====
-- The update of a coefficient in components/core/kest_update.c. A commit flips the whole bank of a
-- filter.
use kestrel_interface.Prelude.{
  ℕ, zero, suc, ◌+◌, ◌<◌, ◌≡◌, refl, sym, subst, ◌⊎◌, inl, inr, true, ◌&&◌, Option, none, some,
  List, [], ◌∷◌, ◌++◌, ◌==◌, if◌then◌else◌, arith, Bool-cases, length,
}
use kestrel_interface.Status.{no_error, err_bad_args}
use kestrel_interface.Updater.{FpgaWrite, Filter, Effect, filter_coef, UpdaterState}
use kestrel_interface.Updater.Add.{
  addressed, add_bank, add_coefficients, expr_at, coefficient_update, coefficient_write,
  last_filter, first_filter, data_of, kest_fpga_write_generate_update,
  kest_updater_add_filter_coef_update, kest_effect_fpga_position_resolve_filter,
}

module _ {E S : Type 0} where
  addressed-append :
      (ws : List (FpgaWrite E S)) (w : FpgaWrite E S) (m n : ℕ)
      → addressed ws m n ≡ true
      → addressed (ws ++ w ∷ []) m n ≡ true
  addressed-append [] w m n h = cc
  addressed-append (v ∷ ws) w m n h = elim (Bool-cases (v.addr_1 == m && v.addr_2 == n)) [
    | inl here ↦ rw here refl
    | inr other ↦ rw other (addressed-append ws w m n (rw other at h))
  ]

  addressed-last :
      (ws : List (FpgaWrite E S)) (w : FpgaWrite E S)
      → addressed (ws ++ w ∷ []) w.addr_1 w.addr_2 ≡ true
  addressed-last [] w = ground arith
  addressed-last (v ∷ ws) w = elim (Bool-cases (v.addr_1 == w.addr_1 && v.addr_2 == w.addr_2)) [
    | inl here ↦ rw here refl
    | inr other ↦ rw other (addressed-last ws w)
  ]

  extended : (ws : List (FpgaWrite E S)) (w : FpgaWrite E S) → List (FpgaWrite E S)
  extended ws w = if addressed ws w.addr_1 w.addr_2 then ws else ws ++ w ∷ []

  addressed-extended :
      (ws : List (FpgaWrite E S)) (w : FpgaWrite E S)
      → addressed (extended ws w) w.addr_1 w.addr_2 ≡ true
  unfolding extended
  addressed-extended ws w = elim (Bool-cases (addressed ws w.addr_1 w.addr_2)) [
    | inl old ↦ rw old old
    | inr new ↦ rw new (addressed-last ws w)
  ]

  extended-keeps :
      (ws : List (FpgaWrite E S)) (w : FpgaWrite E S) (m n : ℕ)
      → addressed ws m n ≡ true
      → addressed (extended ws w) m n ≡ true
  unfolding extended
  extended-keeps ws w m n h = elim (Bool-cases (addressed ws w.addr_1 w.addr_2)) [
    | inl old ↦ rw old h
    | inr new ↦ rw new (addressed-append ws w m n h)
  ]

  add_bank-keeps :
      (write : FpgaWrite E S) (i : ℕ) (coefs : List (Option E)) (ws : List (FpgaWrite E S))
      (m n : ℕ)
      → addressed ws m n ≡ true
      → addressed (add_bank write i coefs ws).1 m n ≡ true
  unfolding add_bank extended
  add_bank-keeps write i [] ws m n h = h
  add_bank-keeps write i (none ∷ coefs) ws m n h = elim (Bool-cases (addressed ws write.addr_1 i)) [
    | inl old ↦ rw old (add_bank-keeps write (suc i) coefs ws m n h)
    | inr new ↦ rw new h
  ]
  add_bank-keeps write i (some expr ∷ coefs) ws m n h =
      add_bank-keeps write (suc i) coefs _ m n
        (extended-keeps ws (record write { addr_2 = i; expr = some expr }) m n h)

  add_bank-covers :
      (write : FpgaWrite E S) (i : ℕ) (coefs : List (Option E)) (ws : List (FpgaWrite E S)) (k : ℕ)
      → (add_bank write i coefs ws).0 ≡ no_error
      → k < length coefs
      → addressed (add_bank write i coefs ws).1 write.addr_1 (i + k) ≡ true
  unfolding add_bank extended
  add_bank-covers write i [] ws k ok h = ground arith
  add_bank-covers write i (none ∷ coefs) ws zero ok h =
      elim (Bool-cases (addressed ws write.addr_1 i)) [
        | inr new ↦ let wrong : err_bad_args ≡ no_error = rw new at ok in ground arith
        | inl old ↦ rw old (
            subst (λ n. addressed (add_bank write (suc i) coefs ws).1 write.addr_1 n ≡ true)
              (omega arith) (add_bank-keeps write (suc i) coefs ws write.addr_1 i old))
      ]
  add_bank-covers write i (none ∷ coefs) ws (suc k) ok h =
      elim (Bool-cases (addressed ws write.addr_1 i)) [
        | inr new ↦ let wrong : err_bad_args ≡ no_error = rw new at ok in ground arith
        | inl old ↦ rw old (
            subst (λ n. addressed (add_bank write (suc i) coefs ws).1 write.addr_1 n ≡ true)
              (omega arith) (add_bank-covers write (suc i) coefs ws k (rw old at ok) (omega arith)))
      ]
  add_bank-covers write i (some expr ∷ coefs) ws zero ok h =
      let w = record write { addr_2 = i; expr = some expr } in
      subst (λ n. addressed (add_bank write (suc i) coefs (extended ws w)).1 write.addr_1 n ≡ true)
        (omega arith)
        (add_bank-keeps write (suc i) coefs (extended ws w) write.addr_1 i
          (addressed-extended ws w))
  add_bank-covers write i (some expr ∷ coefs) ws (suc k) ok h =
      let w = record write { addr_2 = i; expr = some expr } in
      subst (λ n. addressed (add_bank write (suc i) coefs (extended ws w)).1 write.addr_1 n ≡ true)
        (omega arith) (add_bank-covers write (suc i) coefs (extended ws w) k ok (omega arith))

  -- A refused update, or one for the filter's own address.
  abbrev Update : Effect E S → ℕ → ℕ ⊎ FpgaWrite E S → Type 0
  Update effect handle r =
      (r ≡ inl err_bad_args)
      ⊎ ((w : FpgaWrite E S) × (r ≡ inr w)
          × (w.addr_1 ≡ kest_effect_fpga_position_resolve_filter effect.position handle))

  coefficient_write-Update :
      (write : FpgaWrite E S) (effect : Effect E S) (handle coef : ℕ) (filter : Filter E)
      (o : Option E)
      → Update effect handle (coefficient_write write effect handle coef filter o)
  unfolding coefficient_write
  coefficient_write-Update write effect handle coef filter none = inl refl
  coefficient_write-Update write effect handle coef filter (some expr) = inr (_, refl, refl)

  coefficient_update-Update :
      (write : FpgaWrite E S) (effect : Effect E S) (handle coef : ℕ) (o : Option (Filter E))
      → Update effect handle (coefficient_update write effect handle coef o)
  unfolding coefficient_update
  coefficient_update-Update write effect handle coef none = inl refl
  coefficient_update-Update write effect handle coef (some filter) =
      coefficient_write-Update write effect handle coef filter (expr_at filter.coefs coef)

  add_coefficients-covers :
      {F : Type 0} (s : UpdaterState E S F) (r : ℕ ⊎ FpgaWrite E S) (filter : Filter E) (a k : ℕ)
      → (r ≡ inl err_bad_args) ⊎ ((w : FpgaWrite E S) × (r ≡ inr w) × (w.addr_1 ≡ a))
      → (add_coefficients s r (some filter)).0 ≡ no_error
      → k < length filter.coefs
      → addressed (add_coefficients s r (some filter)).1.filter_writes a k ≡ true
  unfolding add_coefficients
  add_coefficients-covers s r filter a k (inl bad) ok h =
      let wrong : err_bad_args ≡ no_error = rw bad at ok in ground arith
  add_coefficients-covers s r filter a k (inr (w, good, same)) ok h = rw good (
      subst (λ m. addressed (add_bank w 0 filter.coefs s.filter_writes).1 m k ≡ true) same
        (subst (λ n. addressed (add_bank w 0 filter.coefs s.filter_writes).1 w.addr_1 n ≡ true)
          (omega arith) (add_bank-covers w 0 filter.coefs s.filter_writes k (rw good at ok) h)))

  -- When an update of a coefficient returns NO_ERROR and its effect has a filter of the handle,
  -- then for every coefficient of that filter (the last one of the handle) there is a write in
  -- this tick at the filter's address.
  pub add_filter_coef_update-covers :
      {F : Type 0} (write : FpgaWrite E S) (s : UpdaterState E S F) (effect : Effect E S)
      (handle coef k : ℕ) (filter : Filter E)
      → last_filter handle none effect.resources ≡ some filter
      → (kest_updater_add_filter_coef_update write s (filter_coef handle coef) effect).0 ≡ no_error
      → k < length filter.coefs
      → addressed
          (kest_updater_add_filter_coef_update write s
            (filter_coef handle coef)
            effect).1.filter_writes
          (kest_effect_fpga_position_resolve_filter effect.position handle)
          k
        ≡ true
  unfolding kest_updater_add_filter_coef_update kest_fpga_write_generate_update
  add_filter_coef_update-covers write s effect handle coef k filter e ok h =
      subst
        (λ o.
          (add_coefficients s r o).0 ≡ no_error
          → addressed (add_coefficients s r o).1.filter_writes
              (kest_effect_fpga_position_resolve_filter effect.position handle) k
            ≡ true)
        (sym e)
        (λ ok'.
          add_coefficients-covers s r filter _ k
            (coefficient_update-Update write effect handle coef
              (data_of (first_filter handle effect.resources)))
            ok' h)
        ok
    where
      r : ℕ ⊎ FpgaWrite E S
      r = kest_fpga_write_generate_update write (filter_coef handle coef) effect
