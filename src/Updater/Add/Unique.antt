-- ===== src/Updater/Add/Unique.antt =====
-- The addresses that the writes of one tick go to, in components/core/kest_update.c.
use kestrel_interface.Prelude.{
  ℕ, suc, ◌+◌, ◌≤◌, ◌≡◌, refl, subst, ◌⊎◌, inl, inr, false, ◌&&◌, Option, none, some, List, [], ◌∷◌,
  ◌++◌, ◌==◌, if◌then◌else◌, arith, Bool-cases,
}
use kestrel_interface.Updater.{
  FpgaWrite, Filter, Effect, Dependent, block_reg, filter_coef, bound_parameter, UpdaterState,
}
use kestrel_interface.Updater.Add.{
  addressed, add_bank, add_reg, add_coefficients, last_filter, kest_fpga_write_generate_update,
  kest_updater_add_reg_update, kest_updater_add_filter_coef_update,
  kest_updater_handle_scope_entry_update,
}

module _ {E S : Type 0} where
  -- How many writes go to an address?
  abbrev pub occurrences : List (FpgaWrite E S) → ℕ → ℕ → ℕ
  occurrences [] m n = 0
  occurrences (w ∷ ws) m n = (if w.addr_1 == m && w.addr_2 == n then 1 else 0) + occurrences ws m n

  abbrev pub Unique : List (FpgaWrite E S) → Type 0
  Unique ws = (m n : ℕ) → occurrences ws m n ≤ 1

  occurrences-append :
      (ws : List (FpgaWrite E S)) (w : FpgaWrite E S) (m n : ℕ)
      → occurrences (ws ++ w ∷ []) m n ≡ occurrences ws m n + occurrences (w ∷ []) m n
  occurrences-append [] w m n = omega arith
  occurrences-append (v ∷ ws) w m n = omega (arith, occurrences-append ws w m n)

  none-addressed :
      (ws : List (FpgaWrite E S)) (m n : ℕ) → addressed ws m n ≡ false → occurrences ws m n ≡ 0
  none-addressed [] m n h = refl
  none-addressed (w ∷ ws) m n h = elim (Bool-cases (w.addr_1 == m && w.addr_2 == n)) [
    | inl here ↦ cc (rw here at h)
    | inr other ↦ rw other (omega (arith, none-addressed ws m n (rw other at h)))
  ]

  same-address :
      (w : FpgaWrite E S) (m n : ℕ)
      → (occurrences (w ∷ []) m n ≡ 0)
        ⊎ ((w.addr_1 ≡ m) × (w.addr_2 ≡ n) × (occurrences (w ∷ []) m n ≡ 1))
  same-address w m n = ground arith

  Unique-append :
      (ws : List (FpgaWrite E S)) (w : FpgaWrite E S)
      → Unique ws
      → addressed ws w.addr_1 w.addr_2 ≡ false
      → Unique (ws ++ w ∷ [])
  Unique-append ws w u new m n = elim (same-address w m n) [
    | inl other ↦ omega (arith, occurrences-append ws w m n, u m n, other)
    | inr (e₁, e₂, one) ↦
        let fresh : addressed ws m n ≡ false =
          subst (λ k. addressed ws k n ≡ false) e₁
            (subst (λ k. addressed ws w.addr_1 k ≡ false) e₂ new) in
        omega (arith, occurrences-append ws w m n, none-addressed ws m n fresh, one)
  ]

  Unique-extend :
      (ws : List (FpgaWrite E S)) (w : FpgaWrite E S)
      → Unique ws
      → Unique (if addressed ws w.addr_1 w.addr_2 then ws else ws ++ w ∷ [])
  Unique-extend ws w u = elim (Bool-cases (addressed ws w.addr_1 w.addr_2)) [
    | inl old ↦ rw old u
    | inr new ↦ rw new (Unique-append ws w u new)
  ]

  add_bank-Unique :
      (write : FpgaWrite E S) (i : ℕ) (coefs : List (Option E)) (ws : List (FpgaWrite E S))
      → Unique ws
      → Unique (add_bank write i coefs ws).1
  unfolding add_bank
  add_bank-Unique write i [] ws u = u
  add_bank-Unique write i (none ∷ coefs) ws u = elim (Bool-cases (addressed ws write.addr_1 i)) [
    | inl old ↦ rw old (add_bank-Unique write (suc i) coefs ws u)
    | inr new ↦ rw new u
  ]
  add_bank-Unique write i (some expr ∷ coefs) ws u =
      add_bank-Unique write (suc i) coefs _
        (Unique-extend ws (record write { addr_2 = i; expr = some expr }) u)

  module _ {F : Type 0} where
    abbrev pub Coalesced : UpdaterState E S F → Type 0
    Coalesced s = Unique s.reg_writes × Unique s.filter_writes

    add_reg-Coalesced :
        (s : UpdaterState E S F) (r : ℕ ⊎ FpgaWrite E S) → Coalesced s → Coalesced (add_reg s r).1
    unfolding add_reg
    add_reg-Coalesced s (inl error) c = c
    add_reg-Coalesced s (inr w) (u, v) =
        elim (Bool-cases (addressed s.reg_writes w.addr_1 w.addr_2)) [
          | inl old ↦ rw old (u, v)
          | inr new ↦ rw new (Unique-append s.reg_writes w u new, v)
        ]

    add_coefficients-Coalesced :
        (s : UpdaterState E S F) (r : ℕ ⊎ FpgaWrite E S) (filter : Option (Filter E))
        → Coalesced s
        → Coalesced (add_coefficients s r filter).1
    unfolding add_coefficients
    add_coefficients-Coalesced s (inl error) filter c = c
    add_coefficients-Coalesced s (inr w) none c = c
    add_coefficients-Coalesced s (inr w) (some filter) (u, v) =
        (u, add_bank-Unique w 0 filter.coefs s.filter_writes v)

    -- If no register and no coefficient is written twice in the tick so far, then none is after an
    -- updated scope entry has been handled, whatever its dependents.
    pub handle_scope_entry_update-Coalesced :
        (deps : List Dependent) (write : FpgaWrite E S) (s : UpdaterState E S F)
        (effect : Effect E S)
        → Coalesced s
        → Coalesced (kest_updater_handle_scope_entry_update write s deps effect)
    unfolding kest_updater_handle_scope_entry_update kest_updater_add_reg_update
        kest_updater_add_filter_coef_update
    handle_scope_entry_update-Coalesced [] write s effect c = c
    handle_scope_entry_update-Coalesced (block_reg block reg ∷ deps) write s effect c =
        handle_scope_entry_update-Coalesced deps write _ effect (
          add_reg-Coalesced s (kest_fpga_write_generate_update write (block_reg block reg) effect)
            c)
    handle_scope_entry_update-Coalesced (filter_coef filter coef ∷ deps) write s effect c =
        handle_scope_entry_update-Coalesced deps write _ effect (
          add_coefficients-Coalesced s
            (kest_fpga_write_generate_update write (filter_coef filter coef) effect)
            (last_filter filter none effect.resources) c)
    handle_scope_entry_update-Coalesced (bound_parameter ∷ deps) write s effect c =
        handle_scope_entry_update-Coalesced deps write s effect c
