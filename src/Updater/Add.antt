-- ===== src/Updater/Add.antt =====
-- How updates and a preset fill the lists of the state.
pub mod Unique
pub mod Bank
use kestrel_interface.Prelude.{
  ℕ, zero, suc, ◌+◌, Bool, true, false, ◌&&◌, ◌||◌, Option, none, some, List, [], ◌∷◌, ◌++◌, ◌==◌,
  if◌then◌else◌, ltb, leb, length, get_elem?, ◌⊎◌, inl, inr,
}
use kestrel_interface.Status.{no_error, err_bad_args, err_null_ptr}
use kestrel_interface.Fixed.{Floats}
use kestrel_interface.Block.{
  Block, BlockRegVal, EffectFpgaPosition, dsp_resource_filter, dsp_resource_delay,
}
use kestrel_interface.Instr.{Encoded, kest_block_instr_encode_positional}
use kestrel_interface.Updater.{
  FpgaWrite, FpgaAlloc, Filter, Resource, Effect, Dependent, block_reg, filter_coef,
  bound_parameter, UpdaterState, ready, reprogram, block_instr_write, block_reg_write,
  block_reg_update, filter_coef_write, filter_coef_update, kest_updater_drain_lists,
}
use kestrel_interface.Updater.Write.{Evaluator, kest_alloc_for_delay, kest_alloc_for_filter}

unfoldable pub kest_effect_fpga_position_resolve_block : EffectFpgaPosition → ℕ → ℕ
kest_effect_fpga_position_resolve_block p block = p.block_start + block

unfoldable pub kest_effect_fpga_position_resolve_filter : EffectFpgaPosition → ℕ → ℕ
kest_effect_fpga_position_resolve_filter p handle = p.filter_start + handle

-- `res && res->type == KEST_DSP_RESOURCE_FILTER && res->handle == handle`
abbrev pub is_filter : {E : Type 0} → ℕ → Resource E → Bool
is_filter handle res = res.type == dsp_resource_filter && res.handle == handle

-- The first such resource, where the search of `generate_update` stops.
first_filter : {E : Type 0} → ℕ → List (Option (Resource E)) → Option (Resource E)
first_filter handle [] = none
first_filter handle (none ∷ rs) = first_filter handle rs
first_filter handle (some res ∷ rs) =
    if is_filter handle res then some res else first_filter handle rs

-- The data of the last one, with what was found before.
unfoldable pub last_filter :
    {E : Type 0} → ℕ → Option (Filter E) → List (Option (Resource E)) → Option (Filter E)
last_filter handle before [] = before
last_filter handle before (none ∷ rs) = last_filter handle before rs
last_filter handle before (some res ∷ rs) =
    last_filter handle (if is_filter handle res then res.filter else before) rs

-- An entry of the coefficients: out of range and NULL alike are refused.
abbrev expr_at : {E : Type 0} → List (Option E) → ℕ → Option E
expr_at [] n = none
expr_at (e ∷ es) zero = e
expr_at (e ∷ es) (suc n) = expr_at es n

-- `&effect->blocks.entries[block].reg_0` or `reg_1`
register_of : {E : Type 0} → Option (Block E) → ℕ → Option (BlockRegVal E)
register_of none reg = none
register_of (some block) reg =
    if reg == 0 then some block.reg_0 else if reg == 1 then some block.reg_1 else none

data_of : {E : Type 0} → Option (Resource E) → Option (Filter E)
data_of none = none
data_of (some res) = res.filter

-- `dep->data.filter_coef.filter`
abbrev handle_of_dep : Dependent → ℕ
handle_of_dep (block_reg block reg) = reg
handle_of_dep (filter_coef filter coef) = filter
handle_of_dep bound_parameter = 0

module _ {E S : Type 0} where
  register_update :
      FpgaWrite E S → Effect E S → (block reg : ℕ) → Option (BlockRegVal E) → ℕ ⊎ FpgaWrite E S
  unfolding kest_effect_fpga_position_resolve_block
  register_update write effect block reg none = inl err_bad_args
  register_update write effect block reg (some val) = elim val.expr [
    | none ↦ inl err_bad_args
    | some expr ↦ inr (record write {
      type = block_reg_update;
      addr_1 = kest_effect_fpga_position_resolve_block effect.position block;
      addr_2 = reg;
      encoding = val.format;
      expr = some expr;
      scope = effect.scope;
    })
  ]

  coefficient_write :
      FpgaWrite E S → Effect E S → (handle coef : ℕ) → Filter E → Option E → ℕ ⊎ FpgaWrite E S
  unfolding kest_effect_fpga_position_resolve_filter
  coefficient_write write effect handle coef filter none = inl err_bad_args
  coefficient_write write effect handle coef filter (some expr) = inr (record write {
    type = filter_coef_update;
    addr_1 = kest_effect_fpga_position_resolve_filter effect.position handle;
    addr_2 = coef;
    format = filter.format;
    expr = some expr;
    scope = effect.scope;
  })

  coefficient_update :
      FpgaWrite E S → Effect E S → (handle coef : ℕ) → Option (Filter E) → ℕ ⊎ FpgaWrite E S
  unfolding coefficient_write
  coefficient_update write effect handle coef none = inl err_bad_args
  coefficient_update write effect handle coef (some filter) =
      coefficient_write write effect handle coef filter (expr_at filter.coefs coef)

  -- `write` is what the local holds before the call.
  unfoldable pub kest_fpga_write_generate_update :
      FpgaWrite E S → Dependent → Effect E S → ℕ ⊎ FpgaWrite E S
  unfolding register_update register_of coefficient_update first_filter data_of
  kest_fpga_write_generate_update write (block_reg block reg) effect =
      register_update write effect block reg (register_of (get_elem? effect.blocks block) reg)
  kest_fpga_write_generate_update write (filter_coef handle coef) effect =
      coefficient_update write effect handle coef (data_of (first_filter handle effect.resources))
  kest_fpga_write_generate_update write bound_parameter effect = inl err_bad_args

  -- Is there a write to this address?
  abbrev pub addressed : List (FpgaWrite E S) → ℕ → ℕ → Bool
  addressed [] m n = false
  addressed (w ∷ ws) m n = (w.addr_1 == m && w.addr_2 == n) || addressed ws m n

  -- The loop over the coefficients, from number `i` on; the writes are those of the state.
  add_bank : FpgaWrite E S → ℕ → List (Option E) → List (FpgaWrite E S) → ℕ × List (FpgaWrite E S)
  add_bank write i [] ws = (no_error, ws)
  add_bank write i (none ∷ coefs) ws =
      let rest = add_bank write (suc i) coefs ws in
      if addressed ws write.addr_1 i then rest else (err_bad_args, ws)
  add_bank write i (some expr ∷ coefs) ws = add_bank write (suc i) coefs (
      if addressed ws write.addr_1 i
      then ws
      else ws ++ record write { addr_2 = i; expr = some expr } ∷ [])

  module _ {F : Type 0} where
    add_reg : UpdaterState E S F → ℕ ⊎ FpgaWrite E S → ℕ × UpdaterState E S F
    add_reg s (inl error) = (error, s)
    add_reg s (inr write) =
        if addressed s.reg_writes write.addr_1 write.addr_2
        then (no_error, s)
        else (no_error, record s { reg_writes = s.reg_writes ++ write ∷ [] })

    unfoldable pub kest_updater_add_reg_update :
        FpgaWrite E S → UpdaterState E S F → Dependent → Effect E S → ℕ × UpdaterState E S F
    unfolding add_reg
    kest_updater_add_reg_update write s dep effect =
        add_reg s (kest_fpga_write_generate_update write dep effect)

    add_coefficients :
        UpdaterState E S F → ℕ ⊎ FpgaWrite E S → Option (Filter E) → ℕ × UpdaterState E S F
    unfolding add_bank
    add_coefficients s (inl error) filter = (error, s)
    add_coefficients s (inr write) none = (err_bad_args, s)
    add_coefficients s (inr write) (some filter) =
        let (result, ws) = add_bank write 0 filter.coefs s.filter_writes in
        (result, record s { filter_writes = ws })

    unfoldable pub kest_updater_add_filter_coef_update :
        FpgaWrite E S → UpdaterState E S F → Dependent → Effect E S → ℕ × UpdaterState E S F
    unfolding add_coefficients last_filter
    kest_updater_add_filter_coef_update write s dep effect =
        add_coefficients s (kest_fpga_write_generate_update write dep effect)
          (last_filter (handle_of_dep dep) none effect.resources)

    -- The loop of kest_updater_handle_scope_entry_update over the dependents of an entry.
    unfoldable pub kest_updater_handle_scope_entry_update :
        FpgaWrite E S → UpdaterState E S F → List Dependent → Effect E S → UpdaterState E S F
    kest_updater_handle_scope_entry_update write s [] effect = s
    kest_updater_handle_scope_entry_update write s (block_reg block reg ∷ deps) effect =
        kest_updater_handle_scope_entry_update write
          ((kest_updater_add_reg_update write s (block_reg block reg) effect).1) deps effect
    kest_updater_handle_scope_entry_update write s (filter_coef filter coef ∷ deps) effect =
        kest_updater_handle_scope_entry_update write
          ((kest_updater_add_filter_coef_update write s (filter_coef filter coef) effect).1) deps
          effect
    kest_updater_handle_scope_entry_update write s (bound_parameter ∷ deps) effect =
        kest_updater_handle_scope_entry_update write s deps effect
