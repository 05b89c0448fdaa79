-- ===== src/Updater/Generate/Complete.antt =====
-- All commands of a tick: what kest_updater_generate_command_list of components/core/kest_update.c
-- makes of its state.
use kestrel_interface.Prelude.{
  ℕ, ◌+◌, ◌^◌, ◌<◌, ◌≡◌, refl, ap, ap₂, ◌∙◌, ◌⊎◌, inl, inr, List, [], ◌∷◌, ◌++◌, map, ◌==◌,
  if◌then◌else◌, int_lt, ltb, arith, Bool-cases, All,
}
use kestrel_interface.Status.{no_error}
use kestrel_interface.Fixed.{Floats}
use kestrel_interface.Command.{
  FpgaCommand, zeroed, alloc_delay, alloc_filter, commit_filter_coef, commit_reg_updates,
  enable_tail, kest_fpga_command_alloc_delay, kest_fpga_command_alloc_filter,
  kest_fpga_command_commit_filter_coefs, kest_fpga_command_commit_reg_updates,
  kest_fpga_command_enable_tail,
}
use kestrel_interface.Updater.{
  FpgaWrite, FpgaAlloc, UpdaterState, alloc_type_delay, alloc_type_filter, tail_cutoff,
}
use kestrel_interface.Updater.Write.{Evaluator, kest_alloc_to_command}
use kestrel_interface.Updater.Generate.{
  filter_updates, alloc_commands, total_delay_alloc, closing_commands,
  kest_updater_generate_command_list,
}
use kestrel_interface.Updater.Generate.Order.{
  Commanded, generate_command_list-order, updates, count, filter_updates-once,
}

-- The allocation of a delay or of a filter.
abbrev pub IsKnown : FpgaAlloc → Type 0
IsKnown a = (a.type ≡ alloc_type_delay) ⊎ (a.type ≡ alloc_type_filter)

module _ (fl : Floats) where
  open fl use {Float}

  -- The command that an allocation asks for.
  abbrev pub asked : FpgaAlloc → FpgaCommand Float
  asked a =
      if a.type == alloc_type_delay
      then record (zeroed fl alloc_delay) { data_1 = a.size_1; data_2 = a.size_2 }
      else record (zeroed fl alloc_filter) {
        data_1 = a.size_1;
        data_2 = a.size_2;
        format = a.format;
      }

  -- The samples that the delays among the commands take.
  abbrev pub delayed : List (FpgaCommand Float) → ℕ
  delayed [] = 0
  delayed (c ∷ cs) = (if c.type == alloc_delay then c.data_1 else 0) + delayed cs

  abbrev pub commit : ℕ → FpgaCommand Float
  commit handle = record (zeroed fl commit_filter_coef) { data_1 = handle }

  -- Register writes are committed once, if there are any.
  abbrev pub registers_commit : {E S : Type 0} → List (FpgaWrite E S) → List (FpgaCommand Float)
  registers_commit [] = []
  registers_commit (w ∷ ws) = zeroed fl commit_reg_updates ∷ []

  -- The tail of delays with more samples than the cutoff.
  abbrev pub tail_command : ℕ → List (FpgaCommand Float)
  tail_command total = if ltb tail_cutoff total then zeroed fl enable_tail ∷ [] else []

  to_command-asked :
      (cmd : FpgaCommand Float) (a : FpgaAlloc)
      → IsKnown a
      → kest_alloc_to_command fl cmd a ≡ asked a
  unfolding kest_alloc_to_command kest_fpga_command_alloc_delay kest_fpga_command_alloc_filter
  to_command-asked cmd a (inl delay) = rw delay refl
  to_command-asked cmd a (inr filter) = rw filter refl

  delayed-asked :
      (a : FpgaAlloc)
      → (if (asked a).type == alloc_delay then (asked a).data_1 else 0)
        ≡ (if a.type == alloc_type_delay then a.size_1 else 0)
  delayed-asked a = elim (Bool-cases (a.type == alloc_type_delay)) [
    | inl delay ↦ rw delay refl
    | inr other ↦ rw other refl
  ]

module _ {fl : Floats} {E S : Type 0} (ev : Evaluator fl E S) where
  open fl use {Float}

  -- The `int` does not overflow.
  total-delayed :
      (allocs : List FpgaAlloc) (total : ℕ)
      → total + delayed fl (map (asked fl) allocs) < 2 ^ 31
      → total_delay_alloc ev total allocs ≡ total + delayed fl (map (asked fl) allocs)
  unfolding total_delay_alloc
  total-delayed [] total h = omega arith
  total-delayed (a ∷ allocs) total h =
      let one = delayed-asked fl a in
      elim (Bool-cases (a.type == alloc_type_delay)) [
        | inl delay ↦
            let this : (if a.type == alloc_type_delay then a.size_1 else 0) ≡ a.size_1 =
              rw delay refl in
            rw delay (
              ap (λ t. total_delay_alloc ev t allocs) (omega (arith, one, this))
              ∙ total-delayed allocs (total + a.size_1) (omega (arith, one, this))
              ∙ omega arith)
        | inr other ↦
            let this : (if a.type == alloc_type_delay then a.size_1 else 0) ≡ 0 = rw other refl in
            rw other (total-delayed allocs total (omega (arith, one, this)) ∙ omega arith)
      ]

  alloc_commands-asked :
      (cmd : FpgaCommand Float) (allocs : List FpgaAlloc)
      → All IsKnown allocs
      → alloc_commands ev cmd allocs ≡ map (asked fl) allocs
  unfolding alloc_commands
  alloc_commands-asked cmd [] known = refl
  alloc_commands-asked cmd (a ∷ allocs) (here, there) =
      ap₂ (λ c cs. c ∷ cs) (to_command-asked fl cmd a here)
        (alloc_commands-asked (kest_alloc_to_command fl cmd a) allocs there)

  closing-commits :
      (s : UpdaterState E S Float)
      → delayed fl (map (asked fl) s.allocs) < 2 ^ 31
      → closing_commands ev s
        ≡ map (commit fl) (filter_updates [] s.filter_writes)
          ++ registers_commit fl s.reg_writes
          ++ tail_command fl (delayed fl (map (asked fl) s.allocs))
  unfolding closing_commands kest_fpga_command_commit_filter_coefs
      kest_fpga_command_commit_reg_updates kest_fpga_command_enable_tail
  closing-commits s h =
      ap₂ (λ cs ds. map (commit fl) (filter_updates [] s.filter_writes) ++ cs ++ ds)
        (registers s.reg_writes)
        (tail (total_delay_alloc ev 0 s.allocs) (total-delayed s.allocs 0 (omega arith)))
    where
      registers :
          (ws : List (FpgaWrite E S))
          → (elim ws [ [] ↦ [] | w ∷ vs ↦ kest_fpga_command_commit_reg_updates fl ∷ [] ])
            ≡ registers_commit fl ws
      registers [] = refl
      registers (w ∷ ws) = refl

      tail :
          (total : ℕ)
          → total ≡ 0 + delayed fl (map (asked fl) s.allocs)
          → (if int_lt tail_cutoff total then kest_fpga_command_enable_tail fl ∷ [] else [])
            ≡ tail_command fl (delayed fl (map (asked fl) s.allocs))
      tail total e =
          ap (λ b. if b then zeroed fl enable_tail ∷ [] else [])
            (let same : int_lt tail_cutoff total
                  ≡ ltb tail_cutoff (delayed fl (map (asked fl) s.allocs)) =
                ground arith in
              same)

  -- For allocations of delays and filters, with less than 2^31 samples for the delays, when every
  -- write has a command: the call returns NO_ERROR and adds to the list, in this order, a command for
  -- each allocation with its sizes, the commands of the instructions, of the registers and of the
  -- coefficients, a commit for each of some filters, one commit of the registers if and only if one
  -- is written, and ENABLE_TAIL if and only if the delays take more samples than the cutoff; and
  -- the filters are those with an update among the writes, each once.
  pub generate_command_list-Complete :
      (cmd : FpgaCommand Float) (s : UpdaterState E S Float) (is rs fs : List (FpgaCommand Float))
      → All IsKnown s.allocs
      → delayed fl (map (asked fl) s.allocs) < 2 ^ 31
      → Commanded ev s.instr_writes is
      → Commanded ev s.reg_writes rs
      → Commanded ev s.filter_writes fs
      → (handles : List ℕ) × (kest_updater_generate_command_list ev cmd s ≡ (
        no_error,
        record s {
          cmds =
              s.cmds
              ++ (map (asked fl) s.allocs
                  ++ (is
                      ++ (rs
                          ++ (fs
                              ++ (map (commit fl) handles
                                  ++ registers_commit fl s.reg_writes
                                  ++ tail_command fl (delayed fl (map (asked fl) s.allocs)))))));
        },
      ))
        × ((n : ℕ) → count handles n ≡ (if updates s.filter_writes n then 1 else 0))
  generate_command_list-Complete cmd s is rs fs known short e₁ e₂ e₃ = (
    filter_updates [] s.filter_writes,
    generate_command_list-order ev cmd s is rs fs e₁ e₂ e₃
        ∙ ap₂
            (λ cs ds. (no_error, record s { cmds = s.cmds ++ (cs ++ (is ++ (rs ++ (fs ++ ds)))) }))
            (alloc_commands-asked cmd s.allocs known) (closing-commits s short),
    λ n. filter_updates-once s.filter_writes n,
  )
