-- ===== src/Updater/Generate/Order.antt =====
-- The order of the commands of a tick, and what is committed.
use kestrel_interface.Prelude.{
  ℕ, map, ◌&&◌, ◌+◌, ◌≡◌, refl, sym, ap, subst, ◌∙◌, inl, inr, Bool, true, false, ◌||◌, List, [],
  ◌∷◌, ◌++◌, ◌==◌, if◌then◌else◌, arith, ==_iff, Bool-cases,
}
use kestrel_interface.Status.{no_error}
use kestrel_interface.Fixed.{Floats}
use kestrel_interface.Command.{FpgaCommand}
use kestrel_interface.Updater.{FpgaWrite, UpdaterState, filter_coef_update}
use kestrel_interface.Updater.Write.{Evaluator, kest_fpga_write_to_command}
use kestrel_interface.Updater.Generate.{
  found, filter_updates, alloc_commands, write_commands, and_more, add_first, closing_commands,
  generated, kest_updater_generate_command_list,
}

module _ {fl : Floats} {E S : Type 0} (ev : Evaluator fl E S) where
  open fl use {Float}

  -- The writes have these commands.
  abbrev pub Commanded : List (FpgaWrite E S) → List (FpgaCommand Float) → Type 0
  Commanded ws cs = map (kest_fpga_write_to_command ev) ws ≡ map inr cs

  write_commands-Commanded :
      (ws : List (FpgaWrite E S)) (cs : List (FpgaCommand Float))
      → Commanded ws cs
      → write_commands ev ws ≡ (no_error, cs)
  unfolding write_commands add_first
  write_commands-Commanded [] [] e = refl
  write_commands-Commanded [] (c ∷ cs) e = cc
  write_commands-Commanded (w ∷ ws) [] e = cc
  write_commands-Commanded (w ∷ ws) (c ∷ cs) e =
      let first : kest_fpga_write_to_command ev w ≡ inr c = cc in
      let rest : Commanded ws cs = cc in rw (first, write_commands-Commanded ws cs rest) refl

  write_commands-stops :
      (ws : List (FpgaWrite E S)) (cs : List (FpgaCommand Float)) (w : FpgaWrite E S)
      (after : List (FpgaWrite E S)) (error : ℕ)
      → Commanded ws cs
      → kest_fpga_write_to_command ev w ≡ inl error
      → write_commands ev (ws ++ w ∷ after) ≡ (error, cs)
  unfolding write_commands add_first
  write_commands-stops [] [] w after error e bad = rw bad refl
  write_commands-stops [] (c ∷ cs) w after error e bad = cc
  write_commands-stops (v ∷ ws) [] w after error e bad = cc
  write_commands-stops (v ∷ ws) (c ∷ cs) w after error e bad =
      let first : kest_fpga_write_to_command ev v ≡ inr c = cc in
      let rest : Commanded ws cs = cc in
      rw (first, write_commands-stops ws cs w after error rest bad) refl

  -- When every write has a command, the call returns NO_ERROR and adds to the list, in this order,
  -- the commands of the allocations, of the instructions, of the registers and of the
  -- coefficients, and then the closing ones: the commits, and ENABLE_TAIL.
  pub generate_command_list-order :
      (cmd : FpgaCommand Float) (s : UpdaterState E S Float) (is rs fs : List (FpgaCommand Float))
      → Commanded s.instr_writes is
      → Commanded s.reg_writes rs
      → Commanded s.filter_writes fs
      → kest_updater_generate_command_list ev cmd s ≡ (
        no_error,
        record s {
          cmds =
              s.cmds
              ++ (alloc_commands ev cmd s.allocs ++ (is ++ (rs ++ (fs ++ closing_commands ev s))));
        },
      )
  unfolding kest_updater_generate_command_list generated and_more
  generate_command_list-order cmd s is rs fs e₁ e₂ e₃ =
      rw
        (
          write_commands-Commanded s.instr_writes is e₁,
          write_commands-Commanded s.reg_writes rs e₂,
          write_commands-Commanded s.filter_writes fs e₃,
        )
        refl

  -- When the instructions have commands and a register write has none, the call returns the error,
  -- and the list ends with the command of the register write before it: no coefficient is written,
  -- and nothing is committed.
  pub generate_command_list-stops :
      (cmd : FpgaCommand Float) (s : UpdaterState E S Float) (is rs : List (FpgaCommand Float))
      (before : List (FpgaWrite E S)) (w : FpgaWrite E S) (after : List (FpgaWrite E S)) (error : ℕ)
      → Commanded s.instr_writes is
      → Commanded before rs
      → s.reg_writes ≡ before ++ w ∷ after
      → kest_fpga_write_to_command ev w ≡ inl error
      → (error == no_error) ≡ false
      → kest_updater_generate_command_list ev cmd s
        ≡ (error, record s { cmds = s.cmds ++ (alloc_commands ev cmd s.allocs ++ (is ++ rs)) })
  unfolding kest_updater_generate_command_list generated and_more
  generate_command_list-stops cmd s is rs before w after error e₁ e₂ e₃ bad wrong =
      rw
        (
          write_commands-Commanded s.instr_writes is e₁,
          ap (write_commands ev) e₃ ∙ write_commands-stops before rs w after error e₂ bad,
          wrong,
        )
        refl

-- Which filters have an update among the writes?
abbrev pub updates : {E S : Type 0} → List (FpgaWrite E S) → ℕ → Bool
updates [] n = false
updates (w ∷ ws) n = (w.type == filter_coef_update && w.addr_1 == n) || updates ws n

abbrev pub count : List ℕ → ℕ → ℕ
count [] n = 0
count (m ∷ ms) n = (if m == n then 1 else 0) + count ms n

or_assoc : (a b c : Bool) → (a || (b || c)) ≡ ((a || b) || c)
or_assoc true b c = refl
or_assoc false b c = refl

found-append : (ms : List ℕ) (m n : ℕ) → found (ms ++ m ∷ []) n ≡ (found ms n || m == n)
found-append [] m n = ground arith
found-append (k ∷ ms) m n =
    ap (λ b. k == n || b) (found-append ms m n) ∙ or_assoc (k == n) (found ms n) (m == n)

count-append : (ms : List ℕ) (m n : ℕ) → count (ms ++ m ∷ []) n ≡ count ms n + count (m ∷ []) n
count-append [] m n = omega arith
count-append (k ∷ ms) m n = omega (arith, count-append ms m n)

-- A filter is known once, or not at all.
abbrev pub Once : List ℕ → Type 0
Once ms = (n : ℕ) → count ms n ≡ (if found ms n then 1 else 0)

-- What a new filter adds, in numbers and in truth values.
or-new :
    (a b : Bool) (x y : ℕ)
    → (b ≡ true → a ≡ false)
    → x ≡ (if a then 1 else 0)
    → y ≡ (if b then 1 else 0)
    → x + y ≡ (if a || b then 1 else 0)
or-new true true x y h e k = cc (h refl)
or-new true false x y h e k = omega arith
or-new false true x y h e k = omega arith
or-new false false x y h e k = omega arith

Once-append : (ms : List ℕ) (m : ℕ) → Once ms → found ms m ≡ false → Once (ms ++ m ∷ [])
Once-append ms m once new n =
    count-append ms m n
    ∙ or-new (found ms n) (m == n) (count ms n) (count (m ∷ []) n)
        (λ e. subst (λ k. found ms k ≡ false) ((==_iff m n).0 e) new) (once n) (omega arith)
    ∙ ap (λ b. if b then 1 else 0) (sym (found-append ms m n))

or-known : (a b c : Bool) → (b ≡ true → a ≡ true) → (a || (b || c)) ≡ (a || c)
or-known true b c h = refl
or-known false true c h = cc (h refl)
or-known false false c h = refl

or_false : (a : Bool) → (a || false) ≡ a
or_false true = refl
or_false false = refl

filter_updates-count :
    {E S : Type 0} (known : List ℕ) (ws : List (FpgaWrite E S)) (n : ℕ)
    → Once known
    → count (filter_updates known ws) n ≡ (if found known n || updates ws n then 1 else 0)
unfolding filter_updates
filter_updates-count known [] n once =
    once n ∙ ap (λ b. if b then 1 else 0) (sym (or_false (found known n)))
filter_updates-count known (w ∷ ws) n once = elim (Bool-cases (w.type == filter_coef_update)) [
  | inr other ↦ rw other (filter_updates-count known ws n once)
  | inl update ↦ rw update (elim (Bool-cases (found known w.addr_1)) [
    | inl old ↦ rw old (
        filter_updates-count known ws n once
        ∙ ap (λ b. if b then 1 else 0)
            (sym (
              or-known (found known n) (w.addr_1 == n) (updates ws n)
                λ e. subst (λ k. found known k ≡ true) ((==_iff w.addr_1 n).0 e) old)))
    | inr new ↦ rw new (
        filter_updates-count (known ++ w.addr_1 ∷ []) ws n (Once-append known w.addr_1 once new)
        ∙ ap (λ b. if b || updates ws n then 1 else 0) (found-append known w.addr_1 n)
        ∙ ap (λ b. if b then 1 else 0)
            (sym (or_assoc (found known n) (w.addr_1 == n) (updates ws n))))
  ])
]

-- The list of the filters to commit holds each filter that an update among the writes names
-- exactly once, and no other filter.
pub filter_updates-once :
    {E S : Type 0} (ws : List (FpgaWrite E S)) (n : ℕ)
    → count (filter_updates [] ws) n ≡ (if updates ws n then 1 else 0)
filter_updates-once ws n = filter_updates-count [] ws n λ m. refl
