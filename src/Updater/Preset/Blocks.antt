-- ===== src/Updater/Preset/Blocks.antt =====
-- What a preset update writes for the blocks of an effect, as commands.
use mathlib.Core.List.{map-append}
use kestrel_interface.Prelude.{
  ℕ, suc, sym, refl, ap, ap₂, ◌∙◌, List, [], ◌∷◌, ◌++◌, map, append-nil, append_assoc, some,
  Bool-cases, inl, inr, if◌then◌else◌,
}
use kestrel_interface.Fixed.{Floats}
use kestrel_interface.Block.{Block, BlockRegVal}
use kestrel_interface.Instr.{kest_block_instr_encode_positional}
use kestrel_interface.Command.{
  FpgaCommand, zeroed, write_block_instr, write_block_reg_0, write_block_reg_1,
  kest_fpga_command_write_block_instr, kest_fpga_command_write_block_reg_0,
  kest_fpga_command_write_block_reg_1,
}
use kestrel_interface.Updater.{FpgaWrite, Effect, UpdaterState}
use kestrel_interface.Updater.Write.{Evaluator, kest_fpga_write_to_command}
use kestrel_interface.Updater.Generate.Order.{Commanded}
use kestrel_interface.Updater.Preset.{add_blocks, active_write}

module _ {fl : Floats} {E S : Type 0} (ev : Evaluator fl E S) where
  open fl use {Float}
  open ev use {evaluate}

  -- A block's instruction goes to its place, encoded at the effect's position.
  abbrev pub instructions : Effect E S → ℕ → List (Block E) → List (FpgaCommand Float)
  instructions effect n [] = []
  instructions effect n (block ∷ blocks) =
      record (zeroed fl write_block_instr) {
        data_1 = n;
        data_2 = (kest_block_instr_encode_positional (some block) (some effect.position)).word;
      }
      ∷ instructions effect (suc n) blocks

  -- A register that is active gets the value of its expression.
  abbrev pub register : ℕ → ℕ → S → BlockRegVal E → List (FpgaCommand Float)
  register type n scope val =
      if val.active
      then record (zeroed fl type) {
        data_1 = n;
        val = evaluate val.expr scope;
        encoding = val.format;
      }
        ∷ []
      else []

  abbrev pub registers : Effect E S → ℕ → List (Block E) → List (FpgaCommand Float)
  registers effect n [] = []
  registers effect n (block ∷ blocks) =
      (register write_block_reg_0 n effect.scope block.reg_0
        ++ register write_block_reg_1 n effect.scope block.reg_1)
      ++ registers effect (suc n) blocks

  Commanded-append :
      (ws vs : List (FpgaWrite E S)) (cs ds : List (FpgaCommand Float))
      → Commanded ev ws cs
      → Commanded ev vs ds
      → Commanded ev (ws ++ vs) (cs ++ ds)
  Commanded-append ws vs cs ds e k =
      map-append (kest_fpga_write_to_command ev) ws vs
      ∙ ap₂ (λ xs ys. xs ++ ys) e k
      ∙ sym (map-append inr cs ds)

  active_write-register_0 :
      (write : FpgaWrite E S) (val : BlockRegVal E)
      → Commanded ev
          (active_write ev write 0 val)
          (register write_block_reg_0 write.addr_1 write.scope val)
  unfolding active_write kest_fpga_write_to_command kest_fpga_command_write_block_reg_0
  active_write-register_0 write val = elim (Bool-cases val.active) [
    | inl active ↦ rw active refl
    | inr idle ↦ rw idle refl
  ]

  active_write-register_1 :
      (write : FpgaWrite E S) (val : BlockRegVal E)
      → Commanded ev
          (active_write ev write 1 val)
          (register write_block_reg_1 write.addr_1 write.scope val)
  unfolding active_write kest_fpga_write_to_command kest_fpga_command_write_block_reg_1
  active_write-register_1 write val = elim (Bool-cases val.active) [
    | inl active ↦ rw active refl
    | inr idle ↦ rw idle refl
  ]

  -- When the writes that are there have commands, so have those that the blocks of an effect add
  -- behind them: one write of an instruction for each block, at consecutive places and in order, with
  -- the block's encoding at the effect's position; and, in order, for each active register of a block
  -- one write to that register of that block, with the value of its expression in the effect's scope
  -- and with its format.
  pub add_blocks-Commanded :
      (blocks : List (Block E)) (write : FpgaWrite E S) (effect : Effect E S) (n : ℕ)
      (s : UpdaterState E S Float) (is rs : List (FpgaCommand Float))
      → Commanded ev s.instr_writes is
      → Commanded ev s.reg_writes rs
      → Commanded ev
          (add_blocks ev write effect n blocks s).instr_writes
          (is ++ instructions effect n blocks)
        × Commanded ev
            (add_blocks ev write effect n blocks s).reg_writes
            (rs ++ registers effect n blocks)
  unfolding add_blocks kest_fpga_write_to_command kest_fpga_command_write_block_instr
  add_blocks-Commanded [] write effect n s is rs e k =
      (e ∙ ap (map inr) (sym (append-nil is)), k ∙ ap (map inr) (sym (append-nil rs)))
  add_blocks-Commanded (block ∷ blocks) write effect n s is rs e k =
      let at : FpgaWrite E S = record write { addr_1 = n; scope = effect.scope } in
      let word = (kest_block_instr_encode_positional (some block) (some effect.position)).word in
      let one : List (FpgaCommand Float) =
        record (zeroed fl write_block_instr) { data_1 = n; data_2 = word } ∷ [] in
      let r0 = register write_block_reg_0 n effect.scope block.reg_0 in
      let r1 = register write_block_reg_1 n effect.scope block.reg_1 in
      let (instrs, regs) =
        add_blocks-Commanded blocks write effect (suc n) _ (is ++ one) (rs ++ r0 ++ r1)
          (Commanded-append s.instr_writes (_ ∷ []) is one e refl)
          (Commanded-append (s.reg_writes ++ active_write ev at 0 block.reg_0)
            (active_write ev at 1 block.reg_1) (rs ++ r0) r1
            (Commanded-append s.reg_writes (active_write ev at 0 block.reg_0) rs r0 k
              (active_write-register_0 at block.reg_0))
            (active_write-register_1 at block.reg_1)) in
      (
        instrs ∙ ap (map inr) (append_assoc is one (instructions effect (suc n) blocks)),
        regs
            ∙ ap (map inr) (
                ap (λ cs. cs ++ registers effect (suc n) blocks) (append_assoc rs r0 r1)
                ∙ append_assoc rs (r0 ++ r1) (registers effect (suc n) blocks)),
      )
