-- ===== src/Command/Program.antt =====
-- Whole lists of commands: kest_fpga_command_list_append_encoded of
-- components/fpga/kest_fpga_cmd.c against the wire format.
use kestrel_interface.Prelude.{
  ℕ, ◌≡◌, refl, sym, Option, none, some, List, [], ◌∷◌, ◌++◌, append-nil,
}
use kestrel_interface.Memory.{Platform}
use kestrel_interface.Batch.{TransferBatch}
use kestrel_interface.Batch.Contents.{IsValid, contents, Generous, Appends}
use kestrel_interface.Fixed.{Floats}
use kestrel_interface.Command.{FpgaCommand, append_each, kest_fpga_command_list_append_encoded}
use kestrel_interface.Command.Wire.{Appends-and_then, wire, append_encoded-Appends, retarget}

abbrev pub beside : Option (List ℕ) → Option (List ℕ) → Option (List ℕ)
beside none rest = none
beside (some ys) none = none
beside (some ys) (some zs) = some (ys ++ zs)

pub beside-parts :
    (x y : Option (List ℕ)) (zs : List ℕ)
    → beside x y ≡ some zs
    → (xs : List ℕ) × (ys : List ℕ) × (x ≡ some xs) × (y ≡ some ys) × (some (xs ++ ys) ≡ some zs)
beside-parts none y zs e = cc
beside-parts (some xs) none zs e = cc
beside-parts (some xs) (some ys) zs e = (xs, ys, refl, refl, e)

-- The bytes of a list of commands, in order; `none` if one of them has none.
unfoldable pub wire_all : (fl : Floats) → List (FpgaCommand fl.Float) → Option (List ℕ)
wire_all fl [] = some []
wire_all fl (cmd ∷ cmds) = beside (wire fl cmd) (wire_all fl cmds)

module _ (fl : Floats) (p : Platform) (granted : Generous p) where
  open fl use {Float}

  append_each-Appends :
      (cmds : List (FpgaCommand Float)) (b : TransferBatch) (ys : List ℕ)
      → wire_all fl cmds ≡ some ys
      → IsValid b
      → Appends b ys (append_each fl p cmds (some b))
  unfolding append_each wire_all
  append_each-Appends [] b ys e v = retarget b e (b, refl, v, sym (append-nil (contents b)))
  append_each-Appends (cmd ∷ cmds) b ys e v =
      let (xs, zs, first, rest, all) = beside-parts (wire fl cmd) (wire_all fl cmds) ys e in
      retarget b all (
        Appends-and_then b _ _ _ (append_each fl p cmds)
          (append_encoded-Appends fl p granted cmd b xs first v)
          λ b' v'. append_each-Appends cmds b' zs rest v')

  -- With a heap that grants every request, encoding a list of commands whose numbers have words
  -- into a valid batch succeeds, keeps the batch valid and adds exactly the commands' bytes, in
  -- order.
  pub list_append_encoded-Appends :
      (cmds : List (FpgaCommand Float)) (b : TransferBatch) (ys : List ℕ)
      → wire_all fl cmds ≡ some ys
      → IsValid b
      → Appends b ys (kest_fpga_command_list_append_encoded fl p (some cmds) (some b))
  unfolding kest_fpga_command_list_append_encoded
  list_append_encoded-Appends = append_each-Appends
