-- ===== src/Command/Wire.antt =====
-- The wire format: which bytes each command of components/fpga/kest_fpga_cmd.c stands for.
use mathlib.Core.Option
use mathlib.Core.Option.{some-injective}
use kestrel_interface.Prelude.{
  ℕ, ◌%◌, ◌^◌, ◌≡◌, refl, sym, ap, subst, ◌∙◌, true, Option, none, some, List, [], ◌∷◌, ◌++◌, ◌==◌,
  if◌then◌else◌, bit_and, arith, append_assoc, append-nil, Option-cases, inl, inr,
}
use kestrel_interface.Prelude.Bits.{mask-bit_and}
use kestrel_interface.Prelude.Int.{ℤ, pos, negsuc, to_word}
use kestrel_interface.Status.{no_error}
use kestrel_interface.Memory.{Platform}
use kestrel_interface.Batch.{
  TransferBatch, Result, Action, and_then, ◌>>◌, kest_fpga_batch_append, kest_fpga_batch_append_16,
  kest_fpga_batch_append_24, kest_fpga_batch_append_32, kest_fpga_batch_append_block_number,
}
use kestrel_interface.Batch.Contents.{
  IsValid, contents, Generous, Appends, Generous-Appends, byte, be16, be24, be32,
  kest_fpga_batch_append-Appended, append_16-Appended, append_24-Appended, append_32-Appended,
}
use kestrel_interface.Block.{NumericFormat}
use kestrel_interface.Fixed.{
  Floats, kest_encode_numeric, float_to_q_nminus1, float_to_q_nminus1_filter_width,
}
use kestrel_interface.Command.{
  FpgaCommand, Payload, instr_word, register_value, delay_sizes, gain, filter_orders, coefficient,
  filter_handle, bare, payload_of, payload, append_word, kest_fpga_batch_append_numeric,
  kest_fpga_batch_append_float, kest_fpga_batch_append_float_filter_width,
  kest_fpga_command_append_encoded,
}

-- A call that adds its bytes, followed by another.
pub Appends-and_then :
    (b : TransferBatch) (xs ys : List ℕ) (r : Result) (k : Action)
    → Appends b xs r
    → ((b' : TransferBatch) → IsValid b' → Appends b' ys (k (some b')))
    → Appends b (xs ++ ys) (and_then r k)
Appends-and_then b xs ys r k (b', e, v, c) next =
    let (b'', e', v', c') = next b' v in
    (b'', rw e e', v', c' ∙ ap (λ zs. zs ++ ys) c ∙ append_assoc (contents b) xs ys)

pub retarget :
    (b : TransferBatch) {xs ys : List ℕ} {r : Result}
    → some xs ≡ some ys
    → Appends b xs r
    → Appends b ys r
retarget b {xs} {ys} {r} e = subst (λ zs. Appends b zs r) (some-injective xs ys e)

-- The word that an encoding of a number yields.
abbrev pub word_of : ℕ × Option ℕ → Option ℕ
word_of (result, none) = none
word_of (result, some w) = if result == no_error then some w else none

module _ (fl : Floats) where
  open fl use {Float, db_to_gain}

  -- The bytes behind the type byte; `none` if the number of a register has no word.
  unfoldable pub payload_bytes : Payload → FpgaCommand Float → Option (List ℕ)
  payload_bytes instr_word cmd = some (be16 cmd.data_1 ++ be32 cmd.data_2)
  payload_bytes register_value cmd =
      Option.map (λ w. be16 cmd.data_1 ++ be16 w)
        (word_of (kest_encode_numeric fl cmd.val cmd.encoding 16))
  payload_bytes delay_sizes cmd = some (be24 cmd.data_1 ++ be24 cmd.data_2)
  payload_bytes gain cmd =
      some (be16 (to_word 16 (float_to_q_nminus1 fl (db_to_gain cmd.val) (pos 5))))
  payload_bytes filter_orders cmd =
      some (to_word 8 cmd.format ∷ byte cmd.data_1 0 ∷ byte cmd.data_2 0 ∷ [])
  payload_bytes coefficient cmd = some (
      (byte cmd.data_1 0 ∷ be16 cmd.data_2)
      ++ be24 (to_word 32 (float_to_q_nminus1_filter_width fl cmd.val cmd.format)))
  payload_bytes filter_handle cmd = some (byte cmd.data_1 0 ∷ [])
  payload_bytes bare cmd = some []

  -- The type byte and its payload.
  abbrev pub wire : FpgaCommand Float → Option (List ℕ)
  wire cmd = Option.map (λ ys. cmd.type % 256 ∷ ys) (payload_bytes (payload_of cmd.type) cmd)

module _ (fl : Floats) (p : Platform) (granted : Generous p) where
  open fl use {Float, db_to_gain}

  byte-Appends :
      (b : TransferBatch) (x : ℕ)
      → IsValid b
      → Appends b (x ∷ []) (kest_fpga_batch_append p x (some b))
  byte-Appends b x v =
      Generous-Appends p b (x ∷ []) granted (kest_fpga_batch_append-Appended p b x v)

  low_byte-Appends :
      (b : TransferBatch) (x : ℕ)
      → IsValid b
      → Appends b (byte x 0 ∷ []) (kest_fpga_batch_append p (bit_and 0xff x) (some b))
  low_byte-Appends b x v =
      subst (λ y. Appends b (y ∷ []) (kest_fpga_batch_append p (bit_and 0xff x) (some b)))
        (omega (arith, mask-bit_and 8 x)) (byte-Appends b (bit_and 0xff x) v)

  word_16-Appends :
      (b : TransferBatch) (x y : ℕ)
      → be16 x ≡ be16 y
      → IsValid b
      → Appends b (be16 y) (kest_fpga_batch_append_16 p x (some b))
  word_16-Appends b x y e v =
      subst (λ ys. Appends b ys (kest_fpga_batch_append_16 p x (some b))) e
        (Generous-Appends p b (be16 x) granted (append_16-Appended p b v x))

  word_24-Appends :
      (b : TransferBatch) (x : ℕ)
      → IsValid b
      → Appends b (be24 x) (kest_fpga_batch_append_24 p x (some b))
  word_24-Appends b x v = Generous-Appends p b (be24 x) granted (append_24-Appended p b v x)

  low_16 : (x : ℕ) → be16 (bit_and 0xffff x) ≡ be16 x
  low_16 x = rw (mask-bit_and 16 x) (ground arith)

  block_number-Appends :
      (b : TransferBatch) (block : ℕ)
      → IsValid b
      → Appends b (be16 block) (kest_fpga_batch_append_block_number p block (some b))
  unfolding kest_fpga_batch_append_block_number
  block_number-Appends b block v =
      let (b', e, v', c) = word_16-Appends b (bit_and 0xffff block) block (low_16 block) v in
      (b', rw e, v', c)

  register-Appends :
      (b : TransferBatch) (r : ℕ × Option ℕ) (w : ℕ)
      → word_of r ≡ some w
      → IsValid b
      → Appends b (be16 w) (append_word fl p r (some b))
  unfolding append_word
  register-Appends b (result, none) w e v = cc
  register-Appends b (result, some x) w e v =
      let h : (result == no_error) ≡ true = ground arith in
      let same : x ≡ w = ground arith in
      rw h (word_16-Appends b (x % 2 ^ 16) w (rw same (ground arith)) v)

  float-Appends :
      (b : TransferBatch) (x : Float) (format : ℤ)
      → IsValid b
      → Appends b
          (be16 (to_word 16 (float_to_q_nminus1 fl x format)))
          (kest_fpga_batch_append_float fl p x format (some b))
  unfolding kest_fpga_batch_append_float
  float-Appends b x format v = word_16-Appends b _ _ refl v

  filter_width-Appends :
      (b : TransferBatch) (x : Float) (format : ℤ)
      → IsValid b
      → Appends b
          (be24 (to_word 32 (float_to_q_nminus1_filter_width fl x format)))
          (kest_fpga_batch_append_float_filter_width fl p x format (some b))
  unfolding kest_fpga_batch_append_float_filter_width
  filter_width-Appends b x format v = word_24-Appends b _ v

  word_32-Appends :
      (b : TransferBatch) (x : ℕ)
      → IsValid b
      → Appends b (be32 x) (kest_fpga_batch_append_32 p x (some b))
  word_32-Appends b x v = Generous-Appends p b (be32 x) granted (append_32-Appended p b v x)

  byte-to_word : (f : ℤ) → byte (to_word 32 f) 0 ≡ to_word 8 f
  byte-to_word (pos n) = omega arith
  byte-to_word (negsuc n) = omega arith

  numeric-Appends :
      (b : TransferBatch) (x : Float) (format : NumericFormat) (w : ℕ)
      → word_of (kest_encode_numeric fl x format 16) ≡ some w
      → IsValid b
      → Appends b (be16 w) (kest_fpga_batch_append_numeric fl p x format (some b))
  unfolding kest_fpga_batch_append_numeric
  numeric-Appends b x format w e v = register-Appends b (kest_encode_numeric fl x format 16) w e v

  payload-Appends :
      (k : Payload) (cmd : FpgaCommand Float) (b : TransferBatch) (ys : List ℕ)
      → payload_bytes fl k cmd ≡ some ys
      → IsValid b
      → Appends b ys (payload fl p k cmd (some b))
  unfolding payload payload_bytes
  payload-Appends instr_word cmd b ys e v = retarget b e (
      Appends-and_then b _ _ _ (kest_fpga_batch_append_32 p cmd.data_2)
        (block_number-Appends b cmd.data_1 v) λ b' v'. word_32-Appends b' cmd.data_2 v')
  payload-Appends register_value cmd b ys e v =
      elim (Option-cases (word_of (kest_encode_numeric fl cmd.val cmd.encoding 16))) [
        | inl bad ↦ cc (rw bad at e)
        | inr (w, good) ↦ retarget b (rw good at e) (
            Appends-and_then b _ _ _ (kest_fpga_batch_append_numeric fl p cmd.val cmd.encoding)
              (block_number-Appends b cmd.data_1 v)
              λ b' v'. numeric-Appends b' cmd.val cmd.encoding w good v')
      ]
  payload-Appends delay_sizes cmd b ys e v = retarget b e (
      Appends-and_then b _ _ _ (kest_fpga_batch_append_24 p cmd.data_2)
        (word_24-Appends b cmd.data_1 v) λ b' v'. word_24-Appends b' cmd.data_2 v')
  payload-Appends gain cmd b ys e v = retarget b e (float-Appends b (db_to_gain cmd.val) (pos 5) v)
  payload-Appends filter_orders cmd b ys e v = retarget b (rw (← byte-to_word cmd.format) at e) (
      Appends-and_then b _ _ _
        (kest_fpga_batch_append p (bit_and 255 cmd.data_1)
          >> kest_fpga_batch_append p (bit_and 255 cmd.data_2))
        (low_byte-Appends b (to_word 32 cmd.format) v)
        λ b' v'.
          Appends-and_then b' _ _ _ (kest_fpga_batch_append p (bit_and 255 cmd.data_2))
            (low_byte-Appends b' cmd.data_1 v') λ b'' v''. low_byte-Appends b'' cmd.data_2 v'')
  payload-Appends coefficient cmd b ys e v = retarget b e (
      Appends-and_then b _ _ _
        (kest_fpga_batch_append_16 p (bit_and 65535 cmd.data_2)
          >> kest_fpga_batch_append_float_filter_width fl p cmd.val cmd.format)
        (low_byte-Appends b cmd.data_1 v)
        λ b' v'.
          Appends-and_then b' _ _ _
            (kest_fpga_batch_append_float_filter_width fl p cmd.val cmd.format)
            (word_16-Appends b' (bit_and 0xffff cmd.data_2) cmd.data_2 (low_16 cmd.data_2) v')
            λ b'' v''. filter_width-Appends b'' cmd.val cmd.format v'')
  payload-Appends filter_handle cmd b ys e v = retarget b e (low_byte-Appends b cmd.data_1 v)
  payload-Appends bare cmd b ys e v = retarget b e (b, refl, v, sym (append-nil (contents b)))

  -- With a heap that grants every request, encoding a command into a valid batch succeeds, keeps
  -- the batch valid and adds exactly the command's bytes.
  pub append_encoded-Appends :
      (cmd : FpgaCommand Float) (b : TransferBatch) (ys : List ℕ)
      → wire fl cmd ≡ some ys
      → IsValid b
      → Appends b ys (kest_fpga_command_append_encoded fl p cmd (some b))
  unfolding kest_fpga_command_append_encoded
  append_encoded-Appends cmd b ys e v =
      elim (Option-cases (payload_bytes fl (payload_of cmd.type) cmd)) [
        | inl bad ↦ cc (rw bad at e)
        | inr (zs, good) ↦ retarget b (rw good at e) (
            Appends-and_then b _ _ _ (payload fl p (payload_of cmd.type) cmd)
              (byte-Appends b (cmd.type % 256) v)
              λ b' v'. payload-Appends (payload_of cmd.type) cmd b' zs good v')
      ]
