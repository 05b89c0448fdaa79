-- ===== src/Instr/Decode.antt =====
-- The printers of instruction words read back what the encoders put in.
use native.Mathlib.Nat.{one-le-pow}
use kestrel_interface.Prelude.{
  ℕ, ◌+◌, ◌*◌, ◌/◌, ◌%◌, ◌^◌, ◌<◌, ◌≡◌, ◌∙◌, Bool, true, false, not, arith, ◌==◌, some,
}
use kestrel_interface.Prelude.Bits.{mask-bit_and, bit_and-two_pow}
use kestrel_interface.Batch.{range_bits}
use kestrel_interface.Block.{Block}
use kestrel_interface.Instr.{
  is_expr, test_bit, kest_encode_dsp_block_instr_type_a, kest_encode_dsp_block_instr_type_b,
  PrintedA, PrintedB, print_instruction_format_a, print_instruction_format_b,
}
use kestrel_interface.Instr.Fields.{bit, bit-lt, sum_a, sum_b, encode_a-sum, encode_b-sum}

-- Reading the `n` bits from bit `k` on, and the one bit at `k`, of `low + field * 2 ^ k + high`.
range_bits-eq : (x n k v : ℕ) → x / 2 ^ k % 2 ^ n ≡ v → range_bits x n k ≡ v
range_bits-eq x n k v h = mask-bit_and n (x / 2 ^ k) ∙ h

test_bit-eq :
    (x k q r : ℕ) (b : Bool) → x ≡ q * 2 ^ k + r → r < 2 ^ k → q % 2 ≡ bit b → test_bit x k ≡ b
test_bit-eq x k q r true e h odd =
    rw (e, bit_and-two_pow k q r h, odd) (ground (arith, one-le-pow k 2))
test_bit-eq x k q r false e h odd = rw (e, bit_and-two_pow k q r h, odd) (ground arith)

module _ (op a b c d s : ℕ) (ar br cr sat ns : Bool) where
  print-sum_a :
      op < 64
      → a < 16
      → b < 16
      → c < 16
      → d < 16
      → s < 32
      → print_instruction_format_a
          (sum_a op a (bit ar) b (bit br) c (bit cr) d s (bit sat) (bit ns))
        ≡ record {
          opcode = op % 32;
          src_a = a;
          src_a_reg = ar;
          src_b = b;
          src_b_reg = br;
          src_c = c;
          src_c_reg = cr;
          dest = d;
          shift = s;
          sat = sat;
          no_shift = ns;
        }
  unfolding print_instruction_format_a
  print-sum_a h0 h1 h2 h3 h4 h5 =
      let x : ℕ = sum_a op a (bit ar) b (bit br) c (bit cr) d s (bit sat) (bit ns) in
      let k1 = bit-lt ar in
      let k2 = bit-lt br in
      let k3 = bit-lt cr in
      let k4 = bit-lt sat in
      let k5 = bit-lt ns in
      let low11 : ℕ = op + a * 2 ^ 6 in
      let low15 : ℕ = low11 + bit ar * 2 ^ 10 + b * 2 ^ 11 in
      let low20 : ℕ = low15 + bit br * 2 ^ 15 + c * 2 ^ 16 in
      let low30 : ℕ = low20 + bit cr * 2 ^ 20 + d * 2 ^ 21 + s * 2 ^ 25 in
      let high30 : ℕ = bit sat + bit ns * 2 in
      let high20 : ℕ = bit cr + d * 2 + s * 2 ^ 5 + high30 * 2 ^ 10 in
      let high15 : ℕ = bit br + c * 2 + high20 * 2 ^ 5 in
      let high10 : ℕ = bit ar + b * 2 + high15 * 2 ^ 5 in
      λ i. record {
        opcode = range_bits-eq x 5 0 (op % 32) (omega arith) i;
        src_a = range_bits-eq x 4 6 a (omega arith) i;
        src_a_reg = test_bit-eq x 10 high10 low11 ar (omega arith) (omega arith) (omega arith) i;
        src_b = range_bits-eq x 4 11 b (omega arith) i;
        src_b_reg = test_bit-eq x 15 high15 low15 br (omega arith) (omega arith) (omega arith) i;
        src_c = range_bits-eq x 4 16 c (omega arith) i;
        src_c_reg = test_bit-eq x 20 high20 low20 cr (omega arith) (omega arith) (omega arith) i;
        dest = range_bits-eq x 4 21 d (omega arith) i;
        shift = range_bits-eq x 5 25 s (omega arith) i;
        sat = test_bit-eq x 30 high30 low30 sat (omega arith) (omega arith) (omega arith) i;
        no_shift =
            test_bit-eq x 31 (bit ns) (low30 + bit sat * 2 ^ 30) ns (omega arith) (omega arith)
              (omega arith) i;
      }

module _ (op a b d h : ℕ) (ar br : Bool) where
  print-sum_b :
      op < 32
      → a < 16
      → b < 16
      → d < 16
      → print_instruction_format_b (sum_b op a (bit ar) b (bit br) d h) ≡ record {
        opcode = op;
        src_a = a;
        src_a_reg = ar;
        src_b = b;
        src_b_reg = br;
        dest = d;
        res_addr = h % 256;
      }
  unfolding print_instruction_format_b
  print-sum_b h0 h1 h2 h3 =
      let x : ℕ = sum_b op a (bit ar) b (bit br) d h in
      let k1 = bit-lt ar in
      let k2 = bit-lt br in
      let low11 : ℕ = op + 2 ^ 5 + a * 2 ^ 6 in
      let low15 : ℕ = low11 + bit ar * 2 ^ 10 + b * 2 ^ 11 in
      let high15 : ℕ = bit br + d * 2 + h * 2 ^ 5 in
      let high10 : ℕ = bit ar + b * 2 + high15 * 2 ^ 5 in
      λ i. record {
        opcode = range_bits-eq x 5 0 op (omega arith) i;
        src_a = range_bits-eq x 4 6 a (omega arith) i;
        src_a_reg = test_bit-eq x 10 high10 low11 ar (omega arith) (omega arith) (omega arith) i;
        src_b = range_bits-eq x 4 11 b (omega arith) i;
        src_b_reg = test_bit-eq x 15 high15 low15 br (omega arith) (omega arith) (omega arith) i;
        dest = range_bits-eq x 4 16 d (omega arith) i;
        res_addr = range_bits-eq x 8 20 (h % 256) (omega arith) i;
      }

-- What a reader of the printed instruction should see.
module _ {E : Type 0} (block : Block E) where
  open block use {instr, arg_a, arg_b, arg_c, dest, shift, saturate_disable}

  abbrev pub shown_a : PrintedA
  shown_a = record {
    opcode = instr % 32;
    src_a = arg_a.addr % 16;
    src_a_reg = is_expr arg_a;
    src_b = arg_b.addr % 16;
    src_b_reg = is_expr arg_b;
    src_c = arg_c.addr % 16;
    src_c_reg = is_expr arg_c;
    dest = dest % 16;
    shift = shift % 32;
    sat = not (saturate_disable == 0);
    no_shift = shift == 255;
  }

  abbrev pub shown_b : ℕ → PrintedB
  shown_b handle = record {
    opcode = instr;
    src_a = arg_a.addr % 16;
    src_a_reg = is_expr arg_a;
    src_b = arg_b.addr % 16;
    src_b_reg = is_expr arg_b;
    dest = dest % 16;
    res_addr = handle % 256;
  }

  -- Printing an encoded instruction of format A gives back every field of the block, cut to the
  -- width that the word has for it, with the flags of the operands, of saturation and of shift 255.
  pub print-encode_a :
      print_instruction_format_a (kest_encode_dsp_block_instr_type_a (some block)) ≡ shown_a
  print-encode_a = rw (encode_a-sum block) (
      print-sum_a (instr % 64) _ _ _ _ _ _ _ _ _ _ (omega arith) (omega arith) (omega arith)
        (omega arith) (omega arith) (omega arith)
      ∙ (let e : instr % 64 % 32 ≡ instr % 32 = omega arith in
          λ i. record shown_a { opcode = e i }))

  pub print-encode_b :
      (handle : ℕ)
      → instr < 32
      → print_instruction_format_b (kest_encode_dsp_block_instr_type_b block handle)
        ≡ shown_b handle
  print-encode_b handle h = rw (encode_b-sum block handle h) (
      print-sum_b instr _ _ _ (handle % 4096) _ _ h (omega arith) (omega arith) (omega arith)
      ∙ (let e : handle % 4096 % 256 ≡ handle % 256 = omega arith in
          λ i. record (shown_b handle) { res_addr = e i }))
