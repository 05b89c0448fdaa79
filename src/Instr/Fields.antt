-- ===== src/Instr/Fields.antt =====
-- An instruction word as the sum of its fields.
use native.Mathlib.Nat.{mod-eq_of_lt}
use kestrel_interface.Prelude.{
  ℕ, ◌+◌, ◌*◌, ◌%◌, ◌^◌, ◌<◌, ◌≡◌, refl, Bool, true, false, not, arith, ◌==◌, if◌then◌else◌, some,
}
use kestrel_interface.Prelude.Bits.{mask-bit_and, bit_or_disjoint}
use kestrel_interface.Block.{Block}
use kestrel_interface.Instr.{
  place_bits, is_expr, ◌|||◌, kest_encode_dsp_block_instr_type_a,
  kest_encode_dsp_block_instr_type_b,
}

-- A Boolean as a bit.
abbrev pub bit : Bool → ℕ
bit b = if b then 1 else 0

pub bit-lt : (b : Bool) → bit b < 2
bit-lt true = omega arith
bit-lt false = omega arith

abbrev pub sum_a : (op a ar b br c cr d s sat ns : ℕ) → ℕ
sum_a op a ar b br c cr d s sat ns =
    op
    + a * 2 ^ 6
    + ar * 2 ^ 10
    + b * 2 ^ 11
    + br * 2 ^ 15
    + c * 2 ^ 16
    + cr * 2 ^ 20
    + d * 2 ^ 21
    + s * 2 ^ 25
    + sat * 2 ^ 30
    + ns * 2 ^ 31

or-sum_a :
    (op a ar b br c cr d s sat ns : ℕ)
    → op < 64
    → a < 16
    → ar < 2
    → b < 16
    → br < 2
    → c < 16
    → cr < 2
    → d < 16
    → s < 32
    → sat < 2
    → (op
        ||| a * 2 ^ 6
        ||| ar * 2 ^ 10
        ||| b * 2 ^ 11
        ||| br * 2 ^ 15
        ||| c * 2 ^ 16
        ||| cr * 2 ^ 20
        ||| d * 2 ^ 21
        ||| s * 2 ^ 25
        ||| sat * 2 ^ 30
        ||| ns * 2 ^ 31)
      ≡ sum_a op a ar b br c cr d s sat ns
or-sum_a op a ar b br c cr d s sat ns h0 h1 h2 h3 h4 h5 h6 h7 h8 h9 =
    let w1 : ℕ = op + a * 2 ^ 6 in
    let w2 : ℕ = w1 + ar * 2 ^ 10 in
    let w3 : ℕ = w2 + b * 2 ^ 11 in
    let w4 : ℕ = w3 + br * 2 ^ 15 in
    let w5 : ℕ = w4 + c * 2 ^ 16 in
    let w6 : ℕ = w5 + cr * 2 ^ 20 in
    let w7 : ℕ = w6 + d * 2 ^ 21 in
    let w8 : ℕ = w7 + s * 2 ^ 25 in
    let w9 : ℕ = w8 + sat * 2 ^ 30 in
    rw
      (
        bit_or_disjoint 6 op a (omega arith),
        bit_or_disjoint 10 w1 ar (omega arith),
        bit_or_disjoint 11 w2 b (omega arith),
        bit_or_disjoint 15 w3 br (omega arith),
        bit_or_disjoint 16 w4 c (omega arith),
        bit_or_disjoint 20 w5 cr (omega arith),
        bit_or_disjoint 21 w6 d (omega arith),
        bit_or_disjoint 25 w7 s (omega arith),
        bit_or_disjoint 30 w8 sat (omega arith),
        bit_or_disjoint 31 w9 ns (omega arith),
      )
      refl

abbrev pub sum_b : (op a ar b br d h : ℕ) → ℕ
sum_b op a ar b br d h =
    op + 1 * 2 ^ 5 + a * 2 ^ 6 + ar * 2 ^ 10 + b * 2 ^ 11 + br * 2 ^ 15 + d * 2 ^ 16 + h * 2 ^ 20

or-sum_b :
    (op a ar b br d h : ℕ)
    → op < 32
    → a < 16
    → ar < 2
    → b < 16
    → br < 2
    → d < 16
    → (op
        ||| 1 * 2 ^ 5
        ||| a * 2 ^ 6
        ||| ar * 2 ^ 10
        ||| b * 2 ^ 11
        ||| br * 2 ^ 15
        ||| d * 2 ^ 16
        ||| h * 2 ^ 20)
      ≡ sum_b op a ar b br d h
or-sum_b op a ar b br d h h0 h1 h2 h3 h4 h5 =
    let w1 : ℕ = op + 1 * 2 ^ 5 in
    let w2 : ℕ = w1 + a * 2 ^ 6 in
    let w3 : ℕ = w2 + ar * 2 ^ 10 in
    let w4 : ℕ = w3 + b * 2 ^ 11 in
    let w5 : ℕ = w4 + br * 2 ^ 15 in
    let w6 : ℕ = w5 + d * 2 ^ 16 in
    rw
      (
        bit_or_disjoint 5 op 1 (omega arith),
        bit_or_disjoint 6 w1 a (omega arith),
        bit_or_disjoint 10 w2 ar (omega arith),
        bit_or_disjoint 11 w3 b (omega arith),
        bit_or_disjoint 15 w4 br (omega arith),
        bit_or_disjoint 16 w5 d (omega arith),
        bit_or_disjoint 20 w6 h (omega arith),
      )
      refl

place_bits_at_0 : (v : ℕ) → place_bits 5 0 v ≡ v % 2 ^ 6
place_bits_at_0 v = omega (arith, mask-bit_and 6 (v % 2 ^ 32))

place_bits_at_6 : (v : ℕ) → place_bits 9 6 v ≡ v % 2 ^ 4 * 2 ^ 6
place_bits_at_6 v = omega (arith, mask-bit_and 4 (v % 2 ^ 32))

place_bits_at_11 : (v : ℕ) → place_bits 14 11 v ≡ v % 2 ^ 4 * 2 ^ 11
place_bits_at_11 v = omega (arith, mask-bit_and 4 (v % 2 ^ 32))

place_bits_at_16 : (v : ℕ) → place_bits 19 16 v ≡ v % 2 ^ 4 * 2 ^ 16
place_bits_at_16 v = omega (arith, mask-bit_and 4 (v % 2 ^ 32))

place_bits_at_21 : (v : ℕ) → place_bits 24 21 v ≡ v % 2 ^ 4 * 2 ^ 21
place_bits_at_21 v = omega (arith, mask-bit_and 4 (v % 2 ^ 32))

place_bits_at_25 : (v : ℕ) → place_bits 29 25 v ≡ v % 2 ^ 5 * 2 ^ 25
place_bits_at_25 v = omega (arith, mask-bit_and 5 (v % 2 ^ 32))

place_bits_at_20 : (v : ℕ) → place_bits 31 20 v ≡ v % 2 ^ 12 * 2 ^ 20
place_bits_at_20 v = omega (arith, mask-bit_and 12 (v % 2 ^ 32))

module _ {E : Type 0} (block : Block E) where
  open block use {instr, arg_a, arg_b, arg_c, dest, shift, saturate_disable}

  pub encode_a-sum :
      kest_encode_dsp_block_instr_type_a (some block)
      ≡ sum_a
          (instr % 64)
          (arg_a.addr % 16)
          (bit (is_expr arg_a))
          (arg_b.addr % 16)
          (bit (is_expr arg_b))
          (arg_c.addr % 16)
          (bit (is_expr arg_c))
          (dest % 16)
          (shift % 32)
          (bit (not (saturate_disable == 0)))
          (bit (shift == 255))
  unfolding kest_encode_dsp_block_instr_type_a
  encode_a-sum =
      rw
        (
          place_bits_at_0 instr,
          place_bits_at_6 arg_a.addr,
          place_bits_at_11 arg_b.addr,
          place_bits_at_16 arg_c.addr,
          place_bits_at_21 dest,
          place_bits_at_25 shift,
        )
        (or-sum_a _ _ _ _ _ _ _ _ _ _ _ (omega arith) (omega arith) (bit-lt (is_expr arg_a))
          (omega arith) (bit-lt (is_expr arg_b)) (omega arith) (bit-lt (is_expr arg_c))
          (omega arith) (omega arith) (bit-lt (not (saturate_disable == 0))))

  pub encode_b-sum :
      (handle : ℕ)
      → instr < 32
      → kest_encode_dsp_block_instr_type_b block handle
        ≡ sum_b instr
            (arg_a.addr % 16)
            (bit (is_expr arg_a))
            (arg_b.addr % 16)
            (bit (is_expr arg_b))
            (dest % 16)
            (handle % 4096)
  unfolding kest_encode_dsp_block_instr_type_b
  encode_b-sum handle h =
      rw
        (
          place_bits_at_0 instr,
          place_bits_at_6 arg_a.addr,
          place_bits_at_11 arg_b.addr,
          place_bits_at_16 dest,
          place_bits_at_20 handle,
          mod-eq_of_lt {n = instr} {m = 64} (omega arith),
        )
        (or-sum_b _ _ _ _ _ _ _ h (omega arith) (bit-lt (is_expr arg_a)) (omega arith)
          (bit-lt (is_expr arg_b)) (omega arith))
