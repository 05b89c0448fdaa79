-- ===== src/Fixed.antt =====
-- components/fpga/kest_fixed_point.c: reals as fixed-point words. C's `float` is a parameter.
use kestrel_interface.Prelude.{
  ℕ, ◌-◌, ◌^◌, Bool, true, false, ◌||◌, Option, none, some, ltb, if◌then◌else◌, bit_and,
}
use kestrel_interface.Prelude.Int.{ℤ, pos, negsuc, to_word}
use kestrel_interface.Status.{no_error, err_bad_args, err_value_out_of_bounds}
use kestrel_interface.Block.{NumericOverflow, NumericFormat, saturate, reject}

-- The float operations of the compiler and of <math.h> that the code calls.
pub record Floats : Type 1 where
  pub Float : Type 0
  pub of_ℕ : ℕ → Float
  pub neg : Float → Float
  pub sub : Float → Float → Float
  pub mul : Float → Float → Float
  pub div : Float → Float → Float
  pub ldexp : Float → ℕ → Float
  pub lt : Float → Float → Bool
  pub is_nan : Float → Bool
  pub fmin : Float → Float → Float
  pub fmax : Float → Float → Float
  pub rint : Float → ℤ
  -- `powf(10, dB / 20.0)`
  pub db_to_gain : Float → Float

abbrev is_reject : NumericOverflow → Bool
is_reject saturate = false
is_reject reject = true

module _ (fl : Floats) where
  open fl use {Float, of_ℕ, neg, sub, mul, div, ldexp, lt, is_nan, fmin, fmax, rint}

  -- Code and the two bounds, which are written only with NO_ERROR. `overflow` has no value
  -- beyond KEST_NUMERIC_REJECT.
  unfoldable pub kest_numeric_format_bounds : NumericFormat → ℕ → ℕ × Option (Float × Float)
  kest_numeric_format_bounds format width =
      let magnitude_bits = if format.is_unsigned then width else width - 1 in
      let scale = ldexp (of_ℕ 1) format.fractional_bits in
      if ltb width 1 || (ltb 24 width || ltb magnitude_bits format.fractional_bits)
      then (err_bad_args, none)
      else (
        no_error,
        some (
          if format.is_unsigned then of_ℕ 0 else div (neg (ldexp (of_ℕ 1) magnitude_bits)) scale,
          div (sub (ldexp (of_ℕ 1) magnitude_bits) (of_ℕ 1)) scale,
        ),
      )

  -- `(uint32_t)llrintf(...) & mask`
  abbrev pub round_to_word : Float → ℕ → ℕ → ℕ
  round_to_word value fraction width =
      bit_and (2 ^ width - 1) (to_word 32 (rint (ldexp value fraction)))

  encode_between : Float → NumericFormat → ℕ → Float → Float → ℕ × Option ℕ
  encode_between value format width minimum maximum =
      if is_nan value
      then (err_value_out_of_bounds, none)
      else if lt value minimum || lt maximum value
      then (if is_reject format.overflow then (err_value_out_of_bounds, none) else (
        no_error,
        some (round_to_word (fmin maximum (fmax minimum value)) format.fractional_bits width),
      ))
      else (no_error, some (round_to_word value format.fractional_bits width))

  -- Code and the word, which is written only with NO_ERROR.
  unfoldable pub kest_encode_numeric : Float → NumericFormat → ℕ → ℕ × Option ℕ
  unfolding encode_between
  kest_encode_numeric value format width =
      let (result, bounds) = kest_numeric_format_bounds format width in
      elim bounds [
        | none ↦ (result, none)
        | some (minimum, maximum) ↦ encode_between value format width minimum maximum
      ]

  -- `if (x > max) x = max; if (x < min) x = min;`
  clip : Float → Float → Float → Float
  clip x low high = let x' = if lt high x then high else x in if lt x' low then low else x'

  -- 18 bits, KEST_FPGA_FILTER_WIDTH; `shift` is an `int`.
  unfoldable pub float_to_q_nminus1_filter_width : Float → ℤ → ℤ
  unfolding clip
  float_to_q_nminus1_filter_width x (negsuc k) = pos 0
  float_to_q_nminus1_filter_width x (pos shift) =
      let scale = ldexp (of_ℕ 1) (17 - shift) in
      if ltb 17 shift
      then pos 0
      else rint
          (mul (clip x (div (neg (of_ℕ (2 ^ 17))) scale) (div (of_ℕ (2 ^ 17 - 1)) scale)) scale)

  -- 16 bits, KEST_FPGA_DATA_WIDTH.
  unfoldable pub float_to_q_nminus1 : Float → ℤ → ℤ
  unfolding clip
  float_to_q_nminus1 x (negsuc k) = pos 0
  float_to_q_nminus1 x (pos shift) =
      let scale = of_ℕ (2 ^ (15 - shift)) in
      if ltb 15 shift
      then pos 0
      else rint
          (mul (clip x (div (neg (of_ℕ (2 ^ 15))) scale) (div (of_ℕ (2 ^ 15 - 1)) scale)) scale)
