-- ===== src/Batch.antt =====
-- The transfer batches of components/fpga/kest_fpga_io.c: bytes on their way to the FPGA.
-- A function takes the batch pointer (`none` is NULL) and returns its code and the batch behind
-- the pointer. The `int` fields stay far below 2^31: a program has at most 256 blocks.
pub mod Size
pub mod Contents
pub mod Concat
use kestrel_interface.Prelude.{
  ℕ, zero, suc, ◌+◌, ◌*◌, ◌/◌, ◌%◌, ◌^◌, ◌-◌, Bool, false, true, Option, none, some, List, [], ◌∷◌,
  ltb, leb, ◌==◌, if◌then◌else◌, set, take, replicate, bit_and,
}
use kestrel_interface.Prelude.Int.{ℤ, pos, negsuc}
use kestrel_interface.Status.{no_error, err_null_ptr, err_bad_args, err_alloc_fail}
use kestrel_interface.Memory.{Platform, kest_alloc, kest_realloc}

-- `buf` is the block behind the pointer, all `buf_len` bytes of it.
pub record TransferBatch : Type 0 where
  pub len : ℕ
  pub buf : Option (List ℕ)
  pub buf_len : ℕ
  pub buffer_owned : Bool

abbrev pub Result : Type 0
Result = ℕ × Option TransferBatch

abbrev pub Action : Type 0
Action = Option TransferBatch → Result

-- `if ((ret_val = first) != NO_ERROR) break;` before what follows.
abbrev pub and_then : Result → Action → Result
and_then (code, b) next = if code == no_error then next b else (code, b)

infixl 5 ◌>>◌
abbrev pub ◌>>◌ : Action → Action → Action
(first >> next) b = and_then (first b) next

-- `memcpy` to `buf + i`.
abbrev pub blit : List ℕ → ℕ → List ℕ → List ℕ
blit buf i [] = buf
blit buf i (x ∷ xs) = blit (set buf i x) (suc i) xs

-- `range_bits(x, n, start)`
abbrev pub range_bits : ℕ → ℕ → ℕ → ℕ
range_bits x n start = bit_and (2 ^ n - 1) (x / 2 ^ start)

-- The loop of `append_bytes`, on fuel.
unfoldable pub grow : ℕ → ℕ → ℕ → ℕ
grow zero size need = size
grow (suc fuel) size need =
    let doubled = grow fuel (size * 2) need in if ltb size need then doubled else size

module _ (p : Platform) where
  -- sizeof(uint32_t) * KEST_FPGA_N_BLOCKS bytes at first
  unfoldable pub kest_fpga_transfer_batch_init : Action
  kest_fpga_transfer_batch_init none = (err_null_ptr, none)
  kest_fpga_transfer_batch_init (some seq) = elim (kest_alloc p 1024) [
    | none ↦
        (err_alloc_fail, some (record { len = 0; buf = none; buf_len = 0; buffer_owned = false }))
    | some b ↦
        (no_error, some (record { len = 0; buf = some b; buf_len = 1024; buffer_owned = false }))
  ]

  unfoldable pub kest_fpga_batch_drain : Action
  kest_fpga_batch_drain none = (err_null_ptr, none)
  kest_fpga_batch_drain (some seq) = (no_error, some (record seq { len = 0 }))

  -- `seq->buf[seq->len++] = x`
  abbrev store_byte : TransferBatch → List ℕ → ℕ → Result
  store_byte seq block x =
      (no_error, some (record seq { buf = some (set block seq.len x); len = seq.len + 1 }))

  append_byte : TransferBatch → Option (List ℕ) → ℕ → Result
  append_byte seq none x = (err_bad_args, some seq)
  append_byte seq (some block) x =
      if leb seq.buf_len seq.len
      then elim (kest_realloc p (some block) (seq.buf_len * 2)) [
        | none ↦ (err_alloc_fail, some seq)
        | some b ↦ store_byte (record seq { buf_len = seq.buf_len * 2 }) b x
      ]
      else store_byte seq block x

  unfoldable pub kest_fpga_batch_append : ℕ → Action
  unfolding append_byte
  kest_fpga_batch_append x none = (err_null_ptr, none)
  kest_fpga_batch_append x (some seq) = append_byte seq seq.buf x

  abbrev store_bytes : TransferBatch → List ℕ → List ℕ → ℕ → Result
  store_bytes seq block x n = (
    no_error,
    some (record seq { buf = some (blit block seq.len (take n x)); len = seq.len + n }),
  )

  -- `realloc` of a NULL buffer is an `alloc`; `memcpy` to NULL is the case that
  -- `append_bytes` does not test for when no growth is needed.
  copy_bytes : TransferBatch → Option (List ℕ) → List ℕ → ℕ → Result
  copy_bytes seq buf x n =
      if leb seq.buf_len (seq.len + n)
      then (let size = grow (seq.len + n) (seq.buf_len * 2) (seq.len + n) in
          elim (kest_realloc p buf size) [
            | none ↦ (err_alloc_fail, some seq)
            | some b ↦ store_bytes (record seq { buf_len = size }) b x n
          ])
      else (elim buf [
        | none ↦ (no_error, some (record seq { len = seq.len + n }))
        | some block ↦ store_bytes seq block x n
      ])

  -- `x` is a pointer, and `n` an `int`.
  unfoldable pub kest_fpga_batch_append_bytes : Option (List ℕ) → ℤ → Action
  unfolding copy_bytes grow
  kest_fpga_batch_append_bytes x n none = (err_null_ptr, none)
  kest_fpga_batch_append_bytes x (negsuc n) (some seq) = (err_bad_args, some seq)
  kest_fpga_batch_append_bytes x (pos zero) (some seq) = (no_error, some seq)
  kest_fpga_batch_append_bytes none (pos (suc n)) (some seq) = (err_bad_args, some seq)
  kest_fpga_batch_append_bytes (some x) (pos (suc n)) (some seq) = copy_bytes seq seq.buf x (suc n)

  unfoldable pub kest_fpga_batch_append_16 : ℕ → Action
  kest_fpga_batch_append_16 x none = (err_null_ptr, none)
  kest_fpga_batch_append_16 x (some seq) =
      kest_fpga_batch_append_bytes (some (range_bits x 8 8 ∷ range_bits x 8 0 ∷ [])) (pos 2)
        (some seq)

  unfoldable pub kest_fpga_batch_append_24 : ℕ → Action
  kest_fpga_batch_append_24 x none = (err_null_ptr, none)
  kest_fpga_batch_append_24 x (some seq) =
      kest_fpga_batch_append_bytes
        (some (range_bits x 8 16 ∷ range_bits x 8 8 ∷ range_bits x 8 0 ∷ [])) (pos 3) (some seq)

  unfoldable pub kest_fpga_batch_append_32 : ℕ → Action
  kest_fpga_batch_append_32 x none = (err_null_ptr, none)
  kest_fpga_batch_append_32 x (some seq) =
      kest_fpga_batch_append_bytes
        (some (range_bits x 8 24 ∷ range_bits x 8 16 ∷ range_bits x 8 8 ∷ range_bits x 8 0 ∷ []))
        (pos 4) (some seq)

  -- `int & 0xFFFF`; the code is not passed on.
  unfoldable pub kest_fpga_batch_append_block_number : ℕ → Action
  kest_fpga_batch_append_block_number block b =
      (no_error, (kest_fpga_batch_append_16 (bit_and 0xffff block) b).1)
