-- ===== src/Batch/Concat.antt =====
-- kest_fpga_batch_concat of components/fpga/kest_fpga_io.c, for two batches that are not the same,
-- of which the second has its length within its buffer.
use kestrel_interface.Prelude.{
  ℕ, ◌+◌, ◌≤◌, ◌<◌, ◌≡◌, refl, sym, ap, subst, inl, inr, Option, none, some, List, arith,
  Bool-cases, if◌then◌else◌, ltb, take, length,
}
use kestrel_interface.Status.{no_error, err_null_ptr, err_bad_args, err_alloc_fail}
use kestrel_interface.Memory.{Platform, kest_alloc, kest_realloc, kest_realloc-cases}
use kestrel_interface.Batch.{TransferBatch, Result, blit, grow}
use kestrel_interface.Batch.Size.{need-le-grow, size-le-grow}
use kestrel_interface.Batch.Contents.{held, contents, IsValid, Appended, store-Appends}

module _ (p : Platform) where
  -- The loop that copies, and the new length.
  abbrev put : TransferBatch → List ℕ → List ℕ → Result
  put seq block xs = (
    no_error,
    some (record seq { buf = some (blit block seq.len xs); len = seq.len + length xs }),
  )

  concat_bytes : TransferBatch → Option (List ℕ) → List ℕ → Result
  concat_bytes seq none xs = elim (kest_alloc p (length xs)) [
    | none ↦ (err_alloc_fail, some seq)
    | some b ↦ put (record seq { buf_len = length xs; len = 0 }) b xs
  ]
  concat_bytes seq (some block) xs =
      if ltb seq.buf_len (seq.len + length xs)
      then (let size = grow (seq.len + length xs) seq.buf_len (seq.len + length xs) in
          elim (kest_realloc p (some block) size) [
            | none ↦ (err_alloc_fail, some seq)
            | some b ↦ put (record seq { buf_len = size }) b xs
          ])
      else put seq block xs

  concat_from : TransferBatch → TransferBatch → Option (List ℕ) → Result
  unfolding concat_bytes
  concat_from seq seq2 none = (err_bad_args, some seq)
  concat_from seq seq2 (some block) = concat_bytes seq seq.buf (take seq2.len block)

  unfoldable pub kest_fpga_batch_concat : Option TransferBatch → Option TransferBatch → Result
  unfolding concat_from
  kest_fpga_batch_concat none seq2 = (err_null_ptr, none)
  kest_fpga_batch_concat (some seq) none = (err_null_ptr, some seq)
  kest_fpga_batch_concat (some seq) (some seq2) = concat_from seq seq2 seq2.buf

  concat_bytes-Appended :
      (b : TransferBatch) (block xs : List ℕ)
      → b.buf ≡ some block
      → length block ≡ b.buf_len
      → 0 < b.buf_len
      → b.len ≤ b.buf_len
      → Appended p b xs (concat_bytes b (some block) xs)
  unfolding concat_bytes
  concat_bytes-Appended b block xs e l some_room fits =
      let need = b.len + length xs in
      let size = grow need b.buf_len need in
      let enough = need-le-grow need b.buf_len need some_room (omega arith) in
      let wider = size-le-grow need b.buf_len need in
      elim (Bool-cases (ltb b.buf_len (b.len + length xs))) [
        | inl full ↦ rw full (elim (kest_realloc-cases p block size (omega arith) (omega arith)) [
          | inl (refused, m) ↦ rw refused (inr (refl, (size + p.word, m)))
          | inr (new, got, l', keeps) ↦ rw got (
              inl (
                store-Appends b block new xs size e l' (omega arith) (omega arith)
                  (keeps b.len (omega arith))))
        ])
        | inr room ↦
            rw room
              (inl (store-Appends b block block xs b.buf_len e l some_room (ground arith) refl))
      ]

  -- Appending a valid batch to a valid batch adds the bytes of the one to the other and keeps it
  -- valid, or reports the heap's refusal and leaves it as it was.
  pub kest_fpga_batch_concat-Appended :
      (b c : TransferBatch)
      → IsValid b
      → IsValid c
      → Appended p b (contents c) (kest_fpga_batch_concat (some b) (some c))
  unfolding kest_fpga_batch_concat
  kest_fpga_batch_concat-Appended b c v w =
      subst (λ o. Appended p b (take c.len (held o)) (concat_from b c o)) (sym w.owns.1)
        (subst (λ o. Appended p b (take c.len w.owns.0) (concat_bytes b o (take c.len w.owns.0)))
          (sym v.owns.1)
          (concat_bytes-Appended b v.owns.0 (take c.len w.owns.0) v.owns.1
            (omega (arith, ap (λ o. length (held o)) v.owns.1, v.sized)) v.positive v.fits))
