-- ===== src/Batch/Contents.antt =====
-- The bytes of a batch of components/fpga/kest_fpga_io.c, and its validity, under the appends.
use kestrel_interface.Prelude.{
  ℕ, suc, ◌+◌, ◌*◌, ◌/◌, ◌%◌, ◌^◌, ◌≤◌, ◌<◌, ◌≡◌, refl, ap, sym, subst, ◌∙◌, ◌⊎◌, inl, inr, true,
  false, Option, none, some, List, [], ◌∷◌, ◌++◌, arith, leb, length, set, take, length-set,
  take-set, Bool-cases, append_assoc, append-nil, take_all,
}
use kestrel_interface.Prelude.Int.{pos}
use kestrel_interface.Prelude.Bits.{mask-bit_and}
use kestrel_interface.Status.{no_error, err_alloc_fail}
use kestrel_interface.Memory.{Platform, kest_realloc-cases}
use kestrel_interface.Batch.{
  TransferBatch, Result, blit, range_bits, grow, append_byte, copy_bytes, kest_fpga_batch_append,
  kest_fpga_batch_append_bytes, kest_fpga_batch_append_16, kest_fpga_batch_append_24,
  kest_fpga_batch_append_32,
}
use kestrel_interface.Batch.Size.{need-le-grow, size-le-grow}

abbrev pub held : Option (List ℕ) → List ℕ
held none = []
held (some block) = block

-- The bytes that the batch stands for.
abbrev pub contents : TransferBatch → List ℕ
contents b = take b.len (held b.buf)

pub record IsValid (b : TransferBatch) : Type 0 where
  pub owns : (block : List ℕ) × (b.buf ≡ some block)
  pub sized : length (held b.buf) ≡ b.buf_len
  pub positive : 0 < b.buf_len
  pub fits : b.len ≤ b.buf_len

abbrev pub Generous : Platform → Type 0
Generous p = (n : ℕ) → p.grants n ≡ true

-- The call adds exactly `xs`.
abbrev pub Appends : TransferBatch → List ℕ → Result → Type 0
Appends b xs r =
    (b' : TransferBatch) × (r ≡ (no_error, some b')) × IsValid b' × (contents b' ≡ contents b ++ xs)

-- It does, or the heap refused some size and the batch is as it was.
abbrev pub Appended : Platform → TransferBatch → List ℕ → Result → Type 0
Appended p b xs r =
    Appends b xs r ⊎ ((r ≡ (err_alloc_fail, some b)) × ((n : ℕ) × (p.grants n ≡ false)))

pub length-blit : (buf : List ℕ) (i : ℕ) (xs : List ℕ) → length (blit buf i xs) ≡ length buf
length-blit buf i [] = refl
length-blit buf i (x ∷ xs) = length-blit (set buf i x) (suc i) xs ∙ length-set buf i x

pub take-blit :
    (buf : List ℕ) (i n : ℕ) (xs : List ℕ)
    → i + length xs ≡ n
    → n ≤ length buf
    → take n (blit buf i xs) ≡ take i buf ++ xs
take-blit buf i n [] e h = ap (λ k. take k buf) (omega arith) ∙ sym (append-nil (take i buf))
take-blit buf i n (x ∷ xs) e h =
    take-blit (set buf i x) (suc i) n xs (omega arith) (omega (arith, length-set buf i x))
    ∙ ap (λ ys. ys ++ xs) (take-set i buf x (omega arith))
    ∙ append_assoc (take i buf) (x ∷ []) xs

-- Writing into a block that keeps the old bytes and has the room.
pub store-Appends :
    (b : TransferBatch) (old block xs : List ℕ) (size : ℕ)
    → b.buf ≡ some old
    → length block ≡ size
    → 0 < size
    → b.len + length xs ≤ size
    → take b.len block ≡ take b.len old
    → Appends b xs (
      no_error,
      some (record b { buf = some (blit block b.len xs); len = b.len + length xs; buf_len = size }),
    )
store-Appends b old block xs size e l some_room room keeps = (
  record b { buf = some (blit block b.len xs); len = b.len + length xs; buf_len = size },
  refl,
  record {
    owns = (blit block b.len xs, refl);
    sized = length-blit block b.len xs ∙ l;
    positive = some_room;
    fits = room;
  },
  take-blit block b.len (b.len + length xs) xs refl (omega arith)
      ∙ ap (λ ys. ys ++ xs) (rw (e, keeps)),
)

append_byte-Appended :
    (p : Platform) (b : TransferBatch) (block : List ℕ) (x : ℕ)
    → b.buf ≡ some block
    → length block ≡ b.buf_len
    → 0 < b.buf_len
    → b.len ≤ b.buf_len
    → Appended p b (x ∷ []) (append_byte p b (some block) x)
unfolding append_byte
append_byte-Appended p b block x e l some_room fits = elim (Bool-cases (leb b.buf_len b.len)) [
  | inl full ↦
      rw full (elim (kest_realloc-cases p block (b.buf_len * 2) (omega arith) (omega arith)) [
        | inl (refused, n) ↦ rw refused (inr (refl, (b.buf_len * 2 + p.word, n)))
        | inr (new, got, l', keeps) ↦ rw got (
            inl (
              store-Appends b block new (x ∷ []) (b.buf_len * 2) e l' (omega arith) (omega arith)
                (keeps b.len (omega arith))))
      ])
  | inr room ↦
      rw room
        (inl (store-Appends b block block (x ∷ []) b.buf_len e l some_room (ground arith) refl))
]

copy_bytes-Appended :
    (p : Platform) (b : TransferBatch) (block x : List ℕ)
    → b.buf ≡ some block
    → length block ≡ b.buf_len
    → 0 < b.buf_len
    → b.len ≤ b.buf_len
    → Appended p b x (copy_bytes p b (some block) x (length x))
unfolding copy_bytes
copy_bytes-Appended p b block x e l some_room fits =
    let need = b.len + length x in
    let size = grow need (b.buf_len * 2) need in
    let enough = need-le-grow need (b.buf_len * 2) need (omega arith) (omega arith) in
    let wider = size-le-grow need (b.buf_len * 2) need in
    elim (Bool-cases (leb b.buf_len (b.len + length x))) [
      | inl full ↦ rw full (elim (kest_realloc-cases p block size (omega arith) (omega arith)) [
        | inl (refused, m) ↦ rw refused (inr (refl, (size + p.word, m)))
        | inr (new, got, l', keeps) ↦
            rw (got, take_all (length x) x (omega arith))
              (inl (
                store-Appends b block new x size e l' (omega arith) (omega arith)
                  (keeps b.len (omega arith))))
      ])
      | inr room ↦
          rw (room, take_all (length x) x (omega arith))
            (inl (store-Appends b block block x b.buf_len e l some_room (ground arith) refl))
    ]

-- `append` on a valid batch adds the byte and keeps the batch valid, or reports the heap's refusal
-- and leaves the batch as it was.
pub kest_fpga_batch_append-Appended :
    (p : Platform) (b : TransferBatch) (x : ℕ)
    → IsValid b
    → Appended p b (x ∷ []) (kest_fpga_batch_append p x (some b))
unfolding kest_fpga_batch_append
kest_fpga_batch_append-Appended p b x v =
    subst (λ o. Appended p b (x ∷ []) (append_byte p b o x)) (sym e)
      (append_byte-Appended p b block x e (omega (arith, ap (λ o. length (held o)) e)) v.positive
        v.fits)
  where
    open v use {owns}

    block : List ℕ
    block = owns.0

    e : b.buf ≡ some block
    e = owns.1

-- `append_bytes` of one or more bytes on a valid batch adds them all and keeps the batch valid, or
-- reports the heap's refusal and leaves the batch as it was.
pub append_bytes-Appended :
    (p : Platform) (b : TransferBatch) (x : ℕ) (xs : List ℕ)
    → IsValid b
    → Appended p b
        (x ∷ xs)
        (kest_fpga_batch_append_bytes p (some (x ∷ xs)) (pos (length (x ∷ xs))) (some b))
unfolding kest_fpga_batch_append_bytes
append_bytes-Appended p b x xs v =
    subst (λ o. Appended p b (x ∷ xs) (copy_bytes p b o (x ∷ xs) (suc (length xs)))) (sym e)
      (copy_bytes-Appended p b block (x ∷ xs) e (omega (arith, ap (λ o. length (held o)) e))
        v.positive v.fits)
  where
    open v use {owns}

    block : List ℕ
    block = owns.0

    e : b.buf ≡ some block
    e = owns.1

-- Bytes of a word, most significant first.
abbrev pub byte : ℕ → ℕ → ℕ
byte x k = x / 2 ^ k % 2 ^ 8

abbrev pub be16 : ℕ → List ℕ
be16 x = byte x 8 ∷ byte x 0 ∷ []

abbrev pub be24 : ℕ → List ℕ
be24 x = byte x 16 ∷ byte x 8 ∷ byte x 0 ∷ []

abbrev pub be32 : ℕ → List ℕ
be32 x = byte x 24 ∷ byte x 16 ∷ byte x 8 ∷ byte x 0 ∷ []

range_bits-eq : (x k : ℕ) → range_bits x 8 k ≡ byte x k
range_bits-eq x k = mask-bit_and 8 (x / 2 ^ k)

-- With a heap that grants every request, an append is never refused.
pub Generous-Appends :
    (p : Platform) (b : TransferBatch) (xs : List ℕ) {r : Result}
    → Generous p
    → Appended p b xs r
    → Appends b xs r
Generous-Appends p b xs g (inl done) = done
Generous-Appends p b xs g (inr (e, (n, refused))) = cc (g n)

module _ (p : Platform) (b : TransferBatch) (v : IsValid b) where
  -- The appends of words put the bytes most significant first.
  pub append_16-Appended : (x : ℕ) → Appended p b (be16 x) (kest_fpga_batch_append_16 p x (some b))
  unfolding kest_fpga_batch_append_16
  append_16-Appended x =
      subst (λ ys. Appended p b ys (kest_fpga_batch_append_16 p x (some b)))
        (rw (range_bits-eq x 8, range_bits-eq x 0)) (append_bytes-Appended p b _ _ v)

  pub append_24-Appended : (x : ℕ) → Appended p b (be24 x) (kest_fpga_batch_append_24 p x (some b))
  unfolding kest_fpga_batch_append_24
  append_24-Appended x =
      subst (λ ys. Appended p b ys (kest_fpga_batch_append_24 p x (some b)))
        (rw (range_bits-eq x 16, range_bits-eq x 8, range_bits-eq x 0))
        (append_bytes-Appended p b _ _ v)

  pub append_32-Appended : (x : ℕ) → Appended p b (be32 x) (kest_fpga_batch_append_32 p x (some b))
  unfolding kest_fpga_batch_append_32
  append_32-Appended x =
      subst (λ ys. Appended p b ys (kest_fpga_batch_append_32 p x (some b)))
        (rw (range_bits-eq x 24, range_bits-eq x 16, range_bits-eq x 8, range_bits-eq x 0))
        (append_bytes-Appended p b _ _ v)
