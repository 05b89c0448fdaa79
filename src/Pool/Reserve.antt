-- ===== src/Pool/Reserve.antt =====
-- The reserve of a pool of components/core/kest_pool.h.
use native.Mathlib.Nat.{mul-pos}
use kestrel_interface.Prelude.{
  ℕ, zero, suc, ◌+◌, ◌-◌, ◌*◌, ◌%◌, ◌^◌, ◌≤◌, ◌<◌, ◌≡◌, refl, ap, ap₂, ◌∙◌, true, false, some, [],
  ◌∷◌, ◌==◌, arith, length, get_or, replicate,
}
use kestrel_interface.Status.{no_error}
use kestrel_interface.Memory.{Platform, kest_alloc, kest_alloc-granted}
use kestrel_interface.Batch.Contents.{Generous}
use kestrel_interface.Pool.{Pool, indices, pool_reserve, reserve_entries, reserve_buffer}
use kestrel_interface.Pool.Fifo.{free_from, free_entries, IsValid}

length-indices : (n i : ℕ) → length (indices i n) ≡ n
unfolding indices
length-indices zero i = refl
length-indices (suc n) i = ap suc (length-indices n (suc i))

get_or-indices : (n i k : ℕ) → k < n → get_or (indices i n) k 0 ≡ i + k
unfolding indices
get_or-indices zero i k h = ground arith
get_or-indices (suc n) i zero h = omega arith
get_or-indices (suc n) i (suc k) h = get_or-indices n (suc i) k (omega arith) ∙ omega arith

free_from-indices :
    (size n h : ℕ) → h + n ≤ size → free_from size (indices 0 size) h n ≡ indices h n
unfolding free_from indices
free_from-indices size zero h l = refl
free_from-indices size (suc zero) h l =
    ap (λ k. k ∷ []) (get_or-indices size 0 h (omega arith) ∙ omega arith)
free_from-indices size (suc (suc n)) h l =
    ap₂ (λ k ks. k ∷ ks) (get_or-indices size 0 h (omega arith) ∙ omega arith)
      (ap (λ k. free_from size (indices 0 size) k (suc n)) (ground arith)
        ∙ free_from-indices size (suc n) (suc h) (omega arith))

-- With a heap that grants every request, the mutex granted, positive sizes of an entry and of a
-- pointer, and both arrays, with the allocator's own word in front, below 2^32 bytes: reserving a
-- positive number of entries succeeds, and the pool is valid with all entries free, in the order
-- of the array.
pub pool_reserve-free :
    (p : Platform) (x pointer : ℕ) (pool : Pool) (size : ℕ)
    → Generous p
    → 0 < size
    → 0 < x
    → 0 < pointer
    → size * x + p.word < 2 ^ 32
    → size * pointer + p.word < 2 ^ 32
    → (pool' : Pool) × (pool_reserve p x pointer true pool size ≡ (no_error, pool'))
      × IsValid pool'
      × (free_entries pool' ≡ indices 0 size)
unfolding pool_reserve free_entries
pool_reserve-free p x pointer pool size g some_entries some_bytes wide few narrow =
    (fresh, made, valid, free_from-indices size size 0 (omega arith))
  where
    positive : (size == 0) ≡ false
    positive = ground arith

    fresh : Pool
    fresh = record {
      size = size;
      free_count = size;
      obtain_head = 0;
      return_head = size - 1;
      entries = true;
      buffer = some (indices 0 size);
    }

    all_bytes :
        (n : ℕ) → 0 < n → n < 2 ^ 32 → kest_alloc p (n % 2 ^ 32) ≡ some (replicate n p.stale)
    all_bytes n h k = ap (kest_alloc p) (omega arith) ∙ kest_alloc-granted p n h (g (n + p.word))

    made : pool_reserve p x pointer true pool size ≡ (no_error, fresh)
    made = rw positive (
        ap (reserve_entries p pointer pool size)
          (all_bytes (size * x) (mul-pos some_entries some_bytes) (omega arith))
        ∙ ap (reserve_buffer pool size)
            (all_bytes (size * pointer) (mul-pos some_entries wide) (omega arith)))

    valid : IsValid fresh
    valid = record {
      there = refl;
      ring = indices 0 size;
      owns = refl;
      sized = length-indices size 0;
      count = omega arith;
      obtains = some_entries;
      returns = omega arith;
      meets = ground arith;
    }
