-- ===== src/Pool.antt =====
-- The pools of components/core/kest_pool.h: a ring of the free entries. An entry is its index, and
-- what an entry holds is left out. `locks` says whether the mutex is granted. A `size_t` has 32 bits,
-- as on the device.
pub mod Fifo
pub mod Reserve
use kestrel_interface.Prelude.{
  ℕ, zero, suc, ◌+◌, ◌-◌, ◌*◌, ◌%◌, ◌^◌, Bool, true, false, Option, none, some, List, [], ◌∷◌, ◌==◌,
  if◌then◌else◌, set, get_or,
}
use kestrel_interface.Status.{
  no_error, err_null_ptr, err_bad_args, err_alloc_fail, err_mutex_unavailable,
}
use kestrel_interface.Memory.{Platform, kest_alloc}

-- `entries` says whether the array is there; `buffer` is the ring of `size` pointers.
pub record Pool : Type 0 where
  pub size : ℕ
  pub free_count : ℕ
  pub obtain_head : ℕ
  pub return_head : ℕ
  pub entries : Bool
  pub buffer : Option (List ℕ)

unfoldable pub pool_init : Bool → Option Pool → ℕ × Option Pool
pool_init mutex none = (err_null_ptr, none)
pool_init mutex (some pool) = (
  if mutex then no_error else err_mutex_unavailable,
  some (record {
    size = 0;
    free_count = 0;
    obtain_head = 0;
    return_head = 0;
    entries = false;
    buffer = none;
  }),
)

-- `buffer[i] = &entries[i]`, from number `i` on.
unfoldable pub indices : ℕ → ℕ → List ℕ
indices i zero = []
indices i (suc n) = i ∷ indices (suc i) n

reserve_buffer : Pool → ℕ → Option (List ℕ) → ℕ × Pool
reserve_buffer pool size none = (err_alloc_fail, record pool { entries = false; buffer = none })
reserve_buffer pool size (some block) = (
  no_error,
  record {
    size = size;
    free_count = size;
    obtain_head = 0;
    return_head = size - 1;
    entries = true;
    buffer = some (indices 0 size);
  },
)

reserve_entries : Platform → ℕ → Pool → ℕ → Option (List ℕ) → ℕ × Pool
reserve_entries p pointer pool size none = (err_alloc_fail, record pool { entries = false })
reserve_entries p pointer pool size (some block) =
    reserve_buffer pool size (kest_alloc p (size * pointer % 2 ^ 32))

-- `x` and `pointer` are the sizes of an entry and of a pointer; the sizes in bytes wrap.
unfoldable pub pool_reserve : Platform → (x pointer : ℕ) → Bool → Pool → ℕ → ℕ × Pool
unfolding reserve_entries reserve_buffer indices
pool_reserve p x pointer false pool size = (err_mutex_unavailable, pool)
pool_reserve p x pointer true pool size =
    if size == 0
    then (
      no_error,
      record {
        size = 0;
        free_count = 0;
        obtain_head = 0;
        return_head = 0;
        entries = false;
        buffer = none;
      },
    )
    else reserve_entries p pointer pool size (kest_alloc p (size * x % 2 ^ 32))

obtain_from : Bool → Bool → Option (List ℕ) → Pool → Option ℕ × Pool
obtain_from locks false buffer pool = (none, pool)
obtain_from locks true none pool = (none, pool)
obtain_from false true (some ring) pool = (none, pool)
obtain_from true true (some ring) pool = if pool.free_count == 0 then (none, pool) else (
  some (get_or ring pool.obtain_head 0),
  record pool {
    obtain_head = (pool.obtain_head + 1) % pool.size;
    free_count = pool.free_count - 1;
  },
)

unfoldable pub pool_obtain : Bool → Pool → Option ℕ × Pool
unfolding obtain_from
pool_obtain locks pool = obtain_from locks pool.entries pool.buffer pool

return_to : Bool → Bool → Option (List ℕ) → Pool → ℕ → ℕ × Pool
return_to locks false buffer pool x = (err_bad_args, pool)
return_to locks true none pool x = (err_bad_args, pool)
return_to false true (some ring) pool x = (err_mutex_unavailable, pool)
return_to true true (some ring) pool x =
    let head = (pool.return_head + 1) % pool.size in
    if pool.free_count == pool.size then (err_bad_args, pool) else (
      no_error,
      record pool {
        return_head = head;
        buffer = some (set ring head x);
        free_count = pool.free_count + 1;
      },
    )

unfoldable pub pool_return : Bool → Pool → ℕ → ℕ × Pool
unfolding return_to
pool_return locks pool x = return_to locks pool.entries pool.buffer pool x
