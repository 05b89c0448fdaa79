-- ===== src/Batch/Size.antt =====
-- How large `append_bytes` makes the buffer.
use kestrel_interface.Prelude.{ℕ, zero, suc, ◌+◌, ◌*◌, ◌≤◌, ◌<◌, max, arith}
use kestrel_interface.Batch.{grow}

-- The fuel is enough: the doubling ends with a size that holds what is needed.
pub need-le-grow : (fuel size need : ℕ) → 0 < size → need ≤ size + fuel → need ≤ grow fuel size need
unfolding grow
need-le-grow zero size need pos h = omega arith
need-le-grow (suc fuel) size need pos h =
    ground (arith, need-le-grow fuel (size * 2) need (omega arith) (omega arith))

pub size-le-grow : (fuel size need : ℕ) → size ≤ grow fuel size need
unfolding grow
size-le-grow zero size need = omega arith
size-le-grow (suc fuel) size need = ground (arith, size-le-grow fuel (size * 2) need)

pub grow-le : (fuel size need : ℕ) → grow fuel size need ≤ max size (need * 2)
unfolding grow
grow-le zero size need = omega arith
grow-le (suc fuel) size need = ground (arith, grow-le fuel (size * 2) need)

-- From a positive size the doubling loop ends within `need` rounds: the new size holds what is
-- needed, and it is at most the larger of the size at the start and twice the need.
pub grow_bounds :
    (size need : ℕ)
    → 0 < size
    → (need ≤ grow need size need) × (grow need size need ≤ max size (need * 2))
grow_bounds size need pos = (need-le-grow need size need pos (omega arith), grow-le need size need)
