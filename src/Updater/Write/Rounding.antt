-- ===== src/Updater/Write/Rounding.antt =====
-- The size of a delay's buffer, as kest_alloc_for_delay of components/core/kest_update.c rounds it.
use kestrel_interface.Prelude.{ℕ, ◌+◌, ◌%◌, ◌^◌, ◌≤◌, ◌<◌, ◌≡◌, max, arith}
use kestrel_interface.Updater.Write.{delay_size_for}

-- While nothing wraps, the size is a multiple of four, more than what was asked for and more than
-- the delay and its four samples of margin, by four at most. It grows even when what was asked for
-- is a multiple of four.
pub delay_size_for_bounds :
    (size samples : ℕ)
    → size + 8 < 2 ^ 32
    → samples + 8 < 2 ^ 32
    → (delay_size_for size samples % 4 ≡ 0)
      × (max size (samples + 4) < delay_size_for size samples)
      × (delay_size_for size samples ≤ max size (samples + 4) + 4)
unfolding delay_size_for
delay_size_for_bounds size samples h k = ground arith
