-- ===== src/Arena.antt =====
-- The bump arena of components/core/kest_bump_arena.c. A pointer is its offset in the arena, and
-- `size_t` has 32 bits, as on the device. What the blocks hold is left out.
pub mod Stacked
use kestrel_interface.Prelude.{
  ℕ, ◌+◌, ◌-◌, ◌*◌, ◌/◌, ◌%◌, ◌^◌, Bool, true, false, ◌||◌, not, Option, none, some, List, [], ◌∷◌,
  ◌==◌, if◌then◌else◌, ltb,
}
use kestrel_interface.Status.{no_error, err_alloc_fail}
use kestrel_interface.Memory.{Platform, kest_alloc}

-- `arena` says whether the pointer is there.
pub record BumpArena : Type 0 where
  pub arena : Bool
  pub pos : ℕ
  pub capacity : ℕ

-- `(size + (ALIGN - 1)) & ~(ALIGN - 1)`, where ALIGN is 4
unfoldable pub align_up : ℕ → ℕ
align_up size = (size + 3) % 2 ^ 32 / 4 * 4

unfoldable pub kest_bump_arena_alloc : Option BumpArena → ℕ → Option ℕ × Option BumpArena
kest_bump_arena_alloc none size = (none, none)
kest_bump_arena_alloc (some a) size =
    if not a.arena || a.capacity == 0
    then (none, some a)
    else if size == 0
    then (none, some a)
    else if ltb (a.capacity - a.pos) (align_up size)
    then (none, some a)
    else (some a.pos, some (record a { pos = a.pos + align_up size }))

-- A request without an old block is an `alloc`; else the block is copied, and the old one stays.
unfoldable pub kest_bump_arena_realloc :
    Option BumpArena → Option ℕ → ℕ → Option ℕ × Option BumpArena
kest_bump_arena_realloc none p size = (none, none)
kest_bump_arena_realloc (some a) none size = kest_bump_arena_alloc (some a) size
kest_bump_arena_realloc (some a) (some p) size = kest_bump_arena_alloc (some a) size

unfoldable pub kest_bump_arena_reset : BumpArena → BumpArena
kest_bump_arena_reset a = record a { pos = 0 }

-- The blocks of requests one after the other: offset and size of those that were granted.
blocks_with : ℕ → Option ℕ → List (ℕ × ℕ) → List (ℕ × ℕ)
blocks_with size none rest = rest
blocks_with size (some p) rest = (p, size) ∷ rest

abbrev pub arena_of : BumpArena → Option BumpArena → BumpArena
arena_of a none = a
arena_of a (some a') = a'

unfoldable pub alloc_all : BumpArena → List ℕ → List (ℕ × ℕ)
unfolding blocks_with
alloc_all a [] = []
alloc_all a (size ∷ sizes) =
    let (p, a') = kest_bump_arena_alloc (some a) size in
    let rest = alloc_all (arena_of a a') sizes in blocks_with size p rest
