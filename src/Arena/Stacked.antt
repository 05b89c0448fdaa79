-- ===== src/Arena/Stacked.antt =====
-- The places of the blocks of an arena of components/core/kest_bump_arena.c.
use kestrel_interface.Prelude.{
  ℕ, ◌+◌, ◌-◌, ◌%◌, ◌^◌, ◌≤◌, ◌<◌, ◌≡◌, refl, ◌⊎◌, inl, inr, none, some, List, [], ◌∷◌, arith, All,
  not, ◌||◌, ltb, ◌==◌, Bool-cases,
}
use kestrel_interface.Arena.{BumpArena, align_up, kest_bump_arena_alloc, alloc_all, blocks_with}

-- From `n` on, each block begins at a multiple of 4 behind the one before it, and all lie below
-- `capacity`.
abbrev pub Stacked : ℕ → ℕ → List (ℕ × ℕ) → Type 0
Stacked capacity n [] = n ≤ capacity
Stacked capacity n ((p, size) ∷ blocks) = (n ≤ p) × (p % 4 ≡ 0) × Stacked capacity (p + size) blocks

Stacked-weaken :
    (capacity m n : ℕ) (blocks : List (ℕ × ℕ))
    → m ≤ n
    → Stacked capacity n blocks
    → Stacked capacity m blocks
Stacked-weaken capacity m n [] h s = omega arith
Stacked-weaken capacity m n ((p, size) ∷ blocks) h (low, aligned, rest) =
    (omega arith, aligned, rest)

align_up-bounds : (size : ℕ) → size + 3 < 2 ^ 32 → (size ≤ align_up size) × (align_up size % 4 ≡ 0)
unfolding align_up
align_up-bounds size h = omega arith

-- A request is refused and changes nothing, or gets the place at the position.
alloc-cases :
    (a : BumpArena) (size : ℕ)
    → (kest_bump_arena_alloc (some a) size ≡ (none, some a))
      ⊎ ((kest_bump_arena_alloc (some a) size
            ≡ (some a.pos, some (record a { pos = a.pos + align_up size })))
          × (align_up size ≤ a.capacity - a.pos))
unfolding kest_bump_arena_alloc
alloc-cases a size = elim (Bool-cases (not a.arena || a.capacity == 0)) [
  | inl no_memory ↦ inl (rw no_memory refl)
  | inr memory ↦ elim (Bool-cases (size == 0)) [
    | inl nothing ↦ inl (rw (memory, nothing) refl)
    | inr something ↦ elim (Bool-cases (ltb (a.capacity - a.pos) (align_up size))) [
      | inl full ↦ inl (rw (memory, something, full) refl)
      | inr room ↦ inr (rw (memory, something, room) refl, ground arith)
    ]
  ]
]

-- From a position within the capacity that is a multiple of 4, requests whose rounding does not
-- wrap, in whatever number and order: the blocks that are granted begin at multiples of 4, do not
-- overlap and lie within the capacity.
pub alloc_all-Stacked :
    (sizes : List ℕ) (a : BumpArena)
    → a.pos ≤ a.capacity
    → a.pos % 4 ≡ 0
    → All (λ size. size + 3 < 2 ^ 32) sizes
    → Stacked a.capacity a.pos (alloc_all a sizes)
unfolding alloc_all blocks_with
alloc_all-Stacked [] a within aligned small = within
alloc_all-Stacked (size ∷ sizes) a within aligned (one, rest) =
    let (enough, multiple) = align_up-bounds size one in
    elim (alloc-cases a size) [
      | inl refused ↦ rw refused (alloc_all-Stacked sizes a within aligned rest)
      | inr (granted, room) ↦ rw granted (
        omega arith,
        aligned,
        Stacked-weaken a.capacity (a.pos + size) (a.pos + align_up size) _ (omega arith) (
            alloc_all-Stacked sizes (record a { pos = a.pos + align_up size }) (omega arith)
              (omega arith) rest),
      )
    ]
