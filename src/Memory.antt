-- ===== src/Memory.antt =====
-- The blocks that components/core/kest_alloc.c hands out, as lists of the bytes that the caller
-- sees. Its totals are not modelled.
use kestrel_interface.Prelude.{
  ℕ, refl, true, ◌+◌, ◌≤◌, ◌<◌, ◌≡◌, ◌∙◌, ◌⊎◌, inl, inr, Bool, false, Option, none, some, List,
  ◌++◌, arith, ◌==◌, if◌then◌else◌, length, take, replicate, length-append, length-replicate,
  length-take, take-append, take-take, Bool-cases,
}

-- The platform's heap, which the repository does not implement: which sizes `malloc` and `realloc`
-- grant, what a byte holds that nothing has written, and `sizeof(size_t)`.
pub record Platform : Type 0 where
  pub grants : ℕ → Bool
  pub stale : ℕ
  pub word : ℕ

module _ (p : Platform) where
  open p use {grants, stale, word}

  unfoldable pub kest_alloc : ℕ → Option (List ℕ)
  kest_alloc size =
      if size == 0 then none else if grants (size + word) then some (replicate size stale) else none

  -- The bytes that both sizes share are kept.
  unfoldable pub kest_realloc : Option (List ℕ) → ℕ → Option (List ℕ)
  kest_realloc none size = kest_alloc size
  kest_realloc (some old) size =
      if size == 0
      then none
      else if grants (size + word)
      then some (take size (old ++ replicate size stale))
      else none

  pub length-kest_alloc : (size : ℕ) {b : List ℕ} → kest_alloc size ≡ some b → length b ≡ size
  unfolding kest_alloc
  length-kest_alloc size h = ground (arith, length-replicate size stale)

  pub kest_alloc-granted :
      (size : ℕ)
      → 0 < size
      → grants (size + word) ≡ true
      → kest_alloc size ≡ some (replicate size stale)
  unfolding kest_alloc
  kest_alloc-granted size h g =
      let positive : (size == 0) ≡ false = ground arith in rw (positive, g) refl

  pub length-kest_realloc :
      (old : List ℕ) (size : ℕ) {b : List ℕ}
      → kest_realloc (some old) size ≡ some b
      → length b ≡ size
  unfolding kest_realloc
  length-kest_realloc old size h = ground (
    arith,
    length-take size (old ++ replicate size stale),
    length-append old (replicate size stale),
    length-replicate size stale,
  )

  -- A request of positive size is refused by the heap, or its block keeps what the old one held.
  pub kest_realloc-cases :
      (old : List ℕ) (size : ℕ)
      → 0 < size
      → length old ≤ size
      → ((kest_realloc (some old) size ≡ none) × (grants (size + word) ≡ false))
        ⊎ ((new : List ℕ) × (kest_realloc (some old) size ≡ some new)
            × (length new ≡ size)
            × ((n : ℕ) → n ≤ length old → take n new ≡ take n old))
  unfolding kest_realloc
  kest_realloc-cases old size h k =
      let positive : (size == 0) ≡ false = ground arith in
      let block : List ℕ = take size (old ++ replicate size stale) in
      elim (Bool-cases (grants (size + word))) [
        | inl granted ↦ inr (
          block,
          rw (positive, granted),
          omega (
            arith,
            length-take size (old ++ replicate size stale),
            length-append old (replicate size stale),
            length-replicate size stale,
          ),
          λ n m.
              take-take n size (old ++ replicate size stale) (omega arith)
              ∙ take-append n old (replicate size stale) m,
        )
        | inr refused ↦ inl (rw (positive, refused), refused)
      ]
