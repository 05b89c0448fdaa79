-- ===== src/Pool/Fifo.antt =====
-- The order of the free entries of a pool of components/core/kest_pool.h.
use native.Mathlib.Nat.{mod_self, mod-eq_of_lt}
use kestrel_interface.Prelude.{
  ℕ, zero, suc, ◌+◌, ◌-◌, ◌%◌, ◌≤◌, ◌<◌, ◌≡◌, refl, sym, ap, ap₂, subst, ◌∙◌, inl, inr, true, false,
  Option, none, some, List, [], ◌∷◌, ◌++◌, ◌==◌, arith, if◌then◌else◌, ltb, ltb→lt, ltb→le, ◌≢◌,
  get_or-set_self, get_or-set_ne, set, get_or, length, length-set, Bool-cases,
}
use kestrel_interface.Status.{no_error}
use kestrel_interface.Pool.{Pool, pool_obtain, pool_return, obtain_from, return_to}

-- `n` places on in a ring of `size`.
abbrev pub wrap : ℕ → ℕ → ℕ → ℕ
wrap size h n = if ltb (h + n) size then h + n else h + n - size

wrap-mod : (size h : ℕ) → h < size → (h + 1) % size ≡ wrap size h 1
wrap-mod size h l = elim (Bool-cases (ltb (h + 1) size)) [
  | inl inside ↦ rw inside (mod-eq_of_lt (ltb→lt (h + 1) size inside))
  | inr edge ↦ rw edge (
      let last : h + 1 ≡ size = omega (arith, ltb→le (h + 1) size edge) in
      ap (λ n. n % size) last ∙ mod_self size ∙ omega arith)
]

wrap-suc : (size h n : ℕ) → h < size → n < size → wrap size (wrap size h 1) n ≡ wrap size h (suc n)
wrap-suc size h n l m = ground arith

wrap-lt : (size h n : ℕ) → h < size → n ≤ size → wrap size h n < size
wrap-lt size h n l m = ground arith

wrap-zero : (size h : ℕ) → h < size → wrap size h 0 ≡ h
wrap-zero size h l = ground arith

wrap-next : (size h n : ℕ) → h < size → n < size → wrap size (wrap size h n) 1 ≡ wrap size h (n + 1)
wrap-next size h n l m = ground arith

wrap-ne : (size h n : ℕ) → h < size → suc n < size → wrap size h (suc n) ≢ h
wrap-ne size h n l m = ground arith

module _ (size : ℕ) where
  -- The next `n` entries of the ring, from place `h` on.
  unfoldable pub free_from : List ℕ → ℕ → ℕ → List ℕ
  free_from ring h zero = []
  free_from ring h (suc n) = get_or ring h 0 ∷ free_from ring (wrap size h 1) n

  free_from-last :
      (ring : List ℕ) (n h : ℕ)
      → h < size
      → n < size
      → free_from ring h (suc n) ≡ free_from ring h n ++ get_or ring (wrap size h n) 0 ∷ []
  unfolding free_from
  free_from-last ring zero h l m = ap (λ i. get_or ring i 0 ∷ []) (sym (wrap-zero size h l))
  free_from-last ring (suc n) h l m =
      ap (λ xs. get_or ring h 0 ∷ xs)
        (free_from-last ring n (wrap size h 1) (wrap-lt size h 1 l (omega arith)) (omega arith)
          ∙ ap (λ i. free_from ring (wrap size h 1) n ++ get_or ring i 0 ∷ [])
              (wrap-suc size h n l (omega arith)))

  -- A write `m` places on is not seen by the places before it.
  free_from-set :
      (ring : List ℕ) (x n h m : ℕ)
      → h < size
      → n ≤ m
      → m < size
      → free_from (set ring (wrap size h m) x) h n ≡ free_from ring h n
  unfolding free_from
  free_from-set ring x zero h m l k j = refl
  free_from-set ring x (suc n) h zero l k j = ground arith
  free_from-set ring x (suc n) h (suc m) l k j =
      ap₂ (λ y ys. y ∷ ys) (get_or-set_ne ring (wrap size h (suc m)) h x 0 (wrap-ne size h m l j))
        (ap (λ i. free_from (set ring i x) (wrap size h 1) n)
            (sym (wrap-suc size h m l (omega arith)))
          ∙ free_from-set ring x n (wrap size h 1) m (wrap-lt size h 1 l (omega arith))
              (omega arith) (omega arith))

-- The ring is there, and the free entries fill it from `obtain_head` up to `return_head`.
pub record IsValid (pool : Pool) : Type 0 where
  pub there : pool.entries ≡ true
  pub ring : List ℕ
  pub owns : pool.buffer ≡ some ring
  pub sized : length ring ≡ pool.size
  pub count : pool.free_count ≤ pool.size
  pub obtains : pool.obtain_head < pool.size
  pub returns : pool.return_head < pool.size
  pub meets : wrap pool.size pool.return_head 1 ≡ wrap pool.size pool.obtain_head pool.free_count

abbrev pub ring_of : Option (List ℕ) → List ℕ
ring_of none = []
ring_of (some ring) = ring

-- The free entries, in the order in which they will be handed out.
unfoldable pub free_entries : Pool → List ℕ
free_entries pool = free_from pool.size (ring_of pool.buffer) pool.obtain_head pool.free_count

-- From a valid pool with a free entry, and the mutex granted, the first free entry is handed out,
-- and the pool stays valid without it.
pub pool_obtain-first :
    (pool : Pool) (v : IsValid pool) (n : ℕ)
    → pool.free_count ≡ suc n
    → (x : ℕ) × (pool' : Pool) × (pool_obtain true pool ≡ (some x, pool'))
      × IsValid pool'
      × (free_entries pool ≡ x ∷ free_entries pool')
unfolding pool_obtain obtain_from free_entries free_from
pool_obtain-first pool v n e = (get_or v.ring pool.obtain_head 0, after, handed, still, order)
  where
    some_free : (pool.free_count == 0) ≡ false
    some_free = ground arith

    moved : (pool.obtain_head + 1) % pool.size ≡ wrap pool.size pool.obtain_head 1
    moved = wrap-mod pool.size pool.obtain_head v.obtains

    after : Pool
    after = record pool {
      obtain_head = (pool.obtain_head + 1) % pool.size;
      free_count = pool.free_count - 1;
    }

    handed :
        obtain_from true pool.entries pool.buffer pool
        ≡ (some (get_or v.ring pool.obtain_head 0), after)
    handed = ap₂ (λ a b. obtain_from true a b pool) v.there v.owns ∙ rw some_free refl

    still : IsValid after
    still = record {
      there = v.there;
      ring = v.ring;
      owns = v.owns;
      sized = v.sized;
      count = omega (arith, v.count);
      obtains =
          subst (λ h. h < pool.size) (sym moved)
            (wrap-lt pool.size pool.obtain_head 1 v.obtains (omega (arith, v.count)));
      returns = v.returns;
      meets =
          v.meets
          ∙ ap (λ k. wrap pool.size pool.obtain_head k) e
          ∙ sym (wrap-suc pool.size pool.obtain_head n v.obtains (omega (arith, v.count)))
          ∙ ap₂ (λ h k. wrap pool.size h k) (sym moved) (omega arith);
    }

    order :
        free_from pool.size (ring_of pool.buffer) pool.obtain_head pool.free_count
        ≡ get_or v.ring pool.obtain_head 0
          ∷ free_from pool.size
              (ring_of pool.buffer)
              ((pool.obtain_head + 1) % pool.size)
              (pool.free_count - 1)
    order =
        ap (λ k. free_from pool.size (ring_of pool.buffer) pool.obtain_head k) e
        ∙ ap
            (λ o.
              get_or (ring_of o) pool.obtain_head 0
              ∷ free_from pool.size (ring_of pool.buffer) (wrap pool.size pool.obtain_head 1) n)
            v.owns
        ∙ ap₂
            (λ h k.
              get_or v.ring pool.obtain_head 0 ∷ free_from pool.size (ring_of pool.buffer) h k)
            (sym moved) (omega arith)

-- To a valid pool with an entry out, and the mutex granted, an entry comes back as the last free
-- one, and the pool stays valid.
pub pool_return-last :
    (pool : Pool) (v : IsValid pool) (x : ℕ)
    → pool.free_count < pool.size
    → (pool' : Pool) × (pool_return true pool x ≡ (no_error, pool'))
      × IsValid pool'
      × (free_entries pool' ≡ free_entries pool ++ x ∷ [])
unfolding pool_return return_to free_entries
pool_return-last pool v x room = (after, taken, still, order)
  where
    some_out : (pool.free_count == pool.size) ≡ false
    some_out = ground arith

    place : ℕ
    place = wrap pool.size pool.obtain_head pool.free_count

    moved : (pool.return_head + 1) % pool.size ≡ place
    moved = wrap-mod pool.size pool.return_head v.returns ∙ v.meets

    inside : place < pool.size
    inside = wrap-lt pool.size pool.obtain_head pool.free_count v.obtains v.count

    after : Pool
    after = record pool {
      return_head = place;
      buffer = some (set v.ring place x);
      free_count = pool.free_count + 1;
    }

    taken : return_to true pool.entries pool.buffer pool x ≡ (no_error, after)
    taken =
        ap₂ (λ a b. return_to true a b pool x) v.there v.owns
        ∙ rw some_out (
            ap
              (λ h. (
                no_error,
                record pool {
                  return_head = h;
                  buffer = some (set v.ring h x);
                  free_count = pool.free_count + 1;
                },
              ))
              moved)

    still : IsValid after
    still = record {
      there = v.there;
      ring = set v.ring place x;
      owns = refl;
      sized = length-set v.ring place x ∙ v.sized;
      count = omega arith;
      obtains = v.obtains;
      returns = inside;
      meets = wrap-next pool.size pool.obtain_head pool.free_count v.obtains room;
    }

    order :
        free_from pool.size (set v.ring place x) pool.obtain_head (pool.free_count + 1)
        ≡ free_from pool.size (ring_of pool.buffer) pool.obtain_head pool.free_count ++ x ∷ []
    order =
        ap (λ k. free_from pool.size (set v.ring place x) pool.obtain_head k) (omega arith)
        ∙ free_from-last pool.size (set v.ring place x) pool.free_count pool.obtain_head v.obtains
            room
        ∙ ap₂ (λ xs y. xs ++ y ∷ [])
            (free_from-set pool.size v.ring x pool.free_count pool.obtain_head pool.free_count
                v.obtains (omega arith) room
              ∙ ap (λ o. free_from pool.size (ring_of o) pool.obtain_head pool.free_count)
                  (sym v.owns))
            (get_or-set_self v.ring place x 0 (omega (arith, inside, v.sized)))
