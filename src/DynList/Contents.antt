-- ===== src/DynList/Contents.antt =====
-- The entries of the list of components/core/kest_list.h.
use native.Mathlib.Nat.{mul-le-mul_left, mul-pos, mul-div_cancel_left, pow-le-pow_right}
use kestrel_interface.Prelude.{
  ℕ, suc, ◌+◌, ◌-◌, ◌*◌, ◌/◌, ◌%◌, ◌^◌, ◌≤◌, ◌<◌, ◌≡◌, refl, sym, ap, subst, ◌∙◌, ◌⊎◌, inl, inr,
  Bool, true, false, none, some, List, [], ◌∷◌, ◌++◌, append_assoc, append-nil, ◌==◌, leb, arith,
  bit_or, take, replicate, set, length, length-take, length-append, length-replicate, length-set,
  take-append, take-set, take-take, Bool-cases,
}
use kestrel_interface.Prelude.Bits.{bit_or-le, bit_or-lt}
use kestrel_interface.Status.{no_error}
use kestrel_interface.DynList.{
  DynList, smear, cap_needed, fitting, write_from, written, put_all, first_of, contents, grow,
  list_reserve, list_append_ref, append_entries, list_append_list,
}

or-below : (w n m : ℕ) → n < 2 ^ w → m < 2 ^ w → (n ≤ bit_or n m) × (bit_or n m < 2 ^ w)
or-below w n m h k = (bit_or-le n m, bit_or-lt w n m h k)

smear-bounds : (w n : ℕ) → n < 2 ^ w → (n ≤ smear n) × (smear n < 2 ^ w)
unfolding smear
smear-bounds w n h =
    let n1 : ℕ = bit_or n (n / 2) in
    let n2 : ℕ = bit_or n1 (n1 / 4) in
    let n4 : ℕ = bit_or n2 (n2 / 16) in
    let n8 : ℕ = bit_or n4 (n4 / 256) in
    let (le1, lt1) = or-below w n (n / 2) h (omega arith) in
    let (le2, lt2) = or-below w n1 (n1 / 4) lt1 (omega arith) in
    let (le4, lt4) = or-below w n2 (n2 / 16) lt2 (omega arith) in
    let (le8, lt8) = or-below w n4 (n4 / 256) lt4 (omega arith) in
    let (le16, lt16) = or-below w n8 (n8 / 65536) lt8 (omega arith) in (omega arith, lt16)

-- What is asked for fits into what is allocated, which is not above a power of two that it is not
-- above.
cap_needed-bounds :
    (w count n : ℕ)
    → w ≤ 30
    → 0 < n
    → count + n ≤ 2 ^ w
    → (count + n ≤ cap_needed count n) × (cap_needed count n ≤ 2 ^ w)
unfolding cap_needed
cap_needed-bounds w count n narrow h k =
    let small : 2 ^ w ≤ 2 ^ 30 = pow-le-pow_right (omega arith) narrow in
    let (le, lt) = smear-bounds w ((count + n - 1) % 2 ^ 32) (omega arith) in
    (omega arith, omega arith)

-- Nothing wraps.
fitting-all : (x w cap : ℕ) → 0 < x → x * 2 ^ w < 2 ^ 32 → cap ≤ 2 ^ w → fitting x cap ≡ cap
unfolding fitting
fitting-all x w cap h few k =
    let below : x * cap ≤ x * 2 ^ w = mul-le-mul_left x k in
    let same : x * cap % 2 ^ 32 ≡ x * cap = omega arith in
    ap (λ n. n / x) same ∙ mul-div_cancel_left cap h

module _ {A : Type 0} where
  length-write_from : (ys xs : List A) (i : ℕ) → length (write_from xs i ys) ≡ length xs
  unfolding write_from
  length-write_from [] xs i = refl
  length-write_from (y ∷ ys) xs i = length-write_from ys (set xs i y) (suc i) ∙ length-set xs i y

  take-write_from :
      (ys xs : List A) (i : ℕ)
      → i + length ys ≤ length xs
      → take (i + length ys) (write_from xs i ys) ≡ take i xs ++ ys
  unfolding write_from
  take-write_from [] xs i h = ap (λ n. take n xs) (omega arith) ∙ sym (append-nil (take i xs))
  take-write_from (y ∷ ys) xs i h =
      ap (λ n. take n (write_from (set xs i y) (suc i) ys)) (omega arith)
      ∙ take-write_from ys (set xs i y) (suc i) (omega (arith, length-set xs i y))
      ∙ ap (λ zs. zs ++ ys) (take-set i xs y (omega arith))
      ∙ append_assoc (take i xs) (y ∷ []) ys

  -- There are no entries, or `capacity` of them, of which the first `count` are held; and the
  -- numbers are not negative as an `int`.
  abbrev pub IsValid : DynList A → Type 0
  IsValid list =
      ((list.entries ≡ none) × (list.count ≡ 0) × (list.capacity ≡ 0))
      ⊎ ((xs : List A) × (list.entries ≡ some xs)
          × (length xs ≡ list.capacity)
          × (list.count ≤ list.capacity)
          × (list.capacity < 2 ^ 31))

  -- There is room for `n` more entries behind what the list held.
  abbrev Reserved : DynList A → ℕ → DynList A → Type 0
  Reserved list n list' =
      (xs : List A) × (list'.entries ≡ some xs)
      × (length xs ≡ list'.capacity)
      × (list'.count ≡ list.count)
      × (list.count + n ≤ list'.capacity)
      × (list'.capacity < 2 ^ 31)
      × (take list.count xs ≡ contents list)

  -- New entries are written behind those that are there.
  put_all-Appended :
      (list list' : DynList A) (ys : List A)
      → Reserved list (length ys) list'
      → IsValid (put_all list' ys) × (contents (put_all list' ys) ≡ contents list ++ ys)
  unfolding put_all contents
  put_all-Appended list list' ys (xs, there, sized, kept, room, short, same) = (
    inr (
      write_from xs list'.count ys,
      ap (λ o. written o list'.count ys) there,
      length-write_from ys xs list'.count ∙ sized,
      omega arith,
      short,
    ),
    ap (λ o. first_of (written o list'.count ys) ((list'.count + length ys) % 2 ^ 32)) there
        ∙ ap (λ n. take n (write_from xs list'.count ys)) (omega arith)
        ∙ take-write_from ys xs list'.count (omega arith)
        ∙ ap (λ n. take n xs ++ ys) kept
        ∙ ap (λ zs. zs ++ ys) same,
  )

-- `w` bounds the entries; the bytes of that many do not wrap.
module _ {A : Type 0} (grants : ℕ → Bool) (x w : ℕ) (blank : A)
    (granted : (n : ℕ) → 0 < n → grants n ≡ true) (some_bytes : 0 < x) (narrow : w ≤ 30)
    (few : x * 2 ^ w < 2 ^ 32) where
  granted-bytes : (cap : ℕ) → 0 < cap → cap ≤ 2 ^ w → grants (x * cap % 2 ^ 32) ≡ true
  granted-bytes cap h k =
      let below : x * cap ≤ x * 2 ^ w = mul-le-mul_left x k in
      let positive : 0 < x * cap = mul-pos some_bytes h in granted (x * cap % 2 ^ 32) (omega arith)

  short : (cap : ℕ) → cap ≤ 2 ^ w → cap < 2 ^ 31
  short cap k = let small : 2 ^ w ≤ 2 ^ 30 = pow-le-pow_right (omega arith) narrow in omega arith

  grow-Reserved :
      (list : DynList A) (n cap : ℕ)
      → IsValid list
      → 0 < n
      → list.count + n ≤ cap
      → cap ≤ 2 ^ w
      → (list' : DynList A) × (grow grants x blank list cap list.entries ≡ (no_error, list'))
        × Reserved list n list'
  unfolding grow contents
  grow-Reserved list n cap (inl (none_there, empty, no_room)) asked h k =
      let fits = fitting-all x w cap some_bytes few k in
      (
        record list { entries = some (replicate (fitting x cap) blank); capacity = cap },
        ap (grow grants x blank list cap) none_there ∙ rw (granted-bytes cap (omega arith) k) refl,
        (
          replicate (fitting x cap) blank,
          refl,
          length-replicate (fitting x cap) blank ∙ fits,
          refl,
          h,
          short cap k,
          ap (λ n. take n (replicate (fitting x cap) blank)) empty
              ∙ ap (λ o. first_of o list.count) (sym none_there),
        ),
      )
  grow-Reserved list n cap (inr (xs, there, sized, held, _)) asked h k =
      let kept : List A = take list.count xs in
      let new : List A = replicate (cap - list.count) blank in
      let long : length kept ≡ list.count = omega (arith, length-take list.count xs, sized) in
      let fits = fitting-all x w cap some_bytes few k in
      (
        record list { entries = some (take (fitting x cap) (kept ++ new)); capacity = cap },
        ap (grow grants x blank list cap) there ∙ rw (granted-bytes cap (omega arith) k) refl,
        (
          take (fitting x cap) (kept ++ new),
          refl,
          omega (
            arith,
            length-take (fitting x cap) (kept ++ new),
            length-append kept new,
            length-replicate (cap - list.count) blank,
            long,
            fits,
          ),
          refl,
          h,
          short cap k,
          take-take list.count (fitting x cap) (kept ++ new) (omega (arith, fits))
              ∙ take-append list.count kept new (omega (arith, long))
              ∙ take-take list.count list.count xs (omega arith)
              ∙ ap (λ o. first_of o list.count) (sym there),
        ),
      )

  reserve-Reserved :
      (list : DynList A) (n : ℕ)
      → IsValid list
      → 0 < n
      → list.count + n ≤ 2 ^ w
      → (list' : DynList A) × (list_reserve grants x blank list n ≡ (no_error, list'))
        × Reserved list n list'
  unfolding list_reserve contents
  reserve-Reserved list n valid h k =
      let asked : (n == 0) ≡ false = ground arith in
      let small : 2 ^ w ≤ 2 ^ 30 = pow-le-pow_right (omega arith) narrow in
      elim (Bool-cases (leb ((list.count + n) % 2 ^ 32) list.capacity)) [
        | inl fits ↦ elim valid [
          | inl (none_there, empty, no_room) ↦ absurd (ground arith)
          | inr (xs, there, sized, held, bound) ↦ (
            list,
            rw (asked, fits) refl,
            (
              xs,
              there,
              sized,
              refl,
              ground arith,
              bound,
              ap (λ o. first_of o list.count) (sym there),
            ),
          )
        ]
        | inr full ↦
            let (enough, bounded) = cap_needed-bounds w list.count n narrow h k in
            let (list', grown, reserved) =
              grow-Reserved list n (cap_needed list.count n) valid h enough bounded in
            (list', rw (asked, full) grown, reserved)
      ]

  -- With an allocator that grants every request, entries of at least a byte, and room for both lists
  -- in 2^w entries, where w is 30 at most and the bytes of that many entries do not wrap at 2^32:
  -- appending a list with entries to a valid list returns NO_ERROR, keeps the list valid and puts
  -- what the other list holds behind what the list held; and appending one entry does the same with
  -- that entry. A list is valid when it holds its first entries, with an `int` for their capacity.
  pub append_list-Appended :
      (list a : DynList A) (entry : A)
      → IsValid list
      → IsValid a
      → 0 < a.count
      → list.count + a.count ≤ 2 ^ w
      → ((list' : DynList A) × (list_append_list grants x blank list a ≡ (no_error, list'))
          × IsValid list'
          × (contents list' ≡ contents list ++ contents a))
        × ((list' : DynList A) × (list_append_ref grants x blank (some list) (some entry)
              ≡ (no_error, some list'))
            × IsValid list'
            × (contents list' ≡ contents list ++ entry ∷ []))
  unfolding list_append_list append_entries list_append_ref contents
  append_list-Appended list a entry valid (inl (none_there, empty, no_room)) h k =
      absurd (omega arith)
  append_list-Appended list a entry valid (inr (ys, there, sized, held, _)) h k =
      let (list1, ran, reserved) = reserve-Reserved list a.count valid h k in
      let long : length (take a.count ys) ≡ a.count =
        omega (arith, length-take a.count ys, sized) in
      let (valid1, all1) =
        put_all-Appended list list1 (take a.count ys)
          (subst (λ n. Reserved list n list1) (sym long) reserved) in
      let (list2, ran2, reserved2) = reserve-Reserved list 1 valid (omega arith) (omega arith) in
      let (valid2, all2) = put_all-Appended list list2 (entry ∷ []) reserved2 in
      let some_there : (a.count == 0) ≡ false = ground arith in
      (
        (
          put_all list1 (take a.count ys),
          rw some_there (
              ap (append_entries grants x blank list a.count) there
              ∙ ap (λ (r : ℕ × DynList A). (no_error, put_all r.1 (take a.count ys))) ran),
          valid1,
          all1 ∙ ap (λ o. contents list ++ first_of o a.count) (sym there),
        ),
        (put_all list2 (entry ∷ []), rw ran2 refl, valid2, all2),
      )
