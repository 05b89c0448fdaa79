-- ===== src/DynList.antt =====
-- The list of components/core/kest_list.h (IMPLEMENT_LIST), with `size_t` and `int` of 32 bits as on
-- the device; an `int` is held as its bits. The allocator is a parameter: which sizes it grants.
-- `x` is the size of an entry in bytes, and `blank` the entry whose bytes are 0.
pub mod Contents
use kestrel_interface.Prelude.{
  ℕ, suc, ◌+◌, ◌-◌, ◌*◌, ◌/◌, ◌%◌, ◌^◌, Bool, true, false, ◌||◌, Option, none, some, List, [], ◌∷◌,
  ◌++◌, ◌==◌, if◌then◌else◌, leb, int_lt, bit_or, take, drop, replicate, set, get_elem?, length,
}
use kestrel_interface.Status.{no_error, err_null_ptr, err_bad_args, err_alloc_fail}

-- `entries` are all `capacity` of them.
pub record DynList (A : Type 0) : Type 0 where
  pub entries : Option (List A)
  pub count : ℕ
  pub capacity : ℕ

-- `cap_needed |= cap_needed >> n` for n from 1 to 16
unfoldable pub smear : ℕ → ℕ
smear n =
    let n1 = bit_or n (n / 2) in
    let n2 = bit_or n1 (n1 / 4) in
    let n4 = bit_or n2 (n2 / 16) in let n8 = bit_or n4 (n4 / 256) in bit_or n8 (n8 / 65536)

unfoldable pub cap_needed : ℕ → ℕ → ℕ
cap_needed count n = (smear ((count + n - 1) % 2 ^ 32) + 1) % 2 ^ 32

-- How many entries of `x` bytes fit into what is asked for: `sizeof(X) * cap_needed` wraps.
unfoldable pub fitting : ℕ → ℕ → ℕ
fitting x cap = x * cap % 2 ^ 32 / x

module _ {A : Type 0} where
  unfoldable pub list_init : DynList A → DynList A
  list_init list = record { entries = none; count = 0; capacity = 0 }

  -- `memcpy` of the new entries behind those that are there.
  unfoldable pub write_from : List A → ℕ → List A → List A
  write_from xs i [] = xs
  write_from xs i (y ∷ ys) = write_from (set xs i y) (suc i) ys

  abbrev pub written : Option (List A) → ℕ → List A → Option (List A)
  written none i ys = none
  written (some xs) i ys = some (write_from xs i ys)

  unfoldable pub put_all : DynList A → List A → DynList A
  put_all list ys = record list {
    entries = written list.entries list.count ys;
    count = (list.count + length ys) % 2 ^ 32;
  }

  abbrev pub first_of : Option (List A) → ℕ → List A
  first_of none n = []
  first_of (some xs) n = take n xs

  -- The entries that a list holds.
  unfoldable pub contents : DynList A → List A
  contents list = first_of list.entries list.count

  unfoldable pub list_pop_tail : DynList A → ℕ × DynList A
  list_pop_tail list =
      (no_error, if int_lt 0 list.count then record list { count = list.count - 1 } else list)

  unfoldable pub list_drain : DynList A → ℕ × DynList A
  list_drain list = (no_error, record list { count = 0 })

  unfoldable pub list_tail : DynList A → Option A
  list_tail list = elim list.entries [
    | none ↦ none
    | some xs ↦
        if int_lt list.count 1 || int_lt list.capacity list.count
        then none
        else get_elem? xs (list.count - 1)
  ]

module _ {A : Type 0} (grants : ℕ → Bool) (x : ℕ) (blank : A) where
  unfoldable pub grow : DynList A → ℕ → Option (List A) → ℕ × DynList A
  grow list cap none =
      if grants (x * cap % 2 ^ 32)
      then (
        no_error,
        record list { entries = some (replicate (fitting x cap) blank); capacity = cap },
      )
      else (err_alloc_fail, record list { count = 0; capacity = 0 })
  grow list cap (some xs) =
      if grants (x * cap % 2 ^ 32)
      then (
        no_error,
        record list {
          entries =
              some
                (take (fitting x cap) (take list.count xs ++ replicate (cap - list.count) blank));
          capacity = cap;
        },
      )
      else (err_alloc_fail, list)

  unfoldable pub list_reserve : DynList A → ℕ → ℕ × DynList A
  list_reserve list n =
      if n == 0
      then (no_error, list)
      else if leb ((list.count + n) % 2 ^ 32) list.capacity
      then (no_error, list)
      else grow list (cap_needed list.count n) list.entries

  unfoldable pub list_append_ref : Option (DynList A) → Option A → ℕ × Option (DynList A)
  list_append_ref none entry = (err_null_ptr, none)
  list_append_ref (some list) none = (err_bad_args, some list)
  list_append_ref (some list) (some entry) =
      let (r, list') = list_reserve list 1 in
      if r == no_error then (no_error, some (put_all list' (entry ∷ []))) else (r, some list')

  -- The result of the reserve is dropped.
  unfoldable pub append_entries : DynList A → ℕ → Option (List A) → ℕ × DynList A
  append_entries list n none = (err_bad_args, list)
  append_entries list n (some ys) = (no_error, put_all (list_reserve list n).1 (take n ys))

  unfoldable pub list_append_list : DynList A → DynList A → ℕ × DynList A
  list_append_list list a =
      if a.count == 0 then (no_error, list) else append_entries list a.count a.entries
