-- ===== src/Token/Content/Spans.antt =====
-- The copy of a span of the source into the list of tokens, in an arena with room for it.
use kestrel_interface.Prelude.{
  ℕ, suc, ◌+◌, ◌-◌, ◌^◌, ◌≤◌, ◌<◌, ◌≡◌, refl, ap, true, false, Option, none, some, List, [], ◌∷◌,
  ◌++◌, ◌==◌, ltb, arith, length, All,
}
use kestrel_interface.Arena.{BumpArena, align_up, kest_bump_arena_alloc}
use kestrel_interface.Token.Content.{
  Parsed, strn, kest_parser_strndup, token_size, linked, kest_token_ll_safe_aappend, append_span,
}

-- There are `n` bytes left.
abbrev pub Room : Option BumpArena → ℕ → Type 0
Room none n = 1 ≤ 0
Room (some a) n =
    (a.arena ≡ true) × (0 < a.capacity) × (a.capacity < 2 ^ 32) × (a.pos + n ≤ a.capacity)

pub Room-weaken : (arena : Option BumpArena) {m n : ℕ} → n ≤ m → Room arena m → Room arena n
Room-weaken none h r = absurd (omega arith)
Room-weaken (some a) h (there, positive, small, fits) = (there, positive, small, omega arith)

align_up-le : (size : ℕ) → align_up size ≤ size + 3
unfolding align_up
align_up-le size = omega arith

-- A request with room for it and three bytes of rounding is granted.
alloc-Room :
    (arena : Option BumpArena) (size n : ℕ)
    → 0 < size
    → Room arena (size + 3 + n)
    → (p : ℕ) × (arena' : Option BumpArena) × (kest_bump_arena_alloc arena size ≡ (some p, arena'))
      × Room arena' n
unfolding kest_bump_arena_alloc
alloc-Room none size n h r = absurd (omega arith)
alloc-Room (some a) size n h (there, positive, small, fits) =
    let capacity : (a.capacity == 0) ≡ false = ground arith in
    let asked : (size == 0) ≡ false = ground arith in
    let enough : ltb (a.capacity - a.pos) (align_up size) ≡ false =
      ground (arith, align_up-le size) in
    (
      a.pos,
      some (record a { pos = a.pos + align_up size }),
      rw (there, capacity, asked, enough) refl,
      (there, positive, small, omega (arith, align_up-le size)),
    )

pub strn-append : (xs ys : List ℕ) → All (λ c. 0 < c) xs → strn (xs ++ ys) (length xs) ≡ xs
unfolding strn
strn-append [] [] h = refl
strn-append [] (y ∷ ys) h = refl
strn-append (x ∷ xs) ys (h, hs) =
    let more : (suc (length xs) == 0) ≡ false = ground arith in
    let there : (x == 0) ≡ false = ground arith in
    let last : suc (length xs) - 1 ≡ length xs = omega arith in
    rw (more, there, last) (ap (λ zs. x ∷ zs) (strn-append xs ys hs))

-- With room for the span, its end and a node, the span becomes the last token.
pub append_span-Room :
    (ps : Parsed) (xs ys : List ℕ) (line index n : ℕ)
    → All (λ c. 0 < c) xs
    → Room ps.arena (length xs + 23 + n)
    → (arena' : Option BumpArena) × (append_span ps (xs ++ ys) (length xs) line index ≡ record {
      arena = arena';
      tokens = ps.tokens ++ record { text = some xs; line = line; index = index } ∷ [];
    })
      × Room arena' n
unfolding append_span kest_parser_strndup kest_token_ll_safe_aappend linked
append_span-Room ps xs ys line index n h r =
    let (p, arena1, first, room1) =
      alloc-Room ps.arena (length xs + 1) (19 + n) (omega arith)
        (Room-weaken ps.arena (omega arith) r) in
    let (q, arena2, second, room2) =
      alloc-Room arena1 token_size n (omega arith) (Room-weaken arena1 (omega arith) room1) in
    (arena2, rw (strn-append xs ys h, first, second) refl, room2)
