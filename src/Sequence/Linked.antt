-- ===== src/Sequence/Linked.antt =====
-- The list of components/core/kest_sequence.c, and its two directions.
use kestrel_interface.Prelude.{
  ℕ, zero, suc, ◌≤◌, ◌<◌, ◌≡◌, ◌≢◌, refl, sym, ap, subst, ◌∙◌, true, false, Option, none, some,
  List, [], ◌∷◌, ◌++◌, ◌==◌, arith, length, All,
}
use kestrel_interface.Sequence.{SeqNode, Sequence, put_node, set_next, last_from}

-- From `head` on lie these nodes with their presets, each pointing back to the one before it, and
-- the first to `prev`.
abbrev pub Linked : (ℕ → SeqNode) → List (ℕ × ℕ) → Option ℕ → Option ℕ → Type 0
Linked nodes [] prev head = head ≡ none
Linked nodes ((p, x) ∷ xs) prev head =
    (head ≡ some p)
    × ((nodes p).preset ≡ x)
    × ((nodes p).prev ≡ prev)
    × Linked nodes xs (some p) (nodes p).next

-- No node lies twice on the list.
abbrev pub Apart : List (ℕ × ℕ) → Type 0
Apart [] = Unit
Apart ((p, x) ∷ xs) = All (λ (q : ℕ × ℕ). q.0 ≢ p) xs × Apart xs

-- The sequence holds these nodes: they are linked, were all made before, and differ.
pub record Holds (s : Sequence) (xs : List (ℕ × ℕ)) : Type 0 where
  pub linked : Linked s.nodes xs none s.presets
  pub made : All (λ (q : ℕ × ℕ). q.0 < s.fresh) xs
  pub apart : Apart xs
  pub few : length xs ≤ s.fresh

pub put_node_self : (nodes : ℕ → SeqNode) (p : ℕ) (n : SeqNode) → put_node nodes p n p ≡ n
unfolding put_node
put_node_self nodes p n = let here : (p == p) ≡ true = ground arith in rw here refl

pub put_node_other :
    (nodes : ℕ → SeqNode) (p q : ℕ) (n : SeqNode) → q ≢ p → put_node nodes p n q ≡ nodes q
unfolding put_node
put_node_other nodes p q n h = let away : (q == p) ≡ false = ground arith in rw away refl

-- A list does not see a write to a node that is not on it.
pub Linked-put_node :
    (nodes : ℕ → SeqNode) (xs : List (ℕ × ℕ)) (prev head : Option ℕ) (p : ℕ) (n : SeqNode)
    → All (λ (q : ℕ × ℕ). q.0 ≢ p) xs
    → Linked nodes xs prev head
    → Linked (put_node nodes p n) xs prev head
Linked-put_node nodes [] prev head p n away linked = linked
Linked-put_node nodes ((q, x) ∷ xs) prev head p n (away, rest) (here, data_, back, linked) =
    let same : put_node nodes p n q ≡ nodes q = put_node_other nodes p q n away in
    (
      here,
      ap (λ (m : SeqNode). m.preset) same ∙ data_,
      ap (λ (m : SeqNode). m.prev) same ∙ back,
      subst (λ next. Linked (put_node nodes p n) xs (some q) next)
          (sym (ap (λ (m : SeqNode). m.next) same))
          (Linked-put_node nodes xs (some q) (nodes q).next p n rest linked),
    )

-- The last node of the list from `p` on, which is given as the node and those behind it.
abbrev pub last_of : ℕ → List (ℕ × ℕ) → ℕ
last_of p [] = p
last_of p ((q, x) ∷ xs) = last_of q xs

pub last_from-Linked :
    (fuel : ℕ) (nodes : ℕ → SeqNode) (p : ℕ) (xs : List (ℕ × ℕ))
    → length xs ≤ fuel
    → Linked nodes xs (some p) (nodes p).next
    → last_from fuel nodes p ≡ last_of p xs
unfolding last_from
last_from-Linked zero nodes p [] h linked = refl
last_from-Linked zero nodes p (x ∷ xs) h linked = absurd (omega arith)
last_from-Linked (suc fuel) nodes p [] h linked =
    ap (λ next. elim next [ none ↦ p | some q ↦ last_from fuel nodes q ]) linked
last_from-Linked (suc fuel) nodes p ((q, x) ∷ xs) h (here, preset, back, linked) =
    ap (λ next. elim next [ none ↦ p | some r ↦ last_from fuel nodes r ]) here
    ∙ last_from-Linked fuel nodes q xs (omega arith) linked

pub last_of-away :
    (p r : ℕ) (xs : List (ℕ × ℕ)) → r ≢ p → All (λ (q : ℕ × ℕ). q.0 ≢ p) xs → last_of r xs ≢ p
last_of-away p r [] h away = h
last_of-away p r ((q, x) ∷ xs) h (one, rest) = last_of-away p q xs one rest

-- A new last node is linked behind the one that was the last.
pub Linked-snoc :
    (nodes : ℕ → SeqNode) (p : ℕ) (x : ℕ) (xs : List (ℕ × ℕ)) (prev : Option ℕ) (new : ℕ) (y : ℕ)
    → Linked nodes ((p, x) ∷ xs) prev (some p)
    → Apart ((p, x) ∷ xs)
    → new ≢ p
    → All (λ (q : ℕ × ℕ). q.0 ≢ new) xs
    → (nodes new).preset ≡ y
    → (nodes new).next ≡ none
    → Linked
        (put_node
          (set_next nodes (last_of p xs) (some new))
          new
          (record (set_next nodes (last_of p xs) (some new) new) { prev = some (last_of p xs) }))
        ((p, x) ∷ xs ++ (new, y) ∷ [])
        prev
        (some p)
unfolding set_next
Linked-snoc nodes p x [] prev new y (here, preset, back, end) apart fresh away new_preset new_end =
    let n1 : ℕ → SeqNode = put_node nodes p (record (nodes p) { next = some new }) in
    let at_new : n1 new ≡ nodes new =
      put_node_other nodes p new (record (nodes p) { next = some new }) fresh in
    let n2 : ℕ → SeqNode = put_node n1 new (record (n1 new) { prev = some p }) in
    let at_p : n2 p ≡ record (nodes p) { next = some new } =
      put_node_other n1 new p (record (n1 new) { prev = some p }) (λ e. fresh (sym e))
      ∙ put_node_self nodes p (record (nodes p) { next = some new }) in
    let at_end : n2 new ≡ record (n1 new) { prev = some p } =
      put_node_self n1 new (record (n1 new) { prev = some p }) in
    (
      refl,
      ap (λ (m : SeqNode). m.preset) at_p ∙ preset,
      ap (λ (m : SeqNode). m.prev) at_p ∙ back,
      (
        ap (λ (m : SeqNode). m.next) at_p,
        ap (λ (m : SeqNode). m.preset) at_end ∙ ap (λ (m : SeqNode). m.preset) at_new ∙ new_preset,
        ap (λ (m : SeqNode). m.prev) at_end,
        ap (λ (m : SeqNode). m.next) at_end ∙ ap (λ (m : SeqNode). m.next) at_new ∙ new_end,
      ),
    )
Linked-snoc nodes p x ((q, z) ∷ xs) prev new y
      (here, preset, back, (next, preset_q, back_q, linked)) (apart_p, apart) fresh (away, rest)
      new_preset new_end =
    let l : ℕ = last_of q xs in
    let n1 : ℕ → SeqNode = put_node nodes l (record (nodes l) { next = some new }) in
    let n2 : ℕ → SeqNode = put_node n1 new (record (n1 new) { prev = some l }) in
    let not_last : p ≢ l = λ e. last_of-away p q xs apart_p.0 apart_p.1 (sym e) in
    let at_p : n2 p ≡ nodes p =
      put_node_other n1 new p (record (n1 new) { prev = some l }) (λ e. fresh (sym e))
      ∙ put_node_other nodes l p (record (nodes l) { next = some new }) not_last in
    let later : Linked n2 ((q, z) ∷ xs ++ (new, y) ∷ []) (some p) (some q) =
      Linked-snoc nodes q z xs (some p) new y (refl, preset_q, back_q, linked) apart
        (λ e. away (sym e)) rest new_preset new_end in
    (
      refl,
      ap (λ (m : SeqNode). m.preset) at_p ∙ preset,
      ap (λ (m : SeqNode). m.prev) at_p ∙ back,
      subst (λ r. Linked n2 ((q, z) ∷ xs ++ (new, y) ∷ []) (some p) r)
          (sym (ap (λ (m : SeqNode). m.next) at_p ∙ next)) later,
    )
