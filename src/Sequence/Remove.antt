-- ===== src/Sequence/Remove.antt =====
-- kest_sequence_remove_preset of components/core/kest_sequence.c.
use kestrel_interface.Prelude.{
  ℕ, zero, suc, ◌≤◌, ◌<◌, ◌≡◌, ◌≢◌, refl, sym, ap, subst, ◌∙◌, true, false, Option, none, some,
  List, [], ◌∷◌, ◌++◌, ◌==◌, arith, length, length-append, All,
}
use kestrel_interface.Status.{no_error}
use kestrel_interface.Sequence.{
  SeqNode, Sequence, put_node, set_next, find_from, unlink, remove_found,
  kest_sequence_remove_preset,
}
use kestrel_interface.Sequence.Linked.{
  Linked, Apart, Holds, put_node_self, put_node_other, last_of, last_of-away,
}

-- The nodes that the walk along `next` meets.
abbrev pub Forward : (ℕ → SeqNode) → List (ℕ × ℕ) → Option ℕ → Type 0
Forward nodes [] head = head ≡ none
Forward nodes ((p, x) ∷ xs) head =
    (head ≡ some p) × ((nodes p).preset ≡ x) × Forward nodes xs (nodes p).next

Linked-Forward :
    (nodes : ℕ → SeqNode) (xs : List (ℕ × ℕ)) (prev head : Option ℕ)
    → Linked nodes xs prev head
    → Forward nodes xs head
Linked-Forward nodes [] prev head linked = linked
Linked-Forward nodes ((p, x) ∷ xs) prev head (here, preset, back, linked) =
    (here, preset, Linked-Forward nodes xs (some p) (nodes p).next linked)

find-first :
    (before : List (ℕ × ℕ)) (fuel : ℕ) (nodes : ℕ → SeqNode) (p preset : ℕ) (after : List (ℕ × ℕ))
    (prev head : Option ℕ)
    → length before < fuel
    → All (λ (q : ℕ × ℕ). q.1 ≢ preset) before
    → Linked nodes (before ++ (p, preset) ∷ after) prev head
    → find_from fuel nodes head preset ≡ some p
unfolding find_from
find-first before zero nodes p preset after prev head h other linked = absurd (omega arith)
find-first [] (suc fuel) nodes p preset after prev head h other (here, data_, back, linked) =
    let found : ((nodes p).preset == preset) ≡ true = ground arith in
    ap (λ o. find_from (suc fuel) nodes o preset) here ∙ rw found refl
find-first ((r, z) ∷ before) (suc fuel) nodes p preset after prev head h (other, rest)
      (here, data_, back, linked) =
    let differs : ((nodes r).preset == preset) ≡ false = ground arith in
    ap (λ o. find_from (suc fuel) nodes o preset) here
    ∙ rw differs (
        find-first before fuel nodes p preset after (some r) (nodes r).next (omega arith) rest
          linked)

-- A write to the `next` of a node that is not met is not seen.
Forward-set_next :
    (nodes : ℕ → SeqNode) (xs : List (ℕ × ℕ)) (head : Option ℕ) (p : ℕ) (to : Option ℕ)
    → All (λ (q : ℕ × ℕ). q.0 ≢ p) xs
    → Forward nodes xs head
    → Forward (set_next nodes p to) xs head
unfolding set_next
Forward-set_next nodes [] head p to away forward = forward
Forward-set_next nodes ((q, x) ∷ xs) head p to (away, rest) (here, data_, forward) =
    let same : put_node nodes p (record (nodes p) { next = to }) q ≡ nodes q =
      put_node_other nodes p q (record (nodes p) { next = to }) away in
    (
      here,
      ap (λ (m : SeqNode). m.preset) same ∙ data_,
      subst (λ next. Forward (put_node nodes p (record (nodes p) { next = to })) xs next)
          (sym (ap (λ (m : SeqNode). m.next) same))
          (Forward-set_next nodes xs (nodes q).next p to rest forward),
    )

front-away :
    (xs ys : List (ℕ × ℕ)) (r : ℕ)
    → All (λ (q : ℕ × ℕ). q.0 ≢ r) (xs ++ ys)
    → All (λ (q : ℕ × ℕ). q.0 ≢ r) xs
front-away [] ys r away = _
front-away (x ∷ xs) ys r (one, rest) = (one, front-away xs ys r rest)

-- The node behind the last of `(r, z) ∷ before` is cut out.
Forward-cut :
    (nodes : ℕ → SeqNode) (r z : ℕ) (before : List (ℕ × ℕ)) (p x : ℕ) (after : List (ℕ × ℕ))
    (prev : Option ℕ)
    → Linked nodes ((r, z) ∷ before ++ (p, x) ∷ after) prev (some r)
    → Apart ((r, z) ∷ before ++ (p, x) ∷ after)
    → Forward (set_next nodes (last_of r before) (nodes p).next) ((r, z) ∷ before ++ after) (some r)
      × ((nodes p).prev ≡ some (last_of r before))
unfolding set_next
Forward-cut nodes r z [] p x after prev (here, data_, back, (next, data_p, back_p, linked))
      (away, apart) =
    let write : SeqNode = record (nodes r) { next = (nodes p).next } in
    let at_r : put_node nodes r write r ≡ write = put_node_self nodes r write in
    (
      (
        refl,
        ap (λ (m : SeqNode). m.preset) at_r ∙ data_,
        subst (λ next. Forward (put_node nodes r write) after next)
            (sym (ap (λ (m : SeqNode). m.next) at_r))
            (Forward-set_next nodes after (nodes p).next r (nodes p).next away.1
              (Linked-Forward nodes after (some p) (nodes p).next linked)),
      ),
      back_p,
    )
Forward-cut nodes r z ((q, y) ∷ before) p x after prev
      (here, data_, back, (next, data_q, back_q, linked)) (away, apart) =
    let l : ℕ = last_of q before in
    let write : SeqNode = record (nodes l) { next = (nodes p).next } in
    let (later, back_p) =
      Forward-cut nodes q y before p x after (some r) (refl, data_q, back_q, linked) apart in
    let not_last : r ≢ l =
      λ e. last_of-away r q before away.0 (front-away before ((p, x) ∷ after) r away.1) (sym e) in
    let at_r : put_node nodes l write r ≡ nodes r = put_node_other nodes l r write not_last in
    (
      (
        refl,
        ap (λ (m : SeqNode). m.preset) at_r ∙ data_,
        subst (λ next. Forward (put_node nodes l write) ((q, y) ∷ before ++ after) next)
            (sym (ap (λ (m : SeqNode). m.next) at_r ∙ next)) later,
      ),
      back_p,
    )

fuel-enough :
    (before : List (ℕ × ℕ)) (q : ℕ × ℕ) (after : List (ℕ × ℕ)) (n : ℕ)
    → length (before ++ q ∷ after) ≤ n
    → length before < n
fuel-enough before q after n h = omega (arith, length-append before (q ∷ after))

-- Removing a preset that the sequence holds returns NO_ERROR, and takes the first node with it out
-- of the walk along `next`; the other nodes stay in their order.
pub remove_preset-Forward :
    (s : Sequence) (before after : List (ℕ × ℕ)) (p preset : ℕ)
    → Holds s (before ++ (p, preset) ∷ after)
    → All (λ (q : ℕ × ℕ). q.1 ≢ preset) before
    → (s' : Sequence) × (kest_sequence_remove_preset s preset ≡ (no_error, s'))
      × Forward s'.nodes (before ++ after) s'.presets
unfolding kest_sequence_remove_preset remove_found unlink
remove_preset-Forward s [] after p preset holds other =
    let found : find_from s.fresh s.nodes s.presets preset ≡ some p =
      find-first [] s.fresh s.nodes p preset after none s.presets
        (fuel-enough [] (p, preset) after s.fresh holds.few) other holds.linked in
    (
      unlink s p none,
      ap (remove_found s) found ∙ ap (λ before. (no_error, unlink s p before)) holds.linked.2,
      Linked-Forward s.nodes after (some p) (s.nodes p).next holds.linked.3,
    )
remove_preset-Forward s ((r, z) ∷ before) after p preset holds other =
    let found : find_from s.fresh s.nodes s.presets preset ≡ some p =
      find-first ((r, z) ∷ before) s.fresh s.nodes p preset after none s.presets
        (fuel-enough ((r, z) ∷ before) (p, preset) after s.fresh holds.few) other holds.linked in
    let (forward, back) =
      Forward-cut s.nodes r z before p preset after none
        (refl, holds.linked.1, holds.linked.2, holds.linked.3) holds.apart in
    (
      unlink s p (some (last_of r before)),
      ap (remove_found s) found ∙ ap (λ to. (no_error, unlink s p to)) back,
      subst
          (λ head.
            Forward (set_next s.nodes (last_of r before) (s.nodes p).next)
              ((r, z) ∷ before ++ after) head)
          (sym holds.linked.0) forward,
    )
