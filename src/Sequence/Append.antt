-- ===== src/Sequence/Append.antt =====
-- sequence_append_preset of components/core/kest_sequence.c.
use kestrel_interface.Prelude.{
  ℕ, suc, ◌<◌, ◌≡◌, ◌≢◌, refl, sym, ap, subst, ◌∙◌, Bool, true, none, some, List, [], ◌∷◌, ◌++◌,
  ◌==◌, if◌then◌else◌, arith, length-append, All,
}
use kestrel_interface.Status.{no_error}
use kestrel_interface.Sequence.{
  SeqNode, Sequence, put_node, set_next, last_from, link_new, new_node, sequence_append_preset,
}
use kestrel_interface.Sequence.Linked.{
  Linked, Apart, Holds, put_node_self, Linked-put_node, last_of, last_from-Linked, Linked-snoc,
}

Apart-snoc :
    (xs : List (ℕ × ℕ)) (new y : ℕ)
    → All (λ (q : ℕ × ℕ). q.0 < new) xs
    → Apart xs
    → Apart (xs ++ (new, y) ∷ [])
Apart-snoc [] new y below apart = (_, _)
Apart-snoc ((p, x) ∷ xs) new y (below, rest) (away, apart) =
    (away_snoc p xs new y (λ e. ground arith) away, Apart-snoc xs new y rest apart)
  where
    away_snoc :
        (p : ℕ) (xs : List (ℕ × ℕ)) (new y : ℕ)
        → new ≢ p
        → All (λ (q : ℕ × ℕ). q.0 ≢ p) xs
        → All (λ (q : ℕ × ℕ). q.0 ≢ p) (xs ++ (new, y) ∷ [])
    away_snoc p [] new y h away = (h, away)
    away_snoc p (r ∷ xs) new y h (one, rest) = (one, away_snoc p xs new y h rest)

made-snoc :
    (xs : List (ℕ × ℕ)) (new y : ℕ)
    → All (λ (q : ℕ × ℕ). q.0 < new) xs
    → All (λ (q : ℕ × ℕ). q.0 < suc new) (xs ++ (new, y) ∷ [])
made-snoc [] new y below = (omega arith, _)
made-snoc (r ∷ xs) new y (one, rest) = (omega arith, made-snoc xs new y rest)

fresh-away :
    (xs : List (ℕ × ℕ)) (new : ℕ)
    → All (λ (q : ℕ × ℕ). q.0 < new) xs
    → All (λ (q : ℕ × ℕ). q.0 ≢ new) xs
fresh-away [] new below = _
fresh-away (r ∷ xs) new (one, rest) = (λ e. absurd (omega arith), fresh-away xs new rest)

self_test : (n : ℕ) (b : Bool) → (if n == n then true else b) ≡ true
self_test n b = let here : (n == n) ≡ true = ground arith in rw here refl

-- With memory for the node, appending a preset returns NO_ERROR and puts it behind those that the
-- sequence holds, in both directions of the list, and names the sequence in the preset.
pub append_preset-Holds :
    (s : Sequence) (xs : List (ℕ × ℕ)) (preset : ℕ)
    → Holds s xs
    → (s' : Sequence) × (sequence_append_preset true s preset ≡ (no_error, s'))
      × Holds s' (xs ++ (s.fresh, preset) ∷ [])
      × (s'.owned preset ≡ true)
      × (s'.position ≡ s.position)
unfolding sequence_append_preset link_new new_node
append_preset-Holds s [] preset holds =
    let node : SeqNode = record { preset = preset; next = none; prev = none } in
    let base : Sequence = record (new_node s preset) {
      owned = λ q. if q == preset then true else s.owned q;
    } in
    let at_new : base.nodes s.fresh ≡ node = put_node_self s.nodes s.fresh node in
    (
      record base { presets = some s.fresh },
      ap (λ head. (no_error, link_new base s.fresh head)) holds.linked,
      record {
        linked = (
          refl,
          ap (λ (m : SeqNode). m.preset) at_new,
          ap (λ (m : SeqNode). m.prev) at_new,
          ap (λ (m : SeqNode). m.next) at_new,
        );
        made = (omega arith, _);
        apart = (_, _);
        few = omega arith;
      },
      self_test preset (s.owned preset),
      refl,
    )
append_preset-Holds s ((p, x) ∷ xs) preset holds =
    let node : SeqNode = record { preset = preset; next = none; prev = none } in
    let base : Sequence = record (new_node s preset) {
      owned = λ q. if q == preset then true else s.owned q;
    } in
    let at_new : base.nodes s.fresh ≡ node = put_node_self s.nodes s.fresh node in
    let away : All (λ (q : ℕ × ℕ). q.0 ≢ s.fresh) ((p, x) ∷ xs) =
      fresh-away ((p, x) ∷ xs) s.fresh holds.made in
    let linked : Linked base.nodes ((p, x) ∷ xs) none s.presets =
      Linked-put_node s.nodes ((p, x) ∷ xs) none s.presets s.fresh node away holds.linked in
    let last : last_from base.fresh base.nodes p ≡ last_of p xs =
      last_from-Linked base.fresh base.nodes p xs (omega (arith, holds.few)) linked.3 in
    (
      record base {
        presets = s.presets;
        nodes =
            put_node (set_next base.nodes (last_of p xs) (some s.fresh)) s.fresh
              (record (set_next base.nodes (last_of p xs) (some s.fresh) s.fresh) {
                prev = some (last_of p xs);
              });
      },
      ap (λ head. (no_error, link_new base s.fresh head)) holds.linked.0
          ∙ ap
              (λ l. (
                no_error,
                record base {
                  nodes =
                      put_node (set_next base.nodes l (some s.fresh)) s.fresh
                        (record (set_next base.nodes l (some s.fresh) s.fresh) { prev = some l });
                },
              ))
              last,
      record {
        linked =
            subst
              (λ head.
                Linked
                  (put_node (set_next base.nodes (last_of p xs) (some s.fresh)) s.fresh
                    (record (set_next base.nodes (last_of p xs) (some s.fresh) s.fresh) {
                      prev = some (last_of p xs);
                    }))
                  ((p, x) ∷ xs ++ (s.fresh, preset) ∷ []) none head)
              (sym holds.linked.0)
              (Linked-snoc base.nodes p x xs none s.fresh preset
                (refl, linked.1, linked.2, linked.3) holds.apart (λ e. away.0 (sym e)) away.1
                (ap (λ (m : SeqNode). m.preset) at_new) (ap (λ (m : SeqNode). m.next) at_new));
        made = made-snoc ((p, x) ∷ xs) s.fresh preset holds.made;
        apart = Apart-snoc ((p, x) ∷ xs) s.fresh preset holds.made holds.apart;
        few = omega (arith, holds.few, length-append xs ((s.fresh, preset) ∷ []));
      },
      self_test preset (s.owned preset),
      refl,
    )
