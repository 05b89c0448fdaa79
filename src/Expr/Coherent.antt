-- ===== src/Expr/Coherent.antt =====
-- The cached values in kest_expression_evaluate_rec of components/core/kest_expression.c.
use kestrel_interface.Prelude.{
  ℕ, suc, ◌+◌, ◌≤◌, ◌≡◌, refl, sym, ap, ap₂, subst, ◌∙◌, Bool, true, false, ◌&&◌, Option, none,
  some, List, ltb, arith, inl, inr, Bool-cases, Option-cases,
}
use kestrel_interface.Token.{same}
use kestrel_interface.Expr.{
  MathLibrary, Node, Expression, null, expression_t, node, rec_max_depth, is_const, is_ref, is_div,
  name_pi, name_e, name_sample_rate, name_data_width,
}
use kestrel_interface.Expr.Evaluate.{
  Moment, Referred, op_1, op_2, refer, scope_value, entry_value, compute_return, reference_return,
  switch_by, combine_by, switch_type, kest_expression_evaluate_rec, combine, meaning, height,
}

module _ (lib : MathLibrary) (stale : lib.Float) where
  open lib use {Float, of_ℕ, tiny, lt, fabs, div}

  -- The value is the same at any moment and at any depth.
  abbrev pub Steady : Expression Float → Type 0
  Steady e = (m m' : Moment Float) (d d' : ℕ) → meaning lib stale m e d ≡ meaning lib stale m' e d'

  -- The same value at every moment.
  abbrev pub Alike : Expression Float → Expression Float → Type 0
  Alike e e' = (m : Moment Float) (d : ℕ) → meaning lib stale m e' d ≡ meaning lib stale m e d

  -- A node that is marked as constant is so; and what a node has cached is its value, if that is
  -- the same everywhere.
  abbrev pub Coherent : Expression Float → Type 0
  Coherent null = Unit
  Coherent expression_t = Unit
  Coherent (node n e f) =
      (n.constant ≡ true → Steady (node n e f))
      × (n.cached ≡ true
          → Steady (node n e f)
          → (m : Moment Float) (d : ℕ) → n.cached_val ≡ meaning lib stale m (node n e f) d)
      × Coherent e
      × Coherent f

  -- What an evaluation is to give.
  abbrev pub Evaluated : Moment Float → Expression Float → ℕ → Float × Expression Float → Type 0
  Evaluated m e d r =
      (r.0 ≡ meaning lib stale m e d) × Alike e r.1 × Coherent r.1 × (height r.1 ≡ height e)

  pub node-Alike :
      (n : Node Float) (constant cached : Bool) (v : Float) (e f e' f' : Expression Float)
      → Alike e e'
      → Alike f f'
      → Alike
          (node n e f)
          (node (record n { constant = constant; cached = cached; cached_val = v }) e' f')
  unfolding meaning
  node-Alike n constant cached v e f e' f' h k m d = rw (h m (d + 1), k m (d + 1)) refl

  -- A value that is right may be cached.
  return-Evaluated :
      (m : Moment Float) (n : Node Float) (constant : Bool) (e f e' f' : Expression Float)
      (v : Float) (d : ℕ)
      → (constant ≡ true → Steady (node n e f))
      → v ≡ meaning lib stale m (node n e f) d
      → Alike e e' × Coherent e' × (height e' ≡ height e)
      → Alike f f' × Coherent f' × (height f' ≡ height f)
      → Evaluated m
          (node n e f)
          d
          (v, node (record n { constant = constant; cached = true; cached_val = v }) e' f')
  unfolding height
  return-Evaluated m n constant e f e' f' v d steady right (alike_e, coherent_e, height_e)
        (alike_f, coherent_f, height_f) =
      let alike : Alike (node n e f)
          (node (record n { constant = constant; cached = true; cached_val = v }) e' f') =
        node-Alike n constant true v e f e' f' alike_e alike_f in
      (
        right,
        alike,
        (
          λ c m1 m2 d1 d2. alike m1 d1 ∙ steady c m1 m2 d1 d2 ∙ sym (alike m2 d2),
          λ i fixed m1 d1. right ∙ sym (alike m d) ∙ fixed m m1 d d1,
          coherent_e,
          coherent_f,
        ),
        rw (height_e, height_f) refl,
      )

  value_and_rest :
      (m : Moment Float) (e : Expression Float) (d : ℕ) (r : Float × Expression Float)
      → Evaluated m e d r
      → (r.0 ≡ meaning lib stale m e d) × (Alike e r.1 × Coherent r.1 × (height r.1 ≡ height e))
  value_and_rest m e d r (value, alike, coherent, tall) = (value, (alike, coherent, tall))

  -- What a pointer that is not followed keeps.
  pub kept : (e : Expression Float) → Coherent e → Alike e e × Coherent e × (height e ≡ height e)
  kept e coherent = (λ m d. refl, coherent, refl)

  scope_value-loose :
      (scope : Option (List ℕ → Option (ℕ → ℕ × Float))) (name : List ℕ) (d : ℕ)
      → (scope_value lib stale scope name d).fixes ≡ false
  unfolding scope_value entry_value
  scope_value-loose none name d = refl
  scope_value-loose (some fetch) name d = elim (Option-cases (fetch name)) [
    | inl missing ↦ elim (Bool-cases (same name name_data_width)) [
      | inl width ↦ rw (missing, width) refl
      | inr unknown ↦ rw (missing, unknown) refl
    ]
    | inr (entry, there) ↦ rw there refl
  ]

  -- A reference that makes its node a constant means the same everywhere.
  refer-fixes :
      (m m' : Moment Float) (d d' : ℕ) (name : Option (List ℕ))
      → (refer lib stale m d name).fixes ≡ true
      → refer lib stale m d name ≡ refer lib stale m' d' name
  unfolding refer
  refer-fixes m m' d d' none h = refl
  refer-fixes m m' d d' (some name) h = elim (Bool-cases (same name name_pi)) [
    | inl is_pi ↦ rw is_pi refl
    | inr not_pi ↦ elim (Bool-cases (same name name_e)) [
      | inl is_e ↦ rw (not_pi, is_e) refl
      | inr not_e ↦ elim (Bool-cases (same name name_sample_rate)) [
        | inl is_rate ↦ rw (not_pi, not_e, is_rate) refl
        | inr not_rate ↦
            let loose : (refer lib stale m d (some name)).fixes ≡ false =
              rw (not_pi, not_e, not_rate) (scope_value-loose m.scope name d) in
            let clash : true ≡ false = sym h ∙ loose in cc
      ]
    ]
  ]

  reference-Evaluated :
      (m : Moment Float) (n : Node Float) (e f : Expression Float) (d : ℕ)
      → is_const n.type ≡ false
      → is_ref n.type ≡ true
      → Coherent (node n e f)
      → Evaluated m
          (node n e f)
          d
          (reference_return lib stale n e f (refer lib stale m d n.ref_name))
  unfolding reference_return compute_return meaning
  reference-Evaluated m n e f d other reference coherent =
      let r : Referred Float = refer lib stale m d n.ref_name in
      let means : (m1 : Moment Float) (d1 : ℕ)
          → meaning lib stale m1 (node n e f) d1 ≡ (refer lib stale m1 d1 n.ref_name).value =
        λ m1 d1. rw (other, reference) refl in
      elim (Bool-cases r.caches) [
        | inl caches ↦ elim (Bool-cases r.fixes) [
          | inl fixes ↦
              rw (caches, fixes)
                (return-Evaluated m n true e f e f r.value d
                  (λ i m1 m2 d1 d2.
                    means m1 d1
                    ∙ sym (
                        ap (λ (q : Referred Float). q.value)
                          (refer-fixes m m1 d d1 n.ref_name fixes))
                    ∙ ap (λ (q : Referred Float). q.value) (refer-fixes m m2 d d2 n.ref_name fixes)
                    ∙ sym (means m2 d2))
                  (sym (means m d)) (kept e coherent.2) (kept f coherent.3))
          | inr loose ↦
              rw (caches, loose)
                (return-Evaluated m n n.constant e f e f r.value d coherent.0 (sym (means m d))
                  (kept e coherent.2) (kept f coherent.3))
        ]
        | inr passes ↦ rw passes ((sym (means m d), (λ m1 d1. refl), coherent, refl))
      ]

  switch_by-Evaluated :
      (o1 : Option (Float → Float)) (o2 : Option (Float → Float → Float)) (div_type : Bool)
      (m : Moment Float) (n : Node Float) (e f : Expression Float) (d : ℕ)
      (first second : Float × Expression Float)
      → meaning lib stale m (node n e f) d ≡ combine_by lib stale o1 o2 div_type first.0 second.0
      → Coherent (node n e f)
      → Alike e first.1 × Coherent first.1 × (height first.1 ≡ height e)
      → Alike f second.1 × Coherent second.1 × (height second.1 ≡ height f)
      → Evaluated m (node n e f) d (switch_by lib stale o1 o2 div_type n e f first second)
  unfolding switch_by combine_by compute_return
  switch_by-Evaluated (some g) o2 div_type m n e f d first second means coherent after_e after_f =
      return-Evaluated m n n.constant e f first.1 f (g first.0) d coherent.0 (sym means) after_e
        (kept f coherent.3)
  switch_by-Evaluated none (some g) div_type m n e f d first second means coherent after_e after_f =
      return-Evaluated m n n.constant e f first.1 second.1 (g first.0 second.0) d coherent.0
        (sym means) after_e after_f
  switch_by-Evaluated none none true m n e f d first second means coherent after_e after_f =
      elim (Bool-cases (lt (fabs second.0) tiny)) [
        | inl small ↦ rw small (
            return-Evaluated m n n.constant e f e second.1 (of_ℕ 0) d coherent.0
              (sym (means ∙ rw small refl)) (kept e coherent.2) after_f)
        | inr large ↦ rw large (
            return-Evaluated m n n.constant e f first.1 second.1 (div first.0 second.0) d coherent.0
              (sym (means ∙ rw large refl)) after_e after_f)
      ]
  switch_by-Evaluated none none false m n e f d first second means coherent after_e after_f =
      return-Evaluated m n n.constant e f e f stale d coherent.0 (sym means) (kept e coherent.2)
        (kept f coherent.3)

  from_run :
      (m : Moment Float) (n : Node Float) (e f : Expression Float) (d : ℕ)
      (r : Float × Expression Float)
      → kest_expression_evaluate_rec lib stale m (node n e f) d ≡ r
      → Evaluated m (node n e f) d r
      → Evaluated m (node n e f) d (kest_expression_evaluate_rec lib stale m (node n e f) d)
  from_run m n e f d r run = subst (λ r. Evaluated m (node n e f) d r) (sym run)

  -- A coherent expression whose nodes all lie within the depth evaluates to its meaning, and the
  -- caches that the evaluation writes leave it coherent and with the same meaning.
  pub evaluate_rec-Evaluated :
      (m : Moment Float) (e : Expression Float) (d : ℕ)
      → d + height e ≤ suc rec_max_depth
      → Coherent e
      → Evaluated m e d (kest_expression_evaluate_rec lib stale m e d)
  unfolding kest_expression_evaluate_rec meaning height switch_type combine compute_return
  evaluate_rec-Evaluated m null d h coherent = (refl, (λ m1 d1. refl), _, refl)
  evaluate_rec-Evaluated m expression_t d h coherent =
      let within : ltb rec_max_depth d ≡ false = ground arith in
      rw within ((refl, (λ m1 d1. refl), _, refl))
  evaluate_rec-Evaluated m (node n e f) d h coherent =
      let within : ltb rec_max_depth d ≡ false = ground arith in
      let first : Float × Expression Float = kest_expression_evaluate_rec lib stale m e (d + 1) in
      let second : Float × Expression Float = kest_expression_evaluate_rec lib stale m f (d + 1) in
      let (value_e, after_e) =
        value_and_rest m e (d + 1) first
          (evaluate_rec-Evaluated m e (d + 1) (omega arith) coherent.2) in
      let (value_f, after_f) =
        value_and_rest m f (d + 1) second
          (evaluate_rec-Evaluated m f (d + 1) (omega arith) coherent.3) in
      elim (Bool-cases (n.constant && n.cached)) [
        | inl known ↦
            from_run m n e f d (compute_return lib stale n e f n.cached_val)
              (rw (within, known) refl)
              (return-Evaluated m n n.constant e f e f n.cached_val d coherent.0
                (coherent.1 (ground arith) (coherent.0 (ground arith)) m d) (kept e coherent.2)
                (kept f coherent.3))
        | inr unknown ↦ elim (Bool-cases (is_const n.type)) [
          | inl const ↦
              from_run m n e f d (compute_return lib stale n e f n.val_float)
                (rw (within, unknown, const) refl)
                (return-Evaluated m n n.constant e f e f n.val_float d coherent.0 (rw const refl)
                  (kept e coherent.2) (kept f coherent.3))
          | inr other ↦ elim (Bool-cases (is_ref n.type)) [
            | inl reference ↦
                from_run m n e f d
                  (reference_return lib stale n e f (refer lib stale m d n.ref_name))
                  (rw (within, unknown, other, reference) refl)
                  (reference-Evaluated m n e f d other reference coherent)
            | inr operation ↦
                from_run m n e f d (switch_type lib stale n e f first second)
                  (rw (within, unknown, other, operation) refl)
                  (switch_by-Evaluated (op_1 lib stale n.type) (op_2 lib stale n.type)
                    (is_div n.type) m n e f d first second
                    (rw (other, operation)
                      (ap₂ (combine lib stale n.type) (sym value_e) (sym value_f)))
                    coherent after_e after_f)
          ]
        ]
      ]
