-- ===== src/Sequence.antt =====
-- components/core/kest_sequence.c: the doubly linked list of the presets of a sequence, and the
-- position in it. A pointer to a node is its number, a preset is a number, and `none` is NULL.
pub mod Linked
pub mod Append
pub mod Steps
pub mod Remove
pub mod Move
use kestrel_interface.Prelude.{
  ℕ, zero, suc, ◌+◌, ◌-◌, Bool, true, false, not, ◌||◌, Option, none, some, ◌==◌, if◌then◌else◌,
}
use kestrel_interface.Prelude.Int.{ℤ, pos, negsuc}
use kestrel_interface.Status.{no_error, err_bad_args, err_alloc_fail}

pub record SeqNode : Type 0 where
  pub preset : ℕ
  pub next : Option ℕ
  pub prev : Option ℕ

-- A sequence with the nodes it can reach, the number of the next node that `kest_alloc` gives, and
-- what it writes elsewhere: which presets name it as their sequence, and whether the global
-- context does. A name, listings and saves are left out.
pub record Sequence : Type 0 where
  pub nodes : ℕ → SeqNode
  pub fresh : ℕ
  pub presets : Option ℕ
  pub position : Option ℕ
  pub active : Bool
  pub owned : ℕ → Bool
  pub in_context : Bool

-- A write to the memory of the nodes.
unfoldable pub put_node : (ℕ → SeqNode) → ℕ → SeqNode → ℕ → SeqNode
put_node nodes p node q = if q == p then node else nodes q

unfoldable pub set_next : (ℕ → SeqNode) → ℕ → Option ℕ → ℕ → SeqNode
set_next nodes p next = put_node nodes p (record (nodes p) { next = next })

-- The walk to the last node. `fuel` counts the nodes that were ever made.
unfoldable pub last_from : ℕ → (ℕ → SeqNode) → ℕ → ℕ
last_from zero nodes p = p
last_from (suc fuel) nodes p = elim (nodes p).next [ none ↦ p | some q ↦ last_from fuel nodes q ]

-- The walk to the first node with this preset.
unfoldable pub find_from : ℕ → (ℕ → SeqNode) → Option ℕ → ℕ → Option ℕ
find_from fuel nodes none preset = none
find_from zero nodes (some p) preset = none
find_from (suc fuel) nodes (some p) preset =
    if (nodes p).preset == preset then some p else find_from fuel nodes (nodes p).next preset

unfoldable pub link_new : Sequence → ℕ → Option ℕ → Sequence
link_new s p none = record s { presets = some p }
link_new s p (some head) =
    let last = last_from s.fresh s.nodes head in
    let linked = set_next s.nodes last (some p) in
    record s { nodes = put_node linked p (record (linked p) { prev = some last }) }

-- The new node, in the memory that `kest_alloc` has given.
unfoldable pub new_node : Sequence → ℕ → Sequence
new_node s preset = record s {
  nodes = put_node s.nodes s.fresh (record { preset = preset; next = none; prev = none });
  fresh = suc s.fresh;
}

-- `granted` is whether `kest_alloc` gives memory.
unfoldable pub sequence_append_preset : Bool → Sequence → ℕ → ℕ × Sequence
sequence_append_preset granted s preset = if not granted then (err_alloc_fail, s) else (
  no_error,
  link_new (record (new_node s preset) { owned = λ q. if q == preset then true else s.owned q })
      s.fresh s.presets,
)

unfoldable pub sequence_append_preset_rp : Bool → Sequence → ℕ → Option ℕ × Sequence
sequence_append_preset_rp granted s preset =
    if not granted
    then (none, s)
    else (some s.fresh, link_new (new_node s preset) s.fresh s.presets)

-- The node goes; the `prev` of the one behind it stays.
unfoldable pub unlink : Sequence → ℕ → Option ℕ → Sequence
unlink s p none = record s { presets = (s.nodes p).next }
unlink s p (some before) = record s { nodes = set_next s.nodes before (s.nodes p).next }

unfoldable pub remove_found : Sequence → Option ℕ → ℕ × Sequence
remove_found s none = (err_bad_args, s)
remove_found s (some p) = (no_error, unlink s p (s.nodes p).prev)

unfoldable pub kest_sequence_remove_preset : Sequence → ℕ → ℕ × Sequence
kest_sequence_remove_preset s preset = remove_found s (find_from s.fresh s.nodes s.presets preset)

-- `activate` is the code that set_active_preset_from_sequence returns for a preset.
module _ (activate : Option ℕ → ℕ) where
  -- The preset of the node is made the active one; if that works, the rest of the state is set.
  unfoldable pub begin_node : Sequence → ℕ → ℕ × Sequence
  begin_node s p =
      let result = activate (some (s.nodes p).preset) in
      if result == no_error
      then (no_error, record s { in_context = true; active = true; position = some p })
      else (result, s)

  unfoldable pub kest_sequence_begin : Sequence → ℕ × Sequence
  kest_sequence_begin s = elim s.presets [ none ↦ (no_error, s) | some p ↦ begin_node s p ]

  unfoldable pub kest_sequence_begin_at : Sequence → ℕ → ℕ × Sequence
  kest_sequence_begin_at s preset = elim s.presets [
    | none ↦ (no_error, s)
    | some head ↦ elim (find_from s.fresh s.nodes (some head) preset) [
      | none ↦ (err_bad_args, s)
      | some p ↦ begin_node s p
    ]
  ]

  -- To the node `to`, or nowhere when the end of the list is reached.
  unfoldable pub step_to : Sequence → Option ℕ → ℕ × Sequence
  step_to s none = (no_error, s)
  step_to s (some to) =
      let result = activate (some (s.nodes to).preset) in
      if result == no_error then (no_error, record s { position = some to }) else (result, s)

  -- From the position along `way`, when the sequence is running.
  unfoldable pub step : (SeqNode → Option ℕ) → Sequence → Option ℕ → Option ℕ → ℕ × Sequence
  step way s none position = (err_bad_args, s)
  step way s (some head) none = (err_bad_args, s)
  step way s (some head) (some p) =
      if not s.active then (err_bad_args, s) else step_to s (way (s.nodes p))

  unfoldable pub kest_sequence_regress : Sequence → ℕ × Sequence
  kest_sequence_regress s = step (λ (n : SeqNode). n.prev) s s.presets s.position

  unfoldable pub kest_sequence_advance : Sequence → ℕ × Sequence
  kest_sequence_advance s = step (λ (n : SeqNode). n.next) s s.presets s.position

unfoldable pub kest_sequence_stop_from_preset : Sequence → ℕ × Sequence
kest_sequence_stop_from_preset s =
    (no_error, record s { in_context = false; active = false; position = none })

-- What set_active_preset_from_sequence answers to NULL is not looked at.
unfoldable pub kest_sequence_stop : Sequence → ℕ × Sequence
kest_sequence_stop s = (no_error, record s { in_context = false; active = false; position = none })

unfoldable pub kest_sequence_activate_at : Sequence → ℕ → ℕ × Sequence
kest_sequence_activate_at s preset = elim (find_from s.fresh s.nodes s.presets preset) [
  | none ↦ (err_bad_args, s)
  | some p ↦ (no_error, record s { position = some p; active = true })
]

-- `i` steps along the list: the node before, and the node.
unfoldable pub walk : ℕ → (ℕ → SeqNode) → Option ℕ → Option ℕ → Option ℕ × Option ℕ
walk zero nodes prev target = (prev, target)
walk (suc i) nodes prev none = walk i nodes none none
walk (suc i) nodes prev (some p) = walk i nodes (some p) (nodes p).next

unfoldable pub set_next_of : (ℕ → SeqNode) → Option ℕ → Option ℕ → ℕ → SeqNode
set_next_of nodes none next = nodes
set_next_of nodes (some p) next = set_next nodes p next

-- The node `target` is put behind `prev`.
unfoldable pub put_behind : Sequence → ℕ → Option ℕ → ℕ × Sequence
put_behind s target none = (err_bad_args, s)
put_behind s target (some prev) = (
  no_error,
  record s { nodes = set_next (set_next s.nodes target (s.nodes prev).next) prev (some target) },
)

unfoldable pub move_found : Sequence → ℕ → Option ℕ → Option ℕ → ℕ × Sequence
move_found s new_pos prev none = (err_bad_args, s)
move_found s new_pos prev (some target) =
    let cut = set_next_of s.nodes prev (s.nodes target).next in
    if new_pos == 0
    then (no_error, record s { nodes = set_next cut target s.presets; presets = some target })
    else put_behind (record s { nodes = cut }) target (walk new_pos cut none s.presets).0

-- Places below 0 are refused.
unfoldable pub kest_sequence_move_preset : Sequence → ℤ → ℤ → ℕ × Sequence
kest_sequence_move_preset s (negsuc n) new_pos = (err_bad_args, s)
kest_sequence_move_preset s (pos n) (negsuc m) = (err_bad_args, s)
kest_sequence_move_preset s (pos n) (pos m) =
    let (prev, target) = walk n s.nodes none s.presets in move_found s m prev target
