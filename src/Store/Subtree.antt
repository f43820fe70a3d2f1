-- ===== src/Store/Subtree.antt =====
-- src/tree.rs and src/delegation.rs: the tasks below a task, the intents to cancel them, and the
-- owners above a task.
pub mod Covered
use brgr.Base.{
  Bool, List, Option, Result, [], any, err, false, filter, if◌then◌else◌, length, list_eq, ltb, map,
  nat_eq, none, ok, ok_or, option_eq, some, string_eq, suc, true, update, zero, ℕ, ◌++◌, ◌+◌, ◌==◌,
  ◌>>=◌, ◌>>◌, ◌∷◌,
}
use brgr.Protocol.{OwnerId, TaskId, outcome_eq, state_eq}
use brgr.Store.{
  EdgeRow, Store, StoreError, database, invalid_column, run_state_eq, subtree_too_large,
  takeover_state_eq,
}
use brgr.Store.Owner.{OwnerProof}
use brgr.Store.Messages.{assert_task_owner}
use brgr.Store.Debates.{task_spec}
use brgr.Store.Delegation.{edge_of, max_revision}

pub record SubtreeNode : Type 0 where
  pub task_id : TaskId
  pub parent_task_id : Option TaskId
  pub depth : ℕ

abbrev pub root_node : TaskId → SubtreeNode
root_node root = record { task_id = root; parent_task_id = none; depth = 0 }

abbrev pub node_of : ℕ → EdgeRow → SubtreeNode
node_of depth e = record {
  task_id = e.child_task_id;
  parent_task_id = some e.parent_task_id;
  depth = depth;
}

abbrev pub children_of : List EdgeRow → SubtreeNode → List SubtreeNode
children_of edges n =
    map (node_of (n.depth + 1)) (filter (λ e. e.parent_task_id == n.task_id) edges)

unfoldable pub next_level : List EdgeRow → List SubtreeNode → List SubtreeNode
next_level edges [] = []
next_level edges (n ∷ level) = children_of edges n ++ next_level edges level

-- The recursive query: the levels from one on, so many of them, the deepest first.
unfoldable pub levels : ℕ → List EdgeRow → List SubtreeNode → List SubtreeNode
levels zero edges level = level
levels (suc k) edges level = levels k edges (next_level edges level) ++ level

-- `query_subtree`; the order inside a level is that of the edges. The bound of 257 rows on the query
-- leaves its test of 256 as it is.
unfoldable pub query_subtree : Store → TaskId → Result StoreError (List SubtreeNode)
query_subtree s root =
    let nodes = levels 8 s.delegation_edges (root_node root ∷ []) in
    if ltb 256 (length nodes) then err subtree_too_large else ok nodes

unfoldable pub subtree : Store → TaskId → Result StoreError (List SubtreeNode)
subtree s root = do spec ← task_spec s root; query_subtree s root

-- INSERT INTO cancellation_intents … ON CONFLICT(task_id) DO UPDATE
unfoldable pub put_intent : Store → TaskId → ℕ → Store
put_intent s task n =
    if any (λ c. c.task_id == task) s.cancellation_intents
    then record s {
      cancellation_intents =
          update (λ c. c.task_id == task) (λ c. record c { revision = n }) s.cancellation_intents;
    }
    else record s {
      cancellation_intents = record { task_id = task; revision = n } ∷ s.cancellation_intents;
    }

-- The loop over the nodes; the highest revision of a task without one is no number.
unfoldable pub record_each : Store → List SubtreeNode → Result StoreError Store
record_each s [] = ok s
record_each s (n ∷ nodes) = do
  latest ← ok_or (max_revision s.tasks n.task_id) (database invalid_column)
  record_each (put_intent s n.task_id latest) nodes

abbrev pub check_canceller : Store → Option OwnerProof → TaskId → Result StoreError Store
check_canceller s none root = ok s
check_canceller s (some proof) root = assert_task_owner s proof root

-- `record_cancellation_intents_with_proof`
unfoldable pub record_cancellation_intents :
    Store → TaskId → Bool → Option OwnerProof → Result StoreError (List SubtreeNode × Store)
record_cancellation_intents s root include_descendants proof = do
  spec ← task_spec s root
  u ← check_canceller s proof root
  nodes ← (if include_descendants then query_subtree u root else ok (root_node root ∷ []))
  v ← record_each u nodes
  ok (nodes, v)

-- The rest of the walk up from a task, whose parent may be recorded.
unfoldable pub owned_above : ℕ → Store → TaskId → OwnerId → Result StoreError Bool
owned_above zero s task owner = ok false
owned_above (suc n) s task owner = do
  spec ← task_spec s task
  elim (spec.owner_id == owner) [
    | true ↦ ok true
    | false ↦ elim (edge_of s task) [
      | none ↦ ok false
      | some e ↦ owned_above n s e.parent_task_id owner
    ]
  ]

-- `is_task_owner_ancestor`: `for _ in 0..=8`
abbrev pub is_task_owner_ancestor : Store → TaskId → OwnerId → Result StoreError Bool
is_task_owner_ancestor s task owner = owned_above 9 s task owner
