-- ===== src/Store/Delegation.antt =====
-- src/delegation.rs and src/tree.rs: who may delegate, how deep, and how many children at a time;
-- and the recorded intents to cancel.
use brgr.Base.{
  Bool, List, Option, Result, [], any, count, false, filter, find?, map, if◌then◌else◌, leb,
  list_eq, nat_eq, none, not, ok, ok_or, option_beq, option_eq, refuse, some, string_eq, true, ℕ,
  ◌&&◌, ◌+◌, ◌==◌, ◌>>=◌, ◌>>◌, ◌||◌, ◌∷◌,
}
use brgr.Protocol.{
  AttemptId, AttemptState, TaskId, TaskSpec, blocked, candidate, failed, outcome_eq, running,
  state_eq,
}
use brgr.Store.{
  AttemptRow, EdgeRow, Platform, Store, StoreError, TaskRow, blocked, concurrent_child_limit,
  database, delegation_depth_exceeded, delegation_parent_cancelled, failed,
  invalid_delegation_parent, no_rows, run_state_eq, running, takeover_state_eq, task_not_found,
}
use brgr.Store.Settle.{result_of}
use brgr.Store.Attempts.{attempt_of}
use brgr.Store.Attempts.Terminal.{task_of_attempt}
use Prim.Native.Nat.{max}

abbrev pub Parent : Type 0
Parent = TaskId × AttemptId

abbrev pub same_parent : Parent → Parent → Bool
same_parent p q = p.0 == q.0 && p.1 == q.1

abbrev pub highest : Option ℕ → ℕ → Option ℕ
highest none n = some n
highest (some m) n = some (max m n)

-- SELECT MAX(revision) FROM tasks WHERE task_id = …
unfoldable pub max_revision : List TaskRow → TaskId → Option ℕ
max_revision [] task = none
max_revision (t ∷ ts) task =
    let rest = max_revision ts task in if t.task_id == task then highest rest t.revision else rest

unfoldable pub latest_revision : Store → TaskId → Result StoreError ℕ
latest_revision s task = ok_or (max_revision s.tasks task) (task_not_found task)

unfoldable pub edge_of : Store → TaskId → Option EdgeRow
edge_of s child = find? (λ e. e.child_task_id == child) s.delegation_edges

abbrev pub parent_in : Option EdgeRow → Option Parent
parent_in none = none
parent_in (some e) = some (e.parent_task_id, e.parent_attempt_id)

abbrev pub depth_in : Option EdgeRow → ℕ
depth_in none = 0
depth_in (some e) = e.depth

-- `recorded_delegation_parent`
unfoldable pub recorded_parent : Store → TaskId → Option Parent
recorded_parent s child = parent_in (edge_of s child)

-- One row of the count: the child's latest revision is not cancelled, and has no result, or a
-- failed one and no completed run.
unfoldable pub is_active_child : Store → EdgeRow → Bool
is_active_child s e = elim (max_revision s.tasks e.child_task_id) [
  | none ↦ false
  | some n ↦
      not (any (λ c. c.task_id == e.child_task_id && c.revision == n) s.cancellation_intents)
      && (not (any (result_of e.child_task_id n) s.results)
          || any (λ r. result_of e.child_task_id n r && r.envelope.outcome == failed) s.results
            && not (any (λ c. c.task_id == e.child_task_id && c.revision == n) s.run_completions))
]

unfoldable pub active_child_count : Store → AttemptId → ℕ
active_child_count s parent =
    count (λ e. e.parent_attempt_id == parent && is_active_child s e) s.delegation_edges

abbrev pub child_limit : Option ℕ → ℕ
child_limit none = 2
child_limit (some n) = n

abbrev pub may_delegate : AttemptState → Bool
may_delegate running = true
may_delegate blocked = true
may_delegate _ = false

abbrev pub is_parent : TaskId → Option AttemptRow → Bool
is_parent task none = false
is_parent task (some a) = a.task_id == task && may_delegate a.state

-- `validate_new_task_parent`
unfoldable pub validate_new_parent :
    Store → TaskId → Option Parent → Option Parent → Result StoreError (Unit {0})
validate_new_parent s task none none = ok tt
validate_new_parent s task none (some q) =
    refuse (any (λ t. t.task_id == task) s.tasks) invalid_delegation_parent
validate_new_parent s task (some p) wanted =
    refuse (not (option_beq same_parent (some p) wanted)) invalid_delegation_parent

module _ (platform : Platform) where
  -- The guards of `validated_parent_depth` once the parent's attempt is read.
  pub child_depth : Store → TaskSpec → Parent → AttemptRow → Result StoreError ℕ
  child_depth s task p a = do
    refuse (any (λ c. c.task_id == p.0 && c.revision == a.revision) s.cancellation_intents)
        delegation_parent_cancelled
    found ← ok_or (task_of_attempt s p.1) (database no_rows)
    refuse (leb (child_limit found.1.spec.max_concurrent_children) (active_child_count s p.1))
        concurrent_child_limit
    let depth = depth_in (edge_of s p.0)
    refuse (leb 8 depth) delegation_depth_exceeded
    ok (depth + 1)

  unfoldable pub validated_parent_depth :
      Store → TaskSpec → Option Parent → Result StoreError (Option ℕ)
  unfolding child_depth
  validated_parent_depth s task none = ok none
  validated_parent_depth s task (some p) = do
    refuse
        (not (is_parent p.0 (attempt_of s p.1)) || not (task.owner_id == platform.worker_owner p.1))
        invalid_delegation_parent
    a ← ok_or (attempt_of s p.1) invalid_delegation_parent
    depth ← child_depth s task p a
    ok (some depth)

-- `cancellation_requested`
unfoldable pub cancellation_requested : Store → TaskId → Bool
cancellation_requested s task =
    any (λ c. c.task_id == task && max_revision s.tasks task == some c.revision)
      s.cancellation_intents

-- A child that its parent has to see to: not cancelled, and without a result, or with one that its
-- owner has not acknowledged, or with a candidate that is not decided.
unfoldable pub is_unsettled_child : Store → EdgeRow → Bool
is_unsettled_child s e = elim (max_revision s.tasks e.child_task_id) [
  | none ↦ false
  | some n ↦ elim (find? (λ t. t.task_id == e.child_task_id && t.revision == n) s.tasks) [
    | none ↦ false
    | some t ↦
        not (any (λ c. c.task_id == t.task_id && c.revision == n) s.cancellation_intents)
        && elim (find? (result_of t.task_id n) s.results) [
          | none ↦ true
          | some r ↦
              not (
                any (λ i. i.result_id == r.result_id && i.owner_id == t.owner_id && i.acknowledged)
                  s.inbox_items)
              || r.envelope.outcome == candidate
                && not (any (λ d. d.result_id == r.result_id) s.decisions)
        ]
  ]
]

-- `unsettled_child_tasks`; the order of the children is that of their edges.
unfoldable pub unsettled_child_tasks : Store → AttemptId → List TaskId
unsettled_child_tasks s parent =
    map (λ e. e.child_task_id)
      (filter (λ e. e.parent_attempt_id == parent && is_unsettled_child s e) s.delegation_edges)
