-- ===== src/Store/Tasks/Replay.antt =====
-- A repeated admission finds what the first one wrote.
use text.Mathlib.TextEquality.{eq_iff}
use brgr.Base.{
  ==_refl, Option, Option-cases, Result-cases, String, arith, false, find?, inl, inr, list_eq,
  nat_eq, none, ok, option_beq, option_eq, refl, some, string_eq, subst, sym, true, ℕ, ◌==◌, ◌∷◌,
  ◌≡◌,
}
use brgr.Protocol.{TaskId, TaskSpec, outcome_eq, state_eq}
use brgr.Store.{
  IdempotencyRow, Platform, Store, WriteOutcome, already_applied, run_state_eq, takeover_state_eq,
}
use brgr.Store.Delegation.{
  Parent, edge_of, recorded_parent, same_parent, validate_new_parent, validated_parent_depth,
}
use brgr.Store.Tasks.{
  assert_author, first_task, insert_edge, insert_task, is_request, names_other, record_idempotency,
  record_in_transaction, record_task, replayed_task,
}

same_parent_refl : (p : Parent) → same_parent p p ≡ true
same_parent_refl p = let a = ==_refl p.0 in let b = ==_refl p.1 in ground arith

parent_same : (p q : Option Parent) → option_beq same_parent p q ≡ true → names_other p q ≡ false
parent_same none none h = refl
parent_same none (some q) h = cc
parent_same (some p) none h = refl
parent_same (some p) (some q) h = ground arith

-- The parent that the store names for a child just admitted is the one that was asked for.
parent_after :
    (p : Platform) (s u : Store) (task : TaskSpec) (parent : Option Parent) (depth : Option ℕ)
    → validate_new_parent s task.task_id (recorded_parent s task.task_id) parent ≡ ok tt
    → validated_parent_depth p s task parent ≡ ok depth
    → u.delegation_edges ≡ s.delegation_edges
    → names_other
        (recorded_parent
          (insert_edge u task.task_id parent depth (recorded_parent s task.task_id))
          task.task_id)
        parent
      ≡ false
unfolding validate_new_parent validated_parent_depth insert_edge recorded_parent edge_of
parent_after p s u task none depth new given rows = refl
parent_after p s u task (some q) none new given rows = absurd (ground arith)
parent_after p s u task (some q) (some depth) new given rows =
    elim (Option-cases (find? (λ e. e.child_task_id == task.task_id) s.delegation_edges)) [
      | inl missing ↦
          let self = ==_refl task.task_id in let same = same_parent_refl q in ground arith
      | inr (e, found) ↦ ground arith
    ]

insert_task_rows :
    (s u : Store) (task : TaskSpec) (digest : String)
    → insert_task s task digest ≡ ok u
    → (find? (λ t. t.create_request_id == task.create_request_id) u.tasks
        ≡ some (record {
          task_id = task.task_id;
          revision = task.revision;
          owner_id = task.owner_id;
          create_request_id = task.create_request_id;
          request_digest = digest;
          spec = task;
        }))
      × (u.delegation_edges ≡ s.delegation_edges)
      × (u.idempotency_requests ≡ s.idempotency_requests)
unfolding insert_task
insert_task_rows s u task digest h =
    let self = ==_refl task.create_request_id in (ground arith, ground arith, ground arith)

edge_rows :
    (s : Store) (child : TaskId) (parent recorded : Option Parent) (depth : Option ℕ)
    → ((insert_edge s child parent depth recorded).tasks ≡ s.tasks)
      × ((insert_edge s child parent depth recorded).idempotency_requests ≡ s.idempotency_requests)
unfolding insert_edge
edge_rows s child none none none = (refl, refl)
edge_rows s child none none (some r) = (refl, refl)
edge_rows s child none (some d) none = (refl, refl)
edge_rows s child none (some d) (some r) = (refl, refl)
edge_rows s child (some p) none none = (refl, refl)
edge_rows s child (some p) none (some r) = (refl, refl)
edge_rows s child (some p) (some d) none = (refl, refl)
edge_rows s child (some p) (some d) (some r) = (refl, refl)

-- What makes a repetition succeed: the request is on record with its digest, its row is the task's,
-- and the parent agrees.
replays :
    (p : Platform) (u : Store) (task : TaskSpec) (digest : String) (parent : Option Parent)
    (row : IdempotencyRow)
    → find? (λ i. i.request_id == task.create_request_id) u.idempotency_requests ≡ some row
    → row.request_digest ≡ digest
    → is_request task (find? (λ t. t.create_request_id == task.create_request_id) u.tasks) ≡ true
    → names_other (recorded_parent u task.task_id) parent ≡ false
    → record_in_transaction p u task digest parent none ≡ ok (already_applied, u)
unfolding record_in_transaction assert_author record_idempotency replayed_task
replays p u task digest parent row known same mine named =
    let self = (eq_iff row.request_digest digest).1 same in ground arith

first_replays :
    (p : Platform) (s u : Store) (task : TaskSpec) (digest : String) (parent : Option Parent)
    (w : WriteOutcome)
    → find? (λ i. i.request_id == task.create_request_id) s.idempotency_requests
      ≡ some (record { request_id = task.create_request_id; request_digest = digest })
    → first_task p s task digest (recorded_parent s task.task_id) parent ≡ ok (w, u)
    → record_in_transaction p u task digest parent none ≡ ok (already_applied, u)
unfolding first_task
first_replays p s u task digest parent w known h =
    elim (Result-cases
      (validate_new_parent s task.task_id (recorded_parent s task.task_id) parent)) [
        | inr (x, refused) ↦ cc (rw refused at h)
        | inl (tt, new) ↦ elim (Result-cases (validated_parent_depth p s task parent)) [
          | inr (x, refused) ↦ absurd (ground arith)
          | inl (depth, given) ↦ elim (Result-cases (insert_task s task digest)) [
            | inr (x, clash) ↦ absurd (ground arith)
            | inl (v, put) ↦
                let rows = insert_task_rows s v task digest put in
                let edge = edge_rows v task.task_id parent (recorded_parent s task.task_id) depth in
                let named = parent_after p s v task parent depth new given rows.1 in
                let done : u
                    ≡ insert_edge v task.task_id parent depth (recorded_parent s task.task_id) =
                  ground arith in
                let task_self = ==_refl task.task_id in
                let revision_self = ==_refl task.revision in
                replays p u task digest parent
                  (record { request_id = task.create_request_id; request_digest = digest })
                  (ground arith) refl (ground arith) (ground arith)
          ]
        ]
      ]

-- Admitting a task without an owner's proof, of whatever revision and parent, and admitting it again
-- with the same request and digest gives `already_applied` and changes nothing.
pub record_task-replay :
    (p : Platform) (s u : Store) (task : TaskSpec) (digest : String) (parent : Option Parent)
    (w : WriteOutcome)
    → record_task p s task digest parent none ≡ ok (w, u)
    → record_task p u task digest parent none ≡ ok (already_applied, u)
unfolding record_task record_in_transaction assert_author record_idempotency replayed_task
record_task-replay p s u task digest parent w h =
    elim (Option-cases
      (find? (λ i. i.request_id == task.create_request_id) s.idempotency_requests)) [
        | inr (row, known) ↦
            let done : u ≡ s = ground arith in
            subst (λ t. record_task p t task digest parent none ≡ ok (already_applied, t))
              (sym done) (ground arith)
        | inl new ↦
            let noted : Store = record s {
              idempotency_requests =
                  record { request_id = task.create_request_id; request_digest = digest }
                  ∷ s.idempotency_requests;
            } in
            let self = ==_refl task.create_request_id in
            let again =
              first_replays p noted u task digest parent w (ground arith) (ground arith) in
            ground arith
      ]
