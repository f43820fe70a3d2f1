-- ===== src/Store/Tasks/Depth.antt =====
-- The tasks that delegate form a forest no deeper than eight.
use brgr.Base.{
  ==_refl, All, All-map, Bool, Bool-cases, List, Option, Option-cases, Result-cases, String, any,
  ap, arith, false, find?, found-any, found_id, inl, inr, list_eq, nat_eq, none, ok, option_eq,
  refl, some, string_eq, subst, true, ℕ, ◌&&◌, ◌+◌, ◌==◌, ◌∙◌, ◌∷◌, ◌≡◌, ◌≤◌, ◌⊎◌,
}
use brgr.Protocol.{AttemptId, OwnerId, TaskId, TaskSpec, outcome_eq, state_eq}
use brgr.Store.{
  AttemptRow, EdgeRow, Platform, Store, TaskRow, WriteOutcome, already_applied, inserted,
  run_state_eq, takeover_state_eq,
}
use brgr.Store.Owner.{OwnerProof}
use brgr.Store.Settle.{of_revision}
use brgr.Store.Takeovers.{
  append_event, assert_owner_proof, awaiting, mark_resumed, note_owner_action,
}
use brgr.Store.Attempts.{attempt_of, task_row}
use brgr.Store.Attempts.Terminal.{task_of_attempt}
use brgr.Store.Delegation.{
  Parent, depth_in, edge_of, parent_in, recorded_parent, validate_new_parent,
  validated_parent_depth,
}
use brgr.Store.Tasks.{
  assert_author, first_task, insert_edge, insert_task, record_idempotency, record_in_transaction,
  record_task,
}

abbrev pub edge_in : TaskId → List EdgeRow → Option EdgeRow
edge_in child es = find? (λ e. e.child_task_id == child) es

abbrev pub known : TaskId → List TaskRow → Bool
known task ts = any (λ t. t.task_id == task) ts

-- An edge among all the edges of a store: both its tasks are recorded, it is the edge of its child,
-- and its depth is one more than that of the edge of its parent, if there is one, and at most eight.
pub record IsPlanted (ts : List TaskRow) (es : List EdgeRow) (e : EdgeRow) : Type 0 where
  pub parent_known : known e.parent_task_id ts ≡ true
  pub child_known : known e.child_task_id ts ≡ true
  pub sole : edge_in e.child_task_id es ≡ some e
  pub deeper : e.depth ≡ depth_in (edge_in e.parent_task_id es) + 1
  pub bounded : e.depth ≤ 8

-- Along every edge the depth grows by one, so that no chain of edges returns to its start.
unfoldable pub IsForest : List TaskRow → List EdgeRow → Type 0
IsForest ts es = All (IsPlanted ts es) es

note_edges :
    (s u : Store) (owner : OwnerId) (session : String) (epoch : ℕ)
    → note_owner_action s owner session epoch ≡ ok u
    → (u.delegation_edges ≡ s.delegation_edges) × (u.tasks ≡ s.tasks)
unfolding note_owner_action append_event mark_resumed
note_edges s u owner session epoch h = elim (Option-cases (awaiting s owner session epoch)) [
  | inl idle_ ↦ (ground arith, ground arith)
  | inr (t, waits) ↦ (ground arith, ground arith)
]

author_edges :
    (s u : Store) (task : TaskSpec) (proof : Option OwnerProof)
    → assert_author s task proof ≡ ok u
    → (u.delegation_edges ≡ s.delegation_edges) × (u.tasks ≡ s.tasks)
unfolding assert_author assert_owner_proof
author_edges s u task none h = (ground arith, ground arith)
author_edges s u task (some proof) h =
    elim (Result-cases (note_owner_action s proof.owner_id proof.session_id proof.binding_epoch)) [
      | inr (x, bad) ↦ absurd (ground arith)
      | inl (v, noted) ↦
          let first = note_edges s v proof.owner_id proof.session_id proof.binding_epoch noted in
          let last =
            note_edges v u proof.owner_id proof.session_id proof.binding_epoch (ground arith) in
          (last.0 ∙ first.0, last.1 ∙ first.1)
    ]

found-known :
    (s : Store) (id : AttemptId) (a : AttemptRow) (t : TaskRow)
    → task_of_attempt s id ≡ some (a, t)
    → (attempt_of s id ≡ some a) × (known a.task_id s.tasks ≡ true)
unfolding task_of_attempt task_row of_revision
found-known s id a t h = elim (Option-cases (attempt_of s id)) [
  | inl missing ↦ absurd (ground arith)
  | inr (b, found) ↦
      let row : find? (λ x. x.task_id == b.task_id && x.revision == b.revision) s.tasks ≡ some t =
        ground arith in
      let same : b ≡ a = ground arith in
      let its = found_id (λ x. x.task_id == b.task_id && x.revision == b.revision) s.tasks t row in
      (
        found ∙ ap some same,
        subst (λ z. known z.task_id s.tasks ≡ true) same
            (found-any (λ x. x.task_id == b.task_id && x.revision == b.revision)
              (λ x. x.task_id == b.task_id) s.tasks t row (ground arith)),
      )
]

depth_bound :
    (p : Platform) (s : Store) (task : TaskSpec) (q : Parent) (depth : ℕ)
    → validated_parent_depth p s task (some q) ≡ ok (some depth)
    → (depth ≡ depth_in (edge_of s q.0) + 1) × (depth ≤ 8) × (known q.0 s.tasks ≡ true)
unfolding validated_parent_depth
depth_bound p s task q depth h = elim (Option-cases (task_of_attempt s q.1)) [
  | inl missing ↦ absurd (ground arith)
  | inr ((a, t), found) ↦
      let (at, there) = found-known s q.1 a t found in
      let mine : a.task_id ≡ q.0 = ground arith in
      (ground arith, ground arith, subst (λ z. known z s.tasks ≡ true) mine there)
]

insert_task_rows :
    (s u : Store) (task : TaskSpec) (digest : String)
    → insert_task s task digest ≡ ok u
    → (u.delegation_edges ≡ s.delegation_edges)
      × ((t : TaskRow) × (u.tasks ≡ t ∷ s.tasks) × (t.task_id ≡ task.task_id))
unfolding insert_task
insert_task_rows s u task digest h = (
  ground arith,
  (
    record {
      task_id = task.task_id;
      revision = task.revision;
      owner_id = task.owner_id;
      create_request_id = task.create_request_id;
      request_digest = digest;
      spec = task;
    },
    ground arith,
    refl,
  ),
)

known_more :
    (t : TaskRow) (ts : List TaskRow) (id : TaskId) → known id ts ≡ true → known id (t ∷ ts) ≡ true
known_more t ts id h = elim (Bool-cases (t.task_id == id)) [
  | inl here ↦ ground arith
  | inr other ↦ ground arith
]

-- More tasks leave a forest one.
more-IsForest :
    (ts : List TaskRow) (t : TaskRow) (es : List EdgeRow) → IsForest ts es → IsForest (t ∷ ts) es
unfolding IsForest
more-IsForest ts t es h =
    All-map es
      (λ e p. record {
        parent_known = known_more t ts e.parent_task_id (p.parent_known);
        child_known = known_more t ts e.child_task_id (p.child_known);
        sole = p.sole;
        deeper = p.deeper;
        bounded = p.bounded;
      })
      h

-- A task that is known is another one than one that is not.
known-apart :
    (ts : List TaskRow) (a b : TaskId) → known a ts ≡ true → known b ts ≡ false → b == a ≡ false
known-apart ts a b is_in out = elim (Bool-cases (b == a)) [
  | inr apart ↦ apart
  | inl same ↦
      let is : b ≡ a = ground arith in
      let clash = subst (λ z. known z ts ≡ false) is out in absurd (ground arith)
]

-- A first edge of a new task, below a known one.
planted-IsForest :
    (ts : List TaskRow) (t : TaskRow) (e : EdgeRow) (es : List EdgeRow)
    → IsForest ts es
    → t.task_id ≡ e.child_task_id
    → known e.child_task_id ts ≡ false
    → known e.parent_task_id ts ≡ true
    → e.depth ≡ depth_in (edge_in e.parent_task_id es) + 1
    → e.depth ≤ 8
    → IsForest (t ∷ ts) (e ∷ es)
unfolding IsForest
planted-IsForest ts t e es h child new old deeper bounded =
    let grown = more-IsForest ts t es h in
    let self = known-apart ts e.parent_task_id e.child_task_id old new in
    let own = ==_refl e.child_task_id in
    (
      record {
        parent_known = known_more t ts e.parent_task_id old;
        child_known = ground arith;
        sole = ground arith;
        deeper = rw self deeper;
        bounded = bounded;
      },
      All-map es
          (λ o p.
            let below = known-apart ts o.child_task_id e.child_task_id (p.child_known) new in
            let above = known-apart ts o.parent_task_id e.child_task_id (p.parent_known) new in
            record {
              parent_known = known_more t ts o.parent_task_id (p.parent_known);
              child_known = known_more t ts o.child_task_id (p.child_known);
              sole = rw below (p.sole);
              deeper = rw above (p.deeper);
              bounded = p.bounded;
            })
          h,
    )

placed-IsForest :
    (p : Platform) (s v : Store) (task : TaskSpec) (t : TaskRow) (parent : Option Parent)
    (depth : Option ℕ) (o : Option EdgeRow)
    → IsForest s.tasks s.delegation_edges
    → v.delegation_edges ≡ s.delegation_edges
    → v.tasks ≡ t ∷ s.tasks
    → t.task_id ≡ task.task_id
    → validate_new_parent s task.task_id (parent_in o) parent ≡ ok tt
    → validated_parent_depth p s task parent ≡ ok depth
    → IsForest
        (insert_edge v task.task_id parent depth (parent_in o)).tasks
        (insert_edge v task.task_id parent depth (parent_in o)).delegation_edges
unfolding insert_edge validate_new_parent edge_of
placed-IsForest p s v task t none depth o h rows tasks same fresh given =
    rw (rows, tasks) (more-IsForest s.tasks t s.delegation_edges h)
placed-IsForest p s v task t (some q) none o h rows tasks same fresh given =
    rw (rows, tasks) (more-IsForest s.tasks t s.delegation_edges h)
placed-IsForest p s v task t (some q) (some depth) (some e) h rows tasks same fresh given =
    rw (rows, tasks) (more-IsForest s.tasks t s.delegation_edges h)
placed-IsForest p s v task t (some q) (some depth) none h rows tasks same fresh given =
    let (deeper, small, old) = depth_bound p s task q depth given in
    let e : EdgeRow = record {
      child_task_id = task.task_id;
      parent_task_id = q.0;
      parent_attempt_id = q.1;
      depth = depth;
    } in
    rw (rows, tasks)
      (planted-IsForest s.tasks t e s.delegation_edges h same (ground arith) old deeper small)

outcome_cases : (w : WriteOutcome) → (w ≡ already_applied) ⊎ (w ≡ inserted)
outcome_cases already_applied = inl refl
outcome_cases inserted = inr refl

first_task-IsForest :
    (p : Platform) (s u : Store) (task : TaskSpec) (digest : String) (parent : Option Parent)
    (w : WriteOutcome)
    → IsForest s.tasks s.delegation_edges
    → first_task p s task digest (recorded_parent s task.task_id) parent ≡ ok (w, u)
    → IsForest u.tasks u.delegation_edges
unfolding first_task recorded_parent
first_task-IsForest p s u task digest parent w forest h =
    elim (Result-cases
      (validate_new_parent s task.task_id (recorded_parent s task.task_id) parent)) [
        | inr (x, refused) ↦ absurd (ground arith)
        | inl (unit, new) ↦ elim (Result-cases (validated_parent_depth p s task parent)) [
          | inr (x, refused) ↦ absurd (ground arith)
          | inl (depth, given) ↦ elim (Result-cases (insert_task s task digest)) [
            | inr (x, clash) ↦ absurd (ground arith)
            | inl (v, put) ↦
                let (rows, (t, tasks, same)) = insert_task_rows s v task digest put in
                let done : insert_edge v task.task_id parent depth (recorded_parent s task.task_id)
                    ≡ u =
                  ground arith in
                subst (λ z. IsForest z.tasks z.delegation_edges) done
                  (placed-IsForest p s v task t parent depth (edge_of s task.task_id) forest rows
                    tasks same new given)
          ]
        ]
      ]

idempotency_edges :
    (s u : Store) (request digest : String) (w : WriteOutcome)
    → record_idempotency s request digest ≡ ok (w, u)
    → (u.delegation_edges ≡ s.delegation_edges) × (u.tasks ≡ s.tasks)
unfolding record_idempotency
idempotency_edges s u request digest w h = (ground arith, ground arith)

-- Admission, of whatever task, revision, parent and proof, keeps the delegation edges a forest over
-- the recorded tasks: both tasks of an edge are recorded, a task has at most one parent, and it is
-- one deeper than it, which no cycle of edges allows, and no deeper than eight.
pub record_task-IsForest :
    (p : Platform) (s u : Store) (task : TaskSpec) (digest : String) (parent : Option Parent)
    (proof : Option OwnerProof) (w : WriteOutcome)
    → IsForest s.tasks s.delegation_edges
    → record_task p s task digest parent proof ≡ ok (w, u)
    → IsForest u.tasks u.delegation_edges
unfolding record_task record_in_transaction
record_task-IsForest p s u task digest parent proof w forest h =
    elim (Result-cases (assert_author s task proof)) [
      | inr (x, stale) ↦ absurd (ground arith)
      | inl (v, proved) ↦ elim (Result-cases (record_idempotency v task.create_request_id digest)) [
        | inr (x, conflict) ↦ absurd (ground arith)
        | inl ((how, v2), noted) ↦
            let first = author_edges s v task proof proved in
            let next = idempotency_edges v v2 task.create_request_id digest how noted in
            let still : IsForest v2.tasks v2.delegation_edges =
              rw (next.0, next.1, first.0, first.1) forest in
            elim (outcome_cases how) [
              | inl again ↦
                  let done : v2 ≡ u = ground arith in
                  subst (λ t. IsForest t.tasks t.delegation_edges) done still
              | inr new ↦ first_task-IsForest p v2 u task digest parent w still (ground arith)
            ]
      ]
    ]
