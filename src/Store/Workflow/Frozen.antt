-- ===== src/Store/Workflow/Frozen.antt =====
-- A workflow run that has completed, failed or been cancelled stays as it is.
use text.Mathlib.TextEquality.{eq_iff}
use brgr.Base.{
  Bool, Bool-cases, List, Option-cases, Result, Result-cases, String, [], ap, arith, count, false,
  find?, found_id, inl, inr, kept, list_eq, nat_eq, none, ok, option_eq, refl, some, store_of,
  string_eq, subst, sym, true, update, ℕ, ◌==◌, ◌∙◌, ◌∷◌, ◌≡◌,
}
use brgr.Protocol.{OwnerId, TaskSpec, outcome_eq, state_eq}
use brgr.Store.{
  Platform, Store, StoreError, WorkflowRun, WorkflowRunState, WorkflowStep, WriteOutcome,
  run_state_eq, takeover_state_eq,
}
use brgr.Store.Delegation.{validated_parent_depth}
use brgr.Store.StepKey.{Bytes}
use brgr.Store.Tasks.{
  assert_author, first_task, insert_edge, insert_task, record_idempotency, record_in_transaction,
}
use brgr.Store.Workflow.{
  add_step, create_run, first_step, insert_notice, is_active_run, is_final, load_run, record_step,
  run_of, set_run_state, set_state, step_of,
}

-- A call of the store that may touch a run or its steps.
pub data WorkflowCall : Type 0 where
  create : String → OwnerId → String → ℕ → WorkflowCall
  launch : String → Bytes → String → TaskSpec → String → WorkflowCall
  move : String → WorkflowRunState → WorkflowCall

unfoldable pub perform : Platform → Store → WorkflowCall → Result StoreError Store
perform p s (create id owner digest max_parallel) =
    store_of (create_run s id owner digest max_parallel)
perform p s (launch id key input task digest) = store_of (record_step p s id key input task digest)
perform p s (move id state) = store_of (set_run_state s id state)

unfoldable pub step_count : Store → String → ℕ
step_count s id = count (λ w. w.run_id == id) s.workflow_steps

abbrev pub Frozen : Store → String → WorkflowRun → Store → Type 0
Frozen s id r u = (run_of u id ≡ some r) × (step_count u id ≡ step_count s id)

create-Frozen :
    (s u : Store) (id other : String) (r : WorkflowRun) (owner : OwnerId) (digest : String) (n : ℕ)
    → run_of s id ≡ some r
    → store_of (create_run s other owner digest n) ≡ ok u
    → Frozen s id r u
unfolding create_run run_of step_count
create-Frozen s u id other r owner digest n found h =
    elim (Option-cases (find? (λ x. x.run_id == other) s.workflow_runs)) [
      | inr (x, old) ↦ let same : u ≡ s = ground arith in (ground arith, ground arith)
      | inl new ↦ elim (Bool-cases (other == id)) [
        | inl here ↦
            let at = (eq_iff other id).0 here in
            let gone = subst (λ k. find? (λ x. x.run_id == k) s.workflow_runs ≡ none) at new in
            absurd (ground arith)
        | inr apart ↦ (ground arith, ground arith)
      ]
    ]

find-set :
    (id other : String) (state : WorkflowRunState) (xs : List WorkflowRun)
    → (other == id) ≡ false
    → find?
        (λ r. r.run_id == id)
        (update (λ r. r.run_id == other) (λ r. record r { state = state }) xs)
      ≡ find? (λ r. r.run_id == id) xs
find-set id other state [] apart = refl
find-set id other state (x ∷ xs) apart =
    let rest = find-set id other state xs apart in
    elim (Bool-cases (x.run_id == other)) [
      | inl hit ↦ ground (arith, eq_iff x.run_id other, eq_iff x.run_id id, eq_iff other id)
      | inr out ↦ ground arith
    ]

notice_rows :
    (s : Store) (r : WorkflowRun) (state : WorkflowRunState)
    → ((insert_notice s r state).workflow_runs ≡ s.workflow_runs)
      × ((insert_notice s r state).workflow_steps ≡ s.workflow_steps)
unfolding insert_notice
notice_rows s r state = (ground arith, ground arith)

move-Frozen :
    (s u : Store) (id other : String) (r : WorkflowRun) (state : WorkflowRunState)
    → run_of s id ≡ some r
    → is_final r.state ≡ true
    → store_of (set_run_state s other state) ≡ ok u
    → Frozen s id r u
unfolding set_run_state load_run set_state run_of step_count
move-Frozen s u id other r state found final_ h = elim (Bool-cases (other == id)) [
  | inl here ↦
      let at = (eq_iff other id).0 here in
      let there = subst (λ k. find? (λ x. x.run_id == k) s.workflow_runs ≡ some r) (sym at) found in
      absurd (ground arith)
  | inr apart ↦ elim (Option-cases (find? (λ x. x.run_id == other) s.workflow_runs)) [
    | inl missing ↦ absurd (ground arith)
    | inr (x, known) ↦
        let rows = notice_rows s x state in
        let kept = find-set id other state s.workflow_runs apart in (ground arith, ground arith)
  ]
]

task_rows :
    (p : Platform) (s u : Store) (task : TaskSpec) (digest : String) (w : WriteOutcome)
    → record_in_transaction p s task digest none none ≡ ok (w, u)
    → (u.workflow_runs ≡ s.workflow_runs) × (u.workflow_steps ≡ s.workflow_steps)
unfolding record_in_transaction assert_author record_idempotency first_task insert_task insert_edge
    validated_parent_depth
task_rows p s u task digest w h = (ground arith, ground arith)

run_name : (s : Store) (id : String) (r : WorkflowRun) → run_of s id ≡ some r → r.run_id ≡ id
unfolding run_of
run_name s id r h = (eq_iff r.run_id id).0 (found_id (λ x. x.run_id == id) s.workflow_runs r h)

drop_other :
    (q : WorkflowStep → Bool) (w : WorkflowStep) (ws : List WorkflowStep)
    → q w ≡ false
    → count q (w ∷ ws) ≡ count q ws
drop_other q w ws h = ground arith

added-Frozen :
    (s v u : Store) (id : String) (r : WorkflowRun) (w : WorkflowStep)
    → run_of s id ≡ some r
    → v.workflow_runs ≡ s.workflow_runs
    → v.workflow_steps ≡ s.workflow_steps
    → (w.run_id == id) ≡ false
    → add_step v w ≡ u
    → Frozen s id r u
unfolding add_step run_of step_count
added-Frozen s v u id r w found runs steps apart done = subst (Frozen s id r) done (
  ap (find? (λ x. x.run_id == id)) runs ∙ found,
  drop_other (λ x. x.run_id == id) w v.workflow_steps apart
      ∙ ap (count (λ x. x.run_id == id)) steps,
)

launch-Frozen :
    (p : Platform) (s u : Store) (id other : String) (r : WorkflowRun) (key : Bytes)
    (input : String) (task : TaskSpec) (digest : String)
    → run_of s id ≡ some r
    → is_final r.state ≡ true
    → store_of (record_step p s other key input task digest) ≡ ok u
    → Frozen s id r u
unfolding record_step load_run first_step add_step is_final is_active_run
launch-Frozen p s u id other r key input task digest found final_ h =
    elim (Bool-cases (other == id)) [
      | inl here ↦
          let at = (eq_iff other id).0 here in
          let there = subst (λ k. run_of s k ≡ some r) (sym at) found in absurd (ground arith)
      | inr apart ↦ elim (Option-cases (run_of s other)) [
        | inl missing ↦ absurd (ground arith)
        | inr (x, known) ↦ elim (Option-cases (step_of s other key)) [
          | inr (w, old) ↦
              let same : u ≡ s = ground arith in (ground arith, ap (λ t. step_count t id) same)
          | inl new ↦ elim (Result-cases (record_in_transaction p s task digest none none)) [
            | inr (e, bad) ↦ absurd (ground arith)
            | inl ((w, v), recorded) ↦
                let rows = task_rows p s v task digest w recorded in
                let name = run_name s other x known in
                added-Frozen s v u id r
                  (record {
                    run_id = x.run_id;
                    step_key = key;
                    input_digest = input;
                    task_id = task.task_id;
                    revision = task.revision;
                  })
                  found rows.0 rows.1 (subst (λ k. (k == id) ≡ false) (sym name) apart)
                  (ground arith)
          ]
        ]
      ]
    ]

done-Frozen :
    (p : Platform) (s u : Store) (c : WorkflowCall) (id : String) (r : WorkflowRun)
    → run_of s id ≡ some r
    → is_final r.state ≡ true
    → perform p s c ≡ ok u
    → Frozen s id r u
unfolding perform
done-Frozen p s u (create other owner digest n) id r found final_ h =
    create-Frozen s u id other r owner digest n found h
done-Frozen p s u (launch other key input task digest) id r found final_ h =
    launch-Frozen p s u id other r key input task digest found final_ h
done-Frozen p s u (move other state) id r found final_ h =
    move-Frozen s u id other r state found final_ h

unfoldable pub after : Platform → Store → List WorkflowCall → Store
after p s [] = s
after p s (c ∷ cs) = after p (kept s (perform p s c)) cs

perform-Frozen :
    (p : Platform) (s : Store) (c : WorkflowCall) (id : String) (r : WorkflowRun)
    → run_of s id ≡ some r
    → is_final r.state ≡ true
    → Frozen s id r (kept s (perform p s c))
unfolding perform
perform-Frozen p s c id r found final_ = elim (Result-cases (perform p s c)) [
  | inr (x, refused) ↦ subst (λ m. Frozen s id r (kept s m)) (sym refused) (found, refl)
  | inl (u, done) ↦
      subst (λ m. Frozen s id r (kept s m)) (sym done) (done-Frozen p s u c id r found final_ done)
]

-- Once a run has completed, failed or been cancelled, no calls on workflows, of this or another
-- run, refused or not, change its row or add to its steps.
pub after-Frozen :
    (p : Platform) (s : Store) (cs : List WorkflowCall) (id : String) (r : WorkflowRun)
    → run_of s id ≡ some r
    → is_final r.state ≡ true
    → Frozen s id r (after p s cs)
unfolding after
after-Frozen p s [] id r found final_ = (found, refl)
after-Frozen p s (c ∷ cs) id r found final_ =
    let first = perform-Frozen p s c id r found final_ in
    let rest = after-Frozen p (kept s (perform p s c)) cs id r first.0 final_ in
    (rest.0, rest.1 ∙ first.1)
