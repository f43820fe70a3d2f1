-- ===== src/Store/Attempts/Rows/Kept.antt =====
-- The results stay joined to attempts of their own revision, and any run of calls keeps it all.
use brgr.Base.{
  ==_refl, All, All-map, Bool-cases, List, Option-cases, Result-cases, [], any, ap, arith, false,
  find?, inl, inr, kept, list_eq, nat_eq, option_eq, some, string_eq, subst, sym, ℕ, ◌&&◌, ◌==◌,
  ◌∙◌, ◌∷◌, ◌≡◌,
}
use brgr.Protocol.{AttemptId, AttemptState, TaskId, outcome_eq, state_eq, terminal}
use brgr.Store.{AttemptRow, Platform, ResultRow, Store, run_state_eq, takeover_state_eq}
use brgr.Store.Settle.{of_revision, result_of}
use brgr.Store.Attempts.{attempt_of, joins, task_row}
use brgr.Store.Attempts.Rows.{
  AttemptCall, Step, add, apply, apply-Step, idle, move, moved_attempt, settle,
}
use brgr.Store.Attempts.Rows.Ended.{added_attempt_of, ended-Step, moved_attempt_of, unknown}
use brgr.Store.Attempts.Rows.Sound.{IsSound, Joined, budget-Step, one_active-Step}

same_joins :
    (s u : Store) (r : ResultRow) (task : TaskId) (n : ℕ)
    → attempt_of u r.attempt_id ≡ attempt_of s r.attempt_id
    → joins u task n r ≡ joins s task n r
unfolding joins
same_joins s u r task n h = ground arith

joins_touched :
    (s u : Store) (id : AttemptId) (from to : AttemptState) (r : ResultRow) (task : TaskId) (n : ℕ)
    → u.attempts ≡ moved_attempt id from to s.attempts
    → joins u task n r ≡ joins s task n r
unfolding joins of_revision
joins_touched s u id from to r task n rows =
    let same = moved_attempt_of s u id r.attempt_id from to rows in
    elim (Option-cases (attempt_of s r.attempt_id)) [
      | inl gone ↦ ground arith
      | inr (a, there) ↦ elim (Bool-cases (a.attempt_id == id && a.state == from)) [
        | inl hit ↦ ground arith
        | inr out ↦ ground arith
      ]
    ]

joins_added :
    (s u : Store) (row : AttemptRow) (r : ResultRow) (task : TaskId) (n : ℕ)
    → any (λ a. a.attempt_id == row.attempt_id) s.attempts ≡ false
    → u.attempts ≡ row ∷ s.attempts
    → joins s r.task_id r.revision r ≡ result_of r.task_id r.revision r
    → joins u task n r ≡ joins s task n r
unfolding joins result_of
joins_added s u row r task n new rows own =
    let same = added_attempt_of s u row r.attempt_id rows in
    let task_self = ==_refl r.task_id in
    let revision_self = ==_refl r.revision in
    elim (Bool-cases (row.attempt_id == r.attempt_id)) [
      | inl here ↦
          let gone = unknown s row.attempt_id r.attempt_id new here in absurd (ground arith)
      | inr other ↦ ground arith
    ]

joins_settled :
    (s u : Store) (r : ResultRow) (a : AttemptRow) (task : TaskId) (n : ℕ)
    → attempt_of s r.attempt_id ≡ some a
    → a.task_id ≡ r.task_id
    → a.revision ≡ r.revision
    → joins s task n r ≡ result_of task n r
unfolding joins result_of of_revision
joins_settled s u r a task n found same_task same_revision = ground arith

Joined-Step : (s u : Store) → Joined s → Step s u → Joined u
unfolding Joined attempt_of
Joined-Step s u h (idle rows results) =
    subst (λ l. All (λ r. (task : TaskId) (n : ℕ) → joins u task n r ≡ result_of task n r) l)
      (sym results)
      (All-map s.results
        (λ r own task n.
          same_joins s u r task n (ap (find? (λ a. a.attempt_id == r.attempt_id)) rows)
          ∙ own task n)
        h)
Joined-Step s u h (add row t fresh found room fine free new rows results) =
    subst (λ l. All (λ r. (task : TaskId) (n : ℕ) → joins u task n r ≡ result_of task n r) l)
      (sym results)
      (All-map s.results
        (λ r own task n.
          joins_added s u row r task n new rows (own r.task_id r.revision) ∙ own task n)
        h)
Joined-Step s u h (move id from to legal rows results) =
    subst (λ l. All (λ r. (task : TaskId) (n : ℕ) → joins u task n r ≡ result_of task n r) l)
      (sym results)
      (All-map s.results (λ r own task n. joins_touched s u id from to r task n rows ∙ own task n)
        h)
Joined-Step s u h (settle x a new found open_ same_task same_revision rows results) =
    subst (λ l. All (λ r. (task : TaskId) (n : ℕ) → joins u task n r ≡ result_of task n r) l)
      (sym results)
      (
        λ task n.
            joins_touched s u x.attempt_id a.state terminal x task n rows
            ∙ joins_settled s u x a task n found same_task same_revision,
        All-map s.results
            (λ r own task n.
              joins_touched s u x.attempt_id a.state terminal r task n rows ∙ own task n)
            h,
      )

same_task_row :
    (s u : Store) (task : TaskId) (n : ℕ)
    → u.tasks ≡ s.tasks
    → task_row u task n ≡ task_row s task n
unfolding task_row
same_task_row s u task n tasks = ap (find? (λ t. t.task_id == task && t.revision == n)) tasks

IsSound-Step : (s u : Store) → u.tasks ≡ s.tasks → IsSound s → Step s u → IsSound u
IsSound-Step s u tasks h step = record {
  one_active = λ task n. one_active-Step s u task n (h.one_active task n) step;
  within_budget = λ task n t known.
      let here = sym (same_task_row s u task n tasks) ∙ known in
      budget-Step s u task n t here (h.within_budget task n t here) step;
  ended = λ id. ended-Step s u id (h.ended id) step;
  joined = Joined-Step s u h.joined step;
}

unfoldable pub after : Platform → Store → List AttemptCall → Store
after p s [] = s
after p s (c ∷ cs) = after p (kept s (apply p s c)) cs

kept-IsSound :
    (p : Platform) (s : Store) (c : AttemptCall) → IsSound s → IsSound (kept s (apply p s c))
kept-IsSound p s c h = elim (Result-cases (apply p s c)) [
  | inr (x, refused) ↦ subst (λ m. IsSound (kept s m)) (sym refused) h
  | inl (u, done) ↦
      let step = apply-Step p s u c done in
      subst (λ m. IsSound (kept s m)) (sym done) (IsSound-Step s u step.0 h step.1)
]

-- Whatever calls are made on the attempts of a sound store, refused or not: each revision keeps at
-- most one attempt that has not ended, and at most as many as the budget of its task allows; an
-- attempt has a result exactly when it has ended; and a result names the task and revision of its
-- attempt.
pub after-IsSound :
    (p : Platform) (s : Store) (cs : List AttemptCall) → IsSound s → IsSound (after p s cs)
unfolding after
after-IsSound p s [] h = h
after-IsSound p s (c ∷ cs) h = after-IsSound p (kept s (apply p s c)) cs (kept-IsSound p s c h)
