-- ===== src/Store/Attempts/Rows/Sound.antt =====
-- What holds of attempts and results whatever calls are made: one active attempt, the budget, and
-- a result for exactly the attempts that have ended.
use Prim.Native.Nat.{◌≤◌}
use brgr.Base.{
  All, All-of, Bool, Bool-cases, List, any, arith, count, count-none, count-update, false, inl, inr,
  leb, list_eq, nat_beq_iff, nat_eq, none, option_eq, some, string_eq, subst, sym, true, ℕ, ◌&&◌,
  ◌==◌, ◌∙◌, ◌∷◌, ◌≡◌, ◌≤◌,
}
use brgr.Protocol.{AttemptId, AttemptState, TaskId, outcome_eq, state_beq_iff, state_eq, terminal}
use brgr.Store.{AttemptRow, Store, TaskRow, run_state_eq, takeover_state_eq}
use brgr.Store.Settle.{is_active, of_revision, result_of}
use brgr.Store.Attempts.{allowed, attempt_of, joins, task_row}
use brgr.Store.Attempts.Rows.{Step, add, idle, move, moved_attempt, settle}

unfoldable pub is_done : Store → AttemptId → Bool
is_done s id = elim (attempt_of s id) [ none ↦ false | some a ↦ a.state == terminal ]

unfoldable pub has_result : Store → AttemptId → Bool
has_result s id = any (λ r. r.attempt_id == id) s.results

unfoldable pub Joined : Store → Type 0
Joined s = All (λ r. (task : TaskId) (n : ℕ) → joins s task n r ≡ result_of task n r) s.results

pub record IsSound (s : Store) : Type 0 where
  pub one_active : (task : TaskId) (n : ℕ) → count (is_active task n) s.attempts ≤ 1
  pub within_budget :
      (task : TaskId) (n : ℕ) (t : TaskRow)
      → task_row s task n ≡ some t
      → count (of_revision task n) s.attempts ≤ t.spec.budget.max_attempts
  pub ended : (id : AttemptId) → has_result s id ≡ is_done s id
  pub joined : Joined s

pub allowed_start : (a b : AttemptState) → allowed a b ≡ true → (a == terminal) ≡ false
unfolding allowed
allowed_start a b h = ground arith

pub allowed_end : (a b : AttemptState) → allowed a b ≡ true → (b == terminal) ≡ false
unfolding allowed
allowed_end a b h = ground arith

active_before :
    (task : TaskId) (n : ℕ) (id : AttemptId) (from to : AttemptState) (a : AttemptRow)
    → (from == terminal) ≡ false
    → (a.attempt_id == id && a.state == from) ≡ true
    → is_active task n (record a { state = to }) ≡ true
    → is_active task n a ≡ true
unfolding is_active of_revision
active_before task n id from to a open_ hit active = ground (arith, state_beq_iff a.state from)

active_moved :
    (task : TaskId) (n : ℕ) (id : AttemptId) (from to : AttemptState) (xs : List AttemptRow)
    → (from == terminal) ≡ false
    → count (is_active task n) (moved_attempt id from to xs) ≤ count (is_active task n) xs
active_moved task n id from to xs open_ =
    count-update (is_active task n) (λ a. a.attempt_id == id && a.state == from)
      (λ a. record a { state = to }) xs (All-of xs (λ a. active_before task n id from to a open_))

revision_moved :
    (task : TaskId) (n : ℕ) (id : AttemptId) (from to : AttemptState) (xs : List AttemptRow)
    → count (of_revision task n) (moved_attempt id from to xs) ≤ count (of_revision task n) xs
unfolding of_revision
revision_moved task n id from to xs =
    count-update (of_revision task n) (λ a. a.attempt_id == id && a.state == from)
      (λ a. record a { state = to }) xs (All-of xs (λ a hit was. was))

pub active_added :
    (task : TaskId) (n : ℕ) (row : AttemptRow) (xs : List AttemptRow)
    → any (is_active row.task_id row.revision) xs ≡ false
    → count (is_active task n) xs ≤ 1
    → count (is_active task n) (row ∷ xs) ≤ 1
unfolding is_active of_revision
active_added task n row xs free h = elim (Bool-cases (row.task_id == task && row.revision == n)) [
  | inr other ↦ ground arith
  | inl here ↦
      let same_task = (nat_beq_iff row.task_id task).0 (ground arith) in
      let same_revision = (nat_beq_iff row.revision n).0 (ground arith) in
      let empty = count-none (is_active task n) xs (
        subst (λ t. any (is_active t n) xs ≡ false) same_task
          (subst (λ m. any (is_active row.task_id m) xs ≡ false) same_revision free)) in
      ground arith
]

pub one_active-Step :
    (s u : Store) (task : TaskId) (n : ℕ)
    → count (is_active task n) s.attempts ≤ 1
    → Step s u
    → count (is_active task n) u.attempts ≤ 1
one_active-Step s u task n h (idle rows results) = ground arith
one_active-Step s u task n h (add row t fresh found room fine free new rows results) =
    let added = active_added task n row s.attempts free h in ground arith
one_active-Step s u task n h (move id from to legal rows results) =
    let fewer = active_moved task n id from to s.attempts (allowed_start from to legal) in
    ground arith
one_active-Step s u task n h (settle r a new found open_ same_task same_revision rows results) =
    let fewer = active_moved task n r.attempt_id a.state terminal s.attempts open_ in ground arith

found_at :
    (s : Store) (task : TaskId) (n : ℕ) (task2 : TaskId) (n2 : ℕ) (own : TaskRow)
    → task2 ≡ task
    → n2 ≡ n
    → task_row s task2 n2 ≡ some own
    → task_row s task n ≡ some own
found_at s task n task2 n2 own e f h =
    subst (λ k. task_row s k n ≡ some own) e (subst (λ m. task_row s task2 m ≡ some own) f h)

same_row : (t own : TaskRow) → some t ≡ some own → t ≡ own
same_row t own h = ground arith

budget_added :
    (s : Store) (task : TaskId) (n : ℕ) (t : TaskRow) (row : AttemptRow) (own : TaskRow)
    → task_row s task n ≡ some t
    → task_row s row.task_id row.revision ≡ some own
    → leb own.spec.budget.max_attempts (count (of_revision row.task_id row.revision) s.attempts)
      ≡ false
    → count (of_revision task n) s.attempts ≤ t.spec.budget.max_attempts
    → count (of_revision task n) (row ∷ s.attempts) ≤ t.spec.budget.max_attempts
unfolding of_revision
budget_added s task n t row own known found room h =
    elim (Bool-cases (row.task_id == task && row.revision == n)) [
      | inr other ↦ ground arith
      | inl here ↦
          let same_task = (nat_beq_iff row.task_id task).0 (ground arith) in
          let same_revision = (nat_beq_iff row.revision n).0 (ground arith) in
          let same = found_at s task n row.task_id row.revision own same_task same_revision found in
          let below =
            subst
              (λ k. leb own.spec.budget.max_attempts (count (of_revision k n) s.attempts) ≡ false)
              same_task
              (subst
                (λ m.
                  leb own.spec.budget.max_attempts (count (of_revision row.task_id m) s.attempts)
                  ≡ false)
                same_revision room) in
          let one = same_row t own (sym known ∙ same) in ground arith
    ]

pub budget-Step :
    (s u : Store) (task : TaskId) (n : ℕ) (t : TaskRow)
    → task_row s task n ≡ some t
    → count (of_revision task n) s.attempts ≤ t.spec.budget.max_attempts
    → Step s u
    → count (of_revision task n) u.attempts ≤ t.spec.budget.max_attempts
budget-Step s u task n t known h (idle rows results) = ground arith
budget-Step s u task n t known h (add row t2 fresh found room fine free new rows results) =
    let added = budget_added s task n t row t2 known found room h in ground arith
budget-Step s u task n t known h (move id from to legal rows results) =
    let fewer = revision_moved task n id from to s.attempts in ground arith
budget-Step s u task n t known h (settle r a new found open_ same_task same_revision rows results) =
    let fewer = revision_moved task n r.attempt_id a.state terminal s.attempts in ground arith
