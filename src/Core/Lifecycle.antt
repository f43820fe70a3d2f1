-- ===== src/Core/Lifecycle.antt =====
-- One attempt under any sequence of calls: its invariant, and the result that it keeps.
use brgr.Base.{
  All, Bool-cases, List, Option, Result, [], arith, err, inl, inr, nat_eq, none, ok, option_eq,
  refl, some, string_eq, ℕ, ◌==◌, ◌∷◌, ◌≡◌, ◌≢◌, ◌≤◌,
}
use brgr.Protocol.{AttemptId, AttemptState, ResultEnvelope, outcome_eq, state_eq, terminal}
use brgr.Core.{
  Attempt, CoreError, TaskRevision, attempt_already_terminal, new_attempt, record_terminal,
  terminal_requires_result, terminal_result_already_recorded, transition,
}

-- What a caller may ask of an attempt.
pub data Call : Type 0 where
  move_to : AttemptState → Call
  finish : ResultEnvelope → Call

unfoldable pub answer : Attempt → Call → Result CoreError Attempt
unfolding transition record_terminal
answer a (move_to next) = transition a next
answer a (finish r) = record_terminal a r

abbrev pub keep : Attempt → Result CoreError Attempt → Attempt
keep a (ok b) = b
keep a (err e) = a

-- A refused call leaves the attempt as it was, and the caller goes on.
unfoldable pub drive : Attempt → List Call → Attempt
drive a [] = a
drive a (c ∷ cs) = drive (keep a (answer a c)) cs

-- A terminal attempt owns the result of its own task revision, and no other attempt owns one.
abbrev pub ResultFits : Attempt → Option ResultEnvelope → Type 0
ResultFits a none = a.state ≢ terminal
ResultFits a (some r) =
    (a.state ≡ terminal)
    × (r.task_id ≡ a.task.spec.task_id)
    × (r.revision ≡ a.task.spec.revision)
    × (r.attempt_id ≡ a.id)

pub record IsConsistent (a : Attempt) : Type 0 where
  pub result_fits : ResultFits a a.terminal_result
  pub in_budget : (1 ≤ a.number) × (a.number ≤ a.task.spec.budget.max_attempts)

new_attempt-IsConsistent :
    (task : TaskRevision) (id : AttemptId) (n : ℕ) {a : Attempt}
    → new_attempt task id n ≡ ok a
    → IsConsistent a
unfolding new_attempt
new_attempt-IsConsistent task id n h = ground arith

answer-IsConsistent :
    (a : Attempt) (c : Call) {b : Attempt} → IsConsistent a → answer a c ≡ ok b → IsConsistent b
unfolding answer
answer-IsConsistent a (move_to next) v h = ground arith
answer-IsConsistent a (finish r) v h = ground arith

drive-IsConsistent : (a : Attempt) (cs : List Call) → IsConsistent a → IsConsistent (drive a cs)
unfolding drive
drive-IsConsistent a [] v = v
drive-IsConsistent a (c ∷ cs) v =
    drive-IsConsistent (keep a (answer a c)) cs (kept (answer a c) refl)
  where
    kept : (r : Result CoreError Attempt) → answer a c ≡ r → IsConsistent (keep a r)
    kept (ok b) e = answer-IsConsistent a c v e
    kept (err e) _ = v

-- A new attempt, after any calls in any order and refused or not, is terminal exactly when it owns
-- a result; that result is of its own task, revision and attempt, and its number keeps the budget.
pub attempt-IsConsistent :
    (task : TaskRevision) (id : AttemptId) (n : ℕ) (cs : List Call) {a : Attempt}
    → new_attempt task id n ≡ ok a
    → IsConsistent (drive a cs)
attempt-IsConsistent task id n cs h = drive-IsConsistent _ cs (new_attempt-IsConsistent task id n h)

answer-terminal :
    (a : Attempt) (c : Call) (r : ResultEnvelope)
    → a.terminal_result ≡ some r
    → (e : CoreError) × (answer a c ≡ err e)
unfolding answer
answer-terminal a (move_to next) r h = elim (Bool-cases (next == terminal)) [
  | inl p ↦ (terminal_requires_result, ground arith)
  | inr p ↦ (attempt_already_terminal r.result_id, ground arith)
]
answer-terminal a (finish s) r h =
    (terminal_result_already_recorded r.result_id s.result_id, ground arith)

-- What the calls of `drive` are answered.
unfoldable pub answers : Attempt → List Call → List (Result CoreError Attempt)
answers a [] = []
answers a (c ∷ cs) = answer a c ∷ answers (keep a (answer a c)) cs

abbrev pub IsRefused : Result CoreError Attempt → Type 0
IsRefused m = (e : CoreError) × (m ≡ err e)

-- Once an attempt owns a result, every further call is answered with an error and nothing of the
-- attempt changes: the first terminal result is never replaced.
pub drive-terminal :
    (a : Attempt) (cs : List Call) (r : ResultEnvelope)
    → a.terminal_result ≡ some r
    → All IsRefused (answers a cs) × (drive a cs ≡ a)
unfolding drive answers
drive-terminal a [] r h = (tt, refl)
drive-terminal a (c ∷ cs) r h =
    let (e, refused) = answer-terminal a c r h in
    let rest = drive-terminal a cs r h in rw refused (((e, refl), rest.0), rest.1)
