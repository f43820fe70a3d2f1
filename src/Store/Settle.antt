-- ===== src/Store/Settle.antt =====
-- src/result.rs: whether a task revision is finished with, and the readers of results.
use brgr.Base.{
  Bool, Option, any, find?, if◌then◌else◌, nat_eq, none, not, option_eq, some, string_eq, ℕ, ◌&&◌,
  ◌==◌,
}
use brgr.Protocol.{
  AttemptId, ResultId, TaskId, TerminalOutcome, candidate, outcome_eq, state_eq, terminal,
}
use brgr.Store.{AttemptRow, ResultRow, Store, run_state_eq, takeover_state_eq}

pub data OpenReason : Type 0 where
  no_result undecided : OpenReason
  unacknowledged : TerminalOutcome → OpenReason
  attempt_active retry_granted : OpenReason

pub data Settlement : Type 0 where
  decided : Settlement
  acknowledged : TerminalOutcome → Settlement
  still_open : OpenReason → Settlement

unfoldable pub of_revision : TaskId → ℕ → AttemptRow → Bool
of_revision task revision a = a.task_id == task && a.revision == revision

unfoldable pub is_active : TaskId → ℕ → AttemptRow → Bool
unfolding of_revision
is_active task revision a = of_revision task revision a && not (a.state == terminal)

unfoldable pub result_of : TaskId → ℕ → ResultRow → Bool
result_of task revision r = r.task_id == task && r.revision == revision

unfoldable pub latest_result_of : Store → TaskId → ℕ → Option ResultRow
latest_result_of s task revision = find? (result_of task revision) s.results

unfoldable pub is_granted : Store → AttemptId → Bool
is_granted s id = any (λ g. g == id) s.retry_grants

unfoldable pub has_decision : Store → ResultId → Bool
has_decision s id = any (λ d. d.result_id == id) s.decisions

unfoldable pub is_acknowledged : Store → ResultId → Bool
is_acknowledged s id = any (λ i. i.result_id == id && i.acknowledged) s.inbox_items

unfoldable pub settle_result : Store → ResultRow → Settlement
settle_result s r =
    if r.envelope.outcome == candidate
    then (if has_decision s r.result_id then decided else still_open undecided)
    else if is_granted s r.attempt_id
    then still_open retry_granted
    else if is_acknowledged s r.result_id
    then acknowledged r.envelope.outcome
    else still_open (unacknowledged r.envelope.outcome)

-- `revision_settlement_on`
unfoldable pub revision_settlement : Store → TaskId → ℕ → Settlement
unfolding settle_result
revision_settlement s task revision =
    if any (is_active task revision) s.attempts
    then still_open attempt_active
    else elim (latest_result_of s task revision) [
      | none ↦ still_open no_result
      | some r ↦ settle_result s r
    ]
