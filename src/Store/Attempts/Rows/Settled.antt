-- ===== src/Store/Attempts/Rows/Settled.antt =====
-- A revision that is finished with admits no further attempt.
use brgr.Base.{
  All-map, Bool, Bool-cases, Option-cases, any, arith, count, err, false, find-cong, find?, inl,
  inr, leb, refl, some, true, ℕ, ◌∙◌, ◌≡◌, ◌⊎◌,
}
use brgr.Protocol.{AttemptId, TaskId, TerminalOutcome, cancelled, candidate, failed, lost}
use brgr.Store.{
  ResultRow, Store, StoreError, attempt_budget_exhausted, cancelled, failed,
  non_retryable_prior_attempt, task_not_found, unresolved_prior_attempt,
}
use brgr.Store.Settle.{
  Settlement, acknowledged, decided, is_active, latest_result_of, of_revision, result_of,
  revision_settlement, settle_result, still_open,
}
use brgr.Store.Attempts.{claim_attempt, joins, prior_allows, retryable, task_row}
use brgr.Store.Attempts.Rows.Sound.{IsSound, Joined}

unfoldable pub is_settled : Settlement → Bool
is_settled decided = true
is_settled (acknowledged o) = true
is_settled (still_open r) = false

prior_row :
    (s : Store) (task : TaskId) (n : ℕ)
    → IsSound s
    → find? (joins s task n) s.results ≡ latest_result_of s task n
unfolding latest_result_of Joined
prior_row s task n h =
    find-cong (joins s task n) (result_of task n) s.results
      (All-map s.results (λ r own. own task n) h.joined)

settled_result :
    (s : Store) (task : TaskId) (n : ℕ)
    → is_settled (revision_settlement s task n) ≡ true
    → (r : ResultRow) × (latest_result_of s task n ≡ some r)
      × (is_settled (settle_result s r) ≡ true)
unfolding revision_settlement is_settled
settled_result s task n h = elim (Bool-cases (any (is_active task n) s.attempts)) [
  | inl busy ↦ absurd (ground arith)
  | inr idle_ ↦ elim (Option-cases (latest_result_of s task n)) [
    | inl missing ↦ absurd (ground arith)
    | inr (r, found) ↦ (r, found, ground arith)
  ]
]

outcome_cases :
    (o : TerminalOutcome) → (o ≡ candidate) ⊎ (o ≡ failed) ⊎ (o ≡ cancelled) ⊎ (o ≡ lost)
outcome_cases candidate = inl refl
outcome_cases failed = inr (inl refl)
outcome_cases cancelled = inr (inr (inl refl))
outcome_cases lost = inr (inr (inr refl))

settled_retry :
    (s : Store) (task : TaskId) (n : ℕ) (r : ResultRow)
    → is_settled (settle_result s r) ≡ true
    → (x : StoreError) × (retryable s task n r ≡ err x)
unfolding retryable settle_result is_settled
settled_retry s task n r h = elim (outcome_cases r.envelope.outcome) [
  | inl e ↦ (non_retryable_prior_attempt task n, ground arith)
  | inr (inl e) ↦ (non_retryable_prior_attempt task n, ground arith)
  | inr (inr (inl e)) ↦ (non_retryable_prior_attempt task n, ground arith)
  | inr (inr (inr e)) ↦ (unresolved_prior_attempt task n, ground arith)
]

-- In a sound store, once a revision is decided, or its failure is acknowledged and no retry was
-- granted, every claim of another attempt on it is refused: this is what lets the checkout of a
-- settled revision be removed.
pub settled-refuses :
    (s : Store) (task : TaskId) (n : ℕ) (id : AttemptId)
    → IsSound s
    → is_settled (revision_settlement s task n) ≡ true
    → (x : StoreError) × (claim_attempt s task n id ≡ err x)
unfolding claim_attempt prior_allows
settled-refuses s task n id sound h =
    let (r, found, settled) = settled_result s task n h in
    let (x, refused) = settled_retry s task n r settled in
    let prior = prior_row s task n sound ∙ found in
    elim (Option-cases (task_row s task n)) [
      | inl missing ↦ (task_not_found task, ground arith)
      | inr (t, known) ↦
          elim (Bool-cases
            (leb t.spec.budget.max_attempts (count (of_revision task n) s.attempts))) [
              | inl spent ↦ (attempt_budget_exhausted task n, ground arith)
              | inr room ↦ (x, ground arith)
            ]
    ]
