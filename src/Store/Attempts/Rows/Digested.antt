-- ===== src/Store/Attempts/Rows/Digested.antt =====
-- The digest of a row of results is that of its envelope, and a committed result is in its row.
use brgr.Base.{
  ==_refl, ==→≡, >>=-eq-ok, All, Bool, Option, Option-cases, Result-cases, String, arith, find?,
  found-All, inl, inr, list_eq, nat_eq, ok, option_eq, refl, some, string_eq, subst, sym, ◌==◌, ◌∙◌,
  ◌∷◌, ◌≡◌,
}
use brgr.Protocol.{AttemptState, OwnerId, ResultEnvelope, outcome_eq, state_eq}
use brgr.Store.{Platform, ResultRow, Store, WriteOutcome, run_state_eq, takeover_state_eq}
use brgr.Store.Attempts.{result_for, set_attempt}
use brgr.Store.Attempts.Writes.{
  PreparedTerminal, complete, insert_completion_notification, insert_inbox_item, insert_result,
  insert_route_observation, insert_terminal_event, sealed, write_terminal,
}
use brgr.Store.Attempts.Terminal.{
  UnfinishedAttempt, commit_guarded, commit_once, prepare_terminal_result, terminal_attempt,
}
use brgr.Store.Attempts.Rows.{complete_rows, observation_rows}
use brgr.Store.Attempts.Rows.First.{same_result}

abbrev pub IsDigested : Platform → Store → Type 0
IsDigested p s = All (λ x. x.result_digest ≡ p.envelope_digest x.envelope) s.results

-- The row of the attempt has the id of this result, and an envelope with the digest of it.
abbrev pub Stored : Platform → Store → ResultEnvelope → Type 0
Stored p u r =
    (stored : ResultRow) × (result_for u r.attempt_id ≡ some stored)
    × (stored.result_id ≡ r.result_id)
    × (p.envelope_digest stored.envelope ≡ p.envelope_digest (sealed r))

pub same-IsDigested :
    (p : Platform) (s u : Store) → u.results ≡ s.results → IsDigested p s → IsDigested p u
same-IsDigested p s u same rows =
    subst (All (λ x. x.result_digest ≡ p.envelope_digest x.envelope)) (sym same) rows

pub same-Stored :
    (p : Platform) (s u : Store) (r : ResultEnvelope)
    → u.results ≡ s.results
    → Stored p s r
    → Stored p u r
same-Stored p s u r same (stored, found, own, digest) =
    (stored, same_result s u r.attempt_id stored same found, own, digest)

abbrev row_for : ResultEnvelope → String → ResultRow
row_for r digest = record {
  result_id = r.result_id;
  attempt_id = r.attempt_id;
  task_id = r.task_id;
  revision = r.revision;
  result_digest = digest;
  envelope = sealed r;
}

write-row :
    (s u : Store) (owner : OwnerId) (r : ResultEnvelope) (ready : PreparedTerminal)
    (a : AttemptState) (b : Bool)
    → write_terminal s owner r ready a b ≡ ok u
    → u.results ≡ row_for r ready.digest ∷ s.results
unfolding write_terminal insert_result insert_inbox_item insert_completion_notification
    insert_terminal_event set_attempt
write-row s u owner r ready a b h =
    let (s1, made1, h1) = >>=-eq-ok (insert_result s r ready.digest) _ h in
    let (s2, made2, h2) =
      >>=-eq-ok (insert_route_observation s1 r.result_id ready.observation) _ h1 in
    let (s3, made3, h3) = >>=-eq-ok (insert_inbox_item s2 owner r.result_id) _ h2 in
    let (s4, made4, h4) = >>=-eq-ok (insert_completion_notification s3 owner r) _ h3 in
    let (s5, made5, h5) = >>=-eq-ok (complete b s4 r) _ h4 in
    let rows2 = observation_rows s1 s2 r.result_id ready.observation made2 in
    let rows5 = complete_rows b s4 s5 r made5 in ground arith

prepared-digest :
    (p : Platform) (s : Store) (r : ResultEnvelope) (ready : PreparedTerminal)
    → prepare_terminal_result p s r ≡ ok ready
    → ready.digest ≡ p.envelope_digest (sealed r)
unfolding prepare_terminal_result
prepared-digest p s r ready h = ground arith

written-Stored :
    (p : Platform) (s u : Store) (r : ResultEnvelope) (digest : String)
    → IsDigested p s
    → digest ≡ p.envelope_digest (sealed r)
    → u.results ≡ row_for r digest ∷ s.results
    → IsDigested p u × Stored p u r
unfolding result_for
written-Stored p s u r digest rows is made =
    let own = ==_refl r.attempt_id in
    (
      subst (All (λ x. x.result_digest ≡ p.envelope_digest x.envelope)) (sym made) (is, rows),
      (row_for r digest, rw made (ground arith), refl, refl),
    )

found_row :
    (s : Store) (r : ResultEnvelope) (stored : ResultRow)
    → result_for s r.attempt_id ≡ some stored
    → find? (λ x. x.attempt_id == r.attempt_id) s.results ≡ some stored
unfolding result_for
found_row s r stored h = h

-- A commit keeps the digests of the rows, and what it commits is stored, also when it is a
-- repetition.
pub commit_guarded-Stored :
    (p : Platform) (s u : Store) (owner : OwnerId) (r : ResultEnvelope)
    (observed : Option UnfinishedAttempt) (b : Bool) (w : WriteOutcome)
    → IsDigested p s
    → commit_guarded p s owner r observed b ≡ ok (w, u)
    → IsDigested p u × Stored p u r
unfolding commit_guarded commit_once
commit_guarded-Stored p s u owner r observed b w rows h =
    elim (Result-cases (prepare_terminal_result p s r)) [
      | inr (x, bad) ↦ cc (rw bad at h)
      | inl (ready, made) ↦
          let is = prepared-digest p s r ready made in
          elim (Option-cases (result_for s r.attempt_id)) [
            | inr (stored, old) ↦ elim (Result-cases (complete b s r)) [
              | inr (x, clash) ↦ absurd (ground arith)
              | inl (v, closed) ↦
                  let same : u.results ≡ s.results =
                    (let rows5 = complete_rows b s v r closed in ground arith) in
                  let digested =
                    found-All (λ x. x.result_digest ≡ p.envelope_digest x.envelope)
                      (λ x. x.attempt_id == r.attempt_id) s.results stored
                      (found_row s r stored old) rows in
                  let replayed = ==→≡ stored.result_digest ready.digest (ground arith) in
                  (
                    subst (All (λ x. x.result_digest ≡ p.envelope_digest x.envelope)) (sym same)
                        rows,
                    (
                      stored,
                      same_result s u r.attempt_id stored same old,
                      ground arith,
                      sym digested ∙ replayed ∙ is,
                    ),
                  )
            ]
            | inl new ↦ elim (Result-cases (terminal_attempt s r.attempt_id)) [
              | inr (x, missing) ↦ absurd (ground arith)
              | inl ((a, t), found) ↦
                  elim (Result-cases (write_terminal s owner r ready a.state b)) [
                    | inr (x, clash) ↦ absurd (ground arith)
                    | inl (v, written) ↦
                        let done : v ≡ u = ground arith in
                        subst (λ z. IsDigested p z × Stored p z r) done
                          (written-Stored p s v r ready.digest rows is
                            (write-row s v owner r ready a.state b written))
                  ]
            ]
          ]
    ]
