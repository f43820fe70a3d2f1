-- ===== src/Store/Attempts/Rows/First.antt =====
-- The first terminal result of an attempt is the only one.
use brgr.Base.{
  ==_refl, >>=-eq-ok, Bool, Option, Option-cases, Result-cases, ap, arith, find?, inl, inr, list_eq,
  nat_eq, ok, option_eq, refl, some, string_eq, subst, sym, ◌==◌, ◌∙◌, ◌≡◌,
}
use brgr.Protocol.{AttemptId, AttemptState, OwnerId, ResultEnvelope, outcome_eq, state_eq}
use brgr.Store.{
  Platform, ResultRow, Store, WriteOutcome, already_applied, run_state_eq, takeover_state_eq,
}
use brgr.Store.Attempts.{result_for, set_attempt}
use brgr.Store.Attempts.Writes.{
  PreparedTerminal, complete, insert_completion_notification, insert_inbox_item, insert_result,
  insert_route_observation, insert_terminal_event, sealed, write_terminal,
}
use brgr.Store.Attempts.Terminal.{
  UnfinishedAttempt, commit_guarded, commit_once, prepare_terminal_result, terminal_attempt,
}
use brgr.Store.Attempts.Rows.{complete_rows, observation_rows}

write_result :
    (s u : Store) (owner : OwnerId) (r : ResultEnvelope) (ready : PreparedTerminal)
    (a : AttemptState) (b : Bool)
    → write_terminal s owner r ready a b ≡ ok u
    → (stored : ResultRow) × (result_for u r.attempt_id ≡ some stored)
      × (stored.result_id ≡ r.result_id)
unfolding write_terminal insert_result insert_inbox_item insert_completion_notification
    insert_terminal_event set_attempt result_for
write_result s u owner r ready a b h =
    let (s1, made1, h1) = >>=-eq-ok (insert_result s r ready.digest) _ h in
    let (s2, made2, h2) =
      >>=-eq-ok (insert_route_observation s1 r.result_id ready.observation) _ h1 in
    let (s3, made3, h3) = >>=-eq-ok (insert_inbox_item s2 owner r.result_id) _ h2 in
    let (s4, made4, h4) = >>=-eq-ok (insert_completion_notification s3 owner r) _ h3 in
    let (s5, made5, h5) = >>=-eq-ok (complete b s4 r) _ h4 in
    let rows2 = observation_rows s1 s2 r.result_id ready.observation made2 in
    let rows5 = complete_rows b s4 s5 r made5 in
    let own = ==_refl r.attempt_id in
    (
      record {
        result_id = r.result_id;
        attempt_id = r.attempt_id;
        task_id = r.task_id;
        revision = r.revision;
        result_digest = ready.digest;
        envelope = sealed r;
      },
      ground arith,
      refl,
    )

pub same_result :
    (s u : Store) (id : AttemptId) (stored : ResultRow)
    → u.results ≡ s.results
    → result_for s id ≡ some stored
    → result_for u id ≡ some stored
unfolding result_for
same_result s u id stored rows h = ap (find? (λ r. r.attempt_id == id)) rows ∙ h

pub committed_result :
    (p : Platform) (s u : Store) (owner : OwnerId) (r : ResultEnvelope)
    (observed : Option UnfinishedAttempt) (b : Bool) (w : WriteOutcome)
    → commit_guarded p s owner r observed b ≡ ok (w, u)
    → (stored : ResultRow) × (result_for u r.attempt_id ≡ some stored)
      × (stored.result_id ≡ r.result_id)
unfolding commit_guarded commit_once
committed_result p s u owner r observed b w h =
    elim (Result-cases (prepare_terminal_result p s r)) [
      | inr (x, bad) ↦ cc (rw bad at h)
      | inl (ready, made) ↦ elim (Option-cases (result_for s r.attempt_id)) [
        | inr (stored, old) ↦ elim (Result-cases (complete b s r)) [
          | inr (x, clash) ↦ absurd (ground arith)
          | inl (v, closed) ↦
              let rows = complete_rows b s v r closed in
              (stored, same_result s u r.attempt_id stored (ground arith) old, ground arith)
        ]
        | inl new ↦ elim (Result-cases (terminal_attempt s r.attempt_id)) [
          | inr (x, missing) ↦ absurd (ground arith)
          | inl ((a, t), found) ↦ elim (Result-cases (write_terminal s owner r ready a.state b)) [
            | inr (x, clash) ↦ absurd (ground arith)
            | inl (v, written) ↦
                let done : v ≡ u = ground arith in
                subst
                  (λ z.
                    (stored : ResultRow) × (result_for z r.attempt_id ≡ some stored)
                    × (stored.result_id ≡ r.result_id))
                  done (write_result s v owner r ready a.state b written)
          ]
        ]
      ]
    ]

-- Once a result is committed for an attempt, another commit for it goes through only for the same
-- result id, as a repetition, and changes neither results nor attempts.
pub first-wins :
    (p : Platform) (s u v : Store) (owner other : OwnerId) (r q : ResultEnvelope)
    (observed later : Option UnfinishedAttempt) (b c : Bool) (w x : WriteOutcome)
    → commit_guarded p s owner r observed b ≡ ok (w, u)
    → q.attempt_id ≡ r.attempt_id
    → commit_guarded p u other q later c ≡ ok (x, v)
    → (x ≡ already_applied)
      × (q.result_id ≡ r.result_id)
      × (v.results ≡ u.results)
      × (v.attempts ≡ u.attempts)
unfolding commit_guarded commit_once
first-wins p s u v owner other r q observed later b c w x first same again =
    let (stored, known, own) = committed_result p s u owner r observed b w first in
    let there = subst (λ id. result_for u id ≡ some stored) (sym same) known in
    elim (Result-cases (prepare_terminal_result p u q)) [
      | inr (e, bad) ↦ cc (rw bad at again)
      | inl (ready, made) ↦ elim (Result-cases (complete c u q)) [
        | inr (e, clash) ↦ absurd (ground arith)
        | inl (z, closed) ↦
            let rows = complete_rows c u z q closed in
            (ground arith, ground arith, ground arith, ground arith)
      ]
    ]
