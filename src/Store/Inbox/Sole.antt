-- ===== src/Store/Inbox/Sole.antt =====
-- A result has one decision.

use brgr.Base.{
  ==_refl, Option-cases, Result-cases, String, arith, find?, inl, inr, list_eq, nat_eq, ok,
  option_eq, refl, some, string_eq, subst, sym, true, ℕ, ◌==◌, ◌≡◌,
}
use brgr.Protocol.{Decision, DecisionVerdict, OwnerId, accepted, outcome_eq, rejected, state_eq}
use brgr.Store.{Platform, Store, WriteOutcome, already_applied, run_state_eq, takeover_state_eq}
use brgr.Store.Takeovers.{append_event, awaiting, mark_resumed, note_owner_action}
use brgr.Store.Inbox.{
  decision_for_result, first_decision, insert_decision, note_decider, record_decision,
  same_decision, same_verdict,
}

verdict_refl : (v : DecisionVerdict) → same_verdict v v ≡ true
verdict_refl accepted = refl
verdict_refl rejected = refl

same_decision_refl : (d : Decision) → same_decision d d ≡ true
unfolding same_decision
same_decision_refl d =
    let a = ==_refl d.schema in
    let b = ==_refl d.owner_id in
    let c = ==_refl d.task_id in
    let e = ==_refl d.revision in
    let f = ==_refl d.result_id in
    let g = ==_refl d.result_digest in
    let h = ==_refl d.session_id in
    let i = ==_refl d.binding_epoch in
    let j = verdict_refl d.verdict in let k = ==_refl d.reason in ground arith

note_decisions :
    (s u : Store) (owner : OwnerId) (session : String) (epoch : ℕ)
    → note_owner_action s owner session epoch ≡ ok u
    → u.decisions ≡ s.decisions
unfolding note_owner_action append_event mark_resumed
note_decisions s u owner session epoch h = elim (Option-cases (awaiting s owner session epoch)) [
  | inl idle_ ↦ ground arith
  | inr (t, waits) ↦ ground arith
]

decider_decisions :
    (s u : Store) (d : Decision) → note_decider s d ≡ ok u → u.decisions ≡ s.decisions
unfolding note_decider
decider_decisions s u d h = elim (Option-cases d.session_id) [
  | inl no_session ↦ ground arith
  | inr (session, known) ↦ elim (Option-cases d.binding_epoch) [
    | inl no_epoch ↦ ground arith
    | inr (epoch, bound) ↦ note_decisions s u d.owner_id session epoch (ground arith)
  ]
]

-- An accepted decision, by what was decided before.
decided_by :
    (p : Platform) (s u : Store) (d : Decision) (w : WriteOutcome)
    → record_decision p s d ≡ ok (w, u)
    → (stored : Decision) × (decision_for_result u d.result_id ≡ some stored)
      × (same_decision stored d ≡ true)
unfolding record_decision first_decision insert_decision decision_for_result
decided_by p s u d w h = elim (Result-cases (note_decider s d)) [
  | inr (x, bad) ↦ absurd (ground arith)
  | inl (v, noted) ↦ elim (Option-cases (find? (λ x. x.result_id == d.result_id) v.decisions)) [
    | inr (row, old) ↦ (row.decision, ground arith, ground arith)
    | inl new ↦ let own = ==_refl d.result_id in (d, ground arith, same_decision_refl d)
  ]
]

repeated :
    (p : Platform) (u v : Store) (e stored : Decision) (w : WriteOutcome)
    → decision_for_result u e.result_id ≡ some stored
    → record_decision p u e ≡ ok (w, v)
    → (w ≡ already_applied) × (same_decision stored e ≡ true) × (v.decisions ≡ u.decisions)
unfolding record_decision decision_for_result
repeated p u v e stored w known h = elim (Result-cases (note_decider u e)) [
  | inr (x, bad) ↦ absurd (ground arith)
  | inl (n, noted) ↦
      let rows = decider_decisions u n e noted in (ground arith, ground arith, ground arith)
]

-- Once a decision on a result has gone through, a later one on the same result goes through only as
-- a repetition: it agrees with the stored decision in all but its id, as the first did, and changes
-- no decision.
pub sole_decision :
    (p : Platform) (s u v : Store) (d e : Decision) (w x : WriteOutcome)
    → record_decision p s d ≡ ok (w, u)
    → e.result_id ≡ d.result_id
    → record_decision p u e ≡ ok (x, v)
    → (stored : Decision) × (decision_for_result u d.result_id ≡ some stored)
      × (same_decision stored d ≡ true)
      × (same_decision stored e ≡ true)
      × (x ≡ already_applied)
      × (v.decisions ≡ u.decisions)
sole_decision p s u v d e w x first same again =
    let (stored, known, agrees) = decided_by p s u d w first in
    let there = subst (λ id. decision_for_result u id ≡ some stored) (sym same) known in
    let later = repeated p u v e stored x there again in
    (stored, known, agrees, later.1, later.0, later.2)
