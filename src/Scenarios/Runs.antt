-- ===== src/Scenarios/Runs.antt =====
-- One task with one attempt, from its claim to the decision on its result.

use brgr.Base.{
  Bool, Bool-cases, List, [], arith, err, false, inl, inr, is_blank, nat_beq, none, ok, refl, some,
  true, ℕ, ◌∷◌, ◌≡◌,
}
use brgr.Protocol.{
  AttemptState, Decision, TerminalOutcome, accepted, candidate, failed, queued, running, starting,
  terminal,
}
use brgr.Store.{
  AttemptRow, HandoffManifest, ResultRow, Store, StoreError, already_applied, failed, inserted,
  running,
}
use brgr.Store.Owner.{assert_owner_binding, binding_of}
use brgr.Store.Takeovers.{awaiting, note_owner_action}
use brgr.Store.Settle.{
  is_acknowledged, is_active, is_granted, latest_result_of, of_revision, result_of,
  revision_settlement, settle_result,
}
use brgr.Store.Handoff.{
  pending_message_ids, pending_result_ids, validate_manifest, validate_references,
  validate_task_references,
}
use brgr.Store.Handoff.Owned.{IsHonest, validate_manifest-IsHonest}
use brgr.Store.Attempts.{
  attempt_of, claim_attempt, insert_attempt, joins, prior_allows, result_for, set_attempt, task_row,
}
use brgr.Store.Attempts.Writes.{
  complete, fresh_delivery, insert_completion_notification, insert_inbox_item, insert_result,
  insert_route_observation, insert_terminal_event, write_terminal,
}
use brgr.Store.Attempts.Terminal.{
  commit_guarded, commit_once, prepare_terminal_result, task_of_attempt, terminal_attempt,
  validate_recovery, validate_schema, validate_terminal_result, verify_candidate,
  verify_replayed_observation,
}
use brgr.Store.Attempts.Rows.{AttemptCall, Step, advance, apply, apply-Step, claim, finish, launch}
use brgr.Store.Attempts.Rows.Sound.{IsSound, Joined, has_result, is_done}
use brgr.Store.Attempts.Rows.Kept.{after, after-IsSound}
use brgr.Store.Attempts.Rows.Settled.{is_settled, settled-refuses}
use brgr.Store.Attempts.Rows.First.{first-wins}
use brgr.Store.Inbox.{
  decision_for_result, first_decision, inbox_row, insert_decision, note_decider, record_decision,
  result_row, same_decision,
}
use brgr.Store.Inbox.Sole.{sole_decision}
use brgr.Scenarios.Data.{alice, envelope, platform, task_store}

task_store-IsSound : IsSound task_store
unfolding has_result is_done attempt_of Joined
task_store-IsSound = record {
  one_active = λ task n. ground arith;
  within_budget = λ task n t known. ground arith;
  ended = λ id. refl;
  joined = tt;
}

abbrev calls : List AttemptCall
calls =
    claim 1 1 5
    ∷ claim 1 1 6
    ∷ advance 5 queued starting
    ∷ launch 5 "nonce" 1
    ∷ advance 5 starting running
    ∷ finish alice (envelope 9 candidate) true
    ∷ claim 1 1 6
    ∷ []

after-IsSound_example : IsSound (after platform task_store calls)
after-IsSound_example = after-IsSound platform task_store calls task_store-IsSound

abbrev attempt : AttemptState → AttemptRow
attempt state = record { attempt_id = 5; task_id = 1; revision = 1; state = state }

abbrev claimed_store : Store
claimed_store = record task_store { attempts = attempt queued ∷ [] }

claims : claim_attempt task_store 1 1 5 ≡ ok claimed_store
unfolding claim_attempt task_row of_revision prior_allows insert_attempt is_active
claims = refl

applies : apply platform task_store (claim 1 1 5) ≡ ok claimed_store
unfolding apply
applies = claims

apply-Step_example : (claimed_store.tasks ≡ task_store.tasks) × Step task_store claimed_store
apply-Step_example = apply-Step platform task_store claimed_store (claim 1 1 5) applies

abbrev result_at : TerminalOutcome → ResultRow
result_at outcome = record {
  result_id = 9;
  attempt_id = 5;
  task_id = 1;
  revision = 1;
  result_digest = "sha256:11";
  envelope = envelope 9 outcome;
}

abbrev ended_store : TerminalOutcome → Bool → Store
ended_store outcome seen = record task_store {
  attempts = attempt terminal ∷ [];
  results = result_at outcome ∷ [];
  inbox_items = record { owner_id = alice; result_id = 9; acknowledged = seen } ∷ [];
  completion_notifications =
      record {
        result_id = 9;
        task_id = 1;
        owner_id = alice;
        resolved = false;
        delivery = fresh_delivery;
        attempts = 0;
        last_error = none;
      }
      ∷ [];
  terminal_events = 5 ∷ [];
}

abbrev running_store : Store
running_store = record task_store { attempts = attempt running ∷ [] }

commits :
    commit_guarded platform running_store alice (envelope 9 candidate) none false
    ≡ ok (inserted, ended_store candidate false)
unfolding commit_guarded prepare_terminal_result validate_terminal_result validate_schema
    task_of_attempt attempt_of task_row verify_candidate commit_once validate_recovery result_for
    terminal_attempt write_terminal insert_result insert_route_observation insert_inbox_item
    insert_completion_notification complete set_attempt insert_terminal_event
commits = refl

commits_again :
    commit_guarded platform (ended_store candidate false) alice (envelope 9 candidate) none false
    ≡ ok (already_applied, ended_store candidate false)
unfolding commit_guarded prepare_terminal_result validate_terminal_result validate_schema
    task_of_attempt attempt_of task_row verify_candidate commit_once validate_recovery result_for
    verify_replayed_observation complete
commits_again = refl

first-wins_example :
    (already_applied ≡ already_applied)
    × ((envelope 9 candidate).result_id ≡ (envelope 9 candidate).result_id)
    × ((ended_store candidate false).results ≡ (ended_store candidate false).results)
    × ((ended_store candidate false).attempts ≡ (ended_store candidate false).attempts)
first-wins_example =
    first-wins platform running_store (ended_store candidate false) (ended_store candidate false)
      alice alice (envelope 9 candidate) (envelope 9 candidate) none none false false inserted
      already_applied commits refl commits_again

ended_store-IsSound : IsSound (ended_store failed true)
unfolding has_result is_done attempt_of Joined is_active of_revision joins result_of task_row
ended_store-IsSound = record {
  one_active = λ task n. ground arith;
  within_budget = λ task n t known. ground arith;
  ended =
      λ id. elim (Bool-cases (nat_beq 5 id)) [ inl same ↦ ground arith | inr other ↦ ground arith ];
  joined = (λ task n. refl, tt);
}

settles : is_settled (revision_settlement (ended_store failed true) 1 1) ≡ true
unfolding is_settled revision_settlement settle_result latest_result_of is_active of_revision
    result_of is_granted is_acknowledged
settles = refl

settled-refuses_example : (x : StoreError) × (claim_attempt (ended_store failed true) 1 1 6 ≡ err x)
settled-refuses_example =
    settled-refuses (ended_store failed true) 1 1 6 ended_store-IsSound settles

abbrev decision : ℕ → Decision
decision id = record {
  schema = "brgr/v1";
  decision_id = id;
  owner_id = alice;
  task_id = 1;
  revision = 1;
  result_id = 9;
  result_digest = "sha256:11";
  session_id = some "s1";
  binding_epoch = some 1;
  verdict = accepted;
  reason = "complete";
}

abbrev decided_store : Store
decided_store = record (ended_store candidate false) {
  decisions = record { result_id = 9; decision = decision 20 } ∷ [];
}

decides :
    record_decision platform (ended_store candidate false) (decision 20)
    ≡ ok (inserted, decided_store)
unfolding record_decision validate_schema assert_owner_binding binding_of note_decider
    note_owner_action awaiting decision_for_result first_decision result_row inbox_row task_row
    insert_decision
decides = refl

decides_again :
    record_decision platform decided_store (decision 21) ≡ ok (already_applied, decided_store)
unfolding record_decision validate_schema assert_owner_binding binding_of note_decider
    note_owner_action awaiting decision_for_result same_decision
decides_again = refl

sole_decision_example :
    (stored : Decision) × (decision_for_result decided_store 9 ≡ some stored)
    × (same_decision stored (decision 20) ≡ true)
    × (same_decision stored (decision 21) ≡ true)
    × (already_applied ≡ already_applied)
    × (decided_store.decisions ≡ decided_store.decisions)
sole_decision_example =
    sole_decision platform (ended_store candidate false) decided_store decided_store (decision 20)
      (decision 21) inserted already_applied decides refl decides_again

abbrev manifest : HandoffManifest
manifest = record {
  goal = "finish the report";
  decision_notes = "";
  origin_session = "s1";
  tasks = record { task_id = 1; revision = 1; attempt_id = 5 } ∷ [];
  pending_result_ids = [];
  pending_message_ids = [];
}

accepts : validate_manifest running_store alice "s1" manifest ≡ ok tt
unfolding validate_manifest validate_task_references validate_references is_blank of_revision
    revision_settlement is_active pending_result_ids pending_message_ids
accepts = refl

validate_manifest-IsHonest_example : IsHonest running_store alice manifest
validate_manifest-IsHonest_example =
    validate_manifest-IsHonest running_store alice "s1" manifest accepts
