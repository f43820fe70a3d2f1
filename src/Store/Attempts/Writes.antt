-- ===== src/Store/Attempts/Writes.antt =====
-- src/attempt.rs and src/lib.rs: the writes of a first terminal result, each under the keys of its
-- table, and all of them together.
use brgr.Base.{
  Bool, Option, Result, String, any, err, false, find?, if◌then◌else◌, list_eq, nat_eq, none, ok,
  option_eq, refuse, some, string_eq, true, ◌&&◌, ◌==◌, ◌>>=◌, ◌>>◌, ◌||◌, ◌∷◌,
}
use brgr.Protocol.{
  AttemptId, AttemptState, OwnerId, ResultEnvelope, ResultId, RouteObservation, outcome_eq,
  state_eq, terminal,
}
use brgr.Rows.{EventRow, direction_eq, kind_eq, terminal}
use brgr.Store.{
  CompletionRow, Delivery, Store, StoreError, constraint_violation, database, invalid_notification,
  no_rows, run_state_eq, takeover_state_eq,
}
use brgr.Store.Attempts.{set_attempt}

-- The JSON text of a result leaves out the observation of the route.
abbrev pub sealed : ResultEnvelope → ResultEnvelope
sealed r = record r { route_observation = none }

-- What is read before the lock is taken.
pub record PreparedTerminal : Type 0 where
  pub digest : String
  pub observation : Option (String × RouteObservation)
  pub verified_spec : String

-- `insert_run_completion`: INSERT OR IGNORE, then the recorded result must be this one.
unfoldable pub insert_run_completion : Store → ResultEnvelope → Result StoreError Store
insert_run_completion s r =
    let of_run = λ (c : CompletionRow). c.task_id == r.task_id && c.revision == r.revision in
    elim (find? of_run s.run_completions) [
      | some c ↦ if c.result_id == r.result_id then ok s else err invalid_notification
      | none ↦ do
        refuse (any (λ c. c.result_id == r.result_id) s.run_completions) (database no_rows)
        ok (record s {
          run_completions =
              record { task_id = r.task_id; revision = r.revision; result_id = r.result_id }
              ∷ s.run_completions;
        })
    ]

unfoldable pub complete : Bool → Store → ResultEnvelope → Result StoreError Store
complete true s r = insert_run_completion s r
complete false s r = ok s

unfoldable pub insert_result : Store → ResultEnvelope → String → Result StoreError Store
insert_result s r digest = do
  refuse (any (λ x. x.result_id == r.result_id || x.attempt_id == r.attempt_id) s.results)
      (database constraint_violation)
  ok (record s {
    results =
        record {
          result_id = r.result_id;
          attempt_id = r.attempt_id;
          task_id = r.task_id;
          revision = r.revision;
          result_digest = digest;
          envelope = sealed r;
        }
        ∷ s.results;
  })

unfoldable pub insert_route_observation :
    Store → ResultId → Option (String × RouteObservation) → Result StoreError Store
insert_route_observation s id none = ok s
insert_route_observation s id (some p) = do
  refuse (any (λ o. o.result_id == id) s.route_observations) (database constraint_violation)
  ok (record s {
    route_observations =
        record { result_id = id; observation_digest = p.0; observation = p.1 }
        ∷ s.route_observations;
  })

unfoldable pub insert_inbox_item : Store → OwnerId → ResultId → Result StoreError Store
insert_inbox_item s owner id = do
  refuse (any (λ i. i.owner_id == owner && i.result_id == id) s.inbox_items)
      (database constraint_violation)
  ok (record s {
    inbox_items = record { owner_id = owner; result_id = id; acknowledged = false } ∷ s.inbox_items;
  })

abbrev pub fresh_delivery : Delivery
fresh_delivery = record {
  session = none;
  epoch = none;
  pane = none;
  claim_token = none;
  claim_until = 0;
}

-- The result of a workflow's step has no notice of its own.
unfoldable pub insert_completion_notification :
    Store → OwnerId → ResultEnvelope → Result StoreError Store
insert_completion_notification s owner r =
    if any (λ w. w.task_id == r.task_id) s.workflow_steps then ok s else (do
      refuse (any (λ n. n.result_id == r.result_id) s.completion_notifications)
          (database constraint_violation)
      ok (record s {
        completion_notifications =
            record {
              result_id = r.result_id;
              task_id = r.task_id;
              owner_id = owner;
              resolved = false;
              delivery = fresh_delivery;
              attempts = 0;
              last_error = none;
            }
            ∷ s.completion_notifications;
      }))

abbrev pub is_terminal_key : AttemptId → EventRow → Bool
is_terminal_key id e = e.attempt_id == id && e.producer == "brgr.terminal" && e.producer_seq == 1

-- The event of producer `brgr.terminal` with sequence number 1, under the key of the events of the
-- attempt; the ids of these events are kept apart from the other events, and are fresh.
unfoldable pub insert_terminal_event : Store → AttemptId → Result StoreError Store
insert_terminal_event s id = do
  refuse (any (λ e. e == id) s.terminal_events || any (is_terminal_key id) s.events)
      (database constraint_violation)
  ok (record s { terminal_events = id ∷ s.terminal_events })

-- All the writes of a first terminal result.
unfoldable pub write_terminal :
    Store
    → OwnerId
    → ResultEnvelope
    → PreparedTerminal
    → AttemptState
    → Bool
    → Result StoreError Store
write_terminal s owner r ready current complete_run = do
  s1 ← insert_result s r ready.digest
  s2 ← insert_route_observation s1 r.result_id ready.observation
  s3 ← insert_inbox_item s2 owner r.result_id
  s4 ← insert_completion_notification s3 owner r
  s5 ← complete complete_run s4 r
  insert_terminal_event (set_attempt s5 r.attempt_id current terminal) r.attempt_id
