-- ===== src/Scenarios/Handoffs.antt =====
-- The head of an owner moves from session `s1` to session `s2`.
use text.Mathlib.TextEquality.{eq_iff}
use brgr.Base.{
  List, Result, [], ap, arith, err, is_blank, none, ok, refl, some, store_of, ◌>>=◌, ◌∷◌, ◌≡◌,
}
use brgr.Store.{
  BindingRow, Store, StoreError, TakeoverRow, TakeoverState, committed, owner_binding_conflict,
  prepared,
}
use brgr.Store.Owner.{
  assert_owner_binding, binding_of, move_binding, put_binding, rebind_in_transaction, rebind_owner,
  requeue_completions, requeue_workflows,
}
use brgr.Store.Owner.Epoch.{
  BindingCall, Bound, bind, bindings_after, bindings_after-Follows, claim_abandoned, commit_handoff,
  perform as bind_perform, rebind, stale-refused,
}
use brgr.Store.Takeovers.{
  Takeover, append_event, last_seq, load_takeover, manifest_row, read_binding, row_of, set_state,
}
use brgr.Store.Handoff.{
  handoff_references, open_references, pending_message_ids, pending_result_ids, validate_manifest,
  validate_references, validate_task_references,
}
use brgr.Store.Takeover.{
  commit_takeover, insert_takeover, open_takeover, validate_request, with_key,
}
use brgr.Store.Takeover.Claim.{
  AbandonedClaim, claim_abandoned_takeover, insert_claim, supersede_open,
}
use brgr.Store.Takeover.Moves.{
  Answered, Step, TakeoverCall, abort, commit, perform, perform-Step, request,
}
use brgr.Store.Takeover.OneOpen.{IsOrderly, after, after-IsOrderly}
use brgr.Store.Takeover.Trail.{IsTold, after-IsTold, last_event, state_of, told}
use brgr.Store.Takeover.Commit.{commit-hands_over}
use brgr.Scenarios.Data.{alice, bound_store, platform}

abbrev calls : List TakeoverCall
calls =
    request 7 alice "s1" "s2" "key"
    ∷ request 8 alice "s1" "s3" "other"
    ∷ abort 7 "changed my mind"
    ∷ []

bound_store-IsOrderly : IsOrderly bound_store
bound_store-IsOrderly = record { one_open = λ o. ground arith; one_row = λ id. ground arith }

bound_store-IsTold : IsTold bound_store
unfolding IsTold told state_of last_event row_of
bound_store-IsTold id = refl

after-IsOrderly_example : IsOrderly (after platform bound_store calls)
after-IsOrderly_example = after-IsOrderly platform bound_store calls bound_store-IsOrderly

after-IsTold_example : IsTold (after platform bound_store calls)
after-IsTold_example =
    after-IsTold platform bound_store calls bound_store-IsOrderly bound_store-IsTold

abbrev row : TakeoverState → TakeoverRow
row state = record {
  takeover_id = 7;
  owner_id = alice;
  from_session = "s1";
  from_epoch = 1;
  to_session = "s2";
  state = state;
  idempotency_key = "key";
  failure_reason = none;
}

abbrev ready_store : Store
ready_store = record bound_store { head_takeovers = row prepared ∷ [] }

abbrev moved_binding : BindingRow
moved_binding = record { owner_id = alice; session_id = "s2"; binding_epoch = 2 }

abbrev done_store : Store
done_store = record bound_store {
  owner_bindings = moved_binding ∷ [];
  head_takeovers = row committed ∷ [];
  takeover_events = record { takeover_id = 7; seq = 1; kind = committed; detail = none } ∷ [];
}

abbrev done : Takeover
done = record { row = row committed; manifest_id = none }

commits : commit_takeover ready_store 7 ≡ ok (done, done_store)
unfolding commit_takeover load_takeover row_of manifest_row read_binding binding_of
    rebind_in_transaction move_binding put_binding requeue_completions requeue_workflows set_state
    append_event last_seq
commits = refl

found_row : row_of ready_store 7 ≡ some (row prepared)
unfolding row_of
found_row = refl

commit-hands_over_example :
    (done.state ≡ committed)
    × (binding_of done_store alice ≡ some moved_binding)
    × (assert_owner_binding done_store alice (some "s1") (some 1) ≡ err owner_binding_conflict)
commit-hands_over_example =
    commit-hands_over ready_store done_store 7 (row prepared) done found_row refl
      (λ same. absurd (ground (arith, eq_iff "s1" "s2"))) commits

perform_commit : perform platform ready_store (commit 7) ≡ ok done_store
unfolding perform
perform_commit = ap store_of commits

perform-Step_example : Step ready_store done_store × Answered ready_store done_store (commit 7)
perform-Step_example = perform-Step platform ready_store done_store (commit 7) perform_commit

abbrev first_binding : BindingRow
first_binding = record { owner_id = alice; session_id = "s1"; binding_epoch = 1 }

bound_first : binding_of bound_store alice ≡ some first_binding
unfolding binding_of
bound_first = refl

-- The head of "s1" is gone, and "s2" claims it.
abbrev abandoned : AbandonedClaim
abandoned = record {
  from_session = "s1";
  to_session = "s2";
  idempotency_key = "claim";
  goal = "go on with the report";
  notes = "";
  expected_epoch = 1;
}

abbrev claimed : Result StoreError (Takeover × Store)
claimed = claim_abandoned_takeover platform bound_store 30 31 alice abandoned

claims : (do u ← store_of claimed; ok u.owner_bindings) ≡ ok (moved_binding ∷ [])
unfolding claim_abandoned_takeover validate_request is_blank read_binding binding_of with_key
    open_takeover supersede_open insert_claim handoff_references validate_manifest
    validate_task_references validate_references pending_result_ids pending_message_ids
    insert_takeover append_event set_state rebind_in_transaction move_binding put_binding
    requeue_completions requeue_workflows load_takeover row_of manifest_row open_references
claims = refl

abbrev binding_calls : List BindingCall
binding_calls =
    rebind alice "s2"
    ∷ bind alice "s3" 4
    ∷ commit_handoff 7
    ∷ claim_abandoned platform 30 31 alice abandoned
    ∷ []

bindings_after-Follows_example :
    Bound (bindings_after bound_store binding_calls) alice first_binding
bindings_after-Follows_example =
    bindings_after-Follows bound_store alice first_binding binding_calls bound_first

abbrev taken_store : Store
taken_store = record bound_store { owner_bindings = moved_binding ∷ [] }

taken : taken_store ≡ bindings_after bound_store (rebind alice "s2" ∷ [])
unfolding bindings_after bind_perform rebind_owner rebind_in_transaction move_binding binding_of
    put_binding requeue_completions requeue_workflows is_blank
taken = refl

bound_second : binding_of taken_store alice ≡ some moved_binding
unfolding binding_of
bound_second = refl

stale-refused_example :
    assert_owner_binding
      (bindings_after taken_store (rebind alice "s1" ∷ binding_calls))
      alice
      (some "s1")
      (some 1)
    ≡ err owner_binding_conflict
stale-refused_example =
    stale-refused bound_store taken_store alice first_binding moved_binding (rebind alice "s2" ∷ [])
      (rebind alice "s1" ∷ binding_calls) bound_first taken bound_second
      (λ same. absurd (ground (arith, eq_iff "s2" "s1")))
