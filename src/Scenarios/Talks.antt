-- ===== src/Scenarios/Talks.antt =====
-- A busy database, a question and its reply, a debate, and a notice.
use brgr.Base.{
  [], ap, arith, err, if◌then◌else◌, is_blank, ltb, none, not, ok, refl, some, store_of, ℕ, ◌&&◌,
  ◌∷◌, ◌≡◌, ◌≤◌,
}
use brgr.Protocol.{AttemptId, TaskId, running}
use brgr.Rows.{owner_to_worker, question, reply, worker_to_owner}
use brgr.Store.{AttemptRow, Store, database, database_busy, database_locked, running}
use brgr.Store.Contention.{
  Call, Returned, is_lock_contention, retry_busy, retry_busy_within, retry_loop,
}
use brgr.Store.Contention.Bounded.{
  Clears, IsFirst, retry_busy-returns, retry_busy_within-Clears, retry_busy_within-IsFirst,
}
use brgr.Store.Owner.{OwnerProof, assert_owner_binding, binding_of}
use brgr.Store.Takeovers.{assert_owner_proof, awaiting, note_owner_action}
use brgr.Store.Attempts.{attempt_of, task_row}
use brgr.Store.Messages.{
  MessageDraft, assert_owner_message, attempt_owner, first_message, insert_message, is_unsettled,
  load_message, post_message_with_proof, unread, validate_active_attempt, validate_draft,
  validate_reply,
}
use brgr.Store.Messages.Threads.{
  Threaded, messages_after, messages_after-Threaded, perform, post, withdraw,
}
use brgr.Store.Messages.Questions.{perform-settles, post-again, settles}
use brgr.Scenarios.Data.{alice, platform, task_store}

abbrev busy_twice : ℕ → Call ℕ
busy_twice n = record {
  outcome = if ltb n 2 then err (database database_busy) else ok n;
  took = 5000;
  overslept = 0;
}

abbrev always_busy : ℕ → Call ℕ
always_busy n = record { outcome = err (database database_locked); took = 0; overslept = 0 }

retry_busy-returns_example :
    (r : Returned ℕ) × (retry_busy 47 always_busy ≡ some r) × (r.calls ≤ 47)
retry_busy-returns_example = retry_busy-returns always_busy

gives_up :
    retry_busy_within 3 3 always_busy
    ≡ some (record { outcome = err (database database_locked); calls = 3; at = 3 })
unfolding retry_busy_within retry_loop is_lock_contention
gives_up = refl

retry_busy_within-IsFirst_example :
    IsFirst always_busy 3 0 (record { outcome = err (database database_locked); calls = 3; at = 3 })
retry_busy_within-IsFirst_example = retry_busy_within-IsFirst always_busy 3 3 _ gives_up

clears : Clears busy_twice 20000 2 0 2 0
unfolding is_lock_contention
clears = (refl, omega arith, (refl, omega arith, refl))

retry_busy_within-Clears_example :
    (r : Returned ℕ) × (retry_busy_within 3 20000 busy_twice ≡ some r)
    × (r.outcome ≡ (busy_twice 2).outcome)
    × (r.calls ≡ 3)
retry_busy_within-Clears_example =
    retry_busy_within-Clears busy_twice 3 20000 2 (omega arith) clears

abbrev attempt_row : AttemptId → TaskId → AttemptRow
attempt_row id task = record { attempt_id = id; task_id = task; revision = 1; state = running }

abbrev talking : Store
talking = record task_store { attempts = attempt_row 5 1 ∷ [] }

abbrev asks : MessageDraft
asks = record {
  message_id = "q1";
  task_id = 1;
  attempt_id = 5;
  direction = worker_to_owner;
  kind = question;
  body = "which log?";
  in_reply_to = none;
}

abbrev replies : MessageDraft
replies = record {
  message_id = "r1";
  task_id = 1;
  attempt_id = 5;
  direction = owner_to_worker;
  kind = reply;
  body = "the last one";
  in_reply_to = some "q1";
}

abbrev proof : OwnerProof
proof = record { owner_id = alice; session_id = "s1"; binding_epoch = 1 }

abbrev asked : Store
asked = record talking { task_messages = unread asks ∷ [] }

abbrev replied : Store
replied = record talking { task_messages = unread replies ∷ unread asks ∷ [] }

posts : post_message_with_proof platform asked replies (some proof) ≡ ok (unread replies, replied)
unfolding post_message_with_proof validate_draft is_blank load_message first_message
    assert_owner_message assert_owner_proof note_owner_action awaiting assert_owner_binding
    binding_of validate_active_attempt validate_reply insert_message attempt_owner attempt_of
    task_row
posts = refl

post-again_example :
    post_message_with_proof platform replied replies none ≡ ok (unread replies, replied)
post-again_example = post-again platform asked replied replies (some proof) (unread replies) posts

performs : perform platform asked (post replies (some proof)) ≡ ok replied
unfolding perform
performs = ap store_of posts

perform-settles_example :
    is_unsettled replied 1 5 (unread asks)
    ≡ is_unsettled asked 1 5 (unread asks)
      && not (settles (post replies (some proof)) (unread asks))
perform-settles_example =
    perform-settles platform asked replied (post replies (some proof)) (unread asks) 1 5 performs

threads : Threaded talking.task_messages
unfolding Threaded
threads = tt

messages_after-Threaded_example :
    Threaded
      (messages_after platform talking
        (post asks none ∷ post replies (some proof) ∷ withdraw 1 5 "q1" ∷ [])).task_messages
messages_after-Threaded_example =
    messages_after-Threaded platform talking
      (post asks none ∷ post replies (some proof) ∷ withdraw 1 5 "q1" ∷ []) threads
