-- ===== src/Store/Messages/Questions.antt =====
-- What settles a question, and what a replayed post returns.
use brgr.Base.{
  ==_refl, ==→≡, Bool, Bool-cases, Option, Option-cases, Result-cases, String, any, any-update, ap,
  arith, false, find?, found-any, inl, inr, list_eq, nat_eq, none, not, ok, option_eq, refl, some,
  string_eq, true, update, ◌&&◌, ◌==◌, ◌∙◌, ◌∷◌, ◌≡◌,
}
use brgr.Protocol.{AttemptId, TaskId, outcome_eq, state_eq}
use brgr.Rows.{MessageDirection, MessageRow, direction_eq, kind_eq, reply}
use brgr.Store.{Platform, Store, run_state_eq, takeover_state_eq}
use brgr.Store.Owner.{OwnerProof}
use brgr.Store.Takeovers.{assert_owner_proof}
use brgr.Store.Takeovers.Frame.{assert_owner_proof-moved}
use brgr.Store.Messages.{
  MessageDraft, acknowledge_message, acknowledge_message_bound, addressed, assert_task_owner,
  check_message_proof, is_reply_to, is_unsettled, is_withdrawn, load_message, mark_read,
  message_matches_draft, post_message_with_proof, unread, withdraw_question,
}
use brgr.Store.Messages.Threads.{
  MessageCall, check-same, first_posted, perform, post, read, read_bound, withdraw,
}

-- What a call settles: a reply its question, a withdrawal its own.
abbrev pub settles : MessageCall → MessageRow → Bool
settles (post d proof) q = d.kind == reply && d.in_reply_to == some q.message_id
settles (withdraw task attempt id) q = id == q.message_id
settles _ q = false

matching :
    (s : Store) (d : MessageDraft) (m q : MessageRow)
    → load_message s d.message_id ≡ some m
    → message_matches_draft m d ≡ true
    → d.kind == reply && d.in_reply_to == some q.message_id ≡ true
    → any (is_reply_to (some q.message_id)) s.task_messages ≡ true
unfolding load_message message_matches_draft
matching s d m q found same told =
    let kinds : m.kind ≡ reply =
      ground (arith, ==→≡ m.kind d.kind (ground arith), ==→≡ d.kind reply (ground arith)) in
    let a = ==→≡ m.in_reply_to d.in_reply_to (ground arith) in
    let b = ==→≡ d.in_reply_to (some q.message_id) (ground arith) in
    found-any (λ x. x.message_id == d.message_id) (is_reply_to (some q.message_id)) s.task_messages
      m found (rw (kinds, a, b) (==_refl (some q.message_id)))

post-settles :
    (p : Platform) (s u : Store) (d : MessageDraft) (proof : Option OwnerProof) (m q : MessageRow)
    (task : TaskId) (attempt : AttemptId)
    → post_message_with_proof p s d proof ≡ ok (m, u)
    → is_unsettled u task attempt q
      ≡ is_unsettled s task attempt q && not (d.kind == reply && d.in_reply_to == some q.message_id)
unfolding post_message_with_proof is_unsettled
post-settles p s u d proof m q task attempt h =
    elim (Result-cases (check_message_proof s proof d)) [
      | inr (e, bad) ↦ absurd (ground arith)
      | inl (v, checked) ↦
          let frame = check-same s v proof d checked in
          let rows : v.task_messages ≡ s.task_messages = cc in
          let gone : v.withdrawn_questions ≡ s.withdrawn_questions = cc in
          elim (Option-cases (load_message v d.message_id)) [
            | inr (old, found) ↦
                let kept_ : u ≡ s = ground arith in
                let stays = ap (λ t. is_unsettled t task attempt q) kept_ in
                elim (Bool-cases (d.kind == reply && d.in_reply_to == some q.message_id)) [
                  | inl told ↦
                      let there = matching v d old q found (ground arith) told in
                      let here : any (is_reply_to (some q.message_id)) s.task_messages ≡ true =
                        rw rows at there in
                      stays ∙ ground arith
                  | inr other ↦ stays ∙ ground arith
                ]
            | inl new ↦
                let (running_, named, sole, it, rest) = first_posted v u d m (ground arith) in
                rw (rest, rows, gone) (ground arith)
          ]
    ]

withdraw-settles :
    (s u : Store) (task t : TaskId) (attempt a : AttemptId) (id : String) (q : MessageRow)
    → withdraw_question s t a id ≡ ok u
    → is_unsettled u task attempt q ≡ is_unsettled s task attempt q && not (id == q.message_id)
unfolding withdraw_question is_unsettled
withdraw-settles s u task t attempt a id q h = elim (Bool-cases (is_withdrawn s id)) [
  | inr first ↦
      let made : u ≡ record s { withdrawn_questions = id ∷ s.withdrawn_questions } = ground arith in
      rw made (ground arith)
  | inl before ↦
      let made : u ≡ s = ground arith in
      elim (Bool-cases (id == q.message_id)) [
        | inr other ↦ rw made (ground arith)
        | inl own ↦
            let gone : is_withdrawn s q.message_id ≡ true =
              rw (==→≡ id q.message_id own) at before in
            rw made (ground arith)
      ]
]

read-settles :
    (s u : Store) (task t : TaskId) (attempt a : AttemptId) (side : MessageDirection) (id : String)
    (q : MessageRow)
    → acknowledge_message s t a side id ≡ ok u
    → is_unsettled u task attempt q ≡ is_unsettled s task attempt q
unfolding acknowledge_message is_unsettled
read-settles s u task t attempt a side id q h =
    let made : u
        ≡ record s { task_messages = update (addressed t a side id) mark_read s.task_messages } =
      ground arith in
    let told =
      any-update (is_reply_to (some q.message_id)) (addressed t a side id) mark_read s.task_messages
        (λ x. refl) in
    rw (made, told) refl

unsettled-same :
    (v s : Store) (q : MessageRow) (task : TaskId) (attempt : AttemptId)
    → v.task_messages ≡ s.task_messages
    → v.withdrawn_questions ≡ s.withdrawn_questions
    → is_unsettled v task attempt q ≡ is_unsettled s task attempt q
unfolding is_unsettled
unsettled-same v s q task attempt rows gone = rw (rows, gone) refl

-- An accepted call leaves a question unsettled exactly when it was and the call neither replies to it
-- nor withdraws it: reading, notes, other replies and replays settle nothing.
pub perform-settles :
    (p : Platform) (s u : Store) (c : MessageCall) (q : MessageRow) (task : TaskId)
    (attempt : AttemptId)
    → perform p s c ≡ ok u
    → is_unsettled u task attempt q ≡ is_unsettled s task attempt q && not (settles c q)
unfolding perform acknowledge_message_bound assert_task_owner
perform-settles p s u (post d proof) q task attempt h =
    elim (Result-cases (post_message_with_proof p s d proof)) [
      | inr (e, bad) ↦ absurd (ground arith)
      | inl ((m, v), done) ↦
          let same : v ≡ u = ground arith in
          rw (← same) (post-settles p s v d proof m q task attempt done)
    ]
perform-settles p s u (read t a side id) q task attempt h =
    ground (arith, read-settles s u task t attempt a side id q h)
perform-settles p s u (read_bound t a side id proof) q task attempt h =
    elim (Result-cases (assert_owner_proof s proof)) [
      | inr (e, bad) ↦ absurd (ground arith)
      | inl (v, checked) ↦
          let frame = assert_owner_proof-moved s v proof checked in
          let rows : v.task_messages ≡ s.task_messages = cc in
          let gone : v.withdrawn_questions ≡ s.withdrawn_questions = cc in
          let step = read-settles v u task t attempt a side id q (ground arith) in
          let same = unsettled-same v s q task attempt rows gone in ground arith
    ]
perform-settles p s u (withdraw t a id) q task attempt h =
    withdraw-settles s u task t attempt a id q h

draft_refl : (d : MessageDraft) → message_matches_draft (unread d) d ≡ true
unfolding message_matches_draft
draft_refl d =
    let a = ==_refl d.task_id in
    let b = ==_refl d.attempt_id in
    let c = ==_refl d.direction in
    let e = ==_refl d.kind in
    let f = ==_refl d.body in let g = ==_refl d.in_reply_to in ground arith

-- A message that was posted can be posted again without a proof: the message that is stored is
-- returned, and nothing is written.
pub post-again :
    (p : Platform) (s u : Store) (d : MessageDraft) (proof : Option OwnerProof) (m : MessageRow)
    → post_message_with_proof p s d proof ≡ ok (m, u)
    → post_message_with_proof p u d none ≡ ok (m, u)
unfolding post_message_with_proof load_message
post-again p s u d proof m h = elim (Result-cases (check_message_proof s proof d)) [
  | inr (e, bad) ↦ absurd (ground arith)
  | inl (v, checked) ↦
      let frame = check-same s v proof d checked in
      let rows : v.task_messages ≡ s.task_messages = cc in
      elim (Option-cases (find? (λ x. x.message_id == d.message_id) v.task_messages)) [
        | inr (old, found) ↦
            let made : u ≡ s = ground arith in
            let there : find? (λ x. x.message_id == d.message_id) s.task_messages ≡ some old =
              rw rows at found in
            rw made (ground arith)
        | inl new ↦
            let (running_, named, sole, it, rest) = first_posted v u d m (ground arith) in
            let own = ==_refl d.message_id in
            let same = draft_refl d in rw (rest, it) (ground arith)
      ]
]
