-- ===== src/Store/Messages/Threads.antt =====
-- Which messages a store can hold: whatever is posted, acknowledged or withdrawn, each reply
-- answers a question of the other side, and no question has two replies.
use brgr.Base.{
  Bool, Bool-cases, List, Option, Option-cases, Result, Result-cases, String, [], any, any-update,
  arith, false, find-any, find?, found-any, found_id, if◌then◌else◌, inl, inr, is_blank, kept, leb,
  len, list_eq, nat_eq, none, not, ok, option_eq, refl, some, store_of, string_eq, subst, sym, true,
  update, ◌&&◌, ◌==◌, ◌∷◌, ◌≡◌,
}
use brgr.Protocol.{AttemptId, TaskId, outcome_eq, state_eq}
use brgr.Rows.{MessageDirection, MessageRow, direction_eq, kind_eq, opposite, question, reply}
use brgr.Store.{Platform, Store, StoreError, run_state_eq, takeover_state_eq}
use brgr.Store.Owner.{OwnerProof}
use brgr.Store.Takeovers.{assert_owner_proof}
use brgr.Store.Takeovers.Frame.{assert_owner_proof-moved, moved}
use brgr.Store.Messages.{
  MessageDraft, acknowledge_message, acknowledge_message_bound, addressed, assert_owner_message,
  assert_task_owner, check_message_proof, first_message, insert_message, is_reply_to, is_some,
  load_message, mark_read, max_body_bytes, post_message_with_proof, unread, validate_active_attempt,
  validate_draft, validate_reply, withdraw_question,
}

abbrev pub question_of : MessageRow → MessageRow → Bool
question_of m q =
    some q.message_id == m.in_reply_to
    && q.task_id == m.task_id
    && q.attempt_id == m.attempt_id
    && q.direction == opposite m.direction
    && q.kind == question

-- A message against the ones before it: its id is new and its body is not blank nor too long; a
-- reply names a question of the other side on the same attempt, which has no reply yet, and no other
-- message names one.
unfoldable pub fits : MessageRow → List MessageRow → Bool
fits m before =
    not (any (λ x. x.message_id == m.message_id) before)
    && not (is_blank m.body)
    && leb (len m.body) max_body_bytes
    && (if m.kind == reply
        then any (question_of m) before && not (any (is_reply_to m.in_reply_to) before)
        else not (is_some m.in_reply_to))

unfoldable pub Threaded : List MessageRow → Type 0
Threaded [] = Unit
Threaded (m ∷ before) = (fits m before ≡ true) × Threaded before

validated :
    (p : Platform) (d : MessageDraft)
    → validate_draft p d ≡ ok tt
    → (is_blank d.body ≡ false)
      × (leb (len d.body) max_body_bytes ≡ true)
      × ((d.kind == reply) ≡ is_some d.in_reply_to)
unfolding validate_draft
validated p d h = (ground arith, ground arith, ground arith)

replied :
    (s : Store) (d : MessageDraft) (id : String)
    → d.in_reply_to ≡ some id
    → validate_reply s d ≡ ok tt
    → any (question_of (unread d)) s.task_messages ≡ true
unfolding validate_reply load_message
replied s d id names h = elim (Option-cases (find? (λ m. m.message_id == id) s.task_messages)) [
  | inl missing ↦ absurd (ground arith)
  | inr (original, found) ↦
      let own = found_id (λ m. m.message_id == id) s.task_messages original found in
      found-any (λ m. m.message_id == id) (question_of (unread d)) s.task_messages original found
        (ground arith)
]

pub first_posted :
    (s u : Store) (d : MessageDraft) (m : MessageRow)
    → first_message s d ≡ ok (m, u)
    → (validate_active_attempt s d ≡ ok tt)
      × (validate_reply s d ≡ ok tt)
      × (d.kind == reply && is_some d.in_reply_to && any (is_reply_to d.in_reply_to) s.task_messages
          ≡ false)
      × (m ≡ unread d)
      × (u ≡ record s { task_messages = unread d ∷ s.task_messages })
unfolding first_message insert_message
first_posted s u d m h = (ground arith, ground arith, ground arith, ground arith, ground arith)

draft-fits :
    (p : Platform) (s : Store) (d : MessageDraft)
    → validate_draft p d ≡ ok tt
    → any (λ x. x.message_id == d.message_id) s.task_messages ≡ false
    → validate_reply s d ≡ ok tt
    → d.kind == reply && is_some d.in_reply_to && any (is_reply_to d.in_reply_to) s.task_messages
      ≡ false
    → fits (unread d) s.task_messages ≡ true
unfolding fits
draft-fits p s d valid fresh named sole =
    let (printed, short, shape) = validated p d valid in
    elim (Option-cases d.in_reply_to) [
      | inl alone ↦ ground arith
      | inr (id, names) ↦ let asked = replied s d id names named in ground arith
    ]

-- A checked proof leaves the tables of the conversation alone.
pub check-same :
    (s u : Store) (proof : Option OwnerProof) (d : MessageDraft)
    → check_message_proof s proof d ≡ ok u
    → u ≡ moved s u
unfolding assert_owner_message
check-same s u none d h = ground arith
check-same s u (some proof) d h = assert_owner_proof-moved s u proof (ground arith)

post-Threaded :
    (p : Platform) (s u : Store) (d : MessageDraft) (proof : Option OwnerProof) (m : MessageRow)
    → post_message_with_proof p s d proof ≡ ok (m, u)
    → Threaded s.task_messages
    → Threaded u.task_messages
unfolding post_message_with_proof load_message Threaded
post-Threaded p s u d proof m h rows = elim (Result-cases (check_message_proof s proof d)) [
  | inr (e, bad) ↦ absurd (ground arith)
  | inl (v, checked) ↦
      let frame = check-same s v proof d checked in
      let same : v.task_messages ≡ s.task_messages = cc in
      elim (Option-cases (find? (λ x. x.message_id == d.message_id) v.task_messages)) [
        | inr (old, found) ↦ let kept_ : u ≡ s = ground arith in rw kept_ rows
        | inl new ↦
            let (running_, named, sole, it, rest) = first_posted v u d m (ground arith) in
            let fresh = find-any (λ x. x.message_id == d.message_id) v.task_messages new in
            rw rest (draft-fits p v d (ground arith) fresh named sole, rw same rows)
      ]
]

-- Marking messages read changes no thread.
update-Threaded :
    (q : MessageRow → Bool) (ms : List MessageRow) → Threaded ms → Threaded (update q mark_read ms)
unfolding Threaded fits
update-Threaded q [] h = tt
update-Threaded q (m ∷ ms) (here, rest) =
    let ids = any-update (λ x. x.message_id == m.message_id) q mark_read ms (λ x. refl) in
    let asked = any-update (question_of m) q mark_read ms (λ x. refl) in
    let told = any-update (is_reply_to m.in_reply_to) q mark_read ms (λ x. refl) in
    elim (Bool-cases (q m)) [
      | inl hit ↦ (rw (hit, ids, asked, told) here, update-Threaded q ms rest)
      | inr out ↦ (rw (out, ids, asked, told) here, update-Threaded q ms rest)
    ]

pub data MessageCall : Type 0 where
  post : MessageDraft → Option OwnerProof → MessageCall
  read : TaskId → AttemptId → MessageDirection → String → MessageCall
  read_bound : TaskId → AttemptId → MessageDirection → String → OwnerProof → MessageCall
  withdraw : TaskId → AttemptId → String → MessageCall

unfoldable pub perform : Platform → Store → MessageCall → Result StoreError Store
perform p s (post d proof) = store_of (post_message_with_proof p s d proof)
perform p s (read task attempt side id) = acknowledge_message s task attempt side id
perform p s (read_bound task attempt side id proof) =
    acknowledge_message_bound s task attempt side id proof
perform p s (withdraw task attempt id) = withdraw_question s task attempt id

unfoldable pub messages_after : Platform → Store → List MessageCall → Store
messages_after p s [] = s
messages_after p s (c ∷ cs) = messages_after p (kept s (perform p s c)) cs

acknowledge-Threaded :
    (s u : Store) (task : TaskId) (attempt : AttemptId) (side : MessageDirection) (id : String)
    → acknowledge_message s task attempt side id ≡ ok u
    → Threaded s.task_messages
    → Threaded u.task_messages
unfolding acknowledge_message
acknowledge-Threaded s u task attempt side id h rows =
    let done : u ≡ record s {
      task_messages = update (addressed task attempt side id) mark_read s.task_messages;
    } =
      ground arith in
    rw done (update-Threaded (addressed task attempt side id) s.task_messages rows)

perform-Threaded :
    (p : Platform) (s u : Store) (c : MessageCall)
    → perform p s c ≡ ok u
    → Threaded s.task_messages
    → Threaded u.task_messages
unfolding perform acknowledge_message_bound assert_task_owner withdraw_question
perform-Threaded p s u (post d proof) h rows =
    elim (Result-cases (post_message_with_proof p s d proof)) [
      | inr (e, bad) ↦ absurd (ground arith)
      | inl ((m, v), done) ↦
          let same : v ≡ u = ground arith in rw (← same) (post-Threaded p s v d proof m done rows)
    ]
perform-Threaded p s u (read task attempt side id) h rows =
    acknowledge-Threaded s u task attempt side id h rows
perform-Threaded p s u (read_bound task attempt side id proof) h rows =
    elim (Result-cases (assert_owner_proof s proof)) [
      | inr (e, bad) ↦ absurd (ground arith)
      | inl (v, checked) ↦
          let frame = assert_owner_proof-moved s v proof checked in
          let same : v.task_messages ≡ s.task_messages = cc in
          acknowledge-Threaded v u task attempt side id (ground arith) (rw same rows)
    ]
perform-Threaded p s u (withdraw task attempt id) h rows =
    let same : u.task_messages ≡ s.task_messages = ground arith in rw same rows

-- Whatever messages are posted, read and withdrawn, refused calls included: ids stay unique, no body
-- is blank or longer than 8192 bytes, each reply answers an earlier question of the other side on
-- the same attempt, no question has two replies, and no other message names one.
pub messages_after-Threaded :
    (p : Platform) (s : Store) (cs : List MessageCall)
    → Threaded s.task_messages
    → Threaded (messages_after p s cs).task_messages
unfolding messages_after
messages_after-Threaded p s [] rows = rows
messages_after-Threaded p s (c ∷ cs) rows =
    messages_after-Threaded p (kept s (perform p s c)) cs (elim (Result-cases (perform p s c)) [
      | inl (u, done) ↦
          subst (λ m. Threaded (kept s m).task_messages) (sym done)
            (perform-Threaded p s u c done rows)
      | inr (e, refused) ↦ subst (λ m. Threaded (kept s m).task_messages) (sym refused) rows
    ])
