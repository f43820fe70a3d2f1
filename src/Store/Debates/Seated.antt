-- ===== src/Store/Debates/Seated.antt =====
-- Which peer messages a store can hold.
use brgr.Base.{
  Bool, Bool-cases, List, Option-cases, Result-cases, String, [], any, any-update, arith, false,
  find-any, find?, if◌then◌else◌, inl, inr, is_blank, kept, leb, len, list_eq, map, nat_eq, not, ok,
  option_eq, refl, some, string_eq, subst, sym, true, update, ◌&&◌, ◌++◌, ◌==◌, ◌∷◌, ◌≡◌,
}
use brgr.Protocol.{AttemptId, OwnerId, TaskId, outcome_eq, state_eq}
use brgr.Rows.{MemberRow, PeerRow, direction_eq, kind_eq, question, reply}
use brgr.Store.{Platform, Store, run_state_eq, takeover_state_eq}
use brgr.Store.Takeovers.Frame.{moved}
use brgr.Store.Messages.{is_some, max_body_bytes}
use brgr.Store.Debates.{
  DebateGroup, PeerDraft, acknowledge_peer_with_proof, check_peer_reply, check_proof, check_side,
  debate, group_of, is_asked, is_member, is_received, peer_value, post_peer_message_with_proof,
  seat, stop_debate_with_proof, store_debate, store_peer, validate_peer,
}
use brgr.Store.Debates.Calls.{
  DebateCall, Posted, checked-groups, create, create-stored, debates_after, perform, post-Posted,
  post_peer, posted, read_peer, stop,
}

abbrev pub asked_of : PeerRow → PeerRow → Bool
asked_of p q =
    some q.message_id == p.in_reply_to
    && q.group_id == p.group_id
    && q.from_task == p.to_task
    && q.to_task == p.from_task
    && q.kind == question

-- A peer message against the members and the messages before it: its id is new, both sides have a
-- seat in the group with the attempt the message names, they differ, the body is not blank nor too
-- long, and exactly a reply names a question, of the other side in the same group.
unfoldable pub seats : List MemberRow → PeerRow → List PeerRow → Bool
seats members p before =
    not (any (λ x. x.message_id == p.message_id) before)
    && any (is_member p.group_id p.from_task p.from_attempt) members
    && any (is_member p.group_id p.to_task p.to_attempt) members
    && not (p.from_task == p.to_task)
    && not (is_blank p.body)
    && leb (len p.body) max_body_bytes
    && (if p.kind == reply then any (asked_of p) before else not (is_some p.in_reply_to))

unfoldable pub Seated : List MemberRow → List PeerRow → Type 0
Seated members [] = Unit
Seated members (p ∷ before) = (seats members p before ≡ true) × Seated members before

-- Seats are added, never taken away.
any-append :
    {A : Type 0} (f : A → Bool) (xs ys : List A) → any f ys ≡ true → any f (xs ++ ys) ≡ true
any-append f [] ys h = h
any-append f (x ∷ xs) ys h = let rest = any-append f xs ys h in ground arith

more-Seated :
    (new members : List MemberRow) (ps : List PeerRow)
    → Seated members ps
    → Seated (new ++ members) ps
unfolding Seated seats
more-Seated new members [] h = tt
more-Seated new members (p ∷ ps) (here, rest) =
    let from =
      any-append (is_member p.group_id p.from_task p.from_attempt) new members (ground arith) in
    let to = any-append (is_member p.group_id p.to_task p.to_attempt) new members (ground arith) in
    (ground arith, more-Seated new members ps rest)

abbrev mark_peer : PeerRow → PeerRow
mark_peer p = record p { acknowledged = true }

update-Seated :
    (members : List MemberRow) (q : PeerRow → Bool) (ps : List PeerRow)
    → Seated members ps
    → Seated members (update q mark_peer ps)
unfolding Seated seats
update-Seated members q [] h = tt
update-Seated members q (p ∷ ps) (here, rest) =
    let ids = any-update (λ x. x.message_id == p.message_id) q mark_peer ps (λ x. refl) in
    let asked = any-update (asked_of p) q mark_peer ps (λ x. refl) in
    elim (Bool-cases (q p)) [
      | inl hit ↦ (rw (hit, ids, asked) here, update-Seated members q ps rest)
      | inr out ↦ (rw (out, ids, asked) here, update-Seated members q ps rest)
    ]

asked-asked_of :
    (ps : List PeerRow) (d : PeerDraft) (from to : AttemptId) (id : String)
    → d.reply_to ≡ some id
    → any (is_asked d id) ps ≡ true
    → any (asked_of (peer_value d from to)) ps ≡ true
asked-asked_of [] d from to id names h = absurd (ground arith)
asked-asked_of (p ∷ ps) d from to id names h = elim (Bool-cases (is_asked d id p)) [
  | inl here ↦ ground arith
  | inr there ↦ let rest = asked-asked_of ps d from to id names (ground arith) in ground arith
]

value-seats :
    (p : Platform) (u : Store) (d : PeerDraft) (from to : AttemptId)
    → validate_peer p d ≡ ok tt
    → check_side u d.group d.from_task from ≡ ok tt
    → check_side u d.group d.to_task to ≡ ok tt
    → check_peer_reply u d ≡ ok tt
    → any (λ x. x.message_id == d.id) u.peer_messages ≡ false
    → seats u.debate_members (peer_value d from to) u.peer_messages ≡ true
unfolding validate_peer check_side check_peer_reply seats
value-seats p u d from to valid a b told fresh = elim (Option-cases d.reply_to) [
  | inl alone ↦ ground arith
  | inr (id, names) ↦
      let asked = asked-asked_of u.peer_messages d from to id names (ground arith) in ground arith
]

created-Seated :
    (p : Platform) (s u v : Store) (id : String) (owner : OwnerId) (tasks : List TaskId)
    (joined : List (TaskId × AttemptId)) (group : DebateGroup)
    → u ≡ moved s u
    → store_debate p s u id owner tasks joined ≡ ok (group, v)
    → Seated s.debate_members s.peer_messages
    → Seated v.debate_members v.peer_messages
unfolding store_debate
created-Seated p s u v id owner tasks joined group frame h rows =
    let peers : u.peer_messages ≡ s.peer_messages = cc in
    let members : u.debate_members ≡ s.debate_members = cc in
    elim (Option-cases (group_of u id)) [
      | inr (g, old) ↦ let made : v ≡ s = ground arith in rw made rows
      | inl new ↦
          let same : v.peer_messages ≡ u.peer_messages = ground arith in
          let more : v.debate_members ≡ map (seat id) joined ++ u.debate_members = ground arith in
          rw (same, more, peers, members)
            (more-Seated (map (seat id) joined) s.debate_members s.peer_messages rows)
    ]

Posted-Seated :
    (p : Platform) (s v : Store) (d : PeerDraft) (from : AttemptId)
    → Posted p s d from v
    → Seated s.debate_members s.peer_messages
    → Seated v.debate_members v.peer_messages
unfolding store_peer Seated
Posted-Seated p s v d from (posted u g to row frame valid found on talks a b told stored) rows =
    let peers : u.peer_messages ≡ s.peer_messages = cc in
    let members : u.debate_members ≡ s.debate_members = cc in
    elim (Option-cases (find? (λ x. x.message_id == d.id) u.peer_messages)) [
      | inr (old, there) ↦ let made : v ≡ s = ground arith in rw made rows
      | inl new ↦
          let made : v ≡ record u { peer_messages = peer_value d from to ∷ u.peer_messages } =
            ground arith in
          let fresh = find-any (λ x. x.message_id == d.id) u.peer_messages new in
          let before : Seated u.debate_members u.peer_messages = rw (peers, members) rows in
          rw made (value-seats p u d from to valid a b told fresh, before)
    ]

perform-Seated :
    (p : Platform) (s u : Store) (c : DebateCall)
    → perform p s c ≡ ok u
    → Seated s.debate_members s.peer_messages
    → Seated u.debate_members u.peer_messages
unfolding perform stop_debate_with_proof acknowledge_peer_with_proof debate
perform-Seated p s u (create id tasks proof) h rows =
    let (t, owner, joined, group, frame, stored) = create-stored p s u id tasks proof h in
    created-Seated p s t u id owner tasks joined group frame stored rows
perform-Seated p s u (stop id proof) h rows = elim (Result-cases (check_proof s proof)) [
  | inr (e, bad) ↦ absurd (ground arith)
  | inl (t, checked) ↦
      let frame = checked-groups s t proof checked in
      let peers : t.peer_messages ≡ s.peer_messages = cc in
      let members : t.debate_members ≡ s.debate_members = cc in
      let a : u.peer_messages ≡ t.peer_messages = ground arith in
      let b : u.debate_members ≡ t.debate_members = ground arith in rw (a, b, peers, members) rows
]
perform-Seated p s u (post_peer d from proof) h rows =
    elim (Result-cases (post_peer_message_with_proof p s d from proof)) [
      | inr (e, bad) ↦ absurd (ground arith)
      | inl ((row, v), done) ↦
          let same : v ≡ u = ground arith in
          rw (← same) (Posted-Seated p s v d from (post-Posted p s v d from proof row done) rows)
    ]
perform-Seated p s u (read_peer id task attempt proof) h rows =
    elim (Result-cases (check_proof s proof)) [
      | inr (e, bad) ↦ absurd (ground arith)
      | inl (t, checked) ↦
          let frame = checked-groups s t proof checked in
          let peers : t.peer_messages ≡ s.peer_messages = cc in
          let members : t.debate_members ≡ s.debate_members = cc in
          let a : u.peer_messages ≡ update (is_received id task attempt) mark_peer t.peer_messages =
            ground arith in
          let b : u.debate_members ≡ t.debate_members = ground arith in
          rw (a, b, peers, members)
            (update-Seated s.debate_members (is_received id task attempt) s.peer_messages rows)
    ]

-- Whatever debates are created, stopped, posted in and read, refused calls included: each peer
-- message has an id of its own, a body that is not blank nor longer than 8192 bytes, and two sides
-- that differ and were both seated in its group with the attempts it names; and exactly the replies
-- name a message, an earlier question of the other side in the same group.
pub debates_after-Seated :
    (p : Platform) (s : Store) (cs : List DebateCall)
    → Seated s.debate_members s.peer_messages
    → Seated (debates_after p s cs).debate_members (debates_after p s cs).peer_messages
unfolding debates_after
debates_after-Seated p s [] rows = rows
debates_after-Seated p s (c ∷ cs) rows =
    debates_after-Seated p (kept s (perform p s c)) cs (elim (Result-cases (perform p s c)) [
      | inl (u, done) ↦
          subst (λ m. Seated (kept s m).debate_members (kept s m).peer_messages) (sym done)
            (perform-Seated p s u c done rows)
      | inr (e, refused) ↦
          subst (λ m. Seated (kept s m).debate_members (kept s m).peer_messages) (sym refused) rows
    ])
