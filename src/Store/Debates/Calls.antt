-- ===== src/Store/Debates/Calls.antt =====
-- The calls on debates, one after another, and what a posted message has passed.
use brgr.Base.{
  >>=-eq-ok, List, Option, Option-cases, Result, Result-cases, String, [], arith, inl, inr, kept,
  none, ok, some, store_of, subst, true, ◌>>=◌, ◌∷◌, ◌≡◌,
}
use brgr.Protocol.{AttemptId, OwnerId, TaskId}
use brgr.Rows.{GroupRow, PeerRow}
use brgr.Store.{Platform, Store, StoreError}
use brgr.Store.Owner.{OwnerProof}
use brgr.Store.Takeovers.Frame.{assert_owner_proof-moved, moved}
use brgr.Store.Delegation.{edge_of}
use brgr.Store.Messages.{active_message_attempt}
use brgr.Store.Debates.{
  DebateGroup, PeerDraft, acknowledge_peer_with_proof, check_peer_reply, check_proof, check_side,
  create_debate_with_proof, create_for, debate, group_of, joining, peer_value,
  post_peer_message_with_proof, stop_debate_with_proof, store_debate, store_peer, task_spec,
  validate_peer,
}

pub data DebateCall : Type 0 where
  create : String → List TaskId → Option OwnerProof → DebateCall
  stop : String → Option OwnerProof → DebateCall
  post_peer : PeerDraft → AttemptId → Option OwnerProof → DebateCall
  read_peer : String → TaskId → AttemptId → Option OwnerProof → DebateCall

unfoldable pub perform : Platform → Store → DebateCall → Result StoreError Store
perform p s (create id tasks proof) = store_of (create_debate_with_proof p s id tasks proof)
perform p s (stop id proof) = stop_debate_with_proof s id proof
perform p s (post_peer d from proof) = store_of (post_peer_message_with_proof p s d from proof)
perform p s (read_peer id task attempt proof) = acknowledge_peer_with_proof s id task attempt proof

unfoldable pub debates_after : Platform → Store → List DebateCall → Store
debates_after p s [] = s
debates_after p s (c ∷ cs) = debates_after p (kept s (perform p s c)) cs

pub checked-groups :
    (s u : Store) (proof : Option OwnerProof) → check_proof s proof ≡ ok u → u ≡ moved s u
checked-groups s u none h = ground arith
checked-groups s u (some proof) h = assert_owner_proof-moved s u proof h

-- What a posted message has passed, and what it leaves.
pub data Posted (p : Platform) (s : Store) (d : PeerDraft) (from : AttemptId) (v : Store)
    : Type 0 where
  posted :
      (u : Store) (g : GroupRow) (to : AttemptId) (row : PeerRow)
      → u ≡ moved s u
      → validate_peer p d ≡ ok tt
      → group_of u d.group ≡ some g
      → g.active ≡ true
      → active_message_attempt p u d.to_task ≡ ok to
      → check_side u d.group d.from_task from ≡ ok tt
      → check_side u d.group d.to_task to ≡ ok tt
      → check_peer_reply u d ≡ ok tt
      → store_peer s u (peer_value d from to) ≡ ok (row, v)
      → Posted p s d from v

pub post-Posted :
    (p : Platform) (s v : Store) (d : PeerDraft) (from : AttemptId) (proof : Option OwnerProof)
    (row : PeerRow)
    → post_peer_message_with_proof p s d from proof ≡ ok (row, v)
    → Posted p s d from v
unfolding post_peer_message_with_proof debate
post-Posted p s v d from proof row h = elim (Result-cases (check_proof s proof)) [
  | inr (e, bad) ↦ absurd (ground arith)
  | inl (u, checked) ↦ elim (Option-cases (group_of u d.group)) [
    | inl missing ↦ absurd (ground arith)
    | inr (g, found) ↦ elim (Result-cases (active_message_attempt p u d.to_task)) [
      | inr (e, bad) ↦ absurd (ground arith)
      | inl (to, talks) ↦
          posted u g to row (checked-groups s u proof checked) (ground arith) found (ground arith)
            talks (ground arith) (ground arith) (ground arith) (ground arith)
    ]
  ]
]

create_for-stored :
    (p : Platform) (s u v : Store) (id : String) (tasks : List TaskId) (group : DebateGroup)
    → create_for p s u id tasks ≡ ok (group, v)
    → (owner : OwnerId) × (joined : List (TaskId × AttemptId)) × (store_debate p s u id owner tasks
          joined
        ≡ ok (group, v))
create_for-stored p s u v id [] group h = absurd (ground arith)
create_for-stored p s u v id (t ∷ ts) group h =
    let (first, known, more) =
      >>=-eq-ok (task_spec u t)
        (λ first. do
          members ← joining p u first.owner_id (edge_of u t) [] (t ∷ ts)
          store_debate p s u id first.owner_id (t ∷ ts) members)
        h in
    let (members, joined, done) =
      >>=-eq-ok (joining p u first.owner_id (edge_of u t) [] (t ∷ ts))
        (λ members. store_debate p s u id first.owner_id (t ∷ ts) members) more in
    (first.owner_id, members, done)

-- A debate that was created has passed its checks; this is its last step.
pub create-stored :
    (p : Platform) (s v : Store) (id : String) (tasks : List TaskId) (proof : Option OwnerProof)
    → perform p s (create id tasks proof) ≡ ok v
    → (u : Store) × (owner : OwnerId) × (joined : List (TaskId × AttemptId)) × (group : DebateGroup)
      × (u ≡ moved s u)
      × (store_debate p s u id owner tasks joined ≡ ok (group, v))
unfolding perform create_debate_with_proof
create-stored p s v id tasks proof h =
    elim (Result-cases (create_debate_with_proof p s id tasks proof)) [
      | inr (e, bad) ↦ absurd (ground arith)
      | inl ((group, w), done) ↦
          let same : w ≡ v = ground arith in
          elim (Result-cases (check_proof s proof)) [
            | inr (e, bad) ↦ absurd (ground arith)
            | inl (u, checked) ↦
                let (owner, joined, stored) =
                  create_for-stored p s u w id tasks group (ground arith) in
                (
                  u,
                  owner,
                  joined,
                  group,
                  checked-groups s u proof checked,
                  subst (λ t. store_debate p s u id owner tasks joined ≡ ok (group, t)) same stored,
                )
          ]
    ]
