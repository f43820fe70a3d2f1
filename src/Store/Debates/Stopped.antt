-- ===== src/Store/Debates/Stopped.antt =====
-- A debate that is stopped stays stopped.
use brgr.Base.{
  ==→≡, Bool, Bool-cases, List, Option, Option-cases, Result-cases, String, [], any, any-update,
  arith, err, false, find-any, find?, found-any, found_id, inl, inr, kept, list_eq, nat_eq, not, ok,
  option_eq, refl, string_eq, subst, sym, true, update, ◌&&◌, ◌==◌, ◌∙◌, ◌∷◌, ◌≡◌, ◌≢◌,
}
use brgr.Protocol.{AttemptId, OwnerId, TaskId, outcome_eq, state_eq}
use brgr.Rows.{GroupRow, PeerRow, direction_eq, kind_eq}
use brgr.Store.{Platform, Store, StoreError, run_state_eq, takeover_state_eq}
use brgr.Store.Owner.{OwnerProof}
use brgr.Store.Takeovers.Frame.{moved}
use brgr.Store.Debates.{
  DebateGroup, PeerDraft, acknowledge_peer_with_proof, check_proof, debate, group_of, peer_value,
  post_peer_message_with_proof, stop_debate_with_proof, store_debate, store_peer,
}
use brgr.Store.Debates.Calls.{
  DebateCall, checked-groups, create, create-stored, debates_after, perform, post-Posted, post_peer,
  posted, read_peer, stop,
}

-- The group is there, and no row of it is active.
abbrev pub is_stopped : Store → String → Bool
is_stopped s id =
    any (λ g. g.group_id == id) s.debate_groups
    && not (any (λ g. g.group_id == id && g.active) s.debate_groups)

-- What a call does to the groups: a new one of another id in front, an update that stops, or nothing.
pub data Groups (s u : Store) : Type 0 where
  same_groups : u.debate_groups ≡ s.debate_groups → Groups s u
  stops :
      (id : String)
      → u.debate_groups
        ≡ update (λ g. g.group_id == id) (λ g. record g { active = false }) s.debate_groups
      → Groups s u
  opens :
      (g : GroupRow)
      → any (λ x. x.group_id == g.group_id) s.debate_groups ≡ false
      → u.debate_groups ≡ g ∷ s.debate_groups
      → Groups s u

store_debate-Groups :
    (p : Platform) (s u v : Store) (id : String) (owner : OwnerId) (tasks : List TaskId)
    (members : List (TaskId × AttemptId)) (group : DebateGroup)
    → u ≡ moved s u
    → store_debate p s u id owner tasks members ≡ ok (group, v)
    → Groups s v
unfolding store_debate group_of
store_debate-Groups p s u v id owner tasks members group frame h =
    let rows : u.debate_groups ≡ s.debate_groups = cc in
    elim (Option-cases (group_of u id)) [
      | inr (g, old) ↦ same_groups (ground arith)
      | inl new ↦
          let fresh = find-any (λ g. g.group_id == id) u.debate_groups new in
          opens (record { group_id = id; owner_id = owner; active = true }) (rw rows at fresh)
            (ground arith)
    ]

stored-groups :
    (s u v : Store) (value row : PeerRow)
    → u ≡ moved s u
    → store_peer s u value ≡ ok (row, v)
    → v.debate_groups ≡ s.debate_groups
unfolding store_peer
stored-groups s u v value row frame h =
    let rows : u.debate_groups ≡ s.debate_groups = cc in
    elim (Option-cases (find? (λ p. p.message_id == value.message_id) u.peer_messages)) [
      | inr (old, found) ↦ ground arith
      | inl new ↦ ground arith
    ]

stop-made :
    (s u : Store) (id : String) (proof : Option OwnerProof)
    → stop_debate_with_proof s id proof ≡ ok u
    → (u.debate_groups
        ≡ update (λ g. g.group_id == id) (λ g. record g { active = false }) s.debate_groups)
      × (any (λ g. g.group_id == id) s.debate_groups ≡ true)
unfolding stop_debate_with_proof debate group_of
stop-made s u id proof h = elim (Result-cases (check_proof s proof)) [
  | inr (e, bad) ↦ absurd (ground arith)
  | inl (t, checked) ↦
      let frame = checked-groups s t proof checked in
      let rows : t.debate_groups ≡ s.debate_groups = cc in
      elim (Option-cases (find? (λ g. g.group_id == id) t.debate_groups)) [
        | inl missing ↦ absurd (ground arith)
        | inr (g, found) ↦
            let own = found_id (λ g. g.group_id == id) t.debate_groups g found in
            let there =
              found-any (λ g. g.group_id == id) (λ g. g.group_id == id) t.debate_groups g found
                own in
            let made : u.debate_groups
                ≡ update (λ g. g.group_id == id) (λ g. record g { active = false })
                    t.debate_groups =
              ground arith in
            (rw rows at made, rw rows at there)
      ]
]

perform-Groups : (p : Platform) (s u : Store) (c : DebateCall) → perform p s c ≡ ok u → Groups s u
unfolding perform acknowledge_peer_with_proof
perform-Groups p s u (create id tasks proof) h =
    let (t, owner, joined, group, frame, stored) = create-stored p s u id tasks proof h in
    store_debate-Groups p s t u id owner tasks joined group frame stored
perform-Groups p s u (stop id proof) h = stops id (stop-made s u id proof h).0
perform-Groups p s u (post_peer d from proof) h =
    elim (Result-cases (post_peer_message_with_proof p s d from proof)) [
      | inr (e, bad) ↦ absurd (ground arith)
      | inl ((row, v), done) ↦
          let same : v ≡ u = ground arith in
          elim (post-Posted p s v d from proof row done) [
            | posted t g to x frame a b c e f i j stored ↦
                same_groups
                  (rw (← same) (stored-groups s t v (peer_value d from to) x frame stored))
          ]
    ]
perform-Groups p s u (read_peer id task attempt proof) h =
    elim (Result-cases (check_proof s proof)) [
      | inr (e, bad) ↦ absurd (ground arith)
      | inl (t, checked) ↦
          let frame = checked-groups s t proof checked in
          let rows : t.debate_groups ≡ s.debate_groups = cc in
          let made : u.debate_groups ≡ t.debate_groups = ground arith in same_groups (made ∙ rows)
    ]

closing :
    (xs : List GroupRow) (id other : String)
    → any (λ g. g.group_id == id && g.active) xs ≡ false
    → any
        (λ g. g.group_id == id && g.active)
        (update (λ g. g.group_id == other) (λ g. record g { active = false }) xs)
      ≡ false
closing [] id other h = refl
closing (x ∷ xs) id other h =
    let rest = closing xs id other (ground arith) in
    elim (Bool-cases (x.group_id == other)) [ inl hit ↦ ground arith | inr out ↦ ground arith ]

silenced :
    (xs : List GroupRow) (id : String)
    → any
        (λ g. g.group_id == id && g.active)
        (update (λ g. g.group_id == id) (λ g. record g { active = false }) xs)
      ≡ false
silenced [] id = refl
silenced (x ∷ xs) id =
    let rest = silenced xs id in
    elim (Bool-cases (x.group_id == id)) [ inl hit ↦ ground arith | inr out ↦ ground arith ]

Groups-stopped :
    (s u : Store) (id : String) → Groups s u → is_stopped s id ≡ true → is_stopped u id ≡ true
Groups-stopped s u id (same_groups same) h = rw same h
Groups-stopped s u id (stops other made) h =
    let there =
      any-update (λ g. g.group_id == id) (λ g. g.group_id == other)
        (λ g. record g { active = false }) s.debate_groups (λ g. refl) in
    let quiet = closing s.debate_groups id other (ground arith) in rw made (ground arith)
Groups-stopped s u id (opens g fresh made) h = elim (Bool-cases (g.group_id == id)) [
  | inr other ↦ rw made (ground arith)
  | inl own ↦
      let clash : any (λ x. x.group_id == id) s.debate_groups ≡ false =
        rw (==→≡ g.group_id id own) at fresh in
      absurd (ground arith)
]

after-stopped :
    (p : Platform) (s : Store) (id : String) (cs : List DebateCall)
    → is_stopped s id ≡ true
    → is_stopped (debates_after p s cs) id ≡ true
unfolding debates_after
after-stopped p s id [] h = h
after-stopped p s id (c ∷ cs) h =
    after-stopped p (kept s (perform p s c)) id cs (elim (Result-cases (perform p s c)) [
      | inl (u, done) ↦
          subst (λ m. is_stopped (kept s m) id ≡ true) (sym done)
            (Groups-stopped s u id (perform-Groups p s u c done) h)
      | inr (e, refused) ↦ subst (λ m. is_stopped (kept s m) id ≡ true) (sym refused) h
    ])

post-stopped :
    (p : Platform) (s v : Store) (d : PeerDraft) (from : AttemptId) (proof : Option OwnerProof)
    (row : PeerRow)
    → is_stopped s d.group ≡ true
    → post_peer_message_with_proof p s d from proof ≢ ok (row, v)
unfolding group_of
post-stopped p s v d from proof row quiet h = elim (post-Posted p s v d from proof row h) [
  | posted t g to x frame a found on e f i j stored ↦
      let rows : t.debate_groups ≡ s.debate_groups = cc in
      let own = found_id (λ g. g.group_id == d.group) t.debate_groups g found in
      let loud =
        found-any (λ g. g.group_id == d.group) (λ g. g.group_id == d.group && g.active)
          t.debate_groups g found (ground arith) in
      let here : any (λ g. g.group_id == d.group && g.active) s.debate_groups ≡ true =
        rw rows at loud in
      absurd (ground arith)
]

stop-stopped :
    (s u : Store) (id : String) (proof : Option OwnerProof)
    → stop_debate_with_proof s id proof ≡ ok u
    → is_stopped u id ≡ true
stop-stopped s u id proof h =
    let (made, there) = stop-made s u id proof h in
    let still =
      any-update (λ g. g.group_id == id) (λ g. g.group_id == id) (λ g. record g { active = false })
        s.debate_groups (λ g. refl) in
    let quiet = silenced s.debate_groups id in rw made (ground arith)

-- Once a debate is stopped, no message is posted in it again: whatever debates are created, stopped,
-- posted in and read later, with whatever proofs, a post in it is refused.
pub stopped-refuses :
    (p : Platform) (s u : Store) (id : String) (proof bound : Option OwnerProof)
    (cs : List DebateCall) (d : PeerDraft) (from : AttemptId)
    → stop_debate_with_proof s id proof ≡ ok u
    → d.group ≡ id
    → (e : StoreError) × (post_peer_message_with_proof p (debates_after p u cs) d from bound
        ≡ err e)
stopped-refuses p s u id proof bound cs d from stopped in_ =
    let quiet = after-stopped p u id cs (stop-stopped s u id proof stopped) in
    elim (Result-cases (post_peer_message_with_proof p (debates_after p u cs) d from bound)) [
      | inr refused ↦ refused
      | inl ((row, v), done) ↦
          absurd (post-stopped p (debates_after p u cs) v d from bound row (rw in_ quiet) done)
    ]
