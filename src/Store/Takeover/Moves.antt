-- ===== src/Store/Takeover/Moves.antt =====
-- Every operation on handoffs, seen as one step on the rows and the trail of handoffs.
use brgr.Base.{
  ==→≡, Bool-cases, List, Option, Option-cases, Result, Result-cases, String, ap, arith, false,
  found_id, inl, inr, is_empty, list_eq, nat_eq, none, ok, option_eq, refl, some, some_inj,
  store_of, string_eq, sym, true, update, ℕ, ◌&&◌, ◌+◌, ◌==◌, ◌∙◌, ◌∷◌, ◌≡◌, ◌⊎◌,
}
use brgr.Protocol.{OwnerId, outcome_eq, state_eq}
use brgr.Store.{
  BindingRow, HandoffManifest, Platform, Store, StoreError, TakeoverEventRow, TakeoverRow,
  TakeoverState, aborted, committed, prepared, requested, resumed, retire_failed, retired,
  run_state_eq, takeover_state_eq,
}
use brgr.Store.Owner.{
  OwnerProof, assert_owner_binding, binding_of, move_binding, put_binding, rebind_in_transaction,
  requeue_completions, requeue_workflows,
}
use brgr.Store.Takeovers.{
  Takeover, allows, append_event, assert_owner_proof, awaiting, committed_epoch, last_seq,
  load_takeover, manifest_row, mark_resumed, note_owner_action, read_binding, require_transition,
  row_of, set_state,
}
use brgr.Store.Handoff.{handoff_references}
use brgr.Store.Takeover.Closing.{
  RetireOutcome, abort_takeover, close, fail_retirement, retire_takeover,
}
use brgr.Store.Takeover.{
  bounded_reason, commit_takeover, has_open_work, insert_manifest, insert_takeover, open_takeover,
  past_resume, prepare_takeover, request_takeover, resume_idle_takeover, with_key,
}

-- A call of the store that may touch a handoff; the claim of an abandoned head is not among them.
-- `act` is any owner-side write that proves its session: the proof is checked and the action is
-- noted.
pub data TakeoverCall : Type 0 where
  request : ℕ → OwnerId → String → String → String → TakeoverCall
  prepare : ℕ → ℕ → HandoffManifest → TakeoverCall
  commit : ℕ → TakeoverCall
  resume_idle : ℕ → String → TakeoverCall
  retire : ℕ → RetireOutcome → TakeoverCall
  fail_retire : ℕ → String → TakeoverCall
  abort : ℕ → String → TakeoverCall
  act : OwnerProof → TakeoverCall

unfoldable pub perform : Platform → Store → TakeoverCall → Result StoreError Store
perform p s (request id owner from to key) = store_of (request_takeover s id owner from to key)
perform p s (prepare mid id m) = store_of (prepare_takeover p s mid id m)
perform p s (commit id) = store_of (commit_takeover s id)
perform p s (resume_idle id session) = store_of (resume_idle_takeover s id session)
perform p s (retire id outcome) = store_of (retire_takeover s id outcome)
perform p s (fail_retire id reason) = store_of (fail_retirement s id reason)
perform p s (abort id reason) = store_of (abort_takeover s id reason)
perform p s (act proof) = assert_owner_proof s proof

abbrev pub event : Store → ℕ → TakeoverState → Option String → TakeoverEventRow
event s id kind detail = record {
  takeover_id = id;
  seq = last_seq s.takeover_events id + 1;
  kind = kind;
  detail = detail;
}

abbrev pub moved : ℕ → TakeoverState → Option String → List TakeoverRow → List TakeoverRow
moved id to reason =
    update (λ t. t.takeover_id == id) (λ t. record t { state = to; failure_reason = reason })

abbrev pub woken : ℕ → List TakeoverRow → List TakeoverRow
woken id =
    update (λ t. t.takeover_id == id && t.state == committed) (λ t. record t { state = resumed })

-- The incoming session of a committed handoff holds the owner, at the epoch of its commit.
pub record IsSeen (s : Store) (t : TakeoverRow) (b : BindingRow) : Type 0 where
  pub waits : t.state ≡ committed
  pub holds : binding_of s t.owner_id ≡ some b
  pub incoming : b.session_id ≡ t.to_session
  pub epoch : b.binding_epoch ≡ t.from_epoch + 1

-- One step from `s` to `u`, as far as rows and trail go.
pub data Step (s u : Store) : Type 0 where
  idle : u.head_takeovers ≡ s.head_takeovers → u.takeover_events ≡ s.takeover_events → Step s u
  start :
      (row : TakeoverRow)
      → row.state ≡ requested
      → row_of s row.takeover_id ≡ none
      → open_takeover s row.owner_id ≡ none
      → u.head_takeovers ≡ row ∷ s.head_takeovers
      → u.takeover_events ≡ event s row.takeover_id requested none ∷ s.takeover_events
      → Step s u
  move :
      (id : ℕ) (t : TakeoverRow) (to : TakeoverState) (reason detail : Option String)
      → row_of s id ≡ some t
      → allows t.state to ≡ true
      → to == resumed ≡ false
      → u.head_takeovers ≡ moved id to reason s.head_takeovers
      → u.takeover_events ≡ event s id to detail ∷ s.takeover_events
      → Step s u
  wake :
      (t : TakeoverRow) (b : BindingRow) (owner : OwnerId) (session : String) (epoch : ℕ)
      → awaiting s owner session epoch ≡ some t
      → IsSeen s t b
      → u.head_takeovers ≡ woken t.takeover_id s.head_takeovers
      → u.takeover_events ≡ event s t.takeover_id resumed none ∷ s.takeover_events
      → Step s u

stay : (s u : Store) → u ≡ s → Step s u
stay s u e = idle (ap (λ x. x.head_takeovers) e) (ap (λ x. x.takeover_events) e)

IsSeen-binding :
    (s : Store) (t : TakeoverRow) (owner : OwnerId) (session : String) (epoch : ℕ)
    → awaiting s owner session epoch ≡ some t
    → assert_owner_binding s owner (some session) (some epoch) ≡ ok tt
    → (b : BindingRow) × IsSeen s t b
unfolding awaiting assert_owner_binding
IsSeen-binding s t owner session epoch waits proved =
    let its =
      found_id
        (λ t.
          t.owner_id == owner
          && t.state == committed
          && t.to_session == session
          && t.from_epoch + 1 == epoch)
        s.head_takeovers t waits in
    let mine = ==→≡ t.owner_id owner (ground arith) in
    let to = ==→≡ t.to_session session (ground arith) in
    elim (Option-cases (binding_of s owner)) [
      | inl unbound ↦ absurd (ground arith)
      | inr (b, bound) ↦
          let holder = ==→≡ (some session) (some b.session_id) (ground arith) in
          (
            b,
            record {
              waits = ground arith;
              holds = rw mine bound;
              incoming = sym (some_inj session b.session_id holder) ∙ sym to;
              epoch = ground arith;
            },
          )
    ]

note-Step :
    (s u : Store) (owner : OwnerId) (session : String) (epoch : ℕ)
    → assert_owner_binding s owner (some session) (some epoch) ≡ ok tt
    → note_owner_action s owner session epoch ≡ ok u
    → Step s u
unfolding note_owner_action append_event mark_resumed
note-Step s u owner session epoch proved h = elim (Option-cases (awaiting s owner session epoch)) [
  | inl none_waits ↦ stay s u (ground arith)
  | inr (t, waits) ↦
      let (b, seen) = IsSeen-binding s t owner session epoch waits proved in
      wake t b owner session epoch waits seen (ground arith) (ground arith)
]

-- The shape that `prepare`, `commit`, `close` and `abort` share.
advance-Step :
    (s w u : Store) (id : ℕ) (t : TakeoverRow) (to : TakeoverState) (reason detail : Option String)
    → row_of s id ≡ some t
    → allows t.state to ≡ true
    → to == resumed ≡ false
    → w.head_takeovers ≡ s.head_takeovers
    → w.takeover_events ≡ s.takeover_events
    → u ≡ append_event (set_state w id to reason) id to detail
    → Step s u
unfolding append_event set_state
advance-Step s w u id t to reason detail found allowed other rows trail e =
    move id t to reason detail found allowed other
      (ap (λ x. x.head_takeovers) e ∙ ap (λ l. moved id to reason l) rows)
      (ap (λ x. x.takeover_events) e ∙ ap (λ l. trail_of l) trail)
  where
    trail_of : List TakeoverEventRow → List TakeoverEventRow
    trail_of l =
        record { takeover_id = id; seq = last_seq l id + 1; kind = to; detail = detail } ∷ l

rebind_rows :
    (s u : Store) (o : OwnerId) (session : String) (e : ℕ)
    → rebind_in_transaction s o session ≡ ok (e, u)
    → (u.head_takeovers ≡ s.head_takeovers) × (u.takeover_events ≡ s.takeover_events)
unfolding rebind_in_transaction move_binding put_binding requeue_completions requeue_workflows
rebind_rows s u o session e h = (ground arith, ground arith)

load_row :
    (s : Store) (id : ℕ) (t : Takeover) → load_takeover s id ≡ ok t → row_of s id ≡ some t.row
unfolding load_takeover
load_row s id t h = ground arith

commit-Step : (s u : Store) (id : ℕ) → store_of (commit_takeover s id) ≡ ok u → Step s u
unfolding commit_takeover allows
commit-Step s u id h = elim (Result-cases (load_takeover s id)) [
  | inr (x, missing) ↦ cc (rw missing at h)
  | inl (t, loaded) ↦ elim (Bool-cases (t.state == prepared)) [
    | inr other ↦ stay s u (ground arith)
    | inl ready ↦ elim (Result-cases (rebind_in_transaction s t.owner_id t.to_session)) [
      | inr (x, big) ↦ absurd (ground arith)
      | inl ((e, w), bound) ↦
          let rows = rebind_rows s w t.owner_id t.to_session e bound in
          advance-Step s w u id t.row committed none none (load_row s id t loaded) (ground arith)
            refl rows.0 rows.1 (ground arith)
    ]
  ]
]

prepare-Step :
    (p : Platform) (s u : Store) (mid id : ℕ) (m : HandoffManifest)
    → store_of (prepare_takeover p s mid id m) ≡ ok u
    → Step s u
unfolding prepare_takeover require_transition
prepare-Step p s u mid id m h = elim (Result-cases (load_takeover s id)) [
  | inr (x, missing) ↦ cc (rw missing at h)
  | inl (t, loaded) ↦ elim (Option-cases (manifest_row s id)) [
    | inr (stored, old) ↦ stay s u (ground arith)
    | inl new ↦
        advance-Step s (insert_manifest p s mid id m) u id t.row prepared none none
          (load_row s id t loaded) (ground arith) refl refl refl (ground arith)
  ]
]

close-Step :
    (s u : Store) (id : ℕ) (to : TakeoverState) (detail reason : Option String)
    → to == resumed ≡ false
    → store_of (close s id to detail reason) ≡ ok u
    → Step s u
unfolding close require_transition
close-Step s u id to detail reason other h = elim (Result-cases (load_takeover s id)) [
  | inr (x, missing) ↦ cc (rw missing at h)
  | inl (t, loaded) ↦ elim (Bool-cases (t.state == to)) [
    | inl there ↦ stay s u (ground arith)
    | inr on ↦
        advance-Step s s u id t.row to reason detail (load_row s id t loaded) (ground arith) other
          refl refl (ground arith)
  ]
]

abort-Step :
    (s u : Store) (id : ℕ) (reason : String)
    → store_of (abort_takeover s id reason) ≡ ok u
    → Step s u
unfolding abort_takeover require_transition
abort-Step s u id reason h = elim (Result-cases (bounded_reason reason)) [
  | inr (x, blank) ↦ cc (rw blank at h)
  | inl (r, bounded) ↦ elim (Result-cases (load_takeover s id)) [
    | inr (x, missing) ↦ cc (rw (bounded, missing) at h)
    | inl (t, loaded) ↦ elim (Bool-cases (t.state == aborted)) [
      | inl there ↦ stay s u (ground arith)
      | inr on ↦
          advance-Step s s u id t.row aborted (some r) (some r) (load_row s id t loaded)
            (ground arith) refl refl refl (ground arith)
    ]
  ]
]

-- What a call on an idle head found, when it goes through.
abbrev pub Answered : Store → Store → TakeoverCall → Type 0
Answered s u (resume_idle id session) =
    (t : TakeoverRow) × (row_of s id ≡ some t)
    × (t.to_session ≡ session)
    × ((u ≡ s)
        ⊎ ((t.state ≡ committed)
            × (is_empty (handoff_references s t.owner_id).tasks ≡ true)
            × (is_empty (handoff_references s t.owner_id).pending_result_ids ≡ true)
            × (is_empty (handoff_references s t.owner_id).pending_message_ids ≡ true)))
Answered s u _ = Unit

resume-Step :
    (s u : Store) (id : ℕ) (session : String)
    → store_of (resume_idle_takeover s id session) ≡ ok u
    → Step s u × Answered s u (resume_idle id session)
unfolding resume_idle_takeover has_open_work
resume-Step s u id session h = elim (Result-cases (load_takeover s id)) [
  | inr (x, missing) ↦ absurd (ground arith)
  | inl (t, loaded) ↦
      let row = load_row s id t loaded in
      elim (Bool-cases (past_resume t.state && t.to_session == session)) [
        | inl there ↦
            let same : u ≡ s = ground arith in
            (stay s u same, (t.row, row, ==→≡ t.to_session session (ground arith), inl same))
        | inr on ↦
            elim (Result-cases
              (assert_owner_binding s t.owner_id (some session) (some (committed_epoch t.row)))) [
                | inr (x, stale) ↦ absurd (ground arith)
                | inl (tt, proved) ↦
                    elim (Result-cases
                      (note_owner_action s t.owner_id session (committed_epoch t.row))) [
                        | inr (x, big) ↦ absurd (ground arith)
                        | inl (w, noted) ↦ (
                          note-Step s u t.owner_id session (committed_epoch t.row) proved
                              (ground arith),
                          (
                            t.row,
                            row,
                            ==→≡ t.to_session session (ground arith),
                            inr (ground arith, ground arith, ground arith, ground arith),
                          ),
                        )
                      ]
              ]
      ]
]

request-Step :
    (s u : Store) (id : ℕ) (owner : OwnerId) (from to key : String)
    → store_of (request_takeover s id owner from to key) ≡ ok u
    → Step s u
unfolding request_takeover append_event insert_takeover
request-Step s u id owner from to key h = elim (Option-cases (with_key s owner key)) [
  | inr (t, old) ↦ stay s u (ground arith)
  | inl new ↦ elim (Result-cases (read_binding s owner)) [
    | inr (x, unbound) ↦ absurd (ground arith)
    | inl (b, bound) ↦
        start
          (record {
            takeover_id = id;
            owner_id = owner;
            from_session = from;
            from_epoch = b.binding_epoch;
            to_session = to;
            state = requested;
            idempotency_key = key;
            failure_reason = none;
          })
          refl (ground arith) (ground arith) (ground arith) (ground arith)
  ]
]

fail_retire-Step :
    (s u : Store) (id : ℕ) (reason : String)
    → store_of (fail_retirement s id reason) ≡ ok u
    → Step s u
unfolding fail_retirement
fail_retire-Step s u id reason h = elim (Result-cases (bounded_reason reason)) [
  | inr (x, blank) ↦ cc (rw blank at h)
  | inl (r, bounded) ↦ close-Step s u id retire_failed (some r) (some r) refl (rw bounded at h)
]

act-Step : (s u : Store) (proof : OwnerProof) → assert_owner_proof s proof ≡ ok u → Step s u
unfolding assert_owner_proof
act-Step s u proof h =
    note-Step s u proof.owner_id proof.session_id proof.binding_epoch (ground arith) (ground arith)

-- Whatever call of `TakeoverCall` goes through, which all operations on handoffs are but the claim
-- of an abandoned head, and whatever its arguments, it is one such step: a handoff starts only in
-- `requested`, beside no open one of its owner; it moves only along the graph of states, and by no
-- move to `resumed`; and only a committed one wakes to `resumed`, when its incoming session holds the
-- owner at the epoch of the commit. A resume of an idle head only goes through for the incoming
-- session, and changes something only for a committed handoff whose owner has no open task, result
-- or message.
pub perform-Step :
    (p : Platform) (s u : Store) (c : TakeoverCall)
    → perform p s c ≡ ok u
    → Step s u × Answered s u c
unfolding perform retire_takeover
perform-Step p s u (request id owner from to key) h = (request-Step s u id owner from to key h, tt)
perform-Step p s u (prepare mid id m) h = (prepare-Step p s u mid id m h, tt)
perform-Step p s u (commit id) h = (commit-Step s u id h, tt)
perform-Step p s u (resume_idle id session) h = resume-Step s u id session h
perform-Step p s u (retire id outcome) h = (close-Step s u id retired _ none refl h, tt)
perform-Step p s u (fail_retire id reason) h = (fail_retire-Step s u id reason h, tt)
perform-Step p s u (abort id reason) h = (abort-Step s u id reason h, tt)
perform-Step p s u (act proof) h = (act-Step s u proof h, tt)
