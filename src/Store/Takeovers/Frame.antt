-- ===== src/Store/Takeovers/Frame.antt =====
-- The check of a proof writes takeovers and their events only.
use brgr.Base.{Option-cases, String, arith, inl, inr, ok, ℕ, ◌≡◌}
use brgr.Protocol.{OwnerId}
use brgr.Store.{Store}
use brgr.Store.Owner.{OwnerProof}
use brgr.Store.Takeovers.{
  append_event, assert_owner_proof, awaiting, mark_resumed, note_owner_action,
}

abbrev pub moved : Store → Store → Store
moved s u = record s { head_takeovers = u.head_takeovers; takeover_events = u.takeover_events }

note-moved :
    (s u : Store) (owner : OwnerId) (session : String) (epoch : ℕ)
    → note_owner_action s owner session epoch ≡ ok u
    → u ≡ moved s u
unfolding note_owner_action append_event mark_resumed
note-moved s u owner session epoch h = elim (Option-cases (awaiting s owner session epoch)) [
  | inl idle_ ↦ ground arith
  | inr (t, waits) ↦ ground arith
]

pub assert_owner_proof-moved :
    (s u : Store) (proof : OwnerProof) → assert_owner_proof s proof ≡ ok u → u ≡ moved s u
unfolding assert_owner_proof
assert_owner_proof-moved s u proof h =
    note-moved s u proof.owner_id proof.session_id proof.binding_epoch (ground arith)
