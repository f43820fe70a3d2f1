-- ===== src/Store/Debates/Native.antt =====
-- A native delivery that is finished stays finished.
use brgr.Base.{
  ==_refl, Bool, Bool-cases, List, Option, String, [], any, arith, false, filter, if◌then◌else◌,
  inl, inr, list_eq, nat_eq, not, option_eq, string_eq, true, update, ◌&&◌, ◌==◌, ◌∷◌, ◌≡◌,
}
use brgr.Protocol.{AttemptId, outcome_eq, state_eq}
use brgr.Rows.{NativeRow, delivered, direction_eq, kind_eq, uncertain}
use brgr.Store.{Store, run_state_eq, takeover_state_eq}
use brgr.Store.Messages.{is_some}
use brgr.Store.Debates.{
  claim_native_delivery, finish_native_delivery, is_sending, release_native_delivery,
}

pub data NativeCall : Type 0 where
  claim : String → AttemptId → String → NativeCall
  finish : String → Option String → NativeCall
  release : String → NativeCall

unfoldable pub perform_native : Store → NativeCall → Store
perform_native s (claim id attempt pane) = (claim_native_delivery s id attempt pane).1
perform_native s (finish id error) = finish_native_delivery s id error
perform_native s (release id) = release_native_delivery s id

unfoldable pub native_after : Store → List NativeCall → Store
native_after s [] = s
native_after s (c ∷ cs) = native_after (perform_native s c) cs

abbrev is_finished : String → NativeRow → Bool
is_finished id n = n.message_id == id && not (is_sending n.state)

finish-any :
    (id other : String) (error : Option String) (ns : List NativeRow)
    → any (is_finished id) ns ≡ true
    → any (is_finished id) (
        update
          (λ n. n.message_id == other)
          (λ n. record n { state = if is_some error then uncertain else delivered; error = error })
          ns)
      ≡ true
finish-any id other error [] h = absurd (ground arith)
finish-any id other error (n ∷ ns) h = elim (Bool-cases (is_finished id n)) [
  | inl here ↦ elim (Bool-cases (n.message_id == other)) [
    | inl hit ↦ elim (Bool-cases (is_some error)) [ inl e ↦ ground arith | inr e ↦ ground arith ]
    | inr out ↦ ground arith
  ]
  | inr there ↦ let rest = finish-any id other error ns (ground arith) in ground arith
]

release-any :
    (id other : String) (ns : List NativeRow)
    → any (is_finished id) ns ≡ true
    → any (is_finished id) (filter (λ n. not (n.message_id == other && is_sending n.state)) ns)
      ≡ true
release-any id other [] h = absurd (ground arith)
release-any id other (n ∷ ns) h = elim (Bool-cases (is_finished id n)) [
  | inl here ↦ ground arith
  | inr there ↦
      let rest = release-any id other ns (ground arith) in
      elim (Bool-cases (n.message_id == other && is_sending n.state)) [
        | inl gone ↦ ground arith
        | inr stays ↦ ground arith
      ]
]

perform-any :
    (s : Store) (id : String) (c : NativeCall)
    → any (is_finished id) s.native_message_deliveries ≡ true
    → any (is_finished id) (perform_native s c).native_message_deliveries ≡ true
unfolding perform_native claim_native_delivery finish_native_delivery release_native_delivery
perform-any s id (claim other attempt pane) h =
    elim (Bool-cases (any (λ n. n.message_id == other) s.native_message_deliveries)) [
      | inl old ↦ ground arith
      | inr new ↦ ground arith
    ]
perform-any s id (finish other error) h = finish-any id other error s.native_message_deliveries h
perform-any s id (release other) h = release-any id other s.native_message_deliveries h

after-any :
    (s : Store) (id : String) (cs : List NativeCall)
    → any (is_finished id) s.native_message_deliveries ≡ true
    → any (is_finished id) (native_after s cs).native_message_deliveries ≡ true
unfolding native_after
after-any s id [] h = h
after-any s id (c ∷ cs) h = after-any (perform_native s c) id cs (perform-any s id c h)

finished-known :
    (id : String) (ns : List NativeRow)
    → any (is_finished id) ns ≡ true
    → any (λ n. n.message_id == id) ns ≡ true
finished-known id [] h = absurd (ground arith)
finished-known id (n ∷ ns) h = elim (Bool-cases (is_finished id n)) [
  | inl here ↦ ground arith
  | inr there ↦ let rest = finished-known id ns (ground arith) in ground arith
]

abbrev pub ended : Store → String → AttemptId → String → Option String → Store
ended s id attempt pane error =
    finish_native_delivery (claim_native_delivery s id attempt pane).1 id error

claimed-finished :
    (s : Store) (id : String) (attempt : AttemptId) (pane : String) (error : Option String)
    → (claim_native_delivery s id attempt pane).0 ≡ true
    → any (is_finished id) (ended s id attempt pane error).native_message_deliveries ≡ true
unfolding claim_native_delivery finish_native_delivery
claimed-finished s id attempt pane error h =
    let own = ==_refl id in
    elim (Bool-cases (any (λ n. n.message_id == id) s.native_message_deliveries)) [
      | inl old ↦ absurd (ground arith)
      | inr new ↦ elim (Bool-cases (is_some error)) [ inl e ↦ ground arith | inr e ↦ ground arith ]
    ]

known-claim :
    (s : Store) (id : String) (attempt : AttemptId) (pane : String)
    → any (λ n. n.message_id == id) s.native_message_deliveries ≡ true
    → (claim_native_delivery s id attempt pane).0 ≡ false
unfolding claim_native_delivery
known-claim s id attempt pane h = ground arith

-- A delivery that was claimed and then finished, well or badly, is never claimed again: no sequence of
-- claims, ends and releases makes a later claim of the message succeed.
pub finished-never_again :
    (s : Store) (id : String) (attempt again : AttemptId) (pane other : String)
    (error : Option String) (cs : List NativeCall)
    → (claim_native_delivery s id attempt pane).0 ≡ true
    → (claim_native_delivery (native_after (ended s id attempt pane error) cs) id again other).0
      ≡ false
finished-never_again s id attempt again pane other error cs first =
    let t = ended s id attempt pane error in
    let ended = claimed-finished s id attempt pane error first in
    let still = after-any t id cs ended in
    known-claim (native_after t cs) id again other
      (finished-known id (native_after t cs).native_message_deliveries still)
