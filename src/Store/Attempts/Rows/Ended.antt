-- ===== src/Store/Attempts/Rows/Ended.antt =====
-- An attempt has a result exactly when it has ended.

use brgr.Base.{
  ==_refl, Bool-cases, List, Option, Option-cases, [], any, ap, arith, false, find-none, find?,
  found_id, if◌then◌else◌, inl, inr, list_eq, nat_beq_iff, nat_eq, none, option_eq, refl, some,
  string_eq, subst, true, ◌&&◌, ◌==◌, ◌∙◌, ◌∷◌, ◌≡◌,
}
use brgr.Protocol.{AttemptId, AttemptState, outcome_eq, state_beq_iff, state_eq, terminal}
use brgr.Store.{AttemptRow, Store, run_state_eq, takeover_state_eq}
use brgr.Store.Attempts.{attempt_of}
use brgr.Store.Attempts.Rows.{Step, add, idle, move, moved_attempt, settle}
use brgr.Store.Attempts.Rows.Sound.{allowed_end, allowed_start, has_result, is_done}

abbrev pub touched : AttemptId → AttemptState → AttemptState → Option AttemptRow → Option AttemptRow
touched id from to none = none
touched id from to (some a) =
    some (if a.attempt_id == id && a.state == from then record a { state = to } else a)

find-moved :
    (id wanted : AttemptId) (from to : AttemptState) (xs : List AttemptRow)
    → find? (λ a. a.attempt_id == wanted) (moved_attempt id from to xs)
      ≡ touched id from to (find? (λ a. a.attempt_id == wanted) xs)
find-moved id wanted from to [] = refl
find-moved id wanted from to (x ∷ xs) =
    let rest = find-moved id wanted from to xs in
    elim (Bool-cases (x.attempt_id == id && x.state == from)) [
      | inl hit ↦ elim (Bool-cases (x.attempt_id == wanted)) [
        | inl y ↦ ground arith
        | inr y ↦ ground arith
      ]
      | inr out ↦ elim (Bool-cases (x.attempt_id == wanted)) [
        | inl y ↦ ground arith
        | inr y ↦ ground arith
      ]
    ]

pub moved_attempt_of :
    (s u : Store) (id wanted : AttemptId) (from to : AttemptState)
    → u.attempts ≡ moved_attempt id from to s.attempts
    → attempt_of u wanted ≡ touched id from to (attempt_of s wanted)
unfolding attempt_of
moved_attempt_of s u id wanted from to rows =
    ap (find? (λ a. a.attempt_id == wanted)) rows ∙ find-moved id wanted from to s.attempts

pub added_attempt_of :
    (s u : Store) (row : AttemptRow) (wanted : AttemptId)
    → u.attempts ≡ row ∷ s.attempts
    → attempt_of u wanted ≡ (if row.attempt_id == wanted then some row else attempt_of s wanted)
unfolding attempt_of
added_attempt_of s u row wanted rows = ap (find? (λ a. a.attempt_id == wanted)) rows

attempt_id_of :
    (s : Store) (id : AttemptId) (a : AttemptRow) → attempt_of s id ≡ some a → a.attempt_id ≡ id
unfolding attempt_of
attempt_id_of s id a h =
    (nat_beq_iff a.attempt_id id).0 (found_id (λ x. x.attempt_id == id) s.attempts a h)

pub unknown :
    (s : Store) (id wanted : AttemptId)
    → any (λ a. a.attempt_id == id) s.attempts ≡ false
    → (id == wanted) ≡ true
    → attempt_of s wanted ≡ none
unfolding attempt_of
unknown s id wanted new same =
    subst (λ k. find? (λ a. a.attempt_id == k) s.attempts ≡ none) ((nat_beq_iff id wanted).0 same)
      (find-none (λ a. a.attempt_id == id) s.attempts new)

done_touched :
    (id : AttemptId) (from to : AttemptState) (o : Option AttemptRow)
    → (from == terminal) ≡ false
    → (to == terminal) ≡ false
    → (elim (touched id from to o) [ none ↦ false | some a ↦ a.state == terminal ])
      ≡ (elim o [ none ↦ false | some a ↦ a.state == terminal ])
done_touched id from to none start end = refl
done_touched id from to (some a) start end =
    elim (Bool-cases (a.attempt_id == id && a.state == from)) [
      | inr out ↦ ground arith
      | inl hit ↦ ground (arith, state_beq_iff a.state from)
    ]

idle_ended :
    (s u : Store) (id : AttemptId)
    → has_result s id ≡ is_done s id
    → u.attempts ≡ s.attempts
    → u.results ≡ s.results
    → has_result u id ≡ is_done u id
unfolding has_result is_done attempt_of
idle_ended s u id h rows results = ground arith

pub ended-Step :
    (s u : Store) (id : AttemptId)
    → has_result s id ≡ is_done s id
    → Step s u
    → has_result u id ≡ is_done u id
unfolding has_result is_done
ended-Step s u id h (idle rows results) = idle_ended s u id h rows results
ended-Step s u id h (add row t fresh found room fine free new rows results) =
    let same = added_attempt_of s u row id rows in
    elim (Bool-cases (row.attempt_id == id)) [
      | inl here ↦ let gone = unknown s row.attempt_id id new here in ground arith
      | inr other ↦ ground arith
    ]
ended-Step s u id h (move at from to legal rows results) =
    let same = moved_attempt_of s u at id from to rows in
    let kept =
      done_touched at from to (attempt_of s id) (allowed_start from to legal)
        (allowed_end from to legal) in
    ground arith
ended-Step s u id h (settle r a new found open_ same_task same_revision rows results) =
    let same = moved_attempt_of s u r.attempt_id id a.state terminal rows in
    elim (Bool-cases (r.attempt_id == id)) [
      | inl here ↦
          let at = (nat_beq_iff r.attempt_id id).0 here in
          let there = subst (λ k. attempt_of s k ≡ some a) at found in
          let own = attempt_id_of s r.attempt_id a found in
          let self = ==_refl a.state in ground arith
      | inr other ↦ elim (Option-cases (attempt_of s id)) [
        | inl none_there ↦ ground arith
        | inr (b, there) ↦ let own = attempt_id_of s id b there in ground arith
      ]
    ]
