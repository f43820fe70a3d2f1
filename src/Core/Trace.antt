-- ===== src/Core/Trace.antt =====
-- The states that an attempt must have been asked to enter before it owns a candidate.
use brgr.Base.{
  Bool, List, Result, [], arith, err, false, nat_eq, none, ok, option_eq, refl, some, string_eq,
  subst, true, ℕ, ◌==◌, ◌||◌, ◌∙◌, ◌∷◌, ◌≡◌,
}
use brgr.Protocol.{
  AttemptId, AttemptState, ResultEnvelope, blocked, cancel_requested, candidate, collecting,
  outcome_eq, queued, running, starting, state_eq, terminal,
}
use brgr.Core.{Attempt, CoreError, TaskRevision, new_attempt, record_terminal, transition}
use brgr.Core.Lifecycle.{Call, answer, drive, drive-terminal, finish, keep, move_to}

unfoldable pub asked : AttemptState → List Call → Bool
asked s [] = false
asked s (move_to t ∷ cs) = t == s || asked s cs
asked s (finish r ∷ cs) = asked s cs

-- What is still to be asked for from a state, for a candidate to be recorded.
abbrev Needs : AttemptState → List Call → Type 0
Needs queued cs =
    (asked starting cs ≡ true) × (asked running cs ≡ true) × (asked collecting cs ≡ true)
Needs starting cs = (asked running cs ≡ true) × (asked collecting cs ≡ true)
Needs running cs = asked collecting cs ≡ true
Needs blocked cs = asked collecting cs ≡ true
Needs collecting cs = Unit
Needs cancel_requested cs = ⊥
Needs terminal cs = ⊥

Needs-move :
    (a : Attempt) (next : AttemptState) (cs : List Call) {b : Attempt}
    → transition a next ≡ ok b
    → Needs b.state cs
    → Needs a.state (move_to next ∷ cs)
unfolding transition asked
Needs-move a next cs h n = ground arith

Needs-skip : (s : AttemptState) (c : Call) (cs : List Call) → Needs s cs → Needs s (c ∷ cs)
unfolding asked
Needs-skip s (move_to t) cs n = ground arith
Needs-skip s (finish r) cs n = ground arith

-- A candidate is only recorded in `collecting`.
Needs-finish :
    (a : Attempt) (r : ResultEnvelope) (cs : List Call) {b : Attempt}
    → record_terminal a r ≡ ok b
    → r.outcome ≡ candidate
    → Needs a.state (finish r ∷ cs)
unfolding record_terminal
Needs-finish a r cs h c = ground arith

finish_result :
    (a : Attempt) (r : ResultEnvelope) {b : Attempt}
    → record_terminal a r ≡ ok b
    → b.terminal_result ≡ some r
unfolding record_terminal
finish_result a r h = ground arith

move_result :
    (a : Attempt) (next : AttemptState) {b : Attempt}
    → transition a next ≡ ok b
    → b.terminal_result ≡ a.terminal_result
unfolding transition
move_result a next h = ground arith

drive-Needs :
    (a : Attempt) (cs : List Call) (r : ResultEnvelope)
    → a.terminal_result ≡ none
    → (drive a cs).terminal_result ≡ some r
    → r.outcome ≡ candidate
    → Needs a.state cs
unfolding drive answer
drive-Needs a [] r open_ done c = cc
drive-Needs a (move_to next ∷ cs) r open_ done c =
    moved (transition a next) refl (drive-Needs (keep a (transition a next)) cs r)
  where
    moved :
        (m : Result CoreError Attempt)
        → transition a next ≡ m
        → ((keep a (transition a next)).terminal_result ≡ none
            → (drive (keep a (transition a next)) cs).terminal_result ≡ some r
            → r.outcome ≡ candidate
            → Needs (keep a (transition a next)).state cs)
        → Needs a.state (move_to next ∷ cs)
    moved (ok b) e ih =
        Needs-move a next cs e (rw e at (ih (rw e (move_result a next e ∙ open_)) done c))
    moved (err x) e ih = Needs-skip a.state (move_to next) cs (rw e at (ih (rw e open_) done c))
drive-Needs a (finish s ∷ cs) r open_ done c =
    finished (record_terminal a s) refl (drive-Needs (keep a (record_terminal a s)) cs r)
  where
    finished :
        (m : Result CoreError Attempt)
        → record_terminal a s ≡ m
        → ((keep a (record_terminal a s)).terminal_result ≡ none
            → (drive (keep a (record_terminal a s)) cs).terminal_result ≡ some r
            → r.outcome ≡ candidate
            → Needs (keep a (record_terminal a s)).state cs)
        → Needs a.state (finish s ∷ cs)
    finished (ok b) e ih =
        let stays : (drive b cs).terminal_result ≡ some s =
          rw ((drive-terminal b cs s (finish_result a s e)).1) (finish_result a s e) in
        let ended : (drive (keep a (record_terminal a s)) cs).terminal_result ≡ some r = done in
        let same_result : s ≡ r = cc (stays, rw e at ended) in
        Needs-finish a s cs e (rw same_result c)
    finished (err x) e ih = Needs-skip a.state (finish s) cs (rw e at (ih (rw e open_) done c))

-- A new attempt that owns a candidate after some calls was asked, among them, to enter `starting`,
-- `running` and `collecting`: there is no shorter way to a candidate.
pub candidate_needs :
    (task : TaskRevision) (id : AttemptId) (n : ℕ) (cs : List Call) (a : Attempt)
    (r : ResultEnvelope)
    → new_attempt task id n ≡ ok a
    → (drive a cs).terminal_result ≡ some r
    → r.outcome ≡ candidate
    → (asked starting cs ≡ true) × (asked running cs ≡ true) × (asked collecting cs ≡ true)
unfolding new_attempt
candidate_needs task id n cs a r h done c =
    let fresh : (a.state ≡ queued) × (a.terminal_result ≡ none) = ground arith in
    subst (λ s. Needs s cs) fresh.0 (drive-Needs a cs r fresh.1 done c)
