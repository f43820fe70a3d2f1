-- ===== src/Store/Takeover/Closing.antt =====
-- src/takeover.rs: how a handoff ends: retirement, failed retirement and abort.

use brgr.Base.{
  List, Option, Result, String, err, find?, if◌then◌else◌, list_eq, nat_eq, none, ok, option_eq,
  some, string_eq, ℕ, ◌&&◌, ◌==◌, ◌>>=◌, ◌>>◌,
}
use brgr.Protocol.{outcome_eq, state_eq}
use brgr.Store.{
  Store, StoreError, TakeoverEventRow, TakeoverState, aborted, retire_failed, retired, run_state_eq,
  takeover_state_conflict, takeover_state_eq,
}
use brgr.Store.Takeovers.{Takeover, append_event, load_takeover, require_transition, set_state}
use brgr.Store.Takeover.{bounded_reason}

-- The outcome that the trail holds for the newest event of this kind.
unfoldable pub stored_detail : List TakeoverEventRow → ℕ → TakeoverState → Option (Option String)
stored_detail es id kind = elim (find? (λ e. e.takeover_id == id && e.kind == kind) es) [
  | none ↦ none
  | some e ↦ some e.detail
]

unfoldable pub close :
    Store → ℕ → TakeoverState → Option String → Option String → Result StoreError (Takeover × Store)
close s id to detail reason = do
  t ← load_takeover s id
  if t.state == to
      then (if stored_detail s.takeover_events id to == some detail
          then ok (t, s)
          else err (takeover_state_conflict id t.state to))
      else do
        require_transition id t.state to
        let done = append_event (set_state s id to reason) id to detail
        u ← load_takeover done id
        ok (u, done)

pub data RetireOutcome : Type 0 where
  completed closed superseded_by : RetireOutcome

unfoldable pub retire_name : RetireOutcome → String
retire_name completed = "completed"
retire_name superseded_by = "superseded"
retire_name closed = "closed"

unfoldable pub retire_takeover : Store → ℕ → RetireOutcome → Result StoreError (Takeover × Store)
unfolding retire_name
retire_takeover s id outcome = close s id retired (some (retire_name outcome)) none

unfoldable pub fail_retirement : Store → ℕ → String → Result StoreError (Takeover × Store)
fail_retirement s id reason = do
  bounded ← bounded_reason reason
  close s id retire_failed (some bounded) (some bounded)

unfoldable pub abort_takeover : Store → ℕ → String → Result StoreError (Takeover × Store)
abort_takeover s id reason = do
  bounded ← bounded_reason reason
  t ← load_takeover s id
  if t.state == aborted then ok (t, s) else do
    require_transition id t.state aborted
    let done = append_event (set_state s id aborted (some bounded)) id aborted (some bounded)
    u ← load_takeover done id
    ok (u, done)
