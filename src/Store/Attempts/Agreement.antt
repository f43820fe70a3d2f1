-- ===== src/Store/Attempts/Agreement.antt =====
-- The table of transitions in the store beside the one of the state machine in crates/brgr-core.
use brgr.Base.{arith, ◌≡◌}
use brgr.Protocol.{AttemptState}
use brgr.Core.{legal}
use brgr.Store.Attempts.{allowed}

-- The two crates allow the same steps between the states of an attempt.
allowed-legal : (from to : AttemptState) → allowed from to ≡ legal from to
unfolding allowed legal
allowed-legal from to = ground arith
