-- ===== src/Core/Revisions.antt =====
-- The history of a task: a chain of whole revisions.
use brgr.Base.{>>=-eq-ok, List, Result, [], arith, length, ok, ◌+◌, ◌<◌, ◌>>=◌, ◌↔◌, ◌∷◌, ◌≡◌, ◌≤◌}
use brgr.Protocol.{TaskSpec}
use brgr.Protocol.Validate.{validate_stored}
use brgr.Protocol.Admission.{IsWellFormed, validate_stored_iff}
use brgr.Core.{CoreError, TaskRevision, freeze, revise, u32_max}

-- `revise` after `revise`, each on the one before it.
unfoldable pub revise_all : TaskRevision → List TaskSpec → Result CoreError TaskRevision
revise_all task [] = ok task
revise_all task (spec ∷ specs) = do next ← revise task spec; revise_all next specs

freeze-ok :
    (spec : TaskSpec) {task : TaskRevision}
    → freeze spec ≡ ok task
    → (task.spec ≡ spec) × (validate_stored spec ≡ ok tt) × (1 ≤ spec.revision)
unfolding freeze
freeze-ok spec h = ground arith

-- `revise` succeeds exactly for a well-formed spec of the same task whose revision is the next
-- one, and the new revision fits 32 bits.
revise_iff :
    (task : TaskRevision) (spec : TaskSpec)
    → (revise task spec ≡ ok (record { spec = spec })) ↔ (
        (spec.task_id ≡ task.spec.task_id)
        × (spec.revision ≡ task.spec.revision + 1)
        × (task.spec.revision < u32_max)
        × IsWellFormed spec)
unfolding revise freeze
revise_iff task spec = (
  λ h. (ground arith, ground arith, ground arith, (validate_stored_iff spec).0 (ground arith)),
  λ v. ground (arith, (validate_stored_iff spec).1 v.3, v.0, v.1, v.2),
)

revise-next :
    (task : TaskRevision) (spec : TaskSpec) {next : TaskRevision}
    → revise task spec ≡ ok next
    → (next.spec ≡ spec)
      × (spec.task_id ≡ task.spec.task_id)
      × (spec.revision ≡ task.spec.revision + 1)
      × (spec.revision ≤ u32_max)
unfolding revise freeze
revise-next task spec h = ground arith

-- A chain of `n` revisions that goes through ends at the same task, exactly `n` revisions later,
-- and at a revision that still fits 32 bits, if the first one did.
pub revise_all-chain :
    (task : TaskRevision) (specs : List TaskSpec) (last : TaskRevision)
    → task.spec.revision ≤ u32_max
    → revise_all task specs ≡ ok last
    → (last.spec.task_id ≡ task.spec.task_id)
      × (last.spec.revision ≡ task.spec.revision + length specs)
      × (last.spec.revision ≤ u32_max)
unfolding revise_all
revise_all-chain task [] last b h = ground arith
revise_all-chain task (spec ∷ specs) last b h =
    let (next, step, rest) = >>=-eq-ok (revise task spec) (λ next. revise_all next specs) h in
    let now = revise-next task spec step in
    let later = revise_all-chain next specs last (ground arith) rest in
    ground (arith, now.0, now.1, now.2, later.0, later.1, later.2)
