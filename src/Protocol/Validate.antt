-- ===== src/Protocol/Validate.antt =====
-- `TaskSpec::validate` and `TaskSpec::validate_stored`. Each test of the source is a function of
-- its own, named for what it refuses, and the tests stand in the source's order.
use brgr.Base.{
  Bool, List, Option, Result, String, [], all, any, codes, false, is_blank, is_empty, leb, len,
  length, ltb, nat_eq, none, not, ok, option_eq, refuse, some, string_eq, ℕ, ◌&&◌, ◌++◌, ◌+◌, ◌==◌,
  ◌>>◌, ◌||◌, ◌∷◌,
}
use Prim.Native.Nat.{min}
use brgr.Protocol.{
  EvidenceSpec, ProtocolError, TaskInstructions, TaskSpec, acceptance_criteria_too_large,
  empty_harness, empty_objective, empty_route_selector, empty_workspace,
  invalid_acceptance_criteria, invalid_attempt_count, invalid_budget, invalid_child_limit,
  invalid_evidence_spec, invalid_task_instructions, max_acceptance_criteria,
  max_criteria_total_bytes, max_criterion_bytes, max_objective_bytes, objective_too_long, schema_v1,
  unsupported_schema,
}
use brgr.Protocol.Paths.{escapes}

abbrev pub usize_max : ℕ
usize_max = 18446744073709551615

-- `usize::saturating_add`
abbrev pub saturating_add : ℕ → ℕ → ℕ
saturating_add a b = min (a + b) usize_max

-- The `fold` of `acceptance_criteria_exceed_size`.
unfoldable pub total_from : ℕ → List String → ℕ
total_from sum [] = sum
total_from sum (c ∷ cs) = total_from (saturating_add sum (len c)) cs

unfoldable pub acceptance_criteria_exceed_size : List String → Bool
acceptance_criteria_exceed_size criteria =
    let total = total_from 0 criteria in
    ltb max_acceptance_criteria (length criteria)
    || any (λ c. ltb max_criterion_bytes (len c)) criteria
    || ltb max_criteria_total_bytes total

abbrev pub is_some_and : (String → Bool) → Option String → Bool
is_some_and p none = false
is_some_and p (some s) = p s

unfoldable pub blank_selector : TaskSpec → Bool
blank_selector t =
    is_some_and is_blank t.route.requested_model || is_some_and is_blank t.route.requested_effort

unfoldable pub bad_criteria : TaskSpec → Bool
bad_criteria t = is_empty t.acceptance_criteria || any is_blank t.acceptance_criteria

unfoldable pub bad_entry : String → Bool
bad_entry e = is_blank e || ltb 2048 (len e)

unfoldable pub bad_instructions : TaskInstructions → Bool
unfolding bad_entry
bad_instructions i =
    ltb 16 (length i.scope) || ltb 16 (length i.role) || any bad_entry (i.scope ++ i.role)

-- `byte.is_ascii_hexdigit() && !byte.is_ascii_uppercase()`
unfoldable pub is_lower_hex : ℕ → Bool
is_lower_hex c = leb b'0' c && leb c b'9' || leb b'a' c && leb c b'f'

unfoldable pub bad_object_id : Bool → String → Bool
unfolding is_lower_hex
bad_object_id capture_diff id =
    not capture_diff || not (len id == 40 || len id == 64) || not (all is_lower_hex (codes id))

unfoldable pub bad_file : String → Bool
bad_file path = len path == 0 || ltb 1024 (len path) || escapes (codes path)

unfoldable pub bad_evidence : EvidenceSpec → Bool
bad_evidence e =
    is_some_and (bad_object_id e.capture_diff) e.base_commit
    || is_some_and (bad_object_id e.capture_diff) e.base_tree
    || ltb 8 (length e.files)
    || any bad_file e.files

abbrev pub bad_child_limit : Option ℕ → Bool
bad_child_limit none = false
bad_child_limit (some limit) = limit == 0 || ltb 8 limit

unfoldable pub validate_stored : TaskSpec → Result ProtocolError (Unit {0})
validate_stored t = do
  refuse (not (t.schema == schema_v1)) (unsupported_schema t.schema)
  refuse (is_blank t.objective) empty_objective
  refuse (is_blank t.workspace) empty_workspace
  refuse (is_blank t.route.harness_id) empty_harness
  refuse (blank_selector t) empty_route_selector
  refuse (bad_criteria t) invalid_acceptance_criteria
  refuse (bad_instructions t.instructions) invalid_task_instructions
  refuse (bad_evidence t.evidence) invalid_evidence_spec
  refuse (bad_child_limit t.max_concurrent_children) invalid_child_limit
  refuse (t.artifact_contract.max_bytes == 0 || t.budget.deadline_seconds == 0) invalid_budget
  refuse (t.budget.max_attempts == 0 || ltb 2 t.budget.max_attempts) invalid_attempt_count
  ok tt

unfoldable pub validate : TaskSpec → Result ProtocolError (Unit {0})
validate t = do
  validate_stored t
  refuse (ltb max_objective_bytes (len t.objective)) objective_too_long
  refuse (acceptance_criteria_exceed_size t.acceptance_criteria) acceptance_criteria_too_large
  ok tt
