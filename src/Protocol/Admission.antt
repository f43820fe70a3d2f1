-- ===== src/Protocol/Admission.antt =====
-- What `TaskSpec::validate` accepts, stated without its tests: exactly the bounded tasks.
use Prim.Native.Nat.{min}
use text.Mathlib.TextEquality.{eq_iff}
use brgr.Base.{
  All, All-append, All-append_left, All-append_right, All-map, All→all, All→any, Bool, List, Option,
  String, [], all→All, any, any→All, arith, codes, false, is_blank, is_empty, len, length, ltb,
  none, ok, refl, refuse, some, true, ℕ, ◌++◌, ◌+◌, ◌<◌, ◌↔◌, ◌∷◌, ◌≡◌, ◌≤◌, ◌⊎◌,
}
use brgr.Protocol.{
  EvidenceSpec, ProtocolError, TaskInstructions, TaskSpec, max_acceptance_criteria,
  max_criteria_total_bytes, max_criterion_bytes, max_objective_bytes, schema_v1,
}
use brgr.Protocol.Paths.{escapes}
use brgr.Protocol.Validate.{
  acceptance_criteria_exceed_size, bad_child_limit, bad_criteria, bad_entry, bad_evidence, bad_file,
  bad_instructions, bad_object_id, blank_selector, is_lower_hex, is_some_and, saturating_add,
  total_from, usize_max, validate, validate_stored,
}

abbrev pub IsGiven : String → Type 0
IsGiven s = is_blank s ≡ false

pub record IsObjectId (capture_diff : Bool) (id : String) : Type 0 where
  pub captured : capture_diff ≡ true
  pub width : (len id ≡ 40) ⊎ (len id ≡ 64)
  pub digits : All (λ c. is_lower_hex c ≡ true) (codes id)

pub record IsEvidenceFile (path : String) : Type 0 where
  pub long_enough : 0 < len path
  pub short_enough : len path ≤ 1024
  pub confined : escapes (codes path) ≡ false

pub record IsEvidence (e : EvidenceSpec) : Type 0 where
  pub commit : (id : String) → e.base_commit ≡ some id → IsObjectId e.capture_diff id
  pub tree : (id : String) → e.base_tree ≡ some id → IsObjectId e.capture_diff id
  pub few_files : length e.files ≤ 8
  pub files_fit : All IsEvidenceFile e.files

abbrev pub IsEntry : String → Type 0
IsEntry e = IsGiven e × (len e ≤ 2048)

pub record IsInstructions (i : TaskInstructions) : Type 0 where
  pub scope_count : length i.scope ≤ 16
  pub role_count : length i.role ≤ 16
  pub scope_fits : All IsEntry i.scope
  pub role_fits : All IsEntry i.role

-- The shape of every stored task.
pub record IsWellFormed (t : TaskSpec) : Type 0 where
  pub known_schema : t.schema ≡ schema_v1
  pub objective_given : IsGiven t.objective
  pub workspace_given : IsGiven t.workspace
  pub harness_given : IsGiven t.route.harness_id
  pub model_given : (m : String) → t.route.requested_model ≡ some m → IsGiven m
  pub effort_given : (m : String) → t.route.requested_effort ≡ some m → IsGiven m
  pub has_criterion : 0 < length t.acceptance_criteria
  pub criteria_given : All IsGiven t.acceptance_criteria
  pub instructions_fit : IsInstructions t.instructions
  pub evidence_fits : IsEvidence t.evidence
  pub child_limit : (n : ℕ) → t.max_concurrent_children ≡ some n → (1 ≤ n) × (n ≤ 8)
  pub bytes_positive : 0 < t.artifact_contract.max_bytes
  pub deadline_positive : 0 < t.budget.deadline_seconds
  pub attempts : (1 ≤ t.budget.max_attempts) × (t.budget.max_attempts ≤ 2)

abbrev pub total_bytes : List String → ℕ
total_bytes [] = 0
total_bytes (c ∷ cs) = len c + total_bytes cs

-- The further bounds of a new task.
pub record IsAdmissible (t : TaskSpec) : Type 0 where
  pub well_formed : IsWellFormed t
  pub objective_short : len t.objective ≤ max_objective_bytes
  pub few_criteria : length t.acceptance_criteria ≤ max_acceptance_criteria
  pub criteria_short : All (λ c. len c ≤ max_criterion_bytes) t.acceptance_criteria
  pub total_short : total_bytes t.acceptance_criteria ≤ max_criteria_total_bytes

-- The saturating sum is the exact one up to the largest `usize`.
total_from-eq :
    (s : ℕ) (cs : List String)
    → s ≤ usize_max
    → total_from s cs ≡ min (s + total_bytes cs) usize_max
unfolding total_from
total_from-eq s [] h = omega arith
total_from-eq s (c ∷ cs) h =
    omega (arith, total_from-eq (saturating_add s (len c)) cs (omega arith))

refuse-ok : (b : Bool) (e : ProtocolError) → refuse b e ≡ ok tt → b ≡ false
refuse-ok true e h = cc
refuse-ok false e h = refl

option_test :
    (p : String → Bool) (o : Option String)
    → is_some_and p o ≡ false
    → (s : String) → o ≡ some s
    → p s ≡ false
option_test p none h s e = cc
option_test p (some x) h s e = ground arith

option_test_back :
    (p : String → Bool) (o : Option String)
    → ((s : String) → o ≡ some s → p s ≡ false)
    → is_some_and p o ≡ false
option_test_back p none h = refl
option_test_back p (some x) h = h x refl

bad_object_id_iff : (b : Bool) (id : String) → (bad_object_id b id ≡ false) ↔ IsObjectId b id
unfolding bad_object_id
bad_object_id_iff b id = (
  λ h. record {
    captured = ground arith;
    width = ground arith;
    digits = all→All is_lower_hex (codes id) (ground arith);
  },
  λ v. ground (arith, All→all is_lower_hex (codes id) v.digits),
)

bad_file_iff : (p : String) → (bad_file p ≡ false) ↔ IsEvidenceFile p
unfolding bad_file
bad_file_iff p = (λ h. ground arith, λ v. ground arith)

bad_evidence_iff : (e : EvidenceSpec) → (bad_evidence e ≡ false) ↔ IsEvidence e
unfolding bad_evidence
bad_evidence_iff e = (
  λ h. record {
    commit = λ id x.
        (bad_object_id_iff _ _).0
          (option_test (bad_object_id e.capture_diff) e.base_commit (ground arith) id x);
    tree = λ id x.
        (bad_object_id_iff _ _).0
          (option_test (bad_object_id e.capture_diff) e.base_tree (ground arith) id x);
    few_files = ground arith;
    files_fit = All-map e.files (λ p. (bad_file_iff p).0) (any→All bad_file e.files (ground arith));
  },
  λ v.
      let commit : is_some_and (bad_object_id e.capture_diff) e.base_commit ≡ false =
        option_test_back _ _ (λ id x. (bad_object_id_iff _ _).1 (v.commit id x)) in
      let tree : is_some_and (bad_object_id e.capture_diff) e.base_tree ≡ false =
        option_test_back _ _ (λ id x. (bad_object_id_iff _ _).1 (v.tree id x)) in
      let files : any bad_file e.files ≡ false =
        All→any bad_file e.files (All-map e.files (λ p. (bad_file_iff p).1) v.files_fit) in
      ground arith,
)

IsEntry-iff : (e : String) → (bad_entry e ≡ false) ↔ IsEntry e
unfolding bad_entry
IsEntry-iff e = (λ h. ground arith, λ v. ground arith)

bad_instructions_iff : (i : TaskInstructions) → (bad_instructions i ≡ false) ↔ IsInstructions i
unfolding bad_instructions
bad_instructions_iff i = (
  λ h.
      let entries : All IsEntry (i.scope ++ i.role) =
        All-map (i.scope ++ i.role) (λ e. (IsEntry-iff e).0)
          (any→All bad_entry (i.scope ++ i.role) (ground arith)) in
      record {
        scope_count = ground arith;
        role_count = ground arith;
        scope_fits = All-append_left IsEntry i.scope i.role entries;
        role_fits = All-append_right IsEntry i.scope i.role entries;
      },
  λ v.
      let entries : any bad_entry (i.scope ++ i.role) ≡ false =
        All→any bad_entry (i.scope ++ i.role) (
          All-map (i.scope ++ i.role) (λ e. (IsEntry-iff e).1)
            (All-append IsEntry i.scope i.role v.scope_fits v.role_fits)) in
      ground (arith, v.scope_count, v.role_count),
)

bad_criteria_iff :
    (t : TaskSpec)
    → (bad_criteria t ≡ false)
      ↔ ((0 < length t.acceptance_criteria) × All IsGiven t.acceptance_criteria)
unfolding bad_criteria
bad_criteria_iff t = (
  λ h. (
    nonempty t.acceptance_criteria (ground arith),
    any→All is_blank t.acceptance_criteria (ground arith),
  ),
  λ v. ground (arith, empty t.acceptance_criteria v.0, All→any is_blank t.acceptance_criteria v.1),
)
  where
    nonempty : (cs : List String) → is_empty cs ≡ false → 0 < length cs
    nonempty [] h = cc
    nonempty (c ∷ cs) h = omega arith

    empty : (cs : List String) → 0 < length cs → is_empty cs ≡ false
    empty [] h = elim h [ ]
    empty (c ∷ cs) h = refl

child_limit_iff :
    (o : Option ℕ) → (bad_child_limit o ≡ false) ↔ ((n : ℕ) → o ≡ some n → (1 ≤ n) × (n ≤ 8))
child_limit_iff none = (λ h n e. cc, λ v. refl)
child_limit_iff (some m) = (λ h n e. ground arith, λ v. ground (arith, v m refl))

-- A stored task passes `validate_stored` exactly when it has the shape of a version 1 task.
pub validate_stored_iff : (t : TaskSpec) → (validate_stored t ≡ ok tt) ↔ IsWellFormed t
unfolding validate_stored blank_selector
validate_stored_iff t = (
  λ h. record {
    known_schema = (eq_iff t.schema schema_v1).0 (ground arith);
    objective_given = ground arith;
    workspace_given = ground arith;
    harness_given = ground arith;
    model_given = option_test is_blank t.route.requested_model (ground arith);
    effort_given = option_test is_blank t.route.requested_effort (ground arith);
    has_criterion = ((bad_criteria_iff t).0 (ground arith)).0;
    criteria_given = ((bad_criteria_iff t).0 (ground arith)).1;
    instructions_fit = (bad_instructions_iff t.instructions).0 (ground arith);
    evidence_fits = (bad_evidence_iff t.evidence).0 (ground arith);
    child_limit = (child_limit_iff t.max_concurrent_children).0 (ground arith);
    bytes_positive = ground arith;
    deadline_positive = ground arith;
    attempts = ground arith;
  },
  λ v.
      let schema = (eq_iff t.schema schema_v1).1 v.known_schema in
      let model = option_test_back is_blank t.route.requested_model v.model_given in
      let effort = option_test_back is_blank t.route.requested_effort v.effort_given in
      let criteria = (bad_criteria_iff t).1 (v.has_criterion, v.criteria_given) in
      let instructions = (bad_instructions_iff t.instructions).1 v.instructions_fit in
      let evidence = (bad_evidence_iff t.evidence).1 v.evidence_fits in
      let limit = (child_limit_iff t.max_concurrent_children).1 v.child_limit in
      ground (
        arith, v.objective_given, v.workspace_given, v.harness_given, v.bytes_positive,
        v.deadline_positive, v.attempts,
      ),
)

criteria_size_iff :
    (cs : List String)
    → (acceptance_criteria_exceed_size cs ≡ false) ↔ (
        (length cs ≤ max_acceptance_criteria)
        × All (λ c. len c ≤ max_criterion_bytes) cs
        × (total_bytes cs ≤ max_criteria_total_bytes))
unfolding acceptance_criteria_exceed_size
criteria_size_iff cs = (
  λ h. (
    ground arith,
    All-map cs (λ c x. ground arith) (any→All too_long cs (ground arith)),
    ground (arith, total_from-eq 0 cs (omega arith)),
  ),
  λ v.
      let short = All→any too_long cs (All-map cs (λ c x. ground arith) v.1) in
      ground (arith, total_from-eq 0 cs (omega arith), v.0, v.2),
)
  where
    too_long : String → Bool
    too_long c = ltb max_criterion_bytes (len c)

-- A new task passes `validate` exactly when it has the shape of a version 1 task and keeps the
-- byte and count bounds on its objective and criteria, the sum of the criteria taken exactly.
pub validate_iff : (t : TaskSpec) → (validate t ≡ ok tt) ↔ IsAdmissible t
unfolding validate
validate_iff t = (
  λ h.
      let sizes = (criteria_size_iff t.acceptance_criteria).0 (ground arith) in
      record {
        well_formed = (validate_stored_iff t).0 (ground arith);
        objective_short = ground arith;
        few_criteria = sizes.0;
        criteria_short = sizes.1;
        total_short = sizes.2;
      },
  λ v.
      let stored = (validate_stored_iff t).1 v.well_formed in
      let sizes =
        (criteria_size_iff t.acceptance_criteria).1
          (v.few_criteria, v.criteria_short, v.total_short) in
      ground (arith, v.objective_short),
)
