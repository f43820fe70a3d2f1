-- ===== src/Store/StepKey.antt =====
-- src/workflow.rs: the ids of runs and the keys of steps, as their bytes, and the reserved suffix
-- of a retry.
pub mod Retry
use brgr.Base.{
  Bool, List, Option, Result, [], all, codes, err, false, if◌then◌else◌, leb, length, list_eq, ltb,
  nat_eq, none, not, ok, option_eq, some, string_eq, true, ℕ, ◌&&◌, ◌++◌, ◌+◌, ◌-◌, ◌==◌, ◌>>=◌,
  ◌>>◌, ◌||◌, ◌∷◌,
}
use brgr.Store.{
  StoreError, invalid_workflow_run_id, invalid_workflow_step_key, run_state_eq, takeover_state_eq,
}

abbrev pub Bytes : Type 0
Bytes = List ℕ

abbrev pub run_id_max : ℕ
run_id_max = 64

abbrev pub step_key_max : ℕ
step_key_max = 128

-- Letters, digits, `_` and `-`.
unfoldable pub token_byte : ℕ → Bool
token_byte c =
    leb 48 c && leb c 57 || leb 65 c && leb c 90 || leb 97 c && leb c 122 || c == 95 || c == 45

unfoldable pub valid_token : Bytes → ℕ → Bool
valid_token value max_len =
    leb 1 (length value) && leb (length value) max_len && all token_byte value

-- `value.split_once('~')`
unfoldable pub split_tilde : Bytes → Option (Bytes × Bytes)
split_tilde [] = none
split_tilde (c ∷ cs) =
    if c == 126
    then some ([], cs)
    else elim (split_tilde cs) [ none ↦ none | some p ↦ some (c ∷ p.0, p.1) ]

unfoldable pub retry_of : Bytes → Option ℕ
retry_of rest =
    if rest == codes "retry1"
    then some 1
    else if rest == codes "retry2"
    then some 2
    else if rest == codes "retry3"
    then some 3
    else none

unfoldable pub parse_retry_suffix : Bytes → Option (Bytes × ℕ)
parse_retry_suffix value = elim (split_tilde value) [
  | none ↦ none
  | some p ↦ elim (retry_of p.1) [
    | none ↦ none
    | some index ↦
        if not (valid_token p.0 step_key_max) || ltb step_key_max (length value)
        then none
        else some (p.0, index)
  ]
]

abbrev pub is_some {ℓ} : {A : Type ℓ} → Option A → Bool
is_some none = false
is_some (some a) = true

-- `WorkflowRunId::new`
unfoldable pub new_run_id : Bytes → Result StoreError Bytes
new_run_id value =
    if not (valid_token value run_id_max) then err (invalid_workflow_run_id value) else ok value

-- `WorkflowStepKey::new`
unfoldable pub new_step_key : Bytes → Result StoreError Bytes
new_step_key value =
    if valid_token value step_key_max || is_some (parse_retry_suffix value)
    then ok value
    else err (invalid_workflow_step_key value)

-- `retry_index`
unfoldable pub retry_index : Bytes → Option ℕ
retry_index key = elim (parse_retry_suffix key) [ none ↦ none | some p ↦ some p.1 ]

-- `format!("{base}~retry{index}")`, for an index of one digit.
abbrev pub retry_key : Bytes → ℕ → Bytes
retry_key base index = base ++ 126 ∷ (codes "retry" ++ ((48 + index) ∷ []))

-- `retry_predecessor`
unfoldable pub retry_predecessor : Bytes → Result StoreError (Option Bytes)
retry_predecessor key = elim (parse_retry_suffix key) [
  | none ↦ ok none
  | some p ↦ do q ← new_step_key (if p.1 == 1 then p.0 else retry_key p.0 (p.1 - 1)); ok (some q)
]
