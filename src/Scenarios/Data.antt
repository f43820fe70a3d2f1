-- ===== src/Scenarios/Data.antt =====
-- A task, a platform and stores with a few rows.
use brgr.Base.{[], false, none, not, ok, string_eq, ℕ, ◌==◌, ◌∷◌}
use brgr.Protocol.{ArtifactRef, OwnerId, ResultEnvelope, ResultId, TaskSpec, TerminalOutcome}
use brgr.Store.{Platform, Store, empty_store}

abbrev pub alice : OwnerId
alice = "codex:alice"

abbrev pub spec_at : ℕ → TaskSpec
spec_at n = record {
  schema = "brgr/v1";
  task_id = 1;
  revision = n;
  create_request_id = "req-1";
  owner_id = alice;
  objective = "Summarize the build log";
  workspace = "/srv/checkout";
  route = record { harness_id = "local.fixture"; requested_model = none; requested_effort = none };
  required_capabilities = "completion" ∷ [];
  artifact_contract = record { media_type = "text/plain"; max_bytes = 4096 };
  acceptance_criteria = "the report is sealed" ∷ [];
  budget = record { deadline_seconds = 60; max_attempts = 2 };
  instructions = record { scope = []; role = []; forward_criteria = false };
  evidence = record {
    capture_diff = false;
    capture_logs = false;
    files = [];
    base_commit = none;
    base_tree = none;
  };
  max_concurrent_children = none;
  permission = none;
}

abbrev pub spec : TaskSpec
spec = spec_at 1

abbrev pub report : ArtifactRef
report = record {
  digest = "sha256:00";
  bytes = 10;
  media_type = "text/plain";
  store_relative_path = "00";
}

abbrev pub envelope : ResultId → TerminalOutcome → ResultEnvelope
envelope id outcome = record {
  schema = "brgr/v1";
  task_id = 1;
  revision = 1;
  attempt_id = 5;
  result_id = id;
  outcome = outcome;
  artifacts = report ∷ [];
  error = none;
  legacy_embedded_route_observation = none;
  route_observation = none;
  unresolved_effects = [];
  slept_seconds = none;
}

abbrev pub platform : Platform
platform = record {
  envelope_digest = λ r. "sha256:11";
  manifest_digest = λ m. "sha256:22";
  observation_digest = λ o. "sha256:33";
  spec_text = λ t. t.objective;
  worker_owner = λ id. "worker:5";
  task_text = λ id. "1";
  is_uuid = λ id. not (id == "");
  read_verified = λ a bound. ok tt;
}

abbrev pub bound_store : Store
bound_store = record empty_store {
  owner_bindings = record { owner_id = alice; session_id = "s1"; binding_epoch = 1 } ∷ [];
}

abbrev pub task_store : Store
task_store = record bound_store {
  tasks =
      record {
        task_id = 1;
        revision = 1;
        owner_id = alice;
        create_request_id = "req-1";
        request_digest = "d1";
        spec = spec;
      }
      ∷ [];
}
