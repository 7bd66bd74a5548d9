-- ===== src/Restore/Defs.antt =====
-- `RestoreConfig`, `RestoreCandidate` and `RestoreResult` of src/app/domain/models.py without their
-- clock readings, and the ports of a restore, which answer or raise as they like.
use docker_volume_backup.Base.{Raising, Running, ℕ, String, Bool, Option, List}
use docker_volume_backup.RestoreOwnership.{Error, LayerInput, ScopeInput, RestoreOwnershipPolicy}

pub record RestoreConfig : Type 0 where
  pub target_path : String
  pub source : Option String
  pub dry_run : Bool
  pub force_overwrite : Bool
  pub stop_containers : Bool
  pub chown : Option String
  pub backup_strategy : String
  pub layout : Option String
  pub stop_label : Option String
  pub custom_label : Option String
  pub restore_ownership : LayerInput
  pub target_defaults : LayerInput
  pub runtime_type : String
  pub volume_scopes : Option (List ScopeInput)

pub record RestoreCandidate : Type 0 where
  pub source : String
  pub strategy : String
  pub created_at : Option ℕ
  pub available : Bool
  pub unavailable_reason : Option String

-- The state of `restart`, by its `state`.
pub data Restart : Type 0 where
  not_requested succeeded failed : Restart

-- The fields of a result that the service sets or reads. `destructive_state` is `none` where the
-- strategy's result has no such attribute.
pub record RestoreResult : Type 0 where
  pub success : Bool
  pub source : Option String
  pub target_path : String
  pub dry_run : Bool
  pub force_overwrite : Bool
  pub affected_containers : List String
  pub planned_actions : List String
  pub error : Option String
  pub category : Option String
  pub destructive_state : Option String
  pub partial : Bool
  pub restart : Restart

-- An exception: its text, and its `category` where it has that attribute.
pub record Exception : Type 0 where
  pub message : String
  pub category : Option String

-- What `os.lstat` and `os.path.abspath` tell of the target.
pub data Target : Type 0 where
  missing unsafe safe : Target

-- What an inspector says of a candidate: nothing, a good report, or one without success.
pub data Evidence : Type 0 where
  no_evidence : Evidence
  good_evidence : Evidence
  bad_evidence : Option String → Option String → Evidence

-- The answer of the capability gate: its `state`, `category` and `detail`.
pub record Capability : Type 0 where
  pub state : String
  pub category : Option String
  pub detail : Option String

abbrev pub Outcome {ℓ} : Type ℓ → Type ℓ
Outcome A = Raising Exception A

pub data Event : Type 0 where
  candidates_listed : Outcome (List RestoreCandidate) → Event
  target_seen : String → Outcome Target → Event
  candidate_inspected : RestoreCandidate → Outcome Evidence → Event
  runtime_volumes_searched : Outcome (List String) → Event
  labels_searched : List String → Outcome (List String) → Event
  volume_searched : String → Outcome (List String) → Event
  probed : RestoreOwnershipPolicy → Outcome Capability → Event
  stopped : List String → Outcome (List String) → Event
  downloaded : RestoreCandidate → Outcome String → Event
  restored : String → RestoreOwnershipPolicy → Outcome RestoreResult → Event
  cleaned : String → Outcome (Unit {0}) → Event
  started : List String → Outcome (Unit {0}) → Event

abbrev pub Trace : Type 0
Trace = List Event

abbrev pub Run {ℓ} : Type ℓ → Type ℓ
Run A = Running Exception Event A

-- `probe` is all of `_capability_gate` after its first test. `message` is the text of an error of
-- the ownership policy.
pub record Ports : Type 0 where
  pub list_restore_candidates : Trace → Outcome (List RestoreCandidate)
  pub see_target : String → Trace → Outcome Target
  pub inspect : RestoreCandidate → Trace → Outcome Evidence
  pub find_runtime_volumes : Trace → Outcome (List String)
  pub find_labels : List String → Trace → Outcome (List String)
  pub find_volume : String → Trace → Outcome (List String)
  pub probe : RestoreOwnershipPolicy → Trace → Outcome Capability
  pub stop_all : List String → Trace → Outcome (List String)
  pub download : RestoreCandidate → Trace → Outcome String
  pub restore : String → RestoreOwnershipPolicy → Trace → Outcome RestoreResult
  pub cleanup : String → Trace → Outcome (Unit {0})
  pub start_all : List String → Trace → Outcome (Unit {0})
  pub message : Error → String
