-- ===== src/Backup/Defs.antt =====
-- `BackupConfig`, `ContainerConfig` and `BackupResult` of src/app/domain/models.py, and the ports of a
-- backup. What the ports do is not the service's: they answer or raise as they like, given all that
-- was asked of them before.
use docker_volume_backup.Base.{
  Raising, Running, finish, given_text, ℕ, String, Bool, Option, none, some, List,
}

-- The fields of `BackupConfig` that the service reads.
pub record BackupConfig : Type 0 where
  pub pre_backup_command : Option String
  pub post_backup_command : Option String

pub record ContainerConfig : Type 0 where
  pub stop_label : String
  pub pre_exec_label : String
  pub post_exec_label : String
  pub custom_label : Option String
  pub stop_containers : Bool

pub record BackupResult : Type 0 where
  pub timestamp : ℕ
  pub duration : ℕ
  pub size : ℕ
  pub success : Bool
  pub artifact_path : Option String
  pub error : Option String

-- What a call comes to; an exception is the text that it prints.
abbrev pub Outcome {ℓ} : Type ℓ → Type ℓ
Outcome A = Raising String A

-- The calls of the ports, each with what came of it.
pub data Event : Type 0 where
  listed : List String → Outcome (List String) → Event
  stopped : List String → Outcome (List String) → Event
  started : List String → Outcome (Unit {0}) → Event
  label_read : String → String → Outcome (Option String) → Event
  executed : String → String → Outcome (Unit {0}) → Event
  command_run : String → Outcome (Unit {0}) → Event
  performed : Outcome (Option BackupResult) → Event
  uploaded : String → Outcome Bool → Event
  cleaned : String → Outcome (Unit {0}) → Event
  metrics_sent : BackupResult → Outcome (Unit {0}) → Event

-- The latest event comes first.
abbrev pub Trace : Type 0
Trace = List Event

-- `ContainerPort`, `StoragePort`, `NotifierPort`, `BackupStrategy`, and `subprocess.run` with `check`.
-- `perform_backup` may answer `None`; `upload` answers whether it did not return `False`.
pub record Ports : Type 0 where
  pub get_containers_by_labels : List String → Trace → Outcome (List String)
  pub stop_all : List String → Trace → Outcome (List String)
  pub start_all : List String → Trace → Outcome (Unit {0})
  pub get_label_value : String → String → Trace → Outcome (Option String)
  pub exec_command : String → String → Trace → Outcome (Unit {0})
  pub run_command : String → Trace → Outcome (Unit {0})
  pub perform_backup : Trace → Outcome (Option BackupResult)
  pub upload : String → Trace → Outcome Bool
  pub cleanup : String → Trace → Outcome (Unit {0})
  pub send_metrics : BackupResult → Trace → Outcome (Unit {0})

abbrev pub Run {ℓ} : Type ℓ → Type ℓ
Run A = Running String Event A

-- `if text: f(text)`
unfoldable pub when_given : Option String → (String → Run (Unit {0})) → Run (Unit {0})
when_given command f = elim (given_text command) [ none ↦ finish tt | some c ↦ f c ]
