-- ===== src/Jobs/Defs.antt =====
-- `JobStatus` and `JobRecord` of src/control_plane/domain/models.py.
use docker_volume_backup.Base.{ℕ, String, Bool, true, false, Option, List, Dict}
use docker_volume_backup.Json.{Fields}

-- The status texts; `cancelled` is the spelling that `normalize` replaces.
pub data JobStatus : Type 0 where
  pending in_progress succeeded failed canceled cancelled : JobStatus
  other : String → JobStatus

abbrev pub normalize : JobStatus → JobStatus
normalize JobStatus.cancelled = JobStatus.canceled
normalize s = s

abbrev pub is_pending : JobStatus → Bool
is_pending JobStatus.pending = true
is_pending _ = false

abbrev pub is_in_progress : JobStatus → Bool
is_in_progress JobStatus.in_progress = true
is_in_progress _ = false

pub record JobRecord : Type 0 where
  pub worker_id : String
  pub command : String
  pub payload : Fields
  pub requested_by : String
  pub target_id : Option String
  pub trigger : String
  pub id : String
  pub status : JobStatus
  pub owner_worker_id : Option String
  pub lease_token : Option String
  pub lease_issued_at : Option ℕ
  pub lease_expires_at : Option ℕ
  pub attempt_count : ℕ
  pub result_summary : Option Fields
  pub log_lines : List String
  pub submitted_at : ℕ
  pub started_at : Option ℕ
  pub finished_at : Option ℕ
  pub updated_at : ℕ

-- `InMemoryJobRepository._items`
abbrev pub Jobs : Type 0
Jobs = Dict JobRecord
