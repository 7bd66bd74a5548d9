-- ===== src/ControlPlane/Workers.antt =====
-- The workers of the control plane: `_worker_status` and the methods of
-- src/control_plane/application/services/control_plane_service.py that register, refresh, revoke
-- and check them, over `InMemoryWorkerRepository` and `InMemoryTargetRepository`.
-- The threshold of `_worker_offline_after_seconds` is the argument `grace`, in microseconds.
use docker_volume_backup.Base.{
  ℕ, ◌+◌, String, Bool, false, ◌&&◌, Option, none, some, List, [], ◌∷◌, Dict, get, put, values, leb,
  str_eq, find_first, sort_by, if◌then◌else◌,
}
use docker_volume_backup.ControlPlane.Defs.{
  WorkerStatus, is_online, is_disabled, WorkerRecord, BackupTargetRecord, ControlPlane,
  worker_not_found, worker_not_eligible, credential_not_found, Result, ok, err,
}
use docker_volume_backup.WorkerAuth.{AuthState, revoke, revoke_all}

-- `InMemoryWorkerRepository.save`
unfoldable pub save_worker : WorkerRecord → Dict WorkerRecord → Dict WorkerRecord
save_worker worker items = put worker.id worker items

-- `InMemoryWorkerRepository.list`
unfoldable pub list_workers : Dict WorkerRecord → List WorkerRecord
list_workers items = sort_by (λ worker. worker.created_at) (values items)

-- `InMemoryWorkerRepository.find_by_name`
unfoldable pub find_by_name : String → Dict WorkerRecord → Option WorkerRecord
unfolding list_workers
find_by_name name items = find_first (λ worker. str_eq worker.name name) (list_workers items)

seen_status : ℕ → ℕ → Option ℕ → WorkerStatus
seen_status grace now none = WorkerStatus.offline
seen_status grace now (some seen) =
    if leb now (seen + grace) then WorkerStatus.online else WorkerStatus.offline

-- `_worker_status`
unfoldable pub worker_status : ℕ → ℕ → WorkerRecord → WorkerStatus
unfolding seen_status
worker_status grace now worker =
    if is_disabled worker.status
    then WorkerStatus.disabled
    else seen_status grace now worker.last_seen_at

-- `is_worker_eligible`; an unknown worker is the `ValueError`.
unfoldable pub is_worker_eligible : ℕ → ℕ → String → ControlPlane → Result Bool
unfolding worker_status
is_worker_eligible grace now worker_id s = elim (get worker_id s.workers) [
  | none ↦ err worker_not_found
  | some worker ↦ ok (is_online (worker_status grace now worker))
]

-- `_require_eligible_worker`
unfoldable pub require_eligible_worker : ℕ → ℕ → String → ControlPlane → Result WorkerRecord
unfolding worker_status
require_eligible_worker grace now worker_id s = elim (get worker_id s.workers) [
  | none ↦ err worker_not_found
  | some worker ↦
      if is_online (worker_status grace now worker) then ok worker else err worker_not_eligible
]

-- A status that a sign of life leaves: a disabled worker stays so.
abbrev seen_alive : WorkerStatus → WorkerStatus
seen_alive status = if is_disabled status then status else WorkerStatus.online

abbrev labels_or : Option (Dict String) → Dict String → Dict String
labels_or (some (label ∷ labels)) old = label ∷ labels
labels_or _ old = old

-- `labels or {}` for a new worker
abbrev labels_or_empty : Option (Dict String) → Dict String
labels_or_empty none = []
labels_or_empty (some labels) = labels

refreshed : String → String → Option (Dict String) → ℕ → WorkerRecord → WorkerRecord
refreshed host_name version labels now worker = record worker {
  host_name = host_name;
  version = version;
  labels = labels_or labels worker.labels;
  status = seen_alive worker.status;
  last_seen_at = some now;
  updated_at = now;
}

abbrev registered_as : String → Option String → Dict WorkerRecord → Option WorkerRecord
registered_as name none workers = find_by_name name workers
registered_as name (some worker_id) workers =
    if str_eq worker_id "" then find_by_name name workers else get worker_id workers

abbrev id_or_fresh : Option String → String → String
id_or_fresh none fresh = fresh
id_or_fresh (some worker_id) fresh = if str_eq worker_id "" then fresh else worker_id

-- `register_worker`; `fresh` is the `uuid4` of a new worker.
unfoldable pub register_worker :
    String
    → String
    → String
    → Option (Dict String)
    → Option String
    → String
    → ℕ
    → ControlPlane
    → WorkerRecord × ControlPlane
unfolding save_worker refreshed find_by_name
register_worker name host_name version labels worker_id fresh now s =
    elim (registered_as name worker_id s.workers) [
      | some worker ↦
          let worker' = refreshed host_name version labels now worker in
          (worker', record s { workers = save_worker worker' s.workers })
      | none ↦
          let worker' : WorkerRecord = record {
            name = name;
            host_name = host_name;
            version = version;
            labels = labels_or_empty labels;
            id = id_or_fresh worker_id fresh;
            status = WorkerStatus.online;
            created_at = now;
            updated_at = now;
            last_seen_at = some now;
          } in
          (worker', record s { workers = save_worker worker' s.workers })
    ]

abbrev version_or : Option String → String → String
version_or none old = old
version_or (some version) old = if str_eq version "" then old else version

-- `worker.labels.update(labels)`
abbrev merge_labels : Dict String → Dict String → Dict String
merge_labels old [] = old
merge_labels old ((k, v) ∷ labels) = merge_labels (put k v old) labels

abbrev merged_labels : Option (Dict String) → Dict String → Dict String
merged_labels none old = old
merged_labels (some labels) old = merge_labels old labels

unfoldable pub heard : Option String → Option (Dict String) → ℕ → WorkerRecord → WorkerRecord
heard version labels now worker = record worker {
  status = seen_alive worker.status;
  last_seen_at = some now;
  updated_at = now;
  version = version_or version worker.version;
  labels = merged_labels labels worker.labels;
}

-- `heartbeat`
unfoldable pub heartbeat :
    String
    → Option String
    → Option (Dict String)
    → ℕ
    → ControlPlane
    → Result WorkerRecord × ControlPlane
unfolding save_worker heard
heartbeat worker_id version labels now s = elim (get worker_id s.workers) [
  | none ↦ (err worker_not_found, s)
  | some worker ↦
      let worker' = heard version labels now worker in
      (ok worker', record s { workers = save_worker worker' s.workers })
]

-- What `_disable_targets_for_worker` leaves of a target.
unfoldable pub disabled_for : String → ℕ → BackupTargetRecord → BackupTargetRecord
disabled_for worker_id now target =
    if str_eq target.worker_id worker_id && target.enabled
    then record target { enabled = false; updated_at = now }
    else target

-- `_disable_targets_for_worker`: each target is saved under its own id.
unfoldable pub disable_targets_for_worker :
    String → ℕ → Dict BackupTargetRecord → Dict BackupTargetRecord
unfolding disabled_for
disable_targets_for_worker worker_id now [] = []
disable_targets_for_worker worker_id now ((k, target) ∷ targets) =
    (k, disabled_for worker_id now target) ∷ disable_targets_for_worker worker_id now targets

-- The argument `version` of `revoke_worker`: it is `None`, the empty text, the text of a number, or
-- another text, under which no credential stands.
pub data Version : Type 0 where
  every_version current_version unknown_version : Version
  numbered : ℕ → Version

-- What `revoke_worker` asks of `worker_auth`; `none` is the `ValueError` of `revoke`.
unfoldable pub revoke_credentials : String → Version → ℕ → AuthState → Option AuthState
unfolding revoke revoke_all
revoke_credentials worker_id every_version now auth = some (revoke_all worker_id now auth).1
revoke_credentials worker_id current_version now auth = revoke worker_id none now auth
revoke_credentials worker_id unknown_version now auth = none
revoke_credentials worker_id (numbered version) now auth = revoke worker_id (some version) now auth

-- `revoke_worker`, with the state of `worker_auth` where there is one.
unfoldable pub revoke_worker :
    String
    → Version
    → ℕ
    → ControlPlane
    → Option AuthState
    → Result WorkerRecord × ControlPlane × Option AuthState
unfolding save_worker disable_targets_for_worker revoke_credentials
revoke_worker worker_id version now s auth = elim (get worker_id s.workers) [
  | none ↦ (err worker_not_found, s, auth)
  | some worker ↦
      let worker' = record worker { status = WorkerStatus.disabled; updated_at = now } in
      let s' = record s {
        workers = save_worker worker' s.workers;
        targets = disable_targets_for_worker worker_id now s.targets;
      } in
      elim auth [
        | none ↦ (ok worker', s', none)
        | some a ↦ elim (revoke_credentials worker_id version now a) [
          | none ↦ (err credential_not_found, s, some a)
          | some a' ↦ (ok worker', s', some a')
        ]
      ]
]
