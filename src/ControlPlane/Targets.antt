-- ===== src/ControlPlane/Targets.antt =====
-- `InMemoryTargetRepository`, and `delete_target` but for the index and cache entries of the target,
-- which other repositories keep.
use docker_volume_backup.Base.{String, Bool, none, some, Dict, get, put, pop, present}
use docker_volume_backup.ControlPlane.Defs.{
  WorkerRecord, BackupTargetRecord, ControlPlane, target_not_found, Result, ok, err,
}

-- `InMemoryTargetRepository.save`
unfoldable pub save_target : BackupTargetRecord → Dict BackupTargetRecord → Dict BackupTargetRecord
save_target target items = put target.id target items

-- `InMemoryTargetRepository.delete`
unfoldable pub delete_stored_target :
    String → Dict BackupTargetRecord → Bool × Dict BackupTargetRecord
delete_stored_target target_id items = (present (get target_id items), pop target_id items)

-- `InMemoryWorkerRepository.delete`
unfoldable pub delete_stored_worker : String → Dict WorkerRecord → Bool × Dict WorkerRecord
delete_stored_worker worker_id items = (present (get worker_id items), pop worker_id items)

-- `delete_target`
unfoldable pub delete_target : String → ControlPlane → Result Bool × ControlPlane
unfolding delete_stored_target
delete_target target_id s = elim (get target_id s.targets) [
  | none ↦ (err target_not_found, s)
  | some target ↦
      let (deleted, items) = delete_stored_target target_id s.targets in
      (ok deleted, record s { targets = items })
]
