-- ===== src/Scheduler/Tick.antt =====
-- `SchedulerService._tick`. The service reads its own clock, as the argument `clock`; the n-th
-- dispatch of a tick draws its job's id from the stream `fresh`.
use docker_volume_backup.Base.{
  ℕ, suc, ◌+◌, ltb, String, Bool, true, false, not, ◌&&◌, Option, none, some, List, [], ◌∷◌, Dict,
  get, put, values, sort_by, str_eq, if◌then◌else◌,
}
use docker_volume_backup.Json.{Fields}
use docker_volume_backup.ControlPlane.{
  BackupTargetRecord, ControlPlane, ok, err, is_worker_eligible, has_active_backup_for_target,
  dispatch_backup_for_target,
}
use docker_volume_backup.Scheduler.Cron.{LocalTime, cron_matches}

-- What a tick changes: `_last_check`, and the control plane.
pub record Scheduler : Type 0 where
  pub last_check : Dict ℕ
  pub service : ControlPlane

-- `InMemoryTargetRepository.list`, which `list_targets` passes on
unfoldable pub list_targets : Dict BackupTargetRecord → List BackupTargetRecord
list_targets items = sort_by (λ target. target.created_at) (values items)

-- `a or b` for texts that may be `None` or empty
abbrev pub text_or_other : Option String → Option String → Option String
text_or_other none b = b
text_or_other (some a) b = if str_eq a "" then b else some a

-- Whether the target was looked at within the last minute.
abbrev pub checked_recently : ℕ → Option ℕ → Bool
checked_recently wall none = false
checked_recently wall (some last) = ltb wall (last + 1)

-- Whether the tick has something to do for the target: it is enabled, its cron matches, and it was
-- not looked at within the last minute.
unfoldable pub is_due : LocalTime → Option String → BackupTargetRecord → Dict ℕ → Bool
is_due now global_cron target last_check =
    target.enabled && (elim (text_or_other target.cron_expression global_cron) [
      | none ↦ false
      | some cron ↦
          not (str_eq cron "")
          && (cron_matches cron now && not (checked_recently now.wall (get target.id last_check)))
    ])

module _ (grace : ℕ) (payload : BackupTargetRecord → Option Fields) (fresh : ℕ → String) (clock : ℕ)
    (now : LocalTime) (global_cron : Option String) where
  -- The body of the loop for one target.
  unfoldable pub check_target : ℕ → BackupTargetRecord → Scheduler → Scheduler
  unfolding is_due
  check_target n target t =
      let noted = put target.id now.wall t.last_check in
      if is_due now global_cron target t.last_check
      then elim (is_worker_eligible grace clock target.worker_id t.service) [
        | err e ↦ t
        | ok false ↦ record t { last_check = noted }
        | ok true ↦
            if has_active_backup_for_target target.id t.service
            then record t { last_check = noted }
            else record {
              last_check = noted;
              service =
                  (dispatch_backup_for_target grace payload target.id "scheduler" "schedule"
                    (fresh n) clock t.service).1;
            }
      ]
      else t

  unfoldable pub check_targets : ℕ → List BackupTargetRecord → Scheduler → Scheduler
  unfolding check_target
  check_targets n [] t = t
  check_targets n (target ∷ targets) t = check_targets (suc n) targets (check_target n target t)

  -- `_tick`
  unfoldable pub tick : Scheduler → Scheduler
  unfolding check_targets list_targets
  tick t = check_targets 0 (list_targets t.service.targets) t
