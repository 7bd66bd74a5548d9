-- ===== src/Scheduler/Once.antt =====
-- A target is looked at once a minute: a second tick in the same minute changes nothing.
use docker_volume_backup.Base.{
  ℕ, suc, String, Bool, true, false, not, ◌||◌, Option, List, [], ◌∷◌, ◌≡◌, refl, ap, ◌∙◌, arith,
  get, get-put, put, str_eq_refl, present, all_of, Dict,
}
use docker_volume_backup.Json.{Fields}
use docker_volume_backup.ControlPlane.{
  BackupTargetRecord, ControlPlane, is_worker_eligible, dispatch_job, dispatch_backup_for_target,
}
use docker_volume_backup.Scheduler.Cron.{LocalTime}
use docker_volume_backup.Scheduler.Tick.{
  Scheduler, list_targets, is_due, check_target, check_targets, tick,
}

-- A dispatch leaves the workers and the targets as they are.
pub dispatch_keeps :
    (grace : ℕ) (payload : BackupTargetRecord → Option Fields)
    (target_id requested_by trigger fresh : String) (clock : ℕ) (s : ControlPlane)
    → let s' =
        (dispatch_backup_for_target grace payload target_id requested_by trigger fresh clock s).1 in
      (s'.workers ≡ s.workers) × (s'.targets ≡ s.targets)
unfolding dispatch_backup_for_target dispatch_job
dispatch_keeps grace payload target_id requested_by trigger fresh clock s = ground arith

-- The target has been dealt with: it is not due, or its worker is unknown.
is_settled : LocalTime → Option String → BackupTargetRecord → Scheduler → Bool
is_settled now global_cron target t =
    not (is_due now global_cron target t.last_check)
    || not (present (get target.worker_id t.service.workers))

noted_not_due :
    (now : LocalTime) (global_cron : Option String) (target : BackupTargetRecord)
    (last_check : Dict ℕ)
    → is_due now global_cron target (put target.id now.wall last_check) ≡ false
unfolding is_due
noted_not_due now global_cron target last_check =
    ground (arith, get-put target.id target.id now.wall last_check, str_eq_refl target.id)

not_due_stays :
    (now : LocalTime) (global_cron : Option String) (k : String) (target : BackupTargetRecord)
    (last_check : Dict ℕ)
    → is_due now global_cron target last_check ≡ false
    → is_due now global_cron target (put k now.wall last_check) ≡ false
unfolding is_due
not_due_stays now global_cron k target last_check h =
    ground (arith, get-put k target.id now.wall last_check)

module _ (grace : ℕ) (payload : BackupTargetRecord → Option Fields) (fresh : ℕ → String) (clock : ℕ)
    (now : LocalTime) (global_cron : Option String) where
  settled_stays :
      (n : ℕ) (target : BackupTargetRecord) (t : Scheduler)
      → is_settled now global_cron target t ≡ true
      → check_target grace payload fresh clock now global_cron n target t ≡ t
  unfolding is_settled check_target is_worker_eligible
  settled_stays n target t h = ground arith

  check_keeps :
      (n : ℕ) (target : BackupTargetRecord) (t : Scheduler)
      → let t' = check_target grace payload fresh clock now global_cron n target t in
        (t'.service.workers ≡ t.service.workers) × (t'.service.targets ≡ t.service.targets)
  unfolding check_target is_worker_eligible
  check_keeps n target t = ground (
    arith,
    dispatch_keeps grace payload target.id "scheduler" "schedule" (fresh n) clock t.service,
  )

  check_settles :
      (n : ℕ) (target : BackupTargetRecord) (t : Scheduler)
      → is_settled now global_cron target
          (check_target grace payload fresh clock now global_cron n target t)
        ≡ true
  unfolding is_settled check_target is_worker_eligible
  check_settles n target t = ground (arith, noted_not_due now global_cron target t.last_check)

  check_keeps_settled :
      (n : ℕ) (target other : BackupTargetRecord) (t : Scheduler)
      → is_settled now global_cron other t ≡ true
      → is_settled now global_cron other
          (check_target grace payload fresh clock now global_cron n target t)
        ≡ true
  unfolding is_settled check_target is_worker_eligible
  check_keeps_settled n target other t h = ground (
    arith,
    not_due_stays now global_cron target.id other t.last_check,
    dispatch_keeps grace payload target.id "scheduler" "schedule" (fresh n) clock t.service,
  )

  all_settled : List BackupTargetRecord → Scheduler → Bool
  all_settled targets t = all_of (λ target. is_settled now global_cron target t) targets

  settled_stay :
      (n : ℕ) (targets : List BackupTargetRecord) (t : Scheduler)
      → all_settled targets t ≡ true
      → check_targets grace payload fresh clock now global_cron n targets t ≡ t
  unfolding all_settled check_targets
  settled_stay n [] t h = refl
  settled_stay n (target ∷ targets) t h =
      ap (λ r. check_targets grace payload fresh clock now global_cron (suc n) targets r)
        (settled_stays n target t (ground arith))
      ∙ settled_stay (suc n) targets t (ground arith)

  loop_keeps :
      (n : ℕ) (targets : List BackupTargetRecord) (t : Scheduler)
      → (check_targets grace payload fresh clock now global_cron n targets t).service.targets
        ≡ t.service.targets
  unfolding check_targets
  loop_keeps n [] t = refl
  loop_keeps n (target ∷ targets) t =
      let t' = check_target grace payload fresh clock now global_cron n target t in
      loop_keeps (suc n) targets t' ∙ (check_keeps n target t).1

  loop_keeps_settled :
      (n : ℕ) (targets : List BackupTargetRecord) (other : BackupTargetRecord) (t : Scheduler)
      → is_settled now global_cron other t ≡ true
      → is_settled now global_cron other
          (check_targets grace payload fresh clock now global_cron n targets t)
        ≡ true
  unfolding check_targets
  loop_keeps_settled n [] other t h = h
  loop_keeps_settled n (target ∷ targets) other t h =
      loop_keeps_settled (suc n) targets other
        (check_target grace payload fresh clock now global_cron n target t)
        (check_keeps_settled n target other t h)

  loop_settles :
      (n : ℕ) (targets : List BackupTargetRecord) (t : Scheduler)
      → all_settled targets (check_targets grace payload fresh clock now global_cron n targets t)
        ≡ true
  unfolding all_settled check_targets
  loop_settles n [] t = refl
  loop_settles n (target ∷ targets) t =
      let t' = check_target grace payload fresh clock now global_cron n target t in
      let first = loop_keeps_settled (suc n) targets target t' (check_settles n target t) in
      ground (arith, loop_settles (suc n) targets t')

-- A second tick in the same minute changes nothing, even where the service's clock, the backup
-- payloads or the new ids differ: no target gets a second backup.
pub tick_again_changes_nothing :
    (grace : ℕ) (payload payload' : BackupTargetRecord → Option Fields) (fresh fresh' : ℕ → String)
    (clock clock' : ℕ) (now : LocalTime) (global_cron : Option String) (t : Scheduler)
    → let t' = tick grace payload fresh clock now global_cron t in
      tick grace payload' fresh' clock' now global_cron t' ≡ t'
unfolding tick all_settled
tick_again_changes_nothing grace payload payload' fresh fresh' clock clock' now global_cron t =
    let targets = list_targets t.service.targets in
    let t' = check_targets grace payload fresh clock now global_cron 0 targets t in
    let same : list_targets t'.service.targets ≡ targets =
      ap (λ r. list_targets r) (loop_keeps grace payload fresh clock now global_cron 0 targets t) in
    ap (λ r. check_targets grace payload' fresh' clock' now global_cron 0 r t') same
    ∙ settled_stay grace payload' fresh' clock' now global_cron 0 targets t'
        (loop_settles grace payload fresh clock now global_cron 0 targets t)
