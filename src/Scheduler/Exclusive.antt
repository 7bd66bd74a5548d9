-- ===== src/Scheduler/Exclusive.antt =====
-- A tick gives no target two backups at once.
use docker_volume_backup.Base.{
  ℕ, suc, ◌≤◌, String, Bool, false, ◌&&◌, Option, none, some, List, [], ◌∷◌, ◌≡◌, ◌⊎◌, inl, inr,
  refl, sym, ap, subst, ◌∙◌, arith, Dict, get, get-put, put, values, str_eq, str_eq_iff, opt_eq,
  any_of, Bool-cases, Option-cases, if◌then◌else◌,
}
use docker_volume_backup.Json.{Fields}
use docker_volume_backup.Jobs.{JobRecord, Jobs, save}
use docker_volume_backup.ControlPlane.{
  BackupTargetRecord, ControlPlane, is_active, new_job, has_active_backup_for_target, dispatch_job,
  dispatch_backup_for_target, Result-cases,
}
use docker_volume_backup.Scheduler.Cron.{LocalTime}
use docker_volume_backup.Scheduler.Tick.{Scheduler, list_targets, check_target, check_targets, tick}
use docker_volume_backup.Scheduler.Once.{dispatch_keeps}

-- A waiting or running backup of the target.
abbrev pub is_active_backup : String → JobRecord → Bool
is_active_backup target_id job =
    opt_eq job.target_id target_id && (str_eq job.command "backup.run" && is_active job)

-- How many backups of the target wait or run.
abbrev pub active_backups : String → Jobs → ℕ
active_backups target_id [] = 0
active_backups target_id ((k, job) ∷ items) =
    if is_active_backup target_id job
    then suc (active_backups target_id items)
    else active_backups target_id items

abbrev pub IsExclusive : Jobs → Type 0
IsExclusive items = (target_id : String) → active_backups target_id items ≤ 1

abbrev pub IsKeyed : Dict BackupTargetRecord → Type 0
IsKeyed targets =
    (k : String) (target : BackupTargetRecord) → get k targets ≡ some target → target.id ≡ k

none_active :
    (target_id : String) (items : Jobs)
    → any_of (λ job. is_active_backup target_id job) (values items) ≡ false
    → active_backups target_id items ≡ 0
none_active target_id [] h = refl
none_active target_id ((k, job) ∷ items) h = ground (arith, none_active target_id items)

active_backups-put :
    (target_id k : String) (job : JobRecord) (items : Jobs)
    → get k items ≡ none
    → active_backups target_id (put k job items) ≡ (
        if is_active_backup target_id job
        then suc (active_backups target_id items)
        else active_backups target_id items)
active_backups-put target_id k job [] h = refl
active_backups-put target_id k job ((j, old) ∷ items) h =
    ground (arith, active_backups-put target_id k job items)

-- A dispatch adds at most one job: a backup of the stored target.
Addition : String → String → ControlPlane → ControlPlane → Type 0
Addition target_id fresh s s' =
    (target : BackupTargetRecord) × (job : JobRecord) × (get target_id s.targets ≡ some target)
    × (job.target_id ≡ some target.id)
    × (s'.jobs ≡ put fresh job s.jobs)

dispatch_adds :
    (grace : ℕ) (payload : BackupTargetRecord → Option Fields)
    (target_id requested_by trigger fresh : String) (clock : ℕ) (s : ControlPlane)
    → let s' =
        (dispatch_backup_for_target grace payload target_id requested_by trigger fresh clock s).1 in
      (s'.jobs ≡ s.jobs) ⊎ Addition target_id fresh s s'
unfolding dispatch_backup_for_target dispatch_job Addition save new_job
dispatch_adds grace payload target_id requested_by trigger fresh clock s =
    elim (Option-cases (get target_id s.targets)) [
      | inl unknown ↦ inl (ground arith)
      | inr (target, found) ↦ elim (Option-cases (payload target)) [
        | inl refused ↦ inl (ground arith)
        | inr (p, built) ↦
            elim (Result-cases
              (dispatch_backup_for_target grace payload target_id requested_by trigger fresh clock
                s).0) [
                  | inl (done, accepted) ↦
                      let job =
                        new_job target.worker_id "backup.run" p requested_by (some target.id)
                          trigger fresh clock in
                      inr (target, job, found, refl, ground arith)
                  | inr (e, refused) ↦ inl (ground arith)
                ]
      ]
    ]

Addition-IsExclusive :
    (target_id fresh : String) (s s' : ControlPlane)
    → IsKeyed s.targets
    → IsExclusive s.jobs
    → get fresh s.jobs ≡ none
    → has_active_backup_for_target target_id s ≡ false
    → Addition target_id fresh s s'
    → IsExclusive s'.jobs
unfolding has_active_backup_for_target Addition
Addition-IsExclusive target_id fresh s s' keyed alone new idle (target, job, found, of_target, adds)
      k =
    ground (
      arith,
      keyed target_id target found,
      alone k,
      str_eq_iff target.id k,
      active_backups-put k fresh job s.jobs,
      none_active target_id s.jobs idle,
    )

module _ (grace : ℕ) (payload : BackupTargetRecord → Option Fields) (fresh : ℕ → String) (clock : ℕ)
    (now : LocalTime) (global_cron : Option String) where
  IsUnused : ℕ → Jobs → Type 0
  IsUnused n items = (m : ℕ) → n ≤ m → get (fresh m) items ≡ none

  Good : ℕ → ControlPlane → Type 0
  unfolding IsUnused
  Good n s =
      IsKeyed s.targets × IsExclusive s.jobs × ((m : ℕ) → n ≤ m → get (fresh m) s.jobs ≡ none)

  IsUnused-later :
      (n : ℕ) (target_id : String) (s s' : ControlPlane)
      → ((a b : ℕ) → fresh a ≡ fresh b → a ≡ b)
      → IsUnused n s.jobs
      → Addition target_id (fresh n) s s'
      → IsUnused (suc n) s'.jobs
  unfolding IsUnused Addition
  IsUnused-later n target_id s s' distinct new (target, job, found, of_target, adds) m later =
      ground (
        arith,
        new m (ground arith),
        get-put (fresh n) (fresh m) job s.jobs,
        str_eq_iff (fresh n) (fresh m),
        distinct n m,
      )

  dispatch_exclusive :
      (n : ℕ) (target_id : String) (s : ControlPlane)
      → ((a b : ℕ) → fresh a ≡ fresh b → a ≡ b)
      → Good n s
      → has_active_backup_for_target target_id s ≡ false
      → Good
          (suc n)
          (dispatch_backup_for_target grace payload target_id "scheduler" "schedule"
            (fresh n)
            clock
            s).1
  unfolding Good IsUnused
  dispatch_exclusive n target_id s distinct (keyed, alone, new) idle =
      let s' =
        (dispatch_backup_for_target grace payload target_id "scheduler" "schedule" (fresh n) clock
          s).1 in
      let kept = dispatch_keeps grace payload target_id "scheduler" "schedule" (fresh n) clock s in
      let keyed' : IsKeyed s'.targets = subst (λ r. IsKeyed r) (sym kept.1) keyed in
      elim (dispatch_adds grace payload target_id "scheduler" "schedule" (fresh n) clock s) [
        | inl same ↦ (
          keyed',
          subst (λ r. IsExclusive r) (sym same) alone,
          λ m later. ap (λ r. get (fresh m) r) same ∙ new m (ground arith),
        )
        | inr adds ↦ (
          keyed',
          Addition-IsExclusive target_id (fresh n) s s' keyed alone (new n (ground arith)) idle
              adds,
          IsUnused-later n target_id s s' distinct new adds,
        )
      ]

  check_cases :
      (n : ℕ) (target : BackupTargetRecord) (t : Scheduler)
      → let t' = check_target grace payload fresh clock now global_cron n target t in
        (t'.service ≡ t.service)
        ⊎ ((has_active_backup_for_target target.id t.service ≡ false)
            × (t'.service
                ≡ (dispatch_backup_for_target grace payload target.id "scheduler" "schedule"
                    (fresh n)
                    clock
                    t.service).1))
  unfolding check_target
  check_cases n target t = elim (Bool-cases (has_active_backup_for_target target.id t.service)) [
    | inl busy ↦ inl (ground arith)
    | inr idle ↦ ground arith
  ]

  check_exclusive :
      (n : ℕ) (target : BackupTargetRecord) (t : Scheduler)
      → ((a b : ℕ) → fresh a ≡ fresh b → a ≡ b)
      → Good n t.service
      → Good (suc n) (check_target grace payload fresh clock now global_cron n target t).service
  unfolding Good
  check_exclusive n target t distinct (keyed, alone, new) = elim (check_cases n target t) [
    | inl same ↦
        subst (λ s. Good (suc n) s) (sym same) (keyed, alone, λ m later. new m (ground arith))
    | inr (idle, dispatched) ↦
        subst (λ s. Good (suc n) s) (sym dispatched)
          (dispatch_exclusive n target.id t.service distinct (keyed, alone, new) idle)
  ]

  loop-IsExclusive :
      (n : ℕ) (targets : List BackupTargetRecord) (t : Scheduler)
      → ((a b : ℕ) → fresh a ≡ fresh b → a ≡ b)
      → Good n t.service
      → IsExclusive
          (check_targets grace payload fresh clock now global_cron n targets t).service.jobs
  unfolding check_targets Good
  loop-IsExclusive n [] t distinct good = good.1
  loop-IsExclusive n (target ∷ targets) t distinct good =
      loop-IsExclusive (suc n) targets
        (check_target grace payload fresh clock now global_cron n target t) distinct
        (check_exclusive n target t distinct good)

-- Where each target is stored under its own id and the new ids are unused and all different, a
-- tick that finds at most one waiting or running backup for each target leaves at most one.
pub tick-IsExclusive :
    (grace : ℕ) (payload : BackupTargetRecord → Option Fields) (fresh : ℕ → String) (clock : ℕ)
    (now : LocalTime) (global_cron : Option String) (t : Scheduler)
    → ((a b : ℕ) → fresh a ≡ fresh b → a ≡ b)
    → ((n : ℕ) → get (fresh n) t.service.jobs ≡ none)
    → IsKeyed t.service.targets
    → IsExclusive t.service.jobs
    → IsExclusive (tick grace payload fresh clock now global_cron t).service.jobs
unfolding tick Good
tick-IsExclusive grace payload fresh clock now global_cron t distinct new keyed alone =
    loop-IsExclusive grace payload fresh clock now global_cron 0 (list_targets t.service.targets) t
      distinct (keyed, alone, λ m later. new m)
