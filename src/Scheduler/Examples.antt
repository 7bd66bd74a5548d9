-- ===== src/Scheduler/Examples.antt =====
-- The scheduler at concrete expressions, times and targets: tests, and the theorems at inputs that
-- meet their hypotheses.
use docker_volume_backup.Base.{
  has, ℕ, ◌+◌, ◌*◌, ◌≤◌, String, true, false, Option, none, some, List, [], ◌∷◌, ◌≡◌, ◌↔◌, refl,
  arith, All, codes, length, str_eq, str_eq_iff, strip, parse_int, text_length, zero, suc, sym, ap,
  ◌∙◌,
}
use docker_volume_backup.Json.{Fields, empty}
use docker_volume_backup.Jobs.{save}
use docker_volume_backup.ControlPlane.{
  WorkerStatus, WorkerRecord, has_active_backup_for_target, dispatch_backup_for_target,
  dispatch_job, require_eligible_worker, is_worker_eligible, BackupTargetRecord,
}
use docker_volume_backup.Scheduler.Cron.{
  LocalTime, parse_cron_field, part_range, part_values, cron_matches,
}
use docker_volume_backup.Scheduler.Tick.{Scheduler, tick, check_targets, check_target, is_due}
use docker_volume_backup.Scheduler.Bounds.{Within, parse_cron_field-Within, part_values_exact}
use docker_volume_backup.Scheduler.Exclusive.{
  active_backups, IsExclusive, IsKeyed, tick-IsExclusive,
}
use docker_volume_backup.Scheduler.Once.{tick_again_changes_nothing}

abbrev quarter_hours : List ℕ
quarter_hours = 0 ∷ 15 ∷ 30 ∷ 45 ∷ []

quarters : parse_cron_field (codes "*/15") 0 59 ≡ some quarter_hours
unfolding parse_cron_field strip parse_int part_range
quarters = refl

out_of_range : parse_cron_field (codes "5, 60") 0 59 ≡ none
unfolding parse_cron_field
out_of_range = refl

parse_cron_field-Within_example : (1 ≤ length quarter_hours) × All (Within 0 59) quarter_hours
parse_cron_field-Within_example = parse_cron_field-Within (codes "*/15") 0 59 quarter_hours quarters

part_values_exact_example :
    (has 30 quarter_hours ≡ true) ↔ ((k : ℕ) × (30 ≡ 0 + k * 15) × (30 ≤ 59))
unfolding part_values
part_values_exact_example = part_values_exact 0 59 0 59 15 30 quarter_hours refl (omega arith)

-- A Monday, two o'clock.
abbrev monday : LocalTime
monday = record { wall = 1000; minute = 0; hour = 2; day = 17; month = 3; weekday = 0 }

nightly : cron_matches "0 2 * * 1-5" monday ≡ true
unfolding cron_matches
nightly = refl

sunday_only : cron_matches "0 2 * * 7" monday ≡ false
unfolding cron_matches
sunday_only = refl

abbrev worker : WorkerRecord
worker = record {
  name = "nas";
  host_name = "nas.local";
  version = "1.0";
  labels = [];
  id = "w1";
  status = WorkerStatus.online;
  created_at = 1;
  updated_at = 1;
  last_seen_at = some 1;
}

abbrev target : BackupTargetRecord
target = record {
  name = "photos";
  worker_id = "w1";
  compose_project = none;
  volume_targets = [];
  backup_mode = "hot";
  backup_strategy = "restic";
  runtime_image = none;
  runtime_command = none;
  runtime_environment = [];
  runtime_volumes = empty;
  runtime_network_mode = none;
  storage_profile_id = none;
  retention_policy_id = none;
  execution_policy_id = none;
  restic_password_secret_id = none;
  restore_defaults = empty;
  labels = [];
  enabled = true;
  live_access_enabled = false;
  cron_expression = some "0 2 * * *";
  id = "t1";
  created_at = 1;
  updated_at = 1;
  path_storage = none;
  runtime_type = "docker";
  namespace = none;
  pvc_names = [];
  filesystem_paths = [];
}

abbrev payload : BackupTargetRecord → Option Fields
payload _ = some empty

fresh : ℕ → String
fresh zero = ""
fresh (suc n) = String.◌∷◌ "x" (fresh n)

text_length-fresh : (n : ℕ) → text_length (fresh n) ≡ n
unfolding fresh
text_length-fresh zero = refl
text_length-fresh (suc n) = ap (λ r. suc r) (text_length-fresh n)

fresh_distinct : (a b : ℕ) → fresh a ≡ fresh b → a ≡ b
fresh_distinct a b e = sym (text_length-fresh a) ∙ ap (λ r. text_length r) e ∙ text_length-fresh b

abbrev idle : Scheduler
idle = record {
  last_check = [];
  service = record {
    workers = ("w1", worker) ∷ [];
    targets = ("t1", target) ∷ [];
    jobs = [];
    published = [];
  };
}

idle-IsKeyed : IsKeyed idle.service.targets
unfolding str_eq
idle-IsKeyed k found e = ground (arith, str_eq_iff "t1" k)

abbrev ticked : Scheduler
ticked = tick 90 payload fresh 50 monday none idle

-- The tick dispatches one backup.
tick_dispatches : active_backups "t1" ticked.service.jobs ≡ 1
unfolding tick check_targets check_target is_due cron_matches str_eq is_worker_eligible
    has_active_backup_for_target dispatch_backup_for_target dispatch_job require_eligible_worker
    save
tick_dispatches = refl

tick-IsExclusive_example : IsExclusive ticked.service.jobs
tick-IsExclusive_example =
    tick-IsExclusive 90 payload fresh 50 monday none idle fresh_distinct (λ n. refl) idle-IsKeyed
      (λ target_id. ground arith)

tick_again_changes_nothing_example : tick 90 payload fresh 70 monday none ticked ≡ ticked
tick_again_changes_nothing_example =
    tick_again_changes_nothing 90 payload payload fresh fresh 50 70 monday none idle
