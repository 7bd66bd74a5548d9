-- ===== src/Restore/Examples.antt =====
-- A restore that is forced, and the theorem at it.
use docker_volume_backup.Base.{
  done, String, true, false, none, some, List, [], ◌∷◌, ◌≡◌, refl, str_eq, All,
}
use docker_volume_backup.Json.{null}
use docker_volume_backup.RestoreOwnership.{given}
use docker_volume_backup.Restore.{
  RestoreConfig, RestoreResult, not_requested, safe, no_evidence, Ports, Plan, execute_restore,
  admitted, run_plan, restart_stopped, attempt, after_stop, to_stop, stop_found, after_download,
  after_restore, restarted,
}
use docker_volume_backup.Restore.Harmless.{is_destroyed, is_destructive}
use docker_volume_backup.Restore.Admission.{IsAdmitted}
use docker_volume_backup.Restore.Gate.{IsSafe, RestoresUnder, restore_is_guarded}

abbrev config : RestoreConfig
config = record {
  target_path = "/backup/data";
  source = some "local.tar.gz";
  dry_run = false;
  force_overwrite = true;
  stop_containers = true;
  chown = none;
  backup_strategy = "tar";
  layout = none;
  stop_label = none;
  custom_label = none;
  restore_ownership = given null;
  target_defaults = given null;
  runtime_type = "docker";
  volume_scopes = none;
}

abbrev restore_result : RestoreResult
restore_result = record {
  success = true;
  source = none;
  target_path = "/backup/data";
  dry_run = false;
  force_overwrite = true;
  affected_containers = [];
  planned_actions = [];
  error = none;
  category = some "ok";
  destructive_state = some "complete";
  partial = false;
  restart = not_requested;
}

abbrev ports : Ports
ports = record {
  list_restore_candidates = λ t. done [];
  see_target = λ path t. done safe;
  inspect = λ c t. done no_evidence;
  find_runtime_volumes = λ t. done ("app" ∷ []);
  find_labels = λ labels t. done [];
  find_volume = λ path t. done [];
  probe = λ policy t. done (record { state = "ready"; category = none; detail = none });
  stop_all = λ ids t. done ids;
  download = λ c t. done "/tmp/restore.tar.gz";
  restore = λ path policy t. done restore_result;
  cleanup = λ path t. done tt;
  start_all = λ ids t. done tt;
  message = λ e. "refused";
}

abbrev repr : List String → String
repr ids = "[...]"

something_is_done : is_destroyed (execute_restore ports repr config []).1 ≡ true
unfolding is_destroyed execute_restore str_eq admitted run_plan restart_stopped attempt after_stop
    to_stop stop_found after_download after_restore restarted is_destructive
something_is_done = refl

dry_run_does_nothing :
    is_destroyed (execute_restore ports repr (record config { dry_run = true }) []).1 ≡ false
unfolding is_destroyed execute_restore str_eq admitted is_destructive
dry_run_does_nothing = refl

restore_is_guarded_example :
    (plan : Plan) × IsAdmitted ports repr config plan
    × IsSafe ports repr config plan.policy
    × All
        (λ e. RestoresUnder ports repr config plan.policy e)
        (execute_restore ports repr config []).1
restore_is_guarded_example = restore_is_guarded ports repr config something_is_done
