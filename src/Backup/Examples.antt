-- ===== src/Backup/Examples.antt =====
-- A backup run whose upload fails, and the theorem at it.
use docker_volume_backup.Base.{
  done, raised, String, true, false, none, some, List, [], ◌∷◌, ◌≡◌, refl, str_eq,
}
use docker_volume_backup.Backup.{
  BackupConfig, ContainerConfig, BackupResult, Ports, execute_backup, upload_phase, restart_phase,
  attempt,
}
use docker_volume_backup.Backup.Restart.{RunEnd, backup_restarts_and_reports}

abbrev good_result : BackupResult
good_result = record {
  timestamp = 7;
  duration = 3;
  size = 100;
  success = true;
  artifact_path = some "/tmp/backup.tar.gz";
  error = none;
}

abbrev ports : Ports
ports = record {
  get_containers_by_labels = λ labels t. done ("db" ∷ []);
  stop_all = λ ids t. done ids;
  start_all = λ ids t. done tt;
  get_label_value = λ id label t. done (some "sync");
  exec_command = λ id command t. done tt;
  run_command = λ command t. done tt;
  perform_backup = λ t. done (some good_result);
  upload = λ path t. raised "no route to host";
  cleanup = λ path t. done tt;
  send_metrics = λ result t. done tt;
}

abbrev config : BackupConfig
config = record { pre_backup_command = none; post_backup_command = some "sync" }

abbrev containers : ContainerConfig
containers = record {
  stop_label = "stop=true";
  pre_exec_label = "pre";
  post_exec_label = "post";
  custom_label = none;
  stop_containers = true;
}

abbrev repr : List String → String
repr ids = "[...]"

upload_fails :
    (execute_backup ports repr config containers 9 []).0
    ≡ done (record good_result {
      success = false;
      error = some "Upload failed; local artifact retained at /tmp/backup.tar.gz: no route to host";
    })
unfolding execute_backup str_eq upload_phase restart_phase attempt
upload_fails = refl

backup_restarts_and_reports_example :
    RunEnd ports repr config containers 9 (execute_backup ports repr config containers 9 [])
backup_restarts_and_reports_example = backup_restarts_and_reports ports repr config containers 9
