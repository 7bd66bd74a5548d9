-- ===== src/Backup/Service.antt =====
-- `BackupService.execute_backup`; `repr` is Python's text of a list of texts, and `now` its time.
use docker_volume_backup.Base.{
  done, raised, finish, call, given_text, ◌>>>=◌, ℕ, String, true, false, Option, none, some, List,
  [], ◌∷◌, or_else, joined_to, if◌then◌else◌,
}
use docker_volume_backup.Backup.Defs.{
  BackupConfig, ContainerConfig, BackupResult, Outcome, listed, stopped, started, label_read,
  executed, command_run, performed, uploaded, cleaned, metrics_sent, Trace, Ports, Run, when_given,
}

-- `_get_filter_labels`
unfoldable pub filter_labels : ContainerConfig → String → List String
filter_labels config base_label = elim (given_text config.custom_label) [
  | none ↦ base_label ∷ []
  | some label ↦ base_label ∷ label ∷ []
]

-- `f"{error}; {e}" if error else e`
abbrev pub joined_error : Option String → String → String
joined_error error e = elim (given_text error) [
  | none ↦ e
  | some old ↦ joined_to old (joined_to "; " e)
]

-- A result with an error more, or a new one where there is no result yet.
unfoldable pub failed_with : ℕ → Option BackupResult → String → BackupResult
failed_with now none e = record {
  timestamp = now;
  duration = 0;
  size = 0;
  success = false;
  artifact_path = none;
  error = some e;
}
failed_with now (some result) e = record result {
  success = false;
  error = some (joined_error result.error e);
}

-- The error of a step after the backup.
abbrev pub with_error : BackupResult → String → BackupResult
with_error result e = record result { success = false; error = some e }

-- What the `try` block leaves: the containers that it stopped, the backup's result where there is
-- one, and the exception where one was raised.
pub record Attempt : Type 0 where
  pub stopped_containers : List String
  pub result : Option BackupResult
  pub exception : Option String

module _ (ports : Ports) (repr : List String → String) (config : BackupConfig)
    (containers : ContainerConfig) (now : ℕ) where
  abbrev pub list_by : String → Run (List String)
  unfolding filter_labels
  list_by label =
      let labels = filter_labels containers label in
      call (ports.get_containers_by_labels labels) (listed labels)

  -- 1. Stop containers
  unfoldable pub stop_found : List String → Run (List String)
  stop_found [] = finish []
  stop_found (id ∷ ids) = call (ports.stop_all (id ∷ ids)) (stopped (id ∷ ids))

  unfoldable pub stop_phase : Run (List String)
  unfolding filter_labels stop_found
  stop_phase =
      if containers.stop_containers
      then (list_by containers.stop_label >>>= λ ids. stop_found ids)
      else finish []

  -- 2. and 4. The command that a container's label names
  unfoldable pub exec_labelled : String → List String → Run (Unit {0})
  unfolding when_given
  exec_labelled label [] = finish tt
  exec_labelled label (id ∷ ids) =
      call (ports.get_label_value id label) (label_read id label) >>>= λ cmd.
      when_given cmd (λ command. call (ports.exec_command id command) (executed id command))
      >>>= λ _. exec_labelled label ids

  -- 2.5 and 3.5 A global command
  abbrev pub run_global : Option String → Run (Unit {0})
  run_global command = when_given command (λ c. call (ports.run_command c) (command_run c))

  unfoldable pub before_phase : Run (Unit {0})
  unfolding exec_labelled filter_labels
  before_phase = list_by containers.pre_exec_label >>>= λ ids.
      exec_labelled containers.pre_exec_label ids >>>= λ _. run_global config.pre_backup_command

  unfoldable pub after_phase : Run (Unit {0})
  unfolding exec_labelled filter_labels
  after_phase = run_global config.post_backup_command >>>= λ _.
      list_by containers.post_exec_label >>>= λ ids. exec_labelled containers.post_exec_label ids

  -- 3. Perform Backup Strategy
  unfoldable pub perform_phase : Run (Option BackupResult)
  unfolding before_phase
  perform_phase = before_phase >>>= λ _. call ports.perform_backup performed

  abbrev pub ended :
      List String → Option BackupResult → Outcome (Unit {0}) × Trace → Attempt × Trace
  ended ids result (done _, t) =
      (record { stopped_containers = ids; result = result; exception = none }, t)
  ended ids result (raised e, t) =
      (record { stopped_containers = ids; result = result; exception = some e }, t)

  unfoldable pub backed_up : List String → Outcome (Option BackupResult) × Trace → Attempt × Trace
  unfolding after_phase
  backed_up ids (done result, t) = ended ids result (after_phase t)
  backed_up ids (raised e, t) =
      (record { stopped_containers = ids; result = none; exception = some e }, t)

  unfoldable pub all_stopped : Outcome (List String) × Trace → Attempt × Trace
  unfolding perform_phase backed_up
  all_stopped (done ids, t) = backed_up ids (perform_phase t)
  all_stopped (raised e, t) =
      (record { stopped_containers = []; result = none; exception = some e }, t)

  -- The `try` block
  unfoldable pub attempt : Trace → Attempt × Trace
  unfolding stop_phase all_stopped
  attempt t = all_stopped (stop_phase t)

  -- The `except` block
  abbrev pub excepted : Attempt → Option BackupResult
  unfolding failed_with
  excepted a = elim a.exception [ none ↦ a.result | some e ↦ some (failed_with now a.result e) ]

  abbrev pub restart_error : List String → String → String
  restart_error ids e =
      joined_to "Container restart failed for " (joined_to (repr ids) (joined_to ": " e))

  -- The `finally` block
  unfoldable pub restart_phase :
      List String → Option BackupResult → Trace → Option BackupResult × Trace
  unfolding failed_with
  restart_phase [] result t = (result, t)
  restart_phase (id ∷ ids) result t =
      elim (ports.start_all (id ∷ ids) t) as (λ _. Option BackupResult × Trace) [
        | done u ↦ (result, started (id ∷ ids) (done u) ∷ t)
        | raised e ↦ (
          some (failed_with now result (restart_error (id ∷ ids) e)),
          started (id ∷ ids) (raised e) ∷ t,
        )
      ]

  abbrev pub no_result : BackupResult
  unfolding failed_with
  no_result = failed_with now none "Backup did not produce a result"

  abbrev pub upload_error : String → String → String
  upload_error path e =
      joined_to "Upload failed; local artifact retained at " (joined_to path (joined_to ": " e))

  abbrev pub cleanup_error : String → String → String
  cleanup_error path e =
      joined_to "Upload succeeded but local artifact cleanup failed; artifact retained at "
        (joined_to path (joined_to ": " e))

  unfoldable pub clean_phase : String → BackupResult → Trace → BackupResult × Trace
  clean_phase path result t = elim (ports.cleanup path t) as (λ _. BackupResult × Trace) [
    | done u ↦ (result, cleaned path (done u) ∷ t)
    | raised e ↦ (with_error result (cleanup_error path e), cleaned path (raised e) ∷ t)
  ]

  -- 5. Upload; cleanup is only safe after every configured destination succeeds.
  unfoldable pub upload_artifact : String → BackupResult → Trace → BackupResult × Trace
  unfolding clean_phase
  upload_artifact path result t = elim (ports.upload path t) as (λ _. BackupResult × Trace) [
    | done true ↦ clean_phase path result (uploaded path (done true) ∷ t)
    | done false ↦ (
      with_error result (upload_error path "storage adapter returned an explicit upload failure"),
      uploaded path (done false) ∷ t,
    )
    | raised e ↦ (with_error result (upload_error path e), uploaded path (raised e) ∷ t)
  ]

  unfoldable pub upload_phase : BackupResult → Trace → BackupResult × Trace
  unfolding upload_artifact
  upload_phase result t =
      if result.success
      then elim (given_text result.artifact_path) [
        | none ↦ (result, t)
        | some path ↦ upload_artifact path result t
      ]
      else (result, t)

  -- 6. Metrics, whose error nothing catches
  abbrev pub metrics_phase : BackupResult → Run BackupResult
  metrics_phase result =
      call (ports.send_metrics result) (metrics_sent result) >>>= λ _. finish result

  -- `execute_backup`
  unfoldable pub execute_backup : Run BackupResult
  execute_backup t =
      let (a, t₁) = attempt t in
      let (restarted, t₂) = restart_phase a.stopped_containers (excepted a) t₁ in
      let (result, t₃) = upload_phase (or_else restarted no_result) t₂ in metrics_phase result t₃
