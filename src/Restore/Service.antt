-- ===== src/Restore/Service.antt =====
-- The run of `execute_restore`; `repr` is Python's text of a list of texts.
use docker_volume_backup.Base.{
  done, raised, finish, call, given_text, String, Bool, true, false, ◌||◌, Option, none, some, List,
  [], ◌∷◌, ◌++◌, or_else, present, str_eq, joined_to, codes, starts_with, if◌then◌else◌,
}
use docker_volume_backup.Restore.Defs.{
  RestoreConfig, RestoreCandidate, RestoreResult, Restart, not_requested, succeeded, failed,
  Exception, stopped, downloaded, restored, cleaned, started, Trace, Outcome, Run, Ports,
}
use docker_volume_backup.Restore.Planning.{joined_by}
use docker_volume_backup.Restore.Results.{failure, Plan, Step, go_on, stop_with}
use docker_volume_backup.Restore.Conditions.{admit}

module _ (ports : Ports) (repr : List String → String) (config : RestoreConfig) where
  unfoldable pub stop_found : List String → Run (List String)
  stop_found [] = finish []
  stop_found (id ∷ ids) = call (ports.stop_all (id ∷ ids)) (stopped (id ∷ ids))

  unfoldable pub to_stop : Plan → Run (List String)
  to_stop plan = if config.stop_containers then stop_found plan.affected else finish []

  -- The candidate of the run, whose strategy is the configuration's.
  abbrev pub run_candidate : Plan → RestoreCandidate
  run_candidate plan = record {
    source = plan.candidate.source;
    strategy = config.backup_strategy;
    created_at = none;
    available = true;
    unavailable_reason = none;
  }

  -- What the `try` block and its `except` leave: the containers that were stopped, the download, and
  -- the result.
  pub record Attempt : Type 0 where
    pub stopped_containers : List String
    pub downloaded_path : Option String
    pub result : RestoreResult

  abbrev pub restore_failed : Exception → RestoreResult
  unfolding failure
  restore_failed e =
      failure config (joined_to "Restore failed: " e.message) []
        (or_else e.category "restore_failed")

  unfoldable pub after_restore :
      List String → String → Outcome RestoreResult × Trace → Attempt × Trace
  after_restore ids path (done r, u) =
      (record { stopped_containers = ids; downloaded_path = some path; result = r }, u)
  after_restore ids path (raised e, u) = (
    record { stopped_containers = ids; downloaded_path = some path; result = restore_failed e },
    u,
  )

  unfoldable pub after_download : Plan → List String → Outcome String × Trace → Attempt × Trace
  after_download plan ids (done path, u) =
      after_restore ids path (call (ports.restore path plan.policy) (restored path plan.policy) u)
  after_download plan ids (raised e, u) =
      (record { stopped_containers = ids; downloaded_path = none; result = restore_failed e }, u)

  unfoldable pub after_stop : Plan → Outcome (List String) × Trace → Attempt × Trace
  after_stop plan (done ids, u) =
      after_download plan ids
        (call (ports.download (run_candidate plan)) (downloaded (run_candidate plan)) u)
  after_stop plan (raised e, u) =
      (record { stopped_containers = []; downloaded_path = none; result = restore_failed e }, u)

  unfoldable pub attempt : Plan → Trace → Attempt × Trace
  unfolding failure
  attempt plan t = after_stop plan (to_stop plan t)

  abbrev pub is_remote : String → Bool
  is_remote source =
      starts_with (codes "s3://") (codes source)
      || (starts_with (codes "scp://") (codes source)
          || starts_with (codes "rclone://") (codes source))

  unfoldable pub cleaned_up : String → Outcome (Unit {0}) × Trace → Option String × Trace
  cleaned_up p (done _, u) = (none, u)
  cleaned_up p (raised e, u) = (
    some
        (joined_to "Restore download cleanup failed for " (joined_to p (joined_to ": " e.message))),
    u,
  )

  -- The clean-up of the `finally` block, with its error
  unfoldable pub clean_download : Plan → Option String → Trace → Option String × Trace
  clean_download plan path t = elim (given_text path) [
    | none ↦ (none, t)
    | some p ↦
        if is_remote plan.candidate.source
        then cleaned_up p (call (ports.cleanup p) (cleaned p) t)
        else (none, t)
  ]

  unfoldable pub restarted :
      String → List String → Outcome (Unit {0}) × Trace → Option String × Trace
  restarted id ids (done _, u) = (none, u)
  restarted id ids (raised e, u) = (
    some (
        joined_to "Cold restore container restart failed for "
          (joined_to (repr (id ∷ ids)) (joined_to ": " e.message))),
    u,
  )

  -- The restart of the `finally` block, with its error
  unfoldable pub restart_stopped : List String → Trace → Option String × Trace
  restart_stopped [] t = (none, t)
  restart_stopped (id ∷ ids) t =
      restarted id ids (call (ports.start_all (id ∷ ids)) (started (id ∷ ids)) t)

  abbrev pub error_list : Option String → List String
  error_list e = elim (given_text e) [ none ↦ [] | some s ↦ s ∷ [] ]

  abbrev pub restart_state : List String → Option String → Restart
  restart_state ids (some _) = failed
  restart_state [] none = not_requested
  restart_state (_ ∷ _) none = succeeded

  -- The result's fields at the end of `execute_restore`
  unfoldable pub completed : Plan → Attempt → Option String → Option String → RestoreResult
  completed plan a cleanup_error restart_error =
      let lifecycle = error_list cleanup_error ++ error_list restart_error in
      let ok = elim lifecycle as (λ _. Bool) [ [] ↦ a.result.success | (_ ∷ _) ↦ false ] in
      let state = or_else a.result.destructive_state (if ok then "complete" else "unknown") in
      record {
        success = ok;
        source = some plan.candidate.source;
        target_path = config.target_path;
        dry_run = false;
        force_overwrite = true;
        affected_containers = plan.affected;
        planned_actions = plan.actions ++ a.result.planned_actions;
        error = elim lifecycle as (λ _. Option String) [
          | [] ↦ a.result.error
          | (e ∷ es) ↦ some (joined_by "; " (error_list a.result.error ++ e ∷ es))
        ];
        category = if present restart_error then some "restart_failed" else a.result.category;
        destructive_state = some state;
        partial = str_eq state "partial" || str_eq state "unknown";
        restart = restart_state a.stopped_containers restart_error;
      }

  -- The run of an admitted plan
  unfoldable pub run_plan : Plan → Trace → RestoreResult × Trace
  run_plan plan t =
      let (a, t₁) = attempt plan t in
      let (cleanup_error, t₂) = clean_download plan a.downloaded_path t₁ in
      let (restart_error, t₃) = restart_stopped a.stopped_containers t₂ in
      (completed plan a cleanup_error restart_error, t₃)

  unfoldable pub admitted : Step Plan × Trace → RestoreResult × Trace
  admitted (stop_with result, u) = (result, u)
  admitted (go_on plan, u) = run_plan plan u

  -- `execute_restore`
  unfoldable pub execute_restore : Trace → RestoreResult × Trace
  unfolding admit
  execute_restore t = admitted (admit ports repr config t)
