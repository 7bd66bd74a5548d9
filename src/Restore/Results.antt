-- ===== src/Restore/Results.antt =====
-- `_failure`, `_planned_actions` and `plan_restore`.
use docker_volume_backup.Base.{
  done, raised, finish, ◌>>>=◌, String, false, not, ◌||◌, some, List, [], ◌∷◌, ◌++◌, or_else,
  str_eq, joined_to, if◌then◌else◌,
}
use docker_volume_backup.RestoreOwnership.{RestoreOwnershipPolicy, is_preserve}
use docker_volume_backup.Restore.Defs.{
  RestoreConfig, RestoreCandidate, RestoreResult, not_requested, Trace, Outcome, Run, Ports,
}
use docker_volume_backup.Restore.Planning.{
  is_chown, is_layout, layout_of, joined_by, select_candidate, resolve_policy, inspect_target,
  inspect_candidate, find_affected_containers,
}

-- `_failure`
unfoldable pub failure : RestoreConfig → String → List String → String → RestoreResult
failure config message planned_actions category = record {
  success = false;
  source = config.source;
  target_path = config.target_path;
  dry_run = config.dry_run;
  force_overwrite = config.force_overwrite;
  affected_containers = [];
  planned_actions = planned_actions;
  error = some message;
  category = some category;
  destructive_state = some "none";
  partial = false;
  restart = not_requested;
}

-- `_planned_actions`
unfoldable pub planned_actions_of :
    RestoreConfig → RestoreOwnershipPolicy → RestoreCandidate → List String → List String
planned_actions_of config policy candidate affected =
    let layout = layout_of config in
    (joined_to "Select restore source: " candidate.source
      ∷ joined_to "Target path: " config.target_path
      ∷ joined_to "Restore layout: " (or_else config.layout "None")
      ∷ "Replace target contents before restore (no merge)"
      ∷ joined_to "Restore strategy: " candidate.strategy
      ∷ [])
    ++ (if str_eq layout "auto" || str_eq layout "backup-dir"
        then "When target points to /backup, match backup subdirectories by name and restore them in place"
          ∷ []
        else [])
    ++ (listed affected ∷ [])
    ++ (if config.stop_containers
        then "Stop affected containers before restore and restart them afterwards" ∷ []
        else [])
    ++ (if is_preserve policy.mode
        then "Preserve restored ownership; no inferred runtime mapping will be applied" ∷ []
        else "Require confirmed ownership mapping and capability verification before clearing" ∷ [])
  where
    listed : List String → String
    listed [] = "Affected containers: none detected"
    listed (id ∷ ids) = joined_to "Affected containers: " (joined_by ", " (id ∷ ids))

-- What a plan that succeeds settles.
pub record Plan : Type 0 where
  pub candidate : RestoreCandidate
  pub policy : RestoreOwnershipPolicy
  pub affected : List String
  pub actions : List String

-- A step's answer, or the result that ends the run.
pub data Step (A : Type 0) : Type 0 where
  go_on : A → Step A
  stop_with : RestoreResult → Step A

module _ (ports : Ports) (config : RestoreConfig) where
  -- The `try` block of `plan_restore` once the candidate and the policy are known
  unfoldable pub plan_with : RestoreCandidate → RestoreOwnershipPolicy → Run Plan
  unfolding inspect_target inspect_candidate find_affected_containers planned_actions_of
  plan_with candidate policy = inspect_target ports config >>>= λ _.
      inspect_candidate ports config candidate >>>= λ _.
      find_affected_containers ports config >>>= λ affected. finish (record {
        candidate = candidate;
        policy = policy;
        affected = affected;
        actions = planned_actions_of config policy candidate affected;
      })

  -- The `try` block of `plan_restore`
  unfoldable pub plan_steps : Run Plan
  unfolding select_candidate resolve_policy plan_with
  plan_steps = select_candidate ports config >>>= λ candidate.
      resolve_policy ports config >>>= λ policy. plan_with candidate policy

module _ (ports : Ports) (repr : List String → String) (config : RestoreConfig) where
  unfoldable pub caught : Outcome Plan × Trace → Step Plan × Trace
  unfolding failure
  caught (done plan, t) = (go_on plan, t)
  caught (raised e, t) =
      (stop_with (failure config e.message [] (or_else e.category "restore_failed")), t)

  -- `plan_restore`, with what it leaves in the service
  unfoldable pub plan_restore : Trace → Step Plan × Trace
  unfolding plan_steps caught failure is_chown is_layout
  plan_restore t =
      if str_eq config.target_path ""
      then (
        stop_with (
            failure config "RESTORE_TARGET_PATH is required before restore can run" []
              "restore_failed"),
        t,
      )
      else if not (is_chown config.chown)
      then (
        stop_with (
            failure config "RESTORE_CHOWN must be numeric uid:gid, for example 1000:1000" []
              "restore_failed"),
        t,
      )
      else if not (is_layout config)
      then (
        stop_with (
            failure config "RESTORE_LAYOUT must be one of: auto, direct, backup-dir" []
              "restore_failed"),
        t,
      )
      else caught (plan_steps ports config t)
