-- ===== src/Restore/Conditions.antt =====
-- `_capability_gate`, and the conditions of `execute_restore`.
use docker_volume_backup.Base.{
  done, raised, call, given_text, String, Bool, true, false, not, ◌&&◌, ◌||◌, none, some, List,
  or_else, str_eq, joined_to, if◌then◌else◌,
}
use docker_volume_backup.RestoreOwnership.{RestoreOwnershipPolicy, is_preserve, has_mappings}
use docker_volume_backup.Restore.Defs.{
  RestoreConfig, RestoreResult, not_requested, Exception, Capability, probed, Trace, Outcome, Ports,
}
use docker_volume_backup.Restore.Planning.{is_native_restore}
use docker_volume_backup.Restore.Results.{failure, Plan, Step, go_on, stop_with, plan_restore}

module _ (ports : Ports) (repr : List String → String) (config : RestoreConfig) where
  -- The result of `plan_restore` itself.
  abbrev pub plan_result : Plan → RestoreResult
  plan_result plan = record {
    success = true;
    source = some plan.candidate.source;
    target_path = config.target_path;
    dry_run = config.dry_run;
    force_overwrite = config.force_overwrite;
    affected_containers = plan.affected;
    planned_actions = plan.actions;
    error = none;
    category = some "ok";
    destructive_state = some "none";
    partial = false;
    restart = not_requested;
  }

  abbrev pub not_asked : Capability
  not_asked = record { state = "not_requested"; category = some "not_requested"; detail = none }

  abbrev pub unknown_capability : Exception → Capability
  unknown_capability e = record {
    state = "unknown";
    category = some "ownership_capability_unknown";
    detail = some e.message;
  }

  unfoldable pub gate_answer : Outcome Capability × Trace → Capability × Trace
  gate_answer (done c, u) = (c, u)
  gate_answer (raised e, u) = (unknown_capability e, u)

  -- `_capability_gate`; an exception of the probe is caught there.
  unfoldable pub capability_gate : RestoreOwnershipPolicy → Trace → Capability × Trace
  unfolding gate_answer
  capability_gate policy t =
      if is_preserve policy.mode || not (has_mappings policy.mappings policy.default_mapping)
      then (not_asked, t)
      else gate_answer (call (ports.probe policy) (probed policy) t)

  abbrev pub is_ready : Capability → Bool
  is_ready c = str_eq c.state "ready" || str_eq c.state "not_requested"

  abbrev pub blocked : Plan → Capability → RestoreResult
  unfolding failure
  blocked plan c =
      let detail =
        or_else (given_text c.detail) (or_else c.category "ownership capability unavailable") in
      failure config (joined_to "Restore blocked before clearing: " detail) plan.actions
        (or_else c.category "ownership_capability_unknown")

  -- The end of `execute_restore`'s conditions, for a plan
  unfoldable pub gated : Plan → Capability × Trace → Step Plan × Trace
  gated plan (c, u) = if is_ready c then (go_on plan, u) else (stop_with (blocked plan c), u)

  -- The conditions of `execute_restore` after its plan
  unfoldable pub planned : Step Plan × Trace → Step Plan × Trace
  unfolding gated capability_gate failure is_native_restore
  planned (stop_with result, u) = (stop_with result, u)
  planned (go_on plan, u) =
      if config.dry_run
      then (stop_with (plan_result plan), u)
      else if is_native_restore config && config.stop_containers
      then (
        stop_with (
            failure config "native restore must not stop containers" plan.actions
              "unsupported_native_stop_containers"),
        u,
      )
      else if not config.force_overwrite
      then (
        stop_with (
            failure config
              "Actual restore replaces target contents and requires RESTORE_FORCE_OVERWRITE=true. Run with RESTORE_DRY_RUN=true to preview or set force only after verifying the target."
              plan.actions "restore_failed"),
        u,
      )
      else gated plan (capability_gate plan.policy u)

  -- What `execute_restore` asks before it changes anything.
  unfoldable pub admit : Trace → Step Plan × Trace
  unfolding plan_restore planned
  admit t = planned (plan_restore ports repr config t)
