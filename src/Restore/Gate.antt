-- ===== src/Restore/Gate.antt =====
-- That a restore changes nothing before all of its conditions hold.
use docker_volume_backup.Base.{
  done, raised, call, given_text, String, Bool, true, false, Option, none, some, List, [], ◌∷◌, ◌≡◌,
  refl, sym, ap, arith, any_of, All, if◌then◌else◌, Option-cases, inl, inr, ◌⊎◌,
}
use docker_volume_backup.RestoreOwnership.{
  good, Mode, preserve, map_ids, Confirmation, confirmed, declined, RestoreOwnershipPolicy,
  require_confirmation,
}
use docker_volume_backup.RestoreOwnership.Identity.{bind_good}
use docker_volume_backup.RestoreOwnership.Validity.{good-injective}
use docker_volume_backup.Restore.{
  RestoreConfig, RestoreResult, Event, candidates_listed, target_seen, candidate_inspected,
  runtime_volumes_searched, labels_searched, volume_searched, probed, stopped, downloaded, restored,
  cleaned, started, Trace, Outcome, Run, Ports, resolved_policy, Plan, Step, go_on, stop_with,
  admit, admitted, to_stop, stop_found, attempt, after_stop, after_download, after_restore,
  run_candidate, clean_download, cleaned_up, is_remote, restart_stopped, restarted, run_plan,
  execute_restore,
}
use docker_volume_backup.Restore.Harmless.{pick_both, is_destructive, is_destroyed, HasPolicy}
use docker_volume_backup.Restore.Admission.{IsAdmitted, AdmitEnd, admit_end}

module _ (ports : Ports) (repr : List String → String) (config : RestoreConfig) where
  -- A restore is made under the plan's policy.
  abbrev pub RestoresUnder : RestoreOwnershipPolicy → Event → Type 0
  RestoresUnder policy (restored _ p _) = p ≡ policy
  RestoresUnder policy (candidates_listed _) = Unit
  RestoresUnder policy (target_seen _ _) = Unit
  RestoresUnder policy (candidate_inspected _ _) = Unit
  RestoresUnder policy (runtime_volumes_searched _) = Unit
  RestoresUnder policy (labels_searched _ _) = Unit
  RestoresUnder policy (volume_searched _ _) = Unit
  RestoresUnder policy (probed _ _) = Unit
  RestoresUnder policy (stopped _ _) = Unit
  RestoresUnder policy (downloaded _ _) = Unit
  RestoresUnder policy (cleaned _ _) = Unit
  RestoresUnder policy (started _ _) = Unit

  abbrev AllUnder : RestoreOwnershipPolicy → Trace → Type 0
  AllUnder policy t = All (λ e. RestoresUnder policy e) t

  harmless_event :
      (policy : RestoreOwnershipPolicy) (e : Event)
      → is_destructive e ≡ false
      → RestoresUnder policy e
  unfolding is_destructive
  harmless_event policy (restored _ _ _) h = ground arith
  harmless_event policy (candidates_listed _) h = tt
  harmless_event policy (target_seen _ _) h = tt
  harmless_event policy (candidate_inspected _ _) h = tt
  harmless_event policy (runtime_volumes_searched _) h = tt
  harmless_event policy (labels_searched _ _) h = tt
  harmless_event policy (volume_searched _ _) h = tt
  harmless_event policy (probed _ _) h = tt
  harmless_event policy (stopped _ _) h = tt
  harmless_event policy (downloaded _ _) h = tt
  harmless_event policy (cleaned _ _) h = tt
  harmless_event policy (started _ _) h = tt

  if_false : (a b : Bool) → (if a then true else b) ≡ false → (a ≡ false) × (b ≡ false)
  if_false a b h = ground arith

  harmless_trace :
      (policy : RestoreOwnershipPolicy) (t : Trace) → is_destroyed t ≡ false → AllUnder policy t
  unfolding is_destroyed
  harmless_trace policy [] h = tt
  harmless_trace policy (e ∷ t) h =
      let (he, ht) = if_false (is_destructive e) (any_of is_destructive t) h in
      (harmless_event policy e he, harmless_trace policy t ht)

  stop_under :
      (plan : Plan) (t : Trace)
      → AllUnder plan.policy t
      → AllUnder plan.policy (to_stop ports repr config plan t).1
  unfolding to_stop stop_found
  stop_under plan t h =
      pick_both (λ (m : Run (List String)). AllUnder plan.policy (m t).1) config.stop_containers _ _
        (λ _. found plan.affected) (λ _. h)
    where
      found : (ids : List String) → AllUnder plan.policy (stop_found ports repr config ids t).1
      found [] = h
      found (id ∷ ids) = (tt, h)

  attempt_under :
      (plan : Plan) (t : Trace)
      → AllUnder plan.policy t
      → AllUnder plan.policy (attempt ports repr config plan t).1
  unfolding attempt after_stop after_download after_restore
  attempt_under plan t h = after (to_stop ports repr config plan t) (stop_under plan t h)
    where
      under_restore :
          (ids : List String) (path : String) (r : Outcome RestoreResult × Trace)
          → AllUnder plan.policy r.1
          → AllUnder plan.policy (after_restore ports repr config ids path r).1
      under_restore ids path (done r, u) k = k
      under_restore ids path (raised e, u) k = k

      under_download :
          (ids : List String) (r : Outcome String × Trace)
          → AllUnder plan.policy r.1
          → AllUnder plan.policy (after_download ports repr config plan ids r).1
      under_download ids (done path, u) k =
          under_restore ids path
            (call (ports.restore path plan.policy) (restored path plan.policy) u) (refl, k)
      under_download ids (raised e, u) k = k

      after :
          (r : Outcome (List String) × Trace)
          → AllUnder plan.policy r.1
          → AllUnder plan.policy (after_stop ports repr config plan r).1
      after (done ids, u) k =
          under_download ids
            (call (ports.download (run_candidate ports repr config plan))
              (downloaded (run_candidate ports repr config plan)) u)
            (tt, k)
      after (raised e, u) k = k

  clean_under :
      (plan : Plan) (path : Option String) (t : Trace)
      → AllUnder plan.policy t
      → AllUnder plan.policy (clean_download ports repr config plan path t).1
  unfolding clean_download cleaned_up
  clean_under plan path t h = elim (Option-cases (given_text path)) [
    | inl e ↦ rw (e, clean_download) h
    | inr (p, e) ↦
        rw (e, clean_download)
          (pick_both (λ (r : Option String × Trace). AllUnder plan.policy r.1)
            (is_remote ports repr config plan.candidate.source) _ _
            (λ _. cleaned_under p (ports.cleanup p t)) (λ _. h))
  ]
    where
      cleaned_under :
          (p : String) (o : Outcome (Unit {0}))
          → AllUnder plan.policy (cleaned_up ports repr config p (o, cleaned p o ∷ t)).1
      cleaned_under p (done u) = (tt, h)
      cleaned_under p (raised e) = (tt, h)

  restart_under :
      (policy : RestoreOwnershipPolicy) (ids : List String) (t : Trace)
      → AllUnder policy t
      → AllUnder policy (restart_stopped ports repr config ids t).1
  unfolding restart_stopped restarted
  restart_under policy [] t h = h
  restart_under policy (id ∷ ids) t h = go (ports.start_all (id ∷ ids) t)
    where
      go :
          (o : Outcome (Unit {0}))
          → AllUnder policy (restarted ports repr config id ids (o, started (id ∷ ids) o ∷ t)).1
      go (done u) = (tt, h)
      go (raised e) = (tt, h)

  run_under :
      (plan : Plan) (t : Trace)
      → AllUnder plan.policy t
      → AllUnder plan.policy (run_plan ports repr config plan t).1
  unfolding run_plan
  run_under plan t h =
      let a = attempt ports repr config plan t in
      let c = clean_download ports repr config plan a.0.downloaded_path a.1 in
      restart_under plan.policy a.0.stopped_containers c.1
        (clean_under plan a.0.downloaded_path a.1 (attempt_under plan t h))

  -- The policy preserves the owners, or is confirmed.
  abbrev pub IsSafe : RestoreOwnershipPolicy → Type 0
  IsSafe policy = (policy.mode ≡ preserve) ⊎ (policy.confirmation ≡ some confirmed)

  require_confirmation-IsSafe :
      (q p : RestoreOwnershipPolicy) → require_confirmation q ≡ good p → IsSafe p
  unfolding require_confirmation
  require_confirmation-IsSafe q p h = go q.mode q.confirmation h
    where
      go :
          (m : Mode) (c : Option Confirmation)
          → require_confirmation (record q { mode = m; confirmation = c }) ≡ good p
          → IsSafe p
      go m (some confirmed) e = inr (
          sym (
            ap (λ r. r.confirmation)
              (good-injective (record q { mode = m; confirmation = some confirmed }) p e)))
      go m (some declined) e = ground arith
      go preserve none e = inl (
          sym (
            ap (λ r. r.mode)
              (good-injective (record q { mode = preserve; confirmation = none }) p e)))
      go map_ids none e = ground arith

  policy-IsSafe : (plan : Plan) → HasPolicy ports config plan → IsSafe plan.policy
  unfolding resolved_policy
  policy-IsSafe plan h =
      let (q, _, e) = bind_good _ (λ policy. require_confirmation policy) plan.policy h in
      require_confirmation-IsSafe q plan.policy e

  finish_end :
      (r : Step Plan × Trace)
      → AdmitEnd ports repr config r
      → is_destroyed (admitted ports repr config r).1 ≡ true
      → (plan : Plan) × IsAdmitted ports repr config plan
        × IsSafe plan.policy
        × AllUnder plan.policy (admitted ports repr config r).1
  unfolding admitted
  finish_end (stop_with result, t) h d = ground (arith, h.0, d)
  finish_end (go_on plan, t) h d = (
    plan,
    h.1,
    policy-IsSafe plan h.1.has_policy,
    run_under plan t (harmless_trace plan.policy t h.0),
  )

  -- Let a restore stop or start a container, download, clean up or restore anything. Then it is no dry run,
  -- overwriting was forced, a native restore was not to stop containers, the ownership policy of the
  -- three layers was resolved and preserves the owners or is confirmed, and the capability gate was
  -- ready for it; and whatever is restored is restored under this policy.
  pub restore_is_guarded :
      is_destroyed (execute_restore ports repr config []).1 ≡ true
      → (plan : Plan) × IsAdmitted ports repr config plan
        × IsSafe plan.policy
        × AllUnder plan.policy (execute_restore ports repr config []).1
  unfolding execute_restore
  restore_is_guarded d = finish_end (admit ports repr config []) (admit_end ports repr config) d
