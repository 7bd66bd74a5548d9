-- ===== src/Restore/Admission.antt =====
-- What holds of a plan that is admitted.
use docker_volume_backup.Base.{
  done, raised, String, true, false, not, ◌&&◌, ◌||◌, List, [], ◌∷◌, ◌≡◌, refl, ◌∙◌, arith, str_eq,
}
use docker_volume_backup.RestoreOwnership.{RestoreOwnershipPolicy, is_preserve, has_mappings}
use docker_volume_backup.Restore.{
  RestoreConfig, Capability, probed, Trace, Outcome, Ports, is_chown, is_layout, is_native_restore,
  Plan, Step, go_on, stop_with, plan_steps, caught, plan_restore, capability_gate, gate_answer,
  is_ready, planned, gated, admit, admitted,
}
use docker_volume_backup.Restore.Harmless.{
  pick, pick_both, is_destructive, is_destroyed, EndsIn, HasPolicy, plan_steps_end,
}

module _ (ports : Ports) (repr : List String → String) (config : RestoreConfig) where
  abbrev PlanEnd : Step Plan × Trace → Type 0
  PlanEnd (go_on plan, t) = (is_destroyed t ≡ false) × HasPolicy ports config plan
  PlanEnd (stop_with _, t) = (is_destroyed t ≡ false) × Unit {0}

  caught_end :
      (r : Outcome Plan × Trace)
      → EndsIn (HasPolicy ports config) [] r
      → PlanEnd (caught ports repr config r)
  unfolding caught is_destroyed
  caught_end (done plan, t) h = h
  caught_end (raised e, t) h = h

  plan_restore_end : PlanEnd (plan_restore ports repr config [])
  unfolding plan_restore is_destroyed
  plan_restore_end =
      pick PlanEnd (str_eq config.target_path "") _ _ (refl, tt)
        (λ _.
          pick PlanEnd (not (is_chown config.chown)) _ _ (refl, tt)
            (λ _.
              pick PlanEnd (not (is_layout config)) _ _ (refl, tt)
                (λ _. caught_end (plan_steps ports config []) (plan_steps_end ports config []))))

  -- All that must hold before a restore changes anything.
  pub record IsAdmitted (plan : Plan) : Type 0 where
    pub no_dry_run : config.dry_run ≡ false
    pub forced : config.force_overwrite ≡ true
    pub no_native_stop : (is_native_restore config && config.stop_containers) ≡ false
    pub has_policy : HasPolicy ports config plan
    pub asked_at : Trace
    pub ready :
        is_ready ports repr config (capability_gate ports repr config plan.policy asked_at).0 ≡ true

  abbrev pub AdmitEnd : Step Plan × Trace → Type 0
  AdmitEnd (go_on plan, t) = (is_destroyed t ≡ false) × IsAdmitted plan
  AdmitEnd (stop_with _, t) = (is_destroyed t ≡ false) × Unit {0}

  gate-IsHarmless :
      (policy : RestoreOwnershipPolicy) (t : Trace)
      → is_destroyed (capability_gate ports repr config policy t).1 ≡ is_destroyed t
  unfolding capability_gate is_destroyed is_destructive
  gate-IsHarmless policy t =
      pick (λ (r : Capability × Trace). is_destroyed r.1 ≡ is_destroyed t)
        (is_preserve policy.mode || not (has_mappings policy.mappings policy.default_mapping)) _ _
        refl (λ _. answered (ports.probe policy t))
    where
      answered :
          (o : Outcome Capability)
          → is_destroyed (gate_answer ports repr config (o, probed policy o ∷ t)).1 ≡ is_destroyed t
      answered (done c) = refl
      answered (raised e) = refl

  gated_end :
      (plan : Plan) (r : Capability × Trace)
      → is_destroyed r.1 ≡ false
      → (is_ready ports repr config r.0 ≡ true → IsAdmitted plan)
      → AdmitEnd (gated ports repr config plan r)
  unfolding gated
  gated_end plan (c, t) h admitted =
      pick_both AdmitEnd (is_ready ports repr config c) _ _ (λ e. (h, admitted e)) (λ _. (h, tt))

  planned_end : (r : Step Plan × Trace) → PlanEnd r → AdmitEnd (planned ports repr config r)
  unfolding planned
  planned_end (stop_with _, t) h = h
  planned_end (go_on plan, t) h =
      pick AdmitEnd config.dry_run _ _ (h.0, tt)
        (λ dry.
          pick AdmitEnd (is_native_restore config && config.stop_containers) _ _ (h.0, tt)
            (λ native.
              pick AdmitEnd (not config.force_overwrite) _ _ (h.0, tt)
                (λ forced.
                  gated_end plan (capability_gate ports repr config plan.policy t)
                    (gate-IsHarmless plan.policy t ∙ h.0)
                    (λ ready. record {
                      no_dry_run = dry;
                      forced = ground (arith, forced);
                      no_native_stop = native;
                      has_policy = h.1;
                      asked_at = t;
                      ready = ready;
                    }))))

  pub admit_end : AdmitEnd (admit ports repr config [])
  unfolding admit
  admit_end = planned_end (plan_restore ports repr config []) plan_restore_end
