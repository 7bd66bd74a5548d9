-- ===== src/Backup/Tried.antt =====
-- What is known of a run after its `try` block.
use docker_volume_backup.Base.{
  done, raised, and_then, call, append_nil, ℕ, String, Bool, true, false, not, Option, none, some,
  List, [], ◌∷◌, ◌++◌, ◌≡◌, refl, ap, ◌∙◌, arith, Bool-cases, inl, inr,
}
use docker_volume_backup.Backup.{
  BackupConfig, ContainerConfig, BackupResult, Outcome, stopped, performed, Trace, Ports, list_by,
  stop_phase, stop_found, perform_phase, before_phase, after_phase, failed_with, Attempt, ended,
  backed_up, all_stopped, attempt, excepted,
}
use docker_volume_backup.Backup.Quiet.{
  left_stopped, has_failed, QuietEnd, list_by-IsQuiet, before_phase-IsQuiet, after_phase-IsQuiet,
}

-- Whether there is a result that says success.
abbrev pub succeeded : Option BackupResult → Bool
succeeded none = false
succeeded (some result) = result.success

module _ (ports : Ports) (repr : List String → String) (config : BackupConfig)
    (containers : ContainerConfig) (now : ℕ) where
  abbrev pub outcome_of : Attempt → Option BackupResult
  outcome_of a = excepted ports repr config containers now a

  -- What is known after the `try` block: the containers that it stopped are those left stopped, and
  -- its outcome says success where nothing failed.
  abbrev pub AttemptEnd : Attempt × Trace → Type 0
  AttemptEnd (a, t) =
      (left_stopped t ≡ a.stopped_containers) × (has_failed t ≡ not (succeeded (outcome_of a)))

  ended-facts :
      (ids : List String) (result : Option BackupResult) (t : Trace)
      (r : Outcome (Unit {0}) × Trace)
      → left_stopped t ≡ ids
      → has_failed t ≡ not (succeeded result)
      → QuietEnd t r
      → AttemptEnd (ended ports repr config containers now ids result r)
  unfolding failed_with
  ended-facts ids result t (done u, t') hl hf h = (h.0 ∙ hl, h.1 ∙ hf)
  ended-facts ids none t (raised e, t') hl hf h = (h.0 ∙ hl, h.1)
  ended-facts ids (some result) t (raised e, t') hl hf h = (h.0 ∙ hl, h.1)

  outcome-facts :
      (t : Trace) (o : Outcome (Option BackupResult)) (ids : List String)
      → left_stopped t ≡ ids
      → has_failed t ≡ false
      → AttemptEnd (backed_up ports repr config containers now ids (o, performed o ∷ t))
  unfolding backed_up failed_with left_stopped has_failed
  outcome-facts t (raised e) ids hl hf = (hl, refl)
  outcome-facts t (done none) ids hl hf =
      ended-facts ids none (performed (done none) ∷ t)
        (after_phase ports repr config containers now (performed (done none) ∷ t)) hl refl
        (after_phase-IsQuiet ports repr config containers now (performed (done none) ∷ t))
  outcome-facts t (done (some result)) ids hl hf =
      ended-facts ids (some result) (performed (done (some result)) ∷ t)
        (after_phase ports repr config containers now (performed (done (some result)) ∷ t)) hl
        (ground (arith, hf))
        (after_phase-IsQuiet ports repr config containers now (performed (done (some result)) ∷ t))

  performed-facts :
      (t : Trace) (r : Outcome (Unit {0}) × Trace) (ids : List String)
      → left_stopped t ≡ ids
      → has_failed t ≡ false
      → QuietEnd t r
      → AttemptEnd (
          backed_up ports repr config containers now ids
            (and_then (λ _. call ports.perform_backup performed) r))
  unfolding backed_up failed_with
  performed-facts t (raised e, t') ids hl hf h = (h.0 ∙ hl, h.1)
  performed-facts t (done u, t') ids hl hf h =
      outcome-facts t' (ports.perform_backup t') ids (h.0 ∙ hl) (h.1 ∙ hf)

  -- What is known once the containers are stopped.
  abbrev StopEnd : Outcome (List String) × Trace → Type 0
  StopEnd (done ids, t) = (left_stopped t ≡ ids) × (has_failed t ≡ false)
  StopEnd (raised _, t) = (left_stopped t ≡ []) × (has_failed t ≡ true)

  stopped-facts :
      (t : Trace) (ids : List String) (o : Outcome (List String))
      → left_stopped t ≡ []
      → has_failed t ≡ false
      → StopEnd (o, stopped ids o ∷ t)
  unfolding left_stopped has_failed
  stopped-facts t ids (done these) hl hf = (ap (λ r. these ++ r) hl ∙ append_nil these, hf)
  stopped-facts t ids (raised e) hl hf = (hl, refl)

  stop_some :
      (t : Trace) (r : Outcome (List String) × Trace)
      → left_stopped t ≡ []
      → has_failed t ≡ false
      → QuietEnd t r
      → StopEnd (and_then (λ ids. stop_found ports repr config containers now ids) r)
  unfolding stop_found
  stop_some t (raised e, t') hl hf h = (h.0 ∙ hl, h.1)
  stop_some t (done [], t') hl hf h = (h.0 ∙ hl, h.1 ∙ hf)
  stop_some t (done (id ∷ ids), t') hl hf h =
      stopped-facts t' (id ∷ ids) (ports.stop_all (id ∷ ids) t') (h.0 ∙ hl) (h.1 ∙ hf)

  stop_phase-facts :
      (t : Trace)
      → left_stopped t ≡ []
      → has_failed t ≡ false
      → StopEnd (stop_phase ports repr config containers now t)
  unfolding stop_phase
  stop_phase-facts t hl hf = elim (Bool-cases containers.stop_containers) [
    | inl e ↦
        rw (e, stop_phase)
          (stop_some t (list_by ports repr config containers now containers.stop_label t) hl hf
            (list_by-IsQuiet ports repr config containers now containers.stop_label t))
    | inr e ↦ rw (e, stop_phase) (hl, hf)
  ]

  all_stopped-facts :
      (r : Outcome (List String) × Trace)
      → StopEnd r
      → AttemptEnd (all_stopped ports repr config containers now r)
  unfolding all_stopped perform_phase failed_with
  all_stopped-facts (raised e, t) h = h
  all_stopped-facts (done ids, t) h =
      performed-facts t (before_phase ports repr config containers now t) ids h.0 h.1
        (before_phase-IsQuiet ports repr config containers now t)

  pub attempt-facts :
      (t : Trace)
      → left_stopped t ≡ []
      → has_failed t ≡ false
      → AttemptEnd (attempt ports repr config containers now t)
  unfolding attempt
  attempt-facts t hl hf =
      all_stopped-facts (stop_phase ports repr config containers now t) (stop_phase-facts t hl hf)
