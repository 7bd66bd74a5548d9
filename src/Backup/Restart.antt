-- ===== src/Backup/Restart.antt =====
-- That a backup run starts again what it stopped, and hides no failure.
use docker_volume_backup.Base.{
  done, raised, and_then, finish, given_text, Raising-cases, append_assoc, ℕ, String, true, false,
  not, Option, none, some, List, [], ◌∷◌, ◌++◌, ◌≡◌, refl, ap, ◌∙◌, subst, arith, any_of, str_eq,
  str_eq_refl, Option-cases, Bool-cases, inl, inr, or_else,
}
use docker_volume_backup.Backup.{
  BackupConfig, ContainerConfig, BackupResult, Outcome, uploaded, metrics_sent, Trace, Ports,
  failed_with, attempt, restart_phase, no_result, clean_phase, upload_artifact, upload_phase,
  metrics_phase, execute_backup,
}
use docker_volume_backup.Backup.Quiet.{without, left_stopped, has_failed}
use docker_volume_backup.Backup.Tried.{succeeded, outcome_of, attempt-facts}

any_of-middle :
    (xs : List String) (y : String) (zs : List String)
    → any_of (λ id. str_eq y id) (xs ++ y ∷ zs) ≡ true
any_of-middle [] y zs = rw (str_eq_refl y) refl
any_of-middle (x ∷ xs) y zs = ground (arith, any_of-middle xs y zs)

without_some : (xs ys : List String) → without (xs ++ ys) ys ≡ []
without_some xs [] = refl
without_some xs (y ∷ ys) =
    let rest : without (xs ++ y ∷ ys) ys ≡ [] =
      subst (λ r. without r ys ≡ []) (append_assoc xs y ys) (without_some (xs ++ y ∷ []) ys) in
    rw (any_of-middle xs y ys) rest

failed_again :
    (now : ℕ) (r : Option BackupResult) (e : String)
    → true ≡ not (succeeded (some (failed_with now r e)))
unfolding failed_with
failed_again now none e = refl
failed_again now (some r) e = refl

module _ (ports : Ports) (repr : List String → String) (config : BackupConfig)
    (containers : ContainerConfig) (now : ℕ) where
  -- After the `finally` block and later nothing is left stopped.
  abbrev pub Settled : BackupResult × Trace → Type 0
  Settled (result, t) = (left_stopped t ≡ []) × (has_failed t ≡ not result.success)

  restart-facts :
      (ids : List String) (result : Option BackupResult) (t : Trace)
      → left_stopped t ≡ ids
      → has_failed t ≡ not (succeeded result)
      → (left_stopped (restart_phase ports repr config containers now ids result t).1 ≡ [])
        × (has_failed (restart_phase ports repr config containers now ids result t).1
            ≡ not (succeeded (restart_phase ports repr config containers now ids result t).0))
  unfolding restart_phase failed_with left_stopped has_failed
  restart-facts [] result t hl hf = (hl, hf)
  restart-facts (id ∷ ids) result t hl hf = elim (Raising-cases (ports.start_all (id ∷ ids) t)) [
    | inl (u, e) ↦ rw (e, restart_phase) (nothing_left, hf)
    | inr (x, e) ↦ rw (e, restart_phase) (nothing_left, failed_again now result _)
  ]
    where
      nothing_left : without (id ∷ ids) (left_stopped t) ≡ []
      nothing_left = ap (λ r. without (id ∷ ids) r) hl ∙ without_some [] (id ∷ ids)

  clean-facts :
      (path : String) (result : BackupResult) (t : Trace)
      → Settled (result, t)
      → Settled (clean_phase ports repr config containers now path result t)
  unfolding clean_phase left_stopped has_failed
  clean-facts path result t h = elim (Raising-cases (ports.cleanup path t)) [
    | inl (u, e) ↦ rw (e, clean_phase) h
    | inr (x, e) ↦ rw (e, clean_phase) (h.0, refl)
  ]

  upload_artifact-facts :
      (path : String) (result : BackupResult) (t : Trace)
      → Settled (result, t)
      → Settled (upload_artifact ports repr config containers now path result t)
  unfolding upload_artifact left_stopped has_failed
  upload_artifact-facts path result t h = elim (Raising-cases (ports.upload path t)) [
    | inl (true, e) ↦
        rw (e, upload_artifact) (clean-facts path result (uploaded path (done true) ∷ t) h)
    | inl (false, e) ↦ rw (e, upload_artifact) (h.0, refl)
    | inr (x, e) ↦ rw (e, upload_artifact) (h.0, refl)
  ]

  upload-facts :
      (result : BackupResult) (t : Trace)
      → Settled (result, t)
      → Settled (upload_phase ports repr config containers now result t)
  unfolding upload_phase
  upload-facts result t h = elim (Bool-cases result.success) [
    | inl e ↦ elim (Option-cases (given_text result.artifact_path)) [
      | inl g ↦ rw (e, upload_phase) (rw (g, upload_phase) h)
      | inr (path, g) ↦
          rw (e, upload_phase) (rw (g, upload_phase) (upload_artifact-facts path result t h))
    ]
    | inr e ↦ rw (e, upload_phase) (h.0, h.1 ∙ ap (λ b. not b) e)
  ]

  -- What is known at the end: that of the result, or that the metrics were not sent.
  abbrev pub RunEnd : Outcome BackupResult × Trace → Type 0
  RunEnd (done result, t) = Settled (result, t)
  RunEnd (raised _, t) = left_stopped t ≡ []

  metrics-facts :
      (result : BackupResult) (t : Trace)
      → Settled (result, t)
      → RunEnd (metrics_phase ports repr config containers now result t)
  unfolding left_stopped has_failed
  metrics-facts result t h = go (ports.send_metrics result t)
    where
      go :
          (o : Outcome (Unit {0}))
          → RunEnd (and_then (λ _. finish result) (o, metrics_sent result o ∷ t))
      go (done u) = h
      go (raised e) = h.0

  some_result :
      (r : Option BackupResult) (t : Trace)
      → left_stopped t ≡ []
      → has_failed t ≡ not (succeeded r)
      → Settled (or_else r (no_result ports repr config containers now), t)
  unfolding failed_with
  some_result none t hl hf = (hl, hf)
  some_result (some result) t hl hf = (hl, hf)

  nothing_yet : (left_stopped [] ≡ []) × (has_failed [] ≡ false)
  unfolding left_stopped has_failed
  nothing_yet = (refl, refl)

  -- Whatever the ports answer, and wherever they raise, a backup run leaves no container stopped that
  -- was reported to it as stopped, without asking for its start after that; and the result that it
  -- returns says success exactly where no call failed: none raised, the backup itself gave a result
  -- that said success, and no upload answered `False`.
  pub backup_restarts_and_reports : RunEnd (execute_backup ports repr config containers now [])
  unfolding execute_backup
  backup_restarts_and_reports =
      let tried = attempt ports repr config containers now [] in
      let h₁ = attempt-facts ports repr config containers now [] nothing_yet.0 nothing_yet.1 in
      let again =
        restart_phase ports repr config containers now tried.0.stopped_containers
          (outcome_of ports repr config containers now tried.0) tried.1 in
      let h₂ =
        restart-facts tried.0.stopped_containers
          (outcome_of ports repr config containers now tried.0) tried.1 h₁.0 h₁.1 in
      let result = or_else again.0 (no_result ports repr config containers now) in
      let sent = upload_phase ports repr config containers now result again.1 in
      metrics-facts sent.0 sent.1
        (upload-facts result again.1 (some_result again.0 again.1 h₂.0 h₂.1))
