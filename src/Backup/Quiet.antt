-- ===== src/Backup/Quiet.antt =====
-- What a trace says of the containers and of failures, and the pieces of a run that stop and start
-- nothing.
use docker_volume_backup.Base.{
  done, raised, and_then, finish, call, given_text, ◌>>>=◌, ℕ, String, Bool, true, false, not,
  Option, none, some, List, [], ◌∷◌, ◌++◌, ◌≡◌, refl, ap, ◌∙◌, any_of, keep_if, str_eq,
  if◌then◌else◌, Option-cases, inl, inr,
}
use docker_volume_backup.Backup.{
  BackupConfig, ContainerConfig, Outcome, Event, listed, stopped, started, label_read, executed,
  command_run, performed, uploaded, cleaned, metrics_sent, Trace, Ports, Run, when_given,
  filter_labels, exec_labelled, run_global, list_by, before_phase, after_phase,
}

-- The list without the elements of another.
abbrev pub without : List String → List String → List String
without ids xs = keep_if (λ x. not (any_of (λ id. str_eq x id) ids)) xs

-- The containers that were reported as stopped, and whose start was not asked for since.
unfoldable pub left_stopped : Trace → List String
left_stopped [] = []
left_stopped (stopped _ (done ids) ∷ t) = ids ++ left_stopped t
left_stopped (stopped _ (raised _) ∷ t) = left_stopped t
left_stopped (started ids _ ∷ t) = without ids (left_stopped t)
left_stopped (listed _ _ ∷ t) = left_stopped t
left_stopped (label_read _ _ _ ∷ t) = left_stopped t
left_stopped (executed _ _ _ ∷ t) = left_stopped t
left_stopped (command_run _ _ ∷ t) = left_stopped t
left_stopped (performed _ ∷ t) = left_stopped t
left_stopped (uploaded _ _ ∷ t) = left_stopped t
left_stopped (cleaned _ _ ∷ t) = left_stopped t
left_stopped (metrics_sent _ _ ∷ t) = left_stopped t

abbrev pub is_raised {ℓ} : {A : Type ℓ} → Outcome A → Bool
is_raised (done _) = false
is_raised (raised _) = true

-- An exception, a backup without a result or without success, or an upload that answers `False`.
unfoldable pub is_failure : Event → Bool
is_failure (listed _ o) = is_raised o
is_failure (stopped _ o) = is_raised o
is_failure (started _ o) = is_raised o
is_failure (label_read _ _ o) = is_raised o
is_failure (executed _ _ o) = is_raised o
is_failure (command_run _ o) = is_raised o
is_failure (performed (done none)) = true
is_failure (performed (done (some result))) = not result.success
is_failure (performed (raised _)) = true
is_failure (uploaded _ (done ok)) = not ok
is_failure (uploaded _ (raised _)) = true
is_failure (cleaned _ o) = is_raised o
is_failure (metrics_sent _ o) = is_raised o

unfoldable pub has_failed : Trace → Bool
unfolding is_failure
has_failed t = any_of is_failure t

-- What a piece leaves that stops and starts nothing, and raises every failure.
abbrev pub QuietEnd {ℓ} : {A : Type ℓ} → Trace → Outcome A × Trace → Type 0
QuietEnd t (o, t') =
    (left_stopped t' ≡ left_stopped t)
    × (has_failed t' ≡ (if is_raised o then true else has_failed t))

abbrev pub IsQuiet {ℓ} : {A : Type ℓ} → Run A → Type 0
IsQuiet m = (t : Trace) → QuietEnd t (m t)

module _ {ℓ κ} {A : Type ℓ} {B : Type κ} where
  pub bind-IsQuiet :
      (m : Run A) (f : A → Run B) → IsQuiet m → ((a : A) → IsQuiet (f a)) → IsQuiet (m >>>= f)
  bind-IsQuiet m f hm hf t = go (m t) (hm t)
    where
      go : (r : Outcome A × Trace) → QuietEnd t r → QuietEnd t (and_then f r)
      go (done a, t') h =
          let h' = hf a t' in
          (h'.0 ∙ h.0, h'.1 ∙ ap (λ b. if is_raised (f a t').0 then true else b) h.1)
      go (raised e, t') h = h

pub finish-IsQuiet {ℓ} : {A : Type ℓ} (a : A) → IsQuiet (finish a)
finish-IsQuiet a t = (refl, refl)

-- A call is quiet whose event is neither a stop nor a start.
pub call-IsQuiet {ℓ} :
    {A : Type ℓ} (port : Trace → Outcome A) (event : Outcome A → Event)
    → ((o : Outcome A) (t : Trace) → left_stopped (event o ∷ t) ≡ left_stopped t)
    → ((o : Outcome A) → is_failure (event o) ≡ is_raised o)
    → IsQuiet (call port event)
unfolding has_failed
call-IsQuiet port event hl hf t =
    (hl (port t) t, ap (λ b. if b then true else any_of is_failure t) (hf (port t)))

nothing-IsQuiet : IsQuiet {A = Unit {0}} (finish tt)
nothing-IsQuiet = finish-IsQuiet {0} {A = Unit {0}} tt

when_given-IsQuiet :
    (command : Option String) (f : String → Run (Unit {0}))
    → ((c : String) → IsQuiet (f c))
    → IsQuiet (when_given command f)
unfolding when_given
when_given-IsQuiet command f h = elim (Option-cases (given_text command)) [
  | inl e ↦ rw (e, when_given) nothing-IsQuiet
  | inr (c, e) ↦ rw (e, when_given) (h c)
]

module _ (ports : Ports) (repr : List String → String) (config : BackupConfig)
    (containers : ContainerConfig) (now : ℕ) where
  pub list_by-IsQuiet : (label : String) → IsQuiet (list_by ports repr config containers now label)
  unfolding left_stopped is_failure filter_labels
  list_by-IsQuiet label =
      call-IsQuiet (ports.get_containers_by_labels (filter_labels containers label))
        (listed (filter_labels containers label)) (λ o t. refl) (λ o. refl)

  run_global-IsQuiet :
      (command : Option String) → IsQuiet (run_global ports repr config containers now command)
  unfolding left_stopped is_failure
  run_global-IsQuiet command =
      when_given-IsQuiet command (λ c. call (ports.run_command c) (command_run c))
        (λ c. call-IsQuiet (ports.run_command c) (command_run c) (λ o t. refl) (λ o. refl))

  exec_labelled-IsQuiet :
      (label : String) (ids : List String)
      → IsQuiet (exec_labelled ports repr config containers now label ids)
  unfolding exec_labelled left_stopped is_failure
  exec_labelled-IsQuiet label [] = nothing-IsQuiet
  exec_labelled-IsQuiet label (id ∷ ids) =
      bind-IsQuiet _ _
        (call-IsQuiet (ports.get_label_value id label) (label_read id label) (λ o t. refl)
          (λ o. refl))
        (λ cmd.
          bind-IsQuiet _ _
            (when_given-IsQuiet cmd (λ c. call (ports.exec_command id c) (executed id c))
              (λ c.
                call-IsQuiet (ports.exec_command id c) (executed id c) (λ o t. refl) (λ o. refl)))
            (λ _. exec_labelled-IsQuiet label ids))

  pub before_phase-IsQuiet : IsQuiet (before_phase ports repr config containers now)
  unfolding before_phase
  before_phase-IsQuiet = bind-IsQuiet _ _ (list_by-IsQuiet containers.pre_exec_label) (λ ids.
      bind-IsQuiet _ _ (exec_labelled-IsQuiet containers.pre_exec_label ids)
        (λ _. run_global-IsQuiet config.pre_backup_command))

  pub after_phase-IsQuiet : IsQuiet (after_phase ports repr config containers now)
  unfolding after_phase
  after_phase-IsQuiet = bind-IsQuiet _ _ (run_global-IsQuiet config.post_backup_command) (λ _.
      bind-IsQuiet _ _ (list_by-IsQuiet containers.post_exec_label)
        (λ ids. exec_labelled-IsQuiet containers.post_exec_label ids))
