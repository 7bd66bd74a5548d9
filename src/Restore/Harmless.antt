-- ===== src/Restore/Harmless.antt =====
-- That the planning of a restore changes nothing, and under which policy it ends.
use docker_volume_backup.Base.{
  done, raised, and_then, call, given_text, ◌>>>=◌, String, Bool, true, false, List, [], ◌∷◌, ◌≡◌,
  refl, ap, ◌∙◌, any_of, if◌then◌else◌, Option-cases, Bool-cases, inl, inr, keep_if,
}
use docker_volume_backup.RestoreOwnership.{Checked, good, refused, RestoreOwnershipPolicy}
use docker_volume_backup.Restore.{
  RestoreConfig, RestoreCandidate, Target, missing, unsafe, safe, Evidence, no_evidence,
  good_evidence, bad_evidence, Event, candidates_listed, target_seen, candidate_inspected,
  runtime_volumes_searched, labels_searched, volume_searched, probed, stopped, downloaded, restored,
  cleaned, started, Trace, Outcome, Run, Ports, is_native_restore, choose, target_verdict,
  evidence_verdict, labels_with, select_candidate, resolved_policy, resolve_policy, policy_outcome,
  inspect_target, inspect_candidate, found_or, by_volume, by_labels, find_affected_containers, Plan,
  plan_steps, plan_with,
}

pub pick {ℓ} :
    {A : Type 0} (P : A → Type ℓ) (b : Bool) (x y : A)
    → P x
    → (b ≡ false → P y)
    → P (if b then x else y)
pick P true x y hx hy = hx
pick P false x y hx hy = hy refl

pub pick_both {ℓ} :
    {A : Type 0} (P : A → Type ℓ) (b : Bool) (x y : A)
    → (b ≡ true → P x)
    → (b ≡ false → P y)
    → P (if b then x else y)
pick_both P true x y hx hy = hx refl
pick_both P false x y hx hy = hy refl

-- The calls that change containers, files or the target.
unfoldable pub is_destructive : Event → Bool
is_destructive (candidates_listed _) = false
is_destructive (target_seen _ _) = false
is_destructive (candidate_inspected _ _) = false
is_destructive (runtime_volumes_searched _) = false
is_destructive (labels_searched _ _) = false
is_destructive (volume_searched _ _) = false
is_destructive (probed _ _) = false
is_destructive (stopped _ _) = true
is_destructive (downloaded _ _) = true
is_destructive (restored _ _ _) = true
is_destructive (cleaned _ _) = true
is_destructive (started _ _) = true

unfoldable pub is_destroyed : Trace → Bool
is_destroyed t = any_of is_destructive t

-- A piece that makes none of these calls.
abbrev IsHarmless {ℓ} : {A : Type ℓ} → Run A → Type 0
IsHarmless m = (t : Trace) → is_destroyed (m t).1 ≡ is_destroyed t

module _ {A B : Type 0} where
  bind-IsHarmless :
      (m : Run A) (f : A → Run B)
      → IsHarmless m
      → ((a : A) → IsHarmless (f a))
      → IsHarmless (m >>>= f)
  bind-IsHarmless m f hm hf t = go (m t) (hm t)
    where
      go :
          (r : Outcome A × Trace)
          → is_destroyed r.1 ≡ is_destroyed t
          → is_destroyed (and_then f r).1 ≡ is_destroyed t
      go (done a, t') h = hf a t' ∙ h
      go (raised e, t') h = h

module _ {A : Type 0} (port : Trace → Outcome A) (event : Outcome A → Event) where
  call-IsHarmless :
      ((o : Outcome A) → is_destructive (event o) ≡ false) → IsHarmless (call port event)
  unfolding is_destroyed
  call-IsHarmless h t = ap (λ b. if b then true else any_of is_destructive t) (h (port t))

module _ {A B : Type 0} (port : Trace → Outcome A) (event : Outcome A → Event) where
  call_then-IsHarmless :
      (f : A → Run B)
      → ((o : Outcome A) → is_destructive (event o) ≡ false)
      → ((a : A) → IsHarmless (f a))
      → IsHarmless (call port event >>>= f)
  call_then-IsHarmless f h hf =
      bind-IsHarmless (call port event) f (call-IsHarmless port event h) hf

module _ (ports : Ports) (config : RestoreConfig) where
  choose-IsHarmless : (all cs : List RestoreCandidate) → IsHarmless (choose all cs)
  unfolding choose
  choose-IsHarmless all [] t = refl
  choose-IsHarmless all (c ∷ cs) t = refl

  select_candidate-IsHarmless : IsHarmless (select_candidate ports config)
  unfolding select_candidate is_destructive
  select_candidate-IsHarmless = elim (Option-cases (given_text config.source)) [
    | inr (s, e) ↦ rw (e, select_candidate) (λ t. refl)
    | inl e ↦
        rw (e, select_candidate)
          (call_then-IsHarmless ports.list_restore_candidates candidates_listed
            (λ all. choose all (keep_if (λ c. c.available) all)) (λ o. refl)
            (λ all. choose-IsHarmless all (keep_if (λ c. c.available) all)))
  ]

  target_verdict-IsHarmless : (target : Target) → IsHarmless (target_verdict target)
  unfolding target_verdict
  target_verdict-IsHarmless missing t = refl
  target_verdict-IsHarmless unsafe t = refl
  target_verdict-IsHarmless safe t = refl

  evidence_verdict-IsHarmless : (evidence : Evidence) → IsHarmless (evidence_verdict evidence)
  unfolding evidence_verdict
  evidence_verdict-IsHarmless no_evidence t = refl
  evidence_verdict-IsHarmless good_evidence t = refl
  evidence_verdict-IsHarmless (bad_evidence _ _) t = refl

  inspect_target-IsHarmless : IsHarmless (inspect_target ports config)
  unfolding inspect_target is_destructive
  inspect_target-IsHarmless =
      call_then-IsHarmless (ports.see_target config.target_path) (target_seen config.target_path)
        (λ target. target_verdict target) (λ o. refl) (λ target. target_verdict-IsHarmless target)

  inspect_candidate-IsHarmless :
      (c : RestoreCandidate) → IsHarmless (inspect_candidate ports config c)
  unfolding inspect_candidate is_destructive
  inspect_candidate-IsHarmless c =
      call_then-IsHarmless (ports.inspect c) (candidate_inspected c)
        (λ evidence. evidence_verdict evidence) (λ o. refl)
        (λ evidence. evidence_verdict-IsHarmless evidence)

  found_or-IsHarmless :
      (next : Run (List String)) (ids : List String)
      → IsHarmless next
      → IsHarmless (found_or ports config next ids)
  found_or-IsHarmless next [] h = h
  found_or-IsHarmless next (id ∷ ids) h = λ t. refl

  by_volume-IsHarmless : IsHarmless (by_volume ports config)
  unfolding is_destructive
  by_volume-IsHarmless =
      call-IsHarmless (ports.find_volume config.target_path) (volume_searched config.target_path)
        (λ o. refl)

  by_labels-IsHarmless : IsHarmless (by_labels ports config)
  unfolding is_destructive by_labels
  by_labels-IsHarmless = elim (Option-cases (given_text config.stop_label)) [
    | inl e ↦ rw (e, by_labels) by_volume-IsHarmless
    | inr (label, e) ↦
        let labels = labels_with config label in
        rw (e, by_labels)
          (call_then-IsHarmless (ports.find_labels labels) (labels_searched labels)
            (λ ids. found_or ports config (by_volume ports config) ids) (λ o. refl)
            (λ ids. found_or-IsHarmless (by_volume ports config) ids by_volume-IsHarmless))
  ]

  find_affected_containers-IsHarmless : IsHarmless (find_affected_containers ports config)
  unfolding find_affected_containers is_destructive
  find_affected_containers-IsHarmless = elim (Bool-cases (is_native_restore config)) [
    | inl e ↦ rw (e, find_affected_containers) (λ t. refl)
    | inr e ↦
        rw (e, find_affected_containers)
          (call_then-IsHarmless ports.find_runtime_volumes runtime_volumes_searched
            (λ ids. found_or ports config (by_labels ports config) ids) (λ o. refl)
            (λ ids. found_or-IsHarmless (by_labels ports config) ids by_labels-IsHarmless))
  ]

-- The run is harmless, and what it is done with has a property.
abbrev pub EndsIn : {A : Type 0} → (A → Type 0) → Trace → Outcome A × Trace → Type 0
EndsIn P t (done a, t') = (is_destroyed t' ≡ is_destroyed t) × P a
EndsIn P t (raised _, t') = (is_destroyed t' ≡ is_destroyed t) × Unit {0}

module _ {A B : Type 0} (P : B → Type 0) where
  after_harmless :
      (m : Run A) (f : A → Run B)
      → IsHarmless m
      → ((a : A) (t : Trace) → EndsIn P t (f a t))
      → (t : Trace) → EndsIn P t ((m >>>= f) t)
  after_harmless m f hm hf t = go (m t) (hm t)
    where
      later :
          (u : Trace) (r : Outcome B × Trace)
          → is_destroyed u ≡ is_destroyed t
          → EndsIn P u r
          → EndsIn P t r
      later u (done b, v) e h = (h.0 ∙ e, h.1)
      later u (raised _, v) e h = (h.0 ∙ e, tt)

      go : (r : Outcome A × Trace) → is_destroyed r.1 ≡ is_destroyed t → EndsIn P t (and_then f r)
      go (done a, u) e = later u (f a u) e (hf a u)
      go (raised x, u) e = (e, tt)

module _ (ports : Ports) (config : RestoreConfig) where
  -- The plan's policy is the confirmed one of the layers.
  abbrev pub HasPolicy : Plan → Type 0
  HasPolicy plan = resolved_policy ports config ≡ good plan.policy

  plan_end :
      (candidate : RestoreCandidate) (policy : RestoreOwnershipPolicy)
      → resolved_policy ports config ≡ good policy
      → (t : Trace) → EndsIn HasPolicy t (plan_with ports config candidate policy t)
  unfolding plan_with
  plan_end candidate policy h =
      after_harmless HasPolicy (inspect_target ports config) _
        (inspect_target-IsHarmless ports config)
        (λ _.
          after_harmless HasPolicy (inspect_candidate ports config candidate) _
            (inspect_candidate-IsHarmless ports config candidate)
            (λ _.
              after_harmless HasPolicy (find_affected_containers ports config) _
                (find_affected_containers-IsHarmless ports config) (λ affected t. (refl, h))))

  policy_end :
      (candidate : RestoreCandidate) (t : Trace)
      → EndsIn HasPolicy t
          ((resolve_policy ports config >>>= λ policy. plan_with ports config candidate policy) t)
  unfolding resolve_policy
  policy_end candidate t = go (resolved_policy ports config) refl
    where
      go :
          (c : Checked RestoreOwnershipPolicy)
          → resolved_policy ports config ≡ c
          → EndsIn HasPolicy t (
              and_then
                (λ policy. plan_with ports config candidate policy)
                (policy_outcome ports config c, t))
      go (good policy) e = plan_end candidate policy e t
      go (refused x) e = (refl, tt)

  pub plan_steps_end : (t : Trace) → EndsIn HasPolicy t (plan_steps ports config t)
  unfolding plan_steps
  plan_steps_end =
      after_harmless HasPolicy (select_candidate ports config) _
        (select_candidate-IsHarmless ports config) (λ candidate. policy_end candidate)
