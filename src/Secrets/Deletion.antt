-- ===== src/Secrets/Deletion.antt =====
-- Deleting a secret leaves no reference to a secret that is gone.
use docker_volume_backup.Base.{
  String, Bool, true, false, ◌&&◌, Option, none, some, List, [], ◌∷◌, ◌++◌, ◌≡◌, ◌⊎◌, refl, arith,
  Dict, get, get-pop, pop, values, sort_by, str_eq_iff, opt_eq, present, Option-cases, inl, inr,
}
use docker_volume_backup.ControlPlane.{BackupTargetRecord}
use docker_volume_backup.Secrets.Defs.{
  SecretRecord, StorageProfileRecord, SettingsRecord, Catalog, list_profiles, delete_stored_secret,
}
use docker_volume_backup.Secrets.Usages.{
  Usage, UsageField, env, file, target_usages, reference_usages, profile_usages, settings_usages,
  find_secret_usages, delete_secret,
}

-- The reference, if there is one, is to a stored secret.
abbrev pub resolves : Dict SecretRecord → Option String → Bool
resolves secrets none = true
resolves secrets (some k) = present (get k secrets)

abbrev pub all_resolve : Dict SecretRecord → Dict String → Bool
all_resolve secrets [] = true
all_resolve secrets ((name, k) ∷ refs) = resolves secrets (some k) && all_resolve secrets refs

abbrev pub targets_resolve : Dict SecretRecord → List BackupTargetRecord → Bool
targets_resolve secrets [] = true
targets_resolve secrets (t ∷ targets) =
    resolves secrets t.restic_password_secret_id && targets_resolve secrets targets

abbrev pub profiles_resolve : Dict SecretRecord → List StorageProfileRecord → Bool
profiles_resolve secrets [] = true
profiles_resolve secrets (p ∷ profiles) =
    (all_resolve secrets p.secret_refs && all_resolve secrets p.file_secret_refs)
    && profiles_resolve secrets profiles

abbrev pub settings_resolve : Dict SecretRecord → Option SettingsRecord → Bool
settings_resolve secrets none = true
settings_resolve secrets (some s) =
    resolves secrets s.restic_password_secret_id && resolves secrets s.rclone_conf_secret_id

-- Every reference of a target, a profile or the settings is to a stored secret.
abbrev pub all_references_resolve : Catalog → Bool
all_references_resolve c =
    targets_resolve c.secrets (sort_by (λ t. t.created_at) (values c.targets))
    && (profiles_resolve c.secrets (list_profiles c.profiles)
        && settings_resolve c.secrets c.settings)

no_usage : (xs ys : List Usage) → xs ++ ys ≡ [] → (xs ≡ []) × (ys ≡ [])
no_usage [] ys h = (refl, h)
no_usage (x ∷ xs) ys h = ground arith

module _ (secret_id : String) (secrets : Dict SecretRecord) where
  still_resolves :
      (o : Option String)
      → opt_eq o secret_id ≡ false
      → resolves secrets o ≡ true
      → resolves (pop secret_id secrets) o ≡ true
  still_resolves none h r = refl
  still_resolves (some k) h r =
      ground (arith, get-pop secret_id k secrets, str_eq_iff secret_id k, str_eq_iff k secret_id)

  targets_still_resolve :
      (targets : List BackupTargetRecord)
      → target_usages secret_id targets ≡ []
      → targets_resolve secrets targets ≡ true
      → targets_resolve (pop secret_id secrets) targets ≡ true
  unfolding target_usages
  targets_still_resolve [] h r = refl
  targets_still_resolve (t ∷ targets) h r =
      ground (arith, still_resolves t.restic_password_secret_id, targets_still_resolve targets)

  references_still_resolve :
      (profile : StorageProfileRecord) (field : String → UsageField) (refs : Dict String)
      → reference_usages secret_id profile field refs ≡ []
      → all_resolve secrets refs ≡ true
      → all_resolve (pop secret_id secrets) refs ≡ true
  unfolding reference_usages
  references_still_resolve profile field [] h r = refl
  references_still_resolve profile field ((name, k) ∷ refs) h r =
      ground (arith, still_resolves (some k), references_still_resolve profile field refs)

  profiles_still_resolve :
      (profiles : List StorageProfileRecord)
      → profile_usages secret_id profiles ≡ []
      → profiles_resolve secrets profiles ≡ true
      → profiles_resolve (pop secret_id secrets) profiles ≡ true
  unfolding profile_usages
  profiles_still_resolve [] h r = refl
  profiles_still_resolve (p ∷ profiles) h r =
      let (own, others) =
        no_usage
          (reference_usages secret_id p env p.secret_refs
            ++ reference_usages secret_id p file p.file_secret_refs)
          (profile_usages secret_id profiles) h in
      let (envs, files) =
        no_usage (reference_usages secret_id p env p.secret_refs)
          (reference_usages secret_id p file p.file_secret_refs) own in
      ground (
        arith,
        references_still_resolve p env p.secret_refs envs,
        references_still_resolve p file p.file_secret_refs files,
        profiles_still_resolve profiles others,
      )

  settings_still_resolve :
      (settings : Option SettingsRecord)
      → settings_usages secret_id settings ≡ []
      → settings_resolve secrets settings ≡ true
      → settings_resolve (pop secret_id secrets) settings ≡ true
  unfolding settings_usages
  settings_still_resolve none h r = refl
  settings_still_resolve (some s) h r =
      ground
        (arith, still_resolves s.restic_password_secret_id, still_resolves s.rclone_conf_secret_id)

-- A secret without a usage can go.
unused_resolves :
    (secret_id : String) (c : Catalog)
    → find_secret_usages secret_id c ≡ []
    → all_references_resolve c ≡ true
    → all_references_resolve (record c { secrets = pop secret_id c.secrets }) ≡ true
unfolding find_secret_usages
unused_resolves secret_id c h r =
    let targets = sort_by (λ t. t.created_at) (values c.targets) in
    let profiles = list_profiles c.profiles in
    let (of_targets, others) =
      no_usage (target_usages secret_id targets)
        (profile_usages secret_id profiles ++ settings_usages secret_id c.settings) h in
    let (of_profiles, of_settings) =
      no_usage (profile_usages secret_id profiles) (settings_usages secret_id c.settings) others in
    ground (
      arith,
      targets_still_resolve secret_id c.secrets targets of_targets,
      profiles_still_resolve secret_id c.secrets profiles of_profiles,
      settings_still_resolve secret_id c.secrets c.settings of_settings,
    )

List-cases : (xs : List Usage) → (xs ≡ []) ⊎ ((x : Usage) × (rest : List Usage) × (xs ≡ x ∷ rest))
List-cases [] = inl refl
List-cases (x ∷ xs) = inr (x, xs, refl)

-- Where every reference of a target, a storage profile or the settings is to a stored secret, this
-- is so after `delete_secret`, too, whether it deletes the secret or refuses to.
pub delete_secret-resolves :
    (secret_id : String) (c : Catalog)
    → all_references_resolve c ≡ true
    → all_references_resolve (delete_secret secret_id c).1 ≡ true
unfolding delete_secret delete_stored_secret
delete_secret-resolves secret_id c r = elim (Option-cases (get secret_id c.secrets)) [
  | inl unknown ↦ ground arith
  | inr (secret, found) ↦ elim (List-cases (find_secret_usages secret_id c)) [
    | inl unused ↦ ground (arith, unused_resolves secret_id c unused r)
    | inr (usage, usages, used) ↦ ground arith
  ]
]
