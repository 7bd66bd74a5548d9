-- ===== src/RestoreOwnership/Precedence.antt =====
-- That no layer's policy overrides another's silently.
use docker_volume_backup.Base.{
  String, Option, none, some, List, [], ◌∷◌, map, ◌≡◌, refl, ap, ◌∙◌, subst, arith, All, inl, inr,
  ◌⊎◌,
}
use docker_volume_backup.RestoreOwnership.{
  check_default, Checked, good, ◌>>=◌, Mode, preserve, map_ids, Confirmation, confirmed, declined,
  RestoreOwnershipPolicy, check_mappings, coerce_policy, LayerInput, ScopeInput, RestoreVolumeScope,
  validate_volume_scopes, validate_candidates, confirm_request, require_confirmation, candidates_of,
  policy_signature, agree, expand_default, select, default_policy, resolve_restore_ownership,
}
use docker_volume_backup.RestoreOwnership.Identity.{bind_good}
use docker_volume_backup.RestoreOwnership.Validity.{IsValid, good-injective}
use docker_volume_backup.RestoreOwnership.Layered.{coerce_policy-IsValid}
use docker_volume_backup.RestoreOwnership.Agreement.{SayTheSame, agree-same}
use docker_volume_backup.RestoreOwnership.Default.{expand_default-same}

bind_at {ℓ κ} :
    {A : Type ℓ} {B : Type κ} (m : Checked A) (f : A → Checked B) (a : A) (b : B)
    → m ≡ good a
    → (m >>= f) ≡ good b
    → f a ≡ good b
bind_at m f a b e h = subst (λ x. (x >>= f) ≡ good b) e h

-- The policy of the request is `preserve`, or it is confirmed.
abbrev pub IsConfirmed : Option RestoreOwnershipPolicy → Type 0
IsConfirmed none = Unit
IsConfirmed (some q) = (q.mode ≡ preserve) ⊎ (q.confirmation ≡ some confirmed)

confirm_request-IsConfirmed :
    (r : Option RestoreOwnershipPolicy) (done : Unit {0})
    → confirm_request r ≡ good done
    → IsConfirmed r
unfolding confirm_request require_confirmation
confirm_request-IsConfirmed none done h = tt
confirm_request-IsConfirmed (some q) done h = go q.mode q.confirmation h
  where
    go :
        (m : Mode) (c : Option Confirmation)
        → confirm_request (some (record q { mode = m; confirmation = c })) ≡ good done
        → (m ≡ preserve) ⊎ (c ≡ some confirmed)
    go preserve c e = inl refl
    go map_ids (some confirmed) e = inr refl
    go map_ids (some declined) e = ground arith
    go map_ids none e = ground arith

-- The policies have the mode of another, and say the same of the keys.
abbrev pub FollowedBy : List RestoreOwnershipPolicy → RestoreOwnershipPolicy → List String → Type 0
FollowedBy cs p keys = All (λ c. (c.mode ≡ p.mode) × SayTheSame c p keys) cs

follow :
    (s p : RestoreOwnershipPolicy) (keys : List String) (cs : List RestoreOwnershipPolicy)
    → (s.mode ≡ p.mode)
    → SayTheSame s p keys
    → FollowedBy cs s keys
    → FollowedBy cs p keys
follow s p keys [] hm hs h = tt
follow s p keys (c ∷ cs) hm hs h = ((h.0.0 ∙ hm, chain keys h.0.1 hs), follow s p keys cs hm hs h.1)
  where
    chain : (ks : List String) → SayTheSame c s ks → SayTheSame s p ks → SayTheSame c p ks
    chain [] a b = tt
    chain (k ∷ ks) a b = (a.0 ∙ b.0, chain ks a.1 b.1)

default_policy-IsValid : IsValid default_policy
unfolding check_mappings check_default
default_policy-IsValid = record { mappings_checked = refl; default_checked = refl; allowed = refl }

select-FollowedBy :
    (keys : List String) (cs : List RestoreOwnershipPolicy) (p : RestoreOwnershipPolicy)
    → All (λ c. IsValid c) cs
    → select keys cs ≡ good p
    → FollowedBy cs p keys × IsValid p
unfolding select
select-FollowedBy keys [] p hv h =
    (tt, subst (λ q. IsValid q) (good-injective default_policy p h) default_policy-IsValid)
select-FollowedBy keys (s ∷ ps) p hv h =
    let (signature, hs, h₁) = bind_good (policy_signature s keys) _ p h in
    let (done, ha, h₂) = bind_good (agree signature keys ps) (λ _. expand_default s keys) p h₁ in
    let (hm, same, valid) = expand_default-same s p keys hv.0 h₂ in
    (((hm, same), follow s p keys ps hm same (agree-same s keys signature ps done hs ha)), valid)

candidates-IsValid :
    (r t l : Option RestoreOwnershipPolicy)
    → ((q : RestoreOwnershipPolicy) → r ≡ some q → IsValid q)
    → ((q : RestoreOwnershipPolicy) → t ≡ some q → IsValid q)
    → ((q : RestoreOwnershipPolicy) → l ≡ some q → IsValid q)
    → All (λ c. IsValid c) (candidates_of (r ∷ t ∷ l ∷ []))
candidates-IsValid r t l hr ht hl = cons r _ hr (cons t _ ht (cons l _ hl tt))
  where
    cons :
        (o : Option RestoreOwnershipPolicy) (os : List (Option RestoreOwnershipPolicy))
        → ((q : RestoreOwnershipPolicy) → o ≡ some q → IsValid q)
        → All (λ c. IsValid c) (candidates_of os)
        → All (λ c. IsValid c) (candidates_of (o ∷ os))
    cons none os h hs = hs
    cons (some q) os h hs = (h q refl, hs)

-- Let the scopes be valid, and let `r`, `t` and `l` be the policies of the request, the target's defaults and
-- `RESTORE_CHOWN`, where they have one. Where the three layers resolve to a policy, it is valid; every layer's
-- policy has its mode and gives the same identity to each volume of the scopes; and the request's policy
-- preserves the owners or is confirmed.
pub resolve_agrees :
    (request target_defaults legacy_chown : LayerInput) (raws : List ScopeInput)
    (scopes : List RestoreVolumeScope) (r t l : Option RestoreOwnershipPolicy)
    (p : RestoreOwnershipPolicy)
    → validate_volume_scopes raws none ≡ good scopes
    → coerce_policy request "request" ≡ good r
    → coerce_policy target_defaults "target defaults" ≡ good t
    → coerce_policy legacy_chown "RESTORE_CHOWN" ≡ good l
    → resolve_restore_ownership request target_defaults legacy_chown (some raws) ≡ good p
    → FollowedBy (candidates_of (r ∷ t ∷ l ∷ [])) p (map (λ scope. scope.volume_key) scopes)
      × IsConfirmed r
      × IsValid p
unfolding resolve_restore_ownership
resolve_agrees request target_defaults legacy_chown raws scopes r t l p hs hr ht hl h =
    let h₁ = bind_at (validate_volume_scopes raws none) _ scopes p hs h in
    let h₂ = bind_at (coerce_policy request "request") _ r p hr h₁ in
    let h₃ = bind_at (coerce_policy target_defaults "target defaults") _ t p ht h₂ in
    let h₄ = bind_at (coerce_policy legacy_chown "RESTORE_CHOWN") _ l p hl h₃ in
    let cs : List RestoreOwnershipPolicy = candidates_of (r ∷ t ∷ l ∷ []) in
    let (_, _, h₅) = bind_good (validate_candidates scopes cs) _ p h₄ in
    let (done, hc, h₆) =
      bind_good (confirm_request r) (λ _. select (map (λ scope. scope.volume_key) scopes) cs) p
        h₅ in
    let valid =
      candidates-IsValid r t l
        (λ q e. coerce_policy-IsValid request "request" q (hr ∙ ap (λ x. good x) e))
        (λ q e. coerce_policy-IsValid target_defaults "target defaults" q (ht ∙ ap (λ x. good x) e))
        (λ q e. coerce_policy-IsValid legacy_chown "RESTORE_CHOWN" q (hl ∙ ap (λ x. good x) e)) in
    let (followed, p_valid) =
      select-FollowedBy (map (λ scope. scope.volume_key) scopes) cs p valid h₆ in
    (followed, confirm_request-IsConfirmed r done hc, p_valid)
