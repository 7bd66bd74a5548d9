-- ===== src/RestoreOwnership/Agreement.antt =====
-- What policies whose signatures agree have in common.
use docker_volume_backup.Base.{
  String, true, Option, none, some, List, [], ◌∷◌, ◌≡◌, refl, sym, ap, ◌∙◌, subst, arith, All,
  str_eq_iff,
}
use docker_volume_backup.RestoreOwnership.{
  policy_conflict, good, Mode, preserve, map_ids, RestoreOwnershipPolicy, mapping_text, Signature,
  by_key, whole, same_signature, same_texts, same_text, same_mode, policy_signature, mapping_texts,
  agree,
}
use docker_volume_backup.RestoreOwnership.Identity.{bind_good}
use docker_volume_backup.RestoreOwnership.Validity.{good-injective}
use docker_volume_backup.RestoreOwnership.Layered.{if_good}

same_mode_sound : (m n : Mode) → same_mode m n ≡ true → m ≡ n
same_mode_sound preserve preserve h = refl
same_mode_sound preserve map_ids h = ground arith
same_mode_sound map_ids preserve h = ground arith
same_mode_sound map_ids map_ids h = refl

same_text_sound : (s t : Option String) → same_text s t ≡ true → s ≡ t
same_text_sound none none h = refl
same_text_sound none (some t) h = ground arith
same_text_sound (some s) none h = ground arith
same_text_sound (some s) (some t) h = ap (λ r. some r) ((str_eq_iff s t).0 h)

same_texts_sound : (ss ts : List (Option String)) → same_texts ss ts ≡ true → ss ≡ ts
same_texts_sound [] [] h = refl
same_texts_sound [] (t ∷ ts) h = ground arith
same_texts_sound (s ∷ ss) [] h = ground arith
same_texts_sound (s ∷ ss) (t ∷ ts) h = ground (arith, same_text_sound s t, same_texts_sound ss ts)

-- The policies say the same of all keys.
abbrev pub SayTheSame : RestoreOwnershipPolicy → RestoreOwnershipPolicy → List String → Type 0
SayTheSame c p keys = All (λ key. mapping_text c key ≡ mapping_text p key) keys

mapping_texts-same :
    (c s : RestoreOwnershipPolicy) (keys : List String) (ts : List (Option String))
    → mapping_texts c keys ≡ good ts
    → mapping_texts s keys ≡ good ts
    → SayTheSame c s keys
unfolding mapping_texts
mapping_texts-same c s [] ts hc hs = tt
mapping_texts-same c s (key ∷ keys) ts hc hs =
    let (a, ha, hc₁) = bind_good (mapping_text c key) _ ts hc in
    let (cs, hcs, hc₂) = bind_good (mapping_texts c keys) (λ rest. good (a ∷ rest)) ts hc₁ in
    let (b, hb, hs₁) = bind_good (mapping_text s key) _ ts hs in
    let (ss, hss, hs₂) = bind_good (mapping_texts s keys) (λ rest. good (b ∷ rest)) ts hs₁ in
    let same : a ∷ cs ≡ b ∷ ss =
      good-injective (a ∷ cs) ts hc₂ ∙ sym (good-injective (b ∷ ss) ts hs₂) in
    let head : a ≡ b = ground (arith, same) in
    let tail : cs ≡ ss = ground (arith, same) in
    (
      ha ∙ ap (λ r. good r) head ∙ sym hb,
      mapping_texts-same c s keys cs hcs (hss ∙ ap (λ r. good r) (sym tail)),
    )

-- A policy whose signature is that of another has its mode, and says the same of the keys.
pub signature-same :
    (c s : RestoreOwnershipPolicy) (keys : List String) (other signature : Signature)
    → policy_signature c keys ≡ good other
    → policy_signature s keys ≡ good signature
    → same_signature other signature ≡ true
    → (c.mode ≡ s.mode) × SayTheSame c s keys
unfolding policy_signature same_signature
signature-same c s [] other signature hc hs h =
    let e : same_signature (whole c.mode c.mappings c.default_mapping)
          (whole s.mode s.mappings s.default_mapping)
        ≡ true =
      subst (λ o. same_signature o (whole s.mode s.mappings s.default_mapping) ≡ true)
        (sym (good-injective _ other hc))
        (subst (λ o. same_signature other o ≡ true) (sym (good-injective _ signature hs)) h) in
    (same_mode_sound c.mode s.mode (ground (arith, e)), tt)
signature-same c s (key ∷ keys) other signature hc hs h =
    let (cs, hcs, hc₁) =
      bind_good (mapping_texts c (key ∷ keys)) (λ texts. good (by_key c.mode texts)) other hc in
    let (ss, hss, hs₁) =
      bind_good (mapping_texts s (key ∷ keys)) (λ texts. good (by_key s.mode texts)) signature hs in
    let e : same_signature (by_key c.mode cs) (by_key s.mode ss) ≡ true =
      subst (λ o. same_signature o (by_key s.mode ss) ≡ true)
        (sym (good-injective (by_key c.mode cs) other hc₁))
        (subst (λ o. same_signature other o ≡ true)
          (sym (good-injective (by_key s.mode ss) signature hs₁)) h) in
    let same : cs ≡ ss = same_texts_sound cs ss (ground (arith, e)) in
    (
      same_mode_sound c.mode s.mode (ground (arith, e)),
      mapping_texts-same c s (key ∷ keys) ss (hcs ∙ ap (λ r. good r) same) hss,
    )

-- What the policies that `agree` passes have in common with the selected one.
pub agree-same :
    (s : RestoreOwnershipPolicy) (keys : List String) (signature : Signature)
    (ps : List RestoreOwnershipPolicy) (done : Unit {0})
    → policy_signature s keys ≡ good signature
    → agree signature keys ps ≡ good done
    → All (λ c. (c.mode ≡ s.mode) × SayTheSame c s keys) ps
unfolding agree
agree-same s keys signature [] done hs h = tt
agree-same s keys signature (c ∷ ps) done hs h =
    let (other, hc, h₁) = bind_good (policy_signature c keys) _ done h in
    let (e, h₂) =
      if_good (same_signature other signature) (agree signature keys ps) policy_conflict done h₁ in
    (signature-same c s keys other signature hc hs e, agree-same s keys signature ps done hs h₂)
