-- ===== src/RestoreOwnership/Default.antt =====
-- That a default mapping spelled out for each key says the same of the keys.
use docker_volume_backup.Base.{
  String, true, Option, none, some, List, [], ◌∷◌, Dict, get, ◌≡◌, refl, sym, ap, ◌∙◌, subst, arith,
  All, present, str_eq, str_eq_iff, Bool-cases, Option-cases, inl, inr,
}
use docker_volume_backup.Json.{null, text, obj, Fields, empty, field, opt_text}
use docker_volume_backup.RestoreOwnership.{
  check_mode, good, Mode, map_ids, RestoreOwnershipPolicy, PolicyArguments, check_mappings,
  validate_key, uid_gid_text, parse_uid_gid, mapping_text, keyed_mappings, expand_default,
  arguments_of, canonical, or_default,
}
use docker_volume_backup.RestoreOwnership.Identity.{bind_good}
use docker_volume_backup.RestoreOwnership.Validity.{
  make_policy-IsValid, make_policy-checks, IsValid, good-injective, uid_gid_text_again,
  validate_key_is,
}
use docker_volume_backup.RestoreOwnership.Layered.{if_split, some-injective}
use docker_volume_backup.RestoreOwnership.Agreement.{SayTheSame}

canonical_again :
    (v : Option String) (t : String) → canonical v ≡ good (some t) → uid_gid_text (text t) ≡ good t
unfolding canonical
canonical_again none t h = ground arith
canonical_again (some ids) t h =
    let (r, hr, h₁) = bind_good (uid_gid_text (text ids)) (λ r. good (some r)) (some t) h in
    uid_gid_text_again (text ids) t
      (hr ∙ ap (λ x. good x) (some-injective r t (good-injective (some r) (some t) h₁)))

-- The mappings hold for each key what the policy says of it.
SpellsOut : RestoreOwnershipPolicy → List String → Dict String → Type 0
SpellsOut s [] [] = Unit
SpellsOut s [] (_ ∷ _) = ⊥
SpellsOut s (_ ∷ _) [] = ⊥
SpellsOut s (key ∷ keys) ((k, ids) ∷ m) =
    (k ≡ key)
    × (mapping_text s key ≡ good (some ids))
    × (uid_gid_text (text ids) ≡ good ids)
    × SpellsOut s keys m

null_is_none : (ids : String) → uid_gid_text null ≡ good ids → ⊥
unfolding uid_gid_text parse_uid_gid
null_is_none ids h = ground arith

entry-spelled :
    (s : RestoreOwnershipPolicy) (key j ids : String) (r : Option String)
    → mapping_text s key ≡ good r
    → validate_key key ≡ good j
    → uid_gid_text (opt_text r) ≡ good ids
    → (j ≡ key) × (mapping_text s key ≡ good (some ids)) × (uid_gid_text (text ids) ≡ good ids)
unfolding mapping_text
entry-spelled s key j ids none hr hj hi = absurd (null_is_none ids hi)
entry-spelled s key j ids (some t) hr hj hi =
    let again : uid_gid_text (text t) ≡ good t =
      canonical_again (or_default (get key s.mappings) s.default_mapping) t hr in
    let same : t ≡ ids = good-injective t ids (sym again ∙ hi) in
    (
      validate_key_is key j hj,
      hr ∙ ap (λ x. good (some x)) same,
      subst (λ x. uid_gid_text (text x) ≡ good x) same again,
    )

checked-SpellsOut :
    (s : RestoreOwnershipPolicy) (key : String) (keys : List String) (r : Option String)
    (rest : Fields) (m : Dict String)
    → mapping_text s key ≡ good r
    → ((more : Dict String) → check_mappings rest ≡ good more → SpellsOut s keys more)
    → check_mappings (field key (opt_text r) rest) ≡ good m
    → SpellsOut s (key ∷ keys) m
unfolding check_mappings SpellsOut
checked-SpellsOut s key keys r rest m hr spelled h =
    let (j, hj, h₁) = bind_good (validate_key key) _ m h in
    let (ids, hi, h₂) = bind_good (uid_gid_text (opt_text r)) _ m h₁ in
    let (more, hmore, h₃) = bind_good (check_mappings rest) (λ more. good ((j, ids) ∷ more)) m h₂ in
    let (a, b, c) = entry-spelled s key j ids r hr hj hi in
    subst (λ x. SpellsOut s (key ∷ keys) x) (good-injective ((j, ids) ∷ more) m h₃)
      (a, b, c, spelled more hmore)

keyed_mappings-SpellsOut :
    (s : RestoreOwnershipPolicy) (keys : List String) (d : Fields) (m : Dict String)
    → keyed_mappings s keys ≡ good d
    → check_mappings d ≡ good m
    → SpellsOut s keys m
unfolding keyed_mappings check_mappings SpellsOut
keyed_mappings-SpellsOut s [] d m hk hm =
    let h : check_mappings empty ≡ good m =
      subst (λ x. check_mappings x ≡ good m) (sym (good-injective empty d hk)) hm in
    subst (λ x. SpellsOut s [] x) (good-injective [] m h) tt
keyed_mappings-SpellsOut s (key ∷ keys) d m hk hm =
    let (r, hr, hk₁) = bind_good (mapping_text s key) _ d hk in
    let (rest, hrest, hk₂) =
      bind_good (keyed_mappings s keys) (λ rest. good (field key (opt_text r) rest)) d hk₁ in
    checked-SpellsOut s key keys r rest m hr
      (λ more h. keyed_mappings-SpellsOut s keys rest more hrest h)
      (subst (λ x. check_mappings x ≡ good m)
        (sym (good-injective (field key (opt_text r) rest) d hk₂)) hm)

-- What the mappings say of a key, the policy says.
get-SpellsOut :
    (s : RestoreOwnershipPolicy) (keys : List String) (m : Dict String) (key t : String)
    → SpellsOut s keys m
    → get key m ≡ some t
    → (mapping_text s key ≡ good (some t)) × (uid_gid_text (text t) ≡ good t)
unfolding SpellsOut
get-SpellsOut s [] [] key t h hg = ground arith
get-SpellsOut s [] (_ ∷ _) key t h hg = absurd h
get-SpellsOut s (_ ∷ _) [] key t h hg = absurd h
get-SpellsOut s (k ∷ keys) ((j, ids) ∷ m) key t (same, hk, hi, rest) hg =
    elim (Bool-cases (str_eq j key)) [
      | inl e ↦
          let at : k ≡ key = sym same ∙ (str_eq_iff j key).0 e in
          let it : ids ≡ t = ground (arith, e, hg) in
          (
            subst (λ x. mapping_text s x ≡ good (some t)) at (hk ∙ ap (λ x. good (some x)) it),
            subst (λ x. uid_gid_text (text x) ≡ good x) it hi,
          )
      | inr e ↦ get-SpellsOut s keys m key t rest (ground (arith, e, hg))
    ]

still_present :
    (keys : List String) (j ids : String) (m : Dict String)
    → All (λ key. present (get key m) ≡ true) keys
    → All (λ key. present (get key ((j, ids) ∷ m)) ≡ true) keys
still_present [] j ids m h = tt
still_present (key ∷ keys) j ids m h = (ground (arith, h.0), still_present keys j ids m h.1)

SpellsOut-All :
    (s : RestoreOwnershipPolicy) (keys : List String) (m : Dict String)
    → SpellsOut s keys m
    → All (λ key. present (get key m) ≡ true) keys
unfolding SpellsOut
SpellsOut-All s [] m h = tt
SpellsOut-All s (_ ∷ _) [] h = absurd h
SpellsOut-All s (k ∷ keys) ((j, ids) ∷ m) (same, hk, hi, rest) =
    (ground (arith, str_eq_iff j k, same), still_present keys j ids m (SpellsOut-All s keys m rest))

spelled-same :
    (s p : RestoreOwnershipPolicy) (all keys : List String)
    → SpellsOut s all p.mappings
    → All (λ key. present (get key p.mappings) ≡ true) keys
    → SayTheSame s p keys
unfolding mapping_text canonical
spelled-same s p all [] h hp = tt
spelled-same s p all (key ∷ keys) h hp = (
  elim (Option-cases (get key p.mappings)) [
    | inl e ↦ absurd (no_key e hp.0)
    | inr (t, e) ↦
        let (hs, hi) = get-SpellsOut s all p.mappings key t h e in
        hs ∙ sym (rw (e, mapping_text) (rw (hi, mapping_text) refl))
  ],
  spelled-same s p all keys h hp.1,
)
  where
    no_key : {A : Type 0} {o : Option A} → o ≡ none → present o ≡ true → ⊥
    no_key e h = ground (arith, e, h)

default_mode :
    (s : RestoreOwnershipPolicy) → IsValid s → present s.default_mapping ≡ true → s.mode ≡ map_ids
default_mode s h hd = ground (arith, h.allowed, hd)

check_mode-map : (m : Mode) → check_mode (text "map") ≡ good m → m ≡ map_ids
unfolding check_mode str_eq
check_mode-map m h = sym (good-injective map_ids m h)

unchanged :
    (s p : RestoreOwnershipPolicy) (keys : List String)
    → IsValid s
    → s ≡ p
    → (s.mode ≡ p.mode) × SayTheSame s p keys × IsValid p
unchanged s p keys hs same =
    subst (λ q. (s.mode ≡ q.mode) × SayTheSame s q keys × IsValid q) same (refl, all_same keys, hs)
  where
    all_same : (ks : List String) → SayTheSame s s ks
    all_same [] = tt
    all_same (k ∷ ks) = (refl, all_same ks)

-- The policy with the default spelled out has the same mode, and says the same of the keys.
pub expand_default-same :
    (s p : RestoreOwnershipPolicy) (keys : List String)
    → IsValid s
    → expand_default s keys ≡ good p
    → (s.mode ≡ p.mode) × SayTheSame s p keys × IsValid p
unfolding expand_default
expand_default-same s p [] hs h = unchanged s p [] hs (good-injective s p h)
expand_default-same s p (key ∷ keys) hs h =
    elim (if_split (present s.default_mapping) _ _ (good p) h) [
      | inl (e, h₁) ↦
          let (d, hd, h₂) = bind_good (keyed_mappings s (key ∷ keys)) _ p h₁ in
          let a : PolicyArguments = record (arguments_of s) {
            mode = text "map";
            mappings = obj d;
            default_mapping = none;
          } in
          let (hm, hmaps) = make_policy-checks a d p h₂ in
          let spelled = keyed_mappings-SpellsOut s (key ∷ keys) d p.mappings hd hmaps in
          (
            default_mode s hs e ∙ sym (check_mode-map p.mode hm),
            spelled-same s p (key ∷ keys) (key ∷ keys) spelled
                (SpellsOut-All s (key ∷ keys) p.mappings spelled),
            make_policy-IsValid a p h₂,
          )
      | inr h₁ ↦ unchanged s p (key ∷ keys) hs (good-injective s p h₁)
    ]
