-- ===== src/Metadata/Generations.antt =====
-- What `bump_generation` and the cleanups do to each key.
use docker_volume_backup.Base.{
  ℕ, suc, String, Bool, true, not, none, some, List, [], ◌∷◌, ◌≡◌, refl, arith, any_of, str_eq,
  str_eq_iff, if◌then◌else◌,
}
use docker_volume_backup.Metadata.Defs.{
  CacheGenerationRecord, IndexStatusRecord, Key, same_key, PairDict, get_at, put_at,
}
use docker_volume_backup.Metadata.Stores.{
  get_generation, current_generation, bump_generation, keep_keys, cleanup_generations, get_status,
  delete_for_target, cleanup_statuses,
}

same_key→≡ : (j k : Key) → same_key j k ≡ true → j ≡ k
same_key→≡ (a, b) (c, d) h = ground (arith, str_eq_iff a c, str_eq_iff b d)

same_key_refl : (k : Key) → same_key k k ≡ true
same_key_refl (a, b) = ground (arith, str_eq_iff a a, str_eq_iff b b)

get_at-put_at :
    {V : Type 0} (k j : Key) (v : V) (d : PairDict V)
    → get_at j (put_at k v d) ≡ (if same_key k j then some v else get_at j d)
get_at-put_at k j v [] = refl
get_at-put_at k j v ((i, w) ∷ d) = ground (
  arith,
  same_key→≡ k j,
  same_key→≡ i k,
  same_key→≡ i j,
  same_key_refl k,
  same_key_refl j,
  same_key_refl i,
  get_at-put_at k j v d,
)

get_at-keep_keys :
    {V : Type 0} (live : Key → Bool) (k : Key) (d : PairDict V)
    → get_at k (keep_keys live d).0 ≡ (if live k then get_at k d else none)
unfolding keep_keys
get_at-keep_keys live k [] = ground arith
get_at-keep_keys live k ((j, v) ∷ d) = ground (arith, same_key→≡ j k, get_at-keep_keys live k d)

-- Bumping the generation of a target and repository adds one to it and leaves every other pair's.
pub bump_generation_lem :
    (target_id fingerprint : String) (now : ℕ) (items : PairDict CacheGenerationRecord)
    (t f : String)
    → current_generation (get_generation t f (bump_generation target_id fingerprint now items).1)
      ≡ (if same_key (target_id, fingerprint) (t, f)
          then suc (current_generation (get_generation t f items))
          else current_generation (get_generation t f items))
unfolding bump_generation get_generation
bump_generation_lem target_id fingerprint now items t f =
    let k : Key = (target_id, fingerprint) in
    let j : Key = (t, f) in
    let bumped = (bump_generation target_id fingerprint now items).0 in
    ground (arith, get_at-put_at k j bumped items, same_key→≡ k j)

-- The cleanups of the cache and the index remove exactly the entries of pairs and targets that are
-- not active, and deleting a target's statuses removes exactly that target's.
pub cleanups_exact :
    (active_keys : List Key) (active_target_ids : List String)
    (generations : PairDict CacheGenerationRecord) (statuses : PairDict IndexStatusRecord)
    (target_id t f : String)
    → (get_generation t f (cleanup_generations active_keys generations).0
        ≡ (if any_of (same_key (t, f)) active_keys then get_generation t f generations else none))
      × (get_status t f (cleanup_statuses active_target_ids statuses).0
          ≡ (if any_of (str_eq t) active_target_ids then get_status t f statuses else none))
      × (get_status t f (delete_for_target target_id statuses)
          ≡ (if str_eq t target_id then none else get_status t f statuses))
unfolding get_generation cleanup_generations get_status cleanup_statuses delete_for_target
cleanups_exact active_keys active_target_ids generations statuses target_id t f = (
  get_at-keep_keys (λ k. any_of (same_key k) active_keys) (t, f) generations,
  get_at-keep_keys (λ (x, snapshot). any_of (str_eq x) active_target_ids) (t, f) statuses,
  ground (arith, get_at-keep_keys (λ (x, snapshot). not (str_eq x target_id)) (t, f) statuses),
)
