-- ===== src/Metadata/Stores.antt =====
-- The repositories' methods, as functions of the dictionary that they keep.
use docker_volume_backup.Base.{
  ℕ, suc, ◌+◌, String, Bool, not, Option, none, some, List, [], ◌∷◌, Dict, get, put, pop, values,
  present, or_else, any_of, keep_if, sort_by, str_eq, if◌then◌else◌,
}
use docker_volume_backup.Metadata.Defs.{
  InventorySnapshot, RetentionPolicyRecord, SnapshotRecord, TargetStatsRecord,
  CacheGenerationRecord, IndexStatusRecord, Key, same_key, PairDict, get_at, put_at,
}

-- `InMemoryInventoryRepository`
unfoldable pub save_inventory : InventorySnapshot → Dict InventorySnapshot → Dict InventorySnapshot
save_inventory snapshot items = put snapshot.worker_id snapshot items

unfoldable pub delete_inventory : String → Dict InventorySnapshot → Bool × Dict InventorySnapshot
delete_inventory worker_id items = (present (get worker_id items), pop worker_id items)

-- `InMemoryRetentionPolicyRepository`
unfoldable pub save_policy :
    RetentionPolicyRecord → Dict RetentionPolicyRecord → Dict RetentionPolicyRecord
save_policy policy items = put policy.id policy items

unfoldable pub list_policies : Dict RetentionPolicyRecord → List RetentionPolicyRecord
list_policies items = sort_by (λ policy. policy.created_at) (values items)

-- `InMemorySnapshotRepository.replace_for_target`
unfoldable pub replace_for_target :
    String → List SnapshotRecord → Dict (List SnapshotRecord) → Dict (List SnapshotRecord)
replace_for_target target_id snapshots items = put target_id snapshots items

-- `InMemorySnapshotRepository.list_by_target`
unfoldable pub list_by_target : String → Dict (List SnapshotRecord) → List SnapshotRecord
list_by_target target_id items = or_else (get target_id items) []

-- `InMemoryTargetStatsRepository.save`
unfoldable pub save_stats : TargetStatsRecord → Dict TargetStatsRecord → Dict TargetStatsRecord
save_stats stats_record items = put stats_record.target_id stats_record items

-- `InMemoryTargetStatsRepository.delete_by_worker`: whether it removed any, and what is left.
unfoldable pub delete_stats_by_worker :
    String → Dict TargetStatsRecord → Bool × Dict TargetStatsRecord
delete_stats_by_worker worker_id items = (
  any_of (λ (k, item). str_eq item.worker_id worker_id) items,
  keep_if (λ (k, item). not (str_eq item.worker_id worker_id)) items,
)

-- `InMemoryCacheRepository.get_generation`
unfoldable pub get_generation :
    String → String → PairDict CacheGenerationRecord → Option CacheGenerationRecord
get_generation target_id fingerprint items = get_at (target_id, fingerprint) items

abbrev pub current_generation : Option CacheGenerationRecord → ℕ
current_generation none = 0
current_generation (some r) = r.generation

-- `InMemoryCacheRepository.bump_generation`
unfoldable pub bump_generation :
    String
    → String
    → ℕ
    → PairDict CacheGenerationRecord
    → CacheGenerationRecord × PairDict CacheGenerationRecord
bump_generation target_id fingerprint now items =
    let bumped : CacheGenerationRecord = record {
      target_id = target_id;
      repository_fingerprint = fingerprint;
      generation = current_generation (get_at (target_id, fingerprint) items) + 1;
      updated_at = now;
    } in
    (bumped, put_at (target_id, fingerprint) bumped items)

-- The entries that `cleanup_orphaned` and `delete_for_target` keep, and how many it removes.
unfoldable pub keep_keys : {V : Type 0} → (Key → Bool) → PairDict V → PairDict V × ℕ
keep_keys live [] = ([], 0)
keep_keys live ((k, v) ∷ items) =
    let (kept, removed) = keep_keys live items in
    if live k then ((k, v) ∷ kept, removed) else (kept, suc removed)

-- `InMemoryCacheRepository.cleanup_orphaned`
unfoldable pub cleanup_generations :
    List Key → PairDict CacheGenerationRecord → PairDict CacheGenerationRecord × ℕ
unfolding keep_keys
cleanup_generations active_keys items = keep_keys (λ k. any_of (same_key k) active_keys) items

-- `InMemoryIndexRepository.upsert_status`
unfoldable pub upsert_status :
    IndexStatusRecord → PairDict IndexStatusRecord → PairDict IndexStatusRecord
upsert_status r items = put_at (r.target_id, r.snapshot_id) r items

-- `InMemoryIndexRepository.get_status`
unfoldable pub get_status : String → String → PairDict IndexStatusRecord → Option IndexStatusRecord
get_status target_id snapshot_id items = get_at (target_id, snapshot_id) items

-- `InMemoryIndexRepository.delete_for_target`
unfoldable pub delete_for_target : String → PairDict IndexStatusRecord → PairDict IndexStatusRecord
unfolding keep_keys
delete_for_target target_id items = (keep_keys (λ (t, snapshot). not (str_eq t target_id)) items).0

-- `InMemoryIndexRepository.cleanup_orphaned`
unfoldable pub cleanup_statuses :
    List String → PairDict IndexStatusRecord → PairDict IndexStatusRecord × ℕ
unfolding keep_keys
cleanup_statuses active_target_ids items =
    keep_keys (λ (t, snapshot). any_of (str_eq t) active_target_ids) items
