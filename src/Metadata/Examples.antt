-- ===== src/Metadata/Examples.antt =====
-- The repositories at concrete entries.
use docker_volume_backup.Base.{suc, none, [], ◌∷◌, ◌≡◌, refl, any_of, str_eq, if◌then◌else◌}
use docker_volume_backup.Metadata.Defs.{
  CacheGenerationRecord, IndexStatusRecord, same_key, PairDict,
}
use docker_volume_backup.Metadata.Stores.{
  get_generation, current_generation, bump_generation, cleanup_generations, get_status,
  cleanup_statuses, delete_for_target,
}
use docker_volume_backup.Metadata.Generations.{bump_generation_lem, cleanups_exact}

abbrev generations : PairDict CacheGenerationRecord
generations = (bump_generation "t1" "f1" 10 []).1

abbrev statuses : PairDict IndexStatusRecord
statuses =
    (
      ("t1", "s1"),
      record {
        target_id = "t1";
        snapshot_id = "s1";
        status = "ready";
        entry_count = 3;
        updated_at = 1;
      },
    )
    ∷ []

second_bump :
    current_generation (get_generation "t1" "f1" (bump_generation "t1" "f1" 20 generations).1) ≡ 2
unfolding bump_generation get_generation str_eq
second_bump = refl

bump_generation_lem_example :
    current_generation (get_generation "t1" "f1" (bump_generation "t1" "f1" 20 generations).1) ≡ (
      if same_key ("t1", "f1") ("t1", "f1")
      then suc (current_generation (get_generation "t1" "f1" generations))
      else current_generation (get_generation "t1" "f1" generations))
bump_generation_lem_example = bump_generation_lem "t1" "f1" 20 generations "t1" "f1"

cleanups_exact_example :
    (get_generation "t1" "f1" (cleanup_generations (("t1", "f2") ∷ []) generations).0 ≡ (
      if any_of (same_key ("t1", "f1")) (("t1", "f2") ∷ [])
      then get_generation "t1" "f1" generations
      else none))
    × (get_status "t1" "f1" (cleanup_statuses ("t2" ∷ []) statuses).0
        ≡ (if any_of (str_eq "t1") ("t2" ∷ []) then get_status "t1" "f1" statuses else none))
    × (get_status "t1" "f1" (delete_for_target "t1" statuses)
        ≡ (if str_eq "t1" "t1" then none else get_status "t1" "f1" statuses))
cleanups_exact_example =
    cleanups_exact (("t1", "f2") ∷ []) ("t2" ∷ []) generations statuses "t1" "t1" "f1"
