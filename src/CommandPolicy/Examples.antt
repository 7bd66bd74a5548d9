-- ===== src/CommandPolicy/Examples.antt =====
-- The policy at concrete commands: tests, and the theorems at inputs that meet their hypotheses.
use docker_volume_backup.Base.{
  String, true, false, none, some, List, [], ◌∷◌, ◌≡◌, refl, codes, map, All, split_on, words,
}
use docker_volume_backup.CommandPolicy.Paths.{Text, rooted, normalize_snapshot_path}
use docker_volume_backup.CommandPolicy.Commands.{
  line, is_read_only, validate, restic_args, apply_lock_policy,
}
use docker_volume_backup.CommandPolicy.Scope.{ScopePayload, validate_snapshot_scope}
use docker_volume_backup.CommandPolicy.Confined.{IsName, normalize_snapshot_path-IsName}
use docker_volume_backup.CommandPolicy.Locks.{no_lock_only_reads}

abbrev texts : List String → List Text
texts items = map (λ s. codes s) items

abbrev snapshots : List Text
snapshots = texts ("restic" ∷ "snapshots" ∷ "--json" ∷ [])

listing : validate (line (codes "restic snapshots --json --no-lock")) ≡ some snapshots
unfolding validate words split_on restic_args
listing = refl

-- A command that writes cannot disable the lock, nor carry a shell's metacharacters.
unlocked_prune : validate (line (codes "restic prune --no-lock")) ≡ none
unfolding validate words split_on
unlocked_prune = refl

piped : validate (line (codes "restic snapshots --json | sh")) ≡ none
unfolding validate
piped = refl

retention :
    validate (line (codes "restic forget --keep-last 7 --prune"))
    ≡ some (texts ("restic" ∷ "forget" ∷ "--keep-last" ∷ "7" ∷ "--prune" ∷ []))
unfolding validate words split_on restic_args
retention = refl

no_lock_only_reads_example : is_read_only snapshots ≡ true
unfolding apply_lock_policy
no_lock_only_reads_example =
    no_lock_only_reads (line (codes "restic snapshots --json --no-lock")) true snapshots listing
      refl

abbrev photos : Text
photos = codes "/data/photos"

normalized : normalize_snapshot_path (codes "/data//./photos/") ≡ some photos
unfolding normalize_snapshot_path split_on
normalized = refl

climbing : normalize_snapshot_path (codes "/data/../etc") ≡ none
unfolding normalize_snapshot_path split_on
climbing = refl

normalize_snapshot_path-IsName_example :
    (names : List Text) × (photos ≡ rooted names) × All IsName names
normalize_snapshot_path-IsName_example =
    normalize_snapshot_path-IsName (codes "/data//./photos/") photos normalized

abbrev scope : ScopePayload
scope = record {
  target_id = some (codes "t1");
  snapshot_target_id = some (codes "t1");
  metadata_target_id = none;
  snapshot_id = some (codes "0123abcd");
  path = some (codes "/data/");
}

in_scope :
    validate_snapshot_scope scope (texts ("restic" ∷ "ls" ∷ "--json" ∷ "0123abcd" ∷ "/data" ∷ []))
    ≡ true
unfolding validate_snapshot_scope normalize_snapshot_path split_on
in_scope = refl

other_snapshot :
    validate_snapshot_scope scope (texts ("restic" ∷ "ls" ∷ "--json" ∷ "ffffffff" ∷ "/data" ∷ []))
    ≡ false
unfolding validate_snapshot_scope normalize_snapshot_path split_on
other_snapshot = refl
