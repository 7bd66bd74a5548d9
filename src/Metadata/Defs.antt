-- ===== src/Metadata/Defs.antt =====
-- The records of src/control_plane/domain/models.py that these repositories keep, and
-- dictionaries whose keys are pairs of texts.
use docker_volume_backup.Base.{
  ℕ, String, Bool, ◌&&◌, Option, none, some, List, [], ◌∷◌, str_eq, if◌then◌else◌,
}
use docker_volume_backup.Json.{Fields}

pub record InventorySnapshot : Type 0 where
  pub worker_id : String
  pub inventory : Fields
  pub created_at : ℕ
  pub updated_at : ℕ

pub record RetentionPolicyRecord : Type 0 where
  pub name : String
  pub keep_last : Option ℕ
  pub keep_hourly : Option ℕ
  pub keep_daily : Option ℕ
  pub keep_weekly : Option ℕ
  pub keep_monthly : Option ℕ
  pub keep_yearly : Option ℕ
  pub prune : Bool
  pub labels : List (String × String)
  pub id : String
  pub created_at : ℕ
  pub updated_at : ℕ

pub record SnapshotRecord : Type 0 where
  pub target_id : String
  pub worker_id : String
  pub snapshot_id : String
  pub created_at : ℕ
  pub hostname : Option String
  pub paths : List String
  pub tags : List String
  pub summary : Fields
  pub id : String
  pub updated_at : ℕ

pub record TargetStatsRecord : Type 0 where
  pub target_id : String
  pub worker_id : String
  pub stats : Fields
  pub id : String
  pub updated_at : ℕ

pub record CacheGenerationRecord : Type 0 where
  pub target_id : String
  pub repository_fingerprint : String
  pub generation : ℕ
  pub updated_at : ℕ

pub record IndexStatusRecord : Type 0 where
  pub target_id : String
  pub snapshot_id : String
  pub status : String
  pub entry_count : ℕ
  pub updated_at : ℕ

abbrev pub Key : Type 0
Key = String × String

abbrev pub same_key : Key → Key → Bool
same_key (a, b) (c, d) = str_eq a c && str_eq b d

abbrev pub PairDict : Type 0 → Type 0
PairDict V = List (Key × V)

module _ {V : Type 0} where
  abbrev pub get_at : Key → PairDict V → Option V
  get_at k [] = none
  get_at k ((j, v) ∷ d) = if same_key j k then some v else get_at k d

  abbrev pub put_at : Key → V → PairDict V → PairDict V
  put_at k v [] = (k, v) ∷ []
  put_at k v ((j, w) ∷ d) = if same_key j k then (j, v) ∷ d else (j, w) ∷ put_at k v d
