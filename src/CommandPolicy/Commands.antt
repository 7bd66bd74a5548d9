-- ===== src/CommandPolicy/Commands.antt =====
-- `RuntimeCommandPolicy.validate` and the lock policy.
use docker_volume_backup.Base.{
  ℕ, ◌==◌, leb, Bool, true, false, not, ◌&&◌, ◌||◌, Option, none, some, List, [], ◌∷◌, ◌++◌, codes,
  codes_eq, is_digit, any_of, all_of, keep_if, length, has, words, if◌then◌else◌,
}
use docker_volume_backup.CommandPolicy.Paths.{
  Text, is_text, is_snapshot_id, is_rclone_remote, normalize_snapshot_path, snapshot_tree_arguments,
}

-- A command as it arrives: absent, a text, a list of texts, or anything else.
pub data Command : Type 0 where
  absent : Command
  line : Text → Command
  items : List Text → Command
  unsupported : Command

-- `_SHELL_METACHARACTERS`
abbrev pub shell_metacharacters : List ℕ
shell_metacharacters =
    59 ∷ 124 ∷ 38 ∷ 96 ∷ 36 ∷ 62 ∷ 60 ∷ 92 ∷ 34 ∷ 39 ∷ 10 ∷ 13 ∷ 0 ∷ 40 ∷ 41 ∷ 123 ∷ 125 ∷ 91 ∷ 93
    ∷ 42 ∷ 63 ∷ 33 ∷ []

abbrev pub has_metacharacter : Text → Bool
has_metacharacter item = any_of (λ c. has c shell_metacharacters) item

abbrev pub is_no_lock : Text → Bool
is_no_lock item = is_text "--no-lock" item

-- `_READ_ONLY_OPERATIONS`
abbrev pub is_read_only_operation : Text → Bool
is_read_only_operation item =
    is_text "snapshots" item
    || (is_text "ls" item
        || (is_text "cat" item
            || (is_text "dump" item || (is_text "find" item || is_text "stats" item))))

-- `is_read_only`
unfoldable pub is_read_only : List Text → Bool
is_read_only (executable ∷ operation ∷ args) =
    is_text "restic" executable && is_read_only_operation operation
is_read_only _ = false

-- `apply_lock_policy`
unfoldable pub apply_lock_policy : List Text → Bool → List Text
unfolding is_read_only
apply_lock_policy argv no_lock =
    if not no_lock || (not (is_read_only argv) || any_of is_no_lock argv)
    then argv
    else argv ++ codes "--no-lock" ∷ []

abbrev is_keep_option : Text → Bool
is_keep_option item =
    is_text "--keep-last" item
    || (is_text "--keep-hourly" item
        || (is_text "--keep-daily" item
            || (is_text "--keep-weekly" item
                || (is_text "--keep-monthly" item || is_text "--keep-yearly" item))))

-- `item.isdigit()`
abbrev is_number : Text → Bool
is_number item = leb 1 (length item) && all_of is_digit item

-- The loop over the arguments of `forget`.
unfoldable pub retention_args : List Text → Bool
retention_args [] = true
retention_args (a ∷ []) = is_text "--prune" a
retention_args (a ∷ b ∷ rest) = elim (is_text "--prune" a) [
  | true ↦ retention_args (b ∷ rest)
  | false ↦ elim (is_keep_option a && is_number b) [ true ↦ retention_args rest | false ↦ false ]
]

abbrev pub keep_when : Bool → List Text → Option (List Text)
keep_when ok args = if ok then some args else none

-- `stats`
stats_args : List Text → Option (List Text)
stats_args (mode ∷ what ∷ json ∷ []) =
    keep_when
      (is_text "--mode" mode
        && ((is_text "raw-data" what || is_text "blobs-per-file" what) && is_text "--json" json))
      (mode ∷ what ∷ json ∷ [])
stats_args (mode ∷ what ∷ json ∷ id ∷ []) =
    keep_when
      (is_text "--mode" mode
        && (is_text "restore-size" what && (is_text "--json" json && is_snapshot_id id)))
      (mode ∷ what ∷ json ∷ id ∷ [])
stats_args _ = none

abbrev tree_target : Option (Text × Text) → Option (List Text)
tree_target none = none
tree_target (some (snapshot_id, path)) =
    some
      (codes "tree" ∷ (if is_text "/" path then snapshot_id else snapshot_id ++ b':' ∷ path) ∷ [])

-- `cat`
cat_args : List Text → Option (List Text)
unfolding snapshot_tree_arguments
cat_args (what ∷ target ∷ []) =
    if is_text "tree" what then tree_target (snapshot_tree_arguments target) else none
cat_args _ = none

abbrev with_path : List Text → Option Text → Option (List Text)
with_path args none = none
with_path args (some path) = some (args ++ path ∷ [])

-- `ls` and `find`
list_args : List Text → Option (List Text)
unfolding normalize_snapshot_path
list_args (json ∷ id ∷ []) = keep_when (is_text "--json" json && is_snapshot_id id) (json ∷ id ∷ [])
list_args (json ∷ id ∷ path ∷ []) =
    if is_text "--json" json && is_snapshot_id id
    then with_path (json ∷ id ∷ []) (normalize_snapshot_path path)
    else none
list_args _ = none

-- `dump`
dump_args : List Text → Option (List Text)
unfolding normalize_snapshot_path
dump_args (id ∷ path ∷ []) =
    if is_snapshot_id id then with_path (id ∷ []) (normalize_snapshot_path path) else none
dump_args (option ∷ format ∷ id ∷ path ∷ []) =
    if (is_text "-a" option || is_text "--archive" option)
      && (is_text "zip" format && is_snapshot_id id)
    then with_path (option ∷ format ∷ id ∷ []) (normalize_snapshot_path path)
    else none
dump_args _ = none

-- The arguments of a restic operation, as they are passed on.
unfoldable pub restic_args : Text → List Text → Option (List Text)
unfolding stats_args cat_args list_args dump_args retention_args
restic_args operation args =
    if is_text "snapshots" operation
    then keep_when (length args == 1 && all_of (is_text "--json") args) args
    else if is_text "stats" operation
    then stats_args args
    else if is_text "cat" operation
    then cat_args args
    else if is_text "ls" operation || is_text "find" operation
    then list_args args
    else if is_text "dump" operation
    then dump_args args
    else if is_text "forget" operation
    then keep_when (leb 1 (length args) && retention_args args) args
    else if is_text "prune" operation
    then keep_when (length args == 0) args
    else none

abbrev pub restic_argv : Text → Text → Option (List Text) → Option (List Text)
restic_argv executable operation none = none
restic_argv executable operation (some args) = some (executable ∷ operation ∷ args)

abbrev pub is_about : List Text → Bool
is_about (about ∷ remote ∷ json ∷ []) =
    is_text "about" about && (is_rclone_remote remote && is_text "--json" json)
is_about _ = false

-- The command without its `--no-lock`, as `validate` passes it on.
unfoldable pub supported : List Text → Option (List Text)
unfolding restic_args
supported [] = none
supported (executable ∷ args) =
    if is_text "/root/backup.sh" executable && length args == 0
    then some (executable ∷ args)
    else if is_text "rclone" executable
    then keep_when (is_about args) (executable ∷ args)
    else if not (is_text "restic" executable)
    then none
    else elim args [
      | [] ↦ none
      | operation ∷ rest ↦ restic_argv executable operation (restic_args operation rest)
    ]

-- The words of a command before the policy looks at them.
unfoldable pub command_words : Command → Option (List Text)
command_words absent = some (codes "/root/backup.sh" ∷ [])
command_words (line []) = some (codes "/root/backup.sh" ∷ [])
command_words (line (c ∷ cs)) = if has_metacharacter (c ∷ cs) then none else some (words (c ∷ cs))
command_words (items []) = none
command_words (items (item ∷ rest)) = some (item ∷ rest)
command_words unsupported = none

abbrev pub is_bad_item : Text → Bool
is_bad_item item = codes_eq item [] || has_metacharacter item

-- `validate` from the check of the items on
unfoldable pub validate_words : List Text → Option (List Text)
unfolding supported is_read_only
validate_words parts =
    let unlocked = keep_if (λ item. not (is_no_lock item)) parts in
    if any_of is_bad_item parts
    then none
    else if any_of is_no_lock parts && not (is_read_only unlocked)
    then none
    else supported unlocked

-- `validate`
unfoldable pub validate : Command → Option (List Text)
unfolding command_words validate_words
validate command = elim (command_words command) [ none ↦ none | some parts ↦ validate_words parts ]
