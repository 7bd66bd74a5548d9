-- ===== src/CommandPolicy/Paths.antt =====
-- Snapshot ids, paths and tree targets of `RuntimeCommandPolicy`. A text is its code points, and
-- `none` is the `ValueError`.
use docker_volume_backup.Base.{
  starts_with, ℕ, ◌==◌, leb, ltb, String, Bool, true, false, not, ◌&&◌, ◌||◌, Option, none, some,
  List, [], ◌∷◌, ◌++◌, reverse, codes, codes_eq, is_digit, any_of, all_of, length, count, before,
  after, split_on, if◌then◌else◌,
}

abbrev pub Text : Type 0
Text = List ℕ

-- `text == s`
abbrev pub is_text : String → Text → Bool
is_text s t = codes_eq t (codes s)

abbrev pub is_hex : ℕ → Bool
is_hex c = is_digit c || ((leb b'a' c && leb c b'f') || (leb b'A' c && leb c b'F'))

abbrev pub is_letter : ℕ → Bool
is_letter c = (leb b'a' c && leb c b'z') || (leb b'A' c && leb c b'Z')

-- `[A-Za-z0-9._-]`
abbrev pub is_name_char : ℕ → Bool
is_name_char c = is_letter c || (is_digit c || (c == b'.' || (c == b'_' || c == b'-')))

-- `_SNAPSHOT_ID_PATTERN`
abbrev pub is_snapshot_id : Text → Bool
is_snapshot_id value = leb 8 (length value) && (leb (length value) 64 && all_of is_hex value)

-- `_SAFE_TARGET_PATTERN`
abbrev pub is_safe_target : Text → Bool
is_safe_target value = leb 1 (length value) && (leb (length value) 128 && all_of is_name_char value)

-- `_RCLONE_REMOTE_PATTERN`
abbrev pub is_rclone_remote : Text → Bool
is_rclone_remote [] = false
is_rclone_remote (c ∷ cs) =
    (is_letter c || is_digit c)
    && (count b':' cs == 1 && (codes_eq (after b':' cs) [] && all_of is_name_char (before b':' cs)))

-- `validate_snapshot_id`
unfoldable pub validate_snapshot_id : Text → Option Text
validate_snapshot_id value = if is_snapshot_id value then some value else none

-- The loop of `posixpath.normpath` on an absolute path; `comps` is `new_comps`, last first.
unfoldable pub norm_comps : List Text → List Text → List Text
norm_comps comps [] = reverse comps
norm_comps comps (part ∷ parts) = elim (is_text "" part || is_text "." part) [
  | true ↦ norm_comps comps parts
  | false ↦ elim (is_text ".." part) [
    | true ↦ elim comps [ [] ↦ norm_comps [] parts | c ∷ cs ↦ norm_comps cs parts ]
    | false ↦ norm_comps (part ∷ comps) parts
  ]
]

-- `"/" + "/".join(parts)`, for at least one part, and `"/"` for none
unfoldable pub rooted : List Text → Text
rooted [] = b'/' ∷ []
rooted (part ∷ []) = b'/' ∷ part
rooted (part ∷ part' ∷ parts) = b'/' ∷ part ++ rooted (part' ∷ parts)

-- `posixpath.normpath` of a path that starts with one slash
unfoldable pub normpath : Text → Text
unfolding norm_comps rooted
normpath value = rooted (norm_comps [] (split_on b'/' value))

-- The checks of `normalize_snapshot_path`.
unfoldable pub is_snapshot_path : Text → Bool
is_snapshot_path value =
    not (ltb 4096 (length value) || any_of (λ c. c == 0) value)
    && (not (any_of (λ c. c == b'\\') value || any_of (λ c. ltb c 32) value)
        && (starts_with (codes "/") value && not (starts_with (codes "//") value))
        && not (any_of (is_text "..") (split_on b'/' value)))

-- `normalize_snapshot_path`, where the empty text stands for `None`, too
unfoldable pub normalize_snapshot_path : Text → Option Text
unfolding is_snapshot_path normpath
normalize_snapshot_path [] = some (codes "/")
normalize_snapshot_path (c ∷ cs) =
    if is_snapshot_path (c ∷ cs) then some (normpath (c ∷ cs)) else none

abbrev tree_path : Text → Option Text → Option (Text × Text)
tree_path snapshot_id none = none
tree_path snapshot_id (some path) = if is_text "/" path then none else some (snapshot_id, path)

-- `snapshot_tree_arguments`
unfoldable pub snapshot_tree_arguments : Text → Option (Text × Text)
unfolding normalize_snapshot_path
snapshot_tree_arguments value =
    let snapshot_id = before b':' value in
    if not (is_snapshot_id snapshot_id)
    then none
    else if count b':' value == 0
    then some (snapshot_id, codes "/")
    else tree_path snapshot_id (normalize_snapshot_path (after b':' value))
