-- ===== src/CommandPolicy/Tokens.antt =====
-- `safe_runtime_token`.
use docker_volume_backup.Base.{
  starts_with, ℕ, ◌==◌, Bool, not, ◌&&◌, ◌||◌, any_of, all_of, codes, codes_eq, is_digit, split_on,
  [],
}
use docker_volume_backup.CommandPolicy.Paths.{Text, is_text, is_letter}

-- The characters that a token may have; a path may have slashes, too.
abbrev pub is_token_char : Bool → ℕ → Bool
is_token_char path c =
    is_letter c
    || (is_digit c
        || (c == b'.'
            || (c == b'_' || (c == b':' || (c == b'+' || (c == b'-' || (path && c == b'/')))))))

-- `safe_runtime_token`, of a text
unfoldable pub safe_runtime_token : Text → Bool → Bool
safe_runtime_token value path =
    not (codes_eq value [] || any_of (is_text "..") (split_on b'/' value))
    && ((not path || starts_with (codes "/") value) && all_of (is_token_char path) value)
