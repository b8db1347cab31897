-- ===== src/Control/Access.antt =====
-- The paths that active validation may request (pkg/controlset/executor.go). `clean` stands for
-- `path.Clean`, and `parse` for the path that `url.Parse` reads, or its error.
pub mod Laws
use basecheck_agent.Prelude.{
  ℕ, Bool, true, false, not, ◌&&◌, ◌||◌, ◌==◌, Option, none, some, List, [], ◌∷◌, ◌++◌,
  if◌then◌else◌,
}
use basecheck_agent.Text.{Text, text, text_eq, is_empty, contains, has_prefix, trim_space}

-- `strings.HasSuffix(s, "/")`
unfoldable pub ends_in_slash : Text → Bool
ends_in_slash [] = false
ends_in_slash (c ∷ []) = c == b'/'
ends_in_slash (c ∷ (d ∷ s)) = ends_in_slash (d ∷ s)

-- An allowed path with the slash that ends its last segment.
abbrev pub directory_of : Text → Text
directory_of allowed = if ends_in_slash allowed then allowed else allowed ++ text "/"

module _ (clean : Text → Text) where
  unfoldable pub active_validation_path_allowed : Text → List Text → Bool
  active_validation_path_allowed candidate [] = false
  active_validation_path_allowed candidate (raw ∷ paths) =
      let allowed = clean (trim_space raw) in
      let rest = active_validation_path_allowed candidate paths in
      if is_empty (trim_space raw)
      then rest
      else text_eq candidate allowed || (has_prefix candidate (directory_of allowed) || rest)

  module _ (parse : Text → Option Text) where
    -- `none` is any of the errors.
    unfoldable pub canonicalize_active_validation_path : Text → Option Text
    canonicalize_active_validation_path raw =
        let trimmed = trim_space raw in
        if is_empty trimmed
        then none
        else if contains trimmed (text "://")
        then none
        else if not (has_prefix trimmed (text "/"))
        then none
        else elim (parse trimmed) [
          | none ↦ none
          | some path ↦ if has_prefix (clean path) (text "/") then some (clean path) else none
        ]

    unfoldable pub authorize_active_validation_path : List Text → Text → Option Text
    authorize_active_validation_path paths request =
        let trimmed = trim_space request in
        elim (canonicalize_active_validation_path trimmed) [
          | none ↦ none
          | some canonical ↦
              if active_validation_path_allowed canonical paths then some trimmed else none
        ]
