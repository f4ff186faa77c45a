-- ===== src/Spawn/Paths.antt =====
-- ports/nacl-spawn/path_util.cc: the directories of a search path, and the search.
pub mod Split
mod Examples
use webports.Prelude.{
  ℕ, Bool, true, false, List, [], ◌∷◌, ◌++◌, Option, none, some, ◌==◌, if◌then◌else◌, Text,
}

-- `':'`
abbrev pub colon : ℕ
colon = 58

-- A part of the search path that a colon ends: an empty one is the current directory.
unfoldable pub directory : Text → Text
directory [] = b'.' ∷ []
directory (c ∷ part) = c ∷ part

-- The loop of `nspawn_get_paths`: `part` is what stands from `env` up to `p`.
unfoldable pub split : Text → Text → List Text
unfolding directory
split part [] = part ∷ []
split part (c ∷ rest) = elim (c == colon) [
  | true ↦ directory part ∷ split [] rest
  | false ↦ split (part ++ c ∷ []) rest
]

-- `nspawn_get_paths`, on a list that is empty; `none` is a null pointer.
unfoldable pub get_paths : Option Text → List Text
unfolding split
get_paths none = []
get_paths (some []) = []
get_paths (some (c ∷ env)) = split [] (c ∷ env)

-- `nspawn_find_in_paths`; `access path` says whether `access(path, R_OK)` returns 0.
unfoldable pub find_in_paths : (Text → Bool) → Text → List Text → Option Text
find_in_paths access basename [] = none
find_in_paths access basename (dir ∷ paths) =
    let path = dir ++ b'/' ∷ basename in
    let later = find_in_paths access basename paths in if access path then some path else later
