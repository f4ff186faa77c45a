-- ===== src/Spawn/Paths/Examples.antt =====
-- The theorems on search paths at small inputs.
use webports.Prelude.{List, [], ◌∷◌, ◌++◌, some, ◌≡◌, refl, Text, map, true}
use webports.Spawn.Paths.{get_paths, directory, find_in_paths}
use webports.Spawn.Paths.Split.{get_paths-join, join, IsFirst, find_in_paths-IsFirst}

-- "/a::b:", whose last part is the empty text.
abbrev env_parts : List Text
env_parts = (b'/' ∷ b'a' ∷ []) ∷ [] ∷ (b'b' ∷ []) ∷ []

get_paths-join_example : get_paths (some (join env_parts [])) ≡ map directory env_parts ++ [] ∷ []
get_paths-join_example =
    get_paths-join env_parts [] ((refl, (refl, tt)), (tt, ((refl, tt), tt))) tt (λ e. cc)

get_paths_test :
    get_paths (some (join env_parts [])) ≡ (b'/' ∷ b'a' ∷ []) ∷ (b'.' ∷ []) ∷ (b'b' ∷ []) ∷ [] ∷ []
unfolding get_paths directory
get_paths_test = refl

find_in_paths-IsFirst_example :
    IsFirst
      (λ path. true)
      (b'x' ∷ [])
      env_parts
      (find_in_paths (λ path. true) (b'x' ∷ []) env_parts)
find_in_paths-IsFirst_example = find_in_paths-IsFirst (λ path. true) (b'x' ∷ []) env_parts
