-- ===== src/Spawn/Var/Examples.antt =====
-- The theorems on ports/nacl-spawn/nacl_pp_helpers.c on one array and on one dictionary.
use webports.Prelude.{pos, [], ◌∷◌, none, ◌≡◌, refl}
use webports.Spawn.Var.{undefined, null, int32, array, array_insert}
use webports.Spawn.Var.Insert.{array_insert_lem}
use webports.Spawn.Samples.{one_array, one_array-IsArray, Memory}

array_insert_lem_example :
    array_insert one_array (array 0) 1 null (undefined ∷ int32 (pos 3) ∷ [])
    ≡ undefined ∷ null ∷ int32 (pos 3) ∷ []
array_insert_lem_example =
    array_insert_lem one_array (array 0) (λ k. k) one_array-IsArray (undefined ∷ [])
      (int32 (pos 3) ∷ []) null (undefined ∷ int32 (pos 3) ∷ []) refl

abbrev empty : Memory
empty = ([], λ s. none)
