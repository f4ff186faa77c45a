-- ===== src/Spawn/Var.antt =====
-- ports/nacl-spawn/nacl_pp_helpers.c: dictionaries and arrays of the browser's variables.
pub mod Insert
pub mod Entries
mod Examples
use webports.Prelude.{
  ℕ, zero, suc, ◌+◌, ◌-◌, ℤ, pos, negsuc, Bool, true, false, List, Option, none, some,
  if◌then◌else◌,
}

-- `struct PP_Var`: a value, or the identifier of an object.
pub data PpVar : Type 0 where
  undefined : PpVar
  null : PpVar
  bool : Bool → PpVar
  int32 : ℤ → PpVar
  string : ℕ → PpVar
  array : ℕ → PpVar
  dictionary : ℕ → PpVar
  array_buffer : ℕ → PpVar

-- The Pepper interfaces, on the state `K` of the browser's variables.
pub record Pepper (K : Type 0) : Type 0 where
  pub release : PpVar → K → K
  pub var_from_utf8 : List ℕ → K → K × PpVar
  pub dictionary_create : K → K × PpVar
  pub has_key : PpVar → PpVar → K → Bool
  pub get : PpVar → PpVar → K → K × PpVar
  pub set : PpVar → PpVar → PpVar → K → K
  pub array_create : K → K × PpVar
  pub get_length : PpVar → K → ℕ
  pub set_length : PpVar → ℕ → K → K
  pub array_get : PpVar → ℕ → K → K × PpVar
  pub array_set : PpVar → ℕ → PpVar → K → K
  pub set_errno : ℕ → K → K

module _ {K : Type 0} (pp : Pepper K) where
  unfoldable pub var_release : PpVar → K → K
  var_release var k = pp.release var k

  unfoldable pub dict_create : K → K × PpVar
  dict_create k = pp.dictionary_create k

  -- `nspawn_dict_has_key`, with its `out_value` if it has the key.
  unfoldable pub dict_has_key : PpVar → List ℕ → K → K × Option PpVar
  dict_has_key dict key k =
      let (k1, key_var) = pp.var_from_utf8 key k in
      let (k2, value) = pp.get dict key_var k1 in
      if pp.has_key dict key_var k1
      then (pp.release key_var k2, some value)
      else (pp.release key_var k1, none)

  unfoldable pub dict_get : PpVar → List ℕ → K → K × PpVar
  dict_get dict key k =
      let (k1, key_var) = pp.var_from_utf8 key k in
      let (k2, value) = pp.get dict key_var k1 in (pp.release key_var k2, value)

  unfoldable pub dict_set : PpVar → List ℕ → PpVar → K → K
  dict_set dict key value_var k =
      let (k1, key_var) = pp.var_from_utf8 key k in
      pp.release value_var (pp.release key_var (pp.set dict key_var value_var k1))

  unfoldable pub dict_setstring : PpVar → List ℕ → List ℕ → K → K
  unfolding dict_set
  dict_setstring dict key value k =
      let (k1, value_var) = pp.var_from_utf8 value k in dict_set dict key value_var k1

  unfoldable pub dict_setint : PpVar → List ℕ → ℤ → K → K
  unfolding dict_set
  dict_setint dict key v k = dict_set dict key (int32 v) k

  unfoldable pub array_create : K → K × PpVar
  array_create k = pp.array_create k

  -- The loop of `nspawn_array_insert`, `moves` items below `i`, each one place up.
  unfoldable pub move_up : PpVar → ℕ → ℕ → K → K
  move_up arr zero i k = k
  move_up arr (suc moves) i k =
      let (k1, from_var) = pp.array_get arr (i - 1) k in
      move_up arr moves (i - 1) (pp.release from_var (pp.array_set arr i from_var k1))

  -- `nspawn_array_insert`
  unfoldable pub array_insert : PpVar → ℕ → PpVar → K → K
  unfolding move_up
  array_insert arr index value_var k =
      let old_length = pp.get_length arr k in
      let k1 = pp.set_length arr (old_length + 1) k in
      let k2 = move_up arr (old_length - index) old_length k1 in
      pp.release value_var (pp.array_set arr index value_var k2)

  unfoldable pub array_setstring : PpVar → ℕ → List ℕ → K → K
  array_setstring arr index value k =
      let (k1, value_var) = pp.var_from_utf8 value k in
      pp.release value_var (pp.array_set arr index value_var k1)

  unfoldable pub array_insertstring : PpVar → ℕ → List ℕ → K → K
  unfolding array_insert
  array_insertstring arr index value k =
      let (k1, value_var) = pp.var_from_utf8 value k in array_insert arr index value_var k1

  unfoldable pub array_appendstring : PpVar → List ℕ → K → K
  unfolding array_setstring
  array_appendstring arr value k = array_setstring arr (pp.get_length arr k) value k

  -- `nspawn_dict_getint`, from what has been found; `none` is a failed assertion. A negative number
  -- is an error code.
  unfoldable pub int_of : Option PpVar → K → K × Option ℤ
  int_of none k = (k, some (negsuc 0))
  int_of (some (int32 (pos n))) k = (k, some (pos n))
  int_of (some (int32 (negsuc n))) k = (pp.set_errno (n + 1) k, some (negsuc 0))
  int_of (some _) k = (k, none)

  unfoldable pub dict_getint : PpVar → List ℕ → K → K × Option ℤ
  unfolding dict_has_key int_of
  dict_getint dict key k = let (k1, found) = dict_has_key dict key k in int_of found k1

  -- `nspawn_dict_getbool`, where -1 is returned as a `bool`, which is true.
  unfoldable pub bool_of : Option PpVar → Option Bool
  bool_of none = some true
  bool_of (some (bool b)) = some b
  bool_of (some _) = none

  unfoldable pub dict_getbool : PpVar → List ℕ → K → K × Option Bool
  unfolding dict_has_key bool_of
  dict_getbool dict key k = let (k1, found) = dict_has_key dict key k in (k1, bool_of found)

  unfoldable pub dict_getint_release : PpVar → List ℕ → K → K × Option ℤ
  unfolding dict_getint
  dict_getint_release dict key k =
      let (k1, ret) = dict_getint dict key k in (pp.release dict k1, ret)
