-- ===== src/Spawn/Var/Entries.antt =====
-- What the dictionary functions of ports/nacl-spawn/nacl_pp_helpers.c read and write.
use webports.Prelude.{
  ℕ, ℤ, pos, negsuc, is_negative, Bool, true, false, List, Option, none, some, ◌≡◌, ◌≢◌, refl, ap,
  subst, ◌∙◌, if◌then◌else◌,
}
use webports.Spawn.Var.{
  PpVar, int32, Pepper, dict_has_key, dict_set, dict_setint, dict_getint, dict_getbool, int_of,
  bool_of,
}

abbrev pub is_some : Option PpVar → Bool
is_some none = false
is_some (some x) = true

-- What the Pepper interface documents of a dictionary with the entries `entries`, and of the text of
-- a string.
pub record IsDictionary {K : Type 0} (pp : Pepper K) (dict : PpVar) (text : PpVar → K → List ℕ)
    (entries : K → List ℕ → Option PpVar) : Type 0 where
  pub utf8-text : (s : List ℕ) (k : K) → text (pp.var_from_utf8 s k).1 (pp.var_from_utf8 s k).0 ≡ s
  pub utf8-entries : (s : List ℕ) (k : K) → entries (pp.var_from_utf8 s k).0 ≡ entries k
  pub release-entries : (v : PpVar) (k : K) → entries (pp.release v k) ≡ entries k
  pub has-entry : (key : PpVar) (k : K) → pp.has_key dict key k ≡ is_some (entries k (text key k))
  pub get-entry :
      (key : PpVar) (k : K) (x : PpVar)
      → entries k (text key k) ≡ some x
      → (pp.get dict key k).1 ≡ x
  pub set-entry : (key v : PpVar) (k : K) → entries (pp.set dict key v k) (text key k) ≡ some v
  pub set-other :
      (key v : PpVar) (k : K) (s : List ℕ)
      → s ≢ text key k
      → entries (pp.set dict key v k) s ≡ entries k s

module _ {K : Type 0} (pp : Pepper K) (dict : PpVar) (text : PpVar → K → List ℕ)
    (entries : K → List ℕ → Option PpVar) (documented : IsDictionary pp dict text entries) where
  -- The entry of a key's variable is that of the key.
  fresh_entry :
      (key : List ℕ) (k : K)
      → entries
          (pp.var_from_utf8 key k).0
          (text (pp.var_from_utf8 key k).1 (pp.var_from_utf8 key k).0)
        ≡ entries k key
  fresh_entry key k =
      ap (entries (pp.var_from_utf8 key k).0) (documented.utf8-text key k)
      ∙ ap (λ f. f key) (documented.utf8-entries key k)

  -- If the interface is as documented, `nspawn_dict_has_key` finds the entry of the key, or none.
  pub dict_has_key_lem : (key : List ℕ) (k : K) → (dict_has_key pp dict key k).1 ≡ entries k key
  unfolding dict_has_key
  dict_has_key_lem key k =
      let key_var = (pp.var_from_utf8 key k).1 in
      let k1 = (pp.var_from_utf8 key k).0 in
      let has : pp.has_key dict key_var k1 ≡ is_some (entries k key) =
        documented.has-entry key_var k1 ∙ ap is_some (fresh_entry key k) in
      (elim (entries k key)
          as (λ o.
            entries k key ≡ o
            → pp.has_key dict key_var k1 ≡ is_some o
            → (dict_has_key pp dict key k).1 ≡ o) [
              | none ↦ λ e h. rw h refl
              | some x ↦
                  λ e h. rw h (ap some (documented.get-entry key_var k1 x (fresh_entry key k ∙ e)))
            ])
        refl has

  -- If the interface is as documented, `nspawn_dict_set` sets the key's entry, and no other.
  pub dict_set_lem :
      (key : List ℕ) (v : PpVar) (k : K)
      → (entries (dict_set pp dict key v k) key ≡ some v)
        × ((other : List ℕ)
            → other ≢ key
            → entries (dict_set pp dict key v k) other ≡ entries k other)
  unfolding dict_set
  dict_set_lem key v k =
      let key_var = (pp.var_from_utf8 key k).1 in
      let k1 = (pp.var_from_utf8 key k).0 in
      let k2 = pp.set dict key_var v k1 in
      let z = documented.utf8-text key k in
      let done : entries (pp.release v (pp.release key_var k2)) ≡ entries k2 =
        documented.release-entries v (pp.release key_var k2)
        ∙ documented.release-entries key_var k2 in
      (
        ap (λ f. f key) done
            ∙ subst (λ s. entries k2 s ≡ some v) z (documented.set-entry key_var v k1),
        λ other n.
            ap (λ f. f other) done
            ∙ documented.set-other key_var v k1 other (λ e. n (e ∙ z))
            ∙ ap (λ f. f other) (documented.utf8-entries key k),
      )

  int_of-result :
      (v : ℤ) (k : K)
      → (int_of pp (some (int32 v)) k).1 ≡ some (if is_negative v then negsuc 0 else v)
  unfolding int_of
  int_of-result (pos n) k = refl
  int_of-result (negsuc n) k = refl

  -- If the interface is as documented, `nspawn_dict_getint` of a key that `nspawn_dict_setint` set
  -- returns the number, or -1 if that is negative.
  pub dict_setint-dict_getint :
      (key : List ℕ) (v : ℤ) (k : K)
      → (dict_getint pp dict key (dict_setint pp dict key v k)).1
        ≡ some (if is_negative v then negsuc 0 else v)
  unfolding dict_getint dict_setint
  dict_setint-dict_getint key v k =
      let k1 = dict_set pp dict key (int32 v) k in
      let found = dict_has_key_lem key k1 ∙ (dict_set_lem key (int32 v) k).0 in
      ap (λ o. (int_of pp o (dict_has_key pp dict key k1).0).1) found
      ∙ int_of-result v (dict_has_key pp dict key k1).0

  -- If the interface is as documented, `nspawn_dict_getbool` of a key that is not in the dictionary
  -- returns true.
  pub dict_getbool-missing :
      (key : List ℕ) (k : K) → entries k key ≡ none → (dict_getbool pp dict key k).1 ≡ some true
  unfolding dict_getbool bool_of
  dict_getbool-missing key k e = ap (bool_of pp) (dict_has_key_lem key k ∙ e)
