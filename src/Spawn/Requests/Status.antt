-- ===== src/Spawn/Requests/Status.antt =====
-- The status that `waitpid` of ports/nacl-spawn/nacl_spawn.cc writes.
use webports.Prelude.{
  ℕ, ◌+◌, ◌*◌, ◌/◌, ◌%◌, ℤ, pos, negsuc, Option, none, some, Text, codes, ◌≡◌, refl, ap, sym, ◌∙◌,
  arith, ◌≤◌, subst, Bool-cases, inl, inr,
}
use webports.Spawn.Var.{
  PpVar, int32, Pepper, dict_create, dict_setstring, dict_setint, dict_getint, dict_has_key, int_of,
}
use webports.Spawn.Var.Entries.{IsDictionary, dict_has_key_lem}
use webports.Spawn.Requests.{Browser, low_byte, as_int, status_of, after_pid, waitpid_impl}

-- The remainder of an integer, in [0, 256).
abbrev pub IsRemainder : ℕ → ℤ → Type 0
IsRemainder r (pos n) = (q : ℕ) × (n ≡ q * 256 + r) × (r ≤ 255)
IsRemainder r (negsuc n) = (q : ℕ) × (n + 1 + r ≡ q * 256) × (r ≤ 255)

low_byte-IsRemainder : (raw : ℤ) → IsRemainder (low_byte raw) raw
low_byte-IsRemainder (pos n) = (n / 256, omega arith, omega arith)
low_byte-IsRemainder (negsuc n) = (n / 256 + 1, omega arith, omega arith)

-- To read from a dictionary changes none, nor does the error number.
pub record IsRead {K : Type 0} (pp : Pepper K) (entries : K → Text → Option PpVar) : Type 0 where
  pub get-entries : (dict key : PpVar) (k : K) → entries (pp.get dict key k).0 ≡ entries k
  pub errno-entries : (errno : ℕ) (k : K) → entries (pp.set_errno errno k) ≡ entries k

module _ {K : Type 0} (pp : Pepper K) (dict : PpVar) (text : PpVar → K → Text)
    (entries : K → Text → Option PpVar) (laws : IsDictionary pp dict text entries)
    (reads : IsRead pp entries) where
  dict_has_key-entries : (key : Text) (k : K) → entries (dict_has_key pp dict key k).0 ≡ entries k
  unfolding dict_has_key
  dict_has_key-entries key k =
      let k1 = (pp.var_from_utf8 key k).0 in
      let key_var = (pp.var_from_utf8 key k).1 in
      let k2 = (pp.get dict key_var k1).0 in
      let same : entries (pp.release key_var k2) ≡ entries k =
        laws.release-entries key_var k2
        ∙ reads.get-entries dict key_var k1
        ∙ laws.utf8-entries key k in
      elim (Bool-cases (pp.has_key dict key_var k1)) [
        | inl d ↦ rw d same
        | inr d ↦ rw d (laws.release-entries key_var k1 ∙ laws.utf8-entries key k)
      ]

  int_of-entries : (o : Option PpVar) (k : K) → entries (int_of pp o k).0 ≡ entries k
  unfolding int_of
  int_of-entries none k = refl
  int_of-entries (some (int32 (pos n))) k = refl
  int_of-entries (some (int32 (negsuc n))) k = reads.errno-entries (n + 1) k
  int_of-entries (some _) k = refl

  dict_getint-entries : (key : Text) (k : K) → entries (dict_getint pp dict key k).0 ≡ entries k
  unfolding dict_getint
  dict_getint-entries key k =
      int_of-entries (dict_has_key pp dict key k).1 (dict_has_key pp dict key k).0
      ∙ dict_has_key-entries key k

-- An entry that is missing or a number, and what `nspawn_dict_getint` makes of it: none or a negative
-- number is -1.
abbrev pub number_entry : Option ℤ → Option PpVar
number_entry none = none
number_entry (some v) = some (int32 v)

abbrev pub read_number : Option ℤ → ℤ
read_number (some (pos n)) = pos n
read_number (some (negsuc n)) = negsuc 0
read_number none = negsuc 0

int_of-read_number :
    {K : Type 0} (pp : Pepper K) (v : Option ℤ) (k : K)
    → (int_of pp (number_entry v) k).1 ≡ some (read_number v)
unfolding int_of
int_of-read_number pp (some (pos n)) k = refl
int_of-read_number pp (some (negsuc n)) k = refl
int_of-read_number pp none k = refl

-- If the reply is a dictionary as documented with a number as its status, and a number or nothing as
-- its pid, the pid is returned, or -1 for a negative or missing one, and the status that is written
-- reads as a normal exit, whose exit status, `(status >> 8) & 0xff`, is the reply's number modulo 256.
pub waitpid_impl-status :
    {K : Type 0} (b : Browser K) (reply : PpVar) (text : PpVar → K → Text)
    (entries : K → Text → Option PpVar) (raw pid options : ℤ) (who : Option ℤ) (k : K)
    → IsDictionary b.pp reply text entries
    → ((req : PpVar) (j : K) → (b.send_request req j).1 ≡ reply)
    → IsRead b.pp entries
    → ((req : PpVar) (j : K) → entries (b.send_request req j).0 (codes "status") ≡ some (int32 raw))
    → ((req : PpVar) (j : K) → entries (b.send_request req j).0 (codes "pid") ≡ number_entry who)
    → ((waitpid_impl b pid options k).1 ≡ some (read_number who))
      × (status : ℕ) × ((waitpid_impl b pid options k).2 ≡ some (pos status))
      × IsRemainder ((status / 256) % 256) raw
      × (status % 128 ≡ 0)
unfolding waitpid_impl status_of as_int after_pid dict_getint
waitpid_impl-status b reply text entries raw pid options who k laws same reads has is_from =
    let pp = b.pp in
    let k1 = (dict_create pp k).0 in
    let req = (dict_create pp k).1 in
    let k2 = dict_setstring pp req (codes "command") (codes "nacl_wait") k1 in
    let k4 =
      dict_setint pp req (codes "options") options (dict_setint pp req (codes "pid") pid k2) in
    let result = (b.send_request req k4).1 in
    let k6 = (dict_getint pp result (codes "pid") (b.send_request req k4).0).0 in
    let found : (dict_has_key pp result (codes "status") k6).1 ≡ some (int32 raw) =
      ap (λ d. (dict_has_key pp d (codes "status") k6).1) (same req k4)
      ∙ dict_has_key_lem pp reply text entries laws (codes "status") k6
      ∙ ap
          (λ d.
            entries (dict_getint pp d (codes "pid") (b.send_request req k4).0).0 (codes "status"))
          (same req k4)
      ∙ ap (λ e. e (codes "status"))
          (dict_getint-entries pp reply text entries laws reads (codes "pid")
            (b.send_request req k4).0)
      ∙ has req k4 in
    let j = (b.send_request req k4).0 in
    let from : (dict_getint pp result (codes "pid") j).1 ≡ some (read_number who) =
      ap (λ d. (dict_getint pp d (codes "pid") j).1) (same req k4)
      ∙ ap (λ o. (int_of pp o (dict_has_key pp reply (codes "pid") j).0).1)
          (dict_has_key_lem pp reply text entries laws (codes "pid") j ∙ is_from req k4)
      ∙ int_of-read_number pp who (dict_has_key pp reply (codes "pid") j).0 in
    let low : (low_byte raw * 256 / 256) % 256 ≡ low_byte raw = low_back raw in
    (
      from,
      low_byte raw * 256,
      ap (λ o. after_pid b o (dict_has_key pp result (codes "status") k6).1) from
          ∙ ap (status_of b) found,
      subst (λ r. IsRemainder r raw) (sym low) (low_byte-IsRemainder raw),
      omega arith,
    )
  where
    low_back : (raw : ℤ) → (low_byte raw * 256 / 256) % 256 ≡ low_byte raw
    low_back (pos n) = omega arith
    low_back (negsuc n) = omega arith
