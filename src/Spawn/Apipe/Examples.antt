-- ===== src/Spawn/Apipe/Examples.antt =====
-- The theorem on ports/nacl-spawn/nacl_apipe.c with a browser that always delivers two bytes.
use webports.Prelude.{
  ◌==◌, if◌then◌else◌, ℕ, pos, false, true, List, [], ◌∷◌, none, some, ◌≡◌, refl, ℤ, Option, subst,
  length,
}
use webports.Spawn.Var.{
  PpVar, Pepper, array_buffer, dictionary, string, undefined, null, int32, dict_getint, dict_get,
}
use webports.Spawn.Apipe.{PipeHost, Reply, gives, fault, error_text, read_request, apipe_read}
use webports.Spawn.Apipe.Delivers.{Answers, MapsAll, apipe_read-Delivers}

-- The state is the text of the string that was made last.
abbrev entry : List ℕ → PpVar
entry [] = undefined
entry (c ∷ rest) = if c == 100 then array_buffer 4 else int32 (pos 0)

abbrev pepper : Pepper (List ℕ)
pepper = record {
  release = λ v k. k;
  var_from_utf8 = λ s k. (s, string 0);
  dictionary_create = λ k. (k, dictionary 0);
  has_key = λ d v k. true;
  get = λ d v k. (k, entry k);
  set = λ d v x k. k;
  array_create = λ k. (k, null);
  get_length = λ a k. 0;
  set_length = λ a n k. k;
  array_get = λ a i k. (k, undefined);
  array_set = λ a i v k. k;
  set_errno = λ e k. k;
}

abbrev browser : PipeHost (List ℕ)
browser = record {
  send_request = λ v k. (k, dictionary 1);
  byte_length = λ v k. some 2;
  map_bytes = λ v k. some (7 ∷ 8 ∷ []);
  unmap = λ v k. k;
  create = λ n k. (k, array_buffer 5);
  fill = λ v b k. k;
  scan_id = λ p. none;
  register = λ k. (k, true);
  mkdir = λ k. k;
  mount = λ k. (k, pos 0);
}

browser_maps : MapsAll pepper browser
browser_maps d k len bytes e f =
    let z : 2 ≡ len = cc in let y : 7 ∷ 8 ∷ [] ≡ bytes = cc in subst (λ b. length b ≡ len) y z

apipe_read-Delivers_example :
    let sent = read_request pepper browser (pos 3) 16 false [] in
    let found = dict_getint pepper sent.1 error_text sent.0 in
    Answers pepper browser 16 sent.1 found.1 found.0 (apipe_read pepper browser (pos 3) 16 false [])
apipe_read-Delivers_example = apipe_read-Delivers pepper browser (pos 3) 16 false [] browser_maps

-- That call copies both bytes.
abbrev copied : {K : Type 0} → Reply K → Option (ℤ × List ℕ)
copied (gives r bytes k) = some (r, bytes)
copied fault = none

two_bytes : copied (apipe_read pepper browser (pos 3) 16 false []) ≡ some (pos 2, 7 ∷ 8 ∷ [])
unfolding apipe_read dict_getint dict_get
two_bytes = refl
