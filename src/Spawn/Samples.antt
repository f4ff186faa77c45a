-- ===== src/Spawn/Samples.antt =====
-- A small instance of the Pepper interface, for the examples of ports/nacl-spawn.
use webports.Prelude.{
  ℕ, zero, suc, ◌+◌, ◌*◌, ◌/◌, ◌%◌, ◌≤◌, ◌<◌, true, false, List, [], ◌∷◌, ◌++◌, length, ◌==◌, ◌≡◌,
  refl, ap, ◌∙◌, if◌then◌else◌, arith, Text, Option, none, some, eq_text, eq_text_iff, eq_text_refl,
  Bool-cases, inl, inr,
}
use webports.Spawn.Var.{PpVar, undefined, null, Pepper, array, string, dictionary}
use webports.Spawn.Var.Entries.{is_some, IsDictionary}
use webports.Spawn.Var.Insert.{IsArray}

-- Texts as numbers.
abbrev pub encode_cons : ℕ → ℕ → ℕ
encode_cons zero n = 2 * n + 1
encode_cons (suc x) n = 2 * encode_cons x n

abbrev pub encode : Text → ℕ
encode [] = 0
encode (x ∷ xs) = encode_cons x (encode xs)

abbrev raise : Text → Text
raise [] = []
raise (x ∷ xs) = suc x ∷ xs

unfoldable pub decode : ℕ → ℕ → Text
decode zero n = []
decode (suc f) n =
    let rest = decode f (n / 2) in
    if n == 0 then [] else if n % 2 == 1 then 0 ∷ rest else raise rest

encode_cons_pos : (x n : ℕ) → 0 < encode_cons x n
encode_cons_pos zero n = omega arith
encode_cons_pos (suc x) n = omega (arith, encode_cons_pos x n)

decode-encode_cons :
    (x n f : ℕ) (xs : Text)
    → ((g : ℕ) → n ≤ g → decode g n ≡ xs)
    → encode_cons x n ≤ f
    → decode f (encode_cons x n) ≡ x ∷ xs
unfolding decode
decode-encode_cons x n zero xs h l = absurd (omega (arith, encode_cons_pos x n))
decode-encode_cons zero n (suc f) xs h l =
    let half : (2 * n + 1) / 2 ≡ n = omega arith in
    let odd : ((2 * n + 1) % 2 == 1) ≡ true = ground arith in
    let positive : (2 * n + 1 == 0) ≡ false = ground arith in
    rw (positive, odd, half) (ap (λ t. 0 ∷ t) (h f (omega arith)))
decode-encode_cons (suc x) n (suc f) xs h l =
    let m = encode_cons x n in
    let above = encode_cons_pos x n in
    let half : (2 * m) / 2 ≡ m = omega arith in
    let even : ((2 * m) % 2 == 1) ≡ false = ground arith in
    let positive : (2 * m == 0) ≡ false = ground arith in
    rw (positive, even, half) (ap raise (decode-encode_cons x n f xs h (omega arith)))

decode-encode : (s : Text) (f : ℕ) → encode s ≤ f → decode f (encode s) ≡ s
unfolding decode
decode-encode [] zero h = refl
decode-encode [] (suc f) h = refl
decode-encode (x ∷ xs) f h = decode-encode_cons x (encode xs) f xs (decode-encode xs) h

abbrev pub text_of : PpVar → Text
text_of (string n) = decode n n
text_of _ = []

pub text_of-string : (s : Text) → text_of (string (encode s)) ≡ s
text_of-string s = decode-encode s (encode s) (omega arith)

abbrev pub item : ℕ → List PpVar → PpVar
item n [] = undefined
item zero (x ∷ xs) = x
item (suc n) (x ∷ xs) = item n xs

abbrev put_item : ℕ → PpVar → List PpVar → List PpVar
put_item n v [] = v ∷ []
put_item zero v (x ∷ xs) = v ∷ xs
put_item (suc n) v (x ∷ xs) = x ∷ put_item n v xs

item_at : (xs : List PpVar) (x : PpVar) (ys : List PpVar) → item (length xs) (xs ++ x ∷ ys) ≡ x
item_at [] x ys = refl
item_at (y ∷ xs) x ys = item_at xs x ys

put_item_at :
    (xs : List PpVar) (x : PpVar) (ys : List PpVar) (v : PpVar)
    → put_item (length xs) v (xs ++ x ∷ ys) ≡ xs ++ v ∷ ys
put_item_at [] x ys v = refl
put_item_at (y ∷ xs) x ys v = ap (λ t. y ∷ t) (put_item_at xs x ys v)

-- The state is the items of the only array, which each dictionary has for each key; a string's
-- number is the code of its text.
abbrev pub one_array : Pepper (List PpVar)
one_array = record {
  release = λ v k. k;
  var_from_utf8 = λ s k. (k, string (encode s));
  dictionary_create = λ k. (k, null);
  has_key = λ d v k. false;
  get = λ d v k. (k, array 0);
  set = λ d v x k. k;
  array_create = λ k. ([], array 0);
  get_length = λ a k. length k;
  set_length = λ a n k. k ++ undefined ∷ [];
  array_get = λ a i k. (k, item i k);
  array_set = λ a i v k. put_item i v k;
  set_errno = λ e k. k;
}

pub one_array-IsArray : IsArray one_array (array 0) (λ k. k)
one_array-IsArray = record {
  length-items = λ k. refl;
  extend-items = λ k. refl;
  get-items = λ i k. refl;
  get-item = λ k xs x ys e. ap (item (length xs)) e ∙ item_at xs x ys;
  set-items = λ k xs x ys v e. ap (put_item (length xs) v) e ∙ put_item_at xs x ys v;
  release-items = λ v k. refl;
}

pub put_item-end : (xs : List PpVar) (v : PpVar) → put_item (length xs) v xs ≡ xs ++ v ∷ []
put_item-end [] v = refl
put_item-end (x ∷ xs) v = ap (λ t. x ∷ t) (put_item-end xs v)

-- The state is the text of the string that was made last, and the entries of the only dictionary.
abbrev pub Memory : Type 0
Memory = List ℕ × (List ℕ → Option PpVar)

abbrev or_undefined : Option PpVar → PpVar
or_undefined none = undefined
or_undefined (some x) = x

abbrev pub one_dictionary : Pepper Memory
one_dictionary = record {
  release = λ v k. k;
  var_from_utf8 = λ s k. ((s, k.1), string 0);
  dictionary_create = λ k. (k, dictionary 0);
  has_key = λ d v k. is_some (k.1 k.0);
  get = λ d v k. (k, or_undefined (k.1 k.0));
  set = λ d v x k. (k.0, λ s. if eq_text s k.0 then some x else k.1 s);
  array_create = λ k. (k, null);
  get_length = λ a k. 0;
  set_length = λ a n k. k;
  array_get = λ a i k. (k, undefined);
  array_set = λ a i v k. k;
  set_errno = λ e k. k;
}

pub one_dictionary-IsDictionary : IsDictionary one_dictionary (dictionary 0) (λ v k. k.0) (λ k. k.1)
one_dictionary-IsDictionary = record {
  utf8-text = λ s k. refl;
  utf8-entries = λ s k. refl;
  release-entries = λ v k. refl;
  has-entry = λ v k. refl;
  get-entry = λ v k x e. ap or_undefined e;
  set-entry = λ v x k. rw (eq_text_refl k.0) refl;
  set-other = λ v x k s n. elim (Bool-cases (eq_text s k.0)) [
    | inl d ↦ absurd (n ((eq_text_iff s k.0).0 d))
    | inr d ↦ rw d refl
  ];
}
