-- ===== src/Compat/TempName/First.antt =====
-- Which name ports/glibc-compat/src/mktemp.c chooses.
use webports.Prelude.{
  ℕ, zero, suc, ◌+◌, ◌-◌, ◌<◌, ◌≤◌, negsuc, Option, none, some, List, [], ◌∷◌, ◌++◌, ◌≡◌, refl, sym,
  ap, subst, ◌∙◌, arith, length, length-append, true, false, ◌==◌, ==_refl, ne→==, ltb,
}
use webports.Compat.TempName.{
  Files, Made, made, outside, mkostemps, on_made, enoent, six_digits, take, drop, char_x,
  name_tries, search_name, make_name,
}

abbrev pub x_mark : List ℕ
x_mark = char_x ∷ char_x ∷ char_x ∷ char_x ∷ char_x ∷ char_x ∷ []

take-length : (xs ys : List ℕ) → take (length xs) (xs ++ ys) ≡ xs
take-length [] ys = refl
take-length (x ∷ xs) ys = ap (λ zs. x ∷ zs) (take-length xs ys)

drop-length : (xs ys : List ℕ) → drop (length xs) (xs ++ ys) ≡ ys
drop-length [] ys = refl
drop-length (x ∷ xs) ys = drop-length xs ys

drop-past : (n : ℕ) (xs ys : List ℕ) → drop (length xs + n) (xs ++ ys) ≡ drop n ys
drop-past n [] ys = let z : 0 + n ≡ n = omega arith in ap (λ m. drop m ys) z
drop-past n (x ∷ xs) ys =
    let z : suc (length xs) + n ≡ suc (length xs + n) = omega arith in
    ap (λ m. drop m (x ∷ (xs ++ ys))) z ∙ drop-past n xs ys

few : (n : ℕ) → n < 1000000 → n - 1 < name_tries
unfolding name_tries
few n l = omega arith

module _ {K : Type 0} (files : Files K) (prefix suffix : List ℕ) (open_flags : Option ℕ)
    (k : K) where
  -- The name with a number, and what `_mktemp` returns with it.
  abbrev pub numbered : ℕ → List ℕ
  numbered i = prefix ++ (six_digits i ++ suffix)

  abbrev pub opened : List ℕ → Option ℕ → Made K
  opened name none = made name (negsuc 0) k
  opened name (some flags) =
      made name (files.open_file name flags k).1 (files.open_file name flags k).0

  -- No file has the number.
  abbrev pub IsFree : ℕ → Type 0
  IsFree i = files.stat_errno (numbered i) k ≡ enoent

  search_name-first :
      (tries i d : ℕ)
      → d < tries
      → IsFree (i + d)
      → ((e : ℕ) → e < d → ¬ IsFree (i + e))
      → search_name files tries prefix suffix open_flags i k ≡ opened (numbered (i + d)) open_flags
  unfolding search_name
  search_name-first zero i d l f n = absurd (omega arith)
  search_name-first (suc tries) i zero l f n =
      let z : i + 0 ≡ i = omega arith in
      let d : (files.stat_errno (numbered i) k == enoent) ≡ true =
        rw (subst IsFree z f) (==_refl enoent) in
      rw (d, z) refl
  search_name-first (suc tries) i (suc d) l f n =
      let z : i + suc d ≡ (i + 1) + d = omega arith in
      let z0 : i + 0 ≡ i = omega arith in
      let b : (files.stat_errno (numbered i) k == enoent) ≡ false =
        ne→== (files.stat_errno (numbered i) k) enoent
          (subst (λ j. ¬ IsFree j) z0 (n 0 (omega arith))) in
      rw (b, z)
        (search_name-first tries (i + 1) d (omega arith) (subst IsFree z f) (λ e m g.
          let y : (i + 1) + e ≡ i + suc e = omega arith in
          n (suc e) (omega arith) (subst IsFree y g)))

  -- If a file's name is a template with the six marks before a suffix of the given length, and `n`,
  -- from 1 to 999,999, is the first number for which `stat` finds no file, then `_mktemp` returns
  -- the name with that number and, if it was asked to, what `open` of it returns, -1 included.
  pub make_name_lem :
      (n : ℕ)
      → 0 < n
      → n < 1000000
      → IsFree n
      → ((m : ℕ) → 0 < m → m < n → ¬ IsFree m)
      → make_name files (prefix ++ (x_mark ++ suffix)) (length suffix) open_flags k
        ≡ opened (numbered n) open_flags
  unfolding make_name
  make_name_lem n p l f h =
      let len = length (prefix ++ (x_mark ++ suffix)) in
      let sizes : len ≡ length prefix + (6 + length suffix) =
        length-append prefix (x_mark ++ suffix)
        ∙ ap (λ m. length prefix + m) (length-append x_mark suffix) in
      let start : len - length suffix - 6 ≡ length prefix = omega arith in
      let long : ltb len 6 ≡ false = ground arith in
      let inside : ltb len (length suffix + 6) ≡ false = ground arith in
      let marked : drop (length prefix) (prefix ++ (x_mark ++ suffix)) ≡ x_mark ++ suffix =
        drop-length prefix (x_mark ++ suffix) in
      let z : 1 + (n - 1) ≡ n = omega arith in
      rw
        (
          long,
          inside,
          start,
          marked,
          take-length prefix (x_mark ++ suffix),
          drop-past 6 prefix (x_mark ++ suffix),
        )
        (subst
          (λ j.
            search_name files name_tries prefix suffix open_flags 1 k
            ≡ opened (numbered j) open_flags)
          z
          (search_name-first name_tries 1 (n - 1) (few n l) (subst IsFree (sym z) f)
            (λ e m g. h (1 + e) (omega arith) (omega arith) g)))

-- Then `mkstemps` and `mkostemps` return what `open` returned on that name: -1, the name used up, if
-- a file of that name was made in between.
pub mkostemps_lem :
    {K : Type 0} (files : Files K) (prefix suffix : List ℕ) (flags : ℕ) (k : K) (n : ℕ)
    → 0 < n
    → n < 1000000
    → IsFree files prefix suffix none k n
    → ((m : ℕ) → 0 < m → m < n → ¬ IsFree files prefix suffix none k m)
    → mkostemps files (prefix ++ (x_mark ++ suffix)) (length suffix) flags k
      ≡ some (files.open_file (numbered files prefix suffix none k n) flags k)
unfolding mkostemps on_made
mkostemps_lem files prefix suffix flags k n p l f h =
    ap (on_made files (k, negsuc 0) (λ name fd k1. (k1, fd)))
      (make_name_lem files prefix suffix (some flags) k n p l f h)

-- `_mktemp` looks at the length of the template without that of the suffix: if the template is no
-- shorter than six characters but shorter than six and the suffix, it reads before its start.
pub make_name-outside :
    {K : Type 0} (files : Files K) (template : List ℕ) (suffixlen : ℕ) (open_flags : Option ℕ)
    (k : K)
    → 6 ≤ length template
    → length template < 6 + suffixlen
    → make_name files template suffixlen open_flags k ≡ outside
unfolding make_name
make_name-outside files template suffixlen open_flags k a b =
    let long : ltb (length template) 6 ≡ false = ground arith in
    let inside : ltb (length template) (suffixlen + 6) ≡ true = ground arith in
    rw (long, inside) refl
