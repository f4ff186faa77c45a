-- ===== src/Compat/TempName.antt =====
-- ports/glibc-compat/src/mktemp.c: names for temporary files.
pub mod Digits
pub mod First
mod Examples
use webports.Prelude.{
  ℕ, zero, suc, ◌+◌, ◌-◌, ◌/◌, ◌%◌, ℤ, pos, negsuc, eq_int, Bool, ◌&&◌, List, [], ◌∷◌, ◌++◌, length,
  Option, none, some, true, ltb, ◌==◌, if◌then◌else◌,
}

-- `'X'` and `'0'`
abbrev pub char_x : ℕ
char_x = 88

abbrev pub char_0 : ℕ
char_0 = 48

abbrev pub enoent : ℕ
enoent = 2

-- The system: the error of `stat` on a path, 0 if it succeeds, and calls on the state `K` of the
-- file system.
pub record Files (K : Type 0) : Type 0 where
  pub stat_errno : List ℕ → K → ℕ
  pub open_file : List ℕ → ℕ → K → K × ℤ
  pub mkdir : List ℕ → K → K × ℤ

-- `sprintf("%06d", i)` below 1,000,000.
unfoldable pub six_digits : ℕ → List ℕ
six_digits i =
    (char_0 + i / 100000 % 10)
    ∷ (char_0 + i / 10000 % 10)
    ∷ (char_0 + i / 1000 % 10)
    ∷ (char_0 + i / 100 % 10)
    ∷ (char_0 + i / 10 % 10)
    ∷ (char_0 + i % 10)
    ∷ []

-- The first items of a list, and those behind them.
abbrev pub take : ℕ → List ℕ → List ℕ
take zero xs = []
take (suc n) [] = []
take (suc n) (x ∷ xs) = x ∷ take n xs

abbrev pub drop : ℕ → List ℕ → List ℕ
drop zero xs = xs
drop (suc n) [] = []
drop (suc n) (x ∷ xs) = drop n xs

abbrev pub all_x : List ℕ → Bool
all_x [] = true
all_x (c ∷ rest) = (c == char_x) && all_x rest

-- The numbers of six digits that the loop tries.
unfoldable pub name_tries : ℕ
name_tries = 999999

-- What `_mktemp` does: it returns the null pointer with EINVAL, reads before the template's start,
-- comes to the number 1,000,000, whose seventh digit goes over what follows the six characters, or
-- returns the template with these characters, and, if it was asked to open, a descriptor or -1. The
-- code has no test for a read before the start, whose outcome is not defined: `outside` stands for it.
pub data Made (K : Type 0) : Type 0 where
  invalid : Made K
  outside : Made K
  exhausted : Made K
  made : List ℕ → ℤ → K → Made K

module _ {K : Type 0} (files : Files K) where
  -- The loop over the numbers, from `i` on, `tries` at most. Without a place for a descriptor,
  -- `open_flags` is none.
  unfoldable pub search_name : ℕ → List ℕ → List ℕ → Option ℕ → ℕ → K → Made K
  unfolding six_digits
  search_name zero prefix suffix open_flags i k = exhausted
  search_name (suc tries) prefix suffix open_flags i k =
      let name = prefix ++ (six_digits i ++ suffix) in
      let later = search_name tries prefix suffix open_flags (i + 1) k in
      if files.stat_errno name k == enoent
      then elim open_flags [
        | none ↦ made name (negsuc 0) k
        | some flags ↦ let (k1, fd) = files.open_file name flags k in made name fd k1
      ]
      else later

  -- `_mktemp`
  unfoldable pub make_name : List ℕ → ℕ → Option ℕ → K → Made K
  unfolding search_name
  make_name template suffixlen open_flags k =
      let len = length template in
      let start = len - suffixlen - 6 in
      if ltb len 6
      then invalid
      else if ltb len (suffixlen + 6)
      then outside
      else if all_x (take 6 (drop start template))
      then search_name name_tries (take start template) (drop (start + 6) template) open_flags 1 k
      else invalid

  -- The result of a caller of `_mktemp`: `null k` where that returns the null pointer, and `none`
  -- where it goes outside the template.
  unfoldable pub on_made {ℓ} : {A : Type ℓ} → A → (List ℕ → ℤ → K → A) → Made K → Option A
  on_made null got invalid = some null
  on_made null got outside = none
  on_made null got exhausted = none
  on_made null got (made name fd k) = some (got name fd k)

  unfoldable pub mkdtemp : List ℕ → K → Option (K × Option (List ℕ))
  unfolding on_made make_name
  mkdtemp template k =
      on_made (k, none)
        (λ name fd k1.
          let (k2, err) = files.mkdir name k1 in
          if eq_int err (pos 0) then (k2, some name) else (k2, none))
        (make_name template 0 none k)

  -- The string that the template holds then.
  unfoldable pub mktemp : List ℕ → K → Option (List ℕ)
  unfolding on_made make_name
  mktemp template k = on_made [] (λ name fd k1. name) (make_name template 0 none k)

  unfoldable pub mkostemps : List ℕ → ℕ → ℕ → K → Option (K × ℤ)
  unfolding on_made make_name
  mkostemps template suffixlen flags k =
      on_made (k, negsuc 0) (λ name fd k1. (k1, fd)) (make_name template suffixlen (some flags) k)

  unfoldable pub mkostemp : List ℕ → ℕ → K → Option (K × ℤ)
  unfolding mkostemps
  mkostemp template flags k = mkostemps template 0 flags k

  -- `excl` is `O_RDWR | O_EXCL | O_CREAT`.
  unfoldable pub mkstemps : ℕ → List ℕ → ℕ → K → Option (K × ℤ)
  unfolding mkostemps
  mkstemps excl template suffixlen k = mkostemps template suffixlen excl k

  unfoldable pub mkstemp : ℕ → List ℕ → K → Option (K × ℤ)
  unfolding mkostemps
  mkstemp excl template k = mkostemps template 0 excl k
