-- ===== src/Compat/TempName/Examples.antt =====
-- The theorems on ports/glibc-compat/src/mktemp.c on a system in which the names ending in 1 are taken.
use webports.Prelude.{
  subst, ℕ, ◌+◌, ◌<◌, pos, negsuc, none, List, [], ◌∷◌, ◌≡◌, refl, arith, ◌==◌, if◌then◌else◌,
}
use webports.Compat.TempName.{Files, made, make_name, enoent, six_digits}
use webports.Compat.TempName.First.{IsFree, make_name_lem}

abbrev last_errno : ℕ → List ℕ → ℕ
last_errno c [] = if c == 49 then 0 else enoent
last_errno c (x ∷ rest) = last_errno x rest

abbrev names : Files ℕ
names = record {
  stat_errno = λ name k. last_errno 0 name;
  open_file = λ name flags k. (k + 1, pos 3);
  mkdir = λ name k. (k, pos 0);
}

abbrev tmp : List ℕ
tmp = 97 ∷ 46 ∷ []

two-IsFree : IsFree names tmp [] none 0 2
unfolding six_digits
two-IsFree = refl

one_taken : ¬ IsFree names tmp [] none 0 1
unfolding six_digits
one_taken e = omega arith

only_two : (m : ℕ) → 0 < m → m < 2 → ¬ IsFree names tmp [] none 0 m
only_two m a b f = let z : m ≡ 1 = omega arith in one_taken (subst (IsFree names tmp [] none 0) z f)

make_name_lem_example :
    make_name names (97 ∷ 46 ∷ 88 ∷ 88 ∷ 88 ∷ 88 ∷ 88 ∷ 88 ∷ []) 0 none 0
    ≡ made (97 ∷ 46 ∷ six_digits 2) (negsuc 0) 0
unfolding six_digits
make_name_lem_example =
    make_name_lem names tmp [] none 0 2 (omega arith) (omega arith) two-IsFree only_two
