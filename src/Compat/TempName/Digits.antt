-- ===== src/Compat/TempName/Digits.antt =====
-- The six digits of ports/glibc-compat/src/mktemp.c.
use webports.Prelude.{ℕ, ◌+◌, ◌-◌, ◌*◌, ◌<◌, List, [], ◌∷◌, ◌≡◌, arith}
use webports.Compat.TempName.{six_digits, char_0}

-- The number that decimal digits read, from `n` on.
abbrev pub read_digits : ℕ → List ℕ → ℕ
read_digits n [] = n
read_digits n (c ∷ rest) = read_digits (10 * n + (c - char_0)) rest

-- Below 1,000,000 the six characters read as the number, so that no two numbers give one name.
pub read_digits-six_digits : (i : ℕ) → i < 1000000 → read_digits 0 (six_digits i) ≡ i
unfolding six_digits
read_digits-six_digits i l = omega arith
