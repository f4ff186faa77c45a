-- ===== src/Spawn/Elf/Image/Bytes.antt =====
-- Little-endian numbers in bytes, and what the reader of ports/nacl-spawn/elf_reader.cc makes of them.
use webports.Prelude.{
  ℕ, zero, suc, ◌*◌, ◌/◌, ◌%◌, ◌<◌, [], ◌∷◌, ◌++◌, length, some, Text, ◌≡◌, refl, ap, arith,
}
use webports.Spawn.Elf.Fields.{number, fread, put_first}

abbrev pub bytes : ℕ → ℕ → Text
bytes zero n = []
bytes (suc w) n = n % 256 ∷ bytes w (n / 256)

-- 256 to the power of the width.
abbrev pub limit : ℕ → ℕ
limit zero = 1
limit (suc w) = 256 * limit w

pub number-bytes : (w n : ℕ) → n < limit w → number (bytes w n) ≡ n
unfolding number
number-bytes zero n h = omega arith
number-bytes (suc w) n h = omega (arith, number-bytes w (n / 256))

pub fread-append : (n : ℕ) (a r : Text) → length a ≡ n → fread n (a ++ r) ≡ some (a, r)
unfolding fread
fread-append zero [] r h = refl
fread-append zero (b ∷ a) r h = absurd (omega arith)
fread-append (suc n) [] r h = absurd (omega arith)
fread-append (suc n) (b ∷ a) r h = ap (put_first b) (fread-append n a r (omega arith))
