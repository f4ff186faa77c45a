-- ===== src/Spawn/Elf/Fields.antt =====
-- ports/nacl-spawn/elf_reader.cc: the file that it reads, and numbers from bytes.
use webports.Prelude.{
  ℕ, zero, suc, ◌+◌, ◌-◌, ◌*◌, ◌%◌, ℤ, pos, negsuc, [], ◌∷◌, Option, none, some, if◌then◌else◌, ltb,
  Text,
}

-- A file that is open. `seek` is what `fseek` does with an offset, which it takes as a `long`:
-- `none` is its failure, and `some p` the place where the stream then stands.
pub record File : Type 0 where
  pub contents : Text
  pub seek : ℕ → Option ℕ

infixl 5 ◌>>=◌
abbrev pub ◌>>=◌ {ℓ κ} : {A : Type ℓ} {B : Type κ} → Option A → (A → Option B) → Option B
none >>= f = none
some a >>= f = f a

unfoldable pub drop : ℕ → Text → Text
drop zero bytes = bytes
drop (suc n) [] = []
drop (suc n) (b ∷ bytes) = drop n bytes

unfoldable pub take : ℕ → Text → Text
take zero bytes = []
take (suc n) [] = []
take (suc n) (b ∷ bytes) = b ∷ take n bytes

-- One more byte before those that were read.
abbrev pub put_first : ℕ → Option (Text × Text) → Option (Text × Text)
put_first b none = none
put_first b (some (bytes, rest)) = some (b ∷ bytes, rest)

-- `fread` of `n` bytes from what is left of a stream: `none` if there are fewer.
unfoldable pub fread : ℕ → Text → Option (Text × Text)
fread zero stream = some ([], stream)
fread (suc n) [] = none
fread (suc n) (b ∷ stream) = put_first b (fread n stream)

-- `fseek`, with what is left of the stream after it.
unfoldable pub fseek : File → ℕ → Option Text
unfolding drop
fseek file off = do p ← file.seek off; some (drop p file.contents)

-- A little-endian number.
unfoldable pub number : Text → ℕ
number [] = 0
number (b ∷ bytes) = b + 256 * number bytes

-- The field of `width` bytes at an offset of a struct.
unfoldable pub field : ℕ → ℕ → Text → ℕ
unfolding number take drop
field off width bytes = number (take width (drop off bytes))

-- 2 ^ 31, 2 ^ 32 and 2 ^ 64
abbrev pub two_31 : ℕ
two_31 = 2147483648

abbrev pub two_32 : ℕ
two_32 = 4294967296

abbrev pub two_64 : ℕ
two_64 = 18446744073709551616

-- The conversion to `int`.
unfoldable pub to_int : ℕ → ℤ
to_int v = if ltb (v % two_32) two_31 then pos (v % two_32) else negsuc (two_32 - 1 - v % two_32)
